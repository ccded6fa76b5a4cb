-- ===== src/Unicode/Properties/Ends.antt =====
-- The membership tests of src/properties.rs come to an end.
use perex.Base.{
  ℕ, zero, suc, ◌+◌, ◌≢◌, List, Bool, ltb, if◌then◌else◌, stuck, arith, Bool-cases, inl, inr,
  Option-cases, get_elem?,
}
use perex.Base.{>>=-ends}
use perex.Unicode.Search.{bit}
use perex.Unicode.Properties.{
  PropertyTables, at, slice, in_ascii, last_before, in_category, in_bounds, in_row, contains,
  identifier,
}

at-ends : {A : Type 0} (xs : List A) (i : ℕ) → at xs i ≢ stuck
at-ends xs i = elim (Option-cases (get_elem? xs i)) [
  | inl e ↦ rw e (λ f. cc)
  | inr (x, e) ↦ rw e (λ f. cc)
]

last_before-ends : (xs : List ℕ) (k : ℕ) → last_before xs k ≢ stuck
unfolding last_before
last_before-ends xs zero f = cc
last_before-ends xs (suc k) f = at-ends xs k f

in_row-ends : (t : PropertyTables) (c : ℕ) (row : List ℕ) → in_row t c row ≢ stuck
unfolding in_row in_ascii in_category in_bounds
in_row-ends t c row = elim (Bool-cases (ltb c 128)) [
  | inl e ↦ rw e (>>=-ends (at row _) _ (at-ends row _) λ w f. cc)
  | inr e ↦ rw e (
      >>=-ends (at row 0) _ (at-ends row 0) λ first. elim (Bool-cases (bit first 31)) [
        | inl e2 ↦ rw e2 (
            >>=-ends (at row 1) _ (at-ends row 1) λ mask.
              >>=-ends (last_before t.category _) _ (last_before-ends t.category _) λ v f. cc)
        | inr e2 ↦ rw e2 (
            >>=-ends (at row 1) _ (at-ends row 1) λ count.
              >>=-ends (slice t.bounds first (first + count)) _ (λ f. ground arith) λ b f. cc)
      ])
]

pub identifier-ends : (t : PropertyTables) (c : ℕ) (first : Bool) → identifier t c first ≢ stuck
unfolding identifier contains
identifier-ends t c first f = ground (
  arith,
  >>=-ends (at t.rows (if first then t.id_start else t.id_continue)) (in_row t c) (at-ends t.rows _)
      (in_row-ends t c),
)
