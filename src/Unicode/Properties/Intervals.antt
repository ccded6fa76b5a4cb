-- ===== src/Unicode/Properties/Intervals.antt =====
-- The binary search over interval boundaries in src/properties.rs, as membership in the intervals.
use perex.Base.{
  ℕ, suc, ◌+◌, ◌%◌, ◌≤◌, ◌<◌, ◌≡◌, refl, ap, ◌∙◌, arith, Bool, true, false, not, List, [], ◌∷◌,
  some,
}
use perex.Base.{ltb, leb, ◌==◌, ◌&&◌, ◌||◌, get_elem?, ret, Bool-cases, inl, inr, le→ltb, lt→leb}
use perex.Unicode.Search.{partition_point, bit, Ascending}
use perex.Unicode.Properties.{PropertyTables, contains, slice}

-- Two boundaries at a time: an interval's first character and the one behind its last; an odd last
-- boundary begins an interval without an end.
abbrev pub in_intervals : List ℕ → ℕ → Bool
in_intervals [] c = false
in_intervals (a ∷ []) c = leb a c
in_intervals (a ∷ b ∷ bs) c = (leb a c && ltb c b) || in_intervals bs c

odd_step : (n : ℕ) → not (suc (suc n) % 2 == 0) ≡ not (n % 2 == 0)
odd_step n = let h : suc (suc n) % 2 ≡ n % 2 = omega arith in rw h refl

above : (c b : ℕ) (bs : List ℕ) → Ascending b bs → c < b → in_intervals bs c ≡ false
above c b [] s h = refl
above c b (x ∷ []) s h = ground (arith, s.0)
above c b (x ∷ y ∷ bs) s h =
    let r : in_intervals bs c ≡ false =
      above c y bs s.1.1 (let p = s.0 in let q = s.1.0 in omega arith) in
    rw (lt→leb x c (let p = s.0 in omega arith), r) refl

parity-in_intervals :
    (lo c : ℕ) (bs : List ℕ)
    → Ascending lo bs
    → not (partition_point (λ point. leb point c) bs % 2 == 0) ≡ in_intervals bs c
unfolding partition_point
parity-in_intervals lo c [] s = refl
parity-in_intervals lo c (a ∷ []) s = elim (Bool-cases (leb a c)) [
  | inl h ↦ rw h refl
  | inr h ↦ rw h refl
]
parity-in_intervals lo c (a ∷ b ∷ bs) s = elim (Bool-cases (leb a c)) [
  | inr h ↦
      let p : b ≤ c → a ≤ c = λ k. let q = s.1.0 in omega arith in
      let r : in_intervals bs c ≡ false = above c b bs s.1.1 (let q = s.1.0 in ground arith) in
      rw (h, r) refl
  | inl h ↦ elim (Bool-cases (leb b c)) [
    | inr k ↦
        let r : in_intervals bs c ≡ false = above c b bs s.1.1 (ground arith) in
        let l : ltb c b ≡ true = ground arith in rw (h, k, l) refl
    | inl k ↦
        let l : ltb c b ≡ false = ground arith in
        rw (h, k, l)
          (odd_step (partition_point (λ point. leb point c) bs) ∙ parity-in_intervals b c bs s.1.1)
  ]
]

-- A property that is stored as boundaries in ascending order contains a character beyond ASCII exactly
-- where one of its intervals does.
pub contains-in_intervals :
    (t : PropertyTables) (id c start count a b d e : ℕ) (bs : List ℕ)
    → get_elem? t.rows id ≡ some (start ∷ count ∷ a ∷ b ∷ d ∷ e ∷ [])
    → 128 ≤ c
    → bit start 31 ≡ false
    → slice t.bounds start (start + count) ≡ ret bs
    → Ascending 0 bs
    → contains t id c ≡ ret (in_intervals bs c)
unfolding contains
contains-in_intervals t id c start count a b d e bs q h k l s =
    rw (q, le→ltb c 128 h, k, l) (ap (λ x. ret x) (parity-in_intervals 0 c bs s))
