-- ===== src/Executor/Classes/Decide.antt =====
-- `class_decide` of src/executor.rs against the phase that it saves: `begin_class` and `class_step`.
use perex.Base.{
  ℕ, zero, suc, ◌+◌, ◌-◌, ◌*◌, ◌/◌, ◌%◌, ◌==◌, ltb, leb, min, max, ◌≤◌, ◌<◌, ◌≡◌, ◌≢◌, refl, sym,
  ap, ◌∙◌, arith, List, [], ◌∷◌, Option, none, some, Bool, true, false, not, ◌&&◌, if◌then◌else◌,
}
use perex.Base.{
  length, get_elem?, Option-cases, Bool-cases, inl, inr, Run-cases, Run, ret, panic, stuck, le→ltb,
  lt→leb, le→leb, leb→le,
}
use perex.Base
use perex.Unicode.Casefold.{within}
use perex.Unicode.Search.{bit}
use perex.Unicode.Properties.{PropertyTables}
use perex.Unicode.Properties
use perex.Executor.State.{Phase}
use perex.Executor.Machine.{Vm}
use perex.Executor.Monad.{Result}
use perex.Executor.Store.Laws.{charge-spent, charge-exhausted, spent}
use perex.Executor.Classes.{
  search_range, scan_ranges, class_batch, range_has, range_has_any, differ, any, descriptor_of,
}

-- The machine in another phase.
abbrev pub phased : Phase → Vm → Vm
phased p vm = record vm { state = record vm.state { phase = p } }

-- How a paid unit and a read range end.
data Fetched (index : ℕ) (vm : Vm) : Type 0 where
  short : vm.budget.remaining < 1 → Fetched index vm
  absent : 1 ≤ vm.budget.remaining → get_elem? vm.sections.ranges index ≡ none → Fetched index vm
  present :
      (lo hi : ℕ)
      → 1 ≤ vm.budget.remaining
      → get_elem? vm.sections.ranges index ≡ some (lo, hi)
      → Fetched index vm

fetched : (index : ℕ) (vm : Vm) → Fetched index vm
fetched index vm = elim (Bool-cases (leb 1 vm.budget.remaining)) [
  | inr t ↦ short (ground arith)
  | inl t ↦ elim (Option-cases (get_elem? vm.sections.ranges index)) [
    | inl g ↦ absent (leb→le 1 vm.budget.remaining t) g
    | inr (r, g) ↦ present r.0 r.1 (leb→le 1 vm.budget.remaining t) g
  ]
]

abbrev pub all_phased {ℓ} : {A : Type ℓ} → Phase → Run (Result A × Vm) → Run (Result A × Vm)
all_phased p (ret (r, vm)) = ret (r, phased p vm)
all_phased p panic = panic
all_phased p stuck = stuck

-- The search reads no phase.
pub search_range-phased :
    (fuel low high c : ℕ) (p : Phase) (vm : Vm)
    → search_range fuel low high c (phased p vm) ≡ all_phased p (search_range fuel low high c vm)
unfolding search_range
search_range-phased zero low high c p vm = refl
search_range-phased (suc fuel) low high c p vm = elim (Bool-cases (ltb low high)) [
  | inr t ↦ rw t refl
  | inl t ↦ elim (fetched (low + (high - low) / 2) vm) [
    | short s ↦ rw (t, charge-exhausted 1 vm s, charge-exhausted 1 (phased p vm) s) refl
    | absent s g ↦ rw (t, charge-spent 1 vm s, charge-spent 1 (phased p vm) s, g) refl
    | present lo hi s g ↦ elim (Bool-cases (ltb c lo)) [
      | inl x ↦
          rw (t, charge-spent 1 vm s, charge-spent 1 (phased p vm) s, g, x)
            (search_range-phased fuel low (low + (high - low) / 2) c p (spent 1 vm))
      | inr x ↦ elim (Bool-cases (ltb hi c)) [
        | inl y ↦
            rw (t, charge-spent 1 vm s, charge-spent 1 (phased p vm) s, g, x, y)
              (search_range-phased fuel (low + (high - low) / 2 + 1) high c p (spent 1 vm))
        | inr y ↦ rw (t, charge-spent 1 vm s, charge-spent 1 (phased p vm) s, g, x, y) refl
      ]
    ]
  ]
]

-- One character four times is one character.
abbrev pub four : ℕ → List ℕ
four c = c ∷ c ∷ c ∷ c ∷ []

any-four : (test : ℕ → Run Bool) (c : ℕ) → any test (four c) ≡ test c
any-four test c = elim (Run-cases (test c)) [
  | inl (true, h) ↦ rw h refl
  | inl (false, h) ↦ rw h refl
  | inr (inl h) ↦ rw h refl
  | inr (inr h) ↦ rw h refl
]

range_has-four :
    (t : PropertyTables) (lo hi c : ℕ) → range_has_any t lo hi (four c) ≡ range_has t lo hi c
unfolding range_has_any range_has
range_has-four t lo hi c = elim (Bool-cases (bit lo 30)) [
  | inl x ↦ elim (Bool-cases (hi == 2)) [
    | inl y ↦ rw (x, y, any-four (Properties.contains t (descriptor_of lo)) c) refl
    | inr y ↦
        rw (x, y)
          (any-four
            (λ value.
              Base.◌>>=◌ (Properties.contains t (descriptor_of lo) value)
                (λ inside. ret (differ inside (not (hi == 0)))))
            c)
  ]
  | inr x ↦ rw x (any-four (λ value. ret (within lo hi value)) c)
]

-- The batch of the phase and the scan that needs none.
pub class_batch-phased :
    (n index c : ℕ) (p : Phase) (vm : Vm)
    → class_batch n index (four c) (phased p vm) ≡ all_phased p (scan_ranges n index c vm)
unfolding class_batch scan_ranges
class_batch-phased zero index c p vm = refl
class_batch-phased (suc n) index c p vm = elim (fetched index vm) [
  | short s ↦ rw (charge-exhausted 1 vm s, charge-exhausted 1 (phased p vm) s) refl
  | absent s g ↦ rw (charge-spent 1 vm s, charge-spent 1 (phased p vm) s, g) refl
  | present lo hi s g ↦
      let q : range_has_any vm.properties lo hi (four c) ≡ range_has vm.properties lo hi c =
        range_has-four vm.properties lo hi c in
      elim (Run-cases (range_has vm.properties lo hi c)) [
        | inl (true, h) ↦ rw (charge-spent 1 vm s, charge-spent 1 (phased p vm) s, g, q, h) refl
        | inl (false, h) ↦
            rw (charge-spent 1 vm s, charge-spent 1 (phased p vm) s, g, q, h)
              (class_batch-phased n (suc index) c p (spent 1 vm))
        | inr (inl h) ↦ rw (charge-spent 1 vm s, charge-spent 1 (phased p vm) s, g, q, h) refl
        | inr (inr h) ↦ rw (charge-spent 1 vm s, charge-spent 1 (phased p vm) s, g, q, h) refl
      ]
]
