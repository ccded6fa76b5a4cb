-- ===== src/Executor/Trial/Validating.antt =====
-- The check of a match's captures, `Phase::Validate` of src/executor.rs.
use perex.Base.{
  ℕ, zero, suc, ◌-◌, ◌+◌, ◌*◌, ◌/◌, ◌≤◌, ◌<◌, ◌≡◌, ◌≢◌, refl, sym, ap, ◌∙◌, arith, List, [], ◌∷◌,
  Option, none, some, ltb, leb, Bool, true, false, ◌==◌, min, max,
}
use perex.Base.{
  get_elem?, get_elem?-some, length, if◌then◌else◌, Run, ret, Bool-cases, inl, inr, le→ltb, lt→leb,
  ◌⊎◌,
}
use perex.Base
use mathlib.Core.Path.{subst}
use perex.Program.{capture_count}
use perex.Executor.State.{invalid_program, finished, validate, unset}
use perex.Executor.Machine.{Vm}
use perex.Executor.Monad.{Result, ok, fails, chained}
use perex.Executor.Store.{set_phase}
use perex.Executor.Store.Laws.{charge-spent, spent}
use perex.Executor.Trial.{validate_captures, bad_capture, validate_phase}

-- A capture of a subject of so many units: it begins and ends within the subject, in this order, or
-- it has no value on one side, which the capture of the whole match may not have.
abbrev pub IsWithin : ℕ → ℕ → ℕ → ℕ → Type 0
IsWithin units index lo hi =
    (((lo ≡ unset) ⊎ (hi ≡ unset)) × (0 < index))
    ⊎ ((lo ≢ unset) × (hi ≢ unset) × (lo ≤ hi) × (hi ≤ units))

bad_capture-false :
    (units index lo hi : ℕ) → bad_capture units index lo hi ≡ false → IsWithin units index lo hi
unfolding bad_capture
bad_capture-false units index lo hi h = elim (Bool-cases (lo == unset)) [
  | inl a ↦ inl (inl (ground arith), ground arith)
  | inr a ↦ elim (Bool-cases (hi == unset)) [
    | inl b ↦ inl (inr (ground arith), ground arith)
    | inr b ↦
        let p : ltb hi lo ≡ false = ground arith in
        let q : ltb units hi ≡ false = ground arith in
        inr ((λ e. ground arith), (λ e. ground arith), ground arith, ground arith)
  ]
]

bad_capture-true :
    (units index lo hi : ℕ) → bad_capture units index lo hi ≡ true → ¬ IsWithin units index lo hi
unfolding bad_capture
bad_capture-true units index lo hi h (inl (inl a, b)) = ground arith
bad_capture-true units index lo hi h (inl (inr a, b)) = ground arith
bad_capture-true units index lo hi h (inr (a, b, c, d)) = ground arith

-- The capture's registers are there and are a span of the subject, or have no value.
pub record IsGood (vm : Vm) (index : ℕ) : Type 0 where
  pub lo : ℕ
  pub hi : ℕ
  pub has_lo : get_elem? vm.registers (index * 2) ≡ some lo
  pub has_hi : get_elem? vm.registers (index * 2 + 1) ≡ some hi
  pub good : IsWithin vm.input.utf16_len index lo hi

pub record IsBad (vm : Vm) (index : ℕ) : Type 0 where
  pub lo : ℕ
  pub hi : ℕ
  pub has_lo : get_elem? vm.registers (index * 2) ≡ some lo
  pub has_hi : get_elem? vm.registers (index * 2 + 1) ≡ some hi
  pub bad : ¬ IsWithin vm.input.utf16_len index lo hi

-- How the check of the captures from `low` up to `high` ends.
pub data Validated (low high : ℕ) (vm : Vm) : Run (Result (Unit {0}) × Vm) → Type 0 where
  valid :
      ((i : ℕ) → low ≤ i → i < high → IsGood vm i)
      → Validated low high vm (ret (ok tt, spent ((high - low) * 2) vm))
  invalid :
      (i k : ℕ)
      → low ≤ i
      → i < high
      → IsBad vm i
      → k ≤ (high - low) * 2
      → Validated low high vm (ret (fails invalid_program, spent k vm))

later :
    (low high : ℕ) (vm : Vm) (end : Run (Result (Unit {0}) × Vm))
    → low < high
    → IsGood vm low
    → Validated (suc low) high (spent 2 vm) end
    → Validated low high vm end
later low high vm end l g (valid all) =
    let z : vm.budget.remaining - 2 - (high - suc low) * 2
        ≡ vm.budget.remaining - (high - low) * 2 =
      omega arith in
    rw z (
      valid (λ i a b. elim (Bool-cases (low == i)) [
        | inl t ↦ let q : low ≡ i = ground arith in subst (λ j. IsGood vm j) q g
        | inr t ↦
            let w : IsGood (spent 2 vm) i = all i (ground arith) b in
            record { lo = w.lo; hi = w.hi; has_lo = w.has_lo; has_hi = w.has_hi; good = w.good }
      ]))
later low high vm end l g (invalid i k a b w c) =
    let z : vm.budget.remaining - 2 - k ≡ vm.budget.remaining - (2 + k) = omega arith in
    rw z (
      invalid i (2 + k) (omega arith) b
        (record { lo = w.lo; hi = w.hi; has_lo = w.has_lo; has_hi = w.has_hi; bad = w.bad })
        (omega arith))

validate_captures-Validated :
    (n low : ℕ) (vm : Vm)
    → n * 2 ≤ vm.budget.remaining
    → (low + n) * 2 ≤ length vm.registers
    → Validated low (low + n) vm (validate_captures n low vm)
unfolding validate_captures
validate_captures-Validated zero low vm m l =
    let z : vm.budget.remaining - (low + 0 - low) * 2 ≡ vm.budget.remaining = omega arith in
    subst
      (λ r.
        Validated low (low + 0) vm (ret (ok tt, record vm { budget = record { remaining = r } })))
      z (valid (λ i a b. absurd (omega arith)))
validate_captures-Validated (suc n) low vm m l =
    let (lo, a) = get_elem?-some vm.registers (low * 2) (omega arith) in
    let (hi, b) = get_elem?-some vm.registers (low * 2 + 1) (omega arith) in
    let s : 2 ≤ vm.budget.remaining = omega arith in
    let e : low + suc n ≡ suc low + n = omega arith in
    elim (Bool-cases (bad_capture vm.input.utf16_len low lo hi)) [
      | inl t ↦
          rw (charge-spent 2 vm s, a, b, t)
            (invalid low 2 (omega arith) (omega arith)
              (record {
                lo = lo;
                hi = hi;
                has_lo = a;
                has_hi = b;
                bad = bad_capture-true vm.input.utf16_len low lo hi t;
              })
              (omega arith))
      | inr t ↦
          rw (charge-spent 2 vm s, a, b, t) rw e
            (later low (suc low + n) vm _ (omega arith)
              (record {
                lo = lo;
                hi = hi;
                has_lo = a;
                has_hi = b;
                good = bad_capture-false vm.input.utf16_len low lo hi t;
              })
              (validate_captures-Validated n (suc low) (spent 2 vm) (omega arith) (omega arith)))
    ]

-- How a round of the check ends: the match stands, the round hands on what it left, or a capture is bad.
pub data Checks (count index : ℕ) (vm : Vm) : Run (Result (Unit {0}) × Vm) → Type 0 where
  stands :
      (after : Vm)
      → ((i : ℕ) → index ≤ i → i < count → IsGood vm i)
      → after.state.phase ≡ finished true
      → after.registers ≡ vm.registers
      → Checks count index vm (ret (ok tt, after))
  further :
      (end : ℕ) (after : Vm)
      → index < end
      → end < count
      → ((i : ℕ) → index ≤ i → i < end → IsGood vm i)
      → after.state.phase ≡ validate end
      → after.registers ≡ vm.registers
      → Checks count index vm (ret (ok tt, after))
  wrong :
      (i : ℕ) (after : Vm)
      → index ≤ i
      → i < count
      → IsBad vm i
      → Checks count index vm (ret (fails invalid_program, after))

Checks-end :
    (count index end : ℕ) (vm : Vm) (run : Run (Result (Unit {0}) × Vm))
    → (index < end) ⊎ (end ≡ count)
    → end ≤ count
    → Validated index end vm run
    → Checks count index vm (
        Base.◌>>=◌ run
          (chained (λ u. set_phase (if end == count then finished true else validate end))))
Checks-end count index end vm run h b (valid all) = elim (Bool-cases (end == count)) [
  | inl t ↦
      let e : end ≡ count = ground arith in
      rw t (stands _ (λ i p q. all i p (omega arith)) refl refl)
  | inr t ↦ rw t (further end _ (ground arith) (ground arith) all refl refl)
]
Checks-end count index end vm run h b (invalid i k p q w d) = wrong i _ p (omega arith) w

progress :
    (count index available : ℕ)
    → index ≤ count
    → (index < min count (index + min (max (available / 2) 1) 128))
      ⊎ (min count (index + min (max (available / 2) 1) 128) ≡ count)
progress count index available b = elim (Bool-cases (ltb index count)) [
  | inl t ↦ inl (ground arith)
  | inr t ↦ inr (ground arith)
]

-- `Phase::Validate`, on a budget of two units for each capture that is left and on registers for all of
-- them, ends: the match stands, and every capture from `index` on is good; or the check goes on at a
-- later capture, and all before that are good; or it reports an invalid program, and one is not. A
-- capture is good that begins and ends within the subject, in this order; one but the first may
-- lack a side.
pub validate_phase-Checks :
    (count index available : ℕ) (vm : Vm)
    → capture_count vm.program ≡ ret count
    → index ≤ count
    → (count - index) * 2 ≤ vm.budget.remaining
    → count * 2 ≤ length vm.registers
    → Checks count index vm (validate_phase index available vm)
unfolding validate_phase
validate_phase-Checks count index available vm c b m l =
    let end : ℕ = min count (index + min (max (available / 2) 1) 128) in
    let e : index + (end - index) ≡ end = omega arith in
    let v : Validated index end vm (validate_captures (end - index) index vm) =
      subst (λ k. Validated index k vm (validate_captures (end - index) index vm)) e
        (validate_captures-Validated (end - index) index vm (omega arith) (omega arith)) in
    rw c (
      Checks-end count index end vm (validate_captures (end - index) index vm)
        (progress count index available b) (omega arith) v)
