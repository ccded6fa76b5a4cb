-- ===== src/Executor/Trial/Starting.antt =====
-- How a trial starts, `initialize` and `begin_trial` of src/executor.rs.
use perex.Base.{
  ℕ, zero, suc, ◌-◌, ◌+◌, ◌*◌, ◌≤◌, ◌<◌, ◌≡◌, refl, sym, ap, ◌∙◌, arith, List, [], some, true,
  false, ◌==◌, min,
}
use perex.Base.{
  get_elem?, get_elem?-set, get_elem?-set_ne, length, length-set, set, Run, ret, Bool-cases, inl,
  inr, le→ltb, le→leb, ◌⊎◌,
}
use mathlib.Core.Path.{subst}
use perex.Program.{capture_count}
use perex.Input.View.{mark}
use perex.Input.View
use perex.Executor.State.{trial, initialize, unset}
use perex.Executor.Machine.{Vm}
use perex.Executor.Monad.{Result, ok}
use perex.Executor.Store.Laws.{charge-spent, spent}
use perex.Executor.Trial.{initialize_phase, begin_trial, skip_verified, fill}
use perex.Executor.Undoing.Snapshots.{IsSound, snapshots}

pub get_elem?-fill :
    (xs : List ℕ) (i n x j : ℕ)
    → i + n ≤ length xs
    → ((i ≤ j) × (j < i + n) → get_elem? (fill xs i n x) j ≡ some x)
      × ((j < i) ⊎ (i + n ≤ j) → get_elem? (fill xs i n x) j ≡ get_elem? xs j)
unfolding fill
get_elem?-fill xs i zero x j h =
    ((λ w. absurd (let a : i ≤ j = w.0 in let b : j < i + 0 = w.1 in omega arith)), (λ w. refl))
get_elem?-fill xs i (suc n) x j h =
    let r = get_elem?-fill (set xs i x) (suc i) n x j (omega (arith, length-set xs i x)) in
    (
      (λ w.
          let a : i ≤ j = w.0 in
          let b : j < i + suc n = w.1 in
          elim (Bool-cases (i == j)) [
            | inl t ↦
                let e : i ≡ j = ground arith in
                r.1 (inl (omega arith)) ∙ (rw⁻¹ e (get_elem?-set xs i x (omega arith)))
            | inr t ↦ r.0 ((ground arith), (omega arith))
          ]),
      (λ w.
          r.1 (elim w [ inl a ↦ inl (omega arith) | inr a ↦ inr (omega arith) ])
          ∙ get_elem?-set_ne xs i j x (λ e. elim w [ inl a ↦ omega arith | inr a ↦ omega arith ])),
    )

-- The registers from `index` up to `end` have no value, and the others have what they had.
pub record Cleared (index end : ℕ) (vm after : Vm) : Type 0 where
  pub clear : (j : ℕ) → index ≤ j → j < end → get_elem? after.registers j ≡ some unset
  pub others :
      (j : ℕ) → (j < index) ⊎ (end ≤ j) → get_elem? after.registers j ≡ get_elem? vm.registers j
  pub paid : after.budget.remaining + (end - index) ≡ vm.budget.remaining

-- A round hands on what it left, or the trial begins: at the start, at the first instruction, forwards,
-- inside no assertion, with no frame and no journal.
pub data Begins (count index : ℕ) (vm : Vm) : Run (Result (Unit {0}) × Vm) → Type 0 where
  further :
      (end : ℕ) (after : Vm)
      → index < end
      → end < count
      → Cleared index end vm after
      → after.state.phase ≡ initialize end
      → Begins count index vm (ret (ok tt, after))
  begins :
      (after : Vm)
      → Cleared index count vm after
      → after.state.phase ≡ trial
      → after.state.pc ≡ 0
      → after.state.reverse ≡ false
      → after.state.assertion ≡ unset
      → after.state.frames ≡ 0
      → after.state.undo ≡ 0
      → mark after.cursor ≡ vm.state.start
      → IsSound after
      → snapshots after ≡ []
      → Begins count index vm (ret (ok tt, after))

filled : ℕ → ℕ → Vm → Vm
filled index n vm = record (spent n vm) { registers = fill vm.registers index n unset }

filled-Cleared :
    (index n : ℕ) (vm : Vm)
    → index + n ≤ length vm.registers
    → n ≤ vm.budget.remaining
    → Cleared index (index + n) vm (filled index n vm)
unfolding filled
filled-Cleared index n vm l m = record {
  clear = λ j a b. (get_elem?-fill vm.registers index n unset j l).0 (a, b);
  others = λ j w. (get_elem?-fill vm.registers index n unset j l).1 w;
  paid = omega arith;
}

skip_verified-none : (vm : Vm) → vm.state.verified ≡ 0 → skip_verified vm ≡ ret (ok tt, vm)
unfolding skip_verified
skip_verified-none vm h =
    let z : (vm.state.verified == 0) ≡ true = ground arith in
    rw z (ap (λ k. ret (ok tt, record vm { state = record vm.state { verified = k } })) (sym h))

-- `Phase::Initialize`, where no character of the start is confirmed already, on registers and a budget
-- for the captures that are left: it clears a batch of the capture registers, one unit for each, and
-- hands on the rest, or it clears all that are left and a trial begins, at the start and at the first
-- instruction, forwards, inside no assertion, with no frame and no journal.
pub initialize_phase-Begins :
    (count index available : ℕ) (vm : Vm)
    → capture_count vm.program ≡ ret count
    → vm.state.verified ≡ 0
    → index < count * 2
    → 1 ≤ available
    → count * 2 ≤ length vm.registers
    → count * 2 - index ≤ vm.budget.remaining
    → Begins (count * 2) index vm (initialize_phase index available vm)
unfolding initialize_phase begin_trial View.restore mark filled
initialize_phase-Begins count index available vm c v b q l m =
    let end : ℕ = min (count * 2) (index + min available 256) in
    let z1 : (index == count * 2) ≡ false = ground arith in
    let e : index + (end - index) ≡ end = omega arith in
    let w : Cleared index end vm (filled index (end - index) vm) =
      subst (λ k. Cleared index k vm (filled index (end - index) vm)) e
        (filled-Cleared index (end - index) vm (omega arith) (omega arith)) in
    rw
      (
        c,
        z1,
        le→ltb end index (omega arith),
        charge-spent (end - index) vm (omega arith),
        le→leb end (length vm.registers) (omega arith),
      )
      elim (Bool-cases (end == count * 2)) [
        | inl t ↦
            let full : Cleared index (count * 2) vm (filled index (end - index) vm) =
              subst (λ k. Cleared index k vm (filled index (end - index) vm)) (ground arith) w in
            rw (t, skip_verified-none (begin_trial (filled index (end - index) vm)) v)
              (begins _ (record { clear = full.clear; others = full.others; paid = full.paid }) refl
                refl refl refl refl refl refl
                (record { journal = λ i k. absurd (omega arith); stack = tt }) refl)
        | inr t ↦ rw t (
            further end _ (omega arith) (ground arith)
              (record { clear = w.clear; others = w.others; paid = w.paid }) refl)
      ]
