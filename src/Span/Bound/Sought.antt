-- ===== src/Span/Bound/Sought.antt =====
-- The first loop of `try_fold` of src/span/bound.rs, the seek, on any budget.
use perex.Base.{
  ℕ, zero, suc, ◌+◌, ◌-◌, ◌≤◌, ◌<◌, ◌≡◌, refl, ◌∙◌, arith, Bool, true, false, List, ◌==◌,
  if◌then◌else◌, Bool-cases, inl, inr, length, Run, ret,
}
use perex.Budget.{charge}
use perex.Span.Bound.Loops.{dist, toward, seek-Ends, seek_passes, seek-Passes}
use perex.Input.Stands.{CursorAt}
use mathlib.Core.Path.{subst}
use perex.Span.Bound.{Walk, Ended, arrived, paused, stopped, work_limit, seek_loop, seek_paid}

module _ {E X A : Type 0} (us : List ℕ) where
  -- How seeking ends: at the target, or after `quantum` units of work, or where the budget is used up.
  pub data Seeks (quantum target i : ℕ) (w : Walk A) : Run (Ended E X A) → Type 0 where
    goes :
        (after : Walk A) (n : ℕ) (there : Bool)
        → CursorAt after.cursor us (toward i target n)
        → after.cursor.input ≡ w.cursor.input
        → (if there then n ≡ dist i target else w.work + n ≡ quantum)
        → n ≤ dist i target
        → w.work + n ≤ quantum
        → after.acc ≡ w.acc
        → after.work ≡ w.work + n
        → after.budget.remaining + n ≡ w.budget.remaining
        → Seeks quantum target i w (ret (if there then arrived after else paused after))
    unpaid :
        (n : ℕ)
        → n < dist i target
        → w.work + n < quantum
        → n ≡ w.budget.remaining
        → Seeks quantum target i w (ret (stopped work_limit (record { remaining = 0 }) w.acc))

  seek_unpaid :
      (fuel quantum target i : ℕ) (w : Walk A)
      → w.cursor.utf16_offset ≡ i
      → 0 < dist i target
      → w.work < quantum
      → w.budget.remaining ≡ 0
      → seek_loop {E = E} {X = X} (suc fuel) quantum target w
        ≡ ret (stopped work_limit (record { remaining = 0 }) w.acc)
  unfolding seek_loop seek_paid charge
  seek_unpaid fuel quantum target i w eu h1 h2 h3 = ground arith

  Seeks-step :
      {quantum target i : ℕ} {w v : Walk A} {run run' : Run (Ended E X A)}
      → 0 < dist i target
      → v.cursor.input ≡ w.cursor.input
      → v.acc ≡ w.acc
      → v.work ≡ w.work + 1
      → v.budget.remaining + 1 ≡ w.budget.remaining
      → run' ≡ run
      → Seeks quantum target (toward i target 1) v run
      → Seeks quantum target i w run'
  Seeks-step {quantum} {target} {i} {w} {v} away same kept work budget e
        (goes after n there at s b h q f m l) =
      let t : toward (toward i target 1) target n ≡ toward i target (suc n) = ground arith in
      rw e (
        goes after (suc n) there (subst (CursorAt after.cursor us) t at) (s ∙ same) (bound there b)
          (ground arith) (omega arith) (f ∙ kept) (omega arith) (omega arith))
    where
      bound :
          (there : Bool)
          → (if there then n ≡ dist (toward i target 1) target else v.work + n ≡ quantum)
          → (if there then suc n ≡ dist i target else w.work + suc n ≡ quantum)
      bound true h = ground arith
      bound false h = omega arith
  Seeks-step {quantum} {target} {i} {w} {v} away same kept work budget e (unpaid n h m l) =
      rw (e, kept) (unpaid (suc n) (ground arith) (omega arith) (omega arith))

  pub seek-Seeks :
      (fuel quantum target i : ℕ) (w : Walk A)
      → CursorAt w.cursor us i
      → target ≤ length us
      → w.work ≤ quantum
      → quantum < w.work + fuel
      → Seeks quantum target i w (seek_loop {E = E} {X = X} fuel quantum target w)
  seek-Seeks zero quantum target i w p fits worked enough = absurd (omega arith)
  seek-Seeks (suc fuel) quantum target i w p fits worked enough =
      let z : i ≡ toward i target 0 = ground arith in
      elim (Bool-cases (dist i target == 0)) [
        | inl near ↦
            rw (seek-Ends E X us quantum target fuel i w true p.unit worked (ground arith)) (
              goes w 0 true (subst (CursorAt w.cursor us) z p) refl (ground arith) (omega arith)
                (omega arith) refl (omega arith) (omega arith))
        | inr away ↦ elim (Bool-cases (w.work == quantum)) [
          | inl full ↦
              rw
                (seek-Ends E X us quantum target fuel i w false p.unit worked
                  (ground arith, ground arith))
                (goes w 0 false (subst (CursorAt w.cursor us) z p) refl (ground arith) (omega arith)
                  (omega arith) refl (omega arith) (omega arith))
          | inr room ↦ elim (Bool-cases (w.budget.remaining == 0)) [
            | inl poor ↦
                rw
                  (seek_unpaid fuel quantum target i w p.unit (ground arith) (ground arith)
                    (ground arith))
                  (unpaid 0 (ground arith) (ground arith) (ground arith))
            | inr rich ↦
                let d : 0 < dist i target = ground arith in
                let quick : w.work < quantum = ground arith in
                let paid : 0 < w.budget.remaining = ground arith in
                let r = seek-Passes E X us quantum target i w p fits d in
                let v : Walk A = record w {
                  cursor = r.after;
                  work = w.work + 1;
                  budget = record { remaining = w.budget.remaining - 1 };
                } in
                Seeks-step {v = v} d r.same refl refl (omega arith)
                  (seek_passes E X us quantum target fuel i r.unit w p.unit d quick paid r.reads)
                  (seek-Seeks fuel quantum target (toward i target 1) v r.at fits (omega arith)
                    (omega arith))
          ]
        ]
      ]
