-- ===== src/Span/Bound/Failing.antt =====
-- Calls of `try_fold` of src/span/bound.rs with any consumer and any budget.
use perex.Base.{
  ℕ, zero, suc, ◌+◌, ◌-◌, ◌≤◌, ◌<◌, ◌≡◌, refl, sym, ap, ◌∙◌, arith, Bool, true, false, List, [],
  ◌∷◌, Option, none, some, ltb, ◌==◌, if◌then◌else◌, Bool-cases, inl, inr, length, get_elem?,
  get_elem?-some, drop-get_elem?, take, drop, Run, ret,
}
use perex.Budget.{Budget, charge}
use perex.Input.View.{Cursor}
use perex.Span.Bound.Loops.{charge_one}
use perex.Input.Walk.{next_unit}
use perex.Input.Walk.Forward.{next_unit-Reads}
use perex.Input.Bytes.{unit_after}
use perex.Input.Stands.{CursorAt}
use mathlib.Core.Path.{subst}
use perex.Span.Bound.{
  Walk, Ended, arrived, paused, stopped, consumer, work_limit, deliver_loop, deliver_paid,
  deliver_moved, consumed,
}

module _ {X A : Type 0} (consume : A → ℕ → A × Option X) where
  -- The consumer takes these units, and reports no error.
  pub data Fed : A → List ℕ → A → Type 0 where
    no_unit : (a : A) → Fed a [] a
    a_unit :
        (a b c : A) (u : ℕ) (vs : List ℕ) → consume a u ≡ (b, none) → Fed b vs c → Fed a (u ∷ vs) c

module _ {E X A : Type 0} (us : List ℕ) (consume : A → ℕ → A × Option X) where
  -- How delivery up to `end` ends: with no error, at the end or after `quantum` units of work; with the
  -- consumer's error, for a unit that it was given behind those it took; or where the budget is used up.
  pub data Delivers (quantum end i : ℕ) (w : Walk A) : Run (Ended E X A) → Type 0 where
    goes :
        (after : Walk A) (k : ℕ) (there : Bool)
        → CursorAt after.cursor us (i + k)
        → after.cursor.input ≡ w.cursor.input
        → i + k ≤ end
        → (if there then i + k ≡ end else w.work + k ≡ quantum)
        → Fed consume w.acc (take k (drop i us)) after.acc
        → after.budget.remaining + k ≡ w.budget.remaining
        → Delivers quantum end i w (ret (if there then arrived after else paused after))
    refused :
        (k u : ℕ) (a b : A) (x : X) (left : Budget)
        → i + k < end
        → w.work + k < quantum
        → Fed consume w.acc (take k (drop i us)) a
        → get_elem? us (i + k) ≡ some u
        → consume a u ≡ (b, some x)
        → left.remaining + suc k ≡ w.budget.remaining
        → Delivers quantum end i w (ret (stopped (consumer x) left b))
    unpaid :
        (k : ℕ) (a : A)
        → i + k < end
        → w.work + k < quantum
        → Fed consume w.acc (take k (drop i us)) a
        → k ≡ w.budget.remaining
        → Delivers quantum end i w (ret (stopped work_limit (record { remaining = 0 }) a))

  -- One unit that the consumer takes, and then the rest of the loop.
  Delivers-step :
      {quantum end i u : ℕ} {w v : Walk A} {run run' : Run (Ended E X A)}
      → get_elem? us i ≡ some u
      → consume w.acc u ≡ (v.acc, none)
      → v.cursor.input ≡ w.cursor.input
      → v.work ≡ w.work + 1
      → v.budget.remaining + 1 ≡ w.budget.remaining
      → run' ≡ run
      → Delivers quantum end (suc i) v run
      → Delivers quantum end i w run'
  Delivers-step {quantum} {end} {i} {u} {w} {v} here takes same work budget e
        (goes after k there at s b h f m) =
      let n : suc i + k ≡ i + suc k = omega arith in
      rw e (
        goes after (suc k) there (subst (CursorAt after.cursor us) n at) (s ∙ same) (omega arith)
          (bound there h) (rw (drop-get_elem? us i here) (a_unit w.acc v.acc after.acc u _ takes f))
          (omega arith))
    where
      bound :
          (there : Bool)
          → (if there then suc i + k ≡ end else v.work + k ≡ quantum)
          → (if there then i + suc k ≡ end else w.work + suc k ≡ quantum)
      bound true h = omega arith
      bound false h = omega arith
  Delivers-step {i} {u} {w} {v} here takes same work budget e (refused k o a b x left l q f g h m) =
      let n : suc i + k ≡ i + suc k = omega arith in
      rw e (
        refused (suc k) o a b x left (omega arith) (omega arith)
          (rw (drop-get_elem? us i here) (a_unit w.acc v.acc a u _ takes f))
          (subst (λ j. get_elem? us j ≡ some o) n g) h (omega arith))
  Delivers-step {i} {u} {w} {v} here takes same work budget e (unpaid k a l q f m) = rw e (
      unpaid (suc k) a (omega arith) (omega arith)
        (rw (drop-get_elem? us i here) (a_unit w.acc v.acc a u _ takes f)) (omega arith))

  deliver_takes :
      (fuel quantum end i u : ℕ) (w : Walk A) {c : Cursor} {a : A}
      → w.cursor.utf16_offset ≡ i
      → i < end
      → w.work < quantum
      → 0 < w.budget.remaining
      → next_unit w.cursor ≡ ret (some u, c)
      → consume w.acc u ≡ (a, none)
      → deliver_loop {E = E} consume (suc fuel) quantum end w
        ≡ deliver_loop consume fuel quantum end (record {
          cursor = c;
          work = w.work + 1;
          budget = record { remaining = w.budget.remaining - 1 };
          acc = a;
        })
  unfolding deliver_loop deliver_paid deliver_moved consumed
  deliver_takes fuel quantum end i u w eu h1 h2 h3 reads takes =
      ground (arith, charge_one w.budget h3)

  deliver_refuses :
      (fuel quantum end i u : ℕ) (w : Walk A) {c : Cursor} {a : A} {x : X}
      → w.cursor.utf16_offset ≡ i
      → i < end
      → w.work < quantum
      → 0 < w.budget.remaining
      → next_unit w.cursor ≡ ret (some u, c)
      → consume w.acc u ≡ (a, some x)
      → deliver_loop {E = E} consume (suc fuel) quantum end w
        ≡ ret (stopped (consumer x) (record { remaining = w.budget.remaining - 1 }) a)
  unfolding deliver_loop deliver_paid deliver_moved consumed
  deliver_refuses fuel quantum end i u w eu h1 h2 h3 reads takes =
      ground (arith, charge_one w.budget h3)

  deliver_unpaid :
      (fuel quantum end i : ℕ) (w : Walk A)
      → w.cursor.utf16_offset ≡ i
      → i < end
      → w.work < quantum
      → w.budget.remaining ≡ 0
      → deliver_loop {E = E} consume (suc fuel) quantum end w
        ≡ ret (stopped work_limit (record { remaining = 0 }) w.acc)
  unfolding deliver_loop deliver_paid charge
  deliver_unpaid fuel quantum end i w eu h1 h2 h3 = ground arith

  -- The consumer is given a unit.
  given :
      (fuel quantum end i : ℕ) (w : Walk A) (u : ℕ) (c : Cursor)
      → w.cursor.utf16_offset ≡ i
      → i < end
      → w.work < quantum
      → 0 < w.budget.remaining
      → next_unit w.cursor ≡ ret (some u, c)
      → get_elem? us i ≡ some u
      → c.input ≡ w.cursor.input
      → ((v : Walk A)
          → v.cursor ≡ c
          → v.work ≡ w.work + 1
          → Delivers quantum end (suc i) v (deliver_loop {E = E} consume fuel quantum end v))
      → (o : A × Option X) → consume w.acc u ≡ o
      → Delivers quantum end i w (deliver_loop {E = E} consume (suc fuel) quantum end w)
  given fuel quantum end i w u c eu h1 h2 h3 reads here same rest (a, some x) takes =
      rw (deliver_refuses fuel quantum end i u w eu h1 h2 h3 reads takes) (
        refused 0 u w.acc a x (record { remaining = w.budget.remaining - 1 }) (omega arith)
          (omega arith) (no_unit w.acc) (subst (λ j. get_elem? us j ≡ some u) (omega arith) here)
          takes (omega arith))
  given fuel quantum end i w u c eu h1 h2 h3 reads here same rest (a, none) takes =
      let v : Walk A = record {
        cursor = c;
        work = w.work + 1;
        budget = record { remaining = w.budget.remaining - 1 };
        acc = a;
      } in
      Delivers-step {v = v} here takes same refl (omega arith)
        (deliver_takes fuel quantum end i u w eu h1 h2 h3 reads takes) (rest v refl refl)

  pub deliver-Delivers :
      (fuel quantum end i : ℕ) (w : Walk A)
      → CursorAt w.cursor us i
      → end ≤ length us
      → i ≤ end
      → w.work ≤ quantum
      → quantum < w.work + fuel
      → Delivers quantum end i w (deliver_loop {E = E} consume fuel quantum end w)
  unfolding deliver_loop
  deliver-Delivers zero quantum end i w p fits b worked enough = absurd (omega arith)
  deliver-Delivers (suc fuel) quantum end i w p fits b worked enough =
      let z : i ≡ i + 0 = omega arith in
      elim (Bool-cases (ltb w.cursor.utf16_offset end)) [
        | inr over ↦ rw over (
            goes w 0 true (subst (CursorAt w.cursor us) z p) refl (omega arith)
              (ground (arith, p.unit)) (no_unit w.acc) (omega arith))
        | inl inside ↦ elim (Bool-cases (w.work == quantum)) [
          | inl full ↦
              rw (inside, full)
                (goes w 0 false (subst (CursorAt w.cursor us) z p) refl (omega arith) (ground arith)
                  (no_unit w.acc) (omega arith))
          | inr room ↦ elim (Bool-cases (w.budget.remaining == 0)) [
            | inl poor ↦
                let h : i < end = ground (arith, p.unit) in
                rw (deliver_unpaid fuel quantum end i w p.unit h (ground arith) (ground arith))
                  (unpaid 0 w.acc (omega arith) (ground arith) (no_unit w.acc) (ground arith))
            | inr rich ↦
                let h : i < end = ground (arith, p.unit) in
                let quick : w.work < quantum = ground arith in
                let r = next_unit-Reads us w.cursor i p in
                let (u, here) = get_elem?-some us i (omega arith) in
                let e : unit_after us i ≡ suc i = ground arith in
                given fuel quantum end i w u r.after p.unit h (ground arith) (ground arith)
                  (r.returns ∙ ap (λ o. ret (o, r.after)) here) here r.same
                  (λ v same worked.
                    deliver-Delivers fuel quantum end (suc i) v
                      (subst (CursorAt v.cursor us) e
                        (subst (λ c. CursorAt c us (unit_after us i)) (sym same) r.at))
                      fits h (omega arith) (omega arith))
                  (consume w.acc u) refl
          ]
        ]
      ]
