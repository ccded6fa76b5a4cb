-- ===== src/Span/Bound/Loops.antt =====
-- The two loops of `try_fold`, with a consumer that never fails and enough budget for the units
-- that they pass.
use perex.Base.{ℕ, zero, suc, ◌+◌, ◌-◌, ◌≤◌, ◌<◌, ◌≡◌, refl, ap, ◌∙◌, arith, Bool, true, false}
use perex.Base.{List, [], ◌∷◌, Option, none, some, ltb, if◌then◌else◌, Bool-cases, inl, inr}
use perex.Base.{length, get_elem?, get_elem?-some, drop-get_elem?, take, drop, Run, ret}
use perex.Budget.{Budget, charge}
use perex.Input.View.{Cursor}
use perex.Input.Walk.{next_unit, previous_unit}
use perex.Input.Walk.Forward.{next_unit-Reads}
use perex.Input.Walk.Backward.{previous_unit-Reads, unit_before}
use perex.Input.Bytes.{unit_after}
use perex.Input.Stands.{CursorAt, CursorAt-le}
use mathlib.Core.Path.{subst}
use perex.Span.Bound.{Walk, Ended, arrived, paused}
use perex.Span.Bound.{
  seek_loop, seek_paid, seek_moved, deliver_loop, deliver_paid, deliver_moved, consumed,
}

abbrev pub fold_units : {A : Type 0} → (A → ℕ → A) → A → List ℕ → A
fold_units step a [] = a
fold_units step a (u ∷ us) = fold_units step (step a u) us

-- A consumer that never returns an error.
abbrev pub pure_consumer : {A X : Type 0} → (A → ℕ → A) → A → ℕ → A × Option X
pure_consumer step a u = (step a u, none)

-- `n` units were passed from `w`, to unit `j`, and the loop ended by its condition or paused.
pub record Walked {E X A : Type 0} (us : List ℕ) (w : Walk A) (j n : ℕ) (acc : A) (ended : Bool)
    (run : Run (Ended E X A)) : Type 0 where
  pub after : Walk A
  pub returns : run ≡ ret (if ended then arrived after else paused after)
  pub at : CursorAt after.cursor us j
  pub same : after.cursor.input ≡ w.cursor.input
  pub work : after.work ≡ w.work + n
  pub budget : after.budget.remaining + n ≡ w.budget.remaining
  pub folded : after.acc ≡ acc

pub charge_one :
    (b : Budget) → 0 < b.remaining → charge b 1 ≡ (record { remaining = b.remaining - 1 }, true)
unfolding charge
charge_one b h = ground arith

-- How a loop that has passed `n` units from `i` ends: at its goal, or at the quantum before it.
abbrev pub Ends : (ended : Bool) (there room : ℕ) → Type 0
Ends true there room = there ≡ 0
Ends false there room = (0 < there) × (room ≡ 0)

Ends-zero : (ended : Bool) (a b : ℕ) → Ends ended (a - 0) (b - 0) → Ends ended a b
Ends-zero true a b h = omega arith
Ends-zero false a b h = omega arith

pub Ends-suc : (ended : Bool) (a b c d : ℕ) → a ≡ c → b ≡ d → Ends ended a b → Ends ended c d
Ends-suc true a b c d e f h = omega arith
Ends-suc false a b c d e f h = omega arith

-- The distance to a target, and the position `n` units towards it.
abbrev pub dist : ℕ → ℕ → ℕ
dist i target = i - target + (target - i)

abbrev pub toward : ℕ → ℕ → ℕ → ℕ
toward i target n = if ltb i target then i + n else i - n

unit_before-get : (us : List ℕ) (i : ℕ) → 0 < i → unit_before us i ≡ get_elem? us (i - 1)
unit_before-get us zero h = absurd (omega arith)
unit_before-get us (suc i) h = let e : suc i - 1 ≡ i = omega arith in rw e refl

-- One unit of a loop, and then the rest of it.
Walked-step :
    {E X A : Type 0} {us : List ℕ} {w v : Walk A} {j n : ℕ} {acc : A} {ended : Bool}
    {run run' : Run (Ended E X A)}
    → v.cursor.input ≡ w.cursor.input
    → v.work ≡ w.work + 1
    → v.budget.remaining + 1 ≡ w.budget.remaining
    → run' ≡ run
    → Walked {E = E} {X = X} us v j n acc ended run
    → Walked {E = E} {X = X} us w j (suc n) acc ended run'
Walked-step same work budget e r = record {
  after = r.after;
  returns = e ∙ r.returns;
  at = r.at;
  same = r.same ∙ same;
  work = omega (arith, r.work);
  budget = omega (arith, r.budget);
  folded = r.folded;
}

module _ {A : Type 0} (E X : Type 0) (us : List ℕ) (quantum : ℕ) where
  deliver-Ends :
      (step : A → ℕ → A) (end fuel i : ℕ) (w : Walk A) (ended : Bool)
      → w.cursor.utf16_offset ≡ i
      → i ≤ end
      → w.work ≤ quantum
      → Ends ended (end - i) (quantum - w.work)
      → deliver_loop {E = E} {X = X} (pure_consumer step) (suc fuel) quantum end w
        ≡ ret (if ended then arrived w else paused w)
  unfolding deliver_loop
  deliver-Ends step end fuel i w true u h2 h3 rule = ground arith
  deliver-Ends step end fuel i w false u h2 h3 rule = ground arith

  deliver_passes :
      (step : A → ℕ → A) (end fuel i : ℕ) (w : Walk A) (u : ℕ) {c : Cursor}
      → w.cursor.utf16_offset ≡ i
      → i < end
      → w.work < quantum
      → 0 < w.budget.remaining
      → next_unit w.cursor ≡ ret (some u, c)
      → deliver_loop {E = E} {X = X} (pure_consumer step) (suc fuel) quantum end w
        ≡ deliver_loop (pure_consumer step) fuel quantum end (record {
          cursor = c;
          work = w.work + 1;
          budget = record { remaining = w.budget.remaining - 1 };
          acc = step w.acc u;
        })
  unfolding deliver_loop deliver_paid deliver_moved consumed
  deliver_passes step end fuel i w u eu h1 h2 h3 reads = ground (arith, charge_one w.budget h3)

  pub deliver-Walked :
      (step : A → ℕ → A) (end n fuel i : ℕ) (w : Walk A) (ended : Bool)
      → CursorAt w.cursor us i
      → end ≤ length us
      → i + n ≤ end
      → w.work + n ≤ quantum
      → n < fuel
      → n ≤ w.budget.remaining
      → Ends ended (end - i - n) (quantum - w.work - n)
      → Walked {E = E} {X = X} us w
          (i + n)
          n
          (fold_units step w.acc (take n (drop i us)))
          ended
          (deliver_loop (pure_consumer step) fuel quantum end w)
  deliver-Walked step end n zero i w ended p h1 h2 h3 h4 h5 rule = absurd (omega arith)
  deliver-Walked step end zero (suc fuel) i w ended p h1 h2 h3 h4 h5 rule = record {
    after = w;
    returns =
        deliver-Ends step end fuel i w ended p.unit (omega arith) (omega arith)
          (Ends-zero ended (end - i) (quantum - w.work) rule);
    at = let e : i + 0 ≡ i = omega arith in rw e p;
    same = refl;
    work = omega arith;
    budget = omega arith;
    folded = refl;
  }
  deliver-Walked step end (suc n) (suc fuel) i w ended p h1 h2 h3 h4 h5 rule =
      let r = next_unit-Reads us w.cursor i p in
      let (u, here) = get_elem?-some us i (omega arith) in
      let e : unit_after us i ≡ suc i = ground arith in
      let v : Walk A = record {
        cursor = r.after;
        work = w.work + 1;
        budget = record { remaining = w.budget.remaining - 1 };
        acc = step w.acc u;
      } in
      let rest =
        deliver-Walked step end n fuel (suc i) v ended (subst (CursorAt r.after us) e r.at) h1
          (omega arith) (omega arith) (omega arith) (omega arith)
          (Ends-suc ended _ _ _ _ (omega arith) (omega arith) rule) in
      let f : i + suc n ≡ suc i + n = omega arith in
      rw (f, drop-get_elem? us i here)
        (Walked-step {v = v} r.same refl (omega arith)
          (deliver_passes step end fuel i w u p.unit (omega arith) (omega arith) (omega arith)
            (r.returns ∙ ap (λ o. ret (o, r.after)) here))
          rest)

  pub seek-Ends :
      (target fuel i : ℕ) (w : Walk A) (ended : Bool)
      → w.cursor.utf16_offset ≡ i
      → w.work ≤ quantum
      → Ends ended (dist i target) (quantum - w.work)
      → seek_loop {E = E} {X = X} (suc fuel) quantum target w
        ≡ ret (if ended then arrived w else paused w)
  unfolding seek_loop
  seek-Ends target fuel i w true u h rule = ground arith
  seek-Ends target fuel i w false u h rule = ground arith

  -- The unit that the seek passes next, and where that leaves the cursor.
  pub seek_passes :
      (target fuel i u : ℕ) (w : Walk A) {c : Cursor}
      → w.cursor.utf16_offset ≡ i
      → 0 < dist i target
      → w.work < quantum
      → 0 < w.budget.remaining
      → (if ltb i target then next_unit w.cursor else previous_unit w.cursor) ≡ ret (some u, c)
      → seek_loop {E = E} {X = X} (suc fuel) quantum target w
        ≡ seek_loop fuel quantum target (record w {
          cursor = c;
          work = w.work + 1;
          budget = record { remaining = w.budget.remaining - 1 };
        })
  unfolding seek_loop seek_paid seek_moved
  seek_passes target fuel i u w eu h1 h2 h3 reads = ground (arith, charge_one w.budget h3)

  pub record Passes (target i : ℕ) (w : Walk A) : Type 0 where
    pub unit : ℕ
    pub after : Cursor
    pub reads :
        (if ltb i target then next_unit w.cursor else previous_unit w.cursor)
        ≡ ret (some unit, after)
    pub same : after.input ≡ w.cursor.input
    pub at : CursorAt after us (toward i target 1)

  pub seek-Passes :
      (target i : ℕ) (w : Walk A)
      → CursorAt w.cursor us i
      → target ≤ length us
      → 0 < dist i target
      → Passes target i w
  seek-Passes target i w p h d = elim (Bool-cases (ltb i target)) [
    | inl forward ↦
        let r = next_unit-Reads us w.cursor i p in
        let (u, here) = get_elem?-some us i (ground arith) in
        let e : unit_after us i ≡ toward i target 1 = ground arith in
        record {
          unit = u;
          after = r.after;
          reads = rw forward (r.returns ∙ ap (λ o. ret (o, r.after)) here);
          same = r.same;
          at = subst (CursorAt r.after us) e r.at;
        }
    | inr back ↦
        let r = previous_unit-Reads us w.cursor i p in
        let (u, here) = get_elem?-some us (i - 1) (ground (arith, CursorAt-le us w.cursor i p)) in
        let e : i - 1 ≡ toward i target 1 = ground arith in
        record {
          unit = u;
          after = r.after;
          reads =
              rw back (
                r.returns
                ∙ ap (λ o. ret (o, r.after)) (unit_before-get us i (ground arith) ∙ here));
          same = r.same;
          at = subst (CursorAt r.after us) e r.at;
        }
  ]

  pub seek-Walked :
      (target n fuel i : ℕ) (w : Walk A) (ended : Bool)
      → CursorAt w.cursor us i
      → target ≤ length us
      → n ≤ dist i target
      → w.work + n ≤ quantum
      → n < fuel
      → n ≤ w.budget.remaining
      → Ends ended (dist i target - n) (quantum - w.work - n)
      → Walked {E = E} {X = X} us w
          (toward i target n)
          n
          w.acc
          ended
          (seek_loop fuel quantum target w)
  seek-Walked target n zero i w ended p h1 h2 h3 h4 h5 rule = absurd (omega arith)
  seek-Walked target zero (suc fuel) i w ended p h1 h2 h3 h4 h5 rule = record {
    after = w;
    returns =
        seek-Ends target fuel i w ended p.unit (omega arith)
          (Ends-zero ended (dist i target) (quantum - w.work) rule);
    at = let e : toward i target 0 ≡ i = ground arith in rw e p;
    same = refl;
    work = omega arith;
    budget = omega arith;
    folded = refl;
  }
  seek-Walked target (suc n) (suc fuel) i w ended p h1 h2 h3 h4 h5 rule =
      let s = seek-Passes target i w p h1 (omega arith) in
      let v : Walk A = record w {
        cursor = s.after;
        work = w.work + 1;
        budget = record { remaining = w.budget.remaining - 1 };
      } in
      let rest =
        seek-Walked target n fuel (toward i target 1) v ended s.at h1 (ground arith) (omega arith)
          (omega arith) (omega arith) (Ends-suc ended _ _ _ _ (ground arith) (omega arith) rule) in
      let f : toward i target (suc n) ≡ toward (toward i target 1) target n = ground arith in
      rw f (
        Walked-step {v = v} s.same refl (omega arith)
          (seek_passes target fuel i s.unit w p.unit (omega arith) (omega arith) (omega arith)
            s.reads)
          rest)
