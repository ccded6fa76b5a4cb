-- ===== src/Span/Bound/Calls.antt =====
-- A sequence of calls of `try_fold` in src/span/bound.rs, as a caller makes them until the
-- walk is complete.
use perex.Base.{ℕ, zero, suc, ◌+◌, ◌-◌, ◌≤◌, ◌<◌, ◌≡◌, refl, sym, ap, ◌∙◌, arith, Bool, true, false}
use perex.Base.{List, [], ◌∷◌, All, leb, if◌then◌else◌, Bool-cases, inl, inr}
use perex.Base.{length, take, drop, drop-drop, Run, ret, ◌>>=◌}
use perex.Budget.{Budget}
use perex.Input.View.{Input, Layout, half_bit}
use perex.Binding.{Acquired, ok, view}
use perex.Span.Bound.{Reader, Folded, Read, ReadProgress, done, fails, pending, complete, try_fold}
use perex.Span.Bound.Loops.{fold_units, pure_consumer}
use perex.Span.Bound.Steps.{ReaderAt, to_seek, to_deliver, left, Advanced}
use perex.Span.Bound.Fold.{passed, delivered, try_fold-Advanced}

-- The quantum of a call, and what the subject's witness acquires for it.
pub record Call (E : Type 0) : Type 0 where
  pub quantum : ℕ
  pub acquired : Acquired E

abbrev pub quanta : {E : Type 0} → List (Call E) → ℕ
quanta [] = 0
quanta (c ∷ cs) = c.quantum + quanta cs

abbrev pub Shows : {E : Type 0} → Layout → Input → Call E → Type 0
Shows layout input c = (0 < c.quantum) × (view layout c.acquired ≡ ok input)

module _ {E X A : Type 0} where
  abbrev pub go_on :
      (Folded E X A → Run (Folded E X A))
      → Folded E X A
      → Read E X ReadProgress
      → Run (Folded E X A)
  go_on next f (done pending) = next f
  go_on next f (done complete) = ret f
  go_on next f (fails e) = ret f

  -- One call, and further ones as long as the walk is pending.
  abbrev pub calls :
      (A → ℕ → A) → Layout → Call E → List (Call E) → Reader → Budget → A → Run (Folded E X A)
  calls step layout c [] r budget acc =
      try_fold (pure_consumer step) c.quantum layout c.acquired r budget acc
  calls step layout c (d ∷ ds) r budget acc =
      try_fold (pure_consumer step) c.quantum layout c.acquired r budget acc
      >>= (λ f. go_on (λ f. calls step layout d ds f.reader f.budget f.acc) f f.result)

fold_units-take :
    {A : Type 0} (step : A → ℕ → A) (m n : ℕ) (acc : A) (us : List ℕ)
    → fold_units step (fold_units step acc (take m us)) (take n (drop m us))
      ≡ fold_units step acc (take (m + n) us)
fold_units-take step zero n acc us = let e : zero + n ≡ n = omega arith in rw e refl
fold_units-take step (suc m) n acc [] =
    let e : suc m + n ≡ suc (m + n) = omega arith in rw e (ap (fold_units step acc) (take_nil n))
  where
    take_nil : (k : ℕ) → take {A = ℕ} k [] ≡ []
    take_nil zero = refl
    take_nil (suc k) = refl
fold_units-take step (suc m) n acc (u ∷ us) =
    let e : suc m + n ≡ suc (m + n) = omega arith in rw e (fold_units-take step m n (step acc u) us)

module _ {E X A : Type 0} {input : Input} {us : List ℕ} {step : A → ℕ → A} {r : Reader} where
  -- A call that does not complete, and what the calls after it do.
  Advanced-then :
      {i n k m l n' k' : ℕ} {budget : Budget} {acc : A} {more finished : Bool}
      {run run' whole : Run (Folded E X A)}
      (one : Advanced input us step r i n k budget acc more run)
      → Advanced input us step one.after.reader one.unit n' k' one.after.budget one.after.acc
          finished run'
      → whole ≡ run'
      → n + n' ≡ m
      → k + k' ≡ l
      → Advanced input us step r i m l budget acc finished whole
  Advanced-then {i} {n} {k} {m} {l} {n'} {k'} {acc} one two e em el = record {
    after = two.after;
    returns = e ∙ two.returns;
    result = two.result;
    finishes = two.finishes;
    spent = omega (arith, two.spent, one.spent, em);
    folded =
        two.folded
        ∙ rw (one.folded, one.rest, sym el) (fold_units-take step k k' acc (left us r i));
    unit = two.unit;
    at = two.at;
    rest = two.rest ∙ rw (one.rest, sym el) (sym (drop-drop k k' (left us r i)));
    sought = omega (arith, two.sought, one.sought, em);
    work = omega (arith, two.work, one.work, em);
  }

  Advanced-as :
      {i n k m l : ℕ} {budget : Budget} {acc : A} {finished finished' : Bool}
      {run whole : Run (Folded E X A)}
      → Advanced input us step r i n k budget acc finished run
      → whole ≡ run
      → n ≡ m
      → k ≡ l
      → finished ≡ finished'
      → Advanced input us step r i m l budget acc finished' whole
  Advanced-as one e en ek ef = record {
    after = one.after;
    returns = e ∙ one.returns;
    result = rw (sym ef) one.result;
    finishes = one.finishes ∙ ef;
    spent = rw (sym en) one.spent;
    folded = rw (sym ek) one.folded;
    unit = one.unit;
    at = one.at;
    rest = rw (sym ek) one.rest;
    sought = rw (sym en) one.sought;
    work = rw (sym en) one.work;
  }

-- The counts of a call that pauses, and of the calls after it.
module _ (total seek q more total' seek' : ℕ) where
  abbrev least : ℕ → ℕ → ℕ
  least a b = if leb a b then a else b

  least-add :
      leb total q ≡ false
      → total' + least total q ≡ total
      → least total q + least total' more ≡ least total (q + more)
  least-add h e = ground arith

  least-add-minus :
      leb total q ≡ false
      → total' + least total q ≡ total
      → seek' ≡ seek - least total q
      → least total q - seek + (least total' more - seek') ≡ least total (q + more) - seek
  least-add-minus h e f = ground arith

  leb-add :
      leb total q ≡ false → total' + least total q ≡ total → leb total' more ≡ leb total (q + more)
  leb-add h e = ground arith

module _ {E X A : Type 0} (next : Folded E X A → Run (Folded E X A)) where
  go_on-pending :
      (run : Run (Folded E X A)) (f : Folded E X A) (more : Bool)
      → run ≡ ret f
      → f.result ≡ done (if more then complete else pending)
      → more ≡ false
      → (run >>= (λ g. go_on next g g.result)) ≡ next f
  go_on-pending run f more e er em = rw (e, er, em) refl

  go_on-complete :
      (run : Run (Folded E X A)) (f : Folded E X A) (more : Bool)
      → run ≡ ret f
      → f.result ≡ done (if more then complete else pending)
      → more ≡ true
      → (run >>= (λ g. go_on next g g.result)) ≡ run
  go_on-complete run f more e er em = rw (e, er, em) refl

-- On a live reader that is not complete, with positive quanta, a budget for every unit that the quanta let
-- pass, and a consumer that returns no error: however the quanta cut up the walk, and whatever the
-- witness hands out between the calls as long as it shows the same subject, the calls together do
-- what one call with the sum of their quanta does. The consumer gets the same units in the same
-- order, no unit twice and none left out, the same work is paid, and the last call reports `complete`
-- exactly when the quanta suffice for the whole walk.
pub calls-Advanced :
    {A : Type 0} (E X : Type 0) (us : List ℕ) (step : A → ℕ → A) (input : Input) (layout : Layout)
    (c : Call E) (cs : List (Call E)) (r : Reader) (i : ℕ) (budget : Budget) (acc : A)
    → ReaderAt input us r i
    → Shows layout input c
    → All (Shows layout input) cs
    → r.complete ≡ false
    → length us < half_bit
    → passed (quanta (c ∷ cs)) r i ≤ budget.remaining
    → Advanced {E = E} {X = X} input us step r i
        (passed (quanta (c ∷ cs)) r i)
        (delivered (quanta (c ∷ cs)) r i)
        budget
        acc
        (leb (to_seek r i + to_deliver r i) (quanta (c ∷ cs)))
        (calls step layout c cs r budget acc)
calls-Advanced E X us step input layout c [] r i budget acc p (h, sees) all going fits money =
    let e : c.quantum + 0 ≡ c.quantum = omega arith in
    rw e (
      try_fold-Advanced E X us c.quantum step input layout c.acquired r i budget acc p sees going h
        fits (ground arith))
calls-Advanced {A} E X us step input layout c (d ∷ ds) r i budget acc p (h, sees) all going fits
      money =
    let one =
      try_fold-Advanced E X us c.quantum step input layout c.acquired r i budget acc p sees going h
        fits (ground arith) in
    let f = one.after in
    elim (Bool-cases (leb (to_seek r i + to_deliver r i) c.quantum)) [
      | inl done_now ↦
          Advanced-as (Advanced-as one refl refl refl done_now)
            (go_on-complete (λ g. calls step layout d ds g.reader g.budget g.acc) _ f _ one.returns
              one.result done_now)
            (ground arith) (ground arith) (ground arith)
      | inr more ↦
          let (g, gs) = all in
          let two =
            calls-Advanced E X us step input layout d ds f.reader one.unit f.budget f.acc one.at g
              gs (one.finishes ∙ more) fits (ground (arith, one.spent, one.work)) in
          Advanced-as
            (Advanced-then one two
              (go_on-pending (λ g. calls step layout d ds g.reader g.budget g.acc) _ f _ one.returns
                one.result more)
              refl refl)
            refl
            (least-add _ (to_seek r i) c.quantum (quanta (d ∷ ds)) _ (to_seek f.reader one.unit)
              more one.work)
            (least-add-minus _ _ c.quantum (quanta (d ∷ ds)) _ _ more one.work one.sought)
            (leb-add _ (to_seek r i) c.quantum (quanta (d ∷ ds)) _ (to_seek f.reader one.unit) more
              one.work)
    ]
