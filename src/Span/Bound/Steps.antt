-- ===== src/Span/Bound/Steps.antt =====
-- One call of `try_fold` with a consumer that does not fail.
use perex.Base.{ℕ, zero, suc, ◌+◌, ◌-◌, ◌≤◌, ◌≡◌, refl, ap, ◌∙◌, arith, Bool, true, false}
use perex.Base.{List, [], ◌∷◌, if◌then◌else◌}
use perex.Base.{length, take, drop, Run, ret}
use perex.Budget.{Budget}
use perex.Input.View.{Input, Cursor, mark}
use perex.Input.Stands.{CursorAt}
use perex.Span.Bound.{Reader, done, pending, complete, Walk, arrived, Folded}
use perex.Span.Bound.{after_seek, after_deliver, settled}
use perex.Span.Bound.Loops.{fold_units, pure_consumer, dist, deliver-Walked, Ends}

-- A live reader of a span of the units `us`, whose saved mark is that of a cursor at unit `i`.
pub record ReaderAt (input : Input) (us : List ℕ) (r : Reader) (i : ℕ) : Type 0 where
  pub cursor : Cursor
  pub over : cursor.input ≡ input
  pub saved : mark cursor ≡ r.mark
  pub at : CursorAt cursor us i
  pub live : r.failed ≡ false
  pub order : r.span.start ≤ r.span.end
  pub fits : r.span.end ≤ length us
  pub inside : r.seeking ≡ false → (r.span.start ≤ i) × (i ≤ r.span.end)

-- Where delivery goes on, the units before it to seek over, and the units still to deliver.
abbrev pub from : Reader → ℕ → ℕ
from r i = if r.seeking then r.span.start else i

abbrev pub to_seek : Reader → ℕ → ℕ
to_seek r i = if r.seeking then dist i r.span.start else 0

abbrev pub to_deliver : Reader → ℕ → ℕ
to_deliver r i = r.span.end - from r i

abbrev pub left : List ℕ → Reader → ℕ → List ℕ
left us r i = take (to_deliver r i) (drop (from r i) us)

-- A call that passed `n` units, `k` of them delivered.
pub record Advanced {E X A : Type 0} (input : Input) (us : List ℕ) (step : A → ℕ → A) (r : Reader)
    (i n k : ℕ) (budget : Budget) (acc : A) (finished : Bool) (run : Run (Folded E X A))
    : Type 0 where
  pub after : Folded E X A
  pub returns : run ≡ ret after
  pub result : after.result ≡ done (if finished then complete else pending)
  pub finishes : after.reader.complete ≡ finished
  pub spent : after.budget.remaining + n ≡ budget.remaining
  pub folded : after.acc ≡ fold_units step acc (take k (left us r i))
  pub unit : ℕ
  pub at : ReaderAt input us after.reader unit
  pub rest : left us after.reader unit ≡ drop k (left us r i)
  pub sought : to_seek after.reader unit ≡ to_seek r i - n
  pub work :
      to_seek after.reader unit + to_deliver after.reader unit + n ≡ to_seek r i + to_deliver r i

pub take-take : (k n : ℕ) (xs : List ℕ) → k ≤ n → take k (take n xs) ≡ take k xs
take-take zero n xs h = refl
take-take (suc k) zero xs h = absurd (omega arith)
take-take (suc k) (suc n) [] h = refl
take-take (suc k) (suc n) (x ∷ xs) h = ap (λ t. x ∷ t) (take-take k n xs (omega arith))

pub drop-take : (k n : ℕ) (xs : List ℕ) → drop k (take n xs) ≡ take (n - k) (drop k xs)
drop-take zero n xs = let e : n - 0 ≡ n = omega arith in rw e
drop-take (suc k) zero xs = let e : zero - suc k ≡ zero = omega arith in rw e
drop-take (suc k) (suc n) [] = nil_take (suc n - suc k)
  where
    nil_take : (m : ℕ) → [] ≡ take {A = ℕ} m []
    nil_take zero = refl
    nil_take (suc m) = refl
drop-take (suc k) (suc n) (x ∷ xs) =
    let e : suc n - suc k ≡ n - k = omega arith in rw e (drop-take k n xs)

module _ {A : Type 0} (E X : Type 0) (input : Input) (us : List ℕ) (quantum : ℕ)
    (step : A → ℕ → A) where
  -- A settled call: the reader was at `j` and is not seeking any more, or still is.
  pub record Settles (r : Reader) (seeking : Bool) (j n : ℕ) (budget : Budget) (acc : A)
      (finished : Bool) (run : Run (Folded E X A)) : Type 0 where
    pub after : Folded E X A
    pub returns : run ≡ ret after
    pub result : after.result ≡ done (if finished then complete else pending)
    pub finishes : after.reader.complete ≡ finished
    pub spent : after.budget.remaining + n ≡ budget.remaining
    pub folded : after.acc ≡ acc
    pub span : after.reader.span ≡ r.span
    pub seeks : after.reader.seeking ≡ seeking
    pub at : ReaderAt input us after.reader j

  pub settled-ReaderAt :
      (r : Reader) (sought finished : Bool) (w : Walk A) (j : ℕ)
      → CursorAt w.cursor us j
      → w.cursor.input ≡ input
      → r.span.start ≤ r.span.end
      → r.span.end ≤ length us
      → (sought ≡ true → (r.span.start ≤ j) × (j ≤ r.span.end))
      → ReaderAt input us (settled {E = E} {X = X} r sought finished w).reader j
  unfolding settled
  settled-ReaderAt r sought finished w j p same order fits inside = record {
    cursor = w.cursor;
    over = same;
    saved = refl;
    at = p;
    live = refl;
    order = order;
    fits = fits;
    inside = λ h. inside (ground arith);
  }

  pub delivers :
      (r : Reader) (w : Walk A) (j k : ℕ) (finished : Bool)
      → CursorAt w.cursor us j
      → w.cursor.input ≡ input
      → r.span.start ≤ j
      → j + k ≤ r.span.end
      → r.span.end ≤ length us
      → w.work + k ≤ quantum
      → k ≤ w.budget.remaining
      → Ends finished (r.span.end - j - k) (quantum - w.work - k)
      → Settles r false
          (j + k)
          k
          w.budget
          (fold_units step w.acc (take k (drop j us)))
          finished
          (after_seek {E = E} {X = X} (pure_consumer step) quantum r (arrived w))
  unfolding after_seek after_deliver
  delivers r w j k true p same lo hi fits room money rule =
      let d =
        deliver-Walked E X us quantum step r.span.end k (suc quantum) j w true p fits hi room
          (omega arith) money rule in
      record {
        after = settled r true true d.after;
        returns = rw d.returns;
        result = unfold settled in refl;
        finishes = unfold settled in refl;
        spent = unfold settled in d.budget;
        folded = unfold settled in d.folded;
        span = unfold settled in refl;
        seeks = unfold settled in refl;
        at =
            settled-ReaderAt r true true d.after (j + k) d.at (d.same ∙ same) (omega arith) fits
              (λ h. (omega arith, hi));
      }
  delivers r w j k false p same lo hi fits room money rule =
      let d =
        deliver-Walked E X us quantum step r.span.end k (suc quantum) j w false p fits hi room
          (omega arith) money rule in
      record {
        after = settled r true false d.after;
        returns = rw d.returns;
        result = unfold settled in refl;
        finishes = unfold settled in refl;
        spent = unfold settled in d.budget;
        folded = unfold settled in d.folded;
        span = unfold settled in refl;
        seeks = unfold settled in refl;
        at =
            settled-ReaderAt r true false d.after (j + k) d.at (d.same ∙ same) (omega arith) fits
              (λ h. (omega arith, hi));
      }

  pub Settles-Advanced :
      {r : Reader} {seeking finished : Bool} {i j n k m : ℕ} {budget : Budget} {acc : A}
      {run : Run (Folded E X A)}
      → Settles r seeking j m budget (fold_units step acc (take k (left us r i))) finished run
      → m ≡ n
      → ((s : Reader)
          → s.span ≡ r.span
          → s.seeking ≡ seeking
          → (left us s j ≡ drop k (left us r i))
            × (to_seek s j ≡ to_seek r i - n)
            × (to_seek s j + to_deliver s j + n ≡ to_seek r i + to_deliver r i))
      → Advanced input us step r i n k budget acc finished run
  Settles-Advanced {j} s e f =
      let (rest, sought, work) = f s.after.reader s.span s.seeks in
      record {
        after = s.after;
        returns = s.returns;
        result = s.result;
        finishes = s.finishes;
        spent = omega (arith, s.spent);
        folded = s.folded;
        unit = j;
        at = s.at;
        rest = rest;
        sought = sought;
        work = work;
      }
