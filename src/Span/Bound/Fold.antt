-- ===== src/Span/Bound/Fold.antt =====
-- Calls of `try_fold` in src/span/bound.rs, one and then a sequence of them.
use perex.Base.{ℕ, suc, ◌+◌, ◌-◌, ◌≤◌, ◌<◌, ◌≡◌, refl, ap, ◌∙◌, ◌⊎◌, arith, Bool, true, false}
use perex.Base.{List, some, leb, if◌then◌else◌, Bool-cases, inl, inr}
use perex.Base.{length, take, drop, drop-drop, Run, ret, ◌>>=◌}
use perex.Budget.{Budget}
use perex.Input.View.{Input, Layout, mark, half_bit}
use perex.Input.Seek.{resume_cursor}
use perex.Input.Seek.Start.{resume_cursor-mark}
use perex.Input.Stands.{CursorAt}
use perex.Binding.{Acquired, ok, view}
use perex.Span.Bound.{Reader, Walk, arrived, Folded}
use perex.Span.Bound.{try_fold, with_view, walk_from, after_seek, settled, seek_loop}
use perex.Span.Bound.Loops.{fold_units, pure_consumer, dist, toward, seek-Walked, Ends, Ends-suc}
use perex.Span.Bound.Steps.{
  ReaderAt, from, to_seek, to_deliver, left, Advanced, take-take, drop-take,
}
use perex.Span.Bound.Steps.{Settles, settled-ReaderAt, delivers, Settles-Advanced}
use mathlib.Core.Path.{subst}

-- The units that a call passes, and how many of them it delivers.
abbrev pub passed : ℕ → Reader → ℕ → ℕ
passed quantum r i =
    if leb (to_seek r i + to_deliver r i) quantum then to_seek r i + to_deliver r i else quantum

abbrev pub delivered : ℕ → Reader → ℕ → ℕ
delivered quantum r i = passed quantum r i - to_seek r i

module _ {A : Type 0} (E X : Type 0) (us : List ℕ) (quantum : ℕ) (step : A → ℕ → A) where
  abbrev entry : Reader → Walk A → Run (Folded E X A)
  entry r w =
      (if r.seeking
        then seek_loop {E = E} {X = X} (suc quantum) quantum r.span.start w
        else ret (arrived w))
      >>= after_seek {E = E} {X = X} (pure_consumer step) quantum r

  abbrev start : {input : Input} {r : Reader} {i : ℕ} → ReaderAt input us r i → Budget → A → Walk A
  start p budget acc = record { cursor = p.cursor; work = 0; budget = budget; acc = acc }

  try_fold-entry :
      (input : Input) (layout : Layout) (acquired : Acquired E) (r : Reader) (i : ℕ)
      (budget : Budget) (acc : A) (p : ReaderAt input us r i)
      → view layout acquired ≡ ok input
      → r.complete ≡ false
      → 0 < quantum
      → length us < half_bit
      → try_fold {E = E} {X = X} (pure_consumer step) quantum layout acquired r budget acc
        ≡ entry r (start p budget acc)
  unfolding try_fold with_view walk_from
  try_fold-entry input layout acquired r i budget acc p sees going h fits =
      let resumed : resume_cursor input r.mark ≡ ret (some p.cursor) =
        subst (λ m. resume_cursor input m ≡ ret (some p.cursor)) p.saved
          (subst (λ s. resume_cursor s (mark p.cursor) ≡ ret (some p.cursor)) p.over
            (resume_cursor-mark us p.cursor i p.at fits)) in
      ground (arith, p.live, going, sees, resumed)

  -- What the loop before spent is added to what delivery spends.
  Settles-after :
      (d : ℕ) {input : Input} {r : Reader} {seeking finished : Bool} {j k n : ℕ} {b c : Budget}
      {acc : A} {run run' : Run (Folded E X A)}
      → b.remaining + d ≡ c.remaining
      → n ≡ k + d
      → run' ≡ run
      → Settles E X input us quantum step r seeking j k b acc finished run
      → Settles E X input us quantum step r seeking j n c acc finished run'
  Settles-after d e f g s = record {
    after = s.after;
    returns = g ∙ s.returns;
    result = s.result;
    finishes = s.finishes;
    spent = omega (arith, e, s.spent);
    folded = s.folded;
    span = s.span;
    seeks = s.seeks;
    at = s.at;
  }

  rest_of :
      (from end k : ℕ)
      → from + k ≤ end
      → take (end - (from + k)) (drop (from + k) us) ≡ drop k (take (end - from) (drop from us))
  rest_of from end k h =
      let e : end - (from + k) ≡ end - from - k = omega arith in
      rw (e, drop-take k (end - from) (drop from us))
        (ap (take (end - from - k)) (drop-drop from k us))

  -- The reader stands where delivery goes on, `d` units after the call began.
  delivery :
      (input : Input) (r : Reader) (i d n k : ℕ) (w : Walk A) (budget : Budget) (acc : A)
      (finished : Bool) {run : Run (Folded E X A)}
      → CursorAt w.cursor us (from r i)
      → w.cursor.input ≡ input
      → w.work ≡ d
      → w.budget.remaining + d ≡ budget.remaining
      → w.acc ≡ acc
      → d ≡ to_seek r i
      → n ≡ k + d
      → r.span.start ≤ from r i
      → k ≤ to_deliver r i
      → from r i ≤ r.span.end
      → r.span.end ≤ length us
      → n ≤ quantum
      → n ≤ budget.remaining
      → Ends finished (to_deliver r i - k) (quantum - n)
      → run ≡ after_seek {E = E} {X = X} (pure_consumer step) quantum r (arrived w)
      → Advanced {E = E} {X = X} input us step r i n k budget acc finished run
  delivery input r i d n k w budget acc finished p same worked paid kept seek sum lo room hi fits
        quick money rule e =
      let q =
        delivers E X input us quantum step r w (from r i) k finished p same lo (omega arith) fits
          (omega arith) (omega arith) (Ends-suc finished _ _ _ _ refl (omega arith) rule) in
      let folded : fold_units step w.acc (take k (drop (from r i) us))
          ≡ fold_units step acc (take k (left us r i)) =
        rw (kept, take-take k (to_deliver r i) (drop (from r i) us) room) refl in
      let settles = Settles-after d paid sum e (
        subst
          (λ a.
            Settles E X input us quantum step r false (from r i + k) k w.budget a finished
              (after_seek (pure_consumer step) quantum r (arrived w)))
          folded q) in
      Settles-Advanced E X input us quantum step settles refl (λ s es ek. (
        left_still s es ek ∙ rest_of (from r i) r.span.end k (omega arith),
        rw ek (omega (arith, seek, sum)),
        rw (ek, es) (omega (arith, seek, sum, room, hi)),
      ))
    where
      left_still :
          (s : Reader)
          → s.span ≡ r.span
          → s.seeking ≡ false
          → left us s (from r i + k) ≡ take (r.span.end - (from r i + k)) (drop (from r i + k) us)
      left_still s es ek = rw (ek, es) refl

  -- The call ends while it still seeks.
  seeks_on :
      (input : Input) (r : Reader) (i : ℕ) (budget : Budget) (acc : A) (p : ReaderAt input us r i)
      → r.seeking ≡ true
      → quantum < dist i r.span.start
      → quantum ≤ budget.remaining
      → Advanced {E = E} {X = X} input us step r i quantum 0 budget acc false
          (entry r (start p budget acc))
  unfolding after_seek
  seeks_on input r i budget acc p seeking far money =
      let j = toward i r.span.start quantum in
      let lo = p.order in
      let hi = p.fits in
      let s =
        seek-Walked E X us quantum r.span.start quantum (suc quantum) i (start p budget acc) false
          p.at (omega arith) (omega arith) (omega arith) (omega arith) money
          (omega arith, omega arith) in
      record {
        after = settled r false false s.after;
        returns = rw (seeking, s.returns) refl;
        result = unfold settled in refl;
        finishes = unfold settled in refl;
        spent = unfold settled in s.budget;
        folded = unfold settled in s.folded;
        unit = j;
        at =
            settled-ReaderAt E X input us quantum step r false false s.after j s.at
              (s.same ∙ p.over) lo hi (λ h. absurd (ground arith));
        rest = unfold settled in (rw seeking refl);
        sought = unfold settled in (rw seeking (ground arith));
        work = unfold settled in (rw seeking (ground arith));
      }

  seeks_then_delivers :
      (input : Input) (r : Reader) (i n k : ℕ) (budget : Budget) (acc : A) (finished : Bool)
      (p : ReaderAt input us r i)
      → r.seeking ≡ true
      → n ≡ k + dist i r.span.start
      → k ≤ r.span.end - r.span.start
      → n ≤ quantum
      → n ≤ budget.remaining
      → Ends finished (r.span.end - r.span.start - k) (quantum - n)
      → Advanced {E = E} {X = X} input us step r i n k budget acc finished
          (entry r (start p budget acc))
  seeks_then_delivers input r i n k budget acc finished p seeking sum room quick money rule =
      let lo = p.order in
      let hi = p.fits in
      let d = dist i r.span.start in
      let s =
        seek-Walked E X us quantum r.span.start d (suc quantum) i (start p budget acc) true p.at
          (omega arith) (omega arith) (omega arith) (omega arith) (omega arith) (omega arith) in
      let here : toward i r.span.start d ≡ from r i = rw seeking (ground arith) in
      delivery input r i d n k s.after budget acc finished
        (subst (CursorAt s.after.cursor us) here s.at) (s.same ∙ p.over) (omega (arith, s.work))
        s.budget s.folded (rw seeking refl) sum (rw seeking (omega arith)) (rw seeking room)
        (rw seeking lo) hi quick money (rw seeking rule) (rw (seeking, s.returns) refl)

  only_delivers :
      (input : Input) (r : Reader) (i k : ℕ) (budget : Budget) (acc : A) (finished : Bool)
      (p : ReaderAt input us r i)
      → r.seeking ≡ false
      → k ≤ r.span.end - i
      → k ≤ quantum
      → k ≤ budget.remaining
      → Ends finished (r.span.end - i - k) (quantum - k)
      → Advanced {E = E} {X = X} input us step r i k k budget acc finished
          (entry r (start p budget acc))
  only_delivers input r i k budget acc finished p seeking room quick money rule =
      let (lo, hi) = p.inside seeking in
      let here : i ≡ from r i = rw seeking refl in
      delivery input r i 0 k k (start p budget acc) budget acc finished
        (subst (CursorAt p.cursor us) here p.at) p.over refl (omega arith) refl (rw seeking refl)
        (omega arith) (rw seeking lo) (rw seeking room) (rw seeking hi) p.fits quick money
        (rw seeking rule) (rw seeking refl)

  finishes :
      (input : Input) (r : Reader) (i n k : ℕ) (budget : Budget) (acc : A)
      (p : ReaderAt input us r i)
      → n ≡ to_seek r i + to_deliver r i
      → k ≡ n - to_seek r i
      → n ≤ quantum
      → n ≤ budget.remaining
      → Advanced {E = E} {X = X} input us step r i n k budget acc true
          (entry r (start p budget acc))
  finishes input r i n k budget acc p en ek quick money = elim (Bool-cases (r.seeking)) [
    | inl seeking ↦
        seeks_then_delivers input r i n k budget acc true p seeking (ground (arith))
          (ground (arith)) quick money (ground (arith))
    | inr still ↦
        let e : n ≡ k = ground (arith) in
        rw e (
          only_delivers input r i k budget acc true p still (ground (arith)) (ground (arith))
            (ground (arith)) (ground (arith)))
  ]

  pauses :
      (input : Input) (r : Reader) (i n k : ℕ) (budget : Budget) (acc : A)
      (p : ReaderAt input us r i)
      → n ≡ quantum
      → k ≡ n - to_seek r i
      → quantum < to_seek r i + to_deliver r i
      → n ≤ budget.remaining
      → Advanced {E = E} {X = X} input us step r i n k budget acc false
          (entry r (start p budget acc))
  pauses input r i n k budget acc p en ek slow money = elim (Bool-cases (r.seeking)) [
    | inl seeking ↦ elim (Bool-cases (leb (dist i r.span.start) quantum)) [
      | inl near ↦
          seeks_then_delivers input r i n k budget acc false p seeking (ground (arith))
            (ground (arith)) (ground (arith)) money (ground (arith))
      | inr far ↦
          let e : k ≡ 0 = ground (arith) in
          rw (e, en) (seeks_on input r i budget acc p seeking (ground (arith)) (ground (arith)))
    ]
    | inr still ↦
        let e : n ≡ k = ground (arith) in
        rw e (
          only_delivers input r i k budget acc false p still (ground (arith)) (ground (arith))
            (ground (arith)) (ground (arith)))
  ]

  -- What one call does to a live reader that is not complete, with a positive quantum, a consumer that
  -- returns no error and budget for the units that it passes, whatever was acquired as long as it
  -- shows the same subject: it passes units until it
  -- is done or has passed `quantum` of them, seeking first, gives the consumer in order the next of
  -- the units that were left, reports `complete` exactly when no unit is left, pays one unit of work
  -- for each unit passed, and leaves a reader that goes on where this one stopped.
  pub try_fold-Advanced :
      (input : Input) (layout : Layout) (acquired : Acquired E) (r : Reader) (i : ℕ)
      (budget : Budget) (acc : A)
      → ReaderAt input us r i
      → view layout acquired ≡ ok input
      → r.complete ≡ false
      → 0 < quantum
      → length us < half_bit
      → passed quantum r i ≤ budget.remaining
      → Advanced {E = E} {X = X} input us step r i
          (passed quantum r i)
          (delivered quantum r i)
          budget
          acc
          (leb (to_seek r i + to_deliver r i) quantum)
          (try_fold (pure_consumer step) quantum layout acquired r budget acc)
  try_fold-Advanced input layout acquired r i budget acc p sees going h fits money =
      rw (try_fold-entry input layout acquired r i budget acc p sees going h fits)
        (outcome (Bool-cases (leb (to_seek r i + to_deliver r i) quantum)))
    where
      outcome :
          (leb (to_seek r i + to_deliver r i) quantum ≡ true)
            ⊎ (leb (to_seek r i + to_deliver r i) quantum ≡ false)
          → Advanced {E = E} {X = X} input us step r i
              (passed quantum r i)
              (delivered quantum r i)
              budget
              acc
              (leb (to_seek r i + to_deliver r i) quantum)
              (entry r (start p budget acc))
      outcome (inl all) =
          rw all
            (finishes input r i _ _ budget acc p (ground arith) refl (ground arith) (ground arith))
      outcome (inr more) =
          rw more
            (pauses input r i _ _ budget acc p (ground arith) refl (ground arith) (ground arith))
