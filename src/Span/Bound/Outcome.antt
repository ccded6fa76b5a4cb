-- ===== src/Span/Bound/Outcome.antt =====
-- What a call of `try_fold` of src/span/bound.rs ends with, errors included.
use perex.Base.{
  ℕ, suc, ◌+◌, ◌-◌, ◌≤◌, ◌<◌, ◌≡◌, refl, sym, ap, ◌∙◌, arith, Bool, true, false, List, [], Option,
  some, if◌then◌else◌, length, get_elem?, take, drop, Run, ret, ◌>>=◌,
}
use perex.Budget.{Budget}
use perex.Input.View.{Input, Layout, mark, half_bit}
use perex.Input.Seek.{resume_cursor}
use perex.Input.Seek.Start.{resume_cursor-mark}
use perex.Input.Stands.{CursorAt}
use perex.Binding.{Acquired, ok, view}
use perex.Span.Bound.{
  Reader, Walk, Ended, arrived, Folded, done, fails, complete, pending, consumer, work_limit,
  failed, try_fold, with_view, walk_from, after_seek, after_deliver, settled, poisoned, unchanged,
  seek_loop,
}
use perex.Span.Bound.Loops.{dist, toward}
use perex.Span.Bound.Steps.{ReaderAt, from, to_seek, to_deliver, settled-ReaderAt}
use perex.Span.Bound.Failing.{Fed, no_unit, Delivers, goes, refused, unpaid, deliver-Delivers}
use perex.Span.Bound.Sought.{Seeks, goes, unpaid, seek-Seeks}
use mathlib.Core.Path.{subst}

-- The reader after an error: it goes no further.
abbrev pub poison : Reader → Reader
poison r = record r { failed = true }

module _ {E X A : Type 0} (us : List ℕ) (input : Input) (consume : A → ℕ → A × Option X)
    (quantum : ℕ) (r : Reader) (i : ℕ) (budget : Budget) (acc : A) where
  -- The call pauses or completes after `n` units, `k` of them taken by the consumer, and leaves a live
  -- reader; or the consumer reports an error for the unit behind the `k` that it took; or the budget is
  -- used up. An error leaves the reader poisoned.
  pub data Called : Run (Folded E X A) → Type 0 where
    settles :
        (after : Folded E X A) (j n k : ℕ) (finished : Bool)
        → after.result ≡ done (if finished then complete else pending)
        → after.reader.complete ≡ finished
        → after.reader.span ≡ r.span
        → ReaderAt input us after.reader j
        → Fed consume acc (take k (drop (from r i) us)) after.acc
        → k ≡ n - to_seek r i
        → n ≤ to_seek r i + to_deliver r i
        → (if finished then n ≡ to_seek r i + to_deliver r i else n ≡ quantum)
        → after.budget.remaining + n ≡ budget.remaining
        → Called (ret after)
    refuses :
        (k u : ℕ) (a b : A) (x : X) (left : Budget)
        → k < to_deliver r i
        → to_seek r i + k < quantum
        → Fed consume acc (take k (drop (from r i) us)) a
        → get_elem? us (from r i + k) ≡ some u
        → consume a u ≡ (b, some x)
        → left.remaining + suc (to_seek r i + k) ≡ budget.remaining
        → Called (
            ret (record { result = fails (consumer x); reader = poison r; budget = left; acc = b }))
    exhausts :
        (k : ℕ) (a : A)
        → budget.remaining < to_seek r i + to_deliver r i
        → budget.remaining < quantum
        → k ≡ budget.remaining - to_seek r i
        → Fed consume acc (take k (drop (from r i) us)) a
        → Called (
            ret (record {
              result = fails work_limit;
              reader = poison r;
              budget = record { remaining = 0 };
              acc = a;
            }))

  module _ (p : ReaderAt input us r i) where
    delivered-Called :
        (w : Walk A) {run : Run (Ended E X A)}
        → w.cursor.input ≡ input
        → w.work ≡ to_seek r i
        → w.budget.remaining + to_seek r i ≡ budget.remaining
        → w.acc ≡ acc
        → r.span.start ≤ from r i
        → from r i ≤ r.span.end
        → Delivers us consume quantum r.span.end (from r i) w run
        → Called (run >>= (λ ended. ret (after_deliver consume quantum r ended)))
    unfolding after_deliver poisoned settled
    delivered-Called w same worked paid kept lo hi (goes after k true at s b h f m) =
        settles _ (from r i + k) (to_seek r i + k) k true refl refl refl
          (settled-ReaderAt E X input us quantum (λ a u. a) r true true after (from r i + k) at
            (s ∙ same) p.order p.fits (λ e. (omega arith, b)))
          (subst (λ a. Fed consume a (take k (drop (from r i) us)) after.acc) kept f) (omega arith)
          (omega arith) (omega arith) (omega arith)
    delivered-Called w same worked paid kept lo hi (goes after k false at s b h f m) =
        settles _ (from r i + k) (to_seek r i + k) k false refl refl refl
          (settled-ReaderAt E X input us quantum (λ a u. a) r true false after (from r i + k) at
            (s ∙ same) p.order p.fits (λ e. (omega arith, b)))
          (subst (λ a. Fed consume a (take k (drop (from r i) us)) after.acc) kept f) (omega arith)
          (omega arith) (omega arith) (omega arith)
    delivered-Called w same worked paid kept lo hi (refused k u a b x left l q f g h m) =
        refuses k u a b x left (omega arith) (omega arith)
          (subst (λ a0. Fed consume a0 (take k (drop (from r i) us)) a) kept f) g h (omega arith)
    delivered-Called w same worked paid kept lo hi (unpaid k a l q f m) =
        exhausts k a (omega arith) (omega arith) (omega arith)
          (subst (λ a0. Fed consume a0 (take k (drop (from r i) us)) a) kept f)

    -- The seek, and delivery behind it where the quantum leaves room.
    sought-Called :
        (w : Walk A) {run : Run (Ended E X A)}
        → w.cursor.input ≡ input
        → w.work ≡ 0
        → w.budget ≡ budget
        → w.acc ≡ acc
        → r.seeking ≡ true
        → Seeks us quantum r.span.start i w run
        → Called (run >>= after_seek {E = E} {X = X} consume quantum r)
    unfolding after_seek poisoned settled
    sought-Called w same worked paid kept seeking (goes after n true at s h b q f m l) =
        let e : toward i r.span.start n ≡ from r i = ground arith in
        let d : n ≡ to_seek r i = ground arith in
        let money : w.budget.remaining ≡ budget.remaining = ap (λ b. b.remaining) paid in
        let lo : r.span.start ≤ from r i = ground arith in
        let hi : from r i ≤ r.span.end = ground (arith, p.order) in
        delivered-Called after (s ∙ same) (omega arith) (omega arith) (f ∙ kept) lo hi (
          deliver-Delivers us consume (suc quantum) quantum r.span.end (from r i) after
            (subst (CursorAt after.cursor us) e at) p.fits hi (omega arith) (omega arith))
    sought-Called w same worked paid kept seeking (goes after n false at s h b q f m l) =
        let d : dist i r.span.start ≡ to_seek r i = ground arith in
        let money : w.budget.remaining ≡ budget.remaining = ap (λ b. b.remaining) paid in
        settles _ (toward i r.span.start n) n 0 false refl refl refl
          (settled-ReaderAt E X input us quantum (λ a u. a) r false false after
            (toward i r.span.start n) at (s ∙ same) p.order p.fits (λ e. absurd (ground arith)))
          (subst (λ a. Fed consume acc [] a) (sym (f ∙ kept)) (no_unit acc)) (omega arith)
          (omega arith) (omega arith) (omega arith)
    sought-Called w same worked paid kept seeking (unpaid n h m l) =
        let d : dist i r.span.start ≡ to_seek r i = ground arith in
        let money : w.budget.remaining ≡ budget.remaining = ap (λ b. b.remaining) paid in
        exhausts 0 w.acc (omega arith) (omega arith) (omega arith)
          (subst (λ a. Fed consume acc [] a) (sym kept) (no_unit acc))

    entered :
        (layout : Layout) (acquired : Acquired E) (w : Walk A)
        → w ≡ record { cursor = p.cursor; work = 0; budget = budget; acc = acc }
        → view layout acquired ≡ ok input
        → r.complete ≡ false
        → 0 < quantum
        → length us < half_bit
        → try_fold {E = E} {X = X} consume quantum layout acquired r budget acc ≡ (
            (if r.seeking
              then seek_loop {E = E} {X = X} (suc quantum) quantum r.span.start w
              else ret (arrived w))
            >>= after_seek {E = E} {X = X} consume quantum r)
    unfolding try_fold with_view walk_from
    entered layout acquired w e sees going h fits =
        let resumed : resume_cursor input r.mark ≡ ret (some p.cursor) =
          subst (λ m. resume_cursor input m ≡ ret (some p.cursor)) p.saved
            (subst (λ s. resume_cursor s (mark p.cursor) ≡ ret (some p.cursor)) p.over
              (resume_cursor-mark us p.cursor i p.at fits)) in
        rw e (ground (arith, p.live, going, sees, resumed))

    called :
        (layout : Layout) (acquired : Acquired E)
        → view layout acquired ≡ ok input
        → r.complete ≡ false
        → 0 < quantum
        → length us < half_bit
        → Called (try_fold consume quantum layout acquired r budget acc)
    unfolding after_seek
    called layout acquired sees going h fits =
        let w : Walk A = record { cursor = p.cursor; work = 0; budget = budget; acc = acc } in
        rw (entered layout acquired w refl sees going h fits) (branches w refl r.seeking refl)
      where
        branches :
            (w : Walk A)
            → w ≡ record { cursor = p.cursor; work = 0; budget = budget; acc = acc }
            → (seeking : Bool) → r.seeking ≡ seeking
            → Called (
                (if seeking
                  then seek_loop {E = E} {X = X} (suc quantum) quantum r.span.start w
                  else ret (arrived w))
                >>= after_seek {E = E} {X = X} consume quantum r)
        branches w q true seeking = rw q (
            sought-Called _ p.over refl refl refl seeking (
              seek-Seeks us (suc quantum) quantum r.span.start i _ p.at
                (omega (arith, p.order, p.fits)) (omega arith) (omega arith)))
        branches w q false still =
            let e : i ≡ from r i = ground arith in
            let z : 0 ≡ to_seek r i = ground arith in
            let (lo, hi) = p.inside still in
            rw q (
              delivered-Called _ p.over z (omega arith) refl (omega arith) (omega arith) (
                deliver-Delivers us consume (suc quantum) quantum r.span.end (from r i) _
                  (subst (CursorAt p.cursor us) e p.at) p.fits (omega arith) (omega arith)
                  (omega arith)))

-- On a live reader that is not complete, with a positive quantum, every call of `try_fold` ends, whatever
-- the consumer does and the budget allows: it pauses at the quantum or completes the span, and leaves a
-- live reader of the same span; or it ends with the consumer's error, for the unit behind those that the
-- consumer took; or with `WorkLimit`, where the budget does not cover the walk. Both errors leave the
-- reader poisoned, and every later call of a poisoned reader is refused and changes nothing.
pub try_fold-Called :
    {E X A : Type 0} (us : List ℕ) (input : Input) (consume : A → ℕ → A × Option X) (quantum : ℕ)
    (r : Reader) (i : ℕ) (budget : Budget) (acc : A) (layout : Layout) (acquired : Acquired E)
    → ReaderAt input us r i
    → view layout acquired ≡ ok input
    → r.complete ≡ false
    → 0 < quantum
    → length us < half_bit
    → Called us input consume quantum r i budget acc
        (try_fold consume quantum layout acquired r budget acc)
      × ((again : A → ℕ → A × Option X) (m : ℕ) (l : Layout) (q : Acquired E) (b : Budget) (a : A)
          → try_fold again m l q (poison r) b a
            ≡ ret (record { result = fails failed; reader = poison r; budget = b; acc = a }))
unfolding try_fold unchanged
try_fold-Called us input consume quantum r i budget acc layout acquired p sees going h fits = (
  called us input consume quantum r i budget acc p layout acquired sees going h fits,
  (λ again m l q b a. refl),
)
