-- ===== src/Span/Bound.antt =====
-- src/span/bound.rs: a reader of a span's units that pauses, and survives moves of the subject.
-- The consumer is host code: a step on its own state `A` that may return an error `X`.
pub mod Loops
pub mod Steps
pub mod Fold
pub mod Calls
pub mod Failing
pub mod Sought
pub mod Outcome
pub mod Open
use perex.Base.{ℕ, zero, suc, ◌+◌, ◌-◌, Bool, true, false, Option, none, some, ltb, leb, ◌==◌}
use perex.Base.{if◌then◌else◌, ◌&&◌, ◌||◌, not, Run, ret, stuck, ◌>>=◌}
use perex.Budget.{Budget, charge}
use perex.Input.View.{Input, Cursor, Mark, Layout, Position, mark}
use perex.Input.Walk.{next_unit, previous_unit}
use perex.Input.Seek.{cursor_at, resume_cursor, seek_work}
use perex.Binding.{BoundSubject, Acquired, SubjectError, Viewed, ok, err, view, same_shape}
use perex.Span.{Span, is_empty}

pub data ReadError (E X : Type 0) : Type 0 where
  subject : SubjectError E → ReadError E X
  invalid_span invalid_quantum changed_position work_limit failed : ReadError E X
  consumer : X → ReadError E X

pub data ReadProgress : Type 0 where
  pending complete : ReadProgress

pub data Read (E X A : Type 0) : Type 0 where
  done : A → Read E X A
  fails : ReadError E X → Read E X A

-- `BoundSpan`; the subject that it borrows is passed to the functions.
pub record Reader : Type 0 where
  pub span : Span
  pub mark : Mark
  pub seeking : Bool
  pub complete : Bool
  pub failed : Bool

-- What the loops of `try_fold` change.
pub record Walk (A : Type 0) : Type 0 where
  pub cursor : Cursor
  pub work : ℕ
  pub budget : Budget
  pub acc : A

-- A loop ends by its condition, at the quantum, or by an error.
pub data Ended (E X A : Type 0) : Type 0 where
  arrived paused : Walk A → Ended E X A
  stopped : ReadError E X → Budget → A → Ended E X A

module _ {E X A : Type 0} where
  seek_moved :
      (Walk A → Run (Ended E X A)) → Walk A → Budget → Option ℕ × Cursor → Run (Ended E X A)
  seek_moved next w budget (none, c) = ret (stopped changed_position budget w.acc)
  seek_moved next w budget (some unit, c) =
      next (record w { cursor = c; work = w.work + 1; budget = budget })

  seek_paid : (Walk A → Run (Ended E X A)) → ℕ → Walk A → Budget × Bool → Run (Ended E X A)
  seek_paid next target w (budget, false) = ret (stopped work_limit budget w.acc)
  seek_paid next target w (budget, true) =
      (if ltb w.cursor.utf16_offset target then next_unit w.cursor else previous_unit w.cursor)
      >>= seek_moved next w budget

  -- `while self.seeking && cursor.position() != self.span.start()`; each round is a unit of work.
  unfoldable pub seek_loop : ℕ → ℕ → ℕ → Walk A → Run (Ended E X A)
  unfolding seek_moved seek_paid
  seek_loop zero quantum target w = stuck
  seek_loop (suc fuel) quantum target w =
      let round = seek_paid (seek_loop fuel quantum target) target w (charge w.budget 1) in
      if w.cursor.utf16_offset == target
      then ret (arrived w)
      else if w.work == quantum
      then ret (paused w)
      else round

  module _ (consume : A → ℕ → A × Option X) where
    consumed : (Walk A → Run (Ended E X A)) → Walk A → A × Option X → Run (Ended E X A)
    consumed next w (acc, none) = next (record w { acc = acc })
    consumed next w (acc, some x) = ret (stopped (consumer x) w.budget acc)

    deliver_moved :
        (Walk A → Run (Ended E X A)) → Walk A → Budget → Option ℕ × Cursor → Run (Ended E X A)
    deliver_moved next w budget (none, c) = ret (stopped changed_position budget w.acc)
    deliver_moved next w budget (some unit, c) =
        consumed next (record w { cursor = c; work = w.work + 1; budget = budget })
          (consume w.acc unit)

    deliver_paid : (Walk A → Run (Ended E X A)) → Walk A → Budget × Bool → Run (Ended E X A)
    deliver_paid next w (budget, false) = ret (stopped work_limit budget w.acc)
    deliver_paid next w (budget, true) = next_unit w.cursor >>= deliver_moved next w budget

    -- `while cursor.position() < self.span.end()`.
    unfoldable pub deliver_loop : ℕ → ℕ → ℕ → Walk A → Run (Ended E X A)
    unfolding consumed deliver_moved deliver_paid
    deliver_loop zero quantum end w = stuck
    deliver_loop (suc fuel) quantum end w =
        let round = deliver_paid (deliver_loop fuel quantum end) w (charge w.budget 1) in
        if ltb w.cursor.utf16_offset end
        then if w.work == quantum then ret (paused w) else round
        else ret (arrived w)

-- What a call of `try_fold` leaves: its result, the reader, the budget and the consumer's state.
pub record Folded (E X A : Type 0) : Type 0 where
  pub result : Read E X ReadProgress
  pub reader : Reader
  pub budget : Budget
  pub acc : A

module _ {E X A : Type 0} where
  -- The reader is poisoned before anything runs, and stays so on an error.
  poisoned : Reader → ReadError E X → Budget → A → Folded E X A
  poisoned r e budget acc = record {
    result = fails e;
    reader = record r { failed = true };
    budget = budget;
    acc = acc;
  }

  pub settled : Reader → Bool → Bool → Walk A → Folded E X A
  settled r sought finished w = record {
    result = done (if finished then complete else pending);
    reader = record r {
      mark = mark w.cursor;
      seeking = not sought;
      complete = finished;
      failed = false;
    };
    budget = w.budget;
    acc = w.acc;
  }

  unchanged : Reader → Read E X ReadProgress → Budget → A → Folded E X A
  unchanged r result budget acc = record { result = result; reader = r; budget = budget; acc = acc }

  module _ (consume : A → ℕ → A × Option X) (quantum : ℕ) (r : Reader) where
    after_deliver : Ended E X A → Folded E X A
    after_deliver (arrived w) = settled r true true w
    after_deliver (paused w) = settled r true false w
    after_deliver (stopped e budget acc) = poisoned r e budget acc

    pub after_seek : Ended E X A → Run (Folded E X A)
    after_seek (arrived w) =
        deliver_loop {E = E} consume (suc quantum) quantum r.span.end w
        >>= (λ ended. ret (after_deliver ended))
    after_seek (paused w) = ret (settled r false false w)
    after_seek (stopped e budget acc) = ret (poisoned r e budget acc)

    walk_from : Budget → A → Option Cursor → Run (Folded E X A)
    walk_from budget acc none = ret (poisoned r changed_position budget acc)
    walk_from budget acc (some c) =
        let w : Walk A = record { cursor = c; work = 0; budget = budget; acc = acc } in
        (if r.seeking
          then seek_loop {E = E} {X = X} (suc quantum) quantum r.span.start w
          else ret (arrived w))
        >>= after_seek

    with_view : Budget → A → Viewed E Input → Run (Folded E X A)
    with_view budget acc (err e) = ret (poisoned r (subject e) budget acc)
    with_view budget acc (ok input) = resume_cursor input r.mark >>= walk_from budget acc

  -- A loop does at most `quantum` rounds and a last test.
  unfoldable pub try_fold :
      (A → ℕ → A × Option X) → ℕ → Layout → Acquired E → Reader → Budget → A → Run (Folded E X A)
  unfolding with_view walk_from after_seek after_deliver settled poisoned unchanged
  try_fold consume quantum layout acquired r budget acc =
      if r.failed
      then ret (unchanged r (fails failed) budget acc)
      else if quantum == 0
      then ret (unchanged r (fails invalid_quantum) budget acc)
      else if r.complete
      then ret (unchanged r (done complete) budget acc)
      else with_view consume quantum r budget acc (view layout acquired)

unfoldable pub position : Layout → Reader → Position
position layout r = record { mark = r.mark; layout = layout }
