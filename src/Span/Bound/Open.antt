-- ===== src/Span/Bound/Open.antt =====
-- src/span/bound.rs: `BoundSpan::new`, `retarget` and `new_near`. A call that does not return a
-- reader, or that poisons it, returns the error.
pub mod Starts
use perex.Base.{ℕ, ◌+◌, ◌-◌, Bool, true, false, Option, none, some, ltb, leb, ◌==◌, if◌then◌else◌}
use perex.Base.{◌&&◌, not, Run, ret, ◌>>=◌}
use perex.Input.View.{Input, Cursor, Layout, Position, mark}
use perex.Input.Seek.{cursor_at, resume_cursor, seek_work}
use perex.Binding.{Acquired, Viewed, ok, err, view, same_shape}
use perex.Span.{Span, is_empty}
use perex.Span.Bound.{
  Reader, Read, ReadError, done, fails, subject, invalid_span, changed_position, failed,
}

abbrev pub abs_diff : ℕ → ℕ → ℕ
abs_diff a b = a - b + (b - a)

-- The end of the subject that is nearer to a span's start.
pub nearer_end : Input → Span → ℕ
nearer_end input span = if leb span.start (input.utf16_len - span.start) then 0 else input.utf16_len

pub first_position : Input → Span → ℕ
first_position input span =
    if is_empty span
    then 0
    else if seek_work input span.start == 1
    then span.start
    else nearer_end input span

-- The cursor that `retarget` seeks from, given the reader's own one.
pub chosen : Input → Span → Cursor → Run (Option Cursor)
chosen input span current =
    if seek_work input span.start == 1
    then cursor_at input span.start
    else if leb (abs_diff current.utf16_offset span.start)
        (abs_diff (nearer_end input span) span.start)
    then ret (some current)
    else cursor_at input (nearer_end input span)

pub choose : Input → Span → Option Cursor → Run (Option Cursor)
choose input span none = ret none
choose input span (some current) = chosen input span current

pub nearer : Reader → Span → Cursor → Cursor → Reader
nearer r span near own =
    let c =
      if not (is_empty span)
        && ltb (abs_diff near.utf16_offset span.start) (abs_diff own.utf16_offset span.start)
      then near
      else own in
    record r { mark = mark c; seeking = not (is_empty span) && not (c.utf16_offset == span.start) }

module _ {E X : Type 0} where
  pub reader_from : Span → ℕ → Option Cursor → Read E X Reader
  reader_from span position none = fails changed_position
  reader_from span position (some c) = done (record {
    span = span;
    mark = mark c;
    seeking = not (position == span.start);
    complete = is_empty span;
    failed = false;
  })

  pub new_in : Span → Viewed E Input → Run (Read E X Reader)
  new_in span (err e) = ret (fails (subject e))
  new_in span (ok input) =
      if ltb input.utf16_len span.end
      then ret (fails invalid_span)
      else cursor_at input (first_position input span)
        >>= (λ c. ret (reader_from span (first_position input span) c))

  unfoldable pub new : Span → Layout → Acquired E → Run (Read E X Reader)
  unfolding new_in reader_from first_position nearer_end
  new span layout acquired = new_in span (view layout acquired)

  pub retargeted : Reader → Span → Option Cursor → Read E X Reader
  retargeted r span none = fails changed_position
  retargeted r span (some c) = done (record r {
    span = span;
    mark = mark c;
    seeking = not (c.utf16_offset == span.start);
    complete = is_empty span;
    failed = false;
  })

  pub retarget_in : Reader → Span → Viewed E Input → Run (Read E X Reader)
  retarget_in r span (err e) = ret (fails (subject e))
  retarget_in r span (ok input) =
      if ltb input.utf16_len span.end
      then ret (fails invalid_span)
      else resume_cursor input r.mark >>= choose input span >>= (λ c. ret (retargeted r span c))

  -- The error leaves a poisoned reader, and one that had failed is left as it was.
  pub left_by : Reader → Read E X Reader → Read E X Reader × Reader
  left_by r (fails e) = (fails e, record r { failed = true })
  left_by r (done s) = (done s, s)

  unfoldable pub retarget : Reader → Span → Layout → Acquired E → Run (Read E X Reader × Reader)
  unfolding retarget_in retargeted choose chosen nearer_end left_by
  retarget r span layout acquired =
      if r.failed
      then ret (fails failed, r)
      else retarget_in r span (view layout acquired) >>= (λ result. ret (left_by r result))

  pub with_own : Reader → Span → Cursor → Option Cursor → Read E X Reader
  with_own r span near none = fails changed_position
  with_own r span near (some own) = done (nearer r span near own)

  pub with_near : Input → Reader → Span → Option Cursor → Run (Read E X Reader)
  with_near input r span none = ret (fails changed_position)
  with_near input r span (some near) =
      resume_cursor input r.mark >>= (λ own. ret (with_own r span near own))

  pub near_in : Position → Reader → Span → Viewed E Input → Run (Read E X Reader)
  near_in near r span (err e) = ret (fails (subject e))
  near_in near r span (ok input) = resume_cursor input near.mark >>= with_near input r span

  pub near_from : Position → Span → Layout → Acquired E → Read E X Reader → Run (Read E X Reader)
  near_from near span layout again (fails e) = ret (fails e)
  near_from near span layout again (done r) =
      if not (same_shape near.layout layout)
      then ret (fails changed_position)
      else near_in near r span (view layout again)

  -- The subject is viewed twice, so its witness is asked twice.
  unfoldable pub new_near :
      Span → Position → Layout → Acquired E → Acquired E → Run (Read E X Reader)
  unfolding new near_from near_in with_near with_own nearer
  new_near span near layout acquired again =
      new span layout acquired >>= near_from near span layout again
