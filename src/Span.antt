-- ===== src/Span.antt =====
-- src/span.rs: half-open intervals of UTF-16 units, and the units of one.
pub mod Units
pub mod Bound
use perex.Base.{
  ℕ, zero, suc, ◌-◌, Bool, List, Option, none, some, ltb, leb, ◌==◌, if◌then◌else◌, Run, ret, ◌>>=◌,
}
use perex.Input.View.{Input, Cursor}
use perex.Input.Walk.{next_unit}
use perex.Input.Seek.{cursor_at}

pub record Span : Type 0 where
  pub start : ℕ
  pub end : ℕ

unfoldable pub new : ℕ → ℕ → Option Span
new start end = if leb start end then some (record { start = start; end = end }) else none

-- `end - start`; a span's start is at most its end.
unfoldable pub len : Span → ℕ
len s = s.end - s.start

unfoldable pub is_empty : Span → Bool
is_empty s = s.start == s.end

pub record SpanUnits : Type 0 where
  pub cursor : Cursor
  pub remaining : ℕ

units_from : ℕ → Option Cursor → Option SpanUnits
units_from n none = none
units_from n (some c) = some (record { cursor = c; remaining = n })

unfoldable pub units : Span → Input → Run (Option SpanUnits)
unfolding units_from len
units s input =
    if ltb input.utf16_len s.end
    then ret none
    else cursor_at input s.start >>= (λ c. ret (units_from (len s) c))

next_with : ℕ → Run (Option ℕ × Cursor) → Run (Option ℕ × SpanUnits)
next_with n read = read >>= (λ (unit, c). ret (unit, record { cursor = c; remaining = n }))

next_left : SpanUnits → ℕ → Run (Option ℕ × SpanUnits)
next_left u zero = ret (none, u)
next_left u (suc n) = next_with n (next_unit u.cursor)

-- `Iterator::next`, and `size_hint`.
unfoldable pub next : SpanUnits → Run (Option ℕ × SpanUnits)
unfolding next_left next_with
next u = next_left u u.remaining

unfoldable pub size_hint : SpanUnits → ℕ × Option ℕ
size_hint u = (u.remaining, some u.remaining)
