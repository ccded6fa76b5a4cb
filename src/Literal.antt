-- ===== src/Literal.antt =====
-- src/literal.rs: the executor of `^` followed by literal characters.
pub mod Answers
pub mod Eligible
use perex.Base.{
  ℕ, zero, suc, ◌+◌, ◌-◌, Bool, true, false, List, Option, none, some, leb, ◌==◌, if◌then◌else◌,
}
use perex.Base.{◌&&◌, not, get_elem?, Run, ret, ◌>>=◌}
use perex.Budget.{Budget, charge}
use perex.Program.{
  Program, match_op, char_op, save_op, start_op, capture_count, instructions, unicode, instruction,
}
use perex.Program.{has_literal_prefix}
use perex.Input.View.{Input, Cursor, ascii_bytes, cursor}
use perex.Input.Walk.{next_unit}
use perex.Input.Points.{next_point, normalize_unicode_start}
use perex.Input.Seek.{cursor_at}
use perex.Span.{Span, new}

-- `&&` on tests that may panic, the second made only where the first holds.
pub both : Run Bool → Run Bool → Run Bool
both first second = first >>= (λ b. if b then second else ret false)

-- `(2..count - 2).all(...)`.
pub all_chars : Program → ℕ → ℕ → Run Bool
all_chars p zero pc = ret true
all_chars p (suc n) pc =
    both (instruction p pc >>= (λ (op, a, b). ret (op == char_op))) (all_chars p n (suc pc))

pub saves : Program → ℕ → ℕ → Run Bool
saves p pc slot = instruction p pc >>= (λ (op, a, b). ret (op == save_op && a == slot && b == 0))

pub has_op : Program → ℕ → ℕ → Run Bool
has_op p pc wanted = instruction p pc >>= (λ (op, a, b). ret (op == wanted))

pub eligible_of : Program → ℕ → Run Bool
eligible_of p count =
    both (capture_count p >>= (λ captures. ret (captures == 1 && leb 5 count && leb count 36))) (
      both (saves p 0 0) (
        both (has_op p 1 start_op) (
          both (saves p (count - 2) 1)
            (both (has_op p (count - 1) match_op) (all_chars p (count - 4) 2)))))

unfoldable pub eligible : Program → Run Bool
unfolding both all_chars saves has_op eligible_of
eligible p = instructions p >>= eligible_of p

-- `Program::literal_prefix`.
unfoldable pub literal_prefix : Program → Run (Option Program)
literal_prefix p = has_literal_prefix p >>= (λ flagged. ret (if flagged then some p else none))

pub data Found : Type 0 where
  work_limit : Found
  found : Option Span → Found

-- How a loop over the characters ends: by an error, a difference, or after the last of them.
pub data Compared : Type 0 where
  exhausted differs : Compared
  equal : ℕ → Compared

-- `bytes.get(index).copied().map(u32::from) != Some(expected)`, negated; of a cursor's read also.
unfoldable pub is_char : Option ℕ → ℕ → Bool
is_char none expected = false
is_char (some actual) expected = actual == expected

abbrev pub tried : Run (Compared × Budget) → Budget → Bool → Run (Compared × Budget)
tried rest budget same = if same then rest else ret (differs, budget)

pub ascii_paid :
    (Budget → Run (Compared × Budget))
    → Program
    → List ℕ
    → ℕ
    → Budget × Bool
    → Run (Compared × Budget)
ascii_paid next p bs index (budget, false) = ret (exhausted, budget)
ascii_paid next p bs index (budget, true) =
    instruction p (index + 2)
    >>= (λ (op, expected, b). tried (next budget) budget (is_char (get_elem? bs index) expected))

-- The loop of `find` over ASCII bytes, with `n` characters to go.
unfoldable pub ascii_loop : Program → List ℕ → ℕ → ℕ → Budget → Run (Compared × Budget)
unfolding ascii_paid
ascii_loop p bs zero index budget = ret (equal index, budget)
ascii_loop p bs (suc n) index budget =
    ascii_paid (ascii_loop p bs n (suc index)) p bs index (charge budget 1)

abbrev pub read : Bool → Cursor → Run (Option ℕ × Cursor)
read wide c = if wide then next_point c else next_unit c

pub cursor_paid :
    (Cursor → Budget → Run (Compared × Budget))
    → Program
    → Bool
    → ℕ
    → Cursor
    → Budget × Bool
    → Run (Compared × Budget)
cursor_paid next p wide pc c (budget, false) = ret (exhausted, budget)
cursor_paid next p wide pc c (budget, true) = instruction p pc >>= (λ (op, expected, b).
    read wide c >>= (λ (actual, c). tried (next c budget) budget (is_char actual expected)))

-- The loop of `find_cursor`, with `n` characters to go.
unfoldable pub cursor_loop : Program → Bool → ℕ → ℕ → Cursor → Budget → Run (Compared × Budget)
unfolding cursor_paid
cursor_loop p wide zero pc c budget = ret (equal c.utf16_offset, budget)
cursor_loop p wide (suc n) pc c budget =
    cursor_paid (cursor_loop p wide n (suc pc)) p wide pc c (charge budget 1)

pub concluded : Compared × Budget → Run (Found × Budget)
concluded (exhausted, budget) = ret (work_limit, budget)
concluded (differs, budget) = ret (found none, budget)
concluded (equal end, budget) = ret (found (new 0 end), budget)

pub normalized : Option Cursor → Run Bool
normalized none = ret false
normalized (some start) =
    normalize_unicode_start start >>= (λ (moved, c). ret (c.utf16_offset == 0))

-- Whether a search from this start can reach `^`.
unfoldable pub reaches_start : Input → ℕ → Bool → Run Bool
unfolding normalized
reaches_start input start_utf16 wide =
    if start_utf16 == 0
    then ret true
    else if start_utf16 == 1 && wide
    then cursor_at input 1 >>= normalized
    else ret false

unfoldable pub find_cursor : Program → Input → ℕ → Budget → Run (Found × Budget)
unfolding concluded
find_cursor p input start_utf16 budget = unicode p >>= (λ wide.
    reaches_start input start_utf16 wide >>= (λ reaches.
      if reaches
      then instructions p
        >>= (λ count. cursor_loop p wide (count - 4) 2 (cursor input) budget >>= concluded)
      else ret (found none, budget)))

pub find_ascii : Program → List ℕ → ℕ → Budget → Run (Found × Budget)
find_ascii p bs start_utf16 budget =
    if start_utf16 == 0
    then instructions p >>= (λ count. ascii_loop p bs (count - 4) 0 budget >>= concluded)
    else ret (found none, budget)

pub find_in : Program → Input → ℕ → Option (List ℕ) → Budget → Run (Found × Budget)
find_in p input start_utf16 none budget = find_cursor p input start_utf16 budget
find_in p input start_utf16 (some bs) budget = find_ascii p bs start_utf16 budget

pub find_paid : Program → Input → ℕ → Budget × Bool → Run (Found × Budget)
find_paid p input start_utf16 (budget, false) = ret (work_limit, budget)
find_paid p input start_utf16 (budget, true) =
    find_in p input start_utf16 (ascii_bytes input) budget

-- The caller's descriptor says that the program is eligible.
unfoldable pub find : Program → Input → ℕ → Budget → Run (Found × Budget)
unfolding find_paid find_in find_ascii concluded
find p input start_utf16 budget = find_paid p input start_utf16 (charge budget 1)
