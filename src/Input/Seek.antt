-- ===== src/Input/Seek.antt =====
-- Starting a cursor at a position: `cursor_at` and its scan, `resume_cursor`, and the ASCII skip.
pub mod Scan
pub mod Start
pub mod Skip
use perex.Base.{ℕ, zero, suc, ◌+◌, ◌-◌, ◌/◌, Bool, true, false, List, [], ◌∷◌, Option, none, some}
use perex.Base.{ltb, leb, ◌==◌, if◌then◌else◌, ◌&&◌, ◌||◌, not, length, get_elem?, take, drop, min}
use perex.Base.{Run, ret, panic, stuck, ◌>>=◌, or_panic}
use perex.Input.Scalar.{decode_valid, is_continuation}
use perex.Input.View.{
  Storage, ascii, bytes, units, Input, Cursor, Mark, half_bit, without_half, has_half, pack_offset,
}
use perex.Input.View.{len_utf16_of, cursor, restore, original_bytes}
use perex.Input.Walk.{scan_back, ahead}

-- One round of the forward scan, `next` being the round after it.
forward_round : (ℕ → ℕ → Run ℕ) → ℕ → ℕ → ℕ → ℕ × ℕ → Run ℕ
forward_round next target offset at (point, width) =
    let rest = next (offset + width) (at + len_utf16_of point) in
    if ltb (target - at) (len_utf16_of point) then ret (pack_offset offset true) else rest

unfoldable pub seek_forward : ℕ → List ℕ → ℕ → ℕ → ℕ → Run ℕ
unfolding forward_round len_utf16_of
seek_forward zero bs target offset at = stuck
seek_forward (suc fuel) bs target offset at =
    let round =
      decode_valid bs offset >>= forward_round (seek_forward fuel bs target) target offset at in
    if ltb at target then round else ret offset

backward_round : (ℕ → ℕ → Run ℕ) → ℕ → ℕ → ℕ → ℕ × ℕ → Run ℕ
backward_round next target at offset (point, width) =
    let rest = next offset (at - len_utf16_of point) in
    if ltb (at - target) (len_utf16_of point) then ret (pack_offset offset true) else rest

unfoldable pub seek_backward : ℕ → List ℕ → ℕ → ℕ → ℕ → Run ℕ
unfolding backward_round len_utf16_of
seek_backward zero bs target offset at = stuck
seek_backward (suc fuel) bs target offset at =
    let round =
      scan_back bs offset
      >>= (λ o. decode_valid bs o >>= backward_round (seek_backward fuel bs target) target at o) in
    if ltb target at then round else ret offset

-- Each round of either scan moves by a unit at least.
unfoldable pub seek_byte_offset : List ℕ → ℕ → ℕ → Run ℕ
seek_byte_offset bs utf16_len utf16_offset =
    if leb utf16_offset (utf16_len / 2)
    then seek_forward (suc utf16_offset) bs utf16_offset 0 0
    else seek_backward (suc utf16_len) bs utf16_offset (length bs) utf16_len

stored_offset : Storage → ℕ → ℕ → Run ℕ
stored_offset (ascii bs) utf16_len utf16_offset = ret utf16_offset
stored_offset (units us) utf16_len utf16_offset = ret utf16_offset
stored_offset (bytes bs) utf16_len utf16_offset =
    if utf16_offset == 0
    then ret utf16_offset
    else if utf16_offset == utf16_len
    then ret (length bs)
    else seek_byte_offset bs utf16_len utf16_offset

unfoldable pub cursor_at : Input → ℕ → Run (Option Cursor)
unfolding stored_offset
cursor_at i utf16_offset =
    if ltb i.utf16_len utf16_offset
    then ret none
    else stored_offset i.storage i.utf16_len utf16_offset
      >>= (λ o. ret (some (record { input = i; offset = o; utf16_offset = utf16_offset })))

seek_work_in : Storage → ℕ → ℕ → ℕ
seek_work_in (bytes bs) utf16_len position = min position (utf16_len - position) + 1
seek_work_in _ utf16_len position = 1

-- Called at a position of the subject; the sum stays below `usize::MAX`.
unfoldable pub seek_work : Input → ℕ → ℕ
unfolding seek_work_in
seek_work i position = seek_work_in i.storage i.utf16_len position

-- The conditions under which `resume_cursor` refuses a mark, per representation, in the order
-- of the source. The decoder runs only where the tests before it leave it to.
refuses_stored : List ℕ → Mark → Bool
refuses_stored xs m =
    has_half m.offset
    || not (without_half m.offset == m.units)
    || ltb (length xs) (without_half m.offset)

at_continuation : List ℕ → ℕ → Bool
at_continuation bs o = elim (get_elem? bs o) [ none ↦ false | some b ↦ is_continuation b ]

no_half_at : List ℕ → ℕ → Run Bool
no_half_at bs o =
    if o == length bs
    then ret true
    else decode_valid bs o >>= (λ (point, width). ret (leb point 0xffff))

refuses_bytes : List ℕ → ℕ → Mark → Run Bool
refuses_bytes bs utf16_len m =
    let o : ℕ = without_half m.offset in
    if ltb (length bs) o
      || not (if o == length bs then m.units == utf16_len else not (m.units == utf16_len))
      || (o == 0 && not (has_half m.offset) && not (m.units == 0))
      || (ltb o (length bs) && at_continuation bs o)
    then ret true
    else if has_half m.offset
    then no_half_at bs o
    else ret false

refuses : Storage → ℕ → Mark → Run Bool
refuses (ascii bs) utf16_len m = ret (refuses_stored bs m)
refuses (units us) utf16_len m = ret (refuses_stored us m)
refuses (bytes bs) utf16_len m = refuses_bytes bs utf16_len m

unfoldable pub resume_cursor : Input → Mark → Run (Option Cursor)
unfolding refuses refuses_bytes no_half_at at_continuation refuses_stored
resume_cursor i m =
    if ltb i.utf16_len m.units
    then ret none
    else refuses i.storage i.utf16_len m
      >>= (λ refused. ret (if refused then none else some (restore (cursor i) m)))

tail_from : List ℕ → ℕ → Option (List ℕ)
tail_from bs o = if leb o (length bs) then some (drop o bs) else none

tail_in : Option (List ℕ) → ℕ → Option (List ℕ)
tail_in none o = none
tail_in (some bs) o = tail_from bs o

unfoldable pub byte_tail : Cursor → Option (List ℕ)
unfolding tail_in tail_from
byte_tail c = if has_half c.offset then none else tail_in (original_bytes c.input) c.offset

unfoldable pub is_ascii : List ℕ → Bool
is_ascii [] = true
is_ascii (b ∷ bs) = ltb b 0x80 && is_ascii bs

ascii_prefix : Option (List ℕ) → ℕ → Bool
ascii_prefix none count = false
ascii_prefix (some tail) count = leb count (length tail) && is_ascii (take count tail)

unfoldable pub skip_ascii : Cursor → ℕ → Bool × Cursor
unfolding ascii_prefix is_ascii
skip_ascii c count =
    if ascii_prefix (byte_tail c) count
    then (true, ahead c (c.offset + count) count)
    else (false, c)
