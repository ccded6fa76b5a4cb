-- ===== src/Input/Walk.antt =====
-- The moves of a `Cursor` of src/input.rs. A move gives what it read and the cursor after it.
pub mod Forward
pub mod Backward
pub mod Firm
use perex.Base.{
  ℕ, zero, suc, ◌+◌, ◌-◌, ◌*◌, ◌%◌, ◌^◌, Bool, true, false, List, [], ◌∷◌, Option, none, some,
}
use perex.Base.{
  ltb, leb, ◌==◌, if◌then◌else◌, ◌&&◌, length, get_elem?, Run, ret, panic, ◌>>=◌, or_panic,
}
use perex.Input.Scalar.{
  decode_valid, is_continuation, is_high, is_low, high_surrogate, low_surrogate, combine_pair,
}
use perex.Input.View.{
  Storage, ascii, bytes, units, Input, Cursor, half_bit, without_half, has_half, pack_offset,
}

-- What a move of `k` units forward or back leaves, with the stored offset given.
abbrev pub ahead : Cursor → ℕ → ℕ → Cursor
ahead c offset k = record c { offset = offset; utf16_offset = c.utf16_offset + k }

abbrev pub behind : Cursor → ℕ → ℕ → Cursor
behind c offset k = record c { offset = offset; utf16_offset = c.utf16_offset - k }

next_stored : List ℕ → Cursor → Option ℕ × Cursor
next_stored xs c = elim (get_elem? xs c.offset) [
  | none ↦ (none, c)
  | some unit ↦ (some unit, ahead c (c.offset + 1) 1)
]

next_of : Cursor → ℕ → ℕ → ℕ → Option ℕ × Cursor
next_of c offset point width =
    if leb point 0xffff
    then (some point, ahead c (offset + width) 1)
    else if has_half c.offset
    then (some (low_surrogate point), ahead c (offset + width) 1)
    else (some (high_surrogate point), ahead c (pack_offset offset true) 1)

next_decoded : List ℕ → Cursor → Run (Option ℕ × Cursor)
next_decoded bs c =
    let offset : ℕ = without_half c.offset in
    if offset == length bs
    then ret (none, c)
    else do (point, width) ← decode_valid bs offset; ret (next_of c offset point width)

next_in : Storage → Cursor → Run (Option ℕ × Cursor)
next_in (ascii bs) c = ret (next_stored bs c)
next_in (units us) c = ret (next_stored us c)
next_in (bytes bs) c = next_decoded bs c

unfoldable pub next_unit : Cursor → Run (Option ℕ × Cursor)
unfolding next_in next_decoded next_of next_stored
next_unit c = next_in c.input.storage c

-- `self.offset -= 1` and then the index; at offset zero the subtraction or the index panics.
previous_stored : List ℕ → Cursor → ℕ → Run (Option ℕ × Cursor)
previous_stored xs c zero = panic
previous_stored xs c (suc o) = do unit ← or_panic (get_elem? xs o); ret (some unit, behind c o 1)

-- `offset -= 1; while is_continuation(bytes[offset]) { offset -= 1 }`
unfoldable pub scan_back : List ℕ → ℕ → Run ℕ
scan_back bs zero = panic
scan_back bs (suc o) = do
  byte ← or_panic (get_elem? bs o)
  let rest = scan_back bs o
  if is_continuation byte then rest else ret o

previous_of : Cursor → ℕ → ℕ → Option ℕ × Cursor
previous_of c offset point =
    if ltb 0xffff point
    then (some (low_surrogate point), behind c (pack_offset offset true) 1)
    else (some point, behind c offset 1)

previous_half : List ℕ → Cursor → Run (Option ℕ × Cursor)
previous_half bs c = do
  (point, width) ← decode_valid bs (without_half c.offset)
  ret (some (high_surrogate point), behind c (without_half c.offset) 1)

previous_whole : List ℕ → Cursor → Run (Option ℕ × Cursor)
previous_whole bs c = do
  offset ← scan_back bs c.offset
  (point, width) ← decode_valid bs offset
  ret (previous_of c offset point)

previous_decoded : List ℕ → Cursor → Run (Option ℕ × Cursor)
previous_decoded bs c = if has_half c.offset then previous_half bs c else previous_whole bs c

previous_in : Storage → Cursor → Run (Option ℕ × Cursor)
previous_in (ascii bs) c = previous_stored bs c c.offset
previous_in (units us) c = previous_stored us c c.offset
previous_in (bytes bs) c = previous_decoded bs c

unfoldable pub previous_unit : Cursor → Run (Option ℕ × Cursor)
unfolding previous_in previous_decoded previous_half previous_whole previous_of previous_stored
previous_unit c = if c.utf16_offset == 0 then ret (none, c) else previous_in c.input.storage c
