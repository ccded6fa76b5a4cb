-- ===== src/Input/Points.antt =====
-- `next_point`, `previous_point` and `normalize_unicode_start` of src/input.rs.
pub mod Forward
pub mod Backward
pub mod Normalize
pub mod Firm
use perex.Base.{ℕ, zero, suc, ◌+◌, ◌-◌, Bool, true, false, List, Option, none, some}
use perex.Base.{ltb, ◌==◌, if◌then◌else◌, ◌&&◌, length, get_elem?, Run, ret, panic, ◌>>=◌, or_panic}
use perex.Input.Scalar.{decode_valid, is_high, is_low, high_surrogate, low_surrogate, combine_pair}
use perex.Input.View.{Storage, ascii, bytes, units, Cursor, without_half, has_half}
use perex.Input.Walk.{next_unit, previous_unit, scan_back, ahead, behind}

next_ascii_point : List ℕ → Cursor → Option ℕ × Cursor
next_ascii_point bs c = elim (get_elem? bs c.offset) [
  | none ↦ (none, c)
  | some point ↦ (some point, ahead c (c.offset + 1) 1)
]

-- The unit after a high surrogate, in stored units.
next_paired : Cursor → ℕ → Option ℕ → Option ℕ × Cursor
next_paired c first none = (some first, ahead c (c.offset + 1) 1)
next_paired c first (some second) =
    if is_high first && is_low second
    then (some (combine_pair first second), ahead c (c.offset + 2) 2)
    else (some first, ahead c (c.offset + 1) 1)

next_units_point : List ℕ → Cursor → Option ℕ × Cursor
next_units_point us c = elim (get_elem? us c.offset) [
  | none ↦ (none, c)
  | some first ↦ next_paired c first (get_elem? us (c.offset + 1))
]

-- `second` was read from `c`, and left the cursor at `after`.
pair_with : Cursor → ℕ → Cursor → Option ℕ → Option ℕ × Cursor
pair_with c first after none = (some first, c)
pair_with c first after (some second) =
    if is_low second then (some (combine_pair first second), after) else (some first, c)

unfoldable pub pair_after : Cursor → ℕ → Run (Option ℕ × Cursor)
unfolding pair_with
pair_after c first =
    if is_high first
    then next_unit c >>= (λ (second, after). ret (pair_with c first after second))
    else ret (some first, c)

next_bytes_decoded : Cursor → ℕ → ℕ → ℕ → Run (Option ℕ × Cursor)
next_bytes_decoded c offset point width =
    if has_half c.offset
    then ret (some (low_surrogate point), ahead c (offset + width) 1)
    else if ltb 0xffff point
    then ret (some point, ahead c (offset + width) 2)
    else pair_after (ahead c (offset + width) 1) point

next_bytes_point : List ℕ → Cursor → Run (Option ℕ × Cursor)
next_bytes_point bs c =
    if without_half c.offset == length bs
    then ret (none, c)
    else decode_valid bs (without_half c.offset) >>= λ (point, width).
        next_bytes_decoded c (without_half c.offset) point width

next_point_in : Storage → Cursor → Run (Option ℕ × Cursor)
next_point_in (ascii bs) c = ret (next_ascii_point bs c)
next_point_in (units us) c = ret (next_units_point us c)
next_point_in (bytes bs) c = next_bytes_point bs c

unfoldable pub next_point : Cursor → Run (Option ℕ × Cursor)
unfolding next_point_in next_bytes_point next_bytes_decoded next_units_point next_paired
    next_ascii_point
next_point c = next_point_in c.input.storage c

previous_ascii_point : List ℕ → Cursor → ℕ → Run (Option ℕ × Cursor)
previous_ascii_point bs c zero = panic
previous_ascii_point bs c (suc o) =
    or_panic (get_elem? bs o) >>= λ point. ret (some point, behind c o 1)

-- `o` is the offset of `last`; the unit before it is read only where there is one.
previous_paired : List ℕ → Cursor → ℕ → ℕ → Run (Option ℕ × Cursor)
previous_paired us c last zero = ret (some last, behind c 0 1)
previous_paired us c last (suc o) =
    if is_low last
    then or_panic (get_elem? us o) >>= (λ first. ret (
        if is_high first
        then (some (combine_pair first last), behind c o 2)
        else (some last, behind c (suc o) 1)))
    else ret (some last, behind c (suc o) 1)

previous_units_point : List ℕ → Cursor → ℕ → Run (Option ℕ × Cursor)
previous_units_point us c zero = panic
previous_units_point us c (suc o) =
    or_panic (get_elem? us o) >>= λ last. previous_paired us c last o

pair_before_with : Cursor → ℕ → Cursor → Option ℕ → Option ℕ × Cursor
pair_before_with c last before none = (some last, c)
pair_before_with c last before (some first) =
    if is_high first then (some (combine_pair first last), before) else (some last, c)

unfoldable pub pair_before : Cursor → ℕ → Run (Option ℕ × Cursor)
unfolding pair_before_with
pair_before c last =
    if is_low last
    then previous_unit c >>= (λ (first, before). ret (pair_before_with c last before first))
    else ret (some last, c)

previous_bytes_decoded : Cursor → ℕ → ℕ → Run (Option ℕ × Cursor)
previous_bytes_decoded c offset point =
    if ltb 0xffff point
    then ret (some point, behind c offset 2)
    else pair_before (behind c offset 1) point

previous_bytes_half : List ℕ → Cursor → Run (Option ℕ × Cursor)
previous_bytes_half bs c = decode_valid bs (without_half c.offset) >>= λ (point, width).
    ret (some (high_surrogate point), behind c (without_half c.offset) 1)

previous_bytes_whole : List ℕ → Cursor → Run (Option ℕ × Cursor)
previous_bytes_whole bs c = scan_back bs c.offset >>= λ offset.
    decode_valid bs offset >>= λ (point, width). previous_bytes_decoded c offset point

previous_point_in : Storage → Cursor → Run (Option ℕ × Cursor)
previous_point_in (ascii bs) c = previous_ascii_point bs c c.offset
previous_point_in (units us) c = previous_units_point us c c.offset
previous_point_in (bytes bs) c =
    if has_half c.offset then previous_bytes_half bs c else previous_bytes_whole bs c

unfoldable pub previous_point : Cursor → Run (Option ℕ × Cursor)
unfolding previous_point_in previous_bytes_whole previous_bytes_half previous_bytes_decoded
    previous_units_point previous_paired previous_ascii_point
previous_point c =
    if c.utf16_offset == 0 then ret (none, c) else previous_point_in c.input.storage c

is_some_high : Option ℕ → Bool
is_some_high none = false
is_some_high (some unit) = is_high unit

is_some_low : Option ℕ → Bool
is_some_low none = false
is_some_low (some unit) = is_low unit

-- Whether the position changed, and the cursor afterwards. The second read is made only behind
-- a high surrogate.
unfoldable pub normalize_unicode_start : Cursor → Run (Bool × Cursor)
unfolding is_some_high is_some_low
normalize_unicode_start c = previous_unit c >>= λ (high, before).
    if is_some_high high
    then next_unit c
      >>= (λ (low, after). ret (if is_some_low low then (true, before) else (false, c)))
    else ret (false, c)
