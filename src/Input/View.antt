-- ===== src/Input/View.antt =====
-- `Storage`, `Input`, `Cursor`, `Mark` and `Position` of src/input.rs, and the constructors of views.
-- A `&[u8]` or `&[u16]` is a list of numbers; a slice borrows, so it is the list itself.
use perex.Base.{ℕ, zero, suc, ◌+◌, ◌%◌, Bool, List, [], ◌∷◌, Option, none, some}
use perex.Base.{ltb, leb, ◌==◌, if◌then◌else◌, not, length}
use perex.Base.{Run, ret, stuck, ◌>>=◌}
use perex.Input.Scalar.{Checked, ok, err, decode_checked}

pub data Storage : Type 0 where
  ascii bytes units : List ℕ → Storage

pub record Input : Type 0 where
  pub storage : Storage
  pub utf16_len : ℕ

-- `text.chars()` and `text.as_bytes()` of a `&str`.
pub record Str : Type 0 where
  pub chars : List ℕ
  pub as_bytes : List ℕ

unfoldable pub utf16 : List ℕ → Input
utf16 us = record { storage = units us; utf16_len = length us }

unfoldable pub len_utf16_of : ℕ → ℕ
len_utf16_of point = if ltb 0xffff point then 2 else 1

unfoldable pub sum_utf16 : List ℕ → ℕ
unfolding len_utf16_of
sum_utf16 [] = 0
sum_utf16 (c ∷ cs) = len_utf16_of c + sum_utf16 cs

unfoldable pub counted : List ℕ → ℕ → Input
counted bs utf16_len = record {
  storage = if utf16_len == length bs then ascii bs else bytes bs;
  utf16_len = utf16_len;
}

unfoldable pub utf8 : Str → Input
unfolding counted sum_utf16
utf8 text = counted text.as_bytes (sum_utf16 text.chars)

-- What one round of the loop does with what it decoded; `next` is the loop's next round.
unfoldable pub wtf8_round : (ℕ → ℕ → Run (Checked ℕ)) → ℕ → ℕ → Checked (ℕ × ℕ) → Run (Checked ℕ)
wtf8_round next offset utf16_len (ok (point, width)) =
    next (offset + width) (utf16_len + len_utf16_of point)
wtf8_round next offset utf16_len (err e) = ret (err e)

unfoldable pub wtf8_loop : ℕ → List ℕ → ℕ → ℕ → Run (Checked ℕ)
unfolding wtf8_round len_utf16_of
wtf8_loop zero bs offset utf16_len = stuck
wtf8_loop (suc fuel) bs offset utf16_len =
    let round = decode_checked bs offset >>= wtf8_round (wtf8_loop fuel bs) offset utf16_len in
    if ltb offset (length bs) then round else ret (ok utf16_len)

unfoldable pub wtf8_view : List ℕ → Checked ℕ → Checked Input
wtf8_view bs (ok utf16_len) = ok (counted bs utf16_len)
wtf8_view bs (err e) = err e

-- Each round takes a byte at least.
unfoldable pub wtf8 : List ℕ → Run (Checked Input)
unfolding wtf8_view counted
wtf8 bs = do counted_units ← wtf8_loop (suc (length bs)) bs 0 0; ret (wtf8_view bs counted_units)

unfoldable pub is_empty : Input → Bool
is_empty input = input.utf16_len == 0

unfoldable pub ascii_of : Storage → Option (List ℕ)
ascii_of (ascii bs) = some bs
ascii_of _ = none

unfoldable pub ascii_bytes : Input → Option (List ℕ)
unfolding ascii_of
ascii_bytes input = ascii_of input.storage

original_of : Storage → Option (List ℕ)
original_of (units us) = none
original_of (ascii bs) = some bs
original_of (bytes bs) = some bs

unfoldable pub original_bytes : Input → Option (List ℕ)
unfolding original_of
original_bytes input = original_of input.storage

-- The kind of a representation, its stored length and its length in units.
pub record Layout : Type 0 where
  pub kind : ℕ
  pub len : ℕ
  pub utf16_len : ℕ

shape_of : Storage → ℕ → Layout
shape_of (ascii bs) n = record { kind = 0; len = length bs; utf16_len = n }
shape_of (bytes bs) n = record { kind = 1; len = length bs; utf16_len = n }
shape_of (units us) n = record { kind = 2; len = length us; utf16_len = n }

unfoldable pub shape : Input → Layout
unfolding shape_of
shape input = shape_of input.storage input.utf16_len

unfoldable pub reborrow_bytes : List ℕ → Layout → Option Input
reborrow_bytes bs layout =
    if not (length bs == layout.len)
    then none
    else if layout.kind == 0
    then some (record { storage = ascii bs; utf16_len = layout.utf16_len })
    else if layout.kind == 1
    then some (record { storage = bytes bs; utf16_len = layout.utf16_len })
    else none

-- `HALF`, the top bit of a 64-bit `usize`. A slice has at most `isize::MAX` bytes, which leaves it free.
abbrev pub half_bit : ℕ
half_bit = 0x8000_0000_0000_0000

-- `offset & !HALF`, and `offset & HALF != 0`.
abbrev pub without_half : ℕ → ℕ
without_half offset = offset % half_bit

abbrev pub has_half : ℕ → Bool
has_half offset = leb half_bit offset

abbrev pub pack_offset : ℕ → Bool → ℕ
pack_offset offset half = offset + (if half then half_bit else 0)

pub record Cursor : Type 0 where
  pub input : Input
  pub offset : ℕ
  pub utf16_offset : ℕ

pub record Mark : Type 0 where
  pub offset : ℕ
  pub units : ℕ

pub record Position : Type 0 where
  pub mark : Mark
  pub layout : Layout

unfoldable pub cursor : Input → Cursor
cursor i = record { input = i; offset = 0; utf16_offset = 0 }

unfoldable pub mark : Cursor → Mark
mark c = record { offset = c.offset; units = c.utf16_offset }

unfoldable pub restore : Cursor → Mark → Cursor
restore c m = record c { offset = m.offset; utf16_offset = m.units }
