-- ===== src/Input/Scalar.antt =====
-- The scalar helpers of src/input.rs: surrogates, and one encoded scalar at a byte offset.
-- On a byte `b & 0xc0 == 0x80` is `b / 64 == 2`, `b & 0x3f` is `b % 64` and so for the lead's
-- masks; a `|` whose two sides share no bit is `+`.
use perex.Base.{
  ℕ, suc, ◌+◌, ◌-◌, ◌*◌, ◌/◌, ◌%◌, Bool, true, false, List, [], ◌∷◌, Option, none, some,
}
use perex.Base.{
  ltb, leb, ◌==◌, if◌then◌else◌, ◌&&◌, length, get_elem?, take, drop, Run, ret, panic, ◌>>=◌,
  or_panic,
}
pub mod Laws

pub record EncodingError : Type 0 where
  pub byte_offset : ℕ

pub data Checked {ℓ} (A : Type ℓ) : Type ℓ where
  ok : A → Checked A
  err : EncodingError → Checked A

unfoldable pub is_high : ℕ → Bool
is_high unit = leb 0xd800 unit && leb unit 0xdbff

unfoldable pub is_low : ℕ → Bool
is_low unit = leb 0xdc00 unit && leb unit 0xdfff

-- Called with `point` above 0xffff only.
unfoldable pub high_surrogate : ℕ → ℕ
high_surrogate point = 0xd800 + (point - 0x10000) / 1024 % 65536

unfoldable pub low_surrogate : ℕ → ℕ
low_surrogate point = 0xdc00 + (point - 0x10000) % 1024

-- Called with a high and a low surrogate only.
unfoldable pub combine_pair : ℕ → ℕ → ℕ
combine_pair high low = 0x10000 + (high - 0xd800) * 1024 + (low - 0xdc00)

unfoldable pub is_continuation : ℕ → Bool
is_continuation byte = byte / 64 == 2

-- Width, least point and modulus of the lead's own bits.
lead_class : ℕ → Option (ℕ × ℕ × ℕ)
lead_class lead =
    if leb 0xc2 lead && leb lead 0xdf
    then some (2, 0x80, 32)
    else if leb 0xe0 lead && leb lead 0xef
    then some (3, 0x800, 16)
    else if leb 0xf0 lead && leb lead 0xf4
    then some (4, 0x10000, 8)
    else none

-- The loop over the rest of a sequence; `none` is the early return.
join_checked : ℕ → List ℕ → Option ℕ
join_checked point [] = some point
join_checked point (byte ∷ bytes) =
    let rest = join_checked (point * 64 + byte % 64) bytes in
    if is_continuation byte then rest else none

in_range : EncodingError → ℕ → ℕ → Option ℕ → Checked (ℕ × ℕ)
in_range error width minimum none = err error
in_range error width minimum (some point) =
    if ltb point minimum
    then err error
    else if ltb 0x10ffff point
    then err error
    else ok (point, width)

-- `tail` is `bytes[offset..]`, and its first byte is the lead.
check_sequence : EncodingError → ℕ → List ℕ → Option (ℕ × ℕ × ℕ) → Checked (ℕ × ℕ)
check_sequence error lead tail none = err error
check_sequence error lead tail (some (width, minimum, modulus)) =
    if leb width (length tail)
    then in_range error width minimum (join_checked (lead % modulus) (drop 1 (take width tail)))
    else err error

-- A lead beyond the slice's end panics.
unfoldable pub decode_checked : List ℕ → ℕ → Run (Checked (ℕ × ℕ))
unfolding lead_class join_checked in_range check_sequence is_continuation
decode_checked bytes offset = do
  lead ← or_panic (get_elem? bytes offset)
  ret (
      if ltb lead 0x80
      then ok (lead, 1)
      else check_sequence (record { byte_offset = offset }) lead (drop offset bytes)
          (lead_class lead))

join_valid : ℕ → List ℕ → ℕ
join_valid point [] = point
join_valid point (byte ∷ bytes) = join_valid (point * 64 + byte % 64) bytes

-- `&bytes[from..to]`; `none` is the panic.
slice : List ℕ → ℕ → ℕ → Option (List ℕ)
slice bytes from to =
    if leb from to && leb to (length bytes) then some (take (to - from) (drop from bytes)) else none

join_slice : ℕ → ℕ → List ℕ → ℕ → Run (ℕ × ℕ)
join_slice lead offset bytes width = do
  rest ← or_panic (slice bytes (offset + 1) (offset + width))
  ret (
    join_valid (lead % (if ltb lead 0xe0 then 32 else if ltb lead 0xf0 then 16 else 8)) rest,
    width,
  )

unfoldable pub decode_valid : List ℕ → ℕ → Run (ℕ × ℕ)
unfolding join_valid slice join_slice
decode_valid bytes offset = do
  lead ← or_panic (get_elem? bytes offset)
  if ltb lead 0x80
      then ret (lead, 1)
      else join_slice lead offset bytes
          (if ltb lead 0xe0 then 2 else if ltb lead 0xf0 then 3 else 4)
