-- ===== src/Input/Points/Firm.antt =====
-- `next_point` of src/input.rs comes to an end.
use perex.Base.{ℕ, ◌+◌, ◌≢◌, List, ◌==◌, length, stuck, arith}
use perex.Base.{>>=-ends, Bool-cases, inl, inr}
use perex.Input.Scalar.{decode_valid}
use perex.Input.View.{Storage, ascii, bytes, units, Cursor, without_half}
use perex.Input.Walk.{ahead}
use perex.Input.Walk.Firm.{decode_valid-ends, next_unit-ends}
use perex.Input.Points.{pair_after, next_bytes_decoded, next_bytes_point, next_point_in, next_point}

pair_after-ends : (c : Cursor) (first : ℕ) → pair_after c first ≢ stuck
unfolding pair_after
pair_after-ends c first e = ground (arith, next_unit-ends c)

next_bytes_decoded-ends :
    (c : Cursor) (o point width : ℕ) → next_bytes_decoded c o point width ≢ stuck
unfolding next_bytes_decoded
next_bytes_decoded-ends c o point width e =
    ground (arith, pair_after-ends (ahead c (o + width) 1) point)

next_bytes_point-ends : (bs : List ℕ) (c : Cursor) → next_bytes_point bs c ≢ stuck
unfolding next_bytes_point
next_bytes_point-ends bs c = elim (Bool-cases (without_half c.offset == length bs)) [
  | inl t ↦ rw t (λ e. cc)
  | inr t ↦ rw t (
      >>=-ends (decode_valid bs (without_half c.offset)) _
        (decode_valid-ends bs (without_half c.offset))
        λ (point, width). next_bytes_decoded-ends c (without_half c.offset) point width)
]

next_point_in-ends : (s : Storage) (c : Cursor) → next_point_in s c ≢ stuck
unfolding next_point_in
next_point_in-ends (ascii bs) c e = cc
next_point_in-ends (units us) c e = cc
next_point_in-ends (bytes bs) c e = next_bytes_point-ends bs c e

pub next_point-ends : (c : Cursor) → next_point c ≢ stuck
unfolding next_point
next_point-ends c = next_point_in-ends c.input.storage c
