-- ===== src/Input/Walk/Firm.antt =====
-- The moves of a `Cursor` of src/input.rs come to an end.
use perex.Base.{ℕ, zero, suc, ◌≢◌, List, stuck, arith}
use perex.Base.{>>=-ends}
use perex.Input.Scalar.{decode_valid}
use perex.Input.View.{Storage, ascii, bytes, units, Cursor, without_half}
use perex.Input.Walk.{
  next_in, next_decoded, next_unit, previous_unit, scan_back, previous_in, previous_stored,
  previous_decoded, previous_half, previous_whole,
}

pub decode_valid-ends : (bs : List ℕ) (o : ℕ) → decode_valid bs o ≢ stuck
unfolding decode_valid
decode_valid-ends bs o e = ground arith

next_in-ends : (s : Storage) (c : Cursor) → next_in s c ≢ stuck
unfolding next_in next_decoded
next_in-ends (ascii bs) c e = cc
next_in-ends (units us) c e = cc
next_in-ends (bytes bs) c e = ground (arith, decode_valid-ends bs (without_half c.offset))

pub next_unit-ends : (c : Cursor) → next_unit c ≢ stuck
unfolding next_unit
next_unit-ends c = next_in-ends c.input.storage c

scan_back-ends : (bs : List ℕ) (o : ℕ) → scan_back bs o ≢ stuck
unfolding scan_back
scan_back-ends bs zero e = cc
scan_back-ends bs (suc o) e = ground (arith, scan_back-ends bs o)

previous_stored-ends : (xs : List ℕ) (c : Cursor) (o : ℕ) → previous_stored xs c o ≢ stuck
unfolding previous_stored
previous_stored-ends xs c zero e = cc
previous_stored-ends xs c (suc o) e = ground arith

previous_whole-ends : (bs : List ℕ) (c : Cursor) → previous_whole bs c ≢ stuck
unfolding previous_whole
previous_whole-ends bs c =
    >>=-ends (scan_back bs c.offset) _ (scan_back-ends bs c.offset)
      λ o. >>=-ends (decode_valid bs o) _ (decode_valid-ends bs o) λ d e. cc

previous_in-ends : (s : Storage) (c : Cursor) → previous_in s c ≢ stuck
unfolding previous_in previous_decoded previous_half
previous_in-ends (ascii bs) c e = previous_stored-ends bs c c.offset e
previous_in-ends (units us) c e = previous_stored-ends us c c.offset e
previous_in-ends (bytes bs) c e =
    ground (arith, decode_valid-ends bs (without_half c.offset), previous_whole-ends bs c)

pub previous_unit-ends : (c : Cursor) → previous_unit c ≢ stuck
unfolding previous_unit
previous_unit-ends c e = ground (arith, previous_in-ends c.input.storage c)
