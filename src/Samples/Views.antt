-- ===== src/Samples/Views.antt =====
-- Views, cursors and seeks on the sample text.
use perex.Base.{ℕ, [], ◌∷◌, ◌++◌, ◌≡◌, ◌≤◌, ◌<◌, refl, arith, Bool, true, false, Option, some, none}
use perex.Base.{ret, length, All}
use perex.Samples.{
  sample_points, sample_bytes, sample_units, sample_text, sample_input, before_pair, within_pair,
}
use perex.Input.Scalar.{
  ok, is_high, is_low, high_surrogate, low_surrogate, combine_pair, decode_checked,
}
use perex.Input.Scalar.Laws.{encode, decode_checked_sound, combine_pair-surrogates}
use perex.Input.View.{Input, half_bit, mark, utf8, wtf8}
use perex.Input.Walk.{next_unit, previous_unit}
use perex.Input.Walk.Forward.{next_unit-Reads}
use perex.Input.Walk.Backward.{previous_unit-Reads}
use perex.Input.Points.{next_point, previous_point, normalize_unicode_start}
use perex.Input.Points.Forward.{next_point-Reads}
use perex.Input.Points.Backward.{previous_point-Reads}
use perex.Input.Points.Normalize.{normalize_unicode_start-Reads}
use perex.Input.Stands.{IsPoint, Split, whole, inside, CursorAt, Reads, encode_all, units_of}
use perex.Input.Seek.{cursor_at, resume_cursor, seek_byte_offset, skip_ascii}
use perex.Input.Seek.Scan.{Lands, seek_byte_offset-Lands}
use perex.Input.Seek.Start.{Holds, StartsAt, cursor_at-Positions, resume_cursor-mark}
use perex.Input.Seek.Skip.{AsciiRun, skip_ascii-AsciiRun}
use perex.Input.Validation.{Judged, wtf8-Judged, wtf8-Holds, utf8-Holds}

pub small : length sample_bytes < half_bit
small = ground arith

abbrev pub all_points : All IsPoint sample_points
all_points = (omega arith, (omega arith, (omega arith, tt)))

pub sample-Split : Split [] sample_points sample_bytes sample_units
unfolding encode high_surrogate low_surrogate
sample-Split = record { before = tt; after = all_points; stored = refl; logical = refl }

pub before_pair-Split : Split (0xe9 ∷ 0x61 ∷ []) (0x1f600 ∷ []) sample_bytes sample_units
unfolding encode high_surrogate low_surrogate
before_pair-Split = record {
  before = (omega arith, (omega arith, tt));
  after = (omega arith, tt);
  stored = refl;
  logical = refl;
}

pub before_pair-CursorAt : CursorAt before_pair sample_units 2
unfolding encode high_surrogate low_surrogate
before_pair-CursorAt = record {
  stands = (small, whole (0xe9 ∷ 0x61 ∷ []) (0x1f600 ∷ []) before_pair-Split refl refl);
  unit = refl;
  counted = refl;
}

pub within_pair-CursorAt : CursorAt within_pair sample_units 3
unfolding encode high_surrogate low_surrogate
within_pair-CursorAt = record {
  stands = (small, inside (0xe9 ∷ 0x61 ∷ []) 0x1f600 [] before_pair-Split (omega arith) refl refl);
  unit = refl;
  counted = refl;
}

pub sample-Holds : Holds sample_input sample_units
sample-Holds = record { holds = (small, (sample_points, sample-Split)); counted = refl }

next_unit-Reads_example :
    Reads (Option ℕ) sample_units before_pair 3 (some 0xd83d) (next_unit before_pair)
next_unit-Reads_example = next_unit-Reads sample_units before_pair 2 before_pair-CursorAt

previous_unit-Reads_example :
    Reads (Option ℕ) sample_units within_pair 2 (some 0xd83d) (previous_unit within_pair)
previous_unit-Reads_example = previous_unit-Reads sample_units within_pair 3 within_pair-CursorAt

next_point-Reads_example :
    Reads (Option ℕ) sample_units before_pair 4 (some 0x1f600) (next_point before_pair)
unfolding is_high is_low combine_pair
next_point-Reads_example = next_point-Reads sample_units before_pair 2 before_pair-CursorAt

previous_point-Reads_example :
    Reads (Option ℕ) sample_units before_pair 1 (some 0xe9) (previous_point before_pair)
unfolding is_high is_low combine_pair
previous_point-Reads_example = previous_point-Reads sample_units before_pair 2 before_pair-CursorAt

normalize_unicode_start-Reads_example :
    Reads Bool sample_units within_pair 2 true (normalize_unicode_start within_pair)
unfolding is_high is_low
normalize_unicode_start-Reads_example =
    normalize_unicode_start-Reads sample_units within_pair 3 within_pair-CursorAt

cursor_at-Positions_example :
    (3 ≤ 4 → StartsAt sample_input sample_units 3) × (4 < 3 → cursor_at sample_input 3 ≡ ret none)
cursor_at-Positions_example = cursor_at-Positions sample_input sample_units 3 sample-Holds

resume_cursor-mark_example : resume_cursor sample_input (mark within_pair) ≡ ret (some within_pair)
resume_cursor-mark_example =
    resume_cursor-mark sample_units within_pair 3 within_pair-CursorAt (omega arith)

seek_byte_offset-Lands_example :
    Lands sample_bytes sample_units 3 (seek_byte_offset sample_bytes 4 3)
seek_byte_offset-Lands_example =
    seek_byte_offset-Lands sample_points sample_bytes sample_units 3 sample-Split (omega arith)

-- Nothing is skipped before the pair, whose bytes are not ASCII.
skip_ascii-AsciiRun_example :
    ((skip_ascii before_pair 1).0 ≡ true
      → CursorAt (skip_ascii before_pair 1).1 sample_units 3 × AsciiRun sample_units 2 1)
    × ((skip_ascii before_pair 1).0 ≡ false → (skip_ascii before_pair 1).1 ≡ before_pair)
skip_ascii-AsciiRun_example = skip_ascii-AsciiRun sample_units before_pair 2 1 before_pair-CursorAt

-- A byte that continues nothing.
wtf8-Judged_example : Judged (0x61 ∷ 0x80 ∷ []) (wtf8 (0x61 ∷ 0x80 ∷ []))
wtf8-Judged_example = wtf8-Judged (0x61 ∷ 0x80 ∷ []) (ground arith)

pub sample_encoded : sample_bytes ≡ encode_all sample_points
unfolding encode
sample_encoded = refl

utf8-Holds_example :
    Holds (utf8 sample_text) (units_of sample_points)
    × (wtf8 sample_bytes ≡ ret (ok (utf8 sample_text)))
utf8-Holds_example =
    utf8-Holds sample_text (record { points = all_points; encoded = sample_encoded; fits = small })

wtf8-Holds_example :
    (i : Input) × (wtf8 (encode_all sample_points) ≡ ret (ok i)) × Holds i (units_of sample_points)
wtf8-Holds_example = wtf8-Holds sample_points all_points (rw⁻¹ sample_encoded small)

decoded : decode_checked sample_bytes 3 ≡ ret (ok (0x1f600, 4))
unfolding decode_checked
decoded = refl

decode_checked_sound_example :
    (0x1f600 ≤ 0x10ffff)
    × (4 ≡ length (encode 0x1f600))
    × (0xf0 ∷ 0x9f ∷ 0x98 ∷ 0x80 ∷ [] ≡ encode 0x1f600 ++ [])
decode_checked_sound_example =
    decode_checked_sound sample_bytes (0xf0 ∷ 0x9f ∷ 0x98 ∷ 0x80 ∷ []) 3 0x1f600 4 refl decoded

combine_pair-surrogates_example :
    (is_high (high_surrogate 0x1f600) ≡ true)
    × (is_low (low_surrogate 0x1f600) ≡ true)
    × (combine_pair (high_surrogate 0x1f600) (low_surrogate 0x1f600) ≡ 0x1f600)
combine_pair-surrogates_example = combine_pair-surrogates 0x1f600 (omega arith) (omega arith)
