-- ===== src/Samples.antt =====
-- Concrete subjects, and runs of the model on them.
pub mod Views
pub mod Readers
pub mod Literals
pub mod Machines
pub mod Cases
pub mod Patterns
use perex.Base.{ℕ, List, [], ◌∷◌}
use perex.Input.View.{Storage, bytes, Input, Cursor, Str}

-- The text of a letter, a letter of two bytes and a character beyond the basic plane.
abbrev pub sample_points : List ℕ
sample_points = 0x61 ∷ 0xe9 ∷ 0x1f600 ∷ []

abbrev pub sample_bytes : List ℕ
sample_bytes = 0x61 ∷ 0xc3 ∷ 0xa9 ∷ 0xf0 ∷ 0x9f ∷ 0x98 ∷ 0x80 ∷ []

abbrev pub sample_units : List ℕ
sample_units = 0x61 ∷ 0xe9 ∷ 0xd83d ∷ 0xde00 ∷ []

abbrev pub sample_text : Str
sample_text = record { chars = sample_points; as_bytes = sample_bytes }

abbrev pub sample_input : Input
sample_input = record { storage = bytes sample_bytes; utf16_len = 4 }

-- Before the last character, and between its surrogates.
abbrev pub before_pair : Cursor
before_pair = record { input = sample_input; offset = 3; utf16_offset = 2 }

abbrev pub within_pair : Cursor
within_pair = record { input = sample_input; offset = 0x8000000000000003; utf16_offset = 3 }
