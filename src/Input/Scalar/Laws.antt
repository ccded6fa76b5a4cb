-- ===== src/Input/Scalar/Laws.antt =====
-- One scalar's encoding, and what the two decoders make of it.
use perex.Base.{ℕ, ◌+◌, ◌/◌, ◌%◌, ◌≤◌, ◌<◌, ◌≡◌}
use perex.Base.{true, false, List, [], ◌∷◌, ◌++◌, ltb}
use perex.Base.{if◌then◌else◌, length, drop, get_elem?-drop, length-drop, drop-drop, ap, ret, arith}
use perex.Input.Scalar.{ok, decode_checked, decode_valid}
use perex.Input.Scalar.{is_high, is_low, high_surrogate, low_surrogate, combine_pair}

-- Generalised UTF-8: every code point up to 0x10ffff, surrogates included, in its shortest form.
unfoldable pub encode : ℕ → List ℕ
encode p =
    if ltb p 0x80
    then p ∷ []
    else if ltb p 0x800
    then (0xc0 + p / 64) ∷ (0x80 + p % 64) ∷ []
    else if ltb p 0x10000
    then (0xe0 + p / 4096) ∷ (0x80 + p / 64 % 64) ∷ (0x80 + p % 64) ∷ []
    else (0xf0 + p / 262144) ∷ (0x80 + p / 4096 % 64) ∷ (0x80 + p / 64 % 64) ∷ (0x80 + p % 64) ∷ []

pub decode_checked-encode :
    (bytes : List ℕ) (o p : ℕ) (rest : List ℕ)
    → p ≤ 0x10ffff
    → drop o bytes ≡ encode p ++ rest
    → decode_checked bytes o ≡ ret (ok (p, length (encode p)))
unfolding decode_checked encode
decode_checked-encode bytes o p rest h e = ground (arith, get_elem?-drop bytes o)

pub decode_valid-encode :
    (bytes : List ℕ) (o p : ℕ) (rest : List ℕ)
    → p ≤ 0x10ffff
    → drop o bytes ≡ encode p ++ rest
    → decode_valid bytes o ≡ ret (p, length (encode p))
unfolding decode_valid encode
decode_valid-encode bytes o p rest h e =
    ground (
      arith,
      get_elem?-drop bytes o,
      length-drop o bytes,
      drop-drop o 1 bytes,
      ap (length {A = ℕ}) e,
    )

-- What the checked decoder accepts at an offset is the shortest encoding of the code point that it
-- returns, of the width that it returns.
pub decode_checked_sound :
    (bytes tail : List ℕ) (o p w : ℕ)
    → drop o bytes ≡ tail
    → decode_checked bytes o ≡ ret (ok (p, w))
    → (p ≤ 0x10ffff) × (w ≡ length (encode p)) × (tail ≡ encode p ++ drop w tail)
unfolding decode_checked encode
decode_checked_sound bytes [] o p w e h = ground (arith, get_elem?-drop bytes o)
decode_checked_sound bytes (a ∷ []) o p w e h = ground (arith, get_elem?-drop bytes o)
decode_checked_sound bytes (a ∷ b ∷ []) o p w e h = ground (arith, get_elem?-drop bytes o)
decode_checked_sound bytes (a ∷ b ∷ c ∷ []) o p w e h = ground (arith, get_elem?-drop bytes o)
decode_checked_sound bytes (a ∷ b ∷ c ∷ d ∷ t) o p w e h = ground (arith, get_elem?-drop bytes o)

-- Splitting a code point above 0xffff and combining the halves gives it back, and the halves are a
-- high and a low surrogate.
pub combine_pair-surrogates :
    (p : ℕ)
    → 0xffff < p
    → p ≤ 0x10ffff
    → (is_high (high_surrogate p) ≡ true)
      × (is_low (low_surrogate p) ≡ true)
      × (combine_pair (high_surrogate p) (low_surrogate p) ≡ p)
unfolding is_high is_low high_surrogate low_surrogate combine_pair
combine_pair-surrogates p lo hi = ground arith

abbrev pub point_units : ℕ → List ℕ
point_units p = if ltb 0xffff p then high_surrogate p ∷ low_surrogate p ∷ [] else p ∷ []

-- The second unit of a pair begins no pair.
pub low_surrogate-not_high : (p : ℕ) → is_high (low_surrogate p) ≡ false
unfolding is_high low_surrogate
low_surrogate-not_high p = ground arith

pub high_surrogate-not_low : (p : ℕ) → 0xffff < p → p ≤ 0x10ffff → is_low (high_surrogate p) ≡ false
unfolding is_low high_surrogate
high_surrogate-not_low p lo hi = ground arith
