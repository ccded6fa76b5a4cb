-- ===== src/Input/Bytes.antt =====
-- What the moves over a byte subject rest on: the stored bytes and the units around a position.
use perex.Base.{ℕ, suc, ◌+◌, ◌≤◌, ◌<◌, ◌≡◌, sym, ap, ◌∙◌, arith, List, ◌∷◌, ◌++◌, Option}
use perex.Base.{
  ltb, if◌then◌else◌, length, length-append, get_elem?, get_elem?-append_right, drop, drop-append,
  Run, ret,
}
use perex.Input.Scalar.{decode_valid}
use perex.Input.Scalar.Laws.{encode, point_units, decode_valid-encode}
use perex.Input.View.{Cursor}
use perex.Input.Stands.{Split, Split-forward, AtBytes, whole}
use perex.Input.Stands.{encode_all, units_of, encode_before, units_before}

-- The position after unit `i`: the end stays where it is.
abbrev pub unit_after : List ℕ → ℕ → ℕ
unit_after us i = if ltb i (length us) then suc i else i

pub length-encode : (p : ℕ) → 0 < length (encode p)
unfolding encode
length-encode p = ground arith

module _ (ps : List ℕ) (q : ℕ) (qs bs us : List ℕ) (s : Split ps (q ∷ qs) bs us) where
  pub decode_next : decode_valid bs (length (encode_before ps)) ≡ ret (q, length (encode q))
  decode_next =
      decode_valid-encode bs (length (encode_before ps)) q (encode_all qs) s.after.0
        (ap (drop (length (encode_before ps))) s.stored ∙ drop-append (encode_before ps) _)

  pub offset_inside : length (encode_before ps) + length (encode q) ≤ length bs
  offset_inside = omega (
    arith,
    ap (length {A = ℕ}) s.stored,
    length-append {0} (encode_before ps) (encode q ++ encode_all qs),
    length-append {0} (encode q) (encode_all qs),
  )

  pub unit_next :
      (k : ℕ)
      → get_elem? us (length (units_before ps) + k) ≡ get_elem? (point_units q ++ units_of qs) k
  unit_next k =
      ap (λ us'. get_elem? us' (length (units_before ps) + k)) s.logical
      ∙ get_elem?-append_right (units_before ps) _ k

pub length-units_of :
    (ps : List ℕ) (q : ℕ) (qs bs us : List ℕ)
    → Split ps (q ∷ qs) bs us
    → length (units_before ps) + length (point_units q) ≤ length us
length-units_of ps q qs bs us s = omega (
  arith,
  ap (length {A = ℕ}) s.logical,
  length-append {0} (units_before ps) (point_units q ++ units_of qs),
  length-append {0} (point_units q) (units_of qs),
)

pub at_after :
    (q : ℕ) (ps qs bs us : List ℕ) (o i : ℕ)
    → Split ps (q ∷ qs) bs us
    → o ≡ length (encode_before ps) + length (encode q)
    → i ≡ length (units_before ps) + length (point_units q)
    → AtBytes bs us o i
at_after q ps qs bs us o i s eo ei =
    whole (q ∷ ps) qs (Split-forward q ps qs bs us s)
      (eo ∙ sym (length-append (encode_before ps) (encode q)))
      (ei ∙ sym (length-append (units_before ps) (point_units q)))

-- A move over a byte subject: what it reads, and where it leaves the cursor.
pub record Moves (bs us : List ℕ) (c : Cursor) (i j : ℕ) (read : Option ℕ)
    (run : Run (Option ℕ × Cursor)) : Type 0 where
  pub after : Cursor
  pub returns : run ≡ ret (read, after)
  pub same : after.input ≡ c.input
  pub at : AtBytes bs us after.offset j
  pub count : after.utf16_offset + i ≡ c.utf16_offset + j

-- The cursor of a stored list whose two offsets are both `j`.
abbrev pub stored_at : Cursor → ℕ → Cursor
stored_at c j = record c { offset = j; utf16_offset = j }
