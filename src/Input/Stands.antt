-- ===== src/Input/Stands.antt =====
-- What a cursor of src/input.rs stands for: an index into the subject's UTF-16 units.
-- A byte subject is the encodings of some code points; a cursor over it stands between two of
-- them, or between the two surrogates of one.
use perex.Base.{ℕ, suc, ◌+◌, ◌≤◌, ◌<◌, ◌≡◌, sym, ◌∙◌, ap, arith, Run, ret}
use perex.Base.{List, [], ◌∷◌, ◌++◌, append_assoc, length, length-append, All}
use mathlib.Core.Path.{subst}
use perex.Input.Scalar.Laws.{encode, point_units}
use perex.Input.View.{Storage, ascii, bytes, units, Input, Cursor, half_bit}

abbrev pub IsPoint : ℕ → Type 0
IsPoint p = p ≤ 0x10ffff

abbrev pub IsAscii : ℕ → Type 0
IsAscii b = b < 0x80

abbrev pub encode_all : List ℕ → List ℕ
encode_all [] = []
encode_all (p ∷ ps) = encode p ++ encode_all ps

abbrev pub units_of : List ℕ → List ℕ
units_of [] = []
units_of (p ∷ ps) = point_units p ++ units_of ps

-- The same of the points before a position, the nearest one first.
abbrev pub encode_before : List ℕ → List ℕ
encode_before [] = []
encode_before (p ∷ ps) = encode_before ps ++ encode p

abbrev pub units_before : List ℕ → List ℕ
units_before [] = []
units_before (p ∷ ps) = units_before ps ++ point_units p

pub record Split (ps qs bs us : List ℕ) : Type 0 where
  pub before : All IsPoint ps
  pub after : All IsPoint qs
  pub stored : bs ≡ encode_before ps ++ encode_all qs
  pub logical : us ≡ units_before ps ++ units_of qs

pub Split-forward :
    (p : ℕ) (ps qs bs us : List ℕ) → Split ps (p ∷ qs) bs us → Split (p ∷ ps) qs bs us
Split-forward p ps qs bs us s = record {
  before = (s.after.0, s.before);
  after = s.after.1;
  stored = s.stored ∙ sym (append_assoc (encode_before ps) (encode p) (encode_all qs));
  logical = s.logical ∙ sym (append_assoc (units_before ps) (point_units p) (units_of qs));
}

pub Split-back : (p : ℕ) (ps qs bs us : List ℕ) → Split (p ∷ ps) qs bs us → Split ps (p ∷ qs) bs us
Split-back p ps qs bs us s = record {
  before = s.before.1;
  after = (s.before.0, s.after);
  stored = s.stored ∙ append_assoc (encode_before ps) (encode p) (encode_all qs);
  logical = s.logical ∙ append_assoc (units_before ps) (point_units p) (units_of qs);
}

pub data AtBytes (bs us : List ℕ) (o i : ℕ) : Type 0 where
  whole :
      (ps qs : List ℕ)
      → Split ps qs bs us
      → o ≡ length (encode_before ps)
      → i ≡ length (units_before ps)
      → AtBytes bs us o i
  inside :
      (ps : List ℕ) (p : ℕ) (qs : List ℕ)
      → Split ps (p ∷ qs) bs us
      → 0xffff < p
      → o ≡ half_bit + length (encode_before ps)
      → i ≡ suc (length (units_before ps))
      → AtBytes bs us o i

-- The storage holds the units `us`, and the stored offset `o` is that of unit `i`.
abbrev pub Stands : Storage → List ℕ → ℕ → ℕ → Type 0
Stands (ascii bs) us o i = (bs ≡ us) × All IsAscii us × (o ≡ i) × (i ≤ length us)
Stands (units vs) us o i = (vs ≡ us) × (o ≡ i) × (i ≤ length us)
Stands (bytes bs) us o i = (length bs < half_bit) × AtBytes bs us o i

pub record CursorAt (c : Cursor) (us : List ℕ) (i : ℕ) : Type 0 where
  pub stands : Stands c.input.storage us c.offset i
  pub unit : c.utf16_offset ≡ i
  pub counted : c.input.utf16_len ≡ length us

-- A move of a cursor at unit `i`: it returns, what it reads, and that it then stands at unit `j`
-- of the same input.
pub record Reads {ℓ} (A : Type ℓ) (us : List ℕ) (c : Cursor) (j : ℕ) (read : A)
    (run : Run (A × Cursor)) : Type ℓ where
  pub after : Cursor
  pub returns : run ≡ ret (read, after)
  pub same : after.input ≡ c.input
  pub at : CursorAt after us j

pub CursorAt-le : (us : List ℕ) (c : Cursor) (i : ℕ) → CursorAt c us i → i ≤ length us
CursorAt-le us c i p = go c.input.storage p.stands
  where
    go : (s : Storage) → Stands s us c.offset i → i ≤ length us
    go (ascii bs) h = h.3
    go (units vs) h = h.2
    go (bytes bs) (fits, whole ps qs s eo ei) =
        omega
          (arith, ap (length {A = ℕ}) s.logical, length-append {0} (units_before ps) (units_of qs))
    go (bytes bs) (fits, inside ps q qs s wide eo ei) = ground (
      arith,
      ap (length {A = ℕ}) s.logical,
      length-append (units_before ps) (point_units q ++ units_of qs),
      length-append (point_units q) (units_of qs),
    )

-- A cursor over the same input, from where its offsets stand.
pub CursorAt-moved :
    {c r : Cursor} {us : List ℕ} {i j : ℕ} {s : Storage}
    → CursorAt c us i
    → c.input.storage ≡ s
    → r.input ≡ c.input
    → Stands s us r.offset j
    → r.utf16_offset ≡ j
    → CursorAt r us j
CursorAt-moved {r} {us} {j} p e same h u = record {
  stands =
      subst (λ (s : Storage). Stands s us r.offset j) (sym (ap (λ (i : Input). i.storage) same ∙ e))
        h;
  unit = u;
  counted = ap (λ (i : Input). i.utf16_len) same ∙ p.counted;
}
