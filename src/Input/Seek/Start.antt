-- ===== src/Input/Seek/Start.antt =====
-- Where `cursor_at` and `resume_cursor` put a cursor.
use perex.Base.{ℕ, suc, ◌+◌, ◌≤◌, ◌<◌, ◌≡◌, refl, ap, ◌∙◌, arith, false}
use perex.Base.{List, [], ◌∷◌, ◌++◌, append-nil, none, some, ◌==◌}
use perex.Base.{length, length-append, get_elem?-append_right, All, ret, Bool-cases, inl, inr}
use perex.Input.Scalar.{is_continuation}
use perex.Input.Scalar.Laws.{encode, point_units}
use perex.Input.View.{
  Storage, ascii, bytes, units, Input, Cursor, Mark, cursor, mark, restore, half_bit,
}
use perex.Input.Stands.{
  Split, whole, inside, Stands, CursorAt, CursorAt-le, IsAscii, encode_all, encode_before,
  units_before,
}
use perex.Input.Bytes.{decode_next, offset_inside, length-encode, length-units_of}
use perex.Input.Seek.{
  cursor_at, stored_offset, resume_cursor, refuses, refuses_bytes, no_half_at, at_continuation,
  refuses_stored,
}
use perex.Input.Seek.Scan.{Split-end, seek_byte_offset-Lands}

-- The storage holds the units `us`.
abbrev pub HoldsIn : Storage → List ℕ → Type 0
HoldsIn (ascii bs) us = (bs ≡ us) × All IsAscii us
HoldsIn (units vs) us = vs ≡ us
HoldsIn (bytes bs) us = (length bs < half_bit) × ((ps : List ℕ) × Split [] ps bs us)

pub record Holds (i : Input) (us : List ℕ) : Type 0 where
  pub holds : HoldsIn i.storage us
  pub counted : i.utf16_len ≡ length us

pub record StartsAt (i : Input) (us : List ℕ) (n : ℕ) : Type 0 where
  pub start : Cursor
  pub returns : cursor_at i n ≡ ret (some start)
  pub same : start.input ≡ i
  pub at : CursorAt start us n

stored_offset_lem :
    (s : Storage) (us : List ℕ) (n : ℕ)
    → HoldsIn s us
    → n ≤ length us
    → (o : ℕ) × (stored_offset s (length us) n ≡ ret o) × Stands s us o n
unfolding stored_offset
stored_offset_lem (ascii bs) us n (eb, small) h = (n, refl, (eb, small, refl, h))
stored_offset_lem (units vs) us n eb h = (n, refl, (eb, refl, h))
stored_offset_lem (bytes bs) us n (fits, (ps, s)) h = elim (Bool-cases (n == 0)) [
  | inl first ↦ (n, rw first, (fits, whole [] ps s (ground arith) (ground arith)))
  | inr later ↦ elim (Bool-cases (n == length us)) [
    | inl last ↦
        let (rs, e) = Split-end [] ps bs us s in
        (
          length bs,
          rw (later, last),
          (
            fits,
            whole rs [] e (ap (length {A = ℕ}) (e.stored ∙ append-nil _))
                (ground arith ∙ ap (length {A = ℕ}) (e.logical ∙ append-nil _)),
          ),
        )
    | inr between ↦
        let r = seek_byte_offset-Lands ps bs us n s h in
        (r.offset, rw (later, between) r.returns, (fits, r.at))
  ]
]

pub cursor_at-StartsAt :
    (i : Input) (us : List ℕ) (n : ℕ) → Holds i us → n ≤ length us → StartsAt i us n
unfolding cursor_at
cursor_at-StartsAt i us n h le =
    let (o, returns, stands) = stored_offset_lem i.storage us n h.holds le in
    record {
      start = record { input = i; offset = o; utf16_offset = n };
      returns = ground (arith, h.counted, returns);
      same = refl;
      at = record { stands = stands; unit = refl; counted = h.counted };
    }

pub cursor_at_beyond :
    (i : Input) (us : List ℕ) (n : ℕ) → Holds i us → length us < n → cursor_at i n ≡ ret none
unfolding cursor_at
cursor_at_beyond i us n h lt = ground (arith, h.counted)

-- `cursor_at` succeeds exactly at the positions of the subject, the one behind its last unit
-- included, and the cursor stands at the position that was asked for; the scan never panics and
-- never runs out of rounds.
pub cursor_at-Positions :
    (i : Input) (us : List ℕ) (n : ℕ)
    → Holds i us
    → (n ≤ length us → StartsAt i us n) × (length us < n → cursor_at i n ≡ ret none)
cursor_at-Positions i us n h = (cursor_at-StartsAt i us n h, cursor_at_beyond i us n h)

-- The bytes before a position are at least as many as its units.
units_before-le : (ps : List ℕ) → length (units_before ps) ≤ length (encode_before ps)
unfolding encode
units_before-le [] = omega arith
units_before-le (p ∷ ps) = ground (
  arith,
  units_before-le ps,
  length-append (units_before ps) (point_units p),
  length-append (encode_before ps) (encode p),
)

first_byte :
    (ps : List ℕ) (q : ℕ) (qs bs us : List ℕ)
    → Split ps (q ∷ qs) bs us
    → at_continuation bs (length (encode_before ps)) ≡ false
unfolding at_continuation encode is_continuation
first_byte ps q qs bs us s =
    ground
      (arith, s.stored, get_elem?-append_right (encode_before ps) (encode q ++ encode_all qs) 0)

accepts_whole_end :
    (ps bs us : List ℕ) (m : Mark)
    → Split ps [] bs us
    → length bs < half_bit
    → m.offset ≡ length (encode_before ps)
    → m.units ≡ length (units_before ps)
    → refuses_bytes bs (length us) m ≡ ret false
unfolding refuses_bytes
accepts_whole_end ps bs us m s fits eo ei =
    let lb : length bs ≡ length (encode_before ps) =
      ap (length {A = ℕ}) (s.stored ∙ append-nil _) in
    let lu : length us ≡ length (units_before ps) =
      ap (length {A = ℕ}) (s.logical ∙ append-nil _) in
    ground (arith, units_before-le ps)

accepts_whole :
    (ps : List ℕ) (q : ℕ) (qs bs us : List ℕ) (m : Mark)
    → Split ps (q ∷ qs) bs us
    → length bs < half_bit
    → m.offset ≡ length (encode_before ps)
    → m.units ≡ length (units_before ps)
    → refuses_bytes bs (length us) m ≡ ret false
unfolding refuses_bytes
accepts_whole ps q qs bs us m s fits eo ei = ground (
  arith,
  units_before-le ps,
  first_byte ps q qs bs us s,
  offset_inside ps q qs bs us s,
  length-units_of ps q qs bs us s,
  length-encode q,
)

accepts_inside :
    (ps : List ℕ) (q : ℕ) (qs bs us : List ℕ) (m : Mark)
    → Split ps (q ∷ qs) bs us
    → length bs < half_bit
    → 0xffff < q
    → m.offset ≡ half_bit + length (encode_before ps)
    → m.units ≡ suc (length (units_before ps))
    → refuses_bytes bs (length us) m ≡ ret false
unfolding refuses_bytes no_half_at
accepts_inside ps q qs bs us m s fits wide eo ei = ground (
  arith,
  first_byte ps q qs bs us s,
  decode_next ps q qs bs us s,
  offset_inside ps q qs bs us s,
  length-units_of ps q qs bs us s,
  length-encode q,
)

accepts :
    (s : Storage) (us : List ℕ) (i : ℕ) (m : Mark)
    → Stands s us m.offset i
    → m.units ≡ i
    → length us < half_bit
    → refuses s (length us) m ≡ ret false
unfolding refuses refuses_stored
accepts (ascii bs) us i m (eb, small, eo, h) eu fits = rw eb (ground arith)
accepts (units vs) us i m (eb, eo, h) eu fits = rw eb (ground arith)
accepts (bytes bs) us i m (fit, whole ps [] s eo ei) eu fits =
    accepts_whole_end ps bs us m s fit eo (eu ∙ ei)
accepts (bytes bs) us i m (fit, whole ps (q ∷ qs) s eo ei) eu fits =
    accepts_whole ps q qs bs us m s fit eo (eu ∙ ei)
accepts (bytes bs) us i m (fit, inside ps q qs s wide eo ei) eu fits =
    accepts_inside ps q qs bs us m s fit wide eo (eu ∙ ei)

-- A mark taken from a cursor that stands in a subject of less than 2^63 units is accepted by the
-- subject's view, and gives back that cursor, half pairs included.
pub resume_cursor-mark :
    (us : List ℕ) (c : Cursor) (i : ℕ)
    → CursorAt c us i
    → length us < half_bit
    → resume_cursor c.input (mark c) ≡ ret (some c)
unfolding resume_cursor mark restore cursor
resume_cursor-mark us c i p fits = ground (arith, p.counted, p.unit, accepted, CursorAt-le us c i p)
  where
    accepted : refuses c.input.storage c.input.utf16_len (mark c) ≡ ret false
    accepted = rw p.counted (accepts c.input.storage us i (mark c) p.stands p.unit fits)
