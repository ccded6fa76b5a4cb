-- ===== src/Input/Walk/Forward.antt =====
-- `next_unit` reads the units in order.
use perex.Base.{ℕ, suc, ◌+◌, ◌≤◌, ◌<◌, ◌≡◌, refl, ap, ◌∙◌, arith, true}
use perex.Base.{List, [], ◌∷◌, append-nil, Option, none, ltb}
use perex.Base.{length, get_elem?, get_elem?-none, get_elem?-lt, get_elem?-ne_none}
use perex.Base.{ret, Bool-cases, Option-cases, inl, inr}
use perex.Input.Scalar.Laws.{encode}
use perex.Input.View.{Storage, ascii, bytes, units, Cursor, half_bit, without_half, pack_offset}
use perex.Input.Walk.{next_unit, next_in, next_decoded, next_of, next_stored, ahead}
use perex.Input.Stands.{Split, AtBytes, whole, inside, Stands, CursorAt, CursorAt-moved, Reads}
use perex.Input.Stands.{encode_before, units_before}
use perex.Input.Bytes.{
  unit_after, length-encode, decode_next, offset_inside, unit_next, length-units_of, at_after,
  Moves, stored_at,
}

next_end :
    (c : Cursor) (ps bs us : List ℕ) (i : ℕ)
    → length bs < half_bit
    → Split ps [] bs us
    → c.offset ≡ length (encode_before ps)
    → i ≡ length (units_before ps)
    → (next_decoded bs c ≡ ret (none, c)) × (get_elem? us i ≡ none) × (i ≡ length us)
unfolding next_decoded
next_end c ps bs us i fits s eo ei =
    let lb : length bs ≡ length (encode_before ps) =
      ap (length {A = ℕ}) (s.stored ∙ append-nil _) in
    let lu : length us ≡ length (units_before ps) =
      ap (length {A = ℕ}) (s.logical ∙ append-nil _) in
    (ground arith, get_elem?-none us i (omega arith), omega arith)

-- What `next_unit` does before a code point of one unit, and before one of two.
next_thin :
    (c : Cursor) (ps : List ℕ) (q : ℕ) (qs bs us : List ℕ) (i : ℕ)
    → length bs < half_bit
    → Split ps (q ∷ qs) bs us
    → c.offset ≡ length (encode_before ps)
    → i ≡ length (units_before ps)
    → q ≤ 0xffff
    → next_decoded bs c ≡ ret (get_elem? us i, ahead c (c.offset + length (encode q)) 1)
unfolding next_decoded next_of
next_thin c ps q qs bs us i fits s eo ei thin = ground (
  arith,
  decode_next ps q qs bs us s,
  offset_inside ps q qs bs us s,
  unit_next ps q qs bs us s 0,
  length-encode q,
)

next_wide :
    (c : Cursor) (ps : List ℕ) (q : ℕ) (qs bs us : List ℕ) (i : ℕ)
    → length bs < half_bit
    → Split ps (q ∷ qs) bs us
    → c.offset ≡ length (encode_before ps)
    → i ≡ length (units_before ps)
    → 0xffff < q
    → next_decoded bs c ≡ ret (get_elem? us i, ahead c (pack_offset c.offset true) 1)
unfolding next_decoded next_of
next_wide c ps q qs bs us i fits s eo ei wide = ground (
  arith,
  decode_next ps q qs bs us s,
  offset_inside ps q qs bs us s,
  unit_next ps q qs bs us s 0,
  length-encode q,
)

-- And between the two units of one.
next_inside :
    (c : Cursor) (ps : List ℕ) (q : ℕ) (qs bs us : List ℕ) (i : ℕ)
    → length bs < half_bit
    → Split ps (q ∷ qs) bs us
    → c.offset ≡ half_bit + length (encode_before ps)
    → i ≡ suc (length (units_before ps))
    → 0xffff < q
    → next_decoded bs c
      ≡ ret (get_elem? us i, ahead c (without_half c.offset + length (encode q)) 1)
unfolding next_decoded next_of
next_inside c ps q qs bs us i fits s eo ei wide = ground (
  arith,
  decode_next ps q qs bs us s,
  offset_inside ps q qs bs us s,
  unit_next ps q qs bs us s 1,
  length-encode q,
)

next-Moves :
    (c : Cursor) (bs us : List ℕ) (i : ℕ)
    → length bs < half_bit
    → AtBytes bs us c.offset i
    → Moves bs us c i (unit_after us i) (get_elem? us i) (next_decoded bs c)
next-Moves c bs us i fits (whole ps [] s eo ei) =
    let (run, read, end) = next_end c ps bs us i fits s eo ei in
    record {
      after = c;
      returns = rw read run;
      same = refl;
      at = let e : unit_after us i ≡ i = ground arith in rw e (whole ps [] s eo ei);
      count = ground arith;
    }
next-Moves c bs us i fits (whole ps (q ∷ qs) s eo ei) = elim (Bool-cases (ltb 0xffff q)) [
  | inl wide ↦ record {
    after = ahead c (pack_offset c.offset true) 1;
    returns = next_wide c ps q qs bs us i fits s eo ei (ground arith);
    same = refl;
    at =
        let e : unit_after us i ≡ suc i = ground (arith, length-units_of ps q qs bs us s) in
        rw e (inside ps q qs s (ground arith) (ground arith) (ground arith));
    count = ground (arith, length-units_of ps q qs bs us s);
  }
  | inr thin ↦ record {
    after = ahead c (c.offset + length (encode q)) 1;
    returns = next_thin c ps q qs bs us i fits s eo ei (ground arith);
    same = refl;
    at =
        let e : unit_after us i ≡ suc i = ground (arith, length-units_of ps q qs bs us s) in
        rw e (at_after q ps qs bs us _ _ s (ground arith) (ground arith));
    count = ground (arith, length-units_of ps q qs bs us s);
  }
]
next-Moves c bs us i fits (inside ps q qs s wide eo ei) = record {
  after = ahead c (without_half c.offset + length (encode q)) 1;
  returns = next_inside c ps q qs bs us i fits s eo ei wide;
  same = refl;
  at =
      let e : unit_after us i ≡ suc i = ground (arith, length-units_of ps q qs bs us s) in
      rw e (
        at_after q ps qs bs us _ _ s (ground (arith, offset_inside ps q qs bs us s))
          (ground arith));
  count = ground (arith, length-units_of ps q qs bs us s);
}

next_stored_lem :
    (xs : List ℕ) (c : Cursor) (i : ℕ)
    → c.offset ≡ i
    → c.utf16_offset ≡ i
    → i ≤ length xs
    → next_stored xs c ≡ (get_elem? xs i, stored_at c (unit_after xs i))
unfolding next_stored
next_stored_lem xs c i eo eu h = elim (Option-cases (get_elem? xs i)) [
  | inl over ↦ ground (arith, get_elem?-ne_none xs i)
  | inr (u, here) ↦ ground (arith, get_elem?-lt xs i here)
]

-- `next_unit` reads the unit at the cursor's position and stops behind it; at the end of the
-- subject it reads `None` and stays. It never panics.
pub next_unit-Reads :
    (us : List ℕ) (c : Cursor) (i : ℕ)
    → CursorAt c us i
    → Reads (Option ℕ) us c (unit_after us i) (get_elem? us i) (next_unit c)
unfolding next_unit
next_unit-Reads us c i p = go c.input.storage refl p.stands
  where
    go :
        (s : Storage)
        → c.input.storage ≡ s
        → Stands s us c.offset i
        → Reads (Option ℕ) us c (unit_after us i) (get_elem? us i) (next_in s c)
    go (ascii bs) e (eb, small, eo, bound) = record {
      after = stored_at c (unit_after us i);
      returns = rw (eb, next_stored_lem us c i eo p.unit bound);
      same = refl;
      at = CursorAt-moved p e refl (eb, small, refl, ground arith) refl;
    }
    go (units vs) e (eb, eo, bound) = record {
      after = stored_at c (unit_after us i);
      returns = rw (eb, next_stored_lem us c i eo p.unit bound);
      same = refl;
      at = CursorAt-moved p e refl (eb, refl, ground arith) refl;
    }
    go (bytes bs) e (fits, at) =
        let m = next-Moves c bs us i fits at in
        record {
          after = m.after;
          returns = m.returns;
          same = m.same;
          at = CursorAt-moved p e m.same (fits, m.at) (omega (arith, m.count));
        }
