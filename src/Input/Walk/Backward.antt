-- ===== src/Input/Walk/Backward.antt =====
-- `previous_unit` reads the units in reverse order.
use perex.Base.{ℕ, zero, suc, ◌+◌, ◌-◌, ◌≤◌, ◌<◌, ◌≡◌, refl, ap, ◌∙◌, arith, true}
use perex.Base.{List, [], ◌∷◌, ◌++◌, Option, none, ltb, if◌then◌else◌}
use perex.Base.{length, length-append, get_elem?, get_elem?-append_right, get_elem?-some}
use perex.Base.{ret, or_panic, ◌>>=◌, Bool-cases, inl, inr}
use perex.Input.Scalar.{is_continuation}
use perex.Input.Scalar.Laws.{encode, point_units}
use perex.Input.View.{Storage, ascii, bytes, units, Cursor, half_bit, without_half, pack_offset}
use perex.Input.Walk.{
  previous_unit, previous_in, previous_decoded, previous_half, previous_whole, previous_of,
  previous_stored, behind, scan_back,
}
use perex.Input.Stands.{
  Split, Split-back, AtBytes, whole, inside, Stands, CursorAt, CursorAt-moved, Reads,
}
use perex.Input.Stands.{IsPoint, encode_all, encode_before, units_before}
use perex.Input.Bytes.{decode_next, offset_inside, unit_next, Moves, stored_at}

scan_back-suc :
    (bs : List ℕ) (o : ℕ)
    → scan_back bs (suc o)
      ≡ (or_panic (get_elem? bs o) >>= λ b. if is_continuation b then scan_back bs o else ret o)
unfolding scan_back
scan_back-suc bs o = refl

-- The scan finds where the code point before it starts.
pub scan_back-encode :
    (bs pre : List ℕ) (q : ℕ) (rest : List ℕ)
    → IsPoint q
    → bs ≡ pre ++ (encode q ++ rest)
    → scan_back bs (length pre + length (encode q)) ≡ ret (length pre)
unfolding encode is_continuation
scan_back-encode bs pre q rest h e = ground (
  arith,
  at 0,
  at 1,
  at 2,
  at 3,
  scan_back-suc bs (length pre + 0),
  scan_back-suc bs (length pre + 1),
  scan_back-suc bs (length pre + 2),
  scan_back-suc bs (length pre + 3),
)
  where
    at : (k : ℕ) → get_elem? bs (length pre + k) ≡ get_elem? (encode q ++ rest) k
    at k = ap (λ bs'. get_elem? bs' (length pre + k)) e ∙ get_elem?-append_right pre _ k

-- The unit before position `i`, if there is one.
abbrev pub unit_before : List ℕ → ℕ → Option ℕ
unit_before us zero = none
unit_before us (suc i) = get_elem? us i

module _ (c : Cursor) (ps : List ℕ) (q : ℕ) (qs bs us : List ℕ) (i : ℕ)
    (s : Split ps (q ∷ qs) bs us) (fits : length bs < half_bit) where
  previous_inside :
      0xffff < q
      → c.offset ≡ half_bit + length (encode_before ps)
      → i ≡ length (units_before ps)
      → previous_decoded bs c ≡ ret (get_elem? us i, behind c (without_half c.offset) 1)
  unfolding previous_decoded previous_half
  previous_inside wide eo ei = ground (
    arith,
    decode_next ps q qs bs us s,
    offset_inside ps q qs bs us s,
    unit_next ps q qs bs us s 0,
  )

  previous_wide :
      0xffff < q
      → c.offset ≡ length (encode_before ps) + length (encode q)
      → i ≡ suc (length (units_before ps))
      → previous_decoded bs c
        ≡ ret (get_elem? us i, behind c (pack_offset (length (encode_before ps)) true) 1)
  unfolding previous_decoded previous_whole previous_of
  previous_wide wide eo ei = ground (
    arith,
    scan_back-encode bs (encode_before ps) q (encode_all qs) s.after.0 s.stored,
    decode_next ps q qs bs us s,
    offset_inside ps q qs bs us s,
    unit_next ps q qs bs us s 1,
  )

  previous_thin :
      q ≤ 0xffff
      → c.offset ≡ length (encode_before ps) + length (encode q)
      → i ≡ length (units_before ps)
      → previous_decoded bs c ≡ ret (get_elem? us i, behind c (length (encode_before ps)) 1)
  unfolding previous_decoded previous_whole previous_of
  previous_thin thin eo ei = ground (
    arith,
    scan_back-encode bs (encode_before ps) q (encode_all qs) s.after.0 s.stored,
    decode_next ps q qs bs us s,
    offset_inside ps q qs bs us s,
    unit_next ps q qs bs us s 0,
  )

previous-Moves :
    (c : Cursor) (bs us : List ℕ) (i : ℕ)
    → length bs < half_bit
    → c.utf16_offset ≡ suc i
    → AtBytes bs us c.offset (suc i)
    → Moves bs us c (suc i) i (get_elem? us i) (previous_decoded bs c)
previous-Moves c bs us i fits eu (whole [] qs s eo ei) = absurd (omega arith)
previous-Moves c bs us i fits eu (whole (q ∷ ps) qs s eo ei) =
    let s' = Split-back q ps qs bs us s in
    let eo' : c.offset ≡ length (encode_before ps) + length (encode q) =
      eo ∙ length-append (encode_before ps) (encode q) in
    let ei' : suc i ≡ length (units_before ps) + length (point_units q) =
      ei ∙ length-append (units_before ps) (point_units q) in
    elim (Bool-cases (ltb 0xffff q)) [
      | inl wide ↦ record {
        after = behind c (pack_offset (length (encode_before ps)) true) 1;
        returns = previous_wide c ps q qs bs us i s' fits (ground arith) eo' (ground arith);
        same = refl;
        at = inside ps q qs s' (ground arith) (omega arith) (ground arith);
        count = omega arith;
      }
      | inr thin ↦ record {
        after = behind c (length (encode_before ps)) 1;
        returns = previous_thin c ps q qs bs us i s' fits (ground arith) eo' (ground arith);
        same = refl;
        at = whole ps (q ∷ qs) s' refl (ground arith);
        count = omega arith;
      }
    ]
previous-Moves c bs us i fits eu (inside ps q qs s wide eo ei) = record {
  after = behind c (without_half c.offset) 1;
  returns = previous_inside c ps q qs bs us i s fits wide eo (omega arith);
  same = refl;
  at = whole ps (q ∷ qs) s (omega (arith, offset_inside ps q qs bs us s)) (omega arith);
  count = omega arith;
}

previous_stored_lem :
    (xs : List ℕ) (c : Cursor) (i : ℕ)
    → c.offset ≡ suc i
    → c.utf16_offset ≡ suc i
    → suc i ≤ length xs
    → previous_stored xs c c.offset ≡ ret (get_elem? xs i, stored_at c i)
unfolding previous_stored
previous_stored_lem xs c i eo eu h =
    let (u, here) = get_elem?-some xs i (omega arith) in rw (eo, here) (ground arith)

-- `previous_unit` reads the unit before the cursor's position and stops in front of it; at the
-- start of the subject it reads `None` and stays. It never panics.
pub previous_unit-Reads :
    (us : List ℕ) (c : Cursor) (i : ℕ)
    → CursorAt c us i
    → Reads (Option ℕ) us c (i - 1) (unit_before us i) (previous_unit c)
unfolding previous_unit
previous_unit-Reads us c zero p = record {
  after = c;
  returns = ground arith;
  same = refl;
  at = let e : zero - 1 ≡ zero = omega arith in rw e p;
}
previous_unit-Reads us c (suc i) p =
    let r = go c.input.storage refl p.stands in
    record {
      after = r.after;
      returns = ground (arith, r.returns, p.unit);
      same = r.same;
      at = let e : suc i - 1 ≡ i = omega arith in rw e r.at;
    }
  where
    go :
        (s : Storage)
        → c.input.storage ≡ s
        → Stands s us c.offset (suc i)
        → Reads (Option ℕ) us c i (get_elem? us i) (previous_in s c)
    go (ascii bs) e (eb, small, eo, bound) = record {
      after = stored_at c i;
      returns = rw eb (previous_stored_lem us c i eo p.unit bound);
      same = refl;
      at = CursorAt-moved p e refl (eb, small, refl, omega arith) refl;
    }
    go (units vs) e (eb, eo, bound) = record {
      after = stored_at c i;
      returns = rw eb (previous_stored_lem us c i eo p.unit bound);
      same = refl;
      at = CursorAt-moved p e refl (eb, refl, omega arith) refl;
    }
    go (bytes bs) e (fits, at) =
        let m = previous-Moves c bs us i fits p.unit at in
        record {
          after = m.after;
          returns = m.returns;
          same = m.same;
          at = CursorAt-moved p e m.same (fits, m.at) (omega (arith, m.count));
        }
