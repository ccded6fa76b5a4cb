-- ===== src/Input/Points/Forward.antt =====
-- `next_point` reads the code point that starts at a position of the unit sequence.
use perex.Base.{ℕ, suc, ◌+◌, ◌≤◌, ◌<◌, ◌≡◌, refl, ap, ◌∙◌, arith, false}
use perex.Base.{List, [], ◌∷◌, Option, none, some, ltb, if◌then◌else◌, ◌&&◌}
use perex.Base.{
  length, get_elem?, get_elem?-none, get_elem?-lt, All, All-get_elem?, append-nil, ret, Bool-cases,
  Option-cases, inl, inr,
}
use perex.Input.Scalar.{is_high, is_low, low_surrogate, combine_pair}
use perex.Input.Scalar.Laws.{encode, combine_pair-surrogates, low_surrogate-not_high}
use perex.Input.View.{Storage, ascii, bytes, units, Cursor, half_bit, without_half}
use perex.Input.Walk.{ahead}
use perex.Input.Walk.Forward.{next_unit-Reads}
use perex.Input.Stands.{Split, whole, inside, Stands, CursorAt, CursorAt-moved, Reads, IsAscii}
use perex.Input.Stands.{encode_before, units_before}
use perex.Input.Bytes.{
  unit_after, length-encode, decode_next, offset_inside, unit_next, at_after, stored_at,
}
use perex.Input.Points.{
  next_point, next_point_in, next_bytes_point, next_bytes_decoded, next_units_point, next_paired,
  next_ascii_point, pair_after,
}

-- The code point of a unit and the unit after it, and how many units it takes.
abbrev pub point_of : Option ℕ → Option ℕ → Option ℕ
point_of none next = none
point_of (some unit) none = some unit
point_of (some unit) (some next) =
    if is_high unit && is_low next then some (combine_pair unit next) else some unit

abbrev pub width_of : Option ℕ → Option ℕ → ℕ
width_of none next = 0
width_of (some unit) none = 1
width_of (some unit) (some next) = if is_high unit && is_low next then 2 else 1

abbrev pub point_at : List ℕ → ℕ → Option ℕ
point_at us i = point_of (get_elem? us i) (get_elem? us (suc i))

abbrev pub point_end : List ℕ → ℕ → ℕ
point_end us i = i + width_of (get_elem? us i) (get_elem? us (suc i))

-- Behind a unit, the pairing of `next_point` reads the code point that starts at that unit.
pair_after-Reads :
    (us : List ℕ) (c : Cursor) (i first : ℕ)
    → CursorAt c us (suc i)
    → get_elem? us i ≡ some first
    → Reads (Option ℕ) us c (point_end us i) (point_at us i) (pair_after c first)
unfolding pair_after
pair_after-Reads us c i first p here =
    let r = next_unit-Reads us c (suc i) p in
    elim (Option-cases (get_elem? us (suc i))) [
      | inl over ↦ record {
        after = c;
        returns = ground (arith, r.returns);
        same = refl;
        at = let e : point_end us i ≡ suc i = ground arith in rw e p;
      }
      | inr (second, there) ↦ elim (Bool-cases (is_high first && is_low second)) [
        | inl paired ↦ record {
          after = r.after;
          returns = ground (arith, r.returns);
          same = r.same;
          at =
              let e : point_end us i ≡ unit_after us (suc i) =
                ground (arith, get_elem?-lt us (suc i) there) in
              rw e r.at;
        }
        | inr single ↦ record {
          after = c;
          returns = ground (arith, r.returns);
          same = refl;
          at = let e : point_end us i ≡ suc i = ground arith in rw e p;
        }
      ]
    ]

is_high-ascii : (u : ℕ) → IsAscii u → is_high u ≡ false
unfolding is_high
is_high-ascii u h = ground arith

next_ascii_lem :
    (us : List ℕ) (c : Cursor) (i : ℕ)
    → All IsAscii us
    → c.offset ≡ i
    → c.utf16_offset ≡ i
    → next_ascii_point us c ≡ (point_at us i, stored_at c (point_end us i))
unfolding next_ascii_point
next_ascii_lem us c i small eo eu = elim (Option-cases (get_elem? us i)) [
  | inl over ↦ ground arith
  | inr (u, here) ↦ ground (arith, is_high-ascii u (All-get_elem? IsAscii us i small here))
]

next_units_lem :
    (us : List ℕ) (c : Cursor) (i : ℕ)
    → c.offset ≡ i
    → c.utf16_offset ≡ i
    → next_units_point us c ≡ (point_at us i, stored_at c (point_end us i))
unfolding next_units_point next_paired
next_units_lem us c i eo eu = elim (Option-cases (get_elem? us i)) [
  | inl over ↦ ground arith
  | inr (u, here) ↦ ground arith
]

module _ (c : Cursor) (bs us : List ℕ) (i : ℕ) (fits : length bs < half_bit) where
  point_at_end :
      (ps : List ℕ)
      → Split ps [] bs us
      → c.offset ≡ length (encode_before ps)
      → i ≡ length (units_before ps)
      → next_bytes_point bs c ≡ ret (none, c)
  unfolding next_bytes_point
  point_at_end ps s eo ei =
      let lb : length bs ≡ length (encode_before ps) =
        ap (length {A = ℕ}) (s.stored ∙ append-nil _) in
      ground arith

  module _ (ps : List ℕ) (q : ℕ) (qs : List ℕ) (s : Split ps (q ∷ qs) bs us) where
    point_thin :
        c.offset ≡ length (encode_before ps)
        → q ≤ 0xffff
        → next_bytes_point bs c ≡ pair_after (ahead c (c.offset + length (encode q)) 1) q
    unfolding next_bytes_point next_bytes_decoded
    point_thin eo thin =
        ground (arith, decode_next ps q qs bs us s, offset_inside ps q qs bs us s, length-encode q)

    point_wide :
        c.offset ≡ length (encode_before ps)
        → 0xffff < q
        → next_bytes_point bs c ≡ ret (some q, ahead c (c.offset + length (encode q)) 2)
    unfolding next_bytes_point next_bytes_decoded
    point_wide eo wide =
        ground (arith, decode_next ps q qs bs us s, offset_inside ps q qs bs us s, length-encode q)

    point_inside :
        c.offset ≡ half_bit + length (encode_before ps)
        → next_bytes_point bs c
          ≡ ret (some (low_surrogate q), ahead c (without_half c.offset + length (encode q)) 1)
    unfolding next_bytes_point next_bytes_decoded
    point_inside eo =
        ground (arith, decode_next ps q qs bs us s, offset_inside ps q qs bs us s, length-encode q)

    units_wide :
        i ≡ length (units_before ps)
        → 0xffff < q
        → (point_at us i ≡ some q) × (point_end us i ≡ suc (suc i))
    units_wide ei wide = ground (
      arith,
      unit_next ps q qs bs us s 0,
      unit_next ps q qs bs us s 1,
      combine_pair-surrogates q wide s.after.0,
    )

    units_inside :
        i ≡ suc (length (units_before ps))
        → 0xffff < q
        → (point_at us i ≡ some (low_surrogate q)) × (point_end us i ≡ suc i)
    units_inside ei wide = elim (Option-cases (get_elem? us (suc i))) [
      | inl over ↦ ground (arith, unit_next ps q qs bs us s 1)
      | inr (u, there) ↦ ground (arith, unit_next ps q qs bs us s 1, low_surrogate-not_high q)
    ]

point_end-le : (us : List ℕ) (i : ℕ) → i ≤ length us → point_end us i ≤ length us
point_end-le us i h = elim (Option-cases (get_elem? us i)) [
  | inl over ↦ ground arith
  | inr (u, here) ↦ elim (Option-cases (get_elem? us (suc i))) [
    | inl over ↦ ground (arith, get_elem?-lt us i here)
    | inr (v, there) ↦ ground (arith, get_elem?-lt us (suc i) there)
  ]
]

units_end :
    (us ps bs : List ℕ) (i : ℕ)
    → Split ps [] bs us
    → i ≡ length (units_before ps)
    → (point_at us i ≡ none) × (point_end us i ≡ i)
units_end us ps bs i s ei =
    let lu : length us ≡ length (units_before ps) =
      ap (length {A = ℕ}) (s.logical ∙ append-nil _) in
    ground (arith, get_elem?-none us i)

-- `next_point` reads the code point that starts at the cursor's position, a pair of surrogates
-- as one however it is stored, and stops behind it; at the end it reads `None` and stays.
-- It never panics.
pub next_point-Reads :
    (us : List ℕ) (c : Cursor) (i : ℕ)
    → CursorAt c us i
    → Reads (Option ℕ) us c (point_end us i) (point_at us i) (next_point c)
unfolding next_point
next_point-Reads us c i p = go c.input.storage refl p.stands
  where
    go :
        (s : Storage)
        → c.input.storage ≡ s
        → Stands s us c.offset i
        → Reads (Option ℕ) us c (point_end us i) (point_at us i) (next_point_in s c)
    go (ascii bs) e (eb, small, eo, bound) = record {
      after = stored_at c (point_end us i);
      returns = rw (eb, next_ascii_lem us c i small eo p.unit);
      same = refl;
      at = CursorAt-moved p e refl (eb, small, refl, point_end-le us i bound) refl;
    }
    go (units vs) e (eb, eo, bound) = record {
      after = stored_at c (point_end us i);
      returns = rw (eb, next_units_lem us c i eo p.unit);
      same = refl;
      at = CursorAt-moved p e refl (eb, refl, point_end-le us i bound) refl;
    }
    go (bytes bs) e (fits, whole ps [] s eo ei) =
        let (end, stays) = units_end us ps bs i s ei in
        record {
          after = c;
          returns = rw end (point_at_end c bs us i fits ps s eo ei);
          same = refl;
          at = rw stays p;
        }
    go (bytes bs) e (fits, whole ps (q ∷ qs) s eo ei) = elim (Bool-cases (ltb 0xffff q)) [
      | inl wide ↦
          let (reads, stops) = units_wide c bs us i fits ps q qs s ei (ground arith) in
          record {
            after = ahead c (c.offset + length (encode q)) 2;
            returns = rw reads (point_wide c bs us i fits ps q qs s eo (ground arith));
            same = refl;
            at = rw stops (
                CursorAt-moved p e refl
                  (fits, at_after q ps qs bs us _ _ s (ground arith) (ground arith))
                  (ground (arith, p.unit)));
          }
      | inr thin ↦
          let c1 = ahead c (c.offset + length (encode q)) 1 in
          let r =
            pair_after-Reads us c1 i q
              (CursorAt-moved p e refl
                (fits, at_after q ps qs bs us _ _ s (ground arith) (ground arith))
                (ground (arith, p.unit)))
              (ground (arith, unit_next ps q qs bs us s 0)) in
          record {
            after = r.after;
            returns = point_thin c bs us i fits ps q qs s eo (ground arith) ∙ r.returns;
            same = r.same;
            at = r.at;
          }
    ]
    go (bytes bs) e (fits, inside ps q qs s wide eo ei) =
        let (reads, stops) = units_inside c bs us i fits ps q qs s ei wide in
        record {
          after = ahead c (without_half c.offset + length (encode q)) 1;
          returns = rw reads (point_inside c bs us i fits ps q qs s eo);
          same = refl;
          at = rw stops (
              CursorAt-moved p e refl
                (
                  fits,
                  at_after q ps qs bs us _ _ s (ground (arith, offset_inside ps q qs bs us s))
                      (ground arith),
                )
                (ground (arith, p.unit)));
        }
