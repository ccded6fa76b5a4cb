-- ===== src/Input/Points/Backward.antt =====
-- `previous_point` reads the code point that ends at a position.
use perex.Base.{ℕ, zero, suc, ◌+◌, ◌-◌, ◌≤◌, ◌<◌, ◌≡◌, refl, ◌∙◌, arith, Bool, true, false}
use perex.Base.{List, [], ◌∷◌, Option, none, some, ltb, if◌then◌else◌, ◌&&◌}
use perex.Base.{
  length, length-append, get_elem?, get_elem?-some, All, All-get_elem?, ret, Bool-cases,
  Option-cases, inl, inr,
}
use perex.Input.Scalar.{is_high, is_low, high_surrogate, combine_pair}
use perex.Input.Scalar.Laws.{encode, point_units, combine_pair-surrogates, high_surrogate-not_low}
use perex.Input.View.{Storage, ascii, bytes, units, Cursor, half_bit, without_half, has_half}
use perex.Input.Walk.{behind}
use perex.Input.Walk.Backward.{previous_unit-Reads, scan_back-encode}
use perex.Input.Stands.{
  Split, Split-back, whole, inside, Stands, CursorAt, CursorAt-moved, CursorAt-le, Reads, IsAscii,
}
use perex.Input.Stands.{encode_all, encode_before, units_before}
use perex.Input.Bytes.{decode_next, offset_inside, unit_next, stored_at}
use perex.Input.Points.{
  previous_point, previous_point_in, previous_bytes_half, previous_bytes_whole,
  previous_bytes_decoded, previous_units_point, previous_paired, previous_ascii_point, pair_before,
}

-- The code point that the two units end, and how many of them it takes.
abbrev pub point_ending : Option ℕ → Option ℕ → Option ℕ
point_ending first none = none
point_ending none (some last) = some last
point_ending (some first) (some last) =
    if is_low last && is_high first then some (combine_pair first last) else some last

abbrev pub pairs : Option ℕ → Option ℕ → Bool
pairs (some first) (some last) = is_low last && is_high first
pairs _ _ = false

abbrev pub point_before : List ℕ → ℕ → Option ℕ
point_before us zero = none
point_before us (suc zero) = get_elem? us 0
point_before us (suc (suc i)) = point_ending (get_elem? us i) (get_elem? us (suc i))

abbrev pub point_start : List ℕ → ℕ → ℕ
point_start us zero = 0
point_start us (suc zero) = 0
point_start us (suc (suc i)) = if pairs (get_elem? us i) (get_elem? us (suc i)) then i else suc i

pair_before-Reads :
    (us : List ℕ) (c : Cursor) (i last : ℕ)
    → CursorAt c us i
    → get_elem? us i ≡ some last
    → Reads (Option ℕ) us c (point_start us (suc i)) (point_before us (suc i)) (pair_before c last)
unfolding pair_before
pair_before-Reads us c zero last p here =
    let r = previous_unit-Reads us c zero p in
    record { after = c; returns = ground (arith, r.returns); same = refl; at = p }
pair_before-Reads us c (suc i) last p here =
    let r = previous_unit-Reads us c (suc i) p in
    let (first, there) = get_elem?-some us i (omega (arith, CursorAt-le us c (suc i) p)) in
    elim (Bool-cases (is_low last && is_high first)) [
      | inl paired ↦ record {
        after = r.after;
        returns = ground (arith, r.returns);
        same = r.same;
        at = let e : point_start us (suc (suc i)) ≡ suc i - 1 = ground arith in rw e r.at;
      }
      | inr single ↦ record {
        after = c;
        returns = ground (arith, r.returns);
        same = refl;
        at = let e : point_start us (suc (suc i)) ≡ suc i = ground arith in rw e p;
      }
    ]

is_low-ascii : (u : ℕ) → IsAscii u → is_low u ≡ false
unfolding is_low
is_low-ascii u h = ground arith

previous_ascii_lem :
    (us : List ℕ) (c : Cursor) (i : ℕ)
    → All IsAscii us
    → suc i ≤ length us
    → c.offset ≡ suc i
    → c.utf16_offset ≡ suc i
    → previous_ascii_point us c c.offset
      ≡ ret (point_before us (suc i), stored_at c (point_start us (suc i)))
unfolding previous_ascii_point
previous_ascii_lem us c zero small h eo eu =
    let (u, here) = get_elem?-some us zero (omega arith) in rw (eo, here) (ground arith)
previous_ascii_lem us c (suc i) small h eo eu =
    let (u, here) = get_elem?-some us (suc i) (omega arith) in
    let (v, there) = get_elem?-some us i (omega arith) in
    rw (eo, here, there)
      (ground (arith, is_low-ascii u (All-get_elem? IsAscii us (suc i) small here)))

previous_units_lem :
    (us : List ℕ) (c : Cursor) (i : ℕ)
    → suc i ≤ length us
    → c.offset ≡ suc i
    → c.utf16_offset ≡ suc i
    → previous_units_point us c c.offset
      ≡ ret (point_before us (suc i), stored_at c (point_start us (suc i)))
unfolding previous_units_point previous_paired
previous_units_lem us c zero h eo eu =
    let (u, here) = get_elem?-some us zero (omega arith) in rw (eo, here) (ground arith)
previous_units_lem us c (suc i) h eo eu =
    let (u, here) = get_elem?-some us (suc i) (omega arith) in
    let (v, there) = get_elem?-some us i (omega arith) in rw (eo, here, there) (ground arith)

point_start-le : (us : List ℕ) (i : ℕ) → i ≤ length us → point_start us i ≤ length us
point_start-le us zero h = h
point_start-le us (suc zero) h = omega arith
point_start-le us (suc (suc i)) h = ground arith

single_before :
    (us : List ℕ) (k u : ℕ)
    → get_elem? us k ≡ some u
    → is_low u ≡ false
    → (point_before us (suc k) ≡ some u) × (point_start us (suc k) ≡ k)
single_before us zero u here h = ground arith
single_before us (suc k) u here h = elim (Option-cases (get_elem? us k)) [
  | inl over ↦ ground arith
  | inr (v, there) ↦ ground arith
]

module _ (c : Cursor) (ps : List ℕ) (q : ℕ) (qs bs us : List ℕ) (s : Split ps (q ∷ qs) bs us)
    (fits : length bs < half_bit) where
  before_inside :
      c.offset ≡ half_bit + length (encode_before ps)
      → previous_bytes_half bs c ≡ ret (some (high_surrogate q), behind c (without_half c.offset) 1)
  unfolding previous_bytes_half
  before_inside eo = ground (arith, decode_next ps q qs bs us s, offset_inside ps q qs bs us s)

  before_wide :
      c.offset ≡ length (encode_before ps) + length (encode q)
      → 0xffff < q
      → previous_bytes_whole bs c ≡ ret (some q, behind c (length (encode_before ps)) 2)
  unfolding previous_bytes_whole previous_bytes_decoded
  before_wide eo wide = ground (
    arith,
    scan_back-encode bs (encode_before ps) q (encode_all qs) s.after.0 s.stored,
    decode_next ps q qs bs us s,
  )

  before_thin :
      c.offset ≡ length (encode_before ps) + length (encode q)
      → q ≤ 0xffff
      → previous_bytes_whole bs c ≡ pair_before (behind c (length (encode_before ps)) 1) q
  unfolding previous_bytes_whole previous_bytes_decoded
  before_thin eo thin = ground (
    arith,
    scan_back-encode bs (encode_before ps) q (encode_all qs) s.after.0 s.stored,
    decode_next ps q qs bs us s,
  )

  pair_before_wide :
      (i : ℕ)
      → suc i ≡ suc (suc (length (units_before ps)))
      → 0xffff < q
      → (point_before us (suc i) ≡ some q) × (point_start us (suc i) ≡ length (units_before ps))
  pair_before_wide zero ei wide = absurd (omega arith)
  pair_before_wide (suc i) ei wide = ground (
    arith,
    unit_next ps q qs bs us s 0,
    unit_next ps q qs bs us s 1,
    combine_pair-surrogates q wide s.after.0,
  )

not_half :
    (bs us : List ℕ) (ps : List ℕ) (q : ℕ) (qs : List ℕ) (o : ℕ)
    → Split ps (q ∷ qs) bs us
    → length bs < half_bit
    → o ≡ length (encode_before ps) + length (encode q)
    → has_half o ≡ false
not_half bs us ps q qs o s fits eo = ground (arith, offset_inside ps q qs bs us s)

-- `previous_point` reads the code point that ends at the cursor's position, a pair of surrogates
-- as one however it is stored, and stops in front of it; at the start it reads `None` and stays.
-- It never panics.
pub previous_point-Reads :
    (us : List ℕ) (c : Cursor) (i : ℕ)
    → CursorAt c us i
    → Reads (Option ℕ) us c (point_start us i) (point_before us i) (previous_point c)
unfolding previous_point
previous_point-Reads us c zero p = record {
  after = c;
  returns = ground (arith, p.unit);
  same = refl;
  at = p;
}
previous_point-Reads us c (suc i) p =
    let r = go c.input.storage refl p.stands in
    record {
      after = r.after;
      returns = ground (arith, r.returns, p.unit);
      same = r.same;
      at = r.at;
    }
  where
    go :
        (s : Storage)
        → c.input.storage ≡ s
        → Stands s us c.offset (suc i)
        → Reads
            (Option ℕ)
            us
            c
            (point_start us (suc i))
            (point_before us (suc i))
            (previous_point_in s c)
    go (ascii bs) e (eb, small, eo, bound) = record {
      after = stored_at c (point_start us (suc i));
      returns = rw eb (previous_ascii_lem us c i small bound eo p.unit);
      same = refl;
      at = CursorAt-moved p e refl (eb, small, refl, point_start-le us (suc i) bound) refl;
    }
    go (units vs) e (eb, eo, bound) = record {
      after = stored_at c (point_start us (suc i));
      returns = rw eb (previous_units_lem us c i bound eo p.unit);
      same = refl;
      at = CursorAt-moved p e refl (eb, refl, point_start-le us (suc i) bound) refl;
    }
    go (bytes bs) e (fits, whole [] qs s eo ei) = absurd (omega arith)
    go (bytes bs) e (fits, whole (q ∷ ps) qs s eo ei) =
        let s' = Split-back q ps qs bs us s in
        let eo' : c.offset ≡ length (encode_before ps) + length (encode q) =
          eo ∙ length-append (encode_before ps) (encode q) in
        let ei' : suc i ≡ length (units_before ps) + length (point_units q) =
          ei ∙ length-append (units_before ps) (point_units q) in
        let nh = not_half bs us ps q qs c.offset s' fits eo' in
        elim (Bool-cases (ltb 0xffff q)) [
          | inl wide ↦
              let (reads, stops) =
                pair_before_wide c ps q qs bs us s' fits i (ground arith) (ground arith) in
              record {
                after = behind c (length (encode_before ps)) 2;
                returns = rw (nh, reads) (before_wide c ps q qs bs us s' fits eo' (ground arith));
                same = refl;
                at = rw stops (
                    CursorAt-moved p e refl (fits, whole ps (q ∷ qs) s' refl refl)
                      (ground (arith, p.unit)));
              }
          | inr thin ↦
              let c1 = behind c (length (encode_before ps)) 1 in
              let r =
                pair_before-Reads us c1 i q
                  (CursorAt-moved p e refl (fits, whole ps (q ∷ qs) s' refl (ground arith))
                    (ground (arith, p.unit)))
                  (ground (arith, unit_next ps q qs bs us s' 0)) in
              record {
                after = r.after;
                returns =
                    rw nh (before_thin c ps q qs bs us s' fits eo' (ground arith) ∙ r.returns);
                same = r.same;
                at = r.at;
              }
        ]
    go (bytes bs) e (fits, inside ps q qs s wide eo ei) =
        let (reads, stops) =
          single_before us i (high_surrogate q) (ground (arith, unit_next ps q qs bs us s 0))
            (high_surrogate-not_low q wide s.after.0) in
        let h : has_half c.offset ≡ true = ground arith in
        record {
          after = behind c (without_half c.offset) 1;
          returns = rw (h, reads) (before_inside c ps q qs bs us s fits eo);
          same = refl;
          at = rw stops (
              CursorAt-moved p e refl
                (
                  fits,
                  whole ps (q ∷ qs) s (ground (arith, offset_inside ps q qs bs us s))
                      (ground arith),
                )
                (ground (arith, p.unit)));
        }
