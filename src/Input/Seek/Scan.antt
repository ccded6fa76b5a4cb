-- ===== src/Input/Seek/Scan.antt =====
-- The scan of `seek_byte_offset` reaches the position it is asked for, from either end.
use perex.Base.{ℕ, zero, suc, ◌+◌, ◌-◌, ◌/◌, ◌≤◌, ◌<◌, ◌≡◌, refl, sym, ap, ◌∙◌, arith, true}
use perex.Base.{List, [], ◌∷◌, append-nil, ltb, leb, length, length-append}
use perex.Base.{Run, ret, Bool-cases, inl, inr}
use perex.Input.Scalar.Laws.{encode, point_units}
use perex.Input.View.{pack_offset, len_utf16_of}
use perex.Input.Walk.Backward.{scan_back-encode}
use perex.Input.Stands.{
  Split, Split-forward, Split-back, AtBytes, whole, inside, encode_all, encode_before, units_before,
}
use perex.Input.Bytes.{decode_next}
use perex.Input.Seek.{seek_forward, forward_round, seek_backward, backward_round, seek_byte_offset}

pub record Lands (bs us : List ℕ) (target : ℕ) (run : Run ℕ) : Type 0 where
  pub offset : ℕ
  pub returns : run ≡ ret offset
  pub at : AtBytes bs us offset target

pub length-point_units : (p : ℕ) → length (point_units p) ≡ len_utf16_of p
unfolding len_utf16_of
length-point_units p = ground arith

pub len_utf16_of-bounds : (p : ℕ) → (1 ≤ len_utf16_of p) × (len_utf16_of p ≤ 2)
unfolding len_utf16_of
len_utf16_of-bounds p = ground arith

-- A position strictly inside a code point shows that it takes two units.
wide_of_split : (q at target : ℕ) → at < target → target - at < len_utf16_of q → 0xffff < q
unfolding len_utf16_of
wide_of_split q at target h k = ground arith

module _ (bs us : List ℕ) (target : ℕ) where
  forward-Lands :
      (fuel : ℕ) (ps qs : List ℕ) (o at : ℕ)
      → Split ps qs bs us
      → o ≡ length (encode_before ps)
      → at ≡ length (units_before ps)
      → at ≤ target
      → target ≤ length us
      → target < at + fuel
      → Lands bs us target (seek_forward fuel bs target o at)
  unfolding seek_forward forward_round
  forward-Lands zero ps qs o at s eo ea h1 h2 h3 = absurd (omega arith)
  forward-Lands (suc fuel) ps [] o at s eo ea h1 h2 h3 =
      let lu : length us ≡ length (units_before ps) =
        ap (length {A = ℕ}) (s.logical ∙ append-nil _) in
      record { offset = o; returns = ground arith; at = whole ps [] s eo (omega arith) }
  forward-Lands (suc fuel) ps (q ∷ qs) o at s eo ea h1 h2 h3 =
      let d = decode_next ps q qs bs us s in
      elim (Bool-cases (ltb at target)) [
        | inr there ↦ record {
          offset = o;
          returns = ground arith;
          at = whole ps (q ∷ qs) s eo (ground arith);
        }
        | inl more ↦ elim (Bool-cases (ltb (target - at) (len_utf16_of q))) [
          | inl split ↦ record {
            offset = pack_offset o true;
            returns = ground (arith, d);
            at =
                inside ps q qs s (wide_of_split q at target (ground arith) (ground arith))
                  (ground arith) (ground (arith, len_utf16_of-bounds q));
          }
          | inr past ↦
              let r =
                forward-Lands fuel (q ∷ ps) qs (o + length (encode q)) (at + len_utf16_of q)
                  (Split-forward q ps qs bs us s)
                  (ap (λ n. n + length (encode q)) eo
                    ∙ sym (length-append (encode_before ps) (encode q)))
                  (omega (
                    arith,
                    length-append {0} (units_before ps) (point_units q),
                    length-point_units q,
                  ))
                  (ground (arith, len_utf16_of-bounds q)) h2
                  (ground (arith, len_utf16_of-bounds q)) in
              record { offset = r.offset; returns = ground (arith, d, r.returns); at = r.at }
        ]
      ]

  backward-Lands :
      (fuel : ℕ) (ps qs : List ℕ) (o at : ℕ)
      → Split ps qs bs us
      → o ≡ length (encode_before ps)
      → at ≡ length (units_before ps)
      → target ≤ at
      → at < target + fuel
      → Lands bs us target (seek_backward fuel bs target o at)
  unfolding seek_backward backward_round
  backward-Lands zero ps qs o at s eo ea h1 h2 = absurd (omega arith)
  backward-Lands (suc fuel) [] qs o at s eo ea h1 h2 = record {
    offset = o;
    returns = ground arith;
    at = whole [] qs s eo (omega arith);
  }
  backward-Lands (suc fuel) (q ∷ ps) qs o at s eo ea h1 h2 =
      let s' = Split-back q ps qs bs us s in
      let eo' : o ≡ length (encode_before ps) + length (encode q) =
        eo ∙ length-append (encode_before ps) (encode q) in
      let ea' : at ≡ length (units_before ps) + len_utf16_of q =
        ea
        ∙ length-append (units_before ps) (point_units q)
        ∙ ap (λ n. length (units_before ps) + n) (length-point_units q) in
      let d = decode_next ps q qs bs us s' in
      let b = scan_back-encode bs (encode_before ps) q (encode_all qs) s'.after.0 s'.stored in
      elim (Bool-cases (ltb target at)) [
        | inr there ↦ record {
          offset = o;
          returns = ground arith;
          at = whole (q ∷ ps) qs s eo (ground arith);
        }
        | inl more ↦ elim (Bool-cases (ltb (at - target) (len_utf16_of q))) [
          | inl split ↦ record {
            offset = pack_offset (length (encode_before ps)) true;
            returns = ground (arith, d, b);
            at =
                inside ps q qs s' (wide_of_split q target at (ground arith) (ground arith))
                  (ground arith) (ground (arith, len_utf16_of-bounds q));
          }
          | inr past ↦
              let r =
                backward-Lands fuel ps (q ∷ qs) (length (encode_before ps)) (at - len_utf16_of q) s'
                  refl (omega arith) (ground (arith, len_utf16_of-bounds q))
                  (ground (arith, len_utf16_of-bounds q)) in
              record { offset = r.offset; returns = ground (arith, d, b, r.returns); at = r.at }
        ]
      ]

pub Split-end : (ps qs bs us : List ℕ) → Split ps qs bs us → (rs : List ℕ) × Split rs [] bs us
Split-end ps [] bs us s = (ps, s)
Split-end ps (q ∷ qs) bs us s = Split-end (q ∷ ps) qs bs us (Split-forward q ps qs bs us s)

-- The scan ends within its fuel, from the nearer end, at the stored offset of the position that
-- it is asked for.
pub seek_byte_offset-Lands :
    (ps bs us : List ℕ) (target : ℕ)
    → Split [] ps bs us
    → target ≤ length us
    → Lands bs us target (seek_byte_offset bs (length us) target)
unfolding seek_byte_offset
seek_byte_offset-Lands ps bs us target s h = elim (Bool-cases (leb target (length us / 2))) [
  | inl near ↦
      rw near (
        forward-Lands bs us target (suc target) [] ps 0 0 s refl refl (omega arith) h (omega arith))
  | inr far ↦
      let (rs, e) = Split-end [] ps bs us s in
      rw far (
        backward-Lands bs us target (suc (length us)) rs [] (length bs) (length us) e
          (ap (length {A = ℕ}) (e.stored ∙ append-nil _))
          (ap (length {A = ℕ}) (e.logical ∙ append-nil _)) h (omega arith))
]
