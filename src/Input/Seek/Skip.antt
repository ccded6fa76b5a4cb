-- ===== src/Input/Seek/Skip.antt =====
-- `skip_ascii` of src/input.rs: a checked jump over ASCII units of original bytes.
use perex.Base.{ℕ, zero, suc, ◌+◌, ◌≤◌, ◌<◌, ◌≡◌, refl, sym, ap, ◌∙◌, arith, Bool, true, false}
use perex.Base.{List, [], ◌∷◌, ◌++◌, Option, none, leb, if◌then◌else◌, ◌&&◌}
use perex.Base.{
  length, length-append, length-drop, take, drop, drop-append, All, Bool-cases, inl, inr,
}
use perex.Input.Scalar.Laws.{encode, point_units}
use perex.Input.View.{Storage, ascii, bytes, units, Cursor, has_half, original_bytes}
use perex.Input.Walk.{ahead}
use perex.Input.Stands.{
  Split, Split-forward, AtBytes, whole, inside, Stands, CursorAt, CursorAt-moved, IsAscii,
  encode_all, units_of, encode_before, units_before,
}
use perex.Input.Seek.{skip_ascii, ascii_prefix, is_ascii, tail_from, byte_tail}

-- The `n` units from `i` on are there, and are ASCII.
pub record AsciiRun (us : List ℕ) (i n : ℕ) : Type 0 where
  pub within : i + n ≤ length us
  pub small : All IsAscii (take n (drop i us))

All-take :
    (n : ℕ) (xs : List ℕ)
    → leb n (length xs) && is_ascii (take n xs) ≡ true
    → (n ≤ length xs) × All IsAscii (take n xs)
unfolding is_ascii
All-take zero xs h = (omega arith, tt)
All-take (suc n) [] h = ground arith
All-take (suc n) (x ∷ xs) h = ground (arith, All-take n xs)

ascii_first :
    (q : ℕ) (tail : List ℕ) (n : ℕ)
    → is_ascii (take (suc n) (encode q ++ tail)) ≡ true
    → (encode q ≡ q ∷ []) × (point_units q ≡ q ∷ []) × (q < 0x80)
unfolding is_ascii encode
ascii_first q tail n h = ground arith

and_right : (a b : Bool) → a && b ≡ true → b ≡ true
and_right a b h = ground arith

jump_rest :
    (n q : ℕ) (qs : List ℕ)
    → encode q ≡ q ∷ []
    → leb (suc n) (length (encode q ++ encode_all qs))
        && is_ascii (take (suc n) (encode q ++ encode_all qs))
      ≡ true
    → leb n (length (encode_all qs)) && is_ascii (take n (encode_all qs)) ≡ true
unfolding is_ascii
jump_rest n q qs e h = ground arith

-- Over encoded points the jump passes one point for each byte.
jump :
    (n : ℕ) (ps qs bs us : List ℕ) (o i : ℕ)
    → Split ps qs bs us
    → o ≡ length (encode_before ps)
    → i ≡ length (units_before ps)
    → leb n (length (encode_all qs)) && is_ascii (take n (encode_all qs)) ≡ true
    → AtBytes bs us (o + n) (i + n)
      × (n ≤ length (units_of qs))
      × All IsAscii (take n (units_of qs))
jump zero ps qs bs us o i s eo ei h = (
  let e : o + 0 ≡ o = omega arith in
      let f : i + 0 ≡ i = omega arith in rw (e, f) (whole ps qs s eo ei),
  omega arith,
  tt,
)
jump (suc n) ps [] bs us o i s eo ei h = absurd (ground arith)
jump (suc n) ps (q ∷ qs) bs us o i s eo ei h =
    let (enc, unit, small) = ascii_first q (encode_all qs) n (and_right _ _ h) in
    let (at, fit, run) =
      jump n (q ∷ ps) qs bs us (o + 1) (i + 1) (Split-forward q ps qs bs us s)
        (rw (eo, length-append (encode_before ps) (encode q), enc) refl)
        (rw (ei, length-append (units_before ps) (point_units q), unit) refl)
        (jump_rest n q qs enc h) in
    let e : o + suc n ≡ o + 1 + n = omega arith in
    let f : i + suc n ≡ i + 1 + n = omega arith in
    rw (e, f) (at, rw unit (omega arith), rw unit (small, run))

stored_jump : (us : List ℕ) (i n : ℕ) → ascii_prefix (tail_from us i) n ≡ true → AsciiRun us i n
unfolding ascii_prefix tail_from
stored_jump us i n h = ground (arith, length-drop i us, All-take n (drop i us))

tail_in_storage : Storage → ℕ → Option (List ℕ)
tail_in_storage (units us) o = none
tail_in_storage (ascii bs) o = if has_half o then none else tail_from bs o
tail_in_storage (bytes bs) o = if has_half o then none else tail_from bs o

byte_tail_lem :
    (s : Storage) (c : Cursor) → c.input.storage ≡ s → byte_tail c ≡ tail_in_storage s c.offset
unfolding byte_tail tail_in_storage original_bytes
byte_tail_lem (units us) c e = ground arith
byte_tail_lem (ascii bs) c e = ground arith
byte_tail_lem (bytes bs) c e = ground arith

jumped :
    (s : Storage) (us : List ℕ) (c : Cursor) (i count : ℕ)
    → c.input.storage ≡ s
    → CursorAt c us i
    → Stands s us c.offset i
    → ascii_prefix (tail_in_storage s c.offset) count ≡ true
    → CursorAt (ahead c (c.offset + count) count) us (i + count) × AsciiRun us i count
unfolding tail_in_storage
jumped (units vs) us c i count e p h jumps = absurd (unfold ascii_prefix in ground arith)
jumped (ascii bs) us c i count e p (eb, small, eo, bound) jumps =
    let run : AsciiRun us i count = stored_jump us i count (unfold ascii_prefix in ground arith) in
    (CursorAt-moved p e refl (eb, small, omega arith, run.within) (omega (arith, p.unit)), run)
jumped (bytes bs) us c i count e p (fits, whole ps qs s eo ei) jumps =
    let eo' : drop c.offset bs ≡ encode_all qs =
      ap (λ k. drop k bs) eo
      ∙ ap (drop (length (encode_before ps))) s.stored
      ∙ drop-append (encode_before ps) _ in
    let ei' : drop i us ≡ units_of qs =
      ap (λ k. drop k us) ei
      ∙ ap (drop (length (units_before ps))) s.logical
      ∙ drop-append (units_before ps) _ in
    let (at, fit, small) =
      jump count ps qs bs us c.offset i s eo ei (unfold ascii_prefix tail_from in ground arith) in
    (
      CursorAt-moved p e refl (fits, at) (omega (arith, p.unit)),
      record {
        within = omega (
          arith,
          fit,
          ap (length {A = ℕ}) s.logical,
          length-append {0} (units_before ps) (units_of qs),
        );
        small = rw ei' small;
      },
    )
jumped (bytes bs) us c i count e p (fits, inside ps q qs s wide eo ei) jumps =
    absurd (unfold ascii_prefix in ground arith)

-- Where `skip_ascii` says that it jumped, the `count` units behind the cursor are there and are
-- ASCII, and the cursor stands `count` units further; otherwise the cursor is unchanged.
pub skip_ascii-AsciiRun :
    (us : List ℕ) (c : Cursor) (i count : ℕ)
    → CursorAt c us i
    → ((skip_ascii c count).0 ≡ true
        → CursorAt (skip_ascii c count).1 us (i + count) × AsciiRun us i count)
      × ((skip_ascii c count).0 ≡ false → (skip_ascii c count).1 ≡ c)
unfolding skip_ascii
skip_ascii-AsciiRun us c i count p = elim (Bool-cases (ascii_prefix (byte_tail c) count)) [
  | inl jumps ↦
      let r =
        jumped c.input.storage us c i count refl p p.stands
          (ap (λ t. ascii_prefix t count) (sym (byte_tail_lem c.input.storage c refl)) ∙ jumps) in
      rw jumps (λ h. r, λ h. cc)
  | inr stays ↦ rw stays (λ h. cc, λ h. refl)
]
