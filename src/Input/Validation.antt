-- ===== src/Input/Validation.antt =====
-- `Input::wtf8` and `Input::utf8`: which byte strings are subjects, and how many units they hold.
use perex.Base.{ℕ, zero, suc, ◌+◌, ◌≤◌, ◌<◌, ◌≡◌, ◌≢◌, refl, sym, ap, ◌∙◌, arith}
use perex.Base.{List, [], ◌∷◌, ◌++◌, append_assoc, ltb, ◌==◌, Bool-cases, inl, inr}
use perex.Base.{
  length, length-append, length-drop, drop-drop, drop, drop-append, get_elem?-some, All, Run, ret,
  panic, stuck, ◌>>=◌, ◌⊎◌,
}
use perex.Input.Scalar.{EncodingError, Checked, ok, err, decode_checked}
use perex.Input.Scalar.Laws.{encode, point_units, decode_checked-encode, decode_checked_sound}
use perex.Input.View.{
  Input, half_bit, wtf8, wtf8_loop, wtf8_round, wtf8_view, counted, len_utf16_of, utf8, sum_utf16,
  Str,
}
use perex.Input.Stands.{IsPoint, IsAscii, encode_all, units_of}
use perex.Input.Bytes.{length-encode}
use perex.Input.Seek.Scan.{length-point_units}
use perex.Input.Seek.Start.{Holds}

-- What the scan from `offset` on says about the bytes that are left.
data Scans (bs : List ℕ) (offset start : ℕ) : Run (Checked ℕ) → Type 0 where
  valid :
      (ps : List ℕ) (n : ℕ)
      → All IsPoint ps
      → drop offset bs ≡ encode_all ps
      → n ≡ start + length (units_of ps)
      → Scans bs offset start (ret (ok n))
  invalid :
      (ps rest : List ℕ) (e : EncodingError)
      → All IsPoint ps
      → drop offset bs ≡ encode_all ps ++ rest
      → e.byte_offset ≡ offset + length (encode_all ps)
      → decode_checked bs e.byte_offset ≡ ret (err e)
      → Scans bs offset start (ret (err e))

Scans-cons :
    (bs : List ℕ) (offset start p : ℕ) (run : Run (Checked ℕ))
    → IsPoint p
    → drop offset bs ≡ encode p ++ drop (offset + length (encode p)) bs
    → Scans bs (offset + length (encode p)) (start + len_utf16_of p) run
    → Scans bs offset start run
Scans-cons bs offset start p _ hp e (valid ps n all stored count) =
    valid (p ∷ ps) n (hp, all) (e ∙ ap (λ t. encode p ++ t) stored)
      (omega (arith, length-append {0} (point_units p) (units_of ps), length-point_units p))
Scans-cons bs offset start p _ hp e (invalid ps rest x all stored at fails) =
    invalid (p ∷ ps) rest x (hp, all)
      (e ∙ ap (λ t. encode p ++ t) stored ∙ sym (append_assoc (encode p) (encode_all ps) rest))
      (omega (arith, length-append {0} (encode p) (encode_all ps))) fails

-- A lead within the slice is judged, and a refusal names its offset.
decode_checked-error :
    (bs : List ℕ) (o : ℕ) (e : EncodingError)
    → decode_checked bs o ≡ ret (err e)
    → e.byte_offset ≡ o
unfolding decode_checked
decode_checked-error bs o e h = ground arith

nil_of_length : (xs : List ℕ) → length xs ≡ 0 → xs ≡ []
nil_of_length [] h = refl
nil_of_length (x ∷ xs) h = absurd (omega arith)

decode_checked-returns :
    (bs : List ℕ) (o : ℕ)
    → o < length bs
    → ((p : ℕ) × (w : ℕ) × (decode_checked bs o ≡ ret (ok (p, w))))
      ⊎ ((e : EncodingError) × (decode_checked bs o ≡ ret (err e)) × (e.byte_offset ≡ o))
decode_checked-returns bs o h = go (decode_checked bs o) refl
  where
    go :
        (r : Run (Checked (ℕ × ℕ)))
        → decode_checked bs o ≡ r
        → ((p : ℕ) × (w : ℕ) × (decode_checked bs o ≡ ret (ok (p, w))))
          ⊎ ((e : EncodingError) × (decode_checked bs o ≡ ret (err e)) × (e.byte_offset ≡ o))
    go (ret (ok (p, w))) e = inl (p, w, e)
    go (ret (err x)) e = inr (x, e, decode_checked-error bs o x e)
    go panic e = let (b, here) = get_elem?-some bs o h in unfold decode_checked in ground arith
    go stuck e = let (b, here) = get_elem?-some bs o h in unfold decode_checked in ground arith

wtf8_loop-Scans :
    (fuel : ℕ) (bs : List ℕ) (offset start : ℕ)
    → offset ≤ length bs
    → length bs < offset + fuel
    → Scans bs offset start (wtf8_loop fuel bs offset start)
unfolding wtf8_loop wtf8_round
wtf8_loop-Scans zero bs offset start h1 h2 = absurd (omega arith)
wtf8_loop-Scans (suc fuel) bs offset start h1 h2 = elim (Bool-cases (ltb offset (length bs))) [
  | inr end ↦ rw end (
      valid [] start tt (nil_of_length (drop offset bs) (ground (arith, length-drop offset bs)))
        (omega arith))
  | inl more ↦ elim (decode_checked-returns bs offset (ground arith)) [
    | inl (p, w, e) ↦
        let (hp, hw, split) = decode_checked_sound bs (drop offset bs) offset p w refl e in
        let bound : offset + w ≤ length bs = omega (
          arith,
          length-drop offset bs,
          ap (length {A = ℕ}) split,
          length-append {0} (encode p) (drop w (drop offset bs)),
          length-drop w (drop offset bs),
        ) in
        rw (more, e, hw)
          (Scans-cons bs offset start p _ hp
            (split
              ∙ ap (λ t. encode p ++ t)
                  (sym (drop-drop offset w bs) ∙ ap (λ k. drop (offset + k) bs) hw))
            (wtf8_loop-Scans fuel bs (offset + length (encode p)) (start + len_utf16_of p)
              (omega arith) (omega (arith, length-encode p))))
    | inr (x, e, at) ↦
        rw (more, e)
          (invalid [] (drop offset bs) x tt refl (omega arith) (ap (decode_checked bs) at ∙ e))
  ]
]

wtf8_loop-encode_all :
    (fuel : ℕ) (ps bs : List ℕ) (offset start : ℕ)
    → All IsPoint ps
    → drop offset bs ≡ encode_all ps
    → offset ≤ length bs
    → length bs < offset + fuel
    → wtf8_loop fuel bs offset start ≡ ret (ok (start + length (units_of ps)))
unfolding wtf8_loop wtf8_round
wtf8_loop-encode_all zero ps bs offset start all e b h = absurd (omega arith)
wtf8_loop-encode_all (suc fuel) [] bs offset start all e b h =
    ground (arith, length-drop offset bs, ap (length {A = ℕ}) e)
wtf8_loop-encode_all (suc fuel) (p ∷ ps) bs offset start all e b h = ground (
  arith,
  length-drop offset bs,
  ap (length {A = ℕ}) e,
  length-append (encode p) (encode_all ps),
  length-encode p,
  decode_checked-encode bs offset p (encode_all ps) all.0 e,
  wtf8_loop-encode_all fuel ps bs (offset + length (encode p)) (start + len_utf16_of p) all.1,
  drop-drop offset (length (encode p)) bs,
  ap (drop (length (encode p))) e,
  drop-append (encode p) (encode_all ps),
  length-append (point_units p) (units_of ps),
  length-point_units p,
)

-- As many bytes as units means that every byte is an ASCII character.
pub IsAscii-points :
    (ps : List ℕ)
    → (length (units_of ps) ≤ length (encode_all ps))
      × (length (units_of ps) ≡ length (encode_all ps)
          → (encode_all ps ≡ units_of ps) × All IsAscii (units_of ps))
unfolding encode
IsAscii-points [] = (omega arith, λ h. (refl, tt))
IsAscii-points (p ∷ ps) =
    let (le, eq) = IsAscii-points ps in
    ground
      (arith, length-append (encode p) (encode_all ps), length-append (point_units p) (units_of ps))

pub Holds-counted :
    (ps bs : List ℕ)
    → All IsPoint ps
    → bs ≡ encode_all ps
    → length bs < half_bit
    → Holds (counted bs (length (units_of ps))) (units_of ps)
unfolding counted
Holds-counted ps bs all e fits = elim (Bool-cases (length (units_of ps) == length bs)) [
  | inl same ↦
      let (eq, small) = (IsAscii-points ps).1 (ground (arith, ap (length {A = ℕ}) e)) in
      record { holds = rw same (e ∙ eq, small); counted = refl }
  | inr wide ↦ record {
    holds = rw wide (fits, (ps, record { before = tt; after = all; stored = e; logical = refl }));
    counted = refl;
  }
]

pub wtf8_lem :
    (ps : List ℕ)
    → All IsPoint ps
    → wtf8 (encode_all ps) ≡ ret (ok (counted (encode_all ps) (length (units_of ps))))
unfolding wtf8 wtf8_view
wtf8_lem ps all =
    ground
      (arith, wtf8_loop-encode_all (suc (length (encode_all ps))) ps (encode_all ps) 0 0 all refl)

-- `Input::wtf8` accepts every string of encoded code points, surrogates among them and in pairs
-- too, and the view holds their UTF-16 units.
pub wtf8-Holds :
    (ps : List ℕ)
    → All IsPoint ps
    → length (encode_all ps) < half_bit
    → (i : Input) × (wtf8 (encode_all ps) ≡ ret (ok i)) × Holds i (units_of ps)
wtf8-Holds ps all fits = (
  counted (encode_all ps) (length (units_of ps)),
  wtf8_lem ps all,
  Holds-counted ps (encode_all ps) all refl fits,
)

pub data Judged (bs : List ℕ) : Run (Checked Input) → Type 0 where
  accepted :
      (ps : List ℕ) (i : Input)
      → All IsPoint ps
      → bs ≡ encode_all ps
      → Holds i (units_of ps)
      → Judged bs (ret (ok i))
  rejected :
      (ps rest : List ℕ) (e : EncodingError)
      → All IsPoint ps
      → bs ≡ encode_all ps ++ rest
      → e.byte_offset ≡ length (encode_all ps)
      → rest ≢ []
      → ((p : ℕ) (more : List ℕ) → IsPoint p → rest ≢ encode p ++ more)
      → ((qs : List ℕ) → All IsPoint qs → bs ≢ encode_all qs)
      → Judged bs (ret (err e))

abbrev run_err : EncodingError → Run (Checked ℕ)
run_err e = ret (err e)

err_not_ok : {e : EncodingError} {n : ℕ} → run_err e ≢ ret (ok n)
err_not_ok h = cc

append_nil : (xs : List ℕ) → xs ++ [] ≡ xs
append_nil [] = refl
append_nil (x ∷ xs) = ap (λ t. x ∷ t) (append_nil xs)

Scans-Judged :
    (bs : List ℕ) (run : Run (Checked ℕ))
    → length bs < half_bit
    → ((qs : List ℕ) → All IsPoint qs → bs ≡ encode_all qs → run ≡ ret (ok (length (units_of qs))))
    → Scans bs 0 0 run
    → Judged bs (run >>= λ n. ret (wtf8_view bs n))
unfolding wtf8_view
Scans-Judged bs _ fits takes (valid ps n all stored count) =
    let e : n ≡ length (units_of ps) = omega arith in
    accepted ps (counted bs n) all stored (rw e (Holds-counted ps bs all stored fits))
Scans-Judged bs _ fits takes (invalid ps rest e all stored at fails) =
    rejected ps rest e all stored (omega arith)
      (λ end. absurd (
        err_not_ok
          (takes ps all (stored ∙ ap (λ t. encode_all ps ++ t) end ∙ append_nil (encode_all ps)))))
      (λ p more hp eq.
        let here : drop e.byte_offset bs ≡ encode p ++ more =
          ap (λ k. drop k bs) at
          ∙ ap (λ k. drop k bs) (omega arith)
          ∙ ap (drop (length (encode_all ps))) stored
          ∙ drop-append (encode_all ps) rest
          ∙ eq in
        cc (fails, decode_checked-encode bs e.byte_offset p more hp here))
      (λ qs every same. err_not_ok (takes qs every same))

-- Every byte string shorter than half the address space is judged by `Input::wtf8`: either it is the
-- encodings of some code points and its view holds their units, or it is the encodings of no list of
-- code points at all, and the error names an offset inside it where no encoded code point stands,
-- behind a part that is such encodings.
pub wtf8-Judged : (bs : List ℕ) → length bs < half_bit → Judged bs (wtf8 bs)
unfolding wtf8
wtf8-Judged bs fits =
    Scans-Judged bs (wtf8_loop (suc (length bs)) bs 0 0) fits
      (λ qs every same.
        wtf8_loop-encode_all (suc (length bs)) qs bs 0 0 every same (omega arith) (omega arith)
        ∙ ap (λ n. ret (ok n)) (omega arith))
      (wtf8_loop-Scans (suc (length bs)) bs 0 0 (omega arith) (omega arith))

-- What Rust promises of a `&str`: its bytes are the encodings of its characters.
pub record IsStr (text : Str) : Type 0 where
  pub points : All IsPoint text.chars
  pub encoded : text.as_bytes ≡ encode_all text.chars
  pub fits : length text.as_bytes < half_bit

sum_utf16_lem : (cs : List ℕ) → sum_utf16 cs ≡ length (units_of cs)
unfolding sum_utf16
sum_utf16_lem [] = refl
sum_utf16_lem (c ∷ cs) =
    ground
      (arith, sum_utf16_lem cs, length-append (point_units c) (units_of cs), length-point_units c)

-- The view of a `&str` holds the UTF-16 units of its characters, and is the very view that the
-- validation of its bytes gives.
pub utf8-Holds :
    (text : Str)
    → IsStr text
    → Holds (utf8 text) (units_of text.chars) × (wtf8 text.as_bytes ≡ ret (ok (utf8 text)))
unfolding utf8 wtf8 wtf8_view
utf8-Holds text h = (
  rw (sum_utf16_lem text.chars) (Holds-counted text.chars text.as_bytes h.points h.encoded h.fits),
  ground (
    arith,
    sum_utf16_lem text.chars,
    h.encoded,
    wtf8_loop-encode_all (suc (length text.as_bytes)) text.chars text.as_bytes 0 0 h.points
        h.encoded,
  ),
)
