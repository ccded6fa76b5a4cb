-- ===== src/Executor/Search/Captures.antt =====
-- The captures of a finished search of src/executor.rs, one at a time and together.
use perex.Base.{
  ℕ, zero, suc, ◌-◌, ◌+◌, ◌*◌, ◌≤◌, ◌<◌, ◌≡◌, refl, sym, ap, ◌∙◌, arith, List, [], ◌∷◌, ◌++◌,
  Option, none, some,
}
use perex.Base.{
  get_elem?, get_elem?-some, get_elem?-drop, drop-drop, get_elem?-append_right, drop, length, ret,
  le→ltb, lt→leb,
}
use perex.Span.{Span}
use perex.Executor.Monad.{ok}
use perex.Executor.Search.{
  Search, capture_count, require_match, capture, copy_match_registers, copy_captures, span_of,
  spans_from,
}

-- The spans of `n` captures from `i` on, as `capture` gives them.
pub record Copied (s : Search) (output out : List (Option Span)) (count : ℕ) : Type 0 where
  pub each :
      (i : ℕ)
      → i < count
      → (span : Option Span) × (get_elem? out i ≡ some span) × (capture s i ≡ ret (ok span))
  pub others : (i : ℕ) → count ≤ i → get_elem? out i ≡ get_elem? output i

-- What the registers have of a capture, and its span.
abbrev Spans : List ℕ → ℕ → List (Option Span) → ℕ → Type 0
Spans rs i spans j =
    (lo hi : ℕ) × (get_elem? rs ((i + j) * 2) ≡ some lo)
    × (get_elem? rs ((i + j) * 2 + 1) ≡ some hi)
    × (get_elem? spans j ≡ some (span_of lo hi))

Spans-cons :
    (rs : List ℕ) (i n lo hi : ℕ) (spans : List (Option Span))
    → get_elem? rs (i * 2) ≡ some lo
    → get_elem? rs (i * 2 + 1) ≡ some hi
    → ((j : ℕ) → j < n → Spans rs (suc i) spans j)
    → (j : ℕ) → j < suc n
    → Spans rs i (span_of lo hi ∷ spans) j
Spans-cons rs i n lo hi spans a b g zero k =
    let z : (i + zero) * 2 ≡ i * 2 = omega arith in (lo, hi, (rw z a), (rw z b), refl)
Spans-cons rs i n lo hi spans a b g (suc j) k =
    let z : (i + suc j) * 2 ≡ (suc i + j) * 2 = omega arith in
    let (x, y, p, q, r) = g j (omega arith) in (x, y, (rw z p), (rw z q), r)

spans_from-each :
    (rs : List ℕ) (i n : ℕ)
    → (i + n) * 2 ≤ length rs
    → (spans : List (Option Span)) × (spans_from rs i n ≡ ret spans)
      × (length spans ≡ n)
      × ((j : ℕ) → j < n → Spans rs i spans j)
unfolding spans_from
spans_from-each rs i zero h = ([], refl, refl, λ j k. absurd (omega arith))
spans_from-each rs i (suc n) h =
    let (lo, a) = get_elem?-some rs (i * 2) (omega arith) in
    let (hi, b) = get_elem?-some rs (i * 2 + 1) (omega arith) in
    let (spans, e, l, g) = spans_from-each rs (suc i) n (omega arith) in
    (
      span_of lo hi ∷ spans,
      (rw (a, b, e) refl),
      omega (arith, l),
      Spans-cons rs i n lo hi spans a b g,
    )

get_elem?-append_left :
    {A : Type 0} (xs ys : List A) (i : ℕ) {x : A}
    → get_elem? xs i ≡ some x
    → get_elem? (xs ++ ys) i ≡ some x
get_elem?-append_left [] ys i h = cc
get_elem?-append_left (x ∷ xs) ys zero h = h
get_elem?-append_left (x ∷ xs) ys (suc i) h = get_elem?-append_left xs ys i h

get_elem?-drop_add :
    {A : Type 0} (xs : List A) (c k : ℕ) → get_elem? (drop c xs) k ≡ get_elem? xs (c + k)
get_elem?-drop_add xs c k =
    get_elem?-drop (drop c xs) k
    ∙ ap (λ ys. get_elem? ys 0) (sym (drop-drop c k xs))
    ∙ sym (get_elem?-drop xs (c + k))

get_elem?-others :
    {A : Type 0} (xs ys : List A) (c i : ℕ)
    → length xs ≡ c
    → c ≤ i
    → get_elem? (xs ++ drop c ys) i ≡ get_elem? ys i
get_elem?-others xs ys c i n h =
    let z : length xs + (i - c) ≡ i = omega arith in
    let w : c + (i - c) ≡ i = omega arith in
    ap (λ j. get_elem? (xs ++ drop c ys) j) (sym z)
    ∙ get_elem?-append_right xs (drop c ys) (i - c)
    ∙ get_elem?-drop_add ys c (i - c)
    ∙ ap (λ j. get_elem? ys j) w

capture-span_of :
    (s : Search) (count i lo hi : ℕ)
    → capture_count s ≡ ret count
    → require_match s ≡ none
    → i < count
    → get_elem? s.buffers.registers (i * 2) ≡ some lo
    → get_elem? s.buffers.registers (i * 2 + 1) ≡ some hi
    → capture s i ≡ ret (ok (span_of lo hi))
unfolding capture
capture-span_of s count i lo hi c m k p q = rw (m, capture) rw (c, lt→leb count i k, p, q) refl

-- After a match whose registers are all there, `copy_captures` into an output that is long enough
-- succeeds: each of its first places has what `capture` gives for that index, and the other places are
-- what they were.
pub copy_captures-Copied :
    (s : Search) (output : List (Option Span)) (count : ℕ)
    → capture_count s ≡ ret count
    → require_match s ≡ none
    → count * 2 ≤ length s.buffers.registers
    → count ≤ length output
    → (out : List (Option Span)) × (copy_captures s output ≡ ret (ok out))
      × Copied s output out count
unfolding copy_captures copy_match_registers
copy_captures-Copied s output count c m l h =
    let rs : List ℕ = s.buffers.registers in
    let (spans, e, n, g) = spans_from-each rs 0 count (omega arith) in
    (
      spans ++ drop count output,
      (rw (c, le→ltb (length output) count h, m) rw
          (le→ltb (length output) count h, le→ltb (length rs) (count * 2) l, e) refl),
      record {
        each = λ i k.
            let (lo, hi, p, q, r) = g i k in
            let z : i * 2 ≡ (0 + i) * 2 = omega arith in
            (
              span_of lo hi,
              get_elem?-append_left spans (drop count output) i r,
              capture-span_of s count i lo hi c m k (rw z p) (rw z q),
            );
        others = λ i k. get_elem?-others spans output count i n k;
      },
    )
