-- ===== src/Compiler/Classes/Normalize.antt =====
-- `normalize_class` of src/compiler/classes.rs: the ranges that it leaves stand in order and have the
-- characters that the class had.
use perex.Base.{
  ℕ, ◌+◌, ◌*◌, ◌^◌, ◌≤◌, ◌<◌, ◌≡◌, ◌↔◌, refl, sym, ap, ◌∙◌, arith, List, none, some, Bool, true,
  false,
}
use perex.Base.{length, get_elem?, get_elem?-lt}
use mathlib.Core.Path.{subst}
use mathlib.Core.Option.{some-injective}
use perex.Compiler.Monad.Spending.{Ends, ends, Ends-bind, Ends-map}
use perex.Compiler.Classes.{Slice, merge, normalize_sorted, normalized, normalize}
use perex.Compiler.Classes.Slots.{left, low, get_elem?-at, Shuffled, Shuffled-refl}
use perex.Compiler.Classes.Heap.{IsSorted, heapsort-IsSorted}
use perex.Compiler.Classes.Rounds.{merge-Ends, nothing_merged}
use perex.Compiler.Classes.Scan.{in_order-Ends, IsPlain}
use perex.Executor.Classes.Sorted.{IsOrdered}
use perex.Compiler.Classes.Merge.{high, IsValid, Has, Merged}

module _ {count : ℕ} {a b : List (ℕ × ℕ)} (s : Shuffled count a b) where
  Shuffled-IsValid : IsValid count a → IsValid count b
  Shuffled-IsValid v i h =
      let (d, k, e) = s.from i h in
      let lows = ap (λ r. r.0) e in
      let highs = ap (λ r. r.1) e in let (x, y) = v d k in (omega arith, omega arith)

  Shuffled-Has : (c : ℕ) → Has count b c ↔ Has count a c
  Shuffled-Has c = (
    (λ h.
        let (d, k, e) = s.from h.index h.inside in
        let lows = ap (λ r. r.0) e in
        let highs = ap (λ r. r.1) e in
        record { index = d; inside = k; from = omega (arith, h.from); to = omega (arith, h.to) }),
    (λ h.
        let (d, k, e) = s.onto h.index h.inside in
        let lows = ap (λ r. r.0) e in
        let highs = ap (λ r. r.1) e in
        record { index = d; inside = k; from = omega (arith, h.from); to = omega (arith, h.to) }),
  )

Merged-Has :
    (count used : ℕ) (a b : List (ℕ × ℕ)) (c : ℕ)
    → Merged count count used a b
    → Has used b c ↔ Has count a c
Merged-Has count used a b c m = (
  (λ h. m.sound h.index c h.inside h.from h.to),
  (λ h.
      let (p, k, x, y) = m.whole h.index h.inside in
      record { index = p; inside = k; from = omega (arith, h.from); to = omega (arith, h.to) }),
)

-- What a class comes to: so many ranges, in order and apart, with the same characters.
pub record Normalized (s : Slice) (used : ℕ) (t : Slice) : Type 0 where
  pub fewer : used ≤ length s.ranges
  pub same_length : length t.ranges ≡ length s.ranges
  pub ordered : IsOrdered t.ranges 0 used
  pub same : (c : ℕ) → Has used t.ranges c ↔ Has (length s.ranges) s.ranges c

pub at-get_elem? :
    (xs : List (ℕ × ℕ)) (i lo hi : ℕ)
    → get_elem? xs i ≡ some (lo, hi)
    → (low xs i ≡ lo) × (high xs i ≡ hi)
at-get_elem? xs i lo hi e =
    let l = get_elem?-lt xs i e in
    let f = some-injective _ _ (sym (get_elem?-at xs i l) ∙ e) in (ap (λ r. r.0) f, ap (λ r. r.1) f)

Merged-IsOrdered :
    (count used : ℕ) (a b : List (ℕ × ℕ)) → Merged count count used a b → IsOrdered b 0 used
Merged-IsOrdered count used a b m = (
  (λ i lo hi p q e. let (x, y) = at-get_elem? b i lo hi e in omega (arith, m.valid i q)),
  (λ i j lo hi lo2 hi2 p q r e f.
      let (x, y) = at-get_elem? b i lo hi e in
      let (z, w) = at-get_elem? b j lo2 hi2 f in omega (arith, m.apart i j q r)),
)

merged-Normalized :
    (used : ℕ) (s m t : Slice)
    → Shuffled (length s.ranges) s.ranges m.ranges
    → Merged (length s.ranges) (length s.ranges) used m.ranges t.ranges
    → Normalized s used t
merged-Normalized used s m t q r = record {
  fewer = r.fewer;
  same_length = r.same_length ∙ q.same_length;
  ordered = Merged-IsOrdered (length s.ranges) used m.ranges t.ranges r;
  same = λ c.
      let (f, g) = Merged-Has (length s.ranges) used m.ranges t.ranges c r in
      let (f2, g2) = Shuffled-Has q c in ((λ h. f2 (f h)), (λ h. g (g2 h)));
}

module _ (k : ℕ) (s : Slice) (many : 0 < length s.ranges) (few : length s.ranges ≤ 2 ^ k)
    (valid : IsValid (length s.ranges) s.ranges) where
  -- From the ranges in order, in whatever order they came.
  merge_sorted :
      (t : Slice)
      → Shuffled (length s.ranges) s.ranges t.ranges
      → IsSorted (length s.ranges) t.ranges
      → Ends left (length s.ranges) t (Normalized s) (merge (length s.ranges) 0 0 t)
  merge_sorted t q sorted =
      Ends-map (omega arith)
        (merge-Ends (length s.ranges) (length s.ranges) 0 0 t.ranges t (omega arith)
          (omega (arith, q.same_length)) sorted (Shuffled-IsValid q valid)
          (nothing_merged (length s.ranges) t.ranges))
        λ used u m. merged-Normalized used s t u q m

  normalize_sorted-Ends :
      (t : Slice) (sorted : Bool)
      → t.ranges ≡ s.ranges
      → (sorted ≡ true → IsSorted (length s.ranges) s.ranges)
      → Ends left
          (length s.ranges * (3 * k) + length s.ranges)
          t
          (Normalized s)
          (normalize_sorted (length s.ranges) sorted t)
  unfolding normalize_sorted
  normalize_sorted-Ends t true e o =
      Ends-map (omega arith)
        (merge_sorted t (subst (Shuffled _ s.ranges) (sym e) (Shuffled-refl _ s.ranges))
          (subst (IsSorted (length s.ranges)) (sym e) (o refl)))
        λ used u m. m
  normalize_sorted-Ends t false e o =
      Ends-bind (length s.ranges * (3 * k)) (length s.ranges) (omega arith)
        (heapsort-IsSorted (length s.ranges) k t many (omega (arith, ap length e)) few)
        λ u b (q, r). merge_sorted b (subst (λ a. Shuffled (length s.ranges) a b.ranges) e q) r

  -- A class of ranges of `u32`, at most 2 to the `k` of them and none a property, comes to ranges in order
  -- that do not meet and have the same characters; that takes at most `3 * k + 2` units for each range, a
  -- smaller budget may end it with `WorkLimit`, and nothing else goes wrong.
  pub normalize-Normalized :
      IsPlain s.ranges
      → Ends left
          (length s.ranges * (3 * k) + 2 * length s.ranges)
          s
          (λ o t. (used : ℕ) × (o ≡ some used) × Normalized s used t)
          (normalize s)
  unfolding normalize normalized
  normalize-Normalized plain =
      Ends-bind (length s.ranges) (length s.ranges * (3 * k) + length s.ranges) (omega arith)
        (in_order-Ends s.ranges true none s plain)
        λ o t x. rw (x.given) (
          Ends-bind (length s.ranges * (3 * k) + length s.ranges) 0 (omega arith)
            (normalize_sorted-Ends t x.answer x.kept_ranges (λ e. (x.ordered e).2))
            λ used u m. ends (some used) u (used, refl, m) (omega arith))
