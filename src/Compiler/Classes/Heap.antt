-- ===== src/Compiler/Classes/Heap.antt =====
-- The heapsort of `normalize_class` in src/compiler/classes.rs: the ranges in the order of their lower
-- bounds, at a cost that is linear in their number times the depth of the heap.
use perex.Base.{ℕ, zero, suc, ◌+◌, ◌-◌, ◌*◌, ◌/◌, ◌^◌, ◌≤◌, ◌<◌, ◌≡◌, ap, arith, List}
use perex.Base.{length}
use native.Mathlib.Nat.{mul-le-mul_left}
use perex.Compiler.Monad.Spending.{Ends, ends, Ends-bind, Ends-map}
use perex.Compiler.Classes.{Slice, heapify, drain, heapsort}
use perex.Compiler.Classes.Slots.{
  left, low, swapped, swap-swapped, low-swapped, length-swapped, Shuffled, Shuffled-refl,
  Shuffled-trans, Shuffled-wider, swapped-Shuffled,
}
use perex.Compiler.Classes.Sift.{parent, IsHeapFrom, DownInv, sift-Ends}

-- The lower bounds before `count` do not fall.
abbrev pub IsSorted : ℕ → List (ℕ × ℕ) → Type 0
IsSorted count a = (i j : ℕ) → i < j → j < count → low a i ≤ low a j

wide : (root k count : ℕ) → count ≤ 2 ^ k → count ≤ (root + 1) * 2 ^ k
wide root k count h = wider root (2 ^ k) count h
  where
    wider : (root q count : ℕ) → count ≤ q → count ≤ (root + 1) * q
    wider root q count h = grind arith

heapify-Ends :
    (n count k : ℕ) (s : Slice)
    → count ≤ length s.ranges
    → count ≤ 2 ^ k
    → IsHeapFrom n count s.ranges
    → Ends left
        (n * (2 * k))
        s
        (λ u t. Shuffled count s.ranges t.ranges × IsHeapFrom 0 count t.ranges)
        (heapify n count s)
unfolding heapify
heapify-Ends zero count k s l p h = ends tt s (Shuffled-refl count s.ranges, h) (omega arith)
heapify-Ends (suc n) count k s l p h =
    Ends-bind (2 * k) (n * (2 * k)) (omega arith)
      (sift-Ends (suc count) n n count k s l (omega arith) (wide n k count p) (record {
        edges = λ c p q r w. h c p q (omega arith);
        bridged = λ c p q r w z. absurd (omega arith);
      }))
      λ u t (q, r).
        Ends-map (omega arith) (heapify-Ends n count k t (omega (arith, q.same_length)) p r)
          λ u b (x, y). (Shuffled-trans q x, y)

root_most :
    (fuel end : ℕ) (a : List (ℕ × ℕ)) (i : ℕ)
    → IsHeapFrom 0 end a
    → i < fuel
    → i < end
    → low a i ≤ low a 0
root_most zero end a i h f p = absurd (omega arith)
root_most (suc fuel) end a i h f p = ground (arith, h i, root_most fuel end a (parent i) h)

-- Up to `n` a heap, after it the largest ranges in order.
record Drained (n count : ℕ) (a : List (ℕ × ℕ)) : Type 0 where
  heap : IsHeapFrom 0 (suc n) a
  tail : (i j : ℕ) → n < i → i < j → j < count → low a i ≤ low a j
  split : (i j : ℕ) → i ≤ n → n < j → j < count → low a i ≤ low a j

swap-DownInv :
    (n : ℕ) (a : List (ℕ × ℕ))
    → suc n < length a
    → IsHeapFrom 0 (suc (suc n)) a
    → DownInv 0 (suc n) (swapped a 0 (suc n)) 0
swap-DownInv n a l h =
    let there = low-swapped a 0 (suc n) (omega arith) l in
    record {
      edges = λ c p q r t. ground (arith, there c, there (parent c), h c);
      bridged = λ c p q r t u. absurd (omega arith);
    }

drain_round :
    (n count : ℕ) (a b : List (ℕ × ℕ))
    → suc n < count
    → count ≤ length a
    → Drained (suc n) count a
    → Shuffled (suc n) (swapped a 0 (suc n)) b
    → IsHeapFrom 0 (suc n) b
    → Drained n count b
drain_round n count a b p l d s h =
    let there = low-swapped a 0 (suc n) (omega arith) (omega arith) in
    let after : (j : ℕ) → n < j → low b j ≡ low (swapped a 0 (suc n)) j =
      λ j k. ap (λ r. r.0) (s.outside j (omega arith)) in
    let most : (j : ℕ) → j ≤ suc n → low a j ≤ low a 0 =
      λ j k. root_most (suc j) (suc (suc n)) a j d.heap (omega arith) (omega arith) in
    record {
      heap = h;
      tail =
          λ i j p q r. ground (arith, after i, after j, there i, there j, d.tail i j, d.split 0 j);
      split = λ i j p q r.
          let (c, k, e) = s.from i (omega arith) in
          let e2 : low b i ≡ low (swapped a 0 (suc n)) c = ap (λ r. r.0) e in
          ground (
            arith,
            after j,
            there j,
            there c,
            most c,
            most (suc n),
            d.split c j,
            d.split (suc n) j,
          );
    }

drain-Ends :
    (n count k : ℕ) (s : Slice)
    → count ≤ length s.ranges
    → n < count
    → count ≤ 2 ^ k
    → Drained n count s.ranges
    → Ends left
        (n * (2 * k))
        s
        (λ u t. Shuffled count s.ranges t.ranges × IsSorted count t.ranges)
        (drain n s)
unfolding drain
drain-Ends zero count k s l m p d =
    ends tt s (Shuffled-refl count s.ranges, λ i j q r. ground (arith, d.tail i j, d.split i j))
      (omega arith)
drain-Ends (suc n) count k s l m p d =
    let length_kept = length-swapped s.ranges 0 (suc n) (omega arith) (omega arith) in
    rw (swap-swapped s 0 (suc n) (omega arith) (omega arith)) (
      Ends-map {n = 2 * k + n * (2 * k)} {s = s}
        {t = record s { ranges = swapped s.ranges 0 (suc n) }} (omega arith)
        (Ends-bind (2 * k) (n * (2 * k)) (omega arith)
          (sift-Ends (suc (suc n)) 0 0 (suc n) k (record s { ranges = swapped s.ranges 0 (suc n) })
            (omega (arith, length_kept)) (omega arith) (wide 0 k (suc n) (omega arith))
            (swap-DownInv n s.ranges (omega arith) d.heap))
          λ u t (q, r).
            let wide_kept =
              Shuffled-trans (swapped-Shuffled s.ranges count 0 (suc n) (omega arith) m l)
                (Shuffled-wider (omega arith) q) in
            Ends-map (omega arith)
              (drain-Ends n count k t (omega (arith, wide_kept.same_length)) (omega arith) p
                (drain_round n count s.ranges t.ranges m l d q r))
              λ u b (x, y). (Shuffled-trans wide_kept x, y))
        λ u b x. x)

-- Of a slice of at most 2 to the `k` ranges, the heapsort keeps the same ranges, in the order of their
-- lower bounds, on `3 * k` units for each; a smaller budget ends it with `WorkLimit`, and nothing else
-- does: every index is in range.
pub heapsort-IsSorted :
    (count k : ℕ) (s : Slice)
    → 0 < count
    → count ≤ length s.ranges
    → count ≤ 2 ^ k
    → Ends left
        (count * (3 * k))
        s
        (λ u t. Shuffled count s.ranges t.ranges × IsSorted count t.ranges)
        (heapsort count s)
unfolding heapsort
heapsort-IsSorted count k s z l p =
    Ends-bind (count / 2 * (2 * k)) ((count - 1) * (2 * k))
      (total count (count / 2) k (omega arith))
      (heapify-Ends (count / 2) count k s l p (λ c p q r. absurd (omega arith)))
      λ u t (q, r).
        Ends-map (omega arith)
          (drain-Ends (count - 1) count k t (omega (arith, q.same_length)) (omega arith) p (record {
            heap = λ c p q w. r c p (omega arith) w;
            tail = λ i j p q r. absurd (omega arith);
            split = λ i j p q r. absurd (omega arith);
          }))
          λ u b (x, y). (Shuffled-trans q x, y)
  where
    total :
        (count half k : ℕ)
        → 2 * half ≤ count
        → half * (2 * k) + (count - 1) * (2 * k) ≤ count * (3 * k)
    total count half k h =
        let more : k * (2 * half) ≤ k * count = mul-le-mul_left k h in
        let fewer : k * (count - 1) ≤ k * count = mul-le-mul_left k (omega arith) in omega arith
