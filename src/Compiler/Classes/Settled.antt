-- ===== src/Compiler/Classes/Settled.antt =====
-- The sorts and the merge of src/compiler/classes.rs come to an end on any slice.
use perex.Base.{
  ℕ, zero, suc, ◌+◌, ◌-◌, ◌*◌, ◌/◌, ltb, leb, ◌≤◌, ◌<◌, ◌≡◌, refl, arith, Bool, true, false, inl,
  inr, if◌then◌else◌, Bool-cases, Option-cases, Option, none, some, List, [], ◌∷◌, length,
  get_elem?, Run, ret, not, ◌&&◌,
}
use perex.Base.{le→leb, lt→leb}
use perex.Base
use perex.Budget
use perex.Unicode.Search.{bit}
use perex.Compiler.Monad.{M, Result, chained, ◌>>=◌, pure}
use perex.Compiler.Monad.Settling.{
  Ending, done, failed, panicked, Ending-weaker, Settles, or_panic-Firm, lift-Settles,
  modify-Settles, seq-Settles, if-Settles, pure-Settles, settling,
}
use perex.Compiler.Classes.{
  Slice, charge, write, range_at, swap, is_before, larger_child, sift, heapify, drain, heapsort,
  joins, merge_one, merge, follows, in_order, normalize_sorted, normalized, normalize,
}
use perex.Compiler.Classes.Slots.{left}

module _ {n : ℕ} where
  pub charge-Settles : Settles left 0 n charge
  unfolding charge Budget.charge
  charge-Settles = record {
    at = λ s l. elim (Bool-cases (ltb 0 s.budget.remaining)) [
      | inl h ↦ rw (le→leb 1 s.budget.remaining (ground arith)) (done tt _ (ground arith))
      | inr h ↦ rw (lt→leb 1 s.budget.remaining (ground arith)) (failed _ _)
    ];
  }

  range_at-Settles : (i : ℕ) → Settles left 0 n (range_at i)
  range_at-Settles i = record {
    at = λ s l. (lift-Settles {n = n} _ (or_panic-Firm (get_elem? s.ranges i))).at s l;
  }

  write-Settles : (i : ℕ) (r : ℕ × ℕ) → Settles left 0 n (write i r)
  write-Settles i r = modify-Settles _ λ s. refl

ruleset slicing = (settling, charge-Settles, range_at-Settles, write-Settles)

module _ {n : ℕ} where
  pub is_before-Settles : (i j : ℕ) → Settles left 0 n (is_before i j)
  is_before-Settles i j = search slicing

  pub swap-Settles : (i j : ℕ) → Settles left 0 n (swap i j)
  unfolding swap
  swap-Settles i j = search slicing

  chosen-Ending :
      (root : ℕ) (f : ℕ → M Slice (Unit {0})) (s t : Slice)
      → ((m : ℕ) → root < m → Settles left 0 n (f m))
      → left t + 0 ≤ left s
      → left s < n
      → Ending left 0 s (
          Base.◌>>=◌
            ((is_before (root * 2 + 1) (root * 2 + 1 + 1)
                >>= (λ b. pure (if b then root * 2 + 1 + 1 else root * 2 + 1)))
              t)
            (chained f))
  chosen-Ending root f s t g l h = elim (Option-cases (get_elem? t.ranges (root * 2 + 1))) [
    | inl e ↦ rw e panicked
    | inr (x, e) ↦ elim (Option-cases (get_elem? t.ranges (root * 2 + 1 + 1))) [
      | inl e2 ↦ rw (e, e2) panicked
      | inr (y, e2) ↦
          rw (e, e2) (Ending-weaker 0 0 s t (omega arith) ((g _ (ground arith)).at t (omega arith)))
    ]
  ]

  -- What goes on from a child has a larger index than the root.
  larger_child-then :
      (root end : ℕ) (f : ℕ → M Slice (Unit {0}))
      → ((m : ℕ) → root < m → Settles left 0 n (f m))
      → Settles left 0 n (larger_child root end >>= f)
  unfolding larger_child
  larger_child-then root end f g = record {
    at = λ s l. elim (Bool-cases (ltb (root * 2 + 1 + 1) end)) [
      | inr t ↦ rw t ((g (root * 2 + 1) (omega arith)).at s l)
      | inl t ↦ rw t (go s l (charge-Settles.at s l))
    ];
  }
    where
      go :
          (s : Slice) {r : Run (Result (Unit {0}) × Slice)}
          → left s < n
          → Ending left 0 s r
          → Ending left 0 s (
              Base.◌>>=◌
                (Base.◌>>=◌ r (
                  chained (λ u.
                    is_before (root * 2 + 1) (root * 2 + 1 + 1)
                    >>= (λ b. pure (if b then root * 2 + 1 + 1 else root * 2 + 1)))))
                (chained f))
      go s l (done u t p) = chosen-Ending root f s t g p l
      go s l (failed e t) = failed e t
      go s l panicked = panicked

  sift-Settles : (fuel root end : ℕ) → end - root < fuel → Settles left 0 n (sift fuel root end)
  unfolding sift
  sift-Settles zero root end h = absurd (omega arith)
  sift-Settles (suc fuel) root end h = elim (Bool-cases (ltb root (end / 2))) [
    | inr t ↦ rw t (pure-Settles tt)
    | inl t ↦ rw t (
        larger_child-then root end _ λ m k. seq-Settles charge _ charge-Settles λ u.
          seq-Settles (is_before root m) _ (is_before-Settles root m) λ b.
            if-Settles b _ _
              (seq-Settles (swap root m) _ (swap-Settles root m)
                λ v. sift-Settles fuel m end (ground arith))
              (pure-Settles tt))
  ]

  heapify-Settles : (k count : ℕ) → Settles left 0 n (heapify k count)
  unfolding heapify
  heapify-Settles zero count = pure-Settles tt
  heapify-Settles (suc root) count =
      seq-Settles (sift (suc count) root count) _
        (sift-Settles (suc count) root count (omega arith)) λ u. heapify-Settles root count

  drain-Settles : (k : ℕ) → Settles left 0 n (drain k)
  unfolding drain
  drain-Settles zero = pure-Settles tt
  drain-Settles (suc k) = seq-Settles (swap 0 (suc k)) _ (swap-Settles 0 (suc k)) λ u.
      seq-Settles (sift (suc (suc k)) 0 (suc k)) _
        (sift-Settles (suc (suc k)) 0 (suc k) (omega arith)) λ v. drain-Settles k

  heapsort-Settles : (count : ℕ) → Settles left 0 n (heapsort count)
  unfolding heapsort
  heapsort-Settles count = search (settling, heapify-Settles, drain-Settles)

  joins-Settles : (used : ℕ) (next : ℕ × ℕ) → Settles left 0 n (joins used next)
  joins-Settles zero next = search slicing
  joins-Settles (suc last) next = search slicing

  merge_one-Settles : (i used : ℕ) → Settles left 0 n (merge_one i used)
  unfolding merge_one
  merge_one-Settles i used = search (slicing, joins-Settles) depth 10

  pub merge-Settles : (k i used : ℕ) → Settles left 0 n (merge k i used)
  unfolding merge
  merge-Settles zero i used = pure-Settles used
  merge-Settles (suc k) i used =
      seq-Settles (merge_one i used) _ (merge_one-Settles i used)
        λ used. merge-Settles k (suc i) used

  in_order-Settles :
      (rs : List (ℕ × ℕ)) (sorted : Bool) (previous : Option (ℕ × ℕ))
      → Settles left 0 n (in_order rs sorted previous)
  unfolding in_order
  in_order-Settles [] sorted previous = pure-Settles _
  in_order-Settles (r ∷ rs) sorted previous = seq-Settles charge _ charge-Settles λ u.
      if-Settles (bit r.0 30) _ _ (pure-Settles none)
        (in_order-Settles rs (sorted && follows previous r) (some r))

  normalized-Settles : (count : ℕ) (o : Option Bool) → Settles left 0 n (normalized count o)
  unfolding normalized normalize_sorted
  normalized-Settles count none = pure-Settles none
  normalized-Settles count (some sorted) = search (settling, heapsort-Settles, merge-Settles)

  pub normalize-Settles : Settles left 0 n normalize
  unfolding normalize
  normalize-Settles = search (settling, in_order-Settles, normalized-Settles)
