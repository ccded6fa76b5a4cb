-- ===== src/Compiler/Parser/Leaves/Settled.antt =====
-- The leaves of src/compiler.rs come to an end.
use perex.Base.{
  ℕ, zero, suc, ◌+◌, ◌-◌, ◌==◌, ltb, leb, ◌≡◌, refl, arith, Bool, true, false, not, ◌&&◌, ◌||◌,
  if◌then◌else◌, Option, none, some, List, [], ◌∷◌, length, get_elem?, Run, ret, panic, min,
  or_panic,
}
use perex.Base
use perex.Compiler.Monad.{M, Result, lift, with_state, ◌>>=◌}
use perex.Compiler.Monad.Settling.{
  returns, panics, Firm-bind, Firm-if, or_panic-Firm, Ending, done, failed, panicked, Ending-if,
  Settles, seq-Settles, if-Settles, pure-Settles, lift-Settles, modify-Settles, with_state-Settles,
  weaken-Settles, settling,
}
use perex.Compiler.Classes.{Slice, charge}
use perex.Compiler.Classes.Slots
use perex.Compiler.Classes.Settled.{
  charge-Settles, is_before-Settles, swap-Settles, merge-Settles, normalize-Settles,
}
use perex.Compiler.Parser.{Parser, step}
use perex.Compiler.Parser.Settled.{left, with_field-Settles, step_free, add-Settles, parsing}
use perex.Compiler.Parser.Leaves.{
  store_range, range, ranges_between, restored, on_slice, truncate, normalize_class, count_members,
  extend_or_add, added, fold_value, fold_values, fold_chars, fold_ranges, insert, insertion_sort,
  sort_and_merge, fold_closed, close_fold, add_leaf, normalized_leaf, closed_leaf, leaf,
}

module _ {n : ℕ} where
  store_range-Settles : (r : ℕ × ℕ) → Settles left 0 n (store_range r)
  unfolding store_range
  store_range-Settles r = record { at = λ p l. Ending-if _ (failed _ _) (done tt _ (omega arith)) }

  pub range-Settles : (lo hi : ℕ) → Settles left 0 n (range lo hi)
  unfolding range
  range-Settles lo hi = search (settling, step_free, store_range-Settles)

  ranges_between-Settles : (from to : ℕ) → Settles left 0 n (ranges_between from to)
  ranges_between-Settles from to = record {
    at = λ p l. (lift-Settles {n = n} _ (Firm-if _ (returns _) panics)).at p l;
  }

  on_slice-Settles :
      {A : Type 0} (from to : ℕ) (m : M Slice A)
      → Settles Slots.left 0 n m
      → Settles left 0 n (on_slice from to m)
  unfolding on_slice restored
  on_slice-Settles {A = A} from to m h =
      seq-Settles (ranges_between from to) _ (ranges_between-Settles from to)
        λ rs. record { at = λ p l. put p (h.at (record { ranges = rs; budget = p.budget }) l) }
    where
      put :
          (p : Parser) {rs : List (ℕ × ℕ)} {r : Run (Result A × Slice)}
          → Ending Slots.left 0 (record { ranges = rs; budget = p.budget }) r
          → Ending left 0 p (Base.◌>>=◌ r (restored from to p))
      put p (done a t h) = done a _ h
      put p (failed e t) = failed e _
      put p panicked = panicked

  truncate-Settles : (start : ℕ) (o : Option ℕ) → Settles left 0 n (truncate start o)
  unfolding truncate
  truncate-Settles start none = pure-Settles none
  truncate-Settles start (some used) =
      seq-Settles _ _ (modify-Settles _ λ s. refl) λ u. pure-Settles (some used)

  normalize_class-Settles : (start count : ℕ) → Settles left 0 n (normalize_class start count)
  unfolding normalize_class
  normalize_class-Settles start count =
      search (parsing, on_slice-Settles, normalize-Settles, truncate-Settles) depth 8

  count_members-Settles :
      (rs : List (ℕ × ℕ)) (members : ℕ) → Settles left 0 n (count_members rs members)
  unfolding count_members
  count_members-Settles [] members = pure-Settles true
  count_members-Settles ((lo, hi) ∷ rs) members = seq-Settles step _ step_free λ u.
      if-Settles _ _ _ (pure-Settles false) (
        if-Settles _ _ _ (lift-Settles _ panics)
          (if-Settles _ _ _ (pure-Settles false) (count_members-Settles rs _)))

  extend_or_add-Settles :
      (last value : ℕ) (o : Option (ℕ × ℕ)) → Settles left 0 n (extend_or_add last value o)
  unfolding extend_or_add
  extend_or_add-Settles last value none = range-Settles value value
  extend_or_add-Settles last value (some (lo, hi)) =
      if-Settles _ _ _ (modify-Settles _ λ s. refl) (range-Settles value value)

  added-Settles : (original : ℕ) → Settles left 0 n (added original)
  unfolding added
  added-Settles original = record {
    at = λ p l.
        Ending-if _
          ((lift-Settles {n = n} _
              (Firm-bind (or_panic-Firm (get_elem? p.ranges (p.range_used - 1))) λ r. returns _)).at
            p l)
          (done none p (omega arith));
  }

  fold_value-Settles :
      (start original c value : ℕ) → Settles left 0 n (fold_value start original c value)
  unfolding fold_value
  fold_value-Settles start original c value =
      search (parsing, ranges_between-Settles, added-Settles, extend_or_add-Settles) depth 10

  fold_values-Settles :
      (start original c : ℕ) (values : List ℕ)
      → Settles left 0 n (fold_values start original c values)
  unfolding fold_values
  fold_values-Settles start original c [] = pure-Settles tt
  fold_values-Settles start original c (value ∷ values) =
      seq-Settles _ _ (fold_value-Settles start original c value)
        λ u. fold_values-Settles start original c values

  fold_chars-Settles : (start original k c : ℕ) → Settles left 0 n (fold_chars start original k c)
  unfolding fold_chars
  fold_chars-Settles start original zero c = pure-Settles tt
  fold_chars-Settles start original (suc k) c = seq-Settles step _ step_free λ u.
      seq-Settles _ _ (with_state-Settles _ λ p. fold_values-Settles start original c _)
        λ v. fold_chars-Settles start original k (suc c)

  range_at-Settles :
      (index : ℕ) → Settles left 0 n (with_state (λ p. lift (or_panic (get_elem? p.ranges index))))
  range_at-Settles index = search settling

  fold_ranges-Settles :
      (start original k index : ℕ) → Settles left 0 n (fold_ranges start original k index)
  unfolding fold_ranges
  fold_ranges-Settles start original zero index = pure-Settles tt
  fold_ranges-Settles start original (suc k) index =
      seq-Settles _ _ (range_at-Settles index) λ (lo, hi).
        seq-Settles _ _ (fold_chars-Settles start original (suc hi - lo) lo)
          λ u. fold_ranges-Settles start original k (suc index)

  insert-Settles : (j : ℕ) → Settles Slots.left 0 n (insert j)
  unfolding insert
  insert-Settles zero = pure-Settles tt
  insert-Settles (suc j) = seq-Settles _ _ (is_before-Settles (suc j) j) λ b.
      if-Settles b _ _
        (seq-Settles charge _ charge-Settles
          λ u. seq-Settles _ _ (swap-Settles j (suc j)) λ v. insert-Settles j)
        (pure-Settles tt)

  insertion_sort-Settles : (k i : ℕ) → Settles Slots.left 0 n (insertion_sort k i)
  unfolding insertion_sort
  insertion_sort-Settles zero i = pure-Settles tt
  insertion_sort-Settles (suc k) i =
      seq-Settles _ _ (insert-Settles i) λ u. insertion_sort-Settles k (suc i)

  sort_and_merge-Settles : Settles Slots.left 0 n sort_and_merge
  unfolding sort_and_merge
  sort_and_merge-Settles = search (settling, insertion_sort-Settles, merge-Settles)

  closing-Settles :
      (start used : ℕ)
      → Settles left 0 n
          (on_slice start used sort_and_merge >>= (λ kept. truncate start (some kept)))
  closing-Settles start used =
      seq-Settles _ _ (on_slice-Settles start used sort_and_merge sort_and_merge-Settles)
        λ kept. truncate-Settles start (some kept)

  fold_closed-Settles : (start count : ℕ) → Settles left 0 n (fold_closed start count)
  unfolding fold_closed
  fold_closed-Settles start count =
      seq-Settles _ _ (fold_ranges-Settles start (start + count) count start)
        λ u. search (with_field-Settles, closing-Settles start)

  close_fold-Settles : (start count : ℕ) → Settles left 0 n (close_fold start count)
  unfolding close_fold
  close_fold-Settles start count =
      search (parsing, ranges_between-Settles, count_members-Settles, fold_closed-Settles) depth 10

  add_leaf-Settles : (kind a b flags : ℕ) → Settles left 1 n (add_leaf kind a b flags)
  unfolding add_leaf
  add_leaf-Settles kind a b flags = search (with_field-Settles, add-Settles)

  normalized_leaf-Settles :
      (a b flags : ℕ) (o : Option ℕ) → Settles left 1 n (normalized_leaf a b flags o)
  unfolding normalized_leaf
  normalized_leaf-Settles a b flags none = add_leaf-Settles _ a b flags
  normalized_leaf-Settles a b flags (some count) = add_leaf-Settles _ a _ _

  closed_leaf-Settles : (a b flags : ℕ) (o : Option ℕ) → Settles left 1 n (closed_leaf a b flags o)
  unfolding closed_leaf
  closed_leaf-Settles a b flags none =
      seq-Settles _ _ (normalize_class-Settles a _) λ o. normalized_leaf-Settles a b flags o
  closed_leaf-Settles a b flags (some count) =
      seq-Settles _ _ (normalize_class-Settles a _) λ o. normalized_leaf-Settles a _ _ o

  pub leaf-Settles : (kind a b : ℕ) → Settles left 1 n (leaf kind a b)
  unfolding leaf
  leaf-Settles kind a b =
      search
        (settling, with_field-Settles, close_fold-Settles, closed_leaf-Settles, add_leaf-Settles)
        depth 8

  pub leaf_free : (kind a b : ℕ) → Settles left 0 n (leaf kind a b)
  leaf_free kind a b = weaken-Settles _ (leaf-Settles kind a b)
