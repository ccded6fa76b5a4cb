-- ===== src/Compiler/Classes/Rounds.antt =====
-- The merge loop of src/compiler/classes.rs, round by round: one unit for each range, and no index out of
-- range.
use perex.Base.{
  ℕ, zero, suc, ◌+◌, ◌-◌, max, leb, ◌≤◌, ◌<◌, ◌≡◌, inl, inr, refl, sym, ap, arith, List, Bool-cases,
}
use perex.Base.{length, set}
use mathlib.Core.Path.{subst}
use perex.Compiler.Monad.Spending.{Ends, ends, Ends-bind}
use perex.Compiler.Classes.{Slice, successor, merge_next, merge_one, merge}
use perex.Compiler.Classes.Slots.{left, at, low, get_elem?-at, charge-Ends}
use perex.Compiler.Classes.Heap.{IsSorted}
use perex.Compiler.Classes.Merge.{high, IsValid, Merged, at_next, kept, joined}

same_last : (p last : ℕ) → suc p ≡ suc last → p ≡ last
same_last p last e = omega arith

module _ (count i : ℕ) (a : List (ℕ × ℕ)) (inside : i < count) (long : count ≤ length a)
    (sorted : IsSorted count a) (proper : IsValid count a) where
  merge_next-Ends :
      (used : ℕ) (t : Slice)
      → Merged count i used a t.ranges
      → Ends left 0 t
          (λ used u. Merged count (suc i) used a u.ranges)
          (merge_next used (at t.ranges i) t)
  merge_next-Ends zero t m =
      let next = at_next count i 0 a t.ranges inside long sorted proper m in
      ends 1 _
        (subst (λ r. Merged count (suc i) 1 a (set t.ranges 0 r)) (sym next)
          (kept count i 0 a t.ranges inside long sorted proper m (λ p e. absurd (omega arith))))
        (omega arith)
  merge_next-Ends (suc last) t m =
      let next = at_next count i (suc last) a t.ranges inside long sorted proper m in
      let lows = ap (λ r. r.0) next in
      let highs = ap (λ r. r.1) next in
      let same = m.same_length in
      let fewer = m.fewer in
      let valid = proper i inside in
      rw (get_elem?-at t.ranges last (omega arith))
        elim (Bool-cases (leb (low t.ranges i) (successor (high t.ranges last)))) [
          | inl b ↦
              let e : suc last - 1 ≡ last = omega arith in
              rw (b, e, get_elem?-at t.ranges last (omega arith))
                (ends (suc last) _
                  (subst
                    (λ n.
                      Merged count (suc i) (suc last) a
                        (set t.ranges last (low t.ranges last, max (high t.ranges last) n)))
                    (sym highs)
                    (joined count i (suc last) a t.ranges inside long sorted proper m last refl
                      (ground arith)))
                  (omega arith))
          | inr b ↦ rw b (
              ends (suc (suc last)) _
                (subst (λ r. Merged count (suc i) (suc (suc last)) a (set t.ranges (suc last) r))
                  (sym next)
                  (kept count i (suc last) a t.ranges inside long sorted proper m
                    (λ p e. let f = ap (high t.ranges) (same_last p last e) in ground arith)))
                (omega arith))
        ]

  merge_one-Ends :
      (used : ℕ) (s : Slice)
      → Merged count i used a s.ranges
      → Ends left 1 s (λ used t. Merged count (suc i) used a t.ranges) (merge_one i used s)
  unfolding merge_one
  merge_one-Ends used s m = Ends-bind 1 0 (omega arith) (charge-Ends s) λ u t e.
      let m2 = subst (Merged count i used a) (sym e) m in
      let same = m2.same_length in
      rw (get_elem?-at t.ranges i (omega arith)) (merge_next-Ends used t m2)

pub merge-Ends :
    (n count i used : ℕ) (a : List (ℕ × ℕ)) (s : Slice)
    → i + n ≡ count
    → count ≤ length a
    → IsSorted count a
    → IsValid count a
    → Merged count i used a s.ranges
    → Ends left n s (λ used t. Merged count count used a t.ranges) (merge n i used s)
unfolding merge
merge-Ends zero count i used a s e long sorted proper m =
    let f : i ≡ count = omega arith in
    ends used s (subst (λ i. Merged count i used a s.ranges) f m) (omega arith)
merge-Ends (suc n) count i used a s e long sorted proper m =
    Ends-bind 1 n (omega arith) (merge_one-Ends count i a (omega arith) long sorted proper used s m)
      λ used t m2. merge-Ends n count (suc i) used a t (omega arith) long sorted proper m2

pub nothing_merged : (count : ℕ) (a : List (ℕ × ℕ)) → Merged count 0 0 a a
nothing_merged count a = record {
  same_length = refl;
  fewer = omega arith;
  rest = λ j h. refl;
  valid = λ p h. absurd (omega arith);
  apart = λ p q h k. absurd (omega arith);
  behind = λ p q h k l. absurd (omega arith);
  sound = λ p c h k l. absurd (omega arith);
  whole = λ q h. absurd (omega arith);
}
