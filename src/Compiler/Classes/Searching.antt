-- ===== src/Compiler/Classes/Searching.antt =====
-- A class that `normalize_class` of src/compiler/classes.rs made, under the binary search of a sorted
-- class in src/executor.rs.
use perex.Base.{
  ℕ, suc, ◌+◌, ◌-◌, ◌^◌, ◌≤◌, ◌<◌, ◌≡◌, ◌↔◌, inl, inr, refl, sym, ap, ◌∙◌, arith, List, Option,
  some, Bool, true, false,
}
use perex.Base.{length, get_elem?, Run, ret}
use mathlib.Core.Path.{subst}
use perex.Executor.Machine.{Vm}
use perex.Executor.Monad
use perex.Executor.Store.Laws.{spent}
use perex.Executor.Classes.{search_range}
use perex.Executor.Classes.Sorted.{IsOrdered, Searched, found, absent, search_range-Searched}
use perex.Compiler.Monad.{ok, Result}
use perex.Compiler.Monad.Spending.{Ends, ends, short}
use perex.Compiler.Classes.{Slice, normalize}
use perex.Compiler.Classes.Slots.{left, get_elem?-at}
use perex.Compiler.Classes.Merge.{IsValid, Has}
use perex.Compiler.Classes.Scan.{IsPlain}
use perex.Compiler.Classes.Normalize.{Normalized, normalize-Normalized, at-get_elem?}

-- The ranges stand in the program from `start` on.
abbrev pub IsPlaced : ℕ → ℕ → List (ℕ × ℕ) → List (ℕ × ℕ) → Type 0
IsPlaced start used rs all = (i : ℕ) → i < used → get_elem? all (start + i) ≡ get_elem? rs i

-- The search's answer, which is whether the class has the character.
pub record Answers (s : Slice) (c : ℕ) (vm : Vm) (end : Run (Monad.Result Bool × Vm)) : Type 0 where
  pub answer : Bool
  pub spending : ℕ
  pub outcome : end ≡ ret (Monad.ok answer, spent spending vm)
  pub right : (answer ≡ true) ↔ Has (length s.ranges) s.ranges c

module _ (s t : Slice) (used start c n : ℕ) (vm : Vm) (norm : Normalized s used t)
    (placed : IsPlaced start used t.ranges vm.sections.ranges) where
  back :
      (i lo hi : ℕ)
      → start ≤ i
      → i < start + used
      → get_elem? vm.sections.ranges i ≡ some (lo, hi)
      → get_elem? t.ranges (i - start) ≡ some (lo, hi)
  back i lo hi a b e =
      let f : start + (i - start) ≡ i = omega arith in
      sym (placed (i - start) (omega arith)) ∙ ap (get_elem? vm.sections.ranges) f ∙ e

  placed-IsOrdered : IsOrdered vm.sections.ranges start (start + used)
  placed-IsOrdered = (
    (λ i lo hi a b e.
        norm.ordered.0 (i - start) lo hi (omega arith) (omega arith) (back i lo hi a b e)),
    (λ i j lo hi lo2 hi2 a b d e f.
        norm.ordered.1 (i - start) (j - start) lo hi lo2 hi2 (omega arith) (omega arith)
          (omega arith) (back i lo hi a (omega arith) e) (back j lo2 hi2 (omega arith) d f)),
  )

  answered :
      {end : Run (Monad.Result Bool × Vm)}
      → Searched vm.sections.ranges start (start + used) c n vm end
      → Answers s c vm end
  answered (found i lo hi k a b e l m d) =
      let (x, y) = at-get_elem? t.ranges (i - start) lo hi (back i lo hi a b e) in
      record {
        answer = true;
        spending = k;
        outcome = refl;
        right = (
          (λ q. (norm.same c).0 (record {
            index = i - start;
            inside = omega arith;
            from = omega arith;
            to = omega arith;
          })),
          (λ q. refl),
        );
      }
  answered (absent none_in k d) = record {
    answer = false;
    spending = k;
    outcome = refl;
    right = (
      (λ q. cc),
      (λ h.
          let g = (norm.same c).1 h in
          let inside = g.inside in
          let here =
            placed g.index g.inside
            ∙ get_elem?-at t.ranges g.index (omega (arith, norm.fewer, norm.same_length)) in
          elim (none_in (start + g.index) _ _ (omega arith) (omega arith) here) [
            | inl z ↦ absurd (omega (arith, g.from))
            | inr z ↦ absurd (omega (arith, g.to))
          ]),
    );
  }

-- Where `normalize_class` ends well on a class of plain `u32` ranges, the binary search of the ranges that
-- it leaves, wherever a program places them, on a budget for their halvings, ends and answers whether a
-- range of the class has the character.
pub search_range-normalize :
    (k : ℕ) (s t : Slice) (used start c n : ℕ) (vm : Vm)
    → 0 < length s.ranges
    → length s.ranges ≤ 2 ^ k
    → IsValid (length s.ranges) s.ranges
    → IsPlain s.ranges
    → normalize s ≡ ret (ok (some used), t)
    → IsPlaced start used t.ranges vm.sections.ranges
    → start + used ≤ length vm.sections.ranges
    → used < 2 ^ n
    → n ≤ vm.budget.remaining
    → Answers s c vm (search_range (suc used) start (start + used) c vm)
search_range-normalize k s t used start c n vm many few valid plain e placed room small paid =
    let norm : Normalized s used t =
      normalized_of (normalize-Normalized k s many few valid plain) e in
    answered s t used start c n vm norm placed (
      search_range-Searched (suc used) start (start + used) c n vm
        (placed-IsOrdered s t used start c n vm norm placed) room (omega arith) (omega arith) paid)
  where
    normalized_of :
        {m : ℕ} {r : Run (Result (Option ℕ) × Slice)}
        → Ends left m s (λ o t. (used : ℕ) × (o ≡ some used) × Normalized s used t) r
        → r ≡ ret (ok (some used), t)
        → Normalized s used t
    normalized_of (ends o u (used2, f, m) l) e =
        let g : used2 ≡ used = cc in
        let h : u ≡ t = cc in subst (λ w. Normalized s used w) h (subst (λ n. Normalized s n u) g m)
    normalized_of (short u l) e = cc
