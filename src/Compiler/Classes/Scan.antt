-- ===== src/Compiler/Classes/Scan.antt =====
-- The scan of `normalize_class` in src/compiler/classes.rs: whether the ranges are in order already.
use perex.Base.{
  ℕ, zero, suc, ◌≤◌, ◌<◌, ◌≡◌, refl, ◌∙◌, arith, List, [], ◌∷◌, Option, none, some, Bool, true,
  false, ◌&&◌,
}
use perex.Base.{length}
use perex.Unicode.Search.{bit}
use perex.Compiler.Monad.Spending.{Ends, ends, Ends-bind, Ends-map}
use perex.Compiler.Classes.{Slice, follows, in_order}
use perex.Compiler.Classes.Slots.{left, low, charge-Ends}
use perex.Compiler.Classes.Heap.{IsSorted}

-- The lower bound of the last range.
abbrev bound : Option (ℕ × ℕ) → ℕ
bound none = 0
bound (some old) = old.0

abbrev IsBehind : Option (ℕ × ℕ) → List (ℕ × ℕ) → Type 0
IsBehind p rs = (i : ℕ) → i < length rs → bound p ≤ low rs i

abbrev pub IsPlain : List (ℕ × ℕ) → Type 0
IsPlain rs = (i : ℕ) → i < length rs → bit (low rs i) 30 ≡ false

follows-IsBehind :
    (previous : Option (ℕ × ℕ)) (r : ℕ × ℕ) (rs : List (ℕ × ℕ))
    → follows previous r ≡ true
    → IsBehind (some r) rs
    → IsBehind previous (r ∷ rs)
follows-IsBehind none r rs f h i l = omega arith
follows-IsBehind (some (a, b)) (c, d) rs f h zero l = ground arith
follows-IsBehind (some (a, b)) (c, d) rs f h (suc i) l = let k = h i (omega arith) in ground arith

cons-IsSorted :
    (r : ℕ × ℕ) (rs : List (ℕ × ℕ))
    → IsBehind (some r) rs
    → IsSorted (length rs) rs
    → IsSorted (suc (length rs)) (r ∷ rs)
cons-IsSorted r rs h s zero zero l k = absurd (omega arith)
cons-IsSorted r rs h s zero (suc j) l k = h j (omega arith)
cons-IsSorted r rs h s (suc i) zero l k = absurd (omega arith)
cons-IsSorted r rs h s (suc i) (suc j) l k = s i j (omega arith) (omega arith)

-- What the scan tells of ranges that are no properties.
pub record Scanned (sorted : Bool) (previous : Option (ℕ × ℕ)) (rs : List (ℕ × ℕ)) (s : Slice)
    (o : Option Bool) (t : Slice) : Type 0 where
  pub answer : Bool
  pub given : o ≡ some answer
  pub kept_ranges : t.ranges ≡ s.ranges
  pub ordered : answer ≡ true → (sorted ≡ true) × IsBehind previous rs × IsSorted (length rs) rs

and_left : (a b : Bool) → (a && b) ≡ true → (a ≡ true) × (b ≡ true)
and_left true b h = (refl, h)
and_left false b h = cc

pub in_order-Ends :
    (rs : List (ℕ × ℕ)) (sorted : Bool) (previous : Option (ℕ × ℕ)) (s : Slice)
    → IsPlain rs
    → Ends left (length rs) s (Scanned sorted previous rs s) (in_order rs sorted previous s)
unfolding in_order
in_order-Ends [] sorted previous s h =
    ends (some sorted) s
      (record {
        answer = sorted;
        given = refl;
        kept_ranges = refl;
        ordered = λ e. (e, (λ i l. absurd (omega arith)), λ i j p q. absurd (omega arith));
      })
      (omega arith)
in_order-Ends (r ∷ rs) sorted previous s h =
    Ends-bind 1 (length rs) (omega arith) (charge-Ends s) λ u t e. rw (h 0 (omega arith)) (
      Ends-map (omega arith)
        (in_order-Ends rs (sorted && follows previous r) (some r) t
          (λ i l. h (suc i) (omega arith)))
        λ o b x. record {
          answer = x.answer;
          given = x.given;
          kept_ranges = x.kept_ranges ∙ e;
          ordered = λ f.
              let (z, behind, order) = x.ordered f in
              let (z1, z2) = and_left _ _ z in
              (z1, follows-IsBehind previous r rs z2 behind, cons-IsSorted r rs behind order);
        })
