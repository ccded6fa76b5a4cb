-- ===== src/Compiler/Classes.antt =====
-- src/compiler/classes.rs: the sort and the merge of a class's ranges in the compiler's scratch. A range
-- is the pair of its bounds. The functions work on the slice of the class, with the budget.
pub mod Slots
pub mod Sift
pub mod Heap
pub mod Merge
pub mod Rounds
pub mod Scan
pub mod Normalize
pub mod Searching
pub mod Settled
use perex.Base.{
  ℕ, zero, suc, ◌+◌, ◌-◌, ◌*◌, ◌/◌, ◌==◌, ltb, leb, min, max, Bool, true, false, not, ◌&&◌, ◌||◌,
  List, [], ◌∷◌, Option, none, some,
}
use perex.Base.{get_elem?, set, length, if◌then◌else◌, Run, ret, panic, stuck, or_panic}
use perex.Base
use perex.Budget
use perex.Budget.{Budget}
use perex.Unicode.Search.{bit}
use perex.Compiler.Monad.{M, ◌>>=◌, ◌>>◌, pure, lift, modify, with_state, paid}

pub record Slice : Type 0 where
  pub ranges : List (ℕ × ℕ)
  pub budget : Budget

unfoldable pub charge : M Slice (Unit {0})
charge s = ret (paid (λ b. record s { budget = b }) (Budget.charge s.budget 1))

abbrev pub write : ℕ → ℕ × ℕ → M Slice (Unit {0})
write i r = modify (λ s. record s { ranges = set s.ranges i r })

-- `ranges[i]`.
abbrev pub range_at : ℕ → M Slice (ℕ × ℕ)
range_at i s = lift (or_panic (get_elem? s.ranges i)) s

-- `ranges.swap(i, j)`.
unfoldable pub swap : ℕ → ℕ → M Slice (Unit {0})
swap i j = range_at i >>= (λ a. range_at j >>= (λ b. write i b >> write j a))

-- `(lo, hi) < (lo2, hi2)`.
abbrev pub before : ℕ × ℕ → ℕ × ℕ → Bool
before (lo, hi) (lo2, hi2) = ltb lo lo2 || (lo == lo2 && ltb hi hi2)

abbrev pub is_before : ℕ → ℕ → M Slice Bool
is_before i j = range_at i >>= (λ a. range_at j >>= (λ b. pure (before a b)))

-- The child of `root` that does not come before the other.
unfoldable pub larger_child : ℕ → ℕ → M Slice ℕ
larger_child root end =
    let child : ℕ = root * 2 + 1 in
    if ltb (child + 1) end
    then charge >> is_before child (child + 1) >>= (λ b. pure (if b then child + 1 else child))
    else pure child

-- On fuel: each round moves the root to a child.
unfoldable pub sift : ℕ → ℕ → ℕ → M Slice (Unit {0})
sift zero root end = lift stuck
sift (suc fuel) root end =
    if ltb root (end / 2)
    then larger_child root end >>= (λ child.
      charge
      >> is_before root child
        >>= (λ b. if b then swap root child >> sift fuel child end else pure tt))
    else pure tt

-- `for root in (0..n).rev()`.
unfoldable pub heapify : ℕ → ℕ → M Slice (Unit {0})
heapify zero count = pure tt
heapify (suc root) count = sift (suc count) root count >> heapify root count

-- `for end in (1..n + 1).rev()`.
unfoldable pub drain : ℕ → M Slice (Unit {0})
drain zero = pure tt
drain (suc n) = swap 0 (suc n) >> sift (suc (suc n)) 0 (suc n) >> drain n

unfoldable pub heapsort : ℕ → M Slice (Unit {0})
heapsort count = heapify (count / 2) count >> drain (count - 1)

-- `saturating_add(1)` on `u32`.
abbrev pub successor : ℕ → ℕ
successor n = min (n + 1) 0xffff_ffff

-- Whether the next range meets or follows on the last one that is kept.
abbrev pub joins : ℕ → ℕ × ℕ → M Slice Bool
joins zero next = pure false
joins (suc last) next = range_at last >>= (λ r. pure (leb next.0 (successor r.1)))

abbrev pub extend : ℕ → ℕ → M Slice (Unit {0})
extend last hi = range_at last >>= (λ r. write last (r.0, max r.1 hi))

-- One round; how many ranges are kept after it.
abbrev pub merge_next : ℕ → ℕ × ℕ → M Slice ℕ
merge_next used next = joins used next >>= (λ b.
    if b then extend (used - 1) next.1 >> pure used else write used next >> pure (suc used))

unfoldable pub merge_one : ℕ → ℕ → M Slice ℕ
merge_one i used = charge >> range_at i >>= merge_next used

-- `for i in i..count`, with `n` rounds to go.
unfoldable pub merge : ℕ → ℕ → ℕ → M Slice ℕ
merge zero i used = pure used
merge (suc n) i used = merge_one i used >>= (λ used. merge n (suc i) used)

abbrev pub follows : Option (ℕ × ℕ) → ℕ × ℕ → Bool
follows none r = true
follows (some old) r = not (before r old)

-- Whether the ranges are in order already, unless one is a property.
unfoldable pub in_order : List (ℕ × ℕ) → Bool → Option (ℕ × ℕ) → M Slice (Option Bool)
in_order [] sorted previous = pure (some sorted)
in_order (r ∷ rs) sorted previous =
    let rest = in_order rs (sorted && follows previous r) (some r) in
    charge >> (if bit r.0 30 then pure none else rest)

normalize_sorted : ℕ → Bool → M Slice ℕ
normalize_sorted count sorted = (if sorted then pure tt else heapsort count) >> merge count 0 0

normalized : ℕ → Option Bool → M Slice (Option ℕ)
normalized count none = pure none
normalized count (some sorted) = normalize_sorted count sorted >>= (λ used. pure (some used))

-- `normalize_class`, from where it has the slice.
unfoldable pub normalize : M Slice (Option ℕ)
unfolding normalized normalize_sorted
normalize = with_state (λ s. in_order s.ranges true none >>= normalized (length s.ranges))
