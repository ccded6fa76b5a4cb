-- ===== src/Unicode/Sequences.antt =====
-- src/sequences.rs. A set's row has where its groups begin and how many they are, where its members
-- begin and how many they are, whether it has members of one point, and which characters begin
-- members. A group's row has the length of its members, where they begin and how many they are.
pub mod Ordered
use perex.Base.{
  ℕ, zero, suc, ◌+◌, ◌-◌, ◌/◌, ◌%◌, Bool, true, not, List, ◌∷◌, Option, none, some, ltb, ◌==◌,
}
use perex.Base.{if◌then◌else◌, ◌&&◌, ◌||◌, length, Run, ret, stuck, ◌>>=◌}
use perex.Unicode.Search.{bit}
use perex.Unicode.Casefold.{CaseTables, equal}
use perex.Unicode.Properties.{at, slice}

pub record SequenceTables : Type 0 where
  pub sets : List (List ℕ)
  pub groups : List (List ℕ)
  pub index : List ℕ
  pub points : List ℕ
  pub longest : ℕ

unfoldable pub valid : SequenceTables → ℕ → Bool
valid t set = ltb set (length t.sets)

-- One word of a set's row, and one of a group's.
abbrev pub of_set : SequenceTables → ℕ → ℕ → Run ℕ
of_set t set k = at t.sets set >>= (λ row. at row k)

abbrev pub of_group : SequenceTables → ℕ → ℕ → ℕ → Run ℕ
of_group t set group k =
    of_set t set 0 >>= (λ first. at t.groups (first + group) >>= (λ row. at row k))

unfoldable pub has_points : SequenceTables → ℕ → Run Bool
has_points t set = of_set t set 4 >>= (λ w. ret (not (w == 0)))

-- A row of the index packs an offset of 20 bits below a length.
unfoldable pub entry : SequenceTables → ℕ → Run (List ℕ)
entry t i =
    at t.index i >>= (λ row. slice t.points (row % 0x100000) (row % 0x100000 + row / 0x100000))

unfoldable pub member : SequenceTables → ℕ → ℕ → Run (List ℕ)
member t set i = of_set t set 2 >>= (λ first. entry t (first + i))

unfoldable pub groups : SequenceTables → ℕ → Run ℕ
groups t set = of_set t set 1

unfoldable pub count : SequenceTables → ℕ → Run ℕ
count t set = of_set t set 3

unfoldable pub begins : SequenceTables → ℕ → ℕ → Run Bool
begins t set c =
    if ltb c 128
    then of_set t set (5 + c / 32) >>= (λ w. ret (bit w (c % 32)))
    else of_set t set 9 >>= (λ w. ret (not (w == 0)))

-- Member indices within the set; a group's members stand behind the set's first one.
unfoldable pub group : SequenceTables → ℕ → ℕ → Run (ℕ × ℕ)
group t set g = of_group t set g 1 >>= (λ start.
    of_group t set g 2 >>= (λ n. of_set t set 2 >>= (λ base. ret (start - base, start + n - base))))

-- `for group in 0..groups(set)`, with `n` groups to go.
group_from : SequenceTables → ℕ → ℕ → ℕ → ℕ → Run (Option ℕ)
group_from t set i zero g = ret none
group_from t set i (suc n) g =
    let rest = group_from t set i n (suc g) in
    group t set g >>= (λ (start, end). if ltb i end then ret (some g) else rest)

or_last : ℕ → Option ℕ → ℕ
or_last n (some g) = g
or_last n none = n - 1

unfoldable pub group_of : SequenceTables → ℕ → ℕ → Run ℕ
unfolding group_from or_last
group_of t set i = groups t set >>= (λ n. group_from t set i n 0 >>= (λ g. ret (or_last n g)))

-- The loop of `partition` on fuel: each round halves the range, so its width suffices.
unfoldable pub partition_loop : ℕ → SequenceTables → ℕ → ℕ → ℕ → Run ℕ
partition_loop zero t first lo hi = stuck
partition_loop (suc fuel) t first lo hi =
    let middle : ℕ = lo + (hi - lo) / 2 in
    let up = partition_loop fuel t first (middle + 1) hi in
    let down = partition_loop fuel t first lo middle in
    if ltb lo hi
    then entry t middle >>= (λ points. at points 0 >>= (λ p. if ltb p first then up else down))
    else ret lo

unfoldable pub partition : SequenceTables → ℕ → ℕ → ℕ → Run ℕ
partition t start end first = partition_loop (suc (end - start)) t first start end

unfoldable pub run : SequenceTables → ℕ → ℕ → ℕ → Run (ℕ × ℕ)
run t set g first = group t set g >>= (λ (start, end). of_set t set 2 >>= (λ base.
    partition t (base + start) (base + end) first >>= (λ lo.
      partition t (base + start) (base + end) (first + 1) >>= (λ hi. ret (lo - base, hi - base)))))

unfoldable pub length_of : SequenceTables → ℕ → ℕ → Run ℕ
length_of t set g = of_group t set g 0

points_same : CaseTables → Bool → List ℕ → List ℕ → Bool
points_same cases fold (a ∷ ls) (b ∷ rs) =
    (a == b || (fold && equal cases a b true)) && points_same cases fold ls rs
points_same cases fold _ _ = true

unfoldable pub same : CaseTables → List ℕ → List ℕ → Bool → Bool
unfolding points_same
same cases left right fold = length left == length right && points_same cases fold left right

-- `for index in start..end`, with `n` members to go.
position_in : SequenceTables → CaseTables → ℕ → ℕ → List ℕ → Bool → ℕ → ℕ → Run (Option (ℕ × ℕ))
position_in t cases set g points fold zero i = ret none
position_in t cases set g points fold (suc n) i =
    let rest = position_in t cases set g points fold n (suc i) in
    member t set i >>= (λ m. if same cases m points fold then ret (some (g, i)) else rest)

first_of : List ℕ → Run ℕ
first_of points = at points 0

or_rest : Run (Option (ℕ × ℕ)) → Option (ℕ × ℕ) → Run (Option (ℕ × ℕ))
or_rest rest none = rest
or_rest rest (some found) = ret (some found)

position_groups : SequenceTables → CaseTables → ℕ → List ℕ → Bool → ℕ → ℕ → Run (Option (ℕ × ℕ))
position_groups t cases set points fold zero g = ret none
position_groups t cases set points fold (suc n) g =
    let rest = position_groups t cases set points fold n (suc g) in
    length_of t set g >>= (λ k.
      if k == length points
      then (if fold then group t set g else first_of points >>= run t set g) >>= (λ (start, end).
          position_in t cases set g points fold (end - start) start >>= or_rest rest)
      else rest)

unfoldable pub position : SequenceTables → CaseTables → ℕ → List ℕ → Bool → Run (Option (ℕ × ℕ))
unfolding position_groups position_in or_rest first_of
position t cases set points fold =
    if ltb (length points) 2 || ltb t.longest (length points)
    then ret none
    else groups t set >>= (λ n. position_groups t cases set points fold n 0)
