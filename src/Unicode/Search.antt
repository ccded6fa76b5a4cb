-- ===== src/Unicode/Search.antt =====
-- `partition_point` of a slice: the number of elements before the first that fails the test, where
-- all that fail stand behind all that pass. Bits of a word.
use perex.Base.{ℕ, suc, ◌/◌, ◌%◌, ◌^◌, ◌≤◌, Bool, List, [], ◌∷◌}
use perex.Base.{◌==◌, if◌then◌else◌}

unfoldable pub partition_point {ℓ} : {A : Type ℓ} → (A → Bool) → List A → ℕ
partition_point test [] = 0
partition_point test (x ∷ xs) = if test x then suc (partition_point test xs) else 0

-- `word & (1 << bit) != 0`.
unfoldable pub bit : ℕ → ℕ → Bool
bit word k = word / 2 ^ k % 2 == 1

-- The boundaries stand in order.
abbrev pub Ascending : ℕ → List ℕ → Type 0
Ascending lo [] = Unit {0}
Ascending lo (x ∷ xs) = (lo ≤ x) × Ascending x xs
