-- ===== src/Unicode/Casefold.antt =====
-- src/casefold.rs. A row of a table has its first and last character and the step to the next
-- equivalent for even and for odd offsets, an `i32` standing for its 32-bit word.
pub mod Family
use perex.Base.{
  ℕ, ◌+◌, ◌-◌, ◌%◌, zero, suc, Bool, true, false, not, List, [], ◌∷◌, Option, none, some, ltb, leb,
  ◌==◌,
}
use perex.Base.{if◌then◌else◌, ◌&&◌, ◌||◌, get_elem?}
use perex.Unicode.Search.{partition_point}

pub record Row : Type 0 where
  pub first : ℕ
  pub last : ℕ
  pub even : ℕ
  pub odd : ℕ

-- `data::LEGACY` and `data::UNICODE`.
pub record CaseTables : Type 0 where
  pub legacy : List Row
  pub unicode : List Row

abbrev pub within : ℕ → ℕ → ℕ → Bool
within lo hi c = leb lo c && leb c hi

unfoldable pub ascii_bounds : ℕ → Bool → Option (ℕ × ℕ)
ascii_bounds c unicode =
    if within 65 90 c
    then some (c, c + 32)
    else if within 97 122 c
    then some (c - 32, c)
    else if leb c 127
    then some (c, c)
    else if c == 0x17f && unicode
    then some (83, 115)
    else if c == 0x212a && unicode
    then some (75, 107)
    else none

abbrev pub letter : ℕ → Bool
letter c = within 65 90 c || within 97 122 c

-- `c ^ 32`, of a letter.
abbrev pub swap_case : ℕ → ℕ
swap_case c = if within 65 90 c then c + 32 else c - 32

-- The row before the partition point; `index - 1` is read only where it is not the table's start.
row_before : List Row → ℕ → Option Row
row_before table zero = none
row_before table (suc k) = get_elem? table k

stepped : ℕ → Option Row → ℕ
stepped c none = c
stepped c (some row) =
    if ltb row.last c
    then c
    else (c + (if (c - row.first) % 2 == 0 then row.even else row.odd)) % 0x1_0000_0000

abbrev pub table_of : CaseTables → Bool → List Row
table_of t unicode = if unicode then t.unicode else t.legacy

unfoldable pub next : CaseTables → ℕ → Bool → ℕ
unfolding row_before stepped
next t c unicode = stepped c (
    row_before (table_of t unicode)
      (partition_point (λ (r : Row). leb r.first c) (table_of t unicode)))

-- The characters whose equivalents are the letter's two cases or itself alone.
abbrev pub plain_ascii : ℕ → Bool → Bool
plain_ascii c unicode =
    ltb c 128 && (not unicode || not (c == 75 || c == 83 || c == 107 || c == 115))

-- `result` starts as four times `c`; the walk stops where it comes back to it.
unfoldable pub family : (ℕ → ℕ) → ℕ → List ℕ
family next c =
    if next c == c
    then c ∷ c ∷ c ∷ c ∷ []
    else if next (next c) == c
    then c ∷ next c ∷ c ∷ c ∷ []
    else if next (next (next c)) == c
    then c ∷ next c ∷ next (next c) ∷ c ∷ []
    else c ∷ next c ∷ next (next c) ∷ next (next (next c)) ∷ []

unfoldable pub equivalents : CaseTables → ℕ → Bool → List ℕ
unfolding family
equivalents t c unicode =
    if plain_ascii c unicode
    then if letter c then c ∷ swap_case c ∷ c ∷ c ∷ [] else c ∷ c ∷ c ∷ c ∷ []
    else family (λ c. next t c unicode) c

unfoldable pub contains : List ℕ → ℕ → Bool
contains [] c = false
contains (x ∷ xs) c = x == c || contains xs c

unfoldable pub equal : CaseTables → ℕ → ℕ → Bool → Bool
equal t left right unicode =
    if left == right
    then true
    else if ltb left 128 && ltb right 128
    then letter left && (swap_case left == right)
    else contains (equivalents t left unicode) right

unfoldable pub word : ℕ → Bool → Bool
word c unicode_ignore_case =
    within 48 57 c
    || within 65 90 c
    || c == 95
    || within 97 122 c
    || (unicode_ignore_case && (c == 0x17f || c == 0x212a))
