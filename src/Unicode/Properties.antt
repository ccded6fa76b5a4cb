-- ===== src/Unicode/Properties.antt =====
-- src/properties.rs. A descriptor row has six words: what the other two are about, and membership of
-- the 128 ASCII characters in four.
pub mod Intervals
pub mod Ends
use perex.Base.{ℕ, ◌+◌, ◌-◌, ◌*◌, ◌/◌, ◌%◌, ◌^◌, zero, suc, Bool, true, not, List, ltb, leb, ◌==◌}
use perex.Base.{if◌then◌else◌, ◌&&◌, ◌||◌, length, get_elem?, take, drop, Run, ret, ◌>>=◌, or_panic}
use perex.Unicode.Search.{partition_point, bit}
use perex.Unicode.Casefold.{within}

pub record PropertyTables : Type 0 where
  pub rows : List (List ℕ)
  pub category : List ℕ
  pub bounds : List ℕ
  pub id_start : ℕ
  pub id_continue : ℕ

-- An index of a table or of a row, which panics out of range.
abbrev pub at {ℓ} : {A : Type ℓ} → List A → ℕ → Run A
at xs i = or_panic (get_elem? xs i)

abbrev pub slice : List ℕ → ℕ → ℕ → Run (List ℕ)
slice xs from to =
    if leb from to && leb to (length xs) then ret (take (to - from) (drop from xs)) else Run.panic

unfoldable pub valid : PropertyTables → ℕ → Bool
valid t id = ltb id (length t.rows)

in_ascii : List ℕ → ℕ → Run Bool
in_ascii row c = at row (2 + c / 32) >>= (λ w. ret (bit w (c % 32)))

-- `xs[k - 1]`.
last_before : List ℕ → ℕ → Run ℕ
last_before xs zero = Run.panic
last_before xs (suc k) = at xs k

-- Each run of a category has its first character above five bits of category.
in_category : List ℕ → List ℕ → ℕ → Run Bool
in_category category row c = at row 1 >>= (λ mask.
    last_before category (partition_point (λ value. leb (value / 32) c) category)
    >>= (λ value. ret (bit mask (value % 32))))

in_bounds : List ℕ → ℕ → ℕ → ℕ → Run Bool
in_bounds bounds start count c =
    slice bounds start (start + count)
    >>= (λ boundaries. ret (not (partition_point (λ point. leb point c) boundaries % 2 == 0)))

in_row : PropertyTables → ℕ → List ℕ → Run Bool
in_row t c row =
    if ltb c 128
    then in_ascii row c
    else at row 0 >>= (λ first.
      if bit first 31
      then in_category t.category row c
      else at row 1 >>= (λ count. in_bounds t.bounds first count c))

unfoldable pub contains : PropertyTables → ℕ → ℕ → Run Bool
unfolding in_row in_ascii in_category in_bounds last_before
contains t id c = at t.rows id >>= in_row t c

unfoldable pub identifier : PropertyTables → ℕ → Bool → Run Bool
identifier t c first =
    if ltb c 128
    then ret
        (c == 36 || within 65 90 c || c == 95 || within 97 122 c || (not first && within 48 57 c))
    else if not first && (c == 0x200c || c == 0x200d)
    then ret true
    else contains t (if first then t.id_start else t.id_continue) c

-- Exact ASCII membership, as one number of 128 bits.
unfoldable pub ascii : PropertyTables → ℕ → Run ℕ
ascii t id = at t.rows id >>= (λ row. at row 2 >>= (λ a. at row 3 >>= (λ b.
    at row 4 >>= (λ c. at row 5 >>= (λ d. ret (a + b * 2 ^ 32 + c * 2 ^ 64 + d * 2 ^ 96))))))
