-- ===== src/Samples/Patterns.antt =====
-- Patterns for the compiler of src/compiler.rs.
use perex.Base.{◌↔◌, inr, arith, ℕ, ◌≡◌, refl, List, [], ◌∷◌, Option, none, some, false, Run, ret}
use perex.Budget.{new}
use perex.Input.View.{utf16}
use perex.Compiler.Monad.{Result, ok}
use perex.Compiler.Parser.{Tables, Parser, Node, default_node, error}
use perex.Compiler.Parser.Terms.{Sets}
use perex.Compiler.Parser.Prepare.{Prepared, prepare}
use perex.Compiler.Parser.Repeats.{combined}
use perex.Compiler.Parser.Repeats.Counts.{Allows, Nested, combined-Nested}

abbrev no_sets : Sets
no_sets = record { class_set = error; sequence_class = λ s. error }

abbrev plain_tables : Tables
plain_tables = record {
  cases = record { legacy = []; unicode = [] };
  properties = record { rows = []; category = []; bounds = []; id_start = 0; id_continue = 0 };
  lone = λ name. none;
  general_category = λ name. none;
  script = λ name. none;
  extension_offset = 0;
  sequence = λ name. none;
}

abbrev twenty_nodes : List Node
twenty_nodes =
    let n = default_node in
    n ∷ n ∷ n ∷ n ∷ n ∷ n ∷ n ∷ n ∷ n ∷ n ∷ n ∷ n ∷ n ∷ n ∷ n ∷ n ∷ n ∷ n ∷ n ∷ n ∷ []

abbrev eight_ranges : List (ℕ × ℕ)
eight_ranges = (0, 0) ∷ (0, 0) ∷ (0, 0) ∷ (0, 0) ∷ (0, 0) ∷ (0, 0) ∷ (0, 0) ∷ (0, 0) ∷ []

-- How many instructions, captures, repeats and words the plan has.
sizes : Run (Result Prepared × Option Parser) → Option (ℕ × ℕ × ℕ × ℕ)
sizes (ret (ok p, q)) = some (p.count, p.captures, p.repeats, p.size)
sizes _ = none

prepared : List ℕ → List ℕ → Run (Result Prepared × Option Parser)
prepared pattern flags =
    prepare no_sets plain_tables (utf16 pattern) flags twenty_nodes eight_ranges (new 100)

-- `a(b|[c-e])*`
pat : Option (ℕ × ℕ × ℕ × ℕ)
pat = sizes (prepared (97 ∷ 40 ∷ 98 ∷ 124 ∷ 91 ∷ 99 ∷ 45 ∷ 101 ∷ 93 ∷ 41 ∷ 42 ∷ []) [])

merged : combined (0, 2, false) (1, 3, false) ≡ some (0, 6, false)
unfolding combined
merged = refl

combined-Nested_example : Nested (0, 2, false) (1, 3, false) 4 ↔ Allows (0, 6, false) 4
combined-Nested_example =
    combined-Nested (0, 2, false) (1, 3, false) (0, 6, false) 4 (inr (omega arith))
      (inr (omega arith)) (omega arith) merged
