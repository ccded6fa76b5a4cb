-- ===== src/Compiler/Parser/Prepare/Settled.antt =====
-- `prepare` of src/compiler.rs comes to an end.
use perex.Base.{
  ℕ, zero, suc, ◌+◌, ◌==◌, ◌≡◌, ◌≢◌, refl, arith, ltb, Bool, true, false, if◌then◌else◌, Option,
  none, some, Run, ret, panic, stuck, List, Option-cases, inl, inr,
}
use perex.Base
use perex.Budget.{Budget}
use perex.Input.View.{Input}
use perex.Compiler.Monad.{Result}
use perex.Compiler.Monad.Settling.{Ending, done, failed, panicked, Settles, pure-Settles}
use perex.Compiler.Parser.{Tables, Parser, Node}
use perex.Compiler.Parser.Settled.{left, parsing}
use perex.Compiler.Parser.Names.Settled.{
  check_names-Settles, names_words-Settles, checked_size-Settles,
}
use perex.Compiler.Parser.Terms.{Sets}
use perex.Compiler.Parser.Terms.Settled.{SetsEnd}
use perex.Compiler.Parser.Grammar.Settled.{disjunction-Settles}
use perex.Compiler.Parser.Prepare.{
  Prepared, parse_flags, flag_bits, initial, check_references, check_end, sized, plan, parse,
  prepare_with, prepare,
}

module _ {n : ℕ} where
  check_references-Settles : (k i : ℕ) → Settles left 0 n (check_references k i)
  unfolding check_references
  check_references-Settles zero i = pure-Settles tt
  check_references-Settles (suc k) i = search (parsing, check_references-Settles k) depth 10

  check_end-Settles : Settles left 0 n check_end
  unfolding check_end
  check_end-Settles = search parsing

  sized-Settles : (root bits count base : ℕ) → Settles left 0 n (sized root bits count base)
  unfolding sized
  sized-Settles root bits count base =
      search (parsing, names_words-Settles, checked_size-Settles) depth 12

  plan-Settles : (bits root : ℕ) → Settles left 0 n (plan bits root)
  unfolding plan
  plan-Settles bits root = search (parsing, checked_size-Settles, sized-Settles) depth 10

  parse-Settles : (sets : Sets) (bits : ℕ) → SetsEnd sets → Settles left 0 n (parse sets bits)
  unfolding parse
  parse-Settles sets bits e =
      search
        (
          parsing,
          disjunction-Settles sets e,
          check_end-Settles,
          check_names-Settles,
          check_references-Settles,
          plan-Settles,
        )
        depth 12

-- However small the budget, the compiler's parse of a pattern, with its checks and sizes, comes to an end
-- with a plan or an error, or panics: none of its loops runs out of the model's fuel, where what it takes
-- from the parser of `v` classes comes to an end so.
prepare-ends :
    (sets : Sets) (tables : Tables) (pattern : Input) (flags : List ℕ) (nodes : List Node)
    (ranges : List (ℕ × ℕ)) (budget : Budget)
    → SetsEnd sets
    → prepare sets tables pattern flags nodes ranges budget ≢ stuck
unfolding prepare prepare_with
prepare-ends sets tables pattern flags nodes ranges budget e =
    elim (Option-cases (parse_flags flags)) [
      | inl h ↦ rw h (λ f. cc)
      | inr (l, h) ↦
          let p : Parser = initial tables pattern l nodes ranges budget in
          rw h (
            ended (
              (parse-Settles {n = suc p.budget.remaining} sets (flag_bits l) e).at p (omega arith)))
    ]
  where
    ended :
        {p : Parser} {r : Run (Result Prepared × Parser)}
        → Ending left 0 p r
        → Base.◌>>=◌ {B = Result Prepared × Option Parser} r (λ (r, q). ret (r, some q)) ≢ stuck
    ended (done a t h) f = cc
    ended (failed x t) f = cc
    ended panicked f = cc
