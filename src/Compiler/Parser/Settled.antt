-- ===== src/Compiler/Parser/Settled.antt =====
-- The first moves of the parser in src/compiler.rs come to an end: reads of the pattern never run out of
-- the model's fuel, and a unit that is taken is paid for.
use perex.Base.{
  ℕ, zero, suc, ◌+◌, ◌-◌, ◌≤◌, ◌<◌, ◌≡◌, refl, arith, Bool, true, false, not, inl, inr,
  if◌then◌else◌, Run, ret, List, Option, none, some, get_elem?, or_panic, ltb, length, Bool-cases,
  min,
}
use perex.Base.{le→leb, lt→leb}
use perex.Base
use perex.Budget
use perex.Input.View.{Cursor}
use perex.Input.Walk.{next_unit, previous_unit}
use perex.Input.Walk.Firm.{next_unit-ends, previous_unit-ends}
use perex.Input.Points.{next_point}
use perex.Input.Points.Firm.{next_point-ends}
use perex.Compiler.Monad.{CompileError, Result, ok, ◌>>=◌, chained, pure}
use perex.Compiler.Monad.Settling.{
  Firm, returns, panics, Firm-bind, ends-Firm, or_panic-Firm, Ending, Ending-weaker, done, failed,
  panicked, Ending-if, Settles, weaken-Settles, pure-Settles, lift-Settles, modify-Settles,
  seq-Settles, pay-Settles, settling,
}
use perex.Compiler.Parser.{
  Parser, Parse, Node, with_field, checked, error, step, peek, moved, take, is_unit, eat, take_unit,
  taken, with_fuel, set_cursor, node_at, write_node, append_node, add, join, word_values,
}

abbrev pub left : Parser → ℕ
left p = p.budget.remaining

pub next_unit-Firm : (c : Cursor) → Firm (next_unit c)
next_unit-Firm c = ends-Firm (next_unit c) (next_unit-ends c)

module _ {A : Type 0} where
  pub with_field-Settles :
      {B : Type 0} {k n : ℕ} (f : Parser → B) (g : B → Parse A)
      → ((b : B) → Settles left k n (g b))
      → Settles left k n (with_field f g)
  with_field-Settles f g h = record { at = λ p l. (h (f p)).at p l }

  -- A loop on more fuel than the budget.
  pub with_fuel-Settles :
      {n : ℕ} (body : ℕ → Parse A)
      → ((fuel : ℕ) → Settles left 0 fuel (body fuel))
      → Settles left 0 n (with_fuel body)
  with_fuel-Settles body h = record { at = λ p l. (h (suc p.budget.remaining)).at p (omega arith) }

  pub with_fuel_below :
      {n : ℕ} (body : ℕ → Parse A)
      → ((fuel : ℕ) → Settles left 0 (min fuel n) (body fuel))
      → Settles left 0 n (with_fuel body)
  with_fuel_below body h = record { at = λ p l. (h (suc p.budget.remaining)).at p (omega arith) }

  pub error-Settles : {k n : ℕ} → Settles left k n (error {A = A})
  unfolding error
  error-Settles = record { at = λ p l. failed _ _ }

  pub moved-Settles :
      {n : ℕ} (move : Cursor → Run (A × Cursor))
      → ((c : Cursor) → Firm (move c))
      → Settles left 0 n (moved move)
  moved-Settles move f = record { at = λ p l. go p (f p.cursor) }
    where
      go :
          (p : Parser) {r : Run (A × Cursor)}
          → Firm r
          → Ending left 0 p (Base.◌>>=◌ r (λ (a, c). ret (ok a, record p { cursor = c })))
      go p (returns (a, c)) = done a _ (omega arith)
      go p panics = panicked

module _ {n : ℕ} where
  pub step-Settles : Settles left 1 n step
  unfolding step Budget.charge
  step-Settles = record {
    at = λ p l. elim (Bool-cases (ltb 0 p.budget.remaining)) [
      | inl h ↦ rw (le→leb 1 p.budget.remaining (ground arith)) (done tt _ (ground arith))
      | inr h ↦ rw (lt→leb 1 p.budget.remaining (ground arith)) (failed _ _)
    ];
  }

  pub next_unit-Settles : Settles left 0 n (moved next_unit)
  next_unit-Settles = moved-Settles next_unit next_unit-Firm

  pub next_point-Settles : Settles left 0 n (moved next_point)
  next_point-Settles = moved-Settles next_point λ c. ends-Firm (next_point c) (next_point-ends c)

  pub previous_unit-Settles : Settles left 0 n (moved previous_unit)
  previous_unit-Settles =
      moved-Settles previous_unit λ c. ends-Firm (previous_unit c) (previous_unit-ends c)

  pub peek-Settles : Settles left 0 n peek
  unfolding peek
  peek-Settles = record {
    at = λ p l.
        (lift-Settles {n = n} _ (Firm-bind (next_unit-Firm p.cursor) λ (unit, c). returns unit)).at
          p l;
  }

  pub take-Settles : Settles left 1 n take
  unfolding take
  take-Settles = pay-Settles step _ step-Settles λ u. next_unit-Settles

  pub take_free : Settles left 0 n take
  take_free = weaken-Settles take take-Settles

  pub step_free : Settles left 0 n step
  step_free = weaken-Settles step step-Settles

  pub eat-Settles : (c : ℕ) → Settles left 0 n (eat c)
  unfolding eat
  eat-Settles c = search (settling, peek-Settles, take_free)

  -- A unit that was there is paid for.
  pub eat_then :
      {A : Type 0} (c : ℕ) (f : Bool → Parse A)
      → Settles left 0 n (f true)
      → Settles left 1 n (f false)
      → Settles left 1 n (eat c >>= f)
  unfolding eat peek
  eat_then {A = A} c f g h = record { at = λ p l. go p l (next_unit-Firm p.cursor) }
    where
      took :
          (p : Parser) {r : Run (Result (Option ℕ) × Parser)}
          → left p < n
          → Ending left 1 p r
          → Ending left 1 p
              (Base.◌>>=◌ (Base.◌>>=◌ r (chained (λ unit. pure {A = Bool} true))) (chained f))
      took p l (done a t q) = Ending-weaker 0 1 p t (omega arith) (g.at t (omega arith))
      took p l (failed e t) = failed e t
      took p l panicked = panicked

      go :
          (p : Parser) {r : Run (Option ℕ × Cursor)}
          → left p < n
          → Firm r
          → Ending left 1 p (
              Base.◌>>=◌
                (Base.◌>>=◌
                  (Base.◌>>=◌ (Base.◌>>=◌ r (λ (unit, k). ret unit)) (λ unit. ret (ok unit, p)))
                  (chained (λ next.
                    if is_unit c next
                    then take >>= (λ unit. pure {A = Bool} true)
                    else pure false)))
                (chained f))
      go p l (returns (unit, k)) = elim (Bool-cases (is_unit c unit)) [
        | inl t ↦ rw t (took p l (take-Settles.at p l))
        | inr t ↦ rw t (h.at p l)
      ]
      go p l panics = panicked

  taken-Settles : (unit : Option ℕ) → Settles left 0 n (taken unit)
  taken-Settles none = error-Settles
  taken-Settles (some c) = pure-Settles c

  pub take_unit-Settles : Settles left 1 n take_unit
  unfolding take_unit
  take_unit-Settles = pay-Settles take taken take-Settles taken-Settles

  pub checked-Settles : (e : CompileError) (i : ℕ) → Settles left 0 n (checked e i)
  checked-Settles e i = search settling

  pub set_cursor-Settles : (c : Cursor) → Settles left 0 n (set_cursor c)
  set_cursor-Settles c = modify-Settles _ λ s. refl

  pub node_at-Settles : (id : ℕ) → Settles left 0 n (node_at id)
  node_at-Settles id = record {
    at = λ p l. (lift-Settles {n = n} _ (or_panic-Firm (get_elem? p.nodes id))).at p l;
  }

  pub write_node-Settles : (id : ℕ) (node : Node) → Settles left 0 n (write_node id node)
  write_node-Settles id node =
      seq-Settles _ _ (node_at-Settles id) λ old. modify-Settles _ λ s. refl

  append_node-Settles : (node : Node) → Settles left 0 n (append_node node)
  unfolding append_node
  append_node-Settles node = record {
    at = λ p l.
        Ending-if (not (ltb p.used word_values)) (failed _ _)
          (Ending-if (ltb p.used (length p.nodes)) (done p.used _ (omega arith)) (failed _ _));
  }

  pub add-Settles : (node : Node) → Settles left 1 n (add node)
  unfolding add
  add-Settles node = pay-Settles step _ step-Settles λ u. append_node-Settles node

  pub add_free : (node : Node) → Settles left 0 n (add node)
  add_free node = weaken-Settles (add node) (add-Settles node)

  pub join-Settles : (kind a b : ℕ) → Settles left 1 n (join kind a b)
  unfolding join
  join-Settles kind a b = search (seq-Settles, node_at-Settles, checked-Settles, add-Settles)

  pub join_free : (kind a b : ℕ) → Settles left 0 n (join kind a b)
  unfolding join
  join_free kind a b = search (settling, node_at-Settles, checked-Settles, add_free)

pub ruleset parsing = (
  settling, with_field-Settles, with_fuel-Settles, error-Settles, peek-Settles, take_free,
  step_free, eat-Settles, checked-Settles, set_cursor-Settles, node_at-Settles, write_node-Settles,
  add_free, join_free, next_unit-Settles, next_point-Settles, previous_unit-Settles,
)
