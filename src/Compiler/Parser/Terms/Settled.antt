-- ===== src/Compiler/Parser/Terms/Settled.antt =====
-- The terms of src/compiler.rs come to an end, where those of src/compiler/sets.rs do.
use perex.Base.{ℕ, zero, suc, ◌==◌, refl, Bool, true, Option, none, some}
use perex.Compiler.Monad.{◌>>=◌, modify}
use perex.Compiler.Monad.Settling.{
  Settles, seq-Settles, pay-Settles, if-Settles, pure-Settles, modify-Settles, burn-Settles,
  stuck-Settles, weaken-Settles,
}
use perex.Compiler.Parser.{Parse, take, take_unit, peek, step}
use perex.Compiler.Parser.Settled.{
  left, step-Settles, take-Settles, take_unit-Settles, peek-Settles, eat_then, error-Settles,
  parsing,
}
use perex.Compiler.Parser.Leaves.Settled.{range-Settles, leaf_free}
use perex.Compiler.Parser.Escapes.Settled.{
  escaped_point-Settles, numeric_node-Settles, has_named_mode-Settles,
}
use perex.Compiler.Parser.Properties.Settled.{builtin-Settles}
use perex.Compiler.Parser.Names.Settled.{name-Settles}
use perex.Compiler.Parser.Terms.{
  Sets, Modifiers, Changes, add_modifier, end_modifiers, modifier_round, modifiers_loop, modifiers,
  some_or_error, class_escape, class_atom, add_single, add_pair, class_member, class_round,
  class_loop, class_leaf, plain_class, class, builtin_node, named_reference, escape_of, escape_node,
}

-- What the parser takes from src/compiler/sets.rs ends, and pays for itself where it is an atom.
pub record SetsEnd (sets : Sets) : Type 0 where
  pub class_set : (n : ℕ) → Settles left 0 n sets.class_set
  pub sequence_class : (n s : ℕ) → Settles left 0 n (sets.sequence_class s)

set_flags-Settles :
    {n : ℕ} (flags : ℕ) → Settles left 0 n (modify (λ p. record p { flags = flags }))
set_flags-Settles flags = modify-Settles _ λ s. refl

module _ (n : ℕ) (rest : Changes → Parse (Unit {0}))
    (h : (g : Changes) → Settles left 0 n (rest g)) where
  add_modifier-Settles :
      (test : Modifiers → Bool) (put : Modifiers → Modifiers) (g : Changes)
      → Settles left 0 (suc n) (add_modifier rest test put g)
  unfolding add_modifier
  add_modifier-Settles test put g = burn-Settles take _ take-Settles λ unit. search (parsing, h)

  end_modifiers-Settles : (g : Changes) → Settles left 0 (suc n) (end_modifiers g)
  unfolding end_modifiers
  end_modifiers-Settles g = search parsing depth 8

  subtract-Settles :
      (g : Changes)
      → Settles left 0 (suc n) (take >>= (λ unit. rest (record g { subtract = true })))
  subtract-Settles g = burn-Settles take _ take-Settles λ unit. h _

  modifier_round-Settles :
      (g : Changes) (next : Option ℕ) → Settles left 0 (suc n) (modifier_round rest g next)
  unfolding modifier_round
  modifier_round-Settles g next =
      search (parsing, add_modifier-Settles, end_modifiers-Settles, subtract-Settles) depth 10

modifiers_loop-Settles : (fuel : ℕ) (g : Changes) → Settles left 0 fuel (modifiers_loop fuel g)
unfolding modifiers_loop
modifiers_loop-Settles zero g = stuck-Settles _
modifiers_loop-Settles (suc fuel) g =
    seq-Settles peek _ peek-Settles
      λ next. modifier_round-Settles fuel (modifiers_loop fuel) (modifiers_loop-Settles fuel) g next

module _ {n : ℕ} where
  pub modifiers-Settles : Settles left 0 n modifiers
  unfolding modifiers
  modifiers-Settles = search (parsing, modifiers_loop-Settles)

  some_or_error-Settles : (o : Option ℕ) → Settles left 0 n (some_or_error o)
  unfolding some_or_error
  some_or_error-Settles none = error-Settles
  some_or_error-Settles (some point) = pure-Settles (some point)

  take_unit_free : Settles left 0 n take_unit
  take_unit_free = weaken-Settles take_unit take_unit-Settles

  class_escape-Settles : Settles left 0 n class_escape
  unfolding class_escape
  class_escape-Settles =
      search (parsing, take_unit_free, builtin-Settles, escaped_point-Settles) depth 10

  class_atom-Settles : Settles left 1 n class_atom
  unfolding class_atom
  class_atom-Settles =
      eat_then 92 _ class_escape-Settles
        (pay-Settles step _ step-Settles λ u. search (parsing, some_or_error-Settles) depth 8)

  class_atom_free : Settles left 0 n class_atom
  class_atom_free = weaken-Settles class_atom class_atom-Settles

  add_single-Settles : (o : Option ℕ) → Settles left 0 n (add_single o)
  unfolding add_single
  add_single-Settles none = pure-Settles tt
  add_single-Settles (some c) = range-Settles c c

  add_pair-Settles : (a b : Option ℕ) → Settles left 0 n (add_pair a b)
  unfolding add_pair
  add_pair-Settles (some lo) (some hi) = search (parsing, range-Settles)
  add_pair-Settles none b = search (parsing, add_single-Settles, range-Settles) depth 8
  add_pair-Settles (some lo) none = search (parsing, add_single-Settles, range-Settles) depth 8

  class_member-Settles : Settles left 1 n class_member
  unfolding class_member
  class_member-Settles = pay-Settles class_atom _ class_atom-Settles λ o.
      search (parsing, class_atom_free, add_pair-Settles, add_single-Settles, range-Settles) depth
        10

class_round-Settles :
    (n : ℕ) (rest : Parse (Unit {0})) (next : Option ℕ)
    → Settles left 0 n rest
    → Settles left 0 (suc n) (class_round rest next)
unfolding class_round
class_round-Settles n rest none h = error-Settles
class_round-Settles n rest (some c) h =
    if-Settles (c == 93) _ _ (pure-Settles tt)
      (burn-Settles class_member _ class_member-Settles λ u. h)

class_loop-Settles : (fuel : ℕ) → Settles left 0 fuel (class_loop fuel)
unfolding class_loop
class_loop-Settles zero = stuck-Settles _
class_loop-Settles (suc fuel) =
    seq-Settles peek _ peek-Settles
      λ next. class_round-Settles fuel (class_loop fuel) next (class_loop-Settles fuel)

module _ {n : ℕ} where
  class_leaf-Settles :
      (start : ℕ) (negative : Bool) (count : ℕ) → Settles left 0 n (class_leaf start negative count)
  unfolding class_leaf
  class_leaf-Settles start negative count = search (parsing, leaf_free)

  plain_class-Settles : Settles left 0 n plain_class
  unfolding plain_class
  plain_class-Settles = search (parsing, class_loop-Settles, class_leaf-Settles) depth 12

  named_reference-Settles : Settles left 0 n named_reference
  unfolding named_reference
  named_reference-Settles = search (parsing, name-Settles, leaf_free) depth 8

  module _ (sets : Sets) (e : SetsEnd sets) where
    pub class-Settles : Settles left 0 n (class sets)
    unfolding class
    class-Settles = search (parsing, plain_class-Settles, e.class_set) depth 8

    builtin_node-Settles : (start : ℕ) (o : Option ℕ) → Settles left 0 n (builtin_node sets start o)
    unfolding builtin_node
    builtin_node-Settles start none = search (parsing, leaf_free)
    builtin_node-Settles start (some s) = search (parsing, e.sequence_class) depth 8

    escape_of-Settles : (c : ℕ) → Settles left 0 n (escape_of sets c)
    unfolding escape_of
    escape_of-Settles c =
        search (parsing, builtin-Settles, builtin_node-Settles, escaped_point-Settles, leaf_free)
          depth 12

    pub escape_node-Settles : Settles left 0 n (escape_node sets)
    unfolding escape_node
    escape_node-Settles =
        search
          (
            parsing, take_unit_free, leaf_free, has_named_mode-Settles, named_reference-Settles,
            numeric_node-Settles, escape_of-Settles,
          )
          depth 14
