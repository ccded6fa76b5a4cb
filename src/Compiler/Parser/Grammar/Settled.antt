-- ===== src/Compiler/Parser/Grammar/Settled.antt =====
-- `atom`, `sequence` and `disjunction` of src/compiler.rs come to an end: the fuel of each loop is more
-- than the budget, of which each round takes some.
use perex.Base.{ℕ, zero, suc, ◌==◌, ◌≤◌, arith, min, ◌&&◌, ◌||◌, Option, none, some, Run}
use perex.Input.View.{Cursor}
use perex.Compiler.Monad.{Result}
use perex.Compiler.Monad.Settling.{
  Ending, done, failed, panicked, Ending-if, Settles, seq-Settles, pay-Settles, spend-Settles,
  if-Settles, pure-Settles, burn-Settles, fewer-Settles, stuck-Settles,
}
use perex.Compiler.Parser.{
  Parser, Parse, any_kind, start_kind, end_kind, is_unicode, take_unit, peek, join,
}
use perex.Compiler.Parser.Settled.{
  left, with_field-Settles, with_fuel_below, take_unit-Settles, peek-Settles, eat-Settles,
  error-Settles, join-Settles, join_free, parsing,
}
use perex.Compiler.Parser.Leaves.Settled.{leaf_free}
use perex.Compiler.Parser.Repeats.{quantifier}
use perex.Compiler.Parser.Repeats.Settled.{braces-Settles, quantifier-Settles}
use perex.Compiler.Parser.Names.Settled.{name-Settles, declare_name-Settles}
use perex.Compiler.Parser.Terms.{Sets}
use perex.Compiler.Parser.Terms.Settled.{
  SetsEnd, modifiers-Settles, class-Settles, escape_node-Settles,
}
use perex.Compiler.Parser.Grammar.{
  Opening, named_group, look_behind, special_group, open_group, keep_flags, keeping_flags, wrapper,
  link_declaration, group_node, close_group, count_capture, group, brace, literal, atom_of, atom,
  is_sequence_end, append_term, finish_sequence, sequence_loop, alternatives, enter, disjunction,
}

module _ {n : ℕ} where
  named_group-Settles : (capture : ℕ) → Settles left 0 n (named_group capture)
  unfolding named_group
  named_group-Settles capture = search (parsing, name-Settles, declare_name-Settles) depth 8

  look_behind-Settles : (capture : ℕ) → Settles left 0 n (look_behind capture)
  unfolding look_behind
  look_behind-Settles capture = search (parsing, named_group-Settles) depth 8

  special_group-Settles : (capture : ℕ) → Settles left 0 n (special_group capture)
  unfolding special_group
  special_group-Settles capture = search (parsing, look_behind-Settles, modifiers-Settles) depth 16

  open_group-Settles : (capture : ℕ) → Settles left 0 n (open_group capture)
  unfolding open_group
  open_group-Settles capture = search (parsing, special_group-Settles)

  keeping_flags-Settles :
      {A : Type 0} (flags : ℕ) (m : Parse A)
      → Settles left 0 n m
      → Settles left 0 n (keeping_flags flags m)
  keeping_flags-Settles {A = A} flags m h = record { at = λ p l. put p (h.at p l) }
    where
      put :
          (p : Parser) {r : Run (Result A × Parser)}
          → Ending left 0 p r
          → Ending left 0 p (keep_flags flags r)
      put p (done a t q) = done a _ q
      put p (failed e t) = failed e _
      put p panicked = panicked

  wrapper-Settles : (child : ℕ) → Settles left 0 n (wrapper child)
  unfolding wrapper
  wrapper-Settles child = search parsing

  link_declaration-Settles : (o : Option ℕ) (g : ℕ) → Settles left 0 n (link_declaration o g)
  unfolding link_declaration
  link_declaration-Settles none g = pure-Settles tt
  link_declaration-Settles (some id) g = search parsing

  group_node-Settles :
      (capture : ℕ) (o : Opening) (child : ℕ) → Settles left 0 n (group_node capture o child)
  unfolding group_node
  group_node-Settles capture o child = search (parsing, link_declaration-Settles) depth 10

  close_group-Settles :
      (capture : ℕ) (o : Opening) (child : ℕ) → Settles left 0 n (close_group capture o child)
  unfolding close_group
  close_group-Settles capture o child =
      search (parsing, wrapper-Settles, group_node-Settles) depth 8

  count_capture-Settles : (o : Opening) → Settles left 0 n (count_capture o)
  unfolding count_capture
  count_capture-Settles o = search parsing depth 8

  group-Settles : (body : Parse ℕ) → Settles left 0 n body → Settles left 0 n (group body)
  unfolding group
  group-Settles body h =
      with_field-Settles (λ p. p.flags) _
        λ flags.
          with_field-Settles (λ p. p.captures) _
            λ capture. seq-Settles (open_group capture) _ (open_group-Settles capture) λ o.
              seq-Settles (count_capture o) _ (count_capture-Settles o) λ u.
                seq-Settles (keeping_flags flags body) _ (keeping_flags-Settles flags body h)
                  (close_group-Settles capture o)

  brace-Settles : (before : Cursor) → Settles left 0 n (brace before)
  unfolding brace
  brace-Settles before = search (parsing, braces-Settles, leaf_free) depth 12

  literal-Settles : (before : Cursor) → Settles left 0 n (literal before)
  unfolding literal
  literal-Settles before = search (parsing, leaf_free) depth 12

  append_term-Settles : (o : Option ℕ) (node : ℕ) → Settles left 0 n (append_term o node)
  unfolding append_term
  append_term-Settles none node = pure-Settles node
  append_term-Settles (some first) node = join_free _ first node

  finish_sequence-Settles : (o : Option ℕ) → Settles left 0 n (finish_sequence o)
  unfolding finish_sequence
  finish_sequence-Settles none = search parsing
  finish_sequence-Settles (some node) = pure-Settles node

  enter-Settles : Settles left 0 n enter
  unfolding enter
  enter-Settles = record { at = λ p l. Ending-if _ (failed _ _) (done tt _ (omega arith)) }

  module _ (sets : Sets) (e : SetsEnd sets) where
    atom_of-Settles :
        (body : Parse ℕ) (before : Cursor) (c : ℕ)
        → Settles left 0 n body
        → Settles left 0 n (atom_of sets body before c)
    unfolding atom_of
    atom_of-Settles body before c h =
        with_field-Settles (λ p. p.flags) _
          λ flags. if-Settles (c == 40) _ _ (group-Settles body h) (
            if-Settles (c == 46) _ _ (leaf_free any_kind 0 0) (
              if-Settles (c == 94) _ _ (leaf_free start_kind 0 0) (
                if-Settles (c == 36) _ _ (leaf_free end_kind 0 0) (
                  if-Settles (c == 91) _ _ (class-Settles sets e) (
                    if-Settles (c == 92) _ _ (escape_node-Settles sets e) (
                      if-Settles (c == 42 || c == 43 || c == 63) _ _ error-Settles (
                        if-Settles (c == 123) _ _ (brace-Settles before) (
                          if-Settles ((c == 93 || c == 125) && is_unicode flags) _ _ error-Settles
                            (literal-Settles before)))))))))

module _ (sets : Sets) (e : SetsEnd sets) where
  -- The body of a group is read behind its parenthesis.
  atom-Settles :
      {n : ℕ} (body : Parse ℕ) → Settles left 0 n body → Settles left 1 (suc n) (atom sets body)
  unfolding atom
  atom-Settles body h = with_field-Settles _ _ λ before.
      spend-Settles take_unit _ take_unit-Settles λ c. atom_of-Settles sets e body before c h

  sequence_loop-Settles :
      (body : Parse ℕ) (f k m : ℕ) (o : Option ℕ)
      → Settles left 0 f body
      → m ≤ k
      → m ≤ suc f
      → Settles left 0 m (sequence_loop sets body k o)
  unfolding sequence_loop
  sequence_loop-Settles body f k zero o h a b = stuck-Settles _
  sequence_loop-Settles body f zero (suc m) o h a b = absurd (omega arith)
  sequence_loop-Settles body f (suc k) (suc m) o h a b = seq-Settles peek _ peek-Settles λ next.
      if-Settles (is_sequence_end next) _ _ (finish_sequence-Settles o) (
        burn-Settles _ _
          (pay-Settles _ _
            (pay-Settles (atom sets body) quantifier
              (atom-Settles body (fewer-Settles body (omega arith) h)) quantifier-Settles)
            (append_term-Settles o))
          λ node. sequence_loop-Settles body f k m (some node) h (omega arith) (omega arith))

  alternatives-Settles :
      (body : Parse ℕ) (f k m node : ℕ)
      → Settles left 0 f body
      → m ≤ k
      → m ≤ suc f
      → Settles left 0 m (alternatives sets body k node)
  unfolding alternatives
  alternatives-Settles body f k zero node h a b = stuck-Settles _
  alternatives-Settles body f zero (suc m) node h a b = absurd (omega arith)
  alternatives-Settles body f (suc k) (suc m) node h a b = seq-Settles _ _ (eat-Settles 124) λ bar.
      if-Settles bar _ _
        (seq-Settles _ _
          (with_fuel_below _ λ fuel.
            sequence_loop-Settles body f fuel (min fuel (suc m)) none h (omega arith) (omega arith))
          λ right.
            burn-Settles (join _ node right) _ (join-Settles _ node right)
              λ node. alternatives-Settles body f k m node h (omega arith) (omega arith))
        (search parsing)

  pub disjunction-Settles : (fuel : ℕ) → Settles left 0 fuel (disjunction sets fuel)
  unfolding disjunction
  disjunction-Settles zero = stuck-Settles _
  disjunction-Settles (suc fuel) = seq-Settles _ _ enter-Settles λ u.
      seq-Settles _ _
        (with_fuel_below _ λ k.
          sequence_loop-Settles (disjunction sets fuel) fuel k (min k (suc fuel)) none
            (disjunction-Settles fuel) (omega arith) (omega arith))
        λ node. with_fuel_below _ λ k.
          alternatives-Settles (disjunction sets fuel) fuel k (min k (suc fuel)) node
            (disjunction-Settles fuel) (omega arith) (omega arith)
