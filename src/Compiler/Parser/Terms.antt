-- ===== src/Compiler/Parser/Terms.antt =====
-- Modifiers, classes and escapes as terms in src/compiler.rs. The class of the `v` flag, which
-- src/compiler/sets.rs parses, and the class of a property of strings are arguments.
pub mod Settled
use perex.Base.{
  ℕ, zero, suc, ◌+◌, ◌-◌, ◌*◌, ◌/◌, ◌%◌, ◌==◌, ltb, leb, Bool, true, false, not, ◌&&◌, ◌||◌, List,
  Option, none, some,
}
use perex.Base.{if◌then◌else◌, stuck}
use perex.Input.Points.{next_point}
use perex.Input.Walk.{next_unit}
use perex.Unicode.Search.{bit}
use perex.Unicode.Casefold.{within}
use perex.Compiler.Monad.{size_limit, ◌>>=◌, ◌>>◌, pure, throw, lift, modify}
use perex.Compiler.Parser.{
  Parser, Parse, class_kind, char_kind, word_kind, named_backref_kind, word_values, is_unicode,
  with_field, with_fuel, error, step, peek, take, take_unit, eat, is_unit, moved, set_flags,
}
use perex.Compiler.Parser.Leaves.{range, leaf}
use perex.Compiler.Parser.Repeats.{bool_word}
use perex.Compiler.Parser.Escapes.{escaped_point, numeric_node, has_named_mode}
use perex.Compiler.Parser.Properties.{builtin}
use perex.Compiler.Parser.Names.{name}

-- What src/compiler/sets.rs gives the parser: `class_set` and `sequence_class`.
pub record Sets : Type 0 where
  pub class_set : Parse ℕ
  pub sequence_class : ℕ → Parse ℕ

-- Some of the flags `i`, `m` and `s`.
pub record Modifiers : Type 0 where
  pub i : Bool
  pub m : Bool
  pub s : Bool

abbrev pub no_modifiers : Modifiers
no_modifiers = record { i = false; m = false; s = false }

-- What the modifiers read so far come to, and whether the hyphen was read.
pub record Changes : Type 0 where
  pub added : Modifiers
  pub removed : Modifiers
  pub subtract : Bool

-- `seen`: every flag is in one of the two.
abbrev pub is_seen : (Modifiers → Bool) → Changes → Bool
is_seen f g = f g.added || f g.removed

abbrev pub put : (Modifiers → Modifiers) → Changes → Changes
put f g = if g.subtract then record g { removed = f g.removed } else record g { added = f g.added }

abbrev pub set_i : Modifiers → Modifiers
set_i f = record f { i = true }

abbrev pub set_m : Modifiers → Modifiers
set_m f = record f { m = true }

abbrev pub set_s : Modifiers → Modifiers
set_s f = record f { s = true }

-- The bit `k` of the flags, set where it is added and cleared where it is removed.
abbrev pub change_bit : ℕ → ℕ → Bool → Bool → ℕ → ℕ
change_bit k value added removed flags =
    if removed
    then (if bit flags k then flags - value else flags)
    else if added && not (bit flags k)
    then flags + value
    else flags

-- `(self.flags | add) & !remove`.
unfoldable pub changed_flags : Changes → ℕ → ℕ
changed_flags g flags =
    change_bit 1 2 g.added.m g.removed.m
      (change_bit 2 4 g.added.s g.removed.s (change_bit 4 16 g.added.i g.removed.i flags))

-- `seen == 0`.
abbrev pub is_unchanged : Changes → Bool
is_unchanged g = not (is_seen (λ f. f.i) g || is_seen (λ f. f.m) g || is_seen (λ f. f.s) g)

add_modifier :
    (Changes → Parse (Unit {0}))
    → (Modifiers → Bool)
    → (Modifiers → Modifiers)
    → Changes
    → Parse (Unit {0})
add_modifier rest test f g = take >>= (λ unit. if is_seen test g then error else rest (put f g))

end_modifiers : Changes → Parse (Unit {0})
end_modifiers g = take >>= (λ unit.
    if is_unchanged g
    then error
    else with_field (λ p. p.flags) (λ flags. set_flags (changed_flags g flags)))

modifier_round : (Changes → Parse (Unit {0})) → Changes → Option ℕ → Parse (Unit {0})
modifier_round rest g next =
    if is_unit 105 next
    then add_modifier rest (λ f. f.i) set_i g
    else if is_unit 109 next
    then add_modifier rest (λ f. f.m) set_m g
    else if is_unit 115 next
    then add_modifier rest (λ f. f.s) set_s g
    else if is_unit 45 next && not g.subtract
    then take >>= (λ unit. rest (record g { subtract = true }))
    else if is_unit 58 next
    then end_modifiers g
    else error

unfoldable pub modifiers_loop : ℕ → Changes → Parse (Unit {0})
unfolding modifier_round add_modifier end_modifiers
modifiers_loop zero g = lift stuck
modifiers_loop (suc fuel) g = peek >>= modifier_round (modifiers_loop fuel) g

unfoldable pub modifiers : Parse (Unit {0})
modifiers = with_fuel (λ fuel.
    modifiers_loop fuel (record { added = no_modifiers; removed = no_modifiers; subtract = false }))

some_or_error : Option ℕ → Parse (Option ℕ)
some_or_error none = error
some_or_error (some point) = pure (some point)

class_escape : Parse (Option ℕ)
class_escape = take_unit >>= (λ c.
    builtin c
    >>= (λ done. if done then pure none else escaped_point c true >>= (λ point. pure (some point))))

unfoldable pub class_atom : Parse (Option ℕ)
unfolding class_escape some_or_error
class_atom = eat 92 >>= (λ slash.
    if slash
    then class_escape
    else step
      >> with_field (λ p. p.flags)
          (λ flags.
            (if is_unicode flags then moved next_point else moved next_unit) >>= some_or_error))

add_single : Option ℕ → Parse (Unit {0})
add_single none = pure tt
add_single (some c) = range c c

-- Two atoms about a hyphen.
add_pair : Option ℕ → Option ℕ → Parse (Unit {0})
add_pair (some lo) (some hi) = if ltb hi lo then error else range lo hi
add_pair left right =
    with_field (λ p. p.flags)
      (λ flags.
        if is_unicode flags then error else add_single left >> add_single right >> range 45 45)

class_member : Parse (Unit {0})
class_member = class_atom >>= (λ left. eat 45 >>= (λ dash. peek >>= (λ next.
    if dash && not (is_unit 93 next)
    then class_atom >>= add_pair left
    else add_single left >> (if dash then range 45 45 else pure tt))))

class_round : Parse (Unit {0}) → Option ℕ → Parse (Unit {0})
class_round rest none = error
class_round rest (some c) = if c == 93 then pure tt else class_member >> rest

unfoldable pub class_loop : ℕ → Parse (Unit {0})
unfolding class_round class_member add_pair add_single
class_loop zero = lift stuck
class_loop (suc fuel) = peek >>= class_round (class_loop fuel)

-- The class's node: where its ranges begin, how many there are and whether it is negated.
class_leaf : ℕ → Bool → ℕ → Parse ℕ
class_leaf start negative count =
    if leb 0x8000_0000 count
    then throw size_limit
    else leaf class_kind (start % word_values) (count + 0x8000_0000 * bool_word negative)

plain_class : Parse ℕ
plain_class = eat 94 >>= (λ negative.
    with_field (λ p. p.range_used)
      (λ start.
        with_fuel class_loop
        >> take >>= (λ unit.
          with_field (λ p. p.range_used) (λ used. class_leaf start negative (used - start)))))

unfoldable pub class : Sets → Parse ℕ
unfolding plain_class class_leaf
class sets = with_field (λ p. p.unicode_sets) (λ v. if v then sets.class_set else plain_class)

-- The class of a class escape, or the set of strings that it named.
builtin_node : Sets → ℕ → Option ℕ → Parse ℕ
builtin_node sets start (some s) =
    modify (λ p. record p { pending_set = none }) >> sets.sequence_class s
builtin_node sets start none =
    with_field (λ p. p.range_used)
      (λ used. leaf class_kind (start % word_values) ((used - start) % word_values))

named_reference : Parse ℕ
named_reference =
    eat 60 >>= (λ opened. if opened then name >>= (λ id. leaf named_backref_kind id 0) else error)

escape_of : Sets → ℕ → Parse ℕ
escape_of sets c =
    with_field (λ p. p.range_used)
      (λ start. builtin c >>= (λ done.
        if done
        then with_field (λ p. p.pending_set) (builtin_node sets start)
        else escaped_point c false >>= (λ point. leaf char_kind point 0)))

unfoldable pub escape_node : Sets → Parse ℕ
unfolding named_reference escape_of builtin_node
escape_node sets = take_unit >>= (λ c.
    if c == 98 || c == 66
    then leaf word_kind (bool_word (c == 66)) 0
    else (if c == 107 then has_named_mode else pure false) >>= (λ named.
        if named
        then named_reference
        else if within 49 57 c
        then numeric_node c
        else escape_of sets c))
