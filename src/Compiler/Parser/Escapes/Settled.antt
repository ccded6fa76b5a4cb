-- ===== src/Compiler/Parser/Escapes/Settled.antt =====
-- The escapes of src/compiler.rs and src/compiler/escapes.rs come to an end.
use perex.Base.{ℕ, zero, suc, Bool, true, false, Option, none, some}
use perex.Input.View.{Cursor}
use perex.Unicode.Casefold.{within}
use perex.Compiler.Monad.Settling.{
  Firm, returns, Firm-bind, Firm-if, Settles, seq-Settles, if-Settles, pure-Settles, lift-Settles,
  burn-Settles, pay-Settles, stuck-Settles,
}
use perex.Compiler.Parser.{Parse, take, peek, step, is_unit}
use perex.Compiler.Parser.Settled.{
  left, with_field-Settles, step-Settles, take-Settles, take_free, peek-Settles, next_unit-Firm,
  error-Settles, parsing,
}
use perex.Compiler.Parser.Leaves.Settled.{leaf_free}
use perex.Compiler.Parser.Escapes.{
  Groups, look_at_name, look_at_mark, look_at_group, count_group, scan_round, scan_loop,
  scan_groups, octal_round, octal, numeric_character, number_round, number_loop, is_reference,
  reference, numeric_node, has_named_mode, hex_round, hex_loop, hex, braced_digit, braced_loop,
  hex_or_letter, hex_escape, control_with, control, identity, plain_point, joined_with, joined,
  is_fixed, escaped_point, digit_of,
}

look_at_group-Firm : (c : Cursor) → Firm (look_at_group c)
unfolding look_at_group look_at_mark look_at_name
look_at_group-Firm c = Firm-bind (next_unit-Firm c) λ (first, c).
    Firm-if (is_unit 63 first)
      (Firm-bind (next_unit-Firm c) λ (second, c).
        Firm-if (is_unit 60 second) (Firm-bind (next_unit-Firm c) λ (third, c). returns _)
          (returns _))
      (returns _)

count_group-Settles : {n : ℕ} (g : Groups) (b : Bool × Bool) → Settles left 0 n (count_group g b)
unfolding count_group
count_group-Settles g (captures, named) = search parsing

scan_round-Settles :
    (n : ℕ) (rest : Cursor → Groups → Parse Groups) (g : Groups) (read : Option ℕ × Cursor)
    → ((c : Cursor) (g : Groups) → Settles left 0 n (rest c g))
    → Settles left 0 (suc n) (scan_round rest g read)
unfolding scan_round
scan_round-Settles n rest g (none, c) h = pure-Settles g
scan_round-Settles n rest g (some unit, c) h =
    burn-Settles step _ step-Settles
      λ u. search (parsing, next_unit-Firm, look_at_group-Firm, count_group-Settles, h) depth 12

scan_loop-Settles : (fuel : ℕ) (c : Cursor) (g : Groups) → Settles left 0 fuel (scan_loop fuel c g)
unfolding scan_loop
scan_loop-Settles zero c g = stuck-Settles _
scan_loop-Settles (suc fuel) c g =
    seq-Settles _ _ (lift-Settles _ (next_unit-Firm c))
      λ read. scan_round-Settles fuel (scan_loop fuel) g read (scan_loop-Settles fuel)

number_round-Settles :
    (n : ℕ) (rest : Option ℕ → Parse (Option ℕ)) (value next : Option ℕ)
    → ((v : Option ℕ) → Settles left 0 n (rest v))
    → Settles left 0 (suc n) (number_round rest value next)
unfolding number_round
number_round-Settles n rest value none h = pure-Settles value
number_round-Settles n rest value (some c) h =
    if-Settles (within 48 57 c) _ _ (burn-Settles take _ take-Settles λ u. h _) (pure-Settles value)

number_loop-Settles : (fuel : ℕ) (value : Option ℕ) → Settles left 0 fuel (number_loop fuel value)
unfolding number_loop
number_loop-Settles zero value = stuck-Settles _
number_loop-Settles (suc fuel) value =
    seq-Settles peek _ peek-Settles
      λ next. number_round-Settles fuel (number_loop fuel) value next (number_loop-Settles fuel)

module _ {n : ℕ} where
  scan_groups-Settles : Settles left 0 n scan_groups
  unfolding scan_groups
  scan_groups-Settles = search (parsing, scan_loop-Settles)

  octal_round-Settles :
      (rest : ℕ → Parse ℕ) (value : ℕ) (next : Option ℕ)
      → ((v : ℕ) → Settles left 0 n (rest v))
      → Settles left 0 n (octal_round rest value next)
  unfolding octal_round
  octal_round-Settles rest value none h = pure-Settles value
  octal_round-Settles rest value (some c) h = search (parsing, h)

  octal-Settles : (k value : ℕ) → Settles left 0 n (octal k value)
  unfolding octal
  octal-Settles zero value = pure-Settles value
  octal-Settles (suc k) value =
      seq-Settles peek _ peek-Settles
        λ next. octal_round-Settles (octal k) value next (octal-Settles k)

  numeric_character-Settles : (first : ℕ) → Settles left 0 n (numeric_character first)
  unfolding numeric_character
  numeric_character-Settles first = search (parsing, octal-Settles) depth 8

  is_reference-Settles : (o : Option ℕ) → Settles left 0 n (is_reference o)
  unfolding is_reference
  is_reference-Settles none = pure-Settles false
  is_reference-Settles (some number) = search (parsing, scan_groups-Settles) depth 8

  reference-Settles : (o : Option ℕ) → Settles left 0 n (reference o)
  unfolding reference
  reference-Settles none = error-Settles
  reference-Settles (some number) = leaf_free _ number 0

  pub numeric_node-Settles : (first : ℕ) → Settles left 0 n (numeric_node first)
  unfolding numeric_node
  numeric_node-Settles first =
      search
        (
          parsing, number_loop-Settles, is_reference-Settles, reference-Settles,
          numeric_character-Settles, leaf_free,
        )
        depth 14

  pub has_named_mode-Settles : Settles left 0 n has_named_mode
  unfolding has_named_mode
  has_named_mode-Settles = search (parsing, scan_groups-Settles) depth 8

  hex_round-Settles :
      (saved : Cursor) (rest : ℕ → Parse (Option ℕ)) (value : ℕ) (digit : Option ℕ)
      → ((v : ℕ) → Settles left 0 n (rest v))
      → Settles left 0 n (hex_round saved rest value digit)
  unfolding hex_round
  hex_round-Settles saved rest value none h = search parsing
  hex_round-Settles saved rest value (some digit) h = h _

  hex_loop-Settles : (saved : Cursor) (k value : ℕ) → Settles left 0 n (hex_loop saved k value)
  unfolding hex_loop
  hex_loop-Settles saved zero value = pure-Settles (some value)
  hex_loop-Settles saved (suc k) value = seq-Settles take _ take_free λ unit.
      hex_round-Settles saved (hex_loop saved k) value (digit_of unit) (hex_loop-Settles saved k)

  hex-Settles : (k : ℕ) → Settles left 0 n (hex k)
  unfolding hex
  hex-Settles k = search (parsing, hex_loop-Settles)

  hex_one-Settles : Settles left 1 n (hex 1)
  unfolding hex hex_loop
  hex_one-Settles = with_field-Settles _ _ λ saved. pay-Settles take _ take-Settles λ unit.
      hex_round-Settles saved (hex_loop saved 0) 0 (digit_of unit) (hex_loop-Settles saved 0)

  hex_or_letter-Settles : (c flags : ℕ) (o : Option ℕ) → Settles left 0 n (hex_or_letter c flags o)
  unfolding hex_or_letter
  hex_or_letter-Settles c flags none = search parsing
  hex_or_letter-Settles c flags (some value) = pure-Settles value

braced_digit-Settles :
    {n : ℕ} (rest : ℕ → ℕ → Parse ℕ) (value digits : ℕ) (o : Option ℕ)
    → ((v d : ℕ) → Settles left 0 n (rest v d))
    → Settles left 0 n (braced_digit rest value digits o)
unfolding braced_digit
braced_digit-Settles rest value digits none h = error-Settles
braced_digit-Settles rest value digits (some digit) h = search (parsing, h)

braced_loop-Settles : (fuel value digits : ℕ) → Settles left 0 fuel (braced_loop fuel value digits)
unfolding braced_loop
braced_loop-Settles zero value digits = stuck-Settles _
braced_loop-Settles (suc fuel) value digits = seq-Settles peek _ peek-Settles λ next.
    if-Settles (is_unit 125 next) _ _ (search parsing) (
      burn-Settles (hex 1) _ hex_one-Settles
        λ o. braced_digit-Settles (braced_loop fuel) value digits o (braced_loop-Settles fuel))

module _ {n : ℕ} where
  hex_escape-Settles : (c flags : ℕ) → Settles left 0 n (hex_escape c flags)
  unfolding hex_escape
  hex_escape-Settles c flags =
      search (parsing, braced_loop-Settles, hex-Settles, hex_or_letter-Settles) depth 10

  control_with-Settles :
      (in_class : Bool) (flags : ℕ) (next : Option ℕ) (b : Bool)
      → Settles left 0 n (control_with in_class flags next b)
  unfolding control_with
  control_with-Settles in_class flags next true = search parsing
  control_with-Settles in_class flags next false = search parsing

  control-Settles : (in_class : Bool) (flags : ℕ) → Settles left 0 n (control in_class flags)
  unfolding control
  control-Settles in_class flags = search (parsing, control_with-Settles)

  identity-Settles :
      (c : ℕ) (in_class : Bool) (flags : ℕ) → Settles left 0 n (identity c in_class flags)
  unfolding identity
  identity-Settles c in_class flags = search parsing

  plain_point-Settles :
      (c : ℕ) (in_class : Bool) (flags : ℕ) → Settles left 0 n (plain_point c in_class flags)
  unfolding plain_point
  plain_point-Settles c in_class flags =
      search
        (
          parsing, numeric_character-Settles, control-Settles, hex_escape-Settles,
          has_named_mode-Settles, identity-Settles,
        )
        depth 16

  joined_with-Settles :
      (saved : Cursor) (point : ℕ) (o : Option ℕ) → Settles left 0 n (joined_with saved point o)
  unfolding joined_with
  joined_with-Settles saved point none = search parsing
  joined_with-Settles saved point (some low) = search parsing

  joined-Settles : (point : ℕ) → Settles left 0 n (joined point)
  unfolding joined
  joined-Settles point = search (parsing, hex-Settles, joined_with-Settles) depth 12

  is_fixed-Settles : (c : ℕ) → Settles left 0 n (is_fixed c)
  unfolding is_fixed
  is_fixed-Settles c = search parsing

  pub escaped_point-Settles :
      (c : ℕ) (in_class : Bool) → Settles left 0 n (escaped_point c in_class)
  unfolding escaped_point
  escaped_point-Settles c in_class =
      search (parsing, is_fixed-Settles, plain_point-Settles, joined-Settles) depth 10
