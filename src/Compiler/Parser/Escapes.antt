-- ===== src/Compiler/Parser/Escapes.antt =====
-- src/compiler/escapes.rs, and the escapes of one character in src/compiler.rs.
pub mod Settled
use perex.Base.{
  ℕ, zero, suc, ◌+◌, ◌-◌, ◌*◌, ◌/◌, ◌%◌, ◌==◌, ltb, leb, Bool, true, false, not, ◌&&◌, ◌||◌, List,
  [], ◌∷◌, Option, none, some,
}
use perex.Base.{if◌then◌else◌, Run, ret, stuck}
use perex.Base
use perex.Input.View.{Cursor, cursor}
use perex.Input.Walk.{next_unit, previous_unit}
use perex.Unicode.Casefold.{within}
use perex.Compiler.Monad.{size_limit, ◌>>=◌, ◌>>◌, pure, throw, lift, modify, with_state}
use perex.Compiler.Parser.{
  Parser, Parse, char_kind, backref_kind, word_values, is_unicode, with_field, with_fuel, checked,
  error, step, peek, take, eat, is_unit, moved, set_cursor,
}
use perex.Compiler.Parser.Leaves.{leaf}

-- What the scan for groups knows: whether it is in a class, whether a group has a name, and how many
-- captures there are.
pub record Groups : Type 0 where
  pub class : Bool
  pub named : Bool
  pub captures : ℕ

-- Whether the group behind the parenthesis captures, and whether it has a name.
look_at_name : Cursor → Run (Bool × Bool)
look_at_name c =
    Base.◌>>=◌ (next_unit c) (λ (third, c).
      let name : Bool = not (is_unit 61 third || is_unit 33 third) in ret (name, name))

look_at_mark : Cursor → Run (Bool × Bool)
look_at_mark c =
    Base.◌>>=◌ (next_unit c)
      (λ (second, c). if is_unit 60 second then look_at_name c else ret (false, false))

look_at_group : Cursor → Run (Bool × Bool)
look_at_group c =
    Base.◌>>=◌ (next_unit c)
      (λ (first, c). if is_unit 63 first then look_at_mark c else ret (true, false))

count_group : Groups → Bool × Bool → Parse Groups
count_group g (captures, name) =
    checked size_limit (g.captures + (if captures then 1 else 0))
    >>= (λ n. pure (record g { named = g.named || name; captures = n }))

scan_round : (Cursor → Groups → Parse Groups) → Groups → Option ℕ × Cursor → Parse Groups
scan_round rest g (none, c) = pure g
scan_round rest g (some unit, c) =
    step
    >> (if unit == 92
        then lift (next_unit c) >>= (λ (skipped, c). rest c g)
        else if unit == 91 && not g.class
        then rest c (record g { class = true })
        else if unit == 93 && g.class
        then rest c (record g { class = false })
        else if unit == 40 && not g.class
        then lift (look_at_group c) >>= count_group g >>= rest c
        else rest c g)

unfoldable pub scan_loop : ℕ → Cursor → Groups → Parse Groups
unfolding scan_round count_group look_at_group look_at_mark look_at_name
scan_loop zero c g = lift stuck
scan_loop (suc fuel) c g = lift (next_unit c) >>= scan_round (scan_loop fuel) g

unfoldable pub scan_groups : Parse (Unit {0})
scan_groups =
    with_state (λ p. with_fuel (λ fuel.
      scan_loop fuel (cursor p.pattern) (record { class = false; named = false; captures = 1 })))
    >>= (λ g. modify (λ p. record p {
      capture_total = some g.captures;
      named_mode = some (g.named || is_unicode p.flags);
    }))

-- Up to `n` more octal digits.
octal_round : (ℕ → Parse ℕ) → ℕ → Option ℕ → Parse ℕ
octal_round rest value none = pure value
octal_round rest value (some c) =
    if within 48 55 c then take >>= (λ unit. rest (value * 8 + (c - 48))) else pure value

unfoldable pub octal : ℕ → ℕ → Parse ℕ
unfolding octal_round
octal zero value = pure value
octal (suc n) value = peek >>= octal_round (octal n) value

is_digit : Option ℕ → Bool
is_digit none = false
is_digit (some c) = within 48 57 c

unfoldable pub numeric_character : ℕ → Parse ℕ
unfolding is_digit
numeric_character first =
    with_field (λ p. p.flags)
      (λ flags.
        if is_unicode flags
        then peek >>= (λ next. if first == 48 && not (is_digit next) then pure 0 else error)
        else if leb 56 first
        then pure first
        else octal (if leb first 51 then 2 else 1) (first - 48))

-- `value.and_then(|v| v.checked_mul(10)?.checked_add(digit))`.
abbrev pub appended : Option ℕ → ℕ → Option ℕ
appended none digit = none
appended (some v) digit = if ltb (v * 10 + digit) word_values then some (v * 10 + digit) else none

number_round : (Option ℕ → Parse (Option ℕ)) → Option ℕ → Option ℕ → Parse (Option ℕ)
number_round rest value none = pure value
number_round rest value (some c) =
    if within 48 57 c then take >>= (λ unit. rest (appended value (c - 48))) else pure value

unfoldable pub number_loop : ℕ → Option ℕ → Parse (Option ℕ)
unfolding number_round
number_loop zero value = lift stuck
number_loop (suc fuel) value = peek >>= number_round (number_loop fuel) value

abbrev pub is_none {ℓ} : {A : Type ℓ} → Option A → Bool
is_none none = true
is_none (some a) = false

-- Whether the number is that of a capture.
is_reference : Option ℕ → Parse Bool
is_reference none = pure false
is_reference (some number) =
    with_state
      (λ p. if leb p.captures number && is_none p.capture_total then scan_groups else pure tt)
    >> with_state (λ p. pure (ltb number p.captures || ltb number (total p.capture_total)))
  where
    total : Option ℕ → ℕ
    total none = 0
    total (some n) = n

-- `self.leaf(BACKREF, number, 0)`, which only a number that fits gets to.
reference : Option ℕ → Parse ℕ
reference none = error
reference (some number) = leaf backref_kind number 0

unfoldable pub numeric_node : ℕ → Parse ℕ
unfolding is_reference reference
numeric_node first =
    with_field (λ p. p.cursor)
      (λ after_first. with_fuel (λ fuel. number_loop fuel (some (first - 48))) >>= (λ value.
        is_reference value >>= (λ refers.
          if refers
          then reference value
          else with_field (λ p. p.flags)
              (λ flags.
                if is_unicode flags
                then error
                else set_cursor after_first
                  >> numeric_character first >>= (λ point. leaf char_kind point 0)))))

unfoldable pub has_named_mode : Parse Bool
has_named_mode =
    with_state (λ p. if is_none p.named_mode then scan_groups else pure tt)
    >> with_state (λ p. lift (Base.or_panic p.named_mode))

-- The value of a hexadecimal digit.
digit_of : Option ℕ → Option ℕ
digit_of none = none
digit_of (some c) =
    if within 48 57 c
    then some (c - 48)
    else if within 65 70 c
    then some (c - 55)
    else if within 97 102 c
    then some (c - 87)
    else none

hex_round : Cursor → (ℕ → Parse (Option ℕ)) → ℕ → Option ℕ → Parse (Option ℕ)
hex_round saved rest value none = set_cursor saved >> pure none
hex_round saved rest value (some digit) = rest (value * 16 + digit)

-- `n` digits; `n` is 4 at most, and the value below 2 to the 16.
unfoldable pub hex_loop : Cursor → ℕ → ℕ → Parse (Option ℕ)
unfolding hex_round digit_of
hex_loop saved zero value = pure (some value)
hex_loop saved (suc n) value =
    take >>= (λ unit. hex_round saved (hex_loop saved n) value (digit_of unit))

unfoldable pub hex : ℕ → Parse (Option ℕ)
hex n = with_field (λ p. p.cursor) (λ saved. hex_loop saved n 0)

-- `\\u{...}` behind its brace: the value, of at least one digit.
braced_digit : (ℕ → ℕ → Parse ℕ) → ℕ → ℕ → Option ℕ → Parse ℕ
braced_digit rest value digits none = error
braced_digit rest value digits (some digit) =
    if leb word_values (value * 16 + digit) || ltb 0x10ffff (value * 16 + digit)
    then error
    else rest (value * 16 + digit) (suc digits)

unfoldable pub braced_loop : ℕ → ℕ → ℕ → Parse ℕ
unfolding braced_digit
braced_loop zero value digits = lift stuck
braced_loop (suc fuel) value digits = peek >>= (λ next.
    if is_unit 125 next
    then (if digits == 0
        then error
        else eat 125 >>= (λ closed. if closed then pure value else error))
    else hex 1 >>= braced_digit (braced_loop fuel) value digits)

hex_or_letter : ℕ → ℕ → Option ℕ → Parse ℕ
hex_or_letter c flags (some value) = pure value
hex_or_letter c flags none = if is_unicode flags then error else pure c

-- `\\x` and `\\u`.
unfoldable pub hex_escape : ℕ → ℕ → Parse ℕ
unfolding hex_or_letter
hex_escape c flags = (if c == 117 && is_unicode flags then eat 123 else pure false) >>= (λ braced.
    if braced
    then with_fuel (λ fuel. braced_loop fuel 0 0)
    else hex (if c == 120 then 2 else 4) >>= hex_or_letter c flags)

-- `\\c`: the letter, or the prefix alone, which leaves the `c` to be read.
control_with : Bool → ℕ → Option ℕ → Bool → Parse ℕ
control_with in_class flags next true = take >>= (λ unit. pure (value_of next % 32))
  where
    value_of : Option ℕ → ℕ
    value_of none = 0
    value_of (some c) = c
control_with in_class flags next false =
    if is_unicode flags then error else moved previous_unit >>= (λ unit. pure 92)

is_control : Bool → ℕ → Option ℕ → Bool
is_control in_class flags none = false
is_control in_class flags (some c) =
    within 65 90 c
    || within 97 122 c
    || (in_class && not (is_unicode flags) && (within 48 57 c || c == 95))

unfoldable pub control : Bool → ℕ → Parse ℕ
unfolding control_with is_control
control in_class flags =
    peek >>= (λ next. control_with in_class flags next (is_control in_class flags next))

-- The characters that may be escaped with `u` alone.
abbrev pub is_syntax : ℕ → Bool
is_syntax c =
    within 91 94 c || c == 36 || within 40 43 c || within 46 47 c || c == 63 || within 123 125 c

unfoldable pub identity : ℕ → Bool → ℕ → Parse ℕ
identity c in_class flags =
    if is_unicode flags && not (is_syntax c || (in_class && c == 45)) then error else pure c

plain_point : ℕ → Bool → ℕ → Parse ℕ
plain_point c in_class flags =
    if c == 110
    then pure 10
    else if c == 114
    then pure 13
    else if c == 116
    then pure 9
    else if c == 118
    then pure 11
    else if c == 102
    then pure 12
    else if c == 98 && in_class
    then pure 8
    else if within 48 57 c
    then numeric_character c
    else if c == 99
    then control in_class flags
    else if c == 120 || c == 117
    then hex_escape c flags
    else if c == 107
    then has_named_mode >>= (λ named. if named then error else pure 107)
    else identity c in_class flags

-- The second half of a surrogate pair that is written as two escapes.
joined_with : Cursor → ℕ → Option ℕ → Parse ℕ
joined_with saved point none = set_cursor saved >> pure point
joined_with saved point (some low) =
    if within 0xdc00 0xdfff low
    then pure (0x10000 + (point - 0xd800) * 1024 + (low - 0xdc00))
    else set_cursor saved >> pure point

joined : ℕ → Parse ℕ
joined point =
    with_field (λ p. p.cursor)
      (λ saved. eat 92 >>= (λ slash.
        (if slash then eat 117 else pure false)
        >>= (λ letter. (if letter then hex 4 else pure none) >>= joined_with saved point)))

-- Whether it is a `\\u` of four digits.
is_fixed : ℕ → Parse Bool
is_fixed c = if c == 117 then peek >>= (λ next. pure (not (is_unit 123 next))) else pure false

unfoldable pub escaped_point : ℕ → Bool → Parse ℕ
unfolding plain_point joined joined_with is_fixed
escaped_point c in_class = is_fixed c >>= (λ fixed.
    with_field (λ p. p.flags)
      (λ flags. plain_point c in_class flags >>= (λ point.
        if is_unicode flags && within 0xd800 0xdbff point && fixed
        then joined point
        else pure point)))
