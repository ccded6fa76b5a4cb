-- ===== src/Compiler/Parser/Properties.antt =====
-- The class escapes of src/compiler.rs, with `resolve` of src/properties.rs.
pub mod Settled
use perex.Base.{
  ℕ, zero, suc, ◌+◌, ◌-◌, ◌*◌, ◌/◌, ◌%◌, ◌==◌, ltb, leb, Bool, true, false, not, ◌&&◌, ◌||◌, List,
  [], ◌∷◌, ◌++◌, Option, none, some,
}
use perex.Base.{if◌then◌else◌, length, stuck}
use perex.Base
use perex.Unicode.Search.{bit}
use perex.Unicode.Casefold.{within}
use perex.Compiler.Monad.{◌>>=◌, ◌>>◌, pure, lift, modify}
use perex.Compiler.Parser.{
  Tables, Parser, Parse, is_unicode, is_ignoring_case, with_field, with_fuel, error, peek, take,
  eat, is_unit,
}
use perex.Compiler.Parser.Leaves.{range}

-- The ranges of `\d`, `\s` and `\w`.
abbrev pub digits : List (ℕ × ℕ)
digits = (48, 57) ∷ []

abbrev pub word_ranges : List (ℕ × ℕ)
word_ranges = (48, 57) ∷ (65, 90) ∷ (95, 95) ∷ (97, 122) ∷ []

abbrev pub folded_word_ranges : List (ℕ × ℕ)
folded_word_ranges =
    (48, 57) ∷ (65, 90) ∷ (95, 95) ∷ (97, 122) ∷ (0x17f, 0x17f) ∷ (0x212a, 0x212a) ∷ []

abbrev pub spaces : List (ℕ × ℕ)
spaces =
    (9, 13)
    ∷ (32, 32)
    ∷ (160, 160)
    ∷ (0x1680, 0x1680)
    ∷ (0x2000, 0x200a)
    ∷ (0x2028, 0x2029)
    ∷ (0x202f, 0x202f)
    ∷ (0x205f, 0x205f)
    ∷ (0x3000, 0x3000)
    ∷ (0xfeff, 0xfeff)
    ∷ []

-- `c | 32`.
abbrev pub lower_case : ℕ → ℕ
lower_case c = if bit c 5 then c else c + 32

unfoldable pub builtin_ranges : ℕ → ℕ → Option (List (ℕ × ℕ))
builtin_ranges c flags =
    if lower_case c == 100
    then some digits
    else if lower_case c == 119
    then some
        (if is_unicode flags && is_ignoring_case flags then folded_word_ranges else word_ranges)
    else if lower_case c == 115
    then some spaces
    else none

unfoldable pub add_ranges : List (ℕ × ℕ) → Parse (Unit {0})
add_ranges [] = pure tt
add_ranges ((lo, hi) ∷ rs) = range lo hi >> add_ranges rs

-- What is between the ranges, from `start` to the last character.
unfoldable pub add_gaps : ℕ → ℕ → List (ℕ × ℕ) → Parse (Unit {0})
add_gaps last start [] = range start last
add_gaps last start ((lo, hi) ∷ rs) =
    (if ltb start lo then range start (lo - 1) else pure tt) >> add_gaps last (suc hi) rs

add_builtin : ℕ → ℕ → Option (List (ℕ × ℕ)) → Parse Bool
add_builtin c flags none = pure false
add_builtin c flags (some rs) =
    (if bit c 5
      then add_ranges rs
      else add_gaps (if is_unicode flags then 0x10ffff else 0xffff) 0 rs)
    >> pure true

-- A byte of a property's name.
abbrev pub is_name_byte : ℕ → Bool
is_name_byte c = within 48 57 c || within 65 90 c || c == 95 || within 97 122 c

name_round : (List ℕ → Parse (List ℕ)) → List ℕ → Option ℕ → Parse (List ℕ)
name_round rest bytes none = pure bytes
name_round rest bytes (some c) =
    if is_name_byte c
    then (if length bytes == 64 then error else take >>= (λ unit. rest (bytes ++ c ∷ [])))
    else pure bytes

-- 64 bytes at most, and a round that refuses the next.
unfoldable pub property_name_loop : ℕ → List ℕ → Parse (List ℕ)
unfolding name_round
property_name_loop zero bytes = lift stuck
property_name_loop (suc fuel) bytes = peek >>= name_round (property_name_loop fuel) bytes

unfoldable pub property_name : Parse (List ℕ)
property_name = property_name_loop 66 []

-- Whether two names are the same bytes.
abbrev pub same_bytes : List ℕ → List ℕ → Bool
same_bytes [] [] = true
same_bytes (x ∷ xs) (y ∷ ys) = x == y && same_bytes xs ys
same_bytes _ _ = false

-- `gc` and `General_Category`, `sc` and `Script`, `scx` and `Script_Extensions`.
abbrev pub is_category : List ℕ → Bool
is_category name =
    same_bytes name (103 ∷ 99 ∷ [])
    || same_bytes name (
        71 ∷ 101 ∷ 110 ∷ 101 ∷ 114 ∷ 97 ∷ 108 ∷ 95 ∷ 67 ∷ 97 ∷ 116 ∷ 101 ∷ 103 ∷ 111 ∷ 114 ∷ 121
        ∷ [])

abbrev pub is_script : List ℕ → Bool
is_script name =
    same_bytes name (115 ∷ 99 ∷ []) || same_bytes name (83 ∷ 99 ∷ 114 ∷ 105 ∷ 112 ∷ 116 ∷ [])

abbrev pub is_script_extensions : List ℕ → Bool
is_script_extensions name =
    same_bytes name (115 ∷ 99 ∷ 120 ∷ [])
    || same_bytes name (
        83 ∷ 99 ∷ 114 ∷ 105 ∷ 112 ∷ 116 ∷ 95 ∷ 69 ∷ 120 ∷ 116 ∷ 101 ∷ 110 ∷ 115 ∷ 105 ∷ 111 ∷ 110
        ∷ 115 ∷ [])

-- `lookup(...).map(|id| id + EXTENSION_OFFSET)`.
abbrev pub extended : Option ℕ → ℕ → Option ℕ
extended none offset = none
extended (some id) offset = some (id + offset)

unfoldable pub resolve : Tables → List ℕ → Option (List ℕ) → Option ℕ
resolve t name none = t.lone name
resolve t name (some value) =
    if is_category name
    then t.general_category value
    else if is_script name
    then t.script value
    else if is_script_extensions name
    then extended (t.script value) t.extension_offset
    else none

-- How a term is complemented.
abbrev pub complement_kind : Bool → Bool → ℕ
complement_kind negative unicode_sets = if negative then if unicode_sets then 2 else 1 else 0

property_value : Bool → Parse (Option (List ℕ))
property_value has_value =
    if has_value then property_name >>= (λ value. pure (some value)) else pure none

end_brace : Parse (Unit {0})
end_brace = eat 125 >>= (λ closed. if closed then pure tt else error)

-- The property of strings of that name, where there is one.
strings_of : Tables → Bool → List ℕ → Option (List ℕ) → Option ℕ
strings_of t allowed name (some value) = none
strings_of t allowed name none = if allowed then t.sequence name else none

pending : Option ℕ → Parse (Unit {0})
pending none = error
pending (some s) = end_brace >> modify (λ p. record p { pending_set = some s })

resolved : Bool → List ℕ → Option (List ℕ) → Option ℕ → Parse (Unit {0})
resolved negative name value (some id) =
    end_brace
    >> with_field (λ p. p.unicode_sets) (λ v. range (id + 0x4000_0000) (complement_kind negative v))
resolved negative name value none =
    with_field (λ p. p.unicode_sets)
      (λ v. with_field (λ p. p.tables) (λ t. pending (strings_of t (v && not negative) name value)))

unfoldable pub property : Bool → Parse (Unit {0})
unfolding resolved pending strings_of property_value end_brace
property negative = eat 123 >>= (λ opened.
    if opened
    then property_name >>= (λ name. eat 61 >>= property_value >>= (λ value.
      with_field (λ p. p.tables) (λ t. resolved negative name value (resolve t name value))))
    else error)

unfoldable pub builtin : ℕ → Parse Bool
unfolding add_builtin
builtin c =
    with_field (λ p. p.flags)
      (λ flags.
        if (c == 112 || c == 80) && is_unicode flags
        then property (c == 80) >> pure true
        else add_builtin c flags (builtin_ranges c flags))
