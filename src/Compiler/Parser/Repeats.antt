-- ===== src/Compiler/Parser/Repeats.antt =====
-- The quantifiers of src/compiler.rs, and src/compiler/repetition.rs, which joins nested ones.
pub mod Counts
pub mod Settled
use perex.Base.{
  ℕ, zero, suc, ◌+◌, ◌-◌, ◌*◌, ◌/◌, ◌%◌, ◌==◌, ltb, leb, Bool, true, false, not, ◌&&◌, ◌||◌, List,
  [], ◌∷◌, Option, none, some,
}
use perex.Base.{set, if◌then◌else◌, stuck}
use perex.Input.View.{Cursor}
use perex.Unicode.Search.{bit}
use perex.Unicode.Casefold.{within}
use perex.Compiler.Monad.{nesting_limit, size_limit, ◌>>=◌, ◌>>◌, pure, throw, lift, modify}
use perex.Compiler.Parser.{
  Parser, Parse, Node, default_node, char_kind, any_kind, class_kind, start_kind, end_kind,
  word_kind, assert_kind, empty_kind, alt_kind, repeat_kind, wrap_kind, word_values, is_unicode,
  with_field, with_fuel, checked, error, step, peek, take, eat, add, node_at, write_node,
  set_cursor,
}

abbrev pub value_or_zero : Option ℕ → ℕ
value_or_zero none = 0
value_or_zero (some n) = n

decimal_round : (Option ℕ → Parse (Option ℕ)) → Option ℕ → Option ℕ → Parse (Option ℕ)
decimal_round rest value none = pure value
decimal_round rest value (some c) =
    if within 48 57 c
    then take >>= (λ unit.
      checked size_limit (value_or_zero value * 10)
      >>= (λ n. checked size_limit (n + (c - 48)) >>= (λ m. rest (some m))))
    else pure value

unfoldable pub decimal_loop : ℕ → Option ℕ → Parse (Option ℕ)
unfolding decimal_round
decimal_loop zero value = lift stuck
decimal_loop (suc fuel) value = peek >>= decimal_round (decimal_loop fuel) value

unfoldable pub decimal : Parse (Option ℕ)
decimal = with_fuel (λ fuel. decimal_loop fuel none)

-- The bounds of a repeat, and whether it has no upper one.
abbrev pub Bounds : Type 0
Bounds = ℕ × ℕ × Bool

no_braces : Cursor → Parse (Option Bounds)
no_braces saved = set_cursor saved >> pure none

closing : Cursor → Bounds → Parse (Option Bounds)
closing saved (min, max, infinite) = eat 125 >>= (λ closed.
    if not closed
    then no_braces saved
    else if not infinite && ltb max min
    then error
    else pure (some (min, max, infinite)))

upper : ℕ → Option ℕ → Bounds
upper min none = (min, 0, true)
upper min (some max) = (min, max, false)

braces_from : Cursor → Option ℕ → Parse (Option Bounds)
braces_from saved none = no_braces saved
braces_from saved (some min) = eat 44 >>= (λ comma.
    if comma
    then decimal >>= (λ max. closing saved (upper min max))
    else closing saved (min, min, false))

unfoldable pub braces : Parse (Option Bounds)
unfolding braces_from closing no_braces upper
braces =
    with_field (λ p. p.cursor)
      (λ saved. eat 123 >>= (λ opened. if opened then decimal >>= braces_from saved else pure none))

-- `while self.nodes[id].kind == WRAP`.
unfoldable pub unwrap_loop : ℕ → ℕ → Parse ℕ
unwrap_loop zero id = lift stuck
unwrap_loop (suc fuel) id =
    node_at id >>= (λ n. if n.kind == wrap_kind then step >> unwrap_loop fuel n.a else pure id)

unfoldable pub unwrapped : ℕ → Parse ℕ
unwrapped id = with_fuel (λ fuel. unwrap_loop fuel id)

-- What is inside the repeat: its body and its bounds, where it can be joined with one around it.
inner_of : Node → Parse (Option (ℕ × Bounds))
inner_of n =
    if n.kind == repeat_kind && not (bit n.flags 1) && leb n.b 1
    then pure (some (n.a, (n.b, n.c, bit n.flags 0)))
    else if n.kind == alt_kind
    then unwrapped n.b >>= (λ empty.
      node_at empty
      >>= (λ e. pure (if e.kind == empty_kind then some (n.a, (0, 1, false)) else none)))
    else pure none

-- The bounds of a greedy repeat of a greedy repeat of one atom, unless the product is no `u32`.
unfoldable pub combined : Bounds → Bounds → Option Bounds
combined (min, max, infinite) (inner_min, inner_max, inner_infinite) =
    let empty : Bool = (not infinite && max == 0) || (not inner_infinite && inner_max == 0) in
    let unbounded : Bool = not empty && (infinite || inner_infinite) in
    if empty || unbounded
    then some (min * inner_min, 0, unbounded)
    else if ltb (max * inner_max) word_values
    then some (min * inner_min, max * inner_max, unbounded)
    else none

-- `while wrapper != id`.
unfoldable pub resize_loop : ℕ → ℕ → ℕ → ℕ → Parse (Unit {0})
resize_loop zero id len wrapper = lift stuck
resize_loop (suc fuel) id len wrapper =
    if wrapper == id
    then pure tt
    else step
      >> node_at wrapper
        >>= (λ n. write_node wrapper (record n { len = len }) >> resize_loop fuel id len n.a)

resize : ℕ → ℕ → ℕ → Parse Bool
resize id len child = with_fuel (λ fuel. resize_loop fuel id len child) >> pure true

-- `u32::from(b)`.
abbrev pub bool_word : Bool → ℕ
bool_word b = if b then 1 else 0

checked_count : ℕ → Parse (Unit {0})
checked_count repeats =
    checked size_limit (repeats + 1) >>= (λ n. modify (λ p. record p { repeats = n }))

merge_bounds : ℕ → ℕ → Node → ℕ → Option Bounds → Parse Bool
merge_bounds child id n body none = pure false
merge_bounds child id n body (some (min, max, infinite)) =
    (if n.kind == alt_kind then with_field (λ p. p.repeats) (checked_count) else pure tt)
    >> node_at body >>= (λ inner. checked size_limit (inner.len + 4) >>= (λ len.
      write_node id (record n {
        kind = repeat_kind;
        a = body;
        b = min;
        c = max;
        flags = bool_word infinite;
        len = len;
      })
      >> resize id len child))

-- Whether a node takes one character.
abbrev pub is_atom : ℕ → Bool
is_atom kind = kind == char_kind || kind == class_kind || kind == any_kind

merge_inner : ℕ → Bounds → ℕ → Node → Option (ℕ × Bounds) → Parse Bool
merge_inner child outer id n none = pure false
merge_inner child outer id n (some (body, inner)) = unwrapped body >>= (λ atom.
    node_at atom >>= (λ a.
      if is_atom a.kind then merge_bounds child id n body (combined outer inner) else pure false))

unfoldable pub merge_repetition : ℕ → Bounds → Parse Bool
unfolding merge_inner merge_bounds checked_count resize inner_of
merge_repetition child outer =
    unwrapped child >>= (λ id. node_at id >>= (λ n. inner_of n >>= merge_inner child outer id n))

simple_quantifier : Option ℕ → Option Bounds
simple_quantifier none = none
simple_quantifier (some c) =
    if c == 42
    then some (0, 0, true)
    else if c == 43
    then some (1, 0, true)
    else if c == 63
    then some (0, 1, false)
    else none

bound_of : Option ℕ → Option Bounds → Parse (Option Bounds)
bound_of next (some bounds) = take >>= (λ unit. pure (some bounds))
bound_of none none = pure none
bound_of (some c) none = if c == 123 then braces else pure none

add_repeat : ℕ → Node → Bounds → Bool → Parse ℕ
add_repeat child node (min, max, infinite) lazy =
    with_field (λ p. p.repeats)
      (λ id. checked size_limit (id + 1) >>= (λ repeats.
        modify (λ p. record p { repeats = repeats })
        >> checked size_limit (node.len + 4) >>= (λ len. add (record default_node {
          kind = repeat_kind;
          a = child;
          b = min;
          c = max;
          flags = bool_word infinite + 2 * bool_word lazy;
          first = node.first;
          end = node.end;
          len = len;
          start = id;
        }))))

quantified : ℕ → Node → Bounds → Parse ℕ
quantified child node bounds = eat 63 >>= (λ lazy.
    (if lazy then pure false else merge_repetition child bounds)
    >>= (λ merged. if merged then pure child else add_repeat child node bounds lazy))

quantify : ℕ → Option Bounds → Parse ℕ
quantify child none = pure child
quantify child (some bounds) = node_at child >>= (λ node.
    with_field (λ p. p.flags)
      (λ flags.
        if node.kind == start_kind || node.kind == end_kind || node.kind == word_kind
        then error
        else if node.kind == assert_kind && (is_unicode flags || bit node.flags 1)
        then error
        else quantified child node bounds))

unfoldable pub quantifier : ℕ → Parse ℕ
unfolding quantify quantified add_repeat bound_of simple_quantifier
quantifier child = peek >>= (λ next. bound_of next (simple_quantifier next)) >>= quantify child
