-- ===== src/Compiler/Parser.antt =====
-- `Node`, `Parser` and its first moves in src/compiler.rs. A range is the pair of its bounds.
pub mod Settled
pub mod Leaves
pub mod Repeats
pub mod Escapes
pub mod Properties
pub mod Names
pub mod Terms
pub mod Grammar
pub mod Prepare
use perex.Base.{
  ℕ, zero, suc, ◌+◌, ◌-◌, ◌*◌, ◌/◌, ◌%◌, ◌==◌, ltb, leb, Bool, true, false, not, ◌&&◌, ◌||◌, List,
  [], ◌∷◌, Option, none, some,
}
use perex.Base.{get_elem?, set, length, if◌then◌else◌, Run, ret, panic, stuck, or_panic}
use perex.Base
use perex.Budget
use perex.Budget.{Budget}
use perex.Input.View.{Input, Cursor}
use perex.Input.Walk
use perex.Unicode.Search.{bit}
use perex.Unicode.Casefold.{CaseTables}
use perex.Unicode.Properties.{PropertyTables}
use perex.Compiler.Monad.{
  CompileError, syntax, size_limit, nodes, ok, fails, M, ◌>>=◌, ◌>>◌, pure, throw, lift, modify,
  paid,
}

pub record Node : Type 0 where
  pub kind : ℕ
  pub a : ℕ
  pub b : ℕ
  pub c : ℕ
  pub flags : ℕ
  pub first : ℕ
  pub end : ℕ
  pub len : ℕ
  pub start : ℕ
  pub reverse : Bool

-- The generated tables that the parser reads, those of names as the searches of them.
pub record Tables : Type 0 where
  pub cases : CaseTables
  pub properties : PropertyTables
  pub lone : List ℕ → Option ℕ
  pub general_category : List ℕ → Option ℕ
  pub script : List ℕ → Option ℕ
  pub extension_offset : ℕ
  pub sequence : List ℕ → Option ℕ

pub record Parser : Type 0 where
  pub tables : Tables
  pub pattern : Input
  pub cursor : Cursor
  pub flags : ℕ
  pub unicode_sets : Bool
  pub nodes : List Node
  pub used : ℕ
  pub ranges : List (ℕ × ℕ)
  pub range_used : ℕ
  pub name_chars : ℕ
  pub name_head : ℕ
  pub name_count : ℕ
  pub named_mode : Option Bool
  pub captures : ℕ
  pub capture_total : Option ℕ
  pub repeats : ℕ
  pub budget : Budget
  pub depth : ℕ
  pub filter_words : ℕ
  pub pending_set : Option ℕ

-- An operation of the parser.
abbrev pub Parse : Type 0 → Type 0
Parse A = M Parser A

-- `Node::default()`.
abbrev pub default_node : Node
default_node = record {
  kind = 0;
  a = 0;
  b = 0;
  c = 0;
  flags = 0;
  first = 0;
  end = 0;
  len = 0;
  start = 0;
  reverse = false;
}

-- The kinds of nodes that src/program.rs and src/compiler.rs name, and `u32::MAX + 1`.
abbrev pub char_kind : ℕ
char_kind = 1

abbrev pub any_kind : ℕ
any_kind = 2

abbrev pub class_kind : ℕ
class_kind = 3

abbrev pub start_kind : ℕ
start_kind = 7

abbrev pub end_kind : ℕ
end_kind = 8

abbrev pub word_kind : ℕ
word_kind = 9

abbrev pub backref_kind : ℕ
backref_kind = 10

abbrev pub assert_kind : ℕ
assert_kind = 11

abbrev pub named_backref_kind : ℕ
named_backref_kind = 17

abbrev pub empty_kind : ℕ
empty_kind = 32

abbrev pub seq_kind : ℕ
seq_kind = 33

abbrev pub alt_kind : ℕ
alt_kind = 34

abbrev pub group_kind : ℕ
group_kind = 35

abbrev pub repeat_kind : ℕ
repeat_kind = 36

abbrev pub wrap_kind : ℕ
wrap_kind = 37

abbrev pub name_meta_kind : ℕ
name_meta_kind = 38

abbrev pub name_decl_kind : ℕ
name_decl_kind = 39

abbrev pub word_values : ℕ
word_values = 0x1_0000_0000

-- `flags & U != 0` and `flags & I != 0`.
abbrev pub is_unicode : ℕ → Bool
is_unicode flags = bit flags 0

abbrev pub is_ignoring_case : ℕ → Bool
is_ignoring_case flags = bit flags 4

-- What depends on a field.
abbrev pub with_field : {A B : Type 0} → (Parser → A) → (A → Parse B) → Parse B
with_field f g p = g (f p) p

-- Fuel for a loop whose rounds each take a unit of the budget.
abbrev pub with_fuel : {A : Type 0} → (ℕ → Parse A) → Parse A
with_fuel f = with_field (λ p. suc p.budget.remaining) f

-- `checked_add` and `checked_mul` on `u32`, with the error that the caller gives.
abbrev pub checked : CompileError → ℕ → Parse ℕ
checked e n = if ltb n word_values then pure n else throw e

unfoldable pub error : {A : Type 0} → Parse A
error p = ret (fails (syntax p.cursor.utf16_offset), p)

unfoldable pub step : Parse (Unit {0})
step p = ret (paid (λ b. record p { budget = b }) (Budget.charge p.budget 1))

unfoldable pub peek : Parse (Option ℕ)
peek p = lift (Base.◌>>=◌ (Walk.next_unit p.cursor) (λ (unit, c). ret unit)) p

abbrev pub moved : {A : Type 0} → (Cursor → Run (A × Cursor)) → Parse A
moved move p = Base.◌>>=◌ (move p.cursor) (λ (a, c). ret (ok a, record p { cursor = c }))

unfoldable pub take : Parse (Option ℕ)
take = step >> moved Walk.next_unit

-- `Some(u16::from(c))`.
abbrev pub is_unit : ℕ → Option ℕ → Bool
is_unit c none = false
is_unit c (some unit) = unit == c

unfoldable pub eat : ℕ → Parse Bool
eat c = peek >>= (λ next. if is_unit c next then take >>= (λ unit. pure true) else pure false)

abbrev pub taken : Option ℕ → Parse ℕ
taken none = error
taken (some unit) = pure unit

-- `take()?.ok_or_else(|| self.error())`.
unfoldable pub take_unit : Parse ℕ
take_unit = take >>= taken

abbrev pub set_cursor : Cursor → Parse (Unit {0})
set_cursor c = modify (λ p. record p { cursor = c })

abbrev pub set_flags : ℕ → Parse (Unit {0})
set_flags flags = modify (λ p. record p { flags = flags })

-- `self.nodes[id]`, and what is written to it.
abbrev pub node_at : ℕ → Parse Node
node_at id p = lift (or_panic (get_elem? p.nodes id)) p

abbrev pub write_node : ℕ → Node → Parse (Unit {0})
write_node id n = node_at id >>= (λ old. modify (λ p. record p { nodes = set p.nodes id n }))

-- What `add` stores.
abbrev pub sized : Node → Node
sized n = if n.len == 0 && ltb n.kind empty_kind then record n { len = 1 } else n

append_node : Node → Parse ℕ
append_node n p =
    if not (ltb p.used word_values)
    then ret (fails size_limit, p)
    else if ltb p.used (length p.nodes)
    then ret (ok p.used, record p { nodes = set p.nodes p.used (sized n); used = suc p.used })
    else ret (fails nodes, p)

unfoldable pub add : Node → Parse ℕ
unfolding append_node
add n = step >> append_node n

unfoldable pub join : ℕ → ℕ → ℕ → Parse ℕ
join kind a b = node_at a >>= (λ left. node_at b >>= (λ right.
    checked size_limit (left.len + right.len) >>= (λ n.
      checked size_limit (n + (if kind == alt_kind then 2 else 0)) >>= (λ len.
        add (record default_node {
          kind = kind;
          a = a;
          b = b;
          first = Base.min left.first right.first;
          end = Base.max left.end right.end;
          len = len;
        })))))
