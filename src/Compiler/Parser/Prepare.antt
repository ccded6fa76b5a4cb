-- ===== src/Compiler/Parser/Prepare.antt =====
-- `prepare_with` of src/compiler.rs: the flags, the parse, the checks behind it and the sizes.
pub mod Settled
use perex.Base.{
  ℕ, zero, suc, ◌+◌, ◌-◌, ◌*◌, ◌==◌, ltb, leb, Bool, true, false, not, ◌&&◌, ◌||◌, List, [], ◌∷◌,
  Option, none, some,
}
use perex.Base.{if◌then◌else◌, length, Run, ret, panic}
use perex.Base
use perex.Budget.{Budget}
use perex.Input.View.{Input, cursor}
use perex.Program.{header}
use perex.Unicode.Search.{bit}
use perex.Compiler.Monad.{
  CompileError, syntax, size_limit, Result, ok, fails, M, ◌>>=◌, ◌>>◌, pure, throw, lift, modify,
  with_state,
}
use perex.Compiler.Parser.{
  Tables, Parser, Parse, Node, backref_kind, word_values, is_unicode, with_field, with_fuel,
  checked, error, step, peek, node_at,
}
use perex.Compiler.Parser.Names.{check_names, names_words, checked_size}
use perex.Compiler.Parser.Terms.{Sets}
use perex.Compiler.Parser.Grammar.{disjunction}

-- Which of the flags `dgimsuvy` a string has.
pub record Letters : Type 0 where
  pub d : Bool
  pub g : Bool
  pub i : Bool
  pub m : Bool
  pub s : Bool
  pub u : Bool
  pub v : Bool
  pub y : Bool

abbrev pub no_letters : Letters
no_letters = record {
  d = false;
  g = false;
  i = false;
  m = false;
  s = false;
  u = false;
  v = false;
  y = false;
}

-- A letter that is not there yet.
unseen : Bool → Letters → Option Letters
unseen true next = none
unseen false next = some next

unfoldable pub add_letter : ℕ → Letters → Option Letters
unfolding unseen
add_letter c l =
    if c == 100
    then unseen l.d (record l { d = true })
    else if c == 103
    then unseen l.g (record l { g = true })
    else if c == 105
    then unseen l.i (record l { i = true })
    else if c == 109
    then unseen l.m (record l { m = true })
    else if c == 115
    then unseen l.s (record l { s = true })
    else if c == 117
    then unseen l.u (record l { u = true })
    else if c == 118
    then unseen l.v (record l { v = true })
    else if c == 121
    then unseen l.y (record l { y = true })
    else none

then_letters : (Letters → Option Letters) → Option Letters → Option Letters
then_letters rest none = none
then_letters rest (some l) = rest l

unfoldable pub read_letters : List ℕ → Letters → Option Letters
unfolding then_letters
read_letters [] l = some l
read_letters (c ∷ cs) l = then_letters (read_letters cs) (add_letter c l)

-- `seen & 96 == 96`.
not_both : Option Letters → Option Letters
not_both none = none
not_both (some l) = if l.u && l.v then none else some l

-- `none` stands for the syntax error at offset 0.
unfoldable pub parse_flags : List ℕ → Option Letters
unfolding not_both
parse_flags cs = not_both (read_letters cs no_letters)

abbrev value_if : ℕ → Bool → ℕ
value_if value b = if b then value else 0

-- The program's flags: `U`, `M`, `S`, `Y` and `I`.
unfoldable pub flag_bits : Letters → ℕ
flag_bits l =
    value_if 1 (l.u || l.v) + value_if 2 l.m + value_if 4 l.s + value_if 8 l.y + value_if 16 l.i

unfoldable pub initial : Tables → Input → Letters → List Node → List (ℕ × ℕ) → Budget → Parser
initial tables pattern l nodes ranges budget = record {
  tables = tables;
  pattern = pattern;
  cursor = cursor pattern;
  flags = flag_bits l;
  unicode_sets = l.v;
  nodes = nodes;
  used = 0;
  ranges = ranges;
  range_used = 0;
  name_chars = 0;
  name_head = 0;
  name_count = 0;
  named_mode = if l.u || l.v then some true else none;
  captures = 1;
  capture_total = none;
  repeats = 0;
  budget = budget;
  depth = 0;
  filter_words = 0;
  pending_set = none;
}

pub record Prepared : Type 0 where
  pub nodes : List Node
  pub ranges : List (ℕ × ℕ)
  pub used : ℕ
  pub range_used : ℕ
  pub name_count : ℕ
  pub captures : ℕ
  pub repeats : ℕ
  pub flags : ℕ
  pub root : ℕ
  pub count : ℕ
  pub base_size : ℕ
  pub size : ℕ
  pub filter_words : ℕ
  pub forward : Bool

-- `for node in &nodes[..used]`: a reference is to a capture there is.
unfoldable pub check_references : ℕ → ℕ → Parse (Unit {0})
check_references zero i = pure tt
check_references (suc n) i =
    step
    >> node_at i >>= (λ node.
      with_field (λ p. p.captures)
        (λ captures.
          if node.kind == backref_kind && leb captures node.a
          then error
          else check_references n (suc i)))

abbrev is_some_unit : Option ℕ → Bool
is_some_unit none = false
is_some_unit (some unit) = true

check_end : Parse (Unit {0})
check_end = peek >>= (λ next. if is_some_unit next then error else pure tt)

-- How many instructions there are, and the words up to the names.
unfoldable pub base_words : ℕ → Parser → ℕ
base_words count p = header + count * 3 + p.range_used * 2 + p.repeats * 8 + p.filter_words

sized : ℕ → ℕ → ℕ → ℕ → Parse Prepared
sized root bits count base = names_words >>= (λ names. checked_size (base + names) >>= (λ size.
    with_field (λ p. (p.captures + p.repeats) * 2)
      (λ registers.
        if ltb 0xffff_ffff size || leb word_values registers
        then throw size_limit
        else with_state (λ p. pure (record {
          nodes = p.nodes;
          ranges = p.ranges;
          used = p.used;
          range_used = p.range_used;
          name_count = p.name_count;
          captures = p.captures;
          repeats = p.repeats;
          flags = bits;
          root = root;
          count = count;
          base_size = base;
          size = size;
          filter_words = p.filter_words;
          forward = false;
        })))))

unfoldable pub plan : ℕ → ℕ → Parse Prepared
unfolding sized
plan bits root = node_at root >>= (λ n. checked size_limit (n.len + 3) >>= (λ count.
    with_field (base_words count)
      (λ words. checked_size words >>= (λ base. sized root bits count base))))

unfoldable pub parse : Sets → ℕ → Parse Prepared
unfolding check_end
parse sets bits = with_fuel (disjunction sets) >>= (λ root.
    check_end
    >> check_names
    >> with_field (λ p. p.used) (λ used. check_references used 0)
    >> plan bits root)

prepare_with : Sets → (Letters → Parser) → Option Letters → Run (Result Prepared × Option Parser)
prepare_with sets start none = ret (fails (syntax 0), none)
prepare_with sets start (some l) =
    Base.◌>>=◌ (parse sets (flag_bits l) (start l)) (λ (r, p). ret (r, some p))

-- The plan, and the parser that it leaves where the flags let it start.
unfoldable pub prepare :
    Sets
    → Tables
    → Input
    → List ℕ
    → List Node
    → List (ℕ × ℕ)
    → Budget
    → Run (Result Prepared × Option Parser)
unfolding prepare_with
prepare sets tables pattern flags nodes ranges budget =
    prepare_with sets (λ l. initial tables pattern l nodes ranges budget) (parse_flags flags)
