-- ===== src/Compiler/Parser/Names.antt =====
-- src/compiler/names.rs: group names in the parser's scratch, their declarations, and the check of the
-- tree for them.
pub mod Settled
use perex.Base.{
  ℕ, zero, suc, ◌+◌, ◌-◌, ◌*◌, ◌/◌, ◌%◌, ◌==◌, ltb, leb, Bool, true, false, not, ◌&&◌, ◌||◌, List,
  Option, none, some,
}
use perex.Base.{get_elem?, set, length, if◌then◌else◌, Run, ret, stuck, panic, or_panic}
use perex.Base
use perex.Input.Points.{next_point}
use perex.Unicode.Search.{bit}
use perex.Unicode.Properties.{identifier}
use perex.Compiler.Monad.{
  size_limit, ranges, ok, fails, Result, ◌>>=◌, ◌>>◌, pure, throw, lift, modify, with_state,
}
use perex.Compiler.Parser.{
  Parser, Parse, Node, default_node, name_meta_kind, name_decl_kind, seq_kind, alt_kind, group_kind,
  wrap_kind, assert_kind, repeat_kind, named_backref_kind, backref_kind, word_values, is_unicode,
  with_field, with_fuel, checked, error, step, eat, add, moved, node_at, write_node, set_flags,
}
use perex.Compiler.Parser.Escapes.{escaped_point}

-- `xs[i].lo`, counted from the end.
abbrev pub name_point : List (ℕ × ℕ) → ℕ → Run ℕ
name_point rs at =
    if ltb at (length rs)
    then Base.◌>>=◌ (or_panic (get_elem? rs (length rs - 1 - at))) (λ (lo, hi). ret lo)
    else panic

-- `flags | U`.
abbrev pub with_unicode : ℕ → ℕ
with_unicode flags = if is_unicode flags then flags else suc flags

-- The flags are put back where the escape fails too.
restoring : ℕ → Run (Result ℕ × Parser) → Run (Result ℕ × Parser)
restoring flags run = Base.◌>>=◌ run (λ (r, p). ret (r, record p { flags = flags }))

unicode_escape : Parse ℕ
unicode_escape p =
    restoring p.flags (escaped_point 117 false (record p { flags = with_unicode p.flags }))

point_or_error : Option ℕ → Parse ℕ
point_or_error none = error
point_or_error (some point) = pure point

name_character : Parse ℕ
name_character = eat 92 >>= (λ slash.
    if slash
    then eat 117 >>= (λ letter. if letter then unicode_escape else error)
    else step >> moved next_point >>= point_or_error)

-- The character is stored behind the others, from the end of the ranges down.
store_point : ℕ → Parse (Unit {0})
store_point point p =
    if p.range_used == length p.ranges - p.name_chars
    then throw ranges p
    else if ltb p.name_chars (length p.ranges)
    then modify
        (λ p. record p {
          ranges = set p.ranges (length p.ranges - 1 - p.name_chars) (point, 0);
          name_chars = suc p.name_chars;
        })
        p
    else lift panic p

-- How many characters the name has, and how many units.
name_round : (ℕ → ℕ → Parse (ℕ × ℕ)) → ℕ → ℕ → Bool → Parse (ℕ × ℕ)
name_round rest count units true = pure (count, units)
name_round rest count units false = name_character >>= (λ point.
    with_state (λ p. lift (identifier p.tables.properties point (count == 0))) >>= (λ good.
      if good
      then store_point point
        >> checked size_limit (suc count)
          >>= (λ n. checked size_limit (units + (if ltb 0xffff point then 2 else 1)) >>= rest n)
      else error))

unfoldable pub name_loop : ℕ → ℕ → ℕ → Parse (ℕ × ℕ)
unfolding name_round name_character unicode_escape restoring point_or_error store_point
name_loop zero count units = lift stuck
name_loop (suc fuel) count units = eat 62 >>= name_round (name_loop fuel) count units

-- Whether two names of `n` characters are the same.
unfoldable pub same_name : ℕ → ℕ → ℕ → Parse Bool
same_name zero a b = pure true
same_name (suc n) a b =
    step
    >> with_state (λ p. lift (name_point p.ranges a)) >>= (λ x.
      with_state (λ p. lift (name_point p.ranges b))
      >>= (λ y. if x == y then same_name n (suc a) (suc b) else pure false))

-- The name of the same characters in the list of names, where there is one.
unfoldable pub find_name : ℕ → ℕ → ℕ → ℕ → Parse (Option ℕ)
find_name zero next start count = lift stuck
find_name (suc fuel) next start count =
    if next == 0
    then pure none
    else step
      >> node_at (next - 1) >>= (λ old.
        (if old.b == count then same_name count start old.a else pure false) >>= (λ equal.
          if equal then pure (some (next - 1)) else find_name fuel old.start start count))

interned : ℕ → ℕ → ℕ → Option ℕ → Parse ℕ
interned start count units (some id) = modify (λ p. record p { name_chars = start }) >> pure id
interned start count units none =
    with_field (λ p. p.name_head)
      (λ head.
        add (record default_node {
          kind = name_meta_kind;
          a = start;
          b = count;
          c = 0xffff_ffff;
          len = units;
          start = head;
        })
        >>= (λ id.
            checked size_limit (suc id)
            >>= (λ next. modify (λ p. record p { name_head = next }) >> pure id)))

unfoldable pub name : Parse ℕ
unfolding interned
name =
    with_field (λ p. p.name_chars)
      (λ chars. checked size_limit chars >>= (λ start.
        with_fuel (λ fuel. name_loop fuel 0 0) >>= (λ (count, units).
          if count == 0
          then error
          else with_field (λ p. p.name_head)
              (λ head.
                with_fuel (λ fuel. find_name fuel head start count)
                >>= interned start count units))))

declared : ℕ → ℕ → Parse (Unit {0})
declared named link = node_at named >>= (λ meta.
    (if meta.first == 0
      then with_field (λ p. p.name_count)
          (λ count.
            write_node named (record meta { c = count })
            >> checked size_limit (suc count) >>= (λ n.
              modify (λ p. record p { name_count = n })
              >> write_node named (record meta { c = count; flags = link })))
      else pure tt)
    >> node_at named >>= (λ meta.
      checked size_limit (suc meta.first)
      >>= (λ first. write_node named (record meta { first = first; end = link }))))

-- The declaration before is linked to this one.
link_previous : ℕ → ℕ → Parse (Unit {0})
link_previous previous link =
    if previous == 0
    then pure tt
    else node_at (previous - 1) >>= (λ n. write_node (previous - 1) (record n { flags = link }))

unfoldable pub declare_name : ℕ → ℕ → Parse ℕ
unfolding declared link_previous
declare_name named capture = node_at named >>= (λ meta.
    add (record default_node { kind = name_decl_kind; a = named; b = capture }) >>= (λ id.
      checked size_limit (suc id)
      >>= (λ link. link_previous meta.end link >> declared named link >> pure id)))

abbrev pub has_child : ℕ → Bool
has_child kind =
    kind == seq_kind
    || kind == alt_kind
    || kind == group_kind
    || kind == wrap_kind
    || kind == assert_kind
    || kind == repeat_kind

set_parent : ℕ → ℕ → Parse (Unit {0})
set_parent child i = node_at child >>= (λ n. write_node child (record n { start = suc i }))

-- `for i in i..used`: the parents, one more than their index, with `n` nodes to go.
unfoldable pub set_parents : ℕ → ℕ → Parse (Unit {0})
unfolding set_parent
set_parents zero i = pure tt
set_parents (suc n) i =
    step
    >> node_at i >>= (λ node.
      (if has_child node.kind then set_parent node.a i else pure tt)
      >> (if node.kind == seq_kind || node.kind == alt_kind then set_parent node.b i else pure tt)
      >> set_parents n (suc i))

-- `start - 1` on `u32`.
parent_of : ℕ → Parse ℕ
parent_of id = node_at id >>= (λ n. if n.start == 0 then lift panic else pure (n.start - 1))

-- The nearest node above both.
unfoldable pub common_parent : ℕ → ℕ → ℕ → Parse ℕ
unfolding parent_of
common_parent zero a b = lift stuck
common_parent (suc fuel) a b =
    if a == b
    then pure a
    else step
      >> (if ltb a b
          then parent_of a >>= (λ a. common_parent fuel a b)
          else parent_of b >>= (λ b. common_parent fuel a b))

-- Every later declaration of the name stands in another alternative.
unfoldable pub check_right : ℕ → ℕ → ℕ → Parse (Unit {0})
check_right zero from right = lift stuck
check_right (suc fuel) from right =
    if right == 0
    then pure tt
    else step
      >> node_at (right - 1) >>= (λ other.
        with_fuel (λ fuel. common_parent fuel from other.c)
        >>= node_at
        >>= (λ n. if n.kind == alt_kind then check_right fuel from other.flags else error))

unfoldable pub check_left : ℕ → ℕ → Parse (Unit {0})
check_left zero left = lift stuck
check_left (suc fuel) left =
    if left == 0
    then pure tt
    else step
      >> node_at (left - 1) >>= (λ declaration.
        with_fuel (λ fuel. check_right fuel declaration.c declaration.flags)
        >> check_left fuel declaration.flags)

unfoldable pub check_each : ℕ → ℕ → Parse (Unit {0})
check_each zero next = lift stuck
check_each (suc fuel) next =
    if next == 0
    then pure tt
    else step
      >> node_at (next - 1) >>= (λ named.
        if named.first == 0
        then error
        else with_fuel (λ fuel. check_left fuel named.flags) >> check_each fuel named.start)

-- A reference to a name of one declaration is one to its capture.
resolve_reference : ℕ → Node → Node → Parse (Unit {0})
resolve_reference i n named =
    if named.first == 1
    then (if named.flags == 0 then lift panic else node_at (named.flags - 1))
      >>= (λ declaration. write_node i (record n { kind = backref_kind; a = declaration.b }))
    else write_node i (record n { a = named.c })

unfoldable pub resolve_references : ℕ → ℕ → Parse (Unit {0})
unfolding resolve_reference
resolve_references zero i = pure tt
resolve_references (suc n) i =
    step
    >> node_at i >>= (λ node.
      (if node.kind == named_backref_kind
        then node_at node.a >>= resolve_reference i node
        else pure tt)
      >> resolve_references n (suc i))

unfoldable pub check_names : Parse (Unit {0})
check_names =
    with_field (λ p. p.name_head)
      (λ head.
        with_field (λ p. p.used)
          (λ used.
            if head == 0
            then pure tt
            else set_parents used 0
              >> with_fuel (λ fuel. check_each fuel head)
              >> resolve_references used 0))

-- `checked_add` on `usize`.
abbrev pub checked_size : ℕ → Parse ℕ
checked_size n = if ltb n 0x1_0000_0000_0000_0000 then pure n else throw size_limit

unfoldable pub names_words_loop : ℕ → ℕ → ℕ → Parse ℕ
names_words_loop zero next words = lift stuck
names_words_loop (suc fuel) next words =
    if next == 0
    then pure words
    else step
      >> node_at (next - 1) >>= (λ n.
        checked_size (words + 3 + (n.len + 1) / 2 + n.first) >>= names_words_loop fuel n.start)

unfoldable pub names_words : Parse ℕ
names_words =
    with_field (λ p. p.name_count)
      (λ count.
        with_field (λ p. p.name_head)
          (λ head. if count == 0 then pure 0 else with_fuel (λ fuel. names_words_loop fuel head 1)))
