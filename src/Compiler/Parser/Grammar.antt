-- ===== src/Compiler/Parser/Grammar.antt =====
-- `atom`, `sequence` and `disjunction` of src/compiler.rs.
pub mod Settled
use perex.Base.{
  ℕ, zero, suc, ◌+◌, ◌-◌, ◌*◌, ◌/◌, ◌%◌, ◌==◌, ltb, leb, Bool, true, false, not, ◌&&◌, ◌||◌, List,
  Option, none, some,
}
use perex.Base.{if◌then◌else◌, Run, ret, stuck, panic, or_panic}
use perex.Base
use perex.Input.Points.{next_point}
use perex.Input.Walk.{next_unit}
use perex.Input.View.{Cursor}
use perex.Unicode.Casefold.{within}
use perex.Compiler.Monad.{nesting_limit, size_limit, Result, ◌>>=◌, ◌>>◌, pure, throw, lift, modify}
use perex.Compiler.Parser.{
  Parser, Parse, Node, default_node, char_kind, any_kind, start_kind, end_kind, assert_kind,
  empty_kind, seq_kind, alt_kind, group_kind, wrap_kind, is_unicode, with_field, with_fuel, checked,
  error, step, peek, take, take_unit, eat, is_unit, moved, add, join, node_at, write_node,
  set_cursor,
}
use perex.Compiler.Parser.Leaves.{leaf}
use perex.Compiler.Parser.Repeats.{braces, quantifier}
use perex.Compiler.Parser.Names.{name, declare_name}
use perex.Compiler.Parser.Terms.{Sets, modifiers, class, escape_node}

-- What opens a group: its kind, its flags and the declaration of its name.
pub record Opening : Type 0 where
  pub kind : ℕ
  pub flags : ℕ
  pub declaration : Option ℕ

abbrev pub opening : ℕ → ℕ → Opening
opening kind flags = record { kind = kind; flags = flags; declaration = none }

named_group : ℕ → Parse Opening
named_group capture =
    modify (λ p. record p { named_mode = some true })
    >> name >>= (λ id. declare_name id capture >>= (λ declaration.
      pure (record { kind = group_kind; flags = 0; declaration = some declaration })))

-- Behind `(?<`.
look_behind : ℕ → Parse Opening
look_behind capture = eat 61 >>= (λ equals.
    if equals
    then pure (opening assert_kind 2)
    else eat 33 >>= (λ bang. if bang then pure (opening assert_kind 3) else named_group capture))

is_modifier : Option ℕ → Bool
is_modifier next = is_unit 105 next || is_unit 109 next || is_unit 115 next || is_unit 45 next

-- Behind `(?`.
special_group : ℕ → Parse Opening
special_group capture = eat 58 >>= (λ colon.
    if colon
    then pure (opening seq_kind 0)
    else eat 61 >>= (λ equals.
      if equals
      then pure (opening assert_kind 0)
      else eat 33 >>= (λ bang.
        if bang
        then pure (opening assert_kind 1)
        else eat 60 >>= (λ less.
          if less
          then look_behind capture
          else peek >>= (λ next.
            if is_modifier next then modifiers >> pure (opening seq_kind 0) else error)))))

unfoldable pub open_group : ℕ → Parse Opening
unfolding special_group look_behind named_group is_modifier
open_group capture =
    eat 63 >>= (λ special. if special then special_group capture else pure (opening group_kind 0))

-- The flags are put back where the body fails too.
abbrev pub keep_flags : {A : Type 0} → ℕ → Run (Result A × Parser) → Run (Result A × Parser)
keep_flags flags run = Base.◌>>=◌ run (λ (r, p). ret (r, record p { flags = flags }))

abbrev pub keeping_flags : {A : Type 0} → ℕ → Parse A → Parse A
keeping_flags flags m p = keep_flags flags (m p)

wrapper : ℕ → Parse ℕ
wrapper child = node_at child >>= (λ inner. add (record default_node {
  kind = wrap_kind;
  a = child;
  first = inner.first;
  end = inner.end;
  len = inner.len;
}))

-- The declaration learns where its group is.
link_declaration : Option ℕ → ℕ → Parse (Unit {0})
link_declaration none group = pure tt
link_declaration (some id) group = node_at id >>= (λ n. write_node id (record n { c = group }))

group_node : ℕ → Opening → ℕ → Parse ℕ
group_node capture o child = node_at child >>= (λ inner.
    checked size_limit (inner.len + 2) >>= (λ len.
      with_field (λ p. p.captures)
        (λ captures.
          add (record default_node {
            kind = o.kind;
            a = child;
            b = if o.kind == assert_kind then 0 else capture;
            flags = o.flags;
            first = capture;
            end = captures;
            len = len;
          })
          >>= (λ group. link_declaration o.declaration group >> pure group))))

unfoldable pub close_group : ℕ → Opening → ℕ → Parse ℕ
unfolding wrapper group_node link_declaration
close_group capture o child = eat 41 >>= (λ closed.
    if not closed
    then error
    else if o.kind == seq_kind
    then wrapper child
    else group_node capture o child)

-- A group captures where nothing says otherwise.
count_capture : Opening → Parse (Unit {0})
count_capture o =
    if o.kind == group_kind
    then with_field (λ p. p.captures)
        (λ n.
          checked size_limit (suc n)
          >>= (λ captures. modify (λ p. record p { captures = captures })))
    else pure tt

-- Behind `(`; the flags are those from before the group's own.
unfoldable pub group : Parse ℕ → Parse ℕ
unfolding count_capture
group body =
    with_field (λ p. p.flags)
      (λ flags.
        with_field (λ p. p.captures)
          (λ capture.
            open_group capture
            >>= (λ o. count_capture o >> keeping_flags flags body >>= close_group capture o)))

is_some {ℓ} : {A : Type ℓ} → Option A → Bool
is_some none = false
is_some (some a) = true

-- `{`, which is a character where it opens no bounds.
brace : Cursor → Parse ℕ
brace before =
    set_cursor before
    >> braces >>= (λ bounds.
      with_field (λ p. p.flags)
        (λ flags.
          if is_some bounds || is_unicode flags
          then error
          else set_cursor before >> take >>= (λ unit. leaf char_kind 123 0)))

literal : Cursor → Parse ℕ
literal before =
    set_cursor before
    >> step
    >> with_field (λ p. p.flags)
        (λ flags.
          (if is_unicode flags then moved next_point else moved next_unit)
          >>= (λ point. lift (or_panic point) >>= (λ c. leaf char_kind c 0)))

atom_of : Sets → Parse ℕ → Cursor → ℕ → Parse ℕ
atom_of sets body before c =
    with_field (λ p. p.flags)
      (λ flags.
        if c == 40
        then group body
        else if c == 46
        then leaf any_kind 0 0
        else if c == 94
        then leaf start_kind 0 0
        else if c == 36
        then leaf end_kind 0 0
        else if c == 91
        then class sets
        else if c == 92
        then escape_node sets
        else if c == 42 || c == 43 || c == 63
        then error
        else if c == 123
        then brace before
        else if (c == 93 || c == 125) && is_unicode flags
        then error
        else literal before)

unfoldable pub atom : Sets → Parse ℕ → Parse ℕ
unfolding atom_of brace literal is_some
atom sets body =
    with_field (λ p. p.cursor) (λ before. take_unit >>= (λ c. atom_of sets body before c))

-- `matches!(self.peek(), None | Some(41 | 124))`.
is_sequence_end : Option ℕ → Bool
is_sequence_end none = true
is_sequence_end (some c) = c == 41 || c == 124

append_term : Option ℕ → ℕ → Parse ℕ
append_term none node = pure node
append_term (some left) node = join seq_kind left node

finish_sequence : Option ℕ → Parse ℕ
finish_sequence (some n) = pure n
finish_sequence none =
    with_field (λ p. p.captures)
      (λ captures.
        add (record default_node { kind = empty_kind; first = captures; end = captures }))

unfoldable pub sequence_loop : Sets → Parse ℕ → ℕ → Option ℕ → Parse ℕ
unfolding is_sequence_end append_term finish_sequence
sequence_loop sets body zero result = lift stuck
sequence_loop sets body (suc fuel) result = peek >>= (λ next.
    if is_sequence_end next
    then finish_sequence result
    else atom sets body
      >>= quantifier
      >>= append_term result
      >>= (λ node. sequence_loop sets body fuel (some node)))

unfoldable pub alternatives : Sets → Parse ℕ → ℕ → ℕ → Parse ℕ
alternatives sets body zero node = lift stuck
alternatives sets body (suc fuel) node = eat 124 >>= (λ bar.
    if bar
    then with_fuel (λ n. sequence_loop sets body n none)
      >>= (λ right. join alt_kind node right >>= alternatives sets body fuel)
    else modify (λ p. record p { depth = p.depth - 1 }) >> pure node)

enter : Parse (Unit {0})
enter p =
    if ltb 128 (suc p.depth)
    then throw nesting_limit (record p { depth = suc p.depth })
    else modify (λ p. record p { depth = suc p.depth }) p

-- The fuel is for the groups inside each other: one in another is behind a parenthesis, which takes a
-- unit of the budget. More than 128 of them are refused.
unfoldable pub disjunction : Sets → ℕ → Parse ℕ
unfolding enter
disjunction sets zero = lift stuck
disjunction sets (suc fuel) =
    enter
    >> with_fuel (λ n. sequence_loop sets (disjunction sets fuel) n none)
      >>= (λ node. with_fuel (λ n. alternatives sets (disjunction sets fuel) n node))
