-- ===== src/Compiler/Parser/Leaves.antt =====
-- `range`, `close_fold`, `normalize_class` and `leaf` of src/compiler.rs and src/compiler/classes.rs.
pub mod Settled
use perex.Base.{
  ℕ, zero, suc, ◌+◌, ◌-◌, ◌*◌, ◌/◌, ◌%◌, ◌==◌, ltb, leb, min, Bool, true, false, not, ◌&&◌, ◌||◌,
  List, [], ◌∷◌, ◌++◌, Option, none, some,
}
use perex.Base.{get_elem?, set, length, if◌then◌else◌, Run, ret, panic, stuck, or_panic, take, drop}
use perex.Base
use perex.Unicode.Search.{bit}
use perex.Unicode.Casefold.{within, equivalents}
use perex.Compiler.Monad.{
  invalid_program, ranges, Result, M, ◌>>=◌, ◌>>◌, pure, throw, lift, modify, with_state,
}
use perex.Compiler.Classes.{Slice, charge, is_before, swap, merge, normalize}
use perex.Compiler.Parser.{
  Parser, Parse, Node, default_node, class_kind, word_values, is_unicode, is_ignoring_case,
  with_field, step, add,
}

store_range : ℕ × ℕ → Parse (Unit {0})
store_range r p =
    if p.range_used == length p.ranges - p.name_chars || not (ltb p.range_used (length p.ranges))
    then throw ranges p
    else modify
        (λ p. record p { ranges = set p.ranges p.range_used r; range_used = suc p.range_used }) p

unfoldable pub range : ℕ → ℕ → Parse (Unit {0})
unfolding store_range
range lo hi = step >> store_range (lo, hi)

-- `self.ranges[from..to]`.
abbrev pub ranges_between : ℕ → ℕ → Parse (List (ℕ × ℕ))
ranges_between from to p =
    lift
      (if leb from to && leb to (length p.ranges)
        then ret (take (to - from) (drop from p.ranges))
        else panic)
      p

-- What a function on a slice of the ranges leaves in the parser.
restored : {A : Type 0} → ℕ → ℕ → Parser → Result A × Slice → Run (Result A × Parser)
restored from to p (r, s) =
    ret (
      r,
      record p { ranges = take from p.ranges ++ s.ranges ++ drop to p.ranges; budget = s.budget },
    )

unfoldable pub on_slice : {A : Type 0} → ℕ → ℕ → M Slice A → Parse A
unfolding restored
on_slice from to m =
    ranges_between from to
    >>= (λ rs p. Base.◌>>=◌ (m (record { ranges = rs; budget = p.budget })) (restored from to p))

-- `self.range_used = start + used; Ok(Some(used))`.
truncate : ℕ → Option ℕ → Parse (Option ℕ)
truncate start none = pure none
truncate start (some used) =
    modify (λ p. record p { range_used = start + used }) >> pure (some used)

-- `start.checked_add(count) != Some(self.range_used)`; an overflowing sum is no `usize`.
abbrev pub is_last : ℕ → ℕ → ℕ → Bool
is_last start count range_used =
    ltb (start + count) 0x1_0000_0000_0000_0000 && (start + count == range_used)

unfoldable pub normalize_class : ℕ → ℕ → Parse (Option ℕ)
unfolding truncate
normalize_class start count =
    with_field (λ p. p.range_used)
      (λ range_used.
        if ltb count 16
        then pure none
        else if not (is_last start count range_used)
        then throw invalid_program
        else on_slice start range_used normalize >>= truncate start)

-- How many characters the ranges have, unless that is over `FOLD_CLOSURE_MEMBERS` or one is a property.
unfoldable pub count_members : List (ℕ × ℕ) → ℕ → Parse Bool
count_members [] members = pure true
count_members ((lo, hi) ∷ rs) members =
    let next : ℕ = min (members + (hi - lo + 1)) 0xffff_ffff in
    let rest = count_members rs next in
    step
    >> (if bit lo 30 || ltb hi lo
        then pure false
        else if leb word_values (hi - lo + 1)
        then lift panic
        else if ltb 256 next
        then pure false
        else rest)

-- Whether one of the ranges has the value.
abbrev pub any_within : List (ℕ × ℕ) → ℕ → Bool
any_within [] value = false
any_within ((lo, hi) ∷ rs) value = within lo hi value || any_within rs value

-- The value behind the last range that was added, where that is the next value.
extend_or_add : ℕ → ℕ → Option (ℕ × ℕ) → Parse (Unit {0})
extend_or_add last value none = range value value
extend_or_add last value (some (lo, hi)) =
    if hi + 1 == value && ltb value word_values
    then modify (λ p. record p { ranges = set p.ranges last (lo, value) })
    else range value value

-- `ranges[last]`, where ranges were added.
added : ℕ → Parse (Option (ℕ × ℕ))
added original p =
    if ltb original p.range_used
    then lift (Base.◌>>=◌ (or_panic (get_elem? p.ranges (p.range_used - 1))) (λ r. ret (some r))) p
    else pure none p

unfoldable pub fold_value : ℕ → ℕ → ℕ → ℕ → Parse (Unit {0})
unfolding extend_or_add added
fold_value start original c value =
    if value == c
    then pure tt
    else ranges_between start original >>= (λ members.
      if any_within members value
      then pure tt
      else with_field (λ p. p.range_used)
          (λ used. added original >>= extend_or_add (used - 1) value))

unfoldable pub fold_values : ℕ → ℕ → ℕ → List ℕ → Parse (Unit {0})
fold_values start original c [] = pure tt
fold_values start original c (value ∷ values) =
    fold_value start original c value >> fold_values start original c values

-- `for c in lo..=hi`, with `n` characters to go.
unfoldable pub fold_chars : ℕ → ℕ → ℕ → ℕ → Parse (Unit {0})
fold_chars start original zero c = pure tt
fold_chars start original (suc n) c =
    step
    >> with_state
        (λ p. fold_values start original c (equivalents p.tables.cases c (is_unicode p.flags)))
    >> fold_chars start original n (suc c)

-- `for index in start..original`, with `n` ranges to go.
unfoldable pub fold_ranges : ℕ → ℕ → ℕ → ℕ → Parse (Unit {0})
fold_ranges start original zero index = pure tt
fold_ranges start original (suc n) index =
    with_state (λ p. lift (or_panic (get_elem? p.ranges index))) >>= (λ (lo, hi).
      fold_chars start original (suc hi - lo) lo >> fold_ranges start original n (suc index))

-- `while j > 0 && ranges[j - 1] > ranges[j]`.
unfoldable pub insert : ℕ → M Slice (Unit {0})
insert zero = pure tt
insert (suc j) =
    is_before (suc j) j >>= (λ b. if b then charge >> swap j (suc j) >> insert j else pure tt)

-- `for i in i..ranges.len()`, with `n` to go.
unfoldable pub insertion_sort : ℕ → ℕ → M Slice (Unit {0})
insertion_sort zero i = pure tt
insertion_sort (suc n) i = insert i >> insertion_sort n (suc i)

unfoldable pub sort_and_merge : M Slice ℕ
sort_and_merge =
    with_state (λ s. insertion_sort (length s.ranges - 1) 1 >> merge (length s.ranges) 0 0)

fold_closed : ℕ → ℕ → Parse (Option ℕ)
fold_closed start count =
    fold_ranges start (start + count) count start
    >> with_field (λ p. p.range_used)
        (λ used. on_slice start used sort_and_merge >>= (λ kept. truncate start (some kept)))

unfoldable pub close_fold : ℕ → ℕ → Parse (Option ℕ)
unfolding fold_closed truncate
close_fold start count =
    with_field (λ p. p.range_used)
      (λ used.
        if count == 0 || not (is_last start count used)
        then pure none
        else ranges_between start used
          >>= (λ rs. count_members rs 0)
          >>= (λ few. if few then fold_closed start count else pure none))

-- `(b & NEGATED) | count as u32`, where the count is of fewer than 2 to the 31 ranges.
abbrev pub with_count : ℕ → ℕ → ℕ
with_count b count = b - b % 0x8000_0000 + count

-- `flags & !I` and `flags | SORTED_CLASS`.
abbrev pub without_case : ℕ → ℕ
without_case flags = if bit flags 4 then flags - 16 else flags

abbrev pub with_sorted : ℕ → ℕ
with_sorted flags = if bit flags 8 then flags else flags + 256

add_leaf : ℕ → ℕ → ℕ → ℕ → Parse ℕ
add_leaf kind a b flags =
    with_field (λ p. p.captures)
      (λ captures. add (record default_node {
        kind = kind;
        a = a;
        b = b;
        flags = flags;
        first = captures;
        end = captures;
      }))

normalized_leaf : ℕ → ℕ → ℕ → Option ℕ → Parse ℕ
normalized_leaf a b flags none = add_leaf class_kind a b flags
normalized_leaf a b flags (some count) =
    add_leaf class_kind a (with_count b count) (if leb 8 count then with_sorted flags else flags)

closed_leaf : ℕ → ℕ → ℕ → Option ℕ → Parse ℕ
closed_leaf a b flags none = normalize_class a (b % 0x8000_0000) >>= normalized_leaf a b flags
closed_leaf a b flags (some count) =
    normalize_class a (with_count b count % 0x8000_0000)
    >>= normalized_leaf a (with_count b count) (without_case flags)

unfoldable pub leaf : ℕ → ℕ → ℕ → Parse ℕ
unfolding closed_leaf normalized_leaf add_leaf
leaf kind a b =
    with_field (λ p. p.flags)
      (λ flags.
        if kind == class_kind
        then (if is_ignoring_case flags then close_fold a (b % 0x8000_0000) else pure none)
          >>= closed_leaf a b flags
        else add_leaf kind a b flags)
