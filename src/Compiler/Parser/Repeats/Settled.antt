-- ===== src/Compiler/Parser/Repeats/Settled.antt =====
-- The quantifiers of src/compiler.rs and src/compiler/repetition.rs come to an end.
use perex.Base.{ℕ, zero, suc, ◌==◌, Bool, false, Option, none, some}
use perex.Unicode.Casefold.{within}
use perex.Compiler.Monad.Settling.{
  Settles, seq-Settles, if-Settles, pure-Settles, burn-Settles, stuck-Settles,
}
use perex.Input.View.{Cursor}
use perex.Compiler.Parser.{Parse, Node, take, peek, step, node_at, wrap_kind}
use perex.Compiler.Parser.Settled.{
  left, step-Settles, take-Settles, peek-Settles, node_at-Settles, parsing,
}
use perex.Compiler.Parser.Repeats.{
  Bounds, decimal_round, decimal_loop, decimal, no_braces, closing, braces_from, braces,
  unwrap_loop, unwrapped, inner_of, resize_loop, resize, merge_bounds, checked_count, merge_inner,
  merge_repetition, bound_of, add_repeat, quantified, quantify, quantifier,
}

decimal_round-Settles :
    (n : ℕ) (rest : Option ℕ → Parse (Option ℕ)) (value next : Option ℕ)
    → ((v : Option ℕ) → Settles left 0 n (rest v))
    → Settles left 0 (suc n) (decimal_round rest value next)
unfolding decimal_round
decimal_round-Settles n rest value none h = pure-Settles value
decimal_round-Settles n rest value (some c) h =
    if-Settles (within 48 57 c) _ _ (burn-Settles take _ take-Settles λ u. search (parsing, h))
      (pure-Settles value)

decimal_loop-Settles : (fuel : ℕ) (value : Option ℕ) → Settles left 0 fuel (decimal_loop fuel value)
unfolding decimal_loop
decimal_loop-Settles zero value = stuck-Settles _
decimal_loop-Settles (suc fuel) value =
    seq-Settles peek _ peek-Settles
      λ next. decimal_round-Settles fuel (decimal_loop fuel) value next (decimal_loop-Settles fuel)

unwrap_loop-Settles : (fuel id : ℕ) → Settles left 0 fuel (unwrap_loop fuel id)
unfolding unwrap_loop
unwrap_loop-Settles zero id = stuck-Settles _
unwrap_loop-Settles (suc fuel) id = seq-Settles (node_at id) _ (node_at-Settles id) λ n.
    if-Settles (n.kind == wrap_kind) _ _
      (burn-Settles step _ step-Settles λ u. unwrap_loop-Settles fuel n.a) (pure-Settles id)

resize_loop-Settles :
    (fuel id len wrapper : ℕ) → Settles left 0 fuel (resize_loop fuel id len wrapper)
unfolding resize_loop
resize_loop-Settles zero id len wrapper = stuck-Settles _
resize_loop-Settles (suc fuel) id len wrapper =
    if-Settles (wrapper == id) _ _ (pure-Settles tt)
      (burn-Settles step _ step-Settles λ u. search (parsing, resize_loop-Settles fuel))

module _ {n : ℕ} where
  pub decimal-Settles : Settles left 0 n decimal
  unfolding decimal
  decimal-Settles = search (parsing, decimal_loop-Settles)

  no_braces-Settles : (saved : Cursor) → Settles left 0 n (no_braces saved)
  unfolding no_braces
  no_braces-Settles saved = search parsing

  closing-Settles : (saved : Cursor) (b : Bounds) → Settles left 0 n (closing saved b)
  unfolding closing
  closing-Settles saved (min, max, infinite) = search (parsing, no_braces-Settles)

  braces_from-Settles : (saved : Cursor) (o : Option ℕ) → Settles left 0 n (braces_from saved o)
  unfolding braces_from
  braces_from-Settles saved none = no_braces-Settles saved
  braces_from-Settles saved (some min) = search (parsing, decimal-Settles, closing-Settles)

  pub braces-Settles : Settles left 0 n braces
  unfolding braces
  braces-Settles = search (parsing, decimal-Settles, braces_from-Settles) depth 8

  unwrapped-Settles : (id : ℕ) → Settles left 0 n (unwrapped id)
  unfolding unwrapped
  unwrapped-Settles id = search (parsing, unwrap_loop-Settles)

  inner_of-Settles : (node : Node) → Settles left 0 n (inner_of node)
  unfolding inner_of
  inner_of-Settles node = search (parsing, unwrapped-Settles) depth 8

  checked_count-Settles : (repeats : ℕ) → Settles left 0 n (checked_count repeats)
  unfolding checked_count
  checked_count-Settles repeats = search parsing

  resize-Settles : (id len child : ℕ) → Settles left 0 n (resize id len child)
  unfolding resize
  resize-Settles id len child = search (parsing, resize_loop-Settles)

  merge_bounds-Settles :
      (child id : ℕ) (node : Node) (body : ℕ) (o : Option Bounds)
      → Settles left 0 n (merge_bounds child id node body o)
  unfolding merge_bounds
  merge_bounds-Settles child id node body none = pure-Settles false
  merge_bounds-Settles child id node body (some (min, max, infinite)) =
      search (parsing, checked_count-Settles, resize-Settles) depth 10

  merge_inner-Settles :
      (child : ℕ) (outer : Bounds) (id : ℕ) (node : Node) (o : Option (ℕ × Bounds))
      → Settles left 0 n (merge_inner child outer id node o)
  unfolding merge_inner
  merge_inner-Settles child outer id node none = pure-Settles false
  merge_inner-Settles child outer id node (some (body, inner)) =
      search (parsing, unwrapped-Settles, merge_bounds-Settles) depth 8

  merge_repetition-Settles :
      (child : ℕ) (outer : Bounds) → Settles left 0 n (merge_repetition child outer)
  unfolding merge_repetition
  merge_repetition-Settles child outer =
      search (parsing, unwrapped-Settles, inner_of-Settles, merge_inner-Settles) depth 8

  bound_of-Settles : (next : Option ℕ) (o : Option Bounds) → Settles left 0 n (bound_of next o)
  unfolding bound_of
  bound_of-Settles next (some bounds) = search parsing
  bound_of-Settles none none = pure-Settles none
  bound_of-Settles (some c) none = search (parsing, braces-Settles)

  add_repeat-Settles :
      (child : ℕ) (node : Node) (b : Bounds) (lazy : Bool)
      → Settles left 0 n (add_repeat child node b lazy)
  unfolding add_repeat
  add_repeat-Settles child node (min, max, infinite) lazy = search parsing depth 10

  quantified-Settles :
      (child : ℕ) (node : Node) (b : Bounds) → Settles left 0 n (quantified child node b)
  unfolding quantified
  quantified-Settles child node b =
      search (parsing, merge_repetition-Settles, add_repeat-Settles) depth 8

  quantify-Settles : (child : ℕ) (o : Option Bounds) → Settles left 0 n (quantify child o)
  unfolding quantify
  quantify-Settles child none = pure-Settles child
  quantify-Settles child (some b) = search (parsing, quantified-Settles) depth 8

  pub quantifier-Settles : (child : ℕ) → Settles left 0 n (quantifier child)
  unfolding quantifier
  quantifier-Settles child = search (parsing, bound_of-Settles, quantify-Settles) depth 8
