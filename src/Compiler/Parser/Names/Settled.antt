-- ===== src/Compiler/Parser/Names/Settled.antt =====
-- src/compiler/names.rs comes to an end.
use perex.Base.{
  ℕ, zero, suc, ◌==◌, arith, ltb, Bool, true, false, if◌then◌else◌, Option, none, some, List,
  length, Run,
}
use perex.Unicode.Properties.{identifier}
use perex.Compiler.Monad.{◌>>=◌, with_state, Result, lift}
use perex.Compiler.Monad.Settling.{
  Firm, returns, panics, Firm-bind, Firm-if, ends-Firm, or_panic-Firm, Ending, done, failed,
  panicked, Ending-if, Settles, seq-Settles, pay-Settles, if-Settles, pure-Settles, lift-Settles,
  with_state-Settles, burn-Settles, stuck-Settles, settling,
}
use perex.Unicode.Properties.Ends.{identifier-ends}
use perex.Compiler.Parser.{Parser, Parse, Node, error, step, eat}
use perex.Compiler.Parser.Settled.{
  left, step-Settles, eat_then, error-Settles, parsing, eat-Settles,
}
use perex.Compiler.Parser.Escapes.Settled.{escaped_point-Settles}
use perex.Compiler.Parser.Names.{
  name_point, with_unicode, restoring, unicode_escape, point_or_error, name_character, store_point,
  name_round, name_loop, same_name, find_name, interned, name, declared, link_previous,
  declare_name, set_parent, set_parents, parent_of, common_parent, check_right, check_left,
  check_each, resolve_reference, resolve_references, check_names, checked_size, names_words_loop,
  names_words,
}

name_point-Firm : (rs : List (ℕ × ℕ)) (at : ℕ) → Firm (name_point rs at)
name_point-Firm rs at =
    Firm-if (ltb at (length rs)) (Firm-bind (or_panic-Firm _) λ (lo, hi). returns lo) panics

module _ {n : ℕ} where
  unicode_escape-Settles : Settles left 0 n unicode_escape
  unfolding unicode_escape restoring
  unicode_escape-Settles = record {
    at = λ p l. put p (
        (escaped_point-Settles {n = n} 117 false).at (record p { flags = with_unicode p.flags }) l);
  }
    where
      put :
          (p : Parser) {r : Run (Result ℕ × Parser)}
          → Ending left 0 (record p { flags = with_unicode p.flags }) r
          → Ending left 0 p (restoring p.flags r)
      put p (done a t h) = done a _ h
      put p (failed e t) = failed e _
      put p panicked = panicked

  point_or_error-Settles : (o : Option ℕ) → Settles left 0 n (point_or_error o)
  unfolding point_or_error
  point_or_error-Settles none = error-Settles
  point_or_error-Settles (some point) = pure-Settles point

  escape_or_error-Settles :
      Settles left 0 n (eat 117 >>= (λ letter. if letter then unicode_escape else error))
  escape_or_error-Settles = search (parsing, unicode_escape-Settles)

  name_character-Settles : Settles left 1 n name_character
  unfolding name_character
  name_character-Settles =
      eat_then 92 _ escape_or_error-Settles
        (pay-Settles step _ step-Settles λ u. search (parsing, point_or_error-Settles))

  store_point-Settles : (point : ℕ) → Settles left 0 n (store_point point)
  unfolding store_point
  store_point-Settles point = record {
    at = λ p l. Ending-if _ (failed _ _) (Ending-if _ (done tt _ (omega arith)) panicked);
  }

  identifier-Settles :
      (point : ℕ) (first : Bool)
      → Settles left 0 n (with_state (λ p. lift (identifier p.tables.properties point first)))
  identifier-Settles point first =
      with_state-Settles _ λ p. lift-Settles _ (ends-Firm _ (identifier-ends _ point first))

name_round-Settles :
    (n : ℕ) (rest : ℕ → ℕ → Parse (ℕ × ℕ)) (count units : ℕ) (b : Bool)
    → ((c u : ℕ) → Settles left 0 n (rest c u))
    → Settles left 0 (suc n) (name_round rest count units b)
unfolding name_round
name_round-Settles n rest count units true h = pure-Settles _
name_round-Settles n rest count units false h =
    burn-Settles name_character _ name_character-Settles
      λ point. search (parsing, identifier-Settles, store_point-Settles, h) depth 10

name_loop-Settles : (fuel count units : ℕ) → Settles left 0 fuel (name_loop fuel count units)
unfolding name_loop
name_loop-Settles zero count units = stuck-Settles _
name_loop-Settles (suc fuel) count units =
    seq-Settles _ _ (eat-Settles 62)
      λ b. name_round-Settles fuel (name_loop fuel) count units b (name_loop-Settles fuel)

same_name-Settles : {n : ℕ} (k a b : ℕ) → Settles left 0 n (same_name k a b)
unfolding same_name
same_name-Settles {n} zero a b = pure-Settles true
same_name-Settles {n} (suc k) a b =
    search (parsing, name_point-Firm, same_name-Settles {n = n} k) depth 12

find_name-Settles :
    (fuel next start count : ℕ) → Settles left 0 fuel (find_name fuel next start count)
unfolding find_name
find_name-Settles zero next start count = stuck-Settles _
find_name-Settles (suc fuel) next start count = if-Settles (next == 0) _ _ (pure-Settles none) (
    burn-Settles step _ step-Settles
      λ u. search (parsing, same_name-Settles, find_name-Settles fuel) depth 10)

common_parent-Settles : (fuel a b : ℕ) → Settles left 0 fuel (common_parent fuel a b)
unfolding common_parent parent_of
common_parent-Settles zero a b = stuck-Settles _
common_parent-Settles (suc fuel) a b = if-Settles (a == b) _ _ (pure-Settles a) (
    burn-Settles step _ step-Settles
      λ u. search (parsing, panics, common_parent-Settles fuel) depth 10)

check_right-Settles : (fuel from right : ℕ) → Settles left 0 fuel (check_right fuel from right)
unfolding check_right
check_right-Settles zero from right = stuck-Settles _
check_right-Settles (suc fuel) from right = if-Settles (right == 0) _ _ (pure-Settles tt) (
    burn-Settles step _ step-Settles
      λ u. search (parsing, common_parent-Settles, check_right-Settles fuel) depth 10)

check_left-Settles : (fuel next : ℕ) → Settles left 0 fuel (check_left fuel next)
unfolding check_left
check_left-Settles zero next = stuck-Settles _
check_left-Settles (suc fuel) next = if-Settles (next == 0) _ _ (pure-Settles tt) (
    burn-Settles step _ step-Settles
      λ u. search (parsing, check_right-Settles, check_left-Settles fuel) depth 10)

check_each-Settles : (fuel next : ℕ) → Settles left 0 fuel (check_each fuel next)
unfolding check_each
check_each-Settles zero next = stuck-Settles _
check_each-Settles (suc fuel) next = if-Settles (next == 0) _ _ (pure-Settles tt) (
    burn-Settles step _ step-Settles
      λ u. search (parsing, check_left-Settles, check_each-Settles fuel) depth 10)

pub checked_size-Settles : {n : ℕ} (k : ℕ) → Settles left 0 n (checked_size k)
checked_size-Settles k = search settling

names_words_loop-Settles :
    (fuel next words : ℕ) → Settles left 0 fuel (names_words_loop fuel next words)
unfolding names_words_loop
names_words_loop-Settles zero next words = stuck-Settles _
names_words_loop-Settles (suc fuel) next words = if-Settles (next == 0) _ _ (pure-Settles words) (
    burn-Settles step _ step-Settles
      λ u. search (parsing, checked_size-Settles, names_words_loop-Settles fuel) depth 10)

module _ {n : ℕ} where
  interned-Settles :
      (start count units : ℕ) (o : Option ℕ) → Settles left 0 n (interned start count units o)
  unfolding interned
  interned-Settles start count units none = search parsing depth 10
  interned-Settles start count units (some id) = search parsing depth 10

  pub name-Settles : Settles left 0 n name
  unfolding name
  name-Settles = search (parsing, name_loop-Settles, find_name-Settles, interned-Settles) depth 14

  declared-Settles : (named link : ℕ) → Settles left 0 n (declared named link)
  unfolding declared
  declared-Settles named link = search parsing depth 14

  link_previous-Settles : (previous link : ℕ) → Settles left 0 n (link_previous previous link)
  unfolding link_previous
  link_previous-Settles previous link = search parsing depth 10

  pub declare_name-Settles : (named capture : ℕ) → Settles left 0 n (declare_name named capture)
  unfolding declare_name
  declare_name-Settles named capture =
      search (parsing, link_previous-Settles, declared-Settles) depth 10

  set_parent-Settles : (child i : ℕ) → Settles left 0 n (set_parent child i)
  unfolding set_parent
  set_parent-Settles child i = search parsing

  set_parents-Settles : (k i : ℕ) → Settles left 0 n (set_parents k i)
  unfolding set_parents
  set_parents-Settles zero i = pure-Settles tt
  set_parents-Settles (suc k) i =
      search (parsing, set_parent-Settles, set_parents-Settles k) depth 10

  resolve_reference-Settles : (i : ℕ) (a b : Node) → Settles left 0 n (resolve_reference i a b)
  unfolding resolve_reference
  resolve_reference-Settles i a b = search (parsing, panics) depth 10

  resolve_references-Settles : (k i : ℕ) → Settles left 0 n (resolve_references k i)
  unfolding resolve_references
  resolve_references-Settles zero i = pure-Settles tt
  resolve_references-Settles (suc k) i =
      search (parsing, resolve_reference-Settles, resolve_references-Settles k) depth 10

  pub check_names-Settles : Settles left 0 n check_names
  unfolding check_names
  check_names-Settles =
      search (parsing, set_parents-Settles, check_each-Settles, resolve_references-Settles) depth 12

  pub names_words-Settles : Settles left 0 n names_words
  unfolding names_words
  names_words-Settles = search (parsing, names_words_loop-Settles) depth 10
