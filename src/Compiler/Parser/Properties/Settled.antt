-- ===== src/Compiler/Parser/Properties/Settled.antt =====
-- The class escapes of src/compiler.rs come to an end.
use perex.Base.{
  ℕ, zero, suc, ◌-◌, ◌==◌, ltb, ◌≤◌, ◌<◌, refl, arith, Bool, false, List, [], ◌∷◌, ◌++◌, Option,
  none, some, length, length-append, Bool-cases, inl, inr,
}
use perex.Compiler.Monad.Settling.{Settles, seq-Settles, if-Settles, pure-Settles, modify-Settles}
use perex.Compiler.Parser.{Parse, peek, take}
use perex.Compiler.Parser.Settled.{left, take_free, peek-Settles, error-Settles, parsing}
use perex.Compiler.Parser.Leaves.Settled.{range-Settles}
use perex.Compiler.Parser.Properties.{
  add_ranges, add_gaps, add_builtin, is_name_byte, name_round, property_name_loop, property_name,
  property_value, end_brace, pending, resolved, property, builtin,
}

module _ {n : ℕ} where
  add_ranges-Settles : (rs : List (ℕ × ℕ)) → Settles left 0 n (add_ranges rs)
  unfolding add_ranges
  add_ranges-Settles [] = pure-Settles tt
  add_ranges-Settles ((lo, hi) ∷ rs) =
      seq-Settles _ _ (range-Settles lo hi) λ u. add_ranges-Settles rs

  add_gaps-Settles :
      (last start : ℕ) (rs : List (ℕ × ℕ)) → Settles left 0 n (add_gaps last start rs)
  unfolding add_gaps
  add_gaps-Settles last start [] = range-Settles start last
  add_gaps-Settles last start ((lo, hi) ∷ rs) =
      seq-Settles _ _
        (if-Settles (ltb start lo) _ _ (range-Settles start (lo - 1)) (pure-Settles tt))
        λ u. add_gaps-Settles last (suc hi) rs

  add_builtin-Settles :
      (c flags : ℕ) (o : Option (List (ℕ × ℕ))) → Settles left 0 n (add_builtin c flags o)
  unfolding add_builtin
  add_builtin-Settles c flags none = pure-Settles false
  add_builtin-Settles c flags (some rs) = search (parsing, add_ranges-Settles, add_gaps-Settles)

  name_round-Settles :
      (rest : List ℕ → Parse (List ℕ)) (bytes : List ℕ) (next : Option ℕ)
      → length bytes ≤ 64
      → ((c : ℕ) → length bytes < 64 → Settles left 0 n (rest (bytes ++ c ∷ [])))
      → Settles left 0 n (name_round rest bytes next)
  unfolding name_round
  name_round-Settles rest bytes none l h = pure-Settles bytes
  name_round-Settles rest bytes (some c) l h =
      if-Settles (is_name_byte c) _ _
        (elim (Bool-cases (length bytes == 64)) [
          | inl t ↦ rw t error-Settles
          | inr t ↦ rw t (seq-Settles take _ take_free λ u. h c (ground arith))
        ])
        (pure-Settles bytes)

  -- The 65th byte is refused before the fuel is out.
  property_name_loop-Settles :
      (fuel : ℕ) (bytes : List ℕ)
      → 65 - length bytes < fuel
      → length bytes ≤ 64
      → Settles left 0 n (property_name_loop fuel bytes)
  unfolding property_name_loop
  property_name_loop-Settles zero bytes h k = absurd (omega arith)
  property_name_loop-Settles (suc fuel) bytes h k = seq-Settles peek _ peek-Settles λ next.
      name_round-Settles (property_name_loop fuel) bytes next k λ c l.
        let e = length-append bytes (c ∷ []) in
        property_name_loop-Settles fuel (bytes ++ c ∷ []) (omega arith) (omega arith)

  property_name-Settles : Settles left 0 n property_name
  unfolding property_name
  property_name-Settles = property_name_loop-Settles 66 [] (omega arith) (omega arith)

  property_value-Settles : (has_value : Bool) → Settles left 0 n (property_value has_value)
  unfolding property_value
  property_value-Settles has_value = search (parsing, property_name-Settles)

  end_brace-Settles : Settles left 0 n end_brace
  unfolding end_brace
  end_brace-Settles = search parsing

  pending-Settles : (o : Option ℕ) → Settles left 0 n (pending o)
  unfolding pending
  pending-Settles none = error-Settles
  pending-Settles (some s) = seq-Settles _ _ end_brace-Settles λ u. modify-Settles _ λ s. refl

  resolved-Settles :
      (negative : Bool) (name : List ℕ) (value : Option (List ℕ)) (o : Option ℕ)
      → Settles left 0 n (resolved negative name value o)
  unfolding resolved
  resolved-Settles negative name value (some id) =
      search (parsing, end_brace-Settles, range-Settles)
  resolved-Settles negative name value none = search (parsing, pending-Settles)

  property-Settles : (negative : Bool) → Settles left 0 n (property negative)
  unfolding property
  property-Settles negative =
      search (parsing, property_name-Settles, property_value-Settles, resolved-Settles) depth 10

  pub builtin-Settles : (c : ℕ) → Settles left 0 n (builtin c)
  unfolding builtin
  builtin-Settles c = search (parsing, property-Settles, add_builtin-Settles) depth 8
