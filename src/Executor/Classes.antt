-- ===== src/Executor/Classes.antt =====
-- The class tests of `Vm` of src/executor.rs: the search of a sorted class, the batches of an unsorted
-- one, and the test that needs no phase.
pub mod Sorted
pub mod Decide
pub mod Agreement
use perex.Base.{
  ℕ, zero, suc, ◌+◌, ◌-◌, ◌/◌, ◌%◌, ◌==◌, ltb, leb, min, Bool, true, false, not, ◌&&◌, List, [],
  ◌∷◌,
}
use perex.Base.{Option, none, some, get_elem?, if◌then◌else◌, Run, ret, panic, stuck}
use perex.Base
use perex.Program.{unicode}
use perex.Unicode.Search.{bit}
use perex.Unicode.Casefold.{within, equivalents, contains}
use perex.Unicode.Properties.{at, PropertyTables}
use perex.Unicode.Properties
use perex.Executor.State.{
  ExecError, invalid_program, ClassUse, in_trial, in_admission, atom_scanning, atom_extending,
  ClassScan, Phase, class, trial, fail, starting, admit_class, atom_result, State,
}
use perex.Executor.Machine.{Vm}
use perex.Executor.Monad.{M, ◌>>=◌, ◌>>◌, pure, throw, with_vm, lift}
use perex.Executor.Store.{charge, set_phase}

-- `b & !NEGATED` and `b & NEGATED != 0`.
abbrev pub width_of : ℕ → ℕ
width_of b = b % 0x8000_0000

abbrev pub is_negated : ℕ → Bool
is_negated b = bit b 31

-- `lo & !PROPERTY`, where `lo & PROPERTY != 0`.
abbrev pub descriptor_of : ℕ → ℕ
descriptor_of lo = lo - 0x4000_0000

abbrev pub differ : Bool → Bool → Bool
differ true b = not b
differ false b = b

-- `a + b` on `u32`, which panics on overflow.
add_u32 : ℕ → ℕ → Run ℕ
add_u32 a b = if ltb (a + b) 0x1_0000_0000 then ret (a + b) else panic

class_range : ℕ → M (ℕ × ℕ)
class_range index vm = lift (at vm.sections.ranges index) vm

values_of : Bool → ℕ → M (List ℕ)
values_of fold c = with_vm (λ vm.
    if fold
    then lift (unicode vm.program) >>= (λ u. pure (equivalents vm.cases c u))
    else pure (c ∷ c ∷ c ∷ c ∷ []))

unfoldable pub begin_class : ℕ → ℕ → ℕ → ClassUse → Bool → Bool → M (Unit {0})
unfolding add_u32 values_of
begin_class a b c context fold sorted = values_of fold c >>= (λ values.
    lift (add_u32 a (width_of b)) >>= (λ end. set_phase (
      class (record {
        index = a;
        end = end;
        negated = is_negated b;
        sorted = sorted;
        values = values;
        context = context;
      }))))

abbrev pub result_phase : Bool → ClassUse → Phase
result_phase success in_trial = if success then trial else fail
result_phase success in_admission = if success then starting else admit_class
result_phase success atom_scanning = atom_result success false
result_phase success atom_extending = atom_result success true

unfoldable pub class_result : Bool → Bool → ClassUse → M (Unit {0})
class_result found negated context = set_phase (result_phase (differ found negated) context)

-- The binary search, on fuel: each round shortens the range.
unfoldable pub search_range : ℕ → ℕ → ℕ → ℕ → M Bool
unfolding class_range
search_range zero low high c = lift stuck
search_range (suc fuel) low high c =
    let middle : ℕ = low + (high - low) / 2 in
    let down = search_range fuel low middle c in
    let up = search_range fuel (middle + 1) high c in
    if ltb low high
    then charge 1
      >> class_range middle
      >>= (λ (lo, hi). if ltb c lo then down else if ltb hi c then up else pure true)
    else pure false

-- Whether a range, or what a descriptor stands for, has the character.
unfoldable pub range_has : PropertyTables → ℕ → ℕ → ℕ → Run Bool
range_has t lo hi c =
    if bit lo 30
    then Base.◌>>=◌ (Properties.contains t (descriptor_of lo) c)
        (λ inside. ret (if hi == 2 then not inside else differ inside (not (hi == 0))))
    else ret (within lo hi c)

-- `for index in index..end`, with `n` ranges to go.
unfoldable pub scan_ranges : ℕ → ℕ → ℕ → M Bool
unfolding class_range
scan_ranges zero index c = pure false
scan_ranges (suc n) index c =
    let rest = scan_ranges n (suc index) c in
    with_vm (λ vm. charge 1 >> class_range index >>= (λ (lo, hi).
      lift (range_has vm.properties lo hi c) >>= (λ found. if found then pure true else rest)))

unfoldable pub class_decide : ℕ → ℕ → ℕ → Bool → ℕ → M (Option Bool)
unfolding add_u32
class_decide a b c sorted available = lift (add_u32 a (width_of b)) >>= (λ end.
    if sorted
    then (if available == 0
        then pure none
        else search_range (suc (end - a)) a end c
          >>= (λ found. pure (some (differ found (is_negated b)))))
    else if ltb (min available 256) (end - a)
    then pure none
    else scan_ranges (end - a) a c >>= (λ found. pure (some (differ found (is_negated b)))))

-- `any`, which stops at the first that passes.
abbrev pub any : (ℕ → Run Bool) → List ℕ → Run Bool
any test [] = ret false
any test (x ∷ xs) =
    let rest = any test xs in Base.◌>>=◌ (test x) (λ b. if b then ret true else rest)

-- The test of `class_step` for one range: a complement is of what the whole closure is in.
unfoldable pub range_has_any : PropertyTables → ℕ → ℕ → List ℕ → Run Bool
range_has_any t lo hi values =
    if bit lo 30 && (hi == 2)
    then Base.◌>>=◌ (any (Properties.contains t (descriptor_of lo)) values)
        (λ inside. ret (not inside))
    else any
        (λ value.
          if bit lo 30
          then Base.◌>>=◌ (Properties.contains t (descriptor_of lo) value)
              (λ inside. ret (differ inside (not (hi == 0))))
          else ret (within lo hi value))
        values

unfoldable pub class_batch : ℕ → ℕ → List ℕ → M Bool
unfolding class_range
class_batch zero index values = pure false
class_batch (suc n) index values =
    let rest = class_batch n (suc index) values in
    with_vm (λ vm. charge 1 >> class_range index >>= (λ (lo, hi).
      lift (range_has_any vm.properties lo hi values)
      >>= (λ found. if found then pure true else rest)))

-- The values, less those that `seen` has.
unfoldable pub search_values : ℕ → ℕ → List ℕ → List ℕ → M Bool
search_values index end seen [] = pure false
search_values index end seen (value ∷ values) =
    let rest = search_values index end (value ∷ seen) values in
    if contains seen value
    then rest
    else search_range (suc (end - index)) index end value
      >>= (λ found. if found then pure true else rest)

step_sorted : ClassScan → ℕ → M (Unit {0})
step_sorted s available =
    if available == 0
    then pure tt
    else search_values s.index s.end [] s.values
      >>= (λ found. class_result found s.negated s.context)

step_unsorted : ClassScan → ℕ → M (Unit {0})
step_unsorted s available =
    let stop : ℕ = min s.end (min 0xffff_ffff (s.index + min available 256)) in
    class_batch (stop - s.index) s.index s.values >>= (λ found.
      if found
      then class_result true s.negated s.context
      else if stop == s.end
      then class_result false s.negated s.context
      else set_phase (class (record s { index = stop })))

step_scan : Phase → ℕ → M (Unit {0})
step_scan (class s) available =
    if s.sorted then step_sorted s available else step_unsorted s available
step_scan _ available = throw invalid_program

unfoldable pub class_step : ℕ → M (Unit {0})
unfolding step_scan step_sorted step_unsorted
class_step available = with_vm (λ vm. step_scan vm.state.phase available)
