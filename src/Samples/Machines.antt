-- ===== src/Samples/Machines.antt =====
-- A machine in the middle of a trial, with a frame and a write to undo, and a search that has matched.
use perex.Base.{
  ℕ, zero, suc, ◌≤◌, ◌<◌, ◌≡◌, refl, ap, arith, List, [], ◌∷◌, Option, none, some, true, false,
}
use perex.Base.{get_elem?, ret}
use perex.Samples.{sample_input}
use mathlib.Core.Option.{some-injective}
use perex.Span.{Span}
use perex.Input.View.{cursor}
use perex.Program.{Program, capture_count}
use perex.Executor.State.{
  Frame, State, finished, first_mark, unset, registers_of, then_trial, trial, in_trial, rollback,
}
use perex.Executor.State.{new as new_state}
use perex.Executor.Machine.{Vm}
use perex.Executor.Monad.{ok, ◌>>◌}
use perex.Executor.Store.{store, push_at}
use perex.Executor.Undoing.{fail_phase, rollback_phase}
use perex.Executor.Undoing.Journal.{IsJournal}
use perex.Executor.Undoing.Snapshots.{IsSound, Stored, store-Stored, Saves, push_at-Saves}
use perex.Executor.Undoing.Unwind.{Unwinding, Unwound, rollback_phase-Unwound}
use perex.Executor.Undoing.Failing.{Failed, fail_phase-Failed, choice}
use perex.Executor.Classes.{search_range, begin_class, class_step, class_decide}
use perex.Executor.Classes.Sorted.{Searched, search_range-Searched}
use perex.Executor.Classes.Agreement.{Agrees, class_decide-Agrees}
use perex.Executor.Trial.{validate_phase, initialize_phase}
use perex.Executor.Trial.Validating.{Checks, validate_phase-Checks}
use perex.Executor.Trial.Starting.{Begins, initialize_phase-Begins}
use perex.Executor.Search.{
  Search, Scratch, ScratchRequirements, rebuffer, required_scratch, copy_captures, require_match,
}
use perex.Executor.Search
use perex.Executor.Search.Rebuffer.{Rebuffers, rebuffer-Rebuffers}
use perex.Executor.Search.Captures.{Copied, copy_captures-Copied}

-- One capture, one instruction, two ranges, no repeat.
abbrev sample_program : Program
sample_program = record {
  words = 0x50525831 ∷ 16 ∷ 0 ∷ 1 ∷ 1 ∷ 2 ∷ 0 ∷ 0 ∷ 0 ∷ 0 ∷ 0 ∷ 3 ∷ 0 ∷ 2 ∷ 48 ∷ 57 ∷ 65 ∷ 90 ∷ [];
}

abbrev sample_frame : Frame
sample_frame = record {
  pc = 3;
  position = first_mark;
  undo = 0;
  assertion = unset;
  limit = 0;
  kind = 0;
  reverse = false;
}

abbrev sample_state : State
sample_state = record (new_state 0 4) { phase = trial; frames = 1; undo = 1 }

abbrev sample_vm : Vm
sample_vm = record {
  cases = record { legacy = []; unicode = [] };
  properties = record { rows = []; category = []; bounds = []; id_start = 0; id_continue = 0 };
  sequences = record { sets = []; groups = []; index = []; points = []; longest = 0 };
  program = sample_program;
  sections = record {
    instructions = (3, 0, 2) ∷ [];
    ranges = (48, 57) ∷ (65, 90) ∷ [];
    repeats = [];
  };
  input = sample_input;
  cursor = cursor sample_input;
  registers = 1 ∷ 3 ∷ [];
  frame_slots = sample_frame ∷ sample_frame ∷ [];
  undo_slots = record { slot = 0; value = 0 } ∷ record { slot = 0; value = 0 } ∷ [];
  state = sample_state;
  budget = record { remaining = 100 };
}

sample_journal : IsJournal sample_vm.undo_slots 2 1
sample_journal zero h = (record { slot = 0; value = 0 }, refl, omega arith)
sample_journal (suc i) h = absurd (omega arith)

sample_vm-IsSound : IsSound sample_vm
unfolding new_state
sample_vm-IsSound = record {
  journal = sample_journal;
  stack = (sample_frame, refl, omega arith, tt);
}

-- The register of the capture's end, which the frame gives back.
store-Stored_example : Stored 1 9 sample_vm (store 1 9 sample_vm)
store-Stored_example = store-Stored 1 9 sample_vm sample_vm-IsSound

push_at-Saves_example : Saves 8 0 first_mark 0 sample_vm (push_at 8 0 first_mark 0 sample_vm)
push_at-Saves_example = push_at-Saves 8 0 first_mark 0 sample_vm sample_vm-IsSound

fail_phase-Failed_example :
    Failed (0 ∷ 3 ∷ []) [] sample_frame then_trial sample_vm (fail_phase sample_vm)
unfolding new_state
fail_phase-Failed_example =
    fail_phase-Failed (0 ∷ 3 ∷ []) [] sample_frame then_trial sample_vm 0 sample_vm-IsSound refl
      refl refl (choice refl) (omega arith)

abbrev unwinding_vm : Vm
unwinding_vm = record sample_vm {
  state = record sample_state { frames = 0; phase = rollback 0 then_trial };
}

unwinding_vm-Unwinding : Unwinding (0 ∷ 3 ∷ []) [] 0 unwinding_vm
unfolding new_state
unwinding_vm-Unwinding = record {
  bound = omega arith;
  journal = sample_journal;
  stack = tt;
  back = refl;
  others = refl;
}

rollback_phase-Unwound_example :
    Unwound (0 ∷ 3 ∷ []) [] 0 trial unwinding_vm (rollback_phase 0 then_trial 8 unwinding_vm)
rollback_phase-Unwound_example =
    rollback_phase-Unwound (0 ∷ 3 ∷ []) [] 0 8 then_trial trial unwinding_vm unwinding_vm-Unwinding
      refl (omega arith)

range_ends :
    (a b lo hi : ℕ) → ◌≡◌ {A = Option (ℕ × ℕ)} (some (a, b)) (some (lo, hi)) → (a ≡ lo) × (b ≡ hi)
range_ends a b lo hi h =
    let e : ◌≡◌ {A = ℕ × ℕ} (a, b) (lo, hi) = some-injective (a, b) (lo, hi) h in
    (ap (λ w. w.0) e, ap (λ w. w.1) e)

each_range :
    (i lo hi : ℕ) → 0 ≤ i → i < 2 → get_elem? sample_vm.sections.ranges i ≡ some (lo, hi) → lo ≤ hi
each_range zero lo hi a b h = let (p, q) = range_ends 48 57 lo hi h in omega arith
each_range (suc zero) lo hi a b h = let (p, q) = range_ends 65 90 lo hi h in omega arith
each_range (suc (suc i)) lo hi a b h = absurd (omega arith)

range_pairs :
    (i j lo hi lo2 hi2 : ℕ)
    → 0 ≤ i
    → i < j
    → j < 2
    → get_elem? sample_vm.sections.ranges i ≡ some (lo, hi)
    → get_elem? sample_vm.sections.ranges j ≡ some (lo2, hi2)
    → hi < lo2
range_pairs zero zero lo hi lo2 hi2 a b c g h = absurd (omega arith)
range_pairs zero (suc zero) lo hi lo2 hi2 a b c g h =
    let (p, q) = range_ends 48 57 lo hi g in
    let (p2, q2) = range_ends 65 90 lo2 hi2 h in omega arith
range_pairs zero (suc (suc j)) lo hi lo2 hi2 a b c g h = absurd (omega arith)
range_pairs (suc i) j lo hi lo2 hi2 a b c g h = absurd (omega arith)

search_range-Searched_example :
    Searched sample_vm.sections.ranges 0 2 70 2 sample_vm (search_range 3 0 2 70 sample_vm)
search_range-Searched_example =
    search_range-Searched 3 0 2 70 2 sample_vm (each_range, range_pairs) (omega arith) (omega arith)
      (omega arith) (omega arith)

class_decide-Agrees_example :
    Agrees in_trial sample_vm
      (class_decide 0 2 70 true 8 sample_vm)
      ((begin_class 0 2 70 in_trial false true >> class_step 8) sample_vm)
class_decide-Agrees_example = class_decide-Agrees 0 2 70 8 in_trial true sample_vm

sample-capture_count : capture_count sample_program ≡ ret 1
unfolding capture_count
sample-capture_count = refl

validate_phase-Checks_example : Checks 1 0 sample_vm (validate_phase 0 8 sample_vm)
validate_phase-Checks_example =
    validate_phase-Checks 1 0 8 sample_vm sample-capture_count (omega arith) (omega arith)
      (omega arith)

sample-verified : sample_vm.state.verified ≡ 0
unfolding new_state
sample-verified = refl

initialize_phase-Begins_example : Begins 2 0 sample_vm (initialize_phase 0 8 sample_vm)
initialize_phase-Begins_example =
    initialize_phase-Begins 1 0 8 sample_vm sample-capture_count sample-verified (omega arith)
      (omega arith) (omega arith) (omega arith)

abbrev sample_search : Search
sample_search = record {
  buffers = record { registers = 1 ∷ 3 ∷ []; frames = []; undo = [] };
  shape = record {
    head = 0x50525831 ∷ 16 ∷ 0 ∷ 1 ∷ 1 ∷ 2 ∷ 0 ∷ 0 ∷ 0 ∷ 0 ∷ 0 ∷ [];
    words = 18;
    input = record { kind = 1; len = 7; utf16_len = 4 };
  };
  state = record (new_state 0 4) { phase = finished true };
  budget = record { remaining = 100 };
}

abbrev sample_scratch : Scratch
sample_scratch = record { registers = 0 ∷ 0 ∷ 0 ∷ []; frames = sample_frame ∷ []; undo = [] }

sample-registers_of : registers_of sample_search.shape ≡ ret 2
unfolding registers_of
sample-registers_of = refl

rebuffer-Rebuffers_example :
    Rebuffers sample_search sample_scratch 2 (rebuffer sample_search sample_scratch)
rebuffer-Rebuffers_example = rebuffer-Rebuffers sample_search sample_scratch 2 sample-registers_of

sample-capture_slots : Search.capture_count sample_search ≡ ret 1
unfolding Search.capture_count
sample-capture_slots = refl

sample-require_match : require_match sample_search ≡ none
unfolding require_match new_state
sample-require_match = refl

copy_captures-Copied_example :
    (out : List (Option Span)) × (copy_captures sample_search (none ∷ none ∷ []) ≡ ret (ok out))
    × Copied sample_search (none ∷ none ∷ []) out 1
copy_captures-Copied_example =
    copy_captures-Copied sample_search (none ∷ none ∷ []) 1 sample-capture_slots
      sample-require_match (omega arith) (omega arith)
