-- ===== src/Executor/Instruction.antt =====
-- `instruction` of src/executor.rs: one opcode, fetched and paid for.
use perex.Base.{ℕ, ◌+◌, ◌-◌, ◌%◌, ◌==◌, Bool, ◌||◌, Option, none, some, if◌then◌else◌}
use perex.Program.{sequence_group}
use perex.Executor.State.{invalid_program, in_trial, Phase, trial, fail, named, unset}
use perex.Executor.Monad.{M, ◌>>=◌, ◌>>◌, pure, throw, with_vm}
use perex.Executor.Store.{set_phase, store, push, read}
use perex.Executor.Seeking.{begin_backref}
use perex.Executor.Classes.{begin_class, class_decide, class_step}
use perex.Executor.Members.{begin_sequence, sequence_step}
use perex.Executor.Opcodes.{
  Step, go_on, failing, handed_over, match_step, char_step, any_step, branch_step, start_step,
  end_step, word_step, assert_step, assert_end_step, repeat_init, atom_repeat, repeat_choice,
  repeat_body, repeat_next, set_pc,
}

-- What is left of the quantum where the instruction begins.
available_of : Bool → ℕ → ℕ → ℕ
available_of pausable remaining quantum_end =
    if pausable
    then (remaining + 0x1_0000_0000_0000_0000 - quantum_end) % 0x1_0000_0000_0000_0000
    else unset

step_of_phase : Phase → Step
step_of_phase trial = go_on
step_of_phase fail = failing
step_of_phase _ = handed_over

-- A step in the phase that the operation left.
by_phase : M Step
by_phase = with_vm (λ vm. pure (step_of_phase vm.state.phase))

-- The class test in its phase.
class_in_phase : ℕ → ℕ → ℕ → Bool → Bool → ℕ → M Step
class_in_phase a b c fold sorted available =
    begin_class a b c in_trial fold sorted >> class_step available >> by_phase

decided : M Step → Option Bool → M Step
decided undecided none = undecided
decided undecided (some found) = pure (if found then go_on else failing)

class_of : ℕ → ℕ → Bool → Bool → ℕ → Option ℕ → M Step
class_of a b fold sorted available none = pure failing
class_of a b fold sorted available (some c) =
    if fold
    then class_in_phase a b c fold sorted available
    else class_decide a b c sorted available
      >>= decided (class_in_phase a b c fold sorted available)

unfoldable pub class_instruction : ℕ → ℕ → Bool → Bool → ℕ → M Step
unfolding class_of decided class_in_phase by_phase step_of_phase
class_instruction a b fold sorted available = read >>= class_of a b fold sorted available

sequence_instruction : ℕ → ℕ → Bool → ℕ → M Step
sequence_instruction a b fold available =
    let (set, group) = sequence_group a in
    begin_sequence set group b fold >> sequence_step available >> by_phase

unfoldable pub instruction : Bool → ℕ → ℕ → ℕ → ℕ → M Step
unfolding available_of sequence_instruction by_phase step_of_phase
instruction pausable op a b quantum_end = with_vm (λ vm.
    let available : ℕ = available_of pausable vm.budget.remaining quantum_end in
    if op == 0
    then match_step
    else if op == 1 || op == 19
    then char_step a (op == 19)
    else if op == 2 || op == 21
    then any_step (op == 21)
    else if op == 3 || op == 20 || op == 27 || op == 28
    then class_instruction a b (op == 20 || op == 28) (op == 27 || op == 28) available
    else if op == 29 || op == 30
    then sequence_instruction a b (op == 30) available
    else if op == 4
    then (store a vm.cursor.utf16_offset >> pure go_on)
    else if op == 5
    then (push b 0 >> set_pc a >> pure go_on)
    else if op == 31
    then branch_step a b available
    else if op == 6
    then (set_pc a >> pure go_on)
    else if op == 7 || op == 22
    then start_step (op == 22)
    else if op == 8 || op == 23
    then end_step (op == 23)
    else if op == 9 || op == 24
    then word_step a (op == 24)
    else if op == 10 || op == 25
    then (begin_backref a available >> pure handed_over)
    else if op == 17 || op == 26
    then (set_phase (named a 0 unset) >> pure handed_over)
    else if op == 11
    then assert_step a b
    else if op == 12
    then assert_end_step
    else if op == 13
    then repeat_init a
    else if op == 18
    then atom_repeat a
    else if op == 14
    then repeat_choice a
    else if op == 15
    then repeat_body a
    else if op == 16
    then repeat_next a
    else throw invalid_program)
