-- ===== src/Executor/Undoing.antt =====
-- The arms of `run` of src/executor.rs that go back to the last frame: the frame is taken, and the
-- journal's entries above the frame's mark are undone, in batches.
pub mod Journal
pub mod Snapshots
pub mod Unwind
pub mod Failing
use perex.Base.{
  ℕ, zero, suc, ◌+◌, ◌-◌, ◌==◌, ltb, leb, min, max, Bool, true, false, List, [], ◌∷◌, ◌||◌,
}
use perex.Base.{Option, none, some, get_elem?, set, if◌then◌else◌, length, Run, ret, panic}
use perex.Input.View.{mark}
use perex.Program.{sequence_group}
use perex.Unicode.Properties.{at}
use perex.Unicode.Sequences.{group_of}
use perex.Executor.State.{
  ExecError, invalid_program, Frame, Undo, AfterRollback, then_trial, then_fail, then_atom_retreat,
  then_atom_extend, then_sequence, Work, atom, Phase, trial, fail, next_start, rollback,
  atom_retreat, atom_extend, sequence, State,
}
use perex.Executor.Machine.{Vm}
use perex.Executor.Monad.{M, ◌>>=◌, ◌>>◌, pure, throw, with_vm, modify, lift}
use perex.Executor.Store.{charge, set_phase, set_state, restore}
use perex.Executor.Seeking.{opcode}
use perex.Executor.Members.{sequence_candidates}

atom_work : Frame → ℕ → ℕ → M (Unit {0})
atom_work frame minimum_end remaining = modify (
    set_state (λ (s : State). record s {
      work = atom (record {
        minimum_end = minimum_end;
        needed = 0;
        remaining = remaining;
        before = frame.position;
      });
    }))

-- What a frame's kind asks for; a limit that is read as 32 bits is an error where it is wider.
unfoldable pub after_of : Frame → M AfterRollback
unfolding atom_work
after_of frame =
    if frame.kind == 0 || frame.kind == 2
    then pure then_trial
    else if frame.kind == 1
    then pure then_fail
    else if frame.kind == 3
    then (atom_work frame frame.limit 0 >> pure then_atom_retreat)
    else if frame.kind == 4
    then (if ltb frame.limit 0x1_0000_0000
        then (atom_work frame 0 frame.limit >> pure then_atom_extend)
        else throw invalid_program)
    else if frame.kind == 5
    then (if ltb frame.limit 0x1_0000_0000
        then pure (then_sequence frame.limit)
        else throw invalid_program)
    else throw invalid_program

-- The state that a frame saved, less its position.
unfoldable pub resumed : Frame → State → State
resumed frame s = record s { pc = frame.pc; assertion = frame.assertion; reverse = frame.reverse }

take_frame : Frame → M (Unit {0})
take_frame frame =
    restore frame.position
    >> modify (set_state (resumed frame))
    >> after_of frame
    >>= (λ after. set_phase (rollback frame.undo after))

unfoldable pub fail_phase : M (Unit {0})
unfolding take_frame after_of
fail_phase = with_vm (λ vm.
    if vm.state.frames == 0
    then set_phase next_start
    else charge 1
      >> modify (set_state (λ (s : State). record s { frames = s.frames - 1 }))
      >> lift (at vm.frame_slots (vm.state.frames - 1))
      >>= take_frame)

abbrev pub undone : Vm → Undo → Vm
undone vm old = record vm {
  registers = set vm.registers old.slot old.value;
  state = record vm.state { undo = vm.state.undo - 1 };
}

-- One entry of the journal; no entry or no such register is a panic.
undo_one : M (Unit {0})
undo_one = with_vm (λ vm.
    if vm.state.undo == 0
    then lift panic
    else lift (at vm.undo_slots (vm.state.undo - 1)) >>= (λ old.
      if ltb old.slot (length vm.registers)
      then modify (λ (vm : Vm). undone vm old)
      else lift panic))

unfoldable pub undo_entries : ℕ → M (Unit {0})
unfolding undo_one
undo_entries zero = pure tt
undo_entries (suc n) = let rest = undo_entries n in undo_one >> rest

group_at : Vm → ℕ → ℕ → Option ℕ → Run ℕ
group_at vm set index none = group_of vm.sequences set index
group_at vm set index (some g) = ret g

is_every : Option ℕ → Bool
is_every none = true
is_every (some g) = false

-- The scan goes on behind the member of a frame, with what the program says of the instruction.
resume_sequence : ℕ → M (Unit {0})
resume_sequence index = with_vm (λ vm.
    let pc : ℕ = vm.state.pc in
    if leb (length vm.sections.instructions) pc
    then throw invalid_program
    else opcode pc >>= (λ (op, a, filter).
      if op == 29 || op == 30
      then (let (set, g) = sequence_group a in
          modify (set_state (λ (s : State). record s { pc = pc + 1 }))
          >> lift (group_at vm set index g)
          >>= (λ group.
              sequence_candidates set group (mark vm.cursor) (op == 30) >>= (λ (begin, end).
                set_phase (
                  sequence (record {
                    set = set;
                    group = group;
                    at = index;
                    end = end;
                    filter = filter;
                    start = mark vm.cursor;
                    fold = op == 30;
                    every = is_every g;
                  })))))
      else throw invalid_program))

after_phase : AfterRollback → M (Unit {0})
after_phase then_trial = set_phase trial
after_phase then_fail = set_phase fail
after_phase then_atom_retreat = set_phase atom_retreat
after_phase then_atom_extend = set_phase atom_extend
after_phase (then_sequence index) = resume_sequence index

unfoldable pub rolled_back : ℕ → AfterRollback → M (Unit {0})
unfolding after_phase resume_sequence group_at is_every
rolled_back until after = with_vm (λ vm.
    if ltb until vm.state.undo
    then pure tt
    else if ltb vm.state.undo until
    then throw invalid_program
    else modify (set_state (λ (s : State). record s { undo = if s.frames == 0 then 0 else s.undo }))
      >> after_phase after)

-- How many entries a batch undoes.
abbrev pub batch_of : Vm → ℕ → ℕ → ℕ
batch_of vm until available =
    max (min (min (vm.state.undo - until) (max available 1)) vm.budget.remaining) 1

unfoldable pub rollback_phase : ℕ → AfterRollback → ℕ → M (Unit {0})
unfolding undo_entries rolled_back
rollback_phase until after available = with_vm (λ vm.
    (if ltb until vm.state.undo
      then charge (batch_of vm until available) >> undo_entries (batch_of vm until available)
      else pure tt)
    >> rolled_back until after)
