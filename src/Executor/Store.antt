-- ===== src/Executor/Store.antt =====
-- What every operation of `Vm` of src/executor.rs is made of: paying, writing a register, saving a
-- frame, reading a character and going back to a mark.
pub mod Laws
use perex.Base.{
  ℕ, ◌+◌, ◌==◌, ltb, Bool, true, false, Option, none, some, get_elem?, set, if◌then◌else◌,
}
use perex.Base.{Run, ret}
use perex.Base
use perex.Budget
use perex.Budget.{Budget}
use perex.Input.View.{Input, Cursor, Mark, mark}
use perex.Input.View
use perex.Input.Walk.{next_unit, previous_unit}
use perex.Input.Points.{next_point, previous_point}
use perex.Program.{unicode}
use perex.Executor.State.{
  ExecError, work_limit, registers, frames, undo, invalid_program, Frame, Undo, State, Phase,
}
use perex.Executor.Machine.{Vm}
use perex.Executor.Monad.{Result, ok, fails, M, ◌>>=◌, ◌>>◌, pure, throw, with_vm, modify, lift}

-- Replacements of one field.
abbrev pub set_state : (State → State) → Vm → Vm
set_state f vm = record vm { state = f vm.state }

abbrev pub set_phase : Phase → M (Unit {0})
set_phase phase = modify (set_state (λ (s : State). record s { phase = phase }))

paid : Vm → Budget × Bool → Result (Unit {0}) × Vm
paid vm (b, true) = (ok tt, record vm { budget = b })
paid vm (b, false) = (fails work_limit, record vm { budget = b })

unfoldable pub charge : ℕ → M (Unit {0})
unfolding paid
charge n vm = ret (paid vm (Budget.charge vm.budget n))

-- `ok_or`.
abbrev pub or_error : {A : Type 0} → ExecError → Option A → M A
or_error e none = throw e
or_error e (some a) = pure a

-- The journal's next slot takes the old value.
journal : ℕ → ℕ → Vm → Run (Result (Unit {0}) × Vm)
journal slot old vm =
    if ltb 0 vm.state.frames
    then elim (get_elem? vm.undo_slots vm.state.undo) [
      | none ↦ ret (fails undo, vm)
      | some free ↦ ret (
        ok tt,
        record vm {
          undo_slots = set vm.undo_slots vm.state.undo (record { slot = slot; value = old });
          state = record vm.state { undo = vm.state.undo + 1 };
        },
      )
    ]
    else ret (ok tt, vm)

write : ℕ → ℕ → Vm → Vm
write slot value vm = record vm { registers = set vm.registers slot value }

unfoldable pub store : ℕ → ℕ → M (Unit {0})
unfolding journal write
store slot value = with_vm (λ vm.
    or_error invalid_program (get_elem? vm.registers slot)
    >>= (λ old. if old == value then pure tt else (journal slot old >> modify (write slot value))))

unfoldable pub push_at : ℕ → ℕ → Mark → ℕ → M (Unit {0})
push_at pc kind position limit vm =
    if ltb pc 0x1_0000_0000
    then elim (get_elem? vm.frame_slots vm.state.frames) [
      | none ↦ ret (fails frames, vm)
      | some free ↦ ret (
        ok tt,
        record vm {
          frame_slots = set vm.frame_slots vm.state.frames (record {
            pc = pc;
            position = position;
            undo = vm.state.undo;
            assertion = vm.state.assertion;
            limit = limit;
            kind = kind;
            reverse = vm.state.reverse;
          });
          state = record vm.state { frames = vm.state.frames + 1 };
        },
      )
    ]
    else ret (fails invalid_program, vm)

unfoldable pub push : ℕ → ℕ → M (Unit {0})
unfolding push_at
push pc kind = with_vm (λ vm. push_at pc kind (mark vm.cursor) 0)

-- The character at a cursor, in a direction and a mode.
unfoldable pub read_cursor : Cursor → Bool → Bool → Run (Option ℕ × Cursor)
read_cursor c true false = next_point c
read_cursor c true true = previous_point c
read_cursor c false false = next_unit c
read_cursor c false true = previous_unit c

unfoldable pub read : M (Option ℕ)
unfolding read_cursor
read vm = Base.◌>>=◌ (unicode vm.program) (λ u.
    Base.◌>>=◌ (read_cursor vm.cursor u vm.state.reverse)
      (λ (c, cursor). ret (ok c, record vm { cursor = cursor })))

unfoldable pub restore : Mark → M (Unit {0})
restore m = modify (λ (vm : Vm). record vm { cursor = View.restore vm.cursor m })
