-- ===== src/Executor/Literals.antt =====
-- src/executor/literals.rs: adjacent characters and saves over ASCII storage, in one loop that publishes
-- its work on every exit.
pub mod Charges
use perex.Base.{
  ℕ, zero, suc, ◌+◌, ◌-◌, ◌==◌, Bool, true, false, ◌&&◌, ◌||◌, List, [], ◌∷◌, Option, none, some,
}
use perex.Base.{get_elem?, if◌then◌else◌, Run, ret, stuck}
use perex.Base
use perex.Input.Seek.{cursor_at}
use perex.Program.{char_op, save_op}
use perex.Executor.State.{ExecError, undo, work_limit, invalid_program, execute}
use perex.Executor.Machine.{Vm}
use perex.Executor.Monad.{Result, ok, fails, M, ◌>>=◌, ◌>>◌, pure, throw, with_vm, lift}
use perex.Executor.Store.{charge, store, or_error, set_phase}
use perex.Executor.Seeking.{set_cursor}
use perex.Executor.Opcodes.{Step, go_on, failing, set_pc}

-- What the loop has when it ends.
pub record Ended : Type 0 where
  pub pc : ℕ
  pub position : ℕ
  pub remaining : ℕ
  pub result : Result Step

abbrev pub ended : ℕ → ℕ → ℕ → Result Step → M Ended
ended pc position remaining result =
    pure (record { pc = pc; position = position; remaining = remaining; result = result })

-- The result of a computation as a value.
abbrev pub caught : {A : Type 0} → M A → M (Result A)
caught m vm = Base.◌>>=◌ (m vm) (λ (r, vm). ret (ok r, vm))

abbrev pub is_undo : ExecError → Bool
is_undo undo = true
is_undo e = false

-- Where the journal is full, the paid save is what the search resumes with.
unfoldable pub stored : ℕ → ℕ → ℕ → ℕ → M Ended → Result (Unit {0}) → M Ended
stored operand position pc remaining onward (ok u) = onward
stored operand position pc remaining onward (fails e) =
    (if is_undo e then set_phase (execute save_op operand 0) else pure tt)
    >> ended pc position remaining (fails e)

is_run : ℕ → Bool
is_run op = op == char_op || op == save_op

-- Behind an opcode: the next one, where it belongs to the run; `next` is the loop's next round.
unfoldable pub onward : (ℕ → ℕ → ℕ → ℕ → M Ended) → Bool → ℕ → ℕ → ℕ → ℕ → M Ended
unfolding is_run
onward next pausable quantum_end position pc remaining = with_vm (λ vm.
    if pausable && (remaining == quantum_end)
    then ended pc position remaining (ok go_on)
    else elim (get_elem? vm.sections.instructions pc) [
      | none ↦ ended pc position remaining (ok go_on)
      | some (op, argument, b) ↦
          if is_run op
          then (if remaining == 0
              then ended pc position remaining (fails work_limit)
              else next op argument position (pc + 1))
          else ended pc position remaining (ok go_on)
    ])

-- The loop, on fuel: each round but the first pays a unit.
unfoldable pub literal_loop : ℕ → Bool → List ℕ → ℕ → ℕ → ℕ → ℕ → ℕ → ℕ → M Ended
unfolding onward stored
literal_loop zero pausable bytes quantum_end op operand position pc remaining = lift stuck
literal_loop (suc fuel) pausable bytes quantum_end op operand position pc remaining =
    let again : ℕ → ℕ → ℕ → ℕ → M Ended = λ op operand position pc.
      literal_loop fuel pausable bytes quantum_end op operand position pc (remaining - 1) in
    if op == char_op
    then elim (get_elem? bytes position) [
      | none ↦ ended pc position remaining (ok failing)
      | some actual ↦
          if actual == operand
          then onward again pausable quantum_end (position + 1) pc remaining
          else ended pc (position + 1) remaining (ok failing)
    ]
    else caught (store operand position)
      >>= stored operand position pc remaining
          (onward again pausable quantum_end position pc remaining)

of_result : Result Step → M Step
of_result (ok step) = pure step
of_result (fails e) = throw e

published : ℕ → Ended → M Step
published before e =
    set_pc e.pc
    >> charge (before - e.remaining)
    >> with_vm (λ vm. lift (cursor_at vm.input e.position))
    >>= or_error invalid_program
    >>= set_cursor
    >> of_result e.result

unfoldable pub literal_run : Bool → ℕ → ℕ → List ℕ → ℕ → M Step
unfolding published of_result
literal_run pausable op operand bytes quantum_end = with_vm (λ vm.
    literal_loop (suc vm.budget.remaining) pausable bytes quantum_end op operand
      vm.cursor.utf16_offset vm.state.pc vm.budget.remaining
    >>= published vm.budget.remaining)
