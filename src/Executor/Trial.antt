-- ===== src/Executor/Trial.antt =====
-- How `Vm` of src/executor.rs begins and ends a trial: `begin_trial`, `skip_verified`, `initialize`,
-- `literal_lookbehind`, and the arms of `run` that clear captures and that check them after a match.
pub mod Validating
pub mod Starting
use perex.Base.{
  ℕ, zero, suc, ◌+◌, ◌-◌, ◌*◌, ◌/◌, ◌==◌, ltb, leb, min, max, Bool, true, false, not, ◌&&◌, ◌||◌,
  List, [], ◌∷◌,
}
use perex.Base.{Option, none, some, get_elem?, set, if◌then◌else◌, length, Run, ret, panic}
use perex.Base
use perex.Input.View
use perex.Input.Seek.{cursor_at}
use perex.Program.{capture_count, leading_pc, char_op, save_op}
use perex.Unicode.Properties.{at}
use perex.Executor.State.{
  ExecError, invalid_program, Phase, trial, initialize, clear, clear_store, validate, finished,
  State, unset,
}
use perex.Executor.Machine.{Vm}
use perex.Executor.Monad.{M, ◌>>=◌, ◌>>◌, pure, throw, with_vm, modify, lift}
use perex.Executor.Store.{charge, set_phase, set_state, or_error, store, restore}
use perex.Executor.Seeking.{opcode, set_cursor, register}

trial_state : State → State
trial_state s = record s {
  phase = trial;
  pc = 0;
  frames = 0;
  undo = 0;
  assertion = unset;
  reverse = false;
}

unfoldable pub begin_trial : Vm → Vm
unfolding trial_state
begin_trial vm = record vm {
  cursor = View.restore vm.cursor vm.state.start;
  state = trial_state vm.state;
}

-- `for pc in 0..entry`, with `n` instructions to go.
save_start : ℕ → ℕ → ℕ → M (Unit {0})
save_start zero pc position = pure tt
save_start (suc n) pc position =
    let rest = save_start n (suc pc) position in
    opcode pc
    >>= (λ (op, a, b). if op == save_op then store a position >> rest else throw invalid_program)

unfoldable pub skip_verified : M (Unit {0})
unfolding save_start
skip_verified = with_vm (λ vm.
    let verified : ℕ = vm.state.verified in
    let position : ℕ = vm.cursor.utf16_offset in
    modify (set_state (λ (s : State). record s { verified = 0 }))
    >> (if verified == 0
        then pure tt
        else lift (leading_pc vm.program) >>= (λ entry.
          charge (entry + verified)
          >> save_start entry 0 position
          >> lift (cursor_at vm.input (position + verified))
          >>= or_error invalid_program
          >>= set_cursor
          >> modify (set_state (λ (s : State). record s { pc = entry + verified })))))

-- `n` elements from `i` on become `x`.
unfoldable pub fill : List ℕ → ℕ → ℕ → ℕ → List ℕ
fill xs i zero x = xs
fill xs i (suc n) x = fill (set xs i x) (suc i) n x

unfoldable pub initialize_phase : ℕ → ℕ → M (Unit {0})
unfolding fill
initialize_phase index available = with_vm (λ vm. lift (capture_count vm.program) >>= (λ captures.
    let count : ℕ = captures * 2 in
    let end : ℕ = min count (index + min available 256) in
    let begin : M (Unit {0}) = modify begin_trial >> skip_verified in
    if index == count
    then begin
    else if ltb end index
    then lift panic
    else charge (end - index)
      >> (if leb end (length vm.registers) then pure tt else lift panic)
      >> modify (λ (vm : Vm). record vm { registers = fill vm.registers index (end - index) unset })
      >> (if end == count then begin else set_phase (initialize end))))

unfoldable pub clear_store_phase : ℕ → ℕ → ℕ → M (Unit {0})
clear_store_phase next end slot = store next unset >> set_phase (clear (next + 1) end slot)

unfoldable pub clear_phase : ℕ → ℕ → ℕ → M (Unit {0})
clear_phase next end slot = with_vm (λ vm.
    if next == end
    then store slot vm.cursor.utf16_offset >> set_phase trial
    else charge 1
      >> set_phase (clear_store next end slot)
      >> store next unset
      >> set_phase (clear (next + 1) end slot))

-- The condition that makes a capture of a match invalid; `units` is the subject's length.
unfoldable pub bad_capture : ℕ → ℕ → ℕ → ℕ → Bool
bad_capture units index lo hi =
    (index == 0 && (lo == unset || hi == unset))
    || (not (lo == unset) && not (hi == unset) && (ltb hi lo || ltb units hi))

-- `for index in index..end`, with `n` captures to go.
unfoldable pub validate_captures : ℕ → ℕ → M (Unit {0})
unfolding bad_capture
validate_captures zero index = pure tt
validate_captures (suc n) index =
    let rest = validate_captures n (suc index) in
    with_vm (λ vm. charge 2 >> register (index * 2) >>= (λ lo. register (index * 2 + 1) >>= (λ hi.
      if bad_capture vm.input.utf16_len index lo hi then throw invalid_program else rest)))

unfoldable pub validate_phase : ℕ → ℕ → M (Unit {0})
unfolding validate_captures
validate_phase index available = with_vm (λ vm. lift (capture_count vm.program) >>= (λ count.
    let end : ℕ = min count (index + min (max (available / 2) 1) 128) in
    validate_captures (end - index) index
    >> set_phase (if end == count then finished true else validate end)))

-- `(body..end).all`, with `n` instructions to go.
ascii_chars : Vm → ℕ → ℕ → Run Bool
ascii_chars vm zero pc = ret true
ascii_chars vm (suc n) pc =
    let rest = ascii_chars vm n (suc pc) in
    Base.◌>>=◌ (at vm.sections.instructions pc)
      (λ (op, a, b). if op == char_op && ltb a 128 then rest else ret false)

lookbehind_of : Vm → ℕ → ℕ → ℕ → Run (Option ℕ)
lookbehind_of vm body end length = Base.◌>>=◌ (at vm.sections.instructions end) (λ (op, a, b).
    if op == 12
    then Base.◌>>=◌ (ascii_chars vm length body) (λ all. ret (if all then some length else none))
    else ret none)

-- How many characters a lookbehind has whose body is ASCII characters alone.
unfoldable pub literal_lookbehind : Vm → ℕ → Run (Option ℕ)
unfolding ascii_chars lookbehind_of
literal_lookbehind vm after =
    let body : ℕ = vm.state.pc in
    let end : ℕ = after - 1 in
    if after == 0 || ltb end body
    then ret none
    else if end - body == 0 || ltb 32 (end - body) || leb (length vm.sections.instructions) end
    then ret none
    else lookbehind_of vm body end (end - body)
