-- ===== src/Executor/Opcodes.antt =====
-- The arms of `instruction` of src/executor.rs, one function for each, without the tests that
-- classes and sequences make.
use perex.Base.{
  ℕ, zero, suc, ◌+◌, ◌-◌, ◌*◌, ◌==◌, ltb, leb, Bool, true, false, not, ◌&&◌, ◌||◌, List, [], ◌∷◌,
}
use perex.Base.{Option, none, some, if◌then◌else◌, Run, ret, panic, stuck}
use perex.Base
use perex.Input.View.{mark, ascii_bytes}
use perex.Input.Walk.{next_unit, previous_unit}
use perex.Program.{unicode, capture_count, first_bucket}
use perex.Unicode.Casefold.{word}
use perex.Unicode.Search.{bit}
use perex.Unicode.Properties.{at}
use perex.Executor.State.{
  invalid_program, work_limit, Frame, atom, then_fail, finished, validate, atom_scan, rollback,
  clear, State, unset,
}
use perex.Executor.Machine.{Vm, Repeat}
use perex.Executor.Monad.{M, ◌>>=◌, ◌>>◌, pure, throw, with_vm, modify, lift}
use perex.Executor.Store.{charge, set_phase, set_state, store, push, read, read_cursor, restore}
use perex.Executor.Seeking.{opcode, register, equal}
use perex.Executor.Trial.{literal_lookbehind}
use perex.Executor.Classes.{differ}

pub data Step : Type 0 where
  go_on failing handed_over : Step

-- `Ok(if success { Step::Next } else { Step::Fail })`.
abbrev pub step_if : Bool → M Step
step_if success = pure (if success then go_on else failing)

abbrev pub line_terminator : ℕ → Bool
line_terminator c = c == 10 || c == 13 || c == 0x2028 || c == 0x2029

abbrev pub passes : (ℕ → Bool) → Option ℕ → Bool
passes test none = false
passes test (some c) = test c

abbrev pub set_pc : ℕ → M (Unit {0})
set_pc pc = modify (set_state (λ (s : State). record s { pc = pc }))

unfoldable pub match_step : M Step
match_step = with_vm (λ vm.
    if vm.state.assertion == unset
    then set_phase (if vm.state.boolean then finished true else validate 0) >> pure handed_over
    else throw invalid_program)

unfoldable pub char_step : ℕ → Bool → M Step
char_step a fold = with_vm (λ vm.
    read
    >>= (λ c. lift (unicode vm.program) >>= (λ u. step_if (passes (λ c. equal vm u c a fold) c))))

unfoldable pub any_step : Bool → M Step
any_step every = read >>= (λ c. step_if (passes (λ c. every || not (line_terminator c)) c))

-- `mask & bucket == 0`, the bucket being no bit where there is no character.
misses : ℕ → Option ℕ → Bool
misses mask none = true
misses mask (some c) = not (bit mask (first_bucket c))

-- The chain of branches, on fuel: each round but the last pays one.
unfoldable pub branch_chain : ℕ → ℕ → ℕ → Option ℕ → ℕ → ℕ → M Step
unfolding misses
branch_chain zero mask right c chained available = lift stuck
branch_chain (suc fuel) mask right c chained available =
    if misses mask c
    then opcode right >>= (λ (op, a, b).
      if not (op == 31) || leb available chained
      then (set_pc right >> pure go_on)
      else let onward = branch_chain fuel a b c (chained + 1) available in
        charge 1 >> set_pc (right + 1) >> onward)
    else (push right 0 >> pure go_on)

unfoldable pub branch_step : ℕ → ℕ → ℕ → M Step
branch_step a b available = with_vm (λ vm.
    lift (Base.◌>>=◌ (unicode vm.program) (λ u. read_cursor vm.cursor u vm.state.reverse))
    >>= (λ (c, ahead). branch_chain (suc vm.budget.remaining) a b c 1 available))

unfoldable pub start_step : Bool → M Step
start_step multiline = with_vm (λ vm.
    if vm.cursor.utf16_offset == 0
    then step_if true
    else if multiline
    then lift (previous_unit vm.cursor) >>= (λ (u, before). step_if (passes line_terminator u))
    else step_if false)

unfoldable pub end_step : Bool → M Step
end_step multiline = with_vm (λ vm.
    if vm.cursor.utf16_offset == vm.input.utf16_len
    then step_if true
    else if multiline
    then lift (next_unit vm.cursor) >>= (λ (u, after). step_if (passes line_terminator u))
    else step_if false)

unfoldable pub word_step : ℕ → Bool → M Step
word_step a fold = with_vm (λ vm. lift (unicode vm.program) >>= (λ u.
    lift (read_cursor vm.cursor u true) >>= (λ (left, before).
      lift (read_cursor vm.cursor u false) >>= (λ (right, after).
        let test : ℕ → Bool = λ c. word c (fold && u) in
        step_if (differ (differ (passes test left) (passes test right)) (not (a == 0)))))))

-- `(0..length).all`, of `n` characters to go: `position` is behind the next byte, `pc` its instruction.
held_before : Vm → List ℕ → ℕ → ℕ → ℕ → Run Bool
held_before vm bytes zero position pc = ret true
held_before vm bytes (suc n) zero pc = panic
held_before vm bytes (suc n) (suc position) pc =
    let rest = held_before vm bytes n position (suc pc) in
    Base.◌>>=◌ (at bytes position) (λ byte.
      Base.◌>>=◌ (at vm.sections.instructions pc)
        (λ (op, a, b). if byte == a then rest else ret false))

literal_assert : ℕ → ℕ → ℕ → List ℕ → M Step
literal_assert a b length bytes = with_vm (λ vm.
    let position : ℕ = vm.cursor.utf16_offset in
    charge (length + 1)
    >> lift (
        if leb length position then held_before vm bytes length position vm.state.pc else ret false)
    >>= (λ held. if differ held (bit b 0) then (set_pc a >> pure go_on) else pure failing))

plain_assert : ℕ → ℕ → M Step
plain_assert a b =
    push a (if bit b 0 then 2 else 1)
    >> modify (set_state (λ (s : State). record s { assertion = s.frames - 1; reverse = bit b 1 }))
    >> pure go_on

assert_of : ℕ → ℕ → Option ℕ → Option (List ℕ) → M Step
assert_of a b (some length) (some bytes) = literal_assert a b length bytes
assert_of a b _ _ = plain_assert a b

unfoldable pub assert_step : ℕ → ℕ → M Step
unfolding assert_of literal_assert plain_assert held_before
assert_step a b = with_vm (λ vm.
    if bit b 1
    then lift (literal_lookbehind vm a) >>= (λ length. assert_of a b length (ascii_bytes vm.input))
    else plain_assert a b)

leave_assertion : Frame → M Step
leave_assertion frame =
    modify (
      set_state (λ (s : State). record s {
        frames = s.assertion;
        reverse = frame.reverse;
        assertion = frame.assertion;
      }))
    >> restore frame.position
    >> (if frame.kind == 2
        then set_phase (rollback frame.undo then_fail) >> pure handed_over
        else set_pc frame.pc
          >> modify
              (set_state (λ (s : State). record s { undo = if s.frames == 0 then 0 else s.undo }))
          >> pure go_on)

unfoldable pub assert_end_step : M Step
unfolding leave_assertion
assert_end_step = with_vm (λ vm.
    if vm.state.assertion == unset || leb vm.state.frames vm.state.assertion
    then throw invalid_program
    else lift (at vm.frame_slots vm.state.assertion) >>= leave_assertion)

-- Where a repeat's count stands in the registers.
slot_of : ℕ → M ℕ
slot_of a =
    with_vm (λ vm. lift (capture_count vm.program) >>= (λ captures. pure (captures * 2 + a * 2)))

repeat_record : ℕ → M Repeat
repeat_record a vm = lift (at vm.sections.repeats a) vm

unfoldable pub repeat_init : ℕ → M Step
unfolding slot_of
repeat_init a = slot_of a >>= (λ slot. store slot 0 >> store (slot + 1) unset >> pure go_on)

-- `a - b`, which panics below zero.
minus : ℕ → ℕ → Run ℕ
minus a b = if ltb a b then panic else ret (a - b)

unfoldable pub atom_repeat : ℕ → M Step
unfolding repeat_record minus
atom_repeat a = with_vm (λ vm. repeat_record a >>= (λ r. lift (minus vm.state.pc 1) >>= (λ pc.
    set_pc pc >> lift (if bit r.flags 0 then ret 0 else minus r.most r.least) >>= (λ remaining.
      modify (
        set_state (λ (s : State). record s {
          work = atom (record {
            minimum_end = vm.cursor.utf16_offset;
            needed = r.least;
            remaining = remaining;
            before = mark vm.cursor;
          });
          phase = atom_scan;
        }))
      >> pure handed_over))))

unfoldable pub repeat_choice : ℕ → M Step
unfolding slot_of repeat_record
repeat_choice a = repeat_record a >>= (λ r. slot_of a >>= (λ slot. register slot >>= (λ count.
    if not (bit r.flags 0) && leb r.most count
    then (set_pc r.exit >> pure go_on)
    else if leb r.least count
    then (if bit r.flags 1
        then (push r.body 0 >> set_pc r.exit >> pure go_on)
        else (push r.exit 0 >> pure go_on))
    else pure go_on)))

unfoldable pub repeat_body : ℕ → M Step
unfolding slot_of repeat_record
repeat_body a = with_vm (λ vm. repeat_record a >>= (λ r. slot_of a >>= (λ slot.
    if r.first_capture == r.end_capture
    then (store (slot + 1) vm.cursor.utf16_offset >> pure go_on)
    else (set_phase (clear (r.first_capture * 2) (r.end_capture * 2) (slot + 1))
        >> pure handed_over))))

unfoldable pub repeat_next : ℕ → M Step
unfolding slot_of repeat_record minus
repeat_next a = with_vm (λ vm. repeat_record a >>= (λ r. slot_of a >>= (λ slot.
    register slot >>= (λ count. register (slot + 1) >>= (λ begun.
      if vm.cursor.utf16_offset == begun && leb r.least count
      then pure failing
      else if count == unset
      then throw work_limit
      else store slot (count + 1) >> lift (minus r.body 1) >>= (λ pc. set_pc pc >> pure go_on))))))
