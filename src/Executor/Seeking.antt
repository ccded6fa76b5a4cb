-- ===== src/Executor/Seeking.antt =====
-- How `Vm` of src/executor.rs goes to a position: `seek`, `sought`, `backref`, and the arms of `run` for
-- the start, the seek, named groups, backreferences and the next start; and `start_candidate` of
-- src/executor/candidate.rs.
use perex.Base.{
  ℕ, zero, suc, ◌+◌, ◌-◌, ◌*◌, ◌/◌, ◌==◌, ltb, leb, min, max, Bool, true, false, not, ◌&&◌, ◌||◌,
  List, [], ◌∷◌,
}
use perex.Base.{Option, none, some, if◌then◌else◌, length, Run, ret, panic, or_panic}
use perex.Base
use perex.Input.View.{Cursor, Mark, mark, original_bytes}
use perex.Input.View
use perex.Input.Walk.{next_unit, previous_unit}
use perex.Input.Points.{normalize_unicode_start}
use perex.Input.Seek.{seek_work, cursor_at, resume_cursor}
use perex.Program.{unicode, first_descriptor, end_bound, capture_indices}
use perex.Unicode.Casefold
use perex.Unicode.Properties.{at}
use perex.Executor.State.{
  invalid_program, changed_resources, AfterSeek, then_start, then_backref, candidate, initialize,
  seeking, backref, trial, fail, finished, named, State, unset, no_mark, is_none,
}
use perex.Executor.Machine.{Vm}
use perex.Executor.Monad.{M, ◌>>=◌, ◌>>◌, pure, throw, with_vm, modify, lift}
use perex.Executor.Store.{charge, set_phase, set_state, or_error, read, read_cursor}

-- `Some` opcode of the sections, which an index out of range panics for.
abbrev pub opcode : ℕ → M (ℕ × ℕ × ℕ)
opcode pc vm = lift (at vm.sections.instructions pc) vm

abbrev pub set_cursor : Cursor → M (Unit {0})
set_cursor c = modify (λ (vm : Vm). record vm { cursor = c })

abbrev pub abs_diff : ℕ → ℕ → ℕ
abs_diff a b = (a - b) + (b - a)

unfoldable pub start_candidate : M (Unit {0})
start_candidate = with_vm (λ vm. lift (first_descriptor vm.program) >>= (λ d.
    set_phase (elim (original_bytes vm.input) [
      | none ↦ initialize 0
      | some bytes ↦ if d == 0 then initialize 0 else candidate
    ])))

normalize : Vm → Bool → Run Cursor
normalize vm u =
    if u
    then Base.◌>>=◌ (normalize_unicode_start vm.cursor) (λ (moved, c). ret c)
    else ret vm.cursor

unfoldable pub sought : AfterSeek → M (Unit {0})
unfolding normalize
sought then_start = with_vm (λ vm. lift (Base.◌>>=◌ (unicode vm.program) (normalize vm)) >>= (λ c.
    set_cursor c
    >> modify (set_state (λ (s : State). record s { start = mark c; started = true }))
    >> start_candidate))
sought (then_backref start end matched) = with_vm (λ vm.
    set_cursor (View.restore vm.cursor matched)
    >> (if vm.state.pc == 0 then lift panic else opcode (vm.state.pc - 1))
    >>= (λ (op, a, b). set_phase (backref start end (mark vm.cursor) (op == 25 || op == 26))))

seek_plain : ℕ → AfterSeek → ℕ → M (Unit {0})
seek_plain target after available = with_vm (λ vm.
    let work : ℕ = seek_work vm.input target in
    if work == 1 || leb work available
    then charge work
      >> lift (cursor_at vm.input target)
      >>= or_error invalid_program
      >>= set_cursor
      >> sought after
    else charge 1
      >> lift (
          Base.◌>>=◌
            (cursor_at vm.input
              (if leb target (vm.input.utf16_len / 2) then 0 else vm.input.utf16_len))
            or_panic)
      >>= set_cursor
      >> set_phase (seeking target after))

seek_near : ℕ → AfterSeek → ℕ → M (Unit {0})
seek_near target after available = with_vm (λ vm.
    modify (set_state (λ (s : State). record s { near = no_mark }))
    >> lift (resume_cursor vm.input vm.state.near)
    >>= or_error changed_resources
    >>= (λ c.
        if ltb (abs_diff c.utf16_offset target + 1) (seek_work vm.input target)
        then charge 1 >> set_cursor c >> set_phase (seeking target after)
        else seek_plain target after available))

unfoldable pub seek : ℕ → AfterSeek → ℕ → M (Unit {0})
unfolding seek_near seek_plain
seek target then_start available = with_vm (λ vm.
    if is_none vm.state.near
    then seek_plain target then_start available
    else seek_near target then_start available)
seek target after available = seek_plain target after available

-- `for _ in 0..steps`; a missing unit is an invalid program.
walk : Bool → ℕ → M (Unit {0})
walk forward zero = pure tt
walk forward (suc n) =
    let rest = walk forward n in
    with_vm (λ vm.
      lift (if forward then next_unit vm.cursor else previous_unit vm.cursor)
      >>= (λ (unit, c). set_cursor c >> or_error invalid_program unit >>= (λ u. rest)))

unfoldable pub seek_phase : ℕ → AfterSeek → ℕ → M (Unit {0})
unfolding walk
seek_phase target after available = with_vm (λ vm.
    let position : ℕ = vm.cursor.utf16_offset in
    let steps : ℕ =
      max (min (min (abs_diff position target) (max available 1)) vm.budget.remaining) 1 in
    (if position == target then pure tt else charge steps >> walk (ltb position target) steps)
    >> with_vm (λ (vm : Vm). if vm.cursor.utf16_offset == target then sought after else pure tt))

-- What an end bound leaves of a start: `none` where no match can begin there.
unfoldable pub start_phase : ℕ → M (Unit {0})
start_phase available = with_vm (λ vm.
    let target : ℕ = vm.state.requested_start in
    if vm.state.anchored && leb 2 target
    then charge 1 >> set_phase (finished false)
    else lift (end_bound vm.program) >>= (λ bound. elim bound [
      | none ↦ seek target then_start available
      | some bound ↦
          let earliest : ℕ = vm.input.utf16_len - bound in
          if ltb target earliest
          then if vm.state.one_start
            then charge 1 >> set_phase (finished false)
            else charge 1 >> seek earliest then_start available
          else seek target then_start available
    ]))

-- `self.scratch.registers[slot]`.
abbrev pub register : ℕ → M ℕ
register slot vm = lift (at vm.registers slot) vm

unfoldable pub begin_backref : ℕ → ℕ → M (Unit {0})
begin_backref index available = with_vm (λ vm. register (index * 2) >>= (λ start.
    register (index * 2 + 1) >>= (λ end.
      if start == unset || end == unset
      then set_phase trial
      else if ltb end start || ltb vm.input.utf16_len end
      then throw invalid_program
      else seek (if vm.state.reverse then end else start) (then_backref start end (mark vm.cursor))
          available)))

is_complete : ℕ → M Bool
is_complete index = register (index * 2) >>= (λ start.
    if start == unset
    then pure false
    else register (index * 2 + 1) >>= (λ end. pure (not (end == unset))))

unfoldable pub named_phase : ℕ → ℕ → ℕ → ℕ → M (Unit {0})
unfolding is_complete
named_phase group next selected available = with_vm (λ vm.
    lift (capture_indices vm.program group) >>= or_error invalid_program >>= (λ captures.
      if next == length captures
      then (if selected == unset then set_phase trial else begin_backref selected available)
      else charge 1 >> lift (at captures next) >>= (λ index. is_complete index >>= (λ complete.
        if complete && not (selected == unset)
        then throw invalid_program
        else set_phase (named group (next + 1) (if complete then index else selected))))))

-- `equal` of src/executor.rs.
unfoldable pub equal : Vm → Bool → ℕ → ℕ → Bool → Bool
equal vm u left right fold = left == right || (fold && Casefold.equal vm.cases left right u)

same_next : Vm → Bool → Bool → ℕ → Option ℕ → Bool
same_next vm u fold point none = false
same_next vm u fold point (some right) = equal vm u point right fold

unfoldable pub backref_phase : ℕ → ℕ → Mark → Bool → M (Unit {0})
unfolding same_next
backref_phase start end captured fold = with_vm (λ vm.
    let left : Cursor = View.restore vm.cursor captured in
    if left.utf16_offset == (if vm.state.reverse then start else end)
    then set_phase trial
    else charge 1 >> lift (unicode vm.program) >>= (λ u.
      lift (read_cursor left u vm.state.reverse) >>= (λ (point, left).
        or_error invalid_program point >>= (λ point.
          if ltb left.utf16_offset start || ltb end left.utf16_offset
          then throw invalid_program
          else read >>= (λ right. set_phase (
              if same_next vm u fold point right
              then backref start end (mark left) fold
              else fail))))))

-- A run that a failed start walked is left behind at once.
unfoldable pub next_start : M (Unit {0})
next_start = with_vm (λ vm.
    if vm.state.one_start
    then set_phase (finished false)
    else charge 1
      >> set_cursor (View.restore vm.cursor vm.state.start)
      >> modify (set_state (λ (s : State). record s { run_end = unset }))
      >> (if not (vm.state.run_end == unset) && ltb vm.state.start.units vm.state.run_end
          then set_phase (seeking vm.state.run_end then_start)
          else lift (
              Base.◌>>=◌ (unicode vm.program)
                (λ u. read_cursor (View.restore vm.cursor vm.state.start) u false))
            >>= (λ (point, c). set_cursor c >> elim point [
              | none ↦ set_phase (finished false)
              | some point ↦
                  modify (set_state (λ (s : State). record s { start = mark c })) >> start_candidate
            ])))
