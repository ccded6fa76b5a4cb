-- ===== src/Executor/Undoing/Failing.antt =====
-- `Phase::Fail` of src/executor.rs: the last frame is taken off the stack.
use perex.Base.{ℕ, suc, ◌-◌, ◌==◌, ◌≤◌, ◌<◌, ◌≡◌, refl, sym, ◌∙◌, arith, List, ◌∷◌, some, false}
use perex.Base.{get_elem?, Run, ret, lt→ltb}
use mathlib.Core.Path.{subst}
use mathlib.Core.Option.{some-injective}
use perex.Input.View
use perex.Input.View.{mark}
use perex.Executor.State.{
  Frame, AfterRollback, then_trial, then_fail, then_atom_retreat, then_atom_extend, then_sequence,
  rollback, Work, atom,
}
use perex.Executor.Machine.{Vm}
use perex.Executor.Monad.{Result, ok}
use perex.Executor.Store.{restore}
use perex.Executor.Store.Laws.{charge-spent, spent}
use perex.Executor.Undoing.{fail_phase, resumed, after_of}
use perex.Executor.Undoing.Journal.{rewind, saved, IsStack}
use perex.Executor.Undoing.Snapshots.{snapshots, IsSound}
use perex.Executor.Undoing.Unwind.{Unwinding}

-- What the kind of a frame asks for.
pub data Resumes (frame : Frame) : AfterRollback → Type 0 where
  choice : frame.kind ≡ 0 → Resumes frame then_trial
  assertion : frame.kind ≡ 1 → Resumes frame then_fail
  negative : frame.kind ≡ 2 → Resumes frame then_trial
  retreat : frame.kind ≡ 3 → Resumes frame then_atom_retreat
  extend : frame.kind ≡ 4 → frame.limit < 0x1_0000_0000 → Resumes frame then_atom_extend
  members : frame.kind ≡ 5 → frame.limit < 0x1_0000_0000 → Resumes frame (then_sequence frame.limit)

pub data Failed (target : List ℕ) (rest : List (List ℕ)) (frame : Frame) (after : AfterRollback)
    (vm : Vm) : Run (Result (Unit {0}) × Vm) → Type 0 where
  unwinds :
      (end : Vm)
      → Unwinding target rest frame.undo end
      → end.state.phase ≡ rollback frame.undo after
      → end.state.pc ≡ frame.pc
      → mark end.cursor ≡ frame.position
      → end.state.assertion ≡ frame.assertion
      → end.state.reverse ≡ frame.reverse
      → suc end.budget.remaining ≡ vm.budget.remaining
      → Failed target rest frame after vm (ret (ok tt, end))

-- The top of the stack, from what the stack gives back.
taken :
    (target : List ℕ) (rest : List (List ℕ)) (frame : Frame) (vm end : Vm) (n : ℕ)
    → IsSound vm
    → vm.state.frames ≡ suc n
    → get_elem? vm.frame_slots n ≡ some frame
    → snapshots vm ≡ target ∷ rest
    → end.frame_slots ≡ vm.frame_slots
    → end.undo_slots ≡ vm.undo_slots
    → end.registers ≡ vm.registers
    → end.state.undo ≡ vm.state.undo
    → end.state.frames ≡ n
    → Unwinding target rest frame.undo end
taken target rest frame vm end n s f q e a b c d g =
    let top : IsStack vm.frame_slots vm.state.undo (suc n) =
      subst (λ k. IsStack vm.frame_slots vm.state.undo k) f s.stack in
    let (frame2, q2, le, below) = top in
    let same : frame2 ≡ frame = some-injective frame2 frame (sym q2 ∙ q) in
    let shown : (rewind vm.undo_slots vm.registers vm.state.undo (vm.state.undo - frame.undo)
          ∷ saved vm.frame_slots vm.undo_slots
              (rewind vm.undo_slots vm.registers vm.state.undo (vm.state.undo - frame.undo))
              frame.undo n)
        ≡ target ∷ rest =
      (rw (f, q, saved) refl) ∙ e in
    let back : rewind vm.undo_slots vm.registers vm.state.undo (vm.state.undo - frame.undo)
        ≡ target =
      cc in
    record {
      bound = rw d (subst (λ (w : Frame). w.undo ≤ vm.state.undo) same le);
      journal = rw b rw c rw d s.journal;
      stack = rw a rw g (subst (λ (w : Frame). IsStack vm.frame_slots w.undo n) same below);
      back = rw b rw c rw d back;
      others = rw a rw b rw g (rw⁻¹ back cc);
    }

after_of-Resumes :
    (frame : Frame) (after : AfterRollback) (vm : Vm)
    → Resumes frame after
    → (w : Work) × (after_of frame vm
        ≡ ret (ok after, record vm { state = record vm.state { work = w } }))
unfolding after_of
after_of-Resumes frame after vm (choice k) = (vm.state.work, rw k refl)
after_of-Resumes frame after vm (assertion k) = (vm.state.work, rw k refl)
after_of-Resumes frame after vm (negative k) = (vm.state.work, rw k refl)
after_of-Resumes frame after vm (retreat k) = (
  atom (record { minimum_end = frame.limit; needed = 0; remaining = 0; before = frame.position }),
  rw k refl,
)
after_of-Resumes frame after vm (extend k l) = (
  atom (record { minimum_end = 0; needed = 0; remaining = frame.limit; before = frame.position }),
  rw k rw (lt→ltb frame.limit 0x1_0000_0000 l) refl,
)
after_of-Resumes frame after vm (members k l) =
    (vm.state.work, rw k rw (lt→ltb frame.limit 0x1_0000_0000 l) refl)

abbrev popped_vm : Frame → ℕ → Vm → Vm
popped_vm frame n vm = record vm {
  cursor = record vm.cursor { offset = frame.position.offset; utf16_offset = frame.position.units };
  state = record vm.state {
    frames = n;
    pc = frame.pc;
    assertion = frame.assertion;
    reverse = frame.reverse;
  };
}

-- On a sound machine with a frame, on a budget that is not used up, `Phase::Fail` takes the last frame
-- off: place, direction and assertion are the frame's, one unit is paid, and undoing the journal to
-- the frame's mark gives back the register file that it saved, with the older ones behind it.
pub fail_phase-Failed :
    (target : List ℕ) (rest : List (List ℕ)) (frame : Frame) (after : AfterRollback) (vm : Vm)
    (n : ℕ)
    → IsSound vm
    → vm.state.frames ≡ suc n
    → get_elem? vm.frame_slots n ≡ some frame
    → snapshots vm ≡ target ∷ rest
    → Resumes frame after
    → 1 ≤ vm.budget.remaining
    → Failed target rest frame after vm (fail_phase vm)
unfolding fail_phase restore resumed View.restore mark
fail_phase-Failed target rest frame after vm n s f q e r m =
    let z : (vm.state.frames == 0) ≡ false = ground arith in
    let y : vm.state.frames - 1 ≡ n = omega arith in
    let (w, h) = after_of-Resumes frame after (popped_vm frame n (spent 1 vm)) r in
    rw (z, charge-spent 1 vm m, y, q, h)
      (unwinds _ (taken target rest frame vm _ n s f q e refl refl refl refl refl) refl refl refl
        refl refl (omega arith))
