-- ===== src/Executor/Undoing/Snapshots.antt =====
-- The operations of src/executor.rs on frames and journal, as operations on a stack of register files.
use perex.Base.{
  ℕ, suc, ◌+◌, ◌-◌, ◌==◌, ltb, ◌<◌, ◌≡◌, refl, sym, ap, ◌∙◌, arith, List, ◌∷◌, some, true, false,
}
use perex.Base.{
  length, get_elem?, set, set-same, length-set, get_elem?-set, get_elem?-lt, Option-cases,
  Bool-cases, inl, inr, Run, ret,
}
use perex.Input.View.{Mark}
use perex.Executor.State.{Frame, Undo, ExecError, undo, frames, invalid_program}
use perex.Executor.Machine.{Vm}
use perex.Executor.Monad.{Result, ok, fails}
use perex.Executor.Store.{store, push_at}
use perex.Executor.Undoing.Journal.{
  saved, IsJournal, IsStack, saved-set_frame, saved-store, IsStack-set, IsStack-le, IsJournal-set,
}

-- The register files that the machine's frames give back, the last one first.
abbrev pub snapshots : Vm → List (List ℕ)
snapshots vm = saved vm.frame_slots vm.undo_slots vm.registers vm.state.undo vm.state.frames

-- Frames and journal belong together.
pub record IsSound (vm : Vm) : Type 0 where
  pub journal : IsJournal vm.undo_slots (length vm.registers) vm.state.undo
  pub stack : IsStack vm.frame_slots vm.state.undo vm.state.frames

-- What a write leaves.
pub record Written (slot value : ℕ) (vm after : Vm) : Type 0 where
  pub sound : IsSound after
  pub registers : after.registers ≡ set vm.registers slot value
  pub kept : snapshots after ≡ snapshots vm

-- A store is a write, or it is refused and has changed nothing.
pub data Stored (slot value : ℕ) (vm : Vm) : Run (Result (Unit {0}) × Vm) → Type 0 where
  refused : (e : ExecError) → Stored slot value vm (ret (fails e, vm))
  written : (after : Vm) → Written slot value vm after → Stored slot value vm (ret (ok tt, after))

abbrev pub logged : ℕ → ℕ → ℕ → Vm → Vm
logged slot old value vm = record vm {
  registers = set vm.registers slot value;
  undo_slots = set vm.undo_slots vm.state.undo (record { slot = slot; value = old });
  state = record vm.state { undo = vm.state.undo + 1 };
}

-- How a store ends.
pub data Ends (slot value : ℕ) (vm : Vm) (end : Run (Result (Unit {0}) × Vm)) : Type 0 where
  turned_down : (e : ExecError) → end ≡ ret (fails e, vm) → Ends slot value vm end
  same : get_elem? vm.registers slot ≡ some value → end ≡ ret (ok tt, vm) → Ends slot value vm end
  plain :
      vm.state.frames ≡ 0
      → end ≡ ret (ok tt, record vm { registers = set vm.registers slot value })
      → Ends slot value vm end
  noted :
      (old : ℕ)
      → get_elem? vm.registers slot ≡ some old
      → vm.state.undo < length vm.undo_slots
      → end ≡ ret (ok tt, logged slot old value vm)
      → Ends slot value vm end

noted-Ends :
    (slot value old : ℕ) (vm : Vm)
    → get_elem? vm.registers slot ≡ some old
    → (old == value) ≡ false
    → ltb 0 vm.state.frames ≡ true
    → Ends slot value vm (store slot value vm)
unfolding store
noted-Ends slot value old vm q n f = elim (Option-cases (get_elem? vm.undo_slots vm.state.undo)) [
  | inl d ↦ turned_down undo (rw (q, n, f, d) refl)
  | inr (free, d) ↦ noted old q (get_elem?-lt vm.undo_slots vm.state.undo d) (rw (q, n, f, d) refl)
]

pub store-Ends : (slot value : ℕ) (vm : Vm) → Ends slot value vm (store slot value vm)
unfolding store
store-Ends slot value vm = elim (Option-cases (get_elem? vm.registers slot)) [
  | inl q ↦ turned_down invalid_program (rw q refl)
  | inr (old, q) ↦ elim (Bool-cases (old == value)) [
    | inl n ↦ same (q ∙ ap some (ground arith)) (rw (q, n) refl)
    | inr n ↦ elim (Bool-cases (ltb 0 vm.state.frames)) [
      | inl f ↦ noted-Ends slot value old vm q n f
      | inr f ↦ plain (ground arith) (rw (q, n, f) refl)
    ]
  ]
]

same-Written :
    (slot value : ℕ) (vm : Vm)
    → IsSound vm
    → get_elem? vm.registers slot ≡ some value
    → Written slot value vm vm
same-Written slot value vm s q = record {
  sound = s;
  registers = sym (set-same vm.registers slot value q);
  kept = refl;
}

plain-Written :
    (slot value : ℕ) (vm : Vm)
    → IsSound vm
    → vm.state.frames ≡ 0
    → Written slot value vm (record vm { registers = set vm.registers slot value })
plain-Written slot value vm s f = record {
  sound = record { journal = rw (length-set vm.registers slot value) s.journal; stack = s.stack };
  registers = refl;
  kept = rw f refl;
}

logged-Written :
    (slot value old : ℕ) (vm : Vm)
    → IsSound vm
    → get_elem? vm.registers slot ≡ some old
    → vm.state.undo < length vm.undo_slots
    → Written slot value vm (logged slot old value vm)
logged-Written slot value old vm s q h =
    let e : Undo = record { slot = slot; value = old } in
    let k : vm.state.undo + 1 ≡ suc vm.state.undo = omega arith in
    record {
      sound = record {
        journal = rw k rw (length-set vm.registers slot value) (
            IsJournal-set vm.undo_slots (length vm.registers) vm.state.undo e h
              (get_elem?-lt vm.registers slot q) s.journal);
        stack =
            IsStack-le vm.frame_slots vm.state.undo (vm.state.undo + 1) vm.state.frames
              (omega arith) s.stack;
      };
      registers = refl;
      kept = rw k (
          saved-store vm.frame_slots vm.undo_slots vm.registers vm.state.undo vm.state.frames slot
            old value s.stack h q);
    }

Ends-Stored :
    (slot value : ℕ) (vm : Vm) (end : Run (Result (Unit {0}) × Vm))
    → IsSound vm
    → Ends slot value vm end
    → Stored slot value vm end
Ends-Stored slot value vm end s (turned_down e h) = rw h (refused e)
Ends-Stored slot value vm end s (same q h) = rw h (written vm (same-Written slot value vm s q))
Ends-Stored slot value vm end s (plain f h) = rw h (written _ (plain-Written slot value vm s f))
Ends-Stored slot value vm end s (noted old q l h) =
    rw h (written _ (logged-Written slot value old vm s q l))

-- On a machine whose frames and journal belong together, `store` either writes the register and
-- leaves what every frame gives back as it was, or reports an error and has changed nothing.
pub store-Stored :
    (slot value : ℕ) (vm : Vm) → IsSound vm → Stored slot value vm (store slot value vm)
store-Stored slot value vm s =
    Ends-Stored slot value vm (store slot value vm) s (store-Ends slot value vm)

pub record Pushed (pc kind : ℕ) (position : Mark) (limit : ℕ) (vm after : Vm) : Type 0 where
  pub sound : IsSound after
  pub registers : after.registers ≡ vm.registers
  pub saves : snapshots after ≡ vm.registers ∷ snapshots vm
  pub top :
      get_elem? after.frame_slots vm.state.frames
      ≡ some (record {
        pc = pc;
        position = position;
        undo = vm.state.undo;
        assertion = vm.state.assertion;
        limit = limit;
        kind = kind;
        reverse = vm.state.reverse;
      })
  pub count : after.state.frames ≡ suc vm.state.frames

pub data Saves (pc kind : ℕ) (position : Mark) (limit : ℕ) (vm : Vm)
    : Run (Result (Unit {0}) × Vm) → Type 0 where
  refused : (e : ExecError) → Saves pc kind position limit vm (ret (fails e, vm))
  pushed :
      (after : Vm)
      → Pushed pc kind position limit vm after
      → Saves pc kind position limit vm (ret (ok tt, after))

abbrev frame_of : ℕ → ℕ → Mark → ℕ → Vm → Frame
frame_of pc kind position limit vm = record {
  pc = pc;
  position = position;
  undo = vm.state.undo;
  assertion = vm.state.assertion;
  limit = limit;
  kind = kind;
  reverse = vm.state.reverse;
}

abbrev framed : ℕ → ℕ → Mark → ℕ → Vm → Vm
framed pc kind position limit vm = record vm {
  frame_slots = set vm.frame_slots vm.state.frames (frame_of pc kind position limit vm);
  state = record vm.state { frames = vm.state.frames + 1 };
}

framed-Pushed :
    (pc kind : ℕ) (position : Mark) (limit : ℕ) (vm : Vm)
    → IsSound vm
    → vm.state.frames < length vm.frame_slots
    → Pushed pc kind position limit vm (framed pc kind position limit vm)
framed-Pushed pc kind position limit vm s h =
    let f : Frame = frame_of pc kind position limit vm in
    let k : vm.state.frames + 1 ≡ suc vm.state.frames = omega arith in
    let q : get_elem? (set vm.frame_slots vm.state.frames f) vm.state.frames ≡ some f =
      get_elem?-set vm.frame_slots vm.state.frames f h in
    let z : vm.state.undo - vm.state.undo ≡ 0 = omega arith in
    record {
      sound = record {
        journal = s.journal;
        stack = rw k (
          f,
          q,
          omega arith,
          IsStack-set vm.frame_slots vm.state.undo vm.state.frames vm.state.frames f (omega arith)
              s.stack,
        );
      };
      registers = refl;
      saves =
          rw k rw (q, saved) rw z
            (ap (λ ws. vm.registers ∷ ws)
              (saved-set_frame vm.frame_slots vm.undo_slots vm.registers vm.state.undo
                vm.state.frames vm.state.frames f (omega arith)));
      top = q;
      count = k;
    }

-- On a machine whose frames and journal belong together, `push_at` either puts the registers on top of
-- what the frames give back, or reports an error and has changed nothing.
pub push_at-Saves :
    (pc kind : ℕ) (position : Mark) (limit : ℕ) (vm : Vm)
    → IsSound vm
    → Saves pc kind position limit vm (push_at pc kind position limit vm)
unfolding push_at
push_at-Saves pc kind position limit vm s = elim (Bool-cases (ltb pc 0x1_0000_0000)) [
  | inl p ↦ elim (Option-cases (get_elem? vm.frame_slots vm.state.frames)) [
    | inl d ↦ rw (p, d) (refused frames)
    | inr (free, d) ↦
        rw (p, d)
          (pushed _ (
            framed-Pushed pc kind position limit vm s
              (get_elem?-lt vm.frame_slots vm.state.frames d)))
  ]
  | inr p ↦ rw p (refused invalid_program)
]
