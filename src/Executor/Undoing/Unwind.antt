-- ===== src/Executor/Undoing/Unwind.antt =====
-- Taking the last frame and undoing the journal, as popping the stack of register files.
use perex.Base.{
  ℕ, zero, suc, ◌+◌, ◌-◌, ◌==◌, ltb, min, max, ◌≤◌, ◌<◌, ◌≡◌, refl, sym, ap, ◌∙◌, arith, List, [],
  Option, none, some, false, if◌then◌else◌,
}
use perex.Base.{
  length, get_elem?, set, length-set, Bool-cases, inl, inr, Run, ret, ltb→lt, lt→ltb, le→ltb,
}
use mathlib.Core.Option.{some-injective}
use perex.Executor.State.{
  Undo, AfterRollback, then_trial, then_fail, then_atom_retreat, then_atom_extend, then_sequence,
  Phase, trial, fail, atom_retreat, atom_extend,
}
use perex.Executor.Machine.{Vm}
use perex.Executor.Monad.{Result, ok}
use perex.Executor.Store.Laws.{spent, charge-spent}
use perex.Executor.Undoing.{undo_entries, rollback_phase, rolled_back, batch_of, undone}
use perex.Executor.Undoing.Journal.{rewind, saved, IsJournal, IsStack, length-rewind}
use perex.Executor.Undoing.Snapshots.{snapshots, IsSound}

-- The machine with its last `n` writes undone.
abbrev pub rewound : ℕ → Vm → Vm
rewound n vm = record vm {
  registers = rewind vm.undo_slots vm.registers vm.state.undo n;
  state = record vm.state { undo = vm.state.undo - n };
}

rewind-step :
    (j : List Undo) (rs : List ℕ) (u v n : ℕ) (old : Undo)
    → v ≡ suc u
    → get_elem? j u ≡ some old
    → rewind j (set rs old.slot old.value) u n ≡ rewind j rs v (suc n)
rewind-step j rs u v n old e q = rw e rw (q, rewind) refl

undo_entries-rewound :
    (n u : ℕ) (vm : Vm)
    → vm.state.undo ≡ u
    → n ≤ u
    → IsJournal vm.undo_slots (length vm.registers) u
    → undo_entries n vm ≡ ret (ok tt, rewound n vm)
unfolding undo_entries
undo_entries-rewound zero u vm e h j =
    let z : vm.state.undo - 0 ≡ vm.state.undo = omega arith in rw z refl
undo_entries-rewound (suc n) zero vm e h j = absurd (omega arith)
undo_entries-rewound (suc n) (suc u) vm e h j =
    let (old, q, l) = j u (omega arith) in
    let z : (vm.state.undo == 0) ≡ false = ground arith in
    let p : vm.state.undo - 1 ≡ u = omega arith in
    let m : u - n ≡ vm.state.undo - suc n = omega arith in
    let rest : undo_entries n (undone vm old) ≡ ret (ok tt, rewound n (undone vm old)) =
      undo_entries-rewound n u (undone vm old) p (omega arith)
        (λ i b. rw (length-set vm.registers old.slot old.value) (j i (omega arith))) in
    rw (z, p, q, lt→ltb old.slot (length vm.registers) l)
      (rest
        ∙ (rw p rw m rw (rewind-step vm.undo_slots vm.registers u vm.state.undo n old e q) refl))

pub rewind-add :
    (j : List Undo) (rs : List ℕ) (k u m n : ℕ)
    → IsJournal j k u
    → m + n ≤ u
    → rewind j rs u (m + n) ≡ rewind j (rewind j rs u m) (u - m) n
rewind-add j rs k u zero n s h =
    let a : zero + n ≡ n = omega arith in let b : u - zero ≡ u = omega arith in rw a rw b refl
rewind-add j rs k zero (suc m) n s h = absurd (omega arith)
rewind-add j rs k (suc u) (suc m) n s h =
    let (old, q, l) = s u (omega arith) in
    let a : suc m + n ≡ suc (m + n) = omega arith in
    let b : suc u - suc m ≡ u - m = omega arith in
    rw a rw b rw (q, rewind)
      (rewind-add j (set rs old.slot old.value) k u m n (λ i d. s i (omega arith)) (omega arith))

-- The journal is being undone down to `until`, which gives the register file `target` back.
pub record Unwinding (target : List ℕ) (rest : List (List ℕ)) (until : ℕ) (vm : Vm) : Type 0 where
  pub bound : until ≤ vm.state.undo
  pub journal : IsJournal vm.undo_slots (length vm.registers) vm.state.undo
  pub stack : IsStack vm.frame_slots until vm.state.frames
  pub back : rewind vm.undo_slots vm.registers vm.state.undo (vm.state.undo - until) ≡ target
  pub others : saved vm.frame_slots vm.undo_slots target until vm.state.frames ≡ rest

Unwinding-rewound :
    (target : List ℕ) (rest : List (List ℕ)) (until n : ℕ) (vm : Vm)
    → Unwinding target rest until vm
    → until + n ≤ vm.state.undo
    → Unwinding target rest until (rewound n vm)
Unwinding-rewound target rest until n vm w h =
    let a : n + (vm.state.undo - n - until) ≡ vm.state.undo - until = omega arith in
    record {
      bound = omega arith;
      journal = λ i d.
          rw (length-rewind vm.undo_slots vm.registers vm.state.undo n) (w.journal i (omega arith));
      stack = w.stack;
      back =
          sym (
            rewind-add vm.undo_slots vm.registers (length vm.registers) vm.state.undo n
              (vm.state.undo - n - until) w.journal (omega arith))
          ∙ (rw a w.back);
      others = w.others;
    }

-- Where an unwound search goes on, for what needs no more than a phase.
abbrev pub phase_after : AfterRollback → Option Phase
phase_after then_trial = some trial
phase_after then_fail = some fail
phase_after then_atom_retreat = some atom_retreat
phase_after then_atom_extend = some atom_extend
phase_after (then_sequence n) = none

-- The frame's register file is back.
pub record Popped (target : List ℕ) (rest : List (List ℕ)) (p : Phase) (vm : Vm) : Type 0 where
  pub sound : IsSound vm
  pub registers : vm.registers ≡ target
  pub others : snapshots vm ≡ rest
  pub phase : vm.state.phase ≡ p

zeroed : Phase → Vm → Vm
zeroed p vm = record vm {
  state = record vm.state { undo = if vm.state.frames == 0 then 0 else vm.state.undo; phase = p };
}

zeroed-Popped :
    (target : List ℕ) (rest : List (List ℕ)) (until : ℕ) (p : Phase) (vm : Vm)
    → Unwinding target rest until vm
    → vm.state.undo ≡ until
    → Popped target rest p (zeroed p vm)
unfolding zeroed
zeroed-Popped target rest until p vm w e =
    let z : vm.state.undo - until ≡ 0 = omega arith in
    let back : vm.registers ≡ target = sym (rw z refl) ∙ w.back in
    elim (Bool-cases (vm.state.frames == 0)) [
      | inl f ↦
          let n : vm.state.frames ≡ 0 = ground arith in
          let o : saved vm.frame_slots vm.undo_slots target until vm.state.frames ≡ [] =
            rw n refl in
          record {
            sound = rw f (record { journal = λ i d. absurd (omega arith); stack = rw n tt });
            registers = back;
            others = rw n (sym o ∙ w.others);
            phase = refl;
          }
      | inr f ↦ record {
        sound = rw f (record { journal = w.journal; stack = rw e w.stack });
        registers = back;
        others = rw f rw e rw back w.others;
        phase = refl;
      }
    ]

rolled_back-zeroed :
    (until : ℕ) (after : AfterRollback) (p : Phase) (vm : Vm)
    → phase_after after ≡ some p
    → vm.state.undo ≡ until
    → rolled_back until after vm ≡ ret (ok tt, zeroed p vm)
unfolding rolled_back zeroed
rolled_back-zeroed until then_trial p vm h e =
    rw (le→ltb until vm.state.undo (omega arith), le→ltb vm.state.undo until (omega arith))
      (ap (λ q. ret (ok tt, zeroed q vm)) (some-injective trial p h))
rolled_back-zeroed until then_fail p vm h e =
    rw (le→ltb until vm.state.undo (omega arith), le→ltb vm.state.undo until (omega arith))
      (ap (λ q. ret (ok tt, zeroed q vm)) (some-injective fail p h))
rolled_back-zeroed until then_atom_retreat p vm h e =
    rw (le→ltb until vm.state.undo (omega arith), le→ltb vm.state.undo until (omega arith))
      (ap (λ q. ret (ok tt, zeroed q vm)) (some-injective atom_retreat p h))
rolled_back-zeroed until then_atom_extend p vm h e =
    rw (le→ltb until vm.state.undo (omega arith), le→ltb vm.state.undo until (omega arith))
      (ap (λ q. ret (ok tt, zeroed q vm)) (some-injective atom_extend p h))
rolled_back-zeroed until (then_sequence n) p vm h e = cc

-- How a round of unwinding ends: it goes on with fewer entries, each paid for once, or the frame's
-- register file is back.
pub data Unwound (target : List ℕ) (rest : List (List ℕ)) (until : ℕ) (p : Phase) (vm : Vm)
    : Run (Result (Unit {0}) × Vm) → Type 0 where
  going :
      (after : Vm)
      → Unwinding target rest until after
      → after.state.phase ≡ vm.state.phase
      → after.state.undo < vm.state.undo
      → vm.state.undo + after.budget.remaining ≡ after.state.undo + vm.budget.remaining
      → Unwound target rest until p vm (ret (ok tt, after))
  popped :
      (after : Vm)
      → Popped target rest p after
      → vm.budget.remaining ≡ (vm.state.undo - until) + after.budget.remaining
      → Unwound target rest until p vm (ret (ok tt, after))

rolled_back-going :
    (until : ℕ) (after : AfterRollback) (vm : Vm)
    → until < vm.state.undo
    → rolled_back until after vm ≡ ret (ok tt, vm)
unfolding rolled_back
rolled_back-going until after vm h = rw (lt→ltb until vm.state.undo h) refl

rolled_back-Unwound :
    (target : List ℕ) (rest : List (List ℕ)) (until n : ℕ) (after : AfterRollback) (p : Phase)
    (vm : Vm)
    → Unwinding target rest until vm
    → phase_after after ≡ some p
    → 1 ≤ n
    → until + n ≤ vm.state.undo
    → n ≤ vm.budget.remaining
    → Unwound target rest until p vm (rolled_back until after (rewound n (spent n vm)))
unfolding zeroed
rolled_back-Unwound target rest until n after p vm w h b l m =
    let vm2 : Vm = rewound n (spent n vm) in
    let w2 : Unwinding target rest until vm2 =
      Unwinding-rewound target rest until n (spent n vm)
        (record {
          bound = w.bound;
          journal = w.journal;
          stack = w.stack;
          back = w.back;
          others = w.others;
        })
        l in
    elim (Bool-cases (ltb until (vm.state.undo - n))) [
      | inl t ↦
          rw (rolled_back-going until after vm2 (ltb→lt until (vm.state.undo - n) t))
            (going vm2 w2 refl (omega arith) (omega arith))
      | inr t ↦
          let e : vm.state.undo - n ≡ until = ground arith in
          rw (rolled_back-zeroed until after p vm2 h e)
            (popped _ (zeroed-Popped target rest until p vm2 w2 e) (omega arith))
    ]

batch-bounds :
    (d a r : ℕ)
    → 1 ≤ d
    → 1 ≤ r
    → (1 ≤ max (min (min d (max a 1)) r) 1)
      × (max (min (min d (max a 1)) r) 1 ≤ d)
      × (max (min (min d (max a 1)) r) 1 ≤ r)
batch-bounds d a r h k = (omega arith, omega arith, omega arith)

-- A round of unwinding on a budget that is not used up, whatever the quantum leaves: it ends without an
-- error, with the register file that the frame saved and the older frames' files behind it, or with
-- fewer entries to undo; each entry that is undone costs one unit.
pub rollback_phase-Unwound :
    (target : List ℕ) (rest : List (List ℕ)) (until available : ℕ) (after : AfterRollback)
    (p : Phase) (vm : Vm)
    → Unwinding target rest until vm
    → phase_after after ≡ some p
    → 1 ≤ vm.budget.remaining
    → Unwound target rest until p vm (rollback_phase until after available vm)
unfolding rollback_phase zeroed
rollback_phase-Unwound target rest until available after p vm w h m =
    elim (Bool-cases (ltb until vm.state.undo)) [
      | inl t ↦
          let c : ℕ = batch_of vm until available in
          let (lo, hi, le) =
            batch-bounds (vm.state.undo - until) available vm.budget.remaining (ground arith) m in
          rw
            (
              t,
              charge-spent c vm le,
              undo_entries-rewound c vm.state.undo (spent c vm) refl (omega arith) w.journal,
            )
            (rolled_back-Unwound target rest until c after p vm w h lo (ground arith) le)
      | inr t ↦
          let e : vm.state.undo ≡ until = let b : until ≤ vm.state.undo = w.bound in ground arith in
          rw (t, rolled_back-zeroed until after p vm h e)
            (popped _ (zeroed-Popped target rest until p vm w e) (omega arith))
    ]
