-- ===== src/Executor/Literals/Charges.antt =====
-- What the loop of src/executor/literals.rs pays for.
use perex.Base.{ℕ, zero, suc, ◌+◌, ◌-◌, ◌==◌, ◌≤◌, ◌<◌, ◌≡◌, refl, arith, Bool, ◌&&◌, ◌||◌, List}
use perex.Base.{get_elem?, Run, ret, Bool-cases, Option-cases, inl, inr}
use perex.Program.{char_op, save_op}
use perex.Executor.Machine.{Vm}
use perex.Executor.Monad.{Result, ok, fails, M}
use perex.Executor.Store.{store}
use perex.Executor.Undoing.Snapshots.{Ends, turned_down, same, plain, noted, store-Ends}
use perex.Executor.Literals.{Ended, literal_loop, onward, stored, is_undo}

-- A unit for each instruction behind the first, and a character at most for each instruction, with
-- `extra` for the first.
pub data Charged (extra pc position remaining : ℕ) : Run (Result Ended × Vm) → Type 0 where
  charged :
      (e : Ended) (after : Vm)
      → pc ≤ e.pc
      → e.pc + e.remaining ≡ pc + remaining
      → position ≤ e.position
      → e.position + pc ≤ position + extra + e.pc
      → Charged extra pc position remaining (ret (ok e, after))

fetched :
    (pc position remaining : ℕ) (run : Run (Result Ended × Vm))
    → 1 ≤ remaining
    → Charged 1 (pc + 1) position (remaining - 1) run
    → Charged 0 pc position remaining run
fetched pc position remaining run h (charged e after a b c d) =
    charged e after (omega arith) (omega arith) c (omega arith)

compared :
    (pc position remaining : ℕ) (run : Run (Result Ended × Vm))
    → Charged 0 pc (position + 1) remaining run
    → Charged 1 pc position remaining run
compared pc position remaining run (charged e after a b c d) =
    charged e after a b (omega arith) (omega arith)

saved :
    (pc position remaining : ℕ) (run : Run (Result Ended × Vm))
    → Charged 0 pc position remaining run
    → Charged 1 pc position remaining run
saved pc position remaining run (charged e after a b c d) = charged e after a b c (omega arith)

onward-Charged :
    (next : ℕ → ℕ → ℕ → ℕ → M Ended) (pausable : Bool) (quantum_end position pc remaining : ℕ)
    (vm : Vm)
    → ((op operand : ℕ)
        → 1 ≤ remaining
        → Charged 1 (pc + 1) position (remaining - 1) (next op operand position (pc + 1) vm))
    → Charged 0 pc position remaining (onward next pausable quantum_end position pc remaining vm)
unfolding onward
onward-Charged next pausable quantum_end position pc remaining vm h =
    elim (Bool-cases (pausable && (remaining == quantum_end))) [
      | inl p ↦ rw p (charged _ vm (omega arith) refl (omega arith) (omega arith))
      | inr p ↦ elim (Option-cases (get_elem? vm.sections.instructions pc)) [
        | inl i ↦ rw (p, i) (charged _ vm (omega arith) refl (omega arith) (omega arith))
        | inr ((op, operand, b), i) ↦ elim (Bool-cases (op == char_op || op == save_op)) [
          | inr r ↦ rw (p, i, r) (charged _ vm (omega arith) refl (omega arith) (omega arith))
          | inl r ↦ elim (Bool-cases (remaining == 0)) [
            | inl z ↦ rw (p, i, r, z) (charged _ vm (omega arith) refl (omega arith) (omega arith))
            | inr z ↦
                rw (p, i, r, z)
                  (fetched pc position remaining _ (ground arith) (h op operand (ground arith)))
          ]
        ]
      ]
    ]

-- A store always returns.
returns :
    (slot value : ℕ) (vm : Vm) (run : Run (Result (Unit {0}) × Vm))
    → Ends slot value vm run
    → (r : Result (Unit {0})) × (after : Vm) × (run ≡ ret (r, after))
returns slot value vm run (turned_down e h) = (fails e, vm, h)
returns slot value vm run (same q h) = (ok tt, vm, h)
returns slot value vm run (plain q h) = (ok tt, _, h)
returns slot value vm run (noted old q l h) = (ok tt, _, h)

stored-Charged :
    (operand position pc remaining : ℕ) (next : M Ended) (r : Result (Unit {0})) (vm : Vm)
    → ((vm : Vm) → Charged 0 pc position remaining (next vm))
    → Charged 1 pc position remaining (stored operand position pc remaining next r vm)
unfolding stored
stored-Charged operand position pc remaining next (ok u) vm h =
    saved pc position remaining (next vm) (h vm)
stored-Charged operand position pc remaining next (fails e) vm h = elim (Bool-cases (is_undo e)) [
  | inl t ↦ rw t (charged _ _ (omega arith) refl (omega arith) (omega arith))
  | inr t ↦ rw t (charged _ _ (omega arith) refl (omega arith) (omega arith))
]

literal_loop-Charged :
    (fuel : ℕ) (pausable : Bool) (bytes : List ℕ) (quantum_end op operand position pc remaining : ℕ)
    (vm : Vm)
    → remaining < fuel
    → Charged 1 pc position remaining
        (literal_loop fuel pausable bytes quantum_end op operand position pc remaining vm)
unfolding literal_loop
literal_loop-Charged zero pausable bytes quantum_end op operand position pc remaining vm f =
    absurd (omega arith)
literal_loop-Charged (suc fuel) pausable bytes quantum_end op operand position pc remaining vm f =
    let next : ℕ → ℕ → ℕ → ℕ → M Ended = λ op operand position pc.
      literal_loop fuel pausable bytes quantum_end op operand position pc (remaining - 1) in
    elim (Bool-cases (op == char_op)) [
      | inl c ↦ elim (Option-cases (get_elem? bytes position)) [
        | inl g ↦ rw (c, g) (charged _ vm (omega arith) refl (omega arith) (omega arith))
        | inr (actual, g) ↦ elim (Bool-cases (actual == operand)) [
          | inr d ↦ rw (c, g, d) (charged _ vm (omega arith) refl (omega arith) (omega arith))
          | inl d ↦
              rw (c, g, d)
                (compared pc position remaining _ (
                  onward-Charged next pausable quantum_end (position + 1) pc remaining vm
                    (λ op operand h.
                      literal_loop-Charged fuel pausable bytes quantum_end op operand (position + 1)
                        (pc + 1) (remaining - 1) vm (omega arith))))
        ]
      ]
      | inr c ↦
          let (r, after, q) =
            returns operand position vm (store operand position vm)
              (store-Ends operand position vm) in
          rw (c, q)
            (stored-Charged operand position pc remaining
              (onward next pausable quantum_end position pc remaining) r after
              (λ vm.
                onward-Charged next pausable quantum_end position pc remaining vm (λ op operand h.
                  literal_loop-Charged fuel pausable bytes quantum_end op operand position (pc + 1)
                    (remaining - 1) vm (omega arith))))
    ]

-- The loop over adjacent characters and saves, on the fuel that its budget gives, ends: it has paid one
-- unit for each instruction that it went on to, and moved over at most one character for each
-- instruction that it executed.
literal_loop-Paid :
    (pausable : Bool) (bytes : List ℕ) (quantum_end op operand position pc remaining : ℕ) (vm : Vm)
    → Charged 1 pc position remaining (
        literal_loop (suc remaining) pausable bytes quantum_end op operand position pc remaining vm)
literal_loop-Paid pausable bytes quantum_end op operand position pc remaining vm =
    literal_loop-Charged (suc remaining) pausable bytes quantum_end op operand position pc remaining
      vm (omega arith)
