-- ===== src/Executor/Monad.antt =====
-- What an operation of the evaluator gives: a value or an error, and the machine that it leaves.
use perex.Base.{Run, ret, panic, stuck}
use perex.Base
use perex.Executor.State.{ExecError}
use perex.Executor.Machine.{Vm}

pub data Result {ℓ} (A : Type ℓ) : Type ℓ where
  ok : A → Result A
  fails : ExecError → Result A

abbrev pub M : Type 0 → Type 0
M A = Vm → Run (Result A × Vm)

abbrev pub chained : {A B : Type 0} → (A → M B) → Result A × Vm → Run (Result B × Vm)
chained f (ok a, vm) = f a vm
chained f (fails e, vm) = ret (fails e, vm)

infixl 5 ◌>>=◌ ◌>>◌
abbrev pub ◌>>=◌ : {A B : Type 0} → M A → (A → M B) → M B
◌>>=◌ m f vm = Base.◌>>=◌ (m vm) (chained f)

abbrev pub ◌>>◌ : {B : Type 0} → M (Unit {0}) → M B → M B
m >> k = m >>= (λ u. k)

abbrev pub pure : {A : Type 0} → A → M A
pure a vm = ret (ok a, vm)

abbrev pub throw : {A : Type 0} → ExecError → M A
throw e vm = ret (fails e, vm)

-- What depends on the machine, and what changes it.
abbrev pub with_vm : {A : Type 0} → (Vm → M A) → M A
with_vm f vm = f vm vm

abbrev pub modify : (Vm → Vm) → M (Unit {0})
modify f vm = ret (ok tt, f vm)

-- A computation that does not touch the machine and may panic.
abbrev pub lift : {A : Type 0} → Run A → M A
lift run vm = Base.◌>>=◌ run (λ a. ret (ok a, vm))
