-- ===== src/Compiler/Monad.antt =====
-- The errors of src/compiler.rs, and what an operation of the compiler gives: a value or an error, and
-- the state that it leaves.
pub mod Spending
pub mod Settling
use perex.Base.{ℕ, ◌+◌, Bool, true, false, Option, Run, ret, panic, stuck}
use perex.Base
use perex.Budget
use perex.Budget.{Budget}

pub data CompileError : Type 0 where
  syntax : ℕ → CompileError
  unsupported : ℕ → CompileError
  nodes : CompileError
  ranges : CompileError
  program_storage : ℕ → CompileError
  work_limit : CompileError
  size_limit : CompileError
  nesting_limit : CompileError
  invalid_program : CompileError

pub data Result {ℓ} (A : Type ℓ) : Type ℓ where
  ok : A → Result A
  fails : CompileError → Result A

abbrev pub M : Type 0 → Type 0 → Type 0
M S A = S → Run (Result A × S)

abbrev pub chained : {S A B : Type 0} → (A → M S B) → Result A × S → Run (Result B × S)
chained f (ok a, s) = f a s
chained f (fails e, s) = ret (fails e, s)

infixl 5 ◌>>=◌
abbrev pub ◌>>=◌ : {S A B : Type 0} → M S A → (A → M S B) → M S B
◌>>=◌ m f s = Base.◌>>=◌ (m s) (chained f)

infixr 4 ◌>>◌
abbrev pub ◌>>◌ : {S B : Type 0} → M S (Unit {0}) → M S B → M S B
m >> k = m >>= (λ u. k)

abbrev pub pure : {S A : Type 0} → A → M S A
pure a s = ret (ok a, s)

abbrev pub throw : {S A : Type 0} → CompileError → M S A
throw e s = ret (fails e, s)

-- What depends on the state, and what changes it.
abbrev pub with_state : {S A : Type 0} → (S → M S A) → M S A
with_state f s = f s s

abbrev pub modify : {S : Type 0} → (S → S) → M S (Unit {0})
modify f s = ret (ok tt, f s)

-- A computation that does not touch the state and may panic.
abbrev pub lift : {S A : Type 0} → Run A → M S A
lift run s = Base.◌>>=◌ run (λ a. ret (ok a, s))

-- What a charge of the budget gives, where `keep` puts the budget back.
abbrev pub paid : {S : Type 0} → (Budget → S) → Budget × Bool → Result (Unit {0}) × S
paid keep (b, true) = (ok tt, keep b)
paid keep (b, false) = (fails work_limit, keep b)
