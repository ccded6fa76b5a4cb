-- ===== src/Executor/Store/Laws.antt =====
-- What `charge` of src/executor.rs does where the budget covers the work, and where it does not.
use perex.Base.{ℕ, ◌-◌, ◌≤◌, ◌<◌, ◌≡◌, refl, le→leb, lt→leb, ret}
use perex.Budget
use perex.Executor.State.{work_limit}
use perex.Executor.Machine.{Vm}
use perex.Executor.Monad.{ok, fails}
use perex.Executor.Store.{charge}

-- The machine with `n` units less, and with none.
abbrev pub spent : ℕ → Vm → Vm
spent n vm = record vm { budget = record { remaining = vm.budget.remaining - n } }

abbrev pub exhausted : Vm → Vm
exhausted vm = record vm { budget = record { remaining = 0 } }

pub charge-spent :
    (n : ℕ) (vm : Vm) → n ≤ vm.budget.remaining → charge n vm ≡ ret (ok tt, spent n vm)
unfolding charge Budget.charge
charge-spent n vm h = rw (le→leb n vm.budget.remaining h) refl

pub charge-exhausted :
    (n : ℕ) (vm : Vm) → vm.budget.remaining < n → charge n vm ≡ ret (fails work_limit, exhausted vm)
unfolding charge Budget.charge
charge-exhausted n vm h = rw (lt→leb n vm.budget.remaining h) refl
