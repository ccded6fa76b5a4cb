-- ===== src/Budget.antt =====
-- `Budget` of src/lib.rs: the work allowance of a whole compile or search.
pub mod Sequence
use perex.Base.{ℕ, ◌-◌, Bool, true, false, leb, if◌then◌else◌}

pub record Budget : Type 0 where
  pub remaining : ℕ

unfoldable pub new : ℕ → Budget
new work = record { remaining = work }

-- `true` stands for `Ok(())`, `false` for `Err(())`; a refused charge empties the allowance.
unfoldable pub charge : Budget → ℕ → Budget × Bool
charge b work =
    if leb work b.remaining
    then (record { remaining = b.remaining - work }, true)
    else (record { remaining = 0 }, false)
