-- ===== src/Base/Panics.antt =====
-- The outcome of code that may panic: an index or a slice out of range, an overflow, an `unwrap`.
-- `stuck` belongs to the model: a loop ran out of its fuel.
use mathlib.Core.Path.{◌≡◌, refl}
use mathlib.Core.Logic.{◌≢◌, ◌⊎◌, inl, inr}
use mathlib.Core.Option.{Option, none, some}

pub data Run {ℓ} (A : Type ℓ) : Type ℓ where
  ret : A → Run A
  panic : Run A
  stuck : Run A

infixl 5 ◌>>=◌
abbrev pub ◌>>=◌ {ℓ κ} : {A : Type ℓ} {B : Type κ} → Run A → (A → Run B) → Run B
ret a >>= f = f a
panic >>= f = panic
stuck >>= f = stuck

-- What indexing gives: the element, or a panic where there is none.
abbrev pub or_panic {ℓ} : {A : Type ℓ} → Option A → Run A
or_panic (some a) = ret a
or_panic none = panic

pub >>=-eq-ret {ℓ κ} :
    {A : Type ℓ} {B : Type κ} (m : Run A) (f : A → Run B) {b : B}
    → (m >>= f) ≡ ret b
    → (a : A) × (m ≡ ret a) × (f a ≡ ret b)
>>=-eq-ret (ret a) f h = (a, refl, h)
>>=-eq-ret panic f h = cc
>>=-eq-ret stuck f h = cc

-- A chain of runs that end ends.
pub >>=-ends {ℓ κ} :
    {A : Type ℓ} {B : Type κ} (m : Run A) (f : A → Run B)
    → m ≢ stuck
    → ((a : A) → f a ≢ stuck)
    → (m >>= f) ≢ stuck
>>=-ends (ret a) f h g = g a
>>=-ends panic f h g = λ e. cc
>>=-ends stuck f h g = absurd (h refl)

pub Run-cases {ℓ} : {A : Type ℓ} (r : Run A) → ((a : A) × (r ≡ ret a)) ⊎ ((r ≡ panic) ⊎ (r ≡ stuck))
Run-cases (ret a) = inl (a, refl)
Run-cases panic = inr (inl refl)
Run-cases stuck = inr (inr refl)
