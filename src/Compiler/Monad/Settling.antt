-- ===== src/Compiler/Monad/Settling.antt =====
-- Operations that come to an end where their fuel is more than the budget: they never run out of it, and
-- each pays some units at least.
use perex.Base.{
  ℕ, zero, suc, ◌+◌, ◌≤◌, ◌<◌, ◌≡◌, ◌≢◌, refl, arith, Bool, true, false, if◌then◌else◌, Run, ret,
  panic, stuck, Option, none, some, or_panic,
}
use perex.Base
use perex.Compiler.Monad.{
  CompileError, Result, ok, fails, M, ◌>>=◌, chained, pure, throw, lift, modify, with_state,
}

-- A run that ends.
pub data Firm {A : Type 0} : Run A → Type 0 where
  returns : (a : A) → Firm (ret a)
  panics : Firm panic

pub Firm-bind :
    {A B : Type 0} {r : Run A} {f : A → Run B}
    → Firm r
    → ((a : A) → Firm (f a))
    → Firm (Base.◌>>=◌ r f)
Firm-bind (returns a) g = g a
Firm-bind panics g = panics

pub or_panic-Firm : {A : Type 0} (o : Option A) → Firm (or_panic o)
or_panic-Firm none = panics
or_panic-Firm (some a) = returns a

pub Firm-if : {A : Type 0} (b : Bool) {x y : Run A} → Firm x → Firm y → Firm (if b then x else y)
Firm-if true p q = p
Firm-if false p q = q

-- What is not the model's own end ends.
pub ends-Firm : {A : Type 0} (r : Run A) → r ≢ stuck → Firm r
ends-Firm (ret a) h = returns a
ends-Firm panic h = panics
ends-Firm stuck h = absurd (h refl)

module _ {S : Type 0} (left : S → ℕ) where
  -- The run from `s` ends, and where it ends well it has paid `k` units.
  pub data Ending {A : Type 0} (k : ℕ) (s : S) : Run (Result A × S) → Type 0 where
    done : (a : A) (t : S) → left t + k ≤ left s → Ending k s (ret (ok a, t))
    failed : (e : CompileError) (t : S) → Ending k s (ret (fails e, t))
    panicked : Ending k s panic

  -- On fewer than `n` units.
  pub record Settles {A : Type 0} (k n : ℕ) (m : M S A) : Type 0 where
    pub at : (s : S) → left s < n → Ending k s (m s)

module _ {S : Type 0} {left : S → ℕ} {A : Type 0} where
  pub Ending-weaker :
      (k j : ℕ) (s t : S) {r : Run (Result A × S)}
      → left t + j ≤ left s + k
      → Ending left k t r
      → Ending left j s r
  Ending-weaker k j s t h (done a u l) = done a u (omega arith)
  Ending-weaker k j s t h (failed e u) = failed e u
  Ending-weaker k j s t h panicked = panicked

  pub pure-Settles : {n : ℕ} (a : A) → Settles left 0 n (pure a)
  pure-Settles a = record { at = λ s l. done a s (omega arith) }

  pub throw-Settles : {k n : ℕ} (e : CompileError) → Settles left k n (throw {A = A} e)
  throw-Settles e = record { at = λ s l. failed e s }

  pub lift-Settles : {n : ℕ} (r : Run A) → Firm r → Settles left 0 n (lift r)
  lift-Settles r f = record { at = λ s l. lifted f s }
    where
      lifted : {r : Run A} → Firm r → (s : S) → Ending left 0 s (lift r s)
      lifted (returns a) s = done a s (omega arith)
      lifted panics s = panicked

  pub if-Settles :
      {k n : ℕ} (b : Bool) (x y : M S A)
      → Settles left k n x
      → Settles left k n y
      → Settles left k n (if b then x else y)
  if-Settles true x y p q = p
  if-Settles false x y p q = q

  pub with_state-Settles :
      {k n : ℕ} (f : S → M S A)
      → ((q : S) → Settles left k n (f q))
      → Settles left k n (with_state f)
  with_state-Settles f g = record { at = λ s l. (g s).at s l }

  pub stuck-Settles : {k : ℕ} (m : M S A) → Settles left k 0 m
  stuck-Settles m = record { at = λ s l. absurd (omega arith) }

  pub Ending-if :
      {k : ℕ} {s : S} (b : Bool) {x y : Run (Result A × S)}
      → Ending left k s x
      → Ending left k s y
      → Ending left k s (if b then x else y)
  Ending-if true p q = p
  Ending-if false p q = q

module _ {S : Type 0} {left : S → ℕ} {A B : Type 0} where
  chained-Ending :
      (j k n i : ℕ) (s : S) {r : Run (Result A × S)} {f : A → M S B}
      → i ≤ j + k
      → left s < n + j
      → Ending left j s r
      → ((a : A) → Settles left k n (f a))
      → Ending left i s (Base.◌>>=◌ r (chained f))
  chained-Ending j k n i s h l (done a t p) g =
      Ending-weaker k i s t (omega arith) ((g a).at t (omega arith))
  chained-Ending j k n i s h l (failed e t) g = failed e t
  chained-Ending j k n i s h l panicked g = panicked

  -- After what pays nothing; what pays a unit, towards the result or of the fuel.
  pub seq-Settles :
      {k n : ℕ} (m : M S A) (f : A → M S B)
      → Settles left 0 n m
      → ((a : A) → Settles left k n (f a))
      → Settles left k n (m >>= f)
  seq-Settles {k} {n} m f p g = record {
    at = λ s l. chained-Ending 0 k n k s (omega arith) (omega arith) (p.at s l) g;
  }

  pub pay-Settles :
      {n : ℕ} (m : M S A) (f : A → M S B)
      → Settles left 1 n m
      → ((a : A) → Settles left 0 n (f a))
      → Settles left 1 n (m >>= f)
  pay-Settles {n} m f p g = record {
    at = λ s l. chained-Ending 1 0 n 1 s (omega arith) (omega arith) (p.at s l) g;
  }

  pub burn-Settles :
      {n : ℕ} (m : M S A) (f : A → M S B)
      → Settles left 1 (suc n) m
      → ((a : A) → Settles left 0 n (f a))
      → Settles left 0 (suc n) (m >>= f)
  burn-Settles {n} m f p g = record {
    at = λ s l. chained-Ending 1 0 n 0 s (omega arith) (omega arith) (p.at s l) g;
  }

  pub spend-Settles :
      {n : ℕ} (m : M S A) (f : A → M S B)
      → Settles left 1 (suc n) m
      → ((a : A) → Settles left 0 n (f a))
      → Settles left 1 (suc n) (m >>= f)
  spend-Settles {n} m f p g = record {
    at = λ s l. chained-Ending 1 0 n 1 s (omega arith) (omega arith) (p.at s l) g;
  }

module _ {S : Type 0} {left : S → ℕ} where
  pub fewer-Settles :
      {A : Type 0} {k n j : ℕ} (m : M S A) → j ≤ n → Settles left k n m → Settles left k j m
  fewer-Settles m h e = record { at = λ s l. e.at s (omega arith) }

  pub modify-Settles :
      {n : ℕ} (f : S → S) → ((s : S) → left (f s) ≡ left s) → Settles left 0 n (modify f)
  modify-Settles f e = record { at = λ s l. done tt (f s) (omega (arith, e s)) }

  pub weaken-Settles : {A : Type 0} {n : ℕ} (m : M S A) → Settles left 1 n m → Settles left 0 n m
  weaken-Settles m h = record { at = λ s l. Ending-weaker 1 0 s s (omega arith) (h.at s l) }

pub ruleset settling = (
  pure-Settles, throw-Settles, if-Settles, with_state-Settles, seq-Settles, lift-Settles,
  modify-Settles, or_panic-Firm, Firm-bind, returns,
)
