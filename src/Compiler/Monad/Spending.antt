-- ===== src/Compiler/Monad/Spending.antt =====
-- Operations that end on a budget: within so many units they end well, and what they leave satisfies a
-- relation; otherwise the budget was smaller, and they end with `WorkLimit`.
use perex.Base.{ℕ, ◌+◌, ◌-◌, ◌≤◌, ◌<◌, ◌≡◌, arith, Run, ret}
use perex.Base
use perex.Compiler.Monad.{Result, ok, fails, work_limit, M, chained}

module _ {S : Type 0} (left : S → ℕ) where
  pub data Ends {A : Type 0} (n : ℕ) (s : S) (P : A → S → Type 0)
      : Run (Result A × S) → Type 0 where
    ends : (a : A) (t : S) → P a t → left s ≤ left t + n → Ends n s P (ret (ok a, t))
    short : (t : S) → left s < n → Ends n s P (ret (fails work_limit, t))

module _ {S : Type 0} {left : S → ℕ} where
  pub Ends-later :
      {A : Type 0} (n k : ℕ) {m : ℕ} {s t : S} {P : A → S → Type 0} {r : Run (Result A × S)}
      → n + k ≤ m
      → left s ≤ left t + n
      → Ends left k t P r
      → Ends left m s P r
  Ends-later n k h l (ends a u p d) = ends a u p (omega arith)
  Ends-later n k h l (short u d) = short u (omega arith)

  pub Ends-bind :
      {A B : Type 0} (n k : ℕ) {m : ℕ} {s : S} {P : A → S → Type 0} {Q : B → S → Type 0}
      {r : Run (Result A × S)} {f : A → M S B}
      → n + k ≤ m
      → Ends left n s P r
      → ((a : A) (t : S) → P a t → Ends left k t Q (f a t))
      → Ends left m s Q (Base.◌>>=◌ r (chained f))
  Ends-bind n k h (ends a t p l) g = Ends-later n k h l (g a t p)
  Ends-bind n k h (short t l) g = short t (omega arith)

  pub Ends-map :
      {A : Type 0} {n k : ℕ} {s t : S} {P Q : A → S → Type 0} {r : Run (Result A × S)}
      → left s + n ≤ left t + k
      → Ends left n t P r
      → ((a : A) (u : S) → P a u → Q a u)
      → Ends left k s Q r
  Ends-map h (ends a u p l) g = ends a u (g a u p) (omega arith)
  Ends-map h (short u l) g = short u (omega arith)
