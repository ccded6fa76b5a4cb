-- ===== src/Budget/Sequence.antt =====
-- Sequences of charges against one `Budget`.
use perex.Base.{ℕ, ◌+◌, ◌-◌, ◌≤◌, ◌<◌, ◌≡◌, ◌↔◌, Bool, true, false, List, [], ◌∷◌}
use perex.Base.{◌&&◌, arith}
use perex.Budget.{Budget, charge}

-- The charges of one operation, in order; `true` when every one of them was granted.
abbrev pub charge_all : Budget → List ℕ → Budget × Bool
charge_all b [] = (b, true)
charge_all b (w ∷ ws) =
    let (b', granted) = charge b w in let (b'', rest) = charge_all b' ws in (b'', granted && rest)

abbrev pub total : List ℕ → ℕ
total [] = 0
total (w ∷ ws) = w + total ws

charge_granted :
    (b : Budget) (w : ℕ)
    → w ≤ b.remaining
    → charge b w ≡ (record { remaining = b.remaining - w }, true)
unfolding charge
charge_granted b w h = ground arith

charge_refused :
    (b : Budget) (w : ℕ) → b.remaining < w → charge b w ≡ (record { remaining = 0 }, false)
unfolding charge
charge_refused b w h = ground arith

-- A sequence of charges is granted exactly when its total fits the allowance, and what is left
-- is then the allowance less the total.
charge_all_iff :
    (ws : List ℕ) (b : Budget)
    → (((charge_all b ws).1 ≡ true) ↔ (total ws ≤ b.remaining))
      × (total ws ≤ b.remaining → (charge_all b ws).0.remaining ≡ b.remaining - total ws)
unfolding charge
charge_all_iff [] b = ground arith
charge_all_iff (w ∷ ws) b = ground (
  arith,
  charge_all_iff ws (record { remaining = b.remaining - w }),
  charge_all_iff ws (record { remaining = 0 }),
)

-- However the charges come out, what is left never grows.
pub charge_all_le : (ws : List ℕ) (b : Budget) → (charge_all b ws).0.remaining ≤ b.remaining
unfolding charge
charge_all_le [] b = omega arith
charge_all_le (w ∷ ws) b = ground (
  arith,
  charge_all_le ws (record { remaining = b.remaining - w }),
  charge_all_le ws (record { remaining = 0 }),
)
