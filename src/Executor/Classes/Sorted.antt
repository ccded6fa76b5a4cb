-- ===== src/Executor/Classes/Sorted.antt =====
-- The binary search of a sorted class in src/executor.rs.
use perex.Base.{
  ℕ, zero, suc, ◌+◌, ◌-◌, ◌*◌, ◌/◌, ◌^◌, ltb, ◌≤◌, ◌<◌, ◌≡◌, sym, ap, ◌∙◌, arith, List, some, Bool,
  true, false,
}
use perex.Base.{
  length, get_elem?, get_elem?-some, Bool-cases, ◌⊎◌, inl, inr, Run, ret, le→ltb, ltb→lt,
}
use mathlib.Core.Path.{subst}
use mathlib.Core.Option.{some-injective}
use perex.Executor.Machine.{Vm}
use perex.Executor.Monad.{Result, ok}
use perex.Executor.Store.Laws.{charge-spent, spent}
use perex.Executor.Classes.{search_range}

-- The ranges from `low` up to `high` stand in order and do not meet.
abbrev pub IsOrdered : List (ℕ × ℕ) → ℕ → ℕ → Type 0
IsOrdered ranges low high =
    ((i lo hi : ℕ) → low ≤ i → i < high → get_elem? ranges i ≡ some (lo, hi) → lo ≤ hi)
    × ((i j lo hi lo2 hi2 : ℕ)
        → low ≤ i
        → i < j
        → j < high
        → get_elem? ranges i ≡ some (lo, hi)
        → get_elem? ranges j ≡ some (lo2, hi2)
        → hi < lo2)

-- What the search finds, on `n` units at most.
pub data Searched (ranges : List (ℕ × ℕ)) (low high c n : ℕ) (vm : Vm)
    : Run (Result Bool × Vm) → Type 0 where
  found :
      (i lo hi k : ℕ)
      → low ≤ i
      → i < high
      → get_elem? ranges i ≡ some (lo, hi)
      → lo ≤ c
      → c ≤ hi
      → k ≤ n
      → Searched ranges low high c n vm (ret (ok true, spent k vm))
  absent :
      ((i lo hi : ℕ)
        → low ≤ i
        → i < high
        → get_elem? ranges i ≡ some (lo, hi)
        → (c < lo) ⊎ (hi < c))
      → (k : ℕ) → k ≤ n
      → Searched ranges low high c n vm (ret (ok false, spent k vm))

later :
    (ranges : List (ℕ × ℕ)) (low high low2 high2 c n : ℕ) (vm : Vm) (end : Run (Result Bool × Vm))
    → low ≤ low2
    → high2 ≤ high
    → ((i lo hi : ℕ)
        → low ≤ i
        → i < high
        → (i < low2) ⊎ (high2 ≤ i)
        → get_elem? ranges i ≡ some (lo, hi)
        → (c < lo) ⊎ (hi < c))
    → Searched ranges low2 high2 c n (spent 1 vm) end
    → Searched ranges low high c (suc n) vm end
later ranges low high low2 high2 c n vm end a b outside (found i lo hi k p q g l m d) =
    let z : vm.budget.remaining - 1 - k ≡ vm.budget.remaining - suc k = omega arith in
    rw z (found i lo hi (suc k) (omega arith) (omega arith) g l m (omega arith))
later ranges low high low2 high2 c n vm end a b outside (absent none_in k d) =
    let z : vm.budget.remaining - 1 - k ≡ vm.budget.remaining - suc k = omega arith in
    rw z (
      absent
        (λ i lo hi p q g. elim (Bool-cases (ltb i low2)) [
          | inl t ↦ outside i lo hi p q (inl (ltb→lt i low2 t)) g
          | inr t ↦ elim (Bool-cases (ltb i high2)) [
            | inl t2 ↦ none_in i lo hi (ground arith) (ltb→lt i high2 t2) g
            | inr t2 ↦ outside i lo hi p q (inr (ground arith)) g
          ]
        ])
        (suc k) (omega arith))

nothing :
    (ranges : List (ℕ × ℕ)) (low high c n : ℕ) (vm : Vm)
    → high ≤ low
    → Searched ranges low high c n vm (ret (ok false, vm))
nothing ranges low high c n vm h =
    let z : vm.budget.remaining - 0 ≡ vm.budget.remaining = omega arith in
    subst
      (λ r.
        Searched ranges low high c n vm
          (ret (ok false, record vm { budget = record { remaining = r } })))
      z (absent (λ i lo hi p q. absurd (omega arith)) 0 (omega arith))

-- The middle range and those behind it begin above the character, or those up to it end below.
lower :
    (ranges : List (ℕ × ℕ)) (low high c m lo hi i lo2 hi2 : ℕ)
    → IsOrdered ranges low high
    → low ≤ m
    → m < high
    → get_elem? ranges m ≡ some (lo, hi)
    → c < lo
    → m ≤ i
    → i < high
    → get_elem? ranges i ≡ some (lo2, hi2)
    → c < lo2
lower ranges low high c m lo hi i lo2 hi2 o a b g h k l g2 = elim (Bool-cases (ltb m i)) [
  | inl t ↦
      let x : hi < lo2 = o.1 m i lo hi lo2 hi2 a (ltb→lt m i t) l g g2 in
      let y : lo ≤ hi = o.0 m lo hi a b g in omega arith
  | inr t ↦
      let e : m ≡ i = ground arith in
      let q : ◌≡◌ {A = ℕ × ℕ} (lo, hi) (lo2, hi2) =
        some-injective (lo, hi) (lo2, hi2) (sym g ∙ (rw e g2)) in
      let r : lo ≡ lo2 = ap (λ w. w.0) q in omega arith
]

higher :
    (ranges : List (ℕ × ℕ)) (low high c m lo hi i lo2 hi2 : ℕ)
    → IsOrdered ranges low high
    → low ≤ m
    → m < high
    → get_elem? ranges m ≡ some (lo, hi)
    → hi < c
    → i ≤ m
    → low ≤ i
    → get_elem? ranges i ≡ some (lo2, hi2)
    → hi2 < c
higher ranges low high c m lo hi i lo2 hi2 o a b g h k l g2 = elim (Bool-cases (ltb i m)) [
  | inl t ↦
      let x : hi2 < lo = o.1 i m lo2 hi2 lo hi l (ltb→lt i m t) b g2 g in
      let y : lo ≤ hi = o.0 m lo hi a b g in omega arith
  | inr t ↦
      let e : m ≡ i = ground arith in
      let q : ◌≡◌ {A = ℕ × ℕ} (lo, hi) (lo2, hi2) =
        some-injective (lo, hi) (lo2, hi2) (sym g ∙ (rw e g2)) in
      let r : hi ≡ hi2 = ap (λ w. w.1) q in omega arith
]

halves :
    (l h p : ℕ)
    → l < h
    → h - l < 2 * p
    → (l ≤ l + (h - l) / 2)
      × (l + (h - l) / 2 < h)
      × (l + (h - l) / 2 - l < p)
      × (h - (l + (h - l) / 2 + 1) < p)
halves l h p a b = (omega arith, omega arith, omega arith, omega arith)

-- In ordered ranges, fewer than 2 to the `n`, on a budget of `n` units, the search of a sorted class
-- ends: it finds a range that has the character, or no range has it, and it has paid `n` units at most.
pub search_range-Searched :
    (fuel low high c n : ℕ) (vm : Vm)
    → IsOrdered vm.sections.ranges low high
    → high ≤ length vm.sections.ranges
    → high - low < fuel
    → high - low < 2 ^ n
    → n ≤ vm.budget.remaining
    → Searched vm.sections.ranges low high c n vm (search_range fuel low high c vm)
unfolding search_range
search_range-Searched zero low high c n vm o l f p m = absurd (omega arith)
search_range-Searched (suc fuel) low high c zero vm o l f p m =
    let b : high ≤ low = omega arith in
    rw (le→ltb low high b) (nothing vm.sections.ranges low high c 0 vm b)
search_range-Searched (suc fuel) low high c (suc n) vm o l f p m =
    elim (Bool-cases (ltb low high)) [
      | inr t ↦ rw t (nothing vm.sections.ranges low high c (suc n) vm (ground arith))
      | inl t ↦
          let b : low < high = ltb→lt low high t in
          let middle : ℕ = low + (high - low) / 2 in
          let q : 2 ^ suc n ≡ 2 * 2 ^ n = omega arith in
          let (m1, m2, m3, m4) = halves low high (2 ^ n) b (omega arith) in
          let ((lo, hi), g) = get_elem?-some vm.sections.ranges middle (omega arith) in
          rw (t, charge-spent 1 vm (omega arith), g)
            elim (Bool-cases (ltb c lo)) [
              | inl x ↦ rw x (
                  later vm.sections.ranges low high low middle c n vm _ (omega arith) (omega arith)
                    (λ i lo2 hi2 d e k g2. elim k [
                      | inl k ↦ absurd (omega arith)
                      | inr k ↦ inl (
                          lower vm.sections.ranges low high c middle lo hi i lo2 hi2 o m1 m2 g
                            (ltb→lt c lo x) k e g2)
                    ])
                    (search_range-Searched fuel low middle c n (spent 1 vm)
                      (
                        (λ i lo hi d e. o.0 i lo hi d (omega arith)),
                        (λ i j lo hi lo2 hi2 d e k. o.1 i j lo hi lo2 hi2 d e (omega arith)),
                      )
                      (omega arith) (omega arith) m3 (omega arith)))
              | inr x ↦ elim (Bool-cases (ltb hi c)) [
                | inl y ↦
                    rw (x, y)
                      (later vm.sections.ranges low high (middle + 1) high c n vm _ (omega arith)
                        (omega arith)
                        (λ i lo2 hi2 d e k g2. elim k [
                          | inl k ↦ inr (
                              higher vm.sections.ranges low high c middle lo hi i lo2 hi2 o m1 m2 g
                                (ltb→lt hi c y) (omega arith) d g2)
                          | inr k ↦ absurd (omega arith)
                        ])
                        (search_range-Searched fuel (middle + 1) high c n (spent 1 vm)
                          (
                            (λ i lo hi d e. o.0 i lo hi (omega arith) e),
                            (λ i j lo hi lo2 hi2 d e k. o.1 i j lo hi lo2 hi2 (omega arith) e k),
                          )
                          (omega arith) (omega arith) m4 (omega arith)))
                | inr y ↦
                    rw (x, y)
                      (found middle lo hi 1 m1 m2 g (ground arith) (ground arith) (omega arith))
              ]
            ]
    ]
