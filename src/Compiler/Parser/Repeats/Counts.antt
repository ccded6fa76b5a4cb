-- ===== src/Compiler/Parser/Repeats/Counts.antt =====
-- How often an atom may come in a repeat of a repeat, for src/compiler/repetition.rs.
use perex.Base.{
  ℕ, zero, suc, ◌+◌, ◌-◌, ◌*◌, ◌==◌, ltb, min, max, ◌≤◌, ◌<◌, ◌≡◌, ◌↔◌, ◌⊎◌, inl, inr, refl, arith,
  Bool, true, false, Bool-cases, Option, none, some,
}
use native.Mathlib.Nat.{mul-le-mul_left}
use mathlib.Core.Path.{subst}
use mathlib.Core.Option.{some-injective}
use perex.Compiler.Parser.Repeats.{Bounds, combined}
use perex.Compiler.Parser.{word_values}

-- The bounds allow so many rounds.
abbrev pub Allows : Bounds → ℕ → Type 0
Allows (least, most, infinite) n = (least ≤ n) × ((infinite ≡ true) ⊎ (n ≤ most))

-- So many rounds of a repeat take `n` atoms in all.
pub data Rounds (inner : Bounds) : ℕ → ℕ → Type 0 where
  no_round : Rounds inner 0 0
  a_round : (k m n : ℕ) → Allows inner m → Rounds inner k n → Rounds inner (suc k) (m + n)

-- What a repeat of a repeat takes.
pub record Nested (outer inner : Bounds) (n : ℕ) : Type 0 where
  pub rounds : ℕ
  pub allowed : Allows outer rounds
  pub taken : Rounds inner rounds n

Rounds-least :
    (least most : ℕ) (infinite : Bool) (k n : ℕ)
    → Rounds (least, most, infinite) k n
    → k * least ≤ n
Rounds-least least most infinite _ _ no_round = omega arith
Rounds-least least most infinite _ _ (a_round k m n a r) =
    omega (arith, Rounds-least least most infinite k n r)

Rounds-most : (least most k n : ℕ) → Rounds (least, most, false) k n → n ≤ k * most
Rounds-most least most _ _ no_round = omega arith
Rounds-most least most _ _ (a_round k m n (a, inl e) r) = cc
Rounds-most least most _ _ (a_round k m n (a, inr b) r) =
    omega (arith, Rounds-most least most k n r)

-- The bounds are in order.
abbrev pub IsProper : Bounds → Type 0
IsProper (least, most, infinite) = (infinite ≡ true) ⊎ (least ≤ most)

rounds_exact :
    (least most : ℕ) (infinite : Bool) (k : ℕ)
    → IsProper (least, most, infinite)
    → Rounds (least, most, infinite) k (k * least)
rounds_exact least most infinite zero v = let e : 0 * least ≡ 0 = omega arith in rw e no_round
rounds_exact least most infinite (suc k) v =
    let e : suc k * least ≡ least + k * least = omega arith in
    rw e (a_round k least (k * least) (omega arith, v) (rounds_exact least most infinite k v))

-- The first of unbounded rounds takes what is over.
rounds_unbounded :
    (least most k n : ℕ) → k * least ≤ n → (k ≡ 0 → n ≡ 0) → Rounds (least, most, true) k n
rounds_unbounded least most zero n l z = let e : n ≡ 0 = z refl in rw e no_round
rounds_unbounded least most (suc k) n l z =
    let e : n ≡ n - k * least + k * least = omega arith in
    rw e (
      a_round k (n - k * least) (k * least) (omega arith, inl refl)
        (rounds_exact least most true k (inl refl)))

-- The first of bounded rounds takes what it may.
rounds_bounded :
    (least most k n : ℕ)
    → least ≤ most
    → k * least ≤ n
    → n ≤ k * most
    → Rounds (least, most, false) k n
rounds_bounded least most zero n v l m = let e : n ≡ 0 = omega arith in rw e no_round
rounds_bounded least most (suc k) n v l m =
    let first : ℕ = min most (n - k * least) in
    let e : n ≡ first + (n - first) = omega arith in
    let more : k * least ≤ k * most = mul-le-mul_left k v in
    rw e (
      a_round k first (n - first) (omega arith, inr (omega arith))
        (rounds_bounded least most k (n - first) v (omega arith) (omega arith)))

rounds_of :
    (least most : ℕ) (infinite : Bool) (k n : ℕ)
    → IsProper (least, most, infinite)
    → k * least ≤ n
    → (k ≡ 0 → n ≡ 0)
    → (infinite ≡ true) ⊎ (n ≤ k * most)
    → Rounds (least, most, infinite) k n
rounds_of least most true k n v l z m = rounds_unbounded least most k n l z
rounds_of least most false k n (inl v) l z m = cc
rounds_of least most false k n (inr v) l z (inl m) = cc
rounds_of least most false k n (inr v) l z (inr m) = rounds_bounded least most k n v l m

times_le_one : (k least n : ℕ) → least ≤ 1 → (least ≡ 0) ⊎ (k ≤ n) → k * least ≤ n
times_le_one k zero n h c = omega arith
times_le_one k (suc zero) n h (inl c) = absurd (omega arith)
times_le_one k (suc zero) n h (inr c) = omega arith
times_le_one k (suc (suc least)) n h c = absurd (omega arith)

le_times : (k most : ℕ) → 0 < most → k ≤ k * most
le_times k most h = let more : k * 1 ≤ k * most = mul-le-mul_left k h in omega arith

one_or_zero :
    (outer_least k least n : ℕ)
    → least ≤ 1
    → outer_least * least ≤ n
    → (outer_least ≤ n → k ≤ n)
    → (least ≡ 0) ⊎ (k ≤ n)
one_or_zero o k zero n h l f = inl refl
one_or_zero o k (suc zero) n h l f = inr (f (omega arith))
one_or_zero o k (suc (suc least)) n h l f = absurd (omega arith)

-- Where something may be taken, the rounds for `n` take it.
module _ (least most : ℕ) (infinite : Bool) (n : ℕ) (w : IsProper (least, most, infinite))
    (h : least ≤ 1) (some_inner : (infinite ≡ true) ⊎ (0 < most)) where
  enough : (k : ℕ) → n ≤ k → (infinite ≡ true) ⊎ (n ≤ k * most)
  enough k l = elim some_inner [
    | inl e ↦ inl e
    | inr p ↦ let more = le_times k most p in inr (omega arith)
  ]

  Nested-unbounded : (a b : ℕ) → a * least ≤ n → Nested (a, b, true) (least, most, infinite) n
  Nested-unbounded a b l = record {
    rounds = max a n;
    allowed = (omega arith, inl refl);
    taken =
        rounds_of least most infinite (max a n) n w
          (times_le_one (max a n) least n h
            (one_or_zero a (max a n) least n h l (λ q. omega arith)))
          (λ e. omega arith) (enough (max a n) (omega arith));
  }

  Nested-bounded :
      (a b : ℕ)
      → a ≤ b
      → 0 < b
      → a * least ≤ n
      → (infinite ≡ true) ⊎ (n ≤ b * most)
      → Nested (a, b, false) (least, most, infinite) n
  Nested-bounded a b v p l m =
      let k : ℕ = max a (min n b) in
      record {
        rounds = k;
        allowed = (omega arith, inr (omega arith));
        taken =
            rounds_of least most infinite k n w
              (times_le_one k least n h (one_or_zero a k least n h l (λ q. omega arith)))
              (λ e. omega arith)
              (elim (Bool-cases (ltb b n)) [
                | inl t ↦ let e : k ≡ b = ground arith in rw e m
                | inr t ↦ enough k (ground arith)
              ]);
      }

at_least : (a k n least : ℕ) → a ≤ k → k * least ≤ n → a * least ≤ n
at_least a k n least h l = let more : least * a ≤ least * k = mul-le-mul_left least h in omega arith

at_most : (b k n most : ℕ) → k ≤ b → n ≤ k * most → n ≤ b * most
at_most b k n most h l = let more : most * k ≤ most * b = mul-le-mul_left most h in omega arith

Nested-least :
    (a b : ℕ) (i : Bool) (least most : ℕ) (infinite : Bool) (n : ℕ)
    → Nested (a, b, i) (least, most, infinite) n
    → a * least ≤ n
Nested-least a b i least most infinite n x =
    at_least a x.rounds n least x.allowed.0 (Rounds-least least most infinite x.rounds n x.taken)

Nested-most : (a b least most n : ℕ) → Nested (a, b, false) (least, most, false) n → n ≤ b * most
Nested-most a b least most n x = elim x.allowed.1 [
  | inl e ↦ cc
  | inr h ↦ at_most b x.rounds n most h (Rounds-most least most x.rounds n x.taken)
]

no_rounds : {inner : Bounds} (k n : ℕ) → k ≡ 0 → Rounds inner k n → n ≡ 0
no_rounds _ _ e no_round = refl
no_rounds _ _ e (a_round k m n a r) = absurd (omega arith)

-- The outer repeat has no rounds, or the inner one takes nothing.
outer_empty : (a b n : ℕ) (inner : Bounds) → b ≡ 0 → Nested (a, b, false) inner n → n ≡ 0
outer_empty a b n inner e x = elim x.allowed.1 [
  | inl z ↦ cc
  | inr h ↦ no_rounds x.rounds n (omega arith) x.taken
]

inner_empty :
    (outer : Bounds) (least most n : ℕ) → most ≡ 0 → Nested outer (least, most, false) n → n ≡ 0
inner_empty outer least most n e x =
    let h = Rounds-most least most x.rounds n x.taken in
    let z : x.rounds * most ≡ 0 = rw e (omega arith) in omega arith

module _ (a b : ℕ) (i : Bool) (least most : ℕ) (infinite : Bool) (n : ℕ) (v : IsProper (a, b, i))
    (w : IsProper (least, most, infinite)) where
  empty_case :
      (Nested (a, b, i) (least, most, infinite) n → n ≡ 0)
      → Nested (a, b, i) (least, most, infinite) n ↔ Allows (a * least, 0, false) n
  empty_case none_taken = (
    (λ x. let e = none_taken x in (Nested-least a b i least most infinite n x, inr (omega arith))),
    (λ (l, m). elim m [
      | inl e ↦ cc
      | inr z ↦
          let e : n ≡ a * least = omega arith in
          record {
            rounds = a;
            allowed = (omega arith, v);
            taken = rw e (rounds_exact least most infinite a w);
          }
    ]),
  )

  unbounded_case :
      (a * least ≤ n → Nested (a, b, i) (least, most, infinite) n)
      → Nested (a, b, i) (least, most, infinite) n ↔ Allows (a * least, 0, true) n
  unbounded_case nested =
      ((λ x. (Nested-least a b i least most infinite n x, inl refl)), (λ x. nested x.0))

is_both :
    (c both : Bounds) (n : ℕ) {P : Type 0}
    → P ↔ Allows c n
    → ◌≡◌ {A = Option Bounds} (some c) (some both)
    → P ↔ Allows both n
is_both c both n {P} p e = subst (λ (d : Bounds). P ↔ Allows d n) (some-injective c both e) p

no_bounds : (both : Bounds) → ◌≡◌ {A = Option Bounds} none (some both) → ⊥
no_bounds both e = cc

ordered : (a b : ℕ) → IsProper (a, b, false) → a ≤ b
ordered a b (inl e) = cc
ordered a b (inr h) = h

-- A greedy repeat of a greedy repeat of one atom, whose inner one asks for one atom at most, takes so
-- many atoms where the repeat that `combined` gives takes them: both bounds are in order, and the product
-- of the upper ones, where it counts, is a `u32`.
pub combined-Nested :
    (outer inner both : Bounds) (n : ℕ)
    → IsProper outer
    → IsProper inner
    → inner.0 ≤ 1
    → combined outer inner ≡ some both
    → Nested outer inner n ↔ Allows both n
unfolding combined
combined-Nested (a, b, true) (least, most, true) both n v w h e =
    is_both _ both n
      (unbounded_case a b true least most true n v w
        (Nested-unbounded least most true n w h (inl refl) a b))
      e
combined-Nested (a, b, true) (least, most, false) both n v w h e = elim (Bool-cases (most == 0)) [
  | inl t ↦
      is_both _ both n
        (empty_case a b true least most false n v w
          (inner_empty (a, b, true) least most n (ground arith)))
        (rw t at e)
  | inr t ↦
      is_both _ both n
        (unbounded_case a b true least most false n v w
          (Nested-unbounded least most false n w h (inr (ground arith)) a b))
        (rw t at e)
]
combined-Nested (a, b, false) (least, most, true) both n v w h e = elim (Bool-cases (b == 0)) [
  | inl t ↦
      is_both _ both n
        (empty_case a b false least most true n v w
          (outer_empty a b n (least, most, true) (ground arith)))
        (rw t at e)
  | inr t ↦
      is_both _ both n
        (unbounded_case a b false least most true n v w (λ l.
          Nested-bounded least most true n w h (inl refl) a b (ordered a b v) (ground arith) l
            (inl refl)))
        (rw t at e)
]
combined-Nested (a, b, false) (least, most, false) both n v w h e = elim (Bool-cases (b == 0)) [
  | inl t ↦
      is_both _ both n
        (empty_case a b false least most false n v w
          (outer_empty a b n (least, most, false) (ground arith)))
        (rw t at e)
  | inr t ↦ elim (Bool-cases (most == 0)) [
    | inl u ↦
        is_both _ both n
          (empty_case a b false least most false n v w
            (inner_empty (a, b, false) least most n (ground arith)))
          (rw (t, u) at e)
    | inr u ↦ elim (Bool-cases (ltb (b * most) word_values)) [
      | inr z ↦ absurd (no_bounds both (rw (t, u, z) at e))
      | inl z ↦
          is_both _ both n
            (
              (λ x. (
                Nested-least a b false least most false n x,
                inr (Nested-most a b least most n x),
              )),
              (λ (l, m).
                  Nested-bounded least most false n w h (inr (ground arith)) a b (ordered a b v)
                    (ground arith) l m),
            )
            (rw (t, u, z) at e)
    ]
  ]
]
