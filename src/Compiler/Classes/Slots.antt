-- ===== src/Compiler/Classes/Slots.antt =====
-- Reading and swapping the ranges of a slice in src/compiler/classes.rs, and rearranging a first part.
use perex.Base.{
  ℕ, zero, suc, ◌==◌, ltb, ◌≤◌, ◌<◌, ◌≡◌, refl, ap, ◌∙◌, arith, List, [], ◌∷◌, some, if◌then◌else◌,
  Bool-cases, inl, inr,
}
use perex.Base.{get_elem?, set, length, length-set, ret, le→leb, lt→leb}
use perex.Budget
use perex.Compiler.Monad.{ok}
use perex.Compiler.Monad.Spending.{Ends, ends, short}
use perex.Compiler.Classes.{Slice, charge, swap, before, is_before}

abbrev pub left : Slice → ℕ
left s = s.budget.remaining

-- The range at an index, and one where there is none.
abbrev pub at : List (ℕ × ℕ) → ℕ → ℕ × ℕ
at [] i = (0, 0)
at (x ∷ xs) zero = x
at (x ∷ xs) (suc i) = at xs i

abbrev pub low : List (ℕ × ℕ) → ℕ → ℕ
low xs i = (at xs i).0

abbrev pub swapped : List (ℕ × ℕ) → ℕ → ℕ → List (ℕ × ℕ)
swapped xs i j = set (set xs i (at xs j)) j (at xs i)

pub get_elem?-at : (xs : List (ℕ × ℕ)) (i : ℕ) → i < length xs → get_elem? xs i ≡ some (at xs i)
get_elem?-at [] i h = absurd (omega arith)
get_elem?-at (x ∷ xs) zero h = refl
get_elem?-at (x ∷ xs) (suc i) h = get_elem?-at xs i (omega arith)

pub at-set :
    (xs : List (ℕ × ℕ)) (i j : ℕ) (v : ℕ × ℕ)
    → i < length xs
    → at (set xs i v) j ≡ (if i == j then v else at xs j)
at-set [] i j v h = absurd (omega arith)
at-set (x ∷ xs) zero zero v h = refl
at-set (x ∷ xs) zero (suc j) v h = ground arith
at-set (x ∷ xs) (suc i) zero v h = ground arith
at-set (x ∷ xs) (suc i) (suc j) v h = ground (arith, at-set xs i j v)

module _ (xs : List (ℕ × ℕ)) (i j : ℕ) (hi : i < length xs) (hj : j < length xs) where
  pub length-swapped : length (swapped xs i j) ≡ length xs
  length-swapped = rw (length-set, length-set) refl

  pub at-swapped :
      (c : ℕ)
      → at (swapped xs i j) c ≡ (if j == c then at xs i else if i == c then at xs j else at xs c)
  at-swapped c =
      rw (at-set (set xs i (at xs j)) j c (at xs i) (rw length-set hj), at-set xs i c (at xs j) hi)
        refl

  pub low-swapped :
      (c : ℕ)
      → low (swapped xs i j) c
        ≡ (if j == c then low xs i else if i == c then low xs j else low xs c)
  low-swapped c = ground (arith, at-swapped c)

module _ (s : Slice) (i j : ℕ) (hi : i < length s.ranges) (hj : j < length s.ranges) where
  pub swap-swapped : swap i j s ≡ ret (ok tt, record s { ranges = swapped s.ranges i j })
  unfolding swap
  swap-swapped = rw (get_elem?-at s.ranges i hi, get_elem?-at s.ranges j hj) refl

  pub is_before-at : is_before i j s ≡ ret (ok (before (at s.ranges i) (at s.ranges j)), s)
  is_before-at = rw (get_elem?-at s.ranges i hi, get_elem?-at s.ranges j hj) refl

pub charge-Ends : (s : Slice) → Ends left 1 s (λ u t. t.ranges ≡ s.ranges) (charge s)
unfolding charge Budget.charge
charge-Ends s = elim (Bool-cases (ltb 0 s.budget.remaining)) [
  | inl h ↦ rw (le→leb 1 s.budget.remaining (ground arith)) (ends tt _ refl (ground arith))
  | inr h ↦ rw (lt→leb 1 s.budget.remaining (ground arith)) (short _ (ground arith))
]

-- Lists that have the same ranges before `end`, in any order, and the same list of them from there.
pub record Shuffled (end : ℕ) (a b : List (ℕ × ℕ)) : Type 0 where
  pub same_length : length b ≡ length a
  pub outside : (c : ℕ) → end ≤ c → at b c ≡ at a c
  pub from : (c : ℕ) → c < end → (d : ℕ) × (d < end) × (at b c ≡ at a d)
  pub onto : (c : ℕ) → c < end → (d : ℕ) × (d < end) × (at b d ≡ at a c)

pub Shuffled-refl : (end : ℕ) (a : List (ℕ × ℕ)) → Shuffled end a a
Shuffled-refl end a = record {
  same_length = refl;
  outside = λ c h. refl;
  from = λ c h. (c, h, refl);
  onto = λ c h. (c, h, refl);
}

pub Shuffled-trans :
    {end : ℕ} {a b c : List (ℕ × ℕ)} → Shuffled end a b → Shuffled end b c → Shuffled end a c
Shuffled-trans {end} {a} {b} {c} p q = record {
  same_length = q.same_length ∙ p.same_length;
  outside = λ i h. q.outside i h ∙ p.outside i h;
  from = λ i h. let (d, k, e) = q.from i h in let (d2, k2, e2) = p.from d k in (d2, k2, e ∙ e2);
  onto = λ i h. let (d, k, e) = p.onto i h in let (d2, k2, e2) = q.onto d k in (d2, k2, e2 ∙ e);
}

pub Shuffled-wider :
    {end wide : ℕ} {a b : List (ℕ × ℕ)} → end ≤ wide → Shuffled end a b → Shuffled wide a b
Shuffled-wider {end} {wide} w p = record {
  same_length = p.same_length;
  outside = λ i h. p.outside i (omega arith);
  from = λ i h. elim (Bool-cases (ltb i end)) [
    | inl t ↦ let (d, k, e) = p.from i (ground arith) in (d, omega arith, e)
    | inr t ↦ (i, h, p.outside i (ground arith))
  ];
  onto = λ i h. elim (Bool-cases (ltb i end)) [
    | inl t ↦ let (d, k, e) = p.onto i (ground arith) in (d, omega arith, e)
    | inr t ↦ (i, h, p.outside i (ground arith))
  ];
}

-- Where a swap takes an index.
abbrev other : ℕ → ℕ → ℕ → ℕ
other i j c = if j == c then i else if i == c then j else c

other_back : (i j c : ℕ) → other i j (other i j c) ≡ c
other_back i j c = ground arith

at-other :
    (xs : List (ℕ × ℕ)) (i j c : ℕ)
    → i < length xs
    → j < length xs
    → at (swapped xs i j) c ≡ at xs (other i j c)
at-other xs i j c hi hj = ground (arith, at-swapped xs i j hi hj c)

pub swapped-Shuffled :
    (xs : List (ℕ × ℕ)) (end i j : ℕ)
    → i < end
    → j < end
    → end ≤ length xs
    → Shuffled end xs (swapped xs i j)
swapped-Shuffled xs end i j hi hj h =
    let li : i < length xs = omega arith in
    let lj : j < length xs = omega arith in
    record {
      same_length = length-swapped xs i j li lj;
      outside = λ c k. ground (arith, at-swapped xs i j li lj c);
      from = λ c k. (other i j c, ground arith, at-other xs i j c li lj);
      onto = λ c k. (
        other i j c,
        ground arith,
        at-other xs i j (other i j c) li lj ∙ ap (at xs) (other_back i j c),
      );
    }
