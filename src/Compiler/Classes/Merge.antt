-- ===== src/Compiler/Classes/Merge.antt =====
-- The merge of sorted ranges in src/compiler/classes.rs: what it keeps stands in order, does not meet,
-- and has the characters of the ranges that it has read.
use perex.Base.{
  ℕ, suc, ◌+◌, ◌-◌, ◌==◌, ltb, ◌≤◌, ◌<◌, ◌≡◌, max, inl, inr, refl, ap, ◌∙◌, arith, List, Bool-cases,
  if◌then◌else◌,
}
use perex.Base.{length, set, length-set}
use perex.Compiler.Classes.{}
use perex.Compiler.Classes.Slots.{at, low, at-set}
use perex.Compiler.Classes.Heap.{IsSorted}

abbrev pub high : List (ℕ × ℕ) → ℕ → ℕ
high xs i = (at xs i).1

-- The first `count` ranges are ranges of `u32`.
abbrev pub IsValid : ℕ → List (ℕ × ℕ) → Type 0
IsValid count a = (i : ℕ) → i < count → (low a i ≤ high a i) × (high a i < 0x1_0000_0000)

-- Where a character is in one of the first `count` ranges.
pub record Has (count : ℕ) (a : List (ℕ × ℕ)) (c : ℕ) : Type 0 where
  pub index : ℕ
  pub inside : index < count
  pub from : low a index ≤ c
  pub to : c ≤ high a index

-- The first `used` ranges of `b` are what the first `i` of `a` come to.
pub record Merged (count i used : ℕ) (a b : List (ℕ × ℕ)) : Type 0 where
  pub same_length : length b ≡ length a
  pub fewer : used ≤ i
  pub rest : (j : ℕ) → i ≤ j → at b j ≡ at a j
  pub valid : (p : ℕ) → p < used → low b p ≤ high b p
  pub apart : (p q : ℕ) → p < q → q < used → high b p < low b q
  pub behind : (p q : ℕ) → p < used → i ≤ q → q < count → low b p ≤ low a q
  pub sound : (p c : ℕ) → p < used → low b p ≤ c → c ≤ high b p → Has i a c
  pub whole : (q : ℕ) → q < i → (p : ℕ) × (p < used) × (low b p ≤ low a q) × (high a q ≤ high b p)

Has-suc : {i c : ℕ} {a : List (ℕ × ℕ)} → Has i a c → Has (suc i) a c
Has-suc h =
    let inside = h.inside in
    record { index = h.index; inside = omega arith; from = h.from; to = h.to }

low-set :
    (xs : List (ℕ × ℕ)) (i j : ℕ) (v : ℕ × ℕ)
    → i < length xs
    → low (set xs i v) j ≡ (if i == j then v.0 else low xs j)
low-set xs i j v h = ground (arith, at-set xs i j v h)

high-set :
    (xs : List (ℕ × ℕ)) (i j : ℕ) (v : ℕ × ℕ)
    → i < length xs
    → high (set xs i v) j ≡ (if i == j then v.1 else high xs j)
high-set xs i j v h = ground (arith, at-set xs i j v h)

low-same :
    (xs : List (ℕ × ℕ)) (i j : ℕ) (v : ℕ × ℕ)
    → i < length xs
    → v.0 ≡ low xs i
    → low (set xs i v) j ≡ low xs j
low-same xs i j v h e = elim (Bool-cases (i == j)) [
  | inl t ↦
      let f : i ≡ j = ground arith in let g = ap (low xs) f in ground (arith, low-set xs i j v h)
  | inr t ↦ ground (arith, low-set xs i j v h)
]

module _ (count i used : ℕ) (a b : List (ℕ × ℕ)) (inside : i < count) (long : count ≤ length a)
    (sorted : IsSorted count a) (proper : IsValid count a) (m : Merged count i used a b) where
  pub at_next : at b i ≡ at a i
  at_next = m.rest i (omega arith)

  -- The next range begins behind the last one that is kept.
  pub kept :
      ((p : ℕ) → suc p ≡ used → high b p < low a i)
      → Merged count (suc i) (suc used) a (set b used (at a i))
  kept clear =
      let fewer = m.fewer in
      let same = m.same_length in
      let room : used < length b = omega arith in
      let lows = λ (j : ℕ). low-set b used j (at a i) room in
      let highs = λ (j : ℕ). high-set b used j (at a i) room in
      record {
        same_length = length-set b used (at a i) ∙ m.same_length;
        fewer = omega arith;
        rest = λ j h. ground (arith, at-set b used j (at a i) room, m.rest j);
        valid = λ p h. ground (arith, lows p, highs p, m.valid p, proper i inside);
        apart = λ p q h k. ground (
          arith,
          lows q,
          highs p,
          m.apart p q,
          m.apart p (used - 1),
          m.valid (used - 1),
          clear p,
          clear (used - 1),
        );
        behind = λ p q h k l. ground (arith, lows p, m.behind p q, sorted i q);
        sound = λ p c h k l. elim (Bool-cases (used == p)) [
          | inl t ↦ record {
            index = i;
            inside = omega arith;
            from = ground (arith, lows p);
            to = ground (arith, highs p);
          }
          | inr t ↦
              Has-suc
                (m.sound p c (ground arith) (ground (arith, lows p)) (ground (arith, highs p)))
        ];
        whole = λ q h. elim (Bool-cases (i == q)) [
          | inl t ↦
              let e : i ≡ q = ground arith in
              let e2 = ap (low a) e in
              let e3 = ap (high a) e in
              (used, omega arith, ground (arith, lows used), ground (arith, highs used))
          | inr t ↦
              let (p, k, x, y) = m.whole q (ground arith) in
              (p, omega arith, ground (arith, lows p), ground (arith, highs p))
        ];
      }

  same_high : (last p : ℕ) → last ≡ p → high b last ≡ high b p
  same_high last p e = ap (high b) e

  -- The next range meets or follows on the last one.
  pub joined :
      (last : ℕ)
      → suc last ≡ used
      → low a i ≤ high b last + 1
      → Merged count (suc i) used a (set b last (low b last, max (high b last) (high a i)))
  joined last e meets =
      let fewer = m.fewer in
      let same = m.same_length in
      let room : last < length b = omega arith in
      let v : ℕ × ℕ = (low b last, max (high b last) (high a i)) in
      let lows = λ (j : ℕ). low-set b last j v room in
      let highs = λ (j : ℕ). high-set b last j v room in
      let stays : (j : ℕ) → low (set b last v) j ≡ low b j = λ j. low-same b last j v room refl in
      record {
        same_length = length-set b last v ∙ m.same_length;
        fewer = omega arith;
        rest = λ j h. ground (arith, at-set b last j v room, m.rest j);
        valid = λ p h. ground (arith, stays p, highs p, m.valid p);
        apart = λ p q h k. ground (arith, stays q, highs p, m.apart p q);
        behind = λ p q h k l. ground (arith, stays p, m.behind p q);
        sound = λ p c h k l. elim (Bool-cases (ltb (high b p) c)) [
          | inl t ↦ record {
            index = i;
            inside = omega arith;
            from = ground (arith, highs p, m.valid p, same_high last p);
            to = ground (arith, highs p);
          }
          | inr t ↦ Has-suc (m.sound p c h (ground (arith, stays p)) (ground arith))
        ];
        whole = λ q h. elim (Bool-cases (i == q)) [
          | inl t ↦
              let e3 : i ≡ q = ground arith in
              let e4 = ap (low a) e3 in
              let e5 = ap (high a) e3 in
              let behind = m.behind last i (omega arith) (omega arith) inside in
              (last, omega arith, ground (arith, stays last), ground (arith, highs last))
          | inr t ↦
              let (p, k, x, y) = m.whole q (ground arith) in
              (p, k, ground (arith, stays p), ground (arith, highs p, same_high last p))
        ];
      }
