-- ===== src/Unicode/Sequences/Ordered.antt =====
-- The binary search among the members of a group in src/sequences.rs.
use perex.Base.{ℕ, zero, suc, ◌+◌, ◌-◌, ◌/◌, ◌≤◌, ◌<◌, ◌≡◌, arith, List, ◌∷◌}
use perex.Base.{ltb, Run, ret, Bool-cases, inl, inr, ltb→lt}
use perex.Unicode.Sequences.{SequenceTables, entry, partition_loop, partition}

-- The entries from `lo` up to `hi` begin with the characters that `first` names, in ascending order.
pub record IsOrdered (t : SequenceTables) (first : ℕ → ℕ) (lo hi : ℕ) : Type 0 where
  pub rest : ℕ → List ℕ
  pub entries : (i : ℕ) → lo ≤ i → i < hi → entry t i ≡ ret (first i ∷ rest i)
  pub order : (i j : ℕ) → lo ≤ i → i ≤ j → j < hi → first i ≤ first j

-- The first place from which on no entry begins below `c`.
pub data Bounds (first : ℕ → ℕ) (c lo hi : ℕ) : Run ℕ → Type 0 where
  stands :
      (k : ℕ)
      → lo ≤ k
      → k ≤ hi
      → ((i : ℕ) → lo ≤ i → i < k → first i < c)
      → ((i : ℕ) → k ≤ i → i < hi → c ≤ first i)
      → Bounds first c lo hi (ret k)

widen :
    (first : ℕ → ℕ) (c lo hi l h : ℕ) (run : Run ℕ)
    → lo ≤ l
    → h ≤ hi
    → ((i : ℕ) → lo ≤ i → i < l → first i < c)
    → ((i : ℕ) → h ≤ i → i < hi → c ≤ first i)
    → Bounds first c l h run
    → Bounds first c lo hi run
widen first c lo hi l h run a b below beyond (stands k p q u v) =
    stands k (omega arith) (omega arith)
      (λ i x y. elim (Bool-cases (ltb i l)) [
        | inl t ↦ below i x (ltb→lt i l t)
        | inr t ↦ u i (ground arith) y
      ])
      (λ i x y. elim (Bool-cases (ltb i h)) [
        | inl t ↦ v i x (ltb→lt i h t)
        | inr t ↦ beyond i (ground arith) y
      ])

partition_loop-Bounds :
    (fuel c lo hi : ℕ) (t : SequenceTables) (first : ℕ → ℕ)
    → IsOrdered t first lo hi
    → lo ≤ hi
    → hi - lo < fuel
    → Bounds first c lo hi (partition_loop fuel t c lo hi)
unfolding partition_loop
partition_loop-Bounds zero c lo hi t first o l f = absurd (omega arith)
partition_loop-Bounds (suc fuel) c lo hi t first o l f = elim (Bool-cases (ltb lo hi)) [
  | inr e ↦
      rw e
        (stands lo (omega arith) l (λ i x y. absurd (omega arith)) (λ i x y. absurd (ground arith)))
  | inl e ↦
      let b : lo < hi = ltb→lt lo hi e in
      let m : ℕ = lo + (hi - lo) / 2 in
      let m1 : lo ≤ m = omega arith in
      let m2 : m < hi = omega arith in
      elim (Bool-cases (ltb (first m) c)) [
        | inl s ↦
            rw (e, o.entries m m1 m2, s)
              (widen first c lo hi (m + 1) hi (partition_loop fuel t c (m + 1) hi) (omega arith)
                (omega arith)
                (λ i x y.
                  let w : first i ≤ first m = o.order i m x (omega arith) m2 in
                  let z : first m < c = ltb→lt (first m) c s in omega arith)
                (λ i x y. absurd (omega arith))
                (partition_loop-Bounds fuel c (m + 1) hi t first
                  (record {
                    rest = o.rest;
                    entries = λ i x y. o.entries i (omega arith) y;
                    order = λ i j x y z. o.order i j (omega arith) y z;
                  })
                  (omega arith) (omega arith)))
        | inr s ↦
            rw (e, o.entries m m1 m2, s)
              (widen first c lo hi lo m (partition_loop fuel t c lo m) (omega arith) (omega arith)
                (λ i x y. absurd (omega arith))
                (λ i x y.
                  let w : first m ≤ first i = o.order m i m1 x y in
                  let z : c ≤ first m = ground arith in omega arith)
                (partition_loop-Bounds fuel c lo m t first
                  (record {
                    rest = o.rest;
                    entries = λ i x y. o.entries i x (omega arith);
                    order = λ i j x y z. o.order i j x y (omega arith);
                  })
                  m1 (omega arith)))
      ]
]

-- Where the entries of a range begin with ascending characters, `partition` ends at the first entry
-- that does not begin below the given one: all before it do, and none from it on does.
pub partition-Bounds :
    (c lo hi : ℕ) (t : SequenceTables) (first : ℕ → ℕ)
    → IsOrdered t first lo hi
    → lo ≤ hi
    → Bounds first c lo hi (partition t lo hi c)
unfolding partition
partition-Bounds c lo hi t first o l =
    partition_loop-Bounds (suc (hi - lo)) c lo hi t first o l (omega arith)
