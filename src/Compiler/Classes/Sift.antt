-- ===== src/Compiler/Classes/Sift.antt =====
-- `sift` of src/compiler/classes.rs: it puts a root in its place of the heap of lower bounds, in as many
-- rounds as the heap is deep.
use perex.Base.{
  ℕ, zero, suc, ◌+◌, ◌-◌, ◌*◌, ◌/◌, ◌^◌, ◌==◌, ltb, ◌≤◌, ◌<◌, ◌≡◌, ◌≢◌, ◌⊎◌, inl, inr, refl, sym,
  ap, arith, ◌∙◌, List, Bool-cases, if◌then◌else◌,
}
use perex.Base.{length, ret, true, false, ltb→lt}
use mathlib.Core.Path.{subst}
use perex.Compiler.Monad.{ok}
use perex.Compiler.Monad.Spending.{Ends, ends, Ends-bind, Ends-map}
use perex.Compiler.Classes.{Slice, before, larger_child, sift}
use perex.Compiler.Classes.Slots.{
  left, at, low, swapped, swap-swapped, is_before-at, low-swapped, length-swapped, charge-Ends,
  Shuffled, Shuffled-refl, Shuffled-trans, swapped-Shuffled,
}

abbrev pub parent : ℕ → ℕ
parent c = (c - 1) / 2

-- Every edge whose parent is at `lo` or later has its larger bound above.
abbrev pub IsHeapFrom : ℕ → ℕ → List (ℕ × ℕ) → Type 0
IsHeapFrom lo end a = (c : ℕ) → 0 < c → c < end → lo ≤ parent c → low a c ≤ low a (parent c)

-- Only the edges below `i` may be out of order.
pub record DownInv (lo end : ℕ) (a : List (ℕ × ℕ)) (i : ℕ) : Type 0 where
  pub edges : (c : ℕ) → 0 < c → c < end → lo ≤ parent c → parent c ≢ i → low a c ≤ low a (parent c)
  pub bridged :
      (c : ℕ) → 0 < c → c < end → parent c ≡ i → 0 < i → lo ≤ parent i → low a c ≤ low a (parent i)

-- `m` is the child of `i` with the larger lower bound.
record IsLargerChild (end : ℕ) (a : List (ℕ × ℕ)) (i m : ℕ) : Type 0 where
  inside : m < end
  child : (m ≡ i * 2 + 1) ⊎ (m ≡ i * 2 + 2)
  most : (c : ℕ) → 0 < c → c < end → parent c ≡ i → low a c ≤ low a m

swap-DownInv :
    (lo end : ℕ) (a : List (ℕ × ℕ)) (i m : ℕ)
    → end ≤ length a
    → DownInv lo end a i
    → IsLargerChild end a i m
    → low a i ≤ low a m
    → DownInv lo end (swapped a i m) m
swap-DownInv lo end a i m h v s below =
    let inside = s.inside in
    let least = s.child in
    let there = low-swapped a i m (omega arith) (omega arith) in
    record {
      edges =
          λ c p q r t. ground (arith, there c, there (parent c), v.edges c, v.bridged m, s.most c);
      bridged = λ c p q r t u. ground (arith, there c, there (parent m), v.edges c);
    }

children : (i c : ℕ) → 0 < c → parent c ≡ i → (c ≡ i * 2 + 1) ⊎ (c ≡ i * 2 + 1 + 1)
children i c p h = elim (Bool-cases (c == i * 2 + 1)) [
  | inl t ↦ inl (ground arith)
  | inr t ↦ inr (ground arith)
]

before_low : (x y : ℕ × ℕ) → before x y ≡ true → x.0 ≤ y.0
before_low (a, b) (c, d) h = ground arith

not_before_low : (x y : ℕ × ℕ) → before x y ≡ false → y.0 ≤ x.0
not_before_low (a, b) (c, d) h = ground arith

IsLargerChild-chosen :
    (i end : ℕ) (s t : Slice)
    → i * 2 + 1 + 1 < end
    → t.ranges ≡ s.ranges
    → Ends left 0 t
        (λ m t. (t.ranges ≡ s.ranges) × IsLargerChild end t.ranges i m)
        (ret (
          ok (
              if before (at t.ranges (i * 2 + 1)) (at t.ranges (i * 2 + 1 + 1))
              then i * 2 + 1 + 1
              else i * 2 + 1),
          t,
        ))
IsLargerChild-chosen i end s t k e =
    elim (Bool-cases (before (at t.ranges (i * 2 + 1)) (at t.ranges (i * 2 + 1 + 1)))) [
      | inl b ↦
          let z = before_low (at t.ranges (i * 2 + 1)) (at t.ranges (i * 2 + 1 + 1)) b in
          rw b (
            ends (i * 2 + 1 + 1) t
              (
                e,
                record {
                  inside = omega arith;
                  child = inr (omega arith);
                  most = λ c p q r. elim (children i c p r) [
                    | inl q ↦ rw q z
                    | inr q ↦ rw q (omega arith)
                  ];
                },
              )
              (omega arith))
      | inr b ↦
          let z = not_before_low (at t.ranges (i * 2 + 1)) (at t.ranges (i * 2 + 1 + 1)) b in
          rw b (
            ends (i * 2 + 1) t
              (
                e,
                record {
                  inside = omega arith;
                  child = inl refl;
                  most = λ c p q r. elim (children i c p r) [
                    | inl q ↦ rw q (omega arith)
                    | inr q ↦ rw q z
                  ];
                },
              )
              (omega arith))
    ]

larger_child-Ends :
    (i end : ℕ) (s : Slice)
    → i < end / 2
    → end ≤ length s.ranges
    → Ends left 1 s
        (λ m t. (t.ranges ≡ s.ranges) × IsLargerChild end t.ranges i m)
        (larger_child i end s)
unfolding larger_child
larger_child-Ends i end s h l = elim (Bool-cases (ltb (i * 2 + 1 + 1) end)) [
  | inr t ↦ rw t (
      ends (i * 2 + 1) s
        (
          refl,
          record {
            inside = omega arith;
            child = inl refl;
            most = λ c p q r. let e : c ≡ i * 2 + 1 = ground arith in rw e (omega arith);
          },
        )
        (omega arith))
  | inl t ↦
      let k : i * 2 + 1 + 1 < end = ltb→lt _ _ t in
      rw t (
        Ends-bind 1 0 (omega arith) (charge-Ends s) λ u t e.
          let hl : length t.ranges ≡ length s.ranges = ap length e in
          rw (is_before-at t (i * 2 + 1) (i * 2 + 1 + 1) (omega arith) (omega arith))
            (IsLargerChild-chosen i end s t k e))
]

deeper :
    (i m k end : ℕ)
    → (m ≡ i * 2 + 1) ⊎ (m ≡ i * 2 + 2)
    → end ≤ (i + 1) * 2 ^ suc k
    → end ≤ (m + 1) * 2 ^ k
deeper i m k end c h =
    let two : 2 ^ suc k ≡ 2 * 2 ^ k = omega arith in by_half i m (2 ^ k) end c (rw two at h)
  where
    by_half :
        (i m q end : ℕ)
        → (m ≡ i * 2 + 1) ⊎ (m ≡ i * 2 + 2)
        → end ≤ (i + 1) * (2 * q)
        → end ≤ (m + 1) * q
    by_half i m q end (inl e) h = rw e (omega arith)
    by_half i m q end (inr e) h = rw e (omega arith)

shallow : (i end : ℕ) → end ≤ (i + 1) * 2 ^ 0 → ltb i (end / 2) ≡ false
shallow i end h = ground arith

pub sift-Ends :
    (fuel lo root end k : ℕ) (s : Slice)
    → end ≤ length s.ranges
    → end - root < fuel
    → end ≤ (root + 1) * 2 ^ k
    → DownInv lo end s.ranges root
    → Ends left
        (2 * k)
        s
        (λ u t. Shuffled end s.ranges t.ranges × IsHeapFrom lo end t.ranges)
        (sift fuel root end s)
unfolding sift
sift-Ends zero lo root end k s l f p v = absurd (omega arith)
sift-Ends (suc fuel) lo root end zero s l f p v =
    rw (shallow root end p)
      (ends tt s (Shuffled-refl end s.ranges, λ c q r w. ground (arith, v.edges c)) (omega arith))
sift-Ends (suc fuel) lo root end (suc k) s l f p v = elim (Bool-cases (ltb root (end / 2))) [
  | inr t ↦
      rw t
        (ends tt s (Shuffled-refl end s.ranges, λ c p q r. ground (arith, v.edges c)) (omega arith))
  | inl t ↦ rw t (
      Ends-bind 1 (1 + 2 * k) (omega arith) (larger_child-Ends root end s (ltb→lt _ _ t) l)
        λ m t (e, c). Ends-bind 1 (2 * k) (omega arith) (charge-Ends t) λ u t2 e2.
          let inside = c.inside in
          let child = c.child in
          let hl : length t2.ranges ≡ length s.ranges = ap length (e2 ∙ e) in
          rw (is_before-at t2 root m (omega arith) (omega arith)) (
            let back = e2 ∙ e in
            let v2 = subst (λ a. DownInv lo end a root) (sym back) v in
            let c2 = subst (λ a. IsLargerChild end a root m) (sym e2) c in
            let kept = subst (λ a. Shuffled end a t2.ranges) back (Shuffled-refl end t2.ranges) in
            let swap_kept =
              Shuffled-trans kept
                (swapped-Shuffled t2.ranges end root m (omega arith) inside (omega arith)) in
            elim (Bool-cases (before (at t2.ranges root) (at t2.ranges m))) [
              | inr b ↦ rw b (
                  let z = not_before_low (at t2.ranges root) (at t2.ranges m) b in
                  ends tt t2 (kept, λ c p q r. ground (arith, v2.edges c, c2.most c)) (omega arith))
              | inl b ↦
                  let z = before_low (at t2.ranges root) (at t2.ranges m) b in
                  rw (b, swap-swapped t2 root m (omega arith) (omega arith))
                    (Ends-map (omega arith)
                      (sift-Ends fuel lo m end k (record t2 { ranges = swapped t2.ranges root m })
                        (rw (length-swapped t2.ranges root m (omega arith) (omega arith))
                          (omega arith))
                        (omega arith) (deeper root m k end child p)
                        (swap-DownInv lo end t2.ranges root m (omega arith) v2 c2 z))
                      λ u b (x, y). (Shuffled-trans swap_kept x, y))
            ]))
]
