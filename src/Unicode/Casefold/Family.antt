-- ===== src/Unicode/Casefold/Family.antt =====
-- The equivalents of a character in src/casefold.rs: the cycle that the table steps around.
use perex.Base.{
  ℕ, ◌<◌, ◌≤◌, ◌+◌, ◌-◌, ◌≡◌, ◌≢◌, refl, sym, ◌∙◌, arith, Bool, true, false, [], ◌∷◌, ltb, ◌==◌,
  ◌&&◌, ◌||◌, if◌then◌else◌,
}
use perex.Base.{Bool-cases, ◌⊎◌, inl, inr}
use perex.Unicode.Casefold.{
  CaseTables, next, family, contains, equal, equivalents, plain_ascii, letter, swap_case, within,
}

-- Four steps at most come back.
abbrev pub IsCyclic : (ℕ → ℕ) → Type 0
IsCyclic n = (c : ℕ) → (n c ≡ c) ⊎ ((n (n c) ≡ c) ⊎ ((n (n (n c)) ≡ c) ⊎ (n (n (n (n c))) ≡ c)))

-- The character is three steps away at most.
abbrev pub Reaches : (ℕ → ℕ) → ℕ → ℕ → Type 0
Reaches n c d = (d ≡ c) ⊎ ((d ≡ n c) ⊎ ((d ≡ n (n c)) ⊎ (d ≡ n (n (n c)))))

contains-Reaches : (n : ℕ → ℕ) (c d : ℕ) → contains (family n c) d ≡ true → Reaches n c d
unfolding contains family
contains-Reaches n c d h = ground arith

Reaches-contains : (n : ℕ → ℕ) (c d : ℕ) → Reaches n c d → contains (family n c) d ≡ true
unfolding contains family
Reaches-contains n c d h = ground arith

Reaches-back : (n : ℕ → ℕ) (c d : ℕ) → IsCyclic n → Reaches n c d → Reaches n d c
Reaches-back n c d y h = elim (y c) [
  | inl e ↦ elim h [
    | inl k ↦ inl cc
    | inr (inl k) ↦ inl cc
    | inr (inr (inl k)) ↦ inl cc
    | inr (inr (inr k)) ↦ inl cc
  ]
  | inr (inl e) ↦ elim h [
    | inl k ↦ inl cc
    | inr (inl k) ↦ inr (inl cc)
    | inr (inr (inl k)) ↦ inl cc
    | inr (inr (inr k)) ↦ inr (inl cc)
  ]
  | inr (inr (inl e)) ↦ elim h [
    | inl k ↦ inl cc
    | inr (inl k) ↦ inr (inr (inl cc))
    | inr (inr (inl k)) ↦ inr (inl cc)
    | inr (inr (inr k)) ↦ inl cc
  ]
  | inr (inr (inr e)) ↦ elim h [
    | inl k ↦ inl cc
    | inr (inl k) ↦ inr (inr (inr cc))
    | inr (inr (inl k)) ↦ inr (inr (inl cc))
    | inr (inr (inr k)) ↦ inr (inl cc)
  ]
]

-- What Unicode says of the characters that the fast paths treat without the table, and of the two whose
-- equivalents they are: a capital letter steps to its small one, a small letter back to the capital,
-- but for k and s with the `u` flag, which step on to the Kelvin sign and the long s, and those back
-- to the capital; every other ASCII character stays. All steps are around cycles.
pub record IsCaseTable (t : CaseTables) (unicode : Bool) : Type 0 where
  pub cyclic : IsCyclic (λ c. next t c unicode)
  pub upper : (c : ℕ) → 65 ≤ c → c ≤ 90 → next t c unicode ≡ c + 32
  pub lower :
      (c : ℕ)
      → 97 ≤ c
      → c ≤ 122
      → (unicode ≡ false) ⊎ ((c ≢ 107) × (c ≢ 115))
      → next t c unicode ≡ c - 32
  pub others :
      (c : ℕ) → (c < 65) ⊎ (((90 < c) × (c < 97)) ⊎ ((122 < c) × (c < 128))) → next t c unicode ≡ c
  pub kelvin : unicode ≡ true → (next t 107 unicode ≡ 0x212a) × (next t 0x212a unicode ≡ 75)
  pub long_s : unicode ≡ true → (next t 115 unicode ≡ 0x17f) × (next t 0x17f unicode ≡ 83)

pub letter-swap_case : (c : ℕ) → letter c ≡ true → letter (swap_case c) ≡ true
letter-swap_case c h = ground arith

pub swap_case-swap_case : (c : ℕ) → letter c ≡ true → swap_case (swap_case c) ≡ c
swap_case-swap_case c h = ground arith

swap_case_other : (c : ℕ) → letter c ≡ true → (swap_case c == c) ≡ false
swap_case_other c h = ground arith

-- A plain ASCII character is stepped to the other case of a letter and nowhere else.
plain_step :
    (t : CaseTables) (u : Bool) (c : ℕ)
    → IsCaseTable t u
    → plain_ascii c u ≡ true
    → next t c u ≡ (if letter c then swap_case c else c)
plain_step t u c s p = elim (Bool-cases (within 65 90 c)) [
  | inl a ↦ rw a (s.upper c (ground arith) (ground arith))
  | inr a ↦ elim (Bool-cases (within 97 122 c)) [
    | inl b ↦ rw (a, b) (s.lower c (ground arith) (ground arith) (plain_lower c u p))
    | inr b ↦ rw (a, b) (s.others c (ground arith))
  ]
]
  where
    plain_lower :
        (c : ℕ) (u : Bool) → plain_ascii c u ≡ true → (u ≡ false) ⊎ ((c ≢ 107) × (c ≢ 115))
    plain_lower c true p = inr (ground arith, ground arith)
    plain_lower c false p = inl refl

special_letters :
    (c : ℕ) → c < 128 → plain_ascii c true ≡ false → (c ≡ 75) ⊎ ((c ≡ 83) ⊎ ((c ≡ 107) ⊎ (c ≡ 115)))
special_letters c h p = ground arith

contains-family :
    (n : ℕ → ℕ) (x y z d : ℕ)
    → (y == x) ≡ false
    → (z == x) ≡ false
    → n x ≡ y
    → n y ≡ z
    → n z ≡ x
    → contains (family n x) d ≡ (x == d || (y == d || (z == d || (x == d || false))))
unfolding contains family
contains-family n x y z d y_apart z_apart e f g =
    let r : (x == x) ≡ true = ground arith in rw (e, y_apart, f, z_apart, g, r) refl

-- The other ASCII characters have no ASCII equivalent but the other case.
special_family :
    (t : CaseTables) (u : Bool) (c d : ℕ)
    → IsCaseTable t u
    → c < 128
    → d < 128
    → plain_ascii c u ≡ false
    → contains (family (λ x. next t x u) c) d ≡ (c == d || (letter c && (swap_case c == d)))
special_family t false c d s h k p = absurd (ground arith)
special_family t true c d s h k p =
    let (k1, k2) = s.kelvin refl in
    let (l1, l2) = s.long_s refl in
    let k0 : next t 75 true ≡ 107 = s.upper 75 (omega arith) (omega arith) in
    let l0 : next t 83 true ≡ 115 = s.upper 83 (omega arith) (omega arith) in
    elim (special_letters c h p) [
      | inl e ↦
          rw e
            (contains-family (λ x. next t x true) 75 107 0x212a d refl refl k0 k1 k2 ∙ ground arith)
      | inr (inl e) ↦
          rw e
            (contains-family (λ x. next t x true) 83 115 0x17f d refl refl l0 l1 l2 ∙ ground arith)
      | inr (inr (inl e)) ↦
          rw e
            (contains-family (λ x. next t x true) 107 0x212a 75 d refl refl k1 k2 k0 ∙ ground arith)
      | inr (inr (inr e)) ↦
          rw e
            (contains-family (λ x. next t x true) 115 0x17f 83 d refl refl l1 l2 l0 ∙ ground arith)
    ]

plain_ascii-swap_case :
    (c : ℕ) (u : Bool)
    → letter c ≡ true
    → plain_ascii c u ≡ true
    → plain_ascii (swap_case c) u ≡ true
plain_ascii-swap_case c true h p = ground arith
plain_ascii-swap_case c false h p = ground arith

plain_family :
    (t : CaseTables) (u : Bool) (c : ℕ)
    → IsCaseTable t u
    → plain_ascii c u ≡ true
    → family (λ x. next t x u) c
      ≡ (if letter c then c ∷ swap_case c ∷ c ∷ c ∷ [] else c ∷ c ∷ c ∷ c ∷ [])
unfolding family
plain_family t u c s p = elim (Bool-cases (letter c)) [
  | inl l ↦
      let e : next t c u ≡ swap_case c = plain_step t u c s p ∙ (rw l refl) in
      let q : plain_ascii (swap_case c) u ≡ true = plain_ascii-swap_case c u l p in
      let m : letter (swap_case c) ≡ true = letter-swap_case c l in
      let b : swap_case (swap_case c) ≡ c = swap_case-swap_case c l in
      let e2 : next t (swap_case c) u ≡ c = plain_step t u (swap_case c) s q ∙ (rw m b) in
      let z : (swap_case c == c) ≡ false = swap_case_other c l in
      let r : (c == c) ≡ true = ground arith in rw (l, e, z, e2, r) refl
  | inr l ↦
      let e : next t c u ≡ c = plain_step t u c s p ∙ (rw l refl) in
      let r : (c == c) ≡ true = ground arith in rw (l, e, r) refl
]

equivalents-family :
    (t : CaseTables) (u : Bool) (c : ℕ)
    → IsCaseTable t u
    → equivalents t c u ≡ family (λ x. next t x u) c
unfolding equivalents
equivalents-family t u c s = elim (Bool-cases (plain_ascii c u)) [
  | inl p ↦ rw p (sym (plain_family t u c s p))
  | inr p ↦ rw p refl
]

apart : false ≢ true
apart e = cc

-- Two characters below 128, compared by their cases.
ascii_family :
    (t : CaseTables) (u : Bool) (c d : ℕ)
    → IsCaseTable t u
    → c < 128
    → d < 128
    → contains (family (λ x. next t x u) c) d ≡ (c == d || (letter c && (swap_case c == d)))
unfolding contains
ascii_family t u c d s h k = elim (Bool-cases (plain_ascii c u)) [
  | inr p ↦ special_family t u c d s h k p
  | inl p ↦ elim (Bool-cases (letter c)) [
    | inl l ↦
        let e : family (λ x. next t x u) c ≡ c ∷ swap_case c ∷ c ∷ c ∷ [] =
          plain_family t u c s p ∙ (rw l refl) in
        rw (e, l)
          elim (Bool-cases (c == d)) [
            | inl q ↦ rw q refl
            | inr q ↦ elim (Bool-cases (swap_case c == d)) [
              | inl r ↦ rw (q, r) refl
              | inr r ↦ rw (q, r) refl
            ]
          ]
    | inr l ↦
        let e : family (λ x. next t x u) c ≡ c ∷ c ∷ c ∷ c ∷ [] =
          plain_family t u c s p ∙ (rw l refl) in
        rw (e, l) elim (Bool-cases (c == d)) [ inl q ↦ rw q refl | inr q ↦ rw q refl ]
  ]
]

-- With tables that step around cycles and that treat ASCII letters as their two cases, `equal` says
-- whether the second character is among the equivalents that the table gives for the first:
-- its tests that need no table agree with the table.
pub equal-family :
    (t : CaseTables) (u : Bool) (c d : ℕ)
    → IsCaseTable t u
    → equal t c d u ≡ contains (family (λ x. next t x u) c) d
unfolding equal
equal-family t u c d s = elim (Bool-cases (c == d)) [
  | inl q ↦
      let e : d ≡ c = ground arith in rw q (sym (Reaches-contains (λ x. next t x u) c d (inl e)))
  | inr q ↦ elim (Bool-cases (ltb c 128 && ltb d 128)) [
    | inl b ↦ rw (q, b) (sym (ascii_family t u c d s (ground arith) (ground arith) ∙ (rw q refl)))
    | inr b ↦ rw (q, b, equivalents-family t u c s) refl
  ]
]

-- With such tables, `equal` is symmetric.
pub equal-equal :
    (t : CaseTables) (u : Bool) (c d : ℕ) → IsCaseTable t u → equal t c d u ≡ equal t d c u
equal-equal t u c d s =
    rw (equal-family t u c d s, equal-family t u d c s)
      elim (Bool-cases (contains (family (λ x. next t x u) c) d)) [
        | inl a ↦
            a
            ∙ sym (
                Reaches-contains (λ x. next t x u) d c
                  (Reaches-back (λ x. next t x u) c d s.cyclic
                    (contains-Reaches (λ x. next t x u) c d a)))
        | inr a ↦ elim (Bool-cases (contains (family (λ x. next t x u) d) c)) [
          | inl b ↦ absurd (
              apart (
                sym a
                ∙ Reaches-contains (λ x. next t x u) c d
                    (Reaches-back (λ x. next t x u) d c s.cyclic
                      (contains-Reaches (λ x. next t x u) d c b))))
          | inr b ↦ a ∙ sym b
        ]
      ]
