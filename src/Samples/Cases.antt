-- ===== src/Samples/Cases.antt =====
-- A case table of the ASCII letters alone, a table of one property and one of two sequences.
use perex.Base.{
  ℕ, zero, suc, ◌+◌, ◌-◌, ◌==◌, ◌≤◌, ◌<◌, ◌≡◌, refl, ◌∙◌, arith, List, [], ◌∷◌, true, false,
  if◌then◌else◌, Bool, ◌||◌, ap, ◌⊎◌,
}
use perex.Base.{Bool-cases, inl, inr, ret}
use perex.Unicode.Search.{partition_point, bit}
use perex.Unicode.Casefold
use perex.Unicode.Casefold.{CaseTables, next, equal, family, within}
use perex.Unicode.Casefold.Family.{IsCaseTable, IsCyclic, equal-family, equal-equal}
use perex.Unicode.Properties.{PropertyTables, contains}
use perex.Unicode.Properties.Intervals.{in_intervals, contains-in_intervals}
use perex.Unicode.Sequences.{SequenceTables, entry, partition}
use perex.Unicode.Sequences.Ordered.{IsOrdered, Bounds, partition-Bounds}

-- Of the two tables the rows on the ASCII letters, the long s and the Kelvin sign.
abbrev letters : CaseTables
letters = record {
  legacy =
      record { first = 65; last = 90; even = 32; odd = 32 }
      ∷ record { first = 97; last = 122; even = 0xffff_ffe0; odd = 0xffff_ffe0 }
      ∷ [];
  unicode =
      record { first = 65; last = 90; even = 32; odd = 32 }
      ∷ record { first = 97; last = 106; even = 0xffff_ffe0; odd = 0xffff_ffe0 }
      ∷ record { first = 107; last = 108; even = 8383; odd = 0xffff_ffe0 }
      ∷ record { first = 109; last = 114; even = 0xffff_ffe0; odd = 0xffff_ffe0 }
      ∷ record { first = 115; last = 116; even = 268; odd = 0xffff_ffe0 }
      ∷ record { first = 117; last = 122; even = 0xffff_ffe0; odd = 0xffff_ffe0 }
      ∷ record { first = 0x17f; last = 0x17f; even = 0xffff_fed4; odd = 0xffff_fed4 }
      ∷ record { first = 0x212a; last = 0x212a; even = 0xffff_df21; odd = 0xffff_df21 }
      ∷ [];
}

abbrev step_of : ℕ → ℕ
step_of c =
    if within 65 90 c
    then c + 32
    else if c == 107
    then 0x212a
    else if c == 115
    then 0x17f
    else if within 97 122 c
    then c - 32
    else if c == 0x17f
    then 83
    else if c == 0x212a
    then 75
    else c

next-letters : (c : ℕ) → next letters c true ≡ step_of c
unfolding next partition_point
next-letters c = ground arith

-- The characters of the two cycles of three.
abbrev in_three : ℕ → Bool
in_three c = c == 75 || c == 83 || c == 107 || c == 115 || c == 0x17f || c == 0x212a

in_three-cases :
    (c : ℕ)
    → in_three c ≡ true
    → (c ≡ 75) ⊎ ((c ≡ 83) ⊎ ((c ≡ 107) ⊎ ((c ≡ 115) ⊎ ((c ≡ 0x17f) ⊎ (c ≡ 0x212a)))))
in_three-cases c h = ground arith

step_of-upper : (c : ℕ) → within 65 90 c ≡ true → step_of c ≡ c + 32
step_of-upper c h = ground arith

step_of-lower : (c : ℕ) → in_three c ≡ false → within 97 122 c ≡ true → step_of c ≡ c - 32
step_of-lower c h k = ground arith

step_of-other :
    (c : ℕ) → in_three c ≡ false → within 65 90 c ≡ false → within 97 122 c ≡ false → step_of c ≡ c
step_of-other c h k l = ground arith

step_of-IsCyclic : IsCyclic step_of
step_of-IsCyclic c = elim (Bool-cases (in_three c)) [
  | inl t ↦ inr (
      inr (
        inl (elim (in_three-cases c t) [
          | inl e ↦ rw e refl
          | inr (inl e) ↦ rw e refl
          | inr (inr (inl e)) ↦ rw e refl
          | inr (inr (inr (inl e))) ↦ rw e refl
          | inr (inr (inr (inr (inl e)))) ↦ rw e refl
          | inr (inr (inr (inr (inr e)))) ↦ rw e refl
        ])))
  | inr t ↦ elim (Bool-cases (within 65 90 c)) [
    | inl a ↦
        let b : step_of (c + 32) ≡ c + 32 - 32 =
          step_of-lower (c + 32) (ground arith) (ground arith) in
        inr (inl (ap step_of (step_of-upper c a) ∙ b ∙ omega arith))
    | inr a ↦ elim (Bool-cases (within 97 122 c)) [
      | inl b ↦
          let d : step_of (c - 32) ≡ c - 32 + 32 = step_of-upper (c - 32) (ground arith) in
          let e : c - 32 + 32 ≡ c = ground arith in
          inr (inl (ap step_of (step_of-lower c t b) ∙ d ∙ e))
      | inr b ↦ inl (step_of-other c t a b)
    ]
  ]
]

letters-IsCyclic : IsCyclic (λ c. next letters c true)
letters-IsCyclic c =
    rw
      (
        next-letters c,
        next-letters (step_of c),
        next-letters (step_of (step_of c)),
        next-letters (step_of (step_of (step_of c))),
      )
      (step_of-IsCyclic c)

letters-IsCaseTable : IsCaseTable letters true
letters-IsCaseTable = record {
  cyclic = letters-IsCyclic;
  upper = λ c a b. next-letters c ∙ ground arith;
  lower = λ c a b h. next-letters c ∙ ground arith;
  others = λ c h. next-letters c ∙ ground arith;
  kelvin = λ e. (next-letters 107, next-letters 0x212a);
  long_s = λ e. (next-letters 115, next-letters 0x17f);
}

equal-family_example :
    equal letters 0x6b 0x212a true
    ≡ Casefold.contains (family (λ x. next letters x true) 0x6b) 0x212a
equal-family_example = equal-family letters true 0x6b 0x212a letters-IsCaseTable

equal-equal_example : equal letters 0x6b 0x212a true ≡ equal letters 0x212a 0x6b true
equal-equal_example = equal-equal letters true 0x6b 0x212a letters-IsCaseTable

-- One property, of an interval of Greek letters.
abbrev greek : PropertyTables
greek = record {
  rows = (0 ∷ 2 ∷ 0 ∷ 0 ∷ 0 ∷ 0 ∷ []) ∷ [];
  category = [];
  bounds = 0x3b1 ∷ 0x3ca ∷ [];
  id_start = 0;
  id_continue = 0;
}

contains-in_intervals_example :
    contains greek 0 0x3b5 ≡ ret (in_intervals (0x3b1 ∷ 0x3ca ∷ []) 0x3b5)
unfolding bit
contains-in_intervals_example =
    contains-in_intervals greek 0 0x3b5 0 2 0 0 0 0 (0x3b1 ∷ 0x3ca ∷ []) refl (omega arith) refl
      refl (omega arith, (omega arith, tt))

-- One group of two members of two characters.
abbrev flags : SequenceTables
flags = record {
  sets = [];
  groups = [];
  index = 0x200000 ∷ 0x200002 ∷ [];
  points = 10 ∷ 30 ∷ 20 ∷ 40 ∷ [];
  longest = 2;
}

first_of_flag : ℕ → ℕ
first_of_flag zero = 10
first_of_flag (suc i) = 20

rest_of_flag : ℕ → List ℕ
rest_of_flag zero = 30 ∷ []
rest_of_flag (suc i) = 40 ∷ []

each_flag : (i : ℕ) → 0 ≤ i → i < 2 → entry flags i ≡ ret (first_of_flag i ∷ rest_of_flag i)
unfolding entry first_of_flag rest_of_flag
each_flag zero a b = refl
each_flag (suc zero) a b = refl
each_flag (suc (suc i)) a b = absurd (omega arith)

flags_order : (i j : ℕ) → 0 ≤ i → i ≤ j → j < 2 → first_of_flag i ≤ first_of_flag j
unfolding first_of_flag
flags_order zero zero a b c = omega arith
flags_order zero (suc j) a b c = omega arith
flags_order (suc i) zero a b c = absurd (omega arith)
flags_order (suc i) (suc j) a b c = omega arith

flags-IsOrdered : IsOrdered flags first_of_flag 0 2
flags-IsOrdered = record { rest = rest_of_flag; entries = each_flag; order = flags_order }

partition-Bounds_example : Bounds first_of_flag 20 0 2 (partition flags 0 2 20)
partition-Bounds_example = partition-Bounds 20 0 2 flags first_of_flag flags-IsOrdered (omega arith)
