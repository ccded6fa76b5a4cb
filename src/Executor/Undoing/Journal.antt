-- ===== src/Executor/Undoing/Journal.antt =====
-- What the frames and the journal of src/executor.rs stand for: a stack of register files, one for
-- each frame, as they were when it was pushed.
use perex.Base.{ℕ, zero, suc, ◌-◌, ◌≤◌, ◌<◌, ◌≡◌, refl, ap, ◌∙◌, arith, List, [], ◌∷◌, none, some}
use perex.Base.{
  length, get_elem?, set, get_elem?-set, get_elem?-set_ne, length-set, set-set, Option-cases,
  Bool-cases, inl, inr, ltb, ltb→lt,
}
use perex.Executor.State.{Frame, Undo}

-- The registers after the last `n` of `u` entries are undone.
abbrev pub rewind : List Undo → List ℕ → ℕ → ℕ → List ℕ
rewind j rs u zero = rs
rewind j rs zero (suc n) = rs
rewind j rs (suc u) (suc n) = elim (get_elem? j u) [
  | none ↦ rs
  | some old ↦ rewind j (set rs old.slot old.value) u n
]

-- The registers that `n` frames saved, the last one first, of a journal with `u` entries.
abbrev pub saved : List Frame → List Undo → List ℕ → ℕ → ℕ → List (List ℕ)
saved fs j rs u zero = []
saved fs j rs u (suc n) = elim (get_elem? fs n) [
  | none ↦ []
  | some frame ↦
      let before : List ℕ = rewind j rs u (u - frame.undo) in
      before ∷ saved fs j before frame.undo n
]

-- Entries below `u` exist and name registers of a file of `k`.
abbrev pub IsJournal : List Undo → ℕ → ℕ → Type 0
IsJournal j k u = (i : ℕ) → i < u → (e : Undo) × (get_elem? j i ≡ some e) × (e.slot < k)

-- The frames' marks stand in order.
abbrev pub IsStack : List Frame → ℕ → ℕ → Type 0
IsStack fs u zero = Unit {0}
IsStack fs u (suc n) =
    (frame : Frame) × (get_elem? fs n ≡ some frame) × (frame.undo ≤ u) × IsStack fs frame.undo n

pub rewind-set :
    (j : List Undo) (rs : List ℕ) (u n i : ℕ) (e : Undo)
    → u ≤ i
    → rewind (set j i e) rs u n ≡ rewind j rs u n
rewind-set j rs u zero i e h = refl
rewind-set j rs zero (suc n) i e h = refl
rewind-set j rs (suc u) (suc n) i e h =
    let q : get_elem? (set j i e) u ≡ get_elem? j u = get_elem?-set_ne j i u e (λ d. omega arith) in
    elim (Option-cases (get_elem? j u)) [
      | inl d ↦ rw (q, d, rewind) refl
      | inr (old, d) ↦
          rw (q, d, rewind) (rewind-set j (set rs old.slot old.value) u n i e (omega arith))
    ]

pub saved-set :
    (fs : List Frame) (j : List Undo) (rs : List ℕ) (u n i : ℕ) (e : Undo)
    → IsStack fs u n
    → u ≤ i
    → saved fs (set j i e) rs u n ≡ saved fs j rs u n
saved-set fs j rs u zero i e s h = refl
saved-set fs j rs u (suc n) i e (frame, q, le, s) h =
    rw (q, saved) rw (rewind-set j rs u (u - frame.undo) i e h)
      (ap (λ ws. rewind j rs u (u - frame.undo) ∷ ws)
        (saved-set fs j (rewind j rs u (u - frame.undo)) frame.undo n i e s (omega arith)))

pub saved-set_frame :
    (fs : List Frame) (j : List Undo) (rs : List ℕ) (u n i : ℕ) (frame : Frame)
    → n ≤ i
    → saved (set fs i frame) j rs u n ≡ saved fs j rs u n
saved-set_frame fs j rs u zero i frame h = refl
saved-set_frame fs j rs u (suc n) i frame h =
    let q : get_elem? (set fs i frame) n ≡ get_elem? fs n =
      get_elem?-set_ne fs i n frame (λ d. omega arith) in
    elim (Option-cases (get_elem? fs n)) [
      | inl d ↦ rw (q, d, saved) refl
      | inr (f, d) ↦
          rw (q, d, saved)
            (ap (λ ws. rewind j rs u (u - f.undo) ∷ ws)
              (saved-set_frame fs j (rewind j rs u (u - f.undo)) f.undo n i frame (omega arith)))
    ]

pub IsStack-set :
    (fs : List Frame) (u n i : ℕ) (frame : Frame)
    → n ≤ i
    → IsStack fs u n
    → IsStack (set fs i frame) u n
IsStack-set fs u zero i frame h s = tt
IsStack-set fs u (suc n) i frame h (f, q, le, s) = (
  f,
  get_elem?-set_ne fs i n frame (λ d. omega arith) ∙ q,
  le,
  IsStack-set fs f.undo n i frame (omega arith) s,
)

pub IsStack-le : (fs : List Frame) (u v n : ℕ) → u ≤ v → IsStack fs u n → IsStack fs v n
IsStack-le fs u v zero h s = tt
IsStack-le fs u v (suc n) h (f, q, le, s) = (f, q, omega arith, s)

pub length-rewind : (j : List Undo) (rs : List ℕ) (u n : ℕ) → length (rewind j rs u n) ≡ length rs
length-rewind j rs u zero = refl
length-rewind j rs zero (suc n) = refl
length-rewind j rs (suc u) (suc n) = elim (Option-cases (get_elem? j u)) [
  | inl d ↦ rw (d, rewind) refl
  | inr (old, d) ↦
      rw (d, rewind)
        (length-rewind j (set rs old.slot old.value) u n ∙ length-set rs old.slot old.value)
]

-- A written register and the entry of what it was, undone first.
pub rewind-store :
    (j : List Undo) (rs : List ℕ) (u n slot old value : ℕ)
    → u < length j
    → get_elem? rs slot ≡ some old
    → rewind (set j u (record { slot = slot; value = old })) (set rs slot value) (suc u) (suc n)
      ≡ rewind j rs u n
rewind-store j rs u n slot old value h q =
    rw (get_elem?-set j u (record { slot = slot; value = old }) h, rewind) rw
      (set-set rs slot old value q)
      (rewind-set j rs u n u (record { slot = slot; value = old }) (omega arith))

pub saved-store :
    (fs : List Frame) (j : List Undo) (rs : List ℕ) (u n slot old value : ℕ)
    → IsStack fs u n
    → u < length j
    → get_elem? rs slot ≡ some old
    → saved fs (set j u (record { slot = slot; value = old })) (set rs slot value) (suc u) n
      ≡ saved fs j rs u n
saved-store fs j rs u zero slot old value s h q = refl
saved-store fs j rs u (suc n) slot old value (frame, f, le, s) h q =
    let e : Undo = record { slot = slot; value = old } in
    let k : suc u - frame.undo ≡ suc (u - frame.undo) = omega arith in
    rw (f, saved) rw k rw (rewind-store j rs u (u - frame.undo) slot old value h q)
      (ap (λ ws. rewind j rs u (u - frame.undo) ∷ ws)
        (saved-set fs j (rewind j rs u (u - frame.undo)) frame.undo n u e s le))

pub IsJournal-set :
    (j : List Undo) (k u : ℕ) (e : Undo)
    → u < length j
    → e.slot < k
    → IsJournal j k u
    → IsJournal (set j u e) k (suc u)
IsJournal-set j k u e h l s i b = elim (Bool-cases (ltb i u)) [
  | inl d ↦
      let (e2, q, k2) = s i (ltb→lt i u d) in
      (e2, get_elem?-set_ne j u i e (λ d2. ground arith) ∙ q, k2)
  | inr d ↦ let q : i ≡ u = ground arith in rw q (e, get_elem?-set j u e h, l)
]
