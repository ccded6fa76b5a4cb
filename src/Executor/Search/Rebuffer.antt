-- ===== src/Executor/Search/Rebuffer.antt =====
-- New buffers for a search of src/executor.rs: what is live stays.
use perex.Base.{
  ℕ, zero, suc, ◌≤◌, ◌<◌, ◌≡◌, ◌≢◌, refl, arith, List, [], ◌∷◌, ◌++◌, Option, none, some, true,
  false, ◌⊎◌, ◌+◌, ltb, ◌||◌,
}
use perex.Base.{
  get_elem?, take, drop, length, length-append, length-drop, Run, ret, Bool-cases, inl, inr,
}
use perex.Executor.State.{ExecError, registers_of}
use perex.Executor.Search.{
  Search, Scratch, ScratchRequirements, required_scratch, Rebuffered, rebuffered, refused, rebuffer,
  copied, moved, is_frames, is_undo,
}

module _ {ℓ} {A : Type ℓ} where
  length-take : (n : ℕ) (xs : List A) → n ≤ length xs → length (take n xs) ≡ n
  length-take zero xs h = refl
  length-take (suc n) [] h = absurd (omega arith)
  length-take (suc n) (x ∷ xs) h = omega (arith, length-take n xs (omega arith))

  get_elem?-take :
      (n i : ℕ) (xs ys : List A)
      → i < n
      → n ≤ length xs
      → get_elem? (take n xs ++ ys) i ≡ get_elem? xs i
  get_elem?-take zero i xs ys h k = absurd (omega arith)
  get_elem?-take (suc n) i [] ys h k = absurd (omega arith)
  get_elem?-take (suc n) zero (x ∷ xs) ys h k = refl
  get_elem?-take (suc n) (suc i) (x ∷ xs) ys h k =
      get_elem?-take n i xs ys (omega arith) (omega arith)

  length-copied :
      (n : ℕ) (source target : List A)
      → n ≤ length source
      → n ≤ length target
      → length (copied n source target) ≡ length target
  length-copied n source target h k = omega (
    arith,
    length-append (take n source) (drop n target),
    length-take n source h,
    length-drop n target,
  )

-- The first `n` places read as before.
abbrev pub SameTo {ℓ} : {A : Type ℓ} → ℕ → List A → List A → Type ℓ
SameTo n xs ys = (i : ℕ) → i < n → get_elem? xs i ≡ get_elem? ys i

-- The buffer has room for what is live, and for one more where the search has asked for that.
abbrev pub IsRoom : Option ExecError → ExecError → ℕ → ℕ → Type 0
IsRoom blocked wanted live size = (live ≤ size) × (blocked ≡ some wanted → live < size)

-- What the search has live: its registers, its frames and its journal.
pub record Keeps (s after : Search) (target : Scratch) (count : ℕ) : Type 0 where
  pub registers : SameTo count after.buffers.registers s.buffers.registers
  pub frames : SameTo s.state.frames after.buffers.frames s.buffers.frames
  pub journal : SameTo s.state.undo after.buffers.undo s.buffers.undo
  pub shape : after.shape ≡ s.shape
  pub budget : after.budget ≡ s.budget
  pub state : after.state ≡ record s.state { blocked = none }
  pub room :
      (length after.buffers.registers ≡ length target.registers)
      × (length after.buffers.frames ≡ length target.frames)
      × (length after.buffers.undo ≡ length target.undo)
  pub enough :
      (count ≤ length after.buffers.registers)
      × IsRoom s.state.blocked ExecError.frames s.state.frames (length after.buffers.frames)
      × IsRoom s.state.blocked ExecError.undo s.state.undo (length after.buffers.undo)

-- The old buffers still hold what is live.
abbrev pub IsHeld : Search → ℕ → Type 0
IsHeld s count =
    (count ≤ length s.buffers.registers)
    × (s.state.frames ≤ length s.buffers.frames)
    × (s.state.undo ≤ length s.buffers.undo)

-- How the call ends: with the live state in the new buffers, or with the search and the buffers as they
-- were, because a new buffer lacks room or the old ones have lost what was live.
pub data Rebuffers (s : Search) (target : Scratch) (count : ℕ) : Run Rebuffered → Type 0 where
  keeping :
      (after : Search)
      → Keeps s after target count
      → Rebuffers s target count (ret (rebuffered after))
  few_registers :
      length target.registers < count
      → Rebuffers s target count (ret (refused ExecError.registers s target))
  few_frames :
      ¬ IsRoom s.state.blocked ExecError.frames s.state.frames (length target.frames)
      → Rebuffers s target count (ret (refused ExecError.frames s target))
  few_undo :
      ¬ IsRoom s.state.blocked ExecError.undo s.state.undo (length target.undo)
      → Rebuffers s target count (ret (refused ExecError.undo s target))
  lost :
      ¬ IsHeld s count
      → Rebuffers s target count (ret (refused ExecError.changed_resources s target))

is_frames-cases :
    (b : Option ExecError)
    → ((b ≡ some ExecError.frames) × (is_frames b ≡ 1))
      ⊎ ((b ≢ some ExecError.frames) × (is_frames b ≡ 0))
unfolding is_frames
is_frames-cases b = ground arith

is_undo-cases :
    (b : Option ExecError)
    → ((b ≡ some ExecError.undo) × (is_undo b ≡ 1)) ⊎ ((b ≢ some ExecError.undo) × (is_undo b ≡ 0))
unfolding is_undo
is_undo-cases b = ground arith

module _ (b : Option ExecError) (wanted : ExecError) (one live size : ℕ)
    (cases : ((b ≡ some wanted) × (one ≡ 1)) ⊎ ((b ≢ some wanted) × (one ≡ 0))) where
  fits-IsRoom : ltb size (live + one) ≡ false → IsRoom b wanted live size
  fits-IsRoom h = elim cases [
    | inl (e, f) ↦ (ground arith, λ g. ground arith)
    | inr (e, f) ↦ (ground arith, λ g. absurd (e g))
  ]

  lacks-IsRoom : ltb size (live + one) ≡ true → ¬ IsRoom b wanted live size
  lacks-IsRoom h (le, lt) = elim cases [
    | inl (e, f) ↦ let l : live < size = lt e in ground arith
    | inr (e, f) ↦ ground arith
  ]

-- Moving to buffers with room keeps what is live.
moved-Keeps :
    (s : Search) (target : Scratch) (need : ScratchRequirements)
    → need.registers ≤ length target.registers
    → IsRoom s.state.blocked ExecError.frames s.state.frames (length target.frames)
    → IsRoom s.state.blocked ExecError.undo s.state.undo (length target.undo)
    → IsHeld s need.registers
    → Keeps s (moved s target need) target need.registers
unfolding moved
moved-Keeps s target need l1 (l2, m2) (l3, m3) (r1, r2, r3) =
    let e1 : length (copied need.registers s.buffers.registers target.registers)
        ≡ length target.registers =
      length-copied need.registers s.buffers.registers target.registers r1 l1 in
    let e2 : length (copied s.state.frames s.buffers.frames target.frames) ≡ length target.frames =
      length-copied s.state.frames s.buffers.frames target.frames r2 l2 in
    let e3 : length (copied s.state.undo s.buffers.undo target.undo) ≡ length target.undo =
      length-copied s.state.undo s.buffers.undo target.undo r3 l3 in
    record {
      registers = λ i k.
          get_elem?-take need.registers i s.buffers.registers (drop need.registers target.registers)
            k r1;
      frames = λ i k.
          get_elem?-take s.state.frames i s.buffers.frames (drop s.state.frames target.frames) k r2;
      journal =
          λ i k. get_elem?-take s.state.undo i s.buffers.undo (drop s.state.undo target.undo) k r3;
      shape = refl;
      budget = refl;
      state = refl;
      room = (e1, e2, e3);
      enough = (
        omega arith,
        (omega arith, λ g. let q = m2 g in omega arith),
        (omega arith, λ g. let q = m3 g in omega arith),
      );
    }

-- `rebuffer` keeps the live registers, frames and journal entries, the budget and the whole state but
-- for the request, and leaves room for what was requested. It gives the search and the buffers back
-- unchanged only where a new buffer has no room for what is live, or for one more frame or entry
-- where that is what the search is blocked on, or where the old buffers do not hold what is live.
pub rebuffer-Rebuffers :
    (s : Search) (target : Scratch) (count : ℕ)
    → registers_of s.shape ≡ ret count
    → Rebuffers s target count (rebuffer s target)
unfolding rebuffer required_scratch
rebuffer-Rebuffers s target count h =
    let fc = is_frames-cases s.state.blocked in
    let uc = is_undo-cases s.state.blocked in
    let need : ScratchRequirements = record {
      registers = count;
      frames = s.state.frames + is_frames s.state.blocked;
      undo = s.state.undo + is_undo s.state.blocked;
    } in
    elim (Bool-cases (ltb (length target.registers) count)) [
      | inl a ↦ rw (h, a) (few_registers (ground arith))
      | inr a ↦
          elim (Bool-cases
            (ltb (length target.frames) (s.state.frames + is_frames s.state.blocked))) [
              | inl b ↦ rw (h, a, b) (few_frames (lacks-IsRoom _ _ _ _ _ fc b))
              | inr b ↦
                  elim (Bool-cases
                    (ltb (length target.undo) (s.state.undo + is_undo s.state.blocked))) [
                      | inl c ↦ rw (h, a, b, c) (few_undo (lacks-IsRoom _ _ _ _ _ uc c))
                      | inr c ↦
                          elim (Bool-cases (
                            ltb (length s.buffers.registers) count
                            || ltb (length s.buffers.frames) s.state.frames
                            || ltb (length s.buffers.undo) s.state.undo)) [
                              | inl d ↦ rw (h, a, b, c, d) (lost (λ (x, y, z). ground arith))
                              | inr d ↦
                                  rw (h, a, b, c, d)
                                    (keeping _ (
                                      moved-Keeps s target need (ground arith)
                                        (fits-IsRoom _ _ _ _ _ fc b) (fits-IsRoom _ _ _ _ _ uc c)
                                        (ground arith, ground arith, ground arith)))
                            ]
                    ]
            ]
    ]
