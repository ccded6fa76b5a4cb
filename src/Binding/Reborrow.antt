-- ===== src/Binding/Reborrow.antt =====
-- A binding's views are the view that validation gave, for as long as the storage is the same.
use perex.Base.{
  ℕ, ◌*◌, ◌≤◌, ◌<◌, ◌≡◌, ◌≢◌, refl, sym, ap, true, false, ◌∙◌, arith, List, [], ◌∷◌, none, some,
}
use perex.Base.{Bool-cases, inl, inr, length, length-append, All, ret, ◌==◌}
use perex.Input.Scalar.Laws.{encode, point_units}
use perex.Input.View.{Input, Layout, shape, reborrow_bytes, counted, half_bit}
use perex.Input.View
use perex.Input.Stands.{IsPoint, encode_all, units_of}
use perex.Input.Seek.Start.{Holds}
use perex.Input.Validation.{Holds-counted, wtf8_lem}
use perex.Binding.{Subject, wtf8, utf16, seen, ok, err, changed_layout, BoundSubject, bound}
use perex.Binding.{new, with_view, view, same_shape, new_counted, counted_bytes}

-- The units that a well formed subject holds.
abbrev pub Logical : Subject → List ℕ → Type 0
Logical (wtf8 bs) us =
    (ps : List ℕ) × All IsPoint ps
    × (bs ≡ encode_all ps)
    × (us ≡ units_of ps)
    × (length bs < half_bit)
Logical (utf16 vs) us = vs ≡ us

-- The view of a subject of these units.
abbrev pub fresh : Subject → List ℕ → Input
fresh (wtf8 bs) us = counted bs (length us)
fresh (utf16 vs) us = View.utf16 vs

reborrow-shape :
    (bs : List ℕ) (n : ℕ) → reborrow_bytes bs (shape (counted bs n)) ≡ some (counted bs n)
unfolding reborrow_bytes shape counted
reborrow-shape bs n = elim (Bool-cases (n == length bs)) [
  | inl same ↦ rw same (ground arith)
  | inr wide ↦ rw wide (ground arith)
]

same_shape_self : (l : Layout) → same_shape l l ≡ true
unfolding same_shape
same_shape_self l = ground arith

abbrev pub binding : {S : Type 0} → S → Subject → List ℕ → BoundSubject S
binding storage s us = record { storage = storage; layout = shape (fresh s us) }

-- Binding a well formed subject succeeds, and a later view of the same contents lends the callback
-- the view that holds the subject's units.
pub new-with_view :
    {S T : Type 0} (E : Type 0) (storage : S) (s : Subject) (us : List ℕ) (f : Input → T)
    → Logical s us
    → (new {E = E} storage (seen s) ≡ ret (bound (binding storage s us)))
      × (with_view {E = E} (binding storage s us) (seen s) f ≡ ok (f (fresh s us)))
      × Holds (fresh s us) us
unfolding new with_view view
new-with_view E storage (wtf8 bs) us f (ps, all, eb, eu, fits) = (
  rw (eb, eu, wtf8_lem ps all) refl,
  rw (reborrow-shape bs (length us)) refl,
  rw eu (Holds-counted ps bs all eb fits),
)
new-with_view E storage (utf16 vs) us f e = (
  refl,
  rw (same_shape_self (shape (View.utf16 vs))) refl,
  unfold View.utf16 in record { holds = e; counted = ap (length {A = ℕ}) e },
)

shape_units :
    (xs vs : List ℕ) (n : ℕ) → same_shape (shape (View.utf16 vs)) (shape (counted xs n)) ≡ false
unfolding same_shape shape counted View.utf16
shape_units xs vs n = elim (Bool-cases (n == length xs)) [
  | inl same ↦ rw same (ground arith)
  | inr wide ↦ rw wide (ground arith)
]

reborrow_units : (bs vs : List ℕ) → reborrow_bytes bs (shape (View.utf16 vs)) ≡ none
unfolding reborrow_bytes shape View.utf16
reborrow_units bs vs = ground arith

same_shape-like :
    (us vs : List ℕ)
    → length us ≡ length vs
    → same_shape (shape (View.utf16 vs)) (shape (View.utf16 us)) ≡ true
unfolding same_shape shape View.utf16
same_shape-like us vs h = ground arith

same_shape-unlike :
    (us vs : List ℕ)
    → length us ≢ length vs
    → same_shape (shape (View.utf16 vs)) (shape (View.utf16 us)) ≡ false
unfolding same_shape shape View.utf16
same_shape-unlike us vs h = ground arith

reborrow_like :
    (xs bs : List ℕ) (n : ℕ)
    → length xs ≡ length bs
    → reborrow_bytes bs (shape (counted xs n)) ≡ some (counted bs n)
unfolding reborrow_bytes shape counted
reborrow_like xs bs n h = elim (Bool-cases (n == length xs)) [
  | inl same ↦ let q : (n == length bs) ≡ true = ground arith in rw (same, q) (ground arith)
  | inr wide ↦ let q : (n == length bs) ≡ false = ground arith in rw (wide, q) (ground arith)
]

reborrow_unlike :
    (xs bs : List ℕ) (n : ℕ)
    → length xs ≢ length bs
    → reborrow_bytes bs (shape (counted xs n)) ≡ none
unfolding reborrow_bytes shape counted
reborrow_unlike xs bs n h = elim (Bool-cases (n == length xs)) [
  | inl same ↦ rw same (ground arith)
  | inr wide ↦ rw wide (ground arith)
]

-- The other subject has the same kind of storage, and as many stored elements.
abbrev pub IsLike : Subject → Subject → Type 0
IsLike (wtf8 xs) (wtf8 bs) = length xs ≡ length bs
IsLike (wtf8 xs) (utf16 vs) = ⊥
IsLike (utf16 us) (wtf8 bs) = ⊥
IsLike (utf16 us) (utf16 vs) = length us ≡ length vs

-- The owner of a binding of a well formed subject may later show another subject: one with the same kind
-- of storage and as many stored elements is lent to the callback, under the number of units that
-- binding counted, and every other one is refused as a changed layout.
pub binding-with_view :
    {S T : Type 0} (E : Type 0) (storage : S) (s t : Subject) (us : List ℕ) (f : Input → T)
    → Logical s us
    → (new {E = E} storage (seen s) ≡ ret (bound (binding storage s us)))
      × (IsLike s t → with_view {E = E} (binding storage s us) (seen t) f ≡ ok (f (fresh t us)))
      × (¬ IsLike s t → with_view {E = E} (binding storage s us) (seen t) f ≡ err changed_layout)
unfolding with_view view
binding-with_view E storage (wtf8 xs) (wtf8 bs) us f h = (
  (new-with_view E storage (wtf8 xs) us f h).0,
  (λ same. rw (reborrow_like xs bs (length us) same) refl),
  (λ other. rw (reborrow_unlike xs bs (length us) other) refl),
)
binding-with_view E storage (wtf8 xs) (utf16 vs) us f h = (
  (new-with_view E storage (wtf8 xs) us f h).0,
  (λ same. absurd same),
  (λ other. rw (shape_units xs vs (length us)) refl),
)
binding-with_view E storage (utf16 ws) (wtf8 bs) us f h = (
  (new-with_view E storage (utf16 ws) us f h).0,
  (λ same. absurd same),
  (λ other. rw (reborrow_units bs ws) refl),
)
binding-with_view E storage (utf16 ws) (utf16 vs) us f h = (
  (new-with_view E storage (utf16 ws) us f h).0,
  (λ same. rw (same_shape-like ws vs same) refl),
  (λ other. rw (same_shape-unlike ws vs other) refl),
)

length_bounds :
    (ps : List ℕ)
    → All IsPoint ps
    → (length (units_of ps) ≤ length (encode_all ps))
      × (length (encode_all ps) ≤ length (units_of ps) * 3)
unfolding encode
length_bounds [] all = omega arith
length_bounds (p ∷ ps) all = ground (
  arith,
  length_bounds ps all.1,
  length-append (encode p) (encode_all ps),
  length-append (point_units p) (units_of ps),
)

counted_bytes-shape :
    (bs : List ℕ) (n : ℕ)
    → n ≤ length bs
    → length bs ≤ n * 3
    → counted_bytes bs n ≡ some (shape (counted bs n))
unfolding counted_bytes shape counted
counted_bytes-shape bs n lo hi = elim (Bool-cases (n == length bs)) [
  | inl same ↦ rw same (ground arith)
  | inr wide ↦ rw wide (ground arith)
]

new_counted_lem :
    {S : Type 0} (E : Type 0) (storage : S) (s : Subject) (us : List ℕ)
    → Logical s us
    → new_counted {E = E} storage (length us) (seen s) ≡ bound (binding storage s us)
unfolding new_counted
new_counted_lem E storage (wtf8 bs) us (ps, all, eb, eu, fits) =
    let (lo, hi) = length_bounds ps all in
    let lu : length us ≡ length (units_of ps) = ap (length {A = ℕ}) eu in
    let lb : length bs ≡ length (encode_all ps) = ap (length {A = ℕ}) eb in
    rw (counted_bytes-shape bs (length us) (omega arith) (omega arith)) refl
new_counted_lem E storage (utf16 vs) us e =
    let h : (length vs == length us) ≡ true = ground (arith, ap (length {A = ℕ}) e) in rw h refl

-- Where the host's count is right, `new_counted` makes the binding that `new` makes.
pub new_counted-eq-new :
    {S : Type 0} (E : Type 0) (storage : S) (s : Subject) (us : List ℕ)
    → Logical s us
    → new {E = E} storage (seen s) ≡ ret (new_counted storage (length us) (seen s))
new_counted-eq-new E storage s us h =
    (new-with_view E storage s us (λ i. i) h).0
    ∙ ap (λ b. ret b) (sym (new_counted_lem E storage s us h))
