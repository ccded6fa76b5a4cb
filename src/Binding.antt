-- ===== src/Binding.antt =====
-- src/binding.rs: a subject validated once for an owner whose storage may move.
-- The owner is host code. What one call of its `with_subject` gives is an argument, `Acquired`:
-- the owner's own error, or the storage that the callback sees.
pub mod Reborrow
use perex.Base.{
  ℕ, ◌*◌, Bool, List, Option, none, some, leb, ◌==◌, if◌then◌else◌, ◌&&◌, not, length, Run, ret,
  ◌>>=◌,
}
use perex.Input.Scalar.{EncodingError, Checked}
use perex.Input.Scalar
use perex.Input.View.{Input, Layout, shape, reborrow_bytes}
use perex.Input.View

pub data Subject : Type 0 where
  wtf8 : List ℕ → Subject
  utf16 : List ℕ → Subject

pub data Acquired (E : Type 0) : Type 0 where
  refused : E → Acquired E
  seen : Subject → Acquired E

pub data SubjectError (E : Type 0) : Type 0 where
  resource : E → SubjectError E
  encoding : EncodingError → SubjectError E
  changed_layout : SubjectError E

-- `Result<A, SubjectError<E>>`.
pub data Viewed {ℓ} (E : Type 0) (A : Type ℓ) : Type ℓ where
  ok : A → Viewed E A
  err : SubjectError E → Viewed E A

-- `BoundSubject`, and `BindingError`, which gives the storage back.
pub record BoundSubject (S : Type 0) : Type 0 where
  pub storage : S
  pub layout : Layout

pub data Binding (S E : Type 0) : Type 0 where
  bound : BoundSubject S → Binding S E
  unbound : S → SubjectError E → Binding S E

unfoldable pub same_shape : Layout → Layout → Bool
same_shape a b = a.kind == b.kind && a.len == b.len && a.utf16_len == b.utf16_len

-- `utf16_len.saturating_mul(3)` meets its bound only above every slice's length.
counted_bytes : List ℕ → ℕ → Option Layout
counted_bytes bs utf16_len =
    if leb utf16_len (length bs) && leb (length bs) (utf16_len * 3)
    then some (record {
      kind = if not (utf16_len == length bs) then 1 else 0;
      len = length bs;
      utf16_len = utf16_len;
    })
    else none

module _ {E : Type 0} where
  checked_layout : Checked Input → Viewed E Layout
  checked_layout (Scalar.ok i) = ok (shape i)
  checked_layout (Scalar.err e) = err (encoding e)

  layout_of : Acquired E → Run (Viewed E Layout)
  layout_of (refused e) = ret (err (resource e))
  layout_of (seen (wtf8 bs)) = View.wtf8 bs >>= (λ i. ret (checked_layout i))
  layout_of (seen (utf16 us)) = ret (ok (shape (View.utf16 us)))

  bind : {S : Type 0} → S → Viewed E Layout → Binding S E
  bind storage (ok layout) = bound (record { storage = storage; layout = layout })
  bind storage (err e) = unbound storage e

  unfoldable pub new : {S : Type 0} → S → Acquired E → Run (Binding S E)
  unfolding layout_of checked_layout bind
  new storage acquired = layout_of acquired >>= (λ layout. ret (bind storage layout))

  view_or_changed : Option Input → Viewed E Input
  view_or_changed none = err changed_layout
  view_or_changed (some i) = ok i

  -- The input that `with_view` lends to its callback.
  unfoldable pub view : Layout → Acquired E → Viewed E Input
  unfolding view_or_changed same_shape
  view layout (refused e) = err (resource e)
  view layout (seen (wtf8 bs)) = view_or_changed (reborrow_bytes bs layout)
  view layout (seen (utf16 us)) =
      view_or_changed
        (if same_shape (shape (View.utf16 us)) layout then some (View.utf16 us) else none)

  with_input {ℓ} : {T : Type ℓ} → Viewed E Input → (Input → T) → Viewed E T
  with_input (ok i) f = ok (f i)
  with_input (err e) f = err e

  unfoldable pub with_view {ℓ} :
      {S : Type 0} {T : Type ℓ} → BoundSubject S → Acquired E → (Input → T) → Viewed E T
  unfolding with_input
  with_view b acquired f = with_input (view b.layout acquired) f

  counted_layout : Option Layout → Viewed E Layout
  counted_layout none = err changed_layout
  counted_layout (some layout) = ok layout

  counted_of : Acquired E → ℕ → Viewed E Layout
  counted_of (refused e) utf16_len = err (resource e)
  counted_of (seen (wtf8 bs)) utf16_len = counted_layout (counted_bytes bs utf16_len)
  counted_of (seen (utf16 us)) utf16_len =
      counted_layout (if length us == utf16_len then some (shape (View.utf16 us)) else none)

  unfoldable pub new_counted : {S : Type 0} → S → ℕ → Acquired E → Binding S E
  unfolding counted_of counted_layout counted_bytes bind
  new_counted storage utf16_len acquired = bind storage (counted_of acquired utf16_len)

unfoldable pub into_storage : {S : Type 0} → BoundSubject S → S
into_storage b = b.storage
