-- ===== src/Span/Units.antt =====
-- The iterator of a span yields the span's units.
use perex.Base.{
  ℕ, zero, suc, ◌+◌, ◌-◌, ◌≤◌, ◌<◌, ◌≡◌, refl, arith, List, [], ◌∷◌, Option, none, some,
}
use perex.Base.{length, get_elem?-some, drop-get_elem?, take, drop, Run, ret, stuck, ◌>>=◌}
use perex.Input.View.{Input, Cursor}
use perex.Input.Walk.Forward.{next_unit-Reads}
use perex.Input.Stands.{CursorAt}
use perex.Input.Bytes.{unit_after}
use mathlib.Core.Path.{subst}
use perex.Input.Seek.Start.{Holds, cursor_at-StartsAt}
use perex.Span.{Span, SpanUnits, units, units_from, len, next, next_left, next_with}

-- What a `for` loop over the iterator sees: `next` until it answers `None`.
collect_from : (SpanUnits → Run (List ℕ)) → Option ℕ × SpanUnits → Run (List ℕ)
collect_from rest (none, u) = ret []
collect_from rest (some unit, u) = rest u >>= (λ more. ret (unit ∷ more))

unfoldable pub collect : ℕ → SpanUnits → Run (List ℕ)
unfolding collect_from
collect zero u = stuck
collect (suc fuel) u = next u >>= collect_from (collect fuel)

collect_lem :
    (us : List ℕ) (n fuel i : ℕ) (c : Cursor)
    → CursorAt c us i
    → i + n ≤ length us
    → n < fuel
    → collect fuel (record { cursor = c; remaining = n }) ≡ ret (take n (drop i us))
unfolding collect collect_from next next_left next_with
collect_lem us zero zero i c p h f = absurd (omega arith)
collect_lem us (suc n) zero i c p h f = absurd (omega arith)
collect_lem us zero (suc fuel) i c p h f = refl
collect_lem us (suc n) (suc fuel) i c p h f =
    let r = next_unit-Reads us c i p in
    let (u, here) = get_elem?-some us i (omega arith) in
    let e : unit_after us i ≡ suc i = ground arith in
    let at : CursorAt r.after us (suc i) = subst (CursorAt r.after us) e r.at in
    rw
      (
        r.returns,
        here,
        collect_lem us n fuel (suc i) r.after at (omega arith) (omega arith),
        drop-get_elem? us i here,
      )
      refl

-- A span inside the subject has an iterator that yields exactly the units of the span, in order,
-- and whose announced length is right; a span that ends beyond the subject has none.
pub units-collect :
    (input : Input) (us : List ℕ) (s : Span)
    → Holds input us
    → s.start ≤ s.end
    → (s.end ≤ length us
        → (u : SpanUnits) × (units s input ≡ ret (some u))
          × (u.remaining ≡ len s)
          × (collect (suc (len s)) u ≡ ret (take (len s) (drop s.start us))))
      × (length us < s.end → units s input ≡ ret none)
unfolding units units_from len
units-collect input us s h order = (inside, λ beyond. ground (arith, h.counted))
  where
    inside :
        s.end ≤ length us
        → (u : SpanUnits) × (units s input ≡ ret (some u))
          × (u.remaining ≡ len s)
          × (collect (suc (len s)) u ≡ ret (take (len s) (drop s.start us)))
    inside fits =
        let c = cursor_at-StartsAt input us s.start h (omega arith) in
        (
          record { cursor = c.start; remaining = s.end - s.start },
          ground (arith, h.counted, c.returns),
          refl,
          collect_lem us (s.end - s.start) (suc (s.end - s.start)) s.start c.start c.at
              (omega arith) (omega arith),
        )
