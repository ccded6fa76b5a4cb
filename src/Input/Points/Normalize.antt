-- ===== src/Input/Points/Normalize.antt =====
-- `normalize_unicode_start` leaves the middle of a pair of surrogates.
use perex.Base.{ℕ, zero, suc, ◌-◌, refl, arith, Bool, false, List, if◌then◌else◌}
use perex.Base.{get_elem?, get_elem?-some, Bool-cases, Option-cases, inl, inr}
use perex.Input.View.{Cursor}
use perex.Input.Walk.Forward.{next_unit-Reads}
use perex.Input.Walk.Backward.{previous_unit-Reads}
use perex.Input.Stands.{CursorAt, CursorAt-le, Reads}
use perex.Input.Points.{normalize_unicode_start}
use perex.Input.Points.Backward.{pairs}

-- Whether position `i` lies between the two halves of a pair.
abbrev pub in_pair : List ℕ → ℕ → Bool
in_pair us zero = false
in_pair us (suc i) = pairs (get_elem? us i) (get_elem? us (suc i))

-- `normalize_unicode_start` moves back one unit exactly in the middle of a pair of surrogates,
-- says whether it did, and otherwise leaves the cursor where it is. It never panics.
pub normalize_unicode_start-Reads :
    (us : List ℕ) (c : Cursor) (i : ℕ)
    → CursorAt c us i
    → Reads Bool us c (if in_pair us i then i - 1 else i) (in_pair us i) (normalize_unicode_start c)
unfolding normalize_unicode_start
normalize_unicode_start-Reads us c zero p =
    let r = previous_unit-Reads us c zero p in
    record { after = c; returns = ground (arith, r.returns); same = refl; at = p }
normalize_unicode_start-Reads us c (suc i) p =
    let r = previous_unit-Reads us c (suc i) p in
    let f = next_unit-Reads us c (suc i) p in
    let (u, here) = get_elem?-some us i (omega (arith, CursorAt-le us c (suc i) p)) in
    elim (Bool-cases (in_pair us (suc i))) [
      | inl inner ↦ record {
        after = r.after;
        returns = ground (arith, r.returns, f.returns);
        same = r.same;
        at = rw inner r.at;
      }
      | inr outer ↦ record {
        after = c;
        returns = ground (arith, r.returns, f.returns, Option-cases (get_elem? us (suc i)));
        same = refl;
        at = rw outer p;
      }
    ]
