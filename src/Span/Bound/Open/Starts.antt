-- ===== src/Span/Bound/Open/Starts.antt =====
-- Where `new` and `retarget` of src/span/bound.rs make a reader start.
use perex.Base.{ℕ, ◌-◌, ◌≤◌, ◌<◌, ◌≡◌, refl, ap, arith, false, not, List, leb, ◌==◌, Bool-cases}
use perex.Base.{inl, inr, length, take, drop, some, ret, Run}
use mathlib.Core.Path.{subst}
use perex.Input.View.{Input, Cursor, Layout, half_bit, mark}
use perex.Input.Stands.{CursorAt}
use perex.Input.Seek.{resume_cursor, seek_work}
use perex.Input.Seek.Start.{Holds, cursor_at-StartsAt, resume_cursor-mark}
use perex.Binding.{Acquired, ok, view}
use perex.Span.{Span, is_empty}
use perex.Span.Bound.{Reader, Read, done}
use perex.Span.Bound.Open.{
  new, new_in, reader_from, first_position, nearer_end, retarget, retarget_in, retargeted, chosen,
  choose, left_by, abs_diff,
}
use perex.Span.Bound.Steps.{ReaderAt, from, left}

-- A reader of the whole of a span that has delivered nothing.
pub record Fresh (input : Input) (us : List ℕ) (span : Span) (r : Reader) : Type 0 where
  pub unit : ℕ
  pub at : ReaderAt input us r unit
  pub over : r.span ≡ span
  pub completes : r.complete ≡ is_empty span
  pub all : left us r unit ≡ take (span.end - span.start) (drop span.start us)

pub record Opens (E X : Type 0) (input : Input) (us : List ℕ) (span : Span)
    (run : Run (Read E X Reader)) : Type 0 where
  pub reader : Reader
  pub returns : run ≡ ret (done reader)
  pub fresh : Fresh input us span reader

nearer_end-le :
    (us : List ℕ) (input : Input) (span : Span) → Holds input us → nearer_end input span ≤ length us
unfolding nearer_end
nearer_end-le us input span held = ground (arith, held.counted)

first_position-le :
    (input : Input) (span : Span)
    → span.start ≤ input.utf16_len
    → first_position input span ≤ input.utf16_len
unfolding first_position nearer_end
first_position-le input span h = ground arith

left_whole :
    (us : List ℕ) (r : Reader) (i : ℕ)
    → r.seeking ≡ not (i == r.span.start)
    → left us r i ≡ take (r.span.end - r.span.start) (drop r.span.start us)
left_whole us r i h =
    let e : from r i ≡ r.span.start = ground (arith, h) in
    ap (λ n. take (r.span.end - n) (drop n us)) e

abbrev begun : Span → Cursor → ℕ → Reader
begun span c n = record {
  span = span;
  mark = mark c;
  seeking = not (n == span.start);
  complete = is_empty span;
  failed = false;
}

begun-Fresh :
    (input : Input) (us : List ℕ) (span : Span) (c : Cursor) (n : ℕ)
    → c.input ≡ input
    → CursorAt c us n
    → span.start ≤ span.end
    → span.end ≤ length us
    → Fresh input us span (begun span c n)
begun-Fresh input us span c n same at order fits = record {
  unit = n;
  at = record {
    cursor = c;
    over = same;
    saved = refl;
    at = at;
    live = refl;
    order = order;
    fits = fits;
    inside = λ h. (ground arith, ground arith);
  };
  over = refl;
  completes = refl;
  all = left_whole us (begun span c n) n refl;
}

-- A reader for a span of the subject starts, on the view of it that any witness gives, at the
-- span's start or with a seek to it, and has all of the span's units left to deliver.
pub new-Opens :
    (E X : Type 0) (input : Input) (us : List ℕ) (span : Span) (layout : Layout)
    (acquired : Acquired E)
    → Holds input us
    → view layout acquired ≡ ok input
    → span.start ≤ span.end
    → span.end ≤ length us
    → Opens E X input us span (new span layout acquired)
unfolding new new_in reader_from
new-Opens E X input us span layout acquired held sees order fits =
    let n = first_position input span in
    let small : n ≤ length us =
      subst (λ m. n ≤ m) held.counted
        (first_position-le input span (omega (arith, held.counted))) in
    let s = cursor_at-StartsAt input us n held small in
    record {
      reader = begun span s.start n;
      returns = rw sees (ground (arith, s.returns, held.counted));
      fresh = begun-Fresh input us span s.start n s.same s.at order fits;
    }

record Chosen (us : List ℕ) (input : Input) (span : Span) (current : Cursor) : Type 0 where
  unit : ℕ
  cursor : Cursor
  returns : chosen input span current ≡ ret (some cursor)
  same : cursor.input ≡ input
  at : CursorAt cursor us unit

chosen_lem :
    (us : List ℕ) (input : Input) (span : Span) (current : Cursor) (i : ℕ)
    → Holds input us
    → span.start ≤ length us
    → current.input ≡ input
    → CursorAt current us i
    → Chosen us input span current
unfolding chosen
chosen_lem us input span current i held h same at =
    elim (Bool-cases (seek_work input span.start == 1)) [
      | inl direct ↦
          let s = cursor_at-StartsAt input us span.start held h in
          record {
            unit = span.start;
            cursor = s.start;
            returns = rw direct s.returns;
            same = s.same;
            at = s.at;
          }
      | inr scan ↦
          let t =
            leb (abs_diff current.utf16_offset span.start)
              (abs_diff (nearer_end input span) span.start) in
          elim (Bool-cases t) [
            | inl near ↦ record {
              unit = i;
              cursor = current;
              returns = rw (scan, near) refl;
              same = same;
              at = at;
            }
            | inr far ↦
                let n = nearer_end input span in
                let s = cursor_at-StartsAt input us n held (nearer_end-le us input span held) in
                record {
                  unit = n;
                  cursor = s.start;
                  returns = rw (scan, far) s.returns;
                  same = s.same;
                  at = s.at;
                }
          ]
    ]

-- A live reader moved to another span of its subject starts as a fresh one for that span, wherever
-- it had stopped, in the middle of a seek or of a surrogate pair included.
pub retarget-Fresh :
    (E X : Type 0) (input : Input) (us : List ℕ) (r : Reader) (i : ℕ) (span : Span)
    (layout : Layout) (acquired : Acquired E)
    → ReaderAt input us r i
    → Holds input us
    → view layout acquired ≡ ok input
    → span.start ≤ span.end
    → span.end ≤ length us
    → length us < half_bit
    → (s : Reader) × (retarget {E = E} {X = X} r span layout acquired ≡ ret (done s, s))
      × Fresh input us span s
unfolding retarget retarget_in retargeted choose left_by
retarget-Fresh E X input us r i span layout acquired p held sees order fits small =
    let resumed : resume_cursor input r.mark ≡ ret (some p.cursor) =
      subst (λ m. resume_cursor input m ≡ ret (some p.cursor)) p.saved
        (subst (λ s. resume_cursor s (mark p.cursor) ≡ ret (some p.cursor)) p.over
          (resume_cursor-mark us p.cursor i p.at small)) in
    let c = chosen_lem us input span p.cursor i held (omega arith) p.over p.at in
    (
      begun span c.cursor c.unit,
      rw (p.live, sees) (ground (arith, resumed, c.returns, held.counted, c.at.unit)),
      begun-Fresh input us span c.cursor c.unit c.same c.at order fits,
    )
