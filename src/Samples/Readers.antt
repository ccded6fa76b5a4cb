-- ===== src/Samples/Readers.antt =====
-- Bindings of the sample text, and readers of the surrogate pair in it.
use perex.Base.{ℕ, suc, List, [], ◌∷◌, ◌≡◌, ◌≤◌, ◌<◌, refl, arith, true, false, some, none}
use perex.Base.{Option, ret, take, drop}
use perex.Samples.{sample_points, sample_bytes, sample_units, sample_input}
use perex.Samples.Views.{small, all_points, sample-Split, sample-Holds, sample_encoded}
use perex.Budget.{Budget}
use perex.Input.Scalar.{high_surrogate, low_surrogate}
use perex.Input.View.{Input, Layout, Cursor, mark, counted, reborrow_bytes}
use perex.Input.Stands.{whole, CursorAt}
use perex.Input.Seek.Start.{Holds}
use perex.Binding.{Acquired, seen, wtf8, ok, err, changed_layout, bound, new, with_view, view}
use perex.Binding.{new_counted}
use perex.Binding.Reborrow.{
  Logical, fresh, binding, new-with_view, binding-with_view, IsLike, new_counted-eq-new,
}
use perex.Span.{Span, SpanUnits, units, len}
use perex.Span.Units.{collect, units-collect}
use perex.Span.Bound.{Reader, done, fails, failed, try_fold}
use perex.Span.Bound.Outcome.{Called, poison, try_fold-Called}
use perex.Span.Bound.Loops.{pure_consumer}
use perex.Span.Bound.Steps.{ReaderAt, Advanced}
use perex.Span.Bound.Fold.{try_fold-Advanced}
use perex.Span.Bound.Calls.{Call, calls, calls-Advanced}
use perex.Span.Bound.Open.{retarget}
use perex.Span.Bound.Open
use perex.Span.Bound.Open.Starts.{Fresh, Opens, new-Opens, retarget-Fresh}

abbrev text_layout : Layout
text_layout = record { kind = 1; len = 7; utf16_len = 4 }

abbrev acquired_text : {E : Type 0} → Acquired E
acquired_text = seen (wtf8 sample_bytes)

sees_text : view {E = ℕ} text_layout acquired_text ≡ ok sample_input
unfolding view reborrow_bytes
sees_text = refl

-- The pair's span.
abbrev pair_span : Span
pair_span = record { start = 2; end = 4 }

abbrev text_start : Cursor
text_start = record { input = sample_input; offset = 0; utf16_offset = 0 }

text_start-CursorAt : CursorAt text_start sample_units 0
text_start-CursorAt = record {
  stands = (small, whole [] sample_points sample-Split refl refl);
  unit = refl;
  counted = refl;
}

-- It seeks from the text's start.
abbrev pair_reader : Reader
pair_reader = record {
  span = pair_span;
  mark = record { offset = 0; units = 0 };
  seeking = true;
  complete = false;
  failed = false;
}

pair_reader-ReaderAt : ReaderAt sample_input sample_units pair_reader 0
unfolding mark
pair_reader-ReaderAt = record {
  cursor = text_start;
  over = refl;
  saved = refl;
  at = text_start-CursorAt;
  live = refl;
  order = omega arith;
  fits = omega arith;
  inside = λ h. absurd (ground arith);
}

abbrev push : List ℕ → ℕ → List ℕ
push us u = u ∷ us

abbrev five : Budget
five = record { remaining = 5 }

-- Three units of work seek to the pair and deliver its first half.
try_fold-Advanced_example :
    Advanced {E = ℕ} {X = ℕ} sample_input sample_units push pair_reader 0 3 1 five [] false
      (try_fold (pure_consumer push) 3 text_layout acquired_text pair_reader five [])
try_fold-Advanced_example =
    try_fold-Advanced ℕ ℕ sample_units 3 push sample_input text_layout acquired_text pair_reader 0
      five [] pair_reader-ReaderAt sees_text refl (omega arith) (omega arith) (omega arith)

-- It takes one unit, and refuses the next.
take_one : List ℕ → ℕ → List ℕ × Option ℕ
take_one [] u = (u ∷ [], none)
take_one (v ∷ vs) u = (v ∷ vs, some u)

-- The first half of the pair is taken and the second refused, with one unit of the budget left.
try_fold-Called_example :
    Called {E = ℕ} sample_units sample_input take_one 9 pair_reader 0 five []
      (try_fold take_one 9 text_layout acquired_text pair_reader five [])
    × ((again : List ℕ → ℕ → List ℕ × Option ℕ) (m : ℕ) (l : Layout) (q : Acquired ℕ) (b : Budget)
          (a : List ℕ)
        → try_fold again m l q (poison pair_reader) b a
          ≡ ret
              (record { result = fails failed; reader = poison pair_reader; budget = b; acc = a }))
try_fold-Called_example =
    try_fold-Called sample_units sample_input take_one 9 pair_reader 0 five [] text_layout
      acquired_text pair_reader-ReaderAt sees_text refl (omega arith) (omega arith)

abbrev call : ℕ → Call ℕ
call n = record { quantum = n; acquired = acquired_text }

-- One unit of work, then three, are one call with four.
calls-Advanced_example :
    Advanced {E = ℕ} {X = ℕ} sample_input sample_units push pair_reader 0 4 2 five [] true
      (calls push text_layout (call 1) (call 3 ∷ []) pair_reader five [])
calls-Advanced_example =
    calls-Advanced ℕ ℕ sample_units push sample_input text_layout (call 1) (call 3 ∷ []) pair_reader
      0 five [] pair_reader-ReaderAt (omega arith, sees_text) ((omega arith, sees_text), tt) refl
      (omega arith) (omega arith)

new-Opens_example :
    Opens ℕ ℕ sample_input sample_units pair_span (Open.new pair_span text_layout acquired_text)
new-Opens_example =
    new-Opens ℕ ℕ sample_input sample_units pair_span text_layout acquired_text sample-Holds
      sees_text (omega arith) (omega arith)

retarget-Fresh_example :
    (s : Reader) × (retarget {E = ℕ} {X = ℕ} pair_reader
        (record { start = 1; end = 3 })
        text_layout
        acquired_text
      ≡ ret (done s, s))
    × Fresh sample_input sample_units (record { start = 1; end = 3 }) s
retarget-Fresh_example =
    retarget-Fresh ℕ ℕ sample_input sample_units pair_reader 0 (record { start = 1; end = 3 })
      text_layout acquired_text pair_reader-ReaderAt sample-Holds sees_text (omega arith)
      (omega arith) (omega arith)

units-collect_example :
    (4 ≤ 4
      → (u : SpanUnits) × (units pair_span sample_input ≡ ret (some u))
        × (u.remaining ≡ len pair_span)
        × (collect (suc (len pair_span)) u ≡ ret (take (len pair_span) (drop 2 sample_units))))
    × (4 < 4 → units pair_span sample_input ≡ ret none)
units-collect_example = units-collect sample_input sample_units pair_span sample-Holds (omega arith)

text-Logical : Logical (wtf8 sample_bytes) sample_units
unfolding high_surrogate low_surrogate
text-Logical = (sample_points, all_points, sample_encoded, refl, small)

-- What stands for the storage's owner.
abbrev owner : ℕ
owner = 7

abbrev last_unit : Input → ℕ
last_unit i = i.utf16_len

new-with_view_example :
    (new {E = ℕ} owner acquired_text ≡ ret (bound (binding owner (wtf8 sample_bytes) sample_units)))
    × (with_view {E = ℕ} (binding owner (wtf8 sample_bytes) sample_units) acquired_text last_unit
        ≡ ok 4)
    × Holds (fresh (wtf8 sample_bytes) sample_units) sample_units
unfolding counted
new-with_view_example =
    new-with_view ℕ owner (wtf8 sample_bytes) sample_units last_unit text-Logical

binding-with_view_example :
    (new {E = ℕ} owner (seen (wtf8 sample_bytes))
      ≡ ret (bound (binding owner (wtf8 sample_bytes) sample_units)))
    × (IsLike (wtf8 sample_bytes) (wtf8 (0x61 ∷ []))
        → with_view {E = ℕ}
            (binding owner (wtf8 sample_bytes) sample_units)
            (seen (wtf8 (0x61 ∷ [])))
            last_unit
          ≡ ok (last_unit (fresh (wtf8 (0x61 ∷ [])) sample_units)))
    × (¬ IsLike (wtf8 sample_bytes) (wtf8 (0x61 ∷ []))
        → with_view {E = ℕ}
            (binding owner (wtf8 sample_bytes) sample_units)
            (seen (wtf8 (0x61 ∷ [])))
            last_unit
          ≡ err changed_layout)
binding-with_view_example =
    binding-with_view ℕ owner (wtf8 sample_bytes) (wtf8 (0x61 ∷ [])) sample_units last_unit
      text-Logical

new_counted-eq-new_example :
    new {E = ℕ} owner acquired_text ≡ ret (new_counted owner 4 acquired_text)
new_counted-eq-new_example =
    new_counted-eq-new ℕ owner (wtf8 sample_bytes) sample_units text-Logical
