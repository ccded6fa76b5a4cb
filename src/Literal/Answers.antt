-- ===== src/Literal/Answers.antt =====
-- What `find` of src/literal.rs answers, against the subject's units.
use perex.Base.{
  ℕ, suc, ◌+◌, ◌-◌, ◌≤◌, ◌<◌, ◌≡◌, refl, ap, ◌∙◌, arith, Bool, true, false, List, [], ◌∷◌, Option,
  none, some,
}
use perex.Base.{
  ◌==◌, if◌then◌else◌, ◌&&◌, ◌||◌, Bool-cases, Option-cases, get_elem?-none, get_elem?-some,
  All-get_elem?, inl, inr, length, get_elem?, All, ret, ◌>>=◌,
}
use perex.Budget.{Budget, charge}
use perex.Program.{Program, capture_count, instructions, unicode, instruction, char_op}
use mathlib.Core.Path.{subst}
use perex.Input.Scalar.{is_high, is_low}
use perex.Input.View.{Storage, ascii, bytes, units, Input, Cursor, ascii_bytes, ascii_of, cursor}
use perex.Input.Stands.{Stands, CursorAt, Reads, IsAscii, whole}
use perex.Input.Bytes.{unit_after}
use perex.Input.Walk.Forward.{next_unit-Reads}
use perex.Input.Points.Forward.{point_at, point_end, next_point-Reads}
use perex.Input.Points.Normalize.{in_pair, normalize_unicode_start-Reads}
use perex.Input.Seek.{cursor_at}
use perex.Input.Seek.Start.{HoldsIn, Holds, cursor_at-StartsAt, cursor_at_beyond}
use perex.Span.{Span, new}
use perex.Literal.{
  Compared, differs, equal, found, is_char, read, cursor_loop, cursor_paid, ascii_loop, ascii_paid,
  reaches_start, normalized, concluded, find, find_cursor, find_paid, find_in, find_ascii,
}

-- What one read of the subject gives, and where it ends.
abbrev pub item_at : Bool → List ℕ → ℕ → Option ℕ
item_at wide us i = if wide then point_at us i else get_elem? us i

abbrev pub item_end : Bool → List ℕ → ℕ → ℕ
item_end wide us i = if wide then point_end us i else unit_after us i

-- Where the rest ends, if the item that was read is the wanted character.
abbrev pub when_char : Option ℕ → ℕ → Option ℕ → Option ℕ
when_char none c rest = none
when_char (some item) c rest = if item == c then rest else none

-- Where the characters end when the subject has them from a position on.
abbrev pub follow : Bool → List ℕ → ℕ → List ℕ → Option ℕ
follow wide us i [] = some i
follow wide us i (c ∷ cs) =
    let rest = follow wide us (item_end wide us i) cs in when_char (item_at wide us i) c rest

-- The same, with the test that the loops make.
abbrev tested : Bool → List ℕ → ℕ → List ℕ → Option ℕ
tested wide us i [] = some i
tested wide us i (c ∷ cs) =
    let rest = tested wide us (item_end wide us i) cs in
    if is_char (item_at wide us i) c then rest else none

when_char-is_char :
    (item : Option ℕ) (c : ℕ) (rest : Option ℕ)
    → (if is_char item c then rest else none) ≡ when_char item c rest
unfolding is_char
when_char-is_char none c rest = refl
when_char-is_char (some item) c rest = refl

tested-eq-follow :
    (wide : Bool) (us : List ℕ) (i : ℕ) (cs : List ℕ) → tested wide us i cs ≡ follow wide us i cs
tested-eq-follow wide us i [] = refl
tested-eq-follow wide us i (c ∷ cs) =
    when_char-is_char (item_at wide us i) c (tested wide us (item_end wide us i) cs)
    ∙ ap (when_char (item_at wide us i) c) (tested-eq-follow wide us (item_end wide us i) cs)

-- The instructions from `pc` on are these characters.
abbrev pub Chars : Program → ℕ → List ℕ → Type 0
Chars p pc [] = Unit {0}
Chars p pc (c ∷ cs) = ((b : ℕ) × (instruction p pc ≡ ret (char_op, c, b))) × Chars p (suc pc) cs

abbrev compared : Option ℕ → Compared
compared none = differs
compared (some end) = equal end

charge_one :
    (b : Budget) → 0 < b.remaining → charge b 1 ≡ (record { remaining = b.remaining - 1 }, true)
unfolding charge
charge_one b h = ground arith

read-Reads :
    (wide : Bool) (us : List ℕ) (c : Cursor) (i : ℕ)
    → CursorAt c us i
    → Reads (Option ℕ) us c (item_end wide us i) (item_at wide us i) (read wide c)
read-Reads true us c i p = next_point-Reads us c i p
read-Reads false us c i p = next_unit-Reads us c i p

cursor_loop-tested :
    (p : Program) (wide : Bool) (us cs : List ℕ) (pc i : ℕ) (c : Cursor) (budget : Budget)
    → CursorAt c us i
    → Chars p pc cs
    → length cs ≤ budget.remaining
    → (b : Budget) × (cursor_loop p wide (length cs) pc c budget
        ≡ ret (compared (tested wide us i cs), b))
unfolding cursor_loop cursor_paid
cursor_loop-tested p wide us [] pc i c budget at chars fits =
    (budget, ap (λ n. ret (equal n, budget)) at.unit)
cursor_loop-tested p wide us (ch ∷ cs) pc i c budget at ((b, here), chars) fits =
    let r = read-Reads wide us c i at in
    let less : Budget = record { remaining = budget.remaining - 1 } in
    let (left, rest) =
      cursor_loop-tested p wide us cs (suc pc) (item_end wide us i) r.after less r.at chars
        (omega arith) in
    elim (Bool-cases (is_char (item_at wide us i) ch)) [
      | inl same ↦ (left, rw (charge_one budget (omega arith), here, r.returns, same) rest)
      | inr other ↦ (less, rw (charge_one budget (omega arith), here, r.returns, other) refl)
    ]

normalized_lem :
    (input : Input) (us : List ℕ)
    → Holds input us
    → (cursor_at input 1 >>= normalized) ≡ ret (in_pair us 1)
unfolding normalized
normalized_lem input [] held = rw (cursor_at_beyond input [] 1 held (omega arith)) refl
normalized_lem input (u ∷ us) held =
    let s = cursor_at-StartsAt input (u ∷ us) 1 held (omega arith) in
    let r = normalize_unicode_start-Reads (u ∷ us) s.start 1 s.at in
    rw (s.returns, r.returns) (ap (λ b. ret b) (moved r.after r.at.unit))
  where
    moved :
        (c : Cursor)
        → c.utf16_offset ≡ (if in_pair (u ∷ us) 1 then 0 else 1)
        → (c.utf16_offset == 0) ≡ in_pair (u ∷ us) 1
    moved c e = ground (arith, e)

reaches_start_lem :
    (input : Input) (us : List ℕ) (start : ℕ) (wide : Bool)
    → Holds input us
    → reaches_start input start wide ≡ ret (start == 0 || (start == 1 && wide && in_pair us 1))
unfolding reaches_start
reaches_start_lem input us start wide held =
    let e = normalized_lem input us held in
    elim (Bool-cases (start == 0)) [
      | inl first ↦ rw first refl
      | inr later ↦ elim (Bool-cases (start == 1 && wide)) [
        | inl one ↦ rw (later, one, e) refl
        | inr other ↦ rw (later, other) refl
      ]
    ]

item_ascii :
    (wide : Bool) (us : List ℕ) (i : ℕ)
    → All IsAscii us
    → (item_at wide us i ≡ get_elem? us i) × (i < length us → item_end wide us i ≡ suc i)
unfolding is_high
item_ascii false us i all = (refl, λ h. ground arith)
item_ascii true us i all = elim (Option-cases (get_elem? us i)) [
  | inl none_here ↦ (rw none_here refl, λ h. let (u, here) = get_elem?-some us i h in cc)
  | inr (u, here) ↦
      let ascii_unit : u < 0x80 = All-get_elem? IsAscii us i all here in
      elim (Option-cases (get_elem? us (suc i))) [
        | inl last ↦ (rw (here, last) refl, λ h. rw (here, last) (omega arith))
        | inr (v, next) ↦ (rw (here, next) (ground arith), λ h. rw (here, next) (ground arith))
      ]
]

is_char-lt : (us : List ℕ) (i c : ℕ) → is_char (get_elem? us i) c ≡ true → i < length us
unfolding is_char
is_char-lt us i c h = ground (arith, get_elem?-none us i)

ascii_loop-tested :
    (p : Program) (wide : Bool) (us cs : List ℕ) (i : ℕ) (budget : Budget)
    → All IsAscii us
    → Chars p (i + 2) cs
    → length cs ≤ budget.remaining
    → (b : Budget) × (ascii_loop p us (length cs) i budget
        ≡ ret (compared (tested wide us i cs), b))
unfolding ascii_loop ascii_paid
ascii_loop-tested p wide us [] i budget all chars fits = (budget, refl)
ascii_loop-tested p wide us (ch ∷ cs) i budget all ((b, here), chars) fits =
    let less : Budget = record { remaining = budget.remaining - 1 } in
    let (item, end) = item_ascii wide us i all in
    let e : suc (i + 2) ≡ suc i + 2 = omega arith in
    let (left, rest) =
      ascii_loop-tested p wide us cs (suc i) less all (subst (λ k. Chars p k cs) e chars)
        (omega arith) in
    elim (Bool-cases (is_char (get_elem? us i) ch)) [
      | inl same ↦ (
        left,
        rw (charge_one budget (omega arith), here, item, same, end (is_char-lt us i ch same)) rest,
      )
      | inr other ↦ (less, rw (charge_one budget (omega arith), here, item, other) refl)
    ]

abbrev pub spanned : Option ℕ → Option Span
spanned none = none
spanned (some end) = some (record { start = 0; end = end })

-- The answer: a match is at the subject's start only, and the search finds it from there or, where
-- code points are matched, from inside a first pair of surrogates.
abbrev pub answer : Bool → List ℕ → ℕ → List ℕ → Option Span
answer wide us start cs =
    if start == 0 || (start == 1 && wide && in_pair us 1)
    then spanned (follow wide us 0 cs)
    else none

-- A program of `^` and these characters: with one capture, whose start it saves, then the anchor, the
-- characters, the save of the capture's end, and the match.
pub record IsLiteral (p : Program) (wide : Bool) (cs : List ℕ) : Type 0 where
  pub mode : unicode p ≡ ret wide
  pub count : instructions p ≡ ret (length cs + 4)
  pub captures : capture_count p ≡ ret 1
  pub opens : instruction p 0 ≡ ret (4, 0, 0)
  pub anchor : (a : ℕ) × (b : ℕ) × (instruction p 1 ≡ ret (7, a, b))
  pub chars : Chars p 2 cs
  pub closes : instruction p (length cs + 2) ≡ ret (4, 1, 0)
  pub matches : (a : ℕ) × (b : ℕ) × (instruction p (length cs + 3) ≡ ret (0, a, b))

concluded_lem : (o : Option ℕ) (b : Budget) → concluded (compared o, b) ≡ ret (found (spanned o), b)
unfolding concluded new
concluded_lem none b = refl
concluded_lem (some end) b = ground arith

cursor-CursorAt : (input : Input) (us : List ℕ) → Holds input us → CursorAt (cursor input) us 0
unfolding cursor
cursor-CursorAt input us held = record {
  stands = go input.storage held.holds;
  unit = refl;
  counted = held.counted;
}
  where
    go : (s : Storage) → HoldsIn s us → Stands s us 0 0
    go (ascii bs) (eb, small) = (eb, small, refl, omega arith)
    go (units vs) eb = (eb, refl, omega arith)
    go (bytes bs) (fits, (ps, split)) = (fits, whole [] ps split refl refl)

find_cursor-answer :
    (p : Program) (wide : Bool) (cs us : List ℕ) (input : Input) (start : ℕ) (budget : Budget)
    → IsLiteral p wide cs
    → Holds input us
    → length cs ≤ budget.remaining
    → (b : Budget) × (find_cursor p input start budget ≡ ret (found (answer wide us start cs), b))
unfolding find_cursor cursor
find_cursor-answer p wide cs us input start budget lit held fits =
    let e : length cs + 4 - 4 ≡ length cs = omega arith in
    let reaches = reaches_start_lem input us start wide held in
    let (left, loops) =
      cursor_loop-tested p wide us cs 2 0 (cursor input) budget (cursor-CursorAt input us held)
        lit.chars fits in
    let follows = loops ∙ ap (λ o. ret (compared o, left)) (tested-eq-follow wide us 0 cs) in
    elim (Bool-cases (start == 0 || (start == 1 && wide && in_pair us 1))) [
      | inl here ↦ (
        left,
        rw (lit.mode, reaches, here, lit.count, e, follows)
            (concluded_lem (follow wide us 0 cs) left),
      )
      | inr nowhere ↦ (budget, rw (lit.mode, reaches, nowhere) refl)
    ]

ascii_in_pair : (us : List ℕ) → All IsAscii us → in_pair us 1 ≡ false
unfolding is_high is_low
ascii_in_pair [] all = refl
ascii_in_pair (u ∷ []) all = ground (arith, all.0)
ascii_in_pair (u ∷ v ∷ us) all = ground (arith, all.0)

find_ascii-answer :
    (p : Program) (wide : Bool) (cs us : List ℕ) (start : ℕ) (budget : Budget)
    → IsLiteral p wide cs
    → All IsAscii us
    → length cs ≤ budget.remaining
    → (b : Budget) × (find_ascii p us start budget ≡ ret (found (answer wide us start cs), b))
unfolding find_ascii
find_ascii-answer p wide cs us start budget lit all fits =
    let e : length cs + 4 - 4 ≡ length cs = omega arith in
    let (left, loops) = ascii_loop-tested p wide us cs 0 budget all lit.chars fits in
    let follows = loops ∙ ap (λ o. ret (compared o, left)) (tested-eq-follow wide us 0 cs) in
    elim (Bool-cases (start == 0)) [
      | inl here ↦
          (left, rw (here, lit.count, e, follows) (concluded_lem (follow wide us 0 cs) left))
      | inr later ↦ (budget, rw (later, ascii_in_pair us all) (ground arith))
    ]

-- With budget for a charge and one for each character, the executor of a literal program gives the
-- answer that the subject's units and the program's characters determine, on every representation
-- of the subject.
pub find-answer :
    (p : Program) (wide : Bool) (cs us : List ℕ) (input : Input) (start : ℕ) (budget : Budget)
    → IsLiteral p wide cs
    → Holds input us
    → length cs < budget.remaining
    → (b : Budget) × (find p input start budget ≡ ret (found (answer wide us start cs), b))
unfolding find find_paid find_in ascii_bytes ascii_of
find-answer p wide cs us input start budget lit held fits =
    rw (charge_one budget (omega arith)) (go input.storage refl held.holds)
  where
    less : Budget
    less = record { remaining = budget.remaining - 1 }

    go :
        (s : Storage)
        → input.storage ≡ s
        → HoldsIn s us
        → (b : Budget) × (find_in p input start (ascii_of s) less
            ≡ ret (found (answer wide us start cs), b))
    go (ascii bs) e (eb, small) =
        rw eb (find_ascii-answer p wide cs us start less lit small (omega arith))
    go (units vs) e h = find_cursor-answer p wide cs us input start less lit held (omega arith)
    go (bytes bs) e h = find_cursor-answer p wide cs us input start less lit held (omega arith)
