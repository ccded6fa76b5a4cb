-- ===== src/Literal/Eligible.antt =====
-- Which programs `eligible` of src/literal.rs lets through.
use perex.Base.{
  ℕ, zero, suc, ◌+◌, ◌-◌, ◌≤◌, ◌≡◌, refl, ap, sym, ◌∙◌, arith, Bool, true, false, List, [], ◌∷◌,
}
use perex.Base.{leb, ◌==◌, ◌&&◌, length, Run, ret, panic, stuck, ◌>>=◌, >>=-eq-ret}
use perex.Program.{Program, instructions, unicode, instruction, capture_count, char_op}
use perex.Literal.{eligible, eligible_of, both, all_chars, saves, has_op}
use perex.Literal.Answers.{Chars, IsLiteral}

both-true : (a b : Run Bool) → both a b ≡ ret true → (a ≡ ret true) × (b ≡ ret true)
unfolding both
both-true (ret true) b h = (refl, h)
both-true (ret false) b h = cc
both-true panic b h = cc
both-true stuck b h = cc

all_chars-Chars :
    (p : Program) (n pc : ℕ)
    → all_chars p n pc ≡ ret true
    → (cs : List ℕ) × (length cs ≡ n) × Chars p pc cs
unfolding all_chars
all_chars-Chars p zero pc h = ([], refl, tt)
all_chars-Chars p (suc n) pc h =
    let (first, rest) = both-true _ _ h in
    let (cs, el, chars) = all_chars-Chars p n (suc pc) rest in
    let ((op, a, b), reads, is) = >>=-eq-ret (instruction p pc) _ first in
    let e : op ≡ char_op = ground (arith, is) in
    (a ∷ cs, omega (arith, el), ((b, rw (sym e) reads), chars))

abbrev reading : ℕ → ℕ → ℕ → Run (ℕ × ℕ × ℕ)
reading op a b = ret (op, a, b)

same_instruction : {op a b x y z : ℕ} → op ≡ x → a ≡ y → b ≡ z → reading op a b ≡ reading x y z
same_instruction e f g = rw (e, f, g) refl

saves-reads :
    (p : Program) (pc slot : ℕ) → saves p pc slot ≡ ret true → instruction p pc ≡ ret (4, slot, 0)
unfolding saves
saves-reads p pc slot h =
    let ((op, a, b), reads, is) = >>=-eq-ret (instruction p pc) _ h in
    let e : op ≡ 4 = ground (arith, is) in
    let f : a ≡ slot = ground (arith, is) in
    let g : b ≡ 0 = ground (arith, is) in reads ∙ same_instruction e f g

has_op-reads :
    (p : Program) (pc wanted : ℕ)
    → has_op p pc wanted ≡ ret true
    → (a : ℕ) × (b : ℕ) × (instruction p pc ≡ ret (wanted, a, b))
unfolding has_op
has_op-reads p pc wanted h =
    let ((op, a, b), reads, is) = >>=-eq-ret (instruction p pc) _ h in
    let e : op ≡ wanted = ground (arith, is) in (a, b, reads ∙ same_instruction e refl refl)

-- What the tests of a program of so many instructions say, when they all hold.
record Tested (p : Program) (count : ℕ) : Type 0 where
  captures : capture_count p ≡ ret 1
  fits : 5 ≤ count
  opens : saves p 0 0 ≡ ret true
  anchor : has_op p 1 7 ≡ ret true
  closes : saves p (count - 2) 1 ≡ ret true
  matches : has_op p (count - 1) 0 ≡ ret true
  chars : all_chars p (count - 4) 2 ≡ ret true

eligible_of-Tested : (p : Program) (count : ℕ) → eligible_of p count ≡ ret true → Tested p count
unfolding eligible_of
eligible_of-Tested p count h =
    let (counts, t1) =
      both-true
        (capture_count p >>= (λ captures. ret (captures == 1 && leb 5 count && leb count 36))) _
        h in
    let (captures, e, small) =
      >>=-eq-ret (capture_count p) (λ captures. ret (captures == 1 && leb 5 count && leb count 36))
        counts in
    let one : captures ≡ 1 = ground (arith, small) in
    let (opens, t2) = both-true (saves p 0 0) _ t1 in
    let (anchor, t3) = both-true (has_op p 1 7) _ t2 in
    let (closes, t4) = both-true (saves p (count - 2) 1) _ t3 in
    let (matches, chars) = both-true (has_op p (count - 1) 0) _ t4 in
    record {
      captures = e ∙ ap (λ n. ret n) one;
      fits = ground (arith, small);
      opens = opens;
      anchor = anchor;
      closes = closes;
      matches = matches;
      chars = chars;
    }

-- An eligible program is `^` and some characters: it saves the start of its one capture, asks for the
-- start of the subject, reads the characters, saves the end of the capture, and matches.
pub eligible-IsLiteral :
    (p : Program) (wide : Bool)
    → unicode p ≡ ret wide
    → eligible p ≡ ret true
    → (cs : List ℕ) × IsLiteral p wide cs
unfolding eligible
eligible-IsLiteral p wide mode h =
    let (count, reads, tests) = >>=-eq-ret (instructions p) (eligible_of p) h in
    let t = eligible_of-Tested p count tests in
    let (cs, el, all) = all_chars-Chars p (count - 4) 2 t.chars in
    let fits : 5 ≤ count = t.fits in
    let sum : count ≡ length cs + 4 = omega (arith, fits, el) in
    let two : count - 2 ≡ length cs + 2 = omega (arith, fits, el) in
    let one : count - 1 ≡ length cs + 3 = omega (arith, fits, el) in
    (
      cs,
      record {
        mode = mode;
        count = reads ∙ ap (λ n. ret n) sum;
        captures = t.captures;
        opens = saves-reads p 0 0 t.opens;
        anchor = has_op-reads p 1 7 t.anchor;
        chars = all;
        closes = rw (sym two) (saves-reads p (count - 2) 1 t.closes);
        matches = rw (sym one) (has_op-reads p (count - 1) 0 t.matches);
      },
    )
