-- ===== src/Samples/Literals.antt =====
-- A literal program run on the sample text.
use perex.Base.{ℕ, List, [], ◌∷◌, ◌≡◌, refl, arith, true, some, ret}
use perex.Samples.{sample_input, sample_units}
use perex.Samples.Views.{sample-Holds}
use perex.Budget.{Budget}
use perex.Program.{Program, instructions, unicode, instruction, capture_count}
use perex.Input.Scalar.{is_high, is_low}
use perex.Literal.{find, found, eligible, is_char}
use perex.Literal.Eligible.{eligible-IsLiteral}
use perex.Literal.Answers.{IsLiteral, find-answer}

-- `/^aé/u`.
abbrev prefix_program : Program
prefix_program = record {
  words =
      0x50525831 ∷ 16 ∷ 1 ∷ 1 ∷ 6 ∷ 0 ∷ 0 ∷ 0x4000000 ∷ 0 ∷ 0 ∷ 0 ∷ 4 ∷ 0 ∷ 0 ∷ 7 ∷ 0 ∷ 0 ∷ 1 ∷ 0x61
      ∷ 0 ∷ 1 ∷ 0xe9 ∷ 0 ∷ 4 ∷ 1 ∷ 0 ∷ 0 ∷ 0 ∷ 0 ∷ [];
}

prefix_program-eligible : eligible prefix_program ≡ ret true
unfolding eligible instructions instruction capture_count
prefix_program-eligible = refl

prefix_program-IsLiteral : IsLiteral prefix_program true (0x61 ∷ 0xe9 ∷ [])
unfolding instructions unicode instruction capture_count
prefix_program-IsLiteral = record {
  mode = refl;
  count = refl;
  captures = refl;
  opens = refl;
  anchor = (0, 0, refl);
  chars = ((0, refl), ((0, refl), tt));
  closes = refl;
  matches = (0, 0, refl);
}

abbrev ten : Budget
ten = record { remaining = 10 }

find-answer_example :
    (b : Budget) × (find prefix_program sample_input 0 ten
      ≡ ret (found (some (record { start = 0; end = 2 })), b))
unfolding is_high is_low is_char
find-answer_example =
    find-answer prefix_program true (0x61 ∷ 0xe9 ∷ []) sample_units sample_input 0 ten
      prefix_program-IsLiteral sample-Holds (omega arith)

eligible-IsLiteral_example : (cs : List ℕ) × IsLiteral prefix_program true cs
eligible-IsLiteral_example =
    eligible-IsLiteral prefix_program true prefix_program-IsLiteral.mode prefix_program-eligible
