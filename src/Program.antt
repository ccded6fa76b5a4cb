-- ===== src/Program.antt =====
-- `Program` of src/program.rs: the words of a compiled program, and the accessors that the literal
-- executor reads. A word has 32 bits; `w & (1 << k) != 0` is `w / 2 ^ k % 2 == 1`.
use perex.Base.{
  ℕ, ◌+◌, ◌*◌, ◌/◌, ◌%◌, ◌^◌, ◌-◌, min, Bool, true, List, Option, none, some, ltb, if◌then◌else◌,
  ◌==◌, get_elem?, Run, ret, panic, ◌>>=◌, or_panic, leb, zero, suc, take, drop, length,
}

pub record Program : Type 0 where
  pub words : List ℕ

-- The opcodes that a literal program is made of.
abbrev pub match_op : ℕ
match_op = 0

abbrev pub char_op : ℕ
char_op = 1

abbrev pub save_op : ℕ
save_op = 4

abbrev pub start_op : ℕ
start_op = 7

abbrev pub header : ℕ
header = 11

-- An index into the words.
abbrev pub word : Program → ℕ → Run ℕ
word p at = or_panic (get_elem? p.words at)

unfoldable pub capture_count : Program → Run ℕ
capture_count p = word p 3

unfoldable pub instructions : Program → Run ℕ
instructions p = word p 4

unfoldable pub unicode : Program → Run Bool
unicode p = word p 2 >>= (λ flags. ret (flags % 2 == 1))

unfoldable pub has_literal_prefix : Program → Run Bool
has_literal_prefix p = word p 7 >>= (λ w. ret (w / 0x4000000 % 2 == 1))

unfoldable pub filters_start : Program → Run ℕ
filters_start p = word p 4 >>= (λ count.
    word p 5
    >>= (λ ranges. word p 6 >>= (λ repeats. ret (header + count * 3 + ranges * 2 + repeats * 8))))

unfoldable pub filter_word : Program → ℕ → Run ℕ
filter_word p at = filters_start p >>= (λ start. word p (start + at))

unfoldable pub names_start : Program → Run ℕ
names_start p = filters_start p >>= (λ start. word p 10 >>= (λ filters. ret (start + filters)))

unfoldable pub name_count : Program → Run ℕ
name_count p =
    word p 2 >>= (λ flags. if flags / 32 % 2 == 0 then ret 0 else names_start p >>= word p)

-- The capture slots of a name, where there is one of that index.
named_captures : Program → ℕ → Run (List ℕ)
named_captures p at = word p at >>= (λ units. word p (at + 1) >>= (λ members.
    word p (at + 2) >>= (λ start.
      let end : ℕ = start + (units + 1) / 2 in
      if leb (end + members) (length p.words)
      then ret (take members (drop end p.words))
      else panic)))

-- `named_group(index)`, and `capture_indices` of what it gives.
unfoldable pub capture_indices : Program → ℕ → Run (Option (List ℕ))
unfolding named_captures
capture_indices p index = name_count p >>= (λ count.
    if ltb index count
    then names_start p
      >>= (λ start. named_captures p (start + 1 + index * 3) >>= (λ cs. ret (some cs)))
    else ret none)

-- How many `SAVE`s the program begins with, of its first 128 instructions; `n` are to go.
saves_from : Program → ℕ → ℕ → Run ℕ
saves_from p zero pc = ret pc
saves_from p (suc n) pc =
    let rest = saves_from p n (suc pc) in
    word p (header + pc * 3) >>= (λ op. if op == save_op then rest else ret pc)

unfoldable pub leading_pc : Program → Run ℕ
unfolding saves_from
leading_pc p = instructions p >>= (λ count. saves_from p (min count 128) 0)

unfoldable pub end_bound : Program → Run (Option ℕ)
end_bound p =
    word p 8 >>= (λ w. ret (if w / 0x1000000 == 0 then none else some (w / 0x1000000 - 1)))

unfoldable pub first_descriptor : Program → Run ℕ
first_descriptor p = word p 7 >>= (λ w. ret (w % 0x1000000))

-- Whether a group's member survived the operators around it.
unfoldable pub admits : Program → ℕ → ℕ → Run Bool
admits p filter index =
    if filter == 0
    then ret true
    else filter_word p (filter - 1 + index / 32) >>= (λ w. ret (w / 2 ^ (index % 32) % 2 == 1))

-- The set, and the group where the instruction is about one.
unfoldable pub sequence_group : ℕ → ℕ × Option ℕ
sequence_group a = (a % 256, if a / 256 == 255 then none else some (a / 256))

-- The bucket of a character in a first-character mask.
unfoldable pub first_bucket : ℕ → ℕ
first_bucket c = if ltb c 128 then c % 32 % 24 else 24 + min (c / 8192) 7

-- The three words of an instruction; the slice panics where one is beyond the end.
unfoldable pub instruction : Program → ℕ → Run (ℕ × ℕ × ℕ)
instruction p pc = word p (header + pc * 3) >>= (λ op.
    word p (header + pc * 3 + 1) >>= (λ a. word p (header + pc * 3 + 2) >>= (λ b. ret (op, a, b))))
