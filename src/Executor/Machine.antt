-- ===== src/Executor/Machine.antt =====
-- `Vm` of src/executor.rs, with the caller's scratch, and `ProgramSections` of src/program.rs.
use perex.Base.{ℕ, ◌*◌, List, [], ◌∷◌, Run, ret, ◌>>=◌, leb, length, if◌then◌else◌, take, drop}
use perex.Budget.{Budget}
use perex.Input.View.{Input, Cursor}
use perex.Program.{Program, header, instructions, word}
use perex.Unicode.Casefold.{CaseTables}
use perex.Unicode.Properties.{PropertyTables}
use perex.Unicode.Sequences.{SequenceTables}
use perex.Executor.State.{State, Frame, Undo}

-- The eight words of a repeat: its bounds, its flags, where its body begins and where it goes on, and
-- the captures that its body clears.
pub record Repeat : Type 0 where
  pub least : ℕ
  pub most : ℕ
  pub flags : ℕ
  pub body : ℕ
  pub exit : ℕ
  pub first_capture : ℕ
  pub end_capture : ℕ
  pub spare : ℕ

pub record Sections : Type 0 where
  pub instructions : List (ℕ × ℕ × ℕ)
  pub ranges : List (ℕ × ℕ)
  pub repeats : List Repeat

-- `as_chunks().0`, which leaves out an incomplete last chunk.
triples : List ℕ → List (ℕ × ℕ × ℕ)
triples (a ∷ b ∷ c ∷ ws) = (a, b, c) ∷ triples ws
triples _ = []

pairs : List ℕ → List (ℕ × ℕ)
pairs (a ∷ b ∷ ws) = (a, b) ∷ pairs ws
pairs _ = []

eights : List ℕ → List Repeat
eights (a ∷ b ∷ c ∷ d ∷ e ∷ f ∷ g ∷ h ∷ ws) =
    record {
      least = a;
      most = b;
      flags = c;
      body = d;
      exit = e;
      first_capture = f;
      end_capture = g;
      spare = h;
    }
    ∷ eights ws
eights _ = []

-- `split_at`, which panics beyond the end.
split_at : List ℕ → ℕ → Run (List ℕ × List ℕ)
split_at ws n = if leb n (length ws) then ret (take n ws, drop n ws) else Run.panic

unfoldable pub sections : Program → Run Sections
unfolding triples pairs eights split_at
sections p = instructions p >>= (λ count. word p 5 >>= (λ ranges. word p 6 >>= (λ repeats.
    split_at p.words header >>= (λ (head, body). split_at body (count * 3) >>= (λ (is, tail).
      split_at tail (ranges * 2) >>= (λ (rs, tail). split_at tail (repeats * 8) >>= (λ (ps, rest).
        ret (record { instructions = triples is; ranges = pairs rs; repeats = eights ps }))))))))

-- The tables are the program's own data; the other fields are the source's.
pub record Vm : Type 0 where
  pub cases : CaseTables
  pub properties : PropertyTables
  pub sequences : SequenceTables
  pub program : Program
  pub sections : Sections
  pub input : Input
  pub cursor : Cursor
  pub registers : List ℕ
  pub frame_slots : List Frame
  pub undo_slots : List Undo
  pub state : State
  pub budget : Budget
