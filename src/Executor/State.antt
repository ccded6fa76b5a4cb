-- ===== src/Executor/State.antt =====
-- src/executor/state.rs, and the types of src/executor.rs that a search keeps: offsets only.
use perex.Base.{
  ℕ, ◌+◌, ◌*◌, Bool, true, false, List, Option, none, some, ltb, leb, ◌==◌, if◌then◌else◌, ◌&&◌,
}
use perex.Base.{length, take, get_elem?, Run, ret, ◌>>=◌, or_panic}
use perex.Input.View.{Input, Mark, Layout, Position, shape}
use perex.Program.{Program, header}

-- `usize::MAX`.
abbrev pub unset : ℕ
unset = 0xffff_ffff_ffff_ffff

-- `Mark::NONE`, which is no cursor's mark, and `Mark::default()`.
abbrev pub no_mark : Mark
no_mark = record { offset = 0; units = unset }

abbrev pub first_mark : Mark
first_mark = record { offset = 0; units = 0 }

abbrev pub same_mark : Mark → Mark → Bool
same_mark a b = a.offset == b.offset && a.units == b.units

unfoldable pub is_none : Mark → Bool
is_none m = same_mark m no_mark

pub data ExecError : Type 0 where
  work_limit registers frames undo captures invalid_program changed_resources cancelled
        not_matched :
      ExecError

pub data Progress : Type 0 where
  pending matched no_match : Progress

pub record Frame : Type 0 where
  pub pc : ℕ
  pub position : Mark
  pub undo : ℕ
  pub assertion : ℕ
  pub limit : ℕ
  pub kind : ℕ
  pub reverse : Bool

pub record Undo : Type 0 where
  pub slot : ℕ
  pub value : ℕ

pub record AtomState : Type 0 where
  pub minimum_end : ℕ
  pub needed : ℕ
  pub remaining : ℕ
  pub before : Mark

pub data Work : Type 0 where
  idle : Work
  needle : (bytes : List ℕ) (len : ℕ) (fold : Bool) → Work
  atom : AtomState → Work

pub data ClassUse : Type 0 where
  in_trial in_admission atom_scanning atom_extending : ClassUse

pub data AfterRollback : Type 0 where
  then_trial then_fail then_atom_retreat then_atom_extend : AfterRollback
  then_sequence : ℕ → AfterRollback

pub data AfterSeek : Type 0 where
  then_start : AfterSeek
  then_backref : (start end : ℕ) (matched : Mark) → AfterSeek

-- The class test that a search is in the middle of, and the sequence test.
pub record ClassScan : Type 0 where
  pub index : ℕ
  pub end : ℕ
  pub negated : Bool
  pub sorted : Bool
  pub values : List ℕ
  pub context : ClassUse

pub record SequenceScan : Type 0 where
  pub set : ℕ
  pub group : ℕ
  pub at : ℕ
  pub end : ℕ
  pub filter : ℕ
  pub start : Mark
  pub fold : Bool
  pub every : Bool

pub data Phase : Type 0 where
  admission admit_class admit_scan starting candidate trial : Phase
  bound_prepare bound_scan admit_bytes admit_suffix : ℕ → Phase
  admit_byte_class : (offset lo hi : ℕ) → Phase
  admit_probe : (index : ℕ) (scan : Mark) → Phase
  seeking : (target : ℕ) (after : AfterSeek) → Phase
  initialize : ℕ → Phase
  execute : (op a b : ℕ) → Phase
  class : ClassScan → Phase
  sequence : SequenceScan → Phase
  atom_scan atom_extend atom_commit atom_retreat : Phase
  atom_result : (matched extend : Bool) → Phase
  named : (group next selected : ℕ) → Phase
  backref : (start end : ℕ) (captured : Mark) (fold : Bool) → Phase
  clear clear_store : (next end slot : ℕ) → Phase
  fail next_start : Phase
  rollback : (until : ℕ) (after : AfterRollback) → Phase
  validate : ℕ → Phase
  finished : Bool → Phase
  failed : ExecError → Phase

-- `Result<Progress, ExecError>`.
pub data Outcome : Type 0 where
  reached : Progress → Outcome
  stopped : ExecError → Outcome

unfoldable pub outcome : Phase → Option Outcome
outcome (finished true) = some (reached matched)
outcome (finished false) = some (reached no_match)
outcome (failed e) = some (stopped e)
outcome _ = none

pub record State : Type 0 where
  pub blocked : Option ExecError
  pub phase : Phase
  pub requested_start : ℕ
  pub start : Mark
  pub current : Mark
  pub pc : ℕ
  pub frames : ℕ
  pub undo : ℕ
  pub assertion : ℕ
  pub reverse : Bool
  pub work : Work
  pub required_at : ℕ
  pub required_from : ℕ
  pub verified : ℕ
  pub run_end : ℕ
  pub near : Mark
  pub started : Bool
  pub one_start : Bool
  pub anchored : Bool
  pub boolean : Bool

unfoldable pub new : ℕ → ℕ → State
new start len = record {
  blocked = none;
  phase = if ltb len start then finished false else admission;
  requested_start = start;
  start = first_mark;
  current = first_mark;
  pc = 0;
  frames = 0;
  undo = 0;
  assertion = unset;
  reverse = false;
  work = idle;
  required_at = unset;
  required_from = 0;
  verified = 0;
  run_end = unset;
  near = no_mark;
  started = false;
  one_start = false;
  anchored = false;
  boolean = false;
}

-- What a search checks its views against.
pub record Shape : Type 0 where
  pub head : List ℕ
  pub words : ℕ
  pub input : Layout

unfoldable pub shape_of : Program → Input → Run Shape
shape_of p input =
    if leb header (length p.words)
    then ret (record { head = take header p.words; words = length p.words; input = shape input })
    else Run.panic

unfoldable pub registers_of : Shape → Run ℕ
registers_of s =
    or_panic (get_elem? s.head 3)
    >>= (λ captures. or_panic (get_elem? s.head 6) >>= (λ repeats. ret ((captures + repeats) * 2)))

-- Where a search stands.
unfoldable pub position_of : State → Layout → Position
unfolding is_none
position_of s layout = record {
  mark = elim s.phase [
    | finished true ↦ s.current
    | other ↦ if s.started then s.start else if is_none s.near then s.current else s.near
  ];
  layout = layout;
}
