-- ===== src/Executor/Search.antt =====
-- `Search` of src/executor.rs between its calls: captures, capacity requests, new buffers, cancelling and
-- beginning again. The resources that it borrows its views from are no part of it.
pub mod Rebuffer
pub mod Captures
use perex.Base.{
  ℕ, zero, suc, ◌+◌, ◌*◌, ◌==◌, ltb, leb, Bool, true, false, not, ◌||◌, List, [], ◌∷◌, ◌++◌, Option,
  none, some,
}
use perex.Base.{get_elem?, take, drop, length, if◌then◌else◌, Run, ret, panic, ◌>>=◌, or_panic}
use perex.Base
use perex.Budget.{Budget}
use perex.Span.{Span}
use perex.Span
use perex.Input.View.{Mark, Position}
use perex.Executor.State.{
  ExecError, registers, frames, undo, captures, changed_resources, cancelled, not_matched, Frame,
  Undo, Phase, finished, failed, outcome, State, Shape, registers_of, position_of, unset,
}
use perex.Executor.State.{new as new_state}
use perex.Executor.Monad.{Result, ok, fails}

pub record Scratch : Type 0 where
  pub registers : List ℕ
  pub frames : List Frame
  pub undo : List Undo

pub record Search : Type 0 where
  pub buffers : Scratch
  pub shape : Shape
  pub state : State
  pub budget : Budget

unfoldable pub capture_count : Search → Run ℕ
capture_count s = or_panic (get_elem? s.shape.head 3)

-- The error, where there is one.
unfoldable pub require_match : Search → Option ExecError
require_match s = elim s.state.blocked [
  | some error ↦ some error
  | none ↦ if s.state.boolean then some captures else elim s.state.phase [
    | finished true ↦ none
    | failed error ↦ some error
    | other ↦ some not_matched
  ]
]

-- What two registers say of a capture.
unfoldable pub span_of : ℕ → ℕ → Option Span
span_of lo hi = if lo == unset || hi == unset then none else Span.new lo hi

captured : Option ℕ → Option ℕ → Result (Option Span)
captured (some lo) (some hi) = ok (span_of lo hi)
captured _ _ = fails changed_resources

unfoldable pub capture : Search → ℕ → Run (Result (Option Span))
unfolding captured
capture s index = elim (require_match s) [
  | some error ↦ ret (fails error)
  | none ↦ capture_count s >>= (λ count.
      if leb count index
      then ret (fails captures)
      else ret (
          captured (get_elem? s.buffers.registers (index * 2))
            (get_elem? s.buffers.registers (index * 2 + 1))))
]

-- The loop of `copy_match_registers`: `n` captures from `i` on.
unfoldable pub spans_from : List ℕ → ℕ → ℕ → Run (List (Option Span))
spans_from rs i zero = ret []
spans_from rs i (suc n) =
    let rest = spans_from rs (suc i) n in
    or_panic (get_elem? rs (i * 2)) >>= (λ lo.
      or_panic (get_elem? rs (i * 2 + 1))
      >>= (λ hi. rest >>= (λ spans. ret (span_of lo hi ∷ spans))))

-- The captures take the first places of the output.
unfoldable pub copy_match_registers :
    List ℕ → List (Option Span) → ℕ → Run (Result (List (Option Span)))
copy_match_registers rs output count =
    if ltb (length rs) (count * 2)
    then ret (fails changed_resources)
    else if ltb (length output) count
    then panic
    else spans_from rs 0 count >>= (λ spans. ret (ok (spans ++ drop count output)))

unfoldable pub copy_captures : Search → List (Option Span) → Run (Result (List (Option Span)))
copy_captures s output = capture_count s >>= (λ count.
    if ltb (length output) count then ret (fails captures) else elim (require_match s) [
      | some error ↦ ret (fails error)
      | none ↦ copy_match_registers s.buffers.registers output count
    ])

pub record ScratchRequirements : Type 0 where
  pub registers : ℕ
  pub frames : ℕ
  pub undo : ℕ

is_frames : Option ExecError → ℕ
is_frames (some frames) = 1
is_frames _ = 0

is_undo : Option ExecError → ℕ
is_undo (some undo) = 1
is_undo _ = 0

unfoldable pub required_scratch : Search → Run ScratchRequirements
unfolding is_frames is_undo
required_scratch s = registers_of s.shape >>= (λ n. ret (record {
  registers = n;
  frames = s.state.frames + is_frames s.state.blocked;
  undo = s.state.undo + is_undo s.state.blocked;
}))

-- A refused call gives the search back, and the new buffers.
pub data Rebuffered : Type 0 where
  rebuffered : Search → Rebuffered
  refused : (error : ExecError) (search : Search) (buffers : Scratch) → Rebuffered

-- `target[..n].copy_from_slice(&source[..n])`, both being long enough.
abbrev pub copied {ℓ} : {A : Type ℓ} → ℕ → List A → List A → List A
copied n source target = take n source ++ drop n target

moved : Search → Scratch → ScratchRequirements → Search
moved s target need = record s {
  buffers = record {
    registers = copied need.registers s.buffers.registers target.registers;
    frames = copied s.state.frames s.buffers.frames target.frames;
    undo = copied s.state.undo s.buffers.undo target.undo;
  };
  state = record s.state { blocked = none };
}

unfoldable pub rebuffer : Search → Scratch → Run Rebuffered
unfolding moved
rebuffer s target = required_scratch s >>= (λ need.
    if ltb (length target.registers) need.registers
    then ret (refused registers s target)
    else if ltb (length target.frames) need.frames
    then ret (refused frames s target)
    else if ltb (length target.undo) need.undo
    then ret (refused undo s target)
    else if ltb (length s.buffers.registers) need.registers
        || ltb (length s.buffers.frames) s.state.frames
        || ltb (length s.buffers.undo) s.state.undo
    then ret (refused changed_resources s target)
    else ret (rebuffered (moved s target need)))

unfoldable pub cancel : Search → Search
cancel s = elim (outcome s.state.phase) [
  | some found ↦ s
  | none ↦ record s { state = record s.state { blocked = none; phase = failed cancelled } }
]

unfoldable pub position : Search → Position
position s = position_of s.state s.shape.input

unfoldable pub restart_at : Search → ℕ → Search
restart_at s start = record s {
  state = record (new_state start s.shape.input.utf16_len) {
    near = (position s).mark;
    boolean = s.state.boolean;
  };
}

unfoldable pub without_captures : Search → Search
without_captures s = record s { state = record s.state { boolean = true } }
