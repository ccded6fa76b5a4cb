-- ===== src/Executor/Members.antt =====
-- The sequence instruction of `Vm` of src/executor.rs: the members of a property of strings, tried in
-- order, the longest groups first.
use perex.Base.{
  ℕ, zero, suc, ◌+◌, ◌-◌, ◌==◌, ltb, leb, max, Bool, true, false, ◌&&◌, ◌||◌, List, [], ◌∷◌,
  reverse,
}
use perex.Base.{Option, none, some, if◌then◌else◌, length, Run, ret, stuck}
use perex.Base
use perex.Input.View.{Mark, mark}
use perex.Program.{admits}
use perex.Unicode.Casefold.{equal}
use perex.Unicode.Sequences.{begins, group, groups, member, run}
use perex.Executor.State.{invalid_program, SequenceScan, Phase, sequence, trial, fail}
use perex.Executor.Machine.{Vm}
use perex.Executor.Monad.{Result, ok, fails, M, ◌>>=◌, ◌>>◌, pure, throw, with_vm, lift}
use perex.Executor.Store.{charge, set_phase, push_at, read, restore}

-- What `read` finds at the cursor, which stays where it is.
peek : M (Option ℕ)
peek = with_vm (λ vm. read >>= (λ first. restore (mark vm.cursor) >> pure first))

begun : ℕ → Option ℕ → M Bool
begun set none = pure false
begun set (some c) = with_vm (λ vm. lift (begins vm.sequences set c))

candidates_of : ℕ → ℕ → Option ℕ → M (ℕ × ℕ)
candidates_of set g none = pure (0, 0)
candidates_of set g (some c) = with_vm (λ vm.
    lift (begins vm.sequences set c)
    >>= (λ b. if b then lift (run vm.sequences set g c) else pure (0, 0)))

-- The members of a group that can match at `start`.
unfoldable pub sequence_candidates : ℕ → ℕ → Mark → Bool → M (ℕ × ℕ)
unfolding candidates_of
sequence_candidates set g start fold = with_vm (λ vm.
    if fold || vm.state.reverse
    then lift (group vm.sequences set g)
    else read >>= (λ first. restore start >> candidates_of set g first))

group_or_first : Option ℕ → ℕ
group_or_first none = 0
group_or_first (some g) = g

is_every : Option ℕ → Bool
is_every none = true
is_every (some g) = false

unfoldable pub begin_sequence : ℕ → Option ℕ → ℕ → Bool → M (Unit {0})
unfolding peek begun group_or_first is_every
begin_sequence set g filter fold = with_vm (λ vm.
    (if fold || vm.state.reverse then pure true else peek >>= begun set) >>= (λ admitted.
      (if admitted
        then sequence_candidates set (group_or_first g) (mark vm.cursor) fold
        else pure (0, 0))
      >>= (λ (at, end). set_phase (
          sequence (record {
            set = set;
            group = group_or_first g;
            at = at;
            end = end;
            filter = filter;
            start = mark vm.cursor;
            fold = fold;
            every = is_every g && admitted;
          })))))

same_point : Vm → Bool → ℕ → Option ℕ → Bool
same_point vm fold expected none = false
same_point vm fold expected (some c) = c == expected || (fold && equal vm.cases c expected true)

-- The member's points, in the order that the direction reads them.
matches_points : List ℕ → Mark → Bool → M Bool
matches_points [] start fold = pure true
matches_points (expected ∷ points) start fold =
    let rest = matches_points points start fold in
    read >>= (λ found.
      with_vm
        (λ vm. if same_point vm fold expected found then rest else restore start >> pure false))

unfoldable pub sequence_matches : List ℕ → Mark → Bool → M Bool
unfolding matches_points same_point
sequence_matches points start fold = with_vm (λ vm.
    restore start
    >> matches_points (if vm.state.reverse then reverse points else points) start fold)

-- How the inner loop ends: the member matched, or none did in its allowance.
pub data Tried : Type 0 where
  matching : Tried
  ended : (at tried : ℕ) → Tried

-- Where the frame of a match is refused, the scan stands before the member again.
settle : SequenceScan → Result (Unit {0}) × Vm → Run (Result Tried × Vm)
settle s (ok u, vm) = (set_phase trial >> pure matching) vm
settle s (fails e, vm) = (restore s.start >> set_phase (sequence s) >> throw e) vm

-- `self.state.pc - 1`.
before : ℕ → M ℕ
before zero = lift Run.panic
before (suc pc) = pure pc

found_member : SequenceScan → M Tried
found_member s vm =
    Base.◌>>=◌ ((before vm.state.pc >>= (λ pc. push_at pc 5 s.start (suc s.at))) vm) (settle s)

-- `while at < end`, with `n` members to go; `tried` of the allowance are used.
unfoldable pub try_members : ℕ → SequenceScan → ℕ → ℕ → M Tried
unfolding found_member settle before
try_members zero s available tried = pure (ended s.at tried)
try_members (suc n) s available tried =
    let skipped = try_members n (record s { at = suc s.at }) available tried in
    let onward = try_members n (record s { at = suc s.at }) available (suc tried) in
    charge 1
    >> with_vm (λ vm.
      (if s.every
        then pure s.at
        else lift (group vm.sequences s.set s.group) >>= (λ (base, end). pure (s.at - base)))
      >>= (λ bit. lift (admits vm.program s.filter bit) >>= (λ admitted.
          if admitted
          then lift (member vm.sequences s.set s.at) >>= (λ points.
            charge (length points) >> sequence_matches points s.start s.fold >>= (λ matched.
              if matched
              then found_member s
              else if leb (max available 1) (suc tried)
              then pure (ended (suc s.at) (suc tried))
              else onward))
          else skipped)))

-- What the outer loop does with how the inner one ended; `next` is its next round.
round_ended : (SequenceScan → ℕ → M (Unit {0})) → SequenceScan → Tried → M (Unit {0})
round_ended next s matching = pure tt
round_ended next s (ended at tried) =
    let over : M (Unit {0}) =
      set_phase (if ltb at s.end then sequence (record s { at = at }) else fail) in
    if leb s.end at && s.every
    then with_vm (λ vm. lift (groups vm.sequences s.set) >>= (λ n.
      if ltb (suc s.group) n
      then charge 1
        >> sequence_candidates s.set (suc s.group) s.start s.fold
        >>= (λ (lo, hi). next (record s { group = suc s.group; at = lo; end = hi }) tried)
      else over))
    else over

-- The outer loop, on fuel: a round more than the groups that are left.
unfoldable pub try_groups : ℕ → ℕ → SequenceScan → ℕ → M (Unit {0})
unfolding round_ended try_members
try_groups zero available s tried = lift stuck
try_groups (suc fuel) available s tried =
    try_members (s.end - s.at) s available tried >>= round_ended (try_groups fuel available) s

groups_left : Run ℕ → ℕ → ℕ
groups_left (ret n) g = n - g
groups_left _ g = 0

sequence_phase : Phase → ℕ → M (Unit {0})
sequence_phase (sequence s) available =
    with_vm (λ vm. try_groups (suc (groups_left (groups vm.sequences s.set) s.group)) available s 0)
sequence_phase _ available = throw invalid_program

unfoldable pub sequence_step : ℕ → M (Unit {0})
unfolding sequence_phase groups_left
sequence_step available = with_vm (λ vm. sequence_phase vm.state.phase available)
