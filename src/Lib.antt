-- ===== src/Lib.antt =====
-- perex: a regular-expression engine for ECMAScript over a host's own strings. This library models
-- the part that every matcher reads its subject through, from src/lib.rs, src/input.rs,
-- src/binding.rs, src/span.rs and src/span/bound.rs, the literal executor of src/literal.rs, the
-- lookups in the Unicode tables, the ordered evaluator of src/executor.rs, and the parser and the
-- class normalization of the compiler.
--
-- The parts, and the files that model them:
-- - Budget: `Budget` of src/lib.rs, one allowance of work that an operation draws on; Budget/Sequence
--   is about sequences of charges.
-- - Input: `Input`, `Cursor`, `Mark` of src/input.rs. A subject is bytes of ASCII, bytes of
--   generalized UTF-8 (surrogates may be encoded, alone or in pairs) or UTF-16 units, and its
--   coordinates are UTF-16 units throughout. Input/Scalar holds `decode_checked`, `decode_valid` and
--   the surrogate arithmetic; Input/View the constructors `utf16`, `utf8`, `wtf8` and the packed
--   offsets; Input/Walk `next_unit` and `previous_unit`; Input/Points `next_point`,
--   `previous_point` and `normalize_unicode_start`; Input/Seek `cursor_at` with its scan from the
--   nearer end, `resume_cursor` and `skip_ascii`. Input/Stands says what a cursor stands for: an
--   index into the list of the subject's units, for a byte subject through a list of code points
--   whose encodings the bytes are. Input/Bytes has the lemmas on such bytes, and Input/Validation
--   the subjects that the constructors accept.
-- - Binding: `BoundSubject` of src/binding.rs. The owner of the storage is host code, which may move
--   it: what its `with_subject` hands out is an argument of every call (`Acquired`).
-- - Span: `Span` and `SpanUnits` of src/span.rs. Span/Bound models `BoundSpan` of
--   src/span/bound.rs, whose `try_fold` visits a span in bounded steps and keeps offsets only
--   between them. The consumer is host code: a step on its own state that may give an error.
--   Span/Bound/Loops, Steps, Fold and Calls go from the two loops to one call and to sequences
--   of calls, with a consumer that returns no error and budget enough; Sought, Failing and Outcome are
--   about one call with any consumer and any budget; Span/Bound/Open has `new`, `retarget` and `new_near`.
-- - Program, Literal: of src/program.rs the words of a compiled program and the accessors that the
--   executors read, and src/literal.rs, whose `find` runs a program of `^` and literal characters
--   over a subject. Literal/Answers compares it with the subject's units, and Literal/Eligible says
--   which programs `eligible` accepts.
-- - Unicode: the lookups of src/casefold.rs, src/properties.rs and src/sequences.rs. The tables, which
--   are generated, are arguments (`CaseTables`, `PropertyTables`, `SequenceTables`), and so a
--   theorem says what it asks of them. Unicode/Casefold/Family is about the cycles of the case table,
--   Unicode/Properties/Intervals and Unicode/Sequences/Ordered about the two binary searches.
-- - Executor: `Vm` of src/executor.rs and `State` of src/executor/state.rs. Executor/State has what a
--   search keeps between calls, Executor/Machine what one call works on (`Vm`, with the caller's
--   scratch and the sections of the program), and Executor/Monad what an operation gives: a value
--   or an `ExecError`, with the machine that it leaves, or a panic. Executor/Store has `charge`,
--   `store`, `push`, `push_at`, `read` and `restore`; Executor/Classes the class tests;
--   Executor/Members the properties of strings (`begin_sequence`, `sequence_step`);
--   Executor/Seeking `seek`, `sought`, `backref` and the arms of `run` for starts, seeks, named
--   groups and backreferences; Executor/Trial `initialize`, `begin_trial`, `skip_verified`,
--   `literal_lookbehind` and the arms that clear and that check captures; Executor/Undoing the arms
--   `Fail` and `Rollback`; Executor/Opcodes and Executor/Instruction every opcode of `instruction`;
--   Executor/Literals `literal_run` of src/executor/literals.rs, and Literals/Charges its cost;
--   Executor/Search the calls on a search between two advances (`capture`, `copy_captures`,
--   `required_scratch`, `rebuffer`, `cancel`, `restart_at`). Executor/Undoing/Journal reads frames and
--   journal as a stack of register files (`saved`), Snapshots and Failing compare pushing, writing
--   and failing with that stack, and Unwind undoing. Executor/Classes/Sorted is about the search of a
--   sorted class, and Decide and Agreement about the two implementations of a class test;
--   Executor/Trial/Starting and Validating are about how a trial starts and how a match is
--   checked; Executor/Search/Rebuffer and Captures about new buffers and about captures.
-- - Compiler: the errors of src/compiler.rs, with Compiler/Monad for what an operation of it gives: a
--   value or a `CompileError`, with the state that it leaves, or a panic. Compiler/Classes is
--   src/compiler/classes.rs: `heapsort` of the ranges of a class (Classes/Sift, Classes/Heap), the merge
--   of overlapping ones (Classes/Merge, Rounds, Scan), and `normalize` (Classes/Normalize), whose result
--   Classes/Searching hands to the search of Executor/Classes. Compiler/Parser has the parser's state
--   and its leaves, and below it Parser/Leaves, Parser/Repeats (quantifiers, and
--   src/compiler/repetition.rs), Parser/Escapes (src/compiler/escapes.rs), Parser/Properties,
--   Parser/Names (src/compiler/names.rs), Parser/Terms (modifiers, classes, escapes), Parser/Grammar
--   (atoms, sequences, alternatives) and Parser/Prepare (`prepare_with`). A file named Settled says
--   that its parent's operations end. The name tables of the properties are functions from names
--   (`Tables`), and the reading of a class of sets is an argument (`Sets`).
-- - Base: the shared Boolean tests, list lemmas and `Run`, the results of code that may panic.
-- - Samples: concrete subjects, readers, tables and machines.
--
-- Conventions. An `&mut self` method gives the changed value along with its result. Indexing out of
-- range, and subtraction at zero where the source would underflow on an index, is `panic`; fuel that
-- runs out is `stuck`; the theorems say that neither happens. A loop gets as fuel a bound on its
-- rounds: `wtf8` one more than the bytes, since each round takes a byte; the scans of
-- `seek_byte_offset` one more than the units that they can pass; the loops of `try_fold` one more
-- than the quantum, since each round is a unit of work; the binary searches one more than the
-- range, which each round shortens; the chain of branches one more than the budget, since each round
-- but the last pays a unit; the groups of a property of strings one more than those that are left;
-- the loops of the parser one more than the budget, since each round pays a unit.
-- `usize` has 64 bits, so `HALF` is 2^63, and slices are shorter than that; sums of offsets stay below
-- it. `UNSET` is `usize::MAX`. An `i32` of a case table is its 32-bit word, and a sum wraps.
-- `partition_point` is the length of the longest prefix that passes the test, which is what a
-- binary search finds in a table that is partitioned.
--
-- Not modelled: of the compiler, classes of sets (src/compiler/sets.rs), the emission of the
-- program (src/compiler/prepared.rs) and the choice of fast paths (admission.rs, candidate.rs); the
-- validation of programs, the automaton and the native tier (most of src/program.rs, src/dfa.rs,
-- src/native), and of src/binding.rs the binding of programs. Of the evaluator, admission, the scan
-- for starts and the repeats of one character (src/executor/admission.rs, candidate.rs but for
-- `start_candidate`, atom.rs), and the loops `trial`, `run` and `advance` that these are called from;
-- the lookup by name in src/sequences.rs. The resources that a search takes its views from are host
-- code. Borrowing and unwinding are not part of the model: a panic ends the run.
pub mod Base
pub mod Budget
pub mod Input
pub mod Binding
pub mod Span
pub mod Samples
pub mod Program
pub mod Literal
pub mod Executor
pub mod Unicode
pub mod Compiler
