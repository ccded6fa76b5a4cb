-- ===== src/Executor.antt =====
-- src/executor.rs: the ordered evaluator on storage that the caller lends it.
pub mod State
pub mod Machine
pub mod Monad
pub mod Store
pub mod Classes
pub mod Members
pub mod Seeking
pub mod Trial
pub mod Undoing
pub mod Opcodes
pub mod Instruction
pub mod Search
pub mod Literals
