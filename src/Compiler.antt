-- ===== src/Compiler.antt =====
-- src/compiler.rs and its parts: the parse of a pattern into nodes and ranges, with what it makes of a
-- class and of a repeat.
pub mod Monad
pub mod Classes
pub mod Parser
