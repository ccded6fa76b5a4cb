-- ===== src/Input.antt =====
-- src/input.rs: borrowed views of a subject and the cursors that walk them.
pub mod Scalar
pub mod View
pub mod Walk
pub mod Stands
pub mod Bytes
pub mod Points
pub mod Seek
pub mod Validation
