-- ===== src/Unicode.antt =====
-- The lookups over the Unicode tables of src/. The tables are arguments, so what is proved of a
-- lookup holds of every table of the shape that it names.
pub mod Search
pub mod Casefold
pub mod Properties
pub mod Sequences
