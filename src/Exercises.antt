-- ===== src/Exercises.antt =====
-- FUND-120/0_C_Programming_Lab/TheCProgrammingLanguage/ch1: the programs on text of the first
-- chapter. A program is a function from the bytes that getchar delivers to those that it prints, or
-- to what it computes; the counters are taken not to overflow.
pub mod Lines
pub mod Backwards
pub mod Tabs
pub mod Columns
pub mod Words
mod Tests
