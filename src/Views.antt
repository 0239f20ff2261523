-- ===== src/Views.antt =====
-- src/lview.c: views of files, with an index of their lines that is built as it is needed.
pub mod Lines
pub mod State
pub mod Index
pub mod Read
pub mod Tail
pub mod Find
pub mod Life
