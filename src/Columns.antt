-- ===== src/Columns.antt =====
-- src/utf8width.h: how many columns UTF-8 text takes, and how much of it fits.
pub mod Tables
pub mod Search
pub mod Width
pub mod Text
