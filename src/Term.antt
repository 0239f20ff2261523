-- ===== src/Term.antt =====
-- src/termctl.c and src/termctl.h: the full-screen terminal layer.
pub mod Utf8
pub mod Width
pub mod Grid
pub mod Flush
pub mod Poll
pub mod Puts
pub mod Input
