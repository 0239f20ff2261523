-- ===== src/Damage.antt =====
-- studio/src/rencache.c: the cache over the software renderer.
pub mod Rects
pub mod Cells
pub mod Dirty
pub mod Commands
pub mod Frame
