-- ===== src/Journal.antt =====
-- src/jwriter.c and src/jwriter.h: the ring between the Lua thread and the journal's writer thread.
pub mod State
pub mod Step
pub mod Inv
pub mod Ring
pub mod Produce
pub mod Consume
pub mod Run
pub mod Opened
pub mod Durable
pub mod Progress
