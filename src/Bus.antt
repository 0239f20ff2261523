-- ===== src/Bus.antt =====
-- src/lbus.c: the publish/subscribe bus and the named work queues.
pub mod Glob
pub mod State
pub mod Queues
pub mod Dispatch
pub mod Valid
pub mod Keep
pub mod Pend
pub mod Select
pub mod Fifo
pub mod Subscribed
