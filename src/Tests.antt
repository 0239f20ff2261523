-- ===== src/Tests.antt =====
-- Runs of the models at concrete inputs.
mod Buses
mod Journals
mod Screens
mod Inputs
mod Polls
mod Flushes
mod Widths
mod Damages
mod Hashes
mod Files
mod Requests
