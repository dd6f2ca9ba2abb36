-- ===== src/Tests.antt =====
-- The theorems at concrete inputs.
mod Buffers
mod Records
mod Datagrams
mod Frames
mod Writes
mod Queues
mod Sessions
