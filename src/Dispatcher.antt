-- ===== src/Dispatcher.antt =====
-- listener/dispatcher.py.
pub mod State
pub mod Frames
pub mod Routes
pub mod Handle
pub mod Keeps
pub mod Valid
pub mod HandlersValid
pub mod EventsValid
pub mod Invariant
pub mod Buffered
pub mod Gate
pub mod Race
pub mod Laps
