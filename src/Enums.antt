-- ===== src/Enums.antt =====
-- listener/enums/: the game's codes and their names.
pub mod Names
pub mod Car
pub mod Sessions
pub mod Events
pub mod People
