-- ===== src/Services.antt =====
-- listener/services/: the business rules between the parsers and the database.
pub mod LapHistory
pub mod LapPositions
pub mod Rows
pub mod CarFrame
pub mod CarSetup
pub mod TyreSets
pub mod MotionEx
pub mod LobbyInfo
pub mod Participants
pub mod FinalClassification
pub mod Session
pub mod Events
