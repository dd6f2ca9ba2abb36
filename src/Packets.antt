-- ===== src/Packets.antt =====
-- listener/packets/: the parsers of the game's UDP packets.
pub mod Base
pub mod LapData
pub mod Motion
pub mod CarTelemetry
pub mod CarTelemetry2
pub mod CarStatus
pub mod CarDamage
pub mod CarSetup
pub mod SessionHistory
pub mod TyreSets
pub mod Events
pub mod FinalClassification
pub mod Header
pub mod Session
pub mod LapPositions
pub mod MotionEx
pub mod Participants
pub mod LobbyInfo
pub mod Total
