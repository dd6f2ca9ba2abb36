-- ===== src/Dispatcher/State.antt =====
-- listener/dispatcher.py: what the dispatcher keeps, and the services that it calls.
use formula1_app.Prelude.{ℕ, Bool, Option, List}
use formula1_app.Prelude.Eq.{nat_eq, pair_eq}
use formula1_app.Dict.{Dict}
use formula1_app.Bounded
use formula1_app.Bounded.{BoundedDict, BoundedSet}
use formula1_app.Struct.{Bytes}
use formula1_app.Action.{Action}
use formula1_app.FrameBuffer.{FrameBuffer}
use formula1_app.Packets.Header
use formula1_app.Packets.Header.{PacketHeader, Log}
use formula1_app.Packets.Session.{SessionPacket}
use formula1_app.Packets.Participants.{ParticipantsPacket}
use formula1_app.Packets.LobbyInfo.{LobbyInfoPacket}
use formula1_app.Packets.CarSetup.{CarSetupPacket}
use formula1_app.Packets.TyreSets.{TyreSetsPacket}
use formula1_app.Packets.MotionEx.{MotionExData}
use formula1_app.Packets.FinalClassification.{FinalClassificationPacket}
use formula1_app.Packets.SessionHistory.{SessionHistoryPacket}
use formula1_app.Packets.LapPositions.{LapPositionsPacket}
use formula1_app.Packets.Events.Union.{EventPacket, Flashback}
use formula1_app.Packets.Motion.{CarMotionData}
use formula1_app.Packets.CarTelemetry.{CarTelemetryPacket}
use formula1_app.Packets.LapData.{LapData}
use formula1_app.Packets.CarStatus.{CarStatusData}
use formula1_app.Packets.CarDamage.{CarDamageData}
use formula1_app.Packets.CarTelemetry2.{CarTelemetry2Data}

-- `car_index -> user_id`
abbrev pub UserMap : Type 0
UserMap = Dict ℕ ℕ

-- The parsed packets of one simulation tick.
pub record FrameData : Type 0 where
  pub motion_data : Option (List CarMotionData)
  pub telemetry_packet : Option CarTelemetryPacket
  pub lap_data_list : Option (List LapData)
  pub car_status_data : Option (List CarStatusData)
  pub car_damage_data : Option (List CarDamageData)
  pub car_telemetry2_data : Option (List CarTelemetry2Data)

-- The arguments of `CarFrameService.write_frame`. `session_start` is a wall-clock time.
pub record FrameWrite : Type 0 where
  pub session_uid : ℕ
  pub session_time : ℕ
  pub overall_frame_identifier : ℕ
  pub user_map : UserMap
  pub frame : FrameData
  pub player_car_index : ℕ
  pub restricted_indices : List ℕ
  pub session_start : Option ℕ
  pub race_started : Bool

-- The methods that the dispatcher calls, on the state `W` of all services. The four services that
-- may be `None` have a flag.
pub record Services (W : Type 0) : Type 0 where
  pub has_car_setup : Bool
  pub has_tyre_sets : Bool
  pub has_motion_ex : Bool
  pub has_lobby_info : Bool
  pub handle_session_packet : PacketHeader → SessionPacket → Action W (Unit {0})
  pub get_session_type : ℕ → W → Option ℕ
  pub get_track_id : ℕ → W → Option ℕ
  pub get_session_start : ℕ → W → Option ℕ
  pub handle_participants_packet : PacketHeader → ParticipantsPacket → Action W UserMap
  pub get_restricted_indices : ℕ → W → List ℕ
  pub write_frame : FrameWrite → Action W (Unit {0})
  pub car_frame_discard_after : ℕ → ℕ → Option ℕ → Action W ℕ
  pub handle_session_history_packet :
      PacketHeader → SessionHistoryPacket → UserMap → Action W (Unit {0})
  pub handle_tyre_stints : PacketHeader → SessionHistoryPacket → UserMap → Action W (Unit {0})
  pub handle_event_packet : PacketHeader → EventPacket → UserMap → Action W (Unit {0})
  pub record_flashback : ℕ → ℕ → ℕ → Flashback → ℕ → Action W (Unit {0})
  pub handle_final_classification_packet :
      PacketHeader → FinalClassificationPacket → UserMap → Action W (Unit {0})
  pub handle_lap_positions_packet :
      PacketHeader → LapPositionsPacket → UserMap → Action W (Unit {0})
  pub handle_car_setup_packet : PacketHeader → CarSetupPacket → ℕ → UserMap → Action W (Unit {0})
  pub on_setup_lap_complete : ℕ → ℕ → ℕ → ℕ → Action W (Unit {0})
  pub handle_tyre_sets_packet :
      PacketHeader → TyreSetsPacket → UserMap → List ℕ → Action W (Unit {0})
  pub on_tyre_sets_lap_complete : ℕ → ℕ → ℕ → ℕ → Action W (Unit {0})
  pub write_motion_ex : PacketHeader → MotionExData → UserMap → Option ℕ → Action W (Unit {0})
  pub motion_ex_discard_after : ℕ → ℕ → Option ℕ → Action W ℕ
  pub handle_lobby_info_packet : PacketHeader → LobbyInfoPacket → Action W (Unit {0})

-- The dispatcher's attributes but for the frame buffer, which calls back into these.
pub record State (W : Type 0) : Type 0 where
  pub known_sessions : BoundedSet ℕ
  pub excluded_sessions : BoundedSet ℕ
  pub user_maps : BoundedDict ℕ UserMap
  pub race_started : BoundedDict ℕ Bool
  pub classification_received : BoundedSet ℕ
  pub last_lap_nums : BoundedDict (ℕ × ℕ) ℕ
  pub logged_size_mismatches : BoundedSet (ℕ × ℕ)
  pub header_log : Log
  pub services : W

abbrev pub init : {W : Type 0} → W → State W
init w = record {
  known_sessions = Bounded.init 100;
  excluded_sessions = Bounded.init 100;
  user_maps = Bounded.init 200;
  race_started = Bounded.init 200;
  classification_received = Bounded.init 100;
  last_lap_nums = Bounded.init 500;
  logged_size_mismatches = Bounded.init 200;
  header_log = Header.init;
  services = w;
}

-- A buffered packet: its header and body.
abbrev pub Payload : Type 0
Payload = PacketHeader × Bytes

-- The whole dispatcher: its frame buffer and its other attributes.
abbrev pub Dispatcher : Type 0 → Type 0
Dispatcher W = FrameBuffer Payload × State W

-- Every set and dictionary of the dispatcher keeps its size bound.
unfoldable pub IsValid : {W : Type 0} → State W → Type 0
IsValid d =
    Bounded.IsValid d.known_sessions
    × Bounded.IsValid d.excluded_sessions
    × Bounded.IsValid d.user_maps
    × Bounded.IsValid d.race_started
    × Bounded.IsValid d.classification_received
    × Bounded.IsValid d.last_lap_nums
    × Bounded.IsValid d.logged_size_mismatches
