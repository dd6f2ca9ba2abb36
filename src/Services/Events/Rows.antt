-- ===== src/Services/Events/Rows.antt =====
-- What listener/services/events.py hands to the repositories.
use formula1_app.Prelude.{ℕ, String, Bool, Option, List}
use formula1_app.Enums.Names.{EnumName}

-- `session_uid`, `overall_frame_identifier` and `session_time` of every event.
pub record At : Type 0 where
  pub session_uid : ℕ
  pub overall_frame_identifier : ℕ
  pub session_time : ℕ

-- The arguments that only some race control events have.
pub record RaceControl : Type 0 where
  pub safety_car_type : Option EnumName
  pub safety_car_event : Option EnumName
  pub num_lights : Option ℕ
  pub disabled_reason : Option EnumName

pub record PenaltyRow : Type 0 where
  pub user_id : ℕ
  pub other_user_id : Option ℕ
  pub type_name : EnumName
  pub infringement_name : EnumName
  pub time_seconds : Option ℕ
  pub lap_num : Option ℕ
  pub places_gained : Option ℕ

pub record SpeedTrapRow : Type 0 where
  pub user_id : ℕ
  pub speed : ℕ
  pub is_overall_fastest : Bool
  pub is_driver_fastest : Bool
  pub fastest_user_id : Option ℕ
  pub fastest_speed : ℕ

-- The `insert` of each repository.
pub data Call : Type 0 where
  insert_race_control : At → List ℕ → RaceControl → Call
  insert_overtake : At → ℕ → ℕ → Call
  insert_collision : At → ℕ → ℕ → ℕ → Call
  insert_penalty : At → PenaltyRow → Call
  insert_fastest_lap : At → ℕ → ℕ → Call
  insert_retirement : At → ℕ → EnumName → Call
  insert_speed_trap : At → SpeedTrapRow → Call
  insert_driver_action : At → List ℕ → ℕ → Option ℕ → Call
  insert_buttons : At → ℕ → List String → Call
  insert_flashback : At → ℕ → ℕ → ℕ → Call
