-- ===== src/Packets/Events/Union.antt =====
-- listener/packets/events.py, packet 3: the members of the event details union.
use formula1_app.Prelude.{ℕ, List, [], ◌∷◌}
use formula1_app.Result.{Result, ok, raise, type_error}

pub record FastestLap : Type 0 where
  pub vehicle_index : ℕ
  pub lap_time : ℕ

unfoldable pub fastest_lap_of : List ℕ → Result FastestLap
fastest_lap_of (vehicle_index ∷ lap_time ∷ []) =
    ok (record { vehicle_index = vehicle_index; lap_time = lap_time })
fastest_lap_of _ = raise type_error

pub record Retirement : Type 0 where
  pub vehicle_index : ℕ
  pub reason : ℕ

unfoldable pub retirement_of : List ℕ → Result Retirement
retirement_of (vehicle_index ∷ reason ∷ []) =
    ok (record { vehicle_index = vehicle_index; reason = reason })
retirement_of _ = raise type_error

pub record TeamMateInPits : Type 0 where
  pub vehicle_index : ℕ

unfoldable pub team_mate_in_pits_of : List ℕ → Result TeamMateInPits
team_mate_in_pits_of (vehicle_index ∷ []) = ok (record { vehicle_index = vehicle_index })
team_mate_in_pits_of _ = raise type_error

pub record RaceWinner : Type 0 where
  pub vehicle_index : ℕ

unfoldable pub race_winner_of : List ℕ → Result RaceWinner
race_winner_of (vehicle_index ∷ []) = ok (record { vehicle_index = vehicle_index })
race_winner_of _ = raise type_error

pub record Penalty : Type 0 where
  pub penalty_type : ℕ
  pub infringement_type : ℕ
  pub vehicle_index : ℕ
  pub other_vehicle_index : ℕ
  pub time : ℕ
  pub lap_num : ℕ
  pub places_gained : ℕ

unfoldable pub penalty_of : List ℕ → Result Penalty
penalty_of
      (penalty_type ∷ infringement_type ∷ vehicle_index ∷ other_vehicle_index ∷ time ∷ lap_num
        ∷ places_gained ∷ []) =
    ok (record {
      penalty_type = penalty_type;
      infringement_type = infringement_type;
      vehicle_index = vehicle_index;
      other_vehicle_index = other_vehicle_index;
      time = time;
      lap_num = lap_num;
      places_gained = places_gained;
    })
penalty_of _ = raise type_error

pub record SpeedTrap : Type 0 where
  pub vehicle_index : ℕ
  pub speed : ℕ
  pub is_overall_fastest_in_session : ℕ
  pub is_driver_fastest_in_session : ℕ
  pub fastest_vehicle_index_in_session : ℕ
  pub fastest_speed_in_session : ℕ

unfoldable pub speed_trap_of : List ℕ → Result SpeedTrap
speed_trap_of
      (vehicle_index ∷ speed ∷ is_overall_fastest_in_session ∷ is_driver_fastest_in_session
        ∷ fastest_vehicle_index_in_session ∷ fastest_speed_in_session ∷ []) =
    ok (record {
      vehicle_index = vehicle_index;
      speed = speed;
      is_overall_fastest_in_session = is_overall_fastest_in_session;
      is_driver_fastest_in_session = is_driver_fastest_in_session;
      fastest_vehicle_index_in_session = fastest_vehicle_index_in_session;
      fastest_speed_in_session = fastest_speed_in_session;
    })
speed_trap_of _ = raise type_error

pub record StartLights : Type 0 where
  pub num_of_lights : ℕ

unfoldable pub start_lights_of : List ℕ → Result StartLights
start_lights_of (num_of_lights ∷ []) = ok (record { num_of_lights = num_of_lights })
start_lights_of _ = raise type_error

pub record DriveThroughPenaltyServed : Type 0 where
  pub vehicle_index : ℕ

unfoldable pub drive_through_penalty_served_of : List ℕ → Result DriveThroughPenaltyServed
drive_through_penalty_served_of (vehicle_index ∷ []) = ok (record { vehicle_index = vehicle_index })
drive_through_penalty_served_of _ = raise type_error

pub record StopGoPenaltyServed : Type 0 where
  pub vehicle_index : ℕ
  pub stop_time : ℕ

unfoldable pub stop_go_penalty_served_of : List ℕ → Result StopGoPenaltyServed
stop_go_penalty_served_of (vehicle_index ∷ stop_time ∷ []) =
    ok (record { vehicle_index = vehicle_index; stop_time = stop_time })
stop_go_penalty_served_of _ = raise type_error

pub record Flashback : Type 0 where
  pub flashback_frame_identifier : ℕ
  pub flashback_session_time : ℕ

unfoldable pub flashback_of : List ℕ → Result Flashback
flashback_of (flashback_frame_identifier ∷ flashback_session_time ∷ []) = ok (record {
  flashback_frame_identifier = flashback_frame_identifier;
  flashback_session_time = flashback_session_time;
})
flashback_of _ = raise type_error

pub record Buttons : Type 0 where
  pub button_status : ℕ

unfoldable pub buttons_of : List ℕ → Result Buttons
buttons_of (button_status ∷ []) = ok (record { button_status = button_status })
buttons_of _ = raise type_error

pub record Overtake : Type 0 where
  pub overtaking_vehicle_index : ℕ
  pub being_overtaken_vehicle_index : ℕ

unfoldable pub overtake_of : List ℕ → Result Overtake
overtake_of (overtaking_vehicle_index ∷ being_overtaken_vehicle_index ∷ []) = ok (record {
  overtaking_vehicle_index = overtaking_vehicle_index;
  being_overtaken_vehicle_index = being_overtaken_vehicle_index;
})
overtake_of _ = raise type_error

pub record SafetyCar : Type 0 where
  pub safety_car_type : ℕ
  pub event_type : ℕ

unfoldable pub safety_car_of : List ℕ → Result SafetyCar
safety_car_of (safety_car_type ∷ event_type ∷ []) =
    ok (record { safety_car_type = safety_car_type; event_type = event_type })
safety_car_of _ = raise type_error

pub record Collision : Type 0 where
  pub vehicle_1_index : ℕ
  pub vehicle_2_index : ℕ
  pub severity : ℕ

unfoldable pub collision_of : List ℕ → Result Collision
collision_of (vehicle_1_index ∷ vehicle_2_index ∷ severity ∷ []) = ok (record {
  vehicle_1_index = vehicle_1_index;
  vehicle_2_index = vehicle_2_index;
  severity = severity;
})
collision_of _ = raise type_error

pub record DrsDisabled : Type 0 where
  pub reason : ℕ

unfoldable pub drs_disabled_of : List ℕ → Result DrsDisabled
drs_disabled_of (reason ∷ []) = ok (record { reason = reason })
drs_disabled_of _ = raise type_error

-- `event` of the packet: a member of the union, or `None`.
pub data Event : Type 0 where
  no_event : Event
  fastest_lap : FastestLap → Event
  retirement : Retirement → Event
  team_mate_in_pits : TeamMateInPits → Event
  race_winner : RaceWinner → Event
  penalty : Penalty → Event
  speed_trap : SpeedTrap → Event
  start_lights : StartLights → Event
  drive_through_penalty_served : DriveThroughPenaltyServed → Event
  stop_go_penalty_served : StopGoPenaltyServed → Event
  flashback : Flashback → Event
  buttons : Buttons → Event
  overtake : Overtake → Event
  safety_car : SafetyCar → Event
  collision : Collision → Event
  drs_disabled : DrsDisabled → Event

pub record EventPacket : Type 0 where
  pub event_string_code : List ℕ
  pub event : Event
