-- ===== src/Services/Events.antt =====
-- listener/services/events.py: each event goes to the repository of its kind. An exception is logged
-- and dropped, so an event without the fields of its code makes no call; the parser gives each code
-- its own member. The codes have four characters and no spaces, so `strip` changes none of them.
pub mod Rows
use formula1_app.Prelude.{
  ℕ, String, Bool, not, ◌||◌, Option, none, some, List, [], ◌∷◌, bit_and, ◌==◌, if◌then◌else◌,
  false,
}
use formula1_app.Prelude.Eq.{◌=?◌, nat_eq, list_eq}
use formula1_app.Struct.{codes}
use formula1_app.Dict
use formula1_app.Dict.{Dict}
use formula1_app.Enums.Names.{Enum, EnumName, safe_enum_name}
use formula1_app.Enums.Events.{
  button_flags, safety_car_status, safety_car_event_type, drs_disabled_reason, penalty_type,
  infringement_type, result_reason,
}
use formula1_app.Packets.Base.{truthy}
use formula1_app.Packets.Header.{PacketHeader}
use formula1_app.Packets.Events.Union.{
  Event, EventPacket, Penalty, SpeedTrap, Flashback, Buttons, no_event, fastest_lap, retirement,
  team_mate_in_pits, race_winner, penalty, speed_trap, start_lights, drive_through_penalty_served,
  stop_go_penalty_served, buttons, overtake, safety_car, collision, drs_disabled,
}
use formula1_app.Services.Events.Rows.{
  At, RaceControl, PenaltyRow, SpeedTrapRow, Call, insert_race_control, insert_overtake,
  insert_collision, insert_penalty, insert_fastest_lap, insert_retirement, insert_speed_trap,
  insert_driver_action, insert_buttons, insert_flashback,
}

-- The repositories that may be missing.
pub record Repositories : Type 0 where
  pub has_flashbacks : Bool
  pub has_buttons : Bool

-- `_resolve_driver`
unfoldable pub resolve_driver : Dict ℕ ℕ → ℕ → Option ℕ
resolve_driver user_map vehicle_index = Dict.lookup vehicle_index user_map

-- `n if n != _NOT_SET else None`
unfoldable pub unless_not_set : ℕ → Option ℕ
unless_not_set n = if n == 255 then none else some n

abbrev pub no_arguments : RaceControl
no_arguments = record {
  safety_car_type = none;
  safety_car_event = none;
  num_lights = none;
  disabled_reason = none;
}

-- `kwargs` of `_handle_race_control`; `none` is the AttributeError.
unfoldable pub race_control_arguments : List ℕ → Event → Option RaceControl
race_control_arguments code no_event = some no_arguments
race_control_arguments code (safety_car e) =
    if code =? codes "SCAR"
    then some (record no_arguments {
      safety_car_type = some (safe_enum_name safety_car_status e.safety_car_type);
      safety_car_event = some (safe_enum_name safety_car_event_type e.event_type);
    })
    else if code =? codes "STLG" || code =? codes "DRSD"
    then none
    else some no_arguments
race_control_arguments code (start_lights e) =
    if code =? codes "STLG"
    then some (record no_arguments { num_lights = some e.num_of_lights })
    else if code =? codes "SCAR" || code =? codes "DRSD"
    then none
    else some no_arguments
race_control_arguments code (drs_disabled e) =
    if code =? codes "DRSD"
    then some (record no_arguments {
      disabled_reason = some (safe_enum_name drs_disabled_reason e.reason);
    })
    else if code =? codes "SCAR" || code =? codes "STLG"
    then none
    else some no_arguments
race_control_arguments code _ =
    if code =? codes "SCAR" || (code =? codes "STLG" || code =? codes "DRSD")
    then none
    else some no_arguments

-- `_handle_race_control`
unfoldable pub handle_race_control : At → List ℕ → Event → List Call
handle_race_control at code event = elim (race_control_arguments code event) [
  | none ↦ []
  | some arguments ↦ insert_race_control at code arguments ∷ []
]

-- What is made of two drivers, or of one, if the map has them.
unfoldable pub with_driver : Dict ℕ ℕ → ℕ → (ℕ → Call) → List Call
with_driver user_map vehicle_index call = elim (resolve_driver user_map vehicle_index) [
  | none ↦ []
  | some user_id ↦ call user_id ∷ []
]

unfoldable pub with_drivers : Dict ℕ ℕ → ℕ → ℕ → (ℕ → ℕ → Call) → List Call
with_drivers user_map vehicle_1 vehicle_2 call = elim (resolve_driver user_map vehicle_1) [
  | none ↦ []
  | some driver1 ↦ with_driver user_map vehicle_2 (call driver1)
]

unfoldable pub penalty_row : Dict ℕ ℕ → Penalty → ℕ → PenaltyRow
penalty_row user_map e user_id = record {
  user_id = user_id;
  other_user_id =
      if e.other_vehicle_index == 255 then none else resolve_driver user_map e.other_vehicle_index;
  type_name = safe_enum_name penalty_type e.penalty_type;
  infringement_name = safe_enum_name infringement_type e.infringement_type;
  time_seconds = unless_not_set e.time;
  lap_num = unless_not_set e.lap_num;
  places_gained = unless_not_set e.places_gained;
}

unfoldable pub speed_trap_row : Dict ℕ ℕ → SpeedTrap → ℕ → SpeedTrapRow
speed_trap_row user_map e user_id = record {
  user_id = user_id;
  speed = e.speed;
  is_overall_fastest = truthy e.is_overall_fastest_in_session;
  is_driver_fastest = truthy e.is_driver_fastest_in_session;
  fastest_user_id = Dict.lookup e.fastest_vehicle_index_in_session user_map;
  fastest_speed = e.fastest_speed_in_session;
}

-- The flags whose bit is set.
unfoldable pub pressed : ℕ → Enum → List String
pressed button_status [] = []
pressed button_status ((value, flag) ∷ flags) =
    let rest = pressed button_status flags in
    if bit_and value button_status == 0 then rest else flag ∷ rest

-- `_handle_buttons` of a button event.
unfoldable pub handle_buttons : Repositories → At → Buttons → List Call
handle_buttons repos at e =
    if not repos.has_buttons
    then []
    else insert_buttons at e.button_status (pressed e.button_status button_flags) ∷ []

-- The handlers of the codes that are not race control's, by the member that each code has.
unfoldable pub handle_member : Repositories → At → List ℕ → Event → Dict ℕ ℕ → List Call
handle_member repos at code (overtake e) user_map =
    with_drivers user_map e.overtaking_vehicle_index e.being_overtaken_vehicle_index
      (insert_overtake at)
handle_member repos at code (collision e) user_map =
    with_drivers user_map e.vehicle_1_index e.vehicle_2_index
      (λ driver1 driver2. insert_collision at driver1 driver2 e.severity)
handle_member repos at code (penalty e) user_map =
    with_driver user_map e.vehicle_index
      (λ user_id. insert_penalty at (penalty_row user_map e user_id))
handle_member repos at code (fastest_lap e) user_map =
    with_driver user_map e.vehicle_index (λ user_id. insert_fastest_lap at user_id e.lap_time)
handle_member repos at code (retirement e) user_map =
    with_driver user_map e.vehicle_index
      (λ user_id. insert_retirement at user_id (safe_enum_name result_reason e.reason))
handle_member repos at code (speed_trap e) user_map =
    with_driver user_map e.vehicle_index
      (λ user_id. insert_speed_trap at (speed_trap_row user_map e user_id))
handle_member repos at code (race_winner e) user_map =
    with_driver user_map e.vehicle_index (λ user_id. insert_driver_action at code user_id none)
handle_member repos at code (team_mate_in_pits e) user_map =
    with_driver user_map e.vehicle_index (λ user_id. insert_driver_action at code user_id none)
handle_member repos at code (drive_through_penalty_served e) user_map =
    with_driver user_map e.vehicle_index (λ user_id. insert_driver_action at code user_id none)
handle_member repos at code (stop_go_penalty_served e) user_map =
    with_driver user_map e.vehicle_index
      (λ user_id. insert_driver_action at code user_id (some e.stop_time))
handle_member repos at code (buttons e) user_map = handle_buttons repos at e
handle_member repos at code _ user_map = []

-- The tests on the code, for the member that the parser gives with it. A code with another member
-- does not come from the parser.
unfoldable pub fits : List ℕ → Event → Bool
fits code (overtake _) = code =? codes "OVTK"
fits code (collision _) = code =? codes "COLL"
fits code (penalty _) = code =? codes "PENA"
fits code (fastest_lap _) = code =? codes "FTLP"
fits code (retirement _) = code =? codes "RTMT"
fits code (speed_trap _) = code =? codes "SPTP"
fits code (buttons _) = code =? codes "BUTN"
fits code (race_winner _) = code =? codes "RCWN"
fits code (team_mate_in_pits _) = code =? codes "TMPT"
fits code (drive_through_penalty_served _) = code =? codes "DTSV"
fits code (stop_go_penalty_served _) = code =? codes "SGSV"
fits code _ = false

-- _RACE_CONTROL_CODES
unfoldable pub is_race_control : List ℕ → Bool
is_race_control code =
    code =? codes "SSTA"
    || (code =? codes "SEND"
        || (code =? codes "LGOT"
            || (code =? codes "CHQF"
                || (code =? codes "RDFL"
                    || (code =? codes "DRSE"
                        || (code =? codes "DRSD"
                            || (code =? codes "STLG" || code =? codes "SCAR")))))))

-- `handle_event_packet`
unfoldable pub handle_event_packet :
    Repositories → PacketHeader → EventPacket → Dict ℕ ℕ → List Call
handle_event_packet repos h p user_map =
    let at : At = record {
      session_uid = h.session_uid;
      overall_frame_identifier = h.overall_frame_identifier;
      session_time = h.session_time;
    } in
    if is_race_control p.event_string_code
    then handle_race_control at p.event_string_code p.event
    else if fits p.event_string_code p.event
    then handle_member repos at p.event_string_code p.event user_map
    else []

-- `record_flashback`
unfoldable pub record_flashback : Repositories → At → Flashback → ℕ → List Call
record_flashback repos at e rows_discarded =
    if not repos.has_flashbacks
    then []
    else insert_flashback at e.flashback_frame_identifier e.flashback_session_time rows_discarded
      ∷ []
