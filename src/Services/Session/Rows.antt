-- ===== src/Services/Session/Rows.antt =====
-- The rows that listener/services/session.py makes, and SESSION_COLUMNS of
-- listener/database/repositories/sessions.py.
use formula1_app.Prelude.{ℕ, String, Bool, List, [], ◌∷◌, map, take, ◌==◌, if◌then◌else◌}
use formula1_app.Enums.Names.{EnumName, safe_enum_name}
use formula1_app.Enums.Sessions.{
  session_type_ids, formula, game_mode_ids, ruleset_ids, weather_ids, flag_status,
}
use formula1_app.Enums.Events.{safety_car_status}
use formula1_app.Packets.Base.{truthy}
use formula1_app.Packets.Header.{PacketHeader}
use formula1_app.Packets.Session.{SessionPacket, MarshalZone}

-- A value of a session's row: the values of Services/Rows.antt, names and lists of names.
pub data Value : Type 0 where
  null : Value
  num : ℕ → Value
  bool : Bool → Value
  uid : ℕ → Value
  time : ℕ → Value
  name : EnumName → Value
  names : List EnumName → Value

-- `n or None`, and `str(n) if n else None`
abbrev pub or_null : ℕ → Value
or_null n = if n == 0 then null else num n

abbrev pub uid_or_null : ℕ → Value
uid_or_null n = if n == 0 then null else uid n

-- `str(n) if n else session_uid`
abbrev pub or_else : ℕ → ℕ → ℕ
or_else n session_uid = if n == 0 then session_uid else n

-- SESSION_COLUMNS
abbrev pub session_columns : List String
session_columns =
    "session_uid" ∷ "weekend_link" ∷ "session_link" ∷ "season_link" ∷ "session_start_utc"
    ∷ "track_id" ∷ "session_type" ∷ "formula" ∷ "game_mode" ∷ "ruleset" ∷ "total_laps"
    ∷ "session_duration" ∷ "num_sessions_in_weekend" ∷ "weekend_structure" ∷ "time_of_day"
    ∷ "session_length" ∷ "network_game" ∷ "ai_difficulty" ∷ "forecast_accuracy"
    ∷ "equal_car_performance" ∷ "sli_pro_native_support" ∷ "assist_steering" ∷ "assist_braking"
    ∷ "assist_gearbox" ∷ "assist_pit" ∷ "assist_pit_release" ∷ "assist_ers" ∷ "assist_drs"
    ∷ "assist_anti_lock_brakes" ∷ "assist_traction_control" ∷ "dynamic_racing_line"
    ∷ "dynamic_racing_line_type" ∷ "dynamic_racing_line_hi_vis" ∷ "dynamic_racing_line_colour_blind"
    ∷ "recovery_mode" ∷ "flashback_limit" ∷ "recurring_rewind_prompt" ∷ "surface_type"
    ∷ "low_fuel_mode" ∷ "race_starts" ∷ "tyre_temperature" ∷ "pit_lane_tyre_sim" ∷ "car_damage"
    ∷ "car_damage_rate" ∷ "collisions" ∷ "collisions_off_for_first_lap_only"
    ∷ "mp_unsafe_pit_release" ∷ "mp_off_for_griefing" ∷ "corner_cutting_stringency"
    ∷ "parc_ferme_rules" ∷ "pit_stop_experience" ∷ "safety_car" ∷ "safety_car_experience"
    ∷ "formation_lap" ∷ "formation_lap_experience" ∷ "red_flags" ∷ "affects_licence_level_solo"
    ∷ "affects_licence_level_mp" ∷ "speed_units_lead_player" ∷ "temperature_units_lead_player"
    ∷ "speed_units_secondary_player" ∷ "temperature_units_secondary_player" ∷ []

-- The tuple of `insert_session`.
unfoldable pub session_row : PacketHeader → SessionPacket → ℕ → ℕ → List Value
session_row h p session_type session_start =
    uid h.session_uid
    ∷ uid (or_else p.weekend_link_identifier h.session_uid)
    ∷ uid (or_else p.session_link_identifier h.session_uid)
    ∷ uid_or_null p.season_link_identifier
    ∷ time session_start
    ∷ num p.track_id
    ∷ name (safe_enum_name session_type_ids session_type)
    ∷ name (safe_enum_name formula p.formula_type)
    ∷ name (safe_enum_name game_mode_ids p.game_mode)
    ∷ name (safe_enum_name ruleset_ids p.rule_set)
    ∷ num p.total_laps
    ∷ num p.session_duration
    ∷ num p.num_sessions_in_weekend
    ∷ names
        (map (safe_enum_name session_type_ids) (take p.num_sessions_in_weekend p.weekend_structure))
    ∷ num p.time_of_day
    ∷ num p.session_length
    ∷ bool (truthy p.network_game)
    ∷ num p.ai_difficulty
    ∷ num p.forecast_accuracy
    ∷ bool (truthy p.equal_car_performance)
    ∷ bool (truthy p.sli_pro_native_support)
    ∷ num p.assist_steering
    ∷ num p.assist_braking
    ∷ num p.assist_gearbox
    ∷ num p.assist_pit
    ∷ num p.assist_pit_release
    ∷ num p.assist_ers
    ∷ num p.assist_drs
    ∷ num p.anti_lock_brakes_assist
    ∷ num p.traction_control_assist
    ∷ num p.dynamic_racing_line
    ∷ num p.dynamic_racing_line_type
    ∷ num p.dynamic_racing_line_hi_vis
    ∷ num p.dynamic_racing_line_colour_blind
    ∷ num p.recovery_mode
    ∷ num p.flashback_limit
    ∷ num p.recurring_rewind_prompt
    ∷ num p.surface_type
    ∷ num p.low_fuel_mode
    ∷ num p.race_starts
    ∷ num p.tyre_temperature
    ∷ num p.pit_lane_tyre_sim
    ∷ num p.car_damage
    ∷ num p.car_damage_rate
    ∷ num p.collisions
    ∷ num p.collisions_off_for_first_lap_only
    ∷ num p.mp_unsafe_pit_release
    ∷ num p.mp_off_for_griefing
    ∷ num p.corner_cutting_stringency
    ∷ num p.parc_ferme_rules
    ∷ num p.pit_stop_experience
    ∷ num p.safety_car
    ∷ num p.safety_car_experience
    ∷ num p.formation_lap
    ∷ num p.formation_lap_experience
    ∷ num p.red_flags
    ∷ num p.affects_licence_level_solo
    ∷ num p.affects_licence_level_mp
    ∷ num p.speed_units_lead_player
    ∷ num p.temperature_units_lead_player
    ∷ num p.speed_units_secondary_player
    ∷ num p.temperature_units_secondary_player
    ∷ []

unfoldable pub marshal_zone_flag : MarshalZone → EnumName
marshal_zone_flag z = safe_enum_name flag_status z.zone_flag

-- The tuple of `insert_timeline_entry`.
unfoldable pub timeline_row : PacketHeader → SessionPacket → ℕ → List Value
timeline_row h p timestamp =
    time timestamp
    ∷ uid h.session_uid
    ∷ num h.session_time
    ∷ num h.overall_frame_identifier
    ∷ num p.session_time_left
    ∷ or_null p.total_laps
    ∷ name (safe_enum_name weather_ids p.weather)
    ∷ num p.track_temperature
    ∷ num p.air_temperature
    ∷ name (safe_enum_name safety_car_status p.safety_car_status)
    ∷ names (map marshal_zone_flag (take p.num_marshal_zones p.marshal_zones))
    ∷ num p.num_safety_car_periods
    ∷ num p.num_virtual_safety_car_periods
    ∷ num p.num_red_flag_periods
    ∷ bool (truthy p.game_paused)
    ∷ bool (truthy p.is_spectating)
    ∷ num p.spectator_car_index
    ∷ or_null p.pit_stop_window_ideal_lap
    ∷ or_null p.pit_stop_window_latest_lap
    ∷ or_null p.pit_stop_rejoin_position
    ∷ []
