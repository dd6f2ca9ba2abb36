-- ===== src/Services/Rows/Columns.antt =====
-- The columns of listener/database/repositories/car_frame.py and car_frame_damage.py.
use formula1_app.Prelude.{ℕ, suc, String, Option, none, some, List, [], ◌∷◌, Option, if◌then◌else◌}
use formula1_app.Prelude.Eq.{nat_eq, list_eq, ◌=?◌}
use formula1_app.Struct.{codes}

-- CAR_FRAME_COLUMNS
abbrev pub car_frame_columns : List String
car_frame_columns =
    "timestamp" ∷ "session_uid" ∷ "user_id" ∷ "session_time" ∷ "overall_frame_identifier"
    ∷ "world_pos_x" ∷ "world_pos_y" ∷ "world_pos_z" ∷ "world_velocity_x" ∷ "world_velocity_y"
    ∷ "world_velocity_z" ∷ "world_forward_dir_x" ∷ "world_forward_dir_y" ∷ "world_forward_dir_z"
    ∷ "world_right_dir_x" ∷ "world_right_dir_y" ∷ "world_right_dir_z" ∷ "g_force_lateral"
    ∷ "g_force_longitudinal" ∷ "g_force_vertical" ∷ "yaw" ∷ "pitch" ∷ "roll" ∷ "speed" ∷ "throttle"
    ∷ "steer" ∷ "brake" ∷ "clutch" ∷ "gear" ∷ "engine_rpm" ∷ "drs" ∷ "rev_lights_percent"
    ∷ "rev_lights_bit_value" ∷ "engine_temperature" ∷ "brakes_temp_rl" ∷ "brakes_temp_rr"
    ∷ "brakes_temp_fl" ∷ "brakes_temp_fr" ∷ "tyres_surface_temp_rl" ∷ "tyres_surface_temp_rr"
    ∷ "tyres_surface_temp_fl" ∷ "tyres_surface_temp_fr" ∷ "tyres_inner_temp_rl"
    ∷ "tyres_inner_temp_rr" ∷ "tyres_inner_temp_fl" ∷ "tyres_inner_temp_fr" ∷ "tyres_pressure_rl"
    ∷ "tyres_pressure_rr" ∷ "tyres_pressure_fl" ∷ "tyres_pressure_fr" ∷ "surface_type_rl"
    ∷ "surface_type_rr" ∷ "surface_type_fl" ∷ "surface_type_fr" ∷ "mfd_panel_index"
    ∷ "mfd_panel_index_secondary_player" ∷ "suggested_gear" ∷ "last_lap_time_ms"
    ∷ "current_lap_time_ms" ∷ "sector1_time_ms" ∷ "sector2_time_ms" ∷ "lap_distance"
    ∷ "total_distance" ∷ "safety_car_delta" ∷ "position" ∷ "grid_position" ∷ "current_lap_num"
    ∷ "sector" ∷ "pit_status" ∷ "driver_status" ∷ "result_status" ∷ "current_lap_invalid"
    ∷ "gap_to_leader_ms" ∷ "gap_to_car_ahead_ms" ∷ "gap_to_car_behind_ms" ∷ "num_pit_stops"
    ∷ "pit_lane_timer_active" ∷ "pit_lane_time_ms" ∷ "pit_stop_time_ms"
    ∷ "pit_stop_should_serve_pen" ∷ "penalties_seconds" ∷ "total_warnings"
    ∷ "corner_cutting_warnings" ∷ "num_unserved_drive_through_pens" ∷ "num_unserved_stop_go_pens"
    ∷ "speed_trap_fastest_speed" ∷ "speed_trap_fastest_lap" ∷ "pit_limiter" ∷ "drs_allowed"
    ∷ "drs_activation_distance" ∷ "actual_tyre_compound" ∷ "visual_tyre_compound" ∷ "tyres_age_laps"
    ∷ "vehicle_fia_flags" ∷ "network_paused" ∷ "traction_control" ∷ "anti_lock_brakes" ∷ "max_rpm"
    ∷ "idle_rpm" ∷ "max_gears" ∷ "front_brake_bias" ∷ "fuel_mix" ∷ "fuel_in_tank" ∷ "fuel_capacity"
    ∷ "fuel_remaining_laps" ∷ "ers_store_energy" ∷ "ers_deploy_mode" ∷ "ers_deployed_this_lap"
    ∷ "ers_harvest_limit_per_lap" ∷ "ers_harvested_this_lap_mguk" ∷ "ers_harvested_this_lap_mguh"
    ∷ "engine_power_ice" ∷ "engine_power_mguk" ∷ "active_aero_mode" ∷ "active_aero_available"
    ∷ "active_aero_activation_distance" ∷ "overtake_available" ∷ "overtake_active"
    ∷ "overtake_activation_distance" ∷ "is_2026_regulations" ∷ "driving_wrong_way" ∷ []

-- CAR_FRAME_DAMAGE_COLUMNS
abbrev pub car_frame_damage_columns : List String
car_frame_damage_columns =
    "timestamp" ∷ "session_uid" ∷ "user_id" ∷ "session_time" ∷ "overall_frame_identifier"
    ∷ "tyres_wear_rl" ∷ "tyres_wear_rr" ∷ "tyres_wear_fl" ∷ "tyres_wear_fr" ∷ "tyres_damage_rl"
    ∷ "tyres_damage_rr" ∷ "tyres_damage_fl" ∷ "tyres_damage_fr" ∷ "brakes_damage_rl"
    ∷ "brakes_damage_rr" ∷ "brakes_damage_fl" ∷ "brakes_damage_fr" ∷ "tyre_blisters_rl"
    ∷ "tyre_blisters_rr" ∷ "tyre_blisters_fl" ∷ "tyre_blisters_fr" ∷ "front_left_wing_damage"
    ∷ "front_right_wing_damage" ∷ "rear_wing_damage" ∷ "floor_damage" ∷ "diffuser_damage"
    ∷ "sidepod_damage" ∷ "drs_fault" ∷ "ers_fault" ∷ "gearbox_damage" ∷ "engine_damage"
    ∷ "engine_mguh_wear" ∷ "engine_es_wear" ∷ "engine_ce_wear" ∷ "engine_ice_wear"
    ∷ "engine_mguk_wear" ∷ "engine_tc_wear" ∷ "engine_blown" ∷ "engine_seized" ∷ []

-- The place of a name: `none` is the KeyError.
unfoldable pub column_index? : List String → String → Option ℕ
column_index? [] name = none
column_index? (c ∷ cs) name =
    let rest = column_index? cs name in
    if codes c =? codes name then some 0 else elim rest [ none ↦ none | some i ↦ some (suc i) ]
