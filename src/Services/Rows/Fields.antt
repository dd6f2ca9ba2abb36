-- ===== src/Services/Rows/Fields.antt =====
-- listener/services/car_frame.py: the functions that build the parts of a frame's row. The length of
-- the NULLs that stand for a missing packet is written in each, as in the source.
use formula1_app.Prelude.{
  Bool, true, false, Option, none, some, [], ◌∷◌, ◌++◌, map, replicate, not, if◌then◌else◌,
}
use formula1_app.Packets.Base.{truthy}
use formula1_app.Packets.Motion.{CarMotionData}
use formula1_app.Packets.CarTelemetry.{CarTelemetryData, CarTelemetryPacket}
use formula1_app.Packets.LapData.{LapData}
use formula1_app.Packets.CarStatus.{CarStatusData}
use formula1_app.Packets.CarDamage.{CarDamageData}
use formula1_app.Packets.CarTelemetry2.{CarTelemetry2Data}
use formula1_app.Services.Rows.{
  null, num, bool, quotient, Row, or_null, float_or_null, set_or_null, split_time_ms,
}

-- `_build_motion_fields`
unfoldable pub motion_fields : Option CarMotionData → Row
motion_fields none = replicate 18 null
motion_fields (some motion) =
    (num motion.world_position_x
      ∷ num motion.world_position_y
      ∷ num motion.world_position_z
      ∷ num motion.world_velocity_x
      ∷ num motion.world_velocity_y
      ∷ num motion.world_velocity_z
      ∷ quotient motion.world_forward_dir_x
      ∷ quotient motion.world_forward_dir_y
      ∷ quotient motion.world_forward_dir_z
      ∷ quotient motion.world_right_dir_x
      ∷ quotient motion.world_right_dir_y
      ∷ quotient motion.world_right_dir_z
      ∷ quotient motion.g_force_lateral
      ∷ quotient motion.g_force_longitudinal
      ∷ quotient motion.g_force_vertical
      ∷ num motion.yaw
      ∷ num motion.pitch
      ∷ num motion.roll
      ∷ [])

-- `_build_telemetry_fields`
unfoldable pub telemetry_fields : Option CarTelemetryData → Row
telemetry_fields none = replicate 31 null
telemetry_fields (some telemetry) =
    (num telemetry.speed
      ∷ num telemetry.throttle
      ∷ num telemetry.steer
      ∷ num telemetry.brake
      ∷ num telemetry.clutch
      ∷ num telemetry.gear
      ∷ num telemetry.engine_rpm
      ∷ bool (truthy telemetry.drs)
      ∷ num telemetry.rev_lights_percent
      ∷ num telemetry.rev_lights_bit_value
      ∷ num telemetry.engine_temperature
      ∷ [])
    ++ (map num telemetry.brakes_temperature
        ++ (map num telemetry.tyres_surface_temp
            ++ (map num telemetry.tyres_inner_temp
                ++ (map num telemetry.tyres_pressure ++ (map num telemetry.surface_type)))))

-- `_build_player_telemetry_fields`
unfoldable pub player_telemetry_fields : Option CarTelemetryPacket → Bool → Row
player_telemetry_fields none is_player = replicate 3 null
player_telemetry_fields (some telemetry_packet) is_player =
    if not is_player
    then replicate 3 null
    else (num telemetry_packet.mfd_panel_index
        ∷ num telemetry_packet.mfd_panel_index_secondary_player
        ∷ num telemetry_packet.suggested_gear
        ∷ [])

-- `_build_lap_fields`
unfoldable pub lap_fields : Option LapData → Row
lap_fields none = replicate 30 null
lap_fields (some lap) =
    (or_null lap.last_lap_time_in_ms
      ∷ num lap.current_lap_time_in_ms
      ∷ or_null (split_time_ms lap.sector1_time_minutes_part lap.sector1_time_ms_part)
      ∷ or_null (split_time_ms lap.sector2_time_minutes_part lap.sector2_time_ms_part)
      ∷ num lap.lap_distance
      ∷ num lap.total_distance
      ∷ num lap.safety_car_delta
      ∷ set_or_null lap.car_position
      ∷ or_null lap.grid_position
      ∷ num lap.current_lap_num
      ∷ num lap.sector
      ∷ num lap.pit_status
      ∷ num lap.driver_status
      ∷ num lap.result_status
      ∷ bool (truthy lap.current_lap_invalid)
      ∷ num (split_time_ms lap.delta_to_race_leader_minutes_part lap.delta_to_race_leader_ms_part)
      ∷ num (split_time_ms lap.delta_to_car_in_front_minutes_part lap.delta_to_car_in_front_ms_part)
      ∷ null
      ∷ num lap.num_pit_stops
      ∷ bool (truthy lap.pit_lane_timer_active)
      ∷ num lap.pit_lane_time_in_lane_in_ms
      ∷ num lap.pit_stop_timer_in_ms
      ∷ bool (truthy lap.pit_stop_should_serve_pen)
      ∷ num lap.penalties
      ∷ num lap.total_warnings
      ∷ num lap.corner_cutting_warnings
      ∷ num lap.num_unserved_drive_through_pens
      ∷ num lap.num_unserved_stop_go_pens
      ∷ float_or_null lap.speed_trap_fastest_speed
      ∷ set_or_null lap.speed_trap_fastest_lap
      ∷ [])

-- `_build_status_public_fields`
unfoldable pub status_public_fields : Option CarStatusData → Row
status_public_fields none = replicate 13 null
status_public_fields (some status) =
    (bool (truthy status.pit_limiter)
      ∷ bool (truthy status.drs_allowed)
      ∷ num status.drs_activation_distance
      ∷ num status.actual_tyre_compound
      ∷ num status.visual_tyre_compound
      ∷ set_or_null status.tyres_age_laps
      ∷ num status.vehicle_fia_flags
      ∷ bool (truthy status.network_paused)
      ∷ num status.traction_control
      ∷ bool (truthy status.anti_lock_brakes)
      ∷ num status.max_rpm
      ∷ num status.idle_rpm
      ∷ num status.max_gears
      ∷ [])

-- `_build_status_restricted_fields`
unfoldable pub status_restricted_fields : Option CarStatusData → Bool → Row
status_restricted_fields none is_restricted = replicate 13 null
status_restricted_fields (some status) is_restricted =
    if is_restricted
    then replicate 13 null
    else (num status.front_brake_bias
        ∷ num status.fuel_mix
        ∷ num status.fuel_in_tank
        ∷ num status.fuel_capacity
        ∷ num status.fuel_remaining_laps
        ∷ num status.ers_store_energy
        ∷ num status.ers_deploy_mode
        ∷ num status.ers_deployed_this_lap
        ∷ num status.ers_harvest_limit_per_lap
        ∷ num status.ers_harvested_this_lap_mguk
        ∷ num status.ers_harvested_this_lap_mguh
        ∷ num status.engine_power_ice
        ∷ num status.engine_power_mguk
        ∷ [])

-- `_build_damage_fields`
unfoldable pub damage_fields : Option CarDamageData → Row
damage_fields none = replicate 34 null
damage_fields (some damage) =
    map num damage.tyres_wear
    ++ (map num damage.tyres_damage
        ++ (map num damage.brakes_damage
            ++ (map num damage.tyre_blisters
                ++ ((num damage.front_left_wing_damage
                    ∷ num damage.front_right_wing_damage
                    ∷ num damage.rear_wing_damage
                    ∷ num damage.floor_damage
                    ∷ num damage.diffuser_damage
                    ∷ num damage.sidepod_damage
                    ∷ bool damage.drs_fault
                    ∷ bool damage.ers_fault
                    ∷ num damage.gearbox_damage
                    ∷ num damage.engine_damage
                    ∷ num damage.engine_mguh_wear
                    ∷ num damage.engine_es_wear
                    ∷ num damage.engine_ce_wear
                    ∷ num damage.engine_ice_wear
                    ∷ num damage.engine_mguk_wear
                    ∷ num damage.engine_tc_wear
                    ∷ bool damage.engine_blown
                    ∷ bool damage.engine_seized
                    ∷ [])))))

-- `_build_telemetry2_fields`
unfoldable pub telemetry2_fields : Option CarTelemetry2Data → Row
telemetry2_fields none = replicate 8 null
telemetry2_fields (some telemetry2) =
    if not (truthy telemetry2.regulations_2026)
    then replicate 6 null ++ (bool false ∷ bool (truthy telemetry2.driving_wrong_way) ∷ [])
    else (num telemetry2.active_aero_mode
        ∷ bool (truthy telemetry2.active_aero_available)
        ∷ num telemetry2.active_aero_activation_distance
        ∷ bool (truthy telemetry2.overtake_available)
        ∷ bool (truthy telemetry2.overtake_active)
        ∷ num telemetry2.overtake_activation_distance
        ∷ bool true
        ∷ bool (truthy telemetry2.driving_wrong_way)
        ∷ [])
