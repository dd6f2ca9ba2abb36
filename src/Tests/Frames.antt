-- ===== src/Tests/Frames.antt =====
-- listener/services/car_frame.py at concrete inputs.
use formula1_app.Prelude.{
  ℕ, ◌≡◌, refl, true, false, none, some, List, [], ◌∷◌, ◌++◌, replicate, arith, get_elem?, map,
}
use formula1_app.Result.{Result, ok, Holds, traverse}
use formula1_app.Dict
use formula1_app.Struct.{
  calcsize, parse_format, iter_unpack, iter_unpack_fields, sum, read_rows, read_fields, number,
}
use formula1_app.Packets.CarTelemetry2.{unpack_car_telemetry2}
use formula1_app.Prelude.{All}
use formula1_app.Packets.Base.{max_cars, unpack_cars, unpack_rows}
use formula1_app.Packets.Header.{PacketHeader}
use formula1_app.Packets.LapData.{LapData}
use formula1_app.Packets.CarStatus.{CarStatusData}
use formula1_app.Packets.CarDamage.{CarDamageData}
use formula1_app.Packets.CarTelemetry2.{CarTelemetry2Data}
use formula1_app.Dispatcher.State.{FrameData, FrameWrite, Payload}
use formula1_app.Dispatcher.Frames.{frame_data}
use formula1_app.FrameBuffer.{Packets}
use formula1_app.Services.Rows.{num, null, Row, timestamp}
use formula1_app.Services.Rows.Columns.{column_index?}
use formula1_app.Services.CarFrame.{write_frame, Call, fill_gap_to_car_behind}
use formula1_app.Services.CarFrame.Complete.{CallWide, write_frame-CallWide}
use formula1_app.Services.CarFrame.Withheld.{with_private_values, write_frame-with_private_values}
use formula1_app.Services.CarFrame.Gaps.{FilledWith, gap_behind, fill_gap_to_car_behind-FilledWith}
use formula1_app.Services.CarFrame.Drivers.{AllSized, IsSized, drivers, is_out, shows_damage}
use formula1_app.Services.CarFrame.Written.{frame_users, damage_users, write_frame_drivers}

abbrev plus_seconds : ℕ → ℕ → Result ℕ
plus_seconds start session_time = ok start

abbrev header : PacketHeader
header = record {
  packet_format = 0;
  game_year = 0;
  game_major_version = 0;
  game_minor_version = 0;
  packet_version = 0;
  packet_id = 0;
  session_uid = 7;
  session_time = 0;
  frame_identifier = 0;
  overall_frame_identifier = 5;
  player_car_index = 0;
  secondary_player_car_index = 0;
}

abbrev packets : Packets Payload
packets = (16, (header, replicate 240 0)) ∷ []

abbrev telemetry2 : CarTelemetry2Data
telemetry2 = record {
  active_aero_mode = 0;
  active_aero_available = 0;
  active_aero_activation_distance = 0;
  overtake_available = 0;
  overtake_active = 0;
  overtake_activation_distance = 0;
  regulations_2026 = 0;
  driving_wrong_way = 0;
}

abbrev lap : ℕ → LapData
lap status = record {
  last_lap_time_in_ms = 0;
  current_lap_time_in_ms = 0;
  sector1_time_ms_part = 0;
  sector1_time_minutes_part = 0;
  sector2_time_ms_part = 0;
  sector2_time_minutes_part = 0;
  delta_to_car_in_front_ms_part = 0;
  delta_to_car_in_front_minutes_part = 0;
  delta_to_race_leader_ms_part = 0;
  delta_to_race_leader_minutes_part = 0;
  lap_distance = 0;
  total_distance = 0;
  safety_car_delta = 0;
  car_position = 1;
  current_lap_num = 0;
  pit_status = 0;
  num_pit_stops = 0;
  sector = 0;
  current_lap_invalid = 0;
  penalties = 0;
  total_warnings = 0;
  corner_cutting_warnings = 0;
  num_unserved_drive_through_pens = 0;
  num_unserved_stop_go_pens = 0;
  grid_position = 0;
  driver_status = status;
  result_status = 0;
  pit_lane_timer_active = 0;
  pit_lane_time_in_lane_in_ms = 0;
  pit_stop_timer_in_ms = 0;
  pit_stop_should_serve_pen = 0;
  speed_trap_fastest_speed = 0;
  speed_trap_fastest_lap = 0;
}

abbrev status : ℕ → CarStatusData
status n = record {
  pit_limiter = n;
  drs_allowed = n;
  drs_activation_distance = n;
  actual_tyre_compound = n;
  visual_tyre_compound = n;
  tyres_age_laps = n;
  vehicle_fia_flags = n;
  network_paused = n;
  traction_control = n;
  anti_lock_brakes = n;
  max_rpm = n;
  idle_rpm = n;
  max_gears = n;
  front_brake_bias = n;
  fuel_mix = n;
  fuel_in_tank = n;
  fuel_capacity = n;
  fuel_remaining_laps = n;
  ers_store_energy = n;
  ers_deploy_mode = n;
  ers_deployed_this_lap = n;
  ers_harvest_limit_per_lap = n;
  ers_harvested_this_lap_mguk = n;
  ers_harvested_this_lap_mguh = n;
  engine_power_ice = n;
  engine_power_mguk = n;
}

abbrev damage : CarDamageData
damage = record {
  tyres_wear = 0 ∷ 0 ∷ 0 ∷ 0 ∷ [];
  tyres_damage = 0 ∷ 0 ∷ 0 ∷ 0 ∷ [];
  brakes_damage = 0 ∷ 0 ∷ 0 ∷ 0 ∷ [];
  tyre_blisters = 0 ∷ 0 ∷ 0 ∷ 0 ∷ [];
  front_left_wing_damage = 0;
  front_right_wing_damage = 0;
  rear_wing_damage = 0;
  floor_damage = 0;
  diffuser_damage = 0;
  sidepod_damage = 0;
  drs_fault = false;
  ers_fault = false;
  gearbox_damage = 0;
  engine_damage = 0;
  engine_mguh_wear = 0;
  engine_es_wear = 0;
  engine_ce_wear = 0;
  engine_ice_wear = 0;
  engine_mguk_wear = 0;
  engine_tc_wear = 0;
  engine_blown = false;
  engine_seized = false;
}

abbrev frame : FrameData
frame = record {
  motion_data = none;
  telemetry_packet = none;
  lap_data_list = none;
  car_status_data = none;
  car_damage_data = none;
  car_telemetry2_data = some (replicate 24 telemetry2);
}

-- Car 1 is in the garage, and the driver of car 2 is restricted.
abbrev laps_frame : FrameData
laps_frame = record frame {
  lap_data_list = some (lap 1 ∷ lap 0 ∷ replicate 22 (lap 1));
  car_status_data = some (replicate 24 (status 3));
  car_damage_data = some (replicate 24 damage);
}

abbrev sent_frame : FrameData → FrameWrite
sent_frame f = record {
  session_uid = 7;
  session_time = 0;
  overall_frame_identifier = 5;
  user_map = (0, 10) ∷ (1, 11) ∷ (2, 12) ∷ [];
  frame = f;
  player_car_index = 0;
  restricted_indices = 2 ∷ [];
  session_start = none;
  race_started = true;
}

write_frame-CallWide_example :
    Holds (All CallWide) (write_frame plus_seconds true 100 (sent_frame frame))
unfolding frame_data Dict.lookup unpack_car_telemetry2 unpack_cars calcsize parse_format unpack_rows
    iter_unpack iter_unpack_fields sum traverse read_rows read_fields number
write_frame-CallWide_example =
    write_frame-CallWide plus_seconds true 100 packets (sent_frame frame) refl

write_frame-with_private_values_example :
    write_frame plus_seconds true 100
      (with_private_values (status 9) damage (sent_frame laps_frame))
    ≡ write_frame plus_seconds true 100 (sent_frame laps_frame)
write_frame-with_private_values_example =
    write_frame-with_private_values plus_seconds true 100 (sent_frame laps_frame) (status 9) damage

-- A row with a position and a gap ahead.
abbrev row : ℕ → ℕ → Row
row position gap = replicate 64 null ++ num position ∷ replicate 8 null ++ num gap ∷ null ∷ []

fill_gap_to_car_behind-FilledWith_example :
    (after : Row) × (get_elem? (fill_gap_to_car_behind (row 1 0 ∷ row 2 350 ∷ [])) 0 ≡ some after)
    × FilledWith (gap_behind (row 1 0 ∷ row 2 350 ∷ []) (row 1 0)) (row 1 0) after
unfolding column_index?
fill_gap_to_car_behind-FilledWith_example =
    fill_gap_to_car_behind-FilledWith (row 1 0 ∷ row 2 350 ∷ []) 0 (row 1 0) refl (omega arith)

write_frame_drivers_example :
    (calls : List Call) × (write_frame plus_seconds true 100 (sent_frame laps_frame) ≡ ok calls)
    × (frame_users calls
        ≡ map num (drivers (is_out (sent_frame laps_frame)) (sent_frame laps_frame) max_cars 0))
    × (damage_users calls
        ≡ map num
            (drivers (shows_damage (sent_frame laps_frame)) (sent_frame laps_frame) max_cars 0))
unfolding AllSized IsSized timestamp
write_frame_drivers_example =
    write_frame_drivers plus_seconds 100 100 (sent_frame laps_frame)
      (tt, tt, omega arith, omega arith, omega arith, omega arith) refl refl
