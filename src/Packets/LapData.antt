-- ===== src/Packets/LapData.antt =====
-- listener/packets/lap_data.py, packet 2.
use formula1_app.Prelude.{ℕ, ◌*◌, String, List, [], ◌∷◌, drop}
use formula1_app.Result.{Result, ok, raise, ◌>>=◌, type_error}
use formula1_app.Struct.{Bytes, calcsize, unpack}
use formula1_app.Packets.Base.{max_cars, unpack_cars}

pub record LapData : Type 0 where
  pub last_lap_time_in_ms : ℕ
  pub current_lap_time_in_ms : ℕ
  pub sector1_time_ms_part : ℕ
  pub sector1_time_minutes_part : ℕ
  pub sector2_time_ms_part : ℕ
  pub sector2_time_minutes_part : ℕ
  pub delta_to_car_in_front_ms_part : ℕ
  pub delta_to_car_in_front_minutes_part : ℕ
  pub delta_to_race_leader_ms_part : ℕ
  pub delta_to_race_leader_minutes_part : ℕ
  pub lap_distance : ℕ
  pub total_distance : ℕ
  pub safety_car_delta : ℕ
  pub car_position : ℕ
  pub current_lap_num : ℕ
  pub pit_status : ℕ
  pub num_pit_stops : ℕ
  pub sector : ℕ
  pub current_lap_invalid : ℕ
  pub penalties : ℕ
  pub total_warnings : ℕ
  pub corner_cutting_warnings : ℕ
  pub num_unserved_drive_through_pens : ℕ
  pub num_unserved_stop_go_pens : ℕ
  pub grid_position : ℕ
  pub driver_status : ℕ
  pub result_status : ℕ
  pub pit_lane_timer_active : ℕ
  pub pit_lane_time_in_lane_in_ms : ℕ
  pub pit_stop_timer_in_ms : ℕ
  pub pit_stop_should_serve_pen : ℕ
  pub speed_trap_fastest_speed : ℕ
  pub speed_trap_fastest_lap : ℕ

-- The dataclass applied to the values of one row.
unfoldable pub lap_data_of : List ℕ → Result LapData
lap_data_of
      (last_lap_time_in_ms ∷ current_lap_time_in_ms ∷ sector1_time_ms_part
        ∷ sector1_time_minutes_part ∷ sector2_time_ms_part ∷ sector2_time_minutes_part
        ∷ delta_to_car_in_front_ms_part ∷ delta_to_car_in_front_minutes_part
        ∷ delta_to_race_leader_ms_part ∷ delta_to_race_leader_minutes_part ∷ lap_distance
        ∷ total_distance ∷ safety_car_delta ∷ car_position ∷ current_lap_num ∷ pit_status
        ∷ num_pit_stops ∷ sector ∷ current_lap_invalid ∷ penalties ∷ total_warnings
        ∷ corner_cutting_warnings ∷ num_unserved_drive_through_pens ∷ num_unserved_stop_go_pens
        ∷ grid_position ∷ driver_status ∷ result_status ∷ pit_lane_timer_active
        ∷ pit_lane_time_in_lane_in_ms ∷ pit_stop_timer_in_ms ∷ pit_stop_should_serve_pen
        ∷ speed_trap_fastest_speed ∷ speed_trap_fastest_lap ∷ []) =
    ok (record {
      last_lap_time_in_ms = last_lap_time_in_ms;
      current_lap_time_in_ms = current_lap_time_in_ms;
      sector1_time_ms_part = sector1_time_ms_part;
      sector1_time_minutes_part = sector1_time_minutes_part;
      sector2_time_ms_part = sector2_time_ms_part;
      sector2_time_minutes_part = sector2_time_minutes_part;
      delta_to_car_in_front_ms_part = delta_to_car_in_front_ms_part;
      delta_to_car_in_front_minutes_part = delta_to_car_in_front_minutes_part;
      delta_to_race_leader_ms_part = delta_to_race_leader_ms_part;
      delta_to_race_leader_minutes_part = delta_to_race_leader_minutes_part;
      lap_distance = lap_distance;
      total_distance = total_distance;
      safety_car_delta = safety_car_delta;
      car_position = car_position;
      current_lap_num = current_lap_num;
      pit_status = pit_status;
      num_pit_stops = num_pit_stops;
      sector = sector;
      current_lap_invalid = current_lap_invalid;
      penalties = penalties;
      total_warnings = total_warnings;
      corner_cutting_warnings = corner_cutting_warnings;
      num_unserved_drive_through_pens = num_unserved_drive_through_pens;
      num_unserved_stop_go_pens = num_unserved_stop_go_pens;
      grid_position = grid_position;
      driver_status = driver_status;
      result_status = result_status;
      pit_lane_timer_active = pit_lane_timer_active;
      pit_lane_time_in_lane_in_ms = pit_lane_time_in_lane_in_ms;
      pit_stop_timer_in_ms = pit_stop_timer_in_ms;
      pit_stop_should_serve_pen = pit_stop_should_serve_pen;
      speed_trap_fastest_speed = speed_trap_fastest_speed;
      speed_trap_fastest_lap = speed_trap_fastest_lap;
    })
lap_data_of _ = raise type_error

pub record LapDataPacket : Type 0 where
  pub lap_data : List LapData
  pub time_trial_pb_car_idx : ℕ
  pub time_trial_rival_car_idx : ℕ

unfoldable pub lap_data_packet_of : List LapData → List ℕ → Result LapDataPacket
lap_data_packet_of cars (a ∷ b ∷ []) =
    ok (record { lap_data = cars; time_trial_pb_car_idx = a; time_trial_rival_car_idx = b })
lap_data_packet_of cars _ = raise type_error

-- _LAP_DATA_FORMAT
abbrev pub lap_data_format : String
lap_data_format = "<2LHBHBHBHB3f15B2HBfB"

unfoldable pub unpack_lap_data : Bytes → Result LapDataPacket
unfolding lap_data_of lap_data_packet_of
unpack_lap_data bytes = do
  size ← calcsize lap_data_format
  cars ← unpack_cars lap_data_of lap_data_format bytes
  tail ← unpack "<BB" (drop (size * max_cars) bytes)
  lap_data_packet_of cars tail
