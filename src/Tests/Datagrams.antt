-- ===== src/Tests/Datagrams.antt =====
-- listener/packets/ and listener/dispatcher.py at concrete inputs. The services of these tests
-- count their calls.
use formula1_app.Prelude.{
  ℕ, suc, ◌≡◌, refl, true, some, List, [], ◌∷◌, ◌++◌, ◌↔◌, arith, inl, inr, none, ◌⊎◌, length, take,
  replicate, length-replicate,
}
use formula1_app.Prelude.Eq.{nat_eq, pair_eq}
use formula1_app.Result.{Result, ok}
use formula1_app.Dict
use formula1_app.Bounded
use formula1_app.Bounded.{BoundedDict}
use formula1_app.Struct.{
  Bytes, pack_fields, unpack, parse_format, parse_fields, fields_of, width?, unpack_fields,
  read_fields, number, sum,
}
use formula1_app.FrameBuffer
use formula1_app.FrameBuffer.{add, check_periodic_flush}
use formula1_app.Packets.Base.{max_cars}
use formula1_app.Packets.Header
use formula1_app.Packets.Header.{
  PacketHeader, Log, packet_header_size, unpack_packet_header, validate_packet_header,
  log_format_rejection_once, packet_header_of, is_variable_length,
}
use formula1_app.Packets.Header.Validate.{
  IsTaken, validate_packet_header_iff, header_values, header_widths, unpack-pack_header,
}
use formula1_app.Packets.LapData.{LapData, LapDataPacket, unpack_lap_data}
use formula1_app.Packets.CarTelemetry.{CarTelemetryPacket, unpack_car_telemetry}
use formula1_app.Packets.Total.{unpack_lap_data-Gives, unpack_car_telemetry-Gives}
use formula1_app.Dispatcher.State
use formula1_app.Dispatcher.State.{FrameData, Services, Dispatcher, UserMap}
use formula1_app.Dispatcher.Frames.{is_not_false, frame_write, backstop, check_lap}
use formula1_app.Dispatcher.Routes.{reset_laps, is_car_frame}
use formula1_app.Dispatcher.Handle.{handle_packet, is_body_size}
use formula1_app.Dispatcher.Valid.{Valid}
use formula1_app.Dispatcher.Invariant.{handle_packet-Valid}
use formula1_app.Dispatcher.Gate.{OnlyLogged, unknown, handle_packet_refused}
use formula1_app.Dispatcher.Buffered.{pending-handle_packet}
use formula1_app.FrameBuffer.Laws.{pending, pending_in}
use formula1_app.Dispatcher.Race.{IsRacing, race_started-backstop, get-reset_laps}

abbrev header : ℕ → PacketHeader
header i = record {
  packet_format = 2026;
  game_year = 26;
  game_major_version = 1;
  game_minor_version = 0;
  packet_version = 1;
  packet_id = i;
  session_uid = 7;
  session_time = 1073741824;
  frame_identifier = 4;
  overall_frame_identifier = 4;
  player_car_index = 0;
  secondary_player_car_index = 255;
}

-- The header of packet 16 on the wire.
abbrev head : Bytes
head =
    234 ∷ 7 ∷ 26 ∷ 1 ∷ 0 ∷ 1 ∷ 16 ∷ 7 ∷ 0 ∷ 0 ∷ 0 ∷ 0 ∷ 0 ∷ 0 ∷ 0 ∷ 0 ∷ 0 ∷ 0 ∷ 64 ∷ 4 ∷ 0 ∷ 0 ∷ 0
    ∷ 4 ∷ 0 ∷ 0 ∷ 0 ∷ 0 ∷ 255 ∷ []

abbrev log : Log
log = Header.init

validate_packet_header_iff_example :
    ((validate_packet_header (header 16) log).0 ≡ ok tt) ↔ IsTaken (header 16)
validate_packet_header_iff_example = validate_packet_header_iff (header 16) log

unpack-pack_header_example :
    unpack_packet_header (pack_fields header_widths (header_values (header 16))) ≡ ok (header 16)
unpack-pack_header_example = unpack-pack_header (header 16) (
  omega arith,
  (
    omega arith,
    (
      omega arith,
      (
        omega arith,
        (
          omega arith,
          (
            omega arith,
            (
              omega arith,
              (omega arith, (omega arith, (omega arith, (omega arith, (omega arith, tt))))),
            ),
          ),
        ),
      ),
    ),
  ),
)

unpack_lap_data-Gives_example :
    (p : LapDataPacket) × (unpack_lap_data (replicate 1370 0) ≡ ok p)
    × (length p.lap_data ≡ max_cars)
unpack_lap_data-Gives_example =
    unpack_lap_data-Gives (replicate 1370 0) (length-replicate {A = ℕ} 1370 0)

unpack_car_telemetry-Gives_example :
    (p : CarTelemetryPacket) × (unpack_car_telemetry (replicate 1419 0) ≡ ok p)
    × (length p.car_telemetry_data ≡ max_cars)
unpack_car_telemetry-Gives_example =
    unpack_car_telemetry-Gives (replicate 1419 0) (length-replicate {A = ℕ} 1419 0)

abbrev count : ℕ → Result (Unit {0}) × ℕ
count w = (ok tt, suc w)

abbrev counting : Services ℕ
counting = record {
  has_car_setup = true;
  has_tyre_sets = true;
  has_motion_ex = true;
  has_lobby_info = true;
  handle_session_packet = λ h p. count;
  get_session_type = λ uid w. some 15;
  get_track_id = λ uid w. some 3;
  get_session_start = λ uid w. some 0;
  handle_participants_packet = λ h p w. (ok ((0, 1) ∷ []), suc w);
  get_restricted_indices = λ uid w. [];
  write_frame = λ f. count;
  car_frame_discard_after = λ uid t s w. (ok 0, suc w);
  handle_session_history_packet = λ h p m. count;
  handle_tyre_stints = λ h p m. count;
  handle_event_packet = λ h p m. count;
  record_flashback = λ uid i t e n. count;
  handle_final_classification_packet = λ h p m. count;
  handle_lap_positions_packet = λ h p m. count;
  handle_car_setup_packet = λ h p uid m. count;
  on_setup_lap_complete = λ uid u n t. count;
  handle_tyre_sets_packet = λ h p m r. count;
  on_tyre_sets_lap_complete = λ uid u i n. count;
  write_motion_ex = λ h p m s. count;
  motion_ex_discard_after = λ uid t s w. (ok 0, suc w);
  handle_lobby_info_packet = λ h p. count;
}

abbrev fresh : Dispatcher ℕ
fresh = (FrameBuffer.init 0, State.init 0)

abbrev decode : Bytes → Result (List ℕ)
decode = λ bytes. ok bytes

fresh-Valid : Valid fresh
unfolding Valid State.IsValid Bounded.get Dict.lookup
fresh-Valid = (
  record {
    frames_valid = record { positive = omega arith; bounded = omega arith; distinct = tt };
    current_valid = record { positive = omega arith; bounded = omega arith; distinct = tt };
    distinct = λ uid f e. ground arith;
    filled = λ uid f e. ground arith;
  },
  (
    record { positive = omega arith; bounded = omega arith; distinct = tt },
    record { positive = omega arith; bounded = omega arith; distinct = tt },
    record { positive = omega arith; bounded = omega arith; distinct = tt },
    record { positive = omega arith; bounded = omega arith; distinct = tt },
    record { positive = omega arith; bounded = omega arith; distinct = tt },
    record { positive = omega arith; bounded = omega arith; distinct = tt },
    record { positive = omega arith; bounded = omega arith; distinct = tt },
  ),
)

handle_packet-Valid_example :
    Valid (handle_packet counting decode 0 (head ++ replicate 240 0) fresh)
handle_packet-Valid_example =
    handle_packet-Valid counting decode 0 (head ++ replicate 240 0) fresh fresh-Valid

-- Packet 16 with a body of zeros.
abbrev datagram : Bytes
datagram = head ++ replicate 240 0

header-datagram : unpack_packet_header (take packet_header_size datagram) ≡ ok (header 16)
unfolding unpack_packet_header unpack parse_format parse_fields fields_of width? unpack_fields
    read_fields number sum packet_header_of
header-datagram = refl

handle_packet_refused_example : OnlyLogged fresh (handle_packet counting decode 0 datagram fresh)
unfolding Bounded.has Dict.contains
handle_packet_refused_example =
    handle_packet_refused counting decode 0 datagram (header 16) fresh.0 fresh.1 header-datagram
      (unknown refl refl refl)

-- A dispatcher that knows session 7 and its driver 1 in car 0, who was last on lap 2.
abbrev known : State.State ℕ
known = record (State.init 0) {
  known_sessions = record { max_size = 100; entries = (7, tt) ∷ [] };
  user_maps = record { max_size = 200; entries = (7, (0, 1) ∷ []) ∷ [] };
  last_lap_nums = record { max_size = 500; entries = ((7, 1), 2) ∷ [] };
}

last_lap_nums-IsValid : Bounded.IsValid known.last_lap_nums
unfolding Dict.contains
last_lap_nums-IsValid = record {
  positive = omega arith;
  bounded = omega arith;
  distinct = (refl, tt);
}

taken : IsTaken (header 16)
taken = record { format_2026 = refl; known_id = omega arith; player = inl (omega arith) }

pending-handle_packet_example :
    pending (handle_packet counting decode 0 datagram (FrameBuffer.init 0, known)).0 7 4
    ≡ some (Dict.put 16 (header 16, replicate 240 0) [])
unfolding Bounded.has Dict.contains Bounded.get Dict.lookup is_car_frame is_body_size
    is_variable_length pending_in Valid
pending-handle_packet_example =
    pending-handle_packet counting decode 0 datagram (header 16) (FrameBuffer.init 0) known
      fresh-Valid.0 (inr (omega arith)) (omega arith) header-datagram
      (taken, refl, refl, refl, refl, refl)

abbrev lap : LapData
lap = record {
  last_lap_time_in_ms = 0;
  current_lap_time_in_ms = 0;
  sector1_time_ms_part = 0;
  sector1_time_minutes_part = 0;
  sector2_time_ms_part = 0;
  sector2_time_minutes_part = 0;
  delta_to_car_in_front_ms_part = 0;
  delta_to_car_in_front_minutes_part = 0;
  delta_to_race_leader_ms_part = 0;
  delta_to_race_leader_minutes_part = 0;
  lap_distance = 0;
  total_distance = 0;
  safety_car_delta = 0;
  car_position = 1;
  current_lap_num = 3;
  pit_status = 0;
  num_pit_stops = 0;
  sector = 0;
  current_lap_invalid = 0;
  penalties = 0;
  total_warnings = 0;
  corner_cutting_warnings = 0;
  num_unserved_drive_through_pens = 0;
  num_unserved_stop_go_pens = 0;
  grid_position = 1;
  driver_status = 4;
  result_status = 2;
  pit_lane_timer_active = 0;
  pit_lane_time_in_lane_in_ms = 0;
  pit_stop_timer_in_ms = 0;
  pit_stop_should_serve_pen = 0;
  speed_trap_fastest_speed = 0;
  speed_trap_fastest_lap = 0;
}

abbrev frame : FrameData
frame = record {
  motion_data = none;
  telemetry_packet = none;
  lap_data_list = some (lap ∷ []);
  car_status_data = none;
  car_damage_data = none;
  car_telemetry2_data = none;
}

race_started-backstop_example :
    ((frame_write counting 7 4
        ((0, 1) ∷ [])
        (header 16)
        frame
        (backstop 7 ((0, 1) ∷ []) (some (lap ∷ [])) known)).race_started
      ≡ true)
    ↔ ((is_not_false (Bounded.get known.race_started 7) ≡ true) ⊎ IsRacing ((0, 1) ∷ []) (lap ∷ []))
race_started-backstop_example =
    race_started-backstop counting 7 4 ((0, 1) ∷ []) (header 16) frame known
      (record { positive = omega arith; bounded = omega arith; distinct = tt })

get-reset_laps_example :
    Bounded.get (reset_laps 7 ((7, 1) ∷ []) known.last_lap_nums) (7, 1) ≡ some 0
unfolding Bounded.get Dict.lookup
get-reset_laps_example = get-reset_laps 7 7 1 known.last_lap_nums last_lap_nums-IsValid

-- The driver's next lap.
abbrev next_lap : LapData
next_lap = record lap { current_lap_num = suc lap.current_lap_num }

abbrev checked : State.State ℕ
checked = (check_lap counting 7 ((0, 1) ∷ []) 0 lap known).1
