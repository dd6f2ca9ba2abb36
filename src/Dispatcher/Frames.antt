-- ===== src/Dispatcher/Frames.antt =====
-- listener/dispatcher.py, `_mark_race_started`, `_check_lap_completions` and `_flush_frame`: what
-- happens with the packets of one simulation tick.
use formula1_app.Prelude.{
  ℕ, suc, Bool, true, false, not, ◌&&◌, ◌||◌, Option, none, some, List, [], ◌∷◌, is_empty, ltb, leb,
  ◌==◌, if◌then◌else◌,
}
use formula1_app.Prelude.Eq.{nat_eq, pair_eq}
use formula1_app.Result.{Result, ok, raise, ◌>>=◌ as ◌and_then◌, stop_iteration}
use formula1_app.Dict
use formula1_app.Dict.{Dict}
use formula1_app.Bounded
use formula1_app.Bounded.{BoundedDict}
use formula1_app.Struct.{Bytes}
use formula1_app.Action.{Action, ◌>>=◌, ◌>>◌, skip, lift, modify, when}
use formula1_app.FrameBuffer.{Packets}
use formula1_app.Packets.Header.{PacketHeader}
use formula1_app.Packets.LapData.{LapData, unpack_lap_data}
use formula1_app.Packets.Motion.{unpack_motion}
use formula1_app.Packets.CarTelemetry.{unpack_car_telemetry}
use formula1_app.Packets.CarStatus.{unpack_car_status}
use formula1_app.Packets.CarDamage.{unpack_car_damage}
use formula1_app.Packets.CarTelemetry2.{unpack_car_telemetry2}
use formula1_app.Dispatcher.State.{State, Services, UserMap, FrameData, FrameWrite, Payload}

-- `session_time < 1.0` on the bit pattern of a float32: a negative number or one below the pattern
-- of 1.0. The patterns above that of infinity, with either sign, are no numbers.
unfoldable pub below_one : ℕ → Bool
below_one t = ltb t 1065353216 || (leb 2147483648 t && leb t 4286578688)

-- `self._user_maps.get(session_uid) or {}`
abbrev pub map_or_empty : Option UserMap → UserMap
map_or_empty none = []
map_or_empty (some m) = m

-- `bool(self._race_started.get(session_uid))`, and the same with the default True.
abbrev pub is_true : Option Bool → Bool
is_true none = false
is_true (some b) = b

abbrev pub is_not_false : Option Bool → Bool
is_not_false none = true
is_not_false (some b) = b

abbrev pub or_zero : Option ℕ → ℕ
or_zero none = 0
or_zero (some n) = n

-- The truth of a list that may be `None`.
abbrev pub filled : {A : Type 0} → Option (List A) → Bool
filled none = false
filled (some l) = not (is_empty l)

-- _RACING_LAP_NUM
abbrev pub racing_lap_num : ℕ
racing_lap_num = 2

-- `unpack(*packets[i])` if the frame has packet `i`.
unfoldable pub parsed : {A : Type 0} → (Bytes → Result A) → ℕ → Packets Payload → Result (Option A)
parsed unpack i packets = elim (Dict.lookup i packets) [
  | none ↦ ok none
  | some payload ↦ unpack payload.1 and_then λ a. ok (some a)
]

-- The parsing in `_flush_frame`.
unfoldable pub frame_data : Packets Payload → Result FrameData
unfolding parsed
frame_data packets = parsed unpack_motion 0 packets and_then λ motion.
    parsed unpack_car_telemetry 6 packets and_then λ telemetry.
    parsed unpack_lap_data 2 packets and_then λ laps.
    parsed unpack_car_status 7 packets and_then λ status.
    parsed unpack_car_damage 10 packets and_then λ damage.
    parsed unpack_car_telemetry2 16 packets and_then λ telemetry2. ok (record {
      motion_data = motion;
      telemetry_packet = telemetry;
      lap_data_list = elim laps [ none ↦ none | some p ↦ some p.lap_data ];
      car_status_data = status;
      car_damage_data = damage;
      car_telemetry2_data = telemetry2;
    })

-- `any(lap.current_lap_num >= _RACING_LAP_NUM ...)` over the cars in the map.
unfoldable pub any_racing : UserMap → ℕ → List LapData → Bool
any_racing user_map i [] = false
any_racing user_map i (lap ∷ laps) =
    (Dict.contains i user_map && leb racing_lap_num lap.current_lap_num)
    || any_racing user_map (suc i) laps

-- The test in front of `write_frame`.
unfoldable pub has_frame : FrameData → Bool
has_frame f =
    filled f.motion_data
    || (filled (elim f.telemetry_packet [ none ↦ none | some p ↦ some p.car_telemetry_data ])
        || (filled f.lap_data_list || filled f.car_status_data))

module _ {W : Type 0} where
  -- `_mark_race_started`
  unfoldable pub mark_race_started : ℕ → State W → State W
  mark_race_started uid d =
      if is_true (Bounded.get d.race_started uid)
      then d
      else record d { race_started = Bounded.set_item d.race_started uid true }

  -- The backstop for a missed start event.
  unfoldable pub backstop : ℕ → UserMap → Option (List LapData) → State W → State W
  unfolding mark_race_started any_racing
  backstop uid user_map none d = d
  backstop uid user_map (some laps) d =
      if not (is_true (Bounded.get d.race_started uid)) && any_racing user_map 0 laps
      then mark_race_started uid d
      else d

module _ {W : Type 0} (svc : Services W) where
  -- A call of a service.
  unfoldable pub call : {A : Type 0} → Action W A → Action (State W) A
  call m d = let (r, w) = m d.services in (r, record d { services = w })

  -- The calls of `_check_lap_completions` for a car that has completed a lap.
  unfoldable pub notify_setup : ℕ → ℕ → ℕ → Action (State W) (Unit {0})
  notify_setup uid user_id completed_lap d = elim (svc.get_track_id uid d.services) [
    | none ↦ (ok tt, d)
    | some track_id ↦
        when svc.has_car_setup (call (svc.on_setup_lap_complete uid user_id completed_lap track_id))
          d
  ]

  unfoldable pub notify_tyre_sets : ℕ → ℕ → ℕ → ℕ → Action (State W) (Unit {0})
  notify_tyre_sets uid user_id car_index completed_lap =
      when svc.has_tyre_sets
        (call (svc.on_tyre_sets_lap_complete uid user_id car_index completed_lap))

  unfoldable pub notify : ℕ → ℕ → ℕ → ℕ → Action (State W) (Unit {0})
  notify uid user_id car_index completed_lap =
      notify_setup uid user_id completed_lap >> notify_tyre_sets uid user_id car_index completed_lap

  -- One car of `_check_lap_completions`.
  unfoldable pub check_lap : ℕ → UserMap → ℕ → LapData → Action (State W) (Unit {0})
  check_lap uid user_map car_index lap d = elim (Dict.lookup car_index user_map) [
    | none ↦ (ok tt, d)
    | some user_id ↦
        let key : ℕ × ℕ = (uid, user_id) in
        let last_lap = or_zero (Bounded.get d.last_lap_nums key) in
        if not (lap.driver_status == 1 || lap.driver_status == 4)
        then (ok tt, d)
        else (when (ltb last_lap lap.current_lap_num && ltb 0 last_lap)
                (notify uid user_id car_index last_lap)
              >> modify (λ (d' : State W). record d' {
                last_lap_nums = Bounded.set_item d'.last_lap_nums key lap.current_lap_num;
              }))
            d
  ]

  -- `_check_lap_completions`
  unfoldable pub check_lap_completions :
      ℕ → UserMap → ℕ → List LapData → Action (State W) (Unit {0})
  check_lap_completions uid user_map i [] = skip
  check_lap_completions uid user_map i (lap ∷ laps) =
      check_lap uid user_map i lap >> check_lap_completions uid user_map (suc i) laps

  -- The arguments of `write_frame`.
  unfoldable pub frame_write : ℕ → ℕ → UserMap → PacketHeader → FrameData → State W → FrameWrite
  frame_write uid frame_id user_map first f d = record {
    session_uid = uid;
    session_time = first.session_time;
    overall_frame_identifier = frame_id;
    user_map = user_map;
    frame = f;
    player_car_index = first.player_car_index;
    restricted_indices = svc.get_restricted_indices uid d.services;
    session_start = svc.get_session_start uid d.services;
    race_started = is_not_false (Bounded.get d.race_started uid);
  }

  -- The last two statements of `_flush_frame`.
  unfoldable pub write : FrameWrite → Action (State W) (Unit {0})
  write w = when (has_frame w.frame) (call (svc.write_frame w))

  unfoldable pub complete_laps :
      ℕ → UserMap → Bool → Option (List LapData) → Action (State W) (Unit {0})
  complete_laps uid user_map started none = skip
  complete_laps uid user_map started (some laps) =
      when (not (is_empty laps) && started) (check_lap_completions uid user_map 0 laps)

  -- `_flush_frame` behind the parsing.
  unfoldable pub write_parsed :
      ℕ → ℕ → UserMap → PacketHeader → FrameData → Action (State W) (Unit {0})
  write_parsed uid frame_id user_map first f d =
      let d' = backstop uid user_map f.lap_data_list d in
      let w = frame_write uid frame_id user_map first f d' in
      (write w >> complete_laps uid user_map w.race_started f.lap_data_list) d'

  -- `_flush_frame` for a session with a user map.
  unfoldable pub flush_mapped : ℕ → ℕ → UserMap → Packets Payload → Action (State W) (Unit {0})
  flush_mapped uid frame_id user_map [] d = (raise stop_iteration, d)
  flush_mapped uid frame_id user_map ((i, (first, body)) ∷ rest) d =
      if below_one first.session_time
      then (ok tt, d)
      else (lift (frame_data ((i, (first, body)) ∷ rest))
            >>= write_parsed uid frame_id user_map first)
          d

  -- `_flush_frame`
  unfoldable pub flush_frame : ℕ → ℕ → Packets Payload → Action (State W) (Unit {0})
  flush_frame uid frame_id packets d =
      let user_map = map_or_empty (Bounded.get d.user_maps uid) in
      if is_empty user_map then (ok tt, d) else flush_mapped uid frame_id user_map packets d

  -- `_flush_frame` as the frame buffer calls it: an exception is logged and dropped.
  unfoldable pub on_flush : ℕ → ℕ → Packets Payload → State W → State W
  on_flush uid frame_id packets d = (flush_frame uid frame_id packets d).1
