-- ===== src/Services/Session.antt =====
-- listener/services/session.py: a session is inserted with its first packet, and every packet adds
-- to its timeline and its forecast. The fire-and-forget statements of the repository are calls; what
-- raises is the arithmetic on times. The hash of the forecast is a parameter.
pub mod Rows
pub mod Anchor
use formula1_app.Prelude.{
  ℕ, suc, ◌+◌, Bool, true, false, not, ◌&&◌, Option, none, some, List, [], ◌∷◌, ◌++◌, any, is_empty,
  take, leb, length, ◌%◌, ◌^◌, ◌==◌, if◌then◌else◌,
}
use formula1_app.Prelude.Eq.{Eq, ◌=?◌, nat_eq, option_eq}
use formula1_app.Result.{Result, ok, raise}
use formula1_app.Bounded
use formula1_app.Bounded.{BoundedDict, BoundedSet}
use formula1_app.Packets.Header.{PacketHeader}
use formula1_app.Packets.Session.{
  SessionPacket, MarshalZone, ActiveAeroZone, DrsZone, WeatherForecastSample,
}
use formula1_app.Services.Rows.{timestamp}
use formula1_app.Services.Session.Rows.{Value, session_row, timeline_row}

-- `n in s`
unfoldable pub is_in : List ℕ → ℕ → Bool
is_in s n = any (λ m. m == n) s

-- The elements of a set, each once.
unfoldable pub distinct : List ℕ → List ℕ
distinct [] = []
distinct (n ∷ ns) = let rest = distinct ns in if is_in rest n then rest else n ∷ rest

unfoldable pub keep : List ℕ → List ℕ → List ℕ
keep s [] = []
keep s (n ∷ ns) = let rest = keep s ns in if is_in s n then n ∷ rest else rest

-- `_resolve_session_type`
unfoldable pub resolve_session_type : SessionPacket → ℕ
resolve_session_type p =
    let weekend_sessions = distinct (take p.num_sessions_in_weekend p.weekend_structure) in
    let has_sprint_quali = not (is_empty (keep (10 ∷ 11 ∷ 12 ∷ 13 ∷ 14 ∷ []) weekend_sessions)) in
    let num_races = length (keep (15 ∷ 16 ∷ 17 ∷ []) weekend_sessions) in
    if has_sprint_quali && (leb 2 num_races && p.session_type == 15) then 100 else p.session_type

-- The keyword arguments of `update_track_technical_data`.
pub record TrackData : Type 0 where
  pub track_id : ℕ
  pub track_length : ℕ
  pub sector2_start : ℕ
  pub sector3_start : ℕ
  pub marshal_zones : List MarshalZone
  pub pit_speed_limit : ℕ
  pub active_aero_track_status : ℕ
  pub active_aero_zones_full : List ActiveAeroZone
  pub active_aero_zones_partial : List ActiveAeroZone
  pub drs_zones : List DrsZone

pub data Call : Type 0 where
  update_track_technical_data : TrackData → Call
  insert_session : List Value → Call
  capture_start_reaction_time : ℕ → ℕ → Call
  insert_timeline_entry : List Value → Call
  -- The session, the frame and the samples.
  upsert_weather_forecast : ℕ → ℕ → List WeatherForecastSample → Call

pub record State : Type 0 where
  pub seen_sessions : BoundedSet ℕ
  pub last_forecast_hash : BoundedDict ℕ ℕ
  pub session_types : BoundedDict ℕ ℕ
  pub track_ids : BoundedDict ℕ ℕ
  pub session_starts : BoundedDict ℕ ℕ
  pub start_reaction_captured : BoundedSet ℕ

abbrev pub init : State
init = record {
  seen_sessions = Bounded.init 100;
  last_forecast_hash = Bounded.init 200;
  session_types = Bounded.init 200;
  track_ids = Bounded.init 200;
  session_starts = Bounded.init 200;
  start_reaction_captured = Bounded.init 100;
}

-- `get_session_type`, `get_track_id` and `get_session_start`
unfoldable pub get_session_type : ℕ → State → Option ℕ
get_session_type session_uid st = Bounded.get st.session_types session_uid

unfoldable pub get_track_id : ℕ → State → Option ℕ
get_track_id session_uid st = Bounded.get st.track_ids session_uid

unfoldable pub get_session_start : ℕ → State → Option ℕ
get_session_start session_uid st = Bounded.get st.session_starts session_uid

unfoldable pub track_data : SessionPacket → TrackData
track_data p = record {
  track_id = p.track_id;
  track_length = p.track_length;
  sector2_start = p.sector_2_lap_distance_start;
  sector3_start = p.sector_3_lap_distance_start;
  marshal_zones = take p.num_marshal_zones p.marshal_zones;
  pit_speed_limit = p.pit_speed_limit;
  active_aero_track_status = p.active_aero_track_status;
  active_aero_zones_full = take p.num_active_aero_zones_full p.active_aero_zones_full;
  active_aero_zones_partial = take p.num_active_aero_zones_partial p.active_aero_zones_partial;
  drs_zones = take p.num_drs_zones p.drs_zones;
}

-- The clock: the time, and a datetime plus or minus the seconds of a float, which raises where
-- they are out of range.
pub record Clock : Type 0 where
  pub now : ℕ
  pub plus_seconds : ℕ → ℕ → Result ℕ
  pub minus_seconds : ℕ → ℕ → Result ℕ

-- `_insert_session`, where `stored_start` is the repository's answer to `get_session_start`. An
-- exception is logged and dropped.
unfoldable pub insert_first :
    Clock → Option ℕ → PacketHeader → SessionPacket → ℕ → State → State × List Call
insert_first clock stored_start h p session_type st =
    elim (clock.minus_seconds clock.now h.session_time) [
      | raise _ ↦ (st, [])
      | ok session_start ↦ (
        record st {
          session_starts =
              Bounded.set_item st.session_starts h.session_uid
                (elim stored_start [ none ↦ session_start | some s ↦ s ]);
        },
        update_track_technical_data (track_data p)
            ∷ insert_session (session_row h p session_type session_start)
            ∷ [],
      )
    ]

-- The first-packet test of `handle_session_packet`.
unfoldable pub insert_if_new :
    Clock → Option ℕ → PacketHeader → SessionPacket → ℕ → State → State × List Call
insert_if_new clock stored_start h p session_type st =
    if Bounded.has st.seen_sessions h.session_uid
    then (st, [])
    else let (st', calls) = insert_first clock stored_start h p session_type st in
      (record st' { seen_sessions = Bounded.add st'.seen_sessions h.session_uid }, calls)

-- The capture of the start reaction time, whose bits are those of a float32.
unfoldable pub capture_reaction : PacketHeader → SessionPacket → State → State × List Call
capture_reaction h p st =
    if p.start_reaction_time % 2 ^ 31 == 0
    then (st, [])
    else if Bounded.has st.start_reaction_captured h.session_uid
    then (st, [])
    else (
      record st { start_reaction_captured = Bounded.add st.start_reaction_captured h.session_uid },
      capture_start_reaction_time h.session_uid p.start_reaction_time ∷ [],
    )

-- `_insert_timeline`; an exception is logged and dropped.
unfoldable pub insert_timeline : Clock → PacketHeader → SessionPacket → State → List Call
insert_timeline clock h p st =
    elim (timestamp clock.plus_seconds (get_session_start h.session_uid st) h.session_time
      clock.now) [ raise _ ↦ [] | ok t ↦ insert_timeline_entry (timeline_row h p t) ∷ [] ]

module _ (hash : List WeatherForecastSample → ℕ) where
  -- `_update_weather_forecast`
  unfoldable pub update_weather_forecast : PacketHeader → SessionPacket → State → State × List Call
  update_weather_forecast h p st =
      let samples = take p.num_weather_forecast_samples p.weather_forecast_samples in
      if is_empty samples
      then (st, [])
      else if Bounded.get st.last_forecast_hash h.session_uid =? some (hash samples)
      then (st, [])
      else (
        record st {
          last_forecast_hash = Bounded.set_item st.last_forecast_hash h.session_uid (hash samples);
        },
        upsert_weather_forecast h.session_uid h.overall_frame_identifier samples ∷ [],
      )

  -- `handle_session_packet`
  unfoldable pub handle_session_packet :
      Clock → Option ℕ → PacketHeader → SessionPacket → State → State × List Call
  handle_session_packet clock stored_start h p st =
      let session_type = resolve_session_type p in
      let (st', inserted) = insert_if_new clock stored_start h p session_type (record st {
        session_types = Bounded.set_item st.session_types h.session_uid session_type;
        track_ids = Bounded.set_item st.track_ids h.session_uid p.track_id;
      }) in
      let (st'', captured) = capture_reaction h p st' in
      let sampled = insert_timeline clock h p st'' in
      let (st''', forecast) = update_weather_forecast h p st'' in
      (st''', inserted ++ captured ++ sampled ++ forecast)
