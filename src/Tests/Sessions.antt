-- ===== src/Tests/Sessions.antt =====
-- The classification and session services and the failures of the database at concrete inputs.
use formula1_app.Prelude.{
  ℕ, ◌≡◌, ◌+◌, refl, Bool, true, false, none, some, List, [], ◌∷◌, ◌++◌, ◌==◌, arith, length, suc,
  ◌-◌,
}
use formula1_app.Prelude.Eq.{nat_eq, pair_eq, option_eq}
use formula1_app.Result.{ok}
use formula1_app.Dict
use formula1_app.Dict.{Dict}
use formula1_app.Bounded
use formula1_app.Bounded.{BoundedDict}
use formula1_app.Packets.Session.{SessionPacket, WeatherForecastSample}
use formula1_app.Packets.FinalClassification.{FinalClassificationPacket}
use formula1_app.Repositories.Base.{
  Outcome, done, Repository, Key, failure_line, summary_line, log_write_failure,
}
use formula1_app.Repositories.Base
use formula1_app.Repositories.Base.Failures.{log_all, lines-log_all}
use formula1_app.Services.FinalClassification
use formula1_app.Services.FinalClassification.{
  Call, handle_final_classification_packet, replay_dead_letters, write_dead_letter, Letter,
}
use formula1_app.Services.FinalClassification.Once.{after_packets, handle_again}
use formula1_app.Services.FinalClassification.Once
use formula1_app.Services.FinalClassification.Replay.{letter_of, letter_call, replay_refused}
use formula1_app.Services.Session
use formula1_app.Services.Session.{Clock, handle_session_packet}
use formula1_app.Services.Session.Anchor.{inserted, handle_session_packet_again}
use formula1_app.Tests.Writes.{header}

-- Final classifications.
abbrev results : FinalClassificationPacket
results = record {
  num_cars = 1;
  final_classifications =
      record {
        position = 1;
        num_of_laps = 0;
        grid_position = 0;
        points = 0;
        num_pit_stops = 0;
        result_status = 3;
        result_reason = 0;
        best_lap_time_in_ms = 0;
        total_race_time = 0;
        penalties_time = 0;
        num_of_penalties = 0;
        num_of_tyre_stints = 0;
        tyre_stints_actual = [];
        tyre_stints_visual = [];
        tyre_stints_end_laps = [];
      }
      ∷ [];
}

abbrev always : Call → Bool
always c = true

abbrev never : Call → Bool
never c = false

-- A packet of another session between two of session 7.
abbrev other_session : Once.Received
other_session = record {
  accepts = always;
  session_uid = 8;
  session_type = some 10;
  packet = results;
  user_map = (0, 10) ∷ [];
}

abbrev two_sessions : FinalClassification.State
two_sessions =
    after_packets (other_session ∷ [])
      (handle_final_classification_packet always 7 (some 15) results ((0, 10) ∷ [])
        (FinalClassification.init true)).0

handle_again_example :
    handle_final_classification_packet always 7 (some 15) results ((0, 10) ∷ []) two_sessions
    ≡ (two_sessions, [])
unfolding Bounded.has Dict.contains
handle_again_example =
    handle_again always always 7 15 results results ((0, 10) ∷ []) ((0, 10) ∷ []) (some 15)
      (FinalClassification.init true) (other_session ∷ [])
      (record { positive = omega arith; bounded = omega arith; distinct = tt }) refl refl
      (omega arith)

-- The files of which one is removed when its session is 7.
abbrev removes : Letter → Bool
removes l = l.session_uid == 7

replay_refused_example :
    (handle_final_classification_packet never 7
        (some 15)
        results
        ((0, 10) ∷ [])
        (FinalClassification.init true)
      ≡ (
        FinalClassification.init true,
        letter_call (letter_of 7 15 results ((0, 10) ∷ []))
            ∷ write_dead_letter (letter_of 7 15 results ((0, 10) ∷ []))
            ∷ [],
      ))
    × (replay_dead_letters always removes
          ([] ++ some (letter_of 7 15 results ((0, 10) ∷ [])) ∷ none ∷ [])
        ≡ (
          (replay_dead_letters always removes []).0
              ++ []
              ++ (replay_dead_letters always removes (none ∷ [])).0,
          (replay_dead_letters always removes []).1
              ++ letter_call (letter_of 7 15 results ((0, 10) ∷ []))
                ∷ (replay_dead_letters always removes (none ∷ [])).1,
        ))
unfolding Bounded.has Dict.contains letter_of FinalClassification.classify Dict.lookup
replay_refused_example =
    replay_refused never always 7 15 results ((0, 10) ∷ []) (FinalClassification.init true) removes
      [] (none ∷ []) refl refl refl refl refl

-- Failures of one table.
abbrev key : Key
key = (1, (2, some 3))

abbrev repository : Repository
repository = Base.init true

abbrev times : List ℕ
times = 1000 ∷ 2000 ∷ []

lines-log_all_example :
    (log_write_failure true key 70000000
      (log_all true key times (log_write_failure true key 0 repository))).lines
    ≡ ([] ++ failure_line true key ∷ [])
      ++ summary_line true key (suc (length times)) (70000000 - 0) ∷ []
unfolding Bounded.get Dict.lookup
lines-log_all_example =
    lines-log_all true key repository 0 times 70000000
      (record { positive = omega arith; bounded = omega arith; distinct = tt }) refl
      (omega arith, (omega arith, tt)) (omega arith)

-- Session packets.
abbrev session_packet : SessionPacket
session_packet = record {
  weather = 0;
  track_temperature = 0;
  air_temperature = 0;
  total_laps = 0;
  track_length = 0;
  session_type = 15;
  track_id = 3;
  formula_type = 0;
  session_time_left = 0;
  session_duration = 0;
  pit_speed_limit = 0;
  game_paused = 0;
  is_spectating = 0;
  spectator_car_index = 0;
  sli_pro_native_support = 0;
  num_marshal_zones = 0;
  marshal_zones = [];
  safety_car_status = 0;
  network_game = 0;
  num_weather_forecast_samples = 0;
  weather_forecast_samples = [];
  forecast_accuracy = 0;
  ai_difficulty = 0;
  season_link_identifier = 0;
  weekend_link_identifier = 0;
  session_link_identifier = 0;
  pit_stop_window_ideal_lap = 0;
  pit_stop_window_latest_lap = 0;
  pit_stop_rejoin_position = 0;
  assist_steering = 0;
  assist_braking = 0;
  assist_gearbox = 0;
  assist_pit = 0;
  assist_pit_release = 0;
  assist_ers = 0;
  assist_drs = 0;
  dynamic_racing_line = 0;
  dynamic_racing_line_type = 0;
  game_mode = 0;
  rule_set = 0;
  time_of_day = 0;
  session_length = 0;
  speed_units_lead_player = 0;
  temperature_units_lead_player = 0;
  speed_units_secondary_player = 0;
  temperature_units_secondary_player = 0;
  num_safety_car_periods = 0;
  num_virtual_safety_car_periods = 0;
  num_red_flag_periods = 0;
  equal_car_performance = 0;
  recovery_mode = 0;
  flashback_limit = 0;
  surface_type = 0;
  low_fuel_mode = 0;
  race_starts = 0;
  tyre_temperature = 0;
  pit_lane_tyre_sim = 0;
  car_damage = 0;
  car_damage_rate = 0;
  collisions = 0;
  collisions_off_for_first_lap_only = 0;
  mp_unsafe_pit_release = 0;
  mp_off_for_griefing = 0;
  corner_cutting_stringency = 0;
  parc_ferme_rules = 0;
  pit_stop_experience = 0;
  safety_car = 0;
  safety_car_experience = 0;
  formation_lap = 0;
  formation_lap_experience = 0;
  red_flags = 0;
  affects_licence_level_solo = 0;
  affects_licence_level_mp = 0;
  num_sessions_in_weekend = 0;
  weekend_structure = [];
  sector_2_lap_distance_start = 0;
  sector_3_lap_distance_start = 0;
  active_aero_track_status = 0;
  num_active_aero_zones_full = 0;
  active_aero_zones_full = [];
  num_active_aero_zones_partial = 0;
  active_aero_zones_partial = [];
  num_drs_zones = 0;
  drs_zones = [];
  start_reaction_time = 0;
  anti_lock_brakes_assist = 0;
  traction_control_assist = 0;
  dynamic_racing_line_hi_vis = 0;
  dynamic_racing_line_colour_blind = 0;
  recurring_rewind_prompt = 0;
}

abbrev clock : ℕ → Clock
clock n = record {
  now = n;
  plus_seconds = λ t seconds. ok (t + seconds);
  minus_seconds = λ t seconds. ok (t - seconds);
}

abbrev forecast_hash : List WeatherForecastSample → ℕ
forecast_hash samples = length samples

handle_session_packet_again_example :
    ((handle_session_packet forecast_hash
        (clock 9)
        none
        header
        session_packet
        (handle_session_packet forecast_hash
          (clock 5)
          none
          header
          session_packet
          Session.init).0).0.session_starts
      ≡ (handle_session_packet forecast_hash
          (clock 5)
          none
          header
          session_packet
          Session.init).0.session_starts)
    × (inserted
          (handle_session_packet forecast_hash
            (clock 9)
            none
            header
            session_packet
            (handle_session_packet forecast_hash
              (clock 5)
              none
              header
              session_packet
              Session.init).0).1
        ≡ [])
handle_session_packet_again_example =
    handle_session_packet_again forecast_hash (clock 5) (clock 9) none none header header
      session_packet session_packet Session.init
      (record { positive = omega arith; bounded = omega arith; distinct = tt }) refl
