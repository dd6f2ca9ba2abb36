-- ===== src/Packets/Session.antt =====
-- listener/packets/session.py, packet 1.
use formula1_app.Prelude.{ℕ, ◌*◌, ◌++◌, String, List, [], ◌∷◌, take, drop}
use formula1_app.Result.{Result, ok, raise, ◌>>=◌, type_error}
use formula1_app.Struct.{Bytes, calcsize, unpack}
use formula1_app.Packets.Base.{unpack_rows}

pub record MarshalZone : Type 0 where
  pub zone_start : ℕ
  pub zone_flag : ℕ

-- The dataclass applied to the values of one row.
unfoldable pub marshal_zone_of : List ℕ → Result MarshalZone
marshal_zone_of (zone_start ∷ zone_flag ∷ []) =
    ok (record { zone_start = zone_start; zone_flag = zone_flag })
marshal_zone_of _ = raise type_error

pub record WeatherForecastSample : Type 0 where
  pub session_type : ℕ
  pub time_offset : ℕ
  pub weather : ℕ
  pub track_temperature : ℕ
  pub track_temperature_change : ℕ
  pub air_temperature : ℕ
  pub air_temperature_change : ℕ
  pub rain_percentage : ℕ

-- The dataclass applied to the values of one row.
unfoldable pub weather_forecast_sample_of : List ℕ → Result WeatherForecastSample
weather_forecast_sample_of
      (session_type ∷ time_offset ∷ weather ∷ track_temperature ∷ track_temperature_change
        ∷ air_temperature ∷ air_temperature_change ∷ rain_percentage ∷ []) =
    ok (record {
      session_type = session_type;
      time_offset = time_offset;
      weather = weather;
      track_temperature = track_temperature;
      track_temperature_change = track_temperature_change;
      air_temperature = air_temperature;
      air_temperature_change = air_temperature_change;
      rain_percentage = rain_percentage;
    })
weather_forecast_sample_of _ = raise type_error

pub record ActiveAeroZone : Type 0 where
  pub zone_start : ℕ
  pub zone_end : ℕ

-- The dataclass applied to the values of one row.
unfoldable pub active_aero_zone_of : List ℕ → Result ActiveAeroZone
active_aero_zone_of (zone_start ∷ zone_end ∷ []) =
    ok (record { zone_start = zone_start; zone_end = zone_end })
active_aero_zone_of _ = raise type_error

pub record DrsZone : Type 0 where
  pub zone_start : ℕ
  pub zone_end : ℕ

-- The dataclass applied to the values of one row.
unfoldable pub drs_zone_of : List ℕ → Result DrsZone
drs_zone_of (zone_start ∷ zone_end ∷ []) =
    ok (record { zone_start = zone_start; zone_end = zone_end })
drs_zone_of _ = raise type_error

pub record SessionPacket : Type 0 where
  pub weather : ℕ
  pub track_temperature : ℕ
  pub air_temperature : ℕ
  pub total_laps : ℕ
  pub track_length : ℕ
  pub session_type : ℕ
  pub track_id : ℕ
  pub formula_type : ℕ
  pub session_time_left : ℕ
  pub session_duration : ℕ
  pub pit_speed_limit : ℕ
  pub game_paused : ℕ
  pub is_spectating : ℕ
  pub spectator_car_index : ℕ
  pub sli_pro_native_support : ℕ
  pub num_marshal_zones : ℕ
  pub marshal_zones : List MarshalZone
  pub safety_car_status : ℕ
  pub network_game : ℕ
  pub num_weather_forecast_samples : ℕ
  pub weather_forecast_samples : List WeatherForecastSample
  pub forecast_accuracy : ℕ
  pub ai_difficulty : ℕ
  pub season_link_identifier : ℕ
  pub weekend_link_identifier : ℕ
  pub session_link_identifier : ℕ
  pub pit_stop_window_ideal_lap : ℕ
  pub pit_stop_window_latest_lap : ℕ
  pub pit_stop_rejoin_position : ℕ
  pub assist_steering : ℕ
  pub assist_braking : ℕ
  pub assist_gearbox : ℕ
  pub assist_pit : ℕ
  pub assist_pit_release : ℕ
  pub assist_ers : ℕ
  pub assist_drs : ℕ
  pub dynamic_racing_line : ℕ
  pub dynamic_racing_line_type : ℕ
  pub game_mode : ℕ
  pub rule_set : ℕ
  pub time_of_day : ℕ
  pub session_length : ℕ
  pub speed_units_lead_player : ℕ
  pub temperature_units_lead_player : ℕ
  pub speed_units_secondary_player : ℕ
  pub temperature_units_secondary_player : ℕ
  pub num_safety_car_periods : ℕ
  pub num_virtual_safety_car_periods : ℕ
  pub num_red_flag_periods : ℕ
  pub equal_car_performance : ℕ
  pub recovery_mode : ℕ
  pub flashback_limit : ℕ
  pub surface_type : ℕ
  pub low_fuel_mode : ℕ
  pub race_starts : ℕ
  pub tyre_temperature : ℕ
  pub pit_lane_tyre_sim : ℕ
  pub car_damage : ℕ
  pub car_damage_rate : ℕ
  pub collisions : ℕ
  pub collisions_off_for_first_lap_only : ℕ
  pub mp_unsafe_pit_release : ℕ
  pub mp_off_for_griefing : ℕ
  pub corner_cutting_stringency : ℕ
  pub parc_ferme_rules : ℕ
  pub pit_stop_experience : ℕ
  pub safety_car : ℕ
  pub safety_car_experience : ℕ
  pub formation_lap : ℕ
  pub formation_lap_experience : ℕ
  pub red_flags : ℕ
  pub affects_licence_level_solo : ℕ
  pub affects_licence_level_mp : ℕ
  pub num_sessions_in_weekend : ℕ
  pub weekend_structure : List ℕ
  pub sector_2_lap_distance_start : ℕ
  pub sector_3_lap_distance_start : ℕ
  pub active_aero_track_status : ℕ
  pub num_active_aero_zones_full : ℕ
  pub active_aero_zones_full : List ActiveAeroZone
  pub num_active_aero_zones_partial : ℕ
  pub active_aero_zones_partial : List ActiveAeroZone
  pub num_drs_zones : ℕ
  pub drs_zones : List DrsZone
  pub start_reaction_time : ℕ
  pub anti_lock_brakes_assist : ℕ
  pub traction_control_assist : ℕ
  pub dynamic_racing_line_hi_vis : ℕ
  pub dynamic_racing_line_colour_blind : ℕ
  pub recurring_rewind_prompt : ℕ

-- The dataclass applied to its fields: the scalars in order, and the six lists.
unfoldable pub session_packet_of :
    List ℕ
    → List MarshalZone
    → List WeatherForecastSample
    → List ℕ
    → List ActiveAeroZone
    → List ActiveAeroZone
    → List DrsZone
    → Result SessionPacket
session_packet_of
      (weather ∷ track_temperature ∷ air_temperature ∷ total_laps ∷ track_length ∷ session_type
        ∷ track_id ∷ formula_type ∷ session_time_left ∷ session_duration ∷ pit_speed_limit
        ∷ game_paused ∷ is_spectating ∷ spectator_car_index ∷ sli_pro_native_support
        ∷ num_marshal_zones ∷ safety_car_status ∷ network_game ∷ num_weather_forecast_samples
        ∷ forecast_accuracy ∷ ai_difficulty ∷ season_link_identifier ∷ weekend_link_identifier
        ∷ session_link_identifier ∷ pit_stop_window_ideal_lap ∷ pit_stop_window_latest_lap
        ∷ pit_stop_rejoin_position ∷ assist_steering ∷ assist_braking ∷ assist_gearbox ∷ assist_pit
        ∷ assist_pit_release ∷ assist_ers ∷ assist_drs ∷ dynamic_racing_line
        ∷ dynamic_racing_line_type ∷ game_mode ∷ rule_set ∷ time_of_day ∷ session_length
        ∷ speed_units_lead_player ∷ temperature_units_lead_player ∷ speed_units_secondary_player
        ∷ temperature_units_secondary_player ∷ num_safety_car_periods
        ∷ num_virtual_safety_car_periods ∷ num_red_flag_periods ∷ equal_car_performance
        ∷ recovery_mode ∷ flashback_limit ∷ surface_type ∷ low_fuel_mode ∷ race_starts
        ∷ tyre_temperature ∷ pit_lane_tyre_sim ∷ car_damage ∷ car_damage_rate ∷ collisions
        ∷ collisions_off_for_first_lap_only ∷ mp_unsafe_pit_release ∷ mp_off_for_griefing
        ∷ corner_cutting_stringency ∷ parc_ferme_rules ∷ pit_stop_experience ∷ safety_car
        ∷ safety_car_experience ∷ formation_lap ∷ formation_lap_experience ∷ red_flags
        ∷ affects_licence_level_solo ∷ affects_licence_level_mp ∷ num_sessions_in_weekend
        ∷ sector_2_lap_distance_start ∷ sector_3_lap_distance_start ∷ active_aero_track_status
        ∷ num_active_aero_zones_full ∷ num_active_aero_zones_partial ∷ num_drs_zones
        ∷ start_reaction_time ∷ anti_lock_brakes_assist ∷ traction_control_assist
        ∷ dynamic_racing_line_hi_vis ∷ dynamic_racing_line_colour_blind ∷ recurring_rewind_prompt
        ∷ [])
      zones samples weekend full partial drs =
    ok (record {
      weather = weather;
      track_temperature = track_temperature;
      air_temperature = air_temperature;
      total_laps = total_laps;
      track_length = track_length;
      session_type = session_type;
      track_id = track_id;
      formula_type = formula_type;
      session_time_left = session_time_left;
      session_duration = session_duration;
      pit_speed_limit = pit_speed_limit;
      game_paused = game_paused;
      is_spectating = is_spectating;
      spectator_car_index = spectator_car_index;
      sli_pro_native_support = sli_pro_native_support;
      num_marshal_zones = num_marshal_zones;
      marshal_zones = zones;
      safety_car_status = safety_car_status;
      network_game = network_game;
      num_weather_forecast_samples = num_weather_forecast_samples;
      weather_forecast_samples = samples;
      forecast_accuracy = forecast_accuracy;
      ai_difficulty = ai_difficulty;
      season_link_identifier = season_link_identifier;
      weekend_link_identifier = weekend_link_identifier;
      session_link_identifier = session_link_identifier;
      pit_stop_window_ideal_lap = pit_stop_window_ideal_lap;
      pit_stop_window_latest_lap = pit_stop_window_latest_lap;
      pit_stop_rejoin_position = pit_stop_rejoin_position;
      assist_steering = assist_steering;
      assist_braking = assist_braking;
      assist_gearbox = assist_gearbox;
      assist_pit = assist_pit;
      assist_pit_release = assist_pit_release;
      assist_ers = assist_ers;
      assist_drs = assist_drs;
      dynamic_racing_line = dynamic_racing_line;
      dynamic_racing_line_type = dynamic_racing_line_type;
      game_mode = game_mode;
      rule_set = rule_set;
      time_of_day = time_of_day;
      session_length = session_length;
      speed_units_lead_player = speed_units_lead_player;
      temperature_units_lead_player = temperature_units_lead_player;
      speed_units_secondary_player = speed_units_secondary_player;
      temperature_units_secondary_player = temperature_units_secondary_player;
      num_safety_car_periods = num_safety_car_periods;
      num_virtual_safety_car_periods = num_virtual_safety_car_periods;
      num_red_flag_periods = num_red_flag_periods;
      equal_car_performance = equal_car_performance;
      recovery_mode = recovery_mode;
      flashback_limit = flashback_limit;
      surface_type = surface_type;
      low_fuel_mode = low_fuel_mode;
      race_starts = race_starts;
      tyre_temperature = tyre_temperature;
      pit_lane_tyre_sim = pit_lane_tyre_sim;
      car_damage = car_damage;
      car_damage_rate = car_damage_rate;
      collisions = collisions;
      collisions_off_for_first_lap_only = collisions_off_for_first_lap_only;
      mp_unsafe_pit_release = mp_unsafe_pit_release;
      mp_off_for_griefing = mp_off_for_griefing;
      corner_cutting_stringency = corner_cutting_stringency;
      parc_ferme_rules = parc_ferme_rules;
      pit_stop_experience = pit_stop_experience;
      safety_car = safety_car;
      safety_car_experience = safety_car_experience;
      formation_lap = formation_lap;
      formation_lap_experience = formation_lap_experience;
      red_flags = red_flags;
      affects_licence_level_solo = affects_licence_level_solo;
      affects_licence_level_mp = affects_licence_level_mp;
      num_sessions_in_weekend = num_sessions_in_weekend;
      weekend_structure = weekend;
      sector_2_lap_distance_start = sector_2_lap_distance_start;
      sector_3_lap_distance_start = sector_3_lap_distance_start;
      active_aero_track_status = active_aero_track_status;
      num_active_aero_zones_full = num_active_aero_zones_full;
      active_aero_zones_full = full;
      num_active_aero_zones_partial = num_active_aero_zones_partial;
      active_aero_zones_partial = partial;
      num_drs_zones = num_drs_zones;
      drs_zones = drs;
      start_reaction_time = start_reaction_time;
      anti_lock_brakes_assist = anti_lock_brakes_assist;
      traction_control_assist = traction_control_assist;
      dynamic_racing_line_hi_vis = dynamic_racing_line_hi_vis;
      dynamic_racing_line_colour_blind = dynamic_racing_line_colour_blind;
      recurring_rewind_prompt = recurring_rewind_prompt;
    })
session_packet_of _ zones samples weekend full partial drs = raise type_error

-- `data[offset:offset + size]`, unpacked as one row and as `n` rows.
unfoldable pub unpack_at : String → ℕ → Bytes → Result (List ℕ)
unpack_at format offset bytes = do
  size ← calcsize format
  unpack format (take size (drop offset bytes))

unfoldable pub unpack_rows_at :
    {A : Type 0} → (List ℕ → Result A) → String → ℕ → ℕ → Bytes → Result (List A)
unpack_rows_at of format n offset bytes = do
  size ← calcsize format
  unpack_rows of format (take (size * n) (drop offset bytes))

-- The offsets are the running sums of the sizes of the parts before them.
unfoldable pub unpack_session : Bytes → Result SessionPacket
unfolding marshal_zone_of weather_forecast_sample_of active_aero_zone_of drs_zone_of
    session_packet_of unpack_at unpack_rows_at
unpack_session bytes = do
  pre ← unpack_at "<BbbBHBbBHH6B" 0 bytes
  zones ← unpack_rows_at marshal_zone_of "<fb" 21 19 bytes
  mid ← unpack_at "<BBB" 124 bytes
  samples ← unpack_rows_at weather_forecast_sample_of "<3B4bB" 64 127 bytes
  post ← unpack_at "<2B3I14BI33B" 639 bytes
  weekend ← unpack_at "<12B" 704 bytes
  rem ← unpack_at "<2f" 716 bytes
  aero ← unpack_at "<BB" 724 bytes
  full ← unpack_rows_at active_aero_zone_of "<2f" 8 726 bytes
  partial_count ← unpack_at "<B" 790 bytes
  partial ← unpack_rows_at active_aero_zone_of "<2f" 8 791 bytes
  drs_count ← unpack_at "<B" 855 bytes
  drs ← unpack_rows_at drs_zone_of "<2f" 4 856 bytes
  tail ← unpack_at "<f5B" 888 bytes
  session_packet_of (pre ++ mid ++ post ++ rem ++ aero ++ partial_count ++ drs_count ++ tail) zones
      samples weekend full partial drs
