-- ===== src/Tests/Writes.antt =====
-- The services of a car's setup, its tyre sets and the participants at concrete inputs.
use formula1_app.Prelude.{
  ℕ, any, ◌≡◌, refl, true, not, ◌&&◌, none, some, List, [], ◌∷◌, arith, All, length, ◌==◌,
}
use formula1_app.Prelude.Eq.{nat_eq, pair_eq, option_eq}
use formula1_app.Dict
use formula1_app.Dict.{Dict}
use formula1_app.Bounded
use formula1_app.Bounded.{BoundedDict}
use formula1_app.Packets.Header.{PacketHeader}
use formula1_app.Packets.CarSetup.{CarSetupData, CarSetupPacket}
use formula1_app.Packets.TyreSets.{TyreSetData, TyreSetsPacket}
use formula1_app.Packets.Participants.{Participant, ParticipantsPacket}
use formula1_app.Repositories.Base.{no_connection, done}
use formula1_app.Repositories.Entries
use formula1_app.Repositories.Entries.{Database, EntryRow}
use formula1_app.Services.CarSetup
use formula1_app.Services.CarSetup.{Field}
use formula1_app.Services.CarSetup.Real
use formula1_app.Services.CarSetup.Real.{WritesReal, on_lap_complete-WritesReal}
use formula1_app.Services.TyreSets
use formula1_app.Services.TyreSets.{handle_tyre_sets_packet}
use formula1_app.Services.TyreSets.Snapshots.{
  written_set, row_if_available, written_set-on_lap_complete,
}
use formula1_app.Services.Participants
use formula1_app.Services.Participants.{
  is_member, or_empty, get_user_map, get_restricted_indices, handle_participants_packet,
}
use formula1_app.Services.Participants.Confirmed
use formula1_app.Services.Participants.Retried.{enters, enters-handle_participants_packet}
use formula1_app.Services.Participants.Restricted.{withholds, is_member-get_restricted_indices}

abbrev pub header : PacketHeader
header = record {
  packet_format = 0;
  game_year = 0;
  game_major_version = 0;
  game_minor_version = 0;
  packet_version = 0;
  packet_id = 0;
  session_uid = 7;
  session_time = 0;
  frame_identifier = 0;
  overall_frame_identifier = 5;
  player_car_index = 0;
  secondary_player_car_index = 0;
}

-- Setups.
abbrev setup : CarSetupData
setup = record {
  front_wing = 5;
  rear_wing = 0;
  on_throttle = 0;
  off_throttle = 0;
  front_camber = 0;
  rear_camber = 0;
  front_toe = 0;
  rear_toe = 0;
  front_suspension = 0;
  rear_suspension = 0;
  front_anti_roll_bar = 0;
  rear_anti_roll_bar = 0;
  front_ride_height = 0;
  rear_ride_height = 0;
  brake_pressure = 0;
  brake_bias = 0;
  engine_braking = 0;
  rear_left_tyre_pressure = 0;
  rear_right_tyre_pressure = 0;
  front_left_tyre_pressure = 0;
  front_right_tyre_pressure = 0;
  ballast = 0;
  fuel_load = 0;
}

abbrev setups : CarSetupPacket
setups = record { car_setups = setup ∷ []; next_front_wing_value = 0 }

abbrev digest : List Field → ℕ
digest fields = length fields

abbrev received_setup : Real.Received
received_setup = record {
  player_index = 0;
  packet = setups;
  session_uid = 7;
  user_map = (0, 10) ∷ [];
}

on_lap_complete-WritesReal_example : All (WritesReal digest) (
    CarSetup.on_lap_complete
      (λ c. some 1)
      7
      10
      2
      3
      (Real.after_packets digest (received_setup ∷ [])))
on_lap_complete-WritesReal_example =
    on_lap_complete-WritesReal digest (received_setup ∷ []) (λ c. some 1) 7 10 2 3

-- Tyre sets.
abbrev tyre_set : ℕ → TyreSetData
tyre_set available = record {
  actual_compound = 16;
  visual_compound = 16;
  wear = 0;
  available = available;
  recommended_session = 0;
  life_span = 0;
  usable_life = 0;
  lap_delta_time = 0;
  fitted = 0;
}

abbrev tyre_sets : TyreSetsPacket
tyre_sets = record { car_idx = 0; tyre_set_data = tyre_set 0 ∷ tyre_set 1 ∷ []; fitted_idx = 1 }

written_set-on_lap_complete_example :
    written_set 1 (
      TyreSets.on_lap_complete 7 10 0 2
        (handle_tyre_sets_packet 7 tyre_sets ((0, 10) ∷ []) (3 ∷ []) TyreSets.init))
    ≡ row_if_available 7 10 2 1 1 (some (tyre_set 1))
unfolding Dict.contains
written_set-on_lap_complete_example =
    written_set-on_lap_complete 7 10 2 tyre_sets ((0, 10) ∷ []) (3 ∷ []) TyreSets.init 1
      (record { positive = omega arith; bounded = omega arith; distinct = tt }) refl refl

-- Participants: a human driver who shows the telemetry, and one who does not.
abbrev participant : ℕ → Participant
participant your_telemetry = record {
  ai_controlled = 0;
  driver_id = 0;
  network_id = 0;
  team_id = 1;
  my_team = 0;
  race_number = 44;
  nationality = 0;
  name = 65 ∷ [];
  your_telemetry = your_telemetry;
  show_online_names = 0;
  tech_level = 0;
  platform = 0;
  num_colours = 0;
  livery_colours = [];
}

abbrev roster : ParticipantsPacket
roster = record { num_active_cars = 2; participants = participant 1 ∷ participant 0 ∷ [] }

abbrev database : Database
database = record {
  enabled = true;
  weekend_driver = λ session_uid team_id race_number. done none;
  max_player = done 0;
  get_or_create_driver = done (λ name. some 10);
  entries_written = λ rows. done tt;
}

abbrev same : List ℕ → List ℕ
same cs = cs

abbrev decimal : ℕ → List ℕ
decimal n = n ∷ []

abbrev received_roster : Confirmed.Received
received_roster = record { db = database; session_uid = 7; player_car_index = 0; packet = roster }

-- A database that does not write the entries.
abbrev refused_roster : Confirmed.Received
refused_roster = record received_roster {
  db = record database { entries_written = λ rows. no_connection };
}

enters-handle_participants_packet_example :
    any
      (enters 1)
      (handle_participants_packet same same decimal database 7 0 roster
        (Confirmed.after_packets same same decimal (refused_roster ∷ []))).1
    ≡ true
unfolding Confirmed.after_packets handle_participants_packet is_member Bounded.get Dict.lookup
    Participants.write_entries Participants.same_set Participants.subset Participants.human_entries
    Participants.is_skipped Participants.unwritten Participants.confirm Entries.insert_entries_batch
    Entries.insert_rows Entries.entry_rows Entries.resolve_user_ids Entries.resolve_names Dict.put
    Entries.clean Entries.without_zeros Participants.entry_of Bounded.popitem Bounded.set_item
    Bounded.set_item? Dict.contains Dict.remove Entries.accepts_entries Entries.car_users
    Entries.find_weekend_driver_name Participants.car_index_of get_user_map Participants.is_generic
    Participants.name_driver Participants.union Participants.merge
enters-handle_participants_packet_example =
    enters-handle_participants_packet same same decimal (refused_roster ∷ []) received_roster
      (λ name. some 10) 1 (participant 0) refl refl (λ name. refl) refl refl refl refl

is_member-get_restricted_indices_example :
    is_member 1 (
      get_restricted_indices 7
        (handle_participants_packet same same decimal database 7 0 roster Participants.init).0.1)
    ≡ (withholds (some (participant 0)) && not (1 == 0))
is_member-get_restricted_indices_example =
    is_member-get_restricted_indices same same decimal database 7 0 1 roster Participants.init
      (record { positive = omega arith; bounded = omega arith; distinct = tt })
