-- ===== src/Tests/Records.antt =====
-- listener/services/lap_history.py and lap_positions.py at concrete inputs.
use formula1_app.Prelude.{ℕ, ◌≤◌, ◌≡◌, refl, true, false, any, some, List, [], ◌∷◌, arith, length}
use formula1_app.Prelude.Eq.{nat_eq, pair_eq}
use formula1_app.Bounded
use formula1_app.Packets.SessionHistory.{LapHistory, SessionHistoryPacket}
use formula1_app.Dict
use formula1_app.Dict.{Dict}
use formula1_app.Services.LapPositions.{place}
use formula1_app.Services.LapPositions.Grid.{Placed, place-Placed}
use formula1_app.Services.LapHistory.{
  State, init, lap_row, lap_batch, upsert_laps, handle_session_history_packet, bests_of,
}
use formula1_app.Services.LapHistory.Laps.{
  row_of, timed_row, row_of-lap_batch, written, upsert_laps-upsert_laps, upsert_laps_again,
}
use formula1_app.Services.LapHistory.Bests.{writes_bests, handle_session_history_packet_again}

abbrev lap : ℕ → LapHistory
lap ms = record {
  lap_time_in_ms = ms;
  sector_1_time_ms_part = 30000;
  sector_1_time_minutes_part = 0;
  sector_2_time_ms_part = 30000;
  sector_2_time_minutes_part = 0;
  sector_3_time_ms_part = 30000;
  sector_3_time_minutes_part = 0;
  lap_valid_bit_flags = 15;
}

abbrev packet : ℕ → List LapHistory → SessionHistoryPacket
packet n laps = record {
  car_index = 0;
  num_laps = n;
  num_tyre_stints = 0;
  best_lap_time_lap_num = 1;
  best_sector_1_lap_num = 1;
  best_sector_2_lap_num = 1;
  best_sector_3_lap_num = 1;
  lap_history_list = laps;
  tyre_stints_list = [];
}

abbrev first_packet : SessionHistoryPacket
first_packet = packet 1 (lap 90000 ∷ [])

abbrev second_packet : SessionHistoryPacket
second_packet = packet 2 (lap 90000 ∷ lap 91000 ∷ [])

abbrev st : State
st = init true

last_num_laps-IsValid : Bounded.IsValid st.last_num_laps
last_num_laps-IsValid = record { positive = omega arith; bounded = omega arith; distinct = tt }

last_bests-IsValid : Bounded.IsValid st.last_bests
last_bests-IsValid = record { positive = omega arith; bounded = omega arith; distinct = tt }

row_of-lap_batch_example :
    row_of 2 (lap_batch 7 1 1 second_packet) ≡ some (lap_row 7 1 2 (lap 91000))
unfolding timed_row
row_of-lap_batch_example = row_of-lap_batch 7 1 1 1 second_packet

upsert_laps-upsert_laps_example :
    row_of 2 (written (upsert_laps 7 1 second_packet (upsert_laps 7 1 first_packet st).0).1)
    ≡ some (lap_row 7 1 2 (lap 91000))
unfolding timed_row
upsert_laps-upsert_laps_example =
    upsert_laps-upsert_laps 7 1 first_packet second_packet st 1 last_num_laps-IsValid

upsert_laps_again_example :
    length (written (upsert_laps 7 1 second_packet (upsert_laps 7 1 second_packet st).0).1) ≤ 1
upsert_laps_again_example = upsert_laps_again 7 1 second_packet st last_num_laps-IsValid

-- The driver has moved to car 3.
abbrev moved_packet : SessionHistoryPacket
moved_packet = record second_packet { car_index = 3 }

abbrev seen : State
seen = (handle_session_history_packet 7 first_packet ((0, 1) ∷ []) st).0

handle_session_history_packet_again_example :
    ((handle_session_history_packet 7 moved_packet ((3, 1) ∷ []) seen).0.last_bests
      ≡ seen.last_bests)
    × (any writes_bests (handle_session_history_packet 7 moved_packet ((3, 1) ∷ []) seen).1 ≡ false)
unfolding bests_of Dict.lookup
handle_session_history_packet_again_example =
    handle_session_history_packet_again 7 1 first_packet moved_packet ((0, 1) ∷ []) ((3, 1) ∷ []) st
      refl last_bests-IsValid refl refl refl

abbrev drivers : Dict ℕ ℕ
drivers = (0, 5) ∷ (1, 6) ∷ []

place-Placed_example :
    Placed 0 drivers (2 ∷ 1 ∷ []) (0 ∷ 0 ∷ 0 ∷ []) (place 2 0 drivers (2 ∷ 1 ∷ []) (0 ∷ 0 ∷ 0 ∷ []))
place-Placed_example =
    place-Placed 0 drivers (2 ∷ 1 ∷ []) (0 ∷ 0 ∷ 0 ∷ []) (omega arith, (omega arith, tt))
