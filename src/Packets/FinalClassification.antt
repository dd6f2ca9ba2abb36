-- ===== src/Packets/FinalClassification.antt =====
-- listener/packets/final_classification.py, packet 8.
use formula1_app.Prelude.{ℕ, ◌*◌, String, List, [], ◌∷◌, take, drop, min}
use formula1_app.Result.{Result, ok, raise, ◌>>=◌, type_error}
use formula1_app.Struct.{Bytes, calcsize, unpack}
use formula1_app.Packets.Base.{max_cars, first, unpack_rows}

pub record FinalClassification : Type 0 where
  pub position : ℕ
  pub num_of_laps : ℕ
  pub grid_position : ℕ
  pub points : ℕ
  pub num_pit_stops : ℕ
  pub result_status : ℕ
  pub result_reason : ℕ
  pub best_lap_time_in_ms : ℕ
  pub total_race_time : ℕ
  pub penalties_time : ℕ
  pub num_of_penalties : ℕ
  pub num_of_tyre_stints : ℕ
  pub tyre_stints_actual : List ℕ
  pub tyre_stints_visual : List ℕ
  pub tyre_stints_end_laps : List ℕ

unfoldable pub final_classification_of : List ℕ → Result FinalClassification
final_classification_of
      (position ∷ num_of_laps ∷ grid_position ∷ points ∷ num_pit_stops ∷ result_status
        ∷ result_reason ∷ best_lap_time_in_ms ∷ total_race_time ∷ penalties_time ∷ num_of_penalties
        ∷ num_of_tyre_stints ∷ a0 ∷ a1 ∷ a2 ∷ a3 ∷ a4 ∷ a5 ∷ a6 ∷ a7 ∷ v0 ∷ v1 ∷ v2 ∷ v3 ∷ v4 ∷ v5
        ∷ v6 ∷ v7 ∷ e0 ∷ e1 ∷ e2 ∷ e3 ∷ e4 ∷ e5 ∷ e6 ∷ e7 ∷ []) =
    ok (record {
      position = position;
      num_of_laps = num_of_laps;
      grid_position = grid_position;
      points = points;
      num_pit_stops = num_pit_stops;
      result_status = result_status;
      result_reason = result_reason;
      best_lap_time_in_ms = best_lap_time_in_ms;
      total_race_time = total_race_time;
      penalties_time = penalties_time;
      num_of_penalties = num_of_penalties;
      num_of_tyre_stints = num_of_tyre_stints;
      tyre_stints_actual = a0 ∷ a1 ∷ a2 ∷ a3 ∷ a4 ∷ a5 ∷ a6 ∷ a7 ∷ [];
      tyre_stints_visual = v0 ∷ v1 ∷ v2 ∷ v3 ∷ v4 ∷ v5 ∷ v6 ∷ v7 ∷ [];
      tyre_stints_end_laps = e0 ∷ e1 ∷ e2 ∷ e3 ∷ e4 ∷ e5 ∷ e6 ∷ e7 ∷ [];
    })
final_classification_of _ = raise type_error

pub record FinalClassificationPacket : Type 0 where
  pub num_cars : ℕ
  pub final_classifications : List FinalClassification

-- _FINAL_CLASSIFICATION_FORMAT, with its _MAX_TYRE_STINTS * 3 = 24 tyre bytes.
abbrev pub final_classification_format : String
final_classification_format = "<7BLd3B24B"

unfoldable pub unpack_final_classification : Bytes → Result FinalClassificationPacket
unfolding final_classification_of
unpack_final_classification bytes = do
  head ← unpack "<B" (take 1 bytes)
  cars ← first head
  let num_cars = min cars max_cars
  size ← calcsize final_classification_format
  rows ←
      unpack_rows final_classification_of final_classification_format
        (take (size * num_cars) (drop 1 bytes))
  ok (record { num_cars = num_cars; final_classifications = rows })
