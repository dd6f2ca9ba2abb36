-- ===== src/Packets/SessionHistory.antt =====
-- listener/packets/session_history.py, packet 11.
use formula1_app.Prelude.{ℕ, ◌+◌, ◌*◌, String, List, [], ◌∷◌, take, drop}
use formula1_app.Result.{Result, ok, raise, ◌>>=◌, type_error}
use formula1_app.Struct.{Bytes, calcsize, unpack}
use formula1_app.Packets.Base.{unpack_rows}

pub record LapHistory : Type 0 where
  pub lap_time_in_ms : ℕ
  pub sector_1_time_ms_part : ℕ
  pub sector_1_time_minutes_part : ℕ
  pub sector_2_time_ms_part : ℕ
  pub sector_2_time_minutes_part : ℕ
  pub sector_3_time_ms_part : ℕ
  pub sector_3_time_minutes_part : ℕ
  pub lap_valid_bit_flags : ℕ

-- The dataclass applied to the values of one row.
unfoldable pub lap_history_of : List ℕ → Result LapHistory
lap_history_of
      (lap_time_in_ms ∷ sector_1_time_ms_part ∷ sector_1_time_minutes_part ∷ sector_2_time_ms_part
        ∷ sector_2_time_minutes_part ∷ sector_3_time_ms_part ∷ sector_3_time_minutes_part
        ∷ lap_valid_bit_flags ∷ []) =
    ok (record {
      lap_time_in_ms = lap_time_in_ms;
      sector_1_time_ms_part = sector_1_time_ms_part;
      sector_1_time_minutes_part = sector_1_time_minutes_part;
      sector_2_time_ms_part = sector_2_time_ms_part;
      sector_2_time_minutes_part = sector_2_time_minutes_part;
      sector_3_time_ms_part = sector_3_time_ms_part;
      sector_3_time_minutes_part = sector_3_time_minutes_part;
      lap_valid_bit_flags = lap_valid_bit_flags;
    })
lap_history_of _ = raise type_error

pub record TyreStintHistory : Type 0 where
  pub end_lap : ℕ
  pub tyre_actual_compound : ℕ
  pub tyre_visual_compound : ℕ

-- The dataclass applied to the values of one row.
unfoldable pub tyre_stint_history_of : List ℕ → Result TyreStintHistory
tyre_stint_history_of (end_lap ∷ tyre_actual_compound ∷ tyre_visual_compound ∷ []) = ok (record {
  end_lap = end_lap;
  tyre_actual_compound = tyre_actual_compound;
  tyre_visual_compound = tyre_visual_compound;
})
tyre_stint_history_of _ = raise type_error

pub record SessionHistoryPacket : Type 0 where
  pub car_index : ℕ
  pub num_laps : ℕ
  pub num_tyre_stints : ℕ
  pub best_lap_time_lap_num : ℕ
  pub best_sector_1_lap_num : ℕ
  pub best_sector_2_lap_num : ℕ
  pub best_sector_3_lap_num : ℕ
  pub lap_history_list : List LapHistory
  pub tyre_stints_list : List TyreStintHistory

unfoldable pub session_history_of :
    List ℕ → List LapHistory → List TyreStintHistory → Result SessionHistoryPacket
session_history_of (a ∷ b ∷ c ∷ d ∷ e ∷ f ∷ g ∷ []) laps stints = ok (record {
  car_index = a;
  num_laps = b;
  num_tyre_stints = c;
  best_lap_time_lap_num = d;
  best_sector_1_lap_num = e;
  best_sector_2_lap_num = f;
  best_sector_3_lap_num = g;
  lap_history_list = laps;
  tyre_stints_list = stints;
})
session_history_of _ laps stints = raise type_error

-- _LAP_HISTORY_FORMAT
abbrev pub lap_history_format : String
lap_history_format = "<LHBHBHBB"

unfoldable pub unpack_session_history : Bytes → Result SessionHistoryPacket
unfolding lap_history_of tyre_stint_history_of session_history_of
unpack_session_history bytes = do
  simple_size ← calcsize "<7B"
  simple ← unpack "<7B" (take simple_size bytes)
  lap_size ← calcsize lap_history_format
  laps ←
      unpack_rows lap_history_of lap_history_format (take (lap_size * 100) (drop simple_size bytes))
  stints ← unpack_rows tyre_stint_history_of "<3B" (drop (simple_size + lap_size * 100) bytes)
  session_history_of simple laps stints
