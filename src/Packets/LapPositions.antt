-- ===== src/Packets/LapPositions.antt =====
-- listener/packets/lap_positions.py, packet 15.
use formula1_app.Prelude.{
  ℕ, ◌+◌, ◌*◌, length, zero, suc, ltb, if◌then◌else◌, List, [], ◌∷◌, take, drop,
}
use formula1_app.Result.{Result, ok, raise, ◌>>=◌, type_error, value_error}
use formula1_app.Struct.{Bytes, unpack}
use formula1_app.Packets.Base.{max_cars}

pub record LapPositionsPacket : Type 0 where
  pub num_laps : ℕ
  pub lap_start : ℕ
  pub positions : List (List ℕ)

-- The loop over the laps: each takes the next MAX_CARS bytes.
unfoldable pub position_rows : ℕ → Bytes → List (List ℕ)
position_rows zero bytes = []
position_rows (suc n) bytes = take max_cars bytes ∷ position_rows n (drop max_cars bytes)

unfoldable pub lap_positions_of : List ℕ → Bytes → Result LapPositionsPacket
unfolding position_rows
lap_positions_of (a ∷ b ∷ []) bytes =
    ok (record { num_laps = a; lap_start = b; positions = position_rows 50 bytes })
lap_positions_of _ bytes = raise type_error

unfoldable pub unpack_lap_positions : Bytes → Result LapPositionsPacket
unfolding lap_positions_of
unpack_lap_positions bytes = if ltb (length bytes) (1 + 1 + 50 * 24) then raise value_error else do
  head ← unpack "<BB" (take 2 bytes)
  lap_positions_of head (take (50 * max_cars) (drop 2 bytes))
