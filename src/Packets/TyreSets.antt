-- ===== src/Packets/TyreSets.antt =====
-- listener/packets/tyre_sets.py, packet 12.
use formula1_app.Prelude.{ℕ, ◌+◌, ◌*◌, String, List, [], ◌∷◌, take, drop}
use formula1_app.Result.{Result, ok, raise, ◌>>=◌, type_error}
use formula1_app.Struct.{Bytes, calcsize, unpack}
use formula1_app.Packets.Base.{first, unpack_rows}

pub record TyreSetData : Type 0 where
  pub actual_compound : ℕ
  pub visual_compound : ℕ
  pub wear : ℕ
  pub available : ℕ
  pub recommended_session : ℕ
  pub life_span : ℕ
  pub usable_life : ℕ
  pub lap_delta_time : ℕ
  pub fitted : ℕ

-- The dataclass applied to the values of one row.
unfoldable pub tyre_set_data_of : List ℕ → Result TyreSetData
tyre_set_data_of
      (actual_compound ∷ visual_compound ∷ wear ∷ available ∷ recommended_session ∷ life_span
        ∷ usable_life ∷ lap_delta_time ∷ fitted ∷ []) =
    ok (record {
      actual_compound = actual_compound;
      visual_compound = visual_compound;
      wear = wear;
      available = available;
      recommended_session = recommended_session;
      life_span = life_span;
      usable_life = usable_life;
      lap_delta_time = lap_delta_time;
      fitted = fitted;
    })
tyre_set_data_of _ = raise type_error

pub record TyreSetsPacket : Type 0 where
  pub car_idx : ℕ
  pub tyre_set_data : List TyreSetData
  pub fitted_idx : ℕ

-- _TYRE_SET_FORMAT
abbrev pub tyre_set_format : String
tyre_set_format = "<7BhB"

unfoldable pub unpack_tyre_sets : Bytes → Result TyreSetsPacket
unfolding tyre_set_data_of
unpack_tyre_sets bytes = do
  size ← calcsize tyre_set_format
  car ← unpack "<B" (take 1 bytes)
  car_idx ← first car
  sets ← unpack_rows tyre_set_data_of tyre_set_format (take (size * 20) (drop 1 bytes))
  fitted ← unpack "<B" (take 1 (drop (1 + size * 20) bytes))
  fitted_idx ← first fitted
  ok (record { car_idx = car_idx; tyre_set_data = sets; fitted_idx = fitted_idx })
