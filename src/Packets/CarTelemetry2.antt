-- ===== src/Packets/CarTelemetry2.antt =====
-- listener/packets/car_telemetry2.py, packet 16.
use formula1_app.Prelude.{ℕ, String, List, [], ◌∷◌}
use formula1_app.Result.{Result, ok, raise, type_error}
use formula1_app.Struct.{Bytes}
use formula1_app.Packets.Base.{unpack_cars}

pub record CarTelemetry2Data : Type 0 where
  pub active_aero_mode : ℕ
  pub active_aero_available : ℕ
  pub active_aero_activation_distance : ℕ
  pub overtake_available : ℕ
  pub overtake_active : ℕ
  pub overtake_activation_distance : ℕ
  pub regulations_2026 : ℕ
  pub driving_wrong_way : ℕ

unfoldable pub telemetry2_of : List ℕ → Result CarTelemetry2Data
telemetry2_of (f0 ∷ f1 ∷ f2 ∷ f3 ∷ f4 ∷ f5 ∷ f6 ∷ f7 ∷ []) = ok (record {
  active_aero_mode = f0;
  active_aero_available = f1;
  active_aero_activation_distance = f2;
  overtake_available = f3;
  overtake_active = f4;
  overtake_activation_distance = f5;
  regulations_2026 = f6;
  driving_wrong_way = f7;
})
telemetry2_of _ = raise type_error

-- _CAR_TELEMETRY2_FORMAT
abbrev pub car_telemetry2_format : String
car_telemetry2_format = "<2BH2BH2B"

unfoldable pub unpack_car_telemetry2 : Bytes → Result (List CarTelemetry2Data)
unfolding telemetry2_of
unpack_car_telemetry2 bytes = unpack_cars telemetry2_of car_telemetry2_format bytes
