-- ===== src/Packets/CarTelemetry.antt =====
-- listener/packets/car_telemetry.py, packet 6.
use formula1_app.Prelude.{ℕ, ◌*◌, String, List, [], ◌∷◌, take, drop}
use formula1_app.Result.{Result, ok, raise, ◌>>=◌, type_error}
use formula1_app.Struct.{Bytes, calcsize, unpack}
use formula1_app.Packets.Base.{max_cars, unpack_cars}

pub record CarTelemetryData : Type 0 where
  pub speed : ℕ
  pub throttle : ℕ
  pub steer : ℕ
  pub brake : ℕ
  pub clutch : ℕ
  pub gear : ℕ
  pub engine_rpm : ℕ
  pub drs : ℕ
  pub rev_lights_percent : ℕ
  pub rev_lights_bit_value : ℕ
  pub brakes_temperature : List ℕ
  pub tyres_surface_temp : List ℕ
  pub tyres_inner_temp : List ℕ
  pub engine_temperature : ℕ
  pub tyres_pressure : List ℕ
  pub surface_type : List ℕ

unfoldable pub car_telemetry_data_of : List ℕ → Result CarTelemetryData
car_telemetry_data_of
      (f0 ∷ f1 ∷ f2 ∷ f3 ∷ f4 ∷ f5 ∷ f6 ∷ f7 ∷ f8 ∷ f9 ∷ f10 ∷ f11 ∷ f12 ∷ f13 ∷ f14 ∷ f15 ∷ f16
        ∷ f17 ∷ f18 ∷ f19 ∷ f20 ∷ f21 ∷ f22 ∷ f23 ∷ f24 ∷ f25 ∷ f26 ∷ f27 ∷ f28 ∷ f29 ∷ f30 ∷ []) =
    ok (record {
      speed = f0;
      throttle = f1;
      steer = f2;
      brake = f3;
      clutch = f4;
      gear = f5;
      engine_rpm = f6;
      drs = f7;
      rev_lights_percent = f8;
      rev_lights_bit_value = f9;
      brakes_temperature = f10 ∷ f11 ∷ f12 ∷ f13 ∷ [];
      tyres_surface_temp = f14 ∷ f15 ∷ f16 ∷ f17 ∷ [];
      tyres_inner_temp = f18 ∷ f19 ∷ f20 ∷ f21 ∷ [];
      engine_temperature = f22;
      tyres_pressure = f23 ∷ f24 ∷ f25 ∷ f26 ∷ [];
      surface_type = f27 ∷ f28 ∷ f29 ∷ f30 ∷ [];
    })
car_telemetry_data_of _ = raise type_error

pub record CarTelemetryPacket : Type 0 where
  pub car_telemetry_data : List CarTelemetryData
  pub mfd_panel_index : ℕ
  pub mfd_panel_index_secondary_player : ℕ
  pub suggested_gear : ℕ

unfoldable pub car_telemetry_packet_of : List CarTelemetryData → List ℕ → Result CarTelemetryPacket
car_telemetry_packet_of cars (a ∷ b ∷ c ∷ []) = ok (record {
  car_telemetry_data = cars;
  mfd_panel_index = a;
  mfd_panel_index_secondary_player = b;
  suggested_gear = c;
})
car_telemetry_packet_of cars _ = raise type_error

-- _CAR_TELEMETRY_FORMAT
abbrev pub car_telemetry_format : String
car_telemetry_format = "<H3fBbHBBH4H4B4BB4f4B"

-- `unpack_from` reads the tail's three bytes behind the cars; bytes after them are ignored.
unfoldable pub unpack_car_telemetry : Bytes → Result CarTelemetryPacket
unfolding car_telemetry_data_of car_telemetry_packet_of
unpack_car_telemetry bytes = do
  size ← calcsize car_telemetry_format
  cars ← unpack_cars car_telemetry_data_of car_telemetry_format bytes
  tail_size ← calcsize "<2Bb"
  tail ← unpack "<2Bb" (take tail_size (drop (size * max_cars) bytes))
  car_telemetry_packet_of cars tail
