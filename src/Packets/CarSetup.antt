-- ===== src/Packets/CarSetup.antt =====
-- listener/packets/car_setup.py, packet 5.
use formula1_app.Prelude.{ℕ, ◌*◌, String, List, [], ◌∷◌, take, drop}
use formula1_app.Result.{Result, ok, raise, ◌>>=◌, type_error, index_error}
use formula1_app.Struct.{Bytes, calcsize, unpack}
use formula1_app.Packets.Base.{max_cars, unpack_cars}

pub record CarSetupData : Type 0 where
  pub front_wing : ℕ
  pub rear_wing : ℕ
  pub on_throttle : ℕ
  pub off_throttle : ℕ
  pub front_camber : ℕ
  pub rear_camber : ℕ
  pub front_toe : ℕ
  pub rear_toe : ℕ
  pub front_suspension : ℕ
  pub rear_suspension : ℕ
  pub front_anti_roll_bar : ℕ
  pub rear_anti_roll_bar : ℕ
  pub front_ride_height : ℕ
  pub rear_ride_height : ℕ
  pub brake_pressure : ℕ
  pub brake_bias : ℕ
  pub engine_braking : ℕ
  pub rear_left_tyre_pressure : ℕ
  pub rear_right_tyre_pressure : ℕ
  pub front_left_tyre_pressure : ℕ
  pub front_right_tyre_pressure : ℕ
  pub ballast : ℕ
  pub fuel_load : ℕ

-- The dataclass applied to the values of one row.
unfoldable pub car_setup_data_of : List ℕ → Result CarSetupData
car_setup_data_of
      (front_wing ∷ rear_wing ∷ on_throttle ∷ off_throttle ∷ front_camber ∷ rear_camber ∷ front_toe
        ∷ rear_toe ∷ front_suspension ∷ rear_suspension ∷ front_anti_roll_bar ∷ rear_anti_roll_bar
        ∷ front_ride_height ∷ rear_ride_height ∷ brake_pressure ∷ brake_bias ∷ engine_braking
        ∷ rear_left_tyre_pressure ∷ rear_right_tyre_pressure ∷ front_left_tyre_pressure
        ∷ front_right_tyre_pressure ∷ ballast ∷ fuel_load ∷ []) =
    ok (record {
      front_wing = front_wing;
      rear_wing = rear_wing;
      on_throttle = on_throttle;
      off_throttle = off_throttle;
      front_camber = front_camber;
      rear_camber = rear_camber;
      front_toe = front_toe;
      rear_toe = rear_toe;
      front_suspension = front_suspension;
      rear_suspension = rear_suspension;
      front_anti_roll_bar = front_anti_roll_bar;
      rear_anti_roll_bar = rear_anti_roll_bar;
      front_ride_height = front_ride_height;
      rear_ride_height = rear_ride_height;
      brake_pressure = brake_pressure;
      brake_bias = brake_bias;
      engine_braking = engine_braking;
      rear_left_tyre_pressure = rear_left_tyre_pressure;
      rear_right_tyre_pressure = rear_right_tyre_pressure;
      front_left_tyre_pressure = front_left_tyre_pressure;
      front_right_tyre_pressure = front_right_tyre_pressure;
      ballast = ballast;
      fuel_load = fuel_load;
    })
car_setup_data_of _ = raise type_error

pub record CarSetupPacket : Type 0 where
  pub car_setups : List CarSetupData
  pub next_front_wing_value : ℕ

-- _CAR_SETUP_FORMAT
abbrev pub car_setup_format : String
car_setup_format = "<4B4f6B3B4fBf"

unfoldable pub setup_packet_of : List CarSetupData → List ℕ → Result CarSetupPacket
setup_packet_of cars (w ∷ _) = ok (record { car_setups = cars; next_front_wing_value = w })
setup_packet_of cars [] = raise index_error

unfoldable pub unpack_car_setup : Bytes → Result CarSetupPacket
unfolding car_setup_data_of setup_packet_of
unpack_car_setup bytes = do
  size ← calcsize car_setup_format
  cars ← unpack_cars car_setup_data_of car_setup_format bytes
  tail ← unpack "<f" (take 4 (drop (size * max_cars) bytes))
  setup_packet_of cars tail
