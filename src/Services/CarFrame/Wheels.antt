-- ===== src/Services/CarFrame/Wheels.antt =====
-- The parsers give each value per wheel four times: listener/packets/car_telemetry.py and
-- car_damage.py.
use formula1_app.Prelude.{ℕ, ◌*◌, String, ◌≡◌, refl, List, [], ◌∷◌, length, All, take, drop}
use formula1_app.Result.{Result, Holds, Holds-bind, Holds-any, Holds-traverse}
use formula1_app.Struct.{Bytes, calcsize, unpack, iter_unpack}
use formula1_app.Packets.Base.{max_cars, unpack_cars, unpack_rows}
use formula1_app.Packets.CarTelemetry.{
  CarTelemetryData, CarTelemetryPacket, car_telemetry_data_of, car_telemetry_packet_of,
  car_telemetry_format, unpack_car_telemetry,
}
use formula1_app.Packets.CarDamage.{
  CarDamageData, car_damage_data_of, car_damage_format, unpack_car_damage,
}

-- Four values, one for each wheel.
abbrev pub FourWheels : CarTelemetryData → Type 0
FourWheels t =
    (length t.brakes_temperature ≡ 4)
    × (length t.tyres_surface_temp ≡ 4)
    × (length t.tyres_inner_temp ≡ 4)
    × (length t.tyres_pressure ≡ 4)
    × (length t.surface_type ≡ 4)

abbrev pub FourWheelsDamaged : CarDamageData → Type 0
FourWheelsDamaged d =
    (length d.tyres_wear ≡ 4)
    × (length d.tyres_damage ≡ 4)
    × (length d.brakes_damage ≡ 4)
    × (length d.tyre_blisters ≡ 4)

-- The parsers give four values.
car_telemetry_data_of-FourWheels : (xs : List ℕ) → Holds FourWheels (car_telemetry_data_of xs)
unfolding car_telemetry_data_of
car_telemetry_data_of-FourWheels
      (f0 ∷ f1 ∷ f2 ∷ f3 ∷ f4 ∷ f5 ∷ f6 ∷ f7 ∷ f8 ∷ f9 ∷ f10 ∷ f11 ∷ f12 ∷ f13 ∷ f14 ∷ f15 ∷ f16
        ∷ f17 ∷ f18 ∷ f19 ∷ f20 ∷ f21 ∷ f22 ∷ f23 ∷ f24 ∷ f25 ∷ f26 ∷ f27 ∷ f28 ∷ f29 ∷ f30 ∷ []) =
    (refl, refl, refl, refl, refl)
car_telemetry_data_of-FourWheels _ = tt

car_damage_data_of-FourWheelsDamaged :
    (xs : List ℕ) → Holds FourWheelsDamaged (car_damage_data_of xs)
unfolding car_damage_data_of
car_damage_data_of-FourWheelsDamaged
      (f0 ∷ f1 ∷ f2 ∷ f3 ∷ f4 ∷ f5 ∷ f6 ∷ f7 ∷ f8 ∷ f9 ∷ f10 ∷ f11 ∷ f12 ∷ f13 ∷ f14 ∷ f15 ∷ f16
        ∷ f17 ∷ f18 ∷ f19 ∷ f20 ∷ f21 ∷ f22 ∷ f23 ∷ f24 ∷ f25 ∷ f26 ∷ f27 ∷ f28 ∷ f29 ∷ f30 ∷ f31
        ∷ f32 ∷ f33 ∷ []) =
    (refl, refl, refl, refl)
car_damage_data_of-FourWheelsDamaged _ = tt

-- What every row gives is so of every car.
unpack_cars-Holds :
    {A : Type 0} (P : A → Type 0) (of : List ℕ → Result A) (format : String) (bytes : Bytes)
    → ((xs : List ℕ) → Holds P (of xs))
    → Holds (All P) (unpack_cars of format bytes)
unfolding unpack_cars unpack_rows
unpack_cars-Holds P of format bytes h =
    Holds-bind (λ _. Unit {0}) (All P) (calcsize format) _ (Holds-any (calcsize format))
      (λ size u.
        Holds-bind (λ _. Unit {0}) (All P) (iter_unpack format (take (size * max_cars) bytes)) _
          (Holds-any (iter_unpack format (take (size * max_cars) bytes)))
          (λ rows v. Holds-traverse P of rows h))

abbrev pub FourWheeled : CarTelemetryPacket → Type 0
FourWheeled p = All FourWheels p.car_telemetry_data

packet_of-FourWheeled :
    (cars : List CarTelemetryData) (xs : List ℕ)
    → All FourWheels cars
    → Holds FourWheeled (car_telemetry_packet_of cars xs)
unfolding car_telemetry_packet_of
packet_of-FourWheeled cars (a ∷ b ∷ c ∷ []) h = h
packet_of-FourWheeled cars _ h = tt

pub unpack_car_telemetry-FourWheeled :
    (bytes : Bytes) → Holds FourWheeled (unpack_car_telemetry bytes)
unfolding unpack_car_telemetry
unpack_car_telemetry-FourWheeled bytes =
    Holds-bind (λ _. Unit {0}) FourWheeled (calcsize car_telemetry_format) _
      (Holds-any (calcsize car_telemetry_format))
      (λ size u.
        Holds-bind (All FourWheels) FourWheeled
          (unpack_cars car_telemetry_data_of car_telemetry_format bytes) _
          (unpack_cars-Holds FourWheels car_telemetry_data_of car_telemetry_format bytes
            car_telemetry_data_of-FourWheels)
          (λ cars h.
            Holds-bind (λ _. Unit {0}) FourWheeled (calcsize "<2Bb") _ (Holds-any (calcsize "<2Bb"))
              (λ tail_size v.
                Holds-bind (λ _. Unit {0}) FourWheeled
                  (unpack "<2Bb" (take tail_size (drop (size * max_cars) bytes))) _
                  (Holds-any (unpack "<2Bb" (take tail_size (drop (size * max_cars) bytes))))
                  (λ tail z. packet_of-FourWheeled cars tail h))))

pub unpack_car_damage-FourWheelsDamaged :
    (bytes : Bytes) → Holds (All FourWheelsDamaged) (unpack_car_damage bytes)
unfolding unpack_car_damage
unpack_car_damage-FourWheelsDamaged bytes =
    unpack_cars-Holds FourWheelsDamaged car_damage_data_of car_damage_format bytes
      car_damage_data_of-FourWheelsDamaged
