-- ===== src/Packets/Total.antt =====
-- A body of the size that listener/packets/packet_header.py expects is parsed without an exception,
-- into one entry for each of the 24 car slots.
use formula1_app.Prelude.{
  ℕ, zero, suc, ◌*◌, ◌≤◌, ◌<◌, ◌≡◌, refl, ap, ◌∙◌, some, List, [], ◌∷◌, String, arith, length, take,
  drop, length-take, length-drop,
}
use formula1_app.Prelude.Eq.{nat_eq}
use formula1_app.Result.{Result, ok, traverse}
use formula1_app.Struct.{Bytes, sum, number, parse_format, read_fields, read_rows}
use formula1_app.Struct.Laws.{
  iter_unpack_fields-eq-ok, unpack_fields-eq-ok, calcsize-eq, unpack-eq, iter_unpack-eq,
}
use formula1_app.Dict
use formula1_app.Packets.Base.{max_cars, unpack_rows, unpack_cars}
use formula1_app.Packets.Header.{expected_body_size}
use formula1_app.Packets.Motion.{car_motion_data_of, car_motion_format, unpack_motion}
use formula1_app.Packets.CarStatus.{car_status_data_of, car_status_format, unpack_car_status}
use formula1_app.Packets.CarTelemetry2.{telemetry2_of, car_telemetry2_format, unpack_car_telemetry2}
use formula1_app.Packets.CarDamage.{car_damage_data_of, car_damage_format, unpack_car_damage}
use formula1_app.Packets.CarTelemetry.{
  CarTelemetryPacket, car_telemetry_data_of, car_telemetry_format, unpack_car_telemetry,
}
use formula1_app.Packets.LapData.{LapDataPacket, lap_data_of, lap_data_format, unpack_lap_data}

-- The result is there, and its list has `n` entries.
abbrev pub Gives : {A : Type 0} → Result (List A) → ℕ → Type 0
Gives {A} r n = (xs : List A) × (r ≡ ok xs) × (length xs ≡ n)

traverse-read_rows :
    {A : Type 0} (of : List ℕ → Result A) (ws : List ℕ) (n : ℕ) (bytes : Bytes)
    → ((b : Bytes) → (a : A) × (of (read_fields ws b) ≡ ok a))
    → Gives (traverse of (read_rows ws n bytes)) n
unfolding traverse read_rows
traverse-read_rows of ws zero bytes total = ([], refl, refl)
traverse-read_rows of ws (suc n) bytes total =
    let (a, e) = total (take (sum ws) bytes) in
    let (xs, es, len) = traverse-read_rows of ws n (drop (sum ws) bytes) total in
    (a ∷ xs, rw (e, es), ap suc len)

-- Rows of a known format, each of which the dataclass takes.
pub unpack_rows-Gives :
    {A : Type 0} (of : List ℕ → Result A) (format : String) (ws : List ℕ) (n : ℕ) (bytes : Bytes)
    → parse_format format ≡ some ws
    → 0 < sum ws
    → length bytes ≡ n * sum ws
    → ((b : Bytes) → (a : A) × (of (read_fields ws b) ≡ ok a))
    → Gives (unpack_rows of format bytes) n
unfolding unpack_rows
unpack_rows-Gives of format ws n bytes e pos len total =
    rw (iter_unpack-eq format ws e bytes, iter_unpack_fields-eq-ok ws n bytes pos len)
      (traverse-read_rows of ws n bytes total)

pub unpack_cars-Gives :
    {A : Type 0} (of : List ℕ → Result A) (format : String) (ws : List ℕ) (bytes : Bytes)
    → parse_format format ≡ some ws
    → 0 < sum ws
    → sum ws * max_cars ≤ length bytes
    → ((b : Bytes) → (a : A) × (of (read_fields ws b) ≡ ok a))
    → Gives (unpack_cars of format bytes) max_cars
unfolding unpack_cars
unpack_cars-Gives of format ws bytes e pos len total = rw (calcsize-eq format ws e) (
    unpack_rows-Gives of format ws max_cars (take (sum ws * max_cars) bytes) e pos
      (omega (arith, length-take (sum ws * max_cars) bytes)) total)

abbrev pub IsExpected : ℕ → Bytes → Type 0
IsExpected packet_id bytes = Dict.lookup packet_id expected_body_size ≡ some (length bytes)

pub unpack_motion-Gives :
    (bytes : Bytes) → length bytes ≡ 1296 → Gives (unpack_motion bytes) max_cars
unfolding unpack_motion parse_format read_fields sum
unpack_motion-Gives bytes h =
    unpack_cars-Gives car_motion_data_of car_motion_format
      (4 ∷ 4 ∷ 4 ∷ 4 ∷ 4 ∷ 4 ∷ 2 ∷ 2 ∷ 2 ∷ 2 ∷ 2 ∷ 2 ∷ 2 ∷ 2 ∷ 2 ∷ 4 ∷ 4 ∷ 4 ∷ []) bytes refl
      (omega arith) (omega arith) (λ b. (_, refl))

pub unpack_car_status-Gives :
    (bytes : Bytes) → length bytes ≡ 1416 → Gives (unpack_car_status bytes) max_cars
unfolding unpack_car_status parse_format read_fields sum
unpack_car_status-Gives bytes h =
    unpack_cars-Gives car_status_data_of car_status_format
      (1 ∷ 1 ∷ 1 ∷ 1 ∷ 1 ∷ 4 ∷ 4 ∷ 4 ∷ 2 ∷ 2 ∷ 1 ∷ 1 ∷ 2 ∷ 1 ∷ 1 ∷ 1 ∷ 1 ∷ 4 ∷ 4 ∷ 4 ∷ 1 ∷ 4 ∷ 4 ∷ 4
        ∷ 4 ∷ 1 ∷ [])
      bytes refl (omega arith) (omega arith) (λ b. (_, refl))

pub unpack_car_telemetry2-Gives :
    (bytes : Bytes) → length bytes ≡ 240 → Gives (unpack_car_telemetry2 bytes) max_cars
unfolding unpack_car_telemetry2 parse_format read_fields sum
unpack_car_telemetry2-Gives bytes h =
    unpack_cars-Gives telemetry2_of car_telemetry2_format (1 ∷ 1 ∷ 2 ∷ 1 ∷ 1 ∷ 2 ∷ 1 ∷ 1 ∷ []) bytes
      refl (omega arith) (omega arith) (λ b. (_, refl))

pub unpack_car_damage-Gives :
    (bytes : Bytes) → length bytes ≡ 1104 → Gives (unpack_car_damage bytes) max_cars
unfolding unpack_car_damage parse_format read_fields sum
unpack_car_damage-Gives bytes h =
    unpack_cars-Gives car_damage_data_of car_damage_format
      (4 ∷ 4 ∷ 4 ∷ 4 ∷ 1 ∷ 1 ∷ 1 ∷ 1 ∷ 1 ∷ 1 ∷ 1 ∷ 1 ∷ 1 ∷ 1 ∷ 1 ∷ 1 ∷ 1 ∷ 1 ∷ 1 ∷ 1 ∷ 1 ∷ 1 ∷ 1 ∷ 1
        ∷ 1 ∷ 1 ∷ 1 ∷ 1 ∷ 1 ∷ 1 ∷ 1 ∷ 1 ∷ 1 ∷ 1 ∷ [])
      bytes refl (omega arith) (omega arith) (λ b. (_, refl))

-- A lap data body of the expected 1370 bytes is parsed without an exception, into 24 cars.
pub unpack_lap_data-Gives :
    (bytes : Bytes)
    → length bytes ≡ 1370
    → (p : LapDataPacket) × (unpack_lap_data bytes ≡ ok p) × (length p.lap_data ≡ max_cars)
unfolding unpack_lap_data parse_format read_fields sum
unpack_lap_data-Gives bytes h =
    let ws : List ℕ =
      (4 ∷ 4 ∷ 2 ∷ 1 ∷ 2 ∷ 1 ∷ 2 ∷ 1 ∷ 2 ∷ 1 ∷ 4 ∷ 4 ∷ 4 ∷ 1 ∷ 1 ∷ 1 ∷ 1 ∷ 1 ∷ 1 ∷ 1 ∷ 1 ∷ 1 ∷ 1 ∷ 1
        ∷ 1 ∷ 1 ∷ 1 ∷ 1 ∷ 2 ∷ 2 ∷ 1 ∷ 4 ∷ 1 ∷ []) in
    let (cars, e, len) =
      unpack_cars-Gives lap_data_of lap_data_format ws bytes refl (omega arith) (omega arith)
        (λ b. (_, refl)) in
    let tail : Bytes = drop (57 * 24) bytes in
    let t =
      unpack-eq "<BB" (1 ∷ 1 ∷ []) refl tail
      ∙ unpack_fields-eq-ok (1 ∷ 1 ∷ []) tail (omega (arith, length-drop (57 * 24) bytes)) in
    (
      record {
        lap_data = cars;
        time_trial_pb_car_idx = number (take 1 tail);
        time_trial_rival_car_idx = number (take 1 (drop 1 tail));
      },
      rw (calcsize-eq lap_data_format ws refl, e, t) refl,
      len,
    )

-- A car telemetry body of the expected 1419 bytes is parsed without an exception, into 24 cars.
pub unpack_car_telemetry-Gives :
    (bytes : Bytes)
    → length bytes ≡ 1419
    → (p : CarTelemetryPacket) × (unpack_car_telemetry bytes ≡ ok p)
      × (length p.car_telemetry_data ≡ max_cars)
unfolding unpack_car_telemetry parse_format read_fields sum
unpack_car_telemetry-Gives bytes h =
    let ws : List ℕ =
      (2 ∷ 4 ∷ 4 ∷ 4 ∷ 1 ∷ 1 ∷ 2 ∷ 1 ∷ 1 ∷ 2 ∷ 2 ∷ 2 ∷ 2 ∷ 2 ∷ 1 ∷ 1 ∷ 1 ∷ 1 ∷ 1 ∷ 1 ∷ 1 ∷ 1 ∷ 1 ∷ 4
        ∷ 4 ∷ 4 ∷ 4 ∷ 1 ∷ 1 ∷ 1 ∷ 1 ∷ []) in
    let (cars, e, len) =
      unpack_cars-Gives car_telemetry_data_of car_telemetry_format ws bytes refl (omega arith)
        (omega arith) (λ b. (_, refl)) in
    let tail : Bytes = take 3 (drop (59 * 24) bytes) in
    let t =
      unpack-eq "<2Bb" (1 ∷ 1 ∷ 1 ∷ []) refl tail
      ∙ unpack_fields-eq-ok (1 ∷ 1 ∷ 1 ∷ []) tail
          (omega (arith, length-take 3 (drop (59 * 24) bytes), length-drop (59 * 24) bytes)) in
    (
      record {
        car_telemetry_data = cars;
        mfd_panel_index = number (take 1 tail);
        mfd_panel_index_secondary_player = number (take 1 (drop 1 tail));
        suggested_gear = number (take 1 (drop 1 (drop 1 tail)));
      },
      rw (calcsize-eq car_telemetry_format ws refl, calcsize-eq "<2Bb" (1 ∷ 1 ∷ 1 ∷ []) refl, e, t)
          refl,
      len,
    )
