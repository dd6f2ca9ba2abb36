-- ===== src/Services/CarFrame/Widths.antt =====
-- The parts of a row and of a damage row have the lengths of the columns they stand in.
use formula1_app.Prelude.{
  ℕ, ◌≡◌, refl, Bool, true, false, Option, none, some, ◌++◌, length, length-append, length-map,
  Bool-cases, inl, inr, ◌==◌,
}
use formula1_app.Packets.Base.{truthy}
use formula1_app.Packets.Motion.{CarMotionData}
use formula1_app.Packets.LapData.{LapData}
use formula1_app.Packets.CarStatus.{CarStatusData}
use formula1_app.Packets.CarTelemetry.{CarTelemetryData, CarTelemetryPacket}
use formula1_app.Packets.CarDamage.{CarDamageData}
use formula1_app.Packets.CarTelemetry2.{CarTelemetry2Data}
use formula1_app.Services.Rows.{Row}
use formula1_app.Services.Rows.Columns.{car_frame_columns, car_frame_damage_columns}
use formula1_app.Prelude.Eq.{nat_eq}
use formula1_app.Services.Rows.Fields.{
  motion_fields, telemetry_fields, player_telemetry_fields, lap_fields, status_public_fields,
  status_restricted_fields, damage_fields, telemetry2_fields,
}
use formula1_app.Dispatcher.State.{FrameWrite}
use formula1_app.Services.CarFrame.Wheels.{FourWheels, FourWheelsDamaged}
use formula1_app.Services.CarFrame.{is_restricted, meta}

-- A property of the entry, if there is one.
abbrev pub Each : {A : Type 0} → (A → Type 0) → Option A → Type 0
Each P none = Unit
Each P (some a) = P a

-- The widths of the parts of a row.
length-motion_fields : (m : Option CarMotionData) → length (motion_fields m) ≡ 18
unfolding motion_fields
length-motion_fields none = refl
length-motion_fields (some m) = refl

length-telemetry_fields :
    (t : Option CarTelemetryData) → Each FourWheels t → length (telemetry_fields t) ≡ 31
unfolding telemetry_fields
length-telemetry_fields none h = refl
length-telemetry_fields (some t) (a, b, c, d, e) = simp (length-append, length-map, a, b, c, d, e)

length-player_telemetry_fields :
    (p : Option CarTelemetryPacket) (is_player : Bool)
    → length (player_telemetry_fields p is_player) ≡ 3
unfolding player_telemetry_fields
length-player_telemetry_fields none is_player = refl
length-player_telemetry_fields (some p) true = refl
length-player_telemetry_fields (some p) false = refl

length-lap_fields : (l : Option LapData) → length (lap_fields l) ≡ 30
unfolding lap_fields
length-lap_fields none = refl
length-lap_fields (some l) = refl

length-status_public_fields : (s : Option CarStatusData) → length (status_public_fields s) ≡ 13
unfolding status_public_fields
length-status_public_fields none = refl
length-status_public_fields (some s) = refl

length-status_restricted_fields :
    (s : Option CarStatusData) (r : Bool) → length (status_restricted_fields s r) ≡ 13
unfolding status_restricted_fields
length-status_restricted_fields none r = refl
length-status_restricted_fields (some s) true = refl
length-status_restricted_fields (some s) false = refl

length-telemetry2_fields : (t : Option CarTelemetry2Data) → length (telemetry2_fields t) ≡ 8
unfolding telemetry2_fields
length-telemetry2_fields none = refl
length-telemetry2_fields (some t) = elim (Bool-cases (truthy t.regulations_2026)) [
  | inl y ↦ rw y refl
  | inr n ↦ rw n refl
]

pub length-damage_fields :
    (d : CarDamageData) → FourWheelsDamaged d → length (damage_fields (some d)) ≡ 34
unfolding damage_fields
length-damage_fields t (a, b, c, d) = simp (length-append, length-map, a, b, c, d)

-- A tuple of the INSERT's length.
abbrev pub FrameWide : Row → Type 0
FrameWide row = length row ≡ length car_frame_columns

abbrev pub DamageWide : Row → Type 0
DamageWide row = length row ≡ length car_frame_damage_columns

pub length-meta : (w : FrameWrite) (t u : ℕ) → length (meta w t u) ≡ 5
unfolding meta
length-meta w t u = refl

-- The frame row of a mapped car.
pub length_row :
    (w : FrameWrite) (t i u : ℕ) (m : Option CarMotionData) (tel : Option CarTelemetryData)
    (l : Option LapData) (s : Option CarStatusData) (t2 : Option CarTelemetry2Data)
    → Each FourWheels tel
    → FrameWide (
        meta w t u
        ++ motion_fields m
        ++ telemetry_fields tel
        ++ player_telemetry_fields w.frame.telemetry_packet (i == w.player_car_index)
        ++ lap_fields l
        ++ status_public_fields s
        ++ status_restricted_fields s (is_restricted w i)
        ++ telemetry2_fields t2)
length_row w t i u m tel l s t2 h = simp (
  length-append,
  length-meta,
  length-motion_fields,
  length-telemetry_fields tel h,
  length-player_telemetry_fields,
  length-lap_fields,
  length-status_public_fields,
  length-status_restricted_fields,
  length-telemetry2_fields,
)
