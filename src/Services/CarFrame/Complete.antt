-- ===== src/Services/CarFrame/Complete.antt =====
-- Every row that write_frame hands to the database has a value for each column.
use formula1_app.Prelude.{
  ℕ, zero, suc, ◌+◌, ◌≡◌, refl, Bool, not, ◌&&◌, Option, none, some, List, [], ◌∷◌, length-append,
  length-take, length-drop, arith, All, All-append, Bool-cases, Option-cases, All-get_elem?, inl,
  inr, is_empty, get_elem?, take, drop, if_both, option_both,
}
use formula1_app.Result.{Result, ok, raise, Holds, Holds-bind, Holds-any, index_error}
use formula1_app.Struct.{Bytes}
use formula1_app.Dict
use formula1_app.Dict.{Dict}
use formula1_app.Packets.Base.{max_cars}
use formula1_app.Packets.CarTelemetry.{CarTelemetryPacket}
use formula1_app.Packets.CarDamage.{CarDamageData, unpack_car_damage}
use mathlib.Core.Path.{subst}
use formula1_app.Packets.Motion.{unpack_motion}
use formula1_app.Packets.LapData.{unpack_lap_data}
use formula1_app.Packets.CarStatus.{unpack_car_status}
use formula1_app.Packets.CarTelemetry2.{unpack_car_telemetry2}
use formula1_app.Packets.CarTelemetry.{unpack_car_telemetry}
use formula1_app.Services.Rows.{Value, Row, timestamp}
use formula1_app.Services.Rows.Columns.{column_index?}
use formula1_app.Prelude.Eq.{nat_eq}
use formula1_app.Services.Rows.Fields.{damage_fields}
use formula1_app.Dispatcher.State.{FrameData, FrameWrite, Payload}
use formula1_app.Dispatcher.Frames.{parsed, frame_data}
use formula1_app.FrameBuffer.{Packets}
use formula1_app.Services.CarFrame.Wheels.{
  FourWheels, FourWheelsDamaged, FourWheeled, unpack_car_telemetry-FourWheeled,
  unpack_car_damage-FourWheelsDamaged,
}
use formula1_app.Services.CarFrame.{
  Call, insert_frames, insert_damage, delete_frames_after, delete_damage_after, item,
  telemetry_data, in_garage, is_restricted, meta, damage_row, driver_rows, car_rows, all_rows,
  position_of, with_gap_behind, fill_row, fill_each, fill_gap_to_car_behind, batches, write_frame,
  is_null, idx_gap_behind,
}
use formula1_app.Services.CarFrame.Widths.{
  Each, FrameWide, DamageWide, length-damage_fields, length-meta, length_row,
}

abbrev RowsWide : List Row × List Row → Type 0
RowsWide (rows, damage_rows) = All FrameWide rows × All DamageWide damage_rows

-- The rows that a call hands over are as wide as their table.
unfoldable pub CallWide : Call → Type 0
CallWide (insert_frames rows) = All FrameWide rows
CallWide (insert_damage rows) = All DamageWide rows
CallWide (delete_frames_after _ _ _) = Unit
CallWide (delete_damage_after _ _ _) = Unit

abbrev pub AllOf : {A : Type 0} → (A → Type 0) → Option (List A) → Type 0
AllOf P none = Unit
AllOf P (some xs) = All P xs

entry-Each :
    {A : Type 0} (P : A → Type 0) (o : Option A)
    → ((a : A) → o ≡ some a → P a)
    → Holds (Each P) (elim o [ none ↦ raise index_error | some a ↦ ok (some a) ])
entry-Each P none h = tt
entry-Each P (some a) h = h a refl

item-Each :
    {A : Type 0} (P : A → Type 0) (d : Option (List A)) (i : ℕ)
    → AllOf P d
    → Holds (Each P) (item d i)
unfolding item
item-Each P none i h = tt
item-Each P (some []) i h = tt
item-Each P (some (x ∷ xs)) i h =
    entry-Each P (get_elem? (x ∷ xs) i) (λ a e. All-get_elem? P (x ∷ xs) i a h e)

-- What the widths rest on.
abbrev Wheeled : FrameData → Type 0
Wheeled f =
    AllOf FourWheels (telemetry_data f.telemetry_packet) × AllOf FourWheelsDamaged f.car_damage_data

damage_row-DamageWide :
    (w : FrameWrite) (t i u : ℕ) (d : Option (List CarDamageData))
    → AllOf FourWheelsDamaged d
    → Holds (All DamageWide) (damage_row w t i u d)
unfolding damage_row
damage_row-DamageWide w t i u none h = tt
damage_row-DamageWide w t i u (some d) h = elim (Bool-cases (is_restricted w i)) [
  | inl r ↦ rw r tt
  | inr r ↦ elim (Option-cases (get_elem? d i)) [
    | inl e ↦ rw (r, e) tt
    | inr (a, e) ↦
        rw (r, e)
          (
            rw
                (
                  length-append (meta w t u) (damage_fields (some a)),
                  length-meta w t u,
                  length-damage_fields a (All-get_elem? FourWheelsDamaged d i a h e),
                )
                refl,
            tt,
          )
  ]
]

driver_rows-RowsWide :
    (w : FrameWrite) (t i u : ℕ) → Wheeled w.frame → Holds RowsWide (driver_rows w t i u)
unfolding driver_rows
driver_rows-RowsWide w t i u (h, k) =
    Holds-bind _ RowsWide (item w.frame.motion_data i) _ (Holds-any (item w.frame.motion_data i))
      (λ m _.
        Holds-bind _ RowsWide (item (telemetry_data w.frame.telemetry_packet) i) _
          (item-Each FourWheels (telemetry_data w.frame.telemetry_packet) i h)
          (λ tel e.
            Holds-bind _ RowsWide (item w.frame.lap_data_list i) _
              (Holds-any (item w.frame.lap_data_list i))
              (λ l _.
                Holds-bind _ RowsWide (item w.frame.car_status_data i) _
                  (Holds-any (item w.frame.car_status_data i))
                  (λ s _.
                    Holds-bind _ RowsWide (item w.frame.car_telemetry2_data i) _
                      (Holds-any (item w.frame.car_telemetry2_data i))
                      (λ t2 _.
                        if_both (Holds RowsWide) (in_garage l) (tt, tt)
                          (Holds-bind (All DamageWide) RowsWide
                            (damage_row w t i u w.frame.car_damage_data) _
                            (damage_row-DamageWide w t i u w.frame.car_damage_data k)
                            (λ d e2. ((length_row w t i u m tel l s t2 e, tt), e2))))))))

all_rows-RowsWide :
    (w : FrameWrite) (t n i : ℕ) → Wheeled w.frame → Holds RowsWide (all_rows w t n i)
unfolding all_rows car_rows
all_rows-RowsWide w t zero i h = (tt, tt)
all_rows-RowsWide w t (suc n) i h =
    Holds-bind RowsWide RowsWide (car_rows w t i) _
      (option_both (Holds RowsWide) (Dict.lookup i w.user_map) (tt, tt)
        (λ u. driver_rows-RowsWide w t i u h))
      (λ here p.
        Holds-bind RowsWide RowsWide (all_rows w t n (suc i)) _ (all_rows-RowsWide w t n (suc i) h)
          (λ rest q. (
            All-append FrameWide here.0 rest.0 p.0 q.0,
            All-append DamageWide here.1 rest.1 p.1 q.1,
          )))

-- The second pass keeps the widths.
length_replaced : (row : Row) (v : Value) → FrameWide row → FrameWide (with_gap_behind v row)
unfolding with_gap_behind column_index?
length_replaced row v h = omega (
  arith,
  h,
  length-append (take idx_gap_behind row) (v ∷ drop (idx_gap_behind + 1) row),
  length-take idx_gap_behind row,
  length-drop (idx_gap_behind + 1) row,
)

fill_row-FrameWide :
    (gaps : Dict ℕ Value) (row : Row) → FrameWide row → FrameWide (fill_row gaps row)
unfolding fill_row
fill_row-FrameWide gaps row h = option_both FrameWide (position_of row) h (λ p.
    option_both FrameWide (Dict.lookup (p + 1) gaps) h
      (λ v. if_both FrameWide (is_null v) h (length_replaced row v h)))

fill_each-FrameWide :
    (gaps : Dict ℕ Value) (rows : List Row)
    → All FrameWide rows
    → All FrameWide (fill_each gaps rows)
unfolding fill_each
fill_each-FrameWide gaps [] h = tt
fill_each-FrameWide gaps (row ∷ rows) h =
    (fill_row-FrameWide gaps row h.0, fill_each-FrameWide gaps rows h.1)

batches-CallWide :
    (damage_repo : Bool) (rows damage_rows : List Row)
    → All FrameWide rows
    → All DamageWide damage_rows
    → All CallWide (batches damage_repo (rows, damage_rows))
unfolding batches fill_gap_to_car_behind CallWide
batches-CallWide damage_repo rows damage_rows p q =
    All-append CallWide _ _
      (if_both (All CallWide) (is_empty rows) tt (fill_each-FrameWide _ rows p, tt))
      (if_both (All CallWide) (not (is_empty damage_rows) && damage_repo) (q, tt) tt)

write_frame-Wheeled :
    (plus_seconds : ℕ → ℕ → Result ℕ) (damage_repo : Bool) (now : ℕ) (w : FrameWrite)
    → Wheeled w.frame
    → Holds (All CallWide) (write_frame plus_seconds damage_repo now w)
unfolding write_frame
write_frame-Wheeled plus_seconds damage_repo now w h =
    if_both (Holds (All CallWide)) (not w.race_started) tt (
      Holds-bind _ (All CallWide) (timestamp plus_seconds w.session_start w.session_time now) _
        (Holds-any (timestamp plus_seconds w.session_start w.session_time now))
        (λ t _.
          Holds-bind RowsWide (All CallWide) (all_rows w t max_cars 0) _
            (all_rows-RowsWide w t max_cars 0 h)
            (λ rows p. batches-CallWide damage_repo rows.0 rows.1 p.0 p.1)))

-- Parsed packets have the widths.
parsed-Each :
    {A : Type 0} (P : A → Type 0) (parse : Bytes → Result A) (i : ℕ) (packets : Packets Payload)
    → ((b : Bytes) → Holds P (parse b))
    → Holds (Each P) (parsed parse i packets)
unfolding parsed
parsed-Each P parse i packets h =
    option_both (Holds (Each P)) (Dict.lookup i packets) tt
      (λ p. Holds-bind P (Each P) (parse p.1) _ (h p.1) (λ a q. q))

AllOf-telemetry :
    (p : Option CarTelemetryPacket) → Each FourWheeled p → AllOf FourWheels (telemetry_data p)
AllOf-telemetry none h = tt
AllOf-telemetry (some p) h = h

AllOf-damage :
    (d : Option (List CarDamageData)) → Each (All FourWheelsDamaged) d → AllOf FourWheelsDamaged d
AllOf-damage none h = tt
AllOf-damage (some p) h = h

frame_data-Wheeled : (packets : Packets Payload) → Holds Wheeled (frame_data packets)
unfolding frame_data
frame_data-Wheeled packets =
    Holds-bind _ Wheeled (parsed unpack_motion 0 packets) _
      (Holds-any (parsed unpack_motion 0 packets))
      (λ m _.
        Holds-bind _ Wheeled (parsed unpack_car_telemetry 6 packets) _
          (parsed-Each FourWheeled unpack_car_telemetry 6 packets unpack_car_telemetry-FourWheeled)
          (λ tel p.
            Holds-bind _ Wheeled (parsed unpack_lap_data 2 packets) _
              (Holds-any (parsed unpack_lap_data 2 packets))
              (λ l _.
                Holds-bind _ Wheeled (parsed unpack_car_status 7 packets) _
                  (Holds-any (parsed unpack_car_status 7 packets))
                  (λ s _.
                    Holds-bind _ Wheeled (parsed unpack_car_damage 10 packets) _
                      (parsed-Each (All FourWheelsDamaged) unpack_car_damage 10 packets
                        unpack_car_damage-FourWheelsDamaged)
                      (λ d q.
                        Holds-bind _ Wheeled (parsed unpack_car_telemetry2 16 packets) _
                          (Holds-any (parsed unpack_car_telemetry2 16 packets))
                          (λ t2 _. (AllOf-telemetry tel p, AllOf-damage d q)))))))

-- If write_frame returns for a frame that the dispatcher has parsed, every row it hands over has
-- exactly as many values as its table has columns: 121 for car_frame and 39 for car_frame_damage.
pub write_frame-CallWide :
    (plus_seconds : ℕ → ℕ → Result ℕ) (damage_repo : Bool) (now : ℕ) (packets : Packets Payload)
    (w : FrameWrite)
    → frame_data packets ≡ ok w.frame
    → Holds (All CallWide) (write_frame plus_seconds damage_repo now w)
write_frame-CallWide plus_seconds damage_repo now packets w e =
    write_frame-Wheeled plus_seconds damage_repo now w
      (subst (Holds Wheeled) e (frame_data-Wheeled packets))
