-- ===== src/Services/CarFrame.antt =====
-- listener/services/car_frame.py: the packets of one simulation tick become one row for each driver.
-- The repositories swallow every database error (`_execute_many`), so a batch is a call with no
-- result. `write_frame` has the dispatcher's arguments, its telemetry data taken out of the packet
-- as there.
pub mod Wheels
pub mod Widths
pub mod Complete
pub mod Withheld
pub mod Gaps
pub mod Drivers
pub mod Written
use formula1_app.Prelude.{
  ℕ, String, zero, suc, ◌+◌, Bool, true, false, not, ◌&&◌, Option, none, some, List, [], ◌∷◌, ◌++◌,
  take, drop, get_elem?, any, is_empty, ◌==◌, if◌then◌else◌,
}
use formula1_app.Prelude.Eq.{nat_eq}
use formula1_app.Result.{Result, ok, raise, ◌>>=◌, index_error}
use formula1_app.Dict
use formula1_app.Dict.{Dict}
use formula1_app.Packets.Base.{max_cars}
use formula1_app.Packets.LapData.{LapData}
use formula1_app.Packets.CarDamage.{CarDamageData}
use formula1_app.Packets.CarTelemetry.{CarTelemetryPacket, CarTelemetryData}
use formula1_app.Dispatcher.State.{FrameWrite}
use formula1_app.Services.Rows.{Value, null, num, bool, quotient, uid, time, Row, timestamp}
use formula1_app.Services.Rows.Columns.{car_frame_columns, column_index?}
use formula1_app.Services.Rows.Fields.{
  motion_fields, telemetry_fields, player_telemetry_fields, lap_fields, status_public_fields,
  status_restricted_fields, damage_fields, telemetry2_fields,
}

-- COLUMN_INDEX, on names that it has.
abbrev pub column_index : String → ℕ
column_index name = elim (column_index? car_frame_columns name) [ none ↦ 0 | some i ↦ i ]

abbrev pub idx_position : ℕ
idx_position = column_index "position"

abbrev pub idx_gap_ahead : ℕ
idx_gap_ahead = column_index "gap_to_car_ahead_ms"

abbrev pub idx_gap_behind : ℕ
idx_gap_behind = column_index "gap_to_car_behind_ms"

pub data Call : Type 0 where
  insert_frames : List Row → Call
  insert_damage : List Row → Call
  -- The session, its time, and its start if known.
  delete_frames_after : ℕ → ℕ → Option ℕ → Call
  delete_damage_after : ℕ → ℕ → Option ℕ → Call

-- `data[car_index] if data else None`
unfoldable pub item : {A : Type 0} → Option (List A) → ℕ → Result (Option A)
item none car_index = ok none
item (some []) car_index = ok none
item (some (x ∷ xs)) car_index = elim (get_elem? (x ∷ xs) car_index) [
  | none ↦ raise index_error
  | some a ↦ ok (some a)
]

-- `packet.car_telemetry_data if packet else None`
abbrev pub telemetry_data : Option CarTelemetryPacket → Option (List CarTelemetryData)
telemetry_data none = none
telemetry_data (some p) = some p.car_telemetry_data

-- A driver who sits in the garage.
unfoldable pub in_garage : Option LapData → Bool
in_garage none = false
in_garage (some lap) = lap.driver_status == 0

-- `car_index in restricted`
unfoldable pub is_restricted : FrameWrite → ℕ → Bool
is_restricted w car_index = any (λ i. i == car_index) w.restricted_indices

-- The head of every row.
unfoldable pub meta : FrameWrite → ℕ → ℕ → Row
meta w timestamp user_id =
    time timestamp
    ∷ uid w.session_uid
    ∷ num user_id
    ∷ num w.session_time
    ∷ num w.overall_frame_identifier
    ∷ []

-- The damage row of a car, if it has one.
unfoldable pub damage_row : FrameWrite → ℕ → ℕ → ℕ → Option (List CarDamageData) → Result (List Row)
unfolding meta is_restricted
damage_row w timestamp car_index user_id none = ok []
damage_row w timestamp car_index user_id (some damage) =
    if is_restricted w car_index then ok [] else elim (get_elem? damage car_index) [
      | none ↦ raise index_error
      | some d ↦ ok ((meta w timestamp user_id ++ damage_fields (some d)) ∷ [])
    ]

-- The frame rows and the damage rows of a mapped car: one of each at most.
unfoldable pub driver_rows : FrameWrite → ℕ → ℕ → ℕ → Result (List Row × List Row)
unfolding meta is_restricted item in_garage damage_row
driver_rows w timestamp car_index user_id = do
  motion ← item w.frame.motion_data car_index
  telemetry ← item (telemetry_data w.frame.telemetry_packet) car_index
  lap ← item w.frame.lap_data_list car_index
  status ← item w.frame.car_status_data car_index
  telemetry2 ← item w.frame.car_telemetry2_data car_index
  if in_garage lap then ok ([], []) else do
    damage ← damage_row w timestamp car_index user_id w.frame.car_damage_data
    ok (
      (meta w timestamp user_id
            ++ motion_fields motion
            ++ telemetry_fields telemetry
            ++ player_telemetry_fields w.frame.telemetry_packet (car_index == w.player_car_index)
            ++ lap_fields lap
            ++ status_public_fields status
            ++ status_restricted_fields status (is_restricted w car_index)
            ++ telemetry2_fields telemetry2)
          ∷ [],
      damage,
    )

-- One turn of the loop over the cars.
unfoldable pub car_rows : FrameWrite → ℕ → ℕ → Result (List Row × List Row)
unfolding driver_rows
car_rows w timestamp car_index = elim (Dict.lookup car_index w.user_map) [
  | none ↦ ok ([], [])
  | some user_id ↦ driver_rows w timestamp car_index user_id
]

-- The loop over the cars from `car_index` on, for the number of cars that are left.
unfoldable pub all_rows : FrameWrite → ℕ → ℕ → ℕ → Result (List Row × List Row)
unfolding car_rows
all_rows w timestamp zero car_index = ok ([], [])
all_rows w timestamp (suc n) car_index = do
  here ← car_rows w timestamp car_index
  rest ← all_rows w timestamp n (suc car_index)
  ok (here.0 ++ rest.0, here.1 ++ rest.1)

-- `row[i]`: every row has all columns, so no read is out of range.
unfoldable pub cell : Row → ℕ → Value
cell row i = elim (get_elem? row i) [ none ↦ null | some v ↦ v ]

-- `row[_IDX_POSITION]`, a number or None.
unfoldable pub position_of : Row → Option ℕ
unfolding cell
position_of row = elim (cell row idx_position) [
  | null ↦ none
  | num p ↦ some p
  | bool _ ↦ none
  | quotient _ ↦ none
  | uid _ ↦ none
  | time _ ↦ none
]

-- `gap_ahead_by_position`, added to `gaps`.
unfoldable pub gap_ahead_by_position : List Row → Dict ℕ Value → Dict ℕ Value
gap_ahead_by_position [] gaps = gaps
gap_ahead_by_position (row ∷ rows) gaps =
    gap_ahead_by_position rows
      (elim (position_of row) [ none ↦ gaps | some p ↦ Dict.put p (cell row idx_gap_ahead) gaps ])

abbrev pub is_null : Value → Bool
is_null null = true
is_null (num _) = false
is_null (bool _) = false
is_null (quotient _) = false
is_null (uid _) = false
is_null (time _) = false

-- `row[:_IDX_GAP_BEHIND] + (behind_gap,) + row[_IDX_GAP_BEHIND + 1:]`
unfoldable pub with_gap_behind : Value → Row → Row
with_gap_behind behind_gap row =
    take idx_gap_behind row ++ behind_gap ∷ drop (idx_gap_behind + 1) row

-- The loop's body, which leaves a row where there is no gap behind.
unfoldable pub fill_row : Dict ℕ Value → Row → Row
fill_row gaps row = elim (position_of row) [
  | none ↦ row
  | some p ↦ elim (Dict.lookup (p + 1) gaps) [
    | none ↦ row
    | some behind_gap ↦ if is_null behind_gap then row else with_gap_behind behind_gap row
  ]
]

unfoldable pub fill_each : Dict ℕ Value → List Row → List Row
fill_each gaps [] = []
fill_each gaps (row ∷ rows) = fill_row gaps row ∷ fill_each gaps rows

-- `_fill_gap_to_car_behind`
unfoldable pub fill_gap_to_car_behind : List Row → List Row
fill_gap_to_car_behind rows = fill_each (gap_ahead_by_position rows []) rows

-- The two batches.
unfoldable pub batches : Bool → List Row × List Row → List Call
unfolding fill_gap_to_car_behind
batches damage_repo (rows, damage_rows) =
    (if is_empty rows then [] else insert_frames (fill_gap_to_car_behind rows) ∷ [])
    ++ (if not (is_empty damage_rows) && damage_repo then insert_damage damage_rows ∷ [] else [])

module _ (plus_seconds : ℕ → ℕ → Result ℕ) where
  -- `write_frame`, at the time `now`. `damage_repo` says whether there is a damage repository.
  unfoldable pub write_frame : Bool → ℕ → FrameWrite → Result (List Call)
  unfolding all_rows batches timestamp
  write_frame damage_repo now w = if not w.race_started then ok [] else do
    t ← timestamp plus_seconds w.session_start w.session_time now
    rows ← all_rows w t max_cars 0
    ok (batches damage_repo rows)

-- `discard_after`, where the database has deleted `discarded` frame rows.
unfoldable pub discard_after : Bool → ℕ → ℕ → Option ℕ → ℕ → ℕ × List Call
discard_after damage_repo session_uid session_time session_start discarded = (
  discarded,
  delete_frames_after session_uid session_time session_start
      ∷ (if damage_repo
          then delete_damage_after session_uid session_time session_start ∷ []
          else []),
)
