-- ===== src/Services/FinalClassification.antt =====
-- listener/services/final_classification.py, with the rows of
-- listener/database/repositories/final_classification.py: the classification of a session is
-- written once; one that the database refuses goes to a file, which is replayed later.
pub mod Once
pub mod Replay
use formula1_app.Prelude.{
  ℕ, suc, Bool, true, false, not, Option, none, some, List, [], ◌∷◌, any, map, take, is_empty, ltb,
  ◌==◌, ◌&&◌, if◌then◌else◌,
}
use formula1_app.Prelude.Eq.{Eq, nat_eq}
use formula1_app.Dict
use formula1_app.Dict.{Dict}
use formula1_app.Bounded
use formula1_app.Bounded.{BoundedSet}
use formula1_app.Enums.Names.{EnumName, safe_enum_name}
use formula1_app.Enums.Events.{result_reason, result_status}
use formula1_app.Packets.FinalClassification.{FinalClassification, FinalClassificationPacket}

-- RACE_SESSION_TYPES
abbrev pub race_session_types : List ℕ
race_session_types = 15 ∷ 16 ∷ 17 ∷ 100 ∷ []

-- What a race adds to a classification.
pub record RaceFields : Type 0 where
  pub grid_position : ℕ
  pub num_pit_stops : ℕ
  pub total_race_time : ℕ
  pub num_tyre_stints : ℕ
  pub tyre_stints_actual : List ℕ
  pub tyre_stints_visual : List ℕ
  pub tyre_stints_end_laps : List (Option ℕ)

-- The dictionary of a driver.
pub record Classification : Type 0 where
  pub session_uid : ℕ
  pub user_id : ℕ
  pub position : ℕ
  pub num_laps : ℕ
  pub status : ℕ
  pub reason : ℕ
  pub best_lap_time_ms : Option ℕ
  pub game_points : ℕ
  pub penalties_time : ℕ
  pub num_penalties : ℕ
  pub race : Option RaceFields

-- A row of the tables, whose two enum columns are names.
pub record ClassificationRow : Type 0 where
  pub status_name : EnumName
  pub reason_name : EnumName
  pub values : Classification

unfoldable pub classification_row : Classification → ClassificationRow
classification_row c = record {
  status_name = safe_enum_name result_status c.status;
  reason_name = safe_enum_name result_reason c.reason;
  values = c;
}

-- The contents of a dead-letter file.
pub record Letter : Type 0 where
  pub session_uid : ℕ
  pub classifications : List Classification
  pub is_race : Bool

pub data Call : Type 0 where
  insert_race_classification_batch : List ClassificationRow → Call
  insert_qualifying_classification_batch : List ClassificationRow → Call
  write_dead_letter : Letter → Call

pub record State : Type 0 where
  pub processed_sessions : BoundedSet ℕ
  -- Whether there is a directory for dead letters.
  pub dead_letter_dir : Bool

abbrev pub init : Bool → State
init dead_letter_dir = record {
  processed_sessions = Bounded.init 100;
  dead_letter_dir = dead_letter_dir;
}

-- `lap if lap != 255 else None`
unfoldable pub end_lap : ℕ → Option ℕ
end_lap n = if n == 255 then none else some n

unfoldable pub race_fields : FinalClassification → RaceFields
race_fields fc = record {
  grid_position = fc.grid_position;
  num_pit_stops = fc.num_pit_stops;
  total_race_time = fc.total_race_time;
  num_tyre_stints = fc.num_of_tyre_stints;
  tyre_stints_actual = take fc.num_of_tyre_stints fc.tyre_stints_actual;
  tyre_stints_visual = take fc.num_of_tyre_stints fc.tyre_stints_visual;
  tyre_stints_end_laps = map end_lap (take fc.num_of_tyre_stints fc.tyre_stints_end_laps);
}

unfoldable pub classification_of : Bool → ℕ → ℕ → FinalClassification → Classification
classification_of is_race session_uid user_id fc = record {
  session_uid = session_uid;
  user_id = user_id;
  position = fc.position;
  num_laps = fc.num_of_laps;
  status = fc.result_status;
  reason = fc.result_reason;
  best_lap_time_ms = if ltb 0 fc.best_lap_time_in_ms then some fc.best_lap_time_in_ms else none;
  game_points = fc.points;
  penalties_time = if fc.penalties_time == 255 then 0 else fc.penalties_time;
  num_penalties = fc.num_of_penalties;
  race = if is_race then some (race_fields fc) else none;
}

-- The loop over the cars, from `car_index` on.
unfoldable pub classify : Bool → ℕ → Dict ℕ ℕ → ℕ → List FinalClassification → List Classification
classify is_race session_uid user_map car_index [] = []
classify is_race session_uid user_map car_index (fc ∷ fcs) =
    let rest = classify is_race session_uid user_map (suc car_index) fcs in
    if fc.result_status == 0 then rest else elim (Dict.lookup car_index user_map) [
      | none ↦ rest
      | some user_id ↦ classification_of is_race session_uid user_id fc ∷ rest
    ]

-- The call of the repository.
unfoldable pub insert_call : Bool → List Classification → Call
insert_call is_race classifications =
    if is_race
    then insert_race_classification_batch (map classification_row classifications)
    else insert_qualifying_classification_batch (map classification_row classifications)

-- The service's logs are left out; `accepts` says whether the database takes a batch, and no
-- exception comes from the repository if so. A call of `write_dead_letter` is an attempt, whose
-- failure is logged and has no other effect.
module _ (accepts : Call → Bool) where
  -- The method behind the loop. `_write_dead_letter` does nothing without a directory.
  unfoldable pub write_classifications : ℕ → Bool → List Classification → State → State × List Call
  write_classifications session_uid is_race classifications st =
      let processed : State = record st {
        processed_sessions = Bounded.add st.processed_sessions session_uid;
      } in
      let letter : Letter = record {
        session_uid = session_uid;
        classifications = classifications;
        is_race = is_race;
      } in
      if is_empty classifications
      then (processed, [])
      else if accepts (insert_call is_race classifications)
      then (processed, insert_call is_race classifications ∷ [])
      else (
        st,
        insert_call is_race classifications
            ∷ (if st.dead_letter_dir then write_dead_letter letter ∷ [] else []),
      )

  -- `handle_final_classification_packet`, where `session_type` is the session service's answer.
  unfoldable pub handle_final_classification_packet :
      ℕ → Option ℕ → FinalClassificationPacket → Dict ℕ ℕ → State → State × List Call
  handle_final_classification_packet session_uid none packet user_map st = (st, [])
  handle_final_classification_packet session_uid (some session_type) packet user_map st =
      let is_race = any (λ t. t == session_type) race_session_types in
      if Bounded.has st.processed_sessions session_uid
      then (st, [])
      else write_classifications session_uid is_race
          (classify is_race session_uid user_map 0 packet.final_classifications) st

-- `removes` says whether `os.remove` takes the file of a letter away.
module _ (accepts : Call → Bool) (removes : Letter → Bool) where
  -- The loop of `replay_dead_letters` over the files in the order of their names; `none` is a file
  -- that cannot be read, and a file that can is the letter that was dumped into it. The result is the files that are left, and the calls.
  unfoldable pub replay_dead_letters : List (Option Letter) → List (Option Letter) × List Call
  replay_dead_letters [] = ([], [])
  replay_dead_letters (none ∷ files) =
      let (left, calls) = replay_dead_letters files in (none ∷ left, calls)
  replay_dead_letters (some l ∷ files) =
      let (left, calls) = replay_dead_letters files in
      let call = insert_call l.is_race l.classifications in
      (if accepts call && removes l then left else some l ∷ left, call ∷ calls)
