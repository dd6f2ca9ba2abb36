-- ===== src/Services/LapHistory.antt =====
-- listener/services/lap_history.py: Session History packets become rows of laps, of session bests
-- and, after the classification, of tyre stints. Each method returns the service's new state and
-- the calls of the repositories in order. The repositories swallow every database error
-- (`_execute_many`), so a call has no result.
pub mod Laps
pub mod Bests
use formula1_app.Prelude.{
  ℕ, suc, ◌+◌, ◌-◌, ◌*◌, ◌<◌, Bool, true, false, not, ◌&&◌, ◌||◌, Option, none, some, List, [], ◌∷◌,
  ◌++◌, take, drop, is_empty, ltb, bit_and, ◌==◌, if◌then◌else◌,
}
use formula1_app.Prelude.Eq.{Eq, ◌=?◌, nat_eq, pair_eq, option_eq}
use formula1_app.Dict
use formula1_app.Dict.{Dict}
use formula1_app.Bounded
use formula1_app.Bounded.{BoundedDict}
use formula1_app.Enums.Names.{EnumName, safe_enum_name}
use formula1_app.Enums.Car.{actual_tyre_compound, visual_tyre_compound}
use formula1_app.Packets.SessionHistory.{LapHistory, TyreStintHistory, SessionHistoryPacket}

-- A row of telemetry.laps.
pub record LapRow : Type 0 where
  pub session_uid : ℕ
  pub user_id : ℕ
  pub lap_num : ℕ
  pub lap_time_ms : Option ℕ
  pub sector1_time_ms : Option ℕ
  pub sector2_time_ms : Option ℕ
  pub sector3_time_ms : Option ℕ
  pub is_valid : Bool
  pub sector1_valid : Bool
  pub sector2_valid : Bool
  pub sector3_valid : Bool

-- The laps on which the best lap and the best sectors were set.
abbrev pub Bests : Type 0
Bests = Option ℕ × (Option ℕ × (Option ℕ × Option ℕ))

pub record StintRow : Type 0 where
  pub session_uid : ℕ
  pub user_id : ℕ
  pub stint_idx : ℕ
  pub end_lap : Option ℕ
  pub actual : EnumName
  pub visual : EnumName

pub data Call : Type 0 where
  upsert_laps_batch : List LapRow → Call
  upsert_bests : ℕ → ℕ → Bests → Call
  upsert_stints_batch : List StintRow → Call

-- `bests_repo` says whether there is a session bests repository.
pub record State : Type 0 where
  pub bests_repo : Bool
  pub last_num_laps : BoundedDict (ℕ × ℕ) ℕ
  pub last_bests : BoundedDict (ℕ × ℕ) Bests
  pub warned_car_indices : BoundedDict (ℕ × ℕ) Bool

abbrev pub init : Bool → State
init bests_repo = record {
  bests_repo = bests_repo;
  last_num_laps = Bounded.init 500;
  last_bests = Bounded.init 500;
  warned_car_indices = Bounded.init 50;
}

-- The time of a sector, if the game has sent one.
unfoldable pub sector_time : ℕ → ℕ → Option ℕ
sector_time minutes ms = if ltb 0 ms || ltb 0 minutes then some (minutes * 60000 + ms) else none

-- `(flags & mask) == mask`
unfoldable pub flag_set : ℕ → ℕ → Bool
flag_set flags mask = bit_and flags mask == mask

unfoldable pub lap_row : ℕ → ℕ → ℕ → LapHistory → LapRow
unfolding sector_time flag_set
lap_row session_uid user_id lap_num l = record {
  session_uid = session_uid;
  user_id = user_id;
  lap_num = lap_num;
  lap_time_ms = if ltb 0 l.lap_time_in_ms then some l.lap_time_in_ms else none;
  sector1_time_ms = sector_time l.sector_1_time_minutes_part l.sector_1_time_ms_part;
  sector2_time_ms = sector_time l.sector_2_time_minutes_part l.sector_2_time_ms_part;
  sector3_time_ms = sector_time l.sector_3_time_minutes_part l.sector_3_time_ms_part;
  is_valid = flag_set l.lap_valid_bit_flags 1;
  sector1_valid = flag_set l.lap_valid_bit_flags 2;
  sector2_valid = flag_set l.lap_valid_bit_flags 4;
  sector3_valid = flag_set l.lap_valid_bit_flags 8;
}

-- The loop of `_upsert_laps`, whose counter `enumerate` starts at the first lap's number.
unfoldable pub lap_rows : ℕ → ℕ → ℕ → List LapHistory → List LapRow
lap_rows session_uid user_id lap_num [] = []
lap_rows session_uid user_id lap_num (l ∷ ls) =
    let rest = lap_rows session_uid user_id (suc lap_num) ls in
    if l.lap_time_in_ms == 0 then rest else lap_row session_uid user_id lap_num l ∷ rest

abbrev pub or_zero : Option ℕ → ℕ
or_zero none = 0
or_zero (some n) = n

-- The batch of `_upsert_laps`, for the number of laps that the last packet had.
unfoldable pub lap_batch : ℕ → ℕ → ℕ → SessionHistoryPacket → List LapRow
lap_batch session_uid user_id last_num_laps p =
    let start_index = last_num_laps - 1 in
    lap_rows session_uid user_id (start_index + 1)
      (drop start_index (take p.num_laps p.lap_history_list))

-- `_upsert_laps`
unfoldable pub upsert_laps : ℕ → ℕ → SessionHistoryPacket → State → State × List Call
upsert_laps session_uid user_id p st =
    let key : ℕ × ℕ = (session_uid, user_id) in
    let batch = lap_batch session_uid user_id (or_zero (Bounded.get st.last_num_laps key)) p in
    (
      record st { last_num_laps = Bounded.set_item st.last_num_laps key p.num_laps },
      if is_empty batch then [] else upsert_laps_batch batch ∷ [],
    )

-- `_lap_or_none`
unfoldable pub lap_or_none : ℕ → Option ℕ
lap_or_none n = if n == 0 then none else some n

unfoldable pub bests_of : SessionHistoryPacket → Bests
unfolding lap_or_none
bests_of p = (
  lap_or_none p.best_lap_time_lap_num,
  (
    lap_or_none p.best_sector_1_lap_num,
    (lap_or_none p.best_sector_2_lap_num, lap_or_none p.best_sector_3_lap_num),
  ),
)

-- `_upsert_session_bests`
unfoldable pub upsert_session_bests : ℕ → ℕ → SessionHistoryPacket → State → State × List Call
upsert_session_bests session_uid user_id p st =
    let key : ℕ × ℕ = (session_uid, user_id) in
    if not st.bests_repo
    then (st, [])
    else if Bounded.get st.last_bests key =? some (bests_of p)
    then (st, [])
    else (
      record st { last_bests = Bounded.set_item st.last_bests key (bests_of p) },
      upsert_bests session_uid user_id (bests_of p) ∷ [],
    )

-- The warning of `handle_session_history_packet` for a car that is not in the map.
unfoldable pub warn_once : ℕ → ℕ → State → State
warn_once session_uid car_index st =
    let key : ℕ × ℕ = (session_uid, car_index) in
    if Bounded.has st.warned_car_indices key
    then st
    else record st { warned_car_indices = Bounded.set_item st.warned_car_indices key true }

-- `handle_session_history_packet`
unfoldable pub handle_session_history_packet :
    ℕ → SessionHistoryPacket → Dict ℕ ℕ → State → State × List Call
handle_session_history_packet session_uid p user_map st = elim (Dict.lookup p.car_index user_map) [
  | none ↦ (warn_once session_uid p.car_index st, [])
  | some user_id ↦
      let (st', laps) = upsert_laps session_uid user_id p st in
      let (st'', bests) = upsert_session_bests session_uid user_id p st' in (st'', laps ++ bests)
]

-- The loop of `_upsert_tyre_stints`.
unfoldable pub stint_rows : ℕ → ℕ → ℕ → List TyreStintHistory → List StintRow
stint_rows session_uid user_id stint_idx [] = []
stint_rows session_uid user_id stint_idx (t ∷ ts) =
    let rest = stint_rows session_uid user_id (suc stint_idx) ts in
    if t.tyre_actual_compound == 0
    then rest
    else record {
      session_uid = session_uid;
      user_id = user_id;
      stint_idx = stint_idx;
      end_lap = if t.end_lap == 255 then none else some t.end_lap;
      actual = safe_enum_name actual_tyre_compound t.tyre_actual_compound;
      visual = safe_enum_name visual_tyre_compound t.tyre_visual_compound;
    }
      ∷ rest

-- `handle_tyre_stints`
unfoldable pub handle_tyre_stints : ℕ → SessionHistoryPacket → Dict ℕ ℕ → List Call
handle_tyre_stints session_uid p user_map = elim (Dict.lookup p.car_index user_map) [
  | none ↦ []
  | some user_id ↦
      let batch = stint_rows session_uid user_id 0 (take p.num_tyre_stints p.tyre_stints_list) in
      if is_empty batch then [] else upsert_stints_batch batch ∷ []
]
