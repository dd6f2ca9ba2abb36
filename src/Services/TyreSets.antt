-- ===== src/Services/TyreSets.antt =====
-- listener/services/tyre_sets.py: the sets of a car are cached as they arrive, and written as a
-- snapshot when its driver completes a lap. The repository swallows every database error.
pub mod Snapshots
use formula1_app.Prelude.{
  ℕ, suc, Bool, true, false, not, ◌&&◌, Option, none, some, List, [], ◌∷◌, any, map, is_empty, ◌==◌,
  if◌then◌else◌,
}
use formula1_app.Prelude.Eq.{Eq, nat_eq, pair_eq}
use formula1_app.Dict
use formula1_app.Dict.{Dict}
use formula1_app.Bounded
use formula1_app.Bounded.{BoundedDict}
use formula1_app.Enums.Names.{EnumName, safe_enum_name}
use formula1_app.Enums.Car.{actual_tyre_compound, visual_tyre_compound}
use formula1_app.Enums.Sessions.{session_type_ids}
use formula1_app.Packets.TyreSets.{TyreSetData, TyreSetsPacket}

-- The tuple of an available set.
pub record AvailableSet : Type 0 where
  pub set_index : ℕ
  pub actual_compound : EnumName
  pub visual_compound : EnumName
  pub wear : ℕ
  pub life_span : ℕ
  pub usable_life : ℕ
  pub recommended_session : EnumName
  pub lap_delta_time : ℕ
  pub fitted : Bool

-- A row of telemetry.tyre_sets.
pub record SnapshotRow : Type 0 where
  pub session_uid : ℕ
  pub user_id : ℕ
  pub lap_number : ℕ
  pub available_set : AvailableSet

pub record State : Type 0 where
  pub cached_sets : BoundedDict (ℕ × ℕ) (List AvailableSet)

abbrev pub init : State
init = record { cached_sets = Bounded.init 500 }

unfoldable pub available_set_of : ℕ → ℕ → TyreSetData → AvailableSet
available_set_of fitted_idx set_index t = record {
  set_index = set_index;
  actual_compound = safe_enum_name actual_tyre_compound t.actual_compound;
  visual_compound = safe_enum_name visual_tyre_compound t.visual_compound;
  wear = t.wear;
  life_span = t.life_span;
  usable_life = t.usable_life;
  recommended_session = safe_enum_name session_type_ids t.recommended_session;
  lap_delta_time = t.lap_delta_time;
  fitted = set_index == fitted_idx;
}

-- The loop over the sets, from `set_index` on.
unfoldable pub available_sets : ℕ → ℕ → List TyreSetData → List AvailableSet
available_sets fitted_idx set_index [] = []
available_sets fitted_idx set_index (t ∷ ts) =
    let rest = available_sets fitted_idx (suc set_index) ts in
    if not (t.available == 1) then rest else available_set_of fitted_idx set_index t ∷ rest

-- `handle_tyre_sets_packet`
unfoldable pub handle_tyre_sets_packet : ℕ → TyreSetsPacket → Dict ℕ ℕ → List ℕ → State → State
handle_tyre_sets_packet session_uid p user_map restricted_indices st =
    let key : ℕ × ℕ = (session_uid, p.car_idx) in
    if not (Dict.contains p.car_idx user_map)
    then st
    else if any (λ i. i == p.car_idx) restricted_indices
    then st
    else record st {
      cached_sets =
          Bounded.set_item st.cached_sets key (available_sets p.fitted_idx 0 p.tyre_set_data);
    }

unfoldable pub snapshot_row : ℕ → ℕ → ℕ → AvailableSet → SnapshotRow
snapshot_row session_uid user_id lap_number s = record {
  session_uid = session_uid;
  user_id = user_id;
  lap_number = lap_number;
  available_set = s;
}

-- `on_lap_complete`: the rows of `insert_snapshot`, if it is called.
unfoldable pub on_lap_complete : ℕ → ℕ → ℕ → ℕ → State → Option (List SnapshotRow)
on_lap_complete session_uid user_id car_index lap_number st =
    elim (Bounded.get st.cached_sets (session_uid, car_index)) [
      | none ↦ none
      | some cached ↦
          if is_empty cached
          then none
          else some (map (snapshot_row session_uid user_id lap_number) cached)
    ]
