-- ===== src/Services/TyreSets/Snapshots.antt =====
-- What a completed lap writes of the tyre sets: listener/services/tyre_sets.py.
use formula1_app.Prelude.{
  ℕ, suc, ◌-◌, ◌≡◌, refl, ap, ◌∙◌, true, false, Option, none, some, List, [], ◌∷◌, arith, any, map,
  is_empty, get_elem?, get_elem?-cons, leb, ◌==◌, if◌then◌else◌,
}
use formula1_app.Prelude.Eq.{nat_eq, pair_eq}
use formula1_app.Dict
use formula1_app.Dict.{Dict}
use formula1_app.Bounded
use formula1_app.Bounded.Entries.{get-set_item_same}
use formula1_app.Enums.Names.{safe_enum_name}
use formula1_app.Enums.Car.{actual_tyre_compound, visual_tyre_compound}
use formula1_app.Enums.Sessions.{session_type_ids}
use formula1_app.Packets.TyreSets.{TyreSetData, TyreSetsPacket}
use formula1_app.Services.TyreSets.{
  AvailableSet, SnapshotRow, State, available_set_of, available_sets, handle_tyre_sets_packet,
  snapshot_row, on_lap_complete,
}

-- The row of a set in what a completed lap writes.
unfoldable pub row_of_set : ℕ → List SnapshotRow → Option SnapshotRow
row_of_set k [] = none
row_of_set k (r ∷ rs) = if r.available_set.set_index == k then some r else row_of_set k rs

unfoldable pub written_set : ℕ → Option (List SnapshotRow) → Option SnapshotRow
written_set k none = none
written_set k (some rows) = row_of_set k rows

module _ (uid user lap fitted : ℕ) where
  -- The row of a set with the packet's values.
  unfoldable pub expected_row : ℕ → TyreSetData → SnapshotRow
  expected_row k t = record {
    session_uid = uid;
    user_id = user;
    lap_number = lap;
    available_set = record {
      set_index = k;
      actual_compound = safe_enum_name actual_tyre_compound t.actual_compound;
      visual_compound = safe_enum_name visual_tyre_compound t.visual_compound;
      wear = t.wear;
      life_span = t.life_span;
      usable_life = t.usable_life;
      recommended_session = safe_enum_name session_type_ids t.recommended_session;
      lap_delta_time = t.lap_delta_time;
      fitted = k == fitted;
    };
  }

  snapshot_row_expected :
      (k : ℕ) (t : TyreSetData)
      → snapshot_row uid user lap (available_set_of fitted k t) ≡ expected_row k t
  unfolding snapshot_row available_set_of expected_row
  snapshot_row_expected k t = refl

  -- The row that a set should have.
  unfoldable pub row_if_available : ℕ → Option TyreSetData → Option SnapshotRow
  row_if_available k none = none
  row_if_available k (some t) = if t.available == 1 then some (expected_row k t) else none

  index-snapshot_row :
      (k : ℕ) (t : TyreSetData)
      → (snapshot_row uid user lap (available_set_of fitted k t)).available_set.set_index ≡ k
  unfolding snapshot_row available_set_of
  index-snapshot_row k t = refl

  row_of_set-available_sets :
      (k i : ℕ) (ts : List TyreSetData)
      → row_of_set k (map (snapshot_row uid user lap) (available_sets fitted i ts))
        ≡ (if leb i k then row_if_available k (get_elem? ts (k - i)) else none)
  unfolding row_of_set available_sets row_if_available
  row_of_set-available_sets k i [] = ground arith
  row_of_set-available_sets k i (t ∷ ts) = ground (
    arith,
    row_of_set-available_sets k (suc i) ts,
    get_elem?-cons t ts (k - i),
    index-snapshot_row i t,
    index-snapshot_row k t,
    snapshot_row_expected i t,
    snapshot_row_expected k t,
  )

  written-map :
      (k : ℕ) (cached : List AvailableSet)
      → written_set k
          (if is_empty cached then none else some (map (snapshot_row uid user lap) cached))
        ≡ row_of_set k (map (snapshot_row uid user lap) cached)
  unfolding written_set row_of_set
  written-map k [] = refl
  written-map k (c ∷ cs) = refl

-- With valid cached sets, after a Tyre Sets packet of a mapped car that is not restricted, a lap
-- that the car's driver completes writes a row for a set exactly when the packet has the set as
-- available, and the row has the packet's values for the set, its three codes as names, and says
-- whether the set is the fitted one.
pub written_set-on_lap_complete :
    (uid user lap : ℕ) (p : TyreSetsPacket) (user_map : Dict ℕ ℕ) (restricted : List ℕ) (st : State)
    (k : ℕ)
    → Bounded.IsValid st.cached_sets
    → Dict.contains p.car_idx user_map ≡ true
    → any (λ i. i == p.car_idx) restricted ≡ false
    → written_set k (
        on_lap_complete uid user p.car_idx lap
          (handle_tyre_sets_packet uid p user_map restricted st))
      ≡ row_if_available uid user lap p.fitted_idx k (get_elem? p.tyre_set_data k)
unfolding on_lap_complete handle_tyre_sets_packet
written_set-on_lap_complete uid user lap p user_map restricted st k v c r =
    let sets = available_sets p.fitted_idx 0 p.tyre_set_data in
    rw (c, r)
      (ap
          (λ (o : Option (List AvailableSet)).
            written_set k (elim o as (λ _. Option (List SnapshotRow)) [
              | none ↦ none
              | some cached ↦
                  if is_empty cached then none else some (map (snapshot_row uid user lap) cached)
            ]))
          (get-set_item_same st.cached_sets (uid, p.car_idx) sets v)
        ∙ written-map uid user lap p.fitted_idx k sets
        ∙ row_of_set-available_sets uid user lap p.fitted_idx k 0 p.tyre_set_data
        ∙ ground arith)
