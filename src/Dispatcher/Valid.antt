-- ===== src/Dispatcher/Valid.antt =====
-- The handlers of listener/dispatcher.py that work on its sets and dictionaries keep them valid.
use formula1_app.Prelude.{ℕ, Bool, true, not, List, [], ◌∷◌, is_empty, ◌==◌, if◌then◌else◌, if_both}
use formula1_app.Prelude.Eq.{nat_eq, pair_eq, list_eq}
use formula1_app.Dict.{keys}
use formula1_app.Bounded
use formula1_app.Bounded.{BoundedDict}
use formula1_app.Bounded.Laws.{set_item-IsValid}
use formula1_app.Action.{Action}
use formula1_app.FrameBuffer.Laws
use formula1_app.Packets.Header.{PacketHeader}
use formula1_app.Dispatcher.State.{State, UserMap, Dispatcher, IsValid}
use formula1_app.Dispatcher.Routes.{
  is_race_type, on_state, reset_laps, reset_session_laps, start_if_new, take_map,
  receive_classification,
}
use formula1_app.Dispatcher.Handle.{log_size_mismatch}
use formula1_app.Dispatcher.Keeps.{Keeps, IsFrameStable}

pub reset_laps-IsValid :
    (uid : ℕ) (ks : List (ℕ × ℕ)) (laps : BoundedDict (ℕ × ℕ) ℕ)
    → Bounded.IsValid laps
    → Bounded.IsValid (reset_laps uid ks laps)
unfolding reset_laps
reset_laps-IsValid uid [] laps v = v
reset_laps-IsValid uid (k ∷ ks) laps v =
    reset_laps-IsValid uid ks (if k.0 == uid then Bounded.set_item laps k 0 else laps) (
      if_both (λ (l : BoundedDict (ℕ × ℕ) ℕ). Bounded.IsValid l) (k.0 == uid)
        (set_item-IsValid laps k 0 v) v)

module _ {W : Type 0} where
  pub add_known :
      (d : State W) (uid : ℕ)
      → IsValid d
      → IsValid (record d { known_sessions = Bounded.add d.known_sessions uid })
  unfolding IsValid Bounded.add
  add_known d uid (k, e, m, r, c, l, z) =
      (set_item-IsValid d.known_sessions uid tt k, e, m, r, c, l, z)

  pub add_excluded :
      (d : State W) (uid : ℕ)
      → IsValid d
      → IsValid (record d { excluded_sessions = Bounded.add d.excluded_sessions uid })
  unfolding IsValid Bounded.add
  add_excluded d uid (k, e, m, r, c, l, z) =
      (k, set_item-IsValid d.excluded_sessions uid tt e, m, r, c, l, z)

  set_user_map :
      (d : State W) (uid : ℕ) (um : UserMap)
      → IsValid d
      → IsValid (record d { user_maps = Bounded.set_item d.user_maps uid um })
  unfolding IsValid
  set_user_map d uid um (k, e, m, r, c, l, z) =
      (k, e, set_item-IsValid d.user_maps uid um m, r, c, l, z)

  set_race_started :
      (d : State W) (uid : ℕ) (b : Bool)
      → IsValid d
      → IsValid (record d { race_started = Bounded.set_item d.race_started uid b })
  unfolding IsValid
  set_race_started d uid b (k, e, m, r, c, l, z) =
      (k, e, m, set_item-IsValid d.race_started uid b r, c, l, z)

  add_classification :
      (d : State W) (uid : ℕ)
      → IsValid d
      → IsValid (record d { classification_received = Bounded.add d.classification_received uid })
  unfolding IsValid Bounded.add
  add_classification d uid (k, e, m, r, c, l, z) =
      (k, e, m, r, set_item-IsValid d.classification_received uid tt c, l, z)

  set_last_lap :
      (d : State W) (key : ℕ × ℕ) (n : ℕ)
      → IsValid d
      → IsValid (record d { last_lap_nums = Bounded.set_item d.last_lap_nums key n })
  unfolding IsValid
  set_last_lap d key n (k, e, m, r, c, l, z) =
      (k, e, m, r, c, set_item-IsValid d.last_lap_nums key n l, z)

  add_mismatch :
      (d : State W) (key : ℕ × ℕ)
      → IsValid d
      → IsValid (record d { logged_size_mismatches = Bounded.add d.logged_size_mismatches key })
  unfolding IsValid Bounded.add
  add_mismatch d key (k, e, m, r, c, l, z) =
      (k, e, m, r, c, l, set_item-IsValid d.logged_size_mismatches key tt z)

  pub stable : IsFrameStable (λ (d : State W). IsValid d)
  unfolding IsValid
  stable = record {
    services = λ d w v. v;
    started = λ d uid v. set_race_started d uid true v;
    laps = λ d k n v. set_last_lap d k n v;
  }

  unfoldable pub Valid : Dispatcher W → Type 0
  Valid st = Laws.IsValid st.0 × IsValid st.1

  pub on_state-Keeps :
      {A : Type 0} (m : Action (State W) A)
      → Keeps (λ (d : State W). IsValid d) m
      → Keeps Valid (on_state m)
  unfolding on_state Valid
  on_state-Keeps m h (b, d) (vb, vd) = (vb, h d vd)

  pub start_if_new_Valid : (uid t : ℕ) (d : State W) → IsValid d → IsValid (start_if_new uid t d)
  unfolding start_if_new
  start_if_new_Valid uid t d v =
      if_both (λ (s : State W). IsValid s) (Bounded.has d.race_started uid) v
        (set_race_started d uid (not (is_race_type t)) v)

  pub take_map_Valid :
      (uid : ℕ) (m : UserMap) (d : State W) → IsValid d → IsValid (take_map uid m d)
  unfolding take_map
  take_map_Valid uid m d v =
      if_both (λ (s : State W). IsValid s) (is_empty m) v (set_user_map d uid m v)

  pub receive_classification_Valid :
      (uid : ℕ) (d : State W) → IsValid d → IsValid (receive_classification uid d)
  unfolding receive_classification
  receive_classification_Valid uid d v = add_classification d uid v

  pub log_size_mismatch_Valid :
      (h : PacketHeader) (d : State W) → IsValid d → IsValid (log_size_mismatch h d)
  unfolding log_size_mismatch
  log_size_mismatch_Valid h d v =
      if_both (λ (s : State W). IsValid s)
        (Bounded.has d.logged_size_mismatches (h.session_uid, h.packet_id)) v
        (add_mismatch d (h.session_uid, h.packet_id) v)

  pub reset_session_laps_Valid :
      (uid : ℕ) (d : State W) → IsValid d → IsValid (reset_session_laps uid d)
  unfolding IsValid reset_session_laps
  reset_session_laps_Valid uid d (k, e, m, r, c, l, z) =
      (k, e, m, r, c, reset_laps-IsValid uid (keys d.last_lap_nums.entries) d.last_lap_nums l, z)
