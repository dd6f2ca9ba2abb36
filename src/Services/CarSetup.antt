-- ===== src/Services/CarSetup.antt =====
-- listener/services/car_setup.py: setups are cached as they arrive and written when a lap is complete.
-- The hash of a setup's bytes and the answer of the database are parameters.
pub mod Real
use formula1_app.Prelude.{
  ℕ, ◌%◌, ◌^◌, Bool, true, false, not, Option, none, some, List, [], ◌∷◌, any, get_elem?, ◌==◌,
  if◌then◌else◌,
}
use formula1_app.Prelude.Eq.{Eq, nat_eq, pair_eq}
use formula1_app.Dict.{Dict}
use formula1_app.Bounded
use formula1_app.Bounded.{BoundedDict}
use formula1_app.Packets.CarSetup.{CarSetupData, CarSetupPacket}

-- A setup value: an integer, or the bits of a float32.
pub data Field : Type 0 where
  int : ℕ → Field
  float : ℕ → Field

-- `v != 0`: both zeros of a float are 0.
unfoldable pub nonzero : Field → Bool
nonzero (int n) = not (n == 0)
nonzero (float x) = not (x % 2 ^ 31 == 0)

-- The tuple `fields`.
unfoldable pub setup_fields : CarSetupData → List Field
setup_fields s =
    int s.front_wing
    ∷ int s.rear_wing
    ∷ int s.on_throttle
    ∷ int s.off_throttle
    ∷ float s.front_camber
    ∷ float s.rear_camber
    ∷ float s.front_toe
    ∷ float s.rear_toe
    ∷ int s.front_suspension
    ∷ int s.rear_suspension
    ∷ int s.front_anti_roll_bar
    ∷ int s.rear_anti_roll_bar
    ∷ int s.front_ride_height
    ∷ int s.rear_ride_height
    ∷ int s.brake_pressure
    ∷ int s.brake_bias
    ∷ int s.engine_braking
    ∷ float s.front_left_tyre_pressure
    ∷ float s.front_right_tyre_pressure
    ∷ float s.rear_left_tyre_pressure
    ∷ float s.rear_right_tyre_pressure
    ∷ int s.ballast
    ∷ float s.fuel_load
    ∷ []

-- `_is_real_setup`
unfoldable pub is_real_setup : List Field → Bool
is_real_setup fields = any nonzero fields

-- The hash, the fields, and the next front wing value.
pub record CachedSetup : Type 0 where
  pub setup_hash : ℕ
  pub fields : List Field
  pub next_front_wing : Option ℕ

pub record State : Type 0 where
  pub cached_setup : BoundedDict (ℕ × ℕ) CachedSetup

abbrev pub init : State
init = record { cached_setup = Bounded.init 500 }

pub data Call : Type 0 where
  -- The hash, the track, the fields, the driver and the session.
  upsert_setup : ℕ → ℕ → List Field → ℕ → ℕ → Call
  -- The session, the driver, the lap, the setup, and the next front wing value.
  insert_lap_setup : ℕ → ℕ → ℕ → ℕ → Option ℕ → Call

module _ (digest : List Field → ℕ) where
  -- The loop's body for a car that the packet has.
  unfoldable pub cache_setup : ℕ → CarSetupPacket → ℕ → ℕ → ℕ → CarSetupData → State → State
  cache_setup player_index p session_uid car_index user_id s st =
      let key : ℕ × ℕ = (session_uid, user_id) in
      if not (is_real_setup (setup_fields s)) then st else record st {
        cached_setup = Bounded.set_item st.cached_setup key (record {
          setup_hash = digest (setup_fields s);
          fields = setup_fields s;
          next_front_wing =
              if car_index == player_index then some p.next_front_wing_value else none;
        });
      }

  -- `handle_car_setup_packet`: the loop over the items of the user map.
  unfoldable pub handle_car_setup_packet : ℕ → CarSetupPacket → ℕ → Dict ℕ ℕ → State → State
  handle_car_setup_packet player_index p session_uid [] st = st
  handle_car_setup_packet player_index p session_uid ((car_index, user_id) ∷ user_map) st =
      handle_car_setup_packet player_index p session_uid user_map
        (elim (get_elem? p.car_setups car_index) [
          | none ↦ st
          | some s ↦ cache_setup player_index p session_uid car_index user_id s st
        ])

-- `on_lap_complete`, where `setup_id` is the database's answer to `upsert_setup`.
unfoldable pub on_lap_complete : (Call → Option ℕ) → ℕ → ℕ → ℕ → ℕ → State → List Call
on_lap_complete setup_id session_uid user_id lap_number track_id st =
    elim (Bounded.get st.cached_setup (session_uid, user_id)) [
      | none ↦ []
      | some c ↦
          let upsert = upsert_setup c.setup_hash track_id c.fields user_id session_uid in
          elim (setup_id upsert) [
            | none ↦ upsert ∷ []
            | some i ↦
                upsert ∷ insert_lap_setup session_uid user_id lap_number i c.next_front_wing ∷ []
          ]
    ]
