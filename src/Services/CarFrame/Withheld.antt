-- ===== src/Services/CarFrame/Withheld.antt =====
-- Nothing of what the game withholds for a restricted driver reaches the database.
use formula1_app.Prelude.{
  ℕ, zero, suc, ◌+◌, ◌≡◌, refl, ap, ◌∙◌, Bool, true, false, not, Option, none, some, List, [], ◌∷◌,
  ◌++◌, arith, Bool-cases, inl, inr, get_elem?, if◌then◌else◌,
}
use formula1_app.Prelude.Eq.{nat_eq}
use formula1_app.Result.{Result, ok, raise, ◌>>=◌, index_error, bind_cong}
use formula1_app.Dict
use formula1_app.Packets.Base.{max_cars}
use formula1_app.Packets.CarStatus.{CarStatusData}
use formula1_app.Packets.CarDamage.{CarDamageData}
use formula1_app.Dispatcher.State.{FrameWrite}
use formula1_app.Services.Rows.{Row, timestamp}
use formula1_app.Services.Rows.Fields.{
  damage_fields, status_public_fields, status_restricted_fields,
}
use formula1_app.Services.CarFrame.{
  meta, item, telemetry_data, is_restricted, damage_row, driver_rows, car_rows, all_rows,
  write_frame,
}

-- The fields that the game zeroes for a restricted car, taken from another car's status.
unfoldable pub with_private_fields : CarStatusData → CarStatusData → CarStatusData
with_private_fields s2 s = record s {
  front_brake_bias = s2.front_brake_bias;
  fuel_mix = s2.fuel_mix;
  fuel_in_tank = s2.fuel_in_tank;
  fuel_capacity = s2.fuel_capacity;
  fuel_remaining_laps = s2.fuel_remaining_laps;
  ers_store_energy = s2.ers_store_energy;
  ers_deploy_mode = s2.ers_deploy_mode;
  ers_deployed_this_lap = s2.ers_deployed_this_lap;
  ers_harvest_limit_per_lap = s2.ers_harvest_limit_per_lap;
  ers_harvested_this_lap_mguk = s2.ers_harvested_this_lap_mguk;
  ers_harvested_this_lap_mguh = s2.ers_harvested_this_lap_mguh;
  engine_power_ice = s2.engine_power_ice;
  engine_power_mguk = s2.engine_power_mguk;
}

-- A change of the entries that depends on their place, from the place `i` on.
unfoldable pub update_from : {A : Type 0} → (ℕ → A → A) → ℕ → List A → List A
update_from f i [] = []
update_from f i (x ∷ xs) = f i x ∷ update_from f (suc i) xs

abbrev pub update_all : {A : Type 0} → (ℕ → A → A) → Option (List A) → Option (List A)
update_all f none = none
update_all f (some xs) = some (update_from f 0 xs)

unfoldable pub hide_status : FrameWrite → CarStatusData → ℕ → CarStatusData → CarStatusData
hide_status w s2 i s = if is_restricted w i then with_private_fields s2 s else s

unfoldable pub hide_damage : FrameWrite → CarDamageData → ℕ → CarDamageData → CarDamageData
hide_damage w d2 i d = if is_restricted w i then d2 else d

-- The frame with other private values for its restricted drivers.
unfoldable pub with_private_values : CarStatusData → CarDamageData → FrameWrite → FrameWrite
with_private_values s2 d2 w = record w {
  frame = record w.frame {
    car_status_data = update_all (hide_status w s2) w.frame.car_status_data;
    car_damage_data = update_all (hide_damage w d2) w.frame.car_damage_data;
  };
}

abbrev at : {A : Type 0} → (ℕ → A → A) → ℕ → Option A → Option A
at f i none = none
at f i (some a) = some (f i a)

get_elem?-update_from :
    {A : Type 0} (f : ℕ → A → A) (i : ℕ) (xs : List A) (k : ℕ)
    → get_elem? (update_from f i xs) k ≡ at f (i + k) (get_elem? xs k)
unfolding update_from
get_elem?-update_from f i [] k = refl
get_elem?-update_from f i (x ∷ xs) zero = ground arith
get_elem?-update_from f i (x ∷ xs) (suc k) =
    get_elem?-update_from f (suc i) xs k ∙ ap (λ n. at f n (get_elem? xs k)) (omega arith)

update_from_zero :
    {A : Type 0} (f : ℕ → A → A) (xs : List A) (k : ℕ)
    → get_elem? (update_from f 0 xs) k ≡ at f k (get_elem? xs k)
update_from_zero f xs k =
    get_elem?-update_from f 0 xs k ∙ ap (λ n. at f n (get_elem? xs k)) (omega arith)

entry_at :
    {A : Type 0} (f : ℕ → A → A) (i : ℕ) (o : Option A)
    → (elim (at f i o) [ none ↦ raise index_error | some a ↦ ok (some a) ])
      ≡ (elim o [ none ↦ raise index_error | some a ↦ ok (some a) ] >>= λ p. ok (at f i p))
entry_at f i none = refl
entry_at f i (some a) = refl

item-update_all :
    {A : Type 0} (f : ℕ → A → A) (d : Option (List A)) (i : ℕ)
    → item (update_all f d) i ≡ (item d i >>= λ o. ok (at f i o))
unfolding item update_from
item-update_all f none i = refl
item-update_all f (some []) i = refl
item-update_all f (some (x ∷ xs)) i =
    ap (λ (o : Option _). elim o [ none ↦ raise index_error | some a ↦ ok (some a) ])
      (update_from_zero f (x ∷ xs) i)
    ∙ entry_at f i (get_elem? (x ∷ xs) i)

bind_at :
    {A B : Type 0} (f : ℕ → A → A) (i : ℕ) (k : Option A → Result B) (k' : Option A → Result B)
    (m : Result (Option A))
    → ((o : Option A) → k (at f i o) ≡ k' o)
    → ((m >>= λ o. ok (at f i o)) >>= k) ≡ (m >>= k')
bind_at f i k k' (ok o) h = h o
bind_at f i k k' (raise x) h = refl

-- A continuation that makes nothing of the change.
bind-item :
    {A B : Type 0} (f : ℕ → A → A) (d : Option (List A)) (i : ℕ) (k k' : Option A → Result B)
    → ((o : Option A) → k (at f i o) ≡ k' o)
    → (item (update_all f d) i >>= k) ≡ (item d i >>= k')
bind-item f d i k k' h = ap (λ m. m >>= k) (item-update_all f d i) ∙ bind_at f i k k' (item d i) h

module _ (w : FrameWrite) (s2 : CarStatusData) (d2 : CarDamageData) where
  status_public_fields-hide_status :
      (i : ℕ) (o : Option CarStatusData)
      → status_public_fields (at (hide_status w s2) i o) ≡ status_public_fields o
  unfolding status_public_fields hide_status with_private_fields
  status_public_fields-hide_status i none = refl
  status_public_fields-hide_status i (some s) = elim (Bool-cases (is_restricted w i)) [
    | inl r ↦ rw r refl
    | inr r ↦ rw r refl
  ]

  status_restricted_fields-hide_status :
      (i : ℕ) (o : Option CarStatusData)
      → status_restricted_fields (at (hide_status w s2) i o) (is_restricted w i)
        ≡ status_restricted_fields o (is_restricted w i)
  unfolding status_restricted_fields hide_status
  status_restricted_fields-hide_status i none = refl
  status_restricted_fields-hide_status i (some s) = elim (Bool-cases (is_restricted w i)) [
    | inl r ↦ rw r refl
    | inr r ↦ rw r refl
  ]

  entry_hidden :
      (t i u : ℕ) (r : Bool)
      → is_restricted w i ≡ r
      → (o : Option CarDamageData)
      → (if r then ok [] else elim (at (hide_damage w d2) i o) [
        | none ↦ raise index_error
        | some d ↦ ok ((meta w t u ++ damage_fields (some d)) ∷ [])
      ])
        ≡ (if r then ok [] else elim o [
          | none ↦ raise index_error
          | some d ↦ ok ((meta w t u ++ damage_fields (some d)) ∷ [])
        ])
  unfolding hide_damage
  entry_hidden t i u true e o = refl
  entry_hidden t i u false e none = refl
  entry_hidden t i u false e (some d) = rw e refl

  damage_row-hide_damage :
      (t i u : ℕ) (d : Option (List CarDamageData))
      → damage_row w t i u (update_all (hide_damage w d2) d) ≡ damage_row w t i u d
  unfolding damage_row
  damage_row-hide_damage t i u none = refl
  damage_row-hide_damage t i u (some d) =
      rw (update_from_zero (hide_damage w d2) d i)
        (entry_hidden t i u (is_restricted w i) refl (get_elem? d i))

  driver_rows-with_private_values :
      (t i u : ℕ) → driver_rows (with_private_values s2 d2 w) t i u ≡ driver_rows w t i u
  unfolding driver_rows with_private_values damage_row meta is_restricted
  driver_rows-with_private_values t i u = bind_cong (item w.frame.motion_data i) _ _ (λ motion.
      bind_cong (item (telemetry_data w.frame.telemetry_packet) i) _ _ (λ telemetry.
        bind_cong (item w.frame.lap_data_list i) _ _ (λ lap.
          bind-item (hide_status w s2) w.frame.car_status_data i _ _ (λ status.
            bind_cong (item w.frame.car_telemetry2_data i) _ _ (λ telemetry2.
              rw
                (
                  status_public_fields-hide_status i status,
                  status_restricted_fields-hide_status i status,
                  damage_row-hide_damage t i u w.frame.car_damage_data,
                )
                refl)))))

  for_driver : (ℕ → Result (List Row × List Row)) → Option ℕ → Result (List Row × List Row)
  for_driver f none = ok ([], [])
  for_driver f (some u) = f u

  for_driver_cong :
      (f g : ℕ → Result (List Row × List Row)) (o : Option ℕ)
      → ((u : ℕ) → f u ≡ g u)
      → for_driver f o ≡ for_driver g o
  unfolding for_driver
  for_driver_cong f g none h = refl
  for_driver_cong f g (some u) h = h u

  car_rows-with_private_values :
      (t i : ℕ) → car_rows (with_private_values s2 d2 w) t i ≡ car_rows w t i
  unfolding car_rows with_private_values for_driver
  car_rows-with_private_values t i =
      for_driver_cong (driver_rows (with_private_values s2 d2 w) t i) (driver_rows w t i)
        (Dict.lookup i w.user_map) (driver_rows-with_private_values t i)

  all_rows-with_private_values :
      (t n i : ℕ) → all_rows (with_private_values s2 d2 w) t n i ≡ all_rows w t n i
  unfolding all_rows
  all_rows-with_private_values t zero i = refl
  all_rows-with_private_values t (suc n) i =
      rw (car_rows-with_private_values t i, all_rows-with_private_values t n (suc i)) refl

-- Whatever values a frame holds for its restricted drivers in the fuel, ERS, brake bias and engine
-- power fields of their status and in their damage data, write_frame makes the same calls or raises
-- the same exception: none of these values reaches the database.
pub write_frame-with_private_values :
    (plus_seconds : ℕ → ℕ → Result ℕ) (damage_repo : Bool) (now : ℕ) (w : FrameWrite)
    (s2 : CarStatusData) (d2 : CarDamageData)
    → write_frame plus_seconds damage_repo now (with_private_values s2 d2 w)
      ≡ write_frame plus_seconds damage_repo now w
unfolding write_frame with_private_values
write_frame-with_private_values plus_seconds damage_repo now w s2 d2 =
    ap (λ r. if not w.race_started then ok [] else r)
      (bind_cong (timestamp plus_seconds w.session_start w.session_time now) _ _
        (λ t. rw (all_rows-with_private_values w s2 d2 t max_cars 0) refl))
