-- ===== src/Packets/CarStatus.antt =====
-- listener/packets/car_status.py, packet 7.
use formula1_app.Prelude.{ℕ, String, List, [], ◌∷◌}
use formula1_app.Result.{Result, ok, raise, type_error}
use formula1_app.Struct.{Bytes}
use formula1_app.Packets.Base.{unpack_cars}

pub record CarStatusData : Type 0 where
  pub pit_limiter : ℕ
  pub drs_allowed : ℕ
  pub drs_activation_distance : ℕ
  pub actual_tyre_compound : ℕ
  pub visual_tyre_compound : ℕ
  pub tyres_age_laps : ℕ
  pub vehicle_fia_flags : ℕ
  pub network_paused : ℕ
  pub traction_control : ℕ
  pub anti_lock_brakes : ℕ
  pub max_rpm : ℕ
  pub idle_rpm : ℕ
  pub max_gears : ℕ
  pub front_brake_bias : ℕ
  pub fuel_mix : ℕ
  pub fuel_in_tank : ℕ
  pub fuel_capacity : ℕ
  pub fuel_remaining_laps : ℕ
  pub ers_store_energy : ℕ
  pub ers_deploy_mode : ℕ
  pub ers_deployed_this_lap : ℕ
  pub ers_harvest_limit_per_lap : ℕ
  pub ers_harvested_this_lap_mguk : ℕ
  pub ers_harvested_this_lap_mguh : ℕ
  pub engine_power_ice : ℕ
  pub engine_power_mguk : ℕ

unfoldable pub car_status_data_of : List ℕ → Result CarStatusData
car_status_data_of
      (f0 ∷ f1 ∷ f2 ∷ f3 ∷ f4 ∷ f5 ∷ f6 ∷ f7 ∷ f8 ∷ f9 ∷ f10 ∷ f11 ∷ f12 ∷ f13 ∷ f14 ∷ f15 ∷ f16
        ∷ f17 ∷ f18 ∷ f19 ∷ f20 ∷ f21 ∷ f22 ∷ f23 ∷ f24 ∷ f25 ∷ []) =
    ok (record {
      pit_limiter = f4;
      drs_allowed = f11;
      drs_activation_distance = f12;
      actual_tyre_compound = f13;
      visual_tyre_compound = f14;
      tyres_age_laps = f15;
      vehicle_fia_flags = f16;
      network_paused = f25;
      traction_control = f0;
      anti_lock_brakes = f1;
      max_rpm = f8;
      idle_rpm = f9;
      max_gears = f10;
      front_brake_bias = f3;
      fuel_mix = f2;
      fuel_in_tank = f5;
      fuel_capacity = f6;
      fuel_remaining_laps = f7;
      ers_store_energy = f19;
      ers_deploy_mode = f20;
      ers_deployed_this_lap = f24;
      ers_harvest_limit_per_lap = f23;
      ers_harvested_this_lap_mguk = f21;
      ers_harvested_this_lap_mguh = f22;
      engine_power_ice = f17;
      engine_power_mguk = f18;
    })
car_status_data_of _ = raise type_error

-- _CAR_STATUS_FORMAT
abbrev pub car_status_format : String
car_status_format = "<5B3f2H2BH3Bb3fB4fB"

unfoldable pub unpack_car_status : Bytes → Result (List CarStatusData)
unfolding car_status_data_of
unpack_car_status bytes = unpack_cars car_status_data_of car_status_format bytes
