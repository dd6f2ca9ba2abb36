-- ===== src/Packets/CarDamage.antt =====
-- listener/packets/car_damage.py, packet 10.
use formula1_app.Prelude.{ℕ, Bool, String, List, [], ◌∷◌}
use formula1_app.Result.{Result, ok, raise, type_error}
use formula1_app.Struct.{Bytes}
use formula1_app.Packets.Base.{truthy, unpack_cars}

pub record CarDamageData : Type 0 where
  pub tyres_wear : List ℕ
  pub tyres_damage : List ℕ
  pub brakes_damage : List ℕ
  pub tyre_blisters : List ℕ
  pub front_left_wing_damage : ℕ
  pub front_right_wing_damage : ℕ
  pub rear_wing_damage : ℕ
  pub floor_damage : ℕ
  pub diffuser_damage : ℕ
  pub sidepod_damage : ℕ
  pub drs_fault : Bool
  pub ers_fault : Bool
  pub gearbox_damage : ℕ
  pub engine_damage : ℕ
  pub engine_mguh_wear : ℕ
  pub engine_es_wear : ℕ
  pub engine_ce_wear : ℕ
  pub engine_ice_wear : ℕ
  pub engine_mguk_wear : ℕ
  pub engine_tc_wear : ℕ
  pub engine_blown : Bool
  pub engine_seized : Bool

unfoldable pub car_damage_data_of : List ℕ → Result CarDamageData
car_damage_data_of
      (f0 ∷ f1 ∷ f2 ∷ f3 ∷ f4 ∷ f5 ∷ f6 ∷ f7 ∷ f8 ∷ f9 ∷ f10 ∷ f11 ∷ f12 ∷ f13 ∷ f14 ∷ f15 ∷ f16
        ∷ f17 ∷ f18 ∷ f19 ∷ f20 ∷ f21 ∷ f22 ∷ f23 ∷ f24 ∷ f25 ∷ f26 ∷ f27 ∷ f28 ∷ f29 ∷ f30 ∷ f31
        ∷ f32 ∷ f33 ∷ []) =
    ok (record {
      tyres_wear = f0 ∷ f1 ∷ f2 ∷ f3 ∷ [];
      tyres_damage = f4 ∷ f5 ∷ f6 ∷ f7 ∷ [];
      brakes_damage = f8 ∷ f9 ∷ f10 ∷ f11 ∷ [];
      tyre_blisters = f12 ∷ f13 ∷ f14 ∷ f15 ∷ [];
      front_left_wing_damage = f16;
      front_right_wing_damage = f17;
      rear_wing_damage = f18;
      floor_damage = f19;
      diffuser_damage = f20;
      sidepod_damage = f21;
      drs_fault = truthy f22;
      ers_fault = truthy f23;
      gearbox_damage = f24;
      engine_damage = f25;
      engine_mguh_wear = f26;
      engine_es_wear = f27;
      engine_ce_wear = f28;
      engine_ice_wear = f29;
      engine_mguk_wear = f30;
      engine_tc_wear = f31;
      engine_blown = truthy f32;
      engine_seized = truthy f33;
    })
car_damage_data_of _ = raise type_error

-- _CAR_DAMAGE_FORMAT
abbrev pub car_damage_format : String
car_damage_format = "<4f4B4B4B18B"

unfoldable pub unpack_car_damage : Bytes → Result (List CarDamageData)
unfolding car_damage_data_of
unpack_car_damage bytes = unpack_cars car_damage_data_of car_damage_format bytes
