-- ===== src/Packets/Motion.antt =====
-- listener/packets/motion.py, packet 0.
use formula1_app.Prelude.{ℕ, String, List, [], ◌∷◌}
use formula1_app.Result.{Result, ok, raise, type_error}
use formula1_app.Struct.{Bytes}
use formula1_app.Packets.Base.{unpack_cars}

-- A float quotient, kept as the two's complement of the divided int16 and the divisor.
pub data Quotient : Type 0 where
  divided : ℕ → ℕ → Quotient

abbrev pub norm_divisor : ℕ
norm_divisor = 32767

abbrev pub g_force_divisor : ℕ
g_force_divisor = 1000

pub record CarMotionData : Type 0 where
  pub world_position_x : ℕ
  pub world_position_y : ℕ
  pub world_position_z : ℕ
  pub world_velocity_x : ℕ
  pub world_velocity_y : ℕ
  pub world_velocity_z : ℕ
  pub world_forward_dir_x : Quotient
  pub world_forward_dir_y : Quotient
  pub world_forward_dir_z : Quotient
  pub world_right_dir_x : Quotient
  pub world_right_dir_y : Quotient
  pub world_right_dir_z : Quotient
  pub g_force_lateral : Quotient
  pub g_force_longitudinal : Quotient
  pub g_force_vertical : Quotient
  pub yaw : ℕ
  pub pitch : ℕ
  pub roll : ℕ

unfoldable pub car_motion_data_of : List ℕ → Result CarMotionData
car_motion_data_of
      (world_position_x ∷ world_position_y ∷ world_position_z ∷ world_velocity_x ∷ world_velocity_y
        ∷ world_velocity_z ∷ world_forward_dir_x ∷ world_forward_dir_y ∷ world_forward_dir_z
        ∷ world_right_dir_x ∷ world_right_dir_y ∷ world_right_dir_z ∷ g_force_lateral
        ∷ g_force_longitudinal ∷ g_force_vertical ∷ yaw ∷ pitch ∷ roll ∷ []) =
    ok (record {
      world_position_x = world_position_x;
      world_position_y = world_position_y;
      world_position_z = world_position_z;
      world_velocity_x = world_velocity_x;
      world_velocity_y = world_velocity_y;
      world_velocity_z = world_velocity_z;
      world_forward_dir_x = divided world_forward_dir_x norm_divisor;
      world_forward_dir_y = divided world_forward_dir_y norm_divisor;
      world_forward_dir_z = divided world_forward_dir_z norm_divisor;
      world_right_dir_x = divided world_right_dir_x norm_divisor;
      world_right_dir_y = divided world_right_dir_y norm_divisor;
      world_right_dir_z = divided world_right_dir_z norm_divisor;
      g_force_lateral = divided g_force_lateral g_force_divisor;
      g_force_longitudinal = divided g_force_longitudinal g_force_divisor;
      g_force_vertical = divided g_force_vertical g_force_divisor;
      yaw = yaw;
      pitch = pitch;
      roll = roll;
    })
car_motion_data_of _ = raise type_error

-- _CAR_MOTION_FORMAT
abbrev pub car_motion_format : String
car_motion_format = "<6f6h3h3f"

unfoldable pub unpack_motion : Bytes → Result (List CarMotionData)
unfolding car_motion_data_of
unpack_motion bytes = unpack_cars car_motion_data_of car_motion_format bytes
