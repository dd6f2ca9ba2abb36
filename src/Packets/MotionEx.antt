-- ===== src/Packets/MotionEx.antt =====
-- listener/packets/motion_ex.py, packet 13.
use formula1_app.Prelude.{ℕ, List, [], ◌∷◌, take}
use formula1_app.Result.{Result, ok, raise, ◌>>=◌, type_error}
use formula1_app.Struct.{Bytes, calcsize, unpack}

pub record MotionExData : Type 0 where
  pub suspension_position : List ℕ
  pub suspension_velocity : List ℕ
  pub suspension_acceleration : List ℕ
  pub wheel_speed : List ℕ
  pub wheel_slip_ratio : List ℕ
  pub wheel_slip_angle : List ℕ
  pub wheel_lat_force : List ℕ
  pub wheel_long_force : List ℕ
  pub height_of_cog_above_ground : ℕ
  pub local_velocity_x : ℕ
  pub local_velocity_y : ℕ
  pub local_velocity_z : ℕ
  pub angular_velocity_x : ℕ
  pub angular_velocity_y : ℕ
  pub angular_velocity_z : ℕ
  pub angular_acceleration_x : ℕ
  pub angular_acceleration_y : ℕ
  pub angular_acceleration_z : ℕ
  pub front_wheels_angle : ℕ
  pub wheel_vert_force : List ℕ
  pub front_aero_height : ℕ
  pub rear_aero_height : ℕ
  pub front_roll_angle : ℕ
  pub rear_roll_angle : ℕ
  pub chassis_yaw : ℕ
  pub chassis_pitch : ℕ
  pub wheel_camber : List ℕ
  pub wheel_camber_gain : List ℕ

unfoldable pub motion_ex_of : List ℕ → Result MotionExData
motion_ex_of
      (f0 ∷ f1 ∷ f2 ∷ f3 ∷ f4 ∷ f5 ∷ f6 ∷ f7 ∷ f8 ∷ f9 ∷ f10 ∷ f11 ∷ f12 ∷ f13 ∷ f14 ∷ f15 ∷ f16
        ∷ f17 ∷ f18 ∷ f19 ∷ f20 ∷ f21 ∷ f22 ∷ f23 ∷ f24 ∷ f25 ∷ f26 ∷ f27 ∷ f28 ∷ f29 ∷ f30 ∷ f31
        ∷ f32 ∷ f33 ∷ f34 ∷ f35 ∷ f36 ∷ f37 ∷ f38 ∷ f39 ∷ f40 ∷ f41 ∷ f42 ∷ f43 ∷ f44 ∷ f45 ∷ f46
        ∷ f47 ∷ f48 ∷ f49 ∷ f50 ∷ f51 ∷ f52 ∷ f53 ∷ f54 ∷ f55 ∷ f56 ∷ f57 ∷ f58 ∷ f59 ∷ f60 ∷ []) =
    ok (record {
      suspension_position = f0 ∷ f1 ∷ f2 ∷ f3 ∷ [];
      suspension_velocity = f4 ∷ f5 ∷ f6 ∷ f7 ∷ [];
      suspension_acceleration = f8 ∷ f9 ∷ f10 ∷ f11 ∷ [];
      wheel_speed = f12 ∷ f13 ∷ f14 ∷ f15 ∷ [];
      wheel_slip_ratio = f16 ∷ f17 ∷ f18 ∷ f19 ∷ [];
      wheel_slip_angle = f20 ∷ f21 ∷ f22 ∷ f23 ∷ [];
      wheel_lat_force = f24 ∷ f25 ∷ f26 ∷ f27 ∷ [];
      wheel_long_force = f28 ∷ f29 ∷ f30 ∷ f31 ∷ [];
      height_of_cog_above_ground = f32;
      local_velocity_x = f33;
      local_velocity_y = f34;
      local_velocity_z = f35;
      angular_velocity_x = f36;
      angular_velocity_y = f37;
      angular_velocity_z = f38;
      angular_acceleration_x = f39;
      angular_acceleration_y = f40;
      angular_acceleration_z = f41;
      front_wheels_angle = f42;
      wheel_vert_force = f43 ∷ f44 ∷ f45 ∷ f46 ∷ [];
      front_aero_height = f47;
      rear_aero_height = f48;
      front_roll_angle = f49;
      rear_roll_angle = f50;
      chassis_yaw = f51;
      chassis_pitch = f52;
      wheel_camber = f53 ∷ f54 ∷ f55 ∷ f56 ∷ [];
      wheel_camber_gain = f57 ∷ f58 ∷ f59 ∷ f60 ∷ [];
    })
motion_ex_of _ = raise type_error

-- `struct.unpack_from(_MOTION_EX_FORMAT, data, 0)` reads the first bytes and ignores what follows.
unfoldable pub unpack_motion_ex : Bytes → Result MotionExData
unfolding motion_ex_of
unpack_motion_ex bytes = do
  size ← calcsize "<61f"
  values ← unpack "<61f" (take size bytes)
  motion_ex_of values
