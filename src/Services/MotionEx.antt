-- ===== src/Services/MotionEx.antt =====
-- listener/services/motion_ex.py: one row of extended motion data for the player's car. The
-- repository swallows every database error.
use formula1_app.Prelude.{ℕ, String, Option, none, some, List, [], ◌∷◌, ◌++◌, map}
use formula1_app.Prelude.Eq.{nat_eq}
use formula1_app.Result.{Result, ok, ◌>>=◌}
use formula1_app.Dict
use formula1_app.Dict.{Dict}
use formula1_app.Packets.Header.{PacketHeader}
use formula1_app.Packets.MotionEx.{MotionExData}
use formula1_app.Services.Rows.{Row, num, uid, time, timestamp}

-- CAR_FRAME_MOTION_EX_COLUMNS, the prefixes expanded by `_per_wheel`.
abbrev pub car_frame_motion_ex_columns : List String
car_frame_motion_ex_columns =
    "timestamp" ∷ "session_uid" ∷ "user_id" ∷ "session_time" ∷ "overall_frame_identifier"
    ∷ "suspension_position_rl" ∷ "suspension_position_rr" ∷ "suspension_position_fl"
    ∷ "suspension_position_fr" ∷ "suspension_velocity_rl" ∷ "suspension_velocity_rr"
    ∷ "suspension_velocity_fl" ∷ "suspension_velocity_fr" ∷ "suspension_acceleration_rl"
    ∷ "suspension_acceleration_rr" ∷ "suspension_acceleration_fl" ∷ "suspension_acceleration_fr"
    ∷ "wheel_speed_rl" ∷ "wheel_speed_rr" ∷ "wheel_speed_fl" ∷ "wheel_speed_fr"
    ∷ "wheel_slip_ratio_rl" ∷ "wheel_slip_ratio_rr" ∷ "wheel_slip_ratio_fl" ∷ "wheel_slip_ratio_fr"
    ∷ "wheel_slip_angle_rl" ∷ "wheel_slip_angle_rr" ∷ "wheel_slip_angle_fl" ∷ "wheel_slip_angle_fr"
    ∷ "wheel_lat_force_rl" ∷ "wheel_lat_force_rr" ∷ "wheel_lat_force_fl" ∷ "wheel_lat_force_fr"
    ∷ "wheel_long_force_rl" ∷ "wheel_long_force_rr" ∷ "wheel_long_force_fl" ∷ "wheel_long_force_fr"
    ∷ "wheel_vert_force_rl" ∷ "wheel_vert_force_rr" ∷ "wheel_vert_force_fl" ∷ "wheel_vert_force_fr"
    ∷ "wheel_camber_rl" ∷ "wheel_camber_rr" ∷ "wheel_camber_fl" ∷ "wheel_camber_fr"
    ∷ "wheel_camber_gain_rl" ∷ "wheel_camber_gain_rr" ∷ "wheel_camber_gain_fl"
    ∷ "wheel_camber_gain_fr" ∷ "height_of_cog_above_ground" ∷ "local_velocity_x"
    ∷ "local_velocity_y" ∷ "local_velocity_z" ∷ "angular_velocity_x" ∷ "angular_velocity_y"
    ∷ "angular_velocity_z" ∷ "angular_acceleration_x" ∷ "angular_acceleration_y"
    ∷ "angular_acceleration_z" ∷ "front_wheels_angle" ∷ "front_aero_height" ∷ "rear_aero_height"
    ∷ "front_roll_angle" ∷ "rear_roll_angle" ∷ "chassis_yaw" ∷ "chassis_pitch" ∷ []

unfoldable pub motion_ex_row : PacketHeader → ℕ → ℕ → MotionExData → Row
motion_ex_row h timestamp user_id m =
    (time timestamp
      ∷ uid h.session_uid
      ∷ num user_id
      ∷ num h.session_time
      ∷ num h.overall_frame_identifier
      ∷ [])
    ++ map num m.suspension_position
    ++ map num m.suspension_velocity
    ++ map num m.suspension_acceleration
    ++ map num m.wheel_speed
    ++ map num m.wheel_slip_ratio
    ++ map num m.wheel_slip_angle
    ++ map num m.wheel_lat_force
    ++ map num m.wheel_long_force
    ++ map num m.wheel_vert_force
    ++ map num m.wheel_camber
    ++ map num m.wheel_camber_gain
    ++ (num m.height_of_cog_above_ground
        ∷ num m.local_velocity_x
        ∷ num m.local_velocity_y
        ∷ num m.local_velocity_z
        ∷ num m.angular_velocity_x
        ∷ num m.angular_velocity_y
        ∷ num m.angular_velocity_z
        ∷ num m.angular_acceleration_x
        ∷ num m.angular_acceleration_y
        ∷ num m.angular_acceleration_z
        ∷ num m.front_wheels_angle
        ∷ num m.front_aero_height
        ∷ num m.rear_aero_height
        ∷ num m.front_roll_angle
        ∷ num m.rear_roll_angle
        ∷ num m.chassis_yaw
        ∷ num m.chassis_pitch
        ∷ [])

module _ (plus_seconds : ℕ → ℕ → Result ℕ) where
  -- `write_motion_ex`, at the time `now`: the row of `insert`, if it is called.
  unfoldable pub write_motion_ex :
      ℕ → PacketHeader → MotionExData → Dict ℕ ℕ → Option ℕ → Result (Option Row)
  write_motion_ex now h m user_map session_start = elim (Dict.lookup h.player_car_index user_map) [
    | none ↦ ok none
    | some user_id ↦ timestamp plus_seconds session_start h.session_time now >>= λ t.
        ok (some (motion_ex_row h t user_id m))
  ]
