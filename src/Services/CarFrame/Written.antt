-- ===== src/Services/CarFrame/Written.antt =====
-- Whose rows write_frame hands to the database.
use formula1_app.Prelude.{
  ℕ, ◌+◌, ◌≡◌, refl, ◌∙◌, Bool, true, false, not, ◌&&◌, List, [], ◌∷◌, ◌++◌, arith, All,
  if◌then◌else◌, if_both, option_both, map, is_empty,
}
use mathlib.Core.List.{append-nil}
use formula1_app.Prelude.Eq.{nat_eq}
use formula1_app.Result.{Result, ok}
use formula1_app.Dict
use formula1_app.Dict.{Dict}
use formula1_app.Packets.Base.{max_cars}
use formula1_app.Dispatcher.State.{FrameWrite}
use formula1_app.Services.Rows.{Value, num, Row, timestamp}
use formula1_app.Services.Rows.Columns.{column_index?}
use formula1_app.Services.CarFrame.{
  Call, insert_frames, insert_damage, delete_frames_after, delete_damage_after, batches,
  write_frame, cell, is_null, position_of, gap_ahead_by_position, with_gap_behind, fill_each,
  fill_row, fill_gap_to_car_behind,
}
use formula1_app.Services.CarFrame.Drivers.{
  AllSized, drivers, is_out, shows_damage, user_ids, HasUser, Users, all_rows-Users,
}

-- The drivers of the rows that calls write.
unfoldable pub frame_users : List Call → List Value
frame_users [] = []
frame_users (insert_frames rows ∷ cs) = user_ids rows ++ frame_users cs
frame_users (insert_damage rows ∷ cs) = frame_users cs
frame_users (delete_frames_after _ _ _ ∷ cs) = frame_users cs
frame_users (delete_damage_after _ _ _ ∷ cs) = frame_users cs

unfoldable pub damage_users : List Call → List Value
damage_users [] = []
damage_users (insert_frames rows ∷ cs) = damage_users cs
damage_users (insert_damage rows ∷ cs) = user_ids rows ++ damage_users cs
damage_users (delete_frames_after _ _ _ ∷ cs) = damage_users cs
damage_users (delete_damage_after _ _ _ ∷ cs) = damage_users cs

-- The second pass keeps the drivers.
replaced-user_id :
    (v : Value) (row : Row) → HasUser row → cell (with_gap_behind v row) 2 ≡ cell row 2
unfolding cell with_gap_behind column_index?
replaced-user_id v [] h = ground arith
replaced-user_id v (a ∷ []) h = ground arith
replaced-user_id v (a ∷ b ∷ []) h = ground arith
replaced-user_id v (a ∷ b ∷ c ∷ row) h = refl

fill_row-user_id :
    (gaps : Dict ℕ Value) (row : Row) → HasUser row → cell (fill_row gaps row) 2 ≡ cell row 2
unfolding fill_row
fill_row-user_id gaps row h =
    option_both (λ r. cell r 2 ≡ cell row 2) (position_of row) refl
      (λ p.
        option_both (λ r. cell r 2 ≡ cell row 2) (Dict.lookup (p + 1) gaps) refl
          (λ v. if_both (λ r. cell r 2 ≡ cell row 2) (is_null v) refl (replaced-user_id v row h)))

fill_each-user_ids :
    (gaps : Dict ℕ Value) (rows : List Row)
    → All HasUser rows
    → user_ids (fill_each gaps rows) ≡ user_ids rows
unfolding fill_each user_ids
fill_each-user_ids gaps [] h = refl
fill_each-user_ids gaps (row ∷ rows) h =
    rw (fill_row-user_id gaps row h.0, fill_each-user_ids gaps rows h.1) refl

frame_users-damage :
    (c : Bool) (damage : List Row) → frame_users (if c then insert_damage damage ∷ [] else []) ≡ []
unfolding frame_users
frame_users-damage true damage = refl
frame_users-damage false damage = refl

frame_users-batches :
    (damage_repo : Bool) (rows damage : List Row)
    → All HasUser rows
    → frame_users (batches damage_repo (rows, damage)) ≡ user_ids rows
unfolding batches frame_users fill_gap_to_car_behind user_ids
frame_users-batches r [] damage h = frame_users-damage (not (is_empty damage) && r) damage
frame_users-batches r (row ∷ rows) damage h =
    rw (frame_users-damage (not (is_empty damage) && r) damage) (append-nil _)
    ∙ fill_each-user_ids (gap_ahead_by_position (row ∷ rows) []) (row ∷ rows) h

damage_users-batches :
    (rows damage : List Row) → damage_users (batches true (rows, damage)) ≡ user_ids damage
unfolding batches damage_users user_ids
damage_users-batches [] [] = refl
damage_users-batches [] (d ∷ ds) = append-nil _
damage_users-batches (row ∷ rows) [] = refl
damage_users-batches (row ∷ rows) (d ∷ ds) = append-nil _

started_if : {A : Type 0} (x y : A) (b : Bool) → b ≡ true → (if not b then x else y) ≡ y
started_if x y true h = refl
started_if x y false h = ground arith

-- With a damage repository, a frame of a running race whose packets each have an entry for all 24
-- cars or are missing, and whose timestamp can be computed, is written without an exception: its
-- frame rows are those of the mapped drivers who are not in the garage, in the order of the cars,
-- and its damage rows those of them whose damage is known and not restricted.
pub write_frame_drivers :
    (plus_seconds : ℕ → ℕ → Result ℕ) (now t : ℕ) (w : FrameWrite)
    → AllSized w.frame
    → w.race_started ≡ true
    → timestamp plus_seconds w.session_start w.session_time now ≡ ok t
    → (calls : List Call) × (write_frame plus_seconds true now w ≡ ok calls)
      × (frame_users calls ≡ map num (drivers (is_out w) w max_cars 0))
      × (damage_users calls ≡ map num (drivers (shows_damage w) w max_cars 0))
unfolding write_frame Users
write_frame_drivers plus_seconds now t w s started e =
    let (rows, damage, f, z, g, h) = all_rows-Users w t max_cars 0 s (omega arith) in
    (
      batches true (rows, damage),
      rw (e, f) (started_if (ok []) _ w.race_started started),
      frame_users-batches true rows damage z ∙ g,
      damage_users-batches rows damage ∙ h,
    )
