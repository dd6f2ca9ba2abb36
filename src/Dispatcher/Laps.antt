-- ===== src/Dispatcher/Laps.antt =====
-- listener/dispatcher.py, `_check_lap_completions`: what two checks of a driver report.
use formula1_app.Prelude.{ℕ, ◌≡◌, refl, Bool, false, ◌&&◌, ◌||◌, some, ltb, ◌==◌}
use formula1_app.Prelude.Eq.{nat_eq, pair_eq}
use formula1_app.Result.{Result, ok}
use formula1_app.Dict
use formula1_app.Bounded
use formula1_app.Packets.LapData.{LapData}
use formula1_app.Dispatcher.State.{State, Services, UserMap}
use formula1_app.Dispatcher.Frames.{or_zero, check_lap}

module _ {W : Type 0} (svc : Services W) where
  abbrev LapsValid : State W → Type 0
  LapsValid d = Bounded.IsValid d.last_lap_nums

  abbrev is_driving : LapData → Bool
  is_driving lap = lap.driver_status == 1 || lap.driver_status == 4

  abbrev set_last : ℕ → ℕ → LapData → State W → State W
  set_last uid user_id lap d = record d {
    last_lap_nums = Bounded.set_item d.last_lap_nums (uid, user_id) lap.current_lap_num;
  }

  -- The last lap has a number, and the car is on a later one.
  abbrev completes : ℕ → LapData → Bool
  completes last lap = ltb last lap.current_lap_num && ltb 0 last

  module _ (uid user_id i : ℕ) (m : UserMap) (lap : LapData)
      (e : Dict.lookup i m ≡ some user_id) where
    abbrev last_lap : State W → ℕ
    last_lap d = or_zero (Bounded.get d.last_lap_nums (uid, user_id))

    check_lap-idle :
        (d : State W) → is_driving lap ≡ false → check_lap svc uid m i lap d ≡ (ok tt, d)
    unfolding check_lap
    check_lap-idle d n = rw (e, n, check_lap) refl
