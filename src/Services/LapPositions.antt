-- ===== src/Services/LapPositions.antt =====
-- listener/services/lap_positions.py: the game's grid of positions by car becomes, for each lap, the
-- drivers in the order of their positions. The repository swallows database errors, and the service
-- what is left of them, so a call has no result; an IndexError ends the loop after the calls made.
pub mod Grid
use formula1_app.Prelude.{
  ℕ, zero, suc, ◌+◌, ◌-◌, ◌<◌, ◌≤◌, ◌≡◌, refl, Bool, true, false, Option, none, some, List, [], ◌∷◌,
  length, set, replicate, ltb, ◌==◌, if◌then◌else◌, arith, get_elem?, All,
}
use formula1_app.Prelude.Eq.{nat_eq}
use formula1_app.Result.{Result, ok, raise, ◌>>=◌, index_error}
use formula1_app.Dict
use formula1_app.Dict.{Dict}
use formula1_app.Packets.Base.{max_cars}
use formula1_app.Packets.LapPositions.{LapPositionsPacket}

-- A call of `upsert_lap_positions`: the session, the lap and the drivers.
pub data Call : Type 0 where
  upsert_lap_positions : ℕ → ℕ → List ℕ → Call

-- `positions_array[i] = user_id`
unfoldable pub assign : ℕ → ℕ → List ℕ → Result (List ℕ)
assign i user_id positions =
    if ltb i (length positions) then ok (set positions i user_id) else raise index_error

-- The loop over the cars, from `car_index` on, for the number of cars that are left.
unfoldable pub place : ℕ → ℕ → Dict ℕ ℕ → List ℕ → List ℕ → Result (List ℕ)
unfolding assign
place zero car_index user_map row positions = ok positions
place (suc n) car_index user_map [] positions = raise index_error
place (suc n) car_index user_map (p ∷ row) positions =
    let skipped = place n (suc car_index) user_map row positions in
    if p == 0 then skipped else elim (Dict.lookup car_index user_map) [
      | none ↦ skipped
      | some user_id ↦ assign (p - 1) user_id positions >>= λ positions'.
          place n (suc car_index) user_map row positions'
    ]

-- `while positions_array and positions_array[-1] == 0: positions_array.pop()`
unfoldable pub trim : List ℕ → List ℕ
trim [] = []
trim (x ∷ xs) =
    let rest = trim xs in elim rest [ [] ↦ (if x == 0 then [] else x ∷ []) | (y ∷ ys) ↦ x ∷ y ∷ ys ]

-- The loop over the laps, from `lap_index` on.
unfoldable pub write_laps : ℕ → Dict ℕ ℕ → ℕ → ℕ → ℕ → List (List ℕ) → Result (Unit {0}) × List Call
unfolding place trim
write_laps session_uid user_map lap_start lap_index zero rows = (ok tt, [])
write_laps session_uid user_map lap_start lap_index (suc n) [] = (raise index_error, [])
write_laps session_uid user_map lap_start lap_index (suc n) (row ∷ rows) =
    let (r, calls) = write_laps session_uid user_map lap_start (suc lap_index) n rows in
    elim (place max_cars 0 user_map row (replicate max_cars 0)) [
      | raise x ↦ (raise x, [])
      | ok positions ↦
          (r, upsert_lap_positions session_uid (lap_start + lap_index + 1) (trim positions) ∷ calls)
    ]

-- `handle_lap_positions_packet`
unfoldable pub handle_lap_positions_packet :
    ℕ → LapPositionsPacket → Dict ℕ ℕ → Result (Unit {0}) × List Call
unfolding write_laps
handle_lap_positions_packet session_uid p user_map =
    write_laps session_uid user_map p.lap_start 0 p.num_laps p.positions
