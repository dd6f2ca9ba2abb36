-- ===== src/Services/LapHistory/Laps.antt =====
-- Which laps a Session History packet writes: those from the last lap of the packet before it on.
use mathlib.Core.List.{append-nil}
use formula1_app.Prelude.{
  ℕ, suc, ◌+◌, ◌-◌, ◌≤◌, ◌≡◌, refl, ◌&&◌, Option, none, some, List, [], ◌∷◌, ◌++◌, arith, length,
  take, drop, is_empty, get_elem?, get_elem?-cons, get_elem?-drop, get_elem?-take, length-take,
  length-drop, ltb, leb, ◌==◌, if◌then◌else◌,
}
use formula1_app.Prelude.Eq.{nat_eq, pair_eq}
use formula1_app.Bounded
use formula1_app.Bounded.Laws.{get-set_item}
use formula1_app.Packets.SessionHistory.{LapHistory, SessionHistoryPacket}
use formula1_app.Services.LapHistory.{
  LapRow, Call, upsert_laps_batch, upsert_bests, upsert_stints_batch, State, lap_row, lap_rows,
  or_zero, lap_batch, upsert_laps,
}

-- The row of a lap number in a batch.
unfoldable pub row_of : ℕ → List LapRow → Option LapRow
row_of n [] = none
row_of n (r ∷ rs) = if r.lap_num == n then some r else row_of n rs

-- The row of a lap that has a time.
unfoldable pub timed_row : ℕ → ℕ → ℕ → Option LapHistory → Option LapRow
timed_row session_uid user_id n none = none
timed_row session_uid user_id n (some l) =
    if l.lap_time_in_ms == 0 then none else some (lap_row session_uid user_id n l)

-- The rows of laps that calls write.
unfoldable pub written : List Call → List LapRow
written [] = []
written (upsert_laps_batch rows ∷ cs) = rows ++ written cs
written (upsert_bests _ _ _ ∷ cs) = written cs
written (upsert_stints_batch _ ∷ cs) = written cs

written-batch :
    (rows : List LapRow)
    → written (if is_empty rows then [] else upsert_laps_batch rows ∷ []) ≡ rows
unfolding written
written-batch [] = refl
written-batch (r ∷ rs) = append-nil (r ∷ rs)

module _ (session_uid user_id : ℕ) where
  lap_num-lap_row : (n : ℕ) (l : LapHistory) → (lap_row session_uid user_id n l).lap_num ≡ n
  unfolding lap_row
  lap_num-lap_row n l = refl

  row_of-lap_rows :
      (n k : ℕ) (ls : List LapHistory)
      → row_of n (lap_rows session_uid user_id k ls)
        ≡ (if leb k n then timed_row session_uid user_id n (get_elem? ls (n - k)) else none)
  unfolding row_of lap_rows timed_row
  row_of-lap_rows n k [] = ground arith
  row_of-lap_rows n k (l ∷ ls) = ground (
    arith,
    row_of-lap_rows n (suc k) ls,
    get_elem?-cons l ls (n - k),
    lap_num-lap_row k l,
    lap_num-lap_row n l,
  )

  -- The batch of a session history packet holds the row of a lap exactly when the lap has a time,
  -- is among the packet's laps, and is not before the last lap of the packet before.
  pub row_of-lap_batch :
      (last_num_laps i : ℕ) (p : SessionHistoryPacket)
      → row_of (suc i) (lap_batch session_uid user_id last_num_laps p) ≡ (
          if leb last_num_laps (suc i) && ltb i p.num_laps
          then timed_row session_uid user_id (suc i) (get_elem? p.lap_history_list i)
          else none)
  unfolding lap_batch
  row_of-lap_batch last i p =
      let s = last - 1 in
      let laps = take p.num_laps p.lap_history_list in
      ground (
        arith,
        row_of-lap_rows (suc i) (s + 1) (drop s laps),
        get_elem?-drop s laps (i - s),
        get_elem?-take p.num_laps p.lap_history_list i,
        timed_none,
      )
    where
      timed_none : timed_row session_uid user_id (suc i) none ≡ none
      timed_none = unfold timed_row in refl

  length-lap_rows :
      (k : ℕ) (ls : List LapHistory) → length (lap_rows session_uid user_id k ls) ≤ length ls
  unfolding lap_rows
  length-lap_rows k [] = omega arith
  length-lap_rows k (l ∷ ls) = ground (arith, length-lap_rows (suc k) ls)

  -- The number of laps is remembered for the driver.
  pub last_num_laps-upsert_laps :
      (p : SessionHistoryPacket) (st : State)
      → Bounded.IsValid st.last_num_laps
      → Bounded.get (upsert_laps session_uid user_id p st).0.last_num_laps (session_uid, user_id)
        ≡ some p.num_laps
  unfolding upsert_laps
  last_num_laps-upsert_laps p st h =
      let key : ℕ × ℕ = (session_uid, user_id) in
      ground (arith, get-set_item st.last_num_laps key key p.num_laps h)

  written-upsert_laps :
      (p : SessionHistoryPacket) (st : State)
      → written (upsert_laps session_uid user_id p st).1
        ≡ lap_batch session_uid user_id
            (or_zero (Bounded.get st.last_num_laps (session_uid, user_id)))
            p
  unfolding upsert_laps
  written-upsert_laps p st = written-batch _

  -- With valid counts of laps, after one session history packet of a driver the next one writes
  -- each timed lap from the first packet's last lap on: no lap is lost between them and no older
  -- lap is written again.
  pub upsert_laps-upsert_laps :
      (p q : SessionHistoryPacket) (st : State) (i : ℕ)
      → Bounded.IsValid st.last_num_laps
      → row_of
          (suc i)
          (written (upsert_laps session_uid user_id q (upsert_laps session_uid user_id p st).0).1)
        ≡ (if leb p.num_laps (suc i) && ltb i q.num_laps
            then timed_row session_uid user_id (suc i) (get_elem? q.lap_history_list i)
            else none)
  upsert_laps-upsert_laps p q st i h =
      rw
        (
          written-upsert_laps q (upsert_laps session_uid user_id p st).0,
          last_num_laps-upsert_laps p st h,
        )
        (row_of-lap_batch p.num_laps i q)

  length-lap_batch_self :
      (p : SessionHistoryPacket) → length (lap_batch session_uid user_id p.num_laps p) ≤ 1
  unfolding lap_batch
  length-lap_batch_self p =
      let s = p.num_laps - 1 in
      let laps = take p.num_laps p.lap_history_list in
      omega (
        arith,
        length-lap_rows (s + 1) (drop s laps),
        length-drop s laps,
        length-take p.num_laps p.lap_history_list,
      )

  -- With valid counts of laps, repeating a session history packet writes at most one lap row.
  pub upsert_laps_again :
      (p : SessionHistoryPacket) (st : State)
      → Bounded.IsValid st.last_num_laps
      → length
          (written (upsert_laps session_uid user_id p (upsert_laps session_uid user_id p st).0).1)
        ≤ 1
  upsert_laps_again p st h =
      rw
        (
          written-upsert_laps p (upsert_laps session_uid user_id p st).0,
          last_num_laps-upsert_laps p st h,
        )
        (length-lap_batch_self p)
