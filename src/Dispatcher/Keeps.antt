-- ===== src/Dispatcher/Keeps.antt =====
-- What the code of listener/dispatcher.py for one simulation tick keeps of the dispatcher.
use formula1_app.Prelude.{
  ℕ, suc, Bool, true, false, not, ◌&&◌, ◌||◌, Option, none, some, List, [], ◌∷◌, is_empty, ltb,
  ◌==◌, if_both, option_both,
}
use formula1_app.Prelude.Eq.{nat_eq, pair_eq}
use formula1_app.Result.{Result, ok, raise}
use formula1_app.Dict
use formula1_app.Bounded
use formula1_app.Action.{Action, continue, when}
use formula1_app.FrameBuffer.{Packets}
use formula1_app.Packets.Header.{PacketHeader}
use formula1_app.Packets.LapData.{LapData}
use formula1_app.Dispatcher.State.{State, Services, UserMap, FrameData, FrameWrite, Payload}
use formula1_app.Dispatcher.Frames.{
  mark_race_started, backstop, call, notify, notify_setup, notify_tyre_sets, check_lap,
  check_lap_completions, frame_write, write, complete_laps, write_parsed, flush_mapped, flush_frame,
  on_flush, or_zero, is_true, map_or_empty, below_one, has_frame, any_racing,
}

-- The action keeps `Q`, whether it raises or not.
abbrev pub Keeps : {S A : Type 0} → (S → Type 0) → Action S A → Type 0
Keeps {S} Q m = (s : S) → Q s → Q (m s).1

module _ {S : Type 0} (Q : S → Type 0) where
  pub continue_keeps :
      {A B : Type 0} (r : Result A × S) (f : A → Action S B)
      → Q r.1
      → ((a : A) (s : S) → Q s → Q (f a s).1)
      → Q (continue r f).1
  continue_keeps (ok a, s) f q h = h a s q
  continue_keeps (raise x, s) f q h = q

  pub when_keeps : (c : Bool) (m : Action S (Unit {0})) (s : S) → Q s → Q (m s).1 → Q (when c m s).1
  when_keeps true m s q h = h
  when_keeps false m s q h = q

-- What a predicate must allow: any work of the services, and the writes to two dictionaries.
pub record IsFrameStable {W : Type 0} (Q : State W → Type 0) : Type 0 where
  pub services : (d : State W) (w : W) → Q d → Q (record d { services = w })
  pub started :
      (d : State W) (uid : ℕ)
      → Q d
      → Q (record d { race_started = Bounded.set_item d.race_started uid true })
  pub laps :
      (d : State W) (k : ℕ × ℕ) (n : ℕ)
      → Q d
      → Q (record d { last_lap_nums = Bounded.set_item d.last_lap_nums k n })

module _ {W : Type 0} (Q : State W → Type 0) (stable : IsFrameStable Q) where
  pub mark_race_started_keeps : (uid : ℕ) (d : State W) → Q d → Q (mark_race_started uid d)
  unfolding mark_race_started
  mark_race_started_keeps uid d q =
      if_both Q (is_true (Bounded.get d.race_started uid)) q (stable.started d uid q)

  backstop_keeps :
      (uid : ℕ) (m : UserMap) (laps : Option (List LapData)) (d : State W)
      → Q d
      → Q (backstop uid m laps d)
  unfolding backstop
  backstop_keeps uid m none d q = q
  backstop_keeps uid m (some laps) d q =
      if_both Q (not (is_true (Bounded.get d.race_started uid)) && any_racing m 0 laps)
        (mark_race_started_keeps uid d q) q

  module _ (svc : Services W) where
    pub call-Keeps : {A : Type 0} (m : Action W A) → Keeps Q (call svc m)
    unfolding call
    call-Keeps m d q = stable.services d (m d.services).1 q

    pub notify-Keeps : (uid user_id i n : ℕ) → Keeps Q (notify svc uid user_id i n)
    unfolding notify notify_setup notify_tyre_sets
    notify-Keeps uid user_id i n d q =
        continue_keeps Q (notify_setup svc uid user_id n d)
          (λ _. notify_tyre_sets svc uid user_id i n)
          (option_both (λ (r : Result (Unit {0}) × State W). Q r.1)
            (svc.get_track_id uid d.services) q
            (λ t.
              when_keeps Q svc.has_car_setup (call svc (svc.on_setup_lap_complete uid user_id n t))
                d q (call-Keeps (svc.on_setup_lap_complete uid user_id n t) d q)))
          (λ _ s r.
            when_keeps Q svc.has_tyre_sets
              (call svc (svc.on_tyre_sets_lap_complete uid user_id i n)) s r
              (call-Keeps (svc.on_tyre_sets_lap_complete uid user_id i n) s r))

    pub check_lap-Keeps :
        (uid : ℕ) (m : UserMap) (i : ℕ) (lap : LapData) → Keeps Q (check_lap svc uid m i lap)
    unfolding check_lap
    check_lap-Keeps uid m i lap d q =
        option_both (λ (r : Result (Unit {0}) × State W). Q r.1) (Dict.lookup i m) q
          (λ user_id.
            if_both (λ (r : Result (Unit {0}) × State W). Q r.1)
              (not (lap.driver_status == 1 || lap.driver_status == 4)) q
              (continue_keeps Q _ _
                (when_keeps Q
                  (ltb (or_zero (Bounded.get d.last_lap_nums (uid, user_id))) lap.current_lap_num
                    && ltb 0 (or_zero (Bounded.get d.last_lap_nums (uid, user_id))))
                  _ _ q
                  (notify-Keeps uid user_id i (or_zero (Bounded.get d.last_lap_nums (uid, user_id)))
                    d q))
                (λ _ s r. stable.laps s (uid, user_id) lap.current_lap_num r)))

    check_lap_completions-Keeps :
        (uid : ℕ) (m : UserMap) (i : ℕ) (laps : List LapData)
        → Keeps Q (check_lap_completions svc uid m i laps)
    unfolding check_lap_completions
    check_lap_completions-Keeps uid m i [] d q = q
    check_lap_completions-Keeps uid m i (lap ∷ laps) d q =
        continue_keeps Q _ _ (check_lap-Keeps uid m i lap d q)
          (λ _ s r. check_lap_completions-Keeps uid m (suc i) laps s r)

    write-Keeps : (w : FrameWrite) → Keeps Q (write svc w)
    unfolding write
    write-Keeps w d q =
        when_keeps Q (has_frame w.frame) (call svc (svc.write_frame w)) d q
          (call-Keeps (svc.write_frame w) d q)

    complete_laps-Keeps :
        (uid : ℕ) (m : UserMap) (started : Bool) (laps : Option (List LapData))
        → Keeps Q (complete_laps svc uid m started laps)
    unfolding complete_laps
    complete_laps-Keeps uid m started none d q = q
    complete_laps-Keeps uid m started (some laps) d q =
        when_keeps Q (not (is_empty laps) && started) (check_lap_completions svc uid m 0 laps) d q
          (check_lap_completions-Keeps uid m 0 laps d q)

    write_parsed-Keeps :
        (uid i : ℕ) (m : UserMap) (h : PacketHeader) (f : FrameData)
        → Keeps Q (write_parsed svc uid i m h f)
    unfolding write_parsed
    write_parsed-Keeps uid i m h f d q =
        let d' = backstop uid m f.lap_data_list d in
        let w : FrameWrite = frame_write svc uid i m h f d' in
        continue_keeps Q (write svc w d')
          (λ _. complete_laps svc uid m w.race_started f.lap_data_list)
          (write-Keeps w d' (backstop_keeps uid m f.lap_data_list d q))
          (λ _ s r. complete_laps-Keeps uid m w.race_started f.lap_data_list s r)

    flush_mapped-Keeps :
        (uid i : ℕ) (m : UserMap) (ps : Packets Payload) → Keeps Q (flush_mapped svc uid i m ps)
    unfolding flush_mapped
    flush_mapped-Keeps uid i m [] d q = q
    flush_mapped-Keeps uid i m ((j, (h, body)) ∷ ps) d q =
        if_both (λ (r : Result (Unit {0}) × State W). Q r.1) (below_one h.session_time) q
          (continue_keeps Q _ _ q (λ f s r. write_parsed-Keeps uid i m h f s r))

    -- A flushed frame keeps every such predicate.
    pub on_flush_keeps :
        (uid i : ℕ) (ps : Packets Payload) (d : State W) → Q d → Q (on_flush svc uid i ps d)
    unfolding on_flush flush_frame
    on_flush_keeps uid i ps d q =
        if_both (λ (r : Result (Unit {0}) × State W). Q r.1)
          (is_empty (map_or_empty (Bounded.get d.user_maps uid))) q
          (flush_mapped-Keeps uid i (map_or_empty (Bounded.get d.user_maps uid)) ps d q)
