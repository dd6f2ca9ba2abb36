-- ===== src/Dispatcher/HandlersValid.antt =====
-- The handlers of listener/dispatcher.py for the single packets keep its sets and dictionaries valid.
use formula1_app.Prelude.{ℕ, List, if_both, option_both}
use formula1_app.Prelude.Eq.{nat_eq, pair_eq, list_eq}
use formula1_app.Result.{Result, ok, raise}
use formula1_app.Bounded
use formula1_app.Bounded.{BoundedDict}
use formula1_app.Struct.{Bytes}
use formula1_app.Action.{Action, continue, lift, modify}
use formula1_app.Packets.Header.{PacketHeader}
use formula1_app.Packets.Session.{SessionPacket, unpack_session}
use formula1_app.Packets.Participants.{unpack_participants}
use formula1_app.Packets.FinalClassification.{unpack_final_classification}
use formula1_app.Packets.SessionHistory.{SessionHistoryPacket, unpack_session_history}
use formula1_app.Packets.LapPositions.{unpack_lap_positions}
use formula1_app.Dispatcher.State.{State, Services, UserMap, Dispatcher, IsValid}
use formula1_app.Dispatcher.Frames.{call}
use formula1_app.Dispatcher.Routes.{
  is_excluded_type, is_race_type, start_if_new, take_map, receive_classification, take_session,
  take_stints, handle_session, handle_participants, handle_final_classification,
  handle_session_history, handle_lap_positions,
}
use formula1_app.Dispatcher.Keeps.{continue_keeps, when_keeps, call-Keeps}
use formula1_app.Dispatcher.Valid.{
  stable, Valid, add_known, add_excluded, start_if_new_Valid, take_map_Valid,
  receive_classification_Valid,
}

module _ {W : Type 0} (svc : Services W) where
  abbrev pub Ok : State W → Type 0
  Ok d = IsValid d

  -- A result whose state is valid, of the dispatcher's attributes and of all of it.
  abbrev pub After : {A : Type 0} → Result A × State W → Type 0
  After r = IsValid r.1

  abbrev pub AfterAll : {A : Type 0} → Result A × Dispatcher W → Type 0
  AfterAll r = Valid r.1

  pub call_Safe : {A : Type 0} (m : Action W A) (d : State W) → IsValid d → After (call svc m d)
  call_Safe m = call-Keeps Ok stable svc m

  take_session_Safe :
      (uid : ℕ) (h : PacketHeader) (p : SessionPacket) (d : State W)
      → IsValid d
      → After (take_session svc uid h p d)
  unfolding take_session
  take_session_Safe uid h p d v =
      let known : State W = record d { known_sessions = Bounded.add d.known_sessions uid } in
      if_both After (is_excluded_type p.session_type) (add_excluded d uid v) (
        continue_keeps Ok (call svc (svc.handle_session_packet h p) known)
          (λ _. modify (start_if_new uid p.session_type))
          (call_Safe (svc.handle_session_packet h p) known (add_known d uid v))
          (λ _ s w. start_if_new_Valid uid p.session_type s w))

  pub handle_session_Safe :
      (uid : ℕ) (h : PacketHeader) (body : Bytes) (d : State W)
      → IsValid d
      → After (handle_session svc uid h body d)
  unfolding handle_session
  handle_session_Safe uid h body d v =
      continue_keeps Ok (lift (unpack_session body) d) (take_session svc uid h) v
        (take_session_Safe uid h)

  pub handle_participants_Safe :
      (decode_utf8 : Bytes → Result (List ℕ)) (uid : ℕ) (h : PacketHeader) (body : Bytes)
      (d : State W)
      → IsValid d
      → After (handle_participants svc decode_utf8 uid h body d)
  unfolding handle_participants
  handle_participants_Safe decode_utf8 uid h body d v =
      continue_keeps Ok (lift (unpack_participants decode_utf8 body) d) _ v (λ p s w.
        continue_keeps Ok (call svc (svc.handle_participants_packet h p) s)
          (λ m. modify (take_map uid m)) (call_Safe (svc.handle_participants_packet h p) s w)
          (λ m s' w'. take_map_Valid uid m s' w'))

  pub handle_final_classification_Safe :
      (uid : ℕ) (m : UserMap) (h : PacketHeader) (body : Bytes) (d : State W)
      → IsValid d
      → After (handle_final_classification svc uid m h body d)
  unfolding handle_final_classification
  handle_final_classification_Safe uid m h body d v =
      continue_keeps Ok (lift (unpack_final_classification body) d) _ v (λ p s w.
        continue_keeps Ok (call svc (svc.handle_final_classification_packet h p m) s)
          (λ _. modify (receive_classification uid))
          (call_Safe (svc.handle_final_classification_packet h p m) s w)
          (λ _ s' w'. receive_classification_Valid uid s' w'))

  take_stints_Safe :
      (uid : ℕ) (m : UserMap) (h : PacketHeader) (p : SessionHistoryPacket) (d : State W)
      → IsValid d
      → After (take_stints svc uid m h p d)
  unfolding take_stints
  take_stints_Safe uid m h p d v =
      when_keeps Ok (Bounded.has d.classification_received uid)
        (call svc (svc.handle_tyre_stints h p m)) d v (call_Safe (svc.handle_tyre_stints h p m) d v)

  pub handle_session_history_Safe :
      (uid : ℕ) (m : UserMap) (h : PacketHeader) (body : Bytes) (d : State W)
      → IsValid d
      → After (handle_session_history svc uid m h body d)
  unfolding handle_session_history
  handle_session_history_Safe uid m h body d v =
      continue_keeps Ok (lift (unpack_session_history body) d) _ v (λ p s w.
        continue_keeps Ok (call svc (svc.handle_session_history_packet h p m) s)
          (λ _. take_stints svc uid m h p) (call_Safe (svc.handle_session_history_packet h p m) s w)
          (λ _ s' w'. take_stints_Safe uid m h p s' w'))

  -- A parsed packet that goes to one service.
  pub serve_Safe :
      {A : Type 0} (r : Result A) (f : A → Action W (Unit {0})) (d : State W)
      → IsValid d
      → After (continue (r, d) (λ p. call svc (f p)))
  serve_Safe (ok a) f d v = call_Safe (f a) d v
  serve_Safe (raise x) f d v = v

  pub handle_lap_positions_Safe :
      (uid : ℕ) (m : UserMap) (h : PacketHeader) (body : Bytes) (d : State W)
      → IsValid d
      → After (handle_lap_positions svc uid m h body d)
  unfolding handle_lap_positions
  handle_lap_positions_Safe uid m h body d v =
      option_both After (svc.get_session_type uid d.services) v (λ t.
        when_keeps Ok (is_race_type t)
          (λ s.
            continue (unpack_lap_positions body, s)
              (λ p. call svc (svc.handle_lap_positions_packet h p m)))
          d v
          (serve_Safe (unpack_lap_positions body) (λ p. svc.handle_lap_positions_packet h p m) d v))
