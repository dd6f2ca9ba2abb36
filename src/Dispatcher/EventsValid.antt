-- ===== src/Dispatcher/EventsValid.antt =====
-- The events of listener/dispatcher.py, with flashbacks and the end of a session, keep its sets and
-- dictionaries and its frame buffer valid.
use formula1_app.Prelude.{ℕ, ◌&&◌, Option, is_empty, if_both}
use formula1_app.Prelude.Eq.{◌=?◌, nat_eq, pair_eq, list_eq}
use formula1_app.Bounded
use formula1_app.Bounded.{BoundedDict}
use formula1_app.Struct.{codes}
use formula1_app.Action.{Action, continue, skip, modify}
use formula1_app.FrameBuffer
use formula1_app.FrameBuffer.{FrameBuffer, Packets}
use formula1_app.FrameBuffer.Session.{flush_session-IsValid, discard_session-IsValid}
use formula1_app.FrameBuffer.Keeps.{flush_session_keeps}
use formula1_app.Packets.Header.{PacketHeader}
use formula1_app.Packets.Events.Union.{Event, EventPacket, Flashback, flashback}
use formula1_app.Dispatcher.State.{State, Services, Dispatcher, IsValid}
use formula1_app.Dispatcher.Frames.{map_or_empty, mark_race_started, call, on_flush}
use formula1_app.Dispatcher.Routes.{
  is_session_level, event_code, ends_formation_lap, on_state, reset_session_laps, discard_motion_ex,
  undo, handle_flashback, after_event, handle_event,
}
use formula1_app.Dispatcher.Keeps.{
  continue_keeps, when_keeps, mark_race_started_keeps, on_flush_keeps,
}
use formula1_app.Dispatcher.Valid.{stable, Valid, on_state-Keeps, reset_session_laps_Valid}
use formula1_app.Dispatcher.HandlersValid.{Ok, After, AfterAll, call_Safe}

module _ {W : Type 0} (svc : Services W) where
  discard_motion_ex_Safe :
      (uid t : ℕ) (start : Option ℕ) (d : State W)
      → IsValid d
      → After svc (discard_motion_ex svc uid t start d)
  unfolding discard_motion_ex
  discard_motion_ex_Safe uid t start d v =
      when_keeps (Ok svc) svc.has_motion_ex
        (λ s. continue (call svc (svc.motion_ex_discard_after uid t start) s) (λ _. skip)) d v
        (continue_keeps (Ok svc) (call svc (svc.motion_ex_discard_after uid t start) d) (λ _. skip)
          (call_Safe svc (svc.motion_ex_discard_after uid t start) d v) (λ _ s w. w))

  undo_Safe :
      (uid : ℕ) (h : PacketHeader) (e : Flashback) (d : State W)
      → IsValid d
      → After svc (undo svc uid h e d)
  unfolding undo
  undo_Safe uid h e d v =
      let t = e.flashback_session_time in
      let start = svc.get_session_start uid d.services in
      continue_keeps (Ok svc) (call svc (svc.car_frame_discard_after uid t start) d) _
        (call_Safe svc (svc.car_frame_discard_after uid t start) d v)
        (λ n s w.
          continue_keeps (Ok svc)
            (continue (discard_motion_ex svc uid t start s) (λ _. modify (reset_session_laps uid)))
            (λ _. call svc (svc.record_flashback uid h.overall_frame_identifier h.session_time e n))
            (continue_keeps (Ok svc) (discard_motion_ex svc uid t start s)
              (λ _. modify (reset_session_laps uid)) (discard_motion_ex_Safe uid t start s w)
              (λ _. reset_session_laps_Valid uid))
            (λ _.
              call_Safe svc
                (svc.record_flashback uid h.overall_frame_identifier h.session_time e n)))

  handle_flashback_Safe :
      (uid : ℕ) (h : PacketHeader) (e : Event) (st : Dispatcher W)
      → Valid st
      → AfterAll svc (handle_flashback svc uid h e st)
  unfolding handle_flashback on_state Valid
  handle_flashback_Safe uid h (flashback e) (b, d) (vb, vd) =
      (discard_session-IsValid b uid vb, undo_Safe uid h e d vd)
  handle_flashback_Safe uid h _ st v = v

  flush_session_Safe :
      (uid : ℕ) (st : Dispatcher W)
      → Valid st
      → Valid (FrameBuffer.flush_session (on_flush svc) uid st)
  unfolding Valid
  flush_session_Safe uid (b, d) (vb, vd) = (
    flush_session-IsValid (on_flush svc) b d uid vb,
    flush_session_keeps (on_flush svc) (Ok svc) (on_flush_keeps (Ok svc) stable svc) uid b d vd,
  )

  mark_Safe : (uid : ℕ) (st : Dispatcher W) → Valid st → Valid (st.0, mark_race_started uid st.1)
  unfolding Valid
  mark_Safe uid (b, d) (vb, vd) = (vb, mark_race_started_keeps (Ok svc) stable uid d vd)

  after_event_Safe :
      (uid : ℕ) (h : PacketHeader) (p : EventPacket) (st : Dispatcher W)
      → Valid st
      → AfterAll svc (after_event svc uid h p st)
  unfolding after_event
  after_event_Safe uid h p (b, d) v =
      let code = event_code p in
      if_both (AfterAll svc) (code =? codes "SEND") (flush_session_Safe uid (b, d) v) (
        if_both (AfterAll svc) (code =? codes "FLBK") (handle_flashback_Safe uid h p.event (b, d) v)
          (if_both (AfterAll svc) (code =? codes "LGOT") (mark_Safe uid (b, d) v) (
            if_both (AfterAll svc) (code =? codes "SCAR" && ends_formation_lap p.event)
              (mark_Safe uid (b, d) v) v)))

  pub handle_event_Safe :
      (uid : ℕ) (h : PacketHeader) (p : EventPacket) (st : Dispatcher W)
      → Valid st
      → AfterAll svc (handle_event svc uid h p st)
  unfolding handle_event
  handle_event_Safe uid h p (b, d) v =
      let m = map_or_empty (Bounded.get d.user_maps uid) in
      let service : Action (Dispatcher W) (Unit {0}) =
        on_state (call svc (svc.handle_event_packet h p m)) in
      let served =
        on_state-Keeps (call svc (svc.handle_event_packet h p m))
          (call_Safe svc (svc.handle_event_packet h p m)) (b, d) v in
      if_both (AfterAll svc) (is_session_level (event_code p))
        (continue_keeps Valid (service (b, d)) (λ _. after_event svc uid h p) served
          (λ _. after_event_Safe uid h p))
        (if_both (AfterAll svc) (is_empty m) v served)
