-- ===== src/Dispatcher/Invariant.antt =====
-- The invariant of listener/dispatcher.py: whatever arrives, every set and dictionary of the
-- dispatcher and of its frame buffer keeps its size bound and its distinct keys.
use formula1_app.Prelude.{
  ℕ, Bool, not, List, is_empty, ltb, ◌==◌, if◌then◌else◌, if_both, length, drop, take,
}
use formula1_app.Prelude.Eq.{nat_eq, pair_eq, list_eq}
use formula1_app.Result.{Result, ok, raise}
use formula1_app.Bounded
use formula1_app.Bounded.{BoundedDict}
use formula1_app.Struct.{Bytes}
use formula1_app.Action.{Action, continue, lift}
use formula1_app.FrameBuffer
use formula1_app.FrameBuffer.{FrameBuffer, Packets}
use formula1_app.FrameBuffer.Add.{add-IsValid}
use formula1_app.FrameBuffer.Periodic.{check_periodic_flush-IsValid}
use formula1_app.FrameBuffer.Keeps.{add_keeps, check_periodic_flush_keeps}
use formula1_app.Packets.Header.{
  PacketHeader, Log, packet_header_size, unpack_packet_header, validate_packet_header,
}
use formula1_app.Packets.LobbyInfo.{unpack_lobby_info}
use formula1_app.Packets.CarSetup.{unpack_car_setup}
use formula1_app.Packets.TyreSets.{unpack_tyre_sets}
use formula1_app.Packets.MotionEx.{unpack_motion_ex}
use formula1_app.Packets.Events.{unpack_event_packet}
use formula1_app.Dispatcher.State.{State, Services, UserMap, Payload, Dispatcher, IsValid}
use formula1_app.Dispatcher.Frames.{map_or_empty, call, on_flush}
use formula1_app.Dispatcher.Routes.{is_car_frame, handle_event}
use formula1_app.Dispatcher.Handle.{
  is_body_size, log_size_mismatch, buffer, handle_mapped, handle_known, route, check_size, judge,
  accept, try_packet, handle_packet,
}
use formula1_app.Dispatcher.Keeps.{continue_keeps, on_flush_keeps}
use formula1_app.Dispatcher.Valid.{stable, Valid, on_state-Keeps, log_size_mismatch_Valid}
use formula1_app.Dispatcher.HandlersValid.{
  Ok, After, AfterAll, serve_Safe, handle_session_Safe, handle_participants_Safe,
  handle_final_classification_Safe, handle_session_history_Safe, handle_lap_positions_Safe,
}
use formula1_app.Dispatcher.Handle.{
  handle_car_setup, handle_tyre_sets, handle_motion_ex, handle_lobby_info,
}
use formula1_app.Dispatcher.EventsValid.{handle_event_Safe}

module _ {W : Type 0} (svc : Services W) (decode_utf8 : Bytes → Result (List ℕ)) (now : ℕ) where
  buffer_Safe :
      (uid : ℕ) (h : PacketHeader) (body : Bytes) (st : Dispatcher W)
      → Valid st
      → Valid (buffer svc decode_utf8 now uid h body st)
  unfolding buffer Valid
  buffer_Safe uid h body (b, d) (vb, vd) =
      let flush = on_flush svc in
      let kept = on_flush_keeps (Ok svc) stable svc in
      let added =
        FrameBuffer.add flush uid h.overall_frame_identifier h.packet_id (h, body) (b, d) in
      (
        check_periodic_flush-IsValid flush added.0 added.1 now
            (add-IsValid flush b d uid h.overall_frame_identifier h.packet_id (h, body) vb),
        check_periodic_flush_keeps flush (Ok svc) kept now added.0 added.1 (
            add_keeps flush (Ok svc) kept uid h.overall_frame_identifier h.packet_id (h, body) b d
              vd),
      )

  optional_Safe :
      {A : Type 0} (c : Bool) (r : Result A) (f : A → Action W (Unit {0})) (d : State W)
      → IsValid d
      → After svc (if c then continue (r, d) (λ p. call svc (f p)) else (ok tt, d))
  optional_Safe c r f d v = if_both (After svc) c (serve_Safe svc r f d v) v

  handle_car_setup_Safe :
      (uid : ℕ) (m : UserMap) (h : PacketHeader) (body : Bytes) (d : State W)
      → IsValid d
      → After svc (handle_car_setup svc decode_utf8 now uid m h body d)
  unfolding handle_car_setup
  handle_car_setup_Safe uid m h body =
      optional_Safe svc.has_car_setup (unpack_car_setup body)
        (λ p. svc.handle_car_setup_packet h p uid m)

  handle_tyre_sets_Safe :
      (uid : ℕ) (m : UserMap) (h : PacketHeader) (body : Bytes) (d : State W)
      → IsValid d
      → After svc (handle_tyre_sets svc decode_utf8 now uid m h body d)
  unfolding handle_tyre_sets
  handle_tyre_sets_Safe uid m h body d =
      optional_Safe svc.has_tyre_sets (unpack_tyre_sets body)
        (λ p. svc.handle_tyre_sets_packet h p m (svc.get_restricted_indices uid d.services)) d

  handle_motion_ex_Safe :
      (uid : ℕ) (m : UserMap) (h : PacketHeader) (body : Bytes) (d : State W)
      → IsValid d
      → After svc (handle_motion_ex svc decode_utf8 now uid m h body d)
  unfolding handle_motion_ex
  handle_motion_ex_Safe uid m h body d =
      optional_Safe svc.has_motion_ex (unpack_motion_ex body)
        (λ p. svc.write_motion_ex h p m (svc.get_session_start uid d.services)) d

  handle_lobby_info_Safe :
      (h : PacketHeader) (body : Bytes) (d : State W)
      → IsValid d
      → After svc (handle_lobby_info svc decode_utf8 now h body d)
  unfolding handle_lobby_info
  handle_lobby_info_Safe h body d =
      optional_Safe svc.has_lobby_info (unpack_lobby_info decode_utf8 body)
        (λ p. svc.handle_lobby_info_packet h p) d

  handle_mapped_Safe :
      (uid : ℕ) (m : UserMap) (h : PacketHeader) (body : Bytes) (st : Dispatcher W)
      → Valid st
      → AfterAll svc (handle_mapped svc decode_utf8 now uid m h body st)
  unfolding handle_mapped
  handle_mapped_Safe uid m h body st v =
      let i = h.packet_id in
      if_both (AfterAll svc) (i == 5) (on_state-Keeps _ (handle_car_setup_Safe uid m h body) st v) (
        if_both (AfterAll svc) (i == 12)
          (on_state-Keeps _ (handle_tyre_sets_Safe uid m h body) st v)
          (if_both (AfterAll svc) (i == 13)
            (on_state-Keeps _ (handle_motion_ex_Safe uid m h body) st v)
            (if_both (AfterAll svc) (i == 8)
              (on_state-Keeps _ (handle_final_classification_Safe svc uid m h body) st v)
              (if_both (AfterAll svc) (i == 11)
                (on_state-Keeps _ (handle_session_history_Safe svc uid m h body) st v)
                (if_both (AfterAll svc) (i == 15)
                  (on_state-Keeps _ (handle_lap_positions_Safe svc uid m h body) st v)
                  (if_both (AfterAll svc) (is_car_frame i) (buffer_Safe uid h body st v) v))))))

  handle_known_Safe :
      (uid : ℕ) (h : PacketHeader) (body : Bytes) (st : Dispatcher W)
      → Valid st
      → AfterAll svc (handle_known svc decode_utf8 now uid h body st)
  unfolding handle_known
  handle_known_Safe uid h body (b, d) v =
      let m = map_or_empty (Bounded.get d.user_maps uid) in
      if_both (AfterAll svc) (h.packet_id == 4)
        (on_state-Keeps _ (handle_participants_Safe svc decode_utf8 uid h body) (b, d) v)
        (if_both (AfterAll svc) (h.packet_id == 3)
          (continue_keeps Valid (lift (unpack_event_packet body) (b, d)) (handle_event svc uid h) v
            (handle_event_Safe svc uid h))
          (if_both (AfterAll svc) (is_empty m) v (handle_mapped_Safe uid m h body (b, d) v)))

  route_Safe :
      (h : PacketHeader) (body : Bytes) (st : Dispatcher W)
      → Valid st
      → AfterAll svc (route svc decode_utf8 now h body st)
  unfolding route
  route_Safe h body (b, d) v =
      let uid = h.session_uid in
      if_both (AfterAll svc) (Bounded.has d.excluded_sessions uid) v (
        if_both (AfterAll svc) (h.packet_id == 1)
          (on_state-Keeps _ (handle_session_Safe svc uid h body) (b, d) v)
          (if_both (AfterAll svc) (h.packet_id == 9)
            (on_state-Keeps _ (handle_lobby_info_Safe h body) (b, d) v)
            (if_both (AfterAll svc) (not (Bounded.has d.known_sessions uid)) v
              (handle_known_Safe uid h body (b, d) v))))

  relog :
      (b : FrameBuffer Payload) (d : State W) (l : Log)
      → Valid (b, d)
      → Valid (b, record d { header_log = l })
  unfolding Valid IsValid
  relog b d l v = v

  mismatch_Safe :
      (h : PacketHeader) (b : FrameBuffer Payload) (d : State W)
      → Valid (b, d)
      → Valid (b, log_size_mismatch h d)
  unfolding Valid
  mismatch_Safe h b d (vb, vd) = (vb, log_size_mismatch_Valid h d vd)

  judge_Safe :
      (verdict : Result (Unit {0})) (h : PacketHeader) (body : Bytes) (st : Dispatcher W)
      → Valid st
      → AfterAll svc (judge svc decode_utf8 now verdict h body st)
  unfolding judge check_size
  judge_Safe (raise x) h body st v = v
  judge_Safe (ok a) h body (b, d) v =
      if_both (AfterAll svc) (is_body_size h.packet_id (length body)) (route_Safe h body (b, d) v)
        (mismatch_Safe h b d v)

  accept_Safe :
      (h : PacketHeader) (body : Bytes) (st : Dispatcher W)
      → Valid st
      → AfterAll svc (accept svc decode_utf8 now h body st)
  unfolding accept
  accept_Safe h body (b, d) v =
      let r = validate_packet_header h d.header_log in
      judge_Safe r.0 h body (b, record d { header_log = r.1 }) (relog b d r.1 v)

  -- Whatever the bytes of a datagram, whether its handling raises or not, and whatever the services
  -- do, handle_packet keeps the size bounds and the distinct keys of every set and dictionary of
  -- the dispatcher and of its frame buffer.
  pub handle_packet-Valid :
      (bytes : Bytes) (st : Dispatcher W)
      → Valid st
      → Valid (handle_packet svc decode_utf8 now bytes st)
  unfolding handle_packet try_packet
  handle_packet-Valid bytes st v =
      if_both (AfterAll svc) (ltb (length bytes) packet_header_size) v (
        continue_keeps Valid (lift (unpack_packet_header (take packet_header_size bytes)) st)
          (λ h. accept svc decode_utf8 now h (drop packet_header_size bytes)) v
          (λ h. accept_Safe h (drop packet_header_size bytes)))
