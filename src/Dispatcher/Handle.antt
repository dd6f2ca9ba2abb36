-- ===== src/Dispatcher/Handle.antt =====
-- listener/dispatcher.py, `_validate_body_size` and `handle_packet`. The lock makes the calls of
-- `handle_packet` a sequence. `time.monotonic()` is the argument `now`.
use formula1_app.Prelude.{
  ℕ, Bool, true, not, none, some, List, is_empty, ltb, leb, ◌==◌, if◌then◌else◌, drop, length, take,
}
use formula1_app.Prelude.Eq.{nat_eq, pair_eq}
use formula1_app.Result.{Result, ok, raise}
use formula1_app.Dict
use formula1_app.Bounded
use formula1_app.Struct.{Bytes}
use formula1_app.Action.{Action, ◌>>=◌, lift}
use formula1_app.FrameBuffer
use formula1_app.FrameBuffer.{FrameBuffer}
use formula1_app.Packets.Header.{
  PacketHeader, packet_header_size, unpack_packet_header, validate_packet_header,
  expected_body_size, is_variable_length,
}
use formula1_app.Packets.LobbyInfo.{unpack_lobby_info}
use formula1_app.Packets.CarSetup.{unpack_car_setup}
use formula1_app.Packets.TyreSets.{unpack_tyre_sets}
use formula1_app.Packets.MotionEx.{unpack_motion_ex}
use formula1_app.Packets.Events.{unpack_event_packet}
use formula1_app.Dispatcher.State.{State, Services, UserMap, Dispatcher}
use formula1_app.Dispatcher.Frames.{map_or_empty, call, on_flush}
use formula1_app.Dispatcher.Routes.{
  is_car_frame, on_state, handle_event, handle_session, handle_participants,
  handle_final_classification, handle_session_history, handle_lap_positions,
}

-- The test of `_validate_body_size`.
unfoldable pub is_body_size : ℕ → ℕ → Bool
is_body_size packet_id n = elim (Dict.lookup packet_id expected_body_size) [
  | none ↦ true
  | some expected ↦ if is_variable_length packet_id then leb n expected else n == expected
]

module _ {W : Type 0} where
  -- The rate-limited warning of `_validate_body_size`, as far as the state keeps it.
  unfoldable pub log_size_mismatch : PacketHeader → State W → State W
  log_size_mismatch h d =
      let key : ℕ × ℕ = (h.session_uid, h.packet_id) in
      if Bounded.has d.logged_size_mismatches key
      then d
      else record d { logged_size_mismatches = Bounded.add d.logged_size_mismatches key }

module _ {W : Type 0} (svc : Services W) (decode_utf8 : Bytes → Result (List ℕ)) (now : ℕ) where
  -- The packets that are buffered.
  unfoldable pub buffer : ℕ → PacketHeader → Bytes → Dispatcher W → Dispatcher W
  buffer uid h body st =
      let (b, d) =
        FrameBuffer.add (on_flush svc) uid h.overall_frame_identifier h.packet_id (h, body) st in
      FrameBuffer.check_periodic_flush (on_flush svc) now (b, d)

  -- Packets 5, 12 and 13, whose services may be missing.
  unfoldable pub handle_car_setup : ℕ → UserMap → PacketHeader → Bytes → Action (State W) (Unit {0})
  handle_car_setup uid user_map h body d =
      if svc.has_car_setup
      then (lift (unpack_car_setup body) >>= λ p.
            call svc (svc.handle_car_setup_packet h p uid user_map))
          d
      else (ok tt, d)

  unfoldable pub handle_tyre_sets : ℕ → UserMap → PacketHeader → Bytes → Action (State W) (Unit {0})
  handle_tyre_sets uid user_map h body d =
      if svc.has_tyre_sets
      then (lift (unpack_tyre_sets body) >>= λ p.
            call svc (
              svc.handle_tyre_sets_packet h p user_map (svc.get_restricted_indices uid d.services)))
          d
      else (ok tt, d)

  unfoldable pub handle_motion_ex : ℕ → UserMap → PacketHeader → Bytes → Action (State W) (Unit {0})
  handle_motion_ex uid user_map h body d =
      if svc.has_motion_ex
      then (lift (unpack_motion_ex body) >>= λ p.
            call svc (svc.write_motion_ex h p user_map (svc.get_session_start uid d.services)))
          d
      else (ok tt, d)

  -- Packet 9.
  unfoldable pub handle_lobby_info : PacketHeader → Bytes → Action (State W) (Unit {0})
  handle_lobby_info h body d =
      if svc.has_lobby_info
      then (lift (unpack_lobby_info decode_utf8 body) >>= λ p.
            call svc (svc.handle_lobby_info_packet h p))
          d
      else (ok tt, d)

  -- The packets that need a user map.
  unfoldable pub handle_mapped :
      ℕ → UserMap → PacketHeader → Bytes → Action (Dispatcher W) (Unit {0})
  unfolding buffer
  handle_mapped uid user_map h body st =
      if h.packet_id == 5
      then on_state (handle_car_setup uid user_map h body) st
      else if h.packet_id == 12
      then on_state (handle_tyre_sets uid user_map h body) st
      else if h.packet_id == 13
      then on_state (handle_motion_ex uid user_map h body) st
      else if h.packet_id == 8
      then on_state (handle_final_classification svc uid user_map h body) st
      else if h.packet_id == 11
      then on_state (handle_session_history svc uid user_map h body) st
      else if h.packet_id == 15
      then on_state (handle_lap_positions svc uid user_map h body) st
      else if is_car_frame h.packet_id
      then (ok tt, buffer uid h body st)
      else (ok tt, st)

  -- The packets of a known session.
  unfoldable pub handle_known : ℕ → PacketHeader → Bytes → Action (Dispatcher W) (Unit {0})
  unfolding handle_mapped
  handle_known uid h body (b, d) =
      let user_map = map_or_empty (Bounded.get d.user_maps uid) in
      if h.packet_id == 4
      then on_state (handle_participants svc decode_utf8 uid h body) (b, d)
      else if h.packet_id == 3
      then (lift (unpack_event_packet body) >>= handle_event svc uid h) (b, d)
      else if is_empty user_map
      then (ok tt, (b, d))
      else handle_mapped uid user_map h body (b, d)

  -- The statements behind the body's size check.
  unfoldable pub route : PacketHeader → Bytes → Action (Dispatcher W) (Unit {0})
  unfolding handle_known
  route h body (b, d) =
      let uid = h.session_uid in
      if Bounded.has d.excluded_sessions uid
      then (ok tt, (b, d))
      else if h.packet_id == 1
      then on_state (handle_session svc uid h body) (b, d)
      else if h.packet_id == 9
      then on_state (handle_lobby_info h body) (b, d)
      else if not (Bounded.has d.known_sessions uid)
      then (ok tt, (b, d))
      else handle_known uid h body (b, d)

  unfoldable pub check_size : PacketHeader → Bytes → Action (Dispatcher W) (Unit {0})
  unfolding route
  check_size h body (b, d) =
      if is_body_size h.packet_id (length body)
      then route h body (b, d)
      else (ok tt, (b, log_size_mismatch h d))

  -- The PacketValidationError of `validate_packet_header` ends the call.
  unfoldable pub judge : Result (Unit {0}) → PacketHeader → Bytes → Action (Dispatcher W) (Unit {0})
  judge (raise x) h body st = (ok tt, st)
  judge (ok _) h body st = check_size h body st

  unfoldable pub accept : PacketHeader → Bytes → Action (Dispatcher W) (Unit {0})
  unfolding judge
  accept h body (b, d) =
      let (verdict, log) = validate_packet_header h d.header_log in
      judge verdict h body (b, record d { header_log = log })

  -- The body of the `try` in `handle_packet`.
  unfoldable pub try_packet : Bytes → Action (Dispatcher W) (Unit {0})
  unfolding accept
  try_packet bytes st =
      if ltb (length bytes) packet_header_size
      then (ok tt, st)
      else (lift (unpack_packet_header (take packet_header_size bytes)) >>= λ h.
            accept h (drop packet_header_size bytes))
          st

  -- `handle_packet`: every exception is logged and dropped.
  unfoldable pub handle_packet : Bytes → Dispatcher W → Dispatcher W
  unfolding try_packet
  handle_packet bytes st = (try_packet bytes st).1
