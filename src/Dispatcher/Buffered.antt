-- ===== src/Dispatcher/Buffered.antt =====
-- listener/dispatcher.py, `handle_packet`: a packet of a car frame reaches the frame buffer.
use formula1_app.Prelude.{
  ℕ, ◌∙◌, ap, some, ◌≤◌, ◌≡◌, refl, true, false, List, is_empty, ltb, ◌==◌, arith, length, drop,
  take,
}
use formula1_app.Prelude.Eq.{list_eq, nat_eq, pair_eq}
use formula1_app.Result.{Result, ok}
use formula1_app.Bounded
use formula1_app.Struct.{Bytes}
use formula1_app.FrameBuffer.{FrameBuffer, add, check_periodic_flush}
use formula1_app.Packets.Header.{
  PacketHeader, packet_header_size, unpack_packet_header, validate_packet_header,
}
use formula1_app.Packets.Header.Validate.{IsTaken, validate_packet_header_iff}
use formula1_app.Dispatcher.State.{State, Services, UserMap, Payload, Dispatcher}
use formula1_app.Dispatcher.Frames.{map_or_empty, on_flush}
use formula1_app.Dispatcher.Handle.{
  is_body_size, buffer, handle_mapped, handle_known, route, check_size, judge, accept, try_packet,
  handle_packet,
}
use formula1_app.Dispatcher.Routes.{is_car_frame}
use formula1_app.Dict
use formula1_app.Bounded.Laws.{Room}
use formula1_app.FrameBuffer.Laws.{pending}
use formula1_app.FrameBuffer.Laws
use formula1_app.FrameBuffer.Add.{pending-add, add-IsValid, packets_or_empty, current_frame-add}
use formula1_app.FrameBuffer.Periodic.{pending-check_periodic_flush}

module _ {W : Type 0} (svc : Services W) (decode_utf8 : Bytes → Result (List ℕ)) (now : ℕ) where
  -- A packet that no test refuses, and whose id is one of a car frame, is buffered.
  abbrev pub IsBuffered : PacketHeader → Bytes → State W → Type 0
  IsBuffered h body d =
      IsTaken h
      × (is_body_size h.packet_id (length body) ≡ true)
      × (Bounded.has d.excluded_sessions h.session_uid ≡ false)
      × (Bounded.has d.known_sessions h.session_uid ≡ true)
      × (is_empty (map_or_empty (Bounded.get d.user_maps h.session_uid)) ≡ false)
      × (is_car_frame h.packet_id ≡ true)

  other_id : (i j : ℕ) → is_car_frame i ≡ true → is_car_frame j ≡ false → (i == j) ≡ false
  unfolding is_car_frame
  other_id i j e f = ground arith

  handle_mapped_buffered :
      (uid : ℕ) (m : UserMap) (h : PacketHeader) (body : Bytes) (st : Dispatcher W)
      → is_car_frame h.packet_id ≡ true
      → handle_mapped svc decode_utf8 now uid m h body st
        ≡ (ok tt, buffer svc decode_utf8 now uid h body st)
  unfolding handle_mapped is_car_frame
  handle_mapped_buffered uid m h body st car =
      let i = h.packet_id in
      rw
        (
          handle_mapped,
          other_id i 5 car refl,
          other_id i 12 car refl,
          other_id i 13 car refl,
          other_id i 8 car refl,
          other_id i 11 car refl,
          other_id i 15 car refl,
          car,
        )
        refl

  accept_buffered :
      (h : PacketHeader) (body : Bytes) (b : FrameBuffer Payload) (d : State W)
      → IsBuffered h body d
      → accept svc decode_utf8 now h body (b, d) ≡ (
        ok tt,
        buffer svc decode_utf8 now h.session_uid h body
            (b, record d { header_log = (validate_packet_header h d.header_log).1 }),
      )
  unfolding accept judge check_size route handle_known is_car_frame
  accept_buffered h body b d (t, fits, ex, kn, um, car) =
      let i = h.packet_id in
      let d' : State W = record d { header_log = (validate_packet_header h d.header_log).1 } in
      let m : UserMap = map_or_empty (Bounded.get d.user_maps h.session_uid) in
      rw
        (
          accept,
          (validate_packet_header_iff h d.header_log).1 t,
          judge,
          check_size,
          fits,
          route,
          ex,
          other_id i 1 car refl,
          other_id i 9 car refl,
          kn,
          handle_known,
          other_id i 4 car refl,
          other_id i 3 car refl,
          um,
        )
        (handle_mapped_buffered h.session_uid m h body (b, d') car)

  handle_packet_buffered :
      (bytes : Bytes) (h : PacketHeader) (b : FrameBuffer Payload) (d : State W)
      → packet_header_size ≤ length bytes
      → unpack_packet_header (take packet_header_size bytes) ≡ ok h
      → IsBuffered h (drop packet_header_size bytes) d
      → handle_packet svc decode_utf8 now bytes (b, d)
        ≡ check_periodic_flush (on_flush svc) now (
            add
              (on_flush svc)
              h.session_uid
              h.overall_frame_identifier
              h.packet_id
              (h, drop packet_header_size bytes)
              (b, record d { header_log = (validate_packet_header h d.header_log).1 }))
  unfolding handle_packet try_packet buffer
  handle_packet_buffered bytes h b d len e p =
      let short : ltb (length bytes) packet_header_size ≡ false = ground arith in
      rw
        (
          handle_packet,
          try_packet,
          short,
          e,
          accept_buffered h (drop packet_header_size bytes) b d p,
        )
        refl

  kept :
      (uid frame_id packet_id : ℕ) (p : Payload) (b : FrameBuffer Payload) (d : State W)
      → Laws.IsValid b
      → Room b.frames uid
      → pending
          (check_periodic_flush
            (on_flush svc)
            now
            (add (on_flush svc) uid frame_id packet_id p (b, d))).0
          uid
          frame_id
        ≡ some (Dict.put packet_id p (packets_or_empty (pending b uid frame_id)))
  kept uid frame_id packet_id p b d v r =
      let added = add (on_flush svc) uid frame_id packet_id p (b, d) in
      pending-check_periodic_flush (on_flush svc) added.0 added.1 now uid frame_id
        (add-IsValid (on_flush svc) b d uid frame_id packet_id p v)
      ∙ rw (current_frame-add (on_flush svc) b d uid frame_id packet_id p v)
          (ground (arith, pending-add (on_flush svc) b d uid frame_id packet_id uid frame_id p v r))

  -- With a valid frame buffer that has the session already or has room for it, after a datagram of
  -- at least 29 bytes with a readable header, of a car-frame packet, that passes every test, the
  -- buffer holds for the packet's session and overall frame identifier what it held before, and the
  -- header and the body as the packet of its id: neither another frame's end nor the sweep behind
  -- it takes them away.
  pub pending-handle_packet :
      (bytes : Bytes) (h : PacketHeader) (b : FrameBuffer Payload) (d : State W)
      → Laws.IsValid b
      → Room b.frames h.session_uid
      → packet_header_size ≤ length bytes
      → unpack_packet_header (take packet_header_size bytes) ≡ ok h
      → IsBuffered h (drop packet_header_size bytes) d
      → pending
          (handle_packet svc decode_utf8 now bytes (b, d)).0
          h.session_uid
          h.overall_frame_identifier
        ≡ some (
            Dict.put h.packet_id
              (h, drop packet_header_size bytes)
              (packets_or_empty (pending b h.session_uid h.overall_frame_identifier)))
  pending-handle_packet bytes h b d v r len e p =
      ap (λ (st : Dispatcher W). pending st.0 h.session_uid h.overall_frame_identifier)
        (handle_packet_buffered bytes h b d len e p)
      ∙ kept h.session_uid h.overall_frame_identifier h.packet_id (h, drop packet_header_size bytes)
          b _ v r
