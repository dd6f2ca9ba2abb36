-- ===== src/Dispatcher/Gate.antt =====
-- listener/dispatcher.py, `handle_packet`: the tests in front of the handlers.
use formula1_app.Prelude.{
  ℕ, ◌≡◌, refl, true, false, not, any, List, [], ◌∷◌, is_empty, ltb, ◌==◌, if_both, arith, length,
  drop, take,
}
use formula1_app.Prelude.Eq.{◌=?◌, list_eq, nat_eq, pair_eq}
use formula1_app.Result.{Result, ok, raise}
use formula1_app.Bounded
use formula1_app.Struct.{Bytes, codes}
use formula1_app.Packets.Events.Union.{EventPacket}
use formula1_app.Packets.Events.{unpack_event_packet}
use formula1_app.FrameBuffer.{FrameBuffer}
use formula1_app.Packets.Header.{
  PacketHeader, Log, packet_header_size, unpack_packet_header, validate_packet_header,
}
use formula1_app.Packets.Header.Validate.{IsTaken, validate_packet_header_iff}
use formula1_app.Dispatcher.State.{State, Services, Payload, Dispatcher}
use formula1_app.Dispatcher.Frames.{map_or_empty}
use formula1_app.Dispatcher.Routes.{is_session_level, event_code, handle_event}
use formula1_app.Dispatcher.Handle.{
  is_body_size, log_size_mismatch, handle_known, route, check_size, judge, accept, try_packet,
  handle_packet,
}

-- The codes of the events that are a session's, not a driver's.
abbrev pub session_codes : List (List ℕ)
session_codes =
    codes "SSTA"
    ∷ codes "SEND"
    ∷ codes "LGOT"
    ∷ codes "CHQF"
    ∷ codes "RDFL"
    ∷ codes "DRSE"
    ∷ codes "DRSD"
    ∷ codes "STLG"
    ∷ codes "SCAR"
    ∷ codes "FLBK"
    ∷ codes "BUTN"
    ∷ []

module _ {W : Type 0} where
  -- The second state is the first one but for what the dispatcher remembers to have logged.
  abbrev pub OnlyLogged : Dispatcher W → Dispatcher W → Type 0
  OnlyLogged st st' = st' ≡ (
    st.0,
    record st.1 {
      header_log = st'.1.header_log;
      logged_size_mismatches = st'.1.logged_size_mismatches;
    },
  )

  -- Why a packet is not handled.
  pub data IsRefused (h : PacketHeader) (body : Bytes) (d : State W) : Type 0 where
    header : ¬ IsTaken h → IsRefused h body d
    size : is_body_size h.packet_id (length body) ≡ false → IsRefused h body d
    excluded : Bounded.has d.excluded_sessions h.session_uid ≡ true → IsRefused h body d
    unknown :
        Bounded.has d.known_sessions h.session_uid ≡ false
        → (h.packet_id == 1) ≡ false
        → (h.packet_id == 9) ≡ false
        → IsRefused h body d
    unmapped :
        is_empty (map_or_empty (Bounded.get d.user_maps h.session_uid)) ≡ true
        → (h.packet_id == 1) ≡ false
        → (h.packet_id == 9) ≡ false
        → (h.packet_id == 4) ≡ false
        → (h.packet_id == 3) ≡ false
        → IsRefused h body d
    -- An event that is a driver's.
    unmapped_event :
        (p : EventPacket)
        → is_empty (map_or_empty (Bounded.get d.user_maps h.session_uid)) ≡ true
        → (h.packet_id == 3) ≡ true
        → unpack_event_packet body ≡ ok p
        → any (λ code. event_code p =? code) session_codes ≡ false
        → IsRefused h body d

  relogged :
      (b : FrameBuffer Payload) (d : State W) (l : Log) {st : Dispatcher W}
      → OnlyLogged (b, record d { header_log = l }) st
      → OnlyLogged (b, d) st
  relogged b d l e = e

module _ {W : Type 0} (svc : Services W) (decode_utf8 : Bytes → Result (List ℕ)) (now : ℕ) where
  log_size_mismatch-OnlyLogged :
      (h : PacketHeader) (b : FrameBuffer Payload) (d : State W)
      → OnlyLogged (b, d) (b, log_size_mismatch h d)
  unfolding log_size_mismatch
  log_size_mismatch-OnlyLogged h b d =
      if_both (λ s. OnlyLogged (b, d) (b, s))
        (Bounded.has d.logged_size_mismatches (h.session_uid, h.packet_id)) refl refl

  other_id : (i j k : ℕ) → (i == k) ≡ true → (k == j) ≡ false → (i == j) ≡ false
  other_id i j k e f = ground arith

  event_refused :
      (h : PacketHeader) (p : EventPacket) (b : FrameBuffer Payload) (d : State W)
      → is_empty (map_or_empty (Bounded.get d.user_maps h.session_uid)) ≡ true
      → any (λ code. event_code p =? code) session_codes ≡ false
      → OnlyLogged (b, d) (handle_event svc h.session_uid h p (b, d)).1
  unfolding handle_event is_session_level
  event_refused h p b d e c = rw (handle_event, is_session_level, c, e) refl

  -- The tests behind that of the header.
  check_size_refused :
      (h : PacketHeader) (body : Bytes) (b : FrameBuffer Payload) (d : State W)
      → IsRefused h body d
      → IsTaken h
      → OnlyLogged (b, d) (check_size svc decode_utf8 now h body (b, d)).1
  unfolding check_size route handle_known
  check_size_refused h body b d (header e) t = absurd (e t)
  check_size_refused h body b d (size e) t = rw e (log_size_mismatch-OnlyLogged h b d)
  check_size_refused h body b d (excluded e) t =
      if_both (λ (r : Result (Unit {0}) × Dispatcher W). OnlyLogged (b, d) r.1)
        (is_body_size h.packet_id (length body)) (rw e refl) (log_size_mismatch-OnlyLogged h b d)
  check_size_refused h body b d (unknown e e1 e9) t =
      if_both (λ (r : Result (Unit {0}) × Dispatcher W). OnlyLogged (b, d) r.1)
        (is_body_size h.packet_id (length body))
        (if_both (λ (r : Result (Unit {0}) × Dispatcher W). OnlyLogged (b, d) r.1)
          (Bounded.has d.excluded_sessions h.session_uid) refl (rw (e1, e9, e) refl))
        (log_size_mismatch-OnlyLogged h b d)
  check_size_refused h body b d (unmapped e e1 e9 e4 e3) t =
      if_both (λ (r : Result (Unit {0}) × Dispatcher W). OnlyLogged (b, d) r.1)
        (is_body_size h.packet_id (length body))
        (if_both (λ (r : Result (Unit {0}) × Dispatcher W). OnlyLogged (b, d) r.1)
          (Bounded.has d.excluded_sessions h.session_uid) refl
          (rw (e1, e9)
            (if_both (λ (r : Result (Unit {0}) × Dispatcher W). OnlyLogged (b, d) r.1)
              (not (Bounded.has d.known_sessions h.session_uid)) refl (rw (e4, e3, e) refl))))
        (log_size_mismatch-OnlyLogged h b d)
  check_size_refused h body b d (unmapped_event p e e3 u c) t =
      let i = h.packet_id in
      if_both (λ (r : Result (Unit {0}) × Dispatcher W). OnlyLogged (b, d) r.1)
        (is_body_size h.packet_id (length body))
        (if_both (λ (r : Result (Unit {0}) × Dispatcher W). OnlyLogged (b, d) r.1)
          (Bounded.has d.excluded_sessions h.session_uid) refl
          (rw (other_id i 1 3 e3 refl, other_id i 9 3 e3 refl)
            (if_both (λ (r : Result (Unit {0}) × Dispatcher W). OnlyLogged (b, d) r.1)
              (not (Bounded.has d.known_sessions h.session_uid)) refl
              (rw (other_id i 4 3 e3 refl, e3, u) (event_refused h p b d e c)))))
        (log_size_mismatch-OnlyLogged h b d)

  judge_refused :
      (verdict : Result (Unit {0})) (h : PacketHeader) (body : Bytes) (b : FrameBuffer Payload)
      (d : State W)
      → IsRefused h body d
      → (verdict ≡ ok tt → IsTaken h)
      → OnlyLogged (b, d) (judge svc decode_utf8 now verdict h body (b, d)).1
  unfolding judge
  judge_refused (raise x) h body b d r t = refl
  judge_refused (ok a) h body b d r t = check_size_refused h body b d r (t refl)

  relog_refused :
      (h : PacketHeader) (body : Bytes) (d : State W) (l : Log)
      → IsRefused h body d
      → IsRefused h body (record d { header_log = l })
  relog_refused h body d l (header e) = header e
  relog_refused h body d l (size e) = size e
  relog_refused h body d l (excluded e) = excluded e
  relog_refused h body d l (unknown e e1 e9) = unknown e e1 e9
  relog_refused h body d l (unmapped e e1 e9 e4 e3) = unmapped e e1 e9 e4 e3
  relog_refused h body d l (unmapped_event p e e3 u c) = unmapped_event p e e3 u c

  accept_refused :
      (h : PacketHeader) (body : Bytes) (b : FrameBuffer Payload) (d : State W)
      → IsRefused h body d
      → OnlyLogged (b, d) (accept svc decode_utf8 now h body (b, d)).1
  unfolding accept
  accept_refused h body b d r =
      let (verdict, log) = validate_packet_header h d.header_log in
      let d' : State W = record d { header_log = log } in
      relogged b d log (
        judge_refused verdict h body b d' (relog_refused h body d log r)
          ((validate_packet_header_iff h d.header_log).0))

  -- A datagram with a readable header that a test refuses (header validation, body size, excluded
  -- session, unknown session, or no user map for a packet that needs one: a driver's event, or any
  -- but the packets 1, 3, 4 and 9) changes nothing but what the dispatcher remembers to have
  -- logged.
  pub handle_packet_refused :
      (bytes : Bytes) (h : PacketHeader) (b : FrameBuffer Payload) (d : State W)
      → unpack_packet_header (take packet_header_size bytes) ≡ ok h
      → IsRefused h (drop packet_header_size bytes) d
      → OnlyLogged (b, d) (handle_packet svc decode_utf8 now bytes (b, d))
  unfolding handle_packet try_packet
  handle_packet_refused bytes h b d e r =
      if_both (λ (x : Result (Unit {0}) × Dispatcher W). OnlyLogged (b, d) x.1)
        (ltb (length bytes) packet_header_size) refl
        (rw e (accept_refused h (drop packet_header_size bytes) b d r))
