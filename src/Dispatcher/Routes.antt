-- ===== src/Dispatcher/Routes.antt =====
-- listener/dispatcher.py, `handle_packet`: the handlers of the single packets.
use formula1_app.Prelude.{
  ℕ, Bool, false, not, ◌&&◌, ◌||◌, Option, none, some, List, [], ◌∷◌, is_empty, leb, ◌==◌,
  if◌then◌else◌, any, take,
}
use formula1_app.Prelude.Eq.{◌=?◌, nat_eq, pair_eq, list_eq}
use formula1_app.Result.{Result, ok}
use formula1_app.Dict.{keys}
use formula1_app.Bounded
use formula1_app.Bounded.{BoundedDict}
use formula1_app.Struct.{Bytes, codes}
use formula1_app.Action.{Action, continue, ◌>>=◌, ◌>>◌, skip, lift, modify, when}
use formula1_app.FrameBuffer
use formula1_app.Packets.Header.{PacketHeader}
use formula1_app.Packets.Session.{SessionPacket, unpack_session}
use formula1_app.Packets.Participants.{unpack_participants}
use formula1_app.Packets.FinalClassification.{unpack_final_classification}
use formula1_app.Packets.SessionHistory.{SessionHistoryPacket, unpack_session_history}
use formula1_app.Packets.LapPositions.{unpack_lap_positions}
use formula1_app.Packets.Events.Union.{Event, EventPacket, Flashback, flashback, safety_car}
use formula1_app.Dispatcher.State.{State, Services, UserMap, Dispatcher}
use formula1_app.Dispatcher.Frames.{map_or_empty, mark_race_started, call, on_flush}

-- EXCLUDED_SESSION_TYPES, RACE_SESSION_TYPES and CAR_FRAME_PACKET_IDS
unfoldable pub is_excluded_type : ℕ → Bool
is_excluded_type t = t == 0 || t == 18

unfoldable pub is_race_type : ℕ → Bool
is_race_type t = t == 15 || (t == 16 || (t == 17 || t == 100))

unfoldable pub is_car_frame : ℕ → Bool
is_car_frame i = i == 0 || (i == 2 || (i == 6 || (i == 7 || (i == 10 || i == 16))))

-- _SESSION_LEVEL_EVENT_CODES
unfoldable pub is_session_level : List ℕ → Bool
is_session_level code =
    any (λ c. code =? c)
      (codes "SSTA"
        ∷ codes "SEND"
        ∷ codes "LGOT"
        ∷ codes "CHQF"
        ∷ codes "RDFL"
        ∷ codes "DRSE"
        ∷ codes "DRSD"
        ∷ codes "STLG"
        ∷ codes "SCAR"
        ∷ codes "FLBK"
        ∷ codes "BUTN"
        ∷ [])

-- `str.strip()` on ASCII text.
abbrev pub is_space : ℕ → Bool
is_space c = (leb 9 c && leb c 13) || (leb 28 c && leb c 32)

unfoldable pub lstrip : List ℕ → List ℕ
lstrip [] = []
lstrip (c ∷ cs) = let rest = lstrip cs in if is_space c then rest else c ∷ cs

unfoldable pub rstrip : List ℕ → List ℕ
rstrip [] = []
rstrip (c ∷ cs) =
    let rest = rstrip cs in
    elim rest [ [] ↦ (if is_space c then [] else c ∷ []) | (x ∷ xs) ↦ c ∷ x ∷ xs ]

unfoldable pub event_code : EventPacket → List ℕ
unfolding lstrip rstrip
event_code p = take 10 (rstrip (lstrip p.event_string_code))

-- `isinstance(packet.event, SafetyCar)` with the end of the formation lap: types 3 and 3.
unfoldable pub ends_formation_lap : Event → Bool
ends_formation_lap (safety_car e) = e.safety_car_type == 3 && e.event_type == 3
ends_formation_lap _ = false

-- The loop of `_handle_flashback` over the keys of the session.
unfoldable pub reset_laps : ℕ → List (ℕ × ℕ) → BoundedDict (ℕ × ℕ) ℕ → BoundedDict (ℕ × ℕ) ℕ
reset_laps uid [] laps = laps
reset_laps uid (k ∷ ks) laps =
    reset_laps uid ks (if k.0 == uid then Bounded.set_item laps k 0 else laps)

module _ {W : Type 0} where
  -- A statement on the dispatcher's attributes without the frame buffer.
  unfoldable pub on_state : {A : Type 0} → Action (State W) A → Action (Dispatcher W) A
  on_state m (b, d) = let (r, d') = m d in (r, (b, d'))

module _ {W : Type 0} where
  -- A session that has no flag yet is started, unless it is a race.
  unfoldable pub start_if_new : ℕ → ℕ → State W → State W
  start_if_new uid session_type d = if Bounded.has d.race_started uid then d else record d {
    race_started = Bounded.set_item d.race_started uid (not (is_race_type session_type));
  }

  unfoldable pub reset_session_laps : ℕ → State W → State W
  unfolding reset_laps
  reset_session_laps uid d = record d {
    last_lap_nums = reset_laps uid (keys d.last_lap_nums.entries) d.last_lap_nums;
  }

  unfoldable pub take_map : ℕ → UserMap → State W → State W
  take_map uid new_map d =
      if is_empty new_map
      then d
      else record d { user_maps = Bounded.set_item d.user_maps uid new_map }

  unfoldable pub receive_classification : ℕ → State W → State W
  receive_classification uid d = record d {
    classification_received = Bounded.add d.classification_received uid;
  }

module _ {W : Type 0} (svc : Services W) where
  -- The telemetry that `_handle_flashback` deletes. The count of the extended motion rows is not used.
  unfoldable pub discard_motion_ex : ℕ → ℕ → Option ℕ → Action (State W) (Unit {0})
  discard_motion_ex uid rewind_to start =
      when svc.has_motion_ex
        (call svc (svc.motion_ex_discard_after uid rewind_to start) >>= λ _. skip)

  -- `_handle_flashback` behind the frame buffer's discard.
  unfoldable pub undo : ℕ → PacketHeader → Flashback → Action (State W) (Unit {0})
  undo uid header event d =
      let rewind_to = event.flashback_session_time in
      let start = svc.get_session_start uid d.services in
      (call svc (svc.car_frame_discard_after uid rewind_to start) >>= λ discarded.
      discard_motion_ex uid rewind_to start
      >> modify (reset_session_laps uid)
      >> call svc (
          svc.record_flashback uid header.overall_frame_identifier header.session_time event
            discarded))
        d

  -- `_handle_flashback`
  unfoldable pub handle_flashback : ℕ → PacketHeader → Event → Action (Dispatcher W) (Unit {0})
  handle_flashback uid header (flashback event) (b, d) =
      on_state (undo uid header event) (FrameBuffer.discard_session uid b, d)
  handle_flashback uid header _ st = (ok tt, st)

  -- What follows the service's call for an event of the session.
  unfoldable pub after_event : ℕ → PacketHeader → EventPacket → Action (Dispatcher W) (Unit {0})
  unfolding handle_flashback
  after_event uid header p (b, d) =
      let code = event_code p in
      if code =? codes "SEND"
      then (ok tt, FrameBuffer.flush_session (on_flush svc) uid (b, d))
      else if code =? codes "FLBK"
      then handle_flashback uid header p.event (b, d)
      else if code =? codes "LGOT"
      then (ok tt, (b, mark_race_started uid d))
      else if code =? codes "SCAR" && ends_formation_lap p.event
      then (ok tt, (b, mark_race_started uid d))
      else (ok tt, (b, d))

  -- Packet 3.
  unfoldable pub handle_event : ℕ → PacketHeader → EventPacket → Action (Dispatcher W) (Unit {0})
  unfolding after_event
  handle_event uid header p (b, d) =
      let user_map = map_or_empty (Bounded.get d.user_maps uid) in
      let service : Action (Dispatcher W) (Unit {0}) =
        on_state (call svc (svc.handle_event_packet header p user_map)) in
      if is_session_level (event_code p)
      then continue (service (b, d)) (λ _. after_event uid header p)
      else if is_empty user_map
      then (ok tt, (b, d))
      else service (b, d)

  -- The statements of packet 1 behind its parser.
  unfoldable pub take_session : ℕ → PacketHeader → SessionPacket → Action (State W) (Unit {0})
  take_session uid header p d =
      if is_excluded_type p.session_type
      then (ok tt, record d { excluded_sessions = Bounded.add d.excluded_sessions uid })
      else (call svc (svc.handle_session_packet header p)
            >> modify (start_if_new uid p.session_type))
          (record d { known_sessions = Bounded.add d.known_sessions uid })

  -- Packet 1.
  unfoldable pub handle_session : ℕ → PacketHeader → Bytes → Action (State W) (Unit {0})
  unfolding take_session
  handle_session uid header body = lift (unpack_session body) >>= take_session uid header

  -- Packet 4, by a parser that has its text codec.
  unfoldable pub handle_participants :
      (Bytes → Result (List ℕ)) → ℕ → PacketHeader → Bytes → Action (State W) (Unit {0})
  handle_participants decode_utf8 uid header body =
      lift (unpack_participants decode_utf8 body) >>= λ p.
      call svc (svc.handle_participants_packet header p) >>= λ new_map.
      modify (take_map uid new_map)

  -- Packet 8.
  unfoldable pub handle_final_classification :
      ℕ → UserMap → PacketHeader → Bytes → Action (State W) (Unit {0})
  handle_final_classification uid user_map header body =
      lift (unpack_final_classification body) >>= λ p.
      call svc (svc.handle_final_classification_packet header p user_map)
      >> modify (receive_classification uid)

  -- The tyre stints of packet 11, which are written after the classification.
  unfoldable pub take_stints :
      ℕ → UserMap → PacketHeader → SessionHistoryPacket → Action (State W) (Unit {0})
  take_stints uid user_map header p d =
      when (Bounded.has d.classification_received uid)
        (call svc (svc.handle_tyre_stints header p user_map)) d

  -- Packet 11.
  unfoldable pub handle_session_history :
      ℕ → UserMap → PacketHeader → Bytes → Action (State W) (Unit {0})
  handle_session_history uid user_map header body = lift (unpack_session_history body) >>= λ p.
      call svc (svc.handle_session_history_packet header p user_map)
      >> take_stints uid user_map header p

  -- Packet 15.
  unfoldable pub handle_lap_positions :
      ℕ → UserMap → PacketHeader → Bytes → Action (State W) (Unit {0})
  handle_lap_positions uid user_map header body d = elim (svc.get_session_type uid d.services) [
    | none ↦ (ok tt, d)
    | some t ↦
        when (is_race_type t)
          (lift (unpack_lap_positions body) >>= λ p.
            call svc (svc.handle_lap_positions_packet header p user_map))
          d
  ]
