-- ===== src/FrameBuffer.antt =====
-- listener/frame_buffer.py: the packets of one simulation tick are kept until the tick is over.
-- The payload of a packet (its header and body) is a type `P`. The flush callback works on a state
-- `S`, which is the dispatcher's, and its exceptions are dropped, as `_flush_frame` drops them.
-- `time.monotonic()` is the argument `now`, in microseconds.
pub mod Laws
pub mod Add
pub mod Session
pub mod Periodic
pub mod Keeps
use formula1_app.Prelude.{
  ℕ, ◌-◌, ◌*◌, ◌++◌, ◌<◌, Bool, true, false, not, ◌&&◌, Option, none, some, List, [], ◌∷◌, ltb, leb,
  is_empty, ◌==◌, if◌then◌else◌,
}
use formula1_app.Prelude.Eq.{nat_eq}
use formula1_app.Dict
use formula1_app.Dict.{Dict, keys}
use formula1_app.Bounded
use formula1_app.Bounded.{BoundedDict}

-- FLUSH_INTERVAL_MS and MAX_SESSIONS
abbrev pub flush_interval_ms : ℕ
flush_interval_ms = 100

abbrev pub max_sessions : ℕ
max_sessions = 20

-- A frame identifier's packets, by packet id.
abbrev pub Packets : Type 0 → Type 0
Packets P = Dict ℕ P

abbrev pub Frames : Type 0 → Type 0
Frames P = Dict ℕ (Packets P)

pub record FrameBuffer (P : Type 0) : Type 0 where
  pub frames : BoundedDict ℕ (Frames P)
  pub current_frame : BoundedDict ℕ ℕ
  pub last_flush_time : ℕ

abbrev pub init : {P : Type 0} → ℕ → FrameBuffer P
init now = record {
  frames = Bounded.init max_sessions;
  current_frame = Bounded.init max_sessions;
  last_flush_time = now;
}

-- `frames.get(uid) or {}`
abbrev pub frames_or_empty : {P : Type 0} → Option (Frames P) → Frames P
frames_or_empty none = []
frames_or_empty (some f) = f

-- `sorted(frames.keys())`, by insertion.
unfoldable pub insert : ℕ → List ℕ → List ℕ
insert x [] = x ∷ []
insert x (y ∷ ys) = if leb x y then x ∷ y ∷ ys else y ∷ insert x ys

unfoldable pub sorted : List ℕ → List ℕ
unfolding insert
sorted [] = []
sorted (x ∷ xs) = insert x (sorted xs)

-- The frames of one session that are not its current one.
unfoldable pub stale_of : ℕ → Option ℕ → List ℕ → List (ℕ × ℕ)
stale_of uid current [] = []
stale_of uid current (i ∷ is) =
    let rest = stale_of uid current is in
    elim current [ none ↦ (uid, i) ∷ rest | some c ↦ if i == c then rest else (uid, i) ∷ rest ]

module _ {P : Type 0} where
  -- `session_frames.setdefault(frame_identifier, {})[packet_id] = (header, body)`
  unfoldable pub put_packet : ℕ → ℕ → P → Frames P → Frames P
  put_packet frame_id packet_id p frames =
      Dict.put frame_id
        (Dict.put packet_id p (elim (Dict.lookup frame_id frames) [ none ↦ [] | some ps ↦ ps ]))
        frames

  -- The last statements of `add`: the session's frames, made if they are missing, take the packet.
  unfoldable pub store : ℕ → ℕ → ℕ → P → BoundedDict ℕ (Frames P) → BoundedDict ℕ (Frames P)
  store uid frame_id packet_id p frames = elim (Bounded.get frames uid) [
    | none ↦ Bounded.alter (Bounded.set_item frames uid []) uid (put_packet frame_id packet_id p [])
    | some session ↦ Bounded.alter frames uid (put_packet frame_id packet_id p session)
  ]

  unfoldable pub stale : FrameBuffer P → List ℕ → List (ℕ × ℕ)
  stale b [] = []
  stale b (uid ∷ uids) =
      stale_of uid (Bounded.get b.current_frame uid)
        (keys (frames_or_empty (Bounded.get b.frames uid)))
      ++ stale b uids

  -- `discard_session`
  unfoldable pub discard_session : ℕ → FrameBuffer P → FrameBuffer P
  discard_session uid b = record b {
    frames = Bounded.pop b.frames uid;
    current_frame = Bounded.pop b.current_frame uid;
  }

module _ {P S : Type 0} (flush : ℕ → ℕ → Packets P → S → S) where
  -- The part of `_flush_frame` behind `frames.pop(frame_id, None)`: `packets` is what was popped
  -- and `rest` is the session's frames without it.
  unfoldable pub flush_popped :
      ℕ → ℕ → Frames P → Option (Packets P) → FrameBuffer P × S → FrameBuffer P × S
  flush_popped uid frame_id rest none (b, s) = (b, s)
  flush_popped uid frame_id rest (some []) (b, s) =
      (record b { frames = Bounded.alter b.frames uid rest }, s)
  flush_popped uid frame_id rest (some (p ∷ packets)) (b, s) = (
    record b {
      frames = if is_empty rest then Bounded.pop b.frames uid else Bounded.alter b.frames uid rest;
    },
    flush uid frame_id (p ∷ packets) s,
  )

  -- `_flush_frame`
  unfoldable pub flush_frame : ℕ → ℕ → FrameBuffer P × S → FrameBuffer P × S
  flush_frame uid frame_id (b, s) = elim (Bounded.get b.frames uid) [
    | none ↦ (b, s)
    | some frames ↦
        flush_popped uid frame_id (Dict.remove frame_id frames) (Dict.lookup frame_id frames) (b, s)
  ]

  unfoldable pub flush_all : ℕ → List ℕ → FrameBuffer P × S → FrameBuffer P × S
  flush_all uid [] st = st
  flush_all uid (i ∷ is) st = flush_all uid is (flush_frame uid i st)

  -- The first statements of `add`: a higher frame of the session ends the current one.
  unfoldable pub end_current : ℕ → ℕ → Option ℕ → FrameBuffer P × S → FrameBuffer P × S
  end_current uid frame_id none st = st
  end_current uid frame_id (some current) st =
      if ltb current frame_id then flush_frame uid current st else st

  -- `add`
  unfoldable pub add : ℕ → ℕ → ℕ → P → FrameBuffer P × S → FrameBuffer P × S
  add uid frame_id packet_id p (b, s) =
      let (b', s') = end_current uid frame_id (Bounded.get b.current_frame uid) (b, s) in
      (
        record b' {
          frames = store uid frame_id packet_id p b'.frames;
          current_frame = Bounded.set_item b'.current_frame uid frame_id;
        },
        s',
      )

  unfoldable pub flush_each : List (ℕ × ℕ) → FrameBuffer P × S → FrameBuffer P × S
  flush_each [] st = st
  flush_each ((uid, i) ∷ rest) st = flush_each rest (flush_frame uid i st)

  -- `check_periodic_flush`
  unfoldable pub check_periodic_flush : ℕ → FrameBuffer P × S → FrameBuffer P × S
  check_periodic_flush now (b, s) =
      if ltb (now - b.last_flush_time) (flush_interval_ms * 1000)
      then (b, s)
      else flush_each (stale b (keys b.frames.entries)) (record b { last_flush_time = now }, s)

  -- `flush_session`
  unfoldable pub flush_session : ℕ → FrameBuffer P × S → FrameBuffer P × S
  flush_session uid (b, s) = elim (Bounded.get b.frames uid) [
    | none ↦ (b, s)
    | some frames ↦
        let (b', s') = flush_all uid (sorted (keys frames)) (b, s) in (discard_session uid b', s')
  ]
