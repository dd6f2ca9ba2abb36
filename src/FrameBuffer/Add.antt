-- ===== src/FrameBuffer/Add.antt =====
-- `add` of listener/frame_buffer.py: a packet of a higher frame ends the frame before it.
use mathlib.Core.Path.{subst}
use formula1_app.Prelude.{
  ℕ, ◌≡◌, ◌≢◌, refl, Bool, false, ◌&&◌, Option, none, some, [], ◌∷◌, arith, ltb, if◌then◌else◌,
  ◌==◌, Option-cases, Bool-cases, inl, inr,
}
use formula1_app.Prelude.Eq.{nat_eq}
use formula1_app.Dict
use formula1_app.Dict.{Dict}
use formula1_app.Dict.Laws.{lookup-put, put-Distinct}
use formula1_app.Bounded
use formula1_app.Bounded.{BoundedDict}
use formula1_app.Bounded.Entries.{get-set_item_same}
use formula1_app.Bounded.Laws
use formula1_app.Bounded.Laws.{
  get-set_item, get-alter, victim, drops, has_of_get, victim_of_has, Room, drops_of_Room,
  alter-Room, pop-Room,
}
use formula1_app.FrameBuffer.{Packets, Frames, FrameBuffer, end_current, put_packet, store, add}
use formula1_app.FrameBuffer.Laws.{
  pending, Filled, IsValid, emit, pending-flush_frame, state-flush_frame, flush_frame-IsValid,
  flush_frame-Room, alter-IsValid, pending_in,
}

module _ {P : Type 0} where
  -- The packets of a frame, and none for a frame that is not there.
  abbrev pub packets_or_empty : Option (Packets P) → Packets P
  packets_or_empty none = []
  packets_or_empty (some ps) = ps

  lookup-nil : (k : ℕ) → Dict.lookup {V = Packets P} k [] ≡ none
  unfolding Dict.lookup
  lookup-nil k = refl

  put_ne_nil : (k : ℕ) (p : P) (d : Packets P) → Dict.put k p d ≢ []
  unfolding Dict.put
  put_ne_nil k p [] e = cc
  put_ne_nil k p ((j, q) ∷ d) e = ground arith

  lookup-put_packet :
      (frame_id packet_id i : ℕ) (p : P) (f : Frames P)
      → Dict.lookup i (put_packet frame_id packet_id p f) ≡ (
          if i == frame_id
          then some (Dict.put packet_id p (packets_or_empty (Dict.lookup frame_id f)))
          else Dict.lookup i f)
  unfolding put_packet
  lookup-put_packet frame_id packet_id i p f = ground (
    arith,
    lookup-put i frame_id (Dict.put packet_id p (packets_or_empty (Dict.lookup frame_id f))) f,
  )

  put_packet-Distinct :
      (frame_id packet_id : ℕ) (p : P) (f : Frames P)
      → Dict.Distinct f
      → Dict.Distinct (put_packet frame_id packet_id p f)
  unfolding put_packet
  put_packet-Distinct frame_id packet_id p f h = put-Distinct frame_id _ f h

  put_packet-Filled :
      (frame_id packet_id : ℕ) (p : P) (f : Frames P)
      → Filled f
      → Filled (put_packet frame_id packet_id p f)
  put_packet-Filled frame_id packet_id p f h i e =
      let ps = packets_or_empty (Dict.lookup frame_id f) in
      ground (arith, lookup-put_packet frame_id packet_id i p f, h i, put_ne_nil packet_id p ps)

  -- Every session but the one that the write dropped keeps its frames.
  pub pending-store :
      (b : FrameBuffer P) (uid frame_id packet_id u i : ℕ) (p : P)
      → IsValid b
      → pending (record b { frames = store uid frame_id packet_id p b.frames }) u i ≡ (
          if u == uid
          then (if i == frame_id
              then some (Dict.put packet_id p (packets_or_empty (pending b uid frame_id)))
              else pending b uid i)
          else if drops b.frames uid u
          then none
          else pending b u i)
  unfolding pending_in store
  pending-store b uid frame_id packet_id u i p h = elim (Option-cases (Bounded.get b.frames uid)) [
    | inl e ↦ ground (
      arith,
      e,
      get-set_item b.frames u uid [] h.frames_valid,
      get-alter (Bounded.set_item b.frames uid []) u uid (put_packet frame_id packet_id p []),
      lookup-put_packet frame_id packet_id i p [],
      has_of_get (Bounded.set_item b.frames uid []) uid [],
      get-set_item b.frames uid uid [] h.frames_valid,
      lookup-nil frame_id,
      lookup-nil i,
    )
    | inr (f, e) ↦ ground (
      arith,
      e,
      get-alter b.frames u uid (put_packet frame_id packet_id p f),
      lookup-put_packet frame_id packet_id i p f,
      has_of_get b.frames uid f e,
      victim_of_has b.frames uid,
    )
  ]

  set_item-IsValid :
      (b : FrameBuffer P) (uid : ℕ) (g : Frames P)
      → IsValid b
      → Dict.Distinct g
      → Filled g
      → IsValid (record b { frames = Bounded.set_item b.frames uid g })
  set_item-IsValid b uid g h d full = record {
    frames_valid = Laws.set_item-IsValid b.frames uid g h.frames_valid;
    current_valid = h.current_valid;
    distinct = λ u f e. written u f Dict.Distinct d (h.distinct u f) e;
    filled = λ u f e. written u f Filled full (h.filled u f) e;
  }
    where
      written :
          (u : ℕ) (f : Frames P) (Q : Frames P → Type 0)
          → Q g
          → (Bounded.get b.frames u ≡ some f → Q f)
          → Bounded.get (Bounded.set_item b.frames uid g) u ≡ some f
          → Q f
      written u f Q q other e = elim (Bool-cases (u == uid)) [
        | inl same ↦
            let eq : g ≡ f = ground (arith, get-set_item b.frames u uid g h.frames_valid) in
            subst Q eq q
        | inr differ ↦ other (ground (arith, get-set_item b.frames u uid g h.frames_valid))
      ]

  store-IsValid :
      (b : FrameBuffer P) (uid frame_id packet_id : ℕ) (p : P)
      → IsValid b
      → IsValid (record b { frames = store uid frame_id packet_id p b.frames })
  unfolding store
  store-IsValid b uid frame_id packet_id p h = elim (Option-cases (Bounded.get b.frames uid)) [
    | inl e ↦
        rw (e, store)
          (alter-IsValid (record b { frames = Bounded.set_item b.frames uid [] }) uid
            (put_packet frame_id packet_id p [])
            (set_item-IsValid b uid [] h tt (λ i e. ground (arith, lookup-nil i)))
            (put_packet-Distinct frame_id packet_id p [] tt)
            (put_packet-Filled frame_id packet_id p [] (λ i e. ground (arith, lookup-nil i))))
    | inr (f, e) ↦
        rw (e, store)
          (alter-IsValid b uid (put_packet frame_id packet_id p f) h
            (put_packet-Distinct frame_id packet_id p f (h.distinct uid f e))
            (put_packet-Filled frame_id packet_id p f (h.filled uid f e)))
  ]

module _ {P S : Type 0} (flush : ℕ → ℕ → Packets P → S → S) where
  -- The frame that a packet of `frame_id` ends.
  abbrev pub ends : Option ℕ → ℕ → ℕ → Bool
  ends none frame_id i = false
  ends (some current) frame_id i = ltb current frame_id && i == current

  -- A packet does not end its own frame.
  not_ends : (current : Option ℕ) (frame_id : ℕ) → ends current frame_id frame_id ≡ false
  not_ends none frame_id = refl
  not_ends (some c) frame_id = ground arith

  end_current-IsValid :
      (b : FrameBuffer P) (s : S) (uid frame_id : ℕ) (current : Option ℕ)
      → IsValid b
      → IsValid (end_current flush uid frame_id current (b, s)).0
  unfolding end_current
  end_current-IsValid b s uid frame_id none h = h
  end_current-IsValid b s uid frame_id (some c) h = elim (Bool-cases (ltb c frame_id)) [
    | inl e ↦ rw e (flush_frame-IsValid flush b s uid c h)
    | inr e ↦ rw e h
  ]

  end_current-Room :
      (b : FrameBuffer P) (s : S) (uid frame_id : ℕ) (current : Option ℕ)
      → IsValid b
      → Room b.frames uid
      → Room (end_current flush uid frame_id current (b, s)).0.frames uid
  unfolding end_current
  end_current-Room b s uid frame_id none h r = r
  end_current-Room b s uid frame_id (some c) h r = elim (Bool-cases (ltb c frame_id)) [
    | inl e ↦ rw e (flush_frame-Room flush b s uid c h r)
    | inr e ↦ rw e r
  ]

  pending-end_current :
      (b : FrameBuffer P) (s : S) (uid frame_id u i : ℕ) (current : Option ℕ)
      → IsValid b
      → pending (end_current flush uid frame_id current (b, s)).0 u i
        ≡ (if u == uid && ends current frame_id i then none else pending b u i)
  unfolding end_current
  pending-end_current b s uid frame_id u i none h = ground arith
  pending-end_current b s uid frame_id u i (some c) h =
      ground (arith, pending-flush_frame flush b s uid c u i h)

  -- In a valid buffer that has the session already or has room for it, adding a packet files it
  -- under its frame and packet id, forgets the session's current frame if the packet's frame is
  -- higher, and leaves every other pending frame of every session as it was.
  pub pending-add :
      (b : FrameBuffer P) (s : S) (uid frame_id packet_id u i : ℕ) (p : P)
      → IsValid b
      → Room b.frames uid
      → pending (add flush uid frame_id packet_id p (b, s)).0 u i ≡ (
          if u == uid && i == frame_id
          then some (Dict.put packet_id p (packets_or_empty (pending b uid frame_id)))
          else if u == uid && ends (Bounded.get b.current_frame uid) frame_id i
          then none
          else pending b u i)
  unfolding add
  pending-add b s uid frame_id packet_id u i p h r =
      let current = Bounded.get b.current_frame uid in
      let ended = (end_current flush uid frame_id current (b, s)).0 in
      let valid = end_current-IsValid b s uid frame_id current h in
      ground (
        arith,
        pending-store ended uid frame_id packet_id u i p valid,
        drops_of_Room ended.frames uid u (end_current-Room b s uid frame_id current h r),
        pending-end_current b s uid frame_id uid frame_id current h,
        pending-end_current b s uid frame_id u i current h,
        not_ends current frame_id,
      )

  pub current_frame-add :
      (b : FrameBuffer P) (s : S) (uid frame_id packet_id : ℕ) (p : P)
      → IsValid b
      → Bounded.get (add flush uid frame_id packet_id p (b, s)).0.current_frame uid ≡ some frame_id
  unfolding add
  current_frame-add b s uid frame_id packet_id p h =
      let current = Bounded.get b.current_frame uid in
      let ended = (end_current flush uid frame_id current (b, s)).0 in
      get-set_item_same ended.current_frame uid frame_id
        (end_current-IsValid b s uid frame_id current h).current_valid

  -- In a valid buffer, adding a packet calls the flush callback at most once: with the session's
  -- current frame and the packets kept for it, when the packet's frame is higher.
  pub state-add :
      (b : FrameBuffer P) (s : S) (uid frame_id packet_id : ℕ) (p : P)
      → IsValid b
      → (add flush uid frame_id packet_id p (b, s)).1 ≡ elim (Bounded.get b.current_frame uid) [
        | none ↦ s
        | some c ↦ if ltb c frame_id then emit flush uid c (pending b uid c) s else s
      ]
  unfolding add end_current
  state-add b s uid frame_id packet_id p h = elim (Option-cases (Bounded.get b.current_frame uid)) [
    | inl e ↦ rw e
    | inr (c, e) ↦ rw e (ground (arith, state-flush_frame flush b s uid c h))
  ]

  -- Adding a packet keeps the buffer valid: size bounds, distinct frame identifiers, and no frame
  -- without packets.
  pub add-IsValid :
      (b : FrameBuffer P) (s : S) (uid frame_id packet_id : ℕ) (p : P)
      → IsValid b
      → IsValid (add flush uid frame_id packet_id p (b, s)).0
  unfolding add
  add-IsValid b s uid frame_id packet_id p h =
      let current = Bounded.get b.current_frame uid in
      let ended = (end_current flush uid frame_id current (b, s)).0 in
      let valid = end_current-IsValid b s uid frame_id current h in
      let stored = store-IsValid ended uid frame_id packet_id p valid in
      record {
        frames_valid = stored.frames_valid;
        current_valid = Laws.set_item-IsValid ended.current_frame uid frame_id valid.current_valid;
        distinct = stored.distinct;
        filled = stored.filled;
      }
