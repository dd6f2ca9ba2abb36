-- ===== src/FrameBuffer/Periodic.antt =====
-- `check_periodic_flush` of listener/frame_buffer.py: the frames that no session is at any more are
-- flushed when the interval is over.
use formula1_app.Prelude.{
  ℕ, ◌-◌, ◌*◌, ◌++◌, ◌≡◌, ◌∙◌, refl, ◌⊎◌, Bool, true, false, not, ◌&&◌, ◌||◌, Option, none, some,
  List, [], ◌∷◌, arith, ltb, if◌then◌else◌, if_both, ◌==◌, Option-cases, Bool-cases, inl, inr,
}
use formula1_app.Prelude.Eq.{nat_eq}
use formula1_app.Dict
use formula1_app.Dict.{Dict, keys}
use formula1_app.Dict.Laws.{lookup-present}
use formula1_app.Bounded
use formula1_app.Bounded.{BoundedDict}
use formula1_app.Bounded.Laws.{has_of_get}
use formula1_app.FrameBuffer.{
  Packets, Frames, FrameBuffer, flush_interval_ms, frames_or_empty, flush_popped, flush_frame,
  stale_of, stale, flush_each, check_periodic_flush,
}
use formula1_app.FrameBuffer.Laws.{
  pending, pending_in, IsValid, pending-flush_frame, flush_frame-IsValid,
}
use formula1_app.FrameBuffer.Session.{mem, mem-keys}

abbrev pub mem_pair : ℕ → ℕ → List (ℕ × ℕ) → Bool
mem_pair u i [] = false
mem_pair u i ((v, j) ∷ l) = u == v && i == j || mem_pair u i l

mem_pair-append :
    (u i : ℕ) (l m : List (ℕ × ℕ)) → mem_pair u i (l ++ m) ≡ (mem_pair u i l || mem_pair u i m)
mem_pair-append u i [] m = refl
mem_pair-append u i ((v, j) ∷ l) m = ground (arith, mem_pair-append u i l m)

-- The frame is the session's current one.
abbrev pub is_current : Option ℕ → ℕ → Bool
is_current none i = false
is_current (some c) i = i == c

mem_pair-stale_of :
    (u i uid : ℕ) (current : Option ℕ) (is : List ℕ)
    → mem_pair u i (stale_of uid current is)
      ≡ (u == uid && (mem i is && not (is_current current i)))
unfolding stale_of
mem_pair-stale_of u i uid current [] = ground arith
mem_pair-stale_of u i uid none (j ∷ is) = ground (arith, mem_pair-stale_of u i uid none is)
mem_pair-stale_of u i uid (some c) (j ∷ is) = ground (arith, mem_pair-stale_of u i uid (some c) is)

module _ {P : Type 0} where
  -- The frames that the sweep picks: those of the listed sessions that are not current.
  mem_pair-stale :
      (b : FrameBuffer P) (u i : ℕ) (uids : List ℕ)
      → mem_pair u i (stale b uids) ≡ (
          mem u uids
          && (mem i (keys (frames_or_empty (Bounded.get b.frames u)))
              && not (is_current (Bounded.get b.current_frame u) i)))
  unfolding stale
  mem_pair-stale b u i [] = refl
  mem_pair-stale b u i (uid ∷ uids) =
      let fs = keys (frames_or_empty (Bounded.get b.frames uid)) in
      let c = Bounded.get b.current_frame uid in
      ground (
        arith,
        mem_pair-append u i (stale_of uid c fs) (stale b uids),
        mem_pair-stale_of u i uid c fs,
        mem_pair-stale b u i uids,
      )

module _ {P S : Type 0} (flush : ℕ → ℕ → Packets P → S → S) where
  pub flush_each-IsValid :
      (b : FrameBuffer P) (s : S) (l : List (ℕ × ℕ))
      → IsValid b
      → IsValid (flush_each flush l (b, s)).0
  unfolding flush_each
  flush_each-IsValid b s [] h = h
  flush_each-IsValid b s ((uid, i) ∷ l) h =
      let after = flush_frame flush uid i (b, s) in
      flush_each-IsValid after.0 after.1 l (flush_frame-IsValid flush b s uid i h)

  pending-flush_each :
      (b : FrameBuffer P) (s : S) (l : List (ℕ × ℕ)) (u i : ℕ)
      → IsValid b
      → pending (flush_each flush l (b, s)).0 u i ≡ (if mem_pair u i l then none else pending b u i)
  unfolding flush_each
  pending-flush_each b s [] u i h = refl
  pending-flush_each b s ((uid, j) ∷ l) u i h =
      let after = flush_frame flush uid j (b, s) in
      let valid = flush_frame-IsValid flush b s uid j h in
      ground (
        arith,
        pending-flush_each after.0 after.1 l u i valid,
        pending-flush_frame flush b s uid j u i h,
      )

  -- A frame with packets is one of the frames that the sweep goes over.
  swept :
      (b : FrameBuffer P) (u i : ℕ)
      → (pending b u i ≡ none)
        ⊎ ((mem u (keys b.frames.entries) ≡ true)
            × (mem i (keys (frames_or_empty (Bounded.get b.frames u))) ≡ true))
  unfolding pending_in Bounded.has
  swept b u i = elim (Option-cases (Bounded.get b.frames u)) [
    | inl e ↦ inl (rw (e, pending_in))
    | inr (f, e) ↦ elim (Option-cases (Dict.lookup i f)) [
      | inl m ↦ inl (rw (e, pending_in) m)
      | inr (ps, m) ↦ inr (
        mem-keys u b.frames.entries ∙ has_of_get b.frames u f e,
        rw e (mem-keys i f ∙ lookup-present i f ps m),
      )
    ]
  ]

  last_flush_time-flush_frame :
      (b : FrameBuffer P) (s : S) (uid i : ℕ)
      → (flush_frame flush uid i (b, s)).0.last_flush_time ≡ b.last_flush_time
  unfolding flush_frame flush_popped
  last_flush_time-flush_frame b s uid i = elim (Option-cases (Bounded.get b.frames uid)) [
    | inl e ↦ rw (flush_frame, e) refl
    | inr (f, e) ↦ rw (flush_frame, e) (popped (Dict.remove i f) (Dict.lookup i f))
  ]
    where
      popped :
          (rest : Frames P) (o : Option (Packets P))
          → (flush_popped flush uid i rest o (b, s)).0.last_flush_time ≡ b.last_flush_time
      popped rest none = refl
      popped rest (some []) = refl
      popped rest (some (p ∷ packets)) = refl

  last_flush_time-flush_each :
      (b : FrameBuffer P) (s : S) (l : List (ℕ × ℕ))
      → (flush_each flush l (b, s)).0.last_flush_time ≡ b.last_flush_time
  unfolding flush_each
  last_flush_time-flush_each b s [] = refl
  last_flush_time-flush_each b s ((uid, j) ∷ l) =
      let after = flush_frame flush uid j (b, s) in
      last_flush_time-flush_each after.0 after.1 l ∙ last_flush_time-flush_frame b s uid j

  -- On a valid buffer the periodic sweep leaves the pending frames within its interval, and after
  -- it keeps of each session the current frame only.
  pub pending-check_periodic_flush :
      (b : FrameBuffer P) (s : S) (now u i : ℕ)
      → IsValid b
      → pending (check_periodic_flush flush now (b, s)).0 u i ≡ (
          if ltb (now - b.last_flush_time) (flush_interval_ms * 1000)
          then pending b u i
          else if is_current (Bounded.get b.current_frame u) i
          then pending b u i
          else none)
  unfolding check_periodic_flush
  pending-check_periodic_flush b s now u i h =
      let l = stale b (keys b.frames.entries) in
      ground (
        arith,
        pending-flush_each (record b { last_flush_time = now }) s l u i
            (record {
              frames_valid = h.frames_valid;
              current_valid = h.current_valid;
              distinct = h.distinct;
              filled = h.filled;
            }),
        mem_pair-stale b u i (keys b.frames.entries),
        swept b u i,
      )

  -- On a valid buffer the periodic sweep, within its interval, changes neither the buffer nor the
  -- callback's state. The time of the last sweep is then the present time if the interval was over,
  -- and what it was otherwise; and after the interval the sweep keeps of each session the current
  -- frame only.
  pub check_periodic_flush_lem :
      (b : FrameBuffer P) (s : S) (now u i : ℕ)
      → IsValid b
      → let within = ltb (now - b.last_flush_time) (flush_interval_ms * 1000) in
        let after = check_periodic_flush flush now (b, s) in
        ((if within then after else (b, s)) ≡ (b, s))
        × (after.0.last_flush_time ≡ (if within then b.last_flush_time else now))
        × (pending after.0 u i ≡ (
            if within || is_current (Bounded.get b.current_frame u) i then pending b u i else none))
  unfolding check_periodic_flush
  check_periodic_flush_lem b s now u i h =
      elim (Bool-cases (ltb (now - b.last_flush_time) (flush_interval_ms * 1000))) [
        | inl e ↦ rw e (refl, refl, refl)
        | inr e ↦ (
          rw e refl,
          rw e (
              last_flush_time-flush_each (record b { last_flush_time = now }) s
                (stale b (keys b.frames.entries))),
          rw (pending-check_periodic_flush b s now u i h, e) (ground (arith)),
        )
      ]

  pub check_periodic_flush-IsValid :
      (b : FrameBuffer P) (s : S) (now : ℕ)
      → IsValid b
      → IsValid (check_periodic_flush flush now (b, s)).0
  unfolding check_periodic_flush
  check_periodic_flush-IsValid b s now h =
      if_both (λ (r : FrameBuffer P × S). IsValid r.0)
        (ltb (now - b.last_flush_time) (flush_interval_ms * 1000)) h
        (flush_each-IsValid (record b { last_flush_time = now }) s (stale b (keys b.frames.entries))
          (record {
            frames_valid = h.frames_valid;
            current_valid = h.current_valid;
            distinct = h.distinct;
            filled = h.filled;
          }))
