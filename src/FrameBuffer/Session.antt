-- ===== src/FrameBuffer/Session.antt =====
-- `flush_session` and `discard_session` of listener/frame_buffer.py: the end of a session writes
-- its frames in ascending order; a flashback drops them.
use formula1_app.Prelude.{
  ℕ, ◌<◌, ◌≡◌, refl, Bool, false, ◌&&◌, ◌||◌, none, some, List, [], ◌∷◌, arith, leb, if◌then◌else◌,
  ◌==◌, ap, ◌∙◌, Option-cases, Bool-cases, inl, inr, All,
}
use formula1_app.Prelude.Eq.{nat_eq}
use formula1_app.Dict
use formula1_app.Dict.{Dict, keys}
use formula1_app.Bounded
use formula1_app.Bounded.{BoundedDict}
use formula1_app.Bounded.Laws
use formula1_app.Bounded.Laws.{get-pop}
use formula1_app.FrameBuffer.{
  Packets, Frames, FrameBuffer, flush_frame, flush_all, discard_session, flush_session, insert,
  sorted,
}
use formula1_app.FrameBuffer.Laws.{
  pending, pending_in, IsValid, emit, pending-flush_frame, state-flush_frame, flush_frame-IsValid,
  pop-IsValid,
}

-- Strictly ascending: no frame twice.
abbrev pub Ascending : List ℕ → Type 0
Ascending [] = Unit
Ascending (x ∷ xs) = All (λ y. x < y) xs × Ascending xs

abbrev pub mem : ℕ → List ℕ → Bool
mem i [] = false
mem i (x ∷ xs) = i == x || mem i xs

mem-insert : (i x : ℕ) (xs : List ℕ) → mem i (insert x xs) ≡ (i == x || mem i xs)
unfolding insert
mem-insert i x [] = refl
mem-insert i x (y ∷ ys) = ground (arith, mem-insert i x ys)

-- `sorted` has the members of its list.
pub mem-sorted : (i : ℕ) (xs : List ℕ) → mem i (sorted xs) ≡ mem i xs
unfolding sorted
mem-sorted i [] = refl
mem-sorted i (x ∷ xs) = ground (arith, mem-insert i x (sorted xs), mem-sorted i xs)

All-weaken : (x y : ℕ) (ys : List ℕ) → x < y → All (λ z. y < z) ys → All (λ z. x < z) ys
All-weaken x y [] h a = tt
All-weaken x y (z ∷ zs) h a = (omega arith, All-weaken x y zs h a.1)

All-insert : (y x : ℕ) (xs : List ℕ) → y < x → All (λ z. y < z) xs → All (λ z. y < z) (insert x xs)
unfolding insert
All-insert y x [] h a = (h, tt)
All-insert y x (z ∷ zs) h a = elim (Bool-cases (leb x z)) [
  | inl e ↦ rw e (h, a)
  | inr e ↦ rw e (a.0, All-insert y x zs h a.1)
]

insert-Ascending : (x : ℕ) (xs : List ℕ) → mem x xs ≡ false → Ascending xs → Ascending (insert x xs)
unfolding insert
insert-Ascending x [] m a = (tt, tt)
insert-Ascending x (z ∷ zs) m a = elim (Bool-cases (leb x z)) [
  | inl e ↦ let lt : x < z = ground arith in rw e ((lt, All-weaken x z zs lt a.0), a)
  | inr e ↦ rw e (All-insert z x zs (ground arith) a.0, insert-Ascending x zs (ground arith) a.1)
]

pub mem-keys : {V : Type 0} (k : ℕ) (d : Dict ℕ V) → mem k (keys d) ≡ Dict.contains k d
unfolding Dict.contains
mem-keys k [] = refl
mem-keys k ((j, v) ∷ d) = ground (arith, mem-keys k d)

-- The frames of a session, sorted, ascend.
pub sorted-Ascending : {V : Type 0} (d : Dict ℕ V) → Dict.Distinct d → Ascending (sorted (keys d))
unfolding sorted
sorted-Ascending [] h = tt
sorted-Ascending ((k, v) ∷ d) h =
    insert-Ascending k (sorted (keys d)) (ground (arith, mem-sorted k (keys d), mem-keys k d))
      (sorted-Ascending d h.1)

module _ {P : Type 0} where
  -- Discarding a session of a valid buffer forgets its pending frames and its current frame, and no
  -- other session's.
  pub pending-discard_session :
      (b : FrameBuffer P) (uid u j : ℕ)
      → IsValid b
      → (pending (discard_session uid b) u j ≡ (if u == uid then none else pending b u j))
        × (Bounded.get (discard_session uid b).current_frame u
            ≡ (if u == uid then none else Bounded.get b.current_frame u))
  unfolding discard_session pending_in
  pending-discard_session b uid u j h = (
    ground (arith, get-pop b.frames u uid h.frames_valid),
    get-pop b.current_frame u uid h.current_valid,
  )

  pub pending-none :
      (b : FrameBuffer P) (uid j : ℕ) → Bounded.get b.frames uid ≡ none → pending b uid j ≡ none
  unfolding pending_in
  pending-none b uid j e = rw (e, pending_in)

  pub discard_session-IsValid :
      (b : FrameBuffer P) (uid : ℕ) → IsValid b → IsValid (discard_session uid b)
  unfolding discard_session
  discard_session-IsValid b uid h =
      let popped = pop-IsValid b uid h in
      record {
        frames_valid = popped.frames_valid;
        current_valid = Laws.pop-IsValid b.current_frame uid h.current_valid;
        distinct = popped.distinct;
        filled = popped.filled;
      }

module _ {P S : Type 0} (flush : ℕ → ℕ → Packets P → S → S) where
  -- The callback at each frame of a list in turn, with the packets that the buffer holds.
  unfoldable pub emit_all : FrameBuffer P → ℕ → List ℕ → S → S
  emit_all b uid [] s = s
  emit_all b uid (i ∷ is) s = emit_all b uid is (emit flush uid i (pending b uid i) s)

  emit_all-cong :
      (b c : FrameBuffer P) (uid : ℕ) (is : List ℕ) (s : S)
      → All (λ i. pending b uid i ≡ pending c uid i) is
      → emit_all b uid is s ≡ emit_all c uid is s
  unfolding emit_all
  emit_all-cong b c uid [] s h = refl
  emit_all-cong b c uid (i ∷ is) s h =
      rw h.0 (emit_all-cong b c uid is (emit flush uid i (pending c uid i) s) h.1)

  kept-flush_frame :
      (b : FrameBuffer P) (s : S) (uid i : ℕ) (is : List ℕ)
      → IsValid b
      → All (λ j. i < j) is
      → All (λ j. pending (flush_frame flush uid i (b, s)).0 uid j ≡ pending b uid j) is
  kept-flush_frame b s uid i [] h a = tt
  kept-flush_frame b s uid i (j ∷ is) h a = (
    ground (arith, a.0, pending-flush_frame flush b s uid i uid j h),
    kept-flush_frame b s uid i is h a.1,
  )

  -- A flush of ascending frames gives the callback what the buffer held at each, in that order.
  state-flush_all :
      (b : FrameBuffer P) (s : S) (uid : ℕ) (is : List ℕ)
      → IsValid b
      → Ascending is
      → (flush_all flush uid is (b, s)).1 ≡ emit_all b uid is s
  unfolding flush_all emit_all
  state-flush_all b s uid [] h a = refl
  state-flush_all b s uid (i ∷ is) h a =
      let after = flush_frame flush uid i (b, s) in
      state-flush_all after.0 after.1 uid is (flush_frame-IsValid flush b s uid i h) a.1
      ∙ emit_all-cong after.0 b uid is after.1 (kept-flush_frame b s uid i is h a.0)
      ∙ ap (λ t. emit_all b uid is t) (state-flush_frame flush b s uid i h)

  pub flush_all-IsValid :
      (b : FrameBuffer P) (s : S) (uid : ℕ) (is : List ℕ)
      → IsValid b
      → IsValid (flush_all flush uid is (b, s)).0
  unfolding flush_all
  flush_all-IsValid b s uid [] h = h
  flush_all-IsValid b s uid (i ∷ is) h =
      let after = flush_frame flush uid i (b, s) in
      flush_all-IsValid after.0 after.1 uid is (flush_frame-IsValid flush b s uid i h)

  pending-flush_all :
      (b : FrameBuffer P) (s : S) (uid : ℕ) (is : List ℕ) (u j : ℕ)
      → IsValid b
      → pending (flush_all flush uid is (b, s)).0 u j
        ≡ (if u == uid && mem j is then none else pending b u j)
  unfolding flush_all
  pending-flush_all b s uid [] u j h = ground arith
  pending-flush_all b s uid (i ∷ is) u j h =
      let after = flush_frame flush uid i (b, s) in
      let valid = flush_frame-IsValid flush b s uid i h in
      ground (
        arith,
        pending-flush_all after.0 after.1 uid is u j valid,
        pending-flush_frame flush b s uid i u j h,
      )

  -- Flushing a session that a valid buffer holds calls the callback with exactly its frames, each
  -- once, in strictly ascending order, with the packets that the buffer kept.
  pub state-flush_session :
      (b : FrameBuffer P) (s : S) (uid : ℕ) (f : Frames P)
      → IsValid b
      → Bounded.get b.frames uid ≡ some f
      → ((flush_session flush uid (b, s)).1 ≡ emit_all b uid (sorted (keys f)) s)
        × Ascending (sorted (keys f))
        × ((i : ℕ) → mem i (sorted (keys f)) ≡ Dict.contains i f)
  unfolding flush_session
  state-flush_session b s uid f h e =
      let a = sorted-Ascending f (h.distinct uid f e) in
      (
        rw (e, flush_session) (state-flush_all b s uid (sorted (keys f)) h a),
        a,
        λ i. mem-sorted i (keys f) ∙ mem-keys i f,
      )

  -- After flushing a session of a valid buffer nothing of it is pending, and every other session's
  -- pending frames are as they were.
  pub pending-flush_session :
      (b : FrameBuffer P) (s : S) (uid u j : ℕ)
      → IsValid b
      → pending (flush_session flush uid (b, s)).0 u j ≡ (if u == uid then none else pending b u j)
  unfolding flush_session
  pending-flush_session b s uid u j h = elim (Option-cases (Bounded.get b.frames uid)) [
    | inl e ↦ rw (e, flush_session) (ground (arith, pending-none b uid j e))
    | inr (f, e) ↦
        let after = flush_all flush uid (sorted (keys f)) (b, s) in
        let valid = flush_all-IsValid b s uid (sorted (keys f)) h in
        rw (e, flush_session)
          (ground (
            arith,
            (pending-discard_session after.0 uid u j valid).0,
            pending-flush_all b s uid (sorted (keys f)) u j h,
          ))
  ]

  pub flush_session-IsValid :
      (b : FrameBuffer P) (s : S) (uid : ℕ) → IsValid b → IsValid (flush_session flush uid (b, s)).0
  unfolding flush_session
  flush_session-IsValid b s uid h = elim (Option-cases (Bounded.get b.frames uid)) [
    | inl e ↦ rw (e, flush_session) h
    | inr (f, e) ↦
        rw (e, flush_session)
          (discard_session-IsValid (flush_all flush uid (sorted (keys f)) (b, s)).0 uid
            (flush_all-IsValid b s uid (sorted (keys f)) h))
  ]
