-- ===== src/FrameBuffer/Laws.antt =====
-- What each operation of the frame buffer does, seen through the pending packets of each frame.
use mathlib.Core.Path.{subst}
use formula1_app.Prelude.{
  ℕ, ◌≡◌, ◌≢◌, refl, true, ◌&&◌, Option, none, some, [], ◌∷◌, arith, is_empty, if◌then◌else◌, ◌==◌,
  Option-cases, Bool-cases, inl, inr,
}
use formula1_app.Prelude.Eq.{nat_eq}
use formula1_app.Dict
use formula1_app.Dict.{Dict, keys}
use formula1_app.Dict.Laws.{lookup-remove, remove-Distinct}
use formula1_app.Bounded
use formula1_app.Bounded.{BoundedDict}
use formula1_app.Bounded.Laws
use formula1_app.Bounded.Laws.{
  get-set_item, get-alter, get-pop, has_of_get, Room, alter-Room, pop-Room,
}
use formula1_app.FrameBuffer.{Packets, Frames, FrameBuffer, flush_popped, flush_frame}

module _ {P : Type 0} where
  -- The packets that are kept for a frame of a session.
  unfoldable pub pending_in : BoundedDict ℕ (Frames P) → ℕ → ℕ → Option (Packets P)
  pending_in d uid frame_id = elim (Bounded.get d uid) [
    | none ↦ none
    | some frames ↦ Dict.lookup frame_id frames
  ]

  abbrev pub pending : FrameBuffer P → ℕ → ℕ → Option (Packets P)
  pending b = pending_in b.frames

  -- No frame is kept without packets.
  abbrev pub Filled : Frames P → Type 0
  Filled f = (i : ℕ) → Dict.lookup i f ≢ some []

  pub record IsValid (b : FrameBuffer P) : Type 0 where
    pub frames_valid : Bounded.IsValid b.frames
    pub current_valid : Bounded.IsValid b.current_frame
    pub distinct : (uid : ℕ) (f : Frames P) → Bounded.get b.frames uid ≡ some f → Dict.Distinct f
    pub filled : (uid : ℕ) (f : Frames P) → Bounded.get b.frames uid ≡ some f → Filled f

empty_lookup : {V : Type 0} (k : ℕ) (d : Dict ℕ V) → is_empty d ≡ true → Dict.lookup k d ≡ none
unfolding Dict.lookup
empty_lookup k [] h = refl
empty_lookup k (x ∷ d) h = ground arith

module _ {P : Type 0} where
  -- Removing a frame from a session keeps what `IsValid` says of its frames.
  pub remove-Filled : (f : Frames P) (i : ℕ) → Dict.Distinct f → Filled f → Filled (Dict.remove i f)
  remove-Filled f i d full j e = full j (ground (arith, lookup-remove j i f d))

  pub pop-IsValid :
      (b : FrameBuffer P) (uid : ℕ)
      → IsValid b
      → IsValid (record b { frames = Bounded.pop b.frames uid })
  pop-IsValid b uid h = record {
    frames_valid = Laws.pop-IsValid b.frames uid h.frames_valid;
    current_valid = h.current_valid;
    distinct = λ u f e. h.distinct u f (ground (arith, get-pop b.frames u uid h.frames_valid));
    filled = λ u f e. h.filled u f (ground (arith, get-pop b.frames u uid h.frames_valid));
  }

  pub alter-IsValid :
      (b : FrameBuffer P) (uid : ℕ) (g : Frames P)
      → IsValid b
      → Dict.Distinct g
      → Filled g
      → IsValid (record b { frames = Bounded.alter b.frames uid g })
  alter-IsValid b uid g h d full = record {
    frames_valid = Laws.alter-IsValid b.frames uid g h.frames_valid;
    current_valid = h.current_valid;
    distinct = λ u f e. altered u f Dict.Distinct d (h.distinct u f) e;
    filled = λ u f e. altered u f Filled full (h.filled u f) e;
  }
    where
      altered :
          (u : ℕ) (f : Frames P) (Q : Frames P → Type 0)
          → Q g
          → (Bounded.get b.frames u ≡ some f → Q f)
          → Bounded.get (Bounded.alter b.frames uid g) u ≡ some f
          → Q f
      altered u f Q q other e = elim (Bool-cases (u == uid)) [
        | inl same ↦ let eq : g ≡ f = ground (arith, get-alter b.frames u uid g) in subst Q eq q
        | inr differ ↦ other (ground (arith, get-alter b.frames u uid g))
      ]

module _ {P S : Type 0} (flush : ℕ → ℕ → Packets P → S → S) where
  -- What the callback does with a frame, if there is one.
  unfoldable pub emit : ℕ → ℕ → Option (Packets P) → S → S
  emit uid frame_id none s = s
  emit uid frame_id (some ps) s = flush uid frame_id ps s

  -- Flushing a frame of a valid buffer forgets that frame of that session and no other.
  pub pending-flush_frame :
      (b : FrameBuffer P) (s : S) (uid frame_id u i : ℕ)
      → IsValid b
      → pending (flush_frame flush uid frame_id (b, s)).0 u i
        ≡ (if u == uid && i == frame_id then none else pending b u i)
  unfolding pending_in flush_frame flush_popped
  pending-flush_frame b s uid frame_id u i h = elim (Option-cases (Bounded.get b.frames uid)) [
    | inl e ↦ ground (arith, e)
    | inr (f, e) ↦ elim (Option-cases (Dict.lookup frame_id f)) [
      | inl m ↦ ground (arith, e, m)
      | inr ([], m) ↦ absurd (h.filled uid f e frame_id m)
      | inr (p ∷ ps, m) ↦ ground (
        arith,
        e,
        m,
        lookup-remove i frame_id f (h.distinct uid f e),
        get-pop b.frames u uid h.frames_valid,
        get-alter b.frames u uid (Dict.remove frame_id f),
        empty_lookup i (Dict.remove frame_id f),
        has_of_get b.frames uid f e,
      )
    ]
  ]

  pub state-flush_frame :
      (b : FrameBuffer P) (s : S) (uid frame_id : ℕ)
      → IsValid b
      → (flush_frame flush uid frame_id (b, s)).1 ≡ emit uid frame_id (pending b uid frame_id) s
  unfolding pending_in flush_frame flush_popped emit
  state-flush_frame b s uid frame_id h = elim (Option-cases (Bounded.get b.frames uid)) [
    | inl e ↦ ground (arith, e)
    | inr (f, e) ↦ elim (Option-cases (Dict.lookup frame_id f)) [
      | inl m ↦ ground (arith, e, m)
      | inr ([], m) ↦ absurd (h.filled uid f e frame_id m)
      | inr (p ∷ ps, m) ↦ ground (arith, e, m)
    ]
  ]

  pub current-flush_frame :
      (b : FrameBuffer P) (s : S) (uid frame_id : ℕ)
      → (flush_frame flush uid frame_id (b, s)).0.current_frame ≡ b.current_frame
  unfolding flush_frame flush_popped
  current-flush_frame b s uid frame_id = elim (Option-cases (Bounded.get b.frames uid)) [
    | inl e ↦ ground (arith, e)
    | inr (f, e) ↦ elim (Option-cases (Dict.lookup frame_id f)) [
      | inl m ↦ ground (arith, e, m)
      | inr ([], m) ↦ ground (arith, e, m)
      | inr (p ∷ ps, m) ↦ ground (arith, e, m)
    ]
  ]

  pub flush_frame-IsValid :
      (b : FrameBuffer P) (s : S) (uid frame_id : ℕ)
      → IsValid b
      → IsValid (flush_frame flush uid frame_id (b, s)).0
  unfolding flush_frame flush_popped
  flush_frame-IsValid b s uid frame_id h = elim (Option-cases (Bounded.get b.frames uid)) [
    | inl e ↦ rw (e, flush_frame) h
    | inr (f, e) ↦ rw (e, flush_frame) (popped f e (Dict.lookup frame_id f))
  ]
    where
      popped :
          (f : Frames P)
          → Bounded.get b.frames uid ≡ some f
          → (o : Option (Packets P))
          → IsValid (flush_popped flush uid frame_id (Dict.remove frame_id f) o (b, s)).0
      popped f e none = h
      popped f e (some []) =
          alter-IsValid b uid (Dict.remove frame_id f) h
            (remove-Distinct frame_id f (h.distinct uid f e))
            (remove-Filled f frame_id (h.distinct uid f e) (h.filled uid f e))
      popped f e (some (p ∷ ps)) = elim (Bool-cases (is_empty (Dict.remove frame_id f))) [
        | inl last ↦ rw last (pop-IsValid b uid h)
        | inr more ↦ rw more (
            alter-IsValid b uid (Dict.remove frame_id f) h
              (remove-Distinct frame_id f (h.distinct uid f e))
              (remove-Filled f frame_id (h.distinct uid f e) (h.filled uid f e)))
      ]

  pub flush_frame-Room :
      (b : FrameBuffer P) (s : S) (uid frame_id : ℕ)
      → IsValid b
      → Room b.frames uid
      → Room (flush_frame flush uid frame_id (b, s)).0.frames uid
  unfolding flush_frame flush_popped
  flush_frame-Room b s uid frame_id h r = elim (Option-cases (Bounded.get b.frames uid)) [
    | inl e ↦ rw (e, flush_frame) r
    | inr (f, e) ↦ rw (e, flush_frame) (popped (Dict.remove frame_id f) (Dict.lookup frame_id f))
  ]
    where
      popped :
          (rest : Frames P) (o : Option (Packets P))
          → Room (flush_popped flush uid frame_id rest o (b, s)).0.frames uid
      popped rest none = r
      popped rest (some []) = alter-Room b.frames uid rest r
      popped rest (some (p ∷ ps)) = elim (Bool-cases (is_empty rest)) [
        | inl last ↦ rw last (pop-Room b.frames uid h.frames_valid r)
        | inr more ↦ rw more (alter-Room b.frames uid rest r)
      ]
