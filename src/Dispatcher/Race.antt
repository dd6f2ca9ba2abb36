-- ===== src/Dispatcher/Race.antt =====
-- listener/dispatcher.py: when a race counts as started, and the laps that are reported.
use formula1_app.Prelude.{
  ℕ, ◌≡◌, refl, Bool, true, false, ◌&&◌, ◌||◌, Option, none, some, List, [], ◌∷◌, ◌==◌,
  if◌then◌else◌, ◌+◌, ◌≤◌, ◌↔◌, ◌⊎◌, zero, suc, leb, get_elem?, arith, Bool-cases, Option-cases,
  inl, inr, ◌∙◌, sym,
}
use formula1_app.Prelude.Eq.{◌=?◌, =?-refl, nat_eq, pair_eq}
use formula1_app.Dict
use formula1_app.Dict.{keys}
use formula1_app.Bounded
use formula1_app.Bounded.{BoundedDict}
use formula1_app.Bounded.Laws.{get-set_item, drops_of_Room, set_item-IsValid, has_of_get}
use formula1_app.Packets.LapData.{LapData}
use formula1_app.Dispatcher.State.{State, Services, UserMap, FrameData}
use formula1_app.Packets.Header.{PacketHeader}
use formula1_app.Dispatcher.Frames.{
  mark_race_started, backstop, any_racing, is_not_false, racing_lap_num, frame_write,
}
use formula1_app.Dispatcher.Routes.{reset_laps}

abbrev pub listed : Option (List LapData) → List LapData
listed none = []
listed (some laps) = laps

-- A driver of the map is on lap 2 or later.
abbrev pub IsRacing : UserMap → List LapData → Type 0
IsRacing m laps =
    (i : ℕ) × (lap : LapData) × (get_elem? laps i ≡ some lap)
    × (Dict.contains i m ≡ true)
    × (2 ≤ lap.current_lap_num)

racing_of :
    (m : UserMap) (i : ℕ) (laps : List LapData)
    → any_racing m i laps ≡ true
    → (j : ℕ) × (lap : LapData) × (get_elem? laps j ≡ some lap)
      × (Dict.contains (i + j) m ≡ true)
      × (2 ≤ lap.current_lap_num)
unfolding any_racing
racing_of m i [] h = ground arith
racing_of m i (lap ∷ laps) h =
    elim (Bool-cases (Dict.contains i m && leb racing_lap_num lap.current_lap_num)) [
      | inl y ↦ (0, lap, refl, ground arith, ground arith)
      | inr n ↦
          let (j, l, e, c, r) = racing_of m (suc i) laps (ground arith) in
          (suc j, l, e, ground arith, r)
    ]

any_of :
    (m : UserMap) (i : ℕ) (laps : List LapData) (j : ℕ) (l : LapData)
    → get_elem? laps j ≡ some l
    → Dict.contains (i + j) m ≡ true
    → 2 ≤ l.current_lap_num
    → any_racing m i laps ≡ true
unfolding any_racing
any_of m i [] j l e c r = ground arith
any_of m i (lap ∷ laps) zero l e c r = ground arith
any_of m i (lap ∷ laps) (suc j) l e c r =
    let rest = any_of m (suc i) laps j l e (ground arith) r in ground arith

module _ {W : Type 0} where
  get-mark_race_started :
      (uid : ℕ) (d : State W)
      → Bounded.IsValid d.race_started
      → Bounded.get (mark_race_started uid d).race_started uid ≡ some true
  unfolding mark_race_started
  get-mark_race_started uid d v = elim (Option-cases (Bounded.get d.race_started uid)) [
    | inl e ↦ ground (arith, e, get-set_item d.race_started uid uid true v, =?-refl uid)
    | inr (true, e) ↦ ground (arith, e)
    | inr (false, e) ↦ ground (arith, e, get-set_item d.race_started uid uid true v, =?-refl uid)
  ]

  started-backstop :
      (uid : ℕ) (m : UserMap) (laps : Option (List LapData)) (d : State W)
      → Bounded.IsValid d.race_started
      → is_not_false (Bounded.get (backstop uid m laps d).race_started uid)
        ≡ (is_not_false (Bounded.get d.race_started uid) || any_racing m 0 (listed laps))
  unfolding backstop any_racing
  started-backstop uid m none d v = ground arith
  started-backstop uid m (some laps) d v = ground (arith, get-mark_race_started uid d v)

  -- With a valid dictionary of race flags, the frame that is handed to write_frame after the
  -- backstop is marked as one of a running race exactly when the session's flag was not false or a
  -- driver of the user map is on lap 2 or later.
  pub race_started-backstop :
      (svc : Services W) (uid frame_id : ℕ) (m : UserMap) (first : PacketHeader) (f : FrameData)
      (d : State W)
      → Bounded.IsValid d.race_started
      → ((frame_write svc uid frame_id m first f (backstop uid m f.lap_data_list d)).race_started
          ≡ true)
        ↔ ((is_not_false (Bounded.get d.race_started uid) ≡ true)
            ⊎ IsRacing m (listed f.lap_data_list))
  unfolding frame_write
  race_started-backstop svc uid frame_id m first f d v =
      let e = started-backstop uid m f.lap_data_list d v in
      (
        λ h. elim (Bool-cases (is_not_false (Bounded.get d.race_started uid))) [
          | inl y ↦ inl y
          | inr n ↦
              let (i, lap, q, c, r) = racing_of m 0 (listed f.lap_data_list) (ground arith) in
              inr (i, lap, q, ground arith, r)
        ],
        λ h. elim h [
          | inl y ↦ e ∙ ground arith
          | inr (i, lap, q, c, r) ↦
              let a = any_of m 0 (listed f.lap_data_list) i lap q (ground arith) r in
              e ∙ ground arith
        ],
      )

abbrev pub is_some : {V : Type 0} → Option V → Bool
is_some none = false
is_some (some v) = true

abbrev pub mem : ℕ × ℕ → List (ℕ × ℕ) → Bool
mem k [] = false
mem k (j ∷ js) = k =? j || mem k js

mem-keys : (k : ℕ × ℕ) (d : Dict.Dict (ℕ × ℕ) ℕ) → mem k (keys d) ≡ is_some (Dict.lookup k d)
unfolding Dict.lookup
mem-keys k [] = refl
mem-keys k ((j, v) ∷ d) = ground (arith, mem-keys k d)

-- A write to a key that is there drops nothing.
get-set_item_present :
    (d : BoundedDict (ℕ × ℕ) ℕ) (j k : ℕ × ℕ) (n : ℕ)
    → Bounded.IsValid d
    → is_some (Bounded.get d k) ≡ true
    → Bounded.get (Bounded.set_item d k n) j ≡ (if j =? k then some n else Bounded.get d j)
get-set_item_present d j k n v p = elim (Option-cases (Bounded.get d k)) [
  | inl e ↦ ground (arith, e)
  | inr (m, e) ↦
      ground (arith, get-set_item d j k n v, drops_of_Room d k j (inl (has_of_get d k m e)))
]

reset_keys :
    (uid : ℕ) (ks : List (ℕ × ℕ)) (d : BoundedDict (ℕ × ℕ) ℕ) (j : ℕ × ℕ)
    → Bounded.IsValid d
    → ((k : ℕ × ℕ) → mem k ks ≡ true → is_some (Bounded.get d k) ≡ true)
    → Bounded.get (reset_laps uid ks d) j
      ≡ (if j.0 == uid && mem j ks then some 0 else Bounded.get d j)
unfolding reset_laps
reset_keys uid [] d j v p = ground arith
reset_keys uid (k ∷ ks) d j v p = elim (Bool-cases (k.0 == uid)) [
  | inr e ↦
      rw e
        (ground (arith, reset_keys uid ks d j v (λ i m. p i (ground arith)), pair_eq.beq_iff j k))
  | inl e ↦
      let present = p k (ground (arith, =?-refl k)) in
      let d' = Bounded.set_item d k 0 in
      rw e (
        ground (
          arith,
          get-set_item_present d j k 0 v present,
          pair_eq.beq_iff j k,
          reset_keys uid ks d' j (set_item-IsValid d k 0 v)
              (λ i m. ground (arith, get-set_item_present d i k 0 v present, p i (ground arith))),
        ))
]

-- With valid last lap numbers, the flashback's reset sets to 0 the last lap of every driver of the
-- session that has one, and leaves those of the other sessions.
pub get-reset_laps :
    (uid u x : ℕ) (laps : BoundedDict (ℕ × ℕ) ℕ)
    → Bounded.IsValid laps
    → Bounded.get (reset_laps uid (keys laps.entries) laps) (u, x)
      ≡ elim (Bounded.get laps (u, x)) [ none ↦ none | some n ↦ some (if u == uid then 0 else n) ]
unfolding Bounded.get
get-reset_laps uid u x laps v = ground (
  arith,
  mem-keys (u, x) laps.entries,
  reset_keys uid (keys laps.entries) laps (u, x) v (λ k m. sym (mem-keys k laps.entries) ∙ m),
)
