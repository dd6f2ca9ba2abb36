-- ===== src/Services/CarSetup/Real.antt =====
-- A lap is linked to real setups only: listener/services/car_setup.py.
use formula1_app.Prelude.{
  ℕ, ◌≡◌, refl, true, Option, none, some, List, [], ◌∷◌, All, get_elem?, Bool-cases, inl, inr,
  option_both,
}
use formula1_app.Prelude.Eq.{nat_eq, pair_eq}
use formula1_app.Dict
use formula1_app.Dict.{Dict}
use formula1_app.Bounded
use formula1_app.Bounded.Entries.{All-set_item, All-lookup}
use formula1_app.Packets.CarSetup.{CarSetupData, CarSetupPacket}
use formula1_app.Services.CarSetup.{
  Field, is_real_setup, setup_fields, CachedSetup, State, init, Call, upsert_setup,
  insert_lap_setup, cache_setup, handle_car_setup_packet, on_lap_complete,
}

-- A Car Setup packet as the service gets it.
pub record Received : Type 0 where
  pub player_index : ℕ
  pub packet : CarSetupPacket
  pub session_uid : ℕ
  pub user_map : Dict ℕ ℕ

module _ (digest : List Field → ℕ) where
  -- The state after some packets, the last one first.
  unfoldable pub after_packets : List Received → State
  after_packets [] = init
  after_packets (r ∷ rs) =
      handle_car_setup_packet digest r.player_index r.packet r.session_uid r.user_map
        (after_packets rs)

  -- A call that writes a setup writes one that is not blank, under the hash of its fields.
  unfoldable pub WritesReal : Call → Type 0
  WritesReal (upsert_setup setup_hash track_id fields user_id session_uid) =
      (is_real_setup fields ≡ true) × (setup_hash ≡ digest fields)
  WritesReal (insert_lap_setup _ _ _ _ _) = Unit

  abbrev RealEntry : (ℕ × ℕ) × CachedSetup → Type 0
  RealEntry (k, c) = (is_real_setup c.fields ≡ true) × (c.setup_hash ≡ digest c.fields)

  abbrev AllReal : State → Type 0
  AllReal st = All RealEntry st.cached_setup.entries

  cache_setup-AllReal :
      (i : ℕ) (p : CarSetupPacket) (uid car user_id : ℕ) (s : CarSetupData) (st : State)
      → AllReal st
      → AllReal (cache_setup digest i p uid car user_id s st)
  unfolding cache_setup
  cache_setup-AllReal i p uid car user_id s st h =
      elim (Bool-cases (is_real_setup (setup_fields s))) [
        | inl y ↦ rw y (All-set_item RealEntry st.cached_setup (uid, user_id) _ h (y, refl))
        | inr n ↦ rw n h
      ]

  handle_car_setup_packet-AllReal :
      (i : ℕ) (p : CarSetupPacket) (uid : ℕ) (user_map : Dict ℕ ℕ) (st : State)
      → AllReal st
      → AllReal (handle_car_setup_packet digest i p uid user_map st)
  unfolding handle_car_setup_packet
  handle_car_setup_packet-AllReal i p uid [] st h = h
  handle_car_setup_packet-AllReal i p uid ((car, user_id) ∷ m) st h =
      handle_car_setup_packet-AllReal i p uid m _ (
        option_both AllReal (get_elem? p.car_setups car) h
          (λ s. cache_setup-AllReal i p uid car user_id s st h))

  after_packets-AllReal : (rs : List Received) → AllReal (after_packets rs)
  unfolding after_packets
  after_packets-AllReal [] = tt
  after_packets-AllReal (r ∷ rs) =
      handle_car_setup_packet-AllReal r.player_index r.packet r.session_uid r.user_map
        (after_packets rs) (after_packets-AllReal rs)

  linked-WritesReal :
      (setup_id : Call → Option ℕ) (uid user_id lap track_id : ℕ) (o : Option CachedSetup)
      → ((c : CachedSetup) → o ≡ some c → RealEntry ((uid, user_id), c))
      → All WritesReal (elim o [
        | none ↦ []
        | some c ↦
            let upsert = upsert_setup c.setup_hash track_id c.fields user_id uid in
            elim (setup_id upsert) [
              | none ↦ upsert ∷ []
              | some i ↦ upsert ∷ insert_lap_setup uid user_id lap i c.next_front_wing ∷ []
            ]
      ])
  unfolding WritesReal
  linked-WritesReal setup_id uid user_id lap track_id none h = tt
  linked-WritesReal setup_id uid user_id lap track_id (some c) h =
      option_both (All WritesReal)
        (setup_id (upsert_setup c.setup_hash track_id c.fields user_id uid)) (h c refl, tt)
        (λ i. (h c refl, (tt, tt)))

  -- After any Car Setup packets, a completed lap writes no blank setup, and writes a setup under
  -- the hash of its own fields.
  pub on_lap_complete-WritesReal :
      (rs : List Received) (setup_id : Call → Option ℕ) (uid user_id lap track_id : ℕ)
      → All WritesReal (on_lap_complete setup_id uid user_id lap track_id (after_packets rs))
  unfolding on_lap_complete Bounded.get
  on_lap_complete-WritesReal rs setup_id uid user_id lap track_id =
      linked-WritesReal setup_id uid user_id lap track_id
        (Dict.lookup (uid, user_id) (after_packets rs).cached_setup.entries)
        (λ c e.
          All-lookup RealEntry (uid, user_id) c (after_packets rs).cached_setup.entries
            (after_packets-AllReal rs) e)
