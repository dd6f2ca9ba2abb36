-- ===== src/Services/Participants/Confirmed.antt =====
-- A driver whom the service no longer tries to write has a user id: listener/services/participants.py.
use mathlib.Core.Path.{subst}
use formula1_app.Prelude.{
  ℕ, ◌≡◌, refl, ◌∙◌, true, Option, none, some, List, [], ◌∷◌, arith, All, is_empty, map, Bool-cases,
  inl, inr, if_both, ◌==◌,
}
use formula1_app.Prelude.Eq.{nat_eq}
use formula1_app.Dict
use formula1_app.Dict.{Dict, keys}
use formula1_app.Dict.Laws.{contains-put}
use formula1_app.Bounded
use formula1_app.Bounded.Pairs.{Synced, set_item-Synced, lookup-Paired}
use formula1_app.Packets.Participants.{ParticipantsPacket}
use formula1_app.Repositories.Entries.{Entry, Call, Database, insert_entries_batch}
use formula1_app.Services.Participants.{
  State, init, or_empty, get_user_map, is_member, merge, union, same_set, unwritten, car_index_of,
  human_entries, confirm, write_entries, handle_participants_packet,
}

-- Every car of the set has a user in the map.
abbrev Covers : List ℕ → Dict ℕ ℕ → Type 0
Covers cars user_map = All (λ i. Dict.contains i user_map ≡ true) cars

-- The two dictionaries go together, and a car that is written has a user.
abbrev Confirmed : State → Type 0
Confirmed st = Synced Covers st.written_humans st.user_map_cache

Covers-put : (i u : ℕ) (cars : List ℕ) (m : Dict ℕ ℕ) → Covers cars m → Covers cars (Dict.put i u m)
Covers-put i u [] m h = tt
Covers-put i u (c ∷ cars) m h =
    (contains-put c i u m ∙ rw h.0 (ground arith), Covers-put i u cars m h.1)

Covers-merge : (cars : List ℕ) (m n : Dict ℕ ℕ) → Covers cars m → Covers cars (merge m n)
unfolding merge
Covers-merge cars m [] h = h
Covers-merge cars m ((i, u) ∷ n) h = Covers-merge cars (Dict.put i u m) n (Covers-put i u cars m h)

put_same : (i u : ℕ) (m : Dict ℕ ℕ) → Dict.contains i (Dict.put i u m) ≡ true
put_same i u m = contains-put i i u m ∙ ground arith

-- The new cars are in the merged map.
keys-Covers : (m n : Dict ℕ ℕ) → Covers (keys n) (merge m n)
unfolding merge
keys-Covers m [] = tt
keys-Covers m ((i, u) ∷ n) = (
  (Covers-merge (i ∷ []) (Dict.put i u m) n (put_same i u m, tt)).0,
  keys-Covers (Dict.put i u m) n,
)

Covers-union : (s t : List ℕ) (m : Dict ℕ ℕ) → Covers s m → Covers t m → Covers (union s t) m
unfolding union
Covers-union s [] m h k = h
Covers-union s (i ∷ is) m h k =
    if_both (λ cars. Covers cars m) (is_member i (union s is)) (Covers-union s is m h k.1)
      (k.0, Covers-union s is m h k.1)

-- What is written of a session has users in its map.
covered :
    (uid : ℕ) (st : State)
    → Confirmed st
    → Covers (or_empty (Bounded.get st.written_humans uid)) (get_user_map uid st)
unfolding get_user_map Bounded.get
covered uid st h =
    covered_at (Dict.lookup uid st.written_humans.entries)
      (λ s e. lookup-Paired Covers uid s st.written_humans.entries st.user_map_cache.entries h.1 e)
  where
    covered_at :
        (o : Option (List ℕ))
        → ((s : List ℕ)
            → o ≡ some s
            → (w : Dict ℕ ℕ) × (Dict.lookup uid st.user_map_cache.entries ≡ some w) × Covers s w)
        → Covers (or_empty o) (or_empty (Dict.lookup uid st.user_map_cache.entries))
    covered_at none f = tt
    covered_at (some s) f = let (w, e, c) = f s refl in rw e c

confirm-Confirmed :
    (lower strip : List ℕ → List ℕ) (decimal : ℕ → List ℕ) (uid : ℕ) (new_mappings : Dict ℕ ℕ)
    (st : State)
    → Confirmed st
    → Confirmed (confirm lower strip decimal uid new_mappings st).1
unfolding confirm
confirm-Confirmed lower strip decimal uid [] st h = h
confirm-Confirmed lower strip decimal uid ((i, u) ∷ n) st h =
    let new_mappings : Dict ℕ ℕ = (i, u) ∷ n in
    let m = merge (get_user_map uid st) new_mappings in
    let humans = or_empty (Bounded.get st.written_humans uid) in
    set_item-Synced Covers st.written_humans st.user_map_cache uid _ _ h (
      Covers-union humans (keys new_mappings) m
        (Covers-merge humans (get_user_map uid st) new_mappings (covered uid st h))
        (keys-Covers (get_user_map uid st) new_mappings))

-- A Participants packet as the service gets it, and the database of that moment.
pub record Received : Type 0 where
  pub db : Database
  pub session_uid : ℕ
  pub player_car_index : ℕ
  pub packet : ParticipantsPacket

module _ (lower strip : List ℕ → List ℕ) (decimal : ℕ → List ℕ) where
  -- The state after some packets, the last one first.
  unfoldable pub after_packets : List Received → State
  after_packets [] = init
  after_packets (r ∷ rs) =
      (handle_participants_packet lower strip decimal r.db r.session_uid r.player_car_index r.packet
        (after_packets rs)).0.1

  write_entries-Confirmed :
      (db : Database) (uid : ℕ) (entries : List Entry) (st : State)
      → Confirmed st
      → Confirmed (write_entries lower strip decimal db uid entries st).0.1
  unfolding write_entries
  write_entries-Confirmed db uid entries st h =
      let humans = or_empty (Bounded.get st.written_humans uid) in
      if_both (λ (r : (Dict ℕ ℕ × State) × List Call). Confirmed r.0.1)
        (same_set (map car_index_of entries) humans) h
        (if_both (λ (r : (Dict ℕ ℕ × State) × List Call). Confirmed r.0.1)
          (is_empty (unwritten humans entries)) h
          (confirm-Confirmed lower strip decimal uid
            (insert_entries_batch db (unwritten humans entries)).0 st h))

  after_packets-Confirmed : (rs : List Received) → Confirmed (after_packets rs)
  unfolding after_packets handle_participants_packet
  after_packets-Confirmed [] = (refl, tt)
  after_packets-Confirmed (r ∷ rs) =
      write_entries-Confirmed r.db r.session_uid
        (human_entries lower strip decimal r.db r.session_uid 0 r.packet.participants
          (after_packets rs).player_counter).0
        _ (after_packets-Confirmed rs)

  All-is_member : (P : ℕ → Type 0) (i : ℕ) (s : List ℕ) → All P s → is_member i s ≡ true → P i
  unfolding is_member
  All-is_member P i [] h e = ground arith
  All-is_member P i (j ∷ s) h e = elim (Bool-cases (j == i)) [
    | inl y ↦ subst P (ground arith) h.0
    | inr n ↦ All-is_member P i s h.1 (ground arith)
  ]

  -- After any Participants packets, whatever the database answered to each, a car that the service
  -- counts as written for a session has a user id in that session's map.
  pub contains-after_packets :
      (rs : List Received) (uid i : ℕ)
      → is_member i (or_empty (Bounded.get (after_packets rs).written_humans uid)) ≡ true
      → Dict.contains i (get_user_map uid (after_packets rs)) ≡ true
  contains-after_packets rs uid i e =
      All-is_member (λ j. Dict.contains j (get_user_map uid (after_packets rs)) ≡ true) i
        (or_empty (Bounded.get (after_packets rs).written_humans uid))
        (covered uid (after_packets rs) (after_packets-Confirmed rs)) e
