-- ===== src/Services/Participants/Retried.antt =====
-- A driver without a user id is tried with every packet: listener/services/participants.py.
use mathlib.Core.Path.{subst}
use formula1_app.Prelude.{
  ℕ, zero, suc, ◌+◌, ◌≡◌, refl, Bool, true, false, not, ◌&&◌, ◌||◌, Option, none, some, List, [],
  ◌∷◌, arith, All, is_empty, map, any, get_elem?, Bool-cases, Option-cases, inl, inr, if_both, ◌==◌,
}
use formula1_app.Prelude.Eq.{=?-refl, nat_eq, list_eq}
use formula1_app.Dict
use formula1_app.Dict.{Dict}
use formula1_app.Dict.Laws.{lookup-put}
use formula1_app.Bounded
use formula1_app.Packets.Base.{truthy}
use formula1_app.Packets.Participants.{Participant}
use formula1_app.Repositories.Base.{done}
use formula1_app.Repositories.Entries.{
  Entry, EntryRow, Call, Database, insert_teams, insert_entries, update_nationalities, clean,
  resolve_names, resolve_user_ids, entry_rows, accepts_entries, insert_rows, insert_entries_batch,
}
use formula1_app.Services.Participants.{
  State, or_empty, get_user_map, is_member, subset, same_set, unwritten, car_index_of, is_skipped,
  name_driver, entry_of, human_entries, write_entries, handle_participants_packet,
}
use formula1_app.Services.Participants.Confirmed.{Received, after_packets, contains-after_packets}

abbrev has_car : ℕ → List Entry → Bool
has_car i es = any (λ (e : Entry). e.car_index == i) es

abbrev has_row : ℕ → List EntryRow → Bool
has_row i rows = any (λ (r : EntryRow). r.entry.car_index == i) rows

-- Whether a call asks the database for an entry of the car.
unfoldable pub enters : ℕ → Call → Bool
enters i (insert_teams rows) = false
enters i (insert_entries rows) = has_row i rows
enters i (update_nationalities rows) = false

abbrev pub is_known : {A : Type 0} → Option A → Bool
is_known none = false
is_known (some x) = true

-- Which entries are new.
has_car-unwritten :
    (i : ℕ) (humans : List ℕ) (es : List Entry)
    → has_car i es ≡ true
    → is_member i humans ≡ false
    → has_car i (unwritten humans es) ≡ true
unfolding unwritten
has_car-unwritten i humans [] h n = h
has_car-unwritten i humans (e ∷ es) h n = elim (Bool-cases (e.car_index == i)) [
  | inl y ↦ let same : is_member e.car_index humans ≡ false = ground (arith) in rw (same, y) refl
  | inr d ↦
      let rest = has_car-unwritten i humans es (ground arith) n in
      if_both (λ l. has_car i l ≡ true) (is_member e.car_index humans) rest (ground arith)
]

subset_missing :
    (i : ℕ) (humans : List ℕ) (es : List Entry)
    → has_car i es ≡ true
    → is_member i humans ≡ false
    → subset (map car_index_of es) humans ≡ false
unfolding subset car_index_of
subset_missing i humans [] h n = ground arith
subset_missing i humans (e ∷ es) h n = elim (Bool-cases (e.car_index == i)) [
  | inl y ↦ let same : is_member e.car_index humans ≡ false = ground (arith) in rw same refl
  | inr d ↦ let rest = subset_missing i humans es (ground arith) n in ground arith
]

either_true : (a b : Bool) → b ≡ true → (a || b) ≡ true
either_true a b h = ground arith

has_car-filled : (i : ℕ) (es : List Entry) → has_car i es ≡ true → is_empty es ≡ false
has_car-filled i [] h = ground arith
has_car-filled i (e ∷ es) h = refl

has_car-clean : (i : ℕ) (es : List Entry) → has_car i es ≡ true → has_car i (map clean es) ≡ true
unfolding clean
has_car-clean i [] h = h
has_car-clean i (e ∷ es) h = elim (Bool-cases (e.car_index == i)) [
  | inl y ↦ rw y refl
  | inr n ↦ let rest = has_car-clean i es (ground arith) in ground arith
]

-- A database that knows every name.
module _ (answer : List ℕ → Option ℕ)
    (knows : (name : List ℕ) → is_known (answer name) ≡ true) where
  resolve_more :
      (es : List Entry) (ids : Dict (List ℕ) ℕ) (name : List ℕ)
      → is_known (Dict.lookup name ids) ≡ true
      → is_known (Dict.lookup name (resolve_names answer es ids)) ≡ true
  unfolding resolve_names
  resolve_more [] ids name h = h
  resolve_more (e ∷ es) ids name h = elim (Option-cases (answer e.driver_name)) [
    | inl n ↦ rw n (resolve_more es ids name h)
    | inr (u, y) ↦ rw y (
        resolve_more es (Dict.put e.driver_name u ids) name
          (ground (arith, lookup-put name e.driver_name u ids)))
  ]

  resolve_each :
      (es : List Entry) (ids : Dict (List ℕ) ℕ)
      → All
          (λ (e : Entry). is_known (Dict.lookup e.driver_name (resolve_names answer es ids)) ≡ true)
          es
  unfolding resolve_names
  resolve_each [] ids = tt
  resolve_each (e ∷ es) ids = (
    elim (Option-cases (answer e.driver_name)) [
      | inl n ↦ let y = knows e.driver_name in ground (arith)
      | inr (u, y) ↦
          rw (resolve_names, y)
            (resolve_more es (Dict.put e.driver_name u ids) e.driver_name
              (ground (arith, lookup-put e.driver_name e.driver_name u ids, =?-refl e.driver_name)))
    ],
    resolve_each es (elim (answer e.driver_name) [
      | none ↦ ids
      | some user_id ↦ Dict.put e.driver_name user_id ids
    ]),
  )

resolved :
    (db : Database) (answer : List ℕ → Option ℕ) (es : List Entry)
    → db.enabled ≡ true
    → db.get_or_create_driver ≡ done answer
    → is_empty es ≡ false
    → resolve_user_ids db es ≡ resolve_names answer es []
unfolding resolve_user_ids
resolved db answer es on reached h = rw (resolve_user_ids, h, on, reached) refl

has_row-entry_rows :
    (i : ℕ) (ids : Dict (List ℕ) ℕ) (es : List Entry)
    → All (λ (e : Entry). is_known (Dict.lookup e.driver_name ids) ≡ true) es
    → has_car i es ≡ true
    → has_row i (entry_rows ids es) ≡ true
unfolding entry_rows
has_row-entry_rows i ids [] k h = h
has_row-entry_rows i ids (e ∷ es) k h = elim (Option-cases (Dict.lookup e.driver_name ids)) [
  | inl n ↦ let y = k.0 in ground arith
  | inr (u, y) ↦
      rw (entry_rows, y)
        (elim (Bool-cases (e.car_index == i)) [
          | inl c ↦ rw c refl
          | inr c ↦ let rest = has_row-entry_rows i ids es k.1 (ground arith) in ground arith
        ])
]

enters-insert_rows :
    (i : ℕ) (db : Database) (rows : List EntryRow)
    → has_row i rows ≡ true
    → any (enters i) (insert_rows db rows).1 ≡ true
unfolding insert_rows enters
enters-insert_rows i db [] h = ground arith
enters-insert_rows i db (r ∷ rows) h =
    if_both (λ (x : Dict ℕ ℕ × List Call). any (enters i) x.1 ≡ true)
      (not (accepts_entries db (r ∷ rows))) (ground arith) (ground arith)

module _ (lower strip : List ℕ → List ℕ) (decimal : ℕ → List ℕ) where
  has_car-human_entries :
      (db : Database) (uid k j : ℕ) (ps : List Participant) (counter : Option ℕ) (p : Participant)
      → get_elem? ps j ≡ some p
      → is_skipped p ≡ false
      → has_car (k + j) (human_entries lower strip decimal db uid k ps counter).0 ≡ true
  unfolding human_entries entry_of
  has_car-human_entries db uid k j [] counter p e h = ground arith
  has_car-human_entries db uid k zero (q ∷ ps) counter p e h =
      let human : is_skipped q ≡ false = ground arith in rw human (ground arith)
  has_car-human_entries db uid k (suc j) (q ∷ ps) counter p e h =
      let counter' = (name_driver lower strip decimal db uid q counter).1 in
      let skipped = has_car-human_entries db uid (suc k) j ps counter p e h in
      let named = has_car-human_entries db uid (suc k) j ps counter' p e h in
      elim (Bool-cases (is_skipped q)) [
        | inl y ↦ rw y (
            subst
              (λ n.
                has_car n (human_entries lower strip decimal db uid (suc k) ps counter).0 ≡ true)
              (omega arith) skipped)
        | inr n ↦ rw n (
            subst
              (λ x.
                has_car x (
                  entry_of lower strip decimal uid k
                    (name_driver lower strip decimal db uid q counter).0 q
                  ∷ (human_entries lower strip decimal db uid (suc k) ps counter').0)
                ≡ true)
              (omega arith) (either_true _ _ named))
      ]

  enters-insert_entries_batch :
      (i : ℕ) (db : Database) (answer : List ℕ → Option ℕ) (es : List Entry)
      → db.enabled ≡ true
      → db.get_or_create_driver ≡ done answer
      → ((name : List ℕ) → is_known (answer name) ≡ true)
      → has_car i es ≡ true
      → any (enters i) (insert_entries_batch db es).1 ≡ true
  unfolding insert_entries_batch enters
  enters-insert_entries_batch i db answer es on reached knows h =
      let cleaned = map clean es in
      let c = has_car-clean i es h in
      let found = enters-insert_rows i db (entry_rows (resolve_names answer cleaned []) cleaned) (
        has_row-entry_rows i (resolve_names answer cleaned []) cleaned
          (resolve_each answer knows cleaned []) c) in
      rw
        (
          insert_entries_batch,
          has_car-filled i es h,
          resolved db answer cleaned on reached (has_car-filled i cleaned c),
        )
        found

  enters-write_entries :
      (i : ℕ) (db : Database) (answer : List ℕ → Option ℕ) (uid : ℕ) (es : List Entry) (st : State)
      → db.enabled ≡ true
      → db.get_or_create_driver ≡ done answer
      → ((name : List ℕ) → is_known (answer name) ≡ true)
      → has_car i es ≡ true
      → is_member i (or_empty (Bounded.get st.written_humans uid)) ≡ false
      → any (enters i) (write_entries lower strip decimal db uid es st).1 ≡ true
  unfolding write_entries same_set
  enters-write_entries i db answer uid es st on reached knows h n =
      let humans = or_empty (Bounded.get st.written_humans uid) in
      let new = has_car-unwritten i humans es h n in
      rw
        (
          write_entries,
          same_set,
          subset_missing i humans es h n,
          has_car-filled i (unwritten humans es) new,
        )
        (enters-insert_entries_batch i db answer (unwritten humans es) on reached knows new)

  -- After any Participants packets, whatever the database answered to each, a further packet asks
  -- the database for an entry of each human car (not the AI's, and not an empty slot) without a
  -- user id in the session's map, if the database is reached and gives every driver an id.
  pub enters-handle_participants_packet :
      (rs : List Received) (r : Received) (answer : List ℕ → Option ℕ) (i : ℕ) (p : Participant)
      → r.db.enabled ≡ true
      → r.db.get_or_create_driver ≡ done answer
      → ((name : List ℕ) → is_known (answer name) ≡ true)
      → get_elem? r.packet.participants i ≡ some p
      → truthy p.ai_controlled ≡ false
      → (p.team_id == 65535 && p.race_number == 0) ≡ false
      → Dict.contains i (get_user_map r.session_uid (after_packets lower strip decimal rs)) ≡ false
      → any
          (enters i)
          (handle_participants_packet lower strip decimal r.db r.session_uid r.player_car_index
            r.packet
            (after_packets lower strip decimal rs)).1
        ≡ true
  unfolding handle_participants_packet is_skipped
  enters-handle_participants_packet rs r answer i p on reached knows e ai slot missing =
      let st = after_packets lower strip decimal rs in
      let entries =
        (human_entries lower strip decimal r.db r.session_uid 0 r.packet.participants
          st.player_counter).0 in
      let listed : has_car i entries ≡ true =
        subst (λ n. has_car n entries ≡ true) (omega arith)
          (has_car-human_entries r.db r.session_uid 0 i r.packet.participants st.player_counter p e
            (rw (is_skipped, ai, slot) refl)) in
      enters-write_entries i r.db answer r.session_uid entries _ on reached knows listed
        unwritten_yet
    where
      unwritten_yet :
          is_member i (
            or_empty
              (Bounded.get (after_packets lower strip decimal rs).written_humans r.session_uid))
          ≡ false
      unwritten_yet =
          elim (Bool-cases (
            is_member i (
              or_empty (
                Bounded.get (after_packets lower strip decimal rs).written_humans
                  r.session_uid)))) [
                    | inl y ↦
                        let there =
                          contains-after_packets lower strip decimal rs r.session_uid i y in
                        ground arith
                    | inr n ↦ n
                  ]
