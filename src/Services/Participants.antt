-- ===== src/Services/Participants.antt =====
-- listener/services/participants.py: the human drivers of a session become entries, and a car's
-- user id is known once the database has confirmed its entry. `str.lower`, `str.strip` and the
-- decimal of a number are parameters; a frozenset is the list of its elements.
pub mod Confirmed
pub mod Retried
pub mod Restricted
use formula1_app.Prelude.{
  ℕ, suc, Bool, true, not, ◌&&◌, Option, none, some, List, [], ◌∷◌, ◌++◌, map, any, is_empty, min,
  ◌==◌, if◌then◌else◌,
}
use formula1_app.Prelude.Eq.{◌=?◌, nat_eq, list_eq}
use formula1_app.Struct.{codes}
use formula1_app.Dict
use formula1_app.Dict.{Dict, keys}
use formula1_app.Bounded
use formula1_app.Bounded.{BoundedDict}
use formula1_app.Packets.Base.{truthy}
use formula1_app.Packets.Participants.{Participant, ParticipantsPacket}
use formula1_app.Repositories.Entries.{
  Entry, Call, Database, find_weekend_driver_name, max_player_number, without_zeros,
  insert_entries_batch,
}

pub record State : Type 0 where
  pub written_humans : BoundedDict ℕ (List ℕ)
  pub user_map_cache : BoundedDict ℕ (Dict ℕ ℕ)
  pub player_counter : Option ℕ
  pub restricted_indices : BoundedDict ℕ (List ℕ)

abbrev pub init : State
init = record {
  written_humans = Bounded.init 200;
  user_map_cache = Bounded.init 200;
  player_counter = none;
  restricted_indices = Bounded.init 200;
}

-- `d.get(k) or {}`, and the same for a frozenset.
abbrev pub or_empty : {A : Type 0} → Option (List A) → List A
or_empty none = []
or_empty (some xs) = xs

-- `get_restricted_indices`
unfoldable pub get_restricted_indices : ℕ → State → List ℕ
get_restricted_indices session_uid st = or_empty (Bounded.get st.restricted_indices session_uid)

-- `get_user_map`
unfoldable pub get_user_map : ℕ → State → Dict ℕ ℕ
get_user_map session_uid st = or_empty (Bounded.get st.user_map_cache session_uid)

-- `i in s`
unfoldable pub is_member : ℕ → List ℕ → Bool
is_member i s = any (λ j. j == i) s

-- The cars from `i` on that are restricted, but for the player's.
unfoldable pub restricted_cars : ℕ → ℕ → List Participant → List ℕ
restricted_cars player_car_index i [] = []
restricted_cars player_car_index i (p ∷ ps) =
    let rest = restricted_cars player_car_index (suc i) ps in
    if p.your_telemetry == 0 && not (i == player_car_index) then i ∷ rest else rest

-- EMPTY_SLOT_TEAM_ID
abbrev pub empty_slot_team_id : ℕ
empty_slot_team_id = 65535

-- A participant that the loop passes over.
unfoldable pub is_skipped : Participant → Bool
is_skipped p =
    if truthy p.ai_controlled then true else p.team_id == empty_slot_team_id && p.race_number == 0

-- The bytes of the first `n` colours; a parsed participant has four, and `n` is at most 4.
unfoldable pub livery_colors : ℕ → List (ℕ × (ℕ × ℕ)) → List ℕ
livery_colors n [] = []
livery_colors ℕ.zero (c ∷ cs) = []
livery_colors (suc n) ((r, (g, b)) ∷ cs) = r ∷ g ∷ b ∷ livery_colors n cs

-- `{**user_map, **new_mappings}`
unfoldable pub merge : Dict ℕ ℕ → Dict ℕ ℕ → Dict ℕ ℕ
merge user_map [] = user_map
merge user_map ((i, u) ∷ new_mappings) = merge (Dict.put i u user_map) new_mappings

-- The union of frozensets.
unfoldable pub union : List ℕ → List ℕ → List ℕ
union s [] = s
union s (i ∷ is) = let rest = union s is in if is_member i rest then rest else i ∷ rest

unfoldable pub subset : List ℕ → List ℕ → Bool
subset [] t = true
subset (i ∷ s) t = is_member i t && subset s t

-- `current_humans == written`
unfoldable pub same_set : List ℕ → List ℕ → Bool
same_set s t = subset s t && subset t s

-- `[e for e in human_entries if e["car_index"] not in written]`
unfoldable pub unwritten : List ℕ → List Entry → List Entry
unwritten humans [] = []
unwritten humans (e ∷ es) =
    let rest = unwritten humans es in if is_member e.car_index humans then rest else e ∷ rest

unfoldable pub car_index_of : Entry → ℕ
car_index_of e = e.car_index

module _ (lower strip : List ℕ → List ℕ) (decimal : ℕ → List ℕ) where
  -- `driver_name.lower() in GENERIC_DRIVER_NAMES`
  unfoldable pub is_generic : List ℕ → Bool
  is_generic name = if lower name =? codes "player" then true else lower name =? []

  -- `_next_generic_name`
  unfoldable pub next_generic_name : Database → Option ℕ → List ℕ × Option ℕ
  next_generic_name db player_counter =
      let n = suc (elim player_counter [ none ↦ max_player_number db | some k ↦ k ]) in
      (codes "Player " ++ decimal n, some n)

  -- `weekend_name if weekend_name else self._next_generic_name()`
  unfoldable pub weekend_or_generic : Database → Option (List ℕ) → Option ℕ → List ℕ × Option ℕ
  weekend_or_generic db none player_counter = next_generic_name db player_counter
  weekend_or_generic db (some []) player_counter = next_generic_name db player_counter
  weekend_or_generic db (some (c ∷ cs)) player_counter = (c ∷ cs, player_counter)

  -- The name of a driver, and the counter behind it.
  unfoldable pub name_driver : Database → ℕ → Participant → Option ℕ → List ℕ × Option ℕ
  name_driver db session_uid p player_counter =
      let driver_name = if is_empty p.name then [] else strip (without_zeros p.name) in
      if is_generic driver_name
      then weekend_or_generic db (find_weekend_driver_name db session_uid p.team_id p.race_number)
          player_counter
      else (driver_name, player_counter)

  unfoldable pub entry_of : ℕ → ℕ → List ℕ → Participant → Entry
  entry_of session_uid i driver_name p = record {
    session_uid = session_uid;
    car_index = i;
    driver_name = driver_name;
    team_id = p.team_id;
    race_number = p.race_number;
    nationality = p.nationality;
    driver_id = p.driver_id;
    network_id = p.network_id;
    my_team = truthy p.my_team;
    platform_id = p.platform;
    tech_level = p.tech_level;
    show_online_names = truthy p.show_online_names;
    telemetry_public = truthy p.your_telemetry;
    num_livery_colors = min p.num_colours 4;
    livery_colors = livery_colors (min p.num_colours 4) p.livery_colours;
  }

  -- The loop over the participants, from the car `i` on.
  unfoldable pub human_entries :
      Database → ℕ → ℕ → List Participant → Option ℕ → List Entry × Option ℕ
  human_entries db session_uid i [] player_counter = ([], player_counter)
  human_entries db session_uid i (p ∷ ps) player_counter =
      if is_skipped p
      then human_entries db session_uid (suc i) ps player_counter
      else let (driver_name, player_counter') = name_driver db session_uid p player_counter in
        let (entries, player_counter'') = human_entries db session_uid (suc i) ps player_counter' in
        (entry_of session_uid i driver_name p ∷ entries, player_counter'')

  -- The end of the method: a failed write leaves the state for the next packet to retry.
  unfoldable pub confirm : ℕ → Dict ℕ ℕ → State → Dict ℕ ℕ × State
  confirm session_uid [] st = (get_user_map session_uid st, st)
  confirm session_uid ((i, u) ∷ new_mappings) st =
      let user_map = merge (get_user_map session_uid st) ((i, u) ∷ new_mappings) in
      let humans = or_empty (Bounded.get st.written_humans session_uid) in
      (
        user_map,
        record st {
          user_map_cache = Bounded.set_item st.user_map_cache session_uid user_map;
          written_humans =
              Bounded.set_item st.written_humans session_uid
                (union humans (keys ((i, u) ∷ new_mappings)));
        },
      )

  -- The method behind the loop.
  unfoldable pub write_entries : Database → ℕ → List Entry → State → (Dict ℕ ℕ × State) × List Call
  write_entries db session_uid entries st =
      let humans = or_empty (Bounded.get st.written_humans session_uid) in
      let new_entries = unwritten humans entries in
      if same_set (map car_index_of entries) humans
      then ((get_user_map session_uid st, st), [])
      else if is_empty new_entries
      then ((get_user_map session_uid st, st), [])
      else let (new_mappings, calls) = insert_entries_batch db new_entries in
        (confirm session_uid new_mappings st, calls)

  -- `handle_participants_packet`
  unfoldable pub handle_participants_packet :
      Database → ℕ → ℕ → ParticipantsPacket → State → (Dict ℕ ℕ × State) × List Call
  handle_participants_packet db session_uid player_car_index packet st =
      let restricted = restricted_cars player_car_index 0 packet.participants in
      let (entries, player_counter) =
        human_entries db session_uid 0 packet.participants st.player_counter in
      write_entries db session_uid entries (record st {
        restricted_indices = Bounded.set_item st.restricted_indices session_uid restricted;
        player_counter = player_counter;
      })
