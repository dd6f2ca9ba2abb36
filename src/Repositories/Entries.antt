-- ===== src/Repositories/Entries.antt =====
-- listener/database/repositories/entries.py: the drivers of a session. The failures that the methods
-- log are in Repositories/Base.antt.
use formula1_app.Prelude.{
  ℕ, Bool, true, false, not, ◌||◌, Option, none, some, List, [], ◌∷◌, map, is_empty, ◌==◌,
  if◌then◌else◌,
}
use formula1_app.Prelude.Eq.{nat_eq, list_eq}
use formula1_app.Dict
use formula1_app.Dict.{Dict}
use formula1_app.Enums.Names.{EnumName, safe_enum_name}
use formula1_app.Enums.People.{nationalities, platform, teams}
use formula1_app.Repositories.Base.{Outcome, no_connection, failed, done}

-- The dictionary of a driver that ParticipantsService makes.
pub record Entry : Type 0 where
  pub session_uid : ℕ
  pub car_index : ℕ
  pub driver_name : List ℕ
  pub team_id : ℕ
  pub race_number : ℕ
  pub nationality : ℕ
  pub driver_id : ℕ
  pub network_id : ℕ
  pub my_team : Bool
  pub platform_id : ℕ
  pub tech_level : ℕ
  pub show_online_names : Bool
  pub telemetry_public : Bool
  pub num_livery_colors : ℕ
  pub livery_colors : List ℕ

-- A row of telemetry.entries: the driver's id, the name of the platform, and the entry's other values.
pub record EntryRow : Type 0 where
  pub user_id : ℕ
  pub platform_name : EnumName
  pub entry : Entry

-- `_execute_many` of ensure_teams and of the nationalities, `_execute_many_strict` of the entries.
pub data Call : Type 0 where
  insert_teams : List (ℕ × EnumName) → Call
  insert_entries : List EntryRow → Call
  update_nationalities : List (EnumName × ℕ) → Call

-- What the database answers while a packet is handled: a driver's name in another session of the
-- weekend, the highest number of a generic name, the ids of the drivers, and what becomes of the
-- entries.
pub record Database : Type 0 where
  pub enabled : Bool
  pub weekend_driver : ℕ → ℕ → ℕ → Outcome (Option (List ℕ))
  pub max_player : Outcome ℕ
  pub get_or_create_driver : Outcome (List ℕ → Option ℕ)
  pub entries_written : List EntryRow → Outcome (Unit {0})

-- `find_weekend_driver_name`
unfoldable pub find_weekend_driver_name : Database → ℕ → ℕ → ℕ → Option (List ℕ)
find_weekend_driver_name db session_uid team_id race_number =
    if not db.enabled then none else elim (db.weekend_driver session_uid team_id race_number) [
      | no_connection ↦ none
      | failed _ ↦ none
      | done row ↦ row
    ]

-- `max_player_number`
unfoldable pub max_player_number : Database → ℕ
max_player_number db =
    if not db.enabled
    then 0
    else elim db.max_player [ no_connection ↦ 0 | failed _ ↦ 0 | done n ↦ n ]

-- `name.replace("\x00", "")`
unfoldable pub without_zeros : List ℕ → List ℕ
without_zeros [] = []
without_zeros (c ∷ cs) = let rest = without_zeros cs in if c == 0 then rest else c ∷ rest

unfoldable pub clean : Entry → Entry
clean e = record e { driver_name = without_zeros e.driver_name }

-- `ensure_teams`: the rows without the display names. A set is a list without repeats, in the order
-- of its first elements; the statement's rows are sorted.
unfoldable pub insert_id : ℕ → List ℕ → List ℕ
insert_id n [] = n ∷ []
insert_id n (m ∷ ms) =
    let rest = insert_id n ms in
    elim (Prim.Native.Nat.compare n m) [
      | Prim.Native.Nat.Ordering.lt ↦ n ∷ m ∷ ms
      | Prim.Native.Nat.Ordering.eq ↦ m ∷ ms
      | Prim.Native.Nat.Ordering.gt ↦ m ∷ rest
    ]

unfoldable pub team_ids : List Entry → List ℕ
team_ids [] = []
team_ids (e ∷ es) = insert_id e.team_id (team_ids es)

unfoldable pub team_row : ℕ → ℕ × EnumName
team_row team_id = (team_id, safe_enum_name teams team_id)

-- The loop of `_resolve_user_ids`. A name that stands twice gets one answer.
unfoldable pub resolve_names : (List ℕ → Option ℕ) → List Entry → Dict (List ℕ) ℕ → Dict (List ℕ) ℕ
resolve_names answer [] ids = ids
resolve_names answer (e ∷ es) ids =
    resolve_names answer es (elim (answer e.driver_name) [
      | none ↦ ids
      | some user_id ↦ Dict.put e.driver_name user_id ids
    ])

-- `_resolve_user_ids`
unfoldable pub resolve_user_ids : Database → List Entry → Dict (List ℕ) ℕ
resolve_user_ids db entries =
    if is_empty entries || not db.enabled then [] else elim db.get_or_create_driver [
      | no_connection ↦ []
      | failed _ ↦ []
      | done answer ↦ resolve_names answer entries []
    ]

-- The rows that the loop of `insert_entries_batch` makes: entries without a user id are skipped.
unfoldable pub entry_rows : Dict (List ℕ) ℕ → List Entry → List EntryRow
entry_rows ids [] = []
entry_rows ids (e ∷ es) =
    let rest = entry_rows ids es in
    elim (Dict.lookup e.driver_name ids) [
      | none ↦ rest
      | some user_id ↦
          record {
            user_id = user_id;
            platform_name = safe_enum_name platform e.platform_id;
            entry = e;
          }
          ∷ rest
    ]

-- `car_index_to_user_id`
unfoldable pub car_users : List EntryRow → Dict ℕ ℕ → Dict ℕ ℕ
car_users [] m = m
car_users (r ∷ rs) m = car_users rs (Dict.put r.entry.car_index r.user_id m)

-- `nationality_updates`
unfoldable pub nationality_update : EntryRow → EnumName × ℕ
nationality_update r = (safe_enum_name nationalities r.entry.nationality, r.user_id)

-- The exception of `_execute_many_strict`, for rows that are not empty.
unfoldable pub accepts_entries : Database → List EntryRow → Bool
accepts_entries db rows =
    if not db.enabled
    then false
    else elim (db.entries_written rows) [ no_connection ↦ false | failed _ ↦ false | done _ ↦ true ]

-- `insert_entries_batch` behind the resolution of the names.
unfoldable pub insert_rows : Database → List EntryRow → Dict ℕ ℕ × List Call
insert_rows db rows =
    if is_empty rows
    then ([], [])
    else if not (accepts_entries db rows)
    then ([], insert_entries rows ∷ [])
    else (
      car_users rows [],
      insert_entries rows ∷ update_nationalities (map nationality_update rows) ∷ [],
    )

-- `insert_entries_batch`
unfoldable pub insert_entries_batch : Database → List Entry → Dict ℕ ℕ × List Call
insert_entries_batch db entries =
    if is_empty entries
    then ([], [])
    else let cleaned = map clean entries in
      let (users, calls) = insert_rows db (entry_rows (resolve_user_ids db cleaned) cleaned) in
      (users, insert_teams (map team_row (team_ids cleaned)) ∷ calls)
