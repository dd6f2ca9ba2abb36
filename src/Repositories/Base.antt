-- ===== src/Repositories/Base.antt =====
-- listener/database/repositories/base.py: statements whose failures are logged and dropped. A
-- statement is what the database makes of it, its outcome; times are in microseconds.
pub mod Failures
use formula1_app.Prelude.{
  ℕ, suc, ◌-◌, ◌*◌, Bool, true, false, not, ◌||◌, Option, none, some, List, [], ◌∷◌, ◌++◌, is_empty,
  ltb, if◌then◌else◌,
}
use formula1_app.Prelude.Eq.{Eq, nat_eq, pair_eq, option_eq}
use formula1_app.Bounded
use formula1_app.Bounded.{BoundedDict}

-- The kind of an exception: its class, and its sqlstate if it has one.
abbrev pub Failure : Type 0
Failure = ℕ × Option ℕ

-- What becomes of a statement: there is no connection, an exception, or a result.
pub data Outcome (A : Type 0) : Type 0 where
  no_connection : Outcome A
  failed : Failure → Outcome A
  done : A → Outcome A

-- What a failure of one kind has left: the number of suppressed lines and the time of the last one.
abbrev pub Logged : Type 0
Logged = ℕ × ℕ

-- Table and failure.
abbrev pub Key : Type 0
Key = ℕ × Failure

pub data Line : Type 0 where
  -- The kind of statement (a batch or not), the table and the failure.
  failure_line : Bool → Key → Line
  -- The same with the number of failures since the last line, and the time since then.
  summary_line : Bool → Key → ℕ → ℕ → Line

-- `enabled` is the client's.
pub record Repository : Type 0 where
  pub enabled : Bool
  pub logged_failures : BoundedDict Key Logged
  pub lines : List Line

abbrev pub init : Bool → Repository
init enabled = record { enabled = enabled; logged_failures = Bounded.init 50; lines = [] }

-- _FAILURE_SUMMARY_INTERVAL_S
abbrev pub failure_summary_interval : ℕ
failure_summary_interval = 60 * 1000000

-- `_log_write_failure` for a failure that has been logged before. The count is changed in place.
unfoldable pub log_again : Bool → Key → ℕ → Logged → Repository → Repository
log_again batch key now (suppressed, last_logged) r =
    if ltb (now - last_logged) failure_summary_interval
    then record r {
      logged_failures = Bounded.alter r.logged_failures key (suc suppressed, last_logged);
    }
    else record r {
      logged_failures =
          Bounded.set_item (Bounded.alter r.logged_failures key (suc suppressed, last_logged)) key
            (0, now);
      lines = r.lines ++ summary_line batch key (suc suppressed) (now - last_logged) ∷ [];
    }

-- `_log_write_failure`
unfoldable pub log_write_failure : Bool → Key → ℕ → Repository → Repository
log_write_failure batch key now r = elim (Bounded.get r.logged_failures key) [
  | none ↦ record r {
    logged_failures = Bounded.set_item r.logged_failures key (0, now);
    lines = r.lines ++ failure_line batch key ∷ [];
  }
  | some logged ↦ log_again batch key now logged r
]

-- `_execute`: the number of rows, and 0 where there is none.
unfoldable pub execute : ℕ → ℕ → Outcome ℕ → Repository → ℕ × Repository
execute table now outcome r = if not r.enabled then (0, r) else elim outcome [
  | no_connection ↦ (0, r)
  | done rowcount ↦ (rowcount, r)
  | failed f ↦ (0, log_write_failure false (table, f) now r)
]

-- `_execute_many`
unfoldable pub execute_many :
    {A : Type 0} → ℕ → ℕ → List A → Outcome (Unit {0}) → Repository → Repository
execute_many table now params_list outcome r =
    if not r.enabled || is_empty params_list then r else elim outcome [
      | no_connection ↦ r
      | done _ ↦ r
      | failed f ↦ log_write_failure true (table, f) now r
    ]

-- What `_execute_many_strict` raises: ConnectionError, or the database's exception.
pub data StrictError : Type 0 where
  disabled : StrictError
  not_connected : StrictError
  database_error : Failure → StrictError

-- `_execute_many_strict`: `none` if it returns.
unfoldable pub execute_many_strict :
    {A : Type 0} → List A → Outcome (Unit {0}) → Repository → Option StrictError
execute_many_strict params_list outcome r =
    if is_empty params_list then none else if not r.enabled then some disabled else elim outcome [
      | no_connection ↦ some not_connected
      | done _ ↦ none
      | failed f ↦ some (database_error f)
    ]
