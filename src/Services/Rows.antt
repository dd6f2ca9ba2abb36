-- ===== src/Services/Rows.antt =====
-- The values of the rows that the services hand to the database.
pub mod Fields
pub mod Columns
use formula1_app.Prelude.{
  ℕ, ◌+◌, ◌*◌, ◌%◌, ◌^◌, Bool, List, Option, none, some, ◌==◌, if◌then◌else◌,
}
use formula1_app.Result.{Result, ok, raise, ◌>>=◌}
use formula1_app.Packets.Motion.{Quotient}

-- A number is an integer, or the bits of a float as the packet has them; a uid is the text of the
-- number; a time is a wall-clock time.
pub data Value : Type 0 where
  null : Value
  num : ℕ → Value
  bool : Bool → Value
  quotient : Quotient → Value
  uid : ℕ → Value
  time : ℕ → Value

-- A tuple of an INSERT.
abbrev pub Row : Type 0
Row = List Value

-- `n or None` and `n if n else None`
abbrev pub or_null : ℕ → Value
or_null n = if n == 0 then null else num n

-- `x or None` on the bits of a float32: both zeros are false.
abbrev pub float_or_null : ℕ → Value
float_or_null x = if x % 2 ^ 31 == 0 then null else num x

-- `n if n != _NOT_SET else None`
abbrev pub set_or_null : ℕ → Value
set_or_null n = if n == 255 then null else num n

-- `_split_time_ms`
unfoldable pub split_time_ms : ℕ → ℕ → ℕ
split_time_ms minutes_part ms_part = minutes_part * 60000 + ms_part

-- A row's timestamp: the session's anchor and the seconds of the session, or the clock where there
-- is no anchor. `plus_seconds` is the sum of a datetime and a timedelta, which raises on seconds
-- that are not finite or out of range.
unfoldable pub timestamp : (ℕ → ℕ → Result ℕ) → Option ℕ → ℕ → ℕ → Result ℕ
timestamp plus_seconds none session_time now = ok now
timestamp plus_seconds (some session_start) session_time now =
    plus_seconds session_start session_time
