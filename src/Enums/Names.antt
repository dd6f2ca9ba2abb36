-- ===== src/Enums/Names.antt =====
-- `safe_enum_name` of listener/database/repositories/base.py.
use formula1_app.Prelude.{ℕ, String, none, some}
use formula1_app.Prelude.Eq.{nat_eq}
use formula1_app.Dict
use formula1_app.Dict.{Dict}

-- The members of an enum, by value.
abbrev pub Enum : Type 0
Enum = Dict ℕ String

-- A stored name: a member's, or `UNKNOWN_<n>`.
pub data EnumName : Type 0 where
  named : String → EnumName
  unknown : ℕ → EnumName

unfoldable pub safe_enum_name : Enum → ℕ → EnumName
safe_enum_name enum value = elim (Dict.lookup value enum) [
  | none ↦ unknown value
  | some name ↦ named name
]
