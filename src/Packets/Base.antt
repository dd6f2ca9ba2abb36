-- ===== src/Packets/Base.antt =====
-- What the packet parsers share: listener/packets/constants.py, and the loops over fixed-size rows
-- that each of them has.
use formula1_app.Prelude.{ℕ, ◌*◌, Bool, not, List, [], ◌∷◌, String, take, ◌==◌}
use formula1_app.Result.{Result, ok, raise, index_error, ◌>>=◌, traverse}
use formula1_app.Struct.{Bytes, calcsize, iter_unpack}

-- MAX_CARS
abbrev pub max_cars : ℕ
max_cars = 24

-- `bool(n)`
abbrev pub truthy : ℕ → Bool
truthy n = not (n == 0)

-- `[0]` of an unpacked tuple.
unfoldable pub first : List ℕ → Result ℕ
first [] = raise index_error
first (x ∷ _) = ok x

-- `for f in struct.iter_unpack(format, bytes): list.append(of(f))`
unfoldable pub unpack_rows : {A : Type 0} → (List ℕ → Result A) → String → Bytes → Result (List A)
unpack_rows of format bytes = do rows ← iter_unpack format bytes; traverse of rows

-- The same over the array of cars at the head of a packet's body.
unfoldable pub unpack_cars : {A : Type 0} → (List ℕ → Result A) → String → Bytes → Result (List A)
unpack_cars of format bytes = do
  size ← calcsize format
  unpack_rows of format (take (size * max_cars) bytes)
