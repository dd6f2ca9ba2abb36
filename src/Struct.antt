-- ===== src/Struct.antt =====
-- The part of Python's `struct` module that the packet parsers use: little-endian formats without
-- padding. A value is carried as the number that its bytes spell, least significant byte first; so
-- a signed field is its two's complement, a float its IEEE bit pattern, and the bytes of an `s`
-- field come back by `bytes_of`.
pub mod Laws
use Prim.Native.Char.{code}
use Prim.Native.String.{String}
use formula1_app.Prelude.{
  ℕ, zero, suc, ◌+◌, ◌-◌, ◌*◌, ◌/◌, ◌%◌, ◌≡◌, refl, Bool, true, false, ◌&&◌, Option, none, some,
  List, [], ◌∷◌, ◌++◌, length, take, drop, replicate, leb, if◌then◌else◌, ◌==◌,
}
use formula1_app.Result.{Error, Result, ok, raise, struct_error}

abbrev pub Bytes : Type 0
Bytes = List ℕ

-- The code points of a text: its bytes, if it is ASCII.
abbrev pub codes : String → List ℕ
codes String.[] = []
codes (String.◌∷◌ c s) = code c ∷ codes s

-- The size of a format character; `none` for a character that is none.
unfoldable pub width? : ℕ → Option ℕ
width? c =
    if c == b'B'
    then some 1
    else if c == b'b'
    then some 1
    else if c == b'H'
    then some 2
    else if c == b'h'
    then some 2
    else if c == b'I'
    then some 4
    else if c == b'L'
    then some 4
    else if c == b'f'
    then some 4
    else if c == b'Q'
    then some 8
    else if c == b'd'
    then some 8
    else none

-- The fields that `count` and a format character stand for. A count is the length of an `s` field,
-- and for every other character the number of fields.
unfoldable pub fields_of : Option ℕ → ℕ → Option (List ℕ)
unfolding width?
fields_of count c =
    let n : ℕ = elim count [ none ↦ 1 | some k ↦ k ] in
    if c == b's'
    then some (n ∷ [])
    else elim (width? c) [ none ↦ none | some w ↦ some (replicate n w) ]

-- The characters behind the `<`, after the digits of a count.
unfoldable pub parse_fields : Option ℕ → List ℕ → Option (List ℕ)
unfolding fields_of
parse_fields none [] = some []
parse_fields (some n) [] = none
parse_fields count (c ∷ cs) =
    let digit : ℕ = elim count [ none ↦ c - b'0' | some n ↦ 10 * n + (c - b'0') ] in
    let more = parse_fields (some digit) cs in
    let next = parse_fields none cs in
    if leb b'0' c && leb c b'9' then more else elim (fields_of count c) [
      | none ↦ none
      | some ws ↦ elim next [ none ↦ none | some rest ↦ some (ws ++ rest) ]
    ]

-- The widths of a format's fields, in order.
unfoldable pub parse_format : String → Option (List ℕ)
unfolding parse_fields
parse_format format = elim (codes format) [
  | [] ↦ none
  | c ∷ cs ↦ if c == b'<' then parse_fields none cs else none
]

unfoldable pub sum : List ℕ → ℕ
sum [] = 0
sum (w ∷ ws) = w + sum ws

-- `struct.calcsize`
unfoldable pub calcsize : String → Result ℕ
calcsize format = elim (parse_format format) [ none ↦ raise struct_error | some ws ↦ ok (sum ws) ]

-- The number that bytes spell, and the bytes of a number.
unfoldable pub number : Bytes → ℕ
number [] = 0
number (b ∷ bs) = b + 256 * number bs

unfoldable pub bytes_of : ℕ → ℕ → Bytes
bytes_of zero v = []
bytes_of (suc w) v = v % 256 ∷ bytes_of w (v / 256)

unfoldable pub read_fields : List ℕ → Bytes → List ℕ
read_fields [] bytes = []
read_fields (w ∷ ws) bytes = number (take w bytes) ∷ read_fields ws (drop w bytes)

unfoldable pub unpack_fields : List ℕ → Bytes → Result (List ℕ)
unpack_fields ws bytes =
    if length bytes == sum ws then ok (read_fields ws bytes) else raise struct_error

-- `struct.unpack`
unfoldable pub unpack : String → Bytes → Result (List ℕ)
unpack format bytes = elim (parse_format format) [
  | none ↦ raise struct_error
  | some ws ↦ unpack_fields ws bytes
]

unfoldable pub read_rows : List ℕ → ℕ → Bytes → List (List ℕ)
read_rows ws zero bytes = []
read_rows ws (suc n) bytes =
    read_fields ws (take (sum ws) bytes) ∷ read_rows ws n (drop (sum ws) bytes)

-- `struct.iter_unpack`: rows until the bytes end, which must be a whole number of rows.
unfoldable pub iter_unpack_fields : List ℕ → Bytes → Result (List (List ℕ))
iter_unpack_fields ws bytes =
    if sum ws == 0
    then raise struct_error
    else if length bytes % sum ws == 0
    then ok (read_rows ws (length bytes / sum ws) bytes)
    else raise struct_error

unfoldable pub iter_unpack : String → Bytes → Result (List (List ℕ))
iter_unpack format bytes = elim (parse_format format) [
  | none ↦ raise struct_error
  | some ws ↦ iter_unpack_fields ws bytes
]

-- `struct.pack` for values in range, by which the game writes its packets.
unfoldable pub pack_fields : List ℕ → List ℕ → Bytes
pack_fields [] vs = []
pack_fields (w ∷ ws) [] = []
pack_fields (w ∷ ws) (v ∷ vs) = bytes_of w v ++ pack_fields ws vs
