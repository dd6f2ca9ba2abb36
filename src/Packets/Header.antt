-- ===== src/Packets/Header.antt =====
-- listener/packets/packet_header.py: the header of every packet, the table of body sizes, and the
-- filter for foreign traffic with its rate-limited log.
pub mod Validate
use formula1_app.Prelude.{
  ℕ, ◌<◌, Bool, true, false, not, ◌&&◌, ◌||◌, Option, none, some, List, [], ◌∷◌, ◌++◌, String, ltb,
  ◌==◌, if◌then◌else◌,
}
use formula1_app.Prelude.Eq.{nat_eq, pair_eq}
use formula1_app.Result.{Result, ok, raise, ◌>>=◌, type_error, packet_error}
use formula1_app.Struct.{Bytes, calcsize, unpack}
use formula1_app.Dict
use formula1_app.Dict.{Dict}
use formula1_app.Bounded
use formula1_app.Bounded.{BoundedSet}

-- `session_time` is a float, kept as its bit pattern.
pub record PacketHeader : Type 0 where
  pub packet_format : ℕ
  pub game_year : ℕ
  pub game_major_version : ℕ
  pub game_minor_version : ℕ
  pub packet_version : ℕ
  pub packet_id : ℕ
  pub session_uid : ℕ
  pub session_time : ℕ
  pub frame_identifier : ℕ
  pub overall_frame_identifier : ℕ
  pub player_car_index : ℕ
  pub secondary_player_car_index : ℕ

-- _PACKET_HEADER_FORMAT and its size
abbrev pub packet_header_format : String
packet_header_format = "<HBBBBBQfIIBB"

abbrev pub packet_header_size : ℕ
packet_header_size = 29

unfoldable pub packet_header_of : List ℕ → Result PacketHeader
packet_header_of (a ∷ b ∷ c ∷ d ∷ e ∷ f ∷ g ∷ h ∷ i ∷ j ∷ k ∷ l ∷ []) = ok (record {
  packet_format = a;
  game_year = b;
  game_major_version = c;
  game_minor_version = d;
  packet_version = e;
  packet_id = f;
  session_uid = g;
  session_time = h;
  frame_identifier = i;
  overall_frame_identifier = j;
  player_car_index = k;
  secondary_player_car_index = l;
})
packet_header_of _ = raise type_error

unfoldable pub unpack_packet_header : Bytes → Result PacketHeader
unfolding packet_header_of
unpack_packet_header bytes = do values ← unpack packet_header_format bytes; packet_header_of values

-- EXPECTED_BODY_SIZE
abbrev pub expected_body_size : Dict ℕ ℕ
expected_body_size =
    (0, 1296)
    ∷ (1, 897)
    ∷ (2, 1370)
    ∷ (4, 1441)
    ∷ (5, 1204)
    ∷ (6, 1419)
    ∷ (7, 1416)
    ∷ (8, 1105)
    ∷ (9, 1033)
    ∷ (10, 1104)
    ∷ (11, 1431)
    ∷ (12, 202)
    ∷ (13, 244)
    ∷ (14, 75)
    ∷ (15, 1202)
    ∷ (16, 240)
    ∷ []

-- `packet_id in VARIABLE_LENGTH_PACKET_IDS`
unfoldable pub is_variable_length : ℕ → Bool
is_variable_length i = i == 8 || (i == 9 || i == 11)

abbrev pub max_packet_id : ℕ
max_packet_id = 16

abbrev pub max_car_index : ℕ
max_car_index = 23

abbrev pub no_player_car_index : ℕ
no_player_car_index = 255

abbrev pub expected_packet_version : ℕ
expected_packet_version = 1

-- The lines that the module logs.
pub data Warning : Type 0 where
  wrong_format : ℕ → Warning
  wrong_version : ℕ → ℕ → Warning

-- The module's two sets of what has been logged, and the log.
pub record Log : Type 0 where
  pub format_rejections : BoundedSet (ℕ × ℕ)
  pub version_warnings : BoundedSet (ℕ × (ℕ × ℕ))
  pub lines : List Warning

abbrev pub init : Log
init = record {
  format_rejections = Bounded.init 200;
  version_warnings = Bounded.init 200;
  lines = [];
}

-- `_log_format_rejection_once`
unfoldable pub log_format_rejection_once : PacketHeader → Log → Log
log_format_rejection_once h l =
    let key : ℕ × ℕ = (h.session_uid, h.packet_format) in
    if Bounded.has l.format_rejections key then l else record l {
      format_rejections = Bounded.add l.format_rejections key;
      lines = l.lines ++ wrong_format h.packet_format ∷ [];
    }

-- The version check at the end of `validate_packet_header`.
unfoldable pub log_version_once : PacketHeader → Log → Log
log_version_once h l =
    let key : ℕ × (ℕ × ℕ) = (h.session_uid, (h.packet_id, h.packet_version)) in
    if h.packet_version == expected_packet_version
    then l
    else if Bounded.has l.version_warnings key
    then l
    else record l {
      version_warnings = Bounded.add l.version_warnings key;
      lines = l.lines ++ wrong_version h.packet_id h.packet_version ∷ [];
    }

-- `validate_packet_header`
unfoldable pub validate_packet_header : PacketHeader → Log → Result (Unit {0}) × Log
unfolding log_format_rejection_once log_version_once
validate_packet_header h l =
    if not (h.packet_format == 2026)
    then (raise packet_error, log_format_rejection_once h l)
    else if ltb max_packet_id h.packet_id
    then (raise packet_error, l)
    else if ltb max_car_index h.player_car_index && not (h.player_car_index == no_player_car_index)
    then (raise packet_error, l)
    else (ok tt, log_version_once h l)
