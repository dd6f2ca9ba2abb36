-- ===== src/Packets/Header/Validate.antt =====
-- What the header filter lets through, and how often it logs.
use formula1_app.Prelude.{ℕ, ◌≤◌, ◌≡◌, ◌↔◌, ◌⊎◌, refl, List, [], ◌∷◌, arith}
use formula1_app.Prelude.Eq.{nat_eq, pair_eq}
use formula1_app.Result.{ok}
use formula1_app.Struct.{parse_format, pack_fields}
use formula1_app.Struct.Laws.{Fits, unpack-eq, unpack_fields-pack_fields}
use formula1_app.Bounded
use formula1_app.Bounded.Laws.{has-add_self}
use formula1_app.Packets.Header.{
  PacketHeader, packet_header_format, unpack_packet_header, Log, log_format_rejection_once,
  log_version_once, validate_packet_header,
}

-- The headers that the listener takes: format 2026, a known packet id, and a player index that is
-- a car or says that there is no player.
pub record IsTaken (h : PacketHeader) : Type 0 where
  pub format_2026 : h.packet_format ≡ 2026
  pub known_id : h.packet_id ≤ 16
  pub player : (h.player_car_index ≤ 23) ⊎ (h.player_car_index ≡ 255)

-- A header passes validation exactly when its format is 2026, its packet id is at most 16 and its
-- player index is a car or 255, whatever has been logged.
pub validate_packet_header_iff :
    (h : PacketHeader) (l : Log) → ((validate_packet_header h l).0 ≡ ok tt) ↔ IsTaken h
unfolding validate_packet_header
validate_packet_header_iff h l = (λ e. ground arith, λ t. ground arith)

-- The twelve fields of the header in the order of the wire.
abbrev pub header_values : PacketHeader → List ℕ
header_values h =
    h.packet_format ∷ h.game_year ∷ h.game_major_version ∷ h.game_minor_version ∷ h.packet_version
    ∷ h.packet_id ∷ h.session_uid ∷ h.session_time ∷ h.frame_identifier ∷ h.overall_frame_identifier
    ∷ h.player_car_index ∷ h.secondary_player_car_index ∷ []

-- Their widths in bytes.
abbrev pub header_widths : List ℕ
header_widths = 2 ∷ 1 ∷ 1 ∷ 1 ∷ 1 ∷ 1 ∷ 8 ∷ 4 ∷ 4 ∷ 4 ∷ 1 ∷ 1 ∷ []

-- A header whose fields fit their widths is read back from its little-endian bytes.
pub unpack-pack_header :
    (h : PacketHeader)
    → Fits header_widths (header_values h)
    → unpack_packet_header (pack_fields header_widths (header_values h)) ≡ ok h
unfolding unpack_packet_header parse_format
unpack-pack_header h fits = rw (
  unpack-eq packet_header_format header_widths refl (pack_fields header_widths (header_values h)),
  unpack_fields-pack_fields header_widths (header_values h) fits,
)

-- With a valid set of logged rejections, rejecting a second packet of the same session and format
-- changes nothing and logs nothing.
log_format_rejection_once_idem :
    (h : PacketHeader) (l : Log)
    → Bounded.IsValid l.format_rejections
    → log_format_rejection_once h (log_format_rejection_once h l) ≡ log_format_rejection_once h l
unfolding log_format_rejection_once
log_format_rejection_once_idem h l v =
    ground (arith, has-add_self l.format_rejections (h.session_uid, h.packet_format) v)

-- So does a second packet of the same session, id and unexpected version.
pub log_version_once_idem :
    (h : PacketHeader) (l : Log)
    → Bounded.IsValid l.version_warnings
    → log_version_once h (log_version_once h l) ≡ log_version_once h l
unfolding log_version_once
log_version_once_idem h l v =
    ground
      (arith, has-add_self l.version_warnings (h.session_uid, (h.packet_id, h.packet_version)) v)
