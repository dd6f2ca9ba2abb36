-- ===== src/Services/LobbyInfo.antt =====
-- listener/services/lobby_info.py: the lobby's roster. The repository swallows every database error.
use formula1_app.Prelude.{ℕ, Bool, List, map, take}
use formula1_app.Enums.Names.{EnumName, safe_enum_name}
use formula1_app.Enums.People.{nationalities, platform}
use formula1_app.Packets.Base.{truthy}
use formula1_app.Packets.LobbyInfo.{LobbyPlayer, LobbyInfoPacket}

-- The dictionary of a player.
pub record PlayerEntry : Type 0 where
  pub name : List ℕ
  pub team_id : ℕ
  pub car_number : ℕ
  pub nationality : EnumName
  pub platform_name : EnumName
  pub tech_level : ℕ
  pub ready_status : ℕ
  pub telemetry_public : Bool
  pub show_online_names : Bool
  pub ai_controlled : Bool

unfoldable pub player_entry : LobbyPlayer → PlayerEntry
player_entry p = record {
  name = p.m_name;
  team_id = p.team_id;
  car_number = p.car_number;
  nationality = safe_enum_name nationalities p.nationality;
  platform_name = safe_enum_name platform p.platform;
  tech_level = p.tech_level;
  ready_status = p.ready_status;
  telemetry_public = truthy p.your_telemetry;
  show_online_names = truthy p.show_online_names;
  ai_controlled = truthy p.ai_controlled;
}

-- `handle_lobby_info_packet`: the arguments of `upsert`.
unfoldable pub handle_lobby_info_packet : ℕ → LobbyInfoPacket → ℕ × (List PlayerEntry × ℕ)
handle_lobby_info_packet session_uid p =
    (session_uid, (map player_entry (take p.num_players p.lobby_players), p.num_players))
