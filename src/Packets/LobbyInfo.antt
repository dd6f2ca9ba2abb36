-- ===== src/Packets/LobbyInfo.antt =====
-- listener/packets/lobby_info.py, packet 9. `bytes.decode('utf-8')` is the parameter `decode_utf8`.
use formula1_app.Prelude.{ℕ, List, [], ◌∷◌, take, drop}
use formula1_app.Result.{Result, ok, raise, ◌>>=◌, index_error}
use formula1_app.Struct.{Bytes, unpack, bytes_of}
use formula1_app.Packets.Base.{first, unpack_rows}
use formula1_app.Packets.Participants.{rstrip_zeros}

pub record LobbyPlayer : Type 0 where
  pub ai_controlled : ℕ
  pub team_id : ℕ
  pub nationality : ℕ
  pub platform : ℕ
  pub m_name : List ℕ
  pub car_number : ℕ
  pub your_telemetry : ℕ
  pub show_online_names : ℕ
  pub tech_level : ℕ
  pub ready_status : ℕ

pub record LobbyInfoPacket : Type 0 where
  pub num_players : ℕ
  pub lobby_players : List LobbyPlayer

module _ (decode_utf8 : Bytes → Result (List ℕ)) where
  unfoldable pub lobby_player_of : List ℕ → Result LobbyPlayer
  lobby_player_of
        (ai_controlled ∷ team_id ∷ nationality ∷ platform ∷ m_name ∷ car_number ∷ your_telemetry
          ∷ show_online_names ∷ tech_level ∷ ready_status ∷ []) =
      do
        text ← decode_utf8 (rstrip_zeros (bytes_of 32 m_name))
        ok (record {
          ai_controlled = ai_controlled;
          team_id = team_id;
          nationality = nationality;
          platform = platform;
          m_name = text;
          car_number = car_number;
          your_telemetry = your_telemetry;
          show_online_names = show_online_names;
          tech_level = tech_level;
          ready_status = ready_status;
        })
  lobby_player_of _ = raise index_error

  unfoldable pub unpack_lobby_info : Bytes → Result LobbyInfoPacket
  unfolding lobby_player_of
  unpack_lobby_info bytes = do
    head ← unpack "<B" (take 1 bytes)
    players ← first head
    rows ← unpack_rows lobby_player_of "<BH2B32s3BHB" (drop 1 bytes)
    ok (record { num_players = players; lobby_players = rows })
