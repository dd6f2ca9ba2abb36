-- ===== src/Packets/Participants.antt =====
-- listener/packets/participants.py, packet 4. A text is the list of its code points, and
-- `bytes.decode('utf-8')` is the parameter `decode_utf8`.
use formula1_app.Prelude.{ℕ, ◌==◌, if◌then◌else◌, List, [], ◌∷◌, take, drop}
use formula1_app.Result.{Result, ok, raise, ◌>>=◌, index_error}
use formula1_app.Struct.{Bytes, unpack, bytes_of}
use formula1_app.Packets.Base.{first, unpack_rows}

-- `name.rstrip(b'\x00')`
unfoldable pub rstrip_zeros : Bytes → Bytes
rstrip_zeros [] = []
rstrip_zeros (c ∷ cs) =
    let rest = rstrip_zeros cs in
    elim rest [ [] ↦ (if c == 0 then [] else c ∷ []) | (d ∷ ds) ↦ c ∷ d ∷ ds ]

pub record Participant : Type 0 where
  pub ai_controlled : ℕ
  pub driver_id : ℕ
  pub network_id : ℕ
  pub team_id : ℕ
  pub my_team : ℕ
  pub race_number : ℕ
  pub nationality : ℕ
  pub name : List ℕ
  pub your_telemetry : ℕ
  pub show_online_names : ℕ
  pub tech_level : ℕ
  pub platform : ℕ
  pub num_colours : ℕ
  pub livery_colours : List (ℕ × (ℕ × ℕ))

pub record ParticipantsPacket : Type 0 where
  pub num_active_cars : ℕ
  pub participants : List Participant

module _ (decode_utf8 : Bytes → Result (List ℕ)) where
  unfoldable pub participant_of : List ℕ → Result Participant
  unfolding rstrip_zeros
  participant_of
        (ai_controlled ∷ driver_id ∷ network_id ∷ team_id ∷ my_team ∷ race_number ∷ nationality
          ∷ name ∷ your_telemetry ∷ show_online_names ∷ tech_level ∷ platform ∷ num_colours ∷ r0
          ∷ g0 ∷ b0 ∷ r1 ∷ g1 ∷ b1 ∷ r2 ∷ g2 ∷ b2 ∷ r3 ∷ g3 ∷ b3 ∷ []) =
      do
        text ← decode_utf8 (rstrip_zeros (bytes_of 32 name))
        ok (record {
          ai_controlled = ai_controlled;
          driver_id = driver_id;
          network_id = network_id;
          team_id = team_id;
          my_team = my_team;
          race_number = race_number;
          nationality = nationality;
          name = text;
          your_telemetry = your_telemetry;
          show_online_names = show_online_names;
          tech_level = tech_level;
          platform = platform;
          num_colours = num_colours;
          livery_colours = (r0, (g0, b0)) ∷ (r1, (g1, b1)) ∷ (r2, (g2, b2)) ∷ (r3, (g3, b3)) ∷ [];
        })
  participant_of _ = raise index_error

  -- The first byte, and every row of the rest.
  unfoldable pub unpack_participants : Bytes → Result ParticipantsPacket
  unfolding participant_of
  unpack_participants bytes = do
    head ← unpack "<B" (take 1 bytes)
    cars ← first head
    rows ← unpack_rows participant_of "<B3H3B32s2BHBB12B" (drop 1 bytes)
    ok (record { num_active_cars = cars; participants = rows })
