-- ===== src/Packets/Events.antt =====
-- listener/packets/events.py, packet 3: the parser. An event code is the list of its four bytes.
pub mod Union
use formula1_app.Prelude.{
  ℕ, ◌+◌, Bool, true, false, ◌&&◌, List, [], ◌∷◌, String, take, drop, ltb, if◌then◌else◌,
}
use formula1_app.Prelude.Eq.{◌=?◌, nat_eq, list_eq}
use formula1_app.Result.{Result, ok, raise, ◌>>=◌, unicode_error}
use formula1_app.Struct.{Bytes, codes, calcsize, unpack}
use Union.{
  Event, EventPacket, no_event, fastest_lap, fastest_lap_of, retirement, retirement_of,
  team_mate_in_pits, team_mate_in_pits_of, race_winner, race_winner_of, penalty, penalty_of,
  speed_trap, speed_trap_of, start_lights, start_lights_of, drive_through_penalty_served,
  drive_through_penalty_served_of, stop_go_penalty_served, stop_go_penalty_served_of, flashback,
  flashback_of, buttons, buttons_of, overtake, overtake_of, safety_car, safety_car_of, collision,
  collision_of, drs_disabled, drs_disabled_of,
}

-- `Member(*struct.unpack(format, event_bytes[:calcsize(format)]))`
unfoldable pub member :
    {A : Type 0} → (A → Event) → (List ℕ → Result A) → String → Bytes → Result Event
unfolding calcsize unpack
member wrap of format bytes = do
  size ← calcsize format
  values ← unpack format (take size bytes)
  event ← of values
  ok (wrap event)

-- The `match` on the event code. A code that no case names has no event.
unfoldable pub unpack_event : List ℕ → Bytes → Result Event
unfolding member fastest_lap_of retirement_of team_mate_in_pits_of race_winner_of penalty_of
    speed_trap_of start_lights_of drive_through_penalty_served_of stop_go_penalty_served_of
    flashback_of buttons_of overtake_of safety_car_of collision_of drs_disabled_of
unpack_event code bytes =
    if code =? codes "FTLP"
    then member fastest_lap fastest_lap_of "<Bf" bytes
    else if code =? codes "RTMT"
    then member retirement retirement_of "<BB" bytes
    else if code =? codes "DRSE"
    then ok no_event
    else if code =? codes "DRSD"
    then member drs_disabled drs_disabled_of "<B" bytes
    else if code =? codes "TMPT"
    then member team_mate_in_pits team_mate_in_pits_of "<B" bytes
    else if code =? codes "RCWN"
    then member race_winner race_winner_of "<B" bytes
    else if code =? codes "PENA"
    then member penalty penalty_of "<7B" bytes
    else if code =? codes "SPTP"
    then member speed_trap speed_trap_of "<Bf3Bf" bytes
    else if code =? codes "STLG"
    then member start_lights start_lights_of "<B" bytes
    else if code =? codes "LGOT"
    then ok no_event
    else if code =? codes "DTSV"
    then member drive_through_penalty_served drive_through_penalty_served_of "<B" bytes
    else if code =? codes "SGSV"
    then member stop_go_penalty_served stop_go_penalty_served_of "<Bf" bytes
    else if code =? codes "FLBK"
    then member flashback flashback_of "<If" bytes
    else if code =? codes "RDFL"
    then ok no_event
    else if code =? codes "OVTK"
    then member overtake overtake_of "<2B" bytes
    else if code =? codes "SCAR"
    then member safety_car safety_car_of "<2B" bytes
    else if code =? codes "SSTA"
    then ok no_event
    else if code =? codes "SEND"
    then ok no_event
    else if code =? codes "CHQF"
    then ok no_event
    else if code =? codes "COLL"
    then member collision collision_of "<3B" bytes
    else if code =? codes "BUTN"
    then member buttons buttons_of "<I" bytes
    else ok no_event

-- `bytes.decode('ascii')` accepts the bytes below 128.
unfoldable pub is_ascii : List ℕ → Bool
is_ascii [] = true
is_ascii (c ∷ cs) = ltb c 128 && is_ascii cs

unfoldable pub unpack_event_packet : Bytes → Result EventPacket
unfolding is_ascii unpack_event
unpack_event_packet bytes = do
  code ← unpack "<4B" (take 4 bytes)
  event ← if is_ascii code then unpack_event code (drop 4 bytes) else raise unicode_error
  ok (record { event_string_code = code; event = event })
