-- ===== src/Services/Session/Anchor.antt =====
-- A session is inserted once, and its wall-clock anchor does not move: listener/services/session.py.
use formula1_app.Prelude.{
  ℕ, ◌%◌, ◌^◌, ◌≡◌, refl, ap, ◌∙◌, true, Option, none, some, List, [], ◌∷◌, ◌++◌, is_empty, take,
  Bool-cases, inl, inr, if_both, ◌==◌,
}
use formula1_app.Prelude.Eq.{◌=?◌, nat_eq, option_eq}
use formula1_app.Result.{Result, ok, raise}
use formula1_app.Bounded
use formula1_app.Bounded.Entries.{has-add}
use formula1_app.Packets.Header.{PacketHeader}
use formula1_app.Packets.Session.{SessionPacket, WeatherForecastSample}
use formula1_app.Services.Session.Rows.{Value, timeline_row, session_row}
use formula1_app.Services.Session.{
  Call, update_track_technical_data, insert_session, capture_start_reaction_time,
  insert_timeline_entry, upsert_weather_forecast, State, Clock, insert_first, insert_if_new,
  capture_reaction, insert_timeline, update_weather_forecast, handle_session_packet,
  resolve_session_type, track_data,
}

-- The rows of sessions that calls insert.
unfoldable pub inserted : List Call → List (List Value)
inserted [] = []
inserted (update_track_technical_data _ ∷ cs) = inserted cs
inserted (insert_session row ∷ cs) = row ∷ inserted cs
inserted (capture_start_reaction_time _ _ ∷ cs) = inserted cs
inserted (insert_timeline_entry _ ∷ cs) = inserted cs
inserted (upsert_weather_forecast _ _ _ ∷ cs) = inserted cs

inserted-append : (xs ys : List Call) → inserted (xs ++ ys) ≡ inserted xs ++ inserted ys
unfolding inserted
inserted-append [] ys = refl
inserted-append (update_track_technical_data _ ∷ xs) ys = inserted-append xs ys
inserted-append (insert_session row ∷ xs) ys = ap (λ l. row ∷ l) (inserted-append xs ys)
inserted-append (capture_start_reaction_time _ _ ∷ xs) ys = inserted-append xs ys
inserted-append (insert_timeline_entry _ ∷ xs) ys = inserted-append xs ys
inserted-append (upsert_weather_forecast _ _ _ ∷ xs) ys = inserted-append xs ys

-- The anchors and the sessions seen are those of another state, and no session is inserted.
Keeps : State → State × List Call → Type 0
Keeps st r =
    (r.0.session_starts ≡ st.session_starts)
    × (r.0.seen_sessions ≡ st.seen_sessions)
    × (inserted r.1 ≡ [])

capture_reaction-Keeps :
    (h : PacketHeader) (p : SessionPacket) (st : State) → Keeps st (capture_reaction h p st)
unfolding capture_reaction Keeps inserted
capture_reaction-Keeps h p st =
    if_both (Keeps st) (p.start_reaction_time % 2 ^ 31 == 0) (refl, refl, refl)
      (if_both (Keeps st) (Bounded.has st.start_reaction_captured h.session_uid) (refl, refl, refl)
        (refl, refl, refl))

update_weather_forecast-Keeps :
    (hash : List WeatherForecastSample → ℕ) (h : PacketHeader) (p : SessionPacket) (st : State)
    → Keeps st (update_weather_forecast hash h p st)
unfolding update_weather_forecast Keeps inserted
update_weather_forecast-Keeps hash h p st =
    let samples = take p.num_weather_forecast_samples p.weather_forecast_samples in
    if_both (Keeps st) (is_empty samples) (refl, refl, refl)
      (if_both (Keeps st) (Bounded.get st.last_forecast_hash h.session_uid =? some (hash samples))
        (refl, refl, refl) (refl, refl, refl))

no_insert : (xs ys : List Call) → inserted xs ≡ [] → inserted ys ≡ [] → inserted (xs ++ ys) ≡ []
no_insert xs ys p q = inserted-append xs ys ∙ rw (p, q) refl

sampled_at :
    (row : ℕ → List Value) (r : Result ℕ)
    → inserted
        (elim r as (λ _. List Call) [ raise _ ↦ [] | ok t ↦ insert_timeline_entry (row t) ∷ [] ])
      ≡ []
unfolding inserted
sampled_at row (ok t) = refl
sampled_at row (raise x) = refl

inserted-insert_timeline :
    (clock : Clock) (h : PacketHeader) (p : SessionPacket) (st : State)
    → inserted (insert_timeline clock h p st) ≡ []
unfolding insert_timeline
inserted-insert_timeline clock h p st = sampled_at (timeline_row h p) _

-- The end of the handler, behind the insert.
rest-Keeps :
    (hash : List WeatherForecastSample → ℕ) (clock : Clock) (h : PacketHeader) (p : SessionPacket)
    (st : State) (before : List Call)
    → inserted before ≡ []
    → Keeps st (
      (update_weather_forecast hash h p (capture_reaction h p st).0).0,
      before
          ++ (capture_reaction h p st).1
          ++ insert_timeline clock h p (capture_reaction h p st).0
          ++ (update_weather_forecast hash h p (capture_reaction h p st).0).1,
    )
unfolding Keeps
rest-Keeps hash clock h p st before e =
    let (a, b, c) = capture_reaction-Keeps h p st in
    let (a', b', c') = update_weather_forecast-Keeps hash h p (capture_reaction h p st).0 in
    (
      a' ∙ a,
      b' ∙ b,
      no_insert _ _
          (no_insert _ _ (no_insert before _ e c)
            (inserted-insert_timeline clock h p (capture_reaction h p st).0))
          c',
    )

-- The handler behind a first packet.
seen_Keeps :
    (hash : List WeatherForecastSample → ℕ) (clock : Clock) (stored_start : Option ℕ)
    (h : PacketHeader) (p : SessionPacket) (st : State)
    → Bounded.has st.seen_sessions h.session_uid ≡ true
    → Keeps st (handle_session_packet hash clock stored_start h p st)
unfolding handle_session_packet insert_if_new inserted Keeps
seen_Keeps hash clock stored_start h p st seen = rw seen (rest-Keeps hash clock h p _ [] refl)

insert_first-seen_sessions :
    (clock : Clock) (stored_start : Option ℕ) (h : PacketHeader) (p : SessionPacket) (t : ℕ)
    (st : State)
    → (insert_first clock stored_start h p t st).0.seen_sessions ≡ st.seen_sessions
unfolding insert_first
insert_first-seen_sessions clock stored_start h p t st =
    seen_at (clock.minus_seconds clock.now h.session_time)
  where
    seen_at :
        (r : Result ℕ)
        → (elim r as (λ _. State × List Call) [
          | raise _ ↦ (st, [])
          | ok session_start ↦ (
            record st {
              session_starts =
                  Bounded.set_item st.session_starts h.session_uid
                    (elim stored_start [ none ↦ session_start | some s ↦ s ]);
            },
            update_track_technical_data (track_data p)
                ∷ insert_session (session_row h p t session_start)
                ∷ [],
          )
        ]).0.seen_sessions
          ≡ st.seen_sessions
    seen_at (ok s) = refl
    seen_at (raise x) = refl

first_seen :
    (clock : Clock) (stored_start : Option ℕ) (h : PacketHeader) (p : SessionPacket) (t : ℕ)
    (st : State)
    → Bounded.IsValid st.seen_sessions
    → Bounded.has (insert_if_new clock stored_start h p t st).0.seen_sessions h.session_uid ≡ true
unfolding insert_if_new
first_seen clock stored_start h p t st v =
    elim (Bool-cases (Bounded.has st.seen_sessions h.session_uid)) [
      | inl y ↦ rw (insert_if_new, y) y
      | inr n ↦
          rw (insert_if_new, n)
            (rw (insert_first-seen_sessions clock stored_start h p t st)
              (has-add st.seen_sessions h.session_uid v))
    ]

packet_seen :
    (hash : List WeatherForecastSample → ℕ) (clock : Clock) (stored_start : Option ℕ)
    (h : PacketHeader) (p : SessionPacket) (st : State)
    → Bounded.IsValid st.seen_sessions
    → Bounded.has
        (handle_session_packet hash clock stored_start h p st).0.seen_sessions
        h.session_uid
      ≡ true
unfolding handle_session_packet Keeps inserted
packet_seen hash clock stored_start h p st v =
    ap (λ s. Bounded.has s h.session_uid) (rest-Keeps hash clock h p _ [] refl).1
    ∙ first_seen clock stored_start h p (resolve_session_type p) _ v

-- With valid seen sessions, after one Session packet of a session a second one of the same session
-- inserts no session row and moves no session's wall-clock anchor.
pub handle_session_packet_again :
    (hash : List WeatherForecastSample → ℕ) (clock clock' : Clock)
    (stored_start stored_start' : Option ℕ) (h h' : PacketHeader) (p p' : SessionPacket)
    (st : State)
    → Bounded.IsValid st.seen_sessions
    → h'.session_uid ≡ h.session_uid
    → ((handle_session_packet hash clock' stored_start' h' p'
          (handle_session_packet hash clock stored_start h p st).0).0.session_starts
        ≡ (handle_session_packet hash clock stored_start h p st).0.session_starts)
      × (inserted
            (handle_session_packet hash clock' stored_start' h' p'
              (handle_session_packet hash clock stored_start h p st).0).1
          ≡ [])
unfolding Keeps
handle_session_packet_again hash clock clock' stored_start stored_start' h h' p p' st v e =
    let (a, b, c) =
      seen_Keeps hash clock' stored_start' h' p'
        (handle_session_packet hash clock stored_start h p st).0
        (rw e (packet_seen hash clock stored_start h p st v)) in
    (a, c)
