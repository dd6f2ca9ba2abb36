-- ===== src/Services/LapHistory/Bests.antt =====
-- The deduplication of session bests: listener/services/lap_history.py.
use formula1_app.Prelude.{
  ℕ, ◌≡◌, refl, Bool, true, false, some, List, [], ◌∷◌, ◌++◌, any, is_empty, if_both, arith,
  Bool-cases, inl, inr,
}
use formula1_app.Prelude.Eq.{◌=?◌, =?-refl, eq_of_=?, nat_eq, pair_eq, option_eq}
use mathlib.Core.List.{append-nil}
use formula1_app.Dict
use formula1_app.Dict.{Dict}
use formula1_app.Bounded
use formula1_app.Bounded.Laws.{get-set_item}
use formula1_app.Packets.SessionHistory.{SessionHistoryPacket}
use formula1_app.Services.LapHistory.{
  Call, State, bests_of, upsert_session_bests, upsert_laps, lap_batch, or_zero,
  handle_session_history_packet,
}

module _ (session_uid user_id : ℕ) where
  abbrev key : ℕ × ℕ
  key = (session_uid, user_id)

  -- The test of `_upsert_session_bests`: the bests are those that were written last.
  abbrev same : SessionHistoryPacket → State → Bool
  same p st = Bounded.get st.last_bests key =? some (bests_of p)

  abbrev recorded : SessionHistoryPacket → State → State
  recorded p st = record st { last_bests = Bounded.set_item st.last_bests key (bests_of p) }

  upsert-same :
      (p : SessionHistoryPacket) (st : State)
      → st.bests_repo ≡ true
      → same p st ≡ true
      → upsert_session_bests session_uid user_id p st ≡ (st, [])
  unfolding upsert_session_bests
  upsert-same p st repo e = rw (repo, upsert_session_bests, e) refl

  upsert-new :
      (p : SessionHistoryPacket) (st : State)
      → st.bests_repo ≡ true
      → same p st ≡ false
      → upsert_session_bests session_uid user_id p st
        ≡ (recorded p st, Call.upsert_bests session_uid user_id (bests_of p) ∷ [])
  unfolding upsert_session_bests
  upsert-new p st repo e = rw (repo, upsert_session_bests, e) refl

  same_of_eq :
      (p q : SessionHistoryPacket) (st : State)
      → bests_of p ≡ bests_of q
      → Bounded.get st.last_bests key ≡ some (bests_of p)
      → same q st ≡ true
  same_of_eq p q st e h = rw (h, e) (=?-refl (some (bests_of q)))

  -- After a packet's bests have been seen, they are the ones that were written last.
  get-upsert_session_bests :
      (p : SessionHistoryPacket) (st : State)
      → st.bests_repo ≡ true
      → Bounded.IsValid st.last_bests
      → Bounded.get (upsert_session_bests session_uid user_id p st).0.last_bests key
        ≡ some (bests_of p)
  get-upsert_session_bests p st repo v = elim (Bool-cases (same p st)) [
    | inl e ↦ rw (upsert-same p st repo e) (eq_of_=? _ _ e)
    | inr e ↦
        rw (upsert-new p st repo e)
          (ground (arith, get-set_item st.last_bests key key (bests_of p) v, =?-refl key))
  ]

  repo-upsert_session_bests :
      (p : SessionHistoryPacket) (st : State)
      → st.bests_repo ≡ true
      → (upsert_session_bests session_uid user_id p st).0.bests_repo ≡ true
  repo-upsert_session_bests p st repo = elim (Bool-cases (same p st)) [
    | inl e ↦ rw (upsert-same p st repo e) repo
    | inr e ↦ rw (upsert-new p st repo e) repo
  ]

  upsert_session_bests_again :
      (p q : SessionHistoryPacket) (st : State)
      → st.bests_repo ≡ true
      → Bounded.IsValid st.last_bests
      → bests_of p ≡ bests_of q
      → let after = (upsert_session_bests session_uid user_id p st).0 in
        upsert_session_bests session_uid user_id q after ≡ (after, [])
  upsert_session_bests_again p q st repo v e =
      let after : State = (upsert_session_bests session_uid user_id p st).0 in
      upsert-same q after (repo-upsert_session_bests p st repo)
        (same_of_eq p q after e (get-upsert_session_bests p st repo v))

-- Whether a call writes the bests of a session.
unfoldable pub writes_bests : Call → Bool
writes_bests (Call.upsert_bests session_uid user_id bests) = true
writes_bests (Call.upsert_laps_batch rows) = false
writes_bests (Call.upsert_stints_batch rows) = false

laps-bests :
    (session_uid user_id : ℕ) (p : SessionHistoryPacket) (st : State)
    → let r = upsert_laps session_uid user_id p st in
      (r.0.last_bests ≡ st.last_bests)
      × (r.0.bests_repo ≡ st.bests_repo)
      × (any writes_bests r.1 ≡ false)
unfolding upsert_laps writes_bests
laps-bests session_uid user_id p st = (
  refl,
  refl,
  if_both (λ (calls : List Call). any writes_bests calls ≡ false)
      (is_empty (
        lap_batch session_uid user_id
          (or_zero (Bounded.get st.last_num_laps (session_uid, user_id))) p))
      refl refl,
)

handle-mapped :
    (uid user : ℕ) (p : SessionHistoryPacket) (m : Dict ℕ ℕ) (st : State)
    → Dict.lookup p.car_index m ≡ some user
    → let laps = upsert_laps uid user p st in
      let bests = upsert_session_bests uid user p laps.0 in
      handle_session_history_packet uid p m st ≡ (bests.0, laps.1 ++ bests.1)
unfolding handle_session_history_packet
handle-mapped uid user p m st e = rw (handle_session_history_packet, e) refl

repeated :
    (uid user : ℕ) (p q : SessionHistoryPacket) (m : Dict ℕ ℕ) (st : State)
    → st.bests_repo ≡ true
    → Bounded.get st.last_bests (uid, user) ≡ some (bests_of p)
    → bests_of p ≡ bests_of q
    → Dict.lookup q.car_index m ≡ some user
    → let again = handle_session_history_packet uid q m st in
      (again.0.last_bests ≡ st.last_bests) × (any writes_bests again.1 ≡ false)
unfolding upsert_laps
repeated uid user p q m st repo g e k =
    let laps = upsert_laps uid user q st in
    rw
      (
        handle-mapped uid user q m st k,
        upsert-same uid user q laps.0 repo (same_of_eq uid user p q laps.0 e g),
        append-nil laps.1,
      )
      (refl, (laps-bests uid user q st).2)

-- With a session bests repository and valid last bests, after a Session History packet of a driver,
-- a packet of the same driver with the same bests, in whatever car and with whatever laps, writes
-- no session bests, and leaves the last bests as they are.
pub handle_session_history_packet_again :
    (uid user : ℕ) (p q : SessionHistoryPacket) (m m' : Dict ℕ ℕ) (st : State)
    → st.bests_repo ≡ true
    → Bounded.IsValid st.last_bests
    → bests_of p ≡ bests_of q
    → Dict.lookup p.car_index m ≡ some user
    → Dict.lookup q.car_index m' ≡ some user
    → let after = (handle_session_history_packet uid p m st).0 in
      let again = handle_session_history_packet uid q m' after in
      (again.0.last_bests ≡ after.last_bests) × (any writes_bests again.1 ≡ false)
unfolding upsert_laps
handle_session_history_packet_again uid user p q m m' st repo v e l k =
    let laps : State = (upsert_laps uid user p st).0 in
    let first : State = (upsert_session_bests uid user p laps).0 in
    rw (handle-mapped uid user p m st l) (
      repeated uid user p q m' first (repo-upsert_session_bests uid user p laps repo)
        (get-upsert_session_bests uid user p laps repo v) e k)
