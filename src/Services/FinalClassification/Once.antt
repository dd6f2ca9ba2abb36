-- ===== src/Services/FinalClassification/Once.antt =====
-- A session whose classification was written is passed over: listener/services/final_classification.py.
use formula1_app.Prelude.{
  ℕ, ◌≡◌, ◌≤◌, ◌<◌, ◌∙◌, ◌++◌, ap, sym, arith, length, length-append, if_both, refl, Bool, true,
  false, Option, none, some, List, [], ◌∷◌, any, ◌==◌, Bool-cases, inl, inr,
}
use formula1_app.Prelude.Eq.{nat_eq}
use formula1_app.Dict.{Dict}
use formula1_app.Bounded
use formula1_app.Bounded.{BoundedSet}
use formula1_app.Bounded.Recency.{write_all, write_all-set_item}
use formula1_app.Packets.FinalClassification.{FinalClassificationPacket}
use formula1_app.Services.FinalClassification.{
  Call, State, Classification, race_session_types, classify, insert_call, write_classifications,
  handle_final_classification_packet,
}

-- A session that is processed is passed over.
processed_skips :
    (accepts : Call → Bool) (uid : ℕ) (session_type : Option ℕ) (p : FinalClassificationPacket)
    (m : Dict ℕ ℕ) (st : State)
    → Bounded.has st.processed_sessions uid ≡ true
    → handle_final_classification_packet accepts uid session_type p m st ≡ (st, [])
unfolding handle_final_classification_packet
processed_skips accepts uid none p m st h = refl
processed_skips accepts uid (some s) p m st h = rw h refl

unfoldable pub is_race_session : ℕ → Bool
is_race_session session_type = any (λ t. t == session_type) race_session_types

-- A packet as the service gets it, and the database of that moment.
pub record Received : Type 0 where
  pub accepts : Call → Bool
  pub session_uid : ℕ
  pub session_type : Option ℕ
  pub packet : FinalClassificationPacket
  pub user_map : Dict ℕ ℕ

abbrev pub handle : Received → State → State × List Call
handle r =
    handle_final_classification_packet r.accepts r.session_uid r.session_type r.packet r.user_map

-- The state after some packets, the first one first.
unfoldable pub after_packets : List Received → State → State
after_packets [] st = st
after_packets (r ∷ rs) st = after_packets rs (handle r st).0

-- A packet writes one session to the processed ones, or none.
abbrev Writes : BoundedSet ℕ → BoundedSet ℕ → ℕ → Type 0
Writes s s' n = (ws : Dict ℕ (Unit {0})) × (s' ≡ write_all s ws) × (length ws ≤ n)

write-Writes :
    (r : Received) (race : Bool) (cs : List Classification) (st : State)
    → Writes st.processed_sessions
        (write_classifications r.accepts r.session_uid race cs st).0.processed_sessions
        1
unfolding write_classifications write_all Bounded.add
write-Writes r race [] st = ((r.session_uid, tt) ∷ [], refl, omega arith)
write-Writes r race (c ∷ cs) st = elim (Bool-cases (r.accepts (insert_call race (c ∷ cs)))) [
  | inl y ↦ rw y ((r.session_uid, tt) ∷ [], refl, omega arith)
  | inr n ↦ rw n ([], refl, omega arith)
]

handle-Writes :
    (accepts : Call → Bool) (uid : ℕ) (session_type : Option ℕ) (p : FinalClassificationPacket)
    (m : Dict ℕ ℕ) (st : State)
    → Writes st.processed_sessions
        (handle_final_classification_packet accepts uid session_type p m st).0.processed_sessions
        1
unfolding handle_final_classification_packet write_all
handle-Writes accepts uid none p m st = ([], refl, omega arith)
handle-Writes accepts uid (some t) p m st =
    if_both (λ (x : State × List Call). Writes st.processed_sessions x.0.processed_sessions 1)
      (Bounded.has st.processed_sessions uid) ([], refl, omega arith)
      (write-Writes
        (record {
          accepts = accepts;
          session_uid = uid;
          session_type = some t;
          packet = p;
          user_map = m;
        })
        (any (λ s. s == t) race_session_types)
        (classify (any (λ s. s == t) race_session_types) uid m 0 p.final_classifications) st)

write_all-append :
    (s : BoundedSet ℕ) (ws vs : Dict ℕ (Unit {0}))
    → write_all s (ws ++ vs) ≡ write_all (write_all s ws) vs
unfolding write_all
write_all-append s [] vs = refl
write_all-append s ((k, w) ∷ ws) vs = write_all-append (Bounded.set_item s k w) ws vs

after_packets-Writes :
    (rs : List Received) (st : State)
    → Writes st.processed_sessions (after_packets rs st).processed_sessions (length rs)
unfolding after_packets write_all
after_packets-Writes [] st = ([], refl, omega arith)
after_packets-Writes (r ∷ rs) st =
    let (ws, e, l) = handle-Writes r.accepts r.session_uid r.session_type r.packet r.user_map st in
    let (vs, f, k) = after_packets-Writes rs (handle r st).0 in
    (
      ws ++ vs,
      f ∙ ap (λ s. write_all s vs) e ∙ sym (write_all-append st.processed_sessions ws vs),
      omega (arith, length-append ws vs, l, k),
    )

-- A session that was just written to the processed ones.
accepted :
    (accepts : Call → Bool) (uid : ℕ) (race : Bool) (cs : List Classification) (st : State)
    → accepts (insert_call race cs) ≡ true
    → (write_classifications accepts uid race cs st).0.processed_sessions
      ≡ Bounded.add st.processed_sessions uid
unfolding write_classifications
accepted accepts uid race [] st a = refl
accepted accepts uid race (c ∷ cs) st a = rw a refl

first_accepted :
    (accepts : Call → Bool) (uid session_type : ℕ) (p : FinalClassificationPacket) (m : Dict ℕ ℕ)
    (st : State)
    → Bounded.has st.processed_sessions uid ≡ false
    → accepts (
        insert_call
          (is_race_session session_type)
          (classify (is_race_session session_type) uid m 0 p.final_classifications))
      ≡ true
    → (handle_final_classification_packet accepts uid
        (some session_type)
        p
        m
        st).0.processed_sessions
      ≡ Bounded.add st.processed_sessions uid
unfolding handle_final_classification_packet is_race_session
first_accepted accepts uid session_type p m st h a = rw h (
    accepted accepts uid (is_race_session session_type)
      (classify (is_race_session session_type) uid m 0 p.final_classifications) st a)

-- With valid processed sessions and a session type that is known, once the database has accepted
-- the classification of a session not yet processed, and after any further Final Classification
-- packets, fewer of them than the service can keep as processed, a packet of the session changes
-- nothing and makes no call.
pub handle_again :
    (accepts accepts' : Call → Bool) (uid session_type : ℕ) (p p' : FinalClassificationPacket)
    (m m' : Dict ℕ ℕ) (session_type' : Option ℕ) (st : State) (between : List Received)
    → Bounded.IsValid st.processed_sessions
    → Bounded.has st.processed_sessions uid ≡ false
    → accepts (
        insert_call
          (is_race_session session_type)
          (classify (is_race_session session_type) uid m 0 p.final_classifications))
      ≡ true
    → length between < st.processed_sessions.max_size
    → let after =
        after_packets between
          (handle_final_classification_packet accepts uid (some session_type) p m st).0 in
      handle_final_classification_packet accepts' uid session_type' p' m' after ≡ (after, [])
unfolding Bounded.add
handle_again accepts accepts' uid session_type p p' m m' session_type' st between v h a fits =
    let first = (handle_final_classification_packet accepts uid (some session_type) p m st).0 in
    let (ws, e, l) = after_packets-Writes between first in
    let written =
      e ∙ ap (λ s. write_all s ws) (first_accepted accepts uid session_type p m st h a) in
    processed_skips accepts' uid session_type' p' m' (after_packets between first) (
      ap (λ s. Bounded.has s uid) written
      ∙ write_all-set_item st.processed_sessions uid tt ws v (omega (arith, l, fits)))
