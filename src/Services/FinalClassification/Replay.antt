-- ===== src/Services/FinalClassification/Replay.antt =====
-- A classification that the database refuses is written by a later replay:
-- listener/services/final_classification.py.
use formula1_app.Prelude.{
  ℕ, ◌≡◌, refl, Bool, true, false, Option, none, some, List, [], ◌∷◌, ◌++◌, any, is_empty, ◌==◌,
  ◌&&◌, if◌then◌else◌, Bool-cases, inl, inr,
}
use formula1_app.Prelude.Eq.{nat_eq}
use formula1_app.Dict.{Dict}
use formula1_app.Bounded
use formula1_app.Packets.FinalClassification.{FinalClassificationPacket}
use formula1_app.Services.FinalClassification.{
  Call, State, Classification, race_session_types, classify, insert_call, write_classifications,
  handle_final_classification_packet, write_dead_letter, Letter, replay_dead_letters,
}

-- The letter of a session's packet.
unfoldable pub letter_of : ℕ → ℕ → FinalClassificationPacket → Dict ℕ ℕ → Letter
letter_of uid session_type p m =
    let is_race = any (λ t. t == session_type) race_session_types in
    record {
      session_uid = uid;
      classifications = classify is_race uid m 0 p.final_classifications;
      is_race = is_race;
    }

-- The call that a letter asks for.
unfoldable pub letter_call : Letter → Call
letter_call l = insert_call l.is_race l.classifications

write_refused :
    (accepts : Call → Bool) (uid : ℕ) (race : Bool) (cs : List Classification) (st : State)
    → is_empty cs ≡ false
    → accepts (insert_call race cs) ≡ false
    → st.dead_letter_dir ≡ true
    → write_classifications accepts uid race cs st ≡ (
      st,
      insert_call race cs
          ∷ write_dead_letter (record { session_uid = uid; classifications = cs; is_race = race })
          ∷ [],
    )
unfolding write_classifications
write_refused accepts uid race cs st n a d = rw (n, a, d) refl

module _ (accepts : Call → Bool) (removes : Letter → Bool) where
  -- A file that the database accepts is written and removed, and the other files are replayed too.
  replay-append :
      (before after : List (Option Letter)) (l : Letter)
      → accepts (letter_call l) ≡ true
      → replay_dead_letters accepts removes (before ++ some l ∷ after) ≡ (
        (replay_dead_letters accepts removes before).0
            ++ (if removes l then [] else some l ∷ [])
            ++ (replay_dead_letters accepts removes after).0,
        (replay_dead_letters accepts removes before).1
            ++ letter_call l ∷ (replay_dead_letters accepts removes after).1,
      )
  unfolding replay_dead_letters letter_call
  replay-append [] after l a = elim (Bool-cases (removes l)) [
    | inl y ↦ rw (a, y) refl
    | inr n ↦ rw (a, n) refl
  ]
  replay-append (none ∷ before) after l a = rw (replay-append before after l a) refl
  replay-append (some k ∷ before) after l a =
      elim (Bool-cases (accepts (letter_call k) && removes k)) [
        | inl y ↦ rw (y, replay-append before after l a) refl
        | inr n ↦ rw (n, replay-append before after l a) refl
      ]

-- With a dead-letter directory, a classification of a session not yet processed that the database
-- refuses leaves the service's state as it was and makes the attempt to write a letter, and a later
-- replay of a directory with that letter, at a time when the database accepts it, makes the refused
-- call, removes the letter if the file can be removed, and does with the other letters what it
-- would have done without it.
pub replay_refused :
    (refuses accepts : Call → Bool) (uid session_type : ℕ) (p : FinalClassificationPacket)
    (m : Dict ℕ ℕ) (st : State) (removes : Letter → Bool) (before after : List (Option Letter))
    → Bounded.has st.processed_sessions uid ≡ false
    → is_empty (letter_of uid session_type p m).classifications ≡ false
    → st.dead_letter_dir ≡ true
    → refuses (letter_call (letter_of uid session_type p m)) ≡ false
    → accepts (letter_call (letter_of uid session_type p m)) ≡ true
    → (handle_final_classification_packet refuses uid (some session_type) p m st ≡ (
      st,
      letter_call (letter_of uid session_type p m)
          ∷ write_dead_letter (letter_of uid session_type p m)
          ∷ [],
    ))
      × (replay_dead_letters accepts removes
            (before ++ some (letter_of uid session_type p m) ∷ after)
          ≡ (
            (replay_dead_letters accepts removes before).0
                ++ (if removes (letter_of uid session_type p m)
                    then []
                    else some (letter_of uid session_type p m) ∷ [])
                ++ (replay_dead_letters accepts removes after).0,
            (replay_dead_letters accepts removes before).1
                ++ letter_call (letter_of uid session_type p m)
                  ∷ (replay_dead_letters accepts removes after).1,
          ))
unfolding handle_final_classification_packet letter_of letter_call
replay_refused refuses accepts uid session_type p m st removes before after h n d r a = (
  rw h (
      write_refused refuses uid (any (λ t. t == session_type) race_session_types)
        (letter_of uid session_type p m).classifications st n r d),
  replay-append accepts removes before after (letter_of uid session_type p m) a,
)
