-- ===== src/Services/Participants/Restricted.antt =====
-- Whose telemetry counts as withheld: listener/services/participants.py.
use mathlib.Core.Path.{subst}
use formula1_app.Prelude.{
  ap, is_empty, map, ℕ, suc, ◌-◌, ◌<◌, ◌≡◌, ◌⊎◌, refl, ◌∙◌, sym, Bool, true, false, not, ◌&&◌, ◌||◌,
  Option, none, some, List, [], ◌∷◌, arith, get_elem?, leb, ◌==◌, Bool-cases, inl, inr,
  if◌then◌else◌, if_both,
}
use formula1_app.Prelude.Eq.{nat_eq}
use formula1_app.Packets.Participants.{Participant}
use formula1_app.Dict.{Dict}
use formula1_app.Repositories.Entries.{Entry, Call, Database, insert_entries_batch}
use formula1_app.Bounded
use formula1_app.Bounded.Entries.{get-set_item_same}
use formula1_app.Packets.Participants.{ParticipantsPacket}
use formula1_app.Services.Participants.{
  State, or_empty, is_member, restricted_cars, get_restricted_indices, human_entries, confirm,
  write_entries, handle_participants_packet, unwritten, same_set, car_index_of,
}

-- A car whose driver has restricted the telemetry.
unfoldable pub withholds : Option Participant → Bool
withholds none = false
withholds (some p) = p.your_telemetry == 0

is_member_if :
    (c i : ℕ) (b : Bool) (r : List ℕ)
    → is_member c (if b then i ∷ r else r) ≡ ((b && i == c) || is_member c r)
unfolding is_member
is_member_if c i true r = refl
is_member_if c i false r = refl

lt-cases : (i c : ℕ) → (c ≡ i) ⊎ ((i < c) ⊎ (c < i))
lt-cases i c = elim (Bool-cases (c == i)) [
  | inl h ↦ inl (ground arith)
  | inr h ↦ elim (Bool-cases (leb i c)) [
    | inl k ↦ inr (inl (ground arith))
    | inr k ↦ inr (inr (ground arith))
  ]
]

and_or : (a : Bool) → (a && true || false) ≡ a
and_or true = refl
and_or false = refl

or_and : (a b : Bool) → (a && false || b) ≡ b
or_and true b = refl
or_and false b = refl

same_car :
    (player i : ℕ) (p : Participant) (ps : List Participant)
    → ((p.your_telemetry == 0 && not (i == player)) && i == i
        || (leb (suc i) i && (withholds (get_elem? ps (i - suc i)) && not (i == player))))
      ≡ (leb i i && (withholds (get_elem? (p ∷ ps) (i - i)) && not (i == player)))
unfolding withholds
same_car player i p ps =
    let a : (i == i) ≡ true = ground arith in
    let b : leb (suc i) i ≡ false = ground arith in
    let d : leb i i ≡ true = ground arith in
    let e : i - i ≡ 0 = omega arith in
    rw (a, b, d, e) (and_or (p.your_telemetry == 0 && not (i == player)))

-- The car itself, a later car, or an earlier one.
car_step :
    (player i c : ℕ) (p : Participant) (ps : List Participant)
    → ((p.your_telemetry == 0 && not (i == player)) && i == c
        || (leb (suc i) c && (withholds (get_elem? ps (c - suc i)) && not (c == player))))
      ≡ (leb i c && (withholds (get_elem? (p ∷ ps) (c - i)) && not (c == player)))
car_step player i c p ps = elim (lt-cases i c) [
  | inl h ↦
      subst
        (λ d.
          ((p.your_telemetry == 0 && not (i == player)) && i == d
            || (leb (suc i) d && (withholds (get_elem? ps (d - suc i)) && not (d == player))))
          ≡ (leb i d && (withholds (get_elem? (p ∷ ps) (d - i)) && not (d == player))))
        (sym h) (same_car player i p ps)
  | inr (inl h) ↦
      let a : (i == c) ≡ false = ground arith in
      let b : leb (suc i) c ≡ true = ground arith in
      let d : leb i c ≡ true = ground arith in
      let e : c - i ≡ suc (c - suc i) = omega (arith, h) in
      rw (a, b, d, e) (or_and (p.your_telemetry == 0 && not (i == player)) _)
  | inr (inr h) ↦
      let a : (i == c) ≡ false = ground arith in
      let b : leb (suc i) c ≡ false = ground arith in
      let d : leb i c ≡ false = ground arith in
      rw (a, b, d) (or_and (p.your_telemetry == 0 && not (i == player)) false)
]

is_member-restricted_cars :
    (player i c : ℕ) (ps : List Participant)
    → is_member c (restricted_cars player i ps)
      ≡ (leb i c && (withholds (get_elem? ps (c - i)) && not (c == player)))
unfolding restricted_cars withholds is_member
is_member-restricted_cars player i c [] = ground arith
is_member-restricted_cars player i c (p ∷ ps) =
    is_member_if c i (p.your_telemetry == 0 && not (i == player))
      (restricted_cars player (suc i) ps)
    ∙ rw (is_member-restricted_cars player (suc i) c ps) (car_step player i c p ps)

confirm-restricted_indices :
    (lower strip : List ℕ → List ℕ) (decimal : ℕ → List ℕ) (uid : ℕ) (n : Dict ℕ ℕ) (st : State)
    → (confirm lower strip decimal uid n st).1.restricted_indices ≡ st.restricted_indices
unfolding confirm
confirm-restricted_indices lower strip decimal uid [] st = refl
confirm-restricted_indices lower strip decimal uid ((i, u) ∷ n) st = refl

-- What is kept of the restricted cars does not change behind the loop.
write_entries-restricted_indices :
    (lower strip : List ℕ → List ℕ) (decimal : ℕ → List ℕ) (db : Database) (uid : ℕ)
    (entries : List Entry) (st : State)
    → (write_entries lower strip decimal db uid entries st).0.1.restricted_indices
      ≡ st.restricted_indices
unfolding write_entries
write_entries-restricted_indices lower strip decimal db uid entries st =
    let humans = or_empty (Bounded.get st.written_humans uid) in
    if_both
      (λ (r : (Dict ℕ ℕ × State) × List Call). r.0.1.restricted_indices ≡ st.restricted_indices)
      (same_set (map car_index_of entries) humans) refl
      (if_both
        (λ (r : (Dict ℕ ℕ × State) × List Call). r.0.1.restricted_indices ≡ st.restricted_indices)
        (is_empty (unwritten humans entries)) refl
        (confirm-restricted_indices lower strip decimal uid
          (insert_entries_batch db (unwritten humans entries)).0 st))

-- With valid restricted sets, after a Participants packet a car is restricted exactly when the
-- packet has the car with your_telemetry 0 and the car is not the player's.
pub is_member-get_restricted_indices :
    (lower strip : List ℕ → List ℕ) (decimal : ℕ → List ℕ) (db : Database) (uid player c : ℕ)
    (packet : ParticipantsPacket) (st : State)
    → Bounded.IsValid st.restricted_indices
    → is_member c (
        get_restricted_indices uid
          (handle_participants_packet lower strip decimal db uid player packet st).0.1)
      ≡ (withholds (get_elem? packet.participants c) && not (c == player))
unfolding get_restricted_indices handle_participants_packet
is_member-get_restricted_indices lower strip decimal db uid player c packet st v =
    let restricted = restricted_cars player 0 packet.participants in
    let entries =
      human_entries lower strip decimal db uid 0 packet.participants st.player_counter in
    ap (λ d. is_member c (or_empty (Bounded.get d uid)))
      (write_entries-restricted_indices lower strip decimal db uid entries.0 _)
    ∙ ap (λ o. is_member c (or_empty o)) (get-set_item_same st.restricted_indices uid restricted v)
    ∙ is_member-restricted_cars player 0 c packet.participants
    ∙ ground arith
