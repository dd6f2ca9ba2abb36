-- ===== src/Tests/Buffers.antt =====
-- listener/frame_buffer.py and listener/utils/ at concrete inputs.
use formula1_app.Prelude.{ℕ, ◌≡◌, refl, true, none, some, List, [], ◌∷◌, ◌++◌, arith, inr}
use formula1_app.Prelude.Eq.{nat_eq}
use formula1_app.Dict
use formula1_app.Dict.{keys}
use formula1_app.Bounded
use formula1_app.Bounded.{BoundedDict, get, has, set_item, set_item?}
use formula1_app.Bounded.Laws.{get-set_item, set_item-IsValid, set_item?-eq-some, victim}
use formula1_app.Bounded.Recency.{write_all, write_all-set_item}
use formula1_app.FrameBuffer.{
  FrameBuffer, Packets, Frames, init, add, sorted, insert, end_current, store, put_packet,
  discard_session, flush_session, check_periodic_flush,
}
use formula1_app.FrameBuffer.Laws.{IsValid, pending, pending_in, emit}
use formula1_app.FrameBuffer.Add.{pending-add, state-add, add-IsValid}
use formula1_app.FrameBuffer.Session.{
  Ascending, mem, emit_all, state-flush_session, pending-flush_session, pending-discard_session,
}
use formula1_app.FrameBuffer.Periodic.{check_periodic_flush_lem}

-- The callback notes the session and the frame.
abbrev note : ℕ → ℕ → Packets ℕ → List (ℕ × ℕ) → List (ℕ × ℕ)
note uid frame_id ps s = s ++ (uid, frame_id) ∷ []

abbrev empty : FrameBuffer ℕ
empty = init 0

empty-IsValid : IsValid empty
unfolding get Dict.lookup
empty-IsValid = record {
  frames_valid = record { positive = omega arith; bounded = omega arith; distinct = tt };
  current_valid = record { positive = omega arith; bounded = omega arith; distinct = tt };
  distinct = λ uid f e. ground arith;
  filled = λ uid f e. ground arith;
}

-- Session 7 with packets of frame 2.
abbrev one_frame : FrameBuffer ℕ × List (ℕ × ℕ)
one_frame = add note 7 2 0 100 (empty, [])

one_frame-IsValid : IsValid one_frame.0
one_frame-IsValid = add-IsValid note empty [] 7 2 0 100 empty-IsValid

pending-add_example : pending (add note 7 3 6 200 (empty, [])).0 7 3 ≡ some ((6, 200) ∷ [])
unfolding pending_in get Dict.lookup Dict.put
pending-add_example = pending-add note empty [] 7 3 6 7 3 200 empty-IsValid (inr (omega arith))

state-add_example : (add note 7 3 6 200 one_frame).1 ≡ (7, 2) ∷ []
unfolding add get Dict.lookup pending_in emit set_item Dict.contains end_current store Bounded.alter
    Dict.alter put_packet Dict.put
state-add_example = state-add note one_frame.0 one_frame.1 7 3 6 200 one_frame-IsValid

add-IsValid_example : IsValid (add note 7 3 6 200 one_frame).0
add-IsValid_example = add-IsValid note one_frame.0 one_frame.1 7 3 6 200 one_frame-IsValid

pending-discard_session_example :
    (pending (discard_session 7 one_frame.0) 7 2 ≡ none)
    × (get (discard_session 7 one_frame.0).current_frame 7 ≡ none)
pending-discard_session_example = pending-discard_session one_frame.0 7 7 2 one_frame-IsValid

pending-flush_session_example : pending (flush_session note 7 one_frame).0 7 2 ≡ none
pending-flush_session_example =
    pending-flush_session note one_frame.0 one_frame.1 7 7 2 one_frame-IsValid

abbrev frames_of_7 : Frames ℕ
frames_of_7 = (2, (0, 100) ∷ []) ∷ []

state-flush_session_example :
    ((flush_session note 7 one_frame).1 ≡ (7, 2) ∷ [])
    × Ascending (2 ∷ [])
    × ((i : ℕ) → mem i (2 ∷ []) ≡ Dict.contains i frames_of_7)
unfolding add get Dict.lookup pending_in emit set_item Dict.contains end_current store Bounded.alter
    Dict.alter put_packet Dict.put emit_all sorted insert
state-flush_session_example =
    state-flush_session note one_frame.0 one_frame.1 7 frames_of_7 one_frame-IsValid refl

check_periodic_flush_lem_example :
    (one_frame ≡ one_frame)
    × ((check_periodic_flush note 200000 one_frame).0.last_flush_time ≡ 200000)
    × (pending (check_periodic_flush note 200000 one_frame).0 7 2 ≡ some ((0, 100) ∷ []))
unfolding add get Dict.lookup pending_in emit set_item Dict.contains end_current store Bounded.alter
    Dict.alter put_packet Dict.put
check_periodic_flush_lem_example =
    check_periodic_flush_lem note one_frame.0 one_frame.1 200000 7 2 one_frame-IsValid

-- A full dictionary of two.
abbrev full : BoundedDict ℕ ℕ
full = record { max_size = 2; entries = (1, 10) ∷ (2, 20) ∷ [] }

full-IsValid : Bounded.IsValid full
unfolding Dict.contains
full-IsValid = record {
  positive = omega arith;
  bounded = omega arith;
  distinct = (refl, (refl, tt));
}

get-set_item_example : get (set_item full 3 30) 1 ≡ none
unfolding victim has Dict.contains
get-set_item_example = get-set_item full 1 3 30 full-IsValid

set_item-IsValid_example : Bounded.IsValid (set_item full 3 30)
set_item-IsValid_example = set_item-IsValid full 3 30 full-IsValid

set_item?-eq-some_example : set_item? full 3 30 ≡ some (set_item full 3 30)
set_item?-eq-some_example = set_item?-eq-some full 3 30 (omega arith)

write_all-set_item_example : has (write_all (set_item full 3 30) ((4, 40) ∷ [])) 3 ≡ true
write_all-set_item_example = write_all-set_item full 3 30 ((4, 40) ∷ []) full-IsValid (omega arith)
