-- ===== src/FrameBuffer/Keeps.antt =====
-- What the flush callback keeps of its state, the methods of listener/frame_buffer.py keep.
use formula1_app.Prelude.{ℕ, ◌-◌, ◌*◌, Option, none, some, List, [], ◌∷◌, ltb, if_both, option_both}
use formula1_app.Prelude.Eq.{nat_eq}
use formula1_app.Dict
use formula1_app.Dict.{keys}
use formula1_app.Bounded
use formula1_app.FrameBuffer.{
  Packets, Frames, FrameBuffer, flush_interval_ms, sorted, stale, flush_popped, flush_frame,
  flush_all, end_current, add, flush_each, check_periodic_flush, flush_session,
}

module _ {P S : Type 0} (flush : ℕ → ℕ → Packets P → S → S) (Q : S → Type 0)
    (step : (uid i : ℕ) (ps : Packets P) (s : S) → Q s → Q (flush uid i ps s)) where
  flush_popped_keeps :
      (uid i : ℕ) (rest : Frames P) (ps : Option (Packets P)) (b : FrameBuffer P) (s : S)
      → Q s
      → Q (flush_popped flush uid i rest ps (b, s)).1
  unfolding flush_popped
  flush_popped_keeps uid i rest none b s q = q
  flush_popped_keeps uid i rest (some []) b s q = q
  flush_popped_keeps uid i rest (some (p ∷ ps)) b s q = step uid i (p ∷ ps) s q

  pub flush_frame_keeps :
      (uid i : ℕ) (b : FrameBuffer P) (s : S) → Q s → Q (flush_frame flush uid i (b, s)).1
  unfolding flush_frame
  flush_frame_keeps uid i b s q =
      option_both (λ (r : FrameBuffer P × S). Q r.1) (Bounded.get b.frames uid) q
        (λ f. flush_popped_keeps uid i (Dict.remove i f) (Dict.lookup i f) b s q)

  flush_all_keeps :
      (uid : ℕ) (is : List ℕ) (b : FrameBuffer P) (s : S)
      → Q s
      → Q (flush_all flush uid is (b, s)).1
  unfolding flush_all
  flush_all_keeps uid [] b s q = q
  flush_all_keeps uid (i ∷ is) b s q =
      let after = flush_frame flush uid i (b, s) in
      flush_all_keeps uid is after.0 after.1 (flush_frame_keeps uid i b s q)

  flush_each_keeps :
      (l : List (ℕ × ℕ)) (b : FrameBuffer P) (s : S) → Q s → Q (flush_each flush l (b, s)).1
  unfolding flush_each
  flush_each_keeps [] b s q = q
  flush_each_keeps ((uid, i) ∷ l) b s q =
      let after = flush_frame flush uid i (b, s) in
      flush_each_keeps l after.0 after.1 (flush_frame_keeps uid i b s q)

  end_current_keeps :
      (uid i : ℕ) (current : Option ℕ) (b : FrameBuffer P) (s : S)
      → Q s
      → Q (end_current flush uid i current (b, s)).1
  unfolding end_current
  end_current_keeps uid i none b s q = q
  end_current_keeps uid i (some c) b s q =
      if_both (λ (r : FrameBuffer P × S). Q r.1) (ltb c i) (flush_frame_keeps uid c b s q) q

  pub add_keeps :
      (uid i packet_id : ℕ) (p : P) (b : FrameBuffer P) (s : S)
      → Q s
      → Q (add flush uid i packet_id p (b, s)).1
  unfolding add
  add_keeps uid i packet_id p b s q =
      end_current_keeps uid i (Bounded.get b.current_frame uid) b s q

  pub check_periodic_flush_keeps :
      (now : ℕ) (b : FrameBuffer P) (s : S) → Q s → Q (check_periodic_flush flush now (b, s)).1
  unfolding check_periodic_flush
  check_periodic_flush_keeps now b s q =
      if_both (λ (r : FrameBuffer P × S). Q r.1)
        (ltb (now - b.last_flush_time) (flush_interval_ms * 1000)) q
        (flush_each_keeps (stale b (keys b.frames.entries)) (record b { last_flush_time = now }) s
          q)

  pub flush_session_keeps :
      (uid : ℕ) (b : FrameBuffer P) (s : S) → Q s → Q (flush_session flush uid (b, s)).1
  unfolding flush_session
  flush_session_keeps uid b s q =
      option_both (λ (r : FrameBuffer P × S). Q r.1) (Bounded.get b.frames uid) q
        (λ f. flush_all_keeps uid (sorted (keys f)) b s q)
