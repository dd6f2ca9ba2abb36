-- ===== src/Server/Delivery.antt =====
-- What becomes of a datagram: listener/server.py.
use formula1_app.Prelude.{
  ℕ, ◌<◌, ◌≡◌, refl, sym, ap, ◌∙◌, inl, Bool, true, false, ◌&&◌, some, List, [], ◌∷◌, ◌++◌, map,
  length, length-map, ltb, leb, lt→ltb, arith,
}
use mathlib.Core.List.{append_assoc, append-nil}
use mathlib.Core.Path.{subst}
use formula1_app.Action.{Action}
use formula1_app.Server.{
  Server, Turn, received, socket_error, works, receive_failed, put_nowait, start, process_packets,
  enqueued, enqueue, measure, step, run,
}
use formula1_app.Server.Fates.{
  Fate, delivered, lost, datagrams, deliveries, losses, receipts, reported, datagrams-append,
}
use formula1_app.Server.Waiting.{
  handle_each, Delivers, told-append, process_packet-Delivers, process_packets-Delivers,
  measure-Delivers, report-Delivers, enqueued-lost, enqueued-delivered,
}

module _ {S : Type 0} (packet_handler : List ℕ → Action S (Unit {0})) (rcvbuf queue_size : ℕ) where
  -- A datagram's fate.
  Fated : S → List Fate → List ℕ → Server S → Type 0
  Fated s fates d st =
      (f : Fate) × (datagrams (f ∷ []) ≡ d ∷ [])
      × Delivers packet_handler rcvbuf queue_size s (fates ++ f ∷ []) st

  enqueue-Delivers :
      (s : S) (fates : List Fate) (st : Server S) (d : List ℕ)
      → 0 < queue_size
      → Delivers packet_handler rcvbuf queue_size s fates st
      → Fated s fates d (enqueue packet_handler rcvbuf queue_size d st)
  unfolding enqueue put_nowait datagrams Fated
  enqueue-Delivers s fates st d positive (done, waiting, h) =
      let e =
        ap (λ xs. enqueued packet_handler rcvbuf queue_size (put_nowait queue_size (some d) xs) st)
          h.queue in
      subst (Fated s fates d) (sym e) (by_room (leb queue_size (length waiting)) refl)
    where
      full :
          (b : Bool)
          → leb queue_size (length waiting) ≡ b
          → ltb 0 queue_size && leb queue_size (length (map some waiting)) ≡ b
      full b e = rw (lt→ltb 0 queue_size positive, length-map some waiting) e

      by_room :
          (b : Bool)
          → leb queue_size (length waiting) ≡ b
          → Fated s fates d (
              enqueued packet_handler rcvbuf queue_size
                (put_nowait queue_size (some d) (map some waiting))
                st)
      by_room true e = rw (full true e) (
        lost d,
        refl,
        (
          done,
          waiting,
          enqueued-lost packet_handler rcvbuf queue_size s fates done waiting st d h (ground arith),
        ),
      )
      by_room false e = rw (full false e) (
        delivered d,
        refl,
        (
          done,
          waiting ++ d ∷ [],
          enqueued-delivered packet_handler rcvbuf queue_size s fates done waiting st d h
              (ground arith),
        ),
      )

  -- What a turn of the loop or of the worker makes of the fates.
  Extended : S → List Fate → Turn → Server S → Type 0
  Extended s fates e st =
      (fates' : List Fate) × (datagrams fates' ≡ datagrams fates ++ receipts (e ∷ []))
      × Delivers packet_handler rcvbuf queue_size s fates' st

  step-Delivers :
      (s : S) (fates : List Fate) (st : Server S) (e : Turn)
      → 0 < queue_size
      → Delivers packet_handler rcvbuf queue_size s fates st
      → Extended s fates e (step packet_handler rcvbuf queue_size e st)
  unfolding step receipts reported Fated Extended
  step-Delivers s fates st (received d turns now kernel_drops) positive h =
      let (f, e, g) = enqueue-Delivers s fates st d positive h in
      let fates' = fates ++ f ∷ [] in
      let st₁ = enqueue packet_handler rcvbuf queue_size d st in
      let st₂ = process_packets packet_handler rcvbuf queue_size turns st₁ in
      (
        fates',
        datagrams-append fates (f ∷ []) ∙ ap (λ ds. datagrams fates ++ ds) e,
        report-Delivers packet_handler rcvbuf queue_size now kernel_drops s fates'
            (measure packet_handler rcvbuf queue_size st₂)
            (measure-Delivers packet_handler rcvbuf queue_size s fates' st₂
              (process_packets-Delivers packet_handler rcvbuf queue_size turns s fates' st₁ g)),
      )
  step-Delivers s fates st socket_error positive (done, waiting, h) = (
    fates,
    sym (append-nil (datagrams fates)),
    (
      done,
      waiting,
      record {
        order = h.order;
        queue = h.queue;
        outcome = h.outcome;
        bound = h.bound;
        told =
            told-append packet_handler rcvbuf queue_size s fates done waiting st receive_failed h
              refl;
        running = h.running;
        excess = h.excess;
      },
    ),
  )
  step-Delivers s fates st works positive h = (
    fates,
    sym (append-nil (datagrams fates)),
    process_packet-Delivers packet_handler rcvbuf queue_size s fates st h,
  )

  receipts-cons : (e : Turn) (es : List Turn) → receipts (e ∷ []) ++ receipts es ≡ receipts (e ∷ es)
  unfolding receipts
  receipts-cons (received d turns now kernel_drops) es = refl
  receipts-cons socket_error es = refl
  receipts-cons works es = refl

  run-extends :
      (s : S) (fates : List Fate) (st : Server S) (es : List Turn)
      → 0 < queue_size
      → Delivers packet_handler rcvbuf queue_size s fates st
      → (fates' : List Fate) × (datagrams fates' ≡ datagrams fates ++ receipts es)
        × Delivers packet_handler rcvbuf queue_size s fates'
            (run packet_handler rcvbuf queue_size es st)
  unfolding run receipts Extended
  run-extends s fates st [] positive h = (fates, sym (append-nil (datagrams fates)), h)
  run-extends s fates st (e ∷ es) positive h =
      let (fates₁, q, g) = step-Delivers s fates st e positive h in
      let (fates₂, r, k) =
        run-extends s fates₁ (step packet_handler rcvbuf queue_size e st) es positive g in
      (
        fates₂,
        r
            ∙ ap (λ ds. ds ++ receipts es) q
            ∙ append_assoc (datagrams fates) (receipts (e ∷ [])) (receipts es)
            ∙ ap (λ ds. datagrams fates ++ ds) (receipts-cons e es),
        k,
      )

  -- With a queue size above 0, after any turns of the receive loop and of the worker, in any order,
  -- each datagram received has been delivered or lost. The handler has been given the first of
  -- those delivered, in the order of their arrival, and the others wait in the queue, which holds
  -- no more than its size. The losses are as many as the log tells of and the counter of drops
  -- holds, and there is none unless more datagrams have arrived than the queue's size.
  pub run-Delivers :
      (now kernel_drops : ℕ) (s : S) (es : List Turn)
      → 0 < queue_size
      → (fates : List Fate) × (datagrams fates ≡ receipts es)
        × Delivers packet_handler rcvbuf queue_size s fates (
            run packet_handler rcvbuf queue_size es
              (start packet_handler rcvbuf queue_size now kernel_drops s))
  unfolding datagrams deliveries losses reported handle_each
  run-Delivers now kernel_drops s es positive =
      run-extends s [] (start packet_handler rcvbuf queue_size now kernel_drops s) es positive (
        [],
        [],
        record {
          order = refl;
          queue = refl;
          outcome = refl;
          bound = omega (arith, positive);
          told = omega arith;
          running = refl;
          excess = inl refl;
        },
      )
