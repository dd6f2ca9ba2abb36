-- ===== src/Server/Waiting.antt =====
-- The queue's state when some datagrams are done and the others wait: listener/server.py.
use formula1_app.Prelude.{
  ℕ, zero, suc, ◌+◌, ◌-◌, ◌<◌, ◌≤◌, ◌≡◌, refl, sym, ap, ◌∙◌, ◌⊎◌, inl, inr, true, false, none, some,
  List, [], ◌∷◌, ◌++◌, map, length, length-append, leb, arith, if◌then◌else◌,
}
use mathlib.Core.List.{append_assoc, append-nil}
use formula1_app.Result.{Result, ok, raise}
use formula1_app.Action.{Action}
use formula1_app.Server.{
  Server, Line, handler_failed, handled, process, process_packet, process_packets, enqueued,
  measure, warnings, reset, report, report_interval,
}
use formula1_app.Server.Fates.{
  Fate, delivered, lost, datagrams, deliveries, losses, reported, datagrams-append,
  deliveries-append, losses-append, length-deliveries, reported-append, map-append,
}

module _ {S : Type 0} (packet_handler : List ℕ → Action S (Unit {0})) (rcvbuf queue_size : ℕ) where
  -- The handler's state after some datagrams, one after the other.
  unfoldable pub handle_each : List (List ℕ) → S → S
  handle_each [] s = s
  handle_each (d ∷ ds) s = handle_each ds (packet_handler d s).1

  pub handle_each-append :
      (xs ys : List (List ℕ)) (s : S) → handle_each (xs ++ ys) s ≡ handle_each ys (handle_each xs s)
  unfolding handle_each
  handle_each-append [] ys s = refl
  handle_each-append (x ∷ xs) ys s = handle_each-append xs ys (packet_handler x s).1

  -- Of the datagrams delivered some are done and the others wait.
  pub record Split (s : S) (fates : List Fate) (done waiting : List (List ℕ)) (st : Server S)
      : Type 0 where
    pub order : deliveries fates ≡ done ++ waiting
    pub queue : st.packets ≡ map some waiting
    pub outcome : st.handler_state ≡ handle_each done s
    pub bound : length waiting ≤ queue_size
    pub told : reported st.log + st.dropped ≡ losses fates
    pub running : st.stopped ≡ false
    pub excess : (losses fates ≡ 0) ⊎ (queue_size < length (datagrams fates))

  -- The queue refines the channel with these fates.
  abbrev pub Delivers : S → List Fate → Server S → Type 0
  Delivers s fates st =
      (done : List (List ℕ)) × (waiting : List (List ℕ)) × Split s fates done waiting st

  pub told-append :
      (s : S) (fates : List Fate) (done waiting : List (List ℕ)) (st : Server S) (l : Line)
      → Split s fates done waiting st
      → reported (l ∷ []) ≡ 0
      → reported (st.log ++ l ∷ []) + st.dropped ≡ losses fates
  told-append s fates done waiting st l d e =
      omega (arith, reported-append st.log (l ∷ []), e, d.told)

  handled-Split :
      (s : S) (fates : List Fate) (done : List (List ℕ)) (w : List ℕ) (ws : List (List ℕ))
      (st : Server S) (r : Result (Unit {0}) × S)
      → Split s fates done (w ∷ ws) st
      → r.1 ≡ handle_each (done ++ w ∷ []) s
      → Split s fates
          (done ++ w ∷ [])
          ws
          (handled packet_handler rcvbuf queue_size r (record st { packets = map some ws }))
  unfolding handled reported
  handled-Split s fates done w ws st (ok u, t) d e = record {
    order = d.order ∙ sym (append_assoc done (w ∷ []) ws);
    queue = refl;
    outcome = e;
    bound = omega (arith, d.bound);
    told = d.told;
    running = d.running;
    excess = d.excess;
  }
  handled-Split s fates done w ws st (raise x, t) d e = record {
    order = d.order ∙ sym (append_assoc done (w ∷ []) ws);
    queue = refl;
    outcome = e;
    bound = omega (arith, d.bound);
    told = told-append s fates done (w ∷ ws) st (handler_failed x) d refl;
    running = d.running;
    excess = d.excess;
  }

  process-Split :
      (s : S) (fates : List Fate) (done waiting : List (List ℕ)) (st : Server S)
      → Split s fates done waiting st
      → Delivers s fates (process packet_handler rcvbuf queue_size (map some waiting) st)
  unfolding process handle_each
  process-Split s fates done [] st d = (done, [], d)
  process-Split s fates done (w ∷ ws) st d = (
    done ++ w ∷ [],
    ws,
    handled-Split s fates done w ws st (packet_handler w st.handler_state) d
        (ap (λ t. (packet_handler w t).1) d.outcome ∙ sym (handle_each-append done (w ∷ []) s)),
  )

  pub process_packet-Delivers :
      (s : S) (fates : List Fate) (st : Server S)
      → Delivers s fates st
      → Delivers s fates (process_packet packet_handler rcvbuf queue_size st)
  unfolding process_packet
  process_packet-Delivers s fates st (done, waiting, d) =
      simp (d.running, d.queue) (process-Split s fates done waiting st d)

  pub process_packets-Delivers :
      (n : ℕ) (s : S) (fates : List Fate) (st : Server S)
      → Delivers s fates st
      → Delivers s fates (process_packets packet_handler rcvbuf queue_size n st)
  unfolding process_packets
  process_packets-Delivers zero s fates st d = d
  process_packets-Delivers (suc n) s fates st d =
      process_packets-Delivers n s fates (process_packet packet_handler rcvbuf queue_size st)
        (process_packet-Delivers s fates st d)

  pub measure-Delivers :
      (s : S) (fates : List Fate) (st : Server S)
      → Delivers s fates st
      → Delivers s fates (measure packet_handler rcvbuf queue_size st)
  unfolding measure
  measure-Delivers s fates st (done, waiting, d) = (
    done,
    waiting,
    record {
      order = d.order;
      queue = d.queue;
      outcome = d.outcome;
      bound = d.bound;
      told = d.told;
      running = d.running;
      excess = d.excess;
    },
  )

  reported-warnings :
      (now kernel_drops : ℕ) (st : Server S)
      → reported (warnings packet_handler rcvbuf queue_size now kernel_drops st) ≡ st.dropped
  unfolding warnings reported
  reported-warnings now kernel_drops st = ground arith

  pub report-Delivers :
      (now kernel_drops : ℕ) (s : S) (fates : List Fate) (st : Server S)
      → Delivers s fates st
      → Delivers s fates (report packet_handler rcvbuf queue_size now kernel_drops st)
  unfolding report reset
  report-Delivers now kernel_drops s fates st (done, waiting, d) =
      elim (leb report_interval (now - st.last_report))
        as (λ b.
          Delivers s fates
            (if b then reset packet_handler rcvbuf queue_size now kernel_drops st else st)) [
              | true ↦ (
                done,
                waiting,
                record {
                  order = d.order;
                  queue = d.queue;
                  outcome = d.outcome;
                  bound = d.bound;
                  told = omega (
                    arith,
                    reported-append st.log
                        (warnings packet_handler rcvbuf queue_size now kernel_drops st),
                    reported-warnings now kernel_drops st,
                    d.told,
                  );
                  running = d.running;
                  excess = d.excess;
                },
              )
              | false ↦ (done, waiting, d)
            ]

  pub enqueued-lost :
      (s : S) (fates : List Fate) (done waiting : List (List ℕ)) (st : Server S) (d : List ℕ)
      → Split s fates done waiting st
      → queue_size ≤ length waiting
      → Split s
          (fates ++ lost d ∷ [])
          done
          waiting
          (enqueued packet_handler rcvbuf queue_size none st)
  unfolding enqueued deliveries losses datagrams
  enqueued-lost s fates done waiting st d h full =
      let count = ap (λ (xs : List (List ℕ)). length xs) h.order in
      record {
        order = deliveries-append fates (lost d ∷ []) ∙ append-nil (deliveries fates) ∙ h.order;
        queue = h.queue;
        outcome = h.outcome;
        bound = h.bound;
        told = omega (arith, losses-append fates (lost d ∷ []), h.told);
        running = h.running;
        excess = inr (
            omega (
              arith,
              length-deliveries fates,
              length-append (datagrams fates) (d ∷ []),
              ap (λ (xs : List (List ℕ)). length xs) (datagrams-append fates (lost d ∷ [])),
              count,
              length-append done waiting,
              full,
            ));
      }

  pub enqueued-delivered :
      (s : S) (fates : List Fate) (done waiting : List (List ℕ)) (st : Server S) (d : List ℕ)
      → Split s fates done waiting st
      → length waiting < queue_size
      → Split s
          (fates ++ delivered d ∷ [])
          done
          (waiting ++ d ∷ [])
          (enqueued packet_handler rcvbuf queue_size (some (map some waiting ++ some d ∷ [])) st)
  unfolding enqueued deliveries losses datagrams
  enqueued-delivered s fates done waiting st d h room = record {
    order =
        deliveries-append fates (delivered d ∷ [])
        ∙ ap (λ ds. ds ++ d ∷ []) h.order
        ∙ append_assoc done waiting (d ∷ []);
    queue = sym (map-append some waiting (d ∷ []));
    outcome = h.outcome;
    bound = omega (arith, length-append waiting (d ∷ []), room);
    told = omega (arith, losses-append fates (delivered d ∷ []), h.told);
    running = h.running;
    excess = elim h.excess [
      | inl e ↦ inl (omega (arith, losses-append fates (delivered d ∷ []), e))
      | inr e ↦ inr (
          omega (
            arith,
            ap (λ (xs : List (List ℕ)). length xs) (datagrams-append fates (delivered d ∷ [])),
            length-append (datagrams fates) (d ∷ []),
            e,
          ))
    ];
  }
