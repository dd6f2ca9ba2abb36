-- ===== src/Server/Shutdown.antt =====
-- The end of start_udp_server in listener/server.py: the sentinel stops the worker.
use formula1_app.Prelude.{
  ℕ, zero, suc, ◌<◌, ◌≡◌, refl, sym, ap, ◌∙◌, inl, inr, true, false, none, some, List, [], ◌∷◌,
  ◌++◌, map, length, length-map, length-append, arith,
}
use mathlib.Core.Path.{subst}
use formula1_app.Result.{Result, ok, raise}
use formula1_app.Action.{Action}
use formula1_app.Server.{
  Server, Turn, put_nowait, start, handled, process, process_packet, process_packets, run,
  with_packets, shut_down,
}
use formula1_app.Server.Fates.{Fate, datagrams, losses, receipts, deliveries-datagrams}
use formula1_app.Server.Waiting.{handle_each, handle_each-append, Split}
use formula1_app.Server.Delivery.{run-Delivers}

module _ {S : Type 0} (packet_handler : List ℕ → Action S (Unit {0})) (rcvbuf queue_size : ℕ) where
  -- What the worker leaves when it has taken everything up to the sentinel.
  pub record Drained (s : S) (st : Server S) : Type 0 where
    pub outcome : st.handler_state ≡ s
    pub returned : st.stopped ≡ true

  -- The queue ends in the sentinel.
  record Closed (s : S) (waiting : List (List ℕ)) (st : Server S) : Type 0 where
    queue : st.packets ≡ map some waiting ++ none ∷ []
    outcome : st.handler_state ≡ s
    running : st.stopped ≡ false

  handled-Closed :
      (s : S) (waiting : List (List ℕ)) (st : Server S) (r : Result (Unit {0}) × S)
      → r.1 ≡ s
      → st.stopped ≡ false
      → Closed s waiting (
          handled packet_handler rcvbuf queue_size r
            (record st { packets = map some waiting ++ none ∷ [] }))
  unfolding handled
  handled-Closed s waiting st (ok u, t) e h = record { queue = refl; outcome = e; running = h }
  handled-Closed s waiting st (raise x, t) e h = record { queue = refl; outcome = e; running = h }

  process_packet-Closed :
      (s : S) (waiting : List (List ℕ)) (st : Server S)
      → Closed s waiting st
      → process_packet packet_handler rcvbuf queue_size st
        ≡ process packet_handler rcvbuf queue_size (map some waiting ++ none ∷ []) st
  unfolding process_packet
  process_packet-Closed s waiting st c =
      simp (c.running) (ap (λ ps. process packet_handler rcvbuf queue_size ps st) c.queue)

  idle :
      (n : ℕ) (s : S) (st : Server S)
      → Drained s st
      → Drained s (process_packets packet_handler rcvbuf queue_size n st)
  unfolding process_packets process_packet
  idle zero s st d = d
  idle (suc n) s st d = simp (d.returned) (idle n s st d)

  drains :
      (n : ℕ) (s : S) (waiting : List (List ℕ)) (st : Server S)
      → length waiting < n
      → Closed s waiting st
      → Drained
          (handle_each packet_handler rcvbuf queue_size waiting s)
          (process_packets packet_handler rcvbuf queue_size n st)
  unfolding process_packets process handle_each
  drains zero s waiting st h c = absurd (omega arith)
  drains (suc n) s [] st h c = rw (process_packet-Closed s [] st c) (
      idle n s (record st { packets = []; stopped = true })
        (record { outcome = c.outcome; returned = refl }))
  drains (suc n) s (w ∷ ws) st h c = rw (process_packet-Closed s (w ∷ ws) st c) (
      drains n (packet_handler w s).1 ws
        (handled packet_handler rcvbuf queue_size (packet_handler w st.handler_state)
          (record st { packets = map some ws ++ none ∷ [] }))
        (omega arith)
        (handled-Closed (packet_handler w s).1 ws st (packet_handler w st.handler_state)
          (ap (λ t. (packet_handler w t).1) c.outcome) c.running))

  shut_down-Closed :
      (s : S) (fates : List Fate) (done waiting : List (List ℕ)) (st : Server S)
      → length waiting < queue_size
      → Split packet_handler rcvbuf queue_size s fates done waiting st
      → Closed
          (handle_each packet_handler rcvbuf queue_size done s)
          waiting
          (shut_down packet_handler rcvbuf queue_size st)
  unfolding shut_down with_packets put_nowait
  shut_down-Closed s fates done waiting st h d =
      rw (sent) (record { queue = refl; outcome = d.outcome; running = d.running })
    where
      sent : put_nowait queue_size none st.packets ≡ some (map some waiting ++ none ∷ [])
      sent = rw (d.queue, length-map some waiting) (ground arith)

  -- Fewer datagrams than the queue holds: all of them are done or wait.
  none_lost :
      (s : S) (fates : List Fate) (received done waiting : List (List ℕ)) (st : Server S)
      → datagrams fates ≡ received
      → length received < queue_size
      → Split packet_handler rcvbuf queue_size s fates done waiting st
      → done ++ waiting ≡ received
  none_lost s fates received done waiting st e h d =
      sym d.order ∙ deliveries-datagrams fates lossless ∙ e
    where
      lossless : losses fates ≡ 0
      lossless = elim d.excess [
        | inl z ↦ z
        | inr big ↦ absurd (omega (arith, big, h, ap (λ (xs : List (List ℕ)). length xs) e))
      ]

  -- If fewer datagrams are received than the queue's size, in any order of the receive loop's turns
  -- and the worker's, then after the shutdown more turns of the worker than datagrams give each of
  -- them to the handler, in the order of their arrival, whether it raises or not, and the worker
  -- returns.
  pub handles_each :
      (now kernel_drops : ℕ) (s : S) (es : List Turn) (n : ℕ)
      → length (receipts es) < queue_size
      → length (receipts es) < n
      → Drained (handle_each packet_handler rcvbuf queue_size (receipts es) s) (
          process_packets packet_handler rcvbuf queue_size n (
            shut_down packet_handler rcvbuf queue_size (
              run packet_handler rcvbuf queue_size es
                (start packet_handler rcvbuf queue_size now kernel_drops s))))
  handles_each now kernel_drops s es n h k =
      let (fates, e, (done, waiting, d)) =
        run-Delivers packet_handler rcvbuf queue_size now kernel_drops s es (omega arith) in
      let split = none_lost s fates (receipts es) done waiting _ e h d in
      let count = ap (λ (xs : List (List ℕ)). length xs) split in
      subst
        (λ t. Drained t (
          process_packets packet_handler rcvbuf queue_size n (
            shut_down packet_handler rcvbuf queue_size (
              run packet_handler rcvbuf queue_size es
                (start packet_handler rcvbuf queue_size now kernel_drops s)))))
        (sym (handle_each-append packet_handler rcvbuf queue_size done waiting s)
          ∙ ap (λ ds. handle_each packet_handler rcvbuf queue_size ds s) split)
        (drains n (handle_each packet_handler rcvbuf queue_size done s) waiting _
          (omega (arith, count, length-append done waiting))
          (shut_down-Closed s fates done waiting _
            (omega (arith, count, length-append done waiting)) d))
