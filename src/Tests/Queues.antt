-- ===== src/Tests/Queues.antt =====
-- The server's queue at concrete inputs.
use formula1_app.Prelude.{ℕ, ◌≡◌, ◌++◌, refl, List, [], ◌∷◌, arith}
use formula1_app.Result.{ok, raise, index_error}
use formula1_app.Action.{Action}
use formula1_app.Server.{
  Server, Turn, received, socket_error, works, handler_failed, receive_failed, packets_dropped,
  start, run, process_packets, shut_down,
}
use formula1_app.Server.Fates.{Fate, datagrams, receipts}
use formula1_app.Server.Waiting.{handle_each, Delivers}
use formula1_app.Server.Delivery.{run-Delivers}
use formula1_app.Server.Shutdown.{Drained, handles_each}

-- A handler that keeps the first byte of each datagram and raises on an empty one.
abbrev keep_first : List ℕ → Action (List ℕ) (Unit {0})
keep_first [] s = (raise index_error, s)
keep_first (b ∷ bytes) s = (ok tt, s ++ b ∷ [])

-- A queue of two, three datagrams before the worker's first turn, and a report.
abbrev burst : List Turn
burst =
    received (1 ∷ []) 0 10 0
    ∷ received [] 0 20 0
    ∷ received (3 ∷ []) 0 30 0
    ∷ socket_error
    ∷ works
    ∷ works
    ∷ received (4 ∷ []) 0 5000010 0
    ∷ []

abbrev after_burst : Server (List ℕ)
after_burst = run keep_first 212992 2 burst (start keep_first 212992 2 10 0 [])

burst-log :
    after_burst.log ≡ receive_failed ∷ handler_failed index_error ∷ packets_dropped 1 5000000 ∷ []
unfolding run
burst-log = refl

burst-handler_state : after_burst.handler_state ≡ 1 ∷ []
unfolding run
burst-handler_state = refl

run-Delivers_example :
    (fates : List Fate) × (datagrams fates ≡ receipts burst)
    × Delivers keep_first 212992 2 [] fates
        (run keep_first 212992 2 burst (start keep_first 212992 2 10 0 []))
run-Delivers_example = run-Delivers keep_first 212992 2 10 0 [] burst (omega arith)

handles_each_example :
    Drained keep_first 212992 5 (handle_each keep_first 212992 5 (receipts burst) []) (
      process_packets keep_first 212992 5 7 (
        shut_down keep_first 212992 5
          (run keep_first 212992 5 burst (start keep_first 212992 5 10 0 []))))
unfolding receipts
handles_each_example = handles_each keep_first 212992 5 10 0 [] burst 7 (omega arith) (omega arith)
