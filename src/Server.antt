-- ===== src/Server.antt =====
-- listener/server.py: the queue between the receive loop and the worker that handles datagrams.
-- Times are in microseconds; the socket and the kernel's counter of drops are inputs of a turn.
pub mod Fates
pub mod Waiting
pub mod Delivery
pub mod Shutdown
use formula1_app.Prelude.{
  ℕ, zero, suc, ◌-◌, ◌*◌, ◌/◌, Bool, true, false, ◌&&◌, Option, none, some, List, [], ◌∷◌, ◌++◌,
  length, ltb, leb, if◌then◌else◌,
}
use formula1_app.Result.{Error, Result, ok, raise}
use formula1_app.Action.{Action}

-- queue.Queue.put_nowait: `none` is queue.Full. A queue of maximum size 0 is never full.
unfoldable pub put_nowait {ℓ} : {A : Type ℓ} → ℕ → A → List A → Option (List A)
put_nowait maxsize x waiting =
    if ltb 0 maxsize && leb maxsize (length waiting) then none else some (waiting ++ x ∷ [])

pub data Line : Type 0 where
  -- Packet handler failed
  handler_failed : Error → Line
  -- Socket receive error
  receive_failed : Line
  -- Kernel dropped: the number, the time, the size of the receive buffer
  kernel_dropped : ℕ → ℕ → ℕ → Line
  -- Dropped: the number, the time
  packets_dropped : ℕ → ℕ → Line
  -- Packet backlog peaked: the peak, the queue's size
  backlog_peaked : ℕ → ℕ → Line

-- The queue, the locals of start_udp_server, whether the worker has returned, what the packet
-- handler has made of its state, and the log. A datagram is its bytes; `none` is the sentinel.
pub record Server (S : Type 0) : Type 0 where
  pub packets : List (Option (List ℕ))
  pub dropped : ℕ
  pub backlog_peak : ℕ
  pub last_report : ℕ
  pub last_kernel_drops : ℕ
  pub stopped : Bool
  pub handler_state : S
  pub log : List Line

-- _REPORT_INTERVAL_S
abbrev pub report_interval : ℕ
report_interval = 5 * 1000000

-- A turn of the receive loop. In `received`: the datagram, the worker's turns before the length of
-- the queue is read, the time, and the kernel's counter. `works` is a turn of the worker.
pub data Turn : Type 0 where
  received : List ℕ → ℕ → ℕ → ℕ → Turn
  socket_error : Turn
  works : Turn

module _ {S : Type 0} (packet_handler : List ℕ → Action S (Unit {0})) (rcvbuf queue_size : ℕ) where
  -- The locals before the loop.
  abbrev pub start : ℕ → ℕ → S → Server S
  start now kernel_drops handler_state = record {
    packets = [];
    dropped = 0;
    backlog_peak = 0;
    last_report = now;
    last_kernel_drops = kernel_drops;
    stopped = false;
    handler_state = handler_state;
    log = [];
  }

  -- A datagram given to the handler; an exception is logged and dropped.
  unfoldable pub handled : Result (Unit {0}) × S → Server S → Server S
  handled (ok u, s) st = record st { handler_state = s }
  handled (raise e, s) st = record st { handler_state = s; log = st.log ++ handler_failed e ∷ [] }

  unfoldable pub process : List (Option (List ℕ)) → Server S → Server S
  unfolding handled
  process [] st = st
  process (none ∷ packets) st = record st { packets = packets; stopped = true }
  process (some datagram ∷ packets) st =
      handled (packet_handler datagram st.handler_state) (record st { packets = packets })

  -- A turn of `_process_packets`, which waits on an empty queue and has returned after the sentinel.
  unfoldable pub process_packet : Server S → Server S
  unfolding process
  process_packet st = if st.stopped then st else process st.packets st

  unfoldable pub process_packets : ℕ → Server S → Server S
  unfolding process_packet
  process_packets zero st = st
  process_packets (suc n) st = process_packets n (process_packet st)

  unfoldable pub enqueued : Option (List (Option (List ℕ))) → Server S → Server S
  enqueued none st = record st { dropped = suc st.dropped }
  enqueued (some packets) st = record st { packets = packets }

  -- `packets.put_nowait(data)`, or one more datagram dropped.
  unfoldable pub enqueue : List ℕ → Server S → Server S
  unfolding enqueued put_nowait
  enqueue datagram st = enqueued (put_nowait queue_size (some datagram) st.packets) st

  unfoldable pub measure : Server S → Server S
  measure st = record st {
    backlog_peak =
        if ltb st.backlog_peak (length st.packets) then length st.packets else st.backlog_peak;
  }

  -- The warnings of a report.
  unfoldable pub warnings : ℕ → ℕ → Server S → List Line
  warnings now kernel_drops st =
      (if ltb st.last_kernel_drops kernel_drops
        then kernel_dropped (kernel_drops - st.last_kernel_drops) (now - st.last_report) rcvbuf ∷ []
        else [])
      ++ (if ltb 0 st.dropped
          then packets_dropped st.dropped (now - st.last_report) ∷ []
          else if leb (queue_size / 2) st.backlog_peak
          then backlog_peaked st.backlog_peak queue_size ∷ []
          else [])

  -- What a report logs and sets.
  unfoldable pub reset : ℕ → ℕ → Server S → Server S
  unfolding warnings
  reset now kernel_drops st = record st {
    log = st.log ++ warnings now kernel_drops st;
    dropped = 0;
    backlog_peak = 0;
    last_kernel_drops = kernel_drops;
    last_report = now;
  }

  unfoldable pub report : ℕ → ℕ → Server S → Server S
  unfolding reset
  report now kernel_drops st =
      if leb report_interval (now - st.last_report) then reset now kernel_drops st else st

  unfoldable pub step : Turn → Server S → Server S
  unfolding enqueue process_packets measure report
  step (received datagram turns now kernel_drops) st =
      report now kernel_drops (measure (process_packets turns (enqueue datagram st)))
  step socket_error st = record st { log = st.log ++ receive_failed ∷ [] }
  step works st = process_packet st

  unfoldable pub run : List Turn → Server S → Server S
  unfolding step
  run [] st = st
  run (e ∷ es) st = run es (step e st)

  unfoldable pub with_packets : Option (List (Option (List ℕ))) → Server S → Server S
  with_packets none st = st
  with_packets (some packets) st = record st { packets = packets }

  -- The end of start_udp_server: the sentinel, if the queue has room for it.
  unfoldable pub shut_down : Server S → Server S
  unfolding with_packets put_nowait
  shut_down st = with_packets (put_nowait queue_size none st.packets) st
