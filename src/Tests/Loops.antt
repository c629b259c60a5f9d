-- ===== src/Tests/Loops.antt =====
-- Runs of the loops of the workers.
use warp_api.Request.{new_request}
use warp_api.EventLoop.{Client, Worker, new_worker, on_accept, on_network, on_ready}
use warp_api.EventLoop.SetUp.{SetUp}
use warp_api.EventLoop.Listener.{
  ring_ready, Listener, ListenerCqe, connection, refused, run_uring_worker,
}
use warp_api.EventLoop.Listener.Armed.{connections, receiving, run_uring_worker_lem}
use warp_api.Session.Uring.{
  Event, Uring, recv, completed, expired, live, lost, on_event, read_done, run_events,
  update_io_state,
}
use warp_api.Session.Uring.Left.{Settled, unread}
use warp_api.Session.Uring.Settled.{EventsFit, run_events-Settled, total}
use warp_api.EventLoop.Invariant.{IsSound}
use warp_api.EventLoop.Found.{started}
use warp_api.EventLoop.Loop.{
  Round, accept_all, failed, handle_reports, new_connection, of_client, of_listener, of_network,
  process_expired, run_rounds, run_ticks, run_worker, would_block,
}
use warp_api.EventLoop.Loop.Accepting.{accept_all_lem}
use warp_api.EventLoop.Loop.Rounds.{RoundsHold}
use warp_api.EventLoop.Loop.Running.{CrashedRounds, Returns, RoundsEnd}
use warp_api.EventLoop.Loop.Sound.{run_worker-Finished}
use warp_api.EventLoop.Loop.Newcomer.{IsSilent, newcomer}
use warp_api.EventLoop.Loop.Silent.{silent-kept}
use warp_api.Session.Parser.{parse_request}
use warp_api.Session.Serve.{consume, done, ◌>>=◌}
use warp_api.Session.Epoll.{Socket, again, on_read_ready, on_write_ready, Wire}
use warp_api.Tests.Given.{flat_ring}
use warp_api.Tests.Serving.{no_digest}
use warp_api.Tests.Wire.{connected, farewell, ring_2, uring}
use warp_api.Tests.Events.{nodes}
use warp_api.Prelude.{List, [], arith, false, inr, map, refl, some, true, ◌+◌, ◌∷◌, ◌≡◌}

-- A client that sends nothing.
abbrev quiet : Wire flat_ring no_digest
quiet = record {
  conn = connected [] [];
  socket = record { arriving = []; ending = again; answers = []; sent = [] };
  is_open = true;
}

-- Its socket is reported as writable, and the wheel ticks.
abbrev quiet_rounds : List (Round (Wire flat_ring no_digest))
quiet_rounds =
    record { now = 5000; reports = of_client 5 false true false ∷ []; ticks = [] ∷ [] }
    ∷ record { now = 90000; reports = []; ticks = [] ∷ [] ∷ [] }
    ∷ []

abbrev fresh_worker : Worker nodes flat_ring no_digest
fresh_worker = new_worker nodes flat_ring no_digest

abbrev quiet_client : Client nodes flat_ring no_digest
quiet_client = newcomer nodes flat_ring no_digest 100 farewell 5 quiet

quiet_rounds-Hold :
    RoundsHold nodes flat_ring no_digest 100 farewell
      (λ d readable hung_up. IsSilent nodes flat_ring no_digest 100 farewell 5 d readable hung_up)
      quiet_rounds
      (on_accept nodes flat_ring no_digest 7 5 quiet fresh_worker)
unfolding handle_reports run_ticks process_expired on_ready on_accept on_write_ready
quiet_rounds-Hold = (
  (omega arith, omega arith),
  ((7, quiet_client, record { here = refl; open_ = refl; same = refl }), inr (refl, refl), tt),
  ((tt, tt), ((omega arith, omega arith), tt, ((tt, (tt, tt)), tt))),
)

silent-kept_example :
    Returns
      (λ (w' : Worker nodes flat_ring no_digest).
        (w'.sessions 7 ≡ some (newcomer nodes flat_ring no_digest 100 farewell 5 quiet))
        × (w'.wheel 7 ≡ false))
      (CrashedRounds nodes flat_ring no_digest 100 farewell quiet_rounds
        (on_accept nodes flat_ring no_digest 7 5 quiet fresh_worker))
      (run_rounds nodes flat_ring no_digest 100 farewell quiet_rounds
        (on_accept nodes flat_ring no_digest 7 5 quiet fresh_worker))
unfolding new_request
silent-kept_example =
    silent-kept nodes flat_ring no_digest 100 farewell 5 7 quiet quiet_rounds fresh_worker
      (record { reached = started; steady = λ i c none_yet. cc })
      (record { free = refl; unused = λ j c e o. cc; open_ = refl })
      (record { plain = omega arith; room = omega arith }) refl quiet_rounds-Hold (tt, (tt, tt))

-- The first byte of a request.
abbrev first_byte : Socket
first_byte = record { arriving = (71, []) ∷ []; ending = again; answers = []; sent = [] }

abbrev first_rounds : List (Round (Wire flat_ring no_digest))
first_rounds =
    record {
      now = 5000;
      reports =
          of_listener (failed ∷ new_connection 5 7 quiet ∷ would_block ∷ [])
          ∷ of_network 7 first_byte
          ∷ of_client 5 true true false
          ∷ [];
      ticks = [];
    }
    ∷ []

abbrev fed_client : Client nodes flat_ring no_digest
fed_client = record quiet_client { wire = record quiet { socket = first_byte } }

first_rounds-Hold :
    RoundsHold nodes flat_ring no_digest 100 farewell
      (λ d readable hung_up. Unit {0})
      first_rounds
      fresh_worker
unfolding handle_reports run_ticks process_expired accept_all on_ready on_accept on_write_ready
    on_network on_read_ready consume parse_request
first_rounds-Hold = (
  (omega arith, omega arith),
  (
    (record { free = refl; unused = λ j c e o. cc; open_ = refl }, tt),
    (
      quiet_client,
      record { here = refl; open_ = refl; sent_kept = refl; room = omega arith },
      tt,
      ((7, fed_client, record { here = refl; open_ = refl; same = refl }), tt, tt),
    ),
  ),
  (tt, tt),
)

first_rounds-End : RoundsEnd nodes flat_ring no_digest 100 farewell first_rounds
unfolding new_request
first_rounds-End = (((record { plain = omega arith; room = omega arith }, tt), tt), tt)

abbrev bound_socket : SetUp
bound_socket = record { socket = some 3; bound = true; listening = true }

run_worker-Finished_example :
    (run_worker nodes flat_ring no_digest 100 farewell bound_socket 4 first_rounds ≡ (do
      w ← run_rounds nodes flat_ring no_digest 100 farewell first_rounds fresh_worker
      done ([], some w)))
    × Returns
        (IsSound nodes flat_ring no_digest)
        (CrashedRounds nodes flat_ring no_digest 100 farewell first_rounds fresh_worker)
        (run_rounds nodes flat_ring no_digest 100 farewell first_rounds fresh_worker)
run_worker-Finished_example =
    run_worker-Finished nodes flat_ring no_digest 100 farewell bound_socket 3 4 first_rounds refl
      (omega arith) first_rounds-Hold first_rounds-End

-- A connection, behind which the accept request has to be renewed, and an error.
abbrev listener_cqes : List (ListenerCqe (Uring flat_ring no_digest))
listener_cqes =
    record { result = connection (uring 0 []); more = false; room = 9; room_to_arm = 9 }
    ∷ record { result = refused; more = true; room = 9; room_to_arm = 9 }
    ∷ []

run_uring_worker_lem_example :
    (l : Listener flat_ring no_digest) × (l.armed ≡ 1)
    × (l.sessions
        ≡ map (receiving flat_ring no_digest) (connections flat_ring no_digest listener_cqes))
    × (l.queue.entries ≡ recv (200) ∷ [])
    × (run_uring_worker flat_ring no_digest bound_socket ring_ready listener_cqes
        ≡ done ([], some l))
run_uring_worker_lem_example =
    run_uring_worker_lem flat_ring no_digest bound_socket 3 ring_ready listener_cqes refl
      (omega arith)

-- A client that closes its side, and its timeout.
abbrev last_events : List Event
last_events = completed (read_done lost) ∷ expired ∷ []

last_events-Fit : EventsFit flat_ring no_digest 100 farewell last_events (live (uring 1 []) ring_2)
unfolding on_event update_io_state
last_events-Fit = (omega arith, (omega arith, tt))

run_events-Settled_example :
    Settled flat_ring no_digest
      (unread flat_ring no_digest (uring 1 []) + total flat_ring no_digest 100 farewell last_events)
      (run_events flat_ring no_digest 100 farewell last_events (uring 1 []) ring_2)
unfolding new_request
run_events-Settled_example =
    run_events-Settled flat_ring no_digest 100 farewell last_events (uring 1 []) ring_2
      (omega arith) (omega arith) last_events-Fit

accept_all_lem_example :
    accept_all nodes flat_ring no_digest
      (failed ∷ new_connection 5 7 quiet ∷ would_block ∷ [])
      fresh_worker
    ≡ done (on_accept nodes flat_ring no_digest 7 5 quiet fresh_worker)
accept_all_lem_example =
    accept_all_lem nodes flat_ring no_digest (failed ∷ new_connection 5 7 quiet ∷ would_block ∷ [])
      fresh_worker
