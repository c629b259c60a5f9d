-- ===== src/Tests/Events.antt =====
-- Runs of a worker of the epoll build.
use warp_api.Prelude.{ℕ, ◌≡◌, refl, Bool, true, false, not, ◌&&◌, ◌||◌, ◌==◌, none, some, [], arith}
use warp_api.EventLoop.{
  TimerWheel, Client, Worker, new_worker, on_accept, after_ready, handlers, on_ready, on_expired,
}
use warp_api.EventLoop.Found.{Reached, started, accepted, ready, event-reaches, closed-released}
use warp_api.Session.Epoll.{end_of_stream, Wire, on_read_ready}
use warp_api.Session.Serve.{done, ◌>>=◌}
use warp_api.Tests.Given.{flat_ring}
use warp_api.Tests.Serving.{no_digest}
use warp_api.Tests.Wire.{farewell, connected}

-- The wheel as the test of its nodes.
abbrev pub nodes : TimerWheel
nodes = record {
  Wheel = ℕ → Bool;
  linked = λ w i. w i;
  empty = λ i. false;
  update = λ w i j. (i == j) || w j;
  unlink = λ w i j. not (i == j) && w j;
  linked-empty = λ i. refl;
  linked-update = λ w i j. refl;
  linked-unlink = λ w i j. refl;
}

-- A client that closes its side at once.
abbrev leaving : Wire flat_ring no_digest
leaving = record {
  conn = connected [] [];
  socket = record { arriving = []; ending = end_of_stream; answers = []; sent = [] };
  is_open = true;
}

abbrev with_client : Worker nodes flat_ring no_digest
with_client = on_accept nodes flat_ring no_digest 7 5 leaving (new_worker nodes flat_ring no_digest)

abbrev leaving_client : Client nodes flat_ring no_digest
leaving_client = record { wire = leaving; fd = 5; last_activity_tick = 0 }

with_client-Reached : Reached nodes flat_ring no_digest 100 farewell with_client
with_client-Reached = accepted 7 5 leaving started refl (λ j c e o. cc) refl

with_client_at : with_client.sessions 7 ≡ some leaving_client
unfolding on_accept
with_client_at = refl

event-reaches_example :
    on_ready nodes flat_ring no_digest 100 farewell 5 true false false 5000 with_client ≡ (do
      (wire, activity) ← handlers nodes flat_ring no_digest 100 farewell true false leaving
      done (
          after_ready nodes flat_ring no_digest 7
            (record leaving_client { wire = wire })
            false
            activity
            5000
            with_client))
event-reaches_example =
    event-reaches nodes flat_ring no_digest 100 farewell with_client true false false 5000 7
      leaving_client with_client-Reached with_client_at refl

abbrev left_client : Client nodes flat_ring no_digest
left_client = record leaving_client { wire = record leaving { is_open = false } }

abbrev behind_event : Worker nodes flat_ring no_digest
behind_event = after_ready nodes flat_ring no_digest 7 left_client false true 5000 with_client

behind_event-Reached : Reached nodes flat_ring no_digest 100 farewell behind_event
unfolding handlers on_read_ready
behind_event-Reached =
    ready true false false 5000 7 leaving_client with_client-Reached with_client_at refl
      (omega arith) (omega arith) ran
  where
    ran :
        on_ready nodes flat_ring no_digest 100 farewell 5 true false false 5000 with_client
        ≡ done behind_event
    ran =
        event-reaches nodes flat_ring no_digest 100 farewell with_client true false false 5000 7
          leaving_client with_client-Reached with_client_at refl

behind_event_at : behind_event.sessions 7 ≡ some (record left_client { last_activity_tick = 5000 })
unfolding after_ready
behind_event_at = refl

closed-released_example :
    (behind_event.wheel 7 ≡ true)
    × (w' : Worker nodes flat_ring no_digest) × (on_expired nodes flat_ring no_digest 100 farewell 7
          behind_event
        ≡ done w')
    × (w'.sessions 7 ≡ none)
closed-released_example =
    closed-released nodes flat_ring no_digest 100 farewell behind_event 7
      (record left_client { last_activity_tick = 5000 }) behind_event-Reached behind_event_at refl
