-- ===== src/Tests/Wire.antt =====
-- Runs of a session on its socket, in the epoll and in the io_uring build.
use warp_api.Prelude.{
  Bool, ℕ, ◌≡◌, ◌-◌, Bool, ◌++◌, refl, true, false, none, some, List, [], ◌∷◌, drop, codes, arith,
  length,
}
use warp_api.Session.Handler.{http, Endpoints}
use warp_api.Request.{new_request}
use warp_api.Session.Parser.{parse_request}
use warp_api.Response
use warp_api.Session.Uring.Balance.{receives}
use warp_api.Session.Uring.Receives.{Reached, accepted, behind, freed-receives}
use warp_api.Session.Epoll.{Socket, accepts, again, Wire, on_write_ready, on_read_ready}
use warp_api.Session.Epoll.Flush.{Flushed, on_write_ready-Flushed}
use warp_api.Session.Epoll.Drain.{Drained, load, on_read_ready-Drained}
use warp_api.Session.Uring.{
  on_accept, on_event, update_io_state, lost, freed, recv, Uring, Queue, Submission, send_zc,
  received, read_done, write_done, completed, expired, run_events, live,
}
use warp_api.Session.Uring.Resend.{zero_copy-resent}
use warp_api.Session.Serve.{Run, done, Connection, consume}
use warp_api.Tests.Given.{flat_ring}
use warp_api.Tests.Serving.{no_digest, client}

abbrev get_close : List ℕ
get_close = codes "GET /x HTTP/1.1\r\nConnection: close\r\n\r\n"

-- An endpoint for everything, which writes three bytes.
abbrev pub farewell : Endpoints flat_ring no_digest
farewell = record {
  get_endpoint = λ method path.
      some (λ request response out. some (response, (out.0 ++ codes "bye", out.1 - 3), none));
  get_web_socket_endpoint = λ path. none;
}

-- A connection with bytes to write and bytes to read.
abbrev pub connected : List ℕ → List ℕ → Connection flat_ring no_digest
connected out bytes = record {
  session = record client { req = new_request; out = (out, 4096) };
  input = (bytes, 200 - length bytes);
}

-- The first byte of a request makes no answer.
part :
    consume flat_ring no_digest 100 farewell http (connected (codes "an answer") (codes "G"))
    ≡ done (connected (codes "an answer") (codes "G"), true)
unfolding consume parse_request
part = refl

-- The result of a run, where there is one.
result : Run (Connection flat_ring no_digest × Bool) → Connection flat_ring no_digest
result (done (c, alive)) = c
result _ = connected [] []

abbrev closed : Connection flat_ring no_digest
closed = result (consume flat_ring no_digest 100 farewell http (connected [] get_close))

-- A session of the io_uring build with its flags and its write buffer.
abbrev pub uring : ℕ → List ℕ → Uring flat_ring no_digest
uring flags out = record {
  conn = connected out [];
  is_open = true;
  io_flags = flags;
  locked_zc_bytes = 0;
}

abbrev pub ring_2 : Queue
ring_2 = record { free = 2; entries = [] }

zero_copy-resent_example :
    (u' : Uring flat_ring no_digest) × (q' : Queue) × (rest : List Submission) × (run_events
        flat_ring no_digest 100 farewell
        (completed (write_done (some 9) true false) ∷ completed (read_done (received 71 [])) ∷ [])
        (uring 3 (codes "an answer"))
        ring_2
      ≡ done (live u' q'))
    × (q'.entries ≡ [] ++ (send_zc (codes "an answer") ∷ rest))
    × (u'.locked_zc_bytes ≡ 9)
zero_copy-resent_example =
    zero_copy-resent flat_ring no_digest 100 farewell (uring 3 (codes "an answer")) ring_2 9 1 71 []
      (connected (codes "an answer") (codes "G")) refl (omega arith) refl (omega arith) part refl

-- From the accept: the client closes its side, and the timeout follows.
abbrev reading_first : Uring flat_ring no_digest
reading_first = uring 1 []

abbrev ring_1 : Queue
ring_1 = record { free = 1; entries = recv 200 ∷ [] }

abbrev hung_up : Uring flat_ring no_digest
hung_up = record (uring 0 []) {
  conn = record {
    session = record client { req = new_request; out = ([], 4096); closing = true };
    input = ([], 200);
  };
  is_open = false;
}

first : Reached flat_ring no_digest 100 farewell (live reading_first ring_1) 0
unfolding on_accept update_io_state
first = accepted (uring 0 []) ring_2 refl refl

second : Reached flat_ring no_digest 100 farewell (live hung_up ring_1) 1
unfolding on_event update_io_state
second = behind (completed (read_done lost)) first (omega arith) refl

third : Reached flat_ring no_digest 100 farewell (freed ring_1) 1
unfolding on_event
third = behind expired second (omega arith) refl

freed-receives_example : receives ring_1.entries ≡ 1
freed-receives_example = freed-receives flat_ring no_digest 100 farewell ring_1 1 third

-- The epoll build, with an answer to write of which the socket takes four bytes at first.
abbrev socket : Socket
socket = record {
  arriving = (71, drop 1 get_close) ∷ [];
  ending = again;
  answers = accepts 3 ∷ accepts 100 ∷ [];
  sent = codes "before";
}

abbrev wire : List ℕ → Wire flat_ring no_digest
wire out = record { conn = connected out []; socket = socket; is_open = true }

on_write_ready-Flushed_example :
    (w' : Wire flat_ring no_digest) × (b : Bool) × (on_write_ready flat_ring no_digest
        (wire (codes "an answer"))
      ≡ done (w', b))
    × Flushed flat_ring no_digest (wire (codes "an answer")) w'
on_write_ready-Flushed_example =
    on_write_ready-Flushed flat_ring no_digest (wire (codes "an answer")) (omega arith)

on_read_ready-Drained_example :
    Drained flat_ring no_digest
      (load flat_ring no_digest (wire []))
      (on_read_ready flat_ring no_digest 100 farewell (wire []))
unfolding new_request
on_read_ready-Drained_example =
    on_read_ready-Drained flat_ring no_digest 100 farewell (wire []) (omega arith) (omega arith)
