-- ===== src/Session/Epoll/Requests.antt =====
-- The requests of a client through the epoll build, from the socket to the socket.
use warp_api.Prelude.{ℕ, ◌+◌, ◌<◌, ◌^◌, ◌≡◌, Bool, List, ◌++◌}
use warp_api.Ring.{RingBuffer}
use warp_api.Session.Handler.{Session, Endpoints}
use warp_api.Session.Serve.{Run, done, ◌>>=◌}
use warp_api.Session.Epoll.{Wire, out_of}

module _ (rb : RingBuffer) (sha1 : List ℕ → List ℕ) (max_body : ℕ) (room : max_body + 14 < 2 ^ 64)
    (ends : Endpoints rb sha1) where
  open rb use {Buf, contents, read_region, write_space, advance_write, advance_write_contents}

  -- All the bytes that were sent, and behind them those that are left to write.
  abbrev pub output : Wire rb sha1 → List ℕ
  output w = w.socket.sent ++ contents (out_of rb sha1 w)

  -- The reading ends, with these bytes.
  abbrev pub Outputs : List ℕ → Run (Wire rb sha1 × Bool) → Type 0
  Outputs bytes r = (w : Wire rb sha1) × (b : Bool) × (r ≡ done (w, b)) × (output w ≡ bytes)
