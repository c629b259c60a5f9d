-- ===== src/EventLoop/Served.antt =====
-- A client of the epoll build, from its accept to its answers.
use warp_api.Ring.{RingBuffer}
use warp_api.Session.Handler.{Endpoints, Session}
use warp_api.Session.Epoll.{Wire}
use warp_api.Session.Epoll.Requests.{output}
use warp_api.Prelude.{List, ℕ, ◌+◌, ◌<◌, ◌^◌}

module _ (rb : RingBuffer) (sha1 : List ℕ → List ℕ) (max_body : ℕ) (room : max_body + 14 < 2 ^ 64)
    (ends : Endpoints rb sha1) where
  open rb use {contents}

  abbrev output_of : Wire rb sha1 → List ℕ
  output_of w = output rb sha1 max_body room ends w
