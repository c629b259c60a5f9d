-- ===== src/Session/Created.antt =====
-- The constructors of `Session` in src/Server/Session.cpp, of both builds.
use warp_api.Ring.{NewBuffer, RingBuffer}
use warp_api.Settings.{SettingsData}
use warp_api.Session.Handler.{http, Session}
use warp_api.Session.Serve.{Connection}
use warp_api.Session.Epoll.{Socket, Wire}
use warp_api.Session.Uring.{Uring, io_none}
use warp_api.Request.{new_request}
use warp_api.Prelude.{List, false, none, true, ℕ}

module _ (rb : RingBuffer) (sha1 : List ℕ → List ℕ) (buffers : NewBuffer rb) where
  open buffers use {make}

  unfoldable pub new_session : SettingsData → Session rb sha1
  new_session d = record {
    mode = http;
    ws_state = record { route = none; close_sent = false };
    keep_alive = false;
    closing = false;
    req = new_request;
    out = make d.max_response_size;
  }

  unfoldable pub new_connection : SettingsData → Connection rb sha1
  unfolding new_session
  new_connection d = record { session = new_session d; input = make d.max_request_size }

  -- The epoll build.
  unfoldable pub new_wire : SettingsData → Socket → Wire rb sha1
  unfolding new_connection
  new_wire d socket = record { conn = new_connection d; socket = socket; is_open = true }

  -- The io_uring build.
  unfoldable pub new_uring : SettingsData → Uring rb sha1
  unfolding new_connection
  new_uring d = record {
    conn = new_connection d;
    is_open = true;
    io_flags = io_none;
    locked_zc_bytes = 0;
  }
