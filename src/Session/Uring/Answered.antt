-- ===== src/Session/Uring/Answered.antt =====
-- A client of the io_uring build, from its accept to the end of its answer.
use warp_api.Session.Uring.{Uring, io_none, io_reading, update_io_state}
use warp_api.Session.Created.{new_uring}
use warp_api.Ring.{NewBuffer, RingBuffer}
use warp_api.Settings.{SettingsData}
use warp_api.Session.Handler.{Endpoints, Session}
use warp_api.Session.Serve.{◌>>=◌}
use warp_api.Prelude.{List, true, ℕ}

module _ (rb : RingBuffer) (sha1 : List ℕ → List ℕ) (max_body : ℕ) (ends : Endpoints rb sha1)
    (buffers : NewBuffer rb) where
  open rb use {contents, write_space, advance_write, advance_write_contents}
  open buffers use {make, contents-make, write_space-make, first_whole}

  -- The new session, with its first receive submitted.
  abbrev first_reading : SettingsData → Uring rb sha1
  first_reading d = record (new_uring rb sha1 buffers d) {
    io_flags = update_io_state io_none io_reading true;
  }
