-- ===== src/Session/Uring/Leak.antt =====
-- A closing session of the io_uring build that has an operation in flight.
use warp_api.Prelude.{ℕ, ◌≡◌, true, List}
use warp_api.Ring.{RingBuffer}
use warp_api.Session.Serve.{Run, done, fault}
use warp_api.Session.Uring.{Submission, Queue, Uring, has_pending_io, Slot, live}

module _ (rb : RingBuffer) (sha1 : List ℕ → List ℕ) where
  open rb use {Buf, contents, read_region, advance_write}

  -- It stays so, with its buffers, is not freed and has no more submitted for it than these entries;
  -- or the loop follows a null pointer.
  pub data Leaks (u : Uring rb sha1) (entries : List Submission) : Run (Slot rb sha1) → Type 0 where
    leaked :
        {u' : Uring rb sha1} {q : Queue}
        → u'.conn ≡ u.conn
        → u'.io_flags ≡ u.io_flags
        → q.entries ≡ entries
        → Leaks u entries (done (live u' q))
    faulted : Leaks u entries fault

  abbrev pub IsStranded : Uring rb sha1 → Type 0
  IsStranded u = (u.conn.session.closing ≡ true) × (has_pending_io rb sha1 u ≡ true)
