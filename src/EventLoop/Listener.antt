-- ===== src/EventLoop/Listener.antt =====
-- The listener of the io_uring build in `runWorker` of src/EventLoop/EventLoop.cpp: one multishot
-- accept request, its completions and its renewal.
pub mod Armed
use warp_api.EventLoop.SetUp.{SetUp, close_fd, with_listener}
use warp_api.Session.Uring.{Queue, Slot, Uring, freed, live, on_accept}
use warp_api.Ring.{RingBuffer}
use warp_api.Session.Handler.{Session}
use warp_api.Session.Serve.{Run, done, fault, ◌>>=◌}
use warp_api.Prelude.{
  Bool, List, Option, [], if◌then◌else◌, none, some, suc, zero, ℕ, ◌++◌, ◌-◌, ◌==◌, ◌∷◌,
}

-- What a completion of the accept request says: a connection, `EAGAIN` or `ECONNABORTED`, or another
-- error, which is only logged.
pub data AcceptResult (U : Type 0) : Type 0 where
  connection : U → AcceptResult U
  try_again : AcceptResult U
  refused : AcceptResult U

-- A completion with `IORING_CQE_F_MORE`, and the entries that are free behind the two calls of
-- `io_uring_submit` that it may make.
pub record ListenerCqe (U : Type 0) : Type 0 where
  pub result : AcceptResult U
  pub more : Bool
  pub room : ℕ
  pub room_to_arm : ℕ

-- How `io_uring_queue_init_params` and the two assertions behind it end: the ring could not be set
-- up; it lacks a required feature; it gives no entry for the accept request; or it is ready.
pub data RingSetUp : Type 0 where
  ring_failed : RingSetUp
  no_features : RingSetUp
  no_entry : RingSetUp
  ring_ready : RingSetUp

-- `getSqeSafe`: the ring, from which an entry can be taken if it has one.
unfoldable pub get_sqe_safe : ℕ → Queue → Queue
get_sqe_safe room q = if q.free == 0 then record q { free = room } else q

module _ (rb : RingBuffer) (sha1 : List ℕ → List ℕ) where
  -- The ring, the number of accept requests that the kernel holds or is given, and the sessions.
  pub record Listener : Type 0 where
    pub queue : Queue
    pub armed : ℕ
    pub sessions : List (Uring rb sha1)

  -- The session of the pool behind its accept, or none behind `tryFreeSession`.
  unfoldable pub enter : Slot rb sha1 → Listener → Listener
  enter (live u q) l = record l { queue = q; sessions = l.sessions ++ (u ∷ []) }
  enter (freed q) l = record l { queue = q }

  unfoldable pub on_result : AcceptResult (Uring rb sha1) → ℕ → Listener → Listener
  unfolding enter get_sqe_safe on_accept
  on_result (connection u) room l = enter (on_accept rb sha1 u (get_sqe_safe room l.queue)) l
  on_result try_again room l = l
  on_result refused room l = l

  -- The accept request is prepared in an entry that is not tested; `fault` is a null pointer.
  unfoldable pub arm : ℕ → Listener → Run Listener
  unfolding get_sqe_safe
  arm room l = elim (get_sqe_safe room l.queue).free [
    | zero ↦ fault
    | suc n ↦
        done (record l {
          queue = record (get_sqe_safe room l.queue) { free = n };
          armed = suc l.armed;
        })
  ]

  -- A completion of the listener. Without the flag the kernel has given the request up.
  unfoldable pub on_listener : ListenerCqe (Uring rb sha1) → Listener → Run Listener
  unfolding on_result arm
  on_listener c l =
      let l' = on_result c.result c.room l in
      if c.more then done l' else arm c.room_to_arm (record l' { armed = l'.armed - 1 })

  unfoldable pub run_listener : List (ListenerCqe (Uring rb sha1)) → Listener → Run Listener
  unfolding on_listener
  run_listener [] l = done l
  run_listener (c ∷ cs) l = do l' ← on_listener c l; run_listener cs l'

  -- `sq_entries`, one of which takes the first accept request.
  abbrev pub new_listener : Listener
  new_listener = record {
    queue = record { free = 4096 - 1; entries = [] };
    armed = 1;
    sessions = [];
  }

  -- The worker of this build as far as its listener goes. An assertion that fails ends it where it
  -- stands.
  unfoldable pub run_uring_worker :
      SetUp → RingSetUp → List (ListenerCqe (Uring rb sha1)) → Run (List ℕ × Option Listener)
  unfolding run_listener close_fd with_listener
  run_uring_worker c ring cs = with_listener c λ fd. elim ring [
    | ring_failed ↦ done (close_fd fd (fd ∷ []), none)
    | no_features ↦ done (fd ∷ [], none)
    | no_entry ↦ done (fd ∷ [], none)
    | ring_ready ↦ do l ← run_listener cs new_listener; done (close_fd fd (fd ∷ []), some l)
  ]
