-- ===== src/EventLoop/Loop/Sound.antt =====
-- A whole worker of the epoll build: its rounds, its invariant and its descriptors.
use warp_api.EventLoop.{TimerWheel, new_worker}
use warp_api.EventLoop.SetUp.{SetUp}
use warp_api.EventLoop.SetUp.Closed.{close_fd_both, with_listener_lem}
use warp_api.EventLoop.Invariant.{IsSound}
use warp_api.EventLoop.Found.{Reached-IsSound, started}
use warp_api.EventLoop.Loop.{Round, run_rounds, run_worker}
use warp_api.EventLoop.Loop.Rounds.{RoundsHold}
use warp_api.EventLoop.Loop.Running.{CrashedRounds, IsRunning, Returns, Returns-mono, RoundsEnd}
use warp_api.EventLoop.Loop.Returns.{run_rounds-Returns}
use warp_api.Ring.{RingBuffer}
use warp_api.Session.Handler.{Endpoints}
use warp_api.Session.Serve.{done, ◌>>=◌}
use warp_api.Session.Epoll.{Wire}
use warp_api.Prelude.{List, [], ap, if◌then◌else◌, none, some, ℕ, ◌&&◌, ◌∙◌, ◌≡◌, ◌≢◌}

module _ (timers : TimerWheel) (rb : RingBuffer) (sha1 : List ℕ → List ℕ) (max_body : ℕ)
    (ends : Endpoints rb sha1) where
  run_rounds-IsSound :
      (rounds : List (Round (Wire rb sha1)))
      → RoundsHold timers rb sha1 max_body ends
          (λ fd readable hung_up. Unit {0})
          rounds
          (new_worker timers rb sha1)
      → RoundsEnd timers rb sha1 max_body ends rounds
      → Returns
          (IsSound timers rb sha1)
          (CrashedRounds timers rb sha1 max_body ends rounds (new_worker timers rb sha1))
          (run_rounds timers rb sha1 max_body ends rounds (new_worker timers rb sha1))
  run_rounds-IsSound rounds h e =
      Returns-mono (IsRunning timers rb sha1 max_body ends) (IsSound timers rb sha1)
        (CrashedRounds timers rb sha1 max_body ends rounds (new_worker timers rb sha1))
        (CrashedRounds timers rb sha1 max_body ends rounds (new_worker timers rb sha1))
        (run_rounds timers rb sha1 max_body ends rounds (new_worker timers rb sha1))
        (λ w r. Reached-IsSound timers rb sha1 max_body ends r.reached) (λ c. c)
        (run_rounds-Returns timers rb sha1 max_body ends (λ fd readable hung_up. Unit {0}) rounds
          (new_worker timers rb sha1) h e
          (record { reached = started; steady = λ i c none_yet. cc }))

  run_worker_lem :
      (c : SetUp) (fd epfd : ℕ) (rounds : List (Round (Wire rb sha1)))
      → c.socket ≡ some fd
      → fd ≢ epfd
      → run_worker timers rb sha1 max_body ends c epfd rounds ≡ (
          if c.bound && c.listening
          then (do
            w ← run_rounds timers rb sha1 max_body ends rounds (new_worker timers rb sha1)
            done ([], some w))
          else done ([], none))
  unfolding run_worker
  run_worker_lem c fd epfd rounds e ne =
      with_listener_lem c fd _ e
      ∙ ap
          (λ (xs : List ℕ).
            if c.bound && c.listening
            then (do
              w ← run_rounds timers rb sha1 max_body ends rounds (new_worker timers rb sha1)
              done (xs, some w))
            else done ([], none))
          (close_fd_both fd epfd ne)

  -- A worker whose socket was created runs its rounds exactly if the socket could also be bound and
  -- listened on, and then ends as they do; on every branch that returns it leaves neither the
  -- listener open nor the epoll instance. Where the system does as documented, the answers of each
  -- loop over `accept4` end with EAGAIN, and the accepted sessions are new ones, the rounds come
  -- back: with a sound worker, whose table leads to each session whose socket is open, and whose
  -- wheel knows each that has been active or is closed, and no other; or by an access outside an
  -- array, in the `onReadReady` that one of the events calls for the open session of its descriptor,
  -- everything before it having come back; so neither by a null pointer nor by a released session.
  pub run_worker-Finished :
      (c : SetUp) (fd epfd : ℕ) (rounds : List (Round (Wire rb sha1)))
      → c.socket ≡ some fd
      → fd ≢ epfd
      → RoundsHold timers rb sha1 max_body ends
          (λ d readable hung_up. Unit {0})
          rounds
          (new_worker timers rb sha1)
      → RoundsEnd timers rb sha1 max_body ends rounds
      → (run_worker timers rb sha1 max_body ends c epfd rounds ≡ (
          if c.bound && c.listening
          then (do
            w ← run_rounds timers rb sha1 max_body ends rounds (new_worker timers rb sha1)
            done ([], some w))
          else done ([], none)))
        × Returns
            (IsSound timers rb sha1)
            (CrashedRounds timers rb sha1 max_body ends rounds (new_worker timers rb sha1))
            (run_rounds timers rb sha1 max_body ends rounds (new_worker timers rb sha1))
  run_worker-Finished c fd epfd rounds e ne h ends_ =
      (run_worker_lem c fd epfd rounds e ne, run_rounds-IsSound rounds h ends_)
