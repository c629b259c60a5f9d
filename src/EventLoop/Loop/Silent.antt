-- ===== src/EventLoop/Loop/Silent.antt =====
-- A newcomer that sends nothing, through the rounds of a worker.
use warp_api.EventLoop.Loop.Stays.{StaysIn, newcomer-IsKept, on_expired-IsKept, on_ready-IsKept}
use warp_api.EventLoop.Loop.Newcomer.{
  IsKept, IsSilent, newcomer, on_accept-IsKept, on_network-IsKept,
}
use warp_api.EventLoop.{TimerWheel, Worker, on_accept}
use warp_api.EventLoop.Found.{Reached}
use warp_api.EventLoop.Steady.{IsSteady}
use warp_api.EventLoop.Loop.{Round, run_rounds}
use warp_api.EventLoop.Loop.Rounds.{IsFresh, RoundsHold}
use warp_api.EventLoop.Loop.Keeps.{run_rounds-keeps}
use warp_api.EventLoop.Loop.Running.{
  CrashedRounds, IsRunning, OnDone-Returns, Returns, RoundsEnd, on_accept-IsRunning,
}
use warp_api.EventLoop.Loop.Returns.{run_rounds-Returns}
use warp_api.Ring.{RingBuffer}
use warp_api.Session.Handler.{Endpoints}
use warp_api.Session.Serve.{OnDone, OnDone-mono}
use warp_api.Session.Epoll.{Wire, backlog}
use warp_api.Prelude.{List, false, some, ℕ, ◌≡◌}

module _ (timers : TimerWheel) (rb : RingBuffer) (sha1 : List ℕ → List ℕ) (max_body : ℕ)
    (ends : Endpoints rb sha1) where
  open timers use {Wheel, linked}

  run_rounds-StaysIn :
      (fd i : ℕ) (wire : Wire rb sha1) (rounds : List (Round (Wire rb sha1)))
      (w : Worker timers rb sha1)
      → Reached timers rb sha1 max_body ends w
      → IsFresh timers rb sha1 max_body ends w i fd wire
      → backlog rb sha1 wire ≡ 0
      → RoundsHold timers rb sha1 max_body ends
          (λ d readable hung_up. IsSilent timers rb sha1 max_body ends fd d readable hung_up)
          rounds
          (on_accept timers rb sha1 i fd wire w)
      → OnDone
          (λ w'.
            (w'.sessions i ≡ some (newcomer timers rb sha1 max_body ends fd wire))
            × (linked w'.wheel i ≡ false))
          (run_rounds timers rb sha1 max_body ends rounds (on_accept timers rb sha1 i fd wire w))
  run_rounds-StaysIn fd i wire rounds w r f none_left h =
      OnDone-mono (IsKept timers rb sha1 max_body ends fd i wire)
        (StaysIn timers rb sha1 max_body ends fd i wire)
        (run_rounds timers rb sha1 max_body ends rounds (on_accept timers rb sha1 i fd wire w))
        (λ w' k. (k.kept, k.unlinked))
        (run_rounds-keeps timers rb sha1 max_body ends
          (λ d readable hung_up. IsSilent timers rb sha1 max_body ends fd d readable hung_up)
          (IsKept timers rb sha1 max_body ends fd i wire)
          (λ v j fd' wire' g k.
            on_accept-IsKept timers rb sha1 max_body ends fd i j fd' wire wire' v g k)
          (λ v v' fd' readable writable hung_up now j c o q t k e.
            on_ready-IsKept timers rb sha1 max_body ends fd i wire v v' fd' readable writable
              hung_up now j c f.open_ none_left o q t k e)
          (λ v j c s fed q k.
            on_network-IsKept timers rb sha1 max_body ends fd i j wire c s v fed q k)
          (λ v v' j l k e. on_expired-IsKept timers rb sha1 max_body ends fd i wire v v' j l k e)
          rounds (on_accept timers rb sha1 i fd wire w) h
          (newcomer-IsKept timers rb sha1 max_body ends fd i wire w r f))

  -- A client that is accepted and sends nothing is never timed out: all rounds in which its socket
  -- is at most reported as writable come back, with the client in its place of the pool as it was
  -- accepted, and not known to the timer wheel; or by an access outside an array in the
  -- `onReadReady` that one of the events calls for the open session of its descriptor. The worker was reached by a run and its sessions can be parsed on, the system does
  -- as documented, and the answers of each loop over `accept4` end with EAGAIN.
  pub silent-kept :
      (fd i : ℕ) (wire : Wire rb sha1) (rounds : List (Round (Wire rb sha1)))
      (w : Worker timers rb sha1)
      → IsRunning timers rb sha1 max_body ends w
      → IsFresh timers rb sha1 max_body ends w i fd wire
      → IsSteady rb sha1 max_body ends wire
      → backlog rb sha1 wire ≡ 0
      → RoundsHold timers rb sha1 max_body ends
          (λ d readable hung_up. IsSilent timers rb sha1 max_body ends fd d readable hung_up)
          rounds
          (on_accept timers rb sha1 i fd wire w)
      → RoundsEnd timers rb sha1 max_body ends rounds
      → Returns
          (λ w'.
            (w'.sessions i ≡ some (newcomer timers rb sha1 max_body ends fd wire))
            × (linked w'.wheel i ≡ false))
          (CrashedRounds timers rb sha1 max_body ends rounds (on_accept timers rb sha1 i fd wire w))
          (run_rounds timers rb sha1 max_body ends rounds (on_accept timers rb sha1 i fd wire w))
  silent-kept fd i wire rounds w r f s none_left h e =
      OnDone-Returns (StaysIn timers rb sha1 max_body ends fd i wire)
        (IsRunning timers rb sha1 max_body ends)
        (CrashedRounds timers rb sha1 max_body ends rounds (on_accept timers rb sha1 i fd wire w))
        (run_rounds timers rb sha1 max_body ends rounds (on_accept timers rb sha1 i fd wire w))
        (run_rounds-StaysIn fd i wire rounds w r.reached f none_left h)
        (run_rounds-Returns timers rb sha1 max_body ends
          (λ d readable hung_up. IsSilent timers rb sha1 max_body ends fd d readable hung_up) rounds
          (on_accept timers rb sha1 i fd wire w) h e
          (on_accept-IsRunning timers rb sha1 max_body ends w i fd wire f s r))
