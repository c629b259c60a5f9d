-- ===== src/EventLoop/Loop/Rounds.antt =====
-- What the system guarantees along the rounds of a worker.
use warp_api.EventLoop.{Client, TimerWheel, Worker, on_accept, on_expired, on_network, on_ready}
use warp_api.EventLoop.Loop.{
  AcceptAnswer, Report, Round, accept_all, failed, handle_reports, new_connection, of_client,
  of_listener, of_network, process_expired, run_ticks, would_block,
}
use warp_api.Ring.{RingBuffer}
use warp_api.Session.Handler.{Endpoints}
use warp_api.Session.Serve.{OnDone}
use warp_api.Session.Epoll.{Socket, Wire}
use warp_api.Session.Epoll.Drain.{HasRoom}
use warp_api.Prelude.{
  Bool, List, Option, [], ap, false, none, some, true, ℕ, ◌<◌, ◌^◌, ◌∷◌, ◌≡◌, ◌≢◌, ◌≤◌,
}

module _ (timers : TimerWheel) (rb : RingBuffer) (sha1 : List ℕ → List ℕ) (max_body : ℕ)
    (ends : Endpoints rb sha1) where
  open timers use {Wheel, linked}

  -- A descriptor that no open session has, for a free place of the pool.
  pub record IsFresh (w : Worker timers rb sha1) (i fd : ℕ) (wire : Wire rb sha1) : Type 0 where
    pub free : w.sessions i ≡ none
    pub unused :
        (j : ℕ) (c : Client timers rb sha1)
        → w.sessions j ≡ some c
        → c.wire.is_open ≡ true
        → fd ≢ c.fd
    pub open_ : wire.is_open ≡ true

  -- The descriptor of an open session.
  pub record IsOf (w : Worker timers rb sha1) (fd i : ℕ) (c : Client timers rb sha1) : Type 0 where
    pub here : w.sessions i ≡ some c
    pub open_ : c.wire.is_open ≡ true
    pub same : fd ≡ c.fd

  -- What an open socket holds from now on.
  pub record IsFed (w : Worker timers rb sha1) (i : ℕ) (c : Client timers rb sha1) (k : Socket)
      : Type 0 where
    pub here : w.sessions i ≡ some c
    pub open_ : c.wire.is_open ≡ true
    pub sent_kept : k.sent ≡ c.wire.socket.sent
    pub room : HasRoom rb sha1 max_body ends (record c.wire { socket = k })

  pub handle_reports-network :
      (now i : ℕ) (c : Client timers rb sha1) (k : Socket) (more : List (Report (Wire rb sha1)))
      (w : Worker timers rb sha1)
      → w.sessions i ≡ some c
      → handle_reports timers rb sha1 max_body ends now (of_network i k ∷ more) w
        ≡ handle_reports timers rb sha1 max_body ends now more (on_network timers rb sha1 i c k w)
  unfolding handle_reports
  handle_reports-network now i c k more w here =
      ap
        (λ (o : Option (Client timers rb sha1)). elim o [
          | none ↦ handle_reports timers rb sha1 max_body ends now more w
          | some d ↦
              handle_reports timers rb sha1 max_body ends now more
                (on_network timers rb sha1 i d k w)
        ])
        here

  -- A time in milliseconds behind the first second.
  abbrev pub IsTime : ℕ → Type 0
  IsTime now = (1000 ≤ now) × (now < 2 ^ 64)

  -- The system accepts fresh descriptors only, and reports events of open sessions only, and of
  -- these only what is in `Heard`, by the descriptor and the flags of reading and of hanging up. What
  -- it does to a socket is in `Heard` as an event of reading, and leaves what was sent. The wheel
  -- expires the nodes that are linked in it.
  module _ (Heard : ℕ → Bool → Bool → Type 0) where
    abbrev pub AnswersHold : List (AcceptAnswer (Wire rb sha1)) → Worker timers rb sha1 → Type 0
    AnswersHold [] w = Unit {0}
    AnswersHold (would_block ∷ more) w = Unit {0}
    AnswersHold (failed ∷ more) w = AnswersHold more w
    AnswersHold (new_connection fd i wire ∷ more) w =
        IsFresh w i fd wire × AnswersHold more (on_accept timers rb sha1 i fd wire w)

    abbrev pub ReportsHold : ℕ → List (Report (Wire rb sha1)) → Worker timers rb sha1 → Type 0
    ReportsHold now [] w = Unit {0}
    ReportsHold now (of_listener answers ∷ more) w =
        AnswersHold answers w × OnDone (ReportsHold now more) (accept_all timers rb sha1 answers w)
    ReportsHold now (of_client fd readable writable hung_up ∷ more) w =
        ((i : ℕ) × (c : Client timers rb sha1) × IsOf w fd i c)
        × Heard fd readable hung_up
        × OnDone (ReportsHold now more)
            (on_ready timers rb sha1 max_body ends fd readable writable hung_up now w)
    ReportsHold now (of_network i k ∷ more) w =
        (c : Client timers rb sha1) × IsFed w i c k
        × Heard c.fd true false
        × ReportsHold now more (on_network timers rb sha1 i c k w)

    abbrev pub NodesHold : List ℕ → Worker timers rb sha1 → Type 0
    NodesHold [] w = Unit {0}
    NodesHold (i ∷ more) w =
        (linked w.wheel i ≡ true)
        × OnDone (NodesHold more) (on_expired timers rb sha1 max_body ends i w)

    abbrev pub TicksHold : List (List ℕ) → Worker timers rb sha1 → Type 0
    TicksHold [] w = Unit {0}
    TicksHold (nodes ∷ more) w =
        NodesHold nodes w
        × OnDone (TicksHold more) (process_expired timers rb sha1 max_body ends nodes w)

    abbrev pub RoundsHold : List (Round (Wire rb sha1)) → Worker timers rb sha1 → Type 0
    RoundsHold [] w = Unit {0}
    RoundsHold (r ∷ more) w =
        IsTime r.now
        × ReportsHold r.now r.reports w
        × OnDone
            (λ w'.
              TicksHold r.ticks w'
              × OnDone (RoundsHold more) (run_ticks timers rb sha1 max_body ends r.ticks w'))
            (handle_reports timers rb sha1 max_body ends r.now r.reports w)
