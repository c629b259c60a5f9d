-- ===== src/EventLoop.antt =====
-- The epoll build of `runWorker` in src/EventLoop/EventLoop.cpp: the session table, the sessions of
-- the pool and the timer wheel of a thread. The kernel's part, which descriptors are accepted and
-- reported, is an input.
pub mod Invariant
pub mod Steps
pub mod Found
pub mod SetUp
pub mod Loop
pub mod Listener
pub mod Served
pub mod Steady
use warp_api.Prelude.{
  ℕ, ◌+◌, ◌-◌, ◌*◌, ◌%◌, ◌^◌, Bool, true, false, not, ◌&&◌, ◌||◌, ◌≡◌, Option, none, some, List, [],
  ◌++◌, ltb, leb, ◌==◌, if◌then◌else◌, length, get_or, set, replicate,
}
use warp_api.Ring.{RingBuffer}
use warp_api.Session.Handler.{Endpoints}
use warp_api.Session.Serve.{Run, done, fault, ◌>>=◌}
use warp_api.Session.Epoll.{Socket, Wire, on_read_ready, on_write_ready}

-- `ink::TimerWheel`, by the nodes that are linked in it.
pub record TimerWheel : Type 1 where
  pub Wheel : Type 0
  pub linked : Wheel → ℕ → Bool
  pub empty : Wheel
  pub update : Wheel → ℕ → Wheel
  pub unlink : Wheel → ℕ → Wheel
  pub linked-empty : (i : ℕ) → linked empty i ≡ false
  pub linked-update : (w : Wheel) (i j : ℕ) → linked (update w i) j ≡ ((i == j) || linked w j)
  pub linked-unlink : (w : Wheel) (i j : ℕ) → linked (unlink w i) j ≡ (not (i == j) && linked w j)

abbrev pub max_events : ℕ
max_events = 8192

abbrev pub tick_interval : ℕ
tick_interval = 1000

-- `currentLoopTime - session->lastActivityTick >= TIMERWHELL_TICK_INTERVAL`, on 64 bits.
abbrev pub is_due : ℕ → ℕ → Bool
is_due now last = leb tick_interval ((now + (2 ^ 64 - last)) % 2 ^ 64)

module _ (timers : TimerWheel) (rb : RingBuffer) (sha1 : List ℕ → List ℕ) where
  open timers use {Wheel, linked, empty, update, unlink}

  -- A session of the pool, which is known by its place there; `fd` is the descriptor that it was
  -- accepted with.
  pub record Client : Type 0 where
    pub wire : Wire rb sha1
    pub fd : ℕ
    pub last_activity_tick : ℕ

  pub record Worker : Type 0 where
    pub sessions : ℕ → Option Client
    pub table : List (Option ℕ)
    pub wheel : Wheel

  abbrev pub new_worker : Worker
  new_worker = record { sessions = λ i. none; table = replicate max_events none; wheel = empty }

  -- A place of the pool.
  pub put : (ℕ → Option Client) → ℕ → Option Client → ℕ → Option Client
  put sessions i c j = if i == j then c else sessions j

  -- `releaseSession`. A session whose socket was closed before has the descriptor -1, which is no
  -- index of the table.
  pub release : ℕ → Client → Worker → Worker
  unfolding put
  release i c w = record {
    sessions = put w.sessions i none;
    table = if c.wire.is_open && ltb c.fd (length w.table) then set w.table c.fd none else w.table;
    wheel = unlink w.wheel i;
  }

  -- `if (clientSock >= (int)sessionTable.size()) sessionTable.resize(clientSock * 2);`
  pub resized : List (Option ℕ) → ℕ → List (Option ℕ)
  resized table fd =
      if leb (length table) fd then table ++ replicate (fd * 2 - length table) none else table

  -- An accepted connection.
  unfoldable pub on_accept : ℕ → ℕ → Wire rb sha1 → Worker → Worker
  unfolding put resized
  on_accept i fd wire w = record w {
    sessions = put w.sessions i (some (record { wire = wire; fd = fd; last_activity_tick = 0 }));
    table = set (resized w.table fd) fd (some i);
  }

  -- What the system does to the socket of a session between two events.
  unfoldable pub on_network : ℕ → Client → Socket → Worker → Worker
  unfolding put
  on_network i c k w = record w {
    sessions = put w.sessions i (some (record c { wire = record c.wire { socket = k } }));
  }

  -- What the loop does behind the two handlers.
  unfoldable pub after_ready : ℕ → Client → Bool → Bool → ℕ → Worker → Worker
  unfolding release put
  after_ready i c hung_up activity now w =
      if hung_up
      then release i c w
      else if activity && is_due now c.last_activity_tick
      then record w {
        sessions = put w.sessions i (some (record c { last_activity_tick = now }));
        wheel = update w.wheel i;
      }
      else record w { sessions = put w.sessions i (some c) }

  module _ (max_body : ℕ) (ends : Endpoints rb sha1) where
    -- `onReadReady` and `onWriteReady`, by the flags of the event, and whether one was active.
    unfoldable pub handlers : Bool → Bool → Wire rb sha1 → Run (Wire rb sha1 × Bool)
    handlers readable writable wire = do
      let read = on_read_ready rb sha1 max_body ends wire
      (wire', b) ← if readable then read else done (wire, false)
      let written = on_write_ready rb sha1 wire'
      (wire'', b') ← if wire'.is_open && writable then written else done (wire', false)
      done (wire'', b || b')

    -- An event of a descriptor. `fault` is a null pointer, or a session that is not in the pool.
    unfoldable pub on_ready : ℕ → Bool → Bool → Bool → ℕ → Worker → Run Worker
    unfolding handlers after_ready
    on_ready fd readable writable hung_up now w = elim (get_or w.table fd none) [
      | none ↦ fault
      | some i ↦ elim (w.sessions i) [
        | none ↦ fault
        | some c ↦ do
          (wire, activity) ← handlers readable writable c.wire
          done (after_ready i (record c { wire = wire }) hung_up activity now w)
      ]
    ]

    -- `processExpired`
    pub on_expired : ℕ → Worker → Run Worker
    unfolding release
    on_expired i w = elim (w.sessions i) [ none ↦ fault | some c ↦ done (release i c w) ]
