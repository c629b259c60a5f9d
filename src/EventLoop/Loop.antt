-- ===== src/EventLoop/Loop.antt =====
-- `runWorker` of src/EventLoop/EventLoop.cpp around the events: its listener, its rounds and its
-- end. The answers of the system are inputs.
pub mod Rounds
pub mod Keeps
pub mod Running
pub mod Sound
pub mod Newcomer
pub mod Stays
pub mod Silent
pub mod Returns
pub mod Accepting
use warp_api.EventLoop.{TimerWheel, Worker, new_worker, on_accept, on_expired, on_network, on_ready}
use warp_api.EventLoop.SetUp.{SetUp, close_fd, with_listener}
use warp_api.Ring.{RingBuffer}
use warp_api.Session.Handler.{Endpoints, Session}
use warp_api.Session.Serve.{Run, done, stuck, ◌>>=◌}
use warp_api.Session.Epoll.{Socket, Wire}
use warp_api.Prelude.{Bool, List, Option, [], if◌then◌else◌, none, not, some, ℕ, ◌==◌, ◌∷◌}

-- An answer of `accept4`: a descriptor, for which the pool has a place; that nothing is left to
-- accept; or another error.
pub data AcceptAnswer (W : Type 0) : Type 0 where
  new_connection : ℕ → ℕ → W → AcceptAnswer W
  would_block : AcceptAnswer W
  failed : AcceptAnswer W

-- An event that `epoll_wait` reports: of the listener, with the answers that follow, of a
-- descriptor, with its flags; and what the system does to the socket of a session in between.
pub data Report (W : Type 0) : Type 0 where
  of_listener : List (AcceptAnswer W) → Report W
  of_client : ℕ → Bool → Bool → Bool → Report W
  of_network : ℕ → Socket → Report W

-- A round of the loop: its time, the events, and the nodes that each tick of the wheel expires.
pub record Round (W : Type 0) : Type 0 where
  pub now : ℕ
  pub reports : List (Report W)
  pub ticks : List (List ℕ)

module _ (timers : TimerWheel) (rb : RingBuffer) (sha1 : List ℕ → List ℕ) where
  -- The loop over `accept4`. It is not over where the answers end.
  unfoldable pub accept_all :
      List (AcceptAnswer (Wire rb sha1)) → Worker timers rb sha1 → Run (Worker timers rb sha1)
  unfolding on_accept
  accept_all [] w = stuck
  accept_all (would_block ∷ more) w = done w
  accept_all (failed ∷ more) w = accept_all more w
  accept_all (new_connection fd i wire ∷ more) w =
      accept_all more (on_accept timers rb sha1 i fd wire w)

  module _ (max_body : ℕ) (ends : Endpoints rb sha1) where
    -- The events of one `epoll_wait`, in their order. What the system does in between changes the
    -- socket of a session of the pool only.
    unfoldable pub handle_reports :
        ℕ → List (Report (Wire rb sha1)) → Worker timers rb sha1 → Run (Worker timers rb sha1)
    unfolding accept_all on_ready on_network
    handle_reports now [] w = done w
    handle_reports now (of_listener answers ∷ more) w = do
      w' ← accept_all answers w
      handle_reports now more w'
    handle_reports now (of_client fd readable writable hung_up ∷ more) w = do
      w' ← on_ready timers rb sha1 max_body ends fd readable writable hung_up now w
      handle_reports now more w'
    handle_reports now (of_network i k ∷ more) w = elim (w.sessions i) [
      | none ↦ handle_reports now more w
      | some c ↦ handle_reports now more (on_network timers rb sha1 i c k w)
    ]

    -- `processExpired`, node by node.
    unfoldable pub process_expired : List ℕ → Worker timers rb sha1 → Run (Worker timers rb sha1)
    unfolding on_expired
    process_expired [] w = done w
    process_expired (i ∷ more) w = do
      w' ← on_expired timers rb sha1 max_body ends i w
      process_expired more w'

    -- While the time to the next tick is 0.
    unfoldable pub run_ticks : List (List ℕ) → Worker timers rb sha1 → Run (Worker timers rb sha1)
    unfolding process_expired
    run_ticks [] w = done w
    run_ticks (nodes ∷ more) w = do w' ← process_expired nodes w; run_ticks more w'

    -- The rounds up to the one before which `_running` is read as false.
    unfoldable pub run_rounds :
        List (Round (Wire rb sha1)) → Worker timers rb sha1 → Run (Worker timers rb sha1)
    unfolding handle_reports run_ticks
    run_rounds [] w = done w
    run_rounds (r ∷ more) w = do
      w' ← handle_reports r.now r.reports w
      w'' ← run_ticks r.ticks w'
      run_rounds more w''

    -- The worker behind its rounds, with the descriptor of its epoll instance.
    unfoldable pub run_worker :
        SetUp → ℕ → List (Round (Wire rb sha1)) → Run (List ℕ × Option (Worker timers rb sha1))
    unfolding run_rounds close_fd with_listener
    run_worker c epfd rounds = with_listener c λ fd. do
      w ← run_rounds rounds (new_worker timers rb sha1)
      done (close_fd epfd (close_fd fd (epfd ∷ fd ∷ [])), some w)
