-- ===== src/Server.antt =====
-- The life of the server: src/Server/HttpServer.cpp, and the start and the stop of
-- src/EventLoop/EventLoop.cpp. What a worker does meanwhile is modelled in EventLoop and Session.
pub mod Threads
pub mod Main
pub mod Runs
use warp_api.Prelude.{ℕ, zero, suc, ◌%◌, Bool, true, false, List, [], ◌∷◌, ◌++◌, if◌then◌else◌}

-- What the process asks of the system, in its order. A thread is known by its index, and a join
-- returns once its worker has.
pub data Action : Type 0 where
  limit_set : ℕ → Action
  signal_ignored : ℕ → Action
  signal_handled : ℕ → Action
  thread_started : ℕ → Action
  thread_pinned : ℕ → ℕ → Action
  slept : ℕ → Action
  thread_joined : ℕ → Action

-- How a step ends: `by_assert` is a process that a failed assertion has ended, `by_fault` a
-- division by zero.
pub data Ended : Type 0 where
  normally : Ended
  by_exception : Ended
  by_assert : Ended
  by_fault : Ended

-- The members of the server and of its event loop, with the actions so far. A thread of the vector
-- is joinable: it is joined right before the vector is cleared.
pub record Process : Type 0 where
  pub running : Bool
  pub loop_running : Bool
  pub threads : List ℕ
  pub actions : List Action

abbrev pub Step : Type 0
Step = Process → Process × Ended

-- What is left undone where a step ended in another way.
abbrev pub go_on : Process × Ended → Step → Process × Ended
go_on (p, normally) next = next p
go_on (p, by_exception) next = (p, by_exception)
go_on (p, by_assert) next = (p, by_assert)
go_on (p, by_fault) next = (p, by_fault)

infixl 5 ◌>>◌
abbrev pub ◌>>◌ : Step → Step → Step
(m >> next) p = go_on (m p) next

abbrev pub act : Action → Step
act a p = (record p { actions = p.actions ++ (a ∷ []) }, normally)

-- `hardware` is `std::thread::hardware_concurrency()`, `can_start` whether the system has the
-- resources for the thread of an index; `std::thread` throws where it has not.
module _ (hardware : ℕ) (can_start : ℕ → Bool) where
  -- `_threads.emplace_back(&EventLoop::runWorker, this, i);`
  pub emplace : ℕ → Step
  emplace i p =
      if can_start i
      then act (thread_started i) (record p { threads = p.threads ++ (i ∷ []) })
      else (p, by_exception)

  -- `CPU_SET(i % std::thread::hardware_concurrency(), &cpuset);`
  pub pin : ℕ → Step
  pin i p = elim hardware [ zero ↦ (p, by_fault) | suc h ↦ act (thread_pinned i (i % suc h)) p ]

  -- The rounds that are left, and the next index.
  unfoldable pub start_threads : ℕ → ℕ → Step
  unfolding emplace pin
  start_threads zero i p = (p, normally)
  start_threads (suc left) i p = (do emplace i; pin i; start_threads left (suc i)) p

  -- `EventLoop::start`
  unfoldable pub start_loop : ℕ → Step
  unfolding start_threads
  start_loop max_threads p =
      if p.loop_running
      then (p, normally)
      else start_threads max_threads 0 (record p { loop_running = true })

  -- `HttpServer::start`
  unfoldable pub start : ℕ → Step
  unfolding start_loop
  start max_threads p =
      if p.running
      then (p, normally)
      else (do start_loop max_threads; λ q. (record q { running = true }, normally)) p

unfoldable pub join_all : List ℕ → Process → Process
join_all [] p = p
join_all (t ∷ ts) p = join_all ts (record p { actions = p.actions ++ (thread_joined t ∷ []) })

-- `EventLoop::stop`, which is also its destructor.
unfoldable pub stop_loop : Process → Process
unfolding join_all
stop_loop p =
    if p.loop_running
    then record (join_all p.threads (record p { loop_running = false })) { threads = [] }
    else p

-- `HttpServer::stop`
unfoldable pub stop : Process → Process
unfolding stop_loop
stop p = if p.running then stop_loop (record p { running = false }) else p

-- `HttpServer::~HttpServer`, and behind it the destructor of its event loop.
unfoldable pub destroy : Process → Process
unfolding stop stop_loop
destroy p = stop_loop (stop p)
