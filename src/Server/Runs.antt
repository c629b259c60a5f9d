-- ===== src/Server/Runs.antt =====
-- What a whole run of the server does.
-- A process with no thread and with the server stopped.
use warp_api.Server.{◌>>◌}
use warp_api.Server.Main.{prepare, construct_server, run_server, with_code}
use warp_api.Prelude.{if_cases}
use warp_api.Services
use warp_api.Services.{Endpoint}
use warp_api.Services.Registered.{register_all_endpoints-lookups}
use warp_api.Ring.{RingBuffer}
use warp_api.Endpoints.{InkixTree}
use warp_api.WebSocket.Dispatch.{WebSocketRoute}
use warp_api.Server.{
  Action, Ended, Process, by_assert, by_exception, by_fault, destroy, go_on, limit_set, normally,
  signal_handled, signal_ignored, slept, start, start_loop, stop, stop_loop,
}
use warp_api.Server.Main.{
  main, register_services, exit_code, ExitCode, Host, failure, leave, loaded, no_settings,
  run_until_signal, sigint, sigpipe, sigterm, success, terminated, wait_for_signal,
}
use warp_api.Server.Threads.{
  all_or_exception, indices, join_all_lem, joins, launches, start_threads_lem, startable,
}
use warp_api.Settings.{EnhancedJson, SettingsData, is_valid}
use warp_api.Settings.Bounds.{construct-max_threads}
use warp_api.Prelude.{
  Option-cases, Bool, List, Option, [], ap, append-nil, append_assoc, arith, false, if◌then◌else◌,
  inl, inr, none, refl, replicate, some, suc, true, zero, ℕ, ◌++◌, ◌==◌, ◌∙◌, ◌∷◌, ◌≡◌, ◌≤◌,
}

abbrev pub idle : List Action → Process
idle actions = record { running = false; loop_running = false; threads = []; actions = actions }

abbrev pub prepared : List Action
prepared =
    limit_set 1000000 ∷ signal_ignored sigpipe ∷ signal_handled sigint ∷ signal_handled sigterm ∷ []

-- From the start of so many threads to their join; the process waits for the signal only if all of
-- them have started.
abbrev pub session : Host → ℕ → ℕ → List Action
session h k n = launches 0 k ++ (if k == n then replicate h.polls (slept 100) else []) ++ joins 0 k

abbrev pub served : Host → ℕ → ℕ → List Action × ExitCode
served h k n = (prepared ++ session h k n, if k == n then success else failure)

-- Behind the assertion of the server's constructor.
abbrev pub asserted : Host → ℕ → Ended → List Action × ExitCode
asserted h n normally = served h (startable h.can_start 0 n) n
asserted h n by_exception = (prepared, failure)
asserted h n by_assert = (prepared, terminated)
asserted h n by_fault = (prepared, terminated)

-- The run of a host, read off its inputs.
abbrev pub expected : Host → Option EnhancedJson → List Action × ExitCode
expected h none = (prepared, failure)
expected h (some c) =
    asserted h (loaded h c).max_threads
      (if is_valid (loaded h c) then normally else h.failed_assert)

wait_for_signal_lem :
    (polls : ℕ) (p : Process)
    → wait_for_signal polls p
      ≡ (record p { actions = p.actions ++ replicate polls (slept 100) }, normally)
unfolding wait_for_signal
wait_for_signal_lem zero p = simp append-nil
wait_for_signal_lem (suc polls) p =
    wait_for_signal_lem polls (record p { actions = p.actions ++ (slept 100 ∷ []) })
    ∙ simp append_assoc

loaded-max_threads : (h : Host) (c : EnhancedJson) → (loaded h c).max_threads ≤ h.hardware
unfolding loaded
loaded-max_threads h c = construct-max_threads h.hardware h.backlog c (no_settings h) (omega arith)

-- A server whose threads run.
abbrev up : Bool → ℕ → List Action → Process
up b k actions = record {
  running = b;
  loop_running = true;
  threads = indices 0 k;
  actions = actions;
}

stop_loop-up :
    (k : ℕ) (actions : List Action) → stop_loop (up false k actions) ≡ idle (actions ++ joins 0 k)
unfolding stop_loop
stop_loop-up k actions =
    rw (join_all_lem 0 k (record (up false k actions) { loop_running = false })) refl

destroy-up :
    (k : ℕ) (actions : List Action) → destroy (up false k actions) ≡ idle (actions ++ joins 0 k)
unfolding destroy stop
destroy-up k actions = stop_loop-up k actions

stop-up : (k : ℕ) (actions : List Action) → stop (up true k actions) ≡ idle (actions ++ joins 0 k)
unfolding stop
stop-up k actions = stop_loop-up k actions

destroy-idle : (actions : List Action) → destroy (idle actions) ≡ idle actions
unfolding destroy stop stop_loop
destroy-idle actions = refl

-- A server that is started ends with its threads joined, however it ends.
start_lem :
    (hardware : ℕ) (can_start : ℕ → Bool) (n : ℕ) (actions : List Action)
    → n ≤ hardware
    → start hardware can_start n (idle actions)
      ≡ go_on
          (
            up false (startable can_start 0 n) (actions ++ launches 0 (startable can_start 0 n)),
            all_or_exception (startable can_start 0 n) n,
          )
          (λ q. (record q { running = true }, normally))
unfolding start start_loop
start_lem hardware can_start n actions le =
    rw
      (start_threads_lem hardware can_start n 0 (record (idle actions) { loop_running = true })
        (omega arith))
      refl

module _ (h : Host) (d : SettingsData) (le : d.max_threads ≤ h.hardware) where
  -- How many threads start.
  abbrev started : ℕ
  started = startable h.can_start 0 d.max_threads

  -- Behind the start of the threads.
  leave-started :
      (b : Bool) (k : ℕ) (actions : List Action)
      → leave (
          go_on
            (go_on
              (up false k actions, if b then normally else by_exception)
              (λ q. (record q { running = true }, normally)))
            (do wait_for_signal h.polls; λ p. (stop p, normally)))
        ≡ (
          idle (actions ++ (if b then replicate h.polls (slept 100) else []) ++ joins 0 k),
          if b then normally else by_exception,
        )
  unfolding leave
  leave-started true k actions =
      ap (λ r. leave (go_on r (λ p. (stop p, normally))))
        (wait_for_signal_lem h.polls (up true k actions))
      ∙ ap (λ p. (destroy p, normally)) (stop-up k (actions ++ replicate h.polls (slept 100)))
      ∙ ap (λ p. (p, normally))
          (destroy-idle ((actions ++ replicate h.polls (slept 100)) ++ joins 0 k)
            ∙ simp append_assoc)
  leave-started false k actions =
      ap (λ p. (p, by_exception)) (destroy-up k actions ∙ simp append_assoc)

  leave-run_until_signal :
      (actions : List Action)
      → leave (run_until_signal h d (idle actions)) ≡ (
        idle (actions ++ session h started d.max_threads),
        all_or_exception started d.max_threads,
      )
  unfolding run_until_signal
  leave-run_until_signal actions = rw (start_lem h.hardware h.can_start d.max_threads actions le) (
      leave-started (started == d.max_threads) started (actions ++ launches 0 started)
      ∙ simp append_assoc)

exit_code-if :
    (b : Bool) → exit_code (if b then normally else by_exception) ≡ (if b then success else failure)
unfolding exit_code
exit_code-if true = refl
exit_code-if false = refl

module _ (rb : RingBuffer) (sha1 : List ℕ → List ℕ) (routes : InkixTree (Endpoint rb sha1))
    (ws_routes : InkixTree WebSocketRoute) (json : Services.EnhancedJson) where
  -- The services are registered, whatever the host.
  register_services_lem :
      (p : Process) → register_services rb sha1 routes ws_routes json p ≡ (p, normally)
  unfolding register_services
  register_services_lem p =
      let (m, registered, endpoints, sockets) =
        register_all_endpoints-lookups rb sha1 routes ws_routes json in
      rw (registered, register_services) refl

  run_asserted : Host → SettingsData → List Action → Ended → Process × Ended
  run_asserted h d actions e = go_on (idle actions, e) (λ p. leave (run_until_signal h d p))

  run_asserted_lem :
      (h : Host) (d : SettingsData) (e : Ended)
      → d.max_threads ≤ h.hardware
      → with_code (run_asserted h d prepared e)
        ≡ (idle (asserted h d.max_threads e).0, (asserted h d.max_threads e).1)
  unfolding run_asserted exit_code
  run_asserted_lem h d normally le =
      let k = startable h.can_start 0 d.max_threads in
      rw (leave-run_until_signal h d le prepared) (
        ap (λ (c : ExitCode). (idle (prepared ++ session h k d.max_threads), c))
          (exit_code-if (k == d.max_threads)))
  run_asserted_lem h d by_exception le = refl
  run_asserted_lem h d by_assert le = refl
  run_asserted_lem h d by_fault le = refl

  construct_server_lem :
      (h : Host) (d : SettingsData) (p : Process)
      → construct_server h d p ≡ (p, if is_valid d then normally else h.failed_assert)
  unfolding construct_server
  construct_server_lem h d p =
      if_cases (λ (r : Process × Ended). r ≡ (p, if is_valid d then normally else h.failed_assert))
        (is_valid d) (p, normally) (p, h.failed_assert) (λ e. rw e) (λ e. rw e)

  run_server_lem :
      (h : Host) (d : SettingsData) (actions : List Action)
      → run_server rb sha1 routes ws_routes json h d (idle actions)
        ≡ run_asserted h d actions (if is_valid d then normally else h.failed_assert)
  unfolding run_server run_asserted
  run_server_lem h d actions = rw (register_services_lem (idle actions)) (
      ap (λ r. go_on r (λ p. leave (run_until_signal h d p)))
        (construct_server_lem h d (idle actions)))

  -- A run of the process, for every host: without a configuration, or behind a failed assertion
  -- that ends it, no thread is started. Otherwise the threads are started in their order, each
  -- pinned to the core of its own index, up to the first that cannot be started; only if all have
  -- started does the process wait for the signal and answer success. In the end the server is
  -- stopped, and exactly the threads that were started have been joined.
  pub main_lem :
      (h : Host)
      → main rb sha1 routes ws_routes json h
        ≡ (idle (expected h h.config).0, (expected h h.config).1)
  unfolding main prepare
  main_lem h = elim (Option-cases h.config) [
    | inl e ↦ rw (e, main) refl
    | inr (c, e) ↦
        rw (e, main)
          (ap with_code (run_server_lem h (loaded h c) prepared)
            ∙ run_asserted_lem h (loaded h c)
                (if is_valid (loaded h c) then normally else h.failed_assert)
                (loaded-max_threads h c))
  ]
