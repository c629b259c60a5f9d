-- ===== src/Server/Main.antt =====
-- `main` of src/main.cpp. The configuration file, the threads and the signals are inputs.
use warp_api.Prelude.{ℕ, zero, suc, Bool, false, Option, none, some, List, [], if◌then◌else◌}
use warp_api.Endpoints.{InkixTree, new_manager}
use warp_api.Ring.{RingBuffer}
use warp_api.Server.{
  limit_set, signal_ignored, signal_handled, slept, Ended, normally, by_exception, by_assert,
  by_fault, Process, Step, ◌>>◌, act, start, stop, destroy,
}
use warp_api.Services
use warp_api.Services.{Endpoint, register_all_endpoints}
use warp_api.Settings.{SettingsData, EnhancedJson, is_valid, Settings, construct}
use warp_api.WebSocket.Dispatch.{WebSocketRoute}

-- The numbers of Linux.
abbrev pub sigint : ℕ
sigint = 2

abbrev pub sigpipe : ℕ
sigpipe = 13

abbrev pub sigterm : ℕ
sigterm = 15

-- What the process finds: the configuration, if it is not empty; the threads that can be started;
-- how an assertion that fails ends, which the ink library decides; and how often the flag of the
-- signal handlers is read before it is set.
pub record Host : Type 0 where
  pub config : Option EnhancedJson
  pub hardware : ℕ
  pub backlog : ℕ
  pub can_start : ℕ → Bool
  pub failed_assert : Ended
  pub polls : ℕ

-- The exit code; `terminated` is a process that did not get to give one.
pub data ExitCode : Type 0 where
  success : ExitCode
  failure : ExitCode
  terminated : ExitCode

unfoldable pub exit_code : Ended → ExitCode
exit_code normally = success
exit_code by_exception = failure
exit_code by_assert = terminated
exit_code by_fault = terminated

abbrev pub with_code : Process × Ended → Process × ExitCode
with_code (p, e) = (p, exit_code e)

-- `Settings::_data` and `Settings::_initialized` before anything was read.
abbrev pub no_settings : (h : Host) → Settings h.hardware h.backlog
no_settings h = record {
  data_now = record {
    port = 0;
    ip = [];
    max_threads = 0;
    backlog_size = 0;
    connection_timeout_ms = 0;
    max_body_size = 0;
    max_request_size = 0;
    max_response_size = 0;
  };
  initialized = false;
}

-- What `Settings(appConfig)` leaves.
unfoldable pub loaded : Host → EnhancedJson → SettingsData
loaded h c = (construct h.hardware h.backlog c (no_settings h)).data_now

-- `increase_fd_limit` and the signals.
unfoldable pub prepare : Step
prepare = do
  act (limit_set 1000000)
  act (signal_ignored sigpipe)
  act (signal_handled sigint)
  act (signal_handled sigterm)

-- The flag is read as unset so many times more.
unfoldable pub wait_for_signal : ℕ → Step
wait_for_signal zero p = (p, normally)
wait_for_signal (suc polls) p = (do act (slept 100); wait_for_signal polls) p

-- `HttpServer::HttpServer`
unfoldable pub construct_server : Host → SettingsData → Step
unfolding is_valid
construct_server h d p = if is_valid d then (p, normally) else (p, h.failed_assert)

-- A scope that holds the server: its destructor runs at the end and under an exception.
unfoldable pub leave : Process × Ended → Process × Ended
unfolding destroy
leave (p, normally) = (destroy p, normally)
leave (p, by_exception) = (destroy p, by_exception)
leave (p, by_assert) = (p, by_assert)
leave (p, by_fault) = (p, by_fault)

-- From `server.start()` to `server.stop()`.
unfoldable pub run_until_signal : Host → SettingsData → Step
unfolding start stop wait_for_signal
run_until_signal h d = do
  start h.hardware h.can_start d.max_threads
  wait_for_signal h.polls
  λ p. (stop p, normally)

module _ (rb : RingBuffer) (sha1 : List ℕ → List ℕ) (routes : InkixTree (Endpoint rb sha1))
    (ws_routes : InkixTree WebSocketRoute) (json : Services.EnhancedJson) where
  -- `GeneralServices generalServices;`
  unfoldable pub register_services : Step
  register_services p =
      elim (register_all_endpoints rb sha1 routes ws_routes json (new_manager routes ws_routes)) [
        | none ↦ (p, by_exception)
        | some m ↦ (p, normally)
      ]

  -- The block under `try`.
  unfoldable pub run_server : Host → SettingsData → Step
  unfolding register_services construct_server run_until_signal leave
  run_server h d = do register_services; construct_server h d; λ p. leave (run_until_signal h d p)

  unfoldable pub main : Host → Process × ExitCode
  unfolding prepare run_server loaded
  main h =
      let p =
        (prepare
          (record { running = false; loop_running = false; threads = []; actions = [] })).0 in
      elim h.config [ none ↦ (p, failure) | some c ↦ with_code (run_server h (loaded h c) p) ]
