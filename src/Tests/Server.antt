-- ===== src/Tests/Server.antt =====
-- A run of the process.
-- A configuration that has no key, so that the defaults are taken.
use warp_api.Server.{by_assert, thread_joined, thread_pinned, thread_started}
use warp_api.Server.Main.{Host, failure, loaded, main}
use warp_api.Server.Runs.{expected, idle, main_lem, prepared}
use warp_api.Settings.{EnhancedJson, construct, is_valid}
use warp_api.Services.{Endpoint}
use warp_api.Tests.Given.{flat_ring}
use warp_api.Tests.Serving.{function_tree, no_digest}
use warp_api.Tests.Services.{texts}
use warp_api.Endpoints.{InkixTree}
use warp_api.WebSocket.Dispatch.{WebSocketRoute}
use warp_api.Prelude.{[], refl, some, ◌++◌, ◌==◌, ◌∷◌, ◌≡◌}

abbrev defaults : EnhancedJson
defaults = record { get_text = λ key v. some v; get_number = λ key v. some v }

-- Two threads are configured, and the second cannot be started.
abbrev short_of_threads : Host
short_of_threads = record {
  config = some defaults;
  hardware = 8;
  backlog = 128;
  can_start = λ i. i == 0;
  failed_assert = by_assert;
  polls = 3;
}

abbrev routes : InkixTree (Endpoint flat_ring no_digest)
routes = function_tree (Endpoint flat_ring no_digest)

main_lem_example :
    main flat_ring no_digest routes (function_tree WebSocketRoute) texts short_of_threads ≡ (
      idle (expected short_of_threads (some defaults)).0,
      (expected short_of_threads (some defaults)).1,
    )
main_lem_example =
    main_lem flat_ring no_digest routes (function_tree WebSocketRoute) texts short_of_threads

-- What is expected there.
expected_run :
    expected short_of_threads (some defaults)
    ≡ (prepared ++ (thread_started 0 ∷ thread_pinned 0 0 ∷ thread_joined 0 ∷ []), failure)
unfolding loaded construct is_valid
expected_run = refl
