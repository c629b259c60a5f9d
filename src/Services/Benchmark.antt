-- ===== src/Services/Benchmark.antt =====
-- A whole answer of the services: POST "/apibenchmark", from the tables to the bytes.
use warp_api.Prelude.{ℕ, ap₂, ◌≡◌, refl, ◌∙◌, false, some, List, ◌++◌, take, codes}
use warp_api.Endpoints.{EndpointManager, InkixTree, new_manager}
use warp_api.Headers.{has_header}
use warp_api.Request.{post}
use warp_api.Ring.{RingBuffer}
use warp_api.Session.Handler.{Session, handle_request, upgrade_keys}
use warp_api.Session.Handler.Bodies.{answer_body, ok_text}
use warp_api.Services.{
  EnhancedJson, Endpoint, body_of, apibenchmark, register_all_endpoints, lookups,
}
use warp_api.Services.Registered.{find, table_of, register_all_endpoints-lookups}
use warp_api.WebSocket.Dispatch.{WebSocketRoute}

module _ (rb : RingBuffer) (sha1 : List ℕ → List ℕ) where
  open rb use {Buf, contents, room}

  module _ (routes : InkixTree (Endpoint rb sha1)) (ws_routes : InkixTree WebSocketRoute) where
    benchmark_at :
        (json : EnhancedJson)
        → find (table_of rb sha1 routes ws_routes json) post (codes "/apibenchmark")
          ≡ some (apibenchmark rb sha1 json)
    unfolding find table_of
    benchmark_at json = refl

    -- With the services registered on a new manager, which succeeds, a POST to "/apibenchmark" that
    -- is no upgrade is answered by its own body behind the status line and the headers, as far as
    -- there is room, and keeps the connection as it asked.
    pub apibenchmark_answer :
        (json : EnhancedJson) (s : Session rb sha1)
        → s.req.method ≡ post
        → s.req.path ≡ codes "/apibenchmark"
        → has_header s.req.present_headers upgrade_keys ≡ false
        → (m : EndpointManager routes ws_routes) × (register_all_endpoints rb sha1 routes ws_routes
              json
              (new_manager routes ws_routes)
            ≡ some m)
          × (s' : Session rb sha1) × (handle_request rb sha1 (lookups rb sha1 routes ws_routes m) s
              ≡ some s')
          × (contents s'.out
              ≡ contents s.out ++ take (room s.out) (ok_text s.keep_alive s.req.body))
          × (s'.keep_alive ≡ s.keep_alive)
    unfolding handle_request apibenchmark body_of
    apibenchmark_answer json s method path plain =
        let (m, ran, found, sockets) =
          register_all_endpoints-lookups rb sha1 routes ws_routes json in
        let at =
          found s.req.method s.req.path
          ∙ ap₂ (find (table_of rb sha1 routes ws_routes json)) method path
          ∙ benchmark_at json in
        let (s', answered, text, keep) =
          answer_body rb sha1 (lookups rb sha1 routes ws_routes m) s (apibenchmark rb sha1 json)
            s.req.body at (λ r out. refl) in
        (m, ran, s', rw (plain, handle_request) answered, text, keep)
