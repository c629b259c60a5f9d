-- ===== src/Services.antt =====
-- src/Services: the endpoints of `GeneralServices` with their registration by `BaseService`, and
-- src/Endpoint/Endpoint.h. The JSON values are those of the ink library, an argument here.
pub mod Registered
pub mod Benchmark
use warp_api.Prelude.{ℕ, Option, none, some, List, [], ◌∷◌, codes, ◌>>=◌}
use warp_api.Endpoints.{
  InkixTree, EndpointManager, get_endpoint, get_web_socket_endpoint, register_endpoint,
  register_web_socket_endpoint,
}
use warp_api.Request.{Method, get, post, HttpRequest}
use warp_api.Response.{HttpResponse, set_body}
use warp_api.Ring.{RingBuffer}
use warp_api.Session.Handler.{RequestHandler, Endpoints}
use warp_api.WebSocket.Dispatch.{WebSocketRoute, send_text}

-- The result of code that may throw, with the text of the exception.
pub data Tried {ℓ} (A : Type ℓ) : Type ℓ where
  value : A → Tried A
  thrown : List ℕ → Tried A

-- `ink::EnhancedJson` and `ink::EnhancedJsonUtils`, by what the services call: an item's value is
-- what `get<std::string>` gives, and `c_string` the text that a C string is read as from the start
-- of some bytes, up to a byte 0 that may stand behind them.
pub record EnhancedJson : Type 1 where
  pub Json : Type 0
  pub new : Json
  pub meta : Json
  pub set_text : Json → List ℕ → List ℕ → Json
  pub set_number : Json → List ℕ → ℕ → Json
  pub c_string : List ℕ → List ℕ
  pub load_from_string : List ℕ → Tried Json
  pub items : Json → List (List ℕ × Tried (List ℕ))
  pub to_pretty_string : Json → List ℕ
  pub to_compact_string : Json → List ℕ

-- The callbacks of "/ws/echo".
abbrev pub ws_echo : WebSocketRoute
ws_echo = record {
  on_open = some (send_text (codes "connected") ∷ []);
  on_message = some (λ payload. send_text payload ∷ []);
  on_close = some [];
}

module _ (rb : RingBuffer) (sha1 : List ℕ → List ℕ) where
  open rb use {Buf}

  abbrev Handler : Type 0
  Handler = RequestHandler rb sha1

  -- `Endpoint`; `exec` calls its handler.
  pub record Endpoint : Type 0 where
    pub route : List ℕ
    pub method : Method
    pub handler_callback : Handler

  -- `response.setBody(text)`
  pub body_of : List ℕ → Handler
  body_of text request response out = do
    out' ← set_body rb response out text
    some (response, out', none)

  module _ (json : EnhancedJson) where
    open json use {
      Json, new, meta, set_text, set_number, c_string, load_from_string, items, to_pretty_string,
      to_compact_string,
    }

    -- `result[it->first] = it->second`
    with_params : Json → List (List ℕ × List ℕ) → Json
    with_params result [] = result
    with_params result ((name, text) ∷ more) = with_params (set_text result name text) more

    -- `result[it.key()] = it.value().get<std::string>()`
    with_items : Json → List (List ℕ × Tried (List ℕ)) → Tried Json
    with_items result [] = value result
    with_items result ((name, value text) ∷ more) = with_items (set_text result name text) more
    with_items result ((name, thrown what) ∷ more) = thrown what

    -- The object that "/test" answers.
    test_result : HttpRequest → Tried Json → Tried Json
    unfolding with_params with_items
    test_result request (thrown what) = thrown what
    test_result request (value loaded) =
        with_items (with_params new request.query_params) (items loaded)

    answer_with : Tried Json → Handler
    unfolding body_of
    answer_with (value result) request response out =
        body_of (to_pretty_string result) request response out
    answer_with (thrown what) request response out = some (response, out, some what)

    pub root : Handler
    unfolding body_of
    root request response out = body_of (to_pretty_string meta) request response out

    pub test : Handler
    unfolding test_result answer_with
    test request response out =
        answer_with (test_result request (load_from_string (c_string request.body))) request
          response out

    pub apibenchmark : Handler
    unfolding body_of
    apibenchmark request response out = body_of request.body request response out

    pub health : Handler
    unfolding body_of
    health request response out =
        body_of (to_compact_string (set_text new (codes "status") (codes "ok"))) request response
          out

    version_json : Json
    version_json =
        set_text
          (set_number (set_number (set_number new (codes "major") 1) (codes "patch") 0)
            (codes "minor") 0)
          (codes "text") (codes "1.0.0")

    pub version : Handler
    unfolding body_of version_json
    version request response out = body_of (to_pretty_string version_json) request response out

  pub handler_of : Option Endpoint → Option Handler
  handler_of none = none
  handler_of (some e) = some e.handler_callback

  module _ (routes : InkixTree Endpoint) (ws_routes : InkixTree WebSocketRoute) where
    abbrev Manager : Type 0
    Manager = EndpointManager routes ws_routes

    -- `BaseService::registerEndpoint`
    pub register : List ℕ → Method → Handler → Manager → Option Manager
    unfolding register_endpoint
    register route method handler m =
        register_endpoint routes ws_routes m method route
          (record { route = route; method = method; handler_callback = handler })

    -- `BaseService::registerWebSocketEndpoint`
    pub register_web_socket : List ℕ → WebSocketRoute → Manager → Option Manager
    unfolding register_web_socket_endpoint
    register_web_socket route r m = register_web_socket_endpoint routes ws_routes m route r

    -- `none` is the exception for a route that is taken.
    pub register_all_endpoints : EnhancedJson → Manager → Option Manager
    unfolding register register_web_socket root test apibenchmark health version
    register_all_endpoints json m = do
      m1 ← register (codes "/") get (root json) m
      m2 ← register (codes "/test") get (test json) m1
      m3 ← register (codes "/apibenchmark") post (apibenchmark json) m2
      m4 ← register (codes "/health") get (health json) m3
      m5 ← register (codes "/version") get (version json) m4
      register_web_socket (codes "/ws/echo") ws_echo m5

    -- The lookups of a session.
    pub lookups : Manager → Endpoints rb sha1
    unfolding handler_of
    lookups m = record {
      get_endpoint = λ method route. handler_of (get_endpoint routes ws_routes m method route);
      get_web_socket_endpoint = λ route. get_web_socket_endpoint routes ws_routes m route;
    }
