-- ===== src/Tests/Serving.antt =====
-- Runs of the response writer, the request handler, the endpoint tables and the settings.
use warp_api.Prelude.{
  ℕ, ◌≡◌, refl, inl, inr, true, false, Option, none, some, List, [], ◌++◌, take, codes, bytes_eq,
  bytes_eq_iff, if◌then◌else◌, Bool-cases,
}
use warp_api.Headers.{has_header}
use warp_api.Utils.StringUtils.{iequals_small}
use warp_api.Ring.WriteAll.{Written, write_all, write_all_lem}
use warp_api.Request.{get, new_request}
use warp_api.WebSocket.Dispatch.{WebSocketRoute}
use warp_api.Session.Handler.{
  http, Session, Endpoints, upgrade_to_web_socket, answer, handle_request,
}
use warp_api.Session.Handler.Answers.{not_found_text, bad_upgrade_text, answer_not_found}
use warp_api.Session.Handler.Upgrade.{
  SameProtocol, upgrade_to_web_socket_refused, handle_request-SameProtocol,
}
use warp_api.Endpoints.{InkixTree, EndpointManager, new_manager, register_endpoint}
use warp_api.Endpoints.Laws.{register_endpoint_free, get_endpoint-new_manager}
use warp_api.Settings.{EnhancedJson, Settings, update_settings}
use warp_api.Settings.Valid.{configured, update_settings_lem}
use warp_api.Tests.Given.{flat_ring}

abbrev small_out : List ℕ × ℕ
small_out = (codes "ab", 3)

write_all_example :
    Written flat_ring small_out (codes "hello") (write_all flat_ring small_out (codes "hello"))
write_all_example = write_all_lem flat_ring small_out (codes "hello")

-- Stands for the digest, which is not reached.
abbrev pub no_digest : List ℕ → List ℕ
no_digest m = []

abbrev chat : WebSocketRoute
chat = record { on_open = none; on_message = none; on_close = none }

abbrev pub endpoints : Endpoints flat_ring no_digest
endpoints = record {
  get_endpoint = λ method path. none;
  get_web_socket_endpoint = λ path. if bytes_eq path (codes "/chat") then some chat else none;
}

-- A client that asks for an upgrade, with all three headers present.
abbrev pub client : Session flat_ring no_digest
client = record {
  mode = http;
  ws_state = record { route = none; close_sent = false };
  keep_alive = true;
  closing = false;
  req = record {
    fields = record new_request.fields { method = get; path = codes "/chat" };
    present_headers = 7168;
  };
  out = ([], 4096);
}

answer_not_found_example :
    (s' : Session flat_ring no_digest) × (answer flat_ring no_digest endpoints client ≡ some s')
    × (s'.out.0 ≡ [] ++ take 4096 (not_found_text true))
    × (s'.keep_alive ≡ true)
answer_not_found_example = answer_not_found flat_ring no_digest endpoints client refl

upgrade_to_web_socket_refused_example :
    (s' : Session flat_ring no_digest) × (upgrade_to_web_socket flat_ring no_digest endpoints client
      ≡ some s')
    × (s'.out.0 ≡ [] ++ take 4096 bad_upgrade_text)
    × (s'.mode ≡ http)
    × (s'.keep_alive ≡ false)
upgrade_to_web_socket_refused_example =
    upgrade_to_web_socket_refused flat_ring no_digest endpoints client chat refl

abbrev refused : Session flat_ring no_digest
refused = (upgrade_to_web_socket_refused flat_ring no_digest endpoints client chat refl).0

handled : handle_request flat_ring no_digest endpoints client ≡ some refused
unfolding handle_request has_header iequals_small
handled = (upgrade_to_web_socket_refused flat_ring no_digest endpoints client chat refl).1

handle_request-SameProtocol_example : SameProtocol flat_ring no_digest client refused
handle_request-SameProtocol_example =
    handle_request-SameProtocol flat_ring no_digest endpoints client refused handled

-- A tree as the function that looks a route up.
abbrev pub function_tree : (V : Type 0) → InkixTree V
function_tree V = record {
  Tree = List ℕ → Option V;
  empty = λ r. none;
  insert = λ t route v r. if bytes_eq r route then some v else t r;
  get_copy = λ t r. t r;
  get_copy-empty = λ r. refl;
  get_copy-insert = λ t route v. rw ((bytes_eq_iff route route).1 refl);
  get_copy-insert_other = λ t route other v ne. elim (Bool-cases (bytes_eq other route)) [
    | inl e ↦ absurd (ne ((bytes_eq_iff other route).0 e))
    | inr e ↦ rw e
  ];
}

abbrev Manager : Type 0
Manager = EndpointManager (function_tree ℕ) (function_tree ℕ)

abbrev empty_manager : Manager
empty_manager = new_manager (function_tree ℕ) (function_tree ℕ)

abbrev one_endpoint :
    (m : Manager) × (register_endpoint
        (function_tree ℕ)
        (function_tree ℕ)
        empty_manager
        get
        (codes "/items")
        5
      ≡ some m)
one_endpoint =
    register_endpoint_free (function_tree ℕ) (function_tree ℕ) empty_manager get (codes "/items") 5
      (get_endpoint-new_manager (function_tree ℕ) (function_tree ℕ) get (codes "/items"))

-- A configuration that names a port.
abbrev port_json : EnhancedJson
port_json = record {
  get_text = λ key d. some d;
  get_number = λ key d. if bytes_eq key (codes "port") then some 9000 else some d;
}

abbrev running : Settings 8 128
running = record {
  data_now = record {
    port = 8080;
    ip = codes "0.0.0.0";
    max_threads = 2;
    backlog_size = 128;
    connection_timeout_ms = 60000;
    max_body_size = 65536;
    max_request_size = 65536;
    max_response_size = 65536;
  };
  initialized = true;
}

update_settings_lem_example :
    update_settings 8 128 port_json running
    ≡ (record running { data_now = record running.data_now { port = 9000 } }, true)
unfolding configured
update_settings_lem_example = update_settings_lem 8 128 port_json running
