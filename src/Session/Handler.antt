-- ===== src/Session/Handler.antt =====
-- `handleRequest` and `upgradeToWebSocket` of src/Server/Session.cpp.
pub mod Upgrade
pub mod Answers
pub mod Bodies
use warp_api.Prelude.{
  ℕ, zero, suc, ◌+◌, ◌^◌, ◌≤◌, Bool, true, false, not, ◌&&◌, Option, none, some, List, [], ◌∷◌,
  ◌++◌, arith, ltb, if◌then◌else◌, length, codes, bytes_eq, ◌>>=◌,
}
use warp_api.Headers.{
  HeaderType, server, connection, upgrade, sec_websocket_key, sec_websocket_version, key_value,
  has_header, app_info_header, keep_alive_header, close_conn_header, upgrade_header,
  websocket_upgrade_header, ws_version_13_header,
}
use warp_api.Request.{Method, get, HttpRequest, reset, get_header}
use warp_api.Response.{HttpResponse, new_response, set_status, set_version, add_header, set_body}
use warp_api.Ring.{RingBuffer}
use warp_api.Ring.WriteAll.{write_each}
use warp_api.Utils.StringUtils.{iequals_small, base64_encode}
use warp_api.WebSocket.Dispatch.{WebSocketRoute, WsState, context_calls}

pub data ProtocolMode : Type 0 where
  http web_socket : ProtocolMode

abbrev pub http_version : List ℕ
http_version = codes "HTTP/1.1"

abbrev pub ws_guid : List ℕ
ws_guid = codes "258EAFA5-E914-47DA-95CA-C5AB0DC85B11"

is_get : Method → Bool
is_get get = true
is_get _ = false

is_empty : List ℕ → Bool
is_empty [] = true
is_empty (c ∷ cs) = false

-- `validUpgrade`
valid_upgrade : HttpRequest → Bool
unfolding is_get is_empty
valid_upgrade r =
    is_get r.method
    && iequals_small (get_header r upgrade) websocket_upgrade_header
    && iequals_small (get_header r connection) upgrade_header
    && not (is_empty (get_header r sec_websocket_key))
    && bytes_eq (get_header r sec_websocket_version) ws_version_13_header

-- `material`, an array of 64 bytes; `none` is a write behind its end.
material : List ℕ → Option (List ℕ)
material key = if ltb 64 (length (key ++ ws_guid)) then none else some (key ++ ws_guid)

-- The keys that `handleRequest` looks for.
abbrev pub upgrade_keys : ℕ
upgrade_keys = 2 ^ 10 + 2 ^ 11 + 2 ^ 12

-- `sha1` is `ws::sha1Digest`, the digest of OpenSSL.
module _ (rb : RingBuffer) (sha1 : List ℕ → List ℕ) where
  open rb use {Buf}

  -- A user's handler: the response and the buffer behind it, and the text of what it threw; `none`
  -- is an access outside an array in what it calls.
  abbrev pub RequestHandler : Type 0
  RequestHandler = HttpRequest → HttpResponse → Buf → Option (HttpResponse × Buf × Option (List ℕ))

  -- The members of a session that serve requests.
  pub record Session : Type 0 where
    pub mode : ProtocolMode
    pub ws_state : WsState
    pub keep_alive : Bool
    -- `setStatus(SessionStatus::Closing)`, which only the io_uring build has and reads.
    pub closing : Bool
    pub req : HttpRequest
    pub out : Buf

  -- `EndpointManager`, by its two lookups.
  pub record Endpoints : Type 0 where
    pub get_endpoint : Method → List ℕ → Option RequestHandler
    pub get_web_socket_endpoint : List ℕ → Option WebSocketRoute

  -- `sendBadUpgradeResponse`
  pub bad_upgrade : Session → Option Session
  bad_upgrade s = do
    r ← add_header (set_version (set_status new_response 400) http_version) server app_info_header
    r' ← add_header r connection close_conn_header
    out ← set_body rb r' s.out (codes "Invalid WebSocket upgrade request.")
    some (record s { out = out; keep_alive = false; closing = true })

  -- `onOpen`, where the route has it.
  opened : WebSocketRoute → Buf → Buf
  opened route out = elim route.on_open [ none ↦ out | some calls ↦ context_calls rb out calls ]

  -- The handshake of a valid upgrade.
  switch_protocol : WebSocketRoute → Session → Option Session
  unfolding material opened
  switch_protocol route s = do
    m ← material (get_header s.req sec_websocket_key)
    some (record s {
      mode = web_socket;
      ws_state = record { route = some route; close_sent = false };
      keep_alive = true;
      req = reset s.req;
      out = opened route (
          write_each rb s.out (
            codes
              "HTTP/1.1 101 Switching Protocols\r\nUpgrade: websocket\r\nConnection: Upgrade\r\nSec-WebSocket-Accept: "
            ∷ base64_encode (sha1 m)
            ∷ codes "\r\n\r\n"
            ∷ []));
    })

  -- `upgradeToWebSocket`, without the answer that its caller drops.
  upgrade_with : Option WebSocketRoute → Session → Option Session
  unfolding valid_upgrade switch_protocol bad_upgrade
  upgrade_with none s = some s
  upgrade_with (some route) s =
      if valid_upgrade s.req then switch_protocol route s else bad_upgrade s

  pub upgrade_to_web_socket : Endpoints → Session → Option Session
  unfolding upgrade_with
  upgrade_to_web_socket ends s = upgrade_with (ends.get_web_socket_endpoint s.req.path) s

  -- The `catch` of `handleRequest`.
  recover : HttpResponse → List ℕ → Session → Option Session
  recover response what s = do
    r ←
        if s.keep_alive
        then add_header (set_status response 500) connection close_conn_header
        else some (set_status response 500)
    out ← set_body rb r s.out (codes "Internal Server error: " ++ what)
    some (record s {
      out = out;
      keep_alive = false;
      closing = if s.keep_alive then true else s.closing;
    })

  behind_handler : Session → HttpResponse × Buf × Option (List ℕ) → Option Session
  unfolding recover
  behind_handler s (r, out, none) = some (record s { out = out })
  behind_handler s (r, out, some what) = recover r what (record s { out = out })

  -- The endpoint's answer, or the answer that there is none.
  exec : Option RequestHandler → HttpResponse → Session → Option Session
  unfolding behind_handler
  exec (some handler) r s = do x ← handler s.req r s.out; behind_handler s x
  exec none r s = do
    out ← set_body rb (set_status r 404) s.out (codes "Endpoint not found.")
    some (record s { out = out })

  -- The status of a session whose client does not ask for keep-alive.
  abbrev pub marked : Session → Session
  marked s = record s { closing = if s.keep_alive then s.closing else true }

  -- `handleRequest` behind its test for an upgrade.
  pub answer : Endpoints → Session → Option Session
  unfolding exec
  answer ends s = do
    r ← add_header (set_version new_response http_version) server app_info_header
    r' ← add_header r connection (if s.keep_alive then keep_alive_header else close_conn_header)
    exec (ends.get_endpoint s.req.method s.req.path) r' (marked s)

  -- `none` is an access outside an array.
  unfoldable pub handle_request : Endpoints → Session → Option Session
  unfolding upgrade_to_web_socket answer
  handle_request ends s =
      let upgraded = upgrade_to_web_socket ends s in
      let answered = answer ends s in
      if has_header s.req.present_headers upgrade_keys then upgraded else answered
