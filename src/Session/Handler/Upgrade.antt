-- ===== src/Session/Handler/Upgrade.antt =====
-- What becomes of a request for an upgrade.
use warp_api.Prelude.{
  true, ℕ, ◌≡◌, refl, sym, ◌∙◌, subst, false, Option, none, some, List, ◌++◌, if◌then◌else◌, take,
  codes, >>=-eq-some, Bool-cases, inl, inr, some_inj,
}
use warp_api.Headers.{
  server, upgrade, connection, app_info_header, keep_alive_header, close_conn_header, has_header,
}
use warp_api.Request.{HttpRequest}
use warp_api.Request.Headers.{get_header_empty}
use warp_api.Response.{HttpResponse, new_response, set_version, add_header, set_body, set_status}
use warp_api.Ring.{RingBuffer}
use warp_api.Ring.WriteAll.{write_each_contents, write_each}
use warp_api.Utils.StringUtils.{iequals_small}
use warp_api.WebSocket.Dispatch.{WebSocketRoute}
use warp_api.Session.Handler.{
  Session, Endpoints, RequestHandler, marked, valid_upgrade, is_get, upgrade_with,
  upgrade_to_web_socket, behind_handler, recover, exec, http_version, answer, handle_request,
  upgrade_keys,
}
use warp_api.Session.Handler.Answers.{bad_upgrade_text, bad_upgrade_writes, bad_upgrade_lem}

valid_upgrade-false : (r : HttpRequest) → valid_upgrade r ≡ false
unfolding valid_upgrade iequals_small
valid_upgrade-false r = elim (Bool-cases (is_get r.method)) [
  | inl e ↦ rw (e, get_header_empty r upgrade, valid_upgrade, iequals_small)
  | inr e ↦ rw (e, valid_upgrade)
]

module _ (rb : RingBuffer) (sha1 : List ℕ → List ℕ) where
  open rb use {Buf, contents, room}

  -- A request for an upgrade to a route that exists is refused, whatever its headers are: the text
  -- of the 400 is written as far as there is room, the connection stays in HTTP and is to be closed.
  pub upgrade_to_web_socket_refused :
      (ends : Endpoints rb sha1) (s : Session rb sha1) (route : WebSocketRoute)
      → ends.get_web_socket_endpoint s.req.path ≡ some route
      → (s' : Session rb sha1) × (upgrade_to_web_socket rb sha1 ends s ≡ some s')
        × (contents s'.out ≡ contents s.out ++ take (room s.out) bad_upgrade_text)
        × (s'.mode ≡ s.mode)
        × (s'.keep_alive ≡ false)
  unfolding upgrade_to_web_socket upgrade_with
  upgrade_to_web_socket_refused ends s route e = (
    record s { out = write_each rb s.out bad_upgrade_writes; keep_alive = false; closing = true },
    rw (e, valid_upgrade-false s.req) (bad_upgrade_lem rb sha1 s),
    write_each_contents rb s.out bad_upgrade_writes,
    refl,
    refl,
  )

  -- `s'` is in the same protocol, serves the same route and holds the same request.
  pub record SameProtocol (s s' : Session rb sha1) : Type 0 where
    pub mode_kept : s'.mode ≡ s.mode
    pub ws_state_kept : s'.ws_state ≡ s.ws_state
    pub req_kept : s'.req ≡ s.req

  upgrade_with-same :
      (route : Option WebSocketRoute) (s s' : Session rb sha1)
      → upgrade_with rb sha1 route s ≡ some s'
      → SameProtocol s s'
  unfolding upgrade_with
  upgrade_with-same none s s' e =
      subst (SameProtocol s) (some_inj e)
        (record { mode_kept = refl; ws_state_kept = refl; req_kept = refl })
  upgrade_with-same (some route) s s' e =
      subst (SameProtocol s)
        (some_inj (sym (bad_upgrade_lem rb sha1 s) ∙ (rw (valid_upgrade-false s.req) at e)))
        (record { mode_kept = refl; ws_state_kept = refl; req_kept = refl })

  recover-same :
      (r : HttpResponse) (what : List ℕ) (s s' : Session rb sha1)
      → recover rb sha1 r what s ≡ some s'
      → SameProtocol s s'
  unfolding recover
  recover-same r what s s' e =
      let (r', e1, rest) =
        >>=-eq-some
          (if s.keep_alive
            then add_header (set_status r 500) connection close_conn_header
            else some (set_status r 500))
          e in
      let (out, e2, last) =
        >>=-eq-some (set_body rb r' s.out (codes "Internal Server error: " ++ what)) rest in
      subst (SameProtocol s) (some_inj last)
        (record { mode_kept = refl; ws_state_kept = refl; req_kept = refl })

  behind_handler-same :
      (s s' : Session rb sha1) (r : HttpResponse) (out : Buf) (thrown : Option (List ℕ))
      → behind_handler rb sha1 s (r, out, thrown) ≡ some s'
      → SameProtocol s s'
  unfolding behind_handler
  behind_handler-same s s' r out none e =
      subst (SameProtocol s) (some_inj e)
        (record { mode_kept = refl; ws_state_kept = refl; req_kept = refl })
  behind_handler-same s s' r out (some what) e =
      let same = recover-same r what (record s { out = out }) s' e in
      record {
        mode_kept = same.mode_kept;
        ws_state_kept = same.ws_state_kept;
        req_kept = same.req_kept;
      }

  exec-same :
      (handler : Option (RequestHandler rb sha1)) (r : HttpResponse) (s s' : Session rb sha1)
      → exec rb sha1 handler r s ≡ some s'
      → SameProtocol s s'
  unfolding exec
  exec-same none r s s' e =
      let (out, written, last) =
        >>=-eq-some (set_body rb (set_status r 404) s.out (codes "Endpoint not found.")) e in
      subst (SameProtocol s) (some_inj last)
        (record { mode_kept = refl; ws_state_kept = refl; req_kept = refl })
  exec-same (some handler) r s s' e =
      let ((r', out, thrown), ran, last) = >>=-eq-some (handler s.req r s.out) e in
      behind_handler-same s s' r' out thrown last

  -- No request moves a connection from HTTP to WebSocket or back: whatever a request says, whatever
  -- endpoints are registered and whatever they do, the mode and the WebSocket state stay, and so does
  -- the parsed request.
  pub handle_request-SameProtocol :
      (ends : Endpoints rb sha1) (s s' : Session rb sha1)
      → handle_request rb sha1 ends s ≡ some s'
      → SameProtocol s s'
  unfolding handle_request upgrade_to_web_socket answer
  handle_request-SameProtocol ends s s' e =
      elim (Bool-cases (has_header s.req.present_headers upgrade_keys)) [
        | inl wanted ↦
            upgrade_with-same (ends.get_web_socket_endpoint s.req.path) s s'
              (rw (wanted, handle_request, upgrade_to_web_socket) at e)
        | inr plain ↦
            let answered : answer rb sha1 ends s ≡ some s' = rw (plain, handle_request) at e in
            let (r, e1, rest) =
              >>=-eq-some
                (add_header (set_version new_response http_version) server app_info_header)
                answered in
            let (r', e2, last) =
              >>=-eq-some
                (add_header r connection
                  (if s.keep_alive then keep_alive_header else close_conn_header))
                rest in
            let same =
              exec-same (ends.get_endpoint s.req.method s.req.path) r' (marked rb sha1 s) s' last in
            record {
              mode_kept = same.mode_kept;
              ws_state_kept = same.ws_state_kept;
              req_kept = same.req_kept;
            }
      ]
