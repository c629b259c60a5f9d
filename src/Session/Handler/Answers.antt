-- ===== src/Session/Handler/Answers.antt =====
-- The texts that `handleRequest` and `upgradeToWebSocket` write by themselves.
use warp_api.Prelude.{
  true, ℕ, ◌≡◌, refl, Bool, false, none, some, List, [], ◌∷◌, ◌++◌, if◌then◌else◌, take, codes,
}
use warp_api.Headers.{close_conn_header, keep_alive_header}
use warp_api.Response.{new_response, set_status, set_version, add_header, set_body, body_writes}
use warp_api.Ring.{RingBuffer}
use warp_api.Ring.WriteAll.{write_each, write_each_contents}
use warp_api.Response.Status.{status_string}
use warp_api.Utils.StringUtils.{fast_itoa, to_chars}
use warp_api.Session.Handler.{Session, Endpoints, marked, bad_upgrade, exec, answer, http_version}

-- The whole text of the answer 404, and of the answer 400 to an upgrade. The name in front of each
-- value is the one that the code finds at the value of the header's key.
abbrev pub not_found_text : Bool → List ℕ
not_found_text keep =
    codes "HTTP/1.1 404 Not Found\r\nContent-Type: WarpApi/1.0\r\nAuthorization: "
    ++ ((if keep then codes "keep-alive" else codes "close")
        ++ codes "\r\nUser-Agent: 19\r\n\r\nEndpoint not found.")

abbrev pub bad_upgrade_text : List ℕ
bad_upgrade_text =
    codes
      "HTTP/1.1 400 Bad Request\r\nContent-Type: WarpApi/1.0\r\nAuthorization: close\r\nUser-Agent: 34\r\n\r\nInvalid WebSocket upgrade request."

abbrev not_found_writes : List ℕ → List (List ℕ)
not_found_writes conn =
    http_version
    ∷ codes " "
    ∷ codes "404 Not Found"
    ∷ codes "\r\n"
    ∷ codes "Content-Type"
    ∷ codes ": "
    ∷ codes "WarpApi/1.0"
    ∷ codes "\r\n"
    ∷ codes "Authorization"
    ∷ codes ": "
    ∷ conn
    ∷ codes "\r\n"
    ∷ codes "User-Agent"
    ∷ codes ": "
    ∷ codes "19"
    ∷ codes "\r\n\r\n"
    ∷ codes "Endpoint not found."
    ∷ []

abbrev pub bad_upgrade_writes : List (List ℕ)
bad_upgrade_writes =
    http_version
    ∷ codes " "
    ∷ codes "400 Bad Request"
    ∷ codes "\r\n"
    ∷ codes "Content-Type"
    ∷ codes ": "
    ∷ codes "WarpApi/1.0"
    ∷ codes "\r\n"
    ∷ codes "Authorization"
    ∷ codes ": "
    ∷ codes "close"
    ∷ codes "\r\n"
    ∷ codes "User-Agent"
    ∷ codes ": "
    ∷ codes "34"
    ∷ codes "\r\n\r\n"
    ∷ codes "Invalid WebSocket upgrade request."
    ∷ []

module _ (rb : RingBuffer) (sha1 : List ℕ → List ℕ) where
  open rb use {Buf, contents, room}

  answer-writes :
      (ends : Endpoints rb sha1) (s : Session rb sha1)
      → ends.get_endpoint s.req.method s.req.path ≡ none
      → answer rb sha1 ends s
        ≡ some (record (marked rb sha1 s) {
          out =
              write_each rb s.out
                (not_found_writes (if s.keep_alive then keep_alive_header else close_conn_header));
        })
  unfolding answer exec set_body new_response set_version set_status add_header body_writes
      status_string fast_itoa to_chars
  answer-writes ends s e = rw e

  -- A request that no endpoint serves is answered by the text of the 404, as far as there is room,
  -- and keeps the connection as the request asked; the header names are not those of the headers.
  pub answer_not_found :
      (ends : Endpoints rb sha1) (s : Session rb sha1)
      → ends.get_endpoint s.req.method s.req.path ≡ none
      → (s' : Session rb sha1) × (answer rb sha1 ends s ≡ some s')
        × (contents s'.out ≡ contents s.out ++ take (room s.out) (not_found_text s.keep_alive))
        × (s'.keep_alive ≡ s.keep_alive)
  answer_not_found ends s e = (
    record (marked rb sha1 s) {
      out =
          write_each rb s.out
            (not_found_writes (if s.keep_alive then keep_alive_header else close_conn_header));
    },
    answer-writes ends s e,
    write_each_contents rb s.out
        (not_found_writes (if s.keep_alive then keep_alive_header else close_conn_header)),
    refl,
  )

  pub bad_upgrade_lem :
      (s : Session rb sha1)
      → bad_upgrade rb sha1 s
        ≡ some (record s {
          out = write_each rb s.out bad_upgrade_writes;
          keep_alive = false;
          closing = true;
        })
  unfolding bad_upgrade set_body new_response set_version set_status add_header body_writes
      status_string fast_itoa to_chars
  bad_upgrade_lem s = refl
