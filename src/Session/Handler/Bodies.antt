-- ===== src/Session/Handler/Bodies.antt =====
-- The answer of a handler that sets a body and nothing else.
use warp_api.Prelude.{
  concat, ℕ, ◌≡◌, refl, ap, ◌∙◌, Bool, none, some, List, [], ◌∷◌, ◌++◌, append-nil, if◌then◌else◌,
  length, take, codes, ◌>>=◌,
}
use warp_api.Headers.{close_conn_header, keep_alive_header}
use warp_api.Response.{
  HttpResponse, new_response, set_status, set_version, add_header, set_body, body_writes,
}
use warp_api.Response.Status.{status_string}
use warp_api.Ring.{RingBuffer}
use warp_api.Ring.WriteAll.{write_each, write_each_contents}
use warp_api.Session.Handler.{
  Session, Endpoints, RequestHandler, marked, exec, answer, behind_handler, http_version,
}
use warp_api.Utils.StringUtils.{fast_itoa}

-- The text that carries a body. The name in front of each value is the one that the code finds at
-- the value of the header's key.
abbrev pub ok_text : Bool → List ℕ → List ℕ
ok_text keep body =
    codes "HTTP/1.1 200 OK\r\nContent-Type: WarpApi/1.0\r\nAuthorization: "
    ++ ((if keep then codes "keep-alive" else codes "close")
        ++ (codes "\r\nUser-Agent: " ++ (fast_itoa 24 (length body) ++ (codes "\r\n\r\n" ++ body))))

abbrev ok_writes : List ℕ → List ℕ → List (List ℕ)
ok_writes conn body =
    http_version
    ∷ codes " "
    ∷ codes "200 OK"
    ∷ codes "\r\n"
    ∷ codes "Content-Type"
    ∷ codes ": "
    ∷ codes "WarpApi/1.0"
    ∷ codes "\r\n"
    ∷ codes "Authorization"
    ∷ codes ": "
    ∷ conn
    ∷ codes "\r\n"
    ∷ codes "User-Agent"
    ∷ codes ": "
    ∷ fast_itoa 24 (length body)
    ∷ codes "\r\n\r\n"
    ∷ body
    ∷ []

module _ (rb : RingBuffer) (sha1 : List ℕ → List ℕ) where
  open rb use {Buf, contents, room}

  -- On the request `s.req`, the handler sets this body, and does nothing else.
  abbrev pub SetsBody : Session rb sha1 → RequestHandler rb sha1 → List ℕ → Type 0
  SetsBody s handler body =
      (r : HttpResponse) (out : Buf)
      → handler s.req r out ≡ (do out' ← set_body rb r out body; some (r, out', none))

  answer-writes :
      (ends : Endpoints rb sha1) (s : Session rb sha1) (handler : RequestHandler rb sha1)
      (body : List ℕ)
      → ends.get_endpoint s.req.method s.req.path ≡ some handler
      → SetsBody s handler body
      → answer rb sha1 ends s
        ≡ some (record (marked rb sha1 s) {
          out =
              write_each rb s.out
                (ok_writes (if s.keep_alive then keep_alive_header else close_conn_header) body);
        })
  unfolding answer exec behind_handler set_body new_response set_version set_status add_header
      body_writes status_string
  answer-writes ends s handler body e sets = rw (e, exec, sets) refl

  ok_writes_text :
      (keep : Bool) (body : List ℕ)
      → concat (ok_writes (if keep then keep_alive_header else close_conn_header) body)
        ≡ ok_text keep body
  ok_writes_text keep body = rw (append-nil body) refl

  -- Where an endpoint sets a body, the answer is the text that carries it, as far as there is room,
  -- and the connection is kept as the request asked.
  pub answer_body :
      (ends : Endpoints rb sha1) (s : Session rb sha1) (handler : RequestHandler rb sha1)
      (body : List ℕ)
      → ends.get_endpoint s.req.method s.req.path ≡ some handler
      → SetsBody s handler body
      → (s' : Session rb sha1) × (answer rb sha1 ends s ≡ some s')
        × (contents s'.out ≡ contents s.out ++ take (room s.out) (ok_text s.keep_alive body))
        × (s'.keep_alive ≡ s.keep_alive)
  answer_body ends s handler body e sets = (
    _,
    answer-writes ends s handler body e sets,
    write_each_contents rb s.out
          (ok_writes (if s.keep_alive then keep_alive_header else close_conn_header) body)
        ∙ ap (λ t. contents s.out ++ take (room s.out) t) (ok_writes_text s.keep_alive body),
    refl,
  )
