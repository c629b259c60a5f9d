-- ===== src/Session/Serve/Pipeline.antt =====
-- Requests that a client sends one behind the other.
use warp_api.Prelude.{ℕ, ◌≤◌, ◌<◌, ◌≡◌, Option, none, some, List, [], ◌∷◌, ◌++◌, length, ◌>>=◌}
use warp_api.Headers.{crlf}
use warp_api.Ring.{RingBuffer}
use warp_api.Session.Parser.Printed.{ClientRequest, IsRequest, request_bytes}
use warp_api.Session.Parser.Requests.{ArePlain, with_body, sized_state, length_field}
use warp_api.Session.Handler.{Session, Endpoints, handle_request}
use warp_api.Session.Serve.{Run, done, fault, Connection, parser_of, with_parser}

-- A request that announces its body in one `Content-Length` field, among fields that the parser
-- passes over.
pub record IsSized (max_body : ℕ) (r : ClientRequest) : Type 0 where
  pub before : List (List ℕ × List ℕ)
  pub after : List (List ℕ × List ℕ)
  pub fields : r.header_fields ≡ before ++ length_field r.body ∷ after
  pub before_plain : ArePlain before
  pub after_plain : ArePlain after
  pub parts : IsRequest r
  pub has_body : 0 < length r.body
  pub limited : length r.body ≤ max_body

-- The bytes of requests that follow each other.
unfoldable pub pipelined : List ClientRequest → List ℕ
pipelined [] = []
pipelined (r ∷ rs) = request_bytes r (crlf ++ (r.body ++ pipelined rs))

module _ (rb : RingBuffer) (sha1 : List ℕ → List ℕ) where
  open rb use {Buf, contents, read_region, advance_read, advance_read_contents, advance_read_whole}

  -- The session with a request of the client in place of the one before.
  abbrev pub with_request : Session rb sha1 → ClientRequest → Session rb sha1
  with_request s r =
      with_parser rb sha1 s (with_body (sized_state (parser_of rb sha1 s) r).parser r.body)

  -- The requests handled in their order.
  unfoldable pub handle_all :
      Endpoints rb sha1 → Session rb sha1 → List ClientRequest → Option (Session rb sha1)
  handle_all ends s [] = some s
  handle_all ends s (r ∷ rs) = do
    s' ← handle_request rb sha1 ends (with_request s r)
    handle_all ends s' rs

  -- The loop gives the same session, with nothing left to read, or leaves an array where they do.
  abbrev pub Agrees : Option (Session rb sha1) → Run (Connection rb sha1) → Type 0
  Agrees none r = r ≡ fault
  Agrees (some s) r =
      (left : Buf) × (r ≡ done (record { session = s; input = left })) × (contents left ≡ [])
