-- ===== src/Tests/Parsing.antt =====
-- Runs of the request parser.
use warp_api.Prelude.{ℕ, ◌≡◌, refl, inl, some, List, [], ◌∷◌, ◌++◌, arith, length, codes, All}
use warp_api.Headers.{crlf}
use warp_api.Session.Parser.{complete, Outcome, start_request, parse_request}
use warp_api.Session.Parser.Bounds.{Spec, parse_request-Spec}
use warp_api.Session.Parser.Fields.{IsField}
use warp_api.Session.Parser.Printed.{ClientRequest, IsRequest, request_bytes, client_line}
use warp_api.Session.Parser.Requests.{ArePlain}
use warp_api.Session.Parser.Edges.{parse_request-cut_head, parse_request-overrun}
use warp_api.Utils.StringUtils.{fast_itoa, to_chars}
use warp_api.Tests.Given.{lacks_sound, used_parser}

abbrev pub host : List ℕ × List ℕ
host = (codes "Host", codes "localhost")

abbrev pub accept : List ℕ × List ℕ
accept = (codes "Accept", codes "*/*")

abbrev pub length_5 : List ℕ × List ℕ
length_5 = (codes "Content-Length", codes "5")

abbrev upgrade_field : List ℕ × List ℕ
upgrade_field = (codes "Upgrade", codes "websocket")

abbrev pub with_fields : List (List ℕ × List ℕ) → ClientRequest
with_fields fs = record {
  method = codes "POST";
  path = codes "/items";
  query = some (codes "id=7");
  version = codes "HTTP/1.1";
  header_fields = fs;
  body = codes "hello";
}

abbrev pub posted : ClientRequest
posted = with_fields (host ∷ length_5 ∷ accept ∷ [])

abbrev plain : ClientRequest
plain = with_fields (host ∷ accept ∷ [])

abbrev upgrading : ClientRequest
upgrading = with_fields (host ∷ upgrade_field ∷ accept ∷ [])

host-IsField : IsField host
host-IsField = (
  lacks_sound b':' (codes "Host") refl,
  lacks_sound b'\r' (codes "Host") refl,
  lacks_sound b'\r' (codes "localhost") refl,
)

accept-IsField : IsField accept
accept-IsField = (
  lacks_sound b':' (codes "Accept") refl,
  lacks_sound b'\r' (codes "Accept") refl,
  lacks_sound b'\r' (codes "*/*") refl,
)

length_5-IsField : IsField length_5
length_5-IsField = (
  lacks_sound b':' (codes "Content-Length") refl,
  lacks_sound b'\r' (codes "Content-Length") refl,
  lacks_sound b'\r' (codes "5") refl,
)

upgrade-IsField : IsField upgrade_field
upgrade-IsField = (
  lacks_sound b':' (codes "Upgrade") refl,
  lacks_sound b'\r' (codes "Upgrade") refl,
  lacks_sound b'\r' (codes "websocket") refl,
)

with_fields-IsRequest : (fs : List (List ℕ × List ℕ)) → All IsField fs → IsRequest (with_fields fs)
with_fields-IsRequest fs h = record {
  method_fits = (lacks_sound b' ' (codes "POST") refl, lacks_sound b'\r' (codes "POST") refl);
  path_fits = (
    lacks_sound b' ' (codes "/items") refl,
    lacks_sound b'?' (codes "/items") refl,
    lacks_sound b'\r' (codes "/items") refl,
  );
  query_fits = (lacks_sound b' ' (codes "id=7") refl, lacks_sound b'\r' (codes "id=7") refl);
  version_fits = lacks_sound b'\r' (codes "HTTP/1.1") refl;
  fields_fit = h;
}

pub posted-IsRequest : IsRequest posted
posted-IsRequest =
    with_fields-IsRequest (host ∷ length_5 ∷ accept ∷ [])
      (host-IsField, (length_5-IsField, (accept-IsField, tt)))

plain-IsRequest : IsRequest plain
plain-IsRequest = with_fields-IsRequest (host ∷ accept ∷ []) (host-IsField, (accept-IsField, tt))

pub host-ArePlain : ArePlain (host ∷ [])
host-ArePlain = ground arith

pub accept-ArePlain : ArePlain (accept ∷ [])
accept-ArePlain = ground arith

both-ArePlain : ArePlain (host ∷ accept ∷ [])
both-ArePlain = ground arith

parse_request-Spec_example :
    Spec 100
      (request_bytes posted (crlf ++ codes "helloGET"))
      used_parser
      (parse_request 100 (request_bytes posted (crlf ++ codes "helloGET")) used_parser)
parse_request-Spec_example =
    parse_request-Spec 100 (request_bytes posted (crlf ++ codes "helloGET")) used_parser
      (omega arith) (omega arith)

pub posted_fields :
    posted.header_fields
    ≡ (host ∷ []) ++ (codes "Content-Length", fast_itoa 24 (length posted.body)) ∷ accept ∷ []
unfolding fast_itoa to_chars
posted_fields = refl

parse_request-cut_head_example :
    parse_request 100 (request_bytes plain []) used_parser
    ≡ complete (length (request_bytes plain [])) (start_request used_parser (client_line plain))
parse_request-cut_head_example =
    parse_request-cut_head 100 plain used_parser plain-IsRequest both-ArePlain (omega arith)

parse_request-overrun_example :
    parse_request 100 (request_bytes upgrading crlf) used_parser ≡ Outcome.overrun
parse_request-overrun_example =
    parse_request-overrun 100 upgrading (host ∷ []) (accept ∷ []) (codes "Upgrade")
      (codes "websocket") crlf used_parser
      (with_fields-IsRequest (host ∷ upgrade_field ∷ accept ∷ [])
        (host-IsField, (upgrade-IsField, (accept-IsField, tt))))
      host-ArePlain refl (inl refl) (omega arith)
