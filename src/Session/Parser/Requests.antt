-- ===== src/Session/Parser/Requests.antt =====
-- Whole requests: with a length, without one, cut off, and with a field that the parser cannot store.
use warp_api.Prelude.{
  ℕ, ◌+◌, ◌≡◌, ◌≢◌, refl, true, List, [], ◌∷◌, ◌++◌, arith, length, length-append, All, set, codes,
}
use warp_api.Headers.{crlf, content_length, add_key}
use warp_api.Request.{add_header}
use warp_api.Utils.StringUtils.{is_crlf, fast_itoa}
use warp_api.Session.Parser.{ParserState, HeaderState, next, done, process_header, parse_headers}
use warp_api.Session.Parser.Fields.{print_fields, apply_fields}
use warp_api.Session.Parser.Printed.{ClientRequest, print_line, request_bytes, begin}

-- A name of none of the five lengths that the parser looks at.
abbrev pub IsPlainName : List ℕ → Type 0
IsPlainName name =
    (length name ≢ 7)
    × (length name ≢ 10)
    × (length name ≢ 14)
    × (length name ≢ 17)
    × (length name ≢ 21)

abbrev pub ArePlain : List (List ℕ × List ℕ) → Type 0
ArePlain fs = All (λ f. IsPlainName f.0) fs

process_header-plain :
    (max_body : ℕ) (s : HeaderState) (name v : List ℕ)
    → IsPlainName name
    → process_header max_body s name v ≡ next s
unfolding process_header add_header
process_header-plain max_body s name v h = ground arith

pub apply_fields-plain :
    (max_body : ℕ) (s : HeaderState) (fs gs : List (List ℕ × List ℕ))
    → ArePlain fs
    → apply_fields max_body s (fs ++ gs) ≡ apply_fields max_body s gs
apply_fields-plain max_body s [] gs h = refl
apply_fields-plain max_body s ((name, v) ∷ fs) gs (h, hs) =
    rw (process_header-plain max_body s name v h, apply_fields)
      (apply_fields-plain max_body s fs gs hs)

-- The state behind a `Content-Length` field of the value `n`.
abbrev sized : HeaderState → List ℕ → ℕ → HeaderState
sized s v n = record {
  parser = record s.parser {
    req = record s.parser.req {
      fields = record s.parser.req.fields { headers = set s.parser.req.headers 4 v };
      present_headers = add_key s.parser.req.present_headers content_length;
    };
  };
  length_value = n;
  has_length = true;
}

-- An empty line ends the loop.
pub blank_line :
    (max_body : ℕ) (s : HeaderState) (p : List ℕ)
    → parse_headers (length (crlf ++ p)) max_body s (crlf ++ p) ≡ done p s
unfolding parse_headers is_crlf
blank_line max_body s p = refl

-- `setBody`
abbrev pub with_body : ParserState → List ℕ → ParserState
with_body s body = record s { req = record s.req { fields = record s.req.fields { body = body } } }

pub length-request_bytes :
    (r : ClientRequest) (tail : List ℕ)
    → length (request_bytes r tail)
      ≡ length (print_line r) + 2 + length (print_fields r.header_fields) + length tail
length-request_bytes r tail = omega (
  arith,
  length-append (print_line r) (crlf ++ (print_fields r.header_fields ++ tail)),
  length-append (print_fields r.header_fields) tail,
)

abbrev pub length_field : List ℕ → List ℕ × List ℕ
length_field body = (codes "Content-Length", fast_itoa 24 (length body))

-- The request line's state with the length field of the body.
abbrev pub sized_state : ParserState → ClientRequest → HeaderState
sized_state s r = sized (begin s r) (fast_itoa 24 (length r.body)) (length r.body)
