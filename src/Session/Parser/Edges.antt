-- ===== src/Session/Parser/Edges.antt =====
-- Requests without a length, heads that are cut off, and a field that the parser cannot store.
use warp_api.Prelude.{
  ℕ, ◌≤◌, ◌≡◌, ◌⊎◌, ap, sym, ◌∙◌, List, [], ◌∷◌, ◌++◌, append-nil, arith, length,
}
use warp_api.Session.Parser.{
  ParserState, HeaderState, Round, next, Outcome, complete, start_request, parse_headers, finish,
  after_headers, parse_request, min_request_size,
}
use warp_api.Session.Parser.Fields.{apply_fields, go_on, process_header_overrun}
use warp_api.Session.Parser.Printed.{
  ClientRequest, IsRequest, request_bytes, client_line, begin, parse_request-fields,
}
use warp_api.Session.Parser.Requests.{ArePlain, apply_fields-plain}

plain_applied :
    (max_body : ℕ) (s : HeaderState) (fs : List (List ℕ × List ℕ))
    → ArePlain fs
    → apply_fields max_body s fs ≡ next s
plain_applied max_body s fs h =
    ap (apply_fields max_body s) (sym (append-nil fs)) ∙ apply_fields-plain max_body s fs [] h

-- The head of such a request is taken for complete also where the bytes received so far end behind
-- one of its lines: the parser answers true with no empty line received.
pub parse_request-cut_head :
    (max_body : ℕ) (r : ClientRequest) (s : ParserState)
    → IsRequest r
    → ArePlain r.header_fields
    → min_request_size ≤ length (request_bytes r [])
    → parse_request max_body (request_bytes r []) s
      ≡ complete (length (request_bytes r [])) (start_request s (client_line r))
unfolding after_headers finish parse_headers
parse_request-cut_head max_body r s v h long =
    parse_request-fields max_body r [] s v long
    ∙ ap
        (λ t.
          after_headers (length (request_bytes r []))
            (go_on t (λ s'. parse_headers 0 max_body s' [])))
        (plain_applied max_body (begin s r) r.header_fields h)
    ∙ ap (λ n. complete n (start_request s (client_line r))) (omega arith)

-- A request that has, behind fields that the parser passes over, one whose name has 7, 17 or 21
-- letters, makes the parser write outside the array of header views. `Upgrade`, `Sec-WebSocket-Key`
-- and `Sec-WebSocket-Version` have such names.
pub parse_request-overrun :
    (max_body : ℕ) (r : ClientRequest) (before after : List (List ℕ × List ℕ)) (name v : List ℕ)
    (tail : List ℕ) (s : ParserState)
    → IsRequest r
    → ArePlain before
    → r.header_fields ≡ before ++ (name, v) ∷ after
    → (length name ≡ 7) ⊎ (length name ≡ 17) ⊎ (length name ≡ 21)
    → min_request_size ≤ length (request_bytes r tail)
    → parse_request max_body (request_bytes r tail) s ≡ Outcome.overrun
unfolding after_headers
parse_request-overrun max_body r before after name v tail s fits hb e n long =
    parse_request-fields max_body r tail s fits long
    ∙ ap
        (λ t.
          after_headers (length (request_bytes r tail))
            (go_on t (λ s'. parse_headers (length tail) max_body s' tail)))
        applied
  where
    applied : apply_fields max_body (begin s r) r.header_fields ≡ Round.overrun
    applied =
        ap (apply_fields max_body (begin s r)) e
        ∙ apply_fields-plain max_body (begin s r) before ((name, v) ∷ after) hb
        ∙ rw (process_header_overrun max_body (begin s r) name v n, apply_fields)
