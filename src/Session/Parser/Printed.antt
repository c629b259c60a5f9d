-- ===== src/Session/Parser/Printed.antt =====
-- `parseRequest` on the bytes that a client writes for a request.
use warp_api.Prelude.{
  ℕ, zero, suc, ◌+◌, ◌≤◌, ◌≡◌, ◌≢◌, refl, ap, ◌∙◌, false, Option, none, some, List, [], ◌∷◌, ◌++◌,
  append_assoc, arith, length, length-append, All-append, codes, All, le_ltb-false,
}
use warp_api.Headers.{crlf}
use warp_api.Utils.StringUtils.{is_crlf}
use warp_api.Session.Parser.{
  ParserState, RequestLine, HeaderState, Round, next, refuse, overrun, HeaderResult, is_space,
  is_path_end, query_part, path_part, parse_request_line, start_request, crlf_line, process_header,
  process_line, parse_headers, after_headers, after_line, parse_lines, parse_request,
  min_request_size,
}
use warp_api.Session.Parser.Fields.{
  Lacks, print_field, print_fields, IsField, apply_fields, go_on, crlf_line-print, span_to-append,
  process_line-print, field_no_crlf,
}
use warp_api.Session.Parser.Loop.{parse_headers_fuel, crlf_line-suffix}

pub record ClientRequest : Type 0 where
  pub method : List ℕ
  pub path : List ℕ
  pub query : Option (List ℕ)
  pub version : List ℕ
  pub header_fields : List (List ℕ × List ℕ)
  pub body : List ℕ

abbrev print_query : Option (List ℕ) → List ℕ → List ℕ
print_query none rest = rest
print_query (some q) rest = b'?' ∷ q ++ rest

abbrev pub print_line : ClientRequest → List ℕ
print_line r = r.method ++ (b' ' ∷ r.path ++ print_query r.query (b' ' ∷ r.version))

abbrev pub print_head : ClientRequest → List ℕ
print_head r = print_line r ++ (crlf ++ (print_fields r.header_fields ++ crlf))

abbrev query_text : Option (List ℕ) → List ℕ
query_text none = []
query_text (some q) = q

abbrev QueryFits : Option (List ℕ) → Type 0
QueryFits none = Unit
QueryFits (some q) = Lacks b' ' q × Lacks b'\r' q

-- No part holds a byte that ends it.
pub record IsRequest (r : ClientRequest) : Type 0 where
  pub method_fits : Lacks b' ' r.method × Lacks b'\r' r.method
  pub path_fits : Lacks b' ' r.path × Lacks b'?' r.path × Lacks b'\r' r.path
  pub query_fits : QueryFits r.query
  pub version_fits : Lacks b'\r' r.version
  pub fields_fit : All IsField r.header_fields

abbrev pub client_line : ClientRequest → RequestLine
client_line r = record {
  method = r.method;
  path = r.path;
  query = query_text r.query;
  version = r.version;
}

not_space : (cs : List ℕ) → Lacks b' ' cs → All (λ c. is_space c ≡ false) cs
unfolding is_space
not_space [] h = tt
not_space (c ∷ cs) (h, hs) = (ground arith, not_space cs hs)

not_path_end : (cs : List ℕ) → Lacks b' ' cs → Lacks b'?' cs → All (λ c. is_path_end c ≡ false) cs
unfolding is_path_end
not_path_end [] h k = tt
not_path_end (c ∷ cs) (h, hs) (k, ks) = (ground arith, not_path_end cs hs ks)

query_part-print :
    (q : Option (List ℕ)) (version : List ℕ)
    → QueryFits q
    → query_part (print_query q (b' ' ∷ version)) ≡ some (query_text q, version)
unfolding query_part is_space
query_part-print none version h = refl
query_part-print (some q) version h =
    rw (span_to-append is_space q b' ' version (not_space q h.0) refl)

path_part-print :
    (method path : List ℕ) (q : Option (List ℕ)) (version : List ℕ)
    → Lacks b' ' path
    → Lacks b'?' path
    → QueryFits q
    → path_part method (b' ' ∷ path ++ print_query q (b' ' ∷ version))
      ≡ some (record { method = method; path = path; query = query_text q; version = version })
unfolding path_part is_path_end
path_part-print method path none version h k f =
    rw (span_to-append is_path_end path b' ' version (not_path_end path h k) refl)
path_part-print method path (some q) version h k f = rw (
  span_to-append is_path_end path b'?' (q ++ b' ' ∷ version) (not_path_end path h k) refl,
  query_part-print (some q) version f,
)

-- The request line is read back part by part.
pub parse_request_line-print :
    (r : ClientRequest) → IsRequest r → parse_request_line (print_line r) ≡ some (client_line r)
unfolding parse_request_line is_space
parse_request_line-print r v =
    rw
      (span_to-append is_space r.method b' ' (r.path ++ print_query r.query (b' ' ∷ r.version))
        (not_space r.method v.method_fits.0) refl)
      (path_part-print r.method r.path r.query r.version v.path_fits.0 v.path_fits.1 v.query_fits)

line_no_cr : (r : ClientRequest) → IsRequest r → Lacks b'\r' (print_line r)
line_no_cr r v =
    All-append (λ c. c ≢ b'\r') r.method (b' ' ∷ r.path ++ print_query r.query (b' ' ∷ r.version))
      v.method_fits.1
      (
        omega arith,
        All-append (λ c. c ≢ b'\r') r.path (print_query r.query (b' ' ∷ r.version)) v.path_fits.2
            (rest r.query v.query_fits),
      )
  where
    rest : (q : Option (List ℕ)) → QueryFits q → Lacks b'\r' (print_query q (b' ' ∷ r.version))
    rest none h = (omega arith, v.version_fits)
    rest (some q) h = (
      omega arith,
      All-append (λ c. c ≢ b'\r') q (b' ' ∷ r.version) h.1 (omega arith, v.version_fits),
    )

go_on_elim :
    (r : Round) (k : HeaderState → HeaderResult)
    → (elim r [ next s ↦ k s | refuse s ↦ HeaderResult.refuse s | overrun ↦ HeaderResult.overrun ])
      ≡ go_on r k
go_on_elim (next s) k = refl
go_on_elim (refuse s) k = refl
go_on_elim overrun k = refl

-- One round of the loop, on bytes that begin with a line that is not empty.
parse_headers_step :
    (fuel max_body : ℕ) (s : HeaderState) (p line rest : List ℕ)
    → is_crlf p ≡ false
    → crlf_line p ≡ some (line, rest)
    → parse_headers (suc fuel) max_body s p
      ≡ go_on (process_line max_body s line) (λ s'. parse_headers fuel max_body s' rest)
unfolding parse_headers
parse_headers_step fuel max_body s [] line rest h e =
    absurd (omega (arith, (crlf_line-suffix [] e).0))
parse_headers_step fuel max_body s (c ∷ cs) line rest h e =
    rw (h, e, parse_headers)
      (go_on_elim (process_line max_body s line) (λ s'. parse_headers fuel max_body s' rest))

field_round :
    (fuel max_body : ℕ) (s : HeaderState) (name v rest : List ℕ)
    → IsField (name, v)
    → parse_headers (suc fuel) max_body s (print_field (name, v) ++ rest)
      ≡ go_on (process_header max_body s name v) (λ s'. parse_headers fuel max_body s' rest)
field_round fuel max_body s name v rest h =
    parse_headers_step fuel max_body s (print_field (name, v) ++ rest) line rest
      (field_no_crlf name v rest h) split
    ∙ ap (λ r. go_on r (λ s'. parse_headers fuel max_body s' rest))
        (process_line-print max_body s name v h.0)
  where
    line : List ℕ
    line = name ++ (codes ": " ++ v)

    joined : print_field (name, v) ++ rest ≡ line ++ (crlf ++ rest)
    joined = simp append_assoc

    split : crlf_line (print_field (name, v) ++ rest) ≡ some (line, rest)
    split =
        ap crlf_line joined
        ∙ crlf_line-print line rest (
            All-append (λ c. c ≢ b'\r') name (codes ": " ++ v) h.1
              (omega arith, (omega arith, h.2)))

pub field_longer :
    (name v : List ℕ) (fs : List (List ℕ × List ℕ)) (tail : List ℕ)
    → length (print_fields ((name, v) ∷ fs) ++ tail)
      ≡ length name + length v + 4 + length (print_fields fs ++ tail)
field_longer name v fs tail = omega (
  arith,
  length-append (print_field (name, v) ++ print_fields fs) tail,
  length-append (print_field (name, v)) (print_fields fs),
  length-append name (codes ": " ++ (v ++ crlf)),
  length-append v crlf,
  length-append (print_fields fs) tail,
)

after_field :
    (max_body fuel : ℕ) (fs : List (List ℕ × List ℕ)) (tail : List ℕ) (r : Round)
    → ((s' : HeaderState)
        → parse_headers fuel max_body s' (print_fields fs ++ tail)
          ≡ go_on
              (apply_fields max_body s' fs)
              (λ s''. parse_headers (length tail) max_body s'' tail))
    → go_on r (λ s'. parse_headers fuel max_body s' (print_fields fs ++ tail))
      ≡ go_on
          (elim r [
            | next s' ↦ apply_fields max_body s' fs
            | refuse s' ↦ Round.refuse s'
            | overrun ↦ Round.overrun
          ])
          (λ s'. parse_headers (length tail) max_body s' tail)
after_field max_body fuel fs tail (next s') ih = ih s'
after_field max_body fuel fs tail (refuse s') ih = refl
after_field max_body fuel fs tail overrun ih = refl

-- The loop over printed fields applies them in turn, and goes on behind them.
pub parse_headers-print :
    (fs : List (List ℕ × List ℕ)) (max_body fuel : ℕ) (s : HeaderState) (tail : List ℕ)
    → All IsField fs
    → length (print_fields fs ++ tail) ≤ fuel
    → parse_headers fuel max_body s (print_fields fs ++ tail)
      ≡ go_on (apply_fields max_body s fs) (λ s'. parse_headers (length tail) max_body s' tail)
parse_headers-print [] max_body fuel s tail h k =
    parse_headers_fuel max_body fuel (length tail) s tail k (omega arith)
parse_headers-print ((name, v) ∷ fs) max_body zero s tail (h, hs) k =
    absurd (omega (arith, k, field_longer name v fs tail))
parse_headers-print ((name, v) ∷ fs) max_body (suc fuel) s tail (h, hs) k =
    ap (parse_headers (suc fuel) max_body s)
      (append_assoc (print_field (name, v)) (print_fields fs) tail)
    ∙ field_round fuel max_body s name v (print_fields fs ++ tail) h
    ∙ after_field max_body fuel fs tail (process_header max_body s name v) (λ s'.
      parse_headers-print fs max_body fuel s' tail hs
        (omega (arith, k, field_longer name v fs tail)))

abbrev pub begin : ParserState → ClientRequest → HeaderState
begin s r = record {
  parser = start_request s (client_line r);
  length_value = 0;
  has_length = false;
}

-- What the session does behind the request line.
line-print :
    (max_body : ℕ) (r : ClientRequest) (p : List ℕ) (s : ParserState)
    → IsRequest r
    → min_request_size ≤ length (print_line r ++ (crlf ++ p))
    → parse_request max_body (print_line r ++ (crlf ++ p)) s
      ≡ after_line max_body
          (length (print_line r ++ (crlf ++ p)))
          (start_request s (client_line r))
          p
unfolding parse_request
line-print max_body r p s v h = rw (
  le_ltb-false (length (print_line r ++ (crlf ++ p))) min_request_size h,
  parse_request,
  crlf_line-print (print_line r) p (line_no_cr r v),
  parse_request_line-print r v,
  parse_lines,
)

-- The bytes of the request line and the fields, and `tail` behind them.
abbrev pub request_bytes : ClientRequest → List ℕ → List ℕ
request_bytes r tail = print_line r ++ (crlf ++ (print_fields r.header_fields ++ tail))

-- The parser reads the request line, applies the fields in turn, and goes on with the tail.
pub parse_request-fields :
    (max_body : ℕ) (r : ClientRequest) (tail : List ℕ) (s : ParserState)
    → IsRequest r
    → min_request_size ≤ length (request_bytes r tail)
    → parse_request max_body (request_bytes r tail) s
      ≡ after_headers (length (request_bytes r tail)) (
          go_on
            (apply_fields max_body (begin s r) r.header_fields)
            (λ s'. parse_headers (length tail) max_body s' tail))
unfolding after_line
parse_request-fields max_body r tail s v h =
    line-print max_body r (print_fields r.header_fields ++ tail) s v h
    ∙ ap (after_headers (length (request_bytes r tail))) (
        parse_headers-print r.header_fields max_body (length (print_fields r.header_fields ++ tail))
          (begin s r) tail v.fields_fit (omega arith))
