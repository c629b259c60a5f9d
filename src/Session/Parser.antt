-- ===== src/Session/Parser.antt =====
-- `Session::parseRequest` of src/Server/Session.cpp. The read region is a list of bytes, a pointer
-- into it the list of the bytes from there on, and `p == end` the empty list.
pub mod Fields
pub mod Loop
pub mod Bounds
pub mod Printed
pub mod Requests
pub mod Edges
use warp_api.Prelude.{
  ℕ, zero, suc, ◌+◌, ◌-◌, ◌%◌, ◌^◌, Bool, true, false, ◌&&◌, ◌||◌, Option, none, some, List, [],
  ◌∷◌, ◌>>=◌, ltb, ◌==◌, if◌then◌else◌, length, take, drop, get_elem?,
}
use warp_api.Headers.{
  HeaderType, none_key, connection, content_length, upgrade, sec_websocket_key,
  sec_websocket_version, key_value, add_key, close_conn_header, keep_alive_header,
}
use warp_api.Request.{HttpRequest, parse_method, add_header}
use warp_api.Utils.StringUtils.{find_crlf, is_crlf, iequals_small, fast_atoi}

abbrev pub min_request_size : ℕ
min_request_size = 16

-- The members of the session that the parser writes.
pub record ParserState : Type 0 where
  pub req : HttpRequest
  pub keep_alive : Bool

-- `complete n` is `true` with `n` bytes taken off the read buffer, and `incomplete` is `false`; both
-- with the members as they are left.
-- `overrun` is a write outside the array of header views, which C++ leaves undefined. `stuck` is no
-- result of the source: the fuel of the header loop ran out.
pub data Outcome : Type 0 where
  incomplete : ParserState → Outcome
  complete : ℕ → ParserState → Outcome
  overrun : Outcome
  stuck : Outcome

-- The bytes up to the first that is a stop, and those from it on.
unfoldable pub span_to : (ℕ → Bool) → List ℕ → List ℕ × List ℕ
span_to stop [] = ([], [])
span_to stop (c ∷ cs) =
    let (front, back) = span_to stop cs in if stop c then ([], c ∷ cs) else (c ∷ front, back)

-- A line that ends in CR LF, and what follows it. The line ends at the first CR, and is refused if
-- that CR is the last byte or if no LF follows it.
unfoldable pub crlf_line : List ℕ → Option (List ℕ × List ℕ)
crlf_line p = do
  i ← find_crlf p
  lf ← get_elem? p (suc i)
  if lf == b'\n' then some (take i p, drop (suc (suc i)) p) else none

pub record RequestLine : Type 0 where
  pub method : List ℕ
  pub path : List ℕ
  pub query : List ℕ
  pub version : List ℕ

is_space : ℕ → Bool
is_space c = c == b' '

is_path_end : ℕ → Bool
is_path_end c = c == b'?' || c == b' '

-- The query and the version, from `queryEnd` on.
query_end : List ℕ → List ℕ → Option (List ℕ × List ℕ)
query_end query [] = none
query_end query (c ∷ version) = some (query, version)

-- The same, from `pathEnd` on.
query_part : List ℕ → Option (List ℕ × List ℕ)
unfolding span_to is_space query_end
query_part [] = none
query_part (c ∷ cs) =
    let (query, back) = span_to is_space cs in
    if c == b'?' then query_end query back else some ([], cs)

-- From `methodEnd` on.
path_part : List ℕ → List ℕ → Option RequestLine
unfolding span_to is_path_end query_part
path_part method [] = none
path_part method (c ∷ cs) =
    let (path, back) = span_to is_path_end cs in
    do
      (query, version) ← query_part back
      some (record { method = method; path = path; query = query; version = version })

unfoldable pub parse_request_line : List ℕ → Option RequestLine
unfolding span_to is_space path_part
parse_request_line line = let (method, back) = span_to is_space line in path_part method back

-- The members after the request line; `_keepAlive` is true by default.
unfoldable pub start_request : ParserState → RequestLine → ParserState
start_request s l = record {
  req = record s.req {
    fields = record s.req.fields {
      method = parse_method l.method;
      path = l.path;
      query = l.query;
      version = l.version;
    };
  };
  keep_alive = true;
}

-- The variables of the header loop.
pub record HeaderState : Type 0 where
  pub parser : ParserState
  pub length_value : ℕ
  pub has_length : Bool

-- One round of the loop: go on, return false, or write out of range.
pub data Round : Type 0 where
  next : HeaderState → Round
  refuse : HeaderState → Round
  overrun : Round

-- The value without one leading space.
unfoldable pub strip_space : List ℕ → List ℕ
strip_space [] = []
strip_space (c ∷ cs) = if c == b' ' then cs else c ∷ cs

-- `switch (klen)` tells the headers apart by the length of their names alone.
unfoldable pub key_of_length : ℕ → HeaderType
key_of_length klen =
    if klen == 10
    then connection
    else if klen == 14
    then content_length
    else if klen == 7
    then upgrade
    else if klen == 17
    then sec_websocket_key
    else if klen == 21
    then sec_websocket_version
    else none_key

-- `_keepAlive` after a header of the key `connection`.
connection_value : List ℕ → Bool → Bool
connection_value v old =
    if iequals_small v close_conn_header
    then false
    else if iequals_small v keep_alive_header
    then true
    else old

-- `presentHeaders() |= key` and `addHeader`.
store_header : HeaderState → HeaderType → List ℕ → Round
unfolding key_value
store_header s key v = elim (add_header s.parser.req key v) [
  | none ↦ overrun
  | some req ↦ next (record s {
    parser = record s.parser {
      req = record req {
        present_headers =
            if key_value key == 0 then req.present_headers else add_key req.present_headers key;
      };
    };
  })
]

-- The cases of the `switch`, before the header is stored.
special_header : ℕ → HeaderState → ℕ → List ℕ → Round
unfolding connection_value
special_header max_body s klen v =
    let n = fast_atoi v in
    let kept = record s {
      parser = record s.parser { keep_alive = connection_value v s.parser.keep_alive };
    } in
    let sized = record s { length_value = n; has_length = true } in
    if klen == 10
    then next kept
    else if klen == 14
    then (if ltb max_body n then refuse sized else next sized)
    else next s

store_after : Round → HeaderType → List ℕ → Round
store_after (next s) key v = store_header s key v
store_after r key v = r

unfoldable pub process_header : ℕ → HeaderState → List ℕ → List ℕ → Round
unfolding special_header store_after store_header key_of_length
process_header max_body s name v =
    store_after (special_header max_body s (length name) v) (key_of_length (length name)) v

-- A line without a colon is passed over.
field_of_line : ℕ → HeaderState → List ℕ → List ℕ → Round
field_of_line max_body s name [] = next s
field_of_line max_body s name (c ∷ v) = process_header max_body s name (strip_space v)

unfoldable pub process_line : ℕ → HeaderState → List ℕ → Round
unfolding field_of_line span_to
process_line max_body s line =
    let (name, back) = span_to (λ c. c == b':') line in field_of_line max_body s name back

pub data HeaderResult : Type 0 where
  done : List ℕ → HeaderState → HeaderResult
  refuse : HeaderState → HeaderResult
  overrun : HeaderResult
  stuck : HeaderResult

-- The loop ends at an empty line, and also where the bytes end.
pub parse_headers : ℕ → ℕ → HeaderState → List ℕ → HeaderResult
parse_headers fuel max_body s [] = done [] s
parse_headers zero max_body s (c ∷ cs) = stuck
parse_headers (suc fuel) max_body s (c ∷ cs) = elim (is_crlf (c ∷ cs)) [
  | true ↦ done (drop 2 (c ∷ cs)) s
  | false ↦ elim (crlf_line (c ∷ cs)) [
    | none ↦ refuse s
    | some (line, rest) ↦ elim (process_line max_body s line) [
      | next s' ↦ parse_headers fuel max_body s' rest
      | refuse s' ↦ refuse s'
      | overrun ↦ overrun
    ]
  ]
]

-- `headerSize + contentLength` of the type `size_t`.
abbrev pub request_size : ℕ → ℕ → ℕ
request_size header_size n = (header_size + n) % 2 ^ 64

-- The body: `avail` bytes, of which the request line and the headers took `header_size`; `p` is what
-- stands behind them.
unfoldable pub finish : ℕ → ℕ → HeaderState → List ℕ → Outcome
finish avail header_size s p =
    let n = s.length_value in
    let with_body = record s.parser {
      req = record s.parser.req { fields = record s.parser.req.fields { body = take n p } };
    } in
    if s.has_length && ltb 0 n
    then (if ltb avail (request_size header_size n)
        then incomplete s.parser
        else complete (request_size header_size n) with_body)
    else complete header_size s.parser

pub after_headers : ℕ → HeaderResult → Outcome
unfolding finish
after_headers avail (done p s) = finish avail (avail - length p) s p
after_headers avail (refuse s) = incomplete s.parser
after_headers avail overrun = overrun
after_headers avail stuck = stuck

-- The headers and the body, behind the request line; every round of the loop takes a byte at least.
after_line : ℕ → ℕ → ParserState → List ℕ → Outcome
unfolding after_headers parse_headers
after_line max_body avail s p = after_headers avail (
    parse_headers (length p) max_body (record { parser = s; length_value = 0; has_length = false })
      p)

parse_lines : ℕ → List ℕ → ParserState → Outcome
unfolding after_line
parse_lines max_body bytes s = elim (crlf_line bytes) [
  | none ↦ incomplete s
  | some (line, p) ↦ elim (parse_request_line line) [
    | none ↦ incomplete s
    | some l ↦ after_line max_body (length bytes) (start_request s l) p
  ]
]

-- `parseRequest` over the read region, with the setting `max_body_size`.
unfoldable pub parse_request : ℕ → List ℕ → ParserState → Outcome
unfolding parse_lines
parse_request max_body bytes s =
    if ltb (length bytes) min_request_size then incomplete s else parse_lines max_body bytes s
