-- ===== src/Request.antt =====
-- src/Request/HttpRequest.h: the parsed request. A view into the read buffer is the list of bytes
-- that it shows.
pub mod Headers
pub mod Methods
use warp_api.Prelude.{
  ℕ, zero, suc, ◌<◌, Bool, true, false, Option, none, some, List, [], ◌∷◌, arith, ltb, ◌==◌,
  if◌then◌else◌, length, get_or, set, replicate, codes, bytes_eq,
}
use warp_api.Headers.{HeaderType, key_value, none_key, max_headers_size}
use warp_api.Utils.StringUtils.Crlf.{index_of}
use warp_api.Utils.Conversions.{url_decode}

-- `enum Method`, in its order.
pub data Method : Type 0 where
  get post put patch delete head options unknown : Method

pub record RequestData : Type 0 where
  pub method : Method
  pub path : List ℕ
  pub query : List ℕ
  pub version : List ℕ
  pub body : List ℕ
  pub headers : List (List ℕ)
  pub query_params : List (List ℕ × List ℕ)

pub record HttpRequest : Type 0 where
  pub fields : RequestData
  pub open fields use *
  pub present_headers : ℕ

unfoldable pub new_request : HttpRequest
new_request = record {
  fields = record {
    method = unknown;
    path = [];
    query = [];
    version = codes "HTTP/2.0";
    body = [];
    headers = replicate max_headers_size [];
    query_params = [];
  };
  present_headers = 0;
}

-- `RequestData::clear`; the query parameters stay.
clear : RequestData → RequestData
clear d = record d {
  method = unknown;
  path = [];
  query = [];
  version = [];
  body = [];
  headers = replicate max_headers_size [];
}

unfoldable pub reset : HttpRequest → HttpRequest
unfolding clear
reset r = record { fields = clear r.fields; present_headers = 0 }

-- The methods that begin with `P` are told apart by their length.
method_of_p : ℕ → Method
method_of_p n = if n == 3 then put else if n == 4 then post else if n == 5 then patch else unknown

unfoldable pub parse_method : List ℕ → Method
unfolding method_of_p
parse_method [] = unknown
parse_method (c ∷ cs) =
    if c == b'G'
    then get
    else if c == b'P'
    then method_of_p (length (c ∷ cs))
    else if c == b'H'
    then head
    else if c == b'D'
    then delete
    else if c == b'O'
    then options
    else unknown

-- `addHeader` indexes an array of 14 views by the key's value; `none` is an access out of its range.
unfoldable pub add_header : HttpRequest → HeaderType → List ℕ → Option HttpRequest
unfolding key_value
add_header r key v =
    if key_value key == 0
    then some r
    else if ltb (key_value key) max_headers_size
    then some (record r { fields = record r.fields { headers = set r.headers (key_value key) v } })
    else none

-- The values of the keys are not negative, so `key < HeaderType::None` is `key_value key < 0`.
unfoldable pub get_header : HttpRequest → HeaderType → List ℕ
unfolding key_value
get_header r key = if ltb (key_value key) 0 then get_or r.headers (key_value key) [] else []

-- A `std::unordered_map` from text to text, as pairs.
assign : List ℕ → List ℕ → List (List ℕ × List ℕ) → List (List ℕ × List ℕ)
assign k v [] = (k, v) ∷ []
assign k v ((j, w) ∷ m) = if bytes_eq j k then (k, v) ∷ m else (j, w) ∷ assign k v m

-- The text before the first `b`, and the text behind it (empty if there is none).
cut : ℕ → List ℕ → List ℕ × List ℕ
cut b [] = ([], [])
cut b (c ∷ cs) = let (front, back) = cut b cs in if c == b then ([], cs) else (c ∷ front, back)

-- The loop over `k=v` parts; a part is at least its separator shorter, so the length is enough fuel.
query_loop : ℕ → List ℕ → List (List ℕ × List ℕ) → List (List ℕ × List ℕ)
query_loop zero target m = m
query_loop (suc fuel) [] m = m
query_loop (suc fuel) (c ∷ cs) m =
    let (part, target) = cut b'&' (c ∷ cs) in
    let (k, v) = cut b'=' part in query_loop fuel target (assign (url_decode k) (url_decode v) m)

pub extract_query_params : HttpRequest → HttpRequest
unfolding query_loop cut assign
extract_query_params r = record r {
  fields = record r.fields { query_params = query_loop (length r.query) r.query r.query_params };
}
