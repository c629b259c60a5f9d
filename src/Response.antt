-- ===== src/Response.antt =====
-- src/Response/HttpResponse.h. The buffer that `body` points at belongs to the session, and is an
-- argument of `set_body`.
pub mod Status
use warp_api.Prelude.{
  ℕ, zero, suc, ◌+◌, Bool, true, false, Option, none, some, List, [], ◌∷◌, ◌++◌, arith, ltb, ◌==◌,
  if◌then◌else◌, length, get_or, get_elem?, set, replicate, codes, ◌>>=◌,
}
use warp_api.Headers.{HeaderType, key_value, content_length, max_headers_size, header_strings, crlf}
use warp_api.Ring.{RingBuffer}
use warp_api.Ring.WriteAll.{write_each}
use warp_api.Utils.StringUtils.{fast_itoa}
use Status.{status_string}

-- `active_headers` holds the first `header_count` entries of the array.
pub record HttpResponse : Type 0 where
  pub status : ℕ
  pub version : List ℕ
  pub headers : List (List ℕ)
  pub active_headers : List HeaderType

unfoldable pub new_response : HttpResponse
new_response = record {
  status = 200;
  version = [];
  headers = replicate max_headers_size [];
  active_headers = [];
}

unfoldable pub set_status : HttpResponse → ℕ → HttpResponse
set_status r status = record r { status = status }

unfoldable pub set_version : HttpResponse → List ℕ → HttpResponse
set_version r version = record r { version = version }

-- `active_headers[header_count++] = key` where the header had no value yet.
activate : HttpResponse → HeaderType → List ℕ → Option HttpResponse
activate r key [] =
    if ltb (length r.active_headers) max_headers_size
    then some (record r { active_headers = r.active_headers ++ key ∷ [] })
    else none
activate r key (c ∷ cs) = some r

-- `addHeader`; `none` is an access outside the 14 entries of an array.
unfoldable pub add_header : HttpResponse → HeaderType → List ℕ → Option HttpResponse
unfolding activate key_value
add_header r key value = do
  old ← get_elem? r.headers (key_value key)
  r' ← activate r key old
  some (record r' { headers = set r'.headers (key_value key) value })

is_content_length : HeaderType → Bool
unfolding key_value
is_content_length key = key_value key == key_value content_length

-- The writes for one active header: its name, `: `, its value and CR LF.
header_line : HttpResponse → HeaderType → Option (List (List ℕ))
unfolding key_value
header_line r key = do
  name ← get_elem? header_strings (key_value key)
  value ← get_elem? r.headers (key_value key)
  some (name ∷ codes ": " ∷ value ∷ crlf ∷ [])

header_lines : HttpResponse → List HeaderType → Option (List (List ℕ))
unfolding header_line is_content_length
header_lines r [] = some []
header_lines r (key ∷ keys) = do
  rest ← header_lines r keys
  line ← if is_content_length key then some [] else header_line r key
  some (line ++ rest)

-- The writes of `setBody` in their order, given those of the headers and the name that it prints
-- for the length.
abbrev pub writes_with : HttpResponse → List (List ℕ) → List ℕ → List ℕ → List (List ℕ)
writes_with r lines length_name body =
    (r.version ∷ codes " " ∷ status_string r.status ∷ crlf ∷ lines)
    ++ length_name ∷ codes ": " ∷ fast_itoa 24 (length body) ∷ codes "\r\n\r\n" ∷ body ∷ []

unfoldable pub body_writes : HttpResponse → List ℕ → Option (List (List ℕ))
unfolding header_lines key_value
body_writes r body = do
  lines ← header_lines r r.active_headers
  length_name ← get_elem? header_strings (key_value content_length)
  some (writes_with r lines length_name body)

module _ (rb : RingBuffer) where
  open rb use {Buf}

  -- `setBody` drops the results of its writes.
  unfoldable pub set_body : HttpResponse → Buf → List ℕ → Option Buf
  set_body r out body = do writes ← body_writes r body; some (write_each rb out writes)
