-- ===== src/Request/Headers.antt =====
-- The header accessors of src/Request/HttpRequest.h.
use warp_api.Prelude.{ℕ, ◌≤◌, ◌≡◌, ◌↔◌, none, List, [], arith}
use warp_api.Headers.{HeaderType, key_value, max_headers_size}
use warp_api.Request.{HttpRequest, add_header, get_header}

-- `getHeader` tests its key against `None` with `<`, which no key passes: it answers the empty view
-- for every request and every key.
pub get_header_empty : (r : HttpRequest) (key : HeaderType) → get_header r key ≡ []
unfolding get_header
get_header_empty r key = ground arith

-- `addHeader` writes outside its array of 14 views exactly for the keys whose value is 14 or more.
pub add_header_overrun :
    (r : HttpRequest) (key : HeaderType) (v : List ℕ)
    → (add_header r key v ≡ none) ↔ (max_headers_size ≤ key_value key)
unfolding add_header
add_header_overrun r key v = (λ e. ground arith, λ h. ground arith)
