-- ===== src/Tests/Utils.antt =====
-- Runs of the text helpers and of the request's and the response's small operations.
use warp_api.Prelude.{
  ℕ, ◌≤◌, ◌≡◌, ◌↔◌, refl, inl, true, none, List, [], ◌∷◌, ◌++◌, map, arith, if◌then◌else◌, codes,
  replicate,
}
use warp_api.Headers.{upgrade, key_value, max_headers_size}
use warp_api.Request.{HttpRequest, patch, parse_method, add_header, new_request}
use warp_api.Request.Headers.{add_header_overrun}
use warp_api.Request.Methods.{method_token, parse_method-method_token}
use warp_api.Utils.StringUtils.{find_crlf, fast_atoi, fast_itoa, iequals_small, base64_encode}
use warp_api.Utils.StringUtils.Crlf.{index_of, find_crlf_lem}
use warp_api.Utils.StringUtils.Decimal.{fast_atoi-fast_itoa}
use warp_api.Utils.StringUtils.Fold.{iequals_small_iff}
use warp_api.Utils.StringUtils.Base64.{base64_decode, base64_decode-base64_encode}
use warp_api.Utils.Conversions.{url_encode, url_decode, is_unreserved, to_lower}
use warp_api.Utils.Conversions.Laws.{url_decode-url_encode}
use warp_api.Tests.Given.{are_bytes_sound}

abbrev long_line : List ℕ
long_line = codes "GET /a/long/path HTTP/1.1\r\nHost: x\r\n\r\n"

find_crlf_example : find_crlf long_line ≡ index_of b'\r' long_line
find_crlf_example = find_crlf_lem long_line

fast_atoi_example :
    fast_atoi (fast_itoa 24 18446744073709551615 ++ codes "\r\n") ≡ 18446744073709551615
fast_atoi_example =
    fast_atoi-fast_itoa 18446744073709551615 (codes "\r\n") (omega arith) (inl (omega arith))

abbrev bytes : List ℕ
bytes = 255 ∷ 0 ∷ 17 ∷ 128 ∷ []

base64_example : base64_decode (base64_encode bytes) ≡ bytes
base64_example = base64_decode-base64_encode bytes (are_bytes_sound bytes refl)

iequals_small_example :
    (iequals_small (codes "Close") (codes "close") ≡ true)
    ↔ (map to_lower (codes "Close") ≡ map to_lower (codes "close"))
iequals_small_example =
    iequals_small_iff (codes "Close") (codes "close")
      (
        (omega arith, λ e. absurd (omega arith)),
        (
          (omega arith, λ e. absurd (omega arith)),
          (
            (omega arith, λ e. absurd (omega arith)),
            (
              (omega arith, λ e. absurd (omega arith)),
              ((omega arith, λ e. absurd (omega arith)), tt),
            ),
          ),
        ),
      )
      (
        inl (omega arith, omega arith),
        (
          inl (omega arith, omega arith),
          (
            inl (omega arith, omega arith),
            (inl (omega arith, omega arith), (inl (omega arith, omega arith), tt)),
          ),
        ),
      )

url_decode_example :
    url_decode (url_encode (codes "a b/c"))
    ≡ map (λ c. if is_unreserved c then c else 0) (codes "a b/c")
url_decode_example = url_decode-url_encode (codes "a b/c") (are_bytes_sound (codes "a b/c") refl)

-- A request whose `Connection` header has a value.
abbrev kept_alive : HttpRequest
kept_alive = record new_request {
  fields = record new_request.fields { headers = replicate max_headers_size (codes "keep-alive") };
}

parse_method_example : parse_method (method_token patch) ≡ patch
parse_method_example = parse_method-method_token patch

add_header_overrun_example :
    (add_header new_request upgrade (codes "websocket") ≡ none)
    ↔ (max_headers_size ≤ key_value upgrade)
add_header_overrun_example = add_header_overrun new_request upgrade (codes "websocket")
