-- ===== src/Response/Status.antt =====
-- `enum StatusCode` of src/WarpDefs.h and the status lines of src/Response/HttpResponse.h.
use warp_api.Prelude.{
  ℕ, ◌≤◌, ◌≡◌, refl, List, [], ◌∷◌, ◌++◌, arith, ◌==◌, if◌then◌else◌, length, take, codes,
}
use warp_api.Utils.StringUtils.{to_chars, fast_itoa}

pub data StatusCode : Type 0 where
  http_continue switching_protocols processing ok : StatusCode
  created accepted non_authoritative_information no_content : StatusCode
  reset_content partial_content multiple_choices moved_permanently : StatusCode
  found see_other not_modified use_proxy : StatusCode
  temporary_redirect permanent_redirect bad_request unauthorized : StatusCode
  payment_required forbidden not_found method_not_allowed : StatusCode
  not_acceptable proxy_authentication_required request_timeout conflict : StatusCode
  gone length_required precondition_failed payload_too_large : StatusCode
  uri_too_long unsupported_media_type range_not_satisfiable expectation_failed : StatusCode
  too_many_requests internal_server_error not_implemented bad_gateway : StatusCode
  service_unavailable gateway_timeout http_version_not_supported : StatusCode

unfoldable pub status_value : StatusCode → ℕ
status_value http_continue = 100
status_value switching_protocols = 101
status_value processing = 102
status_value ok = 200
status_value created = 201
status_value accepted = 202
status_value non_authoritative_information = 203
status_value no_content = 204
status_value reset_content = 205
status_value partial_content = 206
status_value multiple_choices = 300
status_value moved_permanently = 301
status_value found = 302
status_value see_other = 303
status_value not_modified = 304
status_value use_proxy = 305
status_value temporary_redirect = 307
status_value permanent_redirect = 308
status_value bad_request = 400
status_value unauthorized = 401
status_value payment_required = 402
status_value forbidden = 403
status_value not_found = 404
status_value method_not_allowed = 405
status_value not_acceptable = 406
status_value proxy_authentication_required = 407
status_value request_timeout = 408
status_value conflict = 409
status_value gone = 410
status_value length_required = 411
status_value precondition_failed = 412
status_value payload_too_large = 413
status_value uri_too_long = 414
status_value unsupported_media_type = 415
status_value range_not_satisfiable = 416
status_value expectation_failed = 417
status_value too_many_requests = 429
status_value internal_server_error = 500
status_value not_implemented = 501
status_value bad_gateway = 502
status_value service_unavailable = 503
status_value gateway_timeout = 504
status_value http_version_not_supported = 505

-- The entries of `statusMap` that are not empty.
abbrev status_map : List (ℕ × List ℕ)
status_map =
    (100, codes "100 Continue")
    ∷ (101, codes "101 Switching Protocols")
    ∷ (102, codes "102 Processing")
    ∷ (200, codes "200 OK")
    ∷ (201, codes "201 Created")
    ∷ (202, codes "202 Accepted")
    ∷ (203, codes "203 Non-Authoritative Information")
    ∷ (204, codes "204 No Content")
    ∷ (205, codes "205 Reset Content")
    ∷ (206, codes "206 Partial Content")
    ∷ (300, codes "300 Multiple Choices")
    ∷ (301, codes "301 Moved Permanently")
    ∷ (302, codes "302 Found")
    ∷ (303, codes "303 See Other")
    ∷ (304, codes "304 Not Modified")
    ∷ (305, codes "305 Use Proxy")
    ∷ (307, codes "307 Temporary Redirect")
    ∷ (308, codes "308 Permanent Redirect")
    ∷ (400, codes "400 Bad Request")
    ∷ (401, codes "401 Unauthorized")
    ∷ (402, codes "402 Payment Required")
    ∷ (403, codes "403 Forbidden")
    ∷ (404, codes "404 Not Found")
    ∷ (405, codes "405 Method Not Allowed")
    ∷ (406, codes "406 Not Acceptable")
    ∷ (407, codes "407 Proxy Authentication Required")
    ∷ (408, codes "408 Request Timeout")
    ∷ (409, codes "409 Conflict")
    ∷ (410, codes "410 Gone")
    ∷ (411, codes "411 Length Required")
    ∷ (412, codes "412 Precondition Failed")
    ∷ (413, codes "413 Payload Too Large")
    ∷ (414, codes "414 URI Too Long")
    ∷ (415, codes "415 Unsupported Media Type")
    ∷ (416, codes "416 Range Not Satisfiable")
    ∷ (417, codes "417 Expectation Failed")
    ∷ (429, codes "429 Too Many Requests")
    ∷ (500, codes "500 Internal Server Error")
    ∷ (501, codes "501 Not Implemented")
    ∷ (502, codes "502 Bad Gateway")
    ∷ (503, codes "503 Service Unavailable")
    ∷ (504, codes "504 Gateway Timeout")
    ∷ (505, codes "505 HTTP Version Not Supported")
    ∷ []

status_lookup : ℕ → List (ℕ × List ℕ) → List ℕ
status_lookup status [] = codes "500 Internal Server Error"
status_lookup status ((n, text) ∷ m) = if n == status then text else status_lookup status m

unfoldable pub status_string : ℕ → List ℕ
unfolding status_lookup
status_string status = status_lookup status status_map

-- The line of every status of the enumeration begins with its decimal digits and a space.
pub status_string-StatusCode :
    (s : StatusCode)
    → (take 4 (status_string (status_value s)) ≡ fast_itoa 24 (status_value s) ++ b' ' ∷ [])
      × (4 ≤ length (status_string (status_value s)))
unfolding status_string status_value fast_itoa to_chars
status_string-StatusCode http_continue = (refl, omega arith)
status_string-StatusCode switching_protocols = (refl, omega arith)
status_string-StatusCode processing = (refl, omega arith)
status_string-StatusCode ok = (refl, omega arith)
status_string-StatusCode created = (refl, omega arith)
status_string-StatusCode accepted = (refl, omega arith)
status_string-StatusCode non_authoritative_information = (refl, omega arith)
status_string-StatusCode no_content = (refl, omega arith)
status_string-StatusCode reset_content = (refl, omega arith)
status_string-StatusCode partial_content = (refl, omega arith)
status_string-StatusCode multiple_choices = (refl, omega arith)
status_string-StatusCode moved_permanently = (refl, omega arith)
status_string-StatusCode found = (refl, omega arith)
status_string-StatusCode see_other = (refl, omega arith)
status_string-StatusCode not_modified = (refl, omega arith)
status_string-StatusCode use_proxy = (refl, omega arith)
status_string-StatusCode temporary_redirect = (refl, omega arith)
status_string-StatusCode permanent_redirect = (refl, omega arith)
status_string-StatusCode bad_request = (refl, omega arith)
status_string-StatusCode unauthorized = (refl, omega arith)
status_string-StatusCode payment_required = (refl, omega arith)
status_string-StatusCode forbidden = (refl, omega arith)
status_string-StatusCode not_found = (refl, omega arith)
status_string-StatusCode method_not_allowed = (refl, omega arith)
status_string-StatusCode not_acceptable = (refl, omega arith)
status_string-StatusCode proxy_authentication_required = (refl, omega arith)
status_string-StatusCode request_timeout = (refl, omega arith)
status_string-StatusCode conflict = (refl, omega arith)
status_string-StatusCode gone = (refl, omega arith)
status_string-StatusCode length_required = (refl, omega arith)
status_string-StatusCode precondition_failed = (refl, omega arith)
status_string-StatusCode payload_too_large = (refl, omega arith)
status_string-StatusCode uri_too_long = (refl, omega arith)
status_string-StatusCode unsupported_media_type = (refl, omega arith)
status_string-StatusCode range_not_satisfiable = (refl, omega arith)
status_string-StatusCode expectation_failed = (refl, omega arith)
status_string-StatusCode too_many_requests = (refl, omega arith)
status_string-StatusCode internal_server_error = (refl, omega arith)
status_string-StatusCode not_implemented = (refl, omega arith)
status_string-StatusCode bad_gateway = (refl, omega arith)
status_string-StatusCode service_unavailable = (refl, omega arith)
status_string-StatusCode gateway_timeout = (refl, omega arith)
status_string-StatusCode http_version_not_supported = (refl, omega arith)
