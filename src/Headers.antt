-- ===== src/Headers.antt =====
-- src/Utils/HeadersList.h: the header keys, which are single bits, and the set of present headers.
use warp_api.Prelude.{ℕ, ◌^◌, bit_and, bit_or, Bool, List, [], ◌∷◌, ◌==◌, codes}

-- The keys in the order of `HEADER_LIST`.
pub data HeaderType : Type 0 where
  none_key server content_type content_length connection user_agent accept accept_encoding host :
      HeaderType
  authorization cache_control upgrade sec_websocket_key sec_websocket_version : HeaderType
  sec_websocket_accept : HeaderType

-- The value of the enumerator, `None` or `1 << bit`.
unfoldable pub key_value : HeaderType → ℕ
key_value none_key = 0
key_value server = 2 ^ 0
key_value content_type = 2 ^ 1
key_value content_length = 2 ^ 2
key_value connection = 2 ^ 3
key_value user_agent = 2 ^ 4
key_value accept = 2 ^ 5
key_value accept_encoding = 2 ^ 6
key_value host = 2 ^ 7
key_value authorization = 2 ^ 8
key_value cache_control = 2 ^ 9
key_value upgrade = 2 ^ 10
key_value sec_websocket_key = 2 ^ 11
key_value sec_websocket_version = 2 ^ 12
key_value sec_websocket_accept = 2 ^ 13

abbrev pub max_headers_size : ℕ
max_headers_size = 14

abbrev pub header_strings : List (List ℕ)
header_strings =
    codes "Server"
    ∷ codes "Content-Type"
    ∷ codes "Content-Length"
    ∷ codes "Connection"
    ∷ codes "User-Agent"
    ∷ codes "Accept"
    ∷ codes "Accept-Encoding"
    ∷ codes "Host"
    ∷ codes "Authorization"
    ∷ codes "Cache-Control"
    ∷ codes "Upgrade"
    ∷ codes "Sec-WebSocket-Key"
    ∷ codes "Sec-WebSocket-Version"
    ∷ codes "Sec-WebSocket-Accept"
    ∷ []

-- `flags | key`, on the sets of keys.
unfoldable pub add_key : ℕ → HeaderType → ℕ
unfolding key_value
add_key flags key = bit_or flags (key_value key)

unfoldable pub has_header : ℕ → ℕ → Bool
has_header flags required = bit_and flags required == required

abbrev pub app_info_header : List ℕ
app_info_header = codes "WarpApi/1.0"

abbrev pub keep_alive_header : List ℕ
keep_alive_header = codes "keep-alive"

abbrev pub close_conn_header : List ℕ
close_conn_header = codes "close"

abbrev pub upgrade_header : List ℕ
upgrade_header = codes "Upgrade"

abbrev pub websocket_upgrade_header : List ℕ
websocket_upgrade_header = codes "websocket"

abbrev pub ws_version_13_header : List ℕ
ws_version_13_header = codes "13"

abbrev pub crlf : List ℕ
crlf = codes "\r\n"
