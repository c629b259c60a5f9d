-- ===== src/Utils/StringUtils.antt =====
-- src/Utils/StringUtils.cpp. A byte is a number below 256, and a pointer with its end is the list
-- of the bytes between them; a pointer that a function returns is an offset into that list.
pub mod Crlf
pub mod Decimal
pub mod Fold
pub mod Base64
use warp_api.Prelude.{
  ℕ, zero, suc, ◌+◌, ◌-◌, ◌*◌, ◌/◌, ◌%◌, ◌^◌, bit_or, bit_and, bit_xor, Bool, true, false, ◌&&◌,
  ◌||◌, Option, none, some, List, [], ◌∷◌, ◌++◌, arith, ltb, leb, ◌==◌, if◌then◌else◌, length, take,
  drop, get_or, codes,
}
use mathlib.Core.Option

-- A `u32` product and an exclusive or of a byte, for `hashStr`. A char from `A` to `Z` is lowered.
hash_byte : ℕ → ℕ → ℕ
hash_byte hash c =
    let c' = if leb b'A' c && leb c b'Z' then c + 32 else c in bit_xor hash c' * 16777619 % 2 ^ 32

hash_loop : ℕ → List ℕ → ℕ
hash_loop hash [] = hash
hash_loop hash (c ∷ cs) = hash_loop (hash_byte hash c) cs

pub hash_str : List ℕ → ℕ
unfolding hash_loop hash_byte
hash_str str = hash_loop 2166136261 str

-- `_mm_movemask_epi8` of the comparison of a chunk with `\r`: bit i is set where byte i is `\r`.
cr_mask : List ℕ → ℕ
cr_mask [] = 0
cr_mask (c ∷ cs) = (if c == b'\r' then 1 else 0) + 2 * cr_mask cs

-- `__builtin_ctz`, for a mask of at most `fuel` bits.
ctz : ℕ → ℕ → ℕ
ctz zero mask = 0
ctz (suc fuel) mask = let rest = ctz fuel (mask / 2) in if mask % 2 == 1 then 0 else suc rest

-- The scalar tail.
scan_cr : List ℕ → Option ℕ
scan_cr [] = none
scan_cr (c ∷ cs) = if c == b'\r' then some 0 else Option.map suc (scan_cr cs)

-- The SSE2 loop, over chunks of 16 bytes. `none` on no fuel is excluded in `Crlf`.
scan_chunks : ℕ → List ℕ → Option ℕ
scan_chunks zero bytes = none
scan_chunks (suc fuel) bytes =
    let next = Option.map (λ i. 16 + i) (scan_chunks fuel (drop 16 bytes)) in
    let mask = cr_mask (take 16 bytes) in
    if ltb (length bytes) 16 then scan_cr bytes else if mask == 0 then next else some (ctz 16 mask)

unfoldable pub find_crlf : List ℕ → Option ℕ
unfolding scan_chunks scan_cr cr_mask ctz
find_crlf bytes = scan_chunks (suc (length bytes)) bytes

-- Two bytes at the front of `p` that are CR LF.
unfoldable pub is_crlf : List ℕ → Bool
is_crlf (a ∷ b ∷ rest) = a == b'\r' && b == b'\n'
is_crlf p = false

pub is_header_end : List ℕ → Bool
is_header_end (a ∷ b ∷ c ∷ d ∷ rest) = (a == b'\r' && b == b'\n') && (c == b'\r' && d == b'\n')
is_header_end p = false

-- The loop of `iequals_small`, over two texts of one length.
same_folded : List ℕ → List ℕ → Bool
same_folded (a ∷ xs) (b ∷ ys) = if bit_or a 32 == bit_or b 32 then same_folded xs ys else false
same_folded _ _ = true

unfoldable pub iequals_small : List ℕ → List ℕ → Bool
unfolding same_folded
iequals_small a b = if length a == length b then same_folded a b else false

-- `size_t` arithmetic wraps at 2 ^ 64. The loop stops at the first byte that is no digit.
atoi_loop : ℕ → List ℕ → ℕ
atoi_loop result [] = result
atoi_loop result (c ∷ cs) =
    let rest = atoi_loop ((result * 10 + (c - b'0')) % 2 ^ 64) cs in
    if ltb c b'0' || ltb b'9' c then result else rest

unfoldable pub fast_atoi : List ℕ → ℕ
unfolding atoi_loop
fast_atoi str = atoi_loop 0 str

-- `std::to_chars` of a 64-bit value: its decimal digits. `fuel` bounds their number.
unfoldable pub to_chars : ℕ → ℕ → List ℕ
to_chars zero value = []
to_chars (suc fuel) value =
    let front = to_chars fuel (value / 10) in
    if ltb value 10 then (b'0' + value) ∷ [] else front ++ (b'0' + value % 10) ∷ []

-- With a buffer that is too short the result is the empty view.
unfoldable pub fast_itoa : ℕ → ℕ → List ℕ
fast_itoa len value = let text = to_chars 20 value in if leb (length text) len then text else []

abbrev pub base64_table : List ℕ
base64_table = codes "ABCDEFGHIJKLMNOPQRSTUVWXYZabcdefghijklmnopqrstuvwxyz0123456789+/"

-- `kBase64Table[(chunk >> shift) & 0x3F]`
base64_char : ℕ → ℕ → ℕ
base64_char chunk shift = get_or base64_table (bit_and (chunk / 2 ^ shift) 0x3f) 0

-- The loop over groups of three bytes, then the one or two that remain.
pub base64_encode : List ℕ → List ℕ
base64_encode [] = []
base64_encode (a ∷ []) =
    let chunk = a * 2 ^ 16 in base64_char chunk 18 ∷ base64_char chunk 12 ∷ b'=' ∷ b'=' ∷ []
base64_encode (a ∷ b ∷ []) =
    let chunk = bit_or (a * 2 ^ 16) (b * 2 ^ 8) in
    base64_char chunk 18 ∷ base64_char chunk 12 ∷ base64_char chunk 6 ∷ b'=' ∷ []
base64_encode (a ∷ b ∷ c ∷ rest) =
    let chunk = bit_or (bit_or (a * 2 ^ 16) (b * 2 ^ 8)) c in
    base64_char chunk 18
    ∷ base64_char chunk 12
    ∷ base64_char chunk 6
    ∷ base64_char chunk 0
    ∷ base64_encode rest
