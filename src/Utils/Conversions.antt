-- ===== src/Utils/Conversions.antt =====
-- src/Utils/Conversions.cpp, over lists of bytes. `isalnum` and `tolower` are those of the C locale.
pub mod Laws
use warp_api.Prelude.{
  ℕ, zero, suc, ◌+◌, ◌*◌, ◌/◌, bit_or, bit_and, Bool, true, false, ◌&&◌, ◌||◌, List, [], ◌∷◌, ltb,
  leb, ◌==◌, if◌then◌else◌, get_or, codes,
}

pub is_alnum : ℕ → Bool
is_alnum c = (leb b'0' c && leb c b'9') || (leb b'A' c && leb c b'Z') || (leb b'a' c && leb c b'z')

-- The characters that `urlEncode` leaves as they are.
pub is_unreserved : ℕ → Bool
unfolding is_alnum
is_unreserved c = is_alnum c || c == b'-' || c == b'_' || c == b'.' || c == b'~'

hex : ℕ → ℕ
hex d = get_or (codes "0123456789ABCDEF") d 0

pub url_encode : List ℕ → List ℕ
url_encode [] = []
url_encode (c ∷ cs) =
    if is_unreserved c
    then c ∷ url_encode cs
    else b'%' ∷ hex (c / 16) ∷ hex (bit_and c 0xf) ∷ url_encode cs

-- The initialiser of the table, as it stands in the source; the entries behind it are 0.
hexval_table : List ℕ
hexval_table =
    0 ∷ 0 ∷ 0 ∷ 0 ∷ 0 ∷ 0 ∷ 0 ∷ 0 ∷ 0 ∷ 0 ∷ 0 ∷ 0 ∷ 0 ∷ 0 ∷ 0 ∷ 0 ∷ 0 ∷ 0 ∷ 0 ∷ 0 ∷ 0 ∷ 0 ∷ 0 ∷ 0
    ∷ 0 ∷ 0 ∷ 0 ∷ 0 ∷ 0 ∷ 0 ∷ 0 ∷ 0 ∷ 0 ∷ 0 ∷ 0 ∷ 0 ∷ 0 ∷ 0 ∷ 0 ∷ 0 ∷ 0 ∷ 0 ∷ 0 ∷ 0 ∷ 0 ∷ 0 ∷ 0 ∷ 0
    ∷ 0 ∷ 0 ∷ 0 ∷ 0 ∷ 0 ∷ 0 ∷ 0 ∷ 0 ∷ 0 ∷ 0 ∷ 0 ∷ 0 ∷ 0 ∷ 0 ∷ 0 ∷ 0 ∷ 0 ∷ 0 ∷ 0 ∷ 0 ∷ 0 ∷ 0 ∷ 0 ∷ 0
    ∷ 0 ∷ 0 ∷ 0 ∷ 0 ∷ 0 ∷ 0 ∷ 0 ∷ 0 ∷ 0 ∷ 1 ∷ 2 ∷ 3 ∷ 4 ∷ 5 ∷ 6 ∷ 7 ∷ 8 ∷ 9 ∷ 0 ∷ 0 ∷ 0 ∷ 0 ∷ 0 ∷ 0
    ∷ 10 ∷ 11 ∷ 12 ∷ 13 ∷ 14 ∷ 15 ∷ 0 ∷ 0 ∷ 0 ∷ 0 ∷ 0 ∷ 0 ∷ 0 ∷ 0 ∷ 0 ∷ 0 ∷ 0 ∷ 0 ∷ 0 ∷ 0 ∷ 0 ∷ 0
    ∷ 0 ∷ 0 ∷ 0 ∷ 0 ∷ 0 ∷ 0 ∷ 0 ∷ 0 ∷ 0 ∷ 0 ∷ 0 ∷ 10 ∷ 11 ∷ 12 ∷ 13 ∷ 14 ∷ 15 ∷ []

hexval : ℕ → ℕ
unfolding hexval_table
hexval c = get_or hexval_table c 0

-- One character that is no `%`.
plain : ℕ → ℕ
plain c = if c == b'+' then b' ' else c

-- A pair of table values below 16 gives a character, any other pair nothing.
decoded : ℕ → ℕ → List ℕ → List ℕ
decoded h1 h2 rest = if ltb h1 16 && ltb h2 16 then bit_or (h1 * 16) h2 ∷ rest else rest

-- A `%` with fewer than two characters behind it is dropped.
pub url_decode : List ℕ → List ℕ
url_decode [] = []
url_decode (c ∷ []) = if c == b'%' then [] else plain c ∷ []
url_decode (c ∷ a ∷ []) =
    let rest = url_decode (a ∷ []) in if c == b'%' then rest else plain c ∷ rest
url_decode (c ∷ a ∷ b ∷ cs) =
    let escaped = decoded (hexval a) (hexval b) (url_decode cs) in
    let literal = plain c ∷ url_decode (a ∷ b ∷ cs) in if c == b'%' then escaped else literal

unfoldable pub to_lower : ℕ → ℕ
to_lower c = if leb b'A' c && leb c b'Z' then c + 32 else c

-- `std::equal` over both ranges.
pub iequals : List ℕ → List ℕ → Bool
iequals [] [] = true
iequals (a ∷ xs) (b ∷ ys) = to_lower a == to_lower b && iequals xs ys
iequals _ _ = false
