-- ===== src/Utils/StringUtils/Base64.antt =====
-- `base64Encode` of src/Utils/StringUtils.cpp against a decoder that is written from RFC 4648.
use warp_api.Prelude.{
  ℕ, ◌+◌, ◌-◌, ◌*◌, ◌/◌, ◌%◌, ◌^◌, bit_or, ◌≡◌, refl, ap, ◌∙◌, true, false, ◌&&◌, List, [], ◌∷◌,
  arith, leb, ◌==◌, ==_iff, if◌then◌else◌, length, All, IsByte, get_or, all_below, all_below_sound,
}
use warp_api.Prelude.Masks.{bit_or-shift, bit_and-63}
use warp_api.Utils.StringUtils.{base64_table, base64_char, base64_encode}

-- The value of a character of the alphabet; 64 for any other.
pub sextet : ℕ → ℕ
sextet c =
    if leb b'A' c && leb c b'Z'
    then c - 65
    else if leb b'a' c && leb c b'z'
    then c - 71
    else if leb b'0' c && leb c b'9'
    then c + 4
    else if c == b'+'
    then 62
    else if c == b'/'
    then 63
    else 64

-- The bytes of a group of four characters, the last of which may be padded.
base64_group : ℕ → ℕ → ℕ → ℕ → List ℕ → List ℕ
base64_group p q r s rest =
    let a = sextet p * 4 + sextet q / 16 in
    if r == b'='
    then a ∷ rest
    else let b = sextet q % 16 * 16 + sextet r / 4 in
      if s == b'=' then a ∷ b ∷ rest else a ∷ b ∷ (sextet r % 4 * 64 + sextet s) ∷ rest

pub base64_decode : List ℕ → List ℕ
base64_decode (p ∷ q ∷ r ∷ s ∷ rest) = base64_group p q r s (base64_decode rest)
base64_decode _ = []

table_values : all_below 64 (λ i. sextet (get_or base64_table i 0) == i) ≡ true
unfolding all_below sextet
table_values = refl

table_no_pad : all_below 64 (λ i. if get_or base64_table i 0 == b'=' then false else true) ≡ true
unfolding all_below
table_no_pad = refl

-- The character at a shift stands for six bits of the chunk, and is no padding.
base64_char_value : (chunk shift : ℕ) → sextet (base64_char chunk shift) ≡ chunk / 2 ^ shift % 64
unfolding base64_char
base64_char_value chunk shift =
    rw (bit_and-63 (chunk / 2 ^ shift))
      ((==_iff _ _).0 (all_below_sound 64 _ (chunk / 2 ^ shift % 64) table_values (omega arith)))

base64_char_no_pad : (chunk shift : ℕ) → (base64_char chunk shift == b'=') ≡ false
unfolding base64_char
base64_char_no_pad chunk shift =
    let look = all_below_sound 64 _ (chunk / 2 ^ shift % 64) table_no_pad (omega arith) in
    rw (bit_and-63 (chunk / 2 ^ shift)) (ground arith)

chunk2 : (a b : ℕ) → IsByte b → bit_or (a * 2 ^ 16) (b * 2 ^ 8) ≡ a * 65536 + b * 256
chunk2 a b h = bit_or-shift 16 a (b * 2 ^ 8) (omega arith)

chunk3 :
    (a b c : ℕ)
    → IsByte b
    → IsByte c
    → bit_or (bit_or (a * 2 ^ 16) (b * 2 ^ 8)) c ≡ a * 65536 + b * 256 + c
chunk3 a b c h k =
    let e : a * 65536 + b * 256 ≡ (a * 256 + b) * 2 ^ 8 = omega arith in
    rw (chunk2 a b h, e) (bit_or-shift 8 (a * 256 + b) c k ∙ omega arith)

one_byte :
    (chunk a : ℕ)
    → chunk ≡ a * 65536
    → IsByte a
    → base64_group (base64_char chunk 18) (base64_char chunk 12) b'=' b'=' [] ≡ a ∷ []
unfolding base64_group
one_byte chunk a e h =
    ap (λ x. x ∷ []) (omega (arith, base64_char_value chunk 18, base64_char_value chunk 12))

two_bytes :
    (chunk a b : ℕ)
    → chunk ≡ a * 65536 + b * 256
    → IsByte a
    → IsByte b
    → base64_group (base64_char chunk 18) (base64_char chunk 12) (base64_char chunk 6) b'=' []
      ≡ a ∷ b ∷ []
unfolding base64_group
two_bytes chunk a b e h k = ground (
  arith,
  base64_char_value chunk 18,
  base64_char_value chunk 12,
  base64_char_value chunk 6,
  base64_char_no_pad chunk 6,
)

three_bytes :
    (chunk a b c : ℕ) (rest : List ℕ)
    → chunk ≡ a * 65536 + b * 256 + c
    → IsByte a
    → IsByte b
    → IsByte c
    → base64_group
        (base64_char chunk 18)
        (base64_char chunk 12)
        (base64_char chunk 6)
        (base64_char chunk 0)
        rest
      ≡ a ∷ b ∷ c ∷ rest
unfolding base64_group
three_bytes chunk a b c rest e h k l = ground (
  arith,
  base64_char_value chunk 18,
  base64_char_value chunk 12,
  base64_char_value chunk 6,
  base64_char_value chunk 0,
  base64_char_no_pad chunk 6,
  base64_char_no_pad chunk 0,
)

-- Decoding gives back the bytes that were encoded.
pub base64_decode-base64_encode :
    (bytes : List ℕ) → All IsByte bytes → base64_decode (base64_encode bytes) ≡ bytes
unfolding base64_encode base64_decode
base64_decode-base64_encode [] h = refl
base64_decode-base64_encode (a ∷ []) (ha, h) = one_byte (a * 2 ^ 16) a refl ha
base64_decode-base64_encode (a ∷ b ∷ []) (ha, (hb, h)) = two_bytes _ a b (chunk2 a b hb) ha hb
base64_decode-base64_encode (a ∷ b ∷ c ∷ rest) (ha, (hb, (hc, h))) =
    three_bytes _ a b c _ (chunk3 a b c hb hc) ha hb hc
    ∙ ap (λ xs. a ∷ b ∷ c ∷ xs) (base64_decode-base64_encode rest h)

-- The encoding fills the string that the source sizes in advance: four characters for each group
-- of three bytes that is begun.
pub length-base64_encode :
    (bytes : List ℕ) → length (base64_encode bytes) ≡ (length bytes + 2) / 3 * 4
unfolding base64_encode
length-base64_encode [] = refl
length-base64_encode (a ∷ []) = refl
length-base64_encode (a ∷ b ∷ []) = refl
length-base64_encode (a ∷ b ∷ c ∷ rest) = omega (arith, length-base64_encode rest)
