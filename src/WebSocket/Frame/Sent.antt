-- ===== src/WebSocket/Frame/Sent.antt =====
-- What a client reads in the header that `sendFrame` writes. The reader is written from RFC 6455,
-- section 5.2, in plain arithmetic.
use warp_api.Prelude.{
  ℕ, zero, suc, ◌+◌, ◌*◌, ◌/◌, ◌%◌, ◌^◌, ◌≤◌, ◌<◌, bit_and, bit_or, ◌≡◌, refl, ap, ◌∙◌, sym, Bool,
  true, false, ◌&&◌, Option, none, some, List, [], ◌∷◌, ◌++◌, arith, leb, ◌==◌, if◌then◌else◌,
  all_below, all_below_sound, Bool-cases, inl, inr, leb→le,
}
use warp_api.Prelude.Masks.{bit_and-255}
use native.Mathlib.Nat.{pow-suc, div-div-eq-div-mul}
use native.Mathlib.Numerals.{towards_suc}
use warp_api.WebSocket.Frame.{header_with, frame_header, length_bytes}

-- `count` bytes of a number, the highest first.
abbrev pub big_endian : ℕ → ℕ → List ℕ → Option (ℕ × List ℕ)
big_endian zero acc bytes = some (acc, bytes)
big_endian (suc n) acc [] = none
big_endian (suc n) acc (c ∷ cs) = big_endian n (acc * 256 + c) cs

pub record Header : Type 0 where
  pub fin : Bool
  pub opcode : ℕ
  pub masked : Bool
  pub len : ℕ

with_length : Bool → ℕ → Bool → Option (ℕ × List ℕ) → Option (Header × List ℕ)
with_length fin opcode masked none = none
with_length fin opcode masked (some (len, rest)) =
    some (record { fin = fin; opcode = opcode; masked = masked; len = len }, rest)

pub read_header : List ℕ → Option (Header × List ℕ)
unfolding with_length
read_header (b0 ∷ b1 ∷ rest) =
    let len = b1 % 128 in
    with_length (b0 / 128 == 1) (b0 % 16) (b1 / 128 == 1) (
      if len == 126
      then big_endian 2 0 rest
      else if len == 127
      then big_endian 8 0 rest
      else some (len, rest))
read_header bytes = none

first_byte_table :
    all_below 16
      (λ op. bit_or 0x80 (bit_and op 0x0f) == 128 + op && bit_or 0x00 (bit_and op 0x0f) == op)
    ≡ true
unfolding all_below
first_byte_table = refl

first_byte :
    (op : ℕ)
    → op < 16
    → (bit_or 0x80 (bit_and op 0x0f) ≡ 128 + op) × (bit_or 0x00 (bit_and op 0x0f) ≡ op)
first_byte op h = let e = all_below_sound 16 _ op first_byte_table h in ground arith

pow_eight : (n : ℕ) → 2 ^ (n * 8) ≡ 256 ^ n
pow_eight zero = refl
pow_eight (suc n) =
    ap (λ k. 2 ^ k) {x = suc n * 8} {y = n * 8 + 8} (omega arith)
    ∙ simp towards_suc (omega (arith, pow_eight n, pow-suc 256 n))

-- The loop writes the digits of the number to the base 256.
big_endian-length_bytes :
    (n len : ℕ) (rest : List ℕ)
    → big_endian n (len / 256 ^ n) (length_bytes n len ++ rest) ≡ some (len, rest)
unfolding length_bytes
big_endian-length_bytes zero len rest = ap (λ k. some (k, rest)) (omega arith)
big_endian-length_bytes (suc n) len rest =
    ap (λ k. big_endian n k (length_bytes n len ++ rest)) horner
    ∙ big_endian-length_bytes n len rest
  where
    shorter : len / 256 ^ suc n ≡ len / 256 ^ n / 256
    shorter = ap (λ k. len / k) (pow-suc 256 n) ∙ sym (div-div-eq-div-mul len (256 ^ n) 256)

    horner : len / 256 ^ suc n * 256 + bit_and (len / 2 ^ (n * 8)) 0xff ≡ len / 256 ^ n
    horner = rw (shorter, pow_eight n, bit_and-255 (len / 256 ^ n)) (omega arith)

module _ (b0 op len : ℕ) (fin : Bool) (rest : List ℕ) (top : (b0 / 128 == 1) ≡ fin)
    (low : b0 % 16 ≡ op) where
  short_header :
      len ≤ 125
      → read_header (b0 ∷ len ∷ rest)
        ≡ some (record { fin = fin; opcode = op; masked = false; len = len }, rest)
  unfolding read_header
  short_header h = ground arith

  middle_header :
      len ≤ 0xffff
      → read_header (b0 ∷ 126 ∷ bit_and (len / 2 ^ 8) 0xff ∷ bit_and len 0xff ∷ rest)
        ≡ some (record { fin = fin; opcode = op; masked = false; len = len }, rest)
  unfolding read_header
  middle_header h = ground (arith, bit_and-255 (len / 256), bit_and-255 len)

  long_header :
      len < 2 ^ 64
      → read_header (b0 ∷ 127 ∷ length_bytes 8 len ++ rest)
        ≡ some (record { fin = fin; opcode = op; masked = false; len = len }, rest)
  unfolding read_header
  long_header w =
      let none_above : len / 256 ^ 8 ≡ 0 = omega arith in
      let e = rw none_above at (big_endian-length_bytes 8 len rest) in rw (e, top, low)

  any_header :
      len < 2 ^ 64
      → read_header (header_with b0 len ++ rest)
        ≡ some (record { fin = fin; opcode = op; masked = false; len = len }, rest)
  unfolding header_with
  any_header w = elim (Bool-cases (leb len 125)) [
    | inl s ↦ rw (s, header_with) (short_header (leb→le len 125 s))
    | inr l ↦ elim (Bool-cases (leb len 0xffff)) [
      | inl m ↦ rw (l, m, header_with) (middle_header (leb→le len 0xffff m))
      | inr g ↦ rw (l, g, header_with) (long_header w)
    ]
  ]

-- A client that reads the header that `sendFrame` writes for a payload of any 64-bit length finds
-- the final bit, the opcode and the length, no mask, and the payload directly behind it.
pub read_header-frame_header :
    (fin : Bool) (op len : ℕ) (rest : List ℕ)
    → op < 16
    → len < 2 ^ 64
    → read_header (frame_header fin op len ++ rest)
      ≡ some (record { fin = fin; opcode = op; masked = false; len = len }, rest)
unfolding frame_header
read_header-frame_header true op len rest h w =
    rw ((first_byte op h).0) (any_header (128 + op) op len true rest (ground arith) (omega arith) w)
read_header-frame_header false op len rest h w =
    rw ((first_byte op h).1) (any_header op op len false rest (ground arith) (omega arith) w)
