-- ===== src/WebSocket/Frame/Client.antt =====
-- The frames that a client sends, by RFC 6455, section 5, and what `processFrames` reads of them.
use warp_api.Prelude.{
  ℕ, zero, suc, ◌+◌, ◌*◌, ◌/◌, ◌%◌, ◌^◌, ◌≤◌, ◌<◌, bit_and, bit_or, ◌≡◌, refl, ap, sym, ◌∙◌, Bool,
  false, not, some, List, [], ◌∷◌, ◌++◌, arith, leb, ◌==◌, if◌then◌else◌, length, length-append,
  take-append, drop, drop-append, get_or, Bool-cases, inl, inr, leb→le, leb-false_lt, le_ltb-false,
  All, IsByte,
}
use native.Mathlib.Nat.{pow-suc, div-div-eq-div-mul, div-le_self}
use warp_api.Prelude.Bytes.{top_bit, low_seven, low_four, control_bit, xor_twice}
use warp_api.Prelude.Masks.{bit_or-shift}
use warp_api.WebSocket.Frame.{
  FrameResult, frame, unmask, masked_payload, check_length, long_length, short_length, sized_frame,
  read_frame, parse_frame,
}
use warp_api.WebSocket.Frame.Received.{length-unmask}

pub record ClientFrame : Type 0 where
  pub fin : Bool
  pub opcode : ℕ
  pub key0 : ℕ
  pub key1 : ℕ
  pub key2 : ℕ
  pub key3 : ℕ
  pub payload : List ℕ

abbrev key : ClientFrame → List ℕ
key f = f.key0 ∷ f.key1 ∷ f.key2 ∷ f.key3 ∷ []

-- The `n` lowest bytes of a length, the highest first.
abbrev digits_256 : ℕ → ℕ → List ℕ
digits_256 zero len = []
digits_256 (suc n) len = (len / 256 ^ n % 256) ∷ digits_256 n len

-- The second byte, with the mask bit, and the length field.
abbrev client_length : ℕ → List ℕ → List ℕ
client_length len rest =
    if leb len 125
    then (128 + len) ∷ rest
    else if leb len 0xffff
    then 254 ∷ len / 256 ∷ len % 256 ∷ rest
    else 255 ∷ digits_256 8 len ++ rest

-- The frame, and `rest` behind it. Masking is its own inverse.
unfoldable pub client_frame : ClientFrame → List ℕ → List ℕ
client_frame f rest =
    ((if f.fin then 128 else 0) + f.opcode)
    ∷ client_length (length f.payload) (key f ++ (unmask (key f) 0 f.payload ++ rest))

-- What a client may send to a server of this `max_body_size`.
pub record IsAllowed (max_body : ℕ) (f : ClientFrame) : Type 0 where
  pub opcode_fits : f.opcode < 16
  pub key_bytes : All IsByte (key f)
  pub payload_bytes : All IsByte f.payload
  pub limited : length f.payload ≤ max_body
  pub control : 8 ≤ f.opcode → length f.payload ≤ 125

get_or-IsByte : (mask : List ℕ) (i : ℕ) → All IsByte mask → IsByte (get_or mask i 0)
get_or-IsByte [] i h = omega arith
get_or-IsByte (k ∷ mask) zero (h, hs) = h
get_or-IsByte (k ∷ mask) (suc i) (h, hs) = get_or-IsByte mask i hs

unmask-unmask :
    (mask : List ℕ) (i : ℕ) (cs : List ℕ)
    → All IsByte mask
    → All IsByte cs
    → unmask mask i (unmask mask i cs) ≡ cs
unfolding unmask
unmask-unmask mask i [] m h = refl
unmask-unmask mask i (c ∷ cs) m (h, hs) = cc (
  xor_twice c (get_or mask (i % 4) 0) h (get_or-IsByte mask (i % 4) m),
  unmask-unmask mask (i + 1) cs m hs,
)

long_length-digits :
    (n len : ℕ) (rest : List ℕ)
    → len < 2 ^ 64
    → long_length n (len / 256 ^ n) (digits_256 n len ++ rest) ≡ some (len, rest)
unfolding long_length
long_length-digits zero len rest w = ap (λ k. some (k, rest)) (omega arith)
long_length-digits (suc n) len rest w =
    ap (λ k. long_length n k (digits_256 n len ++ rest)) joined ∙ long_length-digits n len rest w
  where
    q : ℕ
    q = len / 256 ^ n

    shorter : len / 256 ^ suc n ≡ q / 256
    shorter = ap (λ k. len / k) (pow-suc 256 n) ∙ sym (div-div-eq-div-mul len (256 ^ n) 256)

    small : q / 256 * 2 ^ 8 % 2 ^ 64 ≡ q / 256 * 2 ^ 8
    small = omega (arith, div-le_self len (256 ^ n))

    joined : bit_or (len / 256 ^ suc n * 2 ^ 8 % 2 ^ 64) (q % 256) ≡ q
    joined = rw (shorter, small, bit_or-shift 8 (q / 256) (q % 256) (omega arith)) (omega arith)

module _ (max_body : ℕ) (f : ClientFrame) (v : IsAllowed max_body f) (rest : List ℕ)
    (room : max_body + 14 < 2 ^ 64) where
  abbrev behind : List ℕ
  behind = key f ++ (unmask (key f) 0 f.payload ++ rest)

  abbrev read_as : ℕ → FrameResult
  read_as offset = frame (record {
    fin = f.fin;
    opcode = f.opcode;
    payload = f.payload;
    size = offset + 4 + length f.payload;
  })

  masked_payload-client :
      (avail offset : ℕ)
      → offset ≤ 10
      → avail ≡ offset + length behind
      → masked_payload avail offset (length f.payload) f.fin f.opcode behind ≡ read_as offset
  unfolding masked_payload
  masked_payload-client avail offset hi sum = rw (
    wrapless,
    le_ltb-false avail (offset + 4 + length f.payload) fits,
    masked_payload,
    take-append (length f.payload) (unmask (key f) 0 f.payload) rest (sym masked_size),
    unmask-unmask (key f) 0 f.payload v.key_bytes v.payload_bytes,
  )
    where
      masked_size : length (unmask (key f) 0 f.payload) ≡ length f.payload
      masked_size = length-unmask (key f) 0 f.payload

      wrapless : (offset + 4 + length f.payload) % 2 ^ 64 ≡ offset + 4 + length f.payload
      wrapless = omega (arith, v.limited)

      fits : offset + 4 + length f.payload ≤ avail
      fits = omega (arith, masked_size, length-append (unmask (key f) 0 f.payload) rest)

  check_length-client :
      (avail offset : ℕ)
      → offset ≤ 10
      → avail ≡ offset + length behind
      → check_length max_body avail offset (length f.payload) f.fin f.opcode behind ≡ read_as offset
  unfolding check_length
  check_length-client avail offset hi sum =
      let m = masked_payload-client avail offset hi sum in
      ground (arith, control_bit f.opcode v.opcode_fits, m)

  first_bits :
      (not (bit_and ((if f.fin then 128 else 0) + f.opcode) 0x80 == 0) ≡ f.fin)
      × (bit_and ((if f.fin then 128 else 0) + f.opcode) 0x0f ≡ f.opcode)
  first_bits = ground (
    arith,
    v.opcode_fits,
    top_bit (128 + f.opcode),
    top_bit (0 + f.opcode),
    low_four (128 + f.opcode),
    low_four (0 + f.opcode),
  )

  read_frame-short :
      {avail : ℕ}
      → avail ≡ 2 + length behind
      → length f.payload ≤ 125
      → read_frame max_body avail
          ((if f.fin then 128 else 0) + f.opcode)
          (128 + length f.payload)
          behind
        ≡ read_as 2
  unfolding read_frame
  read_frame-short {avail} sum h =
      rw
        (
          first_bits.0,
          first_bits.1,
          masked,
          low_seven (128 + length f.payload) (omega arith),
          seven,
          no_126,
          no_127,
          read_frame,
        )
        (check_length-client avail 2 (omega arith) sum)
    where
      masked : (bit_and (128 + length f.payload) 0x80 == 0) ≡ false
      masked = ground (arith, top_bit (128 + length f.payload))

      seven : (128 + length f.payload) % 128 ≡ length f.payload
      seven = omega arith

      no_126 : (length f.payload == 126) ≡ false
      no_126 = ground arith

      no_127 : (length f.payload == 127) ≡ false
      no_127 = ground arith

  read_frame_middle :
      {avail : ℕ}
      → avail ≡ 4 + length behind
      → 125 < length f.payload
      → length f.payload ≤ 0xffff
      → read_frame max_body avail
          ((if f.fin then 128 else 0) + f.opcode)
          254
          (length f.payload / 256 ∷ length f.payload % 256 ∷ behind)
        ≡ read_as 4
  unfolding read_frame sized_frame short_length
  read_frame_middle {avail} sum h k = ground (
    arith,
    first_bits,
    bit_or-shift 8 (length f.payload / 256) (length f.payload % 256),
    check_length-client avail 4,
  )

  sized_frame-digits :
      (n avail : ℕ)
      → avail ≡ 10 + length behind
      → length f.payload / 256 ^ n ≡ 0
      → sized_frame max_body avail 10 f.fin f.opcode
          (long_length n 0 (digits_256 n (length f.payload) ++ behind))
        ≡ read_as 10
  unfolding sized_frame
  sized_frame-digits n avail sum e =
      ap
        (λ k.
          sized_frame max_body avail 10 f.fin f.opcode
            (long_length n k (digits_256 n (length f.payload) ++ behind)))
        (sym e)
      ∙ ap (sized_frame max_body avail 10 f.fin f.opcode)
          (long_length-digits n (length f.payload) behind (omega (arith, v.limited)))
      ∙ check_length-client avail 10 (omega arith) sum

  read_frame_long :
      {avail : ℕ}
      → avail ≡ 10 + length behind
      → read_frame max_body avail
          ((if f.fin then 128 else 0) + f.opcode)
          255
          (digits_256 8 (length f.payload) ++ behind)
        ≡ read_as 10
  unfolding read_frame
  read_frame_long {avail} sum =
      rw (first_bits.0, first_bits.1, read_frame)
        (sized_frame-digits 8 avail sum (omega (arith, v.limited)))

abbrev pub size_with : ℕ → ℕ → ℕ
size_with header len = header + 4 + len

-- The number of bytes of a client's frame.
abbrev pub client_size : ClientFrame → ℕ
client_size f =
    let len = length f.payload in
    size_with (if leb len 125 then 2 else if leb len 0xffff then 4 else 10) len

length-digits_256 :
    (n len : ℕ) (rest : List ℕ) → length (digits_256 n len ++ rest) ≡ n + length rest
length-digits_256 zero len rest = omega arith
length-digits_256 (suc n) len rest = omega (arith, length-digits_256 n len rest)

pub parse_frame-client_frame :
    (max_body : ℕ) (f : ClientFrame) (rest : List ℕ)
    → IsAllowed max_body f
    → max_body + 14 < 2 ^ 64
    → parse_frame max_body (client_frame f rest)
      ≡ frame (record { fin = f.fin; opcode = f.opcode; payload = f.payload; size = client_size f })
unfolding parse_frame client_frame
parse_frame-client_frame max_body f rest v room = elim (Bool-cases (leb (length f.payload) 125)) [
  | inl e ↦
      rw (e, parse_frame, client_frame)
        (read_frame-short max_body f v rest room (omega arith) (leb→le (length f.payload) 125 e))
  | inr e ↦ elim (Bool-cases (leb (length f.payload) 0xffff)) [
    | inl e' ↦
        rw (e, e', parse_frame, client_frame)
          (read_frame_middle max_body f v rest room (omega arith)
            (leb-false_lt (length f.payload) 125 e) (leb→le (length f.payload) 0xffff e'))
    | inr e' ↦
        let sum = length-digits_256 8 (length f.payload) (behind max_body f v rest room) in
        rw (e, e', parse_frame, client_frame)
          (read_frame_long max_body f v rest room (omega (arith, sum)))
  ]
]

-- `rest` is what lies behind the size of the frame.
pub drop-client_frame :
    (f : ClientFrame) (rest : List ℕ) → drop (client_size f) (client_frame f rest) ≡ rest
unfolding client_frame
drop-client_frame f rest = elim (Bool-cases (leb len 125)) [
  | inl e ↦ rw (e, client_frame) (behind_head 2 (first ∷ (128 + len) ∷ tail) (omega (arith, n)))
  | inr e ↦ elim (Bool-cases (leb len 0xffff)) [
    | inl e' ↦
        rw (e, e', client_frame)
          (behind_head 4 (first ∷ 254 ∷ len / 256 ∷ len % 256 ∷ tail) (omega (arith, n)))
    | inr e' ↦
        rw (e, e', client_frame)
          (behind_head 10 (first ∷ 255 ∷ digits_256 8 len ++ tail)
            (omega (arith, n, length-digits_256 8 len tail)))
  ]
]
  where
    len : ℕ
    len = length f.payload

    first : ℕ
    first = (if f.fin then 128 else 0) + f.opcode

    masked : List ℕ
    masked = unmask (key f) 0 f.payload

    tail : List ℕ
    tail = key f ++ masked

    n : length masked ≡ len
    n = length-unmask (key f) 0 f.payload

    behind_head :
        (header : ℕ) (xs : List ℕ)
        → header + 4 + len ≡ length xs
        → drop (size_with header len) (xs ++ rest) ≡ rest
    behind_head header xs e = drop-append (size_with header len) xs rest e
