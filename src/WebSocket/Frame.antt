-- ===== src/WebSocket/Frame.antt =====
-- The frame codec of src/Server/WebSocket.cpp: the header that `sendFrame` writes, and the part of
-- `processFrames` that reads one frame.
pub mod Sent
pub mod Received
pub mod Client
use warp_api.Prelude.{
  ℕ, zero, suc, ◌+◌, ◌-◌, ◌*◌, ◌/◌, ◌%◌, ◌^◌, bit_and, bit_or, bit_xor, Bool, true, false, not,
  ◌&&◌, ◌||◌, Option, none, some, List, [], ◌∷◌, ◌++◌, ltb, leb, ◌==◌, if◌then◌else◌, length, take,
  drop, get_or,
}

-- `enum WsMessageTye`
abbrev pub ws_op_continuation : ℕ
ws_op_continuation = 0x0

abbrev pub ws_op_text : ℕ
ws_op_text = 0x1

abbrev pub ws_op_binary : ℕ
ws_op_binary = 0x2

abbrev pub ws_op_close : ℕ
ws_op_close = 0x8

abbrev pub ws_op_ping : ℕ
ws_op_ping = 0x9

abbrev pub ws_op_pong : ℕ
ws_op_pong = 0xa

abbrev pub ws_control_max_payload : ℕ
ws_control_max_payload = 125

-- The loop over the `count` lowest bytes of a 64-bit length, the highest first.
length_bytes : ℕ → ℕ → List ℕ
length_bytes zero len = []
length_bytes (suc i) len = bit_and (len / 2 ^ (i * 8)) 0xff ∷ length_bytes i len

-- The length field behind the first byte, in one of its three forms.
header_with : ℕ → ℕ → List ℕ
unfolding length_bytes
header_with first len =
    if leb len 125
    then first ∷ len ∷ []
    else if leb len 0xffff
    then first ∷ 126 ∷ bit_and (len / 2 ^ 8) 0xff ∷ bit_and len 0xff ∷ []
    else first ∷ 127 ∷ length_bytes 8 len

-- The bytes `hdr[0]` to `hdr[hdrLen - 1]`.
unfoldable pub frame_header : Bool → ℕ → ℕ → List ℕ
unfolding header_with
frame_header fin opcode len =
    header_with (bit_or (if fin then 0x80 else 0x00) (bit_and opcode 0x0f)) len

-- A frame as `dispatchFrame` receives it, with the number of bytes that it took.
pub record FrameData : Type 0 where
  pub fin : Bool
  pub opcode : ℕ
  pub payload : List ℕ
  pub size : ℕ

-- One round of `processFrames` up to the dispatch: return true and wait for more bytes, return
-- false, or dispatch a frame.
pub data FrameResult : Type 0 where
  wait : FrameResult
  reject : FrameResult
  frame : FrameData → FrameResult

-- `payload[i] = data[offset + i] ^ mask[i % 4]`, from `i` on.
unfoldable pub unmask : List ℕ → ℕ → List ℕ → List ℕ
unmask mask i [] = []
unmask mask i (c ∷ cs) = bit_xor c (get_or mask (i % 4) 0) ∷ unmask mask (i + 1) cs

-- The bytes from the mask key on.
masked_payload : ℕ → ℕ → ℕ → Bool → ℕ → List ℕ → FrameResult
masked_payload avail offset len fin opcode (k0 ∷ k1 ∷ k2 ∷ k3 ∷ rest) =
    if ltb avail ((offset + 4 + len) % 2 ^ 64)
    then wait
    else frame (record {
      fin = fin;
      opcode = opcode;
      payload = unmask (k0 ∷ k1 ∷ k2 ∷ k3 ∷ []) 0 (take len rest);
      size = offset + 4 + len;
    })
masked_payload avail offset len fin opcode rest = wait

-- The checks of the length, behind the length field.
check_length : ℕ → ℕ → ℕ → ℕ → Bool → ℕ → List ℕ → FrameResult
unfolding masked_payload unmask
check_length max_body avail offset len fin opcode rest =
    let accepted = masked_payload avail offset len fin opcode rest in
    if not (bit_and opcode 0x08 == 0) && ltb ws_control_max_payload len
    then reject
    else if ltb max_body len
    then reject
    else accepted

-- The loop over the eight bytes of a long length, and the two bytes of a short one.
long_length : ℕ → ℕ → List ℕ → Option (ℕ × List ℕ)
long_length zero len rest = some (len, rest)
long_length (suc n) len [] = none
long_length (suc n) len (c ∷ rest) = long_length n (bit_or (len * 2 ^ 8 % 2 ^ 64) c) rest

short_length : List ℕ → Option (ℕ × List ℕ)
short_length (h ∷ l ∷ rest) = some (bit_or (h * 2 ^ 8) l, rest)
short_length rest = none

sized_frame : ℕ → ℕ → ℕ → Bool → ℕ → Option (ℕ × List ℕ) → FrameResult
unfolding check_length
sized_frame max_body avail offset fin opcode none = wait
sized_frame max_body avail offset fin opcode (some (len, rest)) =
    check_length max_body avail offset len fin opcode rest

-- The two bytes of the header, and what follows.
read_frame : ℕ → ℕ → ℕ → ℕ → List ℕ → FrameResult
unfolding sized_frame long_length short_length
read_frame max_body avail b0 b1 rest =
    let fin = not (bit_and b0 0x80 == 0) in
    let opcode = bit_and b0 0x0f in
    let len = bit_and b1 0x7f in
    if bit_and b1 0x80 == 0
    then reject
    else if len == 126
    then sized_frame max_body avail 4 fin opcode (short_length rest)
    else if len == 127
    then sized_frame max_body avail 10 fin opcode (long_length 8 0 rest)
    else check_length max_body avail 2 len fin opcode rest

unfoldable pub parse_frame : ℕ → List ℕ → FrameResult
unfolding read_frame
parse_frame max_body (b0 ∷ b1 ∷ rest) = read_frame max_body (length (b0 ∷ b1 ∷ rest)) b0 b1 rest
parse_frame max_body bytes = wait
