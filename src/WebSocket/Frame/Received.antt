-- ===== src/WebSocket/Frame/Received.antt =====
-- What `processFrames` reads: bounds on every input, and the frames that a client sends.
use warp_api.Prelude.{
  ℕ, zero, suc, ◌+◌, ◌*◌, ◌%◌, ◌^◌, ◌≤◌, ◌<◌, bit_and, bit_or, ◌≡◌, refl, ap, ◌∙◌, Bool, true,
  false, not, Option, none, some, some_inj, List, [], ◌∷◌, arith, ltb, ◌==◌, length, length-take,
  take, subst, lt→ltb, Bool-cases, inl, inr, ltb-false_le,
}
use warp_api.Prelude.Bytes.{top_bit}
use warp_api.WebSocket.Frame.{
  FrameData, reject, frame, unmask, masked_payload, check_length, long_length, short_length,
  sized_frame, read_frame, parse_frame, ws_control_max_payload,
}

-- What the dispatch may rely on: the frame lies inside the region, takes at least the two bytes of
-- the header and the mask key more than its payload, and respects both limits.
pub record IsWithin (max_body avail : ℕ) (f : FrameData) : Type 0 where
  pub size_avail : f.size ≤ avail
  pub size_payload : length f.payload + 6 ≤ f.size
  pub limited : length f.payload ≤ max_body
  pub control : (bit_and f.opcode 0x08 == 0) ≡ false → length f.payload ≤ ws_control_max_payload

pub length-unmask : (mask : List ℕ) (i : ℕ) (cs : List ℕ) → length (unmask mask i cs) ≡ length cs
unfolding unmask
length-unmask mask i [] = refl
length-unmask mask i (c ∷ cs) = omega (arith, length-unmask mask (i + 1) cs)

frame_inj : {f g : FrameData} → frame f ≡ frame g → f ≡ g
frame_inj e = cc

-- Both checks of the length passed.
record Passed (max_body op len : ℕ) : Type 0 where
  pub small : len ≤ max_body
  pub control_small : (bit_and op 0x08 == 0) ≡ false → len ≤ ws_control_max_payload

module _ (max_body avail : ℕ) (room : max_body + 14 < 2 ^ 64) where
  masked_payload-IsWithin :
      (offset len op : ℕ) (fin : Bool) (rest : List ℕ) (f : FrameData)
      → 2 ≤ offset
      → offset ≤ 10
      → avail ≡ offset + length rest
      → Passed max_body op len
      → masked_payload avail offset len fin op rest ≡ frame f
      → IsWithin max_body avail f
  unfolding masked_payload
  masked_payload-IsWithin offset len op fin (k0 ∷ k1 ∷ k2 ∷ k3 ∷ rest) f lo hi sum p e =
      elim (Bool-cases (ltb avail ((offset + 4 + len) % 2 ^ 64))) [
        | inl few ↦ cc (rw (few, masked_payload) at e)
        | inr enough ↦
            let fits : (offset + 4 + len) % 2 ^ 64 ≤ avail =
              ltb-false_le avail ((offset + 4 + len) % 2 ^ 64) enough in
            let n : length (unmask (k0 ∷ k1 ∷ k2 ∷ k3 ∷ []) 0 (take len rest)) ≡ len = omega (
              arith,
              p.small,
              length-unmask (k0 ∷ k1 ∷ k2 ∷ k3 ∷ []) 0 (take len rest),
              length-take len rest,
            ) in
            subst (IsWithin max_body avail) (frame_inj (rw (enough, masked_payload) at e)) (record {
              size_avail = omega (arith, p.small);
              size_payload = omega arith;
              limited = omega (arith, p.small);
              control = λ c. omega (arith, p.control_small c);
            })
      ]
  masked_payload-IsWithin offset len op fin [] f lo hi sum p e = cc
  masked_payload-IsWithin offset len op fin (k0 ∷ []) f lo hi sum p e = cc
  masked_payload-IsWithin offset len op fin (k0 ∷ k1 ∷ []) f lo hi sum p e = cc
  masked_payload-IsWithin offset len op fin (k0 ∷ k1 ∷ k2 ∷ []) f lo hi sum p e = cc

  check_length-IsWithin :
      (offset len op : ℕ) (fin : Bool) (rest : List ℕ) (f : FrameData)
      → 2 ≤ offset
      → offset ≤ 10
      → avail ≡ offset + length rest
      → check_length max_body avail offset len fin op rest ≡ frame f
      → IsWithin max_body avail f
  unfolding check_length
  check_length-IsWithin offset len op fin rest f lo hi sum e =
      let (p, e') : Passed max_body op len
          × (masked_payload avail offset len fin op rest ≡ frame f) =
        (record { small = ground arith; control_small = λ c. ground arith }, ground arith) in
      masked_payload-IsWithin offset len op fin rest f lo hi sum p e'

  sized_frame-IsWithin :
      (offset op : ℕ) (fin : Bool) (o : Option (ℕ × List ℕ)) (f : FrameData)
      → 2 ≤ offset
      → offset ≤ 10
      → ((len : ℕ) (rest : List ℕ) → o ≡ some (len, rest) → avail ≡ offset + length rest)
      → sized_frame max_body avail offset fin op o ≡ frame f
      → IsWithin max_body avail f
  unfolding sized_frame
  sized_frame-IsWithin offset op fin none f lo hi sum e = cc
  sized_frame-IsWithin offset op fin (some (len, rest)) f lo hi sum e =
      check_length-IsWithin offset len op fin rest f lo hi (sum len rest refl) e

length-long_length :
    (n acc : ℕ) (bytes : List ℕ) (len : ℕ) (rest : List ℕ)
    → long_length n acc bytes ≡ some (len, rest)
    → length bytes ≡ n + length rest
unfolding long_length
length-long_length zero acc bytes len rest e =
    ap length (ap (λ (o : ℕ × List ℕ). o.1) (some_inj e)) ∙ omega arith
length-long_length (suc n) acc [] len rest e = cc
length-long_length (suc n) acc (c ∷ bytes) len rest e =
    omega (arith, length-long_length n (bit_or (acc * 2 ^ 8 % 2 ^ 64) c) bytes len rest e)

length-short_length :
    (bytes : List ℕ) (len : ℕ) (rest : List ℕ)
    → short_length bytes ≡ some (len, rest)
    → length bytes ≡ 2 + length rest
unfolding short_length
length-short_length [] len rest e = cc
length-short_length (h ∷ []) len rest e = cc
length-short_length (h ∷ l ∷ bytes) len rest e =
    ap (λ xs. length (h ∷ l ∷ xs)) (ap (λ (o : ℕ × List ℕ). o.1) (some_inj e)) ∙ omega arith

-- A frame that is read lies inside the bytes that were received, takes at least six bytes more than
-- its payload, has at most `max_body_size` bytes of payload, and at most 125 if it is a control
-- frame. The setting is small enough for no sum of the code to wrap.
pub parse_frame-IsWithin :
    (max_body : ℕ) (bytes : List ℕ) (f : FrameData)
    → max_body + 14 < 2 ^ 64
    → parse_frame max_body bytes ≡ frame f
    → IsWithin max_body (length bytes) f
unfolding parse_frame
parse_frame-IsWithin max_body [] f room e = cc
parse_frame-IsWithin max_body (b0 ∷ []) f room e = cc
parse_frame-IsWithin max_body (b0 ∷ b1 ∷ rest) f room e = elim (Bool-cases (bit_and b1 0x80 == 0)) [
  | inl plain ↦ cc (rw (plain, read_frame) at e)
  | inr masked ↦ elim (Bool-cases (bit_and b1 0x7f == 126)) [
    | inl short ↦
        sized_frame-IsWithin max_body avail room 4 op fin (short_length rest) f (omega arith)
          (omega arith) (λ len r p. omega (arith, length-short_length rest len r p))
          (rw (masked, short, read_frame) at e)
    | inr not_short ↦ elim (Bool-cases (bit_and b1 0x7f == 127)) [
      | inl long ↦
          sized_frame-IsWithin max_body avail room 10 op fin (long_length 8 0 rest) f (omega arith)
            (omega arith) (λ len r p. omega (arith, length-long_length 8 0 rest len r p))
            (rw (masked, not_short, long, read_frame) at e)
      | inr direct ↦
          check_length-IsWithin max_body avail room 2 (bit_and b1 0x7f) op fin rest f (omega arith)
            (omega arith) (omega arith) (rw (masked, not_short, direct, read_frame) at e)
    ]
  ]
]
  where
    avail : ℕ
    avail = length (b0 ∷ b1 ∷ rest)

    op : ℕ
    op = bit_and b0 0x0f

    fin : Bool
    fin = not (bit_and b0 0x80 == 0)

-- A frame that is not masked is refused, whatever follows its two bytes.
pub parse_frame_unmasked :
    (max_body b0 b1 : ℕ) (rest : List ℕ) → b1 < 128 → parse_frame max_body (b0 ∷ b1 ∷ rest) ≡ reject
unfolding parse_frame
parse_frame_unmasked max_body b0 b1 rest h =
    let unmasked : (bit_and b1 0x80 == 0) ≡ true = top_bit b1 (omega arith) ∙ lt→ltb b1 128 h in
    rw (unmasked, parse_frame, read_frame)
