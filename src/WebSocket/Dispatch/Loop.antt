-- ===== src/WebSocket/Dispatch/Loop.antt =====
-- The loop of `processFrames`: it ends, and over the frames of a client it is a fold of the dispatch.
use warp_api.Prelude.{
  ℕ, zero, suc, ◌+◌, ◌^◌, ◌≤◌, ◌<◌, ◌≡◌, ◌⊎◌, refl, ap, sym, ◌∙◌, subst, true, false, some, List,
  [], ◌∷◌, arith, if◌then◌else◌, length, length-append, drop, length-drop, Bool-cases, inl, inr,
  All, IsSuffix, IsSuffix-trans, IsSuffix-drop,
}
use warp_api.Ring.{RingBuffer}
use warp_api.WebSocket.Frame.{FrameData, FrameResult, wait, reject, frame, parse_frame}
use warp_api.WebSocket.Frame.Received.{parse_frame-IsWithin}
use warp_api.WebSocket.Frame.Client.{
  ClientFrame, IsAllowed, client_frame, client_size, parse_frame-client_frame, drop-client_frame,
}
use warp_api.WebSocket.Dispatch.{
  WsState, Dispatched, Processed, dispatch_frame, process_frames_loop, process_frames,
}

pub FrameResult-cases :
    (r : FrameResult) → (r ≡ wait) ⊎ (r ≡ reject) ⊎ ((f : FrameData) × (r ≡ frame f))
FrameResult-cases wait = inl refl
FrameResult-cases reject = inr (inl refl)
FrameResult-cases (frame f) = inr (inr (f, refl))

-- The frame as the dispatch receives it.
abbrev pub received : ClientFrame → FrameData
received f = record { fin = f.fin; opcode = f.opcode; payload = f.payload; size = client_size f }

nothing_left : (max_body : ℕ) → parse_frame max_body [] ≡ wait
unfolding parse_frame
nothing_left max_body = refl

-- The bytes of frames that follow each other.
unfoldable pub client_bytes : List ClientFrame → List ℕ
client_bytes [] = []
client_bytes (f ∷ fs) = client_frame f (client_bytes fs)

module _ (rb : RingBuffer) where
  open rb use {Buf}

  -- The dispatch of frames in turn, up to the first that closes the connection.
  unfoldable pub dispatch_all : WsState → List ClientFrame → Buf → Dispatched rb
  dispatch_all state [] out = record { alive = true; state = state; out = out }
  dispatch_all state (f ∷ fs) out =
      let d = dispatch_frame rb state (received f) out in
      let rest = dispatch_all d.state fs d.out in if d.alive then rest else d

module _ (rb : RingBuffer) (max_body : ℕ) (room : max_body + 14 < 2 ^ 64) where
  open rb use {
    Buf, contents, read_region, read_region_prefix, advance_read, advance_read_contents,
    advance_read_whole,
  }

  -- A frame that the parser finds leaves fewer bytes.
  advanced :
      (input : Buf) (f : FrameData)
      → parse_frame max_body (read_region input) ≡ frame f
      → (contents (advance_read input f.size) ≡ drop f.size (contents input))
        × (f.size ≤ length (contents input))
        × (6 ≤ f.size)
  advanced input f e =
      let w = parse_frame-IsWithin max_body (read_region input) f room e in
      let (rest, split) = read_region_prefix input in
      let fits : f.size ≤ length (contents input) =
        omega (arith, w.size_avail, ap length split, length-append (read_region input) rest) in
      (advance_read_contents input f.size fits, fits, omega (arith, w.size_payload))

  process_frames_loop_ends :
      (fuel : ℕ) (state : WsState) (input out : Buf)
      → length (contents input) < fuel
      → (r : Processed rb) × (process_frames_loop rb fuel max_body state input out ≡ some r)
        × IsSuffix (contents r.input) (contents input)
  unfolding process_frames_loop
  process_frames_loop_ends zero state input out h = absurd (omega arith)
  process_frames_loop_ends (suc fuel) state input out h =
      elim (FrameResult-cases (parse_frame max_body (read_region input))) [
        | inl e ↦ (
          record { result = record { alive = true; state = state; out = out }; input = input },
          rw (e, process_frames_loop),
          ([], refl),
        )
        | inr (inl e) ↦ (
          record { result = record { alive = false; state = state; out = out }; input = input },
          rw (e, process_frames_loop),
          ([], refl),
        )
        | inr (inr (f, e)) ↦
            let (left, fits, progress) = advanced input f e in
            let suffix : IsSuffix (contents (advance_read input f.size)) (contents input) =
              subst (λ t. IsSuffix t (contents input)) (sym left)
                (IsSuffix-drop f.size (contents input)) in
            let d = dispatch_frame rb state f out in
            elim (Bool-cases d.alive) [
              | inl more ↦
                  let (r, ran, kept) =
                    process_frames_loop_ends fuel d.state (advance_read input f.size) d.out
                      (omega (arith, ap length left, length-drop f.size (contents input))) in
                  (
                    r,
                    rw (e, more, process_frames_loop) ran,
                    IsSuffix-trans (contents input) (contents (advance_read input f.size))
                        (contents r.input) kept suffix,
                  )
              | inr closed ↦ (
                record { result = d; input = advance_read input f.size },
                rw (e, closed, process_frames_loop),
                suffix,
              )
            ]
      ]

  -- `processFrames` ends on every input, and what it leaves in the read buffer is the end of what
  -- stood there.
  pub process_frames_ends :
      (state : WsState) (input out : Buf)
      → (r : Processed rb) × (process_frames rb max_body state input out ≡ some r)
        × IsSuffix (contents r.input) (contents input)
  unfolding process_frames
  process_frames_ends state input out =
      process_frames_loop_ends (suc (length (contents input))) state input out (omega arith)

  process_frames_loop-dispatch_all :
      (fuel : ℕ) (state : WsState) (fs : List ClientFrame) (input out : Buf)
      → read_region input ≡ contents input
      → All (IsAllowed max_body) fs
      → contents input ≡ client_bytes fs
      → length (contents input) < fuel
      → (left : Buf) × (process_frames_loop rb fuel max_body state input out
          ≡ some (record { result = dispatch_all rb state fs out; input = left }))
  unfolding process_frames_loop dispatch_all client_bytes
  process_frames_loop-dispatch_all zero state fs input out whole v e h = absurd (omega arith)
  process_frames_loop-dispatch_all (suc fuel) state [] input out whole v e h =
      let none_left : parse_frame max_body (read_region input) ≡ wait =
        ap (parse_frame max_body) (whole ∙ e) ∙ nothing_left max_body in
      (input, rw (none_left, process_frames_loop))
  process_frames_loop-dispatch_all (suc fuel) state (f ∷ fs) input out whole (v, vs) e h =
      let parsed : parse_frame max_body (read_region input) ≡ frame (received f) =
        ap (parse_frame max_body) (whole ∙ e)
        ∙ parse_frame-client_frame max_body f (client_bytes fs) v room in
      let (left, fits, progress) = advanced input (received f) parsed in
      let behind : contents (advance_read input (client_size f)) ≡ client_bytes fs =
        left ∙ ap (drop (client_size f)) e ∙ drop-client_frame f (client_bytes fs) in
      let d = dispatch_frame rb state (received f) out in
      elim (Bool-cases d.alive) [
        | inl more ↦
            let (b, ran) =
              process_frames_loop-dispatch_all fuel d.state fs (advance_read input (client_size f))
                d.out (advance_read_whole input (client_size f) fits whole) vs behind
                (omega (arith, ap length left, length-drop (client_size f) (contents input))) in
            (b, rw (parsed, more, process_frames_loop, dispatch_all) ran)
        | inr closed ↦ (
          advance_read input (client_size f),
          rw (parsed, closed, process_frames_loop, dispatch_all),
        )
      ]

  -- On a read buffer that holds whole frames of a client, and whose bytes can be read in one piece,
  -- `processFrames` is the dispatch of these frames in their order, up to the first that closes the
  -- connection.
  pub process_frames-dispatch_all :
      (state : WsState) (fs : List ClientFrame) (input out : Buf)
      → read_region input ≡ contents input
      → All (IsAllowed max_body) fs
      → contents input ≡ client_bytes fs
      → (left : Buf) × (process_frames rb max_body state input out
          ≡ some (record { result = dispatch_all rb state fs out; input = left }))
  unfolding process_frames
  process_frames-dispatch_all state fs input out whole v e =
      process_frames_loop-dispatch_all (suc (length (contents input))) state fs input out whole v e
        (omega arith)
