-- ===== src/WebSocket/Dispatch/Replies.antt =====
-- What the dispatch of a frame writes, against a list of the frames that answer it.
use warp_api.Prelude.{
  ℕ, ◌≡◌, refl, ap, sym, ◌∙◌, Bool, true, false, List, [], ◌∷◌, ◌++◌, append_assoc, append-nil,
  arith, not, ◌&&◌, ◌||◌, ltb, ltb-false_le, ◌==◌, if◌then◌else◌, length, take, take-of_le,
  Bool-cases, inl, inr,
}
use warp_api.Ring.{RingBuffer}
use warp_api.Ring.WriteAll.{write_all}
use warp_api.Ring.Appended.{Appended, Appended-nil, Appended-append, write_all-Appended}
use warp_api.WebSocket.Frame.{
  FrameData, frame_header, ws_op_text, ws_op_binary, ws_op_close, ws_op_pong,
}
use warp_api.WebSocket.Dispatch.{
  ContextCall, send_text, send_binary, close, WsState, close_payload, protocol_error,
  on_message_calls, on_close_calls, write_payload, send_frame, context_call, context_calls,
  Dispatched, protocol_close, echo_close, dispatch_frame,
}

-- Unfragmented frames, by opcode and payload, and their bytes.
abbrev pub sent : List (ℕ × List ℕ) → List ℕ
sent [] = []
sent ((opcode, payload) ∷ fs) = frame_header true opcode (length payload) ++ (payload ++ sent fs)

abbrev pub call_frame : ContextCall → ℕ × List ℕ
call_frame (send_text payload) = (ws_op_text, payload)
call_frame (send_binary payload) = (ws_op_binary, payload)
call_frame (close code reason) = (ws_op_close, close_payload code reason)

abbrev pub call_frames : List ContextCall → List (ℕ × List ℕ)
call_frames [] = []
call_frames (call ∷ calls) = call_frame call ∷ call_frames calls

-- The close frame that echoes a received one, at most once on a connection.
abbrev pub echo : Bool → List ℕ → List (ℕ × List ℕ)
echo true payload = []
echo false payload = (ws_op_close, take 125 payload) ∷ []

-- A frame in one piece with a message for the route, of either kind.
abbrev pub is_message : FrameData → Bool
is_message f = f.fin && (f.opcode == 1 || f.opcode == 2)

-- The frames after which the connection stays open: messages, pings and pongs.
abbrev pub keeps_open : FrameData → Bool
keeps_open f = is_message f || (f.fin && (f.opcode == 9 || f.opcode == 10))

-- The frames that answer a frame: those of the callback, a pong, a close echo or an error.
unfoldable pub answers : WsState → FrameData → List (ℕ × List ℕ)
unfolding on_message_calls on_close_calls
answers state f =
    if is_message f
    then call_frames (on_message_calls state.route f.payload)
    else if f.fin && f.opcode == 9
    then (ws_op_pong, f.payload) ∷ []
    else if f.fin && f.opcode == 10
    then []
    else if f.fin && f.opcode == 8
    then echo state.close_sent f.payload ++ call_frames (on_close_calls state.route)
    else (ws_op_close, protocol_error) ∷ []

sent-append : (xs ys : List (ℕ × List ℕ)) → sent (xs ++ ys) ≡ sent xs ++ sent ys
sent-append [] ys = refl
sent-append ((opcode, payload) ∷ xs) ys =
    ap (λ t. frame_header true opcode (length payload) ++ (payload ++ t)) (sent-append xs ys)
    ∙ ap (◌++◌ (frame_header true opcode (length payload)))
        (sym (append_assoc payload (sent xs) (sent ys)))
    ∙ sym (append_assoc (frame_header true opcode (length payload)) (payload ++ sent xs) (sent ys))

take-cut : (n : ℕ) (xs : List ℕ) → take (if ltb n (length xs) then n else length xs) xs ≡ take n xs
take-cut n xs = elim (Bool-cases (ltb n (length xs))) [
  | inl e ↦ rw e
  | inr e ↦ rw e (
      take-of_le (length xs) xs (omega arith)
      ∙ sym (take-of_le n xs (ltb-false_le n (length xs) e)))
]

module _ (rb : RingBuffer) where
  open rb use {Buf, contents, room}

  write_payload-Appended :
      (b : Buf) (bytes : List ℕ) → Appended rb b bytes (write_payload rb b bytes)
  unfolding write_payload
  write_payload-Appended b [] = Appended-nil rb b
  write_payload-Appended b (c ∷ cs) = write_all-Appended rb b (c ∷ cs)

  send_frame-Appended :
      (b : Buf) (opcode : ℕ) (payload : List ℕ)
      → Appended rb b (sent ((opcode, payload) ∷ [])) (send_frame rb b opcode payload true)
  unfolding send_frame
  send_frame-Appended b opcode payload =
      let header = frame_header true opcode (length payload) in
      let both =
        Appended-append rb header payload (write_all-Appended rb b header)
          (write_payload-Appended (write_all rb b header).0 payload) in
      rw (append-nil payload) both

  context_call-Appended :
      (b : Buf) (call : ContextCall)
      → Appended rb b (sent (call_frame call ∷ [])) (context_call rb b call)
  unfolding context_call
  context_call-Appended b (send_text payload) = send_frame-Appended b ws_op_text payload
  context_call-Appended b (send_binary payload) = send_frame-Appended b ws_op_binary payload
  context_call-Appended b (close code reason) =
      send_frame-Appended b ws_op_close (close_payload code reason)

  Appended-sent :
      {b b' b'' : Buf} (xs ys : List (ℕ × List ℕ))
      → Appended rb b (sent xs) b'
      → Appended rb b' (sent ys) b''
      → Appended rb b (sent (xs ++ ys)) b''
  Appended-sent {b} {b'} {b''} xs ys h k =
      rw (sent-append xs ys) (Appended-append rb (sent xs) (sent ys) h k)

  context_calls-Appended :
      (b : Buf) (calls : List ContextCall)
      → Appended rb b (sent (call_frames calls)) (context_calls rb b calls)
  unfolding context_calls
  context_calls-Appended b [] = Appended-nil rb b
  context_calls-Appended b (call ∷ calls) =
      Appended-sent (call_frame call ∷ []) (call_frames calls) (context_call-Appended b call)
        (context_calls-Appended (context_call rb b call) calls)

  echo_close-Appended :
      (b : Buf) (close_sent : Bool) (payload : List ℕ)
      → Appended rb b (sent (echo close_sent payload)) (echo_close rb b close_sent payload)
  unfolding echo_close
  echo_close-Appended b true payload = Appended-nil rb b
  echo_close-Appended b false payload =
      rw (take-cut 125 payload) (send_frame-Appended b ws_op_close (take 125 payload))

  -- What the dispatch of `f` did: it stored the answers, it keeps the connection exactly for the
  -- frames that may be followed by others, and otherwise a close frame counts as sent.
  pub record Answered (state : WsState) (f : FrameData) (b : Buf) (d : Dispatched rb) : Type 0 where
    pub stored : Appended rb b (sent (answers state f)) d.out
    pub open_after : d.alive ≡ keeps_open f
    pub close_sent_after : d.state.close_sent ≡ not (keeps_open f) || state.close_sent
    pub route_after : d.state.route ≡ state.route

  -- The dispatch of a frame, whatever it is, stores the frames that answer it, as far as there is
  -- room, in their order, and leaves the connection and its state as the kind of frame says.
  pub dispatch_frame-Answered :
      (state : WsState) (f : FrameData) (b : Buf) → Answered state f b (dispatch_frame rb state f b)
  unfolding dispatch_frame protocol_close answers
  dispatch_frame-Answered state f b = record {
    stored = elim (Bool-cases f.fin) [
      | inr e ↦ rw (e, answers, dispatch_frame) broken
      | inl e ↦ elim (Bool-cases (f.opcode == 1)) [
        | inl e1 ↦ rw (e, e1, answers, dispatch_frame) called
        | inr n1 ↦ elim (Bool-cases (f.opcode == 2)) [
          | inl e2 ↦ rw (e, n1, e2, answers, dispatch_frame) called
          | inr n2 ↦ elim (Bool-cases (f.opcode == 9)) [
            | inl e9 ↦
                rw (e, n1, n2, e9, answers, dispatch_frame)
                  (send_frame-Appended b ws_op_pong f.payload)
            | inr n9 ↦ elim (Bool-cases (f.opcode == 10)) [
              | inl e10 ↦ rw (e, n1, n2, n9, e10, answers, dispatch_frame) (Appended-nil rb b)
              | inr n10 ↦ elim (Bool-cases (f.opcode == 8)) [
                | inl e8 ↦ rw (e, n1, n2, n9, n10, e8, answers, dispatch_frame) echoed
                | inr n8 ↦ rw (e, n1, n2, n9, n10, n8, answers, dispatch_frame) broken
              ]
            ]
          ]
        ]
      ]
    ];
    open_after = ground arith;
    close_sent_after = ground arith;
    route_after = ground arith;
  }
    where
      broken :
          Appended rb b (sent ((ws_op_close, protocol_error) ∷ [])) (protocol_close rb state b).out
      broken = send_frame-Appended b ws_op_close protocol_error

      called :
          Appended rb b
            (sent (call_frames (on_message_calls state.route f.payload)))
            (context_calls rb b (on_message_calls state.route f.payload))
      called = context_calls-Appended b (on_message_calls state.route f.payload)

      echoed :
          Appended rb b
            (sent (echo state.close_sent f.payload ++ call_frames (on_close_calls state.route)))
            (context_calls rb
              (echo_close rb b state.close_sent f.payload)
              (on_close_calls state.route))
      echoed =
          Appended-sent (echo state.close_sent f.payload) (call_frames (on_close_calls state.route))
            (echo_close-Appended b state.close_sent f.payload)
            (context_calls-Appended (echo_close rb b state.close_sent f.payload)
              (on_close_calls state.route))
