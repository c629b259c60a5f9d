-- ===== src/WebSocket/Dispatch.antt =====
-- src/Server/WebSocketContext.cpp, and the rest of src/Server/WebSocket.cpp: `sendFrame`,
-- `dispatchFrame` and the loop of `processFrames`.
pub mod Replies
pub mod Loop
use warp_api.Prelude.{
  ℕ, zero, suc, ◌+◌, ◌/◌, ◌^◌, bit_and, Bool, true, false, Option, none, some, List, [], ◌∷◌, ◌++◌,
  ltb, ◌==◌, if◌then◌else◌, length, take,
}
use warp_api.Ring.{RingBuffer}
use warp_api.Ring.WriteAll.{write_all}
use warp_api.WebSocket.Frame.{
  FrameData, FrameResult, wait, reject, frame, frame_header, parse_frame, ws_op_text, ws_op_binary,
  ws_op_close, ws_op_ping, ws_op_pong, ws_control_max_payload,
}

-- What a callback may do with its `WebSocketContext`.
pub data ContextCall : Type 0 where
  send_text : List ℕ → ContextCall
  send_binary : List ℕ → ContextCall
  close : ℕ → List ℕ → ContextCall

-- `WebSocketRoute`: each callback, where it is set, by the calls that it makes.
pub record WebSocketRoute : Type 0 where
  pub on_open : Option (List ContextCall)
  pub on_message : Option (List ℕ → List ContextCall)
  pub on_close : Option (List ContextCall)

pub record WsState : Type 0 where
  pub route : Option WebSocketRoute
  pub close_sent : Bool

-- The payload that `WebSocketContext::close` builds: the code in two bytes, and a reason cut at 123.
unfoldable pub close_payload : ℕ → List ℕ → List ℕ
close_payload code reason =
    bit_and (code / 2 ^ 8) 0xff
    ∷ bit_and code 0xff
    ∷ take (if ltb 123 (length reason) then 123 else length reason) reason

-- The protocol error 1002.
abbrev pub protocol_error : List ℕ
protocol_error = 0x03 ∷ 0xea ∷ []

-- `state.route && state.route->onMessage`, and the same for `onClose`.
on_message_calls : Option WebSocketRoute → List ℕ → List ContextCall
on_message_calls none payload = []
on_message_calls (some route) payload = elim route.on_message [ none ↦ [] | some f ↦ f payload ]

on_close_calls : Option WebSocketRoute → List ContextCall
on_close_calls none = []
on_close_calls (some route) = elim route.on_close [ none ↦ [] | some calls ↦ calls ]

module _ (rb : RingBuffer) where
  open rb use {Buf, contents, read_region, advance_read}

  -- `if (!payload.empty()) writeAll(payload)`
  write_payload : Buf → List ℕ → Buf
  write_payload out [] = out
  write_payload out (c ∷ cs) = (write_all rb out (c ∷ cs)).0

  send_frame : Buf → ℕ → List ℕ → Bool → Buf
  unfolding write_payload
  send_frame out opcode payload fin =
      write_payload (write_all rb out (frame_header fin opcode (length payload))).0 payload

  -- `sendText`, `sendBinary` and `close` of the context, by `Session::wsFrameSend`.
  context_call : Buf → ContextCall → Buf
  unfolding send_frame
  context_call out (send_text payload) = send_frame out ws_op_text payload true
  context_call out (send_binary payload) = send_frame out ws_op_binary payload true
  context_call out (close code reason) = send_frame out ws_op_close (close_payload code reason) true

  pub context_calls : Buf → List ContextCall → Buf
  unfolding context_call
  context_calls out [] = out
  context_calls out (call ∷ calls) = context_calls (context_call out call) calls

  -- The result of `dispatchFrame`, with the state and the write buffer behind it.
  pub record Dispatched : Type 0 where
    pub alive : Bool
    pub state : WsState
    pub out : Buf

  protocol_close : WsState → Buf → Dispatched
  unfolding send_frame
  protocol_close state out = record {
    alive = false;
    state = record state { close_sent = true };
    out = send_frame out ws_op_close protocol_error true;
  }

  -- `case WS_OP_CLOSE`: the payload comes back, unless a close frame was sent before.
  echo_close : Buf → Bool → List ℕ → Buf
  unfolding send_frame
  echo_close out true payload = out
  echo_close out false payload =
      let n =
        if ltb ws_control_max_payload (length payload)
        then ws_control_max_payload
        else length payload in
      send_frame out ws_op_close (take n payload) true

  pub dispatch_frame : WsState → FrameData → Buf → Dispatched
  unfolding protocol_close echo_close context_calls on_message_calls on_close_calls
  dispatch_frame state f out =
      let broken : Dispatched = protocol_close state out in
      let received : Dispatched = record {
        alive = true;
        state = state;
        out = context_calls out (on_message_calls state.route f.payload);
      } in
      let closed : Dispatched = record {
        alive = false;
        state = record state { close_sent = true };
        out =
            context_calls (echo_close out state.close_sent f.payload) (on_close_calls state.route);
      } in
      if f.fin
      then if f.opcode == ws_op_text
        then received
        else if f.opcode == ws_op_binary
        then received
        else if f.opcode == ws_op_ping
        then record { alive = true; state = state; out = send_frame out ws_op_pong f.payload true }
        else if f.opcode == ws_op_pong
        then record { alive = true; state = state; out = out }
        else if f.opcode == ws_op_close
        then closed
        else broken
      else broken

  -- The connection behind a call of `processFrames`, with what is left in the read buffer.
  pub record Processed : Type 0 where
    pub result : Dispatched
    pub input : Buf

  -- The loop. `none` is the fuel used up.
  pub process_frames_loop : ℕ → ℕ → WsState → Buf → Buf → Option Processed
  unfolding dispatch_frame
  process_frames_loop zero max_body state input out = none
  process_frames_loop (suc fuel) max_body state input out =
      elim (parse_frame max_body (read_region input)) [
        | wait ↦
            some
              (record { result = record { alive = true; state = state; out = out }; input = input })
        | reject ↦
            some (record {
              result = record { alive = false; state = state; out = out };
              input = input;
            })
        | frame f ↦
            let d = dispatch_frame state f out in
            let input' = advance_read input f.size in
            let more = process_frames_loop fuel max_body d.state input' d.out in
            if d.alive then more else some (record { result = d; input = input' })
      ]

  -- A round takes six bytes of the input at least.
  pub process_frames : ℕ → WsState → Buf → Buf → Option Processed
  unfolding process_frames_loop
  process_frames max_body state input out =
      process_frames_loop (suc (length (contents input))) max_body state input out
