-- ===== src/Tests/Frames.antt =====
-- Runs of the WebSocket codec and of the dispatch of frames.
use warp_api.Prelude.{
  ℕ, ◌≡◌, refl, Bool, true, false, none, some, List, [], ◌∷◌, ◌++◌, arith, length, codes, IsSuffix,
}
use warp_api.WebSocket.Frame.{FrameData, frame_header}
use warp_api.WebSocket.Frame.Sent.{read_header, read_header-frame_header}
use warp_api.WebSocket.Frame.Received.{IsWithin, parse_frame-IsWithin}
use warp_api.WebSocket.Frame.Client.{ClientFrame, IsAllowed, client_frame, parse_frame-client_frame}
use warp_api.WebSocket.Dispatch.{send_text, WsState, Processed, dispatch_frame, process_frames}
use warp_api.WebSocket.Dispatch.Replies.{Answered, dispatch_frame-Answered}
use warp_api.WebSocket.Dispatch.Loop.{
  client_bytes, dispatch_all, process_frames_ends, process_frames-dispatch_all,
}
use warp_api.Tests.Given.{flat_ring, are_bytes_sound}

abbrev frame_of : Bool → ℕ → List ℕ → ClientFrame
frame_of fin opcode payload = record {
  fin = fin;
  opcode = opcode;
  key0 = 17;
  key1 = 200;
  key2 = 3;
  key3 = 99;
  payload = payload;
}

abbrev hello : ClientFrame
hello = frame_of true 1 (codes "hello")

abbrev ping : ClientFrame
ping = frame_of true 9 (codes "?")

abbrev bye : ClientFrame
bye = frame_of true 8 (3 ∷ 232 ∷ [])

abbrev in_parts : ClientFrame
in_parts = frame_of false 1 (codes "hel")

hello-IsAllowed : IsAllowed 100 hello
hello-IsAllowed = record {
  opcode_fits = omega arith;
  key_bytes = are_bytes_sound (17 ∷ 200 ∷ 3 ∷ 99 ∷ []) refl;
  payload_bytes = are_bytes_sound (codes "hello") refl;
  limited = omega arith;
  control = λ h. omega arith;
}

ping-IsAllowed : IsAllowed 100 ping
ping-IsAllowed = record {
  opcode_fits = omega arith;
  key_bytes = are_bytes_sound (17 ∷ 200 ∷ 3 ∷ 99 ∷ []) refl;
  payload_bytes = are_bytes_sound (codes "?") refl;
  limited = omega arith;
  control = λ h. omega arith;
}

bye-IsAllowed : IsAllowed 100 bye
bye-IsAllowed = record {
  opcode_fits = omega arith;
  key_bytes = are_bytes_sound (17 ∷ 200 ∷ 3 ∷ 99 ∷ []) refl;
  payload_bytes = are_bytes_sound (3 ∷ 232 ∷ []) refl;
  limited = omega arith;
  control = λ h. omega arith;
}

-- A route that answers each message with itself, and is told of the end.
abbrev echoing : WsState
echoing = record {
  route = some (record {
    on_open = none;
    on_message = some (λ payload. send_text payload ∷ []);
    on_close = some (send_text (codes "bye") ∷ []);
  });
  close_sent = false;
}

abbrev hello_data : FrameData
hello_data = record { fin = true; opcode = 1; payload = codes "hello"; size = 11 }

parse_frame-IsWithin_example : IsWithin 100 (length (client_frame hello [])) hello_data
parse_frame-IsWithin_example =
    parse_frame-IsWithin 100 (client_frame hello []) hello_data (omega arith)
      (parse_frame-client_frame 100 hello [] hello-IsAllowed (omega arith))

read_header-frame_header_example :
    read_header (frame_header true 2 70000 ++ codes "payload")
    ≡ some (record { fin = true; opcode = 2; masked = false; len = 70000 }, codes "payload")
read_header-frame_header_example =
    read_header-frame_header true 2 70000 (codes "payload") (omega arith) (omega arith)

abbrev empty_out : List ℕ × ℕ
empty_out = ([], 1000)

dispatch_frame-Answered_example :
    Answered flat_ring echoing
      (record { fin = true; opcode = 8; payload = codes "end"; size = 9 })
      empty_out
      (dispatch_frame flat_ring echoing
        (record { fin = true; opcode = 8; payload = codes "end"; size = 9 })
        empty_out)
dispatch_frame-Answered_example =
    dispatch_frame-Answered flat_ring echoing
      (record { fin = true; opcode = 8; payload = codes "end"; size = 9 }) empty_out

abbrev some_input : List ℕ × ℕ
some_input = (129 ∷ 133 ∷ 1 ∷ 2 ∷ 3 ∷ [], 50)

process_frames_ends_example :
    (r : Processed flat_ring) × (process_frames flat_ring 100 echoing some_input empty_out ≡ some r)
    × IsSuffix r.input.0 (129 ∷ 133 ∷ 1 ∷ 2 ∷ 3 ∷ [])
process_frames_ends_example =
    process_frames_ends flat_ring 100 (omega arith) echoing some_input empty_out

abbrev conversation : List ClientFrame
conversation = hello ∷ ping ∷ bye ∷ hello ∷ []

process_frames-dispatch_all_example :
    (left : List ℕ × ℕ) × (process_frames flat_ring 100 echoing
        (client_bytes conversation, 0)
        empty_out
      ≡ some
          (record { result = dispatch_all flat_ring echoing conversation empty_out; input = left }))
process_frames-dispatch_all_example =
    process_frames-dispatch_all flat_ring 100 (omega arith) echoing conversation
      (client_bytes conversation, 0) empty_out refl
      (hello-IsAllowed, (ping-IsAllowed, (bye-IsAllowed, (hello-IsAllowed, tt)))) refl
