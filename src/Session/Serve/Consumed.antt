-- ===== src/Session/Serve/Consumed.antt =====
-- What is done with the bytes that were read ends, in either mode.
use warp_api.Session.Handler.{http, web_socket}
use warp_api.Session.Serve.{
  Connection, Run, consume, done, fault, parser_of, serve, stuck, take_frames, ◌>>=◌,
}
use warp_api.Session.Serve.Ends.{Ends, serve-Ends, served}
use warp_api.Session.Handler.{Endpoints, ProtocolMode}
use warp_api.Session.Parser.Bounds.{HasPlainHeaders}
use warp_api.WebSocket.Dispatch.Loop.{process_frames_ends}
use warp_api.Ring.{RingBuffer}
use warp_api.Prelude.{Bool, IsSuffix-length, List, arith, length, true, ℕ, ◌+◌, ◌<◌, ◌^◌, ◌≤◌}

module _ (rb : RingBuffer) (sha1 : List ℕ → List ℕ) where
  open rb use {contents}

  -- The parser can go on behind the bytes that are left.
  pub record Left (c c' : Connection rb sha1) : Type 0 where
    pub plain : HasPlainHeaders (parser_of rb sha1 c'.session)
    pub fewer : length (contents c'.input) ≤ length (contents c.input)

  pub data Consumed (c : Connection rb sha1) : Run (Connection rb sha1 × Bool) → Type 0 where
    consumed : {c' : Connection rb sha1} {alive : Bool} → Left c c' → Consumed c (done (c', alive))
    faulted : Consumed c fault

  module _ (max_body : ℕ) (ends : Endpoints rb sha1) where
    served-Consumed :
        (c : Connection rb sha1) (r : Run (Connection rb sha1))
        → Ends rb sha1 c r
        → Consumed c (do c' ← r; done (c', true))
    served-Consumed c (done c') (served s) = consumed (record {
      plain = s.plain;
      fewer = IsSuffix-length (contents c.input) (contents c'.input) s.rest;
    })
    served-Consumed c fault e = Consumed.faulted
    served-Consumed c stuck e = elim e [ ]

    pub consume-Consumed :
        (mode : ProtocolMode) (c : Connection rb sha1)
        → HasPlainHeaders (parser_of rb sha1 c.session)
        → max_body + 14 + length (contents c.input) < 2 ^ 64
        → Consumed c (consume rb sha1 max_body ends mode c)
    unfolding consume take_frames
    consume-Consumed http c plain room =
        served-Consumed c (serve rb sha1 max_body ends c)
          (serve-Ends rb sha1 max_body ends c plain (omega arith))
    consume-Consumed web_socket c plain room =
        let (r, ran, rest) =
          process_frames_ends rb max_body (omega arith) c.session.ws_state c.input c.session.out in
        rw (ran, take_frames)
          (consumed (record {
            plain = plain;
            fewer = IsSuffix-length (contents c.input) (contents r.input) rest;
          }))
