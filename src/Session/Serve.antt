-- ===== src/Session/Serve.antt =====
-- `while (parseRequest()) handleRequest();` and the rest of what `Session` does with the bytes that
-- it has read, of src/Server/Session.cpp.
pub mod Ends
pub mod Pipeline
pub mod Consumed
use warp_api.Prelude.{ℕ, zero, suc, Bool, true, false, Option, none, some, List, length}
use warp_api.Ring.{RingBuffer}
use warp_api.Session.Parser.{ParserState, Outcome, incomplete, complete, parse_request}
use warp_api.Session.Handler.{ProtocolMode, http, web_socket, Session, Endpoints, handle_request}
use warp_api.WebSocket.Dispatch.{Processed, process_frames}

-- The result of code that may leave an array's range (`fault`). `stuck` is no result of the source:
-- the fuel of a loop ran out.
pub data Run {ℓ} (A : Type ℓ) : Type ℓ where
  done : A → Run A
  fault : Run A
  stuck : Run A

infixl 5 ◌>>=◌
abbrev pub ◌>>=◌ {ℓ κ} : {A : Type ℓ} {B : Type κ} → Run A → (A → Run B) → Run B
done a >>= f = f a
fault >>= f = fault
stuck >>= f = stuck

-- What holds of the result, where there is one.
abbrev pub OnDone {ℓ κ} : {A : Type ℓ} → (A → Type κ) → Run A → Type κ
OnDone P (done a) = P a
OnDone P fault = Unit
OnDone P stuck = Unit

pub OnDone-bind {ℓ ℓ' κ κ'} :
    {A : Type ℓ} {B : Type ℓ'} (P : A → Type κ) (Q : B → Type κ') (r : Run A) (f : A → Run B)
    → OnDone P r
    → ((a : A) → P a → OnDone Q (f a))
    → OnDone Q (do a ← r; f a)
OnDone-bind P Q (done a) f h k = k a h
OnDone-bind P Q fault f h k = tt
OnDone-bind P Q stuck f h k = tt

pub OnDone-mono {ℓ κ κ'} :
    {A : Type ℓ} (P : A → Type κ) (Q : A → Type κ') (r : Run A)
    → ((a : A) → P a → Q a)
    → OnDone P r
    → OnDone Q r
OnDone-mono P Q (done a) k h = k a h
OnDone-mono P Q fault k h = tt
OnDone-mono P Q stuck k h = tt

module _ (rb : RingBuffer) (sha1 : List ℕ → List ℕ) where
  open rb use {Buf, contents, read_region, advance_read}

  -- A session with its read buffer.
  pub record Connection : Type 0 where
    pub session : Session rb sha1
    pub input : Buf

  -- The members that the parser reads and writes.
  abbrev pub parser_of : Session rb sha1 → ParserState
  parser_of s = record { req = s.req; keep_alive = s.keep_alive }

  abbrev pub with_parser : Session rb sha1 → ParserState → Session rb sha1
  with_parser s p = record s { req = p.req; keep_alive = p.keep_alive }

  -- A request takes two bytes at least, so that a fuel above the number of bytes is enough.
  pub serve_loop : ℕ → ℕ → Endpoints rb sha1 → Connection → Run Connection
  unfolding handle_request
  serve_loop zero max_body ends c = stuck
  serve_loop (suc fuel) max_body ends c =
      elim (parse_request max_body (read_region c.input) (parser_of c.session)) [
        | incomplete p ↦ done (record c { session = with_parser c.session p })
        | complete n p ↦ elim (handle_request rb sha1 ends (with_parser c.session p)) [
          | none ↦ fault
          | some s ↦
              serve_loop fuel max_body ends (record { session = s; input = advance_read c.input n })
        ]
        | Outcome.overrun ↦ fault
        | Outcome.stuck ↦ stuck
      ]

  pub serve : ℕ → Endpoints rb sha1 → Connection → Run Connection
  unfolding serve_loop
  serve max_body ends c = serve_loop (suc (length (contents c.input))) max_body ends c

  -- The connection behind a call of `processFrames`, and its answer.
  unfoldable pub take_frames : Connection → Option (Processed rb) → Run (Connection × Bool)
  take_frames c none = stuck
  take_frames c (some p) = done (
    record {
      session = record c.session { ws_state = p.result.state; out = p.result.out };
      input = p.input;
    },
    p.result.alive,
  )

  -- What is done with the bytes read: the requests are served, or the frames processed. The answer
  -- is false where `processFrames` answers false.
  unfoldable pub consume :
      ℕ → Endpoints rb sha1 → ProtocolMode → Connection → Run (Connection × Bool)
  unfolding serve take_frames
  consume max_body ends http c = do c' ← serve max_body ends c; done (c', true)
  consume max_body ends web_socket c =
      take_frames c (process_frames rb max_body c.session.ws_state c.input c.session.out)
