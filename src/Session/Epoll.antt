-- ===== src/Session/Epoll.antt =====
-- `onReadReady`, `onWriteReady`, `onWriteComplete` and `close` of src/Server/Session.cpp, in the
-- epoll build. The answers of the socket's calls are an input: what has arrived, and what each
-- `send` answers.
pub mod Moved
pub mod Arrivals
pub mod Flush
pub mod Drain
pub mod Activity
pub mod Requests
use warp_api.Prelude.{
  ℕ, zero, suc, ◌+◌, Bool, true, false, List, [], ◌∷◌, ◌++◌, ltb, ◌==◌, if◌then◌else◌, length, take,
  drop, arith,
}
use warp_api.Request.{reset}
use warp_api.Ring.{RingBuffer}
use warp_api.Session.Handler.{ProtocolMode, http, web_socket, Endpoints}
use warp_api.Session.Serve.{Run, done, fault, stuck, ◌>>=◌, Connection, consume}

-- `recv` behind the bytes that have arrived: EAGAIN, the end of the stream, or an error.
pub data RecvEnd : Type 0 where
  again end_of_stream failed : RecvEnd

-- One answer of `send`: a positive number of bytes, at most all that were given; EAGAIN; an error.
pub data SendAnswer : Type 0 where
  accepts : ℕ → SendAnswer
  would_block : SendAnswer
  broken : SendAnswer

-- The socket: the pieces that arrive, each a first byte and others, what follows them, the answers
-- of `send` (EAGAIN behind the last), and all the bytes that were sent.
pub record Socket : Type 0 where
  pub arriving : List (ℕ × List ℕ)
  pub ending : RecvEnd
  pub answers : List SendAnswer
  pub sent : List ℕ

pub data Received : Type 0 where
  got : List ℕ → Socket → Received
  nothing : Received
  ended : Received
  error : Received

-- The number of bytes that have arrived.
abbrev pub pending : List (ℕ × List ℕ) → ℕ
pending [] = 0
pending ((c, cs) ∷ more) = suc (length cs) + pending more

-- What is left of the pieces behind one that was cut.
put_back : List ℕ → List (ℕ × List ℕ) → List (ℕ × List ℕ)
put_back [] more = more
put_back (c ∷ cs) more = (c, cs) ∷ more

recv_end : RecvEnd → Received
recv_end again = nothing
recv_end end_of_stream = ended
recv_end failed = error

-- `recv` into a space, from the pieces.
recv_from : Socket → ℕ → List (ℕ × List ℕ) → Received
unfolding put_back recv_end
recv_from k space [] = recv_end k.ending
recv_from k space ((c, cs) ∷ more) =
    got (take space (c ∷ cs)) (record k { arriving = put_back (drop space (c ∷ cs)) more })

pub data Sent : Type 0 where
  took : ℕ → Socket → Sent
  blocked : Socket → Sent
  refused : Sent

-- `send`, by its answer. A count is cut to the bytes given.
pub send_to : Socket → List SendAnswer → List ℕ → Sent
send_to k [] bytes = blocked k
send_to k (accepts n ∷ more) bytes =
    let count = if ltb (length bytes) (suc n) then length bytes else suc n in
    took count (record k { answers = more; sent = k.sent ++ take count bytes })
send_to k (would_block ∷ more) bytes = blocked (record k { answers = more })
send_to k (broken ∷ more) bytes = refused

module _ (rb : RingBuffer) (sha1 : List ℕ → List ℕ) where
  open rb use {Buf, contents, read_region, advance_read, write_space, advance_write}

  -- A session with its read buffer and its socket; `is_open` is `_socket != SOCKET_ERROR_VALUE`.
  pub record Wire : Type 0 where
    pub conn : Connection rb sha1
    pub socket : Socket
    pub is_open : Bool

  abbrev pub out_of : Wire → Buf
  out_of w = w.conn.session.out

  -- `_writeBuffer.size()`
  abbrev pub backlog : Wire → ℕ
  backlog w = length (contents (out_of w))

  pub close : Wire → Wire
  close w = record w { is_open = false }

  abbrev set_keep_alive : Wire → Bool → Wire
  set_keep_alive w b = record w {
    conn = record w.conn { session = record w.conn.session { keep_alive = b } };
  }

  pub reset_request : ProtocolMode → Wire → Wire
  reset_request http w = record w {
    conn = record w.conn { session = record w.conn.session { req = reset w.conn.session.req } };
  }
  reset_request web_socket w = w

  on_write_complete : Wire → Wire
  unfolding reset_request close
  on_write_complete w =
      if w.conn.session.keep_alive then reset_request w.conn.session.mode w else close w

  -- `recv` and `send` on a closed descriptor fail.
  pub receive : Wire → ℕ → Received
  unfolding recv_from
  receive w space = if w.is_open then recv_from w.socket space w.socket.arriving else error

  send : Wire → List ℕ → Sent
  unfolding send_to
  send w bytes = if w.is_open then send_to w.socket w.socket.answers bytes else refused

  -- `if (_writeBuffer.size() == 0) onWriteComplete();`
  finish_write : Bool → Wire → Wire × Bool
  unfolding on_write_complete
  finish_write wrote w = (if backlog w == 0 then on_write_complete w else w, wrote)

  -- `_writeBuffer.advanceReadPos(n)`, behind a `send`.
  advance_out : Wire → ℕ → Socket → Wire
  advance_out w n k = record w {
    conn = record w.conn {
      session = record w.conn.session { out = advance_read w.conn.session.out n };
    };
    socket = k;
  }

  -- A round takes a byte of the write buffer at least.
  flush_loop : ℕ → Bool → Wire → Run (Wire × Bool)
  unfolding send finish_write advance_out close
  flush_loop zero wrote w = stuck
  flush_loop (suc fuel) wrote w = elim (read_region (out_of w)) [
    | [] ↦ done (finish_write wrote w)
    | c ∷ cs ↦ elim (send w (c ∷ cs)) [
      | took n k ↦ flush_loop fuel true (advance_out w n k)
      | blocked k ↦ done (finish_write wrote (record w { socket = k }))
      | refused ↦ done (close w, true)
    ]
  ]

  unfoldable pub on_write_ready : Wire → Run (Wire × Bool)
  unfolding flush_loop
  on_write_ready w =
      let flushed = flush_loop (suc (backlog w)) false w in
      if backlog w == 0 then done (w, false) else flushed

  -- The flush behind the reading, and whether bytes are left to write.
  flush_some : Wire → Run (Wire × Bool)
  unfolding on_write_ready
  flush_some w =
      let flushed = (do (w', _) ← on_write_ready w; done (w', ltb 0 (backlog w'))) in
      if ltb 0 (backlog w) then flushed else done (w, false)

  -- The bytes of a `recv` behind those in the read buffer.
  abbrev pub stored : Wire → List ℕ → Socket → Wire
  stored w bytes k = record w {
    conn = record w.conn { input = advance_write w.conn.input bytes };
    socket = k;
  }

  -- What follows a `recv` that gave bytes: whether the loop goes on, and its answer if not.
  after_consume : Wire → Connection rb sha1 × Bool → Run (Wire × Bool)
  unfolding flush_some close
  after_consume w (c, alive) =
      let lost = close (set_keep_alive (record w { conn = c }) false) in
      let flushed = flush_some (record w { conn = c }) in
      if alive then flushed else done (lost, true)

  module _ (max_body : ℕ) (ends : Endpoints rb sha1) where
    pub on_bytes : Wire → Run (Wire × Bool)
    unfolding consume after_consume
    on_bytes w = do r ← consume rb sha1 max_body ends w.conn.session.mode w.conn; after_consume w r

    -- A round takes a byte off the socket at least.
    pub read_loop : ℕ → Bool → Wire → Run (Wire × Bool)
    unfolding receive on_bytes
    read_loop zero seen w = stuck
    read_loop (suc fuel) seen w = elim (write_space w.conn.input) [
      | zero ↦ done (close w, true)
      | suc space ↦ elim (receive w (suc space)) [
        | nothing ↦ done (w, seen)
        | ended ↦ done (close w, true)
        | error ↦ done (close w, true)
        | got bytes k ↦ elim (on_bytes (stored w bytes k)) [
          | fault ↦ fault
          | stuck ↦ stuck
          | done (w', stop) ↦ elim stop [ true ↦ done (w', true) | false ↦ read_loop fuel true w' ]
        ]
      ]
    ]

    unfoldable pub on_read_ready : Wire → Run (Wire × Bool)
    unfolding read_loop
    on_read_ready w = read_loop (suc (pending w.socket.arriving)) false w
