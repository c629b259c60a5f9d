-- ===== src/Session/Uring.antt =====
-- The io_uring build of src/Server/Session.cpp and Session.h, and what `runWorker` of
-- src/EventLoop/EventLoop.cpp does with a session: the submissions, the completions and the timer.
pub mod Submitted
pub mod Leak
pub mod Balance
pub mod Receives
pub mod Resend
pub mod Left
pub mod Settled
pub mod SendCycle
pub mod Answered
use warp_api.Prelude.{
  ℕ, zero, suc, ◌-◌, bit_and, bit_or, Bool, true, false, not, ◌&&◌, Option, none, some, List, [],
  ◌∷◌, ◌++◌, ltb, ◌==◌, if◌then◌else◌, length, arith,
}
use warp_api.Ring.{RingBuffer}
use warp_api.Session.Handler.{ProtocolMode, Endpoints}
use warp_api.Session.Serve.{Run, done, fault, stuck, ◌>>=◌, Connection, consume}

-- `IoStateFlags`
abbrev pub io_none : ℕ
io_none = 0

abbrev pub io_reading : ℕ
io_reading = 1

abbrev pub io_writing : ℕ
io_writing = 2

abbrev pub io_waiting_zc : ℕ
io_waiting_zc = 4

-- `updateIoState`, on a byte.
unfoldable pub update_io_state : ℕ → ℕ → Bool → ℕ
update_io_state flags flag active = if active then bit_or flags flag else bit_and flags (255 - flag)

abbrev pub is_set : ℕ → ℕ → Bool
is_set flags flag = not (bit_and flags flag == 0)

-- What a submission asks of the kernel: `io_uring_prep_recv` with the space,
-- `io_uring_prep_send_zc` with the bytes, `io_uring_prep_nop` with no data.
pub data Submission : Type 0 where
  recv : ℕ → Submission
  send_zc : List ℕ → Submission
  nop : Submission

-- The submission ring: the entries that `io_uring_get_sqe` can still give, and what was submitted,
-- the last at the end.
pub record Queue : Type 0 where
  pub free : ℕ
  pub entries : List Submission

-- A completed receive: its bytes, or a count that is not positive.
pub data ReadResult : Type 0 where
  received : ℕ → List ℕ → ReadResult
  lost : ReadResult

-- A completion: of a `nop`; of a receive; or of a send, with its count (`none` is negative), and its
-- two flags, that more follows and that it is the notification.
pub data Completion : Type 0 where
  nop_done : Completion
  read_done : ReadResult → Completion
  write_done : Option ℕ → Bool → Bool → Completion

-- What happens to a session: a completion, its timeout, and an `io_uring_submit`, behind which so
-- many entries are free.
pub data Event : Type 0 where
  completed : Completion → Event
  expired : Event
  submitted : ℕ → Event

module _ (rb : RingBuffer) (sha1 : List ℕ → List ℕ) where
  open rb use {Buf, contents, read_region, advance_read, write_space, advance_write}

  -- A session with its read buffer; `is_open` is `_socket != SOCKET_ERROR_VALUE`. Its status is
  -- `closing` of the session, and that of a freed one is not kept.
  pub record Uring : Type 0 where
    pub conn : Connection rb sha1
    pub is_open : Bool
    pub io_flags : ℕ
    pub locked_zc_bytes : ℕ

  abbrev pub out_of : Uring → Buf
  out_of u = u.conn.session.out

  abbrev pub backlog : Uring → ℕ
  backlog u = length (contents (out_of u))

  abbrev pub has_pending_io : Uring → Bool
  has_pending_io u = not (u.io_flags == 0)

  abbrev pub close : Uring → Uring
  close u = record u { is_open = false }

  abbrev pub set_closing : Uring → Uring
  set_closing u = record u {
    conn = record u.conn { session = record u.conn.session { closing = true } };
  }

  abbrev pub set_keep_alive : Uring → Bool → Uring
  set_keep_alive u b = record u {
    conn = record u.conn { session = record u.conn.session { keep_alive = b } };
  }

  abbrev pub set_io : Uring → ℕ → Bool → Uring
  set_io u flag active = record u { io_flags = update_io_state u.io_flags flag active }

  pub on_read_ready : Uring → Uring × Submission
  unfolding update_io_state
  on_read_ready u = elim (write_space u.conn.input) [
    | zero ↦ (close u, nop)
    | suc space ↦ (set_io u io_reading true, recv (suc space))
  ]

  pub on_write_ready : Uring → Uring × Submission
  unfolding update_io_state
  on_write_ready u = elim (read_region (out_of u)) [
    | [] ↦ (close u, nop)
    | c ∷ cs ↦ (set_io u io_writing true, send_zc (c ∷ cs))
  ]

  -- `if (sqe) prepare(sqe);`
  abbrev pub with_sqe : (Uring → Uring × Submission) → Uring × Queue → Uring × Queue
  with_sqe prepare (u, q) = elim q.free [
    | zero ↦ (u, q)
    | suc n ↦ ((prepare u).0, record { free = n; entries = q.entries ++ ((prepare u).1 ∷ []) })
  ]

  -- The two submissions behind the bytes that were read.
  pub write_more : Uring × Queue → Uring × Queue
  unfolding on_write_ready
  write_more (u, q) =
      if ltb 0 (backlog u) && not (is_set u.io_flags io_writing)
      then with_sqe on_write_ready (u, q)
      else (u, q)

  pub read_more : Uring × Queue → Uring × Queue
  unfolding on_read_ready
  read_more (u, q) =
      if not (is_set u.io_flags io_reading) && not u.conn.session.closing
      then with_sqe on_read_ready (u, q)
      else (u, q)

  -- The session behind its bytes; `processFrames` has answered false where `alive` is false.
  pub taken : Uring → Connection rb sha1 × Bool → Uring
  taken u (c, alive) =
      let u' : Uring = record u { conn = c } in
      if alive then u' else set_keep_alive (set_closing u') false

  -- A receive that failed, or the end of the stream.
  pub read_lost : Uring → Uring × Bool
  read_lost u =
      if backlog u == 0 then (close u, false) else (set_closing (set_keep_alive u false), true)

  -- The notification: the bytes that the kernel took leave the buffer.
  pub released : Uring → Uring
  unfolding update_io_state
  released u = record (set_io u io_waiting_zc false) {
    conn = record u.conn {
      session = record u.conn.session { out = advance_read u.conn.session.out u.locked_zc_bytes };
    };
    locked_zc_bytes = 0;
  }

  pub process_write : Option ℕ → Bool → Uring × Queue → (Uring × Queue) × Bool
  unfolding on_write_ready update_io_state released
  process_write sent true (u, q) =
      let u' = released u in
      if ltb 0 (backlog u')
      then (with_sqe on_write_ready (u', q), true)
      else if not u'.conn.session.keep_alive
      then ((close u', q), false)
      else ((u', q), true)
  process_write none false (u, q) = ((close (set_io u io_writing false), q), false)
  process_write (some n) false (u, q) =
      ((record (set_io u io_writing false) { locked_zc_bytes = n }, q), true)

  -- The session with the ring, or the ring behind `tryFreeSession`.
  pub data Slot : Type 0 where
    live : Uring → Queue → Slot
    freed : Queue → Slot

  -- An accepted session, whose first receive is submitted where the ring has an entry.
  unfoldable pub on_accept : Uring → Queue → Slot
  unfolding on_read_ready
  on_accept u q = elim q.free [
    | zero ↦ freed q
    | suc n ↦
        live (on_read_ready u).0
          (record { free = n; entries = q.entries ++ ((on_read_ready u).1 ∷ []) })
  ]

  -- What the loop does with the answer of `processRead` and `processWrite`.
  abbrev pub kept : (Uring × Queue) × Bool → Slot
  kept ((u, q), alive) = live (if alive then u else set_closing u) q

  -- `processExpired`
  pub on_expired : Uring → Queue → Slot
  on_expired u q = if has_pending_io u then live (close (set_closing u)) q else freed q

  module _ (max_body : ℕ) (ends : Endpoints rb sha1) where
    pub process_read : ReadResult → Uring × Queue → Run ((Uring × Queue) × Bool)
    unfolding update_io_state read_lost taken write_more read_more consume
    process_read lost (u, q) =
        let (u', alive) = read_lost (set_io u io_reading false) in done ((u', q), alive)
    process_read (received c cs) (u, q) = do
      let u' : Uring = record (set_io u io_reading false) {
        conn = record u.conn { input = advance_write u.conn.input (c ∷ cs) };
      }
      r ← consume rb sha1 max_body ends u'.conn.session.mode u'.conn
      done (read_more (write_more (taken u' r, q)), true)

    -- A completion of an active session. The completion of a `nop` has no request, which the loop
    -- reads all the same.
    on_active : Completion → Uring → Queue → Run Slot
    unfolding process_read process_write update_io_state
    on_active nop_done u q = fault
    on_active (read_done r) u q = do x ← process_read r (u, q); done (kept x)
    on_active (write_done sent more notif) u q =
        done (kept (process_write sent notif (if more then set_io u io_waiting_zc true else u, q)))

    -- A completion: a closing session with no flag set is freed, one with a flag is left alone.
    pub on_completion : Completion → Uring → Queue → Run Slot
    unfolding on_active
    on_completion c u q =
        let active = on_active c u q in
        let closing = done (if has_pending_io u then live u q else freed q) in
        elim c [ nop_done ↦ fault | _ ↦ if u.conn.session.closing then closing else active ]

    unfoldable pub on_event : Event → Uring → Queue → Run Slot
    unfolding on_completion on_expired
    on_event (completed c) u q = on_completion c u q
    on_event expired u q = done (on_expired u q)
    on_event (submitted n) u q = done (live u (record q { free = n }))

    -- The events of a session, in their order, up to its end.
    pub run_events : List Event → Uring → Queue → Run Slot
    unfolding on_event
    run_events [] u q = done (live u q)
    run_events (e ∷ es) u q = elim (on_event e u q) [
      | fault ↦ fault
      | stuck ↦ stuck
      | done (freed q') ↦ done (freed q')
      | done (live u' q') ↦ run_events es u' q'
    ]
