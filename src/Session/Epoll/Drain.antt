-- ===== src/Session/Epoll/Drain.antt =====
-- `onReadReady`: it ends, and what arrived is received unless the connection is closed or has bytes
-- left to write.
use warp_api.Session.Serve.{Connection, Run, consume, done, fault, parser_of, stuck, ◌>>=◌}
use warp_api.Session.Serve.Consumed.{Consumed, Left, consume-Consumed, consumed}
use warp_api.Session.Handler.{Endpoints}
use warp_api.Session.Parser.Bounds.{HasPlainHeaders}
use warp_api.Ring.{RingBuffer}
use warp_api.Session.Epoll.{
  after_consume, flush_some, Wire, backlog, close, on_bytes, on_read_ready, on_write_ready, pending,
  read_loop, receive, stored,
}
use warp_api.Session.Epoll.Flush.{on_write_ready-Flushed}
use warp_api.Session.Epoll.Arrivals.{Received-cases, receive-RecvFits}
use warp_api.Prelude.{
  Bool, List, [], ap, arith, false, if_cases, inl, inr, length, length-append, ltb, refl, suc, true,
  zero, zero_or_suc, ℕ, ◌+◌, ◌<◌, ◌^◌, ◌≡◌, ◌⊎◌, ◌≤◌,
}

module _ (rb : RingBuffer) (sha1 : List ℕ → List ℕ) where
  open rb use {Buf, contents, write_space, advance_write, advance_write_contents}

  -- The connection is closed, or bytes are left to write.
  abbrev pub IsHeld : Wire rb sha1 → Type 0
  IsHeld w = (w.is_open ≡ false) ⊎ (0 < backlog rb sha1 w)

  -- What a call behind a `recv` leaves.
  record Kept (w w' : Wire rb sha1) : Type 0 where
    pub left : Left rb sha1 w.conn w'.conn
    pub arriving_kept : w'.socket.arriving ≡ w.socket.arriving

  data Stepped (w : Wire rb sha1) : Run (Wire rb sha1 × Bool) → Type 0 where
    stepped :
        {w' : Wire rb sha1} {stop : Bool}
        → Kept w w'
        → (stop ≡ true → IsHeld w')
        → Stepped w (done (w', stop))
    faulted : Stepped w fault

  Stepped-before :
      (w : Wire rb sha1) (c : Connection rb sha1)
      → Left rb sha1 w.conn c
      → (r : Run (Wire rb sha1 × Bool)) → Stepped (record w { conn = c }) r
      → Stepped w r
  Stepped-before w c left (done (w', stop)) (stepped kept held) =
      stepped
        (record {
          left = record {
            plain = kept.left.plain;
            fewer = omega (arith, kept.left.fewer, left.fewer);
          };
          arriving_kept = kept.arriving_kept;
        })
        held
  Stepped-before w c left fault s = Stepped.faulted
  Stepped-before w c left stuck s = elim s [ ]

  flush_some-Stepped :
      (w : Wire rb sha1)
      → HasPlainHeaders (parser_of rb sha1 w.conn.session)
      → Stepped w (flush_some rb sha1 w)
  unfolding flush_some
  flush_some-Stepped w plain =
      if_cases (Stepped w) (ltb 0 (backlog rb sha1 w))
        (do (w', _) ← on_write_ready rb sha1 w; done (w', ltb 0 (backlog rb sha1 w')))
        (done (w, false))
        (λ some_left.
          let (w', b, ran, flushed) = on_write_ready-Flushed rb sha1 w (ground arith) in
          rw ran (
            stepped
              (record {
                left = record {
                  plain = flushed.moved.plain_kept plain;
                  fewer = omega (arith, ap (λ i. length (contents i)) flushed.moved.input_kept);
                };
                arriving_kept = flushed.moved.arriving_kept;
              })
              (λ e. inr (ground arith))))
        (λ _.
          stepped
            (record { left = record { plain = plain; fewer = omega arith }; arriving_kept = refl })
            (λ e. absurd (ground arith)))

  after_consume-Stepped :
      (w : Wire rb sha1) (c : Connection rb sha1) (alive : Bool)
      → Left rb sha1 w.conn c
      → Stepped w (after_consume rb sha1 w (c, alive))
  unfolding after_consume close
  after_consume-Stepped w c true left =
      Stepped-before w c left (flush_some rb sha1 (record w { conn = c }))
        (flush_some-Stepped (record w { conn = c }) left.plain)
  after_consume-Stepped w c false left =
      stepped
        (record { left = record { plain = left.plain; fewer = left.fewer }; arriving_kept = refl })
        (λ _. inl refl)

  module _ (max_body : ℕ) (ends : Endpoints rb sha1) where
    on_bytes-Stepped :
        (w : Wire rb sha1)
        → HasPlainHeaders (parser_of rb sha1 w.conn.session)
        → max_body + 14 + length (contents w.conn.input) < 2 ^ 64
        → Stepped w (on_bytes rb sha1 max_body ends w)
    unfolding on_bytes
    on_bytes-Stepped w plain room =
        go (consume rb sha1 max_body ends w.conn.session.mode w.conn)
          (consume-Consumed rb sha1 max_body ends w.conn.session.mode w.conn plain room)
      where
        go :
            (r : Run (Connection rb sha1 × Bool))
            → Consumed rb sha1 w.conn r
            → Stepped w (do x ← r; after_consume rb sha1 w x)
        go (done (c, alive)) (consumed left) = after_consume-Stepped w c alive left
        go fault e = Stepped.faulted
        go stuck e = elim e [ ]

  -- The bytes that are still to be parsed.
  abbrev pub load : Wire rb sha1 → ℕ
  load w = length (contents w.conn.input) + pending w.socket.arriving

  -- How the reading leaves a connection: the parser can go on, with no more bytes before it.
  pub data Drained (n : ℕ) : Run (Wire rb sha1 × Bool) → Type 0 where
    drained :
        {w : Wire rb sha1} {seen : Bool}
        → HasPlainHeaders (parser_of rb sha1 w.conn.session)
        → load w ≤ n
        → IsHeld w ⊎ (w.socket.arriving ≡ [])
        → Drained n (done (w, seen))
    faulted : Drained n fault

  module _ (max_body : ℕ) (ends : Endpoints rb sha1) where
    -- What the parser counts stays below 2 ^ 64.
    abbrev pub HasRoom : Wire rb sha1 → Type 0
    HasRoom w = max_body + 14 + length (contents w.conn.input) + pending w.socket.arriving < 2 ^ 64

    module _ (n : ℕ) (room : max_body + 14 + n < 2 ^ 64) where
      -- A round, by what holds of the rounds behind it.
      round-Drained :
          (fuel : ℕ) (w : Wire rb sha1)
          → ((w' : Wire rb sha1)
              → HasPlainHeaders (parser_of rb sha1 w'.conn.session)
              → load w' ≤ n
              → pending w'.socket.arriving < fuel
              → Drained n (read_loop rb sha1 max_body ends fuel true w'))
          → (r : Run (Wire rb sha1 × Bool)) → Stepped w r
          → load w ≤ n
          → pending w.socket.arriving < fuel
          → Drained n (elim r [
            | fault ↦ fault
            | stuck ↦ stuck
            | done (w', stop) ↦ elim stop [
              | true ↦ done (w', true)
              | false ↦ read_loop rb sha1 max_body ends fuel true w'
            ]
          ])
      round-Drained fuel w next (done (w', true)) (stepped kept held) most lt =
          drained kept.left.plain
            (omega (arith, most, kept.left.fewer, ap pending kept.arriving_kept)) (inl (held refl))
      round-Drained fuel w next (done (w', false)) (stepped kept held) most lt =
          next w' kept.left.plain
            (omega (arith, most, kept.left.fewer, ap pending kept.arriving_kept))
            (omega (arith, ap pending kept.arriving_kept))
      round-Drained fuel w next fault s most lt = Drained.faulted
      round-Drained fuel w next stuck s most lt = elim s [ ]

      read_loop-Drained :
          (fuel : ℕ) (seen : Bool) (w : Wire rb sha1)
          → HasPlainHeaders (parser_of rb sha1 w.conn.session)
          → load w ≤ n
          → pending w.socket.arriving < fuel
          → Drained n (read_loop rb sha1 max_body ends fuel seen w)
      unfolding read_loop close
      read_loop-Drained zero seen w plain most lt = absurd (omega arith)
      read_loop-Drained (suc fuel) seen w plain most lt =
          elim (zero_or_suc (write_space w.conn.input)) [
            | inl full ↦ rw (full, read_loop) (drained plain most (inl (inl refl)))
            | inr (space, e) ↦ elim (Received-cases (receive rb sha1 w (suc space))) [
              | inl (bytes, k, r) ↦
                  let (some_bytes, fit, fewer) = rw r at (receive-RecvFits rb sha1 w space) in
                  let left = advance_write_contents w.conn.input bytes (omega arith) in
                  let longer = length-append (contents w.conn.input) bytes in
                  rw (e, r, read_loop)
                    (round-Drained fuel (stored rb sha1 w bytes k)
                      (λ w' p most' lt'. read_loop-Drained fuel true w' p most' lt')
                      (on_bytes rb sha1 max_body ends (stored rb sha1 w bytes k))
                      (on_bytes-Stepped max_body ends (stored rb sha1 w bytes k) plain
                        (omega (arith, ap length left)))
                      (omega (arith, ap length left)) (omega arith))
              | inr (inl r) ↦
                  rw (e, r, read_loop)
                    (drained plain most (inr (rw r at (receive-RecvFits rb sha1 w space))))
              | inr (inr (inl r)) ↦ rw (e, r, read_loop) (drained plain most (inl (inl refl)))
              | inr (inr (inr r)) ↦ rw (e, r, read_loop) (drained plain most (inl (inl refl)))
            ]
          ]

    -- `onReadReady` ends on every input, whatever the endpoints, the callbacks and the socket do:
    -- with an access outside an array, or with a connection that is closed, or that has bytes left
    -- to write, or off whose socket everything that arrived was received; the parser can go on, with
    -- no more bytes before it than there were. The present headers have to be those that the parser
    -- can leave, and are so again.
    pub on_read_ready-Drained :
        (w : Wire rb sha1)
        → HasPlainHeaders (parser_of rb sha1 w.conn.session)
        → HasRoom w
        → Drained (load w) (on_read_ready rb sha1 max_body ends w)
    unfolding on_read_ready
    on_read_ready-Drained w plain room =
        read_loop-Drained (load w) (omega (arith, room)) (suc (pending w.socket.arriving)) false w
          plain (omega arith) (omega arith)
