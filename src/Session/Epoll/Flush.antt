-- ===== src/Session/Epoll/Flush.antt =====
-- `onWriteReady`: the bytes of the write buffer go to the socket in their order.
use warp_api.Prelude.{
  list_cases, ap₂, ◌&&◌, if_cases, ℕ, zero, suc, ◌+◌, ◌≤◌, ◌<◌, ◌≡◌, refl, ap, sym, ◌∙◌, Bool, true,
  false, List, ◌∷◌, ◌++◌, append_assoc, ◌==◌, length, length-append, take, drop, length-drop, arith,
  Bool-cases, inl, inr, ◌⊎◌,
}
use warp_api.Ring.{RingBuffer}
use warp_api.Session.Serve.{Run, done}
use warp_api.Session.Epoll.{
  Socket, send, Wire, out_of, backlog, close, reset_request, on_write_complete, finish_write,
  advance_out, flush_loop, on_write_ready,
}
use warp_api.Session.Epoll.Moved.{
  rejoin, SentFits, send_to-SentFits, Sent-cases, Moved, Moved-trans, Moved-refl, close-Moved,
  with_socket-Moved, reset_request-Moved, reset_request-open,
}

module _ (rb : RingBuffer) (sha1 : List ℕ → List ℕ) where
  open rb use {
    Buf, contents, read_region, read_region_prefix, read_region_progress, advance_read,
    advance_read_contents,
  }

  -- The bytes are conserved, and behind the last of them the connection is closed exactly if it is
  -- not kept alive.
  pub record Flushed (w w' : Wire rb sha1) : Type 0 where
    pub moved : Moved rb sha1 w w'
    pub last : (0 < backlog rb sha1 w') ⊎ (w'.is_open ≡ (w.conn.session.keep_alive && w.is_open))

  on_write_complete-Flushed :
      (w : Wire rb sha1)
      → Moved rb sha1 w (on_write_complete rb sha1 w)
        × ((on_write_complete rb sha1 w).is_open ≡ (w.conn.session.keep_alive && w.is_open))
  unfolding on_write_complete
  on_write_complete-Flushed w =
      if_cases (λ w'. Moved rb sha1 w w' × (w'.is_open ≡ (w.conn.session.keep_alive && w.is_open)))
        w.conn.session.keep_alive (reset_request rb sha1 w.conn.session.mode w) (close rb sha1 w)
        (λ k. (
          reset_request-Moved rb sha1 w.conn.session.mode w,
          reset_request-open rb sha1 w.conn.session.mode w ∙ sym (ap (λ b. b && w.is_open) k),
        ))
        (λ k. (close-Moved rb sha1 w, sym (ap (λ b. b && w.is_open) k)))

  finish_write-Flushed :
      (w : Wire rb sha1) (wrote : Bool) → Flushed w (finish_write rb sha1 wrote w).0
  unfolding finish_write
  finish_write-Flushed w wrote =
      if_cases (Flushed w) (backlog rb sha1 w == 0) (on_write_complete rb sha1 w) w
        (λ e. record {
          moved = (on_write_complete-Flushed w).0;
          last = inr (on_write_complete-Flushed w).1;
        })
        (λ e. record { moved = Moved-refl rb sha1 w; last = inl (ground arith) })

  send-SentFits :
      (w : Wire rb sha1) (c : ℕ) (cs : List ℕ)
      → SentFits w.socket (c ∷ cs) (send rb sha1 w (c ∷ cs))
  unfolding send
  send-SentFits w c cs = elim (Bool-cases w.is_open) [
    | inl e ↦ rw (e, send) (send_to-SentFits w.socket w.socket.answers c cs)
    | inr e ↦ rw (e, send) tt
  ]

  -- The loop with enough fuel gives such a connection.
  abbrev Flushes : Wire rb sha1 → Run (Wire rb sha1 × Bool) → Type 0
  Flushes w r = (w' : Wire rb sha1) × (b : Bool) × (r ≡ done (w', b)) × Flushed w w'

  Flushed-later :
      (a b c : Wire rb sha1) → Moved rb sha1 a b → b.is_open ≡ a.is_open → Flushed b c → Flushed a c
  Flushed-later a b c h o f = record {
    moved = Moved-trans rb sha1 a b c h f.moved;
    last = elim f.last [ inl p ↦ inl p | inr e ↦ inr (rw (h.keep_alive_kept, o) at e) ];
  }

  advance_out-Moved :
      (w : Wire rb sha1) (n : ℕ) (k : Socket) (bytes : List ℕ)
      → read_region (out_of rb sha1 w) ≡ bytes
      → n ≤ length bytes
      → k.sent ≡ w.socket.sent ++ take n bytes
      → k.arriving ≡ w.socket.arriving
      → Moved rb sha1 w (advance_out rb sha1 w n k)
        × (backlog rb sha1 (advance_out rb sha1 w n k) + n ≡ backlog rb sha1 w)
  unfolding advance_out
  advance_out-Moved w n k bytes region fits sent arriving =
      let (rest, split) = read_region_prefix (out_of rb sha1 w) in
      let fits' : n ≤ length (contents (out_of rb sha1 w)) = omega (
        arith,
        ap length split,
        length-append (read_region (out_of rb sha1 w)) rest,
        ap length region,
      ) in
      let gone = advance_read_contents (out_of rb sha1 w) n fits' in
      (
        record {
          conserved =
              ap₂ ◌++◌ sent gone
              ∙ append_assoc w.socket.sent (take n bytes) (drop n (contents (out_of rb sha1 w)))
              ∙ ap (◌++◌ w.socket.sent) (
                  rejoin n bytes rest (contents (out_of rb sha1 w)) fits
                    (split ∙ ap (λ t. t ++ rest) region));
          arriving_kept = arriving;
          input_kept = refl;
          mode_kept = refl;
          keep_alive_kept = refl;
          plain_kept = λ p. p;
        },
        omega (arith, ap length gone, length-drop n (contents (out_of rb sha1 w)), fits'),
      )

  flush_loop-Flushes :
      (fuel : ℕ) (wrote : Bool) (w : Wire rb sha1)
      → backlog rb sha1 w < fuel
      → Flushes w (flush_loop rb sha1 fuel wrote w)
  unfolding flush_loop
  flush_loop-Flushes zero wrote w lt = absurd (omega arith)
  flush_loop-Flushes (suc fuel) wrote w lt = elim (list_cases (read_region (out_of rb sha1 w))) [
    | inl e ↦ (
      (finish_write rb sha1 wrote w).0,
      (finish_write rb sha1 wrote w).1,
      rw (e, flush_loop),
      finish_write-Flushed w wrote,
    )
    | inr (c, cs, e) ↦ elim (Sent-cases (send rb sha1 w (c ∷ cs))) [
      | inl (n, k, s) ↦
          let (pos, fits, sent, arriving) = rw s at (send-SentFits w c cs) in
          let (moved, fewer) = advance_out-Moved w n k (c ∷ cs) e fits sent arriving in
          let (w', b, ran, flushed) =
            flush_loop-Flushes fuel true (advance_out rb sha1 w n k) (omega arith) in
          (
            w',
            b,
            rw (e, flush_loop, s) ran,
            Flushed-later w (advance_out rb sha1 w n k) w' moved refl flushed,
          )
      | inr (inl (k, s)) ↦
          let (sent, arriving) = rw s at (send-SentFits w c cs) in
          (
            (finish_write rb sha1 wrote (record w { socket = k })).0,
            (finish_write rb sha1 wrote (record w { socket = k })).1,
            rw (e, flush_loop, s),
            Flushed-later w (record w { socket = k })
                (finish_write rb sha1 wrote (record w { socket = k })).0
                (with_socket-Moved rb sha1 w k sent arriving) refl
                (finish_write-Flushed (record w { socket = k }) wrote),
          )
      | inr (inr s) ↦ (
        close rb sha1 w,
        true,
        rw (e, flush_loop, s),
        record { moved = close-Moved rb sha1 w; last = inl (ne c cs e) },
      )
    ]
  ]
    where
      ne : (c : ℕ) (cs : List ℕ) → read_region (out_of rb sha1 w) ≡ c ∷ cs → 0 < backlog rb sha1 w
      ne c cs e =
          let (rest, split) = read_region_prefix (out_of rb sha1 w) in
          omega (
            arith,
            ap length split,
            length-append (read_region (out_of rb sha1 w)) rest,
            ap length e,
          )

  -- `onWriteReady` on a connection with bytes to write ends. The bytes sent and those that are left
  -- to write are together what they were before, in their order; and if none is left, the
  -- connection is closed unless it is kept alive.
  pub on_write_ready-Flushed :
      (w : Wire rb sha1)
      → 0 < backlog rb sha1 w
      → (w' : Wire rb sha1) × (b : Bool) × (on_write_ready rb sha1 w ≡ done (w', b)) × Flushed w w'
  unfolding on_write_ready
  on_write_ready-Flushed w some_left =
      let (w', b, ran, flushed) =
        flush_loop-Flushes (suc (backlog rb sha1 w)) false w (omega arith) in
      (w', b, rw (no, on_write_ready) ran, flushed)
    where
      no : (backlog rb sha1 w == 0) ≡ false
      no = ground arith
