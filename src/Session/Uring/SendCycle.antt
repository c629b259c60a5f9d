-- ===== src/Session/Uring/SendCycle.antt =====
-- A receive that completes requests, the send of their answer and its notification, in the io_uring
-- build.
use warp_api.Session.Uring.{
  recv, nop, on_active, freed, has_pending_io, Queue, Submission, Uring, backlog, close, completed,
  io_reading, io_waiting_zc, io_writing, is_set, kept, live, on_completion, on_event, on_read_ready,
  process_read, process_write, read_done, read_more, received, released, send_zc, set_closing,
  set_io, taken, update_io_state, with_sqe, write_done,
}
use warp_api.Session.Uring.Left.{read_more-conn}
use warp_api.Session.Uring.Submitted.{write_more-submitted}
use warp_api.Ring.{RingBuffer}
use warp_api.Session.Handler.{Endpoints}
use warp_api.Session.Serve.{Connection, consume, done}
use warp_api.Prelude.{
  Bool, Bool-cases, List, Option, [], ap, append-nil, append_assoc, arith, drop-of_le, false,
  if◌then◌else◌, if_cases, inl, inr, le_ltb-false, length, ltb, not, refl, some, suc, sym, true,
  zero_or_suc, ℕ, ◌&&◌, ◌++◌, ◌<◌, ◌∙◌, ◌∷◌, ◌≡◌,
}

module _ (rb : RingBuffer) (sha1 : List ℕ → List ℕ) (max_body : ℕ) (ends : Endpoints rb sha1) where
  open rb use {
    Buf, contents, read_region, write_space, advance_write, advance_write_contents,
    advance_read_contents,
  }

  -- At most one submission, which is no send.
  abbrev pub IsRead : List Submission → Type 0
  IsRead [] = Unit {0}
  IsRead (recv space ∷ []) = Unit {0}
  IsRead (nop ∷ []) = Unit {0}
  IsRead _ = ⊥

  on_read_ready-IsRead : (u : Uring rb sha1) → IsRead ((on_read_ready rb sha1 u).1 ∷ [])
  unfolding on_read_ready
  on_read_ready-IsRead u = elim (zero_or_suc (write_space u.conn.input)) [
    | inl e ↦ rw (e, on_read_ready) tt
    | inr (n, e) ↦ rw (e, on_read_ready) tt
  ]

  -- What `read_more` may submit stands behind what was submitted.
  read_more-entries :
      (u : Uring rb sha1) (q : Queue)
      → (tail : List Submission) × ((read_more rb sha1 (u, q)).1.entries ≡ q.entries ++ tail)
        × IsRead tail
  unfolding read_more
  read_more-entries u q =
      if_cases
        (λ (x : Uring rb sha1 × Queue).
          (tail : List Submission) × (x.1.entries ≡ q.entries ++ tail) × IsRead tail)
        (not (is_set u.io_flags io_reading) && not u.conn.session.closing)
        (with_sqe rb sha1 (on_read_ready rb sha1) (u, q)) (u, q)
        (λ _. elim (zero_or_suc q.free) [
          | inl e ↦ ([], rw e (sym (append-nil q.entries)), tt)
          | inr (n, e) ↦ ((on_read_ready rb sha1 u).1 ∷ [], rw e refl, on_read_ready-IsRead u)
        ])
        (λ _. ([], sym (append-nil q.entries), tt))

  -- A receive that completes requests, where no send is in flight and the ring has an entry.
  pub received-submitted :
      (u : Uring rb sha1) (q : Queue) (n c : ℕ) (cs : List ℕ) (c' : Connection rb sha1)
      → u.conn.session.closing ≡ false
      → is_set (update_io_state u.io_flags io_reading false) io_writing ≡ false
      → q.free ≡ suc n
      → consume rb sha1 max_body ends u.conn.session.mode
          (record u.conn { input = advance_write u.conn.input (c ∷ cs) })
        ≡ done (c', true)
      → 0 < length (contents c'.session.out)
      → read_region c'.session.out ≡ contents c'.session.out
      → (u' : Uring rb sha1) × (q' : Queue) × (tail : List Submission) × (on_event rb sha1 max_body
            ends
            (completed (read_done (received c cs)))
            u
            q
          ≡ done (live u' q'))
        × (u'.conn ≡ c')
        × (q'.entries ≡ q.entries ++ (send_zc (contents c'.session.out) ∷ tail))
        × IsRead tail
  unfolding on_event on_completion process_read taken
  received-submitted u q n c cs c' active idle free ran some_left whole =
      let u1 : Uring rb sha1 = record u {
        conn = c';
        io_flags = update_io_state u.io_flags io_reading false;
      } in
      let u2 : Uring rb sha1 = record u1 {
        io_flags = update_io_state u1.io_flags io_writing true;
      } in
      let q2 : Queue = record {
        free = n;
        entries = q.entries ++ (send_zc (read_region c'.session.out) ∷ []);
      } in
      let (tail, more, reads) = read_more-entries u2 q2 in
      (
        (read_more rb sha1 (u2, q2)).0,
        (read_more rb sha1 (u2, q2)).1,
        tail,
        rw
            (
              ran,
              write_more-submitted rb sha1 u1 q n free idle some_left,
              active,
              on_event,
              on_completion,
              process_read,
              taken,
            )
            refl,
        read_more-conn rb sha1 u2 q2,
        more
            ∙ append_assoc q.entries (send_zc (read_region c'.session.out) ∷ []) tail
            ∙ ap (λ bytes. q.entries ++ (send_zc bytes ∷ tail)) whole,
        reads,
      )

  -- The result of a send of so many bytes, whose notification is still to come.
  pub sent-locked :
      (u : Uring rb sha1) (q : Queue) (k : ℕ)
      → u.conn.session.closing ≡ false
      → (u' : Uring rb sha1) × (on_event rb sha1 max_body ends
            (completed (write_done (some k) true false))
            u
            q
          ≡ done (live u' q))
        × (u'.conn ≡ u.conn)
        × (u'.locked_zc_bytes ≡ k)
  unfolding on_event on_completion on_active process_write
  sent-locked u q k active = (
    record (set_io rb sha1 (set_io rb sha1 u io_waiting_zc true) io_writing false) {
      locked_zc_bytes = k;
    },
    rw (active, on_event, on_completion) refl,
    refl,
    refl,
  )

  abbrev AllLocked : Uring rb sha1 → Type 0
  AllLocked u = u.locked_zc_bytes ≡ length (contents u.conn.session.out)

  released_empty :
      (u : Uring rb sha1) → AllLocked u → contents (released rb sha1 u).conn.session.out ≡ []
  unfolding released
  released_empty u all =
      advance_read_contents u.conn.session.out u.locked_zc_bytes (omega (arith, all))
      ∙ drop-of_le u.locked_zc_bytes (contents u.conn.session.out) (omega (arith, all))

  process_write_notified :
      (u : Uring rb sha1) (q : Queue) (sent : Option ℕ)
      → AllLocked u
      → (u' : Uring rb sha1) × (alive : Bool) × (process_write rb sha1 sent true (u, q)
          ≡ ((u', q), alive))
        × (contents u'.conn.session.out ≡ [])
  unfolding process_write
  process_write_notified u q sent all =
      let empty = released_empty u all in
      let nothing : ltb 0 (backlog rb sha1 (released rb sha1 u)) ≡ false =
        le_ltb-false 0 (backlog rb sha1 (released rb sha1 u)) (omega (arith, ap length empty)) in
      elim (Bool-cases (not (released rb sha1 u).conn.session.keep_alive)) [
        | inl e ↦
            (close rb sha1 (released rb sha1 u), false, rw (nothing, e, process_write) refl, empty)
        | inr e ↦ (released rb sha1 u, true, rw (nothing, e, process_write) refl, empty)
      ]

  kept-live :
      (u : Uring rb sha1) (q : Queue) (alive : Bool)
      → contents u.conn.session.out ≡ []
      → (u' : Uring rb sha1) × (kept rb sha1 ((u, q), alive) ≡ live u' q)
        × (contents u'.conn.session.out ≡ [])
  kept-live u q true e = (u, refl, e)
  kept-live u q false e = (set_closing rb sha1 u, refl, e)

  -- The notification for all the bytes of the buffer.
  pub notified-empty :
      (u : Uring rb sha1) (q : Queue) (sent : Option ℕ)
      → u.conn.session.closing ≡ false
      → AllLocked u
      → (u' : Uring rb sha1) × (on_event rb sha1 max_body ends
            (completed (write_done sent false true))
            u
            q
          ≡ done (live u' q))
        × (contents u'.conn.session.out ≡ [])
  unfolding on_event on_completion on_active
  notified-empty u q sent active all =
      let (u', alive, ran, empty) = process_write_notified u q sent all in
      let (u'', lives, none_left) = kept-live u' q alive empty in
      (
        u'',
        ap
              (λ (b : Bool).
                if b
                then done (if has_pending_io rb sha1 u then live u q else freed q)
                else done (kept rb sha1 (process_write rb sha1 sent true (u, q))))
              active
            ∙ ap (λ x. done (kept rb sha1 x)) ran
            ∙ ap (λ x. done x) lives,
        none_left,
      )
