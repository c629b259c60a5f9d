-- ===== src/Session/Uring/Resend.antt =====
-- A receive of the io_uring build that completes while the kernel still holds the bytes of a send.
use warp_api.Prelude.{
  ℕ, suc, ◌<◌, ◌≡◌, refl, ap, sym, ◌∙◌, Bool, true, false, not, Option, some, List, [], ◌∷◌, ◌++◌,
  append-nil, append_assoc, length, arith, zero_or_suc, inl, inr, all_below, all_below_sound,
  if_cases, if◌then◌else◌,
}
use warp_api.Ring.{RingBuffer}
use warp_api.Session.Handler.{Endpoints}
use warp_api.Session.Serve.{done, Connection, consume}
use warp_api.Session.Uring.{
  Submission, send_zc, Queue, received, ReadResult, has_pending_io, freed, on_active, read_done,
  write_done, completed, io_writing, io_reading, io_waiting_zc, is_set, update_io_state, Uring,
  backlog, on_read_ready, with_sqe, read_more, taken, process_read, process_write, live,
  on_completion, on_event, run_events,
}
use warp_api.Session.Uring.Submitted.{write_more-submitted}

-- The flags behind the result of a send, and then behind a receive.
abbrev sent_flags : ℕ → ℕ
sent_flags flags = update_io_state (update_io_state flags io_waiting_zc true) io_writing false

sent_idle :
    (flags : ℕ)
    → flags < 8
    → is_set (update_io_state (sent_flags flags) io_reading false) io_writing ≡ false
unfolding update_io_state all_below
sent_idle flags h =
    let e =
      all_below_sound 8
        (λ f. not (is_set (update_io_state (sent_flags f) io_reading false) io_writing)) flags refl
        h in
    ground arith

module _ (rb : RingBuffer) (sha1 : List ℕ → List ℕ) where
  open rb use {contents, read_region, write_space, advance_write}

  -- The ring has further entries, and the bytes that the kernel took are as they were.
  abbrev Extends : Uring rb sha1 × Queue → Uring rb sha1 × Queue → Type 0
  Extends (u, q) (u', q') =
      ((rest : List Submission) × (q'.entries ≡ q.entries ++ rest))
      × (u'.locked_zc_bytes ≡ u.locked_zc_bytes)

  on_read_ready-locked :
      (u : Uring rb sha1) → (on_read_ready rb sha1 u).0.locked_zc_bytes ≡ u.locked_zc_bytes
  unfolding on_read_ready
  on_read_ready-locked u = elim (zero_or_suc (write_space u.conn.input)) [
    | inl e ↦ rw (e, on_read_ready) refl
    | inr (n, e) ↦ rw (e, on_read_ready) refl
  ]

  read_more-Extends : (u : Uring rb sha1) (q : Queue) → Extends (u, q) (read_more rb sha1 (u, q))
  unfolding read_more
  read_more-Extends u q =
      if_cases (Extends (u, q)) _ (with_sqe rb sha1 (on_read_ready rb sha1) (u, q)) (u, q)
        (λ _. elim (zero_or_suc q.free) [
          | inl e ↦ rw (e, with_sqe) (([], sym (append-nil q.entries)), refl)
          | inr (n, e) ↦
              rw (e, with_sqe) (((on_read_ready rb sha1 u).1 ∷ [], refl), on_read_ready-locked u)
        ])
        (λ _. (([], sym (append-nil q.entries)), refl))

  module _ (max_body : ℕ) (ends : Endpoints rb sha1) where
    active_write :
        (u : Uring rb sha1) (q : Queue) (sent : Option ℕ) (more notif : Bool)
        → u.conn.session.closing ≡ false
        → on_event rb sha1 max_body ends (completed (write_done sent more notif)) u q
          ≡ on_active rb sha1 max_body ends (write_done sent more notif) u q
    unfolding on_event on_completion
    active_write u q sent more notif active =
        ap
          (λ b.
            if b
            then done (if has_pending_io rb sha1 u then live u q else freed q)
            else on_active rb sha1 max_body ends (write_done sent more notif) u q)
          active

    active_read :
        (u : Uring rb sha1) (q : Queue) (r : ReadResult)
        → u.conn.session.closing ≡ false
        → on_event rb sha1 max_body ends (completed (read_done r)) u q
          ≡ on_active rb sha1 max_body ends (read_done r) u q
    unfolding on_event on_completion
    active_read u q r active =
        ap
          (λ b.
            if b
            then done (if has_pending_io rb sha1 u then live u q else freed q)
            else on_active rb sha1 max_body ends (read_done r) u q)
          active

    -- The kernel took the first `n` bytes of the write buffer, and its notification has not come yet,
    -- when bytes arrive that complete no request. With a free entry in the ring a session that is not
    -- closing then submits the whole region again, with the bytes that were taken.
    pub zero_copy-resent :
        (u : Uring rb sha1) (q : Queue) (n k c : ℕ) (cs : List ℕ) (c' : Connection rb sha1)
        → u.conn.session.closing ≡ false
        → u.io_flags < 8
        → q.free ≡ suc k
        → 0 < backlog rb sha1 u
        → consume rb sha1 max_body ends u.conn.session.mode
            (record u.conn { input = advance_write u.conn.input (c ∷ cs) })
          ≡ done (c', true)
        → c'.session.out ≡ u.conn.session.out
        → (u' : Uring rb sha1) × (q' : Queue) × (rest : List Submission) × (run_events rb sha1
              max_body ends
              (completed (write_done (some n) true false)
                ∷ completed (read_done (received c cs))
                ∷ [])
              u
              q
            ≡ done (live u' q'))
          × (q'.entries ≡ q.entries ++ (send_zc (read_region u.conn.session.out) ∷ rest))
          × (u'.locked_zc_bytes ≡ n)
    unfolding run_events on_active process_write process_read taken
    zero_copy-resent u q n k c cs c' active small free some_left ran same =
        let u0 : Uring rb sha1 = record u {
          io_flags = sent_flags u.io_flags;
          locked_zc_bytes = n;
        } in
        let u1 : Uring rb sha1 = record u {
          conn = c';
          io_flags = update_io_state (sent_flags u.io_flags) io_reading false;
          locked_zc_bytes = n;
        } in
        let u2 : Uring rb sha1 = record u1 {
          io_flags = update_io_state u1.io_flags io_writing true;
        } in
        let q2 : Queue = record {
          free = k;
          entries = q.entries ++ (send_zc (read_region c'.session.out) ∷ []);
        } in
        let sending =
          write_more-submitted rb sha1 u1 q k free (sent_idle u.io_flags small)
            (omega (arith, some_left, ap (λ b. length (contents b)) same)) in
        let ((rest, log), locked) = read_more-Extends u2 q2 in
        (
          (read_more rb sha1 (u2, q2)).0,
          (read_more rb sha1 (u2, q2)).1,
          rest,
          rw
              (
                active_write u q (some n) true false active,
                on_active,
                process_write,
                active_read u0 q (received c cs) active,
                process_read,
                ran,
                taken,
                sending,
                run_events,
              )
              refl,
          log
              ∙ append_assoc q.entries (send_zc (read_region c'.session.out) ∷ []) rest
              ∙ ap (λ b. q.entries ++ (send_zc (read_region b) ∷ rest)) same,
          locked,
        )
