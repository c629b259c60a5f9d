-- ===== src/Session/Uring/Left.antt =====
-- What the operations of the io_uring build leave of the parser and of the unread bytes.
use warp_api.Session.Uring.{
  Event, Queue, Slot, Submission, Uring, backlog, close, completed, expired, freed, io_reading,
  io_writing, is_set, kept, live, lost, nop_done, on_read_ready, on_write_ready, out_of,
  process_read, process_write, read_done, read_lost, read_more, received, released, set_closing,
  set_io, set_keep_alive, submitted, taken, with_sqe, write_done, write_more,
}
use warp_api.Ring.{RingBuffer}
use warp_api.Session.Handler.{Endpoints}
use warp_api.Session.Serve.{Connection, Run, consume, done, fault, parser_of, stuck, ◌>>=◌}
use warp_api.Session.Serve.Consumed.{Consumed, consume-Consumed, consumed}
use warp_api.Session.Parser.Bounds.{HasPlainHeaders}
use warp_api.Prelude.{
  Bool, List, Option, [], ap, arith, false, if_cases, inl, inr, length, length-append, list_cases,
  ltb, none, not, refl, some, subst, sym, true, zero_or_suc, ℕ, ◌&&◌, ◌+◌, ◌<◌, ◌==◌, ◌^◌, ◌∙◌, ◌∷◌,
  ◌≡◌, ◌≤◌,
}

module _ (rb : RingBuffer) (sha1 : List ℕ → List ℕ) where
  open rb use {contents, write_space, advance_write, advance_write_contents}

  abbrev pub unread : Uring rb sha1 → ℕ
  unread u = length (contents u.conn.input)

  -- A connection that can be parsed on, with at most so many unread bytes.
  abbrev pub IsFine : ℕ → Connection rb sha1 → Type 0
  IsFine n c = HasPlainHeaders (parser_of rb sha1 c.session) × (length (contents c.input) ≤ n)

  -- The bytes that an event brings.
  abbrev pub arrived : Event → List ℕ
  arrived (completed (read_done (received c cs))) = c ∷ cs
  arrived (completed (read_done lost)) = []
  arrived (completed nop_done) = []
  arrived (completed (write_done sent more notif)) = []
  arrived expired = []
  arrived (submitted n) = []

  abbrev pub IsLeft : ℕ → Slot rb sha1 → Type 0
  IsLeft n (live u q) = IsFine n u.conn
  IsLeft n (freed q) = Unit {0}

  -- The worker comes back, with such a session, or by an access outside an array.
  pub data Settled (n : ℕ) : Run (Slot rb sha1) → Type 0 where
    settled : {s : Slot rb sha1} → IsLeft n s → Settled n (done s)
    faulted : Settled n fault

  pub data Answered (n : ℕ) : Run ((Uring rb sha1 × Queue) × Bool) → Type 0 where
    answered : {x : (Uring rb sha1 × Queue) × Bool} → IsFine n x.0.0.conn → Answered n (done x)
    faulted : Answered n fault

  with_sqe-same :
      (prepare : Uring rb sha1 → Uring rb sha1 × Submission)
      → ((u : Uring rb sha1) → (prepare u).0.conn ≡ u.conn)
      → (u : Uring rb sha1) (q : Queue) → (with_sqe rb sha1 prepare (u, q)).0.conn ≡ u.conn
  with_sqe-same prepare same u q = elim (zero_or_suc q.free) [
    | inl e ↦ rw e refl
    | inr (n, e) ↦ rw e (same u)
  ]

  on_read_ready-conn : (u : Uring rb sha1) → (on_read_ready rb sha1 u).0.conn ≡ u.conn
  unfolding on_read_ready
  on_read_ready-conn u = elim (zero_or_suc (write_space u.conn.input)) [
    | inl e ↦ rw (e, on_read_ready) refl
    | inr (n, e) ↦ rw (e, on_read_ready) refl
  ]

  on_write_ready-conn : (u : Uring rb sha1) → (on_write_ready rb sha1 u).0.conn ≡ u.conn
  unfolding on_write_ready
  on_write_ready-conn u = elim (list_cases (rb.read_region (out_of rb sha1 u))) [
    | inl e ↦ rw (e, on_write_ready) refl
    | inr (c, cs, e) ↦ rw (e, on_write_ready) refl
  ]

  write_more-conn : (u : Uring rb sha1) (q : Queue) → (write_more rb sha1 (u, q)).0.conn ≡ u.conn
  unfolding write_more
  write_more-conn u q =
      if_cases (λ (x : Uring rb sha1 × Queue). x.0.conn ≡ u.conn)
        (ltb 0 (backlog rb sha1 u) && not (is_set u.io_flags io_writing))
        (with_sqe rb sha1 (on_write_ready rb sha1) (u, q)) (u, q)
        (λ _. with_sqe-same (on_write_ready rb sha1) on_write_ready-conn u q) (λ _. refl)

  pub read_more-conn : (u : Uring rb sha1) (q : Queue) → (read_more rb sha1 (u, q)).0.conn ≡ u.conn
  unfolding read_more
  read_more-conn u q =
      if_cases (λ (x : Uring rb sha1 × Queue). x.0.conn ≡ u.conn)
        (not (is_set u.io_flags io_reading) && not u.conn.session.closing)
        (with_sqe rb sha1 (on_read_ready rb sha1) (u, q)) (u, q)
        (λ _. with_sqe-same (on_read_ready rb sha1) on_read_ready-conn u q) (λ _. refl)

  taken-IsFine :
      (n : ℕ) (u : Uring rb sha1) (c : Connection rb sha1) (alive : Bool)
      → IsFine n c
      → IsFine n (taken rb sha1 u (c, alive)).conn
  unfolding taken
  taken-IsFine n u c true h = h
  taken-IsFine n u c false h = h

  pub read_lost-IsFine :
      (n : ℕ) (u : Uring rb sha1) → IsFine n u.conn → IsFine n (read_lost rb sha1 u).0.conn
  unfolding read_lost
  read_lost-IsFine n u h =
      if_cases (λ (x : Uring rb sha1 × Bool). IsFine n x.0.conn) (backlog rb sha1 u == 0)
        (close rb sha1 u, false) (set_closing rb sha1 (set_keep_alive rb sha1 u false), true)
        (λ _. h) (λ _. h)

  pub process_write-IsFine :
      (n : ℕ) (sent : Option ℕ) (notif : Bool) (u : Uring rb sha1) (q : Queue)
      → IsFine n u.conn
      → IsFine n (process_write rb sha1 sent notif (u, q)).0.0.conn
  unfolding process_write released
  process_write-IsFine n sent true u q h =
      if_cases (λ (x : (Uring rb sha1 × Queue) × Bool). IsFine n x.0.0.conn)
        (ltb 0 (backlog rb sha1 (released rb sha1 u)))
        (with_sqe rb sha1 (on_write_ready rb sha1) (released rb sha1 u, q), true) _
        (λ _.
          subst (IsFine n)
            (sym
              (with_sqe-same (on_write_ready rb sha1) on_write_ready-conn (released rb sha1 u) q))
            h)
        (λ _.
          if_cases (λ (x : (Uring rb sha1 × Queue) × Bool). IsFine n x.0.0.conn)
            (not u.conn.session.keep_alive) ((close rb sha1 (released rb sha1 u), q), false)
            ((released rb sha1 u, q), true) (λ _. h) (λ _. h))
  process_write-IsFine n none false u q h = h
  process_write-IsFine n (some k) false u q h = h

  pub kept-IsLeft :
      (n : ℕ) (x : (Uring rb sha1 × Queue) × Bool) → IsFine n x.0.0.conn → IsLeft n (kept rb sha1 x)
  kept-IsLeft n ((u, q), true) h = h
  kept-IsLeft n ((u, q), false) h = h

  module _ (max_body : ℕ) (ends : Endpoints rb sha1) where
    -- What is done with the bytes of a receive.
    pub process_read-Answered :
        (u : Uring rb sha1) (q : Queue) (c : ℕ) (cs : List ℕ)
        → HasPlainHeaders (parser_of rb sha1 u.conn.session)
        → length (c ∷ cs) ≤ write_space u.conn.input
        → max_body + 14 + (unread u + length (c ∷ cs)) < 2 ^ 64
        → Answered
            (unread u + length (c ∷ cs))
            (process_read rb sha1 max_body ends (received c cs) (u, q))
    unfolding process_read
    process_read-Answered u q c cs plain fits room =
        go (consume rb sha1 max_body ends u'.conn.session.mode u'.conn) (
          consume-Consumed rb sha1 max_body ends u'.conn.session.mode u'.conn plain
            (omega (arith, longer)))
      where
        u' : Uring rb sha1
        u' = record (set_io rb sha1 u io_reading false) {
          conn = record u.conn { input = advance_write u.conn.input (c ∷ cs) };
        }

        longer :
            length (contents (advance_write u.conn.input (c ∷ cs))) ≡ unread u + length (c ∷ cs)
        longer =
            ap length (advance_write_contents u.conn.input (c ∷ cs) fits)
            ∙ length-append (contents u.conn.input) (c ∷ cs)

        go :
            (r : Run (Connection rb sha1 × Bool))
            → Consumed rb sha1 u'.conn r
            → Answered (unread u + length (c ∷ cs)) (do
              x ← r
              done (read_more rb sha1 (write_more rb sha1 (taken rb sha1 u' x, q)), true))
        go fault k = Answered.faulted
        go stuck k = elim k [ ]
        go (done (c', alive)) (consumed left) =
            let t = taken rb sha1 u' (c', alive) in
            let more = write_more rb sha1 (t, q) in
            answered (
              subst (IsFine (unread u + length (c ∷ cs)))
                (sym (read_more-conn more.0 more.1 ∙ write_more-conn t q))
                (taken-IsFine (unread u + length (c ∷ cs)) u' c' alive
                  (left.plain, omega (arith, left.fewer, longer))))
