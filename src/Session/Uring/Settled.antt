-- ===== src/Session/Uring/Settled.antt =====
-- Whatever happens to a session of the io_uring build, the worker comes back from it.
use warp_api.Session.Uring.{
  on_active, Completion, Event, Queue, Slot, Uring, close, completed, expired, freed,
  has_pending_io, io_reading, io_waiting_zc, kept, live, lost, nop_done, on_completion, on_event,
  on_expired, process_read, process_write, read_done, read_lost, received, run_events, set_closing,
  set_io, submitted, write_done,
}
use warp_api.Session.Uring.Left.{
  Answered, IsFine, IsLeft, Settled, answered, arrived, kept-IsLeft, process_read-Answered,
  process_write-IsFine, read_lost-IsFine, settled, unread,
}
use warp_api.Ring.{RingBuffer}
use warp_api.Session.Handler.{Endpoints}
use warp_api.Session.Serve.{OnDone, Run, done, fault, parser_of, stuck, ◌>>=◌}
use warp_api.Session.Parser.Bounds.{HasPlainHeaders}
use warp_api.Prelude.{
  Bool, List, [], arith, false, if_cases, if◌then◌else◌, length, true, ℕ, ◌+◌, ◌<◌, ◌^◌, ◌∷◌, ◌≤◌,
}

module _ (rb : RingBuffer) (sha1 : List ℕ → List ℕ) (max_body : ℕ) (ends : Endpoints rb sha1) where
  open rb use {contents, write_space}

  Settled-mono :
      (n m : ℕ) (r : Run (Slot rb sha1)) → n ≤ m → Settled rb sha1 n r → Settled rb sha1 m r
  Settled-mono n m (done (live u q)) le (settled (plain, fewer)) =
      settled (plain, omega (arith, fewer))
  Settled-mono n m (done (freed q)) le (settled h) = settled tt
  Settled-mono n m fault le h = Settled.faulted
  Settled-mono n m stuck le h = elim h [ ]

  kept-Settled :
      (n : ℕ) (r : Run ((Uring rb sha1 × Queue) × Bool))
      → Answered rb sha1 n r
      → Settled rb sha1 n (do x ← r; done (kept rb sha1 x))
  kept-Settled n (done x) (answered h) = settled (kept-IsLeft rb sha1 n x h)
  kept-Settled n fault h = Settled.faulted
  kept-Settled n stuck h = elim h [ ]

  on_active-Settled :
      (c : Completion) (u : Uring rb sha1) (q : Queue)
      → HasPlainHeaders (parser_of rb sha1 u.conn.session)
      → length (arrived rb sha1 (completed c)) ≤ write_space u.conn.input
      → max_body + 14 + (unread rb sha1 u + length (arrived rb sha1 (completed c))) < 2 ^ 64
      → Settled rb sha1
          (unread rb sha1 u + length (arrived rb sha1 (completed c)))
          (on_active rb sha1 max_body ends c u q)
  unfolding on_active process_read
  on_active-Settled nop_done u q plain fits room = Settled.faulted
  on_active-Settled (read_done lost) u q plain fits room = settled (
      kept-IsLeft rb sha1 (unread rb sha1 u + 0)
        (
          ((read_lost rb sha1 (set_io rb sha1 u io_reading false)).0, q),
          (read_lost rb sha1 (set_io rb sha1 u io_reading false)).1,
        )
        (read_lost-IsFine rb sha1 (unread rb sha1 u + 0) (set_io rb sha1 u io_reading false)
          (plain, omega arith)))
  on_active-Settled (read_done (received c cs)) u q plain fits room =
      kept-Settled (unread rb sha1 u + length (c ∷ cs))
        (process_read rb sha1 max_body ends (received c cs) (u, q))
        (process_read-Answered rb sha1 max_body ends u q c cs plain fits room)
  on_active-Settled (write_done sent more notif) u q plain fits room =
      let u' = if more then set_io rb sha1 u io_waiting_zc true else u in
      let fine : IsFine rb sha1 (unread rb sha1 u + 0) u'.conn =
        if_cases (λ (v : Uring rb sha1). IsFine rb sha1 (unread rb sha1 u + 0) v.conn) more
          (set_io rb sha1 u io_waiting_zc true) u (λ _. (plain, omega arith))
          (λ _. (plain, omega arith)) in
      settled (
        kept-IsLeft rb sha1 (unread rb sha1 u + 0) (process_write rb sha1 sent notif (u', q))
          (process_write-IsFine rb sha1 (unread rb sha1 u + 0) sent notif u' q fine))

  -- A completion that is no `nop`'s.
  guarded-Settled :
      (n : ℕ) (u : Uring rb sha1) (q : Queue) (active : Run (Slot rb sha1))
      → IsFine rb sha1 n u.conn
      → Settled rb sha1 n active
      → Settled rb sha1 n (
          if u.conn.session.closing
          then done (if has_pending_io rb sha1 u then live u q else freed q)
          else active)
  guarded-Settled n u q active fine h =
      if_cases (Settled rb sha1 n) u.conn.session.closing
        (done (if has_pending_io rb sha1 u then live u q else freed q)) active
        (λ _. settled (
          if_cases (IsLeft rb sha1 n) (has_pending_io rb sha1 u) (live u q) (freed q) (λ _. fine)
            (λ _. tt)))
        (λ _. h)

  on_event-Settled :
      (e : Event) (u : Uring rb sha1) (q : Queue)
      → HasPlainHeaders (parser_of rb sha1 u.conn.session)
      → length (arrived rb sha1 e) ≤ write_space u.conn.input
      → max_body + 14 + (unread rb sha1 u + length (arrived rb sha1 e)) < 2 ^ 64
      → Settled rb sha1
          (unread rb sha1 u + length (arrived rb sha1 e))
          (on_event rb sha1 max_body ends e u q)
  unfolding on_event on_completion on_expired
  on_event-Settled (completed nop_done) u q plain fits room = Settled.faulted
  on_event-Settled (completed (read_done r)) u q plain fits room =
      guarded-Settled (unread rb sha1 u + length (arrived rb sha1 (completed (read_done r)))) u q _
        (plain, omega arith) (on_active-Settled (read_done r) u q plain fits room)
  on_event-Settled (completed (write_done sent more notif)) u q plain fits room =
      guarded-Settled (unread rb sha1 u + 0) u q _ (plain, omega arith)
        (on_active-Settled (write_done sent more notif) u q plain fits room)
  on_event-Settled expired u q plain fits room = settled (
      if_cases (IsLeft rb sha1 (unread rb sha1 u + 0)) (has_pending_io rb sha1 u)
        (live (close rb sha1 (set_closing rb sha1 u)) q) (freed q) (λ _. (plain, omega arith))
        (λ _. tt))
  on_event-Settled (submitted n) u q plain fits room = settled (plain, omega arith)

  -- The bytes of a receive fit the space that was submitted for it, event by event.
  abbrev pub EventsFit : List Event → Slot rb sha1 → Type 0
  EventsFit es (freed q) = Unit {0}
  EventsFit [] (live u q) = Unit {0}
  EventsFit (e ∷ es) (live u q) =
      (length (arrived rb sha1 e) ≤ write_space u.conn.input)
      × OnDone (EventsFit es) (on_event rb sha1 max_body ends e u q)

  abbrev pub total : List Event → ℕ
  total [] = 0
  total (e ∷ es) = length (arrived rb sha1 e) + total es

  -- Whatever happens to a session, in any order, the worker comes back from all of it: with the
  -- session freed or in a state from which it can be parsed on, with no more unread bytes than have
  -- arrived, or by an access outside an array or through a null pointer.
  pub run_events-Settled :
      (es : List Event) (u : Uring rb sha1) (q : Queue)
      → HasPlainHeaders (parser_of rb sha1 u.conn.session)
      → max_body + 14 + (unread rb sha1 u + total es) < 2 ^ 64
      → EventsFit es (live u q)
      → Settled rb sha1 (unread rb sha1 u + total es) (run_events rb sha1 max_body ends es u q)
  unfolding run_events
  run_events-Settled [] u q plain room fit = settled (plain, omega arith)
  run_events-Settled (e ∷ es) u q plain room (fits, rest) =
      go (on_event rb sha1 max_body ends e u q) (on_event-Settled e u q plain fits (omega arith))
        rest (λ u' q'. run_events-Settled es u' q')
    where
      go :
          (r : Run (Slot rb sha1))
          → Settled rb sha1 (unread rb sha1 u + length (arrived rb sha1 e)) r
          → OnDone (EventsFit es) r
          → ((u' : Uring rb sha1) (q' : Queue)
              → HasPlainHeaders (parser_of rb sha1 u'.conn.session)
              → max_body + 14 + (unread rb sha1 u' + total es) < 2 ^ 64
              → EventsFit es (live u' q')
              → Settled rb sha1
                  (unread rb sha1 u' + total es)
                  (run_events rb sha1 max_body ends es u' q'))
          → Settled rb sha1 (unread rb sha1 u + total (e ∷ es)) (elim r [
            | fault ↦ fault
            | stuck ↦ stuck
            | done s ↦ elim s [
              | freed q' ↦ done (freed q')
              | live u' q' ↦ run_events rb sha1 max_body ends es u' q'
            ]
          ])
      go fault h f next = Settled.faulted
      go stuck h f next = elim h [ ]
      go (done (freed q')) h f next = settled tt
      go (done (live u' q')) (settled (plain', fewer)) f next =
          Settled-mono (unread rb sha1 u' + total es) (unread rb sha1 u + total (e ∷ es))
            (run_events rb sha1 max_body ends es u' q') (omega (arith, fewer))
            (next u' q' plain' (omega (arith, fewer)) f)
