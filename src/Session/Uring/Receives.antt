-- ===== src/Session/Uring/Receives.antt =====
-- No receive of the io_uring build is in flight when its session is freed.
use warp_api.Prelude.{
  subst, ◌≤◌, zero_or_suc, ℕ, suc, ◌≡◌, refl, ap, Bool, true, false, List, ◌∷◌, if◌then◌else◌,
  arith, inl, inr, ◌⊎◌, bit_and, if_cases,
}
use warp_api.Ring.{RingBuffer}
use warp_api.Session.Handler.{Endpoints}
use warp_api.Session.Serve.{OnDone, Run, done, fault, stuck, ◌>>=◌, Connection, consume}
use warp_api.Session.Uring.{
  set_closing, on_accept, on_active, close, Queue, ReadResult, received, lost, Completion, nop_done,
  read_done, write_done, Event, completed, expired, submitted, io_reading, io_waiting_zc, Uring,
  has_pending_io, set_io, write_more, read_more, taken, read_lost, process_write, process_read,
  kept, Slot, live, freed, on_expired, on_completion, on_event,
}
use warp_api.Session.Uring.Balance.{
  receives, counted, reading_off, waiting_set, bit-bound, Balanced, on_read_ready-Balanced,
  write_more-Balanced, read_more-Balanced, Balanced-flags, process_write-Balanced,
}

module _ (rb : RingBuffer) (sha1 : List ℕ → List ℕ) where
  open rb use {advance_write}

  -- Every receive that was submitted has completed or is shown by the flag; or the session is
  -- closing with a flag set, and is never freed.
  abbrev IsWatched : Uring rb sha1 → Queue → ℕ → Type 0
  IsWatched u q m =
      (Balanced rb sha1 m (u, q))
      ⊎ ((u.conn.session.closing ≡ true) × (has_pending_io rb sha1 u ≡ true))

  abbrev IsSafe : ℕ → Slot rb sha1 → Type 0
  IsSafe m (live u q) = IsWatched u q m
  IsSafe m (freed q) = receives q.entries ≡ m

  kept-IsSafe :
      (m : ℕ) (x : (Uring rb sha1 × Queue) × Bool)
      → Balanced rb sha1 m x.0
      → IsSafe m (kept rb sha1 x)
  kept-IsSafe m ((u, q), true) h = inl h
  kept-IsSafe m ((u, q), false) h = inl (record { small = h.small; count = h.count })

  -- Behind a completed receive.
  completed-Balanced :
      (m : ℕ) (u : Uring rb sha1) (q : Queue)
      → Balanced rb sha1 m (u, q)
      → suc m ≤ receives q.entries
      → Balanced rb sha1 (suc m) (set_io rb sha1 u io_reading false, q)
  completed-Balanced m u q h room =
      let (reading, small) = reading_off u.io_flags h.small in
      record {
        small = small;
        count = omega (arith, h.count, reading, bit-bound u.io_flags h.small, room);
      }

  read_lost-Balanced :
      (m : ℕ) (u : Uring rb sha1) (q : Queue)
      → Balanced rb sha1 m (u, q)
      → Balanced rb sha1 m ((read_lost rb sha1 u).0, q)
  unfolding read_lost
  read_lost-Balanced m u q h = ground arith

  taken-Balanced :
      (m : ℕ) (u : Uring rb sha1) (q : Queue) (c : Connection rb sha1) (alive : Bool)
      → Balanced rb sha1 m (u, q)
      → Balanced rb sha1 m (taken rb sha1 u (c, alive), q)
  unfolding taken
  taken-Balanced m u q c true h = record { small = h.small; count = h.count }
  taken-Balanced m u q c false h = record { small = h.small; count = h.count }

  module _ (max_body : ℕ) (ends : Endpoints rb sha1) where
    process_read-Balanced :
        (m : ℕ) (r : ReadResult) (u : Uring rb sha1) (q : Queue)
        → Balanced rb sha1 m (u, q)
        → suc m ≤ receives q.entries
        → OnDone
            (λ (x : (Uring rb sha1 × Queue) × Bool). Balanced rb sha1 (suc m) x.0)
            (process_read rb sha1 max_body ends r (u, q))
    unfolding process_read
    process_read-Balanced m lost u q h room =
        read_lost-Balanced (suc m) (set_io rb sha1 u io_reading false) q
          (completed-Balanced m u q h room)
    process_read-Balanced m (received c cs) u q h room = go (
        consume rb sha1 max_body ends u.conn.session.mode
          (record u.conn { input = advance_write u.conn.input (c ∷ cs) }))
      where
        u' : Uring rb sha1
        u' = record (set_io rb sha1 u io_reading false) {
          conn = record u.conn { input = advance_write u.conn.input (c ∷ cs) };
        }

        go :
            (r : Run (Connection rb sha1 × Bool))
            → OnDone
                (λ (x : (Uring rb sha1 × Queue) × Bool). Balanced rb sha1 (suc m) x.0)
                (do
                  x ← r
                  done (read_more rb sha1 (write_more rb sha1 (taken rb sha1 u' x, q)), true))
        go fault = tt
        go stuck = tt
        go (done (c', alive)) =
            let t = taken rb sha1 u' (c', alive) in
            let more = write_more rb sha1 (t, q) in
            read_more-Balanced rb sha1 (suc m) more.0 more.1 (
              write_more-Balanced rb sha1 (suc m) t q (
                taken-Balanced (suc m) u' q c' alive (
                  let done' = completed-Balanced m u q h room in
                  record { small = done'.small; count = done'.count })))

    on_active-IsSafe :
        (m : ℕ) (c : Completion) (u : Uring rb sha1) (q : Queue)
        → Balanced rb sha1 m (u, q)
        → counted (completed c) m ≤ receives q.entries
        → OnDone (IsSafe (counted (completed c) m)) (on_active rb sha1 max_body ends c u q)
    unfolding on_active
    on_active-IsSafe m nop_done u q h room = tt
    on_active-IsSafe m (read_done r) u q h room =
        go (process_read rb sha1 max_body ends r (u, q)) (process_read-Balanced m r u q h room)
      where
        go :
            (x : Run ((Uring rb sha1 × Queue) × Bool))
            → OnDone (λ (x : (Uring rb sha1 × Queue) × Bool). Balanced rb sha1 (suc m) x.0) x
            → OnDone (IsSafe (suc m)) (do y ← x; done (kept rb sha1 y))
        go (done y) h = kept-IsSafe (suc m) y h
        go fault h = tt
        go stuck h = tt
    on_active-IsSafe m (write_done sent more notif) u q h room =
        let u' = if more then set_io rb sha1 u io_waiting_zc true else u in
        let h' : Balanced rb sha1 m (u', q) =
          if_cases (λ v. Balanced rb sha1 m (v, q)) more (set_io rb sha1 u io_waiting_zc true) u
            (λ _.
              Balanced-flags rb sha1 m u (set_io rb sha1 u io_waiting_zc true) q
                (waiting_set u.io_flags true h.small) h)
            (λ _. h) in
        kept-IsSafe m (process_write rb sha1 sent notif (u', q))
          (process_write-Balanced rb sha1 m sent notif u' q h')

    freed_count :
        (m n : ℕ) (u : Uring rb sha1) (q : Queue)
        → IsWatched u q m
        → has_pending_io rb sha1 u ≡ false
        → m ≤ n
        → n ≤ receives q.entries
        → receives q.entries ≡ n
    freed_count m n u q (inl h) idle le room =
        let zero_flags : u.io_flags ≡ 0 = ground arith in
        omega (arith, h.count, ap (λ f. bit_and f 1) zero_flags, le, room)
    freed_count m n u q (inr (closing, pending)) idle le room = absurd (ground arith)

    -- What the loop does with a completion that is no `nop`'s.
    guarded-IsSafe :
        (m n : ℕ) (u : Uring rb sha1) (q : Queue) (active : Run (Slot rb sha1))
        → IsWatched u q m
        → m ≤ n
        → n ≤ receives q.entries
        → (Balanced rb sha1 m (u, q) → OnDone (IsSafe n) active)
        → OnDone (IsSafe n) (
            if u.conn.session.closing
            then done (if has_pending_io rb sha1 u then live u q else freed q)
            else active)
    guarded-IsSafe m n u q active w le room next =
        if_cases (OnDone (IsSafe n)) u.conn.session.closing
          (done (if has_pending_io rb sha1 u then live u q else freed q)) active
          (λ closing.
            if_cases (IsSafe n) (has_pending_io rb sha1 u) (live u q) (freed q)
              (λ pending. inr (closing, pending)) (λ idle. freed_count m n u q w idle le room))
          (λ active_now. elim w [ inl h ↦ next h | inr (closing, pending) ↦ absurd (ground arith) ])

    -- A session from its accept on, with the number of its receives that have completed: the events
    -- happen to it in any order, but that a receive completes only if one is in flight.
    pub data Reached : Slot rb sha1 → ℕ → Type 0 where
      accepted :
          (u : Uring rb sha1) (q : Queue)
          → u.io_flags ≡ 0
          → receives q.entries ≡ 0
          → Reached (on_accept rb sha1 u q) 0
      behind :
          {u : Uring rb sha1} {q : Queue} {m : ℕ} {s : Slot rb sha1} (e : Event)
          → Reached (live u q) m
          → counted e m ≤ receives q.entries
          → on_event rb sha1 max_body ends e u q ≡ done s
          → Reached s (counted e m)

    on_event-IsSafe :
        (m : ℕ) (e : Event) (u : Uring rb sha1) (q : Queue)
        → IsWatched u q m
        → counted e m ≤ receives q.entries
        → OnDone (IsSafe (counted e m)) (on_event rb sha1 max_body ends e u q)
    unfolding on_event on_completion on_expired
    on_event-IsSafe m (completed nop_done) u q w room = tt
    on_event-IsSafe m (completed (read_done r)) u q w room =
        guarded-IsSafe m (suc m) u q (on_active rb sha1 max_body ends (read_done r) u q) w
          (omega arith) room (λ h. on_active-IsSafe m (read_done r) u q h room)
    on_event-IsSafe m (completed (write_done sent more notif)) u q w room =
        guarded-IsSafe m m u q (on_active rb sha1 max_body ends (write_done sent more notif) u q) w
          (omega arith) room (λ h. on_active-IsSafe m (write_done sent more notif) u q h room)
    on_event-IsSafe m expired u q w room =
        if_cases (IsSafe m) (has_pending_io rb sha1 u)
          (live (close rb sha1 (set_closing rb sha1 u)) q) (freed q)
          (λ pending. inr (refl, pending)) (λ idle. freed_count m m u q w idle (omega arith) room)
    on_event-IsSafe m (submitted n) u q (inl h) room =
        inl (record { small = h.small; count = h.count })
    on_event-IsSafe m (submitted n) u q (inr h) room = inr h

    on_accept-IsSafe :
        (u : Uring rb sha1) (q : Queue)
        → u.io_flags ≡ 0
        → receives q.entries ≡ 0
        → IsSafe 0 (on_accept rb sha1 u q)
    unfolding on_accept
    on_accept-IsSafe u q f r = elim (zero_or_suc q.free) [
      | inl e ↦ rw (e, on_accept) r
      | inr (n, e) ↦ rw (e, on_accept) (inl (on_read_ready-Balanced rb sha1 0 n u q idle start))
    ]
      where
        idle : bit_and u.io_flags 1 ≡ 0
        idle = ap (λ g. bit_and g 1) f

        start : Balanced rb sha1 0 (u, q)
        start = record { small = omega (arith, f); count = omega (arith, r, idle) }

    Reached-IsSafe : {s : Slot rb sha1} {m : ℕ} → Reached s m → IsSafe m s
    Reached-IsSafe (accepted u q f r) = on_accept-IsSafe u q f r
    Reached-IsSafe (behind {u} {q} {m} {s} e h room ran) =
        subst (OnDone (IsSafe (counted e m))) ran (on_event-IsSafe m e u q (Reached-IsSafe h) room)

    -- Whatever happens to a session from its accept on, when it is freed every receive that was
    -- submitted for it has completed: the kernel writes into no freed buffer. Receives complete only
    -- while one is in flight.
    pub freed-receives : (q : Queue) (m : ℕ) → Reached (freed q) m → receives q.entries ≡ m
    freed-receives q m h = Reached-IsSafe h
