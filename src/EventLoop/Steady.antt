-- ===== src/EventLoop/Steady.antt =====
-- The sessions of a worker can be parsed on, behind every event.
use warp_api.EventLoop.{Client, TimerWheel, Worker, after_ready, handlers, is_due, put, release}
use warp_api.EventLoop.Invariant.{put-inv}
use warp_api.Ring.{RingBuffer}
use warp_api.Session.Handler.{Endpoints}
use warp_api.Session.Serve.{Run, done, fault, parser_of, stuck, ◌>>=◌}
use warp_api.Session.Parser.Bounds.{HasPlainHeaders}
use warp_api.Session.Epoll.{Wire, backlog, on_read_ready, on_write_ready, pending}
use warp_api.Session.Epoll.Activity.{on_write_ready_empty}
use warp_api.Session.Epoll.Flush.{on_write_ready-Flushed}
use warp_api.Session.Epoll.Drain.{Drained, HasRoom, drained, load, on_read_ready-Drained}
use warp_api.Prelude.{
  Bool, Bool-cases, List, Option, ap, arith, false, if_cases, if◌then◌else◌, inl, inr, length, none,
  refl, some, some_inj, subst, true, zero_or_suc, ℕ, ◌&&◌, ◌||◌, ◌≡◌, ◌⊎◌,
}

module _ (rb : RingBuffer) (sha1 : List ℕ → List ℕ) (max_body : ℕ) (ends : Endpoints rb sha1) where
  open rb use {contents}

  -- The present headers are those that the parser can leave, and what it counts is below 2 ^ 64.
  pub record IsSteady (w : Wire rb sha1) : Type 0 where
    pub plain : HasPlainHeaders (parser_of rb sha1 w.conn.session)
    pub room : HasRoom rb sha1 max_body ends w

  -- A handler comes back with such a session, or `onReadReady` leaves an array.
  abbrev pub Handled : Wire rb sha1 → Run (Wire rb sha1 × Bool) → Type 0
  Handled w r =
      ((w' : Wire rb sha1) × (b : Bool) × (r ≡ done (w', b)) × IsSteady w')
      ⊎ ((r ≡ fault) × (on_read_ready rb sha1 max_body ends w ≡ fault))

  Drained-Handled :
      (w : Wire rb sha1) (r : Run (Wire rb sha1 × Bool))
      → on_read_ready rb sha1 max_body ends w ≡ r
      → HasRoom rb sha1 max_body ends w
      → Drained rb sha1 (load rb sha1 w) r
      → Handled w r
  Drained-Handled w (done (w', b)) e room (drained plain most held) =
      inl (w', b, refl, record { plain = plain; room = omega (arith, most, room) })
  Drained-Handled w fault e room d = inr (refl, e)
  Drained-Handled w stuck e room d = elim d [ ]

  on_read_ready-Handled :
      (w : Wire rb sha1) → IsSteady w → Handled w (on_read_ready rb sha1 max_body ends w)
  on_read_ready-Handled w s =
      Drained-Handled w (on_read_ready rb sha1 max_body ends w) refl s.room
        (on_read_ready-Drained rb sha1 max_body ends w s.plain s.room)

  on_write_ready-IsSteady :
      (w : Wire rb sha1)
      → IsSteady w
      → (w' : Wire rb sha1) × (b : Bool) × (on_write_ready rb sha1 w ≡ done (w', b)) × IsSteady w'
  on_write_ready-IsSteady w s = elim (zero_or_suc (backlog rb sha1 w)) [
    | inl e ↦ (w, false, on_write_ready_empty rb sha1 w e, s)
    | inr (n, e) ↦
        let (w', b, ran, flushed) = on_write_ready-Flushed rb sha1 w (omega (arith, e)) in
        let m = flushed.moved in
        (
          w',
          b,
          ran,
          record {
            plain = m.plain_kept s.plain;
            room = omega (
              arith,
              s.room,
              ap (λ i. length (contents i)) m.input_kept,
              ap pending m.arriving_kept,
            );
          },
        )
  ]

  module _ (timers : TimerWheel) where
    -- What `handlers` does behind the reading.
    abbrev written : Bool → Wire rb sha1 × Bool → Run (Wire rb sha1 × Bool)
    written writable (w, b) = do
      (w', b') ← if w.is_open && writable then on_write_ready rb sha1 w else done (w, false)
      done (w', b || b')

    written-IsSteady :
        (writable : Bool) (w : Wire rb sha1) (b : Bool)
        → IsSteady w
        → (w' : Wire rb sha1) × (b' : Bool) × (written writable (w, b) ≡ done (w', b'))
          × IsSteady w'
    written-IsSteady writable w b s = elim (Bool-cases (w.is_open && writable)) [
      | inr e ↦ (w, b || false, rw e refl, s)
      | inl e ↦
          let (w', b', ran, s') = on_write_ready-IsSteady w s in (w', b || b', rw (e, ran) refl, s')
    ]

    -- They come back with such a session, or the reading was asked for and leaves an array.
    pub handlers-Handled :
        (readable writable : Bool) (w : Wire rb sha1)
        → IsSteady w
        → ((w' : Wire rb sha1) × (b : Bool) × (handlers timers rb sha1 max_body ends readable
                writable w
              ≡ done (w', b))
            × IsSteady w')
          ⊎ ((readable ≡ true)
              × (handlers timers rb sha1 max_body ends readable writable w ≡ fault)
              × (on_read_ready rb sha1 max_body ends w ≡ fault))
    unfolding handlers
    handlers-Handled false writable w s = inl (written-IsSteady writable w false s)
    handlers-Handled true writable w s = elim (on_read_ready-Handled w s) [
      | inl (w', b, ran, s') ↦
          let (w'', b'', both, s'') = written-IsSteady writable w' b s' in
          inl (w'', b'', rw ran both, s'')
      | inr (e, bad) ↦ inr (refl, rw e refl, bad)
    ]

    -- Every session of the pool is such a session.
    abbrev pub AllSteady : (ℕ → Option (Client timers rb sha1)) → Type 0
    AllSteady sessions = (i : ℕ) (c : Client timers rb sha1) → sessions i ≡ some c → IsSteady c.wire

    pub put-AllSteady :
        (s : ℕ → Option (Client timers rb sha1)) (i : ℕ) (c : Client timers rb sha1)
        → AllSteady s
        → IsSteady c.wire
        → AllSteady (put timers rb sha1 s i (some c))
    put-AllSteady s i c all new j d e = elim (put-inv timers rb sha1 s i j (some c) d e) [
      | inl (p, same) ↦ subst (λ (x : Client timers rb sha1). IsSteady x.wire) (some_inj same) new
      | inr (apart, there) ↦ all j d there
    ]

    pub release-AllSteady :
        (i : ℕ) (c : Client timers rb sha1) (w : Worker timers rb sha1)
        → AllSteady w.sessions
        → AllSteady (release timers rb sha1 i c w).sessions
    unfolding release
    release-AllSteady i c w all j d e = elim (put-inv timers rb sha1 w.sessions i j none d e) [
      | inl (p, bad) ↦ cc
      | inr (apart, there) ↦ all j d there
    ]

    pub after_ready-AllSteady :
        (i : ℕ) (c : Client timers rb sha1) (hung_up activity : Bool) (now : ℕ)
        (w : Worker timers rb sha1)
        → AllSteady w.sessions
        → IsSteady c.wire
        → AllSteady (after_ready timers rb sha1 i c hung_up activity now w).sessions
    unfolding after_ready
    after_ready-AllSteady i c true activity now w all s = release-AllSteady i c w all
    after_ready-AllSteady i c false activity now w all s =
        if_cases (λ (w' : Worker timers rb sha1). AllSteady w'.sessions)
          (activity && is_due now c.last_activity_tick)
          (record w {
            sessions =
                put timers rb sha1 w.sessions i (some (record c { last_activity_tick = now }));
            wheel = timers.update w.wheel i;
          })
          (record w { sessions = put timers rb sha1 w.sessions i (some c) })
          (λ _. put-AllSteady w.sessions i (record c { last_activity_tick = now }) all s)
          (λ _. put-AllSteady w.sessions i c all s)
