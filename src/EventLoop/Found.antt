-- ===== src/EventLoop/Found.antt =====
-- Along every run of a worker the events reach live sessions, and closed sessions are released.
use warp_api.Prelude.{
  ℕ, ◌≤◌, ◌<◌, ◌^◌, ◌≡◌, ◌≢◌, refl, ap, sym, ◌∙◌, subst, Bool, true, false, ◌&&◌, ◌||◌, none, some,
  if_cases, if◌then◌else◌, inl, inr,
}
use warp_api.Ring.{RingBuffer}
use warp_api.Session.Handler.{Endpoints}
use warp_api.Session.Serve.{done, ◌>>=◌, OnDone, OnDone-bind, OnDone-mono}
use warp_api.Session.Epoll.{Socket, Wire, on_read_ready, on_write_ready}
use warp_api.Session.Epoll.Activity.{IsSeen, on_read_ready-IsSeen, on_write_ready-IsSeen}
use warp_api.EventLoop.{
  List, TimerWheel, Client, Worker, new_worker, release, on_network, on_accept, after_ready,
  handlers, on_ready, on_expired,
}
use warp_api.EventLoop.Steps.{on_network-IsSound, on_accept-IsSound, after_ready-IsSound}
use warp_api.EventLoop.Invariant.{
  IsSound, new_worker-IsSound, release-IsSound, put-same, or_true, and_true,
}

module _ (timers : TimerWheel) (rb : RingBuffer) (sha1 : List ℕ → List ℕ) (max_body : ℕ)
    (ends : Endpoints rb sha1) where
  open timers use {Wheel, linked}

  -- The workers of a run. The kernel accepts a descriptor that no open session has and reports
  -- events of open sessions only, and changes what their sockets hold in between; the pool gives a
  -- free place; the wheel expires what it knows.
  pub data Reached : Worker timers rb sha1 → Type 0 where
    started : Reached (new_worker timers rb sha1)
    accepted :
        {w : Worker timers rb sha1} (i fd : ℕ) (wire : Wire rb sha1)
        → Reached w
        → w.sessions i ≡ none
        → ((j : ℕ) (c : Client timers rb sha1)
            → w.sessions j ≡ some c
            → c.wire.is_open ≡ true
            → fd ≢ c.fd)
        → wire.is_open ≡ true
        → Reached (on_accept timers rb sha1 i fd wire w)
    networked :
        {w : Worker timers rb sha1} (i : ℕ) (c : Client timers rb sha1) (k : Socket)
        → Reached w
        → w.sessions i ≡ some c
        → c.wire.is_open ≡ true
        → k.sent ≡ c.wire.socket.sent
        → Reached (on_network timers rb sha1 i c k w)
    ready :
        {w w' : Worker timers rb sha1} (readable writable hung_up : Bool) (now i : ℕ)
        (c : Client timers rb sha1)
        → Reached w
        → w.sessions i ≡ some c
        → c.wire.is_open ≡ true
        → 1000 ≤ now
        → now < 2 ^ 64
        → on_ready timers rb sha1 max_body ends c.fd readable writable hung_up now w ≡ done w'
        → Reached w'
    expired :
        {w w' : Worker timers rb sha1} (i : ℕ)
        → Reached w
        → linked w.wheel i ≡ true
        → on_expired timers rb sha1 max_body ends i w ≡ done w'
        → Reached w'

  handlers-IsSeen :
      (readable writable : Bool) (wire : Wire rb sha1)
      → wire.is_open ≡ true
      → OnDone (IsSeen rb sha1) (handlers timers rb sha1 max_body ends readable writable wire)
  unfolding handlers
  handlers-IsSeen readable writable wire open_ =
      OnDone-bind (IsSeen rb sha1) (IsSeen rb sha1)
        (if readable then on_read_ready rb sha1 max_body ends wire else done (wire, false)) _
        (if_cases (OnDone (IsSeen rb sha1)) readable (on_read_ready rb sha1 max_body ends wire)
          (done (wire, false)) (λ _. on_read_ready-IsSeen rb sha1 max_body ends wire open_)
          (λ _. inl open_))
        (λ x seen. written x.0 x.1 seen)
    where
      written :
          (wire' : Wire rb sha1) (b : Bool)
          → IsSeen rb sha1 (wire', b)
          → OnDone (IsSeen rb sha1) (do
            (wire'', b') ←
                if wire'.is_open && writable
                then on_write_ready rb sha1 wire'
                else done (wire', false)
            done (wire'', b || b'))
      written wire' b seen =
          OnDone-bind (λ (x : Wire rb sha1 × Bool). IsSeen rb sha1 (x.0, b || x.1)) (IsSeen rb sha1)
            (if wire'.is_open && writable
              then on_write_ready rb sha1 wire'
              else done (wire', false))
            _
            (if_cases (OnDone (λ (x : Wire rb sha1 × Bool). IsSeen rb sha1 (x.0, b || x.1)))
              (wire'.is_open && writable) (on_write_ready rb sha1 wire') (done (wire', false))
              (λ both.
                OnDone-mono (IsSeen rb sha1)
                  (λ (x : Wire rb sha1 × Bool). IsSeen rb sha1 (x.0, b || x.1))
                  (on_write_ready rb sha1 wire')
                  (λ x s. elim s [ inl o ↦ inl o | inr e ↦ inr (or_true b x.1 e) ])
                  (on_write_ready-IsSeen rb sha1 wire' (and_true wire'.is_open writable both).0))
              (λ _. elim seen [ inl o ↦ inl o | inr e ↦ inr (ap (λ t. t || false) e) ]))
            (λ x s. s)

  -- An event of an open session goes to this session.
  on_ready_at :
      (w : Worker timers rb sha1) (readable writable hung_up : Bool) (now i : ℕ)
      (c : Client timers rb sha1)
      → IsSound timers rb sha1 w
      → w.sessions i ≡ some c
      → c.wire.is_open ≡ true
      → on_ready timers rb sha1 max_body ends c.fd readable writable hung_up now w ≡ (do
        (wire, activity) ← handlers timers rb sha1 max_body ends readable writable c.wire
        done (after_ready timers rb sha1 i (record c { wire = wire }) hung_up activity now w))
  unfolding on_ready
  on_ready_at w readable writable hung_up now i c h here open_ =
      rw (h.found i c here open_, here, on_ready) refl

  on_ready-IsSound :
      (w : Worker timers rb sha1) (readable writable hung_up : Bool) (now i : ℕ)
      (c : Client timers rb sha1)
      → IsSound timers rb sha1 w
      → w.sessions i ≡ some c
      → c.wire.is_open ≡ true
      → 1000 ≤ now
      → now < 2 ^ 64
      → OnDone
          (IsSound timers rb sha1)
          (on_ready timers rb sha1 max_body ends c.fd readable writable hung_up now w)
  on_ready-IsSound w readable writable hung_up now i c h here open_ lo hi =
      subst (OnDone (IsSound timers rb sha1))
        (sym (on_ready_at w readable writable hung_up now i c h here open_))
        (OnDone-bind (IsSeen rb sha1) (IsSound timers rb sha1)
          (handlers timers rb sha1 max_body ends readable writable c.wire) _
          (handlers-IsSeen readable writable c.wire open_)
          (λ x seen.
            after_ready-IsSound timers rb sha1 i c (record c { wire = x.0 }) hung_up x.1 now w h
              here open_ refl refl seen lo hi))

  pub on_expired_at :
      (w : Worker timers rb sha1) (i : ℕ) (c : Client timers rb sha1)
      → w.sessions i ≡ some c
      → on_expired timers rb sha1 max_body ends i w ≡ done (release timers rb sha1 i c w)
  unfolding on_expired
  on_expired_at w i c here = rw (here, on_expired) refl

  pub Reached-IsSound : {w : Worker timers rb sha1} → Reached w → IsSound timers rb sha1 w
  Reached-IsSound started = new_worker-IsSound timers rb sha1
  Reached-IsSound (accepted {w} i fd wire h free unused open_) =
      on_accept-IsSound timers rb sha1 i fd wire w (Reached-IsSound h) free unused open_
  Reached-IsSound (networked {w} i c k h here open_ kept) =
      on_network-IsSound timers rb sha1 i c k w (Reached-IsSound h) here open_
  Reached-IsSound (ready {w} {w'} readable writable hung_up now i c h here open_ lo hi ran) =
      subst (OnDone (IsSound timers rb sha1)) ran
        (on_ready-IsSound w readable writable hung_up now i c (Reached-IsSound h) here open_ lo hi)
  Reached-IsSound (expired {w} {w'} i h l ran) =
      let sound = Reached-IsSound h in
      let (c, here) = sound.alive i l in
      subst (OnDone (IsSound timers rb sha1)) (sym (on_expired_at w i c here) ∙ ran)
        (release-IsSound timers rb sha1 i c w sound (sound.found i c here))

  -- In every worker of a run, an event of an open session reaches this session by the table: it is
  -- handled by this session's handlers, and neither a null pointer nor a released session is met.
  pub event-reaches :
      (w : Worker timers rb sha1) (readable writable hung_up : Bool) (now i : ℕ)
      (c : Client timers rb sha1)
      → Reached w
      → w.sessions i ≡ some c
      → c.wire.is_open ≡ true
      → on_ready timers rb sha1 max_body ends c.fd readable writable hung_up now w ≡ (do
        (wire, activity) ← handlers timers rb sha1 max_body ends readable writable c.wire
        done (after_ready timers rb sha1 i (record c { wire = wire }) hung_up activity now w))
  event-reaches w readable writable hung_up now i c h =
      on_ready_at w readable writable hung_up now i c (Reached-IsSound h)

  -- In every worker of a run, a session whose socket was closed is known to the timer wheel, and its
  -- expiry takes it from the pool: closed sessions are not leaked.
  pub closed-released :
      (w : Worker timers rb sha1) (i : ℕ) (c : Client timers rb sha1)
      → Reached w
      → w.sessions i ≡ some c
      → c.wire.is_open ≡ false
      → (linked w.wheel i ≡ true)
        × (w' : Worker timers rb sha1) × (on_expired timers rb sha1 max_body ends i w ≡ done w')
        × (w'.sessions i ≡ none)
  unfolding release
  closed-released w i c h here shut =
      let sound = Reached-IsSound h in
      (
        elim (sound.watched i c here) [
          | inl (z, o) ↦ absurd (let e = sym o ∙ shut in cc)
          | inr l ↦ l
        ],
        release timers rb sha1 i c w,
        on_expired_at w i c here,
        put-same timers rb sha1 w.sessions i none,
      )
