-- ===== src/EventLoop/Loop/Newcomer.antt =====
-- A client that was just accepted, and the steps of a worker that leave it as it is.
use warp_api.EventLoop.{
  Client, TimerWheel, Worker, after_ready, handlers, is_due, on_accept, on_network, on_ready, put,
  release,
}
use warp_api.EventLoop.Invariant.{put-other, put-same}
use warp_api.EventLoop.Found.{Reached, accepted, event-reaches, networked}
use warp_api.EventLoop.Loop.Rounds.{IsFed, IsFresh}
use warp_api.Ring.{RingBuffer}
use warp_api.Session.Handler.{Endpoints}
use warp_api.Session.Serve.{Run, done}
use warp_api.Session.Epoll.{Socket, Wire, backlog, on_write_ready}
use warp_api.Session.Epoll.Activity.{on_write_ready_empty}
use warp_api.Prelude.{
  Bool, List, ap, arith, false, if_cases, if◌then◌else◌, inl, inr, none, refl, some, some_inj, sym,
  true, ℕ, ◌&&◌, ◌∙◌, ◌≡◌, ◌≢◌, ◌⊎◌,
}

module _ (timers : TimerWheel) (rb : RingBuffer) (sha1 : List ℕ → List ℕ) (max_body : ℕ)
    (ends : Endpoints rb sha1) where
  open timers use {Wheel, linked, update, unlink, linked-update, linked-unlink}

  -- A client that was just accepted, and the events that such a client gives rise to while it sends
  -- nothing: its socket can be written to.
  abbrev pub newcomer : ℕ → Wire rb sha1 → Client timers rb sha1
  newcomer fd wire = record { wire = wire; fd = fd; last_activity_tick = 0 }

  abbrev pub IsSilent : ℕ → ℕ → Bool → Bool → Type 0
  IsSilent fd other readable hung_up = (other ≢ fd) ⊎ ((readable ≡ false) × (hung_up ≡ false))

  pub unlink-other : (i j : ℕ) (w : Wheel) → i ≢ j → linked (unlink w i) j ≡ linked w j
  unlink-other i j w ne = ground (arith, linked-unlink w i j)

  -- The steps that go to another place.
  pub after_ready-other :
      (i j : ℕ) (c : Client timers rb sha1) (hung_up activity : Bool) (now : ℕ)
      (w : Worker timers rb sha1)
      → i ≢ j
      → ((after_ready timers rb sha1 i c hung_up activity now w).sessions j ≡ w.sessions j)
        × (linked (after_ready timers rb sha1 i c hung_up activity now w).wheel j
            ≡ linked w.wheel j)
  unfolding after_ready release
  after_ready-other i j c true activity now w ne =
      (put-other timers rb sha1 w.sessions i j none ne, unlink-other i j w.wheel ne)
  after_ready-other i j c false activity now w ne =
      if_cases
        (λ (w' : Worker timers rb sha1).
          (w'.sessions j ≡ w.sessions j) × (linked w'.wheel j ≡ linked w.wheel j))
        (activity && is_due now c.last_activity_tick)
        (record w {
          sessions = put timers rb sha1 w.sessions i (some (record c { last_activity_tick = now }));
          wheel = update w.wheel i;
        })
        (record w { sessions = put timers rb sha1 w.sessions i (some c) })
        (λ _.
          (put-other timers rb sha1 w.sessions i j _ ne, ground (arith, linked-update w.wheel i j)))
        (λ _. (put-other timers rb sha1 w.sessions i j (some c) ne, refl))

  -- A socket that can be written to, where nothing is to be written.
  handlers-writable :
      (writable : Bool) (wire : Wire rb sha1)
      → backlog rb sha1 wire ≡ 0
      → handlers timers rb sha1 max_body ends false writable wire ≡ done (wire, false)
  unfolding handlers
  handlers-writable writable wire e =
      let written : Run (Wire rb sha1 × Bool) =
        if wire.is_open && writable then on_write_ready rb sha1 wire else done (wire, false) in
      let same : written ≡ done (wire, false) =
        if_cases (λ (r : Run (Wire rb sha1 × Bool)). r ≡ done (wire, false))
          (wire.is_open && writable) (on_write_ready rb sha1 wire) (done (wire, false))
          (λ _. on_write_ready_empty rb sha1 wire e) (λ _. refl) in
      rw same refl

  pub record IsKept (fd i : ℕ) (wire : Wire rb sha1) (w : Worker timers rb sha1) : Type 0 where
    pub reached : Reached timers rb sha1 max_body ends w
    pub kept : w.sessions i ≡ some (newcomer fd wire)
    pub unlinked : linked w.wheel i ≡ false

  pub on_accept-IsKept :
      (fd i j fd' : ℕ) (wire wire' : Wire rb sha1) (w : Worker timers rb sha1)
      → IsFresh timers rb sha1 max_body ends w j fd' wire'
      → IsKept fd i wire w
      → IsKept fd i wire (on_accept timers rb sha1 j fd' wire' w)
  unfolding on_accept
  on_accept-IsKept fd i j fd' wire wire' w f k = record {
    reached = accepted j fd' wire' k.reached f.free f.unused f.open_;
    kept =
        put-other timers rb sha1 w.sessions j i _
          (λ p. absurd (let a = f.free in let b = k.kept in let c = ap w.sessions p in cc))
        ∙ k.kept;
    unlinked = k.unlinked;
  }

  pub on_network-IsKept :
      (fd i j : ℕ) (wire : Wire rb sha1) (c : Client timers rb sha1) (k : Socket)
      (w : Worker timers rb sha1)
      → IsFed timers rb sha1 max_body ends w j c k
      → IsSilent fd c.fd true false
      → IsKept fd i wire w
      → IsKept fd i wire (on_network timers rb sha1 j c k w)
  unfolding on_network
  on_network-IsKept fd i j wire c k w fed (inr (loud, calm)) kept = absurd cc
  on_network-IsKept fd i j wire c k w fed (inl ne) kept = record {
    reached = networked j c k kept.reached fed.here fed.open_ fed.sent_kept;
    kept =
        put-other timers rb sha1 w.sessions j i _ (λ p. absurd (
          ne (
            ap (λ (d : Client timers rb sha1). d.fd)
              (some_inj (sym fed.here ∙ ap w.sessions p ∙ kept.kept)))))
        ∙ kept.kept;
    unlinked = kept.unlinked;
  }

  -- An event of the newcomer itself.
  pub on_ready_own :
      (fd i : ℕ) (wire : Wire rb sha1) (readable writable hung_up : Bool) (now : ℕ)
      (w : Worker timers rb sha1)
      → IsKept fd i wire w
      → wire.is_open ≡ true
      → backlog rb sha1 wire ≡ 0
      → readable ≡ false
      → hung_up ≡ false
      → on_ready timers rb sha1 max_body ends fd readable writable hung_up now w
        ≡ done (after_ready timers rb sha1 i (newcomer fd wire) false false now w)
  on_ready_own fd i wire readable writable hung_up now w k open_ none_left quiet calm =
      event-reaches timers rb sha1 max_body ends w readable writable hung_up now i
        (newcomer fd wire) k.reached k.kept open_
      ∙ rw (quiet, calm, handlers-writable writable wire none_left) refl

  pub after_ready_own :
      (fd i : ℕ) (wire : Wire rb sha1) (now : ℕ) (w : Worker timers rb sha1)
      → ((after_ready timers rb sha1 i (newcomer fd wire) false false now w).sessions i
          ≡ some (newcomer fd wire))
        × ((after_ready timers rb sha1 i (newcomer fd wire) false false now w).wheel ≡ w.wheel)
  unfolding after_ready
  after_ready_own fd i wire now w = (put-same timers rb sha1 w.sessions i _, refl)
