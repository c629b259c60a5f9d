-- ===== src/EventLoop/Loop/Stays.antt =====
-- The events and the expiries of a worker leave a silent newcomer in its place.
use warp_api.EventLoop.Loop.Newcomer.{
  IsKept, IsSilent, after_ready-other, after_ready_own, newcomer, on_ready_own, unlink-other,
}
use warp_api.EventLoop.{
  Client, TimerWheel, Worker, after_ready, handlers, on_accept, on_expired, on_ready, release,
}
use warp_api.EventLoop.Invariant.{put-other, put-same}
use warp_api.EventLoop.Found.{Reached, Reached-IsSound, accepted, event-reaches, expired, ready}
use warp_api.EventLoop.Loop.Rounds.{IsFresh, IsOf, IsTime}
use warp_api.Ring.{RingBuffer}
use warp_api.Session.Handler.{Endpoints}
use warp_api.Session.Serve.{Run, done, fault, stuck, ◌>>=◌}
use warp_api.Session.Epoll.{Wire, backlog}
use warp_api.Prelude.{
  ==_iff, Bool, Bool-cases, List, ap, arith, false, inl, inr, none, refl, some, some_inj, subst,
  sym, true, ℕ, ◌==◌, ◌∙◌, ◌≡◌, ◌≢◌,
}

>>=-eq-done {ℓ κ} :
    {A : Type ℓ} {B : Type κ} (m : Run A) (f : A → Run B) {b : B}
    → (m >>= f) ≡ done b
    → (a : A) × (m ≡ done a) × (f a ≡ done b)
>>=-eq-done (done a) f h = (a, refl, h)
>>=-eq-done fault f h = cc
>>=-eq-done stuck f h = cc

module _ (timers : TimerWheel) (rb : RingBuffer) (sha1 : List ℕ → List ℕ) (max_body : ℕ)
    (ends : Endpoints rb sha1) where
  open timers use {Wheel, linked}

  -- The worker behind an event.
  on_ready_behind :
      (w w' : Worker timers rb sha1) (readable writable hung_up : Bool) (now i : ℕ)
      (c : Client timers rb sha1)
      → Reached timers rb sha1 max_body ends w
      → w.sessions i ≡ some c
      → c.wire.is_open ≡ true
      → on_ready timers rb sha1 max_body ends c.fd readable writable hung_up now w ≡ done w'
      → (c' : Client timers rb sha1) × (b : Bool) × (w'
          ≡ after_ready timers rb sha1 i c' hung_up b now w)
  on_ready_behind w w' readable writable hung_up now i c r here open_ e =
      let (x, ran, same) =
        >>=-eq-done (handlers timers rb sha1 max_body ends readable writable c.wire)
          (λ (x : Wire rb sha1 × Bool).
            done (after_ready timers rb sha1 i (record c { wire = x.0 }) hung_up x.1 now w))
          (sym (
              event-reaches timers rb sha1 max_body ends w readable writable hung_up now i c r here
                open_)
            ∙ e) in
      (record c { wire = x.0 }, x.1, cc)

  abbrev pub StaysIn : ℕ → ℕ → Wire rb sha1 → Worker timers rb sha1 → Type 0
  StaysIn fd i wire w =
      (w.sessions i ≡ some (newcomer timers rb sha1 max_body ends fd wire))
      × (linked w.wheel i ≡ false)

  -- Behind an event of another session.
  ready-StaysIn_other :
      (fd i : ℕ) (wire : Wire rb sha1) (w w' : Worker timers rb sha1)
      (readable writable hung_up : Bool) (now j : ℕ) (c : Client timers rb sha1)
      → IsKept timers rb sha1 max_body ends fd i wire w
      → w.sessions j ≡ some c
      → c.wire.is_open ≡ true
      → j ≢ i
      → on_ready timers rb sha1 max_body ends c.fd readable writable hung_up now w ≡ done w'
      → StaysIn fd i wire w'
  ready-StaysIn_other fd i wire w w' readable writable hung_up now j c k here open_ apart e =
      let (c', b, same) =
        on_ready_behind w w' readable writable hung_up now j c k.reached here open_ e in
      let (sessions, wheel) =
        after_ready-other timers rb sha1 max_body ends j i c' hung_up b now w apart in
      subst (StaysIn fd i wire) (sym same) (sessions ∙ k.kept, wheel ∙ k.unlinked)

  -- Behind an event of its own.
  ready-StaysIn_own :
      (fd i : ℕ) (wire : Wire rb sha1) (w w' : Worker timers rb sha1)
      (readable writable hung_up : Bool) (now : ℕ)
      → IsKept timers rb sha1 max_body ends fd i wire w
      → wire.is_open ≡ true
      → backlog rb sha1 wire ≡ 0
      → IsSilent timers rb sha1 max_body ends fd fd readable hung_up
      → on_ready timers rb sha1 max_body ends fd readable writable hung_up now w ≡ done w'
      → StaysIn fd i wire w'
  ready-StaysIn_own fd i wire w w' readable writable hung_up now k open_ none_left (inl ne) e =
      absurd (ne refl)
  ready-StaysIn_own fd i wire w w' readable writable hung_up now k open_ none_left
        (inr (quiet, calm)) e =
      let (here, wheel) = after_ready_own timers rb sha1 max_body ends fd i wire now w in
      let own =
        on_ready_own timers rb sha1 max_body ends fd i wire readable writable hung_up now w k open_
          none_left quiet calm in
      let same : after_ready timers rb sha1 i (newcomer timers rb sha1 max_body ends fd wire) false
            false now w
          ≡ w' =
        cc in
      subst (StaysIn fd i wire) same (here, ap (λ v. linked v i) wheel ∙ k.unlinked)

  on_ready-StaysIn :
      (fd i : ℕ) (wire : Wire rb sha1) (w w' : Worker timers rb sha1)
      (readable writable hung_up : Bool) (now j : ℕ) (c : Client timers rb sha1)
      → wire.is_open ≡ true
      → backlog rb sha1 wire ≡ 0
      → w.sessions j ≡ some c
      → c.wire.is_open ≡ true
      → IsSilent timers rb sha1 max_body ends fd c.fd readable hung_up
      → IsKept timers rb sha1 max_body ends fd i wire w
      → on_ready timers rb sha1 max_body ends c.fd readable writable hung_up now w ≡ done w'
      → StaysIn fd i wire w'
  on_ready-StaysIn fd i wire w w' readable writable hung_up now j c open_ none_left here shown q k
        e =
      elim (Bool-cases (j == i)) [
        | inr apart ↦
            ready-StaysIn_other fd i wire w w' readable writable hung_up now j c k here shown
              (λ p. absurd (ground arith)) e
        | inl same ↦
            let p : c.fd ≡ fd =
              ap (λ (d : Client timers rb sha1). d.fd)
                (some_inj (sym here ∙ ap w.sessions ((==_iff j i).0 same) ∙ k.kept)) in
            ready-StaysIn_own fd i wire w w' readable writable hung_up now k open_ none_left
              (subst (λ d. IsSilent timers rb sha1 max_body ends fd d readable hung_up) p q)
              (ap (λ d. on_ready timers rb sha1 max_body ends d readable writable hung_up now w)
                  (sym p)
                ∙ e)
      ]

  pub on_ready-IsKept :
      (fd i : ℕ) (wire : Wire rb sha1) (w w' : Worker timers rb sha1) (fd' : ℕ)
      (readable writable hung_up : Bool) (now j : ℕ) (c : Client timers rb sha1)
      → wire.is_open ≡ true
      → backlog rb sha1 wire ≡ 0
      → IsOf timers rb sha1 max_body ends w fd' j c
      → IsSilent timers rb sha1 max_body ends fd fd' readable hung_up
      → IsTime timers rb sha1 max_body ends now
      → IsKept timers rb sha1 max_body ends fd i wire w
      → on_ready timers rb sha1 max_body ends fd' readable writable hung_up now w ≡ done w'
      → IsKept timers rb sha1 max_body ends fd i wire w'
  on_ready-IsKept fd i wire w w' fd' readable writable hung_up now j c open_ none_left o q t k e =
      let e' =
        ap (λ d. on_ready timers rb sha1 max_body ends d readable writable hung_up now w)
          (sym o.same)
        ∙ e in
      let (kept, unlinked) =
        on_ready-StaysIn fd i wire w w' readable writable hung_up now j c open_ none_left o.here
          o.open_
          (subst (λ d. IsSilent timers rb sha1 max_body ends fd d readable hung_up) o.same q) k
          e' in
      record {
        reached = ready readable writable hung_up now j c k.reached o.here o.open_ t.0 t.1 e';
        kept = kept;
        unlinked = unlinked;
      }

  on_expired-StaysIn :
      (fd i : ℕ) (wire : Wire rb sha1) (w w' : Worker timers rb sha1) (j : ℕ)
      (c : Client timers rb sha1)
      → j ≢ i
      → IsKept timers rb sha1 max_body ends fd i wire w
      → w.sessions j ≡ some c
      → on_expired timers rb sha1 max_body ends j w ≡ done w'
      → StaysIn fd i wire w'
  unfolding on_expired release
  on_expired-StaysIn fd i wire w w' j c ne k here e =
      let same : release timers rb sha1 j c w ≡ w' =
        let e' : on_expired timers rb sha1 max_body ends j w ≡ done (release timers rb sha1 j c w) =
          rw (here, on_expired) refl in
        cc in
      subst (StaysIn fd i wire) same (
        put-other timers rb sha1 w.sessions j i none ne ∙ k.kept,
        unlink-other timers rb sha1 max_body ends j i w.wheel ne ∙ k.unlinked,
      )

  pub on_expired-IsKept :
      (fd i : ℕ) (wire : Wire rb sha1) (w w' : Worker timers rb sha1) (j : ℕ)
      → linked w.wheel j ≡ true
      → IsKept timers rb sha1 max_body ends fd i wire w
      → on_expired timers rb sha1 max_body ends j w ≡ done w'
      → IsKept timers rb sha1 max_body ends fd i wire w'
  on_expired-IsKept fd i wire w w' j l k e =
      let (c, here) = (Reached-IsSound timers rb sha1 max_body ends k.reached).alive j l in
      let apart : j ≢ i = λ p. absurd (let a = ap (linked w.wheel) p in let b = k.unlinked in cc) in
      let (kept, unlinked) = on_expired-StaysIn fd i wire w w' j c apart k here e in
      record { reached = expired j k.reached l e; kept = kept; unlinked = unlinked }

  -- The wheel knows no place that is free.
  pub newcomer-IsKept :
      (fd i : ℕ) (wire : Wire rb sha1) (w : Worker timers rb sha1)
      → Reached timers rb sha1 max_body ends w
      → IsFresh timers rb sha1 max_body ends w i fd wire
      → IsKept timers rb sha1 max_body ends fd i wire (on_accept timers rb sha1 i fd wire w)
  unfolding on_accept
  newcomer-IsKept fd i wire w r f = record {
    reached = accepted i fd wire r f.free f.unused f.open_;
    kept = put-same timers rb sha1 w.sessions i _;
    unlinked = elim (Bool-cases (linked w.wheel i)) [
      | inr e ↦ e
      | inl l ↦ absurd (
          let (c, here) = (Reached-IsSound timers rb sha1 max_body ends r).alive i l in
          let free = f.free in cc)
    ];
  }
