-- ===== src/EventLoop/Steps.antt =====
-- An accepted connection and an event keep the table, the pool and the wheel in agreement.
use warp_api.Prelude.{
  ◌%◌, ap₂, le→leb, leb→le, ℕ, ◌+◌, ◌-◌, ◌*◌, ◌≤◌, ◌<◌, ◌^◌, ◌≡◌, ◌≢◌, refl, ap, sym, ◌∙◌, subst,
  Bool, true, false, ◌&&◌, ◌||◌, Option, none, some, some_inj, List, ◌++◌, leb, ◌==◌, ==_iff,
  if_cases, length, length-append, length-set, length-replicate, get_or, get_or-set,
  get_or-set_other, get_or-padded, set, replicate, arith, Bool-cases, inl, inr, ◌⊎◌,
}
use warp_api.Ring.{RingBuffer}
use warp_api.Session.Epoll.{Socket, Wire}
use warp_api.EventLoop.{
  TimerWheel, Client, Worker, put, release, resized, on_accept, on_network, is_due, after_ready,
}
use warp_api.EventLoop.Invariant.{or_true, IsSound, put-inv, put-same, put-other, release-IsSound}

or_inv : (i j : ℕ) (b : Bool) → ((i == j) || b) ≡ true → (i ≡ j) ⊎ (b ≡ true)
or_inv i j b e = ground arith

not_late :
    (activity : Bool) (now last : ℕ)
    → activity ≡ true
    → last ≡ 0
    → is_due now 0 ≡ true
    → (activity && is_due now last) ≡ false
    → ⊥
not_late activity now last active zero_last due late =
    let e = ap₂ (λ a l. a && is_due now l) active zero_last ∙ due in cc

module _ (timers : TimerWheel) (rb : RingBuffer) (sha1 : List ℕ → List ℕ) where
  open timers use {Wheel, linked, update, unlink, linked-empty, linked-update, linked-unlink}

  resized-length :
      (t : List (Option ℕ)) (fd : ℕ) → 0 < length t → fd < length (resized timers rb sha1 t fd)
  unfolding resized
  resized-length t fd h =
      if_cases (λ r. fd < length r) (leb (length t) fd) (t ++ replicate (fd * 2 - length t) none) t
        (λ e.
          let nothing : Option ℕ = none in
          omega (
            arith,
            length-append t (replicate (fd * 2 - length t) nothing),
            length-replicate (fd * 2 - length t) nothing,
            leb→le (length t) fd e,
            h,
          ))
        (λ e. ground arith)

  resized-same :
      (t : List (Option ℕ)) (fd i : ℕ)
      → get_or (resized timers rb sha1 t fd) i none ≡ get_or t i none
  unfolding resized
  resized-same t fd i =
      if_cases (λ r. get_or r i none ≡ get_or t i none) (leb (length t) fd)
        (t ++ replicate (fd * 2 - length t) none) t
        (λ _. get_or-padded t (fd * 2 - length t) i none) (λ _. refl)

  -- The descriptor of no open session, a free place of the pool, and an open socket.
  pub on_accept-IsSound :
      (i fd : ℕ) (wire : Wire rb sha1) (w : Worker timers rb sha1)
      → IsSound timers rb sha1 w
      → w.sessions i ≡ none
      → ((j : ℕ) (c : Client timers rb sha1)
          → w.sessions j ≡ some c
          → c.wire.is_open ≡ true
          → fd ≢ c.fd)
      → wire.is_open ≡ true
      → IsSound timers rb sha1 (on_accept timers rb sha1 i fd wire w)
  unfolding on_accept
  on_accept-IsSound i fd wire w h free unused open_ =
      let new : Client timers rb sha1 = record { wire = wire; fd = fd; last_activity_tick = 0 } in
      record {
        sized = omega (
          arith,
          length-set (resized timers rb sha1 w.table fd) fd (some i),
          resized-length w.table fd h.sized,
        );
        found = λ j c e o. elim (put-inv timers rb sha1 w.sessions i j (some new) c e) [
          | inl (p, q) ↦
              ap
                (λ (x : Client timers rb sha1).
                  get_or (set (resized timers rb sha1 w.table fd) fd (some i)) x.fd none)
                (sym (some_inj q))
              ∙ get_or-set (resized timers rb sha1 w.table fd) fd (some i) none
                  (resized-length w.table fd h.sized)
              ∙ ap some p
          | inr (apart, there) ↦
              get_or-set_other (resized timers rb sha1 w.table fd) fd c.fd (some i) none
                (unused j c there o)
              ∙ resized-same w.table fd c.fd
              ∙ h.found j c there o
        ];
        watched = λ j c e. elim (put-inv timers rb sha1 w.sessions i j (some new) c e) [
          | inl (p, q) ↦
              subst
                (λ (x : Client timers rb sha1).
                  ((x.last_activity_tick ≡ 0) × (x.wire.is_open ≡ true))
                  ⊎ (linked w.wheel j ≡ true))
                (some_inj q) (inl (refl, open_))
          | inr (apart, there) ↦ h.watched j c there
        ];
        alive = λ j l.
            let (c, there) = h.alive j l in
            (
              c,
              put-other timers rb sha1 w.sessions i j (some new)
                    (λ p. let e = sym free ∙ ap w.sessions p ∙ there in cc)
                  ∙ there,
            );
      }

  -- A session that was open takes new members, and the wheel may come to know it.
  store-IsSound :
      (i : ℕ) (c c' : Client timers rb sha1) (w : Worker timers rb sha1) (wheel : Wheel)
      → IsSound timers rb sha1 w
      → w.sessions i ≡ some c
      → c.wire.is_open ≡ true
      → c'.fd ≡ c.fd
      → ((j : ℕ) → linked w.wheel j ≡ true → linked wheel j ≡ true)
      → ((j : ℕ) → linked wheel j ≡ true → (i ≡ j) ⊎ (linked w.wheel j ≡ true))
      → ((c'.last_activity_tick ≡ 0) × (c'.wire.is_open ≡ true)) ⊎ (linked wheel i ≡ true)
      → IsSound timers rb sha1
          (record w { sessions = put timers rb sha1 w.sessions i (some c'); wheel = wheel })
  store-IsSound i c c' w wheel h here open_ fd keep only state = record {
    sized = h.sized;
    found = λ j d e o. elim (put-inv timers rb sha1 w.sessions i j (some c') d e) [
      | inl (p, q) ↦
          ap (λ (x : Client timers rb sha1). get_or w.table x.fd none) (sym (some_inj q))
          ∙ ap (λ f. get_or w.table f none) fd
          ∙ h.found i c here open_
          ∙ ap some p
      | inr (apart, there) ↦ h.found j d there o
    ];
    watched = λ j d e. elim (put-inv timers rb sha1 w.sessions i j (some c') d e) [
      | inl (p, q) ↦
          subst
            (λ k. ((d.last_activity_tick ≡ 0) × (d.wire.is_open ≡ true)) ⊎ (linked wheel k ≡ true))
            p
            (subst
              (λ (x : Client timers rb sha1).
                ((x.last_activity_tick ≡ 0) × (x.wire.is_open ≡ true)) ⊎ (linked wheel i ≡ true))
              (some_inj q) state)
      | inr (apart, there) ↦ elim (h.watched j d there) [
        | inl fresh ↦ inl fresh
        | inr l ↦ inr (keep j l)
      ]
    ];
    alive = λ j l. elim (Bool-cases (i == j)) [
      | inl same ↦ (
        c',
        subst (λ k. put timers rb sha1 w.sessions i (some c') k ≡ some c') ((==_iff i j).0 same)
            (put-same timers rb sha1 w.sessions i (some c')),
      )
      | inr apart ↦ elim (only j l) [
        | inl p ↦ absurd (ground arith)
        | inr old ↦
            let (d, there) = h.alive j old in
            (
              d,
              put-other timers rb sha1 w.sessions i j (some c') (λ p. absurd (ground arith))
                  ∙ there,
            )
      ]
    ];
  }

  pub on_network-IsSound :
      (i : ℕ) (c : Client timers rb sha1) (k : Socket) (w : Worker timers rb sha1)
      → IsSound timers rb sha1 w
      → w.sessions i ≡ some c
      → c.wire.is_open ≡ true
      → IsSound timers rb sha1 (on_network timers rb sha1 i c k w)
  unfolding on_network
  on_network-IsSound i c k w h here open_ =
      store-IsSound i c (record c { wire = record c.wire { socket = k } }) w w.wheel h here open_
        refl (λ j l. l) (λ j l. inr l) (h.watched i c here)

  linked_same : (wheel : Wheel) (i : ℕ) → linked (update wheel i) i ≡ true
  linked_same wheel i = linked-update wheel i i ∙ (let e = (==_iff i i).1 refl in ground arith)

  due_first : (now : ℕ) → 1000 ≤ now → now < 2 ^ 64 → is_due now 0 ≡ true
  due_first now lo hi = le→leb 1000 ((now + (2 ^ 64 - 0)) % 2 ^ 64) (omega arith)

  -- An event of an open session, whose handlers left it open or answered true, at a time of the
  -- clock behind its first tick.
  pub after_ready-IsSound :
      (i : ℕ) (c c' : Client timers rb sha1) (hung_up activity : Bool) (now : ℕ)
      (w : Worker timers rb sha1)
      → IsSound timers rb sha1 w
      → w.sessions i ≡ some c
      → c.wire.is_open ≡ true
      → c'.fd ≡ c.fd
      → c'.last_activity_tick ≡ c.last_activity_tick
      → (c'.wire.is_open ≡ true) ⊎ (activity ≡ true)
      → 1000 ≤ now
      → now < 2 ^ 64
      → IsSound timers rb sha1 (after_ready timers rb sha1 i c' hung_up activity now w)
  unfolding after_ready
  after_ready-IsSound i c c' hung_up activity now w h here open_ fd last seen lo hi =
      if_cases (IsSound timers rb sha1) hung_up (release timers rb sha1 i c' w) _
        (λ _.
          release-IsSound timers rb sha1 i c' w h
            (λ _. ap (λ f. get_or w.table f none) fd ∙ h.found i c here open_))
        (λ _.
          if_cases (IsSound timers rb sha1) (activity && is_due now c'.last_activity_tick) _ _
            (λ due.
              store-IsSound i c (record c' { last_activity_tick = now }) w (update w.wheel i) h here
                open_ fd (λ j l. linked-update w.wheel i j ∙ or_true (i == j) (linked w.wheel j) l)
                (λ j l. or_inv i j (linked w.wheel j) (sym (linked-update w.wheel i j) ∙ l))
                (inr (linked_same w.wheel i)))
            (λ late.
              store-IsSound i c c' w w.wheel h here open_ fd (λ j l. l) (λ j l. inr l)
                (elim (h.watched i c here) [
                  | inr l ↦ inr l
                  | inl (z, o) ↦ elim seen [
                    | inl still ↦ inl (last ∙ z, still)
                    | inr active ↦
                        let d = due_first now lo hi in
                        absurd
                          (not_late activity now c'.last_activity_tick active (last ∙ z) d late)
                  ]
                ])))
