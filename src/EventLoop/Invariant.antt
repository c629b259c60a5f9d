-- ===== src/EventLoop/Invariant.antt =====
-- The session table, the pool and the timer wheel agree, and each step keeps it so.
use warp_api.Prelude.{
  ℕ, ◌<◌, ◌≡◌, ◌≢◌, refl, ap, sym, ◌∙◌, Bool, true, not, ◌&&◌, ◌||◌, Option, none, some, some_inj,
  List, ltb, ◌==◌, ==_iff, if_cases, length, length-set, length-replicate, get_or, get_or-set_other,
  set, replicate, arith, Bool-cases, inl, inr, ◌⊎◌,
}
use warp_api.Ring.{RingBuffer}
use warp_api.EventLoop.{TimerWheel, Client, Worker, put, release, max_events, new_worker}

pub and_true : (a b : Bool) → (a && b) ≡ true → (a ≡ true) × (b ≡ true)
and_true a b e = ground arith

pub or_true : (a b : Bool) → b ≡ true → (a || b) ≡ true
or_true a b e = ground arith

not_same : (i j : ℕ) (b : Bool) → i ≢ j → b ≡ true → (not (i == j) && b) ≡ true
not_same i j b ne e = ground arith

replicated-length : (n : ℕ) → 0 < n → 0 < length (replicate {A = Option ℕ} n none)
replicated-length n h =
    let nothing : Option ℕ = none in omega (arith, length-replicate n nothing, h)

module _ (timers : TimerWheel) (rb : RingBuffer) (sha1 : List ℕ → List ℕ) where
  open timers use {Wheel, linked, update, unlink, linked-empty, linked-update, linked-unlink}

  -- The table leads to every session whose socket is open; a session that the wheel does not know
  -- is open and was never active; and the wheel knows sessions of the pool only.
  pub record IsSound (w : Worker timers rb sha1) : Type 0 where
    pub sized : 0 < length w.table
    pub found :
        (i : ℕ) (c : Client timers rb sha1)
        → w.sessions i ≡ some c
        → c.wire.is_open ≡ true
        → get_or w.table c.fd none ≡ some i
    pub watched :
        (i : ℕ) (c : Client timers rb sha1)
        → w.sessions i ≡ some c
        → ((c.last_activity_tick ≡ 0) × (c.wire.is_open ≡ true)) ⊎ (linked w.wheel i ≡ true)
    pub alive :
        (i : ℕ) → linked w.wheel i ≡ true → (c : Client timers rb sha1) × (w.sessions i ≡ some c)

  pub put-inv :
      (s : ℕ → Option (Client timers rb sha1)) (i j : ℕ) (o : Option (Client timers rb sha1))
      (c : Client timers rb sha1)
      → put timers rb sha1 s i o j ≡ some c
      → ((i ≡ j) × (o ≡ some c)) ⊎ ((i ≢ j) × (s j ≡ some c))
  unfolding put
  put-inv s i j o c e = elim (Bool-cases (i == j)) [
    | inl same ↦ inl ((==_iff i j).0 same, rw same at e)
    | inr apart ↦ inr (λ p. absurd (ground arith), rw apart at e)
  ]

  pub put-same :
      (s : ℕ → Option (Client timers rb sha1)) (i : ℕ) (o : Option (Client timers rb sha1))
      → put timers rb sha1 s i o i ≡ o
  unfolding put
  put-same s i o = rw ((==_iff i i).1 refl)

  pub put-other :
      (s : ℕ → Option (Client timers rb sha1)) (i j : ℕ) (o : Option (Client timers rb sha1))
      → i ≢ j
      → put timers rb sha1 s i o j ≡ s j
  unfolding put
  put-other s i j o ne = elim (Bool-cases (i == j)) [
    | inl same ↦ absurd (ne ((==_iff i j).0 same))
    | inr apart ↦ rw apart
  ]

  pub new_worker-IsSound : IsSound (new_worker timers rb sha1)
  new_worker-IsSound = record {
    sized = replicated-length max_events (omega arith);
    found = λ i c e open_. cc;
    watched = λ i c e. cc;
    alive = λ i e. absurd (let n = linked-empty i in cc);
  }

  pub release-IsSound :
      (i : ℕ) (c : Client timers rb sha1) (w : Worker timers rb sha1)
      → IsSound w
      → (c.wire.is_open ≡ true → get_or w.table c.fd none ≡ some i)
      → IsSound (release timers rb sha1 i c w)
  unfolding release
  release-IsSound i c w h here = record {
    sized =
        if_cases (λ t. 0 < length t) (c.wire.is_open && ltb c.fd (length w.table))
          (set w.table c.fd none) w.table
          (λ _. omega (arith, length-set w.table c.fd none, h.sized)) (λ _. h.sized);
    found = λ j d e open_. elim (put-inv w.sessions i j none d e) [
      | inl (p, bad) ↦ cc
      | inr (apart, there) ↦
          if_cases (λ t. get_or t d.fd none ≡ some j) (c.wire.is_open && ltb c.fd (length w.table))
            (set w.table c.fd none) w.table
            (λ both.
              get_or-set_other w.table c.fd d.fd none none (λ q. apart (
                some_inj (
                  sym (here (and_true c.wire.is_open (ltb c.fd (length w.table)) both).0)
                  ∙ ap (λ f. get_or w.table f none) q
                  ∙ h.found j d there open_)))
              ∙ h.found j d there open_)
            (λ _. h.found j d there open_)
    ];
    watched = λ j d e. elim (put-inv w.sessions i j none d e) [
      | inl (p, bad) ↦ cc
      | inr (apart, there) ↦ elim (h.watched j d there) [
        | inl fresh ↦ inl fresh
        | inr l ↦ inr (linked-unlink w.wheel i j ∙ not_same i j (linked w.wheel j) apart l)
      ]
    ];
    alive = λ j e.
        let (apart, l) =
          and_true (not (i == j)) (linked w.wheel j) (sym (linked-unlink w.wheel i j) ∙ e) in
        let (d, there) = h.alive j l in
        (d, put-other w.sessions i j none (λ p. absurd (ground arith)) ∙ there);
  }
