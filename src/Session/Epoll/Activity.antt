-- ===== src/Session/Epoll/Activity.antt =====
-- A handler of the epoll build that closes its socket answers true.
use warp_api.Session.Epoll.{
  advance_out, send, on_write_complete, finish_write, flush_loop, Wire, backlog, on_bytes,
  on_read_ready, on_write_ready, out_of, pending, read_loop, receive, stored,
}
use warp_api.Session.Epoll.Moved.{Sent-cases}
use warp_api.Session.Epoll.Arrivals.{Received-cases}
use warp_api.Ring.{RingBuffer}
use warp_api.Session.Handler.{Endpoints}
use warp_api.Session.Serve.{OnDone, Run, done, fault, stuck}
use warp_api.Prelude.{
  Bool, List, arith, false, if_cases, inl, inr, list_cases, refl, suc, true, zero, zero_or_suc, ℕ,
  ◌<◌, ◌==◌, ◌∷◌, ◌≡◌, ◌⊎◌,
}

module _ (rb : RingBuffer) (sha1 : List ℕ → List ℕ) where
  open rb use {contents, read_region, read_region_progress, write_space}

  -- The socket is open, or the answer is true.
  abbrev pub IsSeen : Wire rb sha1 × Bool → Type 0
  IsSeen (w, b) = (w.is_open ≡ true) ⊎ (b ≡ true)

  -- A round has sent something, or there is something to send.
  abbrev IsMoving : Bool → Wire rb sha1 → Type 0
  IsMoving wrote w = (wrote ≡ true) ⊎ ((w.is_open ≡ true) × (0 < backlog rb sha1 w))

  finish_write-IsSeen :
      (wrote : Bool) (w : Wire rb sha1) → IsMoving wrote w → IsSeen (finish_write rb sha1 wrote w)
  unfolding finish_write
  finish_write-IsSeen wrote w (inl e) = inr e
  finish_write-IsSeen wrote w (inr (open_, some_left)) = inl (
      if_cases (λ w'. w'.is_open ≡ true) (backlog rb sha1 w == 0) (on_write_complete rb sha1 w) w
        (λ e. absurd (ground arith)) (λ _. open_))

  flush_loop-IsSeen :
      (fuel : ℕ) (wrote : Bool) (w : Wire rb sha1)
      → IsMoving wrote w
      → OnDone IsSeen (flush_loop rb sha1 fuel wrote w)
  unfolding flush_loop
  flush_loop-IsSeen zero wrote w h = tt
  flush_loop-IsSeen (suc fuel) wrote w h = elim (list_cases (read_region (out_of rb sha1 w))) [
    | inl e ↦ rw (e, flush_loop) (finish_write-IsSeen wrote w h)
    | inr (c, cs, e) ↦ elim (Sent-cases (send rb sha1 w (c ∷ cs))) [
      | inl (n, k, s) ↦
          rw (e, s, flush_loop) (flush_loop-IsSeen fuel true (advance_out rb sha1 w n k) (inl refl))
      | inr (inl (k, s)) ↦
          rw (e, s, flush_loop) (finish_write-IsSeen wrote (record w { socket = k }) h)
      | inr (inr s) ↦ rw (e, s, flush_loop) (inr refl)
    ]
  ]

  pub on_write_ready-IsSeen :
      (w : Wire rb sha1) → w.is_open ≡ true → OnDone IsSeen (on_write_ready rb sha1 w)
  unfolding on_write_ready
  on_write_ready-IsSeen w open_ =
      if_cases (OnDone IsSeen) (backlog rb sha1 w == 0) (done (w, false))
        (flush_loop rb sha1 (suc (backlog rb sha1 w)) false w) (λ _. inl open_)
        (λ e. flush_loop-IsSeen (suc (backlog rb sha1 w)) false w (inr (open_, ground arith)))

  -- Nothing to write is no activity.
  pub on_write_ready_empty :
      (w : Wire rb sha1) → backlog rb sha1 w ≡ 0 → on_write_ready rb sha1 w ≡ done (w, false)
  unfolding on_write_ready
  on_write_ready_empty w e = rw e

  module _ (max_body : ℕ) (ends : Endpoints rb sha1) where
    read_loop-IsSeen :
        (fuel : ℕ) (seen : Bool) (w : Wire rb sha1)
        → IsSeen (w, seen)
        → OnDone IsSeen (read_loop rb sha1 max_body ends fuel seen w)
    unfolding read_loop
    read_loop-IsSeen zero seen w h = tt
    read_loop-IsSeen (suc fuel) seen w h = elim (zero_or_suc (write_space w.conn.input)) [
      | inl full ↦ rw (full, read_loop) (inr refl)
      | inr (space, e) ↦ elim (Received-cases (receive rb sha1 w (suc space))) [
        | inl (bytes, k, r) ↦
            rw (e, r, read_loop)
              (go (on_bytes rb sha1 max_body ends (stored rb sha1 w bytes k))
                (λ w'. read_loop-IsSeen fuel true w' (inr refl)))
        | inr (inl r) ↦ rw (e, r, read_loop) h
        | inr (inr (inl r)) ↦ rw (e, r, read_loop) (inr refl)
        | inr (inr (inr r)) ↦ rw (e, r, read_loop) (inr refl)
      ]
    ]
      where
        go :
            (r : Run (Wire rb sha1 × Bool))
            → ((w' : Wire rb sha1) → OnDone IsSeen (read_loop rb sha1 max_body ends fuel true w'))
            → OnDone IsSeen (elim r [
              | fault ↦ fault
              | stuck ↦ stuck
              | done (w', stop) ↦ elim stop [
                | true ↦ done (w', true)
                | false ↦ read_loop rb sha1 max_body ends fuel true w'
              ]
            ])
        go (done (w', true)) next = inr refl
        go (done (w', false)) next = next w'
        go fault next = tt
        go stuck next = tt

    pub on_read_ready-IsSeen :
        (w : Wire rb sha1)
        → w.is_open ≡ true
        → OnDone IsSeen (on_read_ready rb sha1 max_body ends w)
    unfolding on_read_ready
    on_read_ready-IsSeen w open_ =
        read_loop-IsSeen (suc (pending w.socket.arriving)) false w (inl open_)
