-- ===== src/Session/Epoll/Arrivals.antt =====
-- What a `recv` takes of the pieces that arrived.
use warp_api.Prelude.{
  ℕ, suc, ◌+◌, ◌≤◌, ◌<◌, ◌≡◌, refl, ap, List, [], ◌∷◌, length, length-take, length-drop, drop,
  arith, inl, inr, ◌⊎◌, if_cases,
}
use warp_api.Ring.{RingBuffer}
use warp_api.Session.Epoll.{
  Socket, RecvEnd, again, end_of_stream, failed, Received, got, nothing, ended, error, pending,
  put_back, recv_end, recv_from, Wire, receive,
}

-- What `recv` gives is a first part, not empty, of what arrived; where it gives nothing, nothing
-- has arrived.
abbrev pub RecvFits : Socket → ℕ → Received → Type 0
RecvFits k space (got bytes k') =
    (0 < length bytes)
    × (length bytes ≤ space)
    × (pending k'.arriving + length bytes ≡ pending k.arriving)
RecvFits k space nothing = k.arriving ≡ []
RecvFits k space ended = Unit
RecvFits k space error = Unit

pending-put_back :
    (bytes : List ℕ) (more : List (ℕ × List ℕ))
    → pending (put_back bytes more) ≡ length bytes + pending more
unfolding put_back
pending-put_back [] more = omega arith
pending-put_back (c ∷ cs) more = refl

recv_end-RecvFits :
    (k : Socket) (space : ℕ) (r : RecvEnd) → k.arriving ≡ [] → RecvFits k space (recv_end r)
unfolding recv_end
recv_end-RecvFits k space again e = e
recv_end-RecvFits k space end_of_stream e = tt
recv_end-RecvFits k space failed e = tt

recv_from-RecvFits :
    (k : Socket) (space : ℕ) (pieces : List (ℕ × List ℕ))
    → k.arriving ≡ pieces
    → RecvFits k (suc space) (recv_from k (suc space) pieces)
unfolding recv_from
recv_from-RecvFits k space [] e = recv_end-RecvFits k (suc space) k.ending e
recv_from-RecvFits k space ((c, cs) ∷ more) e = (
  omega arith,
  omega (arith, length-take space cs),
  omega (
    arith,
    length-take space cs,
    length-drop space cs,
    pending-put_back (drop space cs) more,
    ap pending e,
  ),
)

pub Received-cases :
    (r : Received)
    → ((bytes : List ℕ) × (k : Socket) × (r ≡ got bytes k))
      ⊎ (r ≡ nothing)
      ⊎ (r ≡ ended)
      ⊎ (r ≡ error)
Received-cases (got bytes k) = inl (bytes, k, refl)
Received-cases nothing = inr (inl refl)
Received-cases ended = inr (inr (inl refl))
Received-cases error = inr (inr (inr refl))

module _ (rb : RingBuffer) (sha1 : List ℕ → List ℕ) where
  pub receive-RecvFits :
      (w : Wire rb sha1) (space : ℕ) → RecvFits w.socket (suc space) (receive rb sha1 w (suc space))
  unfolding receive
  receive-RecvFits w space =
      if_cases (RecvFits w.socket (suc space)) w.is_open
        (recv_from w.socket (suc space) w.socket.arriving) error
        (λ _. recv_from-RecvFits w.socket space w.socket.arriving refl) (λ _. tt)
