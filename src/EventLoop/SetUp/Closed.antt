-- ===== src/EventLoop/SetUp/Closed.antt =====
-- A worker closes its own descriptors.
use warp_api.EventLoop.SetUp.{SetUp, close_fd, with_listener}
use warp_api.Session.Serve.{Run, done, serve}
use warp_api.Prelude.{
  Bool-cases, List, Option, [], arith, if◌then◌else◌, inl, inr, none, refl, some, ℕ, ◌&&◌, ◌∷◌, ◌≡◌,
  ◌≢◌,
}

pub close_fd_one : (fd : ℕ) → close_fd fd (fd ∷ []) ≡ []
unfolding close_fd
close_fd_one fd = ground arith

pub close_fd_both : (fd epfd : ℕ) → fd ≢ epfd → close_fd epfd (close_fd fd (epfd ∷ fd ∷ [])) ≡ []
unfolding close_fd
close_fd_both fd epfd ne = ground arith

-- What follows runs exactly if the socket could be bound and listened on.
pub with_listener_lem :
    {A : Type 0} (c : SetUp) (fd : ℕ) (serve : ℕ → Run (List ℕ × Option A))
    → c.socket ≡ some fd
    → with_listener c serve ≡ (if c.bound && c.listening then serve fd else done ([], none))
unfolding with_listener
with_listener_lem c fd serve e = elim (Bool-cases c.bound) [
  | inr b ↦ rw (e, b, with_listener) (rw (close_fd_one fd) refl)
  | inl b ↦ elim (Bool-cases c.listening) [
    | inr l ↦ rw (e, b, l, with_listener) (rw (close_fd_one fd) refl)
    | inl l ↦ rw (e, b, l, with_listener) refl
  ]
]
