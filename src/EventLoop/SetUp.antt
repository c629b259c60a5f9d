-- ===== src/EventLoop/SetUp.antt =====
-- The set-up of the listener that both builds of `runWorker` in src/EventLoop/EventLoop.cpp share.
pub mod Closed
use warp_api.Session.Serve.{Run, done, serve}
use warp_api.Prelude.{Bool, List, Option, [], if◌then◌else◌, none, not, some, ℕ, ◌==◌, ◌∷◌}

-- The answers to the calls that set the listener up.
pub record SetUp : Type 0 where
  pub socket : Option ℕ
  pub bound : Bool
  pub listening : Bool

-- `close`, on the descriptors that are open.
unfoldable pub close_fd : ℕ → List ℕ → List ℕ
close_fd fd [] = []
close_fd fd (x ∷ xs) = if fd == x then xs else x ∷ close_fd fd xs

-- The descriptors of the thread itself that are open in the end, and what `serve` leaves, if the
-- listener could be set up.
unfoldable pub with_listener :
    {A : Type 0} → SetUp → (ℕ → Run (List ℕ × Option A)) → Run (List ℕ × Option A)
unfolding close_fd
with_listener c serve = elim c.socket [
  | none ↦ done ([], none)
  | some fd ↦
      if not c.bound
      then done (close_fd fd (fd ∷ []), none)
      else if not c.listening
      then done (close_fd fd (fd ∷ []), none)
      else serve fd
]
