-- ===== src/EventLoop/Loop/Accepting.antt =====
-- When the accepting of a worker ends.
use mathlib.Core.List.{foldl}
use warp_api.EventLoop.{TimerWheel, Worker, on_accept}
use warp_api.EventLoop.Loop.{AcceptAnswer, accept_all, new_connection, failed, would_block}
use warp_api.Ring.{RingBuffer}
use warp_api.Session.Serve.{done, stuck}
use warp_api.Session.Epoll.{Wire}
use warp_api.Prelude.{Bool, List, [], false, if◌then◌else◌, refl, true, ℕ, ◌∷◌, ◌≡◌}

module _ (timers : TimerWheel) (rb : RingBuffer) (sha1 : List ℕ → List ℕ) where
  -- The connections that are accepted before `accept4` would block, and whether it ever would.
  abbrev pub connections : List (AcceptAnswer (Wire rb sha1)) → List (ℕ × ℕ × Wire rb sha1)
  connections [] = []
  connections (would_block ∷ more) = []
  connections (failed ∷ more) = connections more
  connections (new_connection fd i wire ∷ more) = (fd, i, wire) ∷ connections more

  abbrev pub blocks : List (AcceptAnswer (Wire rb sha1)) → Bool
  blocks [] = false
  blocks (would_block ∷ more) = true
  blocks (failed ∷ more) = blocks more
  blocks (new_connection fd i wire ∷ more) = blocks more

  abbrev pub enter : Worker timers rb sha1 → ℕ × ℕ × Wire rb sha1 → Worker timers rb sha1
  enter w (fd, i, wire) = on_accept timers rb sha1 i fd wire w

  -- The loop over `accept4` enters exactly the connections that are accepted before the first
  -- answer that it would block, in their order, and ends with this answer only: it goes on behind
  -- every other error, and does not end while the errors go on.
  pub accept_all_lem :
      (answers : List (AcceptAnswer (Wire rb sha1))) (w : Worker timers rb sha1)
      → accept_all timers rb sha1 answers w
        ≡ (if blocks answers then done (foldl enter w (connections answers)) else stuck)
  unfolding accept_all
  accept_all_lem [] w = refl
  accept_all_lem (would_block ∷ more) w = refl
  accept_all_lem (failed ∷ more) w = accept_all_lem more w
  accept_all_lem (new_connection fd i wire ∷ more) w =
      accept_all_lem more (on_accept timers rb sha1 i fd wire w)
