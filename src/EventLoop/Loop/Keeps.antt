-- ===== src/EventLoop/Loop/Keeps.antt =====
-- What every step of a worker keeps is kept along its rounds.
use warp_api.EventLoop.{Client, TimerWheel, Worker, on_accept, on_expired, on_network, on_ready}
use warp_api.EventLoop.Loop.{
  AcceptAnswer, Report, Round, accept_all, failed, handle_reports, new_connection, of_client,
  of_listener, of_network, process_expired, run_rounds, run_ticks, would_block,
}
use warp_api.EventLoop.Loop.Rounds.{
  AnswersHold, IsFed, IsFresh, IsOf, IsTime, NodesHold, ReportsHold, RoundsHold, TicksHold,
  handle_reports-network,
}
use warp_api.Ring.{RingBuffer}
use warp_api.Session.Handler.{Endpoints}
use warp_api.Session.Serve.{OnDone, Run, done, fault, stuck, ◌>>=◌}
use warp_api.Session.Epoll.{Socket, Wire}
use warp_api.Prelude.{Bool, List, [], false, refl, subst, sym, true, ℕ, ◌∷◌, ◌≡◌}

OnDone-bind_eq {ℓ ℓ' κ κ'} :
    {A : Type ℓ} {B : Type ℓ'} (H : A → Type κ) (Q : B → Type κ') (m : Run A) (f : A → Run B)
    → OnDone H m
    → ((a : A) → m ≡ done a → H a → OnDone Q (f a))
    → OnDone Q (do a ← m; f a)
OnDone-bind_eq H Q (done a) f h k = k a refl h
OnDone-bind_eq H Q fault f h k = tt
OnDone-bind_eq H Q stuck f h k = tt

OnDone-bind_both {ℓ ℓ' κ κ' κ''} :
    {A : Type ℓ} {B : Type ℓ'} (H : A → Type κ) (P : A → Type κ') (Q : B → Type κ'') (m : Run A)
    (f : A → Run B)
    → OnDone H m
    → OnDone P m
    → ((a : A) → H a → P a → OnDone Q (f a))
    → OnDone Q (do a ← m; f a)
OnDone-bind_both H P Q (done a) f h p k = k a h p
OnDone-bind_both H P Q fault f h p k = tt
OnDone-bind_both H P Q stuck f h p k = tt

module _ (timers : TimerWheel) (rb : RingBuffer) (sha1 : List ℕ → List ℕ) (max_body : ℕ)
    (ends : Endpoints rb sha1) where
  open timers use {linked}

  module _ (Heard : ℕ → Bool → Bool → Type 0) where
    -- What every step keeps is kept along the rounds.
    module _ (P : Worker timers rb sha1 → Type 0)
        (at_accept : (w : Worker timers rb sha1) (i fd : ℕ) (wire : Wire rb sha1)
          → IsFresh timers rb sha1 max_body ends w i fd wire
          → P w
          → P (on_accept timers rb sha1 i fd wire w))
        (at_ready : (w w' : Worker timers rb sha1) (fd : ℕ) (readable writable hung_up : Bool)
            (now i : ℕ) (c : Client timers rb sha1)
          → IsOf timers rb sha1 max_body ends w fd i c
          → Heard fd readable hung_up
          → IsTime timers rb sha1 max_body ends now
          → P w
          → on_ready timers rb sha1 max_body ends fd readable writable hung_up now w ≡ done w'
          → P w')
        (at_network : (w : Worker timers rb sha1) (i : ℕ) (c : Client timers rb sha1) (k : Socket)
          → IsFed timers rb sha1 max_body ends w i c k
          → Heard c.fd true false
          → P w
          → P (on_network timers rb sha1 i c k w))
        (at_expired : (w w' : Worker timers rb sha1) (i : ℕ)
          → linked w.wheel i ≡ true
          → P w
          → on_expired timers rb sha1 max_body ends i w ≡ done w'
          → P w') where
      accept_all-keeps :
          (answers : List (AcceptAnswer (Wire rb sha1))) (w : Worker timers rb sha1)
          → AnswersHold timers rb sha1 max_body ends Heard answers w
          → P w
          → OnDone P (accept_all timers rb sha1 answers w)
      unfolding accept_all
      accept_all-keeps [] w h p = tt
      accept_all-keeps (would_block ∷ more) w h p = p
      accept_all-keeps (failed ∷ more) w h p = accept_all-keeps more w h p
      accept_all-keeps (new_connection fd i wire ∷ more) w (fresh, h) p =
          accept_all-keeps more (on_accept timers rb sha1 i fd wire w) h
            (at_accept w i fd wire fresh p)

      handle_reports-keeps :
          (now : ℕ) (reports : List (Report (Wire rb sha1))) (w : Worker timers rb sha1)
          → IsTime timers rb sha1 max_body ends now
          → ReportsHold timers rb sha1 max_body ends Heard now reports w
          → P w
          → OnDone P (handle_reports timers rb sha1 max_body ends now reports w)
      unfolding handle_reports
      handle_reports-keeps now [] w t h p = p
      handle_reports-keeps now (of_listener answers ∷ more) w t (a, h) p =
          OnDone-bind_both (ReportsHold timers rb sha1 max_body ends Heard now more) P P
            (accept_all timers rb sha1 answers w) _ h (accept_all-keeps answers w a p)
            (λ w' k p'. handle_reports-keeps now more w' t k p')
      handle_reports-keeps now (of_client fd readable writable hung_up ∷ more) w t ((i, c, o), q, h)
            p =
          OnDone-bind_eq (ReportsHold timers rb sha1 max_body ends Heard now more) P
            (on_ready timers rb sha1 max_body ends fd readable writable hung_up now w) _ h
            (λ w' e k.
              handle_reports-keeps now more w' t k
                (at_ready w w' fd readable writable hung_up now i c o q t p e))
      handle_reports-keeps now (of_network i k ∷ more) w t (c, fed, q, h) p =
          subst (OnDone P)
            (sym (handle_reports-network timers rb sha1 max_body ends now i c k more w fed.here))
            (handle_reports-keeps now more (on_network timers rb sha1 i c k w) t h
              (at_network w i c k fed q p))

      process_expired-keeps :
          (nodes : List ℕ) (w : Worker timers rb sha1)
          → NodesHold timers rb sha1 max_body ends Heard nodes w
          → P w
          → OnDone P (process_expired timers rb sha1 max_body ends nodes w)
      unfolding process_expired
      process_expired-keeps [] w h p = p
      process_expired-keeps (i ∷ more) w (l, h) p =
          OnDone-bind_eq (NodesHold timers rb sha1 max_body ends Heard more) P
            (on_expired timers rb sha1 max_body ends i w) _ h
            (λ w' e k. process_expired-keeps more w' k (at_expired w w' i l p e))

      run_ticks-keeps :
          (ticks : List (List ℕ)) (w : Worker timers rb sha1)
          → TicksHold timers rb sha1 max_body ends Heard ticks w
          → P w
          → OnDone P (run_ticks timers rb sha1 max_body ends ticks w)
      unfolding run_ticks
      run_ticks-keeps [] w h p = p
      run_ticks-keeps (nodes ∷ more) w (n, h) p =
          OnDone-bind_both (TicksHold timers rb sha1 max_body ends Heard more) P P
            (process_expired timers rb sha1 max_body ends nodes w) _ h
            (process_expired-keeps nodes w n p) (λ w' k p'. run_ticks-keeps more w' k p')

      pub run_rounds-keeps :
          (rounds : List (Round (Wire rb sha1))) (w : Worker timers rb sha1)
          → RoundsHold timers rb sha1 max_body ends Heard rounds w
          → P w
          → OnDone P (run_rounds timers rb sha1 max_body ends rounds w)
      unfolding run_rounds
      run_rounds-keeps [] w h p = p
      run_rounds-keeps (r ∷ more) w (t, reports, h) p =
          OnDone-bind_both
            (λ w'.
              TicksHold timers rb sha1 max_body ends Heard r.ticks w'
              × OnDone (RoundsHold timers rb sha1 max_body ends Heard more)
                  (run_ticks timers rb sha1 max_body ends r.ticks w'))
            P P (handle_reports timers rb sha1 max_body ends r.now r.reports w) _ h
            (handle_reports-keeps r.now r.reports w t reports p)
            (λ w' k p'.
              OnDone-bind_both (RoundsHold timers rb sha1 max_body ends Heard more) P P
                (run_ticks timers rb sha1 max_body ends r.ticks w') _ k.1
                (run_ticks-keeps r.ticks w' k.0 p') (λ w'' l q. run_rounds-keeps more w'' l q))
