-- ===== src/EventLoop/Loop/Returns.antt =====
-- The rounds of a worker come back.
use warp_api.EventLoop.{
  Client, TimerWheel, Worker, after_ready, on_accept, on_expired, on_network, on_ready,
}
use warp_api.EventLoop.Found.{Reached-IsSound, event-reaches, expired, on_expired_at, ready}
use warp_api.EventLoop.Steady.{after_ready-AllSteady, handlers-Handled, release-AllSteady}
use warp_api.EventLoop.Loop.{
  AcceptAnswer, Report, Round, accept_all, failed, handle_reports, new_connection, of_client,
  of_listener, of_network, process_expired, run_rounds, run_ticks, would_block,
}
use warp_api.EventLoop.Loop.Rounds.{
  AnswersHold, IsOf, IsTime, NodesHold, ReportsHold, RoundsHold, TicksHold, handle_reports-network,
}
use warp_api.EventLoop.Loop.Running.{
  AnswersEnd, CrashedReports, CrashedRounds, IsRunning, ReportsEnd, Returns, Returns-bind,
  Returns-mono, RoundsEnd, crashed, on_accept-IsRunning, on_network-IsRunning, returned,
}
use warp_api.Ring.{RingBuffer}
use warp_api.Session.Handler.{Endpoints}
use warp_api.Session.Serve.{OnDone, Run, done, fault}
use warp_api.Session.Epoll.{Wire, on_read_ready}
use warp_api.Prelude.{Bool, List, [], ap, inl, inr, refl, subst, sym, true, ℕ, ◌∙◌, ◌∷◌, ◌≡◌}

module _ (timers : TimerWheel) (rb : RingBuffer) (sha1 : List ℕ → List ℕ) (max_body : ℕ)
    (ends : Endpoints rb sha1) where
  open timers use {linked}

  abbrev Runs : Worker timers rb sha1 → Type 0
  Runs = IsRunning timers rb sha1 max_body ends

  module _ (Heard : ℕ → Bool → Bool → Type 0) where
    accept_all-Returns :
        (answers : List (AcceptAnswer (Wire rb sha1))) (w : Worker timers rb sha1)
        → AnswersHold timers rb sha1 max_body ends Heard answers w
        → AnswersEnd timers rb sha1 max_body ends answers
        → Runs w
        → Returns Runs ⊥ (accept_all timers rb sha1 answers w)
    unfolding accept_all
    accept_all-Returns [] w h e r = absurd e
    accept_all-Returns (would_block ∷ more) w h e r = returned r
    accept_all-Returns (failed ∷ more) w h e r = accept_all-Returns more w h e r
    accept_all-Returns (new_connection fd i wire ∷ more) w (fresh, h) (s, e) r =
        accept_all-Returns more (on_accept timers rb sha1 i fd wire w) h e
          (on_accept-IsRunning timers rb sha1 max_body ends w i fd wire fresh s r)

    on_ready-Returns :
        (w : Worker timers rb sha1) (fd : ℕ) (readable writable hung_up : Bool) (now i : ℕ)
        (c : Client timers rb sha1)
        → IsOf timers rb sha1 max_body ends w fd i c
        → IsTime timers rb sha1 max_body ends now
        → Runs w
        → Returns Runs
            ((readable ≡ true) × (on_read_ready rb sha1 max_body ends c.wire ≡ fault))
            (on_ready timers rb sha1 max_body ends fd readable writable hung_up now w)
    on_ready-Returns w fd readable writable hung_up now i c o t r =
        let run : ℕ → Run (Worker timers rb sha1) =
          λ d. on_ready timers rb sha1 max_body ends d readable writable hung_up now w in
        let Left : Type 0 =
          (readable ≡ true) × (on_read_ready rb sha1 max_body ends c.wire ≡ fault) in
        let event =
          event-reaches timers rb sha1 max_body ends w readable writable hung_up now i c r.reached
            o.here o.open_ in
        elim (handlers-Handled rb sha1 max_body ends timers readable writable c.wire
          (r.steady i c o.here)) [
            | inl (wire, b, ran, s) ↦
                let c' : Client timers rb sha1 = record c { wire = wire } in
                let came : run c.fd ≡ done (after_ready timers rb sha1 i c' hung_up b now w) =
                  event ∙ rw ran refl in
                subst (Returns Runs Left) (sym (ap run o.same ∙ came)) (
                  returned (record {
                    reached =
                        ready readable writable hung_up now i c r.reached o.here o.open_ t.0 t.1
                          came;
                    steady =
                        after_ready-AllSteady rb sha1 max_body ends timers i c' hung_up b now w
                          r.steady s;
                  }))
            | inr (loud, ran, bad) ↦
                let came : run c.fd ≡ fault = event ∙ rw ran refl in
                subst (Returns Runs Left) (sym (ap run o.same ∙ came)) (crashed (loud, bad))
          ]

    on_expired-Returns :
        (w : Worker timers rb sha1) (i : ℕ)
        → linked w.wheel i ≡ true
        → Runs w
        → Returns Runs ⊥ (on_expired timers rb sha1 max_body ends i w)
    on_expired-Returns w i l r =
        let (c, here) = (Reached-IsSound timers rb sha1 max_body ends r.reached).alive i l in
        let came = on_expired_at timers rb sha1 max_body ends w i c here in
        subst (Returns Runs ⊥) (sym came) (
          returned (record {
            reached = expired i r.reached l came;
            steady = release-AllSteady rb sha1 max_body ends timers i c w r.steady;
          }))

    handle_reports-Returns :
        (now : ℕ) (reports : List (Report (Wire rb sha1))) (w : Worker timers rb sha1)
        → IsTime timers rb sha1 max_body ends now
        → ReportsHold timers rb sha1 max_body ends Heard now reports w
        → ReportsEnd timers rb sha1 max_body ends reports
        → Runs w
        → Returns Runs
            (CrashedReports timers rb sha1 max_body ends now reports w)
            (handle_reports timers rb sha1 max_body ends now reports w)
    unfolding handle_reports
    handle_reports-Returns now [] w t h e r = returned r
    handle_reports-Returns now (of_listener answers ∷ more) w t (a, h) (ae, e) r =
        Returns-bind (ReportsHold timers rb sha1 max_body ends Heard now more) Runs Runs ⊥
          (CrashedReports timers rb sha1 max_body ends now (of_listener answers ∷ more) w)
          (accept_all timers rb sha1 answers w) _ h (accept_all-Returns answers w a ae r)
          (λ never. absurd never)
          (λ w' ran k r'.
            Returns-mono Runs Runs (CrashedReports timers rb sha1 max_body ends now more w')
              (CrashedReports timers rb sha1 max_body ends now (of_listener answers ∷ more) w)
              (handle_reports timers rb sha1 max_body ends now more w') (λ v p. p)
              (λ c. (w', ran, c)) (handle_reports-Returns now more w' t k e r'))
    handle_reports-Returns now (of_client fd readable writable hung_up ∷ more) w t ((i, c, o), q, h)
          e r =
        let Crash : Type 0 =
          CrashedReports timers rb sha1 max_body ends now
            (of_client fd readable writable hung_up ∷ more) w in
        Returns-bind (ReportsHold timers rb sha1 max_body ends Heard now more) Runs Runs
          ((readable ≡ true) × (on_read_ready rb sha1 max_body ends c.wire ≡ fault)) Crash
          (on_ready timers rb sha1 max_body ends fd readable writable hung_up now w) _ h
          (on_ready-Returns w fd readable writable hung_up now i c o t r)
          (λ bad. inl (i, c, o, bad.0, bad.1))
          (λ w' ran k r'.
            Returns-mono Runs Runs (CrashedReports timers rb sha1 max_body ends now more w') Crash
              (handle_reports timers rb sha1 max_body ends now more w') (λ v p. p)
              (λ d. inr (w', ran, d)) (handle_reports-Returns now more w' t k e r'))
    handle_reports-Returns now (of_network i k ∷ more) w t (c, fed, q, h) e r =
        let w' = on_network timers rb sha1 i c k w in
        let Crash : Type 0 =
          CrashedReports timers rb sha1 max_body ends now (of_network i k ∷ more) w in
        subst (Returns Runs Crash)
          (sym (handle_reports-network timers rb sha1 max_body ends now i c k more w fed.here))
          (Returns-mono Runs Runs (CrashedReports timers rb sha1 max_body ends now more w') Crash
            (handle_reports timers rb sha1 max_body ends now more w') (λ v p. p)
            (λ d. (c, fed.here, d))
            (handle_reports-Returns now more w' t h e
              (on_network-IsRunning timers rb sha1 max_body ends w i c k fed r)))

    process_expired-Returns :
        (nodes : List ℕ) (w : Worker timers rb sha1)
        → NodesHold timers rb sha1 max_body ends Heard nodes w
        → Runs w
        → Returns Runs ⊥ (process_expired timers rb sha1 max_body ends nodes w)
    unfolding process_expired
    process_expired-Returns [] w h r = returned r
    process_expired-Returns (i ∷ more) w (l, h) r =
        Returns-bind (NodesHold timers rb sha1 max_body ends Heard more) Runs Runs ⊥ ⊥
          (on_expired timers rb sha1 max_body ends i w) _ h (on_expired-Returns w i l r)
          (λ never. never) (λ w' ran k r'. process_expired-Returns more w' k r')

    run_ticks-Returns :
        (ticks : List (List ℕ)) (w : Worker timers rb sha1)
        → TicksHold timers rb sha1 max_body ends Heard ticks w
        → Runs w
        → Returns Runs ⊥ (run_ticks timers rb sha1 max_body ends ticks w)
    unfolding run_ticks
    run_ticks-Returns [] w h r = returned r
    run_ticks-Returns (nodes ∷ more) w (n, h) r =
        Returns-bind (TicksHold timers rb sha1 max_body ends Heard more) Runs Runs ⊥ ⊥
          (process_expired timers rb sha1 max_body ends nodes w) _ h
          (process_expired-Returns nodes w n r) (λ never. never)
          (λ w' ran k r'. run_ticks-Returns more w' k r')

    -- The rounds come back with such a worker, or by the `onReadReady` of one of their events, where
    -- the system does as documented and the answers of each `accept4` loop end.
    pub run_rounds-Returns :
        (rounds : List (Round (Wire rb sha1))) (w : Worker timers rb sha1)
        → RoundsHold timers rb sha1 max_body ends Heard rounds w
        → RoundsEnd timers rb sha1 max_body ends rounds
        → Runs w
        → Returns Runs
            (CrashedRounds timers rb sha1 max_body ends rounds w)
            (run_rounds timers rb sha1 max_body ends rounds w)
    unfolding run_rounds
    run_rounds-Returns [] w h e r = returned r
    run_rounds-Returns (round ∷ more) w (t, reports, h) (re, e) r =
        let Crash : Type 0 = CrashedRounds timers rb sha1 max_body ends (round ∷ more) w in
        Returns-bind
          (λ w'.
            TicksHold timers rb sha1 max_body ends Heard round.ticks w'
            × OnDone (RoundsHold timers rb sha1 max_body ends Heard more)
                (run_ticks timers rb sha1 max_body ends round.ticks w'))
          Runs Runs (CrashedReports timers rb sha1 max_body ends round.now round.reports w) Crash
          (handle_reports timers rb sha1 max_body ends round.now round.reports w) _ h
          (handle_reports-Returns round.now round.reports w t reports re r) (λ c. inl c)
          (λ w' ran k r'.
            Returns-bind (RoundsHold timers rb sha1 max_body ends Heard more) Runs Runs ⊥ Crash
              (run_ticks timers rb sha1 max_body ends round.ticks w') _ k.1
              (run_ticks-Returns round.ticks w' k.0 r') (λ never. absurd never)
              (λ w'' ticked l q.
                Returns-mono Runs Runs (CrashedRounds timers rb sha1 max_body ends more w'') Crash
                  (run_rounds timers rb sha1 max_body ends more w'') (λ v p. p)
                  (λ c. inr (w', ran, w'', ticked, c)) (run_rounds-Returns more w'' l e q)))
