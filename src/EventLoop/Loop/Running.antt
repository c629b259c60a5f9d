-- ===== src/EventLoop/Loop/Running.antt =====
-- A worker that comes back, and the sessions of one that runs.
use warp_api.EventLoop.{Client, TimerWheel, Worker, on_accept, on_network, on_ready}
use warp_api.EventLoop.Found.{Reached, accepted, networked}
use warp_api.EventLoop.Steady.{AllSteady, IsSteady, put-AllSteady}
use warp_api.EventLoop.Loop.{
  AcceptAnswer, Report, Round, accept_all, failed, handle_reports, new_connection, of_client,
  of_listener, of_network, run_ticks, would_block,
}
use warp_api.EventLoop.Loop.Rounds.{IsFed, IsFresh, IsOf}
use warp_api.Ring.{RingBuffer}
use warp_api.Session.Handler.{Endpoints}
use warp_api.Session.Serve.{OnDone, Run, done, fault, stuck, ◌>>=◌}
use warp_api.Session.Epoll.{Socket, Wire, on_read_ready}
use warp_api.Prelude.{List, [], refl, some, true, ℕ, ◌∷◌, ◌≡◌, ◌⊎◌}

-- The code comes back with such a result, or it was left in such a way.
pub data Returns {A : Type 0} (P : A → Type 0) (C : Type 0) : Run A → Type 0 where
  returned : {a : A} → P a → Returns P C (done a)
  crashed : C → Returns P C fault

pub Returns-mono :
    {A : Type 0} (P Q : A → Type 0) (C D : Type 0) (m : Run A)
    → ((a : A) → P a → Q a)
    → (C → D)
    → Returns P C m
    → Returns Q D m
Returns-mono P Q C D (done a) f g (returned p) = returned (f a p)
Returns-mono P Q C D fault f g (crashed c) = crashed (g c)
Returns-mono P Q C D stuck f g r = elim r [ ]

pub Returns-bind :
    {A B : Type 0} (H P : A → Type 0) (Q : B → Type 0) (C D : Type 0) (m : Run A) (f : A → Run B)
    → OnDone H m
    → Returns P C m
    → (C → D)
    → ((a : A) → m ≡ done a → H a → P a → Returns Q D (f a))
    → Returns Q D (do a ← m; f a)
Returns-bind H P Q C D (done a) f h (returned p) g k = k a refl h p
Returns-bind H P Q C D fault f h (crashed c) g k = crashed (g c)
Returns-bind H P Q C D stuck f h r g k = elim r [ ]

-- What holds of each result holds of the one that is come back with.
pub OnDone-Returns :
    {A : Type 0} (P Q : A → Type 0) (C : Type 0) (m : Run A)
    → OnDone P m
    → Returns Q C m
    → Returns P C m
OnDone-Returns P Q C (done a) h r = returned h
OnDone-Returns P Q C fault h (crashed c) = crashed c
OnDone-Returns P Q C stuck h r = elim r [ ]

module _ (timers : TimerWheel) (rb : RingBuffer) (sha1 : List ℕ → List ℕ) (max_body : ℕ)
    (ends : Endpoints rb sha1) where
  -- The answers of `accept4` come to an end with EAGAIN, and the sessions are new ones.
  abbrev pub AnswersEnd : List (AcceptAnswer (Wire rb sha1)) → Type 0
  AnswersEnd [] = ⊥
  AnswersEnd (would_block ∷ more) = Unit {0}
  AnswersEnd (failed ∷ more) = AnswersEnd more
  AnswersEnd (new_connection fd i wire ∷ more) =
      IsSteady rb sha1 max_body ends wire × AnswersEnd more

  abbrev pub ReportsEnd : List (Report (Wire rb sha1)) → Type 0
  ReportsEnd [] = Unit {0}
  ReportsEnd (of_listener answers ∷ more) = AnswersEnd answers × ReportsEnd more
  ReportsEnd (of_network i k ∷ more) = ReportsEnd more
  ReportsEnd (of_client fd readable writable hung_up ∷ more) = ReportsEnd more

  abbrev pub RoundsEnd : List (Round (Wire rb sha1)) → Type 0
  RoundsEnd [] = Unit {0}
  RoundsEnd (r ∷ more) = ReportsEnd r.reports × RoundsEnd more

  -- The events before it were handled, and this one is reported as readable for the open session of
  -- its descriptor, whose `onReadReady` leaves an array.
  abbrev pub CrashedReports : ℕ → List (Report (Wire rb sha1)) → Worker timers rb sha1 → Type 0
  CrashedReports now [] w = ⊥
  CrashedReports now (of_listener answers ∷ more) w =
      (w' : Worker timers rb sha1) × (accept_all timers rb sha1 answers w ≡ done w')
      × CrashedReports now more w'
  CrashedReports now (of_network i k ∷ more) w =
      (c : Client timers rb sha1) × (w.sessions i ≡ some c)
      × CrashedReports now more (on_network timers rb sha1 i c k w)
  CrashedReports now (of_client fd readable writable hung_up ∷ more) w =
      ((i : ℕ) × (c : Client timers rb sha1) × IsOf timers rb sha1 max_body ends w fd i c
        × (readable ≡ true)
        × (on_read_ready rb sha1 max_body ends c.wire ≡ fault))
      ⊎ ((w' : Worker timers rb sha1) × (on_ready timers rb sha1 max_body ends fd readable writable
              hung_up now w
            ≡ done w')
          × CrashedReports now more w')

  -- The rounds before it came back, and this one ends so.
  abbrev pub CrashedRounds : List (Round (Wire rb sha1)) → Worker timers rb sha1 → Type 0
  CrashedRounds [] w = ⊥
  CrashedRounds (r ∷ more) w =
      CrashedReports r.now r.reports w
      ⊎ ((w' : Worker timers rb sha1) × (handle_reports timers rb sha1 max_body ends r.now r.reports
              w
            ≡ done w')
          × (w'' : Worker timers rb sha1) × (run_ticks timers rb sha1 max_body ends r.ticks w'
              ≡ done w'')
          × CrashedRounds more w'')

  -- A worker of a run whose sessions can be parsed on.
  pub record IsRunning (w : Worker timers rb sha1) : Type 0 where
    pub reached : Reached timers rb sha1 max_body ends w
    pub steady : AllSteady rb sha1 max_body ends timers w.sessions

  pub on_accept-IsRunning :
      (w : Worker timers rb sha1) (i fd : ℕ) (wire : Wire rb sha1)
      → IsFresh timers rb sha1 max_body ends w i fd wire
      → IsSteady rb sha1 max_body ends wire
      → IsRunning w
      → IsRunning (on_accept timers rb sha1 i fd wire w)
  unfolding on_accept
  on_accept-IsRunning w i fd wire fresh s r = record {
    reached = accepted i fd wire r.reached fresh.free fresh.unused fresh.open_;
    steady =
        put-AllSteady rb sha1 max_body ends timers w.sessions i
          (record { wire = wire; fd = fd; last_activity_tick = 0 }) r.steady s;
  }

  pub on_network-IsRunning :
      (w : Worker timers rb sha1) (i : ℕ) (c : Client timers rb sha1) (k : Socket)
      → IsFed timers rb sha1 max_body ends w i c k
      → IsRunning w
      → IsRunning (on_network timers rb sha1 i c k w)
  unfolding on_network
  on_network-IsRunning w i c k fed r = record {
    reached = networked i c k r.reached fed.here fed.open_ fed.sent_kept;
    steady =
        put-AllSteady rb sha1 max_body ends timers w.sessions i
          (record c { wire = record c.wire { socket = k } }) r.steady
          (record { plain = (r.steady i c fed.here).plain; room = fed.room });
  }
