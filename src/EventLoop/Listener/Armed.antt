-- ===== src/EventLoop/Listener/Armed.antt =====
-- The listener of the io_uring build goes on accepting.
use mathlib.Core.List.{map-append}
use warp_api.EventLoop.SetUp.{SetUp, close_fd}
use warp_api.EventLoop.SetUp.Closed.{close_fd_one, with_listener_lem}
use warp_api.EventLoop.Listener.{
  AcceptResult, Listener, ListenerCqe, RingSetUp, arm, connection, enter, get_sqe_safe,
  new_listener, no_entry, no_features, on_listener, on_result, refused, ring_failed, ring_ready,
  run_listener, run_uring_worker, try_again,
}
use warp_api.Session.Uring.{Queue, Submission, Uring, io_reading, on_accept, recv, update_io_state}
use warp_api.Session.Uring.Submitted.{on_read_ready_space}
use warp_api.Ring.{RingBuffer}
use warp_api.Session.Serve.{Run, done, ◌>>=◌}
use warp_api.Prelude.{
  ◌≡◌, Bool-cases, List, Option, [], append-nil, append_assoc, arith, if_cases, if◌then◌else◌, inl,
  inr, map, none, refl, some, suc, true, ℕ, ◌&&◌, ◌++◌, ◌-◌, ◌<◌, ◌==◌, ◌∙◌, ◌∷◌,
}

-- What a worker leaves whose listener could be set up, by its ring: the descriptors that are open, and
-- its listener if it came to accept.
abbrev pub left_behind : {A : Type 0} → ℕ → RingSetUp → A → List ℕ × Option A
left_behind fd ring_failed l = ([], none)
left_behind fd no_features l = (fd ∷ [], none)
left_behind fd no_entry l = (fd ∷ [], none)
left_behind fd ring_ready l = ([], some l)

module _ (rb : RingBuffer) (sha1 : List ℕ → List ℕ) where
  open rb use {write_space}

  -- The connections among the completions.
  abbrev pub connection_of : AcceptResult (Uring rb sha1) → List (Uring rb sha1)
  connection_of (connection u) = u ∷ []
  connection_of try_again = []
  connection_of refused = []

  abbrev pub connections : List (ListenerCqe (Uring rb sha1)) → List (Uring rb sha1)
  connections [] = []
  connections (c ∷ cs) = connection_of c.result ++ connections cs

  -- There is space to receive into.
  abbrev pub HasSpace : AcceptResult (Uring rb sha1) → Type 0
  HasSpace (connection u) = 0 < write_space u.conn.input
  HasSpace try_again = Unit {0}
  HasSpace refused = Unit {0}

  -- A submit makes room, wherever one is made, and each new session has space to receive into.
  abbrev pub HaveRoom : List (ListenerCqe (Uring rb sha1)) → Type 0
  HaveRoom [] = Unit {0}
  HaveRoom (c ∷ cs) = (0 < c.room) × (0 < c.room_to_arm) × HasSpace c.result × HaveRoom cs

  -- A session behind its first receive, and this receive.
  abbrev pub receiving : Uring rb sha1 → Uring rb sha1
  receiving u = record u { io_flags = update_io_state u.io_flags io_reading true }

  abbrev pub first_receive : Uring rb sha1 → Submission
  first_receive u = recv (write_space u.conn.input)

  -- The session has been taken over, and its first receive is the last submission.
  abbrev Entered : AcceptResult (Uring rb sha1) → Listener rb sha1 → Listener rb sha1 → Type 0
  Entered r l l' =
      (l'.armed ≡ l.armed)
      × (l'.sessions ≡ l.sessions ++ map receiving (connection_of r))
      × (l'.queue.entries ≡ l.queue.entries ++ map first_receive (connection_of r))

  get_sqe_safe_entries : (room : ℕ) (q : Queue) → (get_sqe_safe room q).entries ≡ q.entries
  unfolding get_sqe_safe
  get_sqe_safe_entries room q =
      if_cases (λ (x : Queue). x.entries ≡ q.entries) (q.free == 0) (record q { free = room }) q
        (λ _. refl) (λ _. refl)

  get_sqe_safe_free :
      (room : ℕ) (q : Queue) → 0 < room → (n : ℕ) × ((get_sqe_safe room q).free ≡ suc n)
  unfolding get_sqe_safe
  get_sqe_safe_free room q h = ((get_sqe_safe room q).free - 1, ground arith)

  on_result-Entered :
      (r : AcceptResult (Uring rb sha1)) (room : ℕ) (l : Listener rb sha1)
      → 0 < room
      → HasSpace r
      → Entered r l (on_result rb sha1 r room l)
  unfolding on_result enter on_accept
  on_result-Entered (connection u) room l h space =
      let (n, e) = get_sqe_safe_free room l.queue h in
      let first = on_read_ready_space rb sha1 u space in
      let same = get_sqe_safe_entries room l.queue in
      rw (e, first, same, on_result, on_accept) (refl, refl, refl)
  on_result-Entered try_again room l h space = (refl, simp append-nil, simp append-nil)
  on_result-Entered refused room l h space = (refl, simp append-nil, simp append-nil)

  on_listener-Armed :
      (c : ListenerCqe (Uring rb sha1)) (l : Listener rb sha1)
      → l.armed ≡ 1
      → 0 < c.room
      → 0 < c.room_to_arm
      → HasSpace c.result
      → (l' : Listener rb sha1) × (on_listener rb sha1 c l ≡ done l') × Entered c.result l l'
  unfolding on_listener arm
  on_listener-Armed c l one room arms space =
      let (armed, sessions, entries) = on_result-Entered c.result c.room l room space in
      elim (Bool-cases c.more) [
        | inl e ↦ (
          on_result rb sha1 c.result c.room l,
          rw (e, on_listener) refl,
          (armed, sessions, entries),
        )
        | inr e ↦
            let l' = on_result rb sha1 c.result c.room l in
            let (n, free) = get_sqe_safe_free c.room_to_arm l'.queue arms in
            (
              record l' {
                queue = record (get_sqe_safe c.room_to_arm l'.queue) { free = n };
                armed = suc (l'.armed - 1);
              },
              rw (e, on_listener) (rw (free, arm) refl),
              (
                omega (arith, armed, one),
                sessions,
                get_sqe_safe_entries c.room_to_arm l'.queue ∙ entries,
              ),
            )
      ]

  -- The same from any state of the listener.
  run_listener-Armed :
      (cs : List (ListenerCqe (Uring rb sha1))) (l : Listener rb sha1)
      → l.armed ≡ 1
      → HaveRoom cs
      → (l' : Listener rb sha1) × (run_listener rb sha1 cs l ≡ done l')
        × (l'.armed ≡ 1)
        × (l'.sessions ≡ l.sessions ++ map receiving (connections cs))
        × (l'.queue.entries ≡ l.queue.entries ++ map first_receive (connections cs))
  unfolding run_listener
  run_listener-Armed [] l one room = (l, refl, one, simp append-nil, simp append-nil)
  run_listener-Armed (c ∷ cs) l one (room, arms, space, rest) =
      let (l', ran, (armed, here, queued)) = on_listener-Armed c l one room arms space in
      let (l'', runs, armed', there, behind) = run_listener-Armed cs l' (armed ∙ one) rest in
      (
        l'',
        rw (ran, run_listener) runs,
        armed',
        there ∙ rw here (simp (append_assoc, map-append)),
        behind ∙ rw queued (simp (append_assoc, map-append)),
      )

  ready_or_not :
      (fd : ℕ) (ring : RingSetUp) (cs : List (ListenerCqe (Uring rb sha1))) (l : Listener rb sha1)
      → run_listener rb sha1 cs (new_listener rb sha1) ≡ done l
      → ◌≡◌ {A = Run (List ℕ × Option (Listener rb sha1))}
          (elim ring [
            | ring_failed ↦ done (close_fd fd (fd ∷ []), none)
            | no_features ↦ done (fd ∷ [], none)
            | no_entry ↦ done (fd ∷ [], none)
            | ring_ready ↦ do
              l' ← run_listener rb sha1 cs (new_listener rb sha1)
              done (close_fd fd (fd ∷ []), some l')
          ])
          (done (left_behind fd ring l))
  ready_or_not fd ring_failed cs l ran = rw (close_fd_one fd) refl
  ready_or_not fd no_features cs l ran = refl
  ready_or_not fd no_entry cs l ran = refl
  ready_or_not fd ring_ready cs l ran = rw (ran, close_fd_one fd) refl

  -- A worker that could not set its listener or its ring up closes what it has opened and accepts
  -- nothing; one whose assertion on the ring fails ends with its listener open. Otherwise, where each
  -- submit makes room and each new session has space to receive into, it comes back from every
  -- sequence of completions of its listener, and closes it: one accept request is armed, every
  -- connection that was accepted has become a session with `IO_READING`, and the submissions are the
  -- first receives of these sessions, for all of their space, in the order of their arrival.
  pub run_uring_worker_lem :
      (c : SetUp) (fd : ℕ) (ring : RingSetUp) (cs : List (ListenerCqe (Uring rb sha1)))
      → c.socket ≡ some fd
      → HaveRoom cs
      → (l : Listener rb sha1) × (l.armed ≡ 1)
        × (l.sessions ≡ map receiving (connections cs))
        × (l.queue.entries ≡ map first_receive (connections cs))
        × (run_uring_worker rb sha1 c ring cs
            ≡ done (if c.bound && c.listening then left_behind fd ring l else ([], none)))
  unfolding run_uring_worker
  run_uring_worker_lem c fd ring cs e room =
      let (l, ran, armed, sessions, entries) =
        run_listener-Armed cs (new_listener rb sha1) refl room in
      (
        l,
        armed,
        sessions,
        entries,
        with_listener_lem c fd _ e
            ∙ if_cases
                (λ r.
                  ◌≡◌ {A = Run (List ℕ × Option (Listener rb sha1))} r
                    (done (if c.bound && c.listening then left_behind fd ring l else ([], none))))
                (c.bound && c.listening) _ _ (λ b. rw b (ready_or_not fd ring cs l ran))
                (λ b. rw b refl),
      )
