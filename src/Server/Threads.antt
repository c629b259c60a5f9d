-- ===== src/Server/Threads.antt =====
-- What the start and the join of the threads do.
-- The indices of so many threads, and what their start asks of the system.
use native.Mathlib.Nat.{mod-eq_of_lt}
use warp_api.Server.{
  Action, Ended, Process, act, by_exception, emplace, go_on, join_all, normally, pin, start_threads,
  thread_joined, thread_pinned, thread_started,
}
use warp_api.Prelude.{
  Bool, Bool-cases, List, [], ap, append-nil, append_assoc, ap₂, arith, false, if◌then◌else◌, inl,
  inr, suc, sym, true, zero, ℕ, ◌++◌, ◌+◌, ◌<◌, ◌==◌, ◌∙◌, ◌∷◌, ◌≡◌, ◌≤◌,
}

abbrev pub indices : ℕ → ℕ → List ℕ
indices i zero = []
indices i (suc n) = i ∷ indices (suc i) n

abbrev pub launches : ℕ → ℕ → List Action
launches i zero = []
launches i (suc n) = thread_started i ∷ thread_pinned i i ∷ launches (suc i) n

-- How many of the threads can be started before one cannot.
abbrev pub startable : (ℕ → Bool) → ℕ → ℕ → ℕ
startable can_start i zero = 0
startable can_start i (suc n) = if can_start i then suc (startable can_start (suc i) n) else 0

abbrev pub joins : ℕ → ℕ → List Action
joins i zero = []
joins i (suc n) = thread_joined i ∷ joins (suc i) n

abbrev pub launched : ℕ → ℕ → Process → Process
launched i n p = record p {
  threads = p.threads ++ indices i n;
  actions = p.actions ++ launches i n;
}

abbrev pub all_or_exception : ℕ → ℕ → Ended
all_or_exception k n = if k == n then normally else by_exception

launched-suc :
    (i n : ℕ) (p : Process)
    → launched (suc i) n (record p {
      threads = p.threads ++ (i ∷ []);
      actions = (p.actions ++ (thread_started i ∷ [])) ++ (thread_pinned i i ∷ []);
    })
      ≡ launched i (suc n) p
launched-suc i n p = simp append_assoc

all_or_exception-suc : (k n : ℕ) → all_or_exception (suc k) (suc n) ≡ all_or_exception k n
all_or_exception-suc k n = ground arith

pin_lem :
    (hardware : ℕ) (can_start : ℕ → Bool) (i : ℕ) (p : Process)
    → i < hardware
    → pin hardware can_start i p ≡ act (thread_pinned i i) p
unfolding pin
pin_lem zero can_start i p lt = absurd (omega arith)
pin_lem (suc h) can_start i p lt = rw (mod-eq_of_lt lt)

none_of : (n : ℕ) → by_exception ≡ all_or_exception 0 (suc n)
none_of n = ground arith

module _ (hardware : ℕ) (can_start : ℕ → Bool) where
  emplace_lem :
      (i : ℕ) (p : Process)
      → can_start i ≡ true
      → emplace hardware can_start i p
        ≡ act (thread_started i) (record p { threads = p.threads ++ (i ∷ []) })
  unfolding emplace
  emplace_lem i p e = rw e

  -- One thread that can be started.
  start_threads-suc :
      (n i : ℕ) (p : Process)
      → can_start i ≡ true
      → i < hardware
      → start_threads hardware can_start (suc n) i p
        ≡ start_threads hardware can_start n (suc i) (record p {
          threads = p.threads ++ (i ∷ []);
          actions = (p.actions ++ (thread_started i ∷ [])) ++ (thread_pinned i i ∷ []);
        })
  unfolding start_threads
  start_threads-suc n i p e lt = rw (emplace_lem i p e) (
      ap (λ r. go_on r (start_threads hardware can_start n (suc i)))
        (pin_lem hardware can_start i
          (record p {
            threads = p.threads ++ (i ∷ []);
            actions = p.actions ++ (thread_started i ∷ []);
          })
          lt))

  start_threads-none :
      (n i : ℕ) (p : Process)
      → can_start i ≡ false
      → start_threads hardware can_start (suc n) i p ≡ (p, by_exception)
  unfolding start_threads emplace
  start_threads-none n i p e = rw e

  -- The threads are started and pinned in their order, each to the core of its index, up to the
  -- first that cannot be started.
  pub start_threads_lem :
      (n i : ℕ) (p : Process)
      → i + n ≤ hardware
      → start_threads hardware can_start n i p
        ≡ (launched i (startable can_start i n) p, all_or_exception (startable can_start i n) n)
  start_threads_lem zero i p le = unfold start_threads in simp append-nil
  start_threads_lem (suc n) i p le = elim (Bool-cases (can_start i)) [
    | inr e ↦
        start_threads-none n i p e
        ∙ rw e (ap₂ (λ (q : Process) (r : Ended). (q, r)) (simp append-nil) (none_of n))
    | inl e ↦
        let p' : Process = record p {
          threads = p.threads ++ (i ∷ []);
          actions = (p.actions ++ (thread_started i ∷ [])) ++ (thread_pinned i i ∷ []);
        } in
        let k = startable can_start (suc i) n in
        start_threads-suc n i p e (omega arith)
        ∙ start_threads_lem n (suc i) p' (omega arith)
        ∙ rw e (
            ap₂ (λ (q : Process) (r : Ended). (q, r)) (launched-suc i k p)
              (sym (all_or_exception-suc k n)))
  ]

pub join_all_lem :
    (i n : ℕ) (p : Process)
    → join_all (indices i n) p ≡ record p { actions = p.actions ++ joins i n }
unfolding join_all
join_all_lem i zero p = simp append-nil
join_all_lem i (suc n) p =
    join_all_lem (suc i) n (record p { actions = p.actions ++ (thread_joined i ∷ []) })
    ∙ simp append_assoc
