-- ===== src/Session/Uring/Balance.antt =====
-- The flag `IO_READING` against the receives that were submitted and those that completed.
use warp_api.Prelude.{
  list_cases, zero_or_suc, ℕ, suc, ◌+◌, ◌<◌, ◌≡◌, refl, Bool, true, false, not, ◌&&◌, Option, none,
  some, List, [], ◌∷◌, ◌++◌, ltb, ltb→lt, ◌==◌, if◌then◌else◌, arith, inl, inr, all_below,
  all_below_sound, bit_and, if_cases,
}
use warp_api.Ring.{RingBuffer}
use warp_api.Session.Uring.{
  close, backlog, released, Submission, recv, send_zc, nop, Queue, nop_done, read_done, write_done,
  Event, completed, expired, submitted, io_writing, io_reading, io_waiting_zc, is_set,
  update_io_state, Uring, on_read_ready, on_write_ready, with_sqe, write_more, read_more,
  process_write,
}

-- The receives that were submitted.
abbrev pub receives : List Submission → ℕ
receives [] = 0
receives (recv space ∷ more) = suc (receives more)
receives (send_zc bytes ∷ more) = receives more
receives (nop ∷ more) = receives more

-- The number of receives that have completed, behind an event.
abbrev pub counted : Event → ℕ → ℕ
counted (completed (read_done r)) m = suc m
counted (completed nop_done) m = m
counted (completed (write_done sent more notif)) m = m
counted expired m = m
counted (submitted n) m = m

receives-append : (xs ys : List Submission) → receives (xs ++ ys) ≡ receives xs + receives ys
receives-append [] ys = omega arith
receives-append (recv space ∷ more) ys = omega (arith, receives-append more ys)
receives-append (send_zc bytes ∷ more) ys = receives-append more ys
receives-append (nop ∷ more) ys = receives-append more ys

-- The flag `IO_READING` behind each change of a flag.
flags_table :
    all_below 8 (λ f.
      (bit_and (update_io_state f 1 true) 1 == 1)
      && (bit_and (update_io_state f 1 false) 1 == 0)
      && (bit_and (update_io_state f 2 true) 1 == bit_and f 1)
      && (bit_and (update_io_state f 2 false) 1 == bit_and f 1)
      && (bit_and (update_io_state f 4 true) 1 == bit_and f 1)
      && (bit_and (update_io_state f 4 false) 1 == bit_and f 1))
    ≡ true
unfolding all_below update_io_state
flags_table = refl

bounds_table :
    all_below 8 (λ f.
      ltb (update_io_state f 1 true) 8
      && ltb (update_io_state f 1 false) 8
      && ltb (update_io_state f 2 true) 8
      && ltb (update_io_state f 2 false) 8
      && ltb (update_io_state f 4 true) 8
      && ltb (update_io_state f 4 false) 8)
    ≡ true
unfolding all_below update_io_state
bounds_table = refl

abbrev pub Reads : ℕ → ℕ → Type 0
Reads flags n = (bit_and flags 1 ≡ n) × (flags < 8)

reading_on : (f : ℕ) → f < 8 → Reads (update_io_state f io_reading true) 1
reading_on f h =
    let e = all_below_sound 8 _ f flags_table h in
    let k = all_below_sound 8 _ f bounds_table h in ground arith

pub reading_off : (f : ℕ) → f < 8 → Reads (update_io_state f io_reading false) 0
reading_off f h =
    let e = all_below_sound 8 _ f flags_table h in
    let k = all_below_sound 8 _ f bounds_table h in ground arith

writing_set : (f : ℕ) (b : Bool) → f < 8 → Reads (update_io_state f io_writing b) (bit_and f 1)
writing_set f true h =
    let e = all_below_sound 8 _ f flags_table h in
    let k = all_below_sound 8 _ f bounds_table h in ground arith
writing_set f false h =
    let e = all_below_sound 8 _ f flags_table h in
    let k = all_below_sound 8 _ f bounds_table h in ground arith

pub waiting_set :
    (f : ℕ) (b : Bool) → f < 8 → Reads (update_io_state f io_waiting_zc b) (bit_and f 1)
waiting_set f true h =
    let e = all_below_sound 8 _ f flags_table h in
    let k = all_below_sound 8 _ f bounds_table h in ground arith
waiting_set f false h =
    let e = all_below_sound 8 _ f flags_table h in
    let k = all_below_sound 8 _ f bounds_table h in ground arith

pub bit-bound : (f : ℕ) → f < 8 → bit_and f 1 < 2
unfolding all_below
bit-bound f h = ltb→lt (bit_and f 1) 2 (all_below_sound 8 (λ f. ltb (bit_and f 1) 2) f refl h)

is_reading-bit : (f : ℕ) → is_set f io_reading ≡ false → bit_and f 1 ≡ 0
is_reading-bit f h = ground arith

module _ (rb : RingBuffer) (sha1 : List ℕ → List ℕ) where
  open rb use {advance_write, read_region, write_space}

  -- `IO_READING` counts the receives in flight: those submitted less the `m` that completed.
  pub record Balanced (m : ℕ) (s : Uring rb sha1 × Queue) : Type 0 where
    pub small : s.0.io_flags < 8
    pub count : receives s.1.entries ≡ m + bit_and s.0.io_flags 1

  pub with_sqe-Balanced :
      (m : ℕ) (prepare : Uring rb sha1 → Uring rb sha1 × Submission) (u : Uring rb sha1) (q : Queue)
      → Balanced m (u, q)
      → ((n : ℕ)
          → Balanced m
              ((prepare u).0, record { free = n; entries = q.entries ++ ((prepare u).1 ∷ []) }))
      → Balanced m (with_sqe rb sha1 prepare (u, q))
  with_sqe-Balanced m prepare u q h k = elim (zero_or_suc q.free) [
    | inl e ↦ rw (e, with_sqe) h
    | inr (n, e) ↦ rw (e, with_sqe) (k n)
  ]

  on_write_ready-Balanced :
      (m n : ℕ) (u : Uring rb sha1) (q : Queue)
      → Balanced m (u, q)
      → Balanced m (
        (on_write_ready rb sha1 u).0,
        record { free = n; entries = q.entries ++ ((on_write_ready rb sha1 u).1 ∷ []) },
      )
  unfolding on_write_ready
  on_write_ready-Balanced m n u q h = elim (list_cases (read_region u.conn.session.out)) [
    | inl e ↦
        rw (e, on_write_ready)
          (record {
            small = h.small;
            count = omega (arith, h.count, receives-append q.entries (nop ∷ []));
          })
    | inr (c, cs, e) ↦
        let (reading, small) = writing_set u.io_flags true h.small in
        rw (e, on_write_ready)
          (record {
            small = small;
            count =
                omega (arith, h.count, reading, receives-append q.entries (send_zc (c ∷ cs) ∷ []));
          })
  ]

  pub on_read_ready-Balanced :
      (m n : ℕ) (u : Uring rb sha1) (q : Queue)
      → bit_and u.io_flags 1 ≡ 0
      → Balanced m (u, q)
      → Balanced m (
        (on_read_ready rb sha1 u).0,
        record { free = n; entries = q.entries ++ ((on_read_ready rb sha1 u).1 ∷ []) },
      )
  unfolding on_read_ready
  on_read_ready-Balanced m n u q idle h = elim (zero_or_suc (write_space u.conn.input)) [
    | inl e ↦
        rw (e, on_read_ready)
          (record {
            small = h.small;
            count = omega (arith, h.count, receives-append q.entries (nop ∷ []));
          })
    | inr (space, e) ↦
        let (reading, small) = reading_on u.io_flags h.small in
        rw (e, on_read_ready)
          (record {
            small = small;
            count =
                omega (
                  arith,
                  h.count,
                  idle,
                  reading,
                  receives-append q.entries (recv (suc space) ∷ []),
                );
          })
  ]

  pub write_more-Balanced :
      (m : ℕ) (u : Uring rb sha1) (q : Queue)
      → Balanced m (u, q)
      → Balanced m (write_more rb sha1 (u, q))
  unfolding write_more
  write_more-Balanced m u q h =
      if_cases (Balanced m) _ (with_sqe rb sha1 (on_write_ready rb sha1) (u, q)) (u, q)
        (λ _.
          with_sqe-Balanced m (on_write_ready rb sha1) u q h
            (λ n. on_write_ready-Balanced m n u q h))
        (λ _. h)

  pub read_more-Balanced :
      (m : ℕ) (u : Uring rb sha1) (q : Queue)
      → Balanced m (u, q)
      → Balanced m (read_more rb sha1 (u, q))
  unfolding read_more
  read_more-Balanced m u q h =
      if_cases (Balanced m) _ (with_sqe rb sha1 (on_read_ready rb sha1) (u, q)) (u, q)
        (λ e.
          with_sqe-Balanced m (on_read_ready rb sha1) u q h
            (λ n. on_read_ready-Balanced m n u q (idle e) h))
        (λ _. h)
    where
      idle :
          (not (is_set u.io_flags io_reading) && not u.conn.session.closing) ≡ true
          → bit_and u.io_flags 1 ≡ 0
      idle e = ground arith

  -- Another change of a flag than of `IO_READING`.
  pub Balanced-flags :
      (m : ℕ) (u u' : Uring rb sha1) (q : Queue)
      → Reads u'.io_flags (bit_and u.io_flags 1)
      → Balanced m (u, q)
      → Balanced m (u', q)
  Balanced-flags m u u' q (reading, small) h = record {
    small = small;
    count = omega (arith, h.count, reading);
  }

  pub process_write-Balanced :
      (m : ℕ) (sent : Option ℕ) (notif : Bool) (u : Uring rb sha1) (q : Queue)
      → Balanced m (u, q)
      → Balanced m (process_write rb sha1 sent notif (u, q)).0
  unfolding process_write released
  process_write-Balanced m none false u q h =
      Balanced-flags m u _ q (writing_set u.io_flags false h.small) h
  process_write-Balanced m (some n) false u q h =
      Balanced-flags m u _ q (writing_set u.io_flags false h.small) h
  process_write-Balanced m sent true u q h =
      if_cases (λ (x : (Uring rb sha1 × Queue) × Bool). Balanced m x.0)
        (ltb 0 (backlog rb sha1 (released rb sha1 u)))
        (with_sqe rb sha1 (on_write_ready rb sha1) (released rb sha1 u, q), true)
        (if not u.conn.session.keep_alive
          then ((close rb sha1 (released rb sha1 u), q), false)
          else ((released rb sha1 u, q), true))
        (λ _.
          with_sqe-Balanced m (on_write_ready rb sha1) (released rb sha1 u) q notified
            (λ n. on_write_ready-Balanced m n (released rb sha1 u) q notified))
        (λ _.
          if_cases (λ (x : (Uring rb sha1 × Queue) × Bool). Balanced m x.0)
            (not u.conn.session.keep_alive) ((close rb sha1 (released rb sha1 u), q), false)
            ((released rb sha1 u, q), true)
            (λ _. record { small = notified.small; count = notified.count }) (λ _. notified))
    where
      notified : Balanced m (released rb sha1 u, q)
      notified = Balanced-flags m u (released rb sha1 u) q (waiting_set u.io_flags false h.small) h
