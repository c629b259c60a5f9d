-- ===== src/Session/Uring/Submitted.antt =====
-- The submission of the bytes in the write buffer.
use warp_api.Prelude.{
  zero_or_suc, list_cases, ◌∙◌, ltb, ltb→lt, ℕ, suc, ◌<◌, ◌≡◌, refl, ap, sym, Bool, true, false,
  not, ◌&&◌, List, [], ◌∷◌, ◌++◌, ◌==◌, arith, length, inl, inr, all_below, all_below_sound, bit_or,
  lt→ltb, if◌then◌else◌,
}
use warp_api.Ring.{RingBuffer}
use warp_api.Session.Uring.{
  recv, on_read_ready, with_sqe, read_more, send_zc, Queue, io_writing, io_reading, is_set,
  update_io_state, Uring, backlog, out_of, on_write_ready, write_more,
}

pub writing_pending :
    (flags : ℕ) → flags < 8 → not (update_io_state flags io_writing true == 0) ≡ true
unfolding update_io_state all_below
writing_pending flags h = all_below_sound 8 (λ f. not (bit_or f 2 == 0)) flags refl h

same : Bool → Bool → Bool
same a b = if a then b else not b

same-eq : (a b : Bool) → same a b ≡ true → a ≡ b
unfolding same
same-eq true true h = refl
same-eq true false h = sym h
same-eq false true h = h
same-eq false false h = refl

-- An operation on another flag leaves a flag as it is.
pub writing-stop_reading :
    (flags : ℕ)
    → flags < 8
    → is_set (update_io_state flags io_reading false) io_writing ≡ is_set flags io_writing
unfolding update_io_state all_below same
writing-stop_reading flags h =
    same-eq (is_set (update_io_state flags 1 false) 2) (is_set flags 2) (
      all_below_sound 8 (λ f. same (is_set (update_io_state f 1 false) 2) (is_set f 2)) flags refl
        h)

pub stop_reading-bound : (flags : ℕ) → flags < 8 → update_io_state flags io_reading false < 8
unfolding update_io_state all_below
stop_reading-bound flags h =
    ltb→lt (update_io_state flags 1 false) 8
      (all_below_sound 8 (λ f. ltb (update_io_state f 1 false) 8) flags refl h)

pub and_false : (a : Bool) → (a && false) ≡ false
and_false true = refl
and_false false = refl

module _ (rb : RingBuffer) (sha1 : List ℕ → List ℕ) where
  open rb use {write_space, contents, read_region, read_region_progress}

  on_write_ready_bytes :
      (u : Uring rb sha1)
      → 0 < backlog rb sha1 u
      → on_write_ready rb sha1 u ≡ (
        record u { io_flags = update_io_state u.io_flags io_writing true },
        send_zc (read_region u.conn.session.out),
      )
  unfolding on_write_ready
  on_write_ready_bytes u some_left = elim (list_cases (read_region (out_of rb sha1 u))) [
    | inl e ↦ absurd (omega (arith, read_region_progress (out_of rb sha1 u) some_left, ap length e))
    | inr (c, cs, e) ↦ rw (e, on_write_ready) refl
  ]

  -- With an entry in the ring, no send in flight and bytes to write, they are submitted.
  pub write_more-submitted :
      (u : Uring rb sha1) (q : Queue) (n : ℕ)
      → q.free ≡ suc n
      → is_set u.io_flags io_writing ≡ false
      → 0 < backlog rb sha1 u
      → write_more rb sha1 (u, q) ≡ (
        record u { io_flags = update_io_state u.io_flags io_writing true },
        record { free = n; entries = q.entries ++ (send_zc (read_region u.conn.session.out) ∷ []) },
      )
  unfolding write_more
  write_more-submitted u q n free idle some_left =
      rw
        (
          idle,
          lt→ltb 0 (backlog rb sha1 u) some_left,
          free,
          on_write_ready_bytes u some_left,
          write_more,
        )
        refl

  -- A closing session submits no receive.
  pub read_more-closing :
      (u : Uring rb sha1) (q : Queue)
      → u.conn.session.closing ≡ true
      → read_more rb sha1 (u, q) ≡ (u, q)
  unfolding read_more
  read_more-closing u q closing =
      ap (λ b. if b then with_sqe rb sha1 (on_read_ready rb sha1) (u, q) else (u, q))
        (ap (λ b. not (is_set u.io_flags io_reading) && not b) closing
          ∙ and_false (not (is_set u.io_flags io_reading)))

  -- With space to receive into, a receive for all of it is prepared.
  pub on_read_ready_space :
      (u : Uring rb sha1)
      → 0 < write_space u.conn.input
      → on_read_ready rb sha1 u ≡ (
        record u { io_flags = update_io_state u.io_flags io_reading true },
        recv (write_space u.conn.input),
      )
  unfolding on_read_ready
  on_read_ready_space u h = elim (zero_or_suc (write_space u.conn.input)) [
    | inl e ↦ absurd (omega (arith, e))
    | inr (n, e) ↦ rw (e, on_read_ready) refl
  ]
