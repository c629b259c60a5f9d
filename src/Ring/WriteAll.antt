-- ===== src/Ring/WriteAll.antt =====
-- `HttpResponse::writeAll` of src/Response/HttpResponse.h: the loop that every writer of the server
-- goes through.
use warp_api.Prelude.{
  ℕ, zero, suc, ◌-◌, ◌≤◌, ◌<◌, ◌≡◌, ◌↔◌, refl, ap, sym, ◌∙◌, Bool, true, false, List, [], ◌∷◌, ◌++◌,
  append-nil, append_assoc, arith, ◌==◌, if◌then◌else◌, length, take, drop, length-drop, Bool-cases,
  inl, inr, ==_iff, take-split, take-nil, take-append_split, concat,
}
use warp_api.Ring.{RingBuffer}

module _ (rb : RingBuffer) where
  open rb use {Buf, contents, room, write, write_count, write_progress, write_contents, write_room}

  -- `bytes` is what is not written yet. A round that goes on takes a byte at least, so that a fuel
  -- above the number of bytes is never used up.
  write_all_loop : ℕ → Buf → List ℕ → Buf × Bool
  write_all_loop zero b bytes = (b, false)
  write_all_loop (suc fuel) b [] = (b, true)
  write_all_loop (suc fuel) b (x ∷ xs) =
      let (b', n) = write b (x ∷ xs) in
      let more = write_all_loop fuel b' (drop n (x ∷ xs)) in if n == 0 then (b', false) else more

  pub write_all : Buf → List ℕ → Buf × Bool
  write_all b bytes = write_all_loop (suc (length bytes)) b bytes

  -- Writes in turn, whose results the caller drops.
  pub write_each : Buf → List (List ℕ) → Buf
  write_each b [] = b
  write_each b (s ∷ ss) = write_each (write_all b s).0 ss

  -- What has been stored when `bytes` had to be written: as much as there was room for.
  pub record Written (b : Buf) (bytes : List ℕ) (r : Buf × Bool) : Type 0 where
    pub stored : contents r.0 ≡ contents b ++ take (room b) bytes
    pub left : room r.0 ≡ room b - length bytes
    pub complete : (r.1 ≡ true) ↔ (length bytes ≤ room b)

  write_all_loop-Written :
      (fuel : ℕ) (b : Buf) (bytes : List ℕ)
      → length bytes < fuel
      → Written b bytes (write_all_loop fuel b bytes)
  unfolding write_all_loop
  write_all_loop-Written zero b bytes h = absurd (omega arith)
  write_all_loop-Written (suc fuel) b [] h = record {
    stored = sym (ap (◌++◌ (contents b)) (take-nil (room b)) ∙ append-nil (contents b));
    left = omega arith;
    complete = (λ _. omega arith, λ _. refl);
  }
  write_all_loop-Written (suc fuel) b (x ∷ xs) h = elim (Bool-cases (n == 0)) [
    | inl e ↦
        let z : n ≡ 0 = (==_iff n 0).0 e in
        let full : room b ≡ 0 = no_room z in
        rw (e, write_all_loop)
          (record {
            stored =
                write_contents b (x ∷ xs) ∙ ap (λ k. contents b ++ take k (x ∷ xs)) (z ∙ sym full);
            left = omega (arith, write_room b (x ∷ xs));
            complete = (λ p. cc, λ p. absurd (omega arith));
          })
    | inr e ↦
        let ih =
          write_all_loop-Written fuel b' (drop n (x ∷ xs))
            (omega (arith, length-drop n (x ∷ xs), ne e)) in
        rw (e, write_all_loop)
          (record {
            stored =
                ih.stored
                ∙ ap (λ t. t ++ take (room b') (drop n (x ∷ xs))) (write_contents b (x ∷ xs))
                ∙ append_assoc (contents b) (take n (x ∷ xs)) (take (room b') (drop n (x ∷ xs)))
                ∙ ap (◌++◌ (contents b)) (
                    ap (λ k. take n (x ∷ xs) ++ take k (drop n (x ∷ xs))) {x = room b'}
                      {y = room b - n} (omega (arith, write_room b (x ∷ xs)))
                    ∙ take-split n (room b) (x ∷ xs) (omega (arith, write_room b (x ∷ xs))));
            left = omega (arith, ih.left, length-drop n (x ∷ xs), write_room b (x ∷ xs));
            complete = (
              λ p. omega (
                arith,
                ih.complete.0 p,
                length-drop n (x ∷ xs),
                write_room b (x ∷ xs),
                write_count b (x ∷ xs),
              ),
              λ p. ih.complete.1 (omega (arith, length-drop n (x ∷ xs), write_room b (x ∷ xs))),
            );
          })
  ]
    where
      n : ℕ
      n = (write b (x ∷ xs)).1

      b' : Buf
      b' = (write b (x ∷ xs)).0

      ne : (n == 0) ≡ false → 0 < n
      ne e = ground arith

      no_room : n ≡ 0 → room b ≡ 0
      no_room z = elim (Bool-cases (room b == 0)) [
        | inl e ↦ (==_iff (room b) 0).0 e
        | inr e ↦ absurd (omega (arith, write_progress b (x ∷ xs) (omega arith) (ground arith)))
      ]

  -- `writeAll` stores the bytes as far as there is room, behind what the buffer holds, and answers
  -- true exactly when they all fit.
  pub write_all_lem : (b : Buf) (bytes : List ℕ) → Written b bytes (write_all b bytes)
  unfolding write_all
  write_all_lem b bytes = write_all_loop-Written (suc (length bytes)) b bytes (omega arith)

  -- Writes in turn store what one write of all the bytes would store.
  pub write_each_contents :
      (b : Buf) (ss : List (List ℕ))
      → contents (write_each b ss) ≡ contents b ++ take (room b) (concat ss)
  unfolding write_each
  write_each_contents b [] =
      sym (ap (◌++◌ (contents b)) (take-nil (room b)) ∙ append-nil (contents b))
  write_each_contents b (s ∷ ss) =
      let w = write_all_lem b s in
      write_each_contents (write_all b s).0 ss
      ∙ ap (λ t. t ++ take (room (write_all b s).0) (concat ss)) w.stored
      ∙ append_assoc (contents b) (take (room b) s) (take (room (write_all b s).0) (concat ss))
      ∙ ap (λ k. contents b ++ (take (room b) s ++ take k (concat ss))) w.left
      ∙ ap (◌++◌ (contents b)) (take-append_split (room b) s (concat ss))
