-- ===== src/Ring/Appended.antt =====
-- Buffers by what was stored behind their contents, for operations made of several writes.
use warp_api.Prelude.{
  ℕ, ◌-◌, ◌≡◌, ap, sym, ◌∙◌, List, [], ◌++◌, append_assoc, append-nil, arith, length, length-append,
  take, take-nil, take-append_split,
}
use warp_api.Ring.{RingBuffer}
use warp_api.Ring.WriteAll.{write_all, write_all_lem}

module _ (rb : RingBuffer) where
  open rb use {Buf, contents, room}

  -- `b'` is `b` with as many of the bytes as there was room for.
  pub record Appended (b : Buf) (bytes : List ℕ) (b' : Buf) : Type 0 where
    pub stored : contents b' ≡ contents b ++ take (room b) bytes
    pub left : room b' ≡ room b - length bytes

  pub Appended-nil : (b : Buf) → Appended b [] b
  Appended-nil b = record {
    stored = sym (ap (◌++◌ (contents b)) (take-nil (room b)) ∙ append-nil (contents b));
    left = omega arith;
  }

  pub Appended-append :
      {b b' b'' : Buf} (xs ys : List ℕ)
      → Appended b xs b'
      → Appended b' ys b''
      → Appended b (xs ++ ys) b''
  Appended-append {b} {b'} {b''} xs ys h k = record {
    stored =
        k.stored
        ∙ ap (λ t. t ++ take (room b') ys) h.stored
        ∙ append_assoc (contents b) (take (room b) xs) (take (room b') ys)
        ∙ ap (λ n. contents b ++ (take (room b) xs ++ take n ys)) h.left
        ∙ ap (◌++◌ (contents b)) (take-append_split (room b) xs ys);
    left = omega (arith, h.left, k.left, length-append xs ys);
  }

  pub write_all-Appended : (b : Buf) (bytes : List ℕ) → Appended b bytes (write_all rb b bytes).0
  write_all-Appended b bytes =
      let w = write_all_lem rb b bytes in record { stored = w.stored; left = w.left }
