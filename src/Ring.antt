-- ===== src/Ring.antt =====
-- The ring buffer of the ink library (`ink/RingBuffer.h`), which this repository does not hold: the
-- operations that the server calls, with what it relies on. `contents` is what was written and not
-- yet read, and `room` the number of bytes that still fit.
pub mod WriteAll
pub mod Appended
use warp_api.Prelude.{[], ℕ, ◌+◌, ◌≤◌, ◌<◌, ◌≡◌, List, ◌++◌, length, take, drop}

pub record RingBuffer : Type 1 where
  pub Buf : Type 0
  pub contents : Buf → List ℕ
  pub room : Buf → ℕ
  -- `getReadBuffer`: the bytes that can be read in one piece.
  pub read_region : Buf → List ℕ
  -- `advanceReadPos`
  pub advance_read : Buf → ℕ → Buf
  -- `getWriteBuffer`: the bytes that can be written in one piece.
  pub write_space : Buf → ℕ
  -- `advanceWritePos`, with the bytes that were stored in the write region before.
  pub advance_write : Buf → List ℕ → Buf
  -- `write`: the buffer, and the number of bytes taken.
  pub write : Buf → List ℕ → Buf × ℕ
  pub read_region_prefix : (b : Buf) → (rest : List ℕ) × (contents b ≡ read_region b ++ rest)
  pub read_region_progress : (b : Buf) → 0 < length (contents b) → 0 < length (read_region b)
  pub advance_read_contents :
      (b : Buf) (n : ℕ)
      → n ≤ length (contents b)
      → contents (advance_read b n) ≡ drop n (contents b)
  -- Bytes that can be read in one piece can be so behind the first of them.
  pub advance_read_whole :
      (b : Buf) (n : ℕ)
      → n ≤ length (contents b)
      → read_region b ≡ contents b
      → read_region (advance_read b n) ≡ contents (advance_read b n)
  pub write_space-le-room : (b : Buf) → write_space b ≤ room b
  pub advance_write_contents :
      (b : Buf) (bytes : List ℕ)
      → length bytes ≤ write_space b
      → contents (advance_write b bytes) ≡ contents b ++ bytes
  pub write_count : (b : Buf) (bytes : List ℕ) → (write b bytes).1 ≤ length bytes
  pub write_progress :
      (b : Buf) (bytes : List ℕ) → 0 < length bytes → 0 < room b → 0 < (write b bytes).1
  pub write_contents :
      (b : Buf) (bytes : List ℕ)
      → contents (write b bytes).0 ≡ contents b ++ take (write b bytes).1 bytes
  pub write_room : (b : Buf) (bytes : List ℕ) → room (write b bytes).0 + (write b bytes).1 ≡ room b

-- `ink::RingBuffer(size)`: a new buffer is empty, its size is the space that can be written, and what
-- is stored there first can be read in one piece.
pub record NewBuffer (rb : RingBuffer) : Type 0 where
  pub make : ℕ → rb.Buf
  pub contents-make : (size : ℕ) → rb.contents (make size) ≡ []
  pub write_space-make : (size : ℕ) → rb.write_space (make size) ≡ size
  pub first_whole :
      (size : ℕ) (bytes : List ℕ)
      → length bytes ≤ size
      → rb.read_region (rb.advance_write (make size) bytes)
        ≡ rb.contents (rb.advance_write (make size) bytes)
