-- ===== src/Tests/Rings.antt =====
-- A ring buffer whose bytes can stand in two pieces.
use warp_api.Prelude.{
  ap, ℕ, zero, suc, ◌-◌, ◌<◌, ◌≡◌, ◌∙◌, refl, sym, List, [], ◌∷◌, ◌++◌, append-nil, arith, ltb,
  if◌then◌else◌, length, length-append, take, drop,
}
use warp_api.Ring.{NewBuffer, RingBuffer}

-- The bytes before the end of the array, or, behind them, those at its start.
abbrev first_piece : List ℕ → List ℕ → List ℕ
first_piece [] back = back
first_piece (c ∷ cs) back = c ∷ cs

first_piece-rest :
    (front back : List ℕ) → (rest : List ℕ) × (front ++ back ≡ first_piece front back ++ rest)
first_piece-rest [] back = ([], sym (append-nil back))
first_piece-rest (c ∷ cs) back = (back, refl)

first_piece-progress :
    (front back : List ℕ) → 0 < length (front ++ back) → 0 < length (first_piece front back)
first_piece-progress [] back h = h
first_piece-progress (c ∷ cs) back h = omega arith

-- What is left of the other bytes behind so many of both.
abbrev drop_behind : ℕ → List ℕ → List ℕ → List ℕ
drop_behind n [] back = drop n back
drop_behind zero (c ∷ cs) back = back
drop_behind (suc n) (c ∷ cs) back = drop_behind n cs back

drop-pieces :
    (n : ℕ) (front back : List ℕ)
    → drop n front ++ drop_behind n front back ≡ drop n (front ++ back)
drop-pieces zero [] back = refl
drop-pieces zero (c ∷ cs) back = refl
drop-pieces (suc n) [] back = refl
drop-pieces (suc n) (c ∷ cs) back = drop-pieces n cs back

drop_behind_nothing : (n : ℕ) (front : List ℕ) → drop_behind n front [] ≡ []
drop_behind_nothing zero [] = refl
drop_behind_nothing (suc n) [] = refl
drop_behind_nothing zero (c ∷ cs) = refl
drop_behind_nothing (suc n) (c ∷ cs) = drop_behind_nothing n cs

no_back : (front back : List ℕ) → front ≡ front ++ back → back ≡ []
no_back front [] e = refl
no_back front (c ∷ cs) e = absurd (omega (arith, ap length e, length-append front (c ∷ cs)))

one_piece : (front : List ℕ) → first_piece front [] ≡ front ++ []
one_piece [] = refl
one_piece (c ∷ cs) = sym (append-nil (c ∷ cs))

drop_whole :
    (n : ℕ) (front back : List ℕ)
    → first_piece front back ≡ front ++ back
    → first_piece (drop n front) (drop_behind n front back)
      ≡ drop n front ++ drop_behind n front back
drop_whole zero [] back e = refl
drop_whole (suc n) [] back e = refl
drop_whole n (c ∷ cs) back e =
    let none_behind =
      ap (drop_behind n (c ∷ cs)) (no_back (c ∷ cs) back e) ∙ drop_behind_nothing n (c ∷ cs) in
    rw none_behind (one_piece (drop n (c ∷ cs)))

abbrev counted : ℕ → ℕ → ℕ
counted r n = if ltb r n then r else n

-- What is stored goes to the other end of the array.
abbrev split_ring : RingBuffer
split_ring = record {
  Buf = List ℕ × List ℕ × ℕ;
  contents = λ b. b.0 ++ b.1;
  room = λ b. b.2;
  read_region = λ b. first_piece b.0 b.1;
  advance_read = λ b n. (drop n b.0, drop_behind n b.0 b.1, b.2);
  write_space = λ b. b.2;
  advance_write = λ b bytes. (b.0 ++ b.1, bytes, b.2 - length bytes);
  write = λ b bytes. (
    (b.0 ++ b.1, take (counted b.2 (length bytes)) bytes, b.2 - counted b.2 (length bytes)),
    counted b.2 (length bytes),
  );
  read_region_prefix = λ b. first_piece-rest b.0 b.1;
  read_region_progress = λ b h. first_piece-progress b.0 b.1 h;
  advance_read_contents = λ b n h. drop-pieces n b.0 b.1;
  advance_read_whole = λ b n h e. drop_whole n b.0 b.1 e;
  write_space-le-room = λ b. omega arith;
  advance_write_contents = λ b bytes h. refl;
  write_count = λ b bytes. ground arith;
  write_progress = λ b bytes h k. ground arith;
  write_contents = λ b bytes. refl;
  write_room = λ b bytes. ground arith;
}

abbrev split_buffers : NewBuffer split_ring
split_buffers = record {
  make = λ size. ([], [], size);
  contents-make = λ size. refl;
  write_space-make = λ size. refl;
  first_whole = λ size bytes h. refl;
}

-- Two writes stand in two pieces.
two_pieces :
    split_ring.read_region
      (split_ring.advance_write (split_ring.advance_write (split_buffers.make 9) (1 ∷ [])) (2 ∷ []))
    ≡ 1 ∷ []
two_pieces = refl
