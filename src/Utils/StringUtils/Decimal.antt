-- ===== src/Utils/StringUtils/Decimal.antt =====
-- `fast_itoa` and `fast_atoi` of src/Utils/StringUtils.cpp.
use warp_api.Prelude.{
  ℕ, zero, suc, ◌+◌, ◌*◌, ◌/◌, ◌%◌, ◌^◌, ◌≤◌, ◌<◌, ◌≡◌, ◌⊎◌, refl, ap, ◌∙◌, List, [], ◌∷◌, ◌++◌,
  append_assoc, arith, ltb, length, length-append, Bool-cases, inl, inr, ltb→lt, lt→ltb, le→leb,
}
use native.Mathlib.Nat.{pow-suc}
use warp_api.Utils.StringUtils.{atoi_loop, fast_atoi, to_chars, fast_itoa}

-- A text at which the number ends: it is empty, or begins with a byte that is no digit.
abbrev pub EndsNumber : List ℕ → Type 0
EndsNumber [] = Unit
EndsNumber (c ∷ cs) = (c < b'0') ⊎ (b'9' < c)

digit :
    (acc d : ℕ) (rest : List ℕ)
    → d < 10
    → acc * 10 + d < 2 ^ 64
    → atoi_loop acc ((b'0' + d) ∷ rest) ≡ atoi_loop (acc * 10 + d) rest
unfolding atoi_loop
digit acc d rest h k = ground arith

-- Reading the digits of `n` gives `n`, and goes on with what follows.
atoi_loop-to_chars :
    (fuel n : ℕ) (rest : List ℕ)
    → n < 10 ^ fuel
    → n < 2 ^ 64
    → 0 < fuel
    → atoi_loop 0 (to_chars fuel n ++ rest) ≡ atoi_loop n rest
unfolding to_chars
atoi_loop-to_chars zero n rest h k p = absurd (omega arith)
atoi_loop-to_chars (suc zero) n rest h k p =
    rw (lt→ltb n 10 h, to_chars)
      (digit 0 n rest h (omega arith) ∙ ap (λ m. atoi_loop m rest) (omega arith))
atoi_loop-to_chars (suc (suc fuel)) n rest h k p = elim (Bool-cases (ltb n 10)) [
  | inl e ↦
      rw (e, to_chars)
        (digit 0 n rest (ltb→lt n 10 e) (omega arith) ∙ ap (λ m. atoi_loop m rest) (omega arith))
  | inr e ↦
      rw (e, to_chars, append_assoc)
        (atoi_loop-to_chars (suc fuel) (n / 10) ((b'0' + n % 10) ∷ rest)
            (omega (arith, pow-suc 10 (suc fuel))) (omega arith) (omega arith)
          ∙ digit (n / 10) (n % 10) rest (omega arith) (omega arith)
          ∙ ap (λ m. atoi_loop m rest) (omega arith))
]

atoi_loop_end : (n : ℕ) (rest : List ℕ) → EndsNumber rest → atoi_loop n rest ≡ n
unfolding atoi_loop
atoi_loop_end n [] h = refl
atoi_loop_end n (c ∷ cs) h = ground arith

length-to_chars :
    (fuel n : ℕ) → 0 < fuel → (1 ≤ length (to_chars fuel n)) × (length (to_chars fuel n) ≤ fuel)
unfolding to_chars
length-to_chars zero n p = absurd (omega arith)
length-to_chars (suc zero) n p = ground arith
length-to_chars (suc (suc fuel)) n p = ground (
  arith,
  length-to_chars (suc fuel) (n / 10),
  length-append (to_chars (suc fuel) (n / 10)) ((b'0' + n % 10) ∷ []),
)

itoa_text : (n : ℕ) → fast_itoa 24 n ≡ to_chars 20 n
unfolding fast_itoa
itoa_text n = rw (le→leb (length (to_chars 20 n)) 24 (omega (arith, length-to_chars 20 n)))

-- The 24 bytes of the response's number buffer hold every 64-bit value: the text has 1 to 20
-- bytes, and is never the empty view.
pub length-fast_itoa : (n : ℕ) → (1 ≤ length (fast_itoa 24 n)) × (length (fast_itoa 24 n) ≤ 20)
length-fast_itoa n = rw (itoa_text n) (length-to_chars 20 n (omega arith))

-- A 64-bit value that `fast_itoa` prints into the 24-byte buffer is read back by `fast_atoi`, also
-- with more text behind it that begins with no digit.
pub fast_atoi-fast_itoa :
    (n : ℕ) (rest : List ℕ) → n < 2 ^ 64 → EndsNumber rest → fast_atoi (fast_itoa 24 n ++ rest) ≡ n
unfolding fast_atoi
fast_atoi-fast_itoa n rest h k =
    rw (itoa_text n)
      (atoi_loop-to_chars 20 n rest (omega arith) h (omega arith) ∙ atoi_loop_end n rest k)
