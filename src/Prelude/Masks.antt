-- ===== src/Prelude/Masks.antt =====
-- Laws of the bitwise operations at variables: joining disjoint fields, and masks of low bits.
use Prim.Native.Nat.{
  ℕ, zero, suc, ◌+◌, ◌*◌, ◌/◌, ◌%◌, ◌^◌, ◌≤◌, ◌<◌, min, max, bit_and, bit_or, digits,
  bit_and-bitwise, bit_or-bitwise,
}
use mathlib.Core.Path.{◌≡◌, refl, ◌∙◌}
use mathlib.Core.Logic.{inl, inr}
use native.Mathlib.Omega.{arith}
use native.Mathlib.Nat.{pow-suc}
use warp_api.Prelude.Tests.{Bool-cases, ◌==◌, ==_iff}

-- Both operations at once: `last` is the result behind the first number's digits.
module _ (last : ℕ → ℕ) (digit : ℕ → ℕ → ℕ) where
  abbrev joined : ℕ → ℕ → ℕ → ℕ
  joined count a b = digits last digit count a b

  -- One more digit than the number has changes nothing.
  spare : (count b a : ℕ) → a ≤ count → joined (suc count) a b ≡ joined count a b
  spare count b zero fits = omega (arith, last_digit count)
    where
      last_digit : (k : ℕ) → joined k 0 b ≡ last b
      last_digit zero = refl
      last_digit (suc k) = refl
  spare zero b (suc a) fits = absurd (omega arith)
  spare (suc count) b (suc a) fits = omega (arith, spare count (b / 2) (suc a / 2) (omega arith))

  enough : (count b a : ℕ) → a ≤ count → joined count a b ≡ joined a a b
  enough zero b a fits = elim (Bool-cases (a == 0)) [
    | inl e ↦ rw ((==_iff a 0).0 e)
    | inr e ↦ absurd (ground arith)
  ]
  enough (suc count) b a fits = elim (Bool-cases (a == suc count)) [
    | inl e ↦ rw ((==_iff a (suc count)).0 e)
    | inr e ↦ let less : a ≤ count = ground arith in spare count b a less ∙ enough count b a less
  ]

  lowest :
      (a b : ℕ)
      → joined (suc a) (suc a) b
        ≡ digit (suc a % 2) (b % 2) + 2 * joined (suc a / 2) (suc a / 2) (b / 2)
  lowest a b = omega (arith, enough a (b / 2) (suc a / 2) (omega arith))

and_lowest : (a b : ℕ) → bit_and a b ≡ min (a % 2) (b % 2) + 2 * bit_and (a / 2) (b / 2)
and_lowest zero b = omega (arith, bit_and-bitwise 0 (b / 2), bit_and-bitwise 0 b)
and_lowest (suc a) b = omega (
  arith,
  lowest (λ k. zero) min a b,
  bit_and-bitwise (suc a / 2) (b / 2),
  bit_and-bitwise (suc a) b,
)

or_lowest : (a b : ℕ) → bit_or a b ≡ max (a % 2) (b % 2) + 2 * bit_or (a / 2) (b / 2)
or_lowest zero b = omega (arith, bit_or-bitwise 0 (b / 2), bit_or-bitwise 0 b)
or_lowest (suc a) b =
    omega
      (arith, lowest (λ k. k) max a b, bit_or-bitwise (suc a / 2) (b / 2), bit_or-bitwise (suc a) b)

-- Both operations with 0, for numbers up to a bound.
with_zero : (bound a : ℕ) → a ≤ bound → (bit_and a 0 ≡ 0) × (bit_or a 0 ≡ a)
with_zero bound zero fits = (refl, refl)
with_zero zero (suc a) fits = absurd (omega arith)
with_zero (suc bound) (suc a) fits =
    let (gone, same) = with_zero bound (suc a / 2) (omega arith) in
    (omega (arith, gone, and_lowest (suc a) 0), omega (arith, same, or_lowest (suc a) 0))

-- A field placed above `k` bits joins a value that fits those bits as a sum.
pub bit_or-shift : (k x y : ℕ) → y < 2 ^ k → bit_or (x * 2 ^ k) y ≡ x * 2 ^ k + y
bit_or-shift zero x y h =
    let e : y ≡ 0 = omega arith in
    rw e ((with_zero (x * 2 ^ 0) (x * 2 ^ 0) (omega arith)).1 ∙ omega arith)
bit_or-shift (suc k) x y h = omega (
  arith,
  twice,
  pow-suc 2 k,
  or_lowest (x * 2 ^ suc k) y,
  rw (← half) at (bit_or-shift k x (y / 2) (omega (arith, pow-suc 2 k))),
)
  where
    twice : x * 2 ^ suc k ≡ x * 2 ^ k * 2
    twice = rw pow-suc (omega arith)

    half : x * 2 ^ suc k / 2 ≡ x * 2 ^ k
    half = omega (arith, twice)

-- A mask of k ones keeps the k low bits.
mask1 : (a : ℕ) → bit_and a 1 ≡ a % 2
mask1 a = omega (arith, and_lowest a 1, (with_zero (a / 2) (a / 2) (omega arith)).0)

mask7 : (a : ℕ) → bit_and a 7 ≡ a % 8
mask7 a = omega (arith, and_lowest a 7, and_lowest (a / 2) 3, mask1 (a / 2 / 2))

pub bit_and-63 : (a : ℕ) → bit_and a 0x3f ≡ a % 64
bit_and-63 a = omega (
  arith,
  and_lowest a 63,
  and_lowest (a / 2) 31,
  and_lowest (a / 2 / 2) 15,
  mask7 (a / 2 / 2 / 2),
)

pub bit_and-255 : (a : ℕ) → bit_and a 0xff ≡ a % 256
bit_and-255 a = omega (arith, and_lowest a 255, and_lowest (a / 2) 127, bit_and-63 (a / 2 / 2))
