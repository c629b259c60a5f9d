-- ===== src/Prelude/Bytes.antt =====
-- Masks of one byte as arithmetic, checked at every value.
use Prim.Native.Nat.{ℕ, ◌%◌, ◌<◌, bit_and, bit_xor}
use mathlib.Core.Path.{◌≡◌, refl}
use mathlib.Core.Bool.{Bool, true, not}
use native.Mathlib.Omega.{arith}
use warp_api.Prelude.Tests.{ltb, ◌==◌, ==_iff, if◌then◌else◌}
use warp_api.Prelude.Bits.{all_below, all_below_sound}

same_test : Bool → Bool → Bool
same_test a b = if a then b else not b

same_test_sound : (a b : Bool) → same_test a b ≡ true → a ≡ b
unfolding same_test
same_test_sound a b h = ground arith

top_bit_table : all_below 256 (λ b. same_test (bit_and b 0x80 == 0) (ltb b 128)) ≡ true
unfolding all_below same_test
top_bit_table = refl

-- The highest bit of a byte.
pub top_bit : (b : ℕ) → b < 256 → (bit_and b 0x80 == 0) ≡ ltb b 128
top_bit b h =
    same_test_sound (bit_and b 0x80 == 0) (ltb b 128)
      (all_below_sound 256 (λ b. same_test (bit_and b 0x80 == 0) (ltb b 128)) b top_bit_table h)

low_seven_table : all_below 256 (λ b. bit_and b 0x7f == b % 128) ≡ true
unfolding all_below
low_seven_table = refl

pub low_seven : (b : ℕ) → b < 256 → bit_and b 0x7f ≡ b % 128
low_seven b h =
    (==_iff (bit_and b 0x7f) (b % 128)).0
      (all_below_sound 256 (λ b. bit_and b 0x7f == b % 128) b low_seven_table h)

low_four_table : all_below 256 (λ b. bit_and b 0x0f == b % 16) ≡ true
unfolding all_below
low_four_table = refl

pub low_four : (b : ℕ) → b < 256 → bit_and b 0x0f ≡ b % 16
low_four b h =
    (==_iff (bit_and b 0x0f) (b % 16)).0
      (all_below_sound 256 (λ b. bit_and b 0x0f == b % 16) b low_four_table h)

control_bit_table : all_below 16 (λ b. same_test (bit_and b 0x08 == 0) (ltb b 8)) ≡ true
unfolding all_below same_test
control_bit_table = refl

-- Bit 3 of an opcode, which marks a control frame.
pub control_bit : (b : ℕ) → b < 16 → (bit_and b 0x08 == 0) ≡ ltb b 8
control_bit b h =
    same_test_sound (bit_and b 0x08 == 0) (ltb b 8)
      (all_below_sound 16 (λ b. same_test (bit_and b 0x08 == 0) (ltb b 8)) b control_bit_table h)

xor_table : all_below 256 (λ x. all_below 256 (λ k. bit_xor (bit_xor x k) k == x)) ≡ true
unfolding all_below
xor_table = refl

-- Masking a byte twice by the same key gives it back.
pub xor_twice : (x k : ℕ) → x < 256 → k < 256 → bit_xor (bit_xor x k) k ≡ x
xor_twice x k h l = (==_iff (bit_xor (bit_xor x k) k) x).0 (
    all_below_sound 256 (λ k. bit_xor (bit_xor x k) k == x) k
      (all_below_sound 256 (λ x. all_below 256 (λ k. bit_xor (bit_xor x k) k == x)) x xor_table h)
      l)
