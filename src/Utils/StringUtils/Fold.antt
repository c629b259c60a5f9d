-- ===== src/Utils/StringUtils/Fold.antt =====
-- `iequals_small` of src/Utils/StringUtils.cpp compares bytes with bit 5 set. On the constants that
-- the server compares with (letters and dashes) that is the ASCII case-insensitive comparison.
use warp_api.Prelude.{
  ℕ, ◌+◌, ◌≤◌, bit_or, ◌≡◌, ◌≢◌, ◌↔◌, ◌⊎◌, refl, ap, true, false, ◌&&◌, ◌||◌, List, [], ◌∷◌, map,
  arith, ltb, leb, ◌==◌, ==_iff, if◌then◌else◌, length, length-map, Bool-cases, inl, inr, All,
  IsByte, all_below, all_below_sound,
}
use warp_api.Utils.StringUtils.{same_folded, iequals_small}
use warp_api.Utils.Conversions.{to_lower}

-- What setting bit 5 does to a byte.
abbrev set_bit5 : ℕ → ℕ
set_bit5 c =
    if leb 32 c && ltb c 64 || leb 96 c && ltb c 128 || leb 160 c && ltb c 192 || leb 224 c
    then c
    else c + 32

set_bit5_table : all_below 256 (λ c. bit_or c 32 == set_bit5 c) ≡ true
unfolding all_below
set_bit5_table = refl

bit_or-set_bit5 : (c : ℕ) → IsByte c → bit_or c 32 ≡ set_bit5 c
bit_or-set_bit5 c h = (==_iff _ _).0 (all_below_sound 256 _ c set_bit5_table h)

-- A letter or a dash.
abbrev pub IsToken : ℕ → Type 0
IsToken c = ((b'a' ≤ c) × (c ≤ b'z')) ⊎ ((b'A' ≤ c) × (c ≤ b'Z')) ⊎ (c ≡ b'-')

-- A byte of a header's value: the parser ends the value at the first `\r`.
abbrev pub IsValueByte : ℕ → Type 0
IsValueByte c = IsByte c × (c ≢ b'\r')

fold_byte :
    (c d : ℕ) → IsValueByte c → IsToken d → (bit_or c 32 ≡ bit_or d 32) ↔ (to_lower c ≡ to_lower d)
unfolding to_lower
fold_byte c d h k = ground (arith, bit_or-set_bit5 c h.0, bit_or-set_bit5 d (omega arith))

same_folded_iff :
    (a b : List ℕ)
    → All IsValueByte a
    → All IsToken b
    → length a ≡ length b
    → (same_folded a b ≡ true) ↔ (map to_lower a ≡ map to_lower b)
unfolding same_folded
same_folded_iff [] [] h k e = (λ _. refl, λ _. refl)
same_folded_iff [] (d ∷ b) h k e = absurd (omega arith)
same_folded_iff (c ∷ a) [] h k e = absurd (omega arith)
same_folded_iff (c ∷ a) (d ∷ b) (hc, h) (kd, k) e =
    let ih = same_folded_iff a b h k (omega arith) in
    let one = fold_byte c d hc kd in
    (λ s. ground (arith, ih.0, one.0), λ s. ground (arith, ih.1, one.1))

-- A header value is accepted as a constant of letters and dashes exactly when the two are equal up
-- to the case of ASCII letters.
pub iequals_small_iff :
    (a b : List ℕ)
    → All IsValueByte a
    → All IsToken b
    → (iequals_small a b ≡ true) ↔ (map to_lower a ≡ map to_lower b)
unfolding iequals_small
iequals_small_iff a b h k = elim (Bool-cases (length a == length b)) [
  | inl e ↦ rw e (same_folded_iff a b h k ((==_iff _ _).0 e))
  | inr e ↦ rw e (λ s. cc, λ s. absurd (different s e))
]
  where
    different : map to_lower a ≡ map to_lower b → ¬ ((length a == length b) ≡ false)
    different s e = ground (arith, ap length s, length-map a to_lower, length-map b to_lower)
