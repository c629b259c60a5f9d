-- ===== src/Utils/Conversions/Laws.antt =====
-- What `urlDecode` makes of the output of `urlEncode`.
use warp_api.Prelude.{
  ℕ, ◌/◌, ◌<◌, bit_and, ◌≡◌, inl, inr, refl, ap, true, false, List, [], ◌∷◌, map, arith, ltb, ◌==◌,
  ==_iff, if◌then◌else◌, ltb→lt, ◌∙◌, All, IsByte, all_below, all_below_sound, Bool-cases,
}
use warp_api.Utils.Conversions.{is_unreserved, hex, url_encode, hexval, plain, decoded, url_decode}

-- A character other than `%` is decoded alone.
url_decode-plain :
    (c : ℕ) (cs : List ℕ) → (c == b'%') ≡ false → url_decode (c ∷ cs) ≡ plain c ∷ url_decode cs
unfolding url_decode
url_decode-plain c [] h = rw h
url_decode-plain c (a ∷ []) h = rw h
url_decode-plain c (a ∷ b ∷ cs) h = rw h

unreserved_plain : (c : ℕ) → is_unreserved c ≡ true → ((c == b'%') ≡ false) × (plain c ≡ c)
unfolding is_unreserved plain
unreserved_plain c h = ground arith

-- The digits that `urlEncode` writes have the value 0 in the table of `urlDecode`.
hexval-hex_table : all_below 16 (λ d. hexval (hex d) == 0) ≡ true
unfolding all_below hexval hex
hexval-hex_table = refl

hexval-hex : (d : ℕ) → d < 16 → hexval (hex d) ≡ 0
hexval-hex d h = (==_iff _ _).0 (all_below_sound 16 _ d hexval-hex_table h)

low_digit_table : all_below 256 (λ c. ltb (bit_and c 0xf) 16) ≡ true
unfolding all_below
low_digit_table = refl

low_digit : (c : ℕ) → IsByte c → bit_and c 0xf < 16
low_digit c h = ltb→lt _ _ (all_below_sound 256 _ c low_digit_table h)

url_decode-escape :
    (c : ℕ) (cs : List ℕ)
    → IsByte c
    → url_decode (b'%' ∷ hex (c / 16) ∷ hex (bit_and c 0xf) ∷ cs) ≡ 0 ∷ url_decode cs
unfolding url_decode decoded
url_decode-escape c cs h =
    rw (hexval-hex (c / 16) (omega arith), hexval-hex (bit_and c 0xf) (low_digit c h))

-- Decoding an encoded text gives back its unreserved characters, and a zero byte for every other
-- one: the table of `urlDecode` has no entry at the codes of the digits that `urlEncode` writes.
pub url_decode-url_encode :
    (s : List ℕ)
    → All IsByte s
    → url_decode (url_encode s) ≡ map (λ c. if is_unreserved c then c else 0) s
unfolding url_encode
url_decode-url_encode [] h = unfold url_decode in refl
url_decode-url_encode (c ∷ s) (hc, h) = elim (Bool-cases (is_unreserved c)) [
  | inl e ↦
      let (other, same) = unreserved_plain c e in
      rw e (url_decode-plain c (url_encode s) other ∙ rw (same, url_decode-url_encode s h))
  | inr e ↦ rw e (url_decode-escape c (url_encode s) hc ∙ ap (◌∷◌ 0) (url_decode-url_encode s h))
]
