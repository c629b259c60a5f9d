-- ===== src/Utils/StringUtils/Crlf.antt =====
-- `find_crlf` of src/Utils/StringUtils.cpp against the plain search for the first `\r`.
use warp_api.Prelude.{
  ℕ, zero, suc, ◌+◌, ◌≤◌, ◌<◌, ◌≡◌, refl, Bool, true, false, Option, none, some, List, [], ◌∷◌,
  arith, ltb, ◌==◌, if◌then◌else◌, length, take, drop, length-take, length-drop, Option-cases,
  Bool-cases, inl, inr, ltb-false_le, ap,
}
use mathlib.Core.Option
use warp_api.Utils.StringUtils.{cr_mask, ctz, scan_cr, scan_chunks, find_crlf}

-- The offset of the first byte that is `\r`.
abbrev pub index_of : ℕ → List ℕ → Option ℕ
index_of b [] = none
index_of b (c ∷ cs) = if c == b then some 0 else Option.map suc (index_of b cs)

scan_cr-index_of : (cs : List ℕ) → scan_cr cs ≡ index_of b'\r' cs
unfolding scan_cr
scan_cr-index_of [] = refl
scan_cr-index_of (c ∷ cs) = ground (arith, scan_cr-index_of cs)

-- The lowest set bit of the mask is the first `\r` of the chunk.
ctz-cr_mask :
    (fuel : ℕ) (cs : List ℕ)
    → length cs ≤ fuel
    → (if cr_mask cs == 0 then none else some (ctz fuel (cr_mask cs))) ≡ index_of b'\r' cs
unfolding cr_mask ctz
ctz-cr_mask zero [] h = refl
ctz-cr_mask zero (c ∷ cs) h = absurd (omega arith)
ctz-cr_mask (suc fuel) [] h = refl
ctz-cr_mask (suc fuel) (c ∷ cs) h = ground (arith, ctz-cr_mask fuel cs)

-- The first hit in the first `n` bytes, or else the first hit behind them.
abbrev or_behind : ℕ → Option ℕ → Option ℕ → Option ℕ
or_behind n (some i) o = some i
or_behind n none o = Option.map (λ i. n + i) o

index_of-split :
    (b n : ℕ) (cs : List ℕ)
    → index_of b cs ≡ or_behind n (index_of b (take n cs)) (index_of b (drop n cs))
index_of-split b zero [] = refl
index_of-split b (suc n) [] = refl
index_of-split b zero (c ∷ cs) = elim (Option-cases (index_of b (c ∷ cs))) [
  | inl e ↦ rw e
  | inr (i, e) ↦ rw e (ap some (omega arith))
]
index_of-split b (suc n) (c ∷ cs) = elim (Bool-cases (c == b)) [
  | inl e ↦ rw e
  | inr e ↦ rw (e, index_of-split b n cs) (step (index_of b (take n cs)) (index_of b (drop n cs)))
]
  where
    step :
        (o p : Option ℕ) → Option.map suc (or_behind n o p) ≡ or_behind (suc n) (Option.map suc o) p
    step (some i) p = refl
    step none (some i) = ap some (omega arith)
    step none none = refl

choose :
    (b : Bool) (i : ℕ) (o : Option ℕ)
    → (if b then Option.map (λ i. 16 + i) o else some i)
      ≡ or_behind 16 (if b then none else some i) o
choose true i o = refl
choose false i o = refl

scan_chunks-index_of :
    (fuel : ℕ) (cs : List ℕ) → length cs < fuel → scan_chunks fuel cs ≡ index_of b'\r' cs
unfolding scan_chunks
scan_chunks-index_of zero cs h = absurd (omega arith)
scan_chunks-index_of (suc fuel) cs h = elim (Bool-cases (ltb (length cs) 16)) [
  | inl short ↦ rw short (scan_cr-index_of cs)
  | inr long ↦
      let ih =
        scan_chunks-index_of fuel (drop 16 cs)
          (omega (arith, length-drop 16 cs, ltb-false_le (length cs) 16 long)) in
      rw
        (
          long,
          index_of-split b'\r' 16 cs,
          ← ctz-cr_mask 16 (take 16 cs) (omega (arith, length-take 16 cs)),
          ih,
        )
        (choose (cr_mask (take 16 cs) == 0) _ (index_of b'\r' (drop 16 cs)))
]

-- On every input the vectorised search returns the offset of the first `\r`, or none if there is
-- none, whatever the length of the input.
pub find_crlf_lem : (cs : List ℕ) → find_crlf cs ≡ index_of b'\r' cs
unfolding find_crlf
find_crlf_lem cs = scan_chunks-index_of (suc (length cs)) cs (omega arith)
