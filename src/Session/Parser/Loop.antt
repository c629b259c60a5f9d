-- ===== src/Session/Parser/Loop.antt =====
-- The header loop of `parseRequest`: it ends, it stays inside the read region, and what its rounds
-- keep holds at its end.
use warp_api.Prelude.{
  ℕ, zero, suc, ◌+◌, ◌≤◌, ◌≡◌, ◌⊎◌, inl, inr, refl, ap, some, some_inj, List, [], ◌∷◌, arith, ◌==◌,
  length, drop, length-drop, get_elem?, lt_of_get_elem?, >>=-eq-some, Bool-cases, Option-cases,
  IsSuffix, IsSuffix-refl, IsSuffix-trans, IsSuffix-drop,
}
use warp_api.Utils.StringUtils.{find_crlf, is_crlf}
use warp_api.Session.Parser.{
  HeaderState, Round, next, refuse, overrun, HeaderResult, done, stuck, crlf_line, process_line,
  parse_headers,
}

-- What `crlf_line` leaves is a suffix, shorter by the CR and the LF at least.
pub crlf_line-suffix :
    (p : List ℕ) {line rest : List ℕ}
    → crlf_line p ≡ some (line, rest)
    → (length rest + 2 ≤ length p) × IsSuffix rest p
unfolding crlf_line
crlf_line-suffix p {line} {rest} h =
    let (i, _, e) = >>=-eq-some (find_crlf p) h in
    let (lf, found, f) = >>=-eq-some (get_elem? p (suc i)) e in
    elim (Bool-cases (lf == b'\n')) [
      | inl here ↦
          let g : drop (suc (suc i)) p ≡ rest =
            ap (λ (o : List ℕ × List ℕ). o.1) (some_inj (rw here at f)) in
          rw (← g) (
            omega (arith, length-drop (suc (suc i)) p, lt_of_get_elem? p (suc i) found),
            IsSuffix-drop (suc (suc i)) p,
          )
      | inr there ↦ cc (rw there at f)
    ]

-- A property of the state that every round keeps, and what holds of the state that a round refuses.
pub record Kept (max_body : ℕ) (P Q : HeaderState → Type 0) : Type 0 where
  pub kept :
      (s s' : HeaderState) (line : List ℕ) → P s → process_line max_body s line ≡ next s' → P s'
  pub refused :
      (s s' : HeaderState) (line : List ℕ)
      → P s
      → process_line max_body s line ≡ Round.refuse s'
      → Q s'
  pub weaker : (s : HeaderState) → P s → Q s

-- The loop's result: fuel did not run out; `P` at its regular end, with a suffix of the bytes; `Q`
-- where it returns false.
abbrev pub Ends : (HeaderState → Type 0) → (HeaderState → Type 0) → List ℕ → HeaderResult → Type 0
Ends P Q p (done rest s) = P s × IsSuffix rest p
Ends P Q p (refuse s) = Q s
Ends P Q p overrun = Unit
Ends P Q p stuck = ⊥

Ends-longer :
    (P Q : HeaderState → Type 0) (p p' : List ℕ) (r : HeaderResult)
    → IsSuffix p p'
    → Ends P Q p r
    → Ends P Q p' r
Ends-longer P Q p p' (done rest s) h (e, f) = (e, IsSuffix-trans p' p rest f h)
Ends-longer P Q p p' (refuse s) h e = e
Ends-longer P Q p p' overrun h e = e
Ends-longer P Q p p' stuck h e = e

Round-cases :
    (r : Round)
    → ((s : HeaderState) × (r ≡ next s))
      ⊎ ((s : HeaderState) × (r ≡ Round.refuse s))
      ⊎ (r ≡ Round.overrun)
Round-cases (next s) = inl (s, refl)
Round-cases (refuse s) = inr (inl (s, refl))
Round-cases overrun = inr (inr refl)

module _ (max_body : ℕ) (P Q : HeaderState → Type 0) (k : Kept max_body P Q) where
  -- With as much fuel as there are bytes, what the rounds keep holds at the loop's end.
  pub parse_headers-Ends :
      (fuel : ℕ) (s : HeaderState) (p : List ℕ)
      → length p ≤ fuel
      → P s
      → Ends P Q p (parse_headers fuel max_body s p)
  unfolding parse_headers
  parse_headers-Ends fuel s [] h ps = (ps, IsSuffix-refl [])
  parse_headers-Ends zero s (c ∷ cs) h ps = absurd (omega arith)
  parse_headers-Ends (suc fuel) s (c ∷ cs) h ps = elim (Bool-cases (is_crlf (c ∷ cs))) [
    | inl blank ↦ rw (blank, parse_headers) (ps, IsSuffix-drop 2 (c ∷ cs))
    | inr field ↦ elim (Option-cases (crlf_line (c ∷ cs))) [
      | inl unended ↦ rw (field, unended, parse_headers) (k.weaker s ps)
      | inr ((line, rest), split) ↦
          let (short, suffix) = crlf_line-suffix (c ∷ cs) split in
          elim (Round-cases (process_line max_body s line)) [
            | inl (s', e) ↦
                rw (field, split, e, parse_headers)
                  (Ends-longer P Q rest (c ∷ cs) (parse_headers fuel max_body s' rest) suffix
                    (parse_headers-Ends fuel s' rest (omega arith) (k.kept s s' line ps e)))
            | inr (inl (s', e)) ↦ rw (field, split, e, parse_headers) (k.refused s s' line ps e)
            | inr (inr e) ↦ rw (field, split, e, parse_headers) tt
          ]
    ]
  ]

-- Fuel beyond the number of bytes changes nothing.
pub parse_headers_fuel :
    (max_body f g : ℕ) (s : HeaderState) (p : List ℕ)
    → length p ≤ f
    → length p ≤ g
    → parse_headers f max_body s p ≡ parse_headers g max_body s p
unfolding parse_headers
parse_headers_fuel max_body f g s [] hf hg = refl
parse_headers_fuel max_body zero g s (c ∷ cs) hf hg = absurd (omega arith)
parse_headers_fuel max_body (suc f) zero s (c ∷ cs) hf hg = absurd (omega arith)
parse_headers_fuel max_body (suc f) (suc g) s (c ∷ cs) hf hg =
    elim (Bool-cases (is_crlf (c ∷ cs))) [
      | inl blank ↦ rw (blank, parse_headers)
      | inr field ↦ elim (Option-cases (crlf_line (c ∷ cs))) [
        | inl unended ↦ rw (field, unended, parse_headers)
        | inr ((line, rest), split) ↦
            let (short, suffix) = crlf_line-suffix (c ∷ cs) split in
            elim (Round-cases (process_line max_body s line)) [
              | inl (s', e) ↦
                  rw (field, split, e, parse_headers)
                    (parse_headers_fuel max_body f g s' rest (omega arith) (omega arith))
              | inr (inl (s', e)) ↦ rw (field, split, e, parse_headers)
              | inr (inr e) ↦ rw (field, split, e, parse_headers)
            ]
      ]
    ]
