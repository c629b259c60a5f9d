-- ===== src/Session/Parser/Fields.antt =====
-- What one header does, and what the header loop does with a block of well-formed fields.
use warp_api.Prelude.{
  ℕ, suc, ◌≡◌, ◌≢◌, ◌⊎◌, inl, inr, refl, ap, sym, ◌∙◌, Bool, true, false, some, List, [], ◌∷◌, ◌++◌,
  append_assoc, arith, ◌==◌, length, length-append, drop, take-append, drop-append, get_elem?,
  codes, All,
}
use warp_api.Headers.{crlf}
use warp_api.Request.{add_header}
use warp_api.Utils.StringUtils.{is_crlf}
use warp_api.Utils.StringUtils.Crlf.{index_of, find_crlf_lem}
use warp_api.Session.Parser.{
  HeaderState, Round, next, refuse, overrun, HeaderResult, span_to, crlf_line, process_header,
  process_line, strip_space,
}

-- The parser tells headers apart by the length of their names: two names of one length are
-- processed alike, whatever their letters.
pub process_header-length :
    (max_body : ℕ) (s : HeaderState) (name name' v : List ℕ)
    → length name ≡ length name'
    → process_header max_body s name v ≡ process_header max_body s name' v
unfolding process_header
process_header-length max_body s name name' v e = rw e

-- A header whose name has 7, 17 or 21 letters is stored at an index beyond the array of views.
pub process_header_overrun :
    (max_body : ℕ) (s : HeaderState) (name v : List ℕ)
    → (length name ≡ 7) ⊎ (length name ≡ 17) ⊎ (length name ≡ 21)
    → process_header max_body s name v ≡ Round.overrun
unfolding process_header add_header
process_header_overrun max_body s name v (inl h) = rw (h, process_header)
process_header_overrun max_body s name v (inr (inl h)) = rw (h, process_header)
process_header_overrun max_body s name v (inr (inr h)) = rw (h, process_header)

-- A text without the byte `b`.
abbrev pub Lacks : ℕ → List ℕ → Type 0
Lacks b cs = All (λ c. c ≢ b) cs

index_of-append :
    (b : ℕ) (cs rest : List ℕ) → Lacks b cs → index_of b (cs ++ b ∷ rest) ≡ some (length cs)
index_of-append b [] rest h = ground arith
index_of-append b (c ∷ cs) rest (h, hs) = ground (arith, index_of-append b cs rest hs)

get_elem?-append :
    (xs : List ℕ) (y z : ℕ) (rest : List ℕ)
    → get_elem? (xs ++ y ∷ z ∷ rest) (suc (length xs)) ≡ some z
get_elem?-append [] y z rest = refl
get_elem?-append (x ∷ xs) y z rest = get_elem?-append xs y z rest

-- A line that is printed with CR LF behind it is read back, whatever follows.
pub crlf_line-print :
    (line rest : List ℕ) → Lacks b'\r' line → crlf_line (line ++ (crlf ++ rest)) ≡ some (line, rest)
unfolding crlf_line
crlf_line-print line rest h = rw (
  find_crlf_lem (line ++ (crlf ++ rest)),
  index_of-append b'\r' line (b'\n' ∷ rest) h,
  get_elem?-append line b'\r' b'\n' rest,
  take-append (length line) line (crlf ++ rest) refl,
  drop_line,
)
  where
    drop_line : drop (suc (suc (length line))) (line ++ (crlf ++ rest)) ≡ rest
    drop_line =
        ap (λ xs. drop (suc (suc (length line))) xs) (sym (append_assoc line crlf rest))
        ∙ drop-append (suc (suc (length line))) (line ++ crlf) rest
            (omega (arith, length-append line crlf))

-- A text ends at the first byte that is a stop.
pub span_to-append :
    (stop : ℕ → Bool) (front : List ℕ) (c : ℕ) (back : List ℕ)
    → All (λ b. stop b ≡ false) front
    → stop c ≡ true
    → span_to stop (front ++ c ∷ back) ≡ (front, c ∷ back)
unfolding span_to
span_to-append stop [] c back h e = rw e
span_to-append stop (b ∷ front) c back (hb, h) e = rw (hb, span_to-append stop front c back h e)

span_to-none :
    (stop : ℕ → Bool) (front : List ℕ)
    → All (λ b. stop b ≡ false) front
    → span_to stop front ≡ (front, [])
unfolding span_to
span_to-none stop [] h = refl
span_to-none stop (b ∷ front) (hb, h) = rw (hb, span_to-none stop front h)

-- A field of a request as a client writes it: `name: value` and CR LF.
abbrev pub print_field : List ℕ × List ℕ → List ℕ
print_field (name, v) = name ++ (codes ": " ++ (v ++ crlf))

abbrev pub print_fields : List (List ℕ × List ℕ) → List ℕ
print_fields [] = []
print_fields (f ∷ fs) = print_field f ++ print_fields fs

abbrev pub IsField : List ℕ × List ℕ → Type 0
IsField (name, v) = Lacks b':' name × Lacks b'\r' name × Lacks b'\r' v

-- What the loop does with the fields, one after the other.
abbrev pub apply_fields : ℕ → HeaderState → List (List ℕ × List ℕ) → Round
apply_fields max_body s [] = next s
apply_fields max_body s ((name, v) ∷ fs) = elim (process_header max_body s name v) [
  | next s' ↦ apply_fields max_body s' fs
  | refuse s' ↦ Round.refuse s'
  | overrun ↦ Round.overrun
]

-- The loop after a round.
abbrev pub go_on : Round → (HeaderState → HeaderResult) → HeaderResult
go_on (next s) k = k s
go_on (refuse s) k = HeaderResult.refuse s
go_on overrun k = HeaderResult.overrun

pub process_line-print :
    (max_body : ℕ) (s : HeaderState) (name v : List ℕ)
    → Lacks b':' name
    → process_line max_body s (name ++ (codes ": " ++ v)) ≡ process_header max_body s name v
unfolding process_line strip_space
process_line-print max_body s name v h =
    rw (span_to-append (λ c. c == b':') name b':' (b' ' ∷ v) (All-map name h) refl)
  where
    All-map : (cs : List ℕ) → Lacks b':' cs → All (λ c. (c == b':') ≡ false) cs
    All-map [] k = tt
    All-map (c ∷ cs) (k, ks) = (ground arith, All-map cs ks)

pub field_no_crlf :
    (name v rest : List ℕ) → IsField (name, v) → is_crlf (print_field (name, v) ++ rest) ≡ false
unfolding is_crlf
field_no_crlf [] v rest h = refl
field_no_crlf (a ∷ []) v rest h = ground arith
field_no_crlf (a ∷ b ∷ name) v rest h = ground arith
