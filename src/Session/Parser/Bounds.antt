-- ===== src/Session/Parser/Bounds.antt =====
-- What `parseRequest` guarantees on every input: it ends, it takes no more than it was given, and it
-- bounds the body and the set of present headers.
use warp_api.Prelude.{
  ℕ, ◌+◌, ◌-◌, ◌^◌, ◌≤◌, ◌<◌, ◌≡◌, ◌≢◌, ◌⊎◌, inl, inr, refl, ap, sym, ◌∙◌, true, false, ◌&&◌, some,
  List, [], ◌∷◌, arith, ◌==◌, ltb, length, take, drop, Bool-cases, Option-cases, IsSuffix,
  IsSuffix-trans, IsSuffix-drop_eq, IsSuffix-length, subst, ltb-false_le, all_below,
  all_below_sound, bit_or,
}
use warp_api.Headers.{HeaderType, key_value, add_key}
use warp_api.Request.{HttpRequest, add_header}
use warp_api.Session.Parser.{
  ParserState, RequestLine, HeaderState, Round, next, refuse, overrun, HeaderResult, done, stuck,
  Outcome, incomplete, complete, span_to, field_of_line, process_header, process_line, store_header,
  store_after, special_header, key_of_length, parse_headers, parse_request_line, start_request,
  crlf_line, finish, after_headers, after_line, parse_lines, parse_request, request_size,
  min_request_size, strip_space,
}
use warp_api.Session.Parser.Loop.{Kept, Ends, parse_headers-Ends, crlf_line-suffix}

-- The keys that the parser stores without an overrun have the values 0, 4 and 8.
abbrev pub HasPlainHeaders : ParserState → Type 0
HasPlainHeaders s = s.req.present_headers < 16

abbrev IsBounded : ℕ → List ℕ → HeaderState → Type 0
IsBounded max_body body s =
    HasPlainHeaders s.parser × (s.length_value ≤ max_body) × (s.parser.req.body ≡ body)

flags_table : all_below 16 (λ f. ltb (bit_or f 4) 16 && ltb (bit_or f 8) 16) ≡ true
unfolding all_below
flags_table = refl

plain_flags : (f : ℕ) → f < 16 → (bit_or f 4 < 16) × (bit_or f 8 < 16)
plain_flags f h = let e = all_below_sound 16 _ f flags_table h in ground arith

add_header_flags :
    (r r' : HttpRequest) (key : HeaderType) (v : List ℕ)
    → add_header r key v ≡ some r'
    → (r'.present_headers ≡ r.present_headers) × (key_value key < 14)
unfolding add_header
add_header_flags r r' key v e = ground arith

special_next :
    (max_body klen : ℕ) (body : List ℕ) (s s' : HeaderState) (v : List ℕ)
    → IsBounded max_body body s
    → special_header max_body s klen v ≡ next s'
    → IsBounded max_body body s'
unfolding special_header
special_next max_body klen body s s' v h e = ground arith

special_refuse :
    (max_body klen : ℕ) (body : List ℕ) (s s' : HeaderState) (v : List ℕ)
    → IsBounded max_body body s
    → special_header max_body s klen v ≡ Round.refuse s'
    → HasPlainHeaders s'.parser
unfolding special_header
special_refuse max_body klen body s s' v h e = ground arith

store_next :
    (max_body klen : ℕ) (body : List ℕ) (s s' : HeaderState) (v : List ℕ)
    → IsBounded max_body body s
    → store_header s (key_of_length klen) v ≡ next s'
    → IsBounded max_body body s'
unfolding store_header key_of_length add_key add_header
store_next max_body klen body s s' v h e = ground (arith, plain_flags s.parser.req.present_headers)

store_ne_refuse :
    (s s' : HeaderState) (key : HeaderType) (v : List ℕ) → store_header s key v ≢ Round.refuse s'
unfolding store_header
store_ne_refuse s s' key v = elim (Option-cases (add_header s.parser.req key v)) [
  | inl e ↦ rw (e, store_header) (λ h. cc)
  | inr (r, e) ↦ rw (e, store_header) (λ h. cc)
]

after_next :
    (max_body klen : ℕ) (body : List ℕ) (r : Round) (s' : HeaderState) (v : List ℕ)
    → ((t : HeaderState) → r ≡ next t → IsBounded max_body body t)
    → store_after r (key_of_length klen) v ≡ next s'
    → IsBounded max_body body s'
unfolding store_after
after_next max_body klen body (next t) s' v h e = store_next max_body klen body t s' v (h t refl) e
after_next max_body klen body (refuse t) s' v h e = cc
after_next max_body klen body overrun s' v h e = cc

after_refuse :
    (r : Round) (s' : HeaderState) (key : HeaderType) (v : List ℕ)
    → store_after r key v ≡ Round.refuse s'
    → r ≡ Round.refuse s'
unfolding store_after
after_refuse (next t) s' key v e = absurd (store_ne_refuse t s' key v e)
after_refuse (refuse t) s' key v e = e
after_refuse overrun s' key v e = cc

next_inj : {s s' : HeaderState} → next s ≡ next s' → s ≡ s'
next_inj e = cc

-- The rounds keep the bounds.
header_rounds :
    (max_body : ℕ) (body : List ℕ)
    → Kept max_body (IsBounded max_body body) (λ s. HasPlainHeaders s.parser)
unfolding process_line process_header
header_rounds max_body body = record {
  kept = λ s s' line h e.
      line_next s s' (span_to (λ c. c == b':') line).0 (span_to (λ c. c == b':') line).1 h e;
  refused = λ s s' line h e.
      line_refuse s s' (span_to (λ c. c == b':') line).0 (span_to (λ c. c == b':') line).1 h e;
  weaker = λ s h. h.0;
}
  where
    line_next :
        (s s' : HeaderState) (name back : List ℕ)
        → IsBounded max_body body s
        → field_of_line max_body s name back ≡ next s'
        → IsBounded max_body body s'
    line_next s s' name [] h e = subst (IsBounded max_body body) (next_inj e) h
    line_next s s' name (c ∷ v) h e =
        after_next max_body (length name) body
          (special_header max_body s (length name) (strip_space v)) s' (strip_space v)
          (λ t p. special_next max_body (length name) body s t (strip_space v) h p) e

    line_refuse :
        (s s' : HeaderState) (name back : List ℕ)
        → IsBounded max_body body s
        → field_of_line max_body s name back ≡ Round.refuse s'
        → HasPlainHeaders s'.parser
    line_refuse s s' name [] h e = cc
    line_refuse s s' name (c ∷ v) h e =
        special_refuse max_body (length name) body s s' (strip_space v) h (
          after_refuse (special_header max_body s (length name) (strip_space v)) s'
            (key_of_length (length name)) (strip_space v) e)

-- How a call of the parser relates to the bytes and the members that it was given.
abbrev pub Spec : ℕ → List ℕ → ParserState → Outcome → Type 0
Spec max_body bytes s (incomplete s') = HasPlainHeaders s'
Spec max_body bytes s (complete n s') =
    HasPlainHeaders s'
    × (2 ≤ n)
    × (n ≤ length bytes)
    × ((s'.req.body ≡ s.req.body)
        ⊎ ((k : ℕ) × (k ≤ max_body) × (k ≤ n) × (s'.req.body ≡ take k (drop (n - k) bytes))))
Spec max_body bytes s overrun = Unit
Spec max_body bytes s stuck = ⊥

-- The body part, behind headers that ended at `p`.
finish-Spec :
    (max_body : ℕ) (bytes p : List ℕ) (start : ParserState) (s : HeaderState)
    → max_body + length bytes < 2 ^ 64
    → IsBounded max_body start.req.body s
    → IsSuffix p bytes
    → length p + 2 ≤ length bytes
    → Spec max_body bytes start (finish (length bytes) (length bytes - length p) s p)
unfolding finish
finish-Spec max_body bytes p start s w h suf short =
    elim (Bool-cases (s.has_length && ltb 0 s.length_value)) [
      | inr no_body ↦ rw (no_body, finish) (h.0, omega arith, omega arith, inl h.2)
      | inl has ↦ elim (Bool-cases (ltb (length bytes) size)) [
        | inl short_body ↦ rw (has, short_body, finish) h.0
        | inr fits ↦
            rw (has, fits, finish)
              (
                h.0,
                omega (arith, size_sum),
                whole fits,
                inr (s.length_value, h.1, omega (arith, size_sum), slice),
              )
      ]
    ]
  where
    size : ℕ
    size = request_size (length bytes - length p) s.length_value

    size_sum : size + length p ≡ length bytes + s.length_value
    size_sum = omega (arith, h.1)

    whole : ltb (length bytes) size ≡ false → size ≤ length bytes
    whole e = ltb-false_le (length bytes) size e

    slice : take s.length_value p ≡ take s.length_value (drop (size - s.length_value) bytes)
    slice = ap (take s.length_value) (
        sym (
          ap (λ k. drop k bytes) {x = size - s.length_value} {y = length bytes - length p}
            (omega (arith, size_sum))
          ∙ IsSuffix-drop_eq bytes p suf))

headers-Spec :
    (max_body : ℕ) (bytes p : List ℕ) (start : ParserState) (r : HeaderResult)
    → max_body + length bytes < 2 ^ 64
    → IsSuffix p bytes
    → length p + 2 ≤ length bytes
    → Ends (IsBounded max_body start.req.body) (λ s. HasPlainHeaders s.parser) p r
    → Spec max_body bytes start (after_headers (length bytes) r)
unfolding after_headers
headers-Spec max_body bytes p start (done q s) w suf short (h, q_suf) =
    finish-Spec max_body bytes q start s w h (IsSuffix-trans bytes p q q_suf suf)
      (omega (arith, IsSuffix-length p q q_suf))
headers-Spec max_body bytes p start (refuse s) w suf short h = h
headers-Spec max_body bytes p start overrun w suf short h = tt
headers-Spec max_body bytes p start stuck w suf short h = h

line-Spec :
    (max_body : ℕ) (bytes p : List ℕ) (s : ParserState) (l : RequestLine)
    → max_body + length bytes < 2 ^ 64
    → HasPlainHeaders s
    → IsSuffix p bytes
    → length p + 2 ≤ length bytes
    → Spec max_body bytes s (after_line max_body (length bytes) (start_request s l) p)
unfolding after_line start_request
line-Spec max_body bytes p s l w h suf short =
    let begin : HeaderState = record {
      parser = start_request s l;
      length_value = 0;
      has_length = false;
    } in
    headers-Spec max_body bytes p s (parse_headers (length p) max_body begin p) w suf short (
      parse_headers-Ends max_body (IsBounded max_body s.req.body) (λ s. HasPlainHeaders s.parser)
        (header_rounds max_body s.req.body) (length p) begin p (omega arith) (h, omega arith, refl))

-- On every input `parseRequest` ends. If it answers true, it takes at least 2 bytes and no more than
-- the read region holds, and the body either is the one from before the call or is a slice of the
-- region that ends with the bytes taken and has at most `max_body_size` bytes. Whether it answers
-- true or false, of the keys at most those of the values 1 to 8 are marked present, if that held
-- before. The settings and the region are small enough for their sum to fit a `size_t`.
pub parse_request-Spec :
    (max_body : ℕ) (bytes : List ℕ) (s : ParserState)
    → max_body + length bytes < 2 ^ 64
    → HasPlainHeaders s
    → Spec max_body bytes s (parse_request max_body bytes s)
unfolding parse_request
parse_request-Spec max_body bytes s w h = elim (Bool-cases (ltb (length bytes) min_request_size)) [
  | inl few ↦ rw (few, parse_request) h
  | inr many ↦ elim (Option-cases (crlf_line bytes)) [
    | inl unended ↦ rw (many, unended, parse_request, parse_lines) h
    | inr ((line, p), split) ↦
        let (short, suf) = crlf_line-suffix bytes split in
        elim (Option-cases (parse_request_line line)) [
          | inl bad ↦ rw (many, split, bad, parse_request, parse_lines) h
          | inr (l, good) ↦
              rw (many, split, good, parse_request, parse_lines)
                (line-Spec max_body bytes p s l w h suf short)
        ]
  ]
]
