-- ===== src/Session/Serve/Ends.antt =====
-- The loop over the requests in the read buffer ends.
use warp_api.Prelude.{
  ◌∙◌, ℕ, zero, suc, ◌+◌, ◌^◌, ◌≤◌, ◌<◌, ◌≡◌, ◌⊎◌, refl, ap, some, inl, inr, List, length,
  length-append, drop, length-drop, arith, Option-cases, IsSuffix, IsSuffix-trans, IsSuffix-drop,
  [],
}
use warp_api.Ring.{RingBuffer}
use warp_api.Session.Parser.{ParserState, Outcome, incomplete, complete, parse_request}
use warp_api.Session.Parser.Bounds.{HasPlainHeaders, Spec, parse_request-Spec}
use warp_api.Session.Handler.{Session, Endpoints, handle_request}
use warp_api.Session.Handler.Upgrade.{handle_request-SameProtocol}
use warp_api.Session.Serve.{
  Run, done, fault, stuck, Connection, parser_of, with_parser, serve_loop, serve,
}

pub Outcome-cases :
    (r : Outcome)
    → ((p : ParserState) × (r ≡ incomplete p))
      ⊎ ((n : ℕ) × (p : ParserState) × (r ≡ complete n p))
      ⊎ (r ≡ Outcome.overrun)
      ⊎ (r ≡ Outcome.stuck)
Outcome-cases (incomplete p) = inl (p, refl)
Outcome-cases (complete n p) = inr (inl (n, p, refl))
Outcome-cases Outcome.overrun = inr (inr (inl refl))
Outcome-cases Outcome.stuck = inr (inr (inr refl))

module _ (rb : RingBuffer) (sha1 : List ℕ → List ℕ) where
  open rb use {Buf, contents, read_region, read_region_prefix, advance_read, advance_read_contents}

  -- How the loop leaves a connection.
  pub record Served (c c' : Connection rb sha1) : Type 0 where
    pub plain : HasPlainHeaders (parser_of rb sha1 c'.session)
    pub mode_kept : c'.session.mode ≡ c.session.mode
    pub ws_state_kept : c'.session.ws_state ≡ c.session.ws_state
    pub rest : IsSuffix (contents c'.input) (contents c.input)

  -- The loop ends, with such a connection or with a write outside an array.
  pub data Ends (c : Connection rb sha1) : Run (Connection rb sha1) → Type 0 where
    served : {c' : Connection rb sha1} → Served c c' → Ends c (done c')
    faulted : Ends c fault

  Served-trans : (a b c : Connection rb sha1) → Served a b → Served b c → Served a c
  Served-trans a b c h k = record {
    plain = k.plain;
    mode_kept = k.mode_kept ∙ h.mode_kept;
    ws_state_kept = k.ws_state_kept ∙ h.ws_state_kept;
    rest = IsSuffix-trans (contents a.input) (contents b.input) (contents c.input) k.rest h.rest;
  }

  Ends-trans :
      (a b : Connection rb sha1) (r : Run (Connection rb sha1)) → Served a b → Ends b r → Ends a r
  Ends-trans a b (done c) h (served k) = served (Served-trans a b c h k)
  Ends-trans a b fault h faulted = faulted
  Ends-trans a b stuck h k = elim k [ ]

  module _ (max_body : ℕ) (ends : Endpoints rb sha1) where
    -- One request that was parsed and answered.
    step-Served :
        (c : Connection rb sha1) (n : ℕ) (p : ParserState) (s : Session rb sha1)
        → Spec max_body (read_region c.input) (parser_of rb sha1 c.session) (complete n p)
        → handle_request rb sha1 ends (with_parser rb sha1 c.session p) ≡ some s
        → Served c (record { session = s; input = advance_read c.input n })
          × (length (contents (advance_read c.input n)) < length (contents c.input))
    step-Served c n p s (plain, two, fits, body) e =
        let same = handle_request-SameProtocol rb sha1 ends (with_parser rb sha1 c.session p) s e in
        let (rest, split) = read_region_prefix c.input in
        let inside : n ≤ length (contents c.input) =
          omega (arith, ap length split, length-append (read_region c.input) rest) in
        let left : contents (advance_read c.input n) ≡ drop n (contents c.input) =
          advance_read_contents c.input n inside in
        (
          record {
            plain = rw (same.req_kept) plain;
            mode_kept = same.mode_kept;
            ws_state_kept = same.ws_state_kept;
            rest = rw left (IsSuffix-drop n (contents c.input));
          },
          omega (arith, ap length left, length-drop n (contents c.input)),
        )

    serve_loop-Ends :
        (fuel : ℕ) (c : Connection rb sha1)
        → HasPlainHeaders (parser_of rb sha1 c.session)
        → max_body + length (contents c.input) < 2 ^ 64
        → length (contents c.input) < fuel
        → Ends c (serve_loop rb sha1 fuel max_body ends c)
    unfolding serve_loop
    serve_loop-Ends zero c h room lt = absurd (omega arith)
    serve_loop-Ends (suc fuel) c h room lt = elim (Outcome-cases parsed) [
      | inl (p, e) ↦
          rw (e, serve_loop)
            (served (record {
              plain = rw e at spec;
              mode_kept = refl;
              ws_state_kept = refl;
              rest = ([], refl);
            }))
      | inr (inl (n, p, e)) ↦
          elim (Option-cases (handle_request rb sha1 ends (with_parser rb sha1 c.session p))) [
            | inl bad ↦ rw (e, bad, serve_loop) faulted
            | inr (s, ran) ↦
                let (step, shorter) = step-Served c n p s (rw e at spec) ran in
                rw (e, ran, serve_loop)
                  (Ends-trans c (record { session = s; input = advance_read c.input n })
                    (serve_loop rb sha1 fuel max_body ends
                      (record { session = s; input = advance_read c.input n }))
                    step
                    (serve_loop-Ends fuel (record { session = s; input = advance_read c.input n })
                      step.plain (omega arith) (omega arith)))
          ]
      | inr (inr (inl e)) ↦ rw (e, serve_loop) faulted
      | inr (inr (inr e)) ↦ absurd (rw e at spec)
    ]
      where
        parsed : Outcome
        parsed = parse_request max_body (read_region c.input) (parser_of rb sha1 c.session)

        spec : Spec max_body (read_region c.input) (parser_of rb sha1 c.session) parsed
        spec =
            let (rest, split) = read_region_prefix c.input in
            parse_request-Spec max_body (read_region c.input) (parser_of rb sha1 c.session)
              (omega (arith, ap length split, length-append (read_region c.input) rest)) h

    -- Serving the requests in the read buffer ends on every input, whatever the endpoints do: with
    -- an access outside an array, or with a connection in the same mode that keeps an end of the
    -- bytes. The present headers have to be those that the parser can leave, and are so again.
    pub serve-Ends :
        (c : Connection rb sha1)
        → HasPlainHeaders (parser_of rb sha1 c.session)
        → max_body + length (contents c.input) < 2 ^ 64
        → Ends c (serve rb sha1 max_body ends c)
    unfolding serve
    serve-Ends c h room = serve_loop-Ends (suc (length (contents c.input))) c h room (omega arith)
