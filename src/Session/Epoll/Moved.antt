-- ===== src/Session/Epoll/Moved.antt =====
-- What a round of `onWriteReady` does to the bytes that are left and to those that were sent.
use warp_api.Prelude.{
  ℕ, zero, suc, ◌≤◌, ◌<◌, ◌≡◌, refl, ap, sym, ◌∙◌, List, [], ◌∷◌, ◌++◌, length, take, drop,
  take-append-drop, arith, inl, inr, ◌⊎◌,
}
use warp_api.Ring.{RingBuffer}
use warp_api.Session.Parser.Bounds.{HasPlainHeaders}
use warp_api.Session.Serve.{parser_of}
use warp_api.Session.Handler.{ProtocolMode, http, web_socket}
use warp_api.Request.{reset}
use warp_api.Session.Epoll.{
  SendAnswer, accepts, would_block, broken, send_to, Socket, Sent, took, blocked, refused, Wire,
  out_of, close, reset_request,
}

take_front : (n : ℕ) (xs ys : List ℕ) → n ≤ length xs → take n (xs ++ ys) ≡ take n xs
take_front zero xs ys h = refl
take_front (suc n) [] ys h = absurd (omega arith)
take_front (suc n) (x ∷ xs) ys h = ap (◌∷◌ x) (take_front n xs ys (omega arith))

-- The first bytes of a region, in front of what is left of the whole, are the whole.
pub rejoin :
    (n : ℕ) (bytes rest whole : List ℕ)
    → n ≤ length bytes
    → whole ≡ bytes ++ rest
    → take n bytes ++ drop n whole ≡ whole
rejoin n bytes rest whole fits split =
    ap (λ t. t ++ drop n whole) (sym (take_front n bytes rest fits) ∙ ap (take n) (sym split))
    ∙ take-append-drop n whole

-- What an answer of `send` says of the socket and the bytes.
abbrev pub SentFits : Socket → List ℕ → Sent → Type 0
SentFits k bytes (took n k') =
    (0 < n) × (n ≤ length bytes) × (k'.sent ≡ k.sent ++ take n bytes) × (k'.arriving ≡ k.arriving)
SentFits k bytes (blocked k') = (k'.sent ≡ k.sent) × (k'.arriving ≡ k.arriving)
SentFits k bytes refused = Unit

pub send_to-SentFits :
    (k : Socket) (answers : List SendAnswer) (c : ℕ) (cs : List ℕ)
    → SentFits k (c ∷ cs) (send_to k answers (c ∷ cs))
unfolding send_to
send_to-SentFits k [] c cs = (refl, refl)
send_to-SentFits k (accepts n ∷ more) c cs = (ground arith, ground arith, refl, refl)
send_to-SentFits k (would_block ∷ more) c cs = (refl, refl)
send_to-SentFits k (broken ∷ more) c cs = tt

pub Sent-cases :
    (r : Sent)
    → ((n : ℕ) × (k : Socket) × (r ≡ took n k)) ⊎ ((k : Socket) × (r ≡ blocked k)) ⊎ (r ≡ refused)
Sent-cases (took n k) = inl (n, k, refl)
Sent-cases (blocked k) = inr (inl (k, refl))
Sent-cases refused = inr (inr refl)

module _ (rb : RingBuffer) (sha1 : List ℕ → List ℕ) where
  open rb use {
    Buf, contents, read_region, read_region_prefix, read_region_progress, advance_read,
    advance_read_contents,
  }

  -- What a round may rely on: the bytes sent, in front of those that are left, are the bytes sent
  -- before in front of those that were left then; the input is as it was.
  pub record Moved (w w' : Wire rb sha1) : Type 0 where
    pub conserved :
        w'.socket.sent ++ contents (out_of rb sha1 w')
        ≡ w.socket.sent ++ contents (out_of rb sha1 w)
    pub arriving_kept : w'.socket.arriving ≡ w.socket.arriving
    pub input_kept : w'.conn.input ≡ w.conn.input
    pub mode_kept : w'.conn.session.mode ≡ w.conn.session.mode
    pub keep_alive_kept : w'.conn.session.keep_alive ≡ w.conn.session.keep_alive
    pub plain_kept :
        HasPlainHeaders (parser_of rb sha1 w.conn.session)
        → HasPlainHeaders (parser_of rb sha1 w'.conn.session)

  pub Moved-trans : (a b c : Wire rb sha1) → Moved a b → Moved b c → Moved a c
  Moved-trans a b c h k = record {
    conserved = k.conserved ∙ h.conserved;
    arriving_kept = k.arriving_kept ∙ h.arriving_kept;
    input_kept = k.input_kept ∙ h.input_kept;
    mode_kept = k.mode_kept ∙ h.mode_kept;
    keep_alive_kept = k.keep_alive_kept ∙ h.keep_alive_kept;
    plain_kept = λ p. k.plain_kept (h.plain_kept p);
  }

  pub Moved-refl : (w : Wire rb sha1) → Moved w w
  Moved-refl w = record {
    conserved = refl;
    arriving_kept = refl;
    input_kept = refl;
    mode_kept = refl;
    keep_alive_kept = refl;
    plain_kept = λ p. p;
  }

  pub close-Moved : (w : Wire rb sha1) → Moved w (close rb sha1 w)
  unfolding close
  close-Moved w = record {
    conserved = refl;
    arriving_kept = refl;
    input_kept = refl;
    mode_kept = refl;
    keep_alive_kept = refl;
    plain_kept = λ p. p;
  }

  pub with_socket-Moved :
      (w : Wire rb sha1) (k : Socket)
      → k.sent ≡ w.socket.sent
      → k.arriving ≡ w.socket.arriving
      → Moved w (record w { socket = k })
  with_socket-Moved w k sent arriving = record {
    conserved = ap (λ t. t ++ contents (out_of rb sha1 w)) sent;
    arriving_kept = arriving;
    input_kept = refl;
    mode_kept = refl;
    keep_alive_kept = refl;
    plain_kept = λ p. p;
  }

  pub reset_request-Moved :
      (mode : ProtocolMode) (w : Wire rb sha1) → Moved w (reset_request rb sha1 mode w)
  unfolding reset_request reset
  reset_request-Moved http w = record {
    conserved = refl;
    arriving_kept = refl;
    input_kept = refl;
    mode_kept = refl;
    keep_alive_kept = refl;
    plain_kept = λ p. omega arith;
  }
  reset_request-Moved web_socket w = Moved-refl w

  pub reset_request-open :
      (mode : ProtocolMode) (w : Wire rb sha1) → (reset_request rb sha1 mode w).is_open ≡ w.is_open
  unfolding reset_request
  reset_request-open http w = refl
  reset_request-open web_socket w = refl
