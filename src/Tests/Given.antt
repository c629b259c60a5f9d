-- ===== src/Tests/Given.antt =====
-- The instances that the tests run at: a ring buffer that keeps its bytes in one piece, a request,
-- and decisions of the predicates on texts.
use warp_api.Prelude.{
  ℕ, ◌-◌, ◌≡◌, refl, sym, Bool, true, false, not, ◌&&◌, List, [], ◌∷◌, ◌++◌, append-nil, arith, ltb,
  ◌==◌, if◌then◌else◌, length, take, drop, All, IsByte, codes,
}
use warp_api.Ring.{RingBuffer}
use warp_api.Request.{new_request}
use warp_api.Session.Parser.{ParserState}
use warp_api.Session.Parser.Fields.{Lacks}

abbrev taken : ℕ → ℕ → ℕ
taken r n = if ltb r n then r else n

-- The bytes, and the room behind them.
abbrev pub flat_ring : RingBuffer
flat_ring = record {
  Buf = List ℕ × ℕ;
  contents = λ b. b.0;
  room = λ b. b.1;
  read_region = λ b. b.0;
  advance_read = λ b n. (drop n b.0, b.1);
  write_space = λ b. b.1;
  advance_write = λ b bytes. (b.0 ++ bytes, b.1 - length bytes);
  write = λ b bytes. (
    (b.0 ++ take (taken b.1 (length bytes)) bytes, b.1 - taken b.1 (length bytes)),
    taken b.1 (length bytes),
  );
  read_region_prefix = λ b. ([], sym (append-nil b.0));
  read_region_progress = λ b h. h;
  advance_read_contents = λ b n h. refl;
  advance_read_whole = λ b n h e. refl;
  write_space-le-room = λ b. omega arith;
  advance_write_contents = λ b bytes h. refl;
  write_count = λ b bytes. ground arith;
  write_progress = λ b bytes h k. ground arith;
  write_contents = λ b bytes. refl;
  write_room = λ b bytes. ground arith;
}

abbrev pub lacks : ℕ → List ℕ → Bool
lacks b [] = true
lacks b (c ∷ cs) = not (c == b) && lacks b cs

pub lacks_sound : (b : ℕ) (cs : List ℕ) → lacks b cs ≡ true → Lacks b cs
lacks_sound b [] e = tt
lacks_sound b (c ∷ cs) e = (ground arith, lacks_sound b cs (ground arith))

abbrev pub are_bytes : List ℕ → Bool
are_bytes [] = true
are_bytes (c ∷ cs) = ltb c 256 && are_bytes cs

pub are_bytes_sound : (cs : List ℕ) → are_bytes cs ≡ true → All IsByte cs
are_bytes_sound [] e = tt
are_bytes_sound (c ∷ cs) e = (ground arith, are_bytes_sound cs (ground arith))

-- A session that has served a request already, of whose body something is left.
abbrev pub used_parser : ParserState
used_parser = record {
  req = record new_request {
    fields = record new_request.fields { body = codes "old" };
    present_headers = 12;
  };
  keep_alive = false;
}
