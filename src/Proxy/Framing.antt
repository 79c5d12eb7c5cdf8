-- ===== src/Proxy/Framing.antt =====
-- src/proxy/framing.rs: one JSON text per line, with a limit on its length.
--
-- What the reader has left is its bytes, and how they end: with the end of the stream or with an
-- error. `from_utf8` stands for `String::from_utf8`.
pub mod Lines
mod Tests
use apohara_agentguard.Prelude.{
  ℕ, Text, codes, Option, none, some, List, [], ◌∷◌, ◌++◌, length, reverse, leb, ltb, ◌==◌, Result,
  ok, err, if◌then◌else◌,
}
use apohara_agentguard.Prelude.Words.{utf8_bytes}

abbrev default_max_line_bytes : ℕ
default_max_line_bytes = 16777216

abbrev pub max_line_exceeded : Text
max_line_exceeded = codes "ndjson line exceeds maximum allowed size"

abbrev pub not_utf8 : Text
not_utf8 = codes "ndjson line is not valid UTF-8"

-- `line.as_bytes()`
unfoldable pub as_bytes : Text → List ℕ
as_bytes [] = []
as_bytes (c ∷ s) = utf8_bytes c ++ as_bytes s

-- `write_line` on a sink that does not fail: what it holds behind the call.
unfoldable pub write_line : List ℕ → Text → List ℕ
write_line sink line = sink ++ as_bytes line ++ b'\n' ∷ []

-- The line without a last `\r`, from its bytes with the last one first.
unfoldable pub strip_return : List ℕ → List ℕ
strip_return [] = []
strip_return (b ∷ bs) = if b == b'\r' then bs else b ∷ bs

abbrev pub Answer : Type 0
Answer = Result Text (Option Text)

module _ (from_utf8 : List ℕ → Option Text) where
  unfoldable decoded : Option Text → Answer
  decoded none = err not_utf8
  decoded (some line) = ok (some line)

  unfoldable finish_line : ℕ → List ℕ → Answer
  unfolding strip_return decoded
  finish_line max line =
      let kept = reverse (strip_return line) in
      if ltb max (length kept) then err max_line_exceeded else decoded (from_utf8 kept)

  abbrev at_end : ℕ → Option Text → List ℕ → Answer
  at_end max (some e) line = err e
  at_end max none [] = ok none
  at_end max none (b ∷ bs) = finish_line max (b ∷ bs)

  -- The loop of `read_line`, with the bytes of the line so far, the last one first; the result and
  -- what is left of the stream.
  unfoldable read_from : ℕ → Option Text → List ℕ → List ℕ → Answer × List ℕ
  unfolding finish_line
  read_from max ending line [] = (at_end max ending line, [])
  read_from max ending line (b ∷ bs) =
      let later = read_from max ending (b ∷ line) bs in
      if b == b'\n'
      then (finish_line max line, bs)
      else if leb max (length line)
      then (err max_line_exceeded, bs)
      else later

  unfoldable pub read_line : ℕ → Option Text → List ℕ → Answer × List ℕ
  unfolding read_from
  read_line max ending bytes = read_from max ending [] bytes
