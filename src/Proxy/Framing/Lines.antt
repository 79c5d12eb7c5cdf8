-- ===== src/Proxy/Framing/Lines.antt =====
-- src/proxy/framing.rs: the reader on a written line, and on one that is too long.
use mathlib.Core.List.{reverse_aux, reverse-reverse, append_assoc}
use apohara_agentguard.Prelude.{
  ℕ, ◌≤◌, ◌<◌, ◌+◌, ◌≡◌, refl, ap, ◌∙◌, arith, Text, Bool, true, false, not, Option, some, List, [],
  ◌∷◌, ◌++◌, all, length, reverse, leb, ltb, ◌==◌, Bool-cases, inl, inr, ok, err, contains_char,
}
use apohara_agentguard.Proxy.Framing.{
  as_bytes, write_line, strip_return, decoded, finish_line, read_from, read_line, max_line_exceeded,
  Answer,
}
use apohara_agentguard.Prelude.Words.{utf8_bytes}

-- The bytes hold no line break.
abbrev pub unbroken : List ℕ → Bool
unbroken = all (λ b. not (b == b'\n'))

abbrev starts_with_return : List ℕ → Bool
starts_with_return [] = false
starts_with_return (b ∷ bs) = b == b'\r'

abbrev pub ends_with_return : List ℕ → Bool
ends_with_return bytes = starts_with_return (reverse bytes)

strip_return_fixed : (line : List ℕ) → starts_with_return line ≡ false → strip_return line ≡ line
unfolding strip_return
strip_return_fixed [] h = refl
strip_return_fixed (b ∷ bs) h = rw h refl

utf8_bytes-unbroken : (c : ℕ) → (c == b'\n') ≡ false → unbroken (utf8_bytes c) ≡ true
unfolding utf8_bytes
utf8_bytes-unbroken c h = ground (arith, h)

unbroken-append :
    (bs cs : List ℕ) → unbroken bs ≡ true → unbroken cs ≡ true → unbroken (bs ++ cs) ≡ true
unbroken-append [] cs h k = k
unbroken-append (b ∷ bs) cs h k = ground (arith, h, unbroken-append bs cs)

as_bytes-unbroken :
    (line : Text) → contains_char line b'\n' ≡ false → unbroken (as_bytes line) ≡ true
unfolding as_bytes contains_char
as_bytes-unbroken [] h = refl
as_bytes-unbroken (c ∷ s) h =
    unbroken-append (utf8_bytes c) (as_bytes s) (utf8_bytes-unbroken c (ground (arith, h)))
      (as_bytes-unbroken s (ground (arith, h)))

module _ (max : ℕ) where
  fits_limit : (size : ℕ) → size ≤ max → ltb max size ≡ false
  fits_limit size h = ground (arith, h)

module _ (from_utf8 : List ℕ → Option Text) (max : ℕ) (ending : Option Text) where
  -- Bytes without a line break, and few enough, are collected.
  read_from-collect :
      (line bytes rest : List ℕ)
      → unbroken bytes ≡ true
      → length line + length bytes ≤ max
      → read_from from_utf8 max ending line (bytes ++ rest)
        ≡ read_from from_utf8 max ending (reverse_aux bytes line) rest
  unfolding read_from
  read_from-collect line [] rest h k = refl
  read_from-collect line (b ∷ bytes) rest h k =
      let plain : (b == b'\n') ≡ false = ground (arith, h) in
      let fits : leb max (length line) ≡ false = ground (arith, k) in
      rw (plain, fits)
        (read_from-collect (b ∷ line) bytes rest (ground (arith, h)) (omega (arith, k)))

  read_from-oversize :
      (line bytes rest : List ℕ)
      → unbroken bytes ≡ true
      → length line ≤ max
      → max < length line + length bytes
      → (read_from from_utf8 max ending line (bytes ++ rest)).0 ≡ err max_line_exceeded
  unfolding read_from
  read_from-oversize line [] rest h k m = ground (arith, k, m)
  read_from-oversize line (b ∷ bytes) rest h k m =
      let plain : (b == b'\n') ≡ false = ground (arith, h) in
      elim (Bool-cases (leb max (length line))) [
        | inl e ↦ rw (plain, e) refl
        | inr e ↦
            rw (plain, e)
              (read_from-oversize (b ∷ line) bytes rest (ground (arith, h)) (ground (arith, e))
                (omega (arith, m)))
      ]

  -- A stream that starts with more bytes than the limit and no line break among them is refused,
  -- whatever follows.
  pub read_line-oversize :
      (bytes rest : List ℕ)
      → unbroken bytes ≡ true
      → max < length bytes
      → (read_line from_utf8 max ending (bytes ++ rest)).0 ≡ err max_line_exceeded
  unfolding read_line
  read_line-oversize bytes rest h m =
      read_from-oversize [] bytes rest h (omega arith) (omega (arith, m))

  read_from-break :
      (line rest : List ℕ)
      → read_from from_utf8 max ending line (b'\n' ∷ rest) ≡ (finish_line from_utf8 max line, rest)
  unfolding read_from
  read_from-break line rest = refl

  finish_line-kept :
      (bytes : List ℕ) (line : Text)
      → ends_with_return bytes ≡ false
      → length bytes ≤ max
      → from_utf8 bytes ≡ some line
      → finish_line from_utf8 max (reverse bytes) ≡ ok (some line)
  unfolding finish_line decoded
  finish_line-kept bytes line h k e =
      let kept = strip_return_fixed (reverse bytes) h in
      rw (kept, reverse-reverse bytes, fits_limit max (length bytes) k, e) refl

  -- A line that was written behind nothing, and in front of anything, is the line that is read
  -- next, and the reading goes on behind it: when it holds no line break, does not end with `\r`,
  -- and fits the limit, and the decoder reads back what the encoder wrote.
  pub read_line-write_line :
      (line : Text) (rest : List ℕ)
      → contains_char line b'\n' ≡ false
      → ends_with_return (as_bytes line) ≡ false
      → length (as_bytes line) ≤ max
      → from_utf8 (as_bytes line) ≡ some line
      → read_line from_utf8 max ending (write_line [] line ++ rest) ≡ (ok (some line), rest)
  unfolding read_line write_line
  read_line-write_line line rest h r k e =
      let bytes = as_bytes line in
      ap (read_from from_utf8 max ending []) (append_assoc bytes (b'\n' ∷ []) rest)
      ∙ read_from-collect [] bytes (b'\n' ∷ rest) (as_bytes-unbroken line h) (omega (arith, k))
      ∙ read_from-break (reverse bytes) rest
      ∙ ap (λ (a : Answer). (a, rest)) (finish_line-kept bytes line r k e)
