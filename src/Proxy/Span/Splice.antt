-- ===== src/Proxy/Span/Splice.antt =====
-- src/proxy/spoof.rs: the splice of an id, and the scan for the end of a string.
use mathlib.Core.List.{append_assoc}
use apohara_agentguard.Prelude.{
  ℕ, zero, suc, ◌+◌, ◌≡◌, refl, ap, ◌∙◌, arith, Bool, true, false, not, ◌||◌, List, [], ◌∷◌, ◌++◌,
  length, all, ◌==◌, length-append,
}
use apohara_agentguard.Proxy.Span.{take, drop, skip_from, skip_string, splice_span}

take-append : (a b : List ℕ) (s : ℕ) → length a ≡ s → take s (a ++ b) ≡ a
take-append [] b s e = rw (← e) refl
take-append (c ∷ a) b zero e = ground (arith, e)
take-append (c ∷ a) b (suc s) e = ap (◌∷◌ c) (take-append a b s (omega (arith, e)))

drop-append : (a b : List ℕ) (s : ℕ) → length a ≡ s → drop s (a ++ b) ≡ b
drop-append [] b s e = rw (← e) refl
drop-append (c ∷ a) b zero e = ground (arith, e)
drop-append (c ∷ a) b (suc s) e = drop-append a b s (omega (arith, e))

spliced :
    (before id after minted : List ℕ)
    → splice_span (before ++ id ++ after) (length before, length before + length id) minted
      ≡ before ++ minted ++ after
unfolding splice_span
spliced before id after minted =
    ap (λ front. front ++ minted ++ drop (length before + length id) (before ++ id ++ after))
      (ap (take (length before)) (append_assoc before id after)
        ∙ take-append before (id ++ after) (length before) refl)
    ∙ ap (λ back. before ++ minted ++ back)
        (drop-append (before ++ id) after (length before + length id) (length-append before id))

-- A line whose id stands between `before` and `after`: the splice of a minted id, and then of the
-- id itself over the minted one, gives the line back.
pub splice_span-splice_span :
    (before id after minted : List ℕ)
    → let start = length before in
      splice_span
        (splice_span (before ++ id ++ after) (start, start + length id) minted)
        (start, start + length minted)
        id
      ≡ before ++ id ++ after
splice_span-splice_span before id after minted =
    ap (λ line. splice_span line (length before, length before + length minted) id)
      (spliced before id after minted)
    ∙ spliced before minted after id

-- No quote and no backslash.
abbrev pub is_bare : List ℕ → Bool
is_bare = all (λ c. not (c == b'"' || c == b'\\'))

skip_from-bare :
    (bare rest : List ℕ) → is_bare bare ≡ true → skip_from 0 (bare ++ rest) ≡ skip_from 0 rest
unfolding skip_from
skip_from-bare [] rest h = refl
skip_from-bare (c ∷ bare) rest h =
    let q : (c == b'"') ≡ false = ground (arith, h) in
    let s : (c == b'\\') ≡ false = ground (arith, h) in
    rw (q, s) (skip_from-bare bare rest (ground (arith, h)))

-- The end of a string without escapes is its closing quote.
pub skip_string-bare :
    (bare rest : List ℕ)
    → is_bare bare ≡ true
    → skip_string (b'"' ∷ bare ++ b'"' ∷ rest) ≡ b'"' ∷ rest
unfolding skip_string skip_from
skip_string-bare bare rest h = skip_from-bare bare (b'"' ∷ rest) h

-- The closing quote of a string whose last char is escaped is passed over: the scan goes on behind
-- it, to the next quote.
pub skip_string_escaped_end :
    (bare : List ℕ) (escaped : ℕ) (behind rest : List ℕ)
    → is_bare bare ≡ true
    → is_bare behind ≡ true
    → skip_string (b'"' ∷ bare ++ (b'\\' ∷ escaped ∷ b'"' ∷ (behind ++ b'"' ∷ rest))) ≡ b'"' ∷ rest
unfolding skip_string skip_from
skip_string_escaped_end bare escaped behind rest h k =
    skip_from-bare bare (b'\\' ∷ escaped ∷ b'"' ∷ (behind ++ b'"' ∷ rest)) h
    ∙ skip_from-bare behind (b'"' ∷ rest) k
