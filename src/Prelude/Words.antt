-- ===== src/Prelude/Words.antt =====
-- The words of a text, and further methods of `str`.
use Prim.Native.Nat.{ℕ, ◌+◌, ◌/◌, ◌%◌}
use mathlib.Core.Bool.{Bool, not}
use mathlib.Core.Option.{Option, none, some}
use mathlib.Core.List.{List, [], ◌∷◌, ◌++◌}
use apohara_agentguard.Prelude.Tests.{ltb, if◌then◌else◌}
use apohara_agentguard.Prelude.Lists.{filter}
use apohara_agentguard.Prelude.Strings.{
  Text, is_empty, is_whitespace, contains, split_char, to_ascii_lowercase,
}

abbrev onto_first : ℕ → List Text → List Text
onto_first c [] = (c ∷ []) ∷ []
onto_first c (p ∷ ps) = (c ∷ p) ∷ ps

-- The parts between white space, the empty ones too.
unfoldable split_spaces : Text → List Text
unfolding is_whitespace
split_spaces [] = [] ∷ []
split_spaces (c ∷ s) =
    let rest = split_spaces s in if is_whitespace c then [] ∷ rest else onto_first c rest

-- `s.split_whitespace()`
unfoldable pub split_whitespace : Text → List Text
unfolding split_spaces
split_whitespace s = filter (λ p. not (is_empty p)) (split_spaces s)

abbrev last_or : Text → List Text → Text
last_or t [] = t
last_or t (p ∷ ps) = last_or p ps

-- `s.rsplit('/').next().unwrap_or(s)`
unfoldable pub file_name : Text → Text
unfolding split_char
file_name s = last_or s (split_char b'/' s)

-- `parts.join(" ")`
abbrev pub join_words : List Text → Text
join_words [] = []
join_words (p ∷ []) = p
join_words (p ∷ q ∷ ps) = p ++ b' ' ∷ join_words (q ∷ ps)

-- `contains_ignore_ascii_case`, and the search in the lowercased text
unfoldable pub contains_ignore_ascii_case : Text → Text → Bool
unfolding to_ascii_lowercase contains
contains_ignore_ascii_case haystack needle =
    contains (to_ascii_lowercase haystack) (to_ascii_lowercase needle)

abbrev pub first_word : List Text → Option Text
first_word [] = none
first_word (w ∷ ws) = some w

-- The bytes of a char's UTF-8 form.
unfoldable pub utf8_bytes : ℕ → List ℕ
utf8_bytes c =
    if ltb c 0x80
    then c ∷ []
    else if ltb c 0x800
    then (0xC0 + c / 64) ∷ (0x80 + c % 64) ∷ []
    else if ltb c 0x10000
    then (0xE0 + c / 4096) ∷ (0x80 + c / 64 % 64) ∷ (0x80 + c % 64) ∷ []
    else (0xF0 + c / 262144) ∷ (0x80 + c / 4096 % 64) ∷ (0x80 + c / 64 % 64) ∷ (0x80 + c % 64) ∷ []
