-- ===== src/Gate/Resolve.antt =====
-- src/gate/resolve.rs: the variables that earlier legs assign, written into the later ones.
--
-- The map of the variables is a list, the last assignment first.
pub mod Expand
mod Tests
use apohara_agentguard.Prelude.{
  ℕ, zero, suc, Text, codes, Bool, true, false, not, ◌&&◌, ◌||◌, Option, none, some, List, [], ◌∷◌,
  any, ◌++◌, all, length, is_empty, is_whitespace, contains_char, starts_with, ends_with,
  split_once, strip_prefix, eq_text, trim, trim_start, is_ascii_alphabetic, is_ascii_alphanumeric,
  ltb, leb, ◌==◌, reverse, if◌then◌else◌,
}
use apohara_agentguard.Contract.{and_then, or_else}

abbrev drop_one : Text → Text
drop_one [] = []
drop_one (c ∷ s) = s

abbrev drop_last : Text → Text
drop_last s = reverse (drop_one (reverse s))

abbrev pub is_name_char : ℕ → Bool
is_name_char d = is_ascii_alphanumeric d || d == b'_'

unfoldable pub is_valid_var_name : Text → Bool
is_valid_var_name [] = false
is_valid_var_name (c ∷ s) = (is_ascii_alphabetic c || c == b'_') && all is_name_char s

abbrev before_stop : ℕ → Option (Text × Text) → Option (Text × Text)
before_stop c none = none
before_stop c (some (before, behind)) = some (c ∷ before, behind)

-- What stands in front of the first stop, and the text from it on; a backslash hides the char
-- behind it where the flag says so.
up_to : (ℕ → Bool) → Bool → Bool → Text → Option (Text × Text)
up_to stops escapes escaped [] = none
up_to stops escapes escaped (c ∷ s) =
    let later = up_to stops escapes (not escaped && escapes && c == b'\\') s in
    if not escaped && not (escapes && c == b'\\') && stops c
    then some ([], c ∷ s)
    else before_stop c later

abbrev quoted_token : Text → ℕ → Option (Text × Text) → Text × Text
quoted_token whole quote none = (whole, [])
quoted_token whole quote (some (before, behind)) = (quote ∷ before ++ quote ∷ [], drop_one behind)

abbrev bare_token : Text → ℕ → Option (Text × Text) → Text × Text
bare_token whole c none = (whole, [])
bare_token whole c (some (before, behind)) = (c ∷ before, behind)

token_of : Text → Option (Text × Text)
unfolding up_to
token_of [] = none
token_of (c ∷ s) =
    if c == b'\''
    then some (quoted_token (c ∷ s) c (up_to (λ d. d == b'\'') false false s))
    else if c == b'"'
    then some (quoted_token (c ∷ s) c (up_to (λ d. d == b'"') true false s))
    else some (bare_token (c ∷ s) c (up_to is_whitespace false false s))

parse_first_token : Text → Option (Text × Text)
unfolding token_of
parse_first_token s = token_of (trim_start s)

abbrev between : ℕ → Text → Bool
between quote s = starts_with s (quote ∷ []) && ends_with s (quote ∷ []) && leb 2 (length s)

abbrev is_quoted : Text → Bool
is_quoted s = between b'"' s || between b'\'' s

pub strip_quotes_borrowed : Text → Text
strip_quotes_borrowed s = if is_quoted s then drop_last (drop_one s) else s

abbrev space_first : Text → Bool
space_first [] = false
space_first (c ∷ s) = is_whitespace c

-- The verb, bare or in quotes, off the front.
verb_off : Text → Text → Option Text
verb_off s verb = or_else (strip_prefix s verb) (
    or_else (strip_prefix s (b'\'' ∷ verb ++ b'\'' ∷ []))
      (strip_prefix s (b'"' ∷ verb ++ b'"' ∷ [])))

abbrev ends_word : Text → Option Text
ends_word rest = if is_empty rest || space_first rest then some rest else none

abbrev is_double_dash : Text → Bool
is_double_dash s =
    starts_with s (codes "--") && (length s == 2 || space_first (drop_one (drop_one s)))

abbrev is_flag_token : Text → Bool
is_flag_token token =
    starts_with token (codes "-")
    && ltb 1 (length token)
    && all (λ c. c == b'n' || c == b'e' || c == b'E') (drop_one token)

-- What `strip_echo` passes over when `curr` starts with a flag.
flag_off : Text → Option Text
unfolding strip_quotes_borrowed
flag_off curr = elim (if starts_with curr (codes "-") then parse_first_token curr else none) [
  | none ↦ none
  | some (token, rest) ↦
      if is_flag_token (strip_quotes_borrowed token) then some (trim_start rest) else none
]

-- The loop of `strip_echo`, with the rounds bounded by `fuel`.
skip_flags : ℕ → Text → Text
unfolding flag_off
skip_flags zero curr = curr
skip_flags (suc fuel) curr =
    if is_double_dash curr
    then trim_start (drop_one (drop_one curr))
    else elim (flag_off curr) [ none ↦ curr | some rest ↦ skip_flags fuel rest ]

strip_echo : Text → Option Text
unfolding verb_off skip_flags
strip_echo s =
    and_then (and_then (verb_off s (codes "echo")) ends_word)
      (λ rest. some (skip_flags (suc (length rest)) (trim_start rest)))

-- What is left behind `-v name`.
variable_off : Text → Option (Text × Text) → Text
variable_off curr none = curr
variable_off curr (some (tok, rest)) =
    if eq_text tok (codes "-v")
    then elim (parse_first_token rest) [ none ↦ [] | some (name, behind) ↦ trim_start behind ]
    else trim_start rest

printf_options_off : Text → Text
unfolding variable_off
printf_options_off curr =
    if is_double_dash curr
    then trim_start (drop_one (drop_one curr))
    else if starts_with curr (codes "-v")
    then variable_off curr (parse_first_token curr)
    else curr

printf_text : Text → Text
printf_text curr = elim (parse_first_token curr) [
  | none ↦ curr
  | some (format, args) ↦ if is_empty (trim_start args) then format else trim_start args
]

strip_printf : Text → Option Text
unfolding printf_options_off printf_text
strip_printf s =
    and_then (and_then (verb_off s (codes "printf")) ends_word)
      (λ rest. some (printf_text (printf_options_off (trim_start rest))))

quotes_off : Text → Text
quotes_off s = if is_quoted s then trim (drop_last (drop_one s)) else s

abbrev in_parens : Text → Text → Bool
in_parens s mark = starts_with s mark && ends_with s (codes ")") && leb 3 (length s)

envelope_off : Text → Text
envelope_off s =
    if in_parens s (codes "$(")
    then trim (drop_last (drop_one (drop_one s)))
    else if between b'`' s
    then trim (drop_last (drop_one s))
    else if in_parens s (codes "<(") || in_parens s (codes ">(")
    then trim (drop_last (drop_one (drop_one s)))
    else s

emitter_off : Text → Text
unfolding strip_echo strip_printf
emitter_off s = elim (or_else (strip_echo s) (strip_printf s)) [ none ↦ s | some rest ↦ trim rest ]

unwrap_rounds : ℕ → Text → Text
unfolding quotes_off envelope_off emitter_off
unwrap_rounds zero s = s
unwrap_rounds (suc n) s =
    let next = emitter_off (envelope_off (quotes_off s)) in
    if eq_text next s then next else unwrap_rounds n next

unwrap_substitution : Text → Text
unfolding unwrap_rounds
unwrap_substitution val = unwrap_rounds 8 (trim val)

-- The loop of `strip_quotes_and_concat`; a backslash at the end is kept.
concat_quotes : Bool → Bool → Bool → Text → Text
concat_quotes escaped double single [] = if escaped then b'\\' ∷ [] else []
concat_quotes true double single (c ∷ s) = c ∷ concat_quotes false double single s
concat_quotes false double single (c ∷ s) =
    let rest =
      concat_quotes (c == b'\\' && not single)
        (if c == b'"' && not single then not double else double)
        (if c == b'\'' && not double then not single else single) s in
    if (c == b'\\' && not single) || (c == b'"' && not single) || (c == b'\'' && not double)
    then rest
    else c ∷ rest

strip_quotes_and_concat : Text → Text
unfolding concat_quotes
strip_quotes_and_concat s =
    if not (contains_char s b'"') && not (contains_char s b'\'')
    then s
    else concat_quotes false false false s

keyword_off : List Text → Text → Text
keyword_off [] s = s
keyword_off (kw ∷ kws) s =
    let rest = keyword_off kws s in
    elim (strip_prefix s kw) [
      | none ↦ rest
      | some after ↦ if space_first after then trim_start after else rest
    ]

pub parse_assignment : Text → Option (Text × Text)
unfolding keyword_off unwrap_substitution strip_quotes_and_concat
parse_assignment leg =
    and_then
      (split_once
        (keyword_off (codes "export" ∷ codes "local" ∷ codes "declare" ∷ codes "readonly" ∷ [])
          (trim leg))
        (codes "="))
      (λ (name, value).
        if is_valid_var_name name
        then some (name, strip_quotes_and_concat (unwrap_substitution (trim value)))
        else none)
