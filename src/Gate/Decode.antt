-- ===== src/Gate/Decode.antt =====
-- src/gate/decode.rs: a base64 payload that a command decodes.
--
-- `decode_base64` and `from_utf8` stand for the base64 engine and for `String::from_utf8`.
mod Tests
use apohara_agentguard.Prelude.{
  ℕ, suc, Text, codes, Bool, true, false, not, ◌&&◌, ◌||◌, Option, none, some, List, [], ◌∷◌, map,
  any, all, filter, length, is_nil, reverse, is_empty, is_whitespace, contains, contains_char,
  starts_with, split_once, strip_prefix, split_char, eq_text, contains_text, trim,
  is_ascii_alphanumeric, ltb, leb, ◌==◌, if◌then◌else◌,
}
use apohara_agentguard.Prelude.Words.{split_whitespace, file_name, join_words, first_word}
use apohara_agentguard.Contract.{and_then}

abbrev pub max_decode_depth : ℕ
max_decode_depth = 2

abbrev max_decode_bytes : ℕ
max_decode_bytes = 65536

is_wrapper : Text → Bool
is_wrapper token =
    contains_text
      (codes "env"
        ∷ codes "sudo"
        ∷ codes "stdbuf"
        ∷ codes "time"
        ∷ codes "command"
        ∷ codes "builtin"
        ∷ codes "exec"
        ∷ [])
      (file_name token)

abbrev is_name_byte : ℕ → Bool
is_name_byte c = is_ascii_alphanumeric c || c == b'_'

is_env_var_assignment : Text → Bool
is_env_var_assignment token = elim (split_once token (codes "=")) [
  | none ↦ false
  | some (name, value) ↦ not (is_empty name) && all is_name_byte name
]

abbrev drop_one : Text → Text
drop_one [] = []
drop_one (c ∷ s) = s

is_base64_decode_flag : Text → Bool
is_base64_decode_flag token =
    eq_text token (codes "--decode")
    || starts_with token (codes "--decode=")
    || eq_text token (codes "-D")
    || (starts_with token (codes "-")
        && not (starts_with token (codes "--"))
        && (contains_char (drop_one token) b'd' || contains_char (drop_one token) b'D'))

-- The tokens from the head on, behind the wrappers and the assignments.
skip_wrappers : List Text → List Text
unfolding is_wrapper is_env_var_assignment
skip_wrappers [] = []
skip_wrappers (head ∷ tokens) =
    let rest = skip_wrappers tokens in
    if is_wrapper head || is_env_var_assignment head then rest else head ∷ tokens

abbrev names_base64 : Text → Bool
names_base64 t =
    contains_text (codes "base64" ∷ codes "-base64" ∷ codes "b64" ∷ codes "-b64" ∷ codes "enc" ∷ [])
      t

decodes : List Text → Bool
unfolding is_base64_decode_flag
decodes [] = false
decodes (head ∷ tokens) =
    if eq_text (file_name head) (codes "base64")
    then any is_base64_decode_flag tokens
    else if eq_text (file_name head) (codes "openssl")
    then any names_base64 tokens && any is_base64_decode_flag tokens
    else false

is_base64_decode_stage : Text → Bool
unfolding skip_wrappers decodes
is_base64_decode_stage stage = decodes (skip_wrappers (split_whitespace (trim stage)))

unfoldable pub has_base64_decode_stage : Text → Bool
unfolding is_base64_decode_stage
has_base64_decode_stage leg =
    (contains leg (codes "base64") || contains leg (codes "b64"))
    && any is_base64_decode_stage (split_char b'|' leg)

abbrev is_echo_flag : Text → Bool
is_echo_flag t =
    starts_with t (codes "-")
    && ltb 1 (length t)
    && all (λ c. c == b'n' || c == b'e' || c == b'E') (drop_one t)

skip_echo_flags : List Text → List Text
skip_echo_flags [] = []
skip_echo_flags (t ∷ tokens) =
    let rest = skip_echo_flags tokens in if is_echo_flag t then rest else t ∷ tokens

-- The loop of `extract_quoted_prefix`, with the char in front of the cursor.
quoted_prefix : ℕ → ℕ → Text → Text
quoted_prefix quote before [] = []
quoted_prefix quote before (c ∷ s) =
    let rest = quoted_prefix quote c s in
    if c == quote && not (before == b'\\') then c ∷ [] else c ∷ rest

extract_quoted_prefix : Text → Text
unfolding quoted_prefix
extract_quoted_prefix [] = []
extract_quoted_prefix (quote ∷ s) = quote ∷ quoted_prefix quote quote s

abbrev quoted_by : ℕ → Text → Bool
quoted_by quote s = starts_with s (quote ∷ []) && starts_with (reverse s) (quote ∷ [])

abbrev pub inside : Text → Text
inside s = reverse (drop_one (reverse (drop_one s)))

-- One layer of matching quotes, off.
unfoldable pub strip_quotes : Text → Text
strip_quotes s = if leb 2 (length s) && (quoted_by b'"' s || quoted_by b'\'' s) then inside s else s

abbrev word_or_nil : Option Text → Text
word_or_nil none = []
word_or_nil (some w) = w

abbrev herestring : Text → Text
herestring after =
    if starts_with after (codes "\"") || starts_with after (codes "'")
    then extract_quoted_prefix after
    else word_or_nil (first_word (split_whitespace after))

printf_payload : List Text → Option Text
unfolding strip_quotes
printf_payload [] = none
printf_payload (w ∷ ws) =
    if starts_with (strip_quotes w) (codes "%")
    then and_then (first_word ws) (λ v. some (strip_quotes v))
    else some (strip_quotes w)

cat_payload : List Text → Option Text
unfolding strip_quotes
cat_payload [] = none
cat_payload (w ∷ ws) = some (strip_quotes w)

stage_payload : List Text → Option Text
unfolding printf_payload cat_payload skip_echo_flags
stage_payload [] = none
stage_payload (head ∷ tokens) =
    if eq_text (file_name head) (codes "echo")
    then some (strip_quotes (trim (join_words (skip_echo_flags tokens))))
    else if eq_text (file_name head) (codes "printf")
    then printf_payload tokens
    else if eq_text (file_name head) (codes "cat")
    then cat_payload tokens
    else some (strip_quotes head)

extract_payload : Text → Option Text
unfolding extract_quoted_prefix stage_payload skip_wrappers
extract_payload leg = elim (split_once leg (codes "<<<")) [
  | some (before, after) ↦ some (strip_quotes (herestring (trim after)))
  | none ↦
      and_then (first_word (split_char b'|' leg))
        (λ stage. stage_payload (skip_wrappers (split_whitespace (trim stage))))
]

module _ (decode_base64 : Text → Option (List ℕ)) (from_utf8 : List ℕ → Option Text) where
  abbrev decoded_text : List ℕ → Option Text
  decoded_text bytes = if ltb max_decode_bytes (length bytes) then none else from_utf8 bytes

  unfoldable pub decode_and_expand : Text → ℕ → Option Text
  unfolding extract_payload
  decode_and_expand leg depth =
      if leb max_decode_depth depth
      then none
      else if not (has_base64_decode_stage leg)
      then none
      else and_then (extract_payload leg) (λ payload.
        and_then (decode_base64 (filter (λ c. not (is_whitespace c)) payload)) decoded_text)
