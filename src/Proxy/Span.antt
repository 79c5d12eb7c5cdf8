-- ===== src/Proxy/Span.antt =====
-- src/proxy/spoof.rs: where the top-level `id` of a line stands, and the splice that replaces it.
--
-- A line is its bytes, and an index into it is what stands from there on.
pub mod Splice
mod Tests
use apohara_agentguard.Prelude.{
  ℕ, zero, suc, ◌-◌, Text, codes, Bool, true, false, not, ◌&&◌, ◌||◌, Option, none, some, List, [],
  ◌∷◌, ◌++◌, length, eq_text, starts_with, leb, ◌==◌, Result, ok, err, if◌then◌else◌,
}

abbrev pub take : ℕ → List ℕ → List ℕ
take zero b = []
take (suc n) [] = []
take (suc n) (c ∷ b) = c ∷ take n b

abbrev pub drop : ℕ → List ℕ → List ℕ
drop zero b = b
drop (suc n) [] = []
drop (suc n) (c ∷ b) = drop n b

pub data IdSpan : Type 0 where
  absent ambiguous : IdSpan
  found : ℕ → ℕ → IdSpan

-- The loop of `skip_string`, with the bytes that are still to pass over. At a backslash the code
-- adds 2 to the index, and the end of the round adds 1 more.
unfoldable skip_from : ℕ → List ℕ → List ℕ
skip_from n [] = []
skip_from (suc n) (c ∷ b) = skip_from n b
skip_from zero (c ∷ b) =
    let later = skip_from (if c == b'\\' then 2 else 0) b in if c == b'"' then c ∷ b else later

-- From the opening quote on, to the closing one, or to nothing.
unfoldable pub skip_string : List ℕ → List ℕ
unfolding skip_from
skip_string [] = []
skip_string (quote ∷ b) = skip_from 0 b

abbrev is_ascii_whitespace : ℕ → Bool
is_ascii_whitespace c = c == 9 || c == 10 || c == 12 || c == 13 || c == 32

skip_space : List ℕ → List ℕ
skip_space [] = []
skip_space (c ∷ b) = let rest = skip_space b in if is_ascii_whitespace c then rest else c ∷ b

-- The value behind the colon, when a colon is next.
behind_colon : List ℕ → Option (List ℕ)
unfolding skip_space
behind_colon [] = none
behind_colon (c ∷ b) = if c == b':' then some (skip_space b) else none

-- What stands behind the key's closing quote.
key_end : List ℕ → Option (List ℕ)
unfolding behind_colon skip_space
key_end [] = none
key_end (quote ∷ b) = behind_colon (skip_space b)

-- `scan_key`: the bytes of the key, and its value.
scan_key : List ℕ → Option (List ℕ × List ℕ)
unfolding key_end
scan_key [] = none
scan_key (quote ∷ b) = elim (key_end (skip_string (quote ∷ b))) [
  | none ↦ none
  | some value ↦ some (take (length b - length (skip_string (quote ∷ b))) b, value)
]

abbrev opens : ℕ → Bool
opens c = c == b'{' || c == b'['

abbrev closes : ℕ → Bool
closes c = c == b'}' || c == b']'

-- The place and the depth behind one byte of a value; none where the value ends.
value_step : ℕ → ℕ → List ℕ → Option (ℕ × List ℕ)
value_step depth c b =
    if c == b'"'
    then some (depth, drop 1 (skip_string (c ∷ b)))
    else if opens c
    then some (suc depth, b)
    else if closes c
    then (if depth == 0 then none else some (depth - 1, b))
    else if c == b',' && depth == 0
    then none
    else some (depth, b)

-- The loop of `scan_value_end`, with the rounds bounded by `fuel`.
value_end : ℕ → ℕ → List ℕ → Option (List ℕ)
unfolding value_step
value_end zero depth b = none
value_end (suc fuel) depth [] = none
value_end (suc fuel) depth (c ∷ b) = elim (value_step depth c b) [
  | none ↦ some (c ∷ b)
  | some (next, rest) ↦ value_end fuel next rest
]

scan_value_end : List ℕ → Option (List ℕ)
unfolding value_end
scan_value_end b = value_end (suc (length b)) 0 b

-- A round of the loop of `top_level_id_span` ends it with an answer, or goes on at a depth, with
-- the span that was found and the place.
abbrev Round : Type 0
Round = Option IdSpan × (ℕ × Option (ℕ × ℕ) × List ℕ)

abbrev ends : IdSpan → Round
ends span = (some span, (0, none, []))

abbrev goes_on : ℕ → Option (ℕ × ℕ) → List ℕ → Round
goes_on depth span b = (none, (depth, span, b))

-- A member `id`, with the value from its start on and from its end on.
id_found : ℕ → ℕ → Option (ℕ × ℕ) → List ℕ → Option (List ℕ) → Round
id_found n depth span value none = ends absent
id_found n depth (some earlier) value (some after) = ends ambiguous
id_found n depth none value (some after) =
    goes_on depth (some (n - length value, n - length after)) value

at_string : ℕ → ℕ → Option (ℕ × ℕ) → List ℕ → Option (List ℕ × List ℕ) → Round
unfolding id_found
at_string n depth span b none = goes_on depth span (drop 1 (skip_string b))
at_string n depth span b (some (key, value)) =
    if eq_text key (codes "id")
    then id_found n depth span value (scan_value_end value)
    else goes_on depth span value

line_step : ℕ → ℕ → Option (ℕ × ℕ) → ℕ → List ℕ → Round
unfolding at_string
line_step n depth span c b =
    if c == b'"'
    then at_string n depth span (c ∷ b) (if depth == 1 then scan_key (c ∷ b) else none)
    else if opens c
    then goes_on (suc depth) span b
    else if closes c
    then (if depth == 0 then ends absent else goes_on (depth - 1) span b)
    else goes_on depth span b

abbrev span_or_absent : Option (ℕ × ℕ) → IdSpan
span_or_absent none = absent
span_or_absent (some (s, e)) = found s e

span_loop : ℕ → ℕ → ℕ → Option (ℕ × ℕ) → List ℕ → IdSpan
unfolding line_step
span_loop zero n depth span b = span_or_absent span
span_loop (suc fuel) n depth span [] = span_or_absent span
span_loop (suc fuel) n depth span (c ∷ b) =
    let (answer, (next, later, rest)) = line_step n depth span c b in
    elim answer [ none ↦ span_loop fuel n next later rest | some span ↦ span ]

unfoldable pub top_level_id_span : List ℕ → IdSpan
unfolding span_loop scan_key scan_value_end key_end
top_level_id_span line = span_loop (suc (length line)) (length line) 0 none line

-- `splice_span`
unfoldable pub splice_span : List ℕ → ℕ × ℕ → List ℕ → List ℕ
splice_span line (s, e) replacement = take s line ++ replacement ++ drop e line

-- The id of a message from upstream: missing, a string, or another value.
pub data MessageId : Type 0 where
  no_id other_id : MessageId
  string_id : Text → MessageId

unfoldable pub classify_response_id : MessageId → Result Text (Option Text)
classify_response_id no_id = ok none
classify_response_id (string_id s) =
    if starts_with s (codes "agp-")
    then ok (some s)
    else err (codes "response id lacks the proxy namespace prefix")
classify_response_id other_id =
    err (codes "response id is not a string (proxied ids are always strings)")
