-- ===== src/Gate/Compound.antt =====
-- src/gate/compound.rs: a command line cut into the legs that the shell runs, the bodies of its
-- substitutions included.
--
-- The cursor of the loop is the text behind it. The code walks bytes; every byte it tests for is
-- ASCII, so a walk over the chars stops at the same places.
mod Equation
mod Measure
pub mod Quoting
pub mod Nested
pub mod Whole
mod Tests
use apohara_agentguard.Prelude.{
  ℕ, zero, suc, ◌-◌, Text, codes, Bool, true, false, not, ◌&&◌, ◌||◌, Option, none, some, List, [],
  ◌∷◌, ◌++◌, map, reverse, any, all, length, is_nil, ltb, ◌==◌, is_empty, contains_char,
  strip_prefix, split_once, trim, trim_start, is_whitespace, is_ascii_alphabetic,
  is_ascii_alphanumeric, if◌then◌else◌,
}

abbrev next_is : Text → ℕ → Bool
next_is [] d = false
next_is (c ∷ s) d = c == d

abbrev drop_one : Text → Text
drop_one [] = []
drop_one (c ∷ s) = s

-- The bytes that send a command into the loop.
unfoldable is_special : ℕ → Bool
is_special c = contains_char (codes "&|;\n$`<>\\\"'()") c

is_valid_var_name : Text → Bool
is_valid_var_name [] = false
is_valid_var_name (c ∷ s) =
    (is_ascii_alphabetic c || c == b'_') && all (λ d. is_ascii_alphanumeric d || d == b'_') s

abbrev var_keywords : List Text
var_keywords = codes "export" ∷ codes "local" ∷ codes "declare" ∷ codes "readonly" ∷ []

abbrev starts_with_space : Option Text → Bool
starts_with_space (some (c ∷ s)) = is_whitespace c
starts_with_space _ = false

abbrev trimmed_or : Option Text → Text → Text
trimmed_or none s = s
trimmed_or (some after) s = trim_start after

-- The loop over the keywords, left at the first that stands before a space.
skip_keyword : List Text → Text → Text
skip_keyword [] s = s
skip_keyword (kw ∷ kws) s =
    let rest = skip_keyword kws s in
    if starts_with_space (strip_prefix s kw) then trimmed_or (strip_prefix s kw) s else rest

-- A name and its `=`, with nothing behind it.
assigned_name : Option (Text × Text) → Bool
unfolding is_valid_var_name
assigned_name (some (name, [])) = is_valid_var_name name
assigned_name _ = false

pub is_assignment_prefix : Text → Bool
unfolding skip_keyword assigned_name
is_assignment_prefix prefix =
    assigned_name (split_once (skip_keyword var_keywords (trim prefix)) (codes "="))

-- The leg that `push_leg_slice` adds, when one is left after the trim.
unfoldable pub leg_slice : Text → List Text
leg_slice s = let slice = trim s in if is_empty slice then [] else slice ∷ []

-- What an extraction finds: the body, the text up to and with the closing mark, and the text
-- behind it.
pub record Body : Type 0 where
  pub inner : Text
  pub taken : Text
  pub behind : Text

abbrev one_more : ℕ → Body → Body
one_more c b = record { inner = c ∷ b.inner; taken = c ∷ b.taken; behind = b.behind }

abbrev closed_body : ℕ → Text → Body
closed_body c s = record { inner = []; taken = c ∷ []; behind = s }

abbrev next_depth : ℕ → ℕ → ℕ
next_depth c depth = if c == b'(' then suc depth else if c == b')' then depth - 1 else depth

-- The loop of `extract_paren_body`. The flag says that a backslash stands before the cursor.
unfoldable paren_body : Bool → ℕ → Text → Body
paren_body escaped depth [] = record { inner = []; taken = []; behind = [] }
paren_body true depth (c ∷ s) = one_more c (paren_body false depth s)
paren_body false depth (c ∷ s) =
    let rest = paren_body (c == b'\\') (next_depth c depth) s in
    if c == b')' && depth == 1 then closed_body c s else one_more c rest

unfoldable extract_paren_body : Text → Body
unfolding paren_body
extract_paren_body s = paren_body false 1 s

unfoldable backtick_body : Bool → Text → Body
backtick_body escaped [] = record { inner = []; taken = []; behind = [] }
backtick_body true (c ∷ s) = one_more c (backtick_body false s)
backtick_body false (c ∷ s) =
    let rest = backtick_body (c == b'\\') s in
    if c == b'`' then closed_body c s else one_more c rest

unfoldable extract_backtick_body : Text → Body
unfolding backtick_body
extract_backtick_body s = backtick_body false s

-- The state of the loop beside its place: the leg since `leg_start`, its last char first, and the
-- open quotes.
pub record Cursor : Type 0 where
  pub leg : Text
  pub in_double : Bool
  pub in_single : Bool

abbrev start : Cursor
start = record { leg = []; in_double = false; in_single = false }

-- One round of the loop: whether the leg is pushed, the body to split, and where the loop goes on.
pub record Turn : Type 0 where
  pub pushed : Bool
  pub body : Option Text
  pub cursor : Cursor
  pub rest : Text

abbrev keep : Cursor → ℕ → Text → Turn
keep q c s = record { pushed = false; body = none; cursor = record q { leg = c ∷ q.leg }; rest = s }

abbrev keep_escaped : Cursor → ℕ → Text → Turn
keep_escaped q c [] = keep q c []
keep_escaped q c (d ∷ s) = record {
  pushed = false;
  body = none;
  cursor = record q { leg = d ∷ c ∷ q.leg };
  rest = s;
}

abbrev separate : Cursor → Text → Turn
separate q s = record { pushed = true; body = none; cursor = record q { leg = [] }; rest = s }

-- A substitution that opens with `mark`: it stays in the leg behind an assignment, and ends the
-- leg elsewhere.
abbrev substitute : Cursor → Text → Body → Turn
substitute q mark b =
    let stays = is_assignment_prefix (reverse q.leg) in
    record {
      pushed = not stays;
      body = some b.inner;
      cursor = record q { leg = if stays then reverse (mark ++ b.taken) ++ q.leg else [] };
      rest = b.behind;
    }

-- `$(`, `<(` and `>(`
abbrev opens_paren : ℕ → Text → Bool
opens_paren c s = (c == b'$' || c == b'<' || c == b'>') && next_is s b'('

abbrev is_double_mark : ℕ → Text → Bool
is_double_mark c s = (c == b'&' && next_is s b'&') || (c == b'|' && next_is s b'|')

abbrev is_separator : ℕ → Bool
is_separator c = c == b';' || c == b'|' || c == b'&' || c == b'\n'

-- A round outside quotes. The code tests `$(`, the backtick, `<(` and `>(` in turn; no two of them
-- hold of one char.
unfoldable unquoted_turn : Text → Cursor → ℕ → Text → Turn
unfolding extract_paren_body extract_backtick_body
unquoted_turn seps q c s =
    if opens_paren c s
    then substitute q (c ∷ b'(' ∷ []) (extract_paren_body (drop_one s))
    else if c == b'`'
    then substitute q (c ∷ []) (extract_backtick_body s)
    else if is_double_mark c s
    then separate q (drop_one s)
    else if is_separator c || contains_char seps c || c == b'(' || c == b')'
    then separate q s
    else keep q c s

unfoldable one_turn : Text → Cursor → ℕ → Text → Turn
unfolding unquoted_turn
one_turn seps q c s =
    if not q.in_single && c == b'\\' && not (is_empty s)
    then keep_escaped q c s
    else if c == b'"' && not q.in_single
    then keep (record q { in_double = not q.in_double }) c s
    else if c == b'\'' && not q.in_double
    then keep (record q { in_single = not q.in_single }) c s
    else if not q.in_double && not q.in_single
    then unquoted_turn seps q c s
    else keep q c s

-- The early returns in front of the loop.
unfoldable split_by : (Cursor → Text → List Text) → Text → Text → List Text
unfolding leg_slice is_special
split_by loop seps command =
    if is_nil seps && not (any is_special command)
    then leg_slice command
    else if is_empty (trim command)
    then []
    else loop start command

abbrev legs_of_body : (Text → List Text) → Option Text → List Text
legs_of_body split none = []
legs_of_body split (some inner) = split inner

abbrev pushed_leg : Turn → Cursor → List Text
pushed_leg turn q = if turn.pushed then leg_slice (reverse q.leg) else []

-- The loop, with the rounds bounded by `fuel`; a body is split without the extra separators.
unfoldable walk_legs : ℕ → Text → Cursor → Text → List Text
unfolding one_turn split_by
walk_legs zero seps q s = []
walk_legs (suc fuel) seps q [] = leg_slice (reverse q.leg)
walk_legs (suc fuel) seps q (c ∷ s) =
    let turn = one_turn seps q c s in
    pushed_leg turn q
    ++ legs_of_body (λ inner. split_by (walk_legs fuel []) [] inner) turn.body
    ++ walk_legs fuel seps turn.cursor turn.rest

unfoldable pub split_compound_with_separators : Text → Text → List Text
unfolding walk_legs
split_compound_with_separators command seps =
    split_by (walk_legs (suc (length command)) seps) seps command

unfoldable pub split_compound : Text → List Text
unfolding split_compound_with_separators
split_compound command = split_compound_with_separators command []

pub is_compound : Text → Bool
unfolding split_compound
is_compound command = ltb 1 (length (split_compound command))

abbrev max_subst_bodies : ℕ
max_subst_bodies = 64

-- A round of `extract_double_quoted_substitutions`; the leg of the cursor is not used.
quoted_turn : Cursor → ℕ → Text → Turn
quoted_turn q c s =
    if not q.in_single && c == b'\\' && not (is_empty s)
    then keep_escaped q c s
    else if c == b'"' && not q.in_single
    then keep (record q { in_double = not q.in_double }) c s
    else if c == b'\'' && not q.in_double
    then keep (record q { in_single = not q.in_single }) c s
    else if not (q.in_double && not q.in_single)
    then keep q c s
    else if c == b'$' && next_is s b'('
    then substitute q (c ∷ b'(' ∷ []) (extract_paren_body (drop_one s))
    else if c == b'`'
    then substitute q (c ∷ []) (extract_backtick_body s)
    else keep q c s

abbrev one_body : Option Text → List Text
one_body none = []
one_body (some inner) = inner ∷ []

-- `room` counts the bodies that may still be added.
unfoldable quoted_bodies : ℕ → ℕ → Cursor → Text → List Text
unfolding quoted_turn
quoted_bodies zero room q s = []
quoted_bodies (suc fuel) zero q s = []
quoted_bodies (suc fuel) (suc room) q [] = []
quoted_bodies (suc fuel) (suc room) q (c ∷ s) =
    let turn = quoted_turn q c s in
    one_body turn.body
    ++ quoted_bodies fuel (suc room - length (one_body turn.body)) turn.cursor turn.rest

unfoldable pub extract_double_quoted_substitutions : Text → List Text
unfolding quoted_bodies extract_paren_body extract_backtick_body
extract_double_quoted_substitutions leg =
    quoted_bodies (suc (length leg)) max_subst_bodies start leg
