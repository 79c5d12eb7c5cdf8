-- ===== src/Gate/Taxonomy/Shape.antt =====
-- src/gate/taxonomy.rs: what of a leg is matched, which bodies are run, and the shapes that span
-- legs.
use apohara_agentguard.Prelude.{
  ℕ, Text, codes, Bool, false, not, ◌&&◌, ◌||◌, Option, none, some, List, [], ◌∷◌, ◌++◌, map,
  contains, contains_char, starts_with, eq_text, contains_text, trim, trim_start, split_char, ◌==◌,
  if◌then◌else◌,
}
use apohara_agentguard.Prelude.Words.{
  split_whitespace, contains_ignore_ascii_case, utf8_bytes, first_word,
}
use apohara_agentguard.Gate.Compound.{extract_double_quoted_substitutions}
use apohara_agentguard.Gate.Taxonomy.{m_fork_bomb}

abbrev message_verb : List Text → Bool
message_verb [] = false
message_verb (w ∷ ws) = contains_text (codes "commit" ∷ codes "tag" ∷ codes "notes" ∷ []) w

abbrev data_verb : List Text → Bool
data_verb [] = false
data_verb (verb ∷ ws) =
    eq_text verb (codes "echo")
    || eq_text verb (codes "printf")
    || (eq_text verb (codes "git") && message_verb ws)

unfoldable pub is_non_executing_verb : Text → Bool
is_non_executing_verb leg = data_verb (split_whitespace (trim_start leg))

abbrev is_comment : Text → Bool
is_comment leg = starts_with (trim_start leg) (codes "#")

abbrev is_quote : ℕ → Bool
is_quote c = c == b'"' || c == b'\''

-- The two loops of `strip_quoted_spans`: the quote that is open, when one is. Outside of quotes
-- the code emits each byte of the text as a char.
unfoldable strip_spans : Option ℕ → Text → Text
strip_spans quote [] = []
strip_spans none (c ∷ s) =
    (if is_quote c then c ∷ [] else utf8_bytes c)
    ++ strip_spans (if is_quote c then some c else none) s
strip_spans (some quote) (c ∷ s) =
    (if c == quote then c ∷ [] else []) ++ strip_spans (if c == quote then none else some quote) s

unfoldable strip_quoted_spans : Text → Text
unfolding strip_spans
strip_quoted_spans leg = strip_spans none leg

unfoldable pub effective_match_text : Text → Text
unfolding is_non_executing_verb strip_quoted_spans
effective_match_text leg =
    if is_comment leg
    then []
    else if is_non_executing_verb leg && (contains_char leg b'"' || contains_char leg b'\'')
    then strip_quoted_spans leg
    else leg

unfoldable pub live_substitution_bodies : Text → List Text
unfolding is_non_executing_verb
live_substitution_bodies leg =
    if not (contains leg (codes "$(")) && not (contains_char leg b'`')
    then []
    else if is_comment leg
    then []
    else if not (is_non_executing_verb leg)
    then []
    else extract_double_quoted_substitutions leg

abbrev head_word : Text → Text
head_word stage = elim (first_word (split_whitespace stage)) [ none ↦ [] | some w ↦ w ]

unfoldable is_shell_interpreter : Text → Bool
is_shell_interpreter head =
    contains_text
      (codes "sh"
        ∷ codes "bash"
        ∷ codes "zsh"
        ∷ codes "dash"
        ∷ codes "ksh"
        ∷ codes "fish"
        ∷ codes "eval"
        ∷ [])
      head
    || starts_with head (codes "python")
    || eq_text head (codes "perl")
    || eq_text head (codes "ruby")
    || eq_text head (codes "node")

abbrev is_fetch : Text → Bool
is_fetch head = eq_text head (codes "curl") || eq_text head (codes "wget")

-- The loop over the stages of a pipe: whether a shell reads after a fetch.
unfoldable shell_after_fetch : Bool → List Text → Bool
unfolding is_shell_interpreter
shell_after_fetch saw_fetch [] = false
shell_after_fetch saw_fetch (head ∷ heads) =
    (not (is_fetch head) && saw_fetch && is_shell_interpreter head)
    || shell_after_fetch (saw_fetch || is_fetch head) heads

abbrev names_fetch : Text → Bool
names_fetch command =
    contains_ignore_ascii_case command (codes "curl")
    || contains_ignore_ascii_case command (codes "wget")

-- The id, the severity and the category of a rule.
abbrev pub Triple : Type 0
Triple = Text × ℕ × Text

-- `stages.len() < 2` is not met once the command holds a `|`.
unfoldable pub fetch_pipe_to_shell : Text → Option Triple
unfolding shell_after_fetch
fetch_pipe_to_shell command =
    if not (contains_char command b'|') || not (names_fetch command)
    then none
    else if shell_after_fetch false
        (map (λ stage. head_word (trim stage)) (split_char b'|' command))
    then some (codes "curl-wget-pipe-shell", 9, codes "remote-exec")
    else none

unfoldable pub fork_bomb_presplit : Text → Option Triple
unfolding m_fork_bomb
fork_bomb_presplit command =
    if not (contains command (codes "(){"))
    then none
    else if m_fork_bomb command
    then some (codes "fork-bomb", 9, codes "dos")
    else none
