-- ===== src/Gate/Taxonomy.antt =====
-- src/gate/taxonomy.rs: the built-in destructive rules and their matchers.
--
-- `is_match pattern s` stands for the regex library's `Regex::new(pattern).is_match(s)`.
pub mod Shape
mod Tests
use apohara_agentguard.Prelude.{
  ℕ, suc, String, Text, codes, Bool, true, false, not, ◌&&◌, ◌||◌, Option, none, some, List, [],
  ◌∷◌, ◌++◌, reverse, any, filter, is_empty, is_whitespace, contains, contains_char, starts_with,
  strip_prefix, if◌then◌else◌,
}
use apohara_agentguard.Prelude.Words.{contains_ignore_ascii_case}

pub record DestructiveRule : Type 0 where
  pub id : Text
  pub severity : ℕ
  pub category : Text
  pub matcher : Text → Bool

abbrev has : Text → String → Bool
has s needle = contains_ignore_ascii_case s (codes needle)

-- The run of chars in front of a pivot, nearest first, up to a delimiter.
abbrev until_delimiter : Text → Text
until_delimiter [] = []
until_delimiter (c ∷ s) =
    let rest = until_delimiter s in if contains_char (codes "(){}|&;") c then [] else c ∷ rest

abbrev repeats_name : Text → Option Text → Bool
repeats_name x none = false
repeats_name x (some rest) =
    not (is_empty x) && starts_with rest (x ++ codes "|" ++ x ++ codes "&};" ++ x)

-- The loop over the pivots `(){`; the first text is what stands in front, its last char first.
unfoldable slots_same_from : Text → Text → Bool
slots_same_from before [] = false
slots_same_from before (c ∷ s) =
    repeats_name (reverse (until_delimiter before)) (strip_prefix (c ∷ s) (codes "(){"))
    || slots_same_from (c ∷ before) s

unfoldable fork_bomb_slots_same : Text → Bool
unfolding slots_same_from
fork_bomb_slots_same compact = slots_same_from [] compact

-- The two branches of the code are the filter of a text without white space and of any other.
unfoldable pub m_fork_bomb : Text → Bool
unfolding fork_bomb_slots_same
m_fork_bomb s =
    contains s (codes "(){") && fork_bomb_slots_same (filter (λ c. not (is_whitespace c)) s)

module _ (is_match : Text → Text → Bool) where
  abbrev re : Text → String → Bool
  re s pattern = is_match (codes pattern) s

  abbrev m_rm_rf : Text → Bool
  m_rm_rf s =
      contains_char s b'-'
      && has s "rm"
      && re s "(?i)\\brm\\b[^|;&\\n]*\\s-[a-z]*r[a-z]*f|(?i)\\brm\\b[^|;&\\n]*\\s-[a-z]*f[a-z]*r"

  abbrev m_find_delete : Text → Bool
  m_find_delete s = has s "find" && has s "delete" && re s "(?i)\\bfind\\b.*-delete\\b"

  abbrev m_find_exec_rm : Text → Bool
  m_find_exec_rm s = has s "find" && has s "rm" && re s "(?i)\\bfind\\b.*-exec\\s+rm\\b"

  abbrev m_dd : Text → Bool
  m_dd s = has s "dd" && has s "if=" && re s "(?i)\\bdd\\b[^|;&\\n]*\\sif="

  abbrev m_mkfs : Text → Bool
  m_mkfs s = has s "mkfs" && re s "(?i)\\bmkfs(\\.\\w+)?\\b"

  abbrev m_chmod_777 : Text → Bool
  m_chmod_777 s =
      has s "chmod"
      && (re s "(?i)\\bchmod\\b[^|;&\\n]*\\s0?777\\b"
          || re s "(?i)\\bchmod\\b[^|;&\\n]*\\s(ugo|a)\\s*[+=]\\s*rwx\\b")

  abbrev m_chmod_recursive : Text → Bool
  m_chmod_recursive s =
      contains_char s b'-'
      && has s "chmod"
      && re s "(?i)\\bchmod\\b[^|;&\\n]*\\s(-[a-z]*R|--recursive\\b)"

  abbrev m_chown_recursive_root : Text → Bool
  m_chown_recursive_root s =
      contains_char s b'/'
      && contains_char s b'-'
      && has s "chown"
      && re s "(?i)\\bchown\\b[^|;&\\n]*\\s-[a-z]*R[^|;&\\n]*\\s/(\\s|$)"

  abbrev m_chmod_recursive_777_root : Text → Bool
  m_chmod_recursive_777_root s =
      contains_char s b'/'
      && contains_char s b'-'
      && has s "chmod"
      && (re s
            "(?i)\\bchmod\\b[^|;&\\n]*\\s(-[a-z]*R[a-z]*\\b|--recursive\\b)[^|;&\\n]*\\s0?777\\b[^|;&\\n]*\\s/(\\s|$)"
          || re s
              "(?i)\\bchmod\\b[^|;&\\n]*\\s0?777\\b[^|;&\\n]*\\s(-[a-z]*R[a-z]*\\b|--recursive\\b)[^|;&\\n]*\\s/(\\s|$)")

  abbrev m_write_block_device : Text → Bool
  m_write_block_device s =
      has s "/dev/" && re s "(?i)(>|of=)\\s*/dev/(sd[a-z]|nvme\\d+n\\d+|vd[a-z]|hd[a-z]|mmcblk\\d+)"

  abbrev m_mv_to_devnull : Text → Bool
  m_mv_to_devnull s =
      has s "mv" && has s "/dev/null" && re s "(?i)\\bmv\\b[^|;&\\n]*\\s/dev/null\\b"

  abbrev m_fetch_run_inline : Text → Bool
  m_fetch_run_inline s =
      (has s "curl" || has s "wget")
      && re s "(?i)\\b(bash|sh|zsh|eval|python\\d?|perl|ruby)\\b.*\\$\\(\\s*(curl|wget)\\b"

  abbrev pub rule : String → ℕ → String → (Text → Bool) → DestructiveRule
  rule id severity category matcher = record {
    id = codes id;
    severity = severity;
    category = codes category;
    matcher = matcher;
  }

  unfoldable pub rules : List DestructiveRule
  rules =
      rule "rm-rf" 9 "destructive" m_rm_rf
      ∷ rule "find-delete" 8 "destructive" m_find_delete
      ∷ rule "find-exec-rm" 8 "destructive" m_find_exec_rm
      ∷ rule "dd-overwrite" 8 "destructive" m_dd
      ∷ rule "mkfs" 9 "destructive" m_mkfs
      ∷ rule "chmod-777" 6 "permissions" m_chmod_777
      ∷ rule "chmod-recursive" 6 "permissions" m_chmod_recursive
      ∷ rule "chmod-recursive-777-root" 9 "permissions" m_chmod_recursive_777_root
      ∷ rule "chown-recursive-root" 9 "permissions" m_chown_recursive_root
      ∷ rule "fork-bomb" 9 "dos" m_fork_bomb
      ∷ rule "write-block-device" 9 "destructive" m_write_block_device
      ∷ rule "mv-to-devnull" 7 "destructive" m_mv_to_devnull
      ∷ rule "fetch-run-inline" 8 "remote-exec" m_fetch_run_inline
      ∷ []
