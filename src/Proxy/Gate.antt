-- ===== src/Proxy/Gate.antt =====
-- src/proxy/gate.rs: whether the relay lets a call of a tool through.
--
-- `policy` is the verdict of the policy on the call, and `outside` and `community` are those of the
-- command gate.
pub mod Denied
mod Tests
use apohara_agentguard.Prelude.{
  ℕ, Text, codes, Bool, true, false, not, ◌&&◌, ◌||◌, Option, none, some, List, [], ◌∷◌, ◌++◌, map,
  any, filter, reverse, is_empty, is_whitespace, contains_char, eq_text, contains_text, starts_with,
  strip_prefix, split_char, to_ascii_lowercase, byte_len, leb, if◌then◌else◌,
}
use apohara_agentguard.Prelude.Words.{split_whitespace, first_word}
use apohara_agentguard.Verdict.{Tier, allow, warn, ask, block, Verdict}
use apohara_agentguard.Config.{Config}
use apohara_agentguard.Gate.Packs.{CommunityRule}
use apohara_agentguard.Gate.Scan.{Outside}
use apohara_agentguard.Gate.{evaluate}

pub record GateDecision : Type 0 where
  pub allowed : Bool
  pub reason : Text

abbrev pub allow_call : GateDecision
allow_call = record { allowed = true; reason = [] }

abbrev pub deny_call : Text → GateDecision
deny_call reason = record { allowed = false; reason = reason }

pub data ArgValue : Type 0 where
  string : Text → ArgValue
  other : ArgValue

abbrev strict_deep_check_keys : List Text
strict_deep_check_keys = codes "command" ∷ codes "cmd" ∷ codes "script" ∷ []

-- `eq_ignore_ascii_case`
abbrev same_key : Text → Text → Bool
same_key k key = eq_text (to_ascii_lowercase k) (to_ascii_lowercase key)

abbrev pub is_strict : Text → Bool
is_strict key = any (λ k. same_key k key) strict_deep_check_keys

unfoldable pub is_deep_key : Text → Bool
is_deep_key key = leb (byte_len key) 7 && (is_strict key || same_key (codes "code") key)

abbrev stage_head : Text → Text
stage_head stage = elim (first_word (split_whitespace stage)) [ none ↦ [] | some w ↦ w ]

is_interpreter_head : Text → Bool
is_interpreter_head head =
    contains_text
      (codes "sh"
        ∷ codes "bash"
        ∷ codes "zsh"
        ∷ codes "dash"
        ∷ codes "ksh"
        ∷ codes "fish"
        ∷ codes "eval"
        ∷ [])
      head
    || starts_with head (codes "python")
    || eq_text head (codes "perl")
    || eq_text head (codes "ruby")
    || eq_text head (codes "node")

abbrev is_fetch_head : Text → Bool
is_fetch_head head = eq_text head (codes "curl") || eq_text head (codes "wget")

piped_heads : Bool → List Text → Bool
unfolding is_interpreter_head
piped_heads saw_fetch [] = false
piped_heads saw_fetch (head ∷ heads) =
    (not (is_fetch_head head) && saw_fetch && is_interpreter_head head)
    || piped_heads (saw_fetch || is_fetch_head head) heads

pipe_to_shell_shape : Text → Bool
unfolding piped_heads
pipe_to_shell_shape code = piped_heads false (map stage_head (split_char b'|' code))

abbrev name_before : Text → Text
name_before [] = []
name_before (c ∷ s) =
    let rest = name_before s in if contains_char (codes "(){}|&;") c then [] else c ∷ rest

abbrev same_slots : Text → Option Text → Bool
same_slots x none = false
same_slots x (some rest) =
    not (is_empty x) && starts_with rest (x ++ codes "|" ++ x ++ codes "&};" ++ x)

-- The loop over the pivots, with the text in front, its last char first.
bomb_from : Text → Text → Bool
bomb_from before [] = false
bomb_from before (c ∷ s) =
    same_slots (reverse (name_before before)) (strip_prefix (c ∷ s) (codes "(){"))
    || bomb_from (c ∷ before) s

unfoldable pub fork_bomb_shape : Text → Bool
unfolding bomb_from
fork_bomb_shape code = bomb_from [] (filter (λ c. not (is_whitespace c)) code)

unfoldable pub high_confidence_destructive : Text → Bool
unfolding pipe_to_shell_shape fork_bomb_shape
high_confidence_destructive code = pipe_to_shell_shape code || fork_bomb_shape code

abbrev pub is_blocked : Verdict → Bool
is_blocked v = elim v.tier [ block ↦ true | _ ↦ false ]

module _ (outside : Outside) (community : List CommunityRule) (config : Config) where
  -- The deep check of one argument: the denial, when it gives one.
  unfoldable check_text : Text → Text → Option GateDecision
  unfolding high_confidence_destructive
  check_text key code =
      if is_strict key
      then (if is_blocked (evaluate outside community code config)
          then some (
              deny_call (
                codes "deep check on argument `"
                ++ key
                ++ codes "`: "
                ++ (evaluate outside community code config).reason))
          else none)
      else if high_confidence_destructive code
      then some (
          deny_call (
            codes "deep check on argument `"
            ++ key
            ++ codes
                "`: high-confidence destructive shape (fetch-piped-to-shell or fork-bomb) in content-authoring argument"))
      else none

  unfoldable check_argument : Text → ArgValue → Option GateDecision
  unfolding check_text is_deep_key
  check_argument key (string code) = if is_deep_key key then check_text key code else none
  check_argument key other = none

  abbrev first_denial : Option GateDecision → GateDecision → GateDecision
  first_denial none later = later
  first_denial (some d) later = d

  -- The loop over the arguments, and the default.
  unfoldable deep_check : List (Text × ArgValue) → GateDecision
  unfolding check_argument
  deep_check [] = allow_call
  deep_check ((key, arg) ∷ args) = first_denial (check_argument key arg) (deep_check args)

  unfoldable after_policy : Text → List (Text × ArgValue) → Verdict → Tier → GateDecision
  unfolding deep_check
  after_policy tool args policy block =
      deny_call (codes "policy rule for tool `" ++ tool ++ codes "`: " ++ policy.reason)
  after_policy tool args policy ask =
      deny_call (codes "ask degraded to deny_call on transport proxy: " ++ policy.reason)
  after_policy tool args policy _ = deep_check args

  -- The arguments are the members of an object, or none for another value.
  unfoldable pub evaluate_tool_call : Verdict → Text → List (Text × ArgValue) → GateDecision
  unfolding after_policy
  evaluate_tool_call policy tool args =
      if config.disable then allow_call else after_policy tool args policy policy.tier
