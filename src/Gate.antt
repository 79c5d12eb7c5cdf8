-- ===== src/Gate.antt =====
-- src/gate/mod.rs: the command gate, from a command line to a verdict.
pub mod Compound
pub mod Taxonomy
pub mod Decode
pub mod Resolve
pub mod Packs
pub mod Scan
pub mod Caught
pub mod Level
mod Tests
use apohara_agentguard.Prelude.{
  ℕ, zero, suc, Text, codes, Bool, true, false, not, ◌&&◌, ◌||◌, Option, none, some, List, [], ◌∷◌,
  ◌++◌, map, is_nil, is_empty, starts_with, contains_char, trim_start, contains_text, decimal, leb,
  ltb, ◌==◌, byte_len, if◌then◌else◌,
}
use apohara_agentguard.Prelude.Cut.{cut}
use apohara_agentguard.Verdict.{
  Tier, allow, warn, ask, block, Verdict, allow_verdict, warn_verdict, block_verdict, with_feedback,
  severity_to_tier,
}
use apohara_agentguard.Config.{Config, CustomBlock, is_allowed}
use apohara_agentguard.Policy.Matcher.{community_pattern_matches}
use apohara_agentguard.Gate.Compound.{split_compound}
use apohara_agentguard.Gate.Taxonomy.{DestructiveRule, rules}
use apohara_agentguard.Gate.Taxonomy.Shape.{
  Triple, effective_match_text, live_substitution_bodies, is_non_executing_verb,
  fetch_pipe_to_shell, fork_bomb_presplit,
}
use apohara_agentguard.Gate.Decode.{max_decode_depth, decode_and_expand, has_base64_decode_stage}
use apohara_agentguard.Gate.Resolve.Expand.{resolve_assignments}
use apohara_agentguard.Gate.Packs.{CommunityRule, community_matches, enabled_rules}
use apohara_agentguard.Gate.Scan.{
  Hit, Outside, Best, consider, consider_found, scan_unsplit, scan_each, scan_payload, scan_leg,
}

-- `rewritten.replace(*sep, " ")` for every separator
abbrev spaced : Text → Text → Text
spaced seps leg = map (λ c. if contains_char seps c then b' ' else c) leg

rebuild : Bool → Text → List Text → List Text
rebuild seen seps [] = []
rebuild seen seps (leg ∷ legs) =
    (if seen then spaced seps leg else leg)
    ∷ rebuild (seen || starts_with (trim_start leg) (codes "IFS=")) seps legs

module _ (o : Outside) (config : Config) (community : List CommunityRule) where
  abbrev is_blocking : Tier → Bool
  is_blocking block = true
  is_blocking _ = false

  only_block : Best → Best
  only_block none = none
  only_block (some hit) =
      if is_blocking (severity_to_tier hit.severity config.thresholds) then some hit else none

  unfoldable ifs_resplit_block : List Text → Text → Best
  unfolding rebuild only_block scan_leg
  ifs_resplit_block legs seps = only_block (
      scan_each (scan_leg o config community 0) (resolve_assignments (rebuild false seps legs))
        none)

  -- The scans of a command behind the normalization.
  unfoldable scan_command : Text → Text → Best
  unfolding ifs_resplit_block
  scan_command command seps =
      let legs = split_compound command in
      let decoded =
        scan_payload (scan_leg o config community 1)
          (decode_and_expand o.decode_base64 o.from_utf8 command 0) (scan_unsplit command none) in
      let best = scan_each (scan_leg o config community 0) (resolve_assignments legs) decoded in
      if is_nil seps then best else consider_found best (ifs_resplit_block legs seps)

  abbrev pub normalized : Text → Text × Text
  normalized command = if config.normalize then o.normalize_command command else (command, [])

abbrev truncate : Text → Text
truncate s = if leb (byte_len s) 200 then s else cut s 200 ++ codes "…"

abbrev leg_text : Hit → Text
leg_text hit = truncate hit.leg

-- `build_verdict`; `ask` is unreachable.
unfoldable build_verdict : Tier → Hit → Verdict
unfolding cut
build_verdict block hit =
    with_feedback
      (block_verdict
        (codes "blocked dangerous leg `" ++ leg_text hit ++ codes "` (" ++ hit.label ++ codes ")"))
      (codes "This command was blocked because the leg `"
        ++ leg_text hit
        ++ codes "` matches "
        ++ hit.label
        ++ codes ". If this is intentional, add it to the apohara-agentguard allow-list.")
build_verdict warn hit =
    with_feedback
      (warn_verdict
        (codes "flagged dangerous leg `" ++ leg_text hit ++ codes "` (" ++ hit.label ++ codes ")"))
      (codes "Caution: the leg `"
        ++ leg_text hit
        ++ codes "` matches "
        ++ hit.label
        ++ codes ". Proceed only if you understand the impact.")
build_verdict _ hit = allow_verdict

unfoldable worst_verdict : Config → Best → Verdict
unfolding build_verdict
worst_verdict config none = allow_verdict
worst_verdict config (some hit) =
    build_verdict (severity_to_tier hit.severity config.thresholds) hit

-- `community` is what `packs::community::active_rules` returns for the configuration.
unfoldable pub evaluate : Outside → List CommunityRule → Text → Config → Verdict
unfolding scan_command worst_verdict
evaluate o community command config =
    if config.disable
    then allow_verdict
    else if is_allowed config command
    then allow_verdict
    else let (text, seps) = normalized o config community command in
      worst_verdict config (scan_command o config community text seps)
