-- ===== src/Gate/Scan.antt =====
-- src/gate/mod.rs: the scan of a leg and of the body of a substitution, and the best hit.
pub mod Grows
pub mod Legs
pub mod Fuel
pub mod Level
use apohara_agentguard.Prelude.{
  ℕ, zero, suc, Text, codes, Bool, true, false, not, ◌&&◌, ◌||◌, Option, none, some, List, [], ◌∷◌,
  ◌++◌, map, is_nil, is_empty, starts_with, trim_start, contains_text, decimal, leb, ltb, ◌==◌,
  byte_len, if◌then◌else◌,
}
use apohara_agentguard.Prelude.Cut.{cut}
use apohara_agentguard.Verdict.{
  Tier, allow, warn, ask, block, Verdict, allow_verdict, warn_verdict, block_verdict, with_feedback,
  severity_to_tier,
}
use apohara_agentguard.Config.{Config, CustomBlock, is_allowed}
use apohara_agentguard.Policy.Matcher.{community_pattern_matches}
use apohara_agentguard.Gate.Compound.{split_compound}
use apohara_agentguard.Gate.Taxonomy.{DestructiveRule, rules}
use apohara_agentguard.Gate.Taxonomy.Shape.{
  Triple, effective_match_text, live_substitution_bodies, is_non_executing_verb,
  fetch_pipe_to_shell, fork_bomb_presplit,
}
use apohara_agentguard.Gate.Decode.{max_decode_depth, decode_and_expand, has_base64_decode_stage}
use apohara_agentguard.Gate.Resolve.Expand.{resolve_assignments}
use apohara_agentguard.Gate.Packs.{CommunityRule, community_matches, enabled_rules}

pub record Hit : Type 0 where
  pub severity : ℕ
  pub leg : Text
  pub label : Text

abbrev pub max_subst_depth : ℕ
max_subst_depth = 4

-- What the gate asks of the libraries, and of `normalize::normalize_command`: the rewritten command
-- and the separators that an `IFS` assignment adds.
pub record Outside : Type 0 where
  pub is_match : Text → Text → Bool
  pub decode_base64 : Text → Option (List ℕ)
  pub from_utf8 : List ℕ → Option Text
  pub normalize_command : Text → Text × Text

abbrev pub Best : Type 0
Best = Option Hit

-- `consider` and `consider_ref`
unfoldable pub consider : Best → Hit → Best
consider none hit = some hit
consider (some existing) hit =
    if leb hit.severity existing.severity then some existing else some hit

unfoldable pub consider_found : Best → Best → Best
unfolding consider
consider_found best none = best
consider_found best (some hit) = consider best hit

abbrev bracketed : Text → Text → Text
bracketed category id = category ++ codes " [" ++ id ++ codes "]"

unfoldable scan_table : Text → Text → List DestructiveRule → Best → Best
unfolding consider
scan_table leg text [] best = best
scan_table leg text (r ∷ rs) best = scan_table leg text rs (
    if r.matcher text
    then consider best
        (record { severity = r.severity; leg = leg; label = bracketed r.category r.id })
    else best)

unfoldable scan_community : Text → Text → List CommunityRule → Best → Best
unfolding consider
scan_community leg text [] best = best
scan_community leg text (r ∷ rs) best = scan_community leg text rs (
    if community_matches r text
    then consider best
        (record { severity = r.severity; leg = leg; label = bracketed r.category r.id })
    else best)

abbrev pub custom_block_matches : CustomBlock → Text → Bool
custom_block_matches cb leg = community_pattern_matches cb.pattern leg

unfoldable scan_custom : Text → List CustomBlock → Best → Best
unfolding consider
scan_custom leg [] best = best
scan_custom leg (cb ∷ cbs) best = scan_custom leg cbs (
    if custom_block_matches cb leg
    then consider best (record {
      severity = cb.severity;
      leg = leg;
      label = bracketed (codes "custom-block") cb.category;
    })
    else best)

unfoldable consider_triple : Text → Text → Option Triple → Best → Best
unfolding consider
consider_triple text label none best = best
consider_triple text label (some (id, severity, category)) best =
    consider best (record { severity = severity; leg = text; label = bracketed label id })

-- The two checks of an unsplit text.
unfoldable pub scan_unsplit : Text → Best → Best
unfolding consider_triple
scan_unsplit text best =
    consider_triple text (codes "dos") (fork_bomb_presplit text)
      (consider_triple text (codes "fetch-piped-to-shell") (fetch_pipe_to_shell text) best)

-- A scan of one text, folded into the best hit.
abbrev pub Scan : Type 0
Scan = Text → Best → Best

unfoldable pub scan_each : Scan → List Text → Best → Best
scan_each scan [] best = best
scan_each scan (t ∷ ts) best = scan_each scan ts (scan t best)

-- A scan into a best hit of its own, which is then considered.
unfoldable apart : Scan → Scan
unfolding consider_found
apart scan t best = consider_found best (scan t none)

unfoldable scan_bodies : Scan → ℕ → Text → Best → Best
unfolding scan_each apart
scan_bodies next depth leg best =
    if ltb depth max_subst_depth
    then scan_each (apart next) (live_substitution_bodies leg) best
    else best

unfoldable pub scan_payload : Scan → Option Text → Best → Best
unfolding scan_each
scan_payload next none best = best
scan_payload next (some decoded) best = scan_each next (split_compound decoded) best

unfoldable body_leg : Scan → Scan → ℕ → Scan
unfolding scan_bodies apart
body_leg this_leg next_body depth leg best =
    if is_non_executing_verb leg
    then scan_bodies next_body depth leg best
    else apart this_leg leg best

module _ (o : Outside) (config : Config) (community : List CommunityRule) where
  -- The rules, packs, community rules and custom blocks on one leg.
  unfoldable scan_tables : Text → Best → Best
  unfolding scan_table scan_community scan_custom
  scan_tables leg best =
      let text = effective_match_text leg in
      scan_custom leg config.custom_blocks (
        scan_community leg text community (
          scan_table leg text (enabled_rules o.is_match config.packs)
            (scan_table leg text (rules o.is_match) best)))

  unfoldable cap_reached : Text → ℕ → Best → Best
  unfolding consider
  cap_reached leg depth best =
      if leb max_decode_depth (suc depth) && has_base64_decode_stage leg
      then consider best (record {
        severity = config.thresholds.warn_at;
        leg = leg;
        label = codes "base64-decode-cap";
      })
      else best

  -- The decoded payload of a leg, scanned by `next` one level deeper.
  unfoldable scan_decoded : Scan → Text → ℕ → Option Text → Best → Best
  unfolding scan_each cap_reached
  scan_decoded next leg depth (some decoded) best = scan_each next (split_compound decoded) best
  scan_decoded next leg depth none best = cap_reached leg depth best

  -- `scan_leg`, with the scans of a leg and of a body one level deeper.
  unfoldable leg_round : Scan → Scan → ℕ → Scan
  unfolding scan_tables scan_decoded scan_bodies
  leg_round next_leg next_body depth leg best = scan_bodies next_body depth leg (
      scan_decoded next_leg leg depth (decode_and_expand o.decode_base64 o.from_utf8 leg depth)
        (scan_tables leg best))

  -- `scan_substitution_body`, with the scan of a leg at the same level too.
  unfoldable body_round : Scan → Scan → Scan → ℕ → Scan
  unfolding scan_unsplit scan_payload body_leg
  body_round this_leg next_leg next_body depth body best =
      scan_each (body_leg this_leg next_body depth) (split_compound body) (
        scan_payload next_leg
          (if ltb depth max_decode_depth
            then decode_and_expand o.decode_base64 o.from_utf8 body depth
            else none)
          (scan_unsplit body best))

  -- The two scans at a depth. The depth grows with each level and ends the recursion at
  -- `max_subst_depth`, so `max_subst_depth + 1` levels of fuel are enough from depth 0.
  unfoldable pub scan_both : ℕ → ℕ → Scan × Scan
  unfolding leg_round body_round
  scan_both zero depth = (λ t best. best, λ t best. best)
  scan_both (suc fuel) depth =
      let next = scan_both fuel (suc depth) in
      let this = leg_round next.0 next.1 depth in (this, body_round this next.0 next.1 depth)

  abbrev pub enough : ℕ
  enough = suc max_subst_depth

  unfoldable pub scan_leg : ℕ → Scan
  unfolding scan_both
  scan_leg depth leg best = (scan_both enough depth).0 leg best
