-- ===== src/Gate/Scan/Legs.antt =====
-- src/gate/mod.rs: the tables that the scan of a leg walks.
use apohara_agentguard.Prelude.{ℕ, zero, suc, Text, true, Option, none, some, List, In, ◌≡◌}
use apohara_agentguard.Config.{Config, CustomBlock}
use apohara_agentguard.Gate.Compound.{split_compound}
use apohara_agentguard.Gate.Taxonomy.{DestructiveRule, rules}
use apohara_agentguard.Gate.Taxonomy.Shape.{effective_match_text}
use apohara_agentguard.Gate.Packs.{CommunityRule, community_matches, enabled_rules}
use apohara_agentguard.Gate.Decode.{decode_and_expand}
use apohara_agentguard.Gate.Scan.{
  Outside, Best, Scan, custom_block_matches, scan_tables, cap_reached, scan_decoded, leg_round,
  scan_both, scan_leg, max_subst_depth, enough,
}
use apohara_agentguard.Gate.Scan.Grows.{
  Reaches, Grows, ScanGrows, if-Grows, scan_table-Grows, scan_community-Grows, scan_custom-Grows,
  scan_table-Reaches, scan_community-Reaches, scan_custom-Reaches, scan_each-Grows,
  scan_bodies-Grows,
}

module _ (o : Outside) (config : Config) (community : List CommunityRule) where
  cap_reached-Grows : (leg : Text) (depth : ℕ) → Grows (cap_reached o config community leg depth)
  unfolding cap_reached
  cap_reached-Grows leg depth severity best h = if-Grows _ _ severity best h

  scan_decoded-Grows :
      (next : Scan)
      → ScanGrows next
      → (leg : Text) (depth : ℕ) (payload : Option Text)
      → Grows (scan_decoded o config community next leg depth payload)
  unfolding scan_decoded
  scan_decoded-Grows next g leg depth none severity best h =
      cap_reached-Grows leg depth severity best h
  scan_decoded-Grows next g leg depth (some decoded) severity best h =
      scan_each-Grows next g (split_compound decoded) severity best h

  scan_tables-Grows : ScanGrows (scan_tables o config community)
  unfolding scan_tables
  scan_tables-Grows leg severity best h = scan_custom-Grows leg config.custom_blocks severity _ (
      scan_community-Grows leg _ community severity _ (
        scan_table-Grows leg _ (enabled_rules o.is_match config.packs) severity _
          (scan_table-Grows leg _ (rules o.is_match) severity best h)))

  leg_round-Reaches :
      (next_leg next_body : Scan) (depth : ℕ)
      → ScanGrows next_leg
      → (leg : Text) (severity : ℕ) (best : Best)
      → Reaches severity (scan_tables o config community leg best)
      → Reaches severity (leg_round o config community next_leg next_body depth leg best)
  unfolding leg_round
  leg_round-Reaches next_leg next_body depth g leg severity best h =
      let payload = decode_and_expand o.decode_base64 o.from_utf8 leg depth in
      let begun = scan_tables o config community leg best in
      scan_bodies-Grows next_body depth leg severity
        (scan_decoded o config community next_leg leg depth payload begun)
        (scan_decoded-Grows next_leg g leg depth payload severity begun h)

  scan_both-Grows : (fuel depth : ℕ) → ScanGrows (scan_both o config community fuel depth).0
  unfolding scan_both
  scan_both-Grows zero depth leg severity best h = h
  scan_both-Grows (suc fuel) depth leg severity best h =
      leg_round-Reaches (scan_both o config community fuel (suc depth)).0
        (scan_both o config community fuel (suc depth)).1 depth (scan_both-Grows fuel (suc depth))
        leg severity best (scan_tables-Grows leg severity best h)

  pub scan_leg-Grows : (depth : ℕ) → ScanGrows (scan_leg o config community depth)
  unfolding scan_leg
  scan_leg-Grows depth leg severity best h =
      scan_both-Grows (enough o config community) depth leg severity best h

  -- What the tables reach on a leg, the scan of the leg does.
  pub scan_leg-Reaches :
      (depth severity : ℕ) (leg : Text) (best : Best)
      → Reaches severity (scan_tables o config community leg best)
      → Reaches severity (scan_leg o config community depth leg best)
  unfolding scan_leg scan_both
  scan_leg-Reaches depth severity leg best h =
      leg_round-Reaches (scan_both o config community max_subst_depth (suc depth)).0
        (scan_both o config community max_subst_depth (suc depth)).1 depth
        (scan_both-Grows max_subst_depth (suc depth)) leg severity best h

  -- A rule on a leg: built in, of an enabled pack, of a community pack, or a custom block.
  pub data Catches (leg : Text) (severity : ℕ) : Type 0 where
    built_in :
        (r : DestructiveRule)
        → In r (rules o.is_match)
        → r.matcher (effective_match_text leg) ≡ true
        → r.severity ≡ severity
        → Catches leg severity
    of_pack :
        (r : DestructiveRule)
        → In r (enabled_rules o.is_match config.packs)
        → r.matcher (effective_match_text leg) ≡ true
        → r.severity ≡ severity
        → Catches leg severity
    of_community :
        (r : CommunityRule)
        → In r community
        → community_matches r (effective_match_text leg) ≡ true
        → r.severity ≡ severity
        → Catches leg severity
    of_custom :
        (cb : CustomBlock)
        → In cb config.custom_blocks
        → custom_block_matches cb leg ≡ true
        → cb.severity ≡ severity
        → Catches leg severity

  pub scan_tables-Reaches :
      (leg : Text) (severity : ℕ)
      → Catches leg severity
      → (best : Best) → Reaches severity (scan_tables o config community leg best)
  unfolding scan_tables
  scan_tables-Reaches leg severity (built_in r m h e) best =
      let text = effective_match_text leg in
      scan_custom-Grows leg config.custom_blocks severity _ (
        scan_community-Grows leg text community severity _ (
          scan_table-Grows leg text (enabled_rules o.is_match config.packs) severity _
            (rw (← e) (scan_table-Reaches leg text (rules o.is_match) best r m h))))
  scan_tables-Reaches leg severity (of_pack r m h e) best =
      let text = effective_match_text leg in
      scan_custom-Grows leg config.custom_blocks severity _ (
        scan_community-Grows leg text community severity _
          (rw (← e) (scan_table-Reaches leg text (enabled_rules o.is_match config.packs) _ r m h)))
  scan_tables-Reaches leg severity (of_community r m h e) best =
      let text = effective_match_text leg in
      scan_custom-Grows leg config.custom_blocks severity _
        (rw (← e) (scan_community-Reaches leg text community _ r m h))
  scan_tables-Reaches leg severity (of_custom cb m h e) best =
      rw (← e) (scan_custom-Reaches leg config.custom_blocks _ cb m h)
