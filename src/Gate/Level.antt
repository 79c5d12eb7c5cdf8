-- ===== src/Gate/Level.antt =====
-- src/gate/mod.rs: the gate reads the cutoffs of the configuration, and not those of its level.
use apohara_agentguard.Prelude.{
  ℕ, ◌≡◌, refl, ap, ◌∙◌, Text, false, Option, none, some, List, is_nil, if◌then◌else◌,
}
use apohara_agentguard.Config.{Config, is_allowed}
use apohara_agentguard.Gate.Decode.{decode_and_expand}
use apohara_agentguard.Gate.Packs.{CommunityRule}
use apohara_agentguard.Gate.Compound.{split_compound}
use apohara_agentguard.Gate.Resolve.Expand.{resolve_assignments}
use apohara_agentguard.Gate.Scan.{
  Outside, Best, Scan, scan_payload, scan_each, scan_leg, scan_unsplit, consider_found,
}
use apohara_agentguard.Gate.{
  evaluate, worst_verdict, scan_command, ifs_resplit_block, rebuild, only_block, normalized,
}
use apohara_agentguard.Verdict.{allow_verdict}
use apohara_agentguard.Gate.Scan.Level.{levelled, scan_leg_level}

module _ (o : Outside) (community : List CommunityRule) (config : Config)
    (level : Option Text) where
  only_block_level :
      (best : Best)
      → only_block o (levelled o community config level) community best
        ≡ only_block o config community best
  unfolding only_block
  only_block_level none = refl
  only_block_level (some hit) = refl

  verdict_of_level :
      (best : Best)
      → worst_verdict (levelled o community config level) best ≡ worst_verdict config best
  unfolding worst_verdict
  verdict_of_level none = refl
  verdict_of_level (some hit) = refl

  scan_command_level :
      (text seps : Text)
      → scan_command o (levelled o community config level) community text seps
        ≡ scan_command o config community text seps
  unfolding scan_command ifs_resplit_block
  scan_command_level text seps =
      ap
        (λ (scan : ℕ → Scan).
          let legs = split_compound text in
          let decoded =
            scan_payload (scan 1) (decode_and_expand o.decode_base64 o.from_utf8 text 0)
              (scan_unsplit text none) in
          let best = scan_each (scan 0) (resolve_assignments legs) decoded in
          if is_nil seps
          then best
          else consider_found best (
              only_block o (levelled o community config level) community
                (scan_each (scan 0) (resolve_assignments (rebuild false seps legs)) none)))
        (λ i depth. scan_leg_level o community config level depth i)
      ∙ (let legs = split_compound text in
          let resplit =
            scan_each (scan_leg o config community 0)
              (resolve_assignments (rebuild false seps legs)) none in
          let best = scan_each (scan_leg o config community 0) (resolve_assignments legs) (
            scan_payload (scan_leg o config community 1)
              (decode_and_expand o.decode_base64 o.from_utf8 text 0) (scan_unsplit text none)) in
          ap (λ (found : Best). if is_nil seps then best else consider_found best found)
            (only_block_level resplit))

  -- The level of the configuration has no effect on the verdict of the gate.
  pub evaluate_level :
      (command : Text)
      → evaluate o community command (record config { level = level })
        ≡ evaluate o community command config
  unfolding evaluate is_allowed
  evaluate_level command =
      let (text, seps) = normalized o config community command in
      ap
        (λ v.
          if config.disable
          then allow_verdict
          else if is_allowed config command
          then allow_verdict
          else v)
        (verdict_of_level (scan_command o (levelled o community config level) community text seps)
          ∙ ap (worst_verdict config) (scan_command_level text seps))
