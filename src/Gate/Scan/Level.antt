-- ===== src/Gate/Scan/Level.antt =====
-- src/gate/mod.rs: the scans do not read the level of the configuration.
use apohara_agentguard.Prelude.{ℕ, zero, suc, ◌≡◌, refl, ap, ◌∙◌, Text, Option, none, some, List}
use apohara_agentguard.Config.{Config}
use apohara_agentguard.Gate.Decode.{decode_and_expand}
use apohara_agentguard.Gate.Packs.{CommunityRule}
use apohara_agentguard.Gate.Scan.{
  Outside, Best, Scan, scan_bodies, scan_tables, cap_reached, scan_decoded, leg_round, body_round,
  scan_both, scan_leg, enough,
}

module _ (o : Outside) (community : List CommunityRule) (config : Config)
    (level : Option Text) where
  abbrev pub levelled : Config
  levelled = record config { level = level }

  scan_decoded_level :
      (next : Scan) (leg : Text) (depth : ℕ) (payload : Option Text) (best : Best)
      → scan_decoded o levelled community next leg depth payload best
        ≡ scan_decoded o config community next leg depth payload best
  unfolding scan_decoded cap_reached
  scan_decoded_level next leg depth none best = refl
  scan_decoded_level next leg depth (some decoded) best = refl

  leg_round_level :
      (next_leg next_body : Scan) (depth : ℕ)
      → leg_round o levelled community next_leg next_body depth
        ≡ leg_round o config community next_leg next_body depth
  unfolding leg_round scan_tables
  leg_round_level next_leg next_body depth = λ i leg best. scan_bodies next_body depth leg (
      scan_decoded_level next_leg leg depth
        (decode_and_expand o.decode_base64 o.from_utf8 leg depth)
        (scan_tables o config community leg best) i)

  scan_both_level :
      (fuel depth : ℕ)
      → scan_both o levelled community fuel depth ≡ scan_both o config community fuel depth
  unfolding scan_both body_round
  scan_both_level zero depth = refl
  scan_both_level (suc fuel) depth =
      ap
        (λ (next : Scan × Scan).
          let this = leg_round o levelled community next.0 next.1 depth in
          (this, body_round o levelled community this next.0 next.1 depth))
        (scan_both_level fuel (suc depth))
      ∙ (let next = scan_both o config community fuel (suc depth) in
          ap (λ (this : Scan). (this, body_round o config community this next.0 next.1 depth))
            (leg_round_level next.0 next.1 depth))

  pub scan_leg_level :
      (depth : ℕ) → scan_leg o levelled community depth ≡ scan_leg o config community depth
  unfolding scan_leg
  scan_leg_level depth =
      ap (λ (both : Scan × Scan). both.0) (scan_both_level (enough o config community) depth)
