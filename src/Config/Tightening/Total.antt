-- ===== src/Config/Tightening/Total.antt =====
-- The `expect` of `merge_tightening`, and the check in front of it.
use apohara_agentguard.Prelude.{
  Text, List, [], ◌∷◌, ◌≢◌, arith, inl, inr, Bool-cases, err, bind-ne-err,
}
use apohara_agentguard.Verdict.{Thresholds}
use apohara_agentguard.Config.{Config, CustomBlock, ToolRule}
use apohara_agentguard.Config.Tightening.Lists.{merge_disabled-ne-panic}
use apohara_agentguard.Config.Tightening.{
  TighteningPresence, Violation, unreachable_expect, added_allowance, dropped_pack,
  dropped_community_pack, check_subset, check_blocks_kept, merge_thresholds, merge_allow_list,
  merge_custom_blocks, weaker_than, find_rule, check_rules, merge_tool_rules, merge_disable,
  merge_disabled, merge_normalize, merge_packs, merge_community_enabled, merge_community_dir,
  merge_policy, merge_tightening,
}

check_subset-ne-panic :
    (why : Text → Violation) (xs known : List Text)
    → ((x : Text) → why x ≢ unreachable_expect)
    → check_subset why xs known ≢ err unreachable_expect
unfolding check_subset
check_subset-ne-panic why [] known n h = cc
check_subset-ne-panic why (x ∷ xs) known n h =
    ground (arith, n x, check_subset-ne-panic why xs known n)

check_blocks_kept-ne-panic :
    (user project : List CustomBlock) → check_blocks_kept user project ≢ err unreachable_expect
unfolding check_blocks_kept
check_blocks_kept-ne-panic [] project h = cc
check_blocks_kept-ne-panic (u ∷ us) project h =
    ground (arith, check_blocks_kept-ne-panic us project)

check_rules-ne-panic :
    (eff : Thresholds) (prs base : List ToolRule)
    → check_rules eff prs base ≢ err unreachable_expect
unfolding check_rules
check_rules-ne-panic eff [] base h = cc
check_rules-ne-panic eff (pr ∷ prs) base h =
    elim (Bool-cases (weaker_than eff (find_rule base pr) pr)) [
      | inl e ↦ cc (rw e at h)
      | inr e ↦ check_rules-ne-panic eff prs base (rw e at h)
    ]

module _ (base overlay : Config) (p : TighteningPresence) where
  thresholds_total : merge_thresholds base overlay p ≢ err unreachable_expect
  unfolding merge_thresholds
  thresholds_total h = ground arith

  allow_list_total : merge_allow_list base overlay p ≢ err unreachable_expect
  unfolding merge_allow_list
  allow_list_total h = ground (
    arith,
    check_subset-ne-panic added_allowance overlay.allow_list base.allow_list (λ x. cc_ne x),
  )
    where
      cc_ne : (x : Text) → added_allowance x ≢ unreachable_expect
      cc_ne x e = cc

  blocks_total : merge_custom_blocks base overlay p ≢ err unreachable_expect
  unfolding merge_custom_blocks
  blocks_total h =
      ground (arith, check_blocks_kept-ne-panic base.custom_blocks overlay.custom_blocks)

  rules_total : (eff : Thresholds) → merge_tool_rules eff base overlay p ≢ err unreachable_expect
  unfolding merge_tool_rules
  rules_total eff h = ground (arith, check_rules-ne-panic eff overlay.tool_rules base.tool_rules)

  disable_total : merge_disable base overlay p ≢ err unreachable_expect
  unfolding merge_disable
  disable_total h = ground arith

  normalize_total : merge_normalize base overlay p ≢ err unreachable_expect
  unfolding merge_normalize
  normalize_total h = ground arith

  packs_total : merge_packs base overlay p ≢ err unreachable_expect
  unfolding merge_packs
  packs_total h =
      ground (arith, check_subset-ne-panic dropped_pack base.packs overlay.packs (λ x. ne x))
    where
      ne : (x : Text) → dropped_pack x ≢ unreachable_expect
      ne x e = cc

  enabled_total : merge_community_enabled base overlay p ≢ err unreachable_expect
  unfolding merge_community_enabled
  enabled_total h = ground (
    arith,
    check_subset-ne-panic dropped_community_pack base.community_packs.enabled
        overlay.community_packs.enabled (λ x. ne x),
  )
    where
      ne : (x : Text) → dropped_community_pack x ≢ unreachable_expect
      ne x e = cc

  dir_total : merge_community_dir base overlay p ≢ err unreachable_expect
  unfolding merge_community_dir
  dir_total h = ground arith

  policy_total : merge_policy base overlay p ≢ err unreachable_expect
  unfolding merge_policy
  policy_total h = ground arith

  -- A merge ends with a configuration or with one of the loud errors, and never with the panic of
  -- its `expect`.
  pub merge_tightening-ne-panic : merge_tightening base overlay p ≢ err unreachable_expect
  unfolding merge_tightening
  merge_tightening-ne-panic =
      bind-ne-err _ (merge_thresholds base overlay p) _ thresholds_total λ c.
        bind-ne-err _ (merge_allow_list base overlay p) _ allow_list_total λ _.
          bind-ne-err _ (merge_custom_blocks base overlay p) _ blocks_total λ _.
            bind-ne-err _ (merge_tool_rules _ base overlay p) _ (rules_total _) λ _.
              bind-ne-err _ (merge_disable base overlay p) _ disable_total λ _.
                bind-ne-err _ (merge_disabled base overlay p) _
                  (merge_disabled-ne-panic base overlay p)
                  λ _. bind-ne-err _ (merge_normalize base overlay p) _ normalize_total λ _.
                    bind-ne-err _ (merge_packs base overlay p) _ packs_total λ _.
                      bind-ne-err _ (merge_community_enabled base overlay p) _ enabled_total λ _.
                        bind-ne-err _ (merge_community_dir base overlay p) _ dir_total
                          λ _. bind-ne-err _ (merge_policy base overlay p) _ policy_total λ _ h. cc
