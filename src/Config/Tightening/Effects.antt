-- ===== src/Config/Tightening/Effects.antt =====
-- What a merge means for the lookups that the gate and the dispatch make, and where the check of
-- the custom blocks stops.
use apohara_agentguard.Prelude.{
  ℕ, ◌≤◌, Text, Bool, true, false, List, [], ◌∷◌, ◌≡◌, refl, arith, map, any, All, In, In-any,
  any-In, All-In, In-map, All-In_self, eq_text, eq_text_refl, ok,
}
use apohara_agentguard.Verdict.Severity.{action_rank, severity_to_tier_mono}
use apohara_agentguard.Verdict.{severity_to_tier}
use apohara_agentguard.Config.{
  Config, CustomBlock, EnvDisable, glob_match, is_allowed, same_component, is_component_disabled,
  effective_thresholds,
}
use apohara_agentguard.Config.Tightening.Sound.{merge_tightening-Tightens}
use apohara_agentguard.Config.Tightening.{
  TighteningPresence, check_blocks_kept, merge_thresholds, merge_allow_list, merge_custom_blocks,
  merge_tool_rules, merge_disable, merge_disabled, merge_normalize, merge_packs,
  merge_community_enabled, merge_community_dir, merge_policy, merge_tightening,
}

-- A test that one item of a list passes is passed by an item of any list that holds all of them.
any-All-In :
    (q : Text → Bool) (xs ys : List Text)
    → All (λ x. In x ys) xs
    → any q xs ≡ true
    → any q ys ≡ true
any-All-In q xs ys h t =
    let (a, m, e) = In-any q xs t in any-In q ys (All-In (λ x. In x ys) xs h m) e

module _ (base overlay : Config) (p : TighteningPresence) where
  -- A command that the merged allow-list lets through was let through by the user's own.
  pub merge_tightening-is_allowed :
      {m : Config} (command : Text)
      → merge_tightening base overlay p ≡ ok m
      → is_allowed m command ≡ true
      → is_allowed base command ≡ true
  unfolding is_allowed
  merge_tightening-is_allowed {m} command h =
      any-All-In (λ pattern. glob_match pattern command) m.allow_list base.allow_list
        (merge_tightening-Tightens base overlay p h).allowances

  -- A component that is off after the merge was off in the user configuration.
  pub merge_tightening-is_component_disabled :
      {m : Config} (component : Text) (env : EnvDisable)
      → merge_tightening base overlay p ≡ ok m
      → is_component_disabled m component env ≡ true
      → is_component_disabled base component env ≡ true
  unfolding is_component_disabled
  merge_tightening-is_component_disabled {m} component env h d =
      let t = merge_tightening-Tightens base overlay p h in
      ground (
        arith,
        t.disable,
        any-All-In (λ c. same_component c component) m.disabled base.disabled t.disabled,
        d,
      )

  -- Every severity is read as an action that is no weaker than the user's effective cutoffs give.
  pub merge_tightening_severity :
      {m : Config} (s : ℕ)
      → merge_tightening base overlay p ≡ ok m
      → action_rank (severity_to_tier s (effective_thresholds base))
        ≤ action_rank (severity_to_tier s (effective_thresholds m))
  merge_tightening_severity s h =
      severity_to_tier_mono s s _ _ (omega arith)
        (merge_tightening-Tightens base overlay p h).cutoffs

check_blocks_kept-All :
    (f : CustomBlock → CustomBlock) (user project : List CustomBlock)
    → ((b : CustomBlock) → (f b).pattern ≡ b.pattern)
    → All (λ ub. In ub user) project
    → check_blocks_kept project (map f user) ≡ ok tt
unfolding check_blocks_kept
check_blocks_kept-All f user [] same h = refl
check_blocks_kept-All f user (ub ∷ ubs) same (m, h) =
    rw
      (any-In (λ pb. eq_text pb.pattern ub.pattern) (map f user) (In-map f ub user m)
        (rw same (eq_text_refl ub.pattern)))
      (check_blocks_kept-All f user ubs same h)

abbrev pub only_custom_blocks : TighteningPresence
only_custom_blocks = record {
  thresholds_block_at = false;
  thresholds_warn_at = false;
  allow_list = false;
  custom_blocks = true;
  tool_rules = false;
  disable = false;
  disabled = false;
  normalize = false;
  level = false;
  packs = false;
  policy = false;
  community_packs_enabled = false;
  community_packs_dir = false;
  audit = false;
  canary = false;
}

abbrev pub with_severity : ℕ → CustomBlock → CustomBlock
with_severity s b = record b { severity = s }

-- The merge itself compares the patterns of the blocks alone, so it takes any severity for them.
pub merge_tightening_any_severity :
    (base overlay : Config) (s : ℕ)
    → overlay.custom_blocks ≡ map (with_severity s) base.custom_blocks
    → merge_tightening base overlay only_custom_blocks
      ≡ ok (record base { custom_blocks = map (with_severity s) base.custom_blocks })
unfolding merge_tightening merge_thresholds merge_allow_list merge_custom_blocks merge_tool_rules
    merge_disable merge_disabled merge_normalize merge_packs merge_community_enabled
    merge_community_dir merge_policy
merge_tightening_any_severity base overlay s e = rw (
  e,
  check_blocks_kept-All (with_severity s) base.custom_blocks base.custom_blocks (λ b. refl)
      (All-In_self base.custom_blocks),
)
