-- ===== src/Config/Tightening/Sound.antt =====
-- What an accepted merge keeps of the user configuration. The severities of the custom blocks and the
-- raw cutoffs behind a level preset are not among it.
use apohara_agentguard.Prelude.{
  Text, Bool, true, false, Option, none, ◌≡◌, ◌⊎◌, subst, arith, All, In, ok, bind-eq-ok,
  ok-injective,
}
use apohara_agentguard.Verdict.Severity.{IsTighter}
use apohara_agentguard.Config.{Config, effective_thresholds}
use apohara_agentguard.Config.Tightening.Levels.{merge_thresholds-IsTighter}
use apohara_agentguard.Config.Tightening.Lists.{
  KeepsPatterns, merge_allow_list-In, merge_custom_blocks-KeepsPatterns, merge_packs-In,
  merge_community_enabled-In, merge_disabled-In,
}
use apohara_agentguard.Config.Tightening.Rules.{Covers, merge_tool_rules-Covers}
use apohara_agentguard.Config.Tightening.{
  TighteningPresence, merge_thresholds, merge_allow_list, merge_custom_blocks, merge_tool_rules,
  merge_disable, merge_disabled, merge_normalize, merge_packs, merge_community_enabled,
  merge_community_dir, merge_policy, merge_tightening,
}

-- A path that the user set is the path of the merge.
abbrev pub Kept : Option Text → Option Text → Type 0
Kept user merged = (user ≡ none) ⊎ (merged ≡ user)

-- What `m` keeps of `base`: the cutoffs with the level presets applied are no higher, nothing is
-- allowed, disabled or switched off that was not, every block has one of its pattern and severity or
-- of its pattern alone, and every tool rule, opted-in pack and set path stays.
pub record Tightens (base m : Config) : Type 0 where
  pub cutoffs : IsTighter (effective_thresholds m) (effective_thresholds base)
  pub allowances : All (λ x. In x base.allow_list) m.allow_list
  pub blocks : KeepsPatterns base.custom_blocks m.custom_blocks
  pub rules : Covers (effective_thresholds m) base.tool_rules m.tool_rules
  pub disable : (m.disable ≡ false) ⊎ (base.disable ≡ true)
  pub disabled : All (λ x. In x base.disabled) m.disabled
  pub normalize : (m.normalize ≡ true) ⊎ (base.normalize ≡ false)
  pub packs : All (λ x. In x m.packs) base.packs
  pub community : All (λ x. In x m.community_packs.enabled) base.community_packs.enabled
  pub dir : Kept base.community_packs.dir m.community_packs.dir
  pub policy : Kept base.policy.file m.policy.file

merge_disable_lem :
    (base overlay : Config) (p : TighteningPresence) (b : Bool)
    → merge_disable base overlay p ≡ ok b
    → (b ≡ false) ⊎ (base.disable ≡ true)
unfolding merge_disable
merge_disable_lem base overlay p b h = ground arith

merge_normalize_lem :
    (base overlay : Config) (p : TighteningPresence) (b : Bool)
    → merge_normalize base overlay p ≡ ok b
    → (b ≡ true) ⊎ (base.normalize ≡ false)
unfolding merge_normalize
merge_normalize_lem base overlay p b h = ground arith

merge_community_dir-Kept :
    (base overlay : Config) (p : TighteningPresence) (o : Option Text)
    → merge_community_dir base overlay p ≡ ok o
    → Kept base.community_packs.dir o
unfolding merge_community_dir
merge_community_dir-Kept base overlay p o h = ground arith

merge_policy-Kept :
    (base overlay : Config) (p : TighteningPresence) (o : Option Text)
    → merge_policy base overlay p ≡ ok o
    → Kept base.policy.file o
unfolding merge_policy
merge_policy-Kept base overlay p o h = ground arith

-- What a merge that is accepted keeps: the cutoffs with the level presets applied are no higher than
-- the user's; the allow-list and the disabled components are among the user's; the pattern of every
-- custom block is still that of a block, of whatever severity; every tool rule stays, with an action
-- that is no weaker by the merged cutoffs; the kill switch is on only if the user's was, and the
-- normalization off only if the user's was; the packs and the community packs stay, and a directory
-- of community packs or a policy file that the user set.
pub merge_tightening-Tightens :
    (base overlay : Config) (p : TighteningPresence) {m : Config}
    → merge_tightening base overlay p ≡ ok m
    → Tightens base m
unfolding merge_tightening effective_thresholds
merge_tightening-Tightens base overlay p h =
    let (cutoffs, h1, k1) = bind-eq-ok (merge_thresholds base overlay p) _ h in
    let (allow_list, h2, k2) = bind-eq-ok (merge_allow_list base overlay p) _ k1 in
    let (blocks, h3, k3) = bind-eq-ok (merge_custom_blocks base overlay p) _ k2 in
    let (rules, h4, k4) = bind-eq-ok (merge_tool_rules _ base overlay p) _ k3 in
    let (disable, h5, k5) = bind-eq-ok (merge_disable base overlay p) _ k4 in
    let (disabled, h6, k6) = bind-eq-ok (merge_disabled base overlay p) _ k5 in
    let (normalize, h7, k7) = bind-eq-ok (merge_normalize base overlay p) _ k6 in
    let (packs, h8, k8) = bind-eq-ok (merge_packs base overlay p) _ k7 in
    let (enabled, h9, k9) = bind-eq-ok (merge_community_enabled base overlay p) _ k8 in
    let (dir, h10, k10) = bind-eq-ok (merge_community_dir base overlay p) _ k9 in
    let (file, h11, k11) = bind-eq-ok (merge_policy base overlay p) _ k10 in
    subst (Tightens base) (ok-injective k11) (record {
      cutoffs = merge_thresholds-IsTighter base overlay p h1;
      allowances = merge_allow_list-In base overlay p allow_list h2;
      blocks = merge_custom_blocks-KeepsPatterns base overlay p blocks h3;
      rules = merge_tool_rules-Covers _ base overlay p rules h4;
      disable = merge_disable_lem base overlay p disable h5;
      disabled = merge_disabled-In base overlay p disabled h6;
      normalize = merge_normalize_lem base overlay p normalize h7;
      packs = merge_packs-In base overlay p packs h8;
      community = merge_community_enabled-In base overlay p enabled h9;
      dir = merge_community_dir-Kept base overlay p dir h10;
      policy = merge_policy-Kept base overlay p file h11;
    })
