-- ===== src/Gate/Scan/Fuel.antt =====
-- src/gate/mod.rs: the recursion of the scans ends at the depth cap, so the fuel is enough.
use apohara_agentguard.Prelude.{
  ℕ, zero, suc, ◌≤◌, ◌<◌, ◌+◌, ◌≡◌, ap, ◌∙◌, arith, Text, false, none, List, ltb, Bool-cases, inl,
  inr,
}
use apohara_agentguard.Config.{Config}
use apohara_agentguard.Gate.Decode.{decode_and_expand, max_decode_depth}
use apohara_agentguard.Gate.Packs.{CommunityRule}
use apohara_agentguard.Gate.Compound.{split_compound}
use apohara_agentguard.Gate.Scan.{
  Outside, Best, Scan, scan_bodies, scan_payload, body_leg, scan_decoded, leg_round, body_round,
  scan_each, scan_both, max_subst_depth, scan_unsplit, enough,
}

scan_bodies_last :
    (f g : Scan) (depth : ℕ) (leg : Text) (best : Best)
    → max_subst_depth ≤ depth
    → scan_bodies f depth leg best ≡ scan_bodies g depth leg best
unfolding scan_bodies
scan_bodies_last f g depth leg best h = ground (arith, h)

module _ (o : Outside) (config : Config) (community : List CommunityRule) where
  decode_last :
      (leg : Text) (depth : ℕ)
      → max_decode_depth ≤ depth
      → decode_and_expand o.decode_base64 o.from_utf8 leg depth ≡ none
  unfolding decode_and_expand
  decode_last leg depth h = ground (arith, h)

  leg_round_last :
      (f g f' g' : Scan) (depth : ℕ) (leg : Text) (best : Best)
      → max_subst_depth ≤ depth
      → leg_round o config community f g depth leg best
        ≡ leg_round o config community f' g' depth leg best
  unfolding leg_round scan_decoded
  leg_round_last f g f' g' depth leg best h =
      rw (decode_last leg depth (omega (arith, h))) (scan_bodies_last g g' depth leg _ h)

  body_leg_last :
      (this g g' : Scan) (depth : ℕ) (leg : Text) (best : Best)
      → max_subst_depth ≤ depth
      → body_leg this g depth leg best ≡ body_leg this g' depth leg best
  unfolding body_leg
  body_leg_last this g g' depth leg best h = ground (arith, scan_bodies_last g g' depth leg best h)

  no_payload : (depth : ℕ) → max_decode_depth ≤ depth → ltb depth max_decode_depth ≡ false
  no_payload depth h = ground (arith, h)

  body_round_last :
      (this f g f' g' : Scan) (depth : ℕ) (body : Text) (best : Best)
      → max_subst_depth ≤ depth
      → body_round o config community this f g depth body best
        ≡ body_round o config community this f' g' depth body best
  unfolding body_round scan_payload
  body_round_last this f g f' g' depth body best h = rw (no_payload depth (omega (arith, h))) (
      ap (λ (scan : Scan). scan_each scan (split_compound body) (scan_unsplit body best))
        (λ i leg kept. body_leg_last this g g' depth leg kept h i))

  -- The levels of fuel that are left reach the cap, or more.
  abbrev Covers : ℕ → ℕ → Type 0
  Covers fuel depth = max_subst_depth < fuel + depth

  last_round :
      (f g f' g' : Scan) (depth : ℕ)
      → max_subst_depth ≤ depth
      → ◌≡◌ {A = Scan × Scan}
          (
            leg_round o config community f g depth,
            body_round o config community (leg_round o config community f g depth) f g depth,
          )
          (
            leg_round o config community f' g' depth,
            body_round o config community (leg_round o config community f' g' depth) f' g' depth,
          )
  last_round f g f' g' depth h =
      let this = leg_round o config community f' g' depth in
      let legs : leg_round o config community f g depth ≡ this =
        λ i leg best. leg_round_last f g f' g' depth leg best h i in
      let bodies : body_round o config community (leg_round o config community f g depth) f g depth
          ≡ body_round o config community this f' g' depth =
        ap (λ (scan : Scan). body_round o config community scan f g depth) legs
        ∙ (λ i body best. body_round_last this f g f' g' depth body best h i) in
      λ i. (legs i, bodies i)

  scan_both_covered :
      (n m depth : ℕ)
      → depth ≤ max_subst_depth
      → Covers n depth
      → Covers m depth
      → scan_both o config community n depth ≡ scan_both o config community m depth
  unfolding scan_both
  scan_both_covered zero m depth d h k = ground arith
  scan_both_covered (suc n) zero depth d h k = ground arith
  scan_both_covered (suc n) (suc m) depth d h k = elim (Bool-cases (ltb depth max_subst_depth)) [
    | inl e ↦
        ap
          (λ (next : Scan × Scan).
            let this = leg_round o config community next.0 next.1 depth in
            (this, body_round o config community this next.0 next.1 depth))
          (scan_both_covered n m (suc depth) (ground (arith, e)) (omega (arith, h))
            (omega (arith, k)))
    | inr e ↦
        let short = scan_both o config community n (suc depth) in
        let long = scan_both o config community m (suc depth) in
        last_round short.0 short.1 long.0 long.1 depth (ground (arith, e))
  ]

-- The scans of a leg and of a body at any depth that the code reaches are the same for any two
-- amounts of fuel that reach the cap on the depth.
pub scan_both_fuel :
    (o : Outside) (config : Config) (community : List CommunityRule) (extra depth : ℕ)
    → depth ≤ max_subst_depth
    → scan_both o config community (enough o config community + extra) depth
      ≡ scan_both o config community (enough o config community) depth
scan_both_fuel o config community extra depth d =
    scan_both_covered o config community (enough o config community + extra)
      (enough o config community) depth d (omega arith) (omega arith)
