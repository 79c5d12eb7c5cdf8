-- ===== src/Firewall/Score.antt =====
-- src/firewall/mod.rs: the score of a text, and the two passes that rest on it.
use apohara_agentguard.Prelude.{
  ℕ, ◌≤◌, Text, Bool, true, false, Option, none, some, List, [], ◌∷◌, ◌≡◌, ◌≢◌, ◌⊎◌, inl, inr, refl,
  sym, ap, ◌∙◌, arith, All, In, ltb, if◌then◌else◌, Bool-cases, Option-cases,
}
use apohara_agentguard.Verdict.{allow, block, Thresholds, severity_to_tier, allow_verdict}
use apohara_agentguard.Firewall.{
  RuleHitMeta, Detectors, keep_better, hit_reason, confirmed, score_hits, score_finding, score_once,
  tier_verdict, verdict_from, normalized_verdict, scan_normalized, scan_raw, two_pass_scan,
  scan_content, Finding,
}

-- The severity of a score; no score is the least.
abbrev pub severity_of : Option (ℕ × Text) → ℕ
severity_of none = 0
severity_of (some (sev, reason)) = sev

keep_better-le :
    (sev : ℕ) (reason : Text) (top : Option (ℕ × Text))
    → severity_of top ≤ severity_of (keep_better sev reason top)
unfolding keep_better
keep_better-le sev reason none = omega arith
keep_better-le sev reason (some (s, r)) = ground arith

keep_better-new :
    (sev : ℕ) (reason : Text) (top : Option (ℕ × Text))
    → sev ≤ severity_of (keep_better sev reason top)
unfolding keep_better
keep_better-new sev reason none = omega arith
keep_better-new sev reason (some (s, r)) = ground arith

keep_better-ne-none :
    (sev : ℕ) (reason : Text) (top : Option (ℕ × Text)) → keep_better sev reason top ≢ none
unfolding keep_better
keep_better-ne-none sev reason none h = cc
keep_better-ne-none sev reason (some (s, r)) h = ground arith

module _ (d : Detectors) (text : Text) where
  score_hits-le :
      (top : Option (ℕ × Text)) (hits : List RuleHitMeta)
      → severity_of top ≤ severity_of (score_hits d text top hits)
  unfolding score_hits
  score_hits-le top [] = omega arith
  score_hits-le top (h ∷ hits) = elim (Bool-cases (confirmed d text h)) [
    | inl e ↦ rw e (
        omega (
          arith,
          keep_better-le h.severity (hit_reason h) top,
          score_hits-le (keep_better h.severity (hit_reason h) top) hits,
        ))
    | inr e ↦ rw e (score_hits-le top hits)
  ]

  score_hits_hit :
      (top : Option (ℕ × Text)) (hits : List RuleHitMeta) (hit : RuleHitMeta)
      → In hit hits
      → confirmed d text hit ≡ true
      → hit.severity ≤ severity_of (score_hits d text top hits)
  unfolding score_hits
  score_hits_hit top [] hit m c = elim m [ ]
  score_hits_hit top (h ∷ hits) hit (inl e) c =
      let c' : confirmed d text h ≡ true = ap (confirmed d text) e ∙ c in
      rw c' (
        omega (
          arith,
          ap (λ x. x.severity) e,
          keep_better-new h.severity (hit_reason h) top,
          score_hits-le (keep_better h.severity (hit_reason h) top) hits,
        ))
  score_hits_hit top (h ∷ hits) hit (inr m) c =
      score_hits_hit (if confirmed d text h then keep_better h.severity (hit_reason h) top else top)
        hits hit m c

  score_finding-le :
      (f : Option Finding) (top : Option (ℕ × Text))
      → severity_of top ≤ severity_of (score_finding d f top)
  unfolding score_finding
  score_finding-le none top = omega arith
  score_finding-le (some f) top = keep_better-le f.severity f.reason top

  -- The score is at least the severity of every hit that is confirmed, with or without the analysis
  -- of URLs.
  pub score_once_worst :
      (include_url_exfil : Bool) (hit : RuleHitMeta)
      → In hit (d.hits text)
      → confirmed d text hit ≡ true
      → hit.severity ≤ severity_of (score_once d text include_url_exfil)
  unfolding score_once
  score_once_worst false hit m c = score_hits_hit none (d.hits text) hit m c
  score_once_worst true hit m c = omega (
    arith,
    score_hits_hit none (d.hits text) hit m c,
    score_finding-le (d.analyze text) (score_hits d text none (d.hits text)),
  )

  verdict_from-cases :
      (sev : ℕ) (reason : Text) (t : Thresholds) (marked : Bool)
      → (verdict_from d (sev, reason) t marked).tier ≡ severity_to_tier sev t
  unfolding verdict_from tier_verdict severity_to_tier
  verdict_from-cases sev reason t marked = ground arith

  -- What a scan blocks has scored the cutoff, as it stands or normalized: the normalization alone
  -- never blocks.
  pub two_pass_scan_block :
      (include_url_exfil : Bool) (t : Thresholds)
      → (two_pass_scan d text include_url_exfil t).tier ≡ block
      → ((sev : ℕ) × (reason : Text) × (score_once d text include_url_exfil ≡ some (sev, reason))
          × (severity_to_tier sev t ≡ block))
        ⊎ ((normalized : Text) × (sev : ℕ) × (reason : Text) × (d.pipeline text ≡ some normalized)
            × (score_once d normalized include_url_exfil ≡ some (sev, reason))
            × (severity_to_tier sev t ≡ block))
  unfolding two_pass_scan
  two_pass_scan_block x t h = elim (Option-cases (score_once d text x)) [
    | inr ((sev, reason), e) ↦ inl (
      sev,
      reason,
      e,
      sym (verdict_from-cases sev reason t false) ∙ (unfold scan_raw in (rw e at h)),
    )
    | inl e ↦ elim (Option-cases (d.pipeline text)) [
      | inl p ↦ cc (rw (e, scan_raw, p, scan_normalized) at h)
      | inr (normalized, p) ↦ elim (Option-cases (score_once d normalized x)) [
        | inl n ↦ cc (rw (e, scan_raw, p, scan_normalized, n, normalized_verdict) at h)
        | inr ((sev, reason), n) ↦ inr (
          normalized,
          sev,
          reason,
          p,
          n,
          sym (verdict_from-cases sev reason t true)
              ∙ (rw (e, scan_raw, p, scan_normalized, n, normalized_verdict) at h),
        )
      ]
    ]
  ]

  -- What holds of the severity so far and of the severity of every confirmed hit holds of the score.
  score_hits-All :
      (P : ℕ → Type 0) (sev : ℕ) (reason : Text) (hits : List RuleHitMeta)
      → P sev
      → All (λ h. confirmed d text h ≡ true → P h.severity) hits
      → (s : ℕ) × (r : Text) × (score_hits d text (some (sev, reason)) hits ≡ some (s, r)) × P s
  unfolding score_hits keep_better
  score_hits-All P sev reason [] p q = (sev, reason, refl, p)
  score_hits-All P sev reason (h ∷ hits) p (q, qs) = elim (Bool-cases (confirmed d text h)) [
    | inr e ↦ rw e (score_hits-All P sev reason hits p qs)
    | inl e ↦ rw e (elim (Bool-cases (ltb sev h.severity)) [
      | inl l ↦ rw l (score_hits-All P h.severity (hit_reason h) hits (q e) qs)
      | inr l ↦ rw l (score_hits-All P sev reason hits p qs)
    ])
  ]

  score_hits-confirmed :
      (P : ℕ → Type 0) (hits : List RuleHitMeta) (hit : RuleHitMeta)
      → In hit hits
      → confirmed d text hit ≡ true
      → All (λ h. confirmed d text h ≡ true → P h.severity) hits
      → (s : ℕ) × (r : Text) × (score_hits d text none hits ≡ some (s, r)) × P s
  unfolding score_hits keep_better
  score_hits-confirmed P [] hit m c q = elim m [ ]
  score_hits-confirmed P (h ∷ hits) hit (inl e) c (q, qs) =
      let c' : confirmed d text h ≡ true = ap (confirmed d text) e ∙ c in
      rw c' (score_hits-All P h.severity (hit_reason h) hits (q c') qs)
  score_hits-confirmed P (h ∷ hits) hit (inr m) c (q, qs) = elim (Bool-cases (confirmed d text h)) [
    | inl e ↦ rw e (score_hits-All P h.severity (hit_reason h) hits (q e) qs)
    | inr e ↦ rw e (score_hits-confirmed P hits hit m c qs)
  ]

  -- A text with a confirmed hit, each of whose confirmed hits is of a severity that the cutoffs
  -- allow, is allowed, whatever its normalized form holds.
  pub scan_content_masked :
      (t : Thresholds) (hit : RuleHitMeta)
      → In hit (d.hits text)
      → confirmed d text hit ≡ true
      → All (λ h. confirmed d text h ≡ true → severity_to_tier h.severity t ≡ allow) (d.hits text)
      → scan_content d text t ≡ allow_verdict
  unfolding scan_content two_pass_scan scan_raw score_once verdict_from tier_verdict
  scan_content_masked t hit m c q =
      let (s, r, e, a) =
        score_hits-confirmed (λ n. severity_to_tier n t ≡ allow) (d.hits text) hit m c q in
      rw (e, a)

  -- A text with a confirmed hit of positive severity at or above the blocking cutoff is blocked.
  pub scan_content_hit :
      (t : Thresholds) (hit : RuleHitMeta)
      → In hit (d.hits text)
      → confirmed d text hit ≡ true
      → t.block_at ≤ hit.severity
      → 1 ≤ hit.severity
      → (scan_content d text t).tier ≡ block
  unfolding scan_content two_pass_scan
  scan_content_hit t hit m c b p =
      let worst = score_once_worst false hit m c in
      elim (Option-cases (score_once d text false)) [
        | inl e ↦ ground (arith, rw e at worst)
        | inr ((sev, reason), e) ↦ rw e (
            unfold scan_raw in
            verdict_from-cases sev reason t false
            ∙ (unfold severity_to_tier in ground (arith, rw e at worst)))
      ]
