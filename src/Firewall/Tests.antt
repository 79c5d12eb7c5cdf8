-- ===== src/Firewall/Tests.antt =====
-- Scans with a table of two patterns.
use apohara_agentguard.Prelude.{
  ◌≤◌, Text, codes, true, false, none, some, [], ◌∷◌, ◌≡◌, ◌≢◌, ◌⊎◌, inl, refl, All, Any, contains,
  split_once, strip_prefix, err, if◌then◌else◌,
}
use apohara_agentguard.Verdict.{
  allow, warn, block, allow_verdict, default_thresholds, severity_to_tier,
}
use apohara_agentguard.Firewall.Score.{severity_of, score_once_worst, scan_content_masked}
use apohara_agentguard.Firewall.Posture.{scan_surface_unseen}
use apohara_agentguard.Firewall.{
  RuleHitMeta, Detectors, ContentSource, ssrf, FirewallInput, fetch, url, web_fetch, user_prompt,
  bash_stdout, keep_better, confirmed, score_hits, score_once, tier_verdict, verdict_from, scan_raw,
  scan_normalized, normalized_verdict, two_pass_scan, fetch_text, scan_surface, scan_content,
}

abbrev email : RuleHitMeta
email = record { id = codes "DJL-PII-006"; severity = 4; two_stage = false }

abbrev injection : RuleHitMeta
injection = record { id = codes "DJL-PI-001"; severity = 9; two_stage = false }

-- `@` is the mark of the one pattern, `!` of the other; the normalized text has the second.
abbrev two_patterns : Detectors
two_patterns = record {
  hits = λ text.
      if contains text (codes "@")
      then email ∷ []
      else if contains text (codes "!")
      then injection ∷ []
      else [];
  two_stage_matches = λ id text. false;
  analyze = λ text. none;
  pipeline = λ text. some (codes "!");
}

abbrev offline : ContentSource
offline = record { get = λ target. err (ssrf (codes "loopback address")) }

injection_hit : Any (λ x. x ≡ injection) (two_patterns.hits (codes "!"))
unfolding contains split_once strip_prefix
injection_hit = inl refl

score_once_worst_example : 9 ≤ severity_of (score_once two_patterns (codes "!") false)
score_once_worst_example =
    score_once_worst two_patterns (codes "!") false injection injection_hit refl

clean_text_blocked : (two_pass_scan two_patterns (codes "x") false default_thresholds).tier ≡ block
unfolding two_pass_scan scan_raw scan_normalized normalized_verdict verdict_from tier_verdict
    score_once score_hits keep_better severity_to_tier contains split_once strip_prefix
clean_text_blocked = refl

email_hit : Any (λ x. x ≡ email) (two_patterns.hits (codes "x@"))
unfolding contains split_once strip_prefix
email_hit = inl refl

email_allowed :
    All
      (λ h.
        confirmed two_patterns (codes "x@") h ≡ true
        → severity_to_tier h.severity default_thresholds ≡ allow)
      (two_patterns.hits (codes "x@"))
unfolding severity_to_tier contains split_once strip_prefix
email_allowed = (λ c. refl, tt)

scan_content_masked_example :
    scan_content two_patterns (codes "x@") default_thresholds ≡ allow_verdict
scan_content_masked_example =
    scan_content_masked two_patterns (codes "x@") default_thresholds email email_hit refl
      email_allowed

abbrev local : FirewallInput
local = fetch (url (codes "http://127.0.0.1"))

fetch_refused : fetch_text two_patterns offline local ≡ err (ssrf (codes "loopback address"))
unfolding fetch_text
fetch_refused = refl

web_fetch-ne-prompt : web_fetch ≢ user_prompt
web_fetch-ne-prompt h = cc

web_fetch-ne-stdout : web_fetch ≢ bash_stdout
web_fetch-ne-stdout h = cc

scan_surface_unseen_example :
    ((reason : Text) × (ssrf (codes "loopback address") ≡ ssrf reason)
      × ((scan_surface two_patterns web_fetch local offline default_thresholds).tier ≡ block))
    ⊎ (((reason : Text) → ssrf (codes "loopback address") ≢ ssrf reason)
        × ((scan_surface two_patterns web_fetch local offline default_thresholds).tier ≡ warn))
scan_surface_unseen_example =
    scan_surface_unseen two_patterns offline default_thresholds web_fetch local
      (ssrf (codes "loopback address")) web_fetch-ne-prompt web_fetch-ne-stdout fetch_refused
