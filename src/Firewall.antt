-- ===== src/Firewall.antt =====
-- src/firewall/mod.rs: the scoring of a text, and what each surface makes of it.
pub mod Posture
pub mod Score
pub mod Ssrf
mod Tests
use apohara_agentguard.Prelude.{
  ℕ, Text, codes, Bool, true, false, not, ◌&&◌, ◌||◌, Option, none, some, List, [], ◌∷◌, ◌++◌, ltb,
  eq_text, decimal, Result, ok, err, if◌then◌else◌,
}
use apohara_agentguard.Verdict.{
  Tier, allow, warn, ask, block, Verdict, allow_verdict, warn_verdict, block_verdict, Thresholds,
  severity_to_tier,
}

pub record RuleHitMeta : Type 0 where
  pub id : Text
  pub severity : ℕ
  pub two_stage : Bool

pub record Finding : Type 0 where
  pub severity : ℕ
  pub reason : Text

-- `Surface` of src/firewall/refetch.rs
pub data Surface : Type 0 where
  read_file web_fetch web_search user_prompt bash_stdout : Surface

-- `FetchTarget`
pub data FetchTarget : Type 0 where
  file url : Text → FetchTarget

-- `FetchError`
pub data FetchError : Type 0 where
  timeout : FetchError
  ssrf io : Text → FetchError

-- `FetchError::fmt`
pub show_error : FetchError → Text
show_error timeout = codes "fetch timed out"
show_error (ssrf reason) = codes "SSRF refused: " ++ reason
show_error (io e) = codes "fetch I/O error: " ++ e

pub data FirewallInput : Type 0 where
  inline : Text → FirewallInput
  fetch : FetchTarget → FirewallInput

-- What the scan asks of the rest: the patterns that a text matches, in the order of the table
-- (`each_hit`), the exact test behind a broad pattern (`two_stage::matches`), the analysis of URLs
-- (`url_exfil::analyze`), and the normalized text, when it is another (`normalize::pipeline`).
pub record Detectors : Type 0 where
  pub hits : Text → List RuleHitMeta
  pub two_stage_matches : Text → Text → Bool
  pub analyze : Text → Option Finding
  pub pipeline : Text → Option Text

-- `ContentSource`
pub record ContentSource : Type 0 where
  pub get : FetchTarget → Result FetchError Text

-- `top.is_none_or(|(sev, _)| severity > sev)`
abbrev better : ℕ → Option (ℕ × Text) → Bool
better severity none = true
better severity (some (sev, reason)) = ltb sev severity

pub keep_better : ℕ → Text → Option (ℕ × Text) → Option (ℕ × Text)
keep_better severity reason top = if better severity top then some (severity, reason) else top

abbrev pub hit_reason : RuleHitMeta → Text
hit_reason hit =
    codes "firewall rule "
    ++ hit.id
    ++ codes " matched (severity "
    ++ decimal hit.severity
    ++ codes ")"

module _ (d : Detectors) where
  abbrev pub confirmed : Text → RuleHitMeta → Bool
  confirmed text hit = not hit.two_stage || d.two_stage_matches hit.id text

  pub score_hits : Text → Option (ℕ × Text) → List RuleHitMeta → Option (ℕ × Text)
  unfolding keep_better
  score_hits text top [] = top
  score_hits text top (hit ∷ hits) =
      score_hits text
        (if confirmed text hit then keep_better hit.severity (hit_reason hit) top else top) hits

  score_finding : Option Finding → Option (ℕ × Text) → Option (ℕ × Text)
  unfolding keep_better
  score_finding none top = top
  score_finding (some f) top = keep_better f.severity f.reason top

  pub score_once : Text → Bool → Option (ℕ × Text)
  unfolding score_hits score_finding
  score_once text include_url_exfil =
      let top = score_hits text none (d.hits text) in
      if include_url_exfil then score_finding (d.analyze text) top else top

  -- The verdict of a tier; `ask` is unreachable.
  tier_verdict : Tier → Text → Verdict
  tier_verdict block reason = block_verdict reason
  tier_verdict warn reason = warn_verdict reason
  tier_verdict _ reason = allow_verdict

  pub verdict_from : ℕ × Text → Thresholds → Bool → Verdict
  unfolding tier_verdict
  verdict_from (sev, reason) thresholds normalized_match =
      tier_verdict (severity_to_tier sev thresholds)
        (if normalized_match then reason ++ codes " [normalized-match]" else reason)

  normalized_verdict : Thresholds → Option (ℕ × Text) → Verdict
  unfolding verdict_from
  normalized_verdict thresholds none = allow_verdict
  normalized_verdict thresholds (some hit) = verdict_from hit thresholds true

  scan_normalized : Bool → Thresholds → Option Text → Verdict
  unfolding score_once normalized_verdict
  scan_normalized include_url_exfil thresholds none = allow_verdict
  scan_normalized include_url_exfil thresholds (some normalized) =
      normalized_verdict thresholds (score_once normalized include_url_exfil)

  scan_raw : Text → Bool → Thresholds → Option (ℕ × Text) → Verdict
  unfolding scan_normalized verdict_from
  scan_raw text include_url_exfil thresholds (some hit) = verdict_from hit thresholds false
  scan_raw text include_url_exfil thresholds none =
      scan_normalized include_url_exfil thresholds (d.pipeline text)

  pub two_pass_scan : Text → Bool → Thresholds → Verdict
  unfolding score_once scan_raw
  two_pass_scan text include_url_exfil thresholds =
      scan_raw text include_url_exfil thresholds (score_once text include_url_exfil)

  pub scan_content : Text → Thresholds → Verdict
  unfolding two_pass_scan
  scan_content text thresholds = two_pass_scan text false thresholds

  pub scan_output : Text → Thresholds → Verdict
  unfolding two_pass_scan
  scan_output text thresholds = two_pass_scan text true thresholds

  pub fetch_text : ContentSource → FirewallInput → Result FetchError Text
  fetch_text src (fetch target) = src.get target
  fetch_text src (inline text) = ok text

  text_or_empty : Result FetchError Text → Text
  text_or_empty (ok text) = text
  text_or_empty (err e) = []

  pub inline_text : ContentSource → FirewallInput → Text
  unfolding text_or_empty
  inline_text src (inline text) = text
  inline_text src (fetch target) = text_or_empty (src.get target)

  is_block : Tier → Bool
  is_block block = true
  is_block _ = false

  pub clamp_to_warn : Verdict → Verdict
  unfolding is_block
  clamp_to_warn v = if is_block v.tier then warn_verdict v.reason else v

  -- What becomes of a fetch that fails
  scan_fetched : Thresholds → Result FetchError Text → Verdict
  unfolding scan_content show_error
  scan_fetched thresholds (ok text) = scan_content text thresholds
  scan_fetched thresholds (err (ssrf rej)) =
      block_verdict (codes "firewall refused out-of-band fetch: " ++ rej)
  scan_fetched thresholds (err e) =
      warn_verdict (codes "firewall could not inspect content (failing to WARN): " ++ show_error e)

  unfoldable pub scan_surface : Surface → FirewallInput → ContentSource → Thresholds → Verdict
  unfolding scan_fetched fetch_text inline_text clamp_to_warn scan_content scan_output
  scan_surface user_prompt payload src thresholds =
      clamp_to_warn (scan_content (inline_text src payload) thresholds)
  scan_surface bash_stdout payload src thresholds =
      clamp_to_warn (scan_output (inline_text src payload) thresholds)
  scan_surface _ payload src thresholds = scan_fetched thresholds (fetch_text src payload)
