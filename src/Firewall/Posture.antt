-- ===== src/Firewall/Posture.antt =====
-- What each surface may answer.
use apohara_agentguard.Prelude.{Text, ◌≡◌, ◌≢◌, ◌⊎◌, inl, inr, refl, arith, err}
use apohara_agentguard.Verdict.{Verdict, allow, warn, ask, block, Thresholds}
use apohara_agentguard.Firewall.{
  Detectors, ContentSource, FetchError, FirewallInput, Surface, user_prompt, bash_stdout, read_file,
  web_fetch, web_search, timeout, ssrf, io, fetch_text, is_block, clamp_to_warn, inline_text,
  scan_content, scan_output, scan_fetched, scan_surface,
}

module _ (d : Detectors) (src : ContentSource) (t : Thresholds) where
  clamp_to_warn-ne-block : (v : Verdict) → (clamp_to_warn d v).tier ≢ block
  unfolding clamp_to_warn is_block
  clamp_to_warn-ne-block v = ground arith

  clamp_to_warn_cases :
      (v : Verdict)
      → v.tier ≢ ask
      → ((clamp_to_warn d v).tier ≡ allow) ⊎ ((clamp_to_warn d v).tier ≡ warn)
  unfolding clamp_to_warn is_block
  clamp_to_warn_cases v h = ground arith

  -- A prompt and the output of a tool are never blocked.
  pub scan_surface_warn_only :
      (payload : FirewallInput)
      → ((scan_surface d user_prompt payload src t).tier ≢ block)
        × ((scan_surface d bash_stdout payload src t).tier ≢ block)
  unfolding scan_surface
  scan_surface_warn_only payload = (
    clamp_to_warn-ne-block (scan_content d (inline_text d src payload) t),
    clamp_to_warn-ne-block (scan_output d (inline_text d src payload) t),
  )

  -- A fetch that is refused for an internal address blocks on each surface that fetches, and every
  -- other failure of a fetch is a warning there.
  pub scan_surface_unseen :
      (surface : Surface) (payload : FirewallInput) (e : FetchError)
      → surface ≢ user_prompt
      → surface ≢ bash_stdout
      → fetch_text d src payload ≡ err e
      → ((reason : Text) × (e ≡ ssrf reason)
          × ((scan_surface d surface payload src t).tier ≡ block))
        ⊎ (((reason : Text) → e ≢ ssrf reason)
            × ((scan_surface d surface payload src t).tier ≡ warn))
  unfolding scan_surface scan_fetched
  scan_surface_unseen user_prompt payload e p b f = elim (p refl) [ ]
  scan_surface_unseen bash_stdout payload e p b f = elim (b refl) [ ]
  scan_surface_unseen read_file payload timeout p b f = rw f (inr (λ r h. cc, refl))
  scan_surface_unseen read_file payload (ssrf r) p b f = rw f (inl (r, refl, refl))
  scan_surface_unseen read_file payload (io r) p b f = rw f (inr (λ r h. cc, refl))
  scan_surface_unseen web_fetch payload timeout p b f = rw f (inr (λ r h. cc, refl))
  scan_surface_unseen web_fetch payload (ssrf r) p b f = rw f (inl (r, refl, refl))
  scan_surface_unseen web_fetch payload (io r) p b f = rw f (inr (λ r h. cc, refl))
  scan_surface_unseen web_search payload timeout p b f = rw f (inr (λ r h. cc, refl))
  scan_surface_unseen web_search payload (ssrf r) p b f = rw f (inl (r, refl, refl))
  scan_surface_unseen web_search payload (io r) p b f = rw f (inr (λ r h. cc, refl))
