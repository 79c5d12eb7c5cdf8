-- ===== src/Gate/Caught.antt =====
-- src/gate/mod.rs: the verdict of a command beside the rules that match one of its legs.
use apohara_agentguard.Prelude.{
  ℕ, ◌≤◌, ◌≡◌, refl, sym, ap, ◌∙◌, subst, arith, Text, Bool, true, false, none, some, List, ◌∷◌,
  ◌++◌, In, Any-right, is_nil, any, ◌||◌, if◌then◌else◌, contains_char,
}
use apohara_agentguard.Verdict.{Thresholds, severity_to_tier}
use apohara_agentguard.Verdict.Severity.{action_rank, severity_to_tier_mono}
use apohara_agentguard.Config.{Config, is_allowed}
use apohara_agentguard.Gate.Compound.{split_compound}
use apohara_agentguard.Gate.Compound.Quoting.{is_closed, ends_leg, split_compound-sequence}
use apohara_agentguard.Gate.Taxonomy.Shape.{Triple, fetch_pipe_to_shell, fork_bomb_presplit}
use apohara_agentguard.Gate.Decode.{decode_and_expand}
use apohara_agentguard.Gate.Resolve.Expand.{resolve_assignments}
use apohara_agentguard.Gate.Packs.{CommunityRule}
use apohara_agentguard.Gate.Scan.{Hit, Outside, Best, consider_found, scan_unsplit, scan_leg}
use apohara_agentguard.Gate.Scan.Grows.{
  Reaches, scan_each-Grows, scan_each-Reaches, scan_payload-Grows, consider_found-Grows,
  scan_unsplit-fetch, scan_unsplit-bomb,
}
use apohara_agentguard.Gate.Scan.Legs.{
  Catches, scan_leg-Grows, scan_leg-Reaches, scan_tables-Reaches,
}
use apohara_agentguard.Gate.{
  evaluate, worst_verdict, build_verdict, scan_command, ifs_resplit_block, normalized,
}

if_false : {A : Type 0} (x y : A) (b : Bool) → b ≡ false → (if b then x else y) ≡ y
if_false x y b h = rw h refl

build_verdict-tier :
    (s : ℕ) (t : Thresholds) (hit : Hit)
    → (build_verdict (severity_to_tier s t) hit).tier ≡ severity_to_tier s t
unfolding build_verdict severity_to_tier
build_verdict-tier s t hit = ground arith

worst_verdict-le :
    (config : Config) (severity : ℕ) (best : Best)
    → Reaches severity best
    → action_rank (severity_to_tier severity config.thresholds)
      ≤ action_rank (worst_verdict config best).tier
unfolding worst_verdict
worst_verdict-le config severity none h = elim h [ ]
worst_verdict-le config severity (some hit) h =
    rw (build_verdict-tier hit.severity config.thresholds hit) (
      severity_to_tier_mono severity hit.severity config.thresholds config.thresholds h
        (record { block_le = omega arith; warn_le = omega arith }))

-- A leg that assigns or uses a variable.
abbrev pub names_var : Text → Bool
names_var l = contains_char l b'=' || contains_char l b'$'

resolve_assignments_plain :
    (legs : List Text) → any names_var legs ≡ false → resolve_assignments legs ≡ legs
unfolding resolve_assignments
resolve_assignments_plain legs h = rw h refl

module _ (o : Outside) (community : List CommunityRule) (config : Config) where
  resplit-Grows :
      (b : Bool) (found : Best) (severity : ℕ) (best : Best)
      → Reaches severity best
      → Reaches severity (if b then best else consider_found best found)
  resplit-Grows true found severity best h = h
  resplit-Grows false found severity best h = consider_found-Grows found severity best h

  scan_command-leg :
      (text seps leg : Text) (severity : ℕ)
      → In leg (resolve_assignments (split_compound text))
      → Catches o config community leg severity
      → Reaches severity (scan_command o config community text seps)
  unfolding scan_command
  scan_command-leg text seps leg severity m c =
      resplit-Grows (is_nil seps) (ifs_resplit_block o config community (split_compound text) seps)
        severity _
        (scan_each-Reaches (scan_leg o config community 0) (scan_leg-Grows o config community 0)
          severity leg
          (λ best.
            scan_leg-Reaches o config community 0 severity leg best
              (scan_tables-Reaches o config community leg severity c best))
          (resolve_assignments (split_compound text)) _ m)

  scan_command-unsplit :
      (text seps : Text) (severity : ℕ)
      → Reaches severity (scan_unsplit text none)
      → Reaches severity (scan_command o config community text seps)
  unfolding scan_command
  scan_command-unsplit text seps severity h =
      resplit-Grows (is_nil seps) (ifs_resplit_block o config community (split_compound text) seps)
        severity _
        (scan_each-Grows (scan_leg o config community 0) (scan_leg-Grows o config community 0)
          (resolve_assignments (split_compound text)) severity _
          (scan_payload-Grows (scan_leg o config community 1) (scan_leg-Grows o config community 1)
            (decode_and_expand o.decode_base64 o.from_utf8 text 0) severity (scan_unsplit text none)
            h))

  evaluate_behind :
      (command text seps : Text)
      → config.disable ≡ false
      → is_allowed config command ≡ false
      → normalized o config community command ≡ (text, seps)
      → evaluate o community command config
        ≡ worst_verdict config (scan_command o config community text seps)
  unfolding evaluate
  evaluate_behind command text seps d a n =
      if_false _ _ config.disable d
      ∙ if_false _ _ (is_allowed config command) a
      ∙ ap (λ p. worst_verdict config (scan_command o config community p.0 p.1)) n

  -- Behind the allow list, with the command normalized to `text`, the verdict is at least as strict as
  -- the tier of every rule that matches a leg of `text`, its variables resolved: a built-in rule, a
  -- rule of an enabled pack or of a community pack, or a custom block.
  pub evaluate_caught :
      (command text seps leg : Text) (severity : ℕ)
      → config.disable ≡ false
      → is_allowed config command ≡ false
      → normalized o config community command ≡ (text, seps)
      → In leg (resolve_assignments (split_compound text))
      → Catches o config community leg severity
      → action_rank (severity_to_tier severity config.thresholds)
        ≤ action_rank (evaluate o community command config).tier
  evaluate_caught command text seps leg severity d a n m c =
      subst (λ v. action_rank (severity_to_tier severity config.thresholds) ≤ action_rank v.tier)
        (sym (evaluate_behind command text seps d a n))
        (worst_verdict-le config severity (scan_command o config community text seps)
          (scan_command-leg text seps leg severity m c))

  -- Behind the allow list, a command whose normalized text pipes a download to a shell gets a
  -- verdict that is at least as strict as the tier of that rule.
  pub evaluate_fetch_pipe :
      (command text seps : Text) (t : Triple)
      → config.disable ≡ false
      → is_allowed config command ≡ false
      → normalized o config community command ≡ (text, seps)
      → fetch_pipe_to_shell text ≡ some t
      → action_rank (severity_to_tier t.1 config.thresholds)
        ≤ action_rank (evaluate o community command config).tier
  evaluate_fetch_pipe command text seps t d a n e =
      subst (λ v. action_rank (severity_to_tier t.1 config.thresholds) ≤ action_rank v.tier)
        (sym (evaluate_behind command text seps d a n))
        (worst_verdict-le config t.1 (scan_command o config community text seps)
          (scan_command-unsplit text seps t.1 (scan_unsplit-fetch text t none e)))

  -- Behind the allow list, a command whose normalized text has the shape of a fork bomb gets a verdict
  -- that is at least as strict as the tier of that rule.
  pub evaluate_fork_bomb :
      (command text seps : Text) (t : Triple)
      → config.disable ≡ false
      → is_allowed config command ≡ false
      → normalized o config community command ≡ (text, seps)
      → fork_bomb_presplit text ≡ some t
      → action_rank (severity_to_tier t.1 config.thresholds)
        ≤ action_rank (evaluate o community command config).tier
  evaluate_fork_bomb command text seps t d a n e =
      subst (λ v. action_rank (severity_to_tier t.1 config.thresholds) ≤ action_rank v.tier)
        (sym (evaluate_behind command text seps d a n))
        (worst_verdict-le config t.1 (scan_command o config community text seps)
          (scan_command-unsplit text seps t.1 (scan_unsplit-bomb text t none e)))

  -- Behind the allow list, for a command `a; b` that the normalization leaves alone, whose legs name no
  -- variable and whose `a` closes its quotes and opens no unquoted substitution: the verdict is at least
  -- as strict as the tier of every rule that matches a leg of `b`, whatever `a` is.
  pub evaluate_sequence :
      (a : Text) (sep : ℕ) (b seps leg : Text) (severity : ℕ)
      → config.disable ≡ false
      → is_allowed config (a ++ sep ∷ b) ≡ false
      → normalized o config community (a ++ sep ∷ b) ≡ (a ++ sep ∷ b, seps)
      → is_closed false false false a ≡ true
      → ends_leg sep ≡ true
      → any names_var (split_compound a ++ split_compound b) ≡ false
      → In leg (split_compound b)
      → Catches o config community leg severity
      → action_rank (severity_to_tier severity config.thresholds)
        ≤ action_rank (evaluate o community (a ++ sep ∷ b) config).tier
  evaluate_sequence a sep b seps leg severity d w n q e v m c =
      let legs = split_compound a ++ split_compound b in
      let whole = split_compound-sequence a sep b q e in
      evaluate_caught (a ++ sep ∷ b) (a ++ sep ∷ b) seps leg severity d w n
        (subst (λ ls. In leg (resolve_assignments ls)) (sym whole)
          (subst (In leg) (sym (resolve_assignments_plain legs v))
            (Any-right (λ x. x ≡ leg) (split_compound a) (split_compound b) m)))
        c
