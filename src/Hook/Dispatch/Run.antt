-- ===== src/Hook/Dispatch/Run.antt =====
-- The exit code of the whole hook.
use apohara_agentguard.Prelude.{
  Text, codes, true, false, not, ◌||◌, Option, none, some, ◌≡◌, ◌⊎◌, ◌↔◌, inl, inr, refl, sym, ap,
  subst, ◌∙◌, eq_text, eq_text_iff, Bool-cases, Option-cases,
}
use apohara_agentguard.Verdict.{block}
use apohara_agentguard.Config.{Config, EnvDisable}
use apohara_agentguard.Contract.{HookInput, emit}
use apohara_agentguard.Contract.Emission.{emit_exit, pre_tool_use}
use apohara_agentguard.Hook.Dispatch.{
  Services, kill_switch_active, read_env_disable, seed_output, session_start_output,
  dispatch_pretooluse, dispatch, answer, answer_parsed, run_with_source, non_empty, off,
}

module _ {V : Type 0} (s : Services V) (config : Config) (env : EnvDisable)
    (input : HookInput V) where
  seed_output_exit : (id : Option Text) → (seed_output s config env input id).1 ≡ 0
  unfolding seed_output
  seed_output_exit none = refl
  seed_output_exit (some id) = refl

  session_start_output_exit : (session_start_output s config env input).1 ≡ 0
  unfolding session_start_output
  session_start_output_exit =
      elim (Bool-cases (not config.canary.enabled || off config env (codes "canary"))) [
        | inl e ↦ rw e
        | inr e ↦ rw e (seed_output_exit (non_empty s config env input input.session_id))
      ]

  dispatch-eq :
      eq_text input.hook_event_name (codes "PreToolUse") ≡ true
      → dispatch s config env input ≡ dispatch_pretooluse s config env input
  unfolding dispatch
  dispatch-eq e = rw e

  session_start_answer :
      eq_text input.hook_event_name (codes "SessionStart") ≡ true
      → (answer s config env input).1 ≡ 0
  unfolding answer
  session_start_answer e = rw e session_start_output_exit

  other_answer :
      eq_text input.hook_event_name (codes "SessionStart") ≡ false
      → answer s config env input
        ≡ emit s.neutralize input.hook_event_name (dispatch s config env input).0
  unfolding answer
  other_answer e = rw e

  answer_exit :
      ((answer s config env input).1 ≡ 2
        ↔ (input.hook_event_name ≡ pre_tool_use)
          × ((dispatch_pretooluse s config env input).0.tier ≡ block))
      × (((answer s config env input).1 ≡ 2) ⊎ ((answer s config env input).1 ≡ 0))
  answer_exit = elim (Bool-cases (eq_text input.hook_event_name (codes "SessionStart"))) [
    | inl e ↦ (
      (
        (λ h. cc (h, session_start_answer e)),
        (λ h. cc (sym ((eq_text_iff input.hook_event_name (codes "SessionStart")).0 e) ∙ h.0)),
      ),
      inr (session_start_answer e),
    )
    | inr e ↦
        let code = ap (λ a. a.1) (other_answer e) in
        let exit = emit_exit s.neutralize input.hook_event_name (dispatch s config env input).0 in
        let tier = λ (h : input.hook_event_name ≡ pre_tool_use).
          ap (λ d. d.0.tier) (dispatch-eq ((eq_text_iff input.hook_event_name pre_tool_use).1 h)) in
        (
          (
            (λ h.
                let blocked = exit.0.0 (sym code ∙ h) in
                (blocked.1, sym (tier blocked.1) ∙ blocked.0)),
            (λ h. code ∙ exit.0.1 (tier h.0 ∙ h.1, h.0)),
          ),
          elim exit.1 [ inl x ↦ inl (code ∙ x) | inr x ↦ inr (code ∙ x) ],
        )
  ]

module _ {V : Type 0} (s : Services V) (parse : Text → Option (HookInput V)) (env_var : Option Text)
    (stdin_json : Text) (config : Config) where
  abbrev pub Stops : HookInput V → Type 0
  Stops input =
      (parse stdin_json ≡ some input)
      × (input.hook_event_name ≡ pre_tool_use)
      × ((dispatch_pretooluse s config (read_env_disable env_var) input).0.tier ≡ block)

  same_input :
      (i j : HookInput V)
      → some i ≡ some j
      → (i.hook_event_name ≡ pre_tool_use)
        × ((dispatch_pretooluse s config (read_env_disable env_var) i).0.tier ≡ block)
      → (j.hook_event_name ≡ pre_tool_use)
        × ((dispatch_pretooluse s config (read_env_disable env_var) j).0.tier ≡ block)
  same_input i j e h =
      subst
        (λ x.
          (x.hook_event_name ≡ pre_tool_use)
          × ((dispatch_pretooluse s config (read_env_disable env_var) x).0.tier ≡ block))
        (cc e) h

  run-off :
      kill_switch_active config (read_env_disable env_var) ≡ true
      → run_with_source s parse env_var stdin_json config ≡ (none, 0)
  unfolding run_with_source
  run-off k = rw k

  run-on :
      kill_switch_active config (read_env_disable env_var) ≡ false
      → run_with_source s parse env_var stdin_json config
        ≡ answer_parsed s parse env_var config (parse stdin_json)
  unfolding run_with_source
  run-on k = rw k

  run-malformed :
      kill_switch_active config (read_env_disable env_var) ≡ false
      → parse stdin_json ≡ none
      → run_with_source s parse env_var stdin_json config ≡ (none, 0)
  unfolding answer_parsed
  run-malformed k p = run-on k ∙ ap (answer_parsed s parse env_var config) p

  run-input :
      (input : HookInput V)
      → kill_switch_active config (read_env_disable env_var) ≡ false
      → parse stdin_json ≡ some input
      → run_with_source s parse env_var stdin_json config
        ≡ answer s config (read_env_disable env_var) input
  unfolding answer_parsed
  run-input input k p = run-on k ∙ ap (answer_parsed s parse env_var config) p

  -- The hook exits with 2, which stops the tool, exactly when the kill switch is off, the input
  -- reads as an event before a tool runs, and the verdict on it is a block; it exits with 0 in
  -- every other case.
  pub run_with_source-Stops :
      ((run_with_source s parse env_var stdin_json config).1 ≡ 2
        ↔ (kill_switch_active config (read_env_disable env_var) ≡ false)
          × ((input : HookInput V) × Stops input))
      × (((run_with_source s parse env_var stdin_json config).1 ≡ 2)
          ⊎ ((run_with_source s parse env_var stdin_json config).1 ≡ 0))
  run_with_source-Stops =
      let env = read_env_disable env_var in
      elim (Bool-cases (kill_switch_active config env)) [
        | inl k ↦ (
          ((λ h. cc (h, ap (λ r. r.1) (run-off k))), (λ h. cc (sym k ∙ h.0))),
          inr (ap (λ r. r.1) (run-off k)),
        )
        | inr k ↦ elim (Option-cases (parse stdin_json)) [
          | inl p ↦
              let zero = ap (λ r. r.1) (run-malformed k p) in
              (((λ h. cc (h, zero)), (λ h. cc (sym p ∙ h.1.1.0))), inr zero)
          | inr (input, p) ↦
              let code = ap (λ r. r.1) (run-input input k p) in
              let exit = answer_exit s config env input in
              (
                (
                  (λ h.
                      let blocked = exit.0.0 (sym code ∙ h) in
                      (k, (input, (p, blocked.0, blocked.1)))),
                  (λ h.
                      code
                      ∙ exit.0.1 (same_input h.1.0 input (sym h.1.1.0 ∙ p) (h.1.1.1, h.1.1.2))),
                ),
                elim exit.1 [ inl x ↦ inl (code ∙ x) | inr x ↦ inr (code ∙ x) ],
              )
        ]
      ]
