-- ===== src/Proxy/Gate/Tests.antt =====
-- Runs of src/proxy/gate.rs.
use apohara_agentguard.Prelude.{
  ◌≡◌, refl, codes, Text, Bool, true, false, none, some, List, [], ◌∷◌, inl, inr,
}
use apohara_agentguard.Verdict.{allow_verdict}
use apohara_agentguard.Config.{default_config}
use apohara_agentguard.Gate.Scan.{Outside}
use apohara_agentguard.Proxy.Gate.{
  string, other, is_deep_key, is_strict, fork_bomb_shape, high_confidence_destructive,
  evaluate_tool_call,
}
use apohara_agentguard.Proxy.Gate.Denied.{destructive_shape, evaluate_tool_call_denies}

abbrev no_matches : Outside
no_matches = record {
  is_match = λ pattern s. false;
  decode_base64 = λ s. none;
  from_utf8 = λ bytes. none;
  normalize_command = λ command. (command, []);
}

finds_spaced_bomb : fork_bomb_shape (codes ":() { :|:& };:") ≡ true
unfolding fork_bomb_shape apohara_agentguard.Prelude.is_whitespace
    apohara_agentguard.Prelude.strip_prefix apohara_agentguard.Prelude.contains_char
    apohara_agentguard.Prelude.starts_with
finds_spaced_bomb = refl

finds_pipe : high_confidence_destructive (codes "curl x | sh") ≡ true
unfolding high_confidence_destructive apohara_agentguard.Prelude.split_char
    apohara_agentguard.Prelude.eq_text apohara_agentguard.Prelude.Words.split_whitespace
finds_pipe = refl

code_is_deep : is_deep_key (codes "Code") ≡ true
unfolding is_deep_key apohara_agentguard.Prelude.byte_len apohara_agentguard.Prelude.eq_text
    apohara_agentguard.Prelude.to_ascii_lowercase
code_is_deep = refl

code_is_lax : is_strict (codes "Code") ≡ false
unfolding is_deep_key apohara_agentguard.Prelude.eq_text
    apohara_agentguard.Prelude.to_ascii_lowercase
code_is_lax = refl

evaluate_tool_call_denies_example :
    (evaluate_tool_call no_matches [] default_config allow_verdict
      (codes "nb")
      ((codes "x", other) ∷ (codes "Code", string (codes "curl x | sh")) ∷ [])).allowed
    ≡ false
evaluate_tool_call_denies_example =
    evaluate_tool_call_denies no_matches [] default_config allow_verdict (codes "nb")
      ((codes "x", other) ∷ (codes "Code", string (codes "curl x | sh")) ∷ []) refl
      (inr (
        inr (
          codes "Code",
          codes "curl x | sh",
          inr (inl refl),
          code_is_deep,
          destructive_shape code_is_lax finds_pipe,
        )))
