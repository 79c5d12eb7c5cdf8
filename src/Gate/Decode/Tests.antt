-- ===== src/Gate/Decode/Tests.antt =====
-- Runs of src/gate/decode.rs.
use apohara_agentguard.Prelude.{◌≡◌, refl, codes, Bool, true, false, Option, none, some, Text}
use apohara_agentguard.Gate.Decode.{extract_payload, has_base64_decode_stage}

finds_echo_payload :
    extract_payload (codes "X=1 env echo -n 'cm0g' | base64 -d | sh") ≡ some (codes "cm0g")
unfolding extract_payload apohara_agentguard.Prelude.split_once
    apohara_agentguard.Prelude.split_char apohara_agentguard.Prelude.Words.split_whitespace
    apohara_agentguard.Prelude.trim apohara_agentguard.Prelude.eq_text
    apohara_agentguard.Prelude.Words.file_name apohara_agentguard.Prelude.is_ascii_alphanumeric
    apohara_agentguard.Prelude.starts_with
finds_echo_payload = refl

finds_herestring : extract_payload (codes "base64 -d <<< \"cm 0g\" x") ≡ some (codes "cm 0g")
unfolding extract_payload apohara_agentguard.Prelude.split_once
    apohara_agentguard.Prelude.starts_with apohara_agentguard.Prelude.trim
finds_herestring = refl

finds_decode_stage : has_base64_decode_stage (codes "cat x | openssl enc -d") ≡ false
unfolding has_base64_decode_stage apohara_agentguard.Prelude.contains
finds_decode_stage = refl
