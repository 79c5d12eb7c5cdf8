-- ===== src/Config/Validate/Tests.antt =====
-- The validation of the default configuration.
use apohara_agentguard.Prelude.{◌≡◌, ◌↔◌, ok}
use apohara_agentguard.Config.{default_config}
use apohara_agentguard.Config.Validate.{validate, IsValid, validate_iff}

validate_iff_example : (validate default_config ≡ ok tt) ↔ IsValid default_config
validate_iff_example = validate_iff default_config
