-- ===== src/Policy.antt =====
-- src/policy: the policy file, its pattern matcher and its evaluator.
pub mod Matcher
pub mod Schema
pub mod Engine
