-- ===== src/Audit.antt =====
-- src/audit/mod.rs and src/audit/chain.rs: the audit log.
pub mod Chain
