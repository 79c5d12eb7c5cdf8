-- ===== src/Hook.antt =====
-- src/hook: what runs on an event of the host.
pub mod PathGuard
pub mod Dispatch
