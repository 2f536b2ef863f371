-- ===== src/PolicyEngine.antt =====
-- packages/policy-engine: decisions from a declared policy set.
pub mod Engine
mod Examples
