-- ===== src/Ed2k.antt =====
-- The ED2K side of the agent, crates/overlord-agent-emule.
pub mod Upload
mod Tests
