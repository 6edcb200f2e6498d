-- ===== src/Kad/Routing.antt =====
-- The Kad routing table, crates/overlord-kad-routing.
pub mod Contact
pub mod Bin
pub mod Zone
pub mod Table
