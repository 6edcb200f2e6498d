-- ===== src/Kad.antt =====
-- Kademlia: identifiers, the routing table and the packet trackers.
pub mod NodeId
pub mod Routing
pub mod Tracker
pub mod Utf8
pub mod Wire
pub mod Tag
pub mod TagNames
pub mod Packet
pub mod Traversal
mod Tests
