-- ===== src/Kad/Packet.antt =====
-- crates/overlord-kad-proto/src/packet/types.rs: the packets that the models read or give.
use p2p_overlord_agents.Base.{ℕ, ◌/◌, ◌%◌, ◌^◌, List}
use p2p_overlord_agents.Kad.NodeId.{NodeId}
use p2p_overlord_agents.Kad.Routing.Contact.{Ipv4Addr}
use p2p_overlord_agents.Kad.Tag.{Ed2kHash, Tag}

pub record ContactEntry : Type 0 where
  pub node_id : NodeId
  pub ip : ℕ
  pub udp_port : ℕ
  pub tcp_port : ℕ
  pub version : ℕ

-- `Ipv4Addr::from(self.ip.to_be_bytes())`
unfoldable pub ip_addr : ContactEntry → Ipv4Addr
ip_addr e = record {
  a = e.ip / 2 ^ 24 % 256;
  b = e.ip / 2 ^ 16 % 256;
  c = e.ip / 2 ^ 8 % 256;
  d = e.ip % 256;
}

pub record SearchKeyReq : Type 0 where
  pub target : NodeId
  pub start_position : ℕ
  pub restrictive_payload : List ℕ

pub record SearchSourceReq : Type 0 where
  pub target : NodeId
  pub start_position : ℕ
  pub size : ℕ

pub record SearchNotesReq : Type 0 where
  pub target : NodeId
  pub size : ℕ

pub record SearchResultEntry : Type 0 where
  pub entry_id : Ed2kHash
  pub tags : List Tag

pub record SearchRes : Type 0 where
  pub sender_id : NodeId
  pub target : NodeId
  pub results : List SearchResultEntry

pub record PublishEntry : Type 0 where
  pub hash : Ed2kHash
  pub tags : List Tag
