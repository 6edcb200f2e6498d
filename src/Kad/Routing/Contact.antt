-- ===== src/Kad/Routing/Contact.antt =====
-- crates/overlord-kad-routing/src/contact.rs and error.rs: the routing entry, its address tests, and
-- the reasons for which an entry is refused. A time is a number; where the source reads the clock,
-- the time is an argument.
use p2p_overlord_agents.Base.{
  ℕ, Bool, true, false, ◌&&◌, Option, none, leb, ◌==◌, if◌then◌else◌, ℕ_discrete,
}
use p2p_overlord_agents.Kad.NodeId.{NodeId}

-- The four octets of an `Ipv4Addr`.
pub record Ipv4Addr : Type 0 where
  pub a : ℕ
  pub b : ℕ
  pub c : ℕ
  pub d : ℕ

unfoldable pub Ipv4Addr-discrete : Discrete Ipv4Addr
Ipv4Addr-discrete = hlevel ℕ_discrete

-- A `[u8; 3]` prefix.
pub record Subnet24 : Type 0 where
  pub s0 : ℕ
  pub s1 : ℕ
  pub s2 : ℕ

unfoldable pub Subnet24-discrete : Discrete Subnet24
Subnet24-discrete = hlevel ℕ_discrete

unfoldable pub subnet24 : Ipv4Addr → Subnet24
subnet24 ip = record { s0 = ip.a; s1 = ip.b; s2 = ip.c }

unfoldable pub is_lan : Ipv4Addr → Bool
is_lan ip =
    if ip.a == 10
    then true
    else if ip.a == 172 && (leb 16 ip.b && leb ip.b 31)
    then true
    else if ip.a == 192 && ip.b == 168
    then true
    else if ip.a == 127
    then true
    else false

pub data ContactType : Type 0 where
  active inactive dead : ContactType

pub record Contact : Type 0 where
  pub id : NodeId
  pub ip : Ipv4Addr
  pub udp_port : ℕ
  pub tcp_port : ℕ
  pub kad_version : ℕ
  pub udp_key : ℕ
  pub hello_source_udp_port : Option ℕ
  pub udp_firewalled : Bool
  pub tcp_firewalled : Bool
  pub requests_hello_res_ack : Bool
  pub verified : Bool
  pub contact_type : ContactType
  pub last_seen : ℕ
  pub created_at : ℕ

-- `Contact::new`, with the time that `SystemTime::now()` gives.
unfoldable pub new_contact : ℕ → NodeId → Ipv4Addr → ℕ → ℕ → ℕ → Contact
new_contact now id ip udp_port tcp_port kad_version = record {
  id = id;
  ip = ip;
  udp_port = udp_port;
  tcp_port = tcp_port;
  kad_version = kad_version;
  udp_key = 0;
  hello_source_udp_port = none;
  udp_firewalled = false;
  tcp_firewalled = false;
  requests_hello_res_ack = false;
  verified = false;
  contact_type = inactive;
  last_seen = now;
  created_at = now;
}

unfoldable pub mark_alive : ℕ → Contact → Contact
mark_alive now c = record c { contact_type = active; last_seen = now }

unfoldable pub mark_dead : Contact → Contact
mark_dead c = record c { contact_type = dead }

pub data SubnetLimitScope : Type 0 where
  global bin_local : SubnetLimitScope

pub data SplitDeniedReason : Type 0 where
  depth_limit max_table_size zone_index_cap : SplitDeniedReason

pub data RoutingError : Type 0 where
  table_full : ℕ → RoutingError
  ip_limit_exceeded : Ipv4Addr → RoutingError
  subnet_limit_exceeded : ℕ → SubnetLimitScope → RoutingError
  split_denied : SplitDeniedReason → RoutingError

-- `Ok(added)` or `Err(error)`. `stuck` is no value of the source: the model's fuel ran out.
pub data AddResult : Type 0 where
  ok : Bool → AddResult
  err : RoutingError → AddResult
  stuck : AddResult
