-- ===== src/Kad/Routing/Bin.antt =====
-- crates/overlord-kad-routing/src/bin.rs: a bucket of at most K contacts, the oldest first.
pub mod Laws
use p2p_overlord_agents.Base.{
  ℕ, ◌≤◌, Bool, true, false, not, ◌&&◌, Option, none, some, List, [], ◌∷◌, ◌++◌, leb, ◌==◌, max,
  if◌then◌else◌, same, length, find_if, remove_first, count_if, any, head?,
}
use p2p_overlord_agents.Kad.NodeId.{NodeId, NodeId-discrete}
use p2p_overlord_agents.Kad.Routing.Contact.{
  Contact, ContactType, Ipv4Addr, Ipv4Addr-discrete, Subnet24, Subnet24-discrete, subnet24, is_lan,
  RoutingError, table_full, subnet_limit_exceeded, bin_local, AddResult, ok, err,
}

-- `K`, the k-bucket size of crates/overlord-kad-proto/src/constants.rs.
abbrev pub k_bucket : ℕ
k_bucket = 10

abbrev pub max_per_bin_subnet24 : ℕ
max_per_bin_subnet24 = 2

abbrev pub RoutingBin : Type 0
RoutingBin = List Contact

-- `c.id == id`
abbrev pub has_id : NodeId → Contact → Bool
has_id id c = same NodeId-discrete c.id id

abbrev pub has_ip : Ipv4Addr → Contact → Bool
has_ip ip c = same Ipv4Addr-discrete c.ip ip

-- `!is_lan(c.ip) && subnet24(c.ip) == subnet`
abbrev pub in_subnet : Subnet24 → Contact → Bool
in_subnet s c = not (is_lan c.ip) && same Subnet24-discrete (subnet24 c.ip) s

-- `Some(*index) != existing_pos`: the first contact with the identifier is the one that is updated,
-- so the others are the list without it.
abbrev pub others : NodeId → RoutingBin → RoutingBin
others id = remove_first (has_id id)

unfoldable pub subnet_exceeded : RoutingBin → Contact → Bool
subnet_exceeded bin contact =
    not (is_lan contact.ip)
    && leb max_per_bin_subnet24 (count_if (in_subnet (subnet24 contact.ip)) (others contact.id bin))

-- What `try_add` writes into the entry that it refreshes.
unfoldable pub refresh_entry : Contact → Contact → Contact
refresh_entry existing contact = record existing {
  ip = contact.ip;
  udp_port = contact.udp_port;
  tcp_port = contact.tcp_port;
  kad_version = max existing.kad_version contact.kad_version;
  udp_key = if contact.udp_key == 0 then existing.udp_key else contact.udp_key;
  last_seen = contact.last_seen;
}

unfoldable pub try_add : RoutingBin → Contact → RoutingBin × AddResult
unfolding subnet_exceeded refresh_entry
try_add bin contact =
    if subnet_exceeded bin contact
    then (bin, err (subnet_limit_exceeded 24 bin_local))
    else elim (find_if (has_id contact.id) bin) [
      | some existing ↦ (others contact.id bin ++ (refresh_entry existing contact ∷ []), ok false)
      | none ↦
          if leb k_bucket (length bin)
          then (bin, err (table_full k_bucket))
          else (bin ++ (contact ∷ []), ok true)
    ]

unfoldable pub remove : NodeId → RoutingBin → RoutingBin × Option Contact
remove id bin = (others id bin, find_if (has_id id) bin)

-- Moves the entry to the back.
unfoldable pub refresh : NodeId → RoutingBin → RoutingBin
refresh id bin = elim (find_if (has_id id) bin) [ some c ↦ others id bin ++ (c ∷ []) | none ↦ bin ]

unfoldable pub is_full : RoutingBin → Bool
is_full bin = leb k_bucket (length bin)

unfoldable pub oldest : RoutingBin → Option Contact
oldest bin = head? bin

is_dead : ContactType → Bool
is_dead ContactType.dead = true
is_dead ContactType.active = false
is_dead ContactType.inactive = false

unfoldable pub first_dead : RoutingBin → Option Contact
unfolding is_dead
first_dead bin = find_if (λ c. is_dead c.contact_type) bin

unfoldable pub contains_ip : Ipv4Addr → RoutingBin → Bool
contains_ip ip bin = any (has_ip ip) bin
