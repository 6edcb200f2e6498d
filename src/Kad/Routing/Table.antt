-- ===== src/Kad/Routing/Table.antt =====
-- crates/overlord-kad-routing/src/table.rs: the trie with the counts of contacts for each address and
-- for each public /24, which limit what is added.
pub mod Counts
pub mod Invariant
pub mod Operations
pub mod Lookup
pub mod Closest
use p2p_overlord_agents.Base.{
  ℕ, zero, suc, ◌+◌, ◌-◌, ◌*◌, ◌≤◌, Bool, true, false, not, ◌&&◌, Option, none, some, List, [], ltb,
  leb, ◌==◌, if◌then◌else◌, same, take, length,
}
use p2p_overlord_agents.Base.Map
use p2p_overlord_agents.Base.Map.{Map}
use p2p_overlord_agents.Base.Sort.{sort_by}
use p2p_overlord_agents.Kad.NodeId.{NodeId, distance, cmp, is_less}
use p2p_overlord_agents.Kad.Routing.Contact.{
  Contact, Ipv4Addr, Ipv4Addr-discrete, Subnet24, Subnet24-discrete, subnet24, is_lan, RoutingError,
  ip_limit_exceeded, subnet_limit_exceeded, global, AddResult, ok, err, stuck,
}
use p2p_overlord_agents.Kad.Routing.Zone.{RoutingZone, new_root, usize_max}
use p2p_overlord_agents.Kad.Routing.Zone

abbrev pub default_max_size : ℕ
default_max_size = 12_000

abbrev pub global_max_per_subnet24 : ℕ
global_max_per_subnet24 = 10

-- The trie is 128 levels deep at most, and each level takes two calls.
abbrev pub zone_fuel : ℕ
zone_fuel = 256

pub record RoutingTable : Type 0 where
  pub own_id : NodeId
  pub max_size : ℕ
  pub root : RoutingZone
  pub ip_counts : Map Ipv4Addr ℕ
  pub subnet_counts : Map Subnet24 ℕ
  pub total_contacts : ℕ

unfoldable pub with_max_size : NodeId → ℕ → RoutingTable
with_max_size own_id max_size = record {
  own_id = own_id;
  max_size = max_size;
  root = new_root;
  ip_counts = [];
  subnet_counts = [];
  total_contacts = 0;
}

unfoldable pub new_table : NodeId → RoutingTable
unfolding with_max_size
new_table own_id = with_max_size own_id default_max_size

abbrev pub or_zero : Option ℕ → ℕ
or_zero none = 0
or_zero (some n) = n

-- `map.get(&k).copied().unwrap_or(0)`
unfoldable pub count_of {ℓ} : {K : Type ℓ} → Discrete K → K → Map K ℕ → ℕ
count_of d k m = or_zero (Map.lookup d k m)

-- `*map.entry(k).or_insert(0) += 1`
unfoldable pub increment {ℓ} : {K : Type ℓ} → Discrete K → K → Map K ℕ → Map K ℕ
unfolding count_of
increment d k m = Map.insert d k (count_of d k m + 1) m

-- `if let Some(cnt) = map.get_mut(&k) { if *cnt > 1 { *cnt -= 1 } else { map.remove(&k) } }`
unfoldable pub decrement {ℓ} : {K : Type ℓ} → Discrete K → K → Map K ℕ → Map K ℕ
decrement d k m = elim (Map.lookup d k m) [
  | some n ↦ if ltb 1 n then Map.insert d k (n - 1) m else Map.remove d k m
  | none ↦ m
]

abbrev pub increment_subnet : Ipv4Addr → Map Subnet24 ℕ → Map Subnet24 ℕ
increment_subnet ip m = if is_lan ip then m else increment Subnet24-discrete (subnet24 ip) m

abbrev pub decrement_subnet : Ipv4Addr → Map Subnet24 ℕ → Map Subnet24 ℕ
decrement_subnet ip m = if is_lan ip then m else decrement Subnet24-discrete (subnet24 ip) m

abbrev pub ip_of : Option Contact → Option Ipv4Addr
ip_of none = none
ip_of (some c) = some c.ip

-- `old == Some(ip)`
abbrev pub is_ip : Ipv4Addr → Option Ipv4Addr → Bool
is_ip ip none = false
is_ip ip (some old) = same Ipv4Addr-discrete old ip

-- The two checks before the trie is touched; `none` lets the contact through.
unfoldable pub check_limits : RoutingTable → Contact → Option RoutingError
check_limits t c =
    let known = is_ip c.ip (ip_of (Zone.get t.root c.id)) in
    if ltb 0 (count_of Ipv4Addr-discrete c.ip t.ip_counts) && not known
    then some (ip_limit_exceeded c.ip)
    else if not (is_lan c.ip)
        && (not known
            && leb global_max_per_subnet24
                (count_of Subnet24-discrete (subnet24 c.ip) t.subnet_counts))
    then some (subnet_limit_exceeded 24 global)
    else none

-- The counts after a contact was added, with the trie that it was added to.
unfoldable pub count_added : RoutingTable → RoutingZone → Ipv4Addr → RoutingTable
count_added t root new_ip = record t {
  root = root;
  ip_counts = increment Ipv4Addr-discrete new_ip t.ip_counts;
  subnet_counts = increment_subnet new_ip t.subnet_counts;
  total_contacts = t.total_contacts + 1;
}

-- The counts after a contact was refreshed: those of the old and the new address, if they differ.
unfoldable pub count_moved : RoutingTable → RoutingZone → Option Ipv4Addr → Ipv4Addr → RoutingTable
count_moved t root none new_ip = record t { root = root }
count_moved t root (some old) new_ip =
    if same Ipv4Addr-discrete old new_ip then record t { root = root } else record t {
      root = root;
      ip_counts = increment Ipv4Addr-discrete new_ip (decrement Ipv4Addr-discrete old t.ip_counts);
      subnet_counts = increment_subnet new_ip (decrement_subnet old t.subnet_counts);
    }

-- `Ok(())` is `none`.
pub data AddOutcome : Type 0 where
  done : AddOutcome
  failed : RoutingError → AddOutcome
  out_of_fuel : AddOutcome

unfoldable pub add_to_root : RoutingTable → Contact → RoutingTable × AddOutcome
unfolding count_added count_moved
add_to_root t c =
    let old_ip = ip_of (Zone.get t.root c.id) in
    let (root, r) = Zone.add zone_fuel t.root c t.total_contacts t.max_size in
    elim r [
      | ok added ↦ elim added [
        | true ↦ (count_added t root c.ip, done)
        | false ↦ (count_moved t root old_ip c.ip, done)
      ]
      | err e ↦ (record t { root = root }, failed e)
      | stuck ↦ (record t { root = root }, out_of_fuel)
    ]

unfoldable pub add_contact : RoutingTable → Contact → RoutingTable × AddOutcome
unfolding add_to_root
add_contact t c = elim (check_limits t c) [ some e ↦ (t, failed e) | none ↦ add_to_root t c ]

-- `a.id.distance(target).cmp(&b.id.distance(target)) == Less`
abbrev pub nearer : NodeId → Contact → Contact → Bool
nearer target a b = is_less (cmp (distance a.id target) (distance b.id target))

unfoldable pub get_closest : RoutingTable → NodeId → ℕ → List Contact
get_closest t target n =
    take n (sort_by (nearer target) (Zone.get_closest t.root target usize_max []))

unfoldable pub remove : RoutingTable → NodeId → RoutingTable × Bool
remove t id =
    let (root, removed) = Zone.remove t.root id in
    elim removed [
      | some c ↦ (
        record t {
          root = root;
          ip_counts = decrement Ipv4Addr-discrete c.ip t.ip_counts;
          subnet_counts = decrement_subnet c.ip t.subnet_counts;
          total_contacts = t.total_contacts - 1;
        },
        true,
      )
      | none ↦ (record t { root = root }, false)
    ]

unfoldable pub len : RoutingTable → ℕ
len t = t.total_contacts

unfoldable pub is_empty : RoutingTable → Bool
is_empty t = t.total_contacts == 0

unfoldable pub get : RoutingTable → NodeId → Option Contact
get t id = Zone.get t.root id

unfoldable pub all_contacts : RoutingTable → List Contact
unfolding get_closest
all_contacts t = get_closest t t.own_id t.total_contacts
