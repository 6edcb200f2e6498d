-- ===== src/Kad/Tests.antt =====
-- Runs of crates/overlord-kad-proto, overlord-kad-routing and overlord-kad-net at concrete values,
-- and the theorems about them applied there.
use p2p_overlord_agents.Base.{
  ℕ, ◌+◌, ◌≡◌, ◌≢◌, ◌↔◌, ◌⊎◌, refl, min, compare, Bool, true, false, none, some, List, [], ◌∷◌,
  ◌++◌, arith, All, bool_to_ℕ, find_if, count_if, length, SameItems,
}
use p2p_overlord_agents.Base.Sort.{IsSorted, sort_by}
use p2p_overlord_agents.Kad.NodeId.{NodeId, Chunk, IsNodeId, zero_id, distance, cmp}
use p2p_overlord_agents.Kad.NodeId.Order.{value, cmp-compare}
use p2p_overlord_agents.Kad.Routing.Contact.{Contact, ContactType, Ipv4Addr, ok}
use p2p_overlord_agents.Kad.Routing.Bin.{RoutingBin, has_id, try_add}
use p2p_overlord_agents.Kad.Routing.Bin.Laws.{IsBin, try_add-IsBin}
use p2p_overlord_agents.Kad.Routing.Zone.{RoutingZone, leaf, add, split, usize_max}
use p2p_overlord_agents.Kad.Routing.Zone
use p2p_overlord_agents.Kad.Routing.Zone.Shape.{contacts, IsZone}
use p2p_overlord_agents.Kad.Routing.Zone.Fill.{split_result, split_lem}
use p2p_overlord_agents.Kad.Routing.Zone.Add.{AddSpec, add_lem}
use p2p_overlord_agents.Kad.Routing.Zone.Lookup.{get-find_if}
use p2p_overlord_agents.Kad.Routing.Table.{
  RoutingTable, with_max_size, add_contact, remove, get, get_closest, nearer, done,
}
use p2p_overlord_agents.Kad.Routing.Table.Invariant.{IsTable}
use p2p_overlord_agents.Kad.Routing.Table.Operations.{
  AddsContact, add_contact_lem, remove_contact_lem, with_max_size-IsTable,
}
use p2p_overlord_agents.Kad.Routing.Table.Lookup.{merged, MapsTo, add_contact-get, remove-get}
use p2p_overlord_agents.Kad.Routing.Table.Closest.{get_closest-nearest}

abbrev chunk : ℕ → Chunk
chunk n = record { b0 = n; b1 = 0; b2 = 0; b3 = 0 }

abbrev near_id : NodeId
near_id = record { c0 = chunk 1; c1 = chunk 2; c2 = chunk 3; c3 = chunk 4 }

abbrev far_id : NodeId
far_id = record {
  c0 = record { b0 = 0; b1 = 0; b2 = 0; b3 = 128 };
  c1 = chunk 2;
  c2 = chunk 3;
  c3 = chunk 4;
}

abbrev ip_at : ℕ → Ipv4Addr
ip_at n = record { a = 8; b = 8; c = n; d = 1 }

abbrev near_contact : Contact
near_contact = record {
  id = near_id;
  ip = ip_at 1;
  udp_port = 4672;
  tcp_port = 4662;
  kad_version = 9;
  udp_key = 0;
  hello_source_udp_port = none;
  udp_firewalled = false;
  tcp_firewalled = false;
  requests_hello_res_ack = false;
  verified = false;
  contact_type = ContactType.active;
  last_seen = 5;
  created_at = 5;
}

abbrev far_contact : Contact
far_contact = record near_contact { id = far_id; ip = ip_at 2 }

abbrev table0 : RoutingTable
table0 = with_max_size zero_id 12_000

table0-IsTable : IsTable table0
table0-IsTable = with_max_size-IsTable zero_id 12_000

-- With one contact.
abbrev table1 : RoutingTable
table1 = (add_contact table0 near_contact).0

table1-IsTable : IsTable table1
table1-IsTable = (add_contact_lem table0 near_contact table0-IsTable).0

add_contact_example :
    IsTable (add_contact table1 far_contact).0
    × AddsContact table1 far_contact
        (add_contact table1 far_contact).0
        (add_contact table1 far_contact).1
add_contact_example = add_contact_lem table1 far_contact table1-IsTable

add_contact-get_example :
    (((add_contact table1 far_contact).1 ≡ done)
      × MapsTo table1 far_id
          (merged (get table1 far_id) far_contact)
          (add_contact table1 far_contact).0)
    ⊎ (((add_contact table1 far_contact).1 ≢ done)
        × ((j : NodeId) → get (add_contact table1 far_contact).0 j ≡ get table1 j))
add_contact-get_example = add_contact-get table1 far_contact table1-IsTable

remove-get_example :
    (((remove table1 near_id).1 ≡ false) ↔ (get table1 near_id ≡ none))
    × (get (remove table1 near_id).0 near_id ≡ none)
    × ((j : NodeId) → near_id ≢ j → get (remove table1 near_id).0 j ≡ get table1 j)
remove-get_example = remove-get table1 near_id table1-IsTable

remove_contact_example :
    IsTable (remove table1 near_id).0
    × ((((remove table1 near_id).1 ≡ false)
          × (get table1 near_id ≡ none)
          × SameItems (contacts (remove table1 near_id).0.root) (contacts table1.root))
        ⊎ ((c : Contact) × ((remove table1 near_id).1 ≡ true)
            × (get table1 near_id ≡ some c)
            × ((p : Contact → Bool)
                → count_if p (contacts (remove table1 near_id).0.root) + bool_to_ℕ (p c)
                  ≡ count_if p (contacts table1.root))))
remove_contact_example = remove_contact_lem table1 near_id table1-IsTable

-- Two contacts in one leaf.
abbrev table2 : RoutingTable
table2 = record {
  own_id = zero_id;
  max_size = 12_000;
  root = leaf 0 0 (far_contact ∷ near_contact ∷ []);
  ip_counts = [];
  subnet_counts = [];
  total_contacts = 2;
}

get_closest_example :
    (rest : List Contact) × SameItems (get_closest table2 zero_id 1 ++ rest) (contacts table2.root)
    × IsSorted (nearer zero_id) (get_closest table2 zero_id 1)
    × All (λ x. All (λ y. nearer zero_id y x ≡ false) rest) (get_closest table2 zero_id 1)
    × (length (get_closest table2 zero_id 1) ≡ min 1 (length (contacts table2.root)))
get_closest_example = get_closest-nearest table2 zero_id 1 (omega arith)

nearest_first : get_closest table2 zero_id 2 ≡ near_contact ∷ far_contact ∷ []
unfolding get_closest sort_by Zone.get_closest cmp distance
nearest_first = refl

add_example :
    IsZone 0 (add 256 table1.root far_contact 1 12_000).0
    × AddSpec
        (contacts table1.root)
        far_contact
        (contacts (add 256 table1.root far_contact 1 12_000).0)
        (add 256 table1.root far_contact 1 12_000).1
add_example = add_lem 256 0 table1.root far_contact 1 12_000 table1-IsTable.trie (omega arith)

get_example : Zone.get table1.root far_id ≡ find_if (has_id far_id) (contacts table1.root)
get_example = get-find_if 0 table1.root far_id table1-IsTable.trie

empty-IsBin : IsBin []
empty-IsBin = record { unique = λ _. omega arith; bounded = omega arith; spread = λ _. omega arith }

abbrev bin1 : RoutingBin
bin1 = (try_add [] near_contact).0

bin1-IsBin : IsBin bin1
bin1-IsBin = try_add-IsBin [] near_contact empty-IsBin

try_add_example : IsBin (try_add bin1 far_contact).0
try_add_example = try_add-IsBin bin1 far_contact bin1-IsBin

split_example : split (add 1) 0 0 bin1 ≡ (split_result 0 0 bin1, ok true)
split_example = split_lem 0 0 0 bin1 bin1-IsBin

-- The identifiers of these runs are arrays of bytes.
near_id-IsNodeId : IsNodeId near_id
near_id-IsNodeId = record {
  c0_bytes = record {
    b0_lt = omega arith;
    b1_lt = omega arith;
    b2_lt = omega arith;
    b3_lt = omega arith;
  };
  c1_bytes = record {
    b0_lt = omega arith;
    b1_lt = omega arith;
    b2_lt = omega arith;
    b3_lt = omega arith;
  };
  c2_bytes = record {
    b0_lt = omega arith;
    b1_lt = omega arith;
    b2_lt = omega arith;
    b3_lt = omega arith;
  };
  c3_bytes = record {
    b0_lt = omega arith;
    b1_lt = omega arith;
    b2_lt = omega arith;
    b3_lt = omega arith;
  };
}

far_id-IsNodeId : IsNodeId far_id
far_id-IsNodeId = record {
  c0_bytes = record {
    b0_lt = omega arith;
    b1_lt = omega arith;
    b2_lt = omega arith;
    b3_lt = omega arith;
  };
  c1_bytes = near_id-IsNodeId.c1_bytes;
  c2_bytes = near_id-IsNodeId.c2_bytes;
  c3_bytes = near_id-IsNodeId.c3_bytes;
}

cmp_example : cmp near_id far_id ≡ compare (value near_id) (value far_id)
cmp_example = cmp-compare near_id far_id near_id-IsNodeId far_id-IsNodeId
