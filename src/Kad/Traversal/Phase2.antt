-- ===== src/Kad/Traversal/Phase2.antt =====
-- crates/overlord-kad-dht/src/traversal.rs: whom the second phase asks, and from when on.
use p2p_overlord_agents.Base.{
  ℕ, ◌+◌, min, max, Bool, true, false, ◌&&◌, ◌||◌, Option, none, some, List, leb, ◌==◌,
  if◌then◌else◌, take, keep_if,
}
use p2p_overlord_agents.Kad.Routing.Contact.{Ipv4Addr}
use p2p_overlord_agents.Kad.NodeId.{NodeId, distance, from_le_bytes}
use p2p_overlord_agents.Kad.Traversal.{v4, v6, TraversalContact, closest_k, search_tolerance}

unfoldable pub is_lan_ip : Ipv4Addr → Bool
is_lan_ip ip =
    ((ip.a == 10 || (ip.a == 172 && (leb 16 ip.b && leb ip.b 31))) || (ip.a == 192 && ip.b == 168))
    || (ip.a == 127 || (ip.a == 169 && ip.b == 254))

unfoldable pub distance_high32 : NodeId → ℕ
unfolding from_le_bytes
distance_high32 d = from_le_bytes d.c0

unfoldable pub passes_search_tolerance : NodeId → TraversalContact → Bool
unfolding is_lan_ip distance_high32
passes_search_tolerance target c = elim c.addr.ip [
  | v4 ip ↦
      if is_lan_ip ip then true else leb (distance_high32 (distance target c.id)) search_tolerance
  | v6 _ ↦ false
]

unfoldable pub select_phase2_contacts : List TraversalContact → NodeId → ℕ → List TraversalContact
unfolding passes_search_tolerance
select_phase2_contacts contacts target fanout =
    take (min fanout closest_k) (keep_if (passes_search_tolerance target) contacts)

-- The instant of the first packet of the second phase.
unfoldable pub compute_initial_jumpstart_emit_at : Option ℕ → ℕ → ℕ → ℕ
compute_initial_jumpstart_emit_at none now grace = now
compute_initial_jumpstart_emit_at (some at_) now grace = max (at_ + grace) now
