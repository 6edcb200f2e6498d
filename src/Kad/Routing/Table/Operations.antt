-- ===== src/Kad/Routing/Table/Operations.antt =====
-- `add_contact` and `remove` of table.rs: what they do to the entries, and that they keep the counts.
use p2p_overlord_agents.Base.{
  ℕ, ◌+◌, ◌-◌, ◌≡◌, refl, sym, subst, ap, ◌∙◌, ◌⊎◌, Bool, true, false, Option, none, some, inl, inr,
  arith, bool_to_ℕ, Option-cases, count_if, find_if, SameItems, count_if-true,
}
use p2p_overlord_agents.Base.Map
use p2p_overlord_agents.Kad.NodeId.{NodeId}
use p2p_overlord_agents.Kad.Routing.Contact.{
  Contact, Ipv4Addr, Ipv4Addr-discrete, RoutingError, AddResult, ok, err,
}
use p2p_overlord_agents.Kad.Routing.Bin.{has_id, has_ip, in_subnet, refresh_entry}
use p2p_overlord_agents.Kad.Routing.Zone.{RoutingZone, new_root}
use p2p_overlord_agents.Kad.Routing.Zone
use p2p_overlord_agents.Kad.Routing.Zone.Shape.{contacts, IsZone}
use p2p_overlord_agents.Kad.Routing.Zone.Add.{refuses, inserts, updates, add_lem}
use p2p_overlord_agents.Kad.Routing.Zone.Lookup.{get-find_if, remove_lem, count_option}
use p2p_overlord_agents.Kad.Routing.Table.{
  RoutingTable, AddOutcome, done, failed, count_of, check_limits, count_added, count_moved,
  add_to_root, add_contact, remove, with_max_size, ip_of, zone_fuel, get, decrement_subnet,
  decrement,
}
use p2p_overlord_agents.Kad.Routing.Table.Counts.{count_of-decrement, count_of-decrement_subnet}
use p2p_overlord_agents.Kad.Routing.Table.Invariant.{
  IsTable, kept-IsTable, added-IsTable, moved-IsTable,
}

abbrev zone_result : RoutingTable → Contact → RoutingZone × AddResult
zone_result t c = Zone.add zone_fuel t.root c t.total_contacts t.max_size

module _ (t : RoutingTable) (c : Contact) where
  root_inserts :
      (zone_result t c).1 ≡ ok true
      → add_to_root t c ≡ (count_added t (zone_result t c).0 c.ip, done)
  unfolding add_to_root
  root_inserts e = ground arith

  root_updates :
      (zone_result t c).1 ≡ ok false
      → add_to_root t c
        ≡ (count_moved t (zone_result t c).0 (ip_of (Zone.get t.root c.id)) c.ip, done)
  unfolding add_to_root
  root_updates e = ground arith

  root_refuses :
      (e : RoutingError)
      → (zone_result t c).1 ≡ err e
      → add_to_root t c ≡ (record t { root = (zone_result t c).0 }, failed e)
  unfolding add_to_root
  root_refuses e h = ground arith

  refused_early : (e : RoutingError) → check_limits t c ≡ some e → add_contact t c ≡ (t, failed e)
  unfolding add_contact
  refused_early e h = ground arith

  let_through : check_limits t c ≡ none → add_contact t c ≡ add_to_root t c
  unfolding add_contact
  let_through h = ground arith

-- What `add_contact` may do to the entries of a table.
pub data AddsContact (t : RoutingTable) (c : Contact) (t' : RoutingTable) (o : AddOutcome)
    : Type 0 where
  keeps :
      (e : RoutingError)
      → o ≡ failed e
      → SameItems (contacts t'.root) (contacts t.root)
      → AddsContact t c t' o
  adds :
      o ≡ done
      → get t c.id ≡ none
      → ((p : Contact → Bool)
          → count_if p (contacts t'.root) ≡ count_if p (contacts t.root) + bool_to_ℕ (p c))
      → AddsContact t c t' o
  replaces :
      (old : Contact)
      → o ≡ done
      → get t c.id ≡ some old
      → ((p : Contact → Bool)
          → count_if p (contacts t'.root) + bool_to_ℕ (p old)
            ≡ count_if p (contacts t.root) + bool_to_ℕ (p (refresh_entry old c)))
      → AddsContact t c t' o

abbrev Good : RoutingTable → Contact → RoutingTable × AddOutcome → Type 0
Good t c r = IsTable r.0 × AddsContact t c r.0 r.1

pub get_find :
    (t : RoutingTable) (id : NodeId) → IsTable t → get t id ≡ find_if (has_id id) (contacts t.root)
unfolding get
get_find t id v = get-find_if 0 t.root id v.trie

count_moved_root :
    (t : RoutingTable) (root : RoutingZone) (old : Option Ipv4Addr) (ip : Ipv4Addr)
    → (count_moved t root old ip).root ≡ root
unfolding count_moved
count_moved_root t root none ip = refl
count_moved_root t root (some old) ip = ground arith

module _ (t : RoutingTable) (c : Contact) (v : IsTable t) (allowed : check_limits t c ≡ none) where
  add_to_root-Good : Good t c (add_to_root t c)
  add_to_root-Good =
      let (z, spec) =
        add_lem zone_fuel 0 t.root c t.total_contacts t.max_size v.trie (omega arith) in
      elim spec [
        | refuses e q s ↦
            subst (Good t c) (sym (root_refuses t c e q))
              (kept-IsTable t (zone_result t c).0 v z s, keeps e refl s)
        | inserts q f s ↦ subst (Good t c) (sym (root_inserts t c q)) (
          added-IsTable t c (zone_result t c).0 v z allowed f s,
          unfold count_added in adds refl (get_find t c.id v ∙ f) s,
        )
        | updates old q f s ↦ subst (Good t c) (sym (root_updates t c q)) (
          moved-IsTable t c (zone_result t c).0 v z allowed old f s,
          replaces old refl (get_find t c.id v ∙ f) (λ p.
              rw (count_moved_root t (zone_result t c).0 (ip_of (Zone.get t.root c.id)) c.ip)
                (s p)),
        )
      ]

-- `add_contact` ends on every well-formed table. It fails with all entries kept, adds the contact
-- under a new identifier, or refreshes the entry with its identifier; and the counts of addresses,
-- of public /24 networks and of all entries are again those of the trie, with at most one entry at
-- an address and ten in a public /24.
pub add_contact_lem :
    (t : RoutingTable) (c : Contact)
    → IsTable t
    → IsTable (add_contact t c).0 × AddsContact t c (add_contact t c).0 (add_contact t c).1
add_contact_lem t c v = elim (Option-cases (check_limits t c)) [
  | inr (e, h) ↦ subst (Good t c) (sym (refused_early t c e h)) (v, keeps e refl (λ p. refl))
  | inl h ↦ subst (Good t c) (sym (let_through t c h)) (add_to_root-Good t c v h)
]

-- What `remove` hands on from the trie.
removed_table : RoutingTable → RoutingZone → Contact → RoutingTable
removed_table t root c = record t {
  root = root;
  ip_counts = decrement Ipv4Addr-discrete c.ip t.ip_counts;
  subnet_counts = decrement_subnet c.ip t.subnet_counts;
  total_contacts = t.total_contacts - 1;
}

removed-IsTable :
    (t : RoutingTable) (root : RoutingZone) (c : Contact)
    → IsTable t
    → IsZone 0 root
    → ((p : Contact → Bool)
        → count_if p (contacts root) + bool_to_ℕ (p c) ≡ count_if p (contacts t.root))
    → IsTable (removed_table t root c)
unfolding removed_table
removed-IsTable t root c v z s = record {
  trie = z;
  total = omega (
    arith,
    v.total,
    s (λ _. true),
    count_if-true (contacts root),
    count_if-true (contacts t.root),
  );
  ips = λ ip.
      count_of-decrement Ipv4Addr-discrete c.ip ip t.ip_counts
      ∙ omega (arith, v.ips ip, s (has_ip ip));
  ip_once = λ ip. omega (arith, v.ip_once ip, s (has_ip ip));
  subnets = λ n.
      count_of-decrement_subnet n c.ip t.subnet_counts
      ∙ omega (arith, v.subnets n, s (in_subnet n));
  spread = λ n. omega (arith, v.spread n, s (in_subnet n));
}

remove_found :
    (t : RoutingTable) (id : NodeId) (c : Contact)
    → (Zone.remove t.root id).1 ≡ some c
    → remove t id ≡ (removed_table t (Zone.remove t.root id).0 c, true)
unfolding remove removed_table
remove_found t id c e = ground arith

remove_missing :
    (t : RoutingTable) (id : NodeId)
    → (Zone.remove t.root id).1 ≡ none
    → remove t id ≡ (record t { root = (Zone.remove t.root id).0 }, false)
unfolding remove
remove_missing t id e = ground arith

abbrev Removed : RoutingTable → NodeId → RoutingTable × Bool → Type 0
Removed t id r =
    IsTable r.0
    × (((r.1 ≡ false) × (get t id ≡ none) × SameItems (contacts r.0.root) (contacts t.root))
        ⊎ ((c : Contact) × (r.1 ≡ true)
            × (get t id ≡ some c)
            × ((p : Contact → Bool)
                → count_if p (contacts r.0.root) + bool_to_ℕ (p c) ≡ count_if p (contacts t.root))))

-- `remove` takes out the entry with the identifier and answers true, or answers false and keeps all
-- entries where there is none; the counts stay those of the trie.
pub remove_contact_lem :
    (t : RoutingTable) (id : NodeId)
    → IsTable t
    → IsTable (remove t id).0
      × ((((remove t id).1 ≡ false)
            × (get t id ≡ none)
            × SameItems (contacts (remove t id).0.root) (contacts t.root))
          ⊎ ((c : Contact) × ((remove t id).1 ≡ true)
              × (get t id ≡ some c)
              × ((p : Contact → Bool)
                  → count_if p (contacts (remove t id).0.root) + bool_to_ℕ (p c)
                    ≡ count_if p (contacts t.root))))
remove_contact_lem t id v =
    let (z, (f, s)) = remove_lem 0 t.root id v.trie in
    elim (Option-cases (Zone.remove t.root id).1) [
      | inl e ↦
          let still : SameItems (contacts (Zone.remove t.root id).0) (contacts t.root) =
            λ p. omega (arith, s p, ap (count_option p) e) in
          subst (Removed t id) (sym (remove_missing t id e)) (
            kept-IsTable t (Zone.remove t.root id).0 v z still,
            inl (refl, get_find t id v ∙ sym f ∙ e, still),
          )
      | inr (c, e) ↦
          let less : (p : Contact → Bool)
              → count_if p (contacts (Zone.remove t.root id).0) + bool_to_ℕ (p c)
                ≡ count_if p (contacts t.root) =
            λ p. omega (arith, s p, ap (count_option p) e) in
          subst (Removed t id) (sym (remove_found t id c e)) (
            removed-IsTable t (Zone.remove t.root id).0 c v z less,
            inr (c, refl, get_find t id v ∙ sym f ∙ e, unfold removed_table in less),
          )
    ]

-- A new table is well formed.
pub with_max_size-IsTable : (own : NodeId) (m : ℕ) → IsTable (with_max_size own m)
unfolding with_max_size new_root count_of Map.lookup
with_max_size-IsTable own m = record {
  trie = (
    refl,
    omega arith,
    record { unique = λ id. omega arith; bounded = omega arith; spread = λ s. omega arith },
  );
  total = refl;
  ips = λ ip. refl;
  ip_once = λ ip. omega arith;
  subnets = λ s. refl;
  spread = λ s. omega arith;
}
