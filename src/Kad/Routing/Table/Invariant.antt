-- ===== src/Kad/Routing/Table/Invariant.antt =====
-- The counts of table.rs are the counts of the entries, after every operation.
use p2p_overlord_agents.Base.{
  ℕ, ◌+◌, ◌≤◌, ◌<◌, ◌≡◌, sym, subst, ap, ◌∙◌, Bool, true, false, none, some, List, inl, inr, arith,
  same, bool_to_ℕ, Bool-cases, count_if, length, find_if, SameItems, count_if-true,
  count_if-remove_first, same_iff,
}
use p2p_overlord_agents.Kad.Routing.Contact.{
  Contact, Ipv4Addr, Ipv4Addr-discrete, Subnet24, Subnet24-discrete, subnet24,
}
use p2p_overlord_agents.Kad.Routing.Bin.{has_id, has_ip, in_subnet, refresh_entry}
use p2p_overlord_agents.Kad.Routing.Bin.Laws.{refresh_entry_ip}
use p2p_overlord_agents.Kad.Routing.Zone.{RoutingZone, new_root}
use p2p_overlord_agents.Kad.Routing.Zone
use p2p_overlord_agents.Kad.Routing.Zone.Shape.{contacts, IsZone}
use p2p_overlord_agents.Kad.Routing.Zone.Lookup.{get-find_if}
use p2p_overlord_agents.Kad.Routing.Table.{
  RoutingTable, count_of, decrement, decrement_subnet, check_limits, count_added, count_moved,
  ip_of, is_ip,
}
use p2p_overlord_agents.Kad.Routing.Table.Counts.{
  at_ip, at_subnet, count_of-increment, count_of-decrement, count_of-increment_subnet,
  count_of-decrement_subnet,
}

abbrev pub ip_count : RoutingTable → Ipv4Addr → ℕ
ip_count t ip = count_of Ipv4Addr-discrete ip t.ip_counts

abbrev pub subnet_count : RoutingTable → Subnet24 → ℕ
subnet_count t s = count_of Subnet24-discrete s t.subnet_counts

pub record IsTable (t : RoutingTable) : Type 0 where
  pub trie : IsZone 0 t.root
  pub total : t.total_contacts ≡ length (contacts t.root)
  pub ips : (ip : Ipv4Addr) → ip_count t ip ≡ count_if (has_ip ip) (contacts t.root)
  pub ip_once : (ip : Ipv4Addr) → count_if (has_ip ip) (contacts t.root) ≤ 1
  pub subnets : (s : Subnet24) → subnet_count t s ≡ count_if (in_subnet s) (contacts t.root)
  pub spread : (s : Subnet24) → count_if (in_subnet s) (contacts t.root) ≤ 10

length-SameItems : (xs ys : List Contact) → SameItems xs ys → length xs ≡ length ys
length-SameItems xs ys s = omega (arith, s (λ _. true), count_if-true xs, count_if-true ys)

-- A refused contact leaves the entries, in a trie that may have split.
pub kept-IsTable :
    (t : RoutingTable) (root : RoutingZone)
    → IsTable t
    → IsZone 0 root
    → SameItems (contacts root) (contacts t.root)
    → IsTable (record t { root = root })
kept-IsTable t root v z s = record {
  trie = z;
  total = v.total ∙ sym (length-SameItems (contacts root) (contacts t.root) s);
  ips = λ ip. v.ips ip ∙ sym (s (has_ip ip));
  ip_once = λ ip. omega (arith, v.ip_once ip, s (has_ip ip));
  subnets = λ n. v.subnets n ∙ sym (s (in_subnet n));
  spread = λ n. omega (arith, v.spread n, s (in_subnet n));
}

-- What the two checks let through.
limits_ip :
    (t : RoutingTable) (c : Contact)
    → check_limits t c ≡ none
    → is_ip c.ip (ip_of (Zone.get t.root c.id)) ≡ false
    → ip_count t c.ip ≡ 0
unfolding check_limits
limits_ip t c e k = ground arith

limits_subnet :
    (t : RoutingTable) (c : Contact) (s : Subnet24)
    → check_limits t c ≡ none
    → is_ip c.ip (ip_of (Zone.get t.root c.id)) ≡ false
    → at_subnet s c.ip ≡ true
    → subnet_count t s < 10
unfolding check_limits
limits_subnet t c s e k h =
    ground
      (arith, ap (λ x. count_of Subnet24-discrete x t.subnet_counts) {x = subnet24 c.ip} {y = s})

module _ (t : RoutingTable) (c : Contact) (root : RoutingZone) (v : IsTable t) (z : IsZone 0 root)
    (allowed : check_limits t c ≡ none) where
  module _ (new_id : find_if (has_id c.id) (contacts t.root) ≡ none)
      (s : (p : Contact → Bool)
        → count_if p (contacts root) ≡ count_if p (contacts t.root) + bool_to_ℕ (p c)) where
    unknown : is_ip c.ip (ip_of (Zone.get t.root c.id)) ≡ false
    unknown = ap (λ o. is_ip c.ip (ip_of o)) (get-find_if 0 t.root c.id v.trie ∙ new_id)

    pub added-IsTable : IsTable (count_added t root c.ip)
    unfolding count_added
    added-IsTable = record {
      trie = z;
      total = omega (
        arith,
        v.total,
        s (λ _. true),
        count_if-true (contacts root),
        count_if-true (contacts t.root),
      );
      ips = λ ip.
          count_of-increment Ipv4Addr-discrete c.ip ip t.ip_counts
          ∙ omega (arith, v.ips ip, s (has_ip ip));
      ip_once = λ ip. ground (
        arith,
        s (has_ip ip),
        v.ip_once ip,
        v.ips ip,
        limits_ip t c allowed unknown,
        ap (λ x. ip_count t x) {x = c.ip} {y = ip},
      );
      subnets = λ n.
          count_of-increment_subnet n c.ip t.subnet_counts
          ∙ omega (arith, v.subnets n, s (in_subnet n));
      spread = λ n.
          ground
            (arith, s (in_subnet n), v.spread n, v.subnets n, limits_subnet t c n allowed unknown);
    }

  module _ (old : Contact) (known_id : find_if (has_id c.id) (contacts t.root) ≡ some old)
      (s : (p : Contact → Bool)
        → count_if p (contacts root) + bool_to_ℕ (p old)
          ≡ count_if p (contacts t.root) + bool_to_ℕ (p (refresh_entry old c))) where
    known : is_ip c.ip (ip_of (Zone.get t.root c.id)) ≡ same Ipv4Addr-discrete old.ip c.ip
    known = ap (λ o. is_ip c.ip (ip_of o)) (get-find_if 0 t.root c.id v.trie ∙ known_id)

    moved_ip :
        (q : Ipv4Addr → Bool)
        → count_if (λ x. q x.ip) (contacts root) + bool_to_ℕ (q old.ip)
          ≡ count_if (λ x. q x.ip) (contacts t.root) + bool_to_ℕ (q c.ip)
    moved_ip q =
        s (λ x. q x.ip)
        ∙ ap (λ i. count_if (λ x. q x.ip) (contacts t.root) + bool_to_ℕ (q i))
            (refresh_entry_ip old c)

    moved_total : t.total_contacts ≡ length (contacts root)
    moved_total = omega (
      arith,
      v.total,
      s (λ _. true),
      count_if-true (contacts root),
      count_if-true (contacts t.root),
    )

    -- The entry keeps its address: no count changes.
    same-IsTable : old.ip ≡ c.ip → IsTable (record t { root = root })
    same-IsTable e =
        let still : (q : Ipv4Addr → Bool)
            → count_if (λ x. q x.ip) (contacts root) ≡ count_if (λ x. q x.ip) (contacts t.root) =
          λ q. omega (arith, moved_ip q, ap (λ i. bool_to_ℕ (q i)) e) in
        record {
          trie = z;
          total = moved_total;
          ips = λ ip. v.ips ip ∙ sym (still (at_ip ip));
          ip_once = λ ip. omega (arith, v.ip_once ip, still (at_ip ip));
          subnets = λ n. v.subnets n ∙ sym (still (at_subnet n));
          spread = λ n. omega (arith, v.spread n, still (at_subnet n));
        }

    present : (q : Contact → Bool) → bool_to_ℕ (q old) ≤ count_if q (contacts t.root)
    present q = omega (arith, count_if-remove_first (has_id c.id) q (contacts t.root) known_id)

    -- The entry moves: one count goes down and one up.
    away-IsTable :
        same Ipv4Addr-discrete old.ip c.ip ≡ false → IsTable (count_moved t root (some old.ip) c.ip)
    unfolding count_moved
    away-IsTable e = rw e record {
      trie = z;
      total = moved_total;
      ips = λ ip.
          count_of-increment Ipv4Addr-discrete c.ip ip
            (decrement Ipv4Addr-discrete old.ip t.ip_counts)
          ∙ omega (
            arith,
            count_of-decrement Ipv4Addr-discrete old.ip ip t.ip_counts,
            v.ips ip,
            moved_ip (at_ip ip),
            present (has_ip ip),
          );
      ip_once = λ ip. ground (
        arith,
        moved_ip (at_ip ip),
        v.ip_once ip,
        v.ips ip,
        limits_ip t c allowed (known ∙ e),
        ap (λ x. ip_count t x) {x = c.ip} {y = ip},
      );
      subnets = λ n.
          count_of-increment_subnet n c.ip (decrement_subnet old.ip t.subnet_counts)
          ∙ omega (
            arith,
            count_of-decrement_subnet n old.ip t.subnet_counts,
            v.subnets n,
            moved_ip (at_subnet n),
            present (in_subnet n),
          );
      spread = λ n. ground (
        arith,
        moved_ip (at_subnet n),
        v.spread n,
        v.subnets n,
        limits_subnet t c n allowed (known ∙ e),
      );
    }

    pub moved-IsTable : IsTable (count_moved t root (ip_of (Zone.get t.root c.id)) c.ip)
    moved-IsTable =
        subst (λ o. IsTable (count_moved t root (ip_of o) c.ip))
          (sym (get-find_if 0 t.root c.id v.trie ∙ known_id))
          (elim (Bool-cases (same Ipv4Addr-discrete old.ip c.ip)) [
            | inl e ↦
                subst IsTable (sym (moved_same e))
                  (same-IsTable ((same_iff Ipv4Addr-discrete old.ip c.ip).0 e))
            | inr e ↦ away-IsTable e
          ])
      where
        moved_same :
            same Ipv4Addr-discrete old.ip c.ip ≡ true
            → count_moved t root (some old.ip) c.ip ≡ record t { root = root }
        moved_same e = unfold count_moved in rw e
