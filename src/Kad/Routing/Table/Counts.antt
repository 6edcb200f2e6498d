-- ===== src/Kad/Routing/Table/Counts.antt =====
-- The count maps of table.rs as functions of the key.
use p2p_overlord_agents.Base.{
  ℕ, ◌+◌, ◌-◌, ◌≡◌, Bool, not, ◌&&◌, inl, inr, arith, same, bool_to_ℕ, Option-cases,
}
use p2p_overlord_agents.Base.Map
use p2p_overlord_agents.Base.Map.{Map}
use p2p_overlord_agents.Kad.Routing.Contact.{
  Ipv4Addr, Ipv4Addr-discrete, Subnet24, Subnet24-discrete, subnet24, is_lan,
}
use p2p_overlord_agents.Kad.Routing.Table.{
  count_of, increment, decrement, increment_subnet, decrement_subnet,
}

module _ {ℓ} {K : Type ℓ} (d : Discrete K) (k j : K) (m : Map K ℕ) where
  pub count_of-increment : count_of d j (increment d k m) ≡ count_of d j m + bool_to_ℕ (same d k j)
  unfolding count_of increment
  count_of-increment = ground (arith, Map.lookup-insert d k j (count_of d k m + 1) m)

  pub count_of-decrement : count_of d j (decrement d k m) ≡ count_of d j m - bool_to_ℕ (same d k j)
  unfolding count_of decrement
  count_of-decrement = elim (Option-cases (Map.lookup d k m)) [
    | inl e ↦ ground (arith, e)
    | inr (n, e) ↦ ground (arith, e, Map.lookup-insert d k j (n - 1) m, Map.lookup-remove d k j m)
  ]

-- The tests on an address that the counts are about.
abbrev pub at_ip : Ipv4Addr → Ipv4Addr → Bool
at_ip ip x = same Ipv4Addr-discrete x ip

abbrev pub at_subnet : Subnet24 → Ipv4Addr → Bool
at_subnet s x = not (is_lan x) && same Subnet24-discrete (subnet24 x) s

module _ (s : Subnet24) (ip : Ipv4Addr) (m : Map Subnet24 ℕ) where
  pub count_of-increment_subnet :
      count_of Subnet24-discrete s (increment_subnet ip m)
      ≡ count_of Subnet24-discrete s m + bool_to_ℕ (at_subnet s ip)
  count_of-increment_subnet = ground (arith, count_of-increment Subnet24-discrete (subnet24 ip) s m)

  pub count_of-decrement_subnet :
      count_of Subnet24-discrete s (decrement_subnet ip m)
      ≡ count_of Subnet24-discrete s m - bool_to_ℕ (at_subnet s ip)
  count_of-decrement_subnet = ground (arith, count_of-decrement Subnet24-discrete (subnet24 ip) s m)
