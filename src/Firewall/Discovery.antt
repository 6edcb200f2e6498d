-- ===== src/Firewall/Discovery.antt =====
-- kad_firewall.rs: the discovery of the external UDP port.
use p2p_overlord_agents.Base.{
  ℕ, ◌+◌, ◌≤◌, ◌<◌, ◌≡◌, true, false, none, some, [], ◌∷◌, ◌++◌, ◌==◌, if◌then◌else◌, length,
}
use p2p_overlord_agents.Kad.Traversal.{IpAddr}
use p2p_overlord_agents.Firewall.{
  ExternalPortDiscoveryRound, KadFirewallState, holds_ip, holds_port, begin_external_port_discovery,
  record_external_port_candidate, needs_external_port_discovery, external_udp_port_for_request,
}

abbrev pub reports : IpAddr → ℕ → IpAddr → ℕ → IpAddr → ℕ → ℕ → KadFirewallState → KadFirewallState
reports a p b q c r now s =
    (record_external_port_candidate c r now
      (record_external_port_candidate b q now
        (record_external_port_candidate a p now (begin_external_port_discovery now s)).0).0).0

module _ (ip : IpAddr) (port now : ℕ) (s : KadFirewallState) where
  module _ (r : ExternalPortDiscoveryRound) (n : (port == 0) ≡ false)
      (e : s.active_external_port_discovery ≡ some r)
      (fresh : holds_ip ip r.reporter_ips ≡ false) where
    -- What a report of a new node changes.
    data Report : KadFirewallState → Type 0 where
      agrees :
          {t : KadFirewallState}
          → holds_port port r.reported_ports ≡ true
          → t.active_external_port_discovery ≡ none
          → t.discovered_external_udp_port ≡ some port
          → Report t
      gives_up :
          {t : KadFirewallState}
          → holds_port port r.reported_ports ≡ false
          → 3 ≤ length r.reporter_ips + 1
          → t.active_external_port_discovery ≡ none
          → t.discovered_external_udp_port ≡ none
          → Report t
      adds :
          {t : KadFirewallState}
          → holds_port port r.reported_ports ≡ false
          → length r.reporter_ips + 1 < 3
          → t.active_external_port_discovery
            ≡ some (record {
              reporter_ips = ip ∷ r.reporter_ips;
              reported_ports = r.reported_ports ++ (port ∷ []);
            })
          → Report t

-- No discovery is active, and this is the port that is used.
abbrev pub Settles : ℕ → KadFirewallState → Type 0
Settles port s =
    (needs_external_port_discovery s ≡ false) × (external_udp_port_for_request s ≡ port)

abbrev pub agreed : ℕ → ℕ → ℕ → ℕ
agreed p q r = if p == q then q else if p == r then r else if q == r then r else 0
