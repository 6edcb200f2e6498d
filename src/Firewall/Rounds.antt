-- ===== src/Firewall/Rounds.antt =====
-- kad_firewall.rs: what holds of the rounds that run, after every sequence of calls.
use p2p_overlord_agents.Base.{
  ℕ, ◌+◌, ◌≤◌, ◌<◌, ◌≡◌, refl, sym, subst, inl, inr, Bool, true, false, not, ◌||◌, Option, none,
  some, ◌∷◌, leb, ◌==◌, same, length, any, arith, Option-cases, if_case, length-keep_if-le,
  length-snoc,
}
use p2p_overlord_agents.Kad.Utf8.{Text}
use p2p_overlord_agents.Kad.Traversal.{IpAddr}
use p2p_overlord_agents.Firewall.{
  IpAddr-discrete, UdpFirewallCheckRound, TcpFirewallCheckRound, ExternalPortDiscoveryRound,
  KadFirewallState, holds_ip, holds_port, record_external_port_candidate,
  finish_external_port_discovery, refresh_tcp_recheck, try_begin_tcp_firewall_probe,
  record_tcp_firewall_probe_failed, record_firewalled_response, has_succeeded,
  ExternalPortDiscoveryOutcome, FirewalledResponseOutcome,
}

-- At least one helper was asked, none answered with success: the first success ends the round.
pub record IsUdpRound (r : UdpFirewallCheckRound) : Type 0 where
  pub has_helper : 1 ≤ length r.helper_outcomes
  pub none_succeeded : any has_succeeded r.helper_outcomes ≡ false

-- Less than four answers, from at most four helpers at a time.
pub record IsTcpRound (r : TcpFirewallCheckRound) : Type 0 where
  pub few_helpers : length r.active_helpers ≤ 4
  pub few_checks : r.completed_checks < 4

-- One port of each reporter, and less than three of them.
pub record IsDiscovery (r : ExternalPortDiscoveryRound) : Type 0 where
  pub one_each : length r.reporter_ips ≡ length r.reported_ports
  pub few_reporters : length r.reporter_ips < 3

-- The property of the value, where there is one.
abbrev pub Each : {A : Type 0} → (A → Type 0) → Option A → Type 0
Each P none = Unit {0}
Each P (some a) = P a

pub record IsFirewall (s : KadFirewallState) : Type 0 where
  pub udp : Each IsUdpRound s.active_round
  pub tcp : Each IsTcpRound s.active_tcp_round
  pub discovery : Each IsDiscovery s.active_external_port_discovery

pub Each-some : {A : Type 0} (P : A → Type 0) (o : Option A) (a : A) → o ≡ some a → Each P o → P a
Each-some P o a e h = subst (Each P) e h

pub record_external_port_candidate-IsFirewall :
    (ip : IpAddr) (port now : ℕ) (s : KadFirewallState)
    → IsFirewall s
    → IsFirewall (record_external_port_candidate ip port now s).0
unfolding record_external_port_candidate
record_external_port_candidate-IsFirewall ip port now s h =
    let P : KadFirewallState × ExternalPortDiscoveryOutcome → Type 0 = λ x. IsFirewall x.0 in
    if_case P (port == 0) _ _ (λ _. h)
      (λ _. elim (Option-cases s.active_external_port_discovery) [
        | inl e ↦ rw (e, record_external_port_candidate) h
        | inr (r, e) ↦
            let d = Each-some IsDiscovery s.active_external_port_discovery r e h.discovery in
            let over : (t : KadFirewallState)
                → t.active_round ≡ s.active_round
                → t.active_tcp_round ≡ s.active_tcp_round
                → t.active_external_port_discovery ≡ none
                → IsFirewall t =
              λ t a b c. record {
                udp = subst (Each IsUdpRound) (sym a) h.udp;
                tcp = subst (Each IsTcpRound) (sym b) h.tcp;
                discovery = subst (Each IsDiscovery) (sym c) tt;
              } in
            rw (e, record_external_port_candidate)
              (if_case P (holds_ip ip r.reporter_ips) _ _ (λ _. h)
                λ _.
                  if_case P (holds_port port r.reported_ports) _ _ (λ _. over _ refl refl refl)
                    λ _.
                      if_case P (leb 3 (length (ip ∷ r.reporter_ips))) _ _
                        (λ _. over _ refl refl refl)
                        λ k. record {
                          udp = h.udp;
                          tcp = h.tcp;
                          discovery = record {
                            one_each = omega (arith, d.one_each, length-snoc r.reported_ports port);
                            few_reporters = ground (arith, k);
                          };
                        })
      ])

pub finish_external_port_discovery-IsFirewall :
    (now : ℕ) (s : KadFirewallState)
    → IsFirewall s
    → IsFirewall (finish_external_port_discovery now s)
unfolding finish_external_port_discovery
finish_external_port_discovery-IsFirewall now s h =
    elim (Option-cases s.active_external_port_discovery) [
      | inl e ↦ rw (e, finish_external_port_discovery) h
      | inr (r, e) ↦
          rw (e, finish_external_port_discovery)
            (record { udp = h.udp; tcp = h.tcp; discovery = tt })
    ]

pub refresh_tcp_recheck-IsFirewall :
    (firewalled : Bool) (now : ℕ) (s : KadFirewallState)
    → IsFirewall s
    → IsFirewall (refresh_tcp_recheck firewalled now s)
unfolding refresh_tcp_recheck
refresh_tcp_recheck-IsFirewall false now s h = record {
  udp = h.udp;
  tcp = tt;
  discovery = h.discovery;
}
refresh_tcp_recheck-IsFirewall true now s h = elim (Option-cases s.active_tcp_round) [
  | inl e ↦
      rw (e, refresh_tcp_recheck)
        (record {
          udp = h.udp;
          tcp = record { few_helpers = omega arith; few_checks = omega arith };
          discovery = h.discovery;
        })
  | inr (r, e) ↦ rw (e, refresh_tcp_recheck) h
]

pub try_begin_tcp_firewall_probe-IsFirewall :
    (ip : IpAddr) (now : ℕ) (s : KadFirewallState)
    → IsFirewall s
    → IsFirewall (try_begin_tcp_firewall_probe ip now s).0
unfolding try_begin_tcp_firewall_probe
try_begin_tcp_firewall_probe-IsFirewall ip now s h =
    let P : KadFirewallState × Bool → Type 0 = λ x. IsFirewall x.0 in
    elim (Option-cases s.active_tcp_round) [
      | inl e ↦ rw (e, try_begin_tcp_firewall_probe) h
      | inr (r, e) ↦
          let d = Each-some IsTcpRound s.active_tcp_round r e h.tcp in
          rw (e, try_begin_tcp_firewall_probe)
            (if_case P
              (leb 4 r.completed_checks
                || (leb 4 (length r.active_helpers) || holds_ip ip r.active_helpers))
              _ _ (λ _. h)
              λ k. record {
                udp = h.udp;
                tcp = record { few_helpers = ground (arith, k); few_checks = d.few_checks };
                discovery = h.discovery;
              })
    ]

pub record_tcp_firewall_probe_failed-IsFirewall :
    (ip : IpAddr) (error : Text) (s : KadFirewallState)
    → IsFirewall s
    → IsFirewall (record_tcp_firewall_probe_failed ip error s)
unfolding record_tcp_firewall_probe_failed
record_tcp_firewall_probe_failed-IsFirewall ip error s h = elim (Option-cases s.active_tcp_round) [
  | inl e ↦
      rw (e, record_tcp_firewall_probe_failed)
        (record { udp = h.udp; tcp = tt; discovery = h.discovery })
  | inr (r, e) ↦
      let d = Each-some IsTcpRound s.active_tcp_round r e h.tcp in
      let n = length-keep_if-le (λ x. not (same IpAddr-discrete x ip)) r.active_helpers in
      rw (e, record_tcp_firewall_probe_failed)
        (record {
          udp = h.udp;
          tcp = record { few_helpers = omega (arith, n, d.few_helpers); few_checks = d.few_checks };
          discovery = h.discovery;
        })
]

pub record_firewalled_response-IsFirewall :
    (ip reported_ip : IpAddr) (now : ℕ) (s : KadFirewallState)
    → IsFirewall s
    → IsFirewall (record_firewalled_response ip reported_ip now s).0
unfolding record_firewalled_response
record_firewalled_response-IsFirewall ip reported_ip now s h =
    let P : KadFirewallState × FirewalledResponseOutcome → Type 0 = λ x. IsFirewall x.0 in
    elim (Option-cases s.active_tcp_round) [
      | inl e ↦ rw (e, record_firewalled_response) h
      | inr (r, e) ↦
          let d = Each-some IsTcpRound s.active_tcp_round r e h.tcp in
          let n = length-keep_if-le (λ x. not (same IpAddr-discrete x ip)) r.active_helpers in
          rw (e, record_firewalled_response)
            (if_case P (not (holds_ip ip r.active_helpers)) _ _ (λ _. h)
              λ _.
                if_case P (leb 4 (r.completed_checks + 1)) _ _
                  (λ _. record { udp = h.udp; tcp = tt; discovery = h.discovery })
                  λ k. record {
                    udp = h.udp;
                    tcp = record {
                      few_helpers = omega (arith, n, d.few_helpers);
                      few_checks = ground (arith, k);
                    };
                    discovery = h.discovery;
                  })
    ]
