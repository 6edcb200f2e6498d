-- ===== src/Firewall/Run.antt =====
-- kad_firewall.rs: the state after any sequence of calls.
use p2p_overlord_agents.Base.{ℕ, refl, Bool, List, [], ◌∷◌, arith}
use p2p_overlord_agents.Kad.Utf8.{Text}
use p2p_overlord_agents.Kad.Traversal.{IpAddr}
use p2p_overlord_agents.Firewall.{
  KadFirewallState, default_state, begin_external_port_discovery, record_external_port_candidate,
  finish_external_port_discovery, refresh_tcp_recheck, try_begin_tcp_firewall_probe,
  record_tcp_firewall_probe_failed, record_firewalled_response, begin_udp_check,
  record_helper_request_failed, record_firewall_udp_packet, finish_udp_check,
}
use p2p_overlord_agents.Firewall.Rounds.{
  IsFirewall, record_external_port_candidate-IsFirewall, finish_external_port_discovery-IsFirewall,
  refresh_tcp_recheck-IsFirewall, try_begin_tcp_firewall_probe-IsFirewall,
  record_tcp_firewall_probe_failed-IsFirewall, record_firewalled_response-IsFirewall,
}
use p2p_overlord_agents.Firewall.Udp.{
  begin_udp_check-IsFirewall, record_helper_request_failed-IsFirewall,
  record_firewall_udp_packet-IsFirewall, finish_udp_check-IsFirewall,
}

pub data Operation : Type 0 where
  begin_discovery : ℕ → Operation
  candidate : IpAddr → ℕ → ℕ → Operation
  finish_discovery : ℕ → Operation
  refresh_tcp : Bool → ℕ → Operation
  begin_probe : IpAddr → ℕ → Operation
  probe_failed : IpAddr → Text → Operation
  response : IpAddr → IpAddr → ℕ → Operation
  begin_check : List IpAddr → List ℕ → ℕ → Operation
  helper_failed : IpAddr → Text → Operation
  packet : IpAddr → ℕ → ℕ → ℕ → Operation
  finish_check : ℕ → Operation

unfoldable pub apply : Operation → KadFirewallState → KadFirewallState
unfolding begin_external_port_discovery record_external_port_candidate
    finish_external_port_discovery refresh_tcp_recheck try_begin_tcp_firewall_probe
    record_tcp_firewall_probe_failed record_firewalled_response begin_udp_check
    record_helper_request_failed record_firewall_udp_packet finish_udp_check
apply (begin_discovery now) s = begin_external_port_discovery now s
apply (candidate ip port now) s = (record_external_port_candidate ip port now s).0
apply (finish_discovery now) s = finish_external_port_discovery now s
apply (refresh_tcp firewalled now) s = refresh_tcp_recheck firewalled now s
apply (begin_probe ip now) s = (try_begin_tcp_firewall_probe ip now s).0
apply (probe_failed ip error) s = record_tcp_firewall_probe_failed ip error s
apply (response ip reported_ip now) s = (record_firewalled_response ip reported_ip now s).0
apply (begin_check ips ports now) s = (begin_udp_check ips ports now s).0
apply (helper_failed ip error) s = record_helper_request_failed ip error s
apply (packet ip error_code port now) s = (record_firewall_udp_packet ip error_code port now s).0
apply (finish_check now) s = (finish_udp_check now s).0

unfoldable pub run : List Operation → KadFirewallState → KadFirewallState
unfolding apply
run [] s = s
run (o ∷ os) s = run os (apply o s)

apply-IsFirewall : (o : Operation) (s : KadFirewallState) → IsFirewall s → IsFirewall (apply o s)
unfolding apply begin_external_port_discovery
apply-IsFirewall (begin_discovery now) s h = record {
  udp = h.udp;
  tcp = h.tcp;
  discovery = record { one_each = refl; few_reporters = omega arith };
}
apply-IsFirewall (candidate ip port now) s h =
    record_external_port_candidate-IsFirewall ip port now s h
apply-IsFirewall (finish_discovery now) s h = finish_external_port_discovery-IsFirewall now s h
apply-IsFirewall (refresh_tcp firewalled now) s h =
    refresh_tcp_recheck-IsFirewall firewalled now s h
apply-IsFirewall (begin_probe ip now) s h = try_begin_tcp_firewall_probe-IsFirewall ip now s h
apply-IsFirewall (probe_failed ip error) s h =
    record_tcp_firewall_probe_failed-IsFirewall ip error s h
apply-IsFirewall (response ip reported_ip now) s h =
    record_firewalled_response-IsFirewall ip reported_ip now s h
apply-IsFirewall (begin_check ips ports now) s h = begin_udp_check-IsFirewall ips ports now s h
apply-IsFirewall (helper_failed ip error) s h = record_helper_request_failed-IsFirewall ip error s h
apply-IsFirewall (packet ip error_code port now) s h =
    record_firewall_udp_packet-IsFirewall ip error_code port now s h
apply-IsFirewall (finish_check now) s h = finish_udp_check-IsFirewall now s h

run_from : (os : List Operation) (s : KadFirewallState) → IsFirewall s → IsFirewall (run os s)
unfolding run
run_from [] s h = h
run_from (o ∷ os) s h = run_from os (apply o s) (apply-IsFirewall o s h)

-- After any calls on a new state: an active UDP round has a helper and no success yet; an active TCP
-- round has less than four answers and at most four helpers that are asked; a port discovery that
-- is active has less than three reporters, with one port of each.
pub run-IsFirewall : (os : List Operation) → IsFirewall (run os default_state)
run-IsFirewall os = run_from os default_state (record { udp = tt; tcp = tt; discovery = tt })
