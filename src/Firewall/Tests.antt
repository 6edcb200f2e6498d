-- ===== src/Firewall/Tests.antt =====
-- Runs of the firewall checks at concrete values, and the theorems about them applied there.
use p2p_overlord_agents.Base.{true, List, [], ◌∷◌}
use p2p_overlord_agents.Kad.Traversal.{v6}
use p2p_overlord_agents.Firewall.{default_state, record_firewall_udp_packet, finish_udp_check}
use p2p_overlord_agents.Firewall.Rounds.{IsFirewall}
use p2p_overlord_agents.Firewall.Udp.{
  PacketStep, Finish, record_firewall_udp_packet-PacketStep, finish_udp_check-Finish,
}
use p2p_overlord_agents.Firewall.Run.{
  Operation, begin_check, packet, begin_discovery, candidate, begin_probe, refresh_tcp, response,
  run, run-IsFirewall,
}

abbrev calls_so_far : List Operation
calls_so_far =
    begin_discovery 1
    ∷ candidate (v6 7) 4672 2
    ∷ refresh_tcp true 3
    ∷ begin_probe (v6 8) 4
    ∷ response (v6 8) (v6 1) 5
    ∷ begin_check (v6 7 ∷ v6 9 ∷ []) (4672 ∷ 0 ∷ []) 6
    ∷ packet (v6 9) 1 4672 7
    ∷ []

reachability_example : IsFirewall (run calls_so_far default_state)
reachability_example = run-IsFirewall calls_so_far

packet_example :
    PacketStep
      (v6 7)
      0
      4672
      8
      (run calls_so_far default_state)
      (record_firewall_udp_packet (v6 7) 0 4672 8 (run calls_so_far default_state))
packet_example =
    record_firewall_udp_packet-PacketStep (v6 7) 0 4672 8 (run calls_so_far default_state)
      (run-IsFirewall calls_so_far)

verdict_example :
    Finish 9 (run calls_so_far default_state) (finish_udp_check 9 (run calls_so_far default_state))
verdict_example =
    finish_udp_check-Finish 9 (run calls_so_far default_state) (run-IsFirewall calls_so_far)
