-- ===== src/Firewall/Udp.antt =====
-- kad_firewall.rs: the round of the UDP check.
use p2p_overlord_agents.Base.{
  ℕ, ◌≤◌, ◌≡◌, refl, ap, inl, inr, Bool, true, false, not, ◌&&◌, Option, none, some, List, [], ◌∷◌,
  ◌==◌, if◌then◌else◌, same, length, any, count_if, arith, bool_to_ℕ, Bool-cases, Option-cases,
  if_case, option_case, any-false, sym, ◌∙◌, some_equal, same_refl,
}
use p2p_overlord_agents.Base.Map
use p2p_overlord_agents.Base.Map.{Map, lookup-insert}
use p2p_overlord_agents.Kad.Utf8.{Text}
use p2p_overlord_agents.Kad.Traversal.{IpAddr}
use p2p_overlord_agents.Firewall.{
  IpAddr-discrete, UdpFirewallCheckSummary, HelperOutcome, waiting, request_failed, remote_error,
  wrong_port, succeeded, KadFirewallState, holds_port, pending_helpers, port_set, begin_udp_check,
  record_helper_request_failed, has_succeeded, is_request_failed, record_firewall_udp_packet,
  finish_udp_check, finalize_round, summary_of, FirewallUdpPacketOutcome, opened, packet_recorded,
  packet_ignored, UdpFirewallCheckRound, with_outcome,
}
use p2p_overlord_agents.Firewall.Rounds.{IsUdpRound, Each-some, IsFirewall}

-- Writing the outcome of a helper.
any-insert :
    (ip : IpAddr) (o : HelperOutcome) (m : Map IpAddr HelperOutcome)
    → has_succeeded (ip, o) ≡ false
    → any has_succeeded m ≡ false
    → any has_succeeded (Map.insert IpAddr-discrete ip o m) ≡ false
unfolding Map.insert
any-insert ip o [] n h = ground (arith, n)
any-insert ip o ((j, w) ∷ m) n h = elim (Bool-cases (same IpAddr-discrete j ip)) [
  | inl e ↦ rw e (ground (arith, n, h))
  | inr e ↦ let k = any-insert ip o m n (ground (arith, h)) in rw e (ground (arith, k, h))
]

-- A success among outcomes that are none.
count-insert :
    (ip : IpAddr) (m : Map IpAddr HelperOutcome)
    → any has_succeeded m ≡ false
    → count_if has_succeeded (Map.insert IpAddr-discrete ip succeeded m) ≡ 1
unfolding Map.insert
count-insert ip [] h = refl
count-insert ip ((j, w) ∷ m) h = elim (Bool-cases (same IpAddr-discrete j ip)) [
  | inl e ↦ rw e (let z = any-false has_succeeded m (ground (arith, h)) in omega (arith, z))
  | inr e ↦
      let k = count-insert ip m (ground (arith, h)) in
      let w0 : has_succeeded (j, w) ≡ false = ground (arith, h) in
      rw e (omega (arith, k, ap bool_to_ℕ w0))
]

length-insert :
    (ip : IpAddr) (o : HelperOutcome) (m : Map IpAddr HelperOutcome)
    → 1 ≤ length (Map.insert IpAddr-discrete ip o m)
unfolding Map.insert
length-insert ip o [] = omega arith
length-insert ip o ((j, w) ∷ m) = elim (Bool-cases (same IpAddr-discrete j ip)) [
  | inl e ↦ rw e (omega arith)
  | inr e ↦ rw e (omega arith)
]

pending-none : (ips : List IpAddr) → any has_succeeded (pending_helpers ips) ≡ false
unfolding pending_helpers
pending-none [] = refl
pending-none (ip ∷ ips) = any-insert ip waiting (pending_helpers ips) refl (pending-none ips)

pub begin_udp_check-IsFirewall :
    (ips : List IpAddr) (ports : List ℕ) (now : ℕ) (s : KadFirewallState)
    → IsFirewall s
    → IsFirewall (begin_udp_check ips ports now s).0
unfolding begin_udp_check
begin_udp_check-IsFirewall ips ports now s h =
    let P : KadFirewallState × Bool → Type 0 = λ x. IsFirewall x.0 in
    if_case P (length (pending_helpers ips) == 0) _ _
      (λ _. record { udp = h.udp; tcp = h.tcp; discovery = h.discovery })
      λ k.
        if_case P (length (port_set ports) == 0) _ _
          (λ _. record { udp = h.udp; tcp = h.tcp; discovery = h.discovery })
          λ _. record {
            udp = record { has_helper = ground (arith, k); none_succeeded = pending-none ips };
            tcp = h.tcp;
            discovery = h.discovery;
          }

pub record_helper_request_failed-IsFirewall :
    (ip : IpAddr) (error : Text) (s : KadFirewallState)
    → IsFirewall s
    → IsFirewall (record_helper_request_failed ip error s)
unfolding record_helper_request_failed
record_helper_request_failed-IsFirewall ip error s h = elim (Option-cases s.active_round) [
  | inl e ↦ rw (e, record_helper_request_failed) h
  | inr (r, e) ↦
      let d = Each-some IsUdpRound s.active_round r e h.udp in
      elim (Option-cases (Map.lookup IpAddr-discrete ip r.helper_outcomes)) [
        | inl n ↦ rw (e, n, record_helper_request_failed) h
        | inr (o, n) ↦
            rw (e, n, record_helper_request_failed)
              (record {
                udp = record {
                  has_helper = length-insert ip request_failed r.helper_outcomes;
                  none_succeeded =
                      any-insert ip request_failed r.helper_outcomes refl d.none_succeeded;
                };
                tcp = h.tcp;
                discovery = h.discovery;
              })
      ]
]

pub record_firewall_udp_packet-IsFirewall :
    (ip : IpAddr) (error_code port now : ℕ) (s : KadFirewallState)
    → IsFirewall s
    → IsFirewall (record_firewall_udp_packet ip error_code port now s).0
unfolding record_firewall_udp_packet finalize_round
record_firewall_udp_packet-IsFirewall ip error_code port now s h =
    let P : KadFirewallState × FirewallUdpPacketOutcome → Type 0 = λ x. IsFirewall x.0 in
    elim (Option-cases s.active_round) [
      | inl e ↦ rw (e, record_firewall_udp_packet) h
      | inr (r, e) ↦
          let d = Each-some IsUdpRound s.active_round r e h.udp in
          elim (Option-cases (Map.lookup IpAddr-discrete ip r.helper_outcomes)) [
            | inl n ↦ rw (e, n, record_firewall_udp_packet) h
            | inr (o, n) ↦
                rw (e, n, record_firewall_udp_packet)
                  (if_case P (error_code == 0 && holds_port port r.expected_ports) _ _
                    (λ _. record { udp = tt; tcp = h.tcp; discovery = h.discovery })
                    λ _. record {
                      udp = record {
                        has_helper = length-insert ip _ r.helper_outcomes;
                        none_succeeded =
                            any-insert ip (if error_code == 0 then wrong_port else remote_error)
                              r.helper_outcomes
                              (if_case (λ o. has_succeeded (ip, o) ≡ false) (error_code == 0)
                                wrong_port remote_error (λ _. refl) (λ _. refl))
                              d.none_succeeded;
                      };
                      tcp = h.tcp;
                      discovery = h.discovery;
                    })
          ]
    ]

-- What a UDP packet with these contents, of this address, does.
pub data PacketStep (ip : IpAddr) (error_code port now : ℕ) (s : KadFirewallState)
    : KadFirewallState × FirewallUdpPacketOutcome → Type 0 where
  ignores :
      ((r : UdpFirewallCheckRound)
        → s.active_round ≡ some r
        → Map.lookup IpAddr-discrete ip r.helper_outcomes ≡ none)
      → PacketStep ip error_code port now s (s, packet_ignored)
  goes_on :
      {t : KadFirewallState} (r r' : UdpFirewallCheckRound) (o : HelperOutcome)
      → s.active_round ≡ some r
      → Map.lookup IpAddr-discrete ip r.helper_outcomes ≡ some o
      → (error_code == 0 && holds_port port r.expected_ports) ≡ false
      → t.active_round ≡ some r'
      → IsUdpRound r'
      → r'.expected_ports ≡ r.expected_ports
      → r'.started_at ≡ r.started_at
      → Map.lookup IpAddr-discrete ip r'.helper_outcomes
        ≡ some (if error_code == 0 then wrong_port else remote_error)
      → ((j : IpAddr)
          → same IpAddr-discrete ip j ≡ false
          → Map.lookup IpAddr-discrete j r'.helper_outcomes
            ≡ Map.lookup IpAddr-discrete j r.helper_outcomes)
      → t.udp_open ≡ s.udp_open
      → t.udp_verified ≡ s.udp_verified
      → PacketStep ip error_code port now s (t, packet_recorded)
  opens :
      {t : KadFirewallState} {summary : UdpFirewallCheckSummary} (r : UdpFirewallCheckRound)
      (o : HelperOutcome)
      → s.active_round ≡ some r
      → Map.lookup IpAddr-discrete ip r.helper_outcomes ≡ some o
      → (error_code == 0 && holds_port port r.expected_ports) ≡ true
      → t.active_round ≡ none
      → t.udp_open ≡ true
      → t.udp_verified ≡ true
      → t.last_udp_check_succeeded_at ≡ some now
      → summary.is_open ≡ true
      → summary.helpers_succeeded ≡ 1
      → summary.started_at ≡ r.started_at
      → summary.completed_at ≡ now
      → PacketStep ip error_code port now s (t, opened summary)

-- A packet changes nothing exactly where no round is active or its sender is no helper of it. Of a
-- helper, a packet without an error code and of an expected port ends the round with an open port and
-- exactly one success. Any other is recorded: the round goes on with its ports and its start, the
-- helper has a wrong port or a remote error, the other helpers and the verdict stay as they were.
pub record_firewall_udp_packet-PacketStep :
    (ip : IpAddr) (error_code port now : ℕ) (s : KadFirewallState)
    → IsFirewall s
    → PacketStep ip error_code port now s (record_firewall_udp_packet ip error_code port now s)
unfolding record_firewall_udp_packet finalize_round summary_of
record_firewall_udp_packet-PacketStep ip error_code port now s h =
    let P = PacketStep ip error_code port now s in
    option_case P s.active_round _ _ (λ e. ignores (λ r f. ground (arith, e, f)))
      λ r e.
        let d = Each-some IsUdpRound s.active_round r e h.udp in
        let m = r.helper_outcomes in
        option_case P (Map.lookup IpAddr-discrete ip m) _ _
          (λ n. ignores (λ r' f.
            ap (λ (x : UdpFirewallCheckRound). Map.lookup IpAddr-discrete ip x.helper_outcomes)
              (some_equal (sym f ∙ e))
            ∙ n))
          λ o n.
            if_case P (error_code == 0 && holds_port port r.expected_ports) _ _
              (λ k.
                opens r o e n k refl refl refl refl refl (count-insert ip m d.none_succeeded) refl
                  refl)
              λ k.
                let v = if error_code == 0 then wrong_port else remote_error in
                goes_on r (with_outcome ip v r) o e n k refl
                  (record {
                    has_helper = length-insert ip v m;
                    none_succeeded =
                        any-insert ip v m
                          (if_case (λ o. has_succeeded (ip, o) ≡ false) (error_code == 0) wrong_port
                            remote_error (λ _. refl) (λ _. refl))
                          d.none_succeeded;
                  })
                  refl refl
                  (lookup-insert IpAddr-discrete ip ip v m ∙ rw (same_refl IpAddr-discrete ip))
                  (λ j q. lookup-insert IpAddr-discrete ip j v m ∙ rw q) refl refl

-- What the end of the waiting time gives.
pub data Finish (now : ℕ) (s : KadFirewallState)
    : KadFirewallState × Option UdpFirewallCheckSummary → Type 0 where
  idle : s.active_round ≡ none → Finish now s (s, none)
  unasked :
      {t : KadFirewallState} (r : UdpFirewallCheckRound)
      → s.active_round ≡ some r
      → count_if (λ e. not (is_request_failed e)) r.helper_outcomes ≡ 0
      → t.active_round ≡ none
      → t.udp_open ≡ s.udp_open
      → t.udp_verified ≡ s.udp_verified
      → Finish now s (t, none)
  closed :
      {t : KadFirewallState} {summary : UdpFirewallCheckSummary} (r : UdpFirewallCheckRound)
      → s.active_round ≡ some r
      → 1 ≤ count_if (λ e. not (is_request_failed e)) r.helper_outcomes
      → t.active_round ≡ none
      → t.udp_open ≡ false
      → t.udp_verified ≡ true
      → t.last_udp_check_failed_at ≡ some now
      → summary.is_open ≡ false
      → summary.helpers_succeeded ≡ 0
      → summary.helpers_selected ≡ length r.helper_outcomes
      → summary.helpers_requested ≡ count_if (λ e. not (is_request_failed e)) r.helper_outcomes
      → summary.started_at ≡ r.started_at
      → summary.completed_at ≡ now
      → Finish now s (t, some summary)

some-count :
    (m : Map IpAddr HelperOutcome)
    → any (λ e. not (is_request_failed e)) m ≡ true
    → 1 ≤ count_if (λ e. not (is_request_failed e)) m
some-count [] h = ground (arith, h)
some-count (e ∷ m) h = ground (arith, h, some-count m)

not_all_succeeded :
    (m : Map IpAddr HelperOutcome)
    → 1 ≤ length m
    → any has_succeeded m ≡ false
    → any (λ e. not (has_succeeded e)) m ≡ true
not_all_succeeded [] h n = absurd (omega (arith, h))
not_all_succeeded (e ∷ m) h n = ground (arith, n)

-- At the end of the waiting time, where no round is active, nothing changes. Where the request to
-- every helper failed, the round ends and the verdict stays. Where at least one helper was asked, the
-- round ends and the port is taken as closed, with a summary that tells no success.
pub finish_udp_check-Finish :
    (now : ℕ) (s : KadFirewallState) → IsFirewall s → Finish now s (finish_udp_check now s)
unfolding finish_udp_check finalize_round summary_of
finish_udp_check-Finish now s h =
    let P = Finish now s in
    option_case P s.active_round _ _ idle λ r e.
      let d = Each-some IsUdpRound s.active_round r e h.udp in
      let m = r.helper_outcomes in
      let a = not_all_succeeded m d.has_helper d.none_succeeded in
      if_case P (not (any (λ e. not (has_succeeded e)) m)) _ _ (λ k. ground (arith, k, a))
        λ _.
          if_case P (any has_succeeded m) _ _ (λ k. ground (arith, k, d.none_succeeded))
            λ _.
              if_case P (not (any (λ e. not (is_request_failed e)) m)) _ _
                (λ k.
                  unasked r e (any-false (λ e. not (is_request_failed e)) m (ground (arith, k)))
                    refl refl refl)
                λ k.
                  closed r e (some-count m (ground (arith, k))) refl refl refl refl refl
                    (any-false has_succeeded m d.none_succeeded) refl refl refl refl

pub finish_udp_check-IsFirewall :
    (now : ℕ) (s : KadFirewallState) → IsFirewall s → IsFirewall (finish_udp_check now s).0
unfolding finish_udp_check finalize_round
finish_udp_check-IsFirewall now s h = elim (Option-cases s.active_round) [
  | inl e ↦ rw (e, finish_udp_check) h
  | inr (r, e) ↦
      let P : KadFirewallState × Option UdpFirewallCheckSummary → Type 0 = λ x. IsFirewall x.0 in
      rw (e, finish_udp_check)
        (if_case P (not (any (λ e. not (has_succeeded e)) r.helper_outcomes)) _ _ (λ _. h)
          λ _.
            if_case P (any has_succeeded r.helper_outcomes) _ _
              (λ _. record { udp = tt; tcp = h.tcp; discovery = h.discovery })
              λ _.
                if_case P (not (any (λ e. not (is_request_failed e)) r.helper_outcomes)) _ _
                  (λ _. record { udp = tt; tcp = h.tcp; discovery = h.discovery })
                  λ _. record { udp = tt; tcp = h.tcp; discovery = h.discovery })
]
