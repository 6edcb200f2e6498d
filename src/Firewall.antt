-- ===== src/Firewall.antt =====
-- crates/overlord-agent-emule/src/kad_firewall.rs: what the agent knows of its own reachability. A
-- hash set is a list without repetition, a hash map an association list, an instant a number. An
-- address that the source keeps as text is kept as the address.
pub mod Discovery
pub mod Rounds
pub mod Udp
pub mod Run
mod Tests
use p2p_overlord_agents.Base.{
  ℕ, ◌+◌, Bool, true, false, not, ◌&&◌, ◌||◌, Option, none, some, List, [], ◌∷◌, ◌++◌, ltb, leb,
  ◌==◌, if◌then◌else◌, same, ℕ_discrete, length, keep_if, any, count_if,
}
use p2p_overlord_agents.Base.Map
use p2p_overlord_agents.Base.Map.{Map}
use p2p_overlord_agents.Kad.Utf8.{Text}
use p2p_overlord_agents.Kad.Routing.Contact.{Ipv4Addr-discrete}
use p2p_overlord_agents.Kad.Traversal.{IpAddr}

unfoldable pub IpAddr-discrete : Discrete IpAddr
IpAddr-discrete = hlevel (Ipv4Addr-discrete, ℕ_discrete)

pub record UdpFirewallCheckSummary : Type 0 where
  pub is_open : Bool
  pub helpers_selected : ℕ
  pub helpers_requested : ℕ
  pub helpers_succeeded : ℕ
  pub helpers_failed : ℕ
  pub started_at : ℕ
  pub completed_at : ℕ

pub data HelperOutcome : Type 0 where
  waiting request_failed remote_error wrong_port succeeded : HelperOutcome

abbrev pub tcp_firewall_recheck_limit : ℕ
tcp_firewall_recheck_limit = 4

abbrev pub external_port_discovery_reporters : ℕ
external_port_discovery_reporters = 3

pub record UdpFirewallCheckRound : Type 0 where
  pub started_at : ℕ
  pub expected_ports : List ℕ
  pub helper_outcomes : Map IpAddr HelperOutcome

pub record TcpFirewallCheckRound : Type 0 where
  pub active_helpers : List IpAddr
  pub completed_checks : ℕ

pub record ExternalPortDiscoveryRound : Type 0 where
  pub reporter_ips : List IpAddr
  pub reported_ports : List ℕ

-- The texts of `last_error`.
pub data LastError : Type 0 where
  inconsistent_ports discovery_timed_out no_helpers no_expected_ports : LastError
  requests_failed timed_out : LastError
  reported : Text → LastError

pub record KadFirewallState : Type 0 where
  pub udp_open : Bool
  pub udp_verified : Bool
  pub last_udp_check_started_at : Option ℕ
  pub last_udp_check_succeeded_at : Option ℕ
  pub last_udp_check_failed_at : Option ℕ
  pub last_helper_ip : Option IpAddr
  pub last_reported_port : Option ℕ
  pub last_error : Option LastError
  pub tcp_recheck_active : Bool
  pub last_tcp_check_started_at : Option ℕ
  pub last_tcp_check_completed_at : Option ℕ
  pub last_reported_external_ip : Option IpAddr
  pub last_external_port_probe_started_at : Option ℕ
  pub last_external_port_probe_completed_at : Option ℕ
  pub last_reported_external_udp_port : Option ℕ
  pub active_round : Option UdpFirewallCheckRound
  pub active_tcp_round : Option TcpFirewallCheckRound
  pub active_external_port_discovery : Option ExternalPortDiscoveryRound
  pub discovered_external_udp_port : Option ℕ

-- `KadFirewallState::default()`
abbrev pub default_state : KadFirewallState
default_state = record {
  udp_open = false;
  udp_verified = false;
  last_udp_check_started_at = none;
  last_udp_check_succeeded_at = none;
  last_udp_check_failed_at = none;
  last_helper_ip = none;
  last_reported_port = none;
  last_error = none;
  tcp_recheck_active = false;
  last_tcp_check_started_at = none;
  last_tcp_check_completed_at = none;
  last_reported_external_ip = none;
  last_external_port_probe_started_at = none;
  last_external_port_probe_completed_at = none;
  last_reported_external_udp_port = none;
  active_round = none;
  active_tcp_round = none;
  active_external_port_discovery = none;
  discovered_external_udp_port = none;
}

pub data FirewallUdpPacketOutcome : Type 0 where
  opened : UdpFirewallCheckSummary → FirewallUdpPacketOutcome
  packet_recorded packet_ignored : FirewallUdpPacketOutcome

pub data FirewalledResponseOutcome : Type 0 where
  response_recorded response_completed response_ignored : FirewalledResponseOutcome

pub data ExternalPortDiscoveryOutcome : Type 0 where
  resolved : ℕ → ExternalPortDiscoveryOutcome
  port_recorded unreliable port_ignored : ExternalPortDiscoveryOutcome

abbrev pub holds_ip : IpAddr → List IpAddr → Bool
holds_ip ip ips = any (λ x. same IpAddr-discrete x ip) ips

abbrev pub holds_port : ℕ → List ℕ → Bool
holds_port p ps = any (λ x. x == p) ps

abbrev pub is_some {ℓ} : {A : Type ℓ} → Option A → Bool
is_some none = false
is_some (some a) = true

unfoldable pub begin_external_port_discovery : ℕ → KadFirewallState → KadFirewallState
begin_external_port_discovery started_at s = record s {
  last_external_port_probe_started_at = some started_at;
  last_external_port_probe_completed_at = none;
  last_reported_external_udp_port = none;
  discovered_external_udp_port = none;
  active_external_port_discovery = some (record { reporter_ips = []; reported_ports = [] });
}

unfoldable pub needs_external_port_discovery : KadFirewallState → Bool
needs_external_port_discovery s = is_some s.active_external_port_discovery

-- What a report changes first.
abbrev pub with_report : IpAddr → ℕ → KadFirewallState → KadFirewallState
with_report ip port s = record s {
  last_helper_ip = some ip;
  last_reported_external_udp_port = some port;
}

unfoldable pub record_external_port_candidate :
    IpAddr → ℕ → ℕ → KadFirewallState → KadFirewallState × ExternalPortDiscoveryOutcome
record_external_port_candidate ip port at_ s =
    if port == 0 then (s, port_ignored) else elim s.active_external_port_discovery [
      | none ↦ (s, port_ignored)
      | some r ↦
          if holds_ip ip r.reporter_ips
          then (s, port_ignored)
          else if holds_port port r.reported_ports
          then (
            record (with_report ip port s) {
              discovered_external_udp_port = some port;
              last_external_port_probe_completed_at = some at_;
              last_error = none;
              active_external_port_discovery = none;
            },
            resolved port,
          )
          else if leb external_port_discovery_reporters (length (ip ∷ r.reporter_ips))
          then (
            record (with_report ip port s) {
              discovered_external_udp_port = none;
              last_external_port_probe_completed_at = some at_;
              last_error = some inconsistent_ports;
              active_external_port_discovery = none;
            },
            unreliable,
          )
          else (
            record (with_report ip port s) {
              active_external_port_discovery = some (record {
                reporter_ips = ip ∷ r.reporter_ips;
                reported_ports = r.reported_ports ++ (port ∷ []);
              });
            },
            port_recorded,
          )
    ]

unfoldable pub finish_external_port_discovery : ℕ → KadFirewallState → KadFirewallState
finish_external_port_discovery completed_at s = elim s.active_external_port_discovery [
  | none ↦ s
  | some r ↦ record s {
    last_external_port_probe_completed_at = some completed_at;
    last_error =
        (if is_some s.discovered_external_udp_port then s.last_error else some discovery_timed_out);
    active_external_port_discovery = none;
  }
]

unfoldable pub external_udp_port_for_request : KadFirewallState → ℕ
external_udp_port_for_request s = elim s.discovered_external_udp_port [ none ↦ 0 | some p ↦ p ]

unfoldable pub refresh_tcp_recheck : Bool → ℕ → KadFirewallState → KadFirewallState
refresh_tcp_recheck false started_at s = record s {
  tcp_recheck_active = false;
  active_tcp_round = none;
}
refresh_tcp_recheck true started_at s = elim s.active_tcp_round [
  | some r ↦ s
  | none ↦ record s {
    tcp_recheck_active = true;
    last_tcp_check_started_at = some started_at;
    active_tcp_round = some (record { active_helpers = []; completed_checks = 0 });
  }
]

unfoldable pub try_begin_tcp_firewall_probe :
    IpAddr → ℕ → KadFirewallState → KadFirewallState × Bool
try_begin_tcp_firewall_probe ip started_at s = elim s.active_tcp_round [
  | none ↦ (s, false)
  | some r ↦
      if leb tcp_firewall_recheck_limit r.completed_checks
        || (leb tcp_firewall_recheck_limit (length r.active_helpers)
            || holds_ip ip r.active_helpers)
      then (s, false)
      else (
        record s {
          tcp_recheck_active = true;
          last_tcp_check_started_at = some started_at;
          active_tcp_round = some (record r { active_helpers = ip ∷ r.active_helpers });
        },
        true,
      )
]

-- `HashSet::remove`
abbrev pub without_ip : IpAddr → List IpAddr → List IpAddr
without_ip ip ips = keep_if (λ x. not (same IpAddr-discrete x ip)) ips

unfoldable pub record_tcp_firewall_probe_failed :
    IpAddr → Text → KadFirewallState → KadFirewallState
record_tcp_firewall_probe_failed ip error s = record s {
  active_tcp_round = (elim s.active_tcp_round [
    | none ↦ none
    | some r ↦ some (record r { active_helpers = without_ip ip r.active_helpers })
  ]);
  last_helper_ip = some ip;
  last_error = some (reported error);
}

unfoldable pub record_firewalled_response :
    IpAddr → IpAddr → ℕ → KadFirewallState → KadFirewallState × FirewalledResponseOutcome
record_firewalled_response ip reported_ip at_ s = elim s.active_tcp_round [
  | none ↦ (s, response_ignored)
  | some r ↦
      if not (holds_ip ip r.active_helpers)
      then (s, response_ignored)
      else (let completed = r.completed_checks + 1 in
          let s' = record s {
            tcp_recheck_active = ltb completed tcp_firewall_recheck_limit;
            last_helper_ip = some ip;
            last_reported_external_ip = some reported_ip;
            last_tcp_check_completed_at = some at_;
            last_error = none;
          } in
          if leb tcp_firewall_recheck_limit completed
          then (record s' { active_tcp_round = none }, response_completed)
          else (
            record s' {
              active_tcp_round = some (record {
                active_helpers = without_ip ip r.active_helpers;
                completed_checks = completed;
              });
            },
            response_recorded,
          ))
]

-- `map(|ip| (ip, HelperOutcome::Pending)).collect()`
unfoldable pub pending_helpers : List IpAddr → Map IpAddr HelperOutcome
pending_helpers [] = []
pending_helpers (ip ∷ ips) = Map.insert IpAddr-discrete ip waiting (pending_helpers ips)

-- `filter(|port| *port != 0).collect()`
unfoldable pub port_set : List ℕ → List ℕ
port_set [] = []
port_set (p ∷ ps) = let rest = port_set ps in if p == 0 || holds_port p rest then rest else p ∷ rest

unfoldable pub begin_udp_check :
    List IpAddr → List ℕ → ℕ → KadFirewallState → KadFirewallState × Bool
unfolding pending_helpers port_set
begin_udp_check ips ports started_at s =
    if length (pending_helpers ips) == 0
    then (record s { last_error = some no_helpers }, false)
    else if length (port_set ports) == 0
    then (record s { last_error = some no_expected_ports }, false)
    else (
      record s {
        last_udp_check_started_at = some started_at;
        last_error = none;
        active_round = some (record {
          started_at = started_at;
          expected_ports = port_set ports;
          helper_outcomes = pending_helpers ips;
        });
      },
      true,
    )

abbrev pub with_outcome : IpAddr → HelperOutcome → UdpFirewallCheckRound → UdpFirewallCheckRound
with_outcome ip o r = record r {
  helper_outcomes = Map.insert IpAddr-discrete ip o r.helper_outcomes;
}

unfoldable pub record_helper_request_failed : IpAddr → Text → KadFirewallState → KadFirewallState
record_helper_request_failed ip error s = elim s.active_round [
  | none ↦ s
  | some r ↦ elim (Map.lookup IpAddr-discrete ip r.helper_outcomes) [
    | none ↦ s
    | some o ↦ record s {
      active_round = some (with_outcome ip request_failed r);
      last_helper_ip = some ip;
      last_error = some (reported error);
    }
  ]
]

abbrev pub is_request_failed : IpAddr × HelperOutcome → Bool
is_request_failed (ip, o) = elim o [
  | waiting ↦ false
  | request_failed ↦ true
  | remote_error ↦ false
  | wrong_port ↦ false
  | succeeded ↦ false
]

abbrev pub has_succeeded : IpAddr × HelperOutcome → Bool
has_succeeded (ip, o) = elim o [
  | waiting ↦ false
  | request_failed ↦ false
  | remote_error ↦ false
  | wrong_port ↦ false
  | succeeded ↦ true
]

-- Neither `Pending` nor `Succeeded`.
abbrev pub has_failed : IpAddr × HelperOutcome → Bool
has_failed (ip, o) = elim o [
  | waiting ↦ false
  | request_failed ↦ true
  | remote_error ↦ true
  | wrong_port ↦ true
  | succeeded ↦ false
]

unfoldable pub summary_of : Bool → ℕ → UdpFirewallCheckRound → UdpFirewallCheckSummary
summary_of is_open completed_at r = record {
  is_open = is_open;
  helpers_selected = length r.helper_outcomes;
  helpers_requested = count_if (λ e. not (is_request_failed e)) r.helper_outcomes;
  helpers_succeeded = count_if has_succeeded r.helper_outcomes;
  helpers_failed = count_if has_failed r.helper_outcomes;
  started_at = r.started_at;
  completed_at = completed_at;
}

-- `finalize_round` of a round that is there.
unfoldable pub finalize_round :
    Bool → ℕ → UdpFirewallCheckRound → KadFirewallState → KadFirewallState × UdpFirewallCheckSummary
unfolding summary_of
finalize_round is_open completed_at r s = (
  record s {
    active_round = none;
    udp_open = is_open;
    udp_verified = true;
    last_udp_check_succeeded_at =
        (if is_open then some completed_at else s.last_udp_check_succeeded_at);
    last_udp_check_failed_at = (if is_open then s.last_udp_check_failed_at else some completed_at);
  },
  summary_of is_open completed_at r,
)

unfoldable pub record_firewall_udp_packet :
    IpAddr → ℕ → ℕ → ℕ → KadFirewallState → KadFirewallState × FirewallUdpPacketOutcome
unfolding finalize_round
record_firewall_udp_packet ip error_code port at_ s0 = elim s0.active_round [
  | none ↦ (s0, packet_ignored)
  | some r ↦ elim (Map.lookup IpAddr-discrete ip r.helper_outcomes) [
    | none ↦ (s0, packet_ignored)
    | some o ↦
        let s = record s0 { last_helper_ip = some ip; last_reported_port = some port } in
        if error_code == 0 && holds_port port r.expected_ports
        then (let (s', summary) = finalize_round true at_ (with_outcome ip succeeded r) s in
            (record s' { last_error = none }, opened summary))
        else (
          record s {
            active_round =
                some (with_outcome ip (if error_code == 0 then wrong_port else remote_error) r);
          },
          packet_recorded,
        )
  ]
]

unfoldable pub finish_udp_check :
    ℕ → KadFirewallState → KadFirewallState × Option UdpFirewallCheckSummary
unfolding finalize_round
finish_udp_check completed_at s = elim s.active_round [
  | none ↦ (s, none)
  | some r ↦
      if not (any (λ e. not (has_succeeded e)) r.helper_outcomes)
      then (s, none)
      else if any has_succeeded r.helper_outcomes
      then (let (s', summary) = finalize_round true completed_at r s in (s', some summary))
      else if not (any (λ e. not (is_request_failed e)) r.helper_outcomes)
      then (record s { last_error = some requests_failed; active_round = none }, none)
      else (let (s', summary) =
            finalize_round false completed_at r (record s { last_error = some timed_out }) in
          (s', some summary))
]
