-- ===== src/Kad/Tracker/Tests.antt =====
-- Runs of the trackers at concrete values, and the theorems about them applied there.
use p2p_overlord_agents.Base.{
  ℕ, ◌+◌, ◌-◌, ◌*◌, ◌≤◌, ◌≡◌, refl, ap, same_refl, min, true, ◌&&◌, some, [], ◌∷◌, arith, bool_to_ℕ,
  ltb, ◌==◌,
}
use p2p_overlord_agents.Base.Map
use p2p_overlord_agents.Kad.Tracker.{
  PacketTracker, PacketTrackerKey, duration_max, new_tracker, limit_for_bucket, record_and_check,
  prune, OutboundRequestTracker, record_request, contains, tracks_outbound_request_opcode,
  find_node_req, ping_req, Bucket-discrete, Key-discrete,
}
use p2p_overlord_agents.Kad.Tracker.Flood.{
  window_of, record_and_check_independent, run_packets, run_packets_budget, IsTracker,
  prune_transparent, record_and_check-IsTracker,
}
use p2p_overlord_agents.Kad.Tracker.Outbound.{
  Descending, open_requests, record_request_lem, contains_lem,
}

abbrev secs : ℕ → ℕ
secs n = n * 1_000_000_000

abbrev peer_key : PacketTrackerKey
peer_key = record { ip = 7; bucket = find_node_req }

abbrev other_key : PacketTrackerKey
other_key = record { ip = 7; bucket = ping_req }

abbrev fresh_tracker : PacketTracker
fresh_tracker = new_tracker 5 100 (secs 10) (secs 60)

-- Four of the ten packets of the bucket were counted.
abbrev busy_tracker : PacketTracker
busy_tracker = record {
  counts = (peer_key, record { packets = 4; start = secs 1 }) ∷ [];
  limits = fresh_tracker.limits;
  default_limit = fresh_tracker.default_limit;
}

limit_example :
    limit_for_bucket busy_tracker find_node_req ≡ record { max_packets = 10; window = secs 60 }
unfolding limit_for_bucket new_tracker Map.lookup Bucket-discrete
limit_example = refl

independent_example :
    (record_and_check 3 (record_and_check 2 busy_tracker peer_key).0 other_key).1
    ≡ (record_and_check 3 busy_tracker other_key).1
independent_example =
    record_and_check_independent 2 3 busy_tracker peer_key other_key
      (λ e. ground (arith, ap (λ (k : PacketTrackerKey). k.bucket) e))

busy_window : window_of busy_tracker peer_key ≡ some (record { packets = 4; start = secs 1 })
unfolding Map.lookup
busy_window = rw (same_refl Key-discrete peer_key)

budget_example :
    run_packets (secs 2 ∷ secs 3 ∷ secs 4 ∷ []) busy_tracker peer_key
    ≡ min 3 ((limit_for_bucket busy_tracker find_node_req).max_packets - 4)
budget_example =
    run_packets_budget (secs 2 ∷ secs 3 ∷ secs 4 ∷ []) busy_tracker peer_key
      (record { packets = 4; start = secs 1 }) busy_window
      (rw limit_example (omega arith, (omega arith, (omega arith, tt)))) (omega arith)

fresh-IsTracker : IsTracker fresh_tracker
unfolding new_tracker
fresh-IsTracker k = omega arith

short_window :
    (limit_for_bucket (record_and_check 2 fresh_tracker peer_key).0 find_node_req).window
    ≤ duration_max
unfolding record_and_check limit_for_bucket new_tracker Map.lookup Bucket-discrete
short_window = omega arith

prune_example :
    (record_and_check 9 (prune 8 (record_and_check 2 fresh_tracker peer_key).0) peer_key).1
    ≡ (record_and_check 9 (record_and_check 2 fresh_tracker peer_key).0 peer_key).1
prune_example =
    prune_transparent 8 9 (record_and_check 2 fresh_tracker peer_key).0 peer_key
      (record_and_check-IsTracker 2 fresh_tracker peer_key fresh-IsTracker) (omega arith)
      short_window

-- A PING to each of two addresses, the newer first.
abbrev pings : OutboundRequestTracker
pings = record {
  entries =
      (record { inserted_at = 6; ip = 2; opcode = 0x60 })
      ∷ (record { inserted_at = 4; ip = 1; opcode = 0x60 })
      ∷ [];
  window = 10;
}

pings-Descending : Descending pings.entries
pings-Descending = ((omega arith, tt), (tt, tt))

record_request_example :
    open_requests 9 (record_request 9 pings 1 0x60) 1 0x60
    ≡ open_requests 9 pings 1 0x60
      + bool_to_ℕ (tracks_outbound_request_opcode 0x60 && (1 == 1 && 0x60 == 0x60))
record_request_example = record_request_lem 9 pings 1 0x60 1 0x60 pings-Descending (omega arith)

contains_example :
    ((contains 9 pings 1 0x60 true).1 ≡ ltb 0 (open_requests 9 pings 1 0x60))
    × ((i o : ℕ)
        → open_requests 9 (contains 9 pings 1 0x60 true).0 i o
            + bool_to_ℕ (true && ((contains 9 pings 1 0x60 true).1 && (1 == i && 0x60 == o)))
          ≡ open_requests 9 pings i o)
contains_example = contains_lem 9 pings 1 0x60 true pings-Descending
