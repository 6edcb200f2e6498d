-- ===== src/Kad/Traversal/Tests.antt =====
-- Runs of crates/overlord-kad-dht/src/traversal.rs at concrete values, and the theorems about it
-- applied there.
use p2p_overlord_agents.Base.{
  ℕ, ◌+◌, ◌*◌, ◌^◌, ◌≤◌, ◌<◌, ◌≡◌, ◌⊎◌, refl, inl, true, false, none, some, List, [], ◌∷◌, arith,
  length, take, keep_if, count_if, All, ℕ_discrete,
}
use p2p_overlord_agents.Base.Member.{In}
use p2p_overlord_agents.Base.Sort.{IsSorted, sort_by}
use p2p_overlord_agents.Kad.NodeId.{
  NodeId, NodeId-discrete, Chunk, IsChunk, IsNodeId, zero_id, cmp, distance,
}
use p2p_overlord_agents.Kad.Routing.Contact.{Ipv4Addr, Ipv4Addr-discrete, Subnet24-discrete}
use p2p_overlord_agents.Kad.Packet.{ContactEntry}
use p2p_overlord_agents.Kad.Traversal.{
  pending, responded, v4, TraversalContact, TraversalCandidate, find_node, closer, closest_k,
  is_responded, is_resolved, Traversal, new_traversal, launch, launch_first,
}
use p2p_overlord_agents.Kad.Traversal.Sanitize.{
  sanitize_res_contacts, IsSanitized, sanitize_res_contacts-IsSanitized,
}
use p2p_overlord_agents.Kad.Traversal.Round.{
  Event, answered, panicked, res, query_failed, find_node_lookup_converged, round, next,
}
use p2p_overlord_agents.Kad.Traversal.Invariant.{IsTraversal}
use p2p_overlord_agents.Kad.Traversal.Start.{new_traversal-IsTraversal}
use p2p_overlord_agents.Kad.Traversal.Rounds.{state_of, walk, walk-IsTraversal}
use p2p_overlord_agents.Kad.Traversal.Progress.{Reaches, here, there, Reaches-resolved}
use p2p_overlord_agents.Kad.Traversal.Converged.{find_node_lookup_converged_lem}

abbrev chunk : ℕ → Chunk
chunk n = record { b0 = n; b1 = 0; b2 = 0; b3 = 0 }

abbrev id_at : ℕ → NodeId
id_at n = record { c0 = chunk n; c1 = chunk 0; c2 = chunk 0; c3 = chunk 0 }

id_at-IsNodeId : (n : ℕ) → n < 256 → IsNodeId (id_at n)
id_at-IsNodeId n h = record {
  c0_bytes = record { b0_lt = h; b1_lt = omega arith; b2_lt = omega arith; b3_lt = omega arith };
  c1_bytes = no_bytes;
  c2_bytes = no_bytes;
  c3_bytes = no_bytes;
}
  where
    no_bytes : IsChunk (chunk 0)
    no_bytes = record {
      b0_lt = omega arith;
      b1_lt = omega arith;
      b2_lt = omega arith;
      b3_lt = omega arith;
    }

abbrev ip_at : ℕ → Ipv4Addr
ip_at n = record { a = 10; b = 0; c = n; d = 1 }

abbrev contact_at : ℕ → TraversalContact
contact_at n = record {
  id = id_at n;
  addr = record { ip = v4 (ip_at n); port = 4672 };
  version = 9;
}

abbrev entry_at : ℕ → ContactEntry
entry_at n = record {
  node_id = id_at n;
  ip = 10 * 2 ^ 24 + n * 2 ^ 8 + 1;
  udp_port = 4672;
  tcp_port = 4662;
  version = 9;
}

abbrev two_contacts : List TraversalContact
two_contacts = contact_at 8 ∷ contact_at 9 ∷ []

-- The first node answers with a closer one, the second fails.
abbrev events : List (ℕ × Event)
events =
    (1, answered (id_at 8) (res (entry_at 1 ∷ [])))
    ∷ (2, answered (id_at 9) query_failed)
    ∷ (3, panicked (id_at 1))
    ∷ []

walk_example :
    IsTraversal (state_of (walk events (new_traversal zero_id find_node 10 two_contacts)))
walk_example =
    walk-IsTraversal zero_id find_node 10 two_contacts events (id_at-IsNodeId 0 (omega arith))
      (id_at-IsNodeId 8 (omega arith), (id_at-IsNodeId 9 (omega arith), tt))

abbrev entries : List ContactEntry
entries = entry_at 1 ∷ entry_at 1 ∷ entry_at 2 ∷ []

sanitize_example :
    ((11 < length entries)
      × (sanitize_res_contacts entries (record { ip = v4 (ip_at 8); port = 4672 }) 11 ≡ none))
    ⊎ ((out : List ContactEntry) × (sanitize_res_contacts entries
            (record { ip = v4 (ip_at 8); port = 4672 })
            11
          ≡ some out)
        × IsSanitized (ip_at 8) 11 out)
sanitize_example = sanitize_res_contacts-IsSanitized entries (ip_at 8) 4672 11

abbrev start : Traversal
start = new_traversal zero_id find_node 10 two_contacts

start-IsTraversal : IsTraversal start
start-IsTraversal =
    new_traversal-IsTraversal zero_id (id_at-IsNodeId 0 (omega arith)) find_node 10 two_contacts
      (id_at-IsNodeId 8 (omega arith), (id_at-IsNodeId 9 (omega arith), tt))

abbrev after_one : Traversal
after_one = state_of (round 1 (answered (id_at 8) (res (entry_at 1 ∷ []))) start)

start_runs : In (id_at 8) (launch start).running
unfolding launch new_traversal launch_first sort_by cmp distance NodeId-discrete ℕ_discrete
start_runs = inl refl

start_goes_on : round 1 (answered (id_at 8) (res (entry_at 1 ∷ []))) start ≡ next after_one
unfolding round launch new_traversal launch_first sort_by cmp distance NodeId-discrete ℕ_discrete
    Ipv4Addr-discrete Subnet24-discrete
start_goes_on = refl

one_round : Reaches start 1 after_one
one_round = there here 1 (id_at 8) (res (entry_at 1 ∷ [])) start_runs start_goes_on

progress_example :
    IsTraversal after_one
    × (count_if is_resolved after_one.candidates ≡ count_if is_resolved start.candidates + 1)
    × (1 ≤ length after_one.candidates)
progress_example = Reaches-resolved start after_one 1 start-IsTraversal one_round

-- A candidate at a distance, that responded; and one farther, that did not.
abbrev responder_at : ℕ → TraversalCandidate
responder_at n = record { contact = contact_at n; state = responded; dist = id_at n }

abbrev ten_and_one : List TraversalCandidate
ten_and_one =
    responder_at 1
    ∷ responder_at 2
    ∷ responder_at 3
    ∷ responder_at 4
    ∷ responder_at 5
    ∷ responder_at 6
    ∷ responder_at 7
    ∷ responder_at 8
    ∷ responder_at 9
    ∷ responder_at 10
    ∷ record (responder_at 11) { state = pending }
    ∷ []

-- How many pairs are out of order.
abbrev disorder : List TraversalCandidate → ℕ
disorder [] = 0
disorder (x ∷ xs) = count_if (λ y. closer y x) xs + disorder xs

far_rest :
    (x : TraversalCandidate) (xs : List TraversalCandidate)
    → count_if (λ y. closer y x) xs ≡ 0
    → All (λ y. closer y x ≡ false) xs
far_rest x [] h = tt
far_rest x (y ∷ ys) h = (ground (arith, h), far_rest x ys (ground (arith, h)))

IsSorted-by_counts : (xs : List TraversalCandidate) → disorder xs ≡ 0 → IsSorted closer xs
IsSorted-by_counts [] h = tt
IsSorted-by_counts (x ∷ xs) h =
    (far_rest x xs (omega (arith, h)), IsSorted-by_counts xs (omega (arith, h)))

ten_and_one-IsSorted : IsSorted closer ten_and_one
unfolding cmp
ten_and_one-IsSorted = IsSorted-by_counts ten_and_one refl

ten_and_one-converged : find_node_lookup_converged ten_and_one ≡ true
unfolding find_node_lookup_converged cmp
ten_and_one-converged = refl

converged_example :
    (length (take closest_k (keep_if is_responded ten_and_one)) ≡ closest_k)
    × ((c : TraversalCandidate)
        → In c ten_and_one
        → is_resolved c ≡ false
        → All (λ d. closer d c ≡ true) (take closest_k (keep_if is_responded ten_and_one)))
converged_example =
    find_node_lookup_converged_lem ten_and_one ten_and_one-IsSorted ten_and_one-converged
