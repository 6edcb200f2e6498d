-- ===== src/Kad/Traversal/Round.antt =====
-- crates/overlord-kad-dht/src/traversal.rs: one round of the loop of `run_traversal`.
use p2p_overlord_agents.Base.{
  ℕ, Bool, true, false, not, ◌&&◌, ◌||◌, Option, none, some, List, [], ◌∷◌, ltb, ◌==◌,
  if◌then◌else◌, length, take, find_if, keep_if, remove_first, any, last?, map,
}
use p2p_overlord_agents.Kad.Packet.{ContactEntry, ip_addr}
use p2p_overlord_agents.Base.Sort.{insert_sorted}
use p2p_overlord_agents.Kad.NodeId.{NodeId, cmp, is_less}
use p2p_overlord_agents.Kad.Traversal.{
  CandidateState, responded, failed, v4, SocketAddr, TraversalContact, TraversalCandidate,
  traversal_closest_limit, req_count, is_find_node, is_inflight, is_responded, is_resolved, is_id,
  has_id, closer, new_candidate, Traversal, launch, set_state, closest_k,
}
use p2p_overlord_agents.Kad.Traversal.Sanitize.{sanitize_res_contacts}

abbrev pub candidate_of_entry : NodeId → ContactEntry → TraversalCandidate
candidate_of_entry target e = new_candidate target (record {
  id = e.node_id;
  addr = record { ip = v4 (ip_addr e); port = e.udp_port };
  version = e.version;
})

-- The loop over the sanitized contacts. `partition_point` on the sorted candidates is the number of
-- those in front that are closer.
unfoldable pub add_contact : ContactEntry → Traversal → Traversal
add_contact e t =
    if any (λ id. is_id id e.node_id) t.seen || (e.ip == 0 || e.udp_port == 0)
    then t
    else record t {
      seen = e.node_id ∷ t.seen;
      candidates = insert_sorted closer (candidate_of_entry t.target e) t.candidates;
    }

unfoldable pub add_contacts : List ContactEntry → Traversal → Traversal
unfolding add_contact
add_contacts [] t = t
add_contacts (e ∷ es) t = add_contacts es (add_contact e t)

-- The result of a query.
pub data QueryResult : Type 0 where
  query_failed : QueryResult
  unexpected : QueryResult
  res : List ContactEntry → QueryResult

-- `0.0.0.0:0`
abbrev no_addr : SocketAddr
no_addr = record { ip = v4 (record { a = 0; b = 0; c = 0; d = 0 }); port = 0 }

abbrev pub responder_addr_of : Option TraversalCandidate → SocketAddr
responder_addr_of none = no_addr
responder_addr_of (some c) = c.contact.addr

abbrev pub resolve : NodeId → CandidateState → Traversal → Traversal
resolve id st t = record t { candidates = set_state id st t.candidates }

-- The match on the result of a query, and whether the tests behind it are reached.
unfoldable pub handle_result : ℕ → NodeId → QueryResult → Traversal → Traversal × Bool
unfolding set_state sanitize_res_contacts req_count add_contacts
handle_result now id query_failed t = (resolve id failed t, true)
handle_result now id unexpected t = (resolve id failed t, true)
handle_result now id (res contacts) t =
    let t' = record (resolve id responded t) { last_lookup_response_at = some now } in
    elim (sanitize_res_contacts contacts (responder_addr_of (find_if (has_id id) t'.candidates))
      (req_count t.search_kind)) [
        | none ↦ (t', false)
        | some entries ↦ (add_contacts entries t', true)
      ]

-- Unresolved and not farther than the threshold.
abbrev pub may_displace : NodeId → TraversalCandidate → Bool
may_displace threshold c = not (is_resolved c) && not (is_less (cmp threshold c.dist))

unfoldable pub find_node_lookup_converged : List TraversalCandidate → Bool
find_node_lookup_converged cs =
    let closest_responded = take closest_k (keep_if is_responded cs) in
    elim (last? closest_responded) [
      | none ↦ false
      | some c ↦
          not (ltb (length closest_responded) closest_k) && not (any (may_displace c.dist) cs)
    ]

-- The tests at the end of a round.
unfoldable pub is_finished : Traversal → Bool
unfolding find_node_lookup_converged traversal_closest_limit
is_finished t =
    (is_find_node t.search_kind && find_node_lookup_converged t.candidates)
    || (not (
          any (λ c. not (is_resolved c))
            (take (traversal_closest_limit t.search_kind t.phase2_fanout) t.candidates))
        && not (any is_inflight t.candidates))

-- What the loop meets: the deadline or a cancellation before a round or while it waits, the result
-- of a task, or a task that panicked.
pub data Event : Type 0 where
  answered : NodeId → QueryResult → Event
  panicked : NodeId → Event
  cancelled : Event
  expired : Event

abbrev pub end_task : NodeId → Traversal → Traversal
end_task id t = record t { running = remove_first (λ x. is_id x id) t.running }

-- The loop goes on, or it is left.
pub data Round : Type 0 where
  next : Traversal → Round
  stop : Traversal → Round

unfoldable pub round : ℕ → Event → Traversal → Round
unfolding launch handle_result is_finished
round now expired t = stop t
round now cancelled t = stop (launch t)
round now (panicked id) t =
    if length (launch t).running == 0 then stop (launch t) else next (end_task id (launch t))
round now (answered id result) t =
    if length (launch t).running == 0
    then stop (launch t)
    else let (t', tested) = handle_result now id result (end_task id (launch t)) in
      (if tested && is_finished t' then stop t' else next t')

-- What the walk gives: the nodes that responded, closest first.
unfoldable pub closest : Traversal → List TraversalContact
unfolding traversal_closest_limit
closest t =
    take (traversal_closest_limit t.search_kind t.phase2_fanout)
      (map (λ (c : TraversalCandidate). c.contact) (keep_if is_responded t.candidates))
