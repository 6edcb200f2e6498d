-- ===== src/Kad/Traversal/Rounds.antt =====
-- crates/overlord-kad-dht/src/traversal.rs: what every round of the first phase does.
use p2p_overlord_agents.Base.{
  ℕ, refl, inl, inr, ◌&&◌, some, List, [], ◌∷◌, ◌==◌, if◌then◌else◌, length, find_if, All,
  Option-cases, if_case,
}
use p2p_overlord_agents.Kad.NodeId.{NodeId, IsNodeId}
use p2p_overlord_agents.Kad.Traversal.{
  responded, failed, TraversalContact, TraversalKind, req_count, has_id, Traversal, launch,
  new_traversal,
}
use p2p_overlord_agents.Kad.Traversal.Sanitize.{sanitize_res_contacts}
use p2p_overlord_agents.Kad.Traversal.Round.{
  QueryResult, query_failed, unexpected, res, resolve, handle_result, end_task, responder_addr_of,
  Event, answered, panicked, cancelled, expired, Round, next, stop, round, is_finished,
}
use p2p_overlord_agents.Kad.Traversal.Invariant.{
  IsTraversal, launch-IsTraversal, end_task-IsTraversal, resolve-IsTraversal,
  add_contacts-IsTraversal,
}
use p2p_overlord_agents.Kad.Traversal.Start.{new_traversal-IsTraversal}

abbrev pub state_of : Round → Traversal
state_of (next t) = t
state_of (stop t) = t

-- The answer is remembered with the time.
stamp-IsTraversal :
    (now : ℕ) (t : Traversal)
    → IsTraversal t
    → IsTraversal (record t { last_lookup_response_at = some now })
stamp-IsTraversal now t h = record {
  are_sorted = h.are_sorted;
  have_distance = h.have_distance;
  are_seen = h.are_seen;
  few_inflight = h.few_inflight;
  are_asked = h.are_asked;
}

handle_result-IsTraversal :
    (now : ℕ) (id : NodeId) (r : QueryResult) (t : Traversal)
    → IsTraversal t
    → IsTraversal (handle_result now id r (end_task id t)).0
unfolding handle_result
handle_result-IsTraversal now id query_failed t h = resolve-IsTraversal id failed t (inr refl) h
handle_result-IsTraversal now id unexpected t h = resolve-IsTraversal id failed t (inr refl) h
handle_result-IsTraversal now id (res contacts) t h =
    let t' = record (resolve id responded (end_task id t)) { last_lookup_response_at = some now } in
    let h' =
      stamp-IsTraversal now (resolve id responded (end_task id t))
        (resolve-IsTraversal id responded t (inl refl) h) in
    elim (Option-cases (
      sanitize_res_contacts contacts (responder_addr_of (find_if (has_id id) t'.candidates))
        (req_count t.search_kind))) [
          | inl e ↦ rw (e, handle_result) h'
          | inr (entries, e) ↦ rw (e, handle_result) (add_contacts-IsTraversal entries t' h')
        ]

pub round-IsTraversal :
    (now : ℕ) (ev : Event) (t : Traversal) → IsTraversal t → IsTraversal (state_of (round now ev t))
unfolding round
round-IsTraversal now expired t h = h
round-IsTraversal now cancelled t h = launch-IsTraversal t h
round-IsTraversal now (panicked id) t h =
    let h' = launch-IsTraversal t h in
    if_case (λ r. IsTraversal (state_of r)) (length (launch t).running == 0) (stop (launch t))
      (next (end_task id (launch t))) (λ _. h') (λ _. end_task-IsTraversal id (launch t) h')
round-IsTraversal now (answered id r) t h =
    let h' = launch-IsTraversal t h in
    let t' = (handle_result now id r (end_task id (launch t))).0 in
    let tested = (handle_result now id r (end_task id (launch t))).1 in
    let k = handle_result-IsTraversal now id r (launch t) h' in
    let P : Round → Type 0 = λ r. IsTraversal (state_of r) in
    if_case P (length (launch t).running == 0) (stop (launch t))
      (if tested && is_finished t' then stop t' else next t') (λ _. h')
      (λ _. if_case P (tested && is_finished t') (stop t') (next t') (λ _. k) (λ _. k))

-- The loop after a round: it is left, or it goes on.
abbrev pub go_on : (Traversal → Round) → Round → Round
go_on f (stop t) = stop t
go_on f (next t) = f t

-- The rounds of the loop on the events that it meets, until it is left.
unfoldable pub walk : List (ℕ × Event) → Traversal → Round
unfolding round
walk [] t = next t
walk ((now, ev) ∷ es) t = go_on (walk es) (round now ev t)

go_on-IsTraversal :
    (f : Traversal → Round) (r : Round)
    → IsTraversal (state_of r)
    → ((t : Traversal) → IsTraversal t → IsTraversal (state_of (f t)))
    → IsTraversal (state_of (go_on f r))
go_on-IsTraversal f (stop t) h g = h
go_on-IsTraversal f (next t) h g = g t h

walk_from :
    (es : List (ℕ × Event)) (t : Traversal) → IsTraversal t → IsTraversal (state_of (walk es t))
unfolding walk
walk_from [] t h = h
walk_from ((now, ev) ∷ es) t h =
    go_on-IsTraversal (walk es) (round now ev t) (round-IsTraversal now ev t h) (walk_from es)

-- Whatever the initial contacts and the events are, after any number of rounds the candidates stand
-- in the order of their distance to the target, no identifier is there twice and all are among those
-- seen, and at most three candidates are asked at a time. The identifiers are arrays of bytes.
pub walk-IsTraversal :
    (target : NodeId) (kind : TraversalKind) (fanout : ℕ) (initial : List TraversalContact)
    (es : List (ℕ × Event))
    → IsNodeId target
    → All (λ (c : TraversalContact). IsNodeId c.id) initial
    → IsTraversal (state_of (walk es (new_traversal target kind fanout initial)))
walk-IsTraversal target kind fanout initial es v vs =
    walk_from es (new_traversal target kind fanout initial)
      (new_traversal-IsTraversal target v kind fanout initial vs)
