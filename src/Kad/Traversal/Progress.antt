-- ===== src/Kad/Traversal/Progress.antt =====
-- crates/overlord-kad-dht/src/traversal.rs: every answer resolves one candidate for good.
use p2p_overlord_agents.Base.{
  ℕ, zero, suc, ◌+◌, ◌-◌, ◌≤◌, ◌≡◌, refl, ap, subst, ◌∙◌, ◌⊎◌, inl, inr, true, false, ◌&&◌, ◌||◌,
  some, List, [], ◌∷◌, ◌==◌, if◌then◌else◌, length, find_if, any, count_if, arith, bool_to_ℕ,
  bool_to_ℕ-le, Bool-cases, Option-cases, if_case, same_iff, count_if-le-length,
}
use p2p_overlord_agents.Kad.Packet.{ContactEntry}
use p2p_overlord_agents.Base.Sort.{insert_sorted}
use p2p_overlord_agents.Kad.NodeId.{NodeId, NodeId-discrete}
use p2p_overlord_agents.Kad.Traversal.{
  CandidateState, pending, inflight, responded, failed, TraversalCandidate, req_count, is_pending,
  is_inflight, is_resolved, is_id, has_id, closer, with_state, Traversal, launch, launch_first,
  set_state, alpha,
}
use p2p_overlord_agents.Base.Member.{In}
use p2p_overlord_agents.Base.Sort.{count_if-insert_sorted}
use p2p_overlord_agents.Kad.Traversal.Sanitize.{sanitize_res_contacts}
use p2p_overlord_agents.Kad.Traversal.Round.{
  add_contact, add_contacts, candidate_of_entry, QueryResult, query_failed, unexpected, res,
  resolve, handle_result, end_task, responder_addr_of, answered, Round, next, stop, round,
  is_finished,
}
use p2p_overlord_agents.Kad.Traversal.Invariant.{IsTraversal, asked, asked-le, launch-IsTraversal}
use p2p_overlord_agents.Kad.Traversal.Rounds.{state_of, round-IsTraversal}

-- Two tests of a state.
state_apart : (c : TraversalCandidate) → is_inflight c ≡ true → is_resolved c ≡ false
state_apart c h =
    elim c.state
        as (λ (st : CandidateState).
          (elim st [ pending ↦ false | inflight ↦ true | responded ↦ false | failed ↦ false ])
            ≡ true
          → (elim st [ pending ↦ false | inflight ↦ false | responded ↦ true | failed ↦ true ])
            ≡ false) [
              | pending ↦ λ _. refl
              | inflight ↦ λ _. refl
              | responded ↦ λ e. ground (arith, e)
              | failed ↦ λ e. ground (arith, e)
            ]
      h

pending_apart : (c : TraversalCandidate) → is_pending c ≡ true → is_resolved c ≡ false
pending_apart c h =
    elim c.state
        as (λ (st : CandidateState).
          (elim st [ pending ↦ true | inflight ↦ false | responded ↦ false | failed ↦ false ])
            ≡ true
          → (elim st [ pending ↦ false | inflight ↦ false | responded ↦ true | failed ↦ true ])
            ≡ false) [
              | pending ↦ λ _. refl
              | inflight ↦ λ _. refl
              | responded ↦ λ e. ground (arith, e)
              | failed ↦ λ e. ground (arith, e)
            ]
      h

resolved-launch_first :
    (n : ℕ) (xs : List TraversalCandidate)
    → count_if is_resolved (launch_first n xs).0 ≡ count_if is_resolved xs
unfolding launch_first
resolved-launch_first n [] = refl
resolved-launch_first zero (x ∷ xs) = refl
resolved-launch_first (suc n) (x ∷ xs) = elim (Bool-cases (is_pending x)) [
  | inl e ↦
      let k = resolved-launch_first n xs in
      let z = ap bool_to_ℕ (pending_apart x e) in rw e (omega (arith, k, z))
  | inr e ↦ let k = resolved-launch_first (suc n) xs in rw e (omega (arith, k))
]

-- The state of the only candidate of an identifier, which is asked, becomes one that is resolved.
resolved-set_state :
    (id : NodeId) (st : CandidateState) (xs : List TraversalCandidate)
    → (st ≡ responded) ⊎ (st ≡ failed)
    → count_if (has_id id) xs ≤ 1
    → 1 ≤ count_if (asked id) xs
    → count_if is_resolved (set_state id st xs) ≡ count_if is_resolved xs + 1
unfolding set_state
resolved-set_state id st [] s u a = absurd (omega (arith, a))
resolved-set_state id st (x ∷ xs) s u a = elim (Bool-cases (has_id id x)) [
  | inl e ↦
      let none_else = asked-le id xs in
      let now_resolved : is_resolved (with_state st x) ≡ true = elim s [
        | inl z ↦ rw z refl
        | inr z ↦ rw z refl
      ] in
      let was_asked : is_inflight x ≡ true = ground (arith, e, u, a, none_else) in
      let not_resolved = state_apart x was_asked in
      let y = ap bool_to_ℕ now_resolved in
      let n = ap bool_to_ℕ not_resolved in rw e (omega (arith, y, n))
  | inr e ↦
      let k = resolved-set_state id st xs s (ground (arith, e, u)) (ground (arith, e, a)) in
      rw e (omega (arith, k))
]

resolved-add_contact :
    (e : ContactEntry) (t : Traversal)
    → count_if is_resolved (add_contact e t).candidates ≡ count_if is_resolved t.candidates
unfolding add_contact
resolved-add_contact e t =
    let c = candidate_of_entry t.target e in
    if_case
      (λ (u : Traversal). count_if is_resolved u.candidates ≡ count_if is_resolved t.candidates)
      (any (λ id. is_id id e.node_id) t.seen || (e.ip == 0 || e.udp_port == 0)) t
      (record t { seen = e.node_id ∷ t.seen; candidates = insert_sorted closer c t.candidates })
      (λ _. refl) (λ _. omega (arith, count_if-insert_sorted closer is_resolved c t.candidates))

resolved-add_contacts :
    (es : List ContactEntry) (t : Traversal)
    → count_if is_resolved (add_contacts es t).candidates ≡ count_if is_resolved t.candidates
unfolding add_contacts
resolved-add_contacts [] t = refl
resolved-add_contacts (e ∷ es) t =
    resolved-add_contacts es (add_contact e t) ∙ resolved-add_contact e t

resolved-handle_result :
    (now : ℕ) (id : NodeId) (r : QueryResult) (t : Traversal)
    → count_if (has_id id) t.candidates ≤ 1
    → 1 ≤ count_if (asked id) t.candidates
    → count_if is_resolved (handle_result now id r t).0.candidates
      ≡ count_if is_resolved t.candidates + 1
unfolding handle_result
resolved-handle_result now id query_failed t u a =
    resolved-set_state id failed t.candidates (inr refl) u a
resolved-handle_result now id unexpected t u a =
    resolved-set_state id failed t.candidates (inr refl) u a
resolved-handle_result now id (res contacts) t u a =
    let t' = record (resolve id responded t) { last_lookup_response_at = some now } in
    let k = resolved-set_state id responded t.candidates (inl refl) u a in
    elim (Option-cases (
      sanitize_res_contacts contacts (responder_addr_of (find_if (has_id id) t'.candidates))
        (req_count t.search_kind))) [
          | inl e ↦ rw (e, handle_result) k
          | inr (entries, e) ↦ rw (e, handle_result) (resolved-add_contacts entries t' ∙ k)
        ]

In-count : (id : NodeId) (xs : List NodeId) → In id xs → 1 ≤ count_if (λ x. is_id x id) xs
In-count id [] h = absurd h
In-count id (x ∷ xs) (inl e) =
    let b = ap bool_to_ℕ ((same_iff NodeId-discrete x id).1 e) in omega (arith, b)
In-count id (x ∷ xs) (inr h) = omega (arith, In-count id xs h)

-- A round that goes on with the answer of a task that runs.
pub data Reaches (t : Traversal) : ℕ → Traversal → Type 0 where
  here : Reaches t 0 t
  there :
      {n : ℕ} {u v : Traversal}
      → Reaches t n u
      → (now : ℕ) (id : NodeId) (r : QueryResult) → In id (launch u).running
      → round now (answered id r) u ≡ next v
      → Reaches t (suc n) v

round_resolves :
    (now : ℕ) (id : NodeId) (r : QueryResult) (t : Traversal)
    → IsTraversal t
    → In id (launch t).running
    → count_if is_resolved (state_of (round now (answered id r) t)).candidates
      ≡ count_if is_resolved t.candidates + 1
unfolding round
round_resolves now id r t h i =
    let h' = launch-IsTraversal t h in
    let u = end_task id (launch t) in
    let t' = (handle_result now id r u).0 in
    let tested = (handle_result now id r u).1 in
    let one = In-count id (launch t).running i in
    let k =
      resolved-handle_result now id r u
        (omega (arith, h'.are_seen id, bool_to_ℕ-le (any (λ x. is_id x id) (launch t).seen)))
        (omega (arith, one, h'.are_asked id)) in
    let same_before : count_if is_resolved u.candidates ≡ count_if is_resolved t.candidates =
      unfold launch in
      resolved-launch_first (alpha - count_if is_inflight t.candidates) t.candidates in
    let P : Round → Type 0 =
      λ r. count_if is_resolved (state_of r).candidates ≡ count_if is_resolved t.candidates + 1 in
    if_case P (length (launch t).running == 0) (stop (launch t))
      (if tested && is_finished t' then stop t' else next t')
      (λ z. ground (arith, z, one, count_if-le-length (λ x. is_id x id) (launch t).running))
      (λ _.
        if_case P (tested && is_finished t') (stop t') (next t')
          (λ _. omega (arith, k, same_before)) (λ _. omega (arith, k, same_before)))

-- Each round that takes the answer of a task which runs resolves exactly one candidate, and none
-- that is resolved is asked again: after n such rounds n more candidates are resolved, so that there
-- are no more rounds than candidates.
pub Reaches-resolved :
    (t u : Traversal) (n : ℕ)
    → IsTraversal t
    → Reaches t n u
    → IsTraversal u
      × (count_if is_resolved u.candidates ≡ count_if is_resolved t.candidates + n)
      × (n ≤ length u.candidates)
Reaches-resolved t u n h here = (h, omega arith, omega arith)
Reaches-resolved t v _ h (there {n = m} {u = u} before now id r i e) =
    let (k, c, _) = Reaches-resolved t u m h before in
    let one = round_resolves now id r u k i in
    let same_state : state_of (round now (answered id r) u) ≡ v = ap state_of e in
    let one' =
      subst
        (λ (x : Traversal).
          count_if is_resolved x.candidates ≡ count_if is_resolved u.candidates + 1)
        same_state one in
    (
      subst IsTraversal same_state (round-IsTraversal now (answered id r) u k),
      omega (arith, c, one'),
      omega (arith, c, one', count_if-le-length is_resolved v.candidates),
    )
