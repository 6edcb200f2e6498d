-- ===== src/Kad/Traversal/Invariant.antt =====
-- crates/overlord-kad-dht/src/traversal.rs: the invariant of the first phase, kept by every round.
use p2p_overlord_agents.Base.{
  ℕ, zero, suc, ◌+◌, ◌-◌, ◌≤◌, ◌≡◌, refl, ap, subst, ◌∙◌, ◌⊎◌, inl, inr, Bool, true, false, ◌&&◌,
  ◌||◌, List, [], ◌∷◌, ◌==◌, remove_first, any, count_if, arith, All, bool_to_ℕ, bool_to_ℕ-le,
  Bool-cases, if_case, same_iff, count_if-append,
}
use p2p_overlord_agents.Kad.Packet.{ContactEntry}
use p2p_overlord_agents.Base.Sort.{insert_sorted, IsSorted}
use p2p_overlord_agents.Kad.NodeId.{NodeId, NodeId-discrete, distance}
use p2p_overlord_agents.Kad.Traversal.{
  CandidateState, pending, inflight, responded, failed, v6, TraversalContact, TraversalCandidate,
  is_pending, is_inflight, is_id, has_id, closer, with_state, Traversal, launch, launch_first,
  set_state, alpha,
}
use p2p_overlord_agents.Base.Sort.{insert_sorted-IsSorted, count_if-insert_sorted}
use p2p_overlord_agents.Base.Every.{All-insert_sorted}
use p2p_overlord_agents.Kad.NodeId.Order.{not_less_trans, less_asym}
use p2p_overlord_agents.Kad.Traversal.Relabel.{
  Relabelled-set_state, Relabelled-launch_first, Relabelled-All, Relabelled-IsSorted,
  Relabelled-count,
}
use p2p_overlord_agents.Kad.Traversal.Round.{
  add_contact, add_contacts, candidate_of_entry, resolve, end_task,
}

-- A query of the node runs.
abbrev pub asked : NodeId → TraversalCandidate → Bool
asked id c = has_id id c && is_inflight c

-- The candidates stand in the order of their distance, each at the distance of its identifier; an
-- identifier is there once at most, and then it is among those seen; at most three candidates are
-- inflight, and the tasks that run ask candidates that are inflight.
pub record IsTraversal (t : Traversal) : Type 0 where
  pub are_sorted : IsSorted closer t.candidates
  pub have_distance :
      All (λ (c : TraversalCandidate). c.dist ≡ distance t.target c.contact.id) t.candidates
  pub are_seen :
      (id : NodeId) → count_if (has_id id) t.candidates ≤ bool_to_ℕ (any (λ x. is_id x id) t.seen)
  pub few_inflight : count_if is_inflight t.candidates ≤ alpha
  pub are_asked :
      (id : NodeId) → count_if (λ x. is_id x id) t.running ≤ count_if (asked id) t.candidates

inflight-launch_first :
    (n : ℕ) (xs : List TraversalCandidate)
    → count_if is_inflight (launch_first n xs).0 ≤ count_if is_inflight xs + n
unfolding launch_first
inflight-launch_first n [] = omega arith
inflight-launch_first zero (x ∷ xs) = omega arith
inflight-launch_first (suc n) (x ∷ xs) = elim (Bool-cases (is_pending x)) [
  | inl e ↦ rw e (let k = inflight-launch_first n xs in omega arith)
  | inr e ↦ rw e (let k = inflight-launch_first (suc n) xs in omega arith)
]

pending_not_inflight : (c : TraversalCandidate) → is_pending c ≡ true → is_inflight c ≡ false
pending_not_inflight c h =
    elim c.state
        as (λ (st : CandidateState).
          (elim st [ pending ↦ true | inflight ↦ false | responded ↦ false | failed ↦ false ])
            ≡ true
          → (elim st [ pending ↦ false | inflight ↦ true | responded ↦ false | failed ↦ false ])
            ≡ false) [
              | pending ↦ λ _. refl
              | inflight ↦ λ e. ground (arith, e)
              | responded ↦ λ _. refl
              | failed ↦ λ _. refl
            ]
      h

asked-launch_first :
    (id : NodeId) (n : ℕ) (xs : List TraversalCandidate)
    → count_if (asked id) (launch_first n xs).0
      ≡ count_if (asked id) xs + count_if (λ x. is_id x id) (launch_first n xs).1
unfolding launch_first
asked-launch_first id n [] = omega arith
asked-launch_first id zero (x ∷ xs) = omega arith
asked-launch_first id (suc n) (x ∷ xs) = elim (Bool-cases (is_pending x)) [
  | inl e ↦
      let k = asked-launch_first id n xs in
      let no_query = pending_not_inflight x e in rw e (ground (arith, k, no_query))
  | inr e ↦ let k = asked-launch_first id (suc n) xs in rw e (omega (arith, k))
]

pub launch-IsTraversal : (t : Traversal) → IsTraversal t → IsTraversal (launch t)
unfolding launch
launch-IsTraversal t h =
    let n = alpha - count_if is_inflight t.candidates in
    let cs = (launch_first n t.candidates).0 in
    let ids = (launch_first n t.candidates).1 in
    let r = Relabelled-launch_first n t.candidates in
    record {
      are_sorted = Relabelled-IsSorted t.candidates cs r h.are_sorted;
      have_distance =
          Relabelled-All (λ (c : TraversalContact) d. d ≡ distance t.target c.id) t.candidates cs r
            h.have_distance;
      are_seen = λ id. omega (arith, Relabelled-count id t.candidates cs r, h.are_seen id);
      few_inflight = omega (arith, inflight-launch_first n t.candidates, h.few_inflight);
      are_asked = λ id. omega (
        arith,
        asked-launch_first id n t.candidates,
        count_if-append (λ x. is_id x id) t.running ids,
        h.are_asked id,
      );
    }

module _ (id : NodeId) (st : CandidateState)
    (done_state : is_inflight (
        with_state st (record {
          contact = record { id = id; addr = record { ip = v6 0; port = 0 }; version = 0 };
          state = pending;
          dist = id;
        }))
      ≡ false) where
  inflight-set_state :
      (xs : List TraversalCandidate)
      → count_if is_inflight (set_state id st xs) ≤ count_if is_inflight xs
  unfolding set_state
  inflight-set_state [] = omega arith
  inflight-set_state (x ∷ xs) = elim (Bool-cases (has_id id x)) [
    | inl e ↦ let z = ap bool_to_ℕ done_state in rw e (omega arith)
    | inr e ↦ let k = inflight-set_state xs in rw e (omega arith)
  ]

-- The other candidates are asked as before.
asked-set_state :
    (id other : NodeId) (st : CandidateState) (xs : List TraversalCandidate)
    → is_id id other ≡ false
    → count_if (asked other) (set_state id st xs) ≡ count_if (asked other) xs
unfolding set_state
asked-set_state id other st [] n = refl
asked-set_state id other st (x ∷ xs) n = elim (Bool-cases (has_id id x)) [
  | inl e ↦
      let same_node = (same_iff NodeId-discrete x.contact.id id).0 e in
      let z : has_id other x ≡ false = ap (λ i. is_id i other) same_node ∙ n in rw (e, z) refl
  | inr e ↦ let k = asked-set_state id other st xs n in rw e (omega (arith, k))
]

pub asked-le :
    (id : NodeId) (xs : List TraversalCandidate) → count_if (asked id) xs ≤ count_if (has_id id) xs
asked-le id [] = omega arith
asked-le id (x ∷ xs) = ground (arith, asked-le id xs)

running-remove :
    (id other : NodeId) (xs : List NodeId)
    → count_if (λ x. is_id x other) (remove_first (λ x. is_id x id) xs)
      ≤ count_if (λ x. is_id x other) xs
running-remove id other [] = omega arith
running-remove id other (x ∷ xs) = ground (arith, running-remove id other xs)

running-remove_self :
    (id : NodeId) (xs : List NodeId)
    → count_if (λ x. is_id x id) (remove_first (λ x. is_id x id) xs)
      ≡ count_if (λ x. is_id x id) xs - 1
running-remove_self id [] = refl
running-remove_self id (x ∷ xs) = ground (arith, running-remove_self id xs)

pub end_task-IsTraversal :
    (id : NodeId) (t : Traversal) → IsTraversal t → IsTraversal (end_task id t)
end_task-IsTraversal id t h = record {
  are_sorted = h.are_sorted;
  have_distance = h.have_distance;
  are_seen = h.are_seen;
  few_inflight = h.few_inflight;
  are_asked = λ other. omega (arith, running-remove id other t.running, h.are_asked other);
}

-- A task of the node that ended: no other runs, and its candidate may leave the state inflight.
pub resolve-IsTraversal :
    (id : NodeId) (st : CandidateState) (t : Traversal)
    → (st ≡ responded) ⊎ (st ≡ failed)
    → IsTraversal t
    → IsTraversal (resolve id st (end_task id t))
resolve-IsTraversal id st t s h =
    let cs = set_state id st t.candidates in
    let r = Relabelled-set_state id st t.candidates in
    record {
      are_sorted = Relabelled-IsSorted t.candidates cs r h.are_sorted;
      have_distance =
          Relabelled-All (λ (c : TraversalContact) d. d ≡ distance t.target c.id) t.candidates cs r
            h.have_distance;
      are_seen = λ i. omega (arith, Relabelled-count i t.candidates cs r, h.are_seen i);
      few_inflight =
          let k : count_if is_inflight cs ≤ count_if is_inflight t.candidates = elim s [
            | inl e ↦ inflight-set_state id st (rw e refl) t.candidates
            | inr e ↦ inflight-set_state id st (rw e refl) t.candidates
          ] in
          omega (arith, k, h.few_inflight);
      are_asked = λ other. elim (Bool-cases (is_id id other)) [
        | inl e ↦
            let same_node = (same_iff NodeId-discrete id other).0 e in
            subst
              (λ o.
                count_if (λ x. is_id x o) (remove_first (λ x. is_id x id) t.running)
                ≤ count_if (asked o) cs)
              same_node
              (omega (
                arith,
                running-remove_self id t.running,
                h.are_asked id,
                asked-le id t.candidates,
                h.are_seen id,
                bool_to_ℕ-le (any (λ x. is_id x id) t.seen),
              ))
        | inr e ↦ omega (
          arith,
          running-remove id other t.running,
          asked-set_state id other st t.candidates e,
          h.are_asked other,
        )
      ];
    }

pub add_contact-IsTraversal :
    (e : ContactEntry) (t : Traversal) → IsTraversal t → IsTraversal (add_contact e t)
unfolding add_contact
add_contact-IsTraversal e t h =
    let c = candidate_of_entry t.target e in
    let cs = insert_sorted closer c t.candidates in
    if_case IsTraversal (any (λ id. is_id id e.node_id) t.seen || (e.ip == 0 || e.udp_port == 0)) t
      (record t { seen = e.node_id ∷ t.seen; candidates = cs }) (λ _. h)
      (λ z. record {
        are_sorted =
            insert_sorted-IsSorted closer (λ a b c. not_less_trans a.dist b.dist c.dist)
              (λ a b. less_asym a.dist b.dist) c t.candidates h.are_sorted;
        have_distance =
            All-insert_sorted (λ (c : TraversalCandidate). c.dist ≡ distance t.target c.contact.id)
              closer c t.candidates refl h.have_distance;
        are_seen = λ id.
            let k = count_if-insert_sorted closer (has_id id) c t.candidates in
            let m = h.are_seen id in
            elim (Bool-cases (is_id e.node_id id)) [
              | inl b ↦
                  let same_node = (same_iff NodeId-discrete e.node_id id).0 b in
                  let new : any (λ x. is_id x id) t.seen ≡ false =
                    subst (λ i. any (λ x. is_id x i) t.seen ≡ false) same_node
                      (ground (arith, z)) in
                  rw b (let m' = rw new at m in omega (arith, k, m', ap bool_to_ℕ b))
              | inr b ↦ rw b (omega (arith, k, m, ap bool_to_ℕ b))
            ];
        few_inflight =
            omega (arith, count_if-insert_sorted closer is_inflight c t.candidates, h.few_inflight);
        are_asked = λ id.
            let k = count_if-insert_sorted closer (asked id) c t.candidates in
            let idle : bool_to_ℕ (asked id c) ≡ 0 = ground arith in
            omega (arith, k, idle, h.are_asked id);
      })

pub add_contacts-IsTraversal :
    (es : List ContactEntry) (t : Traversal) → IsTraversal t → IsTraversal (add_contacts es t)
unfolding add_contacts
add_contacts-IsTraversal [] t h = h
add_contacts-IsTraversal (e ∷ es) t h =
    add_contacts-IsTraversal es (add_contact e t) (add_contact-IsTraversal e t h)
