-- ===== src/Kad/Traversal/Start.antt =====
-- crates/overlord-kad-dht/src/traversal.rs: the candidates before the first round.
use p2p_overlord_agents.Base.{
  ℕ, ◌≤◌, ◌≡◌, refl, ap, sym, subst, ◌∙◌, inl, inr, Bool, false, none, List, [], ◌∷◌, any, count_if,
  map, arith, All, bool_to_ℕ, bool_to_ℕ-le, Bool-cases, same_iff,
}
use p2p_overlord_agents.Base.Sort.{sort_by, IsSorted}
use p2p_overlord_agents.Kad.NodeId.{NodeId, NodeId-discrete, IsNodeId, distance, cmp, is_less}
use p2p_overlord_agents.Kad.Traversal.{
  TraversalContact, TraversalCandidate, TraversalKind, is_inflight, is_id, has_id, closer,
  new_candidate, Traversal, dedup_after, dedup_ids, new_traversal,
}
use p2p_overlord_agents.Base.Sort.{sort_by-IsSorted}
use p2p_overlord_agents.Base.Every.{All-sort_by}
use p2p_overlord_agents.Kad.NodeId.Bytes.{distance_unique, distance_comm, distance-IsNodeId}
use p2p_overlord_agents.Kad.NodeId.Order.{not_less_trans, less_asym}
use p2p_overlord_agents.Kad.NodeId.Antisym.{cmp_antisym}
use p2p_overlord_agents.Kad.Traversal.Invariant.{IsTraversal}

module _ (target : NodeId) (v : IsNodeId target) where
  -- A candidate at the distance of its identifier, whose bytes are bytes.
  abbrev IsPlaced : TraversalCandidate → Type 0
  IsPlaced c = (c.dist ≡ distance target c.contact.id) × IsNodeId c.contact.id

  -- No candidate behind one of a new identifier has the identifier before that.
  apart :
      (x y : TraversalCandidate) (zs : List TraversalCandidate)
      → IsPlaced x
      → IsPlaced y
      → has_id x.contact.id y ≡ false
      → closer y x ≡ false
      → All IsPlaced zs
      → All (λ z. closer z y ≡ false) zs
      → count_if (has_id x.contact.id) zs ≡ 0
  apart x y [] px py n le ps ss = refl
  apart x y (z ∷ zs) (dx, vx) (dy, vy) n le ((dz, vz), ps) (s, ss) =
      elim (Bool-cases (has_id x.contact.id z)) [
        | inl e ↦
            let same_node = (same_iff NodeId-discrete z.contact.id x.contact.id).0 e in
            let same_dist : z.dist ≡ x.dist = dz ∙ ap (distance target) same_node ∙ sym dx in
            let s' : is_less (cmp x.dist y.dist) ≡ false =
              subst (λ d. is_less (cmp d y.dist) ≡ false) same_dist s in
            let vdx = subst IsNodeId (sym dx) (distance-IsNodeId target x.contact.id v vx) in
            let vdy = subst IsNodeId (sym dy) (distance-IsNodeId target y.contact.id v vy) in
            let equal_dist = cmp_antisym y.dist x.dist vdy vdx le s' in
            let same_id : y.contact.id ≡ x.contact.id =
              distance_unique y.contact.id x.contact.id target (
                distance_comm y.contact.id target
                ∙ sym dy
                ∙ equal_dist
                ∙ dx
                ∙ distance_comm target x.contact.id) in
            ground (arith, n, (same_iff NodeId-discrete y.contact.id x.contact.id).1 same_id)
        | inr e ↦
            let k = apart x y zs (dx, vx) (dy, vy) n le ps ss in omega (arith, k, ap bool_to_ℕ e)
      ]

  All-dedup_after :
      (P : TraversalCandidate → Type 0) (x : TraversalCandidate) (xs : List TraversalCandidate)
      → All P xs
      → All P (dedup_after x xs)
  unfolding dedup_after
  All-dedup_after P x [] ps = tt
  All-dedup_after P x (y ∷ ys) (p, ps) = elim (Bool-cases (has_id x.contact.id y)) [
    | inl e ↦ rw e (All-dedup_after P x ys ps)
    | inr e ↦ rw e (p, All-dedup_after P y ys ps)
  ]

  dedup_after-IsSorted :
      (x : TraversalCandidate) (xs : List TraversalCandidate)
      → IsSorted closer xs
      → IsSorted closer (dedup_after x xs)
  unfolding dedup_after
  dedup_after-IsSorted x [] s = tt
  dedup_after-IsSorted x (y ∷ ys) (a, s) = elim (Bool-cases (has_id x.contact.id y)) [
    | inl e ↦ rw e (dedup_after-IsSorted x ys s)
    | inr e ↦ rw e (All-dedup_after (λ z. closer z y ≡ false) y ys a, dedup_after-IsSorted y ys s)
  ]

  count-dedup_after-le :
      (id : NodeId) (x : TraversalCandidate) (xs : List TraversalCandidate)
      → count_if (has_id id) (dedup_after x xs) ≤ count_if (has_id id) xs
  unfolding dedup_after
  count-dedup_after-le id x [] = omega arith
  count-dedup_after-le id x (y ∷ ys) = elim (Bool-cases (has_id x.contact.id y)) [
    | inl e ↦ let k = count-dedup_after-le id x ys in rw e (omega arith)
    | inr e ↦ let k = count-dedup_after-le id y ys in rw e (omega arith)
  ]

  -- Behind a candidate its identifier is not there again, and no other is there twice.
  dedup_after_unique :
      (x : TraversalCandidate) (xs : List TraversalCandidate)
      → IsPlaced x
      → All IsPlaced xs
      → All (λ z. closer z x ≡ false) xs
      → IsSorted closer xs
      → (count_if (has_id x.contact.id) (dedup_after x xs) ≡ 0)
        × ((id : NodeId) → count_if (has_id id) (dedup_after x xs) ≤ 1)
  unfolding dedup_after
  dedup_after_unique x [] px ps a s = (refl, λ id. omega arith)
  dedup_after_unique x (y ∷ ys) px (py, ps) (c, a) (b, s) =
      elim (Bool-cases (has_id x.contact.id y)) [
        | inl e ↦ rw e (dedup_after_unique x ys px ps a s)
        | inr e ↦
            let (own, all) = dedup_after_unique y ys py ps b s in
            let far = apart x y ys px py e c ps b in
            rw e (
              omega (arith, far, count-dedup_after-le x.contact.id y ys, ap bool_to_ℕ e),
              λ id. elim (Bool-cases (has_id id y)) [
                | inl z ↦
                    let same_node = (same_iff NodeId-discrete y.contact.id id).0 z in
                    let zero' =
                      subst (λ i. count_if (has_id i) (dedup_after y ys) ≡ 0) same_node own in
                    omega (arith, zero', bool_to_ℕ-le (has_id id y))
                | inr z ↦ omega (arith, all id, ap bool_to_ℕ z)
              ],
            )
      ]

  IsPlaced-All :
      (initial : List TraversalContact)
      → All (λ (c : TraversalContact). IsNodeId c.id) initial
      → All IsPlaced (map (new_candidate target) initial)
  IsPlaced-All [] vs = tt
  IsPlaced-All (c ∷ cs) (w, vs) = ((refl, w), IsPlaced-All cs vs)

  none_inflight :
      (xs : List TraversalContact)
      → All (λ c. is_inflight c ≡ false) (map (new_candidate target) xs)
  none_inflight [] = tt
  none_inflight (c ∷ cs) = (refl, none_inflight cs)

  -- The identifiers of the candidates are the ones seen.
  seen_count :
      (id : NodeId) (xs : List TraversalCandidate)
      → count_if (has_id id) xs ≤ 1
      → count_if (has_id id) xs
        ≤ bool_to_ℕ (any (λ x. is_id x id) (map (λ (c : TraversalCandidate). c.contact.id) xs))
  seen_count id [] h = omega arith
  seen_count id (x ∷ xs) h = ground (arith, seen_count id xs)

  placed_dist :
      (xs : List TraversalCandidate)
      → All IsPlaced xs
      → All (λ (c : TraversalCandidate). c.dist ≡ distance target c.contact.id) xs
  placed_dist [] ps = tt
  placed_dist (x ∷ xs) ((d, w), ps) = (d, placed_dist xs ps)

  count_zero :
      (p : TraversalCandidate → Bool) (xs : List TraversalCandidate)
      → All (λ c. p c ≡ false) xs
      → count_if p xs ≡ 0
  count_zero p [] ps = refl
  count_zero p (x ∷ xs) (e, ps) = omega (arith, ap bool_to_ℕ e, count_zero p xs ps)

  abbrev state_with : TraversalKind → ℕ → List TraversalCandidate → Traversal
  state_with kind fanout cs = record {
    target = target;
    search_kind = kind;
    phase2_fanout = fanout;
    candidates = cs;
    seen = map (λ (c : TraversalCandidate). c.contact.id) cs;
    running = [];
    last_lookup_response_at = none;
  }

  from_sorted :
      (kind : TraversalKind) (fanout : ℕ) (xs : List TraversalCandidate)
      → All IsPlaced xs
      → All (λ c. is_inflight c ≡ false) xs
      → IsSorted closer xs
      → IsTraversal (state_with kind fanout (dedup_ids xs))
  unfolding dedup_ids
  from_sorted kind fanout [] ps ns s = record {
    are_sorted = tt;
    have_distance = tt;
    are_seen = λ id. omega arith;
    few_inflight = omega arith;
    are_asked = λ id. omega arith;
  }
  from_sorted kind fanout (x ∷ xs) (p, ps) (n, ns) (a, s) =
      let (own, all) = dedup_after_unique x xs p ps a s in
      let ys = dedup_after x xs in
      let unique : (id : NodeId) → count_if (has_id id) (x ∷ ys) ≤ 1 = λ id.
        elim (Bool-cases (has_id id x)) [
          | inl z ↦
              let same_node = (same_iff NodeId-discrete x.contact.id id).0 z in
              let none_else = subst (λ i. count_if (has_id i) ys ≡ 0) same_node own in
              omega (arith, none_else, bool_to_ℕ-le (has_id id x))
          | inr z ↦ omega (arith, all id, ap bool_to_ℕ z)
        ] in
      let idle =
        count_zero is_inflight (x ∷ ys) (n, All-dedup_after (λ c. is_inflight c ≡ false) x xs ns) in
      record {
        are_sorted =
            (All-dedup_after (λ z. closer z x ≡ false) x xs a, dedup_after-IsSorted x xs s);
        have_distance = placed_dist (x ∷ ys) (p, All-dedup_after IsPlaced x xs ps);
        are_seen = λ id. seen_count id (x ∷ ys) (unique id);
        few_inflight = omega (arith, idle);
        are_asked = λ id. omega arith;
      }

  -- The walk starts in a sound state.
  pub new_traversal-IsTraversal :
      (kind : TraversalKind) (fanout : ℕ) (initial : List TraversalContact)
      → All (λ (c : TraversalContact). IsNodeId c.id) initial
      → IsTraversal (new_traversal target kind fanout initial)
  unfolding new_traversal dedup_ids
  new_traversal-IsTraversal kind fanout initial vs =
      let xs = map (new_candidate target) initial in
      let placed = All-sort_by IsPlaced closer xs (IsPlaced-All initial vs) in
      let sorted =
        sort_by-IsSorted closer (λ a b c. not_less_trans a.dist b.dist c.dist)
          (λ a b. less_asym a.dist b.dist) xs in
      let idle = All-sort_by (λ c. is_inflight c ≡ false) closer xs (none_inflight initial) in
      from_sorted kind fanout (sort_by closer xs) placed idle sorted
