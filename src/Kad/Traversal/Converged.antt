-- ===== src/Kad/Traversal/Converged.antt =====
-- crates/overlord-kad-dht/src/traversal.rs: when a node lookup may end early.
use p2p_overlord_agents.Base.{
  ◌≡◌, subst, inl, inr, Bool, true, false, some, List, [], ◌∷◌, length, take, keep_if, any, last?,
  arith, All, Bool-cases, Option-cases, some_equal,
}
use p2p_overlord_agents.Base.Sort.{IsSorted}
use p2p_overlord_agents.Kad.Traversal.{
  TraversalCandidate, is_responded, is_resolved, closer, closest_k,
}
use p2p_overlord_agents.Base.Sort.{take-IsSorted}
use p2p_overlord_agents.Base.Every.{All-keep_if}
use p2p_overlord_agents.Base.Member.{In, length-take-le}
use p2p_overlord_agents.Kad.NodeId.Order.{not_less_trans, less_asym}
use p2p_overlord_agents.Kad.Traversal.Round.{find_node_lookup_converged, may_displace}

keep_if-IsSorted :
    (p : TraversalCandidate → Bool) (xs : List TraversalCandidate)
    → IsSorted closer xs
    → IsSorted closer (keep_if p xs)
keep_if-IsSorted p [] s = tt
keep_if-IsSorted p (x ∷ xs) (a, s) = elim (Bool-cases (p x)) [
  | inl e ↦ rw e (All-keep_if (λ y. closer y x ≡ false) p xs a, keep_if-IsSorted p xs s)
  | inr e ↦ rw e (keep_if-IsSorted p xs s)
]

not_closer_self : (c : TraversalCandidate) → closer c c ≡ false
not_closer_self c = elim (Bool-cases (closer c c)) [ inl e ↦ less_asym c.dist c.dist e | inr e ↦ e ]

last_of :
    (P : TraversalCandidate → Type 0) (xs : List TraversalCandidate) (c : TraversalCandidate)
    → last? xs ≡ some c
    → All P xs
    → P c
last_of P [] c e ps = ground (arith, e)
last_of P (x ∷ []) c e (p, ps) = subst P (some_equal e) p
last_of P (x ∷ y ∷ ys) c e (p, ps) = last_of P (y ∷ ys) c e ps

-- None of a sorted list is farther than the last.
last_farthest :
    (xs : List TraversalCandidate) (c : TraversalCandidate)
    → last? xs ≡ some c
    → IsSorted closer xs
    → All (λ d. closer c d ≡ false) xs
last_farthest [] c e s = tt
last_farthest (x ∷ []) c e s =
    (subst (λ d. closer d x ≡ false) (some_equal e) (not_closer_self x), tt)
last_farthest (x ∷ y ∷ ys) c e (a, s) =
    (last_of (λ d. closer d x ≡ false) (y ∷ ys) c e a, last_farthest (y ∷ ys) c e s)

any-In :
    (p : TraversalCandidate → Bool) (c : TraversalCandidate) (xs : List TraversalCandidate)
    → any p xs ≡ false
    → In c xs
    → p c ≡ false
any-In p c [] e h = absurd h
any-In p c (x ∷ xs) e (inl z) = subst (λ y. p y ≡ false) z (ground (arith, e))
any-In p c (x ∷ xs) e (inr h) = any-In p c xs (ground (arith, e)) h

-- Closer than the threshold, which is closer than the other.
closer_by :
    (d t c : TraversalCandidate) → closer t d ≡ false → closer t c ≡ true → closer d c ≡ true
closer_by d t c h g = elim (Bool-cases (closer d c)) [
  | inl e ↦ e
  | inr e ↦ ground (arith, g, not_less_trans c.dist d.dist t.dist e h)
]

All-closer :
    (t c : TraversalCandidate) (xs : List TraversalCandidate)
    → closer t c ≡ true
    → All (λ d. closer t d ≡ false) xs
    → All (λ d. closer d c ≡ true) xs
All-closer t c [] g hs = tt
All-closer t c (x ∷ xs) g (h, hs) = (closer_by x t c h g, All-closer t c xs g hs)

-- Where a node lookup ends early on sorted candidates, ten of them responded, and every candidate
-- that is pending or inflight is farther from the target than each of the ten closest that responded:
-- no answer still to come from one of them can change these ten.
pub find_node_lookup_converged_lem :
    (cs : List TraversalCandidate)
    → IsSorted closer cs
    → find_node_lookup_converged cs ≡ true
    → (length (take closest_k (keep_if is_responded cs)) ≡ closest_k)
      × ((c : TraversalCandidate)
          → In c cs
          → is_resolved c ≡ false
          → All (λ d. closer d c ≡ true) (take closest_k (keep_if is_responded cs)))
unfolding find_node_lookup_converged
find_node_lookup_converged_lem cs s e =
    let ds = take closest_k (keep_if is_responded cs) in
    let (sorted, _) =
      take-IsSorted closer closest_k (keep_if is_responded cs)
        (keep_if-IsSorted is_responded cs s) in
    elim (Option-cases (last? ds)) [
      | inl n ↦ ground (arith, rw (n, find_node_lookup_converged) at e)
      | inr (t, n) ↦
          let e' = rw (n, find_node_lookup_converged) at e in
          let far = last_farthest ds t n sorted in
          (
            ground (arith, e', length-take-le closest_k (keep_if is_responded cs)),
            λ c i u.
                let k = any-In (may_displace t.dist) c cs (ground (arith, e')) i in
                All-closer t c ds (ground (arith, k, u)) far,
          )
    ]
