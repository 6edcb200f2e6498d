-- ===== src/Kad/Traversal/Relabel.antt =====
-- crates/overlord-kad-dht/src/traversal.rs: a change of states keeps the order of the candidates.
use p2p_overlord_agents.Base.{
  ℕ, zero, suc, ◌≡◌, refl, ap, subst, inl, inr, false, List, [], ◌∷◌, length, count_if, arith, All,
  bool_to_ℕ, Bool-cases,
}
use p2p_overlord_agents.Base.Sort.{IsSorted}
use p2p_overlord_agents.Kad.NodeId.{NodeId, cmp, is_less}
use p2p_overlord_agents.Kad.Traversal.{
  CandidateState, TraversalContact, TraversalCandidate, is_pending, is_id, has_id, closer,
  launch_first, set_state,
}

-- The same contacts at the same distances; the states may differ.
abbrev pub Relabelled : List TraversalCandidate → List TraversalCandidate → Type 0
Relabelled [] [] = Unit {0}
Relabelled [] (y ∷ ys) = ⊥
Relabelled (x ∷ xs) [] = ⊥
Relabelled (x ∷ xs) (y ∷ ys) = (x.contact ≡ y.contact) × (x.dist ≡ y.dist) × Relabelled xs ys

pub Relabelled-refl : (xs : List TraversalCandidate) → Relabelled xs xs
Relabelled-refl [] = tt
Relabelled-refl (x ∷ xs) = (refl, refl, Relabelled-refl xs)

pub Relabelled-set_state :
    (id : NodeId) (st : CandidateState) (xs : List TraversalCandidate)
    → Relabelled xs (set_state id st xs)
unfolding set_state
Relabelled-set_state id st [] = tt
Relabelled-set_state id st (x ∷ xs) = elim (Bool-cases (has_id id x)) [
  | inl e ↦ rw e (refl, refl, Relabelled-refl xs)
  | inr e ↦ rw e (refl, refl, Relabelled-set_state id st xs)
]

pub Relabelled-launch_first :
    (n : ℕ) (xs : List TraversalCandidate) → Relabelled xs (launch_first n xs).0
unfolding launch_first
Relabelled-launch_first n [] = tt
Relabelled-launch_first zero (x ∷ xs) = (refl, refl, Relabelled-refl xs)
Relabelled-launch_first (suc n) (x ∷ xs) = elim (Bool-cases (is_pending x)) [
  | inl e ↦ rw e (refl, refl, Relabelled-launch_first n xs)
  | inr e ↦ rw e (refl, refl, Relabelled-launch_first (suc n) xs)
]

-- What depends on the contact and the distance only, is kept.
pub Relabelled-All :
    (P : TraversalContact → NodeId → Type 0) (xs ys : List TraversalCandidate)
    → Relabelled xs ys
    → All (λ c. P c.contact c.dist) xs
    → All (λ c. P c.contact c.dist) ys
Relabelled-All P [] [] r h = tt
Relabelled-All P [] (y ∷ ys) r h = absurd r
Relabelled-All P (x ∷ xs) [] r h = absurd r
Relabelled-All P (x ∷ xs) (y ∷ ys) (e, d, r) (p, ps) =
    (subst (P y.contact) d (subst (λ c. P c x.dist) e p), Relabelled-All P xs ys r ps)

pub Relabelled-IsSorted :
    (xs ys : List TraversalCandidate) → Relabelled xs ys → IsSorted closer xs → IsSorted closer ys
Relabelled-IsSorted [] [] r h = tt
Relabelled-IsSorted [] (y ∷ ys) r h = absurd r
Relabelled-IsSorted (x ∷ xs) [] r h = absurd r
Relabelled-IsSorted (x ∷ xs) (y ∷ ys) (e, d, r) (a, v) = (
  Relabelled-All (λ c z. is_less (cmp z y.dist) ≡ false) xs ys r
      (subst (λ b. All (λ (z : TraversalCandidate). is_less (cmp z.dist b) ≡ false) xs) d a),
  Relabelled-IsSorted xs ys r v,
)

pub Relabelled-count :
    (id : NodeId) (xs ys : List TraversalCandidate)
    → Relabelled xs ys
    → count_if (has_id id) ys ≡ count_if (has_id id) xs
Relabelled-count id [] [] r = refl
Relabelled-count id [] (y ∷ ys) r = absurd r
Relabelled-count id (x ∷ xs) [] r = absurd r
Relabelled-count id (x ∷ xs) (y ∷ ys) (e, d, r) =
    let b = ap (λ (c : TraversalContact). bool_to_ℕ (is_id c.id id)) e in
    omega (arith, b, Relabelled-count id xs ys r)

pub Relabelled-length : (xs ys : List TraversalCandidate) → Relabelled xs ys → length ys ≡ length xs
Relabelled-length [] [] r = refl
Relabelled-length [] (y ∷ ys) r = absurd r
Relabelled-length (x ∷ xs) [] r = absurd r
Relabelled-length (x ∷ xs) (y ∷ ys) (e, d, r) = omega (arith, Relabelled-length xs ys r)
