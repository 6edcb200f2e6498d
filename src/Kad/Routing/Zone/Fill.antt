-- ===== src/Kad/Routing/Zone/Fill.antt =====
-- The split of a leaf of zone.rs: refilling a bucket with its own entries and dealing them out to
-- two empty leaves never fails on a well-formed bucket.
use p2p_overlord_agents.Base.{
  ℕ, suc, ◌+◌, ◌≡◌, sym, subst, ap, ap₂, ◌∙◌, inl, inr, Bool, true, false, not, none, [], ◌∷◌, ◌++◌,
  arith, leb, length, find_if, keep_if, count_if, bool_to_ℕ, Bool-cases, count_if-append,
  length-append, append_assoc, append-nil, find_if_zero, same_refl, remove_first-none, keep_if-true,
  keep_if-false, count_if-keep_if-le, length-keep_if-le,
}
use p2p_overlord_agents.Kad.NodeId.{NodeId-discrete, bit}
use p2p_overlord_agents.Kad.Routing.Contact.{Contact, subnet24, Subnet24-discrete, AddResult, ok}
use p2p_overlord_agents.Kad.Routing.Bin.{
  RoutingBin, has_id, in_subnet, others, subnet_exceeded, try_add,
}
use p2p_overlord_agents.Kad.Routing.Bin.Laws.{IsBin}
use p2p_overlord_agents.Kad.Routing.Zone.{
  RoutingZone, leaf, branch, refill, redistribute, split, add_to_leaf, add, child_zone_index,
  usize_max,
}

module _ (xs ys : RoutingBin) (c : Contact) (v : IsBin (xs ++ (c ∷ ys))) where
  fresh_id : count_if (has_id c.id) xs ≡ 0
  fresh_id = omega (
    arith,
    v.unique c.id,
    count_if-append (has_id c.id) xs (c ∷ ys),
    ap bool_to_ℕ (same_refl NodeId-discrete c.id),
  )

  fresh_find : find_if (has_id c.id) xs ≡ none
  fresh_find = find_if_zero (has_id c.id) xs fresh_id

  fresh_others : others c.id xs ≡ xs
  fresh_others = remove_first-none (has_id c.id) xs fresh_find

  fresh_subnet : subnet_exceeded xs c ≡ false
  unfolding subnet_exceeded
  fresh_subnet = ground (
    arith,
    v.spread (subnet24 c.ip),
    count_if-append (in_subnet (subnet24 c.ip)) xs (c ∷ ys),
    same_refl Subnet24-discrete (subnet24 c.ip),
    ap (λ l. count_if (in_subnet (subnet24 c.ip)) l) fresh_others,
  )

  fresh_room : leb 10 (length xs) ≡ false
  fresh_room = ground (arith, v.bounded, length-append xs (c ∷ ys))

  -- An entry of a well-formed bucket can be added behind the entries before it.
  pub try_add_fresh : try_add xs c ≡ (xs ++ (c ∷ []), ok true)
  unfolding try_add
  try_add_fresh = rw (fresh_subnet, fresh_find, fresh_room)

snoc_append : (xs ys : RoutingBin) (c : Contact) → (xs ++ (c ∷ [])) ++ ys ≡ xs ++ (c ∷ ys)
snoc_append xs ys c = append_assoc xs (c ∷ []) ys

refill_step :
    (xs ys bin : RoutingBin) (c : Contact) (b : Bool)
    → try_add xs c ≡ (bin, ok b)
    → refill xs (c ∷ ys) ≡ refill bin ys
unfolding refill
refill_step xs ys bin c b e = ground arith

-- Refilling a bucket with its own entries gives the bucket, in the same order.
pub refill_lem : (xs ys : RoutingBin) → IsBin (xs ++ ys) → refill xs ys ≡ (xs ++ ys, ok true)
refill_lem xs [] v = unfold refill in rw (append-nil xs)
refill_lem xs (c ∷ ys) v =
    refill_step xs ys _ c true (try_add_fresh xs ys c v)
    ∙ refill_lem (xs ++ (c ∷ [])) ys (subst IsBin (sym (snoc_append xs ys c)) v)
    ∙ ap (λ (l : RoutingBin). (l, ok true)) (snoc_append xs ys c)

pub keep_if-IsBin : (p : Contact → Bool) (bin : RoutingBin) → IsBin bin → IsBin (keep_if p bin)
keep_if-IsBin p bin v = record {
  unique = λ id. omega (arith, v.unique id, count_if-keep_if-le p (has_id id) bin);
  bounded = omega (arith, v.bounded, length-keep_if-le p bin);
  spread = λ s. omega (arith, v.spread s, count_if-keep_if-le p (in_subnet s) bin);
}

-- The test that sends an entry to the right child.
abbrev pub goes_right : ℕ → Contact → Bool
goes_right depth c = bit c.id depth

abbrev pub goes_left : ℕ → Contact → Bool
goes_left depth c = not (bit c.id depth)

pub add_to_leaf_lem :
    (add' : RoutingZone → Contact → ℕ → ℕ → RoutingZone × AddResult) (depth index : ℕ)
    (bin bin' : RoutingBin) (c : Contact) (t m : ℕ) (b : Bool)
    → try_add bin c ≡ (bin', ok b)
    → add_to_leaf add' depth index bin c t m ≡ (leaf depth index bin', ok b)
unfolding add_to_leaf
add_to_leaf_lem add' depth index bin bin' c t m b e = ground arith

add_fresh :
    (fuel depth index : ℕ) (xs ys : RoutingBin) (c : Contact) (t m : ℕ)
    → IsBin (xs ++ (c ∷ ys))
    → add (suc fuel) (leaf depth index xs) c t m ≡ (leaf depth index (xs ++ (c ∷ [])), ok true)
unfolding add
add_fresh fuel depth index xs ys c t m v =
    add_to_leaf_lem _ depth index xs _ c t m true (try_add_fresh xs ys c v)

module _ (add' : RoutingZone → Contact → ℕ → ℕ → RoutingZone × AddResult) (depth : ℕ)
    (left right zone : RoutingZone) (c : Contact) (cs : RoutingBin) (b : Bool) where
  redistribute_right :
      bit c.id depth ≡ true
      → add' right c 0 usize_max ≡ (zone, ok b)
      → redistribute add' depth left right (c ∷ cs) ≡ redistribute add' depth left zone cs
  unfolding redistribute
  redistribute_right h e = ground arith

  redistribute_left :
      bit c.id depth ≡ false
      → add' left c 0 usize_max ≡ (zone, ok b)
      → redistribute add' depth left right (c ∷ cs) ≡ redistribute add' depth zone right cs
  unfolding redistribute
  redistribute_left h e = ground arith

abbrev pub dealt : ℕ → ℕ → ℕ → ℕ → RoutingBin → RoutingBin → RoutingZone × RoutingZone × AddResult
dealt dl il dr ir xs ys = (leaf dl il xs, leaf dr ir ys, ok true)

-- Dealing out the entries of a well-formed bucket puts each behind those of its side.
pub redistribute_lem :
    (fuel depth dl il dr ir : ℕ) (xs ys cs : RoutingBin)
    → IsBin (xs ++ keep_if (goes_left depth) cs)
    → IsBin (ys ++ keep_if (goes_right depth) cs)
    → redistribute (add (suc fuel)) depth (leaf dl il xs) (leaf dr ir ys) cs
      ≡ dealt dl il dr ir (xs ++ keep_if (goes_left depth) cs) (ys ++ keep_if (goes_right depth) cs)
redistribute_lem fuel depth dl il dr ir xs ys [] v w =
    unfold redistribute in rw (append-nil xs, append-nil ys)
redistribute_lem fuel depth dl il dr ir xs ys (c ∷ cs) v w = elim (Bool-cases (bit c.id depth)) [
  | inl h ↦
      let l : keep_if (goes_left depth) (c ∷ cs) ≡ keep_if (goes_left depth) cs =
        keep_if-false (goes_left depth) c cs (ap not h) in
      let r : keep_if (goes_right depth) (c ∷ cs) ≡ c ∷ keep_if (goes_right depth) cs =
        keep_if-true (goes_right depth) c cs h in
      let w' : IsBin (ys ++ (c ∷ keep_if (goes_right depth) cs)) =
        subst (λ k. IsBin (ys ++ k)) r w in
      redistribute_right (add (suc fuel)) depth _ _ _ c cs true h
        (add_fresh fuel dr ir ys _ c _ _ w')
      ∙ redistribute_lem fuel depth dl il dr ir xs (ys ++ (c ∷ [])) cs
          (subst (λ k. IsBin (xs ++ k)) l v) (subst IsBin (sym (snoc_append ys _ c)) w')
      ∙ ap₂ (dealt dl il dr ir) (ap (◌++◌ xs) (sym l)) (snoc_append ys _ c ∙ ap (◌++◌ ys) (sym r))
  | inr h ↦
      let l : keep_if (goes_left depth) (c ∷ cs) ≡ c ∷ keep_if (goes_left depth) cs =
        keep_if-true (goes_left depth) c cs (ap not h) in
      let r : keep_if (goes_right depth) (c ∷ cs) ≡ keep_if (goes_right depth) cs =
        keep_if-false (goes_right depth) c cs h in
      let v' : IsBin (xs ++ (c ∷ keep_if (goes_left depth) cs)) =
        subst (λ k. IsBin (xs ++ k)) l v in
      redistribute_left (add (suc fuel)) depth _ _ _ c cs true h
        (add_fresh fuel dl il xs _ c _ _ v')
      ∙ redistribute_lem fuel depth dl il dr ir (xs ++ (c ∷ [])) ys cs
          (subst IsBin (sym (snoc_append xs _ c)) v') (subst (λ k. IsBin (ys ++ k)) r w)
      ∙ ap₂ (dealt dl il dr ir) (snoc_append xs _ c ∙ ap (◌++◌ xs) (sym l)) (ap (◌++◌ ys) (sym r))
]

abbrev pub split_result : ℕ → ℕ → RoutingBin → RoutingZone
split_result depth index bin =
    branch depth index
      (leaf (depth + 1) (child_zone_index index false) (keep_if (goes_left depth) bin))
      (leaf (depth + 1) (child_zone_index index true) (keep_if (goes_right depth) bin))

split_steps :
    (add' : RoutingZone → Contact → ℕ → ℕ → RoutingZone × AddResult) (depth index : ℕ)
    (bin : RoutingBin) (l r : RoutingZone)
    → refill [] bin ≡ (bin, ok true)
    → redistribute add' depth
        (leaf (depth + 1) (child_zone_index index false) [])
        (leaf (depth + 1) (child_zone_index index true) [])
        bin
      ≡ (l, r, ok true)
    → split add' depth index bin ≡ (branch depth index l r, ok true)
unfolding split
split_steps add' depth index bin l r e f = ground arith

-- The split of a well-formed leaf succeeds, and each entry is in the child that its bit names.
pub split_lem :
    (fuel depth index : ℕ) (bin : RoutingBin)
    → IsBin bin
    → split (add (suc fuel)) depth index bin ≡ (split_result depth index bin, ok true)
split_lem fuel depth index bin v =
    split_steps (add (suc fuel)) depth index bin _ _ (refill_lem [] bin v) (
      redistribute_lem fuel depth _ _ _ _ [] [] bin (keep_if-IsBin (goes_left depth) bin v)
        (keep_if-IsBin (goes_right depth) bin v))
