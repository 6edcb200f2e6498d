-- ===== src/Kad/Routing/Bin/Laws.antt =====
-- What the operations of bin.rs do to a bucket, and the invariant that they keep.
use p2p_overlord_agents.Base.{
  ◌+◌, ◌≤◌, ◌<◌, ◌≡◌, refl, ◌⊎◌, inl, inr, Bool, true, false, not, none, some, [], ◌∷◌, ◌++◌, arith,
  ap, sym, subst, ◌&&◌, SameItems, leb, same, length, find_if, count_if, bool_to_ℕ, Bool-cases,
  Option-cases, count_if-snoc, length-snoc, length-remove_first, find_if-none, find_if-some,
  find_if_zero, count_if-remove_first, remove_first-none,
}
use p2p_overlord_agents.Kad.NodeId.{NodeId, NodeId-discrete}
use p2p_overlord_agents.Kad.Routing.Contact.{
  Contact, Ipv4Addr, Subnet24, Subnet24-discrete, subnet24, is_lan, table_full,
  subnet_limit_exceeded, bin_local, AddResult, ok, err,
}
use p2p_overlord_agents.Kad.Routing.Bin.{
  RoutingBin, has_id, in_subnet, others, subnet_exceeded, refresh_entry, try_add, remove, refresh,
}

pub record IsBin (bin : RoutingBin) : Type 0 where
  pub unique : (id : NodeId) → count_if (has_id id) bin ≤ 1
  pub bounded : length bin ≤ 10
  pub spread : (s : Subnet24) → count_if (in_subnet s) bin ≤ 2

-- The three outcomes of `try_add`: refused with the bucket as it was, a new entry at the back, or
-- the entry with the same identifier refreshed and moved to the back.
pub data TryAdd (bin : RoutingBin) (c : Contact) (r : RoutingBin × AddResult) : Type 0 where
  crowded :
      subnet_exceeded bin c ≡ true
      → r ≡ (bin, err (subnet_limit_exceeded 24 bin_local))
      → TryAdd bin c r
  full :
      find_if (has_id c.id) bin ≡ none
      → 10 ≤ length bin
      → subnet_exceeded bin c ≡ false
      → r ≡ (bin, err (table_full 10))
      → TryAdd bin c r
  inserted :
      find_if (has_id c.id) bin ≡ none
      → length bin < 10
      → subnet_exceeded bin c ≡ false
      → r ≡ (bin ++ (c ∷ []), ok true)
      → TryAdd bin c r
  refreshed :
      (old : Contact)
      → find_if (has_id c.id) bin ≡ some old
      → subnet_exceeded bin c ≡ false
      → r ≡ (others c.id bin ++ (refresh_entry old c ∷ []), ok false)
      → TryAdd bin c r

pub try_add-TryAdd : (bin : RoutingBin) (c : Contact) → TryAdd bin c (try_add bin c)
try_add-TryAdd bin c = elim (Bool-cases (subnet_exceeded bin c)) [
  | inl e ↦ crowded e (unfold try_add in rw e)
  | inr e ↦ elim (Option-cases (find_if (has_id c.id) bin)) [
    | inr (old, f) ↦ refreshed old f e (unfold try_add in rw (e, f))
    | inl f ↦ elim (Bool-cases (leb 10 (length bin))) [
      | inl l ↦ full f (ground arith) e (unfold try_add in rw (e, f, l))
      | inr l ↦ inserted f (ground arith) e (unfold try_add in rw (e, f, l))
    ]
  ]
]

-- The refreshed entry keeps its identifier.
pub refresh_entry_id : (old c : Contact) → (refresh_entry old c).id ≡ old.id
unfolding refresh_entry
refresh_entry_id old c = refl

pub refresh_entry_ip : (old c : Contact) → (refresh_entry old c).ip ≡ c.ip
unfolding refresh_entry
refresh_entry_ip old c = refl

-- An entry that passes the subnet test joins at most one other entry of its subnet.
spread_with :
    (bin : RoutingBin) (c : Contact) (s : Subnet24)
    → subnet_exceeded bin c ≡ false
    → count_if (in_subnet s) (others c.id bin) ≤ 2
    → count_if (in_subnet s) (others c.id bin) + bool_to_ℕ (in_subnet s c) ≤ 2
unfolding subnet_exceeded
spread_with bin c s x h =
    ground (arith, ap (λ t. count_if (in_subnet t) (others c.id bin)) {x = subnet24 c.ip} {y = s})

-- Refreshing an entry puts the new one in the place of the old.
pub count_if-refreshed :
    (bin : RoutingBin) (c old : Contact)
    → find_if (has_id c.id) bin ≡ some old
    → (p : Contact → Bool)
    → count_if p (others c.id bin ++ (refresh_entry old c ∷ [])) + bool_to_ℕ (p old)
      ≡ count_if p bin + bool_to_ℕ (p (refresh_entry old c))
count_if-refreshed bin c old f p = omega (
  arith,
  count_if-snoc p (others c.id bin) (refresh_entry old c),
  count_if-remove_first (has_id c.id) p bin f,
)

module _ (bin : RoutingBin) (c : Contact) (v : IsBin bin) where
  insert_unique :
      find_if (has_id c.id) bin ≡ none → (id : NodeId) → count_if (has_id id) (bin ++ (c ∷ [])) ≤ 1
  insert_unique f id = rw (count_if-snoc (has_id id) bin c) (
      ground (
        arith,
        v.unique id,
        find_if-none (has_id c.id) bin f,
        ap (λ i. count_if (has_id i) bin) {x = c.id} {y = id},
      ))

  insert-spread :
      find_if (has_id c.id) bin ≡ none
      → subnet_exceeded bin c ≡ false
      → (s : Subnet24) → count_if (in_subnet s) (bin ++ (c ∷ [])) ≤ 2
  insert-spread f x s = rw (count_if-snoc (in_subnet s) bin c) (
      subst (λ l. count_if (in_subnet s) l + bool_to_ℕ (in_subnet s c) ≤ 2) rest
        (spread_with bin c s x (subst (λ l. count_if (in_subnet s) l ≤ 2) (sym rest) (v.spread s))))
    where
      rest : others c.id bin ≡ bin
      rest = remove_first-none (has_id c.id) bin f

  inserted-IsBin :
      find_if (has_id c.id) bin ≡ none
      → length bin < 10
      → subnet_exceeded bin c ≡ false
      → IsBin (bin ++ (c ∷ []))
  inserted-IsBin f l x = record {
    unique = insert_unique f;
    bounded = omega (arith, length-snoc bin c);
    spread = insert-spread f x;
  }

  module _ (old : Contact) (f : find_if (has_id c.id) bin ≡ some old) where
    refreshed_unique :
        (id : NodeId) → count_if (has_id id) (others c.id bin ++ (refresh_entry old c ∷ [])) ≤ 1
    refreshed_unique id = omega (
      arith,
      count_if-refreshed bin c old f (has_id id),
      v.unique id,
      ap (λ i. bool_to_ℕ (same NodeId-discrete i id)) (refresh_entry_id old c),
    )

    refreshed-spread :
        subnet_exceeded bin c ≡ false
        → (s : Subnet24)
        → count_if (in_subnet s) (others c.id bin ++ (refresh_entry old c ∷ [])) ≤ 2
    refreshed-spread x s =
        rw (count_if-snoc (in_subnet s) (others c.id bin) (refresh_entry old c)) (
          subst
            (λ (i : Ipv4Addr).
              count_if (in_subnet s) (others c.id bin)
                + bool_to_ℕ (not (is_lan i) && same Subnet24-discrete (subnet24 i) s)
              ≤ 2)
            (sym (refresh_entry_ip old c))
            (spread_with bin c s x
              (omega (arith, v.spread s, count_if-remove_first (has_id c.id) (in_subnet s) bin f))))

    refreshed-IsBin :
        subnet_exceeded bin c ≡ false → IsBin (others c.id bin ++ (refresh_entry old c ∷ []))
    refreshed-IsBin x = record {
      unique = refreshed_unique;
      bounded = omega (
        arith,
        length-snoc (others c.id bin) (refresh_entry old c),
        length-remove_first (has_id c.id) bin f,
        v.bounded,
      );
      spread = refreshed-spread x;
    }

-- `try_add` keeps a bucket's identifiers distinct, its length within K, and at most two of its
-- entries in one public /24, on every branch.
pub try_add-IsBin : (bin : RoutingBin) (c : Contact) → IsBin bin → IsBin (try_add bin c).0
try_add-IsBin bin c v = elim (try_add-TryAdd bin c) [
  | crowded _ e ↦ subst (λ r. IsBin r.0) (sym e) v
  | full _ _ _ e ↦ subst (λ r. IsBin r.0) (sym e) v
  | inserted f l x e ↦ subst (λ r. IsBin r.0) (sym e) (inserted-IsBin bin c v f l x)
  | refreshed old f x e ↦ subst (λ r. IsBin r.0) (sym e) (refreshed-IsBin bin c v old f x)
]

others-IsBin : (id : NodeId) (bin : RoutingBin) → IsBin bin → IsBin (others id bin)
others-IsBin id bin v = elim (Option-cases (find_if (has_id id) bin)) [
  | inl e ↦ subst IsBin (sym (remove_first-none (has_id id) bin e)) v
  | inr (a, e) ↦ record {
    unique = λ i. omega (arith, v.unique i, count_if-remove_first (has_id id) (has_id i) bin e);
    bounded = omega (arith, v.bounded, length-remove_first (has_id id) bin e);
    spread = λ s. omega (arith, v.spread s, count_if-remove_first (has_id id) (in_subnet s) bin e);
  }
]

pub remove-IsBin : (id : NodeId) (bin : RoutingBin) → IsBin bin → IsBin (remove id bin).0
unfolding remove
remove-IsBin id bin v = others-IsBin id bin v

-- After a removal the identifier is gone, and the entry that was removed is the one it had.
pub remove_lem :
    (id : NodeId) (bin : RoutingBin)
    → IsBin bin
    → (find_if (has_id id) (remove id bin).0 ≡ none) × ((remove id bin).1 ≡ find_if (has_id id) bin)
unfolding remove
remove_lem id bin v = elim (Option-cases (find_if (has_id id) bin)) [
  | inl e ↦ (
    subst (λ l. find_if (has_id id) l ≡ none) (sym (remove_first-none (has_id id) bin e)) e,
    refl,
  )
  | inr (a, e) ↦ (
    find_if_zero (has_id id) (others id bin) (
        ground (
          arith,
          v.unique id,
          find_if-some (has_id id) bin e,
          count_if-remove_first (has_id id) (has_id id) bin e,
        )),
    refl,
  )
]

refresh_cases :
    (id : NodeId) (bin : RoutingBin)
    → (refresh id bin ≡ bin)
      ⊎ ((a : Contact) × (find_if (has_id id) bin ≡ some a)
          × (refresh id bin ≡ others id bin ++ (a ∷ [])))
unfolding refresh
refresh_cases id bin = elim (Option-cases (find_if (has_id id) bin)) [
  | inl e ↦ inl (rw (e, refresh))
  | inr (a, e) ↦ inr (a, e, rw (e, refresh))
]

-- `refresh` keeps the entries, each as often.
pub refresh-SameItems : (id : NodeId) (bin : RoutingBin) → SameItems (refresh id bin) bin
refresh-SameItems id bin p = elim (refresh_cases id bin) [
  | inl r ↦ rw r
  | inr (a, e, r) ↦
      rw r (
        omega (arith, count_if-snoc p (others id bin) a, count_if-remove_first (has_id id) p bin e))
]
