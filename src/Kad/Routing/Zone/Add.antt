-- ===== src/Kad/Routing/Zone/Add.antt =====
-- `RoutingZone::add`: what it does to the entries of the trie, and that it ends within the fuel.
use p2p_overlord_agents.Base.{
  ℕ, zero, suc, ◌+◌, ◌-◌, ◌*◌, ◌≤◌, ◌<◌, ◌≡◌, refl, sym, subst, ap, ◌∙◌, inl, inr, Bool, true,
  false, not, none, some, List, ◌++◌, arith, find_if, keep_if, count_if, bool_to_ℕ, Bool-cases,
  Option-cases, count_if-append, find_if-append_none, find_if-append_left, SameItems, count_if-snoc,
  count_if-keep_if_split, count_if-keep_if_none, count_if-keep_if_all, find_if-keep_if,
}
use p2p_overlord_agents.Kad.NodeId.{NodeId, bit}
use p2p_overlord_agents.Kad.Routing.Contact.{
  Contact, RoutingError, table_full, split_denied, SplitDeniedReason, AddResult, ok, err,
}
use p2p_overlord_agents.Kad.Routing.Bin.{RoutingBin, has_id, try_add, refresh_entry}
use p2p_overlord_agents.Kad.Routing.Bin.Laws.{
  IsBin, crowded, full, inserted, refreshed, try_add-TryAdd, try_add-IsBin, count_if-refreshed,
  refresh_entry_id,
}
use p2p_overlord_agents.Kad.Routing.Zone.{
  RoutingZone, leaf, branch, Adder, can_split, split, split_and_retry, add_to_leaf, add,
  is_table_full,
}
use p2p_overlord_agents.Kad.Routing.Zone.Fill.{
  goes_left, goes_right, keep_if-IsBin, split_lem, split_result,
}
use p2p_overlord_agents.Kad.Routing.Zone.Shape.{
  contacts, IsZone, absent_left, absent_right, has_id_right, has_id_left,
}

-- What adding `c` to the entries `cs` may do: refuse and keep them all, insert `c` where its
-- identifier was absent, or refresh the one entry with its identifier.
pub data AddSpec (cs : List Contact) (c : Contact) (cs' : List Contact) (r : AddResult)
    : Type 0 where
  refuses : (e : RoutingError) → r ≡ err e → SameItems cs' cs → AddSpec cs c cs' r
  inserts :
      r ≡ ok true
      → find_if (has_id c.id) cs ≡ none
      → ((p : Contact → Bool) → count_if p cs' ≡ count_if p cs + bool_to_ℕ (p c))
      → AddSpec cs c cs' r
  updates :
      (old : Contact)
      → r ≡ ok false
      → find_if (has_id c.id) cs ≡ some old
      → ((p : Contact → Bool)
          → count_if p cs' + bool_to_ℕ (p old)
            ≡ count_if p cs + bool_to_ℕ (p (refresh_entry old c)))
      → AddSpec cs c cs' r

try_add-AddSpec :
    (bin : RoutingBin) (c : Contact) → AddSpec bin c (try_add bin c).0 (try_add bin c).1
try_add-AddSpec bin c = elim (try_add-TryAdd bin c) [
  | crowded _ e ↦ subst P (sym e) (refuses _ refl (λ p. refl))
  | full _ _ _ e ↦ subst P (sym e) (refuses _ refl (λ p. refl))
  | inserted f _ _ e ↦ subst P (sym e) (inserts refl f (λ p. count_if-snoc p bin c))
  | refreshed old f _ e ↦ subst P (sym e) (updates old refl f (count_if-refreshed bin c old f))
]
  where
    P : RoutingBin × AddResult → Type 0
    P r = AddSpec bin c r.0 r.1

module _ (ls rs : List Contact) (c : Contact) where
  -- Adding among the entries of one side, where the other side does not have the identifier.
  lift_right :
      (rs' : List Contact) (r : AddResult)
      → count_if (has_id c.id) ls ≡ 0
      → AddSpec rs c rs' r
      → AddSpec (ls ++ rs) c (ls ++ rs') r
  lift_right rs' r z (refuses e q s) =
      refuses e q (λ p. omega (arith, count_if-append p ls rs, count_if-append p ls rs', s p))
  lift_right rs' r z (inserts q f s) =
      inserts q (find_if-append_none (has_id c.id) ls rs z ∙ f)
        (λ p. omega (arith, count_if-append p ls rs, count_if-append p ls rs', s p))
  lift_right rs' r z (updates old q f s) =
      updates old q (find_if-append_none (has_id c.id) ls rs z ∙ f)
        (λ p. omega (arith, count_if-append p ls rs, count_if-append p ls rs', s p))

  lift_left :
      (ls' : List Contact) (r : AddResult)
      → count_if (has_id c.id) rs ≡ 0
      → AddSpec ls c ls' r
      → AddSpec (ls ++ rs) c (ls' ++ rs) r
  lift_left ls' r z (refuses e q s) =
      refuses e q (λ p. omega (arith, count_if-append p ls rs, count_if-append p ls' rs, s p))
  lift_left ls' r z (inserts q f s) =
      inserts q (find_if-append_left (has_id c.id) ls rs z ∙ f)
        (λ p. omega (arith, count_if-append p ls rs, count_if-append p ls' rs, s p))
  lift_left ls' r z (updates old q f s) =
      updates old q (find_if-append_left (has_id c.id) ls rs z ∙ f)
        (λ p. omega (arith, count_if-append p ls rs, count_if-append p ls' rs, s p))

-- The entries may be regrouped first.
regroup :
    (cs ds : List Contact) (c : Contact) (cs' : List Contact) (r : AddResult)
    → SameItems ds cs
    → find_if (has_id c.id) ds ≡ find_if (has_id c.id) cs
    → AddSpec ds c cs' r
    → AddSpec cs c cs' r
regroup cs ds c cs' r same_items g (refuses e q s) = refuses e q (λ p. s p ∙ same_items p)
regroup cs ds c cs' r same_items g (inserts q f s) =
    inserts q (sym g ∙ f) (λ p. omega (arith, s p, same_items p))
regroup cs ds c cs' r same_items g (updates old q f s) =
    updates old q (sym g ∙ f) (λ p. omega (arith, s p, same_items p))

-- An addition on one side brings no entry of the other side there.
keeps_side :
    (q : NodeId → Bool) (cs : List Contact) (c : Contact) (cs' : List Contact) (r : AddResult)
    → q c.id ≡ false
    → count_if (λ x. q x.id) cs ≡ 0
    → AddSpec cs c cs' r
    → count_if (λ x. q x.id) cs' ≡ 0
keeps_side q cs c cs' r h z (refuses e _ s) = s _ ∙ z
keeps_side q cs c cs' r h z (inserts _ _ s) = omega (arith, s (λ x. q x.id), ap bool_to_ℕ h)
keeps_side q cs c cs' r h z (updates old _ _ s) =
    omega (arith, s (λ x. q x.id), ap (λ i. bool_to_ℕ (q i)) (refresh_entry_id old c))

abbrev AddGood : ℕ → List Contact → Contact → RoutingZone × AddResult → Type 0
AddGood d cs c res = IsZone d res.0 × AddSpec cs c (contacts res.0) res.1

-- The fuel that a zone at depth `d` needs.
abbrev pub need : ℕ → RoutingZone → ℕ
need d (leaf depth index bin) = 2 * (128 - d)
need d (branch depth index left right) = 2 * (128 - d) - 1

module _ (fuel depth index : ℕ) (left right : RoutingZone) (c : Contact) (t m : ℕ) where
  add_right :
      bit c.id depth ≡ true
      → add (suc fuel) (branch depth index left right) c t m
        ≡ (branch depth index left (add fuel right c t m).0, (add fuel right c t m).1)
  unfolding add
  add_right h = rw (h, add)

  add_left :
      bit c.id depth ≡ false
      → add (suc fuel) (branch depth index left right) c t m
        ≡ (branch depth index (add fuel left c t m).0 right, (add fuel left c t m).1)
  unfolding add
  add_left h = rw (h, add)

module _ (add' : Adder) (depth index : ℕ) (bin : RoutingBin) (c : Contact) (t m : ℕ) where
  leaf_plain :
      is_table_full (try_add bin c).1 ≡ false
      → add_to_leaf add' depth index bin c t m
        ≡ (leaf depth index (try_add bin c).0, (try_add bin c).1)
  unfolding add_to_leaf
  leaf_plain h = ground arith

  leaf_denied :
      (reason : SplitDeniedReason)
      → try_add bin c ≡ (bin, err (table_full 10))
      → can_split depth index t m ≡ some reason
      → add_to_leaf add' depth index bin c t m ≡ (leaf depth index bin, err (split_denied reason))
  unfolding add_to_leaf
  leaf_denied reason e s = ground arith

  leaf_split :
      (zone : RoutingZone)
      → try_add bin c ≡ (bin, err (table_full 10))
      → can_split depth index t m ≡ none
      → split add' depth index bin ≡ (zone, ok true)
      → add_to_leaf add' depth index bin c t m ≡ add' zone c t m
  unfolding add_to_leaf split_and_retry
  leaf_split zone e s f = ground arith

can_split_depth : (depth index t m : ℕ) → can_split depth index t m ≡ none → depth < 127
unfolding can_split
can_split_depth depth index t m h = ground arith

-- The entries of a split leaf are those of the leaf.
split_contacts :
    (d index : ℕ) (bin : RoutingBin) → SameItems (contacts (split_result d index bin)) bin
split_contacts d index bin p = omega (
  arith,
  count_if-append p (keep_if (goes_left d) bin) (keep_if (goes_right d) bin),
  count_if-keep_if_split (goes_right d) p bin,
)

split_find :
    (d index : ℕ) (bin : RoutingBin) (id : NodeId)
    → find_if (has_id id) (contacts (split_result d index bin)) ≡ find_if (has_id id) bin
split_find d index bin id = elim (Bool-cases (bit id d)) [
  | inl h ↦
      find_if-append_none (has_id id) (keep_if (goes_left d) bin) (keep_if (goes_right d) bin)
        (absent_left id d (keep_if (goes_left d) bin) h (count_if-keep_if_none (goes_right d) bin))
      ∙ find_if-keep_if (has_id id) (goes_right d) bin (has_id_right id d h)
  | inr h ↦
      find_if-append_left (has_id id) (keep_if (goes_left d) bin) (keep_if (goes_right d) bin)
        (absent_right id d (keep_if (goes_right d) bin) h (count_if-keep_if_all (goes_right d) bin))
      ∙ find_if-keep_if (has_id id) (goes_left d) bin (has_id_left id d h)
]

split_result-IsZone :
    (d index : ℕ) (bin : RoutingBin) → d < 127 → IsBin bin → IsZone d (split_result d index bin)
split_result-IsZone d index bin lt v = (
  refl,
  lt,
  count_if-keep_if_none (goes_right d) bin,
  count_if-keep_if_all (goes_right d) bin,
  (refl, omega arith, keep_if-IsBin (goes_left d) bin v),
  (refl, omega arith, keep_if-IsBin (goes_right d) bin v),
)

plain_good :
    (fuel d index : ℕ) (bin : RoutingBin) (c : Contact) (t m : ℕ)
    → d ≤ 127
    → IsBin bin
    → is_table_full (try_add bin c).1 ≡ false
    → AddGood d bin c (add (suc fuel) (leaf d index bin) c t m)
unfolding add
plain_good fuel d index bin c t m le v h =
    subst (AddGood d bin c) (sym (leaf_plain (add fuel) d index bin c t m h))
      ((refl, le, try_add-IsBin bin c v), try_add-AddSpec bin c)

-- A full leaf that may not split keeps its entries; one that may passes the contact on.
full_good :
    (fuel d index : ℕ) (bin : RoutingBin) (c : Contact) (t m : ℕ)
    → d ≤ 127
    → IsBin bin
    → try_add bin c ≡ (bin, err (table_full 10))
    → (IsZone d (split_result d index bin)
        → AddGood d
            (contacts (split_result d index bin))
            c
            (add (suc fuel) (split_result d index bin) c t m))
    → AddGood d bin c (add (suc (suc fuel)) (leaf d index bin) c t m)
unfolding add
full_good fuel d index bin c t m le v e retry = elim (Option-cases (can_split d index t m)) [
  | inr (reason, s) ↦
      subst (AddGood d bin c) (sym (leaf_denied (add (suc fuel)) d index bin c t m reason e s))
        ((refl, le, v), refuses _ refl (λ p. refl))
  | inl s ↦
      let zone = split_result d index bin in
      let good = retry (split_result-IsZone d index bin (can_split_depth d index t m s) v) in
      subst (AddGood d bin c)
        (sym
          (leaf_split (add (suc fuel)) d index bin c t m zone e s (split_lem fuel d index bin v)))
        (
          good.0,
          regroup bin (contacts zone) c _ _ (split_contacts d index bin)
              (split_find d index bin c.id) good.1,
        )
]

leaf_good :
    (fuel d index : ℕ) (bin : RoutingBin) (c : Contact) (t m : ℕ)
    → d ≤ 127
    → IsBin bin
    → (IsZone d (split_result d index bin)
        → AddGood d
            (contacts (split_result d index bin))
            c
            (add (suc fuel) (split_result d index bin) c t m))
    → AddGood d bin c (add (suc (suc fuel)) (leaf d index bin) c t m)
leaf_good fuel d index bin c t m le v retry = elim (try_add-TryAdd bin c) [
  | crowded _ e ↦ plain_good (suc fuel) d index bin c t m le v (rw e)
  | inserted _ _ _ e ↦ plain_good (suc fuel) d index bin c t m le v (rw e)
  | refreshed _ _ _ e ↦ plain_good (suc fuel) d index bin c t m le v (rw e)
  | full _ _ _ e ↦ full_good fuel d index bin c t m le v e retry
]

module _ (fuel d index : ℕ) (left right : RoutingZone) (c : Contact) (t m : ℕ)
    (v : IsZone d (branch d index left right)) where
  branch_good :
      (bit c.id d ≡ false → AddGood (d + 1) (contacts left) c (add fuel left c t m))
      → (bit c.id d ≡ true → AddGood (d + 1) (contacts right) c (add fuel right c t m))
      → AddGood d
          (contacts left ++ contacts right)
          c
          (add (suc fuel) (branch d index left right) c t m)
  branch_good go_left go_right = elim (Bool-cases (bit c.id d)) [
    | inl h ↦
        let (rv, spec) = go_right h in
        subst (AddGood d (contacts left ++ contacts right) c)
          (sym (add_right fuel d index left right c t m h))
          (
            (
              refl,
              v.1,
              v.2,
              keeps_side (λ i. not (bit i d)) (contacts right) c _ _ (ap not h) v.3 spec,
              v.4,
              rv,
            ),
            lift_right (contacts left) (contacts right) c _ _
                (absent_left c.id d (contacts left) h v.2) spec,
          )
    | inr h ↦
        let (lv, spec) = go_left h in
        subst (AddGood d (contacts left ++ contacts right) c)
          (sym (add_left fuel d index left right c t m h))
          (
            (refl, v.1, keeps_side (λ i. bit i d) (contacts left) c _ _ h v.2 spec, v.3, lv, v.5),
            lift_left (contacts left) (contacts right) c _ _
                (absent_right c.id d (contacts right) h v.3) spec,
          )
  ]

need_child :
    (d : ℕ) (z : RoutingZone) (fuel : ℕ)
    → d < 127
    → 2 * (128 - d) - 1 ≤ suc fuel
    → need (d + 1) z ≤ fuel
need_child d (leaf depth index bin) fuel lt h = omega arith
need_child d (branch depth index left right) fuel lt h = omega arith

need_le : (d : ℕ) (z : RoutingZone) (fuel : ℕ) → 2 * (128 - d) ≤ fuel → need d z ≤ fuel
need_le d (leaf depth index bin) fuel h = h
need_le d (branch depth index left right) fuel h = omega arith

add_good :
    (fuel d : ℕ) (z : RoutingZone) (c : Contact) (t m : ℕ)
    → IsZone d z
    → need d z ≤ fuel
    → AddGood d (contacts z) c (add fuel z c t m)
add_good zero d (leaf depth index bin) c t m (_, le, _) n = absurd (omega arith)
add_good (suc zero) d (leaf depth index bin) c t m (_, le, _) n = absurd (omega arith)
add_good (suc (suc fuel)) d (leaf depth index bin) c t m (e, le, v) n =
    subst (λ k. AddGood d bin c (add (suc (suc fuel)) (leaf k index bin) c t m)) (sym e)
      (leaf_good fuel d index bin c t m le v
        (λ zv. add_good (suc fuel) d (split_result d index bin) c t m zv (omega arith)))
add_good zero d (branch depth index left right) c t m (_, lt, _, _, _, _) n = absurd (omega arith)
add_good (suc fuel) d (branch depth index left right) c t m (e, lt, pl, pr, l, r) n =
    subst
      (λ k.
        AddGood d (contacts left ++ contacts right) c
          (add (suc fuel) (branch k index left right) c t m))
      (sym e)
      (branch_good fuel d index left right c t m (refl, lt, pl, pr, l, r)
        (λ _. add_good fuel (d + 1) left c t m l (need_child d left fuel lt (omega arith)))
        (λ _. add_good fuel (d + 1) right c t m r (need_child d right fuel lt (omega arith))))

-- `add` ends within the fuel of `2 * (128 - d)` calls, on every trie at depth `d`: it refuses the
-- contact and keeps the entries, or inserts it, or refreshes the entry with its identifier; and the
-- trie stays well formed.
pub add_lem :
    (fuel d : ℕ) (z : RoutingZone) (c : Contact) (t m : ℕ)
    → IsZone d z
    → 2 * (128 - d) ≤ fuel
    → IsZone d (add fuel z c t m).0
      × AddSpec (contacts z) c (contacts (add fuel z c t m).0) (add fuel z c t m).1
add_lem fuel d z c t m v n = add_good fuel d z c t m v (need_le d z fuel n)
