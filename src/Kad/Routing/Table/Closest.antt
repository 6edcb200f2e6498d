-- ===== src/Kad/Routing/Table/Closest.antt =====
-- `get_closest` of table.rs: the n entries nearest to a target.
use p2p_overlord_agents.Base.{
  ℕ, ◌<◌, ◌≡◌, ap, ◌∙◌, true, false, List, [], ◌++◌, arith, min, length, All, count_if, SameItems,
  count_if-true,
}
use p2p_overlord_agents.Base.Sort.{
  sort_by, IsSorted, sort_by-SameItems, sort_by-IsSorted, drop, take-append-drop, length-take,
  take-IsSorted,
}
use p2p_overlord_agents.Kad.NodeId.{NodeId, distance}
use p2p_overlord_agents.Kad.NodeId.Order.{not_less_trans, less_asym}
use p2p_overlord_agents.Kad.Routing.Contact.{Contact}
use p2p_overlord_agents.Kad.Routing.Zone.{usize_max}
use p2p_overlord_agents.Kad.Routing.Zone
use p2p_overlord_agents.Kad.Routing.Zone.Shape.{contacts}
use p2p_overlord_agents.Kad.Routing.Zone.Lookup.{get_closest_lem}
use p2p_overlord_agents.Kad.Routing.Table.{RoutingTable, nearer, get_closest}

nearer-IsSorted :
    (target : NodeId) (xs : List Contact) → IsSorted (nearer target) (sort_by (nearer target) xs)
nearer-IsSorted target xs =
    sort_by-IsSorted (nearer target)
      (λ a b c. not_less_trans (distance a.id target) (distance b.id target) (distance c.id target))
      (λ a b. less_asym (distance a.id target) (distance b.id target)) xs

-- `get_closest` returns the entries of the table in the order of their distance, as many as there
-- are up to n; and with the entries left out they are the entries of the table, none of those left
-- out nearer than one returned. The table is to hold fewer than `usize::MAX` entries.
pub get_closest-nearest :
    (t : RoutingTable) (target : NodeId) (n : ℕ)
    → length (contacts t.root) < usize_max
    → (rest : List Contact) × SameItems (get_closest t target n ++ rest) (contacts t.root)
      × IsSorted (nearer target) (get_closest t target n)
      × All (λ x. All (λ y. nearer target y x ≡ false) rest) (get_closest t target n)
      × (length (get_closest t target n) ≡ min n (length (contacts t.root)))
unfolding get_closest
get_closest-nearest t target n room =
    let all = Zone.get_closest t.root target usize_max [] in
    let sorted = sort_by (nearer target) all in
    let (s, a) = take-IsSorted (nearer target) n sorted (nearer-IsSorted target all) in
    let items : SameItems sorted (contacts t.root) = λ p.
      sort_by-SameItems (nearer target) all p
      ∙ omega (arith, get_closest_lem target usize_max t.root [] (omega arith) p) in
    (
      drop n sorted,
      λ p. ap (count_if p) (take-append-drop n sorted) ∙ items p,
      s,
      a,
      omega (
        arith,
        length-take n sorted,
        items (λ _. true),
        count_if-true sorted,
        count_if-true (contacts t.root),
      ),
    )
