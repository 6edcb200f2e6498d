-- ===== src/Kad/Routing/Zone/Lookup.antt =====
-- The trie of zone.rs as the list of its entries: `get`, `remove`, `count` and `get_closest`.
use p2p_overlord_agents.Base.{
  ℕ, ◌+◌, ◌<◌, ◌≡◌, refl, sym, subst, ap, ◌∙◌, inl, inr, Bool, true, false, Option, none, some,
  List, ◌++◌, arith, length, find_if, count_if, bool_to_ℕ, Bool-cases, Option-cases,
  count_if-append, length-append, find_if-append_none, find_if-append_left, count_if-remove_first,
  remove_first-none, count_if-true,
}
use p2p_overlord_agents.Kad.NodeId.{NodeId, bit}
use p2p_overlord_agents.Kad.Routing.Contact.{Contact}
use p2p_overlord_agents.Kad.Routing.Bin.{RoutingBin, has_id}
use p2p_overlord_agents.Kad.Routing.Bin
use p2p_overlord_agents.Kad.Routing.Bin.Laws.{remove-IsBin}
use p2p_overlord_agents.Kad.Routing.Zone.{
  RoutingZone, leaf, branch, get, count, remove, get_closest,
}
use p2p_overlord_agents.Kad.Routing.Zone.Fill.{goes_left, goes_right}
use p2p_overlord_agents.Kad.Routing.Zone.Shape.{contacts, IsZone, absent_left, absent_right}

-- The walk along the bits of an identifier finds what a search of all entries finds.
pub get-find_if :
    (d : ℕ) (z : RoutingZone) (id : NodeId)
    → IsZone d z
    → get z id ≡ find_if (has_id id) (contacts z)
unfolding get
get-find_if d (leaf depth index bin) id v = refl
get-find_if d (branch depth index left right) id (e, _, pl, pr, l, r) =
    elim (Bool-cases (bit id d)) [
      | inl h ↦
          rw (ap (bit id) e ∙ h, get)
            (get-find_if (d + 1) right id r
              ∙ sym (
                  find_if-append_none (has_id id) (contacts left) (contacts right)
                    (absent_left id d (contacts left) h pl)))
      | inr h ↦
          rw (ap (bit id) e ∙ h, get)
            (get-find_if (d + 1) left id l
              ∙ sym (
                  find_if-append_left (has_id id) (contacts left) (contacts right)
                    (absent_right id d (contacts right) h pr)))
    ]

-- `count` is the number of entries.
pub count-length : (z : RoutingZone) → count z ≡ length (contacts z)
unfolding count
count-length (leaf depth index bin) = refl
count-length (branch depth index left right) =
    omega
      (arith, count-length left, count-length right, length-append (contacts left) (contacts right))

-- How often an optional entry passes a test.
abbrev pub count_option : (Contact → Bool) → Option Contact → ℕ
count_option p none = 0
count_option p (some c) = bool_to_ℕ (p c)

-- What removing `id` from `cs` does: the entry found is handed out, and only it is gone.
abbrev pub Removes : NodeId → List Contact → List Contact → Option Contact → Type 0
Removes id cs cs' removed =
    (removed ≡ find_if (has_id id) cs)
    × ((p : Contact → Bool) → count_if p cs' + count_option p removed ≡ count_if p cs)

remove_bin-Removes :
    (id : NodeId) (bin : RoutingBin) → Removes id bin (Bin.remove id bin).0 (Bin.remove id bin).1
unfolding Bin.remove
remove_bin-Removes id bin = elim (Option-cases (find_if (has_id id) bin)) [
  | inl e ↦
      (refl, λ p. ground (arith, e, ap (λ l. count_if p l) (remove_first-none (has_id id) bin e)))
  | inr (a, e) ↦ (refl, λ p. ground (arith, e, count_if-remove_first (has_id id) p bin e))
]

abbrev RemoveGood : ℕ → NodeId → List Contact → RoutingZone × Option Contact → Type 0
RemoveGood d id cs res = IsZone d res.0 × Removes id cs (contacts res.0) res.1

module _ (depth index : ℕ) (left right : RoutingZone) (id : NodeId) where
  remove_right :
      bit id depth ≡ true
      → remove (branch depth index left right) id
        ≡ (branch depth index left (remove right id).0, (remove right id).1)
  unfolding remove
  remove_right h = rw (h, remove)

  remove_left :
      bit id depth ≡ false
      → remove (branch depth index left right) id
        ≡ (branch depth index (remove left id).0 right, (remove left id).1)
  unfolding remove
  remove_left h = rw (h, remove)

module _ (d index : ℕ) (left right : RoutingZone) (id : NodeId)
    (v : IsZone d (branch d index left right)) where
  remove_branch :
      RemoveGood (d + 1) id (contacts left) (remove left id)
      → RemoveGood (d + 1) id (contacts right) (remove right id)
      → RemoveGood d id (contacts left ++ contacts right) (remove (branch d index left right) id)
  remove_branch (lv, (lf, lc)) (rv, (rf, rc)) = elim (Bool-cases (bit id d)) [
    | inl h ↦
        subst (RemoveGood d id (contacts left ++ contacts right))
          (sym (remove_right d index left right id h))
          (
            (refl, v.1, v.2, omega (arith, rc (goes_left d), v.3), v.4, rv),
            (
              rf
                  ∙ sym (
                      find_if-append_none (has_id id) (contacts left) (contacts right)
                        (absent_left id d (contacts left) h v.2)),
              λ p. omega (
                arith,
                rc p,
                count_if-append p (contacts left) (contacts right),
                count_if-append p (contacts left) (contacts (remove right id).0),
              ),
            ),
          )
    | inr h ↦
        subst (RemoveGood d id (contacts left ++ contacts right))
          (sym (remove_left d index left right id h))
          (
            (refl, v.1, omega (arith, lc (goes_right d), v.2), v.3, lv, v.5),
            (
              lf
                  ∙ sym (
                      find_if-append_left (has_id id) (contacts left) (contacts right)
                        (absent_right id d (contacts right) h v.3)),
              λ p. omega (
                arith,
                lc p,
                count_if-append p (contacts left) (contacts right),
                count_if-append p (contacts (remove left id).0) (contacts right),
              ),
            ),
          )
  ]

-- `remove` hands out the entry with the identifier, if there is one, keeps all others, and leaves
-- the trie well formed.
pub remove_lem :
    (d : ℕ) (z : RoutingZone) (id : NodeId)
    → IsZone d z
    → IsZone d (remove z id).0
      × (((remove z id).1 ≡ find_if (has_id id) (contacts z))
          × ((p : Contact → Bool)
              → count_if p (contacts (remove z id).0) + count_option p (remove z id).1
                ≡ count_if p (contacts z)))
remove_lem d (leaf depth index bin) id (e, le, v) =
    unfold remove in ((e, le, remove-IsBin id bin v), remove_bin-Removes id bin)
remove_lem d (branch depth index left right) id (e, lt, pl, pr, l, r) =
    subst
      (λ k.
        RemoveGood d id (contacts left ++ contacts right) (remove (branch k index left right) id))
      (sym e)
      (remove_branch d index left right id (refl, lt, pl, pr, l, r) (remove_lem (d + 1) left id l)
        (remove_lem (d + 1) right id r))

module _ (target : NodeId) (n : ℕ) where
  closest_right :
      (depth index : ℕ) (left right : RoutingZone) (result : List Contact)
      → bit target depth ≡ true
      → length (get_closest right target n result) < n
      → get_closest (branch depth index left right) target n result
        ≡ get_closest left target n (get_closest right target n result)
  unfolding get_closest
  closest_right depth index left right result h lt = ground arith

  closest_left :
      (depth index : ℕ) (left right : RoutingZone) (result : List Contact)
      → bit target depth ≡ false
      → length (get_closest left target n result) < n
      → get_closest (branch depth index left right) target n result
        ≡ get_closest right target n (get_closest left target n result)
  unfolding get_closest
  closest_left depth index left right result h lt = ground arith

  length-closest :
      (z : RoutingZone) (result : List Contact)
      → ((p : Contact → Bool)
          → count_if p (get_closest z target n result)
            ≡ count_if p result + count_if p (contacts z))
      → length (get_closest z target n result) ≡ length result + length (contacts z)
  length-closest z result s = omega (
    arith,
    s (λ _. true),
    count_if-true (get_closest z target n result),
    count_if-true result,
    count_if-true (contacts z),
  )

  -- With room for all entries, the walk collects each of them, behind those it was given.
  pub get_closest_lem :
      (z : RoutingZone) (result : List Contact)
      → length result + length (contacts z) < n
      → (p : Contact → Bool)
      → count_if p (get_closest z target n result) ≡ count_if p result + count_if p (contacts z)
  get_closest_lem (leaf depth index bin) result room p =
      unfold get_closest in count_if-append p result bin
  get_closest_lem (branch depth index left right) result room p =
      let total = length-append (contacts left) (contacts right) in
      elim (Bool-cases (bit target depth)) [
        | inl h ↦
            let near = get_closest_lem right result (omega (arith, total)) in
            let len = length-closest right result near in
            rw (closest_right depth index left right result h (omega (arith, total, len))) (
              omega (
                arith,
                near p,
                get_closest_lem left (get_closest right target n result) (omega (arith, total, len))
                    p,
                count_if-append p (contacts left) (contacts right),
              ))
        | inr h ↦
            let near = get_closest_lem left result (omega (arith, total)) in
            let len = length-closest left result near in
            rw (closest_left depth index left right result h (omega (arith, total, len))) (
              omega (
                arith,
                near p,
                get_closest_lem right (get_closest left target n result) (omega (arith, total, len))
                    p,
                count_if-append p (contacts left) (contacts right),
              ))
      ]
