-- ===== src/Kad/Routing/Table/Lookup.antt =====
-- The table of table.rs as a finite map from identifiers to contacts.
use p2p_overlord_agents.Base.{
  ◌+◌, ◌≤◌, ◌≡◌, ◌≢◌, refl, sym, subst, ap, ◌∙◌, ◌⊎◌, ◌↔◌, Bool, false, Option, none, some, inl,
  inr, arith, same, same_refl, same_iff, bool_to_ℕ, Option-cases, count_if, find_if-some,
  find_if-none, find_if_zero, find_if_unique, find_if-some_count, ℕ_discrete,
}
use p2p_overlord_agents.Kad.NodeId.{NodeId, NodeId-discrete}
use p2p_overlord_agents.Kad.Routing.Contact.{Contact, Ipv4Addr-discrete}
use p2p_overlord_agents.Kad.Routing.Bin.{has_id, refresh_entry}
use p2p_overlord_agents.Kad.Routing.Bin.Laws.{refresh_entry_id}
use p2p_overlord_agents.Kad.Routing.Zone.Shape.{contacts, contacts_unique}
use p2p_overlord_agents.Kad.Routing.Table.{RoutingTable, done, add_contact, remove, get}
use p2p_overlord_agents.Kad.Routing.Table.Invariant.{IsTable}
use p2p_overlord_agents.Kad.Routing.Table.Operations.{
  keeps, adds, replaces, add_contact_lem, remove_contact_lem, get_find,
}

Contact-discrete : Discrete Contact
Contact-discrete = hlevel (ℕ_discrete, NodeId-discrete, Ipv4Addr-discrete)

-- The entry that a successful `add_contact` leaves under the identifier of `c`.
abbrev pub merged : Option Contact → Contact → Contact
merged none c = c
merged (some old) c = refresh_entry old c

abbrev holds : Contact → Contact → Bool
holds c x = same Contact-discrete x c

-- What is found under an identifier is decided by how often each entry with it occurs.
found :
    (t : RoutingTable) (id : NodeId) (c : Contact)
    → IsTable t
    → c.id ≡ id
    → 1 ≤ count_if (holds c) (contacts t.root)
    → get t id ≡ some c
found t id c v e one =
    get_find t id v
    ∙ find_if_unique Contact-discrete (has_id id) (contacts t.root) c
        ((same_iff NodeId-discrete c.id id).1 e) one (contacts_unique 0 t.root id v.trie)

found_count :
    (t : RoutingTable) (id : NodeId) (c : Contact)
    → IsTable t
    → get t id ≡ some c
    → (c.id ≡ id) × (1 ≤ count_if (holds c) (contacts t.root))
found_count t id c v e =
    let f = sym (get_find t id v) ∙ e in
    (
      (same_iff NodeId-discrete c.id id).0 (find_if-some (has_id id) (contacts t.root) f).0,
      find_if-some_count Contact-discrete (has_id id) (contacts t.root) c f,
    )

missing :
    (t : RoutingTable) (id : NodeId)
    → IsTable t
    → count_if (has_id id) (contacts t.root) ≡ 0
    → get t id ≡ none
missing t id v z = get_find t id v ∙ find_if_zero (has_id id) (contacts t.root) z

missing_count :
    (t : RoutingTable) (id : NodeId)
    → IsTable t
    → get t id ≡ none
    → count_if (has_id id) (contacts t.root) ≡ 0
missing_count t id v e = find_if-none (has_id id) (contacts t.root) (sym (get_find t id v) ∙ e)

-- Two tables that hold the entries with an identifier as often agree on it.
agree :
    (t t' : RoutingTable) (id : NodeId)
    → IsTable t
    → IsTable t'
    → count_if (has_id id) (contacts t'.root) ≡ count_if (has_id id) (contacts t.root)
    → ((c : Contact)
        → c.id ≡ id
        → count_if (holds c) (contacts t'.root) ≡ count_if (holds c) (contacts t.root))
    → get t' id ≡ get t id
agree t t' id v v' s h = elim (Option-cases (get t id)) [
  | inl e ↦ missing t' id v' (s ∙ missing_count t id v e) ∙ sym e
  | inr (c, e) ↦
      let (q, one) = found_count t id c v e in found t' id c v' q (omega (arith, h c q)) ∙ sym e
]

other_id : (c : Contact) (id : NodeId) → c.id ≢ id → has_id id c ≡ false
other_id c id n = ground arith

other_contact : (c x : Contact) (id : NodeId) → x.id ≡ id → c.id ≢ id → holds x c ≡ false
other_contact c x id e n = ground (arith, ap (λ (y : Contact). y.id) {x = c} {y = x})

-- The abstract step: one identifier is mapped to a contact, all others are as they were.
abbrev pub MapsTo : RoutingTable → NodeId → Contact → RoutingTable → Type 0
MapsTo t id c t' = (get t' id ≡ some c) × ((j : NodeId) → id ≢ j → get t' j ≡ get t j)

module _ (t t' : RoutingTable) (v : IsTable t) (v' : IsTable t') where
  unchanged :
      ((p : Contact → Bool) → count_if p (contacts t'.root) ≡ count_if p (contacts t.root))
      → (j : NodeId) → get t' j ≡ get t j
  unchanged s j = agree t t' j v v' (s (has_id j)) (λ x _. s (holds x))

  adds-MapsTo :
      (c : Contact)
      → ((p : Contact → Bool)
          → count_if p (contacts t'.root) ≡ count_if p (contacts t.root) + bool_to_ℕ (p c))
      → MapsTo t c.id c t'
  adds-MapsTo c s = (
    found t' c.id c v' refl
        (omega (arith, s (holds c), ap bool_to_ℕ (same_refl Contact-discrete c))),
    λ j n.
        agree t t' j v v' (omega (arith, s (has_id j), ap bool_to_ℕ (other_id c j n)))
          (λ x e. omega (arith, s (holds x), ap bool_to_ℕ (other_contact c x j e n))),
  )

  replaces-MapsTo :
      (old new : Contact) (id : NodeId)
      → old.id ≡ id
      → new.id ≡ id
      → ((p : Contact → Bool)
          → count_if p (contacts t'.root) + bool_to_ℕ (p old)
            ≡ count_if p (contacts t.root) + bool_to_ℕ (p new))
      → 1 ≤ count_if (holds old) (contacts t.root)
      → MapsTo t id new t'
  replaces-MapsTo old new id e f s one = (
    found t' id new v' f (
        ground (
          arith,
          s (holds new),
          same_refl Contact-discrete new,
          ap (λ y. count_if (holds y) (contacts t.root)) {x = old} {y = new},
        )),
    λ j n.
        let away : (x : Contact) → x.id ≡ id → x.id ≢ j = λ x g h. n (sym g ∙ h) in
        agree t t' j v v'
          (omega (
            arith,
            s (has_id j),
            ap bool_to_ℕ (other_id old j (away old e)),
            ap bool_to_ℕ (other_id new j (away new f)),
          ))
          (λ x g. omega (
            arith,
            s (holds x),
            ap bool_to_ℕ (other_contact old x j g (away old e)),
            ap bool_to_ℕ (other_contact new x j g (away new f)),
          )),
  )

-- A successful `add_contact` maps the identifier of the contact to the contact merged with the entry
-- found before, and changes nothing under any other identifier; a failed one changes no lookup.
pub add_contact-get :
    (t : RoutingTable) (c : Contact)
    → IsTable t
    → (((add_contact t c).1 ≡ done) × MapsTo t c.id (merged (get t c.id) c) (add_contact t c).0)
      ⊎ (((add_contact t c).1 ≢ done) × ((j : NodeId) → get (add_contact t c).0 j ≡ get t j))
add_contact-get t c v =
    let (v', spec) = add_contact_lem t c v in
    let t' = (add_contact t c).0 in
    elim spec [
      | keeps e q s ↦ inr ((λ h. cc (q, h)), unchanged t t' v v' s)
      | adds q f s ↦
          inl (q, subst (λ o. MapsTo t c.id (merged o c) t') (sym f) (adds-MapsTo t t' v v' c s))
      | replaces old q f s ↦
          let (e, one) = found_count t c.id old v f in
          inl (
            q,
            subst (λ o. MapsTo t c.id (merged o c) t') (sym f)
                (replaces-MapsTo t t' v v' old (refresh_entry old c) c.id e
                  (refresh_entry_id old c ∙ e) s one),
          )
    ]

-- `remove` answers whether the identifier was there, and afterwards it is not; every other
-- identifier is looked up as before.
pub remove-get :
    (t : RoutingTable) (id : NodeId)
    → IsTable t
    → (((remove t id).1 ≡ false) ↔ (get t id ≡ none))
      × (get (remove t id).0 id ≡ none)
      × ((j : NodeId) → id ≢ j → get (remove t id).0 j ≡ get t j)
remove-get t id v =
    let (v', spec) = remove_contact_lem t id v in
    let t' = (remove t id).0 in
    elim spec [
      | inl (q, f, s) ↦
          ((λ _. f, λ _. q), unchanged t t' v v' s id ∙ f, λ j _. unchanged t t' v v' s j)
      | inr (c, q, f, s) ↦
          let (e, one) = found_count t id c v f in
          (
            (λ h. cc (q, h), λ h. cc (f, h)),
            missing t' id v' (
                omega (
                  arith,
                  s (has_id id),
                  contacts_unique 0 t.root id v.trie,
                  ap bool_to_ℕ ((same_iff NodeId-discrete c.id id).1 e),
                )),
            λ j n.
                let away : c.id ≢ j = λ h. n (sym e ∙ h) in
                agree t t' j v v' (omega (arith, s (has_id j), ap bool_to_ℕ (other_id c j away)))
                  (λ x g. omega (arith, s (holds x), ap bool_to_ℕ (other_contact c x j g away))),
          )
    ]
