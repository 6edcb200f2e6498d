-- ===== src/Kad/Routing/Zone/Shape.antt =====
-- When a trie of zone.rs is well formed, and the entries that it holds.
use p2p_overlord_agents.Base.{
  ℕ, ◌+◌, ◌≤◌, ◌<◌, ◌≡◌, ap, ◌∙◌, inl, inr, true, false, not, List, ◌++◌, arith, count_if,
  Bool-cases, same_iff, count_if-append, count_if_mono,
}
use p2p_overlord_agents.Kad.NodeId.{NodeId, NodeId-discrete, bit}
use p2p_overlord_agents.Kad.Routing.Contact.{Contact}
use p2p_overlord_agents.Kad.Routing.Bin.{has_id}
use p2p_overlord_agents.Kad.Routing.Bin.Laws.{IsBin}
use p2p_overlord_agents.Kad.Routing.Zone.{RoutingZone, leaf, branch}
use p2p_overlord_agents.Kad.Routing.Zone.Fill.{goes_left, goes_right}

abbrev pub contacts : RoutingZone → List Contact
contacts (leaf depth index bin) = bin
contacts (branch depth index left right) = contacts left ++ contacts right

-- A zone at depth `d`: its buckets are well formed, its depths count up, no zone is deeper than 127,
-- and the entries of a child have the bit that leads to it.
abbrev pub IsZone : ℕ → RoutingZone → Type 0
IsZone d (leaf depth index bin) = (depth ≡ d) × (d ≤ 127) × IsBin bin
IsZone d (branch depth index left right) =
    (depth ≡ d)
    × (d < 127)
    × (count_if (goes_right d) (contacts left) ≡ 0)
    × (count_if (goes_left d) (contacts right) ≡ 0)
    × IsZone (d + 1) left
    × IsZone (d + 1) right

-- The entries with an identifier go the way of its bit.
pub has_id_right :
    (id : NodeId) (d : ℕ)
    → bit id d ≡ true
    → (x : Contact) → has_id id x ≡ true
    → goes_right d x ≡ true
has_id_right id d h x e = ap (λ i. bit i d) ((same_iff NodeId-discrete x.id id).0 e) ∙ h

pub has_id_left :
    (id : NodeId) (d : ℕ)
    → bit id d ≡ false
    → (x : Contact) → has_id id x ≡ true
    → goes_left d x ≡ true
has_id_left id d h x e = ap (λ i. not (bit i d)) ((same_iff NodeId-discrete x.id id).0 e) ∙ ap not h

-- So a list without such entries does not have the identifier.
pub absent_left :
    (id : NodeId) (d : ℕ) (cs : List Contact)
    → bit id d ≡ true
    → count_if (goes_right d) cs ≡ 0
    → count_if (has_id id) cs ≡ 0
absent_left id d cs h e =
    omega (arith, count_if_mono (has_id id) (goes_right d) cs (has_id_right id d h))

pub absent_right :
    (id : NodeId) (d : ℕ) (cs : List Contact)
    → bit id d ≡ false
    → count_if (goes_left d) cs ≡ 0
    → count_if (has_id id) cs ≡ 0
absent_right id d cs h e =
    omega (arith, count_if_mono (has_id id) (goes_left d) cs (has_id_left id d h))

-- In a well-formed trie an identifier occurs once.
pub contacts_unique :
    (d : ℕ) (z : RoutingZone) (id : NodeId) → IsZone d z → count_if (has_id id) (contacts z) ≤ 1
contacts_unique d (leaf depth index bin) id (_, _, v) = v.unique id
contacts_unique d (branch depth index left right) id (_, _, pl, pr, l, r) =
    elim (Bool-cases (bit id d)) [
      | inl h ↦ omega (
        arith,
        count_if-append (has_id id) (contacts left) (contacts right),
        absent_left id d (contacts left) h pl,
        contacts_unique (d + 1) right id r,
      )
      | inr h ↦ omega (
        arith,
        count_if-append (has_id id) (contacts left) (contacts right),
        absent_right id d (contacts right) h pr,
        contacts_unique (d + 1) left id l,
      )
    ]
