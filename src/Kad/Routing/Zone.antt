-- ===== src/Kad/Routing/Zone.antt =====
-- crates/overlord-kad-routing/src/zone.rs: a binary trie of buckets, split where the identifiers
-- differ.
-- A zone of the source is a record with a depth, an index and a content; here each content carries
-- the depth and the index. The recursion of `add` goes down the trie and into a fresh split, so it
-- takes fuel; `add` after a split starts at a deeper zone, and no zone is deeper than 127.

pub mod Fill
pub mod Shape
pub mod Add
pub mod Lookup
use p2p_overlord_agents.Base.{
  ℕ, zero, suc, ◌+◌, ◌-◌, ◌*◌, ◌^◌, ◌<◌, min, Bool, true, false, ◌||◌, Option, none, some, List, [],
  ◌∷◌, ◌++◌, ltb, leb, if◌then◌else◌, bool_to_ℕ, length, find_if,
}
use p2p_overlord_agents.Kad.NodeId.{NodeId, bit}
use p2p_overlord_agents.Kad.Routing.Contact.{
  Contact, RoutingError, table_full, ip_limit_exceeded, subnet_limit_exceeded, split_denied,
  SplitDeniedReason, depth_limit, max_table_size, zone_index_cap, AddResult, ok, err, stuck,
}
use p2p_overlord_agents.Kad.Routing.Bin.{RoutingBin, has_id, try_add}
use p2p_overlord_agents.Kad.Routing.Bin

-- `KBASE` and `KK` of crates/overlord-kad-proto/src/constants.rs, and `usize::MAX`.
abbrev pub kbase : ℕ
kbase = 4

abbrev pub kk : ℕ
kk = 5

abbrev pub usize_max : ℕ
usize_max = 2 ^ 64 - 1

pub data RoutingZone : Type 0 where
  leaf : ℕ → ℕ → RoutingBin → RoutingZone
  branch : ℕ → ℕ → RoutingZone → RoutingZone → RoutingZone

unfoldable pub new_root : RoutingZone
new_root = leaf 0 0 []

abbrev pub new_leaf : ℕ → ℕ → RoutingZone
new_leaf depth zone_index = leaf depth zone_index []

-- `none` is `Ok(())`.
unfoldable pub can_split : ℕ → ℕ → ℕ → ℕ → Option SplitDeniedReason
can_split depth zone_index total_contacts max_size =
    if leb 127 depth
    then some depth_limit
    else if leb max_size total_contacts
    then some max_table_size
    else if ltb depth kbase || ltb zone_index kk
    then none
    else some zone_index_cap

-- The products and sums saturate at `usize::MAX`.
unfoldable pub child_zone_index : ℕ → Bool → ℕ
child_zone_index parent right_child =
    min (min (min (parent * 2) usize_max + bool_to_ℕ right_child) usize_max) kk

-- `for c in b.drain() { drained.try_add(c)? }`: the bucket built so far, and the error that ends the
-- loop. Dropping the iterator drops the entries that are left.
unfoldable pub refill : RoutingBin → List Contact → RoutingBin × AddResult
refill drained [] = (drained, ok true)
refill drained (c ∷ cs) =
    let (drained', r) = try_add drained c in
    elim r [ ok _ ↦ refill drained' cs | err e ↦ (drained', err e) | stuck ↦ (drained', stuck) ]

-- The type of `add` for one contact.
abbrev pub Adder : Type 0
Adder = RoutingZone → Contact → ℕ → ℕ → RoutingZone × AddResult

-- `for c in bin.iter()`: each entry goes to the child that its bit names.
unfoldable pub redistribute :
    Adder → ℕ → RoutingZone → RoutingZone → List Contact → RoutingZone × RoutingZone × AddResult
redistribute add depth left right [] = (left, right, ok true)
redistribute add depth left right (c ∷ cs) = elim (bit c.id depth) [
  | true ↦
      let (right', r) = add right c 0 usize_max in
      elim r [
        | ok _ ↦ redistribute add depth left right' cs
        | err e ↦ (left, right', err e)
        | stuck ↦ (left, right', stuck)
      ]
  | false ↦
      let (left', r) = add left c 0 usize_max in
      elim r [
        | ok _ ↦ redistribute add depth left' right cs
        | err e ↦ (left', right, err e)
        | stuck ↦ (left', right, stuck)
      ]
]

-- Where a step fails, `?` returns with the leaf already drained.
unfoldable pub split : Adder → ℕ → ℕ → RoutingBin → RoutingZone × AddResult
split add depth zone_index bin =
    let (drained, r) = refill [] bin in
    elim r [
      | ok _ ↦
          let (left, right, r') =
            redistribute add depth (new_leaf (depth + 1) (child_zone_index zone_index false))
              (new_leaf (depth + 1) (child_zone_index zone_index true)) drained in
          elim r' [
            | ok _ ↦ (branch depth zone_index left right, ok true)
            | err e ↦ (leaf depth zone_index [], err e)
            | stuck ↦ (leaf depth zone_index [], stuck)
          ]
      | err e ↦ (leaf depth zone_index [], err e)
      | stuck ↦ (leaf depth zone_index [], stuck)
    ]

-- `Err(RoutingError::TableFull { .. })`
abbrev pub is_table_full : AddResult → Bool
is_table_full (err (table_full _)) = true
is_table_full (err (ip_limit_exceeded _)) = false
is_table_full (err (subnet_limit_exceeded _ _)) = false
is_table_full (err (split_denied _)) = false
is_table_full (ok _) = false
is_table_full stuck = false

-- `self.split()?` and then `self.add(…)` again.
unfoldable pub split_and_retry :
    Adder → ℕ → ℕ → RoutingBin → Contact → ℕ → ℕ → RoutingZone × AddResult
split_and_retry add depth zone_index bin contact total_contacts max_size =
    let (zone, r) = split add depth zone_index bin in
    elim r [
      | ok _ ↦ add zone contact total_contacts max_size
      | err e ↦ (zone, err e)
      | stuck ↦ (zone, stuck)
    ]

-- A leaf: the bucket takes the contact, or it is full and the leaf may split.
unfoldable pub add_to_leaf : Adder → ℕ → ℕ → RoutingBin → Contact → ℕ → ℕ → RoutingZone × AddResult
add_to_leaf add depth zone_index bin contact total_contacts max_size =
    let (bin', r) = try_add bin contact in
    elim (is_table_full r) [
      | true ↦ elim (can_split depth zone_index total_contacts max_size) [
        | none ↦ split_and_retry add depth zone_index bin' contact total_contacts max_size
        | some reason ↦ (leaf depth zone_index bin', err (split_denied reason))
      ]
      | false ↦ (leaf depth zone_index bin', r)
    ]

unfoldable pub add : ℕ → RoutingZone → Contact → ℕ → ℕ → RoutingZone × AddResult
add zero zone contact total_contacts max_size = (zone, stuck)
add (suc fuel) (leaf depth zone_index bin) contact total_contacts max_size =
    add_to_leaf (add fuel) depth zone_index bin contact total_contacts max_size
add (suc fuel) (branch depth zone_index left right) contact total_contacts max_size =
    elim (bit contact.id depth) [
      | true ↦
          let (right', r) = add fuel right contact total_contacts max_size in
          (branch depth zone_index left right', r)
      | false ↦
          let (left', r) = add fuel left contact total_contacts max_size in
          (branch depth zone_index left' right, r)
    ]

-- The contacts are pushed behind `result`.
unfoldable pub get_closest : RoutingZone → NodeId → ℕ → List Contact → List Contact
get_closest (leaf depth zone_index bin) target n result = result ++ bin
get_closest (branch depth zone_index left right) target n result = elim (bit target depth) [
  | true ↦
      let near = get_closest right target n result in
      let far = get_closest left target n near in if ltb (length near) n then far else near
  | false ↦
      let near = get_closest left target n result in
      let far = get_closest right target n near in if ltb (length near) n then far else near
]

unfoldable pub remove : RoutingZone → NodeId → RoutingZone × Option Contact
remove (leaf depth zone_index bin) id =
    let (bin', removed) = Bin.remove id bin in (leaf depth zone_index bin', removed)
remove (branch depth zone_index left right) id = elim (bit id depth) [
  | true ↦ let (right', removed) = remove right id in (branch depth zone_index left right', removed)
  | false ↦ let (left', removed) = remove left id in (branch depth zone_index left' right, removed)
]

unfoldable pub get : RoutingZone → NodeId → Option Contact
get (leaf depth zone_index bin) id = find_if (has_id id) bin
get (branch depth zone_index left right) id = elim (bit id depth) [
  | true ↦ get right id
  | false ↦ get left id
]

unfoldable pub count : RoutingZone → ℕ
count (leaf depth zone_index bin) = length bin
count (branch depth zone_index left right) = count left + count right
