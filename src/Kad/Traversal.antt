-- ===== src/Kad/Traversal.antt =====
-- crates/overlord-kad-dht/src/traversal.rs: the walk to the nodes closest to a target. The first
-- phase is a state machine: each round sends queries and takes the result of one of those that run.
-- Logging and the registration of identities are left out; an instant is a number of nanoseconds.
pub mod Sanitize
pub mod Round
pub mod Phase2
pub mod Relabel
pub mod Invariant
pub mod Start
pub mod Rounds
pub mod Progress
pub mod Converged
mod Tests
use p2p_overlord_agents.Base.{
  ℕ, zero, suc, ◌+◌, ◌-◌, ◌*◌, ◌%◌, min, max, Bool, true, false, not, ◌&&◌, ◌||◌, Option, none,
  some, List, [], ◌∷◌, ◌++◌, ltb, leb, ◌==◌, if◌then◌else◌, same, length, take, find_if, keep_if,
  remove_first, any, count_if, last?, map,
}
use p2p_overlord_agents.Base.Sort.{sort_by, insert_sorted}
use p2p_overlord_agents.Kad.NodeId.{NodeId, NodeId-discrete, distance, cmp, is_less, from_le_bytes}
use p2p_overlord_agents.Kad.Routing.Contact.{
  Ipv4Addr, Ipv4Addr-discrete, Subnet24, Subnet24-discrete, subnet24,
}
use p2p_overlord_agents.Kad.Packet.{
  ContactEntry, ip_addr, SearchKeyReq, SearchSourceReq, SearchNotesReq,
}

abbrev pub alpha : ℕ
alpha = 3

-- `constants::K`
abbrev pub closest_k : ℕ
closest_k = 10

abbrev pub search_tolerance : ℕ
search_tolerance = 0x01000000

pub data CandidateState : Type 0 where
  pending inflight responded failed : CandidateState

-- The address of a version 6 node as one number.
pub data IpAddr : Type 0 where
  v4 : Ipv4Addr → IpAddr
  v6 : ℕ → IpAddr

pub record SocketAddr : Type 0 where
  pub ip : IpAddr
  pub port : ℕ

pub record TraversalContact : Type 0 where
  pub id : NodeId
  pub addr : SocketAddr
  pub version : ℕ

pub record TraversalCandidate : Type 0 where
  pub contact : TraversalContact
  pub state : CandidateState
  pub dist : NodeId

pub data TraversalKind : Type 0 where
  find_node : TraversalKind
  store : TraversalKind
  keyword : SearchKeyReq → TraversalKind
  source : SearchSourceReq → TraversalKind
  notes : ℕ → TraversalKind

unfoldable pub traversal_closest_limit : TraversalKind → ℕ → ℕ
traversal_closest_limit find_node fanout = closest_k
traversal_closest_limit store fanout = max fanout closest_k
traversal_closest_limit (keyword _) fanout = closest_k
traversal_closest_limit (source _) fanout = closest_k
traversal_closest_limit (notes _) fanout = closest_k

unfoldable pub req_count : TraversalKind → ℕ
req_count find_node = 0x0B
req_count store = 0x04
req_count (keyword _) = 0x02
req_count (source _) = 0x02
req_count (notes _) = 0x02

abbrev pub is_find_node : TraversalKind → Bool
is_find_node find_node = true
is_find_node store = false
is_find_node (keyword _) = false
is_find_node (source _) = false
is_find_node (notes _) = false

abbrev pub is_pending : TraversalCandidate → Bool
is_pending c = elim c.state [
  | pending ↦ true
  | inflight ↦ false
  | responded ↦ false
  | failed ↦ false
]

abbrev pub is_inflight : TraversalCandidate → Bool
is_inflight c = elim c.state [
  | pending ↦ false
  | inflight ↦ true
  | responded ↦ false
  | failed ↦ false
]

abbrev pub is_responded : TraversalCandidate → Bool
is_responded c = elim c.state [
  | pending ↦ false
  | inflight ↦ false
  | responded ↦ true
  | failed ↦ false
]

-- `Responded | Failed`
abbrev pub is_resolved : TraversalCandidate → Bool
is_resolved c = elim c.state [
  | pending ↦ false
  | inflight ↦ false
  | responded ↦ true
  | failed ↦ true
]

abbrev pub is_id : NodeId → NodeId → Bool
is_id = same NodeId-discrete

abbrev pub has_id : NodeId → TraversalCandidate → Bool
has_id id c = is_id c.contact.id id

-- `a.distance < b.distance`
abbrev pub closer : TraversalCandidate → TraversalCandidate → Bool
closer a b = is_less (cmp a.dist b.dist)

abbrev pub with_state : CandidateState → TraversalCandidate → TraversalCandidate
with_state st c = record c { state = st }

abbrev pub new_candidate : NodeId → TraversalContact → TraversalCandidate
new_candidate target c = record { contact = c; state = pending; dist = distance target c.id }

-- The state of the first phase. `running` are the nodes that the tasks of the join set ask.
pub record Traversal : Type 0 where
  pub target : NodeId
  pub search_kind : TraversalKind
  pub phase2_fanout : ℕ
  pub candidates : List TraversalCandidate
  pub seen : List NodeId
  pub running : List NodeId
  pub last_lookup_response_at : Option ℕ

-- `dedup_by`: an entry goes that has the identifier of the entry kept before it.
unfoldable pub dedup_after : TraversalCandidate → List TraversalCandidate → List TraversalCandidate
dedup_after c [] = []
dedup_after c (x ∷ xs) =
    let again = has_id c.contact.id x in
    let rest = dedup_after (if again then c else x) xs in if again then rest else x ∷ rest

unfoldable pub dedup_ids : List TraversalCandidate → List TraversalCandidate
unfolding dedup_after
dedup_ids [] = []
dedup_ids (x ∷ xs) = x ∷ dedup_after x xs

-- The state before the loop of `run_traversal`.
unfoldable pub new_traversal : NodeId → TraversalKind → ℕ → List TraversalContact → Traversal
unfolding dedup_ids
new_traversal target kind fanout initial =
    let cs = dedup_ids (sort_by closer (map (new_candidate target) initial)) in
    record {
      target = target;
      search_kind = kind;
      phase2_fanout = fanout;
      candidates = cs;
      seen = map (λ (c : TraversalCandidate). c.contact.id) cs;
      running = [];
      last_lookup_response_at = none;
    }

-- The first `n` pending candidates become inflight; their identifiers.
unfoldable pub launch_first : ℕ → List TraversalCandidate → List TraversalCandidate × List NodeId
launch_first n [] = ([], [])
launch_first zero (c ∷ cs) = (c ∷ cs, [])
launch_first (suc n) (c ∷ cs) =
    let (rest, ids) = launch_first (if is_pending c then n else suc n) cs in
    if is_pending c then (with_state inflight c ∷ rest, c.contact.id ∷ ids) else (c ∷ rest, ids)

unfoldable pub launch : Traversal → Traversal
unfolding launch_first
launch t =
    let (cs, ids) = launch_first (alpha - count_if is_inflight t.candidates) t.candidates in
    record t { candidates = cs; running = t.running ++ ids }

-- `candidates[idx].state = st` where `position` finds the identifier.
unfoldable pub set_state :
    NodeId → CandidateState → List TraversalCandidate → List TraversalCandidate
set_state id st [] = []
set_state id st (c ∷ cs) =
    let rest = set_state id st cs in if has_id id c then with_state st c ∷ cs else c ∷ rest
