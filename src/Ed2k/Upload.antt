-- ===== src/Ed2k/Upload.antt =====
-- crates/overlord-agent-emule/src/ed2k_transfer/upload_queue.rs: upload slots and the queue of peers
-- that wait for one. An instant is a number of nanoseconds and an argument of each operation;
-- `now.duration_since(t)` is `now - t`. An IP address, a user hash and a file hash are numbers.
-- The hash map of sessions is a list with the key in each entry; keys compare as the source's
-- `PartialEq` does, without the friend slot.
pub mod Invariant
pub mod Waiting
pub mod Promote
pub mod Bounds
pub mod Begin
pub mod Operations
pub mod Handle
pub mod Reach
use p2p_overlord_agents.Base.{
  ℕ, zero, suc, ◌+◌, ◌-◌, ◌*◌, ◌/◌, ◌^◌, ◌≤◌, min, Bool, true, false, not, ◌&&◌, ◌||◌, Option, none,
  some, List, [], ◌∷◌, ◌++◌, ltb, leb, ◌==◌, if◌then◌else◌, same, ℕ_discrete, find_if, keep_if,
  remove_first, count_if, length, head?, last?,
}
use p2p_overlord_agents.Base.Sort.{sort_by}

pub record Ed2kUploadQueueConfig : Type 0 where
  pub active_slots : ℕ
  pub waiting_capacity : ℕ
  pub waiting_timeout : ℕ
  pub granted_timeout : ℕ
  pub upload_timeout : ℕ

-- `Duration::from_secs`
abbrev pub from_secs : ℕ → ℕ
from_secs n = n * 1_000_000_000

abbrev pub default_config : Ed2kUploadQueueConfig
default_config = record {
  active_slots = 3;
  waiting_capacity = 512;
  waiting_timeout = from_secs 180;
  granted_timeout = from_secs 30;
  upload_timeout = from_secs 90;
}

pub record Ed2kUploadPeerIdentity : Type 0 where
  pub ip : ℕ
  pub tcp_port : ℕ
  pub user_hash : Option ℕ
  pub client_id : Option ℕ
  pub friend_slot : Bool

-- The fields that `eq` and `hash` read.
pub record PeerRef : Type 0 where
  pub ip : ℕ
  pub tcp_port : ℕ
  pub user_hash : Option ℕ
  pub client_id : Option ℕ

unfoldable pub PeerRef-discrete : Discrete PeerRef
PeerRef-discrete = hlevel ℕ_discrete

abbrev pub peer_ref : Ed2kUploadPeerIdentity → PeerRef
peer_ref p = record {
  ip = p.ip;
  tcp_port = p.tcp_port;
  user_hash = p.user_hash;
  client_id = p.client_id;
}

pub record Ed2kUploadSessionKey : Type 0 where
  pub peer : Ed2kUploadPeerIdentity
  pub file_hash : ℕ

pub record KeyRef : Type 0 where
  pub peer : PeerRef
  pub file_hash : ℕ

unfoldable pub KeyRef-discrete : Discrete KeyRef
unfolding PeerRef-discrete
KeyRef-discrete = hlevel (PeerRef-discrete, ℕ_discrete)

abbrev pub key_ref : Ed2kUploadSessionKey → KeyRef
key_ref k = record { peer = peer_ref k.peer; file_hash = k.file_hash }

pub record Ed2kUploadSessionHandle : Type 0 where
  pub key : Ed2kUploadSessionKey
  pub connection_id : ℕ

pub data Ed2kUploadSessionStatus : Type 0 where
  waiting : ℕ → Ed2kUploadSessionStatus
  granted : Ed2kUploadSessionStatus
  stale : Ed2kUploadSessionStatus

pub data Phase : Type 0 where
  waits holds uploads : Phase

-- An entry of the hash map, with its key.
pub record Session : Type 0 where
  pub key : Ed2kUploadSessionKey
  pub phase : Phase
  pub connection_id : ℕ
  pub queued_at : ℕ
  pub last_activity : ℕ
  pub waiting_sequence : ℕ

pub record Queue : Type 0 where
  pub config : Ed2kUploadQueueConfig
  pub sessions : List Session
  pub waiting_order : List Ed2kUploadSessionKey
  pub next_waiting_sequence : ℕ

unfoldable pub new_queue : Ed2kUploadQueueConfig → Queue
new_queue config = record {
  config = config;
  sessions = [];
  waiting_order = [];
  next_waiting_sequence = 1;
}

-- `key == other`
abbrev pub is_key : KeyRef → Ed2kUploadSessionKey → Bool
is_key r k = same KeyRef-discrete (key_ref k) r

abbrev pub has_key : KeyRef → Session → Bool
has_key r s = is_key r s.key

abbrev pub has_peer : PeerRef → Session → Bool
has_peer r s = same PeerRef-discrete (peer_ref s.key.peer) r

abbrev pub is_waiting : Phase → Bool
is_waiting waits = true
is_waiting holds = false
is_waiting uploads = false

abbrev pub is_active : Session → Bool
is_active s = not (is_waiting s.phase)

-- `sessions.get(key)`
abbrev pub session_at : Queue → Ed2kUploadSessionKey → Option Session
session_at q key = find_if (has_key (key_ref key)) q.sessions

unfoldable pub replace_first : (Session → Bool) → (Session → Session) → List Session → List Session
replace_first p f [] = []
replace_first p f (s ∷ ss) = let rest = replace_first p f ss in if p s then f s ∷ ss else s ∷ rest

-- `waiting_seconds * 7`, with the bonus of a friend slot.
unfoldable pub is_low_id_client_id : ℕ → Bool
is_low_id_client_id id = not (id == 0) && ltb id 0x0100_0000

unfoldable pub has_low_id : Option ℕ → Bool
unfolding is_low_id_client_id
has_low_id none = false
has_low_id (some id) = is_low_id_client_id id

unfoldable pub waiting_score : Ed2kUploadSessionKey → Session → ℕ → ℕ
unfolding has_low_id
waiting_score key s now =
    (now - s.queued_at) / 1_000_000_000 * 7
    + (if key.peer.friend_slot && not (has_low_id key.peer.client_id) then 1_000_000_000 else 0)

-- A waiting key with its session.
abbrev pub Waiter : Type 0
Waiter = Ed2kUploadSessionKey × Session

-- The higher score is first; of equal scores, the lower sequence number.
unfoldable pub ahead : ℕ → Waiter → Waiter → Bool
ahead now (k, s) (j, r) =
    ltb (waiting_score j r now) (waiting_score k s now)
    || waiting_score j r now == waiting_score k s now && ltb s.waiting_sequence r.waiting_sequence

unfoldable pub waiters : List Session → List Ed2kUploadSessionKey → List Waiter
waiters ss [] = []
waiters ss (k ∷ ks) =
    let rest = waiters ss ks in
    elim (find_if (has_key (key_ref k)) ss) [
      | none ↦ rest
      | some s ↦ if is_waiting s.phase then (k, s) ∷ rest else rest
    ]

-- `ranked_waiting_keys`
unfoldable pub ranked : Queue → ℕ → List Waiter
unfolding waiters ahead
ranked q now = sort_by (ahead now) (waiters q.sessions q.waiting_order)

abbrev waiter_key : Option Waiter → Option Ed2kUploadSessionKey
waiter_key none = none
waiter_key (some (k, s)) = some k

unfoldable pub best_waiting_key : Queue → ℕ → Option Ed2kUploadSessionKey
unfolding ranked
best_waiting_key q now = waiter_key (head? (ranked q now))

unfoldable pub worst_waiting_key : Queue → ℕ → Option Ed2kUploadSessionKey
unfolding ranked
worst_waiting_key q now = waiter_key (last? (ranked q now))

unfoldable pub position : KeyRef → List Waiter → Option ℕ
position r [] = none
position r ((k, s) ∷ ws) = elim (is_key r k) [
  | true ↦ some 0
  | false ↦ elim (position r ws) [ none ↦ none | some n ↦ some (suc n) ]
]

unfoldable pub rank_for_key : Queue → Ed2kUploadSessionKey → ℕ → ℕ
unfolding ranked position
rank_for_key q key now = elim (position (key_ref key) (ranked q now)) [
  | none ↦ 0
  | some n ↦ min (n + 1) (2 ^ 16 - 1)
]

unfoldable pub status_of : Option Session → ℕ → Ed2kUploadSessionStatus
status_of none rank = stale
status_of (some s) rank = if is_waiting s.phase then waiting rank else granted

unfoldable pub status_for_key : Queue → Ed2kUploadSessionKey → ℕ → Ed2kUploadSessionStatus
unfolding status_of rank_for_key
status_for_key q key now = status_of (session_at q key) (rank_for_key q key now)

abbrev pub active_session_count : Queue → ℕ
active_session_count q = count_if is_active q.sessions

-- `sessions.remove(&key)` and `waiting_order.retain(|queued| queued != &key)`, which is
-- `remove_waiting_key` and the body of the loop of `reap_expired_sessions`.
unfoldable pub drop_session : KeyRef → Queue → Queue
drop_session r q = record q {
  sessions = remove_first (has_key r) q.sessions;
  waiting_order = keep_if (λ k. not (is_key r k)) q.waiting_order;
}

unfoldable pub grant : ℕ → Session → Session
grant now s = record s { phase = holds; last_activity = now }

-- One round of the loop of `promote_waiters`.
unfoldable pub promote_key : ℕ → Ed2kUploadSessionKey → Queue → Queue
unfolding grant replace_first
promote_key now key q = record q {
  sessions = replace_first (has_key (key_ref key)) (grant now) q.sessions;
  waiting_order = keep_if (λ k. not (is_key (key_ref key) k)) q.waiting_order;
}

unfoldable pub promote_loop : ℕ → ℕ → Queue → Queue
unfolding promote_key best_waiting_key
promote_loop zero now q = q
promote_loop (suc fuel) now q = elim (ltb (active_session_count q) q.config.active_slots) [
  | false ↦ q
  | true ↦ elim (best_waiting_key q now) [
    | none ↦ q
    | some key ↦ promote_loop fuel now (promote_key now key q)
  ]
]

-- Each round takes a key off the queue, so as many rounds as there are keys are enough.
unfoldable pub promote_waiters : ℕ → Queue → Queue
unfolding promote_loop
promote_waiters now q = promote_loop (length q.waiting_order) now q

unfoldable pub timeout_of : Ed2kUploadQueueConfig → Phase → ℕ
timeout_of c waits = c.waiting_timeout
timeout_of c holds = c.granted_timeout
timeout_of c uploads = c.upload_timeout

abbrev pub is_expired : ℕ → Ed2kUploadQueueConfig → Session → Bool
is_expired now c s = ltb (timeout_of c s.phase) (now - s.last_activity)

unfoldable pub drop_sessions : List Session → Queue → Queue
unfolding drop_session
drop_sessions [] q = q
drop_sessions (s ∷ ss) q = drop_sessions ss (drop_session (key_ref s.key) q)

unfoldable pub reap_expired_sessions : ℕ → Queue → Queue
unfolding drop_sessions promote_waiters timeout_of
reap_expired_sessions now q =
    promote_waiters now (drop_sessions (keep_if (is_expired now q.config) q.sessions) q)

unfoldable pub trim_loop : ℕ → ℕ → Queue → Queue
unfolding drop_session worst_waiting_key
trim_loop zero now q = q
trim_loop (suc fuel) now q = elim (ltb q.config.waiting_capacity (length q.waiting_order)) [
  | false ↦ q
  | true ↦ elim (worst_waiting_key q now) [
    | none ↦ q
    | some key ↦ trim_loop fuel now (drop_session (key_ref key) q)
  ]
]

unfoldable pub trim_waiting_queue : ℕ → Queue → Queue
unfolding trim_loop
trim_waiting_queue now q = trim_loop (length q.waiting_order) now q

-- `sessions.insert(key, session)`, at a key that the map does not hold.
abbrev pub insert_session : Session → List Session → List Session
insert_session s ss = s ∷ remove_first (has_key (key_ref s.key)) ss

unfoldable pub replace_waiting_key :
    KeyRef → Ed2kUploadSessionKey → List Ed2kUploadSessionKey → List Ed2kUploadSessionKey
replace_waiting_key old new [] = []
replace_waiting_key old new (k ∷ ks) =
    let rest = replace_waiting_key old new ks in if is_key old k then new ∷ ks else k ∷ rest

-- The session of a peer that comes back: it keeps its phase, its place and its sequence number. The
-- session that the source takes out under `existing_key` is the one whose key was found.
unfoldable pub rebind : Ed2kUploadSessionKey → ℕ → ℕ → Session → Queue → Queue
unfolding replace_waiting_key
rebind key connection_id now s q = record q {
  sessions =
      insert_session (record s { key = key; connection_id = connection_id; last_activity = now })
        (remove_first (has_key (key_ref s.key)) q.sessions);
  waiting_order =
      if is_waiting s.phase
      then replace_waiting_key (key_ref s.key) key q.waiting_order
      else q.waiting_order;
}

-- `next_waiting_sequence.saturating_add(1)`
abbrev pub u64_max : ℕ
u64_max = 2 ^ 64 - 1

abbrev new_session : Phase → Ed2kUploadSessionKey → ℕ → ℕ → ℕ → Session
new_session phase key connection_id now sequence = record {
  key = key;
  phase = phase;
  connection_id = connection_id;
  queued_at = now;
  last_activity = now;
  waiting_sequence = sequence;
}

-- A peer without a session: it gets a slot that is free, or the last place of the queue.
unfoldable pub enter : Ed2kUploadSessionKey → ℕ → ℕ → Queue → Queue
enter key connection_id now q =
    let free = ltb (active_session_count q) q.config.active_slots in
    record q {
      sessions =
          insert_session
            (new_session (if free then holds else waits) key connection_id now
              q.next_waiting_sequence)
            q.sessions;
      waiting_order = if free then q.waiting_order else q.waiting_order ++ (key ∷ []);
      next_waiting_sequence = min (q.next_waiting_sequence + 1) u64_max;
    }

unfoldable pub begin_session :
    Ed2kUploadSessionKey → ℕ → ℕ → Queue → Queue × Ed2kUploadSessionStatus
unfolding rebind enter reap_expired_sessions trim_waiting_queue status_for_key
begin_session key connection_id now q0 =
    let q = reap_expired_sessions now q0 in
    elim (find_if (has_peer (peer_ref key.peer)) q.sessions) [
      | some s ↦ let q' = rebind key connection_id now s q in (q', status_for_key q' key now)
      | none ↦
          let q' = trim_waiting_queue now (enter key connection_id now q) in
          (q', status_for_key q' key now)
    ]

abbrev pub touch : ℕ → Session → Session
touch now s = record s { last_activity = now }

abbrev pub start_upload : ℕ → Session → Session
start_upload now s = record s { last_activity = now; phase = uploads }

unfoldable pub update_session : KeyRef → (Session → Session) → Queue → Queue
unfolding replace_first
update_session r f q = record q { sessions = replace_first (has_key r) f q.sessions }

-- The session of a handle, if it is still bound to the handle's connection.
unfoldable pub bound_session : Ed2kUploadSessionHandle → Queue → Option Session
bound_session h q = elim (session_at q h.key) [
  | none ↦ none
  | some s ↦ if s.connection_id == h.connection_id then some s else none
]

unfoldable pub poll_session :
    Ed2kUploadSessionHandle → ℕ → Bool → Queue → Queue × Ed2kUploadSessionStatus
unfolding bound_session update_session reap_expired_sessions status_for_key
poll_session h now refresh_activity q0 =
    let q = reap_expired_sessions now q0 in
    elim (bound_session h q) [
      | none ↦ (q, stale)
      | some s ↦
          let q' = if refresh_activity then update_session (key_ref h.key) (touch now) q else q in
          (q', status_for_key q' h.key now)
    ]

unfoldable pub note_request_parts :
    Ed2kUploadSessionHandle → ℕ → Queue → Queue × Ed2kUploadSessionStatus
unfolding bound_session update_session reap_expired_sessions status_for_key
note_request_parts h now q0 =
    let q = reap_expired_sessions now q0 in
    elim (bound_session h q) [
      | none ↦ (q, stale)
      | some s ↦
          if is_active s
          then (update_session (key_ref h.key) (start_upload now) q, granted)
          else (let q' = update_session (key_ref h.key) (touch now) q in
              (q', status_for_key q' h.key now))
    ]

unfoldable pub release_session : Ed2kUploadSessionHandle → ℕ → Queue → Queue
unfolding bound_session reap_expired_sessions promote_waiters
release_session h now q = elim (bound_session h q) [
  | none ↦ q
  | some s ↦ promote_waiters now (
      reap_expired_sessions now (record q {
        sessions = remove_first (has_key (key_ref h.key)) q.sessions;
        waiting_order =
            if is_waiting s.phase
            then keep_if (λ k. not (is_key (key_ref h.key) k)) q.waiting_order
            else q.waiting_order;
      }))
]
