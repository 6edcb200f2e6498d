-- ===== src/Kad/Tracker.antt =====
-- crates/overlord-kad-net/src/tracker.rs: the flood limits on requests that come in, and the record
-- of requests that went out, by which replies are recognised. An instant is a number of nanoseconds,
-- an argument where the source reads the clock; `now.duration_since(t)` is `now - t`, which like the
-- source's is 0 for a later `t`. An `IpAddr` is a number.
pub mod Flood
pub mod Outbound
mod Tests
use p2p_overlord_agents.Base.{
  ℕ, ◌+◌, ◌-◌, ◌*◌, ◌%◌, ◌^◌, min, Bool, true, false, not, ◌&&◌, ◌||◌, Option, none, some, List, [],
  ◌∷◌, ltb, leb, ◌==◌, if◌then◌else◌, ℕ_discrete, find_if, keep_if, remove_first,
}
use p2p_overlord_agents.Base.Map
use p2p_overlord_agents.Base.Map.{Map}

pub data PacketTrackerBucket : Type 0 where
  bootstrap_req hello_req find_node_req search_req publish_key_req : PacketTrackerBucket
  publish_source_req publish_notes_req firewalled_req find_buddy_req : PacketTrackerBucket
  callback_req ping_req search_res default_bucket : PacketTrackerBucket

unfoldable pub Bucket-discrete : Discrete PacketTrackerBucket
Bucket-discrete = hlevel

pub record PacketTrackerKey : Type 0 where
  pub ip : ℕ
  pub bucket : PacketTrackerBucket

unfoldable pub Key-discrete : Discrete PacketTrackerKey
unfolding Bucket-discrete
Key-discrete = hlevel (ℕ_discrete, Bucket-discrete)

pub record PacketTrackerLimit : Type 0 where
  pub max_packets : ℕ
  pub window : ℕ

pub data PacketTrackerAction : Type 0 where
  allow drop massive_drop : PacketTrackerAction

pub record PacketTrackerDecision : Type 0 where
  pub action : PacketTrackerAction
  pub allowed : Bool
  pub observed_packets : ℕ
  pub max_packets : ℕ
  pub window : ℕ

-- The packets counted in the open window, and its start.
pub record Window : Type 0 where
  pub packets : ℕ
  pub start : ℕ

pub record PacketTracker : Type 0 where
  pub counts : Map PacketTrackerKey Window
  pub limits : Map PacketTrackerBucket PacketTrackerLimit
  pub default_limit : PacketTrackerLimit

abbrev new_limit : ℕ → ℕ → PacketTrackerLimit
new_limit max_packets window = record { max_packets = max_packets; window = window }

unfoldable pub new_tracker : ℕ → ℕ → ℕ → ℕ → PacketTracker
new_tracker max_per_window search_res_max_per_window window request_window = record {
  counts = [];
  limits =
      (bootstrap_req, new_limit 2 request_window)
      ∷ (hello_req, new_limit 3 request_window)
      ∷ (find_node_req, new_limit 10 request_window)
      ∷ (search_req, new_limit 3 request_window)
      ∷ (publish_key_req, new_limit 4 request_window)
      ∷ (publish_source_req, new_limit 3 request_window)
      ∷ (publish_notes_req, new_limit 2 request_window)
      ∷ (firewalled_req, new_limit 2 request_window)
      ∷ (find_buddy_req, new_limit 2 request_window)
      ∷ (callback_req, new_limit 1 request_window)
      ∷ (ping_req, new_limit 2 request_window)
      ∷ (search_res, new_limit search_res_max_per_window window)
      ∷ [];
  default_limit = new_limit max_per_window window;
}

abbrev or_limit : Option PacketTrackerLimit → PacketTrackerLimit → PacketTrackerLimit
or_limit none d = d
or_limit (some l) d = l

unfoldable pub limit_for_bucket : PacketTracker → PacketTrackerBucket → PacketTrackerLimit
limit_for_bucket t bucket = or_limit (Map.lookup Bucket-discrete bucket t.limits) t.default_limit

abbrev pub u32_max : ℕ
u32_max = 2 ^ 32 - 1

-- The window that a packet at `now` counts in: the open one, or a new one where there is none or it
-- is over.
unfoldable pub window_at : ℕ → PacketTrackerLimit → Option Window → Window
window_at now limit none = record { packets = 0; start = now }
window_at now limit (some w) =
    if leb limit.window (now - w.start) then record { packets = 0; start = now } else w

unfoldable pub action_for : PacketTrackerLimit → ℕ → PacketTrackerAction
action_for limit observed =
    if ltb (min (limit.max_packets * 4) u32_max) observed
    then massive_drop
    else if ltb limit.max_packets observed
    then drop
    else allow

is_allow : PacketTrackerAction → Bool
is_allow allow = true
is_allow drop = false
is_allow massive_drop = false

unfoldable pub decide_packet : PacketTrackerLimit → ℕ → PacketTrackerDecision
unfolding is_allow action_for
decide_packet limit observed = record {
  action = action_for limit observed;
  allowed = is_allow (action_for limit observed);
  observed_packets = observed;
  max_packets = limit.max_packets;
  window = limit.window;
}

-- `entry.0 += 1` on a `u32`, which wraps.
unfoldable pub record_and_check :
    ℕ → PacketTracker → PacketTrackerKey → PacketTracker × PacketTrackerDecision
unfolding window_at decide_packet
record_and_check now t key =
    let limit = limit_for_bucket t key.bucket in
    let w = window_at now limit (Map.lookup Key-discrete key t.counts) in
    let observed = (w.packets + 1) % 2 ^ 32 in
    (
      record t {
        counts =
            Map.insert Key-discrete key (record { packets = observed; start = w.start }) t.counts;
      },
      decide_packet limit observed,
    )

-- `Duration::MAX`, in nanoseconds.
abbrev pub duration_max : ℕ
duration_max = 2 ^ 64 * 1_000_000_000 - 1

unfoldable pub is_fresh : ℕ → PacketTracker → PacketTrackerKey × Window → Bool
is_fresh now t (key, w) =
    ltb (now - w.start) (min ((limit_for_bucket t key.bucket).window * 2) duration_max)

unfoldable pub prune : ℕ → PacketTracker → PacketTracker
prune now t = record t { counts = keep_if (is_fresh now t) t.counts }

pub record OutboundRequestEntry : Type 0 where
  pub inserted_at : ℕ
  pub ip : ℕ
  pub opcode : ℕ

-- The newest entry first.
pub record OutboundRequestTracker : Type 0 where
  pub entries : List OutboundRequestEntry
  pub window : ℕ

unfoldable pub new_outbound : ℕ → OutboundRequestTracker
new_outbound window = record { entries = []; window = window }

-- BOOTSTRAP_REQ, HELLO_REQ, HELLO_RES, REQ, SEARCH_NOTES_REQ, PUBLISH_KEY_REQ, PUBLISH_SOURCE_REQ,
-- PUBLISH_NOTES_REQ, FINDBUDDY_REQ, CALLBACK_REQ and PING of
-- crates/overlord-kad-proto/src/constants.rs.
unfoldable pub tracks_outbound_request_opcode : ℕ → Bool
tracks_outbound_request_opcode opcode =
    opcode == 0x01
    || opcode == 0x11
    || opcode == 0x19
    || opcode == 0x21
    || opcode == 0x35
    || opcode == 0x43
    || opcode == 0x44
    || opcode == 0x45
    || opcode == 0x51
    || opcode == 0x52
    || opcode == 0x60

abbrev pub is_expired : ℕ → ℕ → OutboundRequestEntry → Bool
is_expired now window e = leb window (now - e.inserted_at)

-- The loop pops from the back while the last entry is over: an entry goes when all behind it went.
unfoldable pub pop_expired : ℕ → ℕ → List OutboundRequestEntry → List OutboundRequestEntry
pop_expired now window [] = []
pop_expired now window (e ∷ es) = elim (pop_expired now window es) [
  | [] ↦ if is_expired now window e then [] else e ∷ []
  | x ∷ xs ↦ e ∷ x ∷ xs
]

unfoldable pub prune_outbound : ℕ → OutboundRequestTracker → OutboundRequestTracker
prune_outbound now t = record t { entries = pop_expired now t.window t.entries }

-- `record`
unfoldable pub record_request : ℕ → OutboundRequestTracker → ℕ → ℕ → OutboundRequestTracker
unfolding prune_outbound
record_request now t ip opcode =
    let pruned = prune_outbound now t in
    if tracks_outbound_request_opcode opcode
    then record pruned {
      entries = record { inserted_at = now; ip = ip; opcode = opcode } ∷ pruned.entries;
    }
    else pruned

abbrev pub matches : ℕ → ℕ → OutboundRequestEntry → Bool
matches ip opcode e = e.ip == ip && e.opcode == opcode

unfoldable pub contains : ℕ → OutboundRequestTracker → ℕ → ℕ → Bool → OutboundRequestTracker × Bool
unfolding prune_outbound
contains now t ip opcode remove =
    let pruned = prune_outbound now t in
    elim (find_if (matches ip opcode) pruned.entries) [
      | none ↦ (pruned, false)
      | some e ↦ (
        if remove
            then record pruned { entries = remove_first (matches ip opcode) pruned.entries }
            else pruned,
        true,
      )
    ]

-- Each opcode comes with the instant at which the clock is read for it.
unfoldable pub find_any :
    OutboundRequestTracker → ℕ → List (ℕ × ℕ) → Bool → OutboundRequestTracker × Option ℕ
find_any t ip [] remove = (t, none)
find_any t ip ((now, opcode) ∷ opcodes) remove =
    let (t', hit) = contains now t ip opcode remove in
    elim hit [ true ↦ (t', some opcode) | false ↦ find_any t' ip opcodes remove ]
