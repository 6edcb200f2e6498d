-- ===== src/Snoop.antt =====
-- crates/overlord-agent-emule/src/snoop_queue.rs: the searches of other peers that were observed, and
-- which of them is replayed next. An instant is a number, counted from an origin that lies before
-- every cutoff that the queue computes. A string is the list of its bytes; the hash maps are
-- association lists, and the loops over them take the order of the list.
pub mod Merge
pub mod Outcome
pub mod Select
pub mod Keys
pub mod Pick
pub mod Rest
pub mod Budget
pub mod Cooldown
mod Tests
use p2p_overlord_agents.Base.{
  ℕ, ◌+◌, ◌-◌, ◌*◌, ◌^◌, min, max, compare, Ordering, Bool, true, false, not, ◌&&◌, ◌||◌, Option,
  none, some, List, [], ◌∷◌, ◌++◌, ltb, leb, ◌==◌, if◌then◌else◌, bool_to_ℕ, ℕ_discrete, keep_if,
  count_if, length, any, head?,
}
use p2p_overlord_agents.Base.Map
use p2p_overlord_agents.Base.Map.{Map}
use p2p_overlord_agents.Base.Sort.{sort_by}
use p2p_overlord_agents.Kad.NodeId.{NodeId, then_cmp, is_less}
use p2p_overlord_agents.Kad.NodeId.Text.{from_str}

abbrev pub Text : Type 0
Text = List ℕ

unfoldable pub Text-discrete : Discrete Text
Text-discrete = hlevel ℕ_discrete

-- The bytes in order, as `str` compares.
unfoldable pub text_cmp : Text → Text → Ordering
text_cmp [] [] = Ordering.eq
text_cmp [] (b ∷ bs) = Ordering.lt
text_cmp (a ∷ as_) [] = Ordering.gt
text_cmp (a ∷ as_) (b ∷ bs) = then_cmp (compare a b) (text_cmp as_ bs)

pub record SnoopQueueConfig : Type 0 where
  pub dedup_window_secs : ℕ
  pub general_max_queries_per_600s : ℕ
  pub general_drain_cooldown_secs : ℕ
  pub source_max_queries_per_600s : ℕ
  pub source_drain_cooldown_secs : ℕ

-- What the three kinds of an entry do not share.
pub data SnoopShape : Type 0 where
  keyword : ℕ → Option Text → SnoopShape
  source : ℕ → ℕ → SnoopShape
  notes : ℕ → SnoopShape

-- The fields that all kinds have are fields here, which are the getters and setters of the source.
pub record SnoopEntry : Type 0 where
  pub logical_key : Text
  pub target : Text
  pub shape : SnoopShape
  pub hit_count : ℕ
  pub first_seen : ℕ
  pub last_seen : ℕ
  pub last_drained_at : Option ℕ

pub record ReplayFeedback : Type 0 where
  pub zero_result_streak : ℕ
  pub last_result_count : ℕ
  pub last_outcome_at : Option ℕ

abbrev pub default_feedback : ReplayFeedback
default_feedback = record { zero_result_streak = 0; last_result_count = 0; last_outcome_at = none }

pub record SnoopQueue : Type 0 where
  pub config : SnoopQueueConfig
  pub entries : Map Text SnoopEntry
  pub replay_feedback : Map Text ReplayFeedback
  pub recent_general_drains : List ℕ
  pub recent_source_drains : List ℕ

unfoldable pub new_snoop_queue : SnoopQueueConfig → SnoopQueue
new_snoop_queue config = record {
  config = config;
  entries = [];
  replay_feedback = [];
  recent_general_drains = [];
  recent_source_drains = [];
}

pub data SnoopFamily : Type 0 where
  keywords sources note_requests : SnoopFamily

unfoldable pub shape_family : SnoopShape → SnoopFamily
shape_family (keyword _ _) = keywords
shape_family (source _ _) = sources
shape_family (notes _) = note_requests

-- `entry_family(entry) == family`
unfoldable pub is_family : SnoopFamily → SnoopEntry → Bool
unfolding shape_family
is_family f e = elim f [
  | keywords ↦ elim (shape_family e.shape) [
    | keywords ↦ true
    | sources ↦ false
    | note_requests ↦ false
  ]
  | sources ↦ elim (shape_family e.shape) [
    | keywords ↦ false
    | sources ↦ true
    | note_requests ↦ false
  ]
  | note_requests ↦ elim (shape_family e.shape) [
    | keywords ↦ false
    | sources ↦ false
    | note_requests ↦ true
  ]
]

unfoldable pub family_count : SnoopQueue → SnoopFamily → ℕ
unfolding is_family
family_count q f = count_if (λ e. is_family f e.1) q.entries

unfoldable pub family_max_queries_per_600s : SnoopQueueConfig → SnoopFamily → ℕ
family_max_queries_per_600s c keywords = c.general_max_queries_per_600s
family_max_queries_per_600s c sources = c.source_max_queries_per_600s
family_max_queries_per_600s c note_requests = c.general_max_queries_per_600s

unfoldable pub family_drain_cooldown_secs : SnoopQueueConfig → SnoopFamily → ℕ
family_drain_cooldown_secs c keywords = c.general_drain_cooldown_secs
family_drain_cooldown_secs c sources = c.source_drain_cooldown_secs
family_drain_cooldown_secs c note_requests = c.general_drain_cooldown_secs

unfoldable pub recent_drains : SnoopFamily → SnoopQueue → List ℕ
recent_drains keywords q = q.recent_general_drains
recent_drains sources q = q.recent_source_drains
recent_drains note_requests q = q.recent_general_drains

unfoldable pub set_recent_drains : SnoopFamily → List ℕ → SnoopQueue → SnoopQueue
set_recent_drains keywords ds q = record q { recent_general_drains = ds }
set_recent_drains sources ds q = record q { recent_source_drains = ds }
set_recent_drains note_requests ds q = record q { recent_general_drains = ds }

-- `TimeDelta::seconds`, in nanoseconds, for the values that it takes.
abbrev pub seconds : ℕ → ℕ
seconds n = min n (2 ^ 63 - 1) * 1_000_000_000

-- The loop pops from the front while the first drain is older than the cutoff.
unfoldable pub pop_old : ℕ → List ℕ → List ℕ
pop_old cutoff [] = []
pop_old cutoff (d ∷ ds) = let rest = pop_old cutoff ds in if ltb d cutoff then rest else d ∷ ds

unfoldable pub prune_recent_drains : ℕ → SnoopFamily → SnoopQueue → SnoopQueue
unfolding pop_old set_recent_drains recent_drains
prune_recent_drains now f q =
    set_recent_drains f (pop_old (now - seconds 600) (recent_drains f q)) q

abbrev pub u32_max : ℕ
u32_max = 2 ^ 32 - 1

-- The later of two drains, where there is one.
unfoldable pub later_drain : Option ℕ → Option ℕ → Option ℕ
later_drain (some l) (some r) = some (max l r)
later_drain (some l) none = some l
later_drain none r = r

unfoldable pub merged_entry : SnoopEntry → SnoopEntry → SnoopEntry
unfolding later_drain
merged_entry existing entry = record existing {
  hit_count = min (existing.hit_count + entry.hit_count) u32_max;
  last_seen = max existing.last_seen entry.last_seen;
  first_seen = min existing.first_seen entry.first_seen;
  last_drained_at = later_drain existing.last_drained_at entry.last_drained_at;
}

-- The queue, whether the shape is new, and the hit count.
unfoldable pub merge_entry : SnoopEntry → SnoopQueue → SnoopQueue × Bool × ℕ
unfolding merged_entry
merge_entry entry q = elim (Map.lookup Text-discrete entry.logical_key q.entries) [
  | some existing ↦
      let e = merged_entry existing entry in
      (
        record q { entries = Map.insert Text-discrete entry.logical_key e q.entries },
        false,
        e.hit_count,
      )
  | none ↦
      (record q { entries = Map.insert Text-discrete entry.logical_key entry q.entries }, true, 1)
]

pub record SnoopRecordOutcome : Type 0 where
  pub is_new : Bool
  pub hit_count : ℕ
  pub queue_depth : ℕ
  pub family_queue_depth : ℕ

-- `record`
unfoldable pub record_entry : SnoopEntry → SnoopQueue → SnoopQueue × SnoopRecordOutcome
unfolding merge_entry family_count shape_family
record_entry entry q =
    let (q', is_new, hits) = merge_entry entry q in
    (
      q',
      record {
        is_new = is_new;
        hit_count = hits;
        queue_depth = length q'.entries;
        family_queue_depth = family_count q' (shape_family entry.shape);
      },
    )

-- Drained since it was last seen.
unfoldable pub is_served : SnoopEntry → Bool
is_served e = elim e.last_drained_at [ none ↦ false | some d ↦ leb e.last_seen d ]

unfoldable pub is_source : SnoopEntry → Bool
unfolding is_family
is_source e = is_family sources e

unfoldable pub should_skip_restored_entry : SnoopEntry → Bool
unfolding is_source is_served
should_skip_restored_entry e = is_source e && (is_served e || leb e.hit_count 1)

unfoldable pub should_evict_zero_yield_source_entry : SnoopEntry → Bool
unfolding is_source is_served
should_evict_zero_yield_source_entry e = is_source e && is_served e

unfoldable pub merge_snapshot : List SnoopEntry → SnoopQueue → SnoopQueue
unfolding should_skip_restored_entry merge_entry
merge_snapshot [] q = q
merge_snapshot (e ∷ es) q =
    merge_snapshot es (if should_skip_restored_entry e then q else (merge_entry e q).0)
