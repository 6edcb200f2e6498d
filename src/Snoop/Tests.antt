-- ===== src/Snoop/Tests.antt =====
-- Runs of the snoop queue at concrete values, and the theorems about it applied there.
use p2p_overlord_agents.Kad.Packet.{SearchSourceReq}
use p2p_overlord_agents.Base.{
  ℕ, ◌-◌, ◌≤◌, ◌≡◌, ◌≢◌, refl, none, some, [], ◌∷◌, arith, if◌then◌else◌,
}
use p2p_overlord_agents.Base.Map
use p2p_overlord_agents.Snoop.{
  Text, Text-discrete, SnoopQueue, SnoopQueueConfig, SnoopEntry, source, sources, new_snoop_queue,
  seconds, merge_entry, family_max_queries_per_600s,
}
use p2p_overlord_agents.Snoop.Select.{
  ScheduledSnoopRequest, select_next_source_request, source_request, select_best_source_candidate,
}
use p2p_overlord_agents.Snoop.Outcome.{
  record_replay_outcome, is_forgotten, grown, record_replay_outcome_lem,
}
use p2p_overlord_agents.Kad.NodeId.{zero_id, from_be_bytes}
use p2p_overlord_agents.Kad.NodeId.Text.{from_str}
use p2p_overlord_agents.Base.Sort.{sort_by}
use p2p_overlord_agents.Snoop.Cooldown.{IsReady, Drains, select_next_source_request-IsReady}
use p2p_overlord_agents.Snoop.Keys.{IsKeyed, insert-IsKeyed}
use p2p_overlord_agents.Snoop.Budget.{drains_since, given, given-budget}

abbrev config : SnoopQueueConfig
config = record {
  dedup_window_secs = 300;
  general_max_queries_per_600s = 4;
  general_drain_cooldown_secs = 60;
  source_max_queries_per_600s = 2;
  source_drain_cooldown_secs = 60;
}

-- The text of an identifier: 32 times the digit 0.
abbrev zero_text : Text
zero_text =
    0x30 ∷ 0x30 ∷ 0x30 ∷ 0x30 ∷ 0x30 ∷ 0x30 ∷ 0x30 ∷ 0x30 ∷ 0x30 ∷ 0x30 ∷ 0x30 ∷ 0x30 ∷ 0x30 ∷ 0x30
    ∷ 0x30 ∷ 0x30 ∷ 0x30 ∷ 0x30 ∷ 0x30 ∷ 0x30 ∷ 0x30 ∷ 0x30 ∷ 0x30 ∷ 0x30 ∷ 0x30 ∷ 0x30 ∷ 0x30
    ∷ 0x30 ∷ 0x30 ∷ 0x30 ∷ 0x30 ∷ 0x30 ∷ []

abbrev entry_at : ℕ → SnoopEntry
entry_at seen = record {
  logical_key = 0x61 ∷ [];
  target = zero_text;
  shape = source 0 700;
  hit_count = 1;
  first_seen = seen;
  last_seen = seen;
  last_drained_at = none;
}

-- One entry, drained never.
abbrev queue1 : SnoopQueue
queue1 = (merge_entry (entry_at (seconds 900)) (new_snoop_queue config)).0

given-budget_example :
    given sources source_request select_best_source_candidate
      (seconds 1_000 ∷ seconds 1_100 ∷ seconds 1_200 ∷ [])
      queue1
    ≤ family_max_queries_per_600s queue1.config sources
      - drains_since (seconds 1_000) sources queue1
given-budget_example =
    given-budget sources source_request select_best_source_candidate (seconds 1_000)
      (seconds 1_000 ∷ seconds 1_100 ∷ seconds 1_200 ∷ []) queue1
      ((omega arith, omega arith), ((omega arith, omega arith), ((omega arith, omega arith), tt)))

replay_outcome_example :
    ((j : Text)
      → 0x61 ∷ [] ≢ j
      → (Map.lookup Text-discrete j (record_replay_outcome (0x61 ∷ []) 7 3 queue1).entries
          ≡ Map.lookup Text-discrete j queue1.entries)
        × (Map.lookup Text-discrete j (record_replay_outcome (0x61 ∷ []) 7 3 queue1).replay_feedback
            ≡ Map.lookup Text-discrete j queue1.replay_feedback))
    × (Map.lookup Text-discrete (0x61 ∷ []) (record_replay_outcome (0x61 ∷ []) 7 3 queue1).entries
        ≡ (if is_forgotten (0x61 ∷ []) 3 queue1
            then none
            else Map.lookup Text-discrete (0x61 ∷ []) queue1.entries))
    × (Map.lookup Text-discrete
          (0x61 ∷ [])
          (record_replay_outcome (0x61 ∷ []) 7 3 queue1).replay_feedback
        ≡ (if is_forgotten (0x61 ∷ []) 3 queue1 then none else some (grown (0x61 ∷ []) 7 queue1)))
replay_outcome_example = record_replay_outcome_lem (0x61 ∷ []) 7 3 queue1

-- The same entry, in a queue that is written out.
abbrev queue2 : SnoopQueue
queue2 = record {
  config = config;
  entries = (0x61 ∷ [], entry_at (seconds 900)) ∷ [];
  replay_feedback = [];
  recent_general_drains = [];
  recent_source_drains = [];
}

abbrev source_scheduled : ScheduledSnoopRequest SearchSourceReq
source_scheduled = record {
  logical_key = 0x61 ∷ [];
  request = record { target = zero_id; start_position = 0; size = 700 };
}

source_selected : (select_next_source_request (seconds 1_000) queue2).1 ≡ some source_scheduled
unfolding select_next_source_request family_max_queries_per_600s sort_by from_str Map.lookup
    from_be_bytes
source_selected = refl

queue2-IsKeyed : IsKeyed queue2.entries
unfolding Map.lookup Map.insert
queue2-IsKeyed =
    insert-IsKeyed (entry_at (seconds 900)) (0x61 ∷ []) [] refl
      (record { is_map = λ k. omega arith; under_key = λ k e h. ground (arith, h) })

cooldown_example :
    (r : IsReady sources source_request (seconds 1_000) queue2 queue2.entries source_scheduled)
    × (Map.lookup Text-discrete (0x61 ∷ []) queue2.entries ≡ some r.entry)
    × Drains
        (seconds 1_000)
        (0x61 ∷ [])
        r.entry
        queue2.entries
        (select_next_source_request (seconds 1_000) queue2).0.entries
cooldown_example =
    select_next_source_request-IsReady (seconds 1_000) queue2 source_scheduled queue2-IsKeyed
      source_selected
