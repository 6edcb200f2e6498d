-- ===== src/Snoop/Select.antt =====
-- snoop_queue.rs, `select_next_keyword_request`, `select_next_source_request` and
-- `select_next_notes_request`. The three have one body, up to the request that an entry gives and the
-- choice among the candidates; that body is `select_next`. `decode_hex` is `hex::decode`.
use p2p_overlord_agents.Base.{
  ℕ, ◌+◌, ◌-◌, ◌*◌, ◌^◌, min, compare, Ordering, Bool, true, false, not, ◌||◌, Option, none, some,
  List, [], ◌∷◌, ◌++◌, ltb, leb, ◌==◌, if◌then◌else◌, bool_to_ℕ, keep_if, length, any, head?,
}
use p2p_overlord_agents.Base.Map
use p2p_overlord_agents.Base.Map.{Map}
use p2p_overlord_agents.Base.Sort.{sort_by}
use p2p_overlord_agents.Kad.Packet.{SearchKeyReq, SearchSourceReq, SearchNotesReq}
use p2p_overlord_agents.Kad.NodeId.{then_cmp, is_less}
use p2p_overlord_agents.Kad.NodeId.Text.{from_str}
use p2p_overlord_agents.Snoop.{
  Text, Text-discrete, text_cmp, SnoopQueue, SnoopEntry, keyword, source, notes, SnoopFamily,
  keywords, sources, note_requests, ReplayFeedback, default_feedback, family_max_queries_per_600s,
  seconds, family_drain_cooldown_secs, recent_drains, set_recent_drains, prune_recent_drains,
  u32_max,
}

pub record ScheduledSnoopRequest (R : Type 0) : Type 0 where
  pub logical_key : Text
  pub request : R

pub record ReplayCandidate (R : Type 0) : Type 0 where
  pub scheduled : ScheduledSnoopRequest R
  pub hit_count : ℕ
  pub last_seen : ℕ
  pub zero_result_streak : ℕ
  pub last_result_count : ℕ
  pub observed_after_outcome : Bool

-- The payload of a keyword request: empty where there is none, and no request where it is no text of
-- hexadecimal digits.
unfoldable pub decoded_payload : (Text → Option (List ℕ)) → Option Text → Option (List ℕ)
decoded_payload decode_hex none = some []
decoded_payload decode_hex (some text) = decode_hex text

unfoldable pub keyword_request : (Text → Option (List ℕ)) → SnoopEntry → Option SearchKeyReq
unfolding decoded_payload
keyword_request decode_hex e = elim e.shape [
  | keyword start payload_hex ↦ elim (from_str e.target) [
    | none ↦ none
    | some target ↦ elim (decoded_payload decode_hex payload_hex) [
      | none ↦ none
      | some payload ↦
          some (record { target = target; start_position = start; restrictive_payload = payload })
    ]
  ]
  | source start size ↦ none
  | notes size ↦ none
]

unfoldable pub source_request : SnoopEntry → Option SearchSourceReq
source_request e = elim e.shape [
  | keyword start payload_hex ↦ none
  | source start size ↦ if size == 0 then none else elim (from_str e.target) [
    | none ↦ none
    | some target ↦ some (record { target = target; start_position = start; size = size })
  ]
  | notes size ↦ none
]

unfoldable pub notes_request : SnoopEntry → Option SearchNotesReq
notes_request e = elim e.shape [
  | keyword start payload_hex ↦ none
  | source start size ↦ none
  | notes size ↦ if size == 0 then none else elim (from_str e.target) [
    | none ↦ none
    | some target ↦ some (record { target = target; size = size })
  ]
]

-- `left.cmp(&right)` on `bool`
abbrev bool_cmp : Bool → Bool → Ordering
bool_cmp a b = compare (bool_to_ℕ a) (bool_to_ℕ b)

-- What `candidate_cmp`, `notes_candidate_cmp` and the tail of `source_candidate_cmp` compare.
unfoldable pub demand_cmp : {R : Type 0} → ReplayCandidate R → ReplayCandidate R → Ordering
demand_cmp l r = then_cmp (compare l.zero_result_streak r.zero_result_streak) (
    then_cmp (compare r.last_result_count l.last_result_count) (
      then_cmp (compare r.hit_count l.hit_count) (
        then_cmp (compare r.last_seen l.last_seen)
          (text_cmp l.scheduled.logical_key r.scheduled.logical_key))))

unfoldable pub candidate_cmp : {R : Type 0} → ReplayCandidate R → ReplayCandidate R → Ordering
unfolding demand_cmp
candidate_cmp l r =
    then_cmp (bool_cmp r.observed_after_outcome l.observed_after_outcome) (demand_cmp l r)

unfoldable pub source_candidate_is_high_quality : {R : Type 0} → ReplayCandidate R → Bool
source_candidate_is_high_quality c = leb 2 c.hit_count || ltb 0 c.last_result_count

unfoldable pub source_candidate_cmp :
    {R : Type 0} → ReplayCandidate R → ReplayCandidate R → Ordering
unfolding demand_cmp source_candidate_is_high_quality
source_candidate_cmp l r = then_cmp (bool_cmp r.observed_after_outcome l.observed_after_outcome) (
    then_cmp (bool_cmp (source_candidate_is_high_quality r) (source_candidate_is_high_quality l))
      (demand_cmp l r))

-- The first of the sorted recent candidates, or else of the sorted stale ones.
unfoldable pub select_sorted :
    {R : Type 0}
    → (ReplayCandidate R → ReplayCandidate R → Ordering)
    → List (ReplayCandidate R)
    → List (ReplayCandidate R)
    → Option (ReplayCandidate R)
select_sorted cmp recent stale = elim (head? (sort_by (λ l r. is_less (cmp l r)) recent)) [
  | some c ↦ some c
  | none ↦ head? (sort_by (λ l r. is_less (cmp l r)) stale)
]

unfoldable pub select_best_source_candidate :
    {R : Type 0} → List (ReplayCandidate R) → List (ReplayCandidate R) → Option (ReplayCandidate R)
unfolding select_sorted source_candidate_is_high_quality
select_best_source_candidate {R} recent stale =
    let promoted =
      any source_candidate_is_high_quality recent || any source_candidate_is_high_quality stale in
    let keep : List (ReplayCandidate R) → List (ReplayCandidate R) =
      λ cs. if promoted then keep_if source_candidate_is_high_quality cs else cs in
    select_sorted source_candidate_cmp (keep recent) (keep stale)

unfoldable pub feedback_of : SnoopQueue → Text → ReplayFeedback
feedback_of q key = elim (Map.lookup Text-discrete key q.replay_feedback) [
  | none ↦ default_feedback
  | some f ↦ f
]

-- `last_outcome_at.is_none_or(|t| last_seen > t)`
unfoldable pub seen_after : ℕ → Option ℕ → Bool
seen_after last_seen none = true
seen_after last_seen (some t) = ltb t last_seen

unfoldable pub replay_cooldown_cutoff : ℕ → ℕ → ℕ → SnoopEntry → ReplayFeedback → ℕ
unfolding seen_after
replay_cooldown_cutoff default_cutoff now drain_cooldown_secs e f =
    if f.zero_result_streak == 0 || seen_after e.last_seen f.last_outcome_at
    then default_cutoff
    else now
      - seconds
          (min (drain_cooldown_secs * min (min (f.zero_result_streak + 1) u32_max) 4) (2 ^ 64 - 1))

-- An entry that was drained after the cutoff is skipped.
unfoldable pub is_cooling : ℕ → ℕ → SnoopEntry → ReplayFeedback → Bool
unfolding replay_cooldown_cutoff
is_cooling now cooldown_secs e f = elim e.last_drained_at [
  | none ↦ false
  | some d ↦ ltb (replay_cooldown_cutoff (now - seconds cooldown_secs) now cooldown_secs e f) d
]

unfoldable pub candidate_of : {R : Type 0} → SnoopEntry → R → ReplayFeedback → ReplayCandidate R
unfolding seen_after
candidate_of e request f = record {
  scheduled = record { logical_key = e.logical_key; request = request };
  hit_count = e.hit_count;
  last_seen = e.last_seen;
  zero_result_streak = f.zero_result_streak;
  last_result_count = f.last_result_count;
  observed_after_outcome = seen_after e.last_seen f.last_outcome_at;
}

-- The loop over the entries.
unfoldable pub candidates :
    {R : Type 0}
    → (SnoopEntry → Option R)
    → ℕ
    → ℕ
    → SnoopQueue
    → Map Text SnoopEntry
    → List (ReplayCandidate R)
unfolding is_cooling candidate_of feedback_of
candidates request now cooldown_secs q [] = []
candidates request now cooldown_secs q ((key, e) ∷ es) =
    let rest = candidates request now cooldown_secs q es in
    elim (request e) [
      | none ↦ rest
      | some r ↦
          if is_cooling now cooldown_secs e (feedback_of q e.logical_key)
          then rest
          else candidate_of e r (feedback_of q e.logical_key) ∷ rest
    ]

-- `entries.get_mut(key)` and `set_last_drained_at(Some(now))`
unfoldable pub mark_drained : ℕ → Text → Map Text SnoopEntry → Map Text SnoopEntry
mark_drained now key m = elim (Map.lookup Text-discrete key m) [
  | none ↦ m
  | some e ↦ Map.insert Text-discrete key (record e { last_drained_at = some now }) m
]

-- The candidates of a pruned queue, the recent ones and the stale ones, and the choice.
unfoldable pub choose :
    {R : Type 0}
    → SnoopFamily
    → (SnoopEntry → Option R)
    → (List (ReplayCandidate R) → List (ReplayCandidate R) → Option (ReplayCandidate R))
    → ℕ
    → SnoopQueue
    → Option (ReplayCandidate R)
unfolding candidates
choose f request pick now q =
    let cs = candidates request now (family_drain_cooldown_secs q.config f) q q.entries in
    let is_recent =
      λ (c : ReplayCandidate _). leb (now - seconds q.config.dedup_window_secs) c.last_seen in
    pick (keep_if is_recent cs) (keep_if (λ c. not (is_recent c)) cs)

unfoldable pub select_next :
    {R : Type 0}
    → SnoopFamily
    → (SnoopEntry → Option R)
    → (List (ReplayCandidate R) → List (ReplayCandidate R) → Option (ReplayCandidate R))
    → ℕ
    → SnoopQueue
    → SnoopQueue × Option (ScheduledSnoopRequest R)
unfolding choose mark_drained prune_recent_drains
select_next f request pick now q0 =
    let q = prune_recent_drains now f q0 in
    if leb (family_max_queries_per_600s q.config f) (length (recent_drains f q))
    then (q, none)
    else elim (choose f request pick now q) [
      | none ↦ (q, none)
      | some c ↦ (
        set_recent_drains f (recent_drains f q ++ (now ∷ []))
            (record q { entries = mark_drained now c.scheduled.logical_key q.entries }),
        some c.scheduled,
      )
    ]

unfoldable pub select_next_keyword_request :
    (Text → Option (List ℕ))
    → ℕ
    → SnoopQueue
    → SnoopQueue × Option (ScheduledSnoopRequest SearchKeyReq)
unfolding select_next select_sorted candidate_cmp keyword_request
select_next_keyword_request decode_hex now q =
    select_next keywords (keyword_request decode_hex) (select_sorted candidate_cmp) now q

unfoldable pub select_next_source_request :
    ℕ → SnoopQueue → SnoopQueue × Option (ScheduledSnoopRequest SearchSourceReq)
unfolding select_next select_best_source_candidate source_request
select_next_source_request now q =
    select_next sources source_request select_best_source_candidate now q

unfoldable pub select_next_notes_request :
    ℕ → SnoopQueue → SnoopQueue × Option (ScheduledSnoopRequest SearchNotesReq)
unfolding select_next select_sorted candidate_cmp notes_request
select_next_notes_request now q =
    select_next note_requests notes_request (select_sorted candidate_cmp) now q
