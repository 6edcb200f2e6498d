-- ===== src/Snoop/Outcome.antt =====
-- snoop_queue.rs, `record_replay_outcome`, and what it forgets.
use p2p_overlord_agents.Base.{
  ℕ, ◌+◌, ◌≡◌, ◌≢◌, refl, sym, ap, same, ◌∙◌, ◌||◌, inl, inr, same_refl, same_iff, Bool-cases, min,
  Bool, true, false, ◌&&◌, Option, none, some, ltb, leb, if◌then◌else◌, arith,
}
use p2p_overlord_agents.Base.Map
use p2p_overlord_agents.Base.Map.{Map, lookup-remove, lookup-insert}
use p2p_overlord_agents.Snoop.{
  SnoopEntry, SnoopShape, keyword, source, notes, keywords, sources, note_requests, is_source,
  is_served, is_family, shape_family, Text, Text-discrete, SnoopQueue, ReplayFeedback,
  default_feedback, u32_max, should_evict_zero_yield_source_entry,
}

-- `entries.remove(key)` and `replay_feedback.remove(key)`
unfoldable pub forget : Text → SnoopQueue → SnoopQueue
forget key q = record q {
  entries = Map.remove Text-discrete key q.entries;
  replay_feedback = Map.remove Text-discrete key q.replay_feedback;
}

abbrev or_default : Option ReplayFeedback → ReplayFeedback
or_default none = default_feedback
or_default (some f) = f

-- The feedback after a replay without results.
unfoldable pub zero_feedback : ℕ → Text → SnoopQueue → ReplayFeedback
zero_feedback completed_at key q =
    let f = or_default (Map.lookup Text-discrete key q.replay_feedback) in
    record {
      zero_result_streak = min (f.zero_result_streak + 1) u32_max;
      last_result_count = 0;
      last_outcome_at = some completed_at;
    }

-- `entries.get(key).is_some_and(should_evict_zero_yield_source_entry)`
unfoldable pub is_evictable : Text → SnoopQueue → Bool
is_evictable key q = elim (Map.lookup Text-discrete key q.entries) [
  | none ↦ false
  | some e ↦ should_evict_zero_yield_source_entry e
]

-- A positive count returns early, so the source's last branch, which resets the streak, is not
-- reached.
unfoldable pub record_replay_outcome : Text → ℕ → ℕ → SnoopQueue → SnoopQueue
unfolding forget zero_feedback is_evictable
record_replay_outcome key completed_at result_count q =
    if ltb 0 result_count
    then forget key q
    else (let f = zero_feedback completed_at key q in
        let q' = record q { replay_feedback = Map.insert Text-discrete key f q.replay_feedback } in
        if leb 2 f.zero_result_streak && is_evictable key q' then forget key q' else q')

-- How many replays in a row were without results.
abbrev pub streak : Text → SnoopQueue → ℕ
streak key q = (or_default (Map.lookup Text-discrete key q.replay_feedback)).zero_result_streak

abbrev is_source_shape : SnoopShape → Bool
is_source_shape (keyword _ _) = false
is_source_shape (source _ _) = true
is_source_shape (notes _) = false

-- A source entry that was drained at or after the instant at which it was last seen.
abbrev pub is_served_source : Option SnoopEntry → Bool
is_served_source none = false
is_served_source (some e) =
    is_source_shape e.shape && elim e.last_drained_at [ none ↦ false | some d ↦ leb e.last_seen d ]

-- Whether the entry and the feedback are forgotten, told from the queue before.
unfoldable pub is_forgotten : Text → ℕ → SnoopQueue → Bool
is_forgotten key n q =
    ltb 0 n || leb 1 (streak key q) && is_served_source (Map.lookup Text-discrete key q.entries)

-- The feedback after one more replay without results.
abbrev pub grown : Text → ℕ → SnoopQueue → ReplayFeedback
grown key at q = record {
  zero_result_streak = min (streak key q + 1) u32_max;
  last_result_count = 0;
  last_outcome_at = some at;
}

shape-source :
    (s : SnoopShape)
    → elim (shape_family s) [ keywords ↦ false | sources ↦ true | note_requests ↦ false ]
      ≡ is_source_shape s
unfolding shape_family
shape-source (keyword _ _) = refl
shape-source (source _ _) = refl
shape-source (notes _) = refl

should_evict-served :
    (e : SnoopEntry) → should_evict_zero_yield_source_entry e ≡ is_served_source (some e)
unfolding should_evict_zero_yield_source_entry is_source is_served is_family
should_evict-served e = ap (λ b. b && is_served e) (shape-source e.shape)

evictable-served :
    (key : Text) (q : SnoopQueue)
    → is_evictable key q ≡ is_served_source (Map.lookup Text-discrete key q.entries)
unfolding is_evictable
evictable-served key q =
    elim (Map.lookup Text-discrete key q.entries)
      as (λ x.
        elim x [ none ↦ false | some e ↦ should_evict_zero_yield_source_entry e ]
        ≡ is_served_source x) [ none ↦ refl | some e ↦ should_evict-served e ]

lookup_removed :
    {V : Type 0} (k : Text) (m : Map Text V)
    → (Map.lookup Text-discrete k (Map.remove Text-discrete k m) ≡ none)
      × ((j : Text)
          → k ≢ j
          → Map.lookup Text-discrete j (Map.remove Text-discrete k m)
            ≡ Map.lookup Text-discrete j m)
lookup_removed k m = (
  lookup-remove Text-discrete k k m ∙ rw (same_refl Text-discrete k),
  λ j n. elim (Bool-cases (same Text-discrete k j)) [
    | inl h ↦ absurd (n ((same_iff Text-discrete k j).0 h))
    | inr h ↦ lookup-remove Text-discrete k j m ∙ rw h
  ],
)

not_same : (k j : Text) → k ≢ j → same Text-discrete k j ≡ false
not_same k j n = ground (arith, n)

streak_two : (s : ℕ) → leb 2 (min (s + 1) u32_max) ≡ leb 1 s
streak_two s = ground arith

-- A replay changes no entry and no feedback but its own. With results its entry and its feedback are
-- forgotten. Without, they are forgotten where an earlier replay in a row was without results as well
-- and the entry is a source that was not seen since it was drained; otherwise the entry stays, and its
-- streak of replays without results grows by one, up to the largest 32-bit number, as of that instant.
pub record_replay_outcome_lem :
    (key : Text) (at n : ℕ) (q : SnoopQueue)
    → ((j : Text)
        → key ≢ j
        → (Map.lookup Text-discrete j (record_replay_outcome key at n q).entries
            ≡ Map.lookup Text-discrete j q.entries)
          × (Map.lookup Text-discrete j (record_replay_outcome key at n q).replay_feedback
              ≡ Map.lookup Text-discrete j q.replay_feedback))
      × (Map.lookup Text-discrete key (record_replay_outcome key at n q).entries
          ≡ (if is_forgotten key n q then none else Map.lookup Text-discrete key q.entries))
      × (Map.lookup Text-discrete key (record_replay_outcome key at n q).replay_feedback
          ≡ (if is_forgotten key n q then none else some (grown key at q)))
unfolding record_replay_outcome forget zero_feedback is_forgotten is_evictable
record_replay_outcome_lem key at n q =
    let (a, b) = lookup_removed key q.entries in
    let (c, d) = lookup_removed key q.replay_feedback in
    let f = grown key at q in
    let kept = lookup-insert Text-discrete key key f q.replay_feedback in
    let (gone, others) = lookup_removed key (Map.insert Text-discrete key f q.replay_feedback) in
    let beside : (j : Text)
        → key ≢ j
        → Map.lookup Text-discrete j (Map.insert Text-discrete key f q.replay_feedback)
          ≡ Map.lookup Text-discrete j q.replay_feedback =
      λ j m. lookup-insert Text-discrete key j f q.replay_feedback ∙ rw (not_same key j m) in
    elim (Bool-cases (ltb 0 n)) [
      | inl e ↦ rw (e, record_replay_outcome, is_forgotten) ((λ j m. (b j m, d j m)), a, c)
      | inr e ↦ elim (Bool-cases (leb 1 (streak key q) && is_evictable key q)) [
        | inl g ↦
            rw
              (
                e,
                streak_two (streak key q),
                sym (evictable-served key q),
                g,
                record_replay_outcome,
                is_forgotten,
              )
              ((λ j m. (b j m, others j m ∙ beside j m)), a, gone)
        | inr g ↦
            rw
              (
                e,
                streak_two (streak key q),
                sym (evictable-served key q),
                g,
                record_replay_outcome,
                is_forgotten,
              )
              ((λ j m. (refl, beside j m)), refl, kept ∙ rw (same_refl Text-discrete key))
      ]
    ]
