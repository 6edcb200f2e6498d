-- ===== src/Snoop/Merge.antt =====
-- snoop_queue.rs, `merge_entry`: what merging an observation does to the entries.
use p2p_overlord_agents.Base.{
  ℕ, ◌+◌, ◌≡◌, ◌≢◌, refl, ap, inl, inr, min, max, Option, none, some, arith, same, same_iff,
  same_refl, Option-cases, ◌∙◌, Bool-cases,
}
use p2p_overlord_agents.Base.Map
use p2p_overlord_agents.Base.Map.{Map, lookup-insert}
use p2p_overlord_agents.Snoop.{
  Text, Text-discrete, SnoopQueue, SnoopEntry, merge_entry, merged_entry, later_drain, u32_max,
}

min_add_comm : (e a b m : ℕ) → min (min (e + a) m + b) m ≡ min (min (e + b) m + a) m
min_add_comm e a b m = omega arith

max_comm : (e a b : ℕ) → max (max e a) b ≡ max (max e b) a
max_comm e a b = omega arith

min_comm : (e a b : ℕ) → min (min e a) b ≡ min (min e b) a
min_comm e a b = omega arith

later_drain_comm :
    (e a b : Option ℕ) → later_drain (later_drain e a) b ≡ later_drain (later_drain e b) a
unfolding later_drain
later_drain_comm none none none = refl
later_drain_comm none none (some b) = refl
later_drain_comm none (some a) none = refl
later_drain_comm none (some a) (some b) = ap some (omega arith)
later_drain_comm (some e) none none = refl
later_drain_comm (some e) none (some b) = refl
later_drain_comm (some e) (some a) none = refl
later_drain_comm (some e) (some a) (some b) = ap some (max_comm e a b)

-- The order in which two observations are merged into an entry does not matter.
pub merged_entry_comm :
    (e a b : SnoopEntry) → merged_entry (merged_entry e a) b ≡ merged_entry (merged_entry e b) a
unfolding merged_entry
merged_entry_comm e a b = λ i. record e {
  hit_count = min_add_comm e.hit_count a.hit_count b.hit_count u32_max i;
  last_seen = max_comm e.last_seen a.last_seen b.last_seen i;
  first_seen = min_comm e.first_seen a.first_seen b.first_seen i;
  last_drained_at = later_drain_comm e.last_drained_at a.last_drained_at b.last_drained_at i;
}

-- The entry that stands under the key of an observation afterwards.
abbrev pub observed : Option SnoopEntry → SnoopEntry → SnoopEntry
observed none entry = entry
observed (some e) entry = merged_entry e entry

lookup_inserted :
    (k : Text) (e : SnoopEntry) (m : Map Text SnoopEntry)
    → (Map.lookup Text-discrete k (Map.insert Text-discrete k e m) ≡ some e)
      × ((j : Text)
          → k ≢ j
          → Map.lookup Text-discrete j (Map.insert Text-discrete k e m)
            ≡ Map.lookup Text-discrete j m)
lookup_inserted k e m = (
  lookup-insert Text-discrete k k e m ∙ rw (same_refl Text-discrete k),
  λ j n. elim (Bool-cases (same Text-discrete k j)) [
    | inl h ↦ absurd (n ((same_iff Text-discrete k j).0 h))
    | inr h ↦ lookup-insert Text-discrete k j e m ∙ rw h
  ],
)

-- Merging an observation writes it, merged with the entry that was there, under its key, and changes
-- no other entry.
pub merge_entry_lem :
    (entry : SnoopEntry) (q : SnoopQueue)
    → (Map.lookup Text-discrete entry.logical_key (merge_entry entry q).0.entries
        ≡ some (observed (Map.lookup Text-discrete entry.logical_key q.entries) entry))
      × ((j : Text)
          → entry.logical_key ≢ j
          → Map.lookup Text-discrete j (merge_entry entry q).0.entries
            ≡ Map.lookup Text-discrete j q.entries)
unfolding merge_entry
merge_entry_lem entry q =
    elim (Option-cases (Map.lookup Text-discrete entry.logical_key q.entries)) [
      | inl e ↦ rw (e, merge_entry) (lookup_inserted entry.logical_key entry q.entries)
      | inr (x, e) ↦
          rw (e, merge_entry) (lookup_inserted entry.logical_key (merged_entry x entry) q.entries)
    ]
