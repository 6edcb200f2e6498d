-- ===== src/Snoop/Keys.antt =====
-- snoop_queue.rs: the entries stand under their logical keys.
use p2p_overlord_agents.Base.{
  ℕ, ◌≤◌, ◌≡◌, refl, ap, sym, ◌∙◌, ◌⊎◌, inl, inr, some, [], ◌∷◌, if◌then◌else◌, same, same_refl,
  same_iff, arith, some_equal, Bool-cases, Option-cases,
}
use p2p_overlord_agents.Base.Map
use p2p_overlord_agents.Base.Map.{Map, entries_at, entries_at-insert, lookup-insert, lookup_absent}
use p2p_overlord_agents.Snoop.{
  Text, Text-discrete, SnoopEntry, SnoopQueue, SnoopQueueConfig, new_snoop_queue, merge_entry,
  merged_entry,
}
use p2p_overlord_agents.Snoop.Select.{mark_drained}

-- No key is there twice, and each entry is found under its logical key.
pub record IsKeyed (m : Map Text SnoopEntry) : Type 0 where
  pub is_map : (k : Text) → entries_at Text-discrete k m ≤ 1
  pub under_key :
      (k : Text) (e : SnoopEntry) → Map.lookup Text-discrete k m ≡ some e → e.logical_key ≡ k

-- An entry of the map.
abbrev pub Listed : SnoopEntry → Map Text SnoopEntry → Type 0
Listed e [] = ⊥
Listed e ((key, x) ∷ es) = (x ≡ e) ⊎ Listed e es

lookup_somewhere :
    (e : SnoopEntry) (m : Map Text SnoopEntry)
    → ((k : Text) → entries_at Text-discrete k m ≤ 1)
    → Listed e m
    → (k : Text) × (Map.lookup Text-discrete k m ≡ some e)
unfolding Map.lookup
lookup_somewhere e [] h l = absurd l
lookup_somewhere e ((key, x) ∷ m) h (inl l) = (key, rw (same_refl Text-discrete key) (ap some l))
lookup_somewhere e ((key, x) ∷ m) h (inr l) =
    let (k, f) = lookup_somewhere e m (λ k. let n = h k in ground (arith, n)) l in
    elim (Bool-cases (same Text-discrete key k)) [
      | inl b ↦ let n = h k in absurd (ground (arith, n, b, f, lookup_absent Text-discrete k m))
      | inr b ↦ (k, rw b f)
    ]

pub lookup-Listed :
    (e : SnoopEntry) (m : Map Text SnoopEntry)
    → IsKeyed m
    → Listed e m
    → Map.lookup Text-discrete e.logical_key m ≡ some e
lookup-Listed e m h l =
    let (k, f) = lookup_somewhere e m h.is_map l in
    ap (λ j. Map.lookup Text-discrete j m) (h.under_key k e f) ∙ f

pub lookup-mark_drained :
    (now : ℕ) (k j : Text) (e : SnoopEntry) (m : Map Text SnoopEntry)
    → Map.lookup Text-discrete k m ≡ some e
    → Map.lookup Text-discrete j (mark_drained now k m) ≡ (
        if same Text-discrete k j
        then some (record e { last_drained_at = some now })
        else Map.lookup Text-discrete j m)
unfolding mark_drained
lookup-mark_drained now k j e m h =
    rw (h, mark_drained)
      (lookup-insert Text-discrete k j (record e { last_drained_at = some now }) m)

pub new_snoop_queue-IsKeyed : (c : SnoopQueueConfig) → IsKeyed (new_snoop_queue c).entries
unfolding new_snoop_queue Map.lookup
new_snoop_queue-IsKeyed c = record {
  is_map = λ k. omega arith;
  under_key = λ k e h. ground (arith, h);
}

pub insert-IsKeyed :
    (e : SnoopEntry) (k : Text) (m : Map Text SnoopEntry)
    → e.logical_key ≡ k
    → IsKeyed m
    → IsKeyed (Map.insert Text-discrete k e m)
insert-IsKeyed e k m same_k h = record {
  is_map = λ j. entries_at-insert Text-discrete k j e m (h.is_map k) (h.is_map j);
  under_key = λ j x l.
      let l' = sym (lookup-insert Text-discrete k j e m) ∙ l in
      elim (Bool-cases (same Text-discrete k j)) [
        | inl b ↦
            let same_e : e ≡ x = some_equal (rw b at l') in
            ap (λ (y : SnoopEntry). y.logical_key) (sym same_e)
            ∙ same_k
            ∙ (same_iff Text-discrete k j).0 b
        | inr b ↦ h.under_key j x (rw b at l')
      ];
}

-- Merging an observation keeps the entries under their keys, and so does the mark of a drain.
pub merge_entry-IsKeyed :
    (e : SnoopEntry) (q : SnoopQueue) → IsKeyed q.entries → IsKeyed (merge_entry e q).0.entries
unfolding merge_entry merged_entry
merge_entry-IsKeyed e q h = elim (Option-cases (Map.lookup Text-discrete e.logical_key q.entries)) [
  | inl n ↦ rw (n, merge_entry) (insert-IsKeyed e e.logical_key q.entries refl h)
  | inr (x, n) ↦
      rw (n, merge_entry)
        (insert-IsKeyed (merged_entry x e) e.logical_key q.entries (h.under_key e.logical_key x n)
          h)
]

pub mark_drained-IsKeyed :
    (now : ℕ) (k : Text) (m : Map Text SnoopEntry) → IsKeyed m → IsKeyed (mark_drained now k m)
unfolding mark_drained
mark_drained-IsKeyed now k m h = elim (Option-cases (Map.lookup Text-discrete k m)) [
  | inl n ↦ rw (n, mark_drained) h
  | inr (x, n) ↦
      rw (n, mark_drained)
        (insert-IsKeyed (record x { last_drained_at = some now }) k m (h.under_key k x n) h)
]
