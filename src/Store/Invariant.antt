-- ===== src/Store/Invariant.antt =====
-- kad_store.rs: the invariant of the three lists, kept by the three upserts.
use p2p_overlord_agents.Base.{
  any-false, ℕ, ◌≤◌, ◌≡◌, ap, sym, subst, ◌∙◌, ◌⊎◌, inl, inr, Bool, true, false, List, arith,
  length, any, count_if, All, bool_to_ℕ, same_iff, same_refl, Bool-cases,
}
use p2p_overlord_agents.Kad.NodeId.{NodeId, NodeId-discrete}
use p2p_overlord_agents.Kad.Routing.Contact.{Ipv4Addr}
use p2p_overlord_agents.Store.Entries.{
  length-upserted, count_if-upserted, length-replace_match, count_if-replace_match,
  length-push_bounded, count_if-push_bounded-le,
}
use p2p_overlord_agents.Store.Keyed.{IsOfKey, All-replace_match, All-push_bounded}
use p2p_overlord_agents.Store.Publish.{
  KadLocalStore, KeywordKey, StoredKeywordPublish, StoredSourcePublish, StoredNotesPublish, same_id,
  same_key, KeywordKey-discrete, source_of_target, note_of_target, is_same_source, is_same_note,
  upsert_entry, upsert_source_entry, upsert_notes_entry,
}

abbrev pub has_key : KeywordKey → StoredKeywordPublish → Bool
has_key k e = same_key e.dedup_key k

-- The keyword entries are within the capacity, the key of each is made of its target, its hash and the
-- size that its tags tell, and no key is there twice.
pub record IsKeywordList (capacity : ℕ) (xs : List StoredKeywordPublish) : Type 0 where
  pub is_bounded : length xs ≤ capacity
  pub is_keyed : All IsOfKey xs
  pub is_unique : (k : KeywordKey) → count_if (has_key k) xs ≤ 1

-- Within the capacity, and at most 1,001 sources of each file.
pub record IsSourceList (capacity : ℕ) (xs : List StoredSourcePublish) : Type 0 where
  pub is_bounded : length xs ≤ capacity
  pub is_fair : (t : NodeId) → count_if (source_of_target t) xs ≤ 1001

-- Within the capacity, and at most 151 notes of each file.
pub record IsNotesList (capacity : ℕ) (xs : List StoredNotesPublish) : Type 0 where
  pub is_bounded : length xs ≤ capacity
  pub is_fair : (t : NodeId) → count_if (note_of_target t) xs ≤ 151

pub record IsStore (s : KadLocalStore) : Type 0 where
  pub keyword_room : 1 ≤ s.config.keyword_capacity
  pub source_room : 1 ≤ s.config.source_capacity
  pub notes_room : 1 ≤ s.config.notes_capacity
  pub keywords : IsKeywordList s.config.keyword_capacity s.keyword_entries
  pub sources : IsSourceList s.config.source_capacity s.source_entries
  pub notes : IsNotesList s.config.notes_capacity s.notes_entries

-- The target of an entry that passes the test of another's target.
same_target : (a b t : NodeId) → same_id a b ≡ true → same_id a t ≡ same_id b t
same_target a b t e = ap (λ x. same_id x t) ((same_iff NodeId-discrete a b).0 e)

-- The test of the entries of a target.
abbrev of_target {ℓ} : {A : Type ℓ} → (A → NodeId) → NodeId → A → Bool
of_target target t x = same_id (target x) t

-- A target is that of the new entry, or the new entry is not counted.
other_target {ℓ} :
    {A : Type ℓ} (target : A → NodeId) (a : A) (t : NodeId)
    → (of_target target t a ≡ false) ⊎ (of_target target t ≡ of_target target (target a))
other_target target a t = elim (NodeId-discrete (target a) t) [
  | yes e ↦ inr (ap (of_target target) (sym e))
  | no n ↦ inl (ground (arith, n))
]

source_target :
    (target : NodeId) (ip : Ipv4Addr) (tcp udp : ℕ) (e : StoredSourcePublish)
    → is_same_source target ip tcp udp e ≡ true
    → same_id e.target target ≡ true
unfolding is_same_source
source_target target ip tcp udp e h = ground (arith, h)

note_target :
    (target id : NodeId) (ip : Ipv4Addr) (e : StoredNotesPublish)
    → is_same_note target id ip e ≡ true
    → same_id e.target target ≡ true
unfolding is_same_note
note_target target id ip e h = ground (arith, h)

pub upsert_source_entry-IsSourceList :
    (capacity : ℕ) (a : StoredSourcePublish) (xs : List StoredSourcePublish)
    → 1 ≤ capacity
    → IsSourceList capacity xs
    → IsSourceList capacity (upsert_source_entry capacity a xs)
unfolding upsert_source_entry
upsert_source_entry-IsSourceList capacity a xs c h =
    let observed : StoredSourcePublish → ℕ = λ e. e.observed_at in
    let matching = is_same_source a.target a.source_ip a.source_tcp_port a.source_udp_port in
    record {
      is_bounded =
          length-upserted observed 1000 capacity (source_of_target a.target) matching a xs c
            h.is_bounded;
      is_fair = λ t.
          count_if-upserted observed 1000 capacity (source_of_target a.target) matching a
            (source_of_target t) xs
            (λ e m.
              same_target e.target a.target t
                (source_target a.target a.source_ip a.source_tcp_port a.source_udp_port e m))
            (other_target (λ (e : StoredSourcePublish). e.target) a t) (h.is_fair t);
    }

pub upsert_notes_entry-IsNotesList :
    (capacity : ℕ) (a : StoredNotesPublish) (xs : List StoredNotesPublish)
    → 1 ≤ capacity
    → IsNotesList capacity xs
    → IsNotesList capacity (upsert_notes_entry capacity a xs)
unfolding upsert_notes_entry
upsert_notes_entry-IsNotesList capacity a xs c h =
    let observed : StoredNotesPublish → ℕ = λ e. e.observed_at in
    let matching = is_same_note a.target a.publisher_id a.publisher_ip in
    record {
      is_bounded =
          length-upserted observed 150 capacity (note_of_target a.target) matching a xs c
            h.is_bounded;
      is_fair = λ t.
          count_if-upserted observed 150 capacity (note_of_target a.target) matching a
            (note_of_target t) xs
            (λ e m.
              same_target e.target a.target t
                (note_target a.target a.publisher_id a.publisher_ip e m))
            (other_target (λ (e : StoredNotesPublish). e.target) a t) (h.is_fair t);
    }

-- An entry with the key takes the place of the entry with that key, or the key was not there.
pub upsert_entry-IsKeywordList :
    (capacity : ℕ) (a : StoredKeywordPublish) (xs : List StoredKeywordPublish)
    → 1 ≤ capacity
    → IsOfKey a
    → IsKeywordList capacity xs
    → IsKeywordList capacity (upsert_entry capacity a.dedup_key a xs)
unfolding upsert_entry
upsert_entry-IsKeywordList capacity a xs c o h =
    let observed : StoredKeywordPublish → ℕ = λ e. e.observed_at in
    let p = has_key a.dedup_key in
    elim (Bool-cases (any p xs)) [
      | inl e ↦ rw e (record {
        is_bounded = omega (arith, length-replace_match p a xs, h.is_bounded);
        is_keyed = All-replace_match IsOfKey p a xs o h.is_keyed;
        is_unique = λ k.
            let n = count_if-replace_match p (has_key k) a xs (λ x m.
              ap (λ j. same_key j k)
                ((same_iff KeywordKey-discrete x.dedup_key a.dedup_key).0 m)) in
            omega (arith, n, h.is_unique k);
      })
      | inr e ↦ rw e (record {
        is_bounded = length-push_bounded observed capacity a xs c h.is_bounded;
        is_keyed = All-push_bounded IsOfKey observed capacity a xs o h.is_keyed;
        is_unique = λ k.
            let n = count_if-push_bounded-le observed (has_key k) capacity a xs in
            let z = any-false p xs e in
            elim (KeywordKey-discrete a.dedup_key k) [
              | yes j ↦
                  let o' = subst (λ x. count_if (has_key x) xs ≡ 0) j z in
                  let b =
                    ap bool_to_ℕ (ap (λ x. same_key x k) j ∙ same_refl KeywordKey-discrete k) in
                  omega (arith, n, o', b)
              | no j ↦
                  let b : bool_to_ℕ (has_key k a) ≡ 0 = ground (arith, j) in
                  omega (arith, n, b, h.is_unique k)
            ];
      })
    ]
