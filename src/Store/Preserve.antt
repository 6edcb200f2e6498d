-- ===== src/Store/Preserve.antt =====
-- kad_store.rs: every publish and every search keeps the invariant of the store.
use p2p_overlord_agents.Kad.Packet.{
  PublishEntry, SearchKeyReq, SearchSourceReq, SearchNotesReq, SearchRes,
}
use p2p_overlord_agents.Base.{
  ℕ, ◌+◌, ◌≤◌, inl, inr, Bool, not, ◌||◌, Option, none, List, [], ◌∷◌, ltb, ◌==◌, arith, Bool-cases,
  Option-cases, if_case, count_if-keep_if-le,
}
use p2p_overlord_agents.Kad.NodeId.{NodeId}
use p2p_overlord_agents.Kad.Routing.Contact.{Ipv4Addr}
use p2p_overlord_agents.Kad.Utf8.{Text}
use p2p_overlord_agents.Kad.Tag.{Tag}
use p2p_overlord_agents.Base.Every.{All-keep_if}
use p2p_overlord_agents.Store.Keyed.{IsOfKey, keyword_entry-IsOfKey}
use p2p_overlord_agents.Store.Entries.{purge_expired, length-purge_expired-le}
use p2p_overlord_agents.Store.Tags.{
  stock_keyword_file_size, has_stock_keyword_filename, is_stock_source_publish,
  stock_source_tcp_port, has_stock_note_tags,
}
use p2p_overlord_agents.Store.Publish.{
  KadLocalStore, KadConfig, from_kad_config, new_store, StoredKeywordPublish, StoredSourcePublish,
  StoredNotesPublish, source_of_target, note_of_target, is_unspecified,
  stock_keyword_publish_decision, keyword_publish_step, keyword_publish_loop, keyword_entry,
  source_entry, notes_entry, record_keyword_publish_batch, record_source_publish,
  record_notes_publish,
}
use p2p_overlord_agents.Store.Search.{
  keyword_search_response, source_search_response, notes_search_response,
}
use p2p_overlord_agents.Store.Invariant.{
  has_key, IsKeywordList, IsSourceList, IsNotesList, IsStore, upsert_source_entry-IsSourceList,
  upsert_notes_entry-IsNotesList, upsert_entry-IsKeywordList,
}

pub purge-IsKeywordList :
    (capacity ttl now : ℕ) (xs : List StoredKeywordPublish)
    → IsKeywordList capacity xs
    → IsKeywordList capacity
        (purge_expired (λ (e : StoredKeywordPublish). e.observed_at) ttl now xs)
unfolding purge_expired
purge-IsKeywordList capacity ttl now xs h =
    let alive : StoredKeywordPublish → Bool = λ e. ltb now (e.observed_at + ttl) in
    let n = length-purge_expired-le (λ (e : StoredKeywordPublish). e.observed_at) ttl now xs in
    record {
      is_bounded = omega (arith, n, h.is_bounded);
      is_keyed = All-keep_if IsOfKey alive xs h.is_keyed;
      is_unique = λ k. omega (arith, count_if-keep_if-le alive (has_key k) xs, h.is_unique k);
    }

pub purge-IsSourceList :
    (capacity ttl now : ℕ) (xs : List StoredSourcePublish)
    → IsSourceList capacity xs
    → IsSourceList capacity (purge_expired (λ (e : StoredSourcePublish). e.observed_at) ttl now xs)
unfolding purge_expired
purge-IsSourceList capacity ttl now xs h =
    let alive : StoredSourcePublish → Bool = λ e. ltb now (e.observed_at + ttl) in
    let n = length-purge_expired-le (λ (e : StoredSourcePublish). e.observed_at) ttl now xs in
    record {
      is_bounded = omega (arith, n, h.is_bounded);
      is_fair = λ t. omega (arith, count_if-keep_if-le alive (source_of_target t) xs, h.is_fair t);
    }

pub purge-IsNotesList :
    (capacity ttl now : ℕ) (xs : List StoredNotesPublish)
    → IsNotesList capacity xs
    → IsNotesList capacity (purge_expired (λ (e : StoredNotesPublish). e.observed_at) ttl now xs)
unfolding purge_expired
purge-IsNotesList capacity ttl now xs h =
    let alive : StoredNotesPublish → Bool = λ e. ltb now (e.observed_at + ttl) in
    let n = length-purge_expired-le (λ (e : StoredNotesPublish). e.observed_at) ttl now xs in
    record {
      is_bounded = omega (arith, n, h.is_bounded);
      is_fair = λ t. omega (arith, count_if-keep_if-le alive (note_of_target t) xs, h.is_fair t);
    }

keyword_publish_step-IsKeywordList :
    (capacity now : ℕ) (target : NodeId) (p : PublishEntry) (xs : List StoredKeywordPublish)
    (load : ℕ)
    → 1 ≤ capacity
    → IsKeywordList capacity xs
    → IsKeywordList capacity (keyword_publish_step capacity now target p (xs, load)).0
unfolding keyword_publish_step
keyword_publish_step-IsKeywordList capacity now target p xs load c h =
    elim (Option-cases (stock_keyword_file_size p.tags)) [
      | inl e ↦ rw (e, keyword_publish_step) h
      | inr (size, e) ↦ elim (Bool-cases (has_stock_keyword_filename p.tags)) [
        | inl f ↦ elim (Bool-cases (stock_keyword_publish_decision xs target p.hash).1) [
          | inl d ↦
              rw (e, f, d, keyword_publish_step)
                (upsert_entry-IsKeywordList capacity (keyword_entry now target p size) xs c
                  (keyword_entry-IsOfKey now target p size e) h)
          | inr d ↦ rw (e, f, d, keyword_publish_step) h
        ]
        | inr f ↦ rw (e, f, keyword_publish_step) h
      ]
    ]

keyword_publish_loop-IsKeywordList :
    (capacity now : ℕ) (target : NodeId) (ps : List PublishEntry) (xs : List StoredKeywordPublish)
    (load : ℕ)
    → 1 ≤ capacity
    → IsKeywordList capacity xs
    → IsKeywordList capacity (keyword_publish_loop capacity now target ps (xs, load)).0
unfolding keyword_publish_loop
keyword_publish_loop-IsKeywordList capacity now target [] xs load c h = h
keyword_publish_loop-IsKeywordList capacity now target (p ∷ ps) xs load c h =
    let r = keyword_publish_step capacity now target p (xs, load) in
    keyword_publish_loop-IsKeywordList capacity now target ps r.0 r.1 c
      (keyword_publish_step-IsKeywordList capacity now target p xs load c h)

pub record_keyword_publish_batch-IsStore :
    (target : NodeId) (ps : List PublishEntry) (now : ℕ) (s : KadLocalStore)
    → IsStore s
    → IsStore (record_keyword_publish_batch target ps now s).0
unfolding record_keyword_publish_batch
record_keyword_publish_batch-IsStore target ps now s h =
    let xs =
      purge_expired (λ (e : StoredKeywordPublish). e.observed_at) s.config.keyword_ttl now
        s.keyword_entries in
    let (ys, load) = keyword_publish_loop s.config.keyword_capacity now target ps (xs, 0) in
    if_case (λ (r : KadLocalStore × ℕ). IsStore r.0) (not s.config.enabled) (s, 0)
      (record s { keyword_entries = ys }, load) (λ _. h)
      (λ _. record {
        keyword_room = h.keyword_room;
        source_room = h.source_room;
        notes_room = h.notes_room;
        keywords =
            keyword_publish_loop-IsKeywordList s.config.keyword_capacity now target ps xs 0
              h.keyword_room
              (purge-IsKeywordList s.config.keyword_capacity s.config.keyword_ttl now
                s.keyword_entries h.keywords);
        sources = h.sources;
        notes = h.notes;
      })

pub record_source_publish-IsStore :
    (target id : NodeId) (ip : Ipv4Addr) (udp : ℕ) (tags : List Tag) (now : ℕ) (s : KadLocalStore)
    → IsStore s
    → IsStore (record_source_publish target id ip udp tags now s).0
unfolding record_source_publish
record_source_publish-IsStore target id ip udp tags now s h =
    let P : KadLocalStore × Option ℕ → Type 0 = λ r. IsStore r.0 in
    if_case P (not s.config.enabled) (s, none) _ (λ _. h)
      λ _.
        if_case P (not (is_stock_source_publish tags)) (s, none) _ (λ _. h)
          λ _.
            if_case P (is_unspecified ip || udp == 0) (s, none) _ (λ _. h)
              λ _. elim (Option-cases (stock_source_tcp_port tags)) [
                | inl e ↦ rw e h
                | inr (tcp, e) ↦ rw e (record {
                  keyword_room = h.keyword_room;
                  source_room = h.source_room;
                  notes_room = h.notes_room;
                  keywords = h.keywords;
                  sources =
                      upsert_source_entry-IsSourceList s.config.source_capacity
                        (source_entry now target id ip tcp udp tags)
                        (purge_expired (λ (e : StoredSourcePublish). e.observed_at)
                          s.config.source_ttl now s.source_entries)
                        h.source_room
                        (purge-IsSourceList s.config.source_capacity s.config.source_ttl now
                          s.source_entries h.sources);
                  notes = h.notes;
                })
              ]

pub record_notes_publish-IsStore :
    (target id : NodeId) (ip : Ipv4Addr) (tags : List Tag) (now : ℕ) (s : KadLocalStore)
    → IsStore s
    → IsStore (record_notes_publish target id ip tags now s).0
unfolding record_notes_publish
record_notes_publish-IsStore target id ip tags now s h =
    let P : KadLocalStore × Option ℕ → Type 0 = λ r. IsStore r.0 in
    if_case P (not s.config.enabled) (s, none) _ (λ _. h)
      λ _.
        if_case P (is_unspecified ip || not (has_stock_note_tags tags)) (s, none) _ (λ _. h)
          λ _. record {
            keyword_room = h.keyword_room;
            source_room = h.source_room;
            notes_room = h.notes_room;
            keywords = h.keywords;
            sources = h.sources;
            notes =
                upsert_notes_entry-IsNotesList s.config.notes_capacity
                  (notes_entry now target id ip tags)
                  (purge_expired (λ (e : StoredNotesPublish). e.observed_at) s.config.notes_ttl now
                    s.notes_entries)
                  h.notes_room
                  (purge-IsNotesList s.config.notes_capacity s.config.notes_ttl now s.notes_entries
                    h.notes);
          }

pub source_search_response-IsStore :
    (sender : NodeId) (r : SearchSourceReq) (limit now : ℕ) (s : KadLocalStore)
    → IsStore s
    → IsStore (source_search_response sender r limit now s).0
unfolding source_search_response
source_search_response-IsStore sender r limit now s h =
    let P : KadLocalStore × Option SearchRes → Type 0 = λ r. IsStore r.0 in
    if_case P (not s.config.enabled || limit == 0) (s, none) _ (λ _. h)
      λ _. record {
        keyword_room = h.keyword_room;
        source_room = h.source_room;
        notes_room = h.notes_room;
        keywords = h.keywords;
        sources =
            purge-IsSourceList s.config.source_capacity s.config.source_ttl now s.source_entries
              h.sources;
        notes = h.notes;
      }

pub notes_search_response-IsStore :
    (sender : NodeId) (r : SearchNotesReq) (limit now : ℕ) (s : KadLocalStore)
    → IsStore s
    → IsStore (notes_search_response sender r limit now s).0
unfolding notes_search_response
notes_search_response-IsStore sender r limit now s h =
    let P : KadLocalStore × Option SearchRes → Type 0 = λ r. IsStore r.0 in
    if_case P (not s.config.enabled || limit == 0) (s, none) _ (λ _. h)
      λ _. record {
        keyword_room = h.keyword_room;
        source_room = h.source_room;
        notes_room = h.notes_room;
        keywords = h.keywords;
        sources = h.sources;
        notes =
            purge-IsNotesList s.config.notes_capacity s.config.notes_ttl now s.notes_entries
              h.notes;
      }

pub keyword_search_response-IsStore :
    (to_lowercase : Text → Text) (sender : NodeId) (r : SearchKeyReq) (limit now : ℕ)
    (s : KadLocalStore)
    → IsStore s
    → IsStore (keyword_search_response to_lowercase sender r limit now s).0
unfolding keyword_search_response
keyword_search_response-IsStore to_lowercase sender r limit now s h =
    let P : KadLocalStore × Option SearchRes → Type 0 = λ r. IsStore r.0 in
    if_case P (not s.config.enabled || limit == 0) (s, none) _ (λ _. h)
      λ _. record {
        keyword_room = h.keyword_room;
        source_room = h.source_room;
        notes_room = h.notes_room;
        keywords =
            purge-IsKeywordList s.config.keyword_capacity s.config.keyword_ttl now s.keyword_entries
              h.keywords;
        sources = h.sources;
        notes = h.notes;
      }

pub new_store-IsStore : (config : KadConfig) → IsStore (new_store (from_kad_config config))
unfolding new_store from_kad_config
new_store-IsStore config = record {
  keyword_room = omega arith;
  source_room = omega arith;
  notes_room = omega arith;
  keywords = record { is_bounded = omega arith; is_keyed = tt; is_unique = λ k. omega arith };
  sources = record { is_bounded = omega arith; is_fair = λ t. omega arith };
  notes = record { is_bounded = omega arith; is_fair = λ t. omega arith };
}
