-- ===== src/Store/Load.antt =====
-- kad_store.rs: the load that a publish is answered with.
use p2p_overlord_agents.Kad.Packet.{PublishEntry}
use p2p_overlord_agents.Base.{
  ◌*◌, ◌/◌, ◌≡◌, ◌&&◌, ltb, any, length, if◌then◌else◌, ℕ, ◌≤◌, not, ◌||◌, Option, none, List, [],
  ◌∷◌, ◌==◌, arith, count_if, if_case, Option-cases, Bool-cases, inl, inr,
}
use p2p_overlord_agents.Kad.NodeId.{NodeId}
use p2p_overlord_agents.Kad.Routing.Contact.{Ipv4Addr}
use p2p_overlord_agents.Kad.Utf8.{Text}
use p2p_overlord_agents.Kad.Tag.{Ed2kHash, Tag}
use p2p_overlord_agents.Store.Entries.{purge_expired}
use p2p_overlord_agents.Store.Tags.{
  stock_keyword_file_size, has_stock_keyword_filename, is_stock_source_publish,
  stock_source_tcp_port, has_stock_note_tags,
}
use p2p_overlord_agents.Store.Publish.{
  KadLocalStore, KadConfig, from_kad_config, new_store, StoredKeywordPublish, StoredSourcePublish,
  StoredNotesPublish, source_of_target, note_of_target, is_unspecified, stock_source_publish_load,
  stock_notes_publish_load, stock_keyword_publish_decision, keyword_publish_step,
  keyword_source_count, keyword_source_exists, is_same_source, is_same_note, keyword_publish_loop,
  record_keyword_publish_batch, record_source_publish, record_notes_publish,
}
use p2p_overlord_agents.Store.Invariant.{IsStore}
use p2p_overlord_agents.Store.Preserve.{purge-IsSourceList, purge-IsNotesList}
use p2p_overlord_agents.Store.Run.{
  Operation, publish_keywords, publish_source, publish_notes, search_keywords, search_sources,
  search_notes, or_zero, apply, run, run-IsStore,
}

-- The three loads as numbers of any size, before the cast to a byte.
abbrev pub wide_source_load : List StoredSourcePublish → NodeId → Ipv4Addr → ℕ → ℕ → ℕ
wide_source_load xs target ip tcp udp =
    let n = count_if (source_of_target target) xs in
    if n == 0
    then 1
    else if ltb 1000 n && not (any (is_same_source target ip tcp udp) xs)
    then 100
    else n * 100 / 1000

abbrev pub wide_notes_load : List StoredNotesPublish → NodeId → NodeId → Ipv4Addr → ℕ
wide_notes_load xs target id ip =
    let n = count_if (note_of_target target) xs in
    if n == 0
    then 1
    else if ltb 150 n && not (any (is_same_note target id ip) xs)
    then 100
    else n * 100 / 150

abbrev pub wide_keyword_load : List StoredKeywordPublish → NodeId → Ed2kHash → ℕ
wide_keyword_load xs target h =
    let n = keyword_source_count xs target in
    if ltb 60_000 (length xs)
    then 100
    else if n == 0
    then 1
    else if ltb 50_000 n || keyword_source_exists xs target h && ltb 45_000 n
    then 100
    else n * 100 / 50_000

-- For every publish at the instant, the load of the entries that are alive then is the one before the
-- cast.
pub record IsExact (now : ℕ) (s : KadLocalStore) : Type 0 where
  pub sources :
      (target : NodeId) (ip : Ipv4Addr) (tcp udp : ℕ)
      → stock_source_publish_load
          (purge_expired
            (λ (e : StoredSourcePublish). e.observed_at)
            s.config.source_ttl
            now
            s.source_entries)
          target
          ip
          tcp
          udp
        ≡ wide_source_load
            (purge_expired
              (λ (e : StoredSourcePublish). e.observed_at)
              s.config.source_ttl
              now
              s.source_entries)
            target
            ip
            tcp
            udp
  pub notes :
      (target id : NodeId) (ip : Ipv4Addr)
      → stock_notes_publish_load
          (purge_expired
            (λ (e : StoredNotesPublish). e.observed_at)
            s.config.notes_ttl
            now
            s.notes_entries)
          target
          id
          ip
        ≡ wide_notes_load
            (purge_expired
              (λ (e : StoredNotesPublish). e.observed_at)
              s.config.notes_ttl
              now
              s.notes_entries)
            target
            id
            ip
  pub keywords :
      (xs : List StoredKeywordPublish) (target : NodeId) (h : Ed2kHash)
      → (stock_keyword_publish_decision xs target h).0 ≡ wide_keyword_load xs target h

source_load-wide :
    (xs : List StoredSourcePublish) (target : NodeId) (ip : Ipv4Addr) (tcp udp : ℕ)
    → count_if (source_of_target target) xs ≤ 1001
    → stock_source_publish_load xs target ip tcp udp ≡ wide_source_load xs target ip tcp udp
unfolding stock_source_publish_load
source_load-wide xs target ip tcp udp h =
    let n = count_if (source_of_target target) xs in ground arith

notes_load-wide :
    (xs : List StoredNotesPublish) (target id : NodeId) (ip : Ipv4Addr)
    → count_if (note_of_target target) xs ≤ 151
    → stock_notes_publish_load xs target id ip ≡ wide_notes_load xs target id ip
unfolding stock_notes_publish_load
notes_load-wide xs target id ip h = let n = count_if (note_of_target target) xs in ground arith

decision-wide :
    (xs : List StoredKeywordPublish) (target : NodeId) (h : Ed2kHash)
    → (stock_keyword_publish_decision xs target h).0 ≡ wide_keyword_load xs target h
unfolding stock_keyword_publish_decision
decision-wide xs target h = let n = keyword_source_count xs target in ground arith

IsStore-IsExact : (now : ℕ) (s : KadLocalStore) → IsStore s → IsExact now s
IsStore-IsExact now s h = record {
  sources = λ target ip tcp udp. source_load-wide _ target ip tcp udp (
      (purge-IsSourceList s.config.source_capacity s.config.source_ttl now s.source_entries
          h.sources).is_fair
        target);
  notes = λ target id ip. notes_load-wide _ target id ip (
      (purge-IsNotesList s.config.notes_capacity s.config.notes_ttl now s.notes_entries
          h.notes).is_fair
        target);
  keywords = decision-wide;
}

module _ (to_lowercase : Text → Text) where
  decision-le :
      (xs : List StoredKeywordPublish) (target : NodeId) (h : Ed2kHash)
      → (stock_keyword_publish_decision xs target h).0 ≤ 100
  unfolding stock_keyword_publish_decision
  decision-le xs target h = ground arith

  step-le :
      (capacity now : ℕ) (target : NodeId) (p : PublishEntry) (xs : List StoredKeywordPublish)
      (load : ℕ)
      → load ≤ 100
      → (keyword_publish_step capacity now target p (xs, load)).1 ≤ 100
  unfolding keyword_publish_step
  step-le capacity now target p xs load h =
      let d = decision-le xs target p.hash in
      elim (Option-cases (stock_keyword_file_size p.tags)) [
        | inl e ↦ rw (e, keyword_publish_step) h
        | inr (size, e) ↦ elim (Bool-cases (has_stock_keyword_filename p.tags)) [
          | inl f ↦ elim (Bool-cases (stock_keyword_publish_decision xs target p.hash).1) [
            | inl g ↦ rw (e, f, g, keyword_publish_step) d
            | inr g ↦ rw (e, f, g, keyword_publish_step) d
          ]
          | inr f ↦ rw (e, f, keyword_publish_step) h
        ]
      ]

  loop-le :
      (capacity now : ℕ) (target : NodeId) (ps : List PublishEntry) (xs : List StoredKeywordPublish)
      (load : ℕ)
      → load ≤ 100
      → (keyword_publish_loop capacity now target ps (xs, load)).1 ≤ 100
  unfolding keyword_publish_loop
  loop-le capacity now target [] xs load h = h
  loop-le capacity now target (p ∷ ps) xs load h =
      let r = keyword_publish_step capacity now target p (xs, load) in
      loop-le capacity now target ps r.0 r.1 (step-le capacity now target p xs load h)

  source_load-le :
      (xs : List StoredSourcePublish) (target : NodeId) (ip : Ipv4Addr) (tcp udp : ℕ)
      → count_if (source_of_target target) xs ≤ 1001
      → stock_source_publish_load xs target ip tcp udp ≤ 100
  unfolding stock_source_publish_load
  source_load-le xs target ip tcp udp h =
      let n = count_if (source_of_target target) xs in ground arith

  notes_load-le :
      (xs : List StoredNotesPublish) (target id : NodeId) (ip : Ipv4Addr)
      → count_if (note_of_target target) xs ≤ 151
      → stock_notes_publish_load xs target id ip ≤ 100
  unfolding stock_notes_publish_load
  notes_load-le xs target id ip h = let n = count_if (note_of_target target) xs in ground arith

  batch-le :
      (target : NodeId) (ps : List PublishEntry) (now : ℕ) (s : KadLocalStore)
      → (record_keyword_publish_batch target ps now s).1 ≤ 100
  unfolding record_keyword_publish_batch
  batch-le target ps now s =
      let xs =
        purge_expired (λ (e : StoredKeywordPublish). e.observed_at) s.config.keyword_ttl now
          s.keyword_entries in
      let (ys, load) = keyword_publish_loop s.config.keyword_capacity now target ps (xs, 0) in
      if_case (λ (r : KadLocalStore × ℕ). r.1 ≤ 100) (not s.config.enabled) (s, 0)
        (record s { keyword_entries = ys }, load) (λ _. omega arith)
        (λ _. loop-le s.config.keyword_capacity now target ps xs 0 (omega arith))

  source-le :
      (target id : NodeId) (ip : Ipv4Addr) (udp : ℕ) (tags : List Tag) (now : ℕ) (s : KadLocalStore)
      → IsStore s
      → or_zero (record_source_publish target id ip udp tags now s).1 ≤ 100
  unfolding record_source_publish
  source-le target id ip udp tags now s h =
      let P : KadLocalStore × Option ℕ → Type 0 = λ r. or_zero r.1 ≤ 100 in
      let z : 0 ≤ 100 = omega arith in
      let xs =
        purge_expired (λ (e : StoredSourcePublish). e.observed_at) s.config.source_ttl now
          s.source_entries in
      let k =
        purge-IsSourceList s.config.source_capacity s.config.source_ttl now s.source_entries
          h.sources in
      if_case P (not s.config.enabled) (s, none) _ (λ _. z)
        λ _.
          if_case P (not (is_stock_source_publish tags)) (s, none) _ (λ _. z)
            λ _.
              if_case P (is_unspecified ip || udp == 0) (s, none) _ (λ _. z)
                λ _. elim (Option-cases (stock_source_tcp_port tags)) [
                  | inl e ↦ rw e z
                  | inr (tcp, e) ↦ rw e (source_load-le xs target ip tcp udp (k.is_fair target))
                ]

  notes-le :
      (target id : NodeId) (ip : Ipv4Addr) (tags : List Tag) (now : ℕ) (s : KadLocalStore)
      → IsStore s
      → or_zero (record_notes_publish target id ip tags now s).1 ≤ 100
  unfolding record_notes_publish
  notes-le target id ip tags now s h =
      let P : KadLocalStore × Option ℕ → Type 0 = λ r. or_zero r.1 ≤ 100 in
      let z : 0 ≤ 100 = omega arith in
      let xs =
        purge_expired (λ (e : StoredNotesPublish). e.observed_at) s.config.notes_ttl now
          s.notes_entries in
      let k =
        purge-IsNotesList s.config.notes_capacity s.config.notes_ttl now s.notes_entries h.notes in
      if_case P (not s.config.enabled) (s, none) _ (λ _. z)
        λ _.
          if_case P (is_unspecified ip || not (has_stock_note_tags tags)) (s, none) _ (λ _. z)
            λ _. notes_load-le xs target id ip (k.is_fair target)

  apply-le : (o : Operation) (s : KadLocalStore) → IsStore s → (apply to_lowercase o s).1 ≤ 100
  unfolding apply
  apply-le (publish_keywords target ps now) s h = batch-le target ps now s
  apply-le (publish_source target id ip udp tags now) s h = source-le target id ip udp tags now s h
  apply-le (publish_notes target id ip tags now) s h = notes-le target id ip tags now s h
  apply-le (search_keywords sender r limit now) s h = omega arith
  apply-le (search_sources sender r limit now) s h = omega arith
  apply-le (search_notes sender r limit now) s h = omega arith

  -- After any publishes and searches on a new store, the load that a publish is answered with is at
  -- most 100, and for every publish at any instant the load before the cast to a byte is the same as the
  -- load after it: the cast does not wrap.
  pub run-load :
      (config : KadConfig) (os : List Operation) (o : Operation)
      → ((apply to_lowercase o (run to_lowercase os (new_store (from_kad_config config)))).1 ≤ 100)
        × ((now : ℕ) → IsExact now (run to_lowercase os (new_store (from_kad_config config))))
  run-load config os o =
      let h = run-IsStore to_lowercase config os in
      let s = run to_lowercase os (new_store (from_kad_config config)) in
      (apply-le o s h, λ now. IsStore-IsExact now s h)
