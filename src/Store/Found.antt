-- ===== src/Store/Found.antt =====
-- kad_store.rs: which source publishes are recorded, and that a search finds them.
use p2p_overlord_agents.Kad.Packet.{SearchSourceReq, SearchRes, SearchResultEntry}
use p2p_overlord_agents.Base.{
  ℕ, ◌+◌, ◌≤◌, ◌<◌, ◌≡◌, refl, ap, sym, subst, ◌∙◌, inl, inr, Bool, true, false, not, ◌&&◌, ◌||◌,
  Option, none, some, List, [], ◌∷◌, ltb, ◌==◌, arith, length, keep_if, any, map, same_iff,
  Bool-cases, Option-cases, if_case, some_equal, lt→ltb, length-keep_if-le,
}
use p2p_overlord_agents.Base.Member.{
  In, rev, In-right, In-rev, In-keep_if, take_all, In-map, length-rev,
}
use p2p_overlord_agents.Kad.NodeId.{NodeId, NodeId-discrete}
use p2p_overlord_agents.Kad.Routing.Contact.{Ipv4Addr}
use p2p_overlord_agents.Kad.Tag.{Tag}
use p2p_overlord_agents.Store.Entries.{replace_match, push_bounded, purge_expired}
use p2p_overlord_agents.Store.FileSize.{stock_source_file_size_matches_request}
use p2p_overlord_agents.Store.Tags.{
  is_some, is_stock_source_publish, stock_source_tcp_port, stock_stored_source_publish_tags,
}
use p2p_overlord_agents.Store.Publish.{
  KadLocalStore, StoredSourcePublish, source_of_target, is_same_source, is_unspecified,
  source_entry, upsert_source_entry, record_source_publish,
}
use p2p_overlord_agents.Store.Search.{search_response, source_result, source_search_response}

-- The conditions under which a source publish is answered.
unfoldable pub accepts_source : KadLocalStore → Ipv4Addr → ℕ → List Tag → Bool
accepts_source s ip udp tags =
    (s.config.enabled && is_stock_source_publish tags)
    && (not (is_unspecified ip || udp == 0) && is_some (stock_source_tcp_port tags))

-- What a source publish does: nothing, without an answer; or it is answered and recorded.
pub data Recorded (s : KadLocalStore) (target id : NodeId) (ip : Ipv4Addr) (udp : ℕ)
    (tags : List Tag) (now : ℕ) (out : KadLocalStore × Option ℕ) : Type 0 where
  refused :
      accepts_source s ip udp tags ≡ false
      → out ≡ (s, none)
      → Recorded s target id ip udp tags now out
  recorded :
      accepts_source s ip udp tags ≡ true
      → (tcp : ℕ) → stock_source_tcp_port tags ≡ some tcp
      → In (source_entry now target id ip tcp udp tags) out.0.source_entries
      → out.0.config ≡ s.config
      → is_some out.1 ≡ true
      → Recorded s target id ip udp tags now out

In-replace_match :
    {A : Type 0} (p : A → Bool) (a : A) (xs : List A)
    → any p xs ≡ true
    → In a (replace_match p a xs)
unfolding replace_match
In-replace_match p a [] e = ground arith
In-replace_match p a (x ∷ xs) e = elim (Bool-cases (p x)) [
  | inl h ↦ rw h (inl refl)
  | inr h ↦ rw h (inr (In-replace_match p a xs (rw h at e)))
]

In-upsert_source_entry :
    (capacity : ℕ) (a : StoredSourcePublish) (xs : List StoredSourcePublish)
    → In a (upsert_source_entry capacity a xs)
unfolding upsert_source_entry push_bounded
In-upsert_source_entry capacity a xs =
    let p = is_same_source a.target a.source_ip a.source_tcp_port a.source_udp_port in
    if_case (In a) (any p xs) (replace_match p a xs) _ (In-replace_match p a xs)
      (λ _. In-right a _ (a ∷ []) (inl refl))

-- A source publish is refused exactly where the store is disabled, no tag names a source type, the
-- address or the UDP port is zero, or no tag tells a TCP port; then the store stays as it is and
-- there is no answer. Otherwise it is answered, and the source is in the store.
pub record_source_publish-Recorded :
    (target id : NodeId) (ip : Ipv4Addr) (udp : ℕ) (tags : List Tag) (now : ℕ) (s : KadLocalStore)
    → Recorded s target id ip udp tags now (record_source_publish target id ip udp tags now s)
unfolding record_source_publish
record_source_publish-Recorded target id ip udp tags now s =
    let P : KadLocalStore × Option ℕ → Type 0 = Recorded s target id ip udp tags now in
    if_case P (not s.config.enabled) (s, none) _
      (λ a. refused (unfold accepts_source in ground (arith, a)) refl)
      λ a.
        if_case P (not (is_stock_source_publish tags)) (s, none) _
          (λ b. refused (unfold accepts_source in ground (arith, b)) refl)
          λ b.
            if_case P (is_unspecified ip || udp == 0) (s, none) _
              (λ c. refused (unfold accepts_source in ground (arith, c)) refl)
              λ c. elim (Option-cases (stock_source_tcp_port tags)) [
                | inl e ↦ rw e (refused (unfold accepts_source in ground (arith, e)) refl)
                | inr (tcp, e) ↦
                    let xs =
                      purge_expired (λ (e : StoredSourcePublish). e.observed_at) s.config.source_ttl
                        now s.source_entries in
                    rw e (
                      recorded (unfold accepts_source in ground (arith, a, b, c, e)) tcp e
                        (In-upsert_source_entry s.config.source_capacity
                          (source_entry now target id ip tcp udp tags) xs)
                        refl refl)
              ]

answer_finds :
    (sender target : NodeId) (rs : List SearchResultEntry) (x : SearchResultEntry)
    → In x rs
    → (res : SearchRes) × (search_response sender target rs ≡ some res) × In x res.results
unfolding search_response
answer_finds sender target [] x h = absurd h
answer_finds sender target (r ∷ rs) x h =
    (record { sender_id = sender; target = target; results = r ∷ rs }, refl, h)

-- A source entry that is in the store is found by a search for its file that begins at the first
-- entry, while it is not expired and tells no other size, where the answer may have as many results
-- as the store has sources.
source_search-finds :
    (e : StoredSourcePublish) (s : KadLocalStore) (sender : NodeId) (r : SearchSourceReq)
    (limit later : ℕ)
    → In e s.source_entries
    → s.config.enabled ≡ true
    → e.target ≡ r.target
    → r.start_position ≡ 0
    → later < e.observed_at + s.config.source_ttl
    → stock_source_file_size_matches_request e.tags r.size ≡ true
    → 1 ≤ limit
    → length s.source_entries ≤ limit
    → (res : SearchRes) × ((source_search_response sender r limit later s).1 ≡ some res)
      × In (source_result e) res.results
unfolding source_search_response purge_expired
source_search-finds e s sender r limit later i on t0 p0 fresh size l1 room =
    let alive : StoredSourcePublish → Bool = λ e. ltb later (e.observed_at + s.config.source_ttl) in
    let sized : StoredSourcePublish → Bool =
      λ e. stock_source_file_size_matches_request e.tags r.size in
    let of : StoredSourcePublish → Bool = source_of_target r.target in
    let P : KadLocalStore × Option SearchRes → Type 0 =
      λ x. (res : SearchRes) × (x.1 ≡ some res) × In (source_result e) res.results in
    let a =
      In-keep_if alive e s.source_entries (lt→ltb later (e.observed_at + s.config.source_ttl) fresh)
        i in
    let xs = keep_if alive s.source_entries in
    let b =
      In-keep_if of e (rev xs) ((same_iff NodeId-discrete e.target r.target).1 t0)
        (In-rev e xs a) in
    let ys = keep_if of (rev xs) in
    let c = In-keep_if sized e ys size b in
    let few : length (keep_if sized ys) ≤ limit = omega (
      arith,
      length-keep_if-le sized ys,
      length-keep_if-le of (rev xs),
      length-rev xs,
      length-keep_if-le alive s.source_entries,
      room,
    ) in
    if_case P (not s.config.enabled || limit == 0) (s, none) _ (λ z. ground (arith, z, on, l1))
      (λ _.
        rw (p0, take_all limit (keep_if sized ys) few)
          (answer_finds sender r.target (map source_result (keep_if sized ys)) (source_result e)
            (In-map source_result e (keep_if sized ys) c)))

-- A source publish that is answered is found by the next operation, where that is a search of sources
-- for its file that begins at the first result, before the time to live has passed, with a limit of at
-- least the number of stored sources, and for no size or for one that does not contradict the stored
-- tags: the answer has a result made of the published source.
pub source_search-record_source_publish :
    (target id : NodeId) (ip : Ipv4Addr) (udp : ℕ) (tags : List Tag) (now : ℕ) (s : KadLocalStore)
    (tcp : ℕ)
    → accepts_source s ip udp tags ≡ true
    → stock_source_tcp_port tags ≡ some tcp
    → (sender : NodeId) (r : SearchSourceReq) (limit later : ℕ) → r.target ≡ target
    → r.start_position ≡ 0
    → later < now + s.config.source_ttl
    → stock_source_file_size_matches_request (stock_stored_source_publish_tags tags) r.size ≡ true
    → 1 ≤ limit
    → length (record_source_publish target id ip udp tags now s).0.source_entries ≤ limit
    → (res : SearchRes) × ((source_search_response sender r limit later
          (record_source_publish target id ip udp tags now s).0).1
        ≡ some res)
      × In (source_result (source_entry now target id ip tcp udp tags)) res.results
source_search-record_source_publish target id ip udp tags now s tcp ok port sender r limit later t0
      p0 fresh size l1 room =
    elim (record_source_publish-Recorded target id ip udp tags now s) [
      | refused not_ok _ ↦ ground (arith, ok, not_ok)
      | recorded _ tcp' port' i same_config _ ↦
          let s' = (record_source_publish target id ip udp tags now s).0 in
          let e = source_entry now target id ip tcp udp tags in
          let same_port : tcp' ≡ tcp = some_equal (sym port' ∙ port) in
          let on : s.config.enabled ≡ true = unfold accepts_source in ground (arith, ok) in
          source_search-finds e s' sender r limit later
            (subst (λ p. In (source_entry now target id ip p udp tags) s'.source_entries) same_port
              i)
            (ap (λ c. c.enabled) same_config ∙ on) (sym t0) p0 (rw same_config fresh) size l1 room
    ]
