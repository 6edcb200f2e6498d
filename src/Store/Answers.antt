-- ===== src/Store/Answers.antt =====
-- kad_store.rs: what a search is answered with, and that it finds what was published before.
use p2p_overlord_agents.Kad.Packet.{SearchKeyReq, SearchSourceReq, SearchRes, SearchResultEntry}
use p2p_overlord_agents.Base.{
  ℕ, ◌+◌, ◌≤◌, ◌<◌, ◌≡◌, refl, sym, subst, Bool, true, not, ◌||◌, Option, none, some, List, [], ◌∷◌,
  ltb, ◌==◌, if◌then◌else◌, arith, length, keep_if, All, take, map, same_iff, if_case, some_equal,
  ltb→lt,
}
use p2p_overlord_agents.Base.Member.{
  In, rev, skip, rev-In, keep_if-In, take-In, skip-In, length-take-le, All-of_In, length-map,
  map-All,
}
use p2p_overlord_agents.Kad.NodeId.{NodeId, NodeId-discrete}
use p2p_overlord_agents.Kad.Utf8.{Text}
use p2p_overlord_agents.Store.Entries.{purge_expired}
use p2p_overlord_agents.Store.FileSize.{stock_source_file_size_matches_request}
use p2p_overlord_agents.Store.Publish.{
  KadLocalStore, StoredSourcePublish, StoredKeywordPublish, source_of_target, keyword_of_target,
}
use p2p_overlord_agents.Store.Search.{
  offset_of, is_restrictive, search_response, source_result, keyword_result, source_search_response,
  keyword_search_response, keyword_entry_matches_restrictive_payload,
}

-- An answer of one to `limit` results, each made of an entry that is eligible.
pub record IsAnswer {A : Type 0} (result : A → SearchResultEntry) (eligible : A → Type 0)
    (sender target : NodeId) (limit : ℕ) (res : SearchRes) : Type 0 where
  pub same_sender : res.sender_id ≡ sender
  pub same_target : res.target ≡ target
  pub is_filled : 1 ≤ length res.results
  pub is_limited : length res.results ≤ limit
  pub is_eligible :
      All (λ (x : SearchResultEntry). (a : A) × eligible a × (result a ≡ x)) res.results

search_response-some :
    (sender target : NodeId) (rs : List SearchResultEntry) (res : SearchRes)
    → search_response sender target rs ≡ some res
    → (res ≡ record { sender_id = sender; target = target; results = rs }) × (1 ≤ length rs)
unfolding search_response
search_response-some sender target [] res e = ground arith
search_response-some sender target (r ∷ rs) res e = (sym (some_equal e), omega arith)

IsAnswer-of :
    {A : Type 0} (result : A → SearchResultEntry) (eligible : A → Type 0) (sender target : NodeId)
    (limit : ℕ) (xs : List A) (res : SearchRes)
    → ((a : A) → In a xs → eligible a)
    → search_response sender target (map result (take limit xs)) ≡ some res
    → IsAnswer result eligible sender target limit res
IsAnswer-of {A} result eligible sender target limit xs res f e =
    let ys = take limit xs in
    let (z, n) = search_response-some sender target (map result ys) res e in
    let made : IsAnswer result eligible sender target limit
        (record { sender_id = sender; target = target; results = map result ys }) =
      record {
        same_sender = refl;
        same_target = refl;
        is_filled = n;
        is_limited = omega (arith, length-map result ys, length-take-le limit xs);
        is_eligible =
            map-All result (λ (x : SearchResultEntry). (a : A) × eligible a × (result a ≡ x)) ys
              (All-of_In (λ (b : A). (a : A) × eligible a × (result a ≡ result b)) ys
                (λ a i. (a, f a (take-In limit a xs i), refl)));
      } in
    subst (IsAnswer result eligible sender target limit) (sym z) made

-- A source of the file, not expired, and of the size that is asked for.
pub record IsFoundSource (s : KadLocalStore) (r : SearchSourceReq) (now : ℕ)
    (e : StoredSourcePublish) : Type 0 where
  pub is_stored : In e s.source_entries
  pub is_of_target : e.target ≡ r.target
  pub is_alive : now < e.observed_at + s.config.source_ttl
  pub is_of_size : stock_source_file_size_matches_request e.tags r.size ≡ true

-- A keyword entry of the target, not expired, that the search expression matches.
pub record IsFoundKeyword (to_lowercase : Text → Text) (s : KadLocalStore) (r : SearchKeyReq)
    (now : ℕ) (e : StoredKeywordPublish) : Type 0 where
  pub is_stored : In e s.keyword_entries
  pub is_of_target : e.target ≡ r.target
  pub is_alive : now < e.observed_at + s.config.keyword_ttl
  pub is_matched :
      keyword_entry_matches_restrictive_payload to_lowercase
        (if is_restrictive r.start_position then some r.restrictive_payload else none)
        e
      ≡ true

-- Every answer to a source search has one to `limit` results, and each result is made of a source
-- of the file that was in the store, is not expired, and does not tell another size.
pub source_search_response-IsAnswer :
    (sender : NodeId) (r : SearchSourceReq) (limit now : ℕ) (s : KadLocalStore) (res : SearchRes)
    → (source_search_response sender r limit now s).1 ≡ some res
    → IsAnswer source_result (IsFoundSource s r now) sender r.target limit res
unfolding source_search_response purge_expired
source_search_response-IsAnswer sender r limit now s res =
    let P : KadLocalStore × Option SearchRes → Type 0 = λ x.
      x.1 ≡ some res → IsAnswer source_result (IsFoundSource s r now) sender r.target limit res in
    if_case P (not s.config.enabled || limit == 0) (s, none) _ (λ _ e. ground arith)
      λ _.
        let alive : StoredSourcePublish → Bool =
          λ e. ltb now (e.observed_at + s.config.source_ttl) in
        let sized : StoredSourcePublish → Bool =
          λ e. stock_source_file_size_matches_request e.tags r.size in
        let xs = keep_if alive s.source_entries in
        let ys = skip (offset_of r.start_position) (keep_if (source_of_target r.target) (rev xs)) in
        IsAnswer-of source_result (IsFoundSource s r now) sender r.target limit (keep_if sized ys)
          res
          (λ e i.
            let (j, fits) = keep_if-In sized e ys i in
            let k =
              skip-In (offset_of r.start_position) e (keep_if (source_of_target r.target) (rev xs))
                j in
            let (l, of) = keep_if-In (source_of_target r.target) e (rev xs) k in
            let (m, fresh) = keep_if-In alive e s.source_entries (rev-In e xs l) in
            record {
              is_stored = m;
              is_of_target = (same_iff NodeId-discrete e.target r.target).0 of;
              is_alive = ltb→lt now (e.observed_at + s.config.source_ttl) fresh;
              is_of_size = fits;
            })

-- Every answer to a keyword search has one to `limit` results, and each result is made of an entry
-- of the keyword that was in the store, is not expired, and matches the search expression where the
-- search is restrictive.
pub keyword_search_response-IsAnswer :
    (to_lowercase : Text → Text) (sender : NodeId) (r : SearchKeyReq) (limit now : ℕ)
    (s : KadLocalStore) (res : SearchRes)
    → (keyword_search_response to_lowercase sender r limit now s).1 ≡ some res
    → IsAnswer keyword_result (IsFoundKeyword to_lowercase s r now) sender r.target limit res
unfolding keyword_search_response purge_expired
keyword_search_response-IsAnswer to_lowercase sender r limit now s res =
    let good = IsFoundKeyword to_lowercase s r now in
    let P : KadLocalStore × Option SearchRes → Type 0 =
      λ x. x.1 ≡ some res → IsAnswer keyword_result good sender r.target limit res in
    if_case P (not s.config.enabled || limit == 0) (s, none) _ (λ _ e. ground arith)
      λ _.
        let alive : StoredKeywordPublish → Bool =
          λ e. ltb now (e.observed_at + s.config.keyword_ttl) in
        let matching =
          keyword_entry_matches_restrictive_payload to_lowercase
            (if is_restrictive r.start_position then some r.restrictive_payload else none) in
        let xs = keep_if alive s.keyword_entries in
        let ys = keep_if (keyword_of_target r.target) xs in
        IsAnswer-of keyword_result good sender r.target limit
          (skip (offset_of r.start_position) (keep_if matching ys)) res
          (λ e i.
            let (k, fits) =
              keep_if-In matching e ys
                (skip-In (offset_of r.start_position) e (keep_if matching ys) i) in
            let (l, of) = keep_if-In (keyword_of_target r.target) e xs k in
            let (m, fresh) = keep_if-In alive e s.keyword_entries l in
            record {
              is_stored = m;
              is_of_target = (same_iff NodeId-discrete e.target r.target).0 of;
              is_alive = ltb→lt now (e.observed_at + s.config.keyword_ttl) fresh;
              is_matched = fits;
            })
