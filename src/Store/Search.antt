-- ===== src/Store/Search.antt =====
-- crates/overlord-agent-emule/src/kad_store.rs: the answers to the searches of other nodes. Only the
-- keyword search looks at the search expression.
use p2p_overlord_agents.Base.{
  ℕ, ◌/◌, ◌%◌, ◌^◌, Bool, true, false, not, ◌||◌, Option, none, some, List, [], ◌∷◌, ◌==◌,
  if◌then◌else◌, keep_if, take, map,
}
use p2p_overlord_agents.Base.Member.{skip, rev}
use p2p_overlord_agents.Kad.Packet.{
  SearchKeyReq, SearchSourceReq, SearchNotesReq, SearchResultEntry, SearchRes,
}
use p2p_overlord_agents.Kad.NodeId.{NodeId, to_be_bytes}
use p2p_overlord_agents.Kad.Utf8.{Text}
use p2p_overlord_agents.Store.Entries.{purge_expired}
use p2p_overlord_agents.Store.FileSize.{
  stock_source_file_size_matches_request, stock_notes_file_size_matches_request,
}
use p2p_overlord_agents.Store.Tags.{
  stock_first_filename, keyword_result_tags, source_result_tags, notes_result_tags,
}
use p2p_overlord_agents.Store.Expr.{matches_restrictive_keyword_payload}
use p2p_overlord_agents.Store.Publish.{
  KadLocalStore, StoredKeywordPublish, StoredSourcePublish, StoredNotesPublish, keyword_of_target,
  source_of_target, note_of_target,
}

-- `start_position & 0x7FFF`, and whether the highest bit of the 16 is set.
abbrev pub offset_of : ℕ → ℕ
offset_of n = n % 2 ^ 15

abbrev pub is_restrictive : ℕ → Bool
is_restrictive n = n / 2 ^ 15 % 2 == 1

unfoldable pub search_response : NodeId → NodeId → List SearchResultEntry → Option SearchRes
search_response sender target [] = none
search_response sender target (r ∷ rs) =
    some (record { sender_id = sender; target = target; results = r ∷ rs })

unfoldable pub source_result : StoredSourcePublish → SearchResultEntry
source_result e = record {
  entry_id = to_be_bytes e.publisher_id;
  tags = source_result_tags e.source_ip e.tags;
}

unfoldable pub notes_result : StoredNotesPublish → SearchResultEntry
notes_result e = record { entry_id = to_be_bytes e.publisher_id; tags = notes_result_tags e.tags }

unfoldable pub keyword_result : StoredKeywordPublish → SearchResultEntry
keyword_result e = record { entry_id = e.file_hash; tags = keyword_result_tags e.tags }

unfoldable pub source_search_response :
    NodeId → SearchSourceReq → ℕ → ℕ → KadLocalStore → KadLocalStore × Option SearchRes
unfolding purge_expired search_response source_result
source_search_response sender r limit now s =
    if not s.config.enabled || limit == 0
    then (s, none)
    else (let xs =
          purge_expired (λ (e : StoredSourcePublish). e.observed_at) s.config.source_ttl now
            s.source_entries in
        (
          record s { source_entries = xs },
          search_response sender r.target (
              map source_result (
                take limit (
                  keep_if
                    (λ (e : StoredSourcePublish).
                      stock_source_file_size_matches_request e.tags r.size)
                    (skip (offset_of r.start_position)
                      (keep_if (source_of_target r.target) (rev xs)))))),
        ))

unfoldable pub notes_search_response :
    NodeId → SearchNotesReq → ℕ → ℕ → KadLocalStore → KadLocalStore × Option SearchRes
unfolding purge_expired search_response notes_result
notes_search_response sender r limit now s =
    if not s.config.enabled || limit == 0
    then (s, none)
    else (let xs =
          purge_expired (λ (e : StoredNotesPublish). e.observed_at) s.config.notes_ttl now
            s.notes_entries in
        (
          record s { notes_entries = xs },
          search_response sender r.target (
              map notes_result (
                take limit (
                  keep_if
                    (λ (e : StoredNotesPublish).
                      stock_notes_file_size_matches_request e.tags r.size)
                    (keep_if (note_of_target r.target) (rev xs))))),
        ))

module _ (to_lowercase : Text → Text) where
  -- The payload is `none` where the search is not restrictive.
  unfoldable pub keyword_entry_matches_restrictive_payload :
      Option (List ℕ) → StoredKeywordPublish → Bool
  keyword_entry_matches_restrictive_payload none e = true
  keyword_entry_matches_restrictive_payload (some payload) e = elim (stock_first_filename e.tags) [
    | none ↦ false
    | some name ↦ matches_restrictive_keyword_payload to_lowercase name e.tags payload
  ]

  unfoldable pub keyword_search_response :
      NodeId → SearchKeyReq → ℕ → ℕ → KadLocalStore → KadLocalStore × Option SearchRes
  unfolding purge_expired search_response keyword_result keyword_entry_matches_restrictive_payload
  keyword_search_response sender r limit now s =
      if not s.config.enabled || limit == 0
      then (s, none)
      else (let payload =
            if is_restrictive r.start_position then some r.restrictive_payload else none in
          let xs =
            purge_expired (λ (e : StoredKeywordPublish). e.observed_at) s.config.keyword_ttl now
              s.keyword_entries in
          (
            record s { keyword_entries = xs },
            search_response sender r.target (
                map keyword_result (
                  take limit (
                    skip (offset_of r.start_position) (
                      keep_if (keyword_entry_matches_restrictive_payload payload)
                        (keep_if (keyword_of_target r.target) xs))))),
          ))
