-- ===== src/Store/Run.antt =====
-- kad_store.rs: sequences of publishes and searches on a new store.
use p2p_overlord_agents.Kad.Packet.{PublishEntry, SearchKeyReq, SearchSourceReq, SearchNotesReq}
use p2p_overlord_agents.Base.{ℕ, Option, none, some, List, [], ◌∷◌}
use p2p_overlord_agents.Kad.NodeId.{NodeId}
use p2p_overlord_agents.Kad.Routing.Contact.{Ipv4Addr}
use p2p_overlord_agents.Kad.Utf8.{Text}
use p2p_overlord_agents.Kad.Tag.{Tag}
use p2p_overlord_agents.Store.Publish.{
  KadLocalStore, KadConfig, from_kad_config, new_store, record_keyword_publish_batch,
  record_source_publish, record_notes_publish,
}
use p2p_overlord_agents.Store.Search.{
  keyword_search_response, source_search_response, notes_search_response,
}
use p2p_overlord_agents.Store.Invariant.{IsStore}
use p2p_overlord_agents.Store.Preserve.{
  record_keyword_publish_batch-IsStore, record_source_publish-IsStore, record_notes_publish-IsStore,
  keyword_search_response-IsStore, source_search_response-IsStore, notes_search_response-IsStore,
  new_store-IsStore,
}

-- The calls of other parts of the agent, each with the instant at which it is made.
pub data Operation : Type 0 where
  publish_keywords : NodeId → List PublishEntry → ℕ → Operation
  publish_source : NodeId → NodeId → Ipv4Addr → ℕ → List Tag → ℕ → Operation
  publish_notes : NodeId → NodeId → Ipv4Addr → List Tag → ℕ → Operation
  search_keywords : NodeId → SearchKeyReq → ℕ → ℕ → Operation
  search_sources : NodeId → SearchSourceReq → ℕ → ℕ → Operation
  search_notes : NodeId → SearchNotesReq → ℕ → ℕ → Operation

-- The load that a publish is answered with; 0 where there is no answer.
abbrev pub or_zero : Option ℕ → ℕ
or_zero none = 0
or_zero (some n) = n

module _ (to_lowercase : Text → Text) where
  unfoldable pub apply : Operation → KadLocalStore → KadLocalStore × ℕ
  unfolding record_keyword_publish_batch record_source_publish record_notes_publish
      keyword_search_response source_search_response notes_search_response
  apply (publish_keywords target ps now) s = record_keyword_publish_batch target ps now s
  apply (publish_source target id ip udp tags now) s =
      let (s', load) = record_source_publish target id ip udp tags now s in (s', or_zero load)
  apply (publish_notes target id ip tags now) s =
      let (s', load) = record_notes_publish target id ip tags now s in (s', or_zero load)
  apply (search_keywords sender r limit now) s =
      ((keyword_search_response to_lowercase sender r limit now s).0, 0)
  apply (search_sources sender r limit now) s = ((source_search_response sender r limit now s).0, 0)
  apply (search_notes sender r limit now) s = ((notes_search_response sender r limit now s).0, 0)

  unfoldable pub run : List Operation → KadLocalStore → KadLocalStore
  unfolding apply
  run [] s = s
  run (o ∷ os) s = run os (apply o s).0

  apply-IsStore : (o : Operation) (s : KadLocalStore) → IsStore s → IsStore (apply o s).0
  unfolding apply
  apply-IsStore (publish_keywords target ps now) s h =
      record_keyword_publish_batch-IsStore target ps now s h
  apply-IsStore (publish_source target id ip udp tags now) s h =
      record_source_publish-IsStore target id ip udp tags now s h
  apply-IsStore (publish_notes target id ip tags now) s h =
      record_notes_publish-IsStore target id ip tags now s h
  apply-IsStore (search_keywords sender r limit now) s h =
      keyword_search_response-IsStore to_lowercase sender r limit now s h
  apply-IsStore (search_sources sender r limit now) s h =
      source_search_response-IsStore sender r limit now s h
  apply-IsStore (search_notes sender r limit now) s h =
      notes_search_response-IsStore sender r limit now s h

  run_from : (os : List Operation) (s : KadLocalStore) → IsStore s → IsStore (run os s)
  unfolding run
  run_from [] s h = h
  run_from (o ∷ os) s h = run_from os (apply o s).0 (apply-IsStore o s h)

  -- After any publishes and searches on a new store, whatever its configuration: each list is within
  -- its capacity, the key of each keyword entry is made of its target, its file hash and the size that
  -- its tags tell, no two have the same key, no file has more than 1,001 sources or 151 notes.
  pub run-IsStore :
      (config : KadConfig) (os : List Operation)
      → IsStore (run os (new_store (from_kad_config config)))
  run-IsStore config os =
      run_from os (new_store (from_kad_config config)) (new_store-IsStore config)
