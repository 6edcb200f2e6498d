-- ===== src/Store/Tests.antt =====
-- Runs of the Kad publish cache at concrete values, and the theorems about it applied there.
use p2p_overlord_agents.Base.{
  ℕ, zero, suc, ◌+◌, ◌≤◌, ◌<◌, ◌≡◌, refl, true, false, ◌&&◌, none, some, List, [], ◌∷◌, ◌++◌, leb,
  if◌then◌else◌, map, arith, length, ℕ_discrete,
}
use p2p_overlord_agents.Base.Member.{In}
use p2p_overlord_agents.Kad.NodeId.{NodeId, NodeId-discrete, Chunk}
use p2p_overlord_agents.Kad.Utf8.{Text, is_utf8}
use p2p_overlord_agents.Kad.Routing.Contact.{Ipv4Addr, Ipv4Addr-discrete}
use p2p_overlord_agents.Kad.TagNames
use p2p_overlord_agents.Kad.Tag.{Tag, short, string, u16}
use p2p_overlord_agents.Kad.Packet.{PublishEntry, SearchKeyReq, SearchSourceReq, SearchRes}
use p2p_overlord_agents.Store.FileSize.{
  file_size_tag_value, stock_first_keyword_source_file_size, file_size_tag_value-stock_size,
  stock_source_file_size_matches_request, stock_file_size_matches_request,
}
use p2p_overlord_agents.Store.Expr.{
  greater, parse_search_term, max_search_expr_depth, matches_restrictive_keyword_payload,
}
use p2p_overlord_agents.Store.Query.{
  Query, both, words, number_u32, encode, depth, IsQuery, term_of, parse_search_term-encode,
  too_deep-refused,
}
use p2p_overlord_agents.Store.Entries.{replace_match, purge_expired, push_bounded, make_room}
use p2p_overlord_agents.Store.Tags.{
  is_stock_source_publish, tcp_port_value, stock_source_tcp_port, stock_keyword_file_size,
  has_stock_keyword_filename, stock_stored_source_publish_tags,
}
use p2p_overlord_agents.Store.Publish.{
  KadConfig, KadLocalStore, StoredSourcePublish, SourceKey, is_same_source, from_kad_config,
  new_store, record_source_publish, source_entry, upsert_source_entry, record_keyword_publish_batch,
  keyword_publish_loop, keyword_publish_step, stock_keyword_publish_decision, keyword_source_count,
  keyword_source_exists, keyword_entry, upsert_entry,
}
use p2p_overlord_agents.Store.Search.{
  source_search_response, keyword_search_response, source_result, keyword_result, search_response,
  keyword_entry_matches_restrictive_payload,
}
use p2p_overlord_agents.Store.Invariant.{IsStore}
use p2p_overlord_agents.Store.Run.{Operation, publish_source, run, apply, run-IsStore}
use p2p_overlord_agents.Store.Load.{IsExact, run-load}
use p2p_overlord_agents.Store.Answers.{
  IsAnswer, IsFoundSource, IsFoundKeyword, source_search_response-IsAnswer,
  keyword_search_response-IsAnswer,
}
use p2p_overlord_agents.Store.Found.{
  accepts_source, Recorded, record_source_publish-Recorded, source_search-record_source_publish,
}

abbrev ascii_lower : Text → Text
ascii_lower s = map (λ c. if leb 65 c && leb c 90 then c + 32 else c) s

abbrev chunk : ℕ → Chunk
chunk n = record { b0 = n; b1 = 0; b2 = 0; b3 = 0 }

abbrev id_at : ℕ → NodeId
id_at n = record { c0 = chunk n; c1 = chunk 0; c2 = chunk 0; c3 = chunk 0 }

abbrev ip_at : ℕ → Ipv4Addr
ip_at n = record { a = 10; b = 0; c = 0; d = n }

-- Two entries of each kind, which live for ten seconds.
abbrev small_config : KadConfig
small_config = record {
  local_store_enabled = true;
  local_store_keyword_ttl_secs = 10;
  local_store_source_ttl_secs = 10;
  local_store_notes_ttl_secs = 10;
  local_store_keyword_capacity = 2;
  local_store_source_capacity = 2;
  local_store_notes_capacity = 2;
}

abbrev store0 : KadLocalStore
store0 = new_store (from_kad_config small_config)

abbrev short_tag : ℕ → ℕ → Tag
short_tag name n = record { name = short name; value = u16 n }

abbrev source_tags : List Tag
source_tags = short_tag TagNames.sourcetype 1 ∷ short_tag TagNames.sourceport 4662 ∷ []

abbrev store1 : KadLocalStore
store1 = (record_source_publish (id_at 1) (id_at 7) (ip_at 1) 4672 source_tags 5 store0).0

abbrev publish_all : List Operation
publish_all =
    publish_source (id_at 1) (id_at 7) (ip_at 1) 4672 source_tags 5
    ∷ publish_source (id_at 1) (id_at 8) (ip_at 2) 4673 source_tags 6
    ∷ publish_source (id_at 2) (id_at 9) (ip_at 3) 4674 source_tags 7
    ∷ []

run_example : IsStore (run ascii_lower publish_all (new_store (from_kad_config small_config)))
run_example = run-IsStore ascii_lower small_config publish_all

load_example :
    ((apply ascii_lower
        (publish_source (id_at 1) (id_at 7) (ip_at 1) 4672 source_tags 8)
        (run ascii_lower publish_all (new_store (from_kad_config small_config)))).1
      ≤ 100)
    × ((now : ℕ)
        → IsExact now (run ascii_lower publish_all (new_store (from_kad_config small_config))))
load_example =
    run-load ascii_lower small_config publish_all
      (publish_source (id_at 1) (id_at 7) (ip_at 1) 4672 source_tags 8)

recorded_example :
    Recorded store0
      (id_at 1)
      (id_at 7)
      (ip_at 1)
      4672
      source_tags
      5
      (record_source_publish (id_at 1) (id_at 7) (ip_at 1) 4672 source_tags 5 store0)
recorded_example =
    record_source_publish-Recorded (id_at 1) (id_at 7) (ip_at 1) 4672 source_tags 5 store0

source_tags-accepted : accepts_source store0 (ip_at 1) 4672 source_tags ≡ true
unfolding accepts_source new_store from_kad_config is_stock_source_publish stock_source_tcp_port
    tcp_port_value
source_tags-accepted = refl

source_tags-port : stock_source_tcp_port source_tags ≡ some 4662
unfolding stock_source_tcp_port tcp_port_value
source_tags-port = refl

abbrev first_request : SearchSourceReq
first_request = record { target = id_at 1; start_position = 0; size = 0 }

store1_size : length store1.source_entries ≤ 2
unfolding record_source_publish new_store from_kad_config is_stock_source_publish
    stock_source_tcp_port tcp_port_value upsert_source_entry push_bounded make_room purge_expired
store1_size = omega arith

any_size :
    stock_source_file_size_matches_request (stock_stored_source_publish_tags source_tags) 0 ≡ true
unfolding stock_source_file_size_matches_request stock_file_size_matches_request
any_size = refl

later_than : 9 < 5 + store0.config.source_ttl
unfolding new_store from_kad_config
later_than = omega arith

found_example :
    (res : SearchRes) × ((source_search_response
        (id_at 3)
        first_request
        2
        9
        (record_source_publish (id_at 1) (id_at 7) (ip_at 1) 4672 source_tags 5 store0).0).1
      ≡ some res)
    × In
        (source_result (source_entry 5 (id_at 1) (id_at 7) (ip_at 1) 4662 4672 source_tags))
        res.results
found_example =
    source_search-record_source_publish (id_at 1) (id_at 7) (ip_at 1) 4672 source_tags 5 store0 4662
      source_tags-accepted source_tags-port (id_at 3) first_request 2 9 refl refl later_than
      any_size (omega arith) store1_size

abbrev source_res : SearchRes
source_res = record {
  sender_id = id_at 3;
  target = id_at 1;
  results = source_result (source_entry 5 (id_at 1) (id_at 7) (ip_at 1) 4662 4672 source_tags) ∷ [];
}

source_res_found : (source_search_response (id_at 3) first_request 2 9 store1).1 ≡ some source_res
unfolding source_search_response search_response record_source_publish new_store from_kad_config
    is_stock_source_publish stock_source_tcp_port tcp_port_value upsert_source_entry push_bounded
    make_room purge_expired stock_source_file_size_matches_request stock_file_size_matches_request
    NodeId-discrete ℕ_discrete
source_res_found = refl

source-IsAnswer_example :
    IsAnswer source_result (IsFoundSource store1 first_request 9) (id_at 3) (id_at 1) 2 source_res
source-IsAnswer_example =
    source_search_response-IsAnswer (id_at 3) first_request 2 9 store1 source_res source_res_found

-- A file of the name `ab` and of 100 bytes.
abbrev ab_file : PublishEntry
ab_file = record {
  hash = id_at 5;
  tags =
      record { name = short TagNames.filename; value = string (97 ∷ 98 ∷ []) }
      ∷ short_tag TagNames.filesize 100
      ∷ [];
}

abbrev store2 : KadLocalStore
store2 = (record_keyword_publish_batch (id_at 1) (ab_file ∷ []) 5 store0).0

abbrev ab_request : SearchKeyReq
ab_request = record { target = id_at 1; start_position = 0; restrictive_payload = [] }

abbrev keyword_res : SearchRes
keyword_res = record {
  sender_id = id_at 3;
  target = id_at 1;
  results = keyword_result (keyword_entry 5 (id_at 1) ab_file 100) ∷ [];
}

keyword_res_found :
    (keyword_search_response ascii_lower (id_at 3) ab_request 2 9 store2).1 ≡ some keyword_res
unfolding keyword_search_response search_response record_keyword_publish_batch keyword_publish_loop
    keyword_publish_step stock_keyword_publish_decision keyword_source_count keyword_source_exists
    new_store from_kad_config stock_keyword_file_size has_stock_keyword_filename upsert_entry
    push_bounded purge_expired keyword_entry_matches_restrictive_payload NodeId-discrete ℕ_discrete
keyword_res_found = refl

keyword-IsAnswer_example :
    IsAnswer keyword_result
      (IsFoundKeyword ascii_lower store2 ab_request 9)
      (id_at 3)
      (id_at 1)
      2
      keyword_res
keyword-IsAnswer_example =
    keyword_search_response-IsAnswer ascii_lower (id_at 3) ab_request 2 9 store2 keyword_res
      keyword_res_found

-- A size of two halves.
abbrev halves : List Tag
halves = short_tag TagNames.filesize 5 ∷ short_tag TagNames.filesize_hi 1 ∷ []

size_example : file_size_tag_value halves ≡ stock_first_keyword_source_file_size halves
size_example = file_size_tag_value-stock_size halves

-- `Ab` and a size above 100.
abbrev ab_query : Query
ab_query = both (words (65 ∷ 98 ∷ [])) (number_u32 (short TagNames.filesize) greater 100)

ab_query-depth : depth ab_query ≤ 24
unfolding depth
ab_query-depth = omega arith

ab_query-IsQuery : IsQuery ab_query
unfolding IsQuery is_utf8
ab_query-IsQuery = ((omega arith, refl), (tt, omega arith))

encode_example :
    parse_search_term ascii_lower max_search_expr_depth (encode ab_query ++ [])
    ≡ some (term_of ascii_lower ab_query, [])
encode_example = parse_search_term-encode ascii_lower ab_query [] ab_query-depth ab_query-IsQuery

-- As many operators around a word.
abbrev tower : ℕ → Query
tower zero = words (97 ∷ [])
tower (suc n) = both (tower n) (words (97 ∷ []))

tower-depth : 24 < depth (tower 24)
unfolding depth
tower-depth = omega arith

tower-IsQuery : (n : ℕ) → IsQuery (tower n)
unfolding IsQuery is_utf8
tower-IsQuery zero = (omega arith, refl)
tower-IsQuery (suc n) = (tower-IsQuery n, (omega arith, refl))

too_deep_example :
    (parse_search_term ascii_lower max_search_expr_depth (encode (tower 24) ++ []) ≡ none)
    × (matches_restrictive_keyword_payload ascii_lower (97 ∷ []) [] (encode (tower 24) ++ [])
        ≡ false)
too_deep_example =
    too_deep-refused ascii_lower (tower 24) [] (97 ∷ []) [] tower-depth (tower-IsQuery 24)

abbrev source_tags_of : ℕ → List Tag
source_tags_of tcp = short_tag TagNames.sourcetype 1 ∷ short_tag TagNames.sourceport tcp ∷ []

abbrev publish_ports : ℕ → ℕ → KadLocalStore → KadLocalStore
publish_ports tcp udp s =
    (record_source_publish (id_at 1) (id_at 7) (ip_at 1) udp (source_tags_of tcp) 5 s).0

abbrev source_key : StoredSourcePublish → SourceKey
source_key e = e.dedup_key

abbrev key22 : SourceKey
key22 = record { target = id_at 1; source_ip = ip_at 1; source_tcp_port = 2; source_udp_port = 2 }

-- Four publishes of one host: the third takes the place of the first entry, the fourth does so as
-- well, and the second entry, which has the same ports, stays.
same_source_twice :
    map source_key
      (publish_ports 2 2
        (publish_ports 1 2 (publish_ports 2 2 (publish_ports 1 1 store0)))).source_entries
    ≡ key22 ∷ key22 ∷ []
unfolding record_source_publish new_store from_kad_config is_stock_source_publish
    stock_source_tcp_port tcp_port_value upsert_source_entry is_same_source replace_match
    push_bounded make_room purge_expired NodeId-discrete Ipv4Addr-discrete ℕ_discrete
same_source_twice = refl
