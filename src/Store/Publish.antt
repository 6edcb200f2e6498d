-- ===== src/Store/Publish.antt =====
-- crates/overlord-agent-emule/src/kad_store.rs: the store and the recording of publishes. An instant
-- and a duration are numbers of nanoseconds; their sum is below the range of `DateTime<Utc>`.
use p2p_overlord_agents.Base.{
  ℕ, ◌+◌, ◌-◌, ◌*◌, ◌/◌, ◌%◌, max, Bool, true, false, not, ◌&&◌, ◌||◌, Option, none, some, List, [],
  ◌∷◌, ltb, ◌==◌, if◌then◌else◌, same, length, any, count_if, ℕ_discrete,
}
use p2p_overlord_agents.Kad.Packet.{PublishEntry}
use p2p_overlord_agents.Kad.NodeId.{NodeId, NodeId-discrete}
use p2p_overlord_agents.Kad.Routing.Contact.{Ipv4Addr, Ipv4Addr-discrete}
use p2p_overlord_agents.Kad.Tag.{Ed2kHash, Tag}
use p2p_overlord_agents.Store.Entries.{replace_match, purge_expired, push_bounded, make_room}
use p2p_overlord_agents.Store.Tags.{
  stock_stored_publish_tags, stock_stored_source_publish_tags, is_stock_source_publish,
  stock_source_tcp_port, stock_keyword_file_size, has_stock_keyword_filename, has_stock_note_tags,
}

abbrev pub stock_max_sources_per_file : ℕ
stock_max_sources_per_file = 1000

abbrev pub stock_max_notes_per_file : ℕ
stock_max_notes_per_file = 150

abbrev pub stock_max_keyword_index : ℕ
stock_max_keyword_index = 50_000

abbrev pub stock_max_keyword_entries : ℕ
stock_max_keyword_entries = 60_000

abbrev pub stock_hot_keyword_republish_margin : ℕ
stock_hot_keyword_republish_margin = 5_000

pub record KadLocalStoreConfig : Type 0 where
  pub enabled : Bool
  pub keyword_ttl : ℕ
  pub source_ttl : ℕ
  pub notes_ttl : ℕ
  pub keyword_capacity : ℕ
  pub source_capacity : ℕ
  pub notes_capacity : ℕ

-- The fields of `KadConfig` that the store reads; a time to live is in seconds.
pub record KadConfig : Type 0 where
  pub local_store_enabled : Bool
  pub local_store_keyword_ttl_secs : ℕ
  pub local_store_source_ttl_secs : ℕ
  pub local_store_notes_ttl_secs : ℕ
  pub local_store_keyword_capacity : ℕ
  pub local_store_source_capacity : ℕ
  pub local_store_notes_capacity : ℕ

abbrev from_secs : ℕ → ℕ
from_secs n = n * 1_000_000_000

unfoldable pub from_kad_config : KadConfig → KadLocalStoreConfig
from_kad_config c = record {
  enabled = c.local_store_enabled;
  keyword_ttl = from_secs (max c.local_store_keyword_ttl_secs 1);
  source_ttl = from_secs (max c.local_store_source_ttl_secs 1);
  notes_ttl = from_secs (max c.local_store_notes_ttl_secs 1);
  keyword_capacity = max c.local_store_keyword_capacity 1;
  source_capacity = max c.local_store_source_capacity 1;
  notes_capacity = max c.local_store_notes_capacity 1;
}

-- The parts of the string `keyword:{target}:{file_hash}:{size}`: the hashes are written with a fixed
-- number of digits, so that two strings are the same exactly when their parts are.
pub record KeywordKey : Type 0 where
  pub target : NodeId
  pub file_hash : Ed2kHash
  pub size : ℕ

unfoldable pub KeywordKey-discrete : Discrete KeywordKey
KeywordKey-discrete = hlevel (NodeId-discrete, ℕ_discrete)

-- The parts of `source:{target}:{source_ip}:{source_tcp_port}:{source_udp_port}`.
pub record SourceKey : Type 0 where
  pub target : NodeId
  pub source_ip : Ipv4Addr
  pub source_tcp_port : ℕ
  pub source_udp_port : ℕ

-- The parts of `notes:{target}:{publisher_id}:{publisher_ip}`.
pub record NotesKey : Type 0 where
  pub target : NodeId
  pub publisher_id : NodeId
  pub publisher_ip : Ipv4Addr

pub record StoredKeywordPublish : Type 0 where
  pub observed_at : ℕ
  pub target : NodeId
  pub file_hash : Ed2kHash
  pub tags : List Tag
  pub dedup_key : KeywordKey

pub record StoredSourcePublish : Type 0 where
  pub observed_at : ℕ
  pub target : NodeId
  pub publisher_id : NodeId
  pub source_ip : Ipv4Addr
  pub source_tcp_port : ℕ
  pub source_udp_port : ℕ
  pub tags : List Tag
  pub dedup_key : SourceKey

pub record StoredNotesPublish : Type 0 where
  pub observed_at : ℕ
  pub target : NodeId
  pub publisher_id : NodeId
  pub publisher_ip : Ipv4Addr
  pub tags : List Tag
  pub dedup_key : NotesKey

pub record KadLocalStore : Type 0 where
  pub config : KadLocalStoreConfig
  pub keyword_entries : List StoredKeywordPublish
  pub source_entries : List StoredSourcePublish
  pub notes_entries : List StoredNotesPublish

unfoldable pub new_store : KadLocalStoreConfig → KadLocalStore
new_store config = record {
  config = config;
  keyword_entries = [];
  source_entries = [];
  notes_entries = [];
}

abbrev pub same_id : NodeId → NodeId → Bool
same_id = same NodeId-discrete

abbrev pub same_ip : Ipv4Addr → Ipv4Addr → Bool
same_ip = same Ipv4Addr-discrete

abbrev pub same_key : KeywordKey → KeywordKey → Bool
same_key = same KeywordKey-discrete

abbrev pub keyword_of_target : NodeId → StoredKeywordPublish → Bool
keyword_of_target target e = same_id e.target target

abbrev pub source_of_target : NodeId → StoredSourcePublish → Bool
source_of_target target e = same_id e.target target

abbrev pub note_of_target : NodeId → StoredNotesPublish → Bool
note_of_target target e = same_id e.target target

-- The same file, address and one of the ports.
unfoldable pub is_same_source : NodeId → Ipv4Addr → ℕ → ℕ → StoredSourcePublish → Bool
is_same_source target ip tcp udp e =
    same_id e.target target
    && (same_ip e.source_ip ip && (e.source_tcp_port == tcp || e.source_udp_port == udp))

-- The same file, and the same address or publisher.
unfoldable pub is_same_note : NodeId → NodeId → Ipv4Addr → StoredNotesPublish → Bool
is_same_note target id ip e =
    same_id e.target target && (same_ip e.publisher_ip ip || same_id e.publisher_id id)

unfoldable pub upsert_entry :
    ℕ → KeywordKey → StoredKeywordPublish → List StoredKeywordPublish → List StoredKeywordPublish
unfolding replace_match push_bounded
upsert_entry capacity key entry xs =
    if any (λ (e : StoredKeywordPublish). same_key e.dedup_key key) xs
    then replace_match (λ (e : StoredKeywordPublish). same_key e.dedup_key key) entry xs
    else push_bounded (λ (e : StoredKeywordPublish). e.observed_at) capacity entry xs

unfoldable pub upsert_source_entry :
    ℕ → StoredSourcePublish → List StoredSourcePublish → List StoredSourcePublish
unfolding replace_match push_bounded make_room is_same_source
upsert_source_entry capacity entry xs =
    let matching =
      is_same_source entry.target entry.source_ip entry.source_tcp_port entry.source_udp_port in
    if any matching xs
    then replace_match matching entry xs
    else push_bounded (λ (e : StoredSourcePublish). e.observed_at) capacity entry
        (make_room stock_max_sources_per_file (source_of_target entry.target) xs)

unfoldable pub upsert_notes_entry :
    ℕ → StoredNotesPublish → List StoredNotesPublish → List StoredNotesPublish
unfolding replace_match push_bounded make_room is_same_note
upsert_notes_entry capacity entry xs =
    let matching = is_same_note entry.target entry.publisher_id entry.publisher_ip in
    if any matching xs
    then replace_match matching entry xs
    else push_bounded (λ (e : StoredNotesPublish). e.observed_at) capacity entry
        (make_room stock_max_notes_per_file (note_of_target entry.target) xs)

unfoldable pub stock_source_publish_load : List StoredSourcePublish → NodeId → Ipv4Addr → ℕ → ℕ → ℕ
unfolding is_same_source
stock_source_publish_load xs target ip tcp udp =
    let target_count = count_if (source_of_target target) xs in
    if target_count == 0
    then 1
    else if ltb stock_max_sources_per_file target_count
        && not (any (is_same_source target ip tcp udp) xs)
    then 100
    else target_count * 100 / stock_max_sources_per_file % 256

unfoldable pub stock_notes_publish_load : List StoredNotesPublish → NodeId → NodeId → Ipv4Addr → ℕ
unfolding is_same_note
stock_notes_publish_load xs target id ip =
    let target_count = count_if (note_of_target target) xs in
    if target_count == 0
    then 1
    else if ltb stock_max_notes_per_file target_count && not (any (is_same_note target id ip) xs)
    then 100
    else target_count * 100 / stock_max_notes_per_file % 256

-- The number of the hashes of a target's entries: a hash is counted where it stands last.
unfoldable pub keyword_source_count : List StoredKeywordPublish → NodeId → ℕ
keyword_source_count [] target = 0
keyword_source_count (x ∷ xs) target =
    let rest = keyword_source_count xs target in
    if keyword_of_target target x
      && not (
          any
            (λ (e : StoredKeywordPublish).
              keyword_of_target target e && same_id e.file_hash x.file_hash)
            xs)
    then 1 + rest
    else rest

unfoldable pub keyword_source_exists : List StoredKeywordPublish → NodeId → Ed2kHash → Bool
keyword_source_exists xs target h =
    any (λ (e : StoredKeywordPublish). keyword_of_target target e && same_id e.file_hash h) xs

unfoldable pub stock_keyword_publish_decision :
    List StoredKeywordPublish → NodeId → Ed2kHash → ℕ × Bool
unfolding keyword_source_count keyword_source_exists
stock_keyword_publish_decision xs target h =
    let source_count = keyword_source_count xs target in
    if ltb stock_max_keyword_entries (length xs)
    then (100, false)
    else if source_count == 0
    then (1, true)
    else if ltb stock_max_keyword_index source_count
    then (100, false)
    else if keyword_source_exists xs target h
        && ltb (stock_max_keyword_index - stock_hot_keyword_republish_margin) source_count
    then (100, false)
    else (source_count * 100 / stock_max_keyword_index % 256, true)

abbrev pub keyword_entry : ℕ → NodeId → PublishEntry → ℕ → StoredKeywordPublish
keyword_entry now target p size = record {
  observed_at = now;
  target = target;
  file_hash = p.hash;
  tags = stock_stored_publish_tags p.tags;
  dedup_key = record { target = target; file_hash = p.hash; size = size };
}

-- One round of the loop: the entries, and the load of the last entry that was judged.
unfoldable pub keyword_publish_step :
    ℕ → ℕ → NodeId → PublishEntry → List StoredKeywordPublish × ℕ → List StoredKeywordPublish × ℕ
unfolding upsert_entry stock_keyword_publish_decision
keyword_publish_step capacity now target p (xs, load) = elim (stock_keyword_file_size p.tags) [
  | none ↦ (xs, load)
  | some size ↦
      if has_stock_keyword_filename p.tags
      then (let (entry_load, should_store) = stock_keyword_publish_decision xs target p.hash in
          if should_store
          then (
            upsert_entry capacity (record { target = target; file_hash = p.hash; size = size })
                (keyword_entry now target p size) xs,
            entry_load,
          )
          else (xs, entry_load))
      else (xs, load)
]

unfoldable pub keyword_publish_loop :
    ℕ
    → ℕ
    → NodeId
    → List PublishEntry
    → List StoredKeywordPublish × ℕ
    → List StoredKeywordPublish × ℕ
unfolding keyword_publish_step
keyword_publish_loop capacity now target [] acc = acc
keyword_publish_loop capacity now target (p ∷ ps) acc =
    keyword_publish_loop capacity now target ps (keyword_publish_step capacity now target p acc)

unfoldable pub record_keyword_publish_batch :
    NodeId → List PublishEntry → ℕ → KadLocalStore → KadLocalStore × ℕ
unfolding keyword_publish_loop purge_expired
record_keyword_publish_batch target ps now s =
    if not s.config.enabled
    then (s, 0)
    else let (xs, load) = keyword_publish_loop s.config.keyword_capacity now target ps (
      purge_expired (λ (e : StoredKeywordPublish). e.observed_at) s.config.keyword_ttl now
          s.keyword_entries,
      0,
    ) in
      (record s { keyword_entries = xs }, load)

abbrev pub is_unspecified : Ipv4Addr → Bool
is_unspecified ip = (ip.a == 0 && ip.b == 0) && (ip.c == 0 && ip.d == 0)

abbrev pub source_entry : ℕ → NodeId → NodeId → Ipv4Addr → ℕ → ℕ → List Tag → StoredSourcePublish
source_entry now target id ip tcp udp tags = record {
  observed_at = now;
  target = target;
  publisher_id = id;
  source_ip = ip;
  source_tcp_port = tcp;
  source_udp_port = udp;
  tags = stock_stored_source_publish_tags tags;
  dedup_key = record {
    target = target;
    source_ip = ip;
    source_tcp_port = tcp;
    source_udp_port = udp;
  };
}

-- `none` is a publish that is not answered.
unfoldable pub record_source_publish :
    NodeId → NodeId → Ipv4Addr → ℕ → List Tag → ℕ → KadLocalStore → KadLocalStore × Option ℕ
unfolding upsert_source_entry stock_source_publish_load purge_expired
record_source_publish target id ip udp tags now s =
    if not s.config.enabled
    then (s, none)
    else if not (is_stock_source_publish tags)
    then (s, none)
    else if is_unspecified ip || udp == 0
    then (s, none)
    else elim (stock_source_tcp_port tags) [
      | none ↦ (s, none)
      | some tcp ↦
          let xs =
            purge_expired (λ (e : StoredSourcePublish). e.observed_at) s.config.source_ttl now
              s.source_entries in
          (
            record s {
              source_entries =
                  upsert_source_entry s.config.source_capacity
                    (source_entry now target id ip tcp udp tags) xs;
            },
            some (stock_source_publish_load xs target ip tcp udp),
          )
    ]

abbrev pub notes_entry : ℕ → NodeId → NodeId → Ipv4Addr → List Tag → StoredNotesPublish
notes_entry now target id ip tags = record {
  observed_at = now;
  target = target;
  publisher_id = id;
  publisher_ip = ip;
  tags = stock_stored_publish_tags tags;
  dedup_key = record { target = target; publisher_id = id; publisher_ip = ip };
}

unfoldable pub record_notes_publish :
    NodeId → NodeId → Ipv4Addr → List Tag → ℕ → KadLocalStore → KadLocalStore × Option ℕ
unfolding upsert_notes_entry stock_notes_publish_load purge_expired
record_notes_publish target id ip tags now s =
    if not s.config.enabled
    then (s, none)
    else if is_unspecified ip || not (has_stock_note_tags tags)
    then (s, none)
    else (let xs =
          purge_expired (λ (e : StoredNotesPublish). e.observed_at) s.config.notes_ttl now
            s.notes_entries in
        (
          record s {
            notes_entries =
                upsert_notes_entry s.config.notes_capacity (notes_entry now target id ip tags) xs;
          },
          some (stock_notes_publish_load xs target id ip),
        ))
