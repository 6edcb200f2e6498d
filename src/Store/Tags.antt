-- ===== src/Store/Tags.antt =====
-- crates/overlord-agent-emule/src/kad_store.rs: which tags of a publish are looked at, which are
-- stored, and which tags a result has. A `&mut Vec` of result tags is built in order.
use p2p_overlord_agents.Base.{
  ℕ, ◌+◌, ◌*◌, ◌^◌, bit_or, Bool, true, false, not, ◌&&◌, ◌||◌, Option, none, some, List, [], ◌∷◌,
  ◌++◌, ltb, ◌==◌, if◌then◌else◌, length, keep_if, any,
}
use p2p_overlord_agents.Kad.TagNames
use p2p_overlord_agents.Kad.Utf8.{Text}
use p2p_overlord_agents.Kad.Routing.Contact.{Ipv4Addr}
use p2p_overlord_agents.Kad.Tag.{
  Tag, TagValue, hash, string, uint, u64, u32, u16, u8, float, bool, blob, small_blob, is_short,
  new_short, filename, filesize,
}
use p2p_overlord_agents.Store.FileSize.{
  fits_u32, stock_first_file_size, stock_first_keyword_source_file_size,
}

unfoldable pub stock_stored_publish_tags : List Tag → List Tag
stock_stored_publish_tags tags =
    keep_if
      (λ (t : Tag).
        not (is_short TagNames.publishinfo t.name || is_short TagNames.kadaichhashresult t.name))
      tags

unfoldable pub is_integer_tag_value : TagValue → Bool
is_integer_tag_value (uint _) = true
is_integer_tag_value (u64 _) = true
is_integer_tag_value (u32 _) = true
is_integer_tag_value (u16 _) = true
is_integer_tag_value (u8 _) = true
is_integer_tag_value (hash _) = false
is_integer_tag_value (string _) = false
is_integer_tag_value (float _) = false
is_integer_tag_value (bool _) = false
is_integer_tag_value (blob _) = false
is_integer_tag_value (small_blob _) = false

unfoldable pub stock_stored_source_publish_tags : List Tag → List Tag
unfolding stock_stored_publish_tags is_integer_tag_value
stock_stored_source_publish_tags tags =
    keep_if
      (λ (t : Tag). not (is_short TagNames.serverip t.name && not (is_integer_tag_value t.value)))
      (stock_stored_publish_tags tags)

unfoldable pub is_stock_source_publish : List Tag → Bool
is_stock_source_publish tags = any (λ (t : Tag). is_short TagNames.sourcetype t.name) tags

-- `u16::try_from`, and the filter on a port above 0.
abbrev pub u16_of : ℕ → Option ℕ
u16_of n = if ltb n (2 ^ 16) then some n else none

abbrev pub positive : Option ℕ → Option ℕ
positive none = none
positive (some n) = if ltb 0 n then some n else none

unfoldable pub tcp_port_value : TagValue → Option ℕ
tcp_port_value (uint n) = positive (u16_of n)
tcp_port_value (u64 n) = positive (u16_of n)
tcp_port_value (u32 n) = positive (u16_of n)
tcp_port_value (u16 n) = positive (some n)
tcp_port_value (u8 n) = positive (some n)
tcp_port_value (hash _) = none
tcp_port_value (string _) = none
tcp_port_value (float _) = none
tcp_port_value (bool _) = none
tcp_port_value (blob _) = none
tcp_port_value (small_blob _) = none

unfoldable pub stock_source_tcp_port : List Tag → Option ℕ
unfolding tcp_port_value
stock_source_tcp_port [] = none
stock_source_tcp_port (t ∷ ts) =
    let rest = stock_source_tcp_port ts in
    if is_short TagNames.sourceport t.name
    then elim (tcp_port_value t.value) [ some p ↦ some p | none ↦ rest ]
    else rest

-- `!value.is_empty()`
abbrev some_text : TagValue → Option Text
some_text (string []) = none
some_text (string (c ∷ cs)) = some (c ∷ cs)
some_text (hash _) = none
some_text (uint _) = none
some_text (u64 _) = none
some_text (u32 _) = none
some_text (u16 _) = none
some_text (u8 _) = none
some_text (float _) = none
some_text (bool _) = none
some_text (blob _) = none
some_text (small_blob _) = none

abbrev pub is_some {ℓ} : {A : Type ℓ} → Option A → Bool
is_some none = false
is_some (some _) = true

unfoldable pub stock_first_filename : List Tag → Option Text
stock_first_filename [] = none
stock_first_filename (t ∷ ts) =
    let rest = stock_first_filename ts in
    if is_short TagNames.filename t.name
    then elim (some_text t.value) [ some name ↦ some name | none ↦ rest ]
    else rest

unfoldable pub stock_keyword_file_size : List Tag → Option ℕ
unfolding stock_first_keyword_source_file_size
stock_keyword_file_size tags = positive (stock_first_keyword_source_file_size tags)

unfoldable pub has_stock_keyword_filename : List Tag → Bool
has_stock_keyword_filename tags =
    any (λ (t : Tag). is_short TagNames.filename t.name && is_some (some_text t.value)) tags

-- One tag of a note that is worth storing.
unfoldable pub is_note_tag : Tag → Bool
unfolding stock_first_file_size
is_note_tag t =
    if is_short TagNames.filename t.name
    then is_some (some_text t.value)
    else if is_short TagNames.filesize t.name
    then is_some (positive (stock_first_file_size (t ∷ [])))
    else true

unfoldable pub has_stock_note_tags : List Tag → Bool
unfolding is_note_tag
has_stock_note_tags tags = any is_note_tag tags

-- `u32::from_be_bytes`
unfoldable pub source_ip_tag : Ipv4Addr → Tag
unfolding new_short
source_ip_tag ip =
    new_short TagNames.sourceip (u32 (ip.a * 2 ^ 24 + ip.b * 2 ^ 16 + ip.c * 2 ^ 8 + ip.d))

unfoldable pub normalized_source_port_tag : Tag → Tag
normalized_source_port_tag t = elim t.value [
  | uint n ↦ if fits_u32 n then record t { value = u32 n } else t
  | hash _ ↦ t
  | string _ ↦ t
  | u64 _ ↦ t
  | u32 _ ↦ t
  | u16 _ ↦ t
  | u8 _ ↦ t
  | float _ ↦ t
  | bool _ ↦ t
  | blob _ ↦ t
  | small_blob _ ↦ t
]

-- The port of a tag, zero included.
unfoldable pub udp_port_value : TagValue → Option ℕ
udp_port_value (uint n) = u16_of n
udp_port_value (u64 n) = u16_of n
udp_port_value (u32 n) = u16_of n
udp_port_value (u16 n) = some n
udp_port_value (u8 n) = some n
udp_port_value (hash _) = none
udp_port_value (string _) = none
udp_port_value (float _) = none
udp_port_value (bool _) = none
udp_port_value (blob _) = none
udp_port_value (small_blob _) = none

unfoldable pub normalized_source_udp_port_tag : Tag → Option Tag
unfolding udp_port_value new_short
normalized_source_udp_port_tag t = elim (udp_port_value t.value) [
  | none ↦ none
  | some port ↦ if port == 0 then none else some (new_short TagNames.sourceuport (u16 port))
]

-- A hash of twenty bytes.
unfoldable pub stock_aich_publish_hash : Tag → Option (List ℕ)
stock_aich_publish_hash t = elim t.value [
  | blob bs ↦ if length bs == 20 then some bs else none
  | small_blob bs ↦ if length bs == 20 then some bs else none
  | hash _ ↦ none
  | string _ ↦ none
  | uint _ ↦ none
  | u64 _ ↦ none
  | u32 _ ↦ none
  | u16 _ ↦ none
  | u8 _ ↦ none
  | float _ ↦ none
  | bool _ ↦ none
]

unfoldable pub keyword_aich_result_tag : List ℕ → Tag
unfolding new_short
keyword_aich_result_tag h = new_short TagNames.kadaichhashresult (small_blob (1 ∷ 1 ∷ h))

unfoldable pub keyword_publish_info_tag : Tag
unfolding new_short
keyword_publish_info_tag =
    new_short TagNames.publishinfo (u32 (bit_or (bit_or (1 * 2 ^ 24) (1 * 2 ^ 16)) 1000))

-- The first tags of a keyword or notes result, from the name and the size.
abbrev filename_tags : Option Text → List Tag
filename_tags none = []
filename_tags (some name) = filename name ∷ []

abbrev filesize_tags : Option ℕ → List Tag
filesize_tags none = []
filesize_tags (some size) = filesize size ∷ []

-- The tags that the loop of `keyword_result_tags` pushes.
unfoldable pub keyword_other_tags : List Tag → List Tag
keyword_other_tags tags =
    keep_if
      (λ (t : Tag). not (
        (is_short TagNames.filename t.name || is_short TagNames.filesize t.name)
        || (is_short TagNames.kadaichhashpub t.name
            || (is_short TagNames.publishinfo t.name
                || is_short TagNames.kadaichhashresult t.name))))
      tags

-- The hash that the loop keeps: the first that is well formed.
unfoldable pub first_aich_hash : List Tag → Option (List ℕ)
unfolding stock_aich_publish_hash
first_aich_hash [] = none
first_aich_hash (t ∷ ts) =
    let rest = first_aich_hash ts in
    if is_short TagNames.kadaichhashpub t.name
    then elim (stock_aich_publish_hash t) [ some h ↦ some h | none ↦ rest ]
    else rest

abbrev aich_tags : Option (List ℕ) → List Tag
aich_tags none = []
aich_tags (some h) = keyword_aich_result_tag h ∷ []

unfoldable pub keyword_result_tags : List Tag → List Tag
unfolding keyword_other_tags first_aich_hash stock_first_filename
    stock_first_keyword_source_file_size keyword_publish_info_tag
keyword_result_tags tags =
    filename_tags (stock_first_filename tags)
    ++ (filesize_tags (positive (stock_first_keyword_source_file_size tags))
        ++ (keyword_other_tags tags
            ++ (keyword_publish_info_tag ∷ aich_tags (first_aich_hash tags))))

-- The loop of `source_result_tags` with its three flags.
pub record Saw : Type 0 where
  pub source_type : Bool
  pub source_tcp_port : Bool
  pub source_udp_port : Bool

abbrev nothing_seen : Saw
nothing_seen = record { source_type = false; source_tcp_port = false; source_udp_port = false }

-- What one tag pushes, and the flags after it.
unfoldable pub source_result_step : Ipv4Addr → Tag → Saw → List Tag × Saw
unfolding source_ip_tag normalized_source_port_tag normalized_source_udp_port_tag
source_result_step ip t saw =
    if is_short TagNames.sourcetype t.name
    then (if saw.source_type
        then ([], saw)
        else (source_ip_tag ip ∷ t ∷ [], record saw { source_type = true }))
    else if is_short TagNames.filesize t.name
    then ([], saw)
    else if is_short TagNames.sourceport t.name
    then (if saw.source_tcp_port
        then ([], saw)
        else (normalized_source_port_tag t ∷ [], record saw { source_tcp_port = true }))
    else if is_short TagNames.sourceuport t.name
    then (if saw.source_udp_port then ([], saw) else elim (normalized_source_udp_port_tag t) [
      | none ↦ ([], saw)
      | some port ↦ (port ∷ [], record saw { source_udp_port = true })
    ])
    else (t ∷ [], saw)

unfoldable pub source_result_loop : Ipv4Addr → List Tag → Saw → List Tag
unfolding source_result_step
source_result_loop ip [] saw = []
source_result_loop ip (t ∷ ts) saw =
    let (pushed, saw') = source_result_step ip t saw in pushed ++ source_result_loop ip ts saw'

unfoldable pub source_result_tags : Ipv4Addr → List Tag → List Tag
unfolding source_result_loop stock_first_keyword_source_file_size
source_result_tags ip tags =
    filesize_tags (stock_first_keyword_source_file_size tags)
    ++ source_result_loop ip tags nothing_seen

unfoldable pub notes_result_tags : List Tag → List Tag
unfolding stock_first_filename stock_first_file_size
notes_result_tags tags =
    filename_tags (stock_first_filename tags)
    ++ (filesize_tags (positive (stock_first_file_size tags))
        ++ keep_if
            (λ (t : Tag).
              not (is_short TagNames.filename t.name || is_short TagNames.filesize t.name))
            tags)
