-- ===== src/Kad/Tag.antt =====
-- crates/overlord-kad-proto/src/tag.rs: Kad tags and their encoding. A string is the list of its
-- bytes, a `f32` the number that its four bytes spell, a hash an array as that of an identifier.
-- `decode_legacy` stands for the system's code page and the `encoding_rs` decoder.
pub mod RoundTrip
mod Tests
use p2p_overlord_agents.Base.{
  ℕ, zero, suc, ◌+◌, ◌-◌, ◌*◌, ◌/◌, ◌%◌, ◌^◌, ◌≤◌, ◌<◌, Bool, true, false, not, Option, none, some,
  List, [], ◌∷◌, ◌++◌, leb, ◌==◌, if◌then◌else◌, bool_to_ℕ, ℕ_discrete, length,
}
use p2p_overlord_agents.Kad.NodeId.{NodeId, Chunk, NodeId-discrete}
use p2p_overlord_agents.Kad.TagNames
use p2p_overlord_agents.Kad.Utf8.{Text, from_utf8_lossy, is_utf8}
use p2p_overlord_agents.Kad.Wire.{
  Reading, done, failed, unknown_tag_type, and_then, write_le, read_le, read_exact,
}

-- `[u8; 16]` of a file hash.
abbrev pub Ed2kHash : Type 0
Ed2kHash = NodeId

pub data TagName : Type 0 where
  short : ℕ → TagName
  long : Text → TagName

unfoldable pub Text-discrete : Discrete Text
Text-discrete = hlevel ℕ_discrete

-- The derived `PartialEq`.
unfoldable pub TagName-discrete : Discrete TagName
unfolding Text-discrete
TagName-discrete = hlevel (Text-discrete, ℕ_discrete)

pub data TagValue : Type 0 where
  hash : Ed2kHash → TagValue
  string : Text → TagValue
  uint : ℕ → TagValue
  u64 : ℕ → TagValue
  u32 : ℕ → TagValue
  u16 : ℕ → TagValue
  u8 : ℕ → TagValue
  float : ℕ → TagValue
  bool : Bool → TagValue
  blob : List ℕ → TagValue
  small_blob : List ℕ → TagValue

pub record Tag : Type 0 where
  pub name : TagName
  pub value : TagValue

-- `matches!(name, TagName::Short(n))`
abbrev pub is_short : ℕ → TagName → Bool
is_short n (short m) = m == n
is_short n (long _) = false

unfoldable pub new_short : ℕ → TagValue → Tag
new_short name v = record { name = short name; value = v }

unfoldable pub new_long : Text → TagValue → Tag
new_long name v = record { name = long name; value = v }

unfoldable pub filename : Text → Tag
unfolding new_short
filename name = new_short TagNames.filename (string name)

unfoldable pub filesize : ℕ → Tag
unfolding new_short
filesize size = new_short TagNames.filesize (uint size)

unfoldable pub filetype : Text → Tag
unfolding new_short
filetype t = new_short TagNames.filetype (string t)

unfoldable pub sources : ℕ → Tag
unfolding new_short
sources n = new_short TagNames.sources (uint n)

unfoldable pub kad_aich_hash_pub : List ℕ → Tag
unfolding new_short
kad_aich_hash_pub h = new_short TagNames.kadaichhashpub (small_blob h)

pub data StringDecodeMode : Type 0 where
  lossy_utf8 search_result : StringDecodeMode

unfoldable pub value_type_byte : TagValue → ℕ
value_type_byte (hash h) = 0x01
value_type_byte (string s) = 0x02
value_type_byte (uint n) =
    if leb n (2 ^ 8 - 1)
    then 0x09
    else if leb n (2 ^ 16 - 1)
    then 0x08
    else if leb n (2 ^ 32 - 1)
    then 0x03
    else 0x0B
value_type_byte (u64 n) = 0x0B
value_type_byte (u32 n) = 0x03
value_type_byte (u16 n) = 0x08
value_type_byte (u8 n) = 0x09
value_type_byte (float n) = 0x04
value_type_byte (bool b) = 0x05
value_type_byte (blob bs) = 0x07
value_type_byte (small_blob bs) = 0x0A

-- A length that the length field cannot hold is a panic, `none`.
unfoldable pub write_block : ℕ → List ℕ → Option (List ℕ)
write_block k bs = if leb (256 ^ k) (length bs) then none else some (write_le k (length bs) ++ bs)

unfoldable pub write_chunk : Chunk → List ℕ
write_chunk c = c.b0 ∷ c.b1 ∷ c.b2 ∷ c.b3 ∷ []

unfoldable pub write_hash : Ed2kHash → List ℕ
unfolding write_chunk
write_hash h = write_chunk h.c0 ++ write_chunk h.c1 ++ write_chunk h.c2 ++ write_chunk h.c3

unfoldable pub write_name : TagName → Option (List ℕ)
unfolding write_block
write_name (short b) = some (write_le 2 1 ++ write_le 1 b)
write_name (long s) = write_block 2 s

unfoldable pub write_value : TagValue → Option (List ℕ)
unfolding write_hash write_block
write_value (hash h) = some (write_hash h)
write_value (string s) = write_block 2 s
write_value (uint n) =
    if leb n (2 ^ 8 - 1)
    then some (write_le 1 n)
    else if leb n (2 ^ 16 - 1)
    then some (write_le 2 n)
    else if leb n (2 ^ 32 - 1)
    then some (write_le 4 n)
    else some (write_le 8 n)
write_value (u64 n) = some (write_le 8 n)
write_value (u32 n) = some (write_le 4 n)
write_value (u16 n) = some (write_le 2 n)
write_value (u8 n) = some (write_le 1 n)
write_value (float n) = some (write_le 4 n)
write_value (bool b) = some (write_le 1 (bool_to_ℕ b))
write_value (blob bs) = write_block 4 bs
write_value (small_blob bs) = write_block 1 bs

-- `write_options`; a panic after the first bytes were written is `none` as well.
unfoldable pub write_tag : Tag → Option (List ℕ)
unfolding write_name write_value value_type_byte
write_tag t = elim (write_name t.name) [
  | none ↦ none
  | some name ↦ elim (write_value t.value) [
    | none ↦ none
    | some value ↦ some (write_le 1 (value_type_byte t.value) ++ (name ++ value))
  ]
]

unfoldable pub read_chunk : List ℕ → Reading Chunk
read_chunk bs = and_then (read_le 1 bs) λ b0 bs. and_then (read_le 1 bs) λ b1 bs.
    and_then (read_le 1 bs) λ b2 bs.
      and_then (read_le 1 bs) λ b3 bs. done (record { b0 = b0; b1 = b1; b2 = b2; b3 = b3 }) bs

unfoldable pub read_hash : List ℕ → Reading Ed2kHash
unfolding read_chunk
read_hash bs = and_then (read_chunk bs) λ c0 bs. and_then (read_chunk bs) λ c1 bs.
    and_then (read_chunk bs) λ c2 bs.
      and_then (read_chunk bs) λ c3 bs. done (record { c0 = c0; c1 = c1; c2 = c2; c3 = c3 }) bs

-- A block behind its length of `k` bytes.
unfoldable pub read_block : ℕ → List ℕ → Reading (List ℕ)
read_block k bs = and_then (read_le k bs) λ n rest. read_exact n rest

-- A name of one byte is a short one.
unfoldable pub name_of : (List ℕ → Text) → List ℕ → TagName
name_of decode [] = long (decode [])
name_of decode (b ∷ []) = short b
name_of decode (b ∷ c ∷ bs) = long (decode (b ∷ c ∷ bs))

module _ (decode_legacy : List ℕ → Text) where
  unfoldable pub decode_string_bytes : StringDecodeMode → List ℕ → Text
  decode_string_bytes lossy_utf8 bytes = from_utf8_lossy bytes
  decode_string_bytes search_result bytes = if is_utf8 bytes then bytes else decode_legacy bytes

  unfoldable pub read_name : StringDecodeMode → Bool → List ℕ → Reading TagName
  unfolding decode_string_bytes read_block name_of
  read_name mode true bs = and_then (read_le 1 bs) λ b rest. done (short b) rest
  read_name mode false bs =
      and_then (read_block 2 bs) λ bytes rest. done (name_of (decode_string_bytes mode) bytes) rest

  unfoldable pub read_value : StringDecodeMode → ℕ → List ℕ → Reading TagValue
  unfolding decode_string_bytes read_block read_hash
  read_value mode tag_type bs =
      if tag_type == 0x01
      then and_then (read_hash bs) (λ h rest. done (hash h) rest)
      else if tag_type == 0x02
      then and_then (read_block 2 bs) (λ s rest. done (string (decode_string_bytes mode s)) rest)
      else if tag_type == 0x03
      then and_then (read_le 4 bs) (λ n rest. done (u32 n) rest)
      else if tag_type == 0x04
      then and_then (read_le 4 bs) (λ n rest. done (float n) rest)
      else if tag_type == 0x05
      then and_then (read_le 1 bs) (λ n rest. done (bool (not (n == 0))) rest)
      else if tag_type == 0x06
      then and_then (read_le 2 bs)
          (λ n rest. and_then (read_exact ((n + 7) / 8) rest) (λ xs rest. done (blob xs) rest))
      else if tag_type == 0x07
      then and_then (read_block 4 bs) (λ xs rest. done (blob xs) rest)
      else if tag_type == 0x08
      then and_then (read_le 2 bs) (λ n rest. done (u16 n) rest)
      else if tag_type == 0x09
      then and_then (read_le 1 bs) (λ n rest. done (u8 n) rest)
      else if tag_type == 0x0A
      then and_then (read_block 1 bs) (λ xs rest. done (small_blob xs) rest)
      else if tag_type == 0x0B
      then and_then (read_le 8 bs) (λ n rest. done (u64 n) rest)
      else failed (unknown_tag_type tag_type)

  -- `read_with_mode`: the highest bit of the first byte says that the name is one byte.
  unfoldable pub read_tag : StringDecodeMode → List ℕ → Reading Tag
  unfolding read_name read_value
  read_tag mode bs = and_then (read_le 1 bs) λ type_byte bs.
      and_then (read_name mode (leb 0x80 type_byte) bs) λ name bs.
        and_then (read_value mode (type_byte % 0x80) bs)
          λ value bs. done (record { name = name; value = value }) bs
