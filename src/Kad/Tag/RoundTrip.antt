-- ===== src/Kad/Tag/RoundTrip.antt =====
-- tag.rs: what is written is read back.
use p2p_overlord_agents.Base.{
  ℕ, ◌+◌, ◌-◌, ◌*◌, ◌%◌, ◌^◌, ◌<◌, ◌≡◌, refl, sym, ap, inl, inr, true, false, some, List, [], ◌∷◌,
  ◌++◌, append_assoc, arith, leb, if◌then◌else◌, length, Bool-cases, Option-cases, some_equal,
}
use p2p_overlord_agents.Kad.NodeId.{Chunk, IsChunk, IsNodeId}
use p2p_overlord_agents.Kad.Utf8.{Text, is_utf8, from_utf8_lossy_valid}
use p2p_overlord_agents.Kad.Wire.{
  done, write_le, read_le, read_exact, bound_le, read_le-write_le, read_exact-append,
}
use p2p_overlord_agents.Kad.Tag.{
  Ed2kHash, TagName, short, long, TagValue, hash, string, uint, u64, u32, u16, u8, float, bool,
  blob, small_blob, Tag, StringDecodeMode, lossy_utf8, search_result, value_type_byte, write_block,
  write_chunk, write_hash, write_name, write_value, write_tag, read_chunk, read_hash, read_block,
  name_of, decode_string_bytes, read_name, read_value, read_tag,
}

-- The name that is read for a name that was written: one byte makes a short name.
unfoldable pub normal_name : TagName → TagName
normal_name (short b) = short b
normal_name (long []) = long []
normal_name (long (b ∷ [])) = short b
normal_name (long (b ∷ c ∷ bs)) = long (b ∷ c ∷ bs)

-- The value that is read for a value that was written: `UInt` has no type byte of its own.
unfoldable pub normal_value : TagValue → TagValue
normal_value (uint n) =
    if leb n (2 ^ 8 - 1)
    then u8 n
    else if leb n (2 ^ 16 - 1)
    then u16 n
    else if leb n (2 ^ 32 - 1)
    then u32 n
    else u64 n
normal_value (hash h) = hash h
normal_value (string s) = string s
normal_value (u64 n) = u64 n
normal_value (u32 n) = u32 n
normal_value (u16 n) = u16 n
normal_value (u8 n) = u8 n
normal_value (float n) = float n
normal_value (bool b) = bool b
normal_value (blob bs) = blob bs
normal_value (small_blob bs) = small_blob bs

-- The values of the Rust types: a `u8` is below 256, a `String` is valid UTF-8, and so on.
abbrev pub IsName : TagName → Type 0
IsName (short b) = b < 2 ^ 8
IsName (long s) = is_utf8 s ≡ true

abbrev pub IsValue : TagValue → Type 0
IsValue (hash h) = IsNodeId h
IsValue (string s) = is_utf8 s ≡ true
IsValue (uint n) = n < 2 ^ 64
IsValue (u64 n) = n < 2 ^ 64
IsValue (u32 n) = n < 2 ^ 32
IsValue (u16 n) = n < 2 ^ 16
IsValue (u8 n) = n < 2 ^ 8
IsValue (float n) = n < 2 ^ 32
IsValue (bool b) = Unit
IsValue (blob bs) = Unit
IsValue (small_blob bs) = Unit

write_block-some :
    (k : ℕ) (bs out : List ℕ)
    → write_block k bs ≡ some out
    → (length bs < 256 ^ k) × (out ≡ write_le k (length bs) ++ bs)
unfolding write_block
write_block-some k bs out e = ground arith

read_block-write_block :
    (k : ℕ) (bs out rest : List ℕ)
    → 256 ^ k ≡ bound_le k
    → write_block k bs ≡ some out
    → read_block k (out ++ rest) ≡ done bs rest
unfolding read_block
read_block-write_block k bs out rest h e =
    let (n, o) = write_block-some k bs out e in
    rw
      (
        o,
        append_assoc (write_le k (length bs)) bs rest,
        read_le-write_le k (length bs) (bs ++ rest) (omega (arith, n, h)),
        read_exact-append bs rest,
      )
      refl

plus_zero : (n : ℕ) → n + 256 * 0 ≡ n
plus_zero n = omega arith

read_chunk-write_chunk :
    (c : Chunk) (rest : List ℕ) → IsChunk c → read_chunk (write_chunk c ++ rest) ≡ done c rest
unfolding read_chunk write_chunk read_le
read_chunk-write_chunk c rest v = λ i.
    done
      (record {
        b0 = plus_zero c.b0 i;
        b1 = plus_zero c.b1 i;
        b2 = plus_zero c.b2 i;
        b3 = plus_zero c.b3 i;
      })
      rest

read_hash-write_hash :
    (h : Ed2kHash) (rest : List ℕ) → IsNodeId h → read_hash (write_hash h ++ rest) ≡ done h rest
unfolding read_hash write_hash
read_hash-write_hash h rest v =
    rw
      (
        append_assoc (write_chunk h.c0),
        append_assoc (write_chunk h.c1),
        append_assoc (write_chunk h.c2),
      )
      (rw
        (
          read_chunk-write_chunk h.c0
              (write_chunk h.c1 ++ (write_chunk h.c2 ++ (write_chunk h.c3 ++ rest))) v.c0_bytes,
          read_chunk-write_chunk h.c1 (write_chunk h.c2 ++ (write_chunk h.c3 ++ rest)) v.c1_bytes,
          read_chunk-write_chunk h.c2 (write_chunk h.c3 ++ rest) v.c2_bytes,
          read_chunk-write_chunk h.c3 rest v.c3_bytes,
        )
        refl)

type_byte_small : (x : TagValue) → value_type_byte x < 0x80
unfolding value_type_byte
type_byte_small x = ground arith

leb_bound : (n m : ℕ) → leb n m ≡ true → n < m + 1
leb_bound n m h = ground arith

module _ (decode_legacy : List ℕ → Text) where
  decode_valid :
      (mode : StringDecodeMode) (s : Text)
      → is_utf8 s ≡ true
      → decode_string_bytes decode_legacy mode s ≡ s
  unfolding decode_string_bytes
  decode_valid lossy_utf8 s h = from_utf8_lossy_valid s h
  decode_valid search_result s h = rw h

  name_of_valid :
      (mode : StringDecodeMode) (s : Text)
      → is_utf8 s ≡ true
      → name_of (decode_string_bytes decode_legacy mode) s ≡ normal_name (long s)
  unfolding name_of normal_name
  name_of_valid mode [] h = ap long (decode_valid mode [] h)
  name_of_valid mode (b ∷ []) h = refl
  name_of_valid mode (b ∷ c ∷ bs) h = ap long (decode_valid mode (b ∷ c ∷ bs) h)

  read_name-write_name :
      (mode : StringDecodeMode) (n : TagName) (out rest : List ℕ)
      → IsName n
      → write_name n ≡ some out
      → read_name decode_legacy mode false (out ++ rest) ≡ done (normal_name n) rest
  unfolding read_name write_name
  read_name-write_name mode (short b) out rest v e = rw (sym (some_equal e)) (
      unfold read_block read_le read_exact write_le name_of normal_name in
      ap (λ x. done (short x) rest) (omega (arith, v)))
  read_name-write_name mode (long s) out rest v e =
      rw (read_block-write_block 2 s out rest refl e)
        (ap (λ x. done x rest) (name_of_valid mode s v))

  read_value-write_value :
      (mode : StringDecodeMode) (x : TagValue) (out rest : List ℕ)
      → IsValue x
      → write_value x ≡ some out
      → read_value decode_legacy mode (value_type_byte x) (out ++ rest) ≡ done (normal_value x) rest
  unfolding read_value write_value value_type_byte normal_value
  read_value-write_value mode (hash h) out rest v e =
      rw (sym (some_equal e), read_hash-write_hash h rest v) refl
  read_value-write_value mode (string s) out rest v e =
      rw (read_block-write_block 2 s out rest refl e)
        (ap (λ x. done (string x) rest) (decode_valid mode s v))
  read_value-write_value mode (uint n) out rest v e = elim (Bool-cases (leb n (2 ^ 8 - 1))) [
    | inl h ↦
        let o = some_equal (rw (h, write_value) at e) in
        rw (h, sym o, read_le-write_le 1 n rest (leb_bound n 255 h)) refl
    | inr h ↦ elim (Bool-cases (leb n (2 ^ 16 - 1))) [
      | inl i ↦
          let o = some_equal (rw (h, i, write_value) at e) in
          rw (h, i, sym o, read_le-write_le 2 n rest (leb_bound n 65_535 i)) refl
      | inr i ↦ elim (Bool-cases (leb n (2 ^ 32 - 1))) [
        | inl j ↦
            let o = some_equal (rw (h, i, j, write_value) at e) in
            rw (h, i, j, sym o, read_le-write_le 4 n rest (leb_bound n 4_294_967_295 j)) refl
        | inr j ↦
            let o = some_equal (rw (h, i, j, write_value) at e) in
            rw (h, i, j, sym o, read_le-write_le 8 n rest (omega (arith, v))) refl
      ]
    ]
  ]
  read_value-write_value mode (u64 n) out rest v e =
      rw (sym (some_equal e), read_le-write_le 8 n rest (omega (arith, v))) refl
  read_value-write_value mode (u32 n) out rest v e =
      rw (sym (some_equal e), read_le-write_le 4 n rest (omega (arith, v))) refl
  read_value-write_value mode (u16 n) out rest v e =
      rw (sym (some_equal e), read_le-write_le 2 n rest (omega (arith, v))) refl
  read_value-write_value mode (u8 n) out rest v e =
      rw (sym (some_equal e), read_le-write_le 1 n rest (omega (arith, v))) refl
  read_value-write_value mode (float n) out rest v e =
      rw (sym (some_equal e), read_le-write_le 4 n rest (omega (arith, v))) refl
  read_value-write_value mode (bool true) out rest v e =
      rw (sym (some_equal e)) (unfold read_le write_le in refl)
  read_value-write_value mode (bool false) out rest v e =
      rw (sym (some_equal e)) (unfold read_le write_le in refl)
  read_value-write_value mode (blob bs) out rest v e =
      rw (read_block-write_block 4 bs out rest refl e) refl
  read_value-write_value mode (small_blob bs) out rest v e =
      rw (read_block-write_block 1 bs out rest refl e) refl

  read_value_at :
      (mode : StringDecodeMode) (x : TagValue) (rest : List ℕ)
      → (read_le 1 (write_le 1 (value_type_byte x) ++ rest) ≡ done (value_type_byte x) rest)
        × (leb 0x80 (value_type_byte x) ≡ false)
        × (value_type_byte x % 0x80 ≡ value_type_byte x)
  read_value_at mode x rest =
      let h = type_byte_small x in
      (
        read_le-write_le 1 (value_type_byte x) rest (omega (arith, h)),
        ground (arith, h),
        omega (arith, h),
      )

-- A tag that is written is read back from the front of the input, under either decoding of strings, with
-- a name of one byte made a short one and a `UInt` made the narrowest number that holds it.
pub read_tag-write_tag :
    (decode_legacy : List ℕ → Text) (mode : StringDecodeMode) (t : Tag) (out rest : List ℕ)
    → IsName t.name
    → IsValue t.value
    → write_tag t ≡ some out
    → read_tag decode_legacy mode (out ++ rest)
      ≡ done (record { name = normal_name t.name; value = normal_value t.value }) rest
unfolding read_tag write_tag
read_tag-write_tag decode_legacy mode t out rest v w e = elim (Option-cases (write_name t.name)) [
  | inl n ↦ absurd (ground (arith, rw (n, write_tag) at e))
  | inr (name, n) ↦ elim (Option-cases (write_value t.value)) [
    | inl m ↦ absurd (ground (arith, rw (n, m, write_tag) at e))
    | inr (value, m) ↦
        let o = some_equal (rw (n, m, write_tag) at e) in
        let (a, b, c) = read_value_at decode_legacy mode t.value (name ++ (value ++ rest)) in
        rw
          (
            sym o,
            append_assoc (write_le 1 (value_type_byte t.value)) (name ++ value) rest,
            append_assoc name value rest,
            a,
            b,
            c,
            read_name-write_name decode_legacy mode t.name name (value ++ rest) v n,
            read_value-write_value decode_legacy mode t.value value rest w m,
          )
          refl
  ]
]
