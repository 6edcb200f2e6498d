-- ===== src/Kad/Tag/Tests.antt =====
-- Tags of crates/overlord-kad-proto/src/tag.rs at concrete values.
use p2p_overlord_agents.Base.{ℕ, ◌≡◌, refl, some, List, [], ◌∷◌, ◌++◌, arith}
use p2p_overlord_agents.Kad.Utf8.{Text}
use p2p_overlord_agents.Kad.Wire.{done, write_le}
use p2p_overlord_agents.Kad.Tag.{search_result, filesize, write_tag, read_tag}
use p2p_overlord_agents.Kad.Tag.RoundTrip.{normal_name, normal_value, read_tag-write_tag}

-- The decoder for the code page, of text that is ASCII.
abbrev ascii : List ℕ → Text
ascii bs = bs

-- The size 300 in the narrowest form.
abbrev size_bytes : List ℕ
size_bytes = 0x08 ∷ 1 ∷ 0 ∷ 0x02 ∷ 44 ∷ 1 ∷ []

size_bytes-written : write_tag (filesize 300) ≡ some size_bytes
unfolding write_tag filesize write_le
size_bytes-written = refl

tag_example :
    read_tag ascii search_result (size_bytes ++ (7 ∷ []))
    ≡ done
        (record {
          name = normal_name (filesize 300).name;
          value = normal_value (filesize 300).value;
        })
        (7 ∷ [])
tag_example =
    read_tag-write_tag ascii search_result (filesize 300) size_bytes (7 ∷ [])
      (unfold filesize in omega arith) (unfold filesize in omega arith) size_bytes-written
