-- ===== src/Kad/NodeId/Text.antt =====
-- crates/overlord-kad-proto/src/node_id.rs, `FromStr`. A string is the list of its
-- bytes, and the strings of this module are ASCII: in any other string of 32 bytes the source's
-- slice may cut a character, which panics.
use p2p_overlord_agents.Base.{
  ℕ, ◌+◌, ◌-◌, ◌*◌, ◌/◌, ◌%◌, ◌^◌, ◌&&◌, Option, none, some, List, [], ◌∷◌, leb, ◌==◌,
  if◌then◌else◌, take, length,
}
use p2p_overlord_agents.Base.Sort.{drop}
use p2p_overlord_agents.Kad.NodeId.{NodeId, Chunk, from_be_bytes}

-- The value of a hexadecimal digit.
unfoldable pub hex_value : ℕ → Option ℕ
hex_value b =
    if leb 0x30 b && leb b 0x39
    then some (b - 0x30)
    else if leb 0x41 b && leb b 0x46
    then some (b - 0x37)
    else if leb 0x61 b && leb b 0x66
    then some (b - 0x57)
    else none

unfoldable pub hex_digits : ℕ → List ℕ → Option ℕ
unfolding hex_value
hex_digits acc [] = some acc
hex_digits acc (b ∷ bs) = elim (hex_value b) [ none ↦ none | some v ↦ hex_digits (acc * 16 + v) bs ]

-- `u32::from_str_radix(_, 16)` on at most eight bytes, which do not overflow: an optional plus sign
-- and at least one digit.
unfoldable pub from_str_radix : List ℕ → Option ℕ
unfolding hex_digits
from_str_radix [] = none
from_str_radix (b ∷ []) = hex_value b
from_str_radix (b ∷ c ∷ bs) = if b == 0x2B then hex_digits 0 (c ∷ bs) else hex_digits 0 (b ∷ c ∷ bs)

-- `u32::to_be_bytes`
unfoldable pub be_chunk : ℕ → Chunk
be_chunk x = record {
  b0 = x / 2 ^ 24 % 256;
  b1 = x / 2 ^ 16 % 256;
  b2 = x / 2 ^ 8 % 256;
  b3 = x % 256;
}

unfoldable pub text_chunk : ℕ → List ℕ → Option Chunk
unfolding from_str_radix be_chunk
text_chunk i s = elim (from_str_radix (take 8 (drop (i * 8) s))) [
  | none ↦ none
  | some x ↦ some (be_chunk x)
]

-- The first chunk that is no number ends the loop.
unfoldable pub four_chunks :
    Option Chunk → Option Chunk → Option Chunk → Option Chunk → Option NodeId
four_chunks a b c d = elim a [
  | none ↦ none
  | some a' ↦ elim b [
    | none ↦ none
    | some b' ↦ elim c [
      | none ↦ none
      | some c' ↦ elim d [
        | none ↦ none
        | some d' ↦ some (from_be_bytes (record { c0 = a'; c1 = b'; c2 = c'; c3 = d' }))
      ]
    ]
  ]
]

unfoldable pub from_str : List ℕ → Option NodeId
unfolding text_chunk four_chunks
from_str s =
    if length s == 32
    then four_chunks (text_chunk 0 s) (text_chunk 1 s) (text_chunk 2 s) (text_chunk 3 s)
    else none
