-- ===== src/Kad/NodeId.antt =====
-- crates/overlord-kad-proto/src/node_id.rs: the 128-bit identifier, kept in the eMule wire layout
-- of four little-endian 32-bit chunks.
-- A `[u8; 16]` is four groups of four bytes, so that each index of the array is a field.
pub mod Order
pub mod Bytes
pub mod Text
pub mod Antisym
use p2p_overlord_agents.Base.{
  ℕ, zero, suc, ◌+◌, ◌-◌, ◌*◌, ◌/◌, ◌%◌, ◌^◌, ◌<◌, bit_xor, compare, Ordering, Bool, true, false,
  Option, none, some, leb, ◌==◌, if◌then◌else◌,
}
use native.Mathlib.Decide.{ℕ_discrete}

-- The bytes at `4 * i` to `4 * i + 3`, in the order in which they are stored.
pub record Chunk : Type 0 where
  pub b0 : ℕ
  pub b1 : ℕ
  pub b2 : ℕ
  pub b3 : ℕ

pub record NodeId : Type 0 where
  pub c0 : Chunk
  pub c1 : Chunk
  pub c2 : Chunk
  pub c3 : Chunk

unfoldable pub Chunk-discrete : Discrete Chunk
Chunk-discrete = hlevel ℕ_discrete

-- The derived `PartialEq`.
unfoldable pub NodeId-discrete : Discrete NodeId
unfolding Chunk-discrete
NodeId-discrete = hlevel Chunk-discrete

abbrev zero_chunk : Chunk
zero_chunk = record { b0 = 0; b1 = 0; b2 = 0; b3 = 0 }

-- `NodeId::ZERO`
abbrev pub zero_id : NodeId
zero_id = record { c0 = zero_chunk; c1 = zero_chunk; c2 = zero_chunk; c3 = zero_chunk }

-- Each byte is a `u8`.
pub record IsChunk (c : Chunk) : Type 0 where
  pub b0_lt : c.b0 < 256
  pub b1_lt : c.b1 < 256
  pub b2_lt : c.b2 < 256
  pub b3_lt : c.b3 < 256

pub record IsNodeId (n : NodeId) : Type 0 where
  pub c0_bytes : IsChunk n.c0
  pub c1_bytes : IsChunk n.c1
  pub c2_bytes : IsChunk n.c2
  pub c3_bytes : IsChunk n.c3

-- `u32::from_le_bytes` of one group.
unfoldable pub from_le_bytes : Chunk → ℕ
from_le_bytes c = c.b0 + c.b1 * 2 ^ 8 + c.b2 * 2 ^ 16 + c.b3 * 2 ^ 24

-- `none` is the index panic of `self.0[start]` beyond the array.
unfoldable pub chunk_at : NodeId → ℕ → Option Chunk
chunk_at n zero = some n.c0
chunk_at n (suc zero) = some n.c1
chunk_at n (suc (suc zero)) = some n.c2
chunk_at n (suc (suc (suc zero))) = some n.c3
chunk_at n (suc (suc (suc (suc i)))) = none

unfoldable pub chunk_u32 : NodeId → ℕ → Option ℕ
unfolding chunk_at from_le_bytes
chunk_u32 n i = elim (chunk_at n i) [ none ↦ none | some c ↦ some (from_le_bytes c) ]

unfoldable pub swap_chunk : Chunk → Chunk
swap_chunk c = record { b0 = c.b3; b1 = c.b2; b2 = c.b1; b3 = c.b0 }

unfoldable pub from_be_bytes : NodeId → NodeId
unfolding swap_chunk
from_be_bytes b = record {
  c0 = swap_chunk b.c0;
  c1 = swap_chunk b.c1;
  c2 = swap_chunk b.c2;
  c3 = swap_chunk b.c3;
}

unfoldable pub to_be_bytes : NodeId → NodeId
unfolding swap_chunk
to_be_bytes n = record {
  c0 = swap_chunk n.c0;
  c1 = swap_chunk n.c1;
  c2 = swap_chunk n.c2;
  c3 = swap_chunk n.c3;
}

unfoldable pub xor_chunk : Chunk → Chunk → Chunk
xor_chunk a b = record {
  b0 = bit_xor a.b0 b.b0;
  b1 = bit_xor a.b1 b.b1;
  b2 = bit_xor a.b2 b.b2;
  b3 = bit_xor a.b3 b.b3;
}

unfoldable pub distance : NodeId → NodeId → NodeId
unfolding xor_chunk
distance a b = record {
  c0 = xor_chunk a.c0 b.c0;
  c1 = xor_chunk a.c1 b.c1;
  c2 = xor_chunk a.c2 b.c2;
  c3 = xor_chunk a.c3 b.c3;
}

-- `(x >> i) & 1 == 1`
abbrev pub bit_of : ℕ → ℕ → Bool
bit_of x i = x / 2 ^ i % 2 == 1

-- The index panic is not reached: the guard returns first.
unfoldable pub bit : NodeId → ℕ → Bool
unfolding chunk_u32
bit n pos =
    if leb 4 (pos / 32)
    then false
    else elim (chunk_u32 n (pos / 32)) [ none ↦ false | some x ↦ bit_of x (31 - pos % 32) ]

-- One round of the loop of `cmp`: the first difference decides.
abbrev pub then_cmp : Ordering → Ordering → Ordering
then_cmp Ordering.eq rest = rest
then_cmp Ordering.lt rest = Ordering.lt
then_cmp Ordering.gt rest = Ordering.gt

unfoldable pub cmp : NodeId → NodeId → Ordering
unfolding from_le_bytes
cmp a b = then_cmp (compare (from_le_bytes a.c0) (from_le_bytes b.c0)) (
    then_cmp (compare (from_le_bytes a.c1) (from_le_bytes b.c1)) (
      then_cmp (compare (from_le_bytes a.c2) (from_le_bytes b.c2))
        (compare (from_le_bytes a.c3) (from_le_bytes b.c3))))

-- `ordering == Ordering::Less`
abbrev pub is_less : Ordering → Bool
is_less Ordering.lt = true
is_less Ordering.eq = false
is_less Ordering.gt = false
