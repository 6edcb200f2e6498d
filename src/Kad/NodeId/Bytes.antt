-- ===== src/Kad/NodeId/Bytes.antt =====
-- Byte order and XOR distance of node_id.rs.
use p2p_overlord_agents.Base.{ℕ, ◌≡◌, refl, sym, ap, ◌∙◌, ◌↔◌, bit_xor}
use p2p_overlord_agents.Base.Xor.{zero-xor, xor_self, xor_comm, xor_assoc, xor_byte}
use p2p_overlord_agents.Kad.NodeId.{
  Chunk, NodeId, IsChunk, IsNodeId, zero_id, from_be_bytes, to_be_bytes, xor_chunk, distance,
}

-- `from_be_bytes` and `to_be_bytes` are inverse to one another.
pub to_be_bytes-from_be_bytes :
    (b : NodeId) → (to_be_bytes (from_be_bytes b) ≡ b) × (from_be_bytes (to_be_bytes b) ≡ b)
unfolding to_be_bytes from_be_bytes
to_be_bytes-from_be_bytes b = (refl, refl)

pub chunk_path : {a b : Chunk} → a.b0 ≡ b.b0 → a.b1 ≡ b.b1 → a.b2 ≡ b.b2 → a.b3 ≡ b.b3 → a ≡ b
chunk_path p q r s = λ i. record { b0 = p i; b1 = q i; b2 = r i; b3 = s i }

pub id_path : {a b : NodeId} → a.c0 ≡ b.c0 → a.c1 ≡ b.c1 → a.c2 ≡ b.c2 → a.c3 ≡ b.c3 → a ≡ b
id_path p q r s = λ i. record { c0 = p i; c1 = q i; c2 = r i; c3 = s i }

xor_chunk_comm : (a b : Chunk) → xor_chunk a b ≡ xor_chunk b a
unfolding xor_chunk
xor_chunk_comm a b =
    chunk_path (xor_comm a.b0 b.b0) (xor_comm a.b1 b.b1) (xor_comm a.b2 b.b2) (xor_comm a.b3 b.b3)

-- The distance is symmetric.
pub distance_comm : (a b : NodeId) → distance a b ≡ distance b a
unfolding distance
distance_comm a b =
    id_path (xor_chunk_comm a.c0 b.c0) (xor_chunk_comm a.c1 b.c1) (xor_chunk_comm a.c2 b.c2)
      (xor_chunk_comm a.c3 b.c3)

cancel : (a b c : ℕ) → bit_xor (bit_xor a b) (bit_xor b c) ≡ bit_xor a c
cancel a b c =
    xor_assoc a b (bit_xor b c)
    ∙ ap (bit_xor a) (sym (xor_assoc b b c) ∙ ap (λ (t : ℕ). bit_xor t c) (xor_self b) ∙ zero-xor c)

cancel_chunk : (a b c : Chunk) → xor_chunk (xor_chunk a b) (xor_chunk b c) ≡ xor_chunk a c
unfolding xor_chunk
cancel_chunk a b c =
    chunk_path (cancel a.b0 b.b0 c.b0) (cancel a.b1 b.b1 c.b1) (cancel a.b2 b.b2 c.b2)
      (cancel a.b3 b.b3 c.b3)

-- The distance by way of a third identifier: distances add up by XOR.
pub distance_trans : (a b c : NodeId) → distance (distance a b) (distance b c) ≡ distance a c
unfolding distance
distance_trans a b c =
    id_path (cancel_chunk a.c0 b.c0 c.c0) (cancel_chunk a.c1 b.c1 c.c1)
      (cancel_chunk a.c2 b.c2 c.c2) (cancel_chunk a.c3 b.c3 c.c3)

self_chunk : (a : Chunk) → xor_chunk a a ≡ zero_id.c0
unfolding xor_chunk
self_chunk a = chunk_path (xor_self a.b0) (xor_self a.b1) (xor_self a.b2) (xor_self a.b3)

distance_self : (a : NodeId) → distance a a ≡ zero_id
unfolding distance
distance_self a = id_path (self_chunk a.c0) (self_chunk a.c1) (self_chunk a.c2) (self_chunk a.c3)

zero_chunk-xor : (a : Chunk) → xor_chunk zero_id.c0 a ≡ a
unfolding xor_chunk
zero_chunk-xor a = chunk_path (zero-xor a.b0) (zero-xor a.b1) (zero-xor a.b2) (zero-xor a.b3)

zero-distance : (a : NodeId) → distance zero_id a ≡ a
unfolding distance
zero-distance a =
    id_path (zero_chunk-xor a.c0) (zero_chunk-xor a.c1) (zero_chunk-xor a.c2) (zero_chunk-xor a.c3)

back_again : (a b : NodeId) → distance (distance a b) b ≡ a
back_again a b =
    ap (distance (distance a b)) (sym (zero-distance b) ∙ distance_comm zero_id b)
    ∙ distance_trans a b zero_id
    ∙ distance_comm a zero_id
    ∙ zero-distance a

-- The distance is zero exactly between an identifier and itself.
pub distance_zero : (a b : NodeId) → (distance a b ≡ zero_id) ↔ (a ≡ b)
distance_zero a b = (
  λ e. sym (back_again a b) ∙ ap (λ d. distance d b) e ∙ zero-distance b,
  λ e. ap (λ d. distance d b) e ∙ distance_self b,
)

-- For each distance there is exactly one identifier at that distance from a given one.
pub distance_unique : (a b c : NodeId) → distance a c ≡ distance b c → a ≡ b
distance_unique a b c e = sym (back_again a c) ∙ ap (λ d. distance d c) e ∙ back_again b c

xor_chunk-IsChunk : (a b : Chunk) → IsChunk a → IsChunk b → IsChunk (xor_chunk a b)
unfolding xor_chunk
xor_chunk-IsChunk a b v w = record {
  b0_lt = xor_byte a.b0 b.b0 v.b0_lt w.b0_lt;
  b1_lt = xor_byte a.b1 b.b1 v.b1_lt w.b1_lt;
  b2_lt = xor_byte a.b2 b.b2 v.b2_lt w.b2_lt;
  b3_lt = xor_byte a.b3 b.b3 v.b3_lt w.b3_lt;
}

pub distance-IsNodeId : (a b : NodeId) → IsNodeId a → IsNodeId b → IsNodeId (distance a b)
unfolding distance
distance-IsNodeId a b v w = record {
  c0_bytes = xor_chunk-IsChunk a.c0 b.c0 v.c0_bytes w.c0_bytes;
  c1_bytes = xor_chunk-IsChunk a.c1 b.c1 v.c1_bytes w.c1_bytes;
  c2_bytes = xor_chunk-IsChunk a.c2 b.c2 v.c2_bytes w.c2_bytes;
  c3_bytes = xor_chunk-IsChunk a.c3 b.c3 v.c3_bytes w.c3_bytes;
}
