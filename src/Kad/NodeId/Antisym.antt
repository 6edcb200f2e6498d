-- ===== src/Kad/NodeId/Antisym.antt =====
-- The order `cmp` of node_id.rs tells any two identifiers apart.
use p2p_overlord_agents.Base.{ℕ, ◌≡◌, false, arith, compare, Ordering}
use p2p_overlord_agents.Kad.NodeId.{
  Chunk, NodeId, IsChunk, IsNodeId, from_le_bytes, then_cmp, cmp, is_less,
}
use p2p_overlord_agents.Kad.NodeId.Bytes.{chunk_path, id_path}

bytes_equal : (a b : Chunk) → IsChunk a → IsChunk b → from_le_bytes a ≡ from_le_bytes b → a ≡ b
unfolding from_le_bytes
bytes_equal a b v w e =
    let a0 = v.b0_lt in
    let b0 = w.b0_lt in
    let a1 = v.b1_lt in
    let b1 = w.b1_lt in
    let a2 = v.b2_lt in
    let b2 = w.b2_lt in
    let a3 = v.b3_lt in
    let b3 = w.b3_lt in
    chunk_path (omega (arith, e)) (omega (arith, e)) (omega (arith, e)) (omega (arith, e))

chunks_equal :
    (x y p q : ℕ) (r s : Ordering)
    → is_less (then_cmp (compare x y) r) ≡ false
    → is_less (then_cmp (compare y x) s) ≡ false
    → (x ≡ y) × (is_less r ≡ false) × (is_less s ≡ false)
chunks_equal x y p q r s h g = ground (arith, h, g)

-- Of two arrays of bytes neither is less than the other only where they are the same.
pub cmp_antisym :
    (a b : NodeId)
    → IsNodeId a
    → IsNodeId b
    → is_less (cmp a b) ≡ false
    → is_less (cmp b a) ≡ false
    → a ≡ b
unfolding cmp
cmp_antisym a b v w h g =
    let (e0, h1, g1) = chunks_equal (from_le_bytes a.c0) (from_le_bytes b.c0) 0 0 _ _ h g in
    let (e1, h2, g2) = chunks_equal (from_le_bytes a.c1) (from_le_bytes b.c1) 0 0 _ _ h1 g1 in
    let (e2, h3, g3) = chunks_equal (from_le_bytes a.c2) (from_le_bytes b.c2) 0 0 _ _ h2 g2 in
    let e3 : from_le_bytes a.c3 ≡ from_le_bytes b.c3 = ground (arith, h3, g3) in
    id_path (bytes_equal a.c0 b.c0 v.c0_bytes w.c0_bytes e0)
      (bytes_equal a.c1 b.c1 v.c1_bytes w.c1_bytes e1)
      (bytes_equal a.c2 b.c2 v.c2_bytes w.c2_bytes e2)
      (bytes_equal a.c3 b.c3 v.c3_bytes w.c3_bytes e3)
