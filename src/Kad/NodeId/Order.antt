-- ===== src/Kad/NodeId/Order.antt =====
-- The order `cmp` of node_id.rs: the first differing chunk decides, and of the identifiers of an
-- array only equal ones compare equal.
use p2p_overlord_agents.Base.{
  ℕ, ◌+◌, ◌*◌, ◌^◌, ◌<◌, ◌≡◌, ap, ap₂, ◌∙◌, true, false, arith, compare, Ordering,
}
use p2p_overlord_agents.Kad.NodeId.{
  Chunk, NodeId, IsChunk, IsNodeId, from_le_bytes, then_cmp, cmp, is_less,
}

-- One chunk in front of an order that is decided by `r`.
not_less_trans_step :
    (x y z : ℕ) (yx zy zx : Ordering)
    → (is_less yx ≡ false → is_less zy ≡ false → is_less zx ≡ false)
    → is_less (then_cmp (compare y x) yx) ≡ false
    → is_less (then_cmp (compare z y) zy) ≡ false
    → is_less (then_cmp (compare z x) zx) ≡ false
not_less_trans_step x y z yx zy zx h p q = ground arith

less_asym_step :
    (x y : ℕ) (xy yx : Ordering)
    → (is_less xy ≡ true → is_less yx ≡ false)
    → is_less (then_cmp (compare x y) xy) ≡ true
    → is_less (then_cmp (compare y x) yx) ≡ false
less_asym_step x y xy yx h p = ground arith

last_trans :
    (x y z : ℕ)
    → is_less (compare y x) ≡ false
    → is_less (compare z y) ≡ false
    → is_less (compare z x) ≡ false
last_trans x y z p q = ground arith

last_asym : (x y : ℕ) → is_less (compare x y) ≡ true → is_less (compare y x) ≡ false
last_asym x y p = ground arith

-- Being not less is transitive.
pub not_less_trans :
    (a b c : NodeId)
    → is_less (cmp b a) ≡ false
    → is_less (cmp c b) ≡ false
    → is_less (cmp c a) ≡ false
unfolding cmp
not_less_trans a b c = not_less_trans_step (u a.c0) (u b.c0) (u c.c0) _ _ _ (
    not_less_trans_step (u a.c1) (u b.c1) (u c.c1) _ _ _ (
      not_less_trans_step (u a.c2) (u b.c2) (u c.c2) _ _ _ (last_trans (u a.c3) (u b.c3) (u c.c3))))
  where
    u : Chunk → ℕ
    u = from_le_bytes

pub less_asym : (a b : NodeId) → is_less (cmp a b) ≡ true → is_less (cmp b a) ≡ false
unfolding cmp
less_asym a b = less_asym_step (u a.c0) (u b.c0) _ _ (
    less_asym_step (u a.c1) (u b.c1) _ _
      (less_asym_step (u a.c2) (u b.c2) _ _ (last_asym (u a.c3) (u b.c3))))
  where
    u : Chunk → ℕ
    u = from_le_bytes

-- The 128-bit number that the four chunks spell, the first one highest.
abbrev pub value : NodeId → ℕ
value n =
    from_le_bytes n.c0 * 2 ^ 96
    + from_le_bytes n.c1 * 2 ^ 64
    + from_le_bytes n.c2 * 2 ^ 32
    + from_le_bytes n.c3

from_le_bytes-lt : (c : Chunk) → IsChunk c → from_le_bytes c < 2 ^ 32
unfolding from_le_bytes
from_le_bytes-lt c v = omega arith

-- One chunk above a remainder.
compare_low :
    (x y p q : ℕ)
    → p < 2 ^ 32
    → q < 2 ^ 32
    → then_cmp (compare x y) (compare p q) ≡ compare (x * 2 ^ 32 + p) (y * 2 ^ 32 + q)
compare_low x y p q hp hq = ground arith

compare_mid :
    (x y p q : ℕ)
    → p < 2 ^ 64
    → q < 2 ^ 64
    → then_cmp (compare x y) (compare p q) ≡ compare (x * 2 ^ 64 + p) (y * 2 ^ 64 + q)
compare_mid x y p q hp hq = ground arith

compare_high :
    (x y p q : ℕ)
    → p < 2 ^ 96
    → q < 2 ^ 96
    → then_cmp (compare x y) (compare p q) ≡ compare (x * 2 ^ 96 + p) (y * 2 ^ 96 + q)
compare_high x y p q hp hq = ground arith

-- On arrays of bytes `cmp` compares the 128-bit numbers that the identifiers spell in eMule's chunk
-- order, each chunk read little-endian and the first chunk the highest.
pub cmp-compare : (a b : NodeId) → IsNodeId a → IsNodeId b → cmp a b ≡ compare (value a) (value b)
unfolding cmp
cmp-compare a b va vb =
    ap (λ r. then_cmp (compare (u a.c0) (u b.c0)) (then_cmp (compare (u a.c1) (u b.c1)) r))
      (compare_low (u a.c2) (u b.c2) (u a.c3) (u b.c3) a3 b3)
    ∙ ap (then_cmp (compare (u a.c0) (u b.c0))) (
        compare_mid (u a.c1) (u b.c1) (u a.c2 * 2 ^ 32 + u a.c3) (u b.c2 * 2 ^ 32 + u b.c3)
          (omega arith) (omega arith))
    ∙ compare_high (u a.c0) (u b.c0) (u a.c1 * 2 ^ 64 + (u a.c2 * 2 ^ 32 + u a.c3))
        (u b.c1 * 2 ^ 64 + (u b.c2 * 2 ^ 32 + u b.c3)) (omega arith) (omega arith)
    ∙ ap₂ compare (omega arith) (omega arith)
  where
    u : Chunk → ℕ
    u = from_le_bytes

    a1 : u a.c1 < 2 ^ 32
    a1 = from_le_bytes-lt a.c1 va.c1_bytes

    a2 : u a.c2 < 2 ^ 32
    a2 = from_le_bytes-lt a.c2 va.c2_bytes

    a3 : u a.c3 < 2 ^ 32
    a3 = from_le_bytes-lt a.c3 va.c3_bytes

    b1 : u b.c1 < 2 ^ 32
    b1 = from_le_bytes-lt b.c1 vb.c1_bytes

    b2 : u b.c2 < 2 ^ 32
    b2 = from_le_bytes-lt b.c2 vb.c2_bytes

    b3 : u b.c3 < 2 ^ 32
    b3 = from_le_bytes-lt b.c3 vb.c3_bytes
