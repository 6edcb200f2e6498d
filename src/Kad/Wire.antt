-- ===== src/Kad/Wire.antt =====
-- Reading and writing little-endian numbers and blocks of bytes, as `binrw` and `Cursor` do. A reader
-- gives the value and the rest of the input, or an error.
use p2p_overlord_agents.Base.{
  ℕ, zero, suc, ◌+◌, ◌*◌, ◌/◌, ◌%◌, ◌<◌, ◌≡◌, refl, ap, List, [], ◌∷◌, ◌++◌, arith, length,
}

-- The end of the input, or a tag type that is not known.
pub data ReadError : Type 0 where
  unexpected_eof : ReadError
  unknown_tag_type : ℕ → ReadError

pub data Reading {ℓ} (A : Type ℓ) : Type ℓ where
  done : A → List ℕ → Reading A
  failed : ReadError → Reading A

abbrev pub and_then {ℓ κ} :
    {A : Type ℓ} {B : Type κ} → Reading A → (A → List ℕ → Reading B) → Reading B
and_then (done a rest) f = f a rest
and_then (failed e) f = failed e

abbrev pub give {ℓ} : {A : Type ℓ} → A → List ℕ → Reading A
give a rest = done a rest

-- The lowest `k` bytes of a number, the lowest first.
unfoldable pub write_le : ℕ → ℕ → List ℕ
write_le zero n = []
write_le (suc k) n = n % 256 ∷ write_le k (n / 256)

unfoldable pub read_le : ℕ → List ℕ → Reading ℕ
read_le zero bs = done 0 bs
read_le (suc k) [] = failed unexpected_eof
read_le (suc k) (b ∷ bs) = and_then (read_le k bs) (λ n rest. done (b + 256 * n) rest)

-- `read_exact`
unfoldable pub read_exact : ℕ → List ℕ → Reading (List ℕ)
read_exact zero bs = done [] bs
read_exact (suc k) [] = failed unexpected_eof
read_exact (suc k) (b ∷ bs) = and_then (read_exact k bs) (λ xs rest. done (b ∷ xs) rest)

-- `256 ^ k`
abbrev pub bound_le : ℕ → ℕ
bound_le zero = 1
bound_le (suc k) = 256 * bound_le k

pub read_le-write_le :
    (k n : ℕ) (rest : List ℕ) → n < bound_le k → read_le k (write_le k n ++ rest) ≡ done n rest
unfolding read_le write_le
read_le-write_le zero n rest h = ap (λ m. done m rest) (omega (arith, h))
read_le-write_le (suc k) n rest h =
    let e : n % 256 + 256 * (n / 256) ≡ n = omega arith in
    rw (read_le-write_le k (n / 256) rest (omega (arith, h))) (ap (λ m. done m rest) e)

pub read_exact-append : (xs rest : List ℕ) → read_exact (length xs) (xs ++ rest) ≡ done xs rest
unfolding read_exact
read_exact-append [] rest = refl
read_exact-append (x ∷ xs) rest = rw (read_exact-append xs rest)
