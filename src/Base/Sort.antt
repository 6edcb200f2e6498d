-- ===== src/Base/Sort.antt =====
-- `sort_by` of a Rust slice, which is stable: insertion behind the entries that are not greater.
use p2p_overlord_agents.Base.Tests.{if◌then◌else◌, bool_to_ℕ, Bool-cases}
use p2p_overlord_agents.Base.Lists.{All, length, take}
use p2p_overlord_agents.Base.Count.{count_if, SameItems}
use Prim.Native.Nat.{ℕ, zero, suc, ◌+◌, min}
use mathlib.Core.Path.{◌≡◌, refl}
use mathlib.Core.Logic.{inl, inr}
use mathlib.Core.Bool.{Bool, true, false}
use mathlib.Core.List.{List, [], ◌∷◌, ◌++◌}
use native.Mathlib.Omega.{arith}

-- `lt a b` is `cmp(a, b) == Less`.
module _ {ℓ} {A : Type ℓ} (lt : A → A → Bool) where
  unfoldable pub insert_sorted : A → List A → List A
  insert_sorted a [] = a ∷ []
  insert_sorted a (x ∷ xs) =
      let rest = insert_sorted a xs in if lt x a then x ∷ rest else a ∷ x ∷ xs

  unfoldable pub sort_by : List A → List A
  unfolding insert_sorted
  sort_by [] = []
  sort_by (x ∷ xs) = insert_sorted x (sort_by xs)

  -- No later entry is less than an earlier one.
  abbrev pub IsSorted : List A → Type ℓ
  IsSorted [] = Unit {ℓ}
  IsSorted (x ∷ xs) = All (λ y. lt y x ≡ false) xs × IsSorted xs

  pub count_if-insert_sorted :
      (p : A → Bool) (a : A) (xs : List A)
      → count_if p (insert_sorted a xs) ≡ bool_to_ℕ (p a) + count_if p xs
  unfolding insert_sorted
  count_if-insert_sorted p a [] = refl
  count_if-insert_sorted p a (x ∷ xs) = ground (arith, count_if-insert_sorted p a xs)

  pub sort_by-SameItems : (xs : List A) → SameItems (sort_by xs) xs
  unfolding sort_by
  sort_by-SameItems [] p = refl
  sort_by-SameItems (x ∷ xs) p =
      omega (arith, count_if-insert_sorted p x (sort_by xs), sort_by-SameItems xs p)

  module _ (trans : (a b c : A) → lt b a ≡ false → lt c b ≡ false → lt c a ≡ false)
      (asym : (a b : A) → lt a b ≡ true → lt b a ≡ false) where
    All-trans :
        (a x : A) (xs : List A)
        → lt x a ≡ false
        → All (λ y. lt y x ≡ false) xs
        → All (λ y. lt y a ≡ false) xs
    All-trans a x [] h ps = tt
    All-trans a x (y ∷ ys) h (p, ps) = (trans a x y h p, All-trans a x ys h ps)

    All-insert_sorted :
        (a x : A) (xs : List A)
        → lt a x ≡ false
        → All (λ y. lt y x ≡ false) xs
        → All (λ y. lt y x ≡ false) (insert_sorted a xs)
    unfolding insert_sorted
    All-insert_sorted a x [] h ps = (h, tt)
    All-insert_sorted a x (y ∷ ys) h (p, ps) = elim (Bool-cases (lt y a)) [
      | inl e ↦ rw e (p, All-insert_sorted a x ys h ps)
      | inr e ↦ rw e (h, (p, ps))
    ]

    pub insert_sorted-IsSorted : (a : A) (xs : List A) → IsSorted xs → IsSorted (insert_sorted a xs)
    unfolding insert_sorted
    insert_sorted-IsSorted a [] v = (tt, tt)
    insert_sorted-IsSorted a (x ∷ xs) (p, v) = elim (Bool-cases (lt x a)) [
      | inl e ↦ rw e (All-insert_sorted a x xs (asym x a e) p, insert_sorted-IsSorted a xs v)
      | inr e ↦ rw e ((e, All-trans a x xs e p), (p, v))
    ]

    pub sort_by-IsSorted : (xs : List A) → IsSorted (sort_by xs)
    unfolding sort_by
    sort_by-IsSorted [] = tt
    sort_by-IsSorted (x ∷ xs) = insert_sorted-IsSorted x (sort_by xs) (sort_by-IsSorted xs)

module _ {ℓ} {A : Type ℓ} where
  abbrev pub drop : ℕ → List A → List A
  drop zero xs = xs
  drop (suc n) [] = []
  drop (suc n) (x ∷ xs) = drop n xs

  pub take-append-drop : (n : ℕ) (xs : List A) → take n xs ++ drop n xs ≡ xs
  take-append-drop zero xs = refl
  take-append-drop (suc n) [] = refl
  take-append-drop (suc n) (x ∷ xs) = rw (take-append-drop n xs)

  pub length-take : (n : ℕ) (xs : List A) → length (take n xs) ≡ min n (length xs)
  length-take zero xs = omega arith
  length-take (suc n) [] = omega arith
  length-take (suc n) (x ∷ xs) = omega (arith, length-take n xs)

  All-take {κ} : (P : A → Type κ) (n : ℕ) (xs : List A) → All P xs → All P (take n xs)
  All-take P zero xs ps = tt
  All-take P (suc n) [] ps = tt
  All-take P (suc n) (x ∷ xs) (p, ps) = (p, All-take P n xs ps)

  All-drop {κ} : (P : A → Type κ) (n : ℕ) (xs : List A) → All P xs → All P (drop n xs)
  All-drop P zero xs ps = ps
  All-drop P (suc n) [] ps = tt
  All-drop P (suc n) (x ∷ xs) (p, ps) = All-drop P n xs ps

  -- The first entries of a sorted list are sorted, and none behind them is less than one of them.
  pub take-IsSorted :
      (lt : A → A → Bool) (n : ℕ) (xs : List A)
      → IsSorted lt xs
      → IsSorted lt (take n xs) × All (λ x. All (λ y. lt y x ≡ false) (drop n xs)) (take n xs)
  take-IsSorted lt zero xs v = (tt, tt)
  take-IsSorted lt (suc n) [] v = (tt, tt)
  take-IsSorted lt (suc n) (x ∷ xs) (p, v) =
      let (s, a) = take-IsSorted lt n xs v in
      ((All-take (λ y. lt y x ≡ false) n xs p, s), (All-drop (λ y. lt y x ≡ false) n xs p, a))
