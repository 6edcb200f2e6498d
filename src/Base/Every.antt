-- ===== src/Base/Every.antt =====
-- What every entry of a list has, its entries have after sorting, keeping and taking the first.
use p2p_overlord_agents.Base.Tests.{Bool-cases}
use p2p_overlord_agents.Base.Lists.{All, head?, keep_if}
use p2p_overlord_agents.Base.Sort.{sort_by, insert_sorted}
use mathlib.Core.Path.{◌≡◌, ap, subst}
use mathlib.Core.Logic.{inl, inr}
use mathlib.Core.Bool.{Bool}
use mathlib.Core.List.{List, [], ◌∷◌}
use mathlib.Core.Option.{none, some}
use native.Mathlib.Omega.{arith}

pub All-insert_sorted {ℓ κ} :
    {A : Type ℓ} (P : A → Type κ) (lt : A → A → Bool) (a : A) (xs : List A)
    → P a
    → All P xs
    → All P (insert_sorted lt a xs)
unfolding insert_sorted
All-insert_sorted P lt a [] h ps = (h, tt)
All-insert_sorted P lt a (x ∷ xs) h (p, ps) = elim (Bool-cases (lt x a)) [
  | inl e ↦ rw e (p, All-insert_sorted P lt a xs h ps)
  | inr e ↦ rw e (h, (p, ps))
]

pub All-sort_by {ℓ κ} :
    {A : Type ℓ} (P : A → Type κ) (lt : A → A → Bool) (xs : List A)
    → All P xs
    → All P (sort_by lt xs)
unfolding sort_by
All-sort_by P lt [] ps = tt
All-sort_by P lt (x ∷ xs) (p, ps) =
    All-insert_sorted P lt x (sort_by lt xs) p (All-sort_by P lt xs ps)

pub All-head {ℓ κ} :
    {A : Type ℓ} (P : A → Type κ) (xs : List A) (a : A) → All P xs → head? xs ≡ some a → P a
All-head P [] a ps e = ground arith
All-head P (x ∷ xs) a (p, ps) e = subst P (ap (λ o. elim o [ none ↦ x | some y ↦ y ]) e) p

pub All-keep_if {ℓ κ} :
    {A : Type ℓ} (P : A → Type κ) (p : A → Bool) (xs : List A) → All P xs → All P (keep_if p xs)
All-keep_if P p [] ps = tt
All-keep_if P p (x ∷ xs) (h, ps) = elim (Bool-cases (p x)) [
  | inl e ↦ rw e (h, All-keep_if P p xs ps)
  | inr e ↦ rw e (All-keep_if P p xs ps)
]
