-- ===== src/Base/Member.antt =====
-- Membership in a list, through the iterators that keep, reverse and map.
use Prim.Native.Nat.{ℕ, zero, suc, ◌≤◌}
use mathlib.Core.Path.{◌≡◌, refl, ap, subst}
use mathlib.Core.Logic.{◌⊎◌, inl, inr}
use mathlib.Core.Bool.{Bool, true}
use mathlib.Core.List.{List, [], ◌∷◌, ◌++◌, map}
use native.Mathlib.Omega.{arith}
use p2p_overlord_agents.Base.Tests.{Bool-cases}
use p2p_overlord_agents.Base.Lists.{All, length, take, keep_if}
use p2p_overlord_agents.Base.Count.{length-snoc}

module _ {A : Type 0} where
  -- The item stands somewhere in the list.
  abbrev pub In : A → List A → Type 0
  In a [] = ⊥
  In a (x ∷ xs) = (x ≡ a) ⊎ In a xs

  abbrev pub rev : List A → List A
  rev [] = []
  rev (x ∷ xs) = rev xs ++ (x ∷ [])

  abbrev pub skip : ℕ → List A → List A
  skip zero xs = xs
  skip (suc n) [] = []
  skip (suc n) (x ∷ xs) = skip n xs

  pub In-left : (a : A) (xs ys : List A) → In a xs → In a (xs ++ ys)
  In-left a [] ys h = absurd h
  In-left a (x ∷ xs) ys (inl e) = inl e
  In-left a (x ∷ xs) ys (inr h) = inr (In-left a xs ys h)

  pub In-right : (a : A) (xs ys : List A) → In a ys → In a (xs ++ ys)
  In-right a [] ys h = h
  In-right a (x ∷ xs) ys h = inr (In-right a xs ys h)

  pub In-append : (a : A) (xs ys : List A) → In a (xs ++ ys) → In a xs ⊎ In a ys
  In-append a [] ys h = inr h
  In-append a (x ∷ xs) ys (inl e) = inl (inl e)
  In-append a (x ∷ xs) ys (inr h) = elim (In-append a xs ys h) [
    | inl l ↦ inl (inr l)
    | inr r ↦ inr r
  ]

  pub In-rev : (a : A) (xs : List A) → In a xs → In a (rev xs)
  In-rev a [] h = absurd h
  In-rev a (x ∷ xs) (inl e) = In-right a (rev xs) (x ∷ []) (inl e)
  In-rev a (x ∷ xs) (inr h) = In-left a (rev xs) (x ∷ []) (In-rev a xs h)

  pub rev-In : (a : A) (xs : List A) → In a (rev xs) → In a xs
  rev-In a [] h = h
  rev-In a (x ∷ xs) h = elim (In-append a (rev xs) (x ∷ []) h) [
    | inl l ↦ inr (rev-In a xs l)
    | inr (inl e) ↦ inl e
    | inr (inr e) ↦ absurd e
  ]

  pub In-keep_if : (p : A → Bool) (a : A) (xs : List A) → p a ≡ true → In a xs → In a (keep_if p xs)
  In-keep_if p a [] t h = absurd h
  In-keep_if p a (x ∷ xs) t (inl e) = rw (ap p e, t) (inl e)
  In-keep_if p a (x ∷ xs) t (inr h) = elim (Bool-cases (p x)) [
    | inl e ↦ rw e (inr (In-keep_if p a xs t h))
    | inr e ↦ rw e (In-keep_if p a xs t h)
  ]

  pub keep_if-In :
      (p : A → Bool) (a : A) (xs : List A) → In a (keep_if p xs) → In a xs × (p a ≡ true)
  keep_if-In p a [] h = absurd h
  keep_if-In p a (x ∷ xs) h = elim (Bool-cases (p x)) [
    | inl e ↦ elim (rw e at h) [
      | inl z ↦ (inl z, subst (λ y. p y ≡ true) z e)
      | inr i ↦ let (j, t) = keep_if-In p a xs i in (inr j, t)
    ]
    | inr e ↦ let (j, t) = keep_if-In p a xs (rw e at h) in (inr j, t)
  ]

  pub take-In : (n : ℕ) (a : A) (xs : List A) → In a (take n xs) → In a xs
  take-In zero a xs h = absurd h
  take-In (suc n) a [] h = absurd h
  take-In (suc n) a (x ∷ xs) (inl e) = inl e
  take-In (suc n) a (x ∷ xs) (inr h) = inr (take-In n a xs h)

  pub take_all : (n : ℕ) (xs : List A) → length xs ≤ n → take n xs ≡ xs
  take_all zero [] h = refl
  take_all zero (x ∷ xs) h = absurd (omega (arith, h))
  take_all (suc n) [] h = refl
  take_all (suc n) (x ∷ xs) h = ap (λ ys. x ∷ ys) (take_all n xs (omega (arith, h)))

  pub length-take-le : (n : ℕ) (xs : List A) → length (take n xs) ≤ n
  length-take-le zero xs = omega arith
  length-take-le (suc n) [] = omega arith
  length-take-le (suc n) (x ∷ xs) = omega (arith, length-take-le n xs)

  pub skip-In : (n : ℕ) (a : A) (xs : List A) → In a (skip n xs) → In a xs
  skip-In zero a xs h = h
  skip-In (suc n) a [] h = absurd h
  skip-In (suc n) a (x ∷ xs) h = inr (skip-In n a xs h)

  pub length-rev : (xs : List A) → length (rev xs) ≡ length xs
  length-rev [] = refl
  length-rev (x ∷ xs) = omega (arith, length-snoc (rev xs) x, length-rev xs)

  -- What holds of every item of a list, one by one.
  pub All-of_In {κ} : (P : A → Type κ) (xs : List A) → ((a : A) → In a xs → P a) → All P xs
  All-of_In P [] f = tt
  All-of_In P (x ∷ xs) f = (f x (inl refl), All-of_In P xs (λ a h. f a (inr h)))

module _ {A B : Type 0} (f : A → B) where
  pub In-map : (a : A) (xs : List A) → In a xs → In (f a) (map f xs)
  In-map a [] h = absurd h
  In-map a (x ∷ xs) (inl e) = inl (ap f e)
  In-map a (x ∷ xs) (inr h) = inr (In-map a xs h)

  pub length-map : (xs : List A) → length (map f xs) ≡ length xs
  length-map [] = refl
  length-map (x ∷ xs) = omega (arith, length-map xs)

  pub map-All {μ} : (P : B → Type μ) (xs : List A) → All (λ a. P (f a)) xs → All P (map f xs)
  map-All P [] h = tt
  map-All P (x ∷ xs) (p, ps) = (p, map-All P xs ps)
