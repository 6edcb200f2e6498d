-- ===== src/Base/Count.antt =====
-- A list as a multiset: how many of its items pass a test. Two lists that agree on every test hold
-- the same items, as often.
use Prim.Native.Nat.{ℕ, ◌+◌, ◌≤◌}
use mathlib.Core.Path.{◌≡◌, refl, ap, ◌∙◌}
use mathlib.Core.Bool.{Bool, true, false, not}
use mathlib.Core.List.{List, [], ◌∷◌, ◌++◌}
use mathlib.Core.Option.{none, some}
use native.Mathlib.Omega.{arith}
use p2p_overlord_agents.Base.Tests.{bool_to_ℕ, same, same_iff}
use p2p_overlord_agents.Base.Lists.{any, length, find_if, keep_if, remove_first}

module _ {ℓ} {A : Type ℓ} where
  -- `iter().filter(p).count()`
  abbrev pub count_if : (A → Bool) → List A → ℕ
  count_if p [] = 0
  count_if p (x ∷ xs) = bool_to_ℕ (p x) + count_if p xs

  abbrev pub SameItems : List A → List A → Type ℓ
  SameItems xs ys = (p : A → Bool) → count_if p xs ≡ count_if p ys

  pub count_if-append :
      (p : A → Bool) (xs ys : List A) → count_if p (xs ++ ys) ≡ count_if p xs + count_if p ys
  count_if-append p [] ys = omega arith
  count_if-append p (x ∷ xs) ys = omega (arith, count_if-append p xs ys)

  pub count_if-snoc :
      (p : A → Bool) (xs : List A) (x : A)
      → count_if p (xs ++ (x ∷ [])) ≡ count_if p xs + bool_to_ℕ (p x)
  count_if-snoc p [] x = omega arith
  count_if-snoc p (y ∷ xs) x = omega (arith, count_if-snoc p xs x)

  pub length-snoc : (xs : List A) (x : A) → length (xs ++ (x ∷ [])) ≡ length xs + 1
  length-snoc [] x = omega arith
  length-snoc (y ∷ xs) x = omega (arith, length-snoc xs x)

  pub length-remove_first :
      (p : A → Bool) (xs : List A) {a : A}
      → find_if p xs ≡ some a
      → length (remove_first p xs) + 1 ≡ length xs
  length-remove_first p [] e = ground arith
  length-remove_first p (x ∷ xs) {a} e = ground (arith, length-remove_first p xs {a = a})

  pub count_if-le-length : (p : A → Bool) (xs : List A) → count_if p xs ≤ length xs
  count_if-le-length p [] = omega arith
  count_if-le-length p (x ∷ xs) = ground (arith, count_if-le-length p xs)

  pub count_if-true : (xs : List A) → count_if (λ _. true) xs ≡ length xs
  count_if-true [] = refl
  count_if-true (x ∷ xs) = omega (arith, count_if-true xs)

  -- An item is found exactly when the count is positive.
  pub find_if-none : (p : A → Bool) (xs : List A) → find_if p xs ≡ none → count_if p xs ≡ 0
  find_if-none p [] e = refl
  find_if-none p (x ∷ xs) e = ground (arith, find_if-none p xs)

  pub find_if_zero : (p : A → Bool) (xs : List A) → count_if p xs ≡ 0 → find_if p xs ≡ none
  find_if_zero p [] e = refl
  find_if_zero p (x ∷ xs) e = ground (arith, find_if_zero p xs)

  pub find_if-some :
      (p : A → Bool) (xs : List A) {a : A}
      → find_if p xs ≡ some a
      → (p a ≡ true) × (1 ≤ count_if p xs)
  find_if-some p [] e = ground arith
  find_if-some p (x ∷ xs) {a} e = ground (arith, find_if-some p xs {a = a})

  -- Removing the first match takes that one item out of the multiset.
  pub count_if-remove_first :
      (p q : A → Bool) (xs : List A) {a : A}
      → find_if p xs ≡ some a
      → count_if q (remove_first p xs) + bool_to_ℕ (q a) ≡ count_if q xs
  count_if-remove_first p q [] e = ground arith
  count_if-remove_first p q (x ∷ xs) {a} e = ground (arith, count_if-remove_first p q xs {a = a})

  pub remove_first-none :
      (p : A → Bool) (xs : List A) → find_if p xs ≡ none → remove_first p xs ≡ xs
  remove_first-none p [] e = refl
  remove_first-none p (x ∷ xs) e = ground (arith, remove_first-none p xs)

  -- A test and its negation split a list in two.
  pub count_if-keep_if_split :
      (p q : A → Bool) (xs : List A)
      → count_if q (keep_if p xs) + count_if q (keep_if (λ x. not (p x)) xs) ≡ count_if q xs
  count_if-keep_if_split p q [] = refl
  count_if-keep_if_split p q (x ∷ xs) = ground (arith, count_if-keep_if_split p q xs)

  pub count_if-keep_if-le :
      (p q : A → Bool) (xs : List A) → count_if q (keep_if p xs) ≤ count_if q xs
  count_if-keep_if-le p q [] = omega arith
  count_if-keep_if-le p q (x ∷ xs) = ground (arith, count_if-keep_if-le p q xs)

  pub find_if-append_none :
      (p : A → Bool) (xs ys : List A) → count_if p xs ≡ 0 → find_if p (xs ++ ys) ≡ find_if p ys
  find_if-append_none p [] ys e = refl
  find_if-append_none p (x ∷ xs) ys e = ground (arith, find_if-append_none p xs ys)

  pub find_if-append_left :
      (p : A → Bool) (xs ys : List A) → count_if p ys ≡ 0 → find_if p (xs ++ ys) ≡ find_if p xs
  find_if-append_left p [] ys e = find_if_zero p ys e
  find_if-append_left p (x ∷ xs) ys e = ground (arith, find_if-append_left p xs ys)

  -- A stronger test counts fewer items, and finds the same item among those that pass a weaker one.
  pub count_if_mono :
      (p q : A → Bool) (xs : List A)
      → ((x : A) → p x ≡ true → q x ≡ true)
      → count_if p xs ≤ count_if q xs
  count_if_mono p q [] h = omega arith
  count_if_mono p q (x ∷ xs) h = ground (arith, h x, count_if_mono p q xs h)

  pub find_if-keep_if :
      (p q : A → Bool) (xs : List A)
      → ((x : A) → p x ≡ true → q x ≡ true)
      → find_if p (keep_if q xs) ≡ find_if p xs
  find_if-keep_if p q [] h = refl
  find_if-keep_if p q (x ∷ xs) h = ground (arith, h x, find_if-keep_if p q xs h)

  pub length-keep_if-le : (p : A → Bool) (xs : List A) → length (keep_if p xs) ≤ length xs
  length-keep_if-le p [] = omega arith
  length-keep_if-le p (x ∷ xs) = ground (arith, length-keep_if-le p xs)

  pub count_if-keep_if_none :
      (p : A → Bool) (xs : List A) → count_if p (keep_if (λ x. not (p x)) xs) ≡ 0
  count_if-keep_if_none p [] = refl
  count_if-keep_if_none p (x ∷ xs) = ground (arith, count_if-keep_if_none p xs)

  pub count_if-keep_if_all :
      (p : A → Bool) (xs : List A) → count_if (λ x. not (p x)) (keep_if p xs) ≡ 0
  count_if-keep_if_all p [] = refl
  count_if-keep_if_all p (x ∷ xs) = ground (arith, count_if-keep_if_all p xs)

-- Where at most one item passes a test and `c` is such an item, the search finds `c`.
pub find_if_unique {ℓ} :
    {A : Type ℓ} (d : Discrete A) (p : A → Bool) (xs : List A) (c : A)
    → p c ≡ true
    → 1 ≤ count_if (λ x. same d x c) xs
    → count_if p xs ≤ 1
    → find_if p xs ≡ some c
find_if_unique d p [] c h one most = absurd (omega arith)
find_if_unique d p (x ∷ xs) c h one most = ground (
  arith,
  ap p {x = x} {y = c},
  find_if_unique d p xs c h,
  count_if_mono (λ y. same d y c) p xs (λ y e. ap p ((same_iff d y c).0 e) ∙ h),
)

pub find_if-some_count {ℓ} :
    {A : Type ℓ} (d : Discrete A) (p : A → Bool) (xs : List A) (c : A)
    → find_if p xs ≡ some c
    → 1 ≤ count_if (λ x. same d x c) xs
find_if-some_count d p [] c e = ground arith
find_if-some_count d p (x ∷ xs) c e = ground (arith, find_if-some_count d p xs c)

pub any-false {ℓ} : {A : Type ℓ} (p : A → Bool) (xs : List A) → any p xs ≡ false → count_if p xs ≡ 0
any-false p [] e = refl
any-false p (x ∷ xs) e = ground (arith, any-false p xs)
