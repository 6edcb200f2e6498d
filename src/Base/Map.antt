-- ===== src/Base/Map.antt =====
-- A hash map as an association list over keys with decidable equality.
use Prim.Native.Nat.{ℕ, ◌≤◌}
use mathlib.Core.Path.{◌≡◌, refl, ap}
use mathlib.Core.Bool.{Bool, false}
use mathlib.Core.List.{List, [], ◌∷◌}
use mathlib.Core.Option.{Option, none, some}
use native.Mathlib.Omega.{arith}
use p2p_overlord_agents.Base.Lists.{keep_if}
use p2p_overlord_agents.Base.Count.{count_if, count_if-keep_if-le}
use p2p_overlord_agents.Base.Tests.{if◌then◌else◌, same}

abbrev pub Map {ℓ κ} : Type ℓ → Type κ → Type (ℓ ⊔ κ)
Map K V = List (K × V)

module _ {ℓ κ} {K : Type ℓ} {V : Type κ} (d : Discrete K) where
  unfoldable pub lookup : K → Map K V → Option V
  lookup k [] = none
  lookup k ((j, v) ∷ m) = if same d j k then some v else lookup k m

  unfoldable pub insert : K → V → Map K V → Map K V
  insert k v [] = (k, v) ∷ []
  insert k v ((j, w) ∷ m) =
      let rest = insert k v m in if same d j k then (k, v) ∷ m else (j, w) ∷ rest

  unfoldable pub remove : K → Map K V → Map K V
  remove k [] = []
  remove k ((j, v) ∷ m) = let rest = remove k m in if same d j k then rest else (j, v) ∷ rest

  pub lookup-insert :
      (k j : K) (v : V) (m : Map K V)
      → lookup j (insert k v m) ≡ (if same d k j then some v else lookup j m)
  unfolding lookup insert
  lookup-insert k j v [] = refl
  lookup-insert k j v ((i, w) ∷ m) = ground (arith, lookup-insert k j v m)

  pub lookup-remove :
      (k j : K) (m : Map K V) → lookup j (remove k m) ≡ (if same d k j then none else lookup j m)
  unfolding lookup remove
  lookup-remove k j [] = ground arith
  lookup-remove k j ((i, w) ∷ m) = ground (arith, lookup-remove k j m)

  -- How many entries stand under a key; a hash map has at most one.
  abbrev pub entries_at : K → Map K V → ℕ
  entries_at k m = count_if (λ e. same d e.0 k) m

  abbrev pub IsMap : Map K V → Type ℓ
  IsMap m = (k : K) → entries_at k m ≤ 1

  entries_at-insert_other :
      (k j : K) (v : V) (m : Map K V)
      → same d k j ≡ false
      → entries_at j (insert k v m) ≡ entries_at j m
  unfolding insert
  entries_at-insert_other k j v [] h = ground arith
  entries_at-insert_other k j v ((i, w) ∷ m) h = ground (arith, entries_at-insert_other k j v m)

  pub entries_at-insert :
      (k j : K) (v : V) (m : Map K V)
      → entries_at k m ≤ 1
      → entries_at j m ≤ 1
      → entries_at j (insert k v m) ≤ 1
  unfolding insert
  entries_at-insert k j v [] p q = ground arith
  entries_at-insert k j v ((i, w) ∷ m) p q =
      ground (arith, entries_at-insert k j v m, entries_at-insert_other k j v m)

  pub lookup_absent : (k : K) (m : Map K V) → entries_at k m ≡ 0 → lookup k m ≡ none
  unfolding lookup
  lookup_absent k [] h = refl
  lookup_absent k ((j, v) ∷ m) h = ground (arith, lookup_absent k m)

  -- `retain` keeps an entry or drops it.
  pub lookup-keep_if :
      (p : K × V → Bool) (k : K) (m : Map K V)
      → entries_at k m ≤ 1
      → lookup k (keep_if p m)
        ≡ elim (lookup k m) [ none ↦ none | some v ↦ if p (k, v) then some v else none ]
  unfolding lookup
  lookup-keep_if p k [] h = refl
  lookup-keep_if p k ((j, v) ∷ m) h = ground (
    arith,
    lookup-keep_if p k m,
    lookup_absent k (keep_if p m),
    count_if-keep_if-le p (λ e. same d e.0 k) m,
    ap (λ i. p (i, v)) {x = j} {y = k},
  )
