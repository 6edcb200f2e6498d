-- ===== src/Store/Entries.antt =====
-- crates/overlord-agent-emule/src/kad_store.rs: the lists of entries that were observed at a time,
-- with expiry, replacement and eviction. An instant and a duration are numbers of nanoseconds.
use p2p_overlord_agents.Base.{
  ℕ, ◌+◌, ◌≤◌, min, ◌≡◌, refl, ap, sym, subst, ◌⊎◌, inl, inr, Bool, true, false, List, [], ◌∷◌,
  ◌++◌, ltb, leb, ◌==◌, if◌then◌else◌, arith, length, find_if, keep_if, remove_first, any, count_if,
  bool_to_ℕ, bool_to_ℕ-le, count_if-snoc, length-snoc, length-remove_first, count_if-remove_first,
  Bool-cases, Option-cases, find_if-some, find_if-none, length-keep_if-le,
}

module _ {ℓ} {A : Type ℓ} where
  -- `*existing = entry` for the first entry that passes the test.
  unfoldable pub replace_match : (A → Bool) → A → List A → List A
  replace_match p a [] = []
  replace_match p a (x ∷ xs) = let rest = replace_match p a xs in if p x then a ∷ xs else x ∷ rest

  pub length-replace_match :
      (p : A → Bool) (a : A) (xs : List A) → length (replace_match p a xs) ≡ length xs
  unfolding replace_match
  length-replace_match p a [] = refl
  length-replace_match p a (x ∷ xs) = ground (arith, length-replace_match p a xs)

  -- Where the replaced entry passes a test whenever the new one does not fail it.
  pub count_if-replace_match :
      (p q : A → Bool) (a : A) (xs : List A)
      → ((x : A) → p x ≡ true → q x ≡ q a)
      → count_if q (replace_match p a xs) ≡ count_if q xs
  unfolding replace_match
  count_if-replace_match p q a [] h = refl
  count_if-replace_match p q a (x ∷ xs) h =
      ground (arith, h x, ap bool_to_ℕ {x = q x} {y = q a}, count_if-replace_match p q a xs h)

  pub count_if-remove_first-le :
      (p q : A → Bool) (xs : List A) → count_if q (remove_first p xs) ≤ count_if q xs
  count_if-remove_first-le p q [] = omega arith
  count_if-remove_first-le p q (x ∷ xs) = ground (arith, count_if-remove_first-le p q xs)

  pub length-remove_first-le : (p : A → Bool) (xs : List A) → length (remove_first p xs) ≤ length xs
  length-remove_first-le p [] = omega arith
  length-remove_first-le p (x ∷ xs) = ground (arith, length-remove_first-le p xs)

  -- Where more entries than the limit pass the test, the first of them is removed.
  unfoldable pub make_room : ℕ → (A → Bool) → List A → List A
  make_room limit p xs = if ltb limit (count_if p xs) then remove_first p xs else xs

  pub count_if-make_room :
      (limit : ℕ) (p : A → Bool) (xs : List A)
      → count_if p xs ≤ limit + 1
      → count_if p (make_room limit p xs) ≤ limit
  unfolding make_room
  count_if-make_room limit p xs h = elim (Option-cases (find_if p xs)) [
    | inl e ↦ let z = find_if-none p xs e in ground (arith, z)
    | inr (a, e) ↦
        let k = count_if-remove_first p p xs e in
        let o = ap bool_to_ℕ (find_if-some p xs e).0 in ground (arith, k, o, h)
  ]

  pub count_if-make_room-le :
      (limit : ℕ) (p q : A → Bool) (xs : List A) → count_if q (make_room limit p xs) ≤ count_if q xs
  unfolding make_room
  count_if-make_room-le limit p q xs = ground (arith, count_if-remove_first-le p q xs)

  pub length-make_room-le :
      (limit : ℕ) (p : A → Bool) (xs : List A) → length (make_room limit p xs) ≤ length xs
  unfolding make_room
  length-make_room-le limit p xs = ground (arith, length-remove_first-le p xs)

  module _ (observed_at : A → ℕ) where
    unfoldable pub purge_expired : ℕ → ℕ → List A → List A
    purge_expired ttl now xs = keep_if (λ e. ltb now (observed_at e + ttl)) xs

    abbrev pub least : ℕ → List A → ℕ
    least n [] = n
    least n (x ∷ xs) = least (min n (observed_at x)) xs

    -- `min_by_key` gives the first of the oldest entries, and `remove` takes it out.
    unfoldable pub remove_oldest : List A → List A
    remove_oldest [] = []
    remove_oldest (x ∷ xs) = remove_first (λ e. observed_at e == least (observed_at x) xs) (x ∷ xs)

    -- The end of every upsert: room is made where the list is full, and the entry is pushed.
    unfoldable pub push_bounded : ℕ → A → List A → List A
    unfolding remove_oldest
    push_bounded capacity a xs =
        (if leb capacity (length xs) then remove_oldest xs else xs) ++ (a ∷ [])

    least_found :
        (n : ℕ) (xs : List A)
        → (least n xs ≡ n) ⊎ (1 ≤ count_if (λ e. observed_at e == least n xs) xs)
    least_found n [] = inl refl
    least_found n (x ∷ xs) = elim (least_found (min n (observed_at x)) xs) [
      | inl e ↦ ground (arith, e)
      | inr h ↦ inr (omega (arith, h))
    ]

    pub length-remove_oldest : (x : A) (xs : List A) → length (remove_oldest (x ∷ xs)) ≡ length xs
    unfolding remove_oldest
    length-remove_oldest x xs =
        let n = observed_at x in
        let p : A → Bool = λ e. observed_at e == least n xs in
        let found : 1 ≤ count_if p (x ∷ xs) = elim (least_found n xs) [
          | inl e ↦ ground (arith, e)
          | inr h ↦ omega (arith, h)
        ] in
        elim (Option-cases (find_if p (x ∷ xs))) [
          | inl e ↦ absurd (omega (arith, find_if-none p (x ∷ xs) e, found))
          | inr (a, e) ↦ omega (arith, length-remove_first p (x ∷ xs) e)
        ]

    pub count_if-remove_oldest-le :
        (q : A → Bool) (xs : List A) → count_if q (remove_oldest xs) ≤ count_if q xs
    unfolding remove_oldest
    count_if-remove_oldest-le q [] = omega arith
    count_if-remove_oldest-le q (x ∷ xs) =
        count_if-remove_first-le (λ e. observed_at e == least (observed_at x) xs) q (x ∷ xs)

    pub length-push_bounded :
        (capacity : ℕ) (a : A) (xs : List A)
        → 1 ≤ capacity
        → length xs ≤ capacity
        → length (push_bounded capacity a xs) ≤ capacity
    unfolding push_bounded
    length-push_bounded capacity a [] c h = elim (Bool-cases (leb capacity 0)) [
      | inl e ↦ absurd (ground (arith, e, c))
      | inr e ↦ rw e (omega (arith, c))
    ]
    length-push_bounded capacity a (x ∷ xs) c h =
        elim (Bool-cases (leb capacity (length (x ∷ xs)))) [
          | inl e ↦
              rw e (
                omega (arith, length-snoc (remove_oldest (x ∷ xs)) a, length-remove_oldest x xs, h))
          | inr e ↦ rw e (let k = length-snoc (x ∷ xs) a in ground (arith, e))
        ]

    pub count_if-push_bounded-le :
        (q : A → Bool) (capacity : ℕ) (a : A) (xs : List A)
        → count_if q (push_bounded capacity a xs) ≤ count_if q xs + bool_to_ℕ (q a)
    unfolding push_bounded
    count_if-push_bounded-le q capacity a xs = elim (Bool-cases (leb capacity (length xs))) [
      | inl e ↦
          rw e (omega (arith, count_if-snoc q (remove_oldest xs) a, count_if-remove_oldest-le q xs))
      | inr e ↦ rw e (omega (arith, count_if-snoc q xs a))
    ]

    pub length-purge_expired-le :
        (ttl now : ℕ) (xs : List A) → length (purge_expired ttl now xs) ≤ length xs
    unfolding purge_expired
    length-purge_expired-le ttl now xs = length-keep_if-le (λ e. ltb now (observed_at e + ttl)) xs

    -- The two upserts that bound the entries of a target.
    module _ (limit capacity : ℕ) (of_same matching : A → Bool) (a : A) where
      abbrev pub upserted : List A → List A
      upserted xs =
          if any matching xs
          then replace_match matching a xs
          else push_bounded capacity a (make_room limit of_same xs)

      pub length-upserted :
          (xs : List A) → 1 ≤ capacity → length xs ≤ capacity → length (upserted xs) ≤ capacity
      length-upserted xs c h = elim (Bool-cases (any matching xs)) [
        | inl e ↦ rw e (omega (arith, length-replace_match matching a xs, h))
        | inr e ↦ rw e (
            length-push_bounded capacity a (make_room limit of_same xs) c
              (omega (arith, length-make_room-le limit of_same xs, h)))
      ]

      bound :
          (q : A → Bool) (xs : List A)
          → q ≡ of_same
          → count_if q xs ≤ limit + 1
          → count_if q (make_room limit of_same xs) ≤ limit
      bound q xs z h =
          subst
            (λ (p : A → Bool).
              count_if p xs ≤ limit + 1 → count_if p (make_room limit of_same xs) ≤ limit)
            (sym z) (count_if-make_room limit of_same xs) h

      -- `q` tests for any target: it is that of the new entry, or it fails on the new entry.
      pub count_if-upserted :
          (q : A → Bool) (xs : List A)
          → ((x : A) → matching x ≡ true → q x ≡ q a)
          → (q a ≡ false) ⊎ (q ≡ of_same)
          → count_if q xs ≤ limit + 1
          → count_if q (upserted xs) ≤ limit + 1
      count_if-upserted q xs same_target other h = elim (Bool-cases (any matching xs)) [
        | inl e ↦ rw e (omega (arith, count_if-replace_match matching q a xs same_target, h))
        | inr e ↦
            let ys = make_room limit of_same xs in
            let k = count_if-push_bounded-le q capacity a ys in
            rw e (elim other [
              | inl z ↦
                  let o = ap bool_to_ℕ z in
                  omega (arith, k, o, count_if-make_room-le limit of_same q xs, h)
              | inr z ↦ omega (arith, k, bound q xs z h, bool_to_ℕ-le (q a))
            ])
      ]
