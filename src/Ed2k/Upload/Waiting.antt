-- ===== src/Ed2k/Upload/Waiting.antt =====
-- upload_queue.rs, `ranked_waiting_keys`: the keys that it ranks are those of the waiting sessions.
use p2p_overlord_agents.Base.{
  ℕ, ◌+◌, ◌≤◌, ◌<◌, ◌≡◌, refl, sym, ap, ◌∙◌, ◌⊎◌, inl, inr, Bool, true, not, ◌&&◌, none, some, List,
  [], ◌∷◌, arith, subst, same_refl, bool_to_ℕ, All, find_if, keep_if, head?, last?, remove_first,
  count_if, length, Bool-cases, Option-cases, count_if-remove_first, find_if-some, find_if-none,
  count_if_mono,
}
use p2p_overlord_agents.Base.Every.{All-head, All-sort_by}
use p2p_overlord_agents.Base.Sort.{sort_by-SameItems}
use p2p_overlord_agents.Ed2k.Upload.{
  Queue, Session, KeyRef, KeyRef-discrete, Ed2kUploadSessionKey, Waiter, key_ref, is_key, has_key,
  is_waiting, waiters, ranked, ahead, best_waiting_key, worst_waiting_key,
}
use p2p_overlord_agents.Ed2k.Upload.Invariant.{waits_at, waits_has, IsSound, one_key}

All-last {ℓ κ} :
    {A : Type ℓ} (P : A → Type κ) (xs : List A) (a : A) → All P xs → last? xs ≡ some a → P a
All-last P [] a ps e = ground arith
All-last P (x ∷ []) a (p, ps) e = subst P (ap (λ o. elim o [ none ↦ x | some y ↦ y ]) e) p
All-last P (x ∷ y ∷ xs) a (p, ps) e = All-last P (y ∷ xs) a ps e

last_none {ℓ} : {A : Type ℓ} (xs : List A) → last? xs ≡ none → xs ≡ []
last_none [] e = refl
last_none (x ∷ []) e = ground arith
last_none (x ∷ y ∷ xs) e = absurd (ground (arith, last_none (y ∷ xs) e))

head_none {ℓ} : {A : Type ℓ} (xs : List A) → head? xs ≡ none → xs ≡ []
head_none [] e = refl
head_none (x ∷ xs) e = ground arith

-- A key of the queue stands for a waiting session.
abbrev pub Waits : List Session → Ed2kUploadSessionKey → Session → Type 0
Waits ss k s = (find_if (has_key (key_ref k)) ss ≡ some s) × (is_waiting s.phase ≡ true)

waiters_some :
    (ss : List Session) (k : Ed2kUploadSessionKey) (ks : List Ed2kUploadSessionKey) (s : Session)
    → Waits ss k s
    → waiters ss (k ∷ ks) ≡ (k, s) ∷ waiters ss ks
unfolding waiters
waiters_some ss k ks s (e, h) = rw (e, h, waiters)

waiters_skip :
    (ss : List Session) (k : Ed2kUploadSessionKey) (ks : List Ed2kUploadSessionKey)
    → (waiters ss (k ∷ ks) ≡ waiters ss ks) ⊎ ((s : Session) × Waits ss k s)
unfolding waiters
waiters_skip ss k ks = elim (Option-cases (find_if (has_key (key_ref k)) ss)) [
  | inl e ↦ inl (rw (e, waiters))
  | inr (s, e) ↦ elim (Bool-cases (is_waiting s.phase)) [
    | inl h ↦ inr (s, (e, h))
    | inr h ↦ inl (rw (e, h, waiters))
  ]
]

waiters-All :
    (ss : List Session) (ks : List Ed2kUploadSessionKey)
    → All (λ (w : Waiter). Waits ss w.0 w.1) (waiters ss ks)
waiters-All ss [] = unfold waiters in tt
waiters-All ss (k ∷ ks) = elim (waiters_skip ss k ks) [
  | inl e ↦ subst (All (λ (w : Waiter). Waits ss w.0 w.1)) (sym e) (waiters-All ss ks)
  | inr (s, h) ↦
      subst (All (λ (w : Waiter). Waits ss w.0 w.1)) (sym (waiters_some ss k ks s h))
        (h, waiters-All ss ks)
]

-- A listed key has a waiting session.
listed-Waits :
    (q : Queue) (k : Ed2kUploadSessionKey)
    → IsSound q
    → 1 ≤ count_if (is_key (key_ref k)) q.waiting_order
    → (s : Session) × Waits q.sessions k s
listed-Waits q k v h =
    let r = key_ref k in
    let l = v.listed r in
    let mono = λ (ss : List Session). count_if_mono (waits_at r) (has_key r) ss (waits_has r) in
    elim (Option-cases (find_if (has_key r) q.sessions)) [
      | inl e ↦ absurd (omega (arith, l, mono q.sessions, find_if-none (has_key r) q.sessions e))
      | inr (s, e) ↦
          let (p, _) = find_if-some (has_key r) q.sessions e in
          let rest = remove_first (has_key r) q.sessions in
          let w = count_if-remove_first (has_key r) (waits_at r) q.sessions e in
          let a = count_if-remove_first (has_key r) (has_key r) q.sessions e in
          let one = one_key r q v in
          let m = mono rest in
          let pb = ap bool_to_ℕ p in
          (
            s,
            (
              e,
              elim (Bool-cases (is_waiting s.phase)) [
                | inl g ↦ g
                | inr g ↦ let gb = ap (λ b. bool_to_ℕ (has_key r s && b)) g in absurd (ground arith)
              ],
            ),
          )
    ]

count_nil {ℓ} : {A : Type ℓ} (xs : List A) → count_if (λ _. true) xs ≡ 0 → xs ≡ []
count_nil [] e = refl
count_nil (x ∷ xs) e = absurd (omega (arith, e))

ranked_nil : (q : Queue) (now : ℕ) → ranked q now ≡ [] → waiters q.sessions q.waiting_order ≡ []
unfolding ranked
ranked_nil q now e =
    let ws = waiters q.sessions q.waiting_order in
    count_nil ws (sym (sort_by-SameItems (ahead now) ws (λ _. true)) ∙ ap (count_if (λ _. true)) e)

listed_head :
    (k : Ed2kUploadSessionKey) (ks : List Ed2kUploadSessionKey)
    → 1 ≤ count_if (is_key (key_ref k)) (k ∷ ks)
listed_head k ks = let h = ap bool_to_ℕ (same_refl KeyRef-discrete (key_ref k)) in omega (arith, h)

unlisted :
    (ss : List Session) (ks : List Ed2kUploadSessionKey)
    → waiters ss ks ≡ []
    → ((k : Ed2kUploadSessionKey)
        → 1 ≤ count_if (is_key (key_ref k)) ks
        → (s : Session) × Waits ss k s)
    → ks ≡ []
unlisted ss [] e h = refl
unlisted ss (k ∷ ks) e h =
    let (s, w) = h k (listed_head k ks) in
    absurd (omega (arith, ap length (sym (waiters_some ss k ks s w) ∙ e)))

-- Where no key is ranked, the queue is empty.
unranked : (q : Queue) (now : ℕ) → IsSound q → ranked q now ≡ [] → q.waiting_order ≡ []
unranked q now v e =
    unlisted q.sessions q.waiting_order (ranked_nil q now e) (λ k h. listed-Waits q k v h)

ranked-All : (q : Queue) (now : ℕ) → All (λ (w : Waiter). Waits q.sessions w.0 w.1) (ranked q now)
unfolding ranked
ranked-All q now =
    All-sort_by (λ (w : Waiter). Waits q.sessions w.0 w.1) (ahead now)
      (waiters q.sessions q.waiting_order) (waiters-All q.sessions q.waiting_order)

-- The best key is that of a waiting session, and there is one as long as the queue is not empty.
pub best_lem :
    (q : Queue) (now : ℕ)
    → IsSound q
    → ((best_waiting_key q now ≡ none) × (q.waiting_order ≡ []))
      ⊎ ((k : Ed2kUploadSessionKey) × ((best_waiting_key q now ≡ some k)
            × ((s : Session) × Waits q.sessions k s)))
unfolding best_waiting_key
best_lem q now v = elim (Option-cases (head? (ranked q now))) [
  | inl e ↦ inl (rw (e, best_waiting_key), unranked q now v (head_none (ranked q now) e))
  | inr ((k, s), e) ↦ inr (
    k,
    (
      rw (e, best_waiting_key),
      (
        s,
        All-head (λ (w : Waiter). Waits q.sessions w.0 w.1) (ranked q now) (k, s) (ranked-All q now)
            e,
      ),
    ),
  )
]

pub worst_lem :
    (q : Queue) (now : ℕ)
    → IsSound q
    → ((worst_waiting_key q now ≡ none) × (q.waiting_order ≡ []))
      ⊎ ((k : Ed2kUploadSessionKey) × ((worst_waiting_key q now ≡ some k)
            × ((s : Session) × Waits q.sessions k s)))
unfolding worst_waiting_key
worst_lem q now v = elim (Option-cases (last? (ranked q now))) [
  | inl e ↦ inl (rw (e, worst_waiting_key), unranked q now v (last_none (ranked q now) e))
  | inr ((k, s), e) ↦ inr (
    k,
    (
      rw (e, worst_waiting_key),
      (
        s,
        All-last (λ (w : Waiter). Waits q.sessions w.0 w.1) (ranked q now) (k, s) (ranked-All q now)
            e,
      ),
    ),
  )
]

pub waits_at-true :
    (r : KeyRef) (s : Session)
    → has_key r s ≡ true
    → is_waiting s.phase ≡ true
    → waits_at r s ≡ true
waits_at-true r s p h = rw (p, h)

pub length-keep_if {ℓ} :
    {A : Type ℓ} (p : A → Bool) (xs : List A)
    → length (keep_if (λ x. not (p x)) xs) + count_if p xs ≡ length xs
length-keep_if p [] = refl
length-keep_if p (x ∷ xs) = ground (arith, length-keep_if p xs)

-- The key of a waiting session is listed, so taking it off makes the queue shorter.
pub shorter :
    (q : Queue) (k : Ed2kUploadSessionKey) (s : Session)
    → IsSound q
    → Waits q.sessions k s
    → length (keep_if (λ j. not (is_key (key_ref k) j)) q.waiting_order) < length q.waiting_order
shorter q k s v (e, h) =
    let r = key_ref k in
    let (p, _) = find_if-some (has_key r) q.sessions e in
    let w = count_if-remove_first (has_key r) (waits_at r) q.sessions e in
    let l = v.listed r in
    let n = length-keep_if (is_key r) q.waiting_order in
    let b = ap bool_to_ℕ (waits_at-true r s p h) in omega arith
