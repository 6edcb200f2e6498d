-- ===== src/Snoop/Budget.antt =====
-- snoop_queue.rs: how many requests of a family the three selections give out in ten minutes.
use p2p_overlord_agents.Base.{
  ℕ, ◌+◌, ◌-◌, ◌≤◌, ◌<◌, ◌≡◌, refl, ap, ◌∙◌, inl, inr, Bool, true, false, Option, none, some, List,
  [], ◌∷◌, ◌++◌, leb, arith, All, bool_to_ℕ, count_if, length, Bool-cases, Option-cases,
  count_if-snoc, count_if-le-length,
}
use p2p_overlord_agents.Snoop.{
  SnoopQueue, SnoopQueueConfig, SnoopEntry, SnoopFamily, keywords, sources, note_requests,
  family_max_queries_per_600s, seconds, recent_drains, set_recent_drains, pop_old,
  prune_recent_drains,
}
use p2p_overlord_agents.Snoop.Select.{
  ReplayCandidate, ScheduledSnoopRequest, choose, mark_drained, select_next,
}

-- The drains of a family from the instant `t` on.
abbrev pub drains_since : ℕ → SnoopFamily → SnoopQueue → ℕ
drains_since t f q = count_if (leb t) (recent_drains f q)

count_if-pop_old :
    (t cutoff : ℕ) (ds : List ℕ)
    → cutoff ≤ t
    → count_if (leb t) (pop_old cutoff ds) ≡ count_if (leb t) ds
unfolding pop_old
count_if-pop_old t cutoff [] h = refl
count_if-pop_old t cutoff (d ∷ ds) h = ground (arith, count_if-pop_old t cutoff ds h)

recent_drains-set_recent_drains :
    (f : SnoopFamily) (ds : List ℕ) (q : SnoopQueue)
    → recent_drains f (set_recent_drains f ds q) ≡ ds
unfolding recent_drains set_recent_drains
recent_drains-set_recent_drains keywords ds q = refl
recent_drains-set_recent_drains sources ds q = refl
recent_drains-set_recent_drains note_requests ds q = refl

set_config :
    (f : SnoopFamily) (ds : List ℕ) (q : SnoopQueue) → (set_recent_drains f ds q).config ≡ q.config
unfolding set_recent_drains
set_config keywords ds q = refl
set_config sources ds q = refl
set_config note_requests ds q = refl

-- Pruning forgets no drain of the last ten minutes.
drains_since-prune :
    (t now : ℕ) (f : SnoopFamily) (q : SnoopQueue)
    → now ≤ t + seconds 600
    → drains_since t f (prune_recent_drains now f q) ≡ drains_since t f q
unfolding prune_recent_drains
drains_since-prune t now f q h =
    rw (recent_drains-set_recent_drains f (pop_old (now - seconds 600) (recent_drains f q)) q)
      (count_if-pop_old t (now - seconds 600) (recent_drains f q) (omega (arith, h)))

prune_config :
    (now : ℕ) (f : SnoopFamily) (q : SnoopQueue) → (prune_recent_drains now f q).config ≡ q.config
unfolding prune_recent_drains
prune_config now f q = set_config f (pop_old (now - seconds 600) (recent_drains f q)) q

-- A drain that is pushed at `now` counts among those since an earlier instant.
drains_since-push :
    (t now : ℕ) (f : SnoopFamily) (ds : List ℕ) (q : SnoopQueue)
    → t ≤ now
    → drains_since t f (set_recent_drains f (ds ++ (now ∷ [])) q) ≡ count_if (leb t) ds + 1
drains_since-push t now f ds q h =
    let b : bool_to_ℕ (leb t now) ≡ 1 = ground (arith, h) in
    rw (recent_drains-set_recent_drains f (ds ++ (now ∷ [])) q)
      (omega (arith, count_if-snoc (leb t) ds now, b))

-- Below the guard, the drains since `t` are fewer than the budget.
drains_since-guard : (t m : ℕ) (ds : List ℕ) → leb m (length ds) ≡ false → count_if (leb t) ds < m
drains_since-guard t m ds e = let n = count_if-le-length (leb t) ds in ground (arith, e)

module _ {R : Type 0} (f : SnoopFamily) (request : SnoopEntry → Option R)
    (pick : List (ReplayCandidate R) → List (ReplayCandidate R) → Option (ReplayCandidate R)) where
  abbrev is_given : Option (ScheduledSnoopRequest R) → Bool
  is_given none = false
  is_given (some s) = true

  -- The selections at the given instants, and how many gave a request.
  unfoldable pub given : List ℕ → SnoopQueue → ℕ
  given [] q = 0
  given (now ∷ times) q =
      let (q', r) = select_next f request pick now q in bool_to_ℕ (is_given r) + given times q'

  -- A selection gives no request and the drains stay, or it gives one, below the budget, and counts.
  pub data Step (t : ℕ) (q q' : SnoopQueue) (r : Option (ScheduledSnoopRequest R)) : Type 0 where
    idle :
        is_given r ≡ false
        → drains_since t f q' ≡ drains_since t f q
        → q'.config ≡ q.config
        → Step t q q' r
    gives :
        is_given r ≡ true
        → drains_since t f q' ≡ drains_since t f q + 1
        → drains_since t f q < family_max_queries_per_600s q.config f
        → q'.config ≡ q.config
        → Step t q q' r

  select_next-Step :
      (t now : ℕ) (q : SnoopQueue)
      → t ≤ now
      → now ≤ t + seconds 600
      → Step t q (select_next f request pick now q).0 (select_next f request pick now q).1
  unfolding select_next
  select_next-Step t now q0 h g =
      let q = prune_recent_drains now f q0 in
      let k = drains_since-prune t now f q0 g in
      let c = prune_config now f q0 in
      elim (Bool-cases
        (leb (family_max_queries_per_600s q.config f) (length (recent_drains f q)))) [
          | inl e ↦ rw (e, select_next) (idle refl k c)
          | inr e ↦ elim (Option-cases (choose f request pick now q)) [
            | inl o ↦ rw (e, o, select_next) (idle refl k c)
            | inr (s, o) ↦
                let marked = record q {
                  entries = mark_drained now s.scheduled.logical_key q.entries;
                } in
                let ds = recent_drains f q in
                let p = drains_since-push t now f ds marked h in
                let m = ap (λ (x : SnoopQueueConfig). family_max_queries_per_600s x f) c in
                let u = drains_since-guard t (family_max_queries_per_600s q.config f) ds e in
                rw (e, o, select_next)
                  (gives refl (omega (arith, p, k)) (omega (arith, u, k, m))
                    (set_config f (ds ++ (now ∷ [])) marked ∙ c))
          ]
        ]

  -- In any ten minutes that begin at `t`, at most as many selections of a family give a request as
  -- its budget leaves after the drains since `t`, whatever the instants, the entries and the choice.
  pub given-budget :
      (t : ℕ) (times : List ℕ) (q : SnoopQueue)
      → All (λ now. (t ≤ now) × (now ≤ t + seconds 600)) times
      → given times q ≤ family_max_queries_per_600s q.config f - drains_since t f q
  unfolding given
  given-budget t [] q hs = omega arith
  given-budget t (now ∷ times) q ((h, g), hs) =
      let q' = (select_next f request pick now q).0 in
      let rest = given-budget t times q' hs in
      elim (select_next-Step t now q h g) [
        | idle b k c ↦
            let m = ap (λ (x : SnoopQueueConfig). family_max_queries_per_600s x f) c in
            let i = ap bool_to_ℕ b in omega arith
        | gives b k u c ↦
            let m = ap (λ (x : SnoopQueueConfig). family_max_queries_per_600s x f) c in
            let i = ap bool_to_ℕ b in omega arith
      ]
