-- ===== src/Snoop/Pick.antt =====
-- snoop_queue.rs: a choice among candidates gives one of them.
use p2p_overlord_agents.Base.{
  Ordering, ◌≡◌, ◌∙◌, inl, inr, Bool, Option, some, List, All, keep_if, Bool-cases, Option-cases,
  head?, any, ◌||◌,
}
use p2p_overlord_agents.Base.Every.{All-head, All-sort_by, All-keep_if}
use p2p_overlord_agents.Base.Sort.{sort_by}
use p2p_overlord_agents.Kad.NodeId.{is_less}
use p2p_overlord_agents.Snoop.Select.{
  ReplayCandidate, select_sorted, select_best_source_candidate, source_candidate_is_high_quality,
  source_candidate_cmp,
}

-- A choice that gives one of the candidates.
abbrev pub Picks :
    {R : Type 0}
    → (List (ReplayCandidate R) → List (ReplayCandidate R) → Option (ReplayCandidate R))
    → Type 1
Picks {R} pick =
    (P : ReplayCandidate R → Type 0) (rs ss : List (ReplayCandidate R)) (c : ReplayCandidate R)
    → All P rs
    → All P ss
    → pick rs ss ≡ some c
    → P c

pub select_sorted-Picks :
    {R : Type 0} (cmp : ReplayCandidate R → ReplayCandidate R → Ordering)
    → Picks (select_sorted cmp)
unfolding select_sorted
select_sorted-Picks {R} cmp P rs ss c ps qs e =
    let lt : ReplayCandidate R → ReplayCandidate R → Bool = λ l r. is_less (cmp l r) in
    elim (Option-cases (head? (sort_by lt rs))) [
      | inl n ↦ All-head P (sort_by lt ss) c (All-sort_by P lt ss qs) (rw (n, select_sorted) at e)
      | inr (x, n) ↦
          All-head P (sort_by lt rs) c (All-sort_by P lt rs ps) (n ∙ rw (n, select_sorted) at e)
    ]

pub select_best_source_candidate-Picks : {R : Type 0} → Picks (select_best_source_candidate {R = R})
unfolding select_best_source_candidate
select_best_source_candidate-Picks {R} P rs ss c ps qs e =
    let good : ReplayCandidate R → Bool = source_candidate_is_high_quality in
    let kept = λ (xs : List (ReplayCandidate R)) (h : All P xs). All-keep_if P good xs h in
    elim (Bool-cases (any good rs || any good ss)) [
      | inl b ↦
          select_sorted-Picks source_candidate_cmp P (keep_if good rs) (keep_if good ss) c
            (kept rs ps) (kept ss qs) (rw (b, select_best_source_candidate) at e)
      | inr b ↦
          select_sorted-Picks source_candidate_cmp P rs ss c ps qs
            (rw (b, select_best_source_candidate) at e)
    ]
