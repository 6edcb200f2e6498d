-- ===== src/Snoop/Cooldown.antt =====
-- snoop_queue.rs: the entry that a selection gives out was off its cooldown.
use p2p_overlord_agents.Kad.Packet.{SearchKeyReq, SearchSourceReq, SearchNotesReq}
use p2p_overlord_agents.Base.{
  some_equal, ap, sym, same, if◌then◌else◌, ◌≤◌, leb, ℕ, ◌-◌, ◌≡◌, refl, ap₂, subst, ◌∙◌, inl, inr,
  Bool, false, Option, some, List, [], ◌∷◌, ◌++◌, leb, All, keep_if, length, Bool-cases,
  Option-cases, not, arith,
}
use p2p_overlord_agents.Base.Map
use p2p_overlord_agents.Base.Map.{Map}
use p2p_overlord_agents.Snoop.Keys.{IsKeyed, Listed, lookup-Listed, lookup-mark_drained}
use p2p_overlord_agents.Base.Every.{All-keep_if}
use p2p_overlord_agents.Snoop.{
  Text, Text-discrete, SnoopQueue, SnoopEntry, SnoopFamily, keywords, sources, note_requests,
  family_max_queries_per_600s, seconds, family_drain_cooldown_secs, recent_drains,
  set_recent_drains, prune_recent_drains,
}
use p2p_overlord_agents.Snoop.Select.{
  ReplayCandidate, ScheduledSnoopRequest, keyword_request, source_request, notes_request,
  candidate_cmp, mark_drained, select_next_source_request, select_next_keyword_request,
  select_next_notes_request, feedback_of, is_cooling, candidate_of, candidates, choose, select_next,
  select_sorted, select_best_source_candidate,
}
use p2p_overlord_agents.Snoop.Pick.{Picks, select_sorted-Picks, select_best_source_candidate-Picks}
use p2p_overlord_agents.Snoop.Rest.{rested}

-- In the second map the entry under the key is drained now, and the others are as they were.
abbrev pub Drains : ℕ → Text → SnoopEntry → Map Text SnoopEntry → Map Text SnoopEntry → Type 0
Drains now key e m m' =
    (j : Text)
    → Map.lookup Text-discrete j m' ≡ (
        if same Text-discrete key j
        then some (record e { last_drained_at = some now })
        else Map.lookup Text-discrete j m)

module _ {R : Type 0} (f : SnoopFamily) (request : SnoopEntry → Option R) (now : ℕ)
    (q : SnoopQueue) where
  -- An entry of which the candidate is made, off its cooldown.
  pub record IsReady (es : Map Text SnoopEntry) (s : ScheduledSnoopRequest R) : Type 0 where
    pub entry : SnoopEntry
    pub is_listed : Listed entry es
    pub same_key : entry.logical_key ≡ s.logical_key
    pub same_request : request entry ≡ some s.request
    pub is_off_cooldown :
        is_cooling now
          (family_drain_cooldown_secs q.config f)
          entry
          (feedback_of q entry.logical_key)
        ≡ false
    pub is_rested :
        (d : ℕ)
        → entry.last_drained_at ≡ some d
        → d ≤ now - seconds (family_drain_cooldown_secs q.config f)

  candidates-IsReady :
      (all es : Map Text SnoopEntry)
      → ((e : SnoopEntry) → Listed e es → Listed e all)
      → All
          (λ (c : ReplayCandidate R). IsReady all c.scheduled)
          (candidates request now (family_drain_cooldown_secs q.config f) q es)
  unfolding candidates
  candidates-IsReady all [] sub = tt
  candidates-IsReady all ((key, e) ∷ es) sub =
      let rest = candidates-IsReady all es (λ x h. sub x (inr h)) in
      elim (Option-cases (request e)) [
        | inl n ↦ rw (n, candidates) rest
        | inr (r, n) ↦
            elim (Bool-cases (
              is_cooling now (family_drain_cooldown_secs q.config f) e
                (feedback_of q e.logical_key))) [
                  | inl b ↦ rw (n, b, candidates) rest
                  | inr b ↦
                      let ready : IsReady all
                          (candidate_of e r (feedback_of q e.logical_key)).scheduled =
                        unfold candidate_of in
                        record {
                          entry = e;
                          is_listed = sub e (inl refl);
                          same_key = refl;
                          same_request = n;
                          is_off_cooldown = b;
                          is_rested =
                              rested e now (family_drain_cooldown_secs q.config f)
                                (feedback_of q e.logical_key) b;
                        } in
                      rw (n, b, candidates) (ready, rest)
                ]
      ]

  choose-IsReady :
      (pick : List (ReplayCandidate R) → List (ReplayCandidate R) → Option (ReplayCandidate R))
      (c : ReplayCandidate R)
      → Picks pick
      → choose f request pick now q ≡ some c
      → IsReady q.entries c.scheduled
  unfolding choose
  choose-IsReady pick c picks e =
      let cs = candidates request now (family_drain_cooldown_secs q.config f) q q.entries in
      let is_recent : ReplayCandidate R → Bool =
        λ c. leb (now - seconds q.config.dedup_window_secs) c.last_seen in
      let P : ReplayCandidate R → Type 0 = λ c. IsReady q.entries c.scheduled in
      let all = candidates-IsReady q.entries q.entries (λ x h. h) in
      picks P (keep_if is_recent cs) (keep_if (λ c. not (is_recent c)) cs) c
        (All-keep_if P is_recent cs all) (All-keep_if P (λ c. not (is_recent c)) cs all) e

module _ {R : Type 0} (request : SnoopEntry → Option R) (now : ℕ)
    (s : ScheduledSnoopRequest R) where
  -- Pruning the drains changes neither the entries nor the feedback.
  before_prune :
      (f : SnoopFamily) (q : SnoopQueue)
      → IsReady f request now (prune_recent_drains now f q) (prune_recent_drains now f q).entries s
      → IsReady f request now q q.entries s
  unfolding prune_recent_drains set_recent_drains feedback_of
  before_prune keywords q v = record {
    entry = v.entry;
    is_listed = v.is_listed;
    same_key = v.same_key;
    same_request = v.same_request;
    is_off_cooldown = v.is_off_cooldown;
    is_rested = v.is_rested;
  }
  before_prune sources q v = record {
    entry = v.entry;
    is_listed = v.is_listed;
    same_key = v.same_key;
    same_request = v.same_request;
    is_off_cooldown = v.is_off_cooldown;
    is_rested = v.is_rested;
  }
  before_prune note_requests q v = record {
    entry = v.entry;
    is_listed = v.is_listed;
    same_key = v.same_key;
    same_request = v.same_request;
    is_off_cooldown = v.is_off_cooldown;
    is_rested = v.is_rested;
  }

  pruned_entries :
      (f : SnoopFamily) (q : SnoopQueue) → (prune_recent_drains now f q).entries ≡ q.entries
  unfolding prune_recent_drains set_recent_drains
  pruned_entries keywords q = refl
  pruned_entries sources q = refl
  pruned_entries note_requests q = refl

  set_entries :
      (f : SnoopFamily) (ds : List ℕ) (q : SnoopQueue)
      → (set_recent_drains f ds q).entries ≡ q.entries
  unfolding set_recent_drains
  set_entries keywords ds q = refl
  set_entries sources ds q = refl
  set_entries note_requests ds q = refl

  select_next-IsReady :
      (f : SnoopFamily)
      (pick : List (ReplayCandidate R) → List (ReplayCandidate R) → Option (ReplayCandidate R))
      (q : SnoopQueue)
      → Picks pick
      → (select_next f request pick now q).1 ≡ some s
      → IsReady f request now q q.entries s
        × ((select_next f request pick now q).0.entries ≡ mark_drained now s.logical_key q.entries)
  unfolding select_next
  select_next-IsReady f pick q0 picks e =
      let q = prune_recent_drains now f q0 in
      elim (Bool-cases
        (leb (family_max_queries_per_600s q.config f) (length (recent_drains f q)))) [
          | inl b ↦ absurd (ground (arith, rw (b, select_next) at e))
          | inr b ↦ elim (Option-cases (choose f request pick now q)) [
            | inl o ↦ absurd (ground (arith, rw (b, o, select_next) at e))
            | inr (c, o) ↦
                let same_s : c.scheduled ≡ s = some_equal (rw (b, o, select_next) at e) in
                let ready = choose-IsReady f request now q pick c picks o in
                let marked = record q {
                  entries = mark_drained now c.scheduled.logical_key q.entries;
                } in
                (
                  before_prune f q0 (subst (IsReady f request now q q.entries) same_s ready),
                  rw (b, o, select_next)
                      (set_entries f (recent_drains f q ++ (now ∷ [])) marked
                        ∙ ap₂
                            (λ (x : ScheduledSnoopRequest R) (es : Map Text SnoopEntry).
                              mark_drained now x.logical_key es)
                            same_s (pruned_entries f q0)),
                )
          ]
        ]

  -- The entry that is given out is found under the key, and drained.
  select_next-Drains :
      (f : SnoopFamily)
      (pick : List (ReplayCandidate R) → List (ReplayCandidate R) → Option (ReplayCandidate R))
      (q : SnoopQueue)
      → Picks pick
      → IsKeyed q.entries
      → (select_next f request pick now q).1 ≡ some s
      → (r : IsReady f request now q q.entries s) × (Map.lookup Text-discrete s.logical_key
            q.entries
          ≡ some r.entry)
        × Drains now s.logical_key r.entry q.entries (select_next f request pick now q).0.entries
  select_next-Drains f pick q picks h e =
      let (r, m) = select_next-IsReady f pick q picks e in
      let found =
        ap (λ k. Map.lookup Text-discrete k q.entries) (sym r.same_key)
        ∙ lookup-Listed r.entry q.entries h r.is_listed in
      (
        r,
        found,
        λ j.
            ap (Map.lookup Text-discrete j) m
            ∙ lookup-mark_drained now s.logical_key j r.entry q.entries found,
      )

-- Where the entries stand under their logical keys, a source request that is given out is that of the
-- entry under its key, which was off its cooldown: a drain of it, if any, lies a cooldown back at the
-- least. That entry is then marked as drained now, and no other entry changes.
pub select_next_source_request-IsReady :
    (now : ℕ) (q : SnoopQueue) (s : ScheduledSnoopRequest SearchSourceReq)
    → IsKeyed q.entries
    → (select_next_source_request now q).1 ≡ some s
    → (r : IsReady sources source_request now q q.entries s) × (Map.lookup Text-discrete
          s.logical_key q.entries
        ≡ some r.entry)
      × Drains now s.logical_key r.entry q.entries (select_next_source_request now q).0.entries
unfolding select_next_source_request
select_next_source_request-IsReady now q s h e =
    select_next-Drains source_request now s sources select_best_source_candidate q
      select_best_source_candidate-Picks h e

-- The same of a keyword request, whatever decodes its payload.
pub select_next_keyword_request-IsReady :
    (decode_hex : Text → Option (List ℕ)) (now : ℕ) (q : SnoopQueue)
    (s : ScheduledSnoopRequest SearchKeyReq)
    → IsKeyed q.entries
    → (select_next_keyword_request decode_hex now q).1 ≡ some s
    → (r : IsReady keywords (keyword_request decode_hex) now q q.entries s) × (Map.lookup
          Text-discrete s.logical_key q.entries
        ≡ some r.entry)
      × Drains now s.logical_key r.entry q.entries
          (select_next_keyword_request decode_hex now q).0.entries
unfolding select_next_keyword_request
select_next_keyword_request-IsReady decode_hex now q s h e =
    select_next-Drains (keyword_request decode_hex) now s keywords (select_sorted candidate_cmp) q
      (select_sorted-Picks candidate_cmp) h e

-- The same of a notes request.
pub select_next_notes_request-IsReady :
    (now : ℕ) (q : SnoopQueue) (s : ScheduledSnoopRequest SearchNotesReq)
    → IsKeyed q.entries
    → (select_next_notes_request now q).1 ≡ some s
    → (r : IsReady note_requests notes_request now q q.entries s) × (Map.lookup Text-discrete
          s.logical_key q.entries
        ≡ some r.entry)
      × Drains now s.logical_key r.entry q.entries (select_next_notes_request now q).0.entries
unfolding select_next_notes_request
select_next_notes_request-IsReady now q s h e =
    select_next-Drains notes_request now s note_requests (select_sorted candidate_cmp) q
      (select_sorted-Picks candidate_cmp) h e
