-- ===== src/Ed2k/Upload/Invariant.antt =====
-- When an upload queue is well formed, and the lemmas on its sessions.
use p2p_overlord_agents.Base.{
  ◌+◌, ◌≤◌, ◌≡◌, refl, sym, ap, ◌∙◌, inl, inr, Bool, true, false, not, ◌&&◌, some, List, [], ◌∷◌,
  arith, same, same_iff, bool_to_ℕ, find_if, keep_if, remove_first, count_if, Bool-cases,
  Option-cases, count_if-remove_first, find_if-some, find_if-none, ◌≢◌, count_if-keep_if_none,
  remove_first-none, count_if_mono,
}
use p2p_overlord_agents.Ed2k.Upload.{
  Queue, Session, PeerRef, KeyRef, PeerRef-discrete, KeyRef-discrete, Ed2kUploadSessionKey, key_ref,
  peer_ref, is_key, has_key, has_peer, is_waiting, is_active, replace_first, drop_session,
}

-- A waiting session with a key.
abbrev pub waits_at : KeyRef → Session → Bool
waits_at r s = has_key r s && is_waiting s.phase

-- The part of the invariant that every step keeps: one session for a peer, the queue lists each
-- waiting session once and nothing else, and the slots are not overdrawn.
pub record IsSound (q : Queue) : Type 0 where
  pub one_peer : (r : PeerRef) → count_if (has_peer r) q.sessions ≤ 1
  pub listed : (r : KeyRef) → count_if (is_key r) q.waiting_order ≡ count_if (waits_at r) q.sessions
  pub within_slots : count_if is_active q.sessions ≤ q.config.active_slots

-- A session has the peer of its key.
pub key_peer : (r : KeyRef) (s : Session) → has_key r s ≡ true → has_peer r.peer s ≡ true
key_peer r s h =
    (same_iff PeerRef-discrete (peer_ref s.key.peer) r.peer).1
      (ap (λ (k : KeyRef). k.peer) ((same_iff KeyRef-discrete (key_ref s.key) r).0 h))

pub one_key : (r : KeyRef) (q : Queue) → IsSound q → count_if (has_key r) q.sessions ≤ 1
one_key r q v =
    omega (
      arith,
      v.one_peer r.peer,
      count_if_mono (has_key r) (has_peer r.peer) q.sessions (key_peer r),
    )

pub count_if-replace_first :
    (p : Session → Bool) (f : Session → Session) (t : Session → Bool) (ss : List Session)
    (s : Session)
    → find_if p ss ≡ some s
    → count_if t (replace_first p f ss) + bool_to_ℕ (t s) ≡ count_if t ss + bool_to_ℕ (t (f s))
unfolding replace_first
count_if-replace_first p f t [] s e = ground arith
count_if-replace_first p f t (x ∷ ss) s e = ground (arith, count_if-replace_first p f t ss s)

-- Of two keys that differ, an entry has one at most.
has_one :
    (r j : KeyRef) (x : KeyRef)
    → r ≢ j
    → same KeyRef-discrete x r ≡ true
    → same KeyRef-discrete x j ≡ false
has_one r j x n h = elim (Bool-cases (same KeyRef-discrete x j)) [
  | inl e ↦
      absurd (n (sym ((same_iff KeyRef-discrete x r).0 h) ∙ (same_iff KeyRef-discrete x j).0 e))
  | inr e ↦ e
]

-- Taking a key off leaves the other keys.
pub count_other :
    (r j : KeyRef) (ks : List Ed2kUploadSessionKey)
    → r ≢ j
    → count_if (is_key j) (keep_if (λ k. not (is_key r k)) ks) ≡ count_if (is_key j) ks
count_other r j [] n = refl
count_other r j (k ∷ ks) n = elim (Bool-cases (is_key r k)) [
  | inl e ↦
      let h = ap bool_to_ℕ (has_one r j (key_ref k) n e) in
      rw e (omega (arith, h, count_other r j ks n))
  | inr e ↦ rw (e, count_other r j ks n)
]

-- The waiting sessions with the key `r` are among those with it.
pub waits_has : (r : KeyRef) (s : Session) → waits_at r s ≡ true → has_key r s ≡ true
waits_has r s h = ground arith

pub waits_other : (r j : KeyRef) (s : Session) → r ≢ j → has_key r s ≡ true → waits_at j s ≡ false
waits_other r j s n h = rw (has_one r j (key_ref s.key) n h)

-- Where no session has the key, the queue does not list it.
not_listed :
    (r : KeyRef) (q : Queue)
    → IsSound q
    → count_if (has_key r) q.sessions ≡ 0
    → count_if (is_key r) q.waiting_order ≡ 0
not_listed r q v h =
    omega (arith, v.listed r, count_if_mono (waits_at r) (has_key r) q.sessions (waits_has r))

dropped_listed :
    (r j : KeyRef) (q : Queue) (s : Session)
    → IsSound q
    → find_if (has_key r) q.sessions ≡ some s
    → r ≢ j
    → count_if (is_key j) (keep_if (λ k. not (is_key r k)) q.waiting_order)
      ≡ count_if (waits_at j) (remove_first (has_key r) q.sessions)
dropped_listed r j q s v e n =
    let h = waits_other r j s n (find_if-some (has_key r) q.sessions e).0 in
    let t = count_if-remove_first (has_key r) (waits_at j) q.sessions e in
    omega (arith, count_other r j q.waiting_order n, v.listed j, t, ap bool_to_ℕ h)

dropped_same :
    (r : KeyRef) (q : Queue) (s : Session)
    → IsSound q
    → find_if (has_key r) q.sessions ≡ some s
    → count_if (waits_at r) (remove_first (has_key r) q.sessions) ≡ 0
dropped_same r q s v e =
    let rest = remove_first (has_key r) q.sessions in
    let t = count_if-remove_first (has_key r) (has_key r) q.sessions e in
    let h = ap bool_to_ℕ (find_if-some (has_key r) q.sessions e).0 in
    omega (arith, t, h, one_key r q v, count_if_mono (waits_at r) (has_key r) rest (waits_has r))

-- Taking out one session takes its key off, whatever it is.
pub drop_session-IsSound : (r : KeyRef) (q : Queue) → IsSound q → IsSound (drop_session r q)
unfolding drop_session
drop_session-IsSound r q v = elim (Option-cases (find_if (has_key r) q.sessions)) [
  | inl e ↦
      let zero_r = not_listed r q v (find_if-none (has_key r) q.sessions e) in
      let keep = remove_first-none (has_key r) q.sessions e in
      record {
        one_peer = λ p. rw keep (v.one_peer p);
        listed = λ j. elim (KeyRef-discrete r j) [
          | yes h ↦
              rw (keep, sym h, sym (v.listed r), zero_r)
                (count_if-keep_if_none (is_key r) q.waiting_order)
          | no n ↦ rw (keep, count_other r j q.waiting_order n) (v.listed j)
        ];
        within_slots = rw keep v.within_slots;
      }
  | inr (s, e) ↦ record {
    one_peer = λ p.
        omega (arith, v.one_peer p, count_if-remove_first (has_key r) (has_peer p) q.sessions e);
    listed = λ j. elim (KeyRef-discrete r j) [
      | yes h ↦
          rw (sym h)
            (count_if-keep_if_none (is_key r) q.waiting_order ∙ sym (dropped_same r q s v e))
      | no n ↦ dropped_listed r j q s v e n
    ];
    within_slots =
        omega (arith, v.within_slots, count_if-remove_first (has_key r) is_active q.sessions e);
  }
]
