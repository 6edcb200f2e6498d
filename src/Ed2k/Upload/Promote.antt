-- ===== src/Ed2k/Upload/Promote.antt =====
-- upload_queue.rs: `promote_waiters`, `trim_waiting_queue` and `reap_expired_sessions` keep a queue
-- well formed, leave no slot free while a peer waits, and keep the queue within its capacity.
use p2p_overlord_agents.Base.{
  ℕ, zero, suc, ◌≤◌, ◌<◌, ◌≡◌, refl, sym, ap, ◌∙◌, ◌⊎◌, inl, inr, Bool, false, List, [], ◌∷◌, arith,
  ltb, ltb→lt, bool_to_ℕ, keep_if, count_if, length, Bool-cases, find_if-some, count_if_mono,
  count_if-keep_if_none,
}
use p2p_overlord_agents.Ed2k.Upload.{
  Queue, Session, KeyRef, KeyRef-discrete, Ed2kUploadSessionKey, key_ref, is_key, has_key, has_peer,
  is_active, drop_session, grant, promote_key, promote_loop, promote_waiters, trim_loop,
  trim_waiting_queue, drop_sessions, reap_expired_sessions, is_expired,
}
use p2p_overlord_agents.Ed2k.Upload.Invariant.{
  waits_at, waits_has, waits_other, IsSound, one_key, count_other, drop_session-IsSound,
  count_if-replace_first,
}
use p2p_overlord_agents.Ed2k.Upload.Waiting.{best_lem, worst_lem, shorter, Waits, waits_at-true}

-- Granting a slot changes no key and makes a session active.
grant_waits : (now : ℕ) (r : KeyRef) (s : Session) → waits_at r (grant now s) ≡ false
unfolding grant
grant_waits now r s = ground arith

promote_key-IsSound :
    (now : ℕ) (q : Queue) (k : Ed2kUploadSessionKey) (s : Session)
    → IsSound q
    → Waits q.sessions k s
    → count_if is_active q.sessions < q.config.active_slots
    → IsSound (promote_key now k q)
unfolding promote_key grant
promote_key-IsSound now q k s v (e, h) free =
    let r = key_ref k in
    let (p, _) = find_if-some (has_key r) q.sessions e in
    let f = grant now in
    let change = λ (t : Session → Bool). count_if-replace_first (has_key r) f t q.sessions s e in
    record {
      one_peer = λ j. omega (arith, change (has_peer j), v.one_peer j);
      listed = λ j. elim (KeyRef-discrete r j) [
        | yes g ↦
            let b = ap bool_to_ℕ (waits_at-true r s p h) in
            let c = ap bool_to_ℕ (grant_waits now r s) in
            let one = one_key r q v in
            let m = count_if_mono (waits_at r) (has_key r) q.sessions (waits_has r) in
            let t = change (waits_at r) in
            rw (sym g) (count_if-keep_if_none (is_key r) q.waiting_order ∙ omega arith)
        | no n ↦
            let b = ap bool_to_ℕ (waits_other r j s n p) in
            let c = ap bool_to_ℕ (grant_waits now j s) in
            omega (arith, count_other r j q.waiting_order n, v.listed j, change (waits_at j))
      ];
      within_slots = omega (arith, change is_active, free);
    }

-- No slot is free while a key waits.
abbrev pub IsWorkConserving : Queue → Type 0
IsWorkConserving q =
    (q.waiting_order ≡ []) ⊎ (q.config.active_slots ≤ count_if is_active q.sessions)

promoted_length :
    (now : ℕ) (q : Queue) (k : Ed2kUploadSessionKey) (s : Session) (fuel : ℕ)
    → IsSound q
    → Waits q.sessions k s
    → length q.waiting_order ≤ suc fuel
    → length (promote_key now k q).waiting_order ≤ fuel
unfolding promote_key
promoted_length now q k s fuel v w n = omega (arith, shorter q k s v w)

dropped_length :
    (q : Queue) (k : Ed2kUploadSessionKey) (s : Session) (fuel : ℕ)
    → IsSound q
    → Waits q.sessions k s
    → length q.waiting_order ≤ suc fuel
    → length (drop_session (key_ref k) q).waiting_order ≤ fuel
unfolding drop_session
dropped_length q k s fuel v w n = omega (arith, shorter q k s v w)

ltb-false : (a b : ℕ) → ltb a b ≡ false → b ≤ a
ltb-false a b h = ground arith

nil_of_length {ℓ} : {A : Type ℓ} (xs : List A) → length xs ≤ 0 → xs ≡ []
nil_of_length [] h = refl
nil_of_length (x ∷ xs) h = absurd (omega (arith, h))

promote_loop_lem :
    (fuel now : ℕ) (q : Queue)
    → IsSound q
    → length q.waiting_order ≤ fuel
    → IsSound (promote_loop fuel now q) × IsWorkConserving (promote_loop fuel now q)
unfolding promote_loop
promote_loop_lem zero now q v n = (v, inl (nil_of_length q.waiting_order n))
promote_loop_lem (suc fuel) now q v n =
    elim (Bool-cases (ltb (count_if is_active q.sessions) q.config.active_slots)) [
      | inr e ↦ rw (e, promote_loop) (v, inr (ltb-false _ _ e))
      | inl e ↦ elim (best_lem q now v) [
        | inl (b, z) ↦ rw (e, b, promote_loop) (v, inl z)
        | inr (k, (b, (s, w))) ↦
            rw (e, b, promote_loop)
              (promote_loop_lem fuel now (promote_key now k q)
                (promote_key-IsSound now q k s v w (ltb→lt _ _ e))
                (promoted_length now q k s fuel v w n))
      ]
    ]

-- Promotion keeps a sound queue sound and ends with no key waiting or with no slot free.
pub promote_waiters_lem :
    (now : ℕ) (q : Queue)
    → IsSound q
    → IsSound (promote_waiters now q) × IsWorkConserving (promote_waiters now q)
unfolding promote_waiters
promote_waiters_lem now q v = promote_loop_lem (length q.waiting_order) now q v (omega arith)

drop_sessions-IsSound : (ss : List Session) (q : Queue) → IsSound q → IsSound (drop_sessions ss q)
unfolding drop_sessions
drop_sessions-IsSound [] q v = v
drop_sessions-IsSound (s ∷ ss) q v =
    drop_sessions-IsSound ss (drop_session (key_ref s.key) q)
      (drop_session-IsSound (key_ref s.key) q v)

-- Reaping expired sessions keeps a sound queue sound and leaves no slot free while a peer waits.
pub reap_expired_sessions_lem :
    (now : ℕ) (q : Queue)
    → IsSound q
    → IsSound (reap_expired_sessions now q) × IsWorkConserving (reap_expired_sessions now q)
unfolding reap_expired_sessions
reap_expired_sessions_lem now q v =
    let gone = keep_if (is_expired now q.config) q.sessions in
    promote_waiters_lem now (drop_sessions gone q) (drop_sessions-IsSound gone q v)

trim_loop_lem :
    (fuel now : ℕ) (q : Queue)
    → IsSound q
    → length q.waiting_order ≤ fuel
    → IsSound (trim_loop fuel now q)
      × (length (trim_loop fuel now q).waiting_order ≤ q.config.waiting_capacity)
unfolding trim_loop
trim_loop_lem zero now q v n = (v, omega (arith, n))
trim_loop_lem (suc fuel) now q v n =
    elim (Bool-cases (ltb q.config.waiting_capacity (length q.waiting_order))) [
      | inr e ↦ rw (e, trim_loop) (v, ltb-false _ _ e)
      | inl e ↦ elim (worst_lem q now v) [
        | inl (b, z) ↦ rw (e, b, trim_loop) (v, omega (arith, ap length z))
        | inr (k, (b, (s, w))) ↦
            rw (e, b, trim_loop)
              (trim_loop_lem fuel now (drop_session (key_ref k) q)
                (drop_session-IsSound (key_ref k) q v) (dropped_length q k s fuel v w n))
      ]
    ]

-- Trimming keeps a sound queue sound and cuts the waiting order to the capacity.
pub trim_waiting_queue_lem :
    (now : ℕ) (q : Queue)
    → IsSound q
    → IsSound (trim_waiting_queue now q)
      × (length (trim_waiting_queue now q).waiting_order ≤ q.config.waiting_capacity)
unfolding trim_waiting_queue
trim_waiting_queue_lem now q v = trim_loop_lem (length q.waiting_order) now q v (omega arith)
