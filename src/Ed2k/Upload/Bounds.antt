-- ===== src/Ed2k/Upload/Bounds.antt =====
-- upload_queue.rs: what shortens the queue, and that its limits stay as configured.
use p2p_overlord_agents.Base.{
  ℕ, zero, suc, ◌≤◌, ◌≡◌, refl, ◌∙◌, inl, inr, not, List, [], ◌∷◌, arith, ltb, Option-cases,
  Bool-cases, length, keep_if, length-keep_if-le, count_if,
}
use p2p_overlord_agents.Ed2k.Upload.{
  Queue, Session, Ed2kUploadSessionKey, KeyRef, is_active, key_ref, is_key, drop_session,
  drop_sessions, promote_key, promote_loop, promote_waiters, best_waiting_key,
  reap_expired_sessions, is_expired, trim_loop, trim_waiting_queue, worst_waiting_key,
}

-- The same limits, and no more keys.
pub record Shortens (q q' : Queue) : Type 0 where
  pub same_config : q'.config ≡ q.config
  pub no_longer : length q'.waiting_order ≤ length q.waiting_order

abbrev pub same_queue : (q : Queue) → Shortens q q
same_queue q = record { same_config = refl; no_longer = omega arith }

abbrev pub then_shortens : {a b c : Queue} → Shortens a b → Shortens b c → Shortens a c
then_shortens u v = record {
  same_config = v.same_config ∙ u.same_config;
  no_longer = omega (arith, u.no_longer, v.no_longer);
}

drop_session-Shortens : (r : KeyRef) (q : Queue) → Shortens q (drop_session r q)
unfolding drop_session
drop_session-Shortens r q = record {
  same_config = refl;
  no_longer = length-keep_if-le (λ k. not (is_key r k)) q.waiting_order;
}

drop_sessions-Shortens : (ss : List Session) (q : Queue) → Shortens q (drop_sessions ss q)
unfolding drop_sessions
drop_sessions-Shortens [] q = same_queue q
drop_sessions-Shortens (s ∷ ss) q =
    then_shortens (drop_session-Shortens (key_ref s.key) q)
      (drop_sessions-Shortens ss (drop_session (key_ref s.key) q))

promote_key-Shortens :
    (now : ℕ) (k : Ed2kUploadSessionKey) (q : Queue) → Shortens q (promote_key now k q)
unfolding promote_key
promote_key-Shortens now k q = record {
  same_config = refl;
  no_longer = length-keep_if-le (λ j. not (is_key (key_ref k) j)) q.waiting_order;
}

promote_loop-Shortens : (fuel now : ℕ) (q : Queue) → Shortens q (promote_loop fuel now q)
unfolding promote_loop
promote_loop-Shortens zero now q = same_queue q
promote_loop-Shortens (suc fuel) now q =
    elim (Bool-cases (ltb (count_if is_active q.sessions) q.config.active_slots)) [
      | inr e ↦ rw (e, promote_loop) (same_queue q)
      | inl e ↦ elim (Option-cases (best_waiting_key q now)) [
        | inl b ↦ rw (e, b, promote_loop) (same_queue q)
        | inr (k, b) ↦
            rw (e, b, promote_loop)
              (then_shortens (promote_key-Shortens now k q)
                (promote_loop-Shortens fuel now (promote_key now k q)))
      ]
    ]

pub promote_waiters-Shortens : (now : ℕ) (q : Queue) → Shortens q (promote_waiters now q)
unfolding promote_waiters
promote_waiters-Shortens now q = promote_loop-Shortens (length q.waiting_order) now q

pub reap_expired_sessions-Shortens :
    (now : ℕ) (q : Queue) → Shortens q (reap_expired_sessions now q)
unfolding reap_expired_sessions
reap_expired_sessions-Shortens now q =
    let gone = keep_if (is_expired now q.config) q.sessions in
    then_shortens (drop_sessions-Shortens gone q)
      (promote_waiters-Shortens now (drop_sessions gone q))

trim_loop-Shortens : (fuel now : ℕ) (q : Queue) → Shortens q (trim_loop fuel now q)
unfolding trim_loop
trim_loop-Shortens zero now q = same_queue q
trim_loop-Shortens (suc fuel) now q =
    elim (Bool-cases (ltb q.config.waiting_capacity (length q.waiting_order))) [
      | inr e ↦ rw (e, trim_loop) (same_queue q)
      | inl e ↦ elim (Option-cases (worst_waiting_key q now)) [
        | inl b ↦ rw (e, b, trim_loop) (same_queue q)
        | inr (k, b) ↦
            rw (e, b, trim_loop)
              (then_shortens (drop_session-Shortens (key_ref k) q)
                (trim_loop-Shortens fuel now (drop_session (key_ref k) q)))
      ]
    ]

pub trim_waiting_queue-Shortens : (now : ℕ) (q : Queue) → Shortens q (trim_waiting_queue now q)
unfolding trim_waiting_queue
trim_waiting_queue-Shortens now q = trim_loop-Shortens (length q.waiting_order) now q
