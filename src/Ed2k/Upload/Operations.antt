-- ===== src/Ed2k/Upload/Operations.antt =====
-- upload_queue.rs: `poll_session`, `note_request_parts` and `release_session` of a handle.
use p2p_overlord_agents.Base.{
  ℕ, ◌≡◌, refl, sym, ap, subst, inl, inr, Bool, false, not, ◌&&◌, some, List, [], ◌∷◌, arith,
  bool_to_ℕ, find_if, keep_if, remove_first, count_if, Bool-cases, Option-cases,
  count_if-remove_first, find_if-some, length-keep_if-le, if◌then◌else◌, count_if_mono,
}
use p2p_overlord_agents.Ed2k.Upload.{
  Queue, Session, KeyRef, Ed2kUploadSessionKey, Ed2kUploadSessionHandle, touch, start_upload,
  key_ref, is_key, has_key, is_waiting, drop_session, reap_expired_sessions, update_session,
  bound_session, poll_session, note_request_parts, release_session,
}
use p2p_overlord_agents.Ed2k.Upload.Invariant.{
  waits_at, waits_has, IsSound, one_key, drop_session-IsSound,
}
use p2p_overlord_agents.Ed2k.Upload.Begin.{
  update_session-IsSound, and_false, IsQueue, reap_expired_sessions-IsQueue,
  promote_waiters-IsQueue,
}

dropped_order :
    (r : KeyRef) (ks : List Ed2kUploadSessionKey)
    → count_if (is_key r) ks ≡ 0
    → keep_if (λ k. not (is_key r k)) ks ≡ ks
dropped_order r [] h = refl
dropped_order r (k ∷ ks) h = ground (arith, dropped_order r ks)

-- An active session has no place in the queue.
active_unlisted :
    (r : KeyRef) (q : Queue) (s : Session)
    → IsSound q
    → find_if (has_key r) q.sessions ≡ some s
    → is_waiting s.phase ≡ false
    → count_if (is_key r) q.waiting_order ≡ 0
active_unlisted r q s v e w =
    let rest = remove_first (has_key r) q.sessions in
    let t = count_if-remove_first (has_key r) (waits_at r) q.sessions e in
    let u = count_if-remove_first (has_key r) (has_key r) q.sessions e in
    let h = ap bool_to_ℕ (find_if-some (has_key r) q.sessions e).0 in
    let d = ap (λ y. bool_to_ℕ (has_key r s && y)) w in
    let f = and_false (has_key r s) in
    omega
      (arith, v.listed r, one_key r q v, count_if_mono (waits_at r) (has_key r) rest (waits_has r))

-- A handle is bound where its session is there under its connection.
bound_session_lem :
    (h : Ed2kUploadSessionHandle) (q : Queue) (s : Session)
    → bound_session h q ≡ some s
    → (find_if (has_key (key_ref h.key)) q.sessions ≡ some s) × (s.connection_id ≡ h.connection_id)
unfolding bound_session
bound_session_lem h q s e = ground arith

-- The queue that `release_session` reaps.
abbrev without : KeyRef → Session → Queue → Queue
without r s q = record q {
  sessions = remove_first (has_key r) q.sessions;
  waiting_order =
      if is_waiting s.phase
      then keep_if (λ k. not (is_key r k)) q.waiting_order
      else q.waiting_order;
}

-- What `release_session` takes out is what `drop_session` takes out.
released :
    (r : KeyRef) (q : Queue) (s : Session)
    → IsSound q
    → find_if (has_key r) q.sessions ≡ some s
    → IsSound (without r s q)
released r q s v e = elim (Bool-cases (is_waiting s.phase)) [
  | inl w ↦ rw w (unfold drop_session in drop_session-IsSound r q v)
  | inr w ↦
      let d = drop_session-IsSound r q v in
      rw w (
        subst
          (λ ks.
            IsSound
              (record q { sessions = remove_first (has_key r) q.sessions; waiting_order = ks }))
          (dropped_order r q.waiting_order (active_unlisted r q s v e w))
          (unfold drop_session in d))
]

-- A bound session that is touched, or starts to upload, stays where it is.
updated-IsQueue :
    (h : Ed2kUploadSessionHandle) (f : Session → Session) (q : Queue) (s : Session)
    → IsQueue q
    → bound_session h q ≡ some s
    → (f s).key ≡ s.key
    → is_waiting (f s).phase ≡ is_waiting s.phase
    → IsQueue (update_session (key_ref h.key) f q)
unfolding update_session
updated-IsQueue h f q s v e k w = record {
  sound = update_session-IsSound (key_ref h.key) f q s v.sound (bound_session_lem h q s e).0 k w;
  within_capacity = v.within_capacity;
}

-- A poll leaves a well-formed queue well formed, whether the handle is bound to a session or not.
pub poll_session-IsQueue :
    (h : Ed2kUploadSessionHandle) (now : ℕ) (refresh_activity : Bool) (q : Queue)
    → IsQueue q
    → IsQueue (poll_session h now refresh_activity q).0
unfolding poll_session
poll_session-IsQueue h now refresh q v =
    let r = reap_expired_sessions now q in
    let w = reap_expired_sessions-IsQueue now q v in
    elim (Option-cases (bound_session h r)) [
      | inl e ↦ rw (e, poll_session) w
      | inr (s, e) ↦ elim (Bool-cases refresh) [
        | inl b ↦ rw (e, b, poll_session) (updated-IsQueue h (touch now) r s w e refl refl)
        | inr b ↦ rw (e, b, poll_session) w
      ]
    ]

-- A request for parts leaves a well-formed queue well formed, whether the handle is bound to a session or not.
pub note_request_parts-IsQueue :
    (h : Ed2kUploadSessionHandle) (now : ℕ) (q : Queue)
    → IsQueue q
    → IsQueue (note_request_parts h now q).0
unfolding note_request_parts
note_request_parts-IsQueue h now q v =
    let r = reap_expired_sessions now q in
    let w = reap_expired_sessions-IsQueue now q v in
    elim (Option-cases (bound_session h r)) [
      | inl e ↦ rw (e, note_request_parts) w
      | inr (s, e) ↦ elim (Bool-cases (is_waiting s.phase)) [
        | inl b ↦ rw (e, b, note_request_parts) (updated-IsQueue h (touch now) r s w e refl refl)
        | inr b ↦
            rw (e, b, note_request_parts)
              (updated-IsQueue h (start_upload now) r s w e refl (sym b))
      ]
    ]

released-IsQueue :
    (r : KeyRef) (q : Queue) (s : Session)
    → IsQueue q
    → find_if (has_key r) q.sessions ≡ some s
    → IsQueue (without r s q)
released-IsQueue r q s v e = record {
  sound = released r q s v.sound e;
  within_capacity =
      ground (arith, v.within_capacity, length-keep_if-le (λ k. not (is_key r k)) q.waiting_order);
}

-- The release of a session leaves a well-formed queue well formed, whether the handle is bound to a session or not.
pub release_session-IsQueue :
    (h : Ed2kUploadSessionHandle) (now : ℕ) (q : Queue)
    → IsQueue q
    → IsQueue (release_session h now q)
unfolding release_session
release_session-IsQueue h now q v = elim (Option-cases (bound_session h q)) [
  | inl e ↦ rw (e, release_session) v
  | inr (s, e) ↦
      let left = without (key_ref h.key) s q in
      let d = released-IsQueue (key_ref h.key) q s v (bound_session_lem h q s e).0 in
      rw (e, release_session)
        (promote_waiters-IsQueue now (reap_expired_sessions now left)
          (reap_expired_sessions-IsQueue now left d))
]
