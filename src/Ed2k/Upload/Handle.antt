-- ===== src/Ed2k/Upload/Handle.antt =====
-- upload_queue.rs: the handle of an older connection. When a peer comes back under the same key, only
-- the new connection is bound to the session.
use p2p_overlord_agents.Base.{
  ℕ, zero, suc, ◌+◌, ◌≤◌, ◌≡◌, ◌≢◌, refl, ap, inl, inr, Bool, not, ◌&&◌, none, some, List, [], ◌∷◌,
  arith, same, ltb, ◌==◌, bool_to_ℕ, find_if, keep_if, remove_first, count_if, length, Bool-cases,
  Option-cases, count_if-remove_first, find_if-some, find_if-none, count_if_mono,
}
use p2p_overlord_agents.Ed2k.Upload.{
  Queue, Session, KeyRef, KeyRef-discrete, Ed2kUploadSessionKey, Ed2kUploadSessionHandle, stale,
  key_ref, peer_ref, has_key, has_peer, is_active, is_expired, replace_first, drop_session,
  drop_sessions, grant, promote_key, promote_loop, promote_waiters, best_waiting_key,
  worst_waiting_key, trim_loop, trim_waiting_queue, reap_expired_sessions, enter, rebind,
  begin_session, bound_session, poll_session, note_request_parts, release_session,
}
use p2p_overlord_agents.Ed2k.Upload.Invariant.{IsSound, key_peer}
use p2p_overlord_agents.Ed2k.Upload.Begin.{
  IsQueue, reap_expired_sessions-IsQueue, rebind-rebound, peer_gone, no_other,
}

-- A session with the key `r` that is bound to another connection than `c`.
abbrev strays : KeyRef → ℕ → Session → Bool
strays r c s = has_key r s && not (s.connection_id == c)

abbrev pub stray_count : KeyRef → ℕ → Queue → ℕ
stray_count r c q = count_if (strays r c) q.sessions

count_if-remove_first-le :
    (p t : Session → Bool) (ss : List Session) → count_if t (remove_first p ss) ≤ count_if t ss
count_if-remove_first-le p t [] = omega arith
count_if-remove_first-le p t (s ∷ ss) = ground (arith, count_if-remove_first-le p t ss)

count_if-grant :
    (r j : KeyRef) (c now : ℕ) (ss : List Session)
    → count_if (strays r c) (replace_first (has_key j) (grant now) ss) ≡ count_if (strays r c) ss
unfolding replace_first grant
count_if-grant r j c now [] = refl
count_if-grant r j c now (s ∷ ss) = elim (Bool-cases (has_key j s)) [
  | inl e ↦ rw (e, replace_first) refl
  | inr e ↦
      rw (e, replace_first) (ap (λ n. bool_to_ℕ (strays r c s) + n) (count_if-grant r j c now ss))
]

module _ (r : KeyRef) (c : ℕ) where
  drop_strays : (j : KeyRef) (q : Queue) → stray_count r c (drop_session j q) ≤ stray_count r c q
  unfolding drop_session
  drop_strays j q = count_if-remove_first-le (has_key j) (strays r c) q.sessions

  drops_strays :
      (ss : List Session) (q : Queue) → stray_count r c (drop_sessions ss q) ≤ stray_count r c q
  unfolding drop_sessions
  drops_strays [] q = omega arith
  drops_strays (s ∷ ss) q =
      let q' = drop_session (key_ref s.key) q in
      omega (arith, drops_strays ss q', drop_strays (key_ref s.key) q)

  promote_strays :
      (fuel now : ℕ) (q : Queue) → stray_count r c (promote_loop fuel now q) ≤ stray_count r c q
  unfolding promote_loop promote_key
  promote_strays zero now q = omega arith
  promote_strays (suc fuel) now q =
      elim (Bool-cases (ltb (count_if is_active q.sessions) q.config.active_slots)) [
        | inr e ↦ rw (e, promote_loop) (omega arith)
        | inl e ↦ elim (Option-cases (best_waiting_key q now)) [
          | inl b ↦ rw (e, b, promote_loop) (omega arith)
          | inr (k, b) ↦
              let step = promote_strays fuel now (promote_key now k q) in
              let same_count = count_if-grant r (key_ref k) c now q.sessions in
              rw (e, b, promote_loop) (omega (arith, step, same_count))
        ]
      ]

  trim_strays :
      (fuel now : ℕ) (q : Queue) → stray_count r c (trim_loop fuel now q) ≤ stray_count r c q
  unfolding trim_loop
  trim_strays zero now q = omega arith
  trim_strays (suc fuel) now q =
      elim (Bool-cases (ltb q.config.waiting_capacity (length q.waiting_order))) [
        | inr e ↦ rw (e, trim_loop) (omega arith)
        | inl e ↦ elim (Option-cases (worst_waiting_key q now)) [
          | inl b ↦ rw (e, b, trim_loop) (omega arith)
          | inr (k, b) ↦
              let q' = drop_session (key_ref k) q in
              rw (e, b, trim_loop)
                (omega (arith, trim_strays fuel now q', drop_strays (key_ref k) q))
        ]
      ]

  reap_strays :
      (now : ℕ) (q : Queue) → stray_count r c (reap_expired_sessions now q) ≤ stray_count r c q
  unfolding reap_expired_sessions promote_waiters
  reap_strays now q =
      let gone = keep_if (is_expired now q.config) q.sessions in
      let q' = drop_sessions gone q in
      omega (arith, drops_strays gone q, promote_strays (length q'.waiting_order) now q')

-- Without strays, a handle of another connection is bound to nothing.
unbound :
    (h : Ed2kUploadSessionHandle) (c : ℕ) (q : Queue)
    → h.connection_id ≢ c
    → stray_count (key_ref h.key) c q ≡ 0
    → bound_session h q ≡ none
unfolding bound_session
unbound h c q n z =
    let r = key_ref h.key in
    elim (Option-cases (find_if (has_key r) q.sessions)) [
      | inl e ↦ rw (e, bound_session)
      | inr (s, e) ↦
          let (p, _) = find_if-some (has_key r) q.sessions e in
          let t = count_if-remove_first (has_key r) (strays r c) q.sessions e in
          elim (Bool-cases (s.connection_id == c)) [
            | inl b ↦ elim (Bool-cases (s.connection_id == h.connection_id)) [
              | inl d ↦ absurd (n (ground (arith, b, d)))
              | inr d ↦ rw (e, d, bound_session)
            ]
            | inr b ↦
                let w : bool_to_ℕ (strays r c s) ≡ 1 = rw (p, b) refl in
                absurd (omega (arith, t, w, z))
          ]
    ]

strays_peer :
    (key : Ed2kUploadSessionKey) (c : ℕ) (ss : List Session)
    → count_if (has_peer (peer_ref key.peer)) ss ≡ 0
    → count_if (strays (key_ref key) c) ss ≡ 0
strays_peer key c ss z =
    let p = peer_ref key.peer in
    let m =
      count_if_mono (strays (key_ref key) c) (has_peer p) ss
        (λ s h. key_peer (key_ref key) s (ground (arith, h))) in
    omega (arith, m, z)

not_other : (b : Bool) (c : ℕ) → bool_to_ℕ (b && not (c == c)) ≡ 0
not_other b c = ground arith

rebind_strays :
    (key : Ed2kUploadSessionKey) (c now : ℕ) (s : Session) (q : Queue)
    → IsSound q
    → find_if (has_peer (peer_ref key.peer)) q.sessions ≡ some s
    → stray_count (key_ref key) c (rebind key c now s q) ≡ 0
rebind_strays key c now s q v e =
    let rest =
      strays_peer key c (remove_first (has_key (key_ref s.key)) q.sessions)
        (peer_gone (peer_ref key.peer) q s v e) in
    rw (rebind-rebound key c now s q v e)
      (omega (arith, rest, not_other (has_key (key_ref key) (record s { key = key })) c))

enter_strays :
    (key : Ed2kUploadSessionKey) (c now : ℕ) (q : Queue)
    → find_if (has_peer (peer_ref key.peer)) q.sessions ≡ none
    → stray_count (key_ref key) c (enter key c now q) ≡ 0
unfolding enter
enter_strays key c now q e =
    let z = find_if-none (has_peer (peer_ref key.peer)) q.sessions e in
    let rest = strays_peer key c q.sessions z in
    rw (no_other key q.sessions z)
      (omega (arith, rest, not_other (same KeyRef-discrete (key_ref key) (key_ref key)) c))

begin_strays :
    (key : Ed2kUploadSessionKey) (c now : ℕ) (q : Queue)
    → IsQueue q
    → stray_count (key_ref key) c (begin_session key c now q).0 ≡ 0
unfolding begin_session trim_waiting_queue
begin_strays key c now q v =
    let r = reap_expired_sessions now q in
    let w = reap_expired_sessions-IsQueue now q v in
    elim (Option-cases (find_if (has_peer (peer_ref key.peer)) r.sessions)) [
      | inl e ↦
          let q' = enter key c now r in
          let m = trim_strays (key_ref key) c (length q'.waiting_order) now q' in
          let z = enter_strays key c now r e in rw (e, begin_session) (omega (arith, m, z))
      | inr (s, e) ↦ rw (e, begin_session) (rebind_strays key c now s r w.sound e)
    ]

-- Once a peer came back under a key with another connection, an older handle of that key is told that
-- it is stale when it polls and when it asks for parts, and its release changes nothing.
pub superseded_handle :
    (h : Ed2kUploadSessionHandle) (c now later : ℕ) (refresh : Bool) (q : Queue)
    → IsQueue q
    → h.connection_id ≢ c
    → ((poll_session h later refresh (begin_session h.key c now q).0).1 ≡ stale)
      × ((note_request_parts h later (begin_session h.key c now q).0).1 ≡ stale)
      × (release_session h later (begin_session h.key c now q).0 ≡ (begin_session h.key c now q).0)
unfolding poll_session note_request_parts release_session
superseded_handle h c now later refresh q v n =
    let q' = (begin_session h.key c now q).0 in
    let z = begin_strays h.key c now q v in
    let m = reap_strays (key_ref h.key) c later q' in
    let u = unbound h c q' n z in
    let w = unbound h c (reap_expired_sessions later q') n (omega (arith, m, z)) in
    (rw (w, poll_session), rw (w, note_request_parts), rw (u, release_session))
