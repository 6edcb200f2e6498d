-- ===== src/Ed2k/Upload/Begin.antt =====
-- upload_queue.rs: `begin_session`, for a peer that comes back and for a new one.
use p2p_overlord_agents.Base.{
  ℕ, ◌+◌, ◌≤◌, ◌≡◌, refl, ap, ap₂, subst, inl, inr, Bool, true, false, not, ◌&&◌, none, some, List,
  [], ◌∷◌, arith, same, same_iff, same_refl, ltb, ltb→lt, bool_to_ℕ, find_if, remove_first,
  count_if, length, Bool-cases, Option-cases, count_if-remove_first, find_if-some, find_if-none,
  find_if_zero, remove_first-none, if◌then◌else◌, count_if_mono, count_if-snoc,
}
use p2p_overlord_agents.Ed2k.Upload.{
  Queue, Session, Ed2kUploadQueueConfig, PeerRef, PeerRef-discrete, KeyRef, KeyRef-discrete,
  Ed2kUploadSessionKey, peer_ref, key_ref, is_key, has_key, has_peer, is_waiting, is_active,
  reap_expired_sessions, promote_waiters, replace_waiting_key, rebind, enter, begin_session,
  update_session, trim_waiting_queue,
}
use p2p_overlord_agents.Ed2k.Upload.Invariant.{waits_at, IsSound, key_peer, count_if-replace_first}
use p2p_overlord_agents.Ed2k.Upload.Waiting.{waits_at-true}
use p2p_overlord_agents.Ed2k.Upload.Promote.{
  promote_waiters_lem, reap_expired_sessions_lem, trim_waiting_queue_lem,
}
use p2p_overlord_agents.Ed2k.Upload.Bounds.{
  Shortens, trim_waiting_queue-Shortens, reap_expired_sessions-Shortens, promote_waiters-Shortens,
}

-- A change of a session that keeps its key and whether it waits.
pub update_session-IsSound :
    (r : KeyRef) (f : Session → Session) (q : Queue) (s : Session)
    → IsSound q
    → find_if (has_key r) q.sessions ≡ some s
    → (f s).key ≡ s.key
    → is_waiting (f s).phase ≡ is_waiting s.phase
    → IsSound (update_session r f q)
unfolding update_session
update_session-IsSound r f q s v e k w =
    let change = λ (t : Session → Bool). count_if-replace_first (has_key r) f t q.sessions s e in
    record {
      one_peer = λ j.
          let b =
            ap (λ (x : Ed2kUploadSessionKey). bool_to_ℕ (same PeerRef-discrete (peer_ref x.peer) j))
              k in
          omega (arith, change (has_peer j), v.one_peer j);
      listed = λ j.
          let b = ap₂ (λ (x : Ed2kUploadSessionKey) (y : Bool). bool_to_ℕ (is_key j x && y)) k w in
          omega (arith, change (waits_at j), v.listed j);
      within_slots =
          let b = ap (λ y. bool_to_ℕ (not y)) w in omega (arith, change is_active, v.within_slots);
    }

-- A narrower test finds the item that a wider one finds, where it passes.
find_if_narrow {ℓ} :
    {A : Type ℓ} (p q : A → Bool) (xs : List A) (a : A)
    → ((x : A) → p x ≡ true → q x ≡ true)
    → find_if q xs ≡ some a
    → p a ≡ true
    → find_if p xs ≡ some a
find_if_narrow p q [] a h e g = ground arith
find_if_narrow p q (x ∷ xs) a h e g =
    ground (arith, h x, find_if_narrow p q xs a h, ap p {x = x} {y = a})

-- `rebind` puts the new key in the place of the old one.
count_if-replace_waiting_key :
    (r : KeyRef) (new : Ed2kUploadSessionKey) (j : KeyRef) (ks : List Ed2kUploadSessionKey)
    → 1 ≤ count_if (is_key r) ks
    → count_if (is_key j) (replace_waiting_key r new ks) + bool_to_ℕ (same KeyRef-discrete r j)
      ≡ count_if (is_key j) ks + bool_to_ℕ (is_key j new)
unfolding replace_waiting_key
count_if-replace_waiting_key r new j [] h = absurd (omega (arith, h))
count_if-replace_waiting_key r new j (k ∷ ks) h = elim (Bool-cases (is_key r k)) [
  | inl e ↦
      let b =
        ap (λ (x : KeyRef). bool_to_ℕ (same KeyRef-discrete x j))
          ((same_iff KeyRef-discrete (key_ref k) r).0 e) in
      rw (e, replace_waiting_key) (omega arith)
  | inr e ↦
      let b = ap bool_to_ℕ e in
      rw (e, replace_waiting_key)
        (omega (arith, count_if-replace_waiting_key r new j ks (omega (arith, h, b))))
]

length-replace_waiting_key :
    (r : KeyRef) (new : Ed2kUploadSessionKey) (ks : List Ed2kUploadSessionKey)
    → length (replace_waiting_key r new ks) ≡ length ks
unfolding replace_waiting_key
length-replace_waiting_key r new [] = refl
length-replace_waiting_key r new (k ∷ ks) = ground (arith, length-replace_waiting_key r new ks)

peer_found :
    (p : PeerRef) (ss : List Session) (s : Session)
    → find_if (has_peer p) ss ≡ some s
    → find_if (has_key (key_ref s.key)) ss ≡ some s
peer_found p ss s e =
    let h =
      (same_iff PeerRef-discrete (peer_ref s.key.peer) p).0 (find_if-some (has_peer p) ss e).0 in
    find_if_narrow (has_key (key_ref s.key)) (has_peer p) ss s
      (λ x g. subst (λ y. has_peer y x ≡ true) h (key_peer (key_ref s.key) x g)) e
      (same_refl KeyRef-discrete (key_ref s.key))

-- Where no session has the peer, inserting one takes none out.
pub no_other :
    (key : Ed2kUploadSessionKey) (ss : List Session)
    → count_if (has_peer (peer_ref key.peer)) ss ≡ 0
    → remove_first (has_key (key_ref key)) ss ≡ ss
no_other key ss h =
    let m =
      count_if_mono (has_key (key_ref key)) (has_peer (peer_ref key.peer)) ss
        (key_peer (key_ref key)) in
    remove_first-none (has_key (key_ref key)) ss
      (find_if_zero (has_key (key_ref key)) ss (omega (arith, h, m)))

-- Without its session, a peer has none.
pub peer_gone :
    (p : PeerRef) (q : Queue) (s : Session)
    → IsSound q
    → find_if (has_peer p) q.sessions ≡ some s
    → count_if (has_peer p) (remove_first (has_key (key_ref s.key)) q.sessions) ≡ 0
peer_gone p q s v e =
    let r = key_ref s.key in
    let t =
      count_if-remove_first (has_key r) (has_peer p) q.sessions (peer_found p q.sessions s e) in
    let h = ap bool_to_ℕ (find_if-some (has_peer p) q.sessions e).0 in
    omega (arith, t, h, v.one_peer p)

-- The queue after a peer came back under `key`, with the removals that have no effect left out.
abbrev rebound : Ed2kUploadSessionKey → ℕ → ℕ → Session → Queue → Queue
rebound key connection_id now s q = record q {
  sessions =
      (record s { key = key; connection_id = connection_id; last_activity = now })
      ∷ remove_first (has_key (key_ref s.key)) q.sessions;
  waiting_order =
      if is_waiting s.phase
      then replace_waiting_key (key_ref s.key) key q.waiting_order
      else q.waiting_order;
}

pub rebind-rebound :
    (key : Ed2kUploadSessionKey) (connection_id now : ℕ) (s : Session) (q : Queue)
    → IsSound q
    → find_if (has_peer (peer_ref key.peer)) q.sessions ≡ some s
    → rebind key connection_id now s q ≡ rebound key connection_id now s q
unfolding rebind
rebind-rebound key connection_id now s q v e = rw (
    no_other key (remove_first (has_key (key_ref s.key)) q.sessions)
      (peer_gone (peer_ref key.peer) q s v e))

pub and_true : (b : Bool) → bool_to_ℕ (b && true) ≡ bool_to_ℕ b
and_true b = ground arith

pub and_false : (b : Bool) → bool_to_ℕ (b && false) ≡ 0
and_false b = ground arith

rebound_listed :
    (key : Ed2kUploadSessionKey) (connection_id now : ℕ) (s : Session) (q : Queue) (j : KeyRef)
    → IsSound q
    → find_if (has_key (key_ref s.key)) q.sessions ≡ some s
    → count_if (is_key j) (rebound key connection_id now s q).waiting_order
      ≡ count_if (waits_at j) (rebound key connection_id now s q).sessions
rebound_listed key connection_id now s q j v e =
    let r = key_ref s.key in
    let t = λ (x : KeyRef). count_if-remove_first (has_key r) (waits_at x) q.sessions e in
    elim (Bool-cases (is_waiting s.phase)) [
      | inl w ↦
          let b = ap bool_to_ℕ (waits_at-true r s (same_refl KeyRef-discrete r) w) in
          let c = ap (λ y. bool_to_ℕ (is_key j key && y)) w in
          let d = ap (λ y. bool_to_ℕ (has_key j s && y)) w in
          let n =
            count_if-replace_waiting_key r key j q.waiting_order
              (omega (arith, v.listed r, t r, b)) in
          rw w (
            omega (
              arith,
              v.listed j,
              t j,
              c,
              d,
              n,
              and_true (is_key j key),
              and_true (same KeyRef-discrete r j),
            ))
      | inr w ↦
          let c = ap (λ y. bool_to_ℕ (is_key j key && y)) w in
          let d = ap (λ y. bool_to_ℕ (has_key j s && y)) w in rw w (ground (arith, v.listed j, t j))
    ]

rebind-IsSound :
    (key : Ed2kUploadSessionKey) (connection_id now : ℕ) (s : Session) (q : Queue)
    → IsSound q
    → find_if (has_peer (peer_ref key.peer)) q.sessions ≡ some s
    → IsSound (rebind key connection_id now s q)
rebind-IsSound key connection_id now s q v e =
    let r = key_ref s.key in
    let p = peer_ref key.peer in
    let found = peer_found p q.sessions s e in
    let hp =
      (same_iff PeerRef-discrete (peer_ref s.key.peer) p).0
        (find_if-some (has_peer p) q.sessions e).0 in
    let t = λ (x : Session → Bool). count_if-remove_first (has_key r) x q.sessions found in
    rw (rebind-rebound key connection_id now s q v e) (record {
      one_peer = λ j.
          let b = ap (λ (x : PeerRef). bool_to_ℕ (same PeerRef-discrete x j)) hp in
          omega (arith, t (has_peer j), b, v.one_peer j);
      listed = λ j. rebound_listed key connection_id now s q j v found;
      within_slots = omega (arith, t is_active, v.within_slots);
    })

entered_peer :
    (key : Ed2kUploadSessionKey) (j : PeerRef) (q : Queue)
    → IsSound q
    → count_if (has_peer (peer_ref key.peer)) q.sessions ≡ 0
    → bool_to_ℕ (same PeerRef-discrete (peer_ref key.peer) j) + count_if (has_peer j) q.sessions ≤ 1
entered_peer key j q v z = elim (Bool-cases (same PeerRef-discrete (peer_ref key.peer) j)) [
  | inl h ↦
      let g =
        ap (λ y. count_if (has_peer y) q.sessions)
          ((same_iff PeerRef-discrete (peer_ref key.peer) j).0 h) in
      let b = ap bool_to_ℕ h in omega (arith, g, z, b)
  | inr h ↦ let b = ap bool_to_ℕ h in omega (arith, v.one_peer j, b)
]

enter-IsSound :
    (key : Ed2kUploadSessionKey) (connection_id now : ℕ) (q : Queue)
    → IsSound q
    → find_if (has_peer (peer_ref key.peer)) q.sessions ≡ none
    → IsSound (enter key connection_id now q)
unfolding enter
enter-IsSound key connection_id now q v e =
    let z = find_if-none (has_peer (peer_ref key.peer)) q.sessions e in
    let o = no_other key q.sessions z in
    let alone : (j : PeerRef)
        → bool_to_ℕ (same PeerRef-discrete (peer_ref key.peer) j) + count_if (has_peer j) q.sessions
          ≤ 1 =
      λ j. entered_peer key j q v z in
    elim (Bool-cases (ltb (count_if is_active q.sessions) q.config.active_slots)) [
      | inl f ↦
          rw (f, o, enter)
            (record {
              one_peer = alone;
              listed = λ j. ground (arith, v.listed j);
              within_slots = omega (arith, ltb→lt _ _ f);
            })
      | inr f ↦
          rw (f, o, enter)
            (record {
              one_peer = alone;
              listed =
                  λ j. ground (arith, v.listed j, count_if-snoc (is_key j) q.waiting_order key);
              within_slots = omega (arith, v.within_slots);
            })
    ]

-- A sound queue within its capacity.
pub record IsQueue (q : Queue) : Type 0 where
  pub sound : IsSound q
  pub within_capacity : length q.waiting_order ≤ q.config.waiting_capacity

shortened-IsQueue : (q q' : Queue) → IsQueue q → IsSound q' → Shortens q q' → IsQueue q'
shortened-IsQueue q q' v w h = record {
  sound = w;
  within_capacity =
      let c = ap (λ (x : Ed2kUploadQueueConfig). x.waiting_capacity) h.same_config in
      omega (arith, c, h.no_longer, v.within_capacity);
}

pub reap_expired_sessions-IsQueue :
    (now : ℕ) (q : Queue) → IsQueue q → IsQueue (reap_expired_sessions now q)
reap_expired_sessions-IsQueue now q v =
    shortened-IsQueue q (reap_expired_sessions now q) v (reap_expired_sessions_lem now q v.sound).0
      (reap_expired_sessions-Shortens now q)

pub promote_waiters-IsQueue : (now : ℕ) (q : Queue) → IsQueue q → IsQueue (promote_waiters now q)
promote_waiters-IsQueue now q v =
    shortened-IsQueue q (promote_waiters now q) v (promote_waiters_lem now q v.sound).0
      (promote_waiters-Shortens now q)

rebind-IsQueue :
    (key : Ed2kUploadSessionKey) (connection_id now : ℕ) (s : Session) (q : Queue)
    → IsQueue q
    → find_if (has_peer (peer_ref key.peer)) q.sessions ≡ some s
    → IsQueue (rebind key connection_id now s q)
unfolding rebind
rebind-IsQueue key connection_id now s q v e = record {
  sound = rebind-IsSound key connection_id now s q v.sound e;
  within_capacity =
      ground
        (arith, v.within_capacity, length-replace_waiting_key (key_ref s.key) key q.waiting_order);
}

trimmed-IsQueue :
    (key : Ed2kUploadSessionKey) (connection_id now : ℕ) (q : Queue)
    → IsSound q
    → find_if (has_peer (peer_ref key.peer)) q.sessions ≡ none
    → IsQueue (trim_waiting_queue now (enter key connection_id now q))
trimmed-IsQueue key connection_id now q v e =
    let q' = enter key connection_id now q in
    let (a, b) = trim_waiting_queue_lem now q' (enter-IsSound key connection_id now q v e) in
    record { sound = a; within_capacity = rw (trim_waiting_queue-Shortens now q').same_config b }

-- A peer that connects leaves a well-formed queue well formed, whether it comes back or is new: one
-- session for a peer, the waiting order lists each waiting session once, the slots are not overdrawn
-- and the waiting order is within its capacity.
pub begin_session-IsQueue :
    (key : Ed2kUploadSessionKey) (connection_id now : ℕ) (q : Queue)
    → IsQueue q
    → IsQueue (begin_session key connection_id now q).0
unfolding begin_session
begin_session-IsQueue key connection_id now q v =
    let r = reap_expired_sessions now q in
    let w = reap_expired_sessions-IsQueue now q v in
    elim (Option-cases (find_if (has_peer (peer_ref key.peer)) r.sessions)) [
      | inl e ↦ rw (e, begin_session) (trimmed-IsQueue key connection_id now r w.sound e)
      | inr (s, e) ↦ rw (e, begin_session) (rebind-IsQueue key connection_id now s r w e)
    ]
