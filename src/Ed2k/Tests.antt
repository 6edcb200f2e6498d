-- ===== src/Ed2k/Tests.antt =====
-- Runs of the upload queue at concrete values, and the theorems about it applied there.
use p2p_overlord_agents.Base.{◌≡◌, ℕ, ◌≤◌, refl, true, false, none, [], ◌∷◌, arith, length}
use p2p_overlord_agents.Ed2k.Upload.{
  Queue, Ed2kUploadPeerIdentity, Ed2kUploadSessionKey, Ed2kUploadSessionHandle,
  Ed2kUploadQueueConfig, default_config, from_secs, new_queue, begin_session, poll_session,
  note_request_parts, release_session, promote_waiters, trim_waiting_queue,
}
use p2p_overlord_agents.Ed2k.Upload.{stale}
use p2p_overlord_agents.Ed2k.Upload.Reach.{begin, poll, release, calls, calls-IsQueue}
use p2p_overlord_agents.Ed2k.Upload.Handle.{superseded_handle}
use p2p_overlord_agents.Ed2k.Upload.Invariant.{IsSound}
use p2p_overlord_agents.Ed2k.Upload.Promote.{
  IsWorkConserving, promote_waiters_lem, trim_waiting_queue_lem,
}
use p2p_overlord_agents.Ed2k.Upload.Begin.{IsQueue, begin_session-IsQueue}

-- One slot and one place to wait.
abbrev small_config : Ed2kUploadQueueConfig
small_config = record default_config { active_slots = 1; waiting_capacity = 1 }

abbrev peer_at : ℕ → Ed2kUploadPeerIdentity
peer_at n = record {
  ip = n;
  tcp_port = 4662;
  user_hash = none;
  client_id = none;
  friend_slot = false;
}

abbrev key_at : ℕ → Ed2kUploadSessionKey
key_at n = record { peer = peer_at n; file_hash = 1 }

abbrev handle_at : ℕ → Ed2kUploadSessionHandle
handle_at n = record { key = key_at n; connection_id = n }

abbrev queue0 : Queue
queue0 = new_queue small_config

queue0-IsQueue : IsQueue queue0
unfolding new_queue
queue0-IsQueue = record {
  sound = record { one_peer = λ _. omega arith; listed = λ _. refl; within_slots = omega arith };
  within_capacity = omega arith;
}

-- One peer holds the slot.
abbrev queue1 : Queue
queue1 = (begin_session (key_at 1) 1 (from_secs 1) queue0).0

queue1-IsQueue : IsQueue queue1
queue1-IsQueue = begin_session-IsQueue (key_at 1) 1 (from_secs 1) queue0 queue0-IsQueue

-- A second one waits.
abbrev queue2 : Queue
queue2 = (begin_session (key_at 2) 2 (from_secs 2) queue1).0

queue2-IsQueue : IsQueue queue2
queue2-IsQueue = begin_session-IsQueue (key_at 2) 2 (from_secs 2) queue1 queue1-IsQueue

calls_example : IsQueue (
    calls
      (begin (key_at 1) 1 (from_secs 1)
        ∷ begin (key_at 2) 2 (from_secs 2)
        ∷ begin (key_at 3) 3 (from_secs 3)
        ∷ poll (handle_at 2) (from_secs 4) true
        ∷ release (handle_at 1) (from_secs 5)
        ∷ [])
      (new_queue small_config))
calls_example = calls-IsQueue small_config (
    begin (key_at 1) 1 (from_secs 1)
    ∷ begin (key_at 2) 2 (from_secs 2)
    ∷ begin (key_at 3) 3 (from_secs 3)
    ∷ poll (handle_at 2) (from_secs 4) true
    ∷ release (handle_at 1) (from_secs 5)
    ∷ [])

promote_waiters_example :
    IsSound (promote_waiters (from_secs 4) queue2)
    × IsWorkConserving (promote_waiters (from_secs 4) queue2)
promote_waiters_example = promote_waiters_lem (from_secs 4) queue2 queue2-IsQueue.sound

trim_waiting_queue_example :
    IsSound (trim_waiting_queue (from_secs 4) queue2)
    × (length (trim_waiting_queue (from_secs 4) queue2).waiting_order
        ≤ queue2.config.waiting_capacity)
trim_waiting_queue_example = trim_waiting_queue_lem (from_secs 4) queue2 queue2-IsQueue.sound

superseded_example :
    ((poll_session
        (handle_at 2)
        (from_secs 5)
        true
        (begin_session (key_at 2) 9 (from_secs 4) queue2).0).1
      ≡ stale)
    × ((note_request_parts
          (handle_at 2)
          (from_secs 5)
          (begin_session (key_at 2) 9 (from_secs 4) queue2).0).1
        ≡ stale)
    × (release_session
          (handle_at 2)
          (from_secs 5)
          (begin_session (key_at 2) 9 (from_secs 4) queue2).0
        ≡ (begin_session (key_at 2) 9 (from_secs 4) queue2).0)
superseded_example =
    superseded_handle (handle_at 2) 9 (from_secs 4) (from_secs 5) true queue2 queue2-IsQueue
      (λ e. omega (arith, e))
