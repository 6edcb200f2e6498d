-- ===== src/Ed2k/Upload/Reach.antt =====
-- upload_queue.rs: the queue after any sequence of calls.
use p2p_overlord_agents.Base.{ℕ, refl, Bool, List, [], ◌∷◌, arith}
use p2p_overlord_agents.Ed2k.Upload.{
  Queue, Ed2kUploadQueueConfig, Ed2kUploadSessionKey, Ed2kUploadSessionHandle, new_queue,
  begin_session, poll_session, note_request_parts, release_session,
}
use p2p_overlord_agents.Ed2k.Upload.Begin.{IsQueue, begin_session-IsQueue}
use p2p_overlord_agents.Ed2k.Upload.Operations.{
  poll_session-IsQueue, note_request_parts-IsQueue, release_session-IsQueue,
}

-- The calls of the sessions of the listener, each with its instant.
pub data Call : Type 0 where
  begin : Ed2kUploadSessionKey → ℕ → ℕ → Call
  poll : Ed2kUploadSessionHandle → ℕ → Bool → Call
  note : Ed2kUploadSessionHandle → ℕ → Call
  release : Ed2kUploadSessionHandle → ℕ → Call

unfoldable pub call : Call → Queue → Queue
unfolding begin_session poll_session note_request_parts release_session
call (begin key connection_id now) q = (begin_session key connection_id now q).0
call (poll h now refresh_activity) q = (poll_session h now refresh_activity q).0
call (note h now) q = (note_request_parts h now q).0
call (release h now) q = release_session h now q

unfoldable pub calls : List Call → Queue → Queue
unfolding call
calls [] q = q
calls (c ∷ cs) q = calls cs (call c q)

new_queue-IsQueue : (config : Ed2kUploadQueueConfig) → IsQueue (new_queue config)
unfolding new_queue
new_queue-IsQueue config = record {
  sound = record { one_peer = λ _. omega arith; listed = λ _. refl; within_slots = omega arith };
  within_capacity = omega arith;
}

call-IsQueue : (c : Call) (q : Queue) → IsQueue q → IsQueue (call c q)
unfolding call
call-IsQueue (begin key connection_id now) q v = begin_session-IsQueue key connection_id now q v
call-IsQueue (poll h now refresh_activity) q v = poll_session-IsQueue h now refresh_activity q v
call-IsQueue (note h now) q v = note_request_parts-IsQueue h now q v
call-IsQueue (release h now) q v = release_session-IsQueue h now q v

calls_from : (cs : List Call) (q : Queue) → IsQueue q → IsQueue (calls cs q)
unfolding calls
calls_from [] q v = v
calls_from (c ∷ cs) q v = calls_from cs (call c q) (call-IsQueue c q v)

-- After any sequence of calls on a new queue, of whatever configuration, each peer has one session,
-- the keys in the waiting order are those of the sessions that wait, no more slots are held than the
-- configuration has, and the waiting order is within its capacity.
pub calls-IsQueue :
    (config : Ed2kUploadQueueConfig) (cs : List Call) → IsQueue (calls cs (new_queue config))
calls-IsQueue config cs = calls_from cs (new_queue config) (new_queue-IsQueue config)
