-- ===== src/Snoop/Rest.antt =====
-- snoop_queue.rs: how long ago an entry off its cooldown was drained.
use p2p_overlord_agents.Base.{
  ◌==◌, min, ◌+◌, ◌*◌, ◌^◌, ◌≤◌, ltb, ℕ, ◌-◌, ◌≡◌, inl, inr, false, some, Bool-cases, arith, ◌||◌,
}
use native.Mathlib.Nat.{mul-le-mul_left}
use p2p_overlord_agents.Snoop.{ReplayFeedback, u32_max, SnoopEntry, seconds}
use p2p_overlord_agents.Snoop.Select.{is_cooling, replay_cooldown_cutoff, seen_after}

-- The longer cooldown after replays without results is as long as the plain one at the least.
cooldown_grows :
    (cooldown n : ℕ)
    → seconds cooldown ≤ seconds (min (cooldown * min (min (n + 1) u32_max) 4) (2 ^ 64 - 1))
cooldown_grows cooldown n =
    let factor = min (min (n + 1) u32_max) 4 in
    let one : 1 ≤ factor = ground arith in
    let grows : cooldown ≤ cooldown * factor = omega (arith, mul-le-mul_left cooldown one) in
    ground (arith, grows)

earlier : (now a b d : ℕ) → a ≤ b → ltb (now - b) d ≡ false → d ≤ now - a
earlier now a b d h k = ground (arith, h, k)

pub rested :
    (e : SnoopEntry) (now cooldown : ℕ) (f : ReplayFeedback)
    → is_cooling now cooldown e f ≡ false
    → (d : ℕ) → e.last_drained_at ≡ some d
    → d ≤ now - seconds cooldown
unfolding is_cooling replay_cooldown_cutoff
rested e now cooldown f h d l =
    let g = cooldown_grows cooldown f.zero_result_streak in
    let k = rw (l, is_cooling) at h in
    elim (Bool-cases (f.zero_result_streak == 0 || seen_after e.last_seen f.last_outcome_at)) [
      | inl b ↦ let z = rw (b, replay_cooldown_cutoff) at k in ground (arith, z)
      | inr b ↦
          let z = rw (b, replay_cooldown_cutoff) at k in earlier now (seconds cooldown) _ d g z
    ]
