-- ===== src/Kad/Tracker/Flood.antt =====
-- The packet budgets of tracker.rs.
use p2p_overlord_agents.Base.{
  ℕ, ◌+◌, ◌-◌, ◌*◌, ◌%◌, ◌^◌, ◌≤◌, ◌<◌, ◌≡◌, ◌≢◌, refl, sym, subst, ap, ap₂, ◌∙◌, ◌↔◌, inl, inr,
  min, false, Option, none, some, List, [], ◌∷◌, arith, leb, if◌then◌else◌, bool_to_ℕ, same,
  same_iff, same_refl, length, count_if-keep_if-le, All, Bool-cases,
}
use p2p_overlord_agents.Base.Map
use p2p_overlord_agents.Base.Map.{Map}
use p2p_overlord_agents.Kad.Tracker.{
  PacketTracker, PacketTrackerKey, PacketTrackerLimit, PacketTrackerDecision, Window, Key-discrete,
  limit_for_bucket, window_at, decide_packet, record_and_check, prune, is_fresh, allow,
  massive_drop, u32_max, duration_max,
}

abbrev pub window_of : PacketTracker → PacketTrackerKey → Option Window
window_of t k = Map.lookup Key-discrete k t.counts

abbrev limit_of : PacketTracker → PacketTrackerKey → PacketTrackerLimit
limit_of t k = limit_for_bucket t k.bucket

-- A `u32` count is allowed up to the budget, dropped above it, and dropped as a massive flood above
-- four times the budget (or above `u32::MAX`, where the product saturates).
pub decide_packet_lem :
    (limit : PacketTrackerLimit) (n : ℕ)
    → n ≤ u32_max
    → ((decide_packet limit n).allowed ≡ leb n limit.max_packets)
      × (((decide_packet limit n).action ≡ massive_drop) ↔ (limit.max_packets * 4 < n))
      × (((decide_packet limit n).action ≡ allow) ↔ (n ≤ limit.max_packets))
unfolding decide_packet
decide_packet_lem limit n h =
    (ground arith, (ground arith, ground arith), (ground arith, ground arith))

-- The two parts of one call.
record_window :
    (now : ℕ) (t : PacketTracker) (k j : PacketTrackerKey)
    → window_of (record_and_check now t k).0 j ≡ (
        if same Key-discrete k j
        then some (record {
          packets = ((window_at now (limit_of t k) (window_of t k)).packets + 1) % 2 ^ 32;
          start = (window_at now (limit_of t k) (window_of t k)).start;
        })
        else window_of t j)
unfolding record_and_check
record_window now t k j = Map.lookup-insert Key-discrete k j _ t.counts

record_decision :
    (now : ℕ) (t : PacketTracker) (k : PacketTrackerKey)
    → (record_and_check now t k).1
      ≡ decide_packet
          (limit_of t k)
          (((window_at now (limit_of t k) (window_of t k)).packets + 1) % 2 ^ 32)
unfolding record_and_check
record_decision now t k = refl

record_limits :
    (now : ℕ) (t : PacketTracker) (k j : PacketTrackerKey)
    → limit_of (record_and_check now t k).0 j ≡ limit_of t j
unfolding record_and_check limit_for_bucket
record_limits now t k j = refl

-- A packet of one key changes no decision about another key.
pub record_and_check_independent :
    (now later : ℕ) (t : PacketTracker) (k j : PacketTrackerKey)
    → k ≢ j
    → (record_and_check later (record_and_check now t k).0 j).1 ≡ (record_and_check later t j).1
record_and_check_independent now later t k j n =
    record_decision later (record_and_check now t k).0 j
    ∙ ap₂
        (λ (l : PacketTrackerLimit) (w : Option Window).
          decide_packet l (((window_at later l w).packets + 1) % 2 ^ 32))
        (record_limits now t k j)
        (record_window now t k j ∙ ground (arith, same_iff Key-discrete k j))
    ∙ sym (record_decision later t j)

-- The packets of one key, at the given instants, and how many were allowed.
pub run_packets : List ℕ → PacketTracker → PacketTrackerKey → ℕ
run_packets [] t k = 0
run_packets (now ∷ later) t k =
    bool_to_ℕ (record_and_check now t k).1.allowed
    + run_packets later (record_and_check now t k).0 k

open_window :
    (now : ℕ) (limit : PacketTrackerLimit) (w : Window)
    → now - w.start < limit.window
    → window_at now limit (some w) ≡ w
unfolding window_at
open_window now limit w h = ground arith

module _ (now : ℕ) (t : PacketTracker) (k : PacketTrackerKey) (w : Window)
    (e : window_of t k ≡ some w) (inside : now - w.start < (limit_of t k).window)
    (fits : w.packets + 1 < 2 ^ 32) where
  same_window : window_at now (limit_of t k) (window_of t k) ≡ w
  same_window = ap (window_at now (limit_of t k)) e ∙ open_window now (limit_of t k) w inside

  next_window :
      window_of (record_and_check now t k).0 k
      ≡ some (record { packets = w.packets + 1; start = w.start })
  next_window = record_window now t k k ∙ ground (arith, same_refl Key-discrete k, same_window)

  next_allowed :
      (record_and_check now t k).1.allowed ≡ leb (w.packets + 1) (limit_of t k).max_packets
  next_allowed =
      ap (λ (d : PacketTrackerDecision). d.allowed) (record_decision now t k)
      ∙ ap (λ (n : ℕ). (decide_packet (limit_of t k) n).allowed)
          (ap (λ (x : Window). (x.packets + 1) % 2 ^ 32) same_window ∙ omega arith)
      ∙ (decide_packet_lem (limit_of t k) (w.packets + 1) (omega arith)).0

-- Of the packets of one key inside its open window exactly as many are allowed as the budget leaves.
pub run_packets_budget :
    (times : List ℕ) (t : PacketTracker) (k : PacketTrackerKey) (w : Window)
    → window_of t k ≡ some w
    → All (λ now. now - w.start < (limit_of t k).window) times
    → w.packets + length times < 2 ^ 32
    → run_packets times t k ≡ min (length times) ((limit_of t k).max_packets - w.packets)
unfolding run_packets
run_packets_budget [] t k w e inside fits = omega arith
run_packets_budget (now ∷ later) t k w e (h, inside) fits = ground (
  arith,
  next_allowed now t k w e h (omega arith),
  ap (λ (l : PacketTrackerLimit). l.max_packets) (record_limits now t k k),
  run_packets_budget later (record_and_check now t k).0 k
      (record { packets = w.packets + 1; start = w.start })
      (next_window now t k w e h (omega arith))
      (subst (λ (l : PacketTrackerLimit). All (λ x. x - w.start < l.window) later)
        (sym (record_limits now t k k)) inside)
      (omega arith),
)

-- A hash map has one entry for a key, and both operations keep it so.
abbrev pub IsTracker : PacketTracker → Type 0
IsTracker t = Map.IsMap Key-discrete t.counts

pub record_and_check-IsTracker :
    (now : ℕ) (t : PacketTracker) (k : PacketTrackerKey)
    → IsTracker t
    → IsTracker (record_and_check now t k).0
unfolding record_and_check
record_and_check-IsTracker now t k v j =
    Map.entries_at-insert Key-discrete k j _ t.counts (v k) (v j)

pub prune-IsTracker : (now : ℕ) (t : PacketTracker) → IsTracker t → IsTracker (prune now t)
unfolding prune
prune-IsTracker now t v j =
    omega (arith, v j, count_if-keep_if-le (is_fresh now t) (λ e. same Key-discrete e.0 j) t.counts)

stale_window :
    (now later : ℕ) (t : PacketTracker) (k : PacketTrackerKey) (w : Window)
    → now ≤ later
    → (limit_of t k).window ≤ duration_max
    → is_fresh now t (k, w) ≡ false
    → window_at later (limit_of t k) (some w) ≡ window_at later (limit_of t k) none
unfolding is_fresh window_at
stale_window now later t k w le fits h = ground arith

pruned_window :
    (now later : ℕ) (t : PacketTracker) (k : PacketTrackerKey) (o : Option Window)
    → now ≤ later
    → (limit_of t k).window ≤ duration_max
    → window_at later
        (limit_of t k)
        (elim o [ none ↦ none | some w ↦ if is_fresh now t (k, w) then some w else none ])
      ≡ window_at later (limit_of t k) o
pruned_window now later t k none le fits = refl
pruned_window now later t k (some w) le fits = elim (Bool-cases (is_fresh now t (k, w))) [
  | inl h ↦ rw h
  | inr h ↦ rw h (sym (stale_window now later t k w le fits h))
]

-- `prune` forgets only windows that are over: every later decision is the one without it.
pub prune_transparent :
    (now later : ℕ) (t : PacketTracker) (k : PacketTrackerKey)
    → IsTracker t
    → now ≤ later
    → (limit_for_bucket t k.bucket).window ≤ duration_max
    → (record_and_check later (prune now t) k).1 ≡ (record_and_check later t k).1
unfolding prune limit_for_bucket
prune_transparent now later t k v le fits =
    record_decision later (prune now t) k
    ∙ ap (λ (x : Window). decide_packet (limit_of t k) ((x.packets + 1) % 2 ^ 32))
        (ap (window_at later (limit_of t k))
            (Map.lookup-keep_if Key-discrete (is_fresh now t) k t.counts (v k))
          ∙ pruned_window now later t k (window_of t k) le fits)
    ∙ sym (record_decision later t k)
