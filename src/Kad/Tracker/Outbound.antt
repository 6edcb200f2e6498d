-- ===== src/Kad/Tracker/Outbound.antt =====
-- The record of outgoing requests of tracker.rs as a multiset of open requests.
use p2p_overlord_agents.Base.{
  ℕ, ◌+◌, ◌≤◌, ◌<◌, ◌≡◌, refl, sym, subst, ap, ◌∙◌, inl, inr, Bool, true, false, not, ◌&&◌, none,
  some, List, [], ◌∷◌, arith, ltb, ◌==◌, if◌then◌else◌, bool_to_ℕ, keep_if, count_if, find_if,
  remove_first, All, Bool-cases, Option-cases, find_if-none, count_if-remove_first,
}
use p2p_overlord_agents.Kad.Tracker.{
  OutboundRequestEntry, OutboundRequestTracker, is_expired, pop_expired, prune_outbound,
  record_request, matches, contains, tracks_outbound_request_opcode,
}

-- The newest first.
abbrev pub Descending : List OutboundRequestEntry → Type 0
Descending [] = Unit {0}
Descending (e ∷ es) = All (λ x. x.inserted_at ≤ e.inserted_at) es × Descending es

abbrev live : ℕ → ℕ → OutboundRequestEntry → Bool
live now window e = not (is_expired now window e)

expired_behind :
    (now window : ℕ) (e : OutboundRequestEntry) (es : List OutboundRequestEntry)
    → is_expired now window e ≡ true
    → All (λ x. x.inserted_at ≤ e.inserted_at) es
    → keep_if (live now window) es ≡ []
expired_behind now window e [] h a = refl
expired_behind now window e (x ∷ xs) h (a, bs) = ground (arith, expired_behind now window e xs h bs)

-- Popping from the back drops exactly the entries that are over.
pop_expired-keep_if :
    (now window : ℕ) (es : List OutboundRequestEntry)
    → Descending es
    → pop_expired now window es ≡ keep_if (live now window) es
unfolding pop_expired
pop_expired-keep_if now window [] d = refl
pop_expired-keep_if now window (e ∷ es) (a, d) =
    ground (arith, pop_expired-keep_if now window es d, expired_behind now window e es)

All-keep_if :
    (p q : OutboundRequestEntry → Bool) (m : ℕ) (es : List OutboundRequestEntry)
    → All (λ x. x.inserted_at ≤ m) es
    → All (λ x. x.inserted_at ≤ m) (keep_if p es)
All-keep_if p q m [] a = tt
All-keep_if p q m (e ∷ es) (a, bs) = elim (Bool-cases (p e)) [
  | inl h ↦ rw h (a, All-keep_if p q m es bs)
  | inr h ↦ rw h (All-keep_if p q m es bs)
]

keep_if-Descending :
    (p : OutboundRequestEntry → Bool) (es : List OutboundRequestEntry)
    → Descending es
    → Descending (keep_if p es)
keep_if-Descending p [] d = tt
keep_if-Descending p (e ∷ es) (a, d) = elim (Bool-cases (p e)) [
  | inl h ↦ rw h (All-keep_if p p e.inserted_at es a, keep_if-Descending p es d)
  | inr h ↦ rw h (keep_if-Descending p es d)
]

All-remove_first :
    (p : OutboundRequestEntry → Bool) (m : ℕ) (es : List OutboundRequestEntry)
    → All (λ x. x.inserted_at ≤ m) es
    → All (λ x. x.inserted_at ≤ m) (remove_first p es)
All-remove_first p m [] a = tt
All-remove_first p m (e ∷ es) (a, bs) = elim (Bool-cases (p e)) [
  | inl h ↦ rw h bs
  | inr h ↦ rw h (a, All-remove_first p m es bs)
]

remove_first-Descending :
    (p : OutboundRequestEntry → Bool) (es : List OutboundRequestEntry)
    → Descending es
    → Descending (remove_first p es)
remove_first-Descending p [] d = tt
remove_first-Descending p (e ∷ es) (a, d) = elim (Bool-cases (p e)) [
  | inl h ↦ rw h d
  | inr h ↦ rw h (All-remove_first p e.inserted_at es a, remove_first-Descending p es d)
]

-- The open requests for an address and an opcode.
abbrev pub open_requests : ℕ → OutboundRequestTracker → ℕ → ℕ → ℕ
open_requests now t ip opcode =
    count_if (λ e. matches ip opcode e && not (is_expired now t.window e)) t.entries

count_live :
    (q : OutboundRequestEntry → Bool) (now window : ℕ) (es : List OutboundRequestEntry)
    → count_if q (keep_if (live now window) es)
      ≡ count_if (λ e. q e && not (is_expired now window e)) es
count_live q now window [] = refl
count_live q now window (e ∷ es) = ground (arith, count_live q now window es)

count_live_twice :
    (q : OutboundRequestEntry → Bool) (now window : ℕ) (es : List OutboundRequestEntry)
    → count_if (λ e. q e && not (is_expired now window e)) (keep_if (live now window) es)
      ≡ count_if (λ e. q e && not (is_expired now window e)) es
count_live_twice q now window [] = refl
count_live_twice q now window (e ∷ es) = ground (arith, count_live_twice q now window es)

-- `record` opens one request of a tracked opcode, none of another, and closes none that is not over.
pub record_request_lem :
    (now : ℕ) (t : OutboundRequestTracker) (ip opcode i o : ℕ)
    → Descending t.entries
    → 0 < t.window
    → open_requests now (record_request now t ip opcode) i o
      ≡ open_requests now t i o
        + bool_to_ℕ (tracks_outbound_request_opcode opcode && (ip == i && opcode == o))
unfolding record_request
record_request_lem now t ip opcode i o d w =
    elim (Bool-cases (tracks_outbound_request_opcode opcode)) [
      | inl h ↦ ground (
        arith,
        h,
        pop_expired-keep_if now t.window t.entries d,
        count_live_twice (matches i o) now t.window t.entries,
      )
      | inr h ↦ ground (
        arith,
        h,
        pop_expired-keep_if now t.window t.entries d,
        count_live_twice (matches i o) now t.window t.entries,
      )
    ]

record_request-Descending :
    (now : ℕ) (t : OutboundRequestTracker) (ip opcode : ℕ)
    → Descending t.entries
    → All (λ e. e.inserted_at ≤ now) t.entries
    → Descending (record_request now t ip opcode).entries
unfolding record_request
record_request-Descending now t ip opcode d a =
    elim (Bool-cases (tracks_outbound_request_opcode opcode)) [
      | inl h ↦ rw h (
        subst (All (λ e. e.inserted_at ≤ now)) (sym same_entries)
            (All-keep_if (live now t.window) (live now t.window) now t.entries a),
        kept,
      )
      | inr h ↦ rw h kept
    ]
  where
    same_entries : pop_expired now t.window t.entries ≡ keep_if (live now t.window) t.entries
    same_entries = pop_expired-keep_if now t.window t.entries d

    kept : Descending (pop_expired now t.window t.entries)
    kept = subst Descending (sym same_entries) (keep_if-Descending (live now t.window) t.entries d)

-- The cases of `contains`.
contains_missing :
    (now : ℕ) (t : OutboundRequestTracker) (ip opcode : ℕ) (remove : Bool)
    → find_if (matches ip opcode) (pop_expired now t.window t.entries) ≡ none
    → contains now t ip opcode remove ≡ (prune_outbound now t, false)
unfolding contains
contains_missing now t ip opcode remove e = rw (e, contains)

contains_found :
    (now : ℕ) (t : OutboundRequestTracker) (ip opcode : ℕ) (remove : Bool)
    (e : OutboundRequestEntry)
    → find_if (matches ip opcode) (pop_expired now t.window t.entries) ≡ some e
    → contains now t ip opcode remove ≡ (
      if remove
          then record t {
            entries = remove_first (matches ip opcode) (pop_expired now t.window t.entries);
          }
          else prune_outbound now t,
      true,
    )
unfolding contains
contains_found now t ip opcode remove e f = rw (f, contains)

find_live :
    (p : OutboundRequestEntry → Bool) (now window : ℕ) (es : List OutboundRequestEntry)
    (e : OutboundRequestEntry)
    → find_if p (keep_if (live now window) es) ≡ some e
    → (p e ≡ true) × (is_expired now window e ≡ false)
find_live p now window [] e h = ground arith
find_live p now window (x ∷ xs) e h = ground (arith, find_live p now window xs e)

find_none-live :
    (p : OutboundRequestEntry → Bool) (now window : ℕ) (es : List OutboundRequestEntry)
    → find_if p (keep_if (live now window) es) ≡ none
    → count_if (λ e. p e && not (is_expired now window e)) es ≡ 0
find_none-live p now window es h =
    omega (arith, count_live p now window es, find_if-none p (keep_if (live now window) es) h)

match_bit :
    (ip opcode i o : ℕ) (e : OutboundRequestEntry) (x : Bool)
    → matches ip opcode e ≡ true
    → x ≡ false
    → bool_to_ℕ (matches i o e && not x) ≡ bool_to_ℕ (ip == i && opcode == o)
match_bit ip opcode i o e x h l = ground arith

abbrev Answers : ℕ → OutboundRequestTracker → ℕ → ℕ → Bool → OutboundRequestTracker × Bool → Type 0
Answers now t ip opcode remove r =
    (r.1 ≡ ltb 0 (open_requests now t ip opcode))
    × ((i o : ℕ)
        → open_requests now r.0 i o + bool_to_ℕ (remove && (r.1 && (ip == i && opcode == o)))
          ≡ open_requests now t i o)

-- `contains` answers whether a request for the address and the opcode is open, and with `remove` it
-- closes one of them, and none of any other address or opcode.
pub contains_lem :
    (now : ℕ) (t : OutboundRequestTracker) (ip opcode : ℕ) (remove : Bool)
    → Descending t.entries
    → ((contains now t ip opcode remove).1 ≡ ltb 0 (open_requests now t ip opcode))
      × ((i o : ℕ)
          → open_requests now (contains now t ip opcode remove).0 i o
              + bool_to_ℕ
                  (remove && ((contains now t ip opcode remove).1 && (ip == i && opcode == o)))
            ≡ open_requests now t i o)
contains_lem now t ip opcode remove d =
    elim (Option-cases (find_if (matches ip opcode) (pop_expired now t.window t.entries))) [
      | inl h ↦
          subst (Answers now t ip opcode remove) (sym (contains_missing now t ip opcode remove h))
            (missing h)
      | inr (e, h) ↦
          subst (Answers now t ip opcode remove) (sym (contains_found now t ip opcode remove e h))
            (found remove e h)
    ]
  where
    kept : pop_expired now t.window t.entries ≡ keep_if (live now t.window) t.entries
    kept = pop_expired-keep_if now t.window t.entries d

    still : (i o : ℕ) → open_requests now (prune_outbound now t) i o ≡ open_requests now t i o
    still i o =
        unfold prune_outbound in
        ap (count_if (λ e. matches i o e && not (is_expired now t.window e))) kept
        ∙ count_live_twice (matches i o) now t.window t.entries

    missing :
        find_if (matches ip opcode) (pop_expired now t.window t.entries) ≡ none
        → Answers now t ip opcode remove (prune_outbound now t, false)
    missing h =
        let z : open_requests now t ip opcode ≡ 0 =
          find_none-live (matches ip opcode) now t.window t.entries
            (subst (λ l. find_if (matches ip opcode) l ≡ none) kept h) in
        (ground (arith, z), λ i o. ground (arith, still i o))

    closed :
        (e : OutboundRequestEntry)
        → find_if (matches ip opcode) (pop_expired now t.window t.entries) ≡ some e
        → (i o : ℕ)
        → open_requests now
              (record t {
                entries = remove_first (matches ip opcode) (pop_expired now t.window t.entries);
              })
              i
              o
            + bool_to_ℕ (ip == i && opcode == o)
          ≡ open_requests now t i o
    closed e h i o =
        let f : find_if (matches ip opcode) (keep_if (live now t.window) t.entries) ≡ some e =
          subst (λ l. find_if (matches ip opcode) l ≡ some e) kept h in
        let (m, l) = find_live (matches ip opcode) now t.window t.entries e f in
        omega (
          arith,
          ap
              (λ k.
                count_if (λ x. matches i o x && not (is_expired now t.window x))
                  (remove_first (matches ip opcode) k))
              kept,
          count_if-remove_first (matches ip opcode)
              (λ x. matches i o x && not (is_expired now t.window x))
              (keep_if (live now t.window) t.entries) f,
          count_live_twice (matches i o) now t.window t.entries,
          match_bit ip opcode i o e (is_expired now t.window e) m l,
        )

    found :
        (b : Bool) (e : OutboundRequestEntry)
        → find_if (matches ip opcode) (pop_expired now t.window t.entries) ≡ some e
        → Answers now t ip opcode b (
          if b
              then record t {
                entries = remove_first (matches ip opcode) (pop_expired now t.window t.entries);
              }
              else prune_outbound now t,
          true,
        )
    found true e h = (ground (arith, closed e h ip opcode), closed e h)
    found false e h = (ground (arith, closed e h ip opcode), λ i o. omega (arith, still i o))
