-- ===== src/Kad/Utf8.antt =====
-- Rust's `str::from_utf8` and `String::from_utf8_lossy`, which the Kad codecs call. A string is the
-- list of its bytes; a maximal part of an invalid sequence becomes one replacement character.
use p2p_overlord_agents.Base.{
  ℕ, ◌-◌, ◌≡◌, refl, sym, ap, ◌∙◌, inl, inr, Bool, true, false, ◌&&◌, Option, none, some, List, [],
  ◌∷◌, ◌++◌, append_assoc, append-nil, arith, leb, ◌==◌, if◌then◌else◌, Option-cases,
}

abbrev pub Text : Type 0
Text = List ℕ

-- Between two characters, or within one: its bytes so far, how many are missing, and the range of the
-- next.
pub data Utf8State : Type 0 where
  between : Utf8State
  within : List ℕ → ℕ → ℕ → ℕ → Utf8State

abbrev pub in_range : ℕ → ℕ → ℕ → Bool
in_range lo hi b = leb lo b && leb b hi

abbrev lead : ℕ → ℕ → ℕ → ℕ → Option (List ℕ × Utf8State)
lead b missing lo hi = some ([], within (b ∷ []) missing lo hi)

-- The first byte of a character; `none` where no character begins with it.
unfoldable pub start : ℕ → Option (List ℕ × Utf8State)
start b =
    if leb b 0x7F
    then some (b ∷ [], between)
    else if in_range 0xC2 0xDF b
    then lead b 1 0x80 0xBF
    else if b == 0xE0
    then lead b 2 0xA0 0xBF
    else if b == 0xED
    then lead b 2 0x80 0x9F
    else if in_range 0xE1 0xEF b
    then lead b 2 0x80 0xBF
    else if b == 0xF0
    then lead b 3 0x90 0xBF
    else if in_range 0xF1 0xF3 b
    then lead b 3 0x80 0xBF
    else if b == 0xF4
    then lead b 3 0x80 0x8F
    else none

-- The bytes that are complete, and the state; `none` where the byte does not continue the character.
unfoldable pub step : Utf8State → ℕ → Option (List ℕ × Utf8State)
unfolding start
step between b = start b
step (within acc missing lo hi) b =
    if in_range lo hi b
    then (if leb missing 1
        then some (acc ++ (b ∷ []), between)
        else some ([], within (acc ++ (b ∷ [])) (missing - 1) 0x80 0xBF))
    else none

-- U+FFFD
abbrev replacement : Text
replacement = 0xEF ∷ 0xBF ∷ 0xBD ∷ []

abbrev or_replaced : Option (List ℕ × Utf8State) → List ℕ × Utf8State
or_replaced none = (replacement, between)
or_replaced (some r) = r

-- A byte that does not continue a character ends it, and is read as the first of another.
unfoldable pub feed : Utf8State → ℕ → List ℕ × Utf8State
unfolding step
feed between b = or_replaced (step between b)
feed (within acc missing lo hi) b = elim (step (within acc missing lo hi) b) [
  | some r ↦ r
  | none ↦ let (out, st) = or_replaced (step between b) in (replacement ++ out, st)
]

unfoldable pub lossy_from : Utf8State → List ℕ → Text
unfolding feed
lossy_from between [] = []
lossy_from (within acc missing lo hi) [] = replacement
lossy_from st (b ∷ bs) = let (out, st') = feed st b in out ++ lossy_from st' bs

unfoldable pub from_utf8_lossy : List ℕ → Text
unfolding lossy_from
from_utf8_lossy bs = lossy_from between bs

-- Whether the rest completes the character and holds only whole ones.
unfoldable pub accepts : Utf8State → List ℕ → Bool
unfolding step
accepts between [] = true
accepts (within acc missing lo hi) [] = false
accepts st (b ∷ bs) = elim (step st b) [ none ↦ false | some (out, st') ↦ accepts st' bs ]

-- `str::from_utf8(bytes).is_ok()`
unfoldable pub is_utf8 : List ℕ → Bool
unfolding accepts
is_utf8 bs = accepts between bs

abbrev unfinished : Utf8State → List ℕ
unfinished between = []
unfinished (within acc missing lo hi) = acc

-- A step gives out the bytes that it has, or keeps them.
step_bytes :
    (st : Utf8State) (b : ℕ) (out : List ℕ) (st' : Utf8State)
    → step st b ≡ some (out, st')
    → out ++ unfinished st' ≡ unfinished st ++ (b ∷ [])
unfolding step start
step_bytes between b out st' e = ground arith
step_bytes (within acc missing lo hi) b out st' e = ground (arith, append-nil (acc ++ (b ∷ [])))

feed-step : (st : Utf8State) (b : ℕ) (r : List ℕ × Utf8State) → step st b ≡ some r → feed st b ≡ r
unfolding feed
feed-step between b r e = rw e
feed-step (within acc missing lo hi) b r e = rw (e, feed)

accepts-step :
    (st : Utf8State) (b : ℕ) (bs : List ℕ)
    → accepts st (b ∷ bs) ≡ true
    → (out : List ℕ) × (st' : Utf8State) × (step st b ≡ some (out, st')) × (accepts st' bs ≡ true)
unfolding accepts
accepts-step st b bs h = elim (Option-cases (step st b)) [
  | inl e ↦ absurd (ground (arith, rw (e, accepts) at h))
  | inr ((out, st'), e) ↦ (out, st', e, rw (e, accepts) at h)
]

lossy_valid :
    (st : Utf8State) (bs : List ℕ) → accepts st bs ≡ true → lossy_from st bs ≡ unfinished st ++ bs
unfolding lossy_from
lossy_valid between [] h = refl
lossy_valid (within acc missing lo hi) [] h = unfold accepts in cc h
lossy_valid st (b ∷ bs) h =
    let (out, st', e, h') = accepts-step st b bs h in
    rw (feed-step st b (out, st') e, lossy_from)
      (ap (λ xs. out ++ xs) (lossy_valid st' bs h')
        ∙ sym (append_assoc out (unfinished st') bs)
        ∙ ap (λ xs. xs ++ bs) (step_bytes st b out st' e)
        ∙ append_assoc (unfinished st) (b ∷ []) bs)

-- Valid text is read as it is.
pub from_utf8_lossy_valid : (bs : List ℕ) → is_utf8 bs ≡ true → from_utf8_lossy bs ≡ bs
unfolding from_utf8_lossy is_utf8
from_utf8_lossy_valid bs h = lossy_valid between bs h
