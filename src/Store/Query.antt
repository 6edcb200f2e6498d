-- ===== src/Store/Query.antt =====
-- kad_search_expr.rs: search expressions as eMule writes them, and that the parser reads them back.
use p2p_overlord_agents.Base.{
  ℕ, zero, suc, ◌+◌, ◌^◌, ◌≤◌, ◌<◌, max, ◌≡◌, ◌≢◌, ◌⊎◌, refl, ap, ◌∙◌, true, false, none, some,
  List, [], ◌∷◌, ◌++◌, append_assoc, arith, length, inl, inr, ◌==◌, if◌then◌else◌,
}
use p2p_overlord_agents.Kad.Utf8.{Text, from_utf8_lossy, is_utf8, from_utf8_lossy_valid}
use p2p_overlord_agents.Kad.Wire.{
  read_le, read_exact, write_le, read_le-write_le, read_exact-append,
}
use p2p_overlord_agents.Kad.Tag.{Tag, TagName, short, long, name_of}
use p2p_overlord_agents.Store.Expr.{
  NumericOp, equal, greater, less, greater_equal, less_equal, not_equal, SearchTerm, and_term,
  or_term, not_term, string_term, meta_string, numeric, Parsed, parse_then, parsed, read_u8,
  read_u16, read_u32, read_u64, read_tag_name, numeric_op, tokenize_opt_quoted_search_term,
  read_lower_string, parse_numeric_term, parse_boolean_term, parse_search_term,
  max_search_expr_depth, matches_restrictive_keyword_payload,
}

-- A search expression as it is written: numbers of 32 and of 64 bits have an operator code each.
pub data Query : Type 0 where
  both either except : Query → Query → Query
  words : Text → Query
  tagged : TagName → Text → Query
  number_u32 number_u64 : TagName → NumericOp → ℕ → Query

abbrev op_code : NumericOp → ℕ
op_code equal = 0x00
op_code greater = 0x01
op_code less = 0x02
op_code greater_equal = 0x03
op_code less_equal = 0x04
op_code not_equal = 0x05

abbrev text_bytes : Text → List ℕ
text_bytes s = write_le 2 (length s) ++ s

abbrev name_bytes : TagName → List ℕ
name_bytes (short b) = text_bytes (b ∷ [])
name_bytes (long s) = text_bytes s

unfoldable pub encode : Query → List ℕ
encode (both q r) = 0x00 ∷ 0x00 ∷ (encode q ++ encode r)
encode (either q r) = 0x00 ∷ 0x01 ∷ (encode q ++ encode r)
encode (except q r) = 0x00 ∷ 0x02 ∷ (encode q ++ encode r)
encode (words s) = 0x01 ∷ text_bytes s
encode (tagged name s) = 0x02 ∷ (text_bytes s ++ name_bytes name)
encode (number_u32 name op n) = 0x03 ∷ (write_le 4 n ++ (op_code op ∷ name_bytes name))
encode (number_u64 name op n) = 0x08 ∷ (write_le 8 n ++ (op_code op ∷ name_bytes name))

unfoldable pub depth : Query → ℕ
depth (both q r) = 1 + max (depth q) (depth r)
depth (either q r) = 1 + max (depth q) (depth r)
depth (except q r) = 1 + max (depth q) (depth r)
depth (words s) = 1
depth (tagged name s) = 1
depth (number_u32 name op n) = 1
depth (number_u64 name op n) = 1

-- A string that its length field can count.
abbrev IsText : Text → Type 0
IsText s = (length s < 2 ^ 16) × (is_utf8 s ≡ true)

-- A long name of one byte would be read as a short one.
abbrev IsQueryName : TagName → Type 0
IsQueryName (short b) = Unit {0}
IsQueryName (long s) = IsText s × (length s ≢ 1)

unfoldable pub IsQuery : Query → Type 0
IsQuery (both q r) = IsQuery q × IsQuery r
IsQuery (either q r) = IsQuery q × IsQuery r
IsQuery (except q r) = IsQuery q × IsQuery r
IsQuery (words s) = IsText s
IsQuery (tagged name s) = IsQueryName name × IsText s
IsQuery (number_u32 name op n) = IsQueryName name × (n < 2 ^ 32)
IsQuery (number_u64 name op n) = IsQueryName name × (n < 2 ^ 64)

read_u8_lem : (b : ℕ) (bs : List ℕ) → read_u8 (b ∷ bs) ≡ some (b, bs)
unfolding read_u8 read_le
read_u8_lem b bs = ap (λ n. some (n, bs)) (omega arith)

read_u16_lem :
    (n : ℕ) (rest : List ℕ) → n < 2 ^ 16 → read_u16 (write_le 2 n ++ rest) ≡ some (n, rest)
unfolding read_u16
read_u16_lem n rest h = ap parsed (read_le-write_le 2 n rest (omega (arith, h)))

read_u32_lem :
    (n : ℕ) (rest : List ℕ) → n < 2 ^ 32 → read_u32 (write_le 4 n ++ rest) ≡ some (n, rest)
unfolding read_u32
read_u32_lem n rest h = ap parsed (read_le-write_le 4 n rest (omega (arith, h)))

read_u64_lem :
    (n : ℕ) (rest : List ℕ) → n < 2 ^ 64 → read_u64 (write_le 8 n ++ rest) ≡ some (n, rest)
unfolding read_u64
read_u64_lem n rest h = ap parsed (read_le-write_le 8 n rest (omega (arith, h)))

-- A text behind its length.
read_text :
    {B : Type 0} (s rest : List ℕ) (f : List ℕ → List ℕ → Parsed B)
    → length s < 2 ^ 16
    → parse_then
        (read_u16 (text_bytes s ++ rest))
        (λ len bs. parse_then (parsed (read_exact len bs)) f)
      ≡ f s rest
read_text s rest f h =
    rw (append_assoc (write_le 2 (length s)) s rest)
      (rw (read_u16_lem (length s) (s ++ rest) h) (rw (read_exact-append s rest) refl))

name_of_long : (s : Text) → length s ≢ 1 → name_of from_utf8_lossy s ≡ long (from_utf8_lossy s)
unfolding name_of
name_of_long [] n = refl
name_of_long (b ∷ []) n = absurd (n refl)
name_of_long (b ∷ c ∷ s) n = refl

read_tag_name_lem :
    (name : TagName) (rest : List ℕ)
    → IsQueryName name
    → read_tag_name (name_bytes name ++ rest) ≡ some (name, rest)
unfolding read_tag_name
read_tag_name_lem (short b) rest h =
    read_text (b ∷ []) rest (λ bytes bs. some (name_of from_utf8_lossy bytes, bs)) (omega arith)
    ∙ (unfold name_of in refl)
read_tag_name_lem (long s) rest ((l, u), n) =
    read_text s rest (λ bytes bs. some (name_of from_utf8_lossy bytes, bs)) l
    ∙ ap (λ x. some (x, rest)) (name_of_long s n ∙ ap long (from_utf8_lossy_valid s u))

numeric_op_lem : (op : NumericOp) → numeric_op (op_code op) ≡ some op
unfolding numeric_op
numeric_op_lem equal = refl
numeric_op_lem greater = refl
numeric_op_lem less = refl
numeric_op_lem greater_equal = refl
numeric_op_lem less_equal = refl
numeric_op_lem not_equal = refl

module _ (to_lowercase : Text → Text) where
  -- What the expression means to the matcher: strings in lower case, split into words.
  unfoldable pub term_of : Query → SearchTerm
  term_of (both q r) = and_term (term_of q) (term_of r)
  term_of (either q r) = or_term (term_of q) (term_of r)
  term_of (except q r) = not_term (term_of q) (term_of r)
  term_of (words s) = string_term (tokenize_opt_quoted_search_term (to_lowercase s))
  term_of (tagged name s) = meta_string name (to_lowercase s)
  term_of (number_u32 name op n) = numeric name op n
  term_of (number_u64 name op n) = numeric name op n

  read_lower_string_lem :
      (s rest : List ℕ)
      → IsText s
      → read_lower_string to_lowercase (text_bytes s ++ rest) ≡ some (to_lowercase s, rest)
  unfolding read_lower_string
  read_lower_string_lem s rest (l, u) =
      read_text s rest (λ bytes bs. some (to_lowercase (from_utf8_lossy bytes), bs)) l
      ∙ ap (λ x. some (to_lowercase x, rest)) (from_utf8_lossy_valid s u)

  parse_numeric_lem :
      (name : TagName) (op : NumericOp) (n : ℕ) (rest : List ℕ)
      → IsQueryName name
      → parse_numeric_term n (op_code op ∷ (name_bytes name ++ rest))
        ≡ some (numeric name op n, rest)
  unfolding parse_numeric_term
  parse_numeric_lem name op n rest h =
      rw (read_u8_lem (op_code op) (name_bytes name ++ rest))
        (rw (numeric_op_lem op, parse_then) (rw (read_tag_name_lem name rest h) refl))

  -- The term of a boolean operator code.
  unfoldable joined : ℕ → SearchTerm → SearchTerm → List ℕ → Parsed SearchTerm
  joined code left right bs =
      if code == 0x00
      then some (and_term left right, bs)
      else if code == 0x01
      then some (or_term left right, bs)
      else if code == 0x02
      then some (not_term left right, bs)
      else none

  boolean :
      (levels code : ℕ) (q r : Query) (rest : List ℕ)
      → parse_search_term to_lowercase levels (encode q ++ (encode r ++ rest))
        ≡ some (term_of q, encode r ++ rest)
      → parse_search_term to_lowercase levels (encode r ++ rest) ≡ some (term_of r, rest)
      → parse_boolean_term
          (parse_search_term to_lowercase levels)
          (code ∷ ((encode q ++ encode r) ++ rest))
        ≡ joined code (term_of q) (term_of r) rest
  unfolding parse_boolean_term joined
  boolean levels code q r rest eq er =
      rw (read_u8_lem code ((encode q ++ encode r) ++ rest))
        (rw (append_assoc (encode q) (encode r) rest) (rw eq (rw er refl)))

  boolean_to :
      (levels code : ℕ) (q r : Query) (rest : List ℕ) {out : Parsed SearchTerm}
      → parse_search_term to_lowercase levels (encode q ++ (encode r ++ rest))
        ≡ some (term_of q, encode r ++ rest)
      → parse_search_term to_lowercase levels (encode r ++ rest) ≡ some (term_of r, rest)
      → joined code (term_of q) (term_of r) rest ≡ out
      → parse_boolean_term
          (parse_search_term to_lowercase levels)
          (code ∷ ((encode q ++ encode r) ++ rest))
        ≡ out
  boolean_to levels code q r rest eq er e = boolean levels code q r rest eq er ∙ e

  -- The parser reads back every expression of at most as many levels as are left.
  parse-encode :
      (levels : ℕ) (q : Query) (rest : List ℕ)
      → depth q ≤ levels
      → IsQuery q
      → parse_search_term to_lowercase levels (encode q ++ rest) ≡ some (term_of q, rest)
  unfolding parse_search_term encode depth IsQuery
  parse-encode zero (both q r) rest d h = absurd (omega (arith, d))
  parse-encode zero (either q r) rest d h = absurd (omega (arith, d))
  parse-encode zero (except q r) rest d h = absurd (omega (arith, d))
  parse-encode zero (words s) rest d h = absurd (omega (arith, d))
  parse-encode zero (tagged name s) rest d h = absurd (omega (arith, d))
  parse-encode zero (number_u32 name op n) rest d h = absurd (omega (arith, d))
  parse-encode zero (number_u64 name op n) rest d h = absurd (omega (arith, d))
  parse-encode (suc levels) (both q r) rest d (hq, hr) =
      rw (read_u8_lem 0x00 (0x00 ∷ ((encode q ++ encode r) ++ rest))) (
        boolean_to levels 0x00 q r rest
          (parse-encode levels q (encode r ++ rest) (omega (arith, d)) hq)
          (parse-encode levels r rest (omega (arith, d)) hr) (unfold joined term_of in refl))
  parse-encode (suc levels) (either q r) rest d (hq, hr) =
      rw (read_u8_lem 0x00 (0x01 ∷ ((encode q ++ encode r) ++ rest))) (
        boolean_to levels 0x01 q r rest
          (parse-encode levels q (encode r ++ rest) (omega (arith, d)) hq)
          (parse-encode levels r rest (omega (arith, d)) hr) (unfold joined term_of in refl))
  parse-encode (suc levels) (except q r) rest d (hq, hr) =
      rw (read_u8_lem 0x00 (0x02 ∷ ((encode q ++ encode r) ++ rest))) (
        boolean_to levels 0x02 q r rest
          (parse-encode levels q (encode r ++ rest) (omega (arith, d)) hq)
          (parse-encode levels r rest (omega (arith, d)) hr) (unfold joined term_of in refl))
  parse-encode (suc levels) (words s) rest d h =
      rw (read_u8_lem 0x01 (text_bytes s ++ rest))
        (rw (read_lower_string_lem s rest h) (unfold term_of in refl))
  parse-encode (suc levels) (tagged name s) rest d (hn, hs) =
      rw (read_u8_lem 0x02 ((text_bytes s ++ name_bytes name) ++ rest)) (
        rw (append_assoc (text_bytes s) (name_bytes name) rest) (
          rw (read_lower_string_lem s (name_bytes name ++ rest) hs)
            (rw (read_tag_name_lem name rest hn) (unfold term_of in refl))))
  parse-encode (suc levels) (number_u32 name op n) rest d (hn, l) =
      rw (read_u8_lem 0x03 ((write_le 4 n ++ (op_code op ∷ name_bytes name)) ++ rest)) (
        rw (append_assoc (write_le 4 n) (op_code op ∷ name_bytes name) rest) (
          rw (read_u32_lem n (op_code op ∷ (name_bytes name ++ rest)) l)
            (parse_numeric_lem name op n rest hn ∙ (unfold term_of in refl))))
  parse-encode (suc levels) (number_u64 name op n) rest d (hn, l) =
      rw (read_u8_lem 0x08 ((write_le 8 n ++ (op_code op ∷ name_bytes name)) ++ rest)) (
        rw (append_assoc (write_le 8 n) (op_code op ∷ name_bytes name) rest) (
          rw (read_u64_lem n (op_code op ∷ (name_bytes name ++ rest)) l)
            (parse_numeric_lem name op n rest hn ∙ (unfold term_of in refl))))

  -- The bytes of every search expression of at most 24 levels, in which each string is UTF-8 of less
  -- than 65,536 bytes, each long name has not just one byte, and each number fits its width, are
  -- parsed to the meaning of the expression, whatever follows them.
  pub parse_search_term-encode :
      (q : Query) (rest : List ℕ)
      → depth q ≤ 24
      → IsQuery q
      → parse_search_term to_lowercase max_search_expr_depth (encode q ++ rest)
        ≡ some (term_of q, rest)
  parse_search_term-encode q rest d h = parse-encode 24 q rest d h

  boolean_none :
      (levels code : ℕ) (q r : Query) (rest : List ℕ)
      → (parse_search_term to_lowercase levels (encode q ++ (encode r ++ rest)) ≡ none)
        ⊎ ((parse_search_term to_lowercase levels (encode q ++ (encode r ++ rest))
              ≡ some (term_of q, encode r ++ rest))
            × (parse_search_term to_lowercase levels (encode r ++ rest) ≡ none))
      → parse_boolean_term
          (parse_search_term to_lowercase levels)
          (code ∷ ((encode q ++ encode r) ++ rest))
        ≡ none
  unfolding parse_boolean_term
  boolean_none levels code q r rest (inl eq) =
      rw (read_u8_lem code ((encode q ++ encode r) ++ rest))
        (rw (append_assoc (encode q) (encode r) rest) (rw eq refl))
  boolean_none levels code q r rest (inr (eq, er)) =
      rw (read_u8_lem code ((encode q ++ encode r) ++ rest))
        (rw (append_assoc (encode q) (encode r) rest) (rw eq (rw er refl)))

  deep_or_not : (levels : ℕ) (q : Query) → (levels < depth q) ⊎ (depth q ≤ levels)
  deep_or_not levels q = let n = depth q in ground arith

  -- An expression of more levels than are left is refused.
  parse_too_deep :
      (levels : ℕ) (q : Query) (rest : List ℕ)
      → levels < depth q
      → IsQuery q
      → parse_search_term to_lowercase levels (encode q ++ rest) ≡ none
  unfolding parse_search_term encode depth IsQuery
  parse_too_deep zero q rest d h = refl
  parse_too_deep (suc levels) (both q r) rest d (hq, hr) =
      rw (read_u8_lem 0x00 (0x00 ∷ ((encode q ++ encode r) ++ rest))) (
        boolean_none levels 0x00 q r rest (elim (deep_or_not levels q) [
          | inl n ↦ inl (parse_too_deep levels q (encode r ++ rest) n hq)
          | inr n ↦ inr (
            parse-encode levels q (encode r ++ rest) n hq,
            parse_too_deep levels r rest (omega (arith, d, n)) hr,
          )
        ]))
  parse_too_deep (suc levels) (either q r) rest d (hq, hr) =
      rw (read_u8_lem 0x00 (0x01 ∷ ((encode q ++ encode r) ++ rest))) (
        boolean_none levels 0x01 q r rest (elim (deep_or_not levels q) [
          | inl n ↦ inl (parse_too_deep levels q (encode r ++ rest) n hq)
          | inr n ↦ inr (
            parse-encode levels q (encode r ++ rest) n hq,
            parse_too_deep levels r rest (omega (arith, d, n)) hr,
          )
        ]))
  parse_too_deep (suc levels) (except q r) rest d (hq, hr) =
      rw (read_u8_lem 0x00 (0x02 ∷ ((encode q ++ encode r) ++ rest))) (
        boolean_none levels 0x02 q r rest (elim (deep_or_not levels q) [
          | inl n ↦ inl (parse_too_deep levels q (encode r ++ rest) n hq)
          | inr n ↦ inr (
            parse-encode levels q (encode r ++ rest) n hq,
            parse_too_deep levels r rest (omega (arith, d, n)) hr,
          )
        ]))
  parse_too_deep (suc levels) (words s) rest d h = absurd (omega (arith, d))
  parse_too_deep (suc levels) (tagged name s) rest d h = absurd (omega (arith, d))
  parse_too_deep (suc levels) (number_u32 name op n) rest d h = absurd (omega (arith, d))
  parse_too_deep (suc levels) (number_u64 name op n) rest d h = absurd (omega (arith, d))

  -- The bytes of a search expression of more than 24 levels are refused, whatever follows them, so
  -- that such a restrictive search matches no file.
  pub too_deep-refused :
      (q : Query) (rest : List ℕ) (name : Text) (tags : List Tag)
      → 24 < depth q
      → IsQuery q
      → (parse_search_term to_lowercase max_search_expr_depth (encode q ++ rest) ≡ none)
        × (matches_restrictive_keyword_payload to_lowercase name tags (encode q ++ rest) ≡ false)
  unfolding matches_restrictive_keyword_payload
  too_deep-refused q rest name tags d h =
      let e = parse_too_deep 24 q rest d h in (e, rw (e, matches_restrictive_keyword_payload) refl)
