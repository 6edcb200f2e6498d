-- ===== src/Store/Expr.antt =====
-- crates/overlord-agent-emule/src/kad_search_expr.rs: the search expression of a restrictive keyword
-- search, its parser and its meaning. A string is the list of its bytes: the delimiters are ASCII, so
-- that no byte of a longer character is one. `to_lowercase` stands for `str::to_lowercase`.
use p2p_overlord_agents.Base.{
  ℕ, zero, suc, Bool, true, false, not, ◌&&◌, ◌||◌, Option, none, some, List, [], ◌∷◌, ltb, leb,
  ◌==◌, if◌then◌else◌, same, any, length,
}
use p2p_overlord_agents.Kad.Utf8.{Text, from_utf8_lossy}
use p2p_overlord_agents.Kad.Wire.{Reading, done, failed, read_le, read_exact}
use p2p_overlord_agents.Kad.TagNames
use p2p_overlord_agents.Kad.Tag.{
  Tag, TagName, TagValue, hash, string, uint, u64, u32, u16, u8, float, bool, blob, small_blob,
  is_short, name_of, TagName-discrete, Text-discrete,
}
use p2p_overlord_agents.Store.FileSize.{file_size_tag_value}

pub data NumericOp : Type 0 where
  equal greater less greater_equal less_equal not_equal : NumericOp

pub data SearchTerm : Type 0 where
  and_term : SearchTerm → SearchTerm → SearchTerm
  or_term : SearchTerm → SearchTerm → SearchTerm
  not_term : SearchTerm → SearchTerm → SearchTerm
  string_term : List Text → SearchTerm
  meta_string : TagName → Text → SearchTerm
  numeric : TagName → NumericOp → ℕ → SearchTerm

-- `Result<A, ()>` of a reader: the value and the rest of the payload.
abbrev pub Parsed {ℓ} : Type ℓ → Type ℓ
Parsed A = Option (A × List ℕ)

abbrev pub parse_then {ℓ κ} :
    {A : Type ℓ} {B : Type κ} → Parsed A → (A → List ℕ → Parsed B) → Parsed B
parse_then none f = none
parse_then (some (a, rest)) f = f a rest

-- `map_err(|_| ())`
abbrev pub parsed {ℓ} : {A : Type ℓ} → Reading A → Parsed A
parsed (done a rest) = some (a, rest)
parsed (failed e) = none

unfoldable pub read_u8 : List ℕ → Parsed ℕ
read_u8 bs = parsed (read_le 1 bs)

unfoldable pub read_u16 : List ℕ → Parsed ℕ
read_u16 bs = parsed (read_le 2 bs)

unfoldable pub read_u32 : List ℕ → Parsed ℕ
read_u32 bs = parsed (read_le 4 bs)

unfoldable pub read_u64 : List ℕ → Parsed ℕ
read_u64 bs = parsed (read_le 8 bs)

unfoldable pub read_tag_name : List ℕ → Parsed TagName
unfolding read_u16 name_of
read_tag_name bs = parse_then (read_u16 bs) λ len bs.
    parse_then (parsed (read_exact len bs)) λ bytes bs. some (name_of from_utf8_lossy bytes, bs)

-- `INVALID_KAD_KEYWORD_CHARS`
abbrev pub invalid_kad_keyword_chars : List ℕ
invalid_kad_keyword_chars =
    32 ∷ 40 ∷ 41 ∷ 91 ∷ 93 ∷ 123 ∷ 125 ∷ 60 ∷ 62 ∷ 44 ∷ 46 ∷ 95 ∷ 45 ∷ 33 ∷ 63 ∷ 58 ∷ 59 ∷ 92 ∷ 47
    ∷ 34 ∷ []

abbrev pub is_quote : ℕ → Bool
is_quote c = c == 34

abbrev pub is_separator : ℕ → Bool
is_separator c = any (λ d. d == c) invalid_kad_keyword_chars

-- Where the loop is: between terms, in a word, or behind an opening quote; the characters so far,
-- the last first.
pub data TokenState : Type 0 where
  in_word : List ℕ → TokenState
  in_quotes : List ℕ → TokenState

abbrev rev_onto : List ℕ → List ℕ → List ℕ
rev_onto [] acc = acc
rev_onto (c ∷ cs) acc = rev_onto cs (c ∷ acc)

-- A term that is not empty is pushed.
abbrev pub push_term : List ℕ → List Text → List Text
push_term [] terms = terms
push_term (c ∷ cs) terms = rev_onto (c ∷ cs) [] ∷ terms

-- The rest of the loop. A quote that is not closed gives no term.
unfoldable pub tokenize_from : TokenState → Text → List Text
tokenize_from (in_word cs) [] = push_term cs []
tokenize_from (in_quotes cs) [] = []
tokenize_from (in_word cs) (c ∷ text) =
    if is_quote c
    then push_term cs (tokenize_from (in_quotes []) text)
    else if is_separator c
    then push_term cs (tokenize_from (in_word []) text)
    else tokenize_from (in_word (c ∷ cs)) text
tokenize_from (in_quotes cs) (c ∷ text) =
    if is_quote c
    then push_term cs (tokenize_from (in_word []) text)
    else tokenize_from (in_quotes (c ∷ cs)) text

unfoldable pub tokenize_opt_quoted_search_term : Text → List Text
unfolding tokenize_from
tokenize_opt_quoted_search_term text = tokenize_from (in_word []) text

-- `str::starts_with` and `str::contains`
unfoldable pub starts_with : Text → Text → Bool
starts_with text [] = true
starts_with [] (c ∷ cs) = false
starts_with (d ∷ ds) (c ∷ cs) = d == c && starts_with ds cs

unfoldable pub contains : Text → Text → Bool
unfolding starts_with
contains [] cs = starts_with [] cs
contains (d ∷ ds) cs = starts_with (d ∷ ds) cs || contains ds cs

unfoldable pub string_terms_match : Text → List Text → Bool
unfolding contains
string_terms_match filename_lower terms =
    not (length terms == 0) && not (any (λ t. not (contains filename_lower t)) terms)

-- What follows the last dot, where there is one: `rsplit_once('.')`.
unfoldable pub after_last_dot : Text → Option Text
after_last_dot [] = none
after_last_dot (c ∷ text) = elim (after_last_dot text) [
  | some extension ↦ some extension
  | none ↦ if c == 46 then some text else none
]

-- `int_tag_value` of one tag.
unfoldable pub int_value : TagValue → Option ℕ
int_value (uint n) = some n
int_value (u64 n) = some n
int_value (u32 n) = some n
int_value (u16 n) = some n
int_value (u8 n) = some n
int_value (hash _) = none
int_value (string _) = none
int_value (float _) = none
int_value (bool _) = none
int_value (blob _) = none
int_value (small_blob _) = none

unfoldable pub first_int : List Tag → TagName → Option ℕ
unfolding int_value
first_int [] name = none
first_int (t ∷ ts) name =
    let rest = first_int ts name in
    if same TagName-discrete t.name name
    then elim (int_value t.value) [ some n ↦ some n | none ↦ rest ]
    else rest

unfoldable pub int_tag_value : List Tag → TagName → Option ℕ
unfolding first_int
int_tag_value tags name =
    if is_short TagNames.filesize name then file_size_tag_value tags else first_int tags name

unfoldable pub compare_numeric : NumericOp → ℕ → ℕ → Bool
compare_numeric equal actual expected = actual == expected
compare_numeric greater actual expected = ltb expected actual
compare_numeric less actual expected = ltb actual expected
compare_numeric greater_equal actual expected = leb expected actual
compare_numeric less_equal actual expected = leb actual expected
compare_numeric not_equal actual expected = not (actual == expected)

unfoldable pub numeric_matches : List Tag → TagName → NumericOp → ℕ → Bool
unfolding int_tag_value compare_numeric
numeric_matches tags name op expected = elim (int_tag_value tags name) [
  | none ↦ false
  | some actual ↦ compare_numeric op actual expected
]

unfoldable pub numeric_op : ℕ → Option NumericOp
numeric_op code =
    if code == 0x00
    then some equal
    else if code == 0x01
    then some greater
    else if code == 0x02
    then some less
    else if code == 0x03
    then some greater_equal
    else if code == 0x04
    then some less_equal
    else if code == 0x05
    then some not_equal
    else none

abbrev pub max_search_expr_depth : ℕ
max_search_expr_depth = 24

unfoldable pub parse_numeric_term : ℕ → List ℕ → Parsed SearchTerm
unfolding read_u8 read_tag_name numeric_op
parse_numeric_term value bs = parse_then (read_u8 bs) λ code bs. elim (numeric_op code) [
  | none ↦ none
  | some op ↦ parse_then (read_tag_name bs) λ name bs. some (numeric name op value, bs)
]

-- The boolean operator is read first and judged last.
unfoldable pub parse_boolean_term : (List ℕ → Parsed SearchTerm) → List ℕ → Parsed SearchTerm
unfolding read_u8
parse_boolean_term parse bs = parse_then (read_u8 bs) λ code bs. parse_then (parse bs) λ left bs.
    parse_then (parse bs) λ right bs.
      if code == 0x00
      then some (and_term left right, bs)
      else if code == 0x01
      then some (or_term left right, bs)
      else if code == 0x02
      then some (not_term left right, bs)
      else none

module _ (to_lowercase : Text → Text) where
  unfoldable pub read_lower_string : List ℕ → Parsed Text
  unfolding read_u16
  read_lower_string bs = parse_then (read_u16 bs) λ len bs.
      parse_then (parsed (read_exact len bs))
        λ bytes bs. some (to_lowercase (from_utf8_lossy bytes), bs)

  -- The first argument is `MAX_SEARCH_EXPR_DEPTH - depth`, the levels that are left.
  unfoldable pub parse_search_term : ℕ → List ℕ → Parsed SearchTerm
  unfolding read_u8 read_u32 read_u64 read_lower_string read_tag_name
  parse_search_term zero bs = none
  parse_search_term (suc levels) bs = parse_then (read_u8 bs) λ op bs.
      if op == 0x00
      then parse_boolean_term (parse_search_term levels) bs
      else if op == 0x01
      then parse_then (read_lower_string bs)
          (λ value bs. some (string_term (tokenize_opt_quoted_search_term value), bs))
      else if op == 0x02
      then parse_then (read_lower_string bs)
          (λ value bs. parse_then (read_tag_name bs) λ name bs. some (meta_string name value, bs))
      else if op == 0x03
      then parse_then (read_u32 bs) parse_numeric_term
      else if op == 0x08
      then parse_then (read_u64 bs) parse_numeric_term
      else none

  -- A string whose lower case is the value.
  abbrev is_lower_string : Text → TagValue → Bool
  is_lower_string value (string s) = same Text-discrete (to_lowercase s) value
  is_lower_string value (hash _) = false
  is_lower_string value (uint _) = false
  is_lower_string value (u64 _) = false
  is_lower_string value (u32 _) = false
  is_lower_string value (u16 _) = false
  is_lower_string value (u8 _) = false
  is_lower_string value (float _) = false
  is_lower_string value (bool _) = false
  is_lower_string value (blob _) = false
  is_lower_string value (small_blob _) = false

  unfoldable pub meta_string_matches : Text → List Tag → TagName → Text → Bool
  unfolding after_last_dot
  meta_string_matches filename_lower tags name value =
      if is_short TagNames.fileformat name
      then elim (after_last_dot filename_lower) [
        | none ↦ false
        | some extension ↦ same Text-discrete extension value
      ]
      else any (λ (t : Tag). same TagName-discrete t.name name && is_lower_string value t.value)
          tags

  unfoldable pub matches_with_lower_filename : SearchTerm → Text → List Tag → Bool
  unfolding string_terms_match meta_string_matches numeric_matches
  matches_with_lower_filename (and_term l r) file tags =
      matches_with_lower_filename l file tags && matches_with_lower_filename r file tags
  matches_with_lower_filename (or_term l r) file tags =
      matches_with_lower_filename l file tags || matches_with_lower_filename r file tags
  matches_with_lower_filename (not_term l r) file tags =
      matches_with_lower_filename l file tags && not (matches_with_lower_filename r file tags)
  matches_with_lower_filename (string_term terms) file tags = string_terms_match file terms
  matches_with_lower_filename (meta_string name value) file tags =
      meta_string_matches file tags name value
  matches_with_lower_filename (numeric name op value) file tags = numeric_matches tags name op value

  unfoldable pub matches_restrictive_keyword_payload : Text → List Tag → List ℕ → Bool
  unfolding parse_search_term matches_with_lower_filename
  matches_restrictive_keyword_payload filename tags payload =
      elim (parse_search_term max_search_expr_depth payload) [
        | none ↦ false
        | some (term, _) ↦ matches_with_lower_filename term (to_lowercase filename) tags
      ]
