-- ===== src/Store/FileSize.antt =====
-- kad_store.rs (`stock_first_file_size_impl`) and kad_search_expr.rs (`file_size_tag_value`) of
-- crates/overlord-agent-emule/src: the file size that a list of tags tells.
use p2p_overlord_agents.Base.{
  ℕ, ◌+◌, ◌*◌, ◌^◌, bit_or, ◌≡◌, refl, ap, ◌∙◌, Bool, true, false, ◌&&◌, Option, none, some, List,
  [], ◌∷◌, ltb, ◌==◌, if◌then◌else◌, length, arith,
}
use p2p_overlord_agents.Kad.TagNames
use p2p_overlord_agents.Kad.Tag.{
  Tag, TagValue, short, long, hash, string, uint, u64, u32, u16, u8, float, bool, blob, small_blob,
  is_short,
}

-- `Option::get_or_insert`
abbrev pub get_or_insert : Option ℕ → ℕ → Option ℕ
get_or_insert none n = some n
get_or_insert (some m) n = some m

-- `u32::try_from(n).is_ok()`
abbrev pub fits_u32 : ℕ → Bool
fits_u32 n = ltb n (2 ^ 32)

-- `u64::from_le_bytes` of a list of eight bytes.
abbrev pub from_le : List ℕ → ℕ
from_le [] = 0
from_le (b ∷ bs) = b + 256 * from_le bs

-- The three variables of the loop.
pub record Sizes : Type 0 where
  pub size : Option ℕ
  pub size_low : Option ℕ
  pub size_high : Option ℕ

abbrev pub no_sizes : Sizes
no_sizes = record { size = none; size_low = none; size_high = none }

abbrev set_size : ℕ → Sizes → Sizes
set_size n s = record s { size = get_or_insert s.size n }

abbrev set_low : ℕ → Sizes → Sizes
set_low n s = record s { size_low = get_or_insert s.size_low n }

abbrev set_high : ℕ → Sizes → Sizes
set_high n s = record s { size_high = get_or_insert s.size_high n }

-- The arms of FILESIZE and those of FILESIZE_HI.
unfoldable pub low_step : Bool → TagValue → Sizes → Sizes
low_step accept (uint n) s = if fits_u32 n then set_low n s else set_size n s
low_step accept (u64 n) s = set_size n s
low_step accept (u32 n) s = set_low n s
low_step accept (u16 n) s = set_low n s
low_step accept (u8 n) s = set_low n s
low_step accept (blob bs) s = if accept && length bs == 8 then set_size (from_le bs) s else s
low_step accept (small_blob bs) s = if accept && length bs == 8 then set_size (from_le bs) s else s
low_step accept (hash _) s = s
low_step accept (string _) s = s
low_step accept (float _) s = s
low_step accept (bool _) s = s

unfoldable pub high_step : TagValue → Sizes → Sizes
high_step (uint n) s = if fits_u32 n then set_high n s else s
high_step (u32 n) s = set_high n s
high_step (u16 n) s = set_high n s
high_step (u8 n) s = set_high n s
high_step (u64 _) s = s
high_step (blob _) s = s
high_step (small_blob _) s = s
high_step (hash _) s = s
high_step (string _) s = s
high_step (float _) s = s
high_step (bool _) s = s

unfoldable pub size_step : Bool → Tag → Sizes → Sizes
unfolding low_step high_step
size_step accept t s = elim t.name [
  | short n ↦
      if n == TagNames.filesize
      then low_step accept t.value s
      else if n == TagNames.filesize_hi
      then high_step t.value s
      else s
  | long _ ↦ s
]

unfoldable pub size_loop : Bool → List Tag → Sizes → Sizes
unfolding size_step
size_loop accept [] s = s
size_loop accept (t ∷ ts) s = size_loop accept ts (size_step accept t s)

unfoldable pub size_result : Sizes → Option ℕ
size_result s = elim s.size [
  | some n ↦ some n
  | none ↦ elim s.size_low [
    | none ↦ none
    | some low ↦ elim s.size_high [
      | none ↦ some (bit_or (0 * 2 ^ 32) low)
      | some high ↦ some (bit_or (high * 2 ^ 32) low)
    ]
  ]
]

unfoldable pub stock_first_file_size_impl : List Tag → Bool → Option ℕ
unfolding size_loop size_result
stock_first_file_size_impl tags accept = size_result (size_loop accept tags no_sizes)

unfoldable pub stock_first_file_size : List Tag → Option ℕ
unfolding stock_first_file_size_impl
stock_first_file_size tags = stock_first_file_size_impl tags false

unfoldable pub stock_first_keyword_source_file_size : List Tag → Option ℕ
unfolding stock_first_file_size_impl
stock_first_keyword_source_file_size tags = stock_first_file_size_impl tags true

unfoldable pub stock_file_size_matches_request : List Tag → ℕ → Bool → Bool
unfolding stock_first_file_size_impl
stock_file_size_matches_request tags request_size accept =
    if request_size == 0
    then true
    else elim (stock_first_file_size_impl tags accept) [ none ↦ true | some n ↦ n == request_size ]

unfoldable pub stock_source_file_size_matches_request : List Tag → ℕ → Bool
unfolding stock_file_size_matches_request
stock_source_file_size_matches_request tags n = stock_file_size_matches_request tags n true

unfoldable pub stock_notes_file_size_matches_request : List Tag → ℕ → Bool
unfolding stock_file_size_matches_request
stock_notes_file_size_matches_request tags n = stock_file_size_matches_request tags n false

-- The loop of `file_size_tag_value`, arm by arm: the first arm of an integer is the one that fits.
unfoldable pub term_size_step : Tag → Sizes → Sizes
term_size_step t s = elim t.value [
  | uint n ↦
      if is_short TagNames.filesize t.name && fits_u32 n
      then set_low n s
      else if is_short TagNames.filesize t.name
      then set_size n s
      else if is_short TagNames.filesize_hi t.name && fits_u32 n
      then set_high n s
      else s
  | u64 n ↦ if is_short TagNames.filesize t.name then set_size n s else s
  | u32 n ↦
      if is_short TagNames.filesize t.name
      then set_low n s
      else if is_short TagNames.filesize_hi t.name
      then set_high n s
      else s
  | u16 n ↦
      if is_short TagNames.filesize t.name
      then set_low n s
      else if is_short TagNames.filesize_hi t.name
      then set_high n s
      else s
  | u8 n ↦
      if is_short TagNames.filesize t.name
      then set_low n s
      else if is_short TagNames.filesize_hi t.name
      then set_high n s
      else s
  | blob bs ↦
      if is_short TagNames.filesize t.name && length bs == 8 then set_size (from_le bs) s else s
  | small_blob bs ↦
      if is_short TagNames.filesize t.name && length bs == 8 then set_size (from_le bs) s else s
  | hash _ ↦ s
  | string _ ↦ s
  | float _ ↦ s
  | bool _ ↦ s
]

unfoldable pub term_size_loop : List Tag → Sizes → Sizes
unfolding term_size_step
term_size_loop [] s = s
term_size_loop (t ∷ ts) s = term_size_loop ts (term_size_step t s)

unfoldable pub file_size_tag_value : List Tag → Option ℕ
unfolding term_size_loop size_result
file_size_tag_value tags = size_result (term_size_loop tags no_sizes)

term_size_step-size_step : (t : Tag) (s : Sizes) → term_size_step t s ≡ size_step true t s
unfolding term_size_step size_step low_step high_step
term_size_step-size_step t s = elim t.value [
  | uint n ↦ ground arith
  | u64 n ↦ ground arith
  | u32 n ↦ ground arith
  | u16 n ↦ ground arith
  | u8 n ↦ ground arith
  | blob bs ↦ ground arith
  | small_blob bs ↦ ground arith
  | hash h ↦ ground arith
  | string x ↦ ground arith
  | float n ↦ ground arith
  | bool b ↦ ground arith
]

term_size_loop-size_loop : (ts : List Tag) (s : Sizes) → term_size_loop ts s ≡ size_loop true ts s
unfolding term_size_loop size_loop
term_size_loop-size_loop [] s = refl
term_size_loop-size_loop (t ∷ ts) s =
    ap (term_size_loop ts) (term_size_step-size_step t s)
    ∙ term_size_loop-size_loop ts (size_step true t s)

-- The size that a restrictive search compares is the one under which the store lists a keyword
-- publish, whatever the tags are.
pub file_size_tag_value-stock_size :
    (tags : List Tag) → file_size_tag_value tags ≡ stock_first_keyword_source_file_size tags
unfolding file_size_tag_value stock_first_keyword_source_file_size stock_first_file_size_impl
file_size_tag_value-stock_size tags = ap size_result (term_size_loop-size_loop tags no_sizes)
