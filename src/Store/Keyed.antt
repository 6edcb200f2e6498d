-- ===== src/Store/Keyed.antt =====
-- kad_store.rs: the key of a stored keyword publish is made of the fields of the entry.
use p2p_overlord_agents.Base.{
  ℕ, ◌≡◌, refl, ap, sym, ◌∙◌, inl, inr, Bool, true, ◌||◌, some, List, [], ◌∷◌, ◌++◌, leb, ◌==◌,
  length, remove_first, All, arith, Bool-cases, if_case,
}
use p2p_overlord_agents.Kad.TagNames
use p2p_overlord_agents.Kad.NodeId.{NodeId}
use p2p_overlord_agents.Kad.Packet.{PublishEntry}
use p2p_overlord_agents.Kad.Tag.{Tag, TagName, short, long, is_short}
use p2p_overlord_agents.Store.FileSize.{
  Sizes, size_step, size_loop, stock_first_file_size_impl, stock_first_keyword_source_file_size,
  size_result, no_sizes,
}
use p2p_overlord_agents.Store.Tags.{stock_stored_publish_tags, stock_keyword_file_size, positive}
use p2p_overlord_agents.Store.Entries.{replace_match, push_bounded, remove_oldest, least}
use p2p_overlord_agents.Store.Publish.{StoredKeywordPublish, keyword_entry}

-- The key names the target and the hash of the entry, and the size that its tags tell.
pub record IsOfKey (e : StoredKeywordPublish) : Type 0 where
  pub of_target : e.dedup_key.target ≡ e.target
  pub of_hash : e.dedup_key.file_hash ≡ e.file_hash
  pub of_size : stock_keyword_file_size e.tags ≡ some e.dedup_key.size

module _ {ℓ κ} {A : Type ℓ} (P : A → Type κ) where
  pub All-replace_match :
      (p : A → Bool) (a : A) (xs : List A) → P a → All P xs → All P (replace_match p a xs)
  unfolding replace_match
  All-replace_match p a [] h hs = tt
  All-replace_match p a (x ∷ xs) h (k, ks) =
      let rest = All-replace_match p a xs h ks in
      if_case (All P) (p x) (a ∷ xs) (x ∷ replace_match p a xs) (λ _. (h, ks)) λ _. (k, rest)

  All-remove_first : (p : A → Bool) (xs : List A) → All P xs → All P (remove_first p xs)
  All-remove_first p [] hs = tt
  All-remove_first p (x ∷ xs) (k, ks) =
      let rest = All-remove_first p xs ks in
      if_case (All P) (p x) xs (x ∷ remove_first p xs) (λ _. ks) λ _. (k, rest)

  All-snoc : (a : A) (xs : List A) → P a → All P xs → All P (xs ++ (a ∷ []))
  All-snoc a [] h hs = (h, tt)
  All-snoc a (x ∷ xs) h (k, ks) = (k, All-snoc a xs h ks)

  All-remove_oldest : (t : A → ℕ) (xs : List A) → All P xs → All P (remove_oldest t xs)
  unfolding remove_oldest
  All-remove_oldest t [] hs = tt
  All-remove_oldest t (x ∷ xs) hs = All-remove_first (λ e. t e == least t (t x) xs) (x ∷ xs) hs

  pub All-push_bounded :
      (t : A → ℕ) (capacity : ℕ) (a : A) (xs : List A)
      → P a
      → All P xs
      → All P (push_bounded t capacity a xs)
  unfolding push_bounded
  All-push_bounded t capacity a xs h hs =
      if_case (λ ys. All P (ys ++ (a ∷ []))) (leb capacity (length xs)) (remove_oldest t xs) xs
        (λ _. All-snoc a (remove_oldest t xs) h (All-remove_oldest t xs hs)) λ _. All-snoc a xs h hs

-- The tags that are not stored tell no size.
dropped_step :
    (t : Tag) (s : Sizes)
    → (is_short TagNames.publishinfo t.name || is_short TagNames.kadaichhashresult t.name) ≡ true
    → size_step true t s ≡ s
unfolding size_step
dropped_step t s h =
    elim t.name
        as (λ (n : TagName).
          (is_short TagNames.publishinfo n || is_short TagNames.kadaichhashresult n) ≡ true
          → size_step true (record t { name = n }) s ≡ s) [
            | short n ↦ λ k. ground (arith, k)
            | long n ↦ λ k. refl
          ]
      h

stored_size_loop :
    (ts : List Tag) (s : Sizes)
    → size_loop true (stock_stored_publish_tags ts) s ≡ size_loop true ts s
unfolding size_loop stock_stored_publish_tags
stored_size_loop [] s = refl
stored_size_loop (t ∷ ts) s =
    elim (Bool-cases
      (is_short TagNames.publishinfo t.name || is_short TagNames.kadaichhashresult t.name)) [
        | inl b ↦
            rw (b, stock_stored_publish_tags)
              (stored_size_loop ts s ∙ ap (size_loop true ts) (sym (dropped_step t s b)))
        | inr b ↦ rw (b, stock_stored_publish_tags) (stored_size_loop ts (size_step true t s))
      ]

-- A publish is stored with tags that tell its size.
pub stock_keyword_file_size-stored :
    (ts : List Tag)
    → stock_keyword_file_size (stock_stored_publish_tags ts) ≡ stock_keyword_file_size ts
unfolding stock_keyword_file_size stock_first_keyword_source_file_size stock_first_file_size_impl
stock_keyword_file_size-stored ts =
    ap (λ s. positive (size_result s)) (stored_size_loop ts no_sizes)

pub keyword_entry-IsOfKey :
    (now : ℕ) (target : NodeId) (p : PublishEntry) (size : ℕ)
    → stock_keyword_file_size p.tags ≡ some size
    → IsOfKey (keyword_entry now target p size)
keyword_entry-IsOfKey now target p size e = record {
  of_target = refl;
  of_hash = refl;
  of_size = stock_keyword_file_size-stored p.tags ∙ e;
}
