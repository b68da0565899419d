-- ===== src/Indexer/Requests.antt =====
-- The requests of crates/hallouminate-domain/src/indexer/apply.rs: what key, mtime and batch each
-- file is written under. `key_first` is the order of the map's keys.
pub mod Batches
pub mod Owners
pub mod Partition
pub mod Racy
use hallouminate.Common.{
  ℕ, zero, suc, Bool, true, false, Option, none, some, List, [], ◌∷◌, ◌++◌, length, take, drop, ltb,
  if◌then◌else◌,
}
use hallouminate.Common.Int.{ℤ, leb_ℤ, pred_ℤ}
use hallouminate.Indexer.ContentKey.{Bytes}
use hallouminate.Indexer.Types.{CorpusKey, FileRef, Mtime, same_key}
use hallouminate.Indexer.Writer.{WriteRequest}
use hallouminate.Text.{Text, equal}
use hallouminate.Text.Paths.{components, starts_with}

pub data EmptyFilePolicy : Type 0 where
  retain evict : EmptyFilePolicy

abbrev pub default_batch_size : ℕ
default_batch_size = 16

-- The recorded mtime of a file that was written in the millisecond of the pass, or later.
unfoldable pub smudge_racy_mtime : Mtime → ℤ → Mtime
smudge_racy_mtime mtime now_ms = if leb_ℤ now_ms mtime then pred_ℤ mtime else mtime

unfoldable pub contains : List CorpusKey → CorpusKey → Bool
contains [] key = false
contains (k ∷ ks) key = let rest = contains ks key in if same_key k key then true else rest

-- `CorpusConfig::corpus_keys`: the distinct identities of the configured roots, in their order. The
-- file system makes a root of the path (`from_configured_root`).
unfoldable pub add_keys : (Text → Text) → Text → List CorpusKey → List Text → List CorpusKey
unfolding contains
add_keys root_of name keys [] = keys
add_keys root_of name keys (path ∷ paths) =
    let key : CorpusKey = record { name = name; canonical_root = root_of path } in
    add_keys root_of name (if contains keys key then keys else keys ++ key ∷ []) paths

unfoldable pub corpus_keys : (Text → Text) → Text → List Text → List CorpusKey
unfolding add_keys
corpus_keys root_of name paths = add_keys root_of name [] paths

unfoldable pub specificity : CorpusKey → ℕ
specificity key = length (components key.canonical_root)

-- One round of the loop over the keys: an earlier owner stays unless this one is more specific.
unfoldable pub more_specific : Option CorpusKey → CorpusKey → CorpusKey
unfolding specificity
more_specific none key = key
more_specific (some current) key =
    if ltb (specificity current) (specificity key) then key else current

unfoldable pub owner_among : FileRef → Option CorpusKey → List CorpusKey → Option CorpusKey
unfolding more_specific
owner_among path owner [] = owner
owner_among path owner (key ∷ keys) =
    if starts_with path key.canonical_root
    then owner_among path (some (more_specific owner key)) keys
    else owner_among path owner keys

-- `chunks`; one round of fuel for each element is enough.
unfoldable pub chunks {ℓ} : {A : Type ℓ} → ℕ → ℕ → List A → List (List A)
chunks zero n xs = []
chunks (suc fuel) n [] = []
chunks (suc fuel) n (x ∷ xs) = take n (x ∷ xs) ∷ chunks fuel n (drop n (x ∷ xs))

-- The first of the precomputed bytes that are the file's.
unfoldable pub override_of : FileRef → List (FileRef × Bytes) → Option Bytes
override_of path [] = none
override_of path ((f, bytes) ∷ fs) =
    let rest = override_of path fs in if equal path f then some bytes else rest

module _ (key_first : CorpusKey → CorpusKey → Bool) where
  -- `by_key.entry(key).or_default().push(req)`
  unfoldable pub insert_request :
      WriteRequest → List (CorpusKey × List WriteRequest) → List (CorpusKey × List WriteRequest)
  insert_request req [] = (req.corpus_key, req ∷ []) ∷ []
  insert_request req ((key, reqs) ∷ groups) =
      let rest = insert_request req groups in
      if same_key req.corpus_key key
      then (key, reqs ++ req ∷ []) ∷ groups
      else if key_first req.corpus_key key
      then (req.corpus_key, req ∷ []) ∷ (key, reqs) ∷ groups
      else (key, reqs) ∷ rest

  unfoldable pub by_key :
      List (CorpusKey × List WriteRequest)
      → List WriteRequest
      → List (CorpusKey × List WriteRequest)
  unfolding insert_request
  by_key groups [] = groups
  by_key groups (req ∷ reqs) = by_key (insert_request req groups) reqs

  unfoldable pub batches_of : ℕ → List (CorpusKey × List WriteRequest) → List (List WriteRequest)
  unfolding chunks
  batches_of n [] = []
  batches_of n ((key, reqs) ∷ groups) = chunks (length reqs) n reqs ++ batches_of n groups

  -- All batches of a run, in order.
  unfoldable pub batches : ℕ → List WriteRequest → List (List WriteRequest)
  unfolding by_key batches_of
  batches n reqs = batches_of n (by_key [] reqs)
