-- ===== src/Indexer/Run.antt =====
-- A pass over the store, of crates/hallouminate-domain/src/indexer/apply.rs and store.rs: the calls it
-- makes, in a monad of state and errors. What the outside answers may depend on all calls before.
use hallouminate.Common.{ℕ, Option, none, some, List, ◌∷◌}
use hallouminate.Common.Int.{ℤ}
use hallouminate.Indexer.ContentKey.{Bytes, PreparedFile}
use hallouminate.Indexer.Format.{Format, FileFormat}
use hallouminate.Indexer.Stats.{ApplyStats}
use hallouminate.Indexer.Types.{CorpusKey, FileRef}
use hallouminate.Indexer.Writer.{Error, Result, ok, err, Prepared, PrepareCtx, Extraction}
use hallouminate.Text.{Text}

pub record BatchWriteStats : Type 0 where
  pub chunks_written : ℕ
  pub embeddings_written : ℕ

-- What a pass does outside: a call stands in the log as soon as it is made, `written` is the answer
-- to a commit, and `failed` stands where an error is raised.
pub data Event : Type 0 where
  acquired released : Event
  hashed : FileRef → Event
  prepared : CorpusKey → FileRef → Prepared → Event
  touched : CorpusKey → Text → ℤ → Event
  deleted : CorpusKey → Text → Event
  batch_prepared : List PreparedFile → Event
  committed : List PreparedFile → Event
  written : BatchWriteStats → Event
  failed : Error → Event

-- The newest event comes first.
abbrev pub Log : Type 0
Log = List Event

-- The store, the lane, the file system and the format handlers; `W` is `PreparedBatch`.
pub record Outside (W : Type 0) : Type 0 where
  pub lane : Option (Log → Result (Unit {0}))
  pub touch_mtime : Log → CorpusKey → Text → ℤ → Result (Unit {0})
  pub delete_file : Log → CorpusKey → Text → Result (Unit {0})
  pub prepare_batch : Log → List PreparedFile → Result W
  pub commit_batch : Log → List PreparedFile → W → Result BatchWriteStats
  pub blake3_file : Log → FileRef → Result Text
  pub blake3_bytes : Bytes → Text
  pub read : Log → FileRef → Result Bytes
  pub sniff : Bytes → FileFormat
  pub handler : Format → PrepareCtx → Extraction
  pub to_str : FileRef → Option Text
  pub canonicalize : FileRef → FileRef

pub record Run : Type 0 where
  pub log : Log
  pub stats : ApplyStats

-- How a call ends: with a value, or in the first error.
pub data Outcome (A : Type 0) : Type 0 where
  done : A → Run → Outcome A
  stopped : Error → Run → Outcome A

abbrev pub Action : Type 0 → Type 0
Action A = Run → Outcome A

abbrev pub note : Event → Run → Run
note e r = record r { log = e ∷ r.log }

module _ {A : Type 0} where
  abbrev pub pure : A → Action A
  pure a r = done a r

  abbrev pub raise : Error → Action A
  raise e r = stopped e (note (failed e) r)

  -- The answer of a call, which is `?` on an error.
  unfoldable pub answer : (Log → Result A) → Action A
  answer f r = elim (f r.log) [ ok a ↦ done a r | err e ↦ raise e r ]

module _ {A B : Type 0} where
  unfoldable pub after : Outcome A → (A → Action B) → Outcome B
  after (done a r) f = f a r
  after (stopped e r) f = stopped e r

infixl 5 ◌>>=◌ ◌>>◌
abbrev pub ◌>>=◌ : {A B : Type 0} → Action A → (A → Action B) → Action B
unfolding after
◌>>=◌ m f r = after (m r) f

abbrev pub ◌>>◌ : {A B : Type 0} → Action A → Action B → Action B
m >> k = m >>= λ _. k

unfoldable pub tell : Event → Action (Unit {0})
tell e r = done tt (note e r)

unfoldable pub tally : (ApplyStats → ApplyStats) → Action (Unit {0})
tally f r = done tt (record r { stats = f r.stats })

-- The guard of the lane is dropped however its scope is left.
unfoldable pub release : {A : Type 0} → Outcome A → Outcome A
release (done a r) = done a (note released r)
release (stopped e r) = stopped e (note released r)

unfoldable pub held : {A : Type 0} → Action A → Action A
unfolding release
held m r = release (m (note acquired r))

-- `acquire_lane`, and what stands in the scope of its guard.
unfoldable pub with_lane : {A : Type 0} → Option (Log → Result (Unit {0})) → Action A → Action A
unfolding held answer
with_lane none m = m
with_lane (some acquire) m = answer acquire >>= λ _. held m
