-- ===== src/Daemon/WatchRegistry.antt =====
-- The admission of catch-up passes in crates/hallouminate-daemon/src/watch/registry.rs: which
-- registration may reconcile next, and what it leaves. The mutex-held state is passed explicitly; a
-- path is its text, and the map of the registrations is a list of entries.
use hallouminate.Common.{
  ℕ, ◌+◌, Bool, true, false, ◌&&◌, Option, none, some, List, [], ◌∷◌, ◌++◌, length, ltb,
  if◌then◌else◌,
}
use hallouminate.Daemon.WatchBinding.{Binding}
use hallouminate.Indexer.Types.{CorpusKey, same_key}
use hallouminate.Indexer.Requests.{contains}
use hallouminate.Text.{Text, equal}

pub data ConfigSource : Type 0 where
  baseline : ConfigSource
  repo_layer : Text → ConfigSource

pub record RegistrationId : Type 0 where
  pub source : ConfigSource
  pub corpus_key : CorpusKey

-- `==` on sources and ids
unfoldable pub same_source : ConfigSource → ConfigSource → Bool
same_source baseline baseline = true
same_source (repo_layer p) (repo_layer q) = equal p q
same_source a b = false

unfoldable pub same_id : RegistrationId → RegistrationId → Bool
unfolding same_source
same_id a b = same_source a.source b.source && same_key a.corpus_key b.corpus_key

pub data Observation : Type 0 where
  watched : Observation
  degraded : (error : Text) → (retrying : Bool) → Observation

abbrev pub max_pending_paths : ℕ
max_pending_paths = 64

pub data PendingWork : Type 0 where
  idle full_root : PendingWork
  paths : List Text → PendingWork

unfoldable pub has_path : Text → List Text → Bool
has_path p [] = false
has_path p (q ∷ qs) = let rest = has_path p qs in if equal p q then true else rest

-- `extend` of the set
unfoldable pub extend : List Text → List Text → List Text
unfolding has_path
extend set [] = set
extend set (p ∷ ps) = extend (if has_path p set then set else set ++ p ∷ []) ps

unfoldable pub capped : List Text → PendingWork
capped [] = idle
capped (p ∷ ps) = if ltb max_pending_paths (length (p ∷ ps)) then full_root else paths (p ∷ ps)

unfoldable pub add_paths : List Text → PendingWork → PendingWork
unfolding extend capped
add_paths ps full_root = full_root
add_paths ps idle = capped (extend [] ps)
add_paths ps (paths existing) =
    let set = extend existing ps in
    if ltb max_pending_paths (length set) then full_root else paths set

abbrev pub is_idle : PendingWork → Bool
is_idle idle = true
is_idle work = false

pub data CatchUpState : Type 0 where
  not_started queued in_flight finished : CatchUpState

abbrev pub is_queued : CatchUpState → Bool
is_queued queued = true
is_queued state = false

-- The fields `corpus`, `cfg` and `roots` of the source are `binding` here.
pub record Registration : Type 0 where
  pub binding : Binding
  pub lock_keys : List CorpusKey
  pub observation : Observation
  pub pending : PendingWork
  pub catch_up : CatchUpState
  pub last_error : Option Text
  pub reconciled_once : Bool
  pub retry_on_tick : Bool

abbrev pub Entry : Type 0
Entry = RegistrationId × Registration

pub record ActiveGroup : Type 0 where
  pub leader : RegistrationId
  pub lock_keys : List CorpusKey
  pub members : List RegistrationId
  pub valid : Bool

pub record Inner : Type 0 where
  pub regs : List Entry
  pub queue : List RegistrationId
  pub active : List ActiveGroup
  pub generation : ℕ

unfoldable pub get : RegistrationId → List Entry → Option (Registration)
unfolding same_id
get id [] = none
get id ((j, r) ∷ regs) = let rest = get id regs in if same_id j id then some r else rest

-- `get_mut`: a change of one registration, if it is there.
unfoldable pub update : RegistrationId → (Registration → Registration) → List Entry → List Entry
unfolding same_id
update id f [] = []
update id f ((j, r) ∷ regs) =
    let rest = update id f regs in if same_id j id then (j, f r) ∷ regs else (j, r) ∷ rest

unfoldable pub without : RegistrationId → List RegistrationId → List RegistrationId
unfolding same_id
without id [] = []
without id (j ∷ ids) = let rest = without id ids in if same_id j id then rest else j ∷ rest

unfoldable pub any_key : List CorpusKey → List CorpusKey → Bool
unfolding contains
any_key keys [] = false
any_key keys (k ∷ ks) = let rest = any_key keys ks in if contains keys k then true else rest

unfoldable pub active_locks_overlap : List ActiveGroup → List CorpusKey → Bool
unfolding any_key
active_locks_overlap [] lock_keys = false
active_locks_overlap (g ∷ gs) lock_keys =
    let rest = active_locks_overlap gs lock_keys in
    if any_key lock_keys g.lock_keys then true else rest

-- `mark_dirty_locked`
unfoldable pub mark_dirty : RegistrationId → Inner → Inner
unfolding get update
mark_dirty id s =
    let promoted : Inner = record s {
      regs = update id (λ r. record r { catch_up = queued }) s.regs;
      queue = s.queue ++ id ∷ [];
    } in
    elim (get id s.regs) [
      | none ↦ s
      | some r ↦ elim r.catch_up [
        | not_started ↦ promoted
        | finished ↦ promoted
        | queued ↦ s
        | in_flight ↦ s
      ]
    ]

unfoldable pub record_pending : RegistrationId → List Text → Inner → Inner
unfolding mark_dirty update add_paths
record_pending id ps s =
    let dirty =
      mark_dirty id (record s {
        regs = update id (λ r. record r { pending = add_paths ps r.pending }) s.regs;
      }) in
    record dirty { generation = dirty.generation + 1 }

unfoldable pub reconcile_due : List Entry → Inner → Inner
unfolding mark_dirty update
reconcile_due [] s = s
reconcile_due ((id, r) ∷ ids) s =
    reconcile_due ids (
      mark_dirty id
        (record s { regs = update id (λ r. record r { retry_on_tick = false }) s.regs }))

unfoldable pub mark_reconcile_due_all : Inner → Inner
unfolding reconcile_due
mark_reconcile_due_all s =
    let due = reconcile_due s.regs s in record due { generation = due.generation + 1 }

-- `release_admission`: the registration is in no pass any more.
unfoldable pub remove_first : RegistrationId → List RegistrationId → List RegistrationId
unfolding same_id
remove_first id [] = []
remove_first id (j ∷ ids) = let rest = remove_first id ids in if same_id j id then ids else j ∷ rest

unfoldable pub release_group : RegistrationId → ActiveGroup → ActiveGroup
unfolding remove_first
release_group id g = record g {
  members = remove_first id g.members;
  valid = if same_id g.leader id then false else g.valid;
}

unfoldable pub release_admission : RegistrationId → List ActiveGroup → List ActiveGroup
unfolding release_group
release_admission id [] = []
release_admission id (g ∷ gs) = release_group id g ∷ release_admission id gs
