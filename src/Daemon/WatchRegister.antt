-- ===== src/Daemon/WatchRegister.antt =====
-- The registration of a corpus in crates/hallouminate-daemon/src/watch/registry.rs: `register`,
-- `seed_baseline` and `is_registered_unchanged`. The keys that a corpus locks are an argument.
pub mod Bound
pub mod Cap
pub mod Removal
pub mod Removed
use hallouminate.Common.{
  ℕ, suc, ◌+◌, Bool, true, false, ◌&&◌, ◌||◌, not, Option, none, some, List, [], ◌∷◌, ◌++◌, leb,
  if◌then◌else◌,
}
use hallouminate.Daemon.WatchBinding.{
  CorpusConfig, WatchRoot, Binding, corpus_key, equivalent, same_all, same_root,
  cfg_binding_differs,
}
use hallouminate.Daemon.WatchRegistry.{
  ConfigSource, baseline, repo_layer, RegistrationId, same_source, same_id, Observation, watched,
  degraded, Registration, Entry, Inner, idle, queued, finished, get, without, release_admission,
  CatchUpState,
}
use hallouminate.Indexer.Types.{CorpusKey, same_key}
use hallouminate.Text.{equal}

abbrev pub max_runtime_registrations : ℕ
max_runtime_registrations = 256

-- A conflict goes without its message.
pub data RegisterOutcome : Type 0 where
  new already_registered conflict limit_reached : RegisterOutcome

abbrev pub is_baseline : ConfigSource → Bool
is_baseline baseline = true
is_baseline (repo_layer path) = false

unfoldable pub conflicts : RegistrationId → Binding → Entry → Bool
unfolding same_source same_all same_root cfg_binding_differs
conflicts id b (other, r) =
    same_key other.corpus_key id.corpus_key
    && not (same_source other.source id.source)
    && (not (same_all same_root r.binding.roots b.roots) || cfg_binding_differs r.binding.cfg b.cfg)

unfoldable pub binding_conflict : RegistrationId → Binding → List Entry → Bool
unfolding conflicts
binding_conflict id b [] = false
binding_conflict id b (e ∷ regs) =
    let rest = binding_conflict id b regs in if conflicts id b e then true else rest

-- Another root of the same corpus from the same source.
unfoldable pub is_obsolete : RegistrationId → RegistrationId → Bool
unfolding same_source
is_obsolete id other =
    same_source other.source id.source
    && equal other.corpus_key.name id.corpus_key.name
    && not (same_key other.corpus_key id.corpus_key)

unfoldable pub obsolete : RegistrationId → List Entry → List RegistrationId
unfolding is_obsolete
obsolete id [] = []
obsolete id ((other, r) ∷ regs) =
    let rest = obsolete id regs in if is_obsolete id other then other ∷ rest else rest

unfoldable pub runtime_count : List Entry → ℕ
runtime_count [] = 0
runtime_count ((id, r) ∷ regs) =
    let rest = runtime_count regs in if is_baseline id.source then rest else suc rest

unfoldable pub any_runtime : List RegistrationId → Bool
any_runtime [] = false
any_runtime (id ∷ ids) = let rest = any_runtime ids in if is_baseline id.source then rest else true

-- `remove` from the map
unfoldable pub remove_entry : RegistrationId → List Entry → List Entry
unfolding same_id
remove_entry id [] = []
remove_entry id ((j, r) ∷ regs) =
    let rest = remove_entry id regs in if same_id j id then regs else (j, r) ∷ rest

unfoldable pub remove_registration : RegistrationId → Inner → Inner
unfolding remove_entry release_admission without
remove_registration id s = record s {
  regs = remove_entry id s.regs;
  queue = without id s.queue;
  active = release_admission id s.active;
}

unfoldable pub remove_all : List RegistrationId → Inner → Inner
unfolding remove_registration
remove_all [] s = s
remove_all (id ∷ ids) s = remove_all ids (remove_registration id s)

-- An unavailable backend is still so for the registration that replaces one.
abbrev pub observation_after : Option Registration → Observation
observation_after none = watched
observation_after (some r) = elim r.observation [
  | watched ↦ watched
  | degraded error retrying ↦ if retrying then watched else degraded error false
]

module _ (corpus_lock_keys : CorpusConfig → List CorpusKey) where
  abbrev pub registration : Binding → Observation → CatchUpState → Bool → Registration
  registration b observation catch_up reconciled = record {
    binding = b;
    lock_keys = corpus_lock_keys b.corpus;
    observation = observation;
    pending = idle;
    catch_up = catch_up;
    last_error = none;
    reconciled_once = reconciled;
    retry_on_tick = false;
  }

  unfoldable pub seed_baseline : Binding → Inner → Inner
  unfolding get corpus_key
  seed_baseline b s =
      let id : RegistrationId = record {
        source = baseline;
        corpus_key = corpus_key b.corpus b.roots;
      } in
      elim (get id s.regs) [
        | some r ↦ s
        | none ↦ record s {
          regs = (id, registration b watched finished true) ∷ s.regs;
          generation = s.generation + 1;
        }
      ]

  -- An equivalent registration only takes over the corpus, its keys and the settings.
  unfoldable pub refresh : RegistrationId → Binding → List Entry → List Entry
  unfolding same_id
  refresh id b [] = []
  refresh id b ((j, r) ∷ regs) =
      let rest = refresh id b regs in
      if same_id j id
      then (j, record r { lock_keys = corpus_lock_keys b.corpus; binding = b }) ∷ regs
      else (j, r) ∷ rest

  -- What is left of the others, and the new registration, queued.
  unfoldable pub replace_registration : RegistrationId → Binding → Inner → Inner
  unfolding remove_all remove_registration obsolete get
  replace_registration id b s =
      let cleared = remove_all (obsolete id s.regs) s in
      let observation = observation_after (get id cleared.regs) in
      let t = remove_registration id cleared in
      record t {
        regs = (id, registration b observation queued false) ∷ t.regs;
        queue = t.queue ++ id ∷ [];
        generation = t.generation + 1;
      }

  abbrev pub is_registered : RegistrationId → List Entry → Bool
  is_registered id regs = elim (get id regs) [ none ↦ false | some r ↦ true ]

  unfoldable pub is_unchanged : RegistrationId → Binding → List Entry → Bool
  unfolding get equivalent
  is_unchanged id b regs = elim (get id regs) [ none ↦ false | some r ↦ equivalent r.binding b ]

  -- A new runtime registration has to fit under the cap, unless it takes another's place.
  unfoldable pub exceeds_cap : RegistrationId → List Entry → Bool
  unfolding runtime_count obsolete any_runtime get
  exceeds_cap id regs =
      not (is_baseline id.source)
      && leb max_runtime_registrations (runtime_count regs)
      && not (is_registered id regs || any_runtime (obsolete id regs))

  unfoldable pub register : ConfigSource → Binding → Inner → RegisterOutcome × Inner
  unfolding is_unchanged refresh binding_conflict exceeds_cap replace_registration corpus_key
  register source b s =
      let id : RegistrationId = record {
        source = source;
        corpus_key = corpus_key b.corpus b.roots;
      } in
      if is_unchanged id b s.regs
      then (already_registered, record s { regs = refresh id b s.regs })
      else if binding_conflict id b s.regs
      then (conflict, s)
      else if exceeds_cap id s.regs
      then (limit_reached, s)
      else (new, replace_registration id b s)
