-- ===== src/Daemon/WatchTests.antt =====
-- A registry with two queued registrations, and the theorems on its passes there.
use hallouminate.Common.{◌≡◌, refl, ◌≤◌, arith, List, true, false, none, [], ◌∷◌}
use hallouminate.Daemon.WatchAdmission.{begin_next_catch_up}
use hallouminate.Daemon.WatchAdmission.Choice.{Admits, begin_next_catch_up-Admits}
use hallouminate.Daemon.WatchAdmission.Exclusion.{
  Exclusive, starts, steps, begins, Reachable-Exclusive,
}
use hallouminate.Daemon.WatchBinding.{CorpusConfig, Binding, corpus_key, equivalent}
use hallouminate.Daemon.WatchRegister.{new, max_runtime_registrations, register, runtime_count}
use hallouminate.Daemon.WatchRegister.Bound.{Settled, register-Settled}
use hallouminate.Daemon.WatchRegister.Cap.{register-Cap}
use hallouminate.Daemon.WatchRegistry.{
  RegistrationId, repo_layer, Entry, Inner, watched, idle, queued,
}
use hallouminate.Indexer.Types.{CorpusKey}
use hallouminate.Text.{Text, codes, equal}

abbrev corpus : Text → CorpusConfig
corpus name = record {
  name = name;
  paths = codes "/w" ∷ [];
  globs = [];
  exclude = [];
  global = false;
}

abbrev binding : Text → Binding
binding name = record {
  corpus = corpus name;
  cfg = record { ground_dir = codes "/g"; model = codes "m"; quantized = true; enabled = true };
  roots = [];
}

abbrev id_of : Text → RegistrationId
id_of name = record { source = repo_layer (codes "/r"); corpus_key = corpus_key (corpus name) [] }

-- Both lock the key of the first one.
abbrev entry : Text → Entry
entry name = (
  id_of name,
  record {
    binding = binding name;
    lock_keys = corpus_key (corpus (codes "a")) [] ∷ [];
    observation = watched;
    pending = idle;
    catch_up = queued;
    last_error = none;
    reconciled_once = false;
    retry_on_tick = false;
  },
)

abbrev registry : Inner
registry = record {
  regs = entry (codes "a") ∷ entry (codes "b") ∷ [];
  queue = id_of (codes "a") ∷ id_of (codes "b") ∷ [];
  active = [];
  generation = 0;
}

begin_next_catch_up-Admits_example : Admits registry 2 (begin_next_catch_up 2 registry)
begin_next_catch_up-Admits_example = begin_next_catch_up-Admits registry 2

abbrev busy : Inner
busy = (begin_next_catch_up 2 registry).1

Reachable-Exclusive_example : Exclusive 2 busy.active
Reachable-Exclusive_example =
    Reachable-Exclusive 2 busy
      (steps registry busy (starts registry.regs registry.queue) (begins registry))

-- The second registration has to wait, since it locks the first one's key.
second_waits : (begin_next_catch_up 2 busy).0 ≡ none
unfolding begin_next_catch_up equal corpus_key equivalent
second_waits = refl

abbrev own_key : CorpusConfig → List CorpusKey
own_key c = corpus_key c [] ∷ []

-- The third registration is a new one.
third : (register own_key (repo_layer (codes "/r")) (binding (codes "c")) registry).0 ≡ new
unfolding register equal corpus_key equivalent
third = refl

registry_within : runtime_count registry.regs ≤ max_runtime_registrations
unfolding runtime_count
registry_within = omega arith

register-Cap_example :
    runtime_count (register own_key (repo_layer (codes "/r")) (binding (codes "c")) registry).1.regs
    ≤ max_runtime_registrations
register-Cap_example =
    register-Cap own_key (repo_layer (codes "/r")) (binding (codes "c")) registry registry_within

register-Settled_example :
    Settled own_key
      (repo_layer (codes "/r"))
      (binding (codes "c"))
      registry
      (register own_key (repo_layer (codes "/r")) (binding (codes "c")) registry).0
      (register own_key (repo_layer (codes "/r")) (binding (codes "c")) registry).1
register-Settled_example =
    register-Settled own_key (repo_layer (codes "/r")) (binding (codes "c")) registry
