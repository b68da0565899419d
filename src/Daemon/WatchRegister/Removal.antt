-- ===== src/Daemon/WatchRegister/Removal.antt =====
-- What the removal of registrations in crates/hallouminate-daemon/src/watch/registry.rs takes from
-- those that count.
use hallouminate.Common.{
  ◌≡◌, refl, ◌∙◌, ◌≤◌, ◌<◌, ◌⊎◌, inl, inr, true, false, Bool-cases, some, List, [], ◌∷◌, arith,
}
use hallouminate.Daemon.WatchRegister.{
  is_baseline, obsolete, is_obsolete, runtime_count, any_runtime, remove_entry, remove_registration,
  remove_all,
}
use hallouminate.Daemon.WatchRegistry.{
  ConfigSource, baseline, repo_layer, RegistrationId, same_source, same_id, Registration, Entry,
  Inner, get,
}
use hallouminate.Text.Equal.{equal_self}

abbrev pub IsHere : RegistrationId → List Entry → Type 0
IsHere id [] = ⊥
IsHere id ((j, r) ∷ regs) = (same_id j id ≡ true) ⊎ IsHere id regs

pub get-IsHere :
    (id : RegistrationId) (r : Registration) (regs : List Entry)
    → get id regs ≡ some r
    → IsHere id regs
unfolding get
get-IsHere id r [] e = ground (arith, e)
get-IsHere id r ((j, q) ∷ regs) e = elim (Bool-cases (same_id j id)) [
  | inl same ↦ inl same
  | inr other ↦ inr (get-IsHere id r regs (ground (arith, e, other)))
]

same_source-is_baseline :
    (a b : ConfigSource) → same_source a b ≡ true → is_baseline a ≡ is_baseline b
unfolding same_source
same_source-is_baseline baseline baseline e = refl
same_source-is_baseline (repo_layer p) (repo_layer q) e = refl
same_source-is_baseline baseline (repo_layer q) e = ground (arith, e)
same_source-is_baseline (repo_layer p) baseline e = ground (arith, e)

same_id-is_baseline :
    (a b : RegistrationId) → same_id a b ≡ true → is_baseline a.source ≡ is_baseline b.source
unfolding same_id
same_id-is_baseline a b e = same_source-is_baseline a.source b.source (ground (arith, e))

same_source_self : (a : ConfigSource) → same_source a a ≡ true
unfolding same_source
same_source_self baseline = refl
same_source_self (repo_layer p) = equal_self p

pub same_id_self : (a : RegistrationId) → same_id a a ≡ true
unfolding same_id
same_id_self a =
    rw
      (
        same_source_self a.source,
        equal_self a.corpus_key.name,
        equal_self a.corpus_key.canonical_root,
      )
      refl

pub remove_entry_le :
    (id : RegistrationId) (regs : List Entry)
    → runtime_count (remove_entry id regs) ≤ runtime_count regs
unfolding runtime_count remove_entry
remove_entry_le id [] = omega arith
remove_entry_le id ((j, r) ∷ regs) = ground (arith, remove_entry_le id regs)

-- Of a runtime registration that is there, one is removed.
pub remove_entry_lt :
    (id : RegistrationId) (regs : List Entry)
    → is_baseline id.source ≡ false
    → IsHere id regs
    → runtime_count (remove_entry id regs) < runtime_count regs
unfolding runtime_count remove_entry
remove_entry_lt id [] runtime here = elim here [ ]
remove_entry_lt id ((j, r) ∷ regs) runtime (inl same) =
    ground (arith, same_id-is_baseline j id same, remove_entry_le id regs)
remove_entry_lt id ((j, r) ∷ regs) runtime (inr here) =
    ground (arith, same_id-is_baseline j id, remove_entry_lt id regs runtime here)

-- Removing any entry leaves a runtime registration there, or removes one.
remove_entry-IsHere :
    (id j : RegistrationId) (regs : List Entry)
    → is_baseline id.source ≡ false
    → IsHere id regs
    → IsHere id (remove_entry j regs) ⊎ (runtime_count (remove_entry j regs) < runtime_count regs)
unfolding runtime_count remove_entry
remove_entry-IsHere id j [] runtime here = elim here [ ]
remove_entry-IsHere id j ((k, r) ∷ regs) runtime (inl same) =
    ground (arith, same_id-is_baseline k id same)
remove_entry-IsHere id j ((k, r) ∷ regs) runtime (inr here) =
    ground (arith, remove_entry-IsHere id j regs runtime here)

pub remove_all_le :
    (ids : List RegistrationId) (s : Inner)
    → runtime_count (remove_all ids s).regs ≤ runtime_count s.regs
unfolding remove_all remove_registration
remove_all_le [] s = omega arith
remove_all_le (id ∷ ids) s =
    ground (arith, remove_all_le ids (remove_registration id s), remove_entry_le id s.regs)

pub remove_all-IsHere :
    (id : RegistrationId) (ids : List RegistrationId) (s : Inner)
    → is_baseline id.source ≡ false
    → IsHere id s.regs
    → IsHere id (remove_all ids s).regs
      ⊎ (runtime_count (remove_all ids s).regs < runtime_count s.regs)
unfolding remove_all remove_registration
remove_all-IsHere id [] s runtime here = inl here
remove_all-IsHere id (j ∷ ids) s runtime here =
    elim (remove_entry-IsHere id j s.regs runtime here) [
      | inr fewer ↦ inr (ground (arith, fewer, remove_all_le ids (remove_registration j s)))
      | inl still ↦ elim (remove_all-IsHere id ids (remove_registration j s) runtime still) [
        | inl there ↦ inl there
        | inr fewer ↦ inr (ground (arith, fewer, remove_entry_le j s.regs))
      ]
    ]

pub IsFirst : RegistrationId → List Entry → List RegistrationId → Type 0
IsFirst id regs [] = Unit
IsFirst id regs (j ∷ js) = IsHere j regs × (is_baseline j.source ≡ is_baseline id.source)

IsFirst-later :
    (id : RegistrationId) (e : Entry) (regs : List Entry) (ids : List RegistrationId)
    → IsFirst id regs ids
    → IsFirst id (e ∷ regs) ids
unfolding IsFirst
IsFirst-later id (k, r) regs [] first = first
IsFirst-later id (k, r) regs (j ∷ js) (here, same) = (inr here, same)

pub obsolete-IsFirst :
    (id : RegistrationId) (regs : List Entry) → IsFirst id regs (obsolete id regs)
unfolding obsolete is_obsolete IsFirst
obsolete-IsFirst id [] = tt
obsolete-IsFirst id ((j, r) ∷ regs) = elim (Bool-cases (is_obsolete id j)) [
  | inl stale ↦
      rw (stale, is_obsolete)
        (inl (same_id_self j), same_source-is_baseline j.source id.source (ground (arith, stale)))
  | inr kept ↦
      rw (kept, is_obsolete)
        (IsFirst-later id (j, r) regs (obsolete id regs) (obsolete-IsFirst id regs))
]

-- Removing what the first of the list names takes one runtime registration at least.
pub remove_all_lt :
    (id : RegistrationId) (ids : List RegistrationId) (s : Inner)
    → is_baseline id.source ≡ false
    → IsFirst id s.regs ids
    → any_runtime ids ≡ true
    → runtime_count (remove_all ids s).regs < runtime_count s.regs
unfolding remove_all remove_registration any_runtime IsFirst
remove_all_lt id [] s runtime first some_runtime = ground (arith, some_runtime)
remove_all_lt id (j ∷ ids) s runtime (here, same) some_runtime = ground (
  arith,
  remove_all_le ids (remove_registration j s),
  remove_entry_lt j s.regs (same ∙ runtime) here,
)
