-- ===== src/Daemon/WatchRegister/Removed.antt =====
-- What removing registrations in crates/hallouminate-daemon/src/watch/registry.rs leaves of the others.
use hallouminate.Common.{
  arith, true, ◌≡◌, refl, ◌∙◌, false, Bool-cases, inl, inr, List, [], ◌∷◌, All,
}
use hallouminate.Daemon.WatchRegistry.{
  ConfigSource, baseline, repo_layer, same_source, RegistrationId, Entry, Inner, same_id, get,
}
use hallouminate.Daemon.WatchRegister.{remove_entry, remove_registration, remove_all}
use hallouminate.Indexer.Types.{CorpusKey, same_key}
use hallouminate.Text.Equal.{equal_iff}

same_source-joins :
    (a b c : ConfigSource)
    → same_source a b ≡ true
    → same_source a c ≡ true
    → same_source b c ≡ true
unfolding same_source
same_source-joins baseline baseline baseline h k = refl
same_source-joins baseline baseline (repo_layer z) h k = ground (arith, k)
same_source-joins baseline (repo_layer y) c h k = ground (arith, h)
same_source-joins (repo_layer x) baseline c h k = ground (arith, h)
same_source-joins (repo_layer x) (repo_layer y) baseline h k = ground (arith, k)
same_source-joins (repo_layer x) (repo_layer y) (repo_layer z) h k =
    ground (arith, h, k, equal_iff x y, equal_iff x z, equal_iff y z)

same_key-joins :
    (a b c : CorpusKey) → same_key a b ≡ true → same_key a c ≡ true → same_key b c ≡ true
same_key-joins a b c h k = ground (
  arith,
  h,
  k,
  equal_iff a.name b.name,
  equal_iff a.name c.name,
  equal_iff b.name c.name,
  equal_iff a.canonical_root b.canonical_root,
  equal_iff a.canonical_root c.canonical_root,
  equal_iff b.canonical_root c.canonical_root,
)

pub same_id-other :
    (j id other : RegistrationId)
    → same_id j id ≡ true
    → same_id id other ≡ false
    → same_id j other ≡ false
unfolding same_id
same_id-other j id other same apart = ground (
  arith,
  same,
  apart,
  same_source-joins j.source id.source other.source,
  same_key-joins j.corpus_key id.corpus_key other.corpus_key,
)

get-remove_entry :
    (id other : RegistrationId) (regs : List Entry)
    → same_id id other ≡ false
    → get other (remove_entry id regs) ≡ get other regs
unfolding get remove_entry
get-remove_entry id other [] apart = refl
get-remove_entry id other ((j, r) ∷ regs) apart = elim (Bool-cases (same_id j id)) [
  | inl same ↦ rw (same, remove_entry) (rw (same_id-other j id other same apart, get) refl)
  | inr ne ↦ rw (ne, remove_entry) (ground (arith, get-remove_entry id other regs apart))
]

pub get-remove_registration :
    (id other : RegistrationId) (s : Inner)
    → same_id id other ≡ false
    → get other (remove_registration id s).regs ≡ get other s.regs
unfolding remove_registration
get-remove_registration id other s apart = get-remove_entry id other s.regs apart

pub get-remove_all :
    (ids : List RegistrationId) (other : RegistrationId) (s : Inner)
    → All (λ id. same_id id other ≡ false) ids
    → get other (remove_all ids s).regs ≡ get other s.regs
unfolding remove_all
get-remove_all [] other s apart = refl
get-remove_all (id ∷ ids) other s (ne, apart) =
    get-remove_all ids other (remove_registration id s) apart
    ∙ get-remove_registration id other s ne
