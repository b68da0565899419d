-- ===== src/Daemon/WatchRegister/Cap.antt =====
-- The cap on the registrations that crates/hallouminate-daemon/src/watch/registry.rs takes at runtime.
use hallouminate.Common.{
  suc, ◌≡◌, refl, ap, ◌≤◌, inl, inr, Bool, true, false, Bool-cases, Option, none, some, List, [],
  ◌∷◌, arith,
}
use hallouminate.Daemon.WatchBinding.{CorpusConfig, Binding, corpus_key}
use hallouminate.Daemon.WatchRegister.{
  max_runtime_registrations, is_baseline, obsolete, runtime_count, any_runtime, remove_registration,
  remove_all, replace_registration, refresh, exceeds_cap, register, is_registered,
}
use hallouminate.Daemon.WatchRegistry.{
  ConfigSource, RegistrationId, Registration, Entry, Inner, get,
}
use hallouminate.Indexer.Types.{CorpusKey}
use hallouminate.Daemon.WatchRegister.Removal.{
  IsHere, get-IsHere, remove_entry_le, remove_entry_lt, remove_all_le, remove_all-IsHere,
  remove_all_lt, obsolete-IsFirst,
}

module _ (corpus_lock_keys : CorpusConfig → List CorpusKey) where
  runtime_count-refresh :
      (id : RegistrationId) (b : Binding) (regs : List Entry)
      → runtime_count (refresh corpus_lock_keys id b regs) ≡ runtime_count regs
  unfolding refresh runtime_count
  runtime_count-refresh id b [] = refl
  runtime_count-refresh id b ((j, r) ∷ regs) = ground (arith, runtime_count-refresh id b regs)

  runtime_count-replace_le :
      (id : RegistrationId) (b : Binding) (s : Inner)
      → runtime_count (replace_registration corpus_lock_keys id b s).regs
        ≤ suc (runtime_count (remove_all (obsolete id s.regs) s).regs)
  unfolding replace_registration runtime_count remove_registration
  runtime_count-replace_le id b s =
      ground (arith, remove_entry_le id (remove_all (obsolete id s.regs) s).regs)

  replace_baseline :
      (id : RegistrationId) (b : Binding) (s : Inner)
      → is_baseline id.source ≡ true
      → runtime_count (replace_registration corpus_lock_keys id b s).regs ≤ runtime_count s.regs
  unfolding replace_registration runtime_count remove_registration
  replace_baseline id b s base = ground (
    arith,
    base,
    remove_entry_le id (remove_all (obsolete id s.regs) s).regs,
    remove_all_le (obsolete id s.regs) s,
  )

  replace_here :
      (id : RegistrationId) (b : Binding) (s : Inner)
      → is_baseline id.source ≡ false
      → IsHere id s.regs
      → runtime_count (replace_registration corpus_lock_keys id b s).regs ≤ runtime_count s.regs
  unfolding replace_registration runtime_count remove_registration
  replace_here id b s runtime here =
      elim (remove_all-IsHere id (obsolete id s.regs) s runtime here) [
        | inl still ↦ ground (
          arith,
          runtime,
          remove_entry_lt id (remove_all (obsolete id s.regs) s).regs runtime still,
          remove_all_le (obsolete id s.regs) s,
        )
        | inr fewer ↦ ground (arith, fewer, runtime_count-replace_le id b s)
      ]

  is_registered-IsHere :
      (id : RegistrationId) (regs : List Entry)
      → is_registered corpus_lock_keys id regs ≡ true
      → IsHere id regs
  is_registered-IsHere id regs e = by_entry (get id regs) refl e
    where
      by_entry :
          (found : Option Registration)
          → get id regs ≡ found
          → is_registered corpus_lock_keys id regs ≡ true
          → IsHere id regs
      by_entry none same e =
          ground (arith, e, ap {B = Bool} (λ o. elim o [ none ↦ false | some r ↦ true ]) same)
      by_entry (some r) same e = get-IsHere id r regs same

  replace_within :
      (id : RegistrationId) (b : Binding) (s : Inner)
      → exceeds_cap corpus_lock_keys id s.regs ≡ false
      → runtime_count s.regs ≤ max_runtime_registrations
      → runtime_count (replace_registration corpus_lock_keys id b s).regs
        ≤ max_runtime_registrations
  unfolding exceeds_cap
  replace_within id b s fits within = elim (Bool-cases (is_baseline id.source)) [
    | inl base ↦ omega (arith, within, replace_baseline id b s base)
    | inr runtime ↦ elim (Bool-cases (is_registered corpus_lock_keys id s.regs)) [
      | inl here ↦
          omega (arith, within, replace_here id b s runtime (is_registered-IsHere id s.regs here))
      | inr absent ↦ elim (Bool-cases (any_runtime (obsolete id s.regs))) [
        | inl taken ↦ omega (
          arith,
          within,
          runtime_count-replace_le id b s,
          remove_all_lt id (obsolete id s.regs) s runtime (obsolete-IsFirst id s.regs) taken,
        )
        | inr free ↦ ground (
          arith,
          within,
          fits,
          runtime,
          absent,
          free,
          runtime_count-replace_le id b s,
          remove_all_le (obsolete id s.regs) s,
        )
      ]
    ]
  ]

  -- Whatever is registered, from whichever source, the registrations taken at runtime never become
  -- more than 256: a state within that cap is within it again after `register`, whatever its outcome.
  pub register-Cap :
      (source : ConfigSource) (b : Binding) (s : Inner)
      → runtime_count s.regs ≤ max_runtime_registrations
      → runtime_count (register corpus_lock_keys source b s).1.regs ≤ max_runtime_registrations
  unfolding register
  register-Cap source b s within = ground (
    arith,
    within,
    runtime_count-refresh (record { source = source; corpus_key = corpus_key b.corpus b.roots }) b
        s.regs,
    replace_within (record { source = source; corpus_key = corpus_key b.corpus b.roots }) b s,
  )
