-- ===== src/Daemon/WatchRegister/Bound.antt =====
-- What a registration in crates/hallouminate-daemon/src/watch/registry.rs leaves bound.
use hallouminate.Common.{
  ◌≡◌, refl, ◌∙◌, All, ap, ◌+◌, Bool, true, false, Bool-cases, Option, none, some, List, [], ◌∷◌,
  ◌++◌, arith, inl, inr,
}
use hallouminate.Daemon.WatchBinding.{CorpusConfig, Binding, corpus_key, equivalent}
use hallouminate.Daemon.WatchRegister.{
  RegisterOutcome, new, already_registered, conflict, limit_reached, registration,
  observation_after, obsolete, remove_registration, remove_all, replace_registration, refresh,
  exceeds_cap, register, is_unchanged, binding_conflict,
}
use hallouminate.Daemon.WatchRegister.Removed.{
  same_id-other, get-remove_registration, get-remove_all,
}
use hallouminate.Daemon.WatchRegister.Removal.{IsHere, get-IsHere, same_id_self}
use hallouminate.Daemon.WatchRegistry.{
  ConfigSource, RegistrationId, same_id, Registration, Entry, Inner, get, without, queued,
}
use hallouminate.Indexer.Types.{CorpusKey}
use hallouminate.Daemon.WatchBinding.Same.{equivalent_self}

generation-remove_all :
    (ids : List RegistrationId) (s : Inner) → (remove_all ids s).generation ≡ s.generation
unfolding remove_all remove_registration
generation-remove_all [] s = refl
generation-remove_all (id ∷ ids) s = generation-remove_all ids (remove_registration id s)

pub data Ends (id : RegistrationId) (ids : List RegistrationId) : Type 0 where
  ends_with : (earlier : List RegistrationId) → ids ≡ earlier ++ id ∷ [] → Ends id ids

module _ (corpus_lock_keys : CorpusConfig → List CorpusKey) where
  pub data Bound (id : RegistrationId) (b : Binding) (regs : List Entry) : Type 0 where
    bound_by :
        (r : Registration)
        → get id regs ≡ some r
        → r.binding ≡ b
        → r.lock_keys ≡ corpus_lock_keys b.corpus
        → Bound id b regs

  Bound-later :
      (id j : RegistrationId) (b : Binding) (q : Registration) (regs : List Entry)
      → same_id j id ≡ false
      → Bound id b regs
      → Bound id b ((j, q) ∷ regs)
  unfolding get
  Bound-later id j b q regs other (bound_by r found binding keys) =
      bound_by r (rw (other, get) found) binding keys

  Bound-refresh :
      (id : RegistrationId) (b : Binding) (regs : List Entry)
      → IsHere id regs
      → Bound id b (refresh corpus_lock_keys id b regs)
  unfolding refresh get
  Bound-refresh id b [] here = elim here [ ]
  Bound-refresh id b ((j, q) ∷ regs) here = elim (Bool-cases (same_id j id)) [
    | inl same ↦
        rw (same, refresh)
          (bound_by (record q { lock_keys = corpus_lock_keys b.corpus; binding = b })
            (rw (same, get) refl) refl refl)
    | inr other ↦
        rw (other, refresh)
          (Bound-later id j b q (refresh corpus_lock_keys id b regs) other
            (Bound-refresh id b regs (ground (arith, other, here))))
  ]

  is_unchanged-IsHere :
      (id : RegistrationId) (b : Binding) (regs : List Entry)
      → is_unchanged corpus_lock_keys id b regs ≡ true
      → IsHere id regs
  unfolding is_unchanged
  is_unchanged-IsHere id b regs e = by_entry (get id regs) refl e
    where
      by_entry :
          (found : Option Registration)
          → get id regs ≡ found
          → is_unchanged corpus_lock_keys id b regs ≡ true
          → IsHere id regs
      by_entry none same e = ground (
        arith,
        e,
        ap {B = Bool}
            (λ (o : Option Registration). elim o [ none ↦ false | some r ↦ equivalent r.binding b ])
            same,
      )
      by_entry (some r) same e = get-IsHere id r regs same

  Bound-is_unchanged :
      (id : RegistrationId) (b : Binding) (regs : List Entry)
      → Bound id b regs
      → is_unchanged corpus_lock_keys id b regs ≡ true
  unfolding is_unchanged
  Bound-is_unchanged id b regs (bound_by r found binding keys) =
      rw (found, is_unchanged) (rw binding (equivalent_self b))

  -- One registration has taken over the binding and its keys, and nothing else has changed.
  pub record TakenOver (id : RegistrationId) (b : Binding) (old now : List Entry) : Type 0 where
    pub before : Registration
    pub was : get id old ≡ some before
    pub is_now :
        get id now ≡ some (record before { lock_keys = corpus_lock_keys b.corpus; binding = b })
    pub others : (other : RegistrationId) → same_id id other ≡ false → get other now ≡ get other old

  TakenOver-refresh :
      (id : RegistrationId) (b : Binding) (regs : List Entry)
      → IsHere id regs
      → TakenOver id b regs (refresh corpus_lock_keys id b regs)
  unfolding refresh get
  TakenOver-refresh id b [] here = elim here [ ]
  TakenOver-refresh id b ((j, q) ∷ regs) here = elim (Bool-cases (same_id j id)) [
    | inl same ↦
        rw (same, refresh)
          (record {
            before = q;
            was = rw (same, get) refl;
            is_now = rw (same, get) refl;
            others = λ other apart. rw (same_id-other j id other same apart, get) refl;
          })
    | inr other ↦
        let later = TakenOver-refresh id b regs (ground (arith, other, here)) in
        rw (other, refresh)
          (record {
            before = later.before;
            was = rw (other, get) later.was;
            is_now = rw (other, get) later.is_now;
            others = λ o apart. ground (arith, later.others o apart);
          })
  ]

  abbrev id_for : ConfigSource → Binding → RegistrationId
  id_for source b = record { source = source; corpus_key = corpus_key b.corpus b.roots }

  Bound-again :
      (source : ConfigSource) (b : Binding) (s : Inner)
      → Bound (id_for source b) b s.regs
      → (register corpus_lock_keys source b s).0 ≡ already_registered
  unfolding register
  Bound-again source b s bound = ground (arith, Bound-is_unchanged (id_for source b) b s.regs bound)

  Bound-replace :
      (id : RegistrationId) (b : Binding) (s : Inner)
      → Bound id b (replace_registration corpus_lock_keys id b s).regs
  unfolding replace_registration get
  Bound-replace id b s =
      bound_by
        (registration corpus_lock_keys b
          (observation_after (get id (remove_all (obsolete id s.regs) s).regs)) queued false)
        (rw (same_id_self id, get) refl) refl refl

  -- Any other registration but the obsolete ones is as it was.
  abbrev pub Spared : RegistrationId → List Entry → List Entry → Type 0
  Spared id old now =
      (other : RegistrationId)
      → same_id id other ≡ false
      → All (λ gone. same_id gone other ≡ false) (obsolete id old)
      → get other now ≡ get other old

  Spared-replace :
      (id : RegistrationId) (b : Binding) (s : Inner)
      → Spared id s.regs (replace_registration corpus_lock_keys id b s).regs
  unfolding replace_registration get
  Spared-replace id b s other apart live =
      rw (apart, get)
        (get-remove_registration id other (remove_all (obsolete id s.regs) s) apart
          ∙ get-remove_all (obsolete id s.regs) other s live)

  -- What a call answers, and what it leaves.
  abbrev pub Settled : ConfigSource → Binding → Inner → RegisterOutcome → Inner → Type 0
  Settled source b s new t =
      Bound (id_for source b) b t.regs
      × ((register corpus_lock_keys source b t).0 ≡ already_registered)
      × Ends (id_for source b) t.queue
      × (t.generation ≡ s.generation + 1)
      × Spared (id_for source b) s.regs t.regs
  Settled source b s already_registered t =
      Bound (id_for source b) b t.regs
      × ((register corpus_lock_keys source b t).0 ≡ already_registered)
      × TakenOver (id_for source b) b s.regs t.regs
      × (t ≡ record s { regs = t.regs })
  Settled source b s conflict t = t ≡ s
  Settled source b s limit_reached t = t ≡ s

  Settled-replace :
      (source : ConfigSource) (b : Binding) (s : Inner)
      → Settled source b s new (replace_registration corpus_lock_keys (id_for source b) b s)
  unfolding replace_registration remove_registration
  Settled-replace source b s = (
    Bound-replace (id_for source b) b s,
    Bound-again source b (replace_registration corpus_lock_keys (id_for source b) b s)
        (Bound-replace (id_for source b) b s),
    ends_with (without (id_for source b) (remove_all (obsolete (id_for source b) s.regs) s).queue)
        refl,
    ap (λ n. n + 1) (generation-remove_all (obsolete (id_for source b) s.regs) s),
    Spared-replace (id_for source b) b s,
  )

  Settled-refresh :
      (source : ConfigSource) (b : Binding) (s : Inner)
      → is_unchanged corpus_lock_keys (id_for source b) b s.regs ≡ true
      → Settled source b s already_registered
          (record s { regs = refresh corpus_lock_keys (id_for source b) b s.regs })
  Settled-refresh source b s unchanged =
      let bound =
        Bound-refresh (id_for source b) b s.regs
          (is_unchanged-IsHere (id_for source b) b s.regs unchanged) in
      (
        bound,
        Bound-again source b
            (record s { regs = refresh corpus_lock_keys (id_for source b) b s.regs }) bound,
        TakenOver-refresh (id_for source b) b s.regs
            (is_unchanged-IsHere (id_for source b) b s.regs unchanged),
        refl,
      )

  -- Whatever is registered, and whatever the registry holds: a conflict and a full registry leave it as
  -- it was. Otherwise the corpus is bound as asked, under its own lock keys, so that the same call again
  -- answers that it is registered. A registration that is already there takes over the binding and its
  -- keys, and nothing else in the registry changes, while a new one stands last in the queue, the
  -- generation is one higher, and any other but the obsolete roots of the same corpus is as it was.
  pub register-Settled :
      (source : ConfigSource) (b : Binding) (s : Inner)
      → Settled source b s
          (register corpus_lock_keys source b s).0
          (register corpus_lock_keys source b s).1
  unfolding register
  register-Settled source b s =
      elim (Bool-cases (is_unchanged corpus_lock_keys (id_for source b) b s.regs)) [
        | inl same ↦ rw (same, register) (Settled-refresh source b s same)
        | inr changed ↦ elim (Bool-cases (binding_conflict (id_for source b) b s.regs)) [
          | inl clash ↦ rw (changed, clash, register) refl
          | inr apart ↦ elim (Bool-cases (exceeds_cap corpus_lock_keys (id_for source b) s.regs)) [
            | inl full ↦ rw (changed, apart, full, register) refl
            | inr fits ↦ rw (changed, apart, fits, register) (Settled-replace source b s)
          ]
        ]
      ]
