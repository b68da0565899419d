-- ===== src/Daemon/WatchAdmission/Choice.antt =====
-- Which registration of crates/hallouminate-daemon/src/watch/registry.rs the next catch-up pass is for.
use native.Mathlib.Decide.{dec_le}
use mathlib.Core.Path.{subst}
use mathlib.Core.Option.{some-injective}
use hallouminate.Common.{
  ℕ, ◌≡◌, refl, ap, sym, ◌∙◌, ◌≤◌, ◌<◌, ◌⊎◌, inl, inr, Bool, true, false, not, Option, none, some,
  List, [], ◌∷◌, ◌++◌, arith, length, All, leb, if◌then◌else◌,
}
use hallouminate.Daemon.WatchAdmission.{admit, admit_next, begin_next_catch_up}
use hallouminate.Daemon.WatchRegistry.{
  RegistrationId, Registration, ActiveGroup, Inner, get, is_queued, active_locks_overlap,
}

module _ (s : Inner) where
  -- The registration is queued, does not wait for the next tick, and shares no lock key with a pass
  -- in flight.
  abbrev pub Eligible : Registration → Type 0
  Eligible reg =
      (is_queued reg.catch_up ≡ true)
      × (reg.retry_on_tick ≡ false)
      × (active_locks_overlap s.active reg.lock_keys ≡ false)

  abbrev pub NotEligible : RegistrationId → Type 0
  NotEligible id = (reg : Registration) → get id s.regs ≡ some reg → Eligible reg → ⊥

  -- One more pass in flight, which the registration leads under its lock keys.
  abbrev pub Leads : RegistrationId → Registration → Inner → Type 0
  Leads id reg t =
      (g : ActiveGroup) × (t.active ≡ s.active ++ g ∷ [])
      × (g.leader ≡ id)
      × (g.lock_keys ≡ reg.lock_keys)

  -- The choice from a queue: the first eligible registration, if there is one.
  abbrev pub ChosenFrom : List RegistrationId → Option RegistrationId × Inner → Type 0
  ChosenFrom queue (none, t) = All NotEligible queue × (t.active ≡ s.active)
  ChosenFrom queue (some id, t) =
      (before : List RegistrationId) × (after : List RegistrationId) × (reg : Registration) × (queue
        ≡ before ++ id ∷ after)
      × All NotEligible before
      × (get id s.regs ≡ some reg)
      × Eligible reg
      × Leads id reg t

  pass_over :
      (id : RegistrationId) (queue : List RegistrationId) (o : Option RegistrationId × Inner)
      → NotEligible id
      → ChosenFrom queue o
      → ChosenFrom (id ∷ queue) o
  pass_over id queue (none, t) passed (all, same) = ((passed, all), same)
  pass_over id queue (some j, t) passed (before, after, reg, e, all, found, fits, leads) =
      (id ∷ before, after, reg, ap (λ q. id ∷ q) e, (passed, all), found, fits, leads)

  unfit :
      (id : RegistrationId) (reg : Registration)
      → get id s.regs ≡ some reg
      → (Eligible reg → ⊥)
      → NotEligible id
  unfit id reg e h other f fits = h (subst Eligible (some-injective other reg (sym f ∙ e)) fits)

  -- One round, by what it reads of the registration.
  round-ChosenFrom :
      (id : RegistrationId) (rest : List RegistrationId) (deferred gated : List RegistrationId)
      → (found : Option Registration) → get id s.regs ≡ found
      → ((deferred gated : List RegistrationId)
          → ChosenFrom rest (admit_next rest deferred gated s))
      → ChosenFrom (id ∷ rest) (elim found [
        | none ↦ admit_next rest deferred gated s
        | some reg ↦
            if not (is_queued reg.catch_up)
            then admit_next rest deferred gated s
            else if reg.retry_on_tick
            then admit_next rest deferred (gated ++ id ∷ []) s
            else if active_locks_overlap s.active reg.lock_keys
            then admit_next rest (deferred ++ id ∷ []) gated s
            else let t = admit id reg rest s in
              (some id, record t { queue = deferred ++ t.queue ++ gated })
      ])
  unfolding admit
  round-ChosenFrom id rest deferred gated none e later =
      pass_over id rest _ (λ reg f fits. absurd (ground (arith, e, f))) (later deferred gated)
  round-ChosenFrom id rest deferred gated (some reg) e later =
      stage (is_queued reg.catch_up) reg.retry_on_tick (active_locks_overlap s.active reg.lock_keys)
        refl refl refl
    where
      stage :
          (q r o : Bool)
          → is_queued reg.catch_up ≡ q
          → reg.retry_on_tick ≡ r
          → active_locks_overlap s.active reg.lock_keys ≡ o
          → ChosenFrom (id ∷ rest) (
              if not q
              then admit_next rest deferred gated s
              else if r
              then admit_next rest deferred (gated ++ id ∷ []) s
              else if o
              then admit_next rest (deferred ++ id ∷ []) gated s
              else let t = admit id reg rest s in
                (some id, record t { queue = deferred ++ t.queue ++ gated }))
      stage false r o eq er eo =
          pass_over id rest _ (unfit id reg e (λ fits. ground (arith, eq, fits.0)))
            (later deferred gated)
      stage true true o eq er eo =
          pass_over id rest _ (unfit id reg e (λ fits. ground (arith, er, fits.1)))
            (later deferred (gated ++ id ∷ []))
      stage true false true eq er eo =
          pass_over id rest _ (unfit id reg e (λ fits. ground (arith, eo, fits.2)))
            (later (deferred ++ id ∷ []) gated)
      stage true false false eq er eo =
          ([], rest, reg, refl, tt, e, (eq, er, eo), (_, refl, refl, refl))

  admit_next-ChosenFrom :
      (queue deferred gated : List RegistrationId)
      → ChosenFrom queue (admit_next queue deferred gated s)
  unfolding admit_next
  admit_next-ChosenFrom [] deferred gated = (tt, refl)
  admit_next-ChosenFrom (id ∷ rest) deferred gated =
      round-ChosenFrom id rest deferred gated (get id s.regs) refl (admit_next-ChosenFrom rest)

  -- The outcome for a limit on the passes in flight.
  abbrev pub Admits : ℕ → Option RegistrationId × Inner → Type 0
  Admits limit o =
      ((limit ≤ length s.active) × (o ≡ (none, s)))
      ⊎ ((length s.active < limit) × ChosenFrom s.queue o)

  -- With the limit of passes reached, nothing is admitted or changed. Below it, the first
  -- registration of the queue is admitted that is queued, does not wait for the next tick, and shares
  -- no lock key with a pass in flight; its pass joins those in flight under its own lock keys. None is
  -- admitted exactly where the queue has none such.
  pub begin_next_catch_up-Admits : (limit : ℕ) → Admits limit (begin_next_catch_up limit s)
  unfolding begin_next_catch_up
  begin_next_catch_up-Admits limit = elim (dec_le limit (length s.active)) [
    | yes at_limit ↦
        let e : leb limit (length s.active) ≡ true = ground arith in rw e (inl (at_limit, refl))
    | no below ↦
        let e : leb limit (length s.active) ≡ false = ground arith in
        rw e (inr (omega (arith, below), admit_next-ChosenFrom s.queue [] []))
  ]
