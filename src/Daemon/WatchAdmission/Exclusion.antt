-- ===== src/Daemon/WatchAdmission/Exclusion.antt =====
-- The passes in flight of crates/hallouminate-daemon/src/watch/registry.rs: no two of them lock one
-- corpus key, whatever the registry is asked to do.
use hallouminate.Common.{
  ℕ, suc, ◌≡◌, refl, ◌∙◌, ap, ◌≤◌, ◌⊎◌, inl, inr, false, Bool-cases, Option-cases, Option, none,
  some, List, [], ◌∷◌, ◌++◌, arith, length, length-append, All, All-append,
}
use hallouminate.Daemon.WatchAdmission.{
  PassOutcome, begin_next_catch_up, finish_members, finish_catch_up, remove_led, members_of,
  led_group, is_registered,
}
use hallouminate.Daemon.WatchAdmission.Choice.{Admits, begin_next_catch_up-Admits}
use hallouminate.Daemon.WatchRegistry.{
  RegistrationId, Entry, ActiveGroup, Inner, PendingWork, get, any_key, active_locks_overlap,
  mark_dirty, record_pending, reconcile_due, mark_reconcile_due_all, release_admission,
  release_group,
}
use hallouminate.Text.{Text}

-- No key of the earlier pass is one of the later.
abbrev pub Apart : ActiveGroup → ActiveGroup → Type 0
Apart earlier later = any_key later.lock_keys earlier.lock_keys ≡ false

abbrev pub AllApart : List ActiveGroup → Type 0
AllApart [] = Unit
AllApart (g ∷ gs) = All (Apart g) gs × AllApart gs

-- At most `limit` passes are in flight, no two of them under one key.
abbrev pub Exclusive : ℕ → List ActiveGroup → Type 0
Exclusive limit active = (length active ≤ limit) × AllApart active

AllApart-append :
    (gs : List ActiveGroup) (h : ActiveGroup)
    → AllApart gs
    → active_locks_overlap gs h.lock_keys ≡ false
    → AllApart (gs ++ h ∷ [])
unfolding active_locks_overlap
AllApart-append [] h a free = (tt, tt)
AllApart-append (g ∷ gs) h (a, rest) free = (
  All-append (Apart g) gs (h ∷ []) a (ground (arith, free), tt),
  AllApart-append gs h rest (ground (arith, free)),
)

remove_led-All :
    (g : ActiveGroup) (id : RegistrationId) (gs : List ActiveGroup)
    → All (Apart g) gs
    → All (Apart g) (remove_led id gs)
unfolding remove_led
remove_led-All g id [] a = tt
remove_led-All g id (h ∷ gs) a = ground (arith, remove_led-All g id gs a.1)

remove_led-AllApart :
    (id : RegistrationId) (gs : List ActiveGroup) → AllApart gs → AllApart (remove_led id gs)
unfolding remove_led
remove_led-AllApart id [] h = tt
remove_led-AllApart id (g ∷ gs) (a, rest) =
    ground (arith, remove_led-All g id gs a, remove_led-AllApart id gs rest)

length-remove_led :
    (id : RegistrationId) (gs : List ActiveGroup) → length (remove_led id gs) ≤ length gs
unfolding remove_led
length-remove_led id [] = omega arith
length-remove_led id (g ∷ gs) = ground (arith, length-remove_led id gs)

release-All :
    (g : ActiveGroup) (id : RegistrationId) (gs : List ActiveGroup)
    → All (Apart g) gs
    → All (Apart (release_group id g)) (release_admission id gs)
unfolding release_admission
release-All g id [] a = tt
release-All g id (h ∷ gs) (a, rest) = (a, release-All g id gs rest)

release-AllApart :
    (id : RegistrationId) (gs : List ActiveGroup) → AllApart gs → AllApart (release_admission id gs)
unfolding release_admission
release-AllApart id [] h = tt
release-AllApart id (g ∷ gs) (a, rest) = (release-All g id gs a, release-AllApart id gs rest)

length-release :
    (id : RegistrationId) (gs : List ActiveGroup) → length (release_admission id gs) ≡ length gs
unfolding release_admission
length-release id [] = refl
length-release id (g ∷ gs) = ap suc (length-release id gs)

mark_dirty-active : (id : RegistrationId) (s : Inner) → (mark_dirty id s).active ≡ s.active
unfolding mark_dirty
mark_dirty-active id s = ground arith

reconcile_due-active : (ids : List Entry) (s : Inner) → (reconcile_due ids s).active ≡ s.active
unfolding reconcile_due
reconcile_due-active [] s = refl
reconcile_due-active ((id, r) ∷ ids) s = reconcile_due-active ids _ ∙ mark_dirty-active id _

finish_members-active :
    (id : RegistrationId) (outcome : PassOutcome) (ms : List RegistrationId) (w : PendingWork)
    (s : Inner)
    → (finish_members id outcome ms w s).1.active ≡ s.active
unfolding finish_members
finish_members-active id outcome [] w s = refl
finish_members-active id outcome (m ∷ ms) w s = elim (Option-cases (get m s.regs)) [
  | inl gone ↦ rw (gone, finish_members) (finish_members-active id outcome ms w s)
  | inr (reg, e) ↦ rw (e, finish_members) (finish_members-active id outcome ms _ _)
]

-- What finishing a pass makes of the passes in flight.
finish_catch_up-active :
    (id : RegistrationId) (outcome : PassOutcome) (s : Inner)
    → ((finish_catch_up id outcome s).1.active ≡ s.active)
      ⊎ ((finish_catch_up id outcome s).1.active ≡ remove_led id s.active)
unfolding finish_catch_up
finish_catch_up-active id outcome s = elim (Option-cases (led_group id s.active)) [
  | inl alone ↦ elim (Bool-cases (is_registered id s.regs)) [
    | inr gone ↦ inl (rw (alone, gone, finish_catch_up) refl)
    | inl here ↦
        inl (rw (alone, here, finish_catch_up) (finish_members-active id outcome (id ∷ []) _ s))
  ]
  | inr (g, e) ↦
      inr (rw (e, finish_catch_up) (finish_members-active id outcome (members_of id s.regs g) _ _))
]

-- What the registry is asked to do: to start or finish a pass, to queue a registration with changed
-- paths or all of them, and to drop, replace or re-key one, which releases its admission.
pub data Step (limit : ℕ) : Inner → Inner → Type 0 where
  begins : (s : Inner) → Step limit s (begin_next_catch_up limit s).1
  finishes :
      (s : Inner) (id : RegistrationId) (outcome : PassOutcome)
      → Step limit s (finish_catch_up id outcome s).1
  changes :
      (s : Inner) (id : RegistrationId) (ps : List Text) → Step limit s (record_pending id ps s)
  ticks : (s : Inner) → Step limit s (mark_reconcile_due_all s)
  rebinds :
      (s : Inner) (id : RegistrationId) (regs : List Entry) (queue : List RegistrationId)
      → Step limit s
          (record s { regs = regs; queue = queue; active = release_admission id s.active })

pub data Reachable (limit : ℕ) : Inner → Type 0 where
  starts :
      (regs : List Entry) (queue : List RegistrationId)
      → Reachable limit (record { regs = regs; queue = queue; active = []; generation = 0 })
  steps : (s t : Inner) → Reachable limit s → Step limit s t → Reachable limit t

begin-Exclusive :
    (limit : ℕ) (s : Inner) (o : Option RegistrationId × Inner)
    → Admits s limit o
    → Exclusive limit s.active
    → Exclusive limit o.1.active
begin-Exclusive limit s o (inl (full, same)) h = rw (ap (λ p. p.1.active) same) h
begin-Exclusive limit s (none, t) (inr (below, (all, same))) h = rw same h
begin-Exclusive limit s (some id, t)
      (inr (below, (before, after, reg, e, all, found, fits, (g, same, leads, keys))))
      (few, apart) =
    rw same (
      omega (arith, length-append s.active (g ∷ []), below),
      AllApart-append s.active g apart (rw keys (fits.2)),
    )

-- One step keeps the passes apart.
step-Exclusive :
    (limit : ℕ) (s t : Inner) → Step limit s t → Exclusive limit s.active → Exclusive limit t.active
unfolding record_pending mark_reconcile_due_all
step-Exclusive limit _ _ (begins s) h =
    begin-Exclusive limit s (begin_next_catch_up limit s) (begin_next_catch_up-Admits s limit) h
step-Exclusive limit _ _ (finishes s id outcome) (few, apart) =
    elim (finish_catch_up-active id outcome s) [
      | inl same ↦ rw same (few, apart)
      | inr led ↦
          rw led (
            omega (arith, length-remove_led id s.active, few),
            remove_led-AllApart id s.active apart,
          )
    ]
step-Exclusive limit _ _ (changes s id ps) h = rw (mark_dirty-active id _) h
step-Exclusive limit _ _ (ticks s) h = rw (reconcile_due-active s.regs s) h
step-Exclusive limit _ _ (rebinds s id regs queue) (few, apart) =
    (omega (arith, length-release id s.active, few), release-AllApart id s.active apart)

-- However the registry is used from its start, at most `limit` passes are in flight, and no two of
-- them lock one corpus key.
pub Reachable-Exclusive : (limit : ℕ) (s : Inner) → Reachable limit s → Exclusive limit s.active
Reachable-Exclusive limit _ (starts regs queue) = (omega arith, tt)
Reachable-Exclusive limit _ (steps s t reached step) =
    step-Exclusive limit s t step (Reachable-Exclusive limit s reached)
