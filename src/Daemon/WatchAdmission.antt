-- ===== src/Daemon/WatchAdmission.antt =====
-- The passes of crates/hallouminate-daemon/src/watch/registry.rs: which registrations may reconcile
-- next (`begin_next_catch_up`), and what a finished pass leaves (`finish_catch_up`).
pub mod Choice
pub mod Exclusion
use hallouminate.Common.{
  ℕ, ◌+◌, Bool, true, false, ◌&&◌, not, Option, none, some, List, [], ◌∷◌, ◌++◌, length, leb,
  if◌then◌else◌,
}
use hallouminate.Daemon.WatchBinding.{Binding, equivalent}
use hallouminate.Daemon.WatchRegistry.{
  RegistrationId, same_id, Registration, Entry, ActiveGroup, Inner, PendingWork, idle, full_root,
  is_idle, queued, in_flight, finished, is_queued, get, update, without, active_locks_overlap,
}
use hallouminate.Text.{Text}

-- The queued registrations that may share the leader's pass.
unfoldable pub group_members : Binding → List Entry → List RegistrationId → List RegistrationId
unfolding get
group_members leader regs [] = []
group_members leader regs (id ∷ ids) =
    let rest = group_members leader regs ids in
    elim (get id regs) [
      | none ↦ rest
      | some m ↦ if is_queued m.catch_up && equivalent m.binding leader then id ∷ rest else rest
    ]

unfoldable pub start_members : List RegistrationId → List Entry → List Entry
unfolding update
start_members [] regs = regs
start_members (id ∷ ids) regs =
    start_members ids (update id (λ r. record r { catch_up = in_flight }) regs)

unfoldable pub without_all : List RegistrationId → List RegistrationId → List RegistrationId
unfolding without
without_all [] queue = queue
without_all (id ∷ ids) queue = without_all ids (without id queue)

-- The pass of a leader and of all that are compatible with it.
unfoldable pub admit : RegistrationId → Registration → (rest : List RegistrationId) → Inner → Inner
unfolding group_members start_members without_all
admit id reg rest s =
    let regs = update id (λ r. record r { catch_up = in_flight }) s.regs in
    let members = group_members reg.binding regs rest in
    record s {
      regs = start_members members regs;
      queue = without_all members rest;
      active =
          s.active
          ++ record { leader = id; lock_keys = reg.lock_keys; members = id ∷ members; valid = true }
            ∷ [];
    }

-- The loop over the queue; what was deferred goes back to its front, and what is gated to its end.
unfoldable pub admit_next :
    (queue deferred gated : List RegistrationId) → Inner → Option RegistrationId × Inner
unfolding admit get active_locks_overlap
admit_next [] deferred gated s = (none, record s { queue = deferred ++ gated })
admit_next (id ∷ rest) deferred gated s = elim (get id s.regs) [
  | none ↦ admit_next rest deferred gated s
  | some reg ↦
      let gate = admit_next rest deferred (gated ++ id ∷ []) s in
      let defer = admit_next rest (deferred ++ id ∷ []) gated s in
      let skip = admit_next rest deferred gated s in
      if not (is_queued reg.catch_up)
      then skip
      else if reg.retry_on_tick
      then gate
      else if active_locks_overlap s.active reg.lock_keys
      then defer
      else let t = admit id reg rest s in
        (some id, record t { queue = deferred ++ t.queue ++ gated })
]

unfoldable pub begin_next_catch_up : ℕ → Inner → Option RegistrationId × Inner
unfolding admit_next
begin_next_catch_up limit s =
    if leb limit (length s.active) then (none, s) else admit_next s.queue [] [] s

-- How a pass ended: the error it failed with, if any.
abbrev pub PassOutcome : Type 0
PassOutcome = Option Text

-- The outcome for one member: what the registration becomes, whether it is queued again, and the
-- pending work that is returned for the leader.
pub record MemberEnd : Type 0 where
  pub reg : Registration
  pub requeued : Bool
  pub returned : PendingWork

abbrev pub after_success : Bool → Registration → Registration
after_success leads r = record r {
  reconciled_once = true;
  last_error = none;
  pending = if leads then idle else r.pending;
  catch_up = if is_idle r.pending then finished else queued;
}

unfoldable pub finish_member : (leads : Bool) → PassOutcome → Registration → MemberEnd
finish_member leads none r = record {
  reg = after_success leads r;
  requeued = not (is_idle r.pending);
  returned = r.pending;
}
finish_member leads (some error) r = record {
  reg = record r {
    reconciled_once = if leads then true else r.reconciled_once;
    last_error = some error;
    retry_on_tick = true;
    pending = full_root;
    catch_up = queued;
  };
  requeued = true;
  returned = full_root;
}

-- The loop over the members of the pass that `id` led.
unfoldable pub finish_members :
    RegistrationId → PassOutcome → List RegistrationId → PendingWork → Inner → PendingWork × Inner
unfolding finish_member get update same_id
finish_members id outcome [] returned s = (returned, s)
finish_members id outcome (m ∷ ms) returned s = elim (get m s.regs) [
  | none ↦ finish_members id outcome ms returned s
  | some reg ↦
      let end : MemberEnd = finish_member (same_id m id) outcome reg in
      finish_members id outcome ms (if same_id m id then end.returned else returned) (record s {
        regs = update m (λ r. end.reg) s.regs;
        queue = if end.requeued then s.queue ++ m ∷ [] else s.queue;
      })
]

-- `position` and `remove` of the group that a registration leads.
unfoldable pub led_group : RegistrationId → List ActiveGroup → Option ActiveGroup
unfolding same_id
led_group id [] = none
led_group id (g ∷ gs) = let rest = led_group id gs in if same_id g.leader id then some g else rest

unfoldable pub remove_led : RegistrationId → List ActiveGroup → List ActiveGroup
unfolding same_id
remove_led id [] = []
remove_led id (g ∷ gs) = let rest = remove_led id gs in if same_id g.leader id then gs else g ∷ rest

abbrev pub is_registered : RegistrationId → List Entry → Bool
unfolding get
is_registered id regs = elim (get id regs) [ none ↦ false | some r ↦ true ]

-- The members of a group, or the leader of one that lost them all.
unfoldable pub members_of : RegistrationId → List Entry → ActiveGroup → List RegistrationId
unfolding get
members_of id regs g = elim g.members [
  | [] ↦ if g.valid && is_registered id regs then id ∷ [] else []
  | m ∷ ms ↦ m ∷ ms
]

unfoldable pub ended_by :
    RegistrationId → PassOutcome → List RegistrationId → Inner → PendingWork × Inner
unfolding finish_members
ended_by id outcome members s =
    let (returned, t) = finish_members id outcome members idle s in
    (returned, record t { generation = t.generation + 1 })

unfoldable pub finish_catch_up : RegistrationId → PassOutcome → Inner → PendingWork × Inner
unfolding led_group remove_led members_of ended_by get
finish_catch_up id outcome s = elim (led_group id s.active) [
  | some g ↦
      ended_by id outcome (members_of id s.regs g) (record s { active = remove_led id s.active })
  | none ↦ if is_registered id s.regs then ended_by id outcome (id ∷ []) s else (idle, s)
]
