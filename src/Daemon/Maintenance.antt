-- ===== src/Daemon/Maintenance.antt =====
-- crates/hallouminate-daemon/src/maintenance.rs: when a due maintenance pass runs, at which pace, and
-- in which slices, with the defer gates of state.rs. Durations are nanoseconds; what the runtime
-- decides is given for each round, and `k` counts the rounds.
pub mod Deferral
pub mod Naps
pub mod Slices
use hallouminate.Common.{
  ℕ, zero, suc, ◌+◌, ◌-◌, ◌*◌, ◌/◌, min, max, Bool, true, false, ◌||◌, Option, none, some, List, [],
  ◌∷◌, ltb, leb, ◌==◌, not, if◌then◌else◌,
}
use hallouminate.Daemon.Debt.{DebtLevel, fine, soft, hard}

abbrev pub second : ℕ
second = 1000000000

abbrev pub defer_recheck : ℕ
defer_recheck = 60 * second

-- The fields of `[daemon]` that the loop reads.
pub record MaintenanceConfig : Type 0 where
  pub defer_bound_secs : ℕ
  pub paced_slice_budget : ℕ
  pub paced_slice_sleep_ms : ℕ

pub data MaintenanceTick : Type 0 where
  continue stop : MaintenanceTick

pub data DeferReason : Type 0 where
  active io_pressure : DeferReason

pub data Pace : Type 0 where
  full : Pace
  paced : (slice_budget sleep : ℕ) → Pace

unfoldable pub forced_pace : Bool → MaintenanceConfig → Pace
forced_pace pressure_elevated cfg =
    if pressure_elevated
    then paced (max cfg.paced_slice_budget 1) (cfg.paced_slice_sleep_ms * 1000000)
    else full

-- What one round of the defer gates reads: the external connections and the last activity, the
-- clock in seconds, the pressure probe, the debt level, and the probe once more for the pace.
pub record Check : Type 0 where
  pub external_connections : ℕ
  pub last_activity_secs : ℕ
  pub now_secs : ℕ
  pub elevated : Bool
  pub level : DebtLevel
  pub elevated_at_pace : Bool

unfoldable pub is_idle : (last_use_secs now_secs idle_secs : ℕ) → Bool
is_idle last_use_secs now_secs idle_secs = leb idle_secs (now_secs - last_use_secs)

-- `maintenance_defer_reason_at`
unfoldable pub defer_reason : Check → Option DeferReason
unfolding is_idle
defer_reason c =
    if not (c.external_connections == 0)
    then some active
    else if not (is_idle c.last_activity_secs c.now_secs 60)
    then some active
    else if c.elevated
    then some io_pressure
    else none

abbrev pub is_hard : DebtLevel → Bool
is_hard hard = true
is_hard level = false

-- How the wait for a due pass ends: in round `k`, deferred for so long.
pub data Due : Type 0 where
  runs : (hard_forced : Bool) → (pace : Pace) → (k deferred_for : ℕ) → Due
  cancelled : (k : ℕ) → Due
  out_of_fuel : Due

module _ (cfg : MaintenanceConfig) (checks : ℕ → Check) (is_cancelled : ℕ → Bool)
    (overrun : ℕ → ℕ) where
  abbrev pub defer_bound : ℕ
  defer_bound = cfg.defer_bound_secs * second

  -- The `while let` over the defer gates.
  unfoldable pub await_due : (fuel k deferred_for : ℕ) → Due
  unfolding defer_reason forced_pace
  await_due zero k deferred_for = out_of_fuel
  await_due (suc fuel) k deferred_for =
      let recheck = min defer_recheck (defer_bound - deferred_for) in
      let rest = await_due fuel (suc k) (deferred_for + recheck + overrun k) in
      elim (defer_reason (checks k)) [
        | none ↦ runs false full k deferred_for
        | some reason ↦
            if leb defer_bound deferred_for || is_hard (checks k).level
            then runs (is_hard (checks k).level) (forced_pace (checks k).elevated_at_pace cfg) k
                deferred_for
            else if is_cancelled k
            then cancelled k
            else rest
      ]

  -- A tick of the loop, up to its pass; `at_start` is read before the gates.
  unfoldable pub due_pass : Check → (fuel : ℕ) → Due
  unfolding await_due forced_pace
  due_pass at_start fuel =
      if is_hard at_start.level
      then runs true (forced_pace at_start.elevated_at_pace cfg) 0 0
      else await_due fuel 0 0

-- The chunks that `sleep_with_heartbeat` sleeps: each but the last is followed by a heartbeat and a
-- look at the debt level, and `Hard` ends the sleep there.
unfoldable pub sleep_with_heartbeat : (ℕ → DebtLevel) → (fuel k remaining : ℕ) → List ℕ
sleep_with_heartbeat level_at zero k remaining = []
sleep_with_heartbeat level_at (suc fuel) k remaining =
    let rest = sleep_with_heartbeat level_at fuel (suc k) (remaining - defer_recheck) in
    if ltb defer_recheck remaining
    then defer_recheck ∷ (if is_hard (level_at k) then [] else rest)
    else remaining ∷ []

-- One slice: how its tick ended, and the fragments it removed (`none` where it failed or the store
-- did not count them).
pub record Slice : Type 0 where
  pub tick : MaintenanceTick
  pub fragments_removed : Option ℕ

-- A pass: how it ended, and for each of its slices whether it ran GC.
pub record PassRun : Type 0 where
  pub ended : Option MaintenanceTick
  pub gc_runs : List Bool

abbrev pub ends : MaintenanceTick → Bool → PassRun
ends tick run_gc = record { ended = some tick; gc_runs = run_gc ∷ [] }

abbrev pub after_slice : Bool → PassRun → PassRun
after_slice run_gc p = record { ended = p.ended; gc_runs = run_gc ∷ p.gc_runs }

module _ (slice : ℕ → Slice) (is_shut_down : ℕ → Bool) where
  -- The loop over the slices, and the sleeps between them.
  unfoldable pub slices : (slice_budget : ℕ) → (fuel k : ℕ) → (run_gc : Bool) → PassRun
  slices slice_budget zero k run_gc = record { ended = none; gc_runs = [] }
  slices slice_budget (suc fuel) k run_gc =
      let rest = slices slice_budget fuel (suc k) false in
      elim (slice k).tick [
        | stop ↦ ends stop run_gc
        | continue ↦ elim (slice k).fragments_removed [
          | none ↦ ends continue run_gc
          | some removed ↦
              if ltb removed slice_budget
              then ends continue run_gc
              else if is_shut_down k
              then ends stop run_gc
              else after_slice run_gc rest
        ]
      ]

  -- `run_maintenance_pass_with`
  unfoldable pub run_maintenance_pass : (fuel : ℕ) → Pace → (allow_gc : Bool) → PassRun
  unfolding slices
  run_maintenance_pass fuel full allow_gc = ends (slice 0).tick allow_gc
  run_maintenance_pass fuel (paced slice_budget sleep) allow_gc =
      slices slice_budget fuel 0 allow_gc
