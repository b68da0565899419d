-- ===== src/Daemon/Backpressure.antt =====
-- crates/hallouminate-daemon/src/backpressure.rs: the gate that every mutation passes.
--
-- Time is in nanoseconds. What the gate cannot know is an argument: the level that each probe
-- would observe, and by how much each sleep overruns. The log lines are left out, and so are their
-- throttles in the gate and the probe; the throttle itself stands by itself here.
pub mod Levels
pub mod Gate
pub mod Warnings
use hallouminate.Common.{
  ℕ, zero, suc, ◌+◌, ◌-◌, ◌*◌, ◌%◌, min, max, Bool, true, false, ◌&&◌, Option, none, some, leb,
  ◌==◌, if◌then◌else◌, u64_mod,
}
use hallouminate.Daemon.Debt.{
  MaintenanceDebt, DebtLevel, fine, soft, hard, DaemonConfig, classify, DebtCache, record_at,
  fresh_level_at,
}

-- What the store's `debt()` reports: the chunk table's and the file table's counts.
pub record StoreDebt : Type 0 where
  pub fragments : ℕ
  pub stale_versions : ℕ
  pub files_fragments : ℕ
  pub files_stale_versions : ℕ

abbrev pub combined : StoreDebt → MaintenanceDebt
combined d = record {
  fragments = (d.fragments + d.files_fragments) % u64_mod;
  stale_versions = (d.stale_versions + d.files_stale_versions) % u64_mod;
}

-- The gap between two throttled warnings, in nanoseconds.
abbrev pub warn_window : ℕ
warn_window = 60000000000

pub record WarnThrottle : Type 0 where
  pub last : Option ℕ

abbrev pub new_throttle : WarnThrottle
new_throttle = record { last = none }

unfoldable pub should_log : WarnThrottle → ℕ → WarnThrottle × Bool
should_log t now = elim t.last [
  | none ↦ (record { last = some now }, true)
  | some at ↦ if leb warn_window (now - at) then (record { last = some now }, true) else (t, false)
]

-- `none` is a failed read; it leaves the cache alone.
unfoldable pub refresh_observed :
    DaemonConfig → DebtCache → Option StoreDebt → ℕ → DebtLevel × DebtCache
refresh_observed cfg cache none now = (fine, cache)
refresh_observed cfg cache (some d) now =
    let level = classify (combined d) cfg in (level, record_at cache level now)

abbrev pub nanos_per_sec : ℕ
nanos_per_sec = 1000000000

unfoldable pub observed_level :
    DaemonConfig → DebtCache → Option StoreDebt → ℕ → DebtLevel × DebtCache
unfolding refresh_observed
observed_level cfg cache read now =
    elim (fresh_level_at cache (cfg.debt_cache_ttl_secs * nanos_per_sec) now) [
      | some level ↦ (level, cache)
      | none ↦ refresh_observed cfg cache read now
    ]

-- The part of the probe behind the observation.
unfoldable pub admit_without_maintenance : Bool → DebtLevel → DebtLevel
admit_without_maintenance disabled hard = if disabled then soft else hard
admit_without_maintenance disabled level = level

unfoldable pub probe : DaemonConfig → DebtCache → Option StoreDebt → ℕ → DebtLevel × DebtCache
unfolding observed_level admit_without_maintenance
probe cfg cache read now =
    let (level, cache') = observed_level cfg cache read now in
    (admit_without_maintenance (cfg.maintenance_interval_secs == 0) level, cache')

pub data Verdict : Type 0 where
  admitted retryable_hard_debt out_of_fuel : Verdict

pub record GateRun : Type 0 where
  pub verdict : Verdict
  pub ended_at : ℕ
  pub probes : ℕ

abbrev pub ends : Verdict → ℕ → ℕ → GateRun
ends v now n = record { verdict = v; ended_at = now; probes = n }

-- `level_of k` is what the `k`-th probe observes, and `overrun k` by how much the `k`-th sleep
-- overshoots its deadline. `k` counts both from the first probe, which no sleep precedes.
module _ (level_of : ℕ → DebtLevel) (overrun : ℕ → ℕ) where
  -- The loop of the `Hard` branch: its probe number, and the clock at the top of a round.
  unfoldable pub block : ℕ → (deadline poll k now : ℕ) → GateRun
  block zero deadline poll k now = ends out_of_fuel now k
  block (suc fuel) deadline poll k now =
      let woken = min (now + poll) deadline + overrun k in
      let rest = block fuel deadline poll (suc k) woken in
      if leb deadline now
      then ends retryable_hard_debt now k
      else elim (level_of k) [ hard ↦ rest | _ ↦ ends admitted woken (suc k) ]

  unfoldable pub gate : ℕ → (soft_delay hard_wait poll now : ℕ) → GateRun
  unfolding block
  gate fuel soft_delay hard_wait poll now = elim (level_of 0) [
    | fine ↦ ends admitted now 1
    | soft ↦ ends admitted (now + soft_delay + overrun 0) 1
    | hard ↦ block fuel (now + hard_wait) poll 1 now
  ]

  -- The gate with the periods of the configuration, and fuel for every round it can take.
  unfoldable pub await_debt_gate : DaemonConfig → ℕ → GateRun
  unfolding gate
  await_debt_gate cfg now =
      let hard_wait = cfg.hard_block_wait_secs * nanos_per_sec in
      gate (suc hard_wait) (cfg.debt_soft_delay_ms * 1000000) hard_wait
        (max cfg.debt_cache_ttl_secs 1 * nanos_per_sec) now
