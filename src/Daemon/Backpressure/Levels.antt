-- ===== src/Daemon/Backpressure/Levels.antt =====
-- The level that a probe observes.
use hallouminate.Common.{ℕ, ◌+◌, ◌*◌, ◌≤◌, ◌<◌, ◌≡◌, ◌≢◌, Option, none, some, arith}
use hallouminate.Daemon.Debt.{
  MaintenanceDebt, DebtLevel, fine, soft, hard, DaemonConfig, classify, DebtCache, record_at,
  fresh_level_at,
}
use hallouminate.Daemon.Backpressure.{StoreDebt, observed_level, probe, nanos_per_sec}

-- The levels in the order of their severity.
abbrev pub rank : DebtLevel → ℕ
rank fine = 0
rank soft = 1
rank hard = 2

-- More debt in either signal never lowers the level.
pub classify_mono :
    (d e : MaintenanceDebt) (cfg : DaemonConfig)
    → d.fragments ≤ e.fragments
    → d.stale_versions ≤ e.stale_versions
    → rank (classify d cfg) ≤ rank (classify e cfg)
unfolding classify
classify_mono d e cfg f s = ground arith

-- With automatic maintenance off, no probe observes `Hard`, whatever the cache and the store hold.
pub probe-ne-hard :
    (cfg : DaemonConfig) (cache : DebtCache) (read : Option StoreDebt) (now : ℕ)
    → cfg.maintenance_interval_secs ≡ 0
    → (probe cfg cache read now).0 ≢ hard
unfolding probe
probe-ne-hard cfg cache read now off = ground arith

-- Within the cache's lifetime a second probe observes what the first one recorded, whatever the
-- store would report by then, and leaves the cache alone.
pub observed_level_cached :
    (cfg : DaemonConfig) (cache : DebtCache) (read later : Option StoreDebt) (now : ℕ)
    (d : StoreDebt) (age : ℕ)
    → fresh_level_at cache (cfg.debt_cache_ttl_secs * nanos_per_sec) now ≡ none
    → read ≡ some d
    → age < cfg.debt_cache_ttl_secs * nanos_per_sec
    → let first = observed_level cfg cache read now in
      observed_level cfg first.1 later (now + age) ≡ first
unfolding observed_level fresh_level_at record_at
observed_level_cached cfg cache read later now d age stale e young = ground arith
