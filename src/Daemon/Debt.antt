-- ===== src/Daemon/Debt.antt =====
-- crates/hallouminate-daemon/src/debt.rs: the debt levels and the timestamped observation.
-- Instants and durations are nanoseconds; a mutex-held value is the value.
use hallouminate.Common.{ℕ, ◌-◌, ◌||◌, Option, none, some, ltb, leb, if◌then◌else◌}

pub record MaintenanceDebt : Type 0 where
  pub fragments : ℕ
  pub stale_versions : ℕ

-- `fine` is `Ok`.
pub data DebtLevel : Type 0 where
  fine soft hard : DebtLevel

-- The fields of `[daemon]` that the debt gate reads.
pub record DaemonConfig : Type 0 where
  pub debt_soft_fragments : ℕ
  pub debt_hard_fragments : ℕ
  pub debt_soft_stale_versions : ℕ
  pub debt_hard_stale_versions : ℕ
  pub debt_soft_delay_ms : ℕ
  pub hard_block_wait_secs : ℕ
  pub debt_cache_ttl_secs : ℕ
  pub maintenance_interval_secs : ℕ

unfoldable pub classify : MaintenanceDebt → DaemonConfig → DebtLevel
classify debt cfg =
    if leb cfg.debt_hard_fragments debt.fragments
      || leb cfg.debt_hard_stale_versions debt.stale_versions
    then hard
    else if leb cfg.debt_soft_fragments debt.fragments
        || leb cfg.debt_soft_stale_versions debt.stale_versions
    then soft
    else fine

pub record DebtCache : Type 0 where
  pub last : Option (DebtLevel × ℕ)

abbrev pub empty_cache : DebtCache
empty_cache = record { last = none }

unfoldable pub record_at : DebtCache → DebtLevel → ℕ → DebtCache
record_at c level at = record { last = some (level, at) }

fresh_entry : ℕ → ℕ → DebtLevel × ℕ → Option DebtLevel
fresh_entry ttl now (level, at) = if ltb (now - at) ttl then some level else none

unfoldable pub fresh_level_at : DebtCache → ℕ → ℕ → Option DebtLevel
unfolding fresh_entry
fresh_level_at c ttl now = elim c.last [ none ↦ none | some e ↦ fresh_entry ttl now e ]

last_level : Option (DebtLevel × ℕ) → DebtLevel
last_level none = fine
last_level (some (level, at)) = level

unfoldable pub level : DebtCache → DebtLevel
unfolding last_level
level c = last_level c.last
