-- ===== src/Daemon/Ladder.antt =====
-- crates/hallouminate-daemon/src/ladder.rs: what a rising count triggers.
use hallouminate.Common.{ℕ, leb, if◌then◌else◌}
use hallouminate.Daemon.Heartbeat.{TaskName}

pub data LadderAction : Type 0 where
  force_maintenance watchdog_trip : LadderAction
  restart_task : TaskName → LadderAction

pub data LadderOutcome {ℓ} (A : Type ℓ) : Type ℓ where
  nothing warn : LadderOutcome A
  action : A → LadderOutcome A

-- `on_act` is the field `action`.
pub record Ladder {ℓ} (A : Type ℓ) : Type ℓ where
  pub warn_at : ℕ
  pub act_at : ℕ
  pub on_act : A

unfoldable pub evaluate {ℓ} : {A : Type ℓ} → Ladder A → ℕ → LadderOutcome A
evaluate l count =
    if leb l.act_at count then action l.on_act else if leb l.warn_at count then warn else nothing
