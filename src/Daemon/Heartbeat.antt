-- ===== src/Daemon/Heartbeat.antt =====
-- crates/hallouminate-daemon/src/heartbeat.rs: one wrapping epoch counter for each daemon loop.
use hallouminate.Common.{
  ℕ, ◌+◌, ◌%◌, ◌≡◌, ◌≢◌, ◌<◌, arith, List, [], ◌∷◌, length, ◌==◌, if◌then◌else◌, get_or, set,
  u64_mod,
}

pub data TaskName : Type 0 where
  maintenance catch_up watcher_pump idle_exit signal : TaskName

abbrev pub task_count : ℕ
task_count = 5

-- The index of a task's counter.
abbrev pub slot : TaskName → ℕ
slot maintenance = 0
slot catch_up = 1
slot watcher_pump = 2
slot idle_exit = 3
slot signal = 4

pub data TaskStatus : Type 0 where
  alive stalled : TaskStatus

pub record HeartbeatRegistry : Type 0 where
  pub epochs : List ℕ

abbrev pub default_registry : HeartbeatRegistry
default_registry = record { epochs = 0 ∷ 0 ∷ 0 ∷ 0 ∷ 0 ∷ [] }

-- Every task has its counter.
abbrev pub IsComplete : HeartbeatRegistry → Type 0
IsComplete r = length r.epochs ≡ task_count

abbrev pub epoch : HeartbeatRegistry → TaskName → ℕ
epoch r task = get_or r.epochs (slot task) 0

-- `fetch_add(1) + 1`, both wrapping.
unfoldable pub bump : HeartbeatRegistry → TaskName → HeartbeatRegistry × ℕ
bump r task =
    let next = (epoch r task + 1) % u64_mod in
    (record { epochs = set r.epochs (slot task) next }, next)

unfoldable pub compare_epochs : ℕ → ℕ → TaskStatus
compare_epochs previous current = if current == previous then stalled else alive

-- Different tasks have different counters, all of them in range.
pub slot_ne : (a b : TaskName) → a ≢ b → slot a ≢ slot b
slot_ne a b h = ground arith

pub slot-lt : (a : TaskName) → slot a < task_count
slot-lt a = ground arith
