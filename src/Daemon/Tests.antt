-- ===== src/Daemon/Tests.antt =====
-- The daemon's theorems at concrete configurations and histories.
use hallouminate.Common.{
  ℕ, ◌+◌, ◌-◌, ◌*◌, ◌≡◌, refl, true, none, some, List, [], ◌∷◌, ◌++◌, Option, arith, All, ltb,
  if◌then◌else◌,
}
use hallouminate.Common.Sorting.{sort}
use hallouminate.Text.{Text, codes, is_whitespace, lines, trim, parse_u64}
use hallouminate.Daemon.Backoff.{exponential_backoff_secs}
use hallouminate.Daemon.Debt.{DebtLevel, DaemonConfig, fine, hard}
use hallouminate.Daemon.Backpressure.{await_debt_gate, nanos_per_sec}
use hallouminate.Daemon.Backpressure.Gate.{Settles, await_debt_gate-Settles}
use hallouminate.Daemon.Heartbeat.{HeartbeatRegistry, default_registry, bump, watcher_pump, signal}
use hallouminate.Daemon.Supervisor.{Supervisor, new_monitor, restart_current_task, panicked}
use hallouminate.Daemon.Supervisor.CrashLoop.{crash_loop, after_panics, expected, IsQuick}
use hallouminate.Daemon.Trips.{
  trip_snapshot, parse_trips, read_recent_trips, record_trip, newest_trips, check_boot_backoff,
  proceed, backoff, trip_decay_secs,
}
use hallouminate.Daemon.Trips.Record.{read-record_trip, kept}
use hallouminate.Daemon.Trips.Boot.{retry_is_honest}
use hallouminate.Daemon.Watchdog.{
  StallTracker, new_tracker, stalled_tasks, timeout, run, trip_recorded, trip_fired,
}
use hallouminate.Daemon.Watchdog.Stalls.{stalled_tasks-quiet, track, quiet_tasks}
use hallouminate.Daemon.Watchdog.Trip.{run_trips_once, after}

abbrev config : DaemonConfig
config = record {
  debt_soft_fragments = 10;
  debt_hard_fragments = 20;
  debt_soft_stale_versions = 10;
  debt_hard_stale_versions = 20;
  debt_soft_delay_ms = 250;
  hard_block_wait_secs = 30;
  debt_cache_ttl_secs = 5;
  maintenance_interval_secs = 60;
}

-- The debt is cleared behind the third probe.
abbrev clearing : ℕ → DebtLevel
clearing k = if ltb k 3 then hard else fine

abbrev punctual : ℕ → ℕ
punctual k = 0

await_debt_gate-Settles_example :
    Settles clearing punctual 0
      (100 + config.hard_block_wait_secs * nanos_per_sec)
      (await_debt_gate clearing punctual config 100)
await_debt_gate-Settles_example = await_debt_gate-Settles clearing punctual config 100

-- Two restarts in ten seconds are tolerated, and the second strike escalates.
abbrev supervisor : Supervisor
supervisor = record {
  restart_intensity_cap = 2;
  restart_intensity_window = 10000;
  ladder = record { warn_at = 1; act_at = 2; on_act = restart_current_task };
}

abbrev quick_panics : List (ℕ × ℕ)
quick_panics = (1000, 1100) ∷ (2100, 2150) ∷ (4150, 4200) ∷ []

abbrev idle : List ℕ
idle = 0 ∷ 0 ∷ 0 ∷ 0 ∷ 0 ∷ []

quick_panics-IsQuick : All (IsQuick supervisor 1000) quick_panics
quick_panics-IsQuick = ground arith

crash_loop_example :
    (panicked supervisor signal
      (after_panics supervisor signal (new_monitor idle) quick_panics)
      (5000, 5001)).1
    ≡ expected supervisor signal 4
crash_loop_example =
    crash_loop supervisor signal 1000 idle quick_panics (5000, 5001) (omega arith)
      quick_panics-IsQuick (omega arith, omega arith, omega arith)

abbrev trip_file : Option Text
trip_file = some (codes "6000\nnonsense\n9000\n")

read-record_trip_example :
    read_recent_trips (record_trip trip_file 9500 true).0 9600
    ≡ kept (9600 - trip_decay_secs) (newest_trips (read_recent_trips trip_file 9500 ++ 9500 ∷ []))
read-record_trip_example = read-record_trip trip_file 9500 9600 (omega arith) (omega arith)

-- Both trips count at 9010, so that the boot waits until twice the floor is over.
refused_boot : check_boot_backoff trip_file 60 300 9010 ≡ backoff 110 120 2
unfolding check_boot_backoff trip_snapshot read_recent_trips parse_trips sort lines parse_u64 trim
    is_whitespace exponential_backoff_secs
refused_boot = refl

retry_is_honest_example : check_boot_backoff trip_file 60 300 (9010 + 110) ≡ proceed
unfolding lines trim parse_u64 parse_trips is_whitespace
retry_is_honest_example =
    retry_is_honest trip_file 60 300 9010 110 120 2 refused_boot (omega arith, (omega arith, tt))

-- The watcher makes progress, and the signal task does not.
abbrev later_registry : HeartbeatRegistry
later_registry = (bump default_registry watcher_pump).0

stalled_tasks-quiet_example :
    (stalled_tasks
      (track
        (watcher_pump ∷ signal ∷ [])
        50
        (default_registry, 1000)
        ((default_registry, 1020) ∷ []))
      later_registry
      1060).1
    ≡ quiet_tasks 50
        (later_registry, 1060)
        ((default_registry, 1020) ∷ (default_registry, 1000) ∷ [])
        (watcher_pump ∷ signal ∷ [])
stalled_tasks-quiet_example =
    stalled_tasks-quiet (watcher_pump ∷ signal ∷ []) 50 (default_registry, 1000)
      ((default_registry, 1020) ∷ []) later_registry 1060 (omega arith, (omega arith, tt))

abbrev tracker : StallTracker
tracker = new_tracker default_registry (watcher_pump ∷ signal ∷ []) 50 1000

run_trips_once_example :
    run tracker none (
      (timeout default_registry 1020 9000 true ∷ [])
      ++ timeout later_registry 1060 9000 true ∷ timeout later_registry 1080 9001 true ∷ [])
    ≡ record {
      file = (record_trip none 9000 true).0;
      effects =
          trip_recorded 9000 true
          ∷ trip_fired
              (stalled_tasks
                (after tracker (timeout default_registry 1020 9000 true ∷ []))
                later_registry
                1060).1
          ∷ [];
      returned = true;
    }
unfolding stalled_tasks bump new_tracker
run_trips_once_example =
    run_trips_once (timeout default_registry 1020 9000 true ∷ [])
      (timeout later_registry 1080 9001 true ∷ []) tracker none later_registry 1060 9000 true
      (refl, tt) (λ e. cc)
