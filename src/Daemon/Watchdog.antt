-- ===== src/Daemon/Watchdog.antt =====
-- The stall detector and the thread of crates/hallouminate-daemon/src/watchdog.rs.
--
-- Instants are nanoseconds on the monotonic clock; the trip file's clock is in Daemon.Trips. The
-- thread is a function of what it receives: at each wait the stop signal, or a time-out with the
-- registry and the clocks as they are read then and whether the trip file could be written.
pub mod Stalls
pub mod Trip
use hallouminate.Common.{
  ℕ, ◌-◌, Bool, true, false, Option, none, some, List, [], ◌∷◌, ◌++◌, leb, if◌then◌else◌,
}
use hallouminate.Daemon.Heartbeat.{
  TaskName, HeartbeatRegistry, epoch, TaskStatus, alive, stalled, compare_epochs,
}
use hallouminate.Daemon.Trips.{record_trip}
use hallouminate.Text.{Text}

pub record TaskWatch : Type 0 where
  pub task : TaskName
  pub last_epoch : ℕ
  pub last_progress : ℕ

pub record StallTracker : Type 0 where
  pub watches : List TaskWatch
  pub stall : ℕ

unfoldable pub new_watches : HeartbeatRegistry → List TaskName → ℕ → List TaskWatch
new_watches registry [] now = []
new_watches registry (task ∷ tasks) now =
    record { task = task; last_epoch = epoch registry task; last_progress = now }
    ∷ new_watches registry tasks now

unfoldable pub new_tracker : HeartbeatRegistry → List TaskName → (stall now : ℕ) → StallTracker
unfolding new_watches
new_tracker registry tasks stall now = record {
  watches = new_watches registry tasks now;
  stall = stall;
}

-- One round of the loop over the watches: the watch after it, and the task if it is stalled.
unfoldable pub poll_watch : ℕ → HeartbeatRegistry → ℕ → TaskWatch → TaskWatch × Bool
unfolding compare_epochs
poll_watch stall registry now w =
    let current = epoch registry w.task in
    elim (compare_epochs w.last_epoch current) [
      | alive ↦ (record w { last_epoch = current; last_progress = now }, false)
      | stalled ↦ (w, leb stall (now - w.last_progress))
    ]

abbrev pub collect :
    TaskWatch × Bool → List TaskWatch × List TaskName → List TaskWatch × List TaskName
collect (w, late) (ws, tasks) = (w ∷ ws, if late then w.task ∷ tasks else tasks)

unfoldable pub poll_watches :
    ℕ → HeartbeatRegistry → ℕ → List TaskWatch → List TaskWatch × List TaskName
unfolding poll_watch
poll_watches stall registry now [] = ([], [])
poll_watches stall registry now (w ∷ ws) =
    collect (poll_watch stall registry now w) (poll_watches stall registry now ws)

unfoldable pub stalled_tasks : StallTracker → HeartbeatRegistry → ℕ → StallTracker × List TaskName
unfolding poll_watches
stalled_tasks tracker registry now =
    let (ws, late) = poll_watches tracker.stall registry now tracker.watches in
    (record tracker { watches = ws }, late)

-- What the thread's wait returns.
pub data Wakeup : Type 0 where
  stopped : Wakeup
  timeout : (registry : HeartbeatRegistry) (now now_unix : ℕ) (written : Bool) → Wakeup

-- What the thread does to the outside, in order.
pub data Effect : Type 0 where
  trip_recorded : ℕ → Bool → Effect
  trip_fired : List TaskName → Effect

pub record Thread : Type 0 where
  pub file : Option Text
  pub effects : List Effect
  pub returned : Bool

-- The trip of a poll, or none where no task is late.
abbrev pub trip : Option Text → (now_unix : ℕ) → Bool → List TaskName → Option Thread
trip file now_unix written [] = none
trip file now_unix written (t ∷ ts) = some (record {
  file = (record_trip file now_unix written).0;
  effects = trip_recorded now_unix written ∷ trip_fired (t ∷ ts) ∷ [];
  returned = true;
})

-- The loop; out of wake-ups, the thread still waits.
unfoldable pub run : StallTracker → Option Text → List Wakeup → Thread
unfolding stalled_tasks
run tracker file [] = record { file = file; effects = []; returned = false }
run tracker file (stopped ∷ ws) = record { file = file; effects = []; returned = true }
run tracker file (timeout registry now now_unix written ∷ ws) =
    let (tracker', late) = stalled_tasks tracker registry now in
    let rest = run tracker' file ws in
    elim (trip file now_unix written late) [ none ↦ rest | some thread ↦ thread ]
