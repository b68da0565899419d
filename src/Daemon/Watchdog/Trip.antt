-- ===== src/Daemon/Watchdog/Trip.antt =====
-- What the watchdog thread does before it returns.
use hallouminate.Common.{ℕ, ◌≡◌, ◌≢◌, refl, Bool, true, Option, List, [], ◌∷◌, ◌++◌, ◌∙◌, arith}
use hallouminate.Daemon.Heartbeat.{TaskName, HeartbeatRegistry}
use hallouminate.Daemon.Trips.{record_trip}
use hallouminate.Text.{Text}
use hallouminate.Daemon.Watchdog.{
  StallTracker, stalled_tasks, Wakeup, stopped, timeout, trip_recorded, trip_fired, run,
}

-- The tracker after wake-ups that all were time-outs.
abbrev pub after : StallTracker → List Wakeup → StallTracker
after tracker [] = tracker
after tracker (stopped ∷ ws) = after tracker ws
after tracker (timeout r now now_unix written ∷ ws) = after (stalled_tasks tracker r now).0 ws

-- Time-outs at which no task is late.
abbrev pub AllQuiet : StallTracker → List Wakeup → Type 0
AllQuiet tracker [] = Unit {0}
AllQuiet tracker (stopped ∷ ws) = ⊥
AllQuiet tracker (timeout r now now_unix written ∷ ws) =
    ((stalled_tasks tracker r now).1 ≡ []) × AllQuiet (stalled_tasks tracker r now).0 ws

run-append :
    (quiet : List Wakeup) (tracker : StallTracker) (file : Option Text) (ws : List Wakeup)
    → AllQuiet tracker quiet
    → run tracker file (quiet ++ ws) ≡ run (after tracker quiet) file ws
unfolding run
run-append [] tracker file ws q = refl
run-append (stopped ∷ quiet) tracker file ws q = absurd q
run-append (timeout r now now_unix written ∷ quiet) tracker file ws q =
    ground (arith, run-append quiet (stalled_tasks tracker r now).0 file ws q.1)

trips_at :
    (tracker : StallTracker) (file : Option Text) (r : HeartbeatRegistry) (now now_unix : ℕ)
    (written : Bool) (late : List TaskName) (ws : List Wakeup)
    → late ≢ []
    → (stalled_tasks tracker r now).1 ≡ late
    → run tracker file (timeout r now now_unix written ∷ ws) ≡ record {
      file = (record_trip file now_unix written).0;
      effects = trip_recorded now_unix written ∷ trip_fired late ∷ [];
      returned = true;
    }
unfolding run
trips_at tracker file r now now_unix written [] ws ne e = absurd (ne refl)
trips_at tracker file r now now_unix written (t ∷ ts) ws ne e = ground arith

-- At the first time-out that finds late tasks the thread records the trip, then fires the trip
-- action on those tasks, also where the record could not be written, and is done: what would have
-- woken it later changes nothing.
pub run_trips_once :
    (quiet later : List Wakeup) (tracker : StallTracker) (file : Option Text)
    (r : HeartbeatRegistry) (now now_unix : ℕ) (written : Bool)
    → AllQuiet tracker quiet
    → (stalled_tasks (after tracker quiet) r now).1 ≢ []
    → run tracker file (quiet ++ timeout r now now_unix written ∷ later) ≡ record {
      file = (record_trip file now_unix written).0;
      effects =
          trip_recorded now_unix written
          ∷ trip_fired (stalled_tasks (after tracker quiet) r now).1
          ∷ [];
      returned = true;
    }
run_trips_once quiet later tracker file r now now_unix written q ne =
    run-append quiet tracker file (timeout r now now_unix written ∷ later) q
    ∙ trips_at (after tracker quiet) file r now now_unix written _ later ne refl

-- The thread fires nothing and leaves the file alone when it is stopped before any task is late.
pub run_stopped :
    (quiet later : List Wakeup) (tracker : StallTracker) (file : Option Text)
    → AllQuiet tracker quiet
    → run tracker file (quiet ++ stopped ∷ later)
      ≡ record { file = file; effects = []; returned = true }
unfolding run
run_stopped quiet later tracker file q = run-append quiet tracker file (stopped ∷ later) q
