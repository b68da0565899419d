-- ===== src/Daemon/Watchdog/Stalls.antt =====
-- Which tasks a poll reports, over a whole history of polls.
use hallouminate.Common.{
  ℕ, ◌-◌, ◌≤◌, ◌≡◌, refl, ap, Bool, false, ◌&&◌, ◌||◌, List, [], ◌∷◌, ◌++◌, arith, leb, ◌==◌,
  if◌then◌else◌,
}
use hallouminate.Daemon.Heartbeat.{TaskName, HeartbeatRegistry, epoch}
use hallouminate.Daemon.Watchdog.{
  TaskWatch, StallTracker, new_watches, new_tracker, poll_watch, poll_watches, stalled_tasks,
}

-- The registry as seen at an instant. A history of them begins with the latest.
abbrev pub Sighting : Type 0
Sighting = HeartbeatRegistry × ℕ

-- The tracker made at the first sighting, after the polls at the others.
abbrev pub track : List TaskName → ℕ → Sighting → List Sighting → StallTracker
track tasks stall (r, t) [] = new_tracker r tasks stall t
track tasks stall first ((r, t) ∷ older) = (stalled_tasks (track tasks stall first older) r t).0

-- Going back in time from `now` the epoch `e` is seen unchanged, at least as far as the stall window.
abbrev pub is_quiet : TaskName → (e stall now : ℕ) → List Sighting → Bool
is_quiet task e stall now [] = false
is_quiet task e stall now ((r, t) ∷ older) =
    e == epoch r task && (leb stall (now - t) || is_quiet task e stall now older)

abbrev pub quiet_tasks : ℕ → Sighting → List Sighting → List TaskName → List TaskName
quiet_tasks stall (r, now) older [] = []
quiet_tasks stall (r, now) older (task ∷ tasks) =
    let rest = quiet_tasks stall (r, now) older tasks in
    if is_quiet task (epoch r task) stall now older then task ∷ rest else rest

-- Each sighting is no later than `now` and the ones before it.
abbrev pub Descends : ℕ → List Sighting → Type 0
Descends now [] = Unit {0}
Descends now ((r, t) ∷ older) = (t ≤ now) × Descends t older

Descends-now : (t now : ℕ) (older : List Sighting) → t ≤ now → Descends t older → Descends now older
Descends-now t now [] h d = tt
Descends-now t now ((r, u) ∷ older) h d = (omega arith, d.1)

-- One watch over the history.
watch : TaskName → ℕ → Sighting → List Sighting → TaskWatch
watch task stall first [] = record {
  task = task;
  last_epoch = epoch first.0 task;
  last_progress = first.1;
}
watch task stall first ((r, t) ∷ older) = (poll_watch stall r t (watch task stall first older)).0

watches : List TaskName → ℕ → Sighting → List Sighting → List TaskWatch
watches [] stall first older = []
watches (task ∷ tasks) stall first older =
    watch task stall first older ∷ watches tasks stall first older

new_watches-watches :
    (tasks : List TaskName) (stall : ℕ) (r : HeartbeatRegistry) (t : ℕ)
    → new_watches r tasks t ≡ watches tasks stall (r, t) []
unfolding new_watches watches watch
new_watches-watches [] stall r t = refl
new_watches-watches (task ∷ tasks) stall r t = rw (new_watches-watches tasks stall r t)

poll_watches-watches :
    (tasks : List TaskName) (stall : ℕ) (first : Sighting) (r : HeartbeatRegistry) (t : ℕ)
    (older : List Sighting)
    → (poll_watches stall r t (watches tasks stall first older)).0
      ≡ watches tasks stall first ((r, t) ∷ older)
unfolding poll_watches watches watch
poll_watches-watches [] stall first r t older = refl
poll_watches-watches (task ∷ tasks) stall first r t older =
    rw (poll_watches-watches tasks stall first r t older)

tracker_of : ℕ → List TaskWatch → StallTracker
tracker_of stall ws = record { watches = ws; stall = stall }

track-watches :
    (tasks : List TaskName) (stall : ℕ) (first : Sighting) (older : List Sighting)
    → track tasks stall first older ≡ tracker_of stall (watches tasks stall first older)
unfolding new_tracker stalled_tasks tracker_of
track-watches tasks stall (r, t) [] = ap (tracker_of stall) (new_watches-watches tasks stall r t)
track-watches tasks stall (r', t') ((r, t) ∷ older) =
    rw (track-watches tasks stall (r', t') older)
      (ap (tracker_of stall) (poll_watches-watches tasks stall (r', t') r t older))

watch-task :
    (task : TaskName) (stall : ℕ) (first : Sighting) (older : List Sighting)
    → (watch task stall first older).task ≡ task
unfolding watch poll_watch
watch-task task stall first [] = refl
watch-task task stall first ((r, t) ∷ older) = ground (arith, watch-task task stall first older)

-- The watch's last progress is no later than any later clock reading.
progress_le :
    (task : TaskName) (stall now : ℕ) (first : Sighting) (older : List Sighting)
    → Descends now (older ++ first ∷ [])
    → (watch task stall first older).last_progress ≤ now
unfolding watch poll_watch
progress_le task stall now first [] d = d.0
progress_le task stall now first ((r, t) ∷ older) d =
    ground (arith, progress_le task stall t first older d.1)

poll_watch-is_quiet :
    (task : TaskName) (e stall now : ℕ) (first : Sighting) (older : List Sighting)
    → Descends now (older ++ first ∷ [])
    → (e == (watch task stall first older).last_epoch
        && leb stall (now - (watch task stall first older).last_progress))
      ≡ is_quiet task e stall now (older ++ first ∷ [])
unfolding watch poll_watch
poll_watch-is_quiet task e stall now first [] d = ground arith
poll_watch-is_quiet task e stall now first ((r, t) ∷ older) d = ground (
  arith,
  watch-task task stall first older,
  progress_le task stall t first older d.1,
  poll_watch-is_quiet task e stall now first older
      (Descends-now t now (older ++ first ∷ []) d.0 d.1),
)

poll_watches-quiet :
    (tasks : List TaskName) (stall : ℕ) (first : Sighting) (r : HeartbeatRegistry) (now : ℕ)
    (older : List Sighting)
    → Descends now (older ++ first ∷ [])
    → (poll_watches stall r now (watches tasks stall first older)).1
      ≡ quiet_tasks stall (r, now) (older ++ first ∷ []) tasks
unfolding poll_watches poll_watch watches
poll_watches-quiet [] stall first r now older d = refl
poll_watches-quiet (task ∷ tasks) stall first r now older d = ground (
  arith,
  watch-task task stall first older,
  poll_watch-is_quiet task (epoch r task) stall now first older d,
  poll_watches-quiet tasks stall first r now older d,
)

-- After any history of polls with a clock that does not run backwards, a poll reports exactly the
-- monitored tasks, in order, whose present epoch was seen at every sighting back to one that is at
-- least the stall window old.
pub stalled_tasks-quiet :
    (tasks : List TaskName) (stall : ℕ) (first : Sighting) (older : List Sighting)
    (r : HeartbeatRegistry) (now : ℕ)
    → Descends now (older ++ first ∷ [])
    → (stalled_tasks (track tasks stall first older) r now).1
      ≡ quiet_tasks stall (r, now) (older ++ first ∷ []) tasks
unfolding stalled_tasks tracker_of
stalled_tasks-quiet tasks stall first older r now d =
    rw (track-watches tasks stall first older) (poll_watches-quiet tasks stall first r now older d)
