-- ===== src/Daemon/Supervisor/Restarts.antt =====
-- When the monitor restarts its task, what it counts, and how it recovers.
use hallouminate.Common.{
  ℕ, suc, ◌+◌, ◌-◌, ◌%◌, ◌≤◌, ◌<◌, ◌≡◌, ◌≢◌, refl, ◌∙◌, sym, Bool, true, false, none, List, [], ◌∷◌,
  ◌++◌, length, if◌then◌else◌, arith, u64_mod, All, length-set, get_or-set_self, get_or-set_ne, set,
}
use hallouminate.Daemon.Backoff.{exponential_backoff_secs}
use hallouminate.Daemon.Heartbeat.{TaskName, slot, slot_ne, slot-lt, task_count}
use hallouminate.Daemon.Supervisor.{
  Supervisor, Monitor, restart_count, Response, backoff_for, retain_recent, panicked, panic, Round,
  MonitorRun, run_monitor,
}

-- The panics before the round at which the monitor returns, and whether there is such a round.
abbrev pub answered : List Round → ℕ
answered [] = 0
answered (r ∷ rs) = elim r.result [
  | panic ↦ if r.shutdown_in_sleep then 1 else suc (answered rs)
  | _ ↦ 0
]

abbrev pub stops : List Round → Bool
stops [] = false
stops (r ∷ rs) = elim r.result [ panic ↦ if r.shutdown_in_sleep then true else stops rs | _ ↦ true ]

module _ (s : Supervisor) (name : TaskName) where
  panicked-restarts :
      (m : Monitor) (p : ℕ × ℕ)
      → (panicked s name m p).0.restarts
        ≡ set m.restarts (slot name) ((restart_count m.restarts name + 1) % u64_mod)
  unfolding panicked
  panicked-restarts m (started, now) = ground arith

  -- What a run adds to a monitor whose counters are `restarts`.
  record Runs (restarts : List ℕ) (rounds : List Round) (r : MonitorRun) : Type 0 where
    own : restart_count r.monitor.restarts name ≡ restart_count restarts name + answered rounds
    others :
        (other : TaskName)
        → other ≢ name
        → restart_count r.monitor.restarts other ≡ restart_count restarts other
    returned_is : r.returned ≡ stops rounds

  one_restart :
      (m : Monitor) (p : ℕ × ℕ)
      → length m.restarts ≡ task_count
      → restart_count m.restarts name + 1 < u64_mod
      → restart_count (panicked s name m p).0.restarts name ≡ restart_count m.restarts name + 1
  one_restart m p full fits =
      rw
        (
          panicked-restarts m p,
          get_or-set_self m.restarts (slot name) ((restart_count m.restarts name + 1) % u64_mod) 0
              (rw full (slot-lt name)),
        )
        (omega arith)

  no_restart :
      (m : Monitor) (p : ℕ × ℕ) (other : TaskName)
      → other ≢ name
      → restart_count (panicked s name m p).0.restarts other ≡ restart_count m.restarts other
  no_restart m p other ne =
      rw (panicked-restarts m p)
        (get_or-set_ne m.restarts (slot name) (slot other) _ 0 (λ e. slot_ne other name ne (sym e)))

  still_full :
      (m : Monitor) (p : ℕ × ℕ)
      → length m.restarts ≡ task_count
      → length (panicked s name m p).0.restarts ≡ task_count
  still_full m p full = rw (panicked-restarts m p) (length-set m.restarts (slot name) _ ∙ full)

  run_monitor-Runs :
      (rounds : List Round) (m : Monitor) (rs : List Response)
      → length m.restarts ≡ task_count
      → restart_count m.restarts name + length rounds < u64_mod
      → Runs m.restarts rounds (run_monitor s name m rs rounds)
  unfolding run_monitor
  run_monitor-Runs [] m rs full fits = record {
    own = omega arith;
    others = λ other ne. refl;
    returned_is = refl;
  }
  run_monitor-Runs (r ∷ rounds) m rs full fits =
      let p : ℕ × ℕ = (r.started, r.ended) in
      let one = one_restart m p full (omega arith) in
      let ih =
        run_monitor-Runs rounds (panicked s name m p).0 (rs ++ (panicked s name m p).1 ∷ [])
          (still_full m p full) (omega (arith, one)) in
      record {
        own = ground (arith, ih.own, one);
        others = λ other ne. ground (arith, ih.others other ne, no_restart m p other ne);
        returned_is = ground (arith, ih.returned_is);
      }

  -- Played through any rounds, the monitor adds to its own task's restart counter one for each panic
  -- before the round at which it returns, and returns exactly at the first round that is no panic,
  -- or whose sleep the shutdown interrupts; no other task's counter changes.
  pub restart_counts :
      (m : Monitor) (rounds : List Round) (other : TaskName)
      → length m.restarts ≡ task_count
      → restart_count m.restarts name + length rounds < u64_mod
      → other ≢ name
      → let r = run_monitor s name m [] rounds in
        (restart_count r.monitor.restarts name ≡ restart_count m.restarts name + answered rounds)
        × (r.returned ≡ stops rounds)
        × (restart_count r.monitor.restarts other ≡ restart_count m.restarts other)
  restart_counts m rounds other full fits ne =
      let r = run_monitor-Runs rounds m [] full fits in (r.own, r.returned_is, r.others other ne)

  retain_none :
      (window now started : ℕ) (ts : List ℕ)
      → All (λ u. u < started) ts
      → started ≤ now
      → window ≤ now - started
      → retain_recent window now (ts ++ now ∷ []) ≡ now ∷ []
  unfolding retain_recent
  retain_none window now started [] a le h = ground arith
  retain_none window now started (u ∷ ts) a le h =
      ground (arith, retain_none window now started ts a.1 le h)

  -- A panic after at least a window of uptime is answered like a first one, by one second and no
  -- escalation, whatever strikes and panics came before the task's last start.
  healthy_uptime :
      (m : Monitor) (started now : ℕ)
      → 0 < s.restart_intensity_cap
      → All (λ u. u < started) m.recent_panics
      → started ≤ now
      → s.restart_intensity_window ≤ now - started
      → (panicked s name m (started, now)).1 ≡ record { delay = 1; escalated = none }
  unfolding panicked backoff_for exponential_backoff_secs
  healthy_uptime m started now some_cap earlier le healthy =
      ground (
        arith,
        retain_none s.restart_intensity_window now started m.recent_panics earlier le healthy,
      )
