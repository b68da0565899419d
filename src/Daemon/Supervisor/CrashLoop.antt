-- ===== src/Daemon/Supervisor/CrashLoop.antt =====
-- The supervisor's answers to a task that panics again and again.
use hallouminate.Common.{
  ℕ, suc, ◌+◌, ◌-◌, ◌≤◌, ◌<◌, ◌≡◌, refl, none, some, List, [], ◌∷◌, ◌++◌, length, length-append,
  leb, if◌then◌else◌, arith, u32_mod, All, All-append,
}
use hallouminate.Daemon.Ladder.{restart_task, evaluate}
use hallouminate.Daemon.Heartbeat.{TaskName}
use hallouminate.Daemon.Supervisor.{
  Supervisor, Monitor, new_monitor, Response, backoff_for, backoff_cap, retain_recent, after_uptime,
  count_panic, respond, panicked,
}

-- The monitor after a sequence of panics, each given by its start and its end.
abbrev pub after_panics : Supervisor → TaskName → Monitor → List (ℕ × ℕ) → Monitor
after_panics s name m [] = m
after_panics s name m (p ∷ ps) = after_panics s name (panicked s name m p).0 ps

-- A panic after less uptime than the window, in the window that opens at `t`.
abbrev pub IsQuick : Supervisor → ℕ → ℕ × ℕ → Type 0
IsQuick s t (started, now) =
    (now - started < s.restart_intensity_window)
    × (t ≤ now)
    × (now ≤ t + s.restart_intensity_window)

retain-All :
    (window now t : ℕ) (ts : List ℕ)
    → now ≤ t + window
    → All (λ u. t ≤ u) ts
    → retain_recent window now ts ≡ ts
unfolding retain_recent
retain-All window now t [] h a = refl
retain-All window now t (u ∷ ts) h a = ground (arith, retain-All window now t ts h a.1)

-- What the monitor knows after `n` panics in a window.
record Counts (s : Supervisor) (t n : ℕ) (m : Monitor) : Type 0 where
  all_recent : All (λ u. t ≤ u) m.recent_panics
  recent_is : length m.recent_panics ≡ n
  consecutive_is : m.consecutive_quick_panics ≡ n
  strikes_is : m.escalation_strikes ≡ n - s.restart_intensity_cap

-- The answer to the `n`-th panic of a crash loop.
abbrev pub expected : Supervisor → TaskName → ℕ → Response
expected s name n =
    if leb n s.restart_intensity_cap
    then record { delay = backoff_for n; escalated = none }
    else record {
      delay = backoff_cap;
      escalated =
          if leb s.ladder.act_at (n - s.restart_intensity_cap)
          then some (restart_task name)
          else none;
    }

-- Between the count of a panic and the choice of its delay.
record Pending (s : Supervisor) (t n : ℕ) (m : Monitor) : Type 0 where
  all_recent : All (λ u. t ≤ u) m.recent_panics
  recent_is : length m.recent_panics ≡ n + 1
  consecutive_is : m.consecutive_quick_panics ≡ n + 1
  strikes_is : m.escalation_strikes ≡ n - s.restart_intensity_cap

module _ (s : Supervisor) (name : TaskName) (t : ℕ) where
  no_reset :
      (m : Monitor) (started now : ℕ)
      → IsQuick s t (started, now)
      → after_uptime s started now m ≡ m
  unfolding after_uptime
  no_reset m started now q = ground arith

  count_panic-Pending :
      (n : ℕ) (m : Monitor) (now : ℕ)
      → n + 1 < u32_mod
      → Counts s t n m
      → t ≤ now
      → now ≤ t + s.restart_intensity_window
      → Pending s t n (count_panic s name now m)
  unfolding count_panic
  count_panic-Pending n m now fits c after within = record {
    all_recent = rw kept all;
    recent_is = rw kept (omega (arith, length-append m.recent_panics (now ∷ []), c.recent_is));
    consecutive_is = omega (arith, c.consecutive_is);
    strikes_is = c.strikes_is;
  }
    where
      all : All (λ u. t ≤ u) (m.recent_panics ++ now ∷ [])
      all = All-append _ m.recent_panics (now ∷ []) c.all_recent (after, tt)

      kept :
          retain_recent s.restart_intensity_window now (m.recent_panics ++ now ∷ [])
          ≡ m.recent_panics ++ now ∷ []
      kept = retain-All s.restart_intensity_window now t (m.recent_panics ++ now ∷ []) within all

  respond-expected :
      (n : ℕ) (m : Monitor)
      → n + 1 < u32_mod
      → Pending s t n m
      → Counts s t (n + 1) (respond s name m).0 × ((respond s name m).1 ≡ expected s name (n + 1))
  unfolding respond evaluate
  respond-expected n m fits c = ground arith

  step :
      (n : ℕ) (m : Monitor) (p : ℕ × ℕ)
      → n + 1 < u32_mod
      → Counts s t n m
      → IsQuick s t p
      → Counts s t (n + 1) (panicked s name m p).0
        × ((panicked s name m p).1 ≡ expected s name (n + 1))
  unfolding panicked
  step n m (started, now) fits c q = rw (no_reset m started now q) (
      respond-expected n (count_panic s name now m) fits
        (count_panic-Pending n m now fits c q.1 q.2))

  after_panics-Counts :
      (ps : List (ℕ × ℕ)) (n : ℕ) (m : Monitor)
      → n + length ps < u32_mod
      → Counts s t n m
      → All (IsQuick s t) ps
      → Counts s t (n + length ps) (after_panics s name m ps)
  after_panics-Counts [] n m fits c a = let e : n + 0 ≡ n = omega arith in rw e c
  after_panics-Counts (p ∷ ps) n m fits c a =
      let e : n + suc (length ps) ≡ (n + 1) + length ps = omega arith in
      rw e (after_panics-Counts ps (n + 1) _ (omega arith) (step n m p (omega arith) c a.0).0 a.1)

  -- In a crash loop, every panic coming after less uptime than the window and all of them within
  -- one window of the first, the n-th panic is answered by the n-th step of the backoff curve while
  -- n is within the intensity cap; from then on by the longest delay, and by the restart action on
  -- the escalation hook as soon as the panics past the cap reach the ladder's `act_at`.
  pub crash_loop :
      (restarts : List ℕ) (ps : List (ℕ × ℕ)) (p : ℕ × ℕ)
      → length ps + 1 < u32_mod
      → All (IsQuick s t) ps
      → IsQuick s t p
      → (panicked s name (after_panics s name (new_monitor restarts) ps) p).1
        ≡ expected s name (length ps + 1)
  crash_loop restarts ps p fits a q = (step (length ps) _ p fits counts q).1
    where
      fresh : Counts s t 0 (new_monitor restarts)
      fresh = record {
        all_recent = tt;
        recent_is = refl;
        consecutive_is = refl;
        strikes_is = omega arith;
      }

      counts : Counts s t (length ps) (after_panics s name (new_monitor restarts) ps)
      counts =
          let e : 0 + length ps ≡ length ps = omega arith in
          rw e at (after_panics-Counts ps 0 (new_monitor restarts) (omega arith) fresh a)
