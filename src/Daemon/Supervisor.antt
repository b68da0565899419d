-- ===== src/Daemon/Supervisor.antt =====
-- crates/hallouminate-daemon/src/supervisor.rs: the monitor of one supervised task.
--
-- Instants and the window are in nanoseconds, delays in seconds. What the runtime decides is an
-- argument: when the task started, how it ended and when, and whether the shutdown token fired
-- during the sleep before a restart. An abort on shutdown is the result `cancelled`.
pub mod CrashLoop
pub mod Restarts
use hallouminate.Common.{
  ℕ, suc, ◌+◌, ◌-◌, ◌%◌, Bool, true, false, ◌||◌, Option, none, some, List, [], ◌∷◌, ◌++◌, length,
  get_or, set, leb, ltb, if◌then◌else◌, u32_mod, u64_mod,
}
use hallouminate.Daemon.Backoff.{exponential_backoff_secs}
use hallouminate.Daemon.Heartbeat.{TaskName, slot}
use hallouminate.Daemon.Ladder.{
  LadderAction, restart_task, Ladder, LadderOutcome, nothing, warn, action, evaluate,
}

abbrev pub backoff_floor : ℕ
backoff_floor = 1

abbrev pub backoff_cap : ℕ
backoff_cap = 60

pub data SupervisorAction : Type 0 where
  restart_current_task : SupervisorAction

pub record Supervisor : Type 0 where
  pub restart_intensity_cap : ℕ
  pub restart_intensity_window : ℕ
  pub ladder : Ladder SupervisorAction

-- Every task's restart counter.
abbrev pub default_counters : List ℕ
default_counters = 0 ∷ 0 ∷ 0 ∷ 0 ∷ 0 ∷ []

-- `Supervisor::new`: the supervisor and its counters. The hook and the token are the runtime's.
abbrev pub new_supervisor : (cap window : ℕ) → Ladder SupervisorAction → Supervisor × List ℕ
new_supervisor cap window ladder = (
  record { restart_intensity_cap = cap; restart_intensity_window = window; ladder = ladder },
  default_counters,
)

-- The monitor's variables, and the counters that it shares with the status report.
pub record Monitor : Type 0 where
  pub recent_panics : List ℕ
  pub consecutive_quick_panics : ℕ
  pub escalation_strikes : ℕ
  pub restarts : List ℕ

abbrev pub new_monitor : List ℕ → Monitor
new_monitor restarts = record {
  recent_panics = [];
  consecutive_quick_panics = 0;
  escalation_strikes = 0;
  restarts = restarts;
}

abbrev pub restart_count : List ℕ → TaskName → ℕ
restart_count restarts task = get_or restarts (slot task) 0

-- How long a panic delays the restart, and the action handed to the escalation hook.
pub record Response : Type 0 where
  pub delay : ℕ
  pub escalated : Option LadderAction

unfoldable pub backoff_for : ℕ → ℕ
backoff_for consecutive = exponential_backoff_secs backoff_floor backoff_cap consecutive

-- `retain(|t| now.duration_since(*t) <= window)`
unfoldable pub retain_recent : (window now : ℕ) → List ℕ → List ℕ
retain_recent window now [] = []
retain_recent window now (t ∷ ts) =
    let rest = retain_recent window now ts in if leb (now - t) window then t ∷ rest else rest

escalation : TaskName → LadderOutcome SupervisorAction → Option LadderAction
escalation name nothing = none
escalation name warn = none
escalation name (action restart_current_task) = some (restart_task name)

-- A stretch of uptime of at least the window resets the backoff curve and the strikes.
unfoldable pub after_uptime : Supervisor → ℕ → ℕ → Monitor → Monitor
after_uptime s started now m =
    if leb s.restart_intensity_window (now - started)
    then record m { consecutive_quick_panics = 0; escalation_strikes = 0 }
    else m

unfoldable pub count_panic : Supervisor → TaskName → ℕ → Monitor → Monitor
count_panic s name now m = record {
  recent_panics = retain_recent s.restart_intensity_window now (m.recent_panics ++ now ∷ []);
  consecutive_quick_panics = (m.consecutive_quick_panics + 1) % u32_mod;
  escalation_strikes = m.escalation_strikes;
  restarts = set m.restarts (slot name) ((restart_count m.restarts name + 1) % u64_mod);
}

-- The choice of the delay, with the strike it takes.
unfoldable pub respond : Supervisor → TaskName → Monitor → Monitor × Response
unfolding escalation
respond s name m =
    let strike = (m.escalation_strikes + 1) % u32_mod in
    if ltb s.restart_intensity_cap (length m.recent_panics % u32_mod) || ltb 0 m.escalation_strikes
    then (
      record m { escalation_strikes = strike },
      record { delay = backoff_cap; escalated = escalation name (evaluate s.ladder strike) },
    )
    else (m, record { delay = backoff_for m.consecutive_quick_panics; escalated = none })

-- The panic path of the loop, for a task started at `started` that panicked at `now`.
unfoldable pub panicked : Supervisor → TaskName → Monitor → ℕ × ℕ → Monitor × Response
unfolding after_uptime count_panic respond
panicked s name m (started, now) =
    respond s name (count_panic s name now (after_uptime s started now m))

-- How the task's join handle resolves.
pub data JoinResult : Type 0 where
  exited panic cancelled failed : JoinResult

pub record Round : Type 0 where
  pub started : ℕ
  pub ended : ℕ
  pub result : JoinResult
  pub shutdown_in_sleep : Bool

pub record MonitorRun : Type 0 where
  pub monitor : Monitor
  pub responses : List Response
  pub returned : Bool

abbrev pub returns : Monitor → List Response → MonitorRun
returns m rs = record { monitor = m; responses = rs; returned = true }

-- The loop over the rounds that the runtime plays; out of rounds, the monitor still runs.
unfoldable pub run_monitor :
    Supervisor → TaskName → Monitor → List Response → List Round → MonitorRun
unfolding panicked
run_monitor s name m rs [] = record { monitor = m; responses = rs; returned = false }
run_monitor s name m rs (r ∷ rounds) =
    let (m', response) = panicked s name m (r.started, r.ended) in
    let onward = run_monitor s name m' (rs ++ response ∷ []) rounds in
    elim r.result [
      | panic ↦ if r.shutdown_in_sleep then returns m' (rs ++ response ∷ []) else onward
      | _ ↦ returns m rs
    ]
