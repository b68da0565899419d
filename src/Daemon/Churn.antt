-- ===== src/Daemon/Churn.antt =====
-- crates/hallouminate-daemon/src/churn.rs: escalation of reindex passes that write nothing.
-- The path that `record_reindex` takes is used by its log lines only, and is left out.
pub mod Streak
use hallouminate.Common.{
  ℕ, ◌+◌, Bool, true, false, List, [], ◌∷◌, if◌then◌else◌, saturating_add_u32,
}
use hallouminate.Daemon.Ladder.{
  Ladder, LadderAction, force_maintenance, LadderOutcome, nothing, warn, action, evaluate,
}

pub data ReindexEffect : Type 0 where
  upserted no_op : ReindexEffect

pub record ChurnTracker : Type 0 where
  pub ladder : Ladder LadderAction
  pub consecutive_noops : ℕ
  pub action_armed : Bool

abbrev pub new : ℕ → ℕ → ChurnTracker
new warn_at act_at = record {
  ladder = record { warn_at = warn_at; act_at = act_at; on_act = force_maintenance };
  consecutive_noops = 0;
  action_armed = true;
}

-- The match on the ladder's outcome, after the counter has been raised.
respond : ChurnTracker → LadderOutcome LadderAction → ChurnTracker × LadderOutcome LadderAction
respond t nothing = (t, nothing)
respond t warn = (t, warn)
respond t (action a) =
    if t.action_armed then (record t { action_armed = false }, action a) else (t, warn)

unfoldable pub record_reindex :
    ChurnTracker → ReindexEffect → ChurnTracker × LadderOutcome LadderAction
unfolding respond evaluate
record_reindex t upserted = (record t { consecutive_noops = 0; action_armed = true }, nothing)
record_reindex t no_op =
    let counted = record t { consecutive_noops = saturating_add_u32 t.consecutive_noops 1 } in
    respond counted (evaluate t.ladder counted.consecutive_noops)

-- The tracker after a history of passes, oldest first, and what each pass fired.
unfoldable pub run : ChurnTracker → List ReindexEffect → ChurnTracker
run t [] = t
run t (e ∷ es) = run (record_reindex t e).0 es
