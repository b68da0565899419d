-- ===== src/Daemon/Churn/Streak.antt =====
-- What the churn tracker fires over a history of passes.
use hallouminate.Common.{
  ℕ, suc, ◌+◌, ◌≤◌, min, max, ◌≡◌, refl, ◌&&◌, ◌||◌, List, [], ◌∷◌, arith, leb, ◌==◌, if◌then◌else◌,
  u32_max, not,
}
use hallouminate.Daemon.Ladder.{force_maintenance, nothing, warn, action}
use hallouminate.Daemon.Churn.{
  ReindexEffect, upserted, no_op, ChurnTracker, new, record_reindex, run,
}

-- The passes without effect since the last one that wrote, after `n` such passes before.
abbrev pub streak : ℕ → List ReindexEffect → ℕ
streak n [] = n
streak n (upserted ∷ es) = streak 0 es
streak n (no_op ∷ es) = streak (suc n) es

-- The tracker's state as a function of the streak.
record Tracks (warn_at act_at n : ℕ) (t : ChurnTracker) : Type 0 where
  ladder_is : t.ladder ≡ record { warn_at = warn_at; act_at = act_at; on_act = force_maintenance }
  count_is : t.consecutive_noops ≡ min n u32_max
  armed_is : t.action_armed ≡ not (leb act_at (min n u32_max) && leb 1 n)

module _ (w a : ℕ) where
  step_noop :
      (n : ℕ) (t : ChurnTracker) → Tracks w a n t → Tracks w a (suc n) (record_reindex t no_op).0
  unfolding record_reindex
  step_noop n t v = ground arith

  step_upserted :
      (n : ℕ) (t : ChurnTracker) → Tracks w a n t → Tracks w a 0 (record_reindex t upserted).0
  unfolding record_reindex
  step_upserted n t v = ground arith

  run-Tracks :
      (es : List ReindexEffect) (n : ℕ) (t : ChurnTracker)
      → Tracks w a n t
      → Tracks w a (streak n es) (run t es)
  unfolding run
  run-Tracks [] n t v = v
  run-Tracks (upserted ∷ es) n t v = run-Tracks es 0 _ (step_upserted n t v)
  run-Tracks (no_op ∷ es) n t v = run-Tracks es (suc n) _ (step_noop n t v)

  fires :
      (n : ℕ) (t : ChurnTracker)
      → a ≤ u32_max
      → Tracks w a n t
      → (record_reindex t no_op).1 ≡ (
          if (n + 1) == max a 1
          then action force_maintenance
          else if leb a (n + 1) || leb w (min (n + 1) u32_max)
          then warn
          else nothing)
  unfolding record_reindex
  fires n t small v = ground arith

  -- After any history of passes, one more pass without effect fires the forced maintenance exactly
  -- when it is the `act_at`-th of its streak (the first, for a threshold of zero), so once in each
  -- streak; it warns at every other pass whose count reaches a threshold, and is silent below both.
  pub action_once_per_streak :
      (es : List ReindexEffect)
      → a ≤ u32_max
      → let n = streak 0 es + 1 in
        (record_reindex (run (new w a) es) no_op).1 ≡ (
          if n == max a 1
          then action force_maintenance
          else if leb a n || leb w (min n u32_max)
          then warn
          else nothing)
  action_once_per_streak es small = fires (streak 0 es) (run (new w a) es) small (
      run-Tracks es 0 (new w a)
        (record { ladder_is = refl; count_is = omega arith; armed_is = ground arith }))
