-- ===== src/Daemon/MaintenanceTests.antt =====
-- A maintenance pass and a collection on small inputs, and the theorems there.
use hallouminate.Common.{
  ℕ, zero, suc, ◌≡◌, refl, ◌≤◌, arith, Bool, true, false, some, List, [], ◌∷◌, max, if◌then◌else◌,
  ◌*◌,
}
use hallouminate.Daemon.Debt.{soft, hard}
use hallouminate.Daemon.Gc.{
  Stat, not_found, undetermined, Round, TickAnswers, no_gc, gc_delete, run_maintenance_tick,
}
use hallouminate.Daemon.Gc.Deletions.{Collects, gc_delete-Collects}
use hallouminate.Daemon.Gc.Lane.{Laned, run_maintenance_tick-Laned}
use hallouminate.Daemon.Maintenance.{
  MaintenanceConfig, Check, runs, forced_pace, paced, due_pass, second, continue, Slice,
  run_maintenance_pass,
}
use hallouminate.Daemon.Maintenance.Deferral.{TickDecided, due_pass-TickDecided}
use hallouminate.Daemon.Maintenance.Slices.{removed_in, Sliced, run_maintenance_pass-Sliced}
use hallouminate.Text.{Text, codes, equal}

abbrev config : MaintenanceConfig
config = record { defer_bound_secs = 90; paced_slice_budget = 0; paced_slice_sleep_ms = 5 }

-- Busy all the time, under pressure.
abbrev busy : ℕ → Check
busy k = record {
  external_connections = 1;
  last_activity_secs = 0;
  now_secs = 0;
  elevated = true;
  level = soft;
  elevated_at_pace = true;
}

abbrev never : ℕ → Bool
never k = false

abbrev exact : ℕ → ℕ
exact k = 0

due_pass-TickDecided_example :
    TickDecided config busy never exact (busy 0) 0 (due_pass config busy never exact (busy 0) 3)
due_pass-TickDecided_example =
    due_pass-TickDecided config busy never exact (busy 0) 0 2 (λ i. omega arith) (omega arith)

-- The pass is forced in the third round, at the bound, and slowed.
forced_at_bound :
    due_pass config busy never exact (busy 0) 3 ≡ runs false (paced 1 5000000) 2 (90 * second)
unfolding due_pass
forced_at_bound = refl

-- A pass forced by `Hard` debt is slowed under pressure too.
hard_is_paced :
    due_pass config busy never exact (record (busy 0) { level = hard }) 1
    ≡ runs true (paced 1 5000000) 0 0
unfolding due_pass
hard_is_paced = refl

-- The first slice removes two fragments, and the later ones none.
abbrev slice_at : ℕ → Slice
slice_at zero = record { tick = continue; fragments_removed = some 2 }
slice_at (suc k) = record { tick = continue; fragments_removed = some 0 }

no_more : (k n : ℕ) → removed_in slice_at never (suc k) n ≡ 0
no_more k zero = refl
no_more k (suc n) = omega (arith, no_more (suc k) n)

removed_two : (n : ℕ) → removed_in slice_at never 0 n ≤ 2
removed_two zero = omega arith
removed_two (suc n) = omega (arith, no_more 0 n)

run_maintenance_pass-Sliced_example :
    Sliced slice_at never
      (max 0 1)
      2
      0
      true
      (run_maintenance_pass slice_at never 3 (forced_pace true config) true)
run_maintenance_pass-Sliced_example =
    run_maintenance_pass-Sliced slice_at never config true true 2 removed_two

-- One root is gone, and one cannot be read.
abbrev stat_of : Text → Stat
stat_of root = if equal root (codes "/gone") then not_found else undetermined

abbrev round_at : ℕ → Round
round_at k = record {
  is_cancelled = false;
  panics = false;
  stat = stat_of;
  delete_root = λ root. some 7;
}

abbrev roots : List Text
roots = codes "/stale" ∷ codes "/gone" ∷ []

gc_delete-Collects_example : Collects round_at 0 roots no_gc (gc_delete round_at 0 no_gc roots)
gc_delete-Collects_example = gc_delete-Collects round_at 0 no_gc roots

abbrev answers : TickAnswers
answers = record {
  distinct_roots = some roots;
  scan_cancelled = false;
  stat_at_scan = stat_of;
  lane_first = true;
  lane_second = true;
  rounds = round_at;
  orphans_cancelled = false;
  shutdown_requested = false;
}

run_maintenance_tick-Laned_example : Laned true true true false (run_maintenance_tick true answers)
run_maintenance_tick-Laned_example = run_maintenance_tick-Laned true answers
