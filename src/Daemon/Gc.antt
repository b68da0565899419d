-- ===== src/Daemon/Gc.antt =====
-- The collection of orphaned roots within a maintenance tick of
-- crates/hallouminate-daemon/src/maintenance.rs, with `retired_roots` of
-- crates/hallouminate-domain/src/common/paths.rs. The file system, the store and the lane answer round
-- by round; times and log lines are left out.
pub mod Deletions
pub mod Lane
use hallouminate.Common.{
  ℕ, zero, suc, ◌+◌, Bool, true, false, Option, none, some, List, [], ◌∷◌, ◌++◌, if◌then◌else◌,
}
use hallouminate.Daemon.Maintenance.{MaintenanceTick, continue, stop}
use hallouminate.Text.{Text}

-- `symlink_metadata`: `NotFound` is told apart from all other errors.
pub data Stat : Type 0 where
  present not_found undetermined : Stat

abbrev pub is_absent : Stat → Bool
is_absent not_found = true
is_absent stat = false

unfoldable pub retired_roots : (Text → Stat) → List Text → List Text
retired_roots stat [] = []
retired_roots stat (root ∷ known) =
    let rest = retired_roots stat known in if is_absent (stat root) then root ∷ rest else rest

pub record GcStats : Type 0 where
  pub roots_collected : ℕ
  pub rows_removed : ℕ
  pub content_rows_removed : ℕ

abbrev pub no_gc : GcStats
no_gc = record { roots_collected = 0; rows_removed = 0; content_rows_removed = 0 }

-- What the round for one candidate meets: a shutdown, a panic of the recheck's task, what the
-- recheck sees, and what the store answers to the deletion (`none` is an error).
pub record Round : Type 0 where
  pub is_cancelled : Bool
  pub panics : Bool
  pub stat : Text → Stat
  pub delete_root : Text → Option ℕ

-- A collection: its stats, whether it went well, and the deletions asked for with their answers.
pub record GcRun : Type 0 where
  pub stats : GcStats
  pub is_ok : Bool
  pub asked : List (Text × Option ℕ)

abbrev pub gc_ends : GcStats → Bool → GcRun
gc_ends stats is_ok = record { stats = stats; is_ok = is_ok; asked = [] }

abbrev pub asking : Text → Option ℕ → GcRun → GcRun
asking root answer g = record g { asked = (root, answer) ∷ g.asked }

abbrev pub collected : ℕ → GcStats → GcStats
collected removed s = record s {
  roots_collected = s.roots_collected + 1;
  rows_removed = s.rows_removed + removed;
}

module _ (rounds : ℕ → Round) where
  -- `gc_delete`: `k` counts the candidates.
  unfoldable pub gc_delete : ℕ → GcStats → List Text → GcRun
  unfolding retired_roots
  gc_delete k stats [] = gc_ends stats true
  gc_delete k stats (root ∷ candidates) =
      if (rounds k).is_cancelled
      then gc_ends stats true
      else if (rounds k).panics
      then gc_ends stats false
      else elim (retired_roots (rounds k).stat (root ∷ [])) [
        | [] ↦ gc_delete (suc k) stats candidates
        | reconfirmed ∷ others ↦ elim ((rounds k).delete_root reconfirmed) [
          | none ↦ asking reconfirmed none (gc_ends stats false)
          | some removed ↦
              asking reconfirmed (some removed)
                (gc_delete (suc k) (collected removed stats) candidates)
        ]
      ]

-- What a tick does, in order.
pub data TickEvent : Type 0 where
  scanned lane_taken lane_dropped orphans_removed compacted : TickEvent
  root_deleted : Text → TickEvent

-- What a tick meets: the roots in the store (`none` where the scan fails), a shutdown in the scan,
-- what the file system shows then, whether the lane is handed out each time, the rounds of the
-- deletion, a shutdown before the orphan rows, and one while the store compacts.
pub record TickAnswers : Type 0 where
  pub distinct_roots : Option (List Text)
  pub scan_cancelled : Bool
  pub stat_at_scan : Text → Stat
  pub lane_first : Bool
  pub lane_second : Bool
  pub rounds : ℕ → Round
  pub orphans_cancelled : Bool
  pub shutdown_requested : Bool

-- `gc_scan`, with no candidates where it fails.
unfoldable pub gc_scan : TickAnswers → List Text
unfolding retired_roots
gc_scan a =
    if a.scan_cancelled
    then []
    else elim a.distinct_roots [ none ↦ [] | some known ↦ retired_roots a.stat_at_scan known ]

abbrev pub deletions : List (Text × Option ℕ) → List TickEvent
deletions [] = []
deletions ((root, answer) ∷ asked) = root_deleted root ∷ deletions asked

-- The compaction, and the drop of the lane behind it.
unfoldable pub compaction : TickAnswers → List TickEvent × MaintenanceTick
compaction a = (compacted ∷ lane_dropped ∷ [], if a.shutdown_requested then stop else continue)

abbrev pub behind :
    List TickEvent → List TickEvent × MaintenanceTick → List TickEvent × MaintenanceTick
behind events (later, tick) = (events ++ later, tick)

-- The orphan rows are removed without the lane, which is taken again for the compaction.
unfoldable pub orphans_then_compaction : TickAnswers → List TickEvent × MaintenanceTick
unfolding compaction
orphans_then_compaction a =
    let orphans : List TickEvent = if a.orphans_cancelled then [] else orphans_removed ∷ [] in
    behind (lane_dropped ∷ orphans)
      (if a.lane_second then behind (lane_taken ∷ []) (compaction a) else ([], stop))

-- `run_maintenance_tick_with`
unfoldable pub run_maintenance_tick : Bool → TickAnswers → List TickEvent × MaintenanceTick
unfolding gc_scan gc_delete orphans_then_compaction
run_maintenance_tick run_gc a =
    let candidates : List Text = if run_gc then gc_scan a else [] in
    let scan : List TickEvent = if run_gc then scanned ∷ [] else [] in
    behind scan (
      if a.lane_first
      then behind (lane_taken ∷ deletions (gc_delete a.rounds 0 no_gc candidates).asked)
          (if run_gc then orphans_then_compaction a else compaction a)
      else ([], stop))
