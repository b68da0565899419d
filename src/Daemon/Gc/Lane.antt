-- ===== src/Daemon/Gc/Lane.antt =====
-- The write lane in a maintenance tick of crates/hallouminate-daemon/src/maintenance.rs, and that its
-- compaction does not depend on the collection.
use hallouminate.Common.{
  ℕ, ◌≡◌, refl, ap, sym, ◌∙◌, Bool, true, false, ◌&&◌, ◌||◌, not, if◌then◌else◌, Option, none, some,
  List, [], ◌∷◌, ◌++◌,
}
use hallouminate.Daemon.Gc.{
  TickEvent, scanned, lane_taken, lane_dropped, orphans_removed, compacted, root_deleted,
  TickAnswers, deletions, run_maintenance_tick, behind,
}
use hallouminate.Daemon.Maintenance.{MaintenanceTick, continue, stop}
use hallouminate.Text.{Text}

-- The lane is free (`false`) or held: roots are deleted and the store is compacted under it, and the
-- scan and the removal of orphan rows run without it.
abbrev pub tick_step : Bool → TickEvent → Option Bool
tick_step false lane_taken = some true
tick_step true lane_dropped = some false
tick_step false scanned = some false
tick_step false orphans_removed = some false
tick_step true (root_deleted root) = some true
tick_step true compacted = some true
tick_step lane event = none

abbrev pub lane_from : Option Bool → List TickEvent → Option Bool
lane_from none events = none
lane_from (some lane) [] = some lane
lane_from (some lane) (e ∷ events) = lane_from (tick_step lane e) events

abbrev pub compacts : List TickEvent → Bool
compacts [] = false
compacts (compacted ∷ events) = true
compacts (e ∷ events) = compacts events

deletions-lane_from :
    (asked : List (Text × Option ℕ)) (events : List TickEvent)
    → lane_from (some true) (deletions asked ++ events) ≡ lane_from (some true) events
deletions-lane_from [] events = refl
deletions-lane_from ((root, answer) ∷ asked) events = deletions-lane_from asked events

deletions-compacts :
    (asked : List (Text × Option ℕ)) (events : List TickEvent)
    → compacts (deletions asked ++ events) ≡ compacts events
deletions-compacts [] events = refl
deletions-compacts ((root, answer) ∷ asked) events = deletions-compacts asked events

-- The three parts of the statement, of what a tick did.
abbrev pub Laned :
    (run_gc lane_first lane_second shutdown_requested : Bool)
    → List TickEvent × MaintenanceTick
    → Type 0
Laned run_gc lane_first lane_second shutdown_requested (events, tick) =
    (lane_from (some false) events ≡ some false)
    × (compacts events ≡ (lane_first && (not run_gc || lane_second)))
    × (tick ≡ (if compacts events && not shutdown_requested then continue else stop))

-- What follows the deletions.
after_deletions-Laned :
    (asked : List (Text × Option ℕ)) (scan tail : List TickEvent) (tick : MaintenanceTick)
    → (g f l d : Bool)
    → ((events : List TickEvent)
        → (lane_from (some false) (scan ++ events) ≡ lane_from (some false) events)
          × (compacts (scan ++ events) ≡ compacts events))
    → lane_from (some true) tail ≡ some false
    → compacts tail ≡ (f && (not g || l))
    → tick ≡ (if compacts tail && not d then continue else stop)
    → Laned g f l d (behind scan (behind (lane_taken ∷ deletions asked) (tail, tick)))
after_deletions-Laned asked scan tail tick g f l d quiet lane found e =
    let whole = quiet (lane_taken ∷ deletions asked ++ tail) in
    (
      whole.0 ∙ deletions-lane_from asked tail ∙ lane,
      whole.1 ∙ deletions-compacts asked tail ∙ found,
      e
          ∙ ap (λ c. if c && not d then continue else stop)
              (sym (whole.1 ∙ deletions-compacts asked tail)),
    )

-- A tick takes and drops the lane in turn and ends without it, deletes roots and compacts under it,
-- and scans and removes orphan rows without it. It compacts exactly if the lane is handed out each
-- time it asks, whatever becomes of the collection, and goes on unless that fails or a shutdown is
-- requested meanwhile.
pub run_maintenance_tick-Laned :
    (run_gc : Bool) (a : TickAnswers)
    → Laned run_gc a.lane_first a.lane_second a.shutdown_requested (run_maintenance_tick run_gc a)
unfolding run_maintenance_tick
run_maintenance_tick-Laned run_gc a =
    tick_laned run_gc a.lane_first a.lane_second a.orphans_cancelled a.shutdown_requested _
  where
    tick_laned :
        (g f l o d : Bool) (asked : List (Text × Option ℕ))
        → let comp : List TickEvent × MaintenanceTick =
            (compacted ∷ lane_dropped ∷ [], if d then stop else continue) in
          Laned g f l d (
            behind (if g then scanned ∷ [] else []) (
              if f
              then behind (lane_taken ∷ deletions asked) (
                  if g
                  then behind
                      (lane_dropped ∷ (if o then [] else orphans_removed ∷ []))
                      (if l then behind (lane_taken ∷ []) comp else ([], stop))
                  else comp)
              else ([], stop)))
    tick_laned true false l o d asked = (refl, refl, refl)
    tick_laned false false l o d asked = (refl, refl, refl)
    tick_laned false true l o true asked =
        after_deletions-Laned asked [] _ _ false true l true (λ events. (refl, refl)) refl refl refl
    tick_laned false true l o false asked =
        after_deletions-Laned asked [] _ _ false true l false (λ events. (refl, refl)) refl refl
          refl
    tick_laned true true true true true asked =
        after_deletions-Laned asked (scanned ∷ []) _ _ true true true true (λ events. (refl, refl))
          refl refl refl
    tick_laned true true true true false asked =
        after_deletions-Laned asked (scanned ∷ []) _ _ true true true false (λ events. (refl, refl))
          refl refl refl
    tick_laned true true true false true asked =
        after_deletions-Laned asked (scanned ∷ []) _ _ true true true true (λ events. (refl, refl))
          refl refl refl
    tick_laned true true true false false asked =
        after_deletions-Laned asked (scanned ∷ []) _ _ true true true false (λ events. (refl, refl))
          refl refl refl
    tick_laned true true false true d asked =
        after_deletions-Laned asked (scanned ∷ []) _ _ true true false d (λ events. (refl, refl))
          refl refl refl
    tick_laned true true false false d asked =
        after_deletions-Laned asked (scanned ∷ []) _ _ true true false d (λ events. (refl, refl))
          refl refl refl
