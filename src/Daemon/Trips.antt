-- ===== src/Daemon/Trips.antt =====
-- The trip-state file of crates/hallouminate-daemon/src/watchdog.rs, and the boot check that reads
-- it. A file is its contents, `none` where it cannot be read; clock values are unix seconds.
pub mod Record
pub mod Boot
use hallouminate.Common.{
  ℕ, ◌+◌, ◌-◌, min, Bool, true, false, ◌&&◌, Option, none, some, List, [], ◌∷◌, ◌++◌, length, drop,
  leb, ltb, if◌then◌else◌, saturating_add, u32_max,
}
use hallouminate.Common.Sorting.{sort}
use hallouminate.Daemon.Backoff.{exponential_backoff_secs}
use hallouminate.Text.{Text, newline, lines, trim, parse_u64, to_decimal}

abbrev pub trip_decay_secs : ℕ
trip_decay_secs = 3600

abbrev pub max_stored_trips : ℕ
max_stored_trips = 32

-- The loop over the lines: the timestamps that parse and lie between the cutoff and now.
abbrev pub in_window : (cutoff now : ℕ) → Option ℕ → List ℕ → List ℕ
in_window cutoff now none rest = rest
in_window cutoff now (some at) rest = if leb cutoff at && leb at now then at ∷ rest else rest

unfoldable pub parse_trips : (cutoff now : ℕ) → List Text → List ℕ
parse_trips cutoff now [] = []
parse_trips cutoff now (l ∷ ls) =
    in_window cutoff now (parse_u64 (trim l)) (parse_trips cutoff now ls)

-- `drain(..len - MAX_STORED_TRIPS)`, where there are more
unfoldable pub newest_trips : List ℕ → List ℕ
newest_trips trips =
    if ltb max_stored_trips (length trips)
    then drop (length trips - max_stored_trips) trips
    else trips

unfoldable pub read_recent_trips : Option Text → ℕ → List ℕ
unfolding parse_trips newest_trips
read_recent_trips none now = []
read_recent_trips (some contents) now =
    newest_trips (sort (parse_trips (now - trip_decay_secs) now (lines contents)))

unfoldable pub trip_body : List ℕ → Text
trip_body [] = []
trip_body (at ∷ trips) = to_decimal at ++ newline ∷ trip_body trips

-- The file is replaced by one rename; `written` says whether the writes and the rename succeeded.
unfoldable pub record_trip : Option Text → ℕ → Bool → Option Text × Bool
unfolding trip_body newest_trips
record_trip file now written =
    if written
    then (some (trip_body (newest_trips (read_recent_trips file now ++ now ∷ []))), true)
    else (file, false)

pub record TripSnapshot : Type 0 where
  pub recent_trips : ℕ
  pub last_trip_unix : Option ℕ
  pub backoff_secs : ℕ

abbrev pub last : List ℕ → Option ℕ
last [] = none
last (t ∷ []) = some t
last (t ∷ u ∷ ts) = last (u ∷ ts)

unfoldable pub trip_snapshot : Option Text → (floor cap now : ℕ) → TripSnapshot
trip_snapshot file floor cap now =
    let trips = read_recent_trips file now in
    let recent = min (length trips) u32_max in
    record {
      recent_trips = recent;
      last_trip_unix = last trips;
      backoff_secs = exponential_backoff_secs floor cap recent;
    }

pub data BootDecision : Type 0 where
  proceed : BootDecision
  backoff : (retry_after_secs backoff_secs recent_trips : ℕ) → BootDecision

unfoldable pub decide : TripSnapshot → ℕ → Option ℕ → BootDecision
decide snapshot now none = proceed
decide snapshot now (some at) =
    let ready_at = saturating_add at snapshot.backoff_secs in
    if leb ready_at now
    then proceed
    else backoff (ready_at - now) snapshot.backoff_secs snapshot.recent_trips

unfoldable pub check_boot_backoff : Option Text → (floor cap now : ℕ) → BootDecision
unfolding trip_snapshot decide
check_boot_backoff file floor cap now =
    let snapshot = trip_snapshot file floor cap now in decide snapshot now snapshot.last_trip_unix
