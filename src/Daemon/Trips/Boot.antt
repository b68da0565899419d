-- ===== src/Daemon/Trips/Boot.antt =====
-- The boot check: bounded waits, honest retry times, and no start right behind a trip.
use hallouminate.Common.{
  ℕ, zero, suc, ◌+◌, ◌-◌, ◌≤◌, ◌<◌, min, ◌≡◌, ◌≢◌, refl, ap, ◌∙◌, inl, inr, true, Option, none,
  some, List, [], ◌∷◌, ◌++◌, length, length-append, length-drop, drop, arith, All, u64_max, u32_max,
  Option-cases,
}
use native.Mathlib.Decide.{dec_lt}
use hallouminate.Common.Sorting.{
  sort, greatest, last_from, last_from-sort, length-sort, last_from-drop,
}
use hallouminate.Daemon.Backoff.{exponential_backoff_secs, backoff-le-cap, backoff_mono}
use hallouminate.Daemon.Trips.Record.{read-All, read-record_trip, kept, length-kept}
use hallouminate.Text.{Text, lines, trim, parse_u64}
use hallouminate.Daemon.Trips.{
  parse_trips, in_window, newest_trips, read_recent_trips, record_trip, last, trip_snapshot,
  TripSnapshot, BootDecision, proceed, backoff, decide, check_boot_backoff, trip_decay_secs,
}

last_le : (n : ℕ) (ts : List ℕ) {at : ℕ} → All (λ t. t ≤ n) ts → last ts ≡ some at → at ≤ n
last_le n [] a e = cc
last_le n (t ∷ []) a e = ground arith
last_le n (t ∷ u ∷ ts) a e = last_le n (u ∷ ts) a.1 e

-- A refused boot is told to wait a positive time, no longer than the wait the trips impose, and
-- that is never longer than the cap.
abbrev pub Waits : ℕ → BootDecision → Type 0
Waits cap proceed = Unit
Waits cap (backoff retry wait recent) = (0 < retry) × (retry ≤ wait) × (wait ≤ cap)

decide-Waits :
    (s : TripSnapshot) (cap now : ℕ) (o : Option ℕ)
    → ((at : ℕ) → o ≡ some at → at ≤ now)
    → s.backoff_secs ≤ cap
    → Waits cap (decide s now o)
unfolding decide
decide-Waits s cap now none past le = tt
decide-Waits s cap now (some at) past le = ground (arith, past at refl)

-- Whatever the trip file holds, the boot check either lets the daemon start or names a wait of at
-- least one second and at most the cap.
pub check_boot_backoff-Waits :
    (file : Option Text) (floor cap now : ℕ) → Waits cap (check_boot_backoff file floor cap now)
unfolding check_boot_backoff
check_boot_backoff-Waits file floor cap now =
    decide-Waits (trip_snapshot file floor cap now) cap now _
      (λ at e. last_le now (read_recent_trips file now) (read-All file now) e)
      (backoff-le-cap floor cap _)

drop-concat : (k x : ℕ) (ts : List ℕ) → k ≤ length ts → drop k (ts ++ x ∷ []) ≡ drop k ts ++ x ∷ []
drop-concat zero x ts h = refl
drop-concat (suc k) x [] h = elim h [ ]
drop-concat (suc k) x (t ∷ ts) h = drop-concat k x ts (omega arith)

newest_trips-concat :
    (x : ℕ) (ts : List ℕ) → (us : List ℕ) × (newest_trips (ts ++ x ∷ []) ≡ us ++ x ∷ [])
unfolding newest_trips
newest_trips-concat x ts = elim (dec_lt 32 (length (ts ++ x ∷ []))) [
  | yes more ↦ (
    drop (length (ts ++ x ∷ []) - 32) ts,
    ground (arith, drop-concat (length (ts ++ x ∷ []) - 32) x ts, length-append ts (x ∷ [])),
  )
  | no few ↦ (ts, ground arith)
]

kept-concat : (c x : ℕ) (ts : List ℕ) → c ≤ x → kept c (ts ++ x ∷ []) ≡ kept c ts ++ x ∷ []
kept-concat c x [] h = ground arith
kept-concat c x (t ∷ ts) h = ground (arith, kept-concat c x ts h)

last-concat : (x : ℕ) (ts : List ℕ) → last (ts ++ x ∷ []) ≡ some x
last-concat x [] = refl
last-concat x (t ∷ []) = refl
last-concat x (t ∷ u ∷ ts) = last-concat x (u ∷ ts)

first_step :
    (floor cap : ℕ) → floor ≤ u64_max → exponential_backoff_secs floor cap 1 ≡ min floor cap
unfolding exponential_backoff_secs
first_step floor cap h = omega arith

-- After a recorded trip the daemon does not start again before the backoff floor (or the cap, if
-- that is less) is over, whatever the file held before.
pub boot_after_trip :
    (file : Option Text) (floor cap now later : ℕ)
    → floor ≤ u64_max
    → now ≤ later
    → later < u64_max
    → later ≤ now + trip_decay_secs
    → later < now + min floor cap
    → check_boot_backoff (record_trip file now true).0 floor cap later ≢ proceed
unfolding check_boot_backoff
boot_after_trip file floor cap now later fits le small young soon e = ground (
  arith,
  read ∙ ap (kept cutoff) newest.1 ∙ kept-concat cutoff now newest.0 (omega arith),
  last-concat now (kept cutoff newest.0),
  length-append (kept cutoff newest.0) (now ∷ []),
  first_step floor cap fits,
  backoff_mono floor cap 1 (min (length (kept cutoff newest.0 ++ now ∷ [])) u32_max),
)
  where
    cutoff : ℕ
    cutoff = later - trip_decay_secs

    newest :
        (us : List ℕ) × (newest_trips (read_recent_trips file now ++ now ∷ []) ≡ us ++ now ∷ [])
    newest = newest_trips-concat now (read_recent_trips file now)

    read :
        read_recent_trips (record_trip file now true).0 later
        ≡ kept cutoff (newest_trips (read_recent_trips file now ++ now ∷ []))
    read = read-record_trip file now later le (omega arith)

window_rest :
    (now later at : ℕ) (zs : List ℕ)
    → All (λ t. t ≤ now) (in_window 0 later (some at) zs)
    → All (λ t. t ≤ now) zs
window_rest now later at zs a = ground arith

in_window_later :
    (c c' now later : ℕ) (o : Option ℕ) (xs ys zs : List ℕ)
    → c ≤ c'
    → now ≤ later
    → All (λ t. t ≤ now) (in_window 0 later o zs)
    → (All (λ t. t ≤ now) zs → ys ≡ kept c' xs)
    → in_window c' later o ys ≡ kept c' (in_window c now o xs)
in_window_later c c' now later none xs ys zs cc' le a h = h a
in_window_later c c' now later (some at) xs ys zs cc' le a h =
    let z = window_rest now later at zs a in ground (arith, h z, a)

parse_trips_later :
    (c c' now later : ℕ) (ls : List Text)
    → c ≤ c'
    → now ≤ later
    → All (λ t. t ≤ now) (parse_trips 0 later ls)
    → parse_trips c' later ls ≡ kept c' (parse_trips c now ls)
unfolding parse_trips
parse_trips_later c c' now later [] cc' le a = refl
parse_trips_later c c' now later (l ∷ ls) cc' le a =
    in_window_later c c' now later (parse_u64 (trim l)) (parse_trips c now ls)
      (parse_trips c' later ls) (parse_trips 0 later ls) cc' le a
      (parse_trips_later c c' now later ls cc' le)

greatest-kept : (c : ℕ) (ts : List ℕ) → greatest (kept c ts) ≤ greatest ts
greatest-kept c [] = omega arith
greatest-kept c (t ∷ ts) = ground (arith, greatest-kept c ts)

last-last_from : (d : ℕ) (ts : List ℕ) {at : ℕ} → last ts ≡ some at → at ≡ last_from d ts
last-last_from d [] e = cc
last-last_from d (t ∷ []) e = ground arith
last-last_from d (t ∷ u ∷ ts) e = last-last_from t (u ∷ ts) e

length-newest : (ts : List ℕ) → length (newest_trips ts) ≡ min (length ts) 32
unfolding newest_trips
length-newest ts = ground (arith, length-drop (length ts - 32) ts)

last_from-newest : (ts : List ℕ) → last_from 0 (newest_trips ts) ≡ last_from 0 ts
unfolding newest_trips
last_from-newest ts = ground (arith, last_from-drop (length ts - 32) 0 0 ts)

-- The file's readable timestamps up to `later` all lie in the past of `now`.
abbrev pub NoneBetween : (now later : ℕ) → Option Text → Type 0
NoneBetween now later none = Unit
NoneBetween now later (some contents) = All (λ t. t ≤ now) (parse_trips 0 later (lines contents))

kept_fewer :
    (c : ℕ) (ts : List ℕ)
    → (length (newest_trips (sort (kept c ts))) ≤ length (newest_trips (sort ts)))
      × (last_from 0 (newest_trips (sort (kept c ts))) ≤ last_from 0 (newest_trips (sort ts)))
kept_fewer c ts = (
  omega (
    arith,
    length-newest (sort (kept c ts)),
    length-newest (sort ts),
    length-sort (kept c ts),
    length-sort ts,
    length-kept c ts,
  ),
  omega (
    arith,
    last_from-newest (sort (kept c ts)),
    last_from-newest (sort ts),
    last_from-sort (kept c ts),
    last_from-sort ts,
    greatest-kept c ts,
  ),
)

-- A later reading has no more trips, and none that is newer.
read_later :
    (file : Option Text) (now later : ℕ)
    → now ≤ later
    → NoneBetween now later file
    → (length (read_recent_trips file later) ≤ length (read_recent_trips file now))
      × (last_from 0 (read_recent_trips file later) ≤ last_from 0 (read_recent_trips file now))
unfolding read_recent_trips
read_later none now later le past = (omega arith, omega arith)
read_later (some contents) now later le past =
    rw
      (parse_trips_later (now - 3600) (later - 3600) now later (lines contents) (omega arith) le
        past)
      (kept_fewer (later - 3600) (parse_trips (now - 3600) now (lines contents)))

-- The boot check on the trips that were read.
abbrev decide_on : (floor cap now : ℕ) → List ℕ → BootDecision
decide_on floor cap now trips =
    let recent = min (length trips) u32_max in
    decide
      (record {
        recent_trips = recent;
        last_trip_unix = last trips;
        backoff_secs = exponential_backoff_secs floor cap recent;
      })
      now (last trips)

retry_step :
    (floor cap now retry wait recent : ℕ) (trips later : List ℕ)
    → (length later ≤ length trips) × (last_from 0 later ≤ last_from 0 trips)
    → decide_on floor cap now trips ≡ backoff retry wait recent
    → decide_on floor cap (now + retry) later ≡ proceed
unfolding decide
retry_step floor cap now retry wait recent trips later (fewer, older) refused =
    elim (Option-cases (last later)) [
      | inl nothing_left ↦ rw (nothing_left, decide) refl
      | inr (at', e') ↦ elim (Option-cases (last trips)) [
        | inl nothing ↦ absurd (unrefused nothing)
        | inr (at, e) ↦ ground (
          arith,
          last-last_from 0 later e',
          last-last_from 0 trips e,
          backoff_mono floor cap (min (length later) u32_max) (min (length trips) u32_max),
        )
      ]
    ]
  where
    unrefused : last trips ≡ none → ⊥
    unrefused nothing = ground arith

-- Whoever waits out the advertised time is let in, unless a trip happened meanwhile.
pub retry_is_honest :
    (file : Option Text) (floor cap now retry wait recent : ℕ)
    → check_boot_backoff file floor cap now ≡ backoff retry wait recent
    → NoneBetween now (now + retry) file
    → check_boot_backoff file floor cap (now + retry) ≡ proceed
unfolding check_boot_backoff
retry_is_honest file floor cap now retry wait recent refused past =
    retry_step floor cap now retry wait recent (read_recent_trips file now)
      (read_recent_trips file (now + retry)) (read_later file now (now + retry) (omega arith) past)
      refused
