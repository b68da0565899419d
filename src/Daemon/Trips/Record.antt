-- ===== src/Daemon/Trips/Record.antt =====
-- What the trip-state file holds after trips have been recorded.
use hallouminate.Common.{
  ℕ, zero, suc, ◌-◌, ◌≤◌, ◌≡◌, refl, ap, ◌∙◌, true, Option, none, some, List, [], ◌∷◌, ◌++◌, length,
  length-drop, drop, leb, if◌then◌else◌, arith, All, All-append, u64_max,
}
use hallouminate.Common.Sorting.{sort, insert, IsSortedFrom, sort-IsSortedFrom, sort-sorted}
use hallouminate.Text.Decimal.{parse-to_decimal, to_decimal-IsSolid}
use hallouminate.Text.Lines.{lines-cons, trim-Solid}
use hallouminate.Text.{Text, lines, trim, parse_u64, to_decimal}
use hallouminate.Daemon.Trips.{
  in_window, parse_trips, newest_trips, read_recent_trips, trip_body, record_trip, max_stored_trips,
  trip_decay_secs,
}

All-insert : (n x : ℕ) (ys : List ℕ) → x ≤ n → All (λ t. t ≤ n) ys → All (λ t. t ≤ n) (insert x ys)
unfolding insert
All-insert n x [] h a = (h, tt)
All-insert n x (y ∷ ys) h a = ground (arith, All-insert n x ys)

All-sort : (n : ℕ) (xs : List ℕ) → All (λ t. t ≤ n) xs → All (λ t. t ≤ n) (sort xs)
unfolding sort
All-sort n [] a = tt
All-sort n (x ∷ xs) a = All-insert n x (sort xs) a.0 (All-sort n xs a.1)

All-drop : (n k : ℕ) (xs : List ℕ) → All (λ t. t ≤ n) xs → All (λ t. t ≤ n) (drop k xs)
All-drop n zero xs a = a
All-drop n (suc k) [] a = tt
All-drop n (suc k) (x ∷ xs) a = All-drop n k xs a.1

in_window-All :
    (cutoff now : ℕ) (o : Option ℕ) (ts : List ℕ)
    → All (λ t. t ≤ now) ts
    → All (λ t. t ≤ now) (in_window cutoff now o ts)
in_window-All cutoff now none ts a = a
in_window-All cutoff now (some at) ts a = ground arith

parse_trips-All : (cutoff now : ℕ) (ls : List Text) → All (λ t. t ≤ now) (parse_trips cutoff now ls)
unfolding parse_trips
parse_trips-All cutoff now [] = tt
parse_trips-All cutoff now (l ∷ ls) =
    in_window-All cutoff now (parse_u64 (trim l)) _ (parse_trips-All cutoff now ls)

newest_trips-All : (n : ℕ) (ts : List ℕ) → All (λ t. t ≤ n) ts → All (λ t. t ≤ n) (newest_trips ts)
unfolding newest_trips
newest_trips-All n ts a = ground (arith, All-drop n (length ts - 32) ts a)

pub read-All : (file : Option Text) (now : ℕ) → All (λ t. t ≤ now) (read_recent_trips file now)
unfolding read_recent_trips
read-All none now = tt
read-All (some contents) now =
    newest_trips-All now _
      (All-sort now _ (parse_trips-All (now - trip_decay_secs) now (lines contents)))

IsSortedFrom-weaken : (lo hi : ℕ) (xs : List ℕ) → lo ≤ hi → IsSortedFrom hi xs → IsSortedFrom lo xs
IsSortedFrom-weaken lo hi [] h s = tt
IsSortedFrom-weaken lo hi (x ∷ xs) h s = (omega arith, s.1)

drop-IsSortedFrom : (k lo : ℕ) (xs : List ℕ) → IsSortedFrom lo xs → IsSortedFrom lo (drop k xs)
drop-IsSortedFrom zero lo xs s = s
drop-IsSortedFrom (suc k) lo [] s = tt
drop-IsSortedFrom (suc k) lo (x ∷ xs) s =
    drop-IsSortedFrom k lo xs (IsSortedFrom-weaken lo x xs s.0 s.1)

newest_trips-IsSortedFrom : (ts : List ℕ) → IsSortedFrom 0 ts → IsSortedFrom 0 (newest_trips ts)
unfolding newest_trips
newest_trips-IsSortedFrom ts s = ground (arith, drop-IsSortedFrom (length ts - 32) 0 ts s)

pub length-newest_trips : (ts : List ℕ) → length (newest_trips ts) ≤ max_stored_trips
unfolding newest_trips
length-newest_trips ts = ground (arith, length-drop (length ts - 32) ts)

newest_trips_small : (ts : List ℕ) → length ts ≤ max_stored_trips → newest_trips ts ≡ ts
unfolding newest_trips
newest_trips_small ts h = ground arith

read-IsSortedFrom : (file : Option Text) (now : ℕ) → IsSortedFrom 0 (read_recent_trips file now)
unfolding read_recent_trips
read-IsSortedFrom none now = tt
read-IsSortedFrom (some contents) now = newest_trips-IsSortedFrom _ (sort-IsSortedFrom _)

IsSortedFrom-append :
    (lo now : ℕ) (ts : List ℕ)
    → lo ≤ now
    → IsSortedFrom lo ts
    → All (λ t. t ≤ now) ts
    → IsSortedFrom lo (ts ++ now ∷ [])
IsSortedFrom-append lo now [] h s a = (h, tt)
IsSortedFrom-append lo now (t ∷ ts) h s a = (s.0, IsSortedFrom-append t now ts a.0 s.1 a.1)

-- The trips at or after the cutoff.
abbrev pub kept : ℕ → List ℕ → List ℕ
kept cutoff [] = []
kept cutoff (t ∷ ts) = let rest = kept cutoff ts in if leb cutoff t then t ∷ rest else rest

kept-IsSortedFrom : (c lo : ℕ) (ts : List ℕ) → IsSortedFrom lo ts → IsSortedFrom lo (kept c ts)
kept-IsSortedFrom c lo [] s = tt
kept-IsSortedFrom c lo (t ∷ ts) s =
    ground (arith, kept-IsSortedFrom c t ts s.1, IsSortedFrom-weaken lo t (kept c ts))

pub length-kept : (c : ℕ) (ts : List ℕ) → length (kept c ts) ≤ length ts
length-kept c [] = omega arith
length-kept c (t ∷ ts) = ground (arith, length-kept c ts)

lines-nil : lines [] ≡ []
unfolding lines
lines-nil = refl

-- Reading back the lines that were written.
parse-body :
    (c now : ℕ) (ts : List ℕ)
    → now ≤ u64_max
    → All (λ t. t ≤ now) ts
    → parse_trips c now (lines (trip_body ts)) ≡ kept c ts
unfolding parse_trips trip_body
parse-body c now [] fits a = rw lines-nil
parse-body c now (t ∷ ts) fits a =
    rw
      (
        lines-cons (to_decimal t) (trip_body ts) (to_decimal-IsSolid t),
        trim-Solid (to_decimal t) (to_decimal-IsSolid t),
        parse-to_decimal t (omega arith),
      )
      (ground (arith, parse-body c now ts fits a.1))

All-weaken : (m n : ℕ) (ts : List ℕ) → m ≤ n → All (λ t. t ≤ m) ts → All (λ t. t ≤ n) ts
All-weaken m n [] h a = tt
All-weaken m n (t ∷ ts) h a = (omega arith, All-weaken m n ts h a.1)

pub read-some :
    (contents : Text) (now : ℕ)
    → read_recent_trips (some contents) now
      ≡ newest_trips (sort (parse_trips (now - trip_decay_secs) now (lines contents)))
unfolding read_recent_trips
read-some contents now = refl

-- A later read of a file to which a trip was recorded finds the trips that the recording kept, the
-- new one behind the earlier ones and at most the newest 32 of them, but for those decayed since.
pub read-record_trip :
    (file : Option Text) (now later : ℕ)
    → now ≤ later
    → later ≤ u64_max
    → read_recent_trips (record_trip file now true).0 later
      ≡ kept (later - trip_decay_secs) (newest_trips (read_recent_trips file now ++ now ∷ []))
unfolding record_trip
read-record_trip file now later le fits = rw read_as (sort_back ∙ small)
  where
    stored : List ℕ
    stored = newest_trips (read_recent_trips file now ++ now ∷ [])

    below : All (λ t. t ≤ now) stored
    below =
        newest_trips-All now _ (
          All-append _ (read_recent_trips file now) (now ∷ []) (read-All file now)
            (omega arith, tt))

    sorted : IsSortedFrom 0 stored
    sorted =
        newest_trips-IsSortedFrom _ (
          IsSortedFrom-append 0 now _ (omega arith) (read-IsSortedFrom file now)
            (read-All file now))

    later_kept : List ℕ
    later_kept = kept (later - trip_decay_secs) stored

    read_as : read_recent_trips (some (trip_body stored)) later ≡ newest_trips (sort later_kept)
    read_as =
        read-some (trip_body stored) later
        ∙ ap (λ (l : List ℕ). newest_trips (sort l))
            (parse-body (later - trip_decay_secs) later stored fits
              (All-weaken now later stored le below))

    sort_back : newest_trips (sort later_kept) ≡ newest_trips later_kept
    sort_back = ap newest_trips (sort-sorted 0 later_kept (kept-IsSortedFrom _ 0 stored sorted))

    small : newest_trips later_kept ≡ later_kept
    small = newest_trips_small later_kept (
        omega (
          arith,
          length-kept (later - trip_decay_secs) stored,
          length-newest_trips (read_recent_trips file now ++ now ∷ []),
        ))
