-- ===== src/Daemon/Gc/Deletions.antt =====
-- The deletions of crates/hallouminate-daemon/src/maintenance.rs: only of roots that are gone, and as
-- counted.
use mathlib.Core.Path.{subst}
use hallouminate.Common.{
  ℕ, suc, ◌+◌, ◌≡◌, refl, ◌∙◌, sym, if◌then◌else◌, Bool, true, false, Option, none, some, List, [],
  ◌∷◌, ◌++◌, ap, length, arith,
}
use hallouminate.Daemon.Gc.{
  Stat, present, undetermined, not_found, gc_ends, asking, is_absent, GcStats, Round, GcRun,
  gc_delete, collected,
}
use hallouminate.Text.{Text}

abbrev pub rows_of : List (Text × Option ℕ) → ℕ
rows_of [] = 0
rows_of ((root, none) ∷ asked) = rows_of asked
rows_of ((root, some removed) ∷ asked) = removed + rows_of asked

abbrev pub roots_of : List (Text × Option ℕ) → ℕ
roots_of [] = 0
roots_of ((root, none) ∷ asked) = roots_of asked
roots_of ((root, some removed) ∷ asked) = 1 + roots_of asked

-- Every deletion was confirmed.
abbrev pub Confirmed : List (Text × Option ℕ) → Type 0
Confirmed [] = Unit
Confirmed ((root, none) ∷ asked) = ⊥
Confirmed ((root, some removed) ∷ asked) = Confirmed asked

-- The deletion of a candidate that is gone, and none of any other.
abbrev pub met : Stat → Text → Option ℕ → List (Text × Option ℕ) → List (Text × Option ℕ)
met not_found root answer asked = (root, answer) ∷ asked
met present root answer asked = asked
met undetermined root answer asked = asked

met-kept :
    (stat : Stat) (root : Text) (answer : Option ℕ) (asked : List (Text × Option ℕ))
    → is_absent stat ≡ false
    → met stat root answer asked ≡ asked
met-kept not_found root answer asked e = ground (arith, e)
met-kept present root answer asked e = refl
met-kept undetermined root answer asked e = refl

module _ (rounds : ℕ → Round) where
  -- The rounds for these candidates, from round `k` on, meet neither a shutdown nor a panic.
  abbrev pub Live : ℕ → List Text → Type 0
  Live k [] = Unit
  Live k (c ∷ seen) =
      ((rounds k).is_cancelled ≡ false) × ((rounds k).panics ≡ false) × Live (suc k) seen

  -- The candidates that the recheck of their own round finds gone, and the store's answers.
  abbrev pub gone_in : ℕ → List Text → List (Text × Option ℕ)
  gone_in k [] = []
  gone_in k (c ∷ seen) =
      let rest = gone_in (suc k) seen in met ((rounds k).stat c) c ((rounds k).delete_root c) rest

  -- Why no candidate behind the seen ones was looked at: there is none, a shutdown or a panic in the
  -- next round, or the last deletion failed.
  pub data Stopped (next : ℕ) (rest : List Text) (is_ok : Bool) (asked : List (Text × Option ℕ))
      : Type 0 where
    all_seen : rest ≡ [] → Confirmed asked → is_ok ≡ true → Stopped next rest is_ok asked
    shut_down :
        (rounds next).is_cancelled ≡ true
        → Confirmed asked
        → is_ok ≡ true
        → Stopped next rest is_ok asked
    crashed :
        (rounds next).is_cancelled ≡ false
        → (rounds next).panics ≡ true
        → Confirmed asked
        → is_ok ≡ false
        → Stopped next rest is_ok asked
    failed :
        (earlier : List (Text × Option ℕ)) (root : Text)
        → asked ≡ earlier ++ (root, none) ∷ []
        → Confirmed earlier
        → is_ok ≡ false
        → Stopped next rest is_ok asked

  -- The stats start from `s`, and add up the answers.
  pub record Collects (k : ℕ) (candidates : List Text) (s : GcStats) (g : GcRun) : Type 0 where
    pub seen : List Text
    pub rest : List Text
    pub split : candidates ≡ seen ++ rest
    pub live : Live k seen
    pub asked : g.asked ≡ gone_in k seen
    pub stopped : Stopped (k + length seen) rest g.is_ok g.asked
    pub roots : g.stats.roots_collected ≡ s.roots_collected + roots_of g.asked
    pub rows : g.stats.rows_removed ≡ s.rows_removed + rows_of g.asked

  Stopped-next :
      (k n : ℕ) (rest : List Text) (is_ok : Bool) (asked : List (Text × Option ℕ))
      → Stopped (suc k + n) rest is_ok asked
      → Stopped (k + suc n) rest is_ok asked
  Stopped-next k n rest is_ok asked = subst (λ m. Stopped m rest is_ok asked) (omega arith)

  Stopped-asked :
      (next removed : ℕ) (rest : List Text) (is_ok : Bool) (root : Text)
      (asked : List (Text × Option ℕ))
      → Stopped next rest is_ok asked
      → Stopped next rest is_ok ((root, some removed) ∷ asked)
  Stopped-asked next removed rest is_ok root asked (all_seen e c ok) = all_seen e c ok
  Stopped-asked next removed rest is_ok root asked (shut_down e c ok) = shut_down e c ok
  Stopped-asked next removed rest is_ok root asked (crashed e p c ok) = crashed e p c ok
  Stopped-asked next removed rest is_ok root asked (failed earlier r e c ok) =
      failed ((root, some removed) ∷ earlier) r (ap (◌∷◌ (root, some removed)) e) c ok

  module _ (k : ℕ) (s : GcStats) (c : Text) (candidates : List Text)
      (here : (rounds k).is_cancelled ≡ false) (calm : (rounds k).panics ≡ false) where
    skip-Collects :
        (g : GcRun)
        → is_absent ((rounds k).stat c) ≡ false
        → Collects (suc k) candidates s g
        → Collects k (c ∷ candidates) s g
    skip-Collects g kept r = record {
      seen = c ∷ r.seen;
      rest = r.rest;
      split = ap (◌∷◌ c) r.split;
      live = (here, calm, r.live);
      asked =
          r.asked
          ∙ sym (
              met-kept ((rounds k).stat c) c ((rounds k).delete_root c) (gone_in (suc k) r.seen)
                kept);
      stopped = Stopped-next k (length r.seen) r.rest g.is_ok g.asked r.stopped;
      roots = r.roots;
      rows = r.rows;
    }

    delete-Collects :
        (answer : Option ℕ)
        → (rounds k).delete_root c ≡ answer
        → (rounds k).stat c ≡ not_found
        → ((removed : ℕ)
            → Collects
                (suc k)
                candidates
                (collected removed s)
                (gc_delete rounds (suc k) (collected removed s) candidates))
        → Collects k (c ∷ candidates) s (elim answer [
          | none ↦ asking c none (gc_ends s false)
          | some removed ↦
              asking c (some removed) (gc_delete rounds (suc k) (collected removed s) candidates)
        ])
    delete-Collects none e gone later = record {
      seen = c ∷ [];
      rest = candidates;
      split = refl;
      live = (here, calm, tt);
      asked =
          sym (ap (λ st. met st c ((rounds k).delete_root c) []) gone ∙ ap (λ a. (c, a) ∷ []) e);
      stopped = failed [] c refl tt refl;
      roots = omega arith;
      rows = omega arith;
    }
    delete-Collects (some removed) e gone later =
        let r = later removed in
        let g = gc_delete rounds (suc k) (collected removed s) candidates in
        record {
          seen = c ∷ r.seen;
          rest = r.rest;
          split = ap (◌∷◌ c) r.split;
          live = (here, calm, r.live);
          asked =
              ap (◌∷◌ (c, some removed)) r.asked
              ∙ sym (
                  ap (λ st. met st c ((rounds k).delete_root c) (gone_in (suc k) r.seen)) gone
                  ∙ ap (λ a. (c, a) ∷ gone_in (suc k) r.seen) e);
          stopped =
              Stopped-asked (k + suc (length r.seen)) removed r.rest g.is_ok c g.asked
                (Stopped-next k (length r.seen) r.rest g.is_ok g.asked r.stopped);
          roots = omega (arith, r.roots);
          rows = omega (arith, r.rows);
        }

  module _ (k : ℕ) (s : GcStats) (c : Text) (candidates : List Text) where
    -- A collection that looks at no candidate any more.
    ends-Collects :
        (is_ok : Bool)
        → Stopped (k + 0) (c ∷ candidates) is_ok []
        → Collects k (c ∷ candidates) s (gc_ends s is_ok)
    ends-Collects is_ok stopped = record {
      seen = [];
      rest = c ∷ candidates;
      split = refl;
      live = tt;
      asked = refl;
      stopped = stopped;
      roots = omega arith;
      rows = omega arith;
    }

    same_round : (rounds (k + 0)) ≡ rounds k
    same_round = ap rounds (omega arith)

    round-Collects :
        (cancelled panics : Bool) (stat : Stat)
        → (rounds k).is_cancelled ≡ cancelled
        → (rounds k).panics ≡ panics
        → (rounds k).stat c ≡ stat
        → ((t : GcStats) → Collects (suc k) candidates t (gc_delete rounds (suc k) t candidates))
        → Collects k (c ∷ candidates) s (
            if cancelled
            then gc_ends s true
            else if panics
            then gc_ends s false
            else elim (if is_absent stat then c ∷ [] else []) [
              | [] ↦ gc_delete rounds (suc k) s candidates
              | reconfirmed ∷ others ↦ elim ((rounds k).delete_root reconfirmed) [
                | none ↦ asking reconfirmed none (gc_ends s false)
                | some removed ↦
                    asking reconfirmed
                      (some removed)
                      (gc_delete rounds (suc k) (collected removed s) candidates)
              ]
            ])
    round-Collects true panics stat here calm seen later =
        ends-Collects true (shut_down (ap (λ r. r.is_cancelled) same_round ∙ here) tt refl)
    round-Collects false true stat here calm seen later = ends-Collects false (
        crashed (ap (λ r. r.is_cancelled) same_round ∙ here) (ap (λ r. r.panics) same_round ∙ calm)
          tt refl)
    round-Collects false false not_found here calm seen later =
        delete-Collects k s c candidates here calm ((rounds k).delete_root c) refl seen
          (λ removed. later (collected removed s))
    round-Collects false false present here calm seen later =
        skip-Collects k s c candidates here calm (gc_delete rounds (suc k) s candidates)
          (ap is_absent seen) (later s)
    round-Collects false false undetermined here calm seen later =
        skip-Collects k s c candidates here calm (gc_delete rounds (suc k) s candidates)
          (ap is_absent seen) (later s)

  -- A collection looks at the candidates in their order, round by round, up to the first round that is
  -- shut down or panics, or to the first deletion that fails. It asks for the deletion of exactly those
  -- looked at that the recheck of their own round finds gone, not merely unreadable; all but a failed
  -- last one are confirmed. It reports an error exactly for a panic and for a failed deletion, and its
  -- stats add exactly the confirmed deletions.
  pub gc_delete-Collects :
      (k : ℕ) (s : GcStats) (candidates : List Text)
      → Collects k candidates s (gc_delete rounds k s candidates)
  unfolding gc_delete
  gc_delete-Collects k s [] = record {
    seen = [];
    rest = [];
    split = refl;
    live = tt;
    asked = refl;
    stopped = all_seen refl tt refl;
    roots = omega arith;
    rows = omega arith;
  }
  gc_delete-Collects k s (c ∷ candidates) =
      round-Collects k s c candidates (rounds k).is_cancelled (rounds k).panics ((rounds k).stat c)
        refl refl refl (λ t. gc_delete-Collects (suc k) t candidates)
