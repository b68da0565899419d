-- ===== src/Daemon/Maintenance/Slices.antt =====
-- The slices of a paced pass in crates/hallouminate-daemon/src/maintenance.rs come to an end.
use hallouminate.Common.{
  ℕ, zero, suc, ◌+◌, ◌-◌, ◌*◌, ◌≤◌, ◌<◌, ◌≡◌, refl, ap, Bool, true, false, Option, none, some, List,
  [], ◌∷◌, arith, length, All, max, ltb, if◌then◌else◌,
}
use hallouminate.Daemon.Maintenance.{
  MaintenanceConfig, MaintenanceTick, continue, stop, forced_pace, Slice, PassRun, ends,
  after_slice, slices, run_maintenance_pass,
}

abbrev pub counted : Option ℕ → ℕ
counted none = 0
counted (some removed) = removed

module _ (slice : ℕ → Slice) (is_shut_down : ℕ → Bool) where
  -- The fragments that `n` slices from round `k` on removed.
  abbrev pub removed_in : ℕ → ℕ → ℕ
  removed_in k zero = 0
  removed_in k (suc n) = counted (slice k).fragments_removed + removed_in (suc k) n

  abbrev pub IsDone : Option MaintenanceTick → Type 0
  IsDone none = ⊥
  IsDone (some tick) = Unit

  -- Each of `n` slices from round `k` on removed its whole budget.
  abbrev pub Whole : (slice_budget k n : ℕ) → Type 0
  Whole slice_budget k zero = Unit
  Whole slice_budget k (suc n) =
      ((removed : ℕ) × ((slice k).fragments_removed ≡ some removed) × (slice_budget ≤ removed))
      × Whole slice_budget (suc k) n

  -- The slices from round `k` on: all but the first run without GC, and each but the last removed its
  -- whole budget.
  abbrev pub Sliced : (slice_budget backlog k : ℕ) → Bool → PassRun → Type 0
  Sliced slice_budget backlog k run_gc p =
      IsDone p.ended
      × ((later : List Bool) × (p.gc_runs ≡ run_gc ∷ later)
          × All (λ gc. gc ≡ false) later
          × (length later * slice_budget ≤ backlog)
          × Whole slice_budget k (length later))

  ends-Sliced :
      (b backlog k : ℕ) (tick : MaintenanceTick) (run_gc : Bool)
      → Sliced b backlog k run_gc (ends tick run_gc)
  ends-Sliced b backlog k tick run_gc = (tt, ([], refl, tt, grind arith, tt))

  after_slice-Sliced :
      (b backlog removed k : ℕ) (run_gc : Bool) (rest : PassRun)
      → (slice k).fragments_removed ≡ some removed
      → b ≤ removed
      → removed ≤ backlog
      → Sliced b (backlog - removed) (suc k) false rest
      → Sliced b backlog k run_gc (after_slice run_gc rest)
  after_slice-Sliced b backlog removed k run_gc rest was lo hi (done, (later, e, all, few, whole)) =
      (
        done,
        (
          false ∷ later,
          ap (λ l. run_gc ∷ l) e,
          (refl, all),
          grind arith,
          ((removed, was, lo), whole),
        ),
      )

  -- One slice, by how it went.
  slice-Sliced :
      (b backlog k : ℕ) (run_gc : Bool) (rest : PassRun) (tick : MaintenanceTick) (r : Option ℕ)
      → (slice k).fragments_removed ≡ r
      → counted r ≤ backlog
      → (b ≤ counted r → Sliced b (backlog - counted r) (suc k) false rest)
      → Sliced b backlog k run_gc (elim tick [
        | stop ↦ ends stop run_gc
        | continue ↦ elim r [
          | none ↦ ends continue run_gc
          | some removed ↦
              if ltb removed b
              then ends continue run_gc
              else if is_shut_down k
              then ends stop run_gc
              else after_slice run_gc rest
        ]
      ])
  slice-Sliced b backlog k run_gc rest stop r was hi later = ends-Sliced b backlog k stop run_gc
  slice-Sliced b backlog k run_gc rest continue none was hi later =
      ends-Sliced b backlog k continue run_gc
  slice-Sliced b backlog k run_gc rest continue (some removed) was hi later =
      counted_slice (ltb removed b) (is_shut_down k) refl
    where
      counted_slice :
          (short shut : Bool)
          → ltb removed b ≡ short
          → Sliced b backlog k run_gc (
              if short
              then ends continue run_gc
              else if shut
              then ends stop run_gc
              else after_slice run_gc rest)
      counted_slice true shut e = ends-Sliced b backlog k continue run_gc
      counted_slice false true e = ends-Sliced b backlog k stop run_gc
      counted_slice false false e =
          let lo : b ≤ removed = ground arith in
          after_slice-Sliced b backlog removed k run_gc rest was lo hi (later lo)

  slices-Sliced :
      (slice_budget fuel k backlog : ℕ) (run_gc : Bool)
      → 0 < slice_budget
      → backlog < fuel
      → ((n : ℕ) → removed_in k n ≤ backlog)
      → Sliced slice_budget backlog k run_gc (slices slice is_shut_down slice_budget fuel k run_gc)
  unfolding slices
  slices-Sliced b zero k backlog run_gc pos enough h = absurd (omega (arith, enough))
  slices-Sliced b (suc fuel) k backlog run_gc pos enough h =
      slice-Sliced b backlog k run_gc (slices slice is_shut_down b fuel (suc k) false)
        (slice k).tick (slice k).fragments_removed refl (omega (arith, h 1))
        (λ lo.
          slices-Sliced b fuel (suc k) (backlog - counted (slice k).fragments_removed) false pos
            (omega (arith, lo, pos, enough, h 1)) (λ n. omega (arith, h (suc n))))

  -- A pass at the pace that a forced one has: if its slices can remove no more than `backlog`
  -- fragments in all, it ends within one slice more than that, every slice but the last removed its
  -- whole budget, which is at least one, and only the first slice runs GC, if the caller allows it.
  pub run_maintenance_pass-Sliced :
      (cfg : MaintenanceConfig) (elevated allow_gc : Bool) (backlog : ℕ)
      → ((n : ℕ) → removed_in 0 n ≤ backlog)
      → Sliced (max cfg.paced_slice_budget 1) backlog 0 allow_gc (
          run_maintenance_pass slice is_shut_down (suc backlog) (forced_pace elevated cfg) allow_gc)
  unfolding run_maintenance_pass forced_pace
  run_maintenance_pass-Sliced cfg true allow_gc backlog h =
      slices-Sliced (max cfg.paced_slice_budget 1) (suc backlog) 0 backlog allow_gc (omega arith)
        (omega arith) h
  run_maintenance_pass-Sliced cfg false allow_gc backlog h =
      ends-Sliced (max cfg.paced_slice_budget 1) backlog 0 (slice 0).tick allow_gc
