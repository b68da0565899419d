-- ===== src/Daemon/Maintenance/Deferral.antt =====
-- How long crates/hallouminate-daemon/src/maintenance.rs defers a due pass, and how it then runs it.
use native.Mathlib.Decide.{dec_le}
use hallouminate.Common.{
  ℕ, zero, suc, ◌+◌, ◌-◌, ◌*◌, ◌≤◌, ◌<◌, min, ◌≡◌, ◌≢◌, refl, ◌⊎◌, inl, inr, Bool, true, false,
  Option, none, some, arith, leb, ◌||◌, if◌then◌else◌,
}
use hallouminate.Daemon.Maintenance.{
  MaintenanceConfig, DeferReason, Check, Due, runs, cancelled, out_of_fuel, Pace, full, forced_pace,
  defer_reason, defer_bound, defer_recheck, is_hard, await_due, due_pass,
}

module _ (cfg : MaintenanceConfig) (checks : ℕ → Check) (is_cancelled : ℕ → Bool)
    (overrun : ℕ → ℕ) where
  abbrev bound : ℕ
  bound = defer_bound cfg checks is_cancelled overrun

  -- Deferred before round `n`: a standing reason, no `Hard` debt, and no cancellation.
  abbrev pub DeferredBetween : ℕ → ℕ → Type 0
  DeferredBetween k n =
      (i : ℕ)
      → k ≤ i
      → i < n
      → (defer_reason (checks i) ≢ none)
        × (is_hard (checks i).level ≡ false)
        × (is_cancelled i ≡ false)

  -- Why a pass runs in round `n` after a deferral of `t`, and at which pace.
  abbrev pub RunsBecause : ℕ → ℕ → Bool → Pace → Type 0
  RunsBecause n t hard_forced pace =
      ((defer_reason (checks n) ≡ none) × (hard_forced ≡ false) × (pace ≡ full))
      ⊎ ((defer_reason (checks n) ≢ none)
          × ((bound ≤ t) ⊎ (is_hard (checks n).level ≡ true))
          × (hard_forced ≡ is_hard (checks n).level)
          × (pace ≡ forced_pace (checks n).elevated_at_pace cfg))

  -- How the wait ends that is in round `k`: it never runs on.
  abbrev pub Decided : ℕ → Due → Type 0
  Decided k (runs hard_forced pace n t) =
      (k ≤ n) × DeferredBetween k n × RunsBecause n t hard_forced pace
  Decided k (cancelled n) = (k ≤ n) × DeferredBetween k n × (is_cancelled n ≡ true)
  Decided k out_of_fuel = ⊥

  -- The deferral exceeds the bound by no more than one overrun.
  abbrev pub InBound : ℕ → Due → Type 0
  InBound slack (runs hard_forced pace n t) = t ≤ bound + slack
  InBound slack other = Unit

  deferred_next :
      (k n : ℕ)
      → (defer_reason (checks k) ≢ none)
        × (is_hard (checks k).level ≡ false)
        × (is_cancelled k ≡ false)
      → DeferredBetween (suc k) n
      → DeferredBetween k n
  deferred_next k n h later i lo hi = elim (dec_le (suc k) i) [
    | yes after ↦ later i after hi
    | no at ↦ let e : i ≡ k = omega (arith, lo, at) in rw e h
  ]

  extend :
      (k : ℕ) (d : Due)
      → (defer_reason (checks k) ≢ none)
        × (is_hard (checks k).level ≡ false)
        × (is_cancelled k ≡ false)
      → Decided (suc k) d
      → Decided k d
  extend k (runs hard_forced pace n t) h (lo, all, why) =
      (omega (arith, lo), deferred_next k n h all, why)
  extend k (cancelled n) h (lo, all, why) = (omega (arith, lo), deferred_next k n h all, why)
  extend k out_of_fuel h d = d

  due_now :
      (t : ℕ) (is_hard_now : Bool)
      → (leb bound t || is_hard_now) ≡ true
      → (bound ≤ t) ⊎ (is_hard_now ≡ true)
  due_now t true e = inr refl
  due_now t false e = inl (ground (arith, e))

  module _ (slack : ℕ) (timely : (i : ℕ) → overrun i ≤ slack) where
    -- One round, by what it reads.
    round-Decided :
        (k t : ℕ) (rest : Due) (reason : Option DeferReason) (now stops : Bool)
        → defer_reason (checks k) ≡ reason
        → (leb bound t || is_hard (checks k).level) ≡ now
        → is_cancelled k ≡ stops
        → t ≤ bound + slack
        → (t < bound → Decided (suc k) rest × InBound slack rest)
        → let d : Due = elim reason [
          | none ↦ runs false full k t
          | some r ↦
              if now
              then runs (is_hard (checks k).level) (forced_pace (checks k).elevated_at_pace cfg) k t
              else if stops
              then cancelled k
              else rest
        ] in
          Decided k d × InBound slack d
    round-Decided k t rest none now stops e f g small later =
        ((omega arith, λ i lo hi. absurd (omega (arith, lo, hi)), inl (e, refl, refl)), small)
    round-Decided k t rest (some reason) true stops e f g small later = (
      (
        omega arith,
        λ i lo hi. absurd (omega (arith, lo, hi)),
        inr (λ same. ground (arith, e, same), due_now t _ f, refl, refl),
      ),
      small,
    )
    round-Decided k t rest (some reason) false true e f g small later =
        ((omega arith, λ i lo hi. absurd (omega (arith, lo, hi)), g), tt)
    round-Decided k t rest (some reason) false false e f g small later =
        let next = later (ground (arith, f)) in
        (extend k rest (λ same. ground (arith, e, same), ground (arith, f), g) next.0, next.1)

    await_due-Decided :
        (rounds k t : ℕ)
        → bound ≤ t + rounds * defer_recheck
        → t ≤ bound + slack
        → let d = await_due cfg checks is_cancelled overrun (suc rounds) k t in
          Decided k d × InBound slack d
    unfolding await_due
    await_due-Decided zero k t enough small =
        round-Decided k t
          (await_due cfg checks is_cancelled overrun zero (suc k)
            (t + min defer_recheck (bound - t) + overrun k))
          (defer_reason (checks k)) (leb bound t || is_hard (checks k).level) (is_cancelled k) refl
          refl refl small (λ early. absurd (omega (arith, enough, early)))
    await_due-Decided (suc rounds) k t enough small =
        round-Decided k t
          (await_due cfg checks is_cancelled overrun (suc rounds) (suc k)
            (t + min defer_recheck (bound - t) + overrun k))
          (defer_reason (checks k)) (leb bound t || is_hard (checks k).level) (is_cancelled k) refl
          refl refl small
          (λ early.
            await_due-Decided rounds (suc k) (t + min defer_recheck (bound - t) + overrun k)
              (omega (arith, enough, early)) (omega (arith, timely k, small, early)))

  -- What a tick decides: at once if the debt is `Hard` at its start.
  abbrev pub TickDecided : Check → ℕ → Due → Type 0
  TickDecided at_start slack d =
      ((is_hard at_start.level ≡ true)
        × (d ≡ runs true (forced_pace at_start.elevated_at_pace cfg) 0 0))
      ⊎ ((is_hard at_start.level ≡ false) × Decided 0 d × InBound slack d)

  -- With a wait for each minute of the defer bound, a tick comes to a decision. `Hard` debt at its
  -- start has the pass run at once, slowed under I/O pressure. Otherwise the pass runs in the first
  -- round without a reason to defer, at full pace, or with the bound over or `Hard` debt, slowed under
  -- pressure, unless it is cancelled in a wait before; and if no wait oversleeps by more than `slack`,
  -- the deferral exceeds the bound by no more than that.
  pub due_pass-TickDecided :
      (at_start : Check) (slack rounds : ℕ)
      → ((i : ℕ) → overrun i ≤ slack)
      → bound ≤ rounds * defer_recheck
      → TickDecided at_start slack (due_pass cfg checks is_cancelled overrun at_start (suc rounds))
  unfolding due_pass
  due_pass-TickDecided at_start slack rounds timely enough =
      start_decided (is_hard at_start.level) refl
    where
      start_decided :
          (b : Bool)
          → is_hard at_start.level ≡ b
          → TickDecided at_start slack (
              if b
              then runs true (forced_pace at_start.elevated_at_pace cfg) 0 0
              else await_due cfg checks is_cancelled overrun (suc rounds) 0 0)
      start_decided true e = inl (e, refl)
      start_decided false e =
          let (decided, small) =
            await_due-Decided slack timely rounds 0 0 (omega (arith, enough)) (omega arith) in
          inr (e, decided, small)
