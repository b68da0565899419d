-- ===== src/Daemon/Backpressure/Gate.antt =====
-- When the gate admits a mutation, when it gives up, and that it always does one of the two.
use native.Mathlib.Decide.{dec_le}
use hallouminate.Common.{
  ℕ, zero, suc, ◌+◌, ◌-◌, ◌*◌, ◌≤◌, ◌<◌, min, max, true, false, ◌≡◌, ◌≢◌, refl, Option, ◌⊎◌, inl,
  inr, arith, leb,
}
use hallouminate.Daemon.Debt.{DebtLevel, fine, soft, hard, DaemonConfig, DebtCache}
use hallouminate.Daemon.Backpressure.Levels.{probe-ne-hard}
use hallouminate.Daemon.Backpressure.{
  StoreDebt, probe, admitted, retryable_hard_debt, GateRun, ends, block, gate, await_debt_gate,
  nanos_per_sec,
}

module _ (level_of : ℕ → DebtLevel) (overrun : ℕ → ℕ) where
  -- All probes from `k` up to `n` observe `Hard`.
  abbrev pub HardBetween : ℕ → ℕ → Type 0
  HardBetween k n = (i : ℕ) → k ≤ i → i < n → level_of i ≡ hard

  -- Either the last probe made is the first that is not `Hard`, or all are and the deadline is over.
  abbrev pub Settles : ℕ → ℕ → GateRun → Type 0
  Settles k deadline r =
      ((r.verdict ≡ admitted)
        × (n : ℕ) × (r.probes ≡ suc n)
        × (k ≤ n)
        × (level_of n ≢ hard)
        × HardBetween k n)
      ⊎ ((r.verdict ≡ retryable_hard_debt)
          × (deadline ≤ r.ended_at)
          × (k ≤ r.probes)
          × HardBetween k r.probes)

  from_next : (k : ℕ) → level_of k ≡ hard → (n : ℕ) → HardBetween (suc k) n → HardBetween k n
  from_next k h n later i lo hi = elim (dec_le (suc k) i) [
    | yes after ↦ later i after hi
    | no at ↦ let e : i ≡ k = omega arith in rw e h
  ]

  extend :
      (k deadline : ℕ) (r : GateRun)
      → level_of k ≡ hard
      → Settles (suc k) deadline r
      → Settles k deadline r
  extend k deadline r h (inl (v, n, p, lo, ne, all)) =
      inl (v, n, p, omega arith, ne, from_next k h n all)
  extend k deadline r h (inr (v, d, lo, all)) = inr (v, d, omega arith, from_next k h r.probes all)

  block-Settles :
      (fuel deadline poll k now : ℕ)
      → 0 < poll
      → deadline - now < fuel
      → Settles k deadline (block level_of overrun fuel deadline poll k now)
  unfolding block
  block-Settles zero deadline poll k now pos enough = elim enough [ ]
  block-Settles (suc fuel) deadline poll k now pos enough = elim (dec_le deadline now) [
    | yes over ↦
        let e : leb deadline now ≡ true = ground arith in
        rw e (inr (refl, over, omega arith, λ i lo hi. absurd (omega arith)))
    | no early ↦
        let e : leb deadline now ≡ false = ground arith in
        rw e (
          probed (block-Settles fuel deadline poll (suc k) woken pos (omega arith)) (level_of k)
            refl)
  ]
    where
      woken : ℕ
      woken = min (now + poll) deadline + overrun k

      rest : GateRun
      rest = block level_of overrun fuel deadline poll (suc k) woken

      probed :
          Settles (suc k) deadline rest
          → (l : DebtLevel) → level_of k ≡ l
          → Settles k deadline (elim (level_of k) [ hard ↦ rest | _ ↦ ends admitted woken (suc k) ])
      probed later hard h = rw h (extend k deadline rest h later)
      probed later fine h =
          rw h (inl (refl, k, refl, omega arith, (λ e. cc), λ i lo hi. absurd (omega arith)))
      probed later soft h =
          rw h (inl (refl, k, refl, omega arith, (λ e. cc), λ i lo hi. absurd (omega arith)))

  -- The gate always settles: it admits the mutation at the first probe that is not `Hard`, or gives
  -- up retryable, at the deadline or later, and then every probe it made observed `Hard`.
  pub await_debt_gate-Settles :
      (cfg : DaemonConfig) (now : ℕ)
      → Settles 0
          (now + cfg.hard_block_wait_secs * nanos_per_sec)
          (await_debt_gate level_of overrun cfg now)
  unfolding await_debt_gate
  await_debt_gate-Settles cfg now = first (level_of 0) refl
    where
      wait : ℕ
      wait = cfg.hard_block_wait_secs * nanos_per_sec

      poll : ℕ
      poll = max cfg.debt_cache_ttl_secs 1 * nanos_per_sec

      deadline : ℕ
      deadline = now + wait

      blocked : GateRun
      blocked = block level_of overrun (suc wait) deadline poll 1 now

      first :
          (l : DebtLevel)
          → level_of 0 ≡ l
          → Settles 0 deadline (await_debt_gate level_of overrun cfg now)
      first fine h =
          rw (h, gate)
            (inl (refl, 0, refl, omega arith, (λ e. cc), λ i lo hi. absurd (omega arith)))
      first soft h =
          rw (h, gate)
            (inl (refl, 0, refl, omega arith, (λ e. cc), λ i lo hi. absurd (omega arith)))
      first hard h =
          rw (h, gate)
            (extend 0 deadline blocked h
              (block-Settles (suc wait) deadline poll 1 now (omega arith) (omega arith)))

  block_bounded :
      (most fuel deadline poll k now : ℕ)
      → ((i : ℕ) → overrun i ≤ most)
      → now ≤ deadline + most
      → (block level_of overrun fuel deadline poll k now).ended_at ≤ deadline + most
  unfolding block
  block_bounded most zero deadline poll k now lag h = h
  block_bounded most (suc fuel) deadline poll k now lag h = ground (
    arith,
    lag k,
    block_bounded most fuel deadline poll (suc k) (min (now + poll) deadline + overrun k) lag,
  )

  -- Where no sleep overruns by more than `most`, the gate holds a mutation no longer than the longer
  -- of the soft delay and the hard wait, and `most` more.
  pub await_debt_gate_bounded :
      (most : ℕ) (cfg : DaemonConfig) (now : ℕ)
      → ((i : ℕ) → overrun i ≤ most)
      → (await_debt_gate level_of overrun cfg now).ended_at
        ≤ now
          + max (cfg.debt_soft_delay_ms * 1000000) (cfg.hard_block_wait_secs * nanos_per_sec)
          + most
  unfolding await_debt_gate
  await_debt_gate_bounded most cfg now lag =
      let wait = cfg.hard_block_wait_secs * nanos_per_sec in
      ground (
        arith,
        lag 0,
        block_bounded most (suc wait) (now + wait) (max cfg.debt_cache_ttl_secs 1 * nanos_per_sec) 1
            now lag (omega arith),
      )

-- With automatic maintenance off the gate never blocks: whatever the caches and the store hold at
-- each probe, the mutation is admitted after the first one.
pub open_without_maintenance :
    (cfg : DaemonConfig) (now : ℕ) (cache : ℕ → DebtCache) (read : ℕ → Option StoreDebt)
    (clock overrun : ℕ → ℕ)
    → cfg.maintenance_interval_secs ≡ 0
    → let r = await_debt_gate (λ k. (probe cfg (cache k) (read k) (clock k)).0) overrun cfg now in
      (r.verdict ≡ admitted) × (r.probes ≡ 1)
unfolding await_debt_gate
open_without_maintenance cfg now cache read clock overrun off =
    ground (arith, probe-ne-hard cfg (cache 0) (read 0) (clock 0) off)
