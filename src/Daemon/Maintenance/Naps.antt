-- ===== src/Daemon/Maintenance/Naps.antt =====
-- The interval sleep of crates/hallouminate-daemon/src/maintenance.rs keeps the heartbeat.
use native.Mathlib.Decide.{dec_lt}
use hallouminate.Common.{
  ℕ, zero, suc, ◌+◌, ◌-◌, ◌*◌, ◌≤◌, ◌<◌, ◌≡◌, ◌≢◌, refl, ◌⊎◌, inl, inr, true, false, List, [], ◌∷◌,
  arith, ltb, if◌then◌else◌,
}
use hallouminate.Daemon.Debt.{DebtLevel, fine, soft, hard}
use hallouminate.Daemon.Maintenance.{sleep_with_heartbeat, defer_recheck, is_hard}

abbrev pub sum : List ℕ → ℕ
sum [] = 0
sum (x ∷ xs) = x + sum xs

module _ (level_at : ℕ → DebtLevel) where
  -- The naps from round `k` on: the whole time is slept unless the last look shows `Hard`, and no
  -- earlier look does.
  abbrev pub Naps : ℕ → ℕ → List ℕ → Type 0
  Naps k remaining [] = ⊥
  Naps k remaining (nap ∷ []) =
      (nap ≤ defer_recheck) × ((nap ≡ remaining) ⊎ ((nap < remaining) × (level_at k ≡ hard)))
  Naps k remaining (nap ∷ nap' ∷ naps) =
      (nap ≤ defer_recheck) × (level_at k ≢ hard) × Naps (suc k) (remaining - nap) (nap' ∷ naps)

  later-Naps :
      (k remaining : ℕ) (naps : List ℕ)
      → level_at k ≢ hard
      → Naps (suc k) (remaining - defer_recheck) naps
      → Naps k remaining (defer_recheck ∷ naps)
  later-Naps k remaining [] look h = elim h [ ]
  later-Naps k remaining (nap ∷ naps) look h = (omega arith, look, h)

  nap-Naps :
      (k remaining : ℕ) (naps : List ℕ) (level : DebtLevel)
      → level_at k ≡ level
      → defer_recheck < remaining
      → Naps (suc k) (remaining - defer_recheck) naps
      → Naps k remaining (defer_recheck ∷ (if is_hard level then [] else naps))
  nap-Naps k remaining naps fine e long h =
      later-Naps k remaining naps (λ same. ground (arith, e, same)) h
  nap-Naps k remaining naps soft e long h =
      later-Naps k remaining naps (λ same. ground (arith, e, same)) h
  nap-Naps k remaining naps hard e long h = (omega arith, inr (long, e))

  -- Whatever its length, the sleep comes in naps of at most 60 seconds with a heartbeat in between,
  -- sleeps the whole time, and is cut short only at the first look that shows `Hard`.
  pub sleep_with_heartbeat-Naps :
      (fuel k remaining : ℕ)
      → remaining ≤ fuel * defer_recheck
      → 0 < fuel
      → Naps k remaining (sleep_with_heartbeat level_at fuel k remaining)
  unfolding sleep_with_heartbeat
  sleep_with_heartbeat-Naps zero k remaining enough pos = absurd (omega (arith, pos))
  sleep_with_heartbeat-Naps (suc fuel) k remaining enough pos =
      elim (dec_lt defer_recheck remaining) [
        | yes long ↦
            let e : ltb defer_recheck remaining ≡ true = ground arith in
            rw e (
              nap-Naps k remaining _ (level_at k) refl long (
                sleep_with_heartbeat-Naps fuel (suc k) (remaining - defer_recheck)
                  (omega (arith, enough)) (omega (arith, enough, long))))
        | no short ↦
            let e : ltb defer_recheck remaining ≡ false = ground arith in
            rw e (omega (arith, short), inl refl)
      ]
