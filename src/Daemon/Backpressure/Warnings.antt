-- ===== src/Daemon/Backpressure/Warnings.antt =====
-- How often a throttled warning is logged.
use hallouminate.Common.{ℕ, ◌+◌, ◌≤◌, ◌≡◌, refl, some, List, [], ◌∷◌, arith, if◌then◌else◌}
use hallouminate.Daemon.Backpressure.{WarnThrottle, new_throttle, should_log, warn_window}

-- The instants at which a throttle logs, of those it is asked at.
abbrev pub logged : WarnThrottle → List ℕ → List ℕ
logged t [] = []
logged t (now ∷ later) =
    let rest = logged (should_log t now).0 later in
    if (should_log t now).1 then now ∷ rest else rest

-- Each instant is at least a window behind the one before it.
abbrev pub Apart : ℕ → List ℕ → Type 0
Apart last [] = Unit {0}
Apart last (now ∷ later) = (last + warn_window ≤ now) × Apart now later

abbrev pub Rising : ℕ → List ℕ → Type 0
Rising last [] = Unit {0}
Rising last (now ∷ later) = (last ≤ now) × Rising now later

lower : (first last : ℕ) (nows : List ℕ) → first ≤ last → Rising last nows → Rising first nows
lower first last [] le r = tt
lower first last (now ∷ later) le r = (omega (arith, le, r.0), r.1)

logged-Apart :
    (last : ℕ) (nows : List ℕ)
    → Rising last nows
    → Apart last (logged (record { last = some last }) nows)
unfolding should_log
logged-Apart last [] r = tt
logged-Apart last (now ∷ later) r =
    ground
      (arith, r, logged-Apart now later r.1, logged-Apart last later (lower last now later r.0 r.1))

-- Asked at rising instants, a throttle logs at the first, and then never twice within a window.
pub throttle-Apart :
    (now : ℕ) (later : List ℕ)
    → Rising now later
    → (rest : List ℕ) × (logged new_throttle (now ∷ later) ≡ now ∷ rest) × Apart now rest
unfolding should_log
throttle-Apart now later r =
    (logged (record { last = some now }) later, refl, logged-Apart now later r)
