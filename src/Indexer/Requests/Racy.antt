-- ===== src/Indexer/Requests/Racy.antt =====
-- The guard against racy mtimes in crates/hallouminate-domain/src/indexer/apply.rs, with the plan of
-- plan.rs that reads the recorded mtime.
use hallouminate.Common.{◌≡◌, refl, zero, suc, true, false, Option, none, some, arith}
use hallouminate.Common.Int.{ℤ, pos, negsuc, eq_ℤ, leb_ℤ, pred_ℤ}
use hallouminate.Indexer.Plan.{touch, touches_of}
use hallouminate.Indexer.Requests.{smudge_racy_mtime}
use hallouminate.Indexer.Types.{FileRef, Mtime, FileSnapshot}
use hallouminate.Text.{Text}
use hallouminate.Text.Equal.{equal_self}

eq-pred : (m : ℤ) → eq_ℤ (pred_ℤ m) m ≡ false
eq-pred (pos zero) = refl
eq-pred (pos (suc n)) = ground arith
eq-pred (negsuc n) = ground arith

eq_self : (m : ℤ) → eq_ℤ m m ≡ true
eq_self (pos n) = ground arith
eq_self (negsuc n) = ground arith

-- A snapshot that a pass at `now` recorded for content of mtime `m`: if the file may still be written
-- within that millisecond, the next plan has its content compared whatever the mtime says; if not,
-- the recorded mtime is the true one, and the file is left alone while its hash is the recorded one.
pub smudge_racy_mtime-touches_of :
    (hash_of : FileRef → Option Text) (f : FileRef) (m : Mtime) (now : ℤ) (snap : FileSnapshot)
    → snap.mtime_ms ≡ smudge_racy_mtime m now
    → ((leb_ℤ now m ≡ true) → touches_of hash_of f m (some snap) ≡ some (touch f snap m none))
      × ((leb_ℤ now m ≡ false)
          → (snap.mtime_ms ≡ m)
            × ((hash_of f ≡ some snap.content_hash) → touches_of hash_of f m (some snap) ≡ none))
unfolding touches_of smudge_racy_mtime
smudge_racy_mtime-touches_of hash_of f m now snap recorded = (
  λ racy. rw (recorded, racy, eq-pred m) refl,
  λ settled. (
    rw (recorded, settled) refl,
    λ same. rw (recorded, settled, eq_self m, same, equal_self snap.content_hash) refl,
  ),
)
