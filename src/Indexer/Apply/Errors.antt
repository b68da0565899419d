-- ===== src/Indexer/Apply/Errors.antt =====
-- The errors of crates/hallouminate-domain/src/indexer/apply.rs: the first one ends the pass.
use hallouminate.Common.{◌≡◌, [], ◌∷◌}
use hallouminate.Indexer.Apply.Events.{Events, Deletions, Checked, Came}
use hallouminate.Indexer.Run.{
  Log, Run, Outcome, done, stopped, Event, acquired, released, hashed, prepared, touched, deleted,
  batch_prepared, committed, written, failed, BatchWriteStats,
}
use hallouminate.Indexer.Steps.{RunCtx}
use hallouminate.Indexer.Triples.{Raised, IsTaken, IsDenied}
use hallouminate.Indexer.Writer.{Error, ok, err}
use hallouminate.Text.{Text}

module _ {W : Type 0} (run : RunCtx W) where
  -- A call, and the log when it was made: the outside answered it without an error.
  abbrev pub Went : Event → Log → Type 0
  Went acquired log = IsTaken run.out.lane log
  Went released log = Unit
  Went (hashed f) log = (hash : Text) × (run.out.blake3_file (hashed f ∷ log) f ≡ ok hash)
  Went (prepared key f p) log = Came run key f (ok p) log
  Went (touched key ref mtime) log =
      run.out.touch_mtime (touched key ref mtime ∷ log) key ref mtime ≡ ok tt
  Went (deleted key ref) log = run.out.delete_file (deleted key ref ∷ log) key ref ≡ ok tt
  Went (batch_prepared fs) log =
      (work : W) × (run.out.prepare_batch (batch_prepared fs ∷ log) fs ≡ ok work)
  Went (committed fs) log =
      (work : W) × (ws : BatchWriteStats) × (run.out.commit_batch (committed fs ∷ log) fs work
        ≡ ok ws)
  Went (written ws) log = Unit
  Went (failed e) log = ⊥

  -- The outside answered it with the error.
  abbrev pub Refused : Error → Event → Log → Type 0
  Refused e (hashed f) log = run.out.blake3_file (hashed f ∷ log) f ≡ err e
  Refused e (touched key ref mtime) log =
      run.out.touch_mtime (touched key ref mtime ∷ log) key ref mtime ≡ err e
  Refused e (deleted key ref) log = run.out.delete_file (deleted key ref ∷ log) key ref ≡ err e
  Refused e (batch_prepared fs) log = run.out.prepare_batch (batch_prepared fs ∷ log) fs ≡ err e
  Refused e (committed fs) log =
      (work : W) × (run.out.commit_batch (committed fs ∷ log) fs work ≡ err e)
  Refused e other log = ⊥

  -- No call failed.
  abbrev pub Clean : Log → Type 0
  Clean [] = Unit
  Clean (e ∷ log) = Went e log × Clean log

  -- The error is that of the newest call, of the lane, or of a check, and no call before failed.
  pub data Broke (e : Error) : Log → Type 0 where
    refused : {call : Event} {log : Log} → Refused e call log → Clean log → Broke e (call ∷ log)
    denied : {log : Log} → IsDenied e run.out.lane log → Clean log → Broke e log
    checked : {log : Log} → Checked run e log → Clean log → Broke e log

  -- The error is the last thing of the pass, but for the guard that it drops.
  abbrev pub EndsIn : Error → Log → Type 0
  EndsIn e (released ∷ failed x ∷ log) = (x ≡ e) × Broke e log
  EndsIn e (failed x ∷ log) = (x ≡ e) × Broke e log
  EndsIn e log = ⊥

  abbrev IsClean : Run → Type 0
  IsClean r = Clean r.log

  abbrev Fails : Raised
  Fails e r = EndsIn e r.log

  -- Under the lane the guard is not dropped yet.
  abbrev FailsHeld : Raised
  FailsHeld e r = (log : Log) × (r.log ≡ failed e ∷ log) × Broke e log

  -- What a pass leaves by how it ends.
  abbrev pub StopsAtError : Outcome (Unit {0}) → Type 0
  StopsAtError (done a r) = Clean r.log
  StopsAtError (stopped e r) = EndsIn e r.log
