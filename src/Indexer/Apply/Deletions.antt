-- ===== src/Indexer/Apply/Deletions.antt =====
-- Passes of crates/hallouminate-domain/src/indexer/apply.rs whose deletions keep the invariant
-- wherever they are made.
use hallouminate.Indexer.Apply.{clamped, start, apply_with_lane}
use hallouminate.Indexer.Requests.{EmptyFilePolicy, retain, evict}
use hallouminate.Indexer.Run.{Run, deleted}
use hallouminate.Indexer.Steps.{RunCtx, file_ref_string, delete_rows, drop_empty, remove_snapshot}
use hallouminate.Indexer.Triples.{
  Triple, Raised, Post, ◌then◌, pure-Triple, raise-Triple, option-Triple, if-Triple, tally-Triple,
  call-Triple,
}
use hallouminate.Indexer.Types.{CorpusKey, IndexPlan, FileSnapshot}
use hallouminate.Indexer.Writer.{WriteRequest}
use hallouminate.Text.{Text}
use hallouminate.Indexer.Apply.Events.{Events, unnamed, Deletions, All-from, add_deleted, adding}
use hallouminate.Indexer.Apply.Kept.{Removals, apply_with_lane-Removals}

module _ {W : Type 0} (run : RunCtx W) {I B : Run → Type 0} {E F : Raised}
    (h : Events run I B (λ _ _. I) E F) (d : Deletions run B F) where
  delete_rows-Triple :
      (key : CorpusKey) (ref : Text) → Triple (λ _. I) E I (delete_rows run key ref)
  unfolding delete_rows
  delete_rows-Triple key ref = h.scope (
      call-Triple {Q = λ _ r. B (adding add_deleted r)} (deleted key ref)
        (λ log. run.out.delete_file log key ref) (λ _. d.deletes key ref) (d.delete_fails key ref)
      then λ _. tally-Triple add_deleted (λ r i. i))

  remove_snapshot-Triple : (s : FileSnapshot) → Triple (λ _. I) E I (remove_snapshot run s)
  unfolding remove_snapshot
  remove_snapshot-Triple s =
      if-Triple _ (λ known. delete_rows-Triple s.corpus_key s.file_ref)
        (λ unknown. pure-Triple I tt (λ r i. i))

  drop_empty-Triple :
      (policy : EmptyFilePolicy) (req : WriteRequest)
      → Triple (λ _. I) E I (drop_empty run policy req)
  unfolding drop_empty file_ref_string
  drop_empty-Triple retain req = pure-Triple I tt (λ r i. i)
  drop_empty-Triple evict req =
      option-Triple (run.out.to_str req.file)
        (λ not_text. raise-Triple _ (λ r. h.raises _ r (unnamed req.file not_text)))
        (λ ref. pure-Triple I ref (λ r i. i))
      then λ ref. delete_rows-Triple req.corpus_key ref

  Deletions-Removals : (plan : IndexPlan) → Removals run h (λ _. Unit) plan
  Deletions-Removals plan = record {
    falls = All-from (λ c. tt) plan.mtime_touches;
    drops = λ req _. drop_empty-Triple evict req;
    removes = All-from remove_snapshot-Triple plan.deletes;
  }

pub apply_with_lane-Post :
    {W : Type 0} {I B : Run → Type 0} {E F : Raised} (run : RunCtx W)
    (h : Events (clamped run) I B (λ _ _. I) E F)
    → Deletions (clamped run) B F
    → I start
    → (plan : IndexPlan) → Post (λ _. I) E (apply_with_lane run plan)
apply_with_lane-Post run h d i plan =
    apply_with_lane-Removals run h (λ _. Unit) plan (Deletions-Removals (clamped run) h d plan) i
