-- ===== src/Indexer/Steps.antt =====
-- The steps of `apply_with_lane` and `run_in_batches` in
-- crates/hallouminate-domain/src/indexer/apply.rs: what is done for one file, candidate or snapshot,
-- and for one batch.
use hallouminate.Common.{
  ℕ, Bool, true, false, Option, none, some, List, [], ◌∷◌, ◌++◌, ◌+◌, length, if◌then◌else◌,
}
use hallouminate.Common.Int.{ℤ}
use hallouminate.Indexer.ContentKey.{Bytes, PreparedFile}
use hallouminate.Indexer.Run.{
  Outside, Action, pure, raise, answer, tell, tally, with_lane, ◌>>=◌, ◌>>◌, hashed, prepared,
  touched, deleted, batch_prepared, committed, written, BatchWriteStats,
}
use hallouminate.Indexer.Stats.{ApplyStats, record_unreadable}
use hallouminate.Indexer.Types.{CorpusKey, FileRef, FileSnapshot, Upsert, MtimeCandidate}
use hallouminate.Indexer.Writer.{indexer, WriteRequest, Prepared, file, skipped, prepare_file}
use hallouminate.Text.{Text, codes, equal}
use hallouminate.Indexer.Requests.{
  EmptyFilePolicy, retain, evict, smudge_racy_mtime, contains, owner_among, override_of,
}

abbrev pub has_chunks : PreparedFile → Bool
has_chunks pf = elim pf.chunks [ [] ↦ false | c ∷ cs ↦ true ]

-- What the steps of one pass share.
pub record RunCtx (W : Type 0) : Type 0 where
  pub out : Outside W
  pub keys : List CorpusKey
  pub key_first : CorpusKey → CorpusKey → Bool
  pub indexed_at_ms : ℤ
  pub batch_size : ℕ
  pub precomputed : List (FileRef × Bytes)

module _ {W : Type 0} (run : RunCtx W) where
  unfoldable pub corpus_key_for_file : FileRef → Action CorpusKey
  unfolding owner_among
  corpus_key_for_file f = elim (owner_among (run.out.canonicalize f) none run.keys) [
    | some key ↦ pure key
    | none ↦
        raise
          (indexer (codes "file is outside configured corpus roots: " ++ run.out.canonicalize f))
  ]

  unfoldable pub file_ref_string : FileRef → Action Text
  file_ref_string f = elim (run.out.to_str f) [
    | some s ↦ pure s
    | none ↦ raise (indexer (codes "non-utf8 path cannot be stored: " ++ f))
  ]

  unfoldable pub upsert_key : Upsert → Action CorpusKey
  unfolding corpus_key_for_file
  upsert_key u = elim u.corpus_key [ some key ↦ pure key | none ↦ corpus_key_for_file u.file ]

  unfoldable pub upsert_request : Upsert → Action WriteRequest
  unfolding upsert_key smudge_racy_mtime
  upsert_request u = upsert_key u >>= λ key. pure (record {
    corpus_key = key;
    file = u.file;
    mtime = smudge_racy_mtime u.mtime run.indexed_at_ms;
  })

  -- The deletion of one file's rows, under the lane.
  unfoldable pub delete_rows : CorpusKey → Text → Action (Unit {0})
  unfolding with_lane answer tell tally
  delete_rows key file_ref = with_lane run.out.lane (
      tell (deleted key file_ref)
      >> answer (λ log. run.out.delete_file log key file_ref)
      >> tally (λ s. record s { files_deleted = s.files_deleted + 1 }))

  unfoldable pub prepare_request : WriteRequest → Action Prepared
  unfolding answer tell prepare_file override_of
  prepare_request req =
      answer (λ log.
        prepare_file (run.out.read log) run.out.blake3_bytes run.out.sniff run.out.handler req
          run.indexed_at_ms (override_of req.file run.precomputed))
      >>= λ p. tell (prepared req.corpus_key req.file p) >> pure p

  unfoldable pub drop_empty : EmptyFilePolicy → WriteRequest → Action (Unit {0})
  unfolding file_ref_string delete_rows
  drop_empty retain req = pure tt
  drop_empty evict req =
      file_ref_string req.file >>= λ file_ref. delete_rows req.corpus_key file_ref

  -- What becomes of a prepared file: it joins the batch, or it is skipped.
  unfoldable pub settle : EmptyFilePolicy → WriteRequest → Prepared → Action (Option PreparedFile)
  unfolding drop_empty tally record_unreadable
  settle policy req (skipped reason) =
      tally (record_unreadable (record { file = req.file; reason = reason })) >> pure none
  settle policy req (file pf) =
      if has_chunks pf
      then pure (some pf)
      else (tally (λ s. record s { files_skipped_empty = s.files_skipped_empty + 1 })
          >> drop_empty policy req
          >> pure none)

  unfoldable pub take_request : EmptyFilePolicy → WriteRequest → Action (Option PreparedFile)
  unfolding prepare_request settle
  take_request policy req = prepare_request req >>= settle policy req

  unfoldable pub tally_written : ℕ → BatchWriteStats → ApplyStats → ApplyStats
  tally_written file_count ws s = record s {
    chunks_inserted = s.chunks_inserted + ws.chunks_written;
    embeddings_inserted = s.embeddings_inserted + ws.embeddings_written;
    files_upserted = s.files_upserted + file_count;
  }

  unfoldable pub commit : List PreparedFile → W → Action (Unit {0})
  unfolding answer tell tally tally_written
  commit files work =
      tell (committed files) >> answer (λ log. run.out.commit_batch log files work) >>= λ ws.
      tell (written ws) >> tally (tally_written (length files) ws)

  -- The embedding runs before the lane is taken.
  unfoldable pub write_batch : List PreparedFile → Action (Unit {0})
  unfolding answer tell with_lane commit
  write_batch [] = pure tt
  write_batch (f ∷ fs) =
      tell (batch_prepared (f ∷ fs))
      >> answer (λ log. run.out.prepare_batch log (f ∷ fs))
      >>= λ work. with_lane run.out.lane (commit (f ∷ fs) work)

  unfoldable pub touch_rows : MtimeCandidate → Action (Unit {0})
  unfolding with_lane answer tell tally smudge_racy_mtime
  touch_rows c =
      let mtime = smudge_racy_mtime c.new_mtime run.indexed_at_ms in
      with_lane run.out.lane (
        tell (touched c.snap.corpus_key c.snap.file_ref mtime)
        >> answer (λ log. run.out.touch_mtime log c.snap.corpus_key c.snap.file_ref mtime)
        >> tally (λ s. record s { files_touched = s.files_touched + 1 }))

  unfoldable pub new_hash : MtimeCandidate → Action Text
  unfolding answer tell
  new_hash c = elim c.known_hash [
    | some hash ↦ pure hash
    | none ↦ tell (hashed c.file) >> answer (λ log. run.out.blake3_file log c.file)
  ]

  abbrev pub fallen : MtimeCandidate → WriteRequest
  fallen c = record {
    corpus_key = c.snap.corpus_key;
    file = c.file;
    mtime = smudge_racy_mtime c.new_mtime run.indexed_at_ms;
  }

  -- Equal content only moves the mtime; any other falls through to a write.
  unfoldable pub check_candidate : MtimeCandidate → Action (Option WriteRequest)
  unfolding new_hash touch_rows
  check_candidate c = new_hash c >>= λ hash.
      if equal hash c.snap.content_hash then (touch_rows c >> pure none) else pure (some (fallen c))

  unfoldable pub remove_snapshot : FileSnapshot → Action (Unit {0})
  unfolding delete_rows contains
  remove_snapshot s =
      if contains run.keys s.corpus_key then delete_rows s.corpus_key s.file_ref else pure tt
