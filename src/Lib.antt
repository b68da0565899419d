-- ===== src/Lib.antt =====
-- A verification library of hallouminate, a retrieval daemon for Markdown wikis. The program is a
-- Rust workspace: crates/hallouminate-domain indexes the files of a corpus and answers searches,
-- crates/hallouminate-daemon keeps the index current and serves requests, and the other crates are
-- adapters, configuration and the command line.
--
-- Common      numbers, Boolean tests, lists, sorting and signed words that the parts share; native
--             naturals stand for machine words, with each wrap-around or saturation written out
-- Text        Rust's `str` as a list of code points, with the standard library's operations that the
--             program calls: trimming, lines, decimal numbers, searching for a pattern
-- Assoc       hash maps as association lists without duplicate keys
--
-- Corpus.ClaimMarks      crates/hallouminate-domain/src/corpus/claim_marks.rs: the claim comments of a
--                        page (`extract_claim_marks`), their removal from the retrieval text
--                        (`strip_claim_marks`) and the linter (`lint_claim_marks`)
-- Indexer.Types, Plan    crates/hallouminate-domain/src/indexer/plan.rs: the diff of the disk and the
--                        index (`plan`)
-- Indexer.Format, Writer crates/hallouminate-domain/src/indexer/format.rs and writer.rs: how a file's
--                        format is chosen, and what becomes of a file that cannot be indexed
-- Indexer.Requests       indexer/apply.rs: the key, the recorded mtime and the batch of each request
-- Indexer.Run, Steps     the calls that a pass makes of the store, the write lane and the files, and
--                        its step for one file, candidate, snapshot and batch
-- Indexer.Apply          indexer/apply.rs: the pass itself (`apply_with_lane`), which carries out a plan
-- Indexer.Triples        what holds before and after a call of a pass, and after an error
-- Corpus.Section         crates/hallouminate-domain/src/corpus/section.rs: the edits of a part of a page
-- Corpus.Breadcrumbs     crates/hallouminate-domain/src/corpus/chunker.rs: the headings that a chunk
--                        stands under
-- Corpus.Footnotes       crates/hallouminate-domain/src/footnotes.rs: footnotes read, removed or kept
--                        alone
-- Indexer.ContentKey     crates/hallouminate-domain/src/indexer/content_key.rs: what the key of a
--                        shared content row is the hash of (`ContentKey::derive`), with the file and
--                        chunk types of chunk.rs
-- Search.Types, Fuse     crates/hallouminate-domain/src/search/fuse.rs: weighted rank fusion (`fuse`)
-- Search.Structure, Roots
--                        search.rs beside it: the fusion of the signals of several roots
--                        (`fuse_roots`), and the lists of the chunks whose headings the query names
-- Search.Resolve         search.rs: which chunks the lines that ripgrep found count for
--                        (`resolve_rg_hits_to_chunks`), and the literal containment counts
-- Search.Phrase          search/phrase.rs: exact-phrase search
-- Search.Terms           search/terms.rs and corpus/keywords.rs: the terms of a query and the keywords
--                        of a page
-- Ground.Types, Cut      ground/types.rs and ground/orchestrate.rs: which ranked documents an answer
--                        keeps (`cut_with_local_reserve`)
-- Ground.Pages           ground/bucket.rs: the hits of a file by page (`group_by_page`, `coverage_of`)
-- Ground.Bucket          ground/bucket.rs: the hits as documents, one for each file (`roll_up`)
-- Corpus.Snippet         crates/hallouminate-domain/src/corpus/snippet.rs: the snippet of a chunk
-- Daemon.Backoff         crates/hallouminate-daemon/src/backoff.rs: the curve that the supervisor and
--                        the boot check share
-- Daemon.Heartbeat       heartbeat.rs beside it: the epoch counters that the daemon's loops bump
-- Daemon.Ladder, Churn   ladder.rs and churn.rs: thresholds, and the streak of passes without effect
-- Daemon.Debt            debt.rs: the debt levels and their cache
-- Daemon.Backpressure    backpressure.rs: the gate before every mutation (`await_debt_gate`)
-- Daemon.Maintenance     maintenance.rs: when a due maintenance pass runs (`maintenance_loop`), at which
--                        pace and in which slices (`run_maintenance_pass_with`), with the defer gates
--                        of state.rs
-- Daemon.Gc              maintenance.rs: a tick (`run_maintenance_tick_with`) and its collection of the
--                        roots that are gone, with `retired_roots` of
--                        crates/hallouminate-domain/src/common/paths.rs
-- Daemon.WatchBinding, WatchRegistry, WatchRegister, WatchAdmission
--                        watch/registry.rs: what a watched corpus is bound to, the registry's state,
--                        how a corpus enters it (`register`, `seed_baseline`), and which registration
--                        may reconcile next (`begin_next_catch_up`, `finish_catch_up`)
-- Daemon.Supervisor      supervisor.rs: the monitor of a task (the body of `Supervisor::spawn`)
-- Daemon.Trips           watchdog.rs: the trip file and the boot check (`check_boot_backoff`)
-- Daemon.Watchdog        watchdog.rs: the stall tracker, and the thread (`run`), which records a trip
--                        in the file that the next boot reads
--
-- State is passed explicitly: what a method changes through `&mut self`, a mutex or an atomic is an
-- argument and a part of the result. What the runtime decides is an argument too: clock readings,
-- the outcome of a task, whether a write succeeded, what the store reports. Loops that wait are
-- functions of the list of what they receive. A pass of the indexer is a monad of state and errors,
-- whose state is the log of its calls and its tallies; what the store and the files answer is any
-- function of the log so far, and the log survives an error. Instants are nanoseconds, or unix
-- seconds where the source has those.
--
-- Floating-point numbers are an argument, a record `Floats` of the operations that the code uses. What
-- a theorem needs of them is a hypothesis: that the comparison of scores is a total preorder, as it
-- is without a NaN, or that addition and division keep the order, as they do from nonnegative
-- numbers, rounding included. A hash map is an association list; where the program sorts what it
-- reads from one, the results show that the list's order does not matter.
--
-- Loops on texts take fuel: the length of the line for the scan of its comments, each of which
-- takes up seven characters, and one more than the length for the passes, each of which shortens
-- the line. The debt gate's fuel is one more than the hard wait in nanoseconds, since a sleep ends
-- at least one nanosecond later. A due maintenance pass takes a round for each minute of the defer
-- bound and one more, its sleep a round for each minute, and its slices one more than the fragments
-- there are. The count of a needle's occurrences takes the length of the text, and the loop over
-- the attributes of a claim comment one more than the length of their span, since every round of
-- either takes up a character. The chunks of a list take its length, since none is empty, and the
-- replacements in a text its length.
--
-- Not modelled: logging and the wording of messages, serialisation, the file system and sockets, the
-- LanceDB store, the Markdown parser, blake3 and the embedding models, the retrieval and the ripgrep
-- process that fill a root's signals, the cross-encoder, the lexical fallback pass, and the async
-- request handling around them. Paths are canonical, and are compared as texts; the
-- watcher registry's generation, which only grows by one, is a number without a bound.
pub mod Common
pub mod Text
pub mod Assoc
pub mod Corpus
pub mod Indexer
pub mod Search
pub mod Ground
pub mod Daemon
