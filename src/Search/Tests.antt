-- ===== src/Search/Tests.antt =====
-- A small pool of two pages, and the theorems on search and on the answer there. The numbers are whole
-- ones, with an arithmetic that keeps the order.
use hallouminate.Common.{ℕ, ◌+◌, ◌≡◌, refl, ◌↔◌, Option, none, some, List, [], ◌∷◌, arith}
use hallouminate.Common.Int.{pos}
use hallouminate.Search.Fuse.{fuse}
use hallouminate.Search.Fuse.Dominance.{Monotone, IsDominated, ScoreAtMost, fuse-IsDominated}
use hallouminate.Search.Fuse.Ranking.{Ranking, fuse-Ranking}
use hallouminate.Search.Fuse.Scores.{first_rank}
use hallouminate.Assoc.{lookup}
use hallouminate.Search.Phrase.{search_phrase, collapse_whitespace}
use hallouminate.Search.Phrase.Found.{Answered, search_phrase-Answered}
use hallouminate.Search.Resolve.{RipgrepHit, Pool, resolve_rg_hits_to_chunks}
use hallouminate.Search.Resolve.Counts.{Attributed, resolve_rg_hits_to_chunks-Attributed}
use hallouminate.Search.Resolve.Told.{IsPool}
use hallouminate.Search.Roots.{RootSignals, fuse_together}
use hallouminate.Search.Roots.Shown.{Shown, fuse_together-Shown}
use hallouminate.Search.Terms.{rank_top}
use hallouminate.Search.Terms.Top.{Top, rank_top-Top}
use hallouminate.Search.Types.{SearchHit, RankedList, SignalEntry}
use hallouminate.Search.Whole.{whole, whole-Lawful}
use hallouminate.Text.{Text, codes, equal, to_ascii_lowercase}

whole-Monotone : Monotone whole
whole-Monotone = record {
  order = whole-Lawful;
  zero_le = λ a. ground arith;
  add_le = λ a b c d h k. ground (arith, h, k);
  add_grows = λ a c. ground arith;
  div_le = λ w k q r h. ground (arith, h);
}

abbrev lists : List (RankedList ℕ)
lists =
    record { weight = 9; chunk_ids = codes "a" ∷ codes "b" ∷ codes "a" ∷ [] }
    ∷ record { weight = 5; chunk_ids = codes "c" ∷ codes "a" ∷ [] }
    ∷ []

-- The repeated `a` counts once in the first list.
fused : fuse whole lists 1 ≡ (codes "a", 11) ∷ (codes "b", 7) ∷ (codes "c", 4) ∷ []
unfolding fuse equal
fused = refl

fuse-Ranking_example :
    Ranking whole lists 1 (fuse whole lists 1) ↔ (fuse whole lists 1 ≡ fuse whole lists 1)
fuse-Ranking_example = fuse-Ranking whole lists 1 (fuse whole lists 1) whole-Lawful

b_below_a : IsDominated whole (codes "b") (codes "a") lists
unfolding first_rank equal
b_below_a = (omega arith, (tt, tt))

fuse-IsDominated_example :
    ScoreAtMost whole
      (lookup (codes "b") (fuse whole lists 1))
      (lookup (codes "a") (fuse whole lists 1))
fuse-IsDominated_example =
    fuse-IsDominated whole (codes "b") (codes "a") lists 1 whole-Monotone b_below_a

abbrev hit : Text → Text → ℕ → SearchHit ℕ
hit id file line = record {
  chunk_id = id;
  corpus_key = record { name = codes "w"; canonical_root = codes "/w" };
  file_ref = file;
  heading_path = [];
  line_start = line;
  line_end = line + 4;
  text = codes "The art of X,  the Art";
  search_text = codes "The art of X,  the Art";
  summary = [];
  keywords = [];
  score = 0;
  mtime_ms = pos 0;
  claim_marks = [];
  structure = none;
  overlap_bytes = 0;
  z_score = none;
}

abbrev pool : Pool ℕ
pool =
    (codes "a", hit (codes "a") (codes "/w/a.md") 1)
    ∷ (codes "b", hit (codes "b") (codes "/w/a.md") 5)
    ∷ []

abbrev rg_hits : List RipgrepHit
rg_hits =
    record { file_ref = codes "/w/a.md"; line = 5; matched = codes "art" ∷ codes "x" ∷ [] }
    ∷ record { file_ref = codes "/w/a.md"; line = 40; matched = codes "art" ∷ [] }
    ∷ record { file_ref = codes "/w/z.md"; line = 1; matched = codes "art" ∷ [] }
    ∷ []

pool-IsPool : IsPool pool
unfolding lookup equal
pool-IsPool = ((refl, (refl, tt)), (refl, (refl, tt)))

resolve_rg_hits_to_chunks-Attributed_example :
    Attributed pool rg_hits (resolve_rg_hits_to_chunks pool rg_hits)
resolve_rg_hits_to_chunks-Attributed_example =
    resolve_rg_hits_to_chunks-Attributed pool rg_hits pool-IsPool

-- Both chunks hold line 5; one hit is dropped for its line, and one for its file.
resolved : resolve_rg_hits_to_chunks pool rg_hits ≡ (
  (codes "a", 2) ∷ (codes "b", 2) ∷ [],
  record { dropped_file_not_in_pool = 1; dropped_line_out_of_range = 1 },
)
unfolding resolve_rg_hits_to_chunks equal
resolved = refl

abbrev spaced : Text
spaced = codes " a\n\t b "

one_run : collapse_whitespace spaced ≡ codes " a b "
unfolding collapse_whitespace
one_run = refl

abbrev scan : Text → ℕ → Option (List (SearchHit ℕ))
scan needle rows =
    some (hit (codes "b") (codes "/w/b.md") 5 ∷ hit (codes "a") (codes "/w/a.md") 1 ∷ [])

search_phrase-Answered_example :
    Answered to_ascii_lowercase
      (λ text. [])
      whole
      scan
      (codes "/w")
      (codes "The Art")
      1
      (search_phrase to_ascii_lowercase (λ text. []) whole scan (codes "/w") (codes "The Art") 1)
search_phrase-Answered_example =
    search_phrase-Answered to_ascii_lowercase (λ text. []) whole scan (codes "/w") (codes "The Art")
      1

abbrev query : Text → List Text
query text = codes "rank" ∷ codes "score" ∷ codes "rank" ∷ []

rank_top-Top_example : Top (query []) (rank_top (query []))
rank_top-Top_example = rank_top-Top (query [])

abbrev entry : Text → SignalEntry ℕ
entry id = record { chunk_id = id; strength = some 3 }

abbrev roots : List (RootSignals ℕ)
roots =
    record {
      corpus = codes "w";
      fts = entry (codes "a") ∷ entry (codes "b") ∷ [];
      vector = entry (codes "b") ∷ [];
      rg = [];
      contains_list = [];
      hits = pool;
    }
    ∷ []

fuse_together-Shown_example :
    Shown whole query roots
      (codes "rank" ∷ [])
      (some (codes "w"))
      (fuse_together whole query roots (codes "rank" ∷ []) (some (codes "w")))
fuse_together-Shown_example =
    fuse_together-Shown whole query roots (codes "rank" ∷ []) (some (codes "w"))
