-- ===== src/Ground/Tests.antt =====
-- A few documents of two corpora, and the theorems on the answer there.
use hallouminate.Common.{ℕ, ◌≡◌, refl, false, none, some, List, [], ◌∷◌}
use hallouminate.Ground.Cut.{Entry, cut_with_local_reserve, counts_order}
use hallouminate.Ground.Cut.Reserve.{Reserved, cut_with_local_reserve-Reserved}
use hallouminate.Common.Int.{pos}
use hallouminate.Ground.Pages.{group_by_page}
use hallouminate.Ground.Pages.Grouped.{Paged, group_by_page-Paged}
use hallouminate.Search.Types.{SearchHit}
use hallouminate.Corpus.Footnotes.{include}
use hallouminate.Ground.Bucket.{Rollup, roll_up}
use hallouminate.Ground.Bucket.Rolled.{Rolled, roll_up-Rolled}
use hallouminate.Ground.Types.{ranked, page, hits_output}
use hallouminate.Search.Whole.{whole, whole-Lawful}
use hallouminate.Text.{Text, codes, equal}
use hallouminate.Text.Order.{compare_text}

abbrev doc : Text → Text → ℕ → Entry ℕ
doc path corpus chunks = (
  path,
  record {
    summary = none;
    keywords = [];
    score = chunks;
    z_score = none;
    mtime = [];
    corpus = corpus;
    path = none;
    stale = false;
    chunks = [];
    coverage = some (record { chunks = chunks; pages = none });
  },
)

abbrev docs : List (Entry ℕ)
docs =
    doc (codes "a") (codes "far") 9
    ∷ doc (codes "b") (codes "far") 8
    ∷ doc (codes "c") (codes "far") 7
    ∷ doc (codes "d") (codes "own") 2
    ∷ doc (codes "e") (codes "own") 1
    ∷ doc (codes "f") (codes "own") 99
    ∷ []

abbrev cut : List (Entry ℕ)
cut =
    cut_with_local_reserve docs 3 (some (codes "own")) (codes "f" ∷ [])
      (counts_order (some (codes "own")))

cut_with_local_reserve-Reserved_example :
    Reserved docs 3 (some (codes "own")) (codes "f" ∷ []) (counts_order (some (codes "own"))) cut
cut_with_local_reserve-Reserved_example =
    cut_with_local_reserve-Reserved docs 3 (some (codes "own")) (codes "f" ∷ [])
      (counts_order (some (codes "own")))

-- Two of the own corpus stay, and the document of the fallback does not, for all its chunks.
reserved :
    cut
    ≡ doc (codes "a") (codes "far") 9
      ∷ doc (codes "d") (codes "own") 2
      ∷ doc (codes "e") (codes "own") 1
      ∷ []
unfolding cut_with_local_reserve equal compare_text
reserved = refl

abbrev hit : Text → Text → ℕ → SearchHit ℕ
hit id label score = record {
  chunk_id = id;
  corpus_key = record { name = codes "w"; canonical_root = codes "/w" };
  file_ref = codes "/w/a.pdf";
  heading_path = label ∷ [];
  line_start = 1;
  line_end = 4;
  text = [];
  search_text = [];
  summary = [];
  keywords = [];
  score = score;
  mtime_ms = pos 0;
  claim_marks = [];
  structure = none;
  overlap_bytes = 0;
  z_score = none;
}

abbrev hits : List (SearchHit ℕ)
hits =
    hit (codes "a") (codes "page:2") 9
    ∷ hit (codes "b") (codes "page:x") 8
    ∷ hit (codes "c") (codes "page:1") 7
    ∷ hit (codes "d") (codes "page:2") 6
    ∷ []

group_by_page-Paged_example : Paged hits
group_by_page-Paged_example = group_by_page-Paged hits

-- The two chunks of page 2 are one entry, and `page:x` is no page.
pages :
    group_by_page hits
    ≡ (hit (codes "a") (codes "page:2") 9, some 2)
      ∷ (hit (codes "b") (codes "page:x") 8, some 1)
      ∷ (hit (codes "c") (codes "page:1") 7, some 1)
      ∷ []
unfolding group_by_page equal
pages = refl

abbrev best_first : Rollup
best_first = record {
  chunks_per_file = 2;
  footnote_mode = include;
  match_mode = ranked;
  group_by = page;
  output = hits_output;
}

abbrev rolled : List (Entry ℕ)
rolled = roll_up whole 0 (λ text. []) (λ time. []) hits 1 best_first

roll_up-Rolled_example : Rolled whole 0 (λ text. []) (λ time. []) hits 1 best_first rolled
roll_up-Rolled_example =
    roll_up-Rolled whole 0 (λ text. []) (λ time. []) hits 1 best_first whole-Lawful
