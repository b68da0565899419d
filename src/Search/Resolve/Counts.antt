-- ===== src/Search/Resolve/Counts.antt =====
-- The counts that `resolve_rg_hits_to_chunks` of crates/hallouminate-domain/src/search.rs returns.
use mathlib.Core.Path.{subst}
use hallouminate.Assoc.{lookup}
use hallouminate.Common.{
  ◌++◌, ◌||◌, if◌then◌else◌, ℕ, ◌+◌, ◌≡◌, refl, ◌∙◌, sym, ap, Bool, true, false, ◌&&◌, not,
  Bool-cases, inl, inr, Option, none, some, List, [], ◌∷◌, arith, length,
}
use hallouminate.Common.SortBy.{count_if}
use hallouminate.Search.Resolve.{
  RipgrepHit, RgResolveStats, no_drops, add_terms, Matched, term_counts, Pool, by_file, attribute,
  count_line, resolve_hits, resolve_rg_hits_to_chunks,
}
use hallouminate.Search.Resolve.Attribution.{
  fresh, add_terms-append, length-add_terms, chunks_of, or_none, lookup-by_file, told_by,
  lookup-attribute, any_covers, attribute-any_covers,
}
use hallouminate.Search.Types.{SearchHit}
use hallouminate.Text.{Text}
use hallouminate.Search.Resolve.Told.{
  add_told, IsPool, tells, terms_of, told_by-absent, told_by-one,
}

abbrev count_of : Option (List Text) → Option ℕ
count_of none = none
count_of (some terms) = some (length terms)

lookup-term_counts : (id : Text) (m : Matched) → lookup id (term_counts m) ≡ count_of (lookup id m)
unfolding lookup term_counts
lookup-term_counts id [] = refl
lookup-term_counts id ((j, terms) ∷ m) = ground (arith, lookup-term_counts id m)

module _ {F : Type 0} where
  module _ (pool : Pool F) where
    abbrev is_empty : List (SearchHit F) → Bool
    is_empty [] = true
    is_empty (h ∷ hs) = false

    -- No chunk of the hit's file is in the pool, or none of them holds its line.
    abbrev no_file : RipgrepHit → Bool
    no_file rg = is_empty (chunks_of rg.file_ref pool)

    abbrev no_line : RipgrepHit → Bool
    no_line rg = not (no_file rg) && not (any_covers rg (chunks_of rg.file_ref pool))

    unfoldable told : Text → List RipgrepHit → Option (List Text) → Option (List Text)
    unfolding told_by chunks_of
    told id [] o = o
    told id (rg ∷ rgs) o = told id rgs (told_by id rg (chunks_of rg.file_ref pool) o)

    record Run (rgs : List RipgrepHit) (matched : Matched) (stats : RgResolveStats)
        (out : Matched × RgResolveStats) : Type 0 where
      terms : (id : Text) → lookup id out.0 ≡ told id rgs (lookup id matched)
      files : out.1.dropped_file_not_in_pool ≡ stats.dropped_file_not_in_pool + count_if no_file rgs
      lines :
          out.1.dropped_line_out_of_range ≡ stats.dropped_line_out_of_range + count_if no_line rgs

    resolve_hits-Run :
        (rgs : List RipgrepHit) (matched : Matched) (stats : RgResolveStats)
        → Run rgs matched stats (resolve_hits (by_file pool []) rgs matched stats)
    unfolding resolve_hits told count_if
    resolve_hits-Run [] matched stats = record {
      terms = λ id. refl;
      files = omega arith;
      lines = omega arith;
    }
    resolve_hits-Run (rg ∷ rgs) matched stats =
        subst (λ o. Run (rg ∷ rgs) matched stats (next o))
          (sym (lookup-by_file rg.file_ref pool []))
          (at_chunks (λ now st. resolve_hits-Run rgs now st) (chunks_of rg.file_ref pool) refl)
      where
        next : Option (List (SearchHit F)) → Matched × RgResolveStats
        next o = elim o [
          | none ↦
              resolve_hits (by_file pool []) rgs matched
                (record stats { dropped_file_not_in_pool = stats.dropped_file_not_in_pool + 1 })
          | some chunks ↦
              let (attributed, now) = attribute rg chunks false matched in
              resolve_hits (by_file pool []) rgs now (count_line attributed stats)
        ]

        at_chunks :
            ((now : Matched) (st : RgResolveStats)
              → Run rgs now st (resolve_hits (by_file pool []) rgs now st))
            → (chunks : List (SearchHit F)) → chunks_of rg.file_ref pool ≡ chunks
            → Run (rg ∷ rgs) matched stats (next (or_none chunks))
        at_chunks later [] same =
            let ih =
              later matched
                (record stats { dropped_file_not_in_pool = stats.dropped_file_not_in_pool + 1 }) in
            record {
              terms = λ id.
                  ih.terms id
                  ∙ ap (told id rgs) (sym (ap (λ c. told_by id rg c (lookup id matched)) same));
              files = ground (arith, ih.files, ap is_empty same);
              lines = ground (arith, ih.lines, ap is_empty same);
            }
        at_chunks later (h ∷ hs) same =
            let ran = attribute rg (h ∷ hs) false matched in
            let ih = later ran.1 (count_line ran.0 stats) in
            record {
              terms = λ id.
                  ih.terms id
                  ∙ ap (told id rgs) (
                      lookup-attribute id rg (h ∷ hs) false matched
                      ∙ sym (ap (λ c. told_by id rg c (lookup id matched)) same));
              files = ground (arith, ih.files, ap is_empty same);
              lines = ground (
                arith,
                ih.lines,
                ap is_empty same,
                ap (any_covers rg) same,
                attribute-any_covers rg (h ∷ hs) false matched,
              );
            }

    told-terms_of :
        (id : Text) (hit : SearchHit F) (rgs : List RipgrepHit) (o : Option (List Text))
        → IsPool pool
        → lookup id pool ≡ some hit
        → told id rgs o ≡ terms_of hit rgs o
    unfolding told terms_of
    told-terms_of id hit [] o pooled found = refl
    told-terms_of id hit (rg ∷ rgs) o pooled found =
        ap (told id rgs) (told_by-one id hit rg pool o pooled found)
        ∙ told-terms_of id hit rgs (add_told (tells rg hit) rg o) pooled found

    told-absent :
        (id : Text) (rgs : List RipgrepHit) (o : Option (List Text))
        → IsPool pool
        → lookup id pool ≡ none
        → told id rgs o ≡ o
    unfolding told
    told-absent id [] o pooled absent = refl
    told-absent id (rg ∷ rgs) o pooled absent =
        ap (told id rgs) (told_by-absent id rg pool o pooled.1 absent)
        ∙ told-absent id rgs o pooled absent

    -- The terms that the hits in the chunk's file and lines matched, one after the other, and whether there
    -- is such a hit.
    unfoldable pub matched_by : SearchHit F → List RipgrepHit → List Text
    matched_by hit [] = []
    matched_by hit (rg ∷ rgs) =
        let rest = matched_by hit rgs in if tells rg hit then rg.matched ++ rest else rest

    unfoldable pub is_matched : SearchHit F → List RipgrepHit → Bool
    is_matched hit [] = false
    is_matched hit (rg ∷ rgs) = tells rg hit || is_matched hit rgs

    terms_of-some :
        (hit : SearchHit F) (rgs : List RipgrepHit) (terms : List Text)
        → terms_of hit rgs (some terms) ≡ some (add_terms terms (matched_by hit rgs))
    unfolding terms_of matched_by add_terms
    terms_of-some hit [] terms = refl
    terms_of-some hit (rg ∷ rgs) terms = elim (Bool-cases (tells rg hit)) [
      | inl yes_tells ↦
          rw (yes_tells, terms_of)
            (terms_of-some hit rgs (add_terms terms rg.matched)
              ∙ ap some (add_terms-append terms rg.matched (matched_by hit rgs)))
      | inr no_tells ↦ rw (no_tells, terms_of) (terms_of-some hit rgs terms)
    ]

    count-terms_of :
        (hit : SearchHit F) (rgs : List RipgrepHit)
        → count_of (terms_of hit rgs none)
          ≡ (if is_matched hit rgs then some (fresh [] (matched_by hit rgs)) else none)
    unfolding terms_of matched_by is_matched
    count-terms_of hit [] = refl
    count-terms_of hit (rg ∷ rgs) = elim (Bool-cases (tells rg hit)) [
      | inl yes_tells ↦
          rw (yes_tells, terms_of)
            (ap count_of (
                terms_of-some hit rgs (add_terms [] rg.matched)
                ∙ ap some (add_terms-append [] rg.matched (matched_by hit rgs)))
              ∙ ap some (
                  length-add_terms [] [] (rg.matched ++ matched_by hit rgs) (λ x. refl)
                  ∙ omega arith))
      | inr no_tells ↦ rw (no_tells, terms_of) (count-terms_of hit rgs)
    ]

    pub record Attributed (rgs : List RipgrepHit) (out : List (Text × ℕ) × RgResolveStats)
        : Type 0 where
      pub counted :
          (id : Text) (hit : SearchHit F)
          → lookup id pool ≡ some hit
          → lookup id out.0
            ≡ (if is_matched hit rgs then some (fresh [] (matched_by hit rgs)) else none)
      pub others : (id : Text) → lookup id pool ≡ none → lookup id out.0 ≡ none
      pub files : out.1.dropped_file_not_in_pool ≡ count_if no_file rgs
      pub lines : out.1.dropped_line_out_of_range ≡ count_if no_line rgs

    -- A chunk of the pool counts the distinct terms of the hits in its file whose line it holds, and has no
    -- count where there is none; nothing outside the pool is counted. A hit is dropped for its file exactly
    -- where the pool has no chunk of it, and for its line where it has some, none of which holds the line.
    -- The pool has each chunk under its own id, once.
    pub resolve_rg_hits_to_chunks-Attributed :
        (rgs : List RipgrepHit) → IsPool pool → Attributed rgs (resolve_rg_hits_to_chunks pool rgs)
    unfolding resolve_rg_hits_to_chunks lookup terms_of count_if is_matched matched_by
    resolve_rg_hits_to_chunks-Attributed [] pooled = record {
      counted = λ id hit found. refl;
      others = λ id absent. refl;
      files = refl;
      lines = refl;
    }
    resolve_rg_hits_to_chunks-Attributed (rg ∷ rgs) pooled =
        let run = resolve_hits-Run (rg ∷ rgs) [] no_drops in
        let shown = resolve_hits (by_file pool []) (rg ∷ rgs) [] no_drops in
        record {
          counted = λ id hit found.
              lookup-term_counts id shown.0
              ∙ ap count_of (run.terms id ∙ told-terms_of id hit (rg ∷ rgs) none pooled found)
              ∙ count-terms_of hit (rg ∷ rgs);
          others = λ id absent.
              lookup-term_counts id shown.0
              ∙ ap count_of (run.terms id ∙ told-absent id (rg ∷ rgs) none pooled absent);
          files = omega (arith, run.files);
          lines = omega (arith, run.lines);
        }
