-- ===== src/Ground/Bucket/Rolled.antt =====
-- Which documents `roll_up` of crates/hallouminate-domain/src/ground/bucket.rs makes of the hits.
use mathlib.Core.List.{append_assoc, append-nil}
use mathlib.Core.Path.{subst}
use hallouminate.Assoc.{lookup, insert, values, IsMap, lookup-insert, lookup-equal, insert-IsMap}
use hallouminate.Assoc.Sorted.{lookup-sort_by, sort_by-IsMap}
use hallouminate.Common.{
  ℕ, ◌≡◌, refl, ◌∙◌, sym, ap, Bool, true, false, Bool-cases, inl, inr, some, List, [], ◌∷◌, ◌++◌,
  take, map,
}
use hallouminate.Common.Int.{ℤ}
use hallouminate.Common.Order.{Lawful, Cmp, then_with-Lawful, reversed-Lawful, on-Lawful}
use hallouminate.Common.SortBy.{
  count_if, SameBag, count_if-sort_by, filter, sort_by, IsSortedBy, sort_by-IsSortedBy, sort_by-map,
}
use hallouminate.Corpus.Footnotes.{Events}
use hallouminate.Ground.Bucket.{
  Rollup, FileBucket, file_order, push, or_new, gather, docs_of, roll_up,
}
use hallouminate.Ground.Bucket.Documents.{Documents, docs_of-Documents}
use hallouminate.Ground.Bucket.Files.{IsTold, IsTold-push}
use hallouminate.Ground.Cut.{Entry, collect}
use hallouminate.Search.Types.{Floats, SearchHit, compare_score}
use hallouminate.Text.{Text, equal}
use hallouminate.Text.Equal.{equal_iff}
use hallouminate.Text.Order.{compare_text, compare_text-Lawful}

values-map {ℓ} : {V : Type ℓ} (m : List (Text × V)) → values m ≡ map (λ (e : Text × V). e.1) m
unfolding values
values-map [] = refl
values-map ((j, w) ∷ m) = ap (◌∷◌ w) (values-map m)

module _ {F : Type 0} (num : Floats F) (lowest : F) where
  abbrev pub is_of : Text → SearchHit F → Bool
  is_of f hit = equal hit.file_ref f

  gather-IsMap :
      (hits : List (SearchHit F)) (m : List (Text × FileBucket F))
      → IsMap m
      → IsMap (gather num lowest hits m)
  unfolding gather
  gather-IsMap [] m once = once
  gather-IsMap (hit ∷ hits) m once = gather-IsMap hits _ (
      insert-IsMap hit.file_ref
        (push num lowest hit (or_new num lowest hit (lookup hit.file_ref m))) m once)

  abbrev bucket : SearchHit F → List (Text × FileBucket F) → FileBucket F
  bucket hit m = push num lowest hit (or_new num lowest hit (lookup hit.file_ref m))

  abbrev after : SearchHit F → List (Text × FileBucket F) → List (Text × FileBucket F)
  after hit m = insert hit.file_ref (bucket hit m) m

  lookup-after :
      (f : Text) (hit : SearchHit F) (m : List (Text × FileBucket F))
      → equal hit.file_ref f ≡ true
      → lookup f (after hit m) ≡ some (bucket hit m)
  lookup-after f hit m same = lookup-insert hit.file_ref f (bucket hit m) m ∙ rw same refl

  lookup-after_ne :
      (f : Text) (hit : SearchHit F) (m : List (Text × FileBucket F))
      → equal hit.file_ref f ≡ false
      → lookup f (after hit m) ≡ lookup f m
  lookup-after_ne f hit m other = lookup-insert hit.file_ref f (bucket hit m) m ∙ rw other refl

  abbrev by_file : Cmp (Text × FileBucket F)
  by_file a b = file_order num a.1 b.1

  module _ (l : Lawful (compare_score num)) where
    gather-told :
        (f : Text) (hits done : List (SearchHit F)) (m : List (Text × FileBucket F))
        → IsTold num lowest f done (lookup f m)
        → IsTold num lowest f (done ++ filter (is_of f) hits) (lookup f (gather num lowest hits m))
    unfolding gather filter
    gather-told f [] done m told =
        subst (λ cs. IsTold num lowest f cs (lookup f m)) (sym (append-nil done)) told
    gather-told f (hit ∷ hits) done m told = elim (Bool-cases (equal hit.file_ref f)) [
      | inl same ↦ rw same (
          subst (λ cs. IsTold num lowest f cs (lookup f (gather num lowest hits (after hit m))))
            (append_assoc done (hit ∷ []) (filter (is_of f) hits))
            (gather-told f hits (done ++ hit ∷ []) (after hit m) (joined hit same)))
      | inr other ↦ rw other (
          gather-told f hits done (after hit m)
            (subst (IsTold num lowest f done) (sym (lookup-after_ne f hit m other)) told))
    ]
      where
        joined :
            (hit : SearchHit F)
            → equal hit.file_ref f ≡ true
            → IsTold num lowest f (done ++ hit ∷ []) (lookup f (after hit m))
        joined hit same =
            subst (IsTold num lowest f (done ++ hit ∷ [])) (sym (lookup-after f hit m same)) (
              IsTold-push num lowest l f hit done (lookup hit.file_ref m)
                ((equal_iff hit.file_ref f).0 same)
                (subst (IsTold num lowest f done) (sym (lookup-equal hit.file_ref f m same)) told))

    by_file-Lawful : Lawful by_file
    by_file-Lawful =
        then_with-Lawful (on-Lawful (λ (e : Text × FileBucket F). e.1.score) (reversed-Lawful l))
          (on-Lawful (λ (e : Text × FileBucket F). e.1.file_ref) compare_text-Lawful)

  module _ (parse : Text → Events) (rfc3339 : ℤ → Text) (hits : List (SearchHit F)) (top_files : ℕ)
      (rollup : Rollup) where
    -- The files of the hits, each once, with what its hits make of it, best first; the answer holds the
    -- documents of the first of them, by path.
    pub record Rolled (out : List (Entry F)) : Type 0 where
      pub files : List (Text × FileBucket F)
      pub once : IsMap files
      pub told : (f : Text) → IsTold num lowest f (filter (is_of f) hits) (lookup f files)
      pub sorted : IsSortedBy by_file files
      pub docs : List (Entry F)
      pub shown : Documents num lowest parse rfc3339 rollup (take top_files (values files)) docs
      pub mapped : SameBag out docs
      pub in_order : IsSortedBy (λ a b. compare_text a.0 b.0) out

    -- The answer has a document for each of the best `top_files` of the files that have a hit, the best
    -- score first, then the smaller path. A file scores as its best hit does, if that is above the lowest
    -- number, and takes its summary, keywords and time from its first hit. Its document shows its best
    -- hits up to the limit, each alone or by page, or only counts them and their pages, without a
    -- description. The comparison of scores has to be a total preorder, as it is without a NaN.
    pub roll_up-Rolled :
        Lawful (compare_score num) → Rolled (roll_up num lowest parse rfc3339 hits top_files rollup)
    unfolding roll_up lookup collect
    roll_up-Rolled l =
        let m = gather num lowest hits [] in
        let once = gather-IsMap hits [] tt in
        record {
          files = sort_by by_file m;
          once = sort_by-IsMap by_file m once;
          told = λ f.
              subst (IsTold num lowest f (filter (is_of f) hits))
                (sym (lookup-sort_by by_file f m once)) (gather-told l f hits [] [] refl);
          sorted = sort_by-IsSortedBy by_file (by_file-Lawful l) m;
          docs =
              docs_of num lowest parse rfc3339 rollup (take top_files (values (sort_by by_file m)));
          shown =
              docs_of-Documents num lowest parse rfc3339 rollup l
                (take top_files (values (sort_by by_file m)));
          mapped = λ p.
              count_if-sort_by (λ a b. compare_text a.0 b.0) p
                (docs_of num lowest parse rfc3339 rollup
                  (take top_files (sort_by (file_order num) (values m))))
              ∙ ap (λ bs. count_if p (docs_of num lowest parse rfc3339 rollup (take top_files bs)))
                  (same_files m);
          in_order =
              sort_by-IsSortedBy (λ a b. compare_text a.0 b.0)
                (on-Lawful (λ (e : Entry F). e.0) compare_text-Lawful)
                (docs_of num lowest parse rfc3339 rollup
                  (take top_files (sort_by (file_order num) (values m))));
        }
      where
        same_files :
            (m : List (Text × FileBucket F))
            → sort_by (file_order num) (values m) ≡ values (sort_by by_file m)
        same_files m =
            ap (sort_by (file_order num)) (values-map m)
            ∙ sort_by-map (λ (e : Text × FileBucket F). e.1) by_file (file_order num) (λ x y. refl)
                m
            ∙ sym (values-map (sort_by by_file m))
