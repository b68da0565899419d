-- ===== src/Search/Resolve/Told.antt =====
-- What one ripgrep hit tells a chunk in `resolve_rg_hits_to_chunks` of
-- crates/hallouminate-domain/src/search.rs.
use mathlib.Core.Path.{subst}
use hallouminate.Assoc.{lookup, IsMap, lookup-equal}
use hallouminate.Common.{
  ◌≡◌, refl, ◌∙◌, sym, ap, Bool, true, false, ◌&&◌, Bool-cases, inl, inr, Option, none, some, List,
  [], ◌∷◌, arith, All,
}
use hallouminate.Search.Resolve.{RipgrepHit, add_terms, or_empty, Pool}
use hallouminate.Search.Resolve.Attribution.{holds, chunks_of, told_by}
use hallouminate.Search.Types.{SearchHit}
use hallouminate.Text.{Text, equal}
use hallouminate.Text.Equal.{equal_iff}

abbrev pub add_told : Bool → RipgrepHit → Option (List Text) → Option (List Text)
add_told true rg o = some (add_terms (or_empty o) rg.matched)
add_told false rg o = o

module _ {F : Type 0} where
  -- Each chunk stands under its own id, and once.
  abbrev pub IsPool : Pool F → Type 0
  IsPool pool = IsMap pool × All (λ (e : Text × SearchHit F). equal e.1.chunk_id e.0 ≡ true) pool

  abbrev pub tells : RipgrepHit → SearchHit F → Bool
  tells rg hit = equal hit.file_ref rg.file_ref && holds rg hit

  -- The terms of the hits in the chunk's file and lines, in the order of the hits.
  unfoldable pub terms_of : SearchHit F → List RipgrepHit → Option (List Text) → Option (List Text)
  terms_of hit [] o = o
  terms_of hit (rg ∷ rgs) o = terms_of hit rgs (add_told (tells rg hit) rg o)

  pub told_by-absent :
      (id : Text) (rg : RipgrepHit) (pool : Pool F) (o : Option (List Text))
      → All (λ (e : Text × SearchHit F). equal e.1.chunk_id e.0 ≡ true) pool
      → lookup id pool ≡ none
      → told_by id rg (chunks_of rg.file_ref pool) o ≡ o
  unfolding told_by chunks_of lookup
  told_by-absent id rg [] o keyed absent = refl
  told_by-absent id rg ((j, h) ∷ pool) o (own, keyed) absent = ground (
    arith,
    own,
    absent,
    equal_iff h.chunk_id j,
    equal_iff h.chunk_id id,
    equal_iff j id,
    told_by-absent id rg pool o keyed,
  )

  pub told_by-one :
      (id : Text) (hit : SearchHit F) (rg : RipgrepHit) (pool : Pool F) (o : Option (List Text))
      → IsPool pool
      → lookup id pool ≡ some hit
      → told_by id rg (chunks_of rg.file_ref pool) o ≡ add_told (tells rg hit) rg o
  unfolding told_by chunks_of lookup
  told_by-one id hit rg [] o pooled found = ground (arith, found)
  told_by-one id hit rg ((j, h) ∷ pool) o ((once, onces), (own, keyed)) found =
      elim (Bool-cases (equal j id)) [
        | inl same ↦
            let e : ◌≡◌ {A = Option (SearchHit F)} (some h) (some hit) =
              ground (arith, found, same) in
            at_head same (ap (λ (p : Option (SearchHit F)). elim p [ none ↦ h | some x ↦ x ]) e)
        | inr other ↦ ground (
          arith,
          own,
          other,
          equal_iff h.chunk_id j,
          equal_iff h.chunk_id id,
          equal_iff j id,
          told_by-one id hit rg pool o (onces, keyed) (ground (arith, found, other)),
        )
      ]
    where
      at_head :
          equal j id ≡ true
          → h ≡ hit
          → told_by id rg (chunks_of rg.file_ref ((j, h) ∷ pool)) o ≡ add_told (tells rg hit) rg o
      at_head same here =
          subst
            (λ (x : SearchHit F).
              told_by id rg (chunks_of rg.file_ref ((j, h) ∷ pool)) o ≡ add_told (tells rg x) rg o)
            here
            (ground (
              arith,
              own,
              same,
              equal_iff h.chunk_id j,
              equal_iff h.chunk_id id,
              equal_iff j id,
              told_by-absent id rg pool (add_told (tells rg h) rg o) keyed
                  (sym (lookup-equal j id pool same) ∙ once),
            ))
