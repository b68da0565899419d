-- ===== src/Corpus/Section/Splices.antt =====
-- Splicing under a heading: where the block goes, and when the splice is refused.
use hallouminate.Common.{
  ℕ, ◌≤◌, ◌<◌, ◌≡◌, refl, ap, ◌∙◌, ◌⊎◌, Bool, true, false, List, [], ◌∷◌, ◌++◌, length, take, drop,
  if◌then◌else◌, arith, All,
}
use hallouminate.Text.{Text, trim, equal}
use hallouminate.Corpus.Section.{
  Position, append, prepend, SectionError, not_found, duplicate, Result, ok, err, normalize_block,
  Heading, matching, section_end, insert_at, splice_under_heading,
}

-- The heading is asked for.
abbrev pub IsMatch : Text → Heading → Type 0
IsMatch heading h = equal (trim h.title) (trim heading) ≡ true

abbrev pub Differs : Text → Heading → Type 0
Differs heading h = equal (trim h.title) (trim heading) ≡ false

-- `at` is where the section ends: at the first later heading that is not deeper, or at the end of
-- the text where all are deeper.
abbrev pub EndsAt : (level len : ℕ) → List Heading → ℕ → Type 0
EndsAt level len [] at = at ≡ len
EndsAt level len (h ∷ hs) at =
    ((h.level ≤ level) × (at ≡ h.start)) ⊎ ((level < h.level) × EndsAt level len hs at)

section_end-EndsAt :
    (level len : ℕ) (hs : List Heading) → EndsAt level len hs (section_end level len hs)
unfolding section_end
section_end-EndsAt level len [] = refl
section_end-EndsAt level len (h ∷ hs) = ground (arith, section_end-EndsAt level len hs)

-- Where a block goes for a position.
abbrev pub GoesAt : Position → (len : ℕ) → Heading → List Heading → ℕ → Type 0
GoesAt prepend len h hs at = at ≡ h.line_end
GoesAt append len h hs at = EndsAt h.level len hs at

insert_at-GoesAt :
    (p : Position) (len : ℕ) (h : Heading) (hs : List Heading)
    → GoesAt p len h hs (insert_at p len h hs)
insert_at-GoesAt prepend len h hs = refl
insert_at-GoesAt append len h hs = section_end-EndsAt h.level len hs

-- The headings that match, in the order of the text.
abbrev pub Found : Text → List Heading → List (Heading × List Heading) → Type 0
Found heading hs [] = All (Differs heading) hs
Found heading hs ((h, behind) ∷ more) =
    (before : List Heading) × (hs ≡ before ++ h ∷ behind)
    × All (Differs heading) before
    × IsMatch heading h
    × Found heading behind more

matched :
    (heading : Text) (h : Heading) (hs : List Heading) (rest : List (Heading × List Heading))
    (same : Bool)
    → equal (trim h.title) (trim heading) ≡ same
    → Found heading hs rest
    → Found heading (h ∷ hs) (if same then (h, hs) ∷ rest else rest)
matched heading h hs rest true e f = ([], refl, tt, e, f)
matched heading h hs [] false e f = (e, f)
matched heading h hs ((g, behind) ∷ rest) false e (before, split, others, match, more) =
    (h ∷ before, ap (◌∷◌ h) split, (e, others), match, more)

matching-Found : (heading : Text) (hs : List Heading) → Found heading hs (matching heading hs)
unfolding matching
matching-Found heading [] = tt
matching-Found heading (h ∷ hs) =
    matched heading h hs (matching heading hs) _ refl (matching-Found heading hs)

-- What a splice gives: the text with the block put in at one place, which the one matching heading
-- and the headings behind it determine; or a refusal where no heading or a second one matches.
abbrev pub Spliced :
    (doc heading : Text) (p : Position) (fragment : Text)
    → List Heading
    → Result SectionError
    → Type 0
Spliced doc heading p fragment hs (ok r) =
    (h : Heading) × (before : List Heading) × (behind : List Heading) × (at : ℕ) × (hs
      ≡ before ++ h ∷ behind)
    × IsMatch heading h
    × All (Differs heading) before
    × All (Differs heading) behind
    × GoesAt p (length doc) h behind at
    × (r ≡ take at doc ++ (normalize_block fragment ++ drop at doc))
Spliced doc heading p fragment hs (err not_found) = All (Differs heading) hs
Spliced doc heading p fragment hs (err duplicate) =
    (h : Heading) × (g : Heading) × (before : List Heading) × (between : List Heading)
    × (behind : List Heading) × (hs ≡ before ++ h ∷ (between ++ g ∷ behind))
    × IsMatch heading h
    × IsMatch heading g

splice_found :
    (doc heading : Text) (p : Position) (fragment : Text) (hs : List Heading)
    (found : List (Heading × List Heading))
    → Found heading hs found
    → Spliced doc heading p fragment hs (elim found [
      | [] ↦ err not_found
      | (h, behind) ∷ [] ↦
          let at = insert_at p (length doc) h behind in
          ok (take at doc ++ (normalize_block fragment ++ drop at doc))
      | _ ∷ _ ∷ _ ↦ err duplicate
    ])
splice_found doc heading p fragment hs [] f = f
splice_found doc heading p fragment hs ((h, behind) ∷ []) (before, split, others, match, rest) = (
  h,
  before,
  behind,
  insert_at p (length doc) h behind,
  split,
  match,
  others,
  rest,
  insert_at-GoesAt p (length doc) h behind,
  refl,
)
splice_found doc heading p fragment hs ((h, behind) ∷ (g, last) ∷ more)
      (before, split, others, match, (between, again, o2, m2, rest)) =
    (h, g, before, between, last, split ∙ ap (λ t. before ++ h ∷ t) again, match, m2)

-- Splicing under a heading puts the block, and nothing else, into the text: behind the line of the
-- one heading that matches, or where its section ends, at the next heading that is not deeper or at
-- the end of the text. It is refused exactly where no heading matches or more than one does.
pub splice_under_heading-Spliced :
    (headings_of : Text → List Heading) (doc heading : Text) (p : Position) (fragment : Text)
    → Spliced doc heading p fragment
        (headings_of doc)
        (splice_under_heading headings_of doc heading p fragment)
unfolding splice_under_heading
splice_under_heading-Spliced headings_of doc heading p fragment =
    splice_found doc heading p fragment (headings_of doc) (matching heading (headings_of doc))
      (matching-Found heading (headings_of doc))
