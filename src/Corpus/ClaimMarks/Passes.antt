-- ===== src/Corpus/ClaimMarks/Passes.antt =====
-- One line: each pass shortens it or finds no claim comment, and the passes end with none.
use mathlib.Core.List.{append_assoc}
use hallouminate.Common.{
  ℕ, zero, suc, ◌+◌, ◌≤◌, ◌<◌, ◌≡◌, refl, sym, ap, ◌∙◌, ◌⊎◌, inl, inr, Option, none, some, List, [],
  ◌∷◌, ◌++◌, arith, length, length-append, All, Bool, ◌==◌, if◌then◌else◌, true, false, ==_iff,
}
use hallouminate.Text.Search.{Splits, byte_len-append, break_on-Splits}
use hallouminate.Text.{Text, break_on, byte_len}
use hallouminate.Corpus.ClaimMarks.{
  Comment, not_claim, malformed, mark, classify, open_mark, close_mark, Found, first_comment,
  comments, keep, strip_once, strip_claim_comments_once, strip_passes, strip_claim_comments_in_line,
}

-- The parts of a line's first comment spell the line.
abbrev pub Spells : Text → Option Found → Type 0
Spells line none = Unit
Spells line (some f) = line ≡ f.before ++ (open_mark ++ (f.inner ++ (close_mark ++ f.after)))

close_step :
    (line before rest : Text)
    → line ≡ before ++ (open_mark ++ rest)
    → (r : Option (Text × Text)) → Splits close_mark rest r
    → Spells line (elim r [
      | none ↦ none
      | some (inner, after) ↦ some (record { before = before; inner = inner; after = after })
    ])
close_step line before rest e none s = tt
close_step line before rest e (some (inner, after)) s = e ∙ ap (λ t. before ++ (open_mark ++ t)) s

open_step :
    (line : Text) (r : Option (Text × Text))
    → Splits open_mark line r
    → Spells line (elim r [
      | none ↦ none
      | some (before, rest) ↦ elim (break_on close_mark rest) [
        | none ↦ none
        | some (inner, after) ↦ some (record { before = before; inner = inner; after = after })
      ]
    ])
open_step line none s = tt
open_step line (some (before, rest)) s =
    close_step line before rest s (break_on close_mark rest) (break_on-Splits close_mark rest)

pub first_comment-Spells : (line : Text) → Spells line (first_comment line)
unfolding first_comment
first_comment-Spells line =
    open_step line (break_on open_mark line) (break_on-Splits open_mark line)

-- The comments of a line are no claim comments.
abbrev pub NoClaims : List Text → Type 0
NoClaims = All (λ inner. classify inner ≡ not_claim)

-- A pass shortens the line, or leaves it alone and finds no claim comment.
abbrev pub Shrinks : (line next : Text) → Type 0
Shrinks line next = (length next < length line) × (byte_len next < byte_len line)

abbrev pub Passed : ℕ → Text → Text → Type 0
Passed fuel line next = Shrinks line next ⊎ ((next ≡ line) × NoClaims (comments fuel line))

pub spell_length :
    (line : Text) (f : Found)
    → Spells line (some f)
    → length line ≡ length f.before + (4 + (length f.inner + (3 + length f.after)))
spell_length line f e =
    ap length e
    ∙ omega (
      arith,
      length-append f.before (open_mark ++ (f.inner ++ (close_mark ++ f.after))),
      length-append f.inner (close_mark ++ f.after),
    )

spell_bytes :
    (line : Text) (f : Found)
    → Spells line (some f)
    → byte_len line ≡ byte_len f.before + (4 + (byte_len f.inner + (3 + byte_len f.after)))
unfolding byte_len
spell_bytes line f e =
    ap byte_len e
    ∙ omega (
      arith,
      byte_len-append f.before (open_mark ++ (f.inner ++ (close_mark ++ f.after))),
      byte_len-append f.inner (close_mark ++ f.after),
    )

-- A comment that is no claim is kept where it stands.
keep-before :
    (f : Found) (rest : Text)
    → keep f not_claim ++ rest ≡ f.before ++ (open_mark ++ (f.inner ++ (close_mark ++ rest)))
keep-before f rest =
    append_assoc f.before (open_mark ++ (f.inner ++ close_mark)) rest
    ∙ ap (λ t. f.before ++ (open_mark ++ t)) (append_assoc f.inner close_mark rest)

kept-Shrinks :
    (line : Text) (f : Found) (rest : Text)
    → Spells line (some f)
    → Shrinks f.after rest
    → Shrinks line (keep f not_claim ++ rest)
kept-Shrinks line f rest e (l, b) =
    let kept : Found = record { before = f.before; inner = f.inner; after = rest } in
    (
      omega (
        arith,
        l,
        spell_length line f e,
        spell_length (keep f not_claim ++ rest) kept (keep-before f rest),
      ),
      omega (
        arith,
        b,
        spell_bytes line f e,
        spell_bytes (keep f not_claim ++ rest) kept (keep-before f rest),
      ),
    )

-- What a pass leaves is no longer than the line.
Passed-le :
    (fuel : ℕ) (line next : Text)
    → Passed fuel line next
    → (length next ≤ length line) × (byte_len next ≤ byte_len line)
Passed-le fuel line next (inl (l, b)) = (omega (arith, l), omega (arith, b))
Passed-le fuel line next (inr (e, n)) = (omega (arith, ap length e), omega (arith, ap byte_len e))

dropped-Shrinks :
    (fuel : ℕ) (line : Text) (f : Found) (rest : Text)
    → Spells line (some f)
    → Passed fuel f.after rest
    → Shrinks line (f.before ++ rest)
dropped-Shrinks fuel line f rest e p =
    let (l, b) = Passed-le fuel f.after rest p in
    (
      omega (arith, l, spell_length line f e, length-append f.before rest),
      omega (arith, b, spell_bytes line f e, byte_len-append f.before rest),
    )

first_pass :
    (fuel : ℕ) (line : Text) (f : Found) (rest : Text)
    → Spells line (some f)
    → Passed fuel f.after rest
    → (c : Comment)
    → Shrinks line (keep f c ++ rest)
      ⊎ ((keep f c ++ rest ≡ line) × (c ≡ not_claim) × NoClaims (comments fuel f.after))
first_pass fuel line f rest e (inl s) not_claim = inl (kept-Shrinks line f rest e s)
first_pass fuel line f rest e (inr (same, n)) not_claim = inr (
  keep-before f rest
      ∙ ap (λ t. f.before ++ (open_mark ++ (f.inner ++ (close_mark ++ t)))) same
      ∙ sym e,
  refl,
  n,
)
first_pass fuel line f rest e p malformed = inl (dropped-Shrinks fuel line f rest e p)
first_pass fuel line f rest e p (mark s r n) = inl (dropped-Shrinks fuel line f rest e p)

-- The pass and the comments it looks at, at what the search for the first one found.
abbrev after_search : ℕ → Text → Option Found → Text
after_search fuel line none = line
after_search fuel line (some f) = keep f (classify f.inner) ++ strip_once fuel f.after

abbrev seen : ℕ → Option Found → List Text
seen fuel none = []
seen fuel (some f) = f.inner ∷ comments fuel f.after

search_pass :
    (fuel : ℕ) (line : Text)
    → ((later : Text) → Passed fuel later (strip_once fuel later))
    → (o : Option Found) → Spells line o
    → Shrinks line (after_search fuel line o)
      ⊎ ((after_search fuel line o ≡ line) × NoClaims (seen fuel o))
search_pass fuel line ih none e = inr (refl, tt)
search_pass fuel line ih (some f) e =
    elim (first_pass fuel line f (strip_once fuel f.after) e (ih f.after) (classify f.inner)) [
      | inl s ↦ inl s
      | inr (same, n, ns) ↦ inr (same, (n, ns))
    ]

strip_once-Passed : (fuel : ℕ) (line : Text) → Passed fuel line (strip_once fuel line)
unfolding strip_once comments
strip_once-Passed zero line = inr (refl, tt)
strip_once-Passed (suc fuel) line =
    search_pass fuel line (strip_once-Passed fuel) (first_comment line) (first_comment-Spells line)

-- One pass either shortens the line, in characters and in bytes, or returns it unchanged, and then
-- none of the comments the line holds is a claim comment.
pub strip_claim_comments_once-Passed :
    (line : Text) → Passed (length line) line (strip_claim_comments_once line)
unfolding strip_claim_comments_once
strip_claim_comments_once-Passed line = strip_once-Passed (length line) line

-- The line holds no claim comment.
abbrev pub Settled : Text → Type 0
Settled line = NoClaims (comments (length line) line)

settle_by :
    (line next more : Text) (same : Bool)
    → (byte_len next == byte_len line) ≡ same
    → Passed (length line) line next
    → (length next < length line → Settled more)
    → Settled (if same then next else more)
settle_by line next more true t (inl (l, b)) h =
    absurd (omega (arith, b, (==_iff (byte_len next) (byte_len line)).0 t))
settle_by line next more false t (inl (l, b)) h = h l
settle_by line next more true t (inr (e, n)) h = rw e n
settle_by line next more false t (inr (e, n)) h = absurd (ground (arith, ap byte_len e, t))

passes_settle : (fuel : ℕ) (line : Text) → length line < fuel → Settled (strip_passes fuel line)
unfolding strip_passes
passes_settle zero line h = absurd (omega (arith, h))
passes_settle (suc fuel) line h =
    let next = strip_claim_comments_once line in
    settle_by line next (strip_passes fuel next) (byte_len next == byte_len line) refl
      (strip_claim_comments_once-Passed line) (λ l. passes_settle fuel next (omega (arith, l, h)))

-- Stripping a line to a fixed point leaves none of its claim comments, well formed or not, and none
-- that the removals put together: every comment left is of another kind.
pub strip_claim_comments_in_line-Settled :
    (line : Text) → Settled (strip_claim_comments_in_line line)
unfolding strip_claim_comments_in_line
strip_claim_comments_in_line-Settled line =
    let first = strip_claim_comments_once line in
    passes_settle (suc (length first)) first (omega arith)
