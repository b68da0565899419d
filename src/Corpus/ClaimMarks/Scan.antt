-- ===== src/Corpus/ClaimMarks/Scan.antt =====
-- The scan of a line for comments: the fuel it needs, a carriage return behind the line, and the
-- characters a pass keeps.
use hallouminate.Common.{
  ℕ, zero, suc, ◌≤◌, ◌≡◌, refl, sym, ap, ◌∙◌, Option, none, some, List, [], ◌∷◌, ◌++◌, arith,
  length,
}
use hallouminate.Text.Search.{behind_after, break_on-last}
use hallouminate.Text.{Text, break_on}
use hallouminate.Corpus.ClaimMarks.Passes.{Spells, first_comment-Spells, spell_length}
use hallouminate.Corpus.ClaimMarks.{open_mark, close_mark, Found, first_comment, comments}

-- The comments at what the search for the first one found.
abbrev pub onward : ℕ → Option Found → List Text
onward fuel none = []
onward fuel (some f) = f.inner ∷ comments fuel f.after

onward_fuel :
    (a b n : ℕ)
    → n ≤ suc a
    → n ≤ suc b
    → ((later : Text) → length later ≤ a → length later ≤ b → comments a later ≡ comments b later)
    → (line : Text) → length line ≤ n
    → (o : Option Found) → Spells line o
    → onward a o ≡ onward b o
onward_fuel a b n ha hb ih line h none e = refl
onward_fuel a b n ha hb ih line h (some f) e = ap (◌∷◌ f.inner) (
    ih f.after (omega (arith, h, ha, spell_length line f e))
      (omega (arith, h, hb, spell_length line f e)))

comments-nil : (fuel : ℕ) → comments fuel [] ≡ []
unfolding comments first_comment break_on
comments-nil zero = refl
comments-nil (suc fuel) = refl

-- A line's length is fuel enough for its comments: any fuel from there on finds the same ones.
pub comments_fuel :
    (a b : ℕ) (line : Text) → length line ≤ a → length line ≤ b → comments a line ≡ comments b line
unfolding comments
comments_fuel zero b [] ha hb = sym (comments-nil b)
comments_fuel zero b (c ∷ line) ha hb = absurd (omega (arith, ha))
comments_fuel (suc a) zero [] ha hb = comments-nil (suc a)
comments_fuel (suc a) zero (c ∷ line) ha hb = absurd (omega (arith, hb))
comments_fuel (suc a) (suc b) line ha hb =
    onward_fuel a b (length line) ha hb (comments_fuel a b) line (omega arith) (first_comment line)
      (first_comment-Spells line)

-- A carriage return behind the line is behind its last comment.
abbrev return_behind : Option Found → Option Found
return_behind none = none
return_behind (some f) = some (record f { after = f.after ++ 13 ∷ [] })

abbrev closed : Text → Option (Text × Text) → Option Found
closed before none = none
closed before (some (inner, after)) =
    some (record { before = before; inner = inner; after = after })

abbrev opened : Option (Text × Text) → Option Found
opened none = none
opened (some (before, rest)) = closed before (break_on close_mark rest)

closed-return :
    (before : Text) (r : Option (Text × Text))
    → closed before (behind_after 13 r) ≡ return_behind (closed before r)
closed-return before none = refl
closed-return before (some (inner, after)) = refl

opened-return : (r : Option (Text × Text)) → opened (behind_after 13 r) ≡ return_behind (opened r)
opened-return none = refl
opened-return (some (before, rest)) =
    ap (closed before) (break_on-last 13 close_mark rest (ground arith) (ground arith))
    ∙ closed-return before (break_on close_mark rest)

opened-eq : (line : Text) → first_comment line ≡ opened (break_on open_mark line)
unfolding first_comment
opened-eq line = ground arith

first_comment-return :
    (line : Text) → first_comment (line ++ 13 ∷ []) ≡ return_behind (first_comment line)
first_comment-return line =
    opened-eq (line ++ 13 ∷ [])
    ∙ ap opened (break_on-last 13 open_mark line (ground arith) (ground arith))
    ∙ opened-return (break_on open_mark line)
    ∙ ap return_behind (sym (opened-eq line))

onward-return :
    (fuel : ℕ)
    → ((line : Text) → comments fuel (line ++ 13 ∷ []) ≡ comments fuel line)
    → (o : Option Found) → onward fuel (return_behind o) ≡ onward fuel o
onward-return fuel ih none = refl
onward-return fuel ih (some f) = ap (◌∷◌ f.inner) (ih f.after)

-- So it changes none of them.
pub comments-return :
    (fuel : ℕ) (line : Text) → comments fuel (line ++ 13 ∷ []) ≡ comments fuel line
unfolding comments
comments-return zero line = refl
comments-return (suc fuel) line =
    ap (onward fuel) (first_comment-return line)
    ∙ onward-return fuel (comments-return fuel) (first_comment line)
