-- ===== src/Corpus/ClaimMarks/Kept.antt =====
-- One line: a pass keeps characters of the line, so it puts no line break there.
use hallouminate.Common.{
  ℕ, zero, suc, Option, none, some, [], ◌∷◌, ◌++◌, arith, length, All-append, ◌==◌, if◌then◌else◌,
  Bool, true, false,
}
use hallouminate.Text.Segments.{OneLine}
use hallouminate.Text.{Text, byte_len}
use hallouminate.Corpus.ClaimMarks.Passes.{Spells, first_comment-Spells}
use hallouminate.Corpus.ClaimMarks.{
  Comment, not_claim, malformed, mark, classify, open_mark, close_mark, Found, first_comment, keep,
  strip_once, strip_claim_comments_once, strip_passes, strip_claim_comments_in_line,
}

-- A pass keeps characters of the line and adds none.
All-parts : (xs ys : Text) → OneLine (xs ++ ys) → OneLine xs × OneLine ys
All-parts [] ys h = (tt, h)
All-parts (x ∷ xs) ys h = let (a, b) = All-parts xs ys h.1 in ((h.0, a), b)

found_parts :
    (line : Text) (f : Found)
    → OneLine line
    → Spells line (some f)
    → OneLine f.before × (OneLine f.inner × OneLine f.after)
found_parts line f h e =
    let whole : OneLine (f.before ++ (open_mark ++ (f.inner ++ (close_mark ++ f.after)))) =
      rw (← e) h in
    let outer = All-parts f.before (open_mark ++ (f.inner ++ (close_mark ++ f.after))) whole in
    let behind = (All-parts open_mark (f.inner ++ (close_mark ++ f.after)) outer.1).1 in
    let inside = All-parts f.inner (close_mark ++ f.after) behind in
    (outer.0, (inside.0, (All-parts close_mark f.after inside.1).1))

keep-OneLine : (f : Found) (c : Comment) → OneLine f.before → OneLine f.inner → OneLine (keep f c)
keep-OneLine f not_claim b i = All-append _ f.before (open_mark ++ (f.inner ++ close_mark)) b (
    All-append _ open_mark (f.inner ++ close_mark) (ground arith)
      (All-append _ f.inner close_mark i (ground arith)))
keep-OneLine f malformed b i = b
keep-OneLine f (mark s r n) b i = b

once_step :
    (fuel : ℕ)
    → ((later : Text) → OneLine later → OneLine (strip_once fuel later))
    → (line : Text) (o : Option Found) → OneLine line
    → Spells line o
    → OneLine
        (elim o [ none ↦ line | some f ↦ keep f (classify f.inner) ++ strip_once fuel f.after ])
once_step fuel ih line none h e = h
once_step fuel ih line (some f) h e =
    let (b, (i, a)) = found_parts line f h e in
    All-append _ (keep f (classify f.inner)) (strip_once fuel f.after)
      (keep-OneLine f (classify f.inner) b i) (ih f.after a)

pub strip_once-OneLine : (fuel : ℕ) (line : Text) → OneLine line → OneLine (strip_once fuel line)
unfolding strip_once
strip_once-OneLine zero line h = h
strip_once-OneLine (suc fuel) line h =
    once_step fuel (strip_once-OneLine fuel) line (first_comment line) h (first_comment-Spells line)

if_all : (same : Bool) (s t : Text) → OneLine s → OneLine t → OneLine (if same then s else t)
if_all true s t h k = h
if_all false s t h k = k

passes-OneLine : (fuel : ℕ) (line : Text) → OneLine line → OneLine (strip_passes fuel line)
unfolding strip_passes strip_claim_comments_once
passes-OneLine zero line h = h
passes-OneLine (suc fuel) line h =
    let next = strip_claim_comments_once line in
    let once = strip_once-OneLine (length line) line h in
    if_all (byte_len next == byte_len line) next (strip_passes fuel next) once
      (passes-OneLine fuel next once)

pub in_line-OneLine : (line : Text) → OneLine line → OneLine (strip_claim_comments_in_line line)
unfolding strip_claim_comments_in_line strip_claim_comments_once
in_line-OneLine line h =
    passes-OneLine (suc (length (strip_claim_comments_once line))) (strip_claim_comments_once line)
      (strip_once-OneLine (length line) line h)
