-- ===== src/Corpus/Breadcrumbs.antt =====
-- The heading breadcrumbs of crates/hallouminate-domain/src/corpus/chunker.rs. The Markdown parser is
-- an argument: the list of the headings of a text in order. Offsets count code points.
pub mod Paths
use hallouminate.Common.{ℕ, Option, none, some, List, [], ◌∷◌, ◌++◌, leb, ◌==◌, if◌then◌else◌}
use hallouminate.Text.{Text}

-- A heading event: its level (1 to 6), the start of its range, and its rendered text.
pub record HeadingEvent : Type 0 where
  pub level : ℕ
  pub start : ℕ
  pub title : Text

pub record Breadcrumb : Type 0 where
  pub byte_offset : ℕ
  pub path : List Text

-- The stack of the open headings: a slot for each level up to `MAX_HEADING_LEVEL`.
pub record HeadingStack : Type 0 where
  pub h1 : Option Text
  pub h2 : Option Text
  pub h3 : Option Text

abbrev pub empty_stack : HeadingStack
empty_stack = record { h1 = none; h2 = none; h3 = none }

unfoldable pub heading_level_idx : ℕ → Option ℕ
heading_level_idx level =
    if level == 1
    then some 0
    else if level == 2
    then some 1
    else if level == 3
    then some 2
    else none

-- Clears the slots from the heading's own on, and fills that.
unfoldable pub enter_heading : (level_idx : ℕ) → Text → HeadingStack → HeadingStack
enter_heading level_idx title s =
    if level_idx == 0
    then record { h1 = some title; h2 = none; h3 = none }
    else if level_idx == 1
    then record { h1 = s.h1; h2 = some title; h3 = none }
    else record { h1 = s.h1; h2 = s.h2; h3 = some title }

abbrev pub present : Option Text → List Text → List Text
present none rest = rest
present (some t) rest = t ∷ rest

-- `stack.iter().flatten()`
abbrev pub stack_path : HeadingStack → List Text
stack_path s = present s.h1 (present s.h2 (present s.h3 []))

-- The loop over the headings.
unfoldable pub crumbs_from : HeadingStack → List HeadingEvent → List Breadcrumb
unfolding heading_level_idx enter_heading
crumbs_from stack [] = []
crumbs_from stack (h ∷ hs) = elim (heading_level_idx h.level) [
  | none ↦ crumbs_from stack hs
  | some level_idx ↦
      record { byte_offset = h.start; path = stack_path (enter_heading level_idx h.title stack) }
      ∷ crumbs_from (enter_heading level_idx h.title stack) hs
]

unfoldable pub build_breadcrumbs : (Text → List HeadingEvent) → Text → List Breadcrumb
unfolding crumbs_from
build_breadcrumbs headings_of text =
    record { byte_offset = 0; path = [] } ∷ crumbs_from empty_stack (headings_of text)

-- The loop over the breadcrumbs, with the one that is active.
unfoldable pub active_at : ℕ → Breadcrumb → List Breadcrumb → Breadcrumb
active_at byte_offset active [] = active
active_at byte_offset active (c ∷ cs) =
    let later = active_at byte_offset c cs in
    if leb c.byte_offset byte_offset then later else active

-- `breadcrumbs[0]` panics on an empty list, which no caller passes.
unfoldable pub heading_path_at : ℕ → List Breadcrumb → Option (List Text)
unfolding active_at
heading_path_at byte_offset [] = none
heading_path_at byte_offset (c ∷ cs) = some (active_at byte_offset c cs).path
