-- ===== src/Text/Paths.antt =====
-- Paths as their text: the parts of `std::path` that the program calls, for Unix paths.
use hallouminate.Common.{
  ℕ, Bool, true, false, ◌&&◌, Option, none, some, List, [], ◌∷◌, ◌==◌, if◌then◌else◌,
}
use hallouminate.Text.{Text, codes, equal, push_first}

unfoldable pub split_on : ℕ → Text → List Text
split_on c [] = [] ∷ []
split_on c (d ∷ s) = let rest = split_on c s in if d == c then [] ∷ rest else push_first d rest

-- The components but for a root or a leading `.`.
unfoldable pub normal_components : List Text → List Text
normal_components [] = []
normal_components (s ∷ ss) =
    let rest = normal_components ss in
    if equal s [] then rest else if equal s (codes ".") then rest else s ∷ rest

unfoldable pub first_components : List Text → List Text
unfolding normal_components
first_components [] = []
first_components (s ∷ ss) =
    if equal s (codes ".") then s ∷ normal_components ss else normal_components (s ∷ ss)

-- `Path::components`
unfoldable pub components : Text → List Text
unfolding split_on normal_components first_components equal
components [] = []
components (c ∷ s) =
    if c == b'/'
    then codes "/" ∷ normal_components (split_on b'/' s)
    else first_components (split_on b'/' (c ∷ s))

unfoldable pub begins : List Text → List Text → Bool
unfolding equal
begins p [] = true
begins [] (b ∷ bs) = false
begins (p ∷ ps) (b ∷ bs) = equal p b && begins ps bs

-- `Path::starts_with`
unfoldable pub starts_with : Text → Text → Bool
unfolding components begins
starts_with path base = begins (components path) (components base)

unfoldable pub last_of : List Text → Option Text
last_of [] = none
last_of (s ∷ []) = some s
last_of (s ∷ t ∷ ss) = last_of (t ∷ ss)

-- `Path::file_name`: the last component, where that is a name
unfoldable pub file_name : Text → Option Text
unfolding last_of components
file_name path = elim (last_of (components path)) [
  | none ↦ none
  | some s ↦
      if equal s (codes "/")
      then none
      else if equal s (codes ".")
      then none
      else if equal s (codes "..")
      then none
      else some s
]

-- The text before and behind the last occurrence of a character.
unfoldable pub split_last : ℕ → Text → Option (Text × Text)
split_last c [] = none
split_last c (d ∷ s) = elim (split_last c s) [
  | none ↦ if d == c then some ([], s) else none
  | some (before, after) ↦ some (d ∷ before, after)
]

-- `Path::extension`: a name that only starts with a dot has none
unfoldable pub extension : Text → Option Text
unfolding file_name split_last
extension path = elim (file_name path) [
  | none ↦ none
  | some name ↦ elim (split_last b'.' name) [
    | none ↦ none
    | some (before, after) ↦ if equal before [] then none else some after
  ]
]
