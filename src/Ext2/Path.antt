-- ===== src/Ext2/Path.antt =====
-- The paths of the tools: find_next_dir, and how main splits its argument.
pub mod Join
use operating_system_unix_li.Base.{
  ℕ, Bool, true, false, Option, none, some, List, [], ◌∷◌, ◌++◌, ◌==◌, ◌&&◌, ◌||◌, not,
  if◌then◌else◌,
}
use operating_system_unix_li.Ext2.Image.{Text, eq_text}

abbrev pub slash : ℕ
slash = 47

-- The loop of `find_next_dir`: the characters before the next slash, and what is left from there.
unfoldable pub next_name : Text → Text × Text
next_name [] = ([], [])
next_name (c ∷ cs) =
    let rest : Text × Text = next_name cs in
    if c == slash then ([], c ∷ cs) else (c ∷ rest.0, rest.1)

-- The name of the next directory, and the path from where the result points to; `none` is -1.
unfoldable pub find_next_dir : Text → Option (Text × Text)
unfolding next_name
find_next_dir [] = none
find_next_dir (c ∷ cs) = if c == slash then some (next_name cs) else none

-- A slash at the end is dropped, except from the root.
unfoldable pub strip_slash : Text → Text
strip_slash [] = []
strip_slash (c ∷ []) = c ∷ []
strip_slash (c ∷ d ∷ []) = if d == slash then c ∷ [] else c ∷ d ∷ []
strip_slash (c ∷ d ∷ e ∷ cs) = c ∷ strip_slash (d ∷ e ∷ cs)

-- `strrchr`: what stands before the last slash, and behind it.
unfoldable pub split_last : Text → Option (Text × Text)
split_last [] = none
split_last (c ∷ cs) = elim (split_last cs) [
  | none ↦ if c == slash then some ([], cs) else none
  | some (before, name) ↦ some (c ∷ before, name)
]

abbrev pub has_slash : Text → Bool
has_slash [] = false
has_slash (c ∷ cs) = c == slash || has_slash cs

-- The parent keeps its slash if it is the only one.
unfoldable pub parent_and_name : Text → Option (Text × Text)
unfolding split_last
parent_and_name path = elim (split_last path) [
  | none ↦ none
  | some (before, name) ↦ some ((if has_slash before then before else before ++ slash ∷ []), name)
]
