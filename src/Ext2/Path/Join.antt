-- ===== src/Ext2/Path/Join.antt =====
-- The paths of the tools as lists of names.
use operating_system_unix_li.Base.{
  ◌≡◌, refl, sym, ap, ◌∙◌, false, none, some, List, [], ◌∷◌, ◌++◌, if◌then◌else◌, arith,
}
use mathlib.Core.List.{append-nil, append_assoc}
use operating_system_unix_li.Ext2.Image.{Text}
use operating_system_unix_li.Ext2.Path.{
  slash, next_name, find_next_dir, split_last, has_slash, parent_and_name,
}

-- Each name behind a slash.
abbrev pub join : List Text → Text
join [] = []
join (name ∷ names) = slash ∷ (name ++ join names)

abbrev pub AreNames : List Text → Type 0
AreNames [] = Unit
AreNames (name ∷ names) = (has_slash name ≡ false) × AreNames names

next_name-join :
    (name : Text) (names : List Text)
    → has_slash name ≡ false
    → next_name (name ++ join names) ≡ (name, join names)
unfolding next_name
next_name-join [] [] h = refl
next_name-join [] (m ∷ names) h = refl
next_name-join (c ∷ name) names h = ground (arith, next_name-join name names)

-- `find_next_dir` takes the first name off a path, and leaves the path of the others.
pub find_next_dir-join :
    (name : Text) (names : List Text)
    → has_slash name ≡ false
    → find_next_dir (join (name ∷ names)) ≡ some (name, join names)
unfolding find_next_dir
find_next_dir-join name names h = ap some (next_name-join name names h)

split_last_absent : (cs : Text) → has_slash cs ≡ false → split_last cs ≡ none
unfolding split_last
split_last_absent [] h = refl
split_last_absent (c ∷ cs) h = ground (arith, split_last_absent cs)

split_last_found :
    (before name : Text)
    → has_slash name ≡ false
    → split_last (before ++ slash ∷ name) ≡ some (before, name)
unfolding split_last
split_last_found [] name h = ground (arith, split_last_absent name h)
split_last_found (c ∷ before) name h = ground (arith, split_last_found before name h)

join-snoc :
    (names : List Text) (name : Text) → join (names ++ name ∷ []) ≡ join names ++ slash ∷ name
join-snoc [] name = ap (◌∷◌ slash) (append-nil name)
join-snoc (m ∷ names) name =
    ap (λ cs. slash ∷ (m ++ cs)) (join-snoc names name)
    ∙ ap (◌∷◌ slash) (sym (append_assoc m (join names) (slash ∷ name)))

-- The parent of a path: the root, or the path of the names before.
abbrev pub parent_of : List Text → Text
parent_of [] = slash ∷ []
parent_of (m ∷ names) = join (m ∷ names)

parent_and_name_at :
    (path before name : Text)
    → split_last path ≡ some (before, name)
    → parent_and_name path
      ≡ some ((if has_slash before then before else before ++ slash ∷ []), name)
unfolding parent_and_name
parent_and_name_at path before name h = simp (parent_and_name, h) refl

-- `main` splits a path into the path of the parent, where the root keeps its slash, and the last name.
pub parent_and_name-join :
    (names : List Text) (name : Text)
    → has_slash name ≡ false
    → parent_and_name (join (names ++ name ∷ [])) ≡ some (parent_of names, name)
parent_and_name-join [] name h =
    ap parent_and_name (join-snoc [] name)
    ∙ parent_and_name_at (slash ∷ name) [] name (split_last_found [] name h)
parent_and_name-join (m ∷ names) name h =
    ap parent_and_name (join-snoc (m ∷ names) name)
    ∙ parent_and_name_at (join (m ∷ names) ++ slash ∷ name) (join (m ∷ names)) name
        (split_last_found (join (m ∷ names)) name h)
