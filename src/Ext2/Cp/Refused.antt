-- ===== src/Ext2/Cp/Refused.antt =====
-- ext2_cp.c, `main`: it never copies a file.
use operating_system_unix_li.Base.{
  ==_iff, arith, ◌≡◌, ◌≢◌, refl, sym, ap, ◌∙◌, Bool, true, false, Option, none, some, List, [], ◌∷◌,
  ◌⊎◌, inl, inr, ◌==◌, get_elem?, length, Bool-cases, Option-cases,
}
use operating_system_unix_li.Ext2.Image.{Text, Image, fault, exited, eq_text}
use operating_system_unix_li.Ext2.Path.{slash}
use operating_system_unix_li.Ext2.Ls.{is_absolute}
use operating_system_unix_li.Ext2.Cp.{cp_paths, cp_main}

-- The arguments and the image with which `main` goes on to the file: argc is 4, the last argument starts
-- with '/', the one before it is not "/", and the image is mapped.
pub record IsUsable (mapped : Bool) (args : List Text) (source path : Text) : Type 0 where
  pub three : (image : Text) × (args ≡ image ∷ source ∷ path ∷ [])
  pub absolute : get_elem? path 0 ≡ some 47
  pub no_root : source ≢ 47 ∷ []
  pub there : mapped ≡ true

absolute_true : (path : Text) → is_absolute path ≡ true → get_elem? path 0 ≡ some 47
absolute_true [] e = cc e
absolute_true (c ∷ cs) e = ap some ((==_iff c 47).0 e)

absolute_false : (path : Text) → is_absolute path ≡ false → get_elem? path 0 ≢ some 47
absolute_false [] e h = cc h
absolute_false (c ∷ cs) e h = let same : c ≡ 47 = cc h in ground (arith, same)

root_true : (source : Text) → eq_text source (47 ∷ []) ≡ true → source ≡ 47 ∷ []
root_true [] e = cc e
root_true (c ∷ []) e = ap (λ k. k ∷ []) (ground arith)
root_true (c ∷ c' ∷ cs) e = ground arith

root_false : (source : Text) → eq_text source (47 ∷ []) ≡ false → source ≢ 47 ∷ []
root_false source e h = cc (sym e ∙ ap (λ t. eq_text t (47 ∷ [])) h)

-- What `main` does with the file.
abbrev pub Follows : Bool → (Text → Option Text) → List Text → Image → Text → Type 0
Follows mapped open_file args d source =
    ((open_file source ≡ none) × (cp_main mapped open_file args d ≡ exited 2 d))
    ⊎ ((file : Text) × (open_file source ≡ some file)
        × (get_elem? args 3 ≡ none)
        × (cp_main mapped open_file args d ≡ fault))

-- `main` of ext2_cp never copies a file. With four arguments in all, an absolute path, a source that is
-- not "/" and an image that is mapped, it ends with ENOENT if the source cannot be opened, and otherwise
-- reads the string at argv[4], which is NULL; in every other case it ends with 1. Where it ends it leaves
-- the image as it was.
pub cp_main_refuses :
    (mapped : Bool) (open_file : Text → Option Text) (args : List Text) (d : Image)
    → ((source : Text) × (path : Text) × IsUsable mapped args source path
        × Follows mapped open_file args d source)
      ⊎ ((¬ ((source : Text) × (path : Text) × IsUsable mapped args source path))
          × (cp_main mapped open_file args d ≡ exited 1 d))
unfolding cp_main cp_paths
cp_main_refuses mapped open_file [] d = inr (λ (source, path, u). cc u.three.1, refl)
cp_main_refuses mapped open_file (image ∷ []) d = inr (λ (source, path, u). cc u.three.1, refl)
cp_main_refuses mapped open_file (image ∷ a ∷ []) d = inr (λ (source, path, u). cc u.three.1, refl)
cp_main_refuses mapped open_file (image ∷ a ∷ b ∷ c ∷ more) d = inr (
  λ (source, path, u). cc u.three.1,
  (let more_args : (length (c ∷ more) == 0) ≡ false = ground arith in
      simp (cp_main, more_args) refl),
)
cp_main_refuses mapped open_file (image ∷ source ∷ path ∷ []) d =
    elim (Bool-cases (is_absolute path)) [
      | inr e ↦ inr (
        λ (source', path', u).
            let same : path ≡ path' = cc u.three.1 in
            absolute_false path e (ap (λ t. get_elem? t 0) same ∙ u.absolute),
        simp (cp_main, e) refl,
      )
      | inl e ↦ elim (Bool-cases (eq_text source (slash ∷ []))) [
        | inl g ↦ inr (
          λ (source', path', u).
              let same : source ≡ source' = cc u.three.1 in
              u.no_root (sym same ∙ root_true source g),
          simp (cp_main, e, g) refl,
        )
        | inr g ↦ elim (Bool-cases mapped) [
          | inr h ↦ inr (λ (source', path', u). cc (sym h ∙ u.there), simp (cp_main, e, g, h) refl)
          | inl h ↦
              let usable : IsUsable mapped (image ∷ source ∷ path ∷ []) source path = record {
                three = (image, refl);
                absolute = absolute_true path e;
                no_root = root_false source g;
                there = h;
              } in
              elim (Option-cases (open_file source)) [
                | inl k ↦ inl (source, path, usable, inl (k, simp (cp_main, e, g, h, k) refl))
                | inr (file, k) ↦ inl (
                  source,
                  path,
                  usable,
                  inr (file, k, refl, simp (cp_main, e, g, h, k, cp_paths) refl),
                )
              ]
        ]
      ]
    ]
