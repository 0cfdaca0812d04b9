-- ===== src/Ext2/Directory/Place.antt =====
-- The search for a name in a directory whose blocks are read from i_block.
use operating_system_unix_li.Base.{
  ℕ, suc, ◌+◌, ◌-◌, ◌*◌, ◌^◌, ◌<◌, ◌≤◌, ◌≡◌, ◌∙◌, refl, ap, sym, Bool, true, Option, none, some,
  inl, inr, List, [], ◌∷◌, length, arith, Bool-cases, Option-cases,
}
use operating_system_unix_li.Ext2.Image.{Text, Entry, Image, ok, get_inode}
use operating_system_unix_li.Ext2.Directory.{scan_dir, is_named}
use operating_system_unix_li.Ext2.Directory.Layout.{
  IsBlock, IsDir, locate, locate_hit, locate_miss, locate_in, outcome, scan_dir-locate_in,
}

-- A directory that is on the disk, its blocks named by i_block.
abbrev pub IsListable : Image → ℕ → List (List Entry) → Type 0
IsListable d n ess =
    (get_inode n d ≡ ok (d.inodes n) d)
    × ((d.inodes n).i_size ≡ 1024 * length ess)
    × IsDir d.entries (d.inodes n).i_block 0 ess

-- Where the name stands in the directory, if it does.
abbrev pub place_of : Image → ℕ → List (List Entry) → Text → Option (ℕ × Entry)
place_of d n ess name = locate_in (is_named name) (d.inodes n).i_block 0 ess

pub scan-place :
    (d : Image) (n : ℕ) (ess : List (List Entry)) (name : Text)
    → IsListable d n ess
    → scan_dir (is_named name) (d.inodes n).i_block (d.inodes n).i_size d.entries
      ≡ outcome (length ess) (place_of d n ess name)
scan-place d n ess name (got, size, dir) =
    ap (λ s. scan_dir (is_named name) (d.inodes n).i_block s d.entries) size
    ∙ scan_dir-locate_in (is_named name) (d.inodes n).i_block d.entries ess dir

-- An entry on the disk that is as wanted.
abbrev pub IsAt : (Entry → Bool) → (ℕ → Entry) → ℕ → Entry → Type 0
IsAt hit entries addr e = (addr < 2 ^ 17) × (entries addr ≡ e) × (hit e ≡ true)

pub same_place :
    (a b : ℕ) (x y : Entry)
    → Path (Option (ℕ × Entry)) (some (a, x)) (some (b, y))
    → (a ≡ b) × (x ≡ y)
same_place a b x y h =
    let or_a : Option (ℕ × Entry) → ℕ × Entry = λ o. elim o [ none ↦ (a, x) | some p ↦ p ] in
    (ap (λ o. (or_a o).0) h, ap (λ o. (or_a o).1) h)

module _ (hit : Entry → Bool) where
  pub locate_in_later :
      (es : List Entry) (ess : List (List Entry)) (blocks : ℕ → ℕ) (k : ℕ)
      → locate hit (1024 * blocks k) es ≡ none
      → locate_in hit blocks k (es ∷ ess) ≡ locate_in hit blocks (suc k) ess
  locate_in_later es ess blocks k h = rw (locate_in, h) refl

  pub locate_in_here :
      (es : List Entry) (ess : List (List Entry)) (blocks : ℕ → ℕ) (k : ℕ) (p : ℕ × Entry)
      → locate hit (1024 * blocks k) es ≡ some p
      → locate_in hit blocks k (es ∷ ess) ≡ some p
  locate_in_here es ess blocks k p h = rw (locate_in, h) refl

module _ (hit : Entry → Bool) (entries : ℕ → Entry) where
  locate-IsAt :
      (es : List Entry) (start left addr : ℕ) (e : Entry)
      → IsBlock entries start left es
      → start + left ≤ 2 ^ 17
      → locate hit start es ≡ some (addr, e)
      → IsAt hit entries addr e
  locate-IsAt [] start left addr e b inside h = cc
  locate-IsAt (x ∷ es) start left addr e (there, long, fits, b) inside h =
      elim (Bool-cases (hit x)) [
        | inl hits ↦
            let same = sym (locate_hit hit start x es hits) ∙ h in
            let (at, is) = same_place start addr x e same in
            (omega arith, ap entries (sym at) ∙ there ∙ is, ap hit (sym is) ∙ hits)
        | inr misses ↦
            locate-IsAt es (start + x.rec_len) (left - x.rec_len) addr e b (omega arith)
              (sym (locate_miss hit start x es misses) ∙ h)
      ]

  pub locate_in-IsAt :
      (ess : List (List Entry)) (blocks : ℕ → ℕ) (k addr : ℕ) (e : Entry)
      → IsDir entries blocks k ess
      → locate_in hit blocks k ess ≡ some (addr, e)
      → IsAt hit entries addr e
  locate_in-IsAt [] blocks k addr e dir h = cc
  locate_in-IsAt (es ∷ ess) blocks k addr e (on_disk, b, bs) h =
      elim (Option-cases (locate hit (1024 * blocks k) es)) [
        | inl none' ↦
            locate_in-IsAt ess blocks (suc k) addr e bs
              (sym (locate_in_later hit es ess blocks k none') ∙ h)
        | inr (p, some') ↦
            locate-IsAt es (1024 * blocks k) 1024 addr e b (omega arith)
              (some' ∙ (sym (locate_in_here hit es ess blocks k p some') ∙ h))
      ]
