-- ===== src/Ext2/Directory/Resolve.antt =====
-- find_dir_inode against the tree of directories on the disk.
use operating_system_unix_li.Base.{
  ℕ, zero, suc, ◌+◌, ◌*◌, ◌^◌, ◌<◌, ◌≤◌, ◌-◌, ◌==◌, ◌≡◌, refl, sym, ap, ◌∙◌, true, false, Option,
  none, some, List, [], ◌∷◌, ◌++◌, lt→ltb, length, length-append, arith,
}
use operating_system_unix_li.Ext2.Image.{
  Text, Inode, Entry, Image, Out, ok, exited, Prog, ◌>>=◌, get_inode, fault, ret,
}
use operating_system_unix_li.Ext2.Path.{slash, find_next_dir}
use operating_system_unix_li.Ext2.Path.Join.{join, AreNames, find_next_dir-join}
use operating_system_unix_li.Ext2.Directory.{scan_dir, is_named, is_file, look_in, walk, find_inode}
use operating_system_unix_li.Ext2.Directory.Layout.{IsDir, locate_in, outcome, scan_dir-locate_in}

-- The blocks of a directory as `find_dir_inode` takes them: next to each other.
abbrev pub next_blocks : Inode → ℕ → ℕ
next_blocks inode k = inode.i_block 0 + k

-- Inode `n` is a directory whose blocks hold the entries.
pub record IsListing (d : Image) (n : ℕ) (ess : List (List Entry)) : Type 0 where
  pub low : 0 < n
  pub high : n < 33
  pub size : (d.inodes n).i_size ≡ 1024 * length ess
  pub entries : IsDir d.entries (next_blocks (d.inodes n)) 0 ess

-- How the way down a path ends: at an inode, where a name is missing, or at a file.
pub data End : Type 0 where
  arrives : ℕ → End
  misses : End
  blocked : Text → End

-- The way down from an inode by the names of a path.
pub data Way (d : Image) : ℕ → List Text → End → Type 0 where
  here : (n : ℕ) → Way d n [] (arrives n)
  gap :
      (n : ℕ) (name : Text) (names : List Text) (ess : List (List Entry))
      → IsListing d n ess
      → locate_in (is_named name) (next_blocks (d.inodes n)) 0 ess ≡ none
      → Way d n (name ∷ names) misses
  file :
      (n : ℕ) (name : Text) (names : List Text) (ess : List (List Entry)) (addr : ℕ) (e : Entry)
      → IsListing d n ess
      → locate_in (is_named name) (next_blocks (d.inodes n)) 0 ess ≡ some (addr, e)
      → is_file e ≡ true
      → Way d n (name ∷ names) (blocked name)
  down :
      (n : ℕ) (name : Text) (names : List Text) (ess : List (List Entry)) (addr : ℕ) (e : Entry)
      (end : End)
      → IsListing d n ess
      → locate_in (is_named name) (next_blocks (d.inodes n)) 0 ess ≡ some (addr, e)
      → is_file e ≡ false
      → (e.inode == 2 ^ 32 - 1) ≡ false
      → Way d e.inode names end
      → Way d n (name ∷ names) end

module _ (on_file : Text → Prog (Option ℕ)) (on_missing : Prog (Option ℕ)) (d : Image) where
  abbrev pub conclude : End → Out (Option ℕ)
  conclude (arrives n) = ok (some n) d
  conclude misses = on_missing d
  conclude (blocked name) = on_file name d

  module _ (n : ℕ) (name : Text) (ess : List (List Entry)) (is : IsListing d n ess) where
    looked :
        scan_dir (is_named name) (next_blocks (d.inodes n)) (d.inodes n).i_size d.entries
        ≡ outcome (length ess) (locate_in (is_named name) (next_blocks (d.inodes n)) 0 ess)
    looked =
        ap (λ s. scan_dir (is_named name) (next_blocks (d.inodes n)) s d.entries) is.size
        ∙ scan_dir-locate_in (is_named name) (next_blocks (d.inodes n)) d.entries ess is.entries

    got : get_inode n d ≡ ok (d.inodes n) d
    unfolding get_inode
    got = simp (lt→ltb 0 n is.low, lt→ltb n 33 is.high) refl

    look_in_missing :
        locate_in (is_named name) (next_blocks (d.inodes n)) 0 ess ≡ none
        → look_in on_file on_missing (d.inodes n) name d ≡ on_missing d
    unfolding look_in
    look_in_missing h = simp (look_in, looked, h) refl

    look_in_file :
        (addr : ℕ) (e : Entry)
        → locate_in (is_named name) (next_blocks (d.inodes n)) 0 ess ≡ some (addr, e)
        → is_file e ≡ true
        → look_in on_file on_missing (d.inodes n) name d ≡ on_file name d
    unfolding look_in
    look_in_file addr e h f = simp (look_in, looked, h, f) refl

    look_in_dir :
        (addr : ℕ) (e : Entry)
        → locate_in (is_named name) (next_blocks (d.inodes n)) 0 ess ≡ some (addr, e)
        → is_file e ≡ false
        → (e.inode == 2 ^ 32 - 1) ≡ false
        → look_in on_file on_missing (d.inodes n) name d ≡ ok (some e.inode) d
    unfolding look_in
    look_in_dir addr e h f g = simp (look_in, looked, h, f, g) refl

-- Enough rounds for a path: one for each name.
length-join : (names : List Text) → length names ≤ length (join names)
length-join [] = omega arith
length-join (name ∷ names) = omega (arith, length-append name (join names), length-join names)

module _ (on_file : Text → Prog (Option ℕ)) (on_missing : Prog (Option ℕ)) (d : Image)
    (stops : (name : Text) → (s : ℕ) × (d' : Image) × (on_file name d ≡ exited s d'))
    (d_missing : Image) (says : on_missing d ≡ ok none d_missing) where
  -- What is left of a round once the name is looked up.
  abbrev go_on : ℕ → Text → Out (Option ℕ) → Out (Option ℕ)
  go_on rounds rest (ok none d') = ok none d'
  go_on rounds rest (ok (some m) d') = walk on_file on_missing rounds rest m d'
  go_on rounds rest (exited s d') = exited s d'
  go_on rounds rest fault = fault

  walk_step :
      (rounds n c : ℕ) (cs name rest : Text) (next : Out (Option ℕ))
      → find_next_dir (c ∷ cs) ≡ some (name, rest)
      → get_inode n d ≡ ok (d.inodes n) d
      → look_in on_file on_missing (d.inodes n) name d ≡ next
      → walk on_file on_missing (suc rounds) (c ∷ cs) n d ≡ go_on rounds rest next
  unfolding walk
  walk_step rounds n c cs name rest (ok none d') splits gets looks =
      simp (walk, splits, ◌>>=◌, gets, looks, ret) refl
  walk_step rounds n c cs name rest (ok (some m) d') splits gets looks =
      simp (walk, splits, ◌>>=◌, gets, looks, ret) refl
  walk_step rounds n c cs name rest (exited s d') splits gets looks =
      simp (walk, splits, ◌>>=◌, gets, looks, ret) refl
  walk_step rounds n c cs name rest fault splits gets looks =
      simp (walk, splits, ◌>>=◌, gets, looks, ret) refl

  walk-conclude :
      (rounds n : ℕ) (names : List Text) (end : End)
      → length names ≤ rounds
      → AreNames names
      → Way d n names end
      → walk on_file on_missing rounds (join names) n d ≡ conclude on_file on_missing d end
  unfolding walk
  walk-conclude rounds n names end enough are (here _) = refl
  walk-conclude zero n names end enough are (gap _ name rest ess is h) = absurd (omega arith)
  walk-conclude (suc rounds) n names end enough are (gap _ name rest ess is h) =
      walk_step rounds n slash (name ++ join rest) name (join rest) (ok none d_missing)
        (find_next_dir-join name rest are.0) (got on_file on_missing d n name ess is)
        (look_in_missing on_file on_missing d n name ess is h ∙ says)
      ∙ sym says
  walk-conclude zero n names end enough are (file _ name rest ess addr e is h f) =
      absurd (omega arith)
  walk-conclude (suc rounds) n names end enough are (file _ name rest ess addr e is h f) =
      let (s, d', out) = stops name in
      walk_step rounds n slash (name ++ join rest) name (join rest) (exited s d')
        (find_next_dir-join name rest are.0) (got on_file on_missing d n name ess is)
        (look_in_file on_file on_missing d n name ess is addr e h f ∙ out)
      ∙ sym out
  walk-conclude zero n names end enough are (down _ name rest ess addr e _ is h f g way) =
      absurd (omega arith)
  walk-conclude (suc rounds) n names end enough are (down _ name rest ess addr e _ is h f g way) =
      walk_step rounds n slash (name ++ join rest) name (join rest) (ok (some e.inode) d)
        (find_next_dir-join name rest are.0) (got on_file on_missing d n name ess is)
        (look_in_dir on_file on_missing d n name ess is addr e h f g)
      ∙ walk-conclude rounds e.inode rest end (omega arith) are.1 way

  pub find_inode-conclude :
      (names : List Text) (end : End)
      → AreNames names
      → Way d 2 names end
      → find_inode on_file on_missing (join names) d ≡ conclude on_file on_missing d end
  unfolding find_inode
  find_inode-conclude names end are way =
      walk-conclude (length (join names)) 2 names end (length-join names) are way
