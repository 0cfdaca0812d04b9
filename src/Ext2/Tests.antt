-- ===== src/Ext2/Tests.antt =====
-- A disk image for the tests: /d is a directory, /f a file with two links, /g one with one link.
mod Paths
mod Changes
mod Copies
use operating_system_unix_li.Base.{
  ℕ, ◌≡◌, refl, Bool, true, false, Option, none, some, List, [], ◌∷◌, ◌==◌, ◌+◌, length, arith, ltb,
  if◌then◌else◌,
}
use operating_system_unix_li.Ext2.Image.{Text, Inode, Entry, Image, get_inode, ext2_dir_rec_len}
use operating_system_unix_li.Ext2.Insert.Places.{spare, slot_in}
use operating_system_unix_li.Ext2.Insert.{place}
use operating_system_unix_li.Ext2.Ls.{bytes}
use operating_system_unix_li.Ext2.Directory.Layout.{IsBlock}
use operating_system_unix_li.Ext2.Directory.Resolve.{
  IsListing, Way, arrives, misses, here, gap, down, next_blocks,
}
use operating_system_unix_li.Ext2.Directory.Place.{IsListable}

abbrev pub entry : ℕ → ℕ → ℕ → Text → Entry
entry inode rec_len file_type name = record {
  inode = inode;
  rec_len = rec_len;
  name_len = length name;
  file_type = file_type;
  name = name;
}

abbrev pub root_entries : List Entry
root_entries =
    entry 2 12 2 (bytes ".")
    ∷ entry 2 12 2 (bytes "..")
    ∷ entry 12 12 2 (bytes "d")
    ∷ entry 13 12 1 (bytes "f")
    ∷ entry 14 976 1 (bytes "g")
    ∷ []

abbrev pub d_entries : List Entry
d_entries = entry 12 12 2 (bytes ".") ∷ entry 2 1012 2 (bytes "..") ∷ []

-- The entry at an address, if the entries start at another.
abbrev entry_at : ℕ → List Entry → ℕ → Entry → Entry
entry_at start [] addr other = other
entry_at start (e ∷ es) addr other =
    let rest = entry_at (start + e.rec_len) es addr other in if addr == start then e else rest

abbrev pub inode_of : ℕ → ℕ → ℕ → ℕ → Inode
inode_of mode size links block = record {
  i_mode = mode;
  i_size = size;
  i_dtime = 0;
  i_links_count = links;
  i_blocks = 2;
  i_block = λ k. if k == 0 then block else 0;
}

abbrev inode_at : ℕ → Inode
inode_at n =
    if n == 2
    then inode_of 16384 1024 3 9
    else (if n == 12
        then inode_of 16384 1024 2 10
        else (if n == 13 then inode_of 32768 100 2 11 else inode_of 32768 100 1 12))

abbrev pub disk : Image
disk = record {
  s_free_blocks_count = 116;
  s_free_inodes_count = 18;
  bg_free_blocks_count = 116;
  bg_free_inodes_count = 18;
  inode_bitmap = λ i. ltb i 14;
  block_bitmap = λ i. ltb i 12;
  inodes = inode_at;
  entries = λ a. entry_at 9216 root_entries a (entry_at 10240 d_entries a (entry 0 0 0 []));
  strings = λ a. [];
  ints = λ a. 0;
  stdout = [];
}

pub root-IsBlock : IsBlock disk.entries 9216 1024 root_entries
root-IsBlock = (
  refl,
  omega arith,
  omega arith,
  (
    refl,
    omega arith,
    omega arith,
    (
      refl,
      omega arith,
      omega arith,
      (refl, omega arith, omega arith, (refl, omega arith, omega arith, refl)),
    ),
  ),
)

pub d-IsBlock : IsBlock disk.entries 10240 1024 d_entries
d-IsBlock = (refl, omega arith, omega arith, (refl, omega arith, omega arith, refl))

pub root-IsListing : IsListing disk 2 (root_entries ∷ [])
root-IsListing = record {
  low = omega arith;
  high = omega arith;
  size = refl;
  entries = (omega arith, root-IsBlock, tt);
}

pub d-IsListing : IsListing disk 12 (d_entries ∷ [])
d-IsListing = record {
  low = omega arith;
  high = omega arith;
  size = refl;
  entries = (omega arith, d-IsBlock, tt);
}

pub root-IsListable : IsListable disk 2 (root_entries ∷ [])
unfolding get_inode
root-IsListable = (refl, refl, (omega arith, root-IsBlock, tt))

-- The ways to /d and to /d/x.
pub d-Way : Way disk 2 (bytes "d" ∷ []) (arrives 12)
d-Way =
    down 2 (bytes "d") [] (root_entries ∷ []) 9240 (entry 12 12 2 (bytes "d")) (arrives 12)
      root-IsListing refl refl refl (here 12)

pub x-Way : Way disk 2 (bytes "d" ∷ bytes "x" ∷ []) misses
x-Way =
    down 2 (bytes "d") (bytes "x" ∷ []) (root_entries ∷ []) 9240 (entry 12 12 2 (bytes "d")) misses
      root-IsListing refl refl refl (gap 12 (bytes "x") [] (d_entries ∷ []) d-IsListing refl)

pub new_fits : spare (ext2_dir_rec_len 3) (entry 14 976 1 (bytes "g")) ≡ true
unfolding ext2_dir_rec_len
new_fits = refl

pub new_slot :
    slot_in (ext2_dir_rec_len 3) (λ k. if k == 0 then 9 else 0) 0 (root_entries ∷ [])
    ≡ place 9264 (entry 14 976 1 (bytes "g"))
unfolding ext2_dir_rec_len
new_slot = refl
