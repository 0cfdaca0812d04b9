-- ===== src/Ext2/Directory.antt =====
-- The walks through the entries of directories: the search for a name, find_dir_inode, and the
-- insertion of an entry.
pub mod Layout
pub mod Resolve
pub mod Kept
pub mod Place
use operating_system_unix_li.Base.{
  ℕ, zero, suc, ◌+◌, ◌-◌, ◌*◌, ◌/◌, ◌%◌, ◌^◌, Bool, true, false, not, Option, none, some, List, [],
  ◌∷◌, ◌&&◌, ◌||◌, ◌==◌, ltb, if◌then◌else◌, length, update,
}
use operating_system_unix_li.Ext2.Image.{
  Text, Inode, Entry, Image, ext2_dir_rec_len, Prog, ◌>>=◌, ◌>>◌, ret, done, exit, crash, get_inode,
  set_inode, set_i_block, set_entry, decrement, increment, eq_text, file_name, write_entry,
}
use operating_system_unix_li.Ext2.Path.{find_next_dir}

-- How a walk ends: at an entry, at the end of the directory, after as many blocks, or outside the image
-- or never.
pub data Found : Type 0 where
  found : ℕ → Entry → Found
  absent : ℕ → Found
  lost : Found

-- The loop `while (size < total_size)` over the entries of a directory, with the rounds that are
-- left. `blocks k` is the block that is read after `k` others.
unfoldable pub scan : (Entry → Bool) → (ℕ → ℕ) → (ℕ → Entry) → ℕ → ℕ → ℕ → ℕ → ℕ → Found
scan hit blocks entries total zero k addr size = if ltb size total then lost else absent k
scan hit blocks entries total (suc rounds) k addr size =
    let e : Entry = entries addr in
    let size' = size + e.rec_len in
    let over = size' % 1024 == 0 in
    let rest =
      scan hit blocks entries total rounds (if over then k + 1 else k)
        (if over then 1024 * blocks (k + 1) else addr + e.rec_len) size' in
    if ltb size total
    then (if ltb addr (2 ^ 17) then (if hit e then found addr e else rest) else lost)
    else absent k

-- From the start of the directory. Each round passes at least one byte, so `total` rounds are enough.
unfoldable pub scan_dir : (Entry → Bool) → (ℕ → ℕ) → ℕ → (ℕ → Entry) → Found
scan_dir hit blocks total entries = scan hit blocks entries total total 0 (1024 * blocks 0) 0

abbrev pub is_named : Text → Entry → Bool
is_named name e = eq_text (file_name e) name

-- EXT2_FT_REG_FILE or EXT2_FT_SYMLINK.
abbrev pub is_file : Entry → Bool
is_file e = e.file_type == 1 || e.file_type == 7

module _ (on_file : Text → Prog (Option ℕ)) (on_missing : Prog (Option ℕ)) where
  -- One round of `find_dir_inode`. The inode number -1 is taken for none. The next block of a directory is taken to be the next on the disk.
  unfoldable pub look_in : Inode → Text → Prog (Option ℕ)
  look_in inode name d =
      elim (scan_dir (is_named name) (λ k. inode.i_block 0 + k) inode.i_size d.entries) [
        | found addr e ↦
            if is_file e
            then on_file name d
            else (if e.inode == 2 ^ 32 - 1 then on_missing d else ret (some e.inode) d)
        | absent k ↦ on_missing d
        | lost ↦ crash d
      ]

  -- The loop of `find_dir_inode`, with the rounds that are left.
  unfoldable pub walk : ℕ → Text → ℕ → Prog (Option ℕ)
  walk rounds [] inode_num = ret (some inode_num)
  walk zero (c ∷ cs) inode_num = crash
  walk (suc rounds) (c ∷ cs) inode_num = elim (find_next_dir (c ∷ cs)) [
    | none ↦ crash
    | some (name, rest) ↦ get_inode inode_num >>= λ inode.
        look_in inode name >>= λ next. elim next [ none ↦ ret none | some n ↦ walk rounds rest n ]
  ]

  -- `none` is -1; 2 is EXT2_ROOT_INO. Each round passes a slash.
  unfoldable pub find_inode : Text → Prog (Option ℕ)
  find_inode path = walk (length path) path 2
