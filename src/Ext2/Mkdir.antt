-- ===== src/Ext2/Mkdir.antt =====
-- ext2_mkdir.c.
pub mod Made
pub mod Ready
use operating_system_unix_li.Base.{
  ℕ, ◌+◌, ◌-◌, ◌*◌, Bool, not, Option, none, some, List, [], ◌∷◌, ltb, if◌then◌else◌, length,
}
use operating_system_unix_li.Ext2.Image.{
  Text, ext2_dir_rec_len, Prog, ◌>>=◌, ◌>>◌, ret, done, exit, crash, get_inode, set_inode,
  set_i_block, eq_text, write_entry, increment,
}
use operating_system_unix_li.Ext2.Path.{slash, strip_slash, parent_and_name}
use operating_system_unix_li.Ext2.Directory.{find_inode}
use operating_system_unix_li.Ext2.Alloc.{take_inode, take_block}
use operating_system_unix_li.Ext2.Insert.{add_entry}
use operating_system_unix_li.Ext2.Ls.{is_absolute}

-- A file on the way ends the program with 1.
unfoldable pub find_dir_inode : Text → Prog (Option ℕ)
find_dir_inode path = find_inode (λ name. exit 1) (ret none) path

-- The inode of a parent directory: the root is not looked up.
unfoldable pub find_parent : Text → Prog (Option ℕ)
find_parent path = if eq_text path (slash ∷ []) then ret (some 2) else find_dir_inode path

-- The inode and the first block of a new directory; if no block is free, `i_block[0]` stays.
unfoldable pub init_dir_inode : ℕ → Prog (Unit {0})
init_dir_inode n = do
  set_inode n (λ i. record i {
    i_mode = 16384;
    i_size = 1024;
    i_links_count = 2;
    i_blocks = 2;
    i_dtime = 0;
  })
  block ← take_block
  elim block [ none ↦ done | some b ↦ set_i_block n 0 b ]

-- The entries `.` and `..` in it.
unfoldable pub write_dots : ℕ → ℕ → Prog (Unit {0})
write_dots n parent = do
  i ← get_inode n
  let addr = 1024 * i.i_block 0
  write_entry addr n (46 ∷ []) 2 (ext2_dir_rec_len 1)
  write_entry (addr + ext2_dir_rec_len 1) parent (46 ∷ 46 ∷ []) 2 (1024 - ext2_dir_rec_len 2)

unfoldable pub make_dir : ℕ → Text → Prog (Unit {0})
make_dir parent name = do
  fresh ← take_inode
  elim fresh [
    | none ↦ exit 1
    | some n ↦ do
      init_dir_inode n
      write_dots n parent
      add_entry none parent n name 2
      set_inode parent (λ i. record i { i_links_count = increment 16 i.i_links_count })
      exit 0
  ]

unfoldable pub mkdir_path : Text → Prog (Unit {0})
mkdir_path path =
    if ltb 255 (length path) then crash else elim (parent_and_name (strip_slash path)) [
      | none ↦ crash
      | some (parent_dir, name) ↦ find_parent parent_dir >>= λ parent. elim parent [
        | none ↦ exit 2
        | some p ↦ find_dir_inode (strip_slash path) >>= λ old. elim old [
          | none ↦ make_dir p name
          | some n ↦ exit 17
        ]
      ]
    ]

unfoldable pub mkdir_main : Bool → List Text → Prog (Unit {0})
mkdir_main mapped [] = exit 1
mkdir_main mapped (image ∷ []) = exit 1
mkdir_main mapped (image ∷ path ∷ []) =
    if not (is_absolute path) then exit 1 else (if mapped then mkdir_path path else exit 1)
mkdir_main mapped (image ∷ path ∷ more ∷ args) = exit 1
