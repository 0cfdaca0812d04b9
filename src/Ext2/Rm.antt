-- ===== src/Ext2/Rm.antt =====
-- ext2_rm.c.
pub mod Outcome
pub mod Release
pub mod Last
use operating_system_unix_li.Base.{
  ℕ, zero, suc, ◌+◌, ◌-◌, ◌*◌, ◌/◌, ◌%◌, ◌^◌, Bool, true, false, not, Option, none, some, List, [],
  ◌∷◌, ◌==◌, ltb, if◌then◌else◌, length,
}
use operating_system_unix_li.Ext2.Image.{
  Text, Inode, Entry, Image, Prog, ◌>>=◌, ◌>>◌, ret, done, exit, crash, get_inode, set_inode,
  set_entry, eq_text, decrement,
}
use operating_system_unix_li.Ext2.Path.{slash, strip_slash, parent_and_name}
use operating_system_unix_li.Ext2.Directory.{
  Found, found, absent, lost, scan_dir, is_named, find_inode,
}
use operating_system_unix_li.Ext2.Alloc.{
  set_inode_bitmap_back, set_block_bitmap_back, count_inode_back, count_block_back,
}
use operating_system_unix_li.Ext2.Ls.{is_absolute}

unfoldable pub find_dir_inode : Text → Prog (Option ℕ)
find_dir_inode path = find_inode (λ name. exit 1) (ret none) path

unfoldable pub find_parent : Text → Prog (Option ℕ)
find_parent path = if eq_text path (slash ∷ []) then ret (some 2) else find_dir_inode path

-- Block `b` is given back; the bit of block 0 would have a negative index.
unfoldable pub free_block : ℕ → Prog (Unit {0})
free_block zero = crash
free_block (suc b) = set_block_bitmap_back b >> count_block_back

-- The loop over the blocks that the inode names, from `i` on.
unfoldable pub free_blocks : (ℕ → ℕ) → ℕ → ℕ → Prog (Unit {0})
free_blocks blocks zero i = done
free_blocks blocks (suc rounds) i = free_block (blocks i) >> free_blocks blocks rounds (i + 1)

-- The blocks of the indirect block: element `i` is read 32 * i bytes behind its start.
abbrev pub indirect : Image → Inode → ℕ → ℕ
indirect d inode i = d.ints (1024 * inode.i_block 12 + 32 * i)

abbrev pub at_most_12 : ℕ → ℕ
at_most_12 n = if ltb 12 n then 12 else n

unfoldable pub free_indirect : Inode → ℕ → Prog (Unit {0})
free_indirect inode n d = free_blocks (indirect d inode) n 0 d

-- The inode and its blocks are given back.
unfoldable pub release : ℕ → Inode → Prog (Unit {0})
release n inode = do
  set_inode_bitmap_back (n - 1)
  count_inode_back
  free_blocks inode.i_block (at_most_12 (inode.i_blocks / 2)) 0
  free_indirect inode (inode.i_blocks / 2 - 12)

-- One link less, and the inode goes with the last.
unfoldable pub unlink : ℕ → Prog (Unit {0})
unlink n = do
  set_inode n (λ i. record i { i_links_count = decrement 16 i.i_links_count })
  inode ← get_inode n
  if inode.i_links_count == 0 then release n inode else done

-- The entry keeps its length and loses its name.
unfoldable pub erase_entry : ℕ → Prog (Unit {0})
erase_entry addr =
    set_entry addr (λ e. record e { inode = 0; name_len = 0; file_type = 0; name = [] })

-- The loop that looks for the name, with the blocks of the inode.
abbrev pub find_entry : Inode → Text → Prog Found
find_entry inode name d = ret (scan_dir (is_named name) inode.i_block inode.i_size d.entries) d

-- The entry in the directory; a directory is refused, and the inode number -1 is taken for none.
unfoldable pub remove : ℕ → Text → Prog (Unit {0})
remove dir name = do
  inode ← get_inode dir
  place ← find_entry inode name
  elim place [
    | lost ↦ crash
    | absent k ↦ exit 2
    | found addr e ↦
        if e.file_type == 2
        then exit 21
        else (if e.inode == 2 ^ 32 - 1
            then exit 2
            else erase_entry addr >> unlink e.inode >> exit 0)
  ]

unfoldable pub rm_path : Text → Prog (Unit {0})
rm_path path = if ltb 255 (length path) then crash else elim (parent_and_name (strip_slash path)) [
  | none ↦ crash
  | some (parent_dir, name) ↦
      find_parent parent_dir >>= λ parent. elim parent [ none ↦ exit 2 | some p ↦ remove p name ]
]

unfoldable pub rm_main : Bool → List Text → Prog (Unit {0})
rm_main mapped [] = exit 1
rm_main mapped (image ∷ []) = exit 1
rm_main mapped (image ∷ path ∷ []) =
    if not (is_absolute path) then exit 1 else (if mapped then rm_path path else exit 1)
rm_main mapped (image ∷ path ∷ more ∷ args) = exit 1
