-- ===== src/Ext2/Cp.antt =====
-- ext2_cp.c. Its usage message holds unresolved merge markers and `sb` is a sum of two pointers; `sb` is
-- taken to be disk + 1024 here, as in the other tools.
pub mod Blocks
pub mod Content
pub mod Refused
use operating_system_unix_li.Base.{
  ℕ, zero, suc, ◌+◌, ◌-◌, ◌*◌, ◌/◌, ◌%◌, ◌^◌, Bool, true, false, not, Option, none, some, List, [],
  ◌∷◌, ◌||◌, ◌==◌, ltb, if◌then◌else◌, length, get_elem?, update,
}
use operating_system_unix_li.Ext2.Image.{
  Text, Inode, Entry, Image, Prog, ok, ◌>>=◌, ◌>>◌, ret, done, exit, crash, get_inode, set_inode,
  set_i_block, eq_text, take_bytes,
}
use operating_system_unix_li.Ext2.Path.{slash, strip_slash, split_last}
use operating_system_unix_li.Ext2.Directory.{
  Found, found, absent, lost, scan_dir, is_named, find_inode,
}
use operating_system_unix_li.Ext2.Alloc.{
  get_block_bitmap, set_block_bitmap, count_block, take_inode, take_block,
}
use operating_system_unix_li.Ext2.Insert.{add_entry}
use operating_system_unix_li.Ext2.Ls.{is_absolute}
use operating_system_unix_li.Ext2.Ln.{store_string}

unfoldable pub find_dir_inode : Text → Prog (Option ℕ)
find_dir_inode path = find_inode (λ name. exit 1) (ret none) path

-- The number of blocks that a file of this size needs.
unfoldable pub blocks_of : ℕ → ℕ
blocks_of file_size = if file_size % 1024 == 0 then file_size / 1024 else file_size / 1024 + 1

-- The slash at the end is dropped; an empty name has no last character.
unfoldable pub strip_last : Text → Option Text
strip_last [] = none
strip_last (c ∷ []) = some (if c == slash then [] else c ∷ [])
strip_last (c ∷ d ∷ cs) = elim (strip_last (d ∷ cs)) [ none ↦ none | some rest ↦ some (c ∷ rest) ]

-- What stands behind the last slash.
unfoldable pub base_name : Text → Text
base_name path = elim (split_last path) [ none ↦ path | some (before, name) ↦ name ]

-- The directory of the copy; there may be no entry of the name. The result is the block that was last
-- looked up.
unfoldable pub check_name : ℕ → Text → Prog ℕ
check_name dir_inode name = do
  inode ← get_inode dir_inode
  place ← (λ d. ret (scan_dir (is_named name) inode.i_block inode.i_size d.entries) d)
  elim place [ lost ↦ crash | absent k ↦ ret (inode.i_block k) | found addr e ↦ exit 1 ]

-- The first loop that takes blocks: the bits of the bitmap from `i` on, as they were before it. It stops
-- at 12 blocks.
unfoldable pub take_direct : ℕ → ℕ → ℕ → List Bool → Prog (Unit {0})
take_direct n j i [] = done
take_direct n j i (b ∷ bits) = if b then take_direct n j (i + 1) bits else (do
  set_i_block n j (i + 1)
  set_block_bitmap i
  count_block
  if j + 1 == 12 then done else take_direct n (j + 1) (i + 1) bits)

unfoldable pub store_int : ℕ → ℕ → Prog (Unit {0})
store_int addr v d =
    if ltb addr (2 ^ 17) then ok tt (record d { ints = update d.ints addr v }) else crash d

-- The last loop that takes blocks. The number of block `i` goes 32 * i bytes behind the start of the
-- indirect block; the loop stops when `j` is file_blocks - 12. The numbers are kept apart from all else,
-- so that what they overwrite in a block of other use is not seen: an indirect block among the first
-- blocks of the image, as i_block[12] = 0 names it, is not described.
unfoldable pub take_pointed : ℕ → ℕ → ℕ → ℕ → List Bool → Prog (Unit {0})
take_pointed indirect_block file_blocks j i [] = done
take_pointed indirect_block file_blocks j i (b ∷ bits) =
    if b then take_pointed indirect_block file_blocks j (i + 1) bits else (do
      store_int (indirect_block + 32 * i) (i + 1)
      set_block_bitmap i
      count_block
      if j + 1 + 12 == file_blocks
          then done
          else take_pointed indirect_block file_blocks (j + 1) (i + 1) bits)

-- The blocks of the file with inode `n`; more than 12 want an indirect block.
unfoldable pub assign_blocks : ℕ → ℕ → Prog (Unit {0})
assign_blocks n file_blocks = do
  bits ← get_block_bitmap
  take_direct n 0 0 bits
  if ltb 12 file_blocks
      then (do fresh ← take_block; elim fresh [ none ↦ done | some b ↦ set_i_block n 12 b ])
      else done
  i ← get_inode n
  bits' ← get_block_bitmap
  take_pointed (1024 * i.i_block 12) file_blocks 0 0 bits'

abbrev pub drop_bytes : ℕ → Text → Text
drop_bytes zero cs = cs
drop_bytes (suc n) [] = []
drop_bytes (suc n) (c ∷ cs) = drop_bytes n cs

-- `memcpy` to a block, which does nothing without bytes; they are kept as a string at its address.
abbrev pub copy_to : ℕ → Text → Prog (Unit {0})
copy_to block_num [] = done
copy_to block_num (c ∷ cs) = store_string (1024 * block_num) (c ∷ cs)

-- The copies to the first blocks, with the rounds that are left; the result is what is left of the file.
unfoldable pub copy_direct : ℕ → ℕ → ℕ → Text → Prog Text
copy_direct n i zero file = ret file
copy_direct n i (suc rounds) file = do
  inode ← get_inode n
  if ltb (length file) 1024 then (do copy_to (inode.i_block i) file; ret []) else (do
    copy_to (inode.i_block i) (take_bytes 1024 file)
    copy_direct n (i + 1) rounds (drop_bytes 1024 file))

-- The copies to the blocks of the indirect block, in which the numbers are read one behind the other.
unfoldable pub copy_pointed : ℕ → ℕ → ℕ → Text → Prog (Unit {0})
copy_pointed indirect_block i zero file = done
copy_pointed indirect_block i (suc rounds) file = do
  block_num ← (λ d. ret (d.ints (indirect_block + 4 * i)) d)
  if ltb (length file) 1024 then copy_to block_num file else (do
    copy_to (block_num + 1) (take_bytes 1024 file)
    copy_pointed indirect_block (i + 1) rounds (drop_bytes 1024 file))

unfoldable pub copy_file : ℕ → ℕ → Text → Prog (Unit {0})
copy_file n file_blocks file = do
  i ← get_inode n
  rest ← copy_direct n 0 12 file
  if ltb 12 file_blocks then copy_pointed (1024 * i.i_block 12) 0 (file_blocks - 12) rest else done

-- The copy in the directory, once the name and the directory are known.
unfoldable pub copy : ℕ → Text → Text → Prog (Unit {0})
copy dir_inode name file = do
  stale ← check_name dir_inode name
  fresh ← take_inode
  elim fresh [
    | none ↦ exit 1
    | some n ↦ do
      set_inode n (λ i. record i {
        i_mode = 32768;
        i_size = length file;
        i_links_count = 1;
        i_blocks = blocks_of (length file) * 2;
        i_dtime = 0;
      })
      add_entry (some stale) dir_inode n name 1
      assign_blocks n (blocks_of (length file))
      copy_file n (blocks_of (length file)) file
      exit 0
  ]

unfoldable pub find_parent : Text → Prog (Option ℕ)
find_parent pathName =
    if eq_text pathName (slash ∷ []) then ret (some 2) else find_dir_inode (strip_slash pathName)

-- `fileName` is argv[4] and `pathName` argv[3]; the buffers have 256 bytes.
unfoldable pub cp_paths : Option Text → Text → Text → Prog (Unit {0})
cp_paths none pathName file = crash
cp_paths (some fileName) pathName file =
    if ltb 255 (length fileName) then crash else elim (strip_last fileName) [
      | none ↦ crash
      | some name ↦
          if ltb 255 (length pathName)
          then crash
          else find_parent pathName >>= λ parent. elim parent [
            | none ↦ exit 2
            | some dir_inode ↦ copy dir_inode (base_name name) file
          ]
    ]

-- The arguments are those behind the name of the program; `mapped` says whether open and mmap of the
-- image succeed, and `open_file` gives the bytes of a file that can be opened.
unfoldable pub cp_main : Bool → (Text → Option Text) → List Text → Prog (Unit {0})
cp_main mapped open_file (image ∷ source ∷ path ∷ more) =
    if not (length more == 0) || not (is_absolute path)
    then exit 1
    else (if eq_text source (slash ∷ [])
        then exit 1
        else (if not mapped then exit 1 else elim (open_file source) [
          | none ↦ exit 2
          | some file ↦ cp_paths (get_elem? (image ∷ source ∷ path ∷ more) 3) path file
        ]))
cp_main mapped open_file args = exit 1
