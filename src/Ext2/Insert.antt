-- ===== src/Ext2/Insert.antt =====
-- The insertion of an entry into a directory, as mkdir and ln do it.
pub mod Places
pub mod Grown
pub mod Blocks
pub mod Slots
pub mod Found
use operating_system_unix_li.Base.{
  ℕ, zero, suc, ◌+◌, ◌-◌, ◌*◌, ◌/◌, ◌%◌, ◌^◌, Bool, true, false, not, Option, none, some, ◌&&◌,
  ◌==◌, ltb, if◌then◌else◌, length,
}
use operating_system_unix_li.Ext2.Image.{
  Text, Inode, Entry, Image, ext2_dir_rec_len, Prog, ◌>>=◌, ◌>>◌, ret, done, exit, crash, get_inode,
  set_inode, set_i_block, set_entry, write_entry,
}
use operating_system_unix_li.Ext2.Alloc.{take_block}

-- How the search for space ends: at the last entry of a block, without a place, or outside the image
-- or never.
pub data Slot : Type 0 where
  place : ℕ → Entry → Slot
  no_place : Slot
  off : Slot

-- The last entry of a block has room behind it for an entry of `need` bytes.
abbrev pub has_room : ℕ → Entry → ℕ → Bool
has_room need e size = size % 1024 == 0 && not (ltb e.rec_len (need + ext2_dir_rec_len e.name_len))

-- The loop over the entries of one block, with the rounds that are left.
unfoldable pub find_place : ℕ → (ℕ → Entry) → ℕ → ℕ → ℕ → Slot
find_place need entries zero addr size = if ltb size 1024 then off else no_place
find_place need entries (suc rounds) addr size =
    let e : Entry = entries addr in
    let rest = find_place need entries rounds (addr + e.rec_len) (size + e.rec_len) in
    if ltb size 1024
    then (if ltb addr (2 ^ 17)
        then (if has_room need e (size + e.rec_len) then place addr e else rest)
        else off)
    else no_place

-- The loop over the blocks of the directory, from block `i` on.
unfoldable pub find_place_in : ℕ → (ℕ → Entry) → (ℕ → ℕ) → ℕ → ℕ → Slot
find_place_in need entries blocks zero i = no_place
find_place_in need entries blocks (suc rounds) i =
    let rest = find_place_in need entries blocks rounds (i + 1) in
    elim (find_place need entries 1024 (1024 * blocks i) 0) [
      | place addr e ↦ place addr e
      | no_place ↦ rest
      | off ↦ off
    ]

abbrev pub find_place_of : ℕ → Inode → ℕ → Prog Slot
find_place_of need i n d = ret (find_place_in need d.entries i.i_block n 0) d

-- The entry that was last gives up the space behind its name.
unfoldable pub append_entry : ℕ → Entry → ℕ → Text → ℕ → Prog (Unit {0})
append_entry addr e inode name file_type = do
  set_entry addr (λ e. record e { rec_len = ext2_dir_rec_len e.name_len })
  write_entry (addr + ext2_dir_rec_len e.name_len) inode name file_type
      (e.rec_len - ext2_dir_rec_len e.name_len)

-- A new block of the directory holds the entry. If no block is free then the variable for it keeps the
-- value `stale`, which is `none` if it has none.
unfoldable pub extend_dir : Option ℕ → ℕ → ℕ → ℕ → Text → ℕ → Prog (Unit {0})
extend_dir stale parent n inode name file_type = do
  fresh ← take_block
  elim fresh [ none ↦ done | some b ↦ set_i_block parent n b ]
  i ← get_inode parent
  let block : Option ℕ = elim fresh [ none ↦ stale | some b ↦ some b ]
  if i.i_block n == 2 ^ 32 - 1 then exit 1 else elim block [
    | none ↦ crash
    | some b ↦ do
      write_entry (1024 * b) inode name file_type 1024
      set_inode parent (λ i. record i {
        i_blocks = (i.i_blocks + 2) % 2 ^ 32;
        i_size = (i.i_size + 1024) % 2 ^ 32;
      })
  ]

unfoldable pub add_entry : Option ℕ → ℕ → ℕ → Text → ℕ → Prog (Unit {0})
add_entry stale parent inode name file_type = do
  i ← get_inode parent
  let n = i.i_size / 1024
  slot ← find_place_of (ext2_dir_rec_len (length name)) i n
  elim slot [
    | place addr e ↦ append_entry addr e inode name file_type
    | no_place ↦ extend_dir stale parent n inode name file_type
    | off ↦ crash
  ]
