-- ===== src/Ext2/Alloc.antt =====
-- The bitmaps of inodes and blocks, and the loops that take the first that is free.
pub mod First
pub mod Counted
use operating_system_unix_li.Base.{
  ℕ, zero, suc, ◌+◌, ◌-◌, ◌*◌, ◌/◌, Bool, true, false, not, Option, none, some, List, [], ◌∷◌, ◌&&◌,
  ltb, if◌then◌else◌, update,
}
use operating_system_unix_li.Ext2.Image.{
  Image, Prog, ◌>>=◌, ◌>>◌, ret, ok, fault, decrement, increment, inode_num, block_num,
}

-- The loop of `get_inode_bitmap` and `get_block_bitmap`: the bits from `i` on.
unfoldable pub read_bits : ℕ → ℕ → (ℕ → Bool) → List Bool
read_bits zero i bits = []
read_bits (suc rounds) i bits = bits i ∷ read_bits rounds (i + 1) bits

unfoldable pub get_inode_bitmap : Prog (List Bool)
get_inode_bitmap d = ok (read_bits inode_num 0 d.inode_bitmap) d

unfoldable pub get_block_bitmap : Prog (List Bool)
get_block_bitmap d = ok (read_bits block_num 0 d.block_bitmap) d

unfoldable pub set_inode_bitmap : ℕ → Prog (Unit {0})
set_inode_bitmap i d = ok tt (record d { inode_bitmap = update d.inode_bitmap i true })

unfoldable pub set_block_bitmap : ℕ → Prog (Unit {0})
set_block_bitmap i d = ok tt (record d { block_bitmap = update d.block_bitmap i true })

-- `*bitmap & (0 << bit_num)` is 0: the whole `int` at the byte of the bit is cleared.
unfoldable pub clear_int : (ℕ → Bool) → ℕ → ℕ → Bool
clear_int bits i j = if not (ltb j (i / 8 * 8)) && ltb j (i / 8 * 8 + 32) then false else bits j

unfoldable pub set_inode_bitmap_back : ℕ → Prog (Unit {0})
set_inode_bitmap_back i d = ok tt (record d { inode_bitmap = clear_int d.inode_bitmap i })

-- A number whose `int` is not in the block of the bitmap is a fault: it would clear other data, or an
-- address outside the image.
unfoldable pub set_block_bitmap_back : ℕ → Prog (Unit {0})
set_block_bitmap_back i d =
    if ltb (i / 8 + 3) 1024
    then ok tt (record d { block_bitmap = clear_int d.block_bitmap i })
    else fault

-- The loop that stops at the first 0.
unfoldable pub first_clear : ℕ → List Bool → Option ℕ
first_clear i [] = none
first_clear i (b ∷ bits) = let rest = first_clear (i + 1) bits in if b then rest else some i

-- One inode less is free, in the superblock (32 bits) and the group descriptor (16 bits).
unfoldable pub count_inode : Prog (Unit {0})
count_inode d = ok tt (record d {
  s_free_inodes_count = decrement 32 d.s_free_inodes_count;
  bg_free_inodes_count = decrement 16 d.bg_free_inodes_count;
})

unfoldable pub count_block : Prog (Unit {0})
count_block d = ok tt (record d {
  s_free_blocks_count = decrement 32 d.s_free_blocks_count;
  bg_free_blocks_count = decrement 16 d.bg_free_blocks_count;
})

-- And one more.
unfoldable pub count_inode_back : Prog (Unit {0})
count_inode_back d = ok tt (record d {
  s_free_inodes_count = increment 32 d.s_free_inodes_count;
  bg_free_inodes_count = increment 16 d.bg_free_inodes_count;
})

unfoldable pub count_block_back : Prog (Unit {0})
count_block_back d = ok tt (record d {
  s_free_blocks_count = increment 32 d.s_free_blocks_count;
  bg_free_blocks_count = increment 16 d.bg_free_blocks_count;
})

-- The number of the inode that is taken, if one is free; the first has number 1.
unfoldable pub take_inode : Prog (Option ℕ)
take_inode = do
  bits ← get_inode_bitmap
  elim (first_clear 0 bits) [
    | none ↦ ret none
    | some i ↦ do set_inode_bitmap i; count_inode; ret (some (i + 1))
  ]

unfoldable pub take_block : Prog (Option ℕ)
take_block = do
  bits ← get_block_bitmap
  elim (first_clear 0 bits) [
    | none ↦ ret none
    | some i ↦ do set_block_bitmap i; count_block; ret (some (i + 1))
  ]
