-- ===== src/Ext2/Tests/Copies.antt =====
-- The properties of ext2_cp on the test image.
use operating_system_unix_li.Base.{
  ℕ, ◌+◌, ◌<◌, ◌≡◌, true, some, List, [], ◌∷◌, ◌⊎◌, arith, length, update,
}
use operating_system_unix_li.Ext2.Image.{Text, Image, ok, exited}
use operating_system_unix_li.Ext2.Cp.{blocks_of, assign_blocks, copy_file, cp_main}
use operating_system_unix_li.Ext2.Cp.Blocks.{assign_blocks_takes_all}
use operating_system_unix_li.Ext2.Cp.Content.{stored, copy_file-stored}
use operating_system_unix_li.Ext2.Cp.Refused.{IsUsable, Follows, cp_main_refuses}
use operating_system_unix_li.Ext2.Tests.{disk}

-- The arguments "disk", "a", "/".
abbrev args : List Text
args = (100 ∷ 105 ∷ 115 ∷ 107 ∷ []) ∷ (97 ∷ []) ∷ (47 ∷ []) ∷ []

abbrev file : Text
file = 104 ∷ 105 ∷ 10 ∷ []

cp_main_refuses_example :
    ((source : Text) × (path : Text) × IsUsable true args source path
      × Follows true (λ name. some file) args disk source)
    ⊎ ((¬ ((source : Text) × (path : Text) × IsUsable true args source path))
        × (cp_main true (λ name. some file) args disk ≡ exited 1 disk))
cp_main_refuses_example = cp_main_refuses true (λ name. some file) args disk

-- Inode 12 of the image has blocks 40, 41, and so on.
abbrev ready : Image
ready = record disk {
  inodes = update disk.inodes 12 (record (disk.inodes 12) { i_block = λ k. 40 + k });
}

takes_all_example :
    (d' : Image) × (assign_blocks 12 1 ready ≡ ok tt d')
    × ((k : ℕ) → k < 128 → d'.block_bitmap k ≡ true)
unfolding update
takes_all_example =
    assign_blocks_takes_all 12 1 ready (omega arith) (omega arith) (omega arith) (omega arith)
      (omega arith)

copy_file_example :
    (strings : ℕ → Text) × (copy_file 12 (blocks_of (length file)) file ready
      ≡ ok tt (record ready { strings = strings }))
    × (stored strings (ready.inodes 12).i_block (blocks_of (length file)) 0 ≡ file)
unfolding update blocks_of
copy_file_example =
    copy_file-stored 12 file ready (omega arith) (omega arith) (omega arith) (record {
      inside = λ a low high. omega (arith, high);
      apart = λ a b low lt high same. omega (arith, lt, same);
    })
