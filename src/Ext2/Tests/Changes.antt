-- ===== src/Ext2/Tests/Changes.antt =====
-- The properties of what the tools change, on the test image.
use operating_system_unix_li.Base.{
  List, ℕ, ◌≡◌, ◌⊎◌, refl, true, false, none, some, [], ◌∷◌, ◌+◌, ◌≤◌, ◌<◌, if◌then◌else◌, arith,
}
use operating_system_unix_li.Ext2.Image.{Entry, ext2_dir_rec_len, Image, ok, exited}
use operating_system_unix_li.Ext2.Image.Keeps.{Holds}
use operating_system_unix_li.Ext2.Alloc.{take_inode, take_block}
use operating_system_unix_li.Ext2.Alloc.First.{
  AllSet, IsFirst, with_block, with_inode, take-IsFirst,
}
use operating_system_unix_li.Ext2.Alloc.Counted.{IsCounted}
use operating_system_unix_li.Ext2.Accounts.Links.{main-IsCounted}
use operating_system_unix_li.Ext2.Directory.Layout.{IsBlock}
use operating_system_unix_li.Ext2.Insert.{append_entry, add_entry}
use operating_system_unix_li.Ext2.Insert.Found.{add_entry-place_of}
use operating_system_unix_li.Ext2.Directory.Place.{IsListable, place_of}
use operating_system_unix_li.Ext2.Insert.Grown.{added, grown, append_entry-IsBlock}
use operating_system_unix_li.Ext2.Ls.{bytes}
use operating_system_unix_li.Ext2.Mkdir.{mkdir_main}
use operating_system_unix_li.Ext2.Ln.{ln_main, link}
use operating_system_unix_li.Ext2.Ln.Taken.{linked, link_taken}
use operating_system_unix_li.Ext2.Rm.{remove}
use operating_system_unix_li.Ext2.Rm.Outcome.{without, remove-refusal, remove-without}
use operating_system_unix_li.Ext2.Rm.Release.{in_int, in_ints, AreFree}
use operating_system_unix_li.Ext2.Rm.Last.{remove_last}
use operating_system_unix_li.Ext2.Tests.{
  disk, entry, root_entries, root-IsBlock, root-IsListable, new_fits, new_slot,
}

take_example :
    ((AllSet disk.block_bitmap 0 128 × (take_block disk ≡ ok none disk))
      ⊎ ((i : ℕ) × IsFirst disk.block_bitmap 0 128 i
          × (take_block disk ≡ ok (some (i + 1)) (with_block disk i))))
    × ((AllSet disk.inode_bitmap 0 32 × (take_inode disk ≡ ok none disk))
        ⊎ ((i : ℕ) × IsFirst disk.inode_bitmap 0 32 i
            × (take_inode disk ≡ ok (some (i + 1)) (with_inode disk i))))
take_example = take-IsFirst disk

main_example :
    Holds IsCounted (mkdir_main true (bytes "image" ∷ bytes "/e" ∷ []) disk)
    × Holds IsCounted (ln_main true (bytes "image" ∷ bytes "/e" ∷ []) disk)
main_example = main-IsCounted true (bytes "image" ∷ bytes "/e" ∷ []) disk (refl, refl, refl, refl)

remove_refusal_example : remove 2 (bytes "d") disk ≡ exited 21 disk
remove_refusal_example =
    remove-refusal disk 2 (root_entries ∷ []) (bytes "d") root-IsListable 21 refl

remove-without_example : remove 2 (bytes "f") disk ≡ exited 0 (without disk 9252 13)
remove-without_example =
    remove-without disk 2 (root_entries ∷ []) (bytes "f") 9252 (entry 13 12 1 (bytes "f"))
      root-IsListable refl refl (omega arith) (omega arith) (omega arith) (omega arith)

remove_last_example :
    (d' : Image) × (remove 2 (bytes "g") disk ≡ exited 0 d')
    × (d'.inode_bitmap 13 ≡ false)
    × AreFree (disk.inodes 14).i_block 1 0 d'
    × ((j : ℕ) → d'.inode_bitmap j ≡ (if in_int 13 j then false else disk.inode_bitmap j))
    × ((j : ℕ)
        → d'.block_bitmap j
          ≡ (if in_ints (disk.inodes 14).i_block 1 0 j then false else disk.block_bitmap j))
remove_last_example =
    remove_last disk 2 (root_entries ∷ []) (bytes "g") 9264 13 1 (entry 14 976 1 (bytes "g"))
      root-IsListable refl refl refl (omega arith) refl
      (omega arith, refl, (11, refl, omega arith, tt))

link_taken_example :
    link false (bytes "/f") 2 (bytes "f") 2 (bytes "g") disk ≡ exited 17 (linked disk 13)
link_taken_example =
    link_taken disk 2 2 (root_entries ∷ []) (root_entries ∷ []) (bytes "/f") (bytes "f") (bytes "g")
      9252 9264 (entry 13 12 1 (bytes "f")) (entry 14 976 1 (bytes "g")) root-IsListable
      root-IsListable refl refl refl (omega arith) (omega arith) (omega arith)

append_entry_example :
    (d' : Image) × (append_entry 9264 (entry 14 976 1 (bytes "g")) 15 (bytes "new") 1 disk
      ≡ ok tt d')
    × IsBlock d'.entries 9216 1024
        (grown root_entries (added (entry 14 976 1 (bytes "g")) 15 (bytes "new") 1))
    × ((x : ℕ) → (x < 9216) ⊎ (9216 + 1024 ≤ x) → d'.entries x ≡ disk.entries x)
unfolding ext2_dir_rec_len
append_entry_example =
    append_entry-IsBlock disk 9216 root_entries 9264 (entry 14 976 1 (bytes "g")) 15 (bytes "new") 1
      root-IsBlock (omega arith) refl new_fits (omega arith)

add_entry_example :
    (d' : Image) × (ess' : List (List Entry)) × (add_entry none 2 15 (bytes "new") 1 disk
      ≡ ok tt d')
    × IsListable d' 2 ess'
    × (place_of d' 2 ess' (bytes "new")
        ≡ some (9264 + ext2_dir_rec_len 1, added (entry 14 976 1 (bytes "g")) 15 (bytes "new") 1))
add_entry_example =
    add_entry-place_of disk 2 (root_entries ∷ []) (bytes "new") 15 1 9264
      (entry 14 976 1 (bytes "g")) none root-IsListable new_slot refl (omega arith) refl
      (λ i j low low' ne same. ne (omega arith))
