-- ===== src/Ext2/Rm/Last.antt =====
-- ext2_rm of the last link of a file.
use operating_system_unix_li.Base.{
  ℕ, suc, ◌<◌, ◌≡◌, refl, ap, ◌∙◌, true, false, none, some, List, ◌==◌, if◌then◌else◌, arith,
}
use operating_system_unix_li.Ext2.Image.{
  Text, Entry, Image, ok, exited, ◌>>=◌, ◌>>◌, exit, decrement,
}
use operating_system_unix_li.Ext2.Directory.Place.{IsListable, place_of}
use operating_system_unix_li.Ext2.Rm.{release, unlink, remove}
use operating_system_unix_li.Ext2.Rm.Outcome.{
  refusal, fewer_links, unlinked, unlink_at, gone, remove_at,
}
use operating_system_unix_li.Ext2.Rm.Release.{in_int, in_ints, IsDirect, AreFree, release_direct}

last_unlink :
    (n : ℕ) (d d' : Image)
    → 0 < n
    → n < 33
    → (d.inodes n).i_links_count ≡ 1
    → release n (fewer_links n d) (unlinked n d) ≡ ok tt d'
    → (unlink n >> exit {A = Unit {0}} 0) d ≡ exited 0 d'
last_unlink n d d' low high one runs =
    let zero_left : ((fewer_links n d).i_links_count == 0) ≡ true =
      ap (λ l. decrement 16 l == 0) one in
    simp (◌>>=◌, unlink_at n d low high, zero_left, runs) refl

module _ (d : Image) (dir : ℕ) (ess : List (List Entry)) (name : Text) (addr i n : ℕ) (e : Entry)
    (is : IsListable d dir ess) (there : place_of d dir ess name ≡ some (addr, e))
    (free : refusal (some (addr, e)) ≡ none) (at : e.inode ≡ suc i) (small : i < 32)
    (one : (d.inodes e.inode).i_links_count ≡ 1) (direct : IsDirect (d.inodes e.inode) n) where
  -- If the file has no other link and at most 12 blocks, with numbers from 1 to 128, then `rm` ends with
  -- 0, and the bits of the inode and of all the blocks of the file are clear then. What else is clear is
  -- the rest of the 32 bits from the byte of such a bit on; every other bit is as before.
  pub remove_last :
      (d' : Image) × (remove dir name d ≡ exited 0 d')
      × (d'.inode_bitmap i ≡ false)
      × AreFree (d.inodes e.inode).i_block n 0 d'
      × ((j : ℕ) → d'.inode_bitmap j ≡ (if in_int i j then false else d.inode_bitmap j))
      × ((j : ℕ)
          → d'.block_bitmap j
            ≡ (if in_ints (d.inodes e.inode).i_block n 0 j then false else d.block_bitmap j))
  remove_last =
      let low : 0 < e.inode = omega (arith, at) in
      let high : e.inode < 33 = omega (arith, at) in
      let d1 = gone d dir ess name addr e is there free low high in
      let (d', runs, inode_free, blocks_free, inodes_left, blocks_left) =
        release_direct (unlinked e.inode d1) i n (fewer_links e.inode d1) direct in
      (
        d',
        remove_at d dir ess name addr e is there free low high
            ∙ last_unlink e.inode d1 d' low high one
                (ap (λ m. release m (fewer_links e.inode d1) (unlinked e.inode d1)) at ∙ runs),
        inode_free,
        blocks_free,
        inodes_left,
        blocks_left,
      )
