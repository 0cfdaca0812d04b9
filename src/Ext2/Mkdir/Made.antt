-- ===== src/Ext2/Mkdir/Made.antt =====
-- ext2_mkdir.c: the directory that `mkdir` makes.
use operating_system_unix_li.Base.{
  ℕ, ◌+◌, ◌*◌, ◌^◌, ◌<◌, ◌≡◌, refl, sym, ap, ◌∙◌, Bool, some, [], ◌∷◌, inl, inr, ltb, lt→ltb,
  ltb→lt, arith, Bool-cases, update, update_same, update-update,
}
use operating_system_unix_li.Ext2.Image.{
  Inode, Entry, Image, ok, ◌>>=◌, get_inode, set_inode, set_i_block, set_entry, write_entry,
  increment, ext2_dir_rec_len,
}
use operating_system_unix_li.Ext2.Alloc.{take_inode, take_block}
use operating_system_unix_li.Ext2.Alloc.First.{
  IsFirst, with_block, with_inode, take_block-IsFirst, take_inode-IsFirst,
}
use operating_system_unix_li.Ext2.Mkdir.{init_dir_inode, write_dots}

first_unique : (bits : ℕ → Bool) (end i j : ℕ) → IsFirst bits 0 end i → IsFirst bits 0 end j → i ≡ j
first_unique bits end i j (low, high, free, all) (low', high', free', all') =
    elim (Bool-cases (ltb i j)) [
      | inl h ↦ absurd (cc (sym (all' i (omega arith) (ltb→lt i j h)) ∙ free))
      | inr h ↦ elim (Bool-cases (ltb j i)) [
        | inl k ↦ absurd (cc (sym (all j (omega arith) (ltb→lt j i k)) ∙ free'))
        | inr k ↦ ground (arith, h, k)
      ]
    ]

first_block :
    (d : Image) (b : ℕ)
    → IsFirst d.block_bitmap 0 128 b
    → take_block d ≡ ok (some (b + 1)) (with_block d b)
first_block d b is = elim (take_block-IsFirst d) [
  | inl (all, h) ↦ absurd (cc (sym (all b (omega arith) is.1) ∙ is.2))
  | inr (i, first, h) ↦
      h
      ∙ ap (λ k. ok (some (k + 1)) (with_block d k)) (first_unique d.block_bitmap 128 i b first is)
]

pub first_inode :
    (d : Image) (i : ℕ)
    → IsFirst d.inode_bitmap 0 32 i
    → take_inode d ≡ ok (some (i + 1)) (with_inode d i)
first_inode d i is = elim (take_inode-IsFirst d) [
  | inl (all, h) ↦ absurd (cc (sym (all i (omega arith) is.1) ∙ is.2))
  | inr (j, first, h) ↦
      h ∙ ap (λ k. ok (some (k + 1)) (with_inode d k)) (first_unique d.inode_bitmap 32 j i first is)
]

-- The inode of the new directory, with block `b + 1` as its only one.
abbrev pub fresh_dir : Inode → ℕ → Inode
fresh_dir i b = record i {
  i_mode = 16384;
  i_size = 1024;
  i_links_count = 2;
  i_blocks = 2;
  i_dtime = 0;
  i_block = update i.i_block 0 (b + 1);
}

abbrev pub with_dir : Image → ℕ → ℕ → Image
with_dir d n b = record (with_block d b) { inodes = update d.inodes n (fresh_dir (d.inodes n) b) }

-- `.` with 12 bytes and `..` with the rest of the block.
abbrev pub dot : ℕ → Entry
dot n = record { inode = n; rec_len = 12; name_len = 1; file_type = 2; name = 46 ∷ [] }

abbrev pub dot_dot : ℕ → Entry
dot_dot n = record { inode = n; rec_len = 1012; name_len = 2; file_type = 2; name = 46 ∷ 46 ∷ [] }

abbrev pub with_dots : Image → ℕ → ℕ → ℕ → Image
with_dots d addr n parent = record d {
  entries = update (update d.entries addr (dot n)) (addr + 12) (dot_dot parent);
}

-- One link more, that of the new `..`.
abbrev pub with_link : Image → ℕ → Image
with_link d parent = record d {
  inodes =
      update d.inodes parent
        (record (d.inodes parent) { i_links_count = increment 16 (d.inodes parent).i_links_count });
}

-- What the new directory is written to, before it is entered in its parent.
abbrev pub prepared : Image → ℕ → ℕ → ℕ → Image
prepared d parent i b =
    with_dots (with_dir (with_inode d i) (i + 1) b) (1024 * (b + 1)) (i + 1) parent

module _ (d : Image) (n : ℕ) (low : 0 < n) (high : n < 33) where
  pub init_at :
      (b : ℕ) → IsFirst d.block_bitmap 0 128 b → init_dir_inode n d ≡ ok tt (with_dir d n b)
  unfolding init_dir_inode set_inode set_i_block
  init_at b is =
      let d1 : Image = record d {
        inodes = update d.inodes n (record (d.inodes n) {
          i_mode = 16384;
          i_size = 1024;
          i_links_count = 2;
          i_blocks = 2;
          i_dtime = 0;
        });
      } in
      let taken : take_block d1 ≡ ok (some (b + 1)) (with_block d1 b) = first_block d1 b is in
      simp
        (
          init_dir_inode,
          ◌>>=◌,
          set_inode,
          set_i_block,
          lt→ltb 0 n low,
          lt→ltb n 33 high,
          taken,
          update_same,
          update-update,
        )
        refl

  pub dots_at :
      (parent addr : ℕ)
      → 1024 * (d.inodes n).i_block 0 ≡ addr
      → addr + 12 < 2 ^ 17
      → write_dots n parent d ≡ ok tt (with_dots d addr n parent)
  unfolding write_dots get_inode write_entry set_entry ext2_dir_rec_len
  dots_at parent addr at inside =
      simp
        (
          write_dots,
          ◌>>=◌,
          get_inode,
          lt→ltb 0 n low,
          lt→ltb n 33 high,
          at,
          write_entry,
          lt→ltb addr (2 ^ 17) (omega (arith, inside)),
          lt→ltb (addr + 12) (2 ^ 17) inside,
        )
        refl

  pub link_at :
      set_inode n (λ i. record i { i_links_count = increment 16 i.i_links_count }) d
      ≡ ok tt (with_link d n)
  unfolding set_inode
  link_at = simp (set_inode, lt→ltb 0 n low, lt→ltb n 33 high) refl
