-- ===== src/Ext2/Alloc/First.antt =====
-- The loops that take an inode and a block, against the first bit that is free.
use operating_system_unix_li.Base.{
  ℕ, zero, suc, ◌+◌, ◌<◌, ◌≤◌, ◌≡◌, ◌⊎◌, refl, ap, ◌∙◌, Bool, true, false, none, some, inl, inr,
  ◌==◌, ==_iff, arith, Bool-cases, update,
}
use operating_system_unix_li.Ext2.Image.{Image, ok, ◌>>=◌, decrement, inode_num, block_num}
use operating_system_unix_li.Ext2.Alloc.{
  read_bits, get_inode_bitmap, get_block_bitmap, set_inode_bitmap, set_block_bitmap, first_clear,
  count_inode, count_block, take_inode, take_block,
}

-- The bits from `k` up to `end` are all set.
abbrev pub AllSet : (ℕ → Bool) → ℕ → ℕ → Type 0
AllSet bits k end = (j : ℕ) → k ≤ j → j < end → bits j ≡ true

-- Bit `i` is the first from `k` on, and before `end`, that is free.
abbrev pub IsFirst : (ℕ → Bool) → ℕ → ℕ → ℕ → Type 0
IsFirst bits k end i = (k ≤ i) × (i < end) × (bits i ≡ false) × AllSet bits k i

AllSet-suc :
    (bits : ℕ → Bool) (k end : ℕ) → bits k ≡ true → AllSet bits (k + 1) end → AllSet bits k end
AllSet-suc bits k end h all j low high = elim (Bool-cases (j == k)) [
  | inl e ↦ let same : j ≡ k = (==_iff j k).0 e in ap bits same ∙ h
  | inr e ↦ all j (ground (arith, e)) high
]

first_clear-read_bits :
    (n k : ℕ) (bits : ℕ → Bool)
    → (AllSet bits k (k + n) × (first_clear k (read_bits n k bits) ≡ none))
      ⊎ ((i : ℕ) × IsFirst bits k (k + n) i × (first_clear k (read_bits n k bits) ≡ some i))
unfolding first_clear read_bits
first_clear-read_bits zero k bits = inl (λ j low high. absurd (omega arith), refl)
first_clear-read_bits (suc n) k bits = elim (Bool-cases (bits k)) [
  | inl h ↦ elim (first_clear-read_bits n (k + 1) bits) [
    | inl (all, none_left) ↦
        inl
          (AllSet-suc bits k (k + suc n) h (λ j low high. all j low (omega arith)), rw h none_left)
    | inr (i, (low, high, free, all), first) ↦
        inr (i, (omega arith, omega arith, free, AllSet-suc bits k i h all), rw h first)
  ]
  | inr h ↦ inr (k, (omega arith, omega arith, h, λ j low high. absurd (omega arith)), rw h refl)
]

-- The image with a block or an inode taken.
abbrev pub with_block : Image → ℕ → Image
with_block d i = record d {
  block_bitmap = update d.block_bitmap i true;
  s_free_blocks_count = decrement 32 d.s_free_blocks_count;
  bg_free_blocks_count = decrement 16 d.bg_free_blocks_count;
}

abbrev pub with_inode : Image → ℕ → Image
with_inode d i = record d {
  inode_bitmap = update d.inode_bitmap i true;
  s_free_inodes_count = decrement 32 d.s_free_inodes_count;
  bg_free_inodes_count = decrement 16 d.bg_free_inodes_count;
}

module _ (d : Image) where
  got_blocks : get_block_bitmap d ≡ ok (read_bits block_num 0 d.block_bitmap) d
  unfolding get_block_bitmap
  got_blocks = refl

  got_inodes : get_inode_bitmap d ≡ ok (read_bits inode_num 0 d.inode_bitmap) d
  unfolding get_inode_bitmap
  got_inodes = refl

  set_block :
      (i : ℕ)
      → set_block_bitmap i d ≡ ok tt (record d { block_bitmap = update d.block_bitmap i true })
  unfolding set_block_bitmap
  set_block i = refl

  set_inode_bit :
      (i : ℕ)
      → set_inode_bitmap i d ≡ ok tt (record d { inode_bitmap = update d.inode_bitmap i true })
  unfolding set_inode_bitmap
  set_inode_bit i = refl

  fewer_blocks :
      count_block d
      ≡ ok tt (record d {
        s_free_blocks_count = decrement 32 d.s_free_blocks_count;
        bg_free_blocks_count = decrement 16 d.bg_free_blocks_count;
      })
  unfolding count_block
  fewer_blocks = refl

  fewer_inodes :
      count_inode d
      ≡ ok tt (record d {
        s_free_inodes_count = decrement 32 d.s_free_inodes_count;
        bg_free_inodes_count = decrement 16 d.bg_free_inodes_count;
      })
  unfolding count_inode
  fewer_inodes = refl

module _ (d : Image) where
  no_block : first_clear 0 (read_bits block_num 0 d.block_bitmap) ≡ none → take_block d ≡ ok none d
  unfolding take_block
  no_block h = simp (take_block, ◌>>=◌, got_blocks, h) refl

  one_block :
      (i : ℕ)
      → first_clear 0 (read_bits block_num 0 d.block_bitmap) ≡ some i
      → take_block d ≡ ok (some (i + 1)) (with_block d i)
  unfolding take_block
  one_block i h = simp (take_block, ◌>>=◌, got_blocks, h, set_block, fewer_blocks) refl

  no_inode : first_clear 0 (read_bits inode_num 0 d.inode_bitmap) ≡ none → take_inode d ≡ ok none d
  unfolding take_inode
  no_inode h = simp (take_inode, ◌>>=◌, got_inodes, h) refl

  one_inode :
      (i : ℕ)
      → first_clear 0 (read_bits inode_num 0 d.inode_bitmap) ≡ some i
      → take_inode d ≡ ok (some (i + 1)) (with_inode d i)
  unfolding take_inode
  one_inode i h = simp (take_inode, ◌>>=◌, got_inodes, h, set_inode_bit, fewer_inodes) refl

  pub take_block-IsFirst :
      (AllSet d.block_bitmap 0 128 × (take_block d ≡ ok none d))
      ⊎ ((i : ℕ) × IsFirst d.block_bitmap 0 128 i
          × (take_block d ≡ ok (some (i + 1)) (with_block d i)))
  take_block-IsFirst = elim (first_clear-read_bits 128 0 d.block_bitmap) [
    | inl (all, h) ↦ inl (all, no_block h)
    | inr (i, is, h) ↦ inr (i, is, one_block i h)
  ]

  pub take_inode-IsFirst :
      (AllSet d.inode_bitmap 0 32 × (take_inode d ≡ ok none d))
      ⊎ ((i : ℕ) × IsFirst d.inode_bitmap 0 32 i
          × (take_inode d ≡ ok (some (i + 1)) (with_inode d i)))
  take_inode-IsFirst = elim (first_clear-read_bits 32 0 d.inode_bitmap) [
    | inl (all, h) ↦ inl (all, no_inode h)
    | inr (i, is, h) ↦ inr (i, is, one_inode i h)
  ]

  -- `mkdir` and `ln` take the first free block and the first free inode: if one of the 128 bits of the
  -- blocks (the 32 bits of the inodes) is clear then the number is one more than the position of the
  -- first that is, its bit is set, and the two counters go down by one; if all are set then nothing
  -- is taken or changed.
  pub take-IsFirst :
      ((AllSet d.block_bitmap 0 128 × (take_block d ≡ ok none d))
        ⊎ ((i : ℕ) × IsFirst d.block_bitmap 0 128 i
            × (take_block d ≡ ok (some (i + 1)) (with_block d i))))
      × ((AllSet d.inode_bitmap 0 32 × (take_inode d ≡ ok none d))
          ⊎ ((i : ℕ) × IsFirst d.inode_bitmap 0 32 i
              × (take_inode d ≡ ok (some (i + 1)) (with_inode d i))))
  take-IsFirst = (take_block-IsFirst, take_inode-IsFirst)
