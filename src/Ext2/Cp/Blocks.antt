-- ===== src/Ext2/Cp/Blocks.antt =====
-- ext2_cp.c: the blocks that a copy takes.
use operating_system_unix_li.Base.{
  ℕ, zero, suc, ◌+◌, ◌*◌, ◌^◌, ◌≤◌, ◌<◌, ◌≡◌, ◌≢◌, refl, ap, ◌∙◌, Bool, true, false, List, [], ◌∷◌,
  inl, inr, ◌&&◌, ◌==◌, ==_iff, ltb, lt→ltb, if◌then◌else◌, length, update, update_same, update_ne,
  arith, Bool-cases,
}
use operating_system_unix_li.Ext2.Image.{
  Image, ok, decrement, ◌>>=◌, done, get_inode, set_inode, set_i_block, block_num,
}
use operating_system_unix_li.Ext2.Alloc.{read_bits, get_block_bitmap, set_block_bitmap, count_block}
use operating_system_unix_li.Ext2.Cp.{take_direct, store_int, take_pointed, assign_blocks}

-- A bit that is given as set is set in the bitmap.
abbrev Matches : ℕ → List Bool → (ℕ → Bool) → Type 0
Matches i [] bits = Unit
Matches i (b ∷ bs) bits = (b ≡ true → bits i ≡ true) × Matches (i + 1) bs bits

-- As many bits as are given are set, from `i` on.
abbrev AllSet : ℕ → List Bool → (ℕ → Bool) → Type 0
AllSet i [] bits = Unit
AllSet i (b ∷ bs) bits = (bits i ≡ true) × AllSet (i + 1) bs bits

abbrev More : (ℕ → Bool) → (ℕ → Bool) → Type 0
More bits bits' = (k : ℕ) → bits k ≡ true → bits' k ≡ true

Matches-More :
    (i : ℕ) (bs : List Bool) (bits bits' : ℕ → Bool)
    → More bits bits'
    → Matches i bs bits
    → Matches i bs bits'
Matches-More i [] bits bits' more h = tt
Matches-More i (b ∷ bs) bits bits' more (first, rest) =
    (λ e. more i (first e), Matches-More (i + 1) bs bits bits' more rest)

Matches-read_bits : (rounds i : ℕ) (bits : ℕ → Bool) → Matches i (read_bits rounds i bits) bits
unfolding read_bits
Matches-read_bits zero i bits = tt
Matches-read_bits (suc rounds) i bits = (λ e. e, Matches-read_bits rounds (i + 1) bits)

length-read_bits : (rounds i : ℕ) (bits : ℕ → Bool) → length (read_bits rounds i bits) ≡ rounds
unfolding read_bits
length-read_bits zero i bits = refl
length-read_bits (suc rounds) i bits = ap suc (length-read_bits rounds (i + 1) bits)

AllSet-get :
    (i : ℕ) (bs : List Bool) (bits : ℕ → Bool) (k : ℕ)
    → AllSet i bs bits
    → i ≤ k
    → k < i + length bs
    → bits k ≡ true
AllSet-get i [] bits k all low high = absurd (omega (arith, low, high))
AllSet-get i (b ∷ bs) bits k (first, rest) low high = elim (Bool-cases (k == i)) [
  | inl here ↦ ap bits ((==_iff k i).0 here) ∙ first
  | inr differ ↦
      let ne : k ≢ i = ground arith in
      AllSet-get (i + 1) bs bits k rest (omega (arith, low, ne)) (omega (arith, high))
]

More-set : (bits : ℕ → Bool) (i : ℕ) → More bits (update bits i true)
More-set bits i k set_k = elim (Bool-cases (k == i)) [
  | inl here ↦ ap (update bits i true) ((==_iff k i).0 here) ∙ update_same bits i true
  | inr differ ↦ update_ne bits i true k (ground arith) ∙ set_k
]

-- The state after block `i` was taken and its number stored.
abbrev pointed : ℕ → ℕ → Image → Image
pointed addr i d = record d {
  ints = update d.ints addr (i + 1);
  block_bitmap = update d.block_bitmap i true;
  s_free_blocks_count = decrement 32 d.s_free_blocks_count;
  bg_free_blocks_count = decrement 16 d.bg_free_blocks_count;
}

take_pointed-pointed :
    (base file_blocks j i : ℕ) (bs : List Bool) (d : Image)
    → ltb (base + 32 * i) (2 ^ 17) ≡ true
    → (j + 1 + 12 == file_blocks) ≡ false
    → take_pointed base file_blocks j i (false ∷ bs) d
      ≡ take_pointed base file_blocks (j + 1) (i + 1) bs (pointed (base + 32 * i) i d)
unfolding take_pointed store_int set_block_bitmap count_block
take_pointed-pointed base file_blocks j i bs d near on =
    simp (take_pointed, ◌>>=◌, store_int, set_block_bitmap, count_block, near, on) refl

-- With at most 12 blocks wanted, the last loop takes every block that is free.
take_pointed_lem :
    (base file_blocks j i : ℕ) (bs : List Bool) (d : Image)
    → file_blocks ≤ 12
    → base + 4096 ≤ 2 ^ 17
    → i + length bs ≤ 128
    → Matches i bs d.block_bitmap
    → (d' : Image) × (take_pointed base file_blocks j i bs d ≡ ok tt d')
      × More d.block_bitmap d'.block_bitmap
      × AllSet i bs d'.block_bitmap
unfolding take_pointed
take_pointed_lem base file_blocks j i [] d few fits inside h = (d, refl, λ k e. e, tt)
take_pointed_lem base file_blocks j i (true ∷ bs) d few fits inside (first, rest) =
    let (d', out, more, all) =
      take_pointed_lem base file_blocks j (i + 1) bs d few fits (omega (arith, inside)) rest in
    (d', out, more, (more i (first refl), all))
take_pointed_lem base file_blocks j i (false ∷ bs) d few fits inside (first, rest) =
    let d1 : Image = pointed (base + 32 * i) i d in
    let grown : More d.block_bitmap d1.block_bitmap = More-set d.block_bitmap i in
    let near : ltb (base + 32 * i) (2 ^ 17) ≡ true =
      lt→ltb (base + 32 * i) (2 ^ 17) (omega (arith, fits, inside)) in
    let on : (j + 1 + 12 == file_blocks) ≡ false = ground (arith, few) in
    let (d', out, more, all) =
      take_pointed_lem base file_blocks (j + 1) (i + 1) bs d1 few fits (omega (arith, inside))
        (Matches-More (i + 1) bs d.block_bitmap d1.block_bitmap grown rest) in
    (
      d',
      take_pointed-pointed base file_blocks j i bs d near on ∙ out,
      λ k e. more k (grown k e),
      (more i (update_same d.block_bitmap i true), all),
    )

-- The state after block `i` became block `j` of the file.
abbrev given : ℕ → ℕ → ℕ → Image → Image
given n j i d = record d {
  inodes =
      update d.inodes n (record (d.inodes n) { i_block = update (d.inodes n).i_block j (i + 1) });
  block_bitmap = update d.block_bitmap i true;
  s_free_blocks_count = decrement 32 d.s_free_blocks_count;
  bg_free_blocks_count = decrement 16 d.bg_free_blocks_count;
}

given-block_12 :
    (n j i : ℕ) (d : Image)
    → j < 12
    → ((given n j i d).inodes n).i_block 12 ≡ (d.inodes n).i_block 12
given-block_12 n j i d first =
    ap (λ k. k.i_block 12)
      (update_same d.inodes n
        (record (d.inodes n) { i_block = update (d.inodes n).i_block j (i + 1) }))
    ∙ update_ne (d.inodes n).i_block j (i + 1) 12 (λ e. absurd (omega (arith, first, e)))

module _ (n : ℕ) (inside : (ltb 0 n && ltb n 33) ≡ true) where
  take_direct-given :
      (j i : ℕ) (bs : List Bool) (d : Image)
      → j < 12
      → take_direct n j i (false ∷ bs) d
        ≡ (if j + 1 == 12 then done else take_direct n (j + 1) (i + 1) bs) (given n j i d)
  unfolding take_direct set_i_block set_inode set_block_bitmap count_block
  take_direct-given j i bs d first =
      let low : ltb j 15 ≡ true = lt→ltb j 15 (omega (arith, first)) in
      simp (take_direct, ◌>>=◌, set_i_block, low, set_inode, inside, set_block_bitmap, count_block)
        refl

  -- The first loop ends, and leaves the number of the indirect block as it was.
  take_direct_lem :
      (j i : ℕ) (bs : List Bool) (d : Image)
      → j < 12
      → (d' : Image) × (take_direct n j i bs d ≡ ok tt d')
        × ((d'.inodes n).i_block 12 ≡ (d.inodes n).i_block 12)
  unfolding take_direct
  take_direct_lem j i [] d first = (d, refl, refl)
  take_direct_lem j i (true ∷ bs) d first = take_direct_lem j (i + 1) bs d first
  take_direct_lem j i (false ∷ bs) d first = elim (Bool-cases (j + 1 == 12)) [
    | inl last ↦ (
      given n j i d,
      take_direct-given j i bs d first ∙ rw last refl,
      given-block_12 n j i d first,
    )
    | inr more ↦
        let next : j + 1 < 12 = ground (arith, first) in
        let (d', out, same) = take_direct_lem (j + 1) (i + 1) bs (given n j i d) next in
        (d', take_direct-given j i bs d first ∙ rw more out, same ∙ given-block_12 n j i d first)
  ]

  assign_blocks_few :
      (file_blocks : ℕ) (d d1 : Image)
      → file_blocks ≤ 12
      → take_direct n 0 0 (read_bits block_num 0 d.block_bitmap) d ≡ ok tt d1
      → assign_blocks n file_blocks d
        ≡ take_pointed
            (1024 * (d1.inodes n).i_block 12)
            file_blocks
            0
            0
            (read_bits block_num 0 d1.block_bitmap)
            d1
  unfolding assign_blocks get_block_bitmap get_inode
  assign_blocks_few file_blocks d d1 few out =
      let small : ltb 12 file_blocks ≡ false = ground (arith, few) in
      simp (assign_blocks, ◌>>=◌, get_block_bitmap, out, small, get_inode, inside) refl

  assign_blocks_lem :
      (file_blocks : ℕ) (d : Image)
      → file_blocks ≤ 12
      → 1024 * (d.inodes n).i_block 12 + 4096 ≤ 2 ^ 17
      → (d' : Image) × (assign_blocks n file_blocks d ≡ ok tt d')
        × ((k : ℕ) → k < 128 → d'.block_bitmap k ≡ true)
  assign_blocks_lem file_blocks d few fits =
      let (d1, out1, same) =
        take_direct_lem 0 0 (read_bits block_num 0 d.block_bitmap) d (omega arith) in
      let bits : List Bool = read_bits block_num 0 d1.block_bitmap in
      let base : ℕ = 1024 * (d1.inodes n).i_block 12 in
      let fits1 : base + 4096 ≤ 2 ^ 17 = omega (arith, fits, same) in
      let len : length bits ≡ 128 = length-read_bits block_num 0 d1.block_bitmap in
      let (d2, out2, more, all) =
        take_pointed_lem base file_blocks 0 0 bits d1 few fits1 (omega (arith, len))
          (Matches-read_bits block_num 0 d1.block_bitmap) in
      (
        d2,
        assign_blocks_few file_blocks d d1 few out1 ∙ out2,
        λ k low. AllSet-get 0 bits d2.block_bitmap k all (omega arith) (omega (arith, low, len)),
      )

-- For a file of at most 12 blocks, however small, the loops that give blocks to the file end, and no bit
-- of the block bitmap is clear afterwards: every free block is taken. The inode is one of the 32 of the
-- table, and the block that it names as its indirect block lies behind the blocks 0 to 8, which hold the
-- superblock, the group descriptor, the bitmaps and the inode table, and in the image with 4096 bytes.
pub assign_blocks_takes_all :
    (n file_blocks : ℕ) (d : Image)
    → 0 < n
    → n < 33
    → file_blocks ≤ 12
    → 9 ≤ (d.inodes n).i_block 12
    → 1024 * (d.inodes n).i_block 12 + 4096 ≤ 2 ^ 17
    → (d' : Image) × (assign_blocks n file_blocks d ≡ ok tt d')
      × ((k : ℕ) → k < 128 → d'.block_bitmap k ≡ true)
assign_blocks_takes_all n file_blocks d low high few behind fits =
    assign_blocks_lem n (ground (arith, low, high)) file_blocks d few fits
