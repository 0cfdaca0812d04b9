-- ===== src/Ext2/Rm/Release.antt =====
-- What ext2_rm gives back with the last link of a file.
use operating_system_unix_li.Base.{
  ℕ, zero, suc, ◌+◌, ◌-◌, ◌*◌, ◌/◌, ◌<◌, ◌≤◌, ◌≡◌, refl, sym, ap, ◌∙◌, ◌&&◌, ◌||◌, leb, ltb, lt→ltb,
  if◌then◌else◌, Bool, true, false, inl, inr, ◌==◌, arith, ==_iff, Bool-cases,
}
use operating_system_unix_li.Ext2.Image.{Inode, Image, Out, ok, ◌>>=◌, ◌>>◌, increment}
use operating_system_unix_li.Ext2.Alloc.{
  clear_int, set_block_bitmap_back, set_inode_bitmap_back, count_block_back, count_inode_back,
}
use operating_system_unix_li.Ext2.Rm.{free_block, free_blocks, at_most_12, free_indirect, release}

clear_inside :
    (bits : ℕ → Bool) (i j : ℕ) → i / 8 * 8 ≤ j → j < i / 8 * 8 + 32 → clear_int bits i j ≡ false
unfolding clear_int
clear_inside bits i j low high = ground arith

clear_stays : (bits : ℕ → Bool) (i j : ℕ) → bits j ≡ false → clear_int bits i j ≡ false
unfolding clear_int
clear_stays bits i j h = ground arith

-- The image after block `b + 1` is given back.
abbrev pub with_block_back : Image → ℕ → Image
with_block_back d b = record d {
  block_bitmap = clear_int d.block_bitmap b;
  s_free_blocks_count = increment 32 d.s_free_blocks_count;
  bg_free_blocks_count = increment 16 d.bg_free_blocks_count;
}

free_block_at : (d : Image) (b : ℕ) → b < 128 → free_block (suc b) d ≡ ok tt (with_block_back d b)
unfolding free_block set_block_bitmap_back count_block_back
free_block_at d b inside = simp (◌>>=◌, lt→ltb (b / 8 + 3) 1024 (omega (arith, inside))) refl

-- The blocks that are named, with numbers from 1 to 128.
abbrev pub AreBlocks : (ℕ → ℕ) → ℕ → ℕ → Type 0
AreBlocks blocks zero i = Unit
AreBlocks blocks (suc n) i = (b : ℕ) × (blocks i ≡ suc b) × (b < 128) × AreBlocks blocks n (i + 1)

-- The bits of the `int` at the byte of bit `b`.
abbrev pub in_int : ℕ → ℕ → Bool
in_int b j = leb (b / 8 * 8) j && ltb j (b / 8 * 8 + 32)

-- Whether bit `j` is in the `int` of one of the blocks.
abbrev pub in_ints : (ℕ → ℕ) → ℕ → ℕ → ℕ → Bool
in_ints blocks zero i j = false
in_ints blocks (suc n) i j = in_int (blocks i - 1) j || in_ints blocks n (i + 1) j

clear_int-in_int :
    (bits : ℕ → Bool) (i j : ℕ) → clear_int bits i j ≡ (if in_int i j then false else bits j)
unfolding clear_int
clear_int-in_int bits i j = ground arith

-- An image like another, in which some blocks more may be free.
abbrev pub IsFreer : Image → Image → Type 0
IsFreer d d' =
    (d'.inode_bitmap ≡ d.inode_bitmap)
    × ((j : ℕ) → d.block_bitmap j ≡ false → d'.block_bitmap j ≡ false)

-- All of the blocks are free.
abbrev pub AreFree : (ℕ → ℕ) → ℕ → ℕ → Image → Type 0
AreFree blocks n i d = (k : ℕ) → i ≤ k → k < i + n → d.block_bitmap (blocks k - 1) ≡ false

free_blocks_step :
    (blocks : ℕ → ℕ) (n i b : ℕ) (d : Image)
    → blocks i ≡ suc b
    → b < 128
    → free_blocks blocks (suc n) i d ≡ free_blocks blocks n (i + 1) (with_block_back d b)
unfolding free_blocks
free_blocks_step blocks n i b d is inside =
    simp (free_blocks, ◌>>=◌, is, free_block_at d b inside) refl

here_at : (blocks : ℕ → ℕ) (k i b : ℕ) → (k == i) ≡ true → blocks i ≡ suc b → blocks k - 1 ≡ b
here_at blocks k i b e is =
    let same : k ≡ i = (==_iff k i).0 e in
    ap (λ x. blocks x - 1) same ∙ ap (λ x. x - 1) is ∙ omega arith

either :
    (x y c : Bool) → (if y then false else (if x then false else c)) ≡ (if x || y then false else c)
either true true c = refl
either true false c = refl
either false true c = refl
either false false c = refl

free_blocks_lem :
    (blocks : ℕ → ℕ) (n i : ℕ) (d : Image)
    → AreBlocks blocks n i
    → (d' : Image) × (free_blocks blocks n i d ≡ ok tt d')
      × IsFreer d d'
      × AreFree blocks n i d'
      × ((j : ℕ) → d'.block_bitmap j ≡ (if in_ints blocks n i j then false else d.block_bitmap j))
unfolding free_blocks
free_blocks_lem blocks zero i d are =
    (d, refl, (refl, λ j h. h), λ k low high. absurd (omega arith), λ j. refl)
free_blocks_lem blocks (suc n) i d (b, is, inside, are) =
    let (d', runs, (same, freer), free, exact) =
      free_blocks_lem blocks n (i + 1) (with_block_back d b) are in
    (
      d',
      free_blocks_step blocks n i b d is inside ∙ runs,
      (same, λ j h. freer j (clear_stays d.block_bitmap b j h)),
      λ k low high. elim (Bool-cases (k == i)) [
        | inl e ↦
            let at : blocks k - 1 ≡ b = here_at blocks k i b e is in
            ap d'.block_bitmap at
            ∙ freer b (clear_inside d.block_bitmap b b (omega arith) (omega arith))
        | inr e ↦ free k (ground (arith, e)) (omega arith)
      ],
      λ j.
          exact j
          ∙ ap (λ c. if in_ints blocks n (i + 1) j then false else c)
              (clear_int-in_int d.block_bitmap b j)
          ∙ ap
              (λ x.
                if in_ints blocks n (i + 1) j
                then false
                else (if in_int x j then false else d.block_bitmap j))
              (sym (ap (λ x. x - 1) is ∙ omega arith))
          ∙ either (in_int (blocks i - 1) j) (in_ints blocks n (i + 1) j) (d.block_bitmap j),
    )

-- A file whose blocks are all named by its inode.
abbrev pub IsDirect : Inode → ℕ → Type 0
IsDirect inode n = (n ≤ 12) × (inode.i_blocks ≡ 2 * n) × AreBlocks inode.i_block n 0

abbrev pub with_inode_back : Image → ℕ → Image
with_inode_back d i = record d {
  inode_bitmap = clear_int d.inode_bitmap i;
  s_free_inodes_count = increment 32 d.s_free_inodes_count;
  bg_free_inodes_count = increment 16 d.bg_free_inodes_count;
}

inode_back :
    (d : Image) (i : ℕ)
    → set_inode_bitmap_back i d ≡ ok tt (record d { inode_bitmap = clear_int d.inode_bitmap i })
unfolding set_inode_bitmap_back
inode_back d i = refl

more_inodes :
    (d : Image)
    → count_inode_back d
      ≡ ok tt (record d {
        s_free_inodes_count = increment 32 d.s_free_inodes_count;
        bg_free_inodes_count = increment 16 d.bg_free_inodes_count;
      })
unfolding count_inode_back
more_inodes d = refl

no_indirect : (inode : Inode) (d : Image) → free_indirect inode 0 d ≡ ok tt d
unfolding free_indirect free_blocks
no_indirect inode d = refl

-- The blocks that the inode names, and those of the indirect block.
abbrev all_blocks : Inode → ℕ → ℕ → Image → Out (Unit {0})
all_blocks inode direct more = free_blocks inode.i_block direct 0 >> free_indirect inode more

release_at :
    (n : ℕ) (inode : Inode) (d : Image)
    → release n inode d
      ≡ all_blocks inode
          (at_most_12 (inode.i_blocks / 2))
          (inode.i_blocks / 2 - 12)
          (with_inode_back d (n - 1))
unfolding release
release_at n inode d = simp (release, ◌>>=◌, inode_back, more_inodes) refl

only_direct :
    (inode : Inode) (n : ℕ) (d d' : Image)
    → free_blocks inode.i_block n 0 d ≡ ok tt d'
    → all_blocks inode n 0 d ≡ ok tt d'
only_direct inode n d d' runs = simp (◌>>=◌, runs, no_indirect) refl

-- `release` of a file with at most 12 blocks ends, and the bit of the inode and the bits of all its
-- blocks are clear then, with the others of their `int`s and no more.
pub release_direct :
    (d : Image) (i n : ℕ) (inode : Inode)
    → IsDirect inode n
    → (d' : Image) × (release (suc i) inode d ≡ ok tt d')
      × (d'.inode_bitmap i ≡ false)
      × AreFree inode.i_block n 0 d'
      × ((j : ℕ) → d'.inode_bitmap j ≡ (if in_int i j then false else d.inode_bitmap j))
      × ((j : ℕ)
          → d'.block_bitmap j ≡ (if in_ints inode.i_block n 0 j then false else d.block_bitmap j))
release_direct d i n inode (small, size, are) =
    let back = with_inode_back d i in
    let (d', runs, (same, freer), free, exact) = free_blocks_lem inode.i_block n 0 back are in
    let half : inode.i_blocks / 2 ≡ n = omega (arith, size) in
    let most : at_most_12 n ≡ n = ground (arith, small) in
    (
      d',
      release_at (suc i) inode d
          ∙ ap
              (λ j.
                all_blocks inode (at_most_12 (inode.i_blocks / 2)) (inode.i_blocks / 2 - 12)
                  (with_inode_back d j))
              (omega arith)
          ∙ ap (λ m. all_blocks inode (at_most_12 m) (m - 12) back) half
          ∙ ap (λ m. all_blocks inode m (n - 12) back) most
          ∙ ap (λ m. all_blocks inode n m back) (omega arith)
          ∙ only_direct inode n back d' runs,
      ap (λ f. f i) same ∙ clear_inside d.inode_bitmap i i (omega arith) (omega arith),
      free,
      λ j. ap (λ f. f j) same ∙ clear_int-in_int d.inode_bitmap i j,
      exact,
    )
