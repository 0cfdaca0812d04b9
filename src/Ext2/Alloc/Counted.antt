-- ===== src/Ext2/Alloc/Counted.antt =====
-- The counters of the superblock and the group descriptor against the bitmaps.
use operating_system_unix_li.Base.{
  ℕ, zero, suc, ◌+◌, ◌<◌, ◌≤◌, ◌≡◌, ◌≢◌, refl, ap, ◌∙◌, Bool, true, false, inl, inr, ◌==◌, ==_iff,
  if◌then◌else◌, arith, Bool-cases, update, update_same, update_ne,
}
use operating_system_unix_li.Ext2.Image.{Image, decrement}
use operating_system_unix_li.Ext2.Alloc.First.{IsFirst, with_block, with_inode}

-- How many of `n` bits from `k` on are clear.
abbrev pub count_clear : (ℕ → Bool) → ℕ → ℕ → ℕ
count_clear bits zero k = 0
count_clear bits (suc n) k = (if bits k then 0 else 1) + count_clear bits n (k + 1)

-- The counters are the numbers of blocks and inodes whose bits are clear.
abbrev pub IsCounted : Image → Type 0
IsCounted d =
    (d.s_free_blocks_count ≡ count_clear d.block_bitmap 128 0)
    × (d.bg_free_blocks_count ≡ count_clear d.block_bitmap 128 0)
    × (d.s_free_inodes_count ≡ count_clear d.inode_bitmap 32 0)
    × (d.bg_free_inodes_count ≡ count_clear d.inode_bitmap 32 0)

module _ (bits : ℕ → Bool) where
  count_bound : (n k : ℕ) → count_clear bits n k ≤ n
  count_bound zero k = omega arith
  count_bound (suc n) k = ground (arith, count_bound n (k + 1))

  count_behind : (n k i : ℕ) → i < k → count_clear (update bits i true) n k ≡ count_clear bits n k
  count_behind zero k i h = refl
  count_behind (suc n) k i h =
      let same : update bits i true k ≡ bits k = update_ne bits i true k (omega (arith, h)) in
      rw same (ap (◌+◌ (if bits k then 0 else 1)) (count_behind n (k + 1) i (omega (arith, h))))

  -- To set a bit that is clear makes the count less by one.
  count_taken :
      (n k i : ℕ)
      → k ≤ i
      → i < k + n
      → bits i ≡ false
      → count_clear (update bits i true) n k + 1 ≡ count_clear bits n k
  count_taken zero k i low high free = absurd (omega arith)
  count_taken (suc n) k i low high free = elim (Bool-cases (k == i)) [
    | inl e ↦
        let eq : k ≡ i = (==_iff k i).0 e in
        let set : update bits i true k ≡ true =
          ap (update bits i true) eq ∙ update_same bits i true in
        let clear : bits k ≡ false = ap bits eq ∙ free in
        let rest : count_clear (update bits i true) n (k + 1) ≡ count_clear bits n (k + 1) =
          count_behind n (k + 1) i (omega (arith, eq)) in
        rw (set, clear) (omega (arith, rest))
    | inr e ↦
        let ne : k ≢ i = ground (arith, e) in
        let same : update bits i true k ≡ bits k = update_ne bits i true k ne in
        let rest : count_clear (update bits i true) n (k + 1) + 1 ≡ count_clear bits n (k + 1) =
          count_taken n (k + 1) i (ground (arith, e)) (omega arith) free in
        rw same (omega (arith, rest))
  ]

fewer_32 : (c n : ℕ) → c + 1 ≡ n → n ≤ 128 → decrement 32 n ≡ c
fewer_32 c n h small = omega arith

fewer_16 : (c n : ℕ) → c + 1 ≡ n → n ≤ 128 → decrement 16 n ≡ c
fewer_16 c n h small = omega arith

pub block-IsCounted :
    (d : Image) (i : ℕ) → IsCounted d → IsFirst d.block_bitmap 0 128 i → IsCounted (with_block d i)
block-IsCounted d i (s, g, si, gi) (low, high, free, all) =
    let one = count_taken d.block_bitmap 128 0 i low high free in
    let small = count_bound d.block_bitmap 128 0 in
    let c = count_clear (update d.block_bitmap i true) 128 0 in
    let n = count_clear d.block_bitmap 128 0 in
    (
      ap (decrement 32) s ∙ fewer_32 c n one small,
      ap (decrement 16) g ∙ fewer_16 c n one small,
      si,
      gi,
    )

pub inode-IsCounted :
    (d : Image) (i : ℕ) → IsCounted d → IsFirst d.inode_bitmap 0 32 i → IsCounted (with_inode d i)
inode-IsCounted d i (s, g, si, gi) (low, high, free, all) =
    let one = count_taken d.inode_bitmap 32 0 i low high free in
    let small : count_clear d.inode_bitmap 32 0 ≤ 128 =
      omega (arith, count_bound d.inode_bitmap 32 0) in
    let c = count_clear (update d.inode_bitmap i true) 32 0 in
    let n = count_clear d.inode_bitmap 32 0 in
    (
      s,
      g,
      ap (decrement 32) si ∙ fewer_32 c n one small,
      ap (decrement 16) gi ∙ fewer_16 c n one small,
    )
