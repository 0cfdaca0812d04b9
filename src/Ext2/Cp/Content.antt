-- ===== src/Ext2/Cp/Content.antt =====
-- ext2_cp.c: the content of a copy.
use operating_system_unix_li.Base.{
  ℕ, zero, suc, ◌+◌, ◌-◌, ◌*◌, ◌%◌, ◌^◌, ◌≤◌, ◌<◌, ◌≡◌, ◌≢◌, refl, sym, ap, ◌∙◌, true, false, [],
  ◌∷◌, ◌++◌, inl, inr, ◌&&◌, ◌==◌, ltb, lt→ltb, length, update, update_same, update_ne, arith,
  Bool-cases,
}
use mathlib.Core.List.{append-nil}
use operating_system_unix_li.Ext2.Image.{Text, Image, ok, ◌>>=◌, get_inode, take_bytes}
use operating_system_unix_li.Ext2.Ln.{store_string}
use operating_system_unix_li.Ext2.Cp.{blocks_of, drop_bytes, copy_direct, copy_file}

-- What stands in `k` blocks of an inode from block `i` on.
abbrev pub stored : (ℕ → Text) → (ℕ → ℕ) → ℕ → ℕ → Text
stored strings i_block zero i = []
stored strings i_block (suc k) i = strings (1024 * i_block i) ++ stored strings i_block k (i + 1)

take-drop : (n : ℕ) (cs : Text) → take_bytes n cs ++ drop_bytes n cs ≡ cs
take-drop zero cs = refl
take-drop (suc n) [] = refl
take-drop (suc n) (c ∷ cs) = ap (◌∷◌ c) (take-drop n cs)

length-drop_bytes : (n : ℕ) (cs : Text) → length (drop_bytes n cs) ≡ length cs - n
length-drop_bytes zero cs = omega arith
length-drop_bytes (suc n) [] = omega arith
length-drop_bytes (suc n) (c ∷ cs) = omega (arith, length-drop_bytes n cs)

blocks_of-next : (size : ℕ) → 1024 ≤ size → blocks_of size ≡ suc (blocks_of (size - 1024))
unfolding blocks_of
blocks_of-next size large = elim (Bool-cases (size % 1024 == 0)) [
  | inl e ↦ ground (arith, large, e)
  | inr e ↦ ground (arith, large, e)
]

blocks_of_part : (size : ℕ) → 0 < size → size < 1024 → blocks_of size ≡ 1
unfolding blocks_of
blocks_of_part size low high = ground (arith, low, high)

blocks_of_few : (size : ℕ) → size ≤ 12288 → blocks_of size ≤ 12
unfolding blocks_of
blocks_of_few size fits = ground (arith, fits)

-- The blocks from `i` on are in the image and differ.
pub record AreApart (i_block : ℕ → ℕ) (k i : ℕ) : Type 0 where
  pub inside : (a : ℕ) → i ≤ a → a < i + k → i_block a < 128
  pub apart : (a b : ℕ) → i ≤ a → a < b → b < i + k → i_block a ≢ i_block b

-- No block but those from `i` on has changed.
abbrev Untouched : (ℕ → ℕ) → ℕ → ℕ → (ℕ → Text) → (ℕ → Text) → Type 0
Untouched i_block k i strings strings' =
    (addr : ℕ)
    → ((a : ℕ) → i ≤ a → a < i + k → addr ≢ 1024 * i_block a)
    → strings' addr ≡ strings addr

abbrev with_strings : Image → (ℕ → Text) → Image
with_strings d strings = record d { strings = strings }

module _ (n : ℕ) (in_table : (ltb 0 n && ltb n 33) ≡ true) where
  -- What `copy_direct` leaves, for a file that fits.
  abbrev Copied : ℕ → ℕ → Text → Image → Type 0
  Copied i rounds file d =
      (strings : ℕ → Text) × (copy_direct n i rounds file d ≡ ok [] (with_strings d strings))
      × (stored strings (d.inodes n).i_block (blocks_of (length file)) i ≡ file)
      × Untouched (d.inodes n).i_block (blocks_of (length file)) i d.strings strings

  copy_direct-last :
      (i rounds : ℕ) (file : Text) (d : Image)
      → length file < 1024
      → AreApart (d.inodes n).i_block (blocks_of (length file)) i
      → Copied i (suc rounds) file d
  unfolding copy_direct get_inode store_string blocks_of
  copy_direct-last i rounds [] d short ok_blocks =
      (d.strings, simp (copy_direct, ◌>>=◌, get_inode, in_table) refl, refl, λ addr away. refl)
  copy_direct-last i rounds (c ∷ cs) d short ok_blocks =
      let one : blocks_of (length {A = ℕ} (c ∷ cs)) ≡ 1 =
        blocks_of_part (length {A = ℕ} (c ∷ cs)) (omega arith) short in
      let block : ℕ = (d.inodes n).i_block i in
      let fits : block < 128 = ok_blocks.inside i (omega arith) (omega (arith, one)) in
      let near : ltb (1024 * block) (2 ^ 17) ≡ true =
        lt→ltb (1024 * block) (2 ^ 17) (omega (arith, fits)) in
      let small : ltb (length {A = ℕ} (c ∷ cs)) 1024 ≡ true =
        lt→ltb (length {A = ℕ} (c ∷ cs)) 1024 short in
      let strings : ℕ → Text = update d.strings (1024 * block) (c ∷ cs) in
      (
        strings,
        simp (copy_direct, ◌>>=◌, get_inode, in_table, small, store_string, near) refl,
        ap (λ k. stored strings (d.inodes n).i_block k i) one
            ∙ ap (λ text. text ++ []) (update_same d.strings (1024 * block) (c ∷ cs))
            ∙ append-nil (c ∷ cs),
        λ addr away.
            update_ne d.strings (1024 * block) (c ∷ cs) addr
              (away i (omega arith) (omega (arith, one))),
      )

  copy_direct-next :
      (i rounds c : ℕ) (cs : Text) (d : Image)
      → ltb (length {A = ℕ} (c ∷ cs)) 1024 ≡ false
      → ltb (1024 * (d.inodes n).i_block i) (2 ^ 17) ≡ true
      → copy_direct n i (suc rounds) (c ∷ cs) d
        ≡ copy_direct n (i + 1) rounds (drop_bytes 1024 (c ∷ cs)) (
            with_strings d
              (update d.strings (1024 * (d.inodes n).i_block i) (take_bytes 1024 (c ∷ cs))))
  unfolding copy_direct get_inode store_string
  copy_direct-next i rounds c cs d long near =
      simp (copy_direct, ◌>>=◌, get_inode, in_table, long, store_string, near) refl

  -- The block is written, and the others after it.
  copy_direct_more :
      (rounds i c : ℕ) (cs : Text) (d : Image)
      → ltb (length {A = ℕ} (c ∷ cs)) 1024 ≡ false
      → blocks_of (length {A = ℕ} (c ∷ cs)) ≡ suc (blocks_of (length (drop_bytes 1024 (c ∷ cs))))
      → AreApart (d.inodes n).i_block (blocks_of (length {A = ℕ} (c ∷ cs))) i
      → Copied (i + 1) rounds (drop_bytes 1024 (c ∷ cs)) (
          with_strings d
            (update d.strings (1024 * (d.inodes n).i_block i) (take_bytes 1024 (c ∷ cs))))
      → Copied i (suc rounds) (c ∷ cs) d
  copy_direct_more rounds i c cs d long more apart_ (strings, out, same, untouched) =
      let file : Text = c ∷ cs in
      let rest : Text = drop_bytes 1024 file in
      let i_block : ℕ → ℕ = (d.inodes n).i_block in
      let block : ℕ = i_block i in
      let near : ltb (1024 * block) (2 ^ 17) ≡ true =
        lt→ltb (1024 * block) (2 ^ 17)
          (omega (arith, apart_.inside i (omega arith) (omega (arith, more)))) in
      let here : strings (1024 * block) ≡ take_bytes 1024 file =
        untouched (1024 * block) (λ a low high same_block.
          apart_.apart i a (omega arith) (omega (arith, low)) (omega (arith, high, more))
            (omega (arith, same_block)))
        ∙ update_same d.strings (1024 * block) (take_bytes 1024 file) in
      (
        strings,
        copy_direct-next i rounds c cs d long near ∙ out,
        ap (λ x. stored strings i_block x i) more
            ∙ ap (λ text. text ++ stored strings i_block (blocks_of (length rest)) (i + 1)) here
            ∙ ap (λ text. take_bytes 1024 file ++ text) same
            ∙ take-drop 1024 file,
        λ addr away.
            untouched addr (λ a low high. away a (omega (arith, low)) (omega (arith, high, more)))
            ∙ update_ne d.strings (1024 * block) (take_bytes 1024 file) addr
                (away i (omega arith) (omega (arith, more))),
      )

  copy_direct_lem :
      (rounds i : ℕ) (file : Text) (d : Image)
      → length file ≤ 1024 * rounds
      → AreApart (d.inodes n).i_block (blocks_of (length file)) i
      → Copied i rounds file d
  unfolding copy_direct blocks_of
  copy_direct_lem zero i [] d fits apart_ = (d.strings, refl, refl, λ addr away. refl)
  copy_direct_lem zero i (c ∷ cs) d fits apart_ = absurd (omega (arith, fits))
  copy_direct_lem (suc rounds) i [] d fits apart_ =
      copy_direct-last i rounds [] d (omega arith) apart_
  copy_direct_lem (suc rounds) i (c ∷ cs) d fits apart_ =
      elim (Bool-cases (ltb (length {A = ℕ} (c ∷ cs)) 1024)) [
        | inl short ↦ copy_direct-last i rounds (c ∷ cs) d (ground (arith, short)) apart_
        | inr long ↦
            let len : length (drop_bytes 1024 (c ∷ cs)) ≡ length {A = ℕ} (c ∷ cs) - 1024 =
              length-drop_bytes 1024 (c ∷ cs) in
            let large : 1024 ≤ length {A = ℕ} (c ∷ cs) = ground (arith, long) in
            let more : blocks_of (length {A = ℕ} (c ∷ cs))
                ≡ suc (blocks_of (length (drop_bytes 1024 (c ∷ cs)))) =
              blocks_of-next (length {A = ℕ} (c ∷ cs)) large
              ∙ ap (λ k. suc (blocks_of k)) (sym len) in
            copy_direct_more rounds i c cs d long more apart_ (
              copy_direct_lem rounds (i + 1) (drop_bytes 1024 (c ∷ cs))
                (with_strings d
                  (update d.strings (1024 * (d.inodes n).i_block i) (take_bytes 1024 (c ∷ cs))))
                (omega (arith, len, fits))
                (record {
                  inside = λ a low high.
                      apart_.inside a (omega (arith, low)) (omega (arith, high, more));
                  apart = λ a b low lt high.
                      apart_.apart a b (omega (arith, low)) lt (omega (arith, high, more));
                }))
      ]

  copy_file_few :
      (file_blocks : ℕ) (file : Text) (d d1 : Image)
      → file_blocks ≤ 12
      → copy_direct n 0 12 file d ≡ ok [] d1
      → copy_file n file_blocks file d ≡ ok tt d1
  unfolding copy_file get_inode
  copy_file_few file_blocks file d d1 few out =
      let small : ltb 12 file_blocks ≡ false = ground (arith, few) in
      simp (copy_file, ◌>>=◌, get_inode, in_table, out, small) refl

-- A file of at most 12 blocks, whose blocks are in the image and differ, is copied to them: `copy_file`
-- ends, and the blocks of the inode, one behind the other, hold the bytes of the file.
pub copy_file-stored :
    (n : ℕ) (file : Text) (d : Image)
    → 0 < n
    → n < 33
    → length file ≤ 12288
    → AreApart (d.inodes n).i_block (blocks_of (length file)) 0
    → (strings : ℕ → Text) × (copy_file n (blocks_of (length file)) file d
        ≡ ok tt (record d { strings = strings }))
      × (stored strings (d.inodes n).i_block (blocks_of (length file)) 0 ≡ file)
copy_file-stored n file d low high fits apart_ =
    let in_table : (ltb 0 n && ltb n 33) ≡ true = ground (arith, low, high) in
    let (strings, out, same, untouched) =
      copy_direct_lem n in_table 12 0 file d (omega (arith, fits)) apart_ in
    (
      strings,
      copy_file_few n in_table (blocks_of (length file)) file d (record d { strings = strings })
          (blocks_of_few (length file) fits) out,
      same,
    )
