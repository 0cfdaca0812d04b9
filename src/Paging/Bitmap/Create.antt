-- ===== src/Paging/Bitmap/Create.antt =====
-- swap.c, `bitmap_create`: every page of the swap file is free at first.
use operating_system_unix_li.Base.{
  ℕ, zero, suc, ◌+◌, ◌-◌, ◌*◌, ◌/◌, ◌%◌, ◌^◌, ◌<◌, ◌≡◌, refl, sym, ap, ◌∙◌, subst, Bool, true,
  false, some, List, [], ◌∷◌, ◌++◌, inl, inr, ◌==◌, lt→ltb, get_elem?, set, replicate, length,
  length-append, arith, Bool-cases, length-set,
}
use native.Mathlib.Nat.{zero-add, suc-add, zero-mul, suc-mul, add_comm}
use mathlib.Core.List.{append-nil, append_assoc}
use operating_system_unix_li.Paging.Bitmap.{
  Word, Bitmap, words_for, mark_from, mark_leftover, bitmap_create,
}
use operating_system_unix_li.Paging.Bitmap.Space.{flat, AreWords, Tracks}

replicate-add {ℓ} :
    {A : Type ℓ} (m n : ℕ) (a : A) → replicate (m + n) a ≡ replicate m a ++ replicate n a
replicate-add zero n a = rw zero-add
replicate-add (suc m) n a = rw (suc-add, replicate-add m n a)

length-replicate {ℓ} : {A : Type ℓ} (n : ℕ) (a : A) → length (replicate n a) ≡ n
length-replicate zero a = refl
length-replicate (suc n) a = ap suc (length-replicate n a)

set-middle : (xs ys : List Bool) → set (xs ++ false ∷ ys) (length xs) true ≡ (xs ++ true ∷ []) ++ ys
set-middle [] ys = refl
set-middle (x ∷ xs) ys = ap (◌∷◌ x) (set-middle xs ys)

length-snoc : (xs : List Bool) (b : Bool) → length (xs ++ b ∷ []) ≡ length xs + 1
length-snoc [] b = omega arith
length-snoc (x ∷ xs) b = omega (arith, length-snoc xs b)

mark_from_lem :
    (rounds : ℕ) (xs : List Bool)
    → mark_from rounds (length xs) (xs ++ replicate rounds false) ≡ xs ++ replicate rounds true
unfolding mark_from
mark_from_lem zero xs = refl
mark_from_lem (suc rounds) xs =
    rw (set-middle xs (replicate rounds false), ← length-snoc xs true)
      (mark_from_lem rounds (xs ++ true ∷ []) ∙ append_assoc xs (true ∷ []) (replicate rounds true))

-- A table of `n` equal words, and one more.
flat-replicate : (n k : ℕ) → flat (replicate n (replicate k false)) ≡ replicate (n * k) false
flat-replicate zero k = rw zero-mul
flat-replicate (suc n) k =
    ap (◌++◌ (replicate k false)) (flat-replicate n k)
    ∙ sym (replicate-add k (n * k) false)
    ∙ rw (suc-mul, add_comm)

AreWords-replicate : (n : ℕ) (w : Word) → length w ≡ 32 → AreWords (replicate n w)
AreWords-replicate zero w h = tt
AreWords-replicate (suc n) w h = (h, AreWords-replicate n w h)

module _ (w w' : Word) where
  get-last : (n : ℕ) → get_elem? (replicate (suc n) w) n ≡ some w
  get-last zero = refl
  get-last (suc n) = get-last n

  flat-set_last : (n : ℕ) → flat (set (replicate (suc n) w) n w') ≡ flat (replicate n w) ++ w'
  flat-set_last zero = append-nil w'
  flat-set_last (suc n) =
      ap (◌++◌ w) (flat-set_last n) ∙ sym (append_assoc w (flat (replicate n w)) w')

  AreWords-set_last :
      (n : ℕ) → length w ≡ 32 → length w' ≡ 32 → AreWords (set (replicate (suc n) w) n w')
  AreWords-set_last zero h h' = (h', tt)
  AreWords-set_last (suc n) h h' = (h, AreWords-set_last n h h')

mark_leftover_whole :
    (q : ℕ) (v : List Word) → q * 32 + 31 < 2 ^ 32 → mark_leftover (q * 32) v ≡ some v
unfolding mark_leftover words_for
mark_leftover_whole q v small = ground arith

words_for_lem :
    (q r : ℕ) → 0 < r → r < 32 → q * 32 + r + 31 < 2 ^ 32 → words_for (q * 32 + r) ≡ suc q
unfolding words_for
words_for_lem q r low high small = omega arith

words_for-whole : (q : ℕ) → q * 32 + 31 < 2 ^ 32 → words_for (q * 32) ≡ q
unfolding words_for
words_for-whole q small = omega arith

mark_leftover_part :
    (q r : ℕ) (w : Word) (v : List Word)
    → 0 < r
    → r < 32
    → q * 32 + r + 31 < 2 ^ 32
    → get_elem? v q ≡ some w
    → mark_leftover (q * 32 + r) v ≡ some (set v q (mark_from (32 - r) r w))
unfolding mark_leftover
mark_leftover_part q r w v low high small last =
    let whole : (q * 32 + r) / 32 ≡ q = omega arith in
    let index : suc q - 1 ≡ q = omega arith in
    let over : q * 32 + r - q * 32 ≡ r = omega arith in
    let words : words_for (q * 32 + r) ≡ suc q = words_for_lem q r low high small in
    rw (mark_leftover, words, whole, index, over, last, words, index, over)
      (ground (arith, lt→ltb 0 r low, lt→ltb r 32 high))

-- The word that holds the leftover bits: `r` pages, and `m` bits that stand for none.
mark_from_word :
    (r m : ℕ) → mark_from m r (replicate (r + m) false) ≡ replicate r false ++ replicate m true
mark_from_word r m = rw (replicate-add r m false) (
    ap (λ k. mark_from m k (replicate r false ++ replicate m false))
      (sym (length-replicate r false))
    ∙ mark_from_lem m (replicate r false))

bitmap_create_out :
    (nbits : ℕ) (v : List Word)
    → mark_leftover nbits (replicate (words_for nbits) (replicate 32 false)) ≡ some v
    → bitmap_create true nbits ≡ some (some (record { nbits = nbits; v = v }))
unfolding bitmap_create
bitmap_create_out nbits v h = rw (bitmap_create, h) refl

abbrev Fresh : ℕ → Type 0
Fresh nbits =
    (b : Bitmap) × (bitmap_create true nbits ≡ some (some b)) × Tracks (replicate nbits false) b

bitmap_create_whole : (q : ℕ) → q * 32 + 31 < 2 ^ 32 → Fresh (q * 32)
bitmap_create_whole q small =
    let words : words_for (q * 32) ≡ q = words_for-whole q small in
    let none_left : 0 ≡ words_for (q * 32) * 32 - q * 32 = omega (arith, words) in
    let v : List Word = replicate q (replicate 32 false) in
    (
      record { nbits = q * 32; v = v },
      bitmap_create_out (q * 32) v (rw words (mark_leftover_whole q v small)),
      record {
        counted = length-replicate (q * 32) false;
        small = small;
        all_words = length-replicate q (replicate 32 false) ∙ sym words;
        words = AreWords-replicate q (replicate 32 false) refl;
        bits =
            flat-replicate q 32
            ∙ sym (append-nil (replicate (q * 32) false))
            ∙ ap (λ k. replicate (q * 32) false ++ replicate k true) none_left;
      },
    )

bitmap_create_part : (q r : ℕ) → 0 < r → r < 32 → q * 32 + r + 31 < 2 ^ 32 → Fresh (q * 32 + r)
bitmap_create_part q r low high small =
    let words : words_for (q * 32 + r) ≡ suc q = words_for_lem q r low high small in
    let w : Word = replicate 32 false in
    let w' : Word = mark_from (32 - r) r w in
    let out : words_for (q * 32 + r) * 32 - (q * 32 + r) ≡ 32 - r = omega (arith, words) in
    let v : List Word = set (replicate (suc q) w) q w' in
    let word : r + (32 - r) ≡ 32 = omega arith in
    let shape : w' ≡ replicate r false ++ replicate (32 - r) true =
      subst
        (λ n.
          mark_from (32 - r) r (replicate n false) ≡ replicate r false ++ replicate (32 - r) true)
        word (mark_from_word r (32 - r)) in
    (
      record { nbits = q * 32 + r; v = v },
      bitmap_create_out (q * 32 + r) v (
          rw words
            (mark_leftover_part q r w (replicate (suc q) w) low high small (get-last w w' q))),
      record {
        counted = length-replicate (q * 32 + r) false;
        small = small;
        all_words = length-set (replicate (suc q) w) q w' ∙ length-replicate (suc q) w ∙ sym words;
        words = AreWords-set_last w w' q refl (
            ap length shape
            ∙ length-append (replicate r false) (replicate (32 - r) true)
            ∙ omega (arith, length-replicate r false, length-replicate (32 - r) true));
        bits =
            flat-set_last w w' q
            ∙ ap (λ bs. bs ++ w') (flat-replicate q 32)
            ∙ ap (◌++◌ (replicate (q * 32) false)) shape
            ∙ sym (
                append_assoc (replicate (q * 32) false) (replicate r false)
                  (replicate (32 - r) true))
            ∙ rw (out, replicate-add (q * 32) r false) refl;
      },
    )

-- `bitmap_create` on a swap file of fewer than 2^32 - 31 pages: if malloc gives memory then no
-- assertion fails, and in the bitmap every page of the swap file is free.
pub bitmap_create-Tracks :
    (nbits : ℕ)
    → nbits + 31 < 2 ^ 32
    → (b : Bitmap) × (bitmap_create true nbits ≡ some (some b)) × Tracks (replicate nbits false) b
bitmap_create-Tracks nbits small =
    let split : nbits / 32 * 32 + nbits % 32 ≡ nbits = omega arith in
    elim (Bool-cases (nbits % 32 == 0)) [
      | inl e ↦ subst Fresh (ground arith) (bitmap_create_whole (nbits / 32) (omega arith))
      | inr e ↦
          subst Fresh split (
            bitmap_create_part (nbits / 32) (nbits % 32) (ground arith) (omega arith) (omega arith))
    ]
