-- ===== src/Paging/Bitmap.antt =====
-- swap.c: the bitmap that manages the space of the swap file. A word of 32 bits is the list of its
-- bits, the lowest first: bit j of the list is `word & (1 << j)`.
pub mod Space
pub mod Create
pub mod Mark
use operating_system_unix_li.Base.{
  ℕ, zero, suc, ◌+◌, ◌-◌, ◌*◌, ◌/◌, ◌%◌, ◌^◌, Bool, true, false, not, Option, none, some, List, [],
  ◌∷◌, ◌&&◌, ◌==◌, ltb, if◌then◌else◌, get_elem?, set, replicate,
}

abbrev pub Word : Type 0
Word = List Bool

abbrev pub bits_per_word : ℕ
bits_per_word = 32

pub record Bitmap : Type 0 where
  pub nbits : ℕ
  pub v : List Word

-- DIVROUNDUP(a, BITS_PER_WORD) on `unsigned`, where the sum wraps.
unfoldable pub words_for : ℕ → ℕ
words_for nbits = (nbits + bits_per_word - 1) % 2 ^ 32 / bits_per_word

-- `for (j = overbits; j < BITS_PER_WORD; j++) v[ix] |= 1 << j`, with the rounds that are left.
unfoldable pub mark_from : ℕ → ℕ → Word → Word
mark_from zero j w = w
mark_from (suc rounds) j w = mark_from rounds (j + 1) (set w j true)

-- The leftover bits at the end are marked as in use; `none` is a failed assertion.
unfoldable pub mark_leftover : ℕ → List Word → Option (List Word)
unfolding mark_from
mark_leftover nbits v =
    let words = words_for nbits in
    let ix = words - 1 in
    let overbits = nbits - ix * bits_per_word in
    let word : Option Word = get_elem? v ix in
    if ltb (nbits / bits_per_word) words
    then (if nbits / bits_per_word == ix && ltb 0 overbits && ltb overbits bits_per_word
        then elim word [
          | none ↦ none
          | some w ↦ some (set v ix (mark_from (bits_per_word - overbits) overbits w))
        ]
        else none)
    else some v

-- `bitmap_create`: the first argument says whether both calls of malloc give memory. `some none` is a
-- NULL result, and `none` a failed assertion.
unfoldable pub bitmap_create : Bool → ℕ → Option (Option Bitmap)
unfolding mark_leftover
bitmap_create malloc_gives nbits =
    if malloc_gives
    then elim (mark_leftover nbits (replicate (words_for nbits) (replicate bits_per_word false))) [
      | none ↦ none
      | some v ↦ some (some (record { nbits = nbits; v = v }))
    ]
    else some none

-- `word != WORD_ALLBITS` is that not all bits are set.
abbrev pub all_set : Word → Bool
all_set [] = true
all_set (b ∷ w) = b && all_set w

-- The inner loop of `bitmap_alloc`: the first clear bit from `offset` on, and the word with it set.
unfoldable pub scan_word : ℕ → Word → Option (ℕ × Word)
scan_word offset [] = none
scan_word offset (b ∷ w) =
    let rest : Option (ℕ × Word) = elim (scan_word (offset + 1) w) [
      | none ↦ none
      | some (i, w') ↦ some (i, b ∷ w')
    ] in
    if b then rest else some (offset, true ∷ w)

-- The result of `bitmap_alloc`: 1 if there is no space, or the index that is stored.
pub data Alloc : Type 0 where
  no_space : Alloc
  allocated : ℕ → Alloc

-- The outer loop, with the rounds that are left. `none` is a failed assertion or a read behind the
-- last word.
unfoldable pub alloc_loop : ℕ → ℕ → ℕ → List Word → Option (Alloc × List Word)
unfolding scan_word
alloc_loop nbits zero ix v = some (no_space, v)
alloc_loop nbits (suc rounds) ix [] = none
alloc_loop nbits (suc rounds) ix (w ∷ v) =
    let rest : Option (Alloc × List Word) = elim (alloc_loop nbits rounds (ix + 1) v) [
      | none ↦ none
      | some (r, v') ↦ some (r, w ∷ v')
    ] in
    let found : Option (Alloc × List Word) = elim (scan_word 0 w) [
      | none ↦ none
      | some (offset, w') ↦
          if ltb (ix * bits_per_word + offset) nbits
          then some (allocated (ix * bits_per_word + offset), w' ∷ v)
          else none
    ] in
    if all_set w then rest else found

unfoldable pub bitmap_alloc : Bitmap → Option (Alloc × Bitmap)
unfolding alloc_loop
bitmap_alloc b = elim (alloc_loop b.nbits (words_for b.nbits) 0 b.v) [
  | none ↦ none
  | some (r, v) ↦ some (r, record b { v = v })
]

-- The bit that `bitmap_translate` names, if the word is there.
unfoldable pub bitmap_isset : Bitmap → ℕ → Option Bool
bitmap_isset b index = elim (get_elem? b.v (index / bits_per_word)) [
  | none ↦ none
  | some w ↦ get_elem? w (index % bits_per_word)
]

unfoldable pub write_bit : Bitmap → ℕ → Bool → Option Bitmap
write_bit b index bit = elim (get_elem? b.v (index / bits_per_word)) [
  | none ↦ none
  | some w ↦
      some (record b { v = set b.v (index / bits_per_word) (set w (index % bits_per_word) bit) })
]

abbrev pub is_bit : Bool → Option Bool → Bool
is_bit b none = false
is_bit true (some c) = c
is_bit false (some c) = not c

-- `none` where an assertion fails.
unfoldable pub bitmap_mark : Bitmap → ℕ → Option Bitmap
unfolding bitmap_isset write_bit
bitmap_mark b index =
    if ltb index b.nbits && is_bit false (bitmap_isset b index)
    then write_bit b index true
    else none

unfoldable pub bitmap_unmark : Bitmap → ℕ → Option Bitmap
unfolding bitmap_isset write_bit
bitmap_unmark b index =
    if ltb index b.nbits && is_bit true (bitmap_isset b index)
    then write_bit b index false
    else none
