-- ===== src/Paging/Bitmap/Mark.antt =====
-- swap.c: bitmap_mark, bitmap_unmark and bitmap_isset on one page of the swap file.
use operating_system_unix_li.Base.{
  ℕ, zero, suc, ◌/◌, ◌%◌, ◌<◌, ◌≡◌, refl, sym, ap, ◌∙◌, Bool, true, false, some, List, [], ◌∷◌, inl,
  inr, lt→ltb, get_elem?, set, get-set_same, Option-cases,
}
use operating_system_unix_li.Paging.Bitmap.{
  Word, Bitmap, bitmap_isset, write_bit, bitmap_mark, bitmap_unmark,
}

module _ {ℓ} {A : Type ℓ} where
  set-set : (xs : List A) (i : ℕ) (a b : A) → set (set xs i a) i b ≡ set xs i b
  set-set [] i a b = refl
  set-set (x ∷ xs) zero a b = refl
  set-set (x ∷ xs) (suc i) a b = ap (◌∷◌ x) (set-set xs i a b)

  set-get : (xs : List A) (i : ℕ) (a : A) → get_elem? xs i ≡ some a → set xs i a ≡ xs
  set-get [] i a h = refl
  set-get (x ∷ xs) zero a h = ap (λ y. y ∷ xs) (cc h)
  set-get (x ∷ xs) (suc i) a h = ap (◌∷◌ x) (set-get xs i a h)

module _ (b : Bitmap) (index : ℕ) (w : Word) (there : get_elem? b.v (index / 32) ≡ some w) where
  write_bit_at :
      (bit : Bool)
      → write_bit b index bit
        ≡ some (record b { v = set b.v (index / 32) (set w (index % 32) bit) })
  unfolding write_bit
  write_bit_at bit = simp (write_bit, there) refl

  isset_at : bitmap_isset b index ≡ get_elem? w (index % 32)
  unfolding bitmap_isset
  isset_at = simp (bitmap_isset, there) refl

isset_word :
    (b : Bitmap) (index : ℕ) (bit : Bool)
    → bitmap_isset b index ≡ some bit
    → (w : Word) × (get_elem? b.v (index / 32) ≡ some w)
unfolding bitmap_isset
isset_word b index bit h = elim (Option-cases (get_elem? b.v (index / 32))) [
  | inl e ↦ cc (simp (bitmap_isset, e) at h)
  | inr (w, e) ↦ (w, e)
]

mark_at :
    (b b' : Bitmap) (index : ℕ)
    → index < b.nbits
    → bitmap_isset b index ≡ some false
    → write_bit b index true ≡ some b'
    → bitmap_mark b index ≡ some b'
unfolding bitmap_mark
mark_at b b' index inside clear wrote =
    simp (bitmap_mark, lt→ltb index b.nbits inside, clear, wrote) refl

unmark_at :
    (b b' : Bitmap) (index : ℕ)
    → index < b.nbits
    → bitmap_isset b index ≡ some true
    → write_bit b index false ≡ some b'
    → bitmap_unmark b index ≡ some b'
unfolding bitmap_unmark
unmark_at b b' index inside marked wrote =
    simp (bitmap_unmark, lt→ltb index b.nbits inside, marked, wrote) refl

-- A page of the swap file that is free can be marked, is in use afterwards, and `bitmap_unmark` takes
-- the mark back: the bitmap is the one before.
pub bitmap_mark-unmark :
    (b : Bitmap) (index : ℕ)
    → index < b.nbits
    → bitmap_isset b index ≡ some false
    → (b' : Bitmap) × (bitmap_mark b index ≡ some b')
      × (bitmap_isset b' index ≡ some true)
      × (bitmap_unmark b' index ≡ some b)
bitmap_mark-unmark b index inside clear =
    let (w, there) = isset_word b index false clear in
    let off : get_elem? w (index % 32) ≡ some false = sym (isset_at b index w there) ∙ clear in
    let w' : Word = set w (index % 32) true in
    let b' : Bitmap = record b { v = set b.v (index / 32) w' } in
    let there' : get_elem? b'.v (index / 32) ≡ some w' = get-set_same b.v (index / 32) w w' there in
    let marked : bitmap_isset b' index ≡ some true =
      isset_at b' index w' there' ∙ get-set_same w (index % 32) false true off in
    let back : set b'.v (index / 32) (set w' (index % 32) false) ≡ b.v =
      set-set b.v (index / 32) w' (set w' (index % 32) false)
      ∙ ap (set b.v (index / 32))
          (set-set w (index % 32) true false ∙ set-get w (index % 32) false off)
      ∙ set-get b.v (index / 32) w there in
    (
      b',
      mark_at b b' index inside clear (write_bit_at b index w there true),
      marked,
      unmark_at b' b index inside marked
          (write_bit_at b' index w' there' false ∙ ap (λ v. some (record b { v = v })) back),
    )
