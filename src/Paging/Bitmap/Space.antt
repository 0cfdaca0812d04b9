-- ===== src/Paging/Bitmap/Space.antt =====
-- swap.c, the bitmap against a plain list that says which page of the swap file is in use.
use operating_system_unix_li.Base.{
  ℕ, zero, suc, ◌+◌, ◌-◌, ◌*◌, ◌^◌, ◌<◌, ◌≡◌, refl, ap, ◌∙◌, Bool, true, false, Option, none, some,
  List, [], ◌∷◌, ◌++◌, ◌⊎◌, inl, inr, lt→ltb, get_elem?, set, replicate, length, length-set, arith,
  Option-cases,
}
use operating_system_unix_li.Paging.Bitmap.{
  Word, Bitmap, words_for, all_set, scan_word, no_space, allocated, alloc_loop, bitmap_alloc,
}

-- The first free place is taken.
unfoldable pub claim : List Bool → Option (ℕ × List Bool)
claim [] = none
claim (true ∷ bs) = elim (claim bs) [ none ↦ none | some (i, cs) ↦ some (suc i, true ∷ cs) ]
claim (false ∷ bs) = some (0, true ∷ bs)

abbrev pub flat : List Word → List Bool
flat [] = []
flat (w ∷ v) = w ++ flat v

abbrev pub AreWords : List Word → Type 0
AreWords [] = Unit
AreWords (w ∷ v) = (length w ≡ 32) × AreWords v

-- `used` says of each page of the swap file whether it is in use; the bits behind are set.
pub record Tracks (used : List Bool) (b : Bitmap) : Type 0 where
  pub counted : length used ≡ b.nbits
  pub small : b.nbits + 31 < 2 ^ 32
  pub all_words : length b.v ≡ words_for b.nbits
  pub words : AreWords b.v
  pub bits : flat b.v ≡ used ++ replicate (words_for b.nbits * 32 - b.nbits) true

claim-replicate : (n : ℕ) → claim (replicate n true) ≡ none
unfolding claim
claim-replicate zero = refl
claim-replicate (suc n) = rw (claim-replicate n)

claim-append_none :
    (xs ys : List Bool)
    → claim xs ≡ none
    → claim (xs ++ ys)
      ≡ elim (claim ys) [ none ↦ none | some (i, zs) ↦ some (length xs + i, xs ++ zs) ]
unfolding claim
claim-append_none [] ys h = elim (Option-cases (claim ys)) [
  | inl e ↦ rw e
  | inr ((i, zs), e) ↦ rw e (ground arith)
]
claim-append_none (true ∷ xs) ys h = ground (arith, claim-append_none xs ys)
claim-append_none (false ∷ xs) ys h = cc

claim-append_some :
    (xs ys : List Bool) (i : ℕ) (zs : List Bool)
    → claim xs ≡ some (i, zs)
    → claim (xs ++ ys) ≡ some (i, zs ++ ys)
unfolding claim
claim-append_some [] ys i zs h = cc
claim-append_some (true ∷ xs) ys i zs h = elim (Option-cases (claim xs)) [
  | inl e ↦ cc (rw e at h)
  | inr ((j, us), e) ↦ ground (arith, claim-append_some xs ys j us e, e)
]
claim-append_some (false ∷ xs) ys i zs h = ground arith

-- What is claimed was free, and nothing else changes.
pub claim_lem :
    (bs : List Bool) (i : ℕ) (cs : List Bool)
    → claim bs ≡ some (i, cs)
    → (i < length bs) × (get_elem? bs i ≡ some false) × (cs ≡ set bs i true)
unfolding claim
claim_lem [] i cs h = cc
claim_lem (true ∷ bs) i cs h = elim (Option-cases (claim bs)) [
  | inl e ↦ cc (rw e at h)
  | inr ((j, ds), e) ↦ ground (arith, claim_lem bs j ds e, e)
]
claim_lem (false ∷ bs) i cs h = ground arith

scan_word_lem :
    (offset : ℕ) (w : Word)
    → scan_word offset w ≡ elim (claim w) [ none ↦ none | some (i, w') ↦ some (offset + i, w') ]
unfolding scan_word claim
scan_word_lem offset [] = refl
scan_word_lem offset (true ∷ w) = ground (arith, scan_word_lem (offset + 1) w)
scan_word_lem offset (false ∷ w) = ground arith

all_set-claim : (w : Word) → all_set w ≡ elim (claim w) [ none ↦ true | some c ↦ false ]
unfolding claim
all_set-claim [] = refl
all_set-claim (true ∷ w) = ground (arith, all_set-claim w)
all_set-claim (false ∷ w) = refl

length-claim :
    (bs : List Bool) (i : ℕ) (cs : List Bool) → claim bs ≡ some (i, cs) → length cs ≡ length bs
length-claim bs i cs h = ap length (claim_lem bs i cs h).2 ∙ length-set bs i true

-- The two loops on the words claim what `claim` does on the flat list.
alloc_loop_full :
    (nbits ix : ℕ) (v : List Word)
    → claim (flat v) ≡ none
    → alloc_loop nbits (length v) ix v ≡ some (no_space, v)
unfolding alloc_loop
alloc_loop_full nbits ix [] h = refl
alloc_loop_full nbits ix (w ∷ v) h = elim (Option-cases (claim w)) [
  | inr ((j, w'), e) ↦ cc (claim-append_some w (flat v) j w' e)
  | inl e ↦ elim (Option-cases (claim (flat v))) [
    | inl g ↦ ground (arith, all_set-claim w, e, alloc_loop_full nbits (ix + 1) v g)
    | inr ((j, zs), g) ↦ absurd (ground (arith, claim-append_none w (flat v) e, g))
  ]
]

-- A word with a clear bit.
alloc_loop_here :
    (nbits ix j : ℕ) (w w' : Word) (v : List Word)
    → claim w ≡ some (j, w')
    → ix * 32 + j < nbits
    → alloc_loop nbits (suc (length v)) ix (w ∷ v) ≡ some (allocated (ix * 32 + j), w' ∷ v)
unfolding alloc_loop
alloc_loop_here nbits ix j w w' v e lt =
    ground (arith, all_set-claim w, scan_word_lem 0 w, e, lt→ltb (ix * 32 + j) nbits lt)

-- A word that is full.
alloc_loop_later :
    (nbits ix j : ℕ) (w : Word) (v v' : List Word)
    → claim w ≡ none
    → alloc_loop nbits (length v) (ix + 1) v ≡ some (allocated j, v')
    → alloc_loop nbits (suc (length v)) ix (w ∷ v) ≡ some (allocated j, w ∷ v')
unfolding alloc_loop
alloc_loop_later nbits ix j w v v' e g = ground (arith, all_set-claim w, e, g)

alloc_loop_claims :
    (nbits ix : ℕ) (v : List Word) (i : ℕ) (cs : List Bool)
    → AreWords v
    → claim (flat v) ≡ some (i, cs)
    → ix * 32 + i < nbits
    → (v' : List Word) × (alloc_loop nbits (length v) ix v ≡ some (allocated (ix * 32 + i), v'))
      × (flat v' ≡ cs)
      × (length v' ≡ length v)
      × AreWords v'
unfolding claim
alloc_loop_claims nbits ix [] i cs a h lt = absurd (cc h)
alloc_loop_claims nbits ix (w ∷ v) i cs a h lt = elim (Option-cases (claim w)) [
  | inl full ↦ elim (Option-cases (claim (flat v))) [
    | inl g ↦ absurd (ground (arith, claim-append_none w (flat v) full, g, h))
    | inr ((j, ds), g) ↦
        let at : (length w + j ≡ i) × (w ++ ds ≡ cs) = (
          ground (arith, claim-append_none w (flat v) full, g, h),
          ground (arith, claim-append_none w (flat v) full, g, h),
        ) in
        let (v', out, bits, len, words) =
          alloc_loop_claims nbits (ix + 1) v j ds a.1 g (ground (arith, at)) in
        (
          w ∷ v',
          alloc_loop_later nbits ix (ix * 32 + i) w v v' full (ground (arith, at, out)),
          ground (arith, at, bits),
          omega (arith, len),
          (a.0, words),
        )
  ]
  | inr ((j, w'), e) ↦
      let at : (j ≡ i) × (w' ++ flat v ≡ cs) = (
        ground (arith, claim-append_some w (flat v) j w' e, h),
        ground (arith, claim-append_some w (flat v) j w' e, h),
      ) in
      (
        w' ∷ v,
        ground (arith, at, alloc_loop_here nbits ix j w w' v e),
        ground (arith, at),
        refl,
        (length-claim w j w' e ∙ a.0, a.1),
      )
]

bitmap_alloc_at :
    (b : Bitmap) (i : ℕ) (v' : List Word)
    → length b.v ≡ words_for b.nbits
    → alloc_loop b.nbits (length b.v) 0 b.v ≡ some (allocated (0 * 32 + i), v')
    → bitmap_alloc b ≡ some (allocated i, record b { v = v' })
unfolding bitmap_alloc
bitmap_alloc_at b i v' len out = rw (bitmap_alloc, ← len, out, bitmap_alloc) (ground arith)

-- `bitmap_alloc` claims the first free page of the swap file and marks it, and reports that there is
-- no space exactly if there is none; none of its assertions fails, and the bits behind the last page
-- are never handed out.
pub bitmap_alloc-claims :
    (used : List Bool) (b : Bitmap)
    → Tracks used b
    → ((claim used ≡ none) × (bitmap_alloc b ≡ some (no_space, b)))
      ⊎ ((i : ℕ) × (used' : List Bool) × (b' : Bitmap) × (claim used ≡ some (i, used'))
          × (bitmap_alloc b ≡ some (allocated i, b'))
          × Tracks used' b')
unfolding bitmap_alloc
bitmap_alloc-claims used b t =
    let pad : List Bool = replicate (words_for b.nbits * 32 - b.nbits) true in
    elim (Option-cases (claim used)) [
      | inl e ↦
          let all : claim (flat b.v) ≡ none =
            ap claim t.bits
            ∙ claim-append_none used pad e
            ∙ ground (arith, claim-replicate (words_for b.nbits * 32 - b.nbits)) in
          inl (e, rw (bitmap_alloc, ← t.all_words, alloc_loop_full b.nbits 0 b.v all, bitmap_alloc))
      | inr ((i, used'), e) ↦
          let some_bit : claim (flat b.v) ≡ some (i, used' ++ pad) =
            ap claim t.bits ∙ claim-append_some used pad i used' e in
          let (lt, free, same) = claim_lem used i used' e in
          let (v', out, bits, len, words) =
            alloc_loop_claims b.nbits 0 b.v i (used' ++ pad) t.words some_bit
              (omega (arith, t.counted)) in
          inr (
            i,
            used',
            record b { v = v' },
            e,
            bitmap_alloc_at b i v' t.all_words out,
            record {
              counted = length-claim used i used' e ∙ t.counted;
              small = t.small;
              all_words = len ∙ t.all_words;
              words = words;
              bits = bits;
            },
          )
    ]
