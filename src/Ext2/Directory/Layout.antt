-- ===== src/Ext2/Directory/Layout.antt =====
-- The entries of a directory as lists, one for each block, and the search for a name in them.
use operating_system_unix_li.Base.{
  ℕ, zero, suc, ◌+◌, ◌-◌, ◌*◌, ◌%◌, ◌^◌, ◌<◌, ◌≤◌, ◌≡◌, ◌≢◌, refl, ap, ◌∙◌, Bool, true, false,
  Option, none, some, List, [], ◌∷◌, inl, inr, ◌==◌, lt→ltb, if◌then◌else◌, length, arith,
  Bool-cases,
}
use operating_system_unix_li.Ext2.Image.{Entry}
use operating_system_unix_li.Ext2.Directory.{Found, found, absent, scan, scan_dir}

-- The entries fill the `left` bytes from `addr` on, one behind the other.
abbrev pub IsBlock : (ℕ → Entry) → ℕ → ℕ → List Entry → Type 0
IsBlock entries addr left [] = left ≡ 0
IsBlock entries addr left (e ∷ es) =
    (entries addr ≡ e)
    × (0 < e.rec_len)
    × (e.rec_len ≤ left)
    × IsBlock entries (addr + e.rec_len) (left - e.rec_len) es

-- The blocks of a directory from the `k`-th on, all of them on the disk.
abbrev pub IsDir : (ℕ → Entry) → (ℕ → ℕ) → ℕ → List (List Entry) → Type 0
IsDir entries blocks k [] = Unit
IsDir entries blocks k (es ∷ ess) =
    (blocks k < 128) × IsBlock entries (1024 * blocks k) 1024 es × IsDir entries blocks (suc k) ess

module _ (hit : Entry → Bool) where
  -- The first entry that is wanted, with its address.
  abbrev pub locate : ℕ → List Entry → Option (ℕ × Entry)
  locate addr [] = none
  locate addr (e ∷ es) = if hit e then some (addr, e) else locate (addr + e.rec_len) es

  abbrev pub locate_in : (ℕ → ℕ) → ℕ → List (List Entry) → Option (ℕ × Entry)
  locate_in blocks k [] = none
  locate_in blocks k (es ∷ ess) = elim (locate (1024 * blocks k) es) [
    | none ↦ locate_in blocks (suc k) ess
    | some p ↦ some p
  ]

abbrev pub outcome : ℕ → Option (ℕ × Entry) → Found
outcome n none = absent n
outcome n (some (addr, e)) = found addr e

module _ (hit : Entry → Bool) (blocks : ℕ → ℕ) (entries : ℕ → Entry) (total : ℕ) where
  scan_end :
      (rounds k addr size : ℕ)
      → total ≤ size
      → scan hit blocks entries total rounds k addr size ≡ absent k
  unfolding scan
  scan_end zero k addr size h = ground arith
  scan_end (suc rounds) k addr size h = ground arith

  module _ (rounds k addr size : ℕ) (e : Entry) (more : size < total) (mapped : addr < 2 ^ 17)
      (there : entries addr ≡ e) where
    scan_hit : hit e ≡ true → scan hit blocks entries total (suc rounds) k addr size ≡ found addr e
    unfolding scan
    scan_hit h = simp (lt→ltb size total more, lt→ltb addr (2 ^ 17) mapped, there, h) refl

    scan_inside :
        hit e ≡ false
        → ((size + e.rec_len) % 1024 == 0) ≡ false
        → scan hit blocks entries total (suc rounds) k addr size
          ≡ scan hit blocks entries total rounds k (addr + e.rec_len) (size + e.rec_len)
    unfolding scan
    scan_inside h inside =
        simp (lt→ltb size total more, lt→ltb addr (2 ^ 17) mapped, there, h, inside) refl

    scan_over :
        hit e ≡ false
        → ((size + e.rec_len) % 1024 == 0) ≡ true
        → scan hit blocks entries total (suc rounds) k addr size
          ≡ scan hit blocks entries total rounds (k + 1) (1024 * blocks (k + 1)) (size + e.rec_len)
    unfolding scan
    scan_over h over =
        simp (lt→ltb size total more, lt→ltb addr (2 ^ 17) mapped, there, h, over) refl

-- What is left to pass: the rest of a block and the blocks behind it.
abbrev rest_of :
    (Entry → Bool) → (ℕ → ℕ) → ℕ → ℕ → List Entry → List (List Entry) → Option (ℕ × Entry)
rest_of hit blocks k addr es ess = elim (locate hit addr es) [
  | none ↦ locate_in hit blocks (suc k) ess
  | some p ↦ some p
]

module _ (hit : Entry → Bool) (addr : ℕ) (e : Entry) where
  pub locate_hit : (es : List Entry) → hit e ≡ true → locate hit addr (e ∷ es) ≡ some (addr, e)
  locate_hit es h = rw h refl

  pub locate_miss :
      (es : List Entry)
      → hit e ≡ false
      → locate hit addr (e ∷ es) ≡ locate hit (addr + e.rec_len) es
  locate_miss es h = rw h refl

module _ (hit : Entry → Bool) (blocks : ℕ → ℕ) (k addr : ℕ) (e : Entry) where
  rest_hit :
      (es : List Entry) (ess : List (List Entry))
      → hit e ≡ true
      → some (addr, e) ≡ rest_of hit blocks k addr (e ∷ es) ess
  rest_hit es ess h = ground (arith, locate_hit hit addr e es h)

  rest_miss :
      (es : List Entry) (ess : List (List Entry))
      → hit e ≡ false
      → rest_of hit blocks k (addr + e.rec_len) es ess ≡ rest_of hit blocks k addr (e ∷ es) ess
  rest_miss es ess h = ground (arith, locate_miss hit addr e es h)

pub at_end : (x n : ℕ) → x ≡ 1024 * n → (x % 1024 == 0) ≡ true
at_end x n h = let zero_left : x % 1024 ≡ 0 = omega arith in ground arith

pub not_at_end : (x n : ℕ) → 1024 * n < x → x < 1024 * (n + 1) → (x % 1024 == 0) ≡ false
not_at_end x n low high = let some_left : x % 1024 ≢ 0 = omega arith in ground arith

scan-locate_from :
    (hit : Entry → Bool) (blocks : ℕ → ℕ) (entries : ℕ → Entry) (ess : List (List Entry))
    (es : List Entry) (rounds k addr left size total : ℕ)
    → 0 < left
    → left ≤ 1024
    → size + left ≡ 1024 * (k + 1)
    → total ≡ size + left + 1024 * length ess
    → total ≤ size + rounds
    → addr + left ≤ 2 ^ 17
    → IsBlock entries addr left es
    → IsDir entries blocks (suc k) ess
    → scan hit blocks entries total rounds k addr size
      ≡ outcome (suc k + length ess) (rest_of hit blocks k addr es ess)
scan-locate_from hit blocks entries ess [] rounds k addr left size total pos small at all enough
      mapped b bs =
    absurd (omega (arith, b))
scan-locate_from hit blocks entries ess (e ∷ es) zero k addr left size total pos small at all enough
      mapped b bs =
    absurd (omega arith)
scan-locate_from hit blocks entries ess (e ∷ e2 ∷ es) (suc rounds) k addr left size total pos small
      at all enough mapped (there, long, fits, b) bs =
    let more : size < total = omega arith in
    let inside : addr < 2 ^ 17 = omega arith in
    elim (Bool-cases (hit e)) [
      | inl h ↦
          scan_hit hit blocks entries total rounds k addr size e more inside there h
          ∙ ap (outcome (suc k + length ess)) (rest_hit hit blocks k addr e (e2 ∷ es) ess h)
      | inr h ↦
          scan_inside hit blocks entries total rounds k addr size e more inside there h
            (not_at_end (size + e.rec_len) k (omega arith) (omega (arith, b.1, b.2)))
          ∙ scan-locate_from hit blocks entries ess (e2 ∷ es) rounds k (addr + e.rec_len)
              (left - e.rec_len) (size + e.rec_len) total (omega (arith, b.1, b.2)) (omega arith)
              (omega arith) (omega arith) (omega arith) (omega arith) b bs
          ∙ ap (outcome (suc k + length ess)) (rest_miss hit blocks k addr e (e2 ∷ es) ess h)
    ]
scan-locate_from hit blocks entries [] (e ∷ []) (suc rounds) k addr left size total pos small at all
      enough mapped (there, long, fits, b) bs =
    let more : size < total = omega arith in
    let inside : addr < 2 ^ 17 = omega arith in
    elim (Bool-cases (hit e)) [
      | inl h ↦
          scan_hit hit blocks entries total rounds k addr size e more inside there h
          ∙ ap (outcome (suc k + 0)) (rest_hit hit blocks k addr e [] [] h)
      | inr h ↦
          scan_over hit blocks entries total rounds k addr size e more inside there h
            (at_end (size + e.rec_len) (k + 1) (omega (arith, b)))
          ∙ scan_end hit blocks entries total rounds (k + 1) (1024 * blocks (k + 1))
              (size + e.rec_len) (omega (arith, b))
          ∙ ap absent (omega arith)
          ∙ ap (outcome (suc k + 0)) (rest_miss hit blocks k addr e [] [] h)
    ]
scan-locate_from hit blocks entries (es' ∷ ess) (e ∷ []) (suc rounds) k addr left size total pos
      small at all enough mapped (there, long, fits, b) (on_disk, b', bs) =
    let more : size < total = omega arith in
    let inside : addr < 2 ^ 17 = omega arith in
    let next : k + 1 ≡ suc k = omega arith in
    let count : suc (suc k) + length ess ≡ suc k + suc (length ess) = omega arith in
    elim (Bool-cases (hit e)) [
      | inl h ↦
          scan_hit hit blocks entries total rounds k addr size e more inside there h
          ∙ ap (outcome (suc k + suc (length ess))) (rest_hit hit blocks k addr e [] (es' ∷ ess) h)
      | inr h ↦
          scan_over hit blocks entries total rounds k addr size e more inside there h
            (at_end (size + e.rec_len) (k + 1) (omega (arith, b)))
          ∙ ap (λ j. scan hit blocks entries total rounds j (1024 * blocks j) (size + e.rec_len))
              next
          ∙ scan-locate_from hit blocks entries ess es' rounds (suc k) (1024 * blocks (suc k)) 1024
              (size + e.rec_len) total (omega arith) (omega arith) (omega (arith, b))
              (omega (arith, b)) (omega arith) (omega (arith, on_disk)) b' bs
          ∙ ap (λ n. outcome n (rest_of hit blocks (suc k) (1024 * blocks (suc k)) es' ess)) count
          ∙ ap (outcome (suc k + suc (length ess))) (rest_miss hit blocks k addr e [] (es' ∷ ess) h)
    ]

-- In a directory whose entries fill its blocks, the loop over the entries ends within the rounds it is
-- given, and finds the first entry that is wanted, in the order of the blocks, or none if there is
-- none.
pub scan_dir-locate_in :
    (hit : Entry → Bool) (blocks : ℕ → ℕ) (entries : ℕ → Entry) (ess : List (List Entry))
    → IsDir entries blocks 0 ess
    → scan_dir hit blocks (1024 * length ess) entries
      ≡ outcome (length ess) (locate_in hit blocks 0 ess)
unfolding scan_dir
scan_dir-locate_in hit blocks entries [] dir =
    scan_end hit blocks entries (1024 * 0) (1024 * 0) 0 (1024 * blocks 0) 0 (omega arith)
scan_dir-locate_in hit blocks entries (es ∷ ess) (on_disk, b, bs) =
    scan-locate_from hit blocks entries ess es (1024 * suc (length ess)) 0 (1024 * blocks 0) 1024 0
      (1024 * suc (length ess)) (omega arith) (omega arith) (omega arith) (omega arith)
      (omega arith) (omega (arith, on_disk)) b bs
    ∙ ap (λ n. outcome n (rest_of hit blocks 0 (1024 * blocks 0) es ess)) (omega arith)
